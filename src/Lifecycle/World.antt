-- ===== src/Lifecycle/World.antt =====
-- What the services of lifecycle/ run over: the repository, the Clock and the IDGenerator. A reading
-- of the clock and a new id are taken one after the other, and no failure takes them back.
pub mod Ensures
pub mod Leaves
use ano_pki_community.Common.{String, ℕ, ◌+◌, Bool, true, false, Time, Result, ok, err, Error}
use ano_pki_community.Store.State.{MemoryStore, Repo, within_tx}

-- `readings` and `ids` count what was taken from the clock and from the generator.
pub record World : Type 0 where
  pub store : MemoryStore
  pub readings : ℕ
  pub ids : ℕ

-- The two interfaces: the n-th reading, and the n-th id.
pub record Environment : Type 0 where
  pub reading : ℕ → Time
  pub new_id : ℕ → String

abbrev pub Op : Type 0 → Type 0
Op A = World → Result A × World

abbrev pub return : {A : Type 0} → A → Op A
return a w = (ok a, w)

abbrev pub fail : {A : Type 0} → Error → Op A
fail e w = (err e, w)

abbrev pub lift : {A : Type 0} → Result A → Op A
lift r w = (r, w)

unfoldable pub bound : {A B : Type 0} → (A → Op B) → Result A × World → Result B × World
bound f (ok a, w) = f a w
bound f (err e, w) = (err e, w)

infixl 5 ◌>>=◌ ◌>>◌
abbrev pub ◌>>=◌ : {A B : Type 0} → Op A → (A → Op B) → Op B
m >>= f = λ w. bound f (m w)

abbrev pub ◌>>◌ : {B : Type 0} → Op (Unit {0}) → Op B → Op B
m >> k = m >>= λ _. k

-- `if bad { return err }`.
unfoldable pub guard : Bool → Error → Op (Unit {0})
guard true e = fail e
guard false e = return tt

-- A call whose error the caller looks at.
abbrev pub attempt : {A : Type 0} → Op A → Op (Result A)
attempt m w = let (r, w') = m w in (ok r, w')

-- A method of the repository.
abbrev pub repo : {A : Type 0} → Repo A → Op A
repo f w = let (r, s) = f w.store in (r, record w { store = s })

abbrev pub clock_now : Environment → Op Time
clock_now env w = (ok (env.reading w.readings), record w { readings = w.readings + 1 })

abbrev pub fresh_id : Environment → Op String
fresh_id env w = (ok (env.new_id w.ids), record w { ids = w.ids + 1 })

abbrev on_copy : {A : Type 0} → Op A → MemoryStore → World → Result A × MemoryStore × World
on_copy f s w = let (r, w') = f (record w { store = s }) in (r, w'.store, w')

-- repo.WithinTx around calls of the same service.
unfoldable pub in_tx : {A : Type 0} → Op A → Op A
unfolding within_tx
in_tx f w = let (r, s, w') = within_tx (on_copy f) w.store w in (r, record w' { store = s })
