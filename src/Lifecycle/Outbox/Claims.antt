-- ===== src/Lifecycle/Outbox/Claims.antt =====
-- The claims of outbox_dispatcher.go: what a claim does to the stored message, and that of two
-- dispatchers that hold the same version of a message only one gets it.
use ano_pki_community.Store.State.{written}
use ano_pki_community.Common.{
  String, ◌≢◌, ◌≡◌, refl, ◌∙◌, ap, ◌⊎◌, inl, inr, true, false, none, some, ◌+◌, ◌*◌, minute, ◌<◌,
  ◌≤◌, Time, ok, arith, lookup, insert, lookup-insert_self, lookup-insert, eq_iff, is_yes,
}
use ano_pki_community.Domain.{OutboxMessage, OutboxMessageStatus, OutboxMessageStatus-discrete}
use ano_pki_community.Store.Outbox.{
  due_by_status, same_message, outbox_message_due,
  update_outbox_message_if_current as conditional_write,
}
use ano_pki_community.Store.Repository.{update_outbox_message_if_current}
use ano_pki_community.Lifecycle.World.{World, Environment, bound, guard}
use ano_pki_community.Lifecycle.Outbox.{
  replace, leased, recovered, claim, claim_by_status, lease_recovered,
}

-- The message is stored in this very version.
abbrev pub IsStored : OutboxMessage → World → Type 0
IsStored m w = lookup m.id w.store.outbox ≡ some m

-- The world with a message written, and with one more reading of the clock.
abbrev pub put : OutboxMessage → World → World
put m w = record w { store = record w.store { outbox = insert m.id m w.store.outbox } }

abbrev pub read_once : World → World
read_once w = record w { readings = w.readings + 1 }

is_yes_refl : (x y : OutboxMessageStatus) (d : Dec (x ≡ y)) → x ≡ y → is_yes d ≡ true
is_yes_refl x y (yes p) q = refl
is_yes_refl x y (no n) q = absurd (n q)

pub same_message_refl : (m : OutboxMessage) → same_message m m ≡ true
same_message_refl m =
    rw (is_yes_refl m.status m.status (OutboxMessageStatus-discrete m.status m.status) refl)
      (ground arith)

pub replace_stored :
    (next current : OutboxMessage) (w : World)
    → next.id ≡ current.id
    → IsStored current w
    → replace next current w ≡ (ok (some next), put next w)
unfolding bound guard written update_outbox_message_if_current conditional_write
replace_stored next current w i k = rw (i, k, same_message_refl current) refl

pub replace_lost :
    (next current other : OutboxMessage) (w : World)
    → lookup next.id w.store.outbox ≡ some other
    → same_message other current ≡ false
    → replace next current w ≡ (ok none, w)
unfolding bound guard written update_outbox_message_if_current conditional_write
replace_lost next current other w k n = rw (k, n) refl

-- The statuses from which a message is claimed.
abbrev pub IsClaimable : OutboxMessage → Type 0
IsClaimable m =
    (m.status ≡ OutboxMessageStatus.pending) ⊎ (m.status ≡ OutboxMessageStatus.processing)

-- The message is the one version stored under its id, and every other entry is as before.
pub record IsWritten (m : OutboxMessage) (w w' : World) : Type 0 where
  pub stored : IsStored m w'
  pub others : (id : String) → id ≢ m.id → lookup id w'.store.outbox ≡ lookup id w.store.outbox

claim_pending :
    (env : Environment) (m : OutboxMessage) (w : World)
    → m.status ≡ OutboxMessageStatus.pending
    → IsStored m w
    → let next = leased m (env.reading w.readings) in
      claim env m w ≡ (ok (some next), put next (read_once w))
unfolding bound guard written claim
claim_pending env m w s k =
    ap (λ status. claim_by_status env status m w) s ∙ replace_stored _ m (read_once w) refl k

claim_processing :
    (env : Environment) (m : OutboxMessage) (w : World)
    → m.status ≡ OutboxMessageStatus.processing
    → IsStored m w
    → let now = env.reading w.readings in
      let next = leased m now in
      claim env m w ≡ (ok (some next), put next (put (recovered m now) (read_once w)))
unfolding bound guard written claim
claim_processing env m w s k =
    let now = env.reading w.readings in
    ap (λ status. claim_by_status env status m w) s
    ∙ ap (bound (lease_recovered now)) (replace_stored (recovered m now) m (read_once w) refl k)
    ∙ replace_stored (leased m now) (recovered m now) _ refl
        (lookup-insert_self m.id (recovered m now) w.store.outbox)

put_others :
    (m : OutboxMessage) (w : World) (id : String)
    → id ≢ m.id
    → lookup id (put m w).store.outbox ≡ lookup id w.store.outbox
put_others m w id d = ground (arith, lookup-insert m.id id m w.store.outbox, eq_iff m.id id)

-- A claim of a pending or processing message that is stored as the dispatcher has read it gets it:
-- it is stored with the status processing and a deadline ten minutes after the reading of the clock,
-- all else being the same, and no other message changes.
pub claim_lem :
    (env : Environment) (m : OutboxMessage) (w : World)
    → IsClaimable m
    → IsStored m w
    → let now = env.reading w.readings in
      let next : OutboxMessage = record m {
        status = OutboxMessageStatus.processing;
        processing_deadline_at = now + 10 * minute;
        updated_at = now;
      } in
      ((claim env m w).0 ≡ ok (some next)) × IsWritten next w (claim env m w).1
claim_lem env m w (inl s) k = rw (claim_pending env m w s k) (
  refl,
  record {
    stored = lookup-insert_self m.id (leased m (env.reading w.readings)) w.store.outbox;
    others = put_others (leased m (env.reading w.readings)) w;
  },
)
claim_lem env m w (inr s) k = rw (claim_processing env m w s k) (
  refl,
  let now = env.reading w.readings in
      record {
        stored = lookup-insert_self m.id (leased m now) (put (recovered m now) w).store.outbox;
        others = λ id d.
            put_others (leased m now) (put (recovered m now) w) id d
            ∙ put_others (recovered m now) w id d;
      },
)

due-cases :
    (s : OutboxMessageStatus) (m : OutboxMessage) (due : Time)
    → due_by_status s m due ≡ true
    → (s ≡ OutboxMessageStatus.pending)
      ⊎ ((s ≡ OutboxMessageStatus.processing) × (m.processing_deadline_at ≤ due))
due-cases OutboxMessageStatus.pending m due h = inl refl
due-cases OutboxMessageStatus.processing m due h = inr (refl, ground arith)
due-cases OutboxMessageStatus.completed m due h = cc
due-cases OutboxMessageStatus.failed m due h = cc
due-cases OutboxMessageStatus.dead_letter m due h = cc

pending_differs :
    (m n : OutboxMessage)
    → n.status ≡ OutboxMessageStatus.pending
    → m.status ≡ OutboxMessageStatus.processing
    → same_message m n ≡ false
unfolding OutboxMessageStatus-discrete
pending_differs m n p q = rw (p, q) refl

deadline_differs :
    (m n : OutboxMessage)
    → n.processing_deadline_at < m.processing_deadline_at
    → same_message m n ≡ false
deadline_differs m n l = ground arith

-- Two dispatchers have listed one due message, and the first has claimed it no earlier than the time
-- it was due at. The claim of the second gets nothing and writes nothing, at any later reading.
pub claim_exclusive :
    (env : Environment) (m : OutboxMessage) (due now : Time) (w : World)
    → outbox_message_due m due ≡ true
    → due ≤ now
    → IsStored (leased m now) w
    → claim env m w ≡ (ok none, read_once w)
unfolding bound guard written outbox_message_due claim
claim_exclusive env m due now w d l k = elim (due-cases m.status m due d) [
  | inl s ↦
      ap (λ status. claim_by_status env status m w) s
      ∙ replace_lost _ m (leased m now) (read_once w) k (pending_differs (leased m now) m s refl)
  | inr (s, early) ↦
      ap (λ status. claim_by_status env status m w) s
      ∙ ap (bound (lease_recovered (env.reading w.readings))) (
          replace_lost _ m (leased m now) (read_once w) k
            (deadline_differs (leased m now) m (omega (arith, early, l))))
]
