-- ===== src/Lifecycle/Caa/Safe.antt =====
-- caa.go: parseCAAResponse comes to an end on every message and never reads out of range.
use ano_pki_community.Common.{
  ℕ, zero, suc, ◌+◌, ◌-◌, ◌/◌, ◌%◌, ◌≡◌, ◌≤◌, ◌<◌, refl, arith, Bool, true, false, Bool-cases, inl,
  inr, not, ◌&&◌, none, some, List, [], ◌∷◌, length, length-take, drop, leb, eqb, Result, ok, err,
}
use ano_pki_community.Lifecycle.Caa.{
  CaaRecord, CaaLookupResult, Run, yields, run_then, access, refuse, byte_at, slice, uint16_at,
  after_length, skip_rounds, skip_dns_name, skip_questions, tagged, read_record, read_records,
  parse_answers, parse_by_code, parse_caa_response, dns_type_caa,
}

-- The run ends without a panic, and what it yields satisfies the predicate.
unfoldable pub Ends : {A : Type 0} → (A → Type 0) → Run A → Type 0
Ends Q none = ⊥
Ends Q (some (err x)) = Unit {0}
Ends Q (some (ok a)) = Q a

module _ {B : Type 0} (Q : B → Type 0) where
  Ends-then :
      {A : Type 0} (P : A → Type 0) (m : Run A) (f : A → Run B)
      → Ends P m
      → ((a : A) → P a → Ends Q (f a))
      → Ends Q (run_then m f)
  unfolding Ends run_then
  Ends-then P none f h g = h
  Ends-then P (some (err x)) f h g = tt
  Ends-then P (some (ok a)) f h g = g a h

  Ends-refuse :
      (bad : Bool) (k : Run B) → (bad ≡ false → Ends Q k) → Ends Q (run_then (refuse bad) λ _. k)
  unfolding Ends run_then refuse
  Ends-refuse true k h = tt
  Ends-refuse false k h = h refl

  Ends-yields : (b : B) → Q b → Ends Q (yields b)
  unfolding Ends
  Ends-yields b h = h

abbrev Any : {A : Type 0} → A → Type 0
Any a = Unit {0}

byte_at-access : (bytes : List ℕ) (i : ℕ) → i < length bytes → Ends Any (access (byte_at bytes i))
unfolding Ends access byte_at
byte_at-access [] i h = absurd (omega (arith, h))
byte_at-access (b ∷ bytes) zero h = tt
byte_at-access (b ∷ bytes) (suc i) h = byte_at-access bytes i (omega (arith, h))

length-drop : (n : ℕ) (xs : List ℕ) → length (drop n xs) ≡ length xs - n
length-drop zero xs = omega arith
length-drop (suc n) [] = omega arith
length-drop (suc n) (x ∷ xs) = omega (arith, length-drop n xs)

slice-access :
    (bytes : List ℕ) (from to : ℕ)
    → from ≤ to
    → to ≤ length bytes
    → Ends (λ rdata. length rdata ≡ to - from) (access (slice bytes from to))
unfolding Ends access slice
slice-access bytes from to h k = elim (Bool-cases (leb from to && leb to (length bytes))) [
  | inl e ↦
      rw e (omega (arith, h, k, length-take (to - from) (drop from bytes), length-drop from bytes))
  | inr e ↦ absurd (ground (arith, e, h, k))
]

uint16_at-Ends :
    (message : List ℕ) (i : ℕ) → i + 2 ≤ length message → Ends Any (uint16_at message i)
unfolding uint16_at
uint16_at-Ends message i h =
    Ends-then Any Any _ _ (byte_at-access message i (omega (arith, h))) λ high u.
      Ends-then Any Any _ _ (byte_at-access message (i + 1) (omega (arith, h)))
        λ low v. Ends-yields Any _ tt

-- Where a name ends inside the message.
abbrev Within : List ℕ → ℕ → Type 0
Within message offset = offset ≤ length message

after_length-Ends :
    (rest : ℕ → Run ℕ) (message : List ℕ) (offset n : ℕ)
    → offset ≤ length message
    → ((o : ℕ) → o ≤ length message → offset ≤ o → Ends (Within message) (rest o))
    → Ends (Within message) (after_length rest message offset n)
after_length-Ends rest message offset n h k = elim (Bool-cases (eqb n 0)) [
  | inl last ↦ rw last (Ends-yields (Within message) offset h)
  | inr more ↦ rw more (elim (Bool-cases (eqb (n / 64 % 4) 3)) [
    | inl pointer ↦ rw pointer (
        Ends-refuse (Within message) _ _
          λ inside. Ends-yields (Within message) (offset + 1) (ground (arith, inside)))
    | inr label ↦ rw label (
        Ends-refuse (Within message) _ _
          λ inside. k (offset + n) (ground (arith, inside)) (omega arith))
  ])
]

skip_rounds-Ends :
    (fuel : ℕ) (message : List ℕ) (offset : ℕ)
    → offset ≤ length message
    → length message < fuel + offset
    → Ends (Within message) (skip_rounds fuel message offset)
unfolding skip_rounds
skip_rounds-Ends zero message offset h k = absurd (omega (arith, h, k))
skip_rounds-Ends (suc fuel) message offset h k =
    let Q = Within message in
    Ends-refuse Q _ _ λ inside.
      Ends-then Q Any _ _ (byte_at-access message offset (ground (arith, inside))) λ n u.
        after_length-Ends (skip_rounds fuel message) message (offset + 1) n (ground (arith, inside))
          λ o l m. skip_rounds-Ends fuel message o l (omega (arith, k, m))

skip_dns_name-Ends :
    (message : List ℕ) (offset : ℕ)
    → offset ≤ length message
    → Ends (Within message) (skip_dns_name message offset)
unfolding skip_dns_name
skip_dns_name-Ends message offset h =
    skip_rounds-Ends (length message + 1) message offset h (omega arith)

skip_questions-Ends :
    (n : ℕ) (message : List ℕ) (offset : ℕ)
    → offset ≤ length message
    → Ends (Within message) (skip_questions n message offset)
unfolding skip_questions
skip_questions-Ends zero message offset h = Ends-yields (Within message) offset h
skip_questions-Ends (suc n) message offset h =
    let Q = Within message in
    Ends-then Q Q _ _ (skip_dns_name-Ends message offset h) λ after l.
      Ends-refuse Q _ _ λ inside. skip_questions-Ends n message (after + 4) (ground (arith, inside))

tagged-Ends :
    (rdata : List ℕ) (records : List CaaRecord) (n : ℕ)
    → 2 ≤ length rdata
    → Ends Any (tagged rdata records n)
unfolding tagged
tagged-Ends rdata records n h = elim (Bool-cases (leb (2 + n) (length rdata))) [
  | inl e ↦ rw e (
      Ends-then Any Any _ _ (byte_at-access rdata 0 (omega (arith, h))) λ flag u.
        Ends-then Any _ _ _ (slice-access rdata 2 (2 + n) (omega arith) (ground (arith, e)))
          λ tag v.
            Ends-then Any _ _ _
              (slice-access rdata (2 + n) (length rdata) (ground (arith, e)) (omega arith))
              λ value x. Ends-yields Any _ tt)
  | inr e ↦ rw e (Ends-yields Any records tt)
]

read_record-Ends :
    (message : List ℕ) (offset n rr_type rr_class : ℕ) (records : List CaaRecord)
    → offset + n ≤ length message
    → Ends Any (read_record message offset n rr_type rr_class records)
unfolding read_record
read_record-Ends message offset n rr_type rr_class records h =
    elim (Bool-cases (eqb rr_type dns_type_caa && eqb rr_class 1 && leb 2 n)) [
      | inr e ↦ rw e (Ends-yields Any records tt)
      | inl e ↦ rw e (
          Ends-then Any _ _ _ (slice-access message offset (offset + n) (omega arith) h) λ rdata l.
            Ends-then Any Any _ _ (byte_at-access rdata 1 (ground (arith, e, l)))
              λ tag_length u. tagged-Ends rdata records tag_length (ground (arith, e, l)))
    ]

read_records-Ends :
    (n : ℕ) (message : List ℕ) (offset : ℕ) (records : List CaaRecord)
    → offset ≤ length message
    → Ends Any (read_records n message offset records)
unfolding read_records
read_records-Ends zero message offset records h = Ends-yields Any records tt
read_records-Ends (suc n) message offset records h =
    Ends-then Any (Within message) _ _ (skip_dns_name-Ends message offset h) λ o l.
      Ends-refuse Any _ _ λ head.
        let room : o + 10 ≤ length message = ground (arith, head) in
        Ends-then Any Any _ _ (uint16_at-Ends message o (omega (arith, room))) λ rr_type u.
          Ends-then Any Any _ _ (uint16_at-Ends message (o + 2) (omega (arith, room))) λ rr_class v.
            Ends-then Any Any _ _ (uint16_at-Ends message (o + 8) (omega (arith, room))) λ rd x.
              Ends-refuse Any _ _ λ inside.
                let fits : o + 10 + rd ≤ length message = ground (arith, inside) in
                Ends-then Any Any _ _
                  (read_record-Ends message (o + 10) rd rr_type rr_class records fits)
                  λ more y. read_records-Ends n message (o + 10 + rd) more fits

parse_answers-Ends :
    (message : List ℕ) (flags : ℕ) → 12 ≤ length message → Ends Any (parse_answers message flags)
parse_answers-Ends message flags h =
    Ends-then Any Any _ _ (uint16_at-Ends message 4 (omega (arith, h))) λ qd u.
      Ends-then Any Any _ _ (uint16_at-Ends message 6 (omega (arith, h))) λ an v.
        Ends-then Any (Within message) _ _ (skip_questions-Ends qd message 12 h) λ offset l.
          Ends-then Any Any _ _ (read_records-Ends an message offset [] l)
            λ records x. Ends-yields Any _ tt

parse_by_code-Ends :
    (message : List ℕ) (flags : ℕ) → 12 ≤ length message → Ends Any (parse_by_code message flags)
unfolding Ends
parse_by_code-Ends message flags h = elim (Bool-cases (eqb (flags % 16) 2)) [
  | inl e ↦ rw e tt
  | inr e ↦ rw e (elim (Bool-cases (eqb (flags % 16) 3)) [
    | inl f ↦ rw f tt
    | inr f ↦ rw f (elim (Bool-cases (not (eqb (flags % 16) 0))) [
      | inl g ↦ rw g tt
      | inr g ↦ rw g (parse_answers-Ends message flags h)
    ])
  ])
]

Ends-result : {A : Type 0} (m : Run A) → Ends Any m → (r : Result A) × (m ≡ some r)
unfolding Ends
Ends-result none h = absurd h
Ends-result (some r) h = (r, refl)

-- On every message and for every id, parseCAAResponse comes to an end with a result or an error: no
-- index and no slice is out of range, and no loop runs out of its rounds.
pub parse_caa_response-ends :
    (message : List ℕ) (id : ℕ)
    → (r : Result (CaaLookupResult × Bool)) × (parse_caa_response message id ≡ some r)
unfolding parse_caa_response
parse_caa_response-ends message id = Ends-result _ (
    Ends-refuse Any _ _ λ inside.
      let room : 12 ≤ length message = ground (arith, inside) in
      Ends-then Any Any _ _ (uint16_at-Ends message 0 (omega (arith, room))) λ got u.
        Ends-refuse Any _ _ λ same.
          Ends-then Any Any _ _ (uint16_at-Ends message 2 (omega (arith, room)))
            λ flags v. parse_by_code-Ends message flags room)
