-- ===== src/Lifecycle/Outbox/Delays.antt =====
-- outbox_dispatcher.go: what a handled message becomes, with the bounds of the retry delay and the
-- number of attempts.
use Prim.Native.Nat.{◌/◌}
use ano_pki_community.Common.{
  String, ◌≡◌, refl, ◌⊎◌, inl, inr, Option, none, some, List, [], ◌∷◌, ℕ, ◌+◌, ◌*◌, ◌≤◌, ◌<◌, arith,
  Time, minute, hour, zero_time, length, leb, Bool-cases, ◌∙◌,
}
use ano_pki_community.Domain.{OutboxMessage, OutboxMessageStatus}
use ano_pki_community.Lifecycle.Outbox.{
  OutboxDispatcher, effective_outbox_max_attempts, outbox_retry_delay_for_attempt,
  outbox_retry_delay_for_message, settle, finished,
}

delay-cases :
    (n : ℕ)
    → let base = outbox_retry_delay_for_attempt n in
      (base ≡ minute) ⊎ (base ≡ 5 * minute) ⊎ (base ≡ 15 * minute) ⊎ (base ≡ hour)
unfolding outbox_retry_delay_for_attempt
delay-cases n = ground arith

-- The delay before the next attempt is the one of the table, with a jitter of at most a tenth of it:
-- between one minute and 66 minutes.
pub retry_delay_bounds :
    (d : OutboxDispatcher) (m : OutboxMessage)
    → let base = outbox_retry_delay_for_attempt m.attempt_count in
      let delay = outbox_retry_delay_for_message d m in
      (base ≤ delay) × (delay ≤ base + base / 10) × (minute ≤ delay) × (delay ≤ 66 * minute)
unfolding outbox_retry_delay_for_message
retry_delay_bounds d m = elim (delay-cases m.attempt_count) [
  | inl p ↦ rw p (ground arith)
  | inr (inl p) ↦ rw p (ground arith)
  | inr (inr (inl p)) ↦ rw p (ground arith)
  | inr (inr (inr p)) ↦ rw p (ground arith)
]

-- The message as it is stored behind a handled attempt.
abbrev pub settled : OutboxDispatcher → OutboxMessage → Option String → Time → OutboxMessage
settled d claimed failure at =
    let (message, status) = settle d claimed failure at in finished message status at

-- What a failed attempt leaves: one attempt more, the text of the error, and the message dead once
-- the attempts are used up, else pending with a time between 1 and 66 minutes ahead.
pub record IsFailed (claimed : OutboxMessage) (text : String) (at : Time) (next : OutboxMessage)
    : Type 0 where
  pub counted : next.attempt_count ≡ claimed.attempt_count + 1
  pub limit : next.max_attempts ≡ effective_outbox_max_attempts claimed
  pub noted : next.last_error ≡ text
  pub released : next.processing_deadline_at ≡ zero_time
  pub goes_on :
      ((effective_outbox_max_attempts claimed ≤ claimed.attempt_count + 1)
        × (next.status ≡ OutboxMessageStatus.dead_letter))
      ⊎ ((claimed.attempt_count + 1 < effective_outbox_max_attempts claimed)
          × (next.status ≡ OutboxMessageStatus.pending)
          × (at + minute ≤ next.available_at)
          × (next.available_at ≤ at + 66 * minute))

abbrev pub Outcome : OutboxMessage → Option String → Time → OutboxMessage → Type 0
Outcome claimed none at next =
    (next.status ≡ OutboxMessageStatus.completed)
    × (next.attempt_count ≡ claimed.attempt_count)
    × (next.last_error ≡ "")
    × (next.processing_deadline_at ≡ zero_time)
Outcome claimed (some text) at next = IsFailed claimed text at next

pub settled-Outcome :
    (d : OutboxDispatcher) (claimed : OutboxMessage) (failure : Option String) (at : Time)
    → Outcome claimed failure at (settled d claimed failure at)
unfolding settle
settled-Outcome d claimed none at = (refl, refl, refl, refl)
settled-Outcome d claimed (some text) at =
    let bounds = retry_delay_bounds d (record claimed {
      attempt_count = claimed.attempt_count + 1;
      max_attempts = effective_outbox_max_attempts claimed;
      last_error = text;
    }) in
    elim (Bool-cases (leb (effective_outbox_max_attempts claimed) (claimed.attempt_count + 1))) [
      | inl p ↦ rw p (record {
        counted = refl;
        limit = refl;
        noted = refl;
        released = refl;
        goes_on = inl (ground arith, refl);
      })
      | inr p ↦ rw p (record {
        counted = refl;
        limit = refl;
        noted = refl;
        released = refl;
        goes_on = inr (ground arith, refl, omega (arith, bounds.2), omega (arith, bounds.3));
      })
    ]

-- A message through a row of failed attempts, each with the text of its error and its time. Between
-- two of them the message is claimed.
abbrev pub failures : OutboxDispatcher → OutboxMessage → List (String × Time) → OutboxMessage
failures d m [] = m
failures d m ((text, at) ∷ rest) = failures d (settled d m (some text) at) rest

pub effective_again :
    (m n : OutboxMessage)
    → n.max_attempts ≡ effective_outbox_max_attempts m
    → effective_outbox_max_attempts n ≡ effective_outbox_max_attempts m
unfolding effective_outbox_max_attempts
effective_again m n p = ground arith

failures_lem :
    (d : OutboxDispatcher) (m : OutboxMessage) (first : String × Time) (rest : List (String × Time))
    → let last = failures d m (first ∷ rest) in
      let attempts = m.attempt_count + length rest + 1 in
      (last.attempt_count ≡ attempts)
      × (attempts < effective_outbox_max_attempts m → last.status ≡ OutboxMessageStatus.pending)
      × (attempts ≡ effective_outbox_max_attempts m → last.status ≡ OutboxMessageStatus.dead_letter)
failures_lem d m (text, at) [] =
    let k = settled-Outcome d m (some text) at in
    elim k.goes_on [
      | inl (l, dead) ↦
          (k.counted ∙ omega arith, λ less. absurd (omega (arith, l, less)), λ same. dead)
      | inr (l, pending, early, late) ↦
          (k.counted ∙ omega arith, λ less. pending, λ same. absurd (omega (arith, l, same)))
    ]
failures_lem d m (text, at) (second ∷ rest) =
    let next = settled d m (some text) at in
    let k = settled-Outcome d m (some text) at in
    let (count, less, same) = failures_lem d next second rest in
    let limit = effective_again m next k.limit in
    (
      omega (arith, count, k.counted),
      λ l. less (omega (arith, k.counted, limit, l)),
      λ e. same (omega (arith, k.counted, limit, e)),
    )

-- A new message is dead after exactly as many failed attempts as its effective limit, and pending
-- after fewer.
pub dead_letter_after_max_attempts :
    (d : OutboxDispatcher) (m : OutboxMessage) (first : String × Time) (rest : List (String × Time))
    → m.attempt_count ≡ 0
    → let last = failures d m (first ∷ rest) in
      let attempts = length rest + 1 in
      (last.attempt_count ≡ attempts)
      × (attempts < effective_outbox_max_attempts m → last.status ≡ OutboxMessageStatus.pending)
      × (attempts ≡ effective_outbox_max_attempts m → last.status ≡ OutboxMessageStatus.dead_letter)
dead_letter_after_max_attempts d m first rest z =
    let (count, less, same) = failures_lem d m first rest in
    (omega (arith, count, z), λ l. less (omega (arith, z, l)), λ e. same (omega (arith, z, e)))
