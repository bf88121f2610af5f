-- ===== src/Lifecycle/Outbox/Ends.antt =====
-- outbox_dispatcher.go: a message does not go round for ever.
use ano_pki_community.Common.{
  String, ◌≡◌, ◌⊎◌, inl, inr, refl, subst, arith, ℕ, zero, suc, ◌+◌, ◌≤◌, ◌<◌, Option, none, some,
  lookup, Time, sym,
}
use ano_pki_community.Domain.{OutboxMessage, OutboxMessageStatus}
use ano_pki_community.Lifecycle.World.{World}
use ano_pki_community.Lifecycle.Outbox.{
  OutboxDispatcher, leased, claim, run_message, effective_outbox_max_attempts,
}
use ano_pki_community.Lifecycle.Outbox.Claims.{IsClaimable, IsStored, read_once, claim_lem}
use ano_pki_community.Lifecycle.Outbox.Delays.{Outcome, effective_again}
use ano_pki_community.Lifecycle.Outbox.Turns.{IsProcessed, run_message_lem}

-- Some turns of the dispatcher's loop over the message that is stored under an id each time.
abbrev turn : OutboxDispatcher → Option OutboxMessage → World → World
turn d none w = w
turn d (some m) w = (run_message d m w).1

abbrev pub turns : OutboxDispatcher → ℕ → String → World → World
turns d zero id w = w
turns d (suc n) id w = turns d n id (turn d (lookup id w.store.outbox) w)

-- The message that is stored under the id is delivered or given up.
abbrev pub IsEnded : String → World → Type 0
IsEnded id w =
    (m : OutboxMessage) × (lookup id w.store.outbox ≡ some m)
    × ((m.status ≡ OutboxMessageStatus.completed) ⊎ (m.status ≡ OutboxMessageStatus.dead_letter))

module _ (d : OutboxDispatcher)
    (keeps : (m : OutboxMessage) (w : World)
      → (d.handle_outbox_message m w).1.store.outbox ≡ w.store.outbox) where
  -- What one turn makes of a stored message.
  abbrev Turned : OutboxMessage → World → Type 0
  Turned m w =
      (failure : Option String) × (at : Time) × (job : String) × IsProcessed
        (leased m (d.environment.reading w.readings)) failure at job (run_message d m w).1

  turned : (m : OutboxMessage) (w : World) → IsClaimable m → IsStored m w → Turned m w
  turned m w c k =
      let env = d.environment in
      let claimed = leased m (env.reading w.readings) in
      let before = read_once (claim env m w).1 in
      (
        _,
        _,
        _,
        (run_message_lem d m w c k (rw (keeps claimed before) (claim_lem env m w c k).1.stored)).1,
      )

  -- A message that goes on has one attempt more, of the same number.
  abbrev GoesOn : OutboxMessage → World → Type 0
  GoesOn m w =
      (next : OutboxMessage) × (next.id ≡ m.id)
      × IsStored next w
      × (next.status ≡ OutboxMessageStatus.pending)
      × (next.attempt_count ≡ m.attempt_count + 1)
      × (effective_outbox_max_attempts next ≡ effective_outbox_max_attempts m)
      × (m.attempt_count + 1 < effective_outbox_max_attempts m)

  Outcome-cases :
      (m next : OutboxMessage) (now at : Time) (failure : Option String) (w : World)
      → lookup m.id w.store.outbox ≡ some next
      → next.id ≡ m.id
      → Outcome (leased m now) failure at next
      → IsEnded m.id w ⊎ GoesOn m w
  unfolding effective_outbox_max_attempts
  Outcome-cases m next now at none w stored same o = inl (next, stored, inl o.0)
  Outcome-cases m next now at (some text) w stored same o = elim o.goes_on [
    | inl (used, dead) ↦ inl (next, stored, inr dead)
    | inr (left, pending, early, late) ↦ inr (
      next,
      same,
      subst (λ id. lookup id w.store.outbox ≡ some next) (sym same) stored,
      pending,
      o.counted,
      effective_again m next o.limit,
      left,
    )
  ]

  turn-cases :
      (m : OutboxMessage) (w : World)
      → IsClaimable m
      → IsStored m w
      → let w' = turn d (lookup m.id w.store.outbox) w in IsEnded m.id w' ⊎ GoesOn m w'
  turn-cases m w c k =
      let (failure, at, job, done) = turned m w c k in
      rw k (
        Outcome-cases m done.next (d.environment.reading w.readings) at failure
          (run_message d m w).1 done.stored done.same_id done.outcome)

  ends :
      (k : ℕ) (m : OutboxMessage) (w : World)
      → IsClaimable m
      → IsStored m w
      → effective_outbox_max_attempts m ≤ m.attempt_count + suc k
      → (n : ℕ) × (n ≤ suc k) × IsEnded m.id (turns d n m.id w)
  ends zero m w c stored l = elim (turn-cases m w c stored) [
    | inl ended ↦ (1, omega arith, ended)
    | inr (next, same, again, pending, counted, limit, left) ↦ absurd (omega (arith, l, left))
  ]
  ends (suc k) m w c stored l = elim (turn-cases m w c stored) [
    | inl ended ↦ (1, omega arith, ended)
    | inr (next, same, again, pending, counted, limit, left) ↦
        let w' = turn d (lookup m.id w.store.outbox) w in
        let (n, le, ended) =
          ends k next w' (inl pending) again (omega (arith, l, counted, limit)) in
        (suc n, omega (arith, le), subst (λ id. IsEnded id (turns d n id w')) same ended)
  ]

pred_of : (n : ℕ) → 0 < n → (k : ℕ) × (n ≡ suc k)
pred_of zero h = absurd (omega (arith, h))
pred_of (suc k) h = (k, refl)

limit_positive : (m : OutboxMessage) → 0 < effective_outbox_max_attempts m
unfolding effective_outbox_max_attempts
limit_positive m = ground arith

-- A pending or processing message with no attempt counted does not go round for ever: after some
-- number of turns, at most as many as its limit of attempts, it is stored as completed or as
-- dead_letter, whatever the handler answers each time. The handler does not write the outbox.
pub outbox_message_ends :
    (d : OutboxDispatcher)
    (keeps : (m : OutboxMessage) (w : World)
      → (d.handle_outbox_message m w).1.store.outbox ≡ w.store.outbox)
    (m : OutboxMessage) (w : World)
    → IsClaimable m
    → IsStored m w
    → m.attempt_count ≡ 0
    → (n : ℕ) × (n ≤ effective_outbox_max_attempts m) × IsEnded m.id (turns d n m.id w)
outbox_message_ends d keeps m w c stored new =
    let (k, e) = pred_of (effective_outbox_max_attempts m) (limit_positive m) in
    let (n, le, ended) = ends d keeps k m w c stored (omega (arith, new, e)) in
    (n, omega (arith, le, e), ended)
