-- ===== src/Lifecycle/Services/Replays/Window.antt =====
-- service.go: what ReplayDeadLetterOutboxMessages replays.
use ano_pki_community.Common.{
  String, ℕ, ◌≡◌, ◌≤◌, ◌<◌, refl, arith, false, Bool-cases, inl, inr, List, [], ◌∷◌, ◌++◌, All, leb,
  length, length-append, eq_iff, Time, ok,
}
use ano_pki_community.Domain.{OutboxMessage, OutboxMessageStatus}
use ano_pki_community.Store.Repository.{
  list_outbox_messages, update_outbox_message_status_if_status,
}
use ano_pki_community.Lifecycle.World.{World}
use ano_pki_community.Lifecycle.World.Ensures.{
  Ensures, Ensures-ok, Ensures-in_tx, Ensures-then, Ensures-guard, Ensures-written, Ensures-step,
  Ensures-return,
}
use ano_pki_community.Lifecycle.Services.{Service}
use ano_pki_community.Lifecycle.Services.Audited.{Ensures-Audited}
use ano_pki_community.Lifecycle.Services.Replays.{
  ReplayDeadLetterOutboxRequest, ReplayTexts, outbox_message_for_replay, is_outside, replay_loop,
  replay_dead_letter_outbox_messages,
}

-- A message that was put back for the request at a time.
abbrev pub IsReplayed : ReplayDeadLetterOutboxRequest → Time → OutboxMessage → Type 0
IsReplayed req now m =
    (m.status ≡ OutboxMessageStatus.pending)
    × (m.attempt_count ≡ 0)
    × (0 < m.max_attempts)
    × (m.available_at ≡ now)
    × (m.type ≡ req.event_type)
    × (req.created_from ≤ m.created_at)
    × (m.created_at ≤ req.created_to)

All-append :
    (P : OutboxMessage → Type 0) (xs : List OutboxMessage) (y : OutboxMessage)
    → All P xs
    → P y
    → All P (xs ++ y ∷ [])
All-append P [] y h p = (p, tt)
All-append P (x ∷ xs) y h p = (h.0, All-append P xs y h.1 p)

length_one_more :
    (limit : ℕ) (xs : List OutboxMessage) (y : OutboxMessage)
    → leb limit (length xs) ≡ false
    → length (xs ++ y ∷ []) ≤ limit
length_one_more limit xs y h = ground (arith, length-append xs (y ∷ []))

module _ (req : ReplayDeadLetterOutboxRequest) (now : Time) where
  abbrev Replayed : List OutboxMessage → World → Type 0
  Replayed out w = All (IsReplayed req now) out × (length out ≤ req.limit)

  put_back :
      (m : OutboxMessage)
      → is_outside req m ≡ false
      → IsReplayed req now (outbox_message_for_replay m now)
  put_back m h = (
    refl,
    refl,
    ground arith,
    refl,
    ground (arith, eq_iff m.type req.event_type),
    ground arith,
    ground arith,
  )

  replay_loop-Replayed :
      (messages replayed : List OutboxMessage) (w : World)
      → All (IsReplayed req now) replayed
      → length replayed ≤ req.limit
      → Ensures Replayed (replay_loop req now messages replayed w)
  unfolding replay_loop update_outbox_message_status_if_status
  replay_loop-Replayed [] replayed w a l = Ensures-return Replayed _ w (a, l)
  replay_loop-Replayed (m ∷ messages) replayed w a l =
      elim (Bool-cases (leb req.limit (length replayed))) [
        | inl full ↦ rw full (Ensures-return Replayed _ w (a, l))
        | inr room ↦ rw room (elim (Bool-cases (is_outside req m)) [
          | inl out ↦ rw out (replay_loop-Replayed messages replayed w a l)
          | inr inside ↦ rw inside (
              Ensures-written Replayed _ _ _ w λ stored wrote.
                replay_loop-Replayed messages (replayed ++ outbox_message_for_replay m now ∷ []) _
                  (All-append _ replayed _ a (put_back m inside))
                  (length_one_more req.limit replayed _ room))
        ])
      ]

-- A bulk replay returns at most as many messages as its limit says, each of the requested type and made
-- inside the window, pending again with no attempt counted and at least one allowed, and available at
-- once.
pub replay_dead_letter_outbox_messages_lem :
    (svc : Service) (texts : ReplayTexts) (actor : String) (req : ReplayDeadLetterOutboxRequest)
    (w w' : World) (out : List OutboxMessage)
    → replay_dead_letter_outbox_messages svc texts actor req w ≡ (ok out, w')
    → All (IsReplayed req (svc.environment.reading w.readings)) out × (length out ≤ req.limit)
unfolding replay_dead_letter_outbox_messages list_outbox_messages
replay_dead_letter_outbox_messages_lem svc texts actor req w w' out h =
    let now = svc.environment.reading w.readings in
    let Q = Replayed req now in
    Ensures-ok Q _ out w'
      (Ensures-guard Q _ _ _ w λ good. Ensures-step Q _ _ _ (
        Ensures-in_tx Q _ _ (
          Ensures-step Q _ _ _ (
            Ensures-then Q _ Q _ (replay_loop-Replayed req now _ [] _ tt (omega arith))
              λ replayed v r.
                Ensures-step Q _ _ _
                  (Ensures-Audited Q _ svc actor _ _ _ _ _ _ λ v' a. Ensures-return Q _ v' r)))))
      h
