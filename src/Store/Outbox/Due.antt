-- ===== src/Store/Outbox/Due.antt =====
-- memory.go, listDueOutboxMessages: which messages are due, how many are returned, and in which order.
use ano_pki_community.Common.{
  ◌≡◌, ◌≢◌, refl, sym, subst, ap, ◌∙◌, ◌⊎◌, ◌↔◌, if◌then◌else◌, is_yes, inl, inr, true, false, List,
  [], ◌∷◌, ◌++◌, Perm, ℕ, min, ◌≤◌, arith, Time, GoMap, values, select, take, drop, length,
  take-append-drop, length-take, All, All-select, All-take, All-sort_slice, sort_slice,
  sort_slice-perm, IsSortedBy, sort_slice-IsSortedBy,
}
use ano_pki_community.Domain.{OutboxMessage, OutboxMessageStatus, OutboxMessageStatus-discrete}
use ano_pki_community.Store.Outbox.{
  due_by_status, outbox_message_due, outbox_message_due_at, due_first, list_due_outbox_messages,
}

-- A message is due when it is pending and available, or when its lease has run out.
abbrev pub IsDue : Time → OutboxMessage → Type 0
IsDue now m =
    ((m.status ≡ OutboxMessageStatus.pending) × (m.available_at ≤ now))
    ⊎ ((m.status ≡ OutboxMessageStatus.processing)
        × (m.processing_deadline_at ≢ 0)
        × (m.processing_deadline_at ≤ now))

due_by_status-parts :
    (s : OutboxMessageStatus) (now : Time) (m : OutboxMessage)
    → due_by_status s m now ≡ true
    → ((s ≡ OutboxMessageStatus.pending) × (m.available_at ≤ now))
      ⊎ ((s ≡ OutboxMessageStatus.processing)
          × (m.processing_deadline_at ≢ 0)
          × (m.processing_deadline_at ≤ now))
due_by_status-parts OutboxMessageStatus.pending now m h = inl (refl, ground arith)
due_by_status-parts OutboxMessageStatus.processing now m h =
    inr (refl, (ground arith), ground arith)
due_by_status-parts OutboxMessageStatus.completed now m h = cc
due_by_status-parts OutboxMessageStatus.failed now m h = cc
due_by_status-parts OutboxMessageStatus.dead_letter now m h = cc

due_by_status-true :
    (s : OutboxMessageStatus) (now : Time) (m : OutboxMessage)
    → ((s ≡ OutboxMessageStatus.pending) × (m.available_at ≤ now))
      ⊎ ((s ≡ OutboxMessageStatus.processing)
          × (m.processing_deadline_at ≢ 0)
          × (m.processing_deadline_at ≤ now))
    → due_by_status s m now ≡ true
due_by_status-true s now m (inl (e, available)) = rw e (ground arith)
due_by_status-true s now m (inr (e, leased, over)) = rw e (ground arith)

-- The test of the code is this very condition.
outbox_message_due-IsDue :
    (now : Time) (m : OutboxMessage) → (outbox_message_due m now ≡ true) ↔ IsDue now m
unfolding outbox_message_due
outbox_message_due-IsDue now m =
    (due_by_status-parts m.status now m, due_by_status-true m.status now m)

-- When a message is due: a lease at its deadline, all else when it becomes available.
abbrev pub due_time_of : OutboxMessageStatus → OutboxMessage → Time
due_time_of OutboxMessageStatus.processing m = m.processing_deadline_at
due_time_of OutboxMessageStatus.pending m = m.available_at
due_time_of OutboxMessageStatus.completed m = m.available_at
due_time_of OutboxMessageStatus.failed m = m.available_at
due_time_of OutboxMessageStatus.dead_letter m = m.available_at

abbrev pub due_time : OutboxMessage → Time
due_time m = due_time_of m.status m

due_at_of :
    (s : OutboxMessageStatus) (m : OutboxMessage)
    → (if is_yes (OutboxMessageStatus-discrete s OutboxMessageStatus.processing)
        then m.processing_deadline_at
        else m.available_at)
      ≡ due_time_of s m
unfolding OutboxMessageStatus-discrete
due_at_of OutboxMessageStatus.pending m = refl
due_at_of OutboxMessageStatus.processing m = refl
due_at_of OutboxMessageStatus.completed m = refl
due_at_of OutboxMessageStatus.failed m = refl
due_at_of OutboxMessageStatus.dead_letter m = refl

outbox_message_due_at-due_time : (m : OutboxMessage) → outbox_message_due_at m ≡ due_time m
unfolding outbox_message_due_at
outbox_message_due_at-due_time m = due_at_of m.status m

All-IsDue :
    (now : Time) (ms : List OutboxMessage)
    → All (λ m. outbox_message_due m now ≡ true) ms
    → All (IsDue now) ms
unfolding outbox_message_due
All-IsDue now [] h = tt
All-IsDue now (m ∷ ms) h = (due_by_status-parts m.status now m h.0, All-IsDue now ms h.1)

due_first-le : (a b : OutboxMessage) → due_first a b ≡ true → due_time a ≤ due_time b
due_first-le a b h =
    ground (arith, outbox_message_due_at-due_time a, outbox_message_due_at-due_time b)

due_first-ge : (a b : OutboxMessage) → due_first a b ≡ false → due_time b ≤ due_time a
due_first-ge a b h =
    ground (arith, outbox_message_due_at-due_time a, outbox_message_due_at-due_time b)

-- ListDueOutboxMessages returns messages that are due (pending and available, or processing with a lease
-- that has run out), as many as there are up to the limit, in the order of their due times: the deadline
-- of one that is processing, else when it becomes available. With those that it leaves, which are due no
-- earlier, they are all the messages that pass the code's test, which is exactly that condition.
pub list_due_outbox_messages_lem :
    (messages : GoMap OutboxMessage) (now : Time) (limit : ℕ)
    → let out = list_due_outbox_messages messages now limit in
      All (IsDue now) out
      × ((rest : List OutboxMessage) × Perm
            (out ++ rest)
            (select (λ m. outbox_message_due m now) (values messages))
          × ((m : OutboxMessage) → (outbox_message_due m now ≡ true) ↔ IsDue now m)
          × IsSortedBy due_time (out ++ rest)
          × (length out ≡ min limit (length (out ++ rest))))
unfolding list_due_outbox_messages
list_due_outbox_messages_lem messages now limit =
    let due = select (λ m. outbox_message_due m now) (values messages) in
    let sorted = sort_slice due_first due in
    let whole = sym (take-append-drop limit sorted) in
    let is_due =
      All-sort_slice due_first (λ m. outbox_message_due m now ≡ true) due
        (All-select (λ m. outbox_message_due m now) (values messages)) in
    (
      All-IsDue now (take limit sorted)
          (All-take (λ m. outbox_message_due m now ≡ true) limit sorted is_due),
      (
        drop limit sorted,
        subst (λ l. Perm l due) whole (sort_slice-perm due_first due),
        outbox_message_due-IsDue now,
        subst (IsSortedBy due_time) whole
            (sort_slice-IsSortedBy due_time due_first due_first-le due_first-ge due),
        length-take limit sorted ∙ ap (λ l. min limit (length l)) whole,
      ),
    )
