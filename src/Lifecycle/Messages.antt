-- ===== src/Lifecycle/Messages.antt =====
-- outbox_dispatcher.go and lifecycle/service.go: the calls that work on outbox messages, in any order.
pub mod Turns
pub mod Steps
use ano_pki_community.Common.{String, List, [], ◌∷◌}
use ano_pki_community.Domain.{OutboxMessage}
use ano_pki_community.Lifecycle.World.{World}
use ano_pki_community.Lifecycle.Outbox.{OutboxDispatcher, run_message}
use ano_pki_community.Lifecycle.Services.{Service}
use ano_pki_community.Lifecycle.Services.Replays.{
  ReplayDeadLetterOutboxRequest, ReplayTexts, retry_outbox_message,
  replay_dead_letter_outbox_messages,
}

-- A turn of a dispatcher's loop over a message that it listed at some earlier time, or one of the two
-- replays.
pub data OutboxCall : Type 0 where
  turn : OutboxMessage → OutboxCall
  retry : String → String → OutboxCall
  replay : String → ReplayDeadLetterOutboxRequest → OutboxCall

module _ (d : OutboxDispatcher) (svc : Service) (texts : ReplayTexts) where
  abbrev pub after_call : OutboxCall → World → World
  after_call (OutboxCall.turn listed) w = (run_message d listed w).1
  after_call (OutboxCall.retry actor id) w = (retry_outbox_message svc actor id w).1
  after_call (OutboxCall.replay actor req) w =
      (replay_dead_letter_outbox_messages svc texts actor req w).1

  abbrev pub after_calls : List OutboxCall → World → World
  after_calls [] w = w
  after_calls (call ∷ calls) w = after_calls calls (after_call call w)
