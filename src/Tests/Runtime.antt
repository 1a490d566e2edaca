-- ===== src/Tests/Runtime.antt =====
-- The theorems on the runtime of internal/infrastructure/persistence/memory/channel at concrete inputs.
use keelmesh.Prelude.{
  ℕ, ◌+◌, ◌≡◌, ◌↔◌, refl, true, lookup, some, [], ◌∷◌, All, ok, err, new, arith, is_ok, trim, is,
}
use keelmesh.Tests.Channel.{channel, repository, message}
use keelmesh.Channel.Types.{Channel, Outbound, InboundPreparation}
use keelmesh.Channel.Repository.{Repository, get}
use keelmesh.Channel.Send.{previous, send}
use keelmesh.Channel.Janitor.{sweep}
use keelmesh.Channel.Janitor.Laws.{previous-sweep}
use keelmesh.Channel.Lifecycle.{start, start_channels, all_channels, already_running}
use keelmesh.Channel.Lifecycle.Laws.{start-send, start_once}
use keelmesh.Channel.Status.{runtime_status}
use keelmesh.Channel.Status.Laws.{Runs, runtime_status-ready_iff}
use keelmesh.Channel.Prepare.{prepare_inbound}
use keelmesh.Channel.Prepare.Steps.{SameActions}
use keelmesh.Channel.Prepare.Laws.{IsFresh, prepare_inbound-SameActions}

previous-sweep_example :
    previous (sweep repository 1800000000001) "ops\u{1e}k1" 1800000000002
    ≡ previous repository "ops\u{1e}k1" 1800000000002
previous-sweep_example =
    previous-sweep repository 1800000000001 "ops\u{1e}k1" 1800000000002 (omega arith)

abbrev idle : Repository ℕ
idle = record repository { workers = [] }

abbrev plain : Outbound
plain = record message { idempotency_key = "" }

start-send_example : is_ok (send (start idle).0 plain 5).1 ≡ true
unfolding start start_channels all_channels lookup trim
start-send_example = start-send idle plain 5 channel refl refl refl refl refl refl refl

-- A channel that does not start.
abbrev broken : Repository ℕ
broken = record idle {
  registry = ("ops", record channel { start = λ p. (p, some (new "no token")) }) ∷ [];
}

start_once_example : start (start broken).0 ≡ ((start broken).0, some already_running)
start_once_example = start_once broken

runtime_status-ready_iff_example :
    (runtime_status (λ names. names) repository).ready ≡ true
    ↔ All (Runs 0) (all_channels repository.registry)
runtime_status-ready_iff_example = runtime_status-ready_iff (λ names. names) repository

-- A channel that shows that it is typing, and fails with a placeholder.
abbrev typist : Channel ℕ
typist = record channel {
  typing = some (λ p target. (p + 1, ok (λ q. q + 10)));
  placeholder = some (λ p target reply content. (p, err (new "timeout")));
}

abbrev prepared : Repository ℕ
prepared = record idle { registry = ("ops", typist) ∷ []; actions = []; reactions = [] }

abbrev preparation : InboundPreparation
preparation = record {
  channel_id = "ops";
  target_id = "room";
  message_id = "m1";
  reply_to = "";
  placeholder = "…";
  reaction = "";
}

prepared-IsFresh : IsFresh prepared 5
unfolding lookup
prepared-IsFresh n = (refl, refl)

prepare_inbound-SameActions_example :
    SameActions prepared (prepare_inbound prepared preparation 5).0
unfolding prepare_inbound get lookup is
prepare_inbound-SameActions_example =
    prepare_inbound-SameActions prepared preparation 5 prepared-IsFresh (new "timeout") refl
