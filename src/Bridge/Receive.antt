-- ===== src/Bridge/Receive.antt =====
-- internal/bootstrap/loopcore/bridge.go: one round of the receiver of `Start`. The answers of
-- ChannelCore and of GateCore are parameters, over the state `C` that they act on.
pub mod Laws
use keelmesh.Prelude.{
  ℕ, String, Bool, true, false, not, Map, insert, Option, none, some, List, [], ◌∷◌, pos, ◌==◌,
  if◌then◌else◌, Result, ok, err, Error, is,
}
use keelmesh.Channel.Types.{Inbound, InboundPreparation, PreparationReceipt}
use keelmesh.Api.Messages.{InboundMessage, EditMessageRequest}
use keelmesh.Bridge.Inbound.{inbound_domain, identity_metadata}
use keelmesh.Loop.Types.{RunRepository, StartRunRequest, StepDefinition, Run}
use keelmesh.Loop.Service.{start_run}

-- The clients of the bridge. The response of `PrepareInbound` may be nil; the answer of `EditMessage`
-- is ignored.
pub record Clients (C : Type 0) : Type 0 where
  pub prepare : C → InboundPreparation → C × Result (Option PreparationReceipt)
  pub ingest : C → Inbound → C × Option Error
  pub edit : C → EditMessageRequest → C

abbrev pub placeholder_content : String
placeholder_content = "处理中…"

abbrev pub ingest_failed : String
ingest_failed = "请求暂时无法处理，请稍后重试。"

abbrev pub start_failed : String
start_failed = "请求启动失败，请稍后重试。"

abbrev pub preparation : InboundMessage → InboundPreparation
preparation m = record {
  channel_id = m.channel_id;
  target_id = m.chat_id;
  message_id = m.message_id;
  reply_to = "";
  placeholder = placeholder_content;
  reaction = "";
}

-- The placeholder's id; empty where there is none.
unfoldable pub placeholder_of : Result (Option PreparationReceipt) → String
placeholder_of (err e) = ""
placeholder_of (ok none) = ""
placeholder_of (ok (some receipt)) = receipt.placeholder_message

-- `metadata["placeholder_message_id"] = …`.
unfoldable pub with_placeholder : String → Map String → Map String
with_placeholder id metadata =
    if id == "" then metadata else insert "placeholder_message_id" id metadata

-- The message that goes to GateCore.
unfoldable pub annotated : ℕ → InboundMessage → String → Inbound
unfolding with_placeholder
annotated now m placeholder =
    let inbound = inbound_domain now m in
    record inbound {
      metadata = identity_metadata inbound (with_placeholder placeholder m.metadata);
    }

abbrev pub agent_step : StepDefinition
agent_step = record {
  id = "agent";
  kind = "agent";
  name = "Agent execution";
  max_iterations = pos 1;
}

unfoldable pub run_request : Inbound → StartRunRequest
run_request m = record {
  run_id = m.message_id;
  task_id = m.message_id;
  channel_id = m.channel_id;
  target_id = m.chat_id;
  input = m.content;
  metadata = m.metadata;
  steps = some agent_step ∷ [];
}

-- `failInbound`.
unfoldable pub fail_inbound : {C : Type 0} → Clients C → C → Inbound → String → String → C
fail_inbound clients c m placeholder content =
    if placeholder == ""
    then c
    else clients.edit c (record {
      channel_id = m.channel_id;
      target_id = m.chat_id;
      message_id = placeholder;
      content = content;
      state = "failed";
      metadata = [];
      progress = none;
    })

-- What a round leaves: the clients' state, the stored runs, and the task whose events are projected.
pub record Round (C W : Type 0) : Type 0 where
  pub clients : C
  pub runs : W
  pub projected : Option String

module _ {C W : Type 0} (clients : Clients C) (store : RunRepository W) where
  -- From the answer of `IngestInbound` on.
  unfoldable pub start_task : C → W → Inbound → String → Option Error → Round C W
  unfolding fail_inbound run_request
  start_task c w m placeholder (some e) =
      if is e "context canceled"
      then record { clients = c; runs = w; projected = none }
      else record {
        clients = fail_inbound clients c m placeholder ingest_failed;
        runs = w;
        projected = none;
      }
  start_task c w m placeholder none =
      let (w', answer) = start_run store w (some (run_request m)) in
      elim answer [
        | err e ↦ record {
          clients = fail_inbound clients c m placeholder start_failed;
          runs = w';
          projected = none;
        }
        | ok _ ↦ record { clients = c; runs = w'; projected = some m.message_id }
      ]

  -- A round, with a message that is not nil.
  unfoldable pub receive : C → W → ℕ → InboundMessage → Round C W
  unfolding placeholder_of annotated start_task
  receive c w now m =
      let (c', prepared) = clients.prepare c (preparation m) in
      let placeholder = placeholder_of prepared in
      let inbound = annotated now m placeholder in
      let (c'', failure) = clients.ingest c' inbound in start_task c'' w inbound placeholder failure
