-- ===== src/Clients/Gate/Laws.antt =====
-- internal/infrastructure/channels/channels.go makes the client of GateCore the outbound authorizer of
-- ChannelCore: the policy of GateCore on what ChannelCore sends.
use keelmesh.Prelude.{String, true, ◌≡◌, Option, some, Result, ok, err, Error}
use keelmesh.Gate.Types.{AuthorizeOutboundRequest, AuthorizeOutboundResponse}
use keelmesh.Gate.Service.{Service}
use keelmesh.Gate.Handlers.{approve_task, cancel_task, project_task_event}
use keelmesh.Gate.Admission.{ingest_inbound, authorize_outbound, authorization}
use keelmesh.Channel.Types.{Outbound}
use keelmesh.Channel.Repository.{Repository}
use keelmesh.Clients.Gate
use keelmesh.Clients.Gate.{GateApi}

-- A call that always gets a response.
abbrev answered : {G A : Type 0} → G × Result A → G × Result (Option A)
answered (g, ok a) = (g, ok (some a))
answered (g, err e) = (g, err e)

abbrev allowing : Result AuthorizeOutboundResponse → Result (Option AuthorizeOutboundResponse)
allowing (ok response) = ok (some response)
allowing (err e) = err e

-- The service of GateCore, called without a loss in between.
abbrev pub direct : {W : Type 0} → (Error → String) → GateApi (Service W)
direct render = record {
  ingest_inbound = λ s r. answered (ingest_inbound render s (some r));
  authorize_outbound = λ s r. allowing (authorize_outbound s (some r));
  approve_task = λ s r. answered (approve_task s (some r));
  cancel_task = λ s r. answered (cancel_task s (some r));
  project_task_event = λ s r. answered (project_task_event s (some r));
}

module _ {W : Type 0} (render : Error → String) (s : Service W) where
  -- The client's authorizer.
  abbrev pub policy : Outbound → Option Error
  policy m = Gate.authorize_outbound (some (direct render)) s m

  -- An answer that allows is the one for the request.
  abbrev Allows : AuthorizeOutboundRequest → Result AuthorizeOutboundResponse → Type 0
  Allows r res =
      (a : AuthorizeOutboundResponse) → res ≡ ok a → a.allowed ≡ true → a ≡ authorization r true ""
