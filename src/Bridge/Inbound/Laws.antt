-- ===== src/Bridge/Inbound/Laws.antt =====
-- From internal/application/channel/subscribe_inbound.go to internal/bootstrap/loopcore/bridge.go.
use keelmesh.Prelude.{ℕ, ◌*◌, ◌/◌, ◌≤◌, ◌≡◌, arith}
use keelmesh.Channel.Types.{Inbound}
use keelmesh.Api.Messages.{unix_milli, nanos_per_milli}
use keelmesh.Api.Stream.{inbound_message}
use keelmesh.Bridge.Inbound.{inbound_domain}

-- An inbound message that ChannelCore streams and LoopCore reads arrives as it was, but for its time
-- of arrival, which is cut to milliseconds; the time is at least a millisecond after 1970.
pub inbound_domain-inbound_message :
    (now : ℕ) (m : Inbound)
    → nanos_per_milli ≤ m.received_at
    → inbound_domain now (inbound_message m)
      ≡ record m { received_at = m.received_at / nanos_per_milli * nanos_per_milli }
unfolding inbound_domain inbound_message unix_milli
inbound_domain-inbound_message now m late = ground arith
