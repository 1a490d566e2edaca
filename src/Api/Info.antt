-- ===== src/Api/Info.antt =====
-- internal/application/channel: list_channels.go and get_channel.go. The library's sorting in the
-- catalog is a parameter.
use keelmesh.Prelude.{
  String, Bool, false, Option, none, some, List, [], ◌∷◌, map, ◌==◌, if◌then◌else◌, Result, ok, err,
}
use keelmesh.Channel.Types.{Definition}
use keelmesh.Channel.Repository.{Repository, get}
use keelmesh.Channel.Status.{catalog}
use keelmesh.Api.Messages.{ChannelInfo}

unfoldable pub channel_info : Definition → Bool → ChannelInfo
channel_info d running = record {
  id = d.id;
  kind = d.kind;
  enabled = d.enabled;
  running = running;
  capabilities = d.capabilities;
  state = if d.enabled then (if running then "running" else "stopped") else "disabled";
  configured = d.enabled;
  health_status = if running then "healthy" else if d.enabled then "unavailable" else "unknown";
  health_message =
      if running
      then "channel is running"
      else if d.enabled
      then "channel is not running"
      else "channel is disabled";
}

-- The first definition of the catalog with the id.
unfoldable pub find : String → List Definition → Option Definition
find id [] = none
find id (d ∷ rest) = let later = find id rest in if d.id == id then some d else later

module _ {P : Type 0} (sort : List Definition → List Definition) where
  -- Whether the channel of a definition runs.
  abbrev pub is_running : Repository P → Definition → Bool
  is_running r d = elim (get r d.id) [ err e ↦ false | ok c ↦ c.running r.platform ]

  unfoldable pub list_channels : Repository P → List ChannelInfo
  unfolding channel_info catalog
  list_channels r = map (λ d. channel_info d (is_running r d)) (catalog sort r)

  unfoldable pub get_channel : Repository P → String → Result ChannelInfo
  unfolding channel_info catalog find
  get_channel r id = elim (get r id) [
    | ok c ↦ ok (channel_info c.definition (c.running r.platform))
    | err e ↦ elim (find id (catalog sort r)) [ some d ↦ ok (channel_info d false) | none ↦ err e ]
  ]
