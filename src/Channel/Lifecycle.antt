-- ===== src/Channel/Lifecycle.antt =====
-- internal/infrastructure/persistence/memory/channel: `Start` (start.go) and `Stop` (stop.go), with a
-- context that is not nil. The goroutines are not part of the state; the workers' are in Worker.
pub mod Laws
use keelmesh.Prelude.{
  ℕ, String, Bool, true, false, not, Map, insert, Option, none, some, List, [], ◌∷◌, ◌++◌, eqb,
  if◌then◌else◌, Error, new, wrap,
}
use keelmesh.Channel.Types.{Channel, Definition}
use keelmesh.Channel.Repository.{Repository, Worker}

abbrev pub already_running : Error
already_running = new "channelcore: runtime is already running"

-- `if queueSize <= 0 { queueSize = 16 }`.
abbrev pub queue_size : Definition → ℕ
queue_size d = if eqb d.queue_size 0 then 16 else d.queue_size

abbrev pub new_worker : Definition → Worker
new_worker d = record { text = []; media = []; size = queue_size d }

module _ {P : Type 0} where
  -- `registry.All()`.
  unfoldable pub all_channels : Map (Channel P) → List (Channel P)
  all_channels [] = []
  all_channels ((id, c) ∷ rest) = c ∷ all_channels rest

  -- The repository once a channel has started, with the platforms' state then.
  abbrev pub with_worker : Repository P → Channel P → P → Repository P
  with_worker r c p = record r {
    platform = p;
    workers = insert c.definition.id (new_worker c.definition) r.workers;
  }

  -- The loop over `slices.Backward(started)`; the channels come latest first.
  unfoldable pub stop_started : List (Channel P) → P → P
  stop_started [] p = p
  stop_started (c ∷ rest) p = stop_started rest (c.stop p).0

  -- The loop of `Start` over the channels, with those started so far, latest first.
  unfoldable pub start_channels :
      Repository P → List (Channel P) → List (Channel P) → Repository P × Option Error
  unfolding stop_started
  start_channels r started [] = (r, none)
  start_channels r started (c ∷ rest) =
      let skipped = start_channels r started rest in
      let (p, failure) = c.start r.platform in
      let later = start_channels (with_worker r c p) (c ∷ started) rest in
      if not c.definition.enabled then skipped else elim failure [
        | none ↦ later
        | some e ↦ (
          record r { platform = stop_started started p },
          some (wrap "start channel %q: %w" (c.definition.id ∷ []) e),
        )
      ]

  unfoldable pub start : Repository P → Repository P × Option Error
  unfolding start_channels all_channels
  start r =
      if r.has_cancel
      then (r, some already_running)
      else start_channels (record r { has_cancel = true }) [] (all_channels r.registry)

  -- The loop of `Stop` over the channels.
  unfoldable pub stop_channels : P → List (Channel P) → P × List Error
  stop_channels p [] = (p, [])
  stop_channels p (c ∷ rest) =
      let (p', failure) = c.stop p in
      let (p'', failures) = stop_channels p' rest in
      elim failure [
        | none ↦ (p'', failures)
        | some e ↦ (p'', wrap "stop channel %q: %w" (c.definition.id ∷ []) e ∷ failures)
      ]

  -- `Stop`, with the errors of the workers that were not waited for to their end; what it returns
  -- is the list that is joined.
  unfoldable pub stop : Repository P → List Error → Repository P × List Error
  unfolding stop_channels all_channels
  stop r late =
      let (p, failures) = stop_channels r.platform (all_channels r.registry) in
      (record r { has_cancel = false; workers = []; subs = []; platform = p }, late ++ failures)
