-- ===== src/Delivery/Router.antt =====
-- internal/infrastructure/messaging/delivery/router.go: the publishers by destination.
use keelmesh.Prelude.{
  String, Map, lookup, insert, trim, Option, none, some, [], ◌∷◌, ◌==◌, if◌then◌else◌, Error, new,
  wrap, is_some,
}
use keelmesh.Delivery.Outbox.{Message}

-- `outbox.Publisher` over the state `C` that it acts on.
abbrev pub Publisher : Type 0 → Type 0
Publisher C = C → Message → C × Option Error

abbrev pub Router : Type 0 → Type 0
Router C = Map (Publisher C)

abbrev pub destination_invalid : Error
destination_invalid = new "delivery: destination is invalid"

abbrev pub destination_not_registered : Error
destination_not_registered = new "delivery: destination is not registered"

module _ {C : Type 0} where
  abbrev pub new_router : Router C
  new_router = []

  -- `Register`; a publisher that is nil is `none`.
  unfoldable pub register : Router C → String → Option (Publisher C) → Router C × Option Error
  register r text none = (r, some destination_invalid)
  register r text (some publisher) =
      let destination = trim text in
      if destination == ""
      then (r, some destination_invalid)
      else if is_some (lookup destination r)
      then (r, some (wrap "%w: %q is already registered" (destination ∷ []) destination_invalid))
      else (insert destination publisher r, none)

  -- `Publish`.
  unfoldable pub publish : Router C → C → Message → C × Option Error
  publish r c m = elim (lookup m.destination r) [
    | none ↦ (c, some (wrap "%w: %q" (m.destination ∷ []) destination_not_registered))
    | some publisher ↦
        let (c', failure) = publisher c m in
        elim failure [
          | none ↦ (c', none)
          | some e ↦ (c', some (wrap "deliver %q: %w" (m.destination ∷ []) e))
        ]
  ]
