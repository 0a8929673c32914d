-- ===== src/Inventory/Moves.antt =====
-- services/inventory.py: the changes of an item's quantity, location and lifecycle.
mod Portions
unfoldable pub use Portions.*
use ah_there_it_is.Base.{
  ℕ, Bool, ◌&&◌, not, find, Option, none, some, List, [], ◌∷◌, map, option_eq, ◌==◌, if◌then◌else◌,
}
use ah_there_it_is.Text.{Text}
use ah_there_it_is.Domain.States.{
  ItemState, LocationStatus, Error, Result, ok, err, is_terminal, state_eq_removed, status_index,
  mode_index,
}
use ah_there_it_is.Domain.Quantity.{
  ℤ, QuantityValue, ReasonSource, Portion, PortionInput, coerce, stored, coerce_portion,
  validated_reason, split_quantities,
}
use ah_there_it_is.Db.{
  Db, Node, Item, Tag, Alias, Event, Change, Payload, SplitPayload, StateChange, Removal,
  Transition, Model, related, item_id, item_split, item_split_from, item_transition,
  item_quantity_changed,
}
use ah_there_it_is.Session.{
  M, Service, ◌>>=◌, ◌>>◌, pure, query, lift, raise_if, modify, flush, commit, guarded, add_event,
}
use ah_there_it_is.Inventory.Checks.{
  get_item, get_node, get_optional, optional_id, coerce_state, ensure_nonterminal, history_path,
}
use ah_there_it_is.Inventory.Items.{
  save_item, add_item, canonical_aliases, link_tags, tag_id, status_at,
}

abbrev pub requested : Option PortionInput → Result (Option Portion)
requested none = ok none
requested (some input) = elim (coerce_portion input) [ ok p ↦ ok (some p) | err e ↦ err e ]

-- the payload's `state` and `location_status`, written together or not at all
abbrev pub state_change_of :
    LocationStatus → LocationStatus → Option (Change ItemState) → Option StateChange
state_change_of from_status to_status none = none
state_change_of from_status to_status (some change) =
    some
      (record { state = change; location_status = record { from = from_status; to = to_status } })

-- `_record_location_transition`
unfoldable pub record_location_transition :
    Item
    → Transition
    → Option Node
    → Option Node
    → LocationStatus
    → LocationStatus
    → Option (Change ItemState)
    → Option Removal
    → Option Text
    → M (Unit {0})
record_location_transition i type from_location to_location from_status to_status change extra
      text =
    do
      from_path ← query (history_path Model.location from_location)
      to_path ← query (history_path Model.location to_location)
      modify (
          add_event (record {
            item_id = i.id;
            from_location_id = optional_id from_location;
            to_location_id = optional_id to_location;
            payload =
                item_transition type from_path to_path
                  (state_change_of from_status to_status change) extra;
            original_text = text;
          }))

-- `item.current_location`
abbrev pub current_location : Item → Db → Result (Option Node)
current_location i d = ok (related Model.location i.current_location_id d)

-- the assignments to a row whose location changes
abbrev pub at_location : Item → Option ℕ → LocationStatus → Item
at_location i location status = record i {
  current_location_id = location;
  location_status = status;
}

-- the shared end of the location changes: `before` is the row that was read, `from_location` its
-- location, `after` the row that is written
unfoldable pub relocate :
    Service
    → Item
    → Item
    → Transition
    → Option Node
    → Option Node
    → Option (Change ItemState)
    → Option Removal
    → Option Text
    → M Item
relocate self before after type from_location to_location change extra text = do
  modify (save_item after)
  record_location_transition after type from_location to_location before.location_status
      after.location_status change extra text
  commit self
  pure after

-- `move_item`
unfoldable pub move_item : Service → ℕ → Option ℕ → Option PortionInput → Option Text → M Item
move_item self k none portion text = lift (err Error.location_required)
move_item self k (some location) portion text = do
  item ← query (get_item k)
  raise_if (state_eq_removed item.state) Error.terminal_move
  destination ← query (get_node Model.location location)
  if option_eq item.current_location_id (some destination.id) then pure item else do
    part ← lift (requested portion)
    guarded self (do
      affected ← split_for_portion self item part text
      old_location ← query (current_location affected)
      relocate self affected (at_location affected (some destination.id) LocationStatus.known)
          Transition.item_moved old_location (some destination) none none text)

abbrev pub has_status : LocationStatus → Item → Bool
has_status status i = status_index i.location_status == status_index status

-- `take_item`
unfoldable pub take_item : Service → ℕ → Option PortionInput → Option Text → M Item
take_item self k portion text = do
  item ← query (get_item k)
  ensure_nonterminal item
  if has_status LocationStatus.in_use item then pure item else do
    part ← lift (requested portion)
    guarded self (do
      affected ← split_for_portion self item part text
      old_location ← query (current_location affected)
      relocate self affected (at_location affected none LocationStatus.in_use) Transition.item_taken
          old_location none none none text)

-- `mark_item_location_unknown`
unfoldable pub mark_item_location_unknown : Service → ℕ → Option Text → M Item
mark_item_location_unknown self k text = do
  item ← query (get_item k)
  ensure_nonterminal item
  if has_status LocationStatus.unknown item then pure item else do
    old_location ← query (current_location item)
    relocate self item (at_location item none LocationStatus.unknown)
        Transition.item_location_unknown old_location none none none text

abbrev pub removed_row : Item → Text → Item
removed_row i reason = record (at_location i none LocationStatus.not_applicable) {
  state = ItemState.removed;
  removal_reason = some reason;
}

abbrev pub removed_change : Item → Change ItemState
removed_change i = record { from = i.state; to = ItemState.removed }

abbrev pub removal : Text → ReasonSource → Removal
removal reason source = record {
  removal_reason = record { from = none; to = some reason };
  reason = some (reason, source);
}

-- `remove_item`
unfoldable pub remove_item : Service → ℕ → Text → Text → Option PortionInput → Option Text → M Item
remove_item self k reason reason_source portion text = do
  (compact, source) ← lift (validated_reason reason reason_source)
  item ← query (get_item k)
  ensure_nonterminal item
  part ← lift (requested portion)
  guarded self (do
    affected ← split_for_portion self item part text
    old_location ← query (current_location affected)
    relocate self affected (removed_row affected compact) Transition.item_removed old_location none
        (some (removed_change affected)) (some (removal compact source)) text)

abbrev pub restored_row : Item → ItemState → Option Node → Item
restored_row i state destination =
    record (at_location i (optional_id destination) (status_at destination)) {
      state = state;
      removal_reason = none;
    }

abbrev pub restored_change : ItemState → Change ItemState
restored_change state = record { from = ItemState.removed; to = state }

abbrev pub restored_reason : Item → Removal
restored_reason i = record {
  removal_reason = record { from = i.removal_reason; to = none };
  reason = none;
}

-- `restore_item`: the event names no location that the item comes from
unfoldable pub restore_item : Service → ℕ → Text → Option ℕ → Option Text → M Item
restore_item self k state location text = do
  item ← query (get_item k)
  raise_if (not (state_eq_removed item.state)) Error.not_removed
  target ← lift (coerce_state state)
  raise_if (is_terminal target) Error.terminal_restore
  destination ← query (get_optional Model.location location)
  relocate self item (restored_row item target destination) Transition.item_restored none
      destination (some (restored_change target)) (some (restored_reason item)) text

-- `before == after` on quantities
abbrev pub quantity_same : QuantityValue → QuantityValue → Bool
quantity_same a b = mode_index a.mode == mode_index b.mode && option_eq a.value b.value

-- `change_item_quantity`
unfoldable pub change_item_quantity :
    Service → ℕ → Text → Option ℤ → Text → Text → Option Text → M Item
change_item_quantity self k mode value reason reason_source text = do
  after ← lift (coerce mode value)
  (compact, source) ← lift (validated_reason reason reason_source)
  item ← query (get_item k)
  before ← lift (stored item.quantity_mode item.quantity)
  if quantity_same before after
      then pure item
      else guarded self (do
        modify (save_item (with_quantity item after))
        modify
            (add_event (event_of item.id (item_quantity_changed before after compact source) text))
        commit self
        pure (with_quantity item after))
