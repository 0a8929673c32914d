-- ===== src/Tests/Inventory.antt =====
-- Runs and witnesses for services/inventory.py.
use ah_there_it_is.Base.{◌≡◌, refl, ℕ, false, Option, none, some, List, [], ◌∷◌, map}
use ah_there_it_is.Text.{codes}
use ah_there_it_is.Domain.States.{ItemState, LocationStatus}
use ah_there_it_is.Domain.Quantity.{pos, dict, PortionInput}
use ah_there_it_is.Db.{Item, Model}
use ah_there_it_is.Session.{Session}
use ah_there_it_is.Inventory.Items.{NewItem}
use ah_there_it_is.Inventory.Requests.{Request, serve, create_tree_node, create, move, remove}
use ah_there_it_is.Inventory.Requests.Runs.{fresh_start}
use ah_there_it_is.Tests.Services.{plain}
use ah_there_it_is.Db.{Node, nodes, node_id, item_id, PathPart}
use ah_there_it_is.Inventory.Checks.{history_path}
use ah_there_it_is.Inventory.Forest.{IsPath}
use ah_there_it_is.Inventory.Valid.{placed, place_of}
use ah_there_it_is.Inventory.Atomic.{Kept}
use ah_there_it_is.Session.Rules.{Outcome, Fails}
use ah_there_it_is.Inventory.Requests.Runs.{
  fresh_start-IsSound, IsSound, serve-IsSound, history_explains, paths_exist, execute_is_atomic,
}
use ah_there_it_is.Tests.Services.{plain-IsFresh}
use ah_there_it_is.Inventory.Requests.{take, execute}
use ah_there_it_is.Domain.States.{QuantityMode, ok}
use ah_there_it_is.Base.{find}

abbrev pub cables : NewItem
cables = record {
  name = codes " usb cable ";
  description = none;
  state = codes "used";
  category_id = none;
  location_id = some 1;
  quantity_mode = codes "exact";
  quantity = some (pos 10);
  attributes = codes "{}";
  aliases = codes "cord" ∷ codes " cord" ∷ [];
  tags = codes "usb" ∷ [];
  original_text = none;
  allow_duplicate = false;
}

abbrev three : Option PortionInput
three = some (dict (some (codes "exact")) (some (some (pos 3))) false)

abbrev story : List Request
story =
    create_tree_node Model.location (codes "desk") none none
    ∷ create_tree_node Model.location (codes "drawer") (some 1) none
    ∷ create cables
    ∷ move 1 (some 2) three none
    ∷ remove 1 (codes "lost") (codes "explicit") none none
    ∷ []

abbrev summary : Session → List (ℕ × ItemState × Option ℕ × LocationStatus × Option ℕ)
summary s =
    map (λ (i : Item). (i.id, i.state, i.current_location_id, i.location_status, i.quantity))
      s.working.items

abbrev pub short : List Request
short =
    create_tree_node Model.location (codes "desk") none none ∷ create cables ∷ take 1 none none ∷ []

abbrev pub cable : Item
cable = record {
  id = 1;
  name = codes "usb cable";
  normalized_name = codes "usb cable";
  description = none;
  state = ItemState.used;
  category_id = none;
  current_location_id = none;
  location_status = LocationStatus.in_use;
  quantity_mode = QuantityMode.exact;
  quantity = some 10;
  removal_reason = none;
  attributes = codes "{}";
  aliases = record { name = codes "cord"; normalized_name = codes "cord" } ∷ [];
  tag_ids = 1 ∷ [];
}

abbrev desk : Node
desk = record {
  id = 1;
  parent_id = none;
  name = codes "desk";
  normalized_name = codes "desk";
  description = none;
}

pub short_item : find item_id 1 (serve plain short fresh_start).working.items ≡ some cable
unfolding ah_there_it_is.Base.find ah_there_it_is.Base.remove ah_there_it_is.Base.replace
    ah_there_it_is.Text.strip ah_there_it_is.Text.lstrip ah_there_it_is.Text.is_space
    ah_there_it_is.Text.text_eq ah_there_it_is.Domain.States.parse_mode
    ah_there_it_is.Domain.States.parse_state ah_there_it_is.Domain.Quantity.create
    ah_there_it_is.Domain.Quantity.coerce ah_there_it_is.Domain.Quantity.coerce_portion
    ah_there_it_is.Domain.Quantity.validated_reason ah_there_it_is.Domain.Quantity.split_quantities
    ah_there_it_is.Domain.Quantity.stored ah_there_it_is.Session.◌>>=◌ ah_there_it_is.Session.lift
    ah_there_it_is.Session.query ah_there_it_is.Session.flush ah_there_it_is.Session.commit
    ah_there_it_is.Session.guarded ah_there_it_is.Session.modify ah_there_it_is.Session.pure
    ah_there_it_is.Session.raise_if ah_there_it_is.Inventory.Checks.get_optional
    ah_there_it_is.Inventory.Checks.coerce_state ah_there_it_is.Inventory.Checks.ensure_item_name
    ah_there_it_is.Inventory.Checks.ensure_nonterminal
    ah_there_it_is.Inventory.Checks.ensure_tree_name ah_there_it_is.Inventory.Checks.history_path
    ah_there_it_is.Inventory.Checks.normalized_nonblank ah_there_it_is.Inventory.Checks.walk_up
    ah_there_it_is.Inventory.Nodes.create_node ah_there_it_is.Inventory.Nodes.refuse_phrase
    ah_there_it_is.Inventory.Items.alias_change ah_there_it_is.Inventory.Items.canonical_aliases
    ah_there_it_is.Inventory.Items.find_or_add_tag ah_there_it_is.Inventory.Items.insert_item
    ah_there_it_is.Inventory.Items.link_tags ah_there_it_is.Inventory.Items.or_add_tag
    ah_there_it_is.Inventory.Items.create_item ah_there_it_is.Inventory.Requests.execute
    ah_there_it_is.Inventory.Requests.serve ah_there_it_is.Inventory.Moves.take_item
    ah_there_it_is.Inventory.Moves.record_location_transition
    ah_there_it_is.Inventory.Moves.split_for_portion ah_there_it_is.Inventory.Moves.relocate
short_item = refl

short_place :
    find node_id 1 (nodes Model.location (serve plain short fresh_start).working) ≡ some desk
unfolding ah_there_it_is.Base.find ah_there_it_is.Base.remove ah_there_it_is.Base.replace
    ah_there_it_is.Text.strip ah_there_it_is.Text.lstrip ah_there_it_is.Text.is_space
    ah_there_it_is.Text.text_eq ah_there_it_is.Domain.States.parse_mode
    ah_there_it_is.Domain.States.parse_state ah_there_it_is.Domain.Quantity.create
    ah_there_it_is.Domain.Quantity.coerce ah_there_it_is.Domain.Quantity.coerce_portion
    ah_there_it_is.Domain.Quantity.validated_reason ah_there_it_is.Domain.Quantity.split_quantities
    ah_there_it_is.Domain.Quantity.stored ah_there_it_is.Session.◌>>=◌ ah_there_it_is.Session.lift
    ah_there_it_is.Session.query ah_there_it_is.Session.flush ah_there_it_is.Session.commit
    ah_there_it_is.Session.guarded ah_there_it_is.Session.modify ah_there_it_is.Session.pure
    ah_there_it_is.Session.raise_if ah_there_it_is.Inventory.Checks.get_optional
    ah_there_it_is.Inventory.Checks.coerce_state ah_there_it_is.Inventory.Checks.ensure_item_name
    ah_there_it_is.Inventory.Checks.ensure_nonterminal
    ah_there_it_is.Inventory.Checks.ensure_tree_name ah_there_it_is.Inventory.Checks.history_path
    ah_there_it_is.Inventory.Checks.normalized_nonblank ah_there_it_is.Inventory.Checks.walk_up
    ah_there_it_is.Inventory.Nodes.create_node ah_there_it_is.Inventory.Nodes.refuse_phrase
    ah_there_it_is.Inventory.Items.alias_change ah_there_it_is.Inventory.Items.canonical_aliases
    ah_there_it_is.Inventory.Items.find_or_add_tag ah_there_it_is.Inventory.Items.insert_item
    ah_there_it_is.Inventory.Items.link_tags ah_there_it_is.Inventory.Items.or_add_tag
    ah_there_it_is.Inventory.Items.create_item ah_there_it_is.Inventory.Requests.execute
    ah_there_it_is.Inventory.Requests.serve ah_there_it_is.Inventory.Moves.take_item
    ah_there_it_is.Inventory.Moves.record_location_transition
    ah_there_it_is.Inventory.Moves.split_for_portion ah_there_it_is.Inventory.Moves.relocate
short_place = refl

history_explains_example :
    placed 1 (serve plain short fresh_start).working.events ≡ some (place_of cable)
history_explains_example =
    history_explains plain short 1 cable plain-IsFresh (tt, (tt, (tt, tt))) short_item

paths_exist_example :
    (path : List PathPart) × (history_path Model.location
        (some desk)
        (serve plain short fresh_start).working
      ≡ ok (some path))
    × IsPath (nodes Model.location (serve plain short fresh_start).working) (some 1) path
paths_exist_example =
    paths_exist plain short Model.location desk plain-IsFresh (tt, (tt, (tt, tt))) short_place

serve-IsSound_example : IsSound (serve plain story fresh_start)
serve-IsSound_example =
    serve-IsSound plain story fresh_start plain-IsFresh (tt, (tt, (tt, (tt, (tt, tt)))))
      fresh_start-IsSound

execute_is_atomic_example :
    Outcome
      (λ _. Kept plain (serve plain short fresh_start))
      (Fails (serve plain short fresh_start))
      (execute plain (take 1 three none) (serve plain short fresh_start)).0
      (execute plain (take 1 three none) (serve plain short fresh_start)).1
execute_is_atomic_example =
    execute_is_atomic plain (take 1 three none) (serve plain short fresh_start) plain-IsFresh
      (serve-IsSound plain short fresh_start plain-IsFresh (tt, (tt, (tt, tt)))
        fresh_start-IsSound).working
      tt
