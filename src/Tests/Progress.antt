-- ===== src/Tests/Progress.antt =====
-- Witnesses for the movement operations that succeed.
use ah_there_it_is.Base.{
  ℕ, ◌≡◌, refl, Bool, true, false, Option, none, some, List, [], ◌∷◌, find, ◌++◌,
}
use ah_there_it_is.Text.{Text, codes}
use ah_there_it_is.Domain.States.{ItemState, LocationStatus, ok}
use ah_there_it_is.Domain.Quantity.{ReasonSource}
use ah_there_it_is.Db.{Item, Node, Model, Transition, item_id, node_id}
use ah_there_it_is.Session.{Session}
use ah_there_it_is.Inventory.Checks.{get_optional, coerce_state}
use ah_there_it_is.Inventory.Moves.{
  move_item, take_item, mark_item_location_unknown, remove_item, restore_item, removed_row,
  at_location,
}
use ah_there_it_is.Inventory.Valid.{IsValid}
use ah_there_it_is.Inventory.Progress.Places.{
  Placed, move_item_succeeds, take_item_succeeds, mark_item_location_unknown_succeeds,
}
use ah_there_it_is.Inventory.Progress.Restore.{remove_then_restore}
use ah_there_it_is.Inventory.Requests.{Request, serve, create_tree_node, create}
use ah_there_it_is.Inventory.Requests.Runs.{fresh_start, fresh_start-IsSound, serve-IsSound}
use ah_there_it_is.Tests.Services.{plain, plain-IsFresh}
use ah_there_it_is.Tests.Inventory.{cables, cable}

abbrev stock : List Request
stock =
    create_tree_node Model.location (codes "desk") none none
    ∷ create_tree_node Model.location (codes "drawer") (some 1) none
    ∷ create cables
    ∷ []

abbrev stocked : Session
stocked = serve plain stock fresh_start

abbrev at_desk : Item
at_desk = at_location cable (some 1) LocationStatus.known

abbrev desk : Node
desk = record {
  id = 1;
  parent_id = none;
  name = codes "desk";
  normalized_name = codes "desk";
  description = none;
}

abbrev drawer : Node
drawer = record {
  id = 2;
  parent_id = some 1;
  name = codes "drawer";
  normalized_name = codes "drawer";
  description = none;
}

stocked-IsValid : IsValid stocked.working
stocked-IsValid =
    (serve-IsSound plain stock fresh_start plain-IsFresh (tt, (tt, (tt, tt)))
      fresh_start-IsSound).working

stocked_item : find item_id 1 stocked.working.items ≡ some at_desk
unfolding ah_there_it_is.Base.find ah_there_it_is.Base.remove ah_there_it_is.Base.replace
    ah_there_it_is.Text.strip ah_there_it_is.Text.lstrip ah_there_it_is.Text.is_space
    ah_there_it_is.Text.text_eq ah_there_it_is.Domain.States.parse_mode
    ah_there_it_is.Domain.States.parse_state ah_there_it_is.Domain.Quantity.create
    ah_there_it_is.Domain.Quantity.coerce ah_there_it_is.Domain.Quantity.coerce_portion
    ah_there_it_is.Domain.Quantity.validated_reason ah_there_it_is.Domain.Quantity.split_quantities
    ah_there_it_is.Domain.Quantity.stored ah_there_it_is.Session.◌>>=◌ ah_there_it_is.Session.lift
    ah_there_it_is.Session.query ah_there_it_is.Session.flush ah_there_it_is.Session.commit
    ah_there_it_is.Session.guarded ah_there_it_is.Session.modify ah_there_it_is.Session.pure
    ah_there_it_is.Session.raise_if ah_there_it_is.Inventory.Checks.get_optional
    ah_there_it_is.Inventory.Checks.coerce_state ah_there_it_is.Inventory.Checks.ensure_item_name
    ah_there_it_is.Inventory.Checks.ensure_nonterminal
    ah_there_it_is.Inventory.Checks.ensure_tree_name ah_there_it_is.Inventory.Checks.history_path
    ah_there_it_is.Inventory.Checks.normalized_nonblank ah_there_it_is.Inventory.Checks.walk_up
    ah_there_it_is.Inventory.Nodes.create_node ah_there_it_is.Inventory.Nodes.refuse_phrase
    ah_there_it_is.Inventory.Items.alias_change ah_there_it_is.Inventory.Items.canonical_aliases
    ah_there_it_is.Inventory.Items.find_or_add_tag ah_there_it_is.Inventory.Items.insert_item
    ah_there_it_is.Inventory.Items.link_tags ah_there_it_is.Inventory.Items.or_add_tag
    ah_there_it_is.Inventory.Items.create_item ah_there_it_is.Inventory.Requests.execute
    ah_there_it_is.Inventory.Requests.serve
stocked_item = refl

stocked_drawer : find node_id 2 stocked.working.locations ≡ some drawer
unfolding ah_there_it_is.Base.find ah_there_it_is.Base.remove ah_there_it_is.Base.replace
    ah_there_it_is.Text.strip ah_there_it_is.Text.lstrip ah_there_it_is.Text.is_space
    ah_there_it_is.Text.text_eq ah_there_it_is.Domain.States.parse_mode
    ah_there_it_is.Domain.States.parse_state ah_there_it_is.Domain.Quantity.create
    ah_there_it_is.Domain.Quantity.coerce ah_there_it_is.Domain.Quantity.coerce_portion
    ah_there_it_is.Domain.Quantity.validated_reason ah_there_it_is.Domain.Quantity.split_quantities
    ah_there_it_is.Domain.Quantity.stored ah_there_it_is.Session.◌>>=◌ ah_there_it_is.Session.lift
    ah_there_it_is.Session.query ah_there_it_is.Session.flush ah_there_it_is.Session.commit
    ah_there_it_is.Session.guarded ah_there_it_is.Session.modify ah_there_it_is.Session.pure
    ah_there_it_is.Session.raise_if ah_there_it_is.Inventory.Checks.get_optional
    ah_there_it_is.Inventory.Checks.coerce_state ah_there_it_is.Inventory.Checks.ensure_item_name
    ah_there_it_is.Inventory.Checks.ensure_nonterminal
    ah_there_it_is.Inventory.Checks.ensure_tree_name ah_there_it_is.Inventory.Checks.history_path
    ah_there_it_is.Inventory.Checks.normalized_nonblank ah_there_it_is.Inventory.Checks.walk_up
    ah_there_it_is.Inventory.Nodes.create_node ah_there_it_is.Inventory.Nodes.refuse_phrase
    ah_there_it_is.Inventory.Items.alias_change ah_there_it_is.Inventory.Items.canonical_aliases
    ah_there_it_is.Inventory.Items.find_or_add_tag ah_there_it_is.Inventory.Items.insert_item
    ah_there_it_is.Inventory.Items.link_tags ah_there_it_is.Inventory.Items.or_add_tag
    ah_there_it_is.Inventory.Items.create_item ah_there_it_is.Inventory.Requests.execute
    ah_there_it_is.Inventory.Requests.serve
stocked_drawer = refl

stocked_desk : get_optional Model.location (some 1) stocked.working ≡ ok (some desk)
unfolding ah_there_it_is.Base.find ah_there_it_is.Base.remove ah_there_it_is.Base.replace
    ah_there_it_is.Text.strip ah_there_it_is.Text.lstrip ah_there_it_is.Text.is_space
    ah_there_it_is.Text.text_eq ah_there_it_is.Domain.States.parse_mode
    ah_there_it_is.Domain.States.parse_state ah_there_it_is.Domain.Quantity.create
    ah_there_it_is.Domain.Quantity.coerce ah_there_it_is.Domain.Quantity.coerce_portion
    ah_there_it_is.Domain.Quantity.validated_reason ah_there_it_is.Domain.Quantity.split_quantities
    ah_there_it_is.Domain.Quantity.stored ah_there_it_is.Session.◌>>=◌ ah_there_it_is.Session.lift
    ah_there_it_is.Session.query ah_there_it_is.Session.flush ah_there_it_is.Session.commit
    ah_there_it_is.Session.guarded ah_there_it_is.Session.modify ah_there_it_is.Session.pure
    ah_there_it_is.Session.raise_if ah_there_it_is.Inventory.Checks.get_optional
    ah_there_it_is.Inventory.Checks.coerce_state ah_there_it_is.Inventory.Checks.ensure_item_name
    ah_there_it_is.Inventory.Checks.ensure_nonterminal
    ah_there_it_is.Inventory.Checks.ensure_tree_name ah_there_it_is.Inventory.Checks.history_path
    ah_there_it_is.Inventory.Checks.normalized_nonblank ah_there_it_is.Inventory.Checks.walk_up
    ah_there_it_is.Inventory.Nodes.create_node ah_there_it_is.Inventory.Nodes.refuse_phrase
    ah_there_it_is.Inventory.Items.alias_change ah_there_it_is.Inventory.Items.canonical_aliases
    ah_there_it_is.Inventory.Items.find_or_add_tag ah_there_it_is.Inventory.Items.insert_item
    ah_there_it_is.Inventory.Items.link_tags ah_there_it_is.Inventory.Items.or_add_tag
    ah_there_it_is.Inventory.Items.create_item ah_there_it_is.Inventory.Requests.execute
    ah_there_it_is.Inventory.Requests.serve
stocked_desk = refl

move_item_succeeds_example :
    (let (r, t) = move_item plain 1 (some 2) none none stocked in
      Placed plain stocked at_desk
        (at_location at_desk (some 2) LocationStatus.known)
        Transition.item_moved
        (some drawer)
        none
        r
        t)
move_item_succeeds_example =
    move_item_succeeds plain stocked 1 at_desk none 2 drawer (λ d. refl) stocked-IsValid
      stocked_item stocked_drawer refl refl

take_item_succeeds_example :
    (let (r, t) = take_item plain 1 none none stocked in
      Placed plain stocked at_desk
        (at_location at_desk none LocationStatus.in_use)
        Transition.item_taken
        none
        none
        r
        t)
take_item_succeeds_example =
    take_item_succeeds plain stocked 1 at_desk none (λ d. refl) stocked-IsValid stocked_item refl
      refl

mark_item_location_unknown_succeeds_example :
    (let (r, t) = mark_item_location_unknown plain 1 none stocked in
      Placed plain stocked at_desk
        (at_location at_desk none LocationStatus.unknown)
        Transition.item_location_unknown
        none
        none
        r
        t)
mark_item_location_unknown_succeeds_example =
    mark_item_location_unknown_succeeds plain stocked 1 at_desk none (λ d. refl) stocked-IsValid
      stocked_item refl refl

used_state : coerce_state (codes "used") ≡ ok ItemState.used
unfolding coerce_state ah_there_it_is.Domain.States.parse_state ah_there_it_is.Text.text_eq
used_state = refl

lost_reason :
    ah_there_it_is.Domain.Quantity.validated_reason (codes "lost") (codes "explicit")
    ≡ ok (codes "lost", ReasonSource.explicit)
unfolding ah_there_it_is.Domain.Quantity.validated_reason ah_there_it_is.Text.text_eq
    ah_there_it_is.Text.strip ah_there_it_is.Text.lstrip ah_there_it_is.Text.is_space
lost_reason = refl

remove_then_restore_example :
    (let (r, t) = remove_item plain 1 (codes "lost") (codes "explicit") none none stocked in
      let (r2, u) = restore_item plain 1 (codes "used") (some 1) none t in
      (r ≡ ok (removed_row at_desk (codes "lost")))
      × (r2 ≡ ok at_desk)
      × ((j : ℕ) → find item_id j u.working.items ≡ find item_id j stocked.working.items))
remove_then_restore_example =
    remove_then_restore plain stocked 1 at_desk (some desk) (codes "used") (codes "lost")
      (codes "explicit") (codes "lost") ReasonSource.explicit none none (λ d. refl) stocked-IsValid
      stocked_item refl refl stocked_desk lost_reason used_state
