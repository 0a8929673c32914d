-- ===== src/Inventory/Atomic/Locations.antt =====
-- The shared end of the location changes of services/inventory.py: the row, its event, the commit.
use ah_there_it_is.Base.{◌≡◌, refl, ap, Option, some, arith, find, find-replace}
use ah_there_it_is.Domain.States.{ItemState}
use ah_there_it_is.Db.{
  Db, Node, Item, Event, Change, Transition, Removal, Model, item_id, item_transition,
}
use ah_there_it_is.Text.{Text}
use ah_there_it_is.Session.{Session, Service, add_event}
use ah_there_it_is.Session.Rules.{Triple, At, Fails, bind_rule, query_at, modify_at, modify_end}
use ah_there_it_is.Inventory.Checks.{history_path, optional_id}
use ah_there_it_is.Inventory.Items.{save_item}
use ah_there_it_is.Inventory.Moves.{relocate, record_location_transition, state_change_of}
use ah_there_it_is.Inventory.Forest.Climb.{IsRow, history_path_total}
use ah_there_it_is.Inventory.Valid.{
  IsOpen, IsTruthful, Only, place_after, place_of, IsOpen-relocate,
}
use ah_there_it_is.Inventory.Atomic.{Done, commit_rule}

-- a row that is written is found
pub find-save :
    (i j : Item) (d : Db)
    → find item_id j.id d.items ≡ some i
    → find item_id j.id (save_item j d).items ≡ some j
find-save i j d row = ground (arith, find-replace item_id j.id j d.items)

module _ (self : Service) (s0 : Session) where
  pub relocate_rule :
      (d : Db) (i before after : Item) (type : Transition) (from_location to_location : Option Node)
      (change : Option (Change ItemState)) (extra : Option Removal) (text : Option Text)
      → IsOpen (Only after.id) d
      → IsTruthful after
      → find item_id after.id d.items ≡ some i
      → place_after type (optional_id to_location) ≡ place_of after
      → IsRow d.locations from_location
      → IsRow d.locations to_location
      → Triple
          (At s0 d)
          (relocate self before after type from_location to_location change extra text)
          (Done self s0)
          (Fails s0)
  unfolding relocate record_location_transition
  relocate_rule d i before after type from_location to_location change extra text v t row place
        from_row to_row =
      let d' = save_item after d in
      let (from_path, from_ok) =
        history_path_total Model.location d' from_location v.locations.forest from_row in
      let (to_path, to_ok) =
        history_path_total Model.location d' to_location v.locations.forest to_row in
      let e : Event = record {
        item_id = after.id;
        from_location_id = optional_id from_location;
        to_location_id = optional_id to_location;
        payload =
            item_transition type from_path to_path
              (state_change_of before.location_status after.location_status change) extra;
        original_text = text;
      } in
      modify_at s0 d (save_item after) _ (
        bind_rule (λ _. At s0 (add_event e d'))
          (query_at s0 d' (history_path Model.location from_location) _ from_path from_ok (
            query_at s0 d' (history_path Model.location to_location) _ to_path to_ok
              (modify_end s0 d' (add_event e))))
          (λ _.
            commit_rule self s0 (add_event e d') after
              (IsOpen-relocate d after e v t refl (ap some place)) (find-save i after d row)))
