-- ===== src/Inventory/Items.antt =====
-- services/inventory.py: creating and changing items, with their aliases and tags.
mod Patches
unfoldable pub use Patches.*
mod Labels
unfoldable pub use Labels.*
use ah_there_it_is.Base.{
  ℕ, Bool, true, ◌&&◌, ◌||◌, not, Option, none, some, List, [], ◌∷◌, ◌++◌, map, any, find, is_some,
  option_eq, ◌==◌, if◌then◌else◌, replace,
}
use ah_there_it_is.Text.{Text, text_eq, text_option_eq, is_blank}
use ah_there_it_is.Domain.States.{ItemState, LocationStatus, Error, ok, is_terminal, state_index}
use ah_there_it_is.Domain.Quantity.{ℤ, QuantityValue, coerce}
use ah_there_it_is.Db.{
  Db, Node, Item, Alias, Tag, Event, Change, Changes, Model, item_id, item_created, HistoryPath,
}
use ah_there_it_is.Session.{
  M, Service, Names, comparison_key, ◌>>=◌, ◌>>◌, pure, query, lift, raise_if, modify, flush,
  commit, add_event,
}
use ah_there_it_is.Inventory.Checks.{
  get_optional, optional_id, normalized_nonblank, ensure_item_name, coerce_state, history_path,
}

-- the arguments of `create_item`
pub record NewItem : Type 0 where
  pub name : Text
  pub description : Option Text
  pub state : Text
  pub category_id : Option ℕ
  pub location_id : Option ℕ
  pub quantity_mode : Text
  pub quantity : Option ℤ
  pub attributes : Text
  pub aliases : List Text
  pub tags : List Text
  pub original_text : Option Text
  pub allow_duplicate : Bool

abbrev pub status_at : Option Node → LocationStatus
status_at none = LocationStatus.unknown
status_at (some _) = LocationStatus.known

-- the row before its aliases and tags are attached
abbrev pub new_row :
    ℕ → NewItem → Text → Text → ItemState → Option Node → Option Node → QuantityValue → Item
new_row key args display normalized state category location q = record {
  id = key;
  name = display;
  normalized_name = normalized;
  description = args.description;
  state = state;
  category_id = optional_id category;
  current_location_id = optional_id location;
  location_status = status_at location;
  quantity_mode = q.mode;
  quantity = q.value;
  removal_reason = none;
  attributes = args.attributes;
  aliases = [];
  tag_ids = [];
}

abbrev pub created_event : Item → QuantityValue → HistoryPath → HistoryPath → Option Text → Event
created_event i q to_location to_category text = record {
  item_id = i.id;
  from_location_id = none;
  to_location_id = i.current_location_id;
  payload = item_created i.name q to_location to_category;
  original_text = text;
}

-- what `create_item` does once its arguments are checked
unfoldable pub insert_item :
    Service → NewItem → Text → Text → ItemState → Option Node → Option Node → QuantityValue → M Item
insert_item self args display normalized state category location q = do
  keys ← query (λ d. ok (map item_id d.items))
  let row : Item = new_row (self.fresh keys) args display normalized state category location q
  modify (add_item row)
  flush self
  tags ← link_tags self [] args.tags
  let item : Item = record row {
    aliases = canonical_aliases self.names [] args.aliases;
    tag_ids = tags;
  }
  modify (save_item item)
  to_location ← query (history_path Model.location location)
  to_category ← query (history_path Model.category category)
  modify (add_event (created_event item q to_location to_category args.original_text))
  commit self
  pure item

-- `create_item`
unfoldable pub create_item : Service → NewItem → M Item
create_item self args = do
  q ← lift (coerce args.quantity_mode args.quantity)
  let display = self.names.display_name args.name
  normalized ← lift (normalized_nonblank self.names display)
  category ← query (get_optional Model.category args.category_id)
  location ← query (get_optional Model.location args.location_id)
  query (λ d.
      if args.allow_duplicate then ok tt else ensure_item_name normalized args.category_id none d)
  state ← lift (coerce_state args.state)
  raise_if (is_terminal state) Error.terminal_create
  insert_item self args display normalized state category location q
