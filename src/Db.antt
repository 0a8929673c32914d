-- ===== src/Db.antt =====
-- src/ah_there_it_is/db/models.py: the tables that the inventory service reads and writes, as
-- lists of rows. Time stamps are left out; `events` holds the newest event first.
use ah_there_it_is.Base.{ℕ, Bool, Option, none, some, List, [], find}
use ah_there_it_is.Text.{Text}
use ah_there_it_is.Domain.States.{ItemState, LocationStatus, QuantityMode}
use ah_there_it_is.Domain.Quantity.{QuantityValue, ReasonSource}

-- `Category` and `Location`
pub record Node : Type 0 where
  pub id : ℕ
  pub parent_id : Option ℕ
  pub name : Text
  pub normalized_name : Text
  pub description : Option Text

pub record Alias : Type 0 where
  pub name : Text
  pub normalized_name : Text

pub record Tag : Type 0 where
  pub id : ℕ
  pub name : Text
  pub normalized_name : Text

-- `attributes` is the canonical JSON text of the dictionary; `tag_ids` are the rows of `ItemTag`
pub record Item : Type 0 where
  pub id : ℕ
  pub name : Text
  pub normalized_name : Text
  pub description : Option Text
  pub state : ItemState
  pub category_id : Option ℕ
  pub current_location_id : Option ℕ
  pub location_status : LocationStatus
  pub quantity_mode : QuantityMode
  pub quantity : Option ℕ
  pub removal_reason : Option Text
  pub attributes : Text
  pub aliases : List Alias
  pub tag_ids : List ℕ

-- `ItemMedia`; `InventoryService._media_metadata` copies exactly these columns
pub record Media : Type 0 where
  pub id : ℕ
  pub item_id : ℕ
  pub provider : Text
  pub media_reference : Text
  pub caption : Option Text
  pub position : ℕ

-- one component of `_history_path`
abbrev pub PathPart : Type 0
PathPart = ℕ × Text

abbrev pub HistoryPath : Type 0
HistoryPath = Option (List PathPart)

-- `{"from": a, "to": b}`
pub record Change {ℓ} (A : Type ℓ) : Type ℓ where
  pub from : A
  pub to : A

-- the `changes` of `update_item`
pub record Changes : Type 0 where
  pub name : Option (Change Text)
  pub description : Option (Change (Option Text))
  pub state : Option (Change ItemState)
  pub current_location_id : Option (Change (Option ℕ))
  pub category_id : Option (Change (Option ℕ))
  pub attributes : Option (Change Text)
  pub aliases : Option (List Text)
  pub tags : Option (List Text)

pub record SplitPayload : Type 0 where
  pub source_item_id : ℕ
  pub child_item_id : ℕ
  pub before : QuantityValue
  pub remainder : QuantityValue
  pub child : QuantityValue
  pub copied_description : Option Text

-- `UndoService._snapshot`
pub record Snapshot : Type 0 where
  pub id : ℕ
  pub name : Text
  pub description : Option Text
  pub state : ItemState
  pub quantity_mode : QuantityMode
  pub quantity : Option ℕ
  pub removal_reason : Option Text
  pub category_id : Option ℕ
  pub location_id : Option ℕ
  pub location_status : LocationStatus
  pub attributes : Text
  pub aliases : List Text
  pub tags : List Text

-- the `event_type`s of a change of location
pub data Transition : Type 0 where
  item_moved item_taken item_location_unknown item_removed item_restored : Transition

-- `state` and `location_status`, where a transition changes the state
pub record StateChange : Type 0 where
  pub state : Change ItemState
  pub location_status : Change LocationStatus

pub record Removal : Type 0 where
  pub removal_reason : Change (Option Text)
  pub reason : Option (Text × ReasonSource)

-- `event_type` with its `payload`
pub data Payload : Type 0 where
  item_created : Text → QuantityValue → HistoryPath → HistoryPath → Payload
  item_updated : Changes → Option (HistoryPath × HistoryPath) → Payload
  item_quantity_changed : QuantityValue → QuantityValue → Text → ReasonSource → Payload
  item_transition :
      Transition → HistoryPath → HistoryPath → Option StateChange → Option Removal → Payload
  item_split : SplitPayload → Payload
  item_split_from : SplitPayload → Payload
  item_photo_attached : Media → Bool → Payload
  item_photo_updated : Media → Media → Payload
  item_photo_detached : Media → Payload
  item_undo_compensated : ℕ → Text → Snapshot → Snapshot → Bool → Payload
  photo_undo_compensated : ℕ → Text → ℕ → Option Media → Option Media → Payload

pub record Event : Type 0 where
  pub item_id : ℕ
  pub from_location_id : Option ℕ
  pub to_location_id : Option ℕ
  pub payload : Payload
  pub original_text : Option Text

pub record Db : Type 0 where
  pub categories : List Node
  pub locations : List Node
  pub tags : List Tag
  pub items : List Item
  pub media : List Media
  pub events : List Event

abbrev pub empty : Db
empty = record { categories = []; locations = []; tags = []; items = []; media = []; events = [] }

-- the two models that form a tree
pub data Model : Type 0 where
  category location : Model

abbrev pub nodes : Model → Db → List Node
nodes Model.category d = d.categories
nodes Model.location d = d.locations

abbrev pub set_nodes : Model → List Node → Db → Db
set_nodes Model.category ns d = record d { categories = ns }
set_nodes Model.location ns d = record d { locations = ns }

abbrev pub node_id : Node → ℕ
node_id n = n.id

abbrev pub item_id : Item → ℕ
item_id i = i.id

abbrev pub media_id : Media → ℕ
media_id m = m.id

-- the relationship behind a foreign key: `item.current_location`, `node.parent`
abbrev pub related : Model → Option ℕ → Db → Option Node
related m none d = none
related m (some k) d = find node_id k (nodes m d)
