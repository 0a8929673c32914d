-- ===== src/Tools/Receipts.antt =====
-- agent/tools.py: the receipt of a mutation (`_mutation_before`, `_mutation_receipt`, `_receipt_item` and
-- `_media_dict`). Events are only
-- added, the newest first, so an event's key is its place from the end.
use ah_there_it_is.Base.{
  ℕ, suc, Bool, true, false, not, Option, none, some, List, [], ◌∷◌, ◌++◌, find, length, leb, ◌==◌,
  ◌&&◌, if◌then◌else◌,
}
use ah_there_it_is.Text.{Text, codes}
use ah_there_it_is.Db.{Db, Item, Media, Event, item_id, media_id}
use ah_there_it_is.Receipts.{MutationReceipt, Operation, EntityType, Evidence, item_row, media_row}
use ah_there_it_is.Inventory.Requests.{Reply}
use ah_there_it_is.Undo.Snapshots.{snapshot}
use ah_there_it_is.Undo.Compensate.{sorted_set}
use ah_there_it_is.Tools.NewPaths.{ToolReply, served, located}
use ah_there_it_is.Tools.Operations.{Write}

abbrev pub operation_of : Write → Operation
operation_of (Write.new_category _ _ _) = Operation.create_category
operation_of (Write.new_location _ _ _) = Operation.create_location
operation_of (Write.new_item _) = Operation.create_item
operation_of (Write.change_item _ _) = Operation.update_item
operation_of (Write.move_to _ _ _) = Operation.move_item
operation_of (Write.take_along _ _) = Operation.take_item
operation_of (Write.lose_place _) = Operation.mark_item_location_unknown
operation_of (Write.set_quantity _ _ _ _ _) = Operation.change_item_quantity
operation_of (Write.remove_part _ _ _ _) = Operation.remove_item
operation_of (Write.bring_back _ _ _) = Operation.restore_item
operation_of (Write.attach _ _ _ _ _) = Operation.attach_item_photo
operation_of (Write.change_photo _ _ _) = Operation.update_item_photo
operation_of (Write.detach _) = Operation.detach_item_photo

abbrev pub entity_type_of : Write → EntityType
entity_type_of (Write.new_category _ _ _) = EntityType.category
entity_type_of (Write.new_location _ _ _) = EntityType.location
entity_type_of (Write.attach _ _ _ _ _) = EntityType.media
entity_type_of (Write.change_photo _ _ _) = EntityType.media
entity_type_of (Write.detach _) = EntityType.media
entity_type_of _ = EntityType.item

-- `parsed.item_id`
abbrev pub subject : Write → Option ℕ
subject (Write.change_item k _) = some k
subject (Write.move_to k _ _) = some k
subject (Write.take_along k _) = some k
subject (Write.lose_place k) = some k
subject (Write.set_quantity k _ _ _ _) = some k
subject (Write.remove_part k _ _ _) = some k
subject (Write.bring_back k _ _) = some k
subject (Write.attach k _ _ _ _) = some k
subject _ = none

abbrev pub found_item : Option ℕ → Db → Option Item
found_item none d = none
found_item (some k) d = find item_id k d.items

-- the item of a photo's tool, before it
abbrev pub media_item : Write → Db → Option ℕ
media_item (Write.attach k _ _ _ _) d = some k
media_item (Write.change_photo k _ _) d = elim (find media_id k d.media) [
  | none ↦ none
  | some m ↦ some m.item_id
]
media_item (Write.detach k) d = elim (find media_id k d.media) [
  | none ↦ none
  | some m ↦ some m.item_id
]
media_item _ d = none

-- `result["id"]`
abbrev pub reply_id : ToolReply → ℕ
reply_id (served (Reply.node n)) = n.id
reply_id (served (Reply.item i)) = i.id
reply_id (served (Reply.photo m)) = m.id
reply_id (served (Reply.path p)) = p.location.id
reply_id (located p texts) = p.location.id

-- the keys that `result` has of other rows
abbrev pub reply_parent : ToolReply → Option ℕ
reply_parent (served (Reply.node n)) = n.parent_id
reply_parent (located p texts) = p.location.parent_id
reply_parent _ = none

abbrev pub reply_location : ToolReply → Option ℕ
reply_location (served (Reply.item i)) = i.current_location_id
reply_location _ = none

abbrev pub reply_category : ToolReply → Option ℕ
reply_category (served (Reply.item i)) = i.category_id
reply_category _ = none

abbrev pub location_of : Option Item → Option ℕ
location_of none = none
location_of (some i) = i.current_location_id

abbrev pub category_of : Option Item → Option ℕ
category_of none = none
category_of (some i) = i.category_id

-- the keys of the events after the last one of before
unfoldable pub ids_after : ℕ → List Event → List ℕ
ids_after last [] = []
ids_after last (e ∷ es) =
    let rest = ids_after last es in
    let key = suc (length es) in if leb key last then rest else rest ++ key ∷ []

abbrev pub has_events : EntityType → Bool
has_events EntityType.item = true
has_events EntityType.media = true
has_events _ = false

abbrev pub new_event_ids : Write → Db → Db → List ℕ
new_event_ids w d d' =
    if has_events (entity_type_of w) then ids_after (length d.events) d'.events else []

-- a tool of the set LOCATION_MUTATION_TOOLS
abbrev pub changes_place : Write → Bool
changes_place (Write.move_to _ _ _) = true
changes_place (Write.take_along _ _) = true
changes_place (Write.lose_place _) = true
changes_place (Write.remove_part _ _ _ _) = true
changes_place (Write.bring_back _ _ _) = true
changes_place _ = false

abbrev pub category_before : Option (Option ℕ) → Option Item → List (Text × Option ℕ)
category_before none i = []
category_before (some _) i = (codes "category_id", category_of i) ∷ []

abbrev pub category_after : Option (Option ℕ) → ToolReply → List (Text × Option ℕ)
category_after none reply = []
category_after (some _) reply = (codes "category_id", reply_category reply) ∷ []

abbrev pub keys_before : Write → Db → List (Text × Option ℕ)
keys_before (Write.change_item k patch) d =
    category_before patch.category_id (found_item (some k) d)
keys_before w d =
    if changes_place w
    then (codes "location_id", location_of (found_item (subject w) d)) ∷ []
    else []

abbrev pub keys_after : Write → ToolReply → List (Text × Option ℕ)
keys_after (Write.new_category _ _ _) reply = (codes "parent_id", reply_parent reply) ∷ []
keys_after (Write.new_location _ _ _) reply = (codes "parent_id", reply_parent reply) ∷ []
keys_after (Write.new_item _) reply =
    (codes "category_id", reply_category reply) ∷ (codes "location_id", reply_location reply) ∷ []
keys_after (Write.change_item k patch) reply = category_after patch.category_id reply
keys_after w reply =
    if changes_place w then (codes "location_id", reply_location reply) ∷ [] else []

-- `created_location_ids` of a result
abbrev pub created_locations : ToolReply → List ℕ
created_locations (located p texts) = p.created_ids
created_locations _ = []

abbrev pub has_any : List ℕ → Bool
has_any [] = false
has_any (_ ∷ _) = true

-- `changed` of the receipt
abbrev pub receipt_says_changed : Write → ToolReply → List ℕ → Bool
receipt_says_changed (Write.new_category _ _ _) reply ids = true
receipt_says_changed (Write.new_location _ _ _) reply ids = has_any (created_locations reply)
receipt_says_changed (Write.new_item _) reply ids = true
receipt_says_changed w reply ids = has_any ids

-- `source_of`
abbrev pub source_of : Write → ToolReply → ℕ
source_of w reply = elim (subject w) [ none ↦ reply_id reply | some k ↦ k ]

abbrev pub listed : Option ℕ → List ℕ
listed none = []
listed (some k) = k ∷ []

abbrev pub affected : EntityType → Write → ToolReply → Db → List ℕ
affected EntityType.item w reply d = sorted_set (source_of w reply ∷ reply_id reply ∷ [])
affected EntityType.media w reply d = listed (media_item w d)
affected _ w reply d = []

abbrev pub item_rows : List ℕ → Db → List Evidence
item_rows [] d = []
item_rows (k ∷ ks) d =
    let rest = item_rows ks d in
    elim (find item_id k d.items) [ none ↦ rest | some i ↦ item_row k (snapshot d.tags i) ∷ rest ]

abbrev pub media_rows : ℕ → Option Media → List Evidence
media_rows k none = []
media_rows k (some m) = media_row k m ∷ []

abbrev pub is_detach : Write → Bool
is_detach (Write.detach _) = true
is_detach _ = false

abbrev pub photo_before : Write → Db → List Evidence
photo_before (Write.attach _ _ _ _ _) d = []
photo_before (Write.change_photo k _ _) d = media_rows k (find media_id k d.media)
photo_before (Write.detach k) d = media_rows k (find media_id k d.media)
photo_before _ d = []

abbrev pub photo_after : Write → ToolReply → List Evidence
photo_after w (served (Reply.photo m)) = if is_detach w then [] else media_row m.id m ∷ []
photo_after w _ = []

abbrev pub rows_before : EntityType → Write → Db → List Evidence
rows_before EntityType.item w d = item_rows (listed (subject w)) d
rows_before EntityType.media w d = photo_before w d
rows_before _ w d = []

abbrev pub rows_after : EntityType → Write → ToolReply → Db → Db → List Evidence
rows_after EntityType.item w reply d d' = item_rows (affected EntityType.item w reply d) d'
rows_after EntityType.media w reply d d' = photo_after w reply
rows_after _ w reply d d' = []

abbrev pub is_item : EntityType → Bool
is_item EntityType.item = true
is_item _ = false

-- `_mutation_receipt`, of the result and the database before and after
unfoldable pub mutation_receipt : Write → ToolReply → Db → Db → MutationReceipt
mutation_receipt w reply d d' =
    let type = entity_type_of w in
    let split_off = is_item type && not (reply_id reply == source_of w reply) in
    record {
      operation = operation_of w;
      entity_type = type;
      entity_id = reply_id reply;
      changed = receipt_says_changed w reply (new_event_ids w d d');
      before_ids = keys_before w d;
      after_ids = keys_after w reply;
      event_ids = new_event_ids w d d';
      affected_item_ids = affected type w reply d;
      created_location_ids = created_locations reply;
      before = rows_before type w d;
      after = rows_after type w reply d d';
      split = if split_off then some (reply_id reply) else none;
      source_item_id = if is_item type then some (source_of w reply) else none;
      item_id = media_item w d;
      undo_of_run_id = none;
    }
