-- ===== src/Undo/Snapshots.antt =====
-- services/undo.py: snapshots of items and photos, and writing a snapshot back.
use ah_there_it_is.Base.{
  ℕ, Bool, true, false, ◌&&◌, none, List, [], ◌∷◌, map, option_eq, ◌==◌, if◌then◌else◌,
}
use ah_there_it_is.Text.{Text, codes, text_eq, text_option_eq}
use ah_there_it_is.Domain.States.{state_index, status_index, mode_index, ok}
use ah_there_it_is.Db.{Item, Media, Tag, Snapshot, Event, item_undo_compensated}
use ah_there_it_is.Session.{M, Service, ◌>>=◌, ◌>>◌, pure, query, lift, modify, flush, add_event}
use ah_there_it_is.Inventory.Checks.{normalized_nonblank}
use ah_there_it_is.Inventory.Items.{save_item, canonical_aliases, link_tags}
use ah_there_it_is.Inventory.Moves.{alias_name, tag_names}
use ah_there_it_is.Receipts.{Operation}

-- `_snapshot`
abbrev pub snapshot : List Tag → Item → Snapshot
snapshot tags i = record {
  id = i.id;
  name = i.name;
  description = i.description;
  state = i.state;
  quantity_mode = i.quantity_mode;
  quantity = i.quantity;
  removal_reason = i.removal_reason;
  category_id = i.category_id;
  location_id = i.current_location_id;
  location_status = i.location_status;
  attributes = i.attributes;
  aliases = map alias_name i.aliases;
  tags = tag_names tags i.tag_ids;
}

unfoldable pub texts_eq : List Text → List Text → Bool
texts_eq [] [] = true
texts_eq (s ∷ ss) (t ∷ ts) = text_eq s t && texts_eq ss ts
texts_eq _ _ = false

-- equality of the dictionaries of two snapshots
unfoldable pub snapshot_eq : Snapshot → Snapshot → Bool
snapshot_eq a b =
    a.id == b.id
    && text_eq a.name b.name
    && text_option_eq a.description b.description
    && (state_index a.state == state_index b.state)
    && (mode_index a.quantity_mode == mode_index b.quantity_mode)
    && option_eq a.quantity b.quantity
    && text_option_eq a.removal_reason b.removal_reason
    && option_eq a.category_id b.category_id
    && option_eq a.location_id b.location_id
    && (status_index a.location_status == status_index b.location_status)
    && text_eq a.attributes b.attributes
    && texts_eq a.aliases b.aliases
    && texts_eq a.tags b.tags

-- equality of two `_media_snapshot`s, which hold every column
unfoldable pub media_eq : Media → Media → Bool
media_eq a b =
    a.id == b.id
    && (a.item_id == b.item_id)
    && text_eq a.provider b.provider
    && text_eq a.media_reference b.media_reference
    && text_option_eq a.caption b.caption
    && (a.position == b.position)

abbrev pub operation_name : Operation → Text
operation_name Operation.create_item = codes "create_item"
operation_name Operation.create_location = codes "create_location"
operation_name Operation.create_category = codes "create_category"
operation_name Operation.update_item = codes "update_item"
operation_name Operation.move_item = codes "move_item"
operation_name Operation.take_item = codes "take_item"
operation_name Operation.mark_item_location_unknown = codes "mark_item_location_unknown"
operation_name Operation.change_item_quantity = codes "change_item_quantity"
operation_name Operation.remove_item = codes "remove_item"
operation_name Operation.restore_item = codes "restore_item"
operation_name Operation.undo_last_action = codes "undo_last_action"
operation_name Operation.attach_item_photo = codes "attach_item_photo"
operation_name Operation.update_item_photo = codes "update_item_photo"
operation_name Operation.detach_item_photo = codes "detach_item_photo"

-- the assignments of `_restore_snapshot`
abbrev pub assigned : Item → Snapshot → Text → Item
assigned i target normalized = record i {
  name = target.name;
  normalized_name = normalized;
  description = target.description;
  state = target.state;
  category_id = target.category_id;
  current_location_id = target.location_id;
  location_status = target.location_status;
  quantity_mode = target.quantity_mode;
  quantity = target.quantity;
  removal_reason = target.removal_reason;
  attributes = target.attributes;
}

-- the aliases of a snapshot, if they differ
unfoldable pub restore_aliases : Service → Item → List Text → M Item
restore_aliases self i names = if texts_eq (map alias_name i.aliases) names then pure i else do
  modify (save_item (record i { aliases = [] }))
  flush self
  modify (save_item (record i { aliases = canonical_aliases self.names [] names }))
  pure (record i { aliases = canonical_aliases self.names [] names })

-- its tags, if they differ
unfoldable pub restore_tags : Service → Item → List Text → M Item
restore_tags self i names = do
  current ← query (λ d. ok (tag_names d.tags i.tag_ids))
  if texts_eq current names then pure i else do
    modify (save_item (record i { tag_ids = [] }))
    flush self
    tags ← link_tags self [] names
    modify (save_item (record i { tag_ids = tags }))
    pure (record i { tag_ids = tags })

abbrev pub undo_event : Item → Snapshot → Snapshot → Operation → Bool → ℕ → Event
undo_event i current target operation split run = record {
  item_id = i.id;
  from_location_id = current.location_id;
  to_location_id = target.location_id;
  payload = item_undo_compensated run (operation_name operation) current target split;
  original_text = none;
}

-- `_restore_snapshot`
unfoldable pub restore_snapshot : Service → Item → Snapshot → Operation → Bool → ℕ → M (Unit {0})
restore_snapshot self i target operation split run = do
  current ← query (λ d. ok (snapshot d.tags i))
  modify (save_item (record i { name = target.name }))
  normalized ← lift (normalized_nonblank self.names target.name)
  modify (save_item (assigned i target normalized))
  named ← restore_aliases self (assigned i target normalized) target.aliases
  tagged ← restore_tags self named target.tags
  modify (add_event (undo_event tagged current target operation split run))
