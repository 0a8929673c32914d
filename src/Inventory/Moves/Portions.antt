-- ===== src/Inventory/Moves/Portions.antt =====
-- services/inventory.py: splitting a portion off a lot.
use ah_there_it_is.Base.{ℕ, find, Option, none, some, List, [], ◌∷◌, map, if◌then◌else◌}
use ah_there_it_is.Text.{Text}
use ah_there_it_is.Domain.States.{ok}
use ah_there_it_is.Domain.Quantity.{QuantityValue, Portion, stored, split_quantities}
use ah_there_it_is.Db.{
  Item, Tag, Alias, Event, Payload, SplitPayload, item_id, item_split, item_split_from,
}
use ah_there_it_is.Session.{M, Service, ◌>>=◌, ◌>>◌, pure, query, lift, modify, flush, add_event}
use ah_there_it_is.Inventory.Items.{save_item, add_item, canonical_aliases, link_tags, tag_id}

abbrev pub alias_name : Alias → Text
alias_name a = a.name

-- `[link.tag.name for link in item.tag_links]`
abbrev pub tag_names : List Tag → List ℕ → List Text
tag_names tags [] = []
tag_names tags (k ∷ ks) =
    let rest = tag_names tags ks in
    elim (find tag_id k tags) [ none ↦ rest | some t ↦ t.name ∷ rest ]

-- `quantity_mode` and `quantity` of a row
abbrev pub with_quantity : Item → QuantityValue → Item
with_quantity i q = record i { quantity_mode = q.mode; quantity = q.value }

abbrev pub event_of : ℕ → Payload → Option Text → Event
event_of k payload text = record {
  item_id = k;
  from_location_id = none;
  to_location_id = none;
  payload = payload;
  original_text = text;
}

-- the child row of a split, before its aliases and tags are copied
abbrev pub child_row : ℕ → Item → QuantityValue → Item
child_row key source q = record (with_quantity source q) {
  id = key;
  removal_reason = none;
  aliases = [];
  tag_ids = [];
}

-- `_split_for_portion` where a part of the lot is split off
unfoldable pub split_off :
    Service → Item → QuantityValue → QuantityValue → QuantityValue → Option Text → M Item
split_off self source before remainder q text = do
  modify (save_item (with_quantity source remainder))
  keys ← query (λ d. ok (map item_id d.items))
  let row : Item = child_row (self.fresh keys) source q
  modify (add_item row)
  flush self
  names ← query (λ d. ok (tag_names d.tags source.tag_ids))
  tags ← link_tags self [] names
  let child : Item = record row {
    aliases = canonical_aliases self.names [] (map alias_name source.aliases);
    tag_ids = tags;
  }
  modify (save_item child)
  let payload : SplitPayload = record {
    source_item_id = source.id;
    child_item_id = child.id;
    before = before;
    remainder = remainder;
    child = q;
    copied_description = source.description;
  }
  modify (add_event (event_of source.id (item_split payload) text))
  modify (add_event (event_of child.id (item_split_from payload) text))
  pure child

-- `_split_for_portion`
unfoldable pub split_for_portion : Service → Item → Option Portion → Option Text → M Item
unfolding pure
split_for_portion self source none text = pure source
split_for_portion self source (some p) text = do
  before ← lift (stored source.quantity_mode source.quantity)
  (remainder, whole) ← lift (split_quantities before p.quantity)
  if whole then pure source else split_off self source before remainder p.quantity text
