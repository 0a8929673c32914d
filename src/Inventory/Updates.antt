-- ===== src/Inventory/Updates.antt =====
-- services/inventory.py: `update_item`.
use ah_there_it_is.Base.{
  ℕ, Bool, ◌&&◌, ◌||◌, not, Option, none, some, List, [], option_eq, if◌then◌else◌,
}
use ah_there_it_is.Text.{Text, text_eq}
use ah_there_it_is.Domain.States.{ItemState, Error, Result, ok, is_terminal}
use ah_there_it_is.Db.{
  Db, Node, Item, Alias, Event, Changes, Model, HistoryPath, related, item_updated,
}
use ah_there_it_is.Session.{
  M, Service, Names, ◌>>=◌, ◌>>◌, pure, query, lift, raise_if, modify, commit, add_event,
}
use ah_there_it_is.Inventory.Checks.{
  get_item, get_optional, normalized_nonblank, ensure_item_name, coerce_state, history_path,
}
use ah_there_it_is.Inventory.Nodes.{patched}
use ah_there_it_is.Inventory.Items.{
  ItemPatch, Target, save_item, canonical_aliases, link_tags, alias_change, tag_change, changes_of,
  any_change, apply_target, state_same,
}

-- the target name and its comparison key
unfoldable pub target_name : Names → Item → Option Text → Result (Text × Text)
unfolding normalized_nonblank
target_name names i none = ok (i.name, i.normalized_name)
target_name names i (some name) =
    let target = names.display_name name in
    elim (normalized_nonblank names (names.display_name target)) [
      | Result.ok normalized ↦ ok (target, normalized)
      | Result.err e ↦ Result.err e
    ]

unfoldable pub target_category : Item → Option (Option ℕ) → Db → Result (Option Node)
target_category i none d = ok (related Model.category i.category_id d)
target_category i (some k) d = get_optional Model.category k d

unfoldable pub target_state : Item → Option Text → Result ItemState
unfolding coerce_state
target_state i none = ok i.state
target_state i (some s) = coerce_state s

-- the name check is made only if the key or the category changes
abbrev pub check_item_name : Item → Target → Bool → Db → Result (Unit {0})
check_item_name i t allow_duplicate d =
    if not allow_duplicate
      && (not (text_eq t.normalized_name i.normalized_name)
          || not (option_eq t.category_id i.category_id))
    then ensure_item_name t.normalized_name t.category_id (some i.id) d
    else ok tt

-- the category paths, read before anything is written
unfoldable pub category_evidence : Item → Target → M (Option (HistoryPath × HistoryPath))
category_evidence i t = if option_eq t.category_id i.category_id then pure none else do
  before ← query (λ d. history_path Model.category (related Model.category i.category_id d) d)
  after ← query (history_path Model.category t.category)
  pure (some (before, after))

abbrev pub updated_event : Item → Changes → Option (HistoryPath × HistoryPath) → Option Text → Event
updated_event i changes evidence text = record {
  item_id = i.id;
  from_location_id = none;
  to_location_id = none;
  payload = item_updated changes evidence;
  original_text = text;
}

unfoldable pub aliases_after : Names → Item → Option (List Text) → List Alias
aliases_after names i none = i.aliases
aliases_after names i (some values) = canonical_aliases names [] values

unfoldable pub tags_after : Service → Item → Option (List Text) → M (List ℕ)
tags_after self i none = pure i.tag_ids
tags_after self i (some values) = link_tags self [] values

-- the writes of `update_item`; tags are only replaced where that is one of the changes
unfoldable pub write_item : Service → ItemPatch → Item → Target → M Item
write_item self patch i t = do
  evidence ← category_evidence i t
  let aliases = alias_change self.names i patch.aliases
  tags ← query (λ d. ok (tag_change self.names i patch.tags d))
  let changes = changes_of i t aliases tags
  if not (any_change changes) then pure i else do
    tag_ids ← tags_after self i tags
    let item : Item = record (apply_target i t) {
      aliases = aliases_after self.names i aliases;
      tag_ids = tag_ids;
    }
    modify (save_item item)
    modify (add_event (updated_event i changes evidence patch.original_text))
    commit self
    pure item

-- `update_item`
unfoldable pub update_item : Service → ℕ → ItemPatch → M Item
update_item self k patch = do
  i ← query (get_item k)
  (name, normalized) ← lift (target_name self.names i patch.name)
  category ← query (target_category i patch.category_id)
  state ← lift (target_state i patch.state)
  let t : Target = record {
    name = name;
    normalized_name = normalized;
    description = patched patch.description i.description;
    state = state;
    category_id = patched patch.category_id i.category_id;
    category = category;
    attributes = patched patch.attributes i.attributes;
  }
  raise_if (is_terminal i.state && not (state_same state i.state)) Error.terminal_change
  raise_if (is_terminal state && not (state_same state i.state)) Error.terminal_transition
  query (check_item_name i t patch.allow_duplicate)
  write_item self patch i t
