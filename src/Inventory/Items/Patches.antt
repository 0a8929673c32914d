-- ===== src/Inventory/Items/Patches.antt =====
-- services/inventory.py: what a call of `update_item` changes.
use ah_there_it_is.Base.{
  ℕ, Bool, true, ◌&&◌, ◌||◌, not, Option, none, some, List, [], ◌∷◌, map, find, is_some, option_eq,
  ◌==◌, if◌then◌else◌,
}
use ah_there_it_is.Text.{Text, text_eq, text_option_eq, is_blank}
use ah_there_it_is.Domain.States.{ItemState, LocationStatus, is_terminal, state_index}
use ah_there_it_is.Db.{Db, Node, Item, Alias, Tag, Change, Changes}
use ah_there_it_is.Session.{Names, comparison_key}
use ah_there_it_is.Inventory.Items.Labels.{text_in, tag_id}

-- the arguments of `update_item`; `none` leaves a field, an outer `none` is `_UNSET`
pub record ItemPatch : Type 0 where
  pub name : Option Text
  pub description : Option (Option Text)
  pub state : Option Text
  pub category_id : Option (Option ℕ)
  pub attributes : Option Text
  pub aliases : Option (List Text)
  pub tags : Option (List Text)
  pub original_text : Option Text
  pub allow_duplicate : Bool

abbrev pub changed {ℓ} : {A : Type ℓ} → Bool → A → A → Option (Change A)
changed same a b = if same then none else some (record { from = a; to = b })

-- two lists of keys as sets
abbrev pub subset : List Text → List Text → Bool
subset [] ys = true
subset (x ∷ xs) ys = text_in ys x && subset xs ys

abbrev pub same_set : List Text → List Text → Bool
same_set xs ys = subset xs ys && subset ys xs

-- the nonblank keys of the values
abbrev pub keys_of : (Text → Text) → List Text → List Text
keys_of key [] = []
keys_of key (v ∷ vs) = let rest = keys_of key vs in if is_blank (key v) then rest else key v ∷ rest

abbrev pub alias_key : Alias → Text
alias_key a = a.normalized_name

-- `{link.tag.normalized_name for link in item.tag_links}`
abbrev pub tag_keys : List Tag → List ℕ → List Text
tag_keys tags [] = []
tag_keys tags (k ∷ ks) =
    let rest = tag_keys tags ks in
    elim (find tag_id k tags) [ none ↦ rest | some t ↦ t.normalized_name ∷ rest ]

-- `changes["aliases"]`: compared by the canonical comparison keys
unfoldable pub alias_change : Names → Item → Option (List Text) → Option (List Text)
alias_change names i none = none
alias_change names i (some values) =
    if same_set (map alias_key i.aliases) (keys_of (comparison_key names) values)
    then none
    else some values

-- `changes["tags"]`: compared by `normalize_name`, which is not the key that a tag is stored by
unfoldable pub tag_change : Names → Item → Option (List Text) → Db → Option (List Text)
tag_change names i none d = none
tag_change names i (some values) d =
    if same_set (tag_keys d.tags i.tag_ids) (keys_of names.normalize_name values)
    then none
    else some values

-- the values that the patch asks for
pub record Target : Type 0 where
  pub name : Text
  pub normalized_name : Text
  pub description : Option Text
  pub state : ItemState
  pub category_id : Option ℕ
  pub category : Option Node
  pub attributes : Text

abbrev pub state_same : ItemState → ItemState → Bool
state_same a b = state_index a == state_index b

-- a state that becomes terminal in `update_item` clears the location
abbrev pub becomes_terminal : Item → Target → Bool
becomes_terminal i t = not (state_same t.state i.state) && is_terminal t.state

-- `if changes:` looks at these
unfoldable pub changes_of : Item → Target → Option (List Text) → Option (List Text) → Changes
changes_of i t aliases tags = record {
  name = changed (text_eq t.name i.name) i.name t.name;
  description = changed (text_option_eq t.description i.description) i.description t.description;
  state = changed (state_same t.state i.state) i.state t.state;
  current_location_id =
      if becomes_terminal i t && is_some i.current_location_id
      then some (record { from = i.current_location_id; to = none })
      else none;
  category_id = changed (option_eq t.category_id i.category_id) i.category_id t.category_id;
  attributes = changed (text_eq t.attributes i.attributes) i.attributes t.attributes;
  aliases = aliases;
  tags = tags;
}

unfoldable pub any_change : Changes → Bool
any_change c =
    is_some c.name
    || is_some c.description
    || is_some c.state
    || is_some c.category_id
    || is_some c.attributes
    || is_some c.aliases
    || is_some c.tags

-- the assignments of `update_item`; a new name that equals the old one leaves the comparison key
unfoldable pub apply_target : Item → Target → Item
apply_target i t = record i {
  name = t.name;
  normalized_name = if text_eq t.name i.name then i.normalized_name else t.normalized_name;
  description = t.description;
  state = t.state;
  current_location_id = if becomes_terminal i t then none else i.current_location_id;
  location_status =
      if becomes_terminal i t then LocationStatus.not_applicable else i.location_status;
  category_id = t.category_id;
  attributes = t.attributes;
}
