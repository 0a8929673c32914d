-- ===== src/Inventory/Checks.antt =====
-- services/inventory.py: the lookups, the validations and the history evidence that the
-- operations share.
use ah_there_it_is.Base.{
  ℕ, zero, suc, Bool, true, ◌&&◌, ◌||◌, not, Option, none, some, List, [], ◌∷◌, find, any, contains,
  length, ltb, leb, ◌==◌, option_eq, if◌then◌else◌,
}
use ah_there_it_is.Text.{Text, text_eq, is_blank, strip}
use ah_there_it_is.Domain.States.{ItemState, Error, Result, ok, err, parse_state, state_eq_removed}
use ah_there_it_is.Domain.Quantity.{ℤ, pos, max_sqlite_integer}
use ah_there_it_is.Db.{
  Db, Node, Item, Media, Model, nodes, node_id, item_id, media_id, PathPart, HistoryPath,
}
use ah_there_it_is.Session.{M, Names, raise_if}

-- `_get_required`, by what the query returned
abbrev pub required : {A : Type 0} → Option A → Result A
required none = err Error.entity_not_found
required (some a) = ok a

-- `get_item`
abbrev pub get_item : ℕ → Db → Result Item
get_item k d = required (find item_id k d.items)

-- `_get_required(ItemMedia, …)`
abbrev pub get_media : ℕ → Db → Result Media
get_media k d = required (find media_id k d.media)

-- `get_category`, `get_location`
abbrev pub get_node : Model → ℕ → Db → Result Node
get_node m k d = required (find node_id k (nodes m d))

-- `_get_optional`
unfoldable pub get_optional : Model → Option ℕ → Db → Result (Option Node)
get_optional m none d = ok none
get_optional m (some k) d = elim (find node_id k (nodes m d)) [
  | none ↦ err Error.entity_not_found
  | some n ↦ ok (some n)
]

abbrev pub optional_id : Option Node → Option ℕ
optional_id none = none
optional_id (some n) = some n.id

-- `_normalized_nonblank`
unfoldable pub normalized_nonblank : Names → Text → Result Text
normalized_nonblank names name =
    let normalized = names.normalize_name name in
    if is_blank normalized then err Error.blank_name else ok normalized

-- `_coerce_state`
unfoldable pub coerce_state : Text → Result ItemState
coerce_state s = elim (parse_state s) [ none ↦ err Error.bad_state | some v ↦ ok v ]

-- `Model.id != exclude`, with no condition where nothing is excluded
abbrev pub not_excluded : Option ℕ → ℕ → Bool
not_excluded none k = true
not_excluded (some x) k = not (k == x)

-- the query of `_ensure_tree_name_available`
abbrev pub takes_tree_name : Text → Option ℕ → Option ℕ → Node → Bool
takes_tree_name normalized parent exclude n =
    text_eq n.normalized_name normalized
    && option_eq n.parent_id parent
    && not_excluded exclude n.id

-- `_ensure_tree_name_available`
unfoldable pub ensure_tree_name : Model → Text → Option ℕ → Option ℕ → Db → Result (Unit {0})
ensure_tree_name m normalized parent exclude d =
    if any (takes_tree_name normalized parent exclude) (nodes m d)
    then err Error.duplicate_entity
    else ok tt

-- the query of `_ensure_item_name_available`
abbrev pub takes_item_name : Text → Option ℕ → Option ℕ → Item → Bool
takes_item_name normalized category exclude i =
    text_eq i.normalized_name normalized
    && option_eq i.category_id category
    && not_excluded exclude i.id

-- `_ensure_item_name_available`
unfoldable pub ensure_item_name : Text → Option ℕ → Option ℕ → Db → Result (Unit {0})
ensure_item_name normalized category exclude d =
    if any (takes_item_name normalized category exclude) d.items
    then err Error.duplicate_entity
    else ok tt

-- `_ensure_nonterminal`
unfoldable pub ensure_nonterminal : Item → M (Unit {0})
unfolding raise_if
ensure_nonterminal i = raise_if (state_eq_removed i.state) Error.is_removed

-- `current.parent`
abbrev pub parent_of : List Node → Node → Option Node
parent_of ns n = elim n.parent_id [ none ↦ none | some k ↦ find node_id k ns ]

-- the loop of `_history_path`; the list is built outermost first
unfoldable pub walk_up :
    ℕ → List Node → List ℕ → List PathPart → Option Node → Result (List PathPart)
walk_up zero ns seen parts current = err Error.out_of_fuel
walk_up (suc fuel) ns seen parts none = ok parts
walk_up (suc fuel) ns seen parts (some n) =
    let rest = walk_up fuel ns (n.id ∷ seen) ((n.id, n.name) ∷ parts) (parent_of ns n) in
    if contains seen n.id then err Error.cycle else rest

-- each round sees one more row of the table, so this many rounds are enough
abbrev pub enough_fuel : List Node → ℕ
enough_fuel ns = suc (length ns)

-- `_history_path`
unfoldable pub history_path : Model → Option Node → Db → Result HistoryPath
history_path m none d = ok none
history_path m (some n) d = elim (walk_up (enough_fuel (nodes m d)) (nodes m d) [] [] (some n)) [
  | ok parts ↦ ok (some parts)
  | err e ↦ err e
]

-- `_get_optional(model, ancestor.parent_id)`
unfoldable pub next_ancestor : List Node → Node → Result (Option Node)
next_ancestor ns a = elim a.parent_id [
  | none ↦ ok none
  | some k ↦ elim (find node_id k ns) [ none ↦ err Error.entity_not_found | some p ↦ ok (some p) ]
]

-- the ancestor loop of `_update_tree_node`
unfoldable pub check_ancestors : ℕ → List Node → ℕ → List ℕ → Option Node → Result (Unit {0})
check_ancestors zero ns self seen ancestor = err Error.out_of_fuel
check_ancestors (suc fuel) ns self seen none = ok tt
check_ancestors (suc fuel) ns self seen (some a) =
    let up = λ (p : Option Node). check_ancestors fuel ns self (a.id ∷ seen) p in
    if a.id == self || contains seen a.id
    then err Error.cycle
    else elim (next_ancestor ns a) [ ok p ↦ up p | err e ↦ err e ]

-- `_validated_media_text`
unfoldable pub validated_media_text : Text → ℕ → Result Text
validated_media_text value max_length =
    let normalized = strip value in
    if is_blank normalized
    then err Error.blank_media
    else if ltb max_length (length normalized)
    then err Error.long_media
    else ok normalized

-- `_validated_media_position`
unfoldable pub validated_media_position : ℤ → Result ℕ
validated_media_position (pos n) = if leb n max_sqlite_integer then ok n else err Error.bad_position
validated_media_position _ = err Error.bad_position

-- `_validated_media_caption`
unfoldable pub validated_media_caption : Option Text → Result (Option Text)
validated_media_caption none = ok none
validated_media_caption (some s) =
    if ltb 20000 (length s) then err Error.long_caption else ok (some s)
