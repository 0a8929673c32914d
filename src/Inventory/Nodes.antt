-- ===== src/Inventory/Nodes.antt =====
-- services/inventory.py: creating and changing categories and locations.
use ah_there_it_is.Base.{
  ℕ, Bool, ◌&&◌, ◌||◌, not, Option, none, some, [], ◌∷◌, ◌++◌, map, option_eq, if◌then◌else◌,
  replace,
}
use ah_there_it_is.Text.{Text, text_eq, text_option_eq}
use ah_there_it_is.Domain.States.{Error, Result, ok}
use ah_there_it_is.Db.{Db, Node, Model, nodes, set_nodes, node_id}
use ah_there_it_is.Session.{
  M, Service, Names, ◌>>=◌, ◌>>◌, pure, query, lift, raise_if, modify, commit,
}
use ah_there_it_is.Inventory.Checks.{
  get_node, get_optional, optional_id, normalized_nonblank, ensure_tree_name, check_ancestors,
  enough_fuel,
}

-- `canonicalize_location_name` for a location, `canonicalize_name` for a category
abbrev pub display_for : Model → Names → Text → Text
display_for Model.category names = names.display_name
display_for Model.location names = names.location_display_name

-- Only the name of a location may be a relational phrase
unfoldable pub refuse_phrase : Model → Names → Text → M (Unit {0})
refuse_phrase Model.category names name = pure tt
refuse_phrase Model.location names name = do
  relational ← lift (names.location_phrase name)
  raise_if relational Error.relational_phrase

abbrev pub add_node : Model → Node → Db → Db
add_node m n d = set_nodes m (nodes m d ++ n ∷ []) d

abbrev pub save_node : Model → Node → Db → Db
save_node m n d = set_nodes m (replace node_id n (nodes m d)) d

-- `create_category` and `create_location`; the key is the one that the database assigns
unfoldable pub create_node : Service → Model → Text → Option ℕ → Option Text → M Node
create_node self m name parent_id description = do
  refuse_phrase m self.names name
  let display = display_for m self.names name
  normalized ← lift (normalized_nonblank self.names display)
  parent ← query (get_optional m parent_id)
  query (ensure_tree_name m normalized parent_id none)
  keys ← query (λ d. ok (map node_id (nodes m d)))
  let node : Node = record {
    id = self.fresh keys;
    parent_id = optional_id parent;
    name = display;
    normalized_name = normalized;
    description = description;
  }
  modify (add_node m node)
  commit self
  pure node

-- the arguments of `update_category` and `update_location`; an outer `none` is `_UNSET`
pub record NodePatch : Type 0 where
  pub name : Option Text
  pub description : Option (Option Text)
  pub parent_id : Option (Option ℕ)

abbrev pub patched {ℓ} : {A : Type ℓ} → Option A → A → A
patched none a = a
patched (some b) _ = b

-- the target name, and its comparison key
unfoldable pub target_names : Service → Model → Node → Option Text → M (Text × Text)
target_names self m node none = pure (node.name, node.normalized_name)
target_names self m node (some name) = do
  let target = display_for m self.names name
  refuse_phrase m self.names name
  normalized ← lift (normalized_nonblank self.names (display_for m self.names target))
  pure (target, normalized)

abbrev pub node_unchanged : Node → Node → Bool
node_unchanged a b =
    text_eq a.name b.name
    && text_option_eq a.description b.description
    && option_eq a.parent_id b.parent_id

abbrev pub renamed : Node → Node → Bool
renamed node target =
    not (text_eq target.normalized_name node.normalized_name)
    || not (option_eq target.parent_id node.parent_id)

-- the name check is made only if the name or the parent changes
abbrev pub check_node_name : Model → Node → Node → Db → Result (Unit {0})
check_node_name m node target d =
    if renamed node target
    then ensure_tree_name m target.normalized_name target.parent_id (some node.id) d
    else ok tt

unfoldable pub write_node : Service → Model → Node → Node → M Node
write_node self m node target =
    if node_unchanged target node
    then pure node
    else do modify (save_node m target); commit self; pure target

-- `_update_tree_node`
unfoldable pub update_tree_node : Service → Model → Node → NodePatch → M Node
update_tree_node self m node patch = do
  (name, normalized) ← target_names self m node patch.name
  let target : Node = record node {
    name = name;
    normalized_name = normalized;
    description = patched patch.description node.description;
    parent_id = patched patch.parent_id node.parent_id;
  }
  parent ← query (get_optional m target.parent_id)
  query (λ d. check_ancestors (enough_fuel (nodes m d)) (nodes m d) node.id [] parent)
  query (check_node_name m node target)
  write_node self m node target

-- `update_category` and `update_location`
unfoldable pub update_node : Service → Model → ℕ → NodePatch → M Node
update_node self m k patch = do node ← query (get_node m k); update_tree_node self m node patch
