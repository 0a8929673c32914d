-- ===== src/Inventory/Paths.antt =====
-- services/inventory.py: create_location_path, which finds or creates a chain of locations.
use ah_there_it_is.Base.{
  ℕ, Bool, true, false, ◌&&◌, ◌||◌, Option, none, some, List, [], ◌∷◌, ◌++◌, map, any, select,
  option_eq,
}
use ah_there_it_is.Text.{Text, text_eq, is_blank}
use ah_there_it_is.Domain.States.{Error, Result, ok, err}
use ah_there_it_is.Db.{Db, Node, Model, node_id, set_nodes}
use ah_there_it_is.Session.{
  M, Service, Names, location_key, ◌>>=◌, ◌>>◌, pure, query, lift, raise_if, modify, flush, commit,
  guarded,
}
use ah_there_it_is.Inventory.Checks.{get_optional, optional_id, ensure_tree_name}

-- `CreatedLocationPath`
pub record CreatedLocationPath : Type 0 where
  pub location : Node
  pub path_ids : List ℕ
  pub created_ids : List ℕ

-- `CanonicalName`: the display name and the comparison key
abbrev pub CanonicalName : Type 0
CanonicalName = Text × Text

abbrev pub canonical : Names → Text → CanonicalName
canonical names value = (names.location_display_name value, location_key names value)

-- `any(parse_location_phrase(name) is not None for name in names)`, which may raise
unfoldable pub any_phrase : Names → List Text → Result Bool
any_phrase names [] = ok false
any_phrase names (v ∷ vs) = elim (names.location_phrase v) [
  | err e ↦ err e
  | ok true ↦ ok true
  | ok false ↦ any_phrase names vs
]

abbrev pub blank_name : CanonicalName → Bool
blank_name c = is_blank c.0

abbrev pub same_key : Text → CanonicalName → Bool
same_key key c = text_eq c.1 key

-- `len(set(keys)) != len(keys)`
unfoldable pub repeats : List CanonicalName → Bool
repeats [] = false
repeats (c ∷ cs) = any (same_key c.1) cs || repeats cs

abbrev pub has_name : Text → Node → Bool
has_name key n = text_eq n.normalized_name key

abbrev pub has_place : Text → ℕ → Node → Bool
has_place key parent n = text_eq n.normalized_name key && option_eq n.parent_id (some parent)

-- no match, the only one, or an error if there are more
unfoldable pub only_match : List Node → Result (Option Node)
only_match [] = ok none
only_match (n ∷ []) = ok (some n)
only_match (n ∷ m ∷ ns) = err Error.ambiguous_path

-- the node that is reused for a name under the current node, if there is one
unfoldable pub reused : Bool → Db → Option Node → CanonicalName → Result (Option Node)
reused reuse_unique_outer d (some parent) c =
    only_match (select (has_place c.1 parent.id) d.locations)
reused true d none c = only_match (select (has_name c.1) d.locations)
reused false d none c = elim (ensure_tree_name Model.location c.1 none none d) [
  | ok _ ↦ ok none
  | err e ↦ err e
]

-- the current node after the names that exist, the nodes of these, and the names that are left
abbrev pub Plan : Type 0
Plan = Option Node × List Node × List CanonicalName

unfoldable pub plan : Bool → Db → Option Node → List CanonicalName → Result Plan
plan reuse_unique_outer d current [] = ok (current, [], [])
plan reuse_unique_outer d current (c ∷ cs) = elim (reused reuse_unique_outer d current c) [
  | err e ↦ err e
  | ok none ↦ ok (current, [], c ∷ cs)
  | ok (some n) ↦ elim (plan reuse_unique_outer d (some n) cs) [
    | err e ↦ err e
    | ok (last, path, rest) ↦ ok (last, n ∷ path, rest)
  ]
]

abbrev pub described : Option Text → List CanonicalName → Option Text
described description [] = description
described description (_ ∷ _) = none

-- the new nodes, each under the one before it; the keys are those that the database assigns
unfoldable pub new_nodes :
    (List ℕ → ℕ) → Option Text → Option ℕ → List CanonicalName → List Node → List Node
new_nodes fresh description parent [] ns = []
new_nodes fresh description parent (c ∷ cs) ns =
    let n : Node = record {
      id = fresh (map node_id ns);
      parent_id = parent;
      name = c.0;
      normalized_name = c.1;
      description = described description cs;
    } in
    n ∷ new_nodes fresh description (some n.id) cs (ns ++ n ∷ [])

abbrev pub add_all : List Node → List Node → List Node
add_all [] ns = ns
add_all (n ∷ rest) ns = add_all rest (ns ++ n ∷ [])

abbrev pub last_node : Node → List Node → Node
last_node n [] = n
last_node n (m ∷ ms) = last_node m ms

abbrev pub no_names : List Text → Bool
no_names [] = true
no_names (_ ∷ _) = false

-- the path, once the new nodes are stored
abbrev pub written : List Node → List Node → M CreatedLocationPath
written [] path = lift (err Error.assertion)
written (n ∷ ns) path = pure (record {
  location = last_node n ns;
  path_ids = map node_id path ++ map node_id (n ∷ ns);
  created_ids = map node_id (n ∷ ns);
})

-- the end: nothing was created, or the new nodes are written
unfoldable pub write_path : Service → Option Text → Plan → M CreatedLocationPath
write_path self description (none, path, []) = lift (err Error.assertion)
write_path self description (some n, path, []) =
    pure (record { location = n; path_ids = map node_id path; created_ids = [] })
write_path self description (current, path, c ∷ cs) = do
  nodes ←
      query (λ d. ok (new_nodes self.fresh description (optional_id current) (c ∷ cs) d.locations))
  guarded self (do
    modify (λ d. set_nodes Model.location (add_all nodes d.locations) d)
    flush self
    commit self
    written nodes path)

-- `create_location_path`
unfoldable pub create_location_path :
    Service → List Text → Option ℕ → Bool → Option Text → M CreatedLocationPath
create_location_path self values parent_id reuse_unique_outer description = do
  raise_if (no_names values) Error.empty_path
  relational ← lift (any_phrase self.names values)
  raise_if relational Error.relational_phrase
  let names = map (canonical self.names) values
  raise_if (any blank_name names) Error.blank_name
  raise_if (repeats names) Error.repeated_path
  current ← query (get_optional Model.location parent_id)
  p ← query (λ d. plan reuse_unique_outer d current names)
  write_path self description p
