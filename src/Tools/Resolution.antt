-- ===== src/Tools/Resolution.antt =====
-- agent/write_resolution.py: WriteResolver, which finds the one entity that a query names.
use ah_there_it_is.Base.{
  ℕ, zero, suc, ◌-◌, Bool, true, false, ◌&&◌, ◌||◌, not, Option, none, some, List, [], ◌∷◌, ◌++◌,
  map, any, select, contains, find, length, drop, leb, ◌==◌, if◌then◌else◌,
}
use ah_there_it_is.Text.{Text, codes, text_eq, is_blank}
use ah_there_it_is.Domain.States.{Result, ok, err}
use ah_there_it_is.Db.{Db, Node, Item, Alias, node_id, item_id}
use ah_there_it_is.Session.{Names, comparison_key, location_key}
use ah_there_it_is.Inventory.Checks.{enough_fuel}

-- the `entity_type`s of the agent
pub data Kind : Type 0 where
  item media location category tag : Kind

-- `parse_location_phrase(value).path_key`, if it parses; it may raise
abbrev pub PathKey : Type 0
PathKey = Text → Result (Option Text)

-- the `evidence` literals
pub data IdentityEvidence : Type 0 where
  canonical_name canonical_alias canonical_relational_path canonical_full_path : IdentityEvidence

-- the dictionary that is returned: `status`, `entity_id`, `evidence`
pub data Resolution : Type 0 where
  no_exact_identity ambiguous : Resolution
  resolved : ℕ → IdentityEvidence → Resolution

-- `" / ".join(parts)`
unfoldable pub join_path : List Text → Text
join_path [] = []
join_path (p ∷ []) = p
join_path (p ∷ q ∷ ps) = p ++ codes " / " ++ join_path (q ∷ ps)

-- `s.endswith(t)`
unfoldable pub ends_with : Text → Text → Bool
ends_with s t = leb (length t) (length s) && text_eq (drop (length s - length t) s) t

-- `s.split("/")`; 47 is the code of the slash
abbrev pub slash : ℕ
slash = 47

abbrev pub put_first : ℕ → List Text → List Text
put_first c [] = (c ∷ []) ∷ []
put_first c (p ∷ ps) = (c ∷ p) ∷ ps

unfoldable pub split_slash : Text → List Text
split_slash [] = [] ∷ []
split_slash (c ∷ s) = let rest = split_slash s in if c == slash then [] ∷ rest else put_first c rest

-- `_path`, on fuel: `none` is to be out of it; the parts are the outermost first
unfoldable pub path_from : Names → ℕ → List Node → List ℕ → List Text → ℕ → Option Text
path_from names zero ns seen parts k = none
path_from names (suc fuel) ns seen parts k = elim (find node_id k ns) [
  | none ↦ some []
  | some n ↦ elim (contains seen k) [
    | true ↦ some []
    | false ↦ elim n.parent_id [
      | none ↦ some (join_path (names.normalize_name n.normalized_name ∷ parts))
      | some p ↦
          path_from names fuel ns (k ∷ seen) (names.normalize_name n.normalized_name ∷ parts) p
    ]
  ]
]

unfoldable pub node_path : Names → List Node → Node → Text
node_path names ns n = elim (path_from names (enough_fuel ns) ns [] [] n.id) [
  | none ↦ []
  | some path ↦ path
]

-- the row has this name, or an alias of this name
unfoldable pub named : Text → Item → Bool
named identity i = text_eq i.normalized_name identity

unfoldable pub aliased : Text → Item → Bool
aliased identity i = any (λ (a : Alias). text_eq a.normalized_name identity) i.aliases

abbrev pub names_item : Text → Item → Bool
names_item identity i = named identity i || aliased identity i

unfoldable pub names_node : Text → Node → Bool
names_node identity n = text_eq n.normalized_name identity

-- the location is the end of the path
unfoldable pub ends_path : Names → List Node → Text → Node → Bool
ends_path names ns path n =
    text_eq (node_path names ns n) path || ends_with (node_path names ns n) (codes " / " ++ path)

abbrev pub all_nonblank : List Text → Bool
all_nonblank parts = not (any is_blank parts)

-- the path that a query with a slash writes out, or the empty text
unfoldable pub written_path : Names → Text → Text
written_path names query =
    let parts = map (comparison_key names) (split_slash query) in
    if all_nonblank parts then join_path parts else []

-- the node has this path or this name
unfoldable pub fits_path : Names → List Node → Text → Text → Node → Bool
fits_path names ns path identity n =
    (not (is_blank path) && text_eq (node_path names ns n) path) || names_node identity n

-- the one row of those that fit
unfoldable pub decide : {A : Type 0} → (A → ℕ) → (A → IdentityEvidence) → List A → Resolution
decide key evidence [] = no_exact_identity
decide key evidence (a ∷ []) = resolved (key a) (evidence a)
decide key evidence (a ∷ b ∷ rows) = ambiguous

abbrev pub item_kind : Text → Item → IdentityEvidence
item_kind identity i = if named identity i then canonical_name else canonical_alias

unfoldable pub resolve_item : Text → Db → Resolution
resolve_item identity d = decide item_id (item_kind identity) (select (names_item identity) d.items)

-- the rows of a tree that a query without a location phrase names
unfoldable pub resolve_plain : Names → Text → Text → List Node → Resolution
resolve_plain names query identity ns =
    if contains identity slash
    then decide node_id (λ _. canonical_full_path)
        (select (fits_path names ns (written_path names query) identity) ns)
    else decide node_id (λ _. canonical_name) (select (names_node identity) ns)

unfoldable pub resolve_phrase : Names → Text → Text → List Node → Option Text → Resolution
resolve_phrase names query identity ns none = resolve_plain names query identity ns
resolve_phrase names query identity ns (some path) =
    decide node_id (λ _. canonical_relational_path) (select (ends_path names ns path) ns)

-- `canonical.comparison_key`
abbrev pub identity_of : Names → Kind → Text → Text
identity_of names Kind.location query = location_key names query
identity_of names _ query = comparison_key names query

abbrev pub resolve_identity : Names → PathKey → Kind → Text → Text → Db → Result Resolution
resolve_identity names path_key Kind.item query identity d = ok (resolve_item identity d)
resolve_identity names path_key Kind.category query identity d =
    ok (resolve_plain names query identity d.categories)
resolve_identity names path_key Kind.location query identity d = elim (path_key query) [
  | err e ↦ err e
  | ok phrase ↦ ok (resolve_phrase names query identity d.locations phrase)
]
resolve_identity names path_key _ query identity d = ok no_exact_identity

-- `resolve_with_evidence`
unfoldable pub resolve_with_evidence : Names → PathKey → Kind → Text → Db → Result Resolution
resolve_with_evidence names path_key kind query d =
    let identity = identity_of names kind query in
    if is_blank identity
    then ok no_exact_identity
    else resolve_identity names path_key kind query identity d

abbrev pub entity_id : Resolution → Option ℕ
entity_id (resolved k e) = some k
entity_id _ = none

-- `resolve`
unfoldable pub resolve : Names → PathKey → Kind → Text → Db → Result (Option ℕ)
resolve names path_key kind query d = elim (resolve_with_evidence names path_key kind query d) [
  | err e ↦ err e
  | ok r ↦ ok (entity_id r)
]
