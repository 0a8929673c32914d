-- ===== src/Tools/Unique.antt =====
-- agent/write_resolution.py: a query resolves to the only row that it names, and the path loop ends.
use ah_there_it_is.Base.{
  ℕ, zero, suc, ◌≡◌, ◌≢◌, ◌<◌, refl, ap, ◌∙◌, subst, inl, inr, Bool, true, Option, none, some, List,
  [], ◌∷◌, select, find-select, contains, find, ◌==◌, arith, Bool-cases, Option-cases,
  if◌then◌else◌,
}
use ah_there_it_is.Text.{Text, is_blank}
use ah_there_it_is.Domain.States.{ok, Result-cases}
use ah_there_it_is.Db.{Db, Node, node_id, item_id}
use ah_there_it_is.Session.{Names}
use ah_there_it_is.Inventory.Forest.{unseen, unseen-lt}
use ah_there_it_is.Tools.Resolution.{
  Kind, PathKey, Resolution, IdentityEvidence, path_from, names_item, decide, resolve_item,
  resolve_plain, resolve_phrase, resolve_with_evidence, resolve, entity_id, identity_of,
  resolve_identity, item_kind, ends_path, fits_path, written_path, names_node, slash,
  canonical_name, canonical_full_path, canonical_relational_path,
}

-- With a round for each row not yet visited, the loop of `_path` never runs out of rounds.
pub path_from_ends :
    (names : Names) (fuel : ℕ) (ns : List Node) (seen : List ℕ) (parts : List Text) (k : ℕ)
    → unseen seen ns < fuel
    → path_from names fuel ns seen parts k ≢ none
unfolding path_from
path_from_ends names zero ns seen parts k h = absurd (omega arith)
path_from_ends names (suc fuel) ns seen parts k h = elim (Option-cases (find node_id k ns)) [
  | inl e ↦ rw (e, path_from) (λ x. cc)
  | inr (n, e) ↦ elim (Bool-cases (contains seen k)) [
    | inl y ↦ rw (e, path_from) (rw (y, path_from) (λ x. cc))
    | inr z ↦ elim (Option-cases n.parent_id) [
      | inl p ↦ rw (e, path_from) (rw (z, path_from) (rw (p, path_from) (λ x. cc)))
      | inr (q, p) ↦
          rw (e, path_from)
            (rw (z, path_from)
              (rw (p, path_from)
                (path_from_ends names fuel ns (k ∷ seen)
                  (names.normalize_name n.normalized_name ∷ parts) q
                  (omega (arith, unseen-lt k seen n ns e z)))))
    ]
  ]
]

module _ {A : Type 0} (key : A → ℕ) where
  -- exactly one row passes the test, and its key is `k`
  abbrev pub IsOnly : (A → Bool) → List A → ℕ → Type 0
  IsOnly test rows k =
      ((a : A) × (select test rows ≡ a ∷ []) × (key a ≡ k))
      × ((j : ℕ) (b : A) → find key j rows ≡ some b → test b ≡ true → j ≡ k)

  only_selected :
      (test : A → Bool) (a : A) (rows : List A)
      → select test rows ≡ a ∷ []
      → (j : ℕ) (b : A) → find key j rows ≡ some b
      → test b ≡ true
      → j ≡ key a
  unfolding find
  only_selected test a [] e j b f t = absurd (cc)
  only_selected test a (x ∷ xs) e j b f t = elim (Bool-cases (test x)) [
    | inl y ↦
        let whole : x ∷ select test xs ≡ a ∷ [] = rw y at e in
        let first : x ≡ a = cc in
        let rest : select test xs ≡ [] = cc in
        elim (Bool-cases (key x == j)) [
          | inl here ↦ subst (λ z. j ≡ key z) first (ground arith)
          | inr there ↦ absurd (find-select key test j b xs (ground arith) t rest)
        ]
    | inr n ↦
        let whole : select test xs ≡ a ∷ [] = rw n at e in
        elim (Bool-cases (key x == j)) [
          | inl here ↦ let same : x ≡ b = ground arith in absurd (cc)
          | inr there ↦ only_selected test a xs whole j b (ground arith) t
        ]
  ]

  decide-IsOnly :
      (test : A → Bool) (evidence : A → IdentityEvidence) (rows : List A) (k : ℕ)
      → entity_id (decide key evidence (select test rows)) ≡ some k
      → IsOnly test rows k
  unfolding decide
  decide-IsOnly test evidence rows k e = go (select test rows) refl e
    where
      go :
          (chosen : List A)
          → select test rows ≡ chosen
          → entity_id (decide key evidence chosen) ≡ some k
          → IsOnly test rows k
      go [] s e = absurd (cc)
      go (a ∷ []) s e =
          let same : key a ≡ k = cc in
          ((a, s, same), λ j b f t. only_selected test a rows s j b f t ∙ same)
      go (a ∷ b ∷ rest) s e = absurd (cc)

-- the test that a query puts to the rows of a tree
unfoldable pub fits : Names → Text → Text → List Node → Option Text → Node → Bool
fits names query identity ns (some path) = ends_path names ns path
fits names query identity ns none =
    if contains identity slash
    then fits_path names ns (written_path names query) identity
    else names_node identity

resolve_phrase-IsOnly :
    (names : Names) (query identity : Text) (ns : List Node) (phrase : Option Text) (k : ℕ)
    → entity_id (resolve_phrase names query identity ns phrase) ≡ some k
    → IsOnly node_id (fits names query identity ns phrase) ns k
unfolding resolve_phrase resolve_plain fits
resolve_phrase-IsOnly names query identity ns (some path) k e =
    decide-IsOnly node_id (ends_path names ns path) (λ _. canonical_relational_path) ns k e
resolve_phrase-IsOnly names query identity ns none k e =
    elim (Bool-cases (contains identity slash)) [
      | inl y ↦ rw y (
          decide-IsOnly node_id (fits_path names ns (written_path names query) identity)
            (λ _. canonical_full_path) ns k (rw y at e))
      | inr n ↦
          rw n (decide-IsOnly node_id (names_node identity) (λ _. canonical_name) ns k (rw n at e))
    ]

-- the only row of its kind that a query names
abbrev pub IsTheMatch : Names → PathKey → Kind → Text → Db → ℕ → Type 0
IsTheMatch names path_key Kind.item query d k =
    IsOnly item_id (names_item (identity_of names Kind.item query)) d.items k
IsTheMatch names path_key Kind.category query d k =
    IsOnly node_id (fits names query (identity_of names Kind.category query) d.categories none)
      d.categories k
IsTheMatch names path_key Kind.location query d k =
    (phrase : Option Text) × (path_key query ≡ ok phrase)
    × IsOnly node_id (fits names query (identity_of names Kind.location query) d.locations phrase)
        d.locations k
IsTheMatch names path_key _ query d k = ⊥

match_of :
    (names : Names) (path_key : PathKey) (kind : Kind) (query : Text) (d : Db) (k : ℕ)
    (r : Resolution)
    → resolve_identity names path_key kind query (identity_of names kind query) d ≡ ok r
    → entity_id r ≡ some k
    → IsTheMatch names path_key kind query d k
unfolding resolve_item resolve_phrase
match_of names path_key Kind.item query d k r e f =
    let same : resolve_item (identity_of names Kind.item query) d ≡ r = cc in
    decide-IsOnly item_id (names_item (identity_of names Kind.item query))
      (item_kind (identity_of names Kind.item query)) d.items k (ap entity_id same ∙ f)
match_of names path_key Kind.category query d k r e f =
    let same : resolve_plain names query (identity_of names Kind.category query) d.categories ≡ r =
      cc in
    resolve_phrase-IsOnly names query (identity_of names Kind.category query) d.categories none k
      (ap entity_id same ∙ f)
match_of names path_key Kind.location query d k r e f = elim (Result-cases (path_key query)) [
  | inr (x, p) ↦ absurd ((let g = rw (p, resolve_identity) at e in cc))
  | inl (phrase, p) ↦
      let whole = rw (p, resolve_identity) at e in
      let same : resolve_phrase names query (identity_of names Kind.location query) d.locations
            phrase
          ≡ r =
        cc in
      (
        phrase,
        p,
        resolve_phrase-IsOnly names query (identity_of names Kind.location query) d.locations phrase
            k (ap entity_id same ∙ f),
      )
]
match_of names path_key Kind.media query d k r e f = absurd (cc)
match_of names path_key Kind.tag query d k r e f = absurd (cc)

-- When a query resolves to a key, exactly one stored row of the kind fits the query (an item by its
-- name or an alias, a node by its name or the path that is written or spoken), and it has this key.
pub resolve-IsTheMatch :
    (names : Names) (path_key : PathKey) (kind : Kind) (query : Text) (d : Db) (k : ℕ)
    → resolve names path_key kind query d ≡ ok (some k)
    → IsTheMatch names path_key kind query d k
unfolding resolve resolve_with_evidence
resolve-IsTheMatch names path_key kind query d k e =
    elim (Bool-cases (is_blank (identity_of names kind query))) [
      | inl y ↦ absurd ((let f = rw (y, resolve) at e in cc))
      | inr n ↦
          elim (Result-cases
            (resolve_identity names path_key kind query (identity_of names kind query) d)) [
              | inr (x, p) ↦ absurd ((let f = rw (p, resolve) at (rw (n, resolve) at e) in cc))
              | inl (r, p) ↦
                  match_of names path_key kind query d k r p
                    ((let f = rw (p, resolve) at (rw (n, resolve) at e) in cc))
            ]
    ]
