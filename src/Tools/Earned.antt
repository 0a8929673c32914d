-- ===== src/Tools/Earned.antt =====
-- agent/tools.py: every capability has a query or a creation behind it.
use ah_there_it_is.Base.{
  ℕ, ◌≡◌, refl, sym, ◌∙◌, Bool, true, false, ◌||◌, Option, none, some, List, [], ◌∷◌, ◌++◌,
  contains, arith, Bool-cases, inl, inr, ◌==◌,
}
use ah_there_it_is.Text.{Text, is_blank}
use ah_there_it_is.Inventory.Requests.{Reply}
use ah_there_it_is.Tools.Resolution.{Kind, Resolution, resolved, ambiguous, no_exact_identity}
use ah_there_it_is.Tools.Capabilities.{
  ToolRunState, kind_eq, extend, remember_created, remember_search, grant, remember_candidates,
}
use ah_there_it_is.Tools.NewPaths.{ToolReply, served, located}
use ah_there_it_is.Tools.Operations.{
  Write, creates, remember_new, remember_node, remember_path, remember_reply,
}
use ah_there_it_is.Tools.Writes.{queries_of, has_query}

contains-append :
    (xs ys : List ℕ) (k : ℕ) → contains (xs ++ ys) k ≡ (contains xs k || contains ys k)
contains-append [] ys k = refl
contains-append (x ∷ xs) ys k = ground (arith, contains-append xs ys k)

has_query-append :
    (k : ℕ) (es fs : List (ℕ × Text))
    → has_query (queries_of k (es ++ fs))
      ≡ (has_query (queries_of k es) || has_query (queries_of k fs))
unfolding queries_of
has_query-append k [] fs = refl
has_query-append k ((j, q) ∷ es) fs = elim (Bool-cases (j == k)) [
  | inl y ↦ rw y refl
  | inr n ↦ rw n (has_query-append k es fs)
]

-- an entity is resolved only with a query or by its creation
abbrev pub has_support : ToolRunState → Kind → ℕ → Bool
has_support r kind k = contains (r.created kind) k || has_query (queries_of k (r.evidence kind))

abbrev pub IsEarned : ToolRunState → Type 0
IsEarned r =
    (kind : Kind) (k : ℕ) → contains (r.resolved kind) k ≡ true → has_support r kind k ≡ true

or_true : (a b : Bool) → (a || (b || true)) ≡ true
or_true true b = refl
or_true false true = refl
or_true false false = refl

or_false : (a b : Bool) → (a || b) ≡ true → (a || (b || false)) ≡ true
or_false true b h = refl
or_false false true h = refl
or_false false false h = h

grown :
    (resolved created same query : Bool) {now : Bool}
    → (resolved ≡ true → (created || query) ≡ true)
    → (resolved || (same || false)) ≡ true
    → now ≡ (created || (same || false))
    → (now || query) ≡ true
grown r true same q h f e = rw e refl
grown r false true q h f e = rw e refl
grown true false false q h f e = rw e (h refl)
grown false false false q h f e = absurd (cc)

grown-IsEarned :
    (r : ToolRunState) (other : Kind) (k j : ℕ) (query : Text)
    → (contains (r.resolved other) j ≡ true → has_support r other j ≡ true)
    → contains (r.resolved other ++ k ∷ []) j ≡ true
    → (contains (r.created other) j
        || has_query (queries_of j (r.evidence other ++ (k, query) ∷ [])))
      ≡ true
unfolding queries_of
grown-IsEarned r other k j query h f =
    let a = contains-append (r.resolved other) (k ∷ []) j in
    let b = has_query-append j (r.evidence other) ((k, query) ∷ []) in
    elim (Bool-cases (k == j)) [
      | inl y ↦
          (let b' = rw y at b in
            rw b (
              rw y (
                or_true (contains (r.created other) j)
                  (has_query (queries_of j (r.evidence other))))))
      | inr n ↦
          let there : contains (r.resolved other) j ≡ true = ground arith in
          let old = h there in
          rw b (
            rw n (
              or_false (contains (r.created other) j) (has_query (queries_of j (r.evidence other)))
                old))
    ]

grant-IsEarned :
    (r : ToolRunState) (kind : Kind) (k : ℕ) (query : Text)
    → IsEarned r
    → IsEarned (grant kind k query r)
unfolding extend
grant-IsEarned r kind k query h other j e = elim (Bool-cases (kind_eq kind other)) [
  | inr n ↦ rw n (h other j (rw n at e))
  | inl y ↦ rw y (grown-IsEarned r other k j query (h other j) (rw y at e))
]

created-IsEarned :
    (r : ToolRunState) (kind : Kind) (k : ℕ) → IsEarned r → IsEarned (remember_created kind k r)
unfolding extend
created-IsEarned r kind k h other j e = elim (Bool-cases (kind_eq kind other)) [
  | inr n ↦ rw n (h other j (rw n at e))
  | inl y ↦
      let f = rw y at e in
      let a = contains-append (r.resolved other) (k ∷ []) j in
      let b = contains-append (r.created other) (k ∷ []) j in
      rw y (
        grown (contains (r.resolved other) j) (contains (r.created other) j) (k == j)
          (has_query (queries_of j (r.evidence other))) (h other j) (sym a ∙ f) b)
]

pub remember_search-IsEarned :
    (r : ToolRunState) (kind : Kind) (key : Text)
    → IsEarned r
    → IsEarned (remember_search kind key r)
remember_search-IsEarned r kind key h = elim (Bool-cases (is_blank key)) [
  | inl y ↦ rw y h
  | inr n ↦ rw n h
]

pub candidates-IsEarned :
    (kind : Kind) (key query : Text) (ids : List ℕ) (x : Resolution) (r : ToolRunState)
    → IsEarned r
    → IsEarned (remember_candidates kind key query ids x r)
unfolding remember_candidates
candidates-IsEarned kind key query ids (resolved k e) r h = elim (Bool-cases (contains ids k)) [
  | inl y ↦ rw y (grant-IsEarned r kind k query h)
  | inr n ↦ rw n h
]
candidates-IsEarned kind key query ids ambiguous r h = h
candidates-IsEarned kind key query ids no_exact_identity r h = elim (Bool-cases (is_blank key)) [
  | inl y ↦ rw y h
  | inr n ↦ rw n h
]

new-IsEarned :
    (kind : Option Kind) (k : ℕ) (r : ToolRunState) → IsEarned r → IsEarned (remember_new kind k r)
new-IsEarned none k r h = h
new-IsEarned (some kind) k r h = created-IsEarned r kind k h

node-IsEarned :
    (created : List ℕ) (k : ℕ) (text : Text) (r : ToolRunState)
    → IsEarned r
    → IsEarned (remember_node created k text r)
node-IsEarned created k text r h = elim (Bool-cases (contains created k)) [
  | inl y ↦ rw y (created-IsEarned r Kind.location k h)
  | inr n ↦ rw n (grant-IsEarned r Kind.location k text h)
]

path-IsEarned :
    (created ids : List ℕ) (texts : List Text) (r : ToolRunState)
    → IsEarned r
    → IsEarned (remember_path created ids texts r)
unfolding remember_path
path-IsEarned created [] texts r h = h
path-IsEarned created (k ∷ ks) [] r h = h
path-IsEarned created (k ∷ ks) (text ∷ texts) r h =
    path-IsEarned created ks texts (remember_node created k text r)
      (node-IsEarned created k text r h)

pub reply-IsEarned :
    (w : Write) (reply : ToolReply) (r : ToolRunState)
    → IsEarned r
    → IsEarned (remember_reply w reply r)
unfolding remember_reply
reply-IsEarned w (served (Reply.node n)) r h = new-IsEarned (creates w) n.id r h
reply-IsEarned w (served (Reply.item i)) r h = new-IsEarned (creates w) i.id r h
reply-IsEarned w (served (Reply.photo m)) r h = h
reply-IsEarned w (served (Reply.path p)) r h = h
reply-IsEarned w (located p texts) r h = path-IsEarned p.created_ids p.path_ids texts r h
