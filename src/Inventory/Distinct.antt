-- ===== src/Inventory/Distinct.antt =====
-- Names in a tree are distinct under one parent: `_ensure_tree_name_available` of
-- services/inventory.py keeps it so when a row is added or changed.
use ah_there_it_is.Base.{
  ℕ, ◌≡◌, ◌≢◌, ◌⊎◌, ap, sym, ◌∙◌, Bool, false, Option, none, some, List, [], ◌∷◌, ◌++◌, arith, any,
  find, find-key, find-append, find-replace, replace, ◌==◌, ==_iff, option_eq_iff, Bool-cases,
  Option-cases, inl, inr,
}
use ah_there_it_is.Text.{Text, text_eq_iff}
use ah_there_it_is.Db.{Node, node_id}
use ah_there_it_is.Inventory.Checks.{takes_tree_name}

-- two rows of one name under one parent are one row
abbrev pub IsDistinct : List Node → Type 0
IsDistinct ns =
    (k j : ℕ) (n m : Node)
    → find node_id k ns ≡ some n
    → find node_id j ns ≡ some m
    → n.normalized_name ≡ m.normalized_name
    → n.parent_id ≡ m.parent_id
    → k ≡ j

-- a row that is found answers the test that no row passes
any-find :
    (test : Node → Bool) (k : ℕ) (n : Node) (ns : List Node)
    → any test ns ≡ false
    → find node_id k ns ≡ some n
    → test n ≡ false
unfolding find
any-find test k n [] h e = absurd (cc)
any-find test k n (x ∷ ns) h e = elim (Bool-cases (x.id == k)) [
  | inl same ↦ let is_x : n ≡ x = ground arith in rw is_x (ground arith)
  | inr other ↦ any-find test k n ns (ground arith) (ground arith)
]

-- a free name is the name of no other row
pub free_name :
    (ns : List Node) (name : Text) (parent exclude : Option ℕ) (k : ℕ) (n : Node)
    → any (takes_tree_name name parent exclude) ns ≡ false
    → find node_id k ns ≡ some n
    → exclude ≢ some n.id
    → n.normalized_name ≡ name
    → n.parent_id ≡ parent
    → ⊥
free_name ns name parent none k n h e other p q = ground (
  arith,
  any-find (takes_tree_name name parent none) k n ns h e,
  text_eq_iff n.normalized_name name,
  option_eq_iff n.parent_id parent,
)
free_name ns name parent (some x) k n h e other p q = ground (
  arith,
  any-find (takes_tree_name name parent (some x)) k n ns h e,
  text_eq_iff n.normalized_name name,
  option_eq_iff n.parent_id parent,
  ==_iff n.id x,
  λ (s : n.id ≡ x). other (ap some (sym s)),
)

find_one : (k : ℕ) (a n : Node) → find node_id k (a ∷ []) ≡ some n → (n ≡ a) × (a.id ≡ k)
unfolding find
find_one k a n h = ground arith

-- where a row of the longer table comes from
pub added_row :
    (ns : List Node) (a : Node) (k : ℕ) (n : Node)
    → find node_id k (ns ++ a ∷ []) ≡ some n
    → (find node_id k ns ≡ some n) ⊎ ((n ≡ a) × (a.id ≡ k))
added_row ns a k n e = elim (Option-cases (find node_id k ns)) [
  | inl absent ↦ inr (find_one k a n (ground (arith, find-append node_id k ns (a ∷ []))))
  | inr (m, f) ↦ inl (ground (arith, find-append node_id k ns (a ∷ [])))
]

-- A row may be added under a name that no row that is found has.
pub IsDistinct-extend :
    (ns : List Node) (a : Node)
    → IsDistinct ns
    → ((k : ℕ) (n : Node)
        → find node_id k ns ≡ some n
        → n.normalized_name ≡ a.normalized_name
        → n.parent_id ≡ a.parent_id
        → ⊥)
    → IsDistinct (ns ++ a ∷ [])
IsDistinct-extend ns a h free k j n m e f p q = elim (added_row ns a k n e) [
  | inl old ↦ elim (added_row ns a j m f) [
    | inl old' ↦ h k j n m old old' p q
    | inr (is_a, _) ↦ absurd (
        free k n old (p ∙ ap (λ (x : Node). x.normalized_name) is_a)
          (q ∙ ap (λ (x : Node). x.parent_id) is_a))
  ]
  | inr (is_a, key) ↦ elim (added_row ns a j m f) [
    | inl old' ↦ absurd (
        free j m old' (sym p ∙ ap (λ (x : Node). x.normalized_name) is_a)
          (sym q ∙ ap (λ (x : Node). x.parent_id) is_a))
    | inr (_, key') ↦ sym key ∙ key'
  ]
]

-- A row with a free name may be added.
pub IsDistinct-append :
    (ns : List Node) (a : Node)
    → IsDistinct ns
    → any (takes_tree_name a.normalized_name a.parent_id none) ns ≡ false
    → IsDistinct (ns ++ a ∷ [])
IsDistinct-append ns a h free =
    IsDistinct-extend ns a h
      (λ k n e p q. free_name ns a.normalized_name a.parent_id none k n free e (λ s. cc) p q)

-- where a row of the changed table comes from
changed_row :
    (ns : List Node) (a : Node) (k : ℕ) (n : Node)
    → find node_id k (replace node_id a ns) ≡ some n
    → ((find node_id k ns ≡ some n) × (a.id ≢ k)) ⊎ ((n ≡ a) × (a.id ≡ k))
changed_row ns a k n e = elim (Bool-cases (a.id == k)) [
  | inl same ↦ inr (ground (arith, find-replace node_id k a ns))
  | inr other ↦ inl (ground (arith, find-replace node_id k a ns))
]

-- A row may be written under a name that no other row has.
pub IsDistinct-replace :
    (ns : List Node) (a : Node)
    → IsDistinct ns
    → ((k : ℕ) (n : Node)
        → find node_id k ns ≡ some n
        → a.id ≢ k
        → n.normalized_name ≡ a.normalized_name
        → n.parent_id ≡ a.parent_id
        → ⊥)
    → IsDistinct (replace node_id a ns)
IsDistinct-replace ns a h free k j n m e f p q = elim (changed_row ns a k n e) [
  | inl (old, ne) ↦ elim (changed_row ns a j m f) [
    | inl (old', _) ↦ h k j n m old old' p q
    | inr (is_a, _) ↦ absurd (
        free k n old ne (p ∙ ap (λ (x : Node). x.normalized_name) is_a)
          (q ∙ ap (λ (x : Node). x.parent_id) is_a))
  ]
  | inr (is_a, key) ↦ elim (changed_row ns a j m f) [
    | inl (old', ne) ↦ absurd (
        free j m old' ne (sym p ∙ ap (λ (x : Node). x.normalized_name) is_a)
          (sym q ∙ ap (λ (x : Node). x.parent_id) is_a))
    | inr (_, key') ↦ sym key ∙ key'
  ]
]

-- A name that passed the check is free for the row that is left out of it.
pub free_for :
    (ns : List Node) (a : Node)
    → any (takes_tree_name a.normalized_name a.parent_id (some a.id)) ns ≡ false
    → (k : ℕ) (n : Node) → find node_id k ns ≡ some n
    → a.id ≢ k
    → n.normalized_name ≡ a.normalized_name
    → n.parent_id ≡ a.parent_id
    → ⊥
free_for ns a h k n e ne =
    free_name ns a.normalized_name a.parent_id (some a.id) k n h e
      (λ s. ground (arith, find-key node_id k n ns e))
