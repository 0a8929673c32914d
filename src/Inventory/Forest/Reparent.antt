-- ===== src/Inventory/Forest/Reparent.antt =====
-- The cycle check of `_update_tree_node` ends, it accepts only a parent that does not lie below
-- the node, and a table that is a forest stays one when a row is changed or added.
use ah_there_it_is.Base.{
  ℕ, zero, suc, ◌<◌, ◌≡◌, ◌≢◌, inl, inr, Option, none, some, List, [], ◌∷◌, ◌++◌, arith, ap, sym,
  subst, find, find-key, find-replace, find-append, replace, ◌==◌, Bool-cases, Option-cases, ◌∙◌,
}
use ah_there_it_is.Domain.States.{Error, ok, err, Result-cases}
use ah_there_it_is.Db.{Node, node_id}
use ah_there_it_is.Inventory.Checks.{check_ancestors, next_ancestor}
use ah_there_it_is.Inventory.Forest.{Rooted, root, under, IsForest, unseen, unseen-lt}
use ah_there_it_is.Inventory.Forest.Climb.{key_of, IsRow, IsRow-found}

-- the chain of ancestors from this key never meets the node `x`
pub data Avoids (ns : List Node) (x : ℕ) : Option ℕ → Type 0 where
  nobody : Avoids ns x none
  another :
      (k : ℕ) (n : Node)
      → find node_id k ns ≡ some n
      → k ≢ x
      → Avoids ns x n.parent_id
      → Avoids ns x (some k)

-- a parent that is looked up is a row, and is the parent
next_ancestor-IsRow :
    (ns : List Node) (a : Node) (p : Option Node)
    → next_ancestor ns a ≡ ok p
    → IsRow ns p × (key_of p ≡ a.parent_id)
unfolding next_ancestor
next_ancestor-IsRow ns a p h = elim (Option-cases a.parent_id) [
  | inl e ↦ let q : p ≡ none = ground arith in rw q (tt, sym e)
  | inr (k, e) ↦ elim (Option-cases (find node_id k ns)) [
    | inl f ↦ absurd (ground arith)
    | inr (m, f) ↦
        let q : p ≡ some m = ground arith in
        rw q (IsRow-found ns k m f, ap some (find-key node_id k m ns f) ∙ sym e)
  ]
]

next_ancestor-err :
    (ns : List Node) (a : Node) (x : Error) → next_ancestor ns a ≡ err x → x ≢ Error.out_of_fuel
unfolding next_ancestor
next_ancestor-err ns a x h = ground arith

-- With a round for each row not yet visited the check never runs out of rounds.
pub check_ancestors_ends :
    (fuel : ℕ) (ns : List Node) (self : ℕ) (seen : List ℕ) (ancestor : Option Node)
    → IsRow ns ancestor
    → unseen seen ns < fuel
    → check_ancestors fuel ns self seen ancestor ≢ err Error.out_of_fuel
unfolding check_ancestors
check_ancestors_ends zero ns self seen ancestor row h = absurd (omega arith)
check_ancestors_ends (suc fuel) ns self seen none row h = ground arith
check_ancestors_ends (suc fuel) ns self seen (some a) row h =
    elim (Result-cases (next_ancestor ns a)) [
      | inl (p, e) ↦
          let (row', key) = next_ancestor-IsRow ns a p e in
          ground (
            arith,
            check_ancestors_ends fuel ns self (a.id ∷ seen) p row',
            unseen-lt a.id seen a ns row,
          )
      | inr (x, e) ↦ ground (arith, next_ancestor-err ns a x e)
    ]

-- What the check accepts avoids the node.
pub check_ancestors-Avoids :
    (fuel : ℕ) (ns : List Node) (self : ℕ) (seen : List ℕ) (ancestor : Option Node)
    → IsRow ns ancestor
    → check_ancestors fuel ns self seen ancestor ≡ ok tt
    → Avoids ns self (key_of ancestor)
unfolding check_ancestors
check_ancestors-Avoids zero ns self seen ancestor row h = absurd (cc)
check_ancestors-Avoids (suc fuel) ns self seen none row h = nobody
check_ancestors-Avoids (suc fuel) ns self seen (some a) row h =
    elim (Result-cases (next_ancestor ns a)) [
      | inl (p, e) ↦
          let (row', key) = next_ancestor-IsRow ns a p e in
          let rest = check_ancestors-Avoids fuel ns self (a.id ∷ seen) p row' (ground arith) in
          another a.id a row (ground arith) (subst (Avoids ns self) key rest)
      | inr (x, e) ↦ absurd (ground arith)
    ]

-- a chain that avoids a row is rooted whatever that row becomes
Avoids-Rooted :
    (a : Node) {ns : List Node} {p : Option ℕ} → Avoids ns a.id p → Rooted (replace node_id a ns) p
Avoids-Rooted a nobody = root
Avoids-Rooted a {ns} (another k n e ne up) =
    under k n (ground (arith, find-replace node_id k a ns)) (Avoids-Rooted a up)

-- a rooted chain stays rooted if the changed row leads to a root afterwards
Rooted-replace :
    {ns : List Node} {p : Option ℕ} (a : Node)
    → Rooted (replace node_id a ns) a.parent_id
    → Rooted ns p
    → Rooted (replace node_id a ns) p
Rooted-replace a up root = root
Rooted-replace {ns} a up (under k n e r) = elim (Bool-cases (a.id == k)) [
  | inl same ↦ under k a (ground (arith, find-replace node_id k a ns)) up
  | inr other ↦ under k n (ground (arith, find-replace node_id k a ns)) (Rooted-replace a up r)
]

-- A row whose parent's chain avoids it may be written.
pub IsForest-replace :
    (ns : List Node) (a : Node)
    → IsForest ns
    → Avoids ns a.id a.parent_id
    → IsForest (replace node_id a ns)
IsForest-replace ns a forest avoids k n e = elim (Bool-cases (a.id == k)) [
  | inl same ↦
      let is_a : n ≡ a = ground (arith, find-replace node_id k a ns) in
      rw is_a (Avoids-Rooted a avoids)
  | inr other ↦
      Rooted-replace a (Avoids-Rooted a avoids)
        (forest k n (ground (arith, find-replace node_id k a ns)))
]

find_one : (k : ℕ) (a n : Node) → find node_id k (a ∷ []) ≡ some n → n ≡ a
unfolding find
find_one k a n h = ground arith

pub Rooted-append :
    {ns : List Node} {p : Option ℕ} (a : Node) → Rooted ns p → Rooted (ns ++ a ∷ []) p
Rooted-append a root = root
Rooted-append {ns} a (under k n e r) =
    under k n (ground (arith, find-append node_id k ns (a ∷ []))) (Rooted-append a r)

-- A row whose parent is rooted may be added.
pub IsForest-append :
    (ns : List Node) (a : Node) → IsForest ns → Rooted ns a.parent_id → IsForest (ns ++ a ∷ [])
IsForest-append ns a forest up k n e = elim (Option-cases (find node_id k ns)) [
  | inl absent ↦
      let is_a : n ≡ a = ground (arith, find-append node_id k ns (a ∷ []), find_one k a n) in
      rw is_a (Rooted-append a up)
  | inr (m, f) ↦
      let is_m : n ≡ m = ground (arith, find-append node_id k ns (a ∷ [])) in
      rw is_m (Rooted-append a (forest k m f))
]
