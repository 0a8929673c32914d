-- ===== src/Inventory/Forest.antt =====
-- The trees of categories and locations: every node leads to a root. The loops of
-- services/inventory.py that climb a tree then end, and `_update_tree_node` keeps the trees.
pub mod Climb
pub mod Reparent
use ah_there_it_is.Base.{
  ℕ, zero, suc, ◌+◌, ◌≤◌, ◌<◌, ◌≡◌, refl, Bool, true, false, Option, none, some, List, [], ◌∷◌,
  ◌++◌, arith, ap, find, contains, ◌==◌, if◌then◌else◌, length,
}
use ah_there_it_is.Db.{Node, node_id, PathPart}

-- the key leads to a root: it is absent, or its row's parent key leads to a root
pub data Rooted (ns : List Node) : Option ℕ → Type 0 where
  root : Rooted ns none
  under :
      (k : ℕ) (n : Node) → find node_id k ns ≡ some n → Rooted ns n.parent_id → Rooted ns (some k)

-- every row leads to a root
abbrev pub IsForest : List Node → Type 0
IsForest ns = (k : ℕ) (n : Node) → find node_id k ns ≡ some n → Rooted ns n.parent_id

-- the names from the outermost node down to the row with this key
pub data IsPath (ns : List Node) : Option ℕ → List PathPart → Type 0 where
  top : IsPath ns none []
  below :
      (k : ℕ) (n : Node) (above path : List PathPart)
      → find node_id k ns ≡ some n
      → IsPath ns n.parent_id above
      → path ≡ above ++ (n.id, n.name) ∷ []
      → IsPath ns (some k) path

pub depth : {ns : List Node} {p : Option ℕ} → Rooted ns p → ℕ
depth root = 0
depth (under k n e r) = suc (depth r)

-- the depth is a property of the key
pub depth_unique :
    {ns : List Node} (p q : Option ℕ)
    → p ≡ q
    → (r : Rooted ns p) (r' : Rooted ns q) → depth r ≡ depth r'
unfolding depth
depth_unique none none e root root = refl
depth_unique none (some k) e root r' = absurd (cc)
depth_unique (some k) none e r root = absurd (cc)
depth_unique (some k) (some j) e (under k' n f r) (under j' m g r') =
    let same : n.parent_id ≡ m.parent_id = cc in
    ap suc (depth_unique n.parent_id m.parent_id same r r')

-- the rows that have not been visited
unfoldable pub unseen : List ℕ → List Node → ℕ
unseen seen [] = 0
unseen seen (n ∷ ns) = (if contains seen n.id then 0 else 1) + unseen seen ns

pub unseen-le : (k : ℕ) (seen : List ℕ) (ns : List Node) → unseen (k ∷ seen) ns ≤ unseen seen ns
unfolding unseen
unseen-le k seen [] = omega arith
unseen-le k seen (n ∷ ns) = ground (arith, unseen-le k seen ns)

pub unseen-lt :
    (k : ℕ) (seen : List ℕ) (n : Node) (ns : List Node)
    → find node_id k ns ≡ some n
    → contains seen k ≡ false
    → unseen (k ∷ seen) ns < unseen seen ns
unfolding unseen find
unseen-lt k seen n [] e h = absurd (cc)
unseen-lt k seen n (m ∷ ns) e h = ground (arith, unseen-le k seen ns, unseen-lt k seen n ns)

pub unseen_all : (ns : List Node) → unseen [] ns ≡ length ns
unfolding unseen
unseen_all [] = refl
unseen_all (n ∷ ns) = omega (arith, unseen_all ns)
