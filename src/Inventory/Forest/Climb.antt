-- ===== src/Inventory/Forest/Climb.antt =====
-- The loop of `_history_path` ends by its test, and in a forest it returns the path from the root.
use ah_there_it_is.Base.{
  ℕ, zero, suc, ◌≤◌, ◌<◌, ◌≡◌, ◌≢◌, refl, inl, inr, false, Option, none, some, List, [], ◌∷◌, ◌++◌,
  arith, ap, sym, subst, find, find-key, contains, ◌==◌, ==_iff, All, Bool-cases, Option-cases,
}
use mathlib.Core.List.{append_assoc, append-nil}
use ah_there_it_is.Domain.States.{Error, ok, err}
use ah_there_it_is.Db.{Db, Node, Model, nodes, node_id, related, PathPart, HistoryPath}
use ah_there_it_is.Inventory.Checks.{walk_up, parent_of, enough_fuel, history_path}
use ah_there_it_is.Inventory.Forest.{
  Rooted, root, under, IsForest, IsPath, top, below, depth, depth_unique, unseen, unseen-lt,
  unseen_all,
}

-- the key of a row, where there is one
abbrev pub key_of : Option Node → Option ℕ
key_of none = none
key_of (some n) = some n.id

-- the row is the one that its key finds
abbrev pub IsRow : List Node → Option Node → Type 0
IsRow ns none = Unit
IsRow ns (some n) = find node_id n.id ns ≡ some n

pub IsRow-found :
    (ns : List Node) (k : ℕ) (n : Node) → find node_id k ns ≡ some n → IsRow ns (some n)
IsRow-found ns k n e = subst (λ j. find node_id j ns ≡ some n) (sym (find-key node_id k n ns e)) e

pub IsRow-parent : (ns : List Node) (n : Node) → IsRow ns (parent_of ns n)
IsRow-parent ns n = go n.parent_id
  where
    go : (p : Option ℕ) → IsRow ns (elim p [ none ↦ none | some k ↦ find node_id k ns ])
    go none = tt
    go (some k) = elim (Option-cases (find node_id k ns)) [
      | inl e ↦ rw e tt
      | inr (m, e) ↦ rw e (IsRow-found ns k m e)
    ]

-- With a round for each row not yet visited the loop never runs out of rounds.
pub walk_up_ends :
    (fuel : ℕ) (ns : List Node) (seen : List ℕ) (parts : List PathPart) (current : Option Node)
    → IsRow ns current
    → unseen seen ns < fuel
    → walk_up fuel ns seen parts current ≢ err Error.out_of_fuel
unfolding walk_up
walk_up_ends zero ns seen parts current row h = absurd (omega arith)
walk_up_ends (suc fuel) ns seen parts none row h = ground arith
walk_up_ends (suc fuel) ns seen parts (some n) row h = elim (Bool-cases (contains seen n.id)) [
  | inl e ↦ rw e (ground arith)
  | inr e ↦ rw e (
      walk_up_ends fuel ns (n.id ∷ seen) ((n.id, n.name) ∷ parts) (parent_of ns n)
        (IsRow-parent ns n) (omega (arith, unseen-lt n.id seen n ns row e)))
]

-- every visited key leads to a root from further down
abbrev IsBelow : List Node → ℕ → ℕ → Type 0
IsBelow ns d k = (r : Rooted ns (some k)) × (d < depth r)

IsBelow-weaken :
    (ns : List Node) (d d' : ℕ) (seen : List ℕ)
    → d' ≤ d
    → All (IsBelow ns d) seen
    → All (IsBelow ns d') seen
IsBelow-weaken ns d d' [] le h = tt
IsBelow-weaken ns d d' (k ∷ seen) le h = ((h.0.0, omega arith), IsBelow-weaken ns d d' seen le h.1)

not_seen :
    (ns : List Node) (k : ℕ) (r : Rooted ns (some k)) (seen : List ℕ)
    → All (IsBelow ns (depth r)) seen
    → contains seen k ≡ false
not_seen ns k r [] h = refl
not_seen ns k r (j ∷ seen) h = elim (Bool-cases (j == k)) [
  | inl e ↦
      let same : j ≡ k = (==_iff j k).0 e in
      absurd (omega (arith, h.0.1, depth_unique (some j) (some k) (ap some same) h.0.0 r))
  | inr e ↦ ground (arith, not_seen ns k r seen h.1)
]

-- a rooted row's parent is rooted one step higher
Rooted-parent :
    (ns : List Node) (p : Option ℕ) (r : Rooted ns p)
    → (r' : Rooted ns (key_of (elim p [ none ↦ none | some k ↦ find node_id k ns ]))) × (depth r'
        ≡ depth r)
      × (key_of (elim p [ none ↦ none | some k ↦ find node_id k ns ]) ≡ p)
unfolding depth
Rooted-parent ns none root = (root, refl, refl)
Rooted-parent ns (some k) (under k' m e r) =
    rw e (under m.id m (IsRow-found ns k' m e) r, refl, ap some (find-key node_id k' m ns e))

Rooted-up :
    (ns : List Node) (k : ℕ) (n : Node)
    → find node_id k ns ≡ some n
    → (r : Rooted ns (some k))
    → (r' : Rooted ns (key_of (parent_of ns n))) × (suc (depth r') ≡ depth r)
      × (key_of (parent_of ns n) ≡ n.parent_id)
unfolding depth
Rooted-up ns k n f (under k' m e r) =
    let same : m ≡ n = cc in
    let (r', d, key) = Rooted-parent ns m.parent_id r in
    subst
      (λ x.
        (r' : Rooted ns (key_of (parent_of ns x))) × (suc (depth r') ≡ suc (depth r))
        × (key_of (parent_of ns x) ≡ x.parent_id))
      same (r', ap suc d, key)

-- the loop from a rooted row, with what it has collected
climb :
    (fuel : ℕ) (ns : List Node) (seen : List ℕ) (parts : List PathPart) (current : Option Node)
    (r : Rooted ns (key_of current))
    → IsRow ns current
    → All (IsBelow ns (depth r)) seen
    → unseen seen ns < fuel
    → (path : List PathPart) × (walk_up fuel ns seen parts current ≡ ok (path ++ parts))
      × IsPath ns (key_of current) path
unfolding walk_up
climb zero ns seen parts current r row below_all h = absurd (omega arith)
climb (suc fuel) ns seen parts none r row below_all h = ([], refl, top)
climb (suc fuel) ns seen parts (some n) r row below_all h =
    let fresh : contains seen n.id ≡ false = not_seen ns n.id r seen below_all in
    let (r', up, key) = Rooted-up ns n.id n row r in
    let (above, e, path) =
      climb fuel ns (n.id ∷ seen) ((n.id, n.name) ∷ parts) (parent_of ns n) r' (IsRow-parent ns n)
        (
          (r, omega (arith, up)),
          IsBelow-weaken ns (depth r) (depth r') seen (omega (arith, up)) below_all,
        )
        (omega (arith, unseen-lt n.id seen n ns row fresh)) in
    (
      above ++ (n.id, n.name) ∷ [],
      rw fresh (rw append_assoc e),
      below n.id n above (above ++ (n.id, n.name) ∷ []) row
          (subst (λ p. IsPath ns p above) key path) refl,
    )

-- In a forest `_history_path` of a stored row succeeds, with the names from the root to the row.
pub history_path-IsPath :
    (m : Model) (d : Db) (n : Node)
    → IsForest (nodes m d)
    → find node_id n.id (nodes m d) ≡ some n
    → (path : List PathPart) × (history_path m (some n) d ≡ ok (some path))
      × IsPath (nodes m d) (some n.id) path
unfolding history_path
history_path-IsPath m d n forest row = found (
    climb (enough_fuel ns) ns [] [] (some n) (under n.id n row (forest n.id n row)) row tt
      (omega (arith, unseen_all ns)))
  where
    ns : List Node
    ns = nodes m d

    found :
        (path : List PathPart) × (walk_up (enough_fuel ns) ns [] [] (some n) ≡ ok (path ++ []))
          × IsPath ns (some n.id) path
        → (path : List PathPart) × (history_path m (some n) d ≡ ok (some path))
          × IsPath ns (some n.id) path
    found (path, e, is_path) = (path, rw (e, history_path, append-nil), is_path)

-- The same of a row that may be absent: in a forest the history path is always there.
pub history_path_total :
    (m : Model) (d : Db) (n : Option Node)
    → IsForest (nodes m d)
    → IsRow (nodes m d) n
    → (path : HistoryPath) × (history_path m n d ≡ ok path)
unfolding history_path
history_path_total m d none forest row = (none, refl)
history_path_total m d (some n) forest row =
    let (path, e, _) = history_path-IsPath m d n forest row in (some path, e)

-- what a foreign key refers to is a row
pub related-IsRow : (m : Model) (p : Option ℕ) (d : Db) → IsRow (nodes m d) (related m p d)
related-IsRow m none d = tt
related-IsRow m (some k) d = elim (Option-cases (find node_id k (nodes m d))) [
  | inl e ↦ rw e tt
  | inr (n, e) ↦ rw e (IsRow-found (nodes m d) k n e)
]
