-- ===== src/Inventory/Atomic/Paths.antt =====
-- `create_location_path` of services/inventory.py is atomic, and keeps the locations a tree with distinct
-- names.
use ah_there_it_is.Base.{
  ℕ, ◌≡◌, refl, ap, sym, subst, ◌∙◌, Bool, true, false, Option, none, some, List, [], ◌∷◌, ◌++◌,
  map, select, arith, find, find-append, find_absent, find-select, selected_found, option_eq_iff,
  Option-cases, inl, inr, contains,
}
use ah_there_it_is.Text.{Text, text_eq_iff}
use ah_there_it_is.Domain.States.{ok, Error, Result-cases}
use ah_there_it_is.Db.{Db, Node, Model, set_nodes, node_id}
use ah_there_it_is.Session.{Session, Service}
use ah_there_it_is.Session.Rules.{
  Triple, At, Fails, query_start, query_at, lift_start, lift_err, raise_if_start, modify_at,
  flush_at, guarded_rule,
}
use ah_there_it_is.Inventory.Checks.{get_optional, optional_id, ensure_tree_name}
use ah_there_it_is.Inventory.Paths.{
  CanonicalName, Plan, reused, plan, only_match, has_name, has_place, new_nodes, add_all, described,
  write_path, create_location_path, canonical,
}
use ah_there_it_is.Inventory.Forest.{Rooted, under, IsForest}
use ah_there_it_is.Inventory.Forest.Reparent.{IsForest-append, Rooted-append}
use ah_there_it_is.Inventory.Distinct.{IsDistinct-extend, added_row, free_name}
use ah_there_it_is.Inventory.Valid.{IsValid, IsTree}
use ah_there_it_is.Inventory.Atomic.{IsFresh, Kept, kept_unchanged_rule, kept_rule}
use ah_there_it_is.Inventory.Atomic.Facts.{get_optional-IsRow}
use ah_there_it_is.Inventory.Atomic.Nodes.{row-Rooted, free_tree_name, set_nodes-IsValid}

-- no row that is found has this name under this parent
abbrev pub IsFree : List Node → Option ℕ → List CanonicalName → Type 0
IsFree ns parent [] = Unit
IsFree ns parent (c ∷ _) =
    (k : ℕ) (n : Node)
    → find node_id k ns ≡ some n
    → n.normalized_name ≡ c.1
    → n.parent_id ≡ parent
    → ⊥

only_match-none : (ns : List Node) → only_match ns ≡ ok none → ns ≡ []
unfolding only_match
only_match-none [] e = refl
only_match-none (n ∷ []) e = absurd (cc)
only_match-none (n ∷ m ∷ ns) e = absurd (cc)

only_match-some : (ns : List Node) (n : Node) → only_match ns ≡ ok (some n) → ns ≡ n ∷ []
unfolding only_match
only_match-some [] n e = absurd (cc)
only_match-some (m ∷ []) n e = let same : m ≡ n = cc in ap (λ x. x ∷ []) same
only_match-some (m ∷ l ∷ ns) n e = absurd (cc)

place_test :
    (key : Text) (parent : ℕ) (n : Node)
    → n.normalized_name ≡ key
    → n.parent_id ≡ some parent
    → has_place key parent n ≡ true
place_test key parent n p q =
    ground (arith, text_eq_iff n.normalized_name key, option_eq_iff n.parent_id (some parent))

-- a name for which no node is reused is free under the current node
reused-IsFree :
    (reuse : Bool) (d : Db) (current : Option Node) (c : CanonicalName) (cs : List CanonicalName)
    → reused reuse d current c ≡ ok none
    → IsFree d.locations (optional_id current) (c ∷ cs)
unfolding reused
reused-IsFree reuse d (some parent) c cs e k n f p q =
    find-select node_id (has_place c.1 parent.id) k n d.locations f (place_test c.1 parent.id n p q)
      (only_match-none (select (has_place c.1 parent.id) d.locations) e)
reused-IsFree true d none c cs e k n f p q =
    find-select node_id (has_name c.1) k n d.locations f ((text_eq_iff n.normalized_name c.1).1 p)
      (only_match-none (select (has_name c.1) d.locations) e)
reused-IsFree false d none c cs e k n f p q =
    elim (Result-cases (ensure_tree_name Model.location c.1 none none d)) [
      | inr (x, g) ↦ absurd ((let h = rw (g, reused) at e in cc))
      | inl (u, g) ↦
          free_name d.locations c.1 none none k n (free_tree_name Model.location c.1 none none d g)
            f (λ s. cc) p q
    ]

member-Rooted :
    (ns : List Node) (test : Node → Bool) (n : Node)
    → IsForest ns
    → select test ns ≡ n ∷ []
    → Rooted ns (some n.id)
member-Rooted ns test n forest e =
    let (m, f) = selected_found node_id test n [] ns e in under n.id m f (forest n.id m f)

reused-Rooted :
    (reuse : Bool) (d : Db) (current : Option Node) (c : CanonicalName) (n : Node)
    → IsForest d.locations
    → reused reuse d current c ≡ ok (some n)
    → Rooted d.locations (some n.id)
unfolding reused
reused-Rooted reuse d (some parent) c n forest e =
    member-Rooted d.locations (has_place c.1 parent.id) n forest
      (only_match-some (select (has_place c.1 parent.id) d.locations) n e)
reused-Rooted true d none c n forest e =
    member-Rooted d.locations (has_name c.1) n forest
      (only_match-some (select (has_name c.1) d.locations) n e)
reused-Rooted false d none c n forest e =
    elim (Result-cases (ensure_tree_name Model.location c.1 none none d)) [
      | inr (x, g) ↦ absurd ((let h = rw (g, reused) at e in cc))
      | inl (u, g) ↦ absurd ((let h = rw (g, reused) at e in cc))
    ]

-- what a plan says of the names that are left
abbrev IsPlanned : Db → Plan → Type 0
IsPlanned d (last, path, rest) =
    Rooted d.locations (optional_id last) × IsFree d.locations (optional_id last) rest

plan-IsPlanned :
    (reuse : Bool) (d : Db) (current : Option Node) (names : List CanonicalName) (p : Plan)
    → IsForest d.locations
    → Rooted d.locations (optional_id current)
    → plan reuse d current names ≡ ok p
    → IsPlanned d p
unfolding plan
plan-IsPlanned reuse d current [] p forest r e =
    let same : (current, [], []) ≡ p = cc in subst (IsPlanned d) same (r, tt)
plan-IsPlanned reuse d current (c ∷ cs) p forest r e =
    elim (Result-cases (reused reuse d current c)) [
      | inr (x, f) ↦ absurd ((let g = rw (f, plan) at e in cc))
      | inl (found, f) ↦ elim (Option-cases found) [
        | inl n ↦
            let whole = rw n at (rw (f, plan) at e) in
            let same : (current, [], c ∷ cs) ≡ p = cc in
            subst (IsPlanned d) same (r, reused-IsFree reuse d current c cs (f ∙ ap ok n))
        | inr (n, y) ↦ elim (Result-cases (plan reuse d (some n) cs)) [
          | inr (x, g) ↦ absurd ((let h = rw (g, plan) at (rw y at (rw (f, plan) at e)) in cc))
          | inl (q, g) ↦
              let (last, path, rest) = q in
              let whole = rw (g, plan) at (rw y at (rw (f, plan) at e)) in
              let same : (last, n ∷ path, rest) ≡ p = cc in
              let deep =
                plan-IsPlanned reuse d (some n) cs q forest
                  (reused-Rooted reuse d current c n forest (f ∙ ap ok y)) g in
              subst (IsPlanned d) same deep
        ]
      ]
    ]

-- a key that no row has is no parent
unused_parent :
    (ns : List Node) (k j : ℕ) (n : Node)
    → IsForest ns
    → find node_id k ns ≡ none
    → find node_id j ns ≡ some n
    → n.parent_id ≡ some k
    → ⊥
unused_parent ns k j n forest absent f p = stuck (subst (Rooted ns) p (forest j n f))
  where
    stuck : Rooted ns (some k) → ⊥
    stuck (under k' m e r) = cc

module _ (fresh : List ℕ → ℕ) (new : (ids : List ℕ) → contains ids (fresh ids) ≡ false)
    (description : Option Text) where
  abbrev node_of : Option ℕ → CanonicalName → List CanonicalName → List Node → Node
  node_of parent c cs ns = record {
    id = fresh (map node_id ns);
    parent_id = parent;
    name = c.0;
    normalized_name = c.1;
    description = described description cs;
  }

  last_added :
      (ns : List Node) (n : Node)
      → find node_id n.id ns ≡ none
      → find node_id n.id (ns ++ n ∷ []) ≡ some n
  unfolding find
  last_added ns n e = ground (arith, find-append node_id n.id ns (n ∷ []))

  next-IsFree :
      (ns : List Node) (n : Node) (cs : List CanonicalName)
      → IsForest ns
      → Rooted ns n.parent_id
      → find node_id n.id ns ≡ none
      → IsFree (ns ++ n ∷ []) (some n.id) cs
  next-IsFree ns n [] forest r absent = tt
  next-IsFree ns n (c ∷ cs) forest r absent = λ k m f p q. elim (added_row ns n k m f) [
    | inl old ↦ unused_parent ns n.id k m forest absent old q
    | inr (is_n, _) ↦
        let up : n.parent_id ≡ some n.id = ap (λ (x : Node). x.parent_id) (sym is_n) ∙ q in
        stuck (subst (Rooted ns) up r)
  ]
    where
      stuck : Rooted ns (some n.id) → ⊥
      stuck (under k' x e up) = cc

  pub new_nodes-IsTree :
      (names : List CanonicalName) (parent : Option ℕ) (ns : List Node)
      → IsTree ns
      → Rooted ns parent
      → IsFree ns parent names
      → IsTree (add_all (new_nodes fresh description parent names ns) ns)
  unfolding new_nodes
  new_nodes-IsTree [] parent ns t r free = t
  new_nodes-IsTree (c ∷ cs) parent ns t r free =
      let n = node_of parent c cs ns in
      let absent = find_absent node_id n.id ns (new (map node_id ns)) in
      let tree : IsTree (ns ++ n ∷ []) = record {
        forest = IsForest-append ns n t.forest r;
        distinct = IsDistinct-extend ns n t.distinct free;
      } in
      new_nodes-IsTree cs (some n.id) (ns ++ n ∷ []) tree
        (under n.id n (last_added ns n absent) (Rooted-append n r))
        (next-IsFree ns n cs t.forest r absent)

module _ (self : Service) (fresh : IsFresh self) (s0 : Session) (v : IsValid s0.working) where
  write_path_rule :
      (description : Option Text) (p : Plan)
      → IsPlanned s0.working p
      → Triple (At s0 s0.working) (write_path self description p) (λ _. Kept self s0) (Fails s0)
  unfolding write_path new_nodes
  write_path_rule description (none, path, []) h = lift_err s0 Error.assertion
  write_path_rule description (some n, path, []) h =
      kept_unchanged_rule self s0
        (record { location = n; path_ids = map node_id path; created_ids = [] }) v
  write_path_rule description (last, path, c ∷ cs) h =
      let d = s0.working in
      let ns = new_nodes self.fresh description (optional_id last) (c ∷ cs) d.locations in
      query_at s0 d _ _ ns refl (
        guarded_rule s0 self (
          modify_at s0 d _ _ (
            flush_at s0 self (set_nodes Model.location (add_all ns d.locations) d) _ (
              kept_rule self s0 (set_nodes Model.location (add_all ns d.locations) d) _ (
                set_nodes-IsValid Model.location d (add_all ns d.locations) v (
                  new_nodes-IsTree self.fresh fresh description (c ∷ cs) (optional_id last)
                    d.locations v.locations h.0 h.1))))))

  pub create_location_path_rule :
      (values : List Text) (parent : Option ℕ) (reuse : Bool) (description : Option Text)
      → Triple
          (At s0 s0.working)
          (create_location_path self values parent reuse description)
          (λ _. Kept self s0)
          (Fails s0)
  unfolding create_location_path
  create_location_path_rule values parent reuse description =
      let d = s0.working in
      raise_if_start s0 _ _ _ (λ _. lift_start s0 _ _ (λ relational _. raise_if_start s0 _ _ _ (λ _.
        raise_if_start s0 _ _ _ (λ _. raise_if_start s0 _ _ _ (λ _.
          query_start s0 (get_optional Model.location parent) _ (λ current there.
            query_start s0 _ _ (λ p planned. write_path_rule description p (
              plan-IsPlanned reuse d current (map (canonical self.names) values) p
                v.locations.forest
                (row-Rooted d.locations current v.locations
                  (get_optional-IsRow Model.location parent d current there))
                planned))))))))
