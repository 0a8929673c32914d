-- ===== src/Inventory/Atomic/Nodes.antt =====
-- `create_category`, `create_location`, `update_category` and `update_location` of
-- services/inventory.py are atomic, and keep both tables trees with distinct names.
use ah_there_it_is.Base.{
  ℕ, ◌≡◌, ◌≢◌, [], refl, ap, sym, subst, ◌∙◌, false, Option, none, some, List, map, any, arith,
  find, find-key, option_eq_iff, Bool-cases, Option-cases, inl, inr,
}
use ah_there_it_is.Text.{Text, text_eq_iff}
use ah_there_it_is.Domain.States.{ok, Error}
use ah_there_it_is.Db.{Db, Node, Model, nodes, set_nodes, node_id}
use ah_there_it_is.Session.{Session, Service}
use ah_there_it_is.Session.Rules.{
  Triple, At, Fails, bind_rule, query_start, query_at, lift_start, raise_if_end, pure_at, modify_at,
  if_rule,
}
use ah_there_it_is.Inventory.Checks.{
  get_node, get_optional, optional_id, ensure_tree_name, enough_fuel, takes_tree_name,
}
use ah_there_it_is.Inventory.Nodes.{
  NodePatch, display_for, refuse_phrase, add_node, save_node, create_node, target_names, patched,
  check_node_name, renamed, write_node, node_unchanged, update_tree_node, update_node,
}
use ah_there_it_is.Inventory.Forest.{Rooted, root, under}
use ah_there_it_is.Inventory.Forest.Climb.{IsRow, IsRow-found, key_of}
use ah_there_it_is.Inventory.Forest.Reparent.{
  Avoids, check_ancestors-Avoids, IsForest-replace, IsForest-append,
}
use ah_there_it_is.Inventory.Distinct.{IsDistinct-append, IsDistinct-replace, free_for}
use ah_there_it_is.Inventory.Valid.{IsValid, IsTree}
use ah_there_it_is.Inventory.Atomic.{Kept, kept_unchanged_rule, kept_rule}
use ah_there_it_is.Inventory.Atomic.Facts.{get_optional-IsRow}

pub IsTree-of : (m : Model) (d : Db) → IsValid d → IsTree (nodes m d)
IsTree-of Model.category d v = v.categories
IsTree-of Model.location d v = v.locations

pub set_nodes-IsValid :
    (m : Model) (d : Db) (ns : List Node) → IsValid d → IsTree ns → IsValid (set_nodes m ns d)
set_nodes-IsValid Model.category d ns v t = record {
  truthful = v.truthful;
  explained = v.explained;
  categories = t;
  locations = v.locations;
}
set_nodes-IsValid Model.location d ns v t = record {
  truthful = v.truthful;
  explained = v.explained;
  categories = v.categories;
  locations = t;
}

get_optional-key :
    (m : Model) (p : Option ℕ) (d : Db) (n : Option Node) → get_optional m p d ≡ ok n → key_of n ≡ p
unfolding get_optional
get_optional-key m none d n e = ground arith
get_optional-key m (some k) d n e = elim (Option-cases (find node_id k (nodes m d))) [
  | inl f ↦ absurd (ground arith)
  | inr (x, f) ↦
      let same : n ≡ some x = ground arith in rw same (ap some (find-key node_id k x (nodes m d) f))
]

pub row-Rooted :
    (ns : List Node) (n : Option Node) → IsTree ns → IsRow ns n → Rooted ns (optional_id n)
row-Rooted ns none t row = root
row-Rooted ns (some n) t row = under n.id n row (t.forest n.id n row)

pub free_tree_name :
    (m : Model) (name : Text) (parent exclude : Option ℕ) (d : Db)
    → ensure_tree_name m name parent exclude d ≡ ok tt
    → any (takes_tree_name name parent exclude) (nodes m d) ≡ false
unfolding ensure_tree_name
free_tree_name m name parent exclude d e =
    elim (Bool-cases (any (takes_tree_name name parent exclude) (nodes m d))) [
      | inl taken ↦ absurd (ground arith)
      | inr free ↦ free
    ]

optional_id-key : (n : Option Node) → optional_id n ≡ key_of n
optional_id-key none = refl
optional_id-key (some n) = refl

module _ (self : Service) (s0 : Session) (v : IsValid s0.working) where
  refuse_phrase_rule :
      (m : Model) (name : Text)
      → Triple
          (At s0 s0.working)
          (refuse_phrase m self.names name)
          (λ _. At s0 s0.working)
          (Fails s0)
  unfolding refuse_phrase
  refuse_phrase_rule Model.category name = pure_at s0 s0.working tt refl
  refuse_phrase_rule Model.location name =
      lift_start s0 (self.names.location_phrase name) _
        (λ relational _. raise_if_end s0 relational Error.relational_phrase)

  pub create_node_rule :
      (m : Model) (name : Text) (parent_id : Option ℕ) (description : Option Text)
      → Triple
          (At s0 s0.working)
          (create_node self m name parent_id description)
          (λ _. Kept self s0)
          (Fails s0)
  unfolding create_node
  create_node_rule m name parent_id description =
      let d = s0.working in
      let ns = nodes m d in
      bind_rule (λ _. At s0 d) (refuse_phrase_rule m name)
        (λ _. lift_start s0 _ _ (λ normalized _.
          query_start s0 (get_optional m parent_id) _ (λ parent there.
            query_start s0 (ensure_tree_name m normalized parent_id none) _ (λ _ free.
              let key = self.fresh (map node_id ns) in
              let node : Node = record {
                id = key;
                parent_id = optional_id parent;
                name = display_for m self.names name;
                normalized_name = normalized;
                description = description;
              } in
              let same : optional_id parent ≡ parent_id =
                optional_id-key parent ∙ get_optional-key m parent_id d parent there in
              let tree = IsTree-of m d v in
              query_at s0 d _ _ (map node_id ns) refl (
                modify_at s0 d (add_node m node) _ (
                  kept_rule self s0 (add_node m node d) node (
                    set_nodes-IsValid m d _ v (record {
                      forest = IsForest-append ns node tree.forest (
                          row-Rooted ns parent tree
                            (get_optional-IsRow m parent_id d parent there));
                      distinct =
                          IsDistinct-append ns node tree.distinct
                            (rw same (free_tree_name m normalized parent_id none d free));
                    }))))))))

  target_names_rule :
      (m : Model) (node : Node) (name : Option Text)
      → Triple (At s0 s0.working) (target_names self m node name) (λ _. At s0 s0.working) (Fails s0)
  unfolding target_names
  target_names_rule m node none = pure_at s0 s0.working (node.name, node.normalized_name) refl
  target_names_rule m node (some name) =
      bind_rule (λ _. At s0 s0.working) (refuse_phrase_rule m name)
        (λ _. lift_start s0 _ _ (λ normalized _. pure_at s0 s0.working _ refl))

  -- the written row's name is free under its parent
  target_free :
      (m : Model) (node target : Node)
      → find node_id node.id (nodes m s0.working) ≡ some node
      → target.id ≡ node.id
      → check_node_name m node target s0.working ≡ ok tt
      → (k : ℕ) (n : Node) → find node_id k (nodes m s0.working) ≡ some n
      → target.id ≢ k
      → n.normalized_name ≡ target.normalized_name
      → n.parent_id ≡ target.parent_id
      → ⊥
  target_free m node target row same checked k n e ne p q =
      elim (Bool-cases (renamed node target)) [
        | inl moved ↦
            let asked : ensure_tree_name m target.normalized_name target.parent_id (some node.id)
                  s0.working
                ≡ ok tt =
              rw moved at checked in
            free_for (nodes m s0.working) target
              (free_tree_name m target.normalized_name target.parent_id (some target.id) s0.working
                (rw same asked))
              k n e ne p q
        | inr kept ↦
            let same_name : target.normalized_name ≡ node.normalized_name =
              ground (arith, text_eq_iff target.normalized_name node.normalized_name) in
            let same_parent : target.parent_id ≡ node.parent_id =
              ground (arith, option_eq_iff target.parent_id node.parent_id) in
            ne (
              same
              ∙ sym (
                  (IsTree-of m s0.working v).distinct k node.id n node e row (p ∙ same_name)
                    (q ∙ same_parent)))
      ]

  pub update_node_rule :
      (m : Model) (k : ℕ) (patch : NodePatch)
      → Triple (At s0 s0.working) (update_node self m k patch) (λ _. Kept self s0) (Fails s0)
  unfolding update_node update_tree_node write_node
  update_node_rule m k patch =
      let d = s0.working in
      let ns = nodes m d in
      query_start s0 (get_node m k) _ (λ node found.
        let row = IsRow-found ns k node (ground arith) in
        bind_rule (λ _. At s0 d) (target_names_rule m node patch.name)
          (λ name.
            let target : Node = record node {
              name = name.0;
              normalized_name = name.1;
              description = patched patch.description node.description;
              parent_id = patched patch.parent_id node.parent_id;
            } in
            query_start s0 (get_optional m target.parent_id) _ (λ parent there.
              query_start s0 _ _ (λ _ climbed.
                query_start s0 (check_node_name m node target) _ (λ _ checked.
                  if_rule s0 (node_unchanged target node) _ _
                    (λ _. kept_unchanged_rule self s0 node v)
                    (λ _.
                      let tree = IsTree-of m d v in
                      modify_at s0 d (save_node m target) _ (
                        kept_rule self s0 (save_node m target d) target (
                          set_nodes-IsValid m d _ v (record {
                            forest = IsForest-replace ns target tree.forest (
                                subst (Avoids ns node.id)
                                  (get_optional-key m target.parent_id d parent there)
                                  (check_ancestors-Avoids (enough_fuel ns) ns node.id [] parent
                                    (get_optional-IsRow m target.parent_id d parent there)
                                    climbed));
                            distinct =
                                IsDistinct-replace ns target tree.distinct
                                  (target_free m node target row refl checked);
                          })))))))))
