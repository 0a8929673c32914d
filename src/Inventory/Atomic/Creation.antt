-- ===== src/Inventory/Atomic/Creation.antt =====
-- `create_item` and `update_item` of services/inventory.py are atomic and keep the inventory valid.
use ah_there_it_is.Base.{
  ℕ, ◌≡◌, refl, ap, sym, ◌∙◌, false, ◌&&◌, not, Option, none, some, List, [], map, arith, find,
  option_eq,
}
use ah_there_it_is.Text.{Text}
use ah_there_it_is.Domain.States.{ItemState, Error, is_terminal, state_eq_removed}
use ah_there_it_is.Domain.Quantity.{QuantityValue, coerce}
use ah_there_it_is.Domain.Quantity.Laws.{IsTrue, coerce-IsTrue}
use ah_there_it_is.Db.{Db, Item, Alias, Node, Model, item_id}
use ah_there_it_is.Session.{Session, Service, add_event}
use ah_there_it_is.Session.Rules.{
  Triple, At, Fails, bind_rule, exists_rule, query_start, query_at, lift_start, raise_if_start,
  modify_at, flush_at, pure_at, if_rule,
}
use ah_there_it_is.Inventory.Checks.{
  get_item, get_optional, normalized_nonblank, coerce_state, history_path, optional_id,
}
use ah_there_it_is.Inventory.Items.{
  NewItem, new_row, insert_item, create_item, created_event, save_item, add_item, canonical_aliases,
  ItemPatch, Target, apply_target, becomes_terminal, state_same, any_change, changes_of,
  alias_change, tag_change,
}
use ah_there_it_is.Inventory.Updates.{
  update_item, write_item, category_evidence, aliases_after, tags_after, updated_event, target_name,
  target_category, target_state,
}
use ah_there_it_is.Inventory.Forest.Climb.{IsRow, history_path_total}
use ah_there_it_is.Inventory.Valid.{
  IsValid, IsTruthful, Only, Nobody, place_at, place_of, IsOpen-add, IsOpen-tags, IsOpen-relocate,
  IsOpen-save, IsOpen-event, found-IsTruthful,
}
use ah_there_it_is.Inventory.Atomic.{IsFresh, Done, unchanged_rule, commit_rule}
use ah_there_it_is.Inventory.Atomic.Locations.{find-save}
use ah_there_it_is.Inventory.Atomic.Tags.{TagsAdded, link_tags_rule}
use ah_there_it_is.Inventory.Atomic.Split.{find-add, relinked-IsTruthful}
use ah_there_it_is.Inventory.Atomic.Facts.{get_optional-IsRow, found-item}

new-IsTruthful :
    (key : ℕ) (args : NewItem) (display normalized : Text) (state : ItemState)
    (category location : Option Node) (q : QuantityValue)
    → is_terminal state ≡ false
    → IsTrue q
    → IsTruthful (new_row key args display normalized state category location q)
new-IsTruthful key args display normalized state category none q active h = record {
  quantity = h;
  located = refl;
  lifecycle = ground arith;
  reason = ground arith;
  no_legacy = ground arith;
}
new-IsTruthful key args display normalized state category (some n) q active h = record {
  quantity = h;
  located = refl;
  lifecycle = ground arith;
  reason = ground arith;
  no_legacy = ground arith;
}

new_place :
    (key : ℕ) (args : NewItem) (display normalized : Text) (state : ItemState)
    (category location : Option Node) (q : QuantityValue)
    → place_at (optional_id location)
      ≡ place_of (new_row key args display normalized state category location q)
new_place key args display normalized state category none q = refl
new_place key args display normalized state category (some n) q = refl

module _ (self : Service) (fresh : IsFresh self) (s0 : Session) (v : IsValid s0.working) where
  insert_item_rule :
      (args : NewItem) (display normalized : Text) (state : ItemState)
      (category location : Option Node) (q : QuantityValue)
      → is_terminal state ≡ false
      → IsTrue q
      → IsRow s0.working.categories category
      → IsRow s0.working.locations location
      → Triple
          (At s0 s0.working)
          (insert_item self args display normalized state category location q)
          (Done self s0)
          (Fails s0)
  unfolding insert_item
  insert_item_rule args display normalized state category location q active h category_row
        location_row =
      let d = s0.working in
      let keys = map item_id d.items in
      let row = new_row (self.fresh keys) args display normalized state category location q in
      let t =
        new-IsTruthful (self.fresh keys) args display normalized state category location q active
          h in
      let d1 = add_item row d in
      query_at s0 d _ _ keys refl (
        modify_at s0 d _ _ (
          flush_at s0 self d1 _ (
            bind_rule (λ _. TagsAdded self s0 d1) (link_tags_rule self s0 args.tags [] d1)
              (λ tags. exists_rule (λ ts.
                let d2 : Db = record d1 { tags = ts } in
                let aliases = canonical_aliases self.names [] args.aliases in
                let item : Item = record row { aliases = aliases; tag_ids = tags } in
                let d3 = save_item item d2 in
                let (to_location, l_ok) =
                  history_path_total Model.location d3 location v.locations.forest location_row in
                let (to_category, c_ok) =
                  history_path_total Model.category d3 category v.categories.forest category_row in
                let e = created_event item q to_location to_category args.original_text in
                modify_at s0 d2 _ _ (
                  query_at s0 d3 (history_path Model.location location) _ to_location l_ok (
                    query_at s0 d3 (history_path Model.category category) _ to_category c_ok (
                      modify_at s0 d3 _ _ (
                        commit_rule self s0 (add_event e d3) item
                          (IsOpen-relocate d2 item e
                            (IsOpen-tags (Only row.id) d1 ts (IsOpen-add d row v t))
                            (relinked-IsTruthful row aliases tags t) refl
                            (ap some (
                              new_place (self.fresh keys) args display normalized state category
                                location q)))
                          (find-save row item d2 (find-add row d (fresh keys))))))))))))

  pub create_item_rule :
      (args : NewItem) → Triple (At s0 s0.working) (create_item self args) (Done self s0) (Fails s0)
  unfolding create_item
  create_item_rule args = lift_start s0 (coerce args.quantity_mode args.quantity) _ (λ q read.
      lift_start s0 (normalized_nonblank self.names (self.names.display_name args.name)) _
        (λ normalized _.
          query_start s0 (get_optional Model.category args.category_id) _
            (λ category category_there.
              query_start s0 (get_optional Model.location args.location_id) _
                (λ location location_there. query_start s0 _ _ (λ _ _.
                  lift_start s0 (coerce_state args.state) _ (λ state _.
                    raise_if_start s0 (is_terminal state) Error.terminal_create _ (λ active.
                      insert_item_rule args (self.names.display_name args.name) normalized state
                        category location q active
                        (coerce-IsTrue args.quantity_mode args.quantity q read).0
                        (get_optional-IsRow Model.category args.category_id s0.working category
                          category_there)
                        (get_optional-IsRow Model.location args.location_id s0.working location
                          location_there))))))))

-- two states of which neither is left or entered as a terminal one agree on what is terminal
guarded_states :
    (a b : ItemState)
    → (is_terminal a && not (state_same b a)) ≡ false
    → (is_terminal b && not (state_same b a)) ≡ false
    → (is_terminal b ≡ is_terminal a) × (state_eq_removed b ≡ state_eq_removed a)
guarded_states a b h k = ground arith

patched-IsTruthful :
    (i : Item) (t : Target) (aliases : List Alias) (tags : List ℕ)
    → IsTruthful i
    → becomes_terminal i t ≡ false
    → (is_terminal t.state ≡ is_terminal i.state)
      × (state_eq_removed t.state ≡ state_eq_removed i.state)
    → IsTruthful (record (apply_target i t) { aliases = aliases; tag_ids = tags })
unfolding apply_target
patched-IsTruthful i t aliases tags h stays (terminal, removed) = record {
  quantity = h.quantity;
  located = rw stays h.located;
  lifecycle = rw stays (removed ∙ h.lifecycle);
  reason = h.reason ∙ sym removed;
  no_legacy = terminal ∙ h.no_legacy ∙ sym removed;
}

patched_id : (i : Item) (t : Target) → (apply_target i t).id ≡ i.id
unfolding apply_target
patched_id i t = refl

patched_found :
    (i : Item) (t : Target) (j : Item) (d : Db)
    → find item_id i.id d.items ≡ some i
    → j.id ≡ i.id
    → find item_id j.id (save_item j d).items ≡ some j
patched_found i t j d row same = find-save i j d (rw same row)

not_becoming :
    (i : Item) (t : Target)
    → (is_terminal t.state && not (state_same t.state i.state)) ≡ false
    → becomes_terminal i t ≡ false
not_becoming i t h = ground arith

patched_place :
    (i : Item) (t : Target)
    → becomes_terminal i t ≡ false
    → place_of (apply_target i t) ≡ place_of i
unfolding apply_target
patched_place i t stays = rw stays

module _ (self : Service) (s0 : Session) where
  category_evidence_rule :
      (i : Item) (t : Target)
      → Triple (At s0 s0.working) (category_evidence i t) (λ _. At s0 s0.working) (Fails s0)
  unfolding category_evidence
  category_evidence_rule i t =
      if_rule s0 (option_eq t.category_id i.category_id) _ _ (λ _. pure_at s0 s0.working none refl)
        (λ _. query_start s0 _ _ (λ before _.
          query_start s0 _ _ (λ after _. pure_at s0 s0.working (some (before, after)) refl)))

  tags_after_rule :
      (i : Item) (tags : Option (List Text)) (d : Db)
      → Triple (At s0 d) (tags_after self i tags) (λ _. TagsAdded self s0 d) (Fails s0)
  unfolding tags_after
  tags_after_rule i none d = pure_at s0 d i.tag_ids (d.tags, refl)
  tags_after_rule i (some values) d = link_tags_rule self s0 values [] d

  write_item_rule :
      (patch : ItemPatch) (i : Item) (t : Target)
      → IsValid s0.working
      → find item_id i.id s0.working.items ≡ some i
      → (is_terminal i.state && not (state_same t.state i.state)) ≡ false
      → (is_terminal t.state && not (state_same t.state i.state)) ≡ false
      → Triple (At s0 s0.working) (write_item self patch i t) (Done self s0) (Fails s0)
  unfolding write_item
  write_item_rule patch i t v row p q =
      let d = s0.working in
      let stays = not_becoming i t q in
      let truthful = found-IsTruthful Nobody d i.id i v row in
      let tags = tag_change self.names i patch.tags d in
      let aliases = alias_change self.names i patch.aliases in
      let changes = changes_of i t aliases tags in
      bind_rule (λ _. At s0 d) (category_evidence_rule i t)
        (λ evidence. query_at s0 d _ _ tags refl (
          if_rule s0 (not (any_change changes)) _ _ (λ _. unchanged_rule self s0 i v row)
            (λ _.
              bind_rule (λ _. TagsAdded self s0 d) (tags_after_rule i tags d)
                (λ tag_ids. exists_rule (λ ts.
                  let d1 : Db = record d { tags = ts } in
                  let item : Item = record (apply_target i t) {
                    aliases = aliases_after self.names i aliases;
                    tag_ids = tag_ids;
                  } in
                  let e = updated_event i changes evidence patch.original_text in
                  let v1 =
                    IsOpen-save Nobody d1 i item (IsOpen-tags Nobody d ts v)
                      (patched-IsTruthful i t (aliases_after self.names i aliases) tag_ids truthful
                        stays (guarded_states i.state t.state p q))
                      row (patched_id i t) (patched_place i t stays) in
                  modify_at s0 d1 _ _ (
                    modify_at s0 (save_item item d1) _ _ (
                      commit_rule self s0 (add_event e (save_item item d1)) item
                        (IsOpen-event Nobody (save_item item d1) e v1 refl)
                        (patched_found i t item d1 row (patched_id i t)))))))))

  pub update_item_rule :
      (k : ℕ) (patch : ItemPatch)
      → IsValid s0.working
      → Triple (At s0 s0.working) (update_item self k patch) (Done self s0) (Fails s0)
  unfolding update_item
  update_item_rule k patch v = query_start s0 (get_item k) _ (λ i found.
      lift_start s0 (target_name self.names i patch.name) _ (λ name _.
        query_start s0 (target_category i patch.category_id) _ (λ category _.
          lift_start s0 (target_state i patch.state) _ (λ state _.
            raise_if_start s0 (is_terminal i.state && not (state_same state i.state)) _ _ (λ p.
              raise_if_start s0 (is_terminal state && not (state_same state i.state)) _ _ (λ q.
                query_start s0 _ _
                  (λ _ _. write_item_rule patch i _ v (found-item k s0.working i found) p q)))))))
