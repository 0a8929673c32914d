-- ===== src/Inventory/Atomic/Lifecycle.antt =====
-- `remove_item`, `restore_item` and `change_item_quantity` of services/inventory.py are atomic and
-- keep the inventory valid.
use ah_there_it_is.Base.{ℕ, refl, Option, none, some, not}
use ah_there_it_is.Text.{Text}
use ah_there_it_is.Domain.States.{state_eq_removed, is_terminal, Error}
use ah_there_it_is.Domain.Quantity.{ℤ, PortionInput, coerce, validated_reason, stored}
use ah_there_it_is.Domain.Quantity.Laws.{coerce-IsTrue}
use ah_there_it_is.Db.{Model, Transition, item_quantity_changed}
use ah_there_it_is.Session.{Session, Service, add_event}
use ah_there_it_is.Session.Rules.{
  Triple, At, Fails, query_start, lift_start, raise_if_start, if_rule, guarded_rule, modify_at,
}
use ah_there_it_is.Inventory.Checks.{get_item, get_optional, coerce_state, ensure_nonterminal}
use ah_there_it_is.Inventory.Items.{save_item}
use ah_there_it_is.Inventory.Moves.{
  remove_item, restore_item, change_item_quantity, requested, removed_row, restored_row,
  with_quantity, removed_change, quantity_same, event_of,
}
use ah_there_it_is.Inventory.Valid.{
  IsValid, Only, Nobody, IsOpen-weaken, found-IsTruthful, IsOpen-save, IsOpen-event,
}
use ah_there_it_is.Inventory.Atomic.{IsFresh, Done, unchanged_rule, commit_rule}
use ah_there_it_is.Inventory.Atomic.Locations.{relocate_rule, find-save}
use ah_there_it_is.Inventory.Atomic.Split.{lot-IsTruthful}
use ah_there_it_is.Inventory.Atomic.Facts.{
  IsPart, found-item, get_optional-IsRow, restored_place, removed-IsTruthful, restored-IsTruthful,
}
use ah_there_it_is.Inventory.Atomic.Moves.{part_rule}

module _ (self : Service) (fresh : IsFresh self) (s0 : Session) (v : IsValid s0.working) where
  pub remove_item_rule :
      (k : ℕ) (reason source : Text) (portion : Option PortionInput) (text : Option Text)
      → IsPart portion
      → Triple
          (At s0 s0.working)
          (remove_item self k reason source portion text)
          (Done self s0)
          (Fails s0)
  unfolding remove_item ensure_nonterminal
  remove_item_rule k reason source portion text valid =
      lift_start s0 (validated_reason reason source) _ (λ checked _.
        query_start s0 (get_item k) _ (λ item found.
          let row = found-item k s0.working item found in
          raise_if_start s0 (state_eq_removed item.state) Error.is_removed _ (λ active.
            lift_start s0 (requested portion) _ (λ part read.
              part_rule self fresh s0 v item portion part text (λ i. removed_row i checked.0)
                Transition.item_removed none (λ i. some (removed_change i)) _ row active valid read
                tt (λ i. refl) (λ i t a. removed-IsTruthful i checked.0 t) (λ i. refl)))))

  pub restore_item_rule :
      (k : ℕ) (state : Text) (location : Option ℕ) (text : Option Text)
      → Triple
          (At s0 s0.working)
          (restore_item self k state location text)
          (Done self s0)
          (Fails s0)
  unfolding restore_item
  restore_item_rule k state location text = query_start s0 (get_item k) _ (λ item found.
      let row = found-item k s0.working item found in
      let t = found-IsTruthful Nobody s0.working item.id item v row in
      raise_if_start s0 (not (state_eq_removed item.state)) Error.not_removed _ (λ _.
        lift_start s0 (coerce_state state) _ (λ target _.
          raise_if_start s0 (is_terminal target) Error.terminal_restore _ (λ active.
            query_start s0 (get_optional Model.location location) _ (λ destination there.
              relocate_rule self s0 s0.working item item (restored_row item target destination)
                Transition.item_restored none destination _ _ text
                (IsOpen-weaken (Only item.id) s0.working v)
                (restored-IsTruthful item target destination t active) row
                (restored_place item target destination) tt
                (get_optional-IsRow Model.location location s0.working destination there))))))

  pub change_item_quantity_rule :
      (k : ℕ) (mode : Text) (value : Option ℤ) (reason source : Text) (text : Option Text)
      → Triple
          (At s0 s0.working)
          (change_item_quantity self k mode value reason source text)
          (Done self s0)
          (Fails s0)
  unfolding change_item_quantity
  change_item_quantity_rule k mode value reason source text =
      lift_start s0 (coerce mode value) _ (λ after read.
        lift_start s0 (validated_reason reason source) _ (λ checked _.
          query_start s0 (get_item k) _ (λ item found.
            let row = found-item k s0.working item found in
            let t = found-IsTruthful Nobody s0.working item.id item v row in
            lift_start s0 (stored item.quantity_mode item.quantity) _ (λ before _.
              if_rule s0 (quantity_same before after) _ _ (λ _. unchanged_rule self s0 item v row)
                (λ _.
                  let d = s0.working in
                  let changed = with_quantity item after in
                  let v' =
                    IsOpen-save Nobody d item changed v
                      (lot-IsTruthful item after t (coerce-IsTrue mode value after read).0) row refl
                      refl in
                  let e =
                    event_of item.id (item_quantity_changed before after checked.0 checked.1)
                      text in
                  guarded_rule s0 self (
                    modify_at s0 d _ _ (
                      modify_at s0 (save_item changed d) _ _ (
                        commit_rule self s0 (add_event e (save_item changed d)) changed
                          (IsOpen-event Nobody (save_item changed d) e v' refl)
                          (find-save item changed d row)))))))))
