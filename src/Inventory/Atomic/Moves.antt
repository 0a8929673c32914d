-- ===== src/Inventory/Atomic/Moves.antt =====
-- `move_item`, `take_item` and `mark_item_location_unknown` of services/inventory.py are atomic
-- and keep the inventory valid.
use ah_there_it_is.Base.{
  ℕ, ◌≡◌, refl, sym, subst, false, Option, none, some, arith, find, option_eq,
}
use ah_there_it_is.Text.{Text}
use ah_there_it_is.Domain.States.{ItemState, LocationStatus, ok, state_eq_removed, Error}
use ah_there_it_is.Domain.Quantity.{Portion, PortionInput}
use ah_there_it_is.Db.{Item, Node, Model, item_id, related, Transition, Change, Removal}
use ah_there_it_is.Session.{Session, Service, ◌>>=◌, query, guarded}
use ah_there_it_is.Session.Rules.{
  Triple, At, Fails, bind_rule, query_start, query_at, lift_start, raise_if_start, if_rule,
  guarded_rule, lift_err,
}
use ah_there_it_is.Inventory.Checks.{get_item, get_node, optional_id, ensure_nonterminal}
use ah_there_it_is.Inventory.Moves.{
  move_item, take_item, mark_item_location_unknown, requested, at_location, current_location,
  split_for_portion, relocate, has_status,
}
use ah_there_it_is.Inventory.Forest.Climb.{IsRow, related-IsRow}
use ah_there_it_is.Inventory.Valid.{
  IsOpen, IsValid, IsTruthful, Only, Nobody, IsOpen-weaken, found-IsTruthful, place_of, place_after,
}
use ah_there_it_is.Inventory.Atomic.{IsFresh, Done, unchanged_rule}
use ah_there_it_is.Inventory.Atomic.Locations.{relocate_rule}
use ah_there_it_is.Inventory.Atomic.Split.{Affected, split_for_portion_rule}
use ah_there_it_is.Inventory.Atomic.Facts.{
  IsPart, requested-IsTrue, found-item, found-node, Affected-rule, moved-IsTruthful,
}

module _ (self : Service) (fresh : IsFresh self) (s0 : Session) (v : IsValid s0.working) where
  -- from the split to the end, for the operations that work on a part of a lot
  pub part_rule :
      (item : Item) (portion : Option PortionInput) (part : Option Portion) (text : Option Text)
      (after : Item → Item) (type : Transition) (to_location : Option Node)
      (change : Item → Option (Change ItemState)) (extra : Option Removal)
      → find item_id item.id s0.working.items ≡ some item
      → state_eq_removed item.state ≡ false
      → IsPart portion
      → requested portion ≡ ok part
      → IsRow s0.working.locations to_location
      → ((i : Item) → (after i).id ≡ i.id)
      → ((i : Item) → IsTruthful i → state_eq_removed i.state ≡ false → IsTruthful (after i))
      → ((i : Item) → place_after type (optional_id to_location) ≡ place_of (after i))
      → Triple
          (At s0 s0.working)
          (guarded self (do
            affected ← split_for_portion self item part text
            old_location ← query (current_location affected)
            relocate self affected
                (after affected)
                type
                old_location
                to_location
                (change affected)
                extra
                text))
          (Done self s0)
          (Fails s0)
  part_rule item portion part text after type to_location change extra row active valid read there
        same_id true_after place =
      guarded_rule s0 self (
        bind_rule (Affected s0 item)
          (split_for_portion_rule self fresh s0 item part text v row active
            (requested-IsTrue portion part valid read))
          (λ i. Affected-rule s0 item i _ (Done self s0) (λ d still_open row' t state locations.
            let from_location = related Model.location i.current_location_id d in
            query_at s0 d (current_location i) _ from_location refl (
              relocate_rule self s0 d i i (after i) type from_location to_location (change i) extra
                text (subst (λ k. IsOpen (Only k) d) (sym (same_id i)) still_open)
                (true_after i t (ground arith))
                (subst (λ k. find item_id k d.items ≡ some i) (sym (same_id i)) row') (place i)
                (related-IsRow Model.location i.current_location_id d)
                (subst (λ ns. IsRow ns to_location) (sym locations) there)))))

  pub move_item_rule :
      (k : ℕ) (location : Option ℕ) (portion : Option PortionInput) (text : Option Text)
      → IsPart portion
      → Triple (At s0 s0.working) (move_item self k location portion text) (Done self s0) (Fails s0)
  unfolding move_item
  move_item_rule k none portion text valid = lift_err s0 Error.location_required
  move_item_rule k (some location) portion text valid = query_start s0 (get_item k) _ (λ item found.
      let row = found-item k s0.working item found in
      raise_if_start s0 (state_eq_removed item.state) Error.terminal_move _ (λ active.
        query_start s0 (get_node Model.location location) _ (λ destination there.
          if_rule s0 (option_eq item.current_location_id (some destination.id)) _ _
            (λ _. unchanged_rule self s0 item v row)
            (λ _. lift_start s0 (requested portion) _ (λ part read.
              part_rule item portion part text
                (λ i. at_location i (some destination.id) LocationStatus.known)
                Transition.item_moved (some destination) (λ _. none) none row active valid read
                (found-node Model.location location s0.working destination there) (λ i. refl)
                (λ i t a.
                  moved-IsTruthful i (some destination.id) LocationStatus.known t a refl refl)
                (λ i. refl))))))

  pub take_item_rule :
      (k : ℕ) (portion : Option PortionInput) (text : Option Text)
      → IsPart portion
      → Triple (At s0 s0.working) (take_item self k portion text) (Done self s0) (Fails s0)
  unfolding take_item ensure_nonterminal
  take_item_rule k portion text valid = query_start s0 (get_item k) _ (λ item found.
      let row = found-item k s0.working item found in
      raise_if_start s0 (state_eq_removed item.state) Error.is_removed _ (λ active.
        if_rule s0 (has_status LocationStatus.in_use item) _ _
          (λ _. unchanged_rule self s0 item v row)
          (λ _. lift_start s0 (requested portion) _ (λ part read.
            part_rule item portion part text (λ i. at_location i none LocationStatus.in_use)
              Transition.item_taken none (λ _. none) none row active valid read tt (λ i. refl)
              (λ i t a. moved-IsTruthful i none LocationStatus.in_use t a refl refl) (λ i. refl)))))

  pub mark_item_location_unknown_rule :
      (k : ℕ) (text : Option Text)
      → Triple (At s0 s0.working) (mark_item_location_unknown self k text) (Done self s0) (Fails s0)
  unfolding mark_item_location_unknown ensure_nonterminal
  mark_item_location_unknown_rule k text = query_start s0 (get_item k) _ (λ item found.
      let row = found-item k s0.working item found in
      let t = found-IsTruthful Nobody s0.working item.id item v row in
      raise_if_start s0 (state_eq_removed item.state) Error.is_removed _ (λ active.
        if_rule s0 (has_status LocationStatus.unknown item) _ _
          (λ _. unchanged_rule self s0 item v row)
          (λ _.
            let from_location = related Model.location item.current_location_id s0.working in
            query_at s0 s0.working (current_location item) _ from_location refl (
              relocate_rule self s0 s0.working item item
                (at_location item none LocationStatus.unknown) Transition.item_location_unknown
                from_location none none none text (IsOpen-weaken (Only item.id) s0.working v)
                (moved-IsTruthful item none LocationStatus.unknown t active refl refl) row refl
                (related-IsRow Model.location item.current_location_id s0.working) tt))))
