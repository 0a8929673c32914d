-- ===== src/Inventory/Atomic/Split.antt =====
-- `_split_for_portion` (services/inventory.py): the lot that an operation goes on with.
use ah_there_it_is.Base.{
  ℕ, ◌≡◌, refl, false, Option, none, some, List, [], ◌∷◌, map, arith, find, find-append,
  find_absent, contains,
}
use ah_there_it_is.Text.{Text}
use ah_there_it_is.Domain.States.{state_eq_removed, ok}
use ah_there_it_is.Domain.Quantity.{QuantityValue, Portion, stored, split_quantities, IsQuantity}
use ah_there_it_is.Domain.Quantity.Laws.{IsTrue, stored-IsTrue, split-Conserves}
use ah_there_it_is.Db.{Db, Item, Node, item_id, item_split, item_split_from, SplitPayload}
use ah_there_it_is.Session.{Session, Service, add_event}
use ah_there_it_is.Session.Rules.{
  Triple, At, Fails, bind_rule, exists_rule, lift_start, query_at, modify_at, flush_at, pure_at,
  if_rule,
}
use ah_there_it_is.Inventory.Items.{save_item, add_item, canonical_aliases}
use ah_there_it_is.Inventory.Moves.{
  split_for_portion, split_off, with_quantity, child_row, tag_names, alias_name, event_of,
}
use ah_there_it_is.Inventory.Valid.{
  IsOpen, IsValid, IsTruthful, Only, Nobody, IsOpen-save, IsOpen-add, IsOpen-tags, IsOpen-event,
  IsOpen-weaken, found-IsTruthful,
}
use ah_there_it_is.Inventory.Atomic.{IsFresh}
use ah_there_it_is.Inventory.Atomic.Locations.{find-save}
use ah_there_it_is.Inventory.Atomic.Tags.{link_tags_rule}

-- the lot that the operation changes, in a session whose history of that lot is still open
pub record Affected (s0 : Session) (item i : Item) (s : Session) : Type 0 where
  pub db : Db
  pub at : At s0 db s
  pub history : IsOpen (Only i.id) db
  pub row : find item_id i.id db.items ≡ some i
  pub truthful : IsTruthful i
  pub state : i.state ≡ item.state
  pub locations : db.locations ≡ s0.working.locations

-- a child of a lot that is not removed
child-IsTruthful :
    (key : ℕ) (i : Item) (q : QuantityValue)
    → IsTruthful i
    → IsTrue q
    → state_eq_removed i.state ≡ false
    → IsTruthful (child_row key i q)
child-IsTruthful key i q t h active = record {
  quantity = h;
  located = t.located;
  lifecycle = t.lifecycle;
  reason = ground arith;
  no_legacy = t.no_legacy;
}

pub lot-IsTruthful :
    (i : Item) (q : QuantityValue) → IsTruthful i → IsTrue q → IsTruthful (with_quantity i q)
lot-IsTruthful i q t h = record {
  quantity = h;
  located = t.located;
  lifecycle = t.lifecycle;
  reason = t.reason;
  no_legacy = t.no_legacy;
}

-- aliases and tags play no part
pub relinked-IsTruthful :
    (i : Item) (aliases : List ah_there_it_is.Db.Alias) (tags : List ℕ)
    → IsTruthful i
    → IsTruthful (record i { aliases = aliases; tag_ids = tags })
relinked-IsTruthful i aliases tags t = record {
  quantity = t.quantity;
  located = t.located;
  lifecycle = t.lifecycle;
  reason = t.reason;
  no_legacy = t.no_legacy;
}

-- a row with a new key is found once it is added
pub find-add :
    (i : Item) (d : Db)
    → contains (map item_id d.items) i.id ≡ false
    → find item_id i.id (add_item i d).items ≡ some i
unfolding find
find-add i d new =
    ground (arith, find-append item_id i.id d.items (i ∷ []), find_absent item_id i.id d.items)

-- the quantity of a truthful row is read as a true one
stored-IsTrue_ok :
    (i : Item) (q : QuantityValue)
    → IsQuantity i.quantity_mode i.quantity
    → stored i.quantity_mode i.quantity ≡ ok q
    → IsTrue q
stored-IsTrue_ok i q h e =
    let same : q ≡ record { mode = i.quantity_mode; value = i.quantity } =
      ground (arith, stored-IsTrue i.quantity_mode i.quantity h) in
    rw same h

module _ (self : Service) (fresh : IsFresh self) (s0 : Session) (item : Item) where
  -- the whole lot goes on
  whole_lot :
      IsValid s0.working
      → find item_id item.id s0.working.items ≡ some item
      → Affected s0 item item s0
  whole_lot v row = record {
    db = s0.working;
    at = refl;
    history = IsOpen-weaken (Only item.id) s0.working v;
    row = row;
    truthful = found-IsTruthful Nobody s0.working item.id item v row;
    state = refl;
    locations = refl;
  }

  split_off_rule :
      (before remainder q : QuantityValue) (text : Option Text)
      → IsValid s0.working
      → find item_id item.id s0.working.items ≡ some item
      → state_eq_removed item.state ≡ false
      → IsTrue remainder
      → IsTrue q
      → Triple
          (At s0 s0.working)
          (split_off self item before remainder q text)
          (Affected s0 item)
          (Fails s0)
  unfolding split_off
  split_off_rule before remainder q text v row active hr hq =
      let d = s0.working in
      let t = found-IsTruthful Nobody d item.id item v row in
      let d1 = save_item (with_quantity item remainder) d in
      let v1 =
        IsOpen-save Nobody d item (with_quantity item remainder) v
          (lot-IsTruthful item remainder t hr) row refl refl in
      let keys = map item_id d1.items in
      let child = child_row (self.fresh keys) item q in
      let tc = child-IsTruthful (self.fresh keys) item q t hq active in
      let d2 = add_item child d1 in
      let v2 = IsOpen-add d1 child v1 tc in
      modify_at s0 d _ _ (
        query_at s0 d1 _ _ keys refl (
          modify_at s0 d1 _ _ (
            flush_at s0 self d2 _ (
              query_at s0 d2 _ _ (tag_names d2.tags item.tag_ids) refl (
                bind_rule _ (link_tags_rule self s0 _ [] d2) (λ tags. exists_rule (λ ts.
                  let d3 : Db = record d2 { tags = ts } in
                  let aliases = canonical_aliases self.names [] (map alias_name item.aliases) in
                  let after : Item = record child { aliases = aliases; tag_ids = tags } in
                  let ta = relinked-IsTruthful child aliases tags tc in
                  let found = find-add child d1 (fresh keys) in
                  let v3 =
                    IsOpen-save (Only child.id) d3 child after
                      (IsOpen-tags (Only child.id) d2 ts v2) ta found refl refl in
                  let d4 = save_item after d3 in
                  let payload : SplitPayload = record {
                    source_item_id = item.id;
                    child_item_id = after.id;
                    before = before;
                    remainder = remainder;
                    child = q;
                    copied_description = item.description;
                  } in
                  let e1 = event_of item.id (item_split payload) text in
                  let e2 = event_of after.id (item_split_from payload) text in
                  modify_at s0 d3 _ _ (
                    modify_at s0 d4 _ _ (
                      modify_at s0 (add_event e1 d4) _ _ (
                        pure_at s0 (add_event e2 (add_event e1 d4)) after (record {
                          db = add_event e2 (add_event e1 d4);
                          at = refl;
                          history =
                              IsOpen-event (Only child.id) (add_event e1 d4) e2
                                (IsOpen-event (Only child.id) d4 e1 v3 refl) refl;
                          row = find-save child after d3 found;
                          truthful = ta;
                          state = refl;
                          locations = refl;
                        })))))))))))

  pub split_for_portion_rule :
      (part : Option Portion) (text : Option Text)
      → IsValid s0.working
      → find item_id item.id s0.working.items ≡ some item
      → state_eq_removed item.state ≡ false
      → ((p : Portion) → part ≡ some p → IsTrue p.quantity)
      → Triple
          (At s0 s0.working)
          (split_for_portion self item part text)
          (Affected s0 item)
          (Fails s0)
  unfolding split_for_portion
  split_for_portion_rule none text v row active true_part =
      pure_at s0 s0.working item (whole_lot v row)
  split_for_portion_rule (some p) text v row active true_part =
      let t = found-IsTruthful Nobody s0.working item.id item v row in
      lift_start s0 (stored item.quantity_mode item.quantity) _ (λ before read.
        let hb : IsTrue before = stored-IsTrue_ok item before t.quantity read in
        lift_start s0 (split_quantities before p.quantity) _ (λ split e.
          let hq = true_part p refl in
          let hr = (split-Conserves before p.quantity split.0 split.1 hb hq e).0 in
          if_rule s0 split.1 _ _ (λ _. pure_at s0 s0.working item (whole_lot v row))
            (λ _. split_off_rule before split.0 p.quantity text v row active hr hq)))
