-- ===== src/Inventory/Progress/Restore.antt =====
-- services/inventory.py: an item that is removed and then restored is the item that it was.
use ah_there_it_is.Base.{
  Option-cases, find-key, inl, inr, ℕ, ◌≡◌, refl, sym, ap, ◌∙◌, subst, true, false, Option, none,
  some, find, replace, List, find-replace, arith, is_some, ◌==◌,
}
use ah_there_it_is.Text.{Text}
use ah_there_it_is.Domain.States.{
  Result, ok, LocationStatus, status_index, ItemState, state_eq_removed, is_terminal,
}
use ah_there_it_is.Domain.Quantity.{validated_reason, ReasonSource}
use ah_there_it_is.Db.{Db, Item, Node, Model, Event, Transition, item_id, node_id, related}
use ah_there_it_is.Session.{Session, Service, add_event}
use ah_there_it_is.Inventory.Checks.{ensure_nonterminal, coerce_state, get_optional, optional_id}
use ah_there_it_is.Inventory.Items.{save_item, status_at}
use ah_there_it_is.Inventory.Moves.{
  remove_item, restore_item, removed_row, restored_row, split_for_portion, removed_change, removal,
  restored_change, restored_reason, has_status,
}
use ah_there_it_is.Inventory.Forest.{IsForest}
use ah_there_it_is.Inventory.Forest.Climb.{IsRow-found, related-IsRow, IsRow}
use ah_there_it_is.Inventory.Valid.{IsValid, IsTruthful, found-IsTruthful, Nobody}
use ah_there_it_is.Inventory.Progress.{
  Accepts, settled, query_ok, lift_ok, after_ok, raise_if_ok, guarded_ok, relocate_succeeds,
}

module _ (self : Service) (all : Accepts self) (k : ℕ) (text : Option Text) where
  remove_item_succeeds :
      (s : Session) (i : Item) (reason source compact : Text) (by : ReasonSource)
      → IsForest s.working.locations
      → find item_id k s.working.items ≡ some i
      → state_eq_removed i.state ≡ false
      → validated_reason reason source ≡ ok (compact, by)
      → (e : Event) × (remove_item self k reason source none text s ≡ (
        ok (removed_row i compact),
        settled self s (add_event e (save_item (removed_row i compact) s.working)),
      ))
  unfolding remove_item split_for_portion ensure_nonterminal
  remove_item_succeeds s i reason source compact by forest found present named =
      let from = related Model.location i.current_location_id s.working in
      let after = removed_row i compact in
      let (p, q, left, reached, done) =
        relocate_succeeds self all s forest i after Transition.item_removed from none
          (some (removed_change i)) (some (removal compact by)) text
          (related-IsRow Model.location i.current_location_id s.working) tt in
      (
        _,
        lift_ok _ _ s (compact, by) named
            ∙ query_ok _ _ s i (rw found refl)
            ∙ raise_if_ok _ s _ _ present
            ∙ lift_ok _ _ s none refl
            ∙ guarded_ok self _ s _ after
                (after_ok _ _ s s i refl ∙ query_ok _ _ s from refl ∙ done),
      )

  restore_item_succeeds :
      (s : Session) (i : Item) (name : Text) (state : ItemState) (location : Option ℕ)
      (to : Option Node)
      → IsForest s.working.locations
      → find item_id k s.working.items ≡ some i
      → state_eq_removed i.state ≡ true
      → coerce_state name ≡ ok state
      → is_terminal state ≡ false
      → get_optional Model.location location s.working ≡ ok to
      → IsRow s.working.locations to
      → (e : Event) × (restore_item self k name location text s ≡ (
        ok (restored_row i state to),
        settled self s (add_event e (save_item (restored_row i state to) s.working)),
      ))
  unfolding restore_item
  restore_item_succeeds s i name state location to forest found gone named alive there row =
      let (p, q, left, reached, done) =
        relocate_succeeds self all s forest i (restored_row i state to) Transition.item_restored
          none to (some (restored_change state)) (some (restored_reason i)) text tt row in
      (
        _,
        query_ok _ _ s i (rw found refl)
            ∙ raise_if_ok _ s _ _ (rw gone refl)
            ∙ lift_ok _ _ s state named
            ∙ raise_if_ok _ s _ _ alive
            ∙ query_ok _ _ s to there
            ∙ done,
      )

-- what `_get_optional` returns is the row that was asked for
get_optional-IsRow :
    (d : Db) (location : Option ℕ) (to : Option Node)
    → get_optional Model.location location d ≡ ok to
    → IsRow d.locations to × (optional_id to ≡ location)
unfolding get_optional
get_optional-IsRow d none to e = let q : to ≡ none = ground arith in rw q (tt, refl)
get_optional-IsRow d (some l) to e = elim (Option-cases (find node_id l d.locations)) [
  | inl f ↦ absurd (ground arith)
  | inr (n, f) ↦
      let q : to ≡ some n = ground arith in
      rw q (IsRow-found d.locations l n f, ap some (find-key node_id l n d.locations f))
]

-- the lookup reads the locations only
get_optional_same :
    (d d' : Db) (location : Option ℕ)
    → d'.locations ≡ d.locations
    → get_optional Model.location location d' ≡ get_optional Model.location location d
unfolding get_optional
get_optional_same d d' none e = refl
get_optional_same d d' (some l) e = rw e refl

-- the restored row is the row before the removal
restored_same :
    (i : Item) (compact : Text) (to : Option Node)
    → i.removal_reason ≡ none
    → optional_id to ≡ i.current_location_id
    → i.location_status ≡ status_at to
    → restored_row (removed_row i compact) i.state to ≡ i
restored_same i compact to r l t = cc

-- a place is known or unknown, if the item is neither in use nor removed
status_match :
    (x : LocationStatus) (to : Option Node)
    → is_some (optional_id to) ≡ (status_index x == 0)
    → (status_index x == 2) ≡ false
    → (status_index x == 3) ≡ false
    → x ≡ status_at to
status_match LocationStatus.known none p q r = absurd (ground arith)
status_match LocationStatus.known (some n) p q r = refl
status_match LocationStatus.unknown none p q r = refl
status_match LocationStatus.unknown (some n) p q r = absurd (ground arith)
status_match LocationStatus.in_use to p q r = absurd (ground arith)
status_match LocationStatus.not_applicable to p q r = absurd (ground arith)

status_of :
    (i : Item) (to : Option Node)
    → IsTruthful i
    → state_eq_removed i.state ≡ false
    → has_status LocationStatus.in_use i ≡ false
    → optional_id to ≡ i.current_location_id
    → i.location_status ≡ status_at to
status_of i to t present idle l =
    status_match i.location_status to (ap is_some l ∙ t.located) idle (sym t.lifecycle ∙ present)

reason_of : (i : Item) → IsTruthful i → state_eq_removed i.state ≡ false → i.removal_reason ≡ none
reason_of i t present = elim (Option-cases i.removal_reason) [
  | inl e ↦ e
  | inr (x, e) ↦
      let e' : is_some i.removal_reason ≡ false = t.reason ∙ present in absurd (ground arith)
]

-- writing a row twice, the second time as it was
written_back :
    (i i' : Item) (items : List Item) (j : ℕ)
    → i'.id ≡ i.id
    → find item_id i.id items ≡ some i
    → find item_id j (replace item_id i (replace item_id i' items)) ≡ find item_id j items
written_back i i' items j same found =
    ground
      (arith, find-replace item_id j i (replace item_id i' items), find-replace item_id j i' items)

-- On a valid inventory, with a database that accepts what is written, an item that is neither removed
-- nor in use is removed, with a valid reason, and restored to its state and its location: both calls
-- return, the second returns the row as it was before, and every key finds the row that it found.
pub remove_then_restore :
    (self : Service) (s : Session) (k : ℕ) (i : Item) (to : Option Node)
    (name reason source compact : Text) (by : ReasonSource) (text text2 : Option Text)
    → Accepts self
    → IsValid s.working
    → find item_id k s.working.items ≡ some i
    → state_eq_removed i.state ≡ false
    → has_status LocationStatus.in_use i ≡ false
    → get_optional Model.location i.current_location_id s.working ≡ ok to
    → validated_reason reason source ≡ ok (compact, by)
    → coerce_state name ≡ ok i.state
    → (let (r, t) = remove_item self k reason source none text s in
        let (r2, u) = restore_item self k name i.current_location_id text2 t in
        (r ≡ ok (removed_row i compact))
        × (r2 ≡ ok i)
        × ((j : ℕ) → find item_id j u.working.items ≡ find item_id j s.working.items))
remove_then_restore self s k i to name reason source compact by text text2 all v found present idle
      there named state =
    let t = found-IsTruthful Nobody s.working k i v found in
    let (row, key) = get_optional-IsRow s.working i.current_location_id to there in
    let gone = removed_row i compact in
    let (e, removed) =
      remove_item_succeeds self all k text s i reason source compact by v.locations.forest found
        present named in
    let s1 = settled self s (add_event e (save_item gone s.working)) in
    let id_of : i.id ≡ k = find-key item_id k i s.working.items found in
    let stored_gone : find item_id k s1.working.items ≡ some gone =
      ground (arith, find-replace item_id k gone s.working.items) in
    let (e2, restored) =
      restore_item_succeeds self all k text2 s1 gone name i.state i.current_location_id to
        v.locations.forest stored_gone refl state (t.no_legacy ∙ present)
        (get_optional_same s.working s1.working i.current_location_id refl ∙ there) row in
    let same =
      restored_same i compact to (reason_of i t present) key (status_of i to t present idle key) in
    let put_back : restore_item self k name i.current_location_id text2 s1
        ≡ (ok i, settled self s1 (add_event e2 (save_item i s1.working))) =
      subst
        (λ x.
          restore_item self k name i.current_location_id text2 s1
          ≡ (ok x, settled self s1 (add_event e2 (save_item x s1.working))))
        same restored in
    subst
      (λ (x : Result Item × Session).
        let (r2, u) = restore_item self k name i.current_location_id text2 x.1 in
        (x.0 ≡ ok gone)
        × (r2 ≡ ok i)
        × ((j : ℕ) → find item_id j u.working.items ≡ find item_id j s.working.items))
      (sym removed)
      (subst
        (λ (y : Result Item × Session).
          (ok gone ≡ ok gone)
          × (y.0 ≡ ok i)
          × ((j : ℕ) → find item_id j y.1.working.items ≡ find item_id j s.working.items))
        (sym put_back)
        (
          refl,
          refl,
          λ j.
              written_back i gone s.working.items j refl
                (ap (λ m. find item_id m s.working.items) id_of ∙ found),
        ))
