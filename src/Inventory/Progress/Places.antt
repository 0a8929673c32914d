-- ===== src/Inventory/Progress/Places.antt =====
-- services/inventory.py: moving an item, taking it, and losing track of it.
use ah_there_it_is.Base.{ℕ, ◌≡◌, refl, ap, ◌∙◌, false, Option, none, some, find, option_eq}
use ah_there_it_is.Text.{Text}
use ah_there_it_is.Domain.States.{Result, ok, LocationStatus, state_eq_removed}
use ah_there_it_is.Db.{Item, Node, Model, HistoryPath, Transition, item_id, node_id, related}
use ah_there_it_is.Session.{Session, Service, add_event}
use ah_there_it_is.Inventory.Checks.{ensure_nonterminal, history_path}
use ah_there_it_is.Inventory.Items.{save_item}
use ah_there_it_is.Inventory.Moves.{
  move_item, take_item, mark_item_location_unknown, at_location, split_for_portion, has_status,
}
use ah_there_it_is.Inventory.Forest.Climb.{IsRow-found, related-IsRow}
use ah_there_it_is.Inventory.Valid.{IsValid}
use ah_there_it_is.Inventory.Progress.{
  Accepts, settled, query_ok, lift_ok, after_ok, raise_if_ok, else_ok, guarded_ok, transition_event,
  relocate_succeeds,
}

-- what an operation leaves behind that changes the place of the item `before` and says so, with the
-- history paths of the place it left and the one it reached
abbrev pub Placed :
    Service
    → Session
    → Item
    → Item
    → Transition
    → Option Node
    → Option Text
    → Result Item
    → Session
    → Type 0
Placed self s before after type to text r t =
    (p : HistoryPath) × (q : HistoryPath) × (history_path Model.location
        (related Model.location before.current_location_id s.working) s.working
      ≡ ok p)
    × (history_path Model.location to s.working ≡ ok q)
    × (r ≡ ok after)
    × (t
        ≡ settled self s (
            add_event
              (transition_event before after type
                (related Model.location before.current_location_id s.working) to p q none none text)
              (save_item after s.working)))

module _ (self : Service) (s : Session) (k : ℕ) (i : Item) (text : Option Text) where
  -- When the database accepts what is written, a stored item that is not removed and not there
  -- already is moved as a whole to a stored location of a valid inventory: it is returned and stored
  -- at the location with the status known, and one event is added that gives the move with the
  -- history paths of both places.
  pub move_item_succeeds :
      (location : ℕ) (n : Node)
      → Accepts self
      → IsValid s.working
      → find item_id k s.working.items ≡ some i
      → find node_id location s.working.locations ≡ some n
      → state_eq_removed i.state ≡ false
      → option_eq i.current_location_id (some n.id) ≡ false
      → (let (r, t) = move_item self k (some location) none text s in
          Placed self s i
            (at_location i (some n.id) LocationStatus.known)
            Transition.item_moved
            (some n)
            text
            r
            t)
  unfolding move_item split_for_portion
  move_item_succeeds location n all v found there present elsewhere =
      let from = related Model.location i.current_location_id s.working in
      let after = at_location i (some n.id) LocationStatus.known in
      let (p, q, left, reached, done) =
        relocate_succeeds self all s v.locations.forest i after Transition.item_moved from (some n)
          none none text (related-IsRow Model.location i.current_location_id s.working)
          (IsRow-found s.working.locations location n there) in
      let run : move_item self k (some location) none text s ≡ _ =
        query_ok _ _ s i (rw found refl)
        ∙ raise_if_ok _ s _ _ present
        ∙ query_ok _ _ s n (rw there refl)
        ∙ else_ok _ _ _ s elsewhere
        ∙ lift_ok _ _ s none refl
        ∙ guarded_ok self _ s _ after (after_ok _ _ s s i refl ∙ query_ok _ _ s from refl ∙ done) in
      (p, q, left, reached, ap (λ x. x.0) run, ap (λ x. x.1) run)

  -- When the database accepts what is written, a stored item that is not removed and not in use is
  -- taken as a whole: it is returned and stored without a location, in use, and one event is added that
  -- gives the place it was taken from.
  pub take_item_succeeds :
      Accepts self
      → IsValid s.working
      → find item_id k s.working.items ≡ some i
      → state_eq_removed i.state ≡ false
      → has_status LocationStatus.in_use i ≡ false
      → (let (r, t) = take_item self k none text s in
          Placed self s i
            (at_location i none LocationStatus.in_use)
            Transition.item_taken
            none
            text
            r
            t)
  unfolding take_item split_for_portion ensure_nonterminal
  take_item_succeeds all v found present idle =
      let from = related Model.location i.current_location_id s.working in
      let after = at_location i none LocationStatus.in_use in
      let (p, q, left, reached, done) =
        relocate_succeeds self all s v.locations.forest i after Transition.item_taken from none none
          none text (related-IsRow Model.location i.current_location_id s.working) tt in
      let run : take_item self k none text s ≡ _ =
        query_ok _ _ s i (rw found refl)
        ∙ raise_if_ok _ s _ _ present
        ∙ else_ok _ _ _ s idle
        ∙ lift_ok _ _ s none refl
        ∙ guarded_ok self _ s _ after (after_ok _ _ s s i refl ∙ query_ok _ _ s from refl ∙ done) in
      (p, q, left, reached, ap (λ x. x.0) run, ap (λ x. x.1) run)

  -- When the database accepts what is written, a stored item that is not removed and whose place is not
  -- unknown already loses its place: it is returned and stored without a location, as unknown, and one
  -- event is added that gives the place it had.
  pub mark_item_location_unknown_succeeds :
      Accepts self
      → IsValid s.working
      → find item_id k s.working.items ≡ some i
      → state_eq_removed i.state ≡ false
      → has_status LocationStatus.unknown i ≡ false
      → (let (r, t) = mark_item_location_unknown self k text s in
          Placed self s i
            (at_location i none LocationStatus.unknown)
            Transition.item_location_unknown
            none
            text
            r
            t)
  unfolding mark_item_location_unknown ensure_nonterminal
  mark_item_location_unknown_succeeds all v found present placed =
      let from = related Model.location i.current_location_id s.working in
      let after = at_location i none LocationStatus.unknown in
      let (p, q, left, reached, done) =
        relocate_succeeds self all s v.locations.forest i after Transition.item_location_unknown
          from none none none text (related-IsRow Model.location i.current_location_id s.working)
          tt in
      let run : mark_item_location_unknown self k text s ≡ _ =
        query_ok _ _ s i (rw found refl)
        ∙ raise_if_ok _ s _ _ present
        ∙ else_ok _ _ _ s placed
        ∙ query_ok _ _ s from refl
        ∙ done in
      (p, q, left, reached, ap (λ x. x.0) run, ap (λ x. x.1) run)
