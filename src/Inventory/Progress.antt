-- ===== src/Inventory/Progress.antt =====
-- services/inventory.py: the movement operations succeed on a valid inventory when the database
-- accepts what they write.
pub mod Places
pub mod Restore
use ah_there_it_is.Base.{
  ℕ, ◌≡◌, refl, sym, ap, ◌∙◌, Bool, true, false, Option, none, some, find, if◌then◌else◌,
  Bool-cases, inl, inr,
}
use ah_there_it_is.Text.{Text}
use ah_there_it_is.Domain.States.{
  Error, Result, ok, err, LocationStatus, ItemState, state_eq_removed,
}
use ah_there_it_is.Db.{
  Db, Item, Node, Model, Event, nodes, HistoryPath, Transition, Change, item_transition, Removal,
  item_id, node_id, related,
}
use ah_there_it_is.Session.{
  M, Session, Service, ◌>>=◌, query, lift, raise_if, modify, commit, flush, guarded, pure,
  add_event,
}
use ah_there_it_is.Inventory.Checks.{history_path, optional_id}
use ah_there_it_is.Inventory.Items.{save_item}
use ah_there_it_is.Inventory.Moves.{
  relocate, record_location_transition, state_change_of, move_item, take_item, current_location,
  at_location, split_for_portion, requested, has_status, mark_item_location_unknown,
}
use ah_there_it_is.Inventory.Forest.Climb.{IsRow, IsRow-found, history_path_total, related-IsRow}
use ah_there_it_is.Inventory.Forest.{IsForest}

-- the database accepts whatever is written
abbrev pub Accepts : Service → Type 0
Accepts self = (d : Db) → self.accepts d ≡ true

-- the session after a successful operation that wrote `d`
abbrev pub settled : Service → Session → Db → Session
settled self s d = record { working = d; committed = if self.autocommit then d else s.committed }

module _ {A B : Type 0} where
  pub query_ok :
      (f : Db → Result A) (g : A → M B) (s : Session) (a : A)
      → f s.working ≡ ok a
      → (query f >>= g) s ≡ g a s
  unfolding query ◌>>=◌
  query_ok f g s a e = rw e refl

  pub lift_ok :
      (r : Result A) (g : A → M B) (s : Session) (a : A) → r ≡ ok a → (lift r >>= g) s ≡ g a s
  unfolding lift ◌>>=◌
  lift_ok r g s a e = rw e refl

  pub after_ok :
      (m : M A) (g : A → M B) (s s' : Session) (a : A) → m s ≡ (ok a, s') → (m >>= g) s ≡ g a s'
  unfolding ◌>>=◌
  after_ok m g s s' a e = rw e refl

module _ {B : Type 0} (g : Unit {0} → M B) (s : Session) where
  pub raise_if_ok : (b : Bool) (e : Error) → b ≡ false → (raise_if b e >>= g) s ≡ g tt s
  unfolding raise_if ◌>>=◌
  raise_if_ok b e h = rw h refl

  pub modify_ok : (f : Db → Db) → (modify f >>= g) s ≡ g tt (record s { working = f s.working })
  unfolding modify ◌>>=◌
  modify_ok f = refl

pub else_ok :
    {A : Type 0} (b : Bool) (m m' : M A) (s : Session) → b ≡ false → (if b then m else m') s ≡ m' s
else_ok b m m' s h = rw h refl

pub modify_eq :
    (f : Db → Db) (s : Session) → modify f s ≡ (ok tt, record s { working = f s.working })
unfolding modify
modify_eq f s = refl

pub commit_ok :
    (self : Service) (s : Session)
    → Accepts self
    → commit self s ≡ (ok tt, settled self s s.working)
unfolding commit
commit_ok self s all = elim (Bool-cases self.autocommit) [
  | inl a ↦ rw (all s.working, a) refl
  | inr m ↦ rw (all s.working, m) refl
]

pub guarded_ok :
    {A : Type 0} (self : Service) (m : M A) (s s' : Session) (a : A)
    → m s ≡ (ok a, s')
    → guarded self m s ≡ (ok a, s')
unfolding guarded
guarded_ok self m s s' a e = rw e refl

-- the event of a change of location
abbrev pub transition_event :
    Item
    → Item
    → Transition
    → Option Node
    → Option Node
    → HistoryPath
    → HistoryPath
    → Option (Change ItemState)
    → Option Removal
    → Option Text
    → Event
transition_event before after type from to p q change extra text = record {
  item_id = after.id;
  from_location_id = optional_id from;
  to_location_id = optional_id to;
  payload =
      item_transition type p q (state_change_of before.location_status after.location_status change)
        extra;
  original_text = text;
}

-- the paths of places do not depend on the items
same_path :
    (i : Item) (d : Db) (n : Option Node)
    → history_path Model.location n (save_item i d) ≡ history_path Model.location n d
unfolding history_path
same_path i d none = refl
same_path i d (some n) = refl

module _ (self : Service) (all : Accepts self) (s : Session)
    (forest : IsForest s.working.locations) where
  -- a location change is written, recorded with both paths, and committed
  pub relocate_succeeds :
      (before after : Item) (type : Transition) (from to : Option Node)
      (change : Option (Change ItemState)) (extra : Option Removal) (text : Option Text)
      → IsRow s.working.locations from
      → IsRow s.working.locations to
      → (p : HistoryPath) × (q : HistoryPath) × (history_path Model.location from s.working ≡ ok p)
        × (history_path Model.location to s.working ≡ ok q)
        × (relocate self before after type from to change extra text s ≡ (
          ok after,
          settled self s (
              add_event
                (transition_event before after type from to p q change extra text)
                (save_item after s.working)),
        ))
  unfolding relocate record_location_transition pure
  relocate_succeeds before after type from to change extra text hf ht =
      let d = save_item after s.working in
      let s1 : Session = record { working = d; committed = s.committed } in
      let (p, ep) = history_path_total Model.location d from forest hf in
      let (q, eq) = history_path_total Model.location d to forest ht in
      let e = transition_event before after type from to p q change extra text in
      let s2 : Session = record { working = add_event e d; committed = s.committed } in
      (
        p,
        q,
        sym (same_path after s.working from) ∙ ep,
        sym (same_path after s.working to) ∙ eq,
        modify_ok _ _ _
            ∙ after_ok _ _ s1 s2 tt (query_ok _ _ s1 p ep ∙ query_ok _ _ s1 q eq ∙ modify_eq _ s1)
            ∙ after_ok _ _ s2 _ tt (commit_ok self s2 all)
            ∙ refl,
      )
