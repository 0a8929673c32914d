-- ===== src/Inventory/Atomic/Facts.antt =====
-- What the checks of services/inventory.py establish, and the rows that stay truthful.
use ah_there_it_is.Base.{
  ℕ, ◌≡◌, refl, false, Option, none, some, arith, find, is_some, find-key, inl, inr, Option-cases,
}
use ah_there_it_is.Text.{Text}
use ah_there_it_is.Domain.States.{
  ItemState, LocationStatus, ok, state_eq_removed, is_terminal, Result-cases,
}
use ah_there_it_is.Domain.Quantity.{Portion, PortionInput, coerce_portion}
use ah_there_it_is.Domain.Quantity.Laws.{IsPortionInput, IsTrue, coerce_portion-IsTrue}
use ah_there_it_is.Db.{Db, Item, Node, Model, nodes, node_id, item_id, Transition}
use ah_there_it_is.Session.{M, Session}
use ah_there_it_is.Session.Rules.{Triple, At, Fails}
use ah_there_it_is.Inventory.Checks.{get_item, get_node, get_optional, optional_id}
use ah_there_it_is.Inventory.Moves.{requested, at_location, removed_row, restored_row, has_status}
use ah_there_it_is.Inventory.Forest.Climb.{IsRow, IsRow-found}
use ah_there_it_is.Inventory.Valid.{IsOpen, IsTruthful, Only, place_of, place_after}
use ah_there_it_is.Inventory.Atomic.Split.{Affected}

-- the input of an operation, where there is one
abbrev pub IsPart : Option PortionInput → Type 0
IsPart none = Unit
IsPart (some input) = IsPortionInput input

pub requested-IsTrue :
    (portion : Option PortionInput) (part : Option Portion)
    → IsPart portion
    → requested portion ≡ ok part
    → (p : Portion) → part ≡ some p
    → IsTrue p.quantity
requested-IsTrue none part v e p q = absurd (ground arith)
requested-IsTrue (some input) part v e p q = elim (Result-cases (coerce_portion input)) [
  | inl (p', f) ↦ coerce_portion-IsTrue input p v (ground arith)
  | inr (x, f) ↦ absurd (ground arith)
]

pub found-item :
    (k : ℕ) (d : Db) (i : Item) → get_item k d ≡ ok i → find item_id i.id d.items ≡ some i
found-item k d i e = ground (arith, find-key item_id k i d.items)

pub found-node :
    (m : Model) (k : ℕ) (d : Db) (n : Node) → get_node m k d ≡ ok n → IsRow (nodes m d) (some n)
found-node m k d n e = IsRow-found (nodes m d) k n (ground arith)

pub get_optional-IsRow :
    (m : Model) (p : Option ℕ) (d : Db) (n : Option Node)
    → get_optional m p d ≡ ok n
    → IsRow (nodes m d) n
unfolding get_optional
get_optional-IsRow m none d n e = let same : n ≡ none = ground arith in rw same tt
get_optional-IsRow m (some k) d n e = elim (Option-cases (find node_id k (nodes m d))) [
  | inl f ↦ absurd (ground arith)
  | inr (x, f) ↦ let same : n ≡ some x = ground arith in rw same (IsRow-found (nodes m d) k x f)
]

pub restored_place :
    (i : Item) (state : ItemState) (n : Option Node)
    → place_after Transition.item_restored (optional_id n) ≡ place_of (restored_row i state n)
restored_place i state none = refl
restored_place i state (some n) = refl

-- the rest of a method that has its lot
pub Affected-rule :
    (s0 : Session) (item i : Item) (m : M Item) (Q : Item → Session → Type 0)
    → ((d : Db)
        → IsOpen (Only i.id) d
        → find item_id i.id d.items ≡ some i
        → IsTruthful i
        → i.state ≡ item.state
        → d.locations ≡ s0.working.locations
        → Triple (At s0 d) m Q (Fails s0))
    → Triple (Affected s0 item i) m Q (Fails s0)
Affected-rule s0 item i m Q h = record {
  at = λ s a. (h a.db a.history a.row a.truthful a.state a.locations).at s a.at;
}

-- a row that is not removed may change its place
pub moved-IsTruthful :
    (i : Item) (location : Option ℕ) (status : LocationStatus)
    → IsTruthful i
    → state_eq_removed i.state ≡ false
    → is_some location ≡ has_status LocationStatus.known (at_location i location status)
    → has_status LocationStatus.not_applicable (at_location i location status) ≡ false
    → IsTruthful (at_location i location status)
moved-IsTruthful i location status t active located applicable = record {
  quantity = t.quantity;
  located = located;
  lifecycle = ground arith;
  reason = t.reason;
  no_legacy = t.no_legacy;
}

pub removed-IsTruthful :
    (i : Item) (reason : Text) → IsTruthful i → IsTruthful (removed_row i reason)
removed-IsTruthful i reason t = record {
  quantity = t.quantity;
  located = refl;
  lifecycle = refl;
  reason = refl;
  no_legacy = refl;
}

pub restored-IsTruthful :
    (i : Item) (state : ItemState) (n : Option Node)
    → IsTruthful i
    → is_terminal state ≡ false
    → IsTruthful (restored_row i state n)
restored-IsTruthful i state none t active = record {
  quantity = t.quantity;
  located = refl;
  lifecycle = ground arith;
  reason = ground arith;
  no_legacy = ground arith;
}
restored-IsTruthful i state (some n) t active = record {
  quantity = t.quantity;
  located = refl;
  lifecycle = ground arith;
  reason = ground arith;
  no_legacy = ground arith;
}
