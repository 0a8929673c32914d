-- ===== src/Domain/States.antt =====
-- src/ah_there_it_is/domain/states.py and domain/exceptions.py: the controlled values, and the
-- errors that the services raise, one constructor for each exception and reason.
use ah_there_it_is.Base.{
  ℕ, ◌≡◌, refl, ◌⊎◌, inl, inr, Bool, true, false, Option, none, some, if◌then◌else◌,
}
use ah_there_it_is.Text.{Text, codes, text_eq}

pub data ItemState : Type 0 where
  unknown new working used broken needs_test for_parts for_sale removed discarded sold : ItemState

pub data QuantityMode : Type 0 where
  exact approximate unknown : QuantityMode

pub data LocationStatus : Type 0 where
  known unknown in_use not_applicable : LocationStatus

-- the `ValueError`s are told apart by their reason
pub data Error : Type 0 where
  entity_not_found duplicate_entity integrity_error : Error
  blank_name relational_phrase cycle assertion out_of_fuel : Error
  unknown_quantity_with_value bad_quantity_value bad_quantity_mode : Error
  bad_portion blank_reason long_reason bad_reason_source bad_state : Error
  terminal_create terminal_change terminal_transition terminal_restore : Error
  location_required terminal_move is_removed not_removed : Error
  ambiguous_path repeated_path empty_path : Error
  blank_media long_media bad_position long_caption undo_unavailable : Error

pub data Result {ℓ} (A : Type ℓ) : Type ℓ where
  ok : A → Result A
  err : Error → Result A

pub Result-cases {ℓ} :
    {A : Type ℓ} (r : Result A) → ((a : A) × (r ≡ ok a)) ⊎ ((e : Error) × (r ≡ err e))
Result-cases (ok a) = inl (a, refl)
Result-cases (err e) = inr (e, refl)

-- `ItemState(value)`
unfoldable pub parse_state : Text → Option ItemState
parse_state s =
    if text_eq s (codes "unknown")
    then some ItemState.unknown
    else if text_eq s (codes "new")
    then some ItemState.new
    else if text_eq s (codes "working")
    then some ItemState.working
    else if text_eq s (codes "used")
    then some ItemState.used
    else if text_eq s (codes "broken")
    then some ItemState.broken
    else if text_eq s (codes "needs_test")
    then some ItemState.needs_test
    else if text_eq s (codes "for_parts")
    then some ItemState.for_parts
    else if text_eq s (codes "for_sale")
    then some ItemState.for_sale
    else if text_eq s (codes "removed")
    then some ItemState.removed
    else if text_eq s (codes "discarded")
    then some ItemState.discarded
    else if text_eq s (codes "sold")
    then some ItemState.sold
    else none

-- `QuantityMode(value)`
unfoldable pub parse_mode : Text → Option QuantityMode
parse_mode s =
    if text_eq s (codes "exact")
    then some QuantityMode.exact
    else if text_eq s (codes "approximate")
    then some QuantityMode.approximate
    else if text_eq s (codes "unknown")
    then some QuantityMode.unknown
    else none

abbrev pub state_eq_removed : ItemState → Bool
state_eq_removed ItemState.removed = true
state_eq_removed _ = false

-- membership in {REMOVED, DISCARDED, SOLD}
abbrev pub is_terminal : ItemState → Bool
is_terminal ItemState.removed = true
is_terminal ItemState.discarded = true
is_terminal ItemState.sold = true
is_terminal _ = false

-- the position of a state in the enumeration; `==` on states compares these
abbrev pub state_index : ItemState → ℕ
state_index ItemState.unknown = 0
state_index ItemState.new = 1
state_index ItemState.working = 2
state_index ItemState.used = 3
state_index ItemState.broken = 4
state_index ItemState.needs_test = 5
state_index ItemState.for_parts = 6
state_index ItemState.for_sale = 7
state_index ItemState.removed = 8
state_index ItemState.discarded = 9
state_index ItemState.sold = 10

abbrev pub status_index : LocationStatus → ℕ
status_index LocationStatus.known = 0
status_index LocationStatus.unknown = 1
status_index LocationStatus.in_use = 2
status_index LocationStatus.not_applicable = 3

abbrev pub mode_index : QuantityMode → ℕ
mode_index QuantityMode.exact = 0
mode_index QuantityMode.approximate = 1
mode_index QuantityMode.unknown = 2
