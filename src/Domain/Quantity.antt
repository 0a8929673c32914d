-- ===== src/Domain/Quantity.antt =====
-- src/ah_there_it_is/domain/quantity.py and the quantity arithmetic of services/inventory.py.
pub mod Laws
use ah_there_it_is.Base.{
  ℕ, zero, suc, ◌-◌, ◌^◌, ◌≤◌, ◌≡◌, refl, Bool, true, false, ◌&&◌, ◌||◌, Option, none, some, leb,
  ltb, ◌==◌, option_eq, if◌then◌else◌, arith, length,
}
use ah_there_it_is.Text.{Text, codes, text_eq, strip, is_blank}
use ah_there_it_is.Domain.States.{QuantityMode, parse_mode, Error, Result, ok, err}
use ah_there_it_is.Domain.States.QuantityMode.{exact, approximate}

-- an `int` argument; `negsuc n` is -(n + 1)
pub data ℤ : Type 0 where
  pos : ℕ → ℤ
  negsuc : ℕ → ℤ

abbrev pub max_sqlite_integer : ℕ
max_sqlite_integer = 2 ^ 63 - 1

pub data ReasonSource : Type 0 where
  explicit context : ReasonSource

pub record QuantityValue : Type 0 where
  pub mode : QuantityMode
  pub value : Option ℕ

abbrev pub unknown_quantity : QuantityValue
unknown_quantity = record { mode = QuantityMode.unknown; value = none }

-- `1 <= value <= MAX_SQLITE_INTEGER`
in_range : ℕ → Bool
in_range n = leb 1 n && leb n max_sqlite_integer

-- `QuantityValue.__post_init__`
unfoldable pub create : QuantityMode → Option ℤ → Result QuantityValue
unfolding in_range
create QuantityMode.unknown none = ok unknown_quantity
create QuantityMode.unknown (some _) = err Error.unknown_quantity_with_value
create mode (some (pos n)) =
    if in_range n then ok (record { mode = mode; value = some n }) else err Error.bad_quantity_value
create mode _ = err Error.bad_quantity_value

-- `QuantityValue.coerce`
unfoldable pub coerce : Text → Option ℤ → Result QuantityValue
coerce mode value = elim (parse_mode mode) [
  | none ↦ err Error.bad_quantity_mode
  | some m ↦ create m value
]

-- `QuantityValue.coerce(item.quantity_mode, item.quantity)` of a stored row
unfoldable pub stored : QuantityMode → Option ℕ → Result QuantityValue
unfolding create
stored mode none = create mode none
stored mode (some n) = create mode (some (pos n))

pub record Portion : Type 0 where
  pub quantity : QuantityValue

-- what a caller may pass as `portion`; a dictionary has the values of its two keys, if present,
-- and whether it has any other key
pub data PortionInput : Type 0 where
  portion : Portion → PortionInput
  quantity_value : QuantityValue → PortionInput
  dict : Option Text → Option (Option ℤ) → Bool → PortionInput
  other : PortionInput

-- `Portion.coerce`
unfoldable pub coerce_portion : PortionInput → Result Portion
unfolding coerce
coerce_portion (portion p) = ok p
coerce_portion (quantity_value q) = ok (record { quantity = q })
coerce_portion (dict (some mode) (some value) false) = elim (coerce mode value) [
  | ok q ↦ ok (record { quantity = q })
  | err e ↦ err e
]
coerce_portion _ = err Error.bad_portion

-- `validated_reason`
unfoldable pub validated_reason : Text → Text → Result (Text × ReasonSource)
validated_reason reason source =
    let compact = strip reason in
    if is_blank compact
    then err Error.blank_reason
    else if ltb 500 (length compact)
    then err Error.long_reason
    else if text_eq source (codes "explicit")
    then ok (compact, ReasonSource.explicit)
    else if text_eq source (codes "context")
    then ok (compact, ReasonSource.context)
    else err Error.bad_reason_source

abbrev pub is_unknown : QuantityMode → Bool
is_unknown QuantityMode.unknown = true
is_unknown _ = false

abbrev pub is_exact : QuantityMode → Bool
is_exact exact = true
is_exact _ = false

-- the part of `_split_quantities` below its assertion
split_numbers : Bool → Option ℕ → Option ℕ → Result (QuantityValue × Bool)
split_numbers both_exact (some a) (some b) =
    if leb a b
    then ok (unknown_quantity, false)
    else elim (create (if both_exact then exact else approximate) (some (pos (a - b)))) [
      | ok q ↦ ok (q, false)
      | err e ↦ err e
    ]
split_numbers _ _ _ = err Error.assertion

-- `InventoryService._split_quantities`: what remains, and whether the child is the whole lot
unfoldable pub split_quantities : QuantityValue → QuantityValue → Result (QuantityValue × Bool)
unfolding split_numbers create
split_quantities source child =
    if is_exact source.mode && is_exact child.mode && option_eq child.value source.value
    then ok (source, true)
    else if is_unknown source.mode || is_unknown child.mode
    then ok (unknown_quantity, false)
    else split_numbers (is_exact source.mode && is_exact child.mode) source.value child.value

-- the check constraint `ck_items_quantity_truth`, with the upper bound that the code enforces
abbrev pub IsQuantity : QuantityMode → Option ℕ → Type 0
IsQuantity QuantityMode.unknown none = Unit
IsQuantity QuantityMode.unknown (some _) = ⊥
IsQuantity exact (some n) = (1 ≤ n) × (n ≤ max_sqlite_integer)
IsQuantity approximate (some n) = (1 ≤ n) × (n ≤ max_sqlite_integer)
IsQuantity _ none = ⊥
