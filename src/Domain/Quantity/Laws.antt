-- ===== src/Domain/Quantity/Laws.antt =====
-- What the quantities of domain/quantity.py keep, and what a split of a lot conserves.
use ah_there_it_is.Base.{
  ℕ, ◌+◌, ◌<◌, ◌≡◌, ◌↔◌, ◌⊎◌, inl, inr, Bool, true, false, Option, none, some, arith, Option-cases,
  ◌≤◌, subst,
}
use ah_there_it_is.Text.{Text}
use ah_there_it_is.Domain.States.{QuantityMode, parse_mode, Result, ok, err, Result-cases}
use ah_there_it_is.Domain.States.QuantityMode.{exact, approximate}
use ah_there_it_is.Domain.Quantity.{
  ℤ, pos, negsuc, QuantityValue, IsQuantity, unknown_quantity, create, coerce, stored,
  split_quantities, coerce_portion, Portion, PortionInput, portion, quantity_value, dict, other,
}

abbrev pub IsTrue : QuantityValue → Type 0
IsTrue q = IsQuantity q.mode q.value

-- the number of a quantity, 0 where it has none
abbrev pub amount : QuantityValue → ℕ
amount q = elim q.value [ none ↦ 0 | some n ↦ n ]

pub create-IsTrue :
    (mode : QuantityMode) (value : Option ℤ) (q : QuantityValue)
    → create mode value ≡ ok q
    → IsTrue q × (q.mode ≡ mode)
unfolding create
create-IsTrue QuantityMode.unknown none q h = ground arith
create-IsTrue QuantityMode.unknown (some v) q h = ground arith
create-IsTrue exact none q h = ground arith
create-IsTrue exact (some (pos n)) q h = ground arith
create-IsTrue exact (some (negsuc n)) q h = ground arith
create-IsTrue approximate none q h = ground arith
create-IsTrue approximate (some (pos n)) q h = ground arith
create-IsTrue approximate (some (negsuc n)) q h = ground arith

-- A coerced quantity is a true one, in the mode that its name parses to.
pub coerce-IsTrue :
    (name : Text) (value : Option ℤ) (q : QuantityValue)
    → coerce name value ≡ ok q
    → IsTrue q × (parse_mode name ≡ some q.mode)
unfolding coerce
coerce-IsTrue name value q h = elim (Option-cases (parse_mode name)) [
  | inl e ↦ absurd (ground arith)
  | inr (m, e) ↦ ground (arith, create-IsTrue m value q)
]

-- A true row is read back as it is stored.
pub stored-IsTrue :
    (mode : QuantityMode) (value : Option ℕ)
    → IsQuantity mode value
    → stored mode value ≡ ok (record { mode = mode; value = value })
unfolding stored
stored-IsTrue QuantityMode.unknown none h = ground arith
stored-IsTrue QuantityMode.unknown (some v) h = ground arith
stored-IsTrue exact none h = ground arith
stored-IsTrue exact (some n) h = ground arith
stored-IsTrue approximate none h = ground arith
stored-IsTrue approximate (some n) h = ground arith

-- What a caller hands in as a quantity object was validated when it was built.
abbrev pub IsPortionInput : PortionInput → Type 0
IsPortionInput (portion p) = IsTrue p.quantity
IsPortionInput (quantity_value q) = IsTrue q
IsPortionInput _ = Unit

pub coerce_portion-IsTrue :
    (input : PortionInput) (p : Portion)
    → IsPortionInput input
    → coerce_portion input ≡ ok p
    → IsTrue p.quantity
unfolding coerce_portion
coerce_portion-IsTrue (portion p') p v h = ground arith
coerce_portion-IsTrue (quantity_value q) p v h = ground arith
coerce_portion-IsTrue (dict none value extra) p v h = ground arith
coerce_portion-IsTrue (dict (some m) none extra) p v h = ground arith
coerce_portion-IsTrue (dict (some m) (some value) true) p v h = ground arith
coerce_portion-IsTrue (dict (some m) (some value) false) p v h =
    elim (Result-cases (coerce m value)) [
      | inl (q, e) ↦ ground (arith, coerce-IsTrue m value q)
      | inr (x, e) ↦ absurd (ground arith)
    ]
coerce_portion-IsTrue other p v h = ground arith

-- What a split promises: the whole lot is an exact match and stays; a remainder has a number
-- exactly if both quantities have one and the lot is the larger, the numbers then add up, and it
-- is exact exactly if both are.
abbrev pub Conserves : QuantityValue → QuantityValue → QuantityValue × Bool → Type 0
Conserves lot child (rest, true) = (rest ≡ lot) × (child ≡ lot) × (lot.mode ≡ exact)
Conserves lot child (rest, false) =
    ((rest ≡ unknown_quantity)
      × ((lot.mode ≡ QuantityMode.unknown)
          ⊎ (child.mode ≡ QuantityMode.unknown)
          ⊎ (amount lot ≤ amount child)))
    ⊎ ((amount rest + amount child ≡ amount lot)
        × (0 < amount rest)
        × ((rest.mode ≡ exact) ↔ ((lot.mode ≡ exact) × (child.mode ≡ exact))))

-- The result of a split, on true quantities.
abbrev SplitsTo : QuantityValue → QuantityValue → Result (QuantityValue × Bool) → Type 0
SplitsTo lot child (ok (rest, whole)) = IsTrue rest × Conserves lot child (rest, whole)
SplitsTo lot child (err _) = ⊥

split_parts :
    (m : QuantityMode) (v : Option ℕ) (m' : QuantityMode) (v' : Option ℕ)
    → IsQuantity m v
    → IsQuantity m' v'
    → let lot : QuantityValue = record { mode = m; value = v } in
      let child : QuantityValue = record { mode = m'; value = v' } in
      SplitsTo lot child (split_quantities lot child)
unfolding split_quantities
split_parts QuantityMode.unknown none QuantityMode.unknown none h k = ground arith
split_parts QuantityMode.unknown none exact (some n) h k = ground arith
split_parts QuantityMode.unknown none approximate (some n) h k = ground arith
split_parts exact (some n) QuantityMode.unknown none h k = ground arith
split_parts approximate (some n) QuantityMode.unknown none h k = ground arith
split_parts exact (some n) exact (some p) h k = ground arith
split_parts exact (some n) approximate (some p) h k = ground arith
split_parts approximate (some n) exact (some p) h k = ground arith
split_parts approximate (some n) approximate (some p) h k = ground arith
split_parts QuantityMode.unknown (some n) m' v' h k = elim h [ ]
split_parts exact none m' v' h k = elim h [ ]
split_parts approximate none m' v' h k = elim h [ ]
split_parts QuantityMode.unknown none QuantityMode.unknown (some n) h k = elim k [ ]
split_parts QuantityMode.unknown none exact none h k = elim k [ ]
split_parts QuantityMode.unknown none approximate none h k = elim k [ ]
split_parts exact (some n) QuantityMode.unknown (some p) h k = elim k [ ]
split_parts exact (some n) exact none h k = elim k [ ]
split_parts exact (some n) approximate none h k = elim k [ ]
split_parts approximate (some n) QuantityMode.unknown (some p) h k = elim k [ ]
split_parts approximate (some n) exact none h k = elim k [ ]
split_parts approximate (some n) approximate none h k = elim k [ ]

-- A split that returns has a true remainder, and conserves.
pub split-Conserves :
    (lot child rest : QuantityValue) (whole : Bool)
    → IsTrue lot
    → IsTrue child
    → split_quantities lot child ≡ ok (rest, whole)
    → IsTrue rest × Conserves lot child (rest, whole)
split-Conserves lot child rest whole hl hc e =
    subst (SplitsTo lot child) e (split_parts lot.mode lot.value child.mode child.value hl hc)

-- On true quantities a split never fails; its remainder is a true quantity, and it conserves.
pub split_quantities_total :
    (lot child : QuantityValue)
    → IsTrue lot
    → IsTrue child
    → (rest : QuantityValue) × (whole : Bool) × (split_quantities lot child ≡ ok (rest, whole))
      × IsTrue rest
      × Conserves lot child (rest, whole)
split_quantities_total lot child hl hc = elim (Result-cases (split_quantities lot child)) [
  | inl ((rest, whole), e) ↦
      let parts : SplitsTo lot child (ok (rest, whole)) =
        subst (SplitsTo lot child) e
          (split_parts lot.mode lot.value child.mode child.value hl hc) in
      (rest, whole, e, parts.0, parts.1)
  | inr (x, e) ↦
      absurd
        (subst (SplitsTo lot child) e (split_parts lot.mode lot.value child.mode child.value hl hc))
]
