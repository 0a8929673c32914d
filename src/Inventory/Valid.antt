-- ===== src/Inventory/Valid.antt =====
-- The invariant of the inventory (services/inventory.py over db/models.py): every item tells the
-- truth about its quantity, location and lifecycle, the event history explains where every item
-- is, and categories and locations are trees.
use ah_there_it_is.Base.{
  ℕ, ◌≡◌, Option, none, some, List, [], ◌∷◌, arith, All, All-append, find, find-All, find-append,
  find-replace, replace-All, is_some, ◌==◌, if◌then◌else◌, Bool-cases, Option-cases, inl, inr,
}
use ah_there_it_is.Domain.States.{LocationStatus, is_terminal, state_eq_removed}
use ah_there_it_is.Domain.Quantity.{IsQuantity}
use ah_there_it_is.Db.{
  Db, Node, Item, Event, Payload, Transition, Tag, item_id, item_created, item_transition,
  item_undo_compensated,
}
use ah_there_it_is.Session.{add_event}
use ah_there_it_is.Inventory.Items.{save_item, add_item}
use ah_there_it_is.Inventory.Moves.{has_status}
use ah_there_it_is.Inventory.Forest.{IsForest}
use ah_there_it_is.Inventory.Distinct.{IsDistinct}

-- one row: a true quantity, a location exactly if it is known, removed exactly if no location
-- applies, a reason exactly if removed, and none of the two terminal states that are no longer used
pub record IsTruthful (i : Item) : Type 0 where
  pub quantity : IsQuantity i.quantity_mode i.quantity
  pub located : is_some i.current_location_id ≡ has_status LocationStatus.known i
  pub lifecycle : state_eq_removed i.state ≡ has_status LocationStatus.not_applicable i
  pub reason : is_some i.removal_reason ≡ state_eq_removed i.state
  pub no_legacy : is_terminal i.state ≡ state_eq_removed i.state

-- where an item is: its location and its status
abbrev pub Place : Type 0
Place = Option ℕ × LocationStatus

abbrev pub place_of : Item → Place
place_of i = (i.current_location_id, i.location_status)

abbrev pub place_at : Option ℕ → Place
place_at none = (none, LocationStatus.unknown)
place_at (some k) = (some k, LocationStatus.known)

abbrev pub place_after : Transition → Option ℕ → Place
place_after Transition.item_moved to = (to, LocationStatus.known)
place_after Transition.item_taken to = (to, LocationStatus.in_use)
place_after Transition.item_location_unknown to = (to, LocationStatus.unknown)
place_after Transition.item_removed to = (to, LocationStatus.not_applicable)
place_after Transition.item_restored to = place_at to

-- what an event says of the place of its item
abbrev pub placement_of : Payload → Option ℕ → Option Place
placement_of (item_created name q to_location to_category) to = some (place_at to)
placement_of (item_transition type from_path to_path change extra) to = some (place_after type to)
placement_of (item_undo_compensated run operation before after child) to =
    some (to, after.location_status)
placement_of _ to = none

abbrev pub placement : Event → Option Place
placement e = placement_of e.payload e.to_location_id

-- the place that the history, newest event first, gives an item
unfoldable pub placed : ℕ → List Event → Option Place
placed k [] = none
placed k (e ∷ es) =
    let earlier = placed k es in
    if e.item_id == k then elim (placement e) [ none ↦ earlier | some p ↦ some p ] else earlier

-- the history explains the place of every item, but for the exempted keys
abbrev pub Explains : (ℕ → Type 0) → List Item → List Event → Type 0
Explains exempt items events =
    (k : ℕ) (i : Item)
    → find item_id k items ≡ some i
    → ¬ exempt k
    → placed k events ≡ some (place_of i)

abbrev pub Nobody : ℕ → Type 0
Nobody k = ⊥

abbrev pub Only : ℕ → ℕ → Type 0
Only j k = j ≡ k

-- a tree: every row leads to a root, and names are distinct under one parent
pub record IsTree (ns : List Node) : Type 0 where
  pub forest : IsForest ns
  pub distinct : IsDistinct ns

-- the invariant, with the history of some items open
pub record IsOpen (exempt : ℕ → Type 0) (d : Db) : Type 0 where
  pub truthful : All IsTruthful d.items
  pub explained : Explains exempt d.items d.events
  pub categories : IsTree d.categories
  pub locations : IsTree d.locations

abbrev pub IsValid : Db → Type 0
IsValid d = IsOpen Nobody d

-- A row with a new place is written, with the event that says so.
pub IsOpen-relocate :
    (d : Db) (i : Item) (e : Event)
    → IsOpen (Only i.id) d
    → IsTruthful i
    → e.item_id ≡ i.id
    → placement e ≡ some (place_of i)
    → IsValid (add_event e (save_item i d))
unfolding placed
IsOpen-relocate d i e v t same place = record {
  truthful = replace-All item_id IsTruthful i d.items t v.truthful;
  explained = λ k j found _. elim (Bool-cases (i.id == k)) [
    | inl is_i ↦
        let j_is_i : j ≡ i = ground (arith, find-replace item_id k i d.items) in ground arith
    | inr other ↦
        let old : find item_id k d.items ≡ some j =
          ground (arith, find-replace item_id k i d.items) in
        let same_place = v.explained k j old (λ p. ground arith) in ground arith
  ];
  categories = v.categories;
  locations = v.locations;
}

-- A row that keeps its key and its place is written.
pub IsOpen-save :
    (exempt : ℕ → Type 0) (d : Db) (i j : Item)
    → IsOpen exempt d
    → IsTruthful j
    → find item_id i.id d.items ≡ some i
    → j.id ≡ i.id
    → place_of j ≡ place_of i
    → IsOpen exempt (save_item j d)
IsOpen-save exempt d i j v t row same place = record {
  truthful = replace-All item_id IsTruthful j d.items t v.truthful;
  explained = λ k x found free. elim (Bool-cases (j.id == k)) [
    | inl is_j ↦
        let x_is_j : x ≡ j = ground (arith, find-replace item_id k j d.items) in
        let old : find item_id k d.items ≡ some i = ground arith in
        let same_place = v.explained k i old free in ground arith
    | inr other ↦ v.explained k x (ground (arith, find-replace item_id k j d.items)) free
  ];
  categories = v.categories;
  locations = v.locations;
}

-- An event without a place is added.
pub IsOpen-event :
    (exempt : ℕ → Type 0) (d : Db) (e : Event)
    → IsOpen exempt d
    → placement e ≡ none
    → IsOpen exempt (add_event e d)
unfolding placed
IsOpen-event exempt d e v quiet = record {
  truthful = v.truthful;
  explained = λ k i found free. let same_place = v.explained k i found free in ground arith;
  categories = v.categories;
  locations = v.locations;
}

find_one : (k : ℕ) (i j : Item) → find item_id k (i ∷ []) ≡ some j → (j ≡ i) × (i.id ≡ k)
unfolding find
find_one k i j h = ground arith

-- A row is added whose place the history does not give yet.
pub IsOpen-add : (d : Db) (i : Item) → IsValid d → IsTruthful i → IsOpen (Only i.id) (add_item i d)
IsOpen-add d i v t = record {
  truthful = All-append IsTruthful d.items (i ∷ []) v.truthful (t, tt);
  explained = λ k j found free. elim (Option-cases (find item_id k d.items)) [
    | inl absent ↦
        absurd (free (ground (arith, find-append item_id k d.items (i ∷ []), find_one k i j)))
    | inr (x, e) ↦
        let same : j ≡ x = ground (arith, find-append item_id k d.items (i ∷ [])) in
        v.explained k j (ground arith) (λ n. elim n [ ])
  ];
  categories = v.categories;
  locations = v.locations;
}

-- The history of one more item may be left open.
pub IsOpen-weaken : (exempt : ℕ → Type 0) (d : Db) → IsValid d → IsOpen exempt d
IsOpen-weaken exempt d v = record {
  truthful = v.truthful;
  explained = λ k i found _. v.explained k i found (λ n. elim n [ ]);
  categories = v.categories;
  locations = v.locations;
}

-- The tags play no part.
pub IsOpen-tags :
    (exempt : ℕ → Type 0) (d : Db) (ts : List Tag)
    → IsOpen exempt d
    → IsOpen exempt (record d { tags = ts })
IsOpen-tags exempt d ts v = record {
  truthful = v.truthful;
  explained = v.explained;
  categories = v.categories;
  locations = v.locations;
}

-- A row that is found is truthful.
pub found-IsTruthful :
    (exempt : ℕ → Type 0) (d : Db) (k : ℕ) (i : Item)
    → IsOpen exempt d
    → find item_id k d.items ≡ some i
    → IsTruthful i
found-IsTruthful exempt d k i v e = find-All item_id IsTruthful k d.items v.truthful e
