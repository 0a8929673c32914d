-- ===== src/Base/Rows.antt =====
-- A table is a list of rows with a numeric primary key: reading one row, and writing one back.
use Prim.Native.Nat.{ℕ}
use mathlib.Core.Path.{◌≡◌, refl, subst, sym}
use mathlib.Core.Logic.{◌≢◌, inl, inr}
use mathlib.Core.Bool.{Bool, true, false}
use mathlib.Core.List.{List, [], ◌∷◌, ◌++◌, map}
use mathlib.Core.Option.{Option, none, some}
use native.Mathlib.Omega.{arith}
use ah_there_it_is.Base.Tests.{◌==◌, if◌then◌else◌, is_some, Bool-cases}
use ah_there_it_is.Base.Lists.{All, contains, select}

module _ {ℓ} {A : Type ℓ} (key : A → ℕ) where
  -- the row with this key
  unfoldable pub find : ℕ → List A → Option A
  find k [] = none
  find k (x ∷ xs) = if key x == k then some x else find k xs

  -- the row with the key of `a` becomes `a`
  unfoldable pub replace : A → List A → List A
  replace a [] = []
  replace a (x ∷ xs) = (if key x == key a then a else x) ∷ replace a xs

  -- the row with this key is deleted
  unfoldable pub remove : ℕ → List A → List A
  remove k [] = []
  remove k (x ∷ xs) = let rest = remove k xs in if key x == k then rest else x ∷ rest

  pub find-key : (k : ℕ) (a : A) (xs : List A) → find k xs ≡ some a → key a ≡ k
  unfolding find
  find-key k a [] h = cc
  find-key k a (x ∷ xs) h = ground (arith, find-key k a xs)

  pub find-All {κ} :
      (P : A → Type κ) (k : ℕ) {a : A} (xs : List A) → All P xs → find k xs ≡ some a → P a
  unfolding find
  find-All P k [] all h = absurd (cc)
  find-All P k {a} (x ∷ xs) all h = elim (Bool-cases (key x == k)) [
    | inl e ↦ let same : x ≡ a = ground arith in subst P same all.0
    | inr e ↦ find-All P k xs all.1 (ground arith)
  ]

  pub replace-All {κ} :
      (P : A → Type κ) (a : A) (xs : List A) → P a → All P xs → All P (replace a xs)
  unfolding replace
  replace-All P a [] pa h = tt
  replace-All P a (x ∷ xs) pa h = elim (Bool-cases (key x == key a)) [
    | inl e ↦ rw e (pa, replace-All P a xs pa h.1)
    | inr e ↦ rw e (h.0, replace-All P a xs pa h.1)
  ]

  pub remove-All {κ} : (P : A → Type κ) (k : ℕ) (xs : List A) → All P xs → All P (remove k xs)
  unfolding remove
  remove-All P k [] h = tt
  remove-All P k (x ∷ xs) h = elim (Bool-cases (key x == k)) [
    | inl e ↦ rw e (remove-All P k xs h.1)
    | inr e ↦ rw e (h.0, remove-All P k xs h.1)
  ]

  pub find-replace :
      (k : ℕ) (a : A) (xs : List A)
      → find k (replace a xs)
        ≡ (if key a == k then (if is_some (find k xs) then some a else none) else find k xs)
  unfolding find replace
  find-replace k a [] = ground arith
  find-replace k a (x ∷ xs) = ground (arith, find-replace k a xs)

  pub find-append :
      (k : ℕ) (xs ys : List A)
      → find k (xs ++ ys) ≡ (if is_some (find k xs) then find k xs else find k ys)
  unfolding find
  find-append k [] ys = refl
  find-append k (x ∷ xs) ys = ground (arith, find-append k xs ys)

  -- a key that no row has is found nowhere
  pub find_absent : (k : ℕ) (xs : List A) → contains (map key xs) k ≡ false → find k xs ≡ none
  unfolding find
  find_absent k [] h = refl
  find_absent k (x ∷ xs) h = ground (arith, find_absent k xs)

  -- a row that is found and passes the test is selected
  pub find-select :
      (test : A → Bool) (k : ℕ) (a : A) (rows : List A)
      → find k rows ≡ some a
      → test a ≡ true
      → select test rows ≢ []
  unfolding find
  find-select test k a [] e t = absurd (cc)
  find-select test k a (x ∷ xs) e t = elim (Bool-cases (key x == k)) [
    | inl y ↦
        let same : x ≡ a = ground arith in rw (subst (λ z. test z ≡ true) (sym same) t) (λ q. cc)
    | inr n ↦ elim (Bool-cases (test x)) [
      | inl y ↦ rw y (λ q. cc)
      | inr z ↦ rw z (find-select test k a xs (ground arith) t)
    ]
  ]

  -- a row that is selected has a key that is found
  pub selected_found :
      (test : A → Bool) (a : A) (rest xs : List A)
      → select test xs ≡ a ∷ rest
      → (b : A) × (find (key a) xs ≡ some b)
  unfolding find
  selected_found test a rest [] e = absurd (cc)
  selected_found test a rest (x ∷ xs) e = elim (Bool-cases (key x == key a)) [
    | inl here ↦ rw here (x, refl)
    | inr there ↦ elim (Bool-cases (test x)) [
      | inl y ↦
          let whole : x ∷ select test xs ≡ a ∷ rest = rw y at e in
          let same : x ≡ a = cc in
          absurd (subst (λ z. (key z == key a) ≡ false → ⊥) (sym same) (λ q. ground arith) there)
      | inr n ↦ rw there (selected_found test a rest xs (rw n at e))
    ]
  ]
