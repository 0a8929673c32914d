-- ===== src/Tools/Sizes.antt =====
-- domain/russian_semantics.py: places that fit into each other, by their sizes.
use ah_there_it_is.Base.{
  ℕ, Bool, true, false, ◌≡◌, refl, ap, sym, ◌∙◌, ◌<◌, inl, inr, Option, none, some, Bool-cases,
  arith,
}
use ah_there_it_is.Text.{Text, codes, text_eq, text_eq_iff}
use ah_there_it_is.Session.{Names}
use ah_there_it_is.Tools.Containment.{
  Rule, location_scale, compared, assess_on, assess_inside, assessed, assess_keys, search_key,
  assess_location_relation, is_plausible, fits_in, is_surface,
}

-- both sizes are known, and the first one is smaller
abbrev pub IsSmaller : Option ℕ → Option ℕ → Type 0
IsSmaller child parent = (a : ℕ) × (b : ℕ) × (child ≡ some a) × (parent ≡ some b) × (a < b)

compared-IsSmaller :
    (smaller larger : Rule) (a b : ℕ) → is_plausible (compared smaller larger a b).0 ≡ true → a < b
compared-IsSmaller smaller larger a b h = ground arith

assess_on-IsSmaller :
    (surface : Bool) (child parent : Option ℕ)
    → is_plausible (assess_on surface child parent).0 ≡ true
    → IsSmaller child parent
unfolding assess_on
assess_on-IsSmaller false child none h = ground arith
assess_on-IsSmaller false child (some b) h = ground arith
assess_on-IsSmaller true none parent h = ground arith
assess_on-IsSmaller true (some a) none h = ground arith
assess_on-IsSmaller true (some a) (some b) h = (a, b, refl, refl, compared-IsSmaller _ _ a b h)

assess_inside-IsSmaller :
    (child parent : Option ℕ)
    → is_plausible (assess_inside child parent).0 ≡ true
    → IsSmaller child parent
unfolding assess_inside
assess_inside-IsSmaller none parent h = ground arith
assess_inside-IsSmaller (some a) none h = ground arith
assess_inside-IsSmaller (some a) (some b) h = (a, b, refl, refl, compared-IsSmaller _ _ a b h)

no_decision {ℓ} : {A : Type ℓ} → false ≡ true → A
no_decision h = ground (arith, h)

assessed-IsSmaller :
    (child parent relation : Text)
    → is_plausible (assessed child parent relation).0 ≡ true
    → IsSmaller (location_scale child) (location_scale parent)
assessed-IsSmaller child parent relation h = elim (Bool-cases (text_eq relation (codes "on"))) [
  | inl y ↦ assess_on-IsSmaller (is_surface parent) _ _ (rw y at h)
  | inr n ↦ elim (Bool-cases (text_eq relation (codes "inside"))) [
    | inl y ↦ assess_inside-IsSmaller _ _ (rw (n, y) at h)
    | inr m ↦ no_decision (rw (n, m) at h)
  ]
]

smaller_differ :
    {a b : ℕ} (s t : Text)
    → location_scale s ≡ some a
    → location_scale t ≡ some b
    → a < b
    → text_eq s t ≡ false
smaller_differ s t h k l = elim (Bool-cases (text_eq s t)) [
  | inr n ↦ n
  | inl y ↦ let e = sym h ∙ ap location_scale ((text_eq_iff s t).0 y) ∙ k in ground (arith, e)
]

IsSmaller-trans : {x y z : Option ℕ} → IsSmaller x y → IsSmaller y z → IsSmaller x z
IsSmaller-trans (a, b, h, k, l) (b', c, h', k', l') =
    let e = sym k ∙ h' in (a, c, h, k', ground (arith, e, l, l'))

IsSmaller-asym : {x y : Option ℕ} → IsSmaller x y → IsSmaller y x → false ≡ true
IsSmaller-asym (a, b, h, k, l) (b', a', h', k', l') =
    let e = sym k ∙ h' in let e' = sym k' ∙ h in ground (arith, e, e', l, l')

module _ (is_word : ℕ → Bool) (names : Names) where
  abbrev pub scale : Text → Option ℕ
  scale name = location_scale (search_key is_word names name)

  pub fits_in-IsSmaller :
      (child parent relation : Text)
      → fits_in is_word names child parent relation ≡ true
      → IsSmaller (scale child) (scale parent)
  unfolding assess_location_relation assess_keys
  fits_in-IsSmaller child parent relation h =
      elim (Bool-cases
        (text_eq (search_key is_word names child) (search_key is_word names parent))) [
          | inl y ↦ no_decision (rw y at h)
          | inr n ↦ assessed-IsSmaller _ _ relation (rw n at h)
        ]

  pub smaller_fits_in :
      (child parent : Text)
      → IsSmaller (scale child) (scale parent)
      → fits_in is_word names child parent (codes "inside") ≡ true
  unfolding assess_location_relation assess_keys assess_inside text_eq
  smaller_fits_in child parent (a, b, h, k, l) = rw (smaller_differ _ _ h k l, h, k) (ground arith)

  -- a place fits into what a place that it fits into fits into
  pub fits_in_trans :
      (a b c r r' : Text)
      → fits_in is_word names a b r ≡ true
      → fits_in is_word names b c r' ≡ true
      → fits_in is_word names a c (codes "inside") ≡ true
  fits_in_trans a b c r r' h k =
      smaller_fits_in a c (IsSmaller-trans (fits_in-IsSmaller a b r h) (fits_in-IsSmaller b c r' k))

  not_both_ways :
      (a b r r' : Text) → fits_in is_word names a b r ≡ true → fits_in is_word names b a r' ≡ false
  not_both_ways a b r r' h = elim (Bool-cases (fits_in is_word names b a r')) [
    | inr n ↦ n
    | inl y ↦ no_decision (IsSmaller-asym (fits_in-IsSmaller a b r h) (fits_in-IsSmaller b a r' y))
  ]

  not_itself : (a r : Text) → fits_in is_word names a a r ≡ false
  not_itself a r = elim (Bool-cases (fits_in is_word names a a r)) [
    | inr n ↦ n
    | inl y ↦ not_both_ways a a r r y
  ]

-- Whatever the relations are, if a place plausibly stands in or on a second one, and this in or on a third
-- one, then the first one is plausible inside the third, and the third is plausible neither in nor on the
-- first; in particular no place is plausible in or on itself.
pub fits_in-IsOrder :
    (is_word : ℕ → Bool) (names : Names) (a b c r r' r'' : Text)
    → fits_in is_word names a b r ≡ true
    → fits_in is_word names b c r' ≡ true
    → (fits_in is_word names a c (codes "inside") ≡ true)
      × (fits_in is_word names c a r'' ≡ false)
      × (fits_in is_word names a a r'' ≡ false)
fits_in-IsOrder is_word names a b c r r' r'' h k =
    let through = fits_in_trans is_word names a b c r r' h k in
    (
      through,
      not_both_ways is_word names a c (codes "inside") r'' through,
      not_itself is_word names a r'',
    )
