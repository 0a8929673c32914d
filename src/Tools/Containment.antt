-- ===== src/Tools/Containment.antt =====
-- domain/russian_semantics.py: the sizes of known places, and assess_location_relation.
use ah_there_it_is.Base.{
  ℕ, Bool, true, false, ◌&&◌, ◌||◌, Option, none, some, List, [], ◌∷◌, any, ltb, ◌==◌,
  if◌then◌else◌,
}
use ah_there_it_is.Text.{Text, codes, text_eq}
use ah_there_it_is.Session.{Names}
use ah_there_it_is.Tools.SearchKeys.{normalize_search_text, split_words}

unfoldable pub starts_with : Text → Text → Bool
starts_with [] s = true
starts_with (c ∷ part) [] = false
starts_with (c ∷ part) (d ∷ s) = c == d && starts_with part s

-- `part in s`
unfoldable pub is_part : Text → Text → Bool
is_part part [] = starts_with part []
is_part part (c ∷ s) = starts_with part (c ∷ s) || is_part part s

-- `_LOCATION_SCALES`
abbrev pub location_scales : List (Text × ℕ)
location_scales =
    (codes "дом", 7)
    ∷ (codes "квартира", 6)
    ∷ (codes "комната", 5)
    ∷ (codes "ванна", 5)
    ∷ (codes "кухня", 5)
    ∷ (codes "коридор", 5)
    ∷ (codes "кабинет", 5)
    ∷ (codes "гараж", 5)
    ∷ (codes "балкон", 5)
    ∷ (codes "кладовая", 5)
    ∷ (codes "шкаф", 4)
    ∷ (codes "тумбочка", 4)
    ∷ (codes "комод", 4)
    ∷ (codes "стол", 4)
    ∷ (codes "письменный стол", 4)
    ∷ (codes "стеллаж", 4)
    ∷ (codes "кровать", 4)
    ∷ (codes "диван", 4)
    ∷ (codes "холодильник", 4)
    ∷ (codes "ящик", 3)
    ∷ (codes "полка", 3)
    ∷ (codes "подоконник", 3)
    ∷ (codes "корзина", 3)
    ∷ (codes "рюкзак", 3)
    ∷ (codes "коробка", 2)
    ∷ (codes "контейнер", 2)
    ∷ (codes "органайзер", 2)
    ∷ (codes "папка", 2)
    ∷ (codes "книга", 2)
    ∷ (codes "футляр", 1)
    ∷ (codes "телефон", 1)
    ∷ (codes "ключ", 1)
    ∷ (codes "кабель", 1)
    ∷ []

-- `_SURFACES`
abbrev pub surfaces : List Text
surfaces =
    codes "стол"
    ∷ codes "письменный стол"
    ∷ codes "полка"
    ∷ codes "стеллаж"
    ∷ codes "шкаф"
    ∷ codes "подоконник"
    ∷ codes "комод"
    ∷ codes "тумбочка"
    ∷ []

unfoldable pub scale_of : Text → List (Text × ℕ) → Option ℕ
scale_of key [] = none
scale_of key ((term, scale) ∷ rest) = if text_eq term key then some scale else scale_of key rest

abbrev pub larger : ℕ → Option ℕ → Option ℕ
larger scale none = some scale
larger scale (some best) = if ltb scale best then some best else some scale

-- the largest scale of the terms that are words of the name
unfoldable pub largest_scale : List Text → List (Text × ℕ) → Option ℕ
largest_scale words [] = none
largest_scale words ((term, scale) ∷ rest) =
    let best = largest_scale words rest in
    if any (text_eq term) words then larger scale best else best

-- `_location_scale`
unfoldable pub location_scale : Text → Option ℕ
location_scale name_key = elim (scale_of name_key location_scales) [
  | some exact ↦ some exact
  | none ↦ largest_scale (split_words name_key) location_scales
]

pub data Decision : Type 0 where
  plausible : Decision
  uncertain : Decision
  implausible : Decision

pub data Rule : Type 0 where
  same_canonical_location : Rule
  parent_not_known_surface : Rule
  unknown_child_size : Rule
  known_object_on_surface : Rule
  child_materially_larger_than_surface : Rule
  relative_size_not_established : Rule
  unknown_relation : Rule
  unknown_size_class : Rule
  child_materially_larger_than_parent : Rule
  known_household_scale_order : Rule

-- `ContainmentAssessment`
pub record ContainmentAssessment : Type 0 where
  pub decision : Decision
  pub rule : Rule
  pub child_scale : Option ℕ
  pub parent_scale : Option ℕ

abbrev pub is_surface : Text → Bool
is_surface parent_key =
    any (text_eq parent_key) surfaces
    || any (λ surface. is_part (32 ∷ surface) (32 ∷ parent_key)) surfaces

-- what is decided when both sizes are compared
abbrev pub compared : Rule → Rule → ℕ → ℕ → Decision × Rule
compared smaller larger_child child parent =
    if ltb child parent
    then (Decision.plausible, smaller)
    else if ltb parent child
    then (Decision.implausible, larger_child)
    else (Decision.uncertain, Rule.relative_size_not_established)

-- the branch of the relation `on`
unfoldable pub assess_on : Bool → Option ℕ → Option ℕ → Decision × Rule
assess_on false child none = (Decision.uncertain, Rule.parent_not_known_surface)
assess_on false child (some parent) = (Decision.implausible, Rule.parent_not_known_surface)
assess_on true none parent = (Decision.uncertain, Rule.unknown_child_size)
assess_on true (some child) none = (Decision.uncertain, Rule.relative_size_not_established)
assess_on true (some child) (some parent) =
    compared Rule.known_object_on_surface Rule.child_materially_larger_than_surface child parent

-- the branch of the relation `inside`
unfoldable pub assess_inside : Option ℕ → Option ℕ → Decision × Rule
assess_inside none parent = (Decision.uncertain, Rule.unknown_size_class)
assess_inside (some child) none = (Decision.uncertain, Rule.unknown_size_class)
assess_inside (some child) (some parent) =
    compared Rule.known_household_scale_order Rule.child_materially_larger_than_parent child parent

abbrev pub assessed : Text → Text → Text → Decision × Rule
assessed child_key parent_key relation =
    if text_eq relation (codes "on")
    then assess_on (is_surface parent_key) (location_scale child_key) (location_scale parent_key)
    else if text_eq relation (codes "inside")
    then assess_inside (location_scale child_key) (location_scale parent_key)
    else (Decision.uncertain, Rule.unknown_relation)

-- the comparison of two search keys
unfoldable pub assess_keys : Text → Text → Text → ContainmentAssessment
assess_keys child_key parent_key relation =
    if text_eq child_key parent_key
    then record {
      decision = Decision.implausible;
      rule = Rule.same_canonical_location;
      child_scale = none;
      parent_scale = none;
    }
    else record {
      decision = (assessed child_key parent_key relation).0;
      rule = (assessed child_key parent_key relation).1;
      child_scale = location_scale child_key;
      parent_scale = location_scale parent_key;
    }

module _ (is_word : ℕ → Bool) (names : Names) where
  abbrev pub search_key : Text → Text
  search_key name = normalize_search_text is_word names (names.location_display_name name)

  -- `assess_location_relation`
  unfoldable pub assess_location_relation : Text → Text → Text → ContainmentAssessment
  assess_location_relation child parent relation =
      assess_keys (search_key child) (search_key parent) relation

abbrev pub is_plausible : Decision → Bool
is_plausible Decision.plausible = true
is_plausible _ = false

-- the decision `plausible`, by the names of the places and their relation
abbrev pub fits_in : (ℕ → Bool) → Names → Text → Text → Text → Bool
fits_in is_word names child parent relation =
    is_plausible (assess_location_relation is_word names child parent relation).decision
