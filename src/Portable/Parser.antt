-- ===== src/Portable/Parser.antt =====
-- portable_stream.py: _PortableJsonParser. `json.loads`, of one string or one scalar, is a parameter. Every
-- loop runs on fuel.
use ah_there_it_is.Base.{
  ℕ, zero, suc, Bool, false, ◌&&◌, ◌||◌, not, Option, none, some, List, [], ◌∷◌, ◌++◌, any, reverse,
  ◌==◌, if◌then◌else◌,
}
use ah_there_it_is.Text.{Text, codes, text_eq}
use ah_there_it_is.Portable.Programs.{
  Section, Json, Values, Members, Detail, Program, returns, fails, exhausted, peeks, takes, appends,
  ◌>>=◌, ◌>>◌,
}

-- `path`: the keys; an index of an array is never the name of a section
pub data Step : Type 0 where
  key : Text → Step
  index : Step

abbrev pub JsonPath : Type 0
JsonPath = List Step

-- `_SPOOL_PATHS.get(path)`
unfoldable pub spool_section : JsonPath → Option Section
spool_section (Step.key outer ∷ Step.key inner ∷ []) =
    if text_eq outer (codes "inventory") && text_eq inner (codes "categories")
    then some Section.categories
    else if text_eq outer (codes "inventory") && text_eq inner (codes "locations")
    then some Section.locations
    else if text_eq outer (codes "inventory") && text_eq inner (codes "items")
    then some Section.items
    else if text_eq outer (codes "history") && text_eq inner (codes "events")
    then some Section.events
    else none
spool_section _ = none

-- the characters of JSON
abbrev pub quote : ℕ
quote = 34

abbrev pub backslash : ℕ
backslash = 92

abbrev pub comma : ℕ
comma = 44

abbrev pub colon : ℕ
colon = 58

abbrev pub open_bracket : ℕ
open_bracket = 91

abbrev pub close_bracket : ℕ
close_bracket = 93

abbrev pub open_brace : ℕ
open_brace = 123

abbrev pub close_brace : ℕ
close_brace = 125

abbrev pub is_blank_code : ℕ → Bool
is_blank_code c = c == 32 || c == 9 || c == 13 || c == 10

-- `" \t\r\n,]}"`
abbrev pub ends_scalar : ℕ → Bool
ends_scalar c = is_blank_code c || c == comma || c == close_bracket || c == close_brace

abbrev pub is_code : ℕ → Option ℕ → Bool
is_code c none = false
is_code c (some d) = d == c

-- `_whitespace`
unfoldable pub whitespace : ℕ → Program (Unit {0})
whitespace zero = exhausted
whitespace (suc n) = peeks (λ c. elim c [
  | none ↦ returns tt
  | some d ↦ if is_blank_code d then takes (λ _. whitespace n) else returns tt
])

-- `_expect`
unfoldable pub expect : ℕ → Program (Unit {0})
expect c = takes (λ d. if is_code c d then returns tt else fails Detail.expected)

-- the loop of `_string`, on the characters so far, newest first
unfoldable pub quoted : ℕ → Bool → Text → Program Text
quoted zero escaped raw = exhausted
quoted (suc n) escaped raw = takes (λ c. elim c [
  | none ↦ fails Detail.unterminated_string
  | some d ↦
      if d == quote && not escaped
      then returns (reverse (d ∷ raw))
      else quoted n (d == backslash && not escaped) (d ∷ raw)
])

-- the loop of `_scalar`
unfoldable pub token : ℕ → Text → Program Text
token zero raw = exhausted
token (suc n) raw = peeks (λ c. elim c [
  | none ↦ returns (reverse raw)
  | some d ↦
      if ends_scalar d
      then returns (reverse raw)
      else takes (λ e. elim e [ none ↦ token n raw | some f ↦ token n (f ∷ raw) ])
])

abbrev pub string_value : Option Json → Program Text
string_value none = fails Detail.invalid_string
string_value (some (Json.text s)) = returns s
string_value (some _) = fails Detail.text_expected

abbrev pub scalar_value : Option Json → Program Json
scalar_value none = fails Detail.invalid_value
scalar_value (some (Json.text _)) = fails Detail.invalid_scalar
scalar_value (some (Json.array _)) = fails Detail.invalid_scalar
scalar_value (some (Json.object _)) = fails Detail.invalid_scalar
scalar_value (some value) = returns value

-- what follows an element: the end, another one, or neither
abbrev pub delimited : {A : Type 0} → ℕ → Detail → Program A → Program A → Program A
delimited close detail done more =
    takes (λ c. if is_code close c then done else if is_code comma c then more else fails detail)

-- the empty collection, or the first element
abbrev pub unless_closed : {A : Type 0} → ℕ → Program A → Program A → Program A
unless_closed close empty more = peeks (λ c. if is_code close c then takes (λ _. empty) else more)

module _ (loads : Text → Option Json) where
  -- `_string`
  unfoldable pub string : ℕ → Program Text
  string n = expect quote >> quoted n false (quote ∷ []) >>= (λ raw. string_value (loads raw))

  -- `_scalar`
  unfoldable pub scalar : ℕ → Program Json
  scalar n = token n [] >>= (λ raw. scalar_value (loads raw))

  -- the loops of `_array`, `_spooled_array` and `_object`, with the parser of the elements
  module _ (element : JsonPath → Program Json) where
    unfoldable pub elements : ℕ → JsonPath → Values → Program Json
    elements zero path result = exhausted
    elements (suc n) path result = do
      value ← element (path ++ Step.index ∷ [])
      whitespace n
      let result' = Values.value_after result value
      delimited close_bracket Detail.array_delimiter (returns (Json.array result'))
          (elements n path result')

    unfoldable pub spooled_elements : ℕ → Section → JsonPath → Program Json
    spooled_elements zero section path = exhausted
    spooled_elements (suc n) section path = do
      value ← element (path ++ Step.index ∷ [])
      appends section value (do
        whitespace n
        delimited close_bracket Detail.array_delimiter (returns (Json.spooled section))
            (spooled_elements n section path))

    unfoldable pub members : ℕ → JsonPath → List Text → Members → Program Json
    members zero path seen result = exhausted
    members (suc n) path seen result = do
      whitespace n
      peeks (λ c. if is_code quote c then returns tt else fails Detail.key_not_string)
      name ← string n
      (if any (text_eq name) seen then fails Detail.duplicate_key else returns tt)
      whitespace n
      expect colon
      value ← element (path ++ Step.key name ∷ [])
      whitespace n
      let result' = Members.member_after result name value
      delimited close_brace Detail.object_delimiter (returns (Json.object result'))
          (members n path (name ∷ seen) result')

    -- `_array`
    unfoldable pub parse_array : ℕ → JsonPath → Program Json
    parse_array n path = do
      expect open_bracket
      whitespace n
      unless_closed close_bracket (returns (Json.array Values.no_value))
          (elements n path Values.no_value)

    -- `_spooled_array`
    unfoldable pub spooled_array : ℕ → Section → JsonPath → Program Json
    spooled_array n section path = do
      expect open_bracket
      whitespace n
      unless_closed close_bracket (returns (Json.spooled section)) (spooled_elements n section path)

    -- `_object`
    unfoldable pub parse_object : ℕ → JsonPath → Program Json
    parse_object n path = do
      expect open_brace
      whitespace n
      unless_closed close_brace (returns (Json.object Members.no_member))
          (members n path [] Members.no_member)

    abbrev pub array_at : ℕ → JsonPath → Option Section → Program Json
    array_at n path none = parse_array n path
    array_at n path (some section) = spooled_array n section path

    -- the choice of `_value`
    unfoldable pub value_at : ℕ → JsonPath → Option ℕ → Program Json
    value_at n path none = fails Detail.unexpected_end
    value_at n path (some c) =
        if c == open_brace
        then parse_object n path
        else if c == open_bracket
        then array_at n path (spool_section path)
        else if c == quote
        then string n >>= (λ s. returns (Json.text s))
        else scalar n

  -- `_value`
  unfoldable pub value : ℕ → JsonPath → Program Json
  value zero path = exhausted
  value (suc n) path = whitespace n >> peeks (value_at (value n) n path)

  -- `parse`
  unfoldable pub parse : ℕ → Program Json
  parse n = do
    v ← value n []
    whitespace n
    peeks (λ c. elim c [ none ↦ returns v | some _ ↦ fails Detail.trailing_data ])
