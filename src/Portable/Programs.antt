-- ===== src/Portable/Programs.antt =====
-- portable_stream.py: JSON values, the workspace, and programs that read characters of a stream.
use ah_there_it_is.Base.{ℕ, Bool, true, false, Option, List, ◌++◌, [], ◌∷◌, if◌then◌else◌}
use ah_there_it_is.Text.{Text}

-- the values of `_SPOOL_PATHS`
pub data Section : Type 0 where
  categories locations items events : Section

mutual
  -- what the parser returns: the values of `json.loads`, numbers by their literal, and SpoolMarker
  pub data Json : Type 0 where
    null : Json
    boolean : Bool → Json
    number : Text → Json
    text : Text → Json
    array : Values → Json
    object : Members → Json
    spooled : Section → Json

  pub data Values : Type 0 where
    no_value : Values
    value_after : Values → Json → Values

  -- a dictionary, in the order of insertion
  pub data Members : Type 0 where
    no_member : Members
    member_after : Members → Text → Json → Members

-- what `_fail` is called with
pub data Detail : Type 0 where
  trailing_data unexpected_end key_not_string duplicate_key object_delimiter array_delimiter :
      Detail
  unterminated_string invalid_string text_expected invalid_value invalid_scalar expected : Detail

-- the records that were appended to each section; `counts` are the lengths
abbrev pub Workspace : Type 0
Workspace = Section → List Json

abbrev pub is_section : Section → Section → Bool
is_section Section.categories Section.categories = true
is_section Section.locations Section.locations = true
is_section Section.items Section.items = true
is_section Section.events Section.events = true
is_section _ _ = false

-- `PortableInputWorkspace.append`
unfoldable pub append : Section → Json → Workspace → Workspace
append section value workspace s =
    if is_section section s then workspace s ++ value ∷ [] else workspace s

-- a reader of characters that appends to the workspace; `exhausted` is the end of the fuel
pub data Program (A : Type 0) : Type 0 where
  returns : A → Program A
  fails : Detail → Program A
  exhausted : Program A
  peeks : (Option ℕ → Program A) → Program A
  takes : (Option ℕ → Program A) → Program A
  appends : Section → Json → Program A → Program A

infixl 10 ◌>>=◌
unfoldable pub ◌>>=◌ : {A B : Type 0} → Program A → (A → Program B) → Program B
returns a >>= f = f a
fails detail >>= f = fails detail
exhausted >>= f = exhausted
peeks k >>= f = peeks (λ c. k c >>= f)
takes k >>= f = takes (λ c. k c >>= f)
appends section value p >>= f = appends section value (p >>= f)

infixl 10 ◌>>◌
abbrev pub ◌>>◌ : {A B : Type 0} → Program A → Program B → Program B
p >> q = p >>= (λ _. q)

-- a character, or the end, or PortableInputError of the stream
pub data Read (S : Type 0) : Type 0 where
  unreadable : Read S
  got : Option ℕ → S → Read S

-- a stream: `peek`, `take` and `offset`
pub record Source (S : Type 0) : Type 0 where
  pub peek : S → Read S
  pub take : S → Read S
  pub offset : S → ℕ

pub data Ended (A S : Type 0) : Type 0 where
  read : A → S → Workspace → Ended A S
  refused : Detail → ℕ → Ended A S
  undecodable : Ended A S
  out_of_fuel : Ended A S

module _ {A S : Type 0} (source : Source S) where
  -- a program on a stream
  unfoldable pub run : Program A → S → Workspace → Ended A S
  run (returns a) s w = read a s w
  run (fails detail) s w = refused detail (source.offset s)
  run exhausted s w = out_of_fuel
  run (peeks k) s w = elim (source.peek s) [ unreadable ↦ undecodable | got c s' ↦ run (k c) s' w ]
  run (takes k) s w = elim (source.take s) [ unreadable ↦ undecodable | got c s' ↦ run (k c) s' w ]
  run (appends section value p) s w = run p s (append section value w)
