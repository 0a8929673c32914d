-- ===== src/Portable/Ending.antt =====
-- portable_stream.py: the fuel and the characters that the parser uses.
use ah_there_it_is.Base.{
  ℕ, zero, suc, ◌-◌, ◌≤◌, false, any, Option, none, some, List, [], ◌∷◌, ◌++◌, arith, ◌==◌,
  if◌then◌else◌,
}
use ah_there_it_is.Text.{Text, text_eq}
use ah_there_it_is.Portable.Programs.{
  Program, returns, fails, peeks, appends, ◌>>=◌, append, run, Json, Values, Members, Section,
  Detail,
}
use ah_there_it_is.Portable.Bytes.{whole}
use ah_there_it_is.Portable.Parser.{
  JsonPath, Step, spool_section, quote, colon, open_bracket, close_bracket, open_brace, close_brace,
  is_code, expect, string_value, scalar_value, unless_closed, string, scalar, elements,
  spooled_elements, members, parse_array, spooled_array, parse_object, array_at, value_at, value,
  parse,
}
use ah_there_it_is.Portable.Fuel.{
  Uses, bind-Uses, if_Uses, returns-Uses, fails-Uses, peeks-Uses, expect-Uses, delimited-Uses,
  whitespace-Uses, quoted-Uses, token-Uses, Ends-fewer, if_Ends,
}

-- fewer texts, and fewer characters taken
fewer : {A : Type 0} (b b' k k' : ℕ) (p : Program A) → b' ≤ b → k' ≤ k → Uses b k p → Uses b' k' p
unfolding Uses
fewer b b' k k' p h l u t o w m =
    Ends-fewer t k k' (run whole p (t, o) w) l (u t o w (omega (arith, h, m)))

no_shorter : {A : Type 0} (k : ℕ) (p : Program A) → Uses 0 k p
unfolding Uses
no_shorter k p t o w l = ground (arith, l)

appends-Uses :
    {A : Type 0} (b k : ℕ) (section : Section) (v : Json) (p : Program A)
    → Uses b k p
    → Uses b k (appends section v p)
unfolding Uses run
appends-Uses b k section v p h t o w l = h t o (append section v w) l

string_value-Uses : (b : ℕ) (v : Option Json) → Uses b 0 (string_value v)
string_value-Uses b none = fails-Uses _ b 0 Detail.invalid_string
string_value-Uses b (some (Json.text s)) = returns-Uses b s
string_value-Uses b (some Json.null) = fails-Uses _ b 0 Detail.text_expected
string_value-Uses b (some (Json.boolean x)) = fails-Uses _ b 0 Detail.text_expected
string_value-Uses b (some (Json.number x)) = fails-Uses _ b 0 Detail.text_expected
string_value-Uses b (some (Json.array x)) = fails-Uses _ b 0 Detail.text_expected
string_value-Uses b (some (Json.object x)) = fails-Uses _ b 0 Detail.text_expected
string_value-Uses b (some (Json.spooled x)) = fails-Uses _ b 0 Detail.text_expected

scalar_value-Uses : (b : ℕ) (v : Option Json) → Uses b 0 (scalar_value v)
scalar_value-Uses b none = fails-Uses _ b 0 Detail.invalid_value
scalar_value-Uses b (some (Json.text s)) = fails-Uses _ b 0 Detail.invalid_scalar
scalar_value-Uses b (some Json.null) = returns-Uses b Json.null
scalar_value-Uses b (some (Json.boolean x)) = returns-Uses b (Json.boolean x)
scalar_value-Uses b (some (Json.number x)) = returns-Uses b (Json.number x)
scalar_value-Uses b (some (Json.array x)) = fails-Uses _ b 0 Detail.invalid_scalar
scalar_value-Uses b (some (Json.object x)) = fails-Uses _ b 0 Detail.invalid_scalar
scalar_value-Uses b (some (Json.spooled x)) = returns-Uses b (Json.spooled x)

-- one part takes nothing that must be counted, or a character, and the rest follows
after :
    {A B : Type 0} (b : ℕ) (p : Program A) (f : A → Program B)
    → Uses b 0 p
    → ((a : A) → Uses b 0 (f a))
    → Uses b 0 (p >>= f)
after b p f h k = bind-Uses b b 0 0 p f (omega arith) h k

after_one :
    {A B : Type 0} (b : ℕ) (p : Program A) (f : A → Program B)
    → Uses b 1 p
    → ((a : A) → Uses (b - 1) 0 (f a))
    → Uses b 0 (p >>= f)
after_one b p f h k = bind-Uses b (b - 1) 1 0 p f (omega arith) h k

unless_closed-Uses :
    {A : Type 0} (b close : ℕ) (empty more : Program A)
    → Uses b 0 empty
    → Uses b 0 more
    → Uses b 0 (unless_closed close empty more)
unfolding Uses run
unless_closed-Uses b close empty more h k [] o w l = k [] o w l
unless_closed-Uses b close empty more h k (c ∷ t) o w l =
    if_Ends c t o w (c == close) (λ _. empty) more (h t (suc o) w (omega (arith, l)))
      (k (c ∷ t) o w l)

at_end-Uses :
    (b : ℕ) (v : Json) (c : Option ℕ)
    → Uses b 0 (elim c [ none ↦ returns v | some _ ↦ fails Detail.trailing_data ])
at_end-Uses b v none = returns-Uses b v
at_end-Uses b v (some c) = fails-Uses _ b 0 Detail.trailing_data

module _ (loads : Text → Option Json) where
  string-Uses : (n : ℕ) → Uses n 0 (string loads n)
  unfolding string
  string-Uses n =
      after n _ _
        (after_one n (expect quote) _ (expect-Uses n quote) (λ _.
          fewer n (n - 1) 0 0 _ (omega arith) (omega arith) (quoted-Uses n false (quote ∷ []))))
        (λ raw. string_value-Uses n (loads raw))

  scalar-Uses : (n : ℕ) → Uses n 0 (scalar loads n)
  unfolding scalar
  scalar-Uses n = after n _ _ (token-Uses n []) (λ raw. scalar_value-Uses n (loads raw))

  module _ (element : JsonPath → Program Json) (b : ℕ)
      (element-Uses : (path : JsonPath) → Uses b 0 (element path)) where
    elements-Uses :
        (n : ℕ) (path : JsonPath) (result : Values)
        → n ≤ suc b
        → Uses (n - 1) 0 (elements loads element n path result)
    unfolding elements
    elements-Uses zero path result m = no_shorter 0 _
    elements-Uses (suc n) path result m = fewer n (suc n - 1) 0 0 _ (omega arith) (omega arith) (
        after n _ _
          (fewer b n 0 0 _ (omega (arith, m)) (omega arith)
            (element-Uses (path ++ Step.index ∷ [])))
          (λ v. after n _ _ (whitespace-Uses n) (λ _. fewer n n 1 0 _ (omega arith) (omega arith) (
            delimited-Uses n close_bracket Detail.array_delimiter _ _ (returns-Uses (n - 1) _)
              (elements-Uses n path (Values.value_after result v) (omega (arith, m)))))))

    spooled_elements-Uses :
        (n : ℕ) (section : Section) (path : JsonPath)
        → n ≤ suc b
        → Uses (n - 1) 0 (spooled_elements loads element n section path)
    unfolding spooled_elements
    spooled_elements-Uses zero section path m = no_shorter 0 _
    spooled_elements-Uses (suc n) section path m =
        fewer n (suc n - 1) 0 0 _ (omega arith) (omega arith) (
          after n _ _
            (fewer b n 0 0 _ (omega (arith, m)) (omega arith)
              (element-Uses (path ++ Step.index ∷ [])))
            (λ v. appends-Uses n 0 section v _ (
              after n _ _ (whitespace-Uses n) (λ _. fewer n n 1 0 _ (omega arith) (omega arith) (
                delimited-Uses n close_bracket Detail.array_delimiter _ _ (returns-Uses (n - 1) _)
                  (spooled_elements-Uses n section path (omega (arith, m))))))))

    key_ahead-Uses :
        (n : ℕ)
        → Uses n 0
            (peeks (λ c. if is_code quote c then returns (tt {0}) else fails Detail.key_not_string))
    key_ahead-Uses n = peeks-Uses n 0 _ (λ c.
        if_Uses n 0 (is_code quote c) _ _ (returns-Uses n tt)
          (fails-Uses _ n 0 Detail.key_not_string))

    members-Uses :
        (n : ℕ) (path : JsonPath) (seen : List Text) (result : Members)
        → n ≤ suc b
        → Uses (n - 1) 0 (members loads element n path seen result)
    unfolding members
    members-Uses zero path seen result m = no_shorter 0 _
    members-Uses (suc n) path seen result m =
        fewer n (suc n - 1) 0 0 _ (omega arith) (omega arith) (
          after n _ _ (whitespace-Uses n) (λ _. after n _ _ (key_ahead-Uses n) (λ _.
            after n _ _ (string-Uses n) (λ name.
              after n _ _
                (if_Uses n 0 (any (text_eq name) seen) _ _ (fails-Uses _ n 0 Detail.duplicate_key)
                  (returns-Uses n tt))
                (λ _. after n _ _ (whitespace-Uses n) (λ _.
                  after n _ _ (fewer n n 1 0 _ (omega arith) (omega arith) (expect-Uses n colon))
                    (λ _.
                      after n _ _
                        (fewer b n 0 0 _ (omega (arith, m)) (omega arith)
                          (element-Uses (path ++ Step.key name ∷ [])))
                        (λ v. after n _ _ (whitespace-Uses n) (λ _.
                          fewer n n 1 0 _ (omega arith) (omega arith) (
                            delimited-Uses n close_brace Detail.object_delimiter _ _
                              (returns-Uses (n - 1) _)
                              (members-Uses n path (name ∷ seen)
                                (Members.member_after result name v) (omega (arith, m)))))))))))))

    parse_array-Uses :
        (n : ℕ) (path : JsonPath) → n ≤ suc b → Uses n 0 (parse_array loads element n path)
    unfolding parse_array
    parse_array-Uses n path m = after_one n _ _ (expect-Uses n open_bracket) (λ _.
        after (n - 1) _ _ (fewer n (n - 1) 0 0 _ (omega arith) (omega arith) (whitespace-Uses n))
          (λ _.
            unless_closed-Uses (n - 1) close_bracket _ _ (returns-Uses (n - 1) _)
              (elements-Uses n path Values.no_value m)))

    spooled_array-Uses :
        (n : ℕ) (section : Section) (path : JsonPath)
        → n ≤ suc b
        → Uses n 0 (spooled_array loads element n section path)
    unfolding spooled_array
    spooled_array-Uses n section path m = after_one n _ _ (expect-Uses n open_bracket) (λ _.
        after (n - 1) _ _ (fewer n (n - 1) 0 0 _ (omega arith) (omega arith) (whitespace-Uses n))
          (λ _.
            unless_closed-Uses (n - 1) close_bracket _ _ (returns-Uses (n - 1) _)
              (spooled_elements-Uses n section path m)))

    parse_object-Uses :
        (n : ℕ) (path : JsonPath) → n ≤ suc b → Uses n 0 (parse_object loads element n path)
    unfolding parse_object
    parse_object-Uses n path m = after_one n _ _ (expect-Uses n open_brace) (λ _.
        after (n - 1) _ _ (fewer n (n - 1) 0 0 _ (omega arith) (omega arith) (whitespace-Uses n))
          (λ _.
            unless_closed-Uses (n - 1) close_brace _ _ (returns-Uses (n - 1) _)
              (members-Uses n path [] Members.no_member m)))

    array_at-Uses :
        (n : ℕ) (path : JsonPath) (section : Option Section)
        → n ≤ suc b
        → Uses n 0 (array_at loads element n path section)
    array_at-Uses n path none m = parse_array-Uses n path m
    array_at-Uses n path (some section) m = spooled_array-Uses n section path m

    value_at-Uses :
        (n : ℕ) (path : JsonPath) (c : Option ℕ)
        → n ≤ suc b
        → Uses n 0 (value_at loads element n path c)
    unfolding value_at
    value_at-Uses n path none m = fails-Uses _ n 0 Detail.unexpected_end
    value_at-Uses n path (some c) m =
        if_Uses n 0 (c == open_brace) _ _ (parse_object-Uses n path m) (
          if_Uses n 0 (c == open_bracket) _ _ (array_at-Uses n path (spool_section path) m) (
            if_Uses n 0 (c == quote) _ _
              (after n _ _ (string-Uses n) (λ s. returns-Uses n (Json.text s))) (scalar-Uses n)))

  value-Uses : (n : ℕ) (path : JsonPath) → Uses (n - 1) 0 (value loads n path)
  unfolding value
  value-Uses zero path = no_shorter 0 _
  value-Uses (suc n) path = fewer n (suc n - 1) 0 0 _ (omega arith) (omega arith) (
      after n _ _ (whitespace-Uses n) (λ _.
        peeks-Uses n 0 _
          (λ c. value_at-Uses (value loads n) (n - 1) (value-Uses n) n path c (omega arith))))

  pub parse-Uses : (n : ℕ) → Uses (n - 1) 0 (parse loads n)
  unfolding parse
  parse-Uses n = after (n - 1) _ _ (value-Uses n []) (λ v.
      after (n - 1) _ _ (fewer n (n - 1) 0 0 _ (omega arith) (omega arith) (whitespace-Uses n))
        (λ _. peeks-Uses (n - 1) 0 _ (λ c. at_end-Uses (n - 1) v c)))
