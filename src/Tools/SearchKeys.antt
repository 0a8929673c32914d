-- ===== src/Tools/SearchKeys.antt =====
-- domain/names.py and agent/tools.py: search keys and name signatures. The classes of characters and
-- normalize_name are those of Unicode.
use ah_there_it_is.Base.{
  ℕ, Bool, true, false, ◌||◌, ◌&&◌, not, List, [], ◌∷◌, ltb, ◌==◌, if◌then◌else◌,
}
use ah_there_it_is.Text.{Text, strip, is_space}
use ah_there_it_is.Session.{Names}

-- every run of characters of a class becomes one space; the flag says that a run has begun
unfoldable pub collapse : (ℕ → Bool) → Bool → Text → Text
collapse class inside [] = []
collapse class inside (c ∷ s) =
    let run = collapse class true s in
    let after = collapse class false s in
    if class c then (if inside then run else 32 ∷ run) else c ∷ after

-- `normalize_search_text`
unfoldable pub normalize_search_text : (ℕ → Bool) → Names → Text → Text
normalize_search_text is_word names value =
    strip
      (collapse is_space false (collapse (λ c. not (is_word c)) false (names.normalize_name value)))

abbrev pub begun : Text → List Text → List Text
begun [] words = words
begun (c ∷ word) words = (c ∷ word) ∷ words

-- the word that a text begins with, which may be empty, and the words after it
unfoldable pub words_of : Text → Text × List Text
words_of [] = ([], [])
words_of (c ∷ s) =
    let (word, words) = words_of s in
    if is_space c then ([], begun word words) else (c ∷ word, words)

-- `str.split()`
abbrev pub split_words : Text → List Text
split_words s = begun (words_of s).0 (words_of s).1

-- the order of Python's strings
unfoldable pub text_less : Text → Text → Bool
text_less s [] = false
text_less [] (d ∷ t) = true
text_less (c ∷ s) (d ∷ t) = ltb c d || (c == d && text_less s t)

unfoldable pub insert_text : Text → List Text → List Text
insert_text s [] = s ∷ []
insert_text s (t ∷ ts) =
    let rest = insert_text s ts in if text_less t s then t ∷ rest else s ∷ t ∷ ts

unfoldable pub sort_texts : List Text → List Text
sort_texts [] = []
sort_texts (s ∷ ss) = insert_text s (sort_texts ss)

-- `_search_name_signature` of a search text
abbrev pub search_name_signature : Text → List Text
search_name_signature value = sort_texts (split_words value)
