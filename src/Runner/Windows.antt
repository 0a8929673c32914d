-- ===== src/Runner/Windows.antt =====
-- services/conversations.py: the message windows of a conversation, read one after another.
use ah_there_it_is.Base.{
  ℕ, zero, suc, ◌+◌, ◌≤◌, ◌<◌, ◌≡◌, refl, sym, ap, ◌∙◌, ◌==◌, ltb, Bool, true, false, Option, none,
  some, List, [], ◌∷◌, ◌++◌, length, map, select, contains, reverse, take, drop, last,
  first-reverse, last-append, take-drop, drop-drop, drop_all, take_all, take-take, take-add,
  length-take, arith, Bool-cases, inl, inr,
}
use mathlib.Core.List.{reverse-append}
use ah_there_it_is.Chat.Store.{Message, Store, ok, err}
use ah_there_it_is.Runner.Conversations.{
  message_id, newest_first, in_conversation, older_than, conversation_rows, window_of, id_of,
  is_zero, is_known, get_conversation, message_window, max_message_window_limit,
}
use ah_there_it_is.Runner.Newest.{
  Descending, AreDistinct, newest-Descending, cut, last_found, contains-newest, contains-select,
  select-AreDistinct,
}

-- a reader who follows `next_before_id` from a window on, for at most so many windows, and puts
-- each window before what was read
unfoldable pub read_back : {W : Type 0} → ℕ → ℕ → ℕ → Option ℕ → Store W → List Message
read_back zero c limit before d = []
read_back (suc fuel) c limit before d = elim (message_window c limit before d) [
  | err _ ↦ []
  | ok w ↦ elim w.next_before_id [
    | none ↦ w.messages
    | some b ↦ read_back fuel c limit (some b) d ++ w.messages
  ]
]

module _ {W : Type 0} (c limit : ℕ) (d : Store W) (known : contains d.conversations c ≡ true)
    (low : 1 ≤ limit) (high : limit ≤ max_message_window_limit) where
  abbrev rows : List Message
  rows = conversation_rows c d

  window_found :
      (before : Option ℕ) (xs : List Message)
      → is_zero before ≡ false
      → is_known before rows ≡ true
      → older_than before rows ≡ xs
      → message_window c limit before d ≡ ok (window_of limit xs)
  unfolding message_window get_conversation
  window_found before xs positive there e =
      let a : (limit == 0) ≡ false = ground arith in
      let b : (ltb max_message_window_limit limit) ≡ false = ground arith in
      rw (a, b, positive, known, there, e) refl

  -- a window that is the last, and one that is not
  last_window :
      (xs : List Message)
      → length xs ≤ limit
      → window_of limit xs
        ≡ record { messages = reverse xs; limit = limit; has_older = false; next_before_id = none }
  unfolding window_of
  last_window xs h =
      let a : take (suc limit) xs ≡ xs = take_all (suc limit) xs (omega (arith, h)) in
      let b : ltb limit (length xs) ≡ false = ground arith in rw (a, b, take_all limit xs h) refl

  full_window :
      (xs : List Message)
      → limit < length xs
      → window_of limit xs ≡ record {
        messages = reverse (take limit xs);
        limit = limit;
        has_older = true;
        next_before_id = id_of (last (take limit xs));
      }
  unfolding window_of
  full_window xs h =
      let n = length-take (suc limit) xs (omega (arith, h)) in
      let b : ltb limit (suc limit) ≡ true = ground arith in
      rw (take-take limit xs, n, b, first-reverse (take limit xs)) refl

last_there : (xs : List Message) → 1 ≤ length xs → (m : Message) × (last xs ≡ some m)
last_there [] h = absurd (omega (arith, h))
last_there (x ∷ []) h = (x, refl)
last_there (x ∷ y ∷ ys) h = last_there (y ∷ ys) (omega arith)

last_shift :
    (k n : ℕ) (m : Message) (xs : List Message)
    → last (take n (drop k xs)) ≡ some m
    → last (take (k + n) xs) ≡ some m
last_shift k n m xs e = rw (take-add k n xs) (after (take k xs) (take n (drop k xs)) e)
  where
    after : (ys bs : List Message) → last bs ≡ some m → last (ys ++ bs) ≡ some m
    after ys [] e = absurd (cc)
    after ys (b ∷ bs) e = last-append ys bs b ∙ e

positive_id :
    (m : Message) (xs : List Message)
    → contains (map message_id xs) 0 ≡ false
    → contains (map message_id xs) m.id ≡ true
    → (m.id == 0) ≡ false
positive_id m xs h e = elim (Bool-cases (m.id == 0)) [
  | inl z ↦ let zero_id : m.id ≡ 0 = ground arith in absurd (cc)
  | inr n ↦ n
]

abbrev after_window : {W : Type 0} → ℕ → ℕ → ℕ → Store W → List Message → Option ℕ → List Message
after_window fuel c limit d messages none = messages
after_window fuel c limit d messages (some b) = read_back fuel c limit (some b) d ++ messages

window_read :
    {W : Type 0} (c limit : ℕ) (d : Store W) (fuel : ℕ) (before next : Option ℕ)
    (messages : List Message) (has_older : Bool)
    → message_window c limit before d
      ≡ ok (record {
        messages = messages;
        limit = limit;
        has_older = has_older;
        next_before_id = next;
      })
    → read_back (suc fuel) c limit before d ≡ after_window fuel c limit d messages next
unfolding read_back
window_read c limit d fuel before none messages has_older e = rw (e, read_back) refl
window_read c limit d fuel before (some b) messages has_older e = rw (e, read_back) refl

module _ {W : Type 0} (c limit : ℕ) (d : Store W) (known : contains d.conversations c ≡ true)
    (low : 1 ≤ limit) (high : limit ≤ max_message_window_limit)
    (sorted : Descending (conversation_rows c d))
    (positive : contains (map message_id (conversation_rows c d)) 0 ≡ false) where
  read_rest :
      (fuel k : ℕ) (before : Option ℕ)
      → is_zero before ≡ false
      → is_known before (conversation_rows c d) ≡ true
      → older_than before (conversation_rows c d) ≡ drop k (conversation_rows c d)
      → length (conversation_rows c d) < k + fuel
      → read_back fuel c limit before d ≡ reverse (drop k (conversation_rows c d))
  unfolding read_back older_than
  read_rest zero k before z e there enough =
      ap reverse (sym (drop_all k (conversation_rows c d) (omega (arith, enough))))
  read_rest (suc fuel) k before z e there enough =
      let xs = drop k (conversation_rows c d) in
      elim (Bool-cases (ltb limit (length xs))) [
        | inr short ↦ window_read c limit d fuel before none (reverse xs) false (
            window_found c limit d known low high before xs z e there
            ∙ ap ok (last_window c limit d known low high xs (ground arith)))
        | inl long ↦
            let some_rows = length-take limit xs (ground arith) in
            let (m, is_last) = last_there (take limit xs) (omega arith) in
            let whole = last_shift k limit m (conversation_rows c d) is_last in
            let found = last_found (k + limit) m (conversation_rows c d) whole in
            let next =
              read_rest fuel (k + limit) (some m.id)
                (positive_id m (conversation_rows c d) positive found) found
                (cut (k + limit) m (conversation_rows c d) sorted whole) (omega arith) in
            window_read c limit d fuel before (some m.id) (reverse (take limit xs)) true (
              window_found c limit d known low high before xs z e there
              ∙ (ap ok (full_window c limit d known low high xs (ground arith))
                  ∙ (rw is_last refl)))
            ∙ (ap (λ r. r ++ reverse (take limit xs)) next
                ∙ (ap (λ r. reverse r ++ reverse (take limit xs))
                      (sym (drop-drop k limit (conversation_rows c d)))
                    ∙ (sym (reverse-append (take limit xs) (drop limit xs))
                        ∙ ap reverse (take-drop limit xs))))
      ]

-- In a stored conversation, when no two messages have one key and no key is zero, a reader who starts
-- with the newest window and follows next_before_id reads every message of the conversation once,
-- oldest first, for any limit in range, after at most as many windows as one more than there are
-- messages.
pub windows_cover :
    {W : Type 0} (c limit : ℕ) (d : Store W)
    → contains d.conversations c ≡ true
    → 1 ≤ limit
    → limit ≤ max_message_window_limit
    → AreDistinct d.messages
    → contains (map message_id d.messages) 0 ≡ false
    → read_back (suc (length (conversation_rows c d))) c limit none d
      ≡ reverse (conversation_rows c d)
unfolding conversation_rows newest_first older_than
windows_cover c limit d known low high distinct positive =
    read_rest c limit d known low high
      (newest-Descending (select (in_conversation c) d.messages)
        (select-AreDistinct (in_conversation c) d.messages distinct))
      (contains-newest 0 (select (in_conversation c) d.messages)
        ∙ contains-select 0 (in_conversation c) d.messages positive)
      (suc (length (conversation_rows c d))) 0 none refl refl refl (omega arith)
