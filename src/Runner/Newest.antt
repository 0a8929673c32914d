-- ===== src/Runner/Newest.antt =====
-- services/conversations.py: the messages of a conversation in the order of its queries, and where a key
-- cuts them.
use ah_there_it_is.Base.{
  ℕ, zero, suc, ◌≤◌, ◌<◌, ◌≡◌, refl, ap, ◌∙◌, subst, ◌==◌, ltb, Bool, true, false, ◌||◌, some, List,
  [], ◌∷◌, map, select, contains, All, take, drop, last, arith, Bool-cases, inl, inr,
}
use ah_there_it_is.Chat.Store.{Message}
use ah_there_it_is.Runner.Conversations.{message_id, insert_newest, newest_first}

-- each row is newer than the next
abbrev pub Descending : List Message → Type 0
Descending [] = Unit
Descending (m ∷ ms) = All (λ x. x.id < m.id) ms × Descending ms

-- no two rows have one key
abbrev pub AreDistinct : List Message → Type 0
AreDistinct [] = Unit
AreDistinct (m ∷ ms) = (contains (map message_id ms) m.id ≡ false) × AreDistinct ms

contains-insert :
    (k : ℕ) (m : Message) (xs : List Message)
    → contains (map message_id (insert_newest m xs)) k
      ≡ (m.id == k || contains (map message_id xs) k)
unfolding insert_newest
contains-insert k m [] = refl
contains-insert k m (x ∷ xs) = ground (arith, contains-insert k m xs)

pub contains-newest :
    (k : ℕ) (xs : List Message)
    → contains (map message_id (newest_first xs)) k ≡ contains (map message_id xs) k
unfolding newest_first
contains-newest k [] = refl
contains-newest k (x ∷ xs) =
    ground (arith, contains-insert k x (newest_first xs), contains-newest k xs)

pub contains-select :
    (k : ℕ) (test : Message → Bool) (xs : List Message)
    → contains (map message_id xs) k ≡ false
    → contains (map message_id (select test xs)) k ≡ false
contains-select k test [] h = refl
contains-select k test (x ∷ xs) h = ground (arith, contains-select k test xs)

pub select-AreDistinct :
    (test : Message → Bool) (xs : List Message) → AreDistinct xs → AreDistinct (select test xs)
select-AreDistinct test [] h = tt
select-AreDistinct test (x ∷ xs) h = elim (Bool-cases (test x)) [
  | inl e ↦ rw e (contains-select x.id test xs h.0, select-AreDistinct test xs h.1)
  | inr e ↦ rw e (select-AreDistinct test xs h.1)
]

insert-All :
    (b : ℕ) (m : Message) (xs : List Message)
    → m.id < b
    → All (λ x. x.id < b) xs
    → All (λ x. x.id < b) (insert_newest m xs)
unfolding insert_newest
insert-All b m [] p h = (p, tt)
insert-All b m (x ∷ xs) p h = elim (Bool-cases (ltb m.id x.id)) [
  | inl e ↦ rw e (h.0, insert-All b m xs p h.1)
  | inr e ↦ rw e (p, h)
]

weaken-All : (b c : ℕ) (xs : List Message) → b ≤ c → All (λ x. x.id < b) xs → All (λ x. x.id < c) xs
weaken-All b c [] p h = tt
weaken-All b c (x ∷ xs) p h = (let q = h.0 in omega arith, weaken-All b c xs p h.1)

insert-Descending :
    (m : Message) (xs : List Message)
    → contains (map message_id xs) m.id ≡ false
    → Descending xs
    → Descending (insert_newest m xs)
unfolding insert_newest
insert-Descending m [] n h = (tt, tt)
insert-Descending m (x ∷ xs) n h = elim (Bool-cases (ltb m.id x.id)) [
  | inl e ↦
      rw e (insert-All x.id m xs (ground arith) h.0, insert-Descending m xs (ground arith) h.1)
  | inr e ↦
      let p : x.id < m.id = ground arith in rw e ((p, weaken-All x.id m.id xs (omega arith) h.0), h)
]

pub newest-Descending : (xs : List Message) → AreDistinct xs → Descending (newest_first xs)
unfolding newest_first
newest-Descending [] h = tt
newest-Descending (x ∷ xs) h =
    insert-Descending x (newest_first xs) (contains-newest x.id xs ∙ h.0) (newest-Descending xs h.1)

-- the last row of a part is the oldest of it, and its id cuts the list there
take-All : (b n : ℕ) (xs : List Message) → All (λ x. x.id < b) xs → All (λ x. x.id < b) (take n xs)
take-All b zero xs h = tt
take-All b (suc n) [] h = tt
take-All b (suc n) (x ∷ xs) h = (h.0, take-All b n xs h.1)

last-All :
    (b : ℕ) (xs : List Message) (m : Message) → All (λ x. x.id < b) xs → last xs ≡ some m → m.id < b
last-All b [] m h e = absurd (cc)
last-All b (x ∷ []) m h e =
    let q = h.0 in let same : x ≡ m = cc in subst (λ (y : Message). y.id < b) same q
last-All b (x ∷ y ∷ ys) m h e = last-All b (y ∷ ys) m h.1 e

select_below :
    (b : ℕ) (xs : List Message) → All (λ x. x.id < b) xs → select (λ m. ltb m.id b) xs ≡ xs
select_below b [] h = refl
select_below b (x ∷ xs) h =
    let e : ltb x.id b ≡ true = (let q = h.0 in ground arith) in
    rw e (ap (λ r. x ∷ r) (select_below b xs h.1))

cut_one :
    (x m : Message) (xs : List Message)
    → All (λ y. y.id < x.id) xs
    → x ≡ m
    → select (λ y. ltb y.id m.id) (x ∷ xs) ≡ xs
cut_one x m xs h e =
    let same : ltb x.id x.id ≡ false = ground arith in
    subst (λ (z : Message). select (λ y. ltb y.id z.id) (x ∷ xs) ≡ xs) e
      (rw same (select_below x.id xs h))

pub cut :
    (n : ℕ) (m : Message) (xs : List Message)
    → Descending xs
    → last (take n xs) ≡ some m
    → select (λ x. ltb x.id m.id) xs ≡ drop n xs
cut zero m xs h e = absurd (cc)
cut (suc n) m [] h e = absurd (cc)
cut (suc zero) m (x ∷ xs) h e = cut_one x m xs h.0 (cc)
cut (suc (suc n)) m (x ∷ []) h e = cut_one x m [] tt (cc)
cut (suc (suc n)) m (x ∷ y ∷ ys) h e =
    let below = last-All x.id (take (suc n) (y ∷ ys)) m (take-All x.id (suc n) (y ∷ ys) h.0) e in
    let older : ltb x.id m.id ≡ false = ground arith in rw older (cut (suc n) m (y ∷ ys) h.1 e)

pub last_found :
    (n : ℕ) (m : Message) (xs : List Message)
    → last (take n xs) ≡ some m
    → contains (map message_id xs) m.id ≡ true
last_found zero m xs e = absurd (cc)
last_found (suc n) m [] e = absurd (cc)
last_found (suc zero) m (x ∷ xs) e = let same : x ≡ m = cc in ground arith
last_found (suc (suc n)) m (x ∷ []) e = let same : x ≡ m = cc in ground arith
last_found (suc (suc n)) m (x ∷ y ∷ ys) e = ground (arith, last_found (suc n) m (y ∷ ys) e)
