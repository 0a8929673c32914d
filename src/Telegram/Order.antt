-- ===== src/Telegram/Order.antt =====
-- telegram/polling.py: the updates of one poll are handled in order, and acknowledged when they are handled.
use ah_there_it_is.Base.{
  ℕ, ◌≤◌, ◌≡◌, refl, inl, inr, true, ◌||◌, List, [], ◌∷◌, contains, map, All, Bool-cases, ◌==◌, ltb,
  arith,
}
use ah_there_it_is.Telegram.Polling.{
  Update, Adapter, Polling, Counts, next_offset, insert_update, ordered, counts_as_processed,
  counted, loop,
}
use ah_there_it_is.Telegram.Delivery.{finished, loop_step}

abbrev pub key : Update → ℕ
key u = u.update_id

abbrev pub Ascending : List Update → Type 0
Ascending [] = Unit
Ascending (u ∷ us) = All (λ v. key u ≤ key v) us × Ascending us

insert-All :
    (b : ℕ) (u : Update) (us : List Update)
    → b ≤ key u
    → All (λ v. b ≤ key v) us
    → All (λ v. b ≤ key v) (insert_update u us)
unfolding insert_update
insert-All b u [] p h = (p, tt)
insert-All b u (v ∷ vs) p h = elim (Bool-cases (ltb v.update_id u.update_id)) [
  | inl e ↦ rw e (h.0, insert-All b u vs p h.1)
  | inr e ↦ rw e (p, h)
]

weaken-All :
    (b c : ℕ) (us : List Update) → b ≤ c → All (λ v. c ≤ key v) us → All (λ v. b ≤ key v) us
weaken-All b c [] p h = tt
weaken-All b c (u ∷ us) p h = (let q = h.0 in omega arith, weaken-All b c us p h.1)

insert-Ascending : (u : Update) (us : List Update) → Ascending us → Ascending (insert_update u us)
unfolding insert_update
insert-Ascending u [] h = (tt, tt)
insert-Ascending u (v ∷ vs) h = elim (Bool-cases (ltb v.update_id u.update_id)) [
  | inl e ↦ rw e (insert-All v.update_id u vs (ground arith) h.0, insert-Ascending u vs h.1)
  | inr e ↦
      let p : u.update_id ≤ v.update_id = ground arith in
      rw e ((p, weaken-All u.update_id v.update_id vs p h.0), h)
]

pub ordered-Ascending : (us : List Update) → Ascending (ordered us)
unfolding ordered
ordered-Ascending [] = tt
ordered-Ascending (u ∷ us) = insert-Ascending u (ordered us) (ordered-Ascending us)

contains-insert :
    (k : ℕ) (u : Update) (us : List Update)
    → contains (map key (insert_update u us)) k ≡ (u.update_id == k || contains (map key us) k)
unfolding insert_update
contains-insert k u [] = refl
contains-insert k u (v ∷ vs) = ground (arith, contains-insert k u vs)

pub contains-ordered :
    (k : ℕ) (us : List Update) → contains (map key (ordered us)) k ≡ contains (map key us) k
unfolding ordered
contains-ordered k [] = refl
contains-ordered k (u ∷ us) =
    ground (arith, contains-insert k u (ordered us), contains-ordered k us)

pub All-contains :
    (b k : ℕ) (us : List Update) → All (λ v. b ≤ key v) us → contains (map key us) k ≡ true → b ≤ k
All-contains b k [] h c = absurd (cc)
All-contains b k (u ∷ us) h c = elim (Bool-cases (u.update_id == k)) [
  | inl e ↦ let q = h.0 in ground arith
  | inr n ↦ All-contains b k us h.1 (ground arith)
]

-- the loop keeps what was handled, and the offset never falls
pub loop_keeps :
    (a : Adapter) (us : List Update) (offset : ℕ) (c : Counts) (s : Polling) (k : ℕ)
    → contains s.handled k ≡ true
    → contains (loop a us offset c s).1.handled k ≡ true
unfolding loop
loop_keeps a [] offset c s k h = h
loop_keeps a (u ∷ us) offset c s k h =
    loop_step (λ x. contains x.1.handled k ≡ true) a u us offset c s
      (λ old. loop_keeps a us offset c s k h) (λ n. h) (λ n. ground arith) (λ n. ground arith)
      (λ b n.
        let s' = finished u.update_id s in
        loop_keeps a us (next_offset s') (counted (counts_as_processed a u b) c) s' k
          (ground arith))

pub loop_rises :
    (a : Adapter) (us : List Update) (offset : ℕ) (c : Counts) (s : Polling)
    → next_offset s ≤ next_offset (loop a us offset c s).1
unfolding loop
loop_rises a [] offset c s = omega arith
loop_rises a (u ∷ us) offset c s =
    loop_step (λ x. next_offset s ≤ next_offset x.1) a u us offset c s
      (λ old. loop_rises a us offset c s) (λ n. omega arith) (λ n. omega arith) (λ n. omega arith)
      (λ b n.
        let s' = finished u.update_id s in
        let rest = loop_rises a us (next_offset s') (counted (counts_as_processed a u b) c) s' in
        omega arith)
