-- ===== src/Telegram/Delivery.antt =====
-- telegram/polling.py: how often an update is handled, over polls, exceptions and restarts.
use ah_there_it_is.Base.{
  ℕ, suc, ◌≤◌, ◌≡◌, refl, ◌⊎◌, inl, inr, Bool, true, false, Option, none, List, [], ◌∷◌, Bool-cases,
  Option-cases, ◌==◌, ltb, arith, if◌then◌else◌,
}
use ah_there_it_is.Chat.Store.{Ending, done, lost, uncertain}
use ah_there_it_is.Telegram.Polling.{
  Update, Adapter, Polling, Handling, returned, raised, Counts, next_offset, with_offset,
  returned_from, ordered, handling, counts_as_processed, counted, loop, run_once, run_forever,
}

pub Handling-cases : (h : Handling) → ((b : Bool) × (h ≡ returned b)) ⊎ (h ≡ raised)
Handling-cases (returned b) = inl (b, refl)
Handling-cases raised = inr refl

Ending-cases : (e : Ending) → (e ≡ done) ⊎ (e ≡ lost) ⊎ (e ≡ uncertain)
Ending-cases done = inl refl
Ending-cases lost = inr (inl refl)
Ending-cases uncertain = inr (inr refl)

-- the update was handled, and its acknowledgement is stored, or is not
abbrev pub finished : ℕ → Polling → Polling
finished k s = with_offset k (returned_from k s)

abbrev pub dropped : ℕ → Polling → Polling
dropped k s = let s' = returned_from k s in record s' { unstored = k ∷ s'.unstored }

-- how the loop goes on at one update
pub loop_step :
    (P : Option Counts × Polling → Type 0) (a : Adapter) (u : Update) (us : List Update)
    (offset : ℕ) (c : Counts) (s : Polling)
    → (ltb u.update_id offset ≡ true → P (loop a us offset c s))
    → (ltb u.update_id offset ≡ false → P (none, s))
    → (ltb u.update_id offset ≡ false → P (none, dropped u.update_id s))
    → (ltb u.update_id offset ≡ false → P (none, finished u.update_id s))
    → ((b : Bool)
        → ltb u.update_id offset ≡ false
        → (let s' = finished u.update_id s in
            P (loop a us (next_offset s') (counted (counts_as_processed a u b) c) s')))
    → P (loop a (u ∷ us) offset c s)
unfolding loop
loop_step P a u us offset c s old stopped fell broke went =
    elim (Bool-cases (ltb u.update_id offset)) [
      | inl e ↦ rw e (old e)
      | inr n ↦ elim (Handling-cases (handling a u s)) [
        | inr p ↦ rw (n, p) (stopped n)
        | inl (b, p) ↦ elim (Ending-cases (a.store_offset (u.update_id ∷ s.handled) u.update_id)) [
          | inl q ↦ rw (n, p, q) (went b n)
          | inr (inl q) ↦ rw (n, p, q) (fell n)
          | inr (inr q) ↦ rw (n, p, q) (broke n)
        ]
      ]
    ]

abbrev pub count : ℕ → List ℕ → ℕ
count k [] = 0
count k (j ∷ js) = let rest = count k js in if j == k then suc rest else rest

-- an update was handled as often as its acknowledgement was lost, and below the offset once more
abbrev pub IsOnce : Polling → Type 0
IsOnce s =
    (k : ℕ)
    → (count k s.handled ≤ suc (count k s.unstored))
      × (next_offset s ≤ k → count k s.handled ≤ count k s.unstored)

finished-IsOnce : (s : Polling) (k : ℕ) → next_offset s ≤ k → IsOnce s → IsOnce (finished k s)
finished-IsOnce s k above h j =
    let (p, q) = h j in
    elim (Bool-cases (k == j)) [
      | inl e ↦ rw e (ground arith, λ over. ground arith)
      | inr n ↦ rw n (p, λ over. q (ground arith))
    ]

dropped-IsOnce : (s : Polling) (k : ℕ) → next_offset s ≤ k → IsOnce s → IsOnce (dropped k s)
dropped-IsOnce s k above h j =
    let (p, q) = h j in
    elim (Bool-cases (k == j)) [
      | inl e ↦ rw e (omega arith, λ over. let r = q over in omega arith)
      | inr n ↦ rw n (p, q)
    ]

loop-IsOnce :
    (a : Adapter) (us : List Update) (offset : ℕ) (c : Counts) (s : Polling)
    → next_offset s ≡ offset
    → IsOnce s
    → IsOnce (loop a us offset c s).1
unfolding loop
loop-IsOnce a [] offset c s o h = h
loop-IsOnce a (u ∷ us) offset c s o h =
    loop_step (λ x. IsOnce x.1) a u us offset c s (λ old. loop-IsOnce a us offset c s o h) (λ n. h)
      (λ n. dropped-IsOnce s u.update_id (ground arith) h)
      (λ n. finished-IsOnce s u.update_id (ground arith) h)
      (λ b n.
        let s' = finished u.update_id s in
        loop-IsOnce a us (next_offset s') (counted (counts_as_processed a u b) c) s' refl
          (finished-IsOnce s u.update_id (ground arith) h))

run_once-IsOnce :
    (a : Adapter) (updates : List Update) (s : Polling) → IsOnce s → IsOnce (run_once a updates s).1
unfolding run_once
run_once-IsOnce a updates s h = loop-IsOnce a (ordered updates) (next_offset s) _ s refl h

run_forever-IsOnce :
    (a : Adapter) (batches : List (List Update)) (s : Polling)
    → IsOnce s
    → IsOnce (run_forever a batches s)
unfolding run_forever
run_forever-IsOnce a [] s h = h
run_forever-IsOnce a (batch ∷ batches) s h = elim (Option-cases (run_once a batch s).0) [
  | inl e ↦ rw (e, run_forever) (run_once-IsOnce a batch s h)
  | inr (r, e) ↦
      rw (e, run_forever)
        (run_forever-IsOnce a batches (run_once a batch s).1 (run_once-IsOnce a batch s h))
]

-- one start of the bot after another, on what is stored
unfoldable pub restarted : List (Adapter × List (List Update)) → Polling → Polling
restarted [] s = s
restarted ((a, batches) ∷ starts) s = restarted starts (run_forever a batches s)

restarted-IsOnce :
    (starts : List (Adapter × List (List Update))) (s : Polling)
    → IsOnce s
    → IsOnce (restarted starts s)
unfolding restarted
restarted-IsOnce [] s h = h
restarted-IsOnce ((a, batches) ∷ starts) s h =
    restarted-IsOnce starts (run_forever a batches s) (run_forever-IsOnce a batches s h)

abbrev pub first_start : Polling
first_start = record { state = none; handled = []; unstored = [] }

-- Over any starts of the bot, each with any polls and an exception of the handling or of the
-- acknowledgement of an update that ends it anywhere, every update is handled at most once more than an
-- acknowledgement of it was lost (it raised, and nothing was stored), and not once more than that as long as
-- the stored offset is not above its key.
pub handled_again_if_lost :
    (starts : List (Adapter × List (List Update))) (k : ℕ)
    → (let s = restarted starts first_start in
        (count k s.handled ≤ suc (count k s.unstored))
        × (next_offset s ≤ k → count k s.handled ≤ count k s.unstored))
handled_again_if_lost starts k =
    restarted-IsOnce starts first_start (λ j. (omega arith, λ over. omega arith)) k
