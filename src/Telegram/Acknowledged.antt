-- ===== src/Telegram/Acknowledged.antt =====
-- telegram/polling.py: what one poll acknowledges was handled, and a poll that returns handled all it fetched.
use ah_there_it_is.Base.{
  ℕ, ◌<◌, ◌≤◌, ◌≡◌, refl, ◌∙◌, ◌⊎◌, inl, inr, true, some, List, [], ◌∷◌, contains, map, Bool-cases,
  Option-cases, ◌==◌, arith,
}
use ah_there_it_is.Telegram.Polling.{
  Update, Adapter, Polling, Counts, next_offset, ordered, counts_as_processed, counted, loop,
  run_once, PollResult,
}
use ah_there_it_is.Telegram.Delivery.{finished, loop_step}
use ah_there_it_is.Telegram.Order.{
  key, Ascending, ordered-Ascending, contains-ordered, All-contains, loop_keeps, loop_rises,
}

loop_handles :
    (a : Adapter) (us : List Update) (offset : ℕ) (c : Counts) (s : Polling) (k : ℕ)
    → Ascending us
    → next_offset s ≡ offset
    → contains (map key us) k ≡ true
    → k < next_offset (loop a us offset c s).1
    → (k < offset) ⊎ (contains (loop a us offset c s).1.handled k ≡ true)
unfolding loop
loop_handles a [] offset c s k sorted o inside = absurd (cc)
loop_handles a (u ∷ us) offset c s k sorted o inside =
    loop_step (λ x. k < next_offset x.1 → (k < offset) ⊎ (contains x.1.handled k ≡ true)) a u us
      offset c s
      (λ old seen. elim (Bool-cases (u.update_id == k)) [
        | inl y ↦ inl (ground arith)
        | inr n ↦ loop_handles a us offset c s k sorted.1 o (ground arith) seen
      ])
      (λ n seen. inl (omega (arith, o, seen))) (λ n seen. inl (omega (arith, o, seen)))
      (λ n seen. elim (Bool-cases (u.update_id == k)) [
        | inl y ↦ inr (ground arith)
        | inr other ↦
            let later : contains (map key us) k ≡ true = ground arith in
            let big = All-contains u.update_id k us sorted.0 later in inl (ground arith)
      ])
      (λ b n seen.
        let s' = finished u.update_id s in
        let c' = counted (counts_as_processed a u b) c in
        elim (Bool-cases (u.update_id == k)) [
          | inl y ↦ inr (loop_keeps a us (next_offset s') c' s' k (ground arith))
          | inr other ↦
              let later : contains (map key us) k ≡ true = ground arith in
              elim (loop_handles a us (next_offset s') c' s' k sorted.1 refl later seen) [
                | inl small ↦
                    let big = All-contains u.update_id k us sorted.0 later in absurd (ground arith)
                | inr h ↦ inr h
              ]
        ])

loop_passes :
    (a : Adapter) (us : List Update) (offset : ℕ) (c c2 : Counts) (s : Polling) (k : ℕ)
    → next_offset s ≡ offset
    → contains (map key us) k ≡ true
    → (loop a us offset c s).0 ≡ some c2
    → k < next_offset (loop a us offset c s).1
unfolding loop
loop_passes a [] offset c c2 s k o inside = absurd (cc)
loop_passes a (u ∷ us) offset c c2 s k o inside =
    loop_step (λ x. x.0 ≡ some c2 → k < next_offset x.1) a u us offset c s
      (λ old ends. elim (Bool-cases (u.update_id == k)) [
        | inl y ↦ let rises = loop_rises a us offset c s in ground arith
        | inr n ↦ loop_passes a us offset c c2 s k o (ground arith) ends
      ])
      (λ n ends. absurd (cc)) (λ n ends. absurd (cc)) (λ n ends. absurd (cc))
      (λ b n ends.
        let s' = finished u.update_id s in
        let c' = counted (counts_as_processed a u b) c in
        elim (Bool-cases (u.update_id == k)) [
          | inl y ↦ let rises = loop_rises a us (next_offset s') c' s' in ground arith
          | inr other ↦ loop_passes a us (next_offset s') c' c2 s' k refl (ground arith) ends
        ])

poll_passes :
    (a : Adapter) (updates : List Update) (s : Polling) (r : PollResult) (k : ℕ)
    → (run_once a updates s).0 ≡ some r
    → contains (map key updates) k ≡ true
    → k < next_offset (run_once a updates s).1
unfolding run_once
poll_passes a updates s r k ends inside =
    elim (Option-cases
      (loop a (ordered updates) (next_offset s) (record { processed = 0; discarded = 0 }) s).0) [
        | inl e ↦ absurd (ground arith)
        | inr (c2, e) ↦
            loop_passes a (ordered updates) (next_offset s) _ c2 s k refl
              (contains-ordered k updates ∙ inside) e
      ]

-- A fetched update that was not acknowledged before a poll and is after it was handled in it, also when an
-- exception stopped the poll.
pub acknowledged_is_handled :
    (a : Adapter) (updates : List Update) (s : Polling) (k : ℕ)
    → contains (map key updates) k ≡ true
    → next_offset s ≤ k
    → k < next_offset (run_once a updates s).1
    → contains (run_once a updates s).1.handled k ≡ true
unfolding run_once
acknowledged_is_handled a updates s k inside old new =
    elim (loop_handles a (ordered updates) (next_offset s) _ s k (ordered-Ascending updates) refl
      (contains-ordered k updates ∙ inside) new) [
        | inl small ↦ absurd (omega (arith, small, old))
        | inr h ↦ h
      ]

-- A poll that returns has acknowledged every update that it fetched, and has handled every one of them that was
-- not acknowledged before.
pub returning_poll_handles_all :
    (a : Adapter) (updates : List Update) (s : Polling) (r : PollResult) (k : ℕ)
    → (run_once a updates s).0 ≡ some r
    → contains (map key updates) k ≡ true
    → next_offset s ≤ k
    → (k < next_offset (run_once a updates s).1)
      × (contains (run_once a updates s).1.handled k ≡ true)
returning_poll_handles_all a updates s r k ends inside old =
    let new = poll_passes a updates s r k ends inside in
    (new, acknowledged_is_handled a updates s k inside old new)
