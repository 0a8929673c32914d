-- ===== src/Tests/Telegram.antt =====
-- Witnesses for telegram/polling.py. The adapter of these tests raises on the update 9, and cannot
-- store an offset of the update 8 while it was handled no more than once.
use ah_there_it_is.Base.{
  ℕ, suc, ◌<◌, ◌≤◌, ◌≡◌, refl, true, false, some, List, [], ◌∷◌, contains, ◌==◌, arith,
  if◌then◌else◌,
}
use ah_there_it_is.Telegram.Polling.{
  Update, Adapter, Polling, returned, raised, next_offset, loop, run_once, run_forever, PollResult,
  ordered, insert_update,
}
use ah_there_it_is.Telegram.Delivery.{count, restarted, first_start, handled_again_if_lost}
use ah_there_it_is.Chat.Store.{done, lost}
use ah_there_it_is.Telegram.Acknowledged.{acknowledged_is_handled, returning_poll_handles_all}

abbrev adapter : Adapter
adapter = record {
  accepts = λ u. true;
  process_update = λ past u. if u.update_id == 9 then raised else returned true;
  process_callback_update = λ past u. returned false;
  store_offset = λ past k. if k == 8 then (if count 8 past == 1 then lost else done) else done;
}

abbrev text : ℕ → Update
text k = record { update_id = k; has_callback = false }

abbrev button : ℕ → Update
button k = record { update_id = k; has_callback = true }

abbrev calm : List Update
calm = button 5 ∷ text 3 ∷ []

abbrev broken : List Update
broken = text 9 ∷ text 8 ∷ text 5 ∷ []

abbrev twice : List (Adapter × List (List Update))
twice = (adapter, calm ∷ broken ∷ []) ∷ (adapter, broken ∷ []) ∷ []

-- the second first_start handles the update 8 again
both_starts :
    restarted twice first_start
    ≡ record { state = some 9; handled = 8 ∷ 8 ∷ 5 ∷ 3 ∷ []; unstored = 8 ∷ [] }
unfolding restarted run_forever run_once loop ordered insert_update
both_starts = refl

handled_again_if_lost_example :
    (let s = restarted twice first_start in
      (count 8 s.handled ≤ suc (count 8 s.unstored))
      × (next_offset s ≤ 8 → count 8 s.handled ≤ count 8 s.unstored))
handled_again_if_lost_example = handled_again_if_lost twice 8

abbrev one_poll : Polling
one_poll = record { state = some 6; handled = 8 ∷ 5 ∷ 3 ∷ []; unstored = 8 ∷ [] }

eight : 8 < next_offset (run_once adapter broken one_poll).1
unfolding run_once loop ordered insert_update
eight = omega arith

acknowledged_is_handled_example : contains (run_once adapter broken one_poll).1.handled 8 ≡ true
acknowledged_is_handled_example =
    acknowledged_is_handled adapter broken one_poll 8 refl (omega arith) eight

abbrev calm_result : PollResult
calm_result = record { fetched = 2; counts = record { processed = 1; discarded = 1 }; next = 6 }

calm_returns : (run_once adapter calm first_start).0 ≡ some calm_result
unfolding run_once loop ordered insert_update
calm_returns = refl

returning_poll_handles_all_example :
    (3 < next_offset (run_once adapter calm first_start).1)
    × (contains (run_once adapter calm first_start).1.handled 3 ≡ true)
returning_poll_handles_all_example =
    returning_poll_handles_all adapter calm first_start calm_result 3 calm_returns refl
      (omega arith)
