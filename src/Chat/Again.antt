-- ===== src/Chat/Again.antt =====
-- services/chat_requests.py: a completed call made again, and a failed one recovered.
use ah_there_it_is.Base.{
  ℕ, ◌≡◌, refl, sym, ap, ◌∙◌, true, false, Option, none, some, find, subst, option_eq, arith,
}
use ah_there_it_is.Text.{Text, strip, text_eq, text_eq_iff, is_blank, text_option_eq}
use ah_there_it_is.Receipts.{AgentRunResult}
use ah_there_it_is.Chat.Store.{
  ChatRecord, ChatResult, ok, Store, ChatSession, Engine, done, stored, Agent, IdempotentExecution,
  get, record_id,
}
use ah_there_it_is.Chat.Reserve.{
  Reservation, reserve, commit_reservation, new_record, both, normalize_source_identity,
  same_request, add_record,
}
use ah_there_it_is.Chat.Execute.{
  execute, request, reserve_and_run, resolve_existing, execution, execute_reserved, recover,
  recover_record, recovery, recovery_identity, after_run, finish, completed_record, save_record,
  is_completed,
}
use ah_there_it_is.Chat.Agents.{IsAgent}
use ah_there_it_is.Chat.Effects.{Ended, started, ran, stage, reread_staged, shown}
use ah_there_it_is.Chat.Replay.{has_rival, reserved-Ended, execute-known}

module _ {W : Type 0} (e : Engine) (agent : Agent W) (q : Reservation) (d : Store W)
    (h : IsAgent agent) (absent : get q.request_key d.records ≡ none)
    (unused : find record_id e.key d.records ≡ none) (a : AgentRunResult)
    (answer : (agent false (started e agent q d)).0 ≡ ok a) where
  -- what the call commits
  abbrev pub final : Store W
  final = save_record (completed_record (new_record e.key q) a.run_id) (ran e agent q d).working

  abbrev pub here : Store W
  here = add_record (new_record e.key q) d

  finished :
      e.finish ≡ done
      → e.stages ≡ true
      → after_run e e.key (ok a) (ran e agent q d)
        ≡ (ok (record { result = a; replayed = false }), both final)
  unfolding after_run finish
  finished f g =
      let (run, found, complete, reread) = h.stores_run here a answer in
      rw
        (
          stage e agent q d absent unused (ran e agent q d).working a run
              (h.keeps_records here a answer) found complete reread g,
          after_run,
        )
        (rw (f, finish) refl)

  reserve_first :
      e.reserve ≡ stored
      → reserve e q (both d) ≡ (ok (new_record e.key q, true), started e agent q d)
  unfolding reserve commit_reservation
  reserve_first p = rw (absent, reserve) (rw (p, commit_reservation) refl)

  pub first_call :
      e.reserve ≡ stored
      → e.finish ≡ done
      → e.stages ≡ true
      → reserve_and_run e q agent (both d)
        ≡ (ok (record { result = a; replayed = false }), both final)
  unfolding execute_reserved
  first_call p f g = rw (reserve_first p) (rw answer (finished f g))

  pub known_after :
      get q.request_key final.records ≡ some (completed_record (new_record e.key q) a.run_id)
  known_after =
      rw (h.keeps_records here a answer)
        (shown e agent q d absent unused (completed_record (new_record e.key q) a.run_id) refl refl)

  pub reread_after : resolve_existing final (completed_record (new_record e.key q) a.run_id) ≡ ok a
  unfolding resolve_existing
  reread_after =
      let (run, found, complete, reread) = h.stores_run here a answer in
      reread_staged e agent q d absent unused (ran e agent q d).working a run
        (h.keeps_records here a answer) found complete reread

text_option_refl : (t : Option Text) → text_option_eq t t ≡ true
text_option_refl none = refl
text_option_refl (some t) = (text_eq_iff t t).1 refl

option_refl : (k : Option ℕ) → option_eq k k ≡ true
option_refl none = refl
option_refl (some k) = ground arith

same_again :
    (k : ℕ) (key message : Text) (c : Option ℕ) (i j : Option Text) (run : ℕ)
    → same_request
        (completed_record (new_record k (request key message c i)) run)
        (request key message c j)
      ≡ true
unfolding same_request
same_again k key message c i j run =
    rw ((text_eq_iff (strip message) (strip message)).1 refl, option_refl c) refl

module _ {W : Type 0} (e e2 : Engine) (agent agent2 : Agent W) (key message : Text) (c : Option ℕ)
    (source identity : Option Text) (d : Store W) (a : AgentRunResult) (h : IsAgent agent)
    (absent : get (strip key) d.records ≡ none) (unused : find record_id e.key d.records ≡ none)
    (answer : (agent false (started e agent (request key message c identity) d)).0 ≡ ok a) where
  abbrev pub after_first : Store W
  after_first = final e agent (request key message c identity) d h absent unused a answer

  first_execute :
      normalize_source_identity source ≡ ok identity
      → e.reserve ≡ stored
      → e.finish ≡ done
      → e.stages ≡ true
      → execute e (some key) message c source agent (both d)
        ≡ (ok (record { result = a; replayed = false }), both after_first)
  unfolding execute
  first_execute named p f g =
      rw (named, execute)
        (first_call e agent (request key message c identity) d h absent unused a answer p f g)

  second_execute :
      (source2 identity2 : Option Text)
      → normalize_source_identity source2 ≡ ok identity2
      → execute e2 (some key) message c source2 agent2 (both after_first)
        ≡ (ok (record { result = a; replayed = true }), both after_first)
  second_execute source2 identity2 named =
      let r = completed_record (new_record e.key (request key message c identity)) a.run_id in
      execute-known e2 agent2 key message c source2 identity2 (both after_first) r named
        (known_after e agent (request key message c identity) d h absent unused a answer)
      ∙ ap (λ x. (x, both after_first))
          (rw (same_again e.key key message c identity identity2 a.run_id) (
            ap (execution true)
              (reread_after e agent (request key message c identity) d h absent unused a answer)))

-- A call with a new request key, a valid source and an agent that keeps its contract, on a
-- session with no pending writes and a new key for the record, when the database stores what it
-- commits and the agent returns, returns the agent's result; the same call again, with any valid
-- source, any agent and any database, does not run the agent, returns this result as replayed,
-- and leaves the session as it is.
pub completed_call_is_replayed :
    {W : Type 0} (e e2 : Engine) (agent agent2 : Agent W) (key message : Text)
    (conversation : Option ℕ) (source identity source2 identity2 : Option Text) (d : Store W)
    (a : AgentRunResult)
    → IsAgent agent
    → normalize_source_identity source ≡ ok identity
    → normalize_source_identity source2 ≡ ok identity2
    → get (strip key) d.records ≡ none
    → find record_id e.key d.records ≡ none
    → e.reserve ≡ stored
    → e.finish ≡ done
    → e.stages ≡ true
    → (agent false (started e agent (request key message conversation identity) d)).0 ≡ ok a
    → (let (r, s) = execute e (some key) message conversation source agent (both d) in
        (r ≡ ok (record { result = a; replayed = false }))
        × (execute e2 (some key) message conversation source2 agent2 s
            ≡ (ok (record { result = a; replayed = true }), s)))
completed_call_is_replayed e e2 agent agent2 key message c source identity source2 identity2 d a h
      named named2 absent unused p f g answer =
    subst
      (λ (x : ChatResult IdempotentExecution × ChatSession _).
        (x.0 ≡ ok (record { result = a; replayed = false }))
        × (execute e2 (some key) message c source2 agent2 x.1
            ≡ (ok (record { result = a; replayed = true }), x.1)))
      (sym (
        first_execute e e2 agent agent2 key message c source identity d a h absent unused answer
          named p f g))
      (
        refl,
        second_execute e e2 agent agent2 key message c source identity d a h absent unused answer
            source2 identity2 named2,
      )

-- A recovery of a request that is not completed, under a new request key that differs from the
-- old one, with a note, a valid source and an agent that keeps its contract, on a session with
-- no pending writes and a new key for the record, whatever the database does, unless another
-- process takes the request key in the meantime: if it returns, what is committed is the agent's
-- work and a completed record that names the old one and the note; if it raises, the committed
-- world and messages are as before the call, and the new record, if it is stored, is not
-- completed.
pub recovery_is_atomic :
    {W : Type 0} (e : Engine) (agent : Agent W) (source_key new_key note : Text)
    (source identity : Option Text) (d : Store W) (r : ChatRecord)
    → IsAgent agent
    → get source_key d.records ≡ some r
    → is_completed r.status ≡ false
    → is_blank (strip note) ≡ false
    → is_blank (strip new_key) ≡ false
    → text_eq (strip new_key) r.request_key ≡ false
    → recovery_identity r source ≡ ok identity
    → get (strip new_key) d.records ≡ none
    → find record_id e.key d.records ≡ none
    → has_rival e.reserve ≡ false
    → (let (x, s) = recover e source_key new_key note source agent (both d) in
        Ended e agent (recovery r new_key note identity) d x s)
unfolding recover recover_record
recovery_is_atomic e agent source_key new_key note source identity d r h found unfinished noted
      keyed other named absent unused alone =
    rw (found, recover)
      (rw (unfinished, noted, keyed, other, named, recover_record)
        (reserved-Ended e agent (recovery r new_key note identity) d alone h absent unused))
