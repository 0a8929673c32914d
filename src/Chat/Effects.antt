-- ===== src/Chat/Effects.antt =====
-- services/chat_requests.py: a new request has its effects exactly when it is completed.
use ah_there_it_is.Base.{
  ◌≡◌, refl, sym, ap, ◌⊎◌, inl, inr, Bool, true, false, Option, none, some, Bool-cases, [], ◌∷◌,
  ◌++◌, find, subst,
}
use ah_there_it_is.Text.{Text, text_eq, text_eq_iff, codes}
use ah_there_it_is.Receipts.{AgentRunLog, AgentRunResult}
use ah_there_it_is.Chat.Store.{
  ChatRecord, ChatError, ChatResult, ok, err, Store, ChatSession, Engine, Ending, done, lost,
  uncertain, Agent, IdempotentExecution, get, update, record_id, run_id, mark_error, commit_error,
}
use ah_there_it_is.Chat.Reserve.{Reservation, new_record, add_record, both}
use ah_there_it_is.Chat.Execute.{
  is_completed, mark_failed, end_mark, failed_record, completed_record, save_record,
  stage_completed, may_complete, finish, after_run, reconcile_commit, reconcile_record,
  result_from_record, result_of_run,
}
use ah_there_it_is.Chat.Agents.{IsAgent, ChatResult-cases}
use ah_there_it_is.Chat.Records.{find_added, update_added, get_added}

-- the record is stored and completed
abbrev pub is_finished : Option ChatRecord → Bool
is_finished none = false
is_finished (some r) = is_completed r.status

Ending-cases : (e : Ending) → (e ≡ done) ⊎ ((e ≡ lost) ⊎ (e ≡ uncertain))
Ending-cases done = inl refl
Ending-cases lost = inr (inl refl)
Ending-cases uncertain = inr (inr refl)

module _ {W : Type 0} (e : Engine) (agent : Agent W) (q : Reservation) (d : Store W) where
  -- the agent's start and end, once the reservation is stored
  abbrev pub reserved : ChatRecord
  reserved = new_record e.key q

  abbrev pub started : ChatSession W
  started = both (add_record reserved d)

  abbrev pub ran : ChatSession W
  ran = (agent false started).1

  -- A call that returns has committed what the agent did, and its record as completed; a call that
  -- raises has committed nothing of it, and its record, if any, is not completed.
  abbrev pub Ended : ChatResult IdempotentExecution → ChatSession W → Type 0
  Ended (ok x) t =
      (t.committed.world ≡ ran.working.world)
      × (t.committed.messages ≡ ran.working.messages)
      × ((agent false started).0 ≡ ok x.result)
      × (get q.request_key t.committed.records ≡ some (completed_record reserved x.result.run_id))
  Ended (err x) t =
      (t.committed.world ≡ d.world)
      × (t.committed.messages ≡ d.messages)
      × (is_finished (get q.request_key t.committed.records) ≡ false)

  module _ (absent : get q.request_key d.records ≡ none)
      (unused : find record_id e.key d.records ≡ none) where
    key_of : text_eq q.request_key q.request_key ≡ true
    key_of = (text_eq_iff q.request_key q.request_key).1 refl

    written :
        (r : ChatRecord)
        → r.id ≡ e.key
        → update r (d.records ++ reserved ∷ []) ≡ d.records ++ r ∷ []
    written r p = update_added d.records reserved r (sym p) unused

    pub shown :
        (r : ChatRecord)
        → r.id ≡ e.key
        → r.request_key ≡ q.request_key
        → get q.request_key (update r (d.records ++ reserved ∷ [])) ≡ some r
    shown r p k = rw (written r p) (get_added q.request_key d.records r (rw k key_of) absent)

    -- `c` is what is committed when the agent ends
    module _ (c : Store W) (world : c.world ≡ d.world) (messages : c.messages ≡ d.messages)
        (rows : c.records ≡ d.records ++ reserved ∷ []) where
      row : find record_id e.key c.records ≡ some reserved
      row = rw rows (find_added d.records reserved unused)

      abbrev pub pending : Store W → ChatSession W
      pending w = record { working = w; committed = c }

      abbrev pub marked : Text → Store W
      marked text = save_record (failed_record reserved text) c

      -- the record is still processing, or failed
      pub kept : (x : ChatError) (w : Store W) → Ended (err x) (pending w)
      kept x w = (
        world,
        messages,
        rw rows (ap is_finished (get_added q.request_key d.records reserved key_of absent)),
      )

      failed : (x : ChatError) (text : Text) → Ended (err x) (both (marked text))
      failed x text = (
        world,
        messages,
        rw rows (ap is_finished (shown (failed_record reserved text) refl refl)),
      )

      mark-Ended :
          (end : Ending) (x : ChatError) (text : Text)
          → Ended
              (end_mark end x (marked text) (pending c)).0
              (end_mark end x (marked text) (pending c)).1
      mark-Ended done x text = failed x text
      mark-Ended lost x text = kept mark_error c
      mark-Ended uncertain x text = failed mark_error text

      -- the agent raised, or left an inconsistent state
      mark_failed-Ended :
          (x : ChatError) (text : Text) (w : Store W)
          → Ended
              (mark_failed e e.key x text (pending w)).0
              (mark_failed e e.key x text (pending w)).1
      unfolding mark_failed
      mark_failed-Ended x text w = rw (row, mark_failed) (mark-Ended e.mark x text)

      -- the final commit was lost
      reconcile_lost :
          (w : Store W)
          → Ended (reconcile_commit e e.key (pending w)).0 (reconcile_commit e e.key (pending w)).1
      unfolding reconcile_commit reconcile_record
      reconcile_lost w =
          rw (row, reconcile_commit) (mark-Ended e.mark commit_error (codes "final commit failure"))

    -- the agent returned `a`, whose run is stored and completed
    module _ (w : Store W) (a : AgentRunResult) (run : AgentRunLog)
        (same : w.records ≡ d.records ++ reserved ∷ [])
        (found : find run_id a.run_id w.runs ≡ some run) (complete : run.completed ≡ true)
        (reread : result_of_run (some run) ≡ ok a) where
      abbrev pub staged : Store W
      staged = save_record (completed_record reserved a.run_id) w

      staged_row : find record_id e.key staged.records ≡ some (completed_record reserved a.run_id)
      staged_row =
          rw (same, written (completed_record reserved a.run_id) refl)
            (find_added d.records (completed_record reserved a.run_id) unused)

      own_row : find record_id e.key w.records ≡ some reserved
      own_row = rw same (find_added d.records reserved unused)

      pub stage : e.stages ≡ true → stage_completed e.stages e.key a.run_id w ≡ ok staged
      unfolding stage_completed may_complete
      stage p = rw (own_row, found, complete, p) refl

      unstaged : e.stages ≡ false → stage_completed e.stages e.key a.run_id w ≡ err commit_error
      unfolding stage_completed may_complete
      unstaged p = rw (own_row, found, complete, p) refl

      pub reread_staged : result_from_record staged (completed_record reserved a.run_id) ≡ ok a
      unfolding result_from_record
      reread_staged = rw (found, reread) refl

      applied :
          (replayed : Bool)
          → ran.working ≡ w
          → (agent false started).0 ≡ ok a
          → Ended (ok (record { result = a; replayed = replayed })) (both staged)
      applied replayed p r = (
        ap (λ (x : Store W). x.world) (sym p),
        ap (λ (x : Store W). x.messages) (sym p),
        r,
        rw same (shown (completed_record reserved a.run_id) refl refl),
      )

      -- the final commit was stored, but raised
      reconcile_uncertain :
          reconcile_commit e e.key (both staged)
          ≡ (ok (record { result = a; replayed = true }), both staged)
      unfolding reconcile_commit reconcile_record
      reconcile_uncertain = rw (staged_row, reconcile_commit, reread_staged) refl

      finish-Ended :
          (c : Store W)
          → c.world ≡ d.world
          → c.messages ≡ d.messages
          → c.records ≡ d.records ++ reserved ∷ []
          → ran.working ≡ w
          → (agent false started).0 ≡ ok a
          → (let s : ChatSession W = record { working = w; committed = c } in
              Ended (finish e e.key a staged s).0 (finish e e.key a staged s).1)
      unfolding finish
      finish-Ended c world messages rows p r = elim (Ending-cases e.finish) [
        | inl f ↦ rw (f, finish) (applied false p r)
        | inr (inl f) ↦ rw (f, finish) (reconcile_lost c world messages rows c)
        | inr (inr f) ↦ rw (f, finish, reconcile_uncertain) (applied true p r)
      ]

    module _ (h : IsAgent agent) where
      abbrev pub After : ChatResult AgentRunResult → ChatSession W → Type 0
      After r t = Ended (after_run e e.key r t).0 (after_run e e.key r t).1

      After-ok : (a : AgentRunResult) → (agent false started).0 ≡ ok a → After (ok a) ran
      unfolding after_run
      After-ok a r =
          let here = add_record reserved d in
          let (run, found, complete, reread) = h.stores_run here a r in
          let same = h.keeps_records here a r in
          elim (Bool-cases e.stages) [
            | inl y ↦
                rw (stage ran.working a run same found complete reread y, after_run)
                  (finish-Ended ran.working a run same found complete reread ran.committed
                    (h.keeps_world here) (h.keeps_messages here) (h.keeps_requests here) refl r)
            | inr n ↦
                rw (unstaged ran.working a run same found complete reread n, after_run)
                  (mark_failed-Ended ran.committed (h.keeps_world here) (h.keeps_messages here)
                    (h.keeps_requests here) commit_error (codes "inconsistent state") ran.working)
          ]

      After-err : (x : ChatError) → After (err x) ran
      unfolding after_run
      After-err x =
          let here = add_record reserved d in
          mark_failed-Ended ran.committed (h.keeps_world here) (h.keeps_messages here)
            (h.keeps_requests here) x (codes "agent failure") ran.working

      pub After-Ended : After (agent false started).0 ran
      After-Ended = elim (ChatResult-cases (agent false started).0) [
        | inl (a, p) ↦ subst (λ r. After r ran) (sym p) (After-ok a p)
        | inr (x, p) ↦ subst (λ r. After r ran) (sym p) (After-err x)
      ]
