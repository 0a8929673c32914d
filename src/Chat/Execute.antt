-- ===== src/Chat/Execute.antt =====
-- services/chat_requests.py: running a reserved request once, and recovering a failed one.
use ah_there_it_is.Base.{
  ℕ, Bool, true, false, ◌&&◌, ◌||◌, not, Option, none, some, List, any, find, is_some,
  if◌then◌else◌,
}
use ah_there_it_is.Text.{Text, codes, text_eq, strip, is_blank}
use ah_there_it_is.Receipts.{AgentRunLog, AgentRunResult, MutationReceipt}
use ah_there_it_is.Chat.Store.{
  ChatRecord, ChatError, ChatResult, ok, err, Store, ChatSession, ChatM, Engine, Ending, done, lost,
  uncertain, Status, Agent, IdempotentExecution, get, update, record_id, run_id, rolled_back,
  idempotency, in_progress, previous_failure, not_found, recovery_not_allowed, commit_error,
  mark_error,
}
use ah_there_it_is.Chat.Reserve.{Reservation, reserve, normalize_source_identity, both}

abbrev pub is_completed : Status → Bool
is_completed Status.completed = true
is_completed _ = false

abbrev pub is_processing : Status → Bool
is_processing Status.processing = true
is_processing _ = false

abbrev pub receipt_changed : MutationReceipt → Bool
receipt_changed r = r.changed

-- the `AgentRunResult` of a stored run
abbrev pub result_of : AgentRunLog → Text → AgentRunResult
result_of run content = record {
  conversation_id = run.conversation_id;
  run_id = run.id;
  content = content;
  rounds = run.rounds;
  changes_applied = any receipt_changed run.mutation_receipts;
  receipts = run.mutation_receipts;
}

abbrev pub result_of_run : Option AgentRunLog → ChatResult AgentRunResult
result_of_run none = err idempotency
result_of_run (some run) = elim run.final_content [
  | none ↦ err idempotency
  | some content ↦ if run.completed then ok (result_of run content) else err idempotency
]

abbrev pub result_of_id : Option ℕ → List AgentRunLog → ChatResult AgentRunResult
result_of_id none runs = err idempotency
result_of_id (some k) runs = result_of_run (find run_id k runs)

-- `_result_from_record`
unfoldable pub result_from_record : {W : Type 0} → Store W → ChatRecord → ChatResult AgentRunResult
result_from_record d r =
    if is_completed r.status then result_of_id r.agent_run_id d.runs else err idempotency

-- `_resolve_existing`
unfoldable pub resolve_existing : {W : Type 0} → Store W → ChatRecord → ChatResult AgentRunResult
resolve_existing d r = elim r.status [
  | Status.processing ↦ err in_progress
  | Status.failed ↦ err previous_failure
  | Status.completed ↦ result_from_record d r
]

abbrev pub execution : Bool → ChatResult AgentRunResult → ChatResult IdempotentExecution
execution replayed (ok a) = ok (record { result = a; replayed = replayed })
execution replayed (err e) = err e

-- the record may be completed: it is processing, with no run, and the run is completed
unfoldable pub may_complete : Option ChatRecord → Option AgentRunLog → Bool
may_complete (some r) (some run) =
    is_processing r.status && not (is_some r.agent_run_id) && run.completed
may_complete _ _ = false

abbrev pub completed_record : ChatRecord → ℕ → ChatRecord
completed_record r run = record r {
  status = Status.completed;
  agent_run_id = some run;
  error = none;
}

abbrev pub failed_record : ChatRecord → Text → ChatRecord
failed_record r error = record r { status = Status.failed; error = some error }

-- the source of a recovery keeps its identity unless another is given
abbrev pub recovery_identity : ChatRecord → Option Text → ChatResult (Option Text)
recovery_identity r none = ok r.source_identity
recovery_identity r (some s) = normalize_source_identity (some s)

-- the reservation that `execute` asks for, and that of `recover`
abbrev pub request : Text → Text → Option ℕ → Option Text → Reservation
request key message conversation identity = record {
  request_key = strip key;
  message = strip message;
  conversation_id = conversation;
  source_identity = identity;
  recovered_from_id = none;
  recovery_note = none;
}

abbrev pub recovery : ChatRecord → Text → Text → Option Text → Reservation
recovery r new_key note identity = record {
  request_key = strip new_key;
  message = r.message;
  conversation_id = r.requested_conversation_id;
  source_identity = identity;
  recovered_from_id = some r.id;
  recovery_note = some (strip note);
}

module _ {W : Type 0} where
  abbrev pub save_record : ChatRecord → Store W → Store W
  save_record r d = record d { records = update r d.records }

  -- `_stage_completed`; the flush at its end may fail
  unfoldable pub stage_completed : Bool → ℕ → ℕ → Store W → ChatResult (Store W)
  stage_completed stages k run d =
      let r = find record_id k d.records in
      if may_complete r (find run_id run d.runs)
      then elim r [
        | none ↦ err idempotency
        | some x ↦ if stages then ok (save_record (completed_record x run) d) else err commit_error
      ]
      else err idempotency

  -- the commit of `_mark_failed`; the original error is raised again once it returned
  abbrev pub end_mark :
      Ending → ChatError → Store W → ChatSession W → ChatResult IdempotentExecution × ChatSession W
  end_mark done e d s = (err e, both d)
  end_mark lost e d s = (err mark_error, rolled_back s)
  end_mark uncertain e d s = (err mark_error, both d)

  -- the handler of a failed run: roll back, `_mark_failed`, raise
  unfoldable pub mark_failed : Engine → ℕ → ChatError → Text → ChatM W IdempotentExecution
  mark_failed engine k e diagnostic s =
      let d = s.committed in
      elim (find record_id k d.records) [
        | none ↦ (err idempotency, rolled_back s)
        | some r ↦
            end_mark engine.mark e (save_record (failed_record r diagnostic) d) (rolled_back s)
      ]

  -- a durable record after an uncertain commit
  unfoldable pub reconcile_record : Engine → ChatRecord → ChatM W IdempotentExecution
  reconcile_record engine r s =
      if is_completed r.status
      then (execution true (result_from_record s.committed r), rolled_back s)
      else if is_processing r.status && not (is_some r.agent_run_id)
      then end_mark engine.mark commit_error
          (save_record (failed_record r (codes "final commit failure")) s.committed) (rolled_back s)
      else (err idempotency, rolled_back s)

  -- `_reconcile_commit`, which reads the durable state
  unfoldable pub reconcile_commit : Engine → ℕ → ChatM W IdempotentExecution
  reconcile_commit engine k s = elim (find record_id k s.committed.records) [
    | none ↦ (err idempotency, rolled_back s)
    | some r ↦ reconcile_record engine r s
  ]

  -- `_commit_completed` and its handler, for the staged store
  unfoldable pub finish : Engine → ℕ → AgentRunResult → Store W → ChatM W IdempotentExecution
  finish engine k result d s = elim engine.finish [
    | done ↦ (ok (record { result = result; replayed = false }), both d)
    | lost ↦ reconcile_commit engine k (rolled_back s)
    | uncertain ↦ reconcile_commit engine k (both d)
  ]

  -- what follows the agent's run
  unfoldable pub after_run : Engine → ℕ → ChatResult AgentRunResult → ChatM W IdempotentExecution
  after_run engine k (err e) s = mark_failed engine k e (codes "agent failure") s
  after_run engine k (ok a) s = elim (stage_completed engine.stages k a.run_id s.working) [
    | err e ↦ mark_failed engine k e (codes "inconsistent state") s
    | ok d ↦ finish engine k a d s
  ]

  -- `_execute_reserved`
  unfoldable pub execute_reserved :
      Engine → ChatRecord → Bool → Agent W → ChatM W IdempotentExecution
  execute_reserved engine r false operation s = (execution true (resolve_existing s.working r), s)
  execute_reserved engine r true operation s =
      let (a, s') = operation false s in after_run engine r.id a s'

  abbrev pub run_reserved :
      Engine → Agent W → ChatResult (ChatRecord × Bool) → ChatM W IdempotentExecution
  run_reserved engine operation (ok (r, created)) s = execute_reserved engine r created operation s
  run_reserved engine operation (err e) s = (err e, s)

  abbrev pub reserve_and_run : Engine → Reservation → Agent W → ChatM W IdempotentExecution
  reserve_and_run engine q operation s =
      let (r, s') = reserve engine q s in run_reserved engine operation r s'

  -- the arguments of `execute`, the callback left out
  unfoldable pub execute :
      Engine → Option Text → Text → Option ℕ → Option Text → Agent W → ChatM W IdempotentExecution
  execute engine none message conversation source operation s =
      let (a, s') = operation true s in (execution false a, s')
  execute engine (some key) message conversation source operation s =
      elim (normalize_source_identity source) [
        | err e ↦ (err e, s)
        | ok identity ↦
            reserve_and_run engine (request key message conversation identity) operation s
      ]

  -- `recover` of a record that was found
  unfoldable pub recover_record :
      Engine → ChatRecord → Text → Text → Option Text → Agent W → ChatM W IdempotentExecution
  recover_record engine r new_key note source operation s =
      if is_completed r.status
        || is_blank (strip note)
        || is_blank (strip new_key)
        || text_eq (strip new_key) r.request_key
      then (err recovery_not_allowed, s)
      else elim (recovery_identity r source) [
        | err e ↦ (err e, s)
        | ok identity ↦ reserve_and_run engine (recovery r new_key note identity) operation s
      ]

  -- `recover`
  unfoldable pub recover :
      Engine → Text → Text → Text → Option Text → Agent W → ChatM W IdempotentExecution
  recover engine source_key new_key note source operation s =
      elim (get source_key s.working.records) [
        | none ↦ (err not_found, s)
        | some r ↦ recover_record engine r new_key note source operation s
      ]
