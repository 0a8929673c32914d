-- ===== src/Runner/Rounds.antt =====
-- agent/runner.py: the rounds of a turn, its end, and `run`; with `record_run` of services/evaluation.py.
use ah_there_it_is.Base.{
  ℕ, zero, suc, Bool, true, false, ◌&&◌, Option, none, some, List, [], ◌∷◌, ◌++◌, map, ◌==◌,
  if◌then◌else◌,
}
use ah_there_it_is.Text.{Text, codes, strip, is_blank}
use ah_there_it_is.Receipts.{AgentRunLog, AgentRunResult, MutationReceipt}
use ah_there_it_is.Runner.Protocol.{
  Role, AgentMessage, ToolCall, LlmResponse, TraceResult, RoundTrace, CommitState,
}
use ah_there_it_is.Runner.Conversations.{
  Keys, create, get_conversation, add_message, agent_context, commit_row, flush_row,
}
use ah_there_it_is.Runner.Turn.{Dispatcher, Turn, TurnM, proceed, text_message, noted, tool_round}
use ah_there_it_is.Chat.Store.{
  Message, Store, ChatSession, ChatM, ChatResult, ok, err, ChatError, Ending, done, lost, uncertain,
  run_id, rolled_back, blank_text, bad_rounds, loop_limit, turn_failed, commit_error,
}
use ah_there_it_is.Chat.Reserve.{both}

-- what the database does in one turn: the keys of new rows, whether each flush is accepted, and how
-- each commit ends: of a new conversation, of the turn, and of the log of a failed run
pub record RunEngine : Type 0 where
  pub fresh : Keys
  pub create : Ending
  pub user_flush : Bool
  pub assistant_flush : Bool
  pub run_flush : Bool
  pub finish : Ending
  pub log : Ending

-- `AgentRunner`, with `complete` of its model, which is asked with the messages so far and the names
-- of the tools; its messages grow from call to call, so the answers may be any
pub record Runner (W S : Type 0) : Type 0 where
  pub complete : List AgentMessage → List Text → ChatResult LlmResponse
  pub max_rounds : ℕ
  pub system_prompt : Text
  pub dispatcher : Dispatcher W S
  pub engine : RunEngine

-- a provisional result becomes committed, or rolled back
abbrev pub settled_state : CommitState → Option CommitState → Option CommitState
settled_state to (some CommitState.provisional) = some to
settled_state to state = state

abbrev pub settled_result : CommitState → TraceResult → TraceResult
settled_result to r = record r {
  result = record r.result { commit_state = settled_state to r.result.commit_state };
}

abbrev pub settled_round : CommitState → RoundTrace → RoundTrace
settled_round to t = record t { tool_results = map (settled_result to) t.tool_results }

unfoldable pub settled : CommitState → List RoundTrace → List RoundTrace
settled to trace = map (settled_round to) trace

-- the conversation, its text and the first messages
pub record Request : Type 0 where
  pub conversation_id : ℕ
  pub text : Text
  pub input_messages : List AgentMessage

-- `record_run`, up to the flush or the commit
abbrev pub run_row :
    Keys
    → Request
    → Option ℕ
    → Option ℕ
    → List RoundTrace
    → List MutationReceipt
    → Option Text
    → ℕ
    → Bool
    → List AgentRunLog
    → AgentRunLog
run_row fresh q user_id assistant_id trace receipts final rounds completed runs = record {
  id = fresh (map run_id runs);
  conversation_id = q.conversation_id;
  user_message_id = user_id;
  assistant_message_id = assistant_id;
  input_messages = q.input_messages;
  tool_trace = trace;
  completed = completed;
  final_content = final;
  rounds = rounds;
  mutation_receipts = receipts;
}

abbrev pub add_run : {W : Type 0} → AgentRunLog → Store W → Store W
add_run run d = record d { runs = d.runs ++ run ∷ [] }

-- a step of the session within a turn
abbrev pub on_session : {W S A : Type 0} → ChatM W A → TurnM W S A
on_session m t = let (r, s) = m t.session in (r, record t { session = s })

-- `session.commit()`
abbrev pub commit_session : {W : Type 0} → Ending → ChatM W Unit
commit_session done s = (ok tt, both s.working)
commit_session lost s = (err commit_error, s)
commit_session uncertain s = (err commit_error, both s.working)

module _ {W S : Type 0} (self : Runner W S) (q : Request) where
  -- the two messages of the turn are added
  abbrev pub add_user : TurnM W S Message
  add_user =
      on_session
        (add_message self.engine.fresh self.engine.user_flush q.conversation_id Role.user q.text)

  abbrev pub add_assistant : Text → TurnM W S Message
  add_assistant final = on_session (
      add_message self.engine.fresh self.engine.assistant_flush q.conversation_id Role.assistant
        final)

  abbrev pub completed_run : Text → Message → Message → Turn W S → AgentRunLog
  completed_run final user answer t =
      run_row self.engine.fresh q (some user.id) (some answer.id) t.tool_trace
        (self.dispatcher.receipts t.state) (some final) t.rounds true t.session.working.runs

  abbrev pub add_completed_run : Text → Message → Message → TurnM W S AgentRunLog
  add_completed_run final user answer t =
      let run = completed_run final user answer t in
      on_session (λ s. flush_row self.engine.run_flush run (add_run run s.working) s) t

  abbrev pub commit_turn : Bool → TurnM W S Unit
  commit_turn false t = (ok tt, t)
  commit_turn true t = on_session (commit_session self.engine.finish) t

  abbrev pub result_of_turn : Text → AgentRunLog → Turn W S → AgentRunResult
  result_of_turn final run t = record {
    conversation_id = q.conversation_id;
    run_id = run.id;
    content = final;
    rounds = t.rounds;
    changes_applied = t.changed_seen;
    receipts = self.dispatcher.receipts t.state;
  }

  -- a final answer is stored
  unfoldable pub store_turn : Bool → Text → TurnM W S AgentRunResult
  store_turn commits final t =
      proceed (add_user (record t { tool_trace = settled CommitState.committed t.tool_trace }))
        (λ user t1. proceed (add_assistant final t1) (λ answer t2.
          proceed (add_completed_run final user answer t2) (λ run t3.
            proceed (commit_turn commits t3) (λ _ t4. (ok (result_of_turn final run t4), t4)))))

  unfoldable pub finish_turn : Bool → LlmResponse → TurnM W S AgentRunResult
  finish_turn commits response t =
      if t.changed_seen && is_blank (strip response.content)
      then (err (turn_failed (codes "empty final response after mutation")), t)
      else store_turn commits (strip response.content) t

  -- the model is asked
  unfoldable pub respond : TurnM W S LlmResponse
  respond t = elim (self.dispatcher.definitions t.state t.session) [
    | err e ↦ (err e, t)
    | ok names ↦ elim (self.complete t.messages names) [
      | err e ↦ (err e, t)
      | ok response ↦ (ok response, noted self.dispatcher names response t)
    ]
  ]

  -- a response without calls is the answer; the calls of another are run, before the next round
  abbrev pub answered :
      Bool → LlmResponse → TurnM W S AgentRunResult → List ToolCall → TurnM W S AgentRunResult
  answered commits response next [] t = finish_turn commits response t
  answered commits response next (call ∷ calls) t =
      proceed (tool_round self.dispatcher (call ∷ calls) t) (λ _ t'. next t')

  -- the loop over the rounds, with the number of those that are left
  unfoldable pub run_rounds : Bool → ℕ → ℕ → TurnM W S AgentRunResult
  run_rounds commits zero round t = (err loop_limit, t)
  run_rounds commits (suc left) round t =
      proceed (respond (record t { rounds = round })) (λ response t'.
        answered commits response (run_rounds commits left (suc round)) response.tool_calls t')

  abbrev pub failed_run : Turn W S → Store W → AgentRunLog
  failed_run t d =
      run_row self.engine.fresh q none none (settled CommitState.rolled_back t.tool_trace) [] none
        t.rounds false d.runs

  -- the handler: roll back, log the failed run, raise; an error of the log is swallowed
  unfoldable pub log_failure : ChatError → Turn W S → ChatResult AgentRunResult × ChatSession W
  log_failure e t =
      let d = t.session.committed in
      let run = failed_run t d in
      let (_, s) = commit_row self.engine.log run (add_run run d) (rolled_back t.session) in
      (err e, s)

  abbrev pub start_turn : ChatSession W → Turn W S
  start_turn s = record {
    messages = q.input_messages;
    tool_trace = [];
    rounds = 0;
    changed_seen = false;
    state = self.dispatcher.start q.text q.conversation_id;
    session = s;
  }

  abbrev pub end_turn :
      ChatResult AgentRunResult × Turn W S → ChatResult AgentRunResult × ChatSession W
  end_turn (ok a, t) = (ok a, t.session)
  end_turn (err e, t) = log_failure e t

  unfoldable pub run_turn : Bool → ChatM W AgentRunResult
  run_turn commits s = end_turn (run_rounds commits self.max_rounds 1 (start_turn s))

-- `AgentMessage` of a stored message
abbrev pub prior_message : Message → AgentMessage
prior_message m = text_message m.role m.content

abbrev pub first_messages : Text → List Message → Text → List AgentMessage
first_messages prompt prior text =
    text_message Role.system prompt ∷ map prior_message prior ++ text_message Role.user text ∷ []

module _ {W S : Type 0} (self : Runner W S) where
  -- the conversation is made, or looked up
  unfoldable pub open_conversation : Option ℕ → ChatM W ℕ
  open_conversation none s = create self.engine.fresh self.engine.create s
  open_conversation (some c) s = (get_conversation c s.working, s)

  unfoldable pub run_in : Bool → Text → ChatResult ℕ → ChatM W AgentRunResult
  run_in commits text (err e) s = (err e, s)
  run_in commits text (ok c) s = elim (agent_context c s.working) [
    | err e ↦ (err e, s)
    | ok prior ↦
        run_turn self
          (record {
            conversation_id = c;
            text = text;
            input_messages = first_messages self.system_prompt prior text;
          })
          commits s
  ]

  -- `run`, and the test of the constructor
  unfoldable pub run : Text → Option ℕ → Bool → ChatM W AgentRunResult
  run user_text conversation_id commits s =
      if self.max_rounds == 0
      then (err bad_rounds, s)
      else if is_blank (strip user_text)
      then (err blank_text, s)
      else let (c, s1) = open_conversation conversation_id s in
        run_in commits (strip user_text) c s1
