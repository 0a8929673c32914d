-- ===== src/Runner/Application.antt =====
-- services/chat_application.py: the request gate with the agent runner as its callback.
use ah_there_it_is.Base.{
  ℕ, ◌≡◌, refl, ap, ◌∙◌, subst, Bool, true, false, Option, none, some, List, [], ◌∷◌, ◌++◌, find,
}
use ah_there_it_is.Text.{Text, strip}
use ah_there_it_is.Receipts.{AgentRunResult}
use ah_there_it_is.Runner.Protocol.{AgentMessage, LlmResponse}
use ah_there_it_is.Runner.Turn.{Dispatcher}
use ah_there_it_is.Runner.Rounds.{Runner, RunEngine, run}
use ah_there_it_is.Runner.Dispatchers.{IsDispatcher}
use ah_there_it_is.Runner.Contract.{run-IsAgent, run-Ends, AreFresh, Ends}
use ah_there_it_is.Chat.Store.{
  Message, Store, ChatSession, ChatM, ChatResult, ok, err, ChatError, Agent, Engine,
  IdempotentExecution, get, record_id, close_error, operation_error,
}
use ah_there_it_is.Chat.Reserve.{both, new_record, add_record, normalize_source_identity}
use ah_there_it_is.Chat.Execute.{execute, recover, request}
use ah_there_it_is.Chat.Agents.{IsAgent}
use ah_there_it_is.Chat.Effects.{Ended, is_finished}
use ah_there_it_is.Chat.Replay.{new_request_is_atomic, has_rival}
use ah_there_it_is.Text.{codes}

-- `ChatApplicationService`: its factory may raise, and so may the `close` of the model's client
pub record Application (W S : Type 0) : Type 0 where
  pub llm_factory : ChatResult (List AgentMessage → List Text → ChatResult LlmResponse)
  pub closes : Bool
  pub max_rounds : ℕ
  pub system_prompt : Text
  pub dispatcher : Dispatcher W S
  pub engine : RunEngine

module _ {W S : Type 0} (app : Application W S) where
  abbrev pub runner_of : (List AgentMessage → List Text → ChatResult LlmResponse) → Runner W S
  runner_of complete = record {
    complete = complete;
    max_rounds = app.max_rounds;
    system_prompt = app.system_prompt;
    dispatcher = app.dispatcher;
    engine = app.engine;
  }

  -- the `finally` of `operation`
  abbrev pub after_close :
      Bool → ChatResult AgentRunResult × ChatSession W → ChatResult AgentRunResult × ChatSession W
  after_close true x = x
  after_close false (r, s) = (err close_error, s)

  abbrev pub operate :
      ChatResult (List AgentMessage → List Text → ChatResult LlmResponse)
      → Text
      → Option ℕ
      → Agent W
  operate (err e) message conversation_id commits s = (err e, s)
  operate (ok complete) message conversation_id commits s =
      after_close app.closes (run (runner_of complete) message conversation_id commits s)

  -- `operation`
  unfoldable pub operation : Text → Option ℕ → Agent W
  operation message conversation_id = operate app.llm_factory message conversation_id

  -- `execute_chat`
  unfoldable pub execute_chat :
      Engine → Text → Option ℕ → Option Text → Option Text → ChatM W IdempotentExecution
  execute_chat e message conversation_id request_key source_identity =
      execute e request_key message conversation_id source_identity
        (operation message conversation_id)

  -- `recover_chat`, arguments in the order of the source; `_unreachable` raises
  unfoldable pub recover_chat :
      Engine → Text → Text → Text → Option Text → ChatM W IdempotentExecution
  recover_chat e source_key new_key note source_identity s =
      elim (get source_key s.working.records) [
        | none ↦
            recover e source_key new_key note source_identity
              (λ commits t. (err (operation_error (codes "chat recovery source disappeared")), t)) s
        | some r ↦
            recover e source_key new_key note source_identity
              (operation r.message r.requested_conversation_id) s
      ]

raising-IsAgent : {W : Type 0} (e : ChatError) → IsAgent {W = W} (λ commits s. (err e, s))
raising-IsAgent e = record {
  keeps_world = λ d. refl;
  keeps_messages = λ d. refl;
  keeps_requests = λ d. refl;
  keeps_records = λ d a p. refl;
  stores_run = λ d a p. absurd (cc);
}

-- an agent that raises after all keeps the contract too
closing-IsAgent :
    {W : Type 0} (agent : Agent W)
    → IsAgent agent
    → IsAgent (λ commits s. (err close_error, (agent commits s).1))
closing-IsAgent agent h = record {
  keeps_world = h.keeps_world;
  keeps_messages = h.keeps_messages;
  keeps_requests = h.keeps_requests;
  keeps_records = λ d a p. absurd (cc);
  stores_run = λ d a p. absurd (cc);
}

module _ {W S : Type 0} (app : Application W S) (message : Text) (conversation_id : Option ℕ)
    (h : IsDispatcher app.dispatcher) (new : AreFresh app.engine.fresh) where
  operate-IsAgent :
      (closes : Bool) (llm : ChatResult (List AgentMessage → List Text → ChatResult LlmResponse))
      → IsAgent (operate (record app { closes = closes }) llm message conversation_id)
  operate-IsAgent closes (err e) = raising-IsAgent e
  operate-IsAgent true (ok complete) =
      run-IsAgent (runner_of app complete) message conversation_id h new
  operate-IsAgent false (ok complete) =
      closing-IsAgent (run (runner_of app complete) message conversation_id)
        (run-IsAgent (runner_of app complete) message conversation_id h new)

  pub operation-IsAgent : IsAgent (operation app message conversation_id)
  unfolding operation
  operation-IsAgent = operate-IsAgent app.closes app.llm_factory

  operate_answers :
      (closes : Bool) (llm : ChatResult (List AgentMessage → List Text → ChatResult LlmResponse))
      (d : Store W) (a : AgentRunResult)
      → (let x =
            operate (record app { closes = closes }) llm message conversation_id false (both d) in
          x.0 ≡ ok a → Ends app.engine.fresh d (strip message) app.max_rounds (ok a) x.1)
  operate_answers closes (err e) d a p = absurd (cc)
  operate_answers false (ok complete) d a p = absurd (cc)
  operate_answers true (ok complete) d a p =
      subst
        (λ r.
          Ends app.engine.fresh d (strip message) app.max_rounds r
            (run (runner_of app complete) message conversation_id false (both d)).1)
        p (run-Ends (runner_of app complete) message conversation_id d h)

-- the result of a chat: the question and the answer are stored, with the record; or all is as before
abbrev pub Chatted :
    {W : Type 0} → Text → Text → Store W → ChatResult IdempotentExecution → ChatSession W → Type 0
Chatted key message d (ok x) s =
    (question : Message) × (answer : Message) × (s.committed.messages
      ≡ (d.messages ++ question ∷ []) ++ answer ∷ [])
    × (question.content ≡ strip message)
    × (answer.content ≡ x.result.content)
    × (is_finished (get (strip key) s.committed.records) ≡ true)
Chatted key message d (err e) s =
    (s.committed.world ≡ d.world)
    × (s.committed.messages ≡ d.messages)
    × (is_finished (get (strip key) s.committed.records) ≡ false)

chatted :
    {W S : Type 0} (app : Application W S) (e : Engine) (key message : Text)
    (conversation_id : Option ℕ) (identity : Option Text) (d : Store W)
    → IsDispatcher app.dispatcher
    → AreFresh app.engine.fresh
    → (x : ChatResult IdempotentExecution) (s : ChatSession W)
    → Ended e
        (operation app message conversation_id)
        (request key message conversation_id identity)
        d
        x
        s
    → Chatted key message d x s
unfolding operation
chatted app e key message conversation_id identity d h new (err x) s ended = ended
chatted app e key message conversation_id identity d h new (ok x) s (world, messages, ran, row) =
    let here = add_record (new_record e.key (request key message conversation_id identity)) d in
    let (cs, q, same, stored) =
      operate_answers app message conversation_id h new app.closes app.llm_factory here x.result
        ran in
    (
      stored.question,
      stored.answer,
      messages ∙ ap (λ (y : Store _). y.messages) stored.pending,
      stored.asks.1 ∙ same,
      stored.answers.1,
      ap is_finished row,
    )

-- A chat with a new request key and a valid source, of an application whose dispatcher keeps its laws,
-- on a session with no pending writes, with new keys from the database, whatever the model answers, how
-- every flush and commit of the run and of the gate ends, and unless another process takes the request
-- key in the meantime: if it returns, what is committed are the old messages, the question and the
-- returned answer, and a completed record; if it raises, the committed world and messages are as before,
-- and the record, if it is stored, is not completed.
pub execute_chat_is_atomic :
    {W S : Type 0} (app : Application W S) (e : Engine) (key message : Text)
    (conversation_id : Option ℕ) (source identity : Option Text) (d : Store W)
    → IsDispatcher app.dispatcher
    → AreFresh app.engine.fresh
    → normalize_source_identity source ≡ ok identity
    → get (strip key) d.records ≡ none
    → find record_id e.key d.records ≡ none
    → has_rival e.reserve ≡ false
    → (let (x, s) = execute_chat app e message conversation_id (some key) source (both d) in
        Chatted key message d x s)
unfolding execute_chat
execute_chat_is_atomic app e key message conversation_id source identity d h new named absent unused
      alone =
    chatted app e key message conversation_id identity d h new
      (execute_chat app e message conversation_id (some key) source (both d)).0
      (execute_chat app e message conversation_id (some key) source (both d)).1
      (new_request_is_atomic e (operation app message conversation_id) key message conversation_id
        source identity d (operation-IsAgent app message conversation_id h new) named absent unused
        alone)
