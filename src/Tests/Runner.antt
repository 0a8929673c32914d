-- ===== src/Tests/Runner.antt =====
-- Runs of agent/runner.py by evaluation, and a witness for services/conversations.py. The tools of these
-- runs count their calls in the world, and keep a receipt of each; the model calls one tool, and then
-- answers. Tests.Dispatch has the tools of the inventory.
use ah_there_it_is.Base.{
  ℕ, suc, ◌≡◌, refl, true, false, none, some, List, [], ◌∷◌, map, arith, length, reverse,
}
use ah_there_it_is.Text.{Text, codes, strip, lstrip, is_space, text_eq}
use ah_there_it_is.Receipts.{AgentRunLog, MutationReceipt, Operation, EntityType}
use ah_there_it_is.Runner.Protocol.{Role, AgentMessage, LlmResponse, CommitState}
use ah_there_it_is.Runner.Conversations.{
  conversation_rows, newest_first, insert_newest, in_conversation, create, agent_context,
  get_conversation, add_message,
}
use ah_there_it_is.Runner.Windows.{read_back, windows_cover}
use ah_there_it_is.Runner.Turn.{
  Dispatcher, tool_round, run_calls, run_call, after_call, ends_turn, clarification_only,
  is_mutation, add_result,
}
use ah_there_it_is.Runner.Rounds.{
  Runner, RunEngine, run, run_in, open_conversation, run_turn, run_rounds, respond, finish_turn,
  store_turn, settled, log_failure,
}
use ah_there_it_is.Runner.Contract.{AreFresh}
use ah_there_it_is.Chat.Store.{Message, Store, ChatResult, ok, done, uncertain}
use ah_there_it_is.Chat.Reserve.{both}
use ah_there_it_is.Tests.Services.{plain, plain-IsFresh}
use ah_there_it_is.Tests.Chat.{before}

abbrev take_receipt : MutationReceipt
take_receipt = record {
  operation = Operation.take_item;
  entity_type = EntityType.item;
  entity_id = 1;
  changed = true;
  before_ids = [];
  after_ids = [];
  event_ids = 4 ∷ [];
  affected_item_ids = 1 ∷ [];
  created_location_ids = [];
  before = [];
  after = [];
  split = none;
  source_item_id = some 1;
  item_id = none;
  undo_of_run_id = none;
}

abbrev counting : Dispatcher ℕ (List MutationReceipt)
counting = record {
  start = λ text c. [];
  definitions = λ st s. ok (codes "take_item" ∷ []);
  begin_round = λ st. st;
  end_round = λ st. st;
  execute = λ name arguments st s. (
    ok (record {
      ok = true;
      error = none;
      changed = some true;
      commit_state = some CommitState.provisional;
      result = codes "{}";
    }),
    take_receipt ∷ st,
    record s { working = record s.working { world = suc s.working.world } },
  );
  trace_evidence = λ st. none;
  receipts = λ st. st;
  as_tool_message_content = λ r. r.result;
}

-- the first answer calls a tool, the second is final
abbrev pub answering : List AgentMessage → List Text → ChatResult LlmResponse
answering (_ ∷ _ ∷ []) tools = ok (record {
  content = [];
  tool_calls = record { id = codes "1"; name = codes "take_item"; arguments = codes "{}" } ∷ [];
})
answering _ tools = ok (record { content = codes " taken "; tool_calls = [] })

abbrev pub engine : RunEngine
engine = record {
  fresh = plain.fresh;
  create = done;
  user_flush = true;
  assistant_flush = true;
  run_flush = true;
  finish = done;
  log = uncertain;
}

pub engine-AreFresh : AreFresh engine.fresh
engine-AreFresh = plain-IsFresh

abbrev runner : Runner ℕ (List MutationReceipt)
runner = record {
  complete = answering;
  max_rounds = 2;
  system_prompt = codes "inventory";
  dispatcher = counting;
  engine = engine;
}

abbrev short_runner : Runner ℕ (List MutationReceipt)
short_runner = record runner { max_rounds = 1 }

-- two rounds are enough for an answer, one is not
two_rounds : (run runner (codes "take it") none false (both before)).1.working.world ≡ 6
unfolding run strip lstrip is_space text_eq run_in open_conversation create agent_context
    get_conversation run_turn run_rounds respond conversation_rows newest_first insert_newest
    in_conversation tool_round run_calls run_call after_call ends_turn clarification_only
    is_mutation add_result finish_turn store_turn add_message settled log_failure
two_rounds = refl

one_round :
    map
      (λ (r : AgentRunLog). r.completed)
      (run short_runner (codes "take it") none false (both before)).1.committed.runs
    ≡ false ∷ []
unfolding run strip lstrip is_space text_eq run_in open_conversation create agent_context
    get_conversation run_turn run_rounds respond conversation_rows newest_first insert_newest
    in_conversation tool_round run_calls run_call after_call ends_turn clarification_only
    is_mutation add_result finish_turn store_turn add_message settled log_failure
one_round = refl

abbrev said : ℕ → Role → Message
said k role = record { id = k; conversation_id = 1; role = role; content = [] }

abbrev talked : Store ℕ
talked = record before {
  messages = said 1 Role.user ∷ said 2 Role.assistant ∷ said 3 Role.user ∷ [];
}

windows_cover_example :
    read_back (suc (length (conversation_rows 1 talked))) 1 2 none talked
    ≡ reverse (conversation_rows 1 talked)
windows_cover_example =
    windows_cover 1 2 talked refl (omega arith) (omega arith) (refl, (refl, (refl, tt))) refl
