-- ===== src/Tests/Dispatch.antt =====
-- Witnesses for agent/runner.py and services/chat_application.py with the tools of agent/tools.py, on an
-- inventory with one item: the model searches for it, takes it, and then answers.
use ah_there_it_is.Base.{
  ℕ, ◌≡◌, refl, Bool, true, false, Option, none, some, List, [], ◌∷◌, map, if◌then◌else◌,
}
use ah_there_it_is.Text.{Text, codes, text_eq, strip}
use ah_there_it_is.Db.{Db, Item}
use ah_there_it_is.Domain.States.{LocationStatus}
use ah_there_it_is.Runner.Protocol.{LlmResponse, AgentMessage}
use ah_there_it_is.Runner.Rounds.{Runner, run}
use ah_there_it_is.Runner.Application.{Application, execute_chat, Chatted}
use ah_there_it_is.Runner.Agent.{with_tools, app_with_tools, tool_run-IsAgent, tool_chat_is_atomic}
use ah_there_it_is.Chat.Store.{Store, ChatResult, ok}
use ah_there_it_is.Chat.Reserve.{both}
use ah_there_it_is.Chat.Agents.{IsAgent}
use ah_there_it_is.Tools.Resolution.{Kind}
use ah_there_it_is.Tools.Capabilities.{did}
use ah_there_it_is.Tools.Operations.{Write}
use ah_there_it_is.Tools.Dispatcher.{
  Toolkit, Dispatching, Parsed, unknown_tool, valid, search, write, tool_dispatcher,
}
use ah_there_it_is.Tests.Chat.{noisy, no_source, new_key, new_id, before}
use ah_there_it_is.Tests.Runner.{engine, engine-AreFresh}
use ah_there_it_is.Tests.Tools.{shelves, box}

abbrev parsed_call : Text → Text → Parsed
parsed_call name arguments =
    if text_eq name (codes "search_items")
    then valid (search Kind.item (codes "usb cable") 5)
    else if text_eq name (codes "take_item")
    then valid (write (Write.take_along 1 none))
    else unknown_tool

abbrev kit : Toolkit
kit = record {
  box = box;
  parsed_call = parsed_call;
  reads = λ name arguments t d. (did (codes "{}"), t);
  ids_text = λ kind ids d. codes "[]";
  reply_text = λ reply d. codes "{}";
  undone_text = λ run ids. codes "{}";
  error_of = λ f. record { type_name = codes "ToolPreconditionError"; message = [] };
  evidence = λ call t d. none;
  rendered = λ r. r.result;
}

abbrev called : Text → LlmResponse
called name = record {
  content = [];
  tool_calls = record { id = codes "1"; name = name; arguments = codes "{}" } ∷ [];
}

-- the messages are the prompt and the question, and two more for each call
abbrev chatting : List AgentMessage → List Text → ChatResult LlmResponse
chatting (_ ∷ _ ∷ []) tools = ok (called (codes "search_items"))
chatting (_ ∷ _ ∷ _ ∷ _ ∷ []) tools = ok (called (codes "take_item"))
chatting _ tools = ok (record { content = codes "taken"; tool_calls = [] })

abbrev runner : Runner Db Dispatching
runner = record {
  complete = chatting;
  max_rounds = 3;
  system_prompt = codes "inventory";
  dispatcher = tool_dispatcher kit;
  engine = engine;
}

abbrev stored : Store Db
stored = record {
  world = shelves;
  records = before.records;
  runs = [];
  conversations = 1 ∷ [];
  messages = [];
}

abbrev application : Application Db Dispatching
application = record {
  llm_factory = ok chatting;
  closes = true;
  max_rounds = 3;
  system_prompt = codes "inventory";
  dispatcher = tool_dispatcher kit;
  engine = engine;
}

tool_run-IsAgent_example : IsAgent (run (with_tools kit runner) (codes "take it") none)
tool_run-IsAgent_example = tool_run-IsAgent kit runner (codes "take it") none engine-AreFresh

tool_chat_is_atomic_example :
    (let (x, s) =
        execute_chat
          (app_with_tools kit application)
          noisy
          (codes "take it")
          none
          (some (codes "b"))
          none
          (both stored) in
      Chatted (codes "b") (codes "take it") stored x s)
tool_chat_is_atomic_example =
    tool_chat_is_atomic kit application noisy (codes "b") (codes "take it") none none none stored
      engine-AreFresh no_source new_key new_id refl

-- the item is in use
takes_it :
    map
      (λ (i : Item). i.location_status)
      (run (with_tools kit runner) (codes "take it") none false (both stored)).1.working.world.items
    ≡ LocationStatus.in_use ∷ []
unfolding run strip ah_there_it_is.Runner.Rounds.run_in
    ah_there_it_is.Runner.Rounds.open_conversation ah_there_it_is.Runner.Conversations.create
    ah_there_it_is.Runner.Conversations.agent_context
    ah_there_it_is.Runner.Conversations.get_conversation ah_there_it_is.Runner.Rounds.run_turn
    ah_there_it_is.Runner.Rounds.run_rounds ah_there_it_is.Runner.Rounds.respond
    ah_there_it_is.Runner.Conversations.conversation_rows
    ah_there_it_is.Runner.Conversations.newest_first ah_there_it_is.Runner.Turn.tool_round
    ah_there_it_is.Runner.Turn.run_calls ah_there_it_is.Runner.Turn.run_call
    ah_there_it_is.Runner.Turn.after_call ah_there_it_is.Tools.Dispatcher.execute_tool text_eq
    ah_there_it_is.Tools.Dispatcher.handled ah_there_it_is.Tools.Capabilities.search_tool
    ah_there_it_is.Tools.Capabilities.semantic_search_key
    ah_there_it_is.Tools.Resolution.resolve_with_evidence ah_there_it_is.Runner.Turn.ends_turn
    ah_there_it_is.Tools.Writes.write_tool ah_there_it_is.Tools.Writes.admit
    ah_there_it_is.Tools.Writes.validated_write ah_there_it_is.Tools.Writes.all_authority
    ah_there_it_is.Tools.Operations.references ah_there_it_is.Tools.Writes.has_authority
    ah_there_it_is.Tools.Capabilities.is_resolved ah_there_it_is.Tools.Capabilities.visible
    ah_there_it_is.Tools.Capabilities.begin_round ah_there_it_is.Tools.Capabilities.end_round
    ah_there_it_is.Tools.Capabilities.remember_candidates
    ah_there_it_is.Tools.Resolution.resolve_item ah_there_it_is.Tools.Resolution.decide
    ah_there_it_is.Tools.Resolution.named ah_there_it_is.Tools.Capabilities.extend
    ah_there_it_is.Tools.Writes.queries_of ah_there_it_is.Session.flush
    ah_there_it_is.Tools.Writes.all_current ah_there_it_is.Tools.Writes.still_resolves
    ah_there_it_is.Tools.Resolution.resolve ah_there_it_is.Tools.Operations.tool_operation
    ah_there_it_is.Tools.Operations.service_request ah_there_it_is.Inventory.Requests.execute
    ah_there_it_is.Session.◌>>=◌ ah_there_it_is.Inventory.Moves.take_item
    ah_there_it_is.Session.query ah_there_it_is.Base.find
    ah_there_it_is.Inventory.Checks.ensure_nonterminal ah_there_it_is.Session.pure
    ah_there_it_is.Runner.Rounds.finish_turn ah_there_it_is.Tools.Receipts.mutation_receipt
    ah_there_it_is.Tools.Receipts.ids_after ah_there_it_is.Runner.Rounds.store_turn
    ah_there_it_is.Runner.Conversations.add_message
takes_it = refl
