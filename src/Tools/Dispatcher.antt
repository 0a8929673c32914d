-- ===== src/Tools/Dispatcher.antt =====
-- agent/tools.py: `ToolDispatcher` as the runner makes it, without commits. The reading tools, the checks of
-- the arguments and the rendering of results as JSON are parameters.
use ah_there_it_is.Base.{
  ℕ, Bool, true, false, Option, none, some, List, [], ◌∷◌, ◌++◌, select, any, length, if◌then◌else◌,
}
use ah_there_it_is.Text.{Text, codes, text_eq}
use ah_there_it_is.Domain.States.{Error, Result, ok, err}
use ah_there_it_is.Db.{Db}
use ah_there_it_is.Session.{Session}
use ah_there_it_is.Receipts.{AgentRunLog, MutationReceipt, Operation, EntityType}
use ah_there_it_is.Runner.Protocol.{ToolError, ToolResult, CommitState}
use ah_there_it_is.Runner.Turn.{Dispatcher}
use ah_there_it_is.Chat.Store.{ChatSession, ChatResult, operation_error}
use ah_there_it_is.Undo.Compensate.{undo, eligible_run}
use ah_there_it_is.Tools.Resolution.{Kind}
use ah_there_it_is.Tools.Capabilities.{
  ToolBox, ToolState, ToolOutcome, did, failed, Failure, service, start_tools, begin_round,
  end_round, search_tool,
}
use ah_there_it_is.Tools.NewPaths.{ToolReply}
use ah_there_it_is.Tools.Operations.{Write}
use ah_there_it_is.Tools.Writes.{write_tool}
use ah_there_it_is.Tools.Receipts.{mutation_receipt, ids_after, item_rows}

-- a call whose arguments are valid; a tool that reads has its name and arguments
pub data Call : Type 0 where
  search : Kind → Text → ℕ → Call
  read : Text → Text → Call
  write : Write → Call
  undo_last : Call

-- what `_specs` and `model_validate` make of a name and its arguments
pub data Parsed : Type 0 where
  unknown_tool : Parsed
  invalid_arguments : Text → Parsed
  valid : Call → Parsed

-- what the dispatcher is made of
pub record Toolkit : Type 0 where
  pub box : ToolBox
  pub parsed_call : Text → Text → Parsed
  pub reads : Text → Text → ToolState → Db → ToolOutcome Text × ToolState
  pub ids_text : Kind → List ℕ → Db → Text
  pub reply_text : ToolReply → Db → Text
  pub undone_text : ℕ → List ℕ → Text
  pub error_of : Failure → ToolError
  pub evidence : Call → ToolState → Db → Option Text
  pub rendered : ToolResult → Text

-- the dispatcher of one turn
pub record Dispatching : Type 0 where
  pub tools : ToolState
  pub receipts : List MutationReceipt
  pub original_text : Text
  pub conversation_id : ℕ
  pub last_semantic_evidence : Option Text

-- the tools in the order of `_build_specs`
abbrev pub tool_names : List Text
tool_names =
    codes "search_items"
    ∷ codes "search_locations"
    ∷ codes "search_categories"
    ∷ codes "search_tags"
    ∷ codes "get_item"
    ∷ codes "get_location"
    ∷ codes "get_category"
    ∷ codes "list_location"
    ∷ codes "get_item_history"
    ∷ codes "suggest_item_locations"
    ∷ codes "undo_last_action"
    ∷ codes "create_category"
    ∷ codes "create_location"
    ∷ codes "create_item"
    ∷ codes "update_item"
    ∷ codes "change_item_quantity"
    ∷ codes "move_item"
    ∷ codes "take_item"
    ∷ codes "mark_item_location_unknown"
    ∷ codes "remove_item"
    ∷ codes "restore_item"
    ∷ codes "list_item_photos"
    ∷ codes "attach_item_photo"
    ∷ codes "update_item_photo"
    ∷ codes "detach_item_photo"
    ∷ []

abbrev pub when_any : {A : Type 0} → List A → List Text → List Text
when_any [] names = []
when_any (_ ∷ _) names = names

abbrev pub when_run : Option AgentRunLog → List Text
when_run none = []
when_run (some run) = codes "undo_last_action" ∷ []

-- `_available_tool_names`
unfoldable pub available_tool_names : Dispatching → List AgentRunLog → List Text
available_tool_names st runs =
    let s = st.tools.state in
    (codes "search_items"
      ∷ codes "search_locations"
      ∷ codes "search_categories"
      ∷ codes "search_tags"
      ∷ [])
    ++ when_any (s.seen Kind.item) (codes "get_item" ∷ codes "get_item_history" ∷ [])
    ++ when_any (s.seen Kind.location) (codes "get_location" ∷ codes "list_location" ∷ [])
    ++ when_any (s.seen Kind.category) (codes "get_category" ∷ [])
    ++ when_any (s.empty_searches Kind.item) (codes "create_item" ∷ [])
    ++ when_any (s.empty_searches Kind.location) (codes "create_location" ∷ [])
    ++ when_any (s.empty_searches Kind.category) (codes "create_category" ∷ [])
    ++ when_any (s.resolved Kind.item) (
        (codes "suggest_item_locations"
          ∷ codes "update_item"
          ∷ codes "change_item_quantity"
          ∷ codes "take_item"
          ∷ codes "mark_item_location_unknown"
          ∷ codes "remove_item"
          ∷ codes "restore_item"
          ∷ codes "list_item_photos"
          ∷ codes "attach_item_photo"
          ∷ [])
        ++ when_any (s.resolved Kind.location) (codes "move_item" ∷ []))
    ++ when_any (s.seen Kind.media) (codes "update_item_photo" ∷ codes "detach_item_photo" ∷ [])
    ++ when_run (eligible_run st.conversation_id runs)

-- `definitions`, by their names
abbrev pub definitions : Dispatching → List AgentRunLog → List Text
definitions st runs =
    let available = available_tool_names st runs in
    select (λ name. any (text_eq name) available) tool_names

-- the database as the services see it, and back
abbrev pub session_of : ChatSession Db → Session
session_of s = record { working = s.working.world; committed = s.committed.world }

abbrev pub with_session : Session → ChatSession Db → ChatSession Db
with_session x s = record {
  working = record s.working { world = x.working };
  committed = record s.committed { world = x.committed };
}

-- the exceptions that `execute` turns into a result: the others are no ToolExecutionError, InventoryError,
-- ValueError or RuntimeError
abbrev pub is_caught : Failure → Bool
is_caught (service Error.integrity_error) = false
is_caught (service Error.assertion) = false
is_caught _ = true

-- `_error`
abbrev pub error_result : ToolError → ToolResult
error_result e = record {
  ok = false;
  error = some e;
  changed = none;
  commit_state = none;
  result = [];
}

abbrev pub read_result : Text → ToolResult
read_result text = record {
  ok = true;
  error = none;
  changed = none;
  commit_state = none;
  result = text;
}

abbrev pub mutation_result : Bool → Text → ToolResult
mutation_result changed text = record {
  ok = true;
  error = none;
  changed = some changed;
  commit_state = some CommitState.provisional;
  result = text;
}

-- the receipt of an undo
abbrev pub undo_receipt : ℕ → ℕ → List ℕ → Db → Db → MutationReceipt
undo_receipt run first affected d d' = record {
  operation = Operation.undo_last_action;
  entity_type = EntityType.item;
  entity_id = first;
  changed = true;
  before_ids = [];
  after_ids = [];
  event_ids = ids_after (length d.events) d'.events;
  affected_item_ids = affected;
  created_location_ids = [];
  before = [];
  after = item_rows affected d';
  split = none;
  source_item_id = none;
  item_id = none;
  undo_of_run_id = some run;
}

abbrev pub Executed : Type 0
Executed = ChatResult ToolResult × Dispatching × ChatSession Db

module _ (kit : Toolkit) where
  -- the box of a dispatcher that the runner makes for a text
  abbrev pub box_of : Text → ToolBox
  box_of text = record kit.box {
    service = record kit.box.service { autocommit = false };
    original_text = some text;
  }

  abbrev pub refused : Failure → ChatResult ToolResult
  refused f =
      if is_caught f
      then ChatResult.ok (error_result (kit.error_of f))
      else ChatResult.err (operation_error (kit.error_of f).type_name)

  abbrev pub with_receipt : MutationReceipt → Dispatching → Dispatching
  with_receipt r st = record st { receipts = st.receipts ++ r ∷ [] }

  abbrev pub after_read : ToolOutcome Text → Dispatching → ChatSession Db → Executed
  after_read (did text) st s = (ChatResult.ok (read_result text), st, s)
  after_read (failed f) st s = (refused f, st, s)

  abbrev pub after_search : Kind → ToolOutcome (List ℕ) → Dispatching → ChatSession Db → Executed
  after_search kind (did ids) st s =
      (ChatResult.ok (read_result (kit.ids_text kind ids s.working.world)), st, s)
  after_search kind (failed f) st s = (refused f, st, s)

  -- a mutation adds its receipt, and its result says what the receipt says
  abbrev pub after_write :
      Write → ToolOutcome ToolReply × ToolState × Session → Dispatching → ChatSession Db → Executed
  after_write w (failed f, t, x) st s = (refused f, record st { tools = t }, with_session x s)
  after_write w (did reply, t, x) st s =
      let r = mutation_receipt w reply s.working.world x.working in
      (
        ChatResult.ok (mutation_result r.changed (kit.reply_text reply x.working)),
        with_receipt r (record st { tools = t }),
        with_session x s,
      )

  -- without an affected item `affected_ids[0]` is an IndexError, which is not caught
  abbrev pub after_undo :
      Result (AgentRunLog × List ℕ) × Session → Dispatching → ChatSession Db → Executed
  after_undo (err e, x) st s = (refused (service e), st, with_session x s)
  after_undo (ok (run, []), x) st s =
      (ChatResult.err (operation_error (codes "IndexError")), st, with_session x s)
  after_undo (ok (run, first ∷ rest), x) st s = (
    ChatResult.ok (mutation_result true (kit.undone_text run.id (first ∷ rest))),
    with_receipt (undo_receipt run.id first (first ∷ rest) s.working.world x.working) st,
    with_session x s,
  )

  -- the handlers
  unfoldable pub handled : Call → Dispatching → ChatSession Db → Executed
  handled (search kind query limit) st s =
      let (x, t) =
        search_tool (box_of st.original_text) kind query limit s.working.world st.tools in
      after_search kind x (record st { tools = t }) s
  handled (read name arguments) st s =
      let (x, t) = kit.reads name arguments st.tools s.working.world in
      after_read x (record st { tools = t }) s
  handled (write w) st s =
      after_write w (write_tool (box_of st.original_text) w st.tools (session_of s)) st s
  handled undo_last st s =
      after_undo
        (undo (box_of st.original_text).service s.working.runs st.conversation_id (session_of s)) st
        s

  abbrev pub with_evidence : Call → Executed → Executed
  with_evidence call (x, st, s) =
      (x, record st { last_semantic_evidence = kit.evidence call st.tools s.working.world }, s)

  -- `execute`
  abbrev pub execute_parsed : Parsed → Dispatching → ChatSession Db → Executed
  execute_parsed unknown_tool st s = (
    ChatResult.ok (error_result (record { type_name = codes "unknown_tool"; message = [] })),
    st,
    s,
  )
  execute_parsed (invalid_arguments message) st s = (
    ChatResult.ok
        (error_result (record { type_name = codes "invalid_arguments"; message = message })),
    st,
    s,
  )
  execute_parsed (valid call) st s = with_evidence call (handled call st s)

  unfoldable pub execute_tool : Text → Text → Dispatching → ChatSession Db → Executed
  execute_tool name arguments st s =
      execute_parsed (kit.parsed_call name arguments) (record st { last_semantic_evidence = none })
        s

  -- `ToolDispatcher`, as `run` makes and calls it
  abbrev pub tool_dispatcher : Dispatcher Db Dispatching
  tool_dispatcher = record {
    start = λ text conversation_id. record {
      tools = start_tools;
      receipts = [];
      original_text = text;
      conversation_id = conversation_id;
      last_semantic_evidence = none;
    };
    definitions = λ st s. ChatResult.ok (definitions st s.working.runs);
    begin_round = λ st. record st { tools = begin_round st.tools };
    end_round = λ st. record st { tools = end_round st.tools };
    execute = execute_tool;
    trace_evidence = λ st. st.last_semantic_evidence;
    receipts = λ st. st.receipts;
    as_tool_message_content = kit.rendered;
  }
