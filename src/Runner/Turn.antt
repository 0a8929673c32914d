-- ===== src/Runner/Turn.antt =====
-- agent/runner.py: the state of a turn, and what the runner does with one response of the model.
-- The tool dispatcher (agent/tools.py) is an interface: its operations here, its laws in
-- Runner.Dispatchers.
use ah_there_it_is.Base.{
  ℕ, Bool, false, ◌&&◌, ◌||◌, not, Option, none, some, List, [], ◌∷◌, ◌++◌, any, if◌then◌else◌,
}
use ah_there_it_is.Text.{Text, codes, text_eq}
use ah_there_it_is.Receipts.{MutationReceipt}
use ah_there_it_is.Runner.Protocol.{
  Role, ToolCall, AgentMessage, LlmResponse, ToolResult, TraceResult, RoundTrace,
}
use ah_there_it_is.Chat.Store.{
  ChatSession, ChatResult, ok, err, ChatError, turn_failed, operation_error,
}

-- `ToolDispatcher` of one turn, with its own state `S`
pub record Dispatcher (W S : Type 0) : Type 0 where
  pub start : Text → ℕ → S
  pub definitions : S → ChatSession W → ChatResult (List Text)
  pub begin_round : S → S
  pub end_round : S → S
  pub execute : Text → Text → S → ChatSession W → ChatResult ToolResult × S × ChatSession W
  pub trace_evidence : S → Option Text
  pub receipts : S → List MutationReceipt
  pub as_tool_message_content : ToolResult → Text

-- the local variables of `run`
pub record Turn (W S : Type 0) : Type 0 where
  pub messages : List AgentMessage
  pub tool_trace : List RoundTrace
  pub rounds : ℕ
  pub changed_seen : Bool
  pub state : S
  pub session : ChatSession W

abbrev pub TurnM : Type 0 → Type 0 → Type 0 → Type 0
TurnM W S A = Turn W S → ChatResult A × Turn W S

abbrev pub proceed :
    {W S A B : Type 0} → ChatResult A × Turn W S → (A → TurnM W S B) → ChatResult B × Turn W S
proceed (ok a, t) f = f a t
proceed (err e, t) f = (err e, t)

-- `MUTATION_TOOLS`
abbrev pub mutation_tools : List Text
mutation_tools =
    codes "create_item"
    ∷ codes "update_item"
    ∷ codes "move_item"
    ∷ codes "take_item"
    ∷ codes "mark_item_location_unknown"
    ∷ codes "change_item_quantity"
    ∷ codes "remove_item"
    ∷ codes "restore_item"
    ∷ codes "attach_item_photo"
    ∷ codes "update_item_photo"
    ∷ codes "detach_item_photo"
    ∷ codes "create_location"
    ∷ codes "create_category"
    ∷ codes "undo_last_action"
    ∷ []

unfoldable pub is_mutation : Text → Bool
is_mutation name = any (text_eq name) mutation_tools

abbrev pub says_changed : ToolResult → Bool
says_changed r = elim r.changed [ none ↦ false | some b ↦ b ]

unfoldable pub clarification_only : ToolResult → Bool
clarification_only r = elim r.error [
  | none ↦ false
  | some e ↦ text_eq e.type_name (codes "ToolClarificationRequiredError")
]

-- the result of a tool ends the turn
unfoldable pub ends_turn : Text → Bool → ToolResult → Bool
ends_turn name changed_seen r =
    not r.ok && (changed_seen || (is_mutation name && not (clarification_only r)))

-- the error that ends it; a failed result without an error is a KeyError
abbrev pub turn_error : Text → ToolResult → ChatError
turn_error name r = elim r.error [
  | none ↦ operation_error (codes "KeyError")
  | some e ↦ turn_failed (codes "tool " ++ name ++ codes " failed: " ++ e.type_name)
]

abbrev pub assistant_message : LlmResponse → AgentMessage
assistant_message r = record {
  role = Role.assistant;
  content = r.content;
  tool_calls = r.tool_calls;
  tool_call_id = none;
  tool_name = none;
}

abbrev pub text_message : Role → Text → AgentMessage
text_message role content = record {
  role = role;
  content = content;
  tool_calls = [];
  tool_call_id = none;
  tool_name = none;
}

-- `round_trace["tool_results"].append`, where the trace of the round is the last one
unfoldable pub add_result : TraceResult → List RoundTrace → List RoundTrace
add_result r [] = []
add_result r (t ∷ []) = record t { tool_results = t.tool_results ++ r ∷ [] } ∷ []
add_result r (t ∷ u ∷ us) = t ∷ add_result r (u ∷ us)

module _ {W S : Type 0} (d : Dispatcher W S) where
  -- the response is traced, and is a message of the turn
  abbrev pub noted : List Text → LlmResponse → Turn W S → Turn W S
  noted names response t = record t {
    tool_trace =
        t.tool_trace
        ++ record {
          round = t.rounds;
          available_tools = names;
          content = response.content;
          tool_calls = response.tool_calls;
          tool_results = [];
        }
          ∷ [];
    messages = t.messages ++ assistant_message response ∷ [];
  }

  -- the result is traced, and is a message of the turn
  abbrev pub traced : ToolCall → ToolResult → Turn W S → Turn W S
  traced call result t = record t {
    tool_trace =
        add_result
          (record {
            tool_call_id = call.id;
            tool_name = call.name;
            arguments = call.arguments;
            result = result;
            semantic_evidence = d.trace_evidence t.state;
          })
          t.tool_trace;
    messages =
        t.messages
        ++ record {
          role = Role.tool;
          content = d.as_tool_message_content result;
          tool_calls = [];
          tool_call_id = some call.id;
          tool_name = some call.name;
        }
          ∷ [];
  }

  -- what follows the execution of one call
  unfoldable pub after_call : ToolCall → ChatResult ToolResult → TurnM W S Unit
  after_call call (err e) t = (err e, t)
  after_call call (ok result) t =
      if ends_turn call.name t.changed_seen result
      then (err (turn_error call.name result), traced call result t)
      else (
        ok tt,
        record (traced call result t) { changed_seen = t.changed_seen || says_changed result },
      )

  unfoldable pub run_call : ToolCall → TurnM W S Unit
  run_call call t =
      let (r, st, s) = d.execute call.name call.arguments t.state t.session in
      after_call call r (record t { state = st; session = s })

  -- the loop over the calls of a response
  unfoldable pub run_calls : List ToolCall → TurnM W S Unit
  run_calls [] t = (ok tt, t)
  run_calls (call ∷ calls) t = proceed (run_call call t) (λ _ t'. run_calls calls t')

  -- the loop between `begin_round` and `end_round`, which is called however it ends
  unfoldable pub tool_round : List ToolCall → TurnM W S Unit
  tool_round calls t =
      let (r, t') = run_calls calls (record t { state = d.begin_round t.state }) in
      (r, record t' { state = d.end_round t'.state })
