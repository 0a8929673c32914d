-- ===== src/Runner/Protocol.antt =====
-- agent/protocol.py: the messages of a turn and a model's response; and agent/runner.py: the trace
-- of a turn. JSON objects stand as their text.
use ah_there_it_is.Base.{ℕ, Bool, Option, List}
use ah_there_it_is.Text.{Text}

-- `Role`
pub data Role : Type 0 where
  system user assistant tool : Role

-- `ToolCall`, its `provider_state` left out
pub record ToolCall : Type 0 where
  pub id : Text
  pub name : Text
  pub arguments : Text

-- `AgentMessage`
pub record AgentMessage : Type 0 where
  pub role : Role
  pub content : Text
  pub tool_calls : List ToolCall
  pub tool_call_id : Option Text
  pub tool_name : Option Text

-- `LLMResponse`, its `metadata` left out
pub record LlmResponse : Type 0 where
  pub content : Text
  pub tool_calls : List ToolCall

-- the values of `commit_state`
pub data CommitState : Type 0 where
  provisional committed rolled_back : CommitState

-- the `error` of a tool's result: its `type`, and the rest
pub record ToolError : Type 0 where
  pub type_name : Text
  pub message : Text

-- a tool's result: `ok`, `error`, `changed` and `commit_state`, where they are there, and `result`
pub record ToolResult : Type 0 where
  pub ok : Bool
  pub error : Option ToolError
  pub changed : Option Bool
  pub commit_state : Option CommitState
  pub result : Text

-- an entry of `tool_results`
pub record TraceResult : Type 0 where
  pub tool_call_id : Text
  pub tool_name : Text
  pub arguments : Text
  pub result : ToolResult
  pub semantic_evidence : Option Text

-- an entry of `tool_trace`
pub record RoundTrace : Type 0 where
  pub round : ℕ
  pub available_tools : List Text
  pub content : Text
  pub tool_calls : List ToolCall
  pub tool_results : List TraceResult
