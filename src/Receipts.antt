-- ===== src/Receipts.antt =====
-- src/ah_there_it_is/agent/receipts.py and the run log of db/models.py: what a completed turn says
-- that it changed.
use ah_there_it_is.Base.{ℕ, Bool, Option, List}
use ah_there_it_is.Text.{Text}
use ah_there_it_is.Runner.Protocol.{AgentMessage, RoundTrace}
use ah_there_it_is.Db.{Snapshot, Media}

-- the `operation` literals
pub data Operation : Type 0 where
  create_item create_location create_category update_item move_item take_item : Operation
  mark_item_location_unknown change_item_quantity remove_item restore_item : Operation
  undo_last_action attach_item_photo update_item_photo detach_item_photo : Operation

pub data EntityType : Type 0 where
  item location category media : EntityType

-- an entry of `before` or `after`, under the key of its row; the rows of nodes are JSON text
pub data Evidence : Type 0 where
  item_row : ℕ → Snapshot → Evidence
  media_row : ℕ → Media → Evidence
  other_row : ℕ → Text → Evidence

-- `split` is its `child_item_id`, and `compensation` is its `source_item_id` and its `item_id`
pub record MutationReceipt : Type 0 where
  pub operation : Operation
  pub entity_type : EntityType
  pub entity_id : ℕ
  pub changed : Bool
  pub before_ids : List (Text × Option ℕ)
  pub after_ids : List (Text × Option ℕ)
  pub event_ids : List ℕ
  pub affected_item_ids : List ℕ
  pub created_location_ids : List ℕ
  pub before : List Evidence
  pub after : List Evidence
  pub split : Option ℕ
  pub source_item_id : Option ℕ
  pub item_id : Option ℕ
  pub undo_of_run_id : Option ℕ

-- `AgentRunLog`, less its prompt, its provider and its error; `completed` is
-- `status == "completed"`
pub record AgentRunLog : Type 0 where
  pub id : ℕ
  pub conversation_id : ℕ
  pub user_message_id : Option ℕ
  pub assistant_message_id : Option ℕ
  pub input_messages : List AgentMessage
  pub tool_trace : List RoundTrace
  pub completed : Bool
  pub final_content : Option Text
  pub rounds : ℕ
  pub mutation_receipts : List MutationReceipt

-- `AgentRunResult` of agent/runner.py
pub record AgentRunResult : Type 0 where
  pub conversation_id : ℕ
  pub run_id : ℕ
  pub content : Text
  pub rounds : ℕ
  pub changes_applied : Bool
  pub receipts : List MutationReceipt
