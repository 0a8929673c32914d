-- ===== src/Chat/Store.antt =====
-- services/chat_requests.py: its table and those of db/models.py that a chat writes, its errors, and what the database may do in one call.
use ah_there_it_is.Base.{
  ℕ, Bool, true, false, Option, none, some, List, [], ◌∷◌, find, if◌then◌else◌,
}
use ah_there_it_is.Text.{Text, text_eq}
use ah_there_it_is.Runner.Protocol.{Role}
use ah_there_it_is.Receipts.{AgentRunLog, AgentRunResult}

pub data Status : Type 0 where
  processing completed failed : Status

-- `ChatRequestRecord`
pub record ChatRecord : Type 0 where
  pub id : ℕ
  pub request_key : Text
  pub requested_conversation_id : Option ℕ
  pub message : Text
  pub source_identity : Option Text
  pub status : Status
  pub agent_run_id : Option ℕ
  pub error : Option Text
  pub recovered_from_id : Option ℕ
  pub recovery_note : Option Text

-- the exceptions; `operation_error` and `commit_error` are those of the agent and the database
pub data ChatError : Type 0 where
  idempotency conflict in_progress previous_failure not_found recovery_not_allowed : ChatError
  blank_source long_source integrity commit_error mark_error : ChatError
  blank_text bad_rounds no_conversation bad_role bad_limit bad_before persist_error loop_limit
        close_error :
      ChatError
  turn_failed operation_error : Text → ChatError

pub data ChatResult (A : Type 0) : Type 0 where
  ok : A → ChatResult A
  err : ChatError → ChatResult A

-- `Message`
pub record Message : Type 0 where
  pub id : ℕ
  pub conversation_id : ℕ
  pub role : Role
  pub content : Text

-- the database; `world` is all that the agent's tools may change, and a conversation is its id
pub record Store (W : Type 0) : Type 0 where
  pub world : W
  pub records : List ChatRecord
  pub runs : List AgentRunLog
  pub conversations : List ℕ
  pub messages : List Message

pub record ChatSession (W : Type 0) : Type 0 where
  pub working : Store W
  pub committed : Store W

abbrev pub ChatM : Type 0 → Type 0 → Type 0
ChatM W A = ChatSession W → ChatResult A × ChatSession W

-- how the commit of a reservation ends: stored; refused, since another process has stored the
-- given record, if any, under the key; another error, with nothing stored; or an error of the commit or
-- of the refresh after it, with the record stored
pub data ReserveCommit : Type 0 where
  stored : ReserveCommit
  refused : Option ChatRecord → ReserveCommit
  crashed : ReserveCommit
  stored_and_raised : ReserveCommit

-- how a commit ends: it returns; it raises and nothing is stored; it raises after all was stored
pub data Ending : Type 0 where
  done lost uncertain : Ending

-- what the database does in one call, whether it accepts the flush of the completed record, and the key
-- of a new record
pub record Engine : Type 0 where
  pub reserve : ReserveCommit
  pub stages : Bool
  pub finish : Ending
  pub mark : Ending
  pub key : ℕ

abbrev pub record_id : ChatRecord → ℕ
record_id r = r.id

abbrev pub run_id : AgentRunLog → ℕ
run_id r = r.id

-- `ChatRequestService.get`
unfoldable pub get : Text → List ChatRecord → Option ChatRecord
get key [] = none
get key (r ∷ rs) = if text_eq r.request_key key then some r else get key rs

-- writing a record back by its primary key
unfoldable pub update : ChatRecord → List ChatRecord → List ChatRecord
update r rs = ah_there_it_is.Base.replace record_id r rs

-- `IdempotentExecution`
pub record IdempotentExecution : Type 0 where
  pub result : AgentRunResult
  pub replayed : Bool

-- the callback: it runs the agent, and commits by itself only if its argument says so
abbrev pub Agent : Type 0 → Type 0
Agent W = Bool → ChatM W AgentRunResult

abbrev pub rolled_back : {W : Type 0} → ChatSession W → ChatSession W
rolled_back s = record { working = s.committed; committed = s.committed }
