-- ===== src/Runner/Agent.antt =====
-- agent/runner.py and services/chat_application.py with the tools of agent/tools.py: what a run and a chat
-- leave behind.
use ah_there_it_is.Base.{ℕ, ◌≡◌, Option, none, some, find, false}
use ah_there_it_is.Text.{Text, strip}
use ah_there_it_is.Db.{Db}
use ah_there_it_is.Tools.Dispatcher.{Toolkit, Dispatching, tool_dispatcher}
use ah_there_it_is.Tools.Lawful.{tool_dispatcher-IsDispatcher}
use ah_there_it_is.Runner.Rounds.{Runner, run}
use ah_there_it_is.Runner.Contract.{AreFresh, run-IsAgent}
use ah_there_it_is.Runner.Application.{Application, execute_chat, Chatted, execute_chat_is_atomic}
use ah_there_it_is.Chat.Store.{Store, Engine, ok, get, record_id}
use ah_there_it_is.Chat.Reserve.{both, normalize_source_identity}
use ah_there_it_is.Chat.Agents.{IsAgent}
use ah_there_it_is.Chat.Replay.{has_rival}

-- a runner, and an application, whose turns call the tools of the inventory
abbrev pub with_tools : Toolkit → Runner Db Dispatching → Runner Db Dispatching
with_tools kit self = record self { dispatcher = tool_dispatcher kit }

abbrev pub app_with_tools : Toolkit → Application Db Dispatching → Application Db Dispatching
app_with_tools kit app = record app { dispatcher = tool_dispatcher kit }

-- With new keys from the database, the runner with the tools of the inventory keeps the contract of the
-- request gate: it is an agent as IsAgent asks.
pub tool_run-IsAgent :
    (kit : Toolkit) (self : Runner Db Dispatching) (user_text : Text) (conversation_id : Option ℕ)
    → AreFresh self.engine.fresh
    → IsAgent (run (with_tools kit self) user_text conversation_id)
tool_run-IsAgent kit self user_text conversation_id new =
    run-IsAgent (with_tools kit self) user_text conversation_id (tool_dispatcher-IsDispatcher kit)
      new

-- A chat with a new request key and a valid source, with the tools of the inventory, on a session with
-- no pending writes, with new keys from the database, whatever the model answers and calls, whether each
-- flush is accepted, the reservation is stored, refused or raises with or without being stored, and the other
-- commits return or raise with or without storing, and unless another process takes the request key in
-- the meantime: if it returns, what is committed are the old messages, the question and the returned
-- answer, and a completed record; if it raises, the committed inventory and messages are as before,
-- and the record, if it is stored, is not completed.
pub tool_chat_is_atomic :
    (kit : Toolkit) (app : Application Db Dispatching) (e : Engine) (key message : Text)
    (conversation_id : Option ℕ) (source identity : Option Text) (d : Store Db)
    → AreFresh app.engine.fresh
    → normalize_source_identity source ≡ ok identity
    → get (strip key) d.records ≡ none
    → find record_id e.key d.records ≡ none
    → has_rival e.reserve ≡ false
    → (let (x, s) =
          execute_chat
            (app_with_tools kit app)
            e
            message
            conversation_id
            (some key)
            source
            (both d) in
        Chatted key message d x s)
tool_chat_is_atomic kit app e key message conversation_id source identity d new named absent unused
      alone =
    execute_chat_is_atomic (app_with_tools kit app) e key message conversation_id source identity d
      (tool_dispatcher-IsDispatcher kit) new named absent unused alone
