-- ===== src/Runner/Conversations.antt =====
-- services/conversations.py: ConversationService, on the tables of Chat.Store. `fresh` is the key that the
-- database gives a new row.
use ah_there_it_is.Base.{
  ℕ, suc, ◌∷◌, [], List, Option, none, some, Bool, true, false, ◌||◌, not, ◌++◌, map, reverse,
  select, contains, length, take, first, ltb, ◌==◌, if◌then◌else◌,
}
use ah_there_it_is.Text.{Text}
use ah_there_it_is.Runner.Protocol.{Role}
use ah_there_it_is.Chat.Store.{
  Message, Store, ChatResult, ok, err, ChatM, Ending, done, lost, uncertain, rolled_back,
  commit_error, no_conversation, bad_role, persist_error, bad_limit, bad_before,
}
use ah_there_it_is.Chat.Reserve.{both}

abbrev pub Keys : Type 0
Keys = List ℕ → ℕ

abbrev pub agent_context_message_limit : ℕ
agent_context_message_limit = 40

abbrev pub max_message_window_limit : ℕ
max_message_window_limit = 100

abbrev pub message_id : Message → ℕ
message_id m = m.id

-- the roles that are stored
abbrev pub is_persisted : Role → Bool
is_persisted Role.user = true
is_persisted Role.assistant = true
is_persisted _ = false

abbrev pub is_assistant : Role → Bool
is_assistant Role.assistant = true
is_assistant _ = false

-- `ORDER BY id DESC`
unfoldable pub insert_newest : Message → List Message → List Message
insert_newest m [] = m ∷ []
insert_newest m (x ∷ xs) =
    let rest = insert_newest m xs in if ltb m.id x.id then x ∷ rest else m ∷ x ∷ xs

unfoldable pub newest_first : List Message → List Message
newest_first [] = []
newest_first (m ∷ ms) = insert_newest m (newest_first ms)

-- the messages of a conversation, older than `before` if it is given
unfoldable pub in_conversation : ℕ → Message → Bool
in_conversation c m = m.conversation_id == c

unfoldable pub older_than : Option ℕ → List Message → List Message
older_than none ms = ms
older_than (some b) ms = select (λ m. ltb m.id b) ms

-- the rows of a query, newest first
unfoldable pub conversation_rows : {W : Type 0} → ℕ → Store W → List Message
conversation_rows c d = newest_first (select (in_conversation c) d.messages)

-- `ConversationMessageWindow`
pub record MessageWindow : Type 0 where
  pub messages : List Message
  pub limit : ℕ
  pub has_older : Bool
  pub next_before_id : Option ℕ

abbrev pub id_of : Option Message → Option ℕ
id_of none = none
id_of (some m) = some m.id

-- the window of the rows that the query finds
unfoldable pub window_of : ℕ → List Message → MessageWindow
window_of limit rows =
    let newest = take (suc limit) rows in
    let messages = reverse (take limit newest) in
    record {
      messages = messages;
      limit = limit;
      has_older = ltb limit (length newest);
      next_before_id = if ltb limit (length newest) then id_of (first messages) else none;
    }

-- `before_id` is a positive number, if it is given
abbrev pub is_zero : Option ℕ → Bool
is_zero none = false
is_zero (some b) = b == 0

-- `before_id` is a message of the conversation, if it is given
abbrev pub is_known : Option ℕ → List Message → Bool
is_known none rows = true
is_known (some b) rows = contains (map message_id rows) b

-- the newest messages, oldest first, less an answer whose question was cut off
abbrev pub without_leading_answer : List Message → List Message
without_leading_answer [] = []
without_leading_answer (m ∷ ms) = if is_assistant m.role then ms else m ∷ ms

-- a commit that writes `d`, with the handler of `_persist`
abbrev pub commit_row : {W A : Type 0} → Ending → A → Store W → ChatM W A
commit_row done a d s = (ok a, both d)
commit_row lost a d s = (err commit_error, rolled_back s)
commit_row uncertain a d s = (err commit_error, both d)

-- a flush that writes `d`; one that fails has rolled its transaction back
abbrev pub flush_row : {W A : Type 0} → Bool → A → Store W → ChatM W A
flush_row flushes a d s =
    if flushes then (ok a, record s { working = d }) else (err persist_error, rolled_back s)

module _ {W : Type 0} where
  -- `create`
  unfoldable pub create : Keys → Ending → ChatM W ℕ
  create fresh ending s =
      let d = s.working in
      let id = fresh d.conversations in
      commit_row ending id (record d { conversations = d.conversations ++ id ∷ [] }) s

  -- `get`
  unfoldable pub get_conversation : ℕ → Store W → ChatResult ℕ
  get_conversation c d = if contains d.conversations c then ok c else err no_conversation

  -- `add_message` without a commit
  unfoldable pub add_message : Keys → Bool → ℕ → Role → Text → ChatM W Message
  add_message fresh flushes c role content s =
      if not (is_persisted role) then (err bad_role, s) else elim (get_conversation c s.working) [
        | err e ↦ (err e, s)
        | ok _ ↦
            let d = s.working in
            let m : Message = record {
              id = fresh (map message_id d.messages);
              conversation_id = c;
              role = role;
              content = content;
            } in
            flush_row flushes m (record d { messages = d.messages ++ m ∷ [] }) s
      ]

  -- `message_window`
  unfoldable pub message_window : ℕ → ℕ → Option ℕ → Store W → ChatResult MessageWindow
  message_window c limit before_id d =
      if limit == 0 || ltb max_message_window_limit limit
      then err bad_limit
      else if is_zero before_id
      then err bad_before
      else elim (get_conversation c d) [
        | err e ↦ err e
        | ok _ ↦
            if is_known before_id (conversation_rows c d)
            then ok (window_of limit (older_than before_id (conversation_rows c d)))
            else err bad_before
      ]

  -- `list_agent_context_messages`
  unfoldable pub agent_context : ℕ → Store W → ChatResult (List Message)
  agent_context c d = elim (get_conversation c d) [
    | err e ↦ err e
    | ok _ ↦ ok (
        without_leading_answer (reverse (take agent_context_message_limit (conversation_rows c d))))
  ]
