-- ===== src/Tests/Chat.antt =====
-- Witnesses for services/chat_requests.py. The agent of these tests stores its run and counts its
-- calls in the world.
use ah_there_it_is.Base.{List, arith, ℕ, suc, ◌≡◌, refl, true, false, none, some, [], ◌∷◌, find}
use ah_there_it_is.Text.{Text, codes, strip}
use ah_there_it_is.Receipts.{AgentRunLog, AgentRunResult}
use ah_there_it_is.Chat.Store.{
  Agent, ChatSession, Store, Engine, ChatRecord, Status, ok, err, done, uncertain, lost, stored,
  get, run_id, failed, conflict,
}
use ah_there_it_is.Chat.Reserve.{normalize_source_identity, both}
use ah_there_it_is.Chat.Execute.{execute, recover, request, recovery}
use ah_there_it_is.Chat.Agents.{IsAgent}
use ah_there_it_is.Chat.Pages.{read_on, pages_cover}
use ah_there_it_is.Chat.Effects.{Ended}
use ah_there_it_is.Chat.Replay.{new_request_is_atomic}
use ah_there_it_is.Chat.Known.{Answers, known_key_is_answered}
use ah_there_it_is.Chat.Again.{completed_call_is_replayed, recovery_is_atomic}

abbrev run : AgentRunLog
run = record {
  id = 7;
  conversation_id = 1;
  user_message_id = none;
  assistant_message_id = none;
  input_messages = [];
  tool_trace = [];
  completed = true;
  final_content = some (codes "done");
  rounds = 2;
  mutation_receipts = [];
}

abbrev answer : AgentRunResult
answer = record {
  conversation_id = 1;
  run_id = 7;
  content = codes "done";
  rounds = 2;
  changes_applied = false;
  receipts = [];
}

abbrev counting : Agent ℕ
counting _ s = (
  ok answer,
  record s {
    working = record {
      world = suc s.working.world;
      records = s.working.records;
      runs = run ∷ s.working.runs;
      conversations = s.working.conversations;
      messages = s.working.messages;
    };
  },
)

counting-IsAgent : IsAgent counting
unfolding find
counting-IsAgent = record {
  keeps_world = λ d. refl;
  keeps_messages = λ d. refl;
  keeps_requests = λ d. refl;
  keeps_records = λ d a e. refl;
  stores_run = λ d a e. (run, cc, refl, cc);
}

abbrev old : ChatRecord
old = record {
  id = 1;
  request_key = codes "a";
  requested_conversation_id = none;
  message = codes "move it";
  source_identity = none;
  status = failed;
  agent_run_id = none;
  error = some (codes "agent failure");
  recovered_from_id = none;
  recovery_note = none;
}

abbrev pub before : Store ℕ
before = record { world = 5; records = old ∷ []; runs = []; conversations = 1 ∷ []; messages = [] }

abbrev quiet : Engine
quiet = record { reserve = stored; stages = true; finish = done; mark = done; key = 2 }

abbrev pub noisy : Engine
noisy = record { reserve = stored; stages = true; finish = uncertain; mark = lost; key = 2 }

pub no_source : normalize_source_identity none ≡ ok none
unfolding normalize_source_identity
no_source = refl

pub new_key : get (strip (codes "b")) before.records ≡ none
unfolding get strip ah_there_it_is.Text.lstrip ah_there_it_is.Text.text_eq
    ah_there_it_is.Text.is_space
new_key = refl

old_key : get (strip (codes "a")) before.records ≡ some old
unfolding get strip ah_there_it_is.Text.lstrip ah_there_it_is.Text.text_eq
    ah_there_it_is.Text.is_space
old_key = refl

pub new_id : find ah_there_it_is.Chat.Store.record_id 2 before.records ≡ none
unfolding find
new_id = refl

new_request_is_atomic_example :
    (let (r, s) =
        execute noisy (some (codes "b")) (codes "move it") none none counting (both before) in
      Ended noisy counting (request (codes "b") (codes "move it") none none) before r s)
new_request_is_atomic_example =
    new_request_is_atomic noisy counting (codes "b") (codes "move it") none none none before
      counting-IsAgent no_source new_key new_id refl

known_key_is_answered_example :
    (let (x, s) =
        execute noisy (some (codes "a")) (codes "move it") none none counting (both before) in
      Answers before old (request (codes "a") (codes "move it") none none) x × (s ≡ both before))
known_key_is_answered_example =
    known_key_is_answered noisy counting (codes "a") (codes "move it") none none none (both before)
      old no_source old_key

completed_call_is_replayed_example :
    (let (r, s) =
        execute quiet (some (codes "b")) (codes "move it") none none counting (both before) in
      (r ≡ ok (record { result = answer; replayed = false }))
      × (execute noisy (some (codes "b")) (codes "move it") none none counting s
          ≡ (ok (record { result = answer; replayed = true }), s)))
completed_call_is_replayed_example =
    completed_call_is_replayed quiet noisy counting counting (codes "b") (codes "move it") none none
      none none none before answer counting-IsAgent no_source no_source new_key new_id refl refl
      refl refl

recovery_is_atomic_example :
    (let (x, s) =
        recover noisy
          (strip (codes "a"))
          (codes "b")
          (codes "checked")
          none
          counting
          (both before) in
      Ended noisy counting (recovery old (codes "b") (codes "checked") none) before x s)
unfolding strip ah_there_it_is.Text.text_eq
recovery_is_atomic_example =
    recovery_is_atomic noisy counting (strip (codes "a")) (codes "b") (codes "checked") none none
      before old counting-IsAgent old_key refl refl refl refl refl new_key new_id refl

abbrev three_rows : List ℕ
three_rows = 10 ∷ 20 ∷ 30 ∷ []

pages_cover_example : read_on 4 1 2 three_rows ≡ three_rows
pages_cover_example = pages_cover 2 three_rows (omega arith) (omega arith)
