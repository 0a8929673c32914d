-- ===== src/Tests/Undo.antt =====
-- Witnesses for services/undo.py.
use ah_there_it_is.Base.{false, inr, ℕ, ◌≡◌, refl, true, none, some, List, [], ◌∷◌, find, replace}
use ah_there_it_is.Text.{Text, codes, strip}
use ah_there_it_is.Domain.States.{LocationStatus, ok, err, Error}
use ah_there_it_is.Db.{Db, Item, Event, item_id}
use ah_there_it_is.Session.{Session}
use ah_there_it_is.Inventory.Checks.{normalized_nonblank}
use ah_there_it_is.Inventory.Moves.{at_location}
use ah_there_it_is.Inventory.Requests.{serve}
use ah_there_it_is.Inventory.Requests.Runs.{fresh_start}
use ah_there_it_is.Receipts.{
  AgentRunLog, MutationReceipt, Operation, EntityType, Evidence, item_row,
}
use ah_there_it_is.Undo.Snapshots.{snapshot, snapshot_eq}
use ah_there_it_is.Undo.Compensate.{compensate_item, item_evidence, undo}
use ah_there_it_is.Undo.Atomic.{Undone}
use ah_there_it_is.Undo.Whole.{undo_is_atomic}
use ah_there_it_is.Undo.Refuses.{changed_item_is_refused}
use ah_there_it_is.Undo.Restores.{compensation_restores}
use ah_there_it_is.Tests.Services.{plain, plain_names}
use ah_there_it_is.Tests.Inventory.{cable, short, short_item}

abbrev taken : Session
taken = serve plain short fresh_start

abbrev at_desk : Item
at_desk = at_location cable (some 1) LocationStatus.known

abbrev receipt_with : List Evidence → MutationReceipt
receipt_with after = record {
  operation = Operation.take_item;
  entity_type = EntityType.item;
  entity_id = 1;
  changed = true;
  before_ids = [];
  after_ids = [];
  event_ids = [];
  affected_item_ids = 1 ∷ [];
  created_location_ids = [];
  before = item_row 1 (snapshot taken.working.tags at_desk) ∷ [];
  after = after;
  split = none;
  source_item_id = none;
  item_id = none;
  undo_of_run_id = none;
}

abbrev receipt : MutationReceipt
receipt = receipt_with (item_row 1 (snapshot taken.working.tags cable) ∷ [])

abbrev run : AgentRunLog
run = record {
  id = 7;
  conversation_id = 1;
  user_message_id = none;
  assistant_message_id = none;
  input_messages = [];
  tool_trace = [];
  completed = true;
  final_content = some (codes "done");
  rounds = 2;
  mutation_receipts = receipt ∷ [];
}

undo_is_atomic_example :
    Undone plain taken (undo plain (run ∷ []) 1 taken).0 (undo plain (run ∷ []) 1 taken).1
undo_is_atomic_example = undo_is_atomic plain (run ∷ []) 1 taken

-- the same item, as the receipt of another turn records it
abbrev moved_since : MutationReceipt
moved_since = receipt_with (item_row 1 (snapshot taken.working.tags at_desk) ∷ [])

recorded : item_evidence 1 moved_since.after ≡ some (snapshot taken.working.tags at_desk)
unfolding item_evidence
recorded = refl

differs :
    snapshot_eq (snapshot taken.working.tags cable) (snapshot taken.working.tags at_desk) ≡ false
unfolding snapshot_eq ah_there_it_is.Text.text_eq
differs = refl

changed_item_is_refused_example :
    compensate_item plain moved_since 7 taken ≡ (err Error.undo_unavailable, taken)
changed_item_is_refused_example =
    changed_item_is_refused plain moved_since 7 1 taken refl
      (inr (inr (snapshot taken.working.tags at_desk, cable, recorded, short_item, differs)))

before_the_turn : item_evidence 1 receipt.before ≡ some (snapshot taken.working.tags at_desk)
unfolding item_evidence
before_the_turn = refl

after_the_turn : item_evidence 1 receipt.after ≡ some (snapshot taken.working.tags cable)
unfolding item_evidence
after_the_turn = refl

plain_name : normalized_nonblank plain_names (codes "usb cable") ≡ ok (codes "usb cable")
unfolding normalized_nonblank strip ah_there_it_is.Text.lstrip ah_there_it_is.Text.is_space
plain_name = refl

compensation_restores_example :
    (e : Event) × (d : Db) × (compensate_item plain receipt 7 taken
      ≡ (ok tt, record taken { working = d }))
    × ((k : ℕ)
        → find item_id k d.items ≡ find item_id k (replace item_id at_desk taken.working.items))
    × (find item_id 1 d.items ≡ some at_desk)
    × (d.events ≡ e ∷ taken.working.events)
    × (e.item_id ≡ 1)
compensation_restores_example =
    compensation_restores plain taken at_desk cable receipt 7 refl refl refl short_item refl refl
      refl refl before_the_turn after_the_turn plain_name
