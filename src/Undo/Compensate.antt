-- ===== src/Undo/Compensate.antt =====
-- services/undo.py: compensating one receipt, and undoing the preceding turn.
mod Turn
unfoldable pub use Turn.*
use ah_there_it_is.Base.{
  ℕ, Bool, true, false, ◌&&◌, ◌||◌, not, Option, none, some, List, [], ◌∷◌, ◌++◌, any, select,
  reverse, find, ◌==◌, ltb, if◌then◌else◌,
}
use ah_there_it_is.Text.{codes}
use ah_there_it_is.Domain.States.{ItemState, LocationStatus, Error, Result, ok, err}
use ah_there_it_is.Domain.Quantity.{pos}
use ah_there_it_is.Db.{Db, Media, Snapshot, item_id, media_id, photo_undo_compensated}
use ah_there_it_is.Session.{
  M, Service, ◌>>=◌, ◌>>◌, pure, query, lift, raise_if, modify, flush, commit, guarded, add_event,
}
use ah_there_it_is.Inventory.Checks.{get_item}
use ah_there_it_is.Inventory.Moves.{event_of}
use ah_there_it_is.Inventory.Photos.{detach_item_photo, update_item_photo, restore_item_photo}
use ah_there_it_is.Receipts.{
  AgentRunLog, MutationReceipt, Operation, EntityType, Evidence, item_row, media_row, other_row,
  media,
}
use ah_there_it_is.Undo.Snapshots.{
  snapshot, snapshot_eq, media_eq, operation_name, restore_snapshot,
}

-- the three cases of `_compensate` once the affected items are checked
unfoldable pub undo_creation : Service → MutationReceipt → ℕ → M (Unit {0})
undo_creation self r run = do
  item ← query (get_item r.entity_id)
  current ← query (λ d. ok (snapshot d.tags item))
  restore_snapshot self item (undone_creation current) r.operation false run

unfoldable pub undo_split : Service → MutationReceipt → ℕ → ℕ → M (Unit {0})
undo_split self r child_id run = do
  child ← query (get_item child_id)
  source_before ← lift (available (item_evidence (source_id r) r.before))
  current ← query (λ d. ok (snapshot d.tags child))
  restore_snapshot self child (placed_as current source_before) r.operation true run

unfoldable pub undo_change : Service → MutationReceipt → ℕ → M (Unit {0})
undo_change self r run = do
  before ← lift (available (item_evidence (source_id r) r.before))
  item ← query (get_item (source_id r))
  restore_snapshot self item before r.operation false run

-- `_compensate` of an item; a creation has no split
unfoldable pub compensate_item : Service → MutationReceipt → ℕ → M (Unit {0})
compensate_item self r run = do
  check_items r r.affected_item_ids
  if is_creation r.operation
      then undo_creation self r run
      else elim r.split [ some child ↦ undo_split self r child run | none ↦ undo_change self r run ]

-- the check of the photo's present state
unfoldable pub matches_media : MutationReceipt → Db → Result (Unit {0})
matches_media r d =
    let current = find media_id r.entity_id d.media in
    let expected = media_evidence r.entity_id r.after in
    let kept : Result (Unit {0}) = elim current [
      | none ↦ err Error.undo_unavailable
      | some m ↦ elim expected [
        | none ↦ err Error.undo_unavailable
        | some e ↦ if media_eq m e then ok tt else err Error.undo_unavailable
      ]
    ] in
    elim r.operation [
      | Operation.attach_item_photo ↦ kept
      | Operation.update_item_photo ↦ kept
      | Operation.detach_item_photo ↦ elim current [
        | none ↦ ok tt
        | some m ↦ err Error.undo_unavailable
      ]
      | _ ↦ err Error.undo_unavailable
    ]

-- the inverse operation of a photo receipt
unfoldable pub undo_photo : Service → MutationReceipt → ℕ → Operation → M (Unit {0})
undo_photo self r parent Operation.attach_item_photo = do
  _m ← detach_item_photo self r.entity_id
  pure tt
undo_photo self r parent Operation.update_item_photo = do
  before ← lift (available (media_evidence r.entity_id r.before))
  _m ← update_item_photo self r.entity_id (some before.caption) (some (pos before.position))
  pure tt
undo_photo self r parent Operation.detach_item_photo = do
  before ← lift (available (media_evidence r.entity_id r.before))
  _m ←
      restore_item_photo self r.entity_id parent before.provider before.media_reference
        before.caption (pos before.position)
  pure tt
undo_photo self r parent _ = pure tt

abbrev pub only_parent : ℕ → List ℕ → Bool
only_parent k (j ∷ []) = j == k
only_parent k _ = false

-- `_compensate_media`
unfoldable pub compensate_media : Service → MutationReceipt → ℕ → M (Unit {0})
compensate_media self r run = do
  parent_id ← lift (available r.item_id)
  raise_if (not (only_parent parent_id r.affected_item_ids)) Error.undo_unavailable
  query (matches_media r)
  parent ← query (get_item parent_id)
  undo_photo self r parent_id r.operation
  modify (
      add_event (
        event_of parent.id
          (photo_undo_compensated run (operation_name r.operation) r.entity_id
            (media_evidence r.entity_id r.before) (media_evidence r.entity_id r.after))
          none))

abbrev pub is_media : EntityType → Bool
is_media media = true
is_media _ = false

-- `_compensate`
unfoldable pub compensate : Service → MutationReceipt → ℕ → M (Unit {0})
compensate self r run =
    if is_media r.entity_type then compensate_media self r run else compensate_item self r run

-- the loop of `undo`
unfoldable pub compensate_all : Service → List MutationReceipt → ℕ → M (List ℕ)
compensate_all self [] run = pure []
compensate_all self (r ∷ rs) run = do
  compensate self r run
  ids ← compensate_all self rs run
  pure (r.affected_item_ids ++ ids)

-- `sorted(set(…))`
unfoldable pub insert : ℕ → List ℕ → List ℕ
insert k [] = k ∷ []
insert k (j ∷ js) = if k == j then j ∷ js else if ltb k j then k ∷ j ∷ js else j ∷ insert k js

unfoldable pub sorted_set : List ℕ → List ℕ
sorted_set [] = []
sorted_set (k ∷ ks) = insert k (sorted_set ks)

-- the inventory of `UndoService.__init__`, which never commits
abbrev pub manual : Service → Service
manual self = record self { autocommit = false }

-- `undo`
unfoldable pub undo : Service → List AgentRunLog → ℕ → M (AgentRunLog × List ℕ)
undo self runs conversation = do
  run ← lift (available (eligible_run conversation runs))
  raise_if (is_empty run.mutation_receipts) Error.undo_unavailable
  raise_if (any is_undo run.mutation_receipts) Error.undo_unavailable
  let changed : List MutationReceipt = select is_changed run.mutation_receipts
  raise_if (is_empty changed || any is_unsupported changed) Error.undo_unavailable
  guarded self (do
    ids ← compensate_all (manual self) (reverse changed) run.id
    flush self
    if self.autocommit then commit self else pure tt
    pure (run, sorted_set ids))
