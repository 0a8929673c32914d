-- ===== src/Undo/Compensate/Turn.antt =====
-- services/undo.py: the evidence of the receipts, and its comparison with the present.
use ah_there_it_is.Base.{
  ℕ, Bool, true, false, ◌&&◌, not, Option, none, some, List, [], ◌∷◌, find, ◌==◌, ltb,
  if◌then◌else◌,
}
use ah_there_it_is.Text.{codes}
use ah_there_it_is.Domain.States.{ItemState, LocationStatus, Error, Result, ok, err}
use ah_there_it_is.Db.{Db, Media, Snapshot, item_id}
use ah_there_it_is.Session.{M, ◌>>◌, pure, query}
use ah_there_it_is.Receipts.{
  AgentRunLog, MutationReceipt, Operation, Evidence, item_row, media_row, other_row,
}
use ah_there_it_is.Undo.Snapshots.{snapshot, snapshot_eq}

-- `evidence.get(str(item_id))`
unfoldable pub item_evidence : ℕ → List Evidence → Option Snapshot
item_evidence k [] = none
item_evidence k (item_row j s ∷ es) = if j == k then some s else item_evidence k es
item_evidence k (media_row _ _ ∷ es) = item_evidence k es
item_evidence k (other_row _ _ ∷ es) = item_evidence k es

unfoldable pub media_evidence : ℕ → List Evidence → Option Media
media_evidence k [] = none
media_evidence k (media_row j m ∷ es) = if j == k then some m else media_evidence k es
media_evidence k (item_row _ _ ∷ es) = media_evidence k es
media_evidence k (other_row _ _ ∷ es) = media_evidence k es

-- `eligible_run`: the completed run of the conversation with the largest key
abbrev pub later : AgentRunLog → Option AgentRunLog → AgentRunLog
later r none = r
later r (some q) = if ltb r.id q.id then q else r

unfoldable pub eligible_run : ℕ → List AgentRunLog → Option AgentRunLog
eligible_run c [] = none
eligible_run c (r ∷ rs) =
    let rest = eligible_run c rs in
    if (r.conversation_id == c) && r.completed then some (later r rest) else rest

-- membership in `SUPPORTED`
abbrev pub is_supported : Operation → Bool
is_supported Operation.create_location = false
is_supported Operation.create_category = false
is_supported Operation.undo_last_action = false
is_supported _ = true

abbrev pub is_undo : MutationReceipt → Bool
is_undo r = elim r.operation [ Operation.undo_last_action ↦ true | _ ↦ false ]

abbrev pub is_creation : Operation → Bool
is_creation Operation.create_item = true
is_creation _ = false

abbrev pub is_unsupported : MutationReceipt → Bool
is_unsupported r = not (is_supported r.operation)

abbrev pub is_changed : MutationReceipt → Bool
is_changed r = r.changed

abbrev pub is_empty : List MutationReceipt → Bool
is_empty [] = true
is_empty (_ ∷ _) = false

abbrev pub available : {A : Type 0} → Option A → Result A
available none = err Error.undo_unavailable
available (some a) = ok a

-- the check of one affected item against the recorded state after the turn
unfoldable pub matches_after : MutationReceipt → ℕ → Db → Result (Unit {0})
matches_after r k d = elim (item_evidence k r.after) [
  | none ↦ err Error.undo_unavailable
  | some expected ↦ elim (find item_id k d.items) [
    | none ↦ err Error.undo_unavailable
    | some i ↦
        if snapshot_eq (snapshot d.tags i) expected then ok tt else err Error.undo_unavailable
  ]
]

unfoldable pub check_items : MutationReceipt → List ℕ → M (Unit {0})
check_items r [] = pure tt
check_items r (k ∷ ks) = do query (matches_after r k); check_items r ks

abbrev pub source_id : MutationReceipt → ℕ
source_id r = elim r.source_item_id [ none ↦ r.entity_id | some k ↦ k ]

abbrev pub undone_creation : Snapshot → Snapshot
undone_creation s = record s {
  state = ItemState.removed;
  location_id = none;
  location_status = LocationStatus.not_applicable;
  removal_reason = some (codes "undo: item creation");
}

abbrev pub placed_as : Snapshot → Snapshot → Snapshot
placed_as child source = record child {
  state = source.state;
  location_id = source.location_id;
  location_status = source.location_status;
  removal_reason = source.removal_reason;
}
