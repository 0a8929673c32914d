-- ===== src/Chat/Reserve.antt =====
-- services/chat_requests.py: normalising a request and reserving its key.
use ah_there_it_is.Base.{
  ℕ, Bool, true, false, ◌&&◌, ◌++◌, Option, none, some, [], ◌∷◌, option_eq, ltb, length,
  if◌then◌else◌,
}
use ah_there_it_is.Text.{Text, text_eq, text_option_eq, strip, is_blank}
use ah_there_it_is.Chat.Store.{
  ChatRecord, ChatResult, ok, err, Store, ChatSession, ChatM, Engine, stored, refused, crashed,
  stored_and_raised, Status, get, rolled_back, conflict, integrity, blank_source, long_source,
  commit_error,
}

-- `_normalize_source_identity`
unfoldable pub normalize_source_identity : Option Text → ChatResult (Option Text)
normalize_source_identity none = ok none
normalize_source_identity (some value) =
    let normalized = strip value in
    if is_blank normalized
    then err blank_source
    else if ltb 200 (length normalized)
    then err long_source
    else ok (some normalized)

-- the arguments of `_reserve`
pub record Reservation : Type 0 where
  pub request_key : Text
  pub message : Text
  pub conversation_id : Option ℕ
  pub source_identity : Option Text
  pub recovered_from_id : Option ℕ
  pub recovery_note : Option Text

-- the test of `_assert_same_request`
unfoldable pub same_request : ChatRecord → Reservation → Bool
same_request r q =
    text_eq r.message q.message
    && option_eq r.requested_conversation_id q.conversation_id
    && option_eq r.recovered_from_id q.recovered_from_id
    && text_option_eq r.recovery_note q.recovery_note

-- an existing record is returned if it is the same request
unfoldable pub existing_record : ChatRecord → Reservation → ChatResult (ChatRecord × Bool)
existing_record r q = if same_request r q then ok (r, false) else err conflict

abbrev pub new_record : ℕ → Reservation → ChatRecord
new_record key q = record {
  id = key;
  request_key = q.request_key;
  requested_conversation_id = q.conversation_id;
  message = q.message;
  source_identity = q.source_identity;
  status = Status.processing;
  agent_run_id = none;
  error = none;
  recovered_from_id = q.recovered_from_id;
  recovery_note = q.recovery_note;
}

module _ {W : Type 0} where
  abbrev pub add_record : ChatRecord → Store W → Store W
  add_record r d = record d { records = d.records ++ r ∷ [] }

  abbrev pub both : Store W → ChatSession W
  both d = record { working = d; committed = d }

  -- after an `IntegrityError`: the rollback shows what the other process stored
  unfoldable pub after_refusal :
      Option ChatRecord
      → Reservation
      → ChatSession W
      → ChatResult (ChatRecord × Bool) × ChatSession W
  after_refusal rival q s =
      let d : Store W = elim rival [ none ↦ s.committed | some r ↦ add_record r s.committed ] in
      elim (get q.request_key d.records) [
        | none ↦ (err integrity, both d)
        | some r ↦ (existing_record r q, both d)
      ]

  -- the commit of the new record
  unfoldable pub commit_reservation : Engine → Reservation → ChatM W (ChatRecord × Bool)
  commit_reservation e q s =
      let r = new_record e.key q in
      elim e.reserve [
        | stored ↦ (ok (r, true), both (add_record r s.working))
        | refused rival ↦ after_refusal rival q s
        | crashed ↦ (err commit_error, rolled_back s)
        | stored_and_raised ↦ (err commit_error, both (add_record r s.working))
      ]

  -- `_reserve`: the record, and whether it is new
  unfoldable pub reserve : Engine → Reservation → ChatM W (ChatRecord × Bool)
  reserve e q s = elim (get q.request_key s.working.records) [
    | some r ↦ (existing_record r q, s)
    | none ↦ commit_reservation e q s
  ]
