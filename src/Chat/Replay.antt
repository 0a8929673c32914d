-- ===== src/Chat/Replay.antt =====
-- services/chat_requests.py: what a call does with a new key, and with a known one.
use ah_there_it_is.Base.{
  ℕ, ◌≡◌, refl, ap, inl, inr, Bool, true, false, Option, none, some, find, if◌then◌else◌,
  Bool-cases,
}
use ah_there_it_is.Text.{Text, strip}
use ah_there_it_is.Chat.Store.{
  ChatRecord, ChatError, ok, err, Store, ChatSession, Engine, ReserveCommit, stored, refused,
  crashed, stored_and_raised, Agent, get, record_id, conflict, integrity, commit_error,
}
use ah_there_it_is.Chat.Reserve.{
  Reservation, reserve, commit_reservation, both, normalize_source_identity, same_request,
  existing_record, after_refusal, add_record, new_record,
}
use ah_there_it_is.Chat.Execute.{
  execute, request, reserve_and_run, run_reserved, resolve_existing, execution, execute_reserved,
}
use ah_there_it_is.Chat.Agents.{IsAgent}
use ah_there_it_is.Chat.Effects.{Ended, After-Ended, is_finished, kept}

-- Another process has stored a record under the key in the meantime.
abbrev pub has_rival : ReserveCommit → Bool
has_rival (refused (some _)) = true
has_rival _ = false

module _ {W : Type 0} (e : Engine) (agent : Agent W) (q : Reservation) (d : Store W) where
  unstored-Ended :
      (x : ChatError) → get q.request_key d.records ≡ none → Ended e agent q d (err x) (both d)
  unstored-Ended x absent = (refl, refl, ap is_finished absent)

  committed-Ended :
      (c : ReserveCommit)
      → e.reserve ≡ c
      → has_rival c ≡ false
      → IsAgent agent
      → get q.request_key d.records ≡ none
      → find record_id e.key d.records ≡ none
      → (let (r, s) = commit_reservation e q (both d) in
          Ended e agent q d (run_reserved e agent r s).0 (run_reserved e agent r s).1)
  unfolding commit_reservation after_refusal execute_reserved get
  committed-Ended stored p alone h absent unused =
      rw (p, commit_reservation)
        (After-Ended (record e { reserve = stored }) agent q d absent unused h)
  committed-Ended (refused none) p alone h absent unused =
      rw (p, commit_reservation, absent) (unstored-Ended integrity absent)
  committed-Ended (refused (some r)) p alone h absent unused = absurd (cc)
  committed-Ended crashed p alone h absent unused =
      rw (p, commit_reservation) (unstored-Ended commit_error absent)
  committed-Ended stored_and_raised p alone h absent unused =
      let c = add_record (new_record e.key q) d in
      rw (p, commit_reservation) (kept e agent q d absent unused c refl refl refl commit_error c)

  pub reserved-Ended :
      has_rival e.reserve ≡ false
      → IsAgent agent
      → get q.request_key d.records ≡ none
      → find record_id e.key d.records ≡ none
      → (let (r, s) = reserve_and_run e q agent (both d) in Ended e agent q d r s)
  unfolding reserve
  reserved-Ended alone h absent unused =
      rw (absent, reserve) (committed-Ended e.reserve refl alone h absent unused)

-- A call with a new request key, a valid source and an agent that keeps its contract, on a
-- session with no pending writes and a new key for the record, whatever the database does at
-- each commit, unless another process takes the request key in the meantime: if it returns, what
-- is committed is the agent's work and the record as completed, with the returned run; if it
-- raises, the committed world and messages are as before the call, and the record, if it is
-- stored, is not completed.
pub new_request_is_atomic :
    {W : Type 0} (e : Engine) (agent : Agent W) (key message : Text) (conversation : Option ℕ)
    (source identity : Option Text) (d : Store W)
    → IsAgent agent
    → normalize_source_identity source ≡ ok identity
    → get (strip key) d.records ≡ none
    → find record_id e.key d.records ≡ none
    → has_rival e.reserve ≡ false
    → (let (r, s) = execute e (some key) message conversation source agent (both d) in
        Ended e agent (request key message conversation identity) d r s)
unfolding execute
new_request_is_atomic e agent key message conversation source identity d h named absent unused
      alone =
    rw (named, execute)
      (reserved-Ended e agent (request key message conversation identity) d alone h absent unused)

-- the call with a known key, as the code computes it
pub execute-known :
    {W : Type 0} (e : Engine) (agent : Agent W) (key message : Text) (conversation : Option ℕ)
    (source identity : Option Text) (s : ChatSession W) (r : ChatRecord)
    → normalize_source_identity source ≡ ok identity
    → get (strip key) s.working.records ≡ some r
    → execute e (some key) message conversation source agent s ≡ (
      (if same_request r (request key message conversation identity)
          then execution true (resolve_existing s.working r)
          else err conflict),
      s,
    )
unfolding execute reserve existing_record execute_reserved
execute-known e agent key message conversation source identity s r named found =
    rw (named, execute)
      (rw (found, reserve)
        (elim (Bool-cases (same_request r (request key message conversation identity))) [
          | inl y ↦ rw y refl
          | inr n ↦ rw n refl
        ]))
