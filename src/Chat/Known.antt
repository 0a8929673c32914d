-- ===== src/Chat/Known.antt =====
-- services/chat_requests.py: what a call with a known key answers.
use ah_there_it_is.Base.{
  ℕ, ◌≡◌, refl, sym, subst, ap, ◌↔◌, inl, inr, true, Option, none, some, find, any, Bool-cases,
  Option-cases, option_eq_iff, arith, if◌then◌else◌,
}
use ah_there_it_is.Text.{Text, strip, text_eq_iff, text_option_eq_iff}
use ah_there_it_is.Receipts.{AgentRunLog}
use ah_there_it_is.Chat.Store.{
  ChatRecord, ChatResult, ok, err, Store, ChatSession, Engine, Agent, IdempotentExecution, Status,
  get, run_id, conflict, in_progress, previous_failure, idempotency,
}
use ah_there_it_is.Chat.Reserve.{Reservation, normalize_source_identity, same_request}
use ah_there_it_is.Chat.Execute.{
  execute, request, resolve_existing, execution, result_from_record, receipt_changed, result_of_id,
  is_completed,
}
use ah_there_it_is.Chat.Replay.{execute-known}

-- the record was made for this content
abbrev pub IsSameRequest : ChatRecord → Reservation → Type 0
IsSameRequest r q =
    (r.message ≡ q.message)
    × (r.requested_conversation_id ≡ q.conversation_id)
    × (r.recovered_from_id ≡ q.recovered_from_id)
    × (r.recovery_note ≡ q.recovery_note)

-- the run of the record, completed and with its answer
pub record StoredRun {W : Type 0} (d : Store W) (r : ChatRecord) : Type 0 where
  pub key : ℕ
  pub run : AgentRunLog
  pub content : Text
  pub with_run : r.agent_run_id ≡ some key
  pub found : find run_id key d.runs ≡ some run
  pub completed : run.completed ≡ true
  pub with_answer : run.final_content ≡ some content

-- what a record answers to a request
pub data Answers {W : Type 0} (d : Store W) (r : ChatRecord) (q : Reservation)
    : ChatResult IdempotentExecution → Type 0 where
  to_another : ¬ IsSameRequest r q → Answers d r q (err conflict)
  still_running : IsSameRequest r q → r.status ≡ Status.processing → Answers d r q (err in_progress)
  failed_before :
      IsSameRequest r q → r.status ≡ Status.failed → Answers d r q (err previous_failure)
  stored_result :
      IsSameRequest r q
      → r.status ≡ Status.completed
      → (x : StoredRun d r)
      → Answers d r q (
          ok (record {
            result = record {
              conversation_id = x.run.conversation_id;
              run_id = x.run.id;
              content = x.content;
              rounds = x.run.rounds;
              changes_applied = any receipt_changed x.run.mutation_receipts;
              receipts = x.run.mutation_receipts;
            };
            replayed = true;
          }))
  lost_result :
      IsSameRequest r q
      → r.status ≡ Status.completed
      → ¬ StoredRun d r
      → Answers d r q (err idempotency)

same_request_iff :
    (r : ChatRecord) (q : Reservation) → (same_request r q ≡ true) ↔ IsSameRequest r q
unfolding same_request
same_request_iff r q = ground (
  arith,
  text_eq_iff r.message q.message,
  option_eq_iff r.requested_conversation_id q.conversation_id,
  option_eq_iff r.recovered_from_id q.recovered_from_id,
  text_option_eq_iff r.recovery_note q.recovery_note,
)

module _ {W : Type 0} (d : Store W) (r : ChatRecord) (q : Reservation)
    (same : IsSameRequest r q) where
  -- the answer of a completed record, by the run that it names
  stored-Answers :
      (k : Option ℕ)
      → r.agent_run_id ≡ k
      → r.status ≡ Status.completed
      → Answers d r q (execution true (result_of_id k d.runs))
  stored-Answers none named done = lost_result same done (λ x. cc)
  stored-Answers (some k) named done = elim (Option-cases (find run_id k d.runs)) [
    | inl f ↦ rw f (lost_result same done (λ x. cc))
    | inr (run, f) ↦ elim (Option-cases run.final_content) [
      | inl g ↦ rw (f, g) (lost_result same done (λ x. cc))
      | inr (content, g) ↦ elim (Bool-cases run.completed) [
        | inr n ↦ rw (f, g, n) (lost_result same done (λ x. cc))
        | inl y ↦
            rw (f, g, y)
              (stored_result same done (record {
                key = k;
                run = run;
                content = content;
                with_run = named;
                found = f;
                completed = y;
                with_answer = g;
              }))
      ]
    ]
  ]

  resolve-Answers :
      (status : Status) → r.status ≡ status → Answers d r q (execution true (resolve_existing d r))
  unfolding resolve_existing result_from_record
  resolve-Answers Status.processing p =
      let e : resolve_existing d r ≡ err in_progress = rw (p, resolve_existing) in
      subst (λ x. Answers d r q (execution true x)) (sym e) (still_running same p)
  resolve-Answers Status.failed p =
      let e : resolve_existing d r ≡ err previous_failure = rw (p, resolve_existing) in
      subst (λ x. Answers d r q (execution true x)) (sym e) (failed_before same p)
  resolve-Answers Status.completed p =
      let names_run : result_from_record d r ≡ result_of_id r.agent_run_id d.runs =
        ap (λ st. if is_completed st then result_of_id r.agent_run_id d.runs else err idempotency)
          p in
      let e : resolve_existing d r ≡ result_of_id r.agent_run_id d.runs =
        rw (p, resolve_existing) names_run in
      subst (λ x. Answers d r q (execution true x)) (sym e) (stored-Answers r.agent_run_id refl p)

-- A call with a valid source and a request key that has a record never runs the agent and leaves
-- the session as it is. If the record was made for other content, or another recovery, it is a conflict;
-- otherwise a record that is processing or failed says so, and a completed one gives the result of its run,
-- as replayed, if this is stored, completed and has its answer, and an error if not.
pub known_key_is_answered :
    {W : Type 0} (e : Engine) (agent : Agent W) (key message : Text) (conversation : Option ℕ)
    (source identity : Option Text) (s : ChatSession W) (r : ChatRecord)
    → normalize_source_identity source ≡ ok identity
    → get (strip key) s.working.records ≡ some r
    → (let (x, s') = execute e (some key) message conversation source agent s in
        Answers s.working r (request key message conversation identity) x × (s' ≡ s))
known_key_is_answered e agent key message conversation source identity s r named found =
    let q = request key message conversation identity in
    rw (execute-known e agent key message conversation source identity s r named found)
      (elim (Bool-cases (same_request r q)) [
        | inl y ↦
            rw y (resolve-Answers s.working r q ((same_request_iff r q).0 y) r.status refl, refl)
        | inr n ↦ rw n (to_another (λ same. let y = (same_request_iff r q).1 same in cc), refl)
      ])
