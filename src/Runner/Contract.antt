-- ===== src/Runner/Contract.antt =====
-- agent/runner.py: `run` keeps the contract that the request gate asks of its callback.
use ah_there_it_is.Base.{
  ℕ, ◌≡◌, refl, sym, ap, ◌∙◌, subst, ◌⊎◌, inl, inr, true, false, Option, none, some, List, [], ◌∷◌,
  ◌++◌, map, contains, find, find-append, find_absent, arith, Bool-cases, ◌==◌,
}
use ah_there_it_is.Text.{Text, strip, is_blank}
use ah_there_it_is.Receipts.{AgentRunLog, AgentRunResult}
use ah_there_it_is.Runner.Protocol.{CommitState}
use ah_there_it_is.Runner.Conversations.{Keys, create, agent_context}
use ah_there_it_is.Runner.Turn.{Turn}
use ah_there_it_is.Runner.Rounds.{
  Runner, Request, run_rounds, log_failure, end_turn, start_turn, run_turn, open_conversation,
  run_in, run, failed_run, first_messages,
}
use ah_there_it_is.Runner.Dispatchers.{IsDispatcher, any_changed}
use ah_there_it_is.Runner.Stored.{Stored, IsSettled, settled-IsSettled, Done, run_rounds-Done}
use ah_there_it_is.Chat.Store.{
  Store, ChatSession, ChatResult, ok, err, ChatError, Ending, done, lost, uncertain, run_id,
}
use ah_there_it_is.Chat.Reserve.{both}
use ah_there_it_is.Chat.Execute.{result_of_run}
use ah_there_it_is.Chat.Agents.{IsAgent, ChatResult-cases}

-- What is committed is `d`, with any conversations, and with at most one more run, which is failed,
-- has no answer, no messages and no receipts, and whose trace is not provisional.
pub record Failed {W : Type 0} (d : Store W) (s : ChatSession W) : Type 0 where
  pub same_world : s.committed.world ≡ d.world
  pub same_messages : s.committed.messages ≡ d.messages
  pub same_records : s.committed.records ≡ d.records
  pub logged :
      (s.committed.runs ≡ d.runs)
      ⊎ ((run : AgentRunLog) × (s.committed.runs ≡ d.runs ++ run ∷ [])
          × (run.completed ≡ false)
          × (run.final_content ≡ none)
          × (run.mutation_receipts ≡ [])
          × (run.assistant_message_id ≡ none)
          × IsSettled run.tool_trace)

-- how a run ends: with an answer in some conversation, which was there or is new, or with an error
abbrev pub Ends :
    {W : Type 0} → Keys → Store W → Text → ℕ → ChatResult AgentRunResult → ChatSession W → Type 0
Ends fresh d text max (err e) s = Failed d s
Ends fresh d text max (ok a) s =
    (conversations : List ℕ) × (q : Request) × (q.text ≡ text)
    × Stored fresh (record d { conversations = conversations }) q max a s

module _ {W S : Type 0} (self : Runner W S) (q : Request) (d : Store W) (cs : List ℕ) where
  abbrev here : Store W
  here = record d { conversations = cs }

  log_failure-Failed :
      (ending : Ending) (e : ChatError) (t : Turn W S)
      → t.session.committed ≡ here
      → Failed d
          (log_failure (record self { engine = record self.engine { log = ending } }) q e t).1
  unfolding log_failure
  log_failure-Failed done e t p = record {
    same_world = ap (λ (x : Store W). x.world) p;
    same_messages = ap (λ (x : Store W). x.messages) p;
    same_records = ap (λ (x : Store W). x.records) p;
    logged = inr (
      failed_run self q t t.session.committed,
      ap (λ (x : Store W). x.runs ++ failed_run self q t t.session.committed ∷ []) p,
      refl,
      refl,
      refl,
      refl,
      settled-IsSettled CommitState.rolled_back t.tool_trace refl,
    );
  }
  log_failure-Failed lost e t p = record {
    same_world = ap (λ (x : Store W). x.world) p;
    same_messages = ap (λ (x : Store W). x.messages) p;
    same_records = ap (λ (x : Store W). x.records) p;
    logged = inl (ap (λ (x : Store W). x.runs) p);
  }
  log_failure-Failed uncertain e t p = record {
    same_world = ap (λ (x : Store W). x.world) p;
    same_messages = ap (λ (x : Store W). x.messages) p;
    same_records = ap (λ (x : Store W). x.records) p;
    logged = inr (
      failed_run self q t t.session.committed,
      ap (λ (x : Store W). x.runs ++ failed_run self q t t.session.committed ∷ []) p,
      refl,
      refl,
      refl,
      refl,
      settled-IsSettled CommitState.rolled_back t.tool_trace refl,
    );
  }

  end_turn-Ends :
      (x : ChatResult AgentRunResult × Turn W S)
      → Done self q here x
      → Ends self.engine.fresh d q.text self.max_rounds (end_turn self q x).0 (end_turn self q x).1
  unfolding log_failure
  end_turn-Ends (ok a, t) h = (cs, q, refl, h)
  end_turn-Ends (err e, t) h = log_failure-Failed self.engine.log e t h

  run_turn-Ends :
      IsDispatcher self.dispatcher
      → Ends self.engine.fresh d q.text self.max_rounds
          (run_turn self q false (both here)).0
          (run_turn self q false (both here)).1
  unfolding run_turn
  run_turn-Ends h =
      end_turn-Ends (run_rounds self q false self.max_rounds 1 (start_turn self q (both here))) (
        run_rounds-Done self q here h self.max_rounds 1 (start_turn self q (both here))
          (omega arith) ((refl, (d.world, refl)), omega arith)
          (ap any_changed (sym (h.starts q.text q.conversation_id))))

unchanged-Failed :
    {W : Type 0} (d : Store W) (cs : List ℕ) → Failed d (both (record d { conversations = cs }))
unchanged-Failed d cs = record {
  same_world = refl;
  same_messages = refl;
  same_records = refl;
  logged = inl refl;
}

-- a conversation is made or found, and nothing else is done
opened :
    {W S : Type 0} (self : Runner W S) (c : Option ℕ) (d : Store W)
    → (cs : List ℕ) × ((open_conversation self c (both d)).1
        ≡ both (record d { conversations = cs }))
unfolding open_conversation create
opened self (some c) d = (d.conversations, refl)
opened self none d = made self.engine.create
  where
    made :
        (ending : Ending)
        → (cs : List ℕ) × ((create self.engine.fresh ending (both d)).1
            ≡ both (record d { conversations = cs }))
    made done = (d.conversations ++ self.engine.fresh d.conversations ∷ [], refl)
    made lost = (d.conversations, refl)
    made uncertain = (d.conversations ++ self.engine.fresh d.conversations ∷ [], refl)

module _ {W S : Type 0} (self : Runner W S) (h : IsDispatcher self.dispatcher) (text : Text)
    (d : Store W) where
  run_in-Ends :
      (cs : List ℕ) (c : ChatResult ℕ)
      → (let x = run_in self false text c (both (record d { conversations = cs })) in
          Ends self.engine.fresh d text self.max_rounds x.0 x.1)
  unfolding run_in
  run_in-Ends cs (err e) = unchanged-Failed d cs
  run_in-Ends cs (ok c) =
      elim (ChatResult-cases (agent_context c (record d { conversations = cs }))) [
        | inr (e, p) ↦ rw (p, run_in) (unchanged-Failed d cs)
        | inl (prior, p) ↦
            rw (p, run_in)
              (run_turn-Ends self
                (record {
                  conversation_id = c;
                  text = text;
                  input_messages = first_messages self.system_prompt prior text;
                })
                d cs h)
      ]

-- A run that does not commit, of a runner whose dispatcher keeps its laws, on a session with no pending
-- writes, whatever the model answers and the database does: if it raises, the committed world,
-- messages and requests are as before, and at most one run was logged, as failed, without an answer,
-- messages or receipts; if it returns, nothing but a new conversation was committed, and pending are the
-- changes of the tools, the question and the answer, and one completed run with this result, whose
-- rounds are within the limit. No logged trace has a provisional result.
pub run-Ends :
    {W S : Type 0} (self : Runner W S) (user_text : Text) (conversation_id : Option ℕ) (d : Store W)
    → IsDispatcher self.dispatcher
    → (let (r, s) = run self user_text conversation_id false (both d) in
        Ends self.engine.fresh d (strip user_text) self.max_rounds r s)
unfolding run
run-Ends self user_text conversation_id d h = elim (Bool-cases (self.max_rounds == 0)) [
  | inl z ↦ rw (z, run) (unchanged-Failed d d.conversations)
  | inr n ↦ elim (Bool-cases (is_blank (strip user_text))) [
    | inl b ↦ rw (n, b, run) (unchanged-Failed d d.conversations)
    | inr b ↦
        let (cs, p) = opened self conversation_id d in
        rw (n, b, run)
          (rw (p, run)
            (run_in-Ends self h (strip user_text) d cs
              (open_conversation self conversation_id (both d)).0))
  ]
]

-- the keys of the database are new
abbrev pub AreFresh : Keys → Type 0
AreFresh fresh = (ids : List ℕ) → contains ids (fresh ids) ≡ false

find_last :
    (runs : List AgentRunLog) (r : AgentRunLog)
    → contains (map run_id runs) r.id ≡ false
    → find run_id r.id (runs ++ r ∷ []) ≡ some r
unfolding find
find_last runs r h =
    let same : (r.id == r.id) ≡ true = ground arith in
    find-append run_id r.id runs (r ∷ []) ∙ rw (find_absent run_id r.id runs h) (rw same refl)

module _ {W : Type 0} (fresh : Keys) (d : Store W) (text : Text) (max : ℕ) where
  committed_same :
      {A : Type 0} (f : Store W → A)
      → ((c : Store W) (cs : List ℕ) → f (record c { conversations = cs }) ≡ f c)
      → (r : ChatResult AgentRunResult) (s : ChatSession W) → (Failed d s → f s.committed ≡ f d)
      → Ends fresh d text max r s
      → f s.committed ≡ f d
  committed_same f blind (err e) s failed h = failed h
  committed_same f blind (ok a) s failed (cs, q, same, h) = ap f h.nothing_committed ∙ blind d cs

  run_found :
      (a : AgentRunResult) (s : ChatSession W)
      → AreFresh fresh
      → Ends fresh d text max (ok a) s
      → (r : AgentRunLog) × (find run_id a.run_id s.working.runs ≡ some r)
        × (r.completed ≡ true)
        × (result_of_run (some r) ≡ ok a)
  run_found a s new (cs, q, same, h) = (
    h.run,
    rw (h.pending, sym h.key) (find_last d.runs h.run (rw h.new_key (new (map run_id d.runs)))),
    h.completed,
    h.rereads,
  )

-- With new keys from the database, the runner keeps the contract of the request gate: it is an agent
-- as IsAgent asks.
pub run-IsAgent :
    {W S : Type 0} (self : Runner W S) (user_text : Text) (conversation_id : Option ℕ)
    → IsDispatcher self.dispatcher
    → AreFresh self.engine.fresh
    → IsAgent (run self user_text conversation_id)
run-IsAgent {W} self user_text conversation_id h new =
    let fresh = self.engine.fresh in
    let max = self.max_rounds in
    let text = strip user_text in
    let agent = run self user_text conversation_id false in
    let ends = λ (d : Store W). run-Ends self user_text conversation_id d h in
    record {
      keeps_world = λ d.
          committed_same fresh d text max (λ x. x.world) (λ c cs. refl) (agent (both d)).0
            (agent (both d)).1 (λ f. f.same_world) (ends d);
      keeps_messages = λ d.
          committed_same fresh d text max (λ x. x.messages) (λ c cs. refl) (agent (both d)).0
            (agent (both d)).1 (λ f. f.same_messages) (ends d);
      keeps_requests = λ d.
          committed_same fresh d text max (λ x. x.records) (λ c cs. refl) (agent (both d)).0
            (agent (both d)).1 (λ f. f.same_records) (ends d);
      keeps_records = λ d a e.
          let (cs, q, same, stored) =
            subst (λ r. Ends fresh d text max r (agent (both d)).1) e (ends d) in
          ap (λ (x : Store W). x.records) stored.pending;
      stores_run = λ d a e.
          run_found fresh d text max a (agent (both d)).1 new
            (subst (λ r. Ends fresh d text max r (agent (both d)).1) e (ends d));
    }
