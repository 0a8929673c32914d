-- ===== src/Runner/Stored.antt =====
-- agent/runner.py: how a turn ends that does not commit, with its answer stored or with an error.
use ah_there_it_is.Base.{
  ℕ, zero, suc, ◌+◌, ◌≤◌, ◌≡◌, refl, sym, ap, subst, Bool, true, false, ◌&&◌, Option, none, some,
  List, [], ◌∷◌, ◌++◌, map, contains, arith, Bool-cases, inl, inr, All,
}
use ah_there_it_is.Text.{Text, strip, is_blank}
use ah_there_it_is.Receipts.{AgentRunLog, AgentRunResult}
use ah_there_it_is.Runner.Protocol.{
  Role, ToolCall, LlmResponse, CommitState, TraceResult, RoundTrace,
}
use ah_there_it_is.Runner.Conversations.{Keys, add_message, get_conversation, message_id}
use ah_there_it_is.Runner.Turn.{Turn, tool_round}
use ah_there_it_is.Runner.Rounds.{
  Runner, Request, store_turn, finish_turn, respond, answered, run_rounds, settled, settled_result,
  settled_state,
}
use ah_there_it_is.Runner.Dispatchers.{IsDispatcher}
use ah_there_it_is.Runner.Steps.{Safe, Told, Good, proceed-Good, tool_round-Good}
use ah_there_it_is.Chat.Store.{Message, Store, ChatSession, ChatResult, ok, err, run_id}
use ah_there_it_is.Chat.Execute.{result_of_run}
use ah_there_it_is.Chat.Agents.{ChatResult-cases}

-- no result of the trace is still provisional
abbrev pub is_provisional : Option CommitState → Bool
is_provisional (some CommitState.provisional) = true
is_provisional _ = false

abbrev pub IsSettled : List RoundTrace → Type 0
IsSettled trace =
    All
      (λ (t : RoundTrace).
        All (λ (r : TraceResult). is_provisional r.result.commit_state ≡ false) t.tool_results)
      trace

settled_state_lem :
    (to : CommitState) (s : Option CommitState)
    → is_provisional (some to) ≡ false
    → is_provisional (settled_state to s) ≡ false
settled_state_lem to none h = refl
settled_state_lem to (some CommitState.provisional) h = h
settled_state_lem to (some CommitState.committed) h = refl
settled_state_lem to (some CommitState.rolled_back) h = refl

settled_results :
    (to : CommitState) (rs : List TraceResult)
    → is_provisional (some to) ≡ false
    → All
        (λ (r : TraceResult). is_provisional r.result.commit_state ≡ false)
        (map (settled_result to) rs)
settled_results to [] h = tt
settled_results to (r ∷ rs) h =
    (settled_state_lem to r.result.commit_state h, settled_results to rs h)

pub settled-IsSettled :
    (to : CommitState) (trace : List RoundTrace)
    → is_provisional (some to) ≡ false
    → IsSettled (settled to trace)
unfolding settled
settled-IsSettled to [] h = tt
settled-IsSettled to (t ∷ ts) h = (settled_results to t.tool_results h, settled-IsSettled to ts h)

-- Nothing is committed beyond `c`; what is pending is `c` with another world, the two messages of the
-- turn, and its run, which is completed, has the result, and has no provisional trace.
pub record Stored {W : Type 0} (fresh : Keys) (c : Store W) (q : Request) (max : ℕ)
    (a : AgentRunResult) (s : ChatSession W) : Type 0 where
  pub world : W
  pub question : Message
  pub answer : Message
  pub run : AgentRunLog
  pub nothing_committed : s.committed ≡ c
  pub pending : s.working ≡ record c {
    world = world;
    messages = (c.messages ++ question ∷ []) ++ answer ∷ [];
    runs = c.runs ++ run ∷ [];
  }
  pub asks : (question.role ≡ Role.user) × (question.content ≡ q.text)
  pub answers : (answer.role ≡ Role.assistant) × (answer.content ≡ a.content)
  pub key : run.id ≡ a.run_id
  pub new_key : run.id ≡ fresh (map run_id c.runs)
  pub completed : run.completed ≡ true
  pub rereads : result_of_run (some run) ≡ ok a
  pub settles : IsSettled run.tool_trace
  pub bounded : a.rounds ≤ max

module _ {W S : Type 0} (self : Runner W S) (q : Request) (c : Store W) where
  abbrev pub Done : ChatResult AgentRunResult × Turn W S → Type 0
  Done (ok a, t) = Stored self.engine.fresh c q self.max_rounds a t.session
  Done (err e, t) = t.session.committed ≡ c

  abbrev confined_turn : Turn W S → W → Turn W S
  confined_turn t w = record t {
    session = record { working = record c { world = w }; committed = c };
  }

  -- the same runner, with these answers of the database to the three flushes
  abbrev flushing : Bool → Bool → Bool → Runner W S
  flushing f1 f2 f3 = record self {
    engine = record self.engine { user_flush = f1; assistant_flush = f2; run_flush = f3 };
  }

  stored :
      (f1 f2 f3 : Bool) (final : Text) (t : Turn W S) (w : W)
      → t.rounds ≤ self.max_rounds
      → Told self.dispatcher c self.max_rounds t
      → contains c.conversations q.conversation_id ≡ true
      → Done (store_turn (flushing f1 f2 f3) q false final (confined_turn t w))
  unfolding store_turn add_message get_conversation
  stored false f2 f3 final t w bound told y = rw (y, store_turn) refl
  stored true false f3 final t w bound told y = rw (y, store_turn) (rw (y, store_turn) refl)
  stored true true false final t w bound told y = rw (y, store_turn) (rw (y, store_turn) refl)
  stored true true true final t w bound told y =
      rw (y, store_turn)
        (rw (y, store_turn)
          (record {
            world = w;
            question = record {
              id = self.engine.fresh (map message_id c.messages);
              conversation_id = q.conversation_id;
              role = Role.user;
              content = q.text;
            };
            answer = _;
            run = _;
            nothing_committed = refl;
            pending = refl;
            asks = (refl, refl);
            answers = (refl, refl);
            key = refl;
            new_key = refl;
            completed = refl;
            rereads = rw told refl;
            settles = settled-IsSettled CommitState.committed t.tool_trace refl;
            bounded = bound;
          }))

  unknown :
      (final : Text) (t : Turn W S) (w : W)
      → contains c.conversations q.conversation_id ≡ false
      → Done (store_turn self q false final (confined_turn t w))
  unfolding store_turn add_message get_conversation
  unknown final t w n = rw (n, store_turn) refl

  store_turn-Done :
      (final : Text) (t : Turn W S)
      → Safe self.dispatcher c self.max_rounds t
      → Told self.dispatcher c self.max_rounds t
      → Done (store_turn self q false final t)
  store_turn-Done final t (confined, bound) told =
      let (committed, rest) = confined in
      let (w, working) = rest in
      let known = Bool-cases (contains c.conversations q.conversation_id) in
      let here : confined_turn t w ≡ t =
        ap (λ (s : ChatSession W). record t { session = s })
          (λ i. record { working = sym working i; committed = sym committed i }) in
      subst (λ u. Done (store_turn self q false final u)) here
        (elim known [
          | inl y ↦
              stored self.engine.user_flush self.engine.assistant_flush self.engine.run_flush final
                t w bound told y
          | inr n ↦ unknown final t w n
        ])

  finish_turn-Done :
      (response : LlmResponse) (t : Turn W S)
      → Safe self.dispatcher c self.max_rounds t
      → Told self.dispatcher c self.max_rounds t
      → Done (finish_turn self q false response t)
  unfolding finish_turn
  finish_turn-Done response t safe told =
      elim (Bool-cases (t.changed_seen && is_blank (strip response.content))) [
        | inl y ↦ rw y safe.0.0
        | inr n ↦ rw n (store_turn-Done (strip response.content) t safe told)
      ]

  respond-Good :
      (t : Turn W S)
      → Safe self.dispatcher c self.max_rounds t
      → Told self.dispatcher c self.max_rounds t
      → Good self.dispatcher c self.max_rounds (respond self q t)
  unfolding respond
  respond-Good t safe told =
      elim (ChatResult-cases (self.dispatcher.definitions t.state t.session)) [
        | inr (e, p) ↦ rw (p, respond) safe
        | inl (names, p) ↦ elim (ChatResult-cases (self.complete t.messages names)) [
          | inr (e, r) ↦ rw (p, respond) (rw (r, respond) safe)
          | inl (a, r) ↦ rw (p, respond) (rw (r, respond) (safe, told))
        ]
      ]

  module _ (h : IsDispatcher self.dispatcher) where
    answered-Done :
        (left round : ℕ) (response : LlmResponse) (calls : List ToolCall) (t : Turn W S)
        → ((u : Turn W S)
            → Safe self.dispatcher c self.max_rounds u
            → Told self.dispatcher c self.max_rounds u
            → Done (run_rounds self q false left (suc round) u))
        → Safe self.dispatcher c self.max_rounds t
        → Told self.dispatcher c self.max_rounds t
        → Done (answered self q false response (run_rounds self q false left (suc round)) calls t)
    answered-Done left round response [] t rest safe told = finish_turn-Done response t safe told
    answered-Done left round response (call ∷ calls) t rest safe told =
        proceed-Good self.dispatcher c self.max_rounds Done
          (tool_round self.dispatcher (call ∷ calls) t)
          (λ _ u. run_rounds self q false left (suc round) u)
          (tool_round-Good self.dispatcher c self.max_rounds h (call ∷ calls) t safe told)
          (λ e u k. k.0.0) (λ _ u k m. rest u k m)

    pub run_rounds-Done :
        (left round : ℕ) (t : Turn W S)
        → round + left ≤ suc self.max_rounds
        → Safe self.dispatcher c self.max_rounds t
        → Told self.dispatcher c self.max_rounds t
        → Done (run_rounds self q false left round t)
    unfolding run_rounds
    run_rounds-Done zero round t low safe told = safe.0.0
    run_rounds-Done (suc left) round t low safe told =
        let here = record t { rounds = round } in
        proceed-Good self.dispatcher c self.max_rounds Done (respond self q here)
          (λ response u.
            answered self q false response (run_rounds self q false left (suc round))
              response.tool_calls u)
          (respond-Good here (safe.0, omega (arith, low)) told) (λ e u k. k.0.0)
          (λ response u k m.
            answered-Done left round response response.tool_calls u
              (λ v. run_rounds-Done left (suc round) v (omega (arith, low))) k m)
