-- ===== src/Tools/Support.antt =====
-- agent/tools.py: each capability of a turn has a query that was searched for, or a write, behind it.
use ah_there_it_is.Base.{
  ℕ, ◌≡◌, subst, true, List, [], ◌∷◌, ◌++◌, All, Option-cases, Bool-cases, contains, inl, inr, ◌⊎◌,
}
use ah_there_it_is.Text.{Text}
use ah_there_it_is.Db.{Db}
use ah_there_it_is.Session.{Session}
use ah_there_it_is.Tools.Resolution.{Kind}
use ah_there_it_is.Tools.Capabilities.{
  ToolBox, ToolState, ToolRunState, ToolOutcome, did, failed, precondition, start_tools,
  begin_round, end_round, visible, with_state, remember_seen, remember_search, remember_candidates,
  is_resolved,
}
use ah_there_it_is.Tools.NewPaths.{ToolReply}
use ah_there_it_is.Tools.Operations.{remember_reply}
use ah_there_it_is.Tools.Writes.{queries_of, has_query, evidence_of, admit, write_tool}
use mathlib.Core.List.{Mem, mem-cons_self, mem-cons_of_mem}
use ah_there_it_is.Tools.Sources.{
  Step, asked, replied, IsMade, IsBacked, IsSourced, looked-IsSourced, candidates-IsSourced,
  reply-IsSourced,
}
use ah_there_it_is.Tools.Earned.{
  has_support, IsEarned, remember_search-IsEarned, candidates-IsEarned, reply-IsEarned,
}
use ah_there_it_is.Tools.Turns.{
  Act, search, write, act, act_all, act_round, act_rounds, search_state, write_state, looked,
}

-- the capabilities, and those that are frozen, are earned
abbrev AreEarned : ToolState → Type 0
AreEarned t = IsEarned t.state × IsEarned (visible t)

both_hold :
    (P : ToolRunState → Type 0) (f : ToolRunState → ToolRunState) (t : ToolState)
    → ((r : ToolRunState) → P r → P (f r))
    → P t.state × P (visible t)
    → P (with_state f t).state × P (visible (with_state f t))
unfolding visible
both_hold P f t k h = elim (Option-cases t.frozen) [
  | inl n ↦ rw (n, visible) (k t.state h.0, k t.state h.0)
  | inr (r, y) ↦ (k t.state h.0, rw (y, visible) (rw (y, visible) at h.1))
]

act-AreEarned :
    (box : ToolBox) (a : Act) (x : ToolState × Session) → AreEarned x.0 → AreEarned (act box a x).0
unfolding act write_tool
act-AreEarned box (search kind query limit) (t, s) h =
    let looks =
      λ (key : Text) (r : ToolRunState) (g : IsEarned r). remember_search-IsEarned r kind key g in
    search_state box AreEarned kind query limit s.working t h
      (λ key.
        both_hold IsEarned
          (λ r.
            remember_seen kind (box.search kind query limit s.working) (remember_search kind key r))
          t (looks key) h)
      (λ key x p.
        both_hold IsEarned
          (remember_candidates kind key query (box.search kind query limit s.working) x)
          (looked box AreEarned kind query limit s.working key t)
          (λ r g. candidates-IsEarned kind key query (box.search kind query limit s.working) x r g)
          (both_hold IsEarned
            (λ r.
              remember_seen kind (box.search kind query limit s.working)
                (remember_search kind key r))
            t (looks key) h))
act-AreEarned box (write w) (t, s) h =
    write_state box AreEarned w t (admit box w t) s h (λ reply e.
      both_hold IsEarned (remember_reply w reply) t (λ r g. reply-IsEarned w reply r g) h)

act_all-AreEarned :
    (box : ToolBox) (acts : List Act) (x : ToolState × Session)
    → AreEarned x.0
    → AreEarned (act_all box acts x).0
unfolding act_all
act_all-AreEarned box [] x h = h
act_all-AreEarned box (a ∷ rest) x h =
    act_all-AreEarned box rest (act box a x) (act-AreEarned box a x h)

act_rounds-AreEarned :
    (box : ToolBox) (rounds : List (List Act)) (x : ToolState × Session)
    → IsEarned x.0.state
    → IsEarned (act_rounds box rounds x).0.state
unfolding act_rounds act_round begin_round end_round visible
act_rounds-AreEarned box [] x h = h
act_rounds-AreEarned box (acts ∷ rest) (t, s) h =
    act_rounds-AreEarned box rest (act_round box acts (t, s))
      (act_all-AreEarned box acts (begin_round t, s) (h, h)).0

-- what happened in the acts
abbrev pub step_of : Act → ToolOutcome ToolReply → Db → List Step
step_of (search kind query limit) x d = asked kind query d ∷ []
step_of (write w) (did reply) d = replied w reply ∷ []
step_of (write w) (failed f) d = []

abbrev outcome_of_act : ToolBox → Act → ToolState × Session → ToolOutcome ToolReply
outcome_of_act box (search kind query limit) (t, s) = failed precondition
outcome_of_act box (write w) (t, s) = (write_tool box w t s).0

unfoldable pub steps : ToolBox → List Act → ToolState × Session → List Step
steps box [] x = []
steps box (a ∷ rest) x =
    step_of a (outcome_of_act box a x) x.1.working ++ steps box rest (act box a x)

unfoldable pub round_steps : ToolBox → List (List Act) → ToolState × Session → List Step
round_steps box [] x = []
round_steps box (acts ∷ rest) x =
    steps box acts (begin_round x.0, x.1) ++ round_steps box rest (act_round box acts x)

-- the steps of the rounds from the start of a turn, and of the acts in a further round
abbrev pub turn_steps : ToolBox → List (List Act) → List Act → Session → List Step
turn_steps box rounds acts s =
    let (t, s1) = act_rounds box rounds (start_tools, s) in
    round_steps box rounds (start_tools, s) ++ steps box acts (begin_round t, s1)

module _ {A : Type 0} (P : A → Type 0) where
  split_left : (xs ys : List A) → All P (xs ++ ys) → All P xs
  split_left [] ys h = tt
  split_left (x ∷ xs) ys h = (h.0, split_left xs ys h.1)

  split_right : (xs ys : List A) → All P (xs ++ ys) → All P ys
  split_right [] ys h = h
  split_right (x ∷ xs) ys h = split_right xs ys h.1

all_members : {A : Type 0} (xs : List A) → All (λ x. Mem x xs) xs
all_members [] = tt
all_members (x ∷ xs) = (mem-cons_self, weaker xs (all_members xs))
  where
    weaker : (ys : List _) → All (λ y. Mem y xs) ys → All (λ y. Mem y (x ∷ xs)) ys
    weaker [] h = tt
    weaker (y ∷ ys) h = (mem-cons_of_mem x h.0, weaker ys h.1)

module _ (box : ToolBox) (Happened : Step → Type 0) where
  Sourced : ToolRunState → Type 0
  Sourced r = IsSourced box Happened r

  AreSourced : ToolState → Type 0
  AreSourced t = Sourced t.state × Sourced (visible t)

  act-AreSourced :
      (a : Act) (x : ToolState × Session)
      → All Happened (step_of a (outcome_of_act box a x) x.1.working)
      → AreSourced x.0
      → AreSourced (act box a x).0
  unfolding act write_tool AreSourced Sourced
  act-AreSourced (search kind query limit) (t, s) was h =
      let ids = box.search kind query limit s.working in
      let looks = λ (key : Text).
        both_hold Sourced (λ r. remember_seen kind ids (remember_search kind key r)) t
          (λ r g. looked-IsSourced box Happened r kind key ids g) h in
      search_state box AreSourced kind query limit s.working t h looks (λ key x p.
        both_hold Sourced (remember_candidates kind key query ids x)
          (looked box AreSourced kind query limit s.working key t)
          (λ r g. candidates-IsSourced box Happened kind key query ids s.working x r was.0 p g)
          (looks key))
  act-AreSourced (write w) (t, s) was h =
      write_state box AreSourced w t (admit box w t) s h (λ reply e.
        let happened = subst (λ x. All Happened (step_of (write w) x s.working)) e was in
        both_hold Sourced (remember_reply w reply) t
          (λ r g. reply-IsSourced box Happened w reply r happened.0 g) h)

  acts-AreSourced :
      (acts : List Act) (x : ToolState × Session)
      → All Happened (steps box acts x)
      → AreSourced x.0
      → AreSourced (act_all box acts x).0
  unfolding act_all steps
  acts-AreSourced [] x was h = h
  acts-AreSourced (a ∷ rest) x was h =
      let now = step_of a (outcome_of_act box a x) x.1.working in
      let later = steps box rest (act box a x) in
      acts-AreSourced rest (act box a x) (split_right Happened now later was)
        (act-AreSourced a x (split_left Happened now later was) h)

  rounds-AreSourced :
      (rounds : List (List Act)) (x : ToolState × Session)
      → All Happened (round_steps box rounds x)
      → Sourced x.0.state
      → Sourced (act_rounds box rounds x).0.state
  unfolding act_rounds act_round round_steps begin_round end_round visible AreSourced
  rounds-AreSourced [] x was h = h
  rounds-AreSourced (acts ∷ rest) (t, s) was h =
      let now = steps box acts (begin_round t, s) in
      let later = round_steps box rest (act_round box acts (t, s)) in
      rounds-AreSourced rest (act_round box acts (t, s)) (split_right Happened now later was)
        (acts-AreSourced acts (begin_round t, s) (split_left Happened now later was) (h, h)).0

-- the support of an entity: it was made, or it has a query; and every query is backed
abbrev pub IsSupported : ToolBox → List Step → ToolState → Kind → ℕ → Type 0
IsSupported box happened t kind k =
    (IsMade box (λ x. Mem x happened) kind k ⊎ (has_query (evidence_of t (kind, k)) ≡ true))
    × All (IsBacked box (λ x. Mem x happened) kind k) (evidence_of t (kind, k))

support :
    (box : ToolBox) (happened : List Step) (t : ToolState) (kind : Kind) (k : ℕ)
    → IsSourced box (λ x. Mem x happened) (visible t)
    → has_support (visible t) kind k ≡ true
    → IsSupported box happened t kind k
support box happened t kind k h e = (
  elim (Bool-cases (contains ((visible t).created kind) k)) [
    | inl y ↦ inl (h.made kind k y)
    | inr n ↦ inr (rw n at e)
  ],
  h.backed kind k,
)

-- From the start of a turn, after any rounds of searches and writes, at any point of a further round, an
-- entity that is resolved was made by a write of the turn or has a recorded query; and each of its
-- recorded queries was searched for in the turn, in a database where the entity was its only stored
-- match, or is the text of the entity on the path that a write of the turn gave.
pub authority_is_earned :
    (box : ToolBox) (rounds : List (List Act)) (acts : List Act) (s : Session) (kind : Kind) (k : ℕ)
    → (let (t, s1) = act_rounds box rounds (start_tools, s) in
        is_resolved kind k (act_all box acts (begin_round t, s1)).0 ≡ true)
    → (let (t, s1) = act_rounds box rounds (start_tools, s) in
        IsSupported box
          (turn_steps box rounds acts s)
          (act_all box acts (begin_round t, s1)).0
          kind
          k)
unfolding begin_round visible is_resolved Sourced AreSourced queries_of
authority_is_earned box rounds acts s kind k found =
    let (t, s1) = act_rounds box rounds (start_tools, s) in
    let Happened = λ (x : Step). Mem x (turn_steps box rounds acts s) in
    let was = all_members (turn_steps box rounds acts s) in
    let before = round_steps box rounds (start_tools, s) in
    let now = steps box acts (begin_round t, s1) in
    let earned = act_rounds-AreEarned box rounds (start_tools, s) (λ other j e. absurd (cc)) in
    let sourced =
      rounds-AreSourced box Happened rounds (start_tools, s) (split_left Happened before now was)
        (record { backed = λ other j. tt; made = λ other j e. absurd (cc) }) in
    support box (turn_steps box rounds acts s) (act_all box acts (begin_round t, s1)).0 kind k
      (acts-AreSourced box Happened acts (begin_round t, s1) (split_right Happened before now was)
        (sourced, sourced)).1
      ((act_all-AreEarned box acts (begin_round t, s1) (earned, earned)).1 kind k found)
