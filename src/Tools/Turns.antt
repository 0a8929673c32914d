-- ===== src/Tools/Turns.antt =====
-- agent/tools.py: the capabilities of a turn, over its rounds of searches and writes.
use ah_there_it_is.Base.{ℕ, ◌≡◌, refl, ◌∙◌, List, [], ◌∷◌, inl, inr}
use ah_there_it_is.Text.{Text}
use ah_there_it_is.Domain.States.{ok, Result-cases}
use ah_there_it_is.Db.{Db}
use ah_there_it_is.Session.{Session}
use ah_there_it_is.Tools.Resolution.{Kind, Resolution, resolve_with_evidence}
use ah_there_it_is.Tools.Capabilities.{
  ToolBox, ToolState, ToolOutcome, did, failed, begin_round, end_round, visible, with_state,
  remember_seen, remember_search, remember_candidates, semantic_search_key, searched, search_tool,
}
use ah_there_it_is.Tools.NewPaths.{ToolReply}
use ah_there_it_is.Tools.Operations.{
  Write, references, tool_operation, forces_lock, remember_reply, remembered,
}
use ah_there_it_is.Tools.Writes.{admit, validated_write, admitted, write_tool}
use ah_there_it_is.Tools.Visible.{write_tool_sees}

-- a call of a tool that searches or writes
pub data Act : Type 0 where
  search : Kind → Text → ℕ → Act
  write : Write → Act

unfoldable pub act : ToolBox → Act → ToolState × Session → ToolState × Session
act box (search kind query limit) (t, s) = ((search_tool box kind query limit s.working t).1, s)
act box (write w) (t, s) = let (x, t', s') = write_tool box w t s in (t', s')

unfoldable pub act_all : ToolBox → List Act → ToolState × Session → ToolState × Session
act_all box [] x = x
act_all box (a ∷ rest) x = act_all box rest (act box a x)

-- the calls of one response, and those of several
unfoldable pub act_round : ToolBox → List Act → ToolState × Session → ToolState × Session
act_round box acts (t, s) = let (t', s') = act_all box acts (begin_round t, s) in (end_round t', s')

unfoldable pub act_rounds : ToolBox → List (List Act) → ToolState × Session → ToolState × Session
act_rounds box [] x = x
act_rounds box (acts ∷ rest) x = act_rounds box rest (act_round box acts x)

-- what a call leaves of the capabilities: as they were, or with what it remembers
module _ (box : ToolBox) (P : ToolState → Type 0) where
  abbrev pub looked : Kind → Text → ℕ → Db → Text → ToolState → ToolState
  looked kind query limit d key t =
      with_state
        (λ r. remember_seen kind (box.search kind query limit d) (remember_search kind key r)) t

  pub search_state :
      (kind : Kind) (query : Text) (limit : ℕ) (d : Db) (t : ToolState)
      → P t
      → ((key : Text) → P (looked kind query limit d key t))
      → ((key : Text) (r : Resolution)
          → resolve_with_evidence box.service.names box.path_key kind query d ≡ ok r
          → P (
              with_state
                (remember_candidates kind key query (box.search kind query limit d) r)
                (looked kind query limit d key t)))
      → P (search_tool box kind query limit d t).1
  unfolding search_tool
  search_state kind query limit d t h seen granted =
      elim (Result-cases (semantic_search_key box kind query)) [
        | inr (e, p) ↦ rw (p, search_tool) h
        | inl (key, p) ↦
            elim (Result-cases
              (resolve_with_evidence box.service.names box.path_key kind query d)) [
                | inr (e, q) ↦ rw (p, search_tool) (rw (q, searched) (seen key))
                | inl (r, q) ↦ rw (p, search_tool) (rw (q, searched) (granted key r q))
              ]
      ]

  remembered_state :
      (w : Write) (t : ToolState) (x : ToolOutcome ToolReply × Session)
      → P t
      → ((reply : ToolReply)
          → (remembered w t x).0 ≡ did reply
          → P (with_state (remember_reply w reply) t))
      → P (remembered w t x).1
  remembered_state w t (did reply, s) h k = k reply refl
  remembered_state w t (failed f, s) h k = h

  pub write_state :
      (w : Write) (t : ToolState) (x : ToolOutcome Unit) (s : Session)
      → P t
      → ((reply : ToolReply)
          → (admitted box w t x s).0 ≡ did reply
          → P (with_state (remember_reply w reply) t))
      → P (admitted box w t x s).1
  write_state w t (failed f) s h k = h
  write_state w t (did u) s h k =
      remembered_state w t
        (validated_write box (forces_lock w) t (references w) (tool_operation box w) s) h k

act-frozen :
    (box : ToolBox) (a : Act) (x : ToolState × Session) → (act box a x).0.frozen ≡ x.0.frozen
unfolding act write_tool
act-frozen box (search kind query limit) (t, s) =
    search_state box (λ t'. t'.frozen ≡ t.frozen) kind query limit s.working t refl (λ key. refl)
      (λ key r p. refl)
act-frozen box (write w) (t, s) =
    write_state box (λ t'. t'.frozen ≡ t.frozen) w t (admit box w t) s refl (λ reply e. refl)

act_all-frozen :
    (box : ToolBox) (acts : List Act) (x : ToolState × Session)
    → (act_all box acts x).0.frozen ≡ x.0.frozen
unfolding act_all
act_all-frozen box [] x = refl
act_all-frozen box (a ∷ rest) x = act_all-frozen box rest (act box a x) ∙ act-frozen box a x

frozen_round :
    (box : ToolBox) (acts : List Act) (t : ToolState) (s : Session)
    → visible (act_all box acts (begin_round t, s)).0 ≡ visible (begin_round t)
unfolding visible begin_round
frozen_round box acts t s = rw (act_all-frozen box acts (begin_round t, s), visible) refl

-- Within a round, after any searches and writes, on any session, a tool that writes ends the same way and
-- leaves the same session as it would with the capabilities of the beginning of the round: what a
-- response learns gives it no authority before the next one.
pub round_is_frozen :
    (box : ToolBox) (acts : List Act) (w : Write) (t : ToolState) (s s1 : Session)
    → (let (x, t', s') = write_tool box w (act_all box acts (begin_round t, s)).0 s1 in
        let (y, t2, s2) = write_tool box w (begin_round t) s1 in (x ≡ y) × (s' ≡ s2))
round_is_frozen box acts w t s s1 =
    write_tool_sees box (act_all box acts (begin_round t, s)).0 (begin_round t)
      (frozen_round box acts t s) w s1
