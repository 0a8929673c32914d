-- ===== src/Tools/Writes.antt =====
-- agent/tools.py: the tools that write, behind the check of what they refer to. `undo_last_action` is Undo.
use ah_there_it_is.Base.{
  ℕ, Bool, true, false, ◌&&◌, ◌||◌, some, List, [], ◌∷◌, contains, option_eq, ◌==◌, if◌then◌else◌,
}
use ah_there_it_is.Text.{Text}
use ah_there_it_is.Domain.States.{Result, ok, err}
use ah_there_it_is.Db.{Db}
use ah_there_it_is.Session.{Session, flush}
use ah_there_it_is.Tools.NewPaths.{ToolM, ToolReply}
use ah_there_it_is.Tools.Operations.{
  Write, Reference, references, tool_operation, forces_lock, remembered,
}
use ah_there_it_is.Tools.Resolution.{Kind, resolve}
use ah_there_it_is.Tools.Capabilities.{
  ToolBox, ToolState, ToolOutcome, did, failed, precondition, service, visible, is_seen,
  is_resolved, require_prior_search,
}

-- what a tool asks first: a search of the name, or a photo that was seen
unfoldable pub admit : ToolBox → Write → ToolState → ToolOutcome (Unit {0})
admit box (Write.new_category name parent description) t =
    require_prior_search box Kind.category name t
admit box (Write.new_location name parent description) t =
    require_prior_search box Kind.location name t
admit box (Write.new_item args) t = require_prior_search box Kind.item args.name t
admit box (Write.change_photo k caption position) t =
    if is_seen Kind.media k t then did tt else failed precondition
admit box (Write.detach k) t = if is_seen Kind.media k t then did tt else failed precondition
admit box _ t = did tt

-- the queries that resolved an entity
unfoldable pub queries_of : ℕ → List (ℕ × Text) → List Text
queries_of k [] = []
queries_of k ((j, query) ∷ es) = let rest = queries_of k es in if j == k then query ∷ rest else rest

abbrev pub evidence_of : ToolState → Reference → List Text
evidence_of t (kind, k) = queries_of k ((visible t).evidence kind)

abbrev pub is_created : ToolState → Reference → Bool
is_created t (kind, k) = contains ((visible t).created kind) k

abbrev pub has_query : List Text → Bool
has_query [] = false
has_query (_ ∷ _) = true

-- the first loop of `_validated_write`: resolved, with evidence or created
unfoldable pub has_authority : ToolState → Reference → Bool
has_authority t (kind, k) =
    is_resolved kind k t && (is_created t (kind, k) || has_query (evidence_of t (kind, k)))

unfoldable pub all_authority : ToolState → List Reference → Bool
all_authority t [] = true
all_authority t (r ∷ rs) = has_authority t r && all_authority t rs

abbrev pub has_reference : List Reference → Bool
has_reference [] = false
has_reference (_ ∷ _) = true

module _ (box : ToolBox) where
  -- some query still resolves to the entity
  unfoldable pub still_resolves : Reference → List Text → Db → Result Bool
  still_resolves (kind, k) [] d = ok false
  still_resolves (kind, k) (query ∷ queries) d =
      elim (resolve box.service.names box.path_key kind query d) [
        | err e ↦ err e
        | ok found ↦ elim (option_eq found (some k)) [
          | true ↦ ok true
          | false ↦ still_resolves (kind, k) queries d
        ]
      ]

  abbrev pub is_current : ToolState → Db → Reference → Result Bool
  is_current t d r = if is_created t r then ok true else still_resolves r (evidence_of t r) d

  -- the second loop of `_validated_write`, under the lock
  unfoldable pub all_current : ToolState → Db → List Reference → ToolOutcome (Unit {0})
  all_current t d [] = did tt
  all_current t d (r ∷ rs) = elim (is_current t d r) [
    | err e ↦ failed (service e)
    | ok false ↦ failed precondition
    | ok true ↦ all_current t d rs
  ]

  abbrev pub outcome_of : {A : Type 0} → Result A × Session → ToolOutcome A × Session
  outcome_of (ok a, s) = (did a, s)
  outcome_of (err e, s) = (failed (service e), s)

  abbrev pub locked_write : {A : Type 0} → ToolM A → ToolOutcome (Unit {0}) → ToolM A
  locked_write operation (failed f) s = (failed f, s)
  locked_write operation (did _) s = operation s

  abbrev pub after_flush :
      {A : Type 0}
      → ToolState
      → List Reference
      → ToolM A
      → Result (Unit {0}) × Session
      → ToolOutcome A × Session
  after_flush t refs operation (err e, s) = (failed (service e), s)
  after_flush t refs operation (ok _, s) = locked_write operation (all_current t s.working refs) s

  -- `_validated_write`
  unfoldable pub validated_write :
      {A : Type 0} → Bool → ToolState → List Reference → ToolM A → ToolM A
  validated_write force_lock t refs operation s =
      if all_authority t refs
      then if force_lock || has_reference refs
        then after_flush t refs operation (flush box.service s)
        else operation s
      else (failed precondition, s)

  abbrev pub write_request :
      Write → ToolState → ToolM ToolReply → Session → ToolOutcome ToolReply × ToolState × Session
  write_request w t operation s =
      remembered w t (validated_write (forces_lock w) t (references w) operation s)

  abbrev pub admitted :
      Write
      → ToolState
      → ToolOutcome (Unit {0})
      → Session
      → ToolOutcome ToolReply × ToolState × Session
  admitted w t (failed f) s = (failed f, t, s)
  admitted w t (did _) s = write_request w t (tool_operation box w) s

  -- a call of a tool that writes
  unfoldable pub write_tool :
      Write → ToolState → Session → ToolOutcome ToolReply × ToolState × Session
  write_tool w t s = admitted w t (admit box w t) s
