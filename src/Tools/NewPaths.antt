-- ===== src/Tools/NewPaths.antt =====
-- agent/tools.py: the tool that creates a chain of locations, and its policy.
use ah_there_it_is.Base.{
  ℕ, Bool, true, false, ◌&&◌, not, Option, none, some, List, [], ◌∷◌, map, is_some, if◌then◌else◌,
}
use ah_there_it_is.Text.{Text, codes}
use ah_there_it_is.Domain.States.{Error, Result, ok, err}
use ah_there_it_is.Db.{Db, Node, Model, PathPart}
use ah_there_it_is.Session.{Session}
use ah_there_it_is.Inventory.Checks.{get_node, walk_up, enough_fuel}
use ah_there_it_is.Inventory.Paths.{CreatedLocationPath, create_location_path, canonical, repeats}
use ah_there_it_is.Inventory.Requests.{Reply}
use ah_there_it_is.Tools.Resolution.{join_path}
use ah_there_it_is.Tools.Containment.{fits_in}
use ah_there_it_is.Tools.Capabilities.{
  ToolBox, ToolOutcome, did, failed, Failure, precondition, clarification, service,
}

abbrev pub ToolM : Type 0 → Type 0
ToolM A = Session → ToolOutcome A × Session

-- the result of a tool: of the service, or a path with the text of each of its nodes
pub data ToolReply : Type 0 where
  served : Reply → ToolReply
  located : CreatedLocationPath → List Text → ToolReply

abbrev pub part_name : PathPart → Text
part_name p = p.1

-- `_path`, for the keys of a path
unfoldable pub path_texts : List ℕ → Db → Result (List Text)
path_texts [] d = ok []
path_texts (k ∷ ks) d = elim (get_node Model.location k d) [
  | err e ↦ err e
  | ok n ↦ elim (walk_up (enough_fuel d.locations) d.locations [] [] (some n)) [
    | err e ↦ err e
    | ok parts ↦ elim (path_texts ks d) [
      | err e ↦ err e
      | ok texts ↦ ok (join_path (map part_name parts) ∷ texts)
    ]
  ]
]

-- the relation of an edge, or `inside`
abbrev pub relation_at : List Text → Text
relation_at [] = codes "inside"
relation_at (r ∷ _) = r

abbrev pub rest_of : List Text → List Text
rest_of [] = []
rest_of (_ ∷ rs) = rs

-- every name is plausible in the one before it
unfoldable pub plausible_chain : ToolBox → Text → List Text → List Text → Bool
plausible_chain box parent [] relations = true
plausible_chain box parent (child ∷ names) relations =
    fits_in box.is_word box.service.names child parent (relation_at relations)
    && plausible_chain box child names (rest_of relations)

-- ... and the first one in the explicit parent
unfoldable pub plausible_path : ToolBox → List Text → List Text → Option Node → Bool
plausible_path box [] relations parent = true
plausible_path box (name ∷ names) relations none = plausible_chain box name names relations
plausible_path box (name ∷ names) relations (some parent) =
    fits_in box.is_word box.service.names name parent.name (codes "inside")
    && plausible_chain box name names relations

abbrev pub explicit_parent : Option ℕ → Db → Result (Option Node)
explicit_parent none d = ok none
explicit_parent (some k) d = elim (get_node Model.location k d) [
  | err e ↦ err e
  | ok n ↦ ok (some n)
]

-- `_validate_location_path_policy`
unfoldable pub path_policy :
    ToolBox → List Text → List Text → Option ℕ → Db → ToolOutcome (Unit {0})
path_policy box names relations parent_id d =
    if repeats (map (canonical box.service.names) names)
    then failed clarification
    else if box.permissive
    then did tt
    else elim (explicit_parent parent_id d) [
      | err e ↦ failed (service e)
      | ok parent ↦
          if plausible_path box names relations parent then did tt else failed clarification
    ]

-- a ValueError about several locations asks the user
abbrev pub path_failure : Error → Failure
path_failure Error.ambiguous_path = clarification
path_failure e = service e

-- the path is new, at least its last node; a cycle, which a valid inventory has not, is raised before
-- anything is remembered
abbrev pub found_path : CreatedLocationPath → Result (List Text) → ToolOutcome ToolReply
found_path p (err e) = failed (service e)
found_path p (ok texts) = elim p.created_ids [
  | [] ↦ failed precondition
  | _ ∷ _ ↦ did (located p texts)
]

abbrev pub path_result : Result CreatedLocationPath × Session → ToolOutcome ToolReply × Session
path_result (err e, s) = (failed (path_failure e), s)
path_result (ok p, s) = (found_path p (path_texts p.path_ids s.working), s)

abbrev pub allowed_path :
    ToolBox → List Text → Option ℕ → Bool → Option Text → ToolOutcome (Unit {0}) → ToolM ToolReply
allowed_path box names parent reuse description (failed f) s = (failed f, s)
allowed_path box names parent reuse description (did _) s =
    path_result (create_location_path box.service names parent reuse description s)

-- `create_path`
unfoldable pub create_path :
    ToolBox
    → Text
    → Option ℕ
    → Option Text
    → Result (Option (List Text × List Text))
    → ToolM ToolReply
create_path box name parent description (err e) s = (failed (service e), s)
create_path box name parent description (ok none) s =
    let names = box.service.names.location_display_name name ∷ [] in
    allowed_path box names parent false description (path_policy box names [] parent s.working) s
create_path box name parent description (ok (some (names, relations))) s =
    allowed_path box names parent (not (is_some parent)) description
      (path_policy box names relations parent s.working) s
