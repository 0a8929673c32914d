-- ===== src/Tools/Operations.antt =====
-- agent/tools.py: the calls of the tools that write, what they refer to, and what each does once its
-- references are checked.
use ah_there_it_is.Base.{
  ℕ, Bool, true, false, Option, none, some, List, [], ◌∷◌, ◌++◌, contains, if◌then◌else◌,
}
use ah_there_it_is.Text.{Text}
use ah_there_it_is.Domain.States.{Error, Result, ok, err}
use ah_there_it_is.Domain.Quantity.{ℤ, PortionInput}
use ah_there_it_is.Db.{Model}
use ah_there_it_is.Session.{Session}
use ah_there_it_is.Inventory.Items.{NewItem, ItemPatch}
use ah_there_it_is.Inventory.Requests.{Request, Reply, execute}
use ah_there_it_is.Tools.Resolution.{Kind}
use ah_there_it_is.Tools.Capabilities.{
  ToolBox, ToolState, ToolRunState, ToolOutcome, did, failed, service, with_state, remember_created,
  remember_seen, grant,
}
use ah_there_it_is.Tools.NewPaths.{ToolM, ToolReply, create_path, served, located}

-- a validated call of a tool that writes
pub data Write : Type 0 where
  new_category : Text → Option ℕ → Option Text → Write
  new_location : Text → Option ℕ → Option Text → Write
  new_item : NewItem → Write
  change_item : ℕ → ItemPatch → Write
  move_to : ℕ → ℕ → Option PortionInput → Write
  take_along : ℕ → Option PortionInput → Write
  lose_place : ℕ → Write
  set_quantity : ℕ → Text → Option ℤ → Text → Text → Write
  remove_part : ℕ → Text → Text → Option PortionInput → Write
  bring_back : ℕ → Text → Option ℕ → Write
  attach : ℕ → Text → Text → Option Text → ℤ → Write
  change_photo : ℕ → Option (Option Text) → Option (Option ℤ) → Write
  detach : ℕ → Write

abbrev pub Reference : Type 0
Reference = Kind × ℕ

abbrev pub optional_reference : Kind → Option ℕ → List Reference
optional_reference kind none = []
optional_reference kind (some k) = (kind, k) ∷ []

-- the category of a patch, where one is given that is not null
abbrev pub patch_category : Option (Option ℕ) → List Reference
patch_category none = []
patch_category (some c) = optional_reference Kind.category c

-- the `references` of each tool
unfoldable pub references : Write → List Reference
references (Write.new_category name parent description) = optional_reference Kind.category parent
references (Write.new_location name parent description) = optional_reference Kind.location parent
references (Write.new_item args) =
    optional_reference Kind.category args.category_id
    ++ optional_reference Kind.location args.location_id
references (Write.change_item k patch) = (Kind.item, k) ∷ patch_category patch.category_id
references (Write.move_to k location portion) = (Kind.item, k) ∷ (Kind.location, location) ∷ []
references (Write.take_along k portion) = (Kind.item, k) ∷ []
references (Write.lose_place k) = (Kind.item, k) ∷ []
references (Write.set_quantity k mode value reason source) = (Kind.item, k) ∷ []
references (Write.remove_part k reason source portion) = (Kind.item, k) ∷ []
references (Write.bring_back k state location) =
    (Kind.item, k) ∷ optional_reference Kind.location location
references (Write.attach k provider reference caption position) = (Kind.item, k) ∷ []
references (Write.change_photo k caption position) = []
references (Write.detach k) = []

-- the call of the inventory service that a tool makes, with the user's text
unfoldable pub service_request : Option Text → Write → Result Request
service_request text (Write.new_category name parent description) =
    ok (Request.create_tree_node Model.category name parent description)
service_request text (Write.new_item args) =
    ok (Request.create (record args { original_text = text; allow_duplicate = false }))
service_request text (Write.change_item k patch) =
    ok (Request.update k (record patch { original_text = text; allow_duplicate = false }))
service_request text (Write.move_to k location portion) =
    ok (Request.move k (some location) portion text)
service_request text (Write.take_along k portion) = ok (Request.take k portion text)
service_request text (Write.lose_place k) = ok (Request.mark_unknown k text)
service_request text (Write.set_quantity k mode value reason source) =
    ok (Request.change_quantity k mode value reason source text)
service_request text (Write.remove_part k reason source portion) =
    ok (Request.remove k reason source portion text)
service_request text (Write.bring_back k state location) =
    ok (Request.restore k state location text)
service_request text (Write.attach k provider reference caption position) =
    ok (Request.attach_photo k provider reference caption position)
service_request text (Write.change_photo k caption none) = ok (Request.update_photo k caption none)
service_request text (Write.change_photo k caption (some none)) = err Error.bad_position
service_request text (Write.change_photo k caption (some (some position))) =
    ok (Request.update_photo k caption (some position))
service_request text (Write.new_location name parent description) = err Error.assertion
service_request text (Write.detach k) = ok (Request.detach_photo k)

abbrev pub served_result : Result Reply × Session → ToolOutcome ToolReply × Session
served_result (ok reply, s) = (did (served reply), s)
served_result (err e, s) = (failed (service e), s)

abbrev pub request_operation : ToolBox → Result Request → ToolM ToolReply
request_operation box (err e) s = (failed (service e), s)
request_operation box (ok request) s = served_result (execute box.service request s)

-- what is done once the references are checked
unfoldable pub tool_operation : ToolBox → Write → ToolM ToolReply
tool_operation box (Write.new_location name parent description) s =
    create_path box name parent description (box.phrase name) s
tool_operation box w s = request_operation box (service_request box.original_text w) s

abbrev pub forces_lock : Write → Bool
forces_lock (Write.new_location _ _ _) = true
forces_lock _ = false

-- the kind of the entity that a tool creates through the service
abbrev pub creates : Write → Option Kind
creates (Write.new_category _ _ _) = some Kind.category
creates (Write.new_item _) = some Kind.item
creates _ = none

abbrev pub remember_new : Option Kind → ℕ → ToolRunState → ToolRunState
remember_new none k r = r
remember_new (some kind) k r = remember_created kind k r

-- a node of a new path is created, or reused with its path as evidence
abbrev pub remember_node : List ℕ → ℕ → Text → ToolRunState → ToolRunState
remember_node created k text r =
    if contains created k
    then remember_created Kind.location k r
    else remember_seen Kind.location (k ∷ []) (grant Kind.location k text r)

unfoldable pub remember_path : List ℕ → List ℕ → List Text → ToolRunState → ToolRunState
remember_path created [] texts r = r
remember_path created (k ∷ ks) [] r = r
remember_path created (k ∷ ks) (text ∷ texts) r =
    remember_path created ks texts (remember_node created k text r)

-- what the tool remembers of its result
unfoldable pub remember_reply : Write → ToolReply → ToolRunState → ToolRunState
remember_reply w (served (Reply.node n)) r = remember_new (creates w) n.id r
remember_reply w (served (Reply.item i)) r = remember_new (creates w) i.id r
remember_reply w (served (Reply.photo m)) r = remember_seen Kind.media (m.id ∷ []) r
remember_reply w (served (Reply.path p)) r = r
remember_reply w (located p texts) r = remember_path p.created_ids p.path_ids texts r

abbrev pub remembered :
    Write
    → ToolState
    → ToolOutcome ToolReply × Session
    → ToolOutcome ToolReply × ToolState × Session
remembered w t (did reply, s) = (did reply, with_state (remember_reply w reply) t, s)
remembered w t (failed f, s) = (failed f, t, s)
