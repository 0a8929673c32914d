-- ===== src/Tools/Guarded.antt =====
-- agent/tools.py: every stored row that a writing tool names to the service is authorised.
use ah_there_it_is.Base.{
  ℕ, ◌≡◌, refl, ◌⊎◌, inl, inr, true, Option, none, some, List, [], ◌∷◌, ◌++◌, All, Bool-cases,
  if◌then◌else◌,
}
use ah_there_it_is.Domain.States.{Result, ok, err}
use ah_there_it_is.Db.{Db, Model}
use ah_there_it_is.Session.{Session}
use ah_there_it_is.Inventory.Requests.{Request}
use ah_there_it_is.Tools.Resolution.{Kind}
use ah_there_it_is.Tools.Capabilities.{
  ToolBox, ToolState, ToolOutcome, did, failed, precondition, is_seen,
}
use ah_there_it_is.Tools.Operations.{
  Write, Reference, optional_reference, patch_category, references, service_request, tool_operation,
  forces_lock,
}
use ah_there_it_is.Tools.Writes.{admit, validated_write, admitted, write_tool}
use ah_there_it_is.Tools.Authority.{
  IsAuthorised, IsUnwritten, validated_write-IsGuarded, remembered-IsGuarded,
}

abbrev pub named_entity : Kind → Option ℕ → List Reference
named_entity kind none = []
named_entity kind (some k) = (kind, k) ∷ []

abbrev pub patched_entity : Kind → Option (Option ℕ) → List Reference
patched_entity kind none = []
patched_entity kind (some o) = named_entity kind o

abbrev pub node_kind : Model → Kind
node_kind Model.category = Kind.category
node_kind Model.location = Kind.location

-- the stored rows whose keys a request of the inventory service carries
abbrev pub entities : Request → List Reference
entities (Request.create_tree_node m name parent text) = named_entity (node_kind m) parent
entities (Request.create_path names parent reuse text) = named_entity Kind.location parent
entities (Request.change_tree_node m k patch) =
    (node_kind m, k) ∷ patched_entity (node_kind m) patch.parent_id
entities (Request.create args) =
    named_entity Kind.category args.category_id ++ named_entity Kind.location args.location_id
entities (Request.update k patch) = (Kind.item, k) ∷ patched_entity Kind.category patch.category_id
entities (Request.move k location portion text) =
    (Kind.item, k) ∷ named_entity Kind.location location
entities (Request.take k portion text) = (Kind.item, k) ∷ []
entities (Request.mark_unknown k text) = (Kind.item, k) ∷ []
entities (Request.remove k reason source portion text) = (Kind.item, k) ∷ []
entities (Request.restore k state location text) =
    (Kind.item, k) ∷ named_entity Kind.location location
entities (Request.change_quantity k mode value reason source text) = (Kind.item, k) ∷ []
entities (Request.attach_photo k provider reference caption position) = (Kind.item, k) ∷ []
entities (Request.restore_photo key k provider reference caption position) =
    (Kind.media, key) ∷ (Kind.item, k) ∷ []
entities (Request.update_photo key caption position) = (Kind.media, key) ∷ []
entities (Request.detach_photo key) = (Kind.media, key) ∷ []

-- a call of a service that is not made names nothing
abbrev pub named_by : Result Request → List Reference
named_by (ok r) = entities r
named_by (err e) = []

-- the stored rows that a tool names to the service: a new location is made below its parent
abbrev pub targets : ToolBox → Write → List Reference
targets box (Write.new_location name parent description) = named_entity Kind.location parent
targets box w = named_by (service_request box.original_text w)

-- a photo has been seen in the turn, anything else is authorised
abbrev pub IsAllowed : ToolBox → ToolState → Db → Reference → Type 0
IsAllowed box t d (Kind.media, k) = is_seen Kind.media k t ≡ true
IsAllowed box t d r = IsAuthorised box t d r

module _ {A : Type 0} (P Q : A → Type 0) where
  both_parts :
      (xs us ys vs : List A)
      → (All P xs → All Q us)
      → (All P ys → All Q vs)
      → All P (xs ++ ys)
      → All Q (us ++ vs)
  both_parts (x ∷ xs) us ys vs f g h = both_parts xs us ys vs (λ p. f (h.0, p)) g h.1
  both_parts [] us ys vs f g h = joined us (f tt)
    where
      joined : (us : List A) → All Q us → All Q (us ++ vs)
      joined [] q = g h
      joined (u ∷ us) q = (q.0, joined us q.1)

module _ (box : ToolBox) (t : ToolState) (d : Db) where
  Holds : List Reference → Type 0
  Holds rs = All (IsAllowed box t d) rs

  category-Holds :
      (o : Option ℕ)
      → All (IsAuthorised box t d) (optional_reference Kind.category o)
      → Holds (named_entity Kind.category o)
  unfolding Holds
  category-Holds none h = h
  category-Holds (some k) h = h

  location-Holds :
      (o : Option ℕ)
      → All (IsAuthorised box t d) (optional_reference Kind.location o)
      → Holds (named_entity Kind.location o)
  unfolding Holds
  location-Holds none h = h
  location-Holds (some k) h = h

  patched-Holds :
      (o : Option (Option ℕ))
      → All (IsAuthorised box t d) (patch_category o)
      → Holds (patched_entity Kind.category o)
  unfolding Holds
  patched-Holds none h = h
  patched-Holds (some o) h = category-Holds o h

  was_seen :
      (k : ℕ)
      → (if is_seen Kind.media k t then did tt else failed precondition) ≡ did tt
      → is_seen Kind.media k t ≡ true
  was_seen k a = elim (Bool-cases (is_seen Kind.media k t)) [
    | inl y ↦ y
    | inr n ↦ absurd ((let b = rw n at a in cc))
  ]

  targets-Holds :
      (w : Write)
      → admit box w t ≡ did tt
      → All (IsAuthorised box t d) (references w)
      → Holds (targets box w)
  unfolding Holds admit references service_request
  targets-Holds (Write.new_category name parent description) a h = category-Holds parent h
  targets-Holds (Write.new_location name parent description) a h = location-Holds parent h
  targets-Holds (Write.new_item args) a h =
      both_parts (IsAuthorised box t d) (IsAllowed box t d) _ _ _ _
        (category-Holds args.category_id) (location-Holds args.location_id) h
  targets-Holds (Write.move_to k location portion) a h = h
  targets-Holds (Write.take_along k portion) a h = h
  targets-Holds (Write.lose_place k) a h = h
  targets-Holds (Write.set_quantity k mode value reason source) a h = h
  targets-Holds (Write.remove_part k reason source portion) a h = h
  targets-Holds (Write.bring_back k state location) a h = (h.0, location-Holds location h.1)
  targets-Holds (Write.attach k provider reference caption position) a h = h
  targets-Holds (Write.change_item k patch) a h = (h.0, patched-Holds patch.category_id h.1)
  targets-Holds (Write.change_photo k caption none) a h = (was_seen k a, tt)
  targets-Holds (Write.change_photo k caption (some none)) a h = tt
  targets-Holds (Write.change_photo k caption (some (some position))) a h = (was_seen k a, tt)
  targets-Holds (Write.detach k) a h = (was_seen k a, tt)

module _ (box : ToolBox) (t : ToolState) where
  guarded :
      (w : Write) (x : ToolOutcome Unit) (s : Session)
      → admit box w t ≡ x
      → IsUnwritten s (admitted box w t x s).2 ⊎ All (IsAllowed box t s.working) (targets box w)
  unfolding Holds
  guarded w (failed f) s a = inl (inl refl)
  guarded w (did u) s a =
      elim (remembered-IsGuarded box t w (references w) s
        (validated_write box (forces_lock w) t (references w) (tool_operation box w) s)
        (validated_write-IsGuarded box t (forces_lock w) (references w) (tool_operation box w) s)) [
          | inr h ↦ inl h
          | inl h ↦ inr (targets-Holds box t s.working w a h)
        ]

-- A tool that writes, on any capabilities and session, either leaves the session as it was or rolled
-- back, or every stored row whose key it passes to the inventory service is allowed: a photo has been
-- seen in the capabilities that the call can see, and an item, a location or a category is resolved in
-- them, and was created in the turn, or is at this moment the only stored match of a query that has
-- resolved it.
pub write_tool-IsGuarded :
    (box : ToolBox) (w : Write) (t : ToolState) (s : Session)
    → (let (x, t', s') = write_tool box w t s in
        IsUnwritten s s' ⊎ All (IsAllowed box t s.working) (targets box w))
unfolding write_tool
write_tool-IsGuarded box w t s = guarded box t w (admit box w t) s refl
