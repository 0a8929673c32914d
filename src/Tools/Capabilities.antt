-- ===== src/Tools/Capabilities.antt =====
-- agent/tools.py: ToolRunState, the capabilities that a turn has learnt, and the search tools that teach
-- them. Sets are lists. The ranking of SearchService is a parameter.
use ah_there_it_is.Base.{
  ℕ, Bool, true, false, ◌&&◌, ◌||◌, not, Option, none, some, List, [], ◌∷◌, ◌++◌, any, contains,
  take, if◌then◌else◌,
}
use ah_there_it_is.Text.{Text, codes, text_eq, is_blank}
use ah_there_it_is.Domain.States.{Error, Result, ok, err}
use ah_there_it_is.Db.{Db}
use ah_there_it_is.Session.{Service, comparison_key, location_key}
use ah_there_it_is.Tools.SearchKeys.{normalize_search_text, search_name_signature}
use ah_there_it_is.Tools.Resolution.{
  Kind, PathKey, Resolution, resolved, ambiguous, no_exact_identity, resolve_with_evidence,
}

-- `ToolRunState`; the evidence of an entity are the queries that are paired with it
pub record ToolRunState : Type 0 where
  pub seen : Kind → List ℕ
  pub resolved : Kind → List ℕ
  pub evidence : Kind → List (ℕ × Text)
  pub created : Kind → List ℕ
  pub searches : Kind → List Text
  pub empty_searches : Kind → List Text

-- the state of a `ToolDispatcher`: `frozen` holds the five copies of `begin_round`
pub record ToolState : Type 0 where
  pub state : ToolRunState
  pub frozen : Option ToolRunState

-- what a tool raises: ToolPreconditionError, ToolClarificationRequiredError, or an error of a service
pub data Failure : Type 0 where
  precondition clarification : Failure
  service : Error → Failure

pub data ToolOutcome (A : Type 0) : Type 0 where
  did : A → ToolOutcome A
  failed : Failure → ToolOutcome A

-- what the dispatcher is made with: the services, `parse_location_phrase` by its path key and by its
-- names and relations, the characters `\w`, the ids that a search returns for a query and a limit, the text
-- of the user, and whether the containment policy is permissive
pub record ToolBox : Type 0 where
  pub service : Service
  pub path_key : PathKey
  pub phrase : Text → Result (Option (List Text × List Text))
  pub is_word : ℕ → Bool
  pub permissive : Bool
  pub search : Kind → Text → ℕ → Db → List ℕ
  pub original_text : Option Text

abbrev pub kind_eq : Kind → Kind → Bool
kind_eq Kind.item Kind.item = true
kind_eq Kind.media Kind.media = true
kind_eq Kind.location Kind.location = true
kind_eq Kind.category Kind.category = true
kind_eq Kind.tag Kind.tag = true
kind_eq _ _ = false

-- one entry of a dictionary of sets grows
unfoldable pub extend : {A : Type 0} → Kind → List A → (Kind → List A) → Kind → List A
extend kind xs f k = if kind_eq kind k then f k ++ xs else f k

abbrev pub nothing : {A : Type 0} → Kind → List A
nothing _ = []

abbrev pub start_tools : ToolState
start_tools = record {
  state = record {
    seen = nothing;
    resolved = nothing;
    evidence = nothing;
    created = nothing;
    searches = nothing;
    empty_searches = nothing;
  };
  frozen = none;
}

-- `begin_round`, `end_round`, and what a check reads
unfoldable pub begin_round : ToolState → ToolState
begin_round t = record t { frozen = some t.state }

unfoldable pub end_round : ToolState → ToolState
end_round t = record t { frozen = none }

unfoldable pub visible : ToolState → ToolRunState
visible t = elim t.frozen [ none ↦ t.state | some r ↦ r ]

abbrev pub with_state : (ToolRunState → ToolRunState) → ToolState → ToolState
with_state f t = record t { state = f t.state }

-- `_remember_seen`
abbrev pub remember_seen : Kind → List ℕ → ToolRunState → ToolRunState
remember_seen kind ids r = record r { seen = extend kind ids r.seen }

-- `_remember_created`
abbrev pub remember_created : Kind → ℕ → ToolRunState → ToolRunState
remember_created kind k r = record r {
  seen = extend kind (k ∷ []) r.seen;
  resolved = extend kind (k ∷ []) r.resolved;
  created = extend kind (k ∷ []) r.created;
}

-- `_remember_search`, for the key of the query
abbrev pub remember_search : Kind → Text → ToolRunState → ToolRunState
remember_search kind key r =
    if is_blank key then r else record r { searches = extend kind (key ∷ []) r.searches }

-- the entity is resolved by the query
abbrev pub grant : Kind → ℕ → Text → ToolRunState → ToolRunState
grant kind k query r = record r {
  resolved = extend kind (k ∷ []) r.resolved;
  evidence = extend kind ((k, query) ∷ []) r.evidence;
}

-- `_remember_search_candidates`, after the ids were seen
unfoldable pub remember_candidates :
    Kind → Text → Text → List ℕ → Resolution → ToolRunState → ToolRunState
remember_candidates kind key query ids (resolved k e) r =
    if contains ids k then grant kind k query r else r
remember_candidates kind key query ids ambiguous r = r
remember_candidates kind key query ids no_exact_identity r =
    if is_blank key
    then r
    else record r { empty_searches = extend kind (key ∷ []) r.empty_searches }

-- `_semantic_search_key`
unfoldable pub semantic_search_key : ToolBox → Kind → Text → Result Text
semantic_search_key box Kind.location value = elim (box.path_key value) [
  | err e ↦ err e
  | ok (some path) ↦ ok (codes "path:" ++ path)
  | ok none ↦ ok (location_key box.service.names value)
]
semantic_search_key box _ value = ok (comparison_key box.service.names value)

abbrev pub searched :
    ToolBox → Kind → Text → Text → ℕ → Db → ToolState → ToolOutcome (List ℕ) × ToolState
searched box kind query key limit d t =
    let ids = box.search kind query limit d in
    let t' = with_state (λ r. remember_seen kind ids (remember_search kind key r)) t in
    elim (resolve_with_evidence box.service.names box.path_key kind query d) [
      | err e ↦ (failed (service e), t')
      | ok r ↦ (did ids, with_state (remember_candidates kind key query ids r) t')
    ]

-- `_search_items`, `_search_locations`, `_search_categories`, `_search_tags`
unfoldable pub search_tool :
    ToolBox → Kind → Text → ℕ → Db → ToolState → ToolOutcome (List ℕ) × ToolState
search_tool box kind query limit d t = elim (semantic_search_key box kind query) [
  | err e ↦ (failed (service e), t)
  | ok key ↦ searched box kind query key limit d t
]

-- `_require_seen`, `_require_resolved`
unfoldable pub is_seen : Kind → ℕ → ToolState → Bool
is_seen kind k t = contains ((visible t).seen kind) k

unfoldable pub is_resolved : Kind → ℕ → ToolState → Bool
is_resolved kind k t = contains ((visible t).resolved kind) k

abbrev pub texts_eq : List Text → List Text → Bool
texts_eq [] [] = true
texts_eq (s ∷ ss) (t ∷ ts) = text_eq s t && texts_eq ss ts
texts_eq _ _ = false

-- `key.startswith("path:")` for a location
abbrev pub starts_path : Text → Bool
starts_path key = text_eq (take 5 key) (codes "path:")

abbrev pub has_words : List Text → Bool
has_words [] = false
has_words (_ ∷ _) = true

abbrev pub signature : ToolBox → Text → List Text
signature box key = search_name_signature (normalize_search_text box.is_word box.service.names key)

-- the key was searched, or its words were, in another order
unfoldable pub was_searched : ToolBox → Kind → Text → List Text → Bool
was_searched box kind key prior =
    any (λ k. text_eq k key) prior
    || (not (kind_eq kind Kind.location && starts_path key)
        && has_words (signature box key)
        && any (λ k. texts_eq (signature box k) (signature box key)) prior)

-- `_require_prior_search`
unfoldable pub require_prior_search : ToolBox → Kind → Text → ToolState → ToolOutcome (Unit {0})
require_prior_search box kind name t = elim (semantic_search_key box kind name) [
  | err e ↦ failed (service e)
  | ok key ↦
      if was_searched box kind key ((visible t).searches kind) then did tt else failed precondition
]
