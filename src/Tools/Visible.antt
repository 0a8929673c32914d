-- ===== src/Tools/Visible.antt =====
-- agent/tools.py: a tool that writes reads no capabilities but those that the call can see.
use ah_there_it_is.Base.{ℕ, ◌≡◌, refl, ap, ◌∙◌, inl, inr, Bool, Bool-cases, List, [], ◌∷◌}
use ah_there_it_is.Text.{Text}
use ah_there_it_is.Domain.States.{Result, ok, err, Result-cases}
use ah_there_it_is.Db.{Db}
use ah_there_it_is.Session.{Session, flush}
use ah_there_it_is.Tools.Resolution.{Kind}
use ah_there_it_is.Tools.Capabilities.{
  ToolBox, ToolState, ToolOutcome, did, failed, visible, is_seen, is_resolved, require_prior_search,
  semantic_search_key,
}
use ah_there_it_is.Tools.NewPaths.{ToolM, ToolReply}
use ah_there_it_is.Tools.Operations.{
  Write, Reference, references, tool_operation, forces_lock, remembered,
}
use ah_there_it_is.Tools.Writes.{
  admit, has_authority, all_authority, is_current, all_current, after_flush, validated_write,
  admitted, write_tool,
}

module _ (box : ToolBox) (t u : ToolState) (same : visible t ≡ visible u) where
  seen_same : (kind : Kind) (k : ℕ) → is_seen kind k t ≡ is_seen kind k u
  unfolding is_seen
  seen_same kind k = rw same refl

  search_same :
      (kind : Kind) (name : Text)
      → require_prior_search box kind name t ≡ require_prior_search box kind name u
  unfolding require_prior_search
  search_same kind name = elim (Result-cases (semantic_search_key box kind name)) [
    | inl (key, p) ↦ rw (p, require_prior_search) (rw same refl)
    | inr (e, p) ↦ rw (p, require_prior_search) refl
  ]

  authority_same : (r : Reference) → has_authority t r ≡ has_authority u r
  unfolding has_authority is_resolved
  authority_same (kind, k) = rw same refl

  all_authority_same : (rs : List Reference) → all_authority t rs ≡ all_authority u rs
  unfolding all_authority
  all_authority_same [] = refl
  all_authority_same (r ∷ rs) = rw (authority_same r, all_authority_same rs) refl

  current_same : (d : Db) (r : Reference) → is_current box t d r ≡ is_current box u d r
  current_same d (kind, k) = rw same refl

  all_current_same :
      (d : Db) (rs : List Reference) → all_current box t d rs ≡ all_current box u d rs
  unfolding all_current
  all_current_same d [] = refl
  all_current_same d (r ∷ rs) = elim (Result-cases (is_current box u d r)) [
    | inr (e, p) ↦ rw (current_same d r ∙ p, p, all_current) refl
    | inl (b, p) ↦ elim (Bool-cases b) [
      | inr n ↦ let q = p ∙ ap ok n in rw (current_same d r ∙ q, q, all_current) refl
      | inl y ↦
          let q = p ∙ ap ok y in rw (current_same d r ∙ q, q, all_current) (all_current_same d rs)
    ]
  ]

  flush_same :
      {A : Type 0} (rs : List Reference) (operation : ToolM A) (x : Result Unit × Session)
      → after_flush box t rs operation x ≡ after_flush box u rs operation x
  flush_same rs operation (err e, s) = refl
  flush_same rs operation (ok a, s) = rw (all_current_same s.working rs) refl

  validated_same :
      {A : Type 0} (force : Bool) (rs : List Reference) (operation : ToolM A) (s : Session)
      → validated_write box force t rs operation s ≡ validated_write box force u rs operation s
  unfolding validated_write
  validated_same force rs operation s =
      rw (all_authority_same rs, flush_same rs operation (flush box.service s)) refl

  admit_same : (w : Write) → admit box w t ≡ admit box w u
  unfolding admit
  admit_same (Write.new_category name parent description) = search_same Kind.category name
  admit_same (Write.new_location name parent description) = search_same Kind.location name
  admit_same (Write.new_item args) = search_same Kind.item args.name
  admit_same (Write.change_photo k caption position) = rw (seen_same Kind.media k) refl
  admit_same (Write.detach k) = rw (seen_same Kind.media k) refl
  admit_same _ = refl

  -- the outcome and the session are the same
  abbrev AreSame :
      ToolOutcome ToolReply × ToolState × Session
      → ToolOutcome ToolReply × ToolState × Session
      → Type 0
  AreSame (x, t', s') (y, t2, s2) = (x ≡ y) × (s' ≡ s2)

  remembered_same :
      (w : Write) (x : ToolOutcome ToolReply × Session)
      → AreSame (remembered w t x) (remembered w u x)
  remembered_same w (did reply, s) = (refl, refl)
  remembered_same w (failed f, s) = (refl, refl)

  admitted_same :
      (w : Write) (x : ToolOutcome Unit) (s : Session)
      → AreSame (admitted box w t x s) (admitted box w u x s)
  admitted_same w (failed f) s = (refl, refl)
  admitted_same w (did a) s =
      rw (validated_same (forces_lock w) (references w) (tool_operation box w) s) (
        remembered_same w
          (validated_write box (forces_lock w) u (references w) (tool_operation box w) s))

  pub write_tool_sees :
      (w : Write) (s : Session) → AreSame (write_tool box w t s) (write_tool box w u s)
  unfolding write_tool
  write_tool_sees w s = rw (admit_same w) (admitted_same w (admit box w u) s)
