-- ===== src/Tools/Authority.antt =====
-- agent/tools.py: a tool writes only what its references are authorised for.
use ah_there_it_is.Base.{
  Bool, ℕ, ◌≡◌, refl, ap, ◌∙◌, ◌⊎◌, inl, inr, true, some, List, [], ◌∷◌, any, All, option_eq,
  option_eq_iff, arith, Bool-cases, false, ◌||◌,
}
use ah_there_it_is.Text.{Text, text_eq, text_eq_iff}
use ah_there_it_is.Domain.States.{ok, Result-cases}
use ah_there_it_is.Db.{Db}
use ah_there_it_is.Session.{Session, rolled_back, flush}
use ah_there_it_is.Tools.Resolution.{Kind, resolve}
use ah_there_it_is.Tools.Unique.{IsTheMatch, resolve-IsTheMatch}
use ah_there_it_is.Tools.Capabilities.{
  ToolBox, ToolState, ToolOutcome, did, failed, Failure, is_resolved,
}
use ah_there_it_is.Tools.NewPaths.{ToolM, ToolReply}
use ah_there_it_is.Tools.Operations.{Write, Reference, remembered}
use ah_there_it_is.Tools.Writes.{
  evidence_of, is_created, has_authority, all_authority, still_resolves, is_current, all_current,
  locked_write, after_flush, validated_write, has_reference,
}

-- the entity was resolved in the turn, and is one that the turn has created, or the only match, now, of a
-- query that has resolved it
abbrev pub IsAuthorised : ToolBox → ToolState → Db → Reference → Type 0
IsAuthorised box t d (kind, k) =
    (is_resolved kind k t ≡ true)
    × ((is_created t (kind, k) ≡ true)
        ⊎ ((query : Text) × (any (text_eq query) (evidence_of t (kind, k)) ≡ true)
            × IsTheMatch box.service.names box.path_key kind query d k))

-- nothing was written
abbrev pub IsUnwritten : Session → Session → Type 0
IsUnwritten s s' = (s' ≡ s) ⊎ (s' ≡ rolled_back s)

found_query :
    (box : ToolBox) (kind : Kind) (k : ℕ) (queries : List Text) (d : Db)
    → still_resolves box (kind, k) queries d ≡ ok true
    → (query : Text) × (any (text_eq query) queries ≡ true)
      × IsTheMatch box.service.names box.path_key kind query d k
unfolding still_resolves
found_query box kind k [] d e = absurd (cc)
found_query box kind k (q ∷ qs) d e =
    elim (Result-cases (resolve box.service.names box.path_key kind q d)) [
      | inr (x, p) ↦ absurd ((let f = rw (p, still_resolves) at e in cc))
      | inl (found, p) ↦ elim (Bool-cases (option_eq found (some k))) [
        | inl y ↦
            let same : found ≡ some k = (option_eq_iff found (some k)).0 y in
            let whole : resolve box.service.names box.path_key kind q d ≡ ok (some k) =
              p ∙ ap ok same in
            (
              q,
              (let me = (text_eq_iff q q).1 refl in ground arith),
              resolve-IsTheMatch box.service.names box.path_key kind q d k whole,
            )
        | inr n ↦
            let f = rw (n, still_resolves) at (rw (p, still_resolves) at e) in
            let (query, there, match) = found_query box kind k qs d f in
            (query, ground arith, match)
      ]
    ]

module _ (box : ToolBox) (t : ToolState) (d : Db) where
  reference-IsAuthorised :
      (r : Reference)
      → has_authority t r ≡ true
      → is_current box t d r ≡ ok true
      → IsAuthorised box t d r
  unfolding has_authority
  reference-IsAuthorised (kind, k) h c = elim (Bool-cases (is_created t (kind, k))) [
    | inl y ↦ (ground arith, inl y)
    | inr n ↦ (ground arith, inr (found_query box kind k (evidence_of t (kind, k)) d (rw n at c)))
  ]

  references-AreAuthorised :
      (refs : List Reference)
      → all_authority t refs ≡ true
      → all_current box t d refs ≡ did tt
      → All (IsAuthorised box t d) refs
  unfolding all_authority all_current
  references-AreAuthorised [] h c = tt
  references-AreAuthorised (r ∷ rs) h c = elim (Result-cases (is_current box t d r)) [
    | inr (e, p) ↦ absurd ((let f = rw (p, all_current) at c in cc))
    | inl (b, p) ↦ elim (Bool-cases b) [
      | inr n ↦ absurd ((let f = rw n at (rw (p, all_current) at c) in cc))
      | inl y ↦
          let f = rw y at (rw (p, all_current) at c) in
          (
            reference-IsAuthorised r (ground arith) (p ∙ ap ok y),
            references-AreAuthorised rs (ground arith) f,
          )
    ]
  ]

ToolOutcome-cases :
    {A : Type 0} (x : ToolOutcome A) → ((a : A) × (x ≡ did a)) ⊎ ((f : Failure) × (x ≡ failed f))
ToolOutcome-cases (did a) = inl (a, refl)
ToolOutcome-cases (failed f) = inr (f, refl)

-- a write that refers to an entity takes the lock, forced or not
takes_lock :
    (force : Bool) (r : Reference) (rs : List Reference) → (force || has_reference (r ∷ rs)) ≡ true
takes_lock true r rs = refl
takes_lock false r rs = refl

module _ (box : ToolBox) (t : ToolState) where
  -- every reference is authorised, or nothing was written
  abbrev pub IsGuarded : List Reference → Session → Session → Type 0
  IsGuarded refs s s' = All (IsAuthorised box t s.working) refs ⊎ IsUnwritten s s'

  locked_write-IsGuarded :
      {A : Type 0} (refs : List Reference) (operation : ToolM A) (s : Session)
      → all_authority t refs ≡ true
      → IsGuarded refs s (locked_write box operation (all_current box t s.working refs) s).1
  locked_write-IsGuarded refs operation s h =
      elim (ToolOutcome-cases (all_current box t s.working refs)) [
        | inr (f, p) ↦ rw p (inr (inl refl))
        | inl (u, p) ↦ inl (references-AreAuthorised box t s.working refs h p)
      ]

  flushed-IsGuarded :
      {A : Type 0} (refs : List Reference) (operation : ToolM A) (s : Session)
      → all_authority t refs ≡ true
      → IsGuarded refs s (after_flush box t refs operation (flush box.service s)).1
  unfolding flush
  flushed-IsGuarded refs operation s h = elim (Bool-cases (box.service.accepts s.working)) [
    | inr n ↦ rw n (inr (inr refl))
    | inl a ↦ rw a (locked_write-IsGuarded refs operation s h)
  ]

  pub validated_write-IsGuarded :
      {A : Type 0} (force : Bool) (refs : List Reference) (operation : ToolM A) (s : Session)
      → IsGuarded refs s (validated_write box force t refs operation s).1
  unfolding validated_write
  validated_write-IsGuarded force [] operation s = inl tt
  validated_write-IsGuarded force (r ∷ rs) operation s =
      elim (Bool-cases (all_authority t (r ∷ rs))) [
        | inr n ↦ rw n (inr (inl refl))
        | inl y ↦ rw (y, takes_lock force r rs) (flushed-IsGuarded (r ∷ rs) operation s y)
      ]

  pub remembered-IsGuarded :
      (w : Write) (refs : List Reference) (s : Session) (x : ToolOutcome ToolReply × Session)
      → IsGuarded refs s x.1
      → IsGuarded refs s (remembered w t x).2
  remembered-IsGuarded w refs s (did reply, s') h = h
  remembered-IsGuarded w refs s (failed f, s') h = h
