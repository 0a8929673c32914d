-- ===== src/Session/Rules.antt =====
-- What a method of the session promises, by how it ends. The rules run a method from a state that
-- is known: first the checks, which see the session as it was, then the writes.
use ah_there_it_is.Base.{
  ◌≡◌, refl, sym, subst, ◌⊎◌, inl, inr, Bool, true, false, if◌then◌else◌, Bool-cases,
}
use ah_there_it_is.Domain.States.{Error, Result, ok, err, Result-cases}
use ah_there_it_is.Db.{Db}
use ah_there_it_is.Session.{
  M, Session, Service, continue, ◌>>=◌, ◌>>◌, pure, query, lift, raise_if, modify, flush, commit,
  guarded, rolled_back, after_raise,
}

-- `Q` where it returned, `E` where it raised
abbrev pub Outcome :
    {A : Type 0} → (A → Session → Type 0) → (Session → Type 0) → Result A → Session → Type 0
Outcome Q E (ok a) s = Q a s
Outcome Q E (err _) s = E s

pub record Triple {A : Type 0} (P : Session → Type 0) (m : M A) (Q : A → Session → Type 0)
    (E : Session → Type 0) : Type 0 where
  pub at : (s : Session) → P s → Outcome Q E (m s).0 (m s).1

continue_rule :
    {A B : Type 0} (Q : A → Session → Type 0) (R : B → Session → Type 0) (E : Session → Type 0)
    (f : A → M B)
    → ((a : A) → Triple (Q a) (f a) R E)
    → (r : Result A) (s : Session) → Outcome Q E r s
    → Outcome R E (continue r f s).0 (continue r f s).1
continue_rule Q R E f k (ok a) s h = (k a).at s h
continue_rule Q R E f k (err e) s h = h

pub bind_rule :
    {A B : Type 0} {P : Session → Type 0} {E : Session → Type 0} (Q : A → Session → Type 0)
    {R : B → Session → Type 0} {m : M A} {f : A → M B}
    → Triple P m Q E
    → ((a : A) → Triple (Q a) (f a) R E)
    → Triple P (m >>= f) R E
unfolding ◌>>=◌
bind_rule {E} Q {R} {m} {f} h k = record {
  at = λ s p. continue_rule Q R E f k (m s).0 (m s).1 (h.at s p);
}

pub weaken_rule :
    {A : Type 0} {P P' : Session → Type 0} {E : Session → Type 0} {Q : A → Session → Type 0}
    {m : M A}
    → ((s : Session) → P' s → P s)
    → Triple P m Q E
    → Triple P' m Q E
weaken_rule w h = record { at = λ s p. h.at s (w s p) }

pub exists_rule :
    {A X : Type 0} {P : X → Session → Type 0} {E : Session → Type 0} {Q : A → Session → Type 0}
    {m : M A}
    → ((x : X) → Triple (P x) m Q E)
    → Triple (λ s. (x : X) × P x s) m Q E
exists_rule h = record { at = λ s p. (h p.0).at s p.1 }

-- the method began in the session `s0`
module _ (s0 : Session) where
  -- the session now shows `d`, and nothing was committed since
  abbrev pub At : Db → Session → Type 0
  At d s = s ≡ record s0 { working = d }

  -- a failed method leaves the session as it was, or rolled back
  abbrev pub Fails : Session → Type 0
  Fails s = (s ≡ s0) ⊎ (s ≡ rolled_back s0)

  module _ {B : Type 0} {R : B → Session → Type 0} where
    pub query_start :
        {A : Type 0} (f : Db → Result A) (k : A → M B)
        → ((a : A) → f s0.working ≡ ok a → Triple (At s0.working) (k a) R Fails)
        → Triple (At s0.working) (query f >>= k) R Fails
    unfolding query ◌>>=◌
    query_start f k h = record {
      at = λ s p.
          subst (λ s. Outcome R Fails ((query f >>= k) s).0 ((query f >>= k) s).1) (sym p)
            (elim (Result-cases (f s0.working)) [
              | inl (a, e) ↦ rw e ((h a e).at s0 refl)
              | inr (x, e) ↦ rw e (inl refl)
            ]);
    }

    pub lift_start :
        {A : Type 0} (r : Result A) (k : A → M B)
        → ((a : A) → r ≡ ok a → Triple (At s0.working) (k a) R Fails)
        → Triple (At s0.working) (lift r >>= k) R Fails
    unfolding lift ◌>>=◌
    lift_start (ok a) k h = record { at = λ s p. (h a refl).at s p }
    lift_start (err x) k h = record { at = λ s p. inl p }

    pub lift_err : (x : Error) → Triple (At s0.working) (lift (err x)) R Fails
    unfolding lift
    lift_err x = record { at = λ s p. inl p }

    pub raise_if_start :
        (b : Bool) (x : Error) (k : M B)
        → (b ≡ false → Triple (At s0.working) k R Fails)
        → Triple (At s0.working) (raise_if b x >> k) R Fails
    unfolding raise_if ◌>>=◌
    raise_if_start true x k h = record { at = λ s p. inl p }
    raise_if_start false x k h = record { at = λ s p. (h refl).at s p }

    pub if_rule :
        {P : Session → Type 0} (b : Bool) (m n : M B)
        → (b ≡ true → Triple P m R Fails)
        → (b ≡ false → Triple P n R Fails)
        → Triple P (if b then m else n) R Fails
    if_rule true m n h k = h refl
    if_rule false m n h k = k refl

    pub pure_at :
        (d : Db) (b : B) → R b (record s0 { working = d }) → Triple (At d) (pure b) R Fails
    unfolding pure
    pure_at d b h = record { at = λ s p. subst (R b) (sym p) h }

    -- a query that is known not to fail, after the writes so far
    pub query_at :
        {A : Type 0} (d : Db) (f : Db → Result A) (k : A → M B) (a : A)
        → f d ≡ ok a
        → Triple (At d) (k a) R Fails
        → Triple (At d) (query f >>= k) R Fails
    unfolding query ◌>>=◌
    query_at d f k a e h = record {
      at = λ s p.
          subst (λ s. Outcome R Fails ((query f >>= k) s).0 ((query f >>= k) s).1) (sym p)
            (rw e (h.at (record s0 { working = d }) refl));
    }

    pub modify_at :
        (d : Db) (f : Db → Db) (k : M B)
        → Triple (At (f d)) k R Fails
        → Triple (At d) (modify f >> k) R Fails
    unfolding modify ◌>>=◌
    modify_at d f k h = record {
      at = λ s p.
          subst (λ s. Outcome R Fails ((modify f >> k) s).0 ((modify f >> k) s).1) (sym p)
            (h.at (record s0 { working = f d }) refl);
    }

    pub flush_at :
        (self : Service) (d : Db) (k : M B)
        → Triple (At d) k R Fails
        → Triple (At d) (flush self >> k) R Fails
    unfolding flush ◌>>=◌
    flush_at self d k h = record {
      at = λ s p.
          subst (λ s. Outcome R Fails ((flush self >> k) s).0 ((flush self >> k) s).1) (sym p)
            (elim (Bool-cases (self.accepts d)) [
              | inl e ↦ rw e (h.at (record s0 { working = d }) refl)
              | inr e ↦ rw e (inr refl)
            ]);
    }

    -- the transaction's end: an autocommitting service has committed what it shows
    pub commit_at :
        (self : Service) (d : Db) (b : B)
        → (self.autocommit ≡ true → R b (record { working = d; committed = d }))
        → (self.autocommit ≡ false → R b (record s0 { working = d }))
        → Triple (At d) (commit self >> pure b) R Fails
    unfolding commit pure ◌>>=◌
    commit_at self d b h k = record {
      at = λ s p.
          subst (λ s. Outcome R Fails ((commit self >> pure b) s).0 ((commit self >> pure b) s).1)
            (sym p)
            (elim (Bool-cases (self.accepts d)) [
              | inl e ↦
                  rw e
                    (elim (Bool-cases self.autocommit) [ inl a ↦ rw a (h a) | inr a ↦ rw a (k a) ])
              | inr e ↦ rw e (inr refl)
            ]);
    }

  pub raise_if_end :
      (b : Bool) (x : Error) → Triple (At s0.working) (raise_if b x) (λ _. At s0.working) Fails
  unfolding raise_if
  raise_if_end true x = record { at = λ s p. inl p }
  raise_if_end false x = record { at = λ s p. p }

  pub lift_end :
      {A : Type 0} (r : Result A) → Triple (At s0.working) (lift r) (λ _. At s0.working) Fails
  unfolding lift
  lift_end (ok a) = record { at = λ s p. p }
  lift_end (err x) = record { at = λ s p. inl p }

  pub modify_end : (d : Db) (f : Db → Db) → Triple (At d) (modify f) (λ _. At (f d)) Fails
  unfolding modify
  modify_end d f = record {
    at = λ s p.
        subst (λ s. record s { working = f s.working } ≡ record s0 { working = f d }) (sym p) refl;
  }

  after_raise-Fails :
      (self : Service) (s : Session)
      → Fails s
      → Fails (if self.autocommit then rolled_back s else s)
  after_raise-Fails self s (inl p) = elim (Bool-cases self.autocommit) [
    | inl e ↦ rw e (inr (cc))
    | inr e ↦ rw e (inl p)
  ]
  after_raise-Fails self s (inr p) = elim (Bool-cases self.autocommit) [
    | inl e ↦ rw e (inr (cc))
    | inr e ↦ rw e (inr p)
  ]

  guarded-Outcome :
      {B : Type 0} (R : B → Session → Type 0) (self : Service) (r : Result B) (s : Session)
      → Outcome R Fails r s
      → Outcome R Fails r (after_raise self r s)
  guarded-Outcome R self (ok b) s h = h
  guarded-Outcome R self (err x) s h = after_raise-Fails self s h

  pub guarded_rule :
      {B : Type 0} {R : B → Session → Type 0} {P : Session → Type 0} (self : Service) {m : M B}
      → Triple P m R Fails
      → Triple P (guarded self m) R Fails
  unfolding guarded
  guarded_rule {R} self {m} h = record {
    at = λ s p. guarded-Outcome R self (m s).0 (m s).1 (h.at s p);
  }
