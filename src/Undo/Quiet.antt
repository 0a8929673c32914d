-- ===== src/Undo/Quiet.antt =====
-- Methods of a session that commit nothing, however they end (services/undo.py runs its inventory
-- without commits).
use ah_there_it_is.Base.{◌≡◌, refl, ◌∙◌, Bool, true, false, if◌then◌else◌, Bool-cases, inl, inr}
use ah_there_it_is.Domain.States.{Error, Result, ok, err}
use ah_there_it_is.Db.{Db}
use ah_there_it_is.Session.{
  M, Session, Service, continue, ◌>>=◌, query, lift, raise_if, modify, commit, flush, pure,
}

-- what is committed stays as it is
pub record IsQuiet {A : Type 0} (m : M A) : Type 0 where
  pub keeps : (s : Session) → (m s).1.committed ≡ s.committed

continue_keeps :
    {A B : Type 0} (k : A → M B) (r : Result A) (s : Session)
    → ((a : A) → IsQuiet (k a))
    → (continue r k s).1.committed ≡ s.committed
continue_keeps k (ok a) s h = (h a).keeps s
continue_keeps k (err e) s h = refl

module _ {A B : Type 0} {m : M A} {k : A → M B} where
  pub bind-IsQuiet : IsQuiet m → ((a : A) → IsQuiet (k a)) → IsQuiet (m >>= k)
  unfolding ◌>>=◌
  bind-IsQuiet h q = record { keeps = λ s. continue_keeps k (m s).0 (m s).1 q ∙ h.keeps s }

module _ {A : Type 0} where
  pub query-IsQuiet : (f : Db → Result A) → IsQuiet (query f)
  unfolding query
  query-IsQuiet f = record { keeps = λ s. refl }

  pub lift-IsQuiet : (r : Result A) → IsQuiet (lift r)
  unfolding lift
  lift-IsQuiet r = record { keeps = λ s. refl }

  pub pure-IsQuiet : (a : A) → IsQuiet (pure a)
  unfolding pure
  pure-IsQuiet a = record { keeps = λ s. refl }

  pub if-IsQuiet : (b : Bool) {m n : M A} → IsQuiet m → IsQuiet n → IsQuiet (if b then m else n)
  if-IsQuiet true h k = h
  if-IsQuiet false h k = k

pub raise_if-IsQuiet : (b : Bool) (e : Error) → IsQuiet (raise_if b e)
unfolding raise_if
raise_if-IsQuiet b e = record { keeps = λ s. refl }

pub modify-IsQuiet : (f : Db → Db) → IsQuiet (modify f)
unfolding modify
modify-IsQuiet f = record { keeps = λ s. refl }

pub flush-IsQuiet : (self : Service) → IsQuiet (flush self)
unfolding flush
flush-IsQuiet self = record {
  keeps = λ s. elim (Bool-cases (self.accepts s.working)) [ inl e ↦ rw e refl | inr e ↦ rw e refl ];
}

pub commit-IsQuiet : (self : Service) → self.autocommit ≡ false → IsQuiet (commit self)
unfolding commit
commit-IsQuiet self m = record {
  keeps = λ s. elim (Bool-cases (self.accepts s.working)) [
    | inl e ↦ rw (e, m) refl
    | inr e ↦ rw e refl
  ];
}
