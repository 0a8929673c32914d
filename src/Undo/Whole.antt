-- ===== src/Undo/Whole.antt =====
-- services/undo.py: what `undo` as a whole commits.
use ah_there_it_is.Base.{
  arith, ℕ, ◌≡◌, refl, ap, ◌∙◌, inl, inr, Bool, true, false, List, Bool-cases, if◌then◌else◌,
}
use ah_there_it_is.Domain.States.{Result, ok, err, Error}
use ah_there_it_is.Session.{
  M, Session, Service, guarded, flush, commit, pure, after_raise, continue, ◌>>=◌, ◌>>◌, lift,
  raise_if,
}
use ah_there_it_is.Receipts.{AgentRunLog, MutationReceipt}
use ah_there_it_is.Undo.Compensate.{
  compensate_all, undo, manual, sorted_set, available, eligible_run,
}
use ah_there_it_is.Undo.Quiet.{IsQuiet, bind-IsQuiet, pure-IsQuiet, flush-IsQuiet}
use ah_there_it_is.Undo.Atomic.{Undone, compensate_all-IsQuiet}

-- a method that commits all that it shows when it returns, and nothing when it raises
abbrev pub Ends : {A : Type 0} → Session → Result A → Session → Type 0
Ends s (ok _) t = t.committed ≡ t.working
Ends s (err _) t = t.committed ≡ s.committed

pub record IsWhole {A : Type 0} (m : M A) : Type 0 where
  pub ends : (s : Session) → Ends s (m s).0 (m s).1

Ends-from :
    {A : Type 0} (s s' : Session) (r : Result A) (t : Session)
    → s'.committed ≡ s.committed
    → Ends s' r t
    → Ends s r t
Ends-from s s' (ok a) t p h = h
Ends-from s s' (err e) t p h = h ∙ p

continue-Ends :
    {A B : Type 0} (k : A → M B) (s : Session) (r : Result A) (s' : Session)
    → s'.committed ≡ s.committed
    → ((a : A) → IsWhole (k a))
    → Ends s (continue r k s').0 (continue r k s').1
continue-Ends k s (ok a) s' p h = Ends-from s s' (k a s').0 (k a s').1 p ((h a).ends s')
continue-Ends k s (err e) s' p h = p

quiet_then :
    {A B : Type 0} {m : M A} {k : A → M B}
    → IsQuiet m
    → ((a : A) → IsWhole (k a))
    → IsWhole (m >>= k)
unfolding ◌>>=◌
quiet_then {m} {k} q h = record { ends = λ s. continue-Ends k s (m s).0 (m s).1 (q.keeps s) h }

module _ (self : Service) where
  commit-IsWhole :
      {A : Type 0} (a : A)
      → self.autocommit ≡ true
      → IsWhole ((if self.autocommit then commit self else pure tt) >> pure a)
  unfolding commit ◌>>=◌ pure
  commit-IsWhole a auto = record {
    ends = λ s. elim (Bool-cases (self.accepts s.working)) [
      | inl e ↦ rw (auto, e) refl
      | inr e ↦ rw (auto, e) refl
    ];
  }

  -- the body of the `try`
  abbrev pub body : List MutationReceipt → AgentRunLog → M (AgentRunLog × List ℕ)
  body rs run = compensate_all (manual self) rs run.id >>= λ ids.
      flush self
      >> ((if self.autocommit then commit self else pure tt) >> pure (run, sorted_set ids))

  body-IsWhole :
      (rs : List MutationReceipt) (run : AgentRunLog)
      → self.autocommit ≡ true
      → IsWhole (body rs run)
  body-IsWhole rs run auto =
      quiet_then (compensate_all-IsQuiet (manual self) refl rs run.id)
        (λ ids. quiet_then (flush-IsQuiet self) (λ _. commit-IsWhole (run, sorted_set ids) auto))

  body-IsQuiet :
      (rs : List MutationReceipt) (run : AgentRunLog)
      → self.autocommit ≡ false
      → IsQuiet (body rs run)
  body-IsQuiet rs run manual_one =
      bind-IsQuiet (compensate_all-IsQuiet (manual self) refl rs run.id) (λ ids.
        bind-IsQuiet (flush-IsQuiet self) (λ _.
          rw manual_one (bind-IsQuiet (pure-IsQuiet tt) (λ _. pure-IsQuiet (run, sorted_set ids)))))

  -- the handler rolls back
  whole-Undone :
      (r : Result (AgentRunLog × List ℕ)) (s t : Session)
      → self.autocommit ≡ true
      → Ends s r t
      → Undone self s r (after_raise self r t)
  whole-Undone (ok a) s t auto h = (λ _. h, λ m. absurd (ground arith))
  whole-Undone (err e) s t auto h =
      rw auto (h, λ _. inr (ap {B = Session} (λ d. record { working = d; committed = d }) h))

  quiet-Undone :
      (r : Result (AgentRunLog × List ℕ)) (s t : Session)
      → self.autocommit ≡ false
      → t.committed ≡ s.committed
      → Undone self s r (after_raise self r t)
  quiet-Undone (ok a) s t off h = (λ auto. absurd (ground arith), λ _. h)
  quiet-Undone (err e) s t off h = rw off (h, λ auto. absurd (ground arith))

  guarded-Undone :
      (rs : List MutationReceipt) (run : AgentRunLog) (s : Session)
      → Undone self s (guarded self (body rs run) s).0 (guarded self (body rs run) s).1
  unfolding guarded
  guarded-Undone rs run s = elim (Bool-cases self.autocommit) [
    | inl auto ↦
        whole-Undone (body rs run s).0 s (body rs run s).1 auto ((body-IsWhole rs run auto).ends s)
    | inr off ↦
        quiet-Undone (body rs run s).0 s (body rs run s).1 off ((body-IsQuiet rs run off).keeps s)
  ]

  refused-Undone : (e : Error) (s : Session) → Undone self s (err e) s
  refused-Undone e s = (refl, λ _. inl refl)

  abbrev pub AllUndone : M (AgentRunLog × List ℕ) → Type 0
  AllUndone m = (s : Session) → Undone self s (m s).0 (m s).1

  lift-Undone :
      {A : Type 0} (r : Result A) (k : A → M (AgentRunLog × List ℕ))
      → ((a : A) → AllUndone (k a))
      → AllUndone (lift r >>= k)
  unfolding lift ◌>>=◌
  lift-Undone (ok a) k h s = h a s
  lift-Undone (err e) k h s = refused-Undone e s

  raise_if-Undone :
      (b : Bool) (e : Error) (k : M (AgentRunLog × List ℕ))
      → AllUndone k
      → AllUndone (raise_if b e >> k)
  unfolding raise_if ◌>>=◌
  raise_if-Undone true e k h s = refused-Undone e s
  raise_if-Undone false e k h s = h s

  -- `undo`, on any session and for any answers of the database: if it raises, nothing was committed, and
  -- a service that commits leaves the session as it was or rolled back; if it returns, a service that
  -- commits has committed all that the session shows, and the other has committed nothing.
  pub undo_is_atomic :
      (runs : List AgentRunLog) (conversation : ℕ) (s : Session)
      → Undone self s (undo self runs conversation s).0 (undo self runs conversation s).1
  unfolding undo
  undo_is_atomic runs conversation s =
      lift-Undone (available (eligible_run conversation runs)) _
        (λ run.
          raise_if-Undone _ _ _
            (raise_if-Undone _ _ _ (raise_if-Undone _ _ _ (λ t. guarded-Undone _ run t))))
        s
