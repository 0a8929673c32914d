-- ===== src/Portable/Simulation.antt =====
-- portable_stream.py: two streams that agree character by character, and the outcomes of a program on them.
use ah_there_it_is.Base.{ℕ, ◌≡◌, refl, ap, Option}
use ah_there_it_is.Portable.Programs.{
  Program, returns, fails, exhausted, peeks, takes, appends, Read, got, Source, Ended, read,
  refused, undecodable, out_of_fuel, Workspace, append, run,
}

-- the outcome without the state of the stream
unfoldable pub outcome : {A S : Type 0} → Ended A S → Ended A (Unit {0})
outcome (read a s w) = read a tt w
outcome (refused detail n) = refused detail n
outcome undecodable = undecodable
outcome out_of_fuel = out_of_fuel

-- both give one character, and related streams
abbrev pub Agree : {S T : Type 0} → (S → T → Type 0) → Read S → Read T → Type 0
Agree {S} {T} R x y = (c : Option ℕ) × (s : S) × (t : T) × (x ≡ got c s) × (y ≡ got c t) × R s t

-- a relation of two streams that every operation keeps
pub record Simulation (S T : Type 0) (source : Source S) (model : Source T) (R : S → T → Type 0)
    : Type 0 where
  pub peeks_agree : (s : S) (t : T) → R s t → Agree R (source.peek s) (model.peek t)
  pub takes_agree : (s : S) (t : T) → R s t → Agree R (source.take s) (model.take t)
  pub offsets_agree : (s : S) (t : T) → R s t → source.offset s ≡ model.offset t

module _ {S T : Type 0} (source : Source S) (model : Source T) (R : S → T → Type 0)
    (simulation : Simulation S T source model R) where
  pub run-agrees :
      {A : Type 0} (p : Program A) (s : S) (t : T) (w : Workspace)
      → R s t
      → outcome (run source p s w) ≡ outcome (run model p t w)
  unfolding run outcome
  run-agrees (returns a) s t w r = refl
  run-agrees (fails detail) s t w r = ap (refused detail) (simulation.offsets_agree s t r)
  run-agrees exhausted s t w r = refl
  run-agrees (peeks k) s t w r =
      let (c, s', t', p, q, r') = simulation.peeks_agree s t r in
      rw (p, q, run) (run-agrees (k c) s' t' w r')
  run-agrees (takes k) s t w r =
      let (c, s', t', p, q, r') = simulation.takes_agree s t r in
      rw (p, q, run) (run-agrees (k c) s' t' w r')
  run-agrees (appends section value p) s t w r = run-agrees p s t (append section value w) r
