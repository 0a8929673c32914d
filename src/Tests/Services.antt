-- ===== src/Tests/Services.antt =====
-- An inventory service with concrete parameters: names are stripped, the next key is one more
-- than the largest key, and the database accepts everything.
use Prim.Native.Nat.{max}
use ah_there_it_is.Base.{ℕ, suc, ◌<◌, ◌≡◌, refl, true, false, List, [], ◌∷◌, contains, arith}
use ah_there_it_is.Text.{strip}
use ah_there_it_is.Domain.States.{ok}
use ah_there_it_is.Session.{Names, Service}
use ah_there_it_is.Inventory.Atomic.{IsFresh}

abbrev pub plain_names : Names
unfolding strip
plain_names = record {
  display_name = strip;
  location_display_name = strip;
  normalize_name = strip;
  location_phrase = λ _. ok false;
}

abbrev pub largest : List ℕ → ℕ
largest [] = 0
largest (x ∷ xs) = max x (largest xs)

abbrev pub plain : Service
plain = record {
  names = plain_names;
  autocommit = true;
  accepts = λ _. true;
  fresh = λ ids. suc (largest ids);
}

above_largest : (ids : List ℕ) (k : ℕ) → largest ids < k → contains ids k ≡ false
above_largest [] k h = refl
above_largest (x ∷ xs) k h = ground (arith, above_largest xs k)

pub plain-IsFresh : IsFresh plain
plain-IsFresh ids = above_largest ids (suc (largest ids)) (omega arith)
