-- ===== src/Inventory/Atomic.antt =====
-- Every operation of services/inventory.py is atomic: run on a valid inventory it either raises
-- and leaves the session as it was or rolled back, or it returns and the inventory is valid.
pub mod Locations
pub mod Tags
pub mod Split
pub mod Facts
pub mod Moves
pub mod Lifecycle
pub mod Creation
pub mod Nodes
pub mod Paths
pub mod Photos
use ah_there_it_is.Base.{
  ℕ, ◌≡◌, refl, ◌⊎◌, inl, inr, Bool, true, false, Option, none, some, List, arith, find, contains,
  if◌then◌else◌,
}
use ah_there_it_is.Domain.States.{LocationStatus, ItemState, ok}
use ah_there_it_is.Db.{
  Db, Node, Item, Event, Change, Transition, Removal, Model, nodes, node_id, item_id,
}
use ah_there_it_is.Session.{M, Session, Service, ◌>>=◌, ◌>>◌, pure, commit}
use ah_there_it_is.Session.Rules.{Triple, At, Fails, pure_at, commit_at}
use ah_there_it_is.Inventory.Valid.{IsValid}

-- the keys of the database are new
abbrev pub IsFresh : Service → Type 0
IsFresh self = (ids : List ℕ) → contains ids (self.fresh ids) ≡ false

-- how a method ends that returns: an autocommitting service has committed what it shows, or did
-- nothing; the other service has committed nothing
pub record Settled (self : Service) (s0 s : Session) : Type 0 where
  pub auto : self.autocommit ≡ true → (s ≡ s0) ⊎ (s.committed ≡ s.working)
  pub manual : self.autocommit ≡ false → s.committed ≡ s0.committed

-- a returned item is the row that is stored
pub record Done (self : Service) (s0 : Session) (i : Item) (s : Session) : Type 0 where
  pub valid : IsValid s.working
  pub stored : find item_id i.id s.working.items ≡ some i
  pub settled : Settled self s0 s

-- the same of the operations that return another row
pub record Kept (self : Service) (s0 s : Session) : Type 0 where
  pub valid : IsValid s.working
  pub settled : Settled self s0 s

module _ (self : Service) (s0 : Session) where
  pub same_Settled : Settled self s0 s0
  same_Settled = record { auto = λ _. inl refl; manual = λ _. refl }

  -- nothing was done
  pub unchanged_rule :
      (i : Item)
      → IsValid s0.working
      → find item_id i.id s0.working.items ≡ some i
      → Triple (At s0 s0.working) (pure i) (Done self s0) (Fails s0)
  unchanged_rule i v row =
      pure_at s0 s0.working i (record { valid = v; stored = row; settled = same_Settled })

  pub commit_rule :
      (d : Db) (i : Item)
      → IsValid d
      → find item_id i.id d.items ≡ some i
      → Triple (At s0 d) (commit self >> pure i) (Done self s0) (Fails s0)
  commit_rule d i v row =
      commit_at s0 self d i
        (λ a. record {
          valid = v;
          stored = row;
          settled = record { auto = λ _. inr refl; manual = λ b. cc };
        })
        (λ b. record {
          valid = v;
          stored = row;
          settled = record { auto = λ a. cc; manual = λ _. refl };
        })

  pub kept_unchanged_rule :
      {B : Type 0} (b : B)
      → IsValid s0.working
      → Triple (At s0 s0.working) (pure b) (λ _. Kept self s0) (Fails s0)
  kept_unchanged_rule b v = pure_at s0 s0.working b (record { valid = v; settled = same_Settled })

  pub kept_rule :
      {B : Type 0} (d : Db) (b : B)
      → IsValid d
      → Triple (At s0 d) (commit self >> pure b) (λ _. Kept self s0) (Fails s0)
  kept_rule d b v =
      commit_at s0 self d b
        (λ a. record { valid = v; settled = record { auto = λ _. inr refl; manual = λ c. cc } })
        (λ a. record { valid = v; settled = record { auto = λ c. cc; manual = λ _. refl } })
