-- ===== src/Inventory/Requests/Runs.antt =====
-- Whatever is asked of services/inventory.py: each request is atomic, and every session that a
-- sequence of requests reaches is valid.
use ah_there_it_is.Base.{ℕ, ◌≡◌, refl, sym, subst, inl, inr, some, List, [], ◌∷◌, find, Bool-cases}
use ah_there_it_is.Domain.States.{Result, ok, err}
use ah_there_it_is.Db.{Item, Node, Model, nodes, node_id, item_id, empty, PathPart}
use ah_there_it_is.Session.{M, Session, Service, ◌>>=◌, pure}
use ah_there_it_is.Session.Rules.{Triple, Outcome, At, Fails, bind_rule}
use ah_there_it_is.Inventory.Checks.{history_path}
use ah_there_it_is.Inventory.Forest.{IsPath}
use ah_there_it_is.Inventory.Forest.Climb.{history_path-IsPath}
use ah_there_it_is.Inventory.Valid.{IsValid, placed, place_of}
use ah_there_it_is.Inventory.Atomic.{IsFresh, Done, Kept}
use ah_there_it_is.Inventory.Atomic.Facts.{IsPart}
use ah_there_it_is.Inventory.Atomic.Moves.{
  move_item_rule, take_item_rule, mark_item_location_unknown_rule,
}
use ah_there_it_is.Inventory.Atomic.Lifecycle.{
  remove_item_rule, restore_item_rule, change_item_quantity_rule,
}
use ah_there_it_is.Inventory.Atomic.Creation.{create_item_rule, update_item_rule}
use ah_there_it_is.Inventory.Atomic.Nodes.{create_node_rule, update_node_rule, IsTree-of}
use ah_there_it_is.Inventory.Atomic.Paths.{create_location_path_rule}
use ah_there_it_is.Inventory.Atomic.Photos.{
  attach_item_photo_rule, restore_item_photo_rule, update_item_photo_rule, detach_item_photo_rule,
}
use ah_there_it_is.Inventory.Requests.{
  Request, Reply, execute, serve, create_tree_node, create_path, change_tree_node, create, update,
  move, take, mark_unknown, remove, restore, change_quantity, attach_photo, restore_photo,
  update_photo, detach_photo,
}

-- a quantity object in a request was validated when it was built
abbrev pub IsRequest : Request → Type 0
IsRequest (move k location portion text) = IsPart portion
IsRequest (take k portion text) = IsPart portion
IsRequest (remove k reason source portion text) = IsPart portion
IsRequest _ = Unit

module _ (self : Service) (s0 : Session) where
  answer :
      {A : Type 0} (m : M A) (reply : A → Reply)
      → Triple (At s0 s0.working) m (λ _. Kept self s0) (Fails s0)
      → Triple (At s0 s0.working) (m >>= λ a. pure (reply a)) (λ _. Kept self s0) (Fails s0)
  unfolding pure
  answer m reply h = bind_rule (λ _. Kept self s0) h (λ a. record { at = λ s k. k })

  item-Outcome :
      (r : Result Item) (s : Session)
      → Outcome (Done self s0) (Fails s0) r s
      → Outcome (λ _. Kept self s0) (Fails s0) r s
  item-Outcome (ok i) s h = record { valid = h.valid; settled = h.settled }
  item-Outcome (err e) s h = h

  kept_item :
      (m : M Item)
      → Triple (At s0 s0.working) m (Done self s0) (Fails s0)
      → Triple (At s0 s0.working) m (λ _. Kept self s0) (Fails s0)
  kept_item m h = record { at = λ s p. item-Outcome (m s).0 (m s).1 (h.at s p) }

  execute_rule :
      (r : Request)
      → IsFresh self
      → IsValid s0.working
      → IsRequest r
      → Triple (At s0 s0.working) (execute self r) (λ _. Kept self s0) (Fails s0)
  unfolding execute
  execute_rule (create_tree_node m name parent description) fresh v ok_r =
      answer _ _ (create_node_rule self s0 v m name parent description)
  execute_rule (create_path names parent reuse description) fresh v ok_r =
      answer _ _ (create_location_path_rule self fresh s0 v names parent reuse description)
  execute_rule (change_tree_node m k patch) fresh v ok_r =
      answer _ _ (update_node_rule self s0 v m k patch)
  execute_rule (create args) fresh v ok_r =
      answer _ _ (kept_item _ (create_item_rule self fresh s0 v args))
  execute_rule (update k patch) fresh v ok_r =
      answer _ _ (kept_item _ (update_item_rule self s0 k patch v))
  execute_rule (move k location portion text) fresh v ok_r =
      answer _ _ (kept_item _ (move_item_rule self fresh s0 v k location portion text ok_r))
  execute_rule (take k portion text) fresh v ok_r =
      answer _ _ (kept_item _ (take_item_rule self fresh s0 v k portion text ok_r))
  execute_rule (mark_unknown k text) fresh v ok_r =
      answer _ _ (kept_item _ (mark_item_location_unknown_rule self fresh s0 v k text))
  execute_rule (remove k reason source portion text) fresh v ok_r =
      answer _ _ (kept_item _ (remove_item_rule self fresh s0 v k reason source portion text ok_r))
  execute_rule (restore k state location text) fresh v ok_r =
      answer _ _ (kept_item _ (restore_item_rule self fresh s0 v k state location text))
  execute_rule (change_quantity k mode value reason source text) fresh v ok_r =
      answer _ _
        (kept_item _ (change_item_quantity_rule self fresh s0 v k mode value reason source text))
  execute_rule (attach_photo k provider reference caption position) fresh v ok_r =
      answer _ _ (attach_item_photo_rule self s0 v k provider reference caption position)
  execute_rule (restore_photo key k provider reference caption position) fresh v ok_r =
      answer _ _ (restore_item_photo_rule self s0 v key k provider reference caption position)
  execute_rule (update_photo key caption position) fresh v ok_r =
      answer _ _ (update_item_photo_rule self s0 v key caption position)
  execute_rule (detach_photo key) fresh v ok_r = answer _ _ (detach_item_photo_rule self s0 v key)

-- Every operation of the service, on a valid inventory, with new keys from the database and for
-- any other answers of it, and for a quantity object that was validated when it was built,
-- either raises and leaves the session as it was or rolled back to what is committed, or
-- returns; then the inventory is valid, an autocommitting service has committed what it shows or
-- has done nothing, and a service that does not autocommit has committed nothing.
pub execute_is_atomic :
    (self : Service) (r : Request) (s : Session)
    → IsFresh self
    → IsValid s.working
    → IsRequest r
    → Outcome (λ _. Kept self s) (Fails s) (execute self r s).0 (execute self r s).1
execute_is_atomic self r s fresh v ok_r = (execute_rule self s r fresh v ok_r).at s refl

-- what the session shows and what is committed
pub record IsSound (s : Session) : Type 0 where
  pub working : IsValid s.working
  pub committed : IsValid s.committed

Outcome-IsSound :
    (self : Service) (s0 : Session) (r : Result Reply) (s : Session)
    → IsSound s0
    → Outcome (λ _. Kept self s0) (Fails s0) r s
    → IsSound s
Outcome-IsSound self s0 (ok a) s h k = elim (Bool-cases self.autocommit) [
  | inl auto ↦ elim (k.settled.auto auto) [
    | inl same ↦ subst IsSound (sym same) h
    | inr shown ↦ record { working = k.valid; committed = subst IsValid (sym shown) k.valid }
  ]
  | inr manual ↦ record {
    working = k.valid;
    committed = subst IsValid (sym (k.settled.manual manual)) h.committed;
  }
]
Outcome-IsSound self s0 (err e) s h (inl p) = subst IsSound (sym p) h
Outcome-IsSound self s0 (err e) s h (inr p) =
    subst IsSound (sym p) (record { working = h.committed; committed = h.committed })

-- All requests of a run are well formed.
abbrev pub AreRequests : List Request → Type 0
AreRequests [] = Unit
AreRequests (r ∷ rs) = IsRequest r × AreRequests rs

-- With new keys from the database, every session that a run of well-formed requests reaches from
-- a sound one is sound, errors included: what it shows and what is committed are valid
-- inventories.
pub serve-IsSound :
    (self : Service) (rs : List Request) (s : Session)
    → IsFresh self
    → AreRequests rs
    → IsSound s
    → IsSound (serve self rs s)
unfolding serve
serve-IsSound self [] s fresh all h = h
serve-IsSound self (r ∷ rs) s fresh all h = serve-IsSound self rs (execute self r s).1 fresh all.1 (
    Outcome-IsSound self s (execute self r s).0 (execute self r s).1 h
      (execute_is_atomic self r s fresh h.working all.0))

empty-IsValid : IsValid empty
unfolding find
empty-IsValid = record {
  truthful = tt;
  explained = λ k i found _. absurd (cc);
  categories = record { forest = λ k n e. absurd (cc); distinct = λ k j n m e f p q. absurd (cc) };
  locations = record { forest = λ k n e. absurd (cc); distinct = λ k j n m e f p q. absurd (cc) };
}

abbrev pub fresh_start : Session
fresh_start = record { working = empty; committed = empty }

pub fresh_start-IsSound : IsSound fresh_start
fresh_start-IsSound = record { working = empty-IsValid; committed = empty-IsValid }

-- From an empty inventory, with new keys from the database, after any well-formed requests, the
-- event history gives the location and the status of every item.
pub history_explains :
    (self : Service) (rs : List Request) (k : ℕ) (i : Item)
    → IsFresh self
    → AreRequests rs
    → find item_id k (serve self rs fresh_start).working.items ≡ some i
    → placed k (serve self rs fresh_start).working.events ≡ some (place_of i)
history_explains self rs k i fresh all found =
    (serve-IsSound self rs fresh_start fresh all fresh_start-IsSound).working.explained k i found
      (λ n. elim n [ ])

-- From an empty inventory, with new keys from the database, after any well-formed requests, the
-- history path of every location and category that is stored is returned, and it names the nodes
-- from a root down to it.
pub paths_exist :
    (self : Service) (rs : List Request) (m : Model) (n : Node)
    → IsFresh self
    → AreRequests rs
    → find node_id n.id (nodes m (serve self rs fresh_start).working) ≡ some n
    → (path : List PathPart) × (history_path m (some n) (serve self rs fresh_start).working
        ≡ ok (some path))
      × IsPath (nodes m (serve self rs fresh_start).working) (some n.id) path
paths_exist self rs m n fresh all row =
    let v = (serve-IsSound self rs fresh_start fresh all fresh_start-IsSound).working in
    history_path-IsPath m (serve self rs fresh_start).working n
      (IsTree-of m (serve self rs fresh_start).working v).forest row
