-- ===== src/Session.antt =====
-- The session of `InventoryService` (services/inventory.py) and its transaction: what the session
-- shows, what is committed, and methods that may raise. A raise keeps what was written before it,
-- until somebody rolls back. The database engine is a parameter.
pub mod Rules
use ah_there_it_is.Base.{ℕ, Bool, true, false, Option, none, some, List, [], ◌∷◌, if◌then◌else◌}
use ah_there_it_is.Text.{Text, is_blank}
use ah_there_it_is.Domain.States.{Error, Result, ok, err}
use ah_there_it_is.Db.{Db, Event}

-- domain/names.py and domain/russian_semantics.py, as the services call them:
-- `canonicalize_name(name).display_name`, the same of `canonicalize_location_name`,
-- `normalize_name`, and whether `parse_location_phrase` returns a phrase (it may raise)
pub record Names : Type 0 where
  pub display_name : Text → Text
  pub location_display_name : Text → Text
  pub normalize_name : Text → Text
  pub location_phrase : Text → Result Bool

-- `self` of the service: `accepts d` says that a flush or a commit of `d` meets no constraint or
-- I/O error, and `fresh ids` is the key that the database gives a new row
pub record Service : Type 0 where
  pub names : Names
  pub autocommit : Bool
  pub accepts : Db → Bool
  pub fresh : List ℕ → ℕ

-- `canonicalize_name(value).comparison_key`
abbrev pub comparison_key : Names → Text → Text
comparison_key names value =
    let display = names.display_name value in
    if is_blank display then [] else names.normalize_name display

abbrev pub location_key : Names → Text → Text
location_key names value =
    let display = names.location_display_name value in
    if is_blank display then [] else names.normalize_name display

pub record Session : Type 0 where
  pub working : Db
  pub committed : Db

abbrev pub M : Type 0 → Type 0
M A = Session → Result A × Session

abbrev pub continue : {A B : Type 0} → Result A → (A → M B) → M B
continue (ok a) f s = f a s
continue (err e) f s = (err e, s)

infixl 5 ◌>>=◌ ◌>>◌
unfoldable pub ◌>>=◌ : {A B : Type 0} → M A → (A → M B) → M B
◌>>=◌ m f s = let (r, s') = m s in continue r f s'

abbrev pub ◌>>◌ : {B : Type 0} → M (Unit {0}) → M B → M B
m >> k = m >>= λ _. k

unfoldable pub pure : {A : Type 0} → A → M A
pure a s = (ok a, s)

-- a check or a query: it reads what the session shows, and may raise
unfoldable pub query : {A : Type 0} → (Db → Result A) → M A
query f s = (f s.working, s)

unfoldable pub lift : {A : Type 0} → Result A → M A
lift r s = (r, s)

unfoldable pub raise_if : Bool → Error → M (Unit {0})
raise_if b e s = (if b then err e else ok tt, s)

unfoldable pub modify : (Db → Db) → M (Unit {0})
modify f s = (ok tt, record s { working = f s.working })

abbrev pub rolled_back : Session → Session
rolled_back s = record s { working = s.committed }

-- `session.flush()`: a failed flush rolls the transaction back
unfoldable pub flush : Service → M (Unit {0})
flush self s =
    if self.accepts s.working then (ok tt, s) else (err Error.integrity_error, rolled_back s)

-- `InventoryService._commit`
unfoldable pub commit : Service → M (Unit {0})
unfolding flush
commit self s =
    if self.accepts s.working
    then (ok tt, if self.autocommit then record s { committed = s.working } else s)
    else (err Error.integrity_error, rolled_back s)

abbrev pub after_raise : {A : Type 0} → Service → Result A → Session → Session
after_raise self (ok _) s = s
after_raise self (err _) s = if self.autocommit then rolled_back s else s

-- `try: … except Exception: if self.autocommit: self.session.rollback(); raise`
unfoldable pub guarded : {A : Type 0} → Service → M A → M A
guarded self m s = let (r, s') = m s in (r, after_raise self r s')

-- `session.add(Event(…))`
abbrev pub add_event : Event → Db → Db
add_event e d = record d { events = e ∷ d.events }
