-- ===== src/Telegram/Polling.antt =====
-- telegram/polling.py, and next_offset and acknowledge_update of telegram/adapter.py. What the adapter
-- does with an update is a parameter; it may depend on the updates handled so far, and may raise, and so
-- may the storing of an offset.
use Prim.Native.Nat.{max}
use ah_there_it_is.Base.{
  ℕ, suc, Bool, true, false, Option, none, some, List, [], ◌∷◌, ltb, length, if◌then◌else◌,
}
use ah_there_it_is.Chat.Store.{Ending, done, lost, uncertain}

-- `TelegramUpdate`: its key, and whether it has a `callback_query`
pub record Update : Type 0 where
  pub update_id : ℕ
  pub has_callback : Bool

-- how a call of the adapter ends: it returns a result, which is `accepted` or not, or raises
pub data Handling : Type 0 where
  returned : Bool → Handling
  raised : Handling

pub record Adapter : Type 0 where
  pub accepts : Update → Bool
  pub process_update : List ℕ → Update → Handling
  pub process_callback_update : List ℕ → Update → Handling
  pub store_offset : List ℕ → ℕ → Ending

-- the row of `TelegramPollingState`, the keys of the updates whose handling returned, newest first, and those
-- of them whose acknowledgement raised and was not stored
pub record Polling : Type 0 where
  pub state : Option ℕ
  pub handled : List ℕ
  pub unstored : List ℕ

-- `next_offset`
abbrev pub next_offset : Polling → ℕ
next_offset s = elim s.state [ none ↦ 0 | some k ↦ k ]

abbrev pub with_offset : ℕ → Polling → Polling
with_offset k s = record s { state = some (max (next_offset s) (suc k)) }

-- `acknowledge_update` returns the new offset, or raises, when it is stored or not
abbrev pub acknowledged : Ending → ℕ → Polling → Option ℕ × Polling
acknowledged done k s = (some (next_offset (with_offset k s)), with_offset k s)
acknowledged lost k s = (none, record s { unstored = k ∷ s.unstored })
acknowledged uncertain k s = (none, with_offset k s)

abbrev pub acknowledge_update : Adapter → ℕ → Polling → Option ℕ × Polling
acknowledge_update a k s = acknowledged (a.store_offset s.handled k) k s

-- the handling of the update has returned
abbrev pub returned_from : ℕ → Polling → Polling
returned_from k s = record s { handled = k ∷ s.handled }

-- `sorted(updates, key=…)`
unfoldable pub insert_update : Update → List Update → List Update
insert_update u [] = u ∷ []
insert_update u (v ∷ vs) =
    let rest = insert_update u vs in if ltb v.update_id u.update_id then v ∷ rest else u ∷ v ∷ vs

unfoldable pub ordered : List Update → List Update
ordered [] = []
ordered (u ∷ us) = insert_update u (ordered us)

-- the call that the loop makes for one update
abbrev pub handling : Adapter → Update → Polling → Handling
handling a u s =
    if u.has_callback then a.process_callback_update s.handled u else a.process_update s.handled u

pub record Counts : Type 0 where
  pub processed : ℕ
  pub discarded : ℕ

-- which counter an update adds to
abbrev pub counts_as_processed : Adapter → Update → Bool → Bool
counts_as_processed a u accepted = if u.has_callback then accepted else a.accepts u

abbrev pub counted : Bool → Counts → Counts
counted true c = record c { processed = suc c.processed }
counted false c = record c { discarded = suc c.discarded }

-- what follows an acknowledgement that returns
abbrev pub go_on :
    Option ℕ × Polling → (ℕ → Polling → Option Counts × Polling) → Option Counts × Polling
go_on (none, s) f = (none, s)
go_on (some next, s) f = f next s

-- the loop of `run_once`; `none` is an exception, of the handling or of the acknowledgement
unfoldable pub loop : Adapter → List Update → ℕ → Counts → Polling → Option Counts × Polling
loop a [] offset c s = (some c, s)
loop a (u ∷ us) offset c s =
    let skipped = loop a us offset c s in
    let after = λ (accepted : Bool) (next : ℕ) (s' : Polling).
      loop a us next (counted (counts_as_processed a u accepted) c) s' in
    if ltb u.update_id offset then skipped else elim (handling a u s) [
      | returned accepted ↦
          go_on (acknowledge_update a u.update_id (returned_from u.update_id s)) (after accepted)
      | raised ↦ (none, s)
    ]

pub record PollResult : Type 0 where
  pub fetched : ℕ
  pub counts : Counts
  pub next : ℕ

abbrev pub poll_result : List Update → Option Counts → Polling → Option PollResult
poll_result updates none s = none
poll_result updates (some c) s =
    some (record { fetched = length updates; counts = c; next = next_offset s })

-- `run_once` on what `get_updates` returned
unfoldable pub run_once : Adapter → List Update → Polling → Option PollResult × Polling
run_once a updates s =
    let (r, s') =
      loop a (ordered updates) (next_offset s) (record { processed = 0; discarded = 0 }) s in
    (poll_result updates r s', s')

-- `run_forever` until it is stopped or raises, with what each call of `get_updates` returned
unfoldable pub run_forever : Adapter → List (List Update) → Polling → Polling
run_forever a [] s = s
run_forever a (batch ∷ batches) s =
    let (r, s') = run_once a batch s in
    let rest = run_forever a batches s' in elim r [ none ↦ s' | some _ ↦ rest ]
