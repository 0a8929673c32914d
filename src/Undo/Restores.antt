-- ===== src/Undo/Restores.antt =====
-- services/undo.py: a compensation restores an item that did not change since the turn.
use ah_there_it_is.Base.{
  ℕ, ◌≡◌, refl, sym, ◌∙◌, subst, Bool, true, false, Option, none, some, List, [], ◌∷◌, map, ◌==◌,
  find, replace, find-replace, option_eq_iff, arith,
}
use ah_there_it_is.Text.{Text, text_eq_iff, text_option_eq}
use ah_there_it_is.Domain.States.{state_index, status_index, mode_index, ok}
use ah_there_it_is.Db.{Db, Item, Snapshot, Event, item_id}
use ah_there_it_is.Session.{Session, Service, pure, add_event}
use ah_there_it_is.Inventory.Checks.{normalized_nonblank}
use ah_there_it_is.Inventory.Items.{save_item}
use ah_there_it_is.Inventory.Progress.{query_ok, lift_ok, after_ok, modify_ok, modify_eq}
use ah_there_it_is.Inventory.Moves.{alias_name, tag_names}
use ah_there_it_is.Receipts.{MutationReceipt, Operation}
use ah_there_it_is.Undo.Snapshots.{
  snapshot, snapshot_eq, texts_eq, restore_snapshot, restore_aliases, restore_tags, assigned,
  undo_event,
}
use ah_there_it_is.Undo.Compensate.{
  matches_after, check_items, compensate_item, undo_change, item_evidence, source_id, is_creation,
}

texts_eq_refl : (ts : List Text) → texts_eq ts ts ≡ true
unfolding texts_eq
texts_eq_refl [] = refl
texts_eq_refl (t ∷ ts) = rw ((text_eq_iff t t).1 refl) (texts_eq_refl ts)

text_option_eq_refl : (t : Option Text) → text_option_eq t t ≡ true
text_option_eq_refl none = refl
text_option_eq_refl (some t) = (text_eq_iff t t).1 refl

number_eq_refl : (n : ℕ) → (n == n) ≡ true
number_eq_refl n = ground arith

snapshot_eq_refl : (a : Snapshot) → snapshot_eq a a ≡ true
unfolding snapshot_eq
snapshot_eq_refl a =
    rw
      (
        number_eq_refl a.id,
        (text_eq_iff a.name a.name).1 refl,
        text_option_eq_refl a.description,
        number_eq_refl (state_index a.state),
        number_eq_refl (mode_index a.quantity_mode),
        (option_eq_iff a.quantity a.quantity).1 refl,
        text_option_eq_refl a.removal_reason,
        (option_eq_iff a.category_id a.category_id).1 refl,
        (option_eq_iff a.location_id a.location_id).1 refl,
        number_eq_refl (status_index a.location_status),
        (text_eq_iff a.attributes a.attributes).1 refl,
        texts_eq_refl a.aliases,
        texts_eq_refl a.tags,
      )
      refl

module _ (self : Service) (s : Session) (i j : Item) (aliases : i.aliases ≡ j.aliases)
    (tags : i.tag_ids ≡ j.tag_ids) (same_id : j.id ≡ i.id) where
  -- what the row becomes
  same_row : assigned j (snapshot s.working.tags i) i.normalized_name ≡ i
  same_row = cc

  aliases_kept : (t : Session) → restore_aliases self i (map alias_name i.aliases) t ≡ (ok i, t)
  unfolding restore_aliases pure
  aliases_kept t = rw (texts_eq_refl (map alias_name i.aliases)) refl

  tags_kept :
      (t : Session)
      → t.working.tags ≡ s.working.tags
      → restore_tags self i (tag_names s.working.tags i.tag_ids) t ≡ (ok i, t)
  unfolding restore_tags pure
  tags_kept t e =
      query_ok _ _ t (tag_names t.working.tags i.tag_ids) refl
      ∙ rw (e, texts_eq_refl (tag_names s.working.tags i.tag_ids)) refl

  abbrev pub target : Snapshot
  target = snapshot s.working.tags i

  abbrev row : Item
  row = assigned j target i.normalized_name

  abbrev renamed_row : Item
  renamed_row = record j { name = i.name }

  abbrev pub restored_rows : Session
  restored_rows = record s { working = save_item row (save_item renamed_row s.working) }

  restore_run :
      (operation : Operation) (split : Bool) (run : ℕ)
      → normalized_nonblank self.names i.name ≡ ok i.normalized_name
      → restore_snapshot self j target operation split run s ≡ (
        ok tt,
        record s {
          working =
              add_event
                (undo_event row (snapshot s.working.tags j) target operation split run)
                restored_rows.working;
        },
      )
  unfolding restore_snapshot
  restore_run operation split run normal =
      query_ok _ _ s (snapshot s.working.tags j) refl
      ∙ modify_ok _ _ _
      ∙ lift_ok _ _ _ i.normalized_name normal
      ∙ modify_ok _ _ _
      ∙ after_ok _ _ restored_rows restored_rows row (
          subst
            (λ x.
              restore_aliases self x (map alias_name i.aliases) restored_rows
              ≡ (ok x, restored_rows))
            (sym same_row) (aliases_kept restored_rows))
      ∙ after_ok _ _ restored_rows restored_rows row (
          subst
            (λ x.
              restore_tags self x (tag_names s.working.tags i.tag_ids) restored_rows
              ≡ (ok x, restored_rows))
            (sym same_row) (tags_kept restored_rows refl))
      ∙ modify_eq _ restored_rows

  found_again :
      (k : ℕ)
      → find item_id k restored_rows.working.items
        ≡ find item_id k (replace item_id i s.working.items)
  found_again k =
      subst
        (λ x.
          find item_id k (replace item_id x (replace item_id renamed_row s.working.items))
          ≡ find item_id k (replace item_id i s.working.items))
        (sym same_row)
        (ground (
          arith,
          find-replace item_id k i (replace item_id renamed_row s.working.items),
          find-replace item_id k renamed_row s.working.items,
          find-replace item_id k i s.working.items,
        ))

-- A compensation of a receipt of a change of one item, that is no creation and no split, restores the item:
-- if the item is stored as the receipt records it after the turn, and the receipt's record before the turn
-- is the snapshot of a row with the same aliases and tags, and a name that is normalised as that row says,
-- then the compensation returns, the key of the item finds that row, every other key finds the row that it
-- found, and one event on the item is added.
pub compensation_restores :
    (self : Service) (s : Session) (i j : Item) (r : MutationReceipt) (run : ℕ)
    → i.aliases ≡ j.aliases
    → i.tag_ids ≡ j.tag_ids
    → j.id ≡ i.id
    → find item_id i.id s.working.items ≡ some j
    → r.affected_item_ids ≡ i.id ∷ []
    → is_creation r.operation ≡ false
    → r.split ≡ none
    → source_id r ≡ i.id
    → item_evidence i.id r.before ≡ some (snapshot s.working.tags i)
    → item_evidence i.id r.after ≡ some (snapshot s.working.tags j)
    → normalized_nonblank self.names i.name ≡ ok i.normalized_name
    → (e : Event) × (d : Db) × (compensate_item self r run s ≡ (ok tt, record s { working = d }))
      × ((k : ℕ) → find item_id k d.items ≡ find item_id k (replace item_id i s.working.items))
      × (find item_id i.id d.items ≡ some i)
      × (d.events ≡ e ∷ s.working.events)
      × (e.item_id ≡ i.id)
unfolding compensate_item check_items undo_change matches_after pure
compensation_restores self s i j r run aliases tags same_id stored affected changed whole source
      before after normal =
    let e =
      undo_event (row self s i j aliases tags same_id) (snapshot s.working.tags j)
        (snapshot s.working.tags i) r.operation false run in
    let matched : matches_after r i.id s.working ≡ ok tt =
      rw (after, stored, snapshot_eq_refl (snapshot s.working.tags j), matches_after) refl in
    let checked : check_items r r.affected_item_ids s ≡ (ok tt, s) =
      subst (λ ks. check_items r ks s ≡ (ok tt, s)) (sym affected) (query_ok _ _ s tt matched) in
    let kept = found_again self s i j aliases tags same_id in
    let own : find item_id i.id (replace item_id i s.working.items) ≡ some i =
      ground (arith, find-replace item_id i.id i s.working.items) in
    (
      e,
      add_event e (restored_rows self s i j aliases tags same_id).working,
      after_ok _ _ s s tt checked
          ∙ rw (changed, whole)
              (lift_ok _ _ s (snapshot s.working.tags i) (rw (source, before) refl)
                ∙ query_ok _ _ s j (rw (source, stored) refl)
                ∙ restore_run self s i j aliases tags same_id r.operation false run normal),
      kept,
      kept i.id ∙ own,
      refl,
      same_id,
    )
