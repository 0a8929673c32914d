-- ===== src/Inventory/Photos.antt =====
-- services/inventory.py: the photo references of an item.
use ah_there_it_is.Base.{
  ℕ, Bool, true, false, ◌&&◌, ◌||◌, Option, none, some, List, [], ◌∷◌, ◌++◌, map, any, find, select,
  replace, remove, is_some, ◌==◌, ltb, if◌then◌else◌,
}
use ah_there_it_is.Text.{Text, text_eq, text_option_eq}
use ah_there_it_is.Domain.States.{Error, Result, ok, err}
use ah_there_it_is.Domain.Quantity.{ℤ}
use ah_there_it_is.Db.{
  Db, Media, media_id, item_photo_attached, item_photo_updated, item_photo_detached,
}
use ah_there_it_is.Session.{
  M, Service, ◌>>=◌, ◌>>◌, pure, query, lift, modify, flush, commit, add_event,
}
use ah_there_it_is.Inventory.Checks.{
  get_item, get_media, validated_media_text, validated_media_position, validated_media_caption,
}
use ah_there_it_is.Inventory.Moves.{event_of}

abbrev pub add_media : Media → Db → Db
add_media m d = record d { media = d.media ++ m ∷ [] }

abbrev pub save_media : Media → Db → Db
save_media m d = record d { media = replace media_id m d.media }

abbrev pub delete_media : ℕ → Db → Db
delete_media k d = record d { media = remove media_id k d.media }

-- the query of `_ensure_media_reference_available`
abbrev pub same_reference : ℕ → Text → Text → Media → Bool
same_reference item provider reference m =
    m.item_id == item && text_eq m.provider provider && text_eq m.media_reference reference

-- `_ensure_media_reference_available`
unfoldable pub ensure_reference : ℕ → Text → Text → Db → Result (Unit {0})
ensure_reference item provider reference d =
    if any (same_reference item provider reference) d.media
    then err Error.duplicate_entity
    else ok tt

-- the row that `attach_item_photo` and `restore_item_photo` add, with its event
unfoldable pub insert_photo : Service → Media → Bool → M Media
insert_photo self m undo_restore = do
  modify (add_media m)
  flush self
  modify (add_event (event_of m.item_id (item_photo_attached m undo_restore) none))
  commit self
  pure m

-- `attach_item_photo`
unfoldable pub attach_item_photo : Service → ℕ → Text → Text → Option Text → ℤ → M Media
attach_item_photo self k provider reference caption position = do
  item ← query (get_item k)
  provider' ← lift (validated_media_text provider 100)
  reference' ← lift (validated_media_text reference 1000)
  caption' ← lift (validated_media_caption caption)
  position' ← lift (validated_media_position position)
  query (ensure_reference item.id provider' reference')
  keys ← query (λ d. ok (map media_id d.media))
  insert_photo self
      (record {
        id = self.fresh keys;
        item_id = item.id;
        provider = provider';
        media_reference = reference';
        caption = caption';
        position = position';
      })
      false

-- `restore_item_photo`
unfoldable pub restore_item_photo : Service → ℕ → ℕ → Text → Text → Option Text → ℤ → M Media
restore_item_photo self key k provider reference caption position = do
  item ← query (get_item k)
  provider' ← lift (validated_media_text provider 100)
  reference' ← lift (validated_media_text reference 1000)
  caption' ← lift (validated_media_caption caption)
  position' ← lift (validated_media_position position)
  query (λ d. if is_some (find media_id key d.media) then err Error.duplicate_entity else ok tt)
  query (ensure_reference item.id provider' reference')
  insert_photo self
      (record {
        id = key;
        item_id = item.id;
        provider = provider';
        media_reference = reference';
        caption = caption';
        position = position';
      })
      true

-- the order of `list_item_photos`: by position, then by key
abbrev pub shown_before : Media → Media → Bool
shown_before a b = ltb a.position b.position || (a.position == b.position && ltb a.id b.id)

insert_shown : Media → List Media → List Media
insert_shown m [] = m ∷ []
insert_shown m (x ∷ xs) = if shown_before x m then x ∷ insert_shown m xs else m ∷ x ∷ xs

sort_shown : List Media → List Media
unfolding insert_shown
sort_shown [] = []
sort_shown (m ∷ ms) = insert_shown m (sort_shown ms)

-- `list_item_photos`
unfoldable pub list_item_photos : ℕ → Db → Result (List Media)
unfolding sort_shown
list_item_photos k d = elim (get_item k d) [
  | ok i ↦ ok (sort_shown (select (λ (m : Media). m.item_id == k) d.media))
  | err e ↦ err e
]

abbrev pub target_position : Media → Option ℤ → Result ℕ
target_position m none = ok m.position
target_position m (some p) = validated_media_position p

abbrev pub target_caption : Media → Option (Option Text) → Result (Option Text)
target_caption m none = validated_media_caption m.caption
target_caption m (some c) = validated_media_caption c

-- `update_item_photo`; an outer `none` is `_UNSET`
unfoldable pub update_item_photo : Service → ℕ → Option (Option Text) → Option ℤ → M Media
update_item_photo self key caption position = do
  m ← query (get_media key)
  caption' ← lift (target_caption m caption)
  position' ← lift (target_position m position)
  if text_option_eq caption' m.caption && position' == m.position then pure m else do
    let after : Media = record m { caption = caption'; position = position' }
    modify (save_media after)
    flush self
    modify (add_event (event_of m.item_id (item_photo_updated m after) none))
    commit self
    pure after

-- `detach_item_photo`
unfoldable pub detach_item_photo : Service → ℕ → M Media
detach_item_photo self key = do
  m ← query (get_media key)
  modify (add_event (event_of m.item_id (item_photo_detached m) none))
  modify (delete_media key)
  commit self
  pure m
