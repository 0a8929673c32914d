-- ===== src/Inventory/Atomic/Photos.antt =====
-- The photo operations of services/inventory.py are atomic and keep the inventory valid.
use ah_there_it_is.Base.{ℕ, refl, Bool, true, false, ◌&&◌, Option, none, List, ◌==◌}
use ah_there_it_is.Text.{Text, text_option_eq}
use ah_there_it_is.Domain.Quantity.{ℤ}
use ah_there_it_is.Db.{Db, Media, item_photo_attached, item_photo_updated, item_photo_detached}
use ah_there_it_is.Session.{Session, Service, add_event}
use ah_there_it_is.Session.Rules.{
  Triple, At, Fails, query_start, lift_start, modify_at, flush_at, if_rule,
}
use ah_there_it_is.Inventory.Checks.{
  get_item, get_media, validated_media_text, validated_media_caption, validated_media_position,
}
use ah_there_it_is.Inventory.Moves.{event_of}
use ah_there_it_is.Inventory.Photos.{
  attach_item_photo, restore_item_photo, update_item_photo, detach_item_photo, insert_photo,
  ensure_reference, add_media, save_media, delete_media, target_caption, target_position,
}
use ah_there_it_is.Inventory.Valid.{IsValid, Nobody, IsOpen-event}
use ah_there_it_is.Inventory.Atomic.{Kept, kept_unchanged_rule, kept_rule}

-- the photos play no part
IsValid-media : (d : Db) (ms : List Media) → IsValid d → IsValid (record d { media = ms })
IsValid-media d ms v = record {
  truthful = v.truthful;
  explained = v.explained;
  categories = v.categories;
  locations = v.locations;
}

module _ (self : Service) (s0 : Session) (v : IsValid s0.working) where
  insert_photo_rule :
      (m : Media) (undo_restore : Bool)
      → Triple (At s0 s0.working) (insert_photo self m undo_restore) (λ _. Kept self s0) (Fails s0)
  unfolding insert_photo
  insert_photo_rule m undo_restore =
      let d = add_media m s0.working in
      let e = event_of m.item_id (item_photo_attached m undo_restore) none in
      modify_at s0 s0.working (add_media m) _ (
        flush_at s0 self d _ (
          modify_at s0 d (add_event e) _ (
            kept_rule self s0 (add_event e d) m
              (IsOpen-event Nobody d e (IsValid-media s0.working d.media v) refl))))

  pub attach_item_photo_rule :
      (k : ℕ) (provider reference : Text) (caption : Option Text) (position : ℤ)
      → Triple
          (At s0 s0.working)
          (attach_item_photo self k provider reference caption position)
          (λ _. Kept self s0)
          (Fails s0)
  unfolding attach_item_photo
  attach_item_photo_rule k provider reference caption position =
      query_start s0 (get_item k) _ (λ item _.
        lift_start s0 (validated_media_text provider 100) _ (λ p _.
          lift_start s0 (validated_media_text reference 1000) _ (λ r _.
            lift_start s0 (validated_media_caption caption) _ (λ c _.
              lift_start s0 (validated_media_position position) _ (λ n _.
                query_start s0 (ensure_reference item.id p r) _
                  (λ _ _. query_start s0 _ _ (λ keys _. insert_photo_rule _ false)))))))

  pub restore_item_photo_rule :
      (key k : ℕ) (provider reference : Text) (caption : Option Text) (position : ℤ)
      → Triple
          (At s0 s0.working)
          (restore_item_photo self key k provider reference caption position)
          (λ _. Kept self s0)
          (Fails s0)
  unfolding restore_item_photo
  restore_item_photo_rule key k provider reference caption position =
      query_start s0 (get_item k) _ (λ item _.
        lift_start s0 (validated_media_text provider 100) _ (λ p _.
          lift_start s0 (validated_media_text reference 1000) _ (λ r _.
            lift_start s0 (validated_media_caption caption) _ (λ c _.
              lift_start s0 (validated_media_position position) _ (λ n _. query_start s0 _ _ (λ _ _.
                query_start s0 (ensure_reference item.id p r) _
                  (λ _ _. insert_photo_rule _ true)))))))

  pub update_item_photo_rule :
      (key : ℕ) (caption : Option (Option Text)) (position : Option ℤ)
      → Triple
          (At s0 s0.working)
          (update_item_photo self key caption position)
          (λ _. Kept self s0)
          (Fails s0)
  unfolding update_item_photo
  update_item_photo_rule key caption position = query_start s0 (get_media key) _ (λ m _.
      lift_start s0 (target_caption m caption) _ (λ c _.
        lift_start s0 (target_position m position) _ (λ p _.
          if_rule s0 (text_option_eq c m.caption && p == m.position) _ _
            (λ _. kept_unchanged_rule self s0 m v)
            (λ _.
              let after : Media = record m { caption = c; position = p } in
              let d = save_media after s0.working in
              let e = event_of m.item_id (item_photo_updated m after) none in
              modify_at s0 s0.working (save_media after) _ (
                flush_at s0 self d _ (
                  modify_at s0 d (add_event e) _ (
                    kept_rule self s0 (add_event e d) after
                      (IsOpen-event Nobody d e (IsValid-media s0.working d.media v) refl))))))))

  pub detach_item_photo_rule :
      (key : ℕ)
      → Triple (At s0 s0.working) (detach_item_photo self key) (λ _. Kept self s0) (Fails s0)
  unfolding detach_item_photo
  detach_item_photo_rule key = query_start s0 (get_media key) _ (λ m _.
      let d = s0.working in
      let e = event_of m.item_id (item_photo_detached m) none in
      modify_at s0 d (add_event e) _ (
        modify_at s0 (add_event e d) (delete_media key) _ (
          kept_rule self s0 (delete_media key (add_event e d)) m
            (IsValid-media (add_event e d) _ (IsOpen-event Nobody d e v refl)))))
