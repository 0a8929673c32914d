-- ===== src/Undo/Parts.antt =====
-- services/undo.py and the inventory methods that it calls: none of them commits.
use ah_there_it_is.Base.{ℕ, ◌≡◌, Bool, true, false, Option, none, some, List, [], ◌∷◌}
use ah_there_it_is.Text.{Text}
use ah_there_it_is.Db.{Item, Media, Tag, Snapshot}
use ah_there_it_is.Session.{Service, comparison_key}
use ah_there_it_is.Domain.Quantity.{ℤ}
use ah_there_it_is.Inventory.Items.{link_tags, find_or_add_tag, or_add_tag}
use ah_there_it_is.Inventory.Photos.{
  insert_photo, detach_item_photo, update_item_photo, restore_item_photo,
}
use ah_there_it_is.Receipts.{MutationReceipt, Operation}
use ah_there_it_is.Undo.Snapshots.{restore_aliases, restore_tags, restore_snapshot}
use ah_there_it_is.Undo.Compensate.{
  check_items, undo_creation, undo_split, undo_change, compensate_item,
}
use ah_there_it_is.Undo.Quiet.{
  IsQuiet, bind-IsQuiet, query-IsQuiet, lift-IsQuiet, pure-IsQuiet, if-IsQuiet, modify-IsQuiet,
  flush-IsQuiet, commit-IsQuiet,
}

module _ (self : Service) (m : self.autocommit ≡ false) where
  or_add_tag-IsQuiet : (tag : Tag) (found : Option Tag) → IsQuiet (or_add_tag self tag found)
  unfolding or_add_tag
  or_add_tag-IsQuiet tag (some t) = pure-IsQuiet _
  or_add_tag-IsQuiet tag none =
      bind-IsQuiet (modify-IsQuiet _) (λ _. bind-IsQuiet (flush-IsQuiet self) (λ _. pure-IsQuiet _))

  find_or_add_tag-IsQuiet : (value key : Text) → IsQuiet (find_or_add_tag self value key)
  unfolding find_or_add_tag
  find_or_add_tag-IsQuiet value key =
      bind-IsQuiet (query-IsQuiet _)
        (λ found. bind-IsQuiet (query-IsQuiet _) (λ keys. or_add_tag-IsQuiet _ found))

  pub link_tags-IsQuiet : (seen values : List Text) → IsQuiet (link_tags self seen values)
  unfolding link_tags
  link_tags-IsQuiet seen [] = pure-IsQuiet _
  link_tags-IsQuiet seen (value ∷ values) = if-IsQuiet _ (link_tags-IsQuiet seen values) (
      bind-IsQuiet (find_or_add_tag-IsQuiet value _) (λ tag.
        bind-IsQuiet (link_tags-IsQuiet (comparison_key self.names value ∷ seen) values)
          (λ rest. pure-IsQuiet _)))

  restore_aliases-IsQuiet : (i : Item) (names : List Text) → IsQuiet (restore_aliases self i names)
  unfolding restore_aliases
  restore_aliases-IsQuiet i names = if-IsQuiet _ (pure-IsQuiet _) (
      bind-IsQuiet (modify-IsQuiet _) (λ _.
        bind-IsQuiet (flush-IsQuiet self)
          (λ _. bind-IsQuiet (modify-IsQuiet _) (λ _. pure-IsQuiet _))))

  restore_tags-IsQuiet : (i : Item) (names : List Text) → IsQuiet (restore_tags self i names)
  unfolding restore_tags
  restore_tags-IsQuiet i names = bind-IsQuiet (query-IsQuiet _) (λ current.
      if-IsQuiet _ (pure-IsQuiet _) (
        bind-IsQuiet (modify-IsQuiet _) (λ _. bind-IsQuiet (flush-IsQuiet self) (λ _.
          bind-IsQuiet (link_tags-IsQuiet [] names)
            (λ tags. bind-IsQuiet (modify-IsQuiet _) (λ _. pure-IsQuiet _))))))

  restore_snapshot-IsQuiet :
      (i : Item) (target : Snapshot) (operation : Operation) (split : Bool) (run : ℕ)
      → IsQuiet (restore_snapshot self i target operation split run)
  unfolding restore_snapshot
  restore_snapshot-IsQuiet i target operation split run = bind-IsQuiet (query-IsQuiet _) (λ current.
      bind-IsQuiet (modify-IsQuiet _) (λ _. bind-IsQuiet (lift-IsQuiet _) (λ normalized.
        bind-IsQuiet (modify-IsQuiet _) (λ _.
          bind-IsQuiet (restore_aliases-IsQuiet _ _)
            (λ named. bind-IsQuiet (restore_tags-IsQuiet named _) (λ tagged. modify-IsQuiet _))))))

  check_items-IsQuiet : (r : MutationReceipt) (ks : List ℕ) → IsQuiet (check_items r ks)
  unfolding check_items
  check_items-IsQuiet r [] = pure-IsQuiet _
  check_items-IsQuiet r (k ∷ ks) = bind-IsQuiet (query-IsQuiet _) (λ _. check_items-IsQuiet r ks)

  pub compensate_item-IsQuiet :
      (r : MutationReceipt) (run : ℕ) → IsQuiet (compensate_item self r run)
  unfolding compensate_item undo_creation undo_split undo_change
  compensate_item-IsQuiet r run = bind-IsQuiet (check_items-IsQuiet r r.affected_item_ids) (λ _.
      if-IsQuiet _
        (bind-IsQuiet (query-IsQuiet _) (λ item.
          bind-IsQuiet (query-IsQuiet _) (λ current. restore_snapshot-IsQuiet _ _ _ _ run)))
        (by_split r.split))
    where
      by_split :
          (child : Option ℕ)
          → IsQuiet
              (elim child [ some c ↦ undo_split self r c run | none ↦ undo_change self r run ])
      by_split (some c) = bind-IsQuiet (query-IsQuiet _) (λ child.
          bind-IsQuiet (lift-IsQuiet _) (λ before.
            bind-IsQuiet (query-IsQuiet _) (λ current. restore_snapshot-IsQuiet _ _ _ _ run)))
      by_split none =
          bind-IsQuiet (lift-IsQuiet _) (λ before.
            bind-IsQuiet (query-IsQuiet _) (λ item. restore_snapshot-IsQuiet _ _ _ _ run))

  pub insert_photo-IsQuiet : (p : Media) (b : Bool) → IsQuiet (insert_photo self p b)
  unfolding insert_photo
  insert_photo-IsQuiet p b = bind-IsQuiet (modify-IsQuiet _) (λ _.
      bind-IsQuiet (flush-IsQuiet self) (λ _.
        bind-IsQuiet (modify-IsQuiet _)
          (λ _. bind-IsQuiet (commit-IsQuiet self m) (λ _. pure-IsQuiet _))))

  pub detach_item_photo-IsQuiet : (key : ℕ) → IsQuiet (detach_item_photo self key)
  unfolding detach_item_photo
  detach_item_photo-IsQuiet key = bind-IsQuiet (query-IsQuiet _) (λ p.
      bind-IsQuiet (modify-IsQuiet _) (λ _.
        bind-IsQuiet (modify-IsQuiet _)
          (λ _. bind-IsQuiet (commit-IsQuiet self m) (λ _. pure-IsQuiet _))))

  pub update_item_photo-IsQuiet :
      (key : ℕ) (caption : Option (Option Text)) (position : Option ℤ)
      → IsQuiet (update_item_photo self key caption position)
  unfolding update_item_photo
  update_item_photo-IsQuiet key caption position = bind-IsQuiet (query-IsQuiet _) (λ p.
      bind-IsQuiet (lift-IsQuiet _) (λ c. bind-IsQuiet (lift-IsQuiet _) (λ n.
        if-IsQuiet _ (pure-IsQuiet _) (
          bind-IsQuiet (modify-IsQuiet _) (λ _. bind-IsQuiet (flush-IsQuiet self) (λ _.
            bind-IsQuiet (modify-IsQuiet _)
              (λ _. bind-IsQuiet (commit-IsQuiet self m) (λ _. pure-IsQuiet _))))))))

  pub restore_item_photo-IsQuiet :
      (key k : ℕ) (provider reference : Text) (caption : Option Text) (position : ℤ)
      → IsQuiet (restore_item_photo self key k provider reference caption position)
  unfolding restore_item_photo
  restore_item_photo-IsQuiet key k provider reference caption position =
      bind-IsQuiet (query-IsQuiet _) (λ _. bind-IsQuiet (lift-IsQuiet _) (λ _.
        bind-IsQuiet (lift-IsQuiet _) (λ _. bind-IsQuiet (lift-IsQuiet _) (λ _.
          bind-IsQuiet (lift-IsQuiet _) (λ _.
            bind-IsQuiet (query-IsQuiet _)
              (λ _. bind-IsQuiet (query-IsQuiet _) (λ _. insert_photo-IsQuiet _ true)))))))
