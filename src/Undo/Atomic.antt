-- ===== src/Undo/Atomic.antt =====
-- services/undo.py: an undo is all or nothing.
use ah_there_it_is.Base.{ℕ, ◌≡◌, ◌⊎◌, true, false, List, [], ◌∷◌}
use ah_there_it_is.Domain.States.{Result, ok, err}
use ah_there_it_is.Session.{Session, Service, rolled_back}
use ah_there_it_is.Receipts.{AgentRunLog, MutationReceipt, Operation}
use ah_there_it_is.Undo.Compensate.{undo_photo, compensate_media, compensate, compensate_all}
use ah_there_it_is.Undo.Quiet.{
  IsQuiet, bind-IsQuiet, query-IsQuiet, lift-IsQuiet, pure-IsQuiet, if-IsQuiet, raise_if-IsQuiet,
  modify-IsQuiet,
}
use ah_there_it_is.Undo.Parts.{
  compensate_item-IsQuiet, detach_item_photo-IsQuiet, update_item_photo-IsQuiet,
  restore_item_photo-IsQuiet,
}

module _ (self : Service) (m : self.autocommit ≡ false) where
  undo_photo-IsQuiet :
      (r : MutationReceipt) (parent : ℕ) (o : Operation) → IsQuiet (undo_photo self r parent o)
  unfolding undo_photo
  undo_photo-IsQuiet r parent Operation.attach_item_photo =
      bind-IsQuiet (detach_item_photo-IsQuiet self m r.entity_id) (λ _. pure-IsQuiet tt)
  undo_photo-IsQuiet r parent Operation.update_item_photo =
      bind-IsQuiet (lift-IsQuiet _)
        (λ before. bind-IsQuiet (update_item_photo-IsQuiet self m _ _ _) (λ _. pure-IsQuiet tt))
  undo_photo-IsQuiet r parent Operation.detach_item_photo = bind-IsQuiet (lift-IsQuiet _) (λ before.
      bind-IsQuiet (restore_item_photo-IsQuiet self m _ _ _ _ _ _) (λ _. pure-IsQuiet tt))
  undo_photo-IsQuiet r parent Operation.create_item = pure-IsQuiet tt
  undo_photo-IsQuiet r parent Operation.create_location = pure-IsQuiet tt
  undo_photo-IsQuiet r parent Operation.create_category = pure-IsQuiet tt
  undo_photo-IsQuiet r parent Operation.update_item = pure-IsQuiet tt
  undo_photo-IsQuiet r parent Operation.move_item = pure-IsQuiet tt
  undo_photo-IsQuiet r parent Operation.take_item = pure-IsQuiet tt
  undo_photo-IsQuiet r parent Operation.mark_item_location_unknown = pure-IsQuiet tt
  undo_photo-IsQuiet r parent Operation.change_item_quantity = pure-IsQuiet tt
  undo_photo-IsQuiet r parent Operation.remove_item = pure-IsQuiet tt
  undo_photo-IsQuiet r parent Operation.restore_item = pure-IsQuiet tt
  undo_photo-IsQuiet r parent Operation.undo_last_action = pure-IsQuiet tt

  compensate-IsQuiet : (r : MutationReceipt) (run : ℕ) → IsQuiet (compensate self r run)
  unfolding compensate compensate_media
  compensate-IsQuiet r run =
      if-IsQuiet _
        (bind-IsQuiet (lift-IsQuiet _) (λ parent_id. bind-IsQuiet (raise_if-IsQuiet _ _) (λ _.
          bind-IsQuiet (query-IsQuiet _) (λ _. bind-IsQuiet (query-IsQuiet _) (λ parent.
            bind-IsQuiet (undo_photo-IsQuiet r parent_id r.operation) (λ _. modify-IsQuiet _))))))
        (compensate_item-IsQuiet self m r run)

  pub compensate_all-IsQuiet :
      (rs : List MutationReceipt) (run : ℕ) → IsQuiet (compensate_all self rs run)
  unfolding compensate_all
  compensate_all-IsQuiet [] run = pure-IsQuiet []
  compensate_all-IsQuiet (r ∷ rs) run =
      bind-IsQuiet (compensate-IsQuiet r run)
        (λ _. bind-IsQuiet (compensate_all-IsQuiet rs run) (λ ids. pure-IsQuiet _))

-- How an undo ends: it raises and the session is as it was, or rolled back to what is committed (only by
-- a service that commits), or partly changed but uncommitted (only by one that does not); or it returns,
-- and a service that commits has committed all that it shows, and the other nothing.
abbrev pub Undone : Service → Session → Result (AgentRunLog × List ℕ) → Session → Type 0
Undone self s (ok _) t =
    (self.autocommit ≡ true → t.committed ≡ t.working)
    × (self.autocommit ≡ false → t.committed ≡ s.committed)
Undone self s (err _) t =
    (t.committed ≡ s.committed) × (self.autocommit ≡ true → (t ≡ s) ⊎ (t ≡ rolled_back s))
