-- ===== src/Undo/Refuses.antt =====
-- services/undo.py: a compensation refuses an item that changed since the turn.
use ah_there_it_is.Base.{
  ◌⊎◌, ℕ, ◌≡◌, refl, sym, subst, inl, inr, true, false, none, some, List, [], ◌∷◌, ◌==◌, contains,
  find, Bool-cases, Option-cases, arith,
}
use ah_there_it_is.Domain.States.{err, Error, Result-cases}
use ah_there_it_is.Db.{Db, Item, Snapshot, item_id}
use ah_there_it_is.Session.{Session, Service, ◌>>=◌, query}
use ah_there_it_is.Receipts.{MutationReceipt}
use ah_there_it_is.Undo.Snapshots.{snapshot, snapshot_eq}
use ah_there_it_is.Undo.Compensate.{matches_after, check_items, compensate_item, item_evidence}

matches_err :
    (r : MutationReceipt) (k : ℕ) (d : Db) (e : Error)
    → matches_after r k d ≡ err e
    → matches_after r k d ≡ err Error.undo_unavailable
unfolding matches_after
matches_err r k d e h = elim (Option-cases (item_evidence k r.after)) [
  | inl p ↦ rw (p, matches_after) refl
  | inr (x, p) ↦ elim (Option-cases (find item_id k d.items)) [
    | inl q ↦ rw (p, q, matches_after) refl
    | inr (i, q) ↦ elim (Bool-cases (snapshot_eq (snapshot d.tags i) x)) [
      | inl b ↦ absurd (ground arith)
      | inr b ↦ rw (p, q, b, matches_after) refl
    ]
  ]
]

check_items_refuses :
    (r : MutationReceipt) (ks : List ℕ) (k : ℕ) (s : Session) (e : Error)
    → contains ks k ≡ true
    → matches_after r k s.working ≡ err e
    → check_items r ks s ≡ (err Error.undo_unavailable, s)
unfolding check_items query ◌>>=◌
check_items_refuses r [] k s e c h = absurd (cc)
check_items_refuses r (x ∷ xs) k s e c h = elim (Result-cases (matches_after r x s.working)) [
  | inl (a, p) ↦
      let here : (x == k) ≡ false = elim (Bool-cases (x == k)) [
        | inl y ↦
            let q : x ≡ k = ground arith in
            let w : matches_after r x s.working ≡ err e =
              subst (λ j. matches_after r j s.working ≡ err e) (sym q) h in
            absurd (ground arith)
        | inr n ↦ n
      ] in
      let there : contains xs k ≡ true = ground arith in
      rw p (check_items_refuses r xs k s e there h)
  | inr (y, p) ↦ rw (matches_err r x s.working y p) refl
]

-- the item is gone, has no recorded state, or differs from it
abbrev pub IsChanged : MutationReceipt → ℕ → Db → Type 0
IsChanged r k d =
    (item_evidence k r.after ≡ none)
    ⊎ (find item_id k d.items ≡ none)
    ⊎ ((x : Snapshot) × (i : Item) × (item_evidence k r.after ≡ some x)
        × (find item_id k d.items ≡ some i)
        × (snapshot_eq (snapshot d.tags i) x ≡ false))

changed_matches :
    (r : MutationReceipt) (k : ℕ) (d : Db)
    → IsChanged r k d
    → matches_after r k d ≡ err Error.undo_unavailable
unfolding matches_after
changed_matches r k d (inl p) = rw (p, matches_after) refl
changed_matches r k d (inr (inl q)) = elim (Option-cases (item_evidence k r.after)) [
  | inl p ↦ rw (p, matches_after) refl
  | inr (x, p) ↦ rw (p, q, matches_after) refl
]
changed_matches r k d (inr (inr (x, i, p, q, b))) = rw (p, q, b, matches_after) refl

-- A compensation of an item receipt of which an affected item no longer matches the recorded state after
-- the turn, or is gone, or has no recorded state, is refused, and the session is left as it is.
pub changed_item_is_refused :
    (self : Service) (r : MutationReceipt) (run k : ℕ) (s : Session)
    → contains r.affected_item_ids k ≡ true
    → IsChanged r k s.working
    → compensate_item self r run s ≡ (err Error.undo_unavailable, s)
unfolding compensate_item ◌>>=◌
changed_item_is_refused self r run k s c h =
    rw
      (check_items_refuses r r.affected_item_ids k s Error.undo_unavailable c
        (changed_matches r k s.working h))
      refl
