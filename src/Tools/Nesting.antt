-- ===== src/Tools/Nesting.antt =====
-- agent/tools.py: what the physical policy for location paths lets through.
use ah_there_it_is.Base.{
  ℕ, true, false, ◌≡◌, inl, inr, Option, none, some, List, [], ◌∷◌, ◌++◌, All, map, Bool-cases,
  arith,
}
use ah_there_it_is.Text.{Text, codes}
use ah_there_it_is.Domain.States.{Result, ok, Result-cases}
use ah_there_it_is.Db.{Db, Node}
use ah_there_it_is.Tools.Containment.{fits_in}
use ah_there_it_is.Tools.Sizes.{fits_in-IsSmaller, smaller_fits_in, fits_in_trans}
use ah_there_it_is.Tools.Capabilities.{ToolBox, did, failed, Failure}
use ah_there_it_is.Inventory.Paths.{canonical, repeats}
use ah_there_it_is.Tools.NewPaths.{
  plausible_chain, plausible_path, explicit_parent, path_policy, relation_at, rest_of,
}

-- each name is plausible inside every one before it
abbrev pub AreNested : ToolBox → List Text → Type 0
AreNested box [] = Unit
AreNested box (n ∷ ns) =
    All (λ m. fits_in box.is_word box.service.names m n (codes "inside") ≡ true) ns
    × AreNested box ns

-- the name of the explicit parent
abbrev pub outer_names : Result (Option Node) → List Text
outer_names (ok (some n)) = n.name ∷ []
outer_names _ = []

module _ (box : ToolBox) where
  within :
      (a b r : Text) (ns : List Text)
      → fits_in box.is_word box.service.names a b r ≡ true
      → All (λ m. fits_in box.is_word box.service.names m a (codes "inside") ≡ true) ns
      → All (λ m. fits_in box.is_word box.service.names m b (codes "inside") ≡ true) ns
  within a b r [] h k = tt
  within a b r (n ∷ ns) h k = (
    fits_in_trans box.is_word box.service.names n a b (codes "inside") r k.0 h,
    within a b r ns h k.1,
  )

  chain-AreNested :
      (parent : Text) (ns relations : List Text)
      → plausible_chain box parent ns relations ≡ true
      → AreNested box (parent ∷ ns)
  unfolding plausible_chain
  chain-AreNested parent [] relations h = (tt, tt)
  chain-AreNested parent (n ∷ ns) relations h =
      let first : fits_in box.is_word box.service.names n parent (relation_at relations) ≡ true =
        ground (arith, h) in
      let rest = chain-AreNested n ns (rest_of relations) (ground (arith, h)) in
      (
        (
          smaller_fits_in box.is_word box.service.names n parent
              (fits_in-IsSmaller box.is_word box.service.names n parent _ first),
          within n parent _ ns first rest.0,
        ),
        rest,
      )

  path-AreNested :
      (names relations : List Text) (parent : Option Node)
      → plausible_path box names relations parent ≡ true
      → AreNested box (outer_names (ok parent) ++ names)
  unfolding plausible_path
  path-AreNested [] relations none h = tt
  path-AreNested [] relations (some p) h = (tt, tt)
  path-AreNested (n ∷ ns) relations none h = chain-AreNested n ns relations h
  path-AreNested (n ∷ ns) relations (some p) h =
      let first : fits_in box.is_word box.service.names n p.name (codes "inside") ≡ true =
        ground (arith, h) in
      let rest = chain-AreNested n ns relations (ground (arith, h)) in
      ((first, within n p.name _ ns first rest.0), rest)

refused : {A : Type 0} {f : Failure} → failed f ≡ did tt → A
refused h = ground (arith, h)

-- Under the physical policy, when the check of a location path lets its names through, with any relations
-- and any explicit parent, each name is plausible inside every name before it, the explicit parent's name
-- included.
pub physical_path-AreNested :
    (box : ToolBox) (names relations : List Text) (parent_id : Option ℕ) (d : Db)
    → box.permissive ≡ false
    → path_policy box names relations parent_id d ≡ did tt
    → AreNested box (outer_names (explicit_parent parent_id d) ++ names)
unfolding path_policy
physical_path-AreNested box names relations parent_id d strict h =
    elim (Bool-cases (repeats (map (canonical box.service.names) names))) [
      | inl y ↦ refused (rw y at h)
      | inr n ↦ elim (Result-cases (explicit_parent parent_id d)) [
        | inl (parent, p) ↦ rw p (elim (Bool-cases (plausible_path box names relations parent)) [
          | inl y ↦ path-AreNested box names relations parent y
          | inr m ↦ refused (rw (n, strict, p, m) at h)
        ])
        | inr (e, p) ↦ refused (rw (n, strict, p) at h)
      ]
    ]
