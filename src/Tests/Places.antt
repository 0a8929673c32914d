-- ===== src/Tests/Places.antt =====
-- Witnesses for the sizes of places, on the names of a cupboard, a shelf and a box.
use ah_there_it_is.Base.{◌≡◌, refl, true, false, none, [], ◌∷◌, ◌++◌}
use ah_there_it_is.Text.{Text, codes, text_eq, is_space, strip, lstrip}
use ah_there_it_is.Inventory.Paths.{repeats}
use ah_there_it_is.Tools.Capabilities.{did}
use ah_there_it_is.Tools.SearchKeys.{collapse, normalize_search_text, words_of}
use ah_there_it_is.Tools.Containment.{
  fits_in, scale_of, largest_scale, location_scale, starts_with, is_part, assess_on, assess_inside,
  assess_keys, assess_location_relation,
}
use ah_there_it_is.Tools.NewPaths.{path_policy, explicit_parent, plausible_chain, plausible_path}
use ah_there_it_is.Tools.Sizes.{fits_in-IsOrder}
use ah_there_it_is.Tools.Nesting.{AreNested, outer_names, physical_path-AreNested}
use ah_there_it_is.Tests.Tools.{literal_names, box, shelves}

abbrev cupboard : Text
cupboard = codes "белый шкаф"

abbrev shelf : Text
shelf = codes "полка"

abbrev carton : Text
carton = codes "коробка"

shelf_in_cupboard : fits_in box.is_word literal_names shelf cupboard (codes "inside") ≡ true
unfolding assess_location_relation assess_keys assess_inside location_scale scale_of largest_scale
    words_of normalize_search_text collapse strip lstrip is_space text_eq
shelf_in_cupboard = refl

carton_on_shelf : fits_in box.is_word literal_names carton shelf (codes "on") ≡ true
unfolding assess_location_relation assess_keys assess_on location_scale scale_of largest_scale
    words_of normalize_search_text collapse strip lstrip is_space text_eq is_part starts_with
carton_on_shelf = refl

fits_in-IsOrder_example :
    (fits_in box.is_word literal_names carton cupboard (codes "inside") ≡ true)
    × (fits_in box.is_word literal_names cupboard carton (codes "on") ≡ false)
    × (fits_in box.is_word literal_names carton carton (codes "on") ≡ false)
fits_in-IsOrder_example =
    fits_in-IsOrder box.is_word literal_names carton shelf cupboard (codes "on") (codes "inside")
      (codes "on") carton_on_shelf shelf_in_cupboard

allowed :
    path_policy box (cupboard ∷ shelf ∷ carton ∷ []) (codes "inside" ∷ codes "on" ∷ []) none shelves
    ≡ did tt
unfolding path_policy repeats plausible_path plausible_chain text_eq
allowed = rw (shelf_in_cupboard, carton_on_shelf)

physical_path-AreNested_example :
    AreNested box (outer_names (explicit_parent none shelves) ++ cupboard ∷ shelf ∷ carton ∷ [])
physical_path-AreNested_example =
    physical_path-AreNested box (cupboard ∷ shelf ∷ carton ∷ []) (codes "inside" ∷ codes "on" ∷ [])
      none shelves refl allowed
