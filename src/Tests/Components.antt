-- ===== src/Tests/Components.antt =====
-- Witnesses for domain/quantity.py and for the tree loops of services/inventory.py.
use ah_there_it_is.Base.{◌≡◌, refl, ◌≢◌, Bool, false, none, some, List, [], ◌∷◌, find, arith}
use ah_there_it_is.Text.{Text, codes}
use ah_there_it_is.Domain.States.{ok, err, Error, QuantityMode, parse_mode}
use ah_there_it_is.Domain.Quantity.{
  pos, QuantityValue, Portion, dict, PortionInput, coerce, coerce_portion, split_quantities,
}
use ah_there_it_is.Domain.Quantity.Laws.{IsTrue, coerce-IsTrue, Conserves, split_quantities_total}
use ah_there_it_is.Db.{Node, node_id}
use ah_there_it_is.Inventory.Checks.{walk_up, check_ancestors}
use ah_there_it_is.Inventory.Forest.Climb.{walk_up_ends}
use ah_there_it_is.Inventory.Forest.Reparent.{check_ancestors_ends, check_ancestors-Avoids, Avoids}

abbrev lot : QuantityValue
lot = record { mode = QuantityMode.exact; value = some 10 }

abbrev part : QuantityValue
part = record { mode = QuantityMode.exact; value = some 3 }

split_quantities_total_example :
    (rest : QuantityValue) × (whole : Bool) × (split_quantities lot part ≡ ok (rest, whole))
    × IsTrue rest
    × Conserves lot part (rest, whole)
split_quantities_total_example =
    split_quantities_total lot part (omega arith, omega arith) (omega arith, omega arith)

ten : coerce (codes "exact") (some (pos 10)) ≡ ok lot
unfolding coerce parse_mode ah_there_it_is.Text.text_eq ah_there_it_is.Text.strip
    ah_there_it_is.Domain.Quantity.create
ten = refl

coerce-IsTrue_example : IsTrue lot × (parse_mode (codes "exact") ≡ some QuantityMode.exact)
coerce-IsTrue_example = coerce-IsTrue (codes "exact") (some (pos 10)) lot ten

abbrev portion : PortionInput
portion = dict (some (codes "exact")) (some (some (pos 3))) false

abbrev three_of : Portion
three_of = record { quantity = part }

a_portion : coerce_portion portion ≡ ok three_of
unfolding coerce_portion coerce parse_mode ah_there_it_is.Text.text_eq ah_there_it_is.Text.strip
    ah_there_it_is.Domain.Quantity.create
a_portion = refl

abbrev desk : Node
desk = record {
  id = 1;
  parent_id = none;
  name = codes "desk";
  normalized_name = codes "desk";
  description = none;
}

abbrev drawer : Node
drawer = record {
  id = 2;
  parent_id = some 1;
  name = codes "drawer";
  normalized_name = codes "drawer";
  description = none;
}

abbrev both : List Node
both = desk ∷ drawer ∷ []

drawer_row : find node_id 2 both ≡ some drawer
unfolding find
drawer_row = refl

walk_up_ends_example : walk_up 3 both [] [] (some drawer) ≢ err Error.out_of_fuel
unfolding ah_there_it_is.Inventory.Forest.unseen
walk_up_ends_example = walk_up_ends 3 both [] [] (some drawer) drawer_row (omega arith)

check_ancestors_ends_example : check_ancestors 3 both 1 [] (some drawer) ≢ err Error.out_of_fuel
unfolding ah_there_it_is.Inventory.Forest.unseen
check_ancestors_ends_example =
    check_ancestors_ends 3 both 1 [] (some drawer) drawer_row (omega arith)

under_drawer : check_ancestors 3 both 5 [] (some drawer) ≡ ok tt
unfolding check_ancestors ah_there_it_is.Inventory.Checks.next_ancestor find
under_drawer = refl

check_ancestors-Avoids_example : Avoids both 5 (some 2)
check_ancestors-Avoids_example =
    check_ancestors-Avoids 3 both 5 [] (some drawer) drawer_row under_drawer
