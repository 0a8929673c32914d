-- ===== src/Inventory/Requests.antt =====
-- services/inventory.py as a whole: the requests that change the inventory, in any order.
pub mod Runs
use ah_there_it_is.Base.{ℕ, Bool, Option, List, [], ◌∷◌}
use ah_there_it_is.Text.{Text}
use ah_there_it_is.Domain.Quantity.{ℤ, PortionInput}
use ah_there_it_is.Db.{Item, Media, Node, Model}
use ah_there_it_is.Session.{M, Session, Service, ◌>>=◌, pure}
use ah_there_it_is.Inventory.Nodes.{NodePatch, create_node, update_node}
use ah_there_it_is.Inventory.Paths.{CreatedLocationPath, create_location_path}
use ah_there_it_is.Inventory.Items.{NewItem, ItemPatch, create_item}
use ah_there_it_is.Inventory.Updates.{update_item}
use ah_there_it_is.Inventory.Moves.{
  move_item, take_item, mark_item_location_unknown, remove_item, restore_item, change_item_quantity,
}
use ah_there_it_is.Inventory.Photos.{
  attach_item_photo, restore_item_photo, update_item_photo, detach_item_photo,
}

-- one constructor for each public method that writes
pub data Request : Type 0 where
  create_tree_node : Model → Text → Option ℕ → Option Text → Request
  create_path : List Text → Option ℕ → Bool → Option Text → Request
  change_tree_node : Model → ℕ → NodePatch → Request
  create : NewItem → Request
  update : ℕ → ItemPatch → Request
  move : ℕ → Option ℕ → Option PortionInput → Option Text → Request
  take : ℕ → Option PortionInput → Option Text → Request
  mark_unknown : ℕ → Option Text → Request
  remove : ℕ → Text → Text → Option PortionInput → Option Text → Request
  restore : ℕ → Text → Option ℕ → Option Text → Request
  change_quantity : ℕ → Text → Option ℤ → Text → Text → Option Text → Request
  attach_photo : ℕ → Text → Text → Option Text → ℤ → Request
  restore_photo : ℕ → ℕ → Text → Text → Option Text → ℤ → Request
  update_photo : ℕ → Option (Option Text) → Option ℤ → Request
  detach_photo : ℕ → Request

pub data Reply : Type 0 where
  node : Node → Reply
  item : Item → Reply
  path : CreatedLocationPath → Reply
  photo : Media → Reply

unfoldable pub execute : Service → Request → M Reply
execute self (create_tree_node m name parent description) = do
  n ← create_node self m name parent description
  pure (node n)
execute self (create_path names parent reuse description) = do
  p ← create_location_path self names parent reuse description
  pure (path p)
execute self (change_tree_node m k patch) = do n ← update_node self m k patch; pure (node n)
execute self (create args) = do i ← create_item self args; pure (item i)
execute self (update k patch) = do i ← update_item self k patch; pure (item i)
execute self (move k location portion text) = do
  i ← move_item self k location portion text
  pure (item i)
execute self (take k portion text) = do i ← take_item self k portion text; pure (item i)
execute self (mark_unknown k text) = do i ← mark_item_location_unknown self k text; pure (item i)
execute self (remove k reason source portion text) = do
  i ← remove_item self k reason source portion text
  pure (item i)
execute self (restore k state location text) = do
  i ← restore_item self k state location text
  pure (item i)
execute self (change_quantity k mode value reason source text) = do
  i ← change_item_quantity self k mode value reason source text
  pure (item i)
execute self (attach_photo k provider reference caption position) = do
  m ← attach_item_photo self k provider reference caption position
  pure (photo m)
execute self (restore_photo key k provider reference caption position) = do
  m ← restore_item_photo self key k provider reference caption position
  pure (photo m)
execute self (update_photo key caption position) = do
  m ← update_item_photo self key caption position
  pure (photo m)
execute self (detach_photo key) = do m ← detach_item_photo self key; pure (photo m)

-- a caller that goes on after an error, from the session that the error left
unfoldable pub serve : Service → List Request → Session → Session
serve self [] s = s
serve self (r ∷ rs) s = serve self rs (execute self r s).1
