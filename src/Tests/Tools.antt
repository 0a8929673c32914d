-- ===== src/Tests/Tools.antt =====
-- Witnesses for agent/tools.py and agent/write_resolution.py, on an inventory with one item, whose searches
-- return every item.
use ah_there_it_is.Base.{
  ℕ, ◌≡◌, ◌≢◌, ◌⊎◌, All, refl, arith, true, false, Option, none, some, [], ◌∷◌, ◌<◌, map, not,
}
use ah_there_it_is.Text.{Text, codes, text_eq, is_space}
use ah_there_it_is.Domain.States.{ok}
use ah_there_it_is.Db.{Db, Node, empty, item_id}
use ah_there_it_is.Session.{Names, Session}
use ah_there_it_is.Inventory.Checks.{enough_fuel}
use ah_there_it_is.Inventory.Forest.{unseen}
use ah_there_it_is.Tools.Resolution.{
  Kind, resolve, resolve_with_evidence, resolve_item, named, aliased, decide, path_from,
}
use ah_there_it_is.Tools.Unique.{IsTheMatch, resolve-IsTheMatch, path_from_ends}
use ah_there_it_is.Tools.Capabilities.{
  ToolBox, ToolState, start_tools, begin_round, end_round, visible, is_resolved, search_tool,
  semantic_search_key, remember_candidates, extend,
}
use ah_there_it_is.Tools.Operations.{Write}
use ah_there_it_is.Tools.Writes.{write_tool}
use ah_there_it_is.Tools.Authority.{IsUnwritten}
use ah_there_it_is.Tools.Guarded.{IsAllowed, targets, write_tool-IsGuarded}
use ah_there_it_is.Tools.Turns.{Act, act, act_all, act_round, act_rounds, round_is_frozen}
use ah_there_it_is.Tools.Support.{turn_steps, IsSupported, authority_is_earned}
use ah_there_it_is.Tests.Services.{plain}
use ah_there_it_is.Tests.Inventory.{cable}

abbrev pub literal_names : Names
literal_names = record {
  display_name = λ t. t;
  location_display_name = λ t. t;
  normalize_name = λ t. t;
  location_phrase = λ _. ok false;
}

abbrev node : ℕ → Option ℕ → Text → Node
node k parent name = record {
  id = k;
  parent_id = parent;
  name = name;
  normalized_name = name;
  description = none;
}

abbrev pub shelves : Db
shelves = record empty {
  locations = node 1 none (codes "desk") ∷ node 2 (some 1) (codes "drawer") ∷ [];
  items = cable ∷ [];
}

abbrev stocked : Session
stocked = record { working = shelves; committed = shelves }

abbrev pub box : ToolBox
box = record {
  service = record plain { names = literal_names; autocommit = false };
  path_key = λ _. ok none;
  phrase = λ _. ok none;
  is_word = λ c. not (is_space c);
  permissive = false;
  search = λ kind query limit d. map item_id d.items;
  original_text = some (codes "take the cable");
}

abbrev look : Act
look = Act.search Kind.item (codes "usb cable") 5

abbrev take : Act
take = Act.write (Write.take_along 1 none)

abbrev looked : ToolState
looked = (act_rounds box ((look ∷ []) ∷ []) (start_tools, stocked)).0

found_cable :
    resolve literal_names box.path_key Kind.item (codes "usb cable") stocked.working ≡ ok (some 1)
unfolding resolve resolve_with_evidence resolve_item named aliased decide text_eq
found_cable = refl

resolve-IsTheMatch_example :
    IsTheMatch literal_names box.path_key Kind.item (codes "usb cable") stocked.working 1
resolve-IsTheMatch_example =
    resolve-IsTheMatch literal_names box.path_key Kind.item (codes "usb cable") stocked.working 1
      found_cable

enough : unseen [] stocked.working.locations < enough_fuel stocked.working.locations
unfolding unseen
enough = omega arith

path_from_ends_example :
    path_from literal_names
      (enough_fuel stocked.working.locations)
      stocked.working.locations
      []
      []
      2
    ≢ none
path_from_ends_example =
    path_from_ends literal_names (enough_fuel stocked.working.locations) stocked.working.locations
      [] [] 2 enough

write_tool-IsGuarded_example :
    (let (x, t', s') = write_tool box (Write.take_along 1 none) looked stocked in
      IsUnwritten stocked s'
      ⊎ All (IsAllowed box looked stocked.working) (targets box (Write.take_along 1 none)))
write_tool-IsGuarded_example = write_tool-IsGuarded box (Write.take_along 1 none) looked stocked

round_is_frozen_example :
    (let (x, t', s') =
        write_tool box
          (Write.take_along 1 none)
          (act_all box (look ∷ []) (begin_round start_tools, stocked)).0
          stocked in
      let (y, t2, s2) =
        write_tool box (Write.take_along 1 none) (begin_round start_tools) stocked in
      (x ≡ y) × (s' ≡ s2))
round_is_frozen_example =
    round_is_frozen box (look ∷ []) (Write.take_along 1 none) start_tools stocked stocked

knows_cable :
    (let (t, s1) = act_rounds box ((look ∷ []) ∷ []) (start_tools, stocked) in
      is_resolved Kind.item 1 (act_all box [] (begin_round t, s1)).0 ≡ true)
unfolding is_resolved visible act_all begin_round act_rounds act_round act end_round search_tool
    semantic_search_key resolve_with_evidence resolve_item named aliased decide text_eq
    remember_candidates extend
knows_cable = refl

authority_is_earned_example :
    (let (t, s1) = act_rounds box ((look ∷ []) ∷ []) (start_tools, stocked) in
      IsSupported box
        (turn_steps box ((look ∷ []) ∷ []) [] stocked)
        (act_all box [] (begin_round t, s1)).0
        Kind.item
        1)
authority_is_earned_example =
    authority_is_earned box ((look ∷ []) ∷ []) [] stocked Kind.item 1 knows_cable
