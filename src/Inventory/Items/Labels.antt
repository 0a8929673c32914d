-- ===== src/Inventory/Items/Labels.antt =====
-- services/inventory.py: the aliases and the tags of an item.
use ah_there_it_is.Base.{
  ℕ, Bool, ◌||◌, Option, none, some, List, [], ◌∷◌, ◌++◌, map, any, if◌then◌else◌, replace,
}
use ah_there_it_is.Text.{Text, text_eq, is_blank}
use ah_there_it_is.Domain.States.{ok}
use ah_there_it_is.Db.{Db, Item, Alias, Tag, item_id}
use ah_there_it_is.Session.{
  M, Service, Names, comparison_key, ◌>>=◌, ◌>>◌, pure, query, modify, flush,
}

abbrev pub text_in : List Text → Text → Bool
text_in seen s = any (text_eq s) seen

abbrev pub add_item : Item → Db → Db
add_item i d = record d { items = d.items ++ i ∷ [] }

abbrev pub save_item : Item → Db → Db
save_item i d = record d { items = replace item_id i d.items }

-- the loop of `_replace_aliases`
unfoldable pub canonical_aliases : Names → List Text → List Text → List Alias
canonical_aliases names seen [] = []
canonical_aliases names seen (value ∷ values) =
    let key = comparison_key names value in
    let skipped = canonical_aliases names seen values in
    let kept = canonical_aliases names (key ∷ seen) values in
    if is_blank key || text_in seen key
    then skipped
    else record { name = names.display_name value; normalized_name = key } ∷ kept

-- `select(Tag).where(Tag.normalized_name == normalized)`
abbrev pub find_tag : Text → List Tag → Option Tag
find_tag key [] = none
find_tag key (t ∷ ts) = if text_eq t.normalized_name key then some t else find_tag key ts

abbrev pub tag_id : Tag → ℕ
tag_id t = t.id

abbrev pub add_tag : Tag → Db → Db
add_tag t d = record d { tags = d.tags ++ t ∷ [] }

unfoldable pub or_add_tag : Service → Tag → Option Tag → M ℕ
or_add_tag self tag (some t) = pure t.id
or_add_tag self tag none = do modify (add_tag tag); flush self; pure tag.id

-- the tag of one value of `_replace_tags`: found, or added and flushed
unfoldable pub find_or_add_tag : Service → Text → Text → M ℕ
find_or_add_tag self value key = do
  found ← query (λ d. ok (find_tag key d.tags))
  keys ← query (λ d. ok (map tag_id d.tags))
  or_add_tag self
      (record { id = self.fresh keys; name = self.names.display_name value; normalized_name = key })
      found

-- the loop of `_replace_tags`
unfoldable pub link_tags : Service → List Text → List Text → M (List ℕ)
link_tags self seen [] = pure []
link_tags self seen (value ∷ values) =
    let key = comparison_key self.names value in
    let skipped = link_tags self seen values in
    let kept = link_tags self (key ∷ seen) values in
    if is_blank key || text_in seen key
    then skipped
    else do tag ← find_or_add_tag self value key; rest ← kept; pure (tag ∷ rest)
