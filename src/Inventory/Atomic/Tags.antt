-- ===== src/Inventory/Atomic/Tags.antt =====
-- The loop of `_replace_tags` (services/inventory.py) adds tags, and touches no other table.
use ah_there_it_is.Base.{refl, ◌||◌, Option, none, some, List, [], ◌∷◌, ◌++◌, map}
use ah_there_it_is.Text.{Text, is_blank}
use ah_there_it_is.Db.{Db, Tag}
use ah_there_it_is.Session.{Session, Service, comparison_key}
use ah_there_it_is.Session.Rules.{
  Triple, At, Fails, bind_rule, exists_rule, query_at, modify_at, flush_at, pure_at, if_rule,
}
use ah_there_it_is.Inventory.Items.{
  find_tag, find_or_add_tag, or_add_tag, link_tags, add_tag, tag_id, text_in,
}

module _ (self : Service) (s0 : Session) where
  -- the tables of `d`, with other tags
  abbrev pub TagsAdded : Db → Session → Type 0
  TagsAdded d s = (ts : List Tag) × At s0 (record d { tags = ts }) s

  or_add_tag_rule :
      (d : Db) (t : Tag) (found : Option Tag)
      → Triple (At s0 d) (or_add_tag self t found) (λ _. TagsAdded d) (Fails s0)
  unfolding or_add_tag
  or_add_tag_rule d t (some x) = pure_at s0 d x.id (d.tags, refl)
  or_add_tag_rule d t none =
      modify_at s0 d (add_tag t) _
        (flush_at s0 self (add_tag t d) _ (pure_at s0 (add_tag t d) t.id (d.tags ++ t ∷ [], refl)))

  find_or_add_tag_rule :
      (d : Db) (value key : Text)
      → Triple (At s0 d) (find_or_add_tag self value key) (λ _. TagsAdded d) (Fails s0)
  unfolding find_or_add_tag
  find_or_add_tag_rule d value key =
      query_at s0 d _ _ (find_tag key d.tags) refl
        (query_at s0 d _ _ (map tag_id d.tags) refl (or_add_tag_rule d _ (find_tag key d.tags)))

  pub link_tags_rule :
      (values seen : List Text) (d : Db)
      → Triple (At s0 d) (link_tags self seen values) (λ _. TagsAdded d) (Fails s0)
  unfolding link_tags
  link_tags_rule [] seen d = pure_at s0 d [] (d.tags, refl)
  link_tags_rule (v ∷ vs) seen d =
      let key = comparison_key self.names v in
      if_rule s0 (is_blank key || text_in seen key) _ _ (λ _. link_tags_rule vs seen d)
        (λ _.
          bind_rule (λ _. TagsAdded d) (find_or_add_tag_rule d v key)
            (λ t. exists_rule (λ ts.
              bind_rule (λ _. TagsAdded d) (link_tags_rule vs (key ∷ seen) (record d { tags = ts }))
                (λ rest.
                  exists_rule
                    (λ ts'. pure_at s0 (record d { tags = ts' }) (t ∷ rest) (ts', refl))))))
