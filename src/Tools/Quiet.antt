-- ===== src/Tools/Quiet.antt =====
-- services/inventory.py, as agent/tools.py runs it: without commits.
use ah_there_it_is.Base.{ℕ, ◌≡◌, refl, ◌∙◌, Bool, false, Option, none, some, List, [], ◌∷◌}
use ah_there_it_is.Text.{Text}
use ah_there_it_is.Domain.States.{Result, ok, err, ItemState}
use ah_there_it_is.Domain.Quantity.{ℤ, PortionInput, Portion}
use ah_there_it_is.Db.{Db, Item, Node, Model, Transition, Change, Removal}
use ah_there_it_is.Session.{
  M, Session, after_raise, commit, Service, ◌>>=◌, pure, query, lift, guarded, Names,
}
use ah_there_it_is.Inventory.Checks.{ensure_nonterminal}
use ah_there_it_is.Inventory.Nodes.{
  refuse_phrase, create_node, NodePatch, target_names, write_node, update_tree_node, update_node,
}
use ah_there_it_is.Inventory.Paths.{Plan, write_path, written, create_location_path}
use ah_there_it_is.Inventory.Items.{NewItem, ItemPatch, Target, insert_item, create_item}
use ah_there_it_is.Inventory.Updates.{category_evidence, tags_after, write_item, update_item}
use ah_there_it_is.Inventory.Moves.{
  split_off, split_for_portion, record_location_transition, relocate, move_item, take_item,
  mark_item_location_unknown, remove_item, restore_item, change_item_quantity,
}
use ah_there_it_is.Inventory.Photos.{attach_item_photo}
use ah_there_it_is.Inventory.Requests.{Request, execute}
use ah_there_it_is.Undo.Quiet.{
  IsQuiet, bind-IsQuiet, query-IsQuiet, lift-IsQuiet, pure-IsQuiet, if-IsQuiet, raise_if-IsQuiet,
  modify-IsQuiet, flush-IsQuiet, commit-IsQuiet,
}
use ah_there_it_is.Undo.Parts.{
  link_tags-IsQuiet, insert_photo-IsQuiet, detach_item_photo-IsQuiet, update_item_photo-IsQuiet,
  restore_item_photo-IsQuiet,
}

-- a check, a query or a write, and what follows
module _ {A : Type 0} where
  reads :
      {B : Type 0} (f : Db → Result B) {k : B → M A}
      → ((b : B) → IsQuiet (k b))
      → IsQuiet (query f >>= k)
  reads f h = bind-IsQuiet (query-IsQuiet _) h

  checks :
      {B : Type 0} (r : Result B) {k : B → M A} → ((b : B) → IsQuiet (k b)) → IsQuiet (lift r >>= k)
  checks r h = bind-IsQuiet (lift-IsQuiet _) h

raise_keeps :
    {A : Type 0} (self : Service) (r : Result A) (s : Session)
    → self.autocommit ≡ false
    → (after_raise self r s).committed ≡ s.committed
raise_keeps self (ok a) s m = refl
raise_keeps self (err e) s m = rw m refl

guarded-IsQuiet :
    {A : Type 0} (self : Service) {p : M A}
    → self.autocommit ≡ false
    → IsQuiet p
    → IsQuiet (guarded self p)
unfolding guarded
guarded-IsQuiet self {p} m h = record {
  keeps = λ s. raise_keeps self (p s).0 (p s).1 m ∙ h.keeps s;
}

refuse_phrase-IsQuiet :
    (k : Model) (names : Names) (name : Text) → IsQuiet (refuse_phrase k names name)
unfolding refuse_phrase
refuse_phrase-IsQuiet Model.category names name = pure-IsQuiet tt
refuse_phrase-IsQuiet Model.location names name = checks _ (λ _. raise_if-IsQuiet _ _)

ensure_nonterminal-IsQuiet : (i : Item) → IsQuiet (ensure_nonterminal i)
unfolding ensure_nonterminal
ensure_nonterminal-IsQuiet i = raise_if-IsQuiet _ _

module _ (self : Service) (m : self.autocommit ≡ false) where
  -- the commit at the end, and the value that is returned
  commits_last : {A : Type 0} (a : A) → IsQuiet (commit self >>= λ _. pure a)
  commits_last a = bind-IsQuiet (commit-IsQuiet self m) (λ _. pure-IsQuiet a)

  create_node-IsQuiet :
      (k : Model) (name : Text) (parent : Option ℕ) (text : Option Text)
      → IsQuiet (create_node self k name parent text)
  unfolding create_node
  create_node-IsQuiet k name parent text =
      bind-IsQuiet (refuse_phrase-IsQuiet k self.names name) (λ _. checks _ (λ _.
        reads _ (λ _.
          reads _ (λ _. reads _ (λ _. bind-IsQuiet (modify-IsQuiet _) (λ _. commits_last _))))))

  target_names-IsQuiet :
      (k : Model) (node : Node) (name : Option Text) → IsQuiet (target_names self k node name)
  unfolding target_names
  target_names-IsQuiet k node none = pure-IsQuiet _
  target_names-IsQuiet k node (some name) =
      bind-IsQuiet (refuse_phrase-IsQuiet k self.names name) (λ _. checks _ (λ _. pure-IsQuiet _))

  write_node-IsQuiet : (k : Model) (node target : Node) → IsQuiet (write_node self k node target)
  unfolding write_node
  write_node-IsQuiet k node target =
      if-IsQuiet _ (pure-IsQuiet _) (bind-IsQuiet (modify-IsQuiet _) (λ _. commits_last _))

  update_node-IsQuiet :
      (k : Model) (key : ℕ) (patch : NodePatch) → IsQuiet (update_node self k key patch)
  unfolding update_node update_tree_node
  update_node-IsQuiet k key patch = reads _ (λ node.
      bind-IsQuiet (target_names-IsQuiet k node patch.name)
        (λ names. reads _ (λ _. reads _ (λ _. reads _ (λ _. write_node-IsQuiet k node _)))))

  written-IsQuiet : (ns path : List Node) → IsQuiet (written ns path)
  written-IsQuiet [] path = lift-IsQuiet _
  written-IsQuiet (n ∷ ns) path = pure-IsQuiet _

  write_path-IsQuiet : (text : Option Text) (p : Plan) → IsQuiet (write_path self text p)
  unfolding write_path
  write_path-IsQuiet text (none, path, []) = lift-IsQuiet _
  write_path-IsQuiet text (some n, path, []) = pure-IsQuiet _
  write_path-IsQuiet text (current, path, c ∷ cs) = reads _ (λ nodes. guarded-IsQuiet self m (
      bind-IsQuiet (modify-IsQuiet _) (λ _.
        bind-IsQuiet (flush-IsQuiet self)
          (λ _. bind-IsQuiet (commit-IsQuiet self m) (λ _. written-IsQuiet nodes path)))))

  pub create_location_path-IsQuiet :
      (values : List Text) (parent : Option ℕ) (reuse : Bool) (text : Option Text)
      → IsQuiet (create_location_path self values parent reuse text)
  unfolding create_location_path
  create_location_path-IsQuiet values parent reuse text = bind-IsQuiet (raise_if-IsQuiet _ _) (λ _.
      checks _ (λ _. bind-IsQuiet (raise_if-IsQuiet _ _) (λ _.
        bind-IsQuiet (raise_if-IsQuiet _ _) (λ _.
          bind-IsQuiet (raise_if-IsQuiet _ _)
            (λ _. reads _ (λ _. reads _ (λ p. write_path-IsQuiet text p)))))))

  create_item-IsQuiet : (args : NewItem) → IsQuiet (create_item self args)
  unfolding create_item insert_item
  create_item-IsQuiet args = checks _ (λ _. checks _ (λ _. reads _ (λ _. reads _ (λ _. reads _ (λ _.
      checks _ (λ _. bind-IsQuiet (raise_if-IsQuiet _ _) (λ _. reads _ (λ _.
        bind-IsQuiet (modify-IsQuiet _) (λ _. bind-IsQuiet (flush-IsQuiet self) (λ _.
          bind-IsQuiet (link_tags-IsQuiet self m [] args.tags) (λ _.
            bind-IsQuiet (modify-IsQuiet _) (λ _. reads _ (λ _.
              reads _ (λ _. bind-IsQuiet (modify-IsQuiet _) (λ _. commits_last _)))))))))))))))

  category_evidence-IsQuiet : (i : Item) (t : Target) → IsQuiet (category_evidence i t)
  unfolding category_evidence
  category_evidence-IsQuiet i t =
      if-IsQuiet _ (pure-IsQuiet _) (reads _ (λ _. reads _ (λ _. pure-IsQuiet _)))

  tags_after-IsQuiet : (i : Item) (tags : Option (List Text)) → IsQuiet (tags_after self i tags)
  unfolding tags_after
  tags_after-IsQuiet i none = pure-IsQuiet _
  tags_after-IsQuiet i (some values) = link_tags-IsQuiet self m [] values

  update_item-IsQuiet : (k : ℕ) (patch : ItemPatch) → IsQuiet (update_item self k patch)
  unfolding update_item write_item
  update_item-IsQuiet k patch = reads _ (λ i. checks _ (λ _. reads _ (λ _. checks _ (λ _.
      bind-IsQuiet (raise_if-IsQuiet _ _) (λ _. bind-IsQuiet (raise_if-IsQuiet _ _) (λ _.
        reads _ (λ _. bind-IsQuiet (category_evidence-IsQuiet i _) (λ _. reads _ (λ tags.
          if-IsQuiet _ (pure-IsQuiet _) (
            bind-IsQuiet (tags_after-IsQuiet i tags) (λ _.
              bind-IsQuiet (modify-IsQuiet _)
                (λ _. bind-IsQuiet (modify-IsQuiet _) (λ _. commits_last _)))))))))))))

  split-IsQuiet :
      (i : Item) (p : Option Portion) (text : Option Text)
      → IsQuiet (split_for_portion self i p text)
  unfolding split_for_portion split_off
  split-IsQuiet i none text = pure-IsQuiet _
  split-IsQuiet i (some p) text = checks _ (λ _. checks _ (λ _. if-IsQuiet _ (pure-IsQuiet _) (
      bind-IsQuiet (modify-IsQuiet _) (λ _. reads _ (λ _. bind-IsQuiet (modify-IsQuiet _) (λ _.
        bind-IsQuiet (flush-IsQuiet self) (λ _. reads _ (λ names.
          bind-IsQuiet (link_tags-IsQuiet self m [] names) (λ _.
            bind-IsQuiet (modify-IsQuiet _) (λ _.
              bind-IsQuiet (modify-IsQuiet _)
                (λ _. bind-IsQuiet (modify-IsQuiet _) (λ _. pure-IsQuiet _))))))))))))

  relocate-IsQuiet :
      (before after : Item) (type : Transition) (from_location to_location : Option Node)
      (change : Option (Change ItemState)) (extra : Option Removal) (text : Option Text)
      → IsQuiet (relocate self before after type from_location to_location change extra text)
  unfolding relocate record_location_transition
  relocate-IsQuiet before after type from_location to_location change extra text =
      bind-IsQuiet (modify-IsQuiet _)
        (λ _. bind-IsQuiet (reads _ (λ _. reads _ (λ _. modify-IsQuiet _))) (λ _. commits_last _))

  move_item-IsQuiet :
      (k : ℕ) (location : Option ℕ) (portion : Option PortionInput) (text : Option Text)
      → IsQuiet (move_item self k location portion text)
  unfolding move_item
  move_item-IsQuiet k none portion text = lift-IsQuiet _
  move_item-IsQuiet k (some location) portion text = reads _ (λ i.
      bind-IsQuiet (raise_if-IsQuiet _ _) (λ _. reads _ (λ _. if-IsQuiet _ (pure-IsQuiet _) (
        checks _ (λ part. guarded-IsQuiet self m (
          bind-IsQuiet (split-IsQuiet i part text)
            (λ _. reads _ (λ _. relocate-IsQuiet _ _ _ _ _ _ _ text))))))))

  take_item-IsQuiet :
      (k : ℕ) (portion : Option PortionInput) (text : Option Text)
      → IsQuiet (take_item self k portion text)
  unfolding take_item
  take_item-IsQuiet k portion text = reads _ (λ i. bind-IsQuiet (ensure_nonterminal-IsQuiet i) (λ _.
      if-IsQuiet _ (pure-IsQuiet _) (
        checks _ (λ part. guarded-IsQuiet self m (
          bind-IsQuiet (split-IsQuiet i part text)
            (λ _. reads _ (λ _. relocate-IsQuiet _ _ _ _ _ _ _ text)))))))

  mark_item_location_unknown-IsQuiet :
      (k : ℕ) (text : Option Text) → IsQuiet (mark_item_location_unknown self k text)
  unfolding mark_item_location_unknown
  mark_item_location_unknown-IsQuiet k text = reads _ (λ i.
      bind-IsQuiet (ensure_nonterminal-IsQuiet i)
        (λ _. if-IsQuiet _ (pure-IsQuiet _) (reads _ (λ _. relocate-IsQuiet _ _ _ _ _ _ _ text))))

  remove_item-IsQuiet :
      (k : ℕ) (reason source : Text) (portion : Option PortionInput) (text : Option Text)
      → IsQuiet (remove_item self k reason source portion text)
  unfolding remove_item
  remove_item-IsQuiet k reason source portion text = checks _ (λ _. reads _ (λ i.
      bind-IsQuiet (ensure_nonterminal-IsQuiet i) (λ _. checks _ (λ part. guarded-IsQuiet self m (
        bind-IsQuiet (split-IsQuiet i part text)
          (λ _. reads _ (λ _. relocate-IsQuiet _ _ _ _ _ _ _ text)))))))

  restore_item-IsQuiet :
      (k : ℕ) (state : Text) (location : Option ℕ) (text : Option Text)
      → IsQuiet (restore_item self k state location text)
  unfolding restore_item
  restore_item-IsQuiet k state location text = reads _ (λ i.
      bind-IsQuiet (raise_if-IsQuiet _ _) (λ _. checks _ (λ _.
        bind-IsQuiet (raise_if-IsQuiet _ _)
          (λ _. reads _ (λ _. relocate-IsQuiet _ _ _ _ _ _ _ text)))))

  change_item_quantity-IsQuiet :
      (k : ℕ) (mode : Text) (value : Option ℤ) (reason source : Text) (text : Option Text)
      → IsQuiet (change_item_quantity self k mode value reason source text)
  unfolding change_item_quantity
  change_item_quantity-IsQuiet k mode value reason source text = checks _ (λ _. checks _ (λ _.
      reads _ (λ _. checks _ (λ _. if-IsQuiet _ (pure-IsQuiet _) (
        guarded-IsQuiet self m (
          bind-IsQuiet (modify-IsQuiet _)
            (λ _. bind-IsQuiet (modify-IsQuiet _) (λ _. commits_last _))))))))

  attach_item_photo-IsQuiet :
      (k : ℕ) (provider reference : Text) (caption : Option Text) (position : ℤ)
      → IsQuiet (attach_item_photo self k provider reference caption position)
  unfolding attach_item_photo
  attach_item_photo-IsQuiet k provider reference caption position = reads _ (λ _. checks _ (λ _.
      checks _ (λ _.
        checks _ (λ _.
          checks _ (λ _. reads _ (λ _. reads _ (λ _. insert_photo-IsQuiet self m _ false)))))))

  pub execute-IsQuiet : (r : Request) → IsQuiet (execute self r)
  unfolding execute
  execute-IsQuiet (Request.create_tree_node k name parent text) =
      bind-IsQuiet (create_node-IsQuiet k name parent text) (λ _. pure-IsQuiet _)
  execute-IsQuiet (Request.create_path names parent reuse text) =
      bind-IsQuiet (create_location_path-IsQuiet names parent reuse text) (λ _. pure-IsQuiet _)
  execute-IsQuiet (Request.change_tree_node k key patch) =
      bind-IsQuiet (update_node-IsQuiet k key patch) (λ _. pure-IsQuiet _)
  execute-IsQuiet (Request.create args) =
      bind-IsQuiet (create_item-IsQuiet args) (λ _. pure-IsQuiet _)
  execute-IsQuiet (Request.update k patch) =
      bind-IsQuiet (update_item-IsQuiet k patch) (λ _. pure-IsQuiet _)
  execute-IsQuiet (Request.move k location portion text) =
      bind-IsQuiet (move_item-IsQuiet k location portion text) (λ _. pure-IsQuiet _)
  execute-IsQuiet (Request.take k portion text) =
      bind-IsQuiet (take_item-IsQuiet k portion text) (λ _. pure-IsQuiet _)
  execute-IsQuiet (Request.mark_unknown k text) =
      bind-IsQuiet (mark_item_location_unknown-IsQuiet k text) (λ _. pure-IsQuiet _)
  execute-IsQuiet (Request.remove k reason source portion text) =
      bind-IsQuiet (remove_item-IsQuiet k reason source portion text) (λ _. pure-IsQuiet _)
  execute-IsQuiet (Request.restore k state location text) =
      bind-IsQuiet (restore_item-IsQuiet k state location text) (λ _. pure-IsQuiet _)
  execute-IsQuiet (Request.change_quantity k mode value reason source text) =
      bind-IsQuiet (change_item_quantity-IsQuiet k mode value reason source text)
        (λ _. pure-IsQuiet _)
  execute-IsQuiet (Request.attach_photo k provider reference caption position) =
      bind-IsQuiet (attach_item_photo-IsQuiet k provider reference caption position)
        (λ _. pure-IsQuiet _)
  execute-IsQuiet (Request.restore_photo key k provider reference caption position) =
      bind-IsQuiet (restore_item_photo-IsQuiet self m key k provider reference caption position)
        (λ _. pure-IsQuiet _)
  execute-IsQuiet (Request.update_photo key caption position) =
      bind-IsQuiet (update_item_photo-IsQuiet self m key caption position) (λ _. pure-IsQuiet _)
  execute-IsQuiet (Request.detach_photo key) =
      bind-IsQuiet (detach_item_photo-IsQuiet self m key) (λ _. pure-IsQuiet _)
