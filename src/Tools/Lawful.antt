-- ===== src/Tools/Lawful.antt =====
-- agent/tools.py: the dispatcher keeps the laws that the runner asks of one.
use ah_there_it_is.Base.{
  ℕ, ◌≡◌, refl, sym, ap, ◌∙◌, inl, inr, Bool, true, false, ◌||◌, Option, none, some, List, [], ◌∷◌,
  ◌++◌, Bool-cases, arith,
}
use ah_there_it_is.Text.{Text}
use ah_there_it_is.Domain.States.{Result, ok, err}
use ah_there_it_is.Db.{Db}
use ah_there_it_is.Session.{Session, flush}
use ah_there_it_is.Receipts.{AgentRunLog, MutationReceipt}
use ah_there_it_is.Runner.Protocol.{ToolResult}
use ah_there_it_is.Runner.Turn.{says_changed}
use ah_there_it_is.Tools.Receipts.{mutation_receipt}
use ah_there_it_is.Runner.Dispatchers.{Confined, any_changed, IsDispatcher}
use ah_there_it_is.Chat.Store.{Store, ChatSession, ChatResult}
use ah_there_it_is.Chat.Execute.{receipt_changed}
use ah_there_it_is.Inventory.Requests.{Reply, Request, execute}
use ah_there_it_is.Inventory.Paths.{create_location_path, CreatedLocationPath}
use ah_there_it_is.Undo.Compensate.{undo}
use ah_there_it_is.Undo.Quiet.{flush-IsQuiet}
use ah_there_it_is.Undo.Atomic.{Undone}
use ah_there_it_is.Undo.Whole.{undo_is_atomic}
use ah_there_it_is.Tools.Resolution.{Kind}
use ah_there_it_is.Tools.Capabilities.{
  ToolBox, ToolState, ToolOutcome, did, failed, Failure, service, search_tool,
}
use ah_there_it_is.Tools.NewPaths.{ToolM, ToolReply, create_path, allowed_path, path_result}
use ah_there_it_is.Tools.Operations.{
  Write, Reference, references, request_operation, served_result, tool_operation, forces_lock,
  remembered,
}
use ah_there_it_is.Tools.Writes.{
  admit, all_authority, all_current, has_reference, locked_write, after_flush, validated_write,
  admitted, write_tool,
}
use ah_there_it_is.Tools.Quiet.{execute-IsQuiet, create_location_path-IsQuiet}
use ah_there_it_is.Tools.Dispatcher.{
  Call, search, read, write, undo_last, Parsed, unknown_tool, invalid_arguments, valid, Toolkit,
  Dispatching, Executed, session_of, with_session, is_caught, box_of, refused, after_read,
  after_search, after_write, after_undo, handled, with_evidence, execute_parsed, execute_tool,
  tool_dispatcher,
}

-- a step of a tool that commits nothing
abbrev pub KeepsCommitted : {A : Type 0} → ToolM A → Type 0
KeepsCommitted operation = (s : Session) → (operation s).1.committed ≡ s.committed

module _ (box : ToolBox) (off : box.service.autocommit ≡ false) where
  served_keeps :
      (x : Result Reply × Session) (s : Session)
      → x.1.committed ≡ s.committed
      → (served_result x).1.committed ≡ s.committed
  served_keeps (ok reply, s') s h = h
  served_keeps (err e, s') s h = h

  request_keeps : (r : Result Request) → KeepsCommitted (request_operation box r)
  request_keeps (err e) s = refl
  request_keeps (ok r) s =
      served_keeps (execute box.service r s) s ((execute-IsQuiet box.service off r).keeps s)

  path_keeps :
      (x : Result CreatedLocationPath × Session) (s : Session)
      → x.1.committed ≡ s.committed
      → (path_result x).1.committed ≡ s.committed
  path_keeps (ok p, s') s h = h
  path_keeps (err e, s') s h = h

  allowed_keeps :
      (names : List Text) (parent : Option ℕ) (reuse : Bool) (text : Option Text)
      (x : ToolOutcome Unit)
      → KeepsCommitted (allowed_path box names parent reuse text x)
  allowed_keeps names parent reuse text (failed f) s = refl
  allowed_keeps names parent reuse text (did u) s =
      path_keeps (create_location_path box.service names parent reuse text s) s
        ((create_location_path-IsQuiet box.service off names parent reuse text).keeps s)

  create_keeps :
      (name : Text) (parent : Option ℕ) (text : Option Text)
      (phrase : Result (Option (List Text × List Text)))
      → KeepsCommitted (create_path box name parent text phrase)
  unfolding create_path
  create_keeps name parent text (err e) s = refl
  create_keeps name parent text (ok none) s = allowed_keeps _ parent _ text _ s
  create_keeps name parent text (ok (some (names, relations))) s =
      allowed_keeps names parent _ text _ s

  operation_keeps : (w : Write) → KeepsCommitted (tool_operation box w)
  unfolding tool_operation
  operation_keeps (Write.new_location name parent text) s =
      create_keeps name parent text (box.phrase name) s
  operation_keeps (Write.new_category name parent text) s = request_keeps _ s
  operation_keeps (Write.new_item args) s = request_keeps _ s
  operation_keeps (Write.change_item k patch) s = request_keeps _ s
  operation_keeps (Write.move_to k location portion) s = request_keeps _ s
  operation_keeps (Write.take_along k portion) s = request_keeps _ s
  operation_keeps (Write.lose_place k) s = request_keeps _ s
  operation_keeps (Write.set_quantity k mode value reason source) s = request_keeps _ s
  operation_keeps (Write.remove_part k reason source portion) s = request_keeps _ s
  operation_keeps (Write.bring_back k state location) s = request_keeps _ s
  operation_keeps (Write.attach k provider reference caption position) s = request_keeps _ s
  operation_keeps (Write.change_photo k caption position) s = request_keeps _ s
  operation_keeps (Write.detach k) s = request_keeps _ s

  module _ (t : ToolState) {A : Type 0} (operation : ToolM A) (h : KeepsCommitted operation) where
    locked_keeps : (x : ToolOutcome Unit) → KeepsCommitted (locked_write box operation x)
    locked_keeps (failed f) s = refl
    locked_keeps (did u) s = h s

    flushed_keeps :
        (refs : List Reference) (x : Result Unit × Session)
        → (after_flush box t refs operation x).1.committed ≡ x.1.committed
    flushed_keeps refs (err e, s) = refl
    flushed_keeps refs (ok u, s) = locked_keeps (all_current box t s.working refs) s

    validated_keeps :
        (force : Bool) (refs : List Reference)
        → KeepsCommitted (validated_write box force t refs operation)
    unfolding validated_write
    validated_keeps force refs s = elim (Bool-cases (all_authority t refs)) [
      | inr n ↦ rw n refl
      | inl y ↦ elim (Bool-cases (force || has_reference refs)) [
        | inr m ↦ rw (y, m) (h s)
        | inl m ↦
            rw (y, m)
              (flushed_keeps refs (flush box.service s) ∙ (flush-IsQuiet box.service).keeps s)
      ]
    ]

  remembered_keeps :
      (w : Write) (t : ToolState) (x : ToolOutcome ToolReply × Session)
      → (remembered w t x).2.committed ≡ x.1.committed
  remembered_keeps w t (did reply, s) = refl
  remembered_keeps w t (failed f, s) = refl

  admitted_keeps :
      (w : Write) (t : ToolState) (x : ToolOutcome Unit) (s : Session)
      → (admitted box w t x s).2.committed ≡ s.committed
  admitted_keeps w t (failed f) s = refl
  admitted_keeps w t (did u) s =
      remembered_keeps w t
        (validated_write box (forces_lock w) t (references w) (tool_operation box w) s)
      ∙ validated_keeps t (tool_operation box w) (operation_keeps w) (forces_lock w) (references w)
          s

  pub write_tool_keeps :
      (w : Write) (t : ToolState) (s : Session) → (write_tool box w t s).2.committed ≡ s.committed
  unfolding write_tool
  write_tool_keeps w t s = admitted_keeps w t (admit box w t) s

  Undone-keeps :
      (s : Session) (x : Result (AgentRunLog × List ℕ) × Session)
      → Undone box.service s x.0 x.1
      → x.1.committed ≡ s.committed
  Undone-keeps s (ok a, t) h = h.1 off
  Undone-keeps s (err e, t) h = h.0

-- a session whose committed world is kept stays confined
module _ (c : Store Db) (s : ChatSession Db) (h : Confined c s) where
  still-Confined : (x : Session) → x.committed ≡ s.committed.world → Confined c (with_session x s)
  still-Confined x p = (
    ap (λ (w : Db). record s.committed { world = w }) p ∙ h.0,
    (x.working, ap (λ (d : Store Db). record d { world = x.working }) h.1.1),
  )

any_last :
    (rs : List MutationReceipt) (r : MutationReceipt)
    → any_changed (rs ++ r ∷ []) ≡ (any_changed rs || receipt_changed r)
any_last [] r = or_false r.changed
  where
    or_false : (b : Bool) → (b || false) ≡ b
    or_false true = refl
    or_false false = refl
any_last (q ∷ rs) r = ground (arith, any_last rs r)

abbrev result_changed : ChatResult ToolResult → Bool
result_changed (ChatResult.ok r) = says_changed r
result_changed (ChatResult.err e) = false

-- the laws of one execution
abbrev IsLawful : Store Db → ChatSession Db → Dispatching → Executed → Type 0
IsLawful c s st (x, st', s') =
    (Confined c s → Confined c s')
    × ((r : ToolResult)
        → x ≡ ChatResult.ok r
        → any_changed st'.receipts ≡ (any_changed st.receipts || says_changed r))

module _ (kit : Toolkit) (c : Store Db) (st : Dispatching) (s : ChatSession Db) where
  no_change : (b : Bool) → b ≡ (b || false)
  no_change true = refl
  no_change false = refl

  told :
      (x : ChatResult ToolResult) (b : Bool)
      → b ≡ (any_changed st.receipts || result_changed x)
      → (r : ToolResult) → x ≡ ChatResult.ok r
      → b ≡ (any_changed st.receipts || says_changed r)
  told x b p r e = p ∙ ap (λ y. any_changed st.receipts || result_changed y) e

  quiet_result :
      (x : ChatResult ToolResult) (t : ToolState) (y : Session)
      → result_changed x ≡ false
      → y.committed ≡ s.committed.world
      → IsLawful c s st (x, record st { tools = t }, with_session y s)
  quiet_result x t y p q = (
    λ h. still-Confined c s h y q,
    told x (any_changed st.receipts)
        (no_change (any_changed st.receipts) ∙ ap (λ b. any_changed st.receipts || b) (sym p)),
  )

  same_session :
      (x : ChatResult ToolResult) (t : ToolState)
      → result_changed x ≡ false
      → IsLawful c s st (x, record st { tools = t }, s)
  same_session x t p = (
    λ h. h,
    told x (any_changed st.receipts)
        (no_change (any_changed st.receipts) ∙ ap (λ b. any_changed st.receipts || b) (sym p)),
  )

  refused_says : (f : Failure) → result_changed (refused kit f) ≡ false
  refused_says f = elim (Bool-cases (is_caught f)) [ inl y ↦ rw y refl | inr n ↦ rw n refl ]

  write-IsLawful :
      (w : Write) (x : ToolOutcome ToolReply × ToolState × Session)
      → x.2.committed ≡ s.committed.world
      → IsLawful c s st (after_write kit w x st s)
  write-IsLawful w (failed f, t, y) q = quiet_result (refused kit f) t y (refused_says f) q
  write-IsLawful w (did reply, t, y) q = (
    λ h. still-Confined c s h y q,
    told _ _ (any_last st.receipts (mutation_receipt w reply s.working.world y.working)),
  )

  undo-IsLawful :
      (x : Result (AgentRunLog × List ℕ) × Session)
      → x.1.committed ≡ s.committed.world
      → IsLawful c s st (after_undo kit x st s)
  undo-IsLawful (err e, y) q = quiet_result _ st.tools y (refused_says (service e)) q
  undo-IsLawful (ok (run, []), y) q = quiet_result _ st.tools y refl q
  undo-IsLawful (ok (run, first ∷ rest), y) q =
      (λ h. still-Confined c s h y q, told _ _ (any_last st.receipts _))

  search-IsLawful :
      (kind : Kind) (x : ToolOutcome (List ℕ)) (t : ToolState)
      → IsLawful c s st (after_search kit kind x (record st { tools = t }) s)
  search-IsLawful kind (did ids) t = same_session _ t refl
  search-IsLawful kind (failed f) t = same_session _ t (refused_says f)

  read-IsLawful :
      (x : ToolOutcome Text) (t : ToolState)
      → IsLawful c s st (after_read kit x (record st { tools = t }) s)
  read-IsLawful (did text) t = same_session _ t refl
  read-IsLawful (failed f) t = same_session _ t (refused_says f)

  handled-IsLawful : (call : Call) → IsLawful c s st (handled kit call st s)
  unfolding handled
  handled-IsLawful (search kind query limit) =
      let (x, t) =
        search_tool (box_of kit st.original_text) kind query limit s.working.world st.tools in
      search-IsLawful kind x t
  handled-IsLawful (read name arguments) =
      let (x, t) = kit.reads name arguments st.tools s.working.world in read-IsLawful x t
  handled-IsLawful (write w) =
      write-IsLawful w (write_tool (box_of kit st.original_text) w st.tools (session_of s))
        (write_tool_keeps (box_of kit st.original_text) refl w st.tools (session_of s))
  handled-IsLawful undo_last =
      let box = box_of kit st.original_text in
      let x = undo box.service s.working.runs st.conversation_id (session_of s) in
      undo-IsLawful x (
        Undone-keeps box refl (session_of s) x
          (undo_is_atomic box.service s.working.runs st.conversation_id (session_of s)))

  with_evidence-IsLawful :
      (call : Call) (x : Executed) → IsLawful c s st x → IsLawful c s st (with_evidence kit call x)
  with_evidence-IsLawful call (x, st', s') l = l

parsed-IsLawful :
    (kit : Toolkit) (parsed : Parsed) (c : Store Db) (st : Dispatching) (s : ChatSession Db)
    → IsLawful c s st (execute_parsed kit parsed st s)
parsed-IsLawful kit unknown_tool c st s = same_session kit c st s _ st.tools refl
parsed-IsLawful kit (invalid_arguments message) c st s = same_session kit c st s _ st.tools refl
parsed-IsLawful kit (valid call) c st s =
    with_evidence-IsLawful kit c st s call (handled kit call st s)
      (handled-IsLawful kit c st s call)

-- The dispatcher that the runner makes commits nothing, changes nothing but the inventory, and says of
-- each result what its receipt says.
pub tool_dispatcher-IsDispatcher : (kit : Toolkit) → IsDispatcher (tool_dispatcher kit)
unfolding execute_tool
tool_dispatcher-IsDispatcher kit = record {
  starts = λ text c. refl;
  begins = λ st. refl;
  ends = λ st. refl;
  confined = λ name arguments st c s.
      (parsed-IsLawful kit (kit.parsed_call name arguments) c
        (record st { last_semantic_evidence = none }) s).0;
  tells = λ name arguments st s.
      (parsed-IsLawful kit (kit.parsed_call name arguments) s.committed
        (record st { last_semantic_evidence = none }) s).1;
}
