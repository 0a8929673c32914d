-- ===== src/Runner/Dispatchers.antt =====
-- agent/runner.py: what is asked of the tool dispatcher, an interface of the runner.
use ah_there_it_is.Base.{ℕ, ◌≡◌, Bool, ◌||◌, List, [], any}
use ah_there_it_is.Text.{Text}
use ah_there_it_is.Receipts.{MutationReceipt}
use ah_there_it_is.Runner.Protocol.{ToolResult}
use ah_there_it_is.Runner.Turn.{Dispatcher, says_changed}
use ah_there_it_is.Chat.Store.{Store, ChatSession, ok}
use ah_there_it_is.Chat.Execute.{receipt_changed}

-- nothing was committed since `c` was, and only what the tools may change is pending
abbrev pub Confined : {W : Type 0} → Store W → ChatSession W → Type 0
Confined {W} c s = (s.committed ≡ c) × ((w : W) × (s.working ≡ record c { world = w }))

abbrev pub any_changed : List MutationReceipt → Bool
any_changed rs = any receipt_changed rs

-- A dispatcher that does not commit, and changes only what the tools may change; whose new receipts
-- say that something changed exactly when the result does.
pub record IsDispatcher {W S : Type 0} (d : Dispatcher W S) : Type 0 where
  pub starts : (text : Text) (c : ℕ) → d.receipts (d.start text c) ≡ []
  pub begins : (st : S) → d.receipts (d.begin_round st) ≡ d.receipts st
  pub ends : (st : S) → d.receipts (d.end_round st) ≡ d.receipts st
  pub confined :
      (name arguments : Text) (st : S) (c : Store W) (s : ChatSession W)
      → Confined c s
      → (let (r, st', s') = d.execute name arguments st s in Confined c s')
  pub tells :
      (name arguments : Text) (st : S) (s : ChatSession W) (r : ToolResult)
      → (let (x, st', s') = d.execute name arguments st s in
          x ≡ ok r → any_changed (d.receipts st') ≡ (any_changed (d.receipts st) || says_changed r))
