-- ===== src/Runner/Steps.antt =====
-- agent/runner.py: what holds before and after each step of a turn, until its answer is stored.
use ah_there_it_is.Base.{
  ℕ, ◌≤◌, ◌≡◌, refl, sym, ap, ◌∙◌, Bool, ◌||◌, List, [], ◌∷◌, Bool-cases, inl, inr,
}
use ah_there_it_is.Runner.Protocol.{ToolCall, ToolResult}
use ah_there_it_is.Runner.Turn.{
  Dispatcher, Turn, TurnM, proceed, after_call, run_call, run_calls, tool_round, says_changed,
  ends_turn,
}
use ah_there_it_is.Runner.Dispatchers.{Confined, IsDispatcher, any_changed}
use ah_there_it_is.Chat.Store.{Store, ChatResult, ok, err, ChatError}

module _ {W S : Type 0} (d : Dispatcher W S) (c : Store W) (max : ℕ) where
  -- nothing was committed, and no round is above the limit
  abbrev pub Safe : Turn W S → Type 0
  Safe t = Confined c t.session × (t.rounds ≤ max)

  -- `changed_seen` says what the receipts do
  abbrev pub Told : Turn W S → Type 0
  Told t = t.changed_seen ≡ any_changed (d.receipts t.state)

  abbrev pub Good : {A : Type 0} → ChatResult A × Turn W S → Type 0
  Good (ok a, t) = Safe t × Told t
  Good (err e, t) = Safe t

  pub proceed-Good :
      {A B : Type 0} (P : ChatResult B × Turn W S → Type 0) (x : ChatResult A × Turn W S)
      (f : A → TurnM W S B)
      → Good x
      → ((e : ChatError) (t : Turn W S) → Safe t → P (err e, t))
      → ((a : A) (t : Turn W S) → Safe t → Told t → P (f a t))
      → P (proceed x f)
  proceed-Good P (ok a, t) f h raised returned = returned a t h.0 h.1
  proceed-Good P (err e, t) f h raised returned = raised e t h

  module _ (h : IsDispatcher d) where
    after_call-Good :
        (call : ToolCall) (r : ChatResult ToolResult) (t : Turn W S) (seen : Bool)
        → Safe t
        → t.changed_seen ≡ seen
        → ((a : ToolResult)
            → r ≡ ok a
            → any_changed (d.receipts t.state) ≡ (seen || says_changed a))
        → Good (after_call d call r t)
    unfolding after_call
    after_call-Good call (err e) t seen safe same tells = safe
    after_call-Good call (ok a) t seen safe same tells =
        elim (Bool-cases (ends_turn call.name t.changed_seen a)) [
          | inl e ↦ rw e safe
          | inr e ↦ rw e (safe, rw same (sym (tells a refl)))
        ]

    run_call-Good : (call : ToolCall) (t : Turn W S) → Safe t → Told t → Good (run_call d call t)
    unfolding run_call
    run_call-Good call t safe told =
        let (r, st, s) = d.execute call.name call.arguments t.state t.session in
        after_call-Good call r (record t { state = st; session = s }) t.changed_seen
          (h.confined call.name call.arguments t.state c t.session safe.0, safe.1) refl
          (λ a e.
            h.tells call.name call.arguments t.state t.session a e
            ∙ ap (λ b. b || says_changed a) (sym told))

    run_calls-Good :
        (calls : List ToolCall) (t : Turn W S) → Safe t → Told t → Good (run_calls d calls t)
    unfolding run_calls
    run_calls-Good [] t safe told = (safe, told)
    run_calls-Good (call ∷ calls) t safe told =
        proceed-Good Good (run_call d call t) (λ _ t'. run_calls d calls t')
          (run_call-Good call t safe told) (λ e t' s. s) (λ a t' s k. run_calls-Good calls t' s k)

    ended-Good :
        (x : ChatResult Unit × Turn W S)
        → Good x
        → Good (let (r, t) = x in (r, record t { state = d.end_round t.state }))
    ended-Good (ok a, t) (safe, told) = (safe, told ∙ ap any_changed (sym (h.ends t.state)))
    ended-Good (err e, t) safe = safe

    pub tool_round-Good :
        (calls : List ToolCall) (t : Turn W S) → Safe t → Told t → Good (tool_round d calls t)
    unfolding tool_round
    tool_round-Good calls t safe told =
        ended-Good (run_calls d calls (record t { state = d.begin_round t.state })) (
          run_calls-Good calls (record t { state = d.begin_round t.state }) safe
            (told ∙ ap any_changed (sym (h.begins t.state))))
