-- ===== src/Prover/Guard/Texts.antt =====
-- What is fed back to the model: never a blank text.
use Prim.Native.String.{◌++◌ as ◌<>◌}
use lean_econ_api.Prelude.{
  ℕ, String, true, false, Option, none, some, List, [], ◌∷◌, ◌≡◌, refl, Bool-cases, inl, inr, All,
  sym,
}
use lean_econ_api.Text.{strip, is_empty}
use mathlib.Core.Path.{subst}
use lean_econ_api.Text.Laws.{is_visible, is_visible-append, not-is_empty-strip}
use lean_econ_api.Prover.Guard.Loop.{guard_loop-cons}
use lean_econ_api.Prover.Guard.Budget.{execute_function_calls-answers}
use lean_econ_api.Prover.Guard.{
  sanitize_tool_result_text, empty_tool_result_message, unavailable_tool_message, Context, State,
  FunctionCall, FunctionResult, Verdict, exhausted, looping, unavailable, duplicate,
  unproven_search, search_exhausted, unchecked, run, enact, refuse, conclude, Pass, exceeded,
  passed, finished, result_text, guard_loop, guard_call, verdict, execute_function_calls,
  duplicate_read_only_warning, search_precondition_warning, search_budget_warning,
  circuit_breaker_warning,
}

abbrev pub IsNotBlank : FunctionResult → Type 0
IsNotBlank r = is_empty (strip r.result) ≡ false

-- If a pass answers its call, it answers with a text that is not blank.
abbrev Speaks : {W J : Type 0} → Pass W J → Type 0
Speaks (exceeded m s) = Unit
Speaks (passed r s) = IsNotBlank r

around : (s t : String) → is_visible s ≡ true → is_empty (strip (s <> t)) ≡ false
around s t h = not-is_empty-strip (s <> t) (is_visible-append s t h)

sanitize-not-blank :
    (name : String) (t : Option String)
    → is_empty (strip (sanitize_tool_result_text name t)) ≡ false
unfolding sanitize_tool_result_text empty_tool_result_message is_visible
sanitize-not-blank name none = around _ _ refl
sanitize-not-blank name (some t) = elim (Bool-cases (is_empty (strip t))) [
  | inl blank ↦ rw blank (around _ _ refl)
  | inr visible ↦ rw visible visible
]

module _ {W J : Type 0} (ctx : Context W J) (n : ℕ) where
  enact-Speaks :
      (call : FunctionCall J) (v : Verdict) (s : State W J) → Speaks (enact ctx n v call s)
  unfolding enact refuse conclude unavailable_tool_message is_visible
  enact-Speaks call exhausted s = tt
  enact-Speaks call looping s = tt
  enact-Speaks call unavailable s = around _ _ refl
  enact-Speaks call duplicate s = not-is_empty-strip duplicate_read_only_warning refl
  enact-Speaks call unproven_search s = not-is_empty-strip search_precondition_warning refl
  enact-Speaks call search_exhausted s = not-is_empty-strip search_budget_warning refl
  enact-Speaks call unchecked s = not-is_empty-strip circuit_breaker_warning refl
  enact-Speaks call run s =
      sanitize-not-blank call.name (result_text ctx n call (ctx.execute s.world call).outcome)

  guard_loop-not-blank :
      (calls : List (FunctionCall J)) (s : State W J) (rs : List FunctionResult) (s' : State W J)
      → guard_loop ctx n calls s ≡ finished rs s'
      → All IsNotBlank rs
  guard_loop-not-blank [] s rs s' e =
      let none_left : [] ≡ rs = unfold guard_loop in cc in subst (All IsNotBlank) none_left tt
  guard_loop-not-blank (call ∷ calls) s rs s' e =
      let (r, t, rs', p, x, y) = guard_loop-cons ctx n call calls s rs s' e in
      let first : IsNotBlank r =
        subst Speaks p (unfold guard_call in enact-Speaks call (verdict ctx n call s) s) in
      subst (All IsNotBlank) (sym y) (first, guard_loop-not-blank calls t rs' s' x)

  -- Every result that a round hands back to the model is a text that is not blank, whatever the
  -- tools returned or raised.
  pub execute_function_calls-not-blank :
      (calls : List (FunctionCall J)) (s : State W J) (rs : List FunctionResult) (s' : State W J)
      → execute_function_calls ctx n calls s ≡ finished rs s'
      → All IsNotBlank rs
  execute_function_calls-not-blank calls s rs s' e =
      guard_loop-not-blank calls s rs s' (execute_function_calls-answers ctx n calls s rs s' e).0
