-- ===== src/Prover/Guard/Budget.antt =====
-- The budgets of a round of calls, and when a round stops.
use lean_econ_api.Prelude.{ℕ, ◌+◌, ◌<◌, String, List, [], ◌∷◌, ◌≡◌, refl, arith, length, ap, ◌∙◌}
use mathlib.Core.Path.{subst}
use lean_econ_api.Prover.Guard.{
  Context, State, FunctionCall, FunctionResult, Round, stopped, finished, verdict, guard_call,
  guard_loop, execute_function_calls, pass_state, round_state, or_fallback, fallback_results,
}
use lean_econ_api.Prover.Guard.Loop.{round_keeps, guard_loop-cons}
use lean_econ_api.Prover.Guard.Bounds.{
  IsBounded, SameLimits, enact-IsBounded, SameLimits-enact, total-enact,
}

module _ {W J : Type 0} (ctx : Context W J) (n : ℕ) where
  guard_call-IsBounded :
      (call : FunctionCall J) (s : State W J)
      → IsBounded s.tracker
      → IsBounded (pass_state (guard_call ctx n call s)).tracker
  unfolding guard_call
  guard_call-IsBounded call s b = enact-IsBounded ctx n call (verdict ctx n call s) s refl b

  -- From counters within their limits, whatever the model asks for and the tools do, a round of
  -- calls ends with the counters within their limits: at most `max_total_tool_calls` calls,
  -- `max_search_tool_calls` searches that ran, five writes since the last diagnostics, and
  -- `max_consecutive_read_only_calls` reads since the last write. This holds also if it raises.
  pub execute_function_calls-IsBounded :
      (calls : List (FunctionCall J)) (s : State W J)
      → IsBounded s.tracker
      → IsBounded (round_state (execute_function_calls ctx n calls s)).tracker
  execute_function_calls-IsBounded =
      round_keeps ctx n (λ s. IsBounded s.tracker) guard_call-IsBounded

  guard_loop-answers :
      (calls : List (FunctionCall J)) (s : State W J) (rs : List FunctionResult) (s' : State W J)
      → guard_loop ctx n calls s ≡ finished rs s'
      → (length rs ≡ length calls)
        × (s'.tracker.total_tool_calls ≡ s.tracker.total_tool_calls + length calls)
  guard_loop-answers [] s rs s' e = unfold guard_loop in ground arith
  guard_loop-answers (call ∷ calls) s rs s' e =
      let (r, t, rs', p, x, y) = guard_loop-cons ctx n call calls s rs s' e in
      let (lengths, totals) = guard_loop-answers calls t rs' s' x in
      let one = total-enact ctx n call (verdict ctx n call s) s t r (unfold guard_call in p) in
      (ap length y ∙ omega (arith, lengths), omega (arith, totals, one))

  execute-guard_loop :
      (calls : List (FunctionCall J)) (s : State W J) (rs : List FunctionResult) (s' : State W J)
      → execute_function_calls ctx n calls s ≡ finished rs s'
      → guard_loop ctx n calls s ≡ finished rs s'
  unfolding execute_function_calls fallback_results
  execute-guard_loop [] s rs s' e = unfold guard_loop in e
  execute-guard_loop (call ∷ calls) s rs s' e = go (guard_loop ctx n (call ∷ calls) s) refl e
    where
      go :
          (x : Round W J)
          → guard_loop ctx n (call ∷ calls) s ≡ x
          → (elim x [
            | stopped m t ↦ stopped m t
            | finished qs t ↦ finished (or_fallback ctx n (call ∷ calls) qs) t
          ])
            ≡ finished rs s'
          → x ≡ finished rs s'
      go (stopped m t) h e = cc
      go (finished [] t) h e =
          absurd (omega (arith, (guard_loop-answers (call ∷ calls) s [] t h).0))
      go (finished (q ∷ qs) t) h e = e

  pub execute_function_calls-answers :
      (calls : List (FunctionCall J)) (s : State W J) (rs : List FunctionResult) (s' : State W J)
      → execute_function_calls ctx n calls s ≡ finished rs s'
      → (guard_loop ctx n calls s ≡ finished rs s')
        × (length rs ≡ length calls)
        × (s'.tracker.total_tool_calls ≡ s.tracker.total_tool_calls + length calls)
  execute_function_calls-answers calls s rs s' e =
      let g = execute-guard_loop calls s rs s' e in
      let (lengths, totals) = guard_loop-answers calls s rs s' g in (g, lengths, totals)

  SameLimits-guard_loop :
      (calls : List (FunctionCall J)) (s : State W J) (rs : List FunctionResult) (s' : State W J)
      → guard_loop ctx n calls s ≡ finished rs s'
      → SameLimits s.tracker s'.tracker
  SameLimits-guard_loop [] s rs s' e =
      let same : s ≡ s' = unfold guard_loop in cc in
      rw (← same) (record { total = refl; search = refl; read_only = refl })
  SameLimits-guard_loop (call ∷ calls) s rs s' e =
      let (r, t, rs', p, x, y) = guard_loop-cons ctx n call calls s rs s' e in
      let later = SameLimits-guard_loop calls t rs' s' x in
      let first : SameLimits s.tracker t.tracker =
        subst (λ q. SameLimits s.tracker (pass_state q).tracker) p
          (unfold guard_call in SameLimits-enact ctx n call (verdict ctx n call s) s) in
      omega (
        arith, later.total, later.search, later.read_only, first.total, first.search,
        first.read_only,
      )

  -- A round that asks for more calls than the total budget has left raises.
  pub execute_function_calls-stops :
      (calls : List (FunctionCall J)) (s : State W J)
      → IsBounded s.tracker
      → s.tracker.max_total_tool_calls < s.tracker.total_tool_calls + length calls
      → (m : String) × (s' : State W J) × (execute_function_calls ctx n calls s ≡ stopped m s')
  execute_function_calls-stops calls s b over = go (execute_function_calls ctx n calls s) refl
    where
      go :
          (x : Round W J)
          → execute_function_calls ctx n calls s ≡ x
          → (m : String) × (s' : State W J) × (x ≡ stopped m s')
      go (stopped m t) e = (m, t, refl)
      go (finished rs t) e =
          let (g, lengths, totals) = execute_function_calls-answers calls s rs t e in
          let bounded : IsBounded t.tracker =
            subst (λ x. IsBounded (round_state x).tracker) e
              (execute_function_calls-IsBounded calls s b) in
          let limits = SameLimits-guard_loop calls s rs t g in
          absurd (omega (arith, totals, bounded.total, limits.total))
