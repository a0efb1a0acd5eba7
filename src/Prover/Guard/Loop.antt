-- ===== src/Prover/Guard/Loop.antt =====
-- Induction over the calls of a round.
use lean_econ_api.Prelude.{List, [], ◌∷◌, ◌≡◌, refl, ℕ}
use lean_econ_api.Prover.Guard.{
  Context, State, FunctionCall, FunctionResult, Pass, Round, exceeded, passed, stopped, finished,
  guard_call, guard_loop, execute_function_calls, pass_state, round_state, with_result, or_fallback,
}

module _ {W J : Type 0} (ctx : Context W J) (n : ℕ) where
  module _ (P : State W J → Type 0)
      (keep : (call : FunctionCall J) (s : State W J)
        → P s
        → P (pass_state (guard_call ctx n call s))) where
    loop_keeps :
        (calls : List (FunctionCall J)) (s : State W J)
        → P s
        → P (round_state (guard_loop ctx n calls s))
    unfolding guard_loop
    loop_keeps [] s h = h
    loop_keeps (call ∷ calls) s h = go (guard_call ctx n call s) (loop_keeps calls) (keep call s h)
      where
        rest :
            (r : FunctionResult) (x : Round W J)
            → P (round_state x)
            → P (round_state (with_result ctx n r x))
        rest r (stopped m t) q = q
        rest r (finished rs t) q = q

        go :
            (p : Pass W J)
            → ((t : State W J) → P t → P (round_state (guard_loop ctx n calls t)))
            → P (pass_state p)
            → P (
                round_state (elim p [
                  | exceeded m t ↦ stopped m t
                  | passed r t ↦ with_result ctx n r (guard_loop ctx n calls t)
                ]))
        go (exceeded m t) ih q = q
        go (passed r t) ih q = rest r (guard_loop ctx n calls t) (ih t q)

    -- What every pass keeps, a round keeps, also one that raises.
    pub round_keeps :
        (calls : List (FunctionCall J)) (s : State W J)
        → P s
        → P (round_state (execute_function_calls ctx n calls s))
    unfolding execute_function_calls
    round_keeps calls s h = go (guard_loop ctx n calls s) (loop_keeps calls s h)
      where
        go :
            (x : Round W J)
            → P (round_state x)
            → P (
                round_state (elim x [
                  | stopped m t ↦ stopped m t
                  | finished rs t ↦ finished (or_fallback ctx n calls rs) t
                ]))
        go (stopped m t) q = q
        go (finished rs t) q = q

  invert-with_result :
      (r : FunctionResult) (x : Round W J) (rs : List FunctionResult) (s' : State W J)
      → with_result ctx n r x ≡ finished rs s'
      → (rs' : List FunctionResult) × (x ≡ finished rs' s') × (rs ≡ r ∷ rs')
  invert-with_result r (stopped m t) rs s' e = cc
  invert-with_result r (finished rs' t) rs s' e = (rs', cc, cc)

  -- A loop that finishes took a pass for its first call, and finished on the others.
  pub guard_loop-cons :
      (call : FunctionCall J) (calls : List (FunctionCall J)) (s : State W J)
      (rs : List FunctionResult) (s' : State W J)
      → guard_loop ctx n (call ∷ calls) s ≡ finished rs s'
      → (r : FunctionResult) × (t : State W J) × (rs' : List FunctionResult) × (guard_call ctx n
            call s
          ≡ passed r t)
        × (guard_loop ctx n calls t ≡ finished rs' s')
        × (rs ≡ r ∷ rs')
  unfolding guard_loop
  guard_loop-cons call calls s rs s' e = go (guard_call ctx n call s) e
    where
      go :
          (p : Pass W J)
          → (elim p [
            | exceeded m t ↦ stopped m t
            | passed r t ↦ with_result ctx n r (guard_loop ctx n calls t)
          ])
            ≡ finished rs s'
          → (r : FunctionResult) × (t : State W J) × (rs' : List FunctionResult) × (p ≡ passed r t)
            × (guard_loop ctx n calls t ≡ finished rs' s')
            × (rs ≡ r ∷ rs')
      go (exceeded m t) e = cc
      go (passed r t) e =
          let (rs', x, y) = invert-with_result r (guard_loop ctx n calls t) rs s' e in
          (r, t, rs', refl, x, y)
