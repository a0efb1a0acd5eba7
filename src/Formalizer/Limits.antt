-- ===== src/Formalizer/Limits.antt =====
-- The limits of a whole formalization, and what its result rests on.
use lean_econ_api.Prelude.{
  ℕ, ◌+◌, ◌≤◌, String, true, Option, none, some, List, [], ◌∷◌, ◌≡◌, ◌||◌, arith, refl, length,
  Step, raised, returned, step_state,
}
use lean_econ_api.Formalizer.{
  Stages, Work, Pass, continued, done, failed, run_attempt, run_attempts, fresh_work, exhausted,
  diagnose, diagnosed, diagnosing, diagnosis_messages, no_diagnosis, Diagnosis, formalize_fresh,
  max_formalization_validations, max_formalization_model_calls,
}
use lean_econ_api.Formalizer.Validations.{Spends, pass_work, IsHonest, IsNoCall}
use lean_econ_api.Formalizer.Attempts.{IsOneCall, run_attempt-Spends}

module _ {W : Type 0} (stages : Stages W) (calls : W → ℕ) where
  -- The calls of the model since `world`: those that were counted, and where a result is neither a
  -- success nor a refusal one more at most.
  abbrev pub CallsFrom : W → Pass W → Type 0
  CallsFrom world (continued w) = calls w.world ≡ calls world + w.model_calls
  CallsFrom world (failed m w) = calls w.world ≡ calls world + w.model_calls
  CallsFrom world (done r w) =
      ((r.success || r.formalization_failed) ≡ true → calls w.world ≡ calls world + w.model_calls)
      × (calls w.world ≤ calls world + w.model_calls + 1)

  -- The limits that `formalize` keeps.
  pub record IsWithin (world : W) (p : Pass W) : Type 0 where
    pub calls_made : CallsFrom world p
    pub model_calls : (pass_work p).model_calls ≤ max_formalization_model_calls
    pub validation_calls : (pass_work p).validation_calls ≤ max_formalization_validations
    pub methods : length (pass_work p).validation_methods ≤ (pass_work p).validation_calls
    pub honest : IsHonest stages p

  CallsFrom-made :
      (world : W) (p : Pass W)
      → calls (pass_work p).world ≡ calls world + (pass_work p).model_calls
      → CallsFrom world p
  CallsFrom-made world (continued w) e = e
  CallsFrom-made world (failed m w) e = e
  CallsFrom-made world (done r w) e = (λ _. e, omega (arith, e))

  -- the loop after a pass that has spent its share
  IsWithin-Spends :
      (world : W) (w : Work W) (k : ℕ) (p : Pass W)
      → IsWithin world (continued w)
      → w.model_calls + 1 ≤ max_formalization_model_calls
      → w.validation_calls + k ≤ max_formalization_validations
      → Spends stages calls w 1 k p
      → IsWithin world p
  IsWithin-Spends world w k p h room budget s = record {
    calls_made = CallsFrom-made world p (omega (arith, h.calls_made, s.calls_made, s.model_calls));
    model_calls = omega (arith, room, s.model_calls);
    validation_calls = omega (arith, budget, s.validation_calls);
    methods = s.methods h.methods;
    honest = s.honest;
  }

  fresh_work-IsWithin : (world : W) → IsWithin world (continued (fresh_work stages world))
  fresh_work-IsWithin world = record {
    calls_made = omega arith;
    model_calls = omega arith;
    validation_calls = omega arith;
    methods = omega arith;
    honest = tt;
  }

  module _ (no_call : IsNoCall stages calls) (one_call : IsOneCall stages calls) where
    diagnosed-calls : (x : Step W String) → calls (diagnosed stages x).1 ≡ calls (step_state x)
    unfolding diagnosed
    diagnosed-calls (raised m t) = refl
    diagnosed-calls (returned raw t) = refl

    diagnose-calls :
        (code : String) (errors : List String) (w : W)
        → calls (diagnose stages code errors w).1 ≤ calls w + 1
    unfolding diagnose
    diagnose-calls code errors w = go (stages.client_error w)
      where
        answer : Step W String
        answer = stages.call_model (diagnosis_messages stages code errors) diagnosing w

        go :
            (x : Option String)
            → let d : Diagnosis × W = elim x [
              | some message ↦ (no_diagnosis, w)
              | none ↦ diagnosed stages answer
            ] in
              calls d.1 ≤ calls w + 1
        go (some m) = omega arith
        go none =
            let made = one_call (diagnosis_messages stages code errors) diagnosing w in
            omega (arith, diagnosed-calls answer, made)

    IsWithin-exhausted :
        (world : W) (w : Work W)
        → IsWithin world (continued w)
        → IsWithin world (exhausted stages w)
    unfolding exhausted
    IsWithin-exhausted world w h = record {
      calls_made =
          (λ y. cc, omega (arith, h.calls_made, diagnose-calls w.lean_code w.last_errors w.world));
      model_calls = h.model_calls;
      validation_calls = h.validation_calls;
      methods = h.methods;
      honest = (λ y. cc, λ y. cc);
    }

    -- the second attempt, after a first one
    second_attempt :
        (world : W) (w : Work W)
        → Spends stages calls (fresh_work stages world) 1 2 (continued w)
        → IsWithin world (run_attempts stages (2 ∷ []) w)
    unfolding run_attempts
    second_attempt world w s = go (run_attempt stages 2 w) (
        IsWithin-Spends world w 1 (run_attempt stages 2 w)
          (IsWithin-Spends world (fresh_work stages world) 2 (continued w)
            (fresh_work-IsWithin world) (omega arith) (omega arith) s)
          (omega (arith, s.model_calls)) (omega (arith, s.validation_calls))
          (run_attempt-Spends stages calls no_call one_call 2 w))
      where
        go :
            (x : Pass W)
            → IsWithin world x
            → IsWithin world (elim x [
              | continued w' ↦ continued w'
              | done r w' ↦ done r w'
              | failed message w' ↦ failed message w'
            ])
        go (continued v) h = h
        go (done r v) h = h
        go (failed m v) h = h

    both_attempts :
        (world : W) → IsWithin world (run_attempts stages (1 ∷ 2 ∷ []) (fresh_work stages world))
    unfolding run_attempts
    both_attempts world =
        go (run_attempt stages 1 (fresh_work stages world))
          (run_attempt-Spends stages calls no_call one_call 1 (fresh_work stages world))
      where
        within :
            (x : Pass W) → Spends stages calls (fresh_work stages world) 1 2 x → IsWithin world x
        within x s =
            IsWithin-Spends world (fresh_work stages world) 2 x (fresh_work-IsWithin world)
              (omega arith) (omega arith) s

        go :
            (x : Pass W)
            → Spends stages calls (fresh_work stages world) 1 2 x
            → IsWithin world (elim x [
              | continued w' ↦ run_attempts stages (2 ∷ []) w'
              | done r w' ↦ done r w'
              | failed message w' ↦ failed message w'
            ])
        go (continued v) s = second_attempt world v s
        go (done r v) s = within (done r v) s
        go (failed m v) s = within (failed m v) s

    -- Whatever the model, Lean and the repairs do, a formalization makes at most two calls of
    -- `call_leanstral` for its attempts and three validations, and notes the method of no more
    -- validations than it made. A result that is neither a success nor a refusal may rest on one more
    -- call, for the diagnosis. If it returns a success, a call of `sorry_validate` accepted that very
    -- code and there are no errors; if it returns a refusal, the code has the marker with that
    -- reason. The hypotheses are that `calls` counts each call of the model, and that a validation
    -- makes none.
    pub formalize_fresh-IsWithin : (world : W) → IsWithin world (formalize_fresh stages world)
    unfolding formalize_fresh
    formalize_fresh-IsWithin world =
        go (run_attempts stages (1 ∷ 2 ∷ []) (fresh_work stages world)) (both_attempts world)
      where
        go :
            (x : Pass W)
            → IsWithin world x
            → IsWithin world (elim x [
              | continued w ↦ exhausted stages w
              | done r w ↦ done r w
              | failed message w ↦ failed message w
            ])
        go (continued w) h = IsWithin-exhausted world w h
        go (done r w) h = h
        go (failed m w) h = h
