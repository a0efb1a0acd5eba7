-- ===== src/Formalizer/Attempts.antt =====
-- What one attempt of the formalizer costs.
use lean_econ_api.Prelude.{
  Step, step_state, raised, returned, ℕ, ◌+◌, ◌≤◌, String, true, false, Option, none, some, List,
  [], ◌∷◌, ◌++◌, ◌≡◌, refl, arith, length,
}
use mathlib.Core.Path.{subst, sym, ap, ◌∙◌}
use lean_econ_api.Formalizer.{
  Purpose, formalizing, Stages, Work, continued, done, failed, request, validate, consider,
  answered, run_attempt, new_repairs, no_diagnosis,
}
use lean_econ_api.Formalizer.Buckets.{detect_formalization_failed}
use lean_econ_api.Formalizer.Validations.{Spends, IsNoCall, repairs_limit, validate-Spends}

-- A call of the model is one call, whatever it answers.
abbrev pub IsOneCall : {W : Type 0} → Stages W → (W → ℕ) → Type 0
IsOneCall {W} stages calls =
    (messages : List (String × String)) (purpose : Purpose) (w : W)
    → calls (step_state (stages.call_model messages purpose w)) ≡ calls w + 1

module _ {W : Type 0} (stages : Stages W) (calls : W → ℕ) (no_call : IsNoCall stages calls) where
  consider-Spends :
      (n : ℕ) (raw : String) (w : Work W)
      → Spends stages calls w 0 (1 + repairs_limit n) (consider stages n raw w)
  unfolding consider
  consider-Spends n raw w = go (stages.prepare raw).0 (stages.prepare raw).1 (stages.prepare raw).2
    where
      go :
          (code : String) (structural acceptance : List String)
          → Spends stages calls w 0 (1 + repairs_limit n) (elim acceptance [
            | [] ↦ validate stages n (record w {
              lean_code = code;
              deterministic_repairs_applied =
                  w.deterministic_repairs_applied
                  ++ new_repairs w.deterministic_repairs_applied structural;
            })
            | e ∷ es ↦ continued (record w {
              last_errors = e ∷ es;
              lean_code = code;
              deterministic_repairs_applied =
                  w.deterministic_repairs_applied
                  ++ new_repairs w.deterministic_repairs_applied structural;
            })
          ])
      go code structural [] =
          let w' : Work W = record w {
            lean_code = code;
            deterministic_repairs_applied =
                w.deterministic_repairs_applied
                ++ new_repairs w.deterministic_repairs_applied structural;
          } in
          let s = validate-Spends stages calls no_call n w' in
          record {
            calls_made = s.calls_made;
            model_calls = s.model_calls;
            validation_calls = s.validation_calls;
            methods = s.methods;
            honest = s.honest;
          }
      go code structural (e ∷ es) = record {
        calls_made = omega arith;
        model_calls = omega arith;
        validation_calls = omega arith;
        methods = λ h. h;
        honest = tt;
      }

  answered-Spends :
      (n : ℕ) (raw : String) (w : Work W)
      → Spends stages calls w 0 (1 + repairs_limit n) (answered stages n raw w)
  unfolding answered
  answered-Spends n raw w = go (detect_formalization_failed w.lean_code) refl
    where
      go :
          (x : Option (Option String))
          → detect_formalization_failed w.lean_code ≡ x
          → Spends stages calls w 0 (1 + repairs_limit n) (elim x [
            | none ↦ consider stages n raw w
            | some reason ↦
                done
                  (record {
                    success = false;
                    theorem_code = w.lean_code;
                    attempts = n;
                    errors = [];
                    formalization_failed = true;
                    failure_reason = reason;
                    diagnosis = no_diagnosis;
                  })
                  w
          ])
      go none e = consider-Spends n raw w
      go (some reason) e = record {
        calls_made = omega arith;
        model_calls = omega arith;
        validation_calls = omega arith;
        methods = λ h. h;
        honest = (λ y. cc, λ _. e);
      }

  request-same :
      (n : ℕ) (w : Work W)
      → ((request stages n w).1.model_calls ≡ w.model_calls)
        × ((request stages n w).1.validation_calls ≡ w.validation_calls)
        × ((request stages n w).1.validation_methods ≡ w.validation_methods)
        × ((request stages n w).1.world ≡ w.world)
  unfolding request
  request-same n w = (ground arith, ground arith, ground arith, ground arith)

  -- An attempt makes one call of the model and at most one validation, or two if it is the first.
  pub run_attempt-Spends :
      IsOneCall stages calls
      → (n : ℕ) (w : Work W)
      → Spends stages calls w 1 (1 + repairs_limit n) (run_attempt stages n w)
  unfolding run_attempt
  run_attempt-Spends one_call n w =
      go (request stages n w).0 (request stages n w).1 (request-same n w)
    where
      next :
          (w1 : Work W) (x : Step W String)
          → (w1.model_calls ≡ w.model_calls)
            × (w1.validation_calls ≡ w.validation_calls)
            × (w1.validation_methods ≡ w.validation_methods)
            × (w1.world ≡ w.world)
          → calls (step_state x) ≡ calls w1.world + 1
          → Spends stages calls w 1 (1 + repairs_limit n) (elim x [
            | raised message t ↦
                failed message (record w1 { world = t; model_calls = w1.model_calls + 1 })
            | returned raw t ↦ answered stages n raw (record w1 {
              world = t;
              lean_code = stages.strip_fences raw;
              model_calls = w1.model_calls + 1;
            })
          ])
      next w1 (raised m t) (a, b, c, d) made = record {
        calls_made = made ∙ ap (λ v. calls v + 1) d;
        model_calls = omega (arith, a);
        validation_calls = omega (arith, b);
        methods = λ h. subst (λ l. length l ≤ w1.validation_calls) (sym c) (omega (arith, b, h));
        honest = tt;
      }
      next w1 (returned raw t) (a, b, c, d) made =
          let w2 : Work W = record w1 {
            world = t;
            lean_code = stages.strip_fences raw;
            model_calls = w1.model_calls + 1;
          } in
          let s = answered-Spends n raw w2 in
          record {
            calls_made = omega (arith, s.calls_made, made, ap calls d);
            model_calls = omega (arith, a, s.model_calls);
            validation_calls = omega (arith, b, s.validation_calls);
            methods = λ h.
                s.methods
                  (subst (λ l. length l ≤ w1.validation_calls) (sym c) (omega (arith, b, h)));
            honest = s.honest;
          }

      go :
          (messages : List (String × String)) (w1 : Work W)
          → (w1.model_calls ≡ w.model_calls)
            × (w1.validation_calls ≡ w.validation_calls)
            × (w1.validation_methods ≡ w.validation_methods)
            × (w1.world ≡ w.world)
          → Spends stages calls w 1
              (1 + repairs_limit n)
              (elim (stages.call_model messages (formalizing n) w1.world) [
                | raised message t ↦
                    failed message (record w1 { world = t; model_calls = w1.model_calls + 1 })
                | returned raw t ↦ answered stages n raw (record w1 {
                  world = t;
                  lean_code = stages.strip_fences raw;
                  model_calls = w1.model_calls + 1;
                })
              ])
      go messages w1 same =
          next w1 (stages.call_model messages (formalizing n) w1.world) same
            (one_call messages (formalizing n) w1.world)
