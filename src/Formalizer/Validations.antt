-- ===== src/Formalizer/Validations.antt =====
-- What a validation and its repairs cost, and what a success rests on.
use lean_econ_api.Prelude.{
  Step, step_state, raised, returned, ℕ, ◌+◌, ◌≤◌, String, true, false, some, List, [], ◌∷◌, ◌≡◌,
  refl, arith, ltb, eqb, if◌then◌else◌, Bool-cases, inl, inr, length, length-append,
}
use mathlib.Core.Path.{subst, sym, ap, ◌∙◌}
use lean_econ_api.Formalizer.{
  Validation, Stages, Work, Pass, continued, done, failed, note_validation, record_validation,
  succeeded, repairs_of, revalidate, try_repairs, validate, max_formalization_validations,
  extend_new,
}
use lean_econ_api.Formalizer.Buckets.{detect_formalization_failed}

abbrev pub pass_work : {W : Type 0} → Pass W → Work W
pass_work (continued w) = w
pass_work (done r w) = w
pass_work (failed m w) = w

abbrev step_work : {W A : Type 0} → Step (Work W) A → Work W
step_work (raised m w) = w
step_work (returned a w) = w

-- the validations that the deterministic repairs may add
abbrev pub repairs_limit : ℕ → ℕ
repairs_limit n = if eqb n 1 then 1 else 0

module _ {W : Type 0} (stages : Stages W) where
  -- `code` was accepted by a call of `sorry_validate`.
  pub record IsAccepted (code : String) : Type 0 where
    pub before : W
    pub after : W
    pub validation : Validation
    pub ran : stages.sorry_validate code before ≡ returned validation after
    pub valid : validation.valid ≡ true

  -- A result is a success on accepted code, or names no success and has its reason.
  abbrev pub IsHonest : Pass W → Type 0
  IsHonest (continued w) = Unit
  IsHonest (failed m w) = Unit
  IsHonest (done r w) =
      (r.success ≡ true
        → IsAccepted r.theorem_code × (r.errors ≡ []) × (r.formalization_failed ≡ false))
      × (r.formalization_failed ≡ true
          → detect_formalization_failed r.theorem_code ≡ some r.failure_reason)

  module _ (calls : W → ℕ) where
    -- What a part of the loop has spent: calls of the model, each of them made, at most so many
    -- validations, each of them with its method noted; and its result is honest.
    pub record Spends (w : Work W) (models validations : ℕ) (p : Pass W) : Type 0 where
      pub calls_made : calls (pass_work p).world ≡ calls w.world + models
      pub model_calls : (pass_work p).model_calls ≡ w.model_calls + models
      pub validation_calls : (pass_work p).validation_calls ≤ w.validation_calls + validations
      pub methods :
          length w.validation_methods ≤ w.validation_calls
          → length (pass_work p).validation_methods ≤ (pass_work p).validation_calls
      pub honest : IsHonest p

  -- A validation is no call of the model.
  abbrev pub IsNoCall : (W → ℕ) → Type 0
  IsNoCall calls =
      (code : String) (w : W) → calls (step_state (stages.sorry_validate code w)) ≡ calls w

  module _ (calls : W → ℕ) (no_call : IsNoCall calls) where
    same_calls :
        (w : Work W) (x : Step W Validation)
        → stages.sorry_validate w.lean_code w.world ≡ x
        → calls (step_state x) ≡ calls w.world + 0
    same_calls w x e =
        ap (λ y. calls (step_state y)) (sym e) ∙ no_call w.lean_code w.world ∙ omega arith

    revalidate-Spends : (n : ℕ) (w : Work W) → Spends calls w 0 1 (revalidate stages n w)
    unfolding revalidate record_validation succeeded
    revalidate-Spends n w = go (stages.sorry_validate w.lean_code w.world) refl
      where
        go :
            (x : Step W Validation)
            → stages.sorry_validate w.lean_code w.world ≡ x
            → Spends calls w 0 1
                (elim (note_validation stages x
                  (record w { validation_calls = w.validation_calls + 1 })) [
                    | raised message w' ↦ failed message w'
                    | returned v w' ↦
                        if v.valid
                        then succeeded stages n w'
                        else continued (record w' { last_errors = v.errors })
                  ])
        go (raised m t) e = record {
          calls_made = same_calls w (raised m t) e;
          model_calls = omega arith;
          validation_calls = omega arith;
          methods = λ h. omega arith;
          honest = tt;
        }
        go (returned v t) e = elim (Bool-cases v.valid) [
          | inl x ↦ rw x (record {
            calls_made = same_calls w (returned v t) e;
            model_calls = omega arith;
            validation_calls = omega arith;
            methods = λ h. omega (arith, length-append w.validation_methods (v.method ∷ []));
            honest = (
              λ _. (
                record { before = w.world; after = t; validation = v; ran = e; valid = x },
                refl,
                refl,
              ),
              λ y. cc,
            );
          })
          | inr x ↦ rw x (record {
            calls_made = same_calls w (returned v t) e;
            model_calls = omega arith;
            validation_calls = omega arith;
            methods = λ h. omega (arith, length-append w.validation_methods (v.method ∷ []));
            honest = tt;
          })
        ]

    -- What a part spends that begins after a change that spends nothing itself.
    Spends-later :
        (w w' : Work W) (m k j : ℕ) (p : Pass W)
        → calls w'.world ≡ calls w.world
        → w'.model_calls ≡ w.model_calls
        → w'.validation_calls ≡ w.validation_calls + k
        → (length w.validation_methods ≤ w.validation_calls
            → length w'.validation_methods ≤ w'.validation_calls)
        → Spends calls w' m j p
        → Spends calls w m (k + j) p
    Spends-later w w' m k j p made models validations methods s = record {
      calls_made = omega (arith, made, s.calls_made);
      model_calls = omega (arith, models, s.model_calls);
      validation_calls = omega (arith, validations, s.validation_calls);
      methods = λ h. s.methods (methods h);
      honest = s.honest;
    }

    -- going on without spending
    Spends-continued : (w : Work W) (k : ℕ) → Spends calls w 0 k (continued w)
    Spends-continued w k = record {
      calls_made = omega arith;
      model_calls = omega arith;
      validation_calls = omega arith;
      methods = λ h. h;
      honest = tt;
    }

    no_repairs_later : (n : ℕ) (w : Work W) → eqb n 1 ≡ false → (repairs_of stages n w).1 ≡ []
    unfolding repairs_of
    no_repairs_later n w e = simp e

    -- the branches on the budget of validations
    if_budget-Spends :
        (n : ℕ) (w w' : Work W)
        → Spends calls w 0 1 (revalidate stages n w')
        → Spends calls w 0 1 (
            if ltb w.validation_calls max_formalization_validations
            then revalidate stages n w'
            else continued w)
    if_budget-Spends n w w' h =
        elim (Bool-cases (ltb w.validation_calls max_formalization_validations)) [
          | inl x ↦ rw x h
          | inr x ↦ rw x (Spends-continued w 1)
        ]

    try_repairs-Spends :
        (n : ℕ) (w : Work W) → Spends calls w 0 (repairs_limit n) (try_repairs stages n w)
    unfolding try_repairs
    try_repairs-Spends n w =
        go (repairs_of stages n w).0 (repairs_of stages n w).1 (no_repairs_later n w)
      where
        go :
            (code : String) (repairs : List String)
            → (eqb n 1 ≡ false → repairs ≡ [])
            → Spends calls w 0 (repairs_limit n) (elim repairs [
              | [] ↦ continued w
              | r ∷ rs ↦
                  if ltb w.validation_calls max_formalization_validations
                  then revalidate stages n (record w {
                    lean_code = code;
                    deterministic_repairs_applied =
                        extend_new w.deterministic_repairs_applied (r ∷ rs);
                  })
                  else continued w
            ])
        go code [] none_later = Spends-continued w (repairs_limit n)
        go code (r ∷ rs) none_later = elim (Bool-cases (eqb n 1)) [
          | inr e ↦ cc (none_later e)
          | inl e ↦
              let w' : Work W = record w {
                lean_code = code;
                deterministic_repairs_applied = extend_new w.deterministic_repairs_applied (r ∷ rs);
              } in
              subst
                (λ b. Spends calls w 0 (if b then 1 else 0) (
                  if ltb w.validation_calls max_formalization_validations
                  then revalidate stages n w'
                  else continued w))
                (sym e)
                (if_budget-Spends n w w' (
                  Spends-later w w' 0 0 1 (revalidate stages n w') refl refl (omega arith) (λ h. h)
                    (revalidate-Spends n w')))
        ]

    pub validate-Spends :
        (n : ℕ) (w : Work W) → Spends calls w 0 (1 + repairs_limit n) (validate stages n w)
    unfolding validate record_validation succeeded
    validate-Spends n w = go (stages.sorry_validate w.lean_code w.world) refl
      where
        go :
            (x : Step W Validation)
            → stages.sorry_validate w.lean_code w.world ≡ x
            → Spends calls w 0
                (1 + repairs_limit n)
                (elim (note_validation stages x
                  (record w { validation_calls = w.validation_calls + 1 })) [
                    | raised message w' ↦ failed message w'
                    | returned v w' ↦
                        if v.valid
                        then succeeded stages n w'
                        else try_repairs stages n (record w' { last_errors = v.errors })
                  ])
        go (raised m t) e = record {
          calls_made = same_calls w (raised m t) e;
          model_calls = omega arith;
          validation_calls = omega arith;
          methods = λ h. omega arith;
          honest = tt;
        }
        go (returned v t) e = elim (Bool-cases v.valid) [
          | inl x ↦ rw x (record {
            calls_made = same_calls w (returned v t) e;
            model_calls = omega arith;
            validation_calls = omega arith;
            methods = λ h. omega (arith, length-append w.validation_methods (v.method ∷ []));
            honest = (
              λ _. (
                record { before = w.world; after = t; validation = v; ran = e; valid = x },
                refl,
                refl,
              ),
              λ y. cc,
            );
          })
          | inr x ↦
              let w1 : Work W = step_work (
                note_validation stages (returned v t)
                  (record w { validation_calls = w.validation_calls + 1 })) in
              let w' : Work W = record w1 { last_errors = v.errors } in
              rw x (
                Spends-later w w' 0 1 (repairs_limit n) (try_repairs stages n w')
                  (same_calls w (returned v t) e ∙ omega arith) refl refl
                  (λ h. omega (arith, length-append w.validation_methods (v.method ∷ [])))
                  (try_repairs-Spends n w'))
        ]
