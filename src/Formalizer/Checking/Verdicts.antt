-- ===== src/Formalizer/Checking/Verdicts.antt =====
-- What a validation rests on, and how `lean_run_code` stays disabled.
use lean_econ_api.Prelude.{
  String, Bool, true, false, Option, none, some, List, [], ◌∷◌, ◌≡◌, ◌⊎◌, inl, inr, refl, arith,
  ◌||◌, if◌then◌else◌, Step, raised, returned, step_state, All, eqb, Bool-cases,
}
use lean_econ_api.Text.{has_text}
use lean_econ_api.Mcp.{formalization_mcp_available}
use lean_econ_api.Formalizer.{Validation}
use lean_econ_api.Formalizer.Buckets.{normalized_validation_fallback_reason}
use lean_econ_api.Formalizer.Checking.{
  Lean, Checker, RunCode, DirectCheck, is_given, real_errors, availability, direct_result,
  fall_back, disable, sorry_validate,
}

-- An error that is not the pseudo error of `sorry`.
abbrev pub IsReal : String → Type 0
IsReal e = (has_text "declaration uses `sorry`" e || has_text "Proof contains" e) ≡ false

All-real_errors : (es : List String) → All IsReal (real_errors es)
unfolding real_errors
All-real_errors [] = tt
All-real_errors (e ∷ es) =
    elim (Bool-cases (has_text "declaration uses `sorry`" e || has_text "Proof contains" e)) [
      | inl pseudo ↦ rw pseudo (All-real_errors es)
      | inr real ↦ rw real (real, All-real_errors es)
    ]

module _ {W : Type 0} (lean : Lean W) (lean_code : String) where
  -- The validation `v` is that of `run_code`, which was not disabled and is not now.
  pub record IsFast (s s' : Checker W) (v : Validation) : Type 0 where
    pub result : RunCode
    pub ran : lean.run_code lean_code s.world ≡ returned result s'.world
    pub enabled : is_given s.disabled_reason ≡ false
    pub enables : s'.disabled_reason ≡ none
    pub validity : v.valid ≡ result.valid
    pub same_errors : v.errors ≡ result.errors

  -- The validation is that of a direct check.
  pub record IsSlow (s' : Checker W) (v : Validation) : Type 0 where
    pub before : W
    pub result : DirectCheck
    pub ran : lean.check_directly lean_code before ≡ returned result s'.world
    pub validity : v.valid ≡ eqb result.returncode 0
    pub no_errors : v.valid ≡ true → v.errors ≡ []
    pub real : All IsReal v.errors

  abbrev pub IsChecked : Checker W → Step (Checker W) Validation → Type 0
  IsChecked s (raised message s') =
      (before : W) × (lean.check_directly lean_code before ≡ raised message s'.world)
  IsChecked s (returned v s') = IsFast s s' v ⊎ IsSlow s' v

  IsReal-unless : (b : Bool) (es : List String) → All IsReal (if b then [] else real_errors es)
  IsReal-unless true es = tt
  IsReal-unless false es = All-real_errors es

  no_errors_if : (b : Bool) (es : List String) → b ≡ true → (if b then [] else real_errors es) ≡ []
  no_errors_if true es h = refl
  no_errors_if false es h = cc

  fall_back-IsChecked :
      (reason : Option String) (s t : Checker W) → IsChecked s (fall_back lean lean_code reason t)
  unfolding fall_back direct_result
  fall_back-IsChecked reason s t = go (lean.check_directly lean_code t.world) refl
    where
      go :
          (x : Step W DirectCheck)
          → lean.check_directly lean_code t.world ≡ x
          → IsChecked s (elim x [
            | raised message w ↦ raised message (record t { world = w })
            | returned raw w ↦ returned (direct_result lean reason raw) (record t { world = w })
          ])
      go (raised m w) e = (t.world, e)
      go (returned raw w) e = inr (record {
        before = t.world;
        result = raw;
        ran = e;
        validity = refl;
        no_errors = no_errors_if (eqb raw.returncode 0) raw.errors;
        real = IsReal-unless (eqb raw.returncode 0) raw.errors;
      })

  allowed-enabled :
      (s : Checker W) → (availability lean s).0 ≡ true → is_given s.disabled_reason ≡ false
  unfolding availability formalization_mcp_available
  allowed-enabled s h = ground (arith, h)

  -- A validation that returns rests on one check by Lean of this very code. Either `run_code`
  -- returned, was not disabled, and gave the verdict and the errors; or a direct check did: then the
  -- code is valid exactly where Lean's exit code was 0, valid code has no errors, and the pseudo
  -- errors of `sorry` are not among the others. It raises only what the direct check raises.
  pub sorry_validate-IsChecked : (s : Checker W) → IsChecked s (sorry_validate lean lean_code s)
  unfolding sorry_validate
  sorry_validate-IsChecked s = allowed (availability lean s).0 refl
    where
      ran :
          (x : Step W RunCode)
          → lean.run_code lean_code s.world ≡ x
          → is_given s.disabled_reason ≡ false
          → IsChecked s (elim x [
            | returned r w ↦
                returned
                  (record {
                    valid = r.valid;
                    errors = r.errors;
                    method = "lean_run_code";
                    fallback_reason = none;
                  })
                  (record { world = w; disabled_reason = none })
            | raised message w ↦
                let failure = normalized_validation_fallback_reason lean.lower (some message) in
                fall_back lean lean_code failure (disable lean failure (record s { world = w }))
          ])
      ran (returned r w) e enabled = inl (record {
        result = r;
        ran = e;
        enabled = enabled;
        enables = refl;
        validity = refl;
        same_errors = refl;
      })
      ran (raised m w) e enabled =
          let failure = normalized_validation_fallback_reason lean.lower (some m) in
          fall_back-IsChecked failure s (disable lean failure (record s { world = w }))

      allowed :
          (b : Bool)
          → (availability lean s).0 ≡ b
          → IsChecked s (
              if b
              then elim (lean.run_code lean_code s.world) [
                | returned r w ↦
                    returned
                      (record {
                        valid = r.valid;
                        errors = r.errors;
                        method = "lean_run_code";
                        fallback_reason = none;
                      })
                      (record { world = w; disabled_reason = none })
                | raised message w ↦
                    let failure = normalized_validation_fallback_reason lean.lower (some message) in
                    fall_back lean lean_code failure (disable lean failure (record s { world = w }))
              ]
              else fall_back lean lean_code
                  (normalized_validation_fallback_reason lean.lower (availability lean s).1)
                  s)
      allowed true e = ran (lean.run_code lean_code s.world) refl (allowed-enabled s e)
      allowed false e =
          fall_back-IsChecked
            (normalized_validation_fallback_reason lean.lower (availability lean s).1) s s

  disabled-fall_back :
      (reason : Option String) (s : Checker W)
      → (step_state (fall_back lean lean_code reason s)).disabled_reason ≡ s.disabled_reason
  unfolding fall_back
  disabled-fall_back reason s = ground arith

  -- Once a failure other than a cooldown has disabled `lean_run_code`, it stays disabled by the same
  -- reason: every validation goes the slow path, whatever the MCP status, and the line that would
  -- enable it again is not reached.
  pub sorry_validate-stays_disabled :
      (s : Checker W)
      → is_given s.disabled_reason ≡ true
      → (reason : Option String) × (sorry_validate lean lean_code s
          ≡ fall_back lean lean_code reason s)
        × ((step_state (sorry_validate lean lean_code s)).disabled_reason ≡ s.disabled_reason)
  unfolding sorry_validate
  sorry_validate-stays_disabled s h = elim (Bool-cases (availability lean s).0) [
    | inl allowed ↦ absurd (ground (arith, h, allowed-enabled s allowed))
    | inr blocked ↦
        let reason = normalized_validation_fallback_reason lean.lower (availability lean s).1 in
        (
          reason,
          rw (sorry_validate, blocked) refl,
          rw (sorry_validate, blocked) (disabled-fall_back reason s),
        )
  ]
