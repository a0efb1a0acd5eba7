-- ===== src/Formalizer/Checking.antt =====
-- `sorry_validate` of src/formalizer.py, with the reason that disables `lean_run_code`. The two checks
-- by Lean, `run_code` and the direct check of a written file, are parameters, and so are `str.lower`
-- and the clock. The proofs are in the module below.
pub mod Verdicts
use lean_econ_api.Prelude.{
  ℕ, String, Bool, true, false, Option, none, some, List, [], ◌∷◌, ◌≡◌, ◌⊎◌, inl, inr, refl, arith,
  not, ◌&&◌, ◌||◌, ◌==◌, if◌then◌else◌, is_some, Step, raised, returned, All, eqb,
}
use lean_econ_api.Text.{is_empty, has_text}
use lean_econ_api.Mcp.{McpStatus, Capability, validation, formalization_mcp_available}
use lean_econ_api.Formalizer.{Validation}
use lean_econ_api.Formalizer.Buckets.{normalized_validation_fallback_reason}

abbrev pub lean_run_code_cooldown : String
lean_run_code_cooldown = "lean_run_code_unavailable:cooldown"

-- What `run_code` gives, and what `run_direct_lean_check` gives.
pub record RunCode : Type 0 where
  pub valid : Bool
  pub errors : List String

pub record DirectCheck : Type 0 where
  pub returncode : ℕ
  pub errors : List String
  pub verification_method : Option String

pub record Lean (W : Type 0) : Type 0 where
  pub mcp_status : W → McpStatus
  pub monotonic : W → ℕ
  pub seconds : ℕ → String
  pub lower : String → String
  pub run_code : String → W → Step W RunCode
  pub check_directly : String → W → Step W DirectCheck

-- The world, and `_LEAN_RUN_CODE_DISABLED_REASON`.
pub record Checker (W : Type 0) : Type 0 where
  pub world : W
  pub disabled_reason : Option String

-- a reason that is there and not empty
abbrev pub is_given : Option String → Bool
is_given none = false
is_given (some reason) = not (is_empty reason)

-- the errors but for the pseudo error of `sorry`
unfoldable pub real_errors : List String → List String
unfolding has_text
real_errors [] = []
real_errors (e ∷ es) =
    let rest = real_errors es in
    if has_text "declaration uses `sorry`" e || has_text "Proof contains" e then rest else e ∷ rest

abbrev pub method_or : Option String → String
method_or none = "lake_env_lean"
method_or (some method) = method

module _ {W : Type 0} (lean : Lean W) where
  open lean use {mcp_status, monotonic, seconds, lower, run_code, check_directly}

  -- what `formalization_mcp_available` says, and then the disabling reason
  unfoldable pub availability : Checker W → Bool × Option String
  unfolding formalization_mcp_available is_empty
  availability s =
      let (allowed, reason) =
        formalization_mcp_available seconds validation (monotonic s.world) (mcp_status s.world) in
      if is_given s.disabled_reason && not (is_some reason)
      then (false, s.disabled_reason)
      else (allowed, reason)

  -- the result of the slow path
  unfoldable pub direct_result : Option String → DirectCheck → Validation
  unfolding real_errors is_empty
  direct_result fallback_reason raw =
      let valid = eqb raw.returncode 0 in
      record {
        valid = valid;
        errors = if valid then [] else real_errors raw.errors;
        method = method_or raw.verification_method;
        fallback_reason = if is_given fallback_reason then fallback_reason else none;
      }

  -- the slow path
  unfoldable pub fall_back : String → Option String → Checker W → Step (Checker W) Validation
  unfolding direct_result
  fall_back lean_code reason s = elim (check_directly lean_code s.world) [
    | raised message w ↦ raised message (record s { world = w })
    | returned raw w ↦ returned (direct_result reason raw) (record s { world = w })
  ]

  -- the reason that a failure of `run_code` leaves
  unfoldable pub disable : Option String → Checker W → Checker W
  disable none s = s
  disable (some reason) s =
      if not (is_empty reason) && not (reason == lean_run_code_cooldown)
      then record s { disabled_reason = some reason }
      else s

  -- `sorry_validate`
  unfoldable pub sorry_validate : String → Checker W → Step (Checker W) Validation
  unfolding availability fall_back disable normalized_validation_fallback_reason
  sorry_validate lean_code s =
      let (allowed, reason) = availability s in
      if allowed
      then elim (run_code lean_code s.world) [
        | returned r w ↦
            returned
              (record {
                valid = r.valid;
                errors = r.errors;
                method = "lean_run_code";
                fallback_reason = none;
              })
              (record { world = w; disabled_reason = none })
        | raised message w ↦
            let failure = normalized_validation_fallback_reason lower (some message) in
            fall_back lean_code failure (disable failure (record s { world = w }))
      ]
      else fall_back lean_code (normalized_validation_fallback_reason lower reason) s
