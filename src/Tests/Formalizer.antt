-- ===== src/Tests/Formalizer.antt =====
-- A formalization whose first candidate Lean rejects and whose second it accepts.
use lean_econ_api.Prelude.{
  returned, raised, Step, step_state, ℕ, ◌+◌, String, true, false, Option, none, some, List, [],
  ◌∷◌, eqb, if◌then◌else◌, ◌==◌, ◌≡◌, refl, not, is_some, inr,
}
use lean_econ_api.Formalizer.{
  Stages, Purpose, formalizing, diagnosing, Validation, no_diagnosis, formalize_fresh,
}
use lean_econ_api.Formalizer.Validations.{pass_work}
use lean_econ_api.Text.{is_empty}
use lean_econ_api.Mcp.{new_status, validation, retrieval, formalization_mcp_available}
use lean_econ_api.Mcp.Cooling.{
  success, failure, status_after, is_cooling, available-eq-not-is_cooling,
}
use lean_econ_api.Formalizer.Cached.{Setting, State, Formalized, formalize}
use lean_econ_api.Formalizer.Cached.Again.{is_settled, IsReplayed, formalize-again}
use lean_econ_api.Formalizer.Checking.{Lean, Checker, sorry_validate, fall_back}
use lean_econ_api.Formalizer.Checking.Verdicts.{
  IsChecked, sorry_validate-IsChecked, sorry_validate-stays_disabled,
}
use lean_econ_api.Formalizer.Imports.{rebuilt_lines}
use lean_econ_api.Formalizer.Imports.Normalized.{IsNormalized, rebuilt_lines-IsNormalized}
use lean_econ_api.Formalizer.Limits.{IsWithin, formalize_fresh-IsWithin}

abbrev verdict_on : String → Validation
verdict_on code =
    if code == "good"
    then record { valid = true; errors = []; method = "lean_run_code"; fallback_reason = none }
    else record {
      valid = false;
      errors = "unknown identifier" ∷ [];
      method = "lean_run_code";
      fallback_reason = none;
    }

abbrev answer_to : Purpose → String
answer_to (formalizing attempt) = if eqb attempt 1 then "bad" else "good"
answer_to diagnosing = "{}"

-- The world is the number of calls of the model so far.
abbrev stages : Stages ℕ
stages = record {
  claim_text = "claim";
  system_prompt = "system";
  repair_prompt = λ bucket. bucket;
  diagnose_prompt = "diagnose";
  client_error = λ w. none;
  call_model = λ messages purpose w. returned (answer_to purpose) (w + 1);
  strip_fences = λ s. s;
  prepare = λ raw. (raw, [], []);
  sorry_validate = λ code w. returned (verdict_on code) w;
  repair = λ code errors. (code, "normalize_imports" ∷ []);
  loads = λ s. none;
  lower = λ s. s;
}

formalize_fresh-IsWithin_example : IsWithin stages (λ w. w) 0 (formalize_fresh stages 0)
formalize_fresh-IsWithin_example =
    formalize_fresh-IsWithin stages (λ w. w) (λ code w. refl) (λ messages purpose w. refl) 0

-- A third call of the model, where both candidates are rejected.
abbrev rejecting : Stages ℕ
rejecting = record stages {
  sorry_validate = λ code w. returned (verdict_on "bad") w;
  lower = λ s. s;
}

three_calls : (pass_work (formalize_fresh rejecting 0)).world ≡ 3
unfolding formalize_fresh
three_calls = refl

-- A setting without preambles, whose retrieval changes the world, and a cache that is empty.
abbrev setting : Setting ℕ
setting = record {
  select_preambles = λ claim names. inr [];
  retrieve = λ claim names w. ([], w + 10);
  stages = λ claim context. stages;
  telemetry = λ w. [];
  artifact = λ context w. [];
  no_calls = [];
  digest = λ s. s;
  dumps = λ key. key.claim_text;
  namespace = "n";
}

abbrev no_cache : State ℕ
no_cache = record { world = 0; cache = [] }

first_run : Step (State ℕ) Formalized
first_run = formalize setting "claim" none true no_cache

abbrev run_result : Step (State ℕ) Formalized → Formalized
run_result (raised m t) = record {
  result = record {
    success = false;
    theorem_code = "";
    attempts = 0;
    errors = [];
    formalization_failed = false;
    failure_reason = none;
    diagnosis = no_diagnosis;
  };
  preamble_used = [];
  formalizer_telemetry = [];
  formalization_context = [];
}
run_result (returned r t) = r

first_run_returned :
    formalize setting "claim" none true no_cache
    ≡ returned (run_result first_run) (step_state first_run)
unfolding formalize first_run
first_run_returned = refl

first_run_settled : is_settled (run_result first_run) ≡ true
unfolding formalize first_run
first_run_settled = refl

formalize-again_example :
    IsReplayed setting "claim" none (run_result first_run) (step_state first_run) 9
formalize-again_example =
    formalize-again setting "claim" none no_cache (step_state first_run) (run_result first_run)
      first_run_returned first_run_settled 9

-- Lean, where `lean_run_code` always times out.
abbrev lean : Lean ℕ
lean = record {
  mcp_status = λ w. new_status;
  monotonic = λ w. w;
  seconds = λ n. "";
  lower = λ s. s;
  run_code = λ code w. raised "timed out" (w + 1);
  check_directly = λ code w.
      returned
        (record {
          returncode = 0;
          errors = "declaration uses `sorry`" ∷ [];
          verification_method = none;
        })
        (w + 2);
}

sorry_validate-IsChecked_example :
    IsChecked lean "code"
      (record { world = 0; disabled_reason = none })
      (sorry_validate lean "code" (record { world = 0; disabled_reason = none }))
sorry_validate-IsChecked_example =
    sorry_validate-IsChecked lean "code" (record { world = 0; disabled_reason = none })

abbrev disabled : Checker ℕ
disabled = record { world = 0; disabled_reason = some "lean_run_code_unavailable:timeout" }

sorry_validate-stays_disabled_example :
    (reason : Option String) × (sorry_validate lean "code" disabled
      ≡ fall_back lean "code" reason disabled)
    × ((step_state (sorry_validate lean "code" disabled)).disabled_reason
        ≡ disabled.disabled_reason)
sorry_validate-stays_disabled_example =
    sorry_validate-stays_disabled lean "code" disabled (unfold is_empty in refl)

available-eq-not-is_cooling_example :
    let ms = success retrieval ∷ failure "slow" validation 5 ∷ [] in
    ((formalization_mcp_available (λ n. "") validation 90 (status_after 120 ms)).0
      ≡ not (is_cooling 120 validation 90 ms))
    × (is_some (formalization_mcp_available (λ n. "") validation 90 (status_after 120 ms)).1
        ≡ is_cooling 120 validation 90 ms)
available-eq-not-is_cooling_example =
    available-eq-not-is_cooling 120 (λ n. "") validation 90
      (success retrieval ∷ failure "slow" validation 5 ∷ [])

abbrev unsorted : List String
unsorted = "import Foo" ∷ "theorem t : 1 = 1 := by sorry" ∷ "  import Mathlib.Data" ∷ []

rebuilt :
    rebuilt_lines unsorted
    ≡ "import Mathlib" ∷ "import Mathlib.Data" ∷ "" ∷ "theorem t : 1 = 1 := by sorry" ∷ []
unfolding rebuilt_lines
rebuilt = refl

rebuilt_lines-IsNormalized_example : IsNormalized unsorted (rebuilt_lines unsorted)
rebuilt_lines-IsNormalized_example = rebuilt_lines-IsNormalized unsorted
