-- ===== src/Tests/Pipeline.antt =====
-- The pipeline on a claim in Lean, with a prover that succeeds at once.
use lean_econ_api.Prelude.{Step, raised, returned, ℕ, suc, true, none, some, [], ◌∷◌, ◌≡◌, refl}
use lean_econ_api.Dict
use lean_econ_api.Json.{Value, null, flag, number, text, Object, get_or, truthy}
use lean_econ_api.Pipeline.{Stages, State, Request, run_pipeline}
use lean_econ_api.Pipeline.Runs.{IsLogged, run_pipeline-IsLogged}
use lean_econ_api.Pipeline.Proved.{IsProvedEnd, run_pipeline-IsProvedEnd}
use lean_econ_api.Pipeline.Repeat.{run_pipeline-again}

-- The world counts the calls of the prover.
abbrev pub stages : Stages ℕ
stages = record {
  sub = λ multiline pattern replacement s. s;
  formalize = λ claim use_cache w. raised "RuntimeError" w;
  get_prover = λ name. some (λ theorem context preset overrides w.
      returned (("success", flag true) ∷ ("full_lean_code", text "proof") ∷ []) (suc w));
  summarize_calls = λ sources. [];
  elapsed = λ start end. number 1;
  str = λ v. "";
  leanstral_model = "leanstral";
  digest = λ s. s;
}

abbrev lean_request : Request
lean_request = record {
  raw_input = "import Mathlib";
  preformalized_theorem = none;
  formalization_context = null;
  reasoning_preset = null;
  budget_overrides = null;
  use_cache = true;
}

abbrev pub empty : State ℕ
empty = record { world = 0; result_cache = []; runs = []; events = [] }

abbrev result_of : Step (State ℕ) Object → Object
result_of (raised m t) = []
result_of (returned r t) = r

abbrev state_of : Step (State ℕ) Object → State ℕ
state_of (raised m t) = t
state_of (returned r t) = t

first : Step (State ℕ) Object
first = run_pipeline stages lean_request empty

first_returned :
    run_pipeline stages lean_request empty ≡ returned (result_of first) (state_of first)
unfolding run_pipeline first lean_econ_api.Pipeline.Results.is_raw_lean_input
    lean_econ_api.Text.has_text lean_econ_api.Text.starts_with lean_econ_api.Pipeline.run_fresh
    lean_econ_api.Pipeline.formalize_claim lean_econ_api.Pipeline.run_formalized
    lean_econ_api.Pipeline.prove_and_verify lean_econ_api.Pipeline.run_proved
    lean_econ_api.Cache.get lean_econ_api.Dict.get lean_econ_api.Json.get_or
    lean_econ_api.Json.truthy lean_econ_api.Pipeline.Results.normalize_proof
    lean_econ_api.Pipeline.Results.successful_pipeline_result
    lean_econ_api.Pipeline.Results.raw_lean_formalization_result
    lean_econ_api.Pipeline.Results.bypass_result lean_econ_api.Pipeline.policy
first_returned = refl

first_success : truthy (get_or null "success" (result_of first)) ≡ true
unfolding run_pipeline first lean_econ_api.Pipeline.Results.is_raw_lean_input
    lean_econ_api.Text.has_text lean_econ_api.Text.starts_with lean_econ_api.Pipeline.run_fresh
    lean_econ_api.Pipeline.formalize_claim lean_econ_api.Pipeline.run_formalized
    lean_econ_api.Pipeline.prove_and_verify lean_econ_api.Pipeline.run_proved
    lean_econ_api.Cache.get lean_econ_api.Dict.get lean_econ_api.Json.get_or
    lean_econ_api.Json.truthy lean_econ_api.Pipeline.Results.normalize_proof
    lean_econ_api.Pipeline.Results.successful_pipeline_result
    lean_econ_api.Pipeline.Results.raw_lean_formalization_result
    lean_econ_api.Pipeline.Results.bypass_result lean_econ_api.Pipeline.policy
first_success = refl

run_pipeline-IsLogged_example : IsLogged empty (run_pipeline stages lean_request empty)
run_pipeline-IsLogged_example = run_pipeline-IsLogged stages lean_request empty

run_pipeline-IsProvedEnd_example : IsProvedEnd (run_pipeline stages lean_request empty)
run_pipeline-IsProvedEnd_example = run_pipeline-IsProvedEnd stages lean_request empty tt

run_pipeline-again_example :
    (c : Object) × (v : State ℕ) × (run_pipeline stages lean_request (state_of first)
      ≡ returned c v)
    × (truthy (get_or null "success" c) ≡ true)
    × (get_or null "lean_code" c ≡ get_or null "lean_code" (result_of first))
    × (get_or null "from_cache" c ≡ flag true)
    × (v.world ≡ (state_of first).world)
    × (v.result_cache ≡ (state_of first).result_cache)
run_pipeline-again_example =
    run_pipeline-again stages lean_request refl empty (state_of first) (state_of first)
      (result_of first) first_returned first_success refl
