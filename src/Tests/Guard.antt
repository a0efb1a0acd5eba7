-- ===== src/Tests/Guard.antt =====
-- The guard of the prover's tools at concrete calls.
use lean_econ_api.Prelude.{ℕ, String, true, none, some, List, [], ◌∷◌, ◌≡◌, refl, arith, ◌+◌, All}
use lean_econ_api.Prover.Tracker.{Arguments, text, Json, new_tracker, apply_tactic}
use lean_econ_api.Prover.Trace.{Diagnostics, new_recorder}
use lean_econ_api.Prover.Guard.{
  Context, State, FunctionCall, FunctionResult, Executed, returned, Round, stopped, finished,
  execute_function_calls, round_state,
}
use lean_econ_api.Prover.Guard.Bounds.{IsBounded}
use lean_econ_api.Prover.Guard.Budget.{
  execute_function_calls-IsBounded, execute_function_calls-stops,
}
use lean_econ_api.Prover.Guard.Evidence.{IsEarned, execute_function_calls-IsEarned}
use lean_econ_api.Prover.Guard.Texts.{IsNotBlank, execute_function_calls-not-blank}

-- Every tool answers "ok"; `apply_tactic` notes "ring", and the diagnostics have an error.
abbrev pub ctx : Context ℕ ℕ
ctx = record {
  json = record { loads = λ s. none; dumps = λ n. "" };
  is_registered = λ name. true;
  execute = λ w call. record {
    world = w + 1;
    applied = none;
    outcome = returned call.tool_call_id (some "ok");
  };
  parse_diagnostic_payload = λ t. some (record { errors = "e" ∷ []; warnings = [] });
}

abbrev pub fresh : State ℕ ℕ
fresh = record { world = 0; tracker = new_tracker 2 1 6; recorder = new_recorder; log = [] }

abbrev pub ask : String → FunctionCall ℕ
ask name = record { tool_call_id = "id"; name = name; arguments = text "{}" }

pub fresh-IsBounded : IsBounded fresh.tracker
fresh-IsBounded = omega arith

abbrev calls : List (FunctionCall ℕ)
calls = ask "lean_goal" ∷ ask "lean_loogle" ∷ []

execute_function_calls-IsBounded_example :
    IsBounded (round_state (execute_function_calls ctx 1 calls fresh)).tracker
execute_function_calls-IsBounded_example =
    execute_function_calls-IsBounded ctx 1 calls fresh fresh-IsBounded

execute_function_calls-IsEarned_example :
    IsEarned (round_state (execute_function_calls ctx 1 calls fresh))
execute_function_calls-IsEarned_example =
    execute_function_calls-IsEarned ctx 1 calls fresh
      (record { opened = refl; evidence = λ h. absurd (omega arith) })

execute_function_calls-stops_example :
    (m : String) × (s : State ℕ ℕ) × (execute_function_calls ctx 1 (ask "lean_goal" ∷ calls) fresh
      ≡ stopped m s)
execute_function_calls-stops_example =
    execute_function_calls-stops ctx 1 (ask "lean_goal" ∷ calls) fresh fresh-IsBounded (omega arith)

abbrev results : {W J : Type 0} → Round W J → List FunctionResult
results (stopped m s) = []
results (finished rs s) = rs

abbrev round_of_calls : Round ℕ ℕ
round_of_calls = execute_function_calls ctx 1 calls fresh

finishes : round_of_calls ≡ finished (results round_of_calls) (round_state round_of_calls)
unfolding execute_function_calls lean_econ_api.Prover.Guard.guard_call
    lean_econ_api.Prover.Guard.enact lean_econ_api.Prover.Guard.verdict
    lean_econ_api.Prover.Tracker.has_exhausted_total_budget
    lean_econ_api.Prover.Tracker.has_read_only_loop
    lean_econ_api.Prover.Tracker.is_duplicate_read_only_call
    lean_econ_api.Prover.Tracker.is_search_tool lean_econ_api.Prover.Guard.conclude
    lean_econ_api.Prover.Tracker.note_read_only_tool lean_econ_api.Prover.Guard.signature_of
    lean_econ_api.Prover.Tracker.tool_signature lean_econ_api.Prover.Trace.has_failed_tactic_attempt
    lean_econ_api.Prover.Guard.refuse
finishes = refl

execute_function_calls-not-blank_example : All IsNotBlank (results round_of_calls)
execute_function_calls-not-blank_example =
    execute_function_calls-not-blank ctx 1 calls fresh (results round_of_calls)
      (round_state round_of_calls) finishes
