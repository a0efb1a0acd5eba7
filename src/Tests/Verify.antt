-- ===== src/Tests/Verify.antt =====
-- A verify request, its job, and its stream.
use lean_econ_api.Prelude.{
  ℕ, suc, ◌+◌, true, none, some, List, [], ◌∷◌, ◌≡◌, refl, arith, eqb, returned,
}
use lean_econ_api.Dict
use lean_econ_api.Json.{Value, null, number}
use lean_econ_api.Jobs
use lean_econ_api.Jobs.{
  JobStore, Job, create, subscribe, complete, init, completed, new_job, Event, progress, drop_jobs,
}
use lean_econ_api.Prover.Budget.{plus, read, resolved}
use lean_econ_api.Pipeline.{run_pipeline}
use lean_econ_api.Explainer.{Model, explain_result}
use lean_econ_api.Explainer.Fallback.{IsExplained, explain_result-IsExplained}
use lean_econ_api.Verify.{
  Intake, VerifyRequest, Server, verify_endpoint, Runner, VerifyTask, run_verify_job,
  pipeline_request, perform, StoreCall,
}
use lean_econ_api.Verify.Accepted.{IsAnswered, verify_endpoint-IsAnswered}
use lean_econ_api.Verify.Worker.{
  Worked, over, acts, waits, subscribe_step, IsOver, ending, run_verify_job-IsOver,
}
use lean_econ_api.Verify.Stream.{event_loop, stream_job_events}
use lean_econ_api.Verify.Stream.Frames.{IsWellStreamed, stream_job_events-IsWellStreamed}
use lean_econ_api.Verify.Stream.Finish.{IsSettled, event_loop-ends, IsIdle, event_loop-IsIdle}
use lean_econ_api.Tests.Pipeline.{stages, empty}

abbrev intake : Intake ℕ
intake = record {
  python = record {
    int_of = λ v. read (plus 3);
    float_of = λ v. read 3;
    is_le_zero = λ n. eqb n 0;
    float_of_whole = λ n. n;
    lower = λ s. s;
    repr = λ s. s;
    sorted = λ names. names;
  };
  validate_preamble_names = λ names. resolved names;
  resolve_verify_formalization_context = λ context names. resolved context;
  number_value = λ n. number 3;
}

abbrev request : VerifyRequest
request = record {
  theorem_code = "theorem t : 1 = 1 := by sorry";
  explain = true;
  preamble_names = [];
  formalization_context = none;
  reasoning_preset = some "high";
  budget_overrides = none;
}

abbrev server : Server
server = record { job_store = init 3600; background_tasks = [] }

verify_endpoint-IsAnswered_example :
    IsAnswered intake "id" 5 6 request server (verify_endpoint intake "id" 5 6 request server)
verify_endpoint-IsAnswered_example = verify_endpoint-IsAnswered intake "id" 5 6 request server

abbrev model : Model ℕ
model = record {
  lower = λ s. s;
  build_user_prompt = λ claim code result label. some "prompt";
  call_with_timeout = λ prompt w. returned "Fine." (suc w);
  summarize_calls = λ w. number w;
}

explain_result-IsExplained_example :
    IsExplained model "claim" "code" [] 0 (explain_result model "claim" "code" [] 0)
explain_result-IsExplained_example = explain_result-IsExplained model "claim" "code" [] 0

abbrev runner : Runner ℕ
runner = record {
  stages = stages;
  entries =
      λ s t. record { stage = "prove"; message = "m"; status = "done"; elapsed_ms = none } ∷ [];
  str = λ v. "";
  model = model;
}

abbrev task : VerifyTask
task = record {
  job_id = "id";
  theorem_code = "import Mathlib";
  explain = true;
  formalization_context = none;
  reasoning_preset = none;
  budget_overrides = none;
}

abbrev perform_all : List StoreCall → JobStore Value → JobStore Value
perform_all [] s = s
perform_all (c ∷ cs) s = perform_all cs (perform "id" c 7 8 s)

abbrev alone : (cs : List StoreCall) (s : JobStore Value) → Worked "id" cs s (perform_all cs s)
alone [] s = over
alone (c ∷ cs) s = acts 7 8 (alone cs (perform "id" c 7 8 s))

abbrev stored : JobStore Value
stored = create "id" none 5 6 (init 3600)

abbrev worked : JobStore Value
worked = perform_all (run_verify_job runner task empty) (subscribe "id" stored).1

run_verify_job-IsOver_example :
    IsOver "id"
      (ending runner task (run_pipeline stages (pipeline_request runner task) empty))
      worked
run_verify_job-IsOver_example = run_verify_job-IsOver runner task empty (
    waits (subscribe_step "id")
      (alone (run_verify_job runner task empty) (subscribe "id" stored).1))

stream_job_events-IsWellStreamed_example :
    IsWellStreamed
      (stream_job_events "id" 9 (λ n. n + 10) (λ n s. complete "id" null 7 8 s) 5 stored)
stream_job_events-IsWellStreamed_example =
    stream_job_events-IsWellStreamed "id" 9 (λ n. n + 10) (λ n s. complete "id" null 7 8 s) 5 stored

-- A job that is completed, before a queue that still holds an event of progress.
abbrev settled : JobStore Value
settled = record {
  jobs = ("id", record (new_job none 5 6) { status = completed; finished_at = some 8 }) ∷ [];
  subscribers = [];
  contents = λ p. progress "prove" "m" "done" ∷ [];
  next_queue = 1;
  ttl = 3600;
}

settled-IsSettled : IsSettled "id" 0 (λ n. 10) (λ n s. s) settled
unfolding Dict.get Dict.contains new_job Jobs.is_expired
settled-IsSettled = record {
  distinct = (refl, tt);
  job = record (new_job none 5 6) { status = completed; finished_at = some 8 };
  stored = refl;
  finished = refl;
  fresh = λ n. refl;
}

event_loop-ends_example : (event_loop "id" 0 (λ n. 10) (λ n s. s) 2 0 settled).ended ≡ true
event_loop-ends_example =
    event_loop-ends "id" 0 (λ n. 10) (λ n s. s) (λ n s h. h) (λ n s. omega arith) 2 0 settled
      settled-IsSettled (omega arith)

event_loop-IsIdle_example :
    IsIdle "id" 0 (λ n. n) (λ n s. s) (event_loop "id" 0 (λ n. n) (λ n s. s) 7 0 (init 3600))
event_loop-IsIdle_example =
    event_loop-IsIdle "id" 0 (λ n. n) (λ n s. s) (λ n s h. h) 7 0 (init 3600)
      (record { absent = unfold init in unfold Dict.get in refl; quiet = unfold init in refl })
