-- ===== src/Verify.antt =====
-- src/api.py: the endpoint that queues a verify job, the job, and the poll of its status. The
-- checks of preambles, FastAPI and the text of a number are parameters. The proofs are in the
-- modules below.
pub mod Accepted
pub mod Worker
pub mod Stream
use lean_econ_api.Prelude.{
  ℕ, String, Bool, true, false, Option, none, some, List, [], ◌∷◌, ◌++◌, ◌&&◌, ◌||◌, not, ◌==◌,
  is_some, if◌then◌else◌, Step, raised, returned, map,
}
use lean_econ_api.Text.{strip, is_empty, has_text, has_any}
use lean_econ_api.Dict
use lean_econ_api.Dict.{Dict}
use lean_econ_api.Json.{Value, null, flag, text, Object, of_object, items, no_item}
use lean_econ_api.Outcome.{
  LeanEconErrorCode, classification_rejected, classification_failed, formalization_failed,
  formalization_timeout, formalization_unformalizable, proof_not_found, proof_timeout,
  verification_rejected, verification_sorry, internal_error, invalid_input, no_error,
  verify_error_code,
}
use lean_econ_api.Prover.Budget.{
  Python, Resolved, resolved, value_error, other_error, Number, ProverBudgetConfig,
  resolve_budget_config,
}
use lean_econ_api.Jobs
use lean_econ_api.Jobs.{
  Job, JobStore, JobStatus, queued, running, completed, failed, Event, progress, complete_event,
  create, update_status, record_progress, publish, complete, fail,
}
use lean_econ_api.Pipeline
use lean_econ_api.Pipeline.{Stages, State, Request, run_pipeline}
use lean_econ_api.Explainer.{Model, Explanation, ExplainLog, explain_result}

-- What an endpoint answers, or the `HTTPException` that it raises.
pub data Response (A : Type 0) : Type 0 where
  ok : A → Response A
  http_error : ℕ → String → Response A

-- `_require_non_empty`; `none` stands for the error 422.
unfoldable pub require_non_empty : String → Option String
unfolding strip is_empty
require_non_empty value =
    let cleaned = strip value in if is_empty cleaned then none else some cleaned

-- `_looks_like_formalized_theorem`
unfoldable pub looks_like_formalized_theorem : String → Bool
unfolding strip has_any has_text
looks_like_formalized_theorem theorem_code =
    let normalized = strip theorem_code in
    let has_statement = has_any ("theorem " ∷ "lemma " ∷ "example " ∷ []) normalized in
    let has_proof_stub =
      has_text "sorry" normalized && (has_text ":= by" normalized || has_text ":=by" normalized) in
    has_statement && has_proof_stub

-- The value of an error code.
unfoldable pub code_text : LeanEconErrorCode → String
code_text classification_rejected = "classification_rejected"
code_text classification_failed = "classification_failed"
code_text formalization_failed = "formalization_failed"
code_text formalization_timeout = "formalization_timeout"
code_text formalization_unformalizable = "formalization_unformalizable"
code_text proof_not_found = "proof_not_found"
code_text proof_timeout = "proof_timeout"
code_text verification_rejected = "verification_rejected"
code_text verification_sorry = "verification_sorry"
code_text internal_error = "internal_error"
code_text invalid_input = "invalid_input"
code_text no_error = "none"

-- `{**a, **b}`
unfoldable pub merge : Object → Object → Object
unfolding Dict.put
merge a [] = a
merge a ((k, v) ∷ b) = merge (Dict.put k v a) b

-- The body of a verify request.
pub record VerifyRequest : Type 0 where
  pub theorem_code : String
  pub explain : Bool
  pub preamble_names : List String
  pub formalization_context : Option Object
  pub reasoning_preset : Option String
  pub budget_overrides : Option Object

-- The arguments of a queued `_run_verify_job`.
pub record VerifyTask : Type 0 where
  pub job_id : String
  pub theorem_code : String
  pub explain : Bool
  pub formalization_context : Option Object
  pub reasoning_preset : Option String
  pub budget_overrides : Option Object

-- The job store and the background tasks.
pub record Server : Type 0 where
  pub job_store : JobStore Value
  pub background_tasks : List VerifyTask

-- What the endpoint calls of src/preamble_library.py; the first two may raise a `ValueError`.
pub record Intake (F : Type 0) : Type 0 where
  pub python : Python Value F
  pub validate_preamble_names : List String → Resolved (List String)
  pub resolve_verify_formalization_context : Option Object → List String → Resolved (Option Object)
  pub number_value : Number F → Value

abbrev pub text_or_null : Option String → Value
text_or_null none = null
text_or_null (some s) = text s

abbrev pub object_or_null : Option Object → Value
object_or_null none = null
object_or_null (some d) = of_object d

module _ {F : Type 0} (intake : Intake F) where
  open intake use {
    python, validate_preamble_names, resolve_verify_formalization_context, number_value,
  }

  abbrev number_values : Dict (Number F) → Object
  number_values [] = []
  number_values ((k, n) ∷ d) = (k, number_value n) ∷ number_values d

  -- `normalized_overrides or None`
  abbrev or_none : Object → Option Object
  or_none [] = none
  or_none (e ∷ d) = some (e ∷ d)

  -- `_resolve_verify_budget_overrides`; `budget_overrides or {}` is in the resolution.
  unfoldable pub resolve_verify_budget_overrides :
      Option String → Option Object → Resolved (Option Object)
  unfolding resolve_budget_config
  resolve_verify_budget_overrides reasoning_preset budget_overrides =
      let overrides : Object = elim budget_overrides [ none ↦ [] | some d ↦ d ] in
      elim (resolve_budget_config python reasoning_preset overrides) [
        | resolved config ↦ resolved (or_none (number_values config.overrides_applied))
        | value_error m ↦ value_error m
        | other_error m ↦ other_error m
      ]

  -- What the `try` of the endpoint resolves: the preambles, the context and the overrides.
  unfoldable pub resolve_request :
      VerifyRequest → Resolved (List String × Option Object × Option Object)
  unfolding resolve_verify_budget_overrides
  resolve_request q = elim (validate_preamble_names q.preamble_names) [
    | value_error m ↦ value_error m
    | other_error m ↦ other_error m
    | resolved names ↦ elim (resolve_verify_formalization_context q.formalization_context names) [
      | value_error m ↦ value_error m
      | other_error m ↦ other_error m
      | resolved context ↦
          elim (resolve_verify_budget_overrides q.reasoning_preset q.budget_overrides) [
            | value_error m ↦ value_error m
            | other_error m ↦ other_error m
            | resolved overrides ↦ resolved (names, context, overrides)
          ]
    ]
  ]

  abbrev name_items : List String → Value
  name_items names = lean_econ_api.Json.of_items (map text names)

  -- the job and its task; `job_id` is the fresh id, `now` and `queued_at` the readings of the clock
  unfoldable pub queue_job :
      String
      → ℕ
      → ℕ
      → String
      → VerifyRequest
      → List String × Option Object × Option Object
      → Server
      → Server
  unfolding create
  queue_job job_id now queued_at theorem_code q (names, context, overrides) s = record {
    job_store =
        create job_id
          (some (
            of_object (
              ("theorem_code", text theorem_code)
              ∷ ("explain", flag q.explain)
              ∷ ("preamble_names", name_items names)
              ∷ ("formalization_context", object_or_null context)
              ∷ ("reasoning_preset", text_or_null q.reasoning_preset)
              ∷ ("budget_overrides", object_or_null overrides)
              ∷ [])))
          now queued_at s.job_store;
    background_tasks =
        s.background_tasks
        ++ (record {
          job_id = job_id;
          theorem_code = theorem_code;
          explain = q.explain;
          formalization_context = context;
          reasoning_preset = q.reasoning_preset;
          budget_overrides = overrides;
        }
            ∷ []);
  }

  -- `verify_endpoint`; an exception that is no `ValueError` becomes the error 500 of the server.
  unfoldable pub verify_endpoint :
      String → ℕ → ℕ → VerifyRequest → Server → Response String × Server
  unfolding require_non_empty looks_like_formalized_theorem resolve_request queue_job
  verify_endpoint job_id now queued_at q s = elim (require_non_empty q.theorem_code) [
    | none ↦ (http_error 422 "`theorem_code` must not be blank.", s)
    | some theorem_code ↦ elim (looks_like_formalized_theorem theorem_code) [
      | false ↦ (
        http_error 422
            "`theorem_code` must be a Lean theorem/lemma/example with a `:= by sorry` proof stub.",
        s,
      )
      | true ↦ elim (resolve_request q) [
        | value_error m ↦ (http_error 422 m, s)
        | other_error m ↦ (http_error 500 m, s)
        | resolved r ↦ (ok job_id, queue_job job_id now queued_at theorem_code q r s)
      ]
    ]
  ]

-- `get_job_status`: the job as the response shows it.
unfoldable pub get_job_status : String → ℕ → Server → Response (Job Value) × Server
unfolding Jobs.get
get_job_status job_id now s =
    let (found, store) = Jobs.get job_id now s.job_store in
    let s' : Server = record s { job_store = store } in
    elim found [ none ↦ (http_error 404 "Job not found or expired.", s') | some job ↦ (ok job, s') ]

-- A call of the job store by the job.
pub data StoreCall : Type 0 where
  start_running : StoreCall
  note_progress : String → String → Option Value → StoreCall
  send : Event → StoreCall
  complete_with : Object → StoreCall
  fail_with : String → StoreCall

-- The call, at two readings of the clock.
unfoldable pub perform : String → StoreCall → ℕ → ℕ → JobStore Value → JobStore Value
unfolding update_status record_progress publish complete fail
perform job_id start_running t u s = update_status job_id running t s
perform job_id (note_progress stage status elapsed_ms) t u s =
    record_progress job_id (some stage) (some status) elapsed_ms t s
perform job_id (send event) t u s = publish job_id event s
perform job_id (complete_with response) t u s = complete job_id (of_object response) t u s
perform job_id (fail_with error) t u s = fail job_id error t u s

-- A log entry, with the defaults of `on_log` filled in.
pub record LogEntry : Type 0 where
  pub stage : String
  pub message : String
  pub status : String
  pub elapsed_ms : Option Value

-- `on_log`
unfoldable pub on_log : LogEntry → List StoreCall
on_log e =
    note_progress e.stage e.status e.elapsed_ms ∷ send (progress e.stage e.message e.status) ∷ []

unfoldable pub on_logs : List LogEntry → List StoreCall
unfolding on_log
on_logs [] = []
on_logs (e ∷ es) = on_log e ++ on_logs es

abbrev pub explain_entry : ExplainLog → LogEntry
explain_entry e = record {
  stage = "explain";
  message = e.message;
  status = e.status;
  elapsed_ms = none;
}

-- What the job runs: the pipeline, the entries that its stages logged between two states, and the
-- explainer over the world of the pipeline.
pub record Runner (W : Type 0) : Type 0 where
  pub stages : Stages W
  pub entries : State W → State W → List LogEntry
  pub str : Value → String
  pub model : Model W

module _ {W : Type 0} (runner : Runner W) where
  open runner use {stages, entries, str, model}

  -- the arguments of `run_pipeline`
  unfoldable pub pipeline_request : VerifyTask → Request
  pipeline_request task = record {
    raw_input = task.theorem_code;
    preformalized_theorem = some task.theorem_code;
    formalization_context = object_or_null task.formalization_context;
    reasoning_preset = text_or_null task.reasoning_preset;
    budget_overrides = object_or_null task.budget_overrides;
    use_cache = true;
  }

  -- `{"error_code": error_code, **result}`
  unfoldable pub response_data : Object → Object
  unfolding merge code_text verify_error_code
  response_data result =
      merge (("error_code", text (code_text (verify_error_code str model.lower result))) ∷ [])
        result

  unfoldable pub with_explanation : Explanation → Object → Object
  unfolding Dict.put
  with_explanation e d = Dict.put "explanation_telemetry" e.provider_telemetry (
      Dict.put "explanation_generated" (flag e.generated)
        (Dict.put "explanation" (text e.explanation) d))

  -- the end of a job with its explanation
  unfoldable pub explained : Explanation → Object → List StoreCall
  unfolding response_data with_explanation on_logs
  explained e result =
      on_logs (map explain_entry e.logged)
      ++ (complete_with (with_explanation e (response_data result)) ∷ [])

  -- the job once the pipeline has returned
  unfoldable pub after_pipeline : VerifyTask → Object → W → List StoreCall
  unfolding response_data explained explain_result
  after_pipeline task result w =
      if task.explain
      then explained (explain_result model task.theorem_code task.theorem_code result w).0 result
      else complete_with (response_data result) ∷ []

  -- `_run_verify_job`: its calls of the job store, in order. It reads nothing from the store.
  unfoldable pub run_verify_job : VerifyTask → State W → List StoreCall
  unfolding run_pipeline pipeline_request after_pipeline on_logs
  run_verify_job task s = start_running ∷ elim (run_pipeline stages (pipeline_request task) s) [
    | raised message s' ↦ on_logs (entries s s') ++ (fail_with message ∷ [])
    | returned result s' ↦ on_logs (entries s s') ++ after_pipeline task result s'.world
  ]
