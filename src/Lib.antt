-- ===== src/Lib.antt =====
-- LeanEcon: a verification service for claims in economics. The API queues a verify job, the
-- pipeline formalizes and proves, an agentic prover drives a language model with guarded tools, and
-- caches keep what succeeded. This library models the parts of that program that keep state or decide,
-- and proves what makes them correct.
--
-- Parts and files (paths from the repository's root):
--
-- Dict and its laws model Python's `dict` with text keys, and Text its `str` methods; Prelude has the
-- shared names.
--
-- Cache (src/result_cache.py): `_JsonBackedCache` with `get`, `put`, `clear`, `_load`, `_save`, and
-- the two policies `ResultCache` and `FormalizationCache`. The state is the dictionary `_cache`, in
-- insertion order, and the file behind it. The digest, `json` and the outcome of each write to disk are
-- parameters. `copy.deepcopy` is the identity on values, and the lock makes each method one step.
--
-- Jobs (src/job_store.py): `JobStore` with all its methods. A subscriber queue is a number, its
-- contents a list; the readings of the clock are arguments, as natural numbers of ticks. Interleavings
-- of calls are the relation `Step`.
--
-- Prover/Tracker, Prover/Trace and Prover/Guard (src/agentic_prover.py): `AgenticToolTracker`,
-- `TraceRecorder` and the wrapper `guarded_execute_function_calls`, with every branch in the order of
-- the code. The SDK that runs a tool is the parameter `execute`, which also says whether it called the
-- closure `apply_tactic`; the parser of diagnostics is a parameter.
--
-- Prover/Conversation (src/agentic_prover.py): `_run_conversation_with_backoff`, with the errors of a
-- run in Prover/Errors. A request is an action
-- on the world of the SDK that answers or raises; `request_with_backoff` recurses on the delays left,
-- and the loop runs on fuel, of which a cap on append rounds and two more is enough. Without a cap the
-- source's loop has no bound of its own. Prover/Conversation/Guarded puts the tool guard in place of the
-- SDK's function calls, as `_install_guarded_execute_function_calls` does.
--
-- ProofFile (src/proof_file_controller.py): `ProofFileController` with all its methods, over the text
-- of the file it owns; the regular expressions, `textwrap.dedent` and the failure of a write are
-- parameters, a method that raises leaves the state it had reached.
--
-- Prover/Budget (src/agentic_prover.py): `resolve_budget_config` with its presets and overrides, and
-- `_budget_summary`. Floats are an abstract type, and `int` and `float` say what they read.
--
-- Json models the dictionaries that the parts hand to one another. Pipeline (src/pipeline.py) has
-- `formalize_claim`, `prove_and_verify` and `run_pipeline` over a state of the result cache, the run
-- log and the progress events; Pipeline/Results has the dictionaries that they build. A stage returns
-- or raises. The formalizer, the provers, `re`, `str` and the clock are parameters.
--
-- Formalizer (src/formalizer.py): the loop of `formalize`, its local variables as a record, and one
-- function for each part of a pass; Formalizer/Buckets reads the model's answer and Lean's errors.
-- The loop is a recursion on the list of its two attempts, so it needs no fuel, and the diagnosis of a
-- failure is one more call of the model. The model, the checks of a candidate and the repairs are
-- parameters; its telemetry is a function of its variables, and its log lines are left out.
-- Formalizer/Cached has `formalize` with the context that it builds first, where the retrieval acts on
-- the world, the lookup, the replay and the stores of `formalization_cache`, and Formalizer/Checking has `sorry_validate`, over the
-- two ways to run Lean; Formalizer/Imports finds and repairs the imports of a candidate, on its lines.
--
-- Diagnostics (src/lean_diagnostics.py): the parser of Lean's plain output, whose fuel is the number of
-- lines, and every pass takes one at least; Diagnostics/Payloads extracts JSON from a text, and
-- Diagnostics/Structured has the diagnostics in it. `json.loads` is a parameter.
--
-- Mcp (src/mcp_runtime.py): the cooldown of the formalizer's MCP helpers.
--
-- Telemetry (src/provider_telemetry.py): the records of provider calls, their costs, and the summary that
-- the pipeline combines. Leanstral (src/leanstral_utils.py): `call_leanstral`; the range of its attempts
-- is the fuel, and the last attempt in it always breaks off. Explainer (src/explainer.py):
-- `explain_result` with its fallbacks, over a model that answers or raises.
--
-- Verify (src/api.py): `verify_endpoint` over the server's job store and background tasks,
-- `get_job_status`, and `_run_verify_job` as the list of its calls of the job store, which it never
-- reads; Verify/Worker interleaves that list with the calls of other clients. The job runs the
-- `run_pipeline` of Pipeline and the `explain_result` of Explainer; the texts that a stage logs are a
-- parameter. Verify/Stream is `stream_job_events`: between two passes of its loop others may change the
-- store in any way, and a client stays for a number of passes, which is the fuel.
--
-- Outcome (src/error_codes.py, src/outcome_codes.py): the error codes and the two classifications.
--
-- Not modelled: prompts, the network and MCP sessions, the Lean compiler, log files, benchmarks and
-- the HTTP layer; the endpoints besides those of verify jobs, and the local fast path of the prover.
pub mod Prelude
pub mod Dict
pub mod Cache
pub mod Jobs
pub mod Text
pub mod Prover
mod Tests
pub mod Json
pub mod Pipeline
pub mod Formalizer
pub mod Outcome
pub mod ProofFile
pub mod Telemetry
pub mod Leanstral
pub mod Explainer
pub mod Verify
pub mod Mcp
pub mod Diagnostics
