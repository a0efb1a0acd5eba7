-- ===== src/Prover/Guard.antt =====
-- `_install_guarded_execute_function_calls`: the guard between the model and its tools. The SDK
-- that runs a tool is a parameter; the closure `apply_tactic`, when the SDK calls it, first notes
-- its attempt. The proofs are in the modules below.
pub mod Verdicts
pub mod Loop
pub mod Evidence
pub mod Texts
pub mod Bounds
pub mod Budget
use Prim.Native.String.{◌++◌ as ◌<>◌}
use lean_econ_api.Prelude.{
  ℕ, ◌+◌, String, Bool, true, false, Option, none, some, List, [], ◌∷◌, ◌++◌, ◌==◌, not, ◌&&◌,
  if◌then◌else◌,
}
use lean_econ_api.Text.{strip, is_empty}
use lean_econ_api.Prover.Tracker
use lean_econ_api.Prover.Tracker.{
  AgenticToolTracker, Arguments, Json, tool_signature, is_search_tool, apply_tactic,
  lean_diagnostic_messages,
}
use lean_econ_api.Prover.Trace.{
  TraceRecorder, Attempt, Diagnostics, Status, status_ok, status_error, status_unavailable,
  status_blocked, Kind, local, mcp, append_tool_call, note_tactic_attempt, resolve_from_diagnostics,
  has_failed_tactic_attempt,
}

abbrev pub circuit_breaker_warning : String
circuit_breaker_warning =
    "CIRCUIT BREAKER TRIGGERED: You must use lean_diagnostic_messages to check your work before applying more tactics."

abbrev pub search_precondition_warning : String
search_precondition_warning =
    "SEARCH PRECONDITION NOT MET: First try a plausible tactic and inspect lean_diagnostic_messages before using search tools."

abbrev pub search_budget_warning : String
search_budget_warning =
    "SEARCH BUDGET EXHAUSTED: Stop using search/suggestion tools and either apply a tactic or inspect diagnostics."

abbrev pub duplicate_read_only_warning : String
duplicate_read_only_warning =
    "DUPLICATE READ-ONLY CALL BLOCKED: The proof state has not changed since the last identical query. Apply a tactic or choose a different tool."

-- `_unavailable_tool_message`
unfoldable pub unavailable_tool_message : String → String
unavailable_tool_message tool_name =
    "ERROR: Tool `" <> tool_name
    <> "` is not registered in this run context. Use one of the listed tools and call lean_diagnostic_messages to inspect the current proof state."

-- `_empty_tool_result_message`
unfoldable pub empty_tool_result_message : String → String
empty_tool_result_message tool_name =
    "WARNING: Tool `" <> tool_name
    <> "` returned an empty result. Use lean_diagnostic_messages on the working file before continuing."

-- `_sanitize_tool_result_text`; `none` is a result that is no text.
unfoldable pub sanitize_tool_result_text : String → Option String → String
sanitize_tool_result_text tool_name none = empty_tool_result_message tool_name
sanitize_tool_result_text tool_name (some text) =
    if is_empty (strip text) then empty_tool_result_message tool_name else text

-- A function call of the model, and a result that is fed back to it.
pub record FunctionCall (J : Type 0) : Type 0 where
  pub tool_call_id : String
  pub name : String
  pub arguments : Arguments J

pub record FunctionResult : Type 0 where
  pub tool_call_id : String
  pub result : String

-- What `create_function_result` does: the entry that it returns, or what it raises.
pub data Outcome : Type 0 where
  returned : String → Option String → Outcome
  raised : String → Outcome

-- The run of a tool: the world after it, the tactic if it called the closure `apply_tactic`, and
-- the outcome.
pub record Executed (W : Type 0) : Type 0 where
  pub world : W
  pub applied : Option String
  pub outcome : Outcome

-- What stands outside of the guard. `parse_diagnostic_payload` reads the text of a result.
pub record Context (W J : Type 0) : Type 0 where
  pub json : Json J
  pub is_registered : String → Bool
  pub execute : W → FunctionCall J → Executed W
  pub parse_diagnostic_payload : String → Option Diagnostics

pub record State (W J : Type 0) : Type 0 where
  pub world : W
  pub tracker : AgenticToolTracker
  pub recorder : TraceRecorder J
  pub log : List Attempt

-- The end of one pass of the loop: a `ToolBudgetExceededError`, or a result for the call.
pub data Pass (W J : Type 0) : Type 0 where
  exceeded : String → State W J → Pass W J
  passed : FunctionResult → State W J → Pass W J

-- The end of the whole loop: a raise loses the results so far.
pub data Round (W J : Type 0) : Type 0 where
  stopped : String → State W J → Round W J
  finished : List FunctionResult → State W J → Round W J

-- The branch that a call takes, in the order of the tests.
pub data Verdict : Type 0 where
  exhausted looping unavailable duplicate unproven_search search_exhausted unchecked run : Verdict

module _ {W J : Type 0} (ctx : Context W J) (request_index : ℕ) where
  open ctx use {json, is_registered, execute, parse_diagnostic_payload}

  unfoldable pub signature_of : FunctionCall J → String × String
  signature_of call = tool_signature json call.name call.arguments

  abbrev tool_kind : String → Kind
  tool_kind name = if name == apply_tactic then local else mcp

  unfoldable pub verdict : FunctionCall J → State W J → Verdict
  verdict call s =
      if Tracker.has_exhausted_total_budget s.tracker
      then exhausted
      else if not (call.name == apply_tactic) && Tracker.has_read_only_loop s.tracker
      then looping
      else if not (is_registered call.name)
      then unavailable
      else if Tracker.is_duplicate_read_only_call s.tracker call.name (signature_of call)
      then duplicate
      else if is_search_tool call.name && not (has_failed_tactic_attempt s.log)
      then unproven_search
      else if is_search_tool call.name && Tracker.has_exhausted_search_budget s.tracker
      then search_exhausted
      else if call.name == apply_tactic && Tracker.should_block_apply s.tracker
      then unchecked
      else run

  -- The end of every branch that refuses a call: a result and an entry of the trace.
  unfoldable pub refuse :
      FunctionCall J → String → Status → Bool → AgenticToolTracker → State W J → Pass W J
  refuse call message status blocked tracker s =
      passed (record { tool_call_id = call.tool_call_id; result = message })
        (record s {
          tracker = tracker;
          recorder =
              append_tool_call json request_index call.tool_call_id call.name (tool_kind call.name)
                call.arguments message status blocked none s.recorder;
        })

  -- The closure `apply_tactic` notes its tactic.
  unfoldable pub note_applied : Option String → State W J → State W J
  note_applied none s = s
  note_applied (some tactic) s =
      let (recorder, log) = note_tactic_attempt tactic (s.recorder, s.log) in
      record s { recorder = recorder; log = log }

  -- The state once the tool has run.
  unfoldable pub after_tool : Executed W → State W J → State W J
  unfolding note_applied
  after_tool done s = note_applied done.applied (record s { world = done.world })

  abbrev pub result_id : FunctionCall J → Outcome → String
  result_id call (returned id text) = id
  result_id call (raised message) = call.tool_call_id

  abbrev pub result_text : FunctionCall J → Outcome → Option String
  result_text call (returned id text) = text
  result_text call (raised message) =
      some ("ERROR while executing " <> call.name <> ": " <> message)

  abbrev pub result_status : Outcome → Status
  result_status (returned id text) = status_ok
  result_status (raised message) = status_error

  -- The diagnostics in the result of `lean_diagnostic_messages`.
  unfoldable pub payload_of : FunctionCall J → String → Option Diagnostics
  payload_of call text =
      if call.name == lean_diagnostic_messages then parse_diagnostic_payload text else none

  unfoldable pub note_payload : Option Diagnostics → State W J → State W J
  note_payload none s = s
  note_payload (some d) s =
      let (recorder, log) = resolve_from_diagnostics d (s.recorder, s.log) in
      record s { recorder = recorder; log = log }

  unfoldable pub note_executed : FunctionCall J → AgenticToolTracker → AgenticToolTracker
  note_executed call t =
      if call.name == lean_diagnostic_messages
      then Tracker.note_diagnostic_check t (signature_of call)
      else if call.name == apply_tactic
      then Tracker.note_apply_tactic_executed t
      else Tracker.note_read_only_tool t call.name (signature_of call)

  -- The rest of the pass, once the tool has run.
  unfoldable pub conclude : FunctionCall J → Executed W → State W J → Pass W J
  unfolding after_tool payload_of note_payload note_executed
  conclude call done s =
      let text = sanitize_tool_result_text call.name (result_text call done.outcome) in
      let payload = payload_of call text in
      let s' = note_payload payload (after_tool done s) in
      passed (record { tool_call_id = result_id call done.outcome; result = text })
        (record s' {
          tracker = note_executed call s'.tracker;
          recorder =
              append_tool_call json request_index call.tool_call_id call.name (tool_kind call.name)
                call.arguments text (result_status done.outcome) false payload s'.recorder;
        })

  -- The branch of a verdict.
  unfoldable pub enact : Verdict → FunctionCall J → State W J → Pass W J
  enact exhausted call s =
      exceeded "Tool budget exhausted. Stop searching and return the best current proof state."
        (record s { tracker = Tracker.note_budget_stop s.tracker })
  enact looping call s =
      exceeded
        "Read-only tool loop detected. Stop querying tools and return the best current proof state."
        (record s { tracker = Tracker.note_budget_stop s.tracker })
  enact unavailable call s =
      refuse call (unavailable_tool_message call.name) status_unavailable false
        (Tracker.note_blocked_tool s.tracker false false) s
  enact duplicate call s =
      refuse call duplicate_read_only_warning status_blocked true
        (Tracker.note_blocked_tool s.tracker false true) s
  enact unproven_search call s =
      refuse call search_precondition_warning status_blocked true
        (Tracker.note_blocked_tool s.tracker false false) s
  enact search_exhausted call s =
      refuse call search_budget_warning status_blocked true
        (Tracker.note_blocked_tool s.tracker true false) s
  enact unchecked call s =
      refuse call circuit_breaker_warning status_blocked true
        (Tracker.note_blocked_tool (Tracker.note_circuit_breaker s.tracker) false false) s
  enact run call s = conclude call (execute s.world call) s

  unfoldable pub guard_call : FunctionCall J → State W J → Pass W J
  guard_call call s = enact (verdict call s) call s

  abbrev pub with_result : FunctionResult → Round W J → Round W J
  with_result r (stopped message s) = stopped message s
  with_result r (finished rs s) = finished (r ∷ rs) s

  -- The loop over the calls of one response.
  unfoldable pub guard_loop : List (FunctionCall J) → State W J → Round W J
  guard_loop [] s = finished [] s
  guard_loop (call ∷ calls) s = elim (guard_call call s) [
    | exceeded message s' ↦ stopped message s'
    | passed r s' ↦ with_result r (guard_loop calls s')
  ]

  -- One result for each call, for the case that the loop gave none.
  unfoldable pub fallback_results : List (FunctionCall J) → List FunctionResult
  fallback_results [] = []
  fallback_results (call ∷ calls) =
      record {
        tool_call_id = call.tool_call_id;
        result =
            "WARNING: No executable tool results were produced. Use lean_diagnostic_messages to inspect the current proof state before continuing.";
      }
      ∷ fallback_results calls

  abbrev pub or_fallback : List (FunctionCall J) → List FunctionResult → List FunctionResult
  or_fallback calls [] = fallback_results calls
  or_fallback calls (r ∷ rs) = r ∷ rs

  -- `guarded_execute_function_calls`
  unfoldable pub execute_function_calls : List (FunctionCall J) → State W J → Round W J
  unfolding guard_loop
  execute_function_calls calls s = elim (guard_loop calls s) [
    | stopped message s' ↦ stopped message s'
    | finished rs s' ↦ finished (or_fallback calls rs) s'
  ]

-- The state that a pass or a round ends in.
abbrev pub pass_state : {W J : Type 0} → Pass W J → State W J
pass_state (exceeded message s) = s
pass_state (passed r s) = s

abbrev pub round_state : {W J : Type 0} → Round W J → State W J
round_state (stopped message s) = s
round_state (finished rs s) = s
