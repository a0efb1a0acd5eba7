-- ===== src/Pipeline/Results.antt =====
-- src/pipeline.py: the dictionaries that its stages give and that it logs.
use lean_econ_api.Prelude.{
  String, Bool, true, false, Option, none, some, [], ◌∷◌, ◌++◌, ◌||◌, ◌&&◌, if◌then◌else◌,
}
use lean_econ_api.Text.{strip, has_text}
use lean_econ_api.Json.{
  Value, null, flag, number, text, Object, of_object, of_items, truthy, or_else, get_or, as_object,
}

abbrev pub no_items : Value
no_items = of_items []

abbrev pub no_members : Value
no_members = of_object []

-- `_is_raw_lean_input`
unfoldable pub is_raw_lean_input : String → Bool
is_raw_lean_input raw_input =
    has_text "import Mathlib" raw_input
    || (has_text ":= by" raw_input && has_text "sorry" raw_input)

-- `parse_claim`, over `re.sub` with and without the flag MULTILINE
unfoldable pub parse_claim : (Bool → String → String → String → String) → String → Object
unfolding strip
parse_claim sub raw_input =
    let begins =
      sub false "\\\\begin\\{(claim|theorem|proposition|lemma)\\}" "" (strip raw_input) in
    let ends = sub false "\\\\end\\{(claim|theorem|proposition|lemma)\\}" "" begins in
    let comments = sub true "^%.*$" "" ends in
    ("text", text (strip (sub false "\\n{3,}" "\n\n" comments))) ∷ []

-- `_build_run_log_entry`: what it is given, and the entry
pub record RunLog : Type 0 where
  pub raw_input : String
  pub input_text : String
  pub input_mode : String
  pub formalization : Object
  pub proving : Object
  pub verification : Object
  pub elapsed_seconds : Value
  pub from_cache : Value
  pub partially : Value
  pub stop_reason : Value
  pub provider_telemetry : Option Object
  pub cache_replay : Bool

abbrev pub telemetry_members : Option Object → Object
telemetry_members none = []
telemetry_members (some t) =
    ("provider_telemetry", of_object t)
    ∷ ("estimated_cost_base_usd", get_or null "estimated_cost_base_usd" t)
    ∷ ("estimated_cost_stress_usd", get_or null "estimated_cost_stress_usd" t)
    ∷ ("provider_call_count", get_or null "provider_call_count" t)
    ∷ ("llm_call_count", get_or null "llm_call_count" t)
    ∷ ("usage_present", get_or null "usage_present" t)
    ∷ ("local_only", get_or null "local_only" t)
    ∷ []

unfoldable pub build_run_log_entry : RunLog → Object
build_run_log_entry r =
    ("original_raw_claim", text r.raw_input)
    ∷ ("input_text", text r.input_text)
    ∷ ("input_mode", text r.input_mode)
    ∷ ("formalization", of_object r.formalization)
    ∷ ("proving", of_object r.proving)
    ∷ ("verification", of_object r.verification)
    ∷ ("elapsed_seconds", r.elapsed_seconds)
    ∷ ("from_cache", r.from_cache)
    ∷ ("partial", r.partially)
    ∷ ("stop_reason", r.stop_reason)
    ∷ (telemetry_members r.provider_telemetry
        ++ (if r.cache_replay then ("cache_replay", flag true) ∷ [] else []))

-- `_formalization_model_label`, over `str` and the constant `LEANSTRAL_MODEL`. A telemetry that is
-- no dictionary, on which the source fails, counts as an empty one.
unfoldable pub formalization_model_label : (Value → String) → String → Object → String
unfolding truthy or_else as_object get_or
formalization_model_label str leanstral_model formalization =
    let telemetry : Object =
      elim (as_object (or_else (get_or null "formalizer_telemetry" formalization) no_members)) [
        | none ↦ []
        | some d ↦ d
      ] in
    let model = get_or null "model" telemetry in
    if truthy model
    then str model
    else if truthy (get_or (number 0) "attempts" formalization)
    then leanstral_model
    else "raw_lean_bypass"

-- `_empty_formalization_telemetry`, with the telemetry of no call
unfoldable pub empty_formalization_telemetry : Object → String → Object
empty_formalization_telemetry no_calls model_label =
    ("model", text model_label)
    ∷ ("cache_hit", flag false)
    ∷ ("cache_namespace", null)
    ∷ ("model_calls", number 0)
    ∷ ("validation_method", null)
    ∷ ("validation_methods", no_items)
    ∷ ("validation_fallback_reasons", no_items)
    ∷ ("repair_buckets", no_items)
    ∷ ("last_repair_bucket", null)
    ∷ ("deterministic_repairs_applied", no_items)
    ∷ ("selected_preambles", no_items)
    ∷ ("explicit_preambles", no_items)
    ∷ ("auto_preambles", no_items)
    ∷ ("retrieval", no_members)
    ∷ ("mcp", no_members)
    ∷ ("provider_telemetry", of_object no_calls)
    ∷ []

-- `_empty_formalization_context`
unfoldable pub empty_formalization_context : String → Object
empty_formalization_context model_label =
    ("schema_version", number 1)
    ∷ ("cache_hit", flag false)
    ∷ ("source", text model_label)
    ∷ ("claim_text", text "")
    ∷ ("claim_components", no_items)
    ∷ ("selected_preambles", no_items)
    ∷ ("explicit_preambles", no_items)
    ∷ ("auto_preambles", no_items)
    ∷ ("preamble_imports", no_items)
    ∷ ("candidate_imports", no_items)
    ∷ ("candidate_identifiers", no_items)
    ∷ ("search_terms", no_items)
    ∷ ("shape_guidance", no_items)
    ∷ ("retrieval_notes", no_items)
    ∷ (
      "retrieval",
      of_object (
          ("source_counts", no_members)
          ∷ ("mcp_enabled", flag false)
          ∷ ("mcp_skip_reason", null)
          ∷ ("mcp_hits", no_items)
          ∷ []),
    )
    ∷ (
      "validation",
      of_object (("method", null) ∷ ("methods", no_items) ∷ ("fallback_reasons", no_items) ∷ []),
    )
    ∷ (
      "repairs",
      of_object (("repair_buckets", no_items) ∷ ("deterministic_repairs_applied", no_items) ∷ []),
    )
    ∷ []

-- `_formalization_log_payload`
unfoldable pub formalization_log_payload : (Value → String) → String → Object → Object
formalization_log_payload str leanstral_model f =
    ("success", get_or (flag false) "success" f)
    ∷ ("attempts", get_or (number 0) "attempts" f)
    ∷ ("theorem_code", get_or (text "") "theorem_code" f)
    ∷ ("errors", get_or no_items "errors" f)
    ∷ ("model", text (formalization_model_label str leanstral_model f))
    ∷ ("formalization_failed", get_or (flag false) "formalization_failed" f)
    ∷ ("failure_reason", get_or null "failure_reason" f)
    ∷ ("formalizer_telemetry", get_or no_members "formalizer_telemetry" f)
    ∷ []

-- The dictionary of a formalization that no model made.
unfoldable pub bypass_result : Object → String → Value → String → Object
bypass_result no_calls theorem_code context model_label =
    ("success", flag true)
    ∷ ("theorem_code", text (strip theorem_code))
    ∷ ("attempts", number 0)
    ∷ ("errors", no_items)
    ∷ ("formalization_failed", flag false)
    ∷ ("failure_reason", null)
    ∷ ("preamble_used", no_items)
    ∷ ("diagnosis", null)
    ∷ ("suggested_fix", null)
    ∷ ("fixable", null)
    ∷ ("formalizer_telemetry", of_object (empty_formalization_telemetry no_calls model_label))
    ∷ ("formalization_context", context)
    ∷ []

-- `_raw_lean_formalization_result`
unfoldable pub raw_lean_formalization_result : Object → String → Object
raw_lean_formalization_result no_calls raw_input =
    bypass_result no_calls raw_input (of_object (empty_formalization_context "raw_lean_bypass"))
      "raw_lean_bypass"

-- `_preformalized_result`
unfoldable pub preformalized_result : Object → String → Value → Object
preformalized_result no_calls theorem_code formalization_context =
    bypass_result no_calls theorem_code
      (or_else formalization_context
        (of_object (empty_formalization_context "preformalized_input")))
      "preformalized_input"

-- `_failed_pipeline_result`
unfoldable pub failed_pipeline_result : Object → Value → Object → Object
failed_pipeline_result f elapsed provider_telemetry =
    ("success", flag false)
    ∷ ("lean_code", get_or (text "") "theorem_code" f)
    ∷ ("errors", get_or no_items "errors" f)
    ∷ ("warnings", no_items)
    ∷ ("proof_strategy", text "")
    ∷ ("proof_tactics", text "")
    ∷ ("theorem_statement", get_or (text "") "theorem_code" f)
    ∷ ("formalization_attempts", get_or (number 0) "attempts" f)
    ∷ ("formalization_failed", get_or (flag false) "formalization_failed" f)
    ∷ ("failure_reason", get_or null "failure_reason" f)
    ∷ ("output_lean", null)
    ∷ ("proof_generated", flag false)
    ∷ ("phase", text "failed")
    ∷ ("elapsed_seconds", elapsed)
    ∷ ("from_cache", flag false)
    ∷ ("partial", flag false)
    ∷ ("stop_reason", null)
    ∷ ("tool_trace", no_items)
    ∷ ("tactic_calls", no_items)
    ∷ ("trace_schema_version", number 1)
    ∷ ("agent_summary", text "")
    ∷ ("agent_elapsed_seconds", number 0)
    ∷ ("axiom_info", null)
    ∷ ("provider_telemetry", of_object provider_telemetry)
    ∷ ("formalization_context", get_or null "formalization_context" f)
    ∷ ("budget", null)
    ∷ []

-- `ProveResult`
pub record ProveResult : Type 0 where
  pub success : Value
  pub lean_code : Value
  pub errors : Value
  pub warnings : Value
  pub proof_strategy : Value
  pub proof_tactics : Value
  pub output_lean : Value
  pub proof_generated : Value
  pub attempts_used : Value
  pub partially : Value
  pub stop_reason : Value
  pub tool_trace : Value
  pub tactic_calls : Value
  pub trace_schema_version : Value
  pub agent_summary : Value
  pub agent_elapsed_seconds : Value
  pub axiom_info : Value
  pub provider_telemetry : Value
  pub budget : Value

-- the dictionary that `prove_and_verify` makes of what the prover gave
unfoldable pub normalize_proof : Object → Object → ProveResult
normalize_proof no_calls r = record {
  success = get_or (flag false) "success" r;
  lean_code = get_or (text "") "full_lean_code" r;
  errors = get_or no_items "errors" r;
  warnings = get_or no_items "warnings" r;
  proof_strategy = get_or (text "") "strategy" r;
  proof_tactics = get_or (text "") "proof_tactics" r;
  output_lean = get_or null "output_lean" r;
  proof_generated = get_or (flag true) "proof_generated" r;
  attempts_used = get_or (number 0) "steps_used" r;
  partially = get_or (flag false) "partial" r;
  stop_reason = get_or null "stop_reason" r;
  tool_trace = get_or no_items "tool_trace" r;
  tactic_calls = get_or no_items "tactic_calls" r;
  trace_schema_version = get_or (number 1) "trace_schema_version" r;
  agent_summary = get_or (text "") "agent_summary" r;
  agent_elapsed_seconds = get_or (number 0) "elapsed_seconds" r;
  axiom_info = get_or null "axiom_info" r;
  provider_telemetry = get_or (of_object no_calls) "provider_telemetry" r;
  budget = get_or null "budget" r;
}

-- the phase of a result that has a proof
unfoldable pub phase_of : ProveResult → String
unfolding truthy
phase_of p =
    if truthy p.success then "verified" else if truthy p.proof_generated then "proved" else "failed"

-- `_successful_pipeline_result`
unfoldable pub successful_pipeline_result : Value → Object → ProveResult → Value → Object → Object
successful_pipeline_result theorem_with_sorry f p elapsed provider_telemetry =
    ("success", p.success)
    ∷ ("lean_code", p.lean_code)
    ∷ ("errors", p.errors)
    ∷ ("warnings", p.warnings)
    ∷ ("proof_strategy", p.proof_strategy)
    ∷ ("proof_tactics", p.proof_tactics)
    ∷ ("theorem_statement", theorem_with_sorry)
    ∷ ("formalization_attempts", get_or null "attempts" f)
    ∷ ("formalization_failed", flag false)
    ∷ ("failure_reason", null)
    ∷ ("output_lean", p.output_lean)
    ∷ ("proof_generated", p.proof_generated)
    ∷ ("phase", text (phase_of p))
    ∷ ("elapsed_seconds", elapsed)
    ∷ ("from_cache", flag false)
    ∷ ("partial", p.partially)
    ∷ ("stop_reason", p.stop_reason)
    ∷ ("attempts_used", p.attempts_used)
    ∷ ("tool_trace", p.tool_trace)
    ∷ ("tactic_calls", p.tactic_calls)
    ∷ ("trace_schema_version", p.trace_schema_version)
    ∷ ("agent_summary", p.agent_summary)
    ∷ ("agent_elapsed_seconds", p.agent_elapsed_seconds)
    ∷ ("axiom_info", p.axiom_info)
    ∷ ("provider_telemetry", of_object provider_telemetry)
    ∷ ("formalization_context", get_or null "formalization_context" f)
    ∷ ("budget", p.budget)
    ∷ []
