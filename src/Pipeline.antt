-- ===== src/Pipeline.antt =====
-- src/pipeline.py: the pipeline from a claim to a verified proof. The formalizer, the registered
-- provers, the summary of provider calls, `re`, the clock and `str` are parameters; a key that the
-- source reads by `d["k"]` is one that the stage's dictionary has. The texts of progress events and
-- of exceptions are abbreviated. The proofs are in the modules below.
pub mod Results
pub mod Ends
pub mod Runs
pub mod Proved
pub mod Replay
pub mod Repeat
use lean_econ_api.Prelude.{
  Step, raised, returned, String, Bool, true, false, Option, none, some, List, [], ◌∷◌, ◌++◌, ◌&&◌,
  not, is_some, if◌then◌else◌,
}
use lean_econ_api.Text.{is_empty, take}
use lean_econ_api.Dict
use lean_econ_api.Dict.{Dict}
use lean_econ_api.Cache
use lean_econ_api.Cache.{Policy, Entry, Flags, result_policy}
use lean_econ_api.Json.{
  Value, null, flag, number, text, Object, of_object, truthy, or_else, get_or, set_default,
  as_object,
}
use lean_econ_api.Pipeline.Results.{
  no_items, no_members, is_raw_lean_input, parse_claim, RunLog, build_run_log_entry,
  empty_formalization_telemetry, formalization_log_payload, raw_lean_formalization_result,
  preformalized_result, failed_pipeline_result, ProveResult, normalize_proof,
  successful_pipeline_result,
}

-- What stands outside of the pipeline, over the state `W` of the rest of the process.
pub record Stages (W : Type 0) : Type 0 where
  pub sub : Bool → String → String → String → String
  pub formalize : String → Bool → W → Step W Object
  pub get_prover : String → Option (Value → Value → Value → Value → W → Step W Object)
  pub summarize_calls : List Value → Object
  pub elapsed : W → W → Value
  pub str : Value → String
  pub leanstral_model : String
  pub digest : String → String

-- The result cache, the run log, and the progress events (stage and status) sent so far.
pub record State (W : Type 0) : Type 0 where
  pub world : W
  pub result_cache : Dict (Entry String Object)
  pub runs : List Object
  pub events : List (String × String)

-- The arguments of `run_pipeline` that are data.
pub record Request : Type 0 where
  pub raw_input : String
  pub preformalized_theorem : Option String
  pub formalization_context : Value
  pub reasoning_preset : Value
  pub budget_overrides : Value
  pub use_cache : Bool

-- `preformalized_theorem or raw_input`
unfoldable pub cache_key_input : Request → String
unfolding is_empty
cache_key_input q = elim q.preformalized_theorem [
  | none ↦ q.raw_input
  | some theorem ↦ if is_empty theorem then q.raw_input else theorem
]

-- `raw_input[:500] if preformalized_theorem is None else ""`
unfoldable pub logged_input : Request → String
unfolding take
logged_input q = if is_some q.preformalized_theorem then "" else take 500 q.raw_input

unfoldable pub logged_mode : Object → String
unfolding get_or truthy
logged_mode f = if truthy (get_or (number 0) "attempts" f) then "latex_or_text" else "raw_lean"

-- `ResultCache.should_cache`
abbrev pub flags : Flags Object
flags = record {
  success = λ r. truthy (get_or null "success" r);
  formalization_failed = λ r. truthy (get_or null "formalization_failed" r);
}

module _ {W : Type 0} where
  -- `_log`
  unfoldable pub note : String → String → State W → State W
  note stage status s = record s { events = s.events ++ ((stage, status) ∷ []) }

  -- `log_run`, which never raises
  unfoldable pub log_run : Object → State W → State W
  log_run run s = record s { runs = s.runs ++ (run ∷ []) }

  abbrev pub in_state : {A : Type 0} → State W → Step W A → Step (State W) A
  in_state s (raised message w) = raised message (record s { world = w })
  in_state s (returned a w) = returned a (record s { world = w })

module _ {W : Type 0} (stages : Stages W) where
  open stages use {sub, formalize, get_prover, summarize_calls, elapsed, str, leanstral_model}

  abbrev pub no_calls : Object
  no_calls = summarize_calls []

  unfoldable pub policy : Policy String Object
  policy = result_policy stages.digest lean_econ_api.Text.strip flags

  -- the progress event of a formalization
  unfoldable pub note_formalized : Object → State W → State W
  unfolding note truthy get_or
  note_formalized f s =
      if truthy (get_or null "formalization_failed" f)
      then note "formalize" "error" s
      else if truthy (get_or null "success" f)
      then note "formalize" "done" s
      else note "formalize" "error" s

  -- `formalize_claim`
  unfoldable pub formalize_claim : String → Bool → State W → Step (State W) Object
  unfolding note note_formalized parse_claim
  formalize_claim raw_input use_cache s =
      if is_raw_lean_input raw_input
      then returned (raw_lean_formalization_result no_calls raw_input) (note "parse" "done" s)
      else let parsed = str (get_or null "text" (parse_claim sub raw_input)) in
        let s' = note "formalize" "running" (note "parse" "done" (note "parse" "running" s)) in
        elim (in_state s' (formalize parsed use_cache s'.world)) [
          | raised message t ↦ raised message t
          | returned f t ↦ returned f (note_formalized f t)
        ]

  -- `prove_and_verify`
  unfoldable pub prove_and_verify :
      Value → String → Value → Value → Value → State W → Step (State W) ProveResult
  unfolding note
  prove_and_verify theorem prover_name context preset overrides s = elim (get_prover prover_name) [
    | none ↦ raised "Unknown prover backend" s
    | some prove ↦
        let s' = note "prover_dispatch" "running" s in
        elim (in_state s' (prove theorem context preset overrides s'.world)) [
          | raised message t ↦ raised message t
          | returned r t ↦
              let passed = truthy (get_or (flag false) "success" r) in
              returned (normalize_proof no_calls r)
                (note "prover_dispatch" (if passed then "done" else "error") t)
        ]
  ]

  unfoldable pub keep_telemetry : Object → Object → Object
  unfolding Dict.put
  keep_telemetry [] c = c
  keep_telemetry (e ∷ es) c = Dict.put "cached_provider_telemetry" (of_object (e ∷ es)) c

  -- the keys that older entries of the cache may lack
  unfoldable pub with_defaults : Object → Object
  unfolding set_default
  with_defaults c =
      let d = set_default "stop_reason" null (set_default "partial" (flag false) c) in
      let e = set_default "tactic_calls" no_items (set_default "tool_trace" no_items d) in
      let f =
        set_default "agent_summary" (text "") (set_default "trace_schema_version" (number 1) e) in
      let g = set_default "budget" null (set_default "agent_elapsed_seconds" (number 0) f) in
      set_default "formalization_context" null g

  unfoldable pub marked : Object → Object
  unfolding Dict.put
  marked cached = Dict.put "from_cache" (flag true) (Dict.put "elapsed_seconds" (number 0) cached)

  -- What a cache hit returns, or nothing where its telemetry is no dictionary.
  unfoldable pub replay : Object → Option Object
  unfolding as_object get_or with_defaults marked Dict.put
  replay cached = elim (as_object (get_or no_members "provider_telemetry" (marked cached))) [
    | none ↦ none
    | some telemetry ↦ some (
        with_defaults (
          Dict.put "provider_telemetry" (of_object no_calls)
            (keep_telemetry telemetry (marked cached))))
  ]

  unfoldable pub replay_log : Request → Object → RunLog
  unfolding or_else
  replay_log q cached =
      let theorem =
        or_else (or_else (get_or null "theorem_statement" cached) (get_or null "lean_code" cached))
          (text (cache_key_input q)) in
      record {
        raw_input = q.raw_input;
        input_text = "";
        input_mode = "cache";
        formalization =
            ("success", flag true)
            ∷ ("attempts", get_or (number 0) "formalization_attempts" cached)
            ∷ ("theorem_code", text (str theorem))
            ∷ ("errors", no_items)
            ∷ ("model", text "cache_replay")
            ∷ ("formalization_failed", flag false)
            ∷ ("failure_reason", null)
            ∷ (
              "formalizer_telemetry",
              of_object (
                  Dict.put "cache_hit" (flag true)
                    (empty_formalization_telemetry no_calls "cache_replay")),
            )
            ∷ [];
        proving =
            ("success", get_or (flag true) "success" cached)
            ∷ ("attempts_used", get_or (number 0) "attempts_used" cached)
            ∷ ("proof_strategy", get_or (text "") "proof_strategy" cached)
            ∷ ("proof_tactics", get_or (text "") "proof_tactics" cached)
            ∷ ("tool_trace", get_or no_items "tool_trace" cached)
            ∷ ("tactic_calls", get_or no_items "tactic_calls" cached)
            ∷ ("trace_schema_version", get_or (number 1) "trace_schema_version" cached)
            ∷ ("agent_summary", get_or (text "") "agent_summary" cached)
            ∷ ("budget", get_or null "budget" cached)
            ∷ ("provider_telemetry", of_object no_calls)
            ∷ [];
        verification =
            ("success", get_or (flag true) "success" cached)
            ∷ ("errors", get_or no_items "errors" cached)
            ∷ ("warnings", get_or no_items "warnings" cached)
            ∷ [];
        elapsed_seconds = number 0;
        from_cache = flag true;
        partially = get_or (flag false) "partial" cached;
        stop_reason = text "cache_hit";
        provider_telemetry = some no_calls;
        cache_replay = true;
      }

  -- the branch of a cache hit
  unfoldable pub run_cached : Request → Object → State W → Step (State W) Object
  unfolding note replay replay_log log_run build_run_log_entry
  run_cached q cached s =
      let s' = note "cache" "done" s in
      elim (replay cached) [
        | none ↦ raised "TypeError" s'
        | some c ↦ returned c (log_run (build_run_log_entry (replay_log q c)) s')
      ]

  -- the entry that a failed formalization leaves in the run log
  unfoldable pub failure_log : Request → Object → Object → Object → RunLog
  failure_log q f result telemetry = record {
    raw_input = q.raw_input;
    input_text = logged_input q;
    input_mode = logged_mode f;
    formalization = formalization_log_payload str leanstral_model f;
    proving =
        ("success", flag false)
        ∷ ("attempts_used", number 0)
        ∷ ("proof_strategy", text "")
        ∷ ("proof_tactics", text "")
        ∷ ("tool_trace", no_items)
        ∷ ("tactic_calls", no_items)
        ∷ ("trace_schema_version", number 1)
        ∷ ("agent_summary", text "")
        ∷ ("budget", null)
        ∷ ("provider_telemetry", of_object no_calls)
        ∷ [];
    verification =
        ("success", flag false)
        ∷ ("errors", get_or no_items "errors" f)
        ∷ ("warnings", no_items)
        ∷ [];
    elapsed_seconds = get_or null "elapsed_seconds" result;
    from_cache = get_or null "from_cache" result;
    partially = get_or null "partial" result;
    stop_reason = get_or null "stop_reason" result;
    provider_telemetry = some telemetry;
    cache_replay = false;
  }

  -- the provider telemetry in the formalizer's telemetry, which is a dictionary in each result of
  -- `formalize`; the `AttributeError` of any other value is left out
  unfoldable pub formalizer_calls : Object → Value
  unfolding as_object get_or
  formalizer_calls f = elim (as_object (get_or no_members "formalizer_telemetry" f)) [
    | none ↦ null
    | some t ↦ get_or null "provider_telemetry" t
  ]

  -- the branch of a failed formalization
  unfoldable pub run_failed : Request → W → Object → State W → Step (State W) Object
  unfolding failure_log log_run build_run_log_entry failed_pipeline_result
  run_failed q start f s =
      let telemetry = summarize_calls (formalizer_calls f ∷ []) in
      let result = failed_pipeline_result f (elapsed start s.world) telemetry in
      returned result (log_run (build_run_log_entry (failure_log q f result telemetry)) s)

  -- the entry that a run of the prover leaves in the run log
  unfoldable pub proof_log : Request → Object → ProveResult → Object → Object → RunLog
  proof_log q f p result telemetry = record {
    raw_input = q.raw_input;
    input_text = logged_input q;
    input_mode = logged_mode f;
    formalization = formalization_log_payload str leanstral_model f;
    proving =
        ("success", p.success)
        ∷ ("attempts_used", p.attempts_used)
        ∷ ("proof_strategy", p.proof_strategy)
        ∷ ("proof_tactics", p.proof_tactics)
        ∷ ("tool_trace", p.tool_trace)
        ∷ ("tactic_calls", p.tactic_calls)
        ∷ ("trace_schema_version", p.trace_schema_version)
        ∷ ("agent_summary", p.agent_summary)
        ∷ ("budget", p.budget)
        ∷ ("provider_telemetry", p.provider_telemetry)
        ∷ [];
    verification = ("success", p.success) ∷ ("errors", p.errors) ∷ ("warnings", p.warnings) ∷ [];
    elapsed_seconds = get_or null "elapsed_seconds" result;
    from_cache = get_or null "from_cache" result;
    partially = get_or null "partial" result;
    stop_reason = get_or null "stop_reason" result;
    provider_telemetry = some telemetry;
    cache_replay = false;
  }

  -- `result_cache.put` under its guard
  unfoldable pub store_result : Request → Object → State W → State W
  unfolding policy Cache.put get_or truthy
  store_result q result s =
      if q.use_cache && truthy (get_or null "success" result)
      then record s { result_cache = Cache.put policy (cache_key_input q) result s.result_cache }
      else s

  -- the end of a run whose prover returned
  unfoldable pub run_proved : Request → W → Object → ProveResult → State W → Step (State W) Object
  unfolding store_result log_run proof_log build_run_log_entry successful_pipeline_result
  run_proved q start f p s =
      let telemetry = summarize_calls (formalizer_calls f ∷ p.provider_telemetry ∷ []) in
      let result =
        successful_pipeline_result (get_or null "theorem_code" f) f p (elapsed start s.world)
          telemetry in
      returned result
        (log_run (build_run_log_entry (proof_log q f p result telemetry)) (store_result q result s))

  -- the run once there is a formalization
  unfoldable pub run_formalized : Request → W → Object → State W → Step (State W) Object
  unfolding truthy get_or run_failed run_proved prove_and_verify
  run_formalized q start f s =
      if truthy (get_or null "success" f)
      then elim (prove_and_verify (get_or null "theorem_code" f) "leanstral"
          (get_or null "formalization_context" f) q.reasoning_preset q.budget_overrides s) [
            | raised message t ↦ raised message t
            | returned p t ↦ run_proved q start f p t
          ]
      else run_failed q start f s

  -- the run without the cache
  unfoldable pub run_fresh : Request → State W → Step (State W) Object
  unfolding run_formalized formalize_claim preformalized_result
  run_fresh q s = elim q.preformalized_theorem [
    | some theorem ↦
        run_formalized q s.world (preformalized_result no_calls theorem q.formalization_context) s
    | none ↦ elim (formalize_claim q.raw_input q.use_cache s) [
      | raised message t ↦ raised message t
      | returned f t ↦ run_formalized q s.world f t
    ]
  ]

  -- `run_pipeline`
  unfoldable pub run_pipeline : Request → State W → Step (State W) Object
  unfolding run_fresh run_cached Cache.get cache_key_input
  run_pipeline q s =
      if q.use_cache
      then elim (Cache.get policy (cache_key_input q) s.result_cache) [
        | none ↦ run_fresh q s
        | some cached ↦ run_cached q cached s
      ]
      else run_fresh q s
