-- ===== src/Prover/Conversation.antt =====
-- src/agentic_prover.py: the errors of a run and `_run_conversation_with_backoff`. The Mistral SDK, the
-- regular expression of a status, `str.lower` and the sleep are parameters; the clock and the log
-- lines are left out. The proofs are in the modules below.
pub mod Retries
pub mod Rounds
pub mod Kept
pub mod Guarded
use lean_econ_api.Prelude.{
  raised, returned, Step, ℕ, zero, suc, ◌+◌, String, Bool, true, false, Option, none, some, List,
  [], ◌∷◌, ◌++◌, ◌||◌, ◌&&◌, leb, eqb, if◌then◌else◌, not, Step,
}
use lean_econ_api.Text.{has_text}
use lean_econ_api.Prover.Errors.{
  Exc, backoff_delays_seconds, is_retryable_run_error, is_timeout, text_of_exc,
}

-- What one call of the request factory does.
pub data Reply (R : Type 0) (W : Type 0) : Type 0 where
  answer : R → W → Reply R W
  error : Exc → W → Reply R W

-- One record in `provider_calls_out`, without its latency.
pub record ProviderCall (R : Type 0) : Type 0 where
  pub endpoint : String
  pub response : Option R
  pub retry_count : ℕ
  pub error : Option String

-- What ends the conversation by a raise.
pub data Failure : Type 0 where
  conversation_request_timeout : Failure
  request_failed : Exc → Failure
  append_round_limit_exceeded : ℕ → Failure
  tools_failed : String → Failure
  empty_tool_result_cycle : Failure

-- The world, and the telemetry so far.
pub record Net (R W : Type 0) : Type 0 where
  pub world : W
  pub provider_calls : List (ProviderCall R)

-- The end of a request.
pub data Requested (R W : Type 0) : Type 0 where
  responded : R → Net R W → Requested R W
  gave_up : Failure → Net R W → Requested R W

-- What a response holds: the id of the conversation and its entries.
pub record Response (E : Type 0) : Type 0 where
  pub conversation_id : String
  pub outputs : List E

-- The SDK around the conversation, for function calls `C` and entries `E`. The tools are given the
-- counter of requests, `run_ctx.request_count`.
pub record Sdk (C E W : Type 0) : Type 0 where
  pub status_in_text : String → Option ℕ
  pub sleep : ℕ → W → W
  pub start : List E → W → Reply (Response E) W
  pub append : String → List E → W → Reply (Response E) W
  pub get_function_calls : List E → List C
  pub execute_function_calls : ℕ → List C → W → Step W (List E)

module _ {R W : Type 0} (endpoint : String) where
  -- `_record_telemetry`
  abbrev pub record_response : ℕ → R → Net R W → Net R W
  record_response retry_count r n = record n {
    provider_calls =
        n.provider_calls
        ++ (record {
          endpoint = endpoint;
          response = some r;
          retry_count = retry_count;
          error = none;
        }
            ∷ []);
  }

  abbrev pub record_error : ℕ → Exc → Net R W → Net R W
  record_error retry_count e n = record n {
    provider_calls =
        n.provider_calls
        ++ (record {
          endpoint = endpoint;
          response = none;
          retry_count = retry_count;
          error = some (text_of_exc e);
        }
            ∷ []);
  }

  -- the raise of an exception that is not retried
  unfoldable pub give_up_on : ℕ → Exc → Net R W → Requested R W
  give_up_on retry_count e n =
      gave_up (if is_timeout e then conversation_request_timeout else request_failed e)
        (record_error retry_count e n)

module _ {R W : Type 0} (retryable : Exc → Bool) (sleep : ℕ → W → W) (endpoint : String)
    (request : W → Reply R W) where
  -- The attempts of `request_with_backoff`, over the delays that are left: the last attempt is
  -- the one with none left.
  unfoldable pub try_request : List ℕ → ℕ → Net R W → Requested R W
  unfolding give_up_on
  try_request [] retry_count n = elim (request n.world) [
    | answer r w ↦ responded r (record_response endpoint retry_count r (record n { world = w }))
    | error e w ↦ give_up_on endpoint retry_count e (record n { world = w })
  ]
  try_request (delay ∷ delays) retry_count n = elim (request n.world) [
    | answer r w ↦ responded r (record_response endpoint retry_count r (record n { world = w }))
    | error e w ↦ elim (is_timeout e || not (retryable e)) [
      | true ↦ give_up_on endpoint retry_count e (record n { world = w })
      | false ↦ try_request delays (retry_count + 1) (record n { world = sleep delay w })
    ]
  ]

  -- `request_with_backoff`
  unfoldable pub request_with_backoff : Net R W → Requested R W
  unfolding try_request
  request_with_backoff n = try_request backoff_delays_seconds 0 n

-- The local variables of the loop, and the counters of `run_ctx`.
pub record Talk (E W : Type 0) : Type 0 where
  pub net : Net (Response E) W
  pub conversation_id : Option String
  pub append_rounds : ℕ
  pub request_count : ℕ
  pub input_entries : List E
  pub output_entries : List E

-- The end of one pass of the loop, and of the loop; `out_of_fuel` is no end of the source.
pub data Pass (E W : Type 0) : Type 0 where
  next : Talk E W → Pass E W
  finished : Talk E W → Pass E W
  stopped : Failure → Talk E W → Pass E W
  out_of_fuel : Pass E W

module _ {C E W : Type 0} (sdk : Sdk C E W) (append_round_cap : Option ℕ) where
  open sdk use {status_in_text, sleep, start, append, get_function_calls, execute_function_calls}

  unfoldable pub send_start : Talk E W → Requested (Response E) W
  unfolding request_with_backoff is_retryable_run_error
  send_start t =
      request_with_backoff (is_retryable_run_error status_in_text) sleep "conversations.start_async"
        (start t.input_entries) t.net

  unfoldable pub send_append : String → Talk E W → Requested (Response E) W
  unfolding request_with_backoff is_retryable_run_error
  send_append id t =
      request_with_backoff (is_retryable_run_error status_in_text) sleep
        "conversations.append_async" (append id t.input_entries) t.net

  -- `append_round_cap is not None and append_rounds >= append_round_cap`
  unfoldable pub is_capped : ℕ → Bool
  is_capped append_rounds = elim append_round_cap [
    | none ↦ false
    | some cap ↦ leb cap append_rounds
  ]

  -- the world of a talk
  abbrev pub in_world : W → Talk E W → Talk E W
  in_world w t = record t { net = record t.net { world = w } }

  -- the results of the tools, which are the entries of the next request
  unfoldable pub use_results : Step W (List E) → Talk E W → Pass E W
  use_results (raised message w) t = stopped (tools_failed message) (in_world w t)
  use_results (returned [] w) t = stopped empty_tool_result_cycle (in_world w t)
  use_results (returned (r ∷ rs) w) t = next (record (in_world w t) {
    output_entries = t.output_entries ++ (r ∷ rs);
    input_entries = r ∷ rs;
  })

  -- the tools of a response
  unfoldable pub run_tools : List C → Talk E W → Pass E W
  unfolding use_results
  run_tools [] t = finished t
  run_tools (c ∷ calls) t =
      use_results (execute_function_calls t.request_count (c ∷ calls) t.net.world) t

  -- the rest of a pass, after its request
  unfoldable pub after_response : Response E → Talk E W → Pass E W
  unfolding run_tools
  after_response r t = run_tools (get_function_calls r.outputs) (record t {
    request_count = t.request_count + 1;
    output_entries = t.output_entries ++ r.outputs;
  })

  -- one pass of the loop
  unfoldable pub run_round : Talk E W → Pass E W
  unfolding send_start send_append is_capped after_response
  run_round t = elim t.conversation_id [
    | none ↦ elim (send_start t) [
      | gave_up f n ↦ stopped f (record t { net = n })
      | responded r n ↦
          after_response r (record t { net = n; conversation_id = some r.conversation_id })
    ]
    | some id ↦ elim (is_capped t.append_rounds) [
      | true ↦ stopped (append_round_limit_exceeded t.append_rounds) t
      | false ↦ elim (send_append id t) [
        | gave_up f n ↦ stopped f (record t { net = n })
        | responded r n ↦
            after_response r (record t { net = n; append_rounds = t.append_rounds + 1 })
      ]
    ]
  ]

  -- the loop, on fuel
  unfoldable pub run_conversation : ℕ → Talk E W → Pass E W
  unfolding run_round
  run_conversation zero t = out_of_fuel
  run_conversation (suc fuel) t = elim (run_round t) [
    | next t' ↦ run_conversation fuel t'
    | finished t' ↦ finished t'
    | stopped f t' ↦ stopped f t'
    | out_of_fuel ↦ out_of_fuel
  ]
