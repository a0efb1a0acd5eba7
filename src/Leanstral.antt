-- ===== src/Leanstral.antt =====
-- src/leanstral_utils.py: `call_leanstral` with its retries, and `_is_rate_limit_error`. The client,
-- `str.lower` and the sleep are parameters; the clock and the printed lines are left out. The
-- proofs are in the modules below.
pub mod Attempts
use lean_econ_api.Prelude.{
  ℕ, zero, suc, ◌+◌, ◌*◌, String, Bool, true, false, Option, none, some, List, [], ◌∷◌, ◌++◌, ◌||◌,
  leb, eqb, is_some, if◌then◌else◌,
}
use lean_econ_api.Text.{has_text}

abbrev pub max_retries : ℕ
max_retries = 2

abbrev pub max_retries_rate_limit : ℕ
max_retries_rate_limit = 4

abbrev pub retry_delay_seconds : ℕ
retry_delay_seconds = 5

-- An exception: its attributes `status_code` and `status`, and `str(exc)`.
pub record ClientError : Type 0 where
  pub status_code : Option ℕ
  pub status : Option ℕ
  pub message : String

-- `a or b` on integers that may be `None`
abbrev pub status_or : Option ℕ → Option ℕ → Option ℕ
status_or none b = b
status_or (some n) b = if eqb n 0 then b else some n

abbrev pub is_overloaded : Option ℕ → Bool
is_overloaded none = false
is_overloaded (some n) = eqb n 429 || eqb n 503

-- `_is_rate_limit_error`
unfoldable pub is_rate_limit_error : (String → String) → ClientError → Bool
unfolding has_text
is_rate_limit_error lower e =
    let msg = lower e.message in
    is_overloaded (status_or e.status_code e.status)
    || has_text "429" msg
    || has_text "rate limit" msg
    || has_text "too many requests" msg

-- What `client.chat.complete` and the reading of its content do: the content, a response from
-- which no content could be read, or a raise.
pub data Completion (R W : Type 0) : Type 0 where
  content : String → R → W → Completion R W
  unreadable : ClientError → R → W → Completion R W
  refused : ClientError → W → Completion R W

-- The local variables of the loop.
pub record Trial (R W : Type 0) : Type 0 where
  pub world : W
  pub response : Option R
  pub last_error : Option ClientError
  pub retry_count : ℕ
  pub max_attempts : ℕ

-- The entry of `telemetry_out`, without its latency. Its error is none where there is a response.
pub record CallRecord (R : Type 0) : Type 0 where
  pub endpoint : String
  pub response : Option R
  pub retry_count : ℕ
  pub error : Option String

-- The end of the call: the content, or the `RuntimeError` with its number of attempts.
pub data Called : Type 0 where
  answered : String → Called
  failed_after : ℕ → Option String → Called

pub record Ending (R W : Type 0) : Type 0 where
  pub world : W
  pub telemetry : List (CallRecord R)
  pub result : Called

abbrev pub error_text : Option ClientError → Option String
error_text none = none
error_text (some e) = some e.message

-- `2 ** attempt`
unfoldable pub power_of_two : ℕ → ℕ
power_of_two zero = 1
power_of_two (suc n) = 2 * power_of_two n

module _ {R W : Type 0} (lower : String → String) (sleep : ℕ → W → W) (endpoint : String)
    (complete : W → Completion R W) where
  -- `MAX_RETRIES_RATE_LIMIT if is_rate_limit else MAX_RETRIES`
  unfoldable pub limit_of : ClientError → ℕ
  unfolding is_rate_limit_error
  limit_of e = if is_rate_limit_error lower e then max_retries_rate_limit else max_retries

  -- the wait after attempt `attempt`
  unfoldable pub delay : ClientError → ℕ → ℕ
  unfolding is_rate_limit_error power_of_two
  delay e attempt =
      if is_rate_limit_error lower e then power_of_two attempt else retry_delay_seconds

  -- the record of the `finally`
  unfoldable pub call_record : Trial R W → CallRecord R
  call_record t = record {
    endpoint = endpoint;
    response = t.response;
    retry_count = t.retry_count;
    error = if is_some t.response then none else error_text t.last_error;
  }

  -- the end of the call, with its record of telemetry
  unfoldable pub end_call : List (CallRecord R) → Called → Trial R W → Ending R W
  unfolding call_record
  end_call telemetry_out result t = record {
    world = t.world;
    telemetry = telemetry_out ++ (call_record t ∷ []);
    result = result;
  }

  -- the raise after the loop
  unfoldable pub give_up : List (CallRecord R) → Trial R W → Ending R W
  unfolding end_call
  give_up telemetry_out t =
      end_call telemetry_out (failed_after t.max_attempts (error_text t.last_error)) t

  -- an exception of an attempt
  abbrev pub note_error : ClientError → Option R → W → Trial R W → Trial R W
  note_error e response w t = record t {
    world = w;
    response = response;
    last_error = some e;
    max_attempts = limit_of e;
  }

  -- the state before the next attempt
  abbrev pub wait : ClientError → ℕ → Trial R W → Trial R W
  wait e attempt t = record t {
    world = sleep (delay e attempt) t.world;
    retry_count = t.retry_count + 1;
  }

  -- the end of the `except` block, with what the next attempts do
  unfoldable pub after_error :
      List (CallRecord R) → (Trial R W → Ending R W) → ℕ → ClientError → Trial R W → Ending R W
  unfolding give_up
  after_error telemetry_out next_attempts attempt e t = elim (leb t.max_attempts attempt) [
    | true ↦ give_up telemetry_out t
    | false ↦ next_attempts (wait e attempt t)
  ]

  -- The attempts from `attempt` on, of which `left` are left in the range.
  unfoldable pub try_complete : ℕ → ℕ → List (CallRecord R) → Trial R W → Ending R W
  unfolding end_call give_up after_error
  try_complete zero attempt telemetry_out t = give_up telemetry_out t
  try_complete (suc left) attempt telemetry_out t =
      let next_attempts = try_complete left (attempt + 1) telemetry_out in
      elim (complete t.world) [
        | content text r w ↦
            end_call telemetry_out (answered text) (record t { world = w; response = some r })
        | unreadable e r w ↦
            after_error telemetry_out next_attempts attempt e (note_error e (some r) w t)
        | refused e w ↦
            after_error telemetry_out next_attempts attempt e (note_error e t.response w t)
      ]

  -- `call_leanstral`
  unfoldable pub call_leanstral : List (CallRecord R) → W → Ending R W
  unfolding try_complete
  call_leanstral telemetry_out w = try_complete max_retries_rate_limit 1 telemetry_out (record {
    world = w;
    response = none;
    last_error = none;
    retry_count = 0;
    max_attempts = max_retries;
  })
