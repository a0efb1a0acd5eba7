-- ===== src/Prover/Conversation/Kept.antt =====
-- What holds of the world at every end of a conversation, because each request, wait and round of
-- tools keeps it.
use lean_econ_api.Prelude.{
  ℕ, zero, suc, ◌+◌, String, Bool, true, false, Option, none, some, List, [], ◌∷◌, Step, raised,
  returned, step_state, ◌||◌, not,
}
use lean_econ_api.Prover.Conversation.{
  Sdk, Net, Reply, answer, error, Response, Requested, responded, gave_up, give_up_on, Talk, Pass,
  next, finished, stopped, out_of_fuel, try_request, request_with_backoff, record_response,
  send_start, send_append, is_capped, use_results, run_tools, after_response, run_round,
  run_conversation, append_round_limit_exceeded,
}
use lean_econ_api.Prover.Errors.{Exc, is_timeout, backoff_delays_seconds}

-- the world after a reply, a request, and a pass
abbrev pub reply_world : {R W : Type 0} → Reply R W → W
reply_world (answer r w) = w
reply_world (error e w) = w

abbrev pub requested_net : {R W : Type 0} → Requested R W → Net R W
requested_net (responded r n) = n
requested_net (gave_up f n) = n

-- a property of the world at the end of a pass, if it has one
abbrev pub AtEnd : {E W : Type 0} → (W → Type 0) → Pass E W → Type 0
AtEnd P (next t) = P t.net.world
AtEnd P (finished t) = P t.net.world
AtEnd P (stopped f t) = P t.net.world
AtEnd P out_of_fuel = Unit

-- What holds of the world of a request whatever its replies and waits do.
module _ {R W : Type 0} (retryable : Exc → Bool) (sleep : ℕ → W → W) (endpoint : String)
    (request : W → Reply R W) (P : W → Type 0) (sleep_keeps : (d : ℕ) (w : W) → P w → P (sleep d w))
    (request_keeps : (w : W) → P w → P (reply_world (request w))) where
  try_request-keeps :
      (delays : List ℕ) (count : ℕ) (n : Net R W)
      → P n.world
      → P (requested_net (try_request retryable sleep endpoint request delays count n)).world
  unfolding try_request give_up_on
  try_request-keeps [] count n h = go (request n.world) (request_keeps n.world h)
    where
      go :
          (x : Reply R W)
          → P (reply_world x)
          → P
              (requested_net (elim x [
                | answer r w ↦
                    responded r (record_response endpoint count r (record n { world = w }))
                | error e w ↦ give_up_on endpoint count e (record n { world = w })
              ])).world
      go (answer r w) k = k
      go (error e w) k = k
  try_request-keeps (delay ∷ delays) count n h =
      go (request n.world) (request_keeps n.world h) (try_request-keeps delays (count + 1))
    where
      split :
          (e : Exc) (w : W) (b : Bool)
          → P w
          → ((m : Net R W)
              → P m.world
              → P
                  (requested_net
                    (try_request retryable sleep endpoint request delays (count + 1) m)).world)
          → P
              (requested_net (elim b [
                | true ↦ give_up_on endpoint count e (record n { world = w })
                | false ↦
                    try_request retryable sleep endpoint request delays
                      (count + 1)
                      (record n { world = sleep delay w })
              ])).world
      split e w true k later = k
      split e w false k later = later (record n { world = sleep delay w }) (sleep_keeps delay w k)

      go :
          (x : Reply R W)
          → P (reply_world x)
          → ((m : Net R W)
              → P m.world
              → P
                  (requested_net
                    (try_request retryable sleep endpoint request delays (count + 1) m)).world)
          → P
              (requested_net (elim x [
                | answer r w ↦
                    responded r (record_response endpoint count r (record n { world = w }))
                | error e w ↦ elim (is_timeout e || not (retryable e)) [
                  | true ↦ give_up_on endpoint count e (record n { world = w })
                  | false ↦
                      try_request retryable sleep endpoint request delays
                        (count + 1)
                        (record n { world = sleep delay w })
                ]
              ])).world
      go (answer r w) k later = k
      go (error e w) k later = split e w (is_timeout e || not (retryable e)) k later

-- What holds of the world of a conversation whatever its requests do.
module _ {C E W : Type 0} (sdk : Sdk C E W) (cap : Option ℕ) (P : W → Type 0)
    (sleep_keeps : (d : ℕ) (w : W) → P w → P (sdk.sleep d w))
    (start_keeps : (es : List E) (w : W) → P w → P (reply_world (sdk.start es w)))
    (append_keeps : (id : String) (es : List E) (w : W)
      → P w
      → P (reply_world (sdk.append id es w)))
    (tools_keep : (k : ℕ) (cs : List C) (w : W)
      → P w
      → P (step_state (sdk.execute_function_calls k cs w))) where
  run_tools-keeps : (cs : List C) (t : Talk E W) → P t.net.world → AtEnd P (run_tools sdk cap cs t)
  unfolding run_tools
  run_tools-keeps [] t h = h
  run_tools-keeps (c ∷ cs) t h =
      go (sdk.execute_function_calls t.request_count (c ∷ cs) t.net.world)
        (tools_keep t.request_count (c ∷ cs) t.net.world h)
    where
      go : (x : Step W (List E)) → P (step_state x) → AtEnd P (use_results sdk cap x t)
      go (raised m w) k = unfold use_results in k
      go (returned [] w) k = unfold use_results in k
      go (returned (r ∷ rs) w) k = unfold use_results in k

  run_round-keeps : (t : Talk E W) → P t.net.world → AtEnd P (run_round sdk cap t)
  unfolding run_round after_response send_start send_append request_with_backoff
  run_round-keeps t h = go t.conversation_id
    where
      first :
          (x : Requested (Response E) W)
          → P (requested_net x).world
          → AtEnd P (elim x [
            | gave_up f n ↦ stopped f (record t { net = n })
            | responded r n ↦
                after_response sdk cap r
                  (record t { net = n; conversation_id = some r.conversation_id })
          ])
      first (gave_up f n) k = k
      first (responded r n) k = run_tools-keeps (sdk.get_function_calls r.outputs) _ k

      later :
          (x : Requested (Response E) W)
          → P (requested_net x).world
          → AtEnd P (elim x [
            | gave_up f n ↦ stopped f (record t { net = n })
            | responded r n ↦
                after_response sdk cap r (record t { net = n; append_rounds = t.append_rounds + 1 })
          ])
      later (gave_up f n) k = k
      later (responded r n) k = run_tools-keeps (sdk.get_function_calls r.outputs) _ k

      capped :
          (id : String) (b : Bool)
          → AtEnd P (elim b [
            | true ↦ stopped (append_round_limit_exceeded t.append_rounds) t
            | false ↦ elim (send_append sdk cap id t) [
              | gave_up f n ↦ stopped f (record t { net = n })
              | responded r n ↦
                  after_response sdk cap r
                    (record t { net = n; append_rounds = t.append_rounds + 1 })
            ]
          ])
      capped id true = h
      capped id false = later (send_append sdk cap id t) (
          try_request-keeps _ sdk.sleep "conversations.append_async" (sdk.append id t.input_entries)
            P sleep_keeps (append_keeps id t.input_entries) backoff_delays_seconds 0 t.net h)

      go :
          (x : Option String)
          → AtEnd P (elim x [
            | none ↦ elim (send_start sdk cap t) [
              | gave_up f n ↦ stopped f (record t { net = n })
              | responded r n ↦
                  after_response sdk cap r
                    (record t { net = n; conversation_id = some r.conversation_id })
            ]
            | some id ↦ elim (is_capped sdk cap t.append_rounds) [
              | true ↦ stopped (append_round_limit_exceeded t.append_rounds) t
              | false ↦ elim (send_append sdk cap id t) [
                | gave_up f n ↦ stopped f (record t { net = n })
                | responded r n ↦
                    after_response sdk cap r
                      (record t { net = n; append_rounds = t.append_rounds + 1 })
              ]
            ]
          ])
      go none = first (send_start sdk cap t) (
          try_request-keeps _ sdk.sleep "conversations.start_async" (sdk.start t.input_entries) P
            sleep_keeps (start_keeps t.input_entries) backoff_delays_seconds 0 t.net h)
      go (some id) = capped id (is_capped sdk cap t.append_rounds)

  pub run_conversation-keeps :
      (fuel : ℕ) (t : Talk E W) → P t.net.world → AtEnd P (run_conversation sdk cap fuel t)
  unfolding run_conversation
  run_conversation-keeps zero t h = tt
  run_conversation-keeps (suc fuel) t h =
      go (run_round sdk cap t) (run_round-keeps t h) (run_conversation-keeps fuel)
    where
      go :
          (x : Pass E W)
          → AtEnd P x
          → ((u : Talk E W) → P u.net.world → AtEnd P (run_conversation sdk cap fuel u))
          → AtEnd P (elim x [
            | next t' ↦ run_conversation sdk cap fuel t'
            | finished t' ↦ finished t'
            | stopped f t' ↦ stopped f t'
            | out_of_fuel ↦ out_of_fuel
          ])
      go (next u) k rest = rest u k
      go (finished u) k rest = k
      go (stopped f u) k rest = k
      go out_of_fuel k rest = tt
