-- ===== src/Tests/Conversation.antt =====
-- Conversations with a provider that is overloaded once and then asks for tools for ever.
use lean_econ_api.Prelude.{
  ℕ, zero, suc, ◌+◌, false, none, some, List, [], ◌∷◌, refl, arith, returned,
}
use lean_econ_api.Tests.Guard.{ctx, fresh, ask, fresh-IsBounded}
use lean_econ_api.Prover.Guard.{FunctionCall}
use lean_econ_api.Prover.Conversation.{
  Reply, answer, error, Response, Sdk, Talk, request_with_backoff, run_conversation,
}
use lean_econ_api.Prover.Errors.{Exc, exc, no_exc, backoff_delays_seconds, is_retryable_run_error}
use lean_econ_api.Prover.Conversation.Retries.{IsBackoff, request_with_backoff-IsBackoff}
use lean_econ_api.Prover.Conversation.Rounds.{IsOver, run_conversation-ends}
use lean_econ_api.Prover.Conversation.Kept.{AtEnd}
use lean_econ_api.Prover.Conversation.Guarded.{install, IsGuarded, run_conversation-IsGuarded}

-- The world counts the requests and the seconds slept.
abbrev overloaded : Exc
overloaded = exc false (some 429) "Too Many Requests" no_exc

abbrev reply : List ℕ → ℕ → Reply (Response ℕ) ℕ
reply es zero = error overloaded 1
reply es (suc w) = answer (record { conversation_id = "c"; outputs = 7 ∷ [] }) (w + 2)

abbrev sdk : Sdk (FunctionCall ℕ) ℕ ℕ
sdk = record {
  status_in_text = λ s. none;
  sleep = λ d w. w + d;
  start = reply;
  append = λ id. reply;
  get_function_calls = λ es. ask "lean_goal" ∷ [];
  execute_function_calls = λ k calls w. returned (9 ∷ []) (w + 1);
}

abbrev talk : {W : Type 0} → W → Talk ℕ W
talk w = record {
  net = record { world = w; provider_calls = [] };
  conversation_id = none;
  append_rounds = 0;
  request_count = 0;
  input_entries = 1 ∷ [];
  output_entries = [];
}

request_with_backoff-IsBackoff_example :
    IsBackoff
      (is_retryable_run_error sdk.status_in_text)
      sdk.sleep
      "conversations.start_async"
      (reply [])
      backoff_delays_seconds
      0
      (record { world = 0; provider_calls = [] })
      (request_with_backoff
        (is_retryable_run_error sdk.status_in_text)
        sdk.sleep
        "conversations.start_async"
        (reply [])
        (record { world = 0; provider_calls = [] }))
request_with_backoff-IsBackoff_example =
    request_with_backoff-IsBackoff (is_retryable_run_error sdk.status_in_text) sdk.sleep
      "conversations.start_async" (reply []) (record { world = 0; provider_calls = [] })

run_conversation-ends_example : IsOver sdk 2 (run_conversation sdk (some 2) 4 (talk 0))
run_conversation-ends_example = run_conversation-ends sdk 2 (talk 0) refl refl refl

run_conversation-IsGuarded_example :
    AtEnd IsGuarded (run_conversation (install ctx (λ r. 9) sdk) (some 3) 5 (talk fresh))
run_conversation-IsGuarded_example =
    run_conversation-IsGuarded ctx (λ r. 9) sdk (some 3) 5 (talk fresh)
      (record {
        bounded = fresh-IsBounded;
        earned = record { opened = refl; evidence = λ h. absurd (omega arith) };
      })
