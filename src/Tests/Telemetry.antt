-- ===== src/Tests/Telemetry.antt =====
-- Telemetry of two calls, and a call of the model that is refused once.
use lean_econ_api.Prelude.{ℕ, ◌+◌, true, false, none, some, List, [], ◌∷◌, zero, suc}
use lean_econ_api.Dict.{Dict}
use lean_econ_api.Telemetry.{
  Floats, Payload, integer, mapping, Element, call, no_call, ProviderCall,
  build_provider_call_telemetry, calls_in, summarize_provider_calls, combined_provider_telemetry,
  as_source,
}
use lean_econ_api.Telemetry.Summaries.{
  IsSummary, summarize_provider_calls-IsSummary, IsSum, combined_provider_telemetry-IsSum,
}
use lean_econ_api.Leanstral.{Completion, content, refused, call_leanstral, max_retries}
use lean_econ_api.Leanstral.Attempts.{IsCall, call_leanstral-IsCall}

abbrev floats : Floats ℕ
floats = record {
  nought = 0;
  plus = λ a b. a + b;
  round = λ n a. a;
  ratio = λ a b. a;
  whole = λ a. some a;
  token_cost = λ a b. a + b;
  blended_cost = λ a. a;
  stress = λ a. a + a;
}

abbrev usage : Dict (Payload ℕ)
usage = ("prompt_tokens", integer 10) ∷ ("completion_tokens", integer 5) ∷ []

abbrev priced : ProviderCall ℕ
priced =
    build_provider_call_telemetry floats "chat.complete" (some "m") (some (mapping usage)) 3 1 false
      none

abbrev elements : List (Element ℕ)
elements = call priced ∷ no_call ∷ call (record priced { local_only = true }) ∷ []

summarize_provider_calls-IsSummary_example :
    IsSummary floats (calls_in elements) (summarize_provider_calls floats (some elements))
summarize_provider_calls-IsSummary_example = summarize_provider_calls-IsSummary floats elements

combined_provider_telemetry-IsSum_example :
    IsSum floats
      (summarize_provider_calls floats (some elements))
      (summarize_provider_calls floats (some elements))
      (combined_provider_telemetry floats (
        as_source floats (summarize_provider_calls floats (some elements))
        ∷ as_source floats (summarize_provider_calls floats (some elements))
        ∷ []))
combined_provider_telemetry-IsSum_example =
    combined_provider_telemetry-IsSum floats elements elements

-- The world counts the requests and the seconds slept.
abbrev chat : ℕ → Completion ℕ ℕ
chat zero = refused (record { status_code = some 429; status = none; message = "" }) 1
chat (suc w) = content "theorem" 7 (w + 2)

call_leanstral-IsCall_example :
    IsCall
      (λ s. s)
      (λ d w. w + d)
      "chat.complete"
      chat
      []
      1
      (record {
        world = 0;
        response = none;
        last_error = none;
        retry_count = 0;
        max_attempts = max_retries;
      })
      (call_leanstral (λ s. s) (λ d w. w + d) "chat.complete" chat [] 0)
call_leanstral-IsCall_example =
    call_leanstral-IsCall (λ s. s) (λ d w. w + d) "chat.complete" chat [] 0
