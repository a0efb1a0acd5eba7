-- ===== src/Telemetry.antt =====
-- src/provider_telemetry.py: the telemetry of provider calls, and what is summed up of it. The
-- conversion `_jsonable` of an SDK object and the arithmetic of floats are parameters; a call is the
-- dictionary that `build_provider_call_telemetry` builds. The proofs are in the modules below.
pub mod Costs
pub mod Counts
pub mod Summaries
use lean_econ_api.Prelude.{
  ℕ, ◌+◌, String, Bool, true, false, Option, none, some, List, [], ◌∷◌, ◌++◌, ◌&&◌, not, eqb, max,
  length, is_some, if◌then◌else◌,
}
use lean_econ_api.Text.{is_empty}
use lean_econ_api.Dict
use lean_econ_api.Dict.{Dict}

-- A value of a usage payload: `True` and `False`, an integer, one below zero, a float, or another.
pub data Payload (F : Type 0) : Type 0 where
  boolean : Bool → Payload F
  integer negative : ℕ → Payload F
  decimal : F → Payload F
  other : Payload F

-- A converted payload: a dictionary or not.
pub data Jsonable (F : Type 0) : Type 0 where
  mapping : Dict (Payload F) → Jsonable F
  plain : Payload F → Jsonable F

-- Floats, and the prices. `whole` reads a float that is a non-negative integer.
pub record Floats (F : Type 0) : Type 0 where
  pub nought : F
  pub plus : F → F → F
  pub round : ℕ → F → F
  pub ratio : ℕ → ℕ → F
  pub whole : F → Option ℕ
  pub token_cost : ℕ → ℕ → F
  pub blended_cost : ℕ → F
  pub stress : F → F

-- The telemetry of one call.
pub record ProviderCall (F : Type 0) : Type 0 where
  pub endpoint : String
  pub model : Option String
  pub raw_usage : Option (Dict (Payload F))
  pub usage_present : Bool
  pub latency_ms : F
  pub retry_count : ℕ
  pub local_only : Bool
  pub estimated_cost_base_usd : Option F
  pub estimated_cost_stress_usd : Option F
  pub error : Option String

-- An element of a list of calls: a call, or a value that is no mapping.
pub data Element (F : Type 0) : Type 0 where
  call : ProviderCall F → Element F
  no_call : Element F

-- A source of calls: `None`, a mapping by its value of "provider_calls" where that is a sequence, a
-- sequence, or another value.
pub data Source (F : Type 0) : Type 0 where
  no_source : Source F
  telemetry : Option (List (Element F)) → Source F
  sequence : List (Element F) → Source F
  other_source : Source F

pub record Summary (F : Type 0) : Type 0 where
  pub provider_calls : List (ProviderCall F)
  pub provider_call_count : ℕ
  pub llm_call_count : ℕ
  pub local_only_call_count : ℕ
  pub usage_present_count : ℕ
  pub usage_present_rate : Option F
  pub usage_present : Bool
  pub endpoint_counts : Dict ℕ
  pub model_counts : Dict ℕ
  pub retry_count_total : ℕ
  pub retry_count_max : ℕ
  pub latency_ms_total : F
  pub estimated_cost_base_usd : Option F
  pub estimated_cost_stress_usd : Option F
  pub local_only : Bool

-- `normalize_usage_payload`, of a payload that is converted
unfoldable pub normalize_usage_payload :
    {F : Type 0} → Option (Jsonable F) → Option (Dict (Payload F))
normalize_usage_payload none = none
normalize_usage_payload (some (mapping d)) = some d
normalize_usage_payload (some (plain p)) = some (("value", p) ∷ [])

-- The mappings among the elements.
unfoldable pub calls_in : {F : Type 0} → List (Element F) → List (ProviderCall F)
calls_in [] = []
calls_in (call c ∷ es) = c ∷ calls_in es
calls_in (no_call ∷ es) = calls_in es

unfoldable pub source_calls : {F : Type 0} → Source F → List (ProviderCall F)
unfolding calls_in
source_calls no_source = []
source_calls (telemetry none) = []
source_calls (telemetry (some es)) = calls_in es
source_calls (sequence es) = calls_in es
source_calls other_source = []

-- `collect_provider_calls`
unfoldable pub collect_provider_calls : {F : Type 0} → List (Source F) → List (ProviderCall F)
unfolding source_calls
collect_provider_calls [] = []
collect_provider_calls (s ∷ ss) = source_calls s ++ collect_provider_calls ss

-- The calls with a test, and how many they are.
unfoldable pub keep : {A : Type 0} → (A → Bool) → List A → List A
keep test [] = []
keep test (a ∷ xs) = let rest = keep test xs in if test a then a ∷ rest else rest

-- `Counter`: one more of a key
unfoldable pub count_up : String → Dict ℕ → Dict ℕ
unfolding Dict.put Dict.get
count_up k d = elim (Dict.get k d) [ none ↦ Dict.put k 1 d | some n ↦ Dict.put k (n + 1) d ]

-- the `Counter` of the keys that are not empty, on top of another
unfoldable pub count_keys :
    {F : Type 0} → (ProviderCall F → Option String) → List (ProviderCall F) → Dict ℕ → Dict ℕ
unfolding count_up is_empty
count_keys key [] d = d
count_keys key (c ∷ cs) d = elim (key c) [
  | none ↦ count_keys key cs d
  | some k ↦ count_keys key cs (if is_empty k then d else count_up k d)
]

unfoldable pub retry_total : {F : Type 0} → List (ProviderCall F) → ℕ
retry_total [] = 0
retry_total (c ∷ cs) = c.retry_count + retry_total cs

unfoldable pub retry_max : {F : Type 0} → List (ProviderCall F) → ℕ
retry_max [] = 0
retry_max (c ∷ cs) = max c.retry_count (retry_max cs)

-- the costs, where every call has one
unfoldable pub all_costs :
    {F : Type 0} → (ProviderCall F → Option F) → List (ProviderCall F) → Option (List F)
all_costs cost [] = some []
all_costs cost (c ∷ cs) =
    let rest = all_costs cost cs in
    elim (cost c) [
      | none ↦ none
      | some a ↦ elim rest [ none ↦ none | some costs ↦ some (a ∷ costs) ]
    ]

module _ {F : Type 0} (floats : Floats F) where
  open floats use {nought, plus, round, ratio, whole, token_cost, blended_cost, stress}

  -- `_positive_int`
  unfoldable pub positive_int : Option (Payload F) → Option ℕ
  positive_int (some (integer n)) = some n
  positive_int (some (decimal x)) = whole x
  positive_int other_value = none

  abbrev pub or_zero : Option ℕ → ℕ
  or_zero none = 0
  or_zero (some n) = n

  -- `base_cost`, from the token numbers
  unfoldable pub base_cost : Option ℕ → Option ℕ → Option ℕ → Option ℕ → Option F
  base_cost (some prompt) (some completion) total connector =
      some (token_cost (prompt + or_zero connector) completion)
  base_cost (some prompt) none (some total) connector = some (blended_cost total)
  base_cost none completion (some total) connector = some (blended_cost total)
  base_cost prompt completion total connector = none

  abbrev pub both_bounds : Option F → Option F × Option F
  both_bounds none = (none, none)
  both_bounds (some base) = (some (round 6 base), some (round 6 (stress base)))

  -- `estimate_cost_bounds`
  unfoldable pub estimate_cost_bounds : Option (Dict (Payload F)) → Option F × Option F
  unfolding positive_int base_cost Dict.get
  estimate_cost_bounds none = (none, none)
  estimate_cost_bounds (some []) = (none, none)
  estimate_cost_bounds (some (entry ∷ usage)) =
      let read : String → Option ℕ = λ key. positive_int (Dict.get key (entry ∷ usage)) in
      both_bounds (
        base_cost (read "prompt_tokens") (read "completion_tokens") (read "total_tokens")
          (read "connector_tokens"))

  -- `build_provider_call_telemetry`
  unfoldable pub build_provider_call_telemetry :
      String → Option String → Option (Jsonable F) → F → ℕ → Bool → Option String → ProviderCall F
  unfolding normalize_usage_payload estimate_cost_bounds
  build_provider_call_telemetry endpoint model usage latency_ms retry_count local_only error =
      let raw_usage = normalize_usage_payload usage in
      let (base, stressed) = if local_only then (none, none) else estimate_cost_bounds raw_usage in
      record {
        endpoint = endpoint;
        model = model;
        raw_usage = raw_usage;
        usage_present = is_some raw_usage;
        latency_ms = round 1 latency_ms;
        retry_count = retry_count;
        local_only = local_only;
        estimated_cost_base_usd = base;
        estimated_cost_stress_usd = stressed;
        error = error;
      }

  -- `sum`, from zero on
  unfoldable pub sum_from : F → List F → F
  sum_from total [] = total
  sum_from total (x ∷ xs) = sum_from (plus total x) xs

  unfoldable pub latencies : List (ProviderCall F) → List F
  latencies [] = []
  latencies (c ∷ cs) = c.latency_ms ∷ latencies cs

  -- the total of a cost, where there are calls and every call has one
  unfoldable pub cost_total : (ProviderCall F → Option F) → List (ProviderCall F) → Option F
  unfolding all_costs sum_from
  cost_total cost [] = none
  cost_total cost (c ∷ cs) = elim (all_costs cost (c ∷ cs)) [
    | none ↦ none
    | some xs ↦ some (round 6 (sum_from nought xs))
  ]

  abbrev pub endpoint_of : ProviderCall F → Option String
  endpoint_of c = some c.endpoint

  abbrev pub model_of : ProviderCall F → Option String
  model_of c = c.model

  -- the summary of the calls, once they are told from other values
  unfoldable pub summary_of : List (ProviderCall F) → Summary F
  unfolding keep count_keys retry_total retry_max latencies sum_from cost_total
  summary_of calls =
      let llm_calls = keep (λ c. not c.local_only) calls in
      let local_only_calls = keep (λ c. c.local_only) calls in
      let llm = length llm_calls in
      let present = length (keep (λ c. c.usage_present) llm_calls) in
      record {
        provider_calls = calls;
        provider_call_count = length calls;
        llm_call_count = llm;
        local_only_call_count = length local_only_calls;
        usage_present_count = present;
        usage_present_rate = if eqb llm 0 then none else some (round 3 (ratio present llm));
        usage_present = not (eqb llm 0) && eqb present llm;
        endpoint_counts = count_keys endpoint_of calls [];
        model_counts = count_keys model_of calls [];
        retry_count_total = retry_total calls;
        retry_count_max = retry_max calls;
        latency_ms_total =
            if eqb (length calls) 0 then nought else round 1 (sum_from nought (latencies calls));
        estimated_cost_base_usd = cost_total (λ c. c.estimated_cost_base_usd) llm_calls;
        estimated_cost_stress_usd = cost_total (λ c. c.estimated_cost_stress_usd) llm_calls;
        local_only = eqb llm 0;
      }

  -- `summarize_provider_calls`
  unfoldable pub summarize_provider_calls : Option (List (Element F)) → Summary F
  unfolding calls_in summary_of
  summarize_provider_calls none = summary_of []
  summarize_provider_calls (some elements) = summary_of (calls_in elements)

  -- A summary as a source: its calls under "provider_calls".
  unfoldable pub elements_of : List (ProviderCall F) → List (Element F)
  elements_of [] = []
  elements_of (c ∷ cs) = call c ∷ elements_of cs

  abbrev pub as_source : Summary F → Source F
  as_source s = telemetry (some (elements_of s.provider_calls))

  -- `_combined_provider_telemetry` of src/pipeline.py
  unfoldable pub combined_provider_telemetry : List (Source F) → Summary F
  unfolding summarize_provider_calls collect_provider_calls elements_of
  combined_provider_telemetry sources =
      summarize_provider_calls (some (elements_of (collect_provider_calls sources)))
