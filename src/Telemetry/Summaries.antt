-- ===== src/Telemetry/Summaries.antt =====
-- What a summary of provider calls says of the calls.
use lean_econ_api.Prelude.{
  ◌+◌, ◌≤◌, String, Bool, true, false, Option, some, List, [], ◌∷◌, ◌++◌, ◌≡◌, refl, sym, arith,
  not, max, length, All, is_some, ap, length-append, Bool-cases, inl, inr, ◌∙◌,
}
use lean_econ_api.Text.{is_empty}
use mathlib.Core.Path.{subst}
use mathlib.Core.List.{append-nil}
use lean_econ_api.Telemetry.{
  ProviderCall, Floats, Summary, Element, keep, calls_in, summary_of, summarize_provider_calls,
  elements_of, as_source, collect_provider_calls, combined_provider_telemetry, cost_total,
  all_costs, endpoint_of, model_of,
}
use lean_econ_api.Telemetry.Counts.{
  keep-append, length-keep-le, length-keep-not, All-keep, retry_total-append, retry_max-append,
  retry_max-le, counted, has_key, counted-count_keys,
}

module _ {F : Type 0} (floats : Floats F) where
  abbrev is_llm : ProviderCall F → Bool
  is_llm c = not c.local_only

  -- What the summary `s` says of the calls.
  pub record IsSummary (cs : List (ProviderCall F)) (s : Summary F) : Type 0 where
    pub kept : s.provider_calls ≡ cs
    pub split : s.llm_call_count + s.local_only_call_count ≡ length cs
    pub local : s.local_only ≡ true → All (λ c. c.local_only ≡ true) cs
    pub usage :
        s.usage_present ≡ true
        → All (λ c. c.usage_present ≡ true) (keep is_llm cs) × (1 ≤ s.llm_call_count)
    pub within : s.usage_present_count ≤ s.llm_call_count
    pub retries : s.retry_count_max ≤ s.retry_count_total
    pub endpoints :
        (e : String)
        → is_empty e ≡ false
        → counted e s.endpoint_counts ≡ length (keep (λ c. has_key e (some c.endpoint)) cs)
    pub models :
        (m : String)
        → is_empty m ≡ false
        → counted m s.model_counts ≡ length (keep (λ c. has_key m c.model) cs)
    pub costs :
        is_some s.estimated_cost_base_usd ≡ true
        → All (λ c. is_some c.estimated_cost_base_usd ≡ true) (keep is_llm cs)
          × (1 ≤ s.llm_call_count)

  all_local :
      (cs : List (ProviderCall F)) → length (keep is_llm cs) ≡ 0 → All (λ c. c.local_only ≡ true) cs
  unfolding keep
  all_local [] h = tt
  all_local (c ∷ cs) h = elim (Bool-cases c.local_only) [
    | inl e ↦ (e, all_local cs (ground (arith, e, h)))
    | inr e ↦ absurd (ground (arith, e, h))
  ]

  all_costs_given :
      (cost : ProviderCall F → Option F) (cs : List (ProviderCall F))
      → is_some (all_costs cost cs) ≡ true
      → All (λ c. is_some (cost c) ≡ true) cs
  unfolding all_costs
  all_costs_given cost [] h = tt
  all_costs_given cost (c ∷ cs) h = (ground (arith, h), all_costs_given cost cs (ground (arith, h)))

  costs_given :
      (cost : ProviderCall F → Option F) (cs : List (ProviderCall F))
      → is_some (cost_total floats cost cs) ≡ true
      → All (λ c. is_some (cost c) ≡ true) cs × (1 ≤ length cs)
  unfolding cost_total
  costs_given cost [] h = cc
  costs_given cost (c ∷ cs) h = (all_costs_given cost (c ∷ cs) (ground (arith, h)), ground arith)

  summary_of-IsSummary : (cs : List (ProviderCall F)) → IsSummary cs (summary_of floats cs)
  unfolding summary_of
  summary_of-IsSummary cs = record {
    kept = refl;
    split = length-keep-not (λ c. c.local_only) cs;
    local = λ h. all_local cs (ground (arith, h));
    usage = λ h.
        (All-keep (λ c. c.usage_present) (keep is_llm cs) (ground (arith, h)), ground (arith, h));
    within = length-keep-le (λ c. c.usage_present) (keep is_llm cs);
    retries = retry_max-le cs;
    endpoints = λ e h. counted-count_keys (endpoint_of floats) e cs [] h ∙ omega arith;
    models = λ m h. counted-count_keys (model_of floats) m cs [] h ∙ omega arith;
    costs = costs_given (λ c. c.estimated_cost_base_usd) (keep is_llm cs);
  }

  -- A summary keeps every call. Its calls are the LLM calls and the local ones, and it is local only
  -- when they all are. It has usage only when there are LLM calls and they all have, and an estimated
  -- cost only when there are and they all have one. The counter of an endpoint, or of a model, is the
  -- number of calls to it, and the greatest number of retries is at most their total.
  pub summarize_provider_calls-IsSummary :
      (es : List (Element F)) → IsSummary (calls_in es) (summarize_provider_calls floats (some es))
  unfolding summarize_provider_calls
  summarize_provider_calls-IsSummary es = summary_of-IsSummary (calls_in es)

  calls_in-elements_of : (cs : List (ProviderCall F)) → calls_in (elements_of floats cs) ≡ cs
  unfolding calls_in elements_of
  calls_in-elements_of [] = refl
  calls_in-elements_of (c ∷ cs) = ap (c ∷◌) (calls_in-elements_of cs)

  -- The summary `u` adds up the summaries `s` and `t`.
  pub record IsSum (s t u : Summary F) : Type 0 where
    pub calls : u.provider_calls ≡ s.provider_calls ++ t.provider_calls
    pub call_count : u.provider_call_count ≡ s.provider_call_count + t.provider_call_count
    pub llm : u.llm_call_count ≡ s.llm_call_count + t.llm_call_count
    pub local : u.local_only_call_count ≡ s.local_only_call_count + t.local_only_call_count
    pub usage : u.usage_present_count ≡ s.usage_present_count + t.usage_present_count
    pub retries : u.retry_count_total ≡ s.retry_count_total + t.retry_count_total
    pub most : u.retry_count_max ≡ max s.retry_count_max t.retry_count_max
    pub endpoints :
        (e : String)
        → is_empty e ≡ false
        → counted e u.endpoint_counts ≡ counted e s.endpoint_counts + counted e t.endpoint_counts
    pub models :
        (m : String)
        → is_empty m ≡ false
        → counted m u.model_counts ≡ counted m s.model_counts + counted m t.model_counts

  length-keep-append :
      (test : ProviderCall F → Bool) (xs ys : List (ProviderCall F))
      → length (keep test (xs ++ ys)) ≡ length (keep test xs) + length (keep test ys)
  length-keep-append test xs ys =
      ap length (keep-append test xs ys) ∙ length-append (keep test xs) (keep test ys)

  summary_of-IsSum :
      (xs ys : List (ProviderCall F))
      → IsSum (summary_of floats xs) (summary_of floats ys) (summary_of floats (xs ++ ys))
  unfolding summary_of
  summary_of-IsSum xs ys = record {
    calls = refl;
    call_count = length-append xs ys;
    llm = length-keep-append is_llm xs ys;
    local = length-keep-append (λ c. c.local_only) xs ys;
    usage =
        ap (λ l. length (keep (λ c. c.usage_present) l)) (keep-append is_llm xs ys)
        ∙ length-keep-append (λ c. c.usage_present) (keep is_llm xs) (keep is_llm ys);
    retries = retry_total-append xs ys;
    most = retry_max-append xs ys;
    endpoints = λ e h. ground (
      arith,
      counted-count_keys (endpoint_of floats) e xs [] h,
      counted-count_keys (endpoint_of floats) e ys [] h,
      counted-count_keys (endpoint_of floats) e (xs ++ ys) [] h,
      length-keep-append (λ c. has_key e (some c.endpoint)) xs ys,
    );
    models = λ m h. ground (
      arith,
      counted-count_keys (model_of floats) m xs [] h,
      counted-count_keys (model_of floats) m ys [] h,
      counted-count_keys (model_of floats) m (xs ++ ys) [] h,
      length-keep-append (λ c. has_key m c.model) xs ys,
    );
  }

  -- The telemetry that the pipeline combines of two stages adds up their summaries: it has the calls
  -- in order, the sums of their counts, of the counters of each endpoint and model with a name among
  -- them, and the greater of their greatest numbers of retries.
  pub combined_provider_telemetry-IsSum :
      (es fs : List (Element F))
      → let s = summarize_provider_calls floats (some es) in
        let t = summarize_provider_calls floats (some fs) in
        IsSum s t
          (combined_provider_telemetry floats (as_source floats s ∷ as_source floats t ∷ []))
  unfolding combined_provider_telemetry summarize_provider_calls
  combined_provider_telemetry-IsSum es fs =
      let joined : calls_in (
            elements_of floats (
              collect_provider_calls (
                as_source floats (summary_of floats (calls_in es))
                ∷ as_source floats (summary_of floats (calls_in fs))
                ∷ [])))
          ≡ calls_in es ++ calls_in fs =
        rw
          (
            calls_in-elements_of (calls_in es),
            calls_in-elements_of (calls_in fs),
            append-nil (calls_in fs),
          )
          (calls_in-elements_of (calls_in es ++ calls_in fs)) in
      subst
        (λ l.
          IsSum (summary_of floats (calls_in es)) (summary_of floats (calls_in fs))
            (summary_of floats l))
        (sym joined) (summary_of-IsSum (calls_in es) (calls_in fs))
