-- ===== src/Telemetry/Costs.antt =====
-- When a call has a cost.
use lean_econ_api.Prelude.{
  ℕ, String, Bool, true, false, Option, none, some, [], ◌∷◌, ◌≡◌, refl, is_some, ◌&&◌, ◌||◌, not,
  ◌∙◌,
}
use lean_econ_api.Dict
use lean_econ_api.Dict.{Dict}
use lean_econ_api.Telemetry.{
  Payload, Jsonable, Floats, normalize_usage_payload, positive_int, base_cost, both_bounds,
  estimate_cost_bounds, build_provider_call_telemetry, mapping, plain,
}

module _ {F : Type 0} (floats : Floats F) where
  -- A usage has the number of a kind of tokens, as a non-negative integer.
  abbrev pub has_tokens : String → Dict (Payload F) → Bool
  has_tokens key usage = is_some (positive_int floats (Dict.get key usage))

  -- A usage from which a cost can be told.
  abbrev pub is_priced : Dict (Payload F) → Bool
  is_priced usage =
      (has_tokens "prompt_tokens" usage && has_tokens "completion_tokens" usage)
      || has_tokens "total_tokens" usage

  base_cost-is_some :
      (p c t k : Option ℕ)
      → is_some (base_cost floats p c t k) ≡ (is_some p && is_some c) || is_some t
  unfolding base_cost
  base_cost-is_some (some p) (some c) t k = refl
  base_cost-is_some (some p) none (some t) k = refl
  base_cost-is_some (some p) none none k = refl
  base_cost-is_some none (some c) (some t) k = refl
  base_cost-is_some none (some c) none k = refl
  base_cost-is_some none none (some t) k = refl
  base_cost-is_some none none none k = refl

  both_bounds-is_some :
      (b : Option F)
      → (is_some (both_bounds floats b).0 ≡ is_some b)
        × (is_some (both_bounds floats b).1 ≡ is_some b)
  both_bounds-is_some none = (refl, refl)
  both_bounds-is_some (some b) = (refl, refl)

  estimate-is_some :
      (usage : Dict (Payload F))
      → (is_some (estimate_cost_bounds floats (some usage)).0 ≡ is_priced usage)
        × (is_some (estimate_cost_bounds floats (some usage)).1 ≡ is_priced usage)
  unfolding estimate_cost_bounds positive_int Dict.get
  estimate-is_some [] = (refl, refl)
  estimate-is_some (e ∷ usage) =
      let read : String → Option ℕ = λ key. positive_int floats (Dict.get key (e ∷ usage)) in
      let b =
        base_cost floats (read "prompt_tokens") (read "completion_tokens") (read "total_tokens")
          (read "connector_tokens") in
      let h : is_some b ≡ is_priced (e ∷ usage) =
        base_cost-is_some (read "prompt_tokens") (read "completion_tokens") (read "total_tokens")
          (read "connector_tokens") in
      ((both_bounds-is_some b).0 ∙ h, (both_bounds-is_some b).1 ∙ h)

  -- whether a call of this usage has a cost
  abbrev pub has_cost : Bool → Option (Dict (Payload F)) → Bool
  has_cost local_only none = false
  has_cost local_only (some usage) = not local_only && is_priced usage

  has_cost-estimate :
      (usage : Option (Dict (Payload F)))
      → (is_some (estimate_cost_bounds floats usage).0 ≡ has_cost false usage)
        × (is_some (estimate_cost_bounds floats usage).1 ≡ has_cost false usage)
  unfolding estimate_cost_bounds
  has_cost-estimate none = (refl, refl)
  has_cost-estimate (some usage) = estimate-is_some usage

  no_cost : (usage : Option (Dict (Payload F))) → false ≡ has_cost true usage
  no_cost none = refl
  no_cost (some usage) = refl

  present-normalized :
      (usage : Option (Jsonable F)) → is_some (normalize_usage_payload usage) ≡ is_some usage
  unfolding normalize_usage_payload
  present-normalized none = refl
  present-normalized (some (mapping d)) = refl
  present-normalized (some (plain p)) = refl

  -- The telemetry of a call has a base cost exactly where it has a stress cost: the call was not
  -- local, and its usage gives, as non-negative integers, the prompt and the completion tokens, or
  -- the total. Usage is present in it exactly where the call had any.
  build-has_cost :
      (endpoint : String) (model : Option String) (usage : Option (Jsonable F)) (latency : F)
      (retries : ℕ) (local_only : Bool) (error : Option String)
      → let c =
          build_provider_call_telemetry floats endpoint model usage latency retries local_only
            error in
        (is_some c.estimated_cost_base_usd ≡ has_cost local_only (normalize_usage_payload usage))
        × (is_some c.estimated_cost_stress_usd
            ≡ has_cost local_only (normalize_usage_payload usage))
        × (c.usage_present ≡ is_some usage)
  unfolding build_provider_call_telemetry
  build-has_cost endpoint model usage latency retries true error =
      let h = no_cost (normalize_usage_payload usage) in (h, h, present-normalized usage)
  build-has_cost endpoint model usage latency retries false error =
      let h = has_cost-estimate (normalize_usage_payload usage) in
      (h.0, h.1, present-normalized usage)
