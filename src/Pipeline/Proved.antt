-- ===== src/Pipeline/Proved.antt =====
-- The result cache of the pipeline holds verified results only, and the phase of a result.
use lean_econ_api.Prelude.{
  Step, raised, returned, Bool, none, some, [], ◌∷◌, ◌≡◌, refl, ◌↔◌, true, false, Option,
  if◌then◌else◌, arith, ap, ◌∙◌,
}
use mathlib.Core.Path.{subst, ap, sym, ◌∙◌}
use lean_econ_api.Dict
use lean_econ_api.Dict.{Dict}
use lean_econ_api.Cache.Contents.{AllResults, AllResults-put_result, get-AllResults}
use lean_econ_api.Json.{Object, null, flag, text, get_or, truthy}
use lean_econ_api.Pipeline.{
  Stages, State, Request, replay, policy, cache_key_input, run_cached, run_failed, run_proved,
  run_pipeline, store_result, note, log_run, build_run_log_entry, formalizer_calls, replay_log,
}
use lean_econ_api.Pipeline.Results.{
  ProveResult, failed_pipeline_result, successful_pipeline_result, phase_of,
}
use lean_econ_api.Pipeline.Ends.{Same, run_pipeline-ends}
use lean_econ_api.Pipeline.Replay.{success-replay, phase-replay}

-- A success, told by the phase.
abbrev pub IsSound : Object → Type 0
IsSound r = (truthy (get_or null "success" r) ≡ true) ↔ (get_or null "phase" r ≡ text "verified")

-- A success, in the phase of one.
abbrev pub IsProved : Object → Type 0
IsProved r = (truthy (get_or null "success" r) ≡ true) × (get_or null "phase" r ≡ text "verified")

-- The end of a run: the cache holds proved results only; a result has the phase of a success if
-- and only if it is one; and a replay is one.
abbrev pub IsProvedEnd : {W : Type 0} → Step (State W) Object → Type 0
IsProvedEnd (raised m t) = AllResults IsProved t.result_cache
IsProvedEnd (returned r t) =
    AllResults IsProved t.result_cache
    × IsSound r
    × (get_or null "from_cache" r ≡ flag true → IsProved r)

module _ {W : Type 0} (stages : Stages W) (q : Request) where
  phase_of-verified :
      (p : ProveResult) → (truthy p.success ≡ true) ↔ (text (phase_of p) ≡ text "verified")
  unfolding phase_of
  phase_of-verified p = go (truthy p.success) (truthy p.proof_generated)
    where
      go :
          (a b : Bool)
          → (a ≡ true)
            ↔ (text (if a then "verified" else if b then "proved" else "failed") ≡ text "verified")
      go true b = ((λ _. refl), (λ _. refl))
      go false true = ((λ x. cc), (λ x. cc))
      go false false = ((λ x. cc), (λ x. cc))

  cached-IsProvedEnd :
      (cached : Object) (s : State W)
      → AllResults IsProved s.result_cache
      → IsProved cached
      → IsProvedEnd (run_cached stages q cached s)
  unfolding run_cached note log_run
  cached-IsProvedEnd cached s h p =
      go (replay stages cached) (success-replay stages cached) (phase-replay stages cached)
    where
      go :
          (x : Option Object)
          → ((c : Object) → x ≡ some c → get_or null "success" c ≡ get_or null "success" cached)
          → ((c : Object) → x ≡ some c → get_or null "phase" c ≡ get_or null "phase" cached)
          → IsProvedEnd (elim x [
            | none ↦ raised "TypeError" (note "cache" "done" s)
            | some c ↦
                returned c
                  (log_run (build_run_log_entry (replay_log stages q c)) (note "cache" "done" s))
          ])
      go none a b = h
      go (some c) a b =
          let x : truthy (get_or null "success" c) ≡ true = ap truthy (a c refl) ∙ p.0 in
          let y = b c refl ∙ p.1 in (h, ((λ _. y), (λ _. x)), (λ _. (x, y)))

  failed-IsProvedEnd :
      (start : W) (f : Object) (s t : State W)
      → AllResults IsProved s.result_cache
      → Same s t
      → IsProvedEnd (run_failed stages q start f t)
  unfolding run_failed log_run failed_pipeline_result get_or Dict.get truthy
  failed-IsProvedEnd start f s t h same =
      (subst (AllResults IsProved) (sym same.cache) h, ((λ x. cc), λ x. cc), (λ x. cc))

  cache-store_result :
      (r : Object) (t : State W)
      → (truthy (get_or null "success" r) ≡ true → IsProved r)
      → AllResults IsProved t.result_cache
      → AllResults IsProved (store_result stages q r t).result_cache
  unfolding store_result policy
  cache-store_result r t p h = ground (
    arith,
    AllResults-put_result IsProved (policy stages) (cache_key_input q) r t.result_cache p h,
  )

  proved-IsProvedEnd :
      (start : W) (f : Object) (p : ProveResult) (s t : State W)
      → AllResults IsProved s.result_cache
      → Same s t
      → IsProvedEnd (run_proved stages q start f p t)
  unfolding run_proved log_run successful_pipeline_result get_or Dict.get
  proved-IsProvedEnd start f p s t h same =
      let calls = stages.summarize_calls (formalizer_calls stages f ∷ p.provider_telemetry ∷ []) in
      let result =
        successful_pipeline_result (get_or null "theorem_code" f) f p (stages.elapsed start t.world)
          calls in
      (
        cache-store_result result t (λ x. (x, (phase_of-verified p).0 x))
            (subst (AllResults IsProved) (sym same.cache) h),
        phase_of-verified p,
        (λ x. cc),
      )

  -- From a cache that holds proved results only, every run, whatever the formalizer and the prover
  -- do, leaves such a cache, also if it raises. The result it returns has the phase "verified"
  -- if and only if it is a success, and if it is a replay it is a success.
  pub run_pipeline-IsProvedEnd :
      (s : State W) → AllResults IsProved s.result_cache → IsProvedEnd (run_pipeline stages q s)
  run_pipeline-IsProvedEnd s h =
      run_pipeline-ends stages IsProvedEnd q s
        (λ cached e.
          cached-IsProvedEnd cached s h
            (get-AllResults IsProved (policy stages) (cache_key_input q) cached s.result_cache h e))
        (λ start f t same _. failed-IsProvedEnd start f s t h same)
        (λ start f p t same. proved-IsProvedEnd start f p s t h same)
        (λ m t same. subst (AllResults IsProved) (sym same.cache) h)
