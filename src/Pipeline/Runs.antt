-- ===== src/Pipeline/Runs.antt =====
-- The run log: one entry for each run that returns.
use lean_econ_api.Prelude.{
  Step, raised, returned, none, some, [], ◌∷◌, ◌++◌, ◌≡◌, refl, true, Option, arith, sym, ap, ◌∙◌,
}
use lean_econ_api.Dict
use lean_econ_api.Json.{Object, null, flag, get_or, number}
use lean_econ_api.Pipeline.{
  Stages, State, Request, log_run, replay, replay_log, failure_log, proof_log, run_cached,
  run_failed, run_proved, run_pipeline, store_result, note, formalizer_calls,
}
use lean_econ_api.Pipeline.Results.{
  ProveResult, build_run_log_entry, failed_pipeline_result, successful_pipeline_result,
}
use lean_econ_api.Pipeline.Ends.{Same, run_pipeline-ends}
use lean_econ_api.Pipeline.Replay.{from_cache-replay, elapsed_seconds-replay}

-- A run that returns has put one entry at the end of the log, which agrees with the result on
-- whether it is a replay; a run that raises has put none.
abbrev pub IsLogged : {W : Type 0} → State W → Step (State W) Object → Type 0
IsLogged s (raised m t) = t.runs ≡ s.runs
IsLogged s (returned r t) =
    (e : Object) × (t.runs ≡ s.runs ++ (e ∷ []))
    × (get_or null "from_cache" e ≡ get_or null "from_cache" r)
    × (get_or null "elapsed_seconds" e ≡ get_or null "elapsed_seconds" r)

module _ {W : Type 0} (stages : Stages W) (q : Request) where
  cached-IsLogged : (cached : Object) (s : State W) → IsLogged s (run_cached stages q cached s)
  unfolding run_cached note log_run build_run_log_entry replay_log get_or Dict.get
  cached-IsLogged cached s =
      go (replay stages cached) (from_cache-replay stages cached)
        (elapsed_seconds-replay stages cached)
    where
      go :
          (x : Option Object)
          → ((c : Object) → x ≡ some c → get_or null "from_cache" c ≡ flag true)
          → ((c : Object) → x ≡ some c → get_or null "elapsed_seconds" c ≡ number 0)
          → IsLogged s (elim x [
            | none ↦ raised "TypeError" (note "cache" "done" s)
            | some c ↦
                returned c
                  (log_run (build_run_log_entry (replay_log stages q c)) (note "cache" "done" s))
          ])
      go none h i = refl
      go (some c) h i =
          (build_run_log_entry (replay_log stages q c), refl, sym (h c refl), sym (i c refl))

  failed-IsLogged :
      (start : W) (f : Object) (s t : State W)
      → Same s t
      → IsLogged s (run_failed stages q start f t)
  unfolding run_failed log_run build_run_log_entry failure_log get_or Dict.get
  failed-IsLogged start f s t same =
      let calls = stages.summarize_calls (formalizer_calls stages f ∷ []) in
      let result = failed_pipeline_result f (stages.elapsed start t.world) calls in
      let e = build_run_log_entry (failure_log stages q f result calls) in
      (e, ap (λ r. r ++ (e ∷ [])) same.runs, refl, refl)

  runs-store_result : (r : Object) (t : State W) → (store_result stages q r t).runs ≡ t.runs
  unfolding store_result
  runs-store_result r t = ground arith

  proved-IsLogged :
      (start : W) (f : Object) (p : ProveResult) (s t : State W)
      → Same s t
      → IsLogged s (run_proved stages q start f p t)
  unfolding run_proved log_run build_run_log_entry proof_log get_or Dict.get
      successful_pipeline_result
  proved-IsLogged start f p s t same =
      let calls = stages.summarize_calls (formalizer_calls stages f ∷ p.provider_telemetry ∷ []) in
      let result =
        successful_pipeline_result (get_or null "theorem_code" f) f p (stages.elapsed start t.world)
          calls in
      let e = build_run_log_entry (proof_log stages q f p result calls) in
      (e, ap (λ r. r ++ (e ∷ [])) (runs-store_result result t ∙ same.runs), refl, refl)

  -- Every run that returns, from the cache or not, with a proof or without, puts exactly one entry
  -- at the end of the run log, which agrees with the result on whether it came from the cache and
  -- on its elapsed time; a run that raises puts none.
  pub run_pipeline-IsLogged : (s : State W) → IsLogged s (run_pipeline stages q s)
  run_pipeline-IsLogged s =
      run_pipeline-ends stages (IsLogged s) q s (λ cached _. cached-IsLogged cached s)
        (λ start f t same _. failed-IsLogged start f s t same)
        (λ start f p t same. proved-IsLogged start f p s t same) (λ m t same. same.runs)
