-- ===== src/Pipeline/Repeat.antt =====
-- A second run of a claim that was proved.
use lean_econ_api.Prelude.{
  Step, raised, returned, none, some, [], ◌∷◌, ◌≡◌, refl, true, Option, sym, ap, ◌∙◌, arith,
}
use mathlib.Core.Path.{subst}
use lean_econ_api.Dict
use lean_econ_api.Dict.{Dict}
use lean_econ_api.Cache
use lean_econ_api.Cache.Reads.{get-put_self}
use lean_econ_api.Json.{Value, Object, null, flag, get_or, truthy, as_object, of_object}
use lean_econ_api.Json.Laws.{json_laws}
use lean_econ_api.Pipeline.{
  Stages, State, Request, replay, policy, cache_key_input, note, log_run, run_cached, run_failed,
  run_proved, run_pipeline, store_result, replay_log, marked, with_defaults, formalizer_calls,
  no_members, no_calls, keep_telemetry,
}
use lean_econ_api.Pipeline.Results.{
  ProveResult, failed_pipeline_result, successful_pipeline_result, build_run_log_entry,
}
use lean_econ_api.Pipeline.Ends.{run_pipeline-ends}
use lean_econ_api.Pipeline.Replay.{from_cache-replay, lean_code-replay, success-replay}

module _ {W : Type 0} (stages : Stages W) (q : Request) where
  -- After a success the cache holds an entry that replays the same proof.
  record Kept (r : Object) (t : State W) : Type 0 where
    cached : Object
    again : Object
    hit : Cache.get (policy stages) (cache_key_input q) t.result_cache ≡ some cached
    replays : replay stages cached ≡ some again
    success : truthy (get_or null "success" cached) ≡ true
    lean_code : get_or null "lean_code" cached ≡ get_or null "lean_code" r

  IsKept : Step (State W) Object → Type 0
  IsKept (raised m t) = Unit
  IsKept (returned r t) = truthy (get_or null "success" r) ≡ true → Kept r t

  telemetry-proved :
      (v : Value) (f : Object) (p : ProveResult) (e : Value) (calls : Object)
      → as_object (
          get_or no_members "provider_telemetry"
            (marked stages (successful_pipeline_result v f p e calls)))
        ≡ some calls
  unfolding marked successful_pipeline_result as_object get_or
  telemetry-proved v f p e calls = simp json_laws

  replay-proved :
      (v : Value) (f : Object) (p : ProveResult) (e : Value) (calls : Object)
      → (again : Object) × (replay stages (successful_pipeline_result v f p e calls) ≡ some again)
  unfolding replay
  replay-proved v f p e calls =
      go
        (as_object (
          get_or no_members "provider_telemetry"
            (marked stages (successful_pipeline_result v f p e calls))))
        (telemetry-proved v f p e calls)
    where
      go :
          (o : Option Object)
          → o ≡ some calls
          → (again : Object) × ((elim o [
            | none ↦ none
            | some t ↦ some (
                with_defaults stages (
                  Dict.put "provider_telemetry" (of_object (no_calls stages)) (
                    keep_telemetry stages t
                      (marked stages (successful_pipeline_result v f p e calls)))))
          ])
              ≡ some again)
      go none h = cc
      go (some t) h = (_, refl)

  cached-IsKept :
      (cached : Object) (s : State W)
      → Cache.get (policy stages) (cache_key_input q) s.result_cache ≡ some cached
      → IsKept (run_cached stages q cached s)
  unfolding run_cached note log_run IsKept
  cached-IsKept cached s hit = go (replay stages cached) refl
    where
      go :
          (x : Option Object)
          → replay stages cached ≡ x
          → IsKept (elim x [
            | none ↦ raised "TypeError" (note "cache" "done" s)
            | some c ↦
                returned c
                  (log_run (build_run_log_entry (replay_log stages q c)) (note "cache" "done" s))
          ])
      go none e = tt
      go (some c) e = λ x. record {
        cached = cached;
        again = c;
        hit = hit;
        replays = e;
        success = ap truthy (sym (success-replay stages cached c e)) ∙ x;
        lean_code = sym (lean_code-replay stages cached c e);
      }

  module _ (used : q.use_cache ≡ true) where
    failed-IsKept : (start : W) (f : Object) (t : State W) → IsKept (run_failed stages q start f t)
    unfolding run_failed IsKept failed_pipeline_result get_or Dict.get truthy
    failed-IsKept start f t = λ x. cc

    get-store_result :
        (r : Object) (t : State W)
        → truthy (get_or null "success" r) ≡ true
        → Cache.get (policy stages) (cache_key_input q) (store_result stages q r t).result_cache
          ≡ some r
    unfolding store_result policy
    get-store_result r t x =
        ground (arith, get-put_self (policy stages) (cache_key_input q) r t.result_cache)

    proved-IsKept :
        (start : W) (f : Object) (p : ProveResult) (t : State W)
        → IsKept (run_proved stages q start f p t)
    unfolding run_proved IsKept log_run
    proved-IsKept start f p t = λ x.
        let calls =
          stages.summarize_calls (formalizer_calls stages f ∷ p.provider_telemetry ∷ []) in
        let elapsed = stages.elapsed start t.world in
        let v = get_or null "theorem_code" f in
        let result = successful_pipeline_result v f p elapsed calls in
        let (again, e) = replay-proved v f p elapsed calls in
        record {
          cached = result;
          again = again;
          hit = get-store_result result t x;
          replays = e;
          success = x;
          lean_code = refl;
        }

    run_pipeline-IsKept : (s : State W) → IsKept (run_pipeline stages q s)
    run_pipeline-IsKept s =
        run_pipeline-ends stages IsKept q s (λ cached e. cached-IsKept cached s e)
          (λ start f t same _. failed-IsKept start f t)
          (λ start f p t same. proved-IsKept start f p t) (λ m t same. unfold IsKept in tt)

    run_pipeline-cached :
        (cached : Object) (u : State W)
        → Cache.get (policy stages) (cache_key_input q) u.result_cache ≡ some cached
        → run_pipeline stages q u ≡ run_cached stages q cached u
    unfolding run_pipeline
    run_pipeline-cached cached u h = simp (used, h)

    run_cached-replay :
        (cached c : Object) (u : State W)
        → replay stages cached ≡ some c
        → run_cached stages q cached u
          ≡ returned c
              (log_run (build_run_log_entry (replay_log stages q c)) (note "cache" "done" u))
    unfolding run_cached
    run_cached-replay cached c u e = rw (run_cached, e) refl

    -- After a run with the cache that ended in a success, a run of the same request in any later
    -- state with that cache returns a success with the same Lean code, marked as a replay. It runs
    -- neither the formalizer nor a prover (the rest of the process is as it was), and it
    -- leaves the cache as it is.
    pub run_pipeline-again :
        (s t u : State W) (r : Object)
        → run_pipeline stages q s ≡ returned r t
        → truthy (get_or null "success" r) ≡ true
        → u.result_cache ≡ t.result_cache
        → (c : Object) × (v : State W) × (run_pipeline stages q u ≡ returned c v)
          × (truthy (get_or null "success" c) ≡ true)
          × (get_or null "lean_code" c ≡ get_or null "lean_code" r)
          × (get_or null "from_cache" c ≡ flag true)
          × (v.world ≡ u.world)
          × (v.result_cache ≡ u.result_cache)
    unfolding note log_run IsKept
    run_pipeline-again s t u r ran success same =
        let kept : Kept r t = subst IsKept ran (run_pipeline-IsKept s) success in
        let v =
          log_run (build_run_log_entry (replay_log stages q kept.again)) (note "cache" "done" u) in
        (
          kept.again,
          v,
          run_pipeline-cached kept.cached u
                (ap (Cache.get (policy stages) (cache_key_input q)) same ∙ kept.hit)
              ∙ run_cached-replay kept.cached kept.again u kept.replays,
          ap truthy (success-replay stages kept.cached kept.again kept.replays) ∙ kept.success,
          lean_code-replay stages kept.cached kept.again kept.replays ∙ kept.lean_code,
          from_cache-replay stages kept.cached kept.again kept.replays,
          refl,
          refl,
        )
