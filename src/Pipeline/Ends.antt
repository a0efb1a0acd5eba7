-- ===== src/Pipeline/Ends.antt =====
-- The ways in which a run of the pipeline ends.
use lean_econ_api.Prelude.{
  Step, raised, returned, String, Bool, true, false, Option, none, some, ◌≡◌, refl, ◌∙◌,
  if◌then◌else◌, Bool-cases, inl, inr, arith, step_state,
}
use lean_econ_api.Cache
use lean_econ_api.Json.{Value, Object, truthy, get_or, null}
use lean_econ_api.Pipeline.Results.{ProveResult}
use lean_econ_api.Pipeline.{
  Stages, State, Request, note, note_formalized, formalize_claim, prove_and_verify, run_cached,
  run_failed, run_proved, run_formalized, run_fresh, run_pipeline, policy, cache_key_input,
  preformalized_result, no_calls,
}

-- The cache and the run log stay as they are.
pub record Same {W : Type 0} (s t : State W) : Type 0 where
  pub cache : t.result_cache ≡ s.result_cache
  pub runs : t.runs ≡ s.runs

pub Same-refl : {W : Type 0} (s : State W) → Same s s
Same-refl s = record { cache = refl; runs = refl }

Same-trans : {W : Type 0} {s t u : State W} → Same s t → Same t u → Same s u
Same-trans a b = record { cache = b.cache ∙ a.cache; runs = b.runs ∙ a.runs }

module _ {W : Type 0} (stages : Stages W) where
  Same-formalize_claim :
      (raw_input : String) (use_cache : Bool) (s : State W)
      → Same s (step_state (formalize_claim stages raw_input use_cache s))
  unfolding formalize_claim note note_formalized
  Same-formalize_claim raw_input use_cache s = record { cache = ground arith; runs = ground arith }

  Same-prove_and_verify :
      (theorem : Value) (name : String) (context preset overrides : Value) (s : State W)
      → Same s (step_state (prove_and_verify stages theorem name context preset overrides s))
  unfolding prove_and_verify note
  Same-prove_and_verify theorem name context preset overrides s = record {
    cache = ground arith;
    runs = ground arith;
  }

  module _ (P : Step (State W) Object → Type 0) (q : Request) (s : State W) where
    -- What holds of each end of a run with a formalization `f` holds of the run.
    run_formalized-ends :
        (start : W) (f : Object) (t : State W)
        → Same s t
        → ((f : Object) (t : State W)
            → Same s t
            → truthy (get_or null "success" f) ≡ false
            → P (run_failed stages q start f t))
        → ((f : Object) (p : ProveResult) (t : State W)
            → Same s t
            → P (run_proved stages q start f p t))
        → ((m : String) (t : State W) → Same s t → P (raised m t))
        → P (run_formalized stages q start f t)
    unfolding run_formalized
    run_formalized-ends start f t same failed proved exceptions =
        elim (Bool-cases (truthy (get_or null "success" f))) [
          | inr e ↦ rw e (failed f t same e)
          | inl e ↦ rw e (
              go
                (prove_and_verify stages (get_or null "theorem_code" f) "leanstral"
                  (get_or null "formalization_context" f) q.reasoning_preset q.budget_overrides t)
                (Same-prove_and_verify (get_or null "theorem_code" f) "leanstral"
                  (get_or null "formalization_context" f) q.reasoning_preset q.budget_overrides t))
        ]
      where
        go :
            (x : Step (State W) ProveResult)
            → Same t (step_state x)
            → P (elim x [
              | raised message u ↦ raised message u
              | returned p u ↦ run_proved stages q start f p u
            ])
        go (raised m u) h = exceptions m u (Same-trans same h)
        go (returned p u) h = proved f p u (Same-trans same h)

    run_fresh-ends :
        ((start : W) (f : Object) (t : State W)
          → Same s t
          → truthy (get_or null "success" f) ≡ false
          → P (run_failed stages q start f t))
        → ((start : W) (f : Object) (p : ProveResult) (t : State W)
            → Same s t
            → P (run_proved stages q start f p t))
        → ((m : String) (t : State W) → Same s t → P (raised m t))
        → P (run_fresh stages q s)
    unfolding run_fresh
    run_fresh-ends failed proved exceptions = choose q.preformalized_theorem
      where
        go :
            (x : Step (State W) Object)
            → Same s (step_state x)
            → P (elim x [
              | raised message u ↦ raised message u
              | returned f u ↦ run_formalized stages q s.world f u
            ])
        go (raised m u) h = exceptions m u h
        go (returned f u) h =
            run_formalized-ends s.world f u h (failed s.world) (proved s.world) exceptions

        choose :
            (x : Option String)
            → P (elim x [
              | some theorem ↦
                  run_formalized stages q s.world
                    (preformalized_result (no_calls stages) theorem q.formalization_context)
                    s
              | none ↦ elim (formalize_claim stages q.raw_input q.use_cache s) [
                | raised message t ↦ raised message t
                | returned f t ↦ run_formalized stages q s.world f t
              ]
            ])
        choose (some theorem) =
            run_formalized-ends s.world
              (preformalized_result (no_calls stages) theorem q.formalization_context) s
              (Same-refl s) (failed s.world) (proved s.world) exceptions
        choose none =
            go (formalize_claim stages q.raw_input q.use_cache s)
              (Same-formalize_claim q.raw_input q.use_cache s)

    -- What holds of each end of a run holds of the run.
    pub run_pipeline-ends :
        ((cached : Object)
          → Cache.get (policy stages) (cache_key_input q) s.result_cache ≡ some cached
          → P (run_cached stages q cached s))
        → ((start : W) (f : Object) (t : State W)
            → Same s t
            → truthy (get_or null "success" f) ≡ false
            → P (run_failed stages q start f t))
        → ((start : W) (f : Object) (p : ProveResult) (t : State W)
            → Same s t
            → P (run_proved stages q start f p t))
        → ((m : String) (t : State W) → Same s t → P (raised m t))
        → P (run_pipeline stages q s)
    unfolding run_pipeline
    run_pipeline-ends hit failed proved exceptions = choose q.use_cache
      where
        go :
            (x : Option Object)
            → ((c : Object) → x ≡ some c → P (run_cached stages q c s))
            → P (elim x [
              | none ↦ run_fresh stages q s
              | some cached ↦ run_cached stages q cached s
            ])
        go none h = run_fresh-ends failed proved exceptions
        go (some c) h = h c refl

        choose :
            (b : Bool)
            → P (
                if b
                then elim (Cache.get (policy stages) (cache_key_input q) s.result_cache) [
                  | none ↦ run_fresh stages q s
                  | some cached ↦ run_cached stages q cached s
                ]
                else run_fresh stages q s)
        choose true = go (Cache.get (policy stages) (cache_key_input q) s.result_cache) hit
        choose false = run_fresh-ends failed proved exceptions
