-- ===== src/Formalizer/Cached/Again.antt =====
-- A formalization that settled its claim is replayed.
use lean_econ_api.Prelude.{
  String, Bool, true, Option, none, some, List, [], ◌∷◌, ◌≡◌, refl, arith, ◌||◌, Step, raised,
  returned, ◌⊎◌, inl, inr,
}
use mathlib.Core.Path.{subst, sym, ◌∙◌}
use lean_econ_api.Cache
use lean_econ_api.Cache.{put}
use lean_econ_api.Cache.Reads.{get-put_self}
use lean_econ_api.Formalizer.{
  Stages, Pass, continued, done, failed, run_attempts, fresh_work, exhausted,
}
use lean_econ_api.Formalizer.Cached.{
  Setting, FormalizationContext, State, Formalized, replay, cache_policy, formalization_cache_key,
  build_result, build_formalization_context, end_formalize, formalize_missed, formalize_in,
  formalize,
}

-- The result is a success, or the model's refusal.
abbrev pub is_settled : Formalized → Bool
is_settled r = r.result.success || r.result.formalization_failed

module _ {W : Type 0} (setting : Setting W) (claim : String) where
  module _ (preambles : List String) where
    -- The cache of `t` has an entry of this claim and these preambles with the result of `r`.
    record IsKept (r : Formalized) (t : State W) : Type 0 where
      cached : Formalized
      found :
          Cache.get (cache_policy setting) (formalization_cache_key setting claim preambles) t.cache
          ≡ some cached
      same : cached.result ≡ r.result
      same_preambles : cached.preamble_used ≡ r.preamble_used

    -- of a run that returned
    Keeps : Step (State W) Formalized → Type 0
    Keeps (raised m t) = Unit
    Keeps (returned r t) = is_settled r ≡ true → IsKept r t

  module _ (context : FormalizationContext) where
    end_formalize-Keeps :
        (x : Pass W) (s : State W)
        → Keeps context.preamble_names (end_formalize setting claim context true x s)
    unfolding end_formalize exhausted Keeps build_result
    end_formalize-Keeps (done r w) s = λ settled.
        let result = build_result setting context r w in
        record {
          cached = result;
          found = ground (
            arith,
            settled,
            get-put_self (cache_policy setting)
                (formalization_cache_key setting claim context.preamble_names) result s.cache,
          );
          same = refl;
          same_preambles = refl;
        }
    end_formalize-Keeps (failed m w) s = tt
    end_formalize-Keeps (continued w) s = λ settled. cc

    formalize_missed-Keeps :
        (s : State W) → Keeps context.preamble_names (formalize_missed setting claim context true s)
    unfolding formalize_missed Keeps
    formalize_missed-Keeps s = go ((setting.stages claim context).client_error s.world)
      where
        own : Stages W
        own = setting.stages claim context

        go :
            (x : Option String)
            → Keeps context.preamble_names (elim x [
              | some message ↦ raised message s
              | none ↦
                  end_formalize setting claim context true
                    (run_attempts own (1 ∷ 2 ∷ []) (fresh_work own s.world))
                    s
            ])
        go (some m) = tt
        go none = end_formalize-Keeps (run_attempts own (1 ∷ 2 ∷ []) (fresh_work own s.world)) s

    formalize_in-Keeps :
        (s : State W) → Keeps context.preamble_names (formalize_in setting claim context true s)
    unfolding formalize_in replay Keeps
    formalize_in-Keeps s =
        go
          (Cache.get (cache_policy setting)
            (formalization_cache_key setting claim context.preamble_names) s.cache)
          refl
      where
        go :
            (x : Option Formalized)
            → Cache.get
                (cache_policy setting)
                (formalization_cache_key setting claim context.preamble_names)
                s.cache
              ≡ x
            → Keeps context.preamble_names (elim x [
              | none ↦ formalize_missed setting claim context true s
              | some cached ↦ returned (replay setting.no_calls cached) s
            ])
        go none e = formalize_missed-Keeps s
        go (some cached) e =
            λ settled. record { cached = cached; found = e; same = refl; same_preambles = refl }

  module _ (names : Option (List String)) where
    -- What a later run of the claim does, from a world `w`: it builds the context, and replays.
    pub record IsReplayed (r : Formalized) (t : State W) (w : W) : Type 0 where
      pub again : Formalized
      pub context : FormalizationContext
      pub after : W
      pub built : build_formalization_context setting claim names w ≡ returned context after
      pub replayed :
          formalize setting claim names true (record t { world = w })
          ≡ returned again (record t { world = after })
      pub same : again.result ≡ r.result
      pub same_preambles : again.preamble_used ≡ r.preamble_used

    -- the context of a selection
    abbrev built_context : List String → W → FormalizationContext
    built_context selected w = record {
      preamble_names = selected;
      rest = (setting.retrieve claim selected w).0;
    }

    build-selected :
        (selected : List String) (w : W)
        → setting.select_preambles claim names ≡ inr selected
        → build_formalization_context setting claim names w
          ≡ returned (built_context selected w) (setting.retrieve claim selected w).1
    unfolding build_formalization_context
    build-selected selected w e = rw (build_formalization_context, e) refl

    build-refused :
        (m : String) (w : W)
        → setting.select_preambles claim names ≡ inl m
        → build_formalization_context setting claim names w ≡ raised m w
    unfolding build_formalization_context
    build-refused m w e = rw (build_formalization_context, e) refl

    formalize-built :
        (context : FormalizationContext) (s : State W) (u : W)
        → build_formalization_context setting claim names s.world ≡ returned context u
        → formalize setting claim names true s
          ≡ formalize_in setting claim context true (record s { world = u })
    unfolding formalize
    formalize-built context s u e = rw (formalize, e) refl

    formalize-refused :
        (m : String) (s : State W) (u : W)
        → build_formalization_context setting claim names s.world ≡ raised m u
        → formalize setting claim names true s ≡ raised m (record s { world = u })
    unfolding formalize
    formalize-refused m s u e = rw (formalize, e) refl

    replay-kept :
        (selected : List String) (r : Formalized) (t : State W) (w : W)
        → setting.select_preambles claim names ≡ inr selected
        → IsKept selected r t
        → IsReplayed r t w
    unfolding formalize_in
    replay-kept selected r t w e kept =
        let u : W = (setting.retrieve claim selected w).1 in
        let built = build-selected selected w e in
        record {
          again = replay setting.no_calls kept.cached;
          context = built_context selected w;
          after = u;
          built = built;
          replayed =
              formalize-built (built_context selected w) (record t { world = w }) u built
              ∙ rw (formalize_in, kept.found) refl;
          same = unfold replay in kept.same;
          same_preambles = unfold replay in kept.same_preambles;
        }

    -- A formalization with the cache that returned a success, or the model's refusal, is replayed by
    -- the next one of the same claim and preambles: it returns the same result, from whatever world,
    -- leaves the cache as it is, and acts on the world only where it builds the context, by the
    -- retrieval. The loop, with its calls of the model and its validations, does not run again.
    pub formalize-again :
        (s t : State W) (r : Formalized)
        → formalize setting claim names true s ≡ returned r t
        → is_settled r ≡ true
        → (w : W) → IsReplayed r t w
    formalize-again s t r e settled w = go (setting.select_preambles claim names) refl
      where
        go :
            (x : String ⊎ List String) → setting.select_preambles claim names ≡ x → IsReplayed r t w
        go (inl m) p = cc (e, formalize-refused m s s.world (build-refused m s.world p))
        go (inr selected) p =
            let u : W = (setting.retrieve claim selected s.world).1 in
            let context = built_context selected s.world in
            let first = formalize-built context s u (build-selected selected s.world p) in
            let keeps : Keeps selected (returned r t) =
              subst (Keeps selected) (sym first ∙ e)
                (formalize_in-Keeps context (record s { world = u })) in
            let kept : is_settled r ≡ true → IsKept selected r t = unfold Keeps in keeps in
            replay-kept selected r t w p (kept settled)
