-- ===== src/Pipeline/Replay.antt =====
-- What a replay of a cached result keeps, and runs after a successful run.
use lean_econ_api.Prelude.{
  inl, inr, Option-cases, String, true, false, some, [], ◌∷◌, ◌≡◌, refl, ◌==◌, arith, Option-cases,
}
use lean_econ_api.Dict
use lean_econ_api.Json.{Value, Object, null, flag, get_or, as_object, of_object, number}
use lean_econ_api.Json.Laws.{get_or-put, json_laws}
use lean_econ_api.Pipeline.{
  Stages, keep_telemetry, replay, no_members, with_defaults, no_calls, marked,
}

module _ {W : Type 0} (stages : Stages W) where
  get_or-keep_telemetry :
      (w : Value) (k : String) (t d : Object)
      → ("cached_provider_telemetry" == k) ≡ false
      → get_or w k (keep_telemetry stages t d) ≡ get_or w k d
  unfolding keep_telemetry
  get_or-keep_telemetry w k [] d ne = refl
  get_or-keep_telemetry w k (e ∷ t) d ne =
      ground (arith, get_or-put w "cached_provider_telemetry" k (of_object (e ∷ t)) d)

  -- A replay comes from the entry with its marks and defaults.
  replay-some :
      (cached c : Object)
      → replay stages cached ≡ some c
      → (t : Object) × (c
          ≡ with_defaults stages (
              Dict.put "provider_telemetry"
                (of_object (no_calls stages))
                (keep_telemetry stages t (marked stages cached))))
  unfolding replay
  replay-some cached c e =
      elim (Option-cases
        (as_object (get_or no_members "provider_telemetry" (marked stages cached)))) [
          | inl h ↦ cc
          | inr (t, h) ↦ (t, cc)
        ]

  module _ (cached c : Object) (e : replay stages cached ≡ some c) where
    pub from_cache-replay : get_or null "from_cache" c ≡ flag true
    unfolding with_defaults marked
    from_cache-replay =
        let (t, h) = replay-some cached c e in rw h (simp (json_laws, get_or-keep_telemetry))

    pub success-replay : get_or null "success" c ≡ get_or null "success" cached
    unfolding with_defaults marked
    success-replay =
        let (t, h) = replay-some cached c e in rw h (simp (json_laws, get_or-keep_telemetry))

    pub phase-replay : get_or null "phase" c ≡ get_or null "phase" cached
    unfolding with_defaults marked
    phase-replay =
        let (t, h) = replay-some cached c e in rw h (simp (json_laws, get_or-keep_telemetry))

    pub lean_code-replay : get_or null "lean_code" c ≡ get_or null "lean_code" cached
    unfolding with_defaults marked
    lean_code-replay =
        let (t, h) = replay-some cached c e in rw h (simp (json_laws, get_or-keep_telemetry))

    pub elapsed_seconds-replay : get_or null "elapsed_seconds" c ≡ number 0
    unfolding with_defaults marked
    elapsed_seconds-replay =
        let (t, h) = replay-some cached c e in rw h (simp (json_laws, get_or-keep_telemetry))
