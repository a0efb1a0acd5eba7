-- ===== src/Formalizer/Cached.antt =====
-- `formalize` of src/formalizer.py with its cache: the lookup before the loop, the stores in it, and
-- the replay of an entry, with the context that is built before. The selection of preambles, the
-- retrieval for a claim, and what the telemetry says of a loop are parameters. The proofs are in the module below.
pub mod Again
use lean_econ_api.Prelude.{
  ℕ, String, Bool, true, false, Option, none, some, List, [], ◌∷◌, if◌then◌else◌, is_some, Step,
  raised, returned, ◌⊎◌, inl, inr,
}
use lean_econ_api.Text.{strip}
use lean_econ_api.Dict
use lean_econ_api.Dict.{Dict}
use lean_econ_api.Json.{Value, null, flag, Object, of_object}
use lean_econ_api.Cache
use lean_econ_api.Cache.{Policy, Entry, Flags, formalization_policy}
use lean_econ_api.Formalizer
use lean_econ_api.Formalizer.{
  Stages, Work, Pass, continued, done, failed, FormalizeResult, run_attempts, fresh_work, exhausted,
}

-- What `_formalization_cache_key` builds; the namespace is a constant of the process.
pub record CacheKey : Type 0 where
  pub claim_text : String
  pub preamble_names : List String
  pub namespace : String

-- The result of `formalize`: the fields of the loop, the telemetry, and the context.
pub record Formalized : Type 0 where
  pub result : FormalizeResult
  pub preamble_used : List String
  pub formalizer_telemetry : Object
  pub formalization_context : Object

-- The part of `FormalizationContext` that the key is made of, and the rest.
pub record FormalizationContext : Type 0 where
  pub preamble_names : List String
  pub rest : Object

-- What stands outside. `select_preambles` is the selection of a claim and its explicit preambles, or
-- the message of its exception; `retrieve` is what the context gets besides, where Lean's MCP server
-- is queried. Then come the stages of a claim with its context, and the telemetry and the artifact
-- of a work.
pub record Setting (W : Type 0) : Type 0 where
  pub select_preambles : String → Option (List String) → String ⊎ List String
  pub retrieve : String → List String → W → Object × W
  pub stages : String → FormalizationContext → Stages W
  pub telemetry : Work W → Object
  pub artifact : FormalizationContext → Work W → Object
  pub no_calls : Object
  pub digest : String → String
  pub dumps : CacheKey → String
  pub namespace : String

-- The world, and `formalization_cache`.
pub record State (W : Type 0) : Type 0 where
  pub world : W
  pub cache : Dict (Entry CacheKey Formalized)

-- the tests of `FormalizationCache.should_cache`
abbrev pub formalized_flags : Flags Formalized
formalized_flags = record {
  success = λ r. r.result.success;
  formalization_failed = λ r. r.result.formalization_failed;
}

-- the telemetry of a replayed entry
unfoldable pub replay_telemetry : Object → Object → Object
unfolding Dict.get Dict.put
replay_telemetry no_calls telemetry =
    let kept : Object = elim (Dict.get "provider_telemetry" telemetry) [
      | none ↦ telemetry
      | some v ↦ Dict.put "cached_provider_telemetry" v telemetry
    ] in
    Dict.put "cache_hit" (flag true) (Dict.put "provider_telemetry" (of_object no_calls) kept)

-- the context of a replayed entry: an empty one stays as it is
unfoldable pub replay_context : Object → Object
unfolding Dict.put
replay_context [] = []
replay_context (e ∷ context) = Dict.put "cache_hit" (flag true) (e ∷ context)

-- the result of a cache hit
unfoldable pub replay : Object → Formalized → Formalized
unfolding replay_telemetry replay_context
replay no_calls cached = record cached {
  formalizer_telemetry = replay_telemetry no_calls cached.formalizer_telemetry;
  formalization_context = replay_context cached.formalization_context;
}

module _ {W : Type 0} (setting : Setting W) where
  open setting use {
    select_preambles, retrieve, stages, telemetry, artifact, no_calls, digest, dumps, namespace,
  }

  -- `build_formalization_context`, with its retrieval
  unfoldable pub build_formalization_context :
      String → Option (List String) → W → Step W FormalizationContext
  build_formalization_context claim_text names w = elim (select_preambles claim_text names) [
    | inl message ↦ raised message w
    | inr selected ↦
        let (rest, t) = retrieve claim_text selected w in
        returned (record { preamble_names = selected; rest = rest }) t
  ]

  abbrev pub cache_policy : Policy CacheKey Formalized
  cache_policy = formalization_policy digest dumps formalized_flags

  -- `_formalization_cache_key`
  unfoldable pub formalization_cache_key : String → List String → CacheKey
  unfolding strip
  formalization_cache_key claim_text names = record {
    claim_text = strip claim_text;
    preamble_names = names;
    namespace = namespace;
  }

  -- `_result` of the work that a pass ends in
  unfoldable pub build_result : FormalizationContext → FormalizeResult → Work W → Formalized
  build_result context r w = record {
    result = r;
    preamble_used = context.preamble_names;
    formalizer_telemetry = telemetry w;
    formalization_context = artifact context w;
  }

  -- the end of the loop: a result of an attempt is stored, the result of exhausted attempts is not
  unfoldable pub end_formalize :
      String → FormalizationContext → Bool → Pass W → State W → Step (State W) Formalized
  unfolding exhausted build_result formalization_cache_key Cache.put
  end_formalize claim_text context use_cache (done r w) s =
      let result = build_result context r w in
      returned result (record {
        world = w.world;
        cache =
            if use_cache
            then Cache.put cache_policy (formalization_cache_key claim_text context.preamble_names)
                result s.cache
            else s.cache;
      })
  end_formalize claim_text context use_cache (failed message w) s =
      raised message (record s { world = w.world })
  end_formalize claim_text context use_cache (continued w) s =
      elim (exhausted (stages claim_text context) w) [
        | done r w' ↦ returned (build_result context r w') (record s { world = w'.world })
        | failed message w' ↦ raised message (record s { world = w'.world })
        | continued w' ↦ raised "" (record s { world = w'.world })
      ]

  -- `formalize` without a hit: the client, and the loop
  unfoldable pub formalize_missed :
      String → FormalizationContext → Bool → State W → Step (State W) Formalized
  unfolding run_attempts end_formalize
  formalize_missed claim_text context use_cache s =
      let own = stages claim_text context in
      elim (own.client_error s.world) [
        | some message ↦ raised message s
        | none ↦
            end_formalize claim_text context use_cache
              (run_attempts own (1 ∷ 2 ∷ []) (fresh_work own s.world)) s
      ]

  -- `formalize` once there is a context
  unfoldable pub formalize_in :
      String → FormalizationContext → Bool → State W → Step (State W) Formalized
  unfolding formalize_missed replay formalization_cache_key Cache.get
  formalize_in claim_text context use_cache s =
      if use_cache
      then elim (Cache.get cache_policy (formalization_cache_key claim_text context.preamble_names)
          s.cache) [
            | none ↦ formalize_missed claim_text context use_cache s
            | some cached ↦ returned (replay no_calls cached) s
          ]
      else formalize_missed claim_text context use_cache s

  -- `formalize`
  unfoldable pub formalize :
      String → Option (List String) → Bool → State W → Step (State W) Formalized
  unfolding build_formalization_context formalize_in
  formalize claim_text names use_cache s =
      elim (build_formalization_context claim_text names s.world) [
        | raised message t ↦ raised message (record s { world = t })
        | returned context t ↦ formalize_in claim_text context use_cache (record s { world = t })
      ]
