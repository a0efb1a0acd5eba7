-- ===== src/Verify/Accepted.antt =====
-- What the verify endpoint answers, and what it leaves on the server.
use lean_econ_api.Prelude.{
  ℕ, String, Bool, true, false, Option, none, some, List, [], ◌∷◌, ◌++◌, ◌≡◌, ◌⊎◌, inl, inr, refl,
  eq_refl, ◌∙◌, if◌then◌else◌,
}
use lean_econ_api.Dict
use lean_econ_api.Dict.{Dict}
use lean_econ_api.Dict.Laws.{get-put}
use lean_econ_api.Text.{is_empty, strip}
use lean_econ_api.Json.{Value, Object}
use lean_econ_api.Jobs.{Job, queued, create, new_job}
use lean_econ_api.Prover.Budget.{Resolved, resolved, value_error, other_error}
use lean_econ_api.Verify.{
  Response, ok, http_error, VerifyRequest, VerifyTask, Server, Intake, require_non_empty,
  looks_like_formalized_theorem, resolve_request, resolve_verify_budget_overrides, queue_job,
  verify_endpoint,
}

get-put_self :
    (k : String) (job : Job Value) (jobs : Dict (Job Value))
    → Dict.get k (Dict.put k job jobs) ≡ some job
get-put_self k job jobs = get-put k k job jobs ∙ rw (eq_refl k) refl

module _ {F : Type 0} (intake : Intake F) (job_id : String) (now queued_at : ℕ) (q : VerifyRequest)
    (s : Server) where
  -- The request was queued: its job is stored as queued, and one task more waits for it, with the
  -- theorem that was checked, and a budget that can be resolved.
  pub record IsQueued (s' : Server) : Type 0 where
    pub task : VerifyTask
    pub waiting : s'.background_tasks ≡ s.background_tasks ++ (task ∷ [])
    pub same_job : task.job_id ≡ job_id
    pub code : task.theorem_code ≡ strip q.theorem_code
    pub stub : looks_like_formalized_theorem task.theorem_code ≡ true
    pub budget : Option Object
    pub resolvable :
        resolve_verify_budget_overrides intake q.reasoning_preset q.budget_overrides
        ≡ resolved budget
    pub passed_on : task.budget_overrides ≡ budget
    pub job : Job Value
    pub stored : Dict.get job_id s'.job_store.jobs ≡ some job
    pub fresh : job.status ≡ queued

  abbrev pub IsAnswered : Response String × Server → Type 0
  IsAnswered (ok id, s') = (id ≡ job_id) × IsQueued s'
  IsAnswered (http_error code detail, s') = (s' ≡ s) × ((code ≡ 422) ⊎ (code ≡ 500))

  -- what was resolved of the request
  IsResolved : Resolved (List String × Option Object × Option Object) → Type 0
  IsResolved (resolved (names, context, overrides)) =
      resolve_verify_budget_overrides intake q.reasoning_preset q.budget_overrides
      ≡ resolved overrides
  IsResolved other = Unit

  resolve_request-IsResolved : IsResolved (resolve_request intake q)
  unfolding resolve_request IsResolved
  resolve_request-IsResolved = names (intake.validate_preamble_names q.preamble_names)
    where
      budget :
          (ns : List String) (context : Option Object) (x : Resolved (Option Object))
          → resolve_verify_budget_overrides intake q.reasoning_preset q.budget_overrides ≡ x
          → IsResolved (elim x [
            | value_error m ↦ value_error m
            | other_error m ↦ other_error m
            | resolved overrides ↦ resolved (ns, context, overrides)
          ])
      budget ns context (value_error m) e = tt
      budget ns context (other_error m) e = tt
      budget ns context (resolved overrides) e = e

      contexts :
          (ns : List String) (x : Resolved (Option Object))
          → IsResolved (elim x [
            | value_error m ↦ value_error m
            | other_error m ↦ other_error m
            | resolved context ↦
                elim (resolve_verify_budget_overrides intake q.reasoning_preset
                  q.budget_overrides) [
                    | value_error m ↦ value_error m
                    | other_error m ↦ other_error m
                    | resolved overrides ↦ resolved (ns, context, overrides)
                  ]
          ])
      contexts ns (value_error m) = tt
      contexts ns (other_error m) = tt
      contexts ns (resolved context) = budget ns context _ refl

      names :
          (x : Resolved (List String))
          → IsResolved (elim x [
            | value_error m ↦ value_error m
            | other_error m ↦ other_error m
            | resolved ns ↦
                elim (intake.resolve_verify_formalization_context q.formalization_context ns) [
                  | value_error m ↦ value_error m
                  | other_error m ↦ other_error m
                  | resolved context ↦
                      elim (resolve_verify_budget_overrides intake q.reasoning_preset
                        q.budget_overrides) [
                          | value_error m ↦ value_error m
                          | other_error m ↦ other_error m
                          | resolved overrides ↦ resolved (ns, context, overrides)
                        ]
                ]
          ])
      names (value_error m) = tt
      names (other_error m) = tt
      names (resolved ns) =
          contexts ns (intake.resolve_verify_formalization_context q.formalization_context ns)

  queue_job-IsQueued :
      (code : String) (names : List String) (context overrides : Option Object)
      → code ≡ strip q.theorem_code
      → looks_like_formalized_theorem code ≡ true
      → resolve_verify_budget_overrides intake q.reasoning_preset q.budget_overrides
        ≡ resolved overrides
      → IsQueued (queue_job intake job_id now queued_at code q (names, context, overrides) s)
  unfolding queue_job create new_job
  queue_job-IsQueued code names context overrides c l b = record {
    task = record {
      job_id = job_id;
      theorem_code = code;
      explain = q.explain;
      formalization_context = context;
      reasoning_preset = q.reasoning_preset;
      budget_overrides = overrides;
    };
    waiting = refl;
    same_job = refl;
    code = c;
    stub = l;
    budget = overrides;
    resolvable = b;
    passed_on = refl;
    job = _;
    stored = get-put_self job_id _ s.job_store.jobs;
    fresh = refl;
  }

  -- A verify request is either refused, with 422 or 500, and then the server is as it was; or it is
  -- accepted under the fresh id, and then its job is stored as queued and one background task waits
  -- behind those that did, with the theorem without the spaces around it, which looks like a theorem
  -- with a stub for its proof, and with the overrides of a budget that can be resolved.
  pub verify_endpoint-IsAnswered : IsAnswered (verify_endpoint intake job_id now queued_at q s)
  unfolding verify_endpoint require_non_empty
  verify_endpoint-IsAnswered = nonempty (is_empty (strip q.theorem_code))
    where
      requested :
          (x : Resolved (List String × Option Object × Option Object))
          → IsResolved x
          → looks_like_formalized_theorem (strip q.theorem_code) ≡ true
          → IsAnswered (elim x [
            | value_error m ↦ (http_error 422 m, s)
            | other_error m ↦ (http_error 500 m, s)
            | resolved r ↦
                (ok job_id, queue_job intake job_id now queued_at (strip q.theorem_code) q r s)
          ])
      requested (value_error m) h l = (refl, inl refl)
      requested (other_error m) h l = (refl, inr refl)
      requested (resolved (names, context, overrides)) h l = (
        refl,
        queue_job-IsQueued (strip q.theorem_code) names context overrides refl l
            (unfold IsResolved in h),
      )

      looks :
          (b : Bool)
          → looks_like_formalized_theorem (strip q.theorem_code) ≡ b
          → IsAnswered (elim b [
            | false ↦ (
              http_error 422
                  "`theorem_code` must be a Lean theorem/lemma/example with a `:= by sorry` proof stub.",
              s,
            )
            | true ↦ elim (resolve_request intake q) [
              | value_error m ↦ (http_error 422 m, s)
              | other_error m ↦ (http_error 500 m, s)
              | resolved r ↦
                  (ok job_id, queue_job intake job_id now queued_at (strip q.theorem_code) q r s)
            ]
          ])
      looks false l = (refl, inl refl)
      looks true l = requested (resolve_request intake q) resolve_request-IsResolved l

      nonempty :
          (b : Bool)
          → IsAnswered (elim (if b then none else some (strip q.theorem_code)) [
            | none ↦ (http_error 422 "`theorem_code` must not be blank.", s)
            | some theorem_code ↦ elim (looks_like_formalized_theorem theorem_code) [
              | false ↦ (
                http_error 422
                    "`theorem_code` must be a Lean theorem/lemma/example with a `:= by sorry` proof stub.",
                s,
              )
              | true ↦ elim (resolve_request intake q) [
                | value_error m ↦ (http_error 422 m, s)
                | other_error m ↦ (http_error 500 m, s)
                | resolved r ↦ (ok job_id, queue_job intake job_id now queued_at theorem_code q r s)
              ]
            ]
          ])
      nonempty true = (refl, inl refl)
      nonempty false = looks (looks_like_formalized_theorem (strip q.theorem_code)) refl
