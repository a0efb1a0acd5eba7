-- ===== src/Jobs/Expiry.antt =====
-- Expiry: what a store still answers for after `_cleanup_expired`.
use lean_econ_api.Prelude.{
  ℕ, String, Bool, false, Option, none, some, List, [], ◌∷◌, ◌≡◌, refl, arith, ◌||◌, ◌==◌, eq_iff,
  if◌then◌else◌,
}
use lean_econ_api.Dict
use lean_econ_api.Dict.{Dict, Distinct}
use lean_econ_api.Dict.Laws.{get-remove}
use lean_econ_api.Jobs.{
  Job, JobStore, is_expired, expired_ids, drop_jobs, cleanup_expired, get, subscribers_of,
}

abbrev pub mem : String → List String → Bool
mem j [] = false
mem j (k ∷ ks) = k == j || mem j ks

module _ {Py : Type 0} where
  -- The job, unless it is too old.
  unfoldable pub unexpired : ℕ → ℕ → Option (Job Py) → Option (Job Py)
  unexpired ttl now none = none
  unexpired ttl now (some job) = if is_expired ttl now job then none else some job

  abbrev pub expired : ℕ → ℕ → Option (Job Py) → Bool
  expired ttl now none = false
  expired ttl now (some job) = is_expired ttl now job

  pub get-drop_jobs :
      (j : String) (ks : List String) (s : JobStore Py)
      → Dict.get j (drop_jobs ks s).jobs ≡ (if mem j ks then none else Dict.get j s.jobs)
  unfolding drop_jobs
  get-drop_jobs j [] s = refl
  get-drop_jobs j (k ∷ ks) s = ground (
    arith,
    get-drop_jobs j ks
        (record s { jobs = Dict.remove k s.jobs; subscribers = Dict.remove k s.subscribers }),
    get-remove k j s.jobs,
  )

  subscribers-drop_jobs :
      (j : String) (ks : List String) (s : JobStore Py)
      → Dict.get j (drop_jobs ks s).subscribers
        ≡ (if mem j ks then none else Dict.get j s.subscribers)
  unfolding drop_jobs
  subscribers-drop_jobs j [] s = refl
  subscribers-drop_jobs j (k ∷ ks) s = ground (
    arith,
    subscribers-drop_jobs j ks
        (record s { jobs = Dict.remove k s.jobs; subscribers = Dict.remove k s.subscribers }),
    get-remove k j s.subscribers,
  )

  mem-absent :
      (ttl now : ℕ) (j : String) (jobs : Dict (Job Py))
      → Dict.contains j jobs ≡ false
      → mem j (expired_ids ttl now jobs) ≡ false
  unfolding expired_ids Dict.contains
  mem-absent ttl now j [] h = refl
  mem-absent ttl now j ((k, job) ∷ jobs) h = ground (arith, mem-absent ttl now j jobs)

  mem-expired_ids :
      (ttl now : ℕ) (j : String) (jobs : Dict (Job Py))
      → Distinct jobs
      → mem j (expired_ids ttl now jobs) ≡ expired ttl now (Dict.get j jobs)
  unfolding expired_ids Dict.get
  mem-expired_ids ttl now j [] u = refl
  mem-expired_ids ttl now j ((k, job) ∷ jobs) u =
      ground (arith, mem-expired_ids ttl now j jobs u.1, mem-absent ttl now k jobs u.0, eq_iff k j)

  -- `get` answers with the job exactly when it is stored and not older than the TTL, whatever else
  -- is cleaned up on the way.
  pub get-unexpired :
      (j : String) (now : ℕ) (s : JobStore Py)
      → Distinct s.jobs
      → (get j now s).0 ≡ unexpired s.ttl now (Dict.get j s.jobs)
  unfolding get cleanup_expired unexpired
  get-unexpired j now s u = ground (
    arith,
    get-drop_jobs j (expired_ids s.ttl now s.jobs) s,
    mem-expired_ids s.ttl now j s.jobs u,
  )

  -- A cleanup drops the subscribers of the expired jobs and of no other job.
  subscribers-cleanup_expired :
      (j : String) (now : ℕ) (s : JobStore Py)
      → Distinct s.jobs
      → subscribers_of j (cleanup_expired now s)
        ≡ (if expired s.ttl now (Dict.get j s.jobs) then [] else subscribers_of j s)
  unfolding cleanup_expired
  subscribers-cleanup_expired j now s u = ground (
    arith,
    subscribers-drop_jobs j (expired_ids s.ttl now s.jobs) s,
    mem-expired_ids s.ttl now j s.jobs u,
  )
