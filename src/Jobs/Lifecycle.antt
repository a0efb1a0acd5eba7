-- ===== src/Jobs/Lifecycle.antt =====
-- Every job of a store that is used as api.py uses it: interleavings of the calls as a step
-- relation, and the invariant of the fields of a job.
use lean_econ_api.Prelude.{
  ℕ, String, true, Option, some, List, [], ◌∷◌, ◌≡◌, refl, arith, ◌==◌, Bool-cases, Option-cases,
  inl, inr, is_some,
}
use mathlib.Core.Path.{subst}
use lean_econ_api.Dict
use lean_econ_api.Dict.{Dict, Distinct}
use lean_econ_api.Dict.Laws.{get-put, get-remove, Distinct-put, Distinct-remove}
use lean_econ_api.Jobs.{
  Job, JobStore, running, completed, failed, Event, init, create, new_job, modify, update_status,
  set_status, record_progress, progress_job, subscribe, unsubscribe, publish, complete,
  complete_job, fail, fail_job, drop_jobs, cleanup_expired, get, expired_ids,
}

-- What the fields of a job say about its status.
pub record IsConsistent {Py : Type 0} (job : Job Py) : Type 0 where
  pub running_started : job.status ≡ running → is_some job.started_at ≡ true
  pub completed_result : job.status ≡ completed → is_some job.result ≡ true
  pub completed_finished : job.status ≡ completed → is_some job.finished_at ≡ true
  pub failed_error : job.status ≡ failed → is_some job.error ≡ true
  pub failed_finished : job.status ≡ failed → is_some job.finished_at ≡ true
  pub finished_started : is_some job.finished_at ≡ true → is_some job.started_at ≡ true
  pub finished_progress : is_some job.finished_at ≡ true → is_some job.last_progress_at ≡ true

pub record IsValid {Py : Type 0} (s : JobStore Py) : Type 0 where
  pub distinct : Distinct s.jobs
  pub jobs : (j : String) (job : Job Py) → Dict.get j s.jobs ≡ some job → IsConsistent job

-- One call by a client. Only `RUNNING` is ever handed to `update_status`.
pub data Step {Py : Type 0} (s : JobStore Py) : JobStore Py → Type 0 where
  create_step : (j : String) (q : Option Py) (now t : ℕ) → Step s (create j q now t s)
  start_step : (j : String) (t : ℕ) → Step s (update_status j running t s)
  progress_step :
      (j : String) (stage status : Option String) (ms : Option Py) (t : ℕ)
      → Step s (record_progress j stage status ms t s)
  subscribe_step : (j : String) → Step s (subscribe j s).1
  unsubscribe_step : (j : String) (q : ℕ) → Step s (unsubscribe j q s)
  publish_step : (j : String) (e : Event) → Step s (publish j e s)
  complete_step : (j : String) (r : Py) (t u : ℕ) → Step s (complete j r t u s)
  fail_step : (j : String) (e : String) (t u : ℕ) → Step s (fail j e t u s)
  get_step : (j : String) (now : ℕ) → Step s (get j now s).1

pub data Reach {Py : Type 0} (s : JobStore Py) : JobStore Py → Type 0 where
  here : Reach s s
  next : {t u : JobStore Py} → Reach s t → Step t u → Reach s u

module _ {Py : Type 0} where
  new_job-IsConsistent : (q : Option Py) (now t : ℕ) → IsConsistent (new_job q now t)
  unfolding new_job
  new_job-IsConsistent q now t = ground arith

  set_status-IsConsistent :
      (t : ℕ) (job : Job Py) → IsConsistent job → IsConsistent (set_status running t job)
  unfolding set_status
  set_status-IsConsistent t job h = ground arith

  progress_job-IsConsistent :
      (stage status : Option String) (ms : Option Py) (t : ℕ) (job : Job Py)
      → IsConsistent job
      → IsConsistent (progress_job stage status ms t job)
  unfolding progress_job
  progress_job-IsConsistent stage status ms t job h = ground arith

  complete_job-IsConsistent :
      (r : Py) (t u : ℕ) (job : Job Py) → IsConsistent job → IsConsistent (complete_job r t u job)
  unfolding complete_job
  complete_job-IsConsistent r t u job h = ground arith

  fail_job-IsConsistent :
      (e : String) (t u : ℕ) (job : Job Py) → IsConsistent job → IsConsistent (fail_job e t u job)
  unfolding fail_job
  fail_job-IsConsistent e t u job h = ground arith

  put-IsValid :
      (j : String) (job : Job Py) (s : JobStore Py)
      → IsConsistent job
      → IsValid s
      → IsValid (record s { jobs = Dict.put j job s.jobs })
  put-IsValid j job s c v = record {
    distinct = Distinct-put j job s.jobs v.distinct;
    jobs = λ k other e. elim (Bool-cases (j == k)) [
      | inl same ↦
          let p : job ≡ other = ground (arith, get-put j k job s.jobs) in subst IsConsistent p c
      | inr differs ↦ v.jobs k other (ground (arith, get-put j k job s.jobs))
    ];
  }

  modify-IsValid :
      (j : String) (f : Job Py → Job Py) (s : JobStore Py)
      → ((job : Job Py) → IsConsistent job → IsConsistent (f job))
      → IsValid s
      → IsValid (modify j f s)
  unfolding modify
  modify-IsValid j f s keep v = elim (Option-cases (Dict.get j s.jobs)) [
    | inl absent ↦ rw (absent, modify) v
    | inr (job, found) ↦
        rw (found, modify) (put-IsValid j (f job) s (keep job (v.jobs j job found)) v)
  ]

  drop_jobs-IsValid : (ks : List String) (s : JobStore Py) → IsValid s → IsValid (drop_jobs ks s)
  unfolding drop_jobs
  drop_jobs-IsValid [] s v = v
  drop_jobs-IsValid (k ∷ ks) s v = drop_jobs-IsValid ks _ (record {
    distinct = Distinct-remove k s.jobs v.distinct;
    jobs = λ j job e. ground (arith, get-remove k j s.jobs, v.jobs j job);
  })

  same-jobs : (s t : JobStore Py) → t.jobs ≡ s.jobs → IsValid s → IsValid t
  same-jobs s t e v = record { distinct = rw e v.distinct; jobs = rw e v.jobs }

  Step-IsValid : {s t : JobStore Py} → Step s t → IsValid s → IsValid t
  unfolding create update_status record_progress subscribe unsubscribe publish complete fail get
      cleanup_expired
  Step-IsValid {s} (create_step j q now t) v =
      put-IsValid j (new_job q now t) s (new_job-IsConsistent q now t) v
  Step-IsValid {s} (start_step j t) v =
      modify-IsValid j (set_status running t) s (set_status-IsConsistent t) v
  Step-IsValid {s} (progress_step j stage status ms t) v =
      modify-IsValid j (progress_job stage status ms t) s
        (progress_job-IsConsistent stage status ms t) v
  Step-IsValid {s} (subscribe_step j) v = same-jobs s (subscribe j s).1 refl v
  Step-IsValid {s} (unsubscribe_step j q) v = same-jobs s (unsubscribe j q s) (ground arith) v
  Step-IsValid {s} (publish_step j e) v = same-jobs s (publish j e s) refl v
  Step-IsValid {s} (complete_step j r t u) v =
      let w = modify-IsValid j (complete_job r t u) s (complete_job-IsConsistent r t u) v in
      same-jobs (modify j (complete_job r t u) s) _ refl w
  Step-IsValid {s} (fail_step j e t u) v =
      let w = modify-IsValid j (fail_job e t u) s (fail_job-IsConsistent e t u) v in
      same-jobs (modify j (fail_job e t u) s) _ refl w
  Step-IsValid {s} (get_step j now) v = drop_jobs-IsValid (expired_ids s.ttl now s.jobs) s v

  -- In every store that clients can reach by any interleaving of calls, each job's fields fit its
  -- status: a running job has a start time, a completed one a result and a finish time, a failed
  -- one an error and a finish time, and what is finished was started and has shown progress.
  pub Reach-IsValid : (ttl : ℕ) {s : JobStore Py} → Reach (init ttl) s → IsValid s
  unfolding init Dict.get
  Reach-IsValid ttl here = record { distinct = tt; jobs = λ j job e. cc }
  Reach-IsValid ttl (next r st) = Step-IsValid st (Reach-IsValid ttl r)
