-- ===== src/Jobs.antt =====
-- src/job_store.py: the in-memory job store with its subscriber queues. The lock makes each method
-- one step; the readings of the clock that a method takes are its arguments. The proofs are in the
-- modules below.
pub mod Expiry
pub mod Queues
pub mod Delivery
pub mod Lifecycle
use lean_econ_api.Prelude.{
  ℕ, suc, ◌+◌, String, Bool, true, false, Option, none, some, List, [], ◌∷◌, ◌++◌, ◌&&◌, ◌||◌, not,
  ltb, eqb, ◌==◌, length, if◌then◌else◌, is_some,
}
use lean_econ_api.Dict
use lean_econ_api.Dict.{Dict}

pub data JobStatus : Type 0 where
  queued running completed failed : JobStatus

-- The value of one key of `_jobs`. `Py` stands for the Python values that the store only passes on.
pub record Job (Py : Type 0) : Type 0 where
  pub status : JobStatus
  pub result : Option Py
  pub error : Option String
  pub created_at : ℕ
  pub queued_at : ℕ
  pub started_at : Option ℕ
  pub finished_at : Option ℕ
  pub last_progress_at : Option ℕ
  pub current_stage : Option String
  pub stage_timings : Dict Py
  pub request : Option Py

-- The events that the store and the verify job publish.
pub data Event : Type 0 where
  progress : String → String → String → Event
  complete_event : JobStatus → Option String → Event

-- A queue is known by its number; `contents` has the events that it holds, oldest first.
pub record JobStore (Py : Type 0) : Type 0 where
  pub jobs : Dict (Job Py)
  pub subscribers : Dict (List ℕ)
  pub contents : ℕ → List Event
  pub next_queue : ℕ
  pub ttl : ℕ

-- `queue.Queue(maxsize=100)`
abbrev pub queue_size : ℕ
queue_size = 100

abbrev pub update {ℓ} : {A : Type ℓ} → (ℕ → A) → ℕ → A → ℕ → A
update f q a p = if eqb p q then a else f p

-- `subscriber in subscribers` and `subscribers.remove(subscriber)`
unfoldable pub has : ℕ → List ℕ → Bool
has q [] = false
has q (p ∷ ps) = eqb p q || has q ps

unfoldable pub remove_first : ℕ → List ℕ → List ℕ
remove_first q [] = []
remove_first q (p ∷ ps) = if eqb p q then ps else p ∷ remove_first q ps

-- `put_nowait`, where a full queue is skipped
unfoldable pub offer : Event → ℕ → (ℕ → List Event) → ℕ → List Event
offer event q contents =
    if ltb (length (contents q)) queue_size
    then update contents q (contents q ++ event ∷ [])
    else contents

unfoldable pub offer_all : Event → List ℕ → (ℕ → List Event) → ℕ → List Event
offer_all event [] contents = contents
offer_all event (q ∷ qs) contents = offer_all event qs (offer event q contents)

abbrev pub or_else : Option ℕ → ℕ → Option ℕ
or_else none t = some t
or_else (some s) t = some s

-- `stage`, where it is a non-empty text
abbrev pub named : Option String → Option String
named none = none
named (some s) = if s == "" then none else some s

-- `status != "done" or current_stage in (None, stage)`
abbrev moves_stage : Option String → String → Option String → Bool
moves_stage none stage current = true
moves_stage (some status) stage none = true
moves_stage (some status) stage (some old) = not (status == "done") || old == stage

module _ {Py : Type 0} where
  unfoldable pub init : ℕ → JobStore Py
  init ttl = record { jobs = []; subscribers = []; contents = λ _. []; next_queue = 0; ttl = ttl }

  unfoldable pub new_job : Option Py → ℕ → ℕ → Job Py
  new_job request now queued_at = record {
    status = queued;
    result = none;
    error = none;
    created_at = now;
    queued_at = queued_at;
    started_at = none;
    finished_at = none;
    last_progress_at = none;
    current_stage = none;
    stage_timings = [];
    request = request;
  }

  -- `create`; `job_id` is the fresh `uuid4`.
  unfoldable pub create : String → Option Py → ℕ → ℕ → JobStore Py → JobStore Py
  unfolding new_job
  create job_id request now queued_at s = record s {
    jobs = Dict.put job_id (new_job request now queued_at) s.jobs;
  }

  -- `if job_id in self._jobs: …`
  unfoldable pub modify : String → (Job Py → Job Py) → JobStore Py → JobStore Py
  modify job_id f s = elim (Dict.get job_id s.jobs) [
    | none ↦ s
    | some job ↦ record s { jobs = Dict.put job_id (f job) s.jobs }
  ]

  unfoldable pub set_status : JobStatus → ℕ → Job Py → Job Py
  set_status running now job = record job {
    status = running;
    started_at = or_else job.started_at now;
  }
  set_status status now job = record job { status = status }

  unfoldable pub update_status : String → JobStatus → ℕ → JobStore Py → JobStore Py
  update_status job_id status now = modify job_id (set_status status now)

  abbrev set_stage : Option String → Option String → Job Py → Job Py
  set_stage none status job = job
  set_stage (some stage) status job =
      if moves_stage status stage job.current_stage
      then record job { current_stage = some stage }
      else job

  abbrev set_timing : Option String → Option Py → Job Py → Job Py
  set_timing (some stage) (some ms) job = record job {
    stage_timings = Dict.put stage ms job.stage_timings;
  }
  set_timing _ _ job = job

  unfoldable pub progress_job : Option String → Option String → Option Py → ℕ → Job Py → Job Py
  progress_job stage status elapsed_ms now job =
      set_timing (named stage) elapsed_ms
        (set_stage (named stage) status (record job { last_progress_at = some now }))

  unfoldable pub record_progress :
      String → Option String → Option String → Option Py → ℕ → JobStore Py → JobStore Py
  record_progress job_id stage status elapsed_ms now =
      modify job_id (progress_job stage status elapsed_ms now)

  abbrev pub subscribers_of : String → JobStore Py → List ℕ
  subscribers_of job_id s = elim (Dict.get job_id s.subscribers) [ none ↦ [] | some qs ↦ qs ]

  unfoldable pub subscribe : String → JobStore Py → ℕ × JobStore Py
  subscribe job_id s = (
    s.next_queue,
    record s {
      subscribers = Dict.put job_id (subscribers_of job_id s ++ s.next_queue ∷ []) s.subscribers;
      contents = update s.contents s.next_queue [];
      next_queue = suc s.next_queue;
    },
  )

  -- What `unsubscribe` leaves under the job's key.
  abbrev pub keep_subscribers : String → List ℕ → JobStore Py → JobStore Py
  keep_subscribers job_id [] s = record s { subscribers = Dict.remove job_id s.subscribers }
  keep_subscribers job_id (q ∷ qs) s = record s {
    subscribers = Dict.put job_id (q ∷ qs) s.subscribers;
  }

  unfoldable pub unsubscribe : String → ℕ → JobStore Py → JobStore Py
  unsubscribe job_id subscriber s = elim (subscribers_of job_id s) [
    | [] ↦ s
    | q ∷ qs ↦
        keep_subscribers job_id
          (if has subscriber (q ∷ qs) then remove_first subscriber (q ∷ qs) else q ∷ qs) s
  ]

  unfoldable pub publish : String → Event → JobStore Py → JobStore Py
  publish job_id event s = record s {
    contents = offer_all event (subscribers_of job_id s) s.contents;
  }

  -- `finished_at` is one reading of the clock, `started` another.
  unfoldable pub finish_job : ℕ → ℕ → Job Py → Job Py
  finish_job started finished job = record job {
    started_at = or_else job.started_at started;
    finished_at = some finished;
    last_progress_at = or_else job.last_progress_at finished;
  }

  unfoldable pub complete_job : Py → ℕ → ℕ → Job Py → Job Py
  unfolding finish_job
  complete_job result started finished job =
      finish_job started finished (record job { status = completed; result = some result })

  unfoldable pub complete : String → Py → ℕ → ℕ → JobStore Py → JobStore Py
  complete job_id result started finished s =
      publish job_id (complete_event completed none)
        (modify job_id (complete_job result started finished) s)

  unfoldable pub fail_job : String → ℕ → ℕ → Job Py → Job Py
  unfolding finish_job
  fail_job error started finished job =
      finish_job started finished (record job { status = failed; error = some error })

  unfoldable pub fail : String → String → ℕ → ℕ → JobStore Py → JobStore Py
  fail job_id error started finished s =
      publish job_id (complete_event failed (some error))
        (modify job_id (fail_job error started finished) s)

  -- `now - created_at > ttl`, on numbers that do not go below 0
  unfoldable pub is_expired : ℕ → ℕ → Job Py → Bool
  is_expired ttl now job = ltb (job.created_at + ttl) now

  unfoldable pub expired_ids : ℕ → ℕ → Dict (Job Py) → List String
  unfolding is_expired
  expired_ids ttl now [] = []
  expired_ids ttl now ((jid, job) ∷ jobs) =
      let rest = expired_ids ttl now jobs in if is_expired ttl now job then jid ∷ rest else rest

  unfoldable pub drop_jobs : List String → JobStore Py → JobStore Py
  drop_jobs [] s = s
  drop_jobs (jid ∷ jids) s =
      drop_jobs jids
        (record s { jobs = Dict.remove jid s.jobs; subscribers = Dict.remove jid s.subscribers })

  unfoldable pub cleanup_expired : ℕ → JobStore Py → JobStore Py
  unfolding expired_ids drop_jobs
  cleanup_expired now s = drop_jobs (expired_ids s.ttl now s.jobs) s

  unfoldable pub get : String → ℕ → JobStore Py → Option (Job Py) × JobStore Py
  get job_id now s = let s' = cleanup_expired now s in (Dict.get job_id s'.jobs, s')
