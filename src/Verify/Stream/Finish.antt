-- ===== src/Verify/Stream/Finish.antt =====
-- When a stream ends, and when it never does.
use lean_econ_api.Prelude.{
  ℕ, zero, suc, ◌+◌, ◌≤◌, ◌<◌, String, Bool, true, false, Option, none, some, List, [], ◌∷◌, ◌≡◌,
  refl, if◌then◌else◌, arith, length, ◌∙◌, ap, All,
}
use lean_econ_api.Dict
use lean_econ_api.Dict.{Distinct}
use lean_econ_api.Json.{Value}
use lean_econ_api.Jobs
use lean_econ_api.Jobs.{
  Job, JobStore, Event, is_expired, update, drop_jobs, expired_ids, cleanup_expired,
}
use lean_econ_api.Dict.Laws.{get-remove}
use lean_econ_api.Jobs.Expiry.{get-unexpired, unexpired}
use lean_econ_api.Verify.Stream.{
  data_frame, keepalive, is_complete, is_finished, Streamed, after_poll, stream_pass, event_loop,
  pop, sent,
}

module _ (j : String) (q : ℕ) (clock : ℕ → ℕ) (others : ℕ → JobStore Value → JobStore Value) where
  -- The job is stored, has finished, and has not expired at any reading of the clock.
  pub record IsSettled (s : JobStore Value) : Type 0 where
    pub distinct : Distinct s.jobs
    pub job : Job Value
    pub stored : Dict.get j s.jobs ≡ some job
    pub finished : is_finished job.status ≡ true
    pub fresh : (n : ℕ) → is_expired s.ttl (clock n) job ≡ false

  poll-IsSettled :
      (n : ℕ) (s : JobStore Value) (h : IsSettled s) → (Jobs.get j (clock n) s).0 ≡ some h.job
  unfolding unexpired
  poll-IsSettled n s h =
      get-unexpired j (clock n) s h.distinct ∙ rw (h.stored, unexpired, h.fresh n) refl

  pop-IsSettled :
      (events : List Event) (s : JobStore Value) → IsSettled s → IsSettled (pop q events s)
  pop-IsSettled events s h = record {
    distinct = h.distinct;
    job = h.job;
    stored = h.stored;
    finished = h.finished;
    fresh = h.fresh;
  }

  contents-pop : (events : List Event) (s : JobStore Value) → (pop q events s).contents q ≡ events
  contents-pop events s = ground arith

  ended-poll :
      (rest : JobStore Value → Streamed) (x : Option (Job Value)) (job : Job Value)
      (s : JobStore Value)
      → x ≡ some job
      → is_finished job.status ≡ true
      → (after_poll j q rest x s).ended ≡ true
  unfolding after_poll
  ended-poll rest x job s e h = rw (e, after_poll, h) refl

  module _ (keeps : (n : ℕ) (s : JobStore Value) → IsSettled s → IsSettled (others n s))
      (no_more : (n : ℕ) (s : JobStore Value)
        → length ((others n s).contents q) ≤ length (s.contents q)) where
    ended-pass :
        (passes n : ℕ) (events : List Event) (s : JobStore Value)
        → IsSettled s
        → length events ≤ passes
        → ((t : JobStore Value)
            → IsSettled t
            → length (t.contents q) < passes
            → (event_loop j q clock others passes (n + 1) t).ended ≡ true)
        → (stream_pass j q (clock n) (event_loop j q clock others passes (n + 1)) events s).ended
          ≡ true
    unfolding stream_pass
    ended-pass passes n [] s h l later =
        ended-poll (event_loop j q clock others passes (n + 1)) (Jobs.get j (clock n) s).0 h.job _
          (poll-IsSettled n s h) h.finished
    ended-pass passes n (event ∷ events) s h l later = go (is_complete event)
      where
        go :
            (b : Bool)
            → (if b
                then record {
                  frames = data_frame event ∷ [];
                  ended = true;
                  job_store = pop q events s;
                }
                else sent
                    (data_frame event)
                    (event_loop j q clock others passes (n + 1) (pop q events s))).ended
              ≡ true
        go true = refl
        go false =
            later (pop q events s) (pop-IsSettled events s h)
              (omega (arith, l, ap length (contents-pop events s)))

    -- Once its job has finished, is stored and does not expire, a stream ends by itself within one
    -- pass more than its queue holds events, also where the complete event found the queue full and
    -- was dropped. The others may do anything in between that keeps the job so and adds no event.
    pub event_loop-ends :
        (passes n : ℕ) (s : JobStore Value)
        → IsSettled s
        → length (s.contents q) < passes
        → (event_loop j q clock others passes n s).ended ≡ true
    unfolding event_loop
    event_loop-ends zero n s h l = absurd (omega (arith, l))
    event_loop-ends (suc passes) n s h l =
        ended-pass passes n ((others n s).contents q) (others n s) (keeps n s h)
          (omega (arith, l, no_more n s)) (event_loop-ends passes (n + 1))

  -- The job is not stored, and nothing waits in the queue.
  pub record IsForgotten (s : JobStore Value) : Type 0 where
    pub absent : Dict.get j s.jobs ≡ none
    pub quiet : s.contents q ≡ []

  drop_jobs-IsForgotten :
      (ks : List String) (s : JobStore Value) → IsForgotten s → IsForgotten (drop_jobs ks s)
  unfolding drop_jobs
  drop_jobs-IsForgotten [] s h = h
  drop_jobs-IsForgotten (k ∷ ks) s h =
      drop_jobs-IsForgotten ks _
        (record { absent = ground (arith, get-remove k j s.jobs, h.absent); quiet = h.quiet })

  poll-IsForgotten :
      (n : ℕ) (s : JobStore Value)
      → IsForgotten s
      → ((Jobs.get j (clock n) s).0 ≡ none) × IsForgotten (Jobs.get j (clock n) s).1
  unfolding Jobs.get cleanup_expired
  poll-IsForgotten n s h =
      let k = drop_jobs-IsForgotten (expired_ids s.ttl (clock n) s.jobs) s h in (k.absent, k)

  -- The stream goes on, and sends nothing but keepalives.
  pub record IsIdle (x : Streamed) : Type 0 where
    pub goes_on : x.ended ≡ false
    pub keepalives : All (λ f. f ≡ keepalive) x.frames

  after_poll-IsIdle :
      (rest : JobStore Value → Streamed) (x : Option (Job Value)) (s : JobStore Value)
      → x ≡ none
      → IsIdle (rest s)
      → IsIdle (sent keepalive (after_poll j q rest x s))
  unfolding after_poll
  after_poll-IsIdle rest none s e h = record {
    goes_on = h.goes_on;
    keepalives = (refl, h.keepalives);
  }
  after_poll-IsIdle rest (some job) s e h = cc

  module _ (keeps : (n : ℕ) (s : JobStore Value) → IsForgotten s → IsForgotten (others n s)) where
    stream_pass-IsIdle :
        (passes n : ℕ) (events : List Event) (s : JobStore Value)
        → events ≡ []
        → IsForgotten s
        → ((t : JobStore Value)
            → IsForgotten t
            → IsIdle (event_loop j q clock others passes (n + 1) t))
        → IsIdle (stream_pass j q (clock n) (event_loop j q clock others passes (n + 1)) events s)
    unfolding stream_pass
    stream_pass-IsIdle passes n [] s e h later =
        let (none_found, k) = poll-IsForgotten n s h in
        after_poll-IsIdle (event_loop j q clock others passes (n + 1)) (Jobs.get j (clock n) s).0 _
          none_found (later _ k)
    stream_pass-IsIdle passes n (event ∷ events) s e h later = cc

    -- A stream whose job is no longer stored, while its queue is empty and nobody fills it, sends
    -- keepalives and never ends by itself, however long the client stays.
    pub event_loop-IsIdle :
        (passes n : ℕ) (s : JobStore Value)
        → IsForgotten s
        → IsIdle (event_loop j q clock others passes n s)
    unfolding event_loop
    event_loop-IsIdle zero n s h = record { goes_on = refl; keepalives = tt }
    event_loop-IsIdle (suc passes) n s h =
        let k = keeps n s h in
        stream_pass-IsIdle passes n ((others n s).contents q) (others n s) k.quiet k
          (event_loop-IsIdle passes (n + 1))
