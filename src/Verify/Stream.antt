-- ===== src/Verify/Stream.antt =====
-- `stream_job_events` of src/api.py: the stream of one client, over the job store that others change
-- between its passes. `json.dumps` of an event is left out: a frame is the event, or a keepalive.
pub mod Frames
pub mod Finish
use lean_econ_api.Prelude.{
  ℕ, zero, suc, ◌+◌, String, Bool, true, false, Option, none, some, List, [], ◌∷◌, if◌then◌else◌,
}
use lean_econ_api.Text.{is_empty}
use lean_econ_api.Json.{Value}
use lean_econ_api.Jobs
use lean_econ_api.Jobs.{
  Job, JobStore, JobStatus, queued, running, completed, failed, Event, progress, complete_event,
  update, subscribe, unsubscribe,
}
use lean_econ_api.Verify.{Response, ok, http_error}

pub data Frame : Type 0 where
  data_frame : Event → Frame
  keepalive : Frame

-- `status in (JobStatus.COMPLETED, JobStatus.FAILED)`
abbrev pub is_finished : JobStatus → Bool
is_finished completed = true
is_finished failed = true
is_finished queued = false
is_finished running = false

-- `event.get("type") == "complete"`
abbrev pub is_complete : Event → Bool
is_complete (progress stage message status) = false
is_complete (complete_event status error) = true

-- the error, where it is a non-empty text
abbrev pub shown_error : Option String → Option String
shown_error none = none
shown_error (some e) = if is_empty e then none else some e

-- the event that the stream makes of a finished job
unfoldable pub final_event : Job Value → Event
unfolding is_empty
final_event job = complete_event job.status (shown_error job.error)

-- What a stream has sent, in order, whether it broke off by itself, and the store.
pub record Streamed : Type 0 where
  pub frames : List Frame
  pub ended : Bool
  pub job_store : JobStore Value

-- the pop of an event from a queue
abbrev pub pop : ℕ → List Event → JobStore Value → JobStore Value
pop q events s = record s { contents = update s.contents q events }

abbrev pub sent : Frame → Streamed → Streamed
sent f x = record x { frames = f ∷ x.frames }

module _ (job_id : String) (subscriber : ℕ) where
  -- the test of a poll that found the job or not
  unfoldable pub after_poll :
      (JobStore Value → Streamed) → Option (Job Value) → JobStore Value → Streamed
  unfolding final_event
  after_poll next_passes none s = next_passes s
  after_poll next_passes (some job) s =
      if is_finished job.status
      then record { frames = data_frame (final_event job) ∷ []; ended = true; job_store = s }
      else next_passes s

  -- One pass of the loop, with what the next passes do: an event from the queue, or a keepalive and a
  -- poll where it is empty.
  unfoldable pub stream_pass :
      ℕ → (JobStore Value → Streamed) → List Event → JobStore Value → Streamed
  unfolding after_poll Jobs.get
  stream_pass now next_passes [] s =
      let (current, s') = Jobs.get job_id now s in
      sent keepalive (after_poll next_passes current s')
  stream_pass now next_passes (event ∷ events) s =
      if is_complete event
      then record {
        frames = data_frame event ∷ [];
        ended = true;
        job_store = pop subscriber events s;
      }
      else sent (data_frame event) (next_passes (pop subscriber events s))

  module _ (clock : ℕ → ℕ) (others : ℕ → JobStore Value → JobStore Value) where
    -- The loop of `event_generator`, for a client that stays for at most `passes` passes. Before
    -- pass number `n` the others do `others n`.
    unfoldable pub event_loop : ℕ → ℕ → JobStore Value → Streamed
    unfolding stream_pass
    event_loop zero n s = record { frames = []; ended = false; job_store = s }
    event_loop (suc passes) n s =
        let next_passes = event_loop passes (n + 1) in
        let s' = others n s in stream_pass (clock n) next_passes (s'.contents subscriber) s'

    -- `event_generator`: the queue is given back at the end, also when the client leaves.
    unfoldable pub event_generator : ℕ → JobStore Value → Streamed
    unfolding event_loop unsubscribe
    event_generator passes s =
        let x = event_loop passes 0 s in
        record x { job_store = unsubscribe job_id subscriber x.job_store }

-- `stream_job_events`, at the time `now`
unfoldable pub stream_job_events :
    String
    → ℕ
    → (ℕ → ℕ)
    → (ℕ → JobStore Value → JobStore Value)
    → ℕ
    → JobStore Value
    → Response Streamed
unfolding event_generator final_event Jobs.get subscribe
stream_job_events job_id now clock others passes s =
    let (found, s') = Jobs.get job_id now s in
    elim found [
      | none ↦ http_error 404 "Job not found or expired."
      | some job ↦ elim (is_finished job.status) [
        | true ↦
            ok (record { frames = data_frame (final_event job) ∷ []; ended = true; job_store = s' })
        | false ↦
            let (subscriber, s'') = subscribe job_id s' in
            ok (event_generator job_id subscriber clock others passes s'')
      ]
    ]
