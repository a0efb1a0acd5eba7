-- ===== src/Verify/Stream/Frames.antt =====
-- What a stream sends: a complete event comes last, and only when the stream ends.
use lean_econ_api.Prelude.{
  ℕ, zero, suc, ◌+◌, String, Bool, true, false, Option, none, some, List, [], ◌∷◌, ◌≡◌, refl,
  if◌then◌else◌,
}
use lean_econ_api.Json.{Value}
use lean_econ_api.Jobs
use lean_econ_api.Jobs.{Job, JobStore, Event, subscribe}
use lean_econ_api.Verify.{Response, ok, http_error}
use lean_econ_api.Verify.Stream.{
  Frame, data_frame, keepalive, is_complete, is_finished, Streamed, after_poll, stream_pass,
  event_loop, event_generator, stream_job_events, final_event, pop,
}

-- The frame tells the client that the job is over.
abbrev pub tells_end : Frame → Bool
tells_end keepalive = false
tells_end (data_frame e) = is_complete e

-- The frames of a stream that ended, or not: all but the last of one that ended are progress and
-- keepalives, and the last is the complete event; one that has not ended sent none.
abbrev pub Frames : Bool → List Frame → Type 0
Frames true [] = ⊥
Frames true (f ∷ []) = tells_end f ≡ true
Frames true (f ∷ g ∷ fs) = (tells_end f ≡ false) × Frames true (g ∷ fs)
Frames false [] = Unit
Frames false (f ∷ fs) = (tells_end f ≡ false) × Frames false fs

Frames-cons :
    (b : Bool) (f : Frame) (fs : List Frame) → tells_end f ≡ false → Frames b fs → Frames b (f ∷ fs)
Frames-cons true f [] h k = absurd k
Frames-cons true f (g ∷ fs) h k = (h, k)
Frames-cons false f fs h k = (h, k)

abbrev pub IsWellEnded : Streamed → Type 0
IsWellEnded x = Frames x.ended x.frames

module _ (j : String) (q : ℕ) where
  after_poll-IsWellEnded :
      (rest : JobStore Value → Streamed) (found : Option (Job Value)) (s : JobStore Value)
      → ((t : JobStore Value) → IsWellEnded (rest t))
      → IsWellEnded (after_poll j q rest found s)
  unfolding after_poll final_event
  after_poll-IsWellEnded rest none s h = h s
  after_poll-IsWellEnded rest (some job) s h = go (is_finished job.status)
    where
      go :
          (b : Bool)
          → IsWellEnded (
              if b
              then record {
                frames = data_frame (final_event job) ∷ [];
                ended = true;
                job_store = s;
              }
              else rest s)
      go true = refl
      go false = h s

  stream_pass-IsWellEnded :
      (now : ℕ) (rest : JobStore Value → Streamed) (events : List Event) (s : JobStore Value)
      → ((t : JobStore Value) → IsWellEnded (rest t))
      → IsWellEnded (stream_pass j q now rest events s)
  unfolding stream_pass
  stream_pass-IsWellEnded now rest [] s h =
      let (found, s') = Jobs.get j now s in
      Frames-cons _ keepalive _ refl (after_poll-IsWellEnded rest found s' h)
  stream_pass-IsWellEnded now rest (event ∷ events) s h = go (is_complete event) refl
    where
      go :
          (b : Bool)
          → is_complete event ≡ b
          → IsWellEnded (
              if b
              then record {
                frames = data_frame event ∷ [];
                ended = true;
                job_store = pop q events s;
              }
              else lean_econ_api.Verify.Stream.sent (data_frame event) (rest (pop q events s)))
      go true e = e
      go false e = Frames-cons _ (data_frame event) _ e (h (pop q events s))

  module _ (clock : ℕ → ℕ) (others : ℕ → JobStore Value → JobStore Value) where
    event_loop-IsWellEnded :
        (passes n : ℕ) (s : JobStore Value) → IsWellEnded (event_loop j q clock others passes n s)
    unfolding event_loop
    event_loop-IsWellEnded zero n s = tt
    event_loop-IsWellEnded (suc passes) n s =
        let s' = others n s in
        stream_pass-IsWellEnded (clock n) (event_loop j q clock others passes (n + 1))
          (s'.contents q) s' (event_loop-IsWellEnded passes (n + 1))

abbrev pub IsWellStreamed : Response Streamed → Type 0
IsWellStreamed (ok x) = IsWellEnded x
IsWellStreamed (http_error code detail) = code ≡ 404

-- A stream that is not refused with 404 tells its client of the end of the job at most once, and as
-- the last thing that it sends; it breaks off by itself only after that. This holds whatever
-- the others do to the store between its passes, and whenever the client leaves.
pub stream_job_events-IsWellStreamed :
    (j : String) (now : ℕ) (clock : ℕ → ℕ) (others : ℕ → JobStore Value → JobStore Value)
    (passes : ℕ) (s : JobStore Value)
    → IsWellStreamed (stream_job_events j now clock others passes s)
unfolding stream_job_events event_generator final_event
stream_job_events-IsWellStreamed j now clock others passes s = go (Jobs.get j now s).0
  where
    s' : JobStore Value
    s' = (Jobs.get j now s).1

    split :
        (job : Job Value) (b : Bool)
        → IsWellStreamed (elim b [
          | true ↦
              ok (record {
                frames = data_frame (final_event job) ∷ [];
                ended = true;
                job_store = s';
              })
          | false ↦ ok (event_generator j (subscribe j s').0 clock others passes (subscribe j s').1)
        ])
    split job true = refl
    split job false =
        event_loop-IsWellEnded j (subscribe j s').0 clock others passes 0 (subscribe j s').1

    go :
        (x : Option (Job Value))
        → IsWellStreamed (elim x [
          | none ↦ http_error 404 "Job not found or expired."
          | some job ↦ elim (is_finished job.status) [
            | true ↦ ok (record {
              frames = data_frame (final_event job) ∷ [];
              ended = true;
              job_store = s';
            })
            | false ↦
                ok (event_generator j (subscribe j s').0 clock others passes (subscribe j s').1)
          ]
        ])
    go none = refl
    go (some job) = split job (is_finished job.status)
