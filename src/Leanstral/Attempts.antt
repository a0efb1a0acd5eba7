-- ===== src/Leanstral/Attempts.antt =====
-- How a call of the model goes: retries within their limits, one last attempt, and one record.
use lean_econ_api.Prelude.{
  ℕ, zero, suc, ◌+◌, ◌≤◌, ◌<◌, String, Bool, true, false, none, some, List, ◌≡◌, refl, arith, leb,
}
use lean_econ_api.Leanstral.{
  ClientError, Completion, content, unreadable, refused, Trial, CallRecord, answered, Ending,
  limit_of, end_call, give_up, note_error, wait, after_error, try_complete, call_leanstral,
  max_retries, max_retries_rate_limit,
}

module _ {R W : Type 0} (lower : String → String) (sleep : ℕ → W → W) (endpoint : String)
    (complete : W → Completion R W) where
  -- The attempt at `t` failed by the exception `e`, which leaves `u`.
  pub data Fails (t : Trial R W) (e : ClientError) : Trial R W → Type 0 where
    by_content :
        {r : R} {w : W}
        → complete t.world ≡ unreadable e r w
        → Fails t e (note_error lower sleep endpoint complete e (some r) w t)
    by_raise :
        {w : W}
        → complete t.world ≡ refused e w
        → Fails t e (note_error lower sleep endpoint complete e t.response w t)

  -- The attempts from number `a` at `t` up to before number `b` at `v` failed, each with an
  -- exception whose limit was not reached, and each was waited for.
  pub data Retried : ℕ → Trial R W → ℕ → Trial R W → Type 0 where
    at_once : {a : ℕ} {t : Trial R W} → Retried a t a t
    again :
        {a b : ℕ} {t u v : Trial R W} {e : ClientError}
        → Fails t e u
        → a < limit_of lower sleep endpoint complete e
        → Retried (a + 1) (wait lower sleep endpoint complete e a u) b v
        → Retried a t b v

  -- The last attempt, number `b` at `v`: its content, or an exception whose limit is reached.
  pub data IsLast (out : List (CallRecord R)) (b : ℕ) (v : Trial R W) : Ending R W → Type 0 where
    by_answer :
        {text : String} {r : R} {w : W}
        → complete v.world ≡ content text r w
        → IsLast out b v (
            end_call lower sleep endpoint complete out
              (answered text)
              (record v { world = w; response = some r }))
    by_limit :
        {e : ClientError} {u : Trial R W}
        → Fails v e u
        → limit_of lower sleep endpoint complete e ≤ b
        → IsLast out b v (give_up lower sleep endpoint complete out u)

  pub record IsCall (out : List (CallRecord R)) (a : ℕ) (t : Trial R W) (x : Ending R W)
      : Type 0 where
    pub attempts : ℕ
    pub before_last : Trial R W
    pub retried : Retried a t attempts before_last
    pub bounded : attempts ≤ max_retries_rate_limit
    pub counted : before_last.retry_count + a ≡ t.retry_count + attempts
    pub last : IsLast out attempts before_last x

  limit_of-le : (e : ClientError) → limit_of lower sleep endpoint complete e ≤ 4
  unfolding limit_of
  limit_of-le e = ground arith

  try_complete-IsCall :
      (left a : ℕ) (out : List (CallRecord R)) (t : Trial R W)
      → left + a ≡ 5
      → a ≤ 4
      → IsCall out a t (try_complete lower sleep endpoint complete left a out t)
  unfolding try_complete after_error
  try_complete-IsCall zero a out t s l = absurd (omega (arith, s, l))
  try_complete-IsCall (suc left) a out t s l =
      go (complete t.world) refl (try_complete-IsCall left (a + 1) out)
    where
      Later : Type 0
      Later =
          (u : Trial R W)
          → left + (a + 1) ≡ 5
          → a + 1 ≤ 4
          → IsCall out (a + 1) u (try_complete lower sleep endpoint complete left (a + 1) out u)

      split :
          (e : ClientError) (u : Trial R W) (b : Bool)
          → leb u.max_attempts a ≡ b
          → u.max_attempts ≡ limit_of lower sleep endpoint complete e
          → u.retry_count ≡ t.retry_count
          → Fails t e u
          → Later
          → IsCall out a t (elim b [
            | true ↦ give_up lower sleep endpoint complete out u
            | false ↦
                try_complete lower sleep endpoint complete left
                  (a + 1)
                  out
                  (wait lower sleep endpoint complete e a u)
          ])
      split e u true q m c f later = record {
        attempts = a;
        before_last = t;
        retried = at_once;
        bounded = l;
        counted = refl;
        last = by_limit f (ground (arith, q, m));
      }
      split e u false q m c f later =
          let below : a < limit_of lower sleep endpoint complete e = ground (arith, q, m) in
          let rest =
            later (wait lower sleep endpoint complete e a u) (omega (arith, s))
              (omega (arith, below, limit_of-le e)) in
          record {
            attempts = rest.attempts;
            before_last = rest.before_last;
            retried = again f below rest.retried;
            bounded = rest.bounded;
            counted = omega (arith, rest.counted, c);
            last = rest.last;
          }

      go :
          (x : Completion R W)
          → complete t.world ≡ x
          → Later
          → IsCall out a t (elim x [
            | content text r w ↦
                end_call lower sleep endpoint complete out
                  (answered text)
                  (record t { world = w; response = some r })
            | unreadable e r w ↦
                after_error lower sleep endpoint complete out
                  (try_complete lower sleep endpoint complete left (a + 1) out)
                  a
                  e
                  (note_error lower sleep endpoint complete e (some r) w t)
            | refused e w ↦
                after_error lower sleep endpoint complete out
                  (try_complete lower sleep endpoint complete left (a + 1) out)
                  a
                  e
                  (note_error lower sleep endpoint complete e t.response w t)
          ])
      go (content text r w) h later = record {
        attempts = a;
        before_last = t;
        retried = at_once;
        bounded = l;
        counted = refl;
        last = by_answer h;
      }
      go (unreadable e r w) h later = split e _ _ refl refl refl (by_content h) later
      go (refused e w) h later = split e _ _ refl refl refl (by_raise h) later

  -- A call of the model makes at most four attempts. Each attempt but the last failed by an exception
  -- whose limit, four for a rate limit and two for any other, was above the number of the attempt,
  -- and was waited for and counted. The last gave the content, or an exception whose limit was
  -- reached. Either way the call leaves one record of telemetry behind those that were there, and
  -- its retries are the attempts but one.
  pub call_leanstral-IsCall :
      (out : List (CallRecord R)) (w : W)
      → IsCall out 1
          (record {
            world = w;
            response = none;
            last_error = none;
            retry_count = 0;
            max_attempts = max_retries;
          })
          (call_leanstral lower sleep endpoint complete out w)
  unfolding call_leanstral
  call_leanstral-IsCall out w = try_complete-IsCall 4 1 out _ refl (omega arith)
