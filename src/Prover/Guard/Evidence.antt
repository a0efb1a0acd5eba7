-- ===== src/Prover/Guard/Evidence.antt =====
-- The log of tactic attempts, and why a search is earned.
use lean_econ_api.Prelude.{
  ℕ, zero, suc, ◌<◌, String, Bool, true, false, Option, none, some, List, [], ◌∷◌, ◌++◌, ◌≡◌, refl,
  arith, length, Bool-cases, inl, inr, ap, not, is_some,
}
use lean_econ_api.Prover.Tracker.{
  is_search_tool, note_budget_stop, note_blocked_tool, note_circuit_breaker, note_diagnostic_check,
  note_apply_tactic_executed, note_read_only_tool,
}
use lean_econ_api.Prover.Trace.{
  Attempt, Diagnostics, Resolution, modify_at, give_up, close_pending, settle, settle_pending,
  note_tactic_attempt, resolve_from_diagnostics, has_failed_tactic_attempt, new_attempt,
  append_tool_call,
}
use lean_econ_api.Prover.Guard.{
  Context, State, FunctionCall, Executed, Verdict, run, verdict, enact, refuse, conclude,
  after_tool, note_applied, note_payload, note_executed, guard_call, execute_function_calls,
  pass_state, round_state, payload_of, sanitize_tool_result_text, result_text,
}
use lean_econ_api.Prover.Guard.Loop.{round_keeps}
use lean_econ_api.Prover.Guard.Bounds.{tracker-conclude}
use lean_econ_api.Prover.Guard.Verdicts.{run-MayRun}

-- The attempt at an index has no verdict yet.
pub is_open_at : ℕ → List Attempt → Bool
is_open_at i [] = true
is_open_at zero (a ∷ log) = not (is_some a.successful)
is_open_at (suc i) (a ∷ log) = is_open_at i log

has_failed-give_up :
    (why : Resolution) (i : ℕ) (log : List Attempt)
    → has_failed_tactic_attempt log ≡ true
    → has_failed_tactic_attempt (modify_at (give_up why) i log) ≡ true
unfolding has_failed_tactic_attempt modify_at give_up
has_failed-give_up why i [] h = h
has_failed-give_up why zero (a ∷ log) h = ground arith
has_failed-give_up why (suc i) (a ∷ log) h = ground (arith, has_failed-give_up why i log)

has_failed-settle :
    (d : Diagnostics) (i : ℕ) (log : List Attempt)
    → is_open_at i log ≡ true
    → has_failed_tactic_attempt log ≡ true
    → has_failed_tactic_attempt (modify_at (settle d) i log) ≡ true
unfolding has_failed_tactic_attempt modify_at settle is_open_at
has_failed-settle d i [] o h = h
has_failed-settle d zero (a ∷ log) o h = ground arith
has_failed-settle d (suc i) (a ∷ log) o h = ground (arith, has_failed-settle d i log)

has_failed-append :
    (log log' : List Attempt)
    → has_failed_tactic_attempt log ≡ true
    → has_failed_tactic_attempt (log ++ log') ≡ true
unfolding has_failed_tactic_attempt
has_failed-append [] log' h = cc
has_failed-append (a ∷ log) log' h = ground (arith, has_failed-append log log')

is_open_at-length :
    (log : List Attempt) (a : Attempt)
    → a.successful ≡ none
    → is_open_at (length log) (log ++ a ∷ []) ≡ true
unfolding is_open_at
is_open_at-length [] a h = ground arith
is_open_at-length (b ∷ log) a h = is_open_at-length log a h

abbrev pub pending_open : Option ℕ → List Attempt → Bool
pending_open none log = true
pending_open (some i) log = is_open_at i log

-- The pending attempt is open, and a search has run only after an attempt had failed.
pub record IsEarned {W J : Type 0} (s : State W J) : Type 0 where
  pub opened : pending_open s.recorder.pending_tactic_log_index s.log ≡ true
  pub evidence : 0 < s.tracker.total_search_calls → has_failed_tactic_attempt s.log ≡ true

has_failed-close_pending :
    (why : Resolution) (i : Option ℕ) (log : List Attempt)
    → has_failed_tactic_attempt log ≡ true
    → has_failed_tactic_attempt (close_pending why i log) ≡ true
unfolding close_pending
has_failed-close_pending why none log h = h
has_failed-close_pending why (some i) log h = has_failed-give_up why i log h

has_failed-settle_pending :
    (d : Diagnostics) (i : Option ℕ) (log : List Attempt)
    → pending_open i log ≡ true
    → has_failed_tactic_attempt log ≡ true
    → has_failed_tactic_attempt (settle_pending d i log) ≡ true
unfolding settle_pending
has_failed-settle_pending d none log o h = h
has_failed-settle_pending d (some i) log o h = has_failed-settle d i log o h

-- The log of `t` keeps the failures of the log of `s`, and its pending attempt is open.
record Extends {W J : Type 0} (s t : State W J) : Type 0 where
  pending : pending_open t.recorder.pending_tactic_log_index t.log ≡ true
  failures : has_failed_tactic_attempt s.log ≡ true → has_failed_tactic_attempt t.log ≡ true

module _ {W J : Type 0} (ctx : Context W J) (n : ℕ) where
  Extends-note_applied :
      (t : Option String) (s : State W J)
      → pending_open s.recorder.pending_tactic_log_index s.log ≡ true
      → Extends s (note_applied ctx n t s)
  unfolding note_applied note_tactic_attempt
  Extends-note_applied none s o = record { pending = o; failures = λ h. h }
  Extends-note_applied (some tactic) s o =
      let closed =
        close_pending Resolution.superseded_before_diagnostics s.recorder.pending_tactic_log_index
          s.log in
      record {
        pending =
            is_open_at-length closed (new_attempt closed tactic s.recorder)
              (unfold new_attempt in refl);
        failures = λ h.
            has_failed-append closed _
              (has_failed-close_pending _ s.recorder.pending_tactic_log_index s.log h);
      }

  Extends-note_payload :
      (d : Option Diagnostics) (s : State W J)
      → pending_open s.recorder.pending_tactic_log_index s.log ≡ true
      → Extends s (note_payload ctx n d s)
  unfolding note_payload resolve_from_diagnostics
  Extends-note_payload none s o = record { pending = o; failures = λ h. h }
  Extends-note_payload (some d) s o = record {
    pending = refl;
    failures = has_failed-settle_pending d s.recorder.pending_tactic_log_index s.log o;
  }

  Extends-conclude :
      (call : FunctionCall J) (done : Executed W) (s : State W J)
      → pending_open s.recorder.pending_tactic_log_index s.log ≡ true
      → Extends s (pass_state (conclude ctx n call done s))
  unfolding conclude append_tool_call
  Extends-conclude call done s o =
      let a = Extends-note_applied done.applied (record s { world = done.world }) o in
      let b =
        Extends-note_payload
          (payload_of ctx n call
            (sanitize_tool_result_text call.name (result_text ctx n call done.outcome)))
          (after_tool ctx n done s) (unfold after_tool in a.pending) in
      record { pending = b.pending; failures = λ h. b.failures (a.failures h) }

  search-note_executed :
      (call : FunctionCall J) (s : State W J)
      → is_search_tool call.name ≡ false
      → (note_executed ctx n call s.tracker).total_search_calls ≡ s.tracker.total_search_calls
  unfolding note_executed note_diagnostic_check note_apply_tactic_executed note_read_only_tool
  search-note_executed call s h = ground arith

  enact-IsEarned :
      (call : FunctionCall J) (v : Verdict) (s : State W J)
      → verdict ctx n call s ≡ v
      → IsEarned s
      → IsEarned (pass_state (enact ctx n v call s))
  unfolding enact refuse note_budget_stop note_blocked_tool note_circuit_breaker append_tool_call
  enact-IsEarned call run s e h =
      let x = Extends-conclude call (ctx.execute s.world call) s h.opened in
      let m = run-MayRun ctx n call s e in
      let t = tracker-conclude ctx n call (ctx.execute s.world call) s in
      record {
        opened = x.pending;
        evidence = λ some_search. x.failures (elim (Bool-cases (is_search_tool call.name)) [
          | inl is_search ↦ m.proven is_search
          | inr no_search ↦ h.evidence (
              omega
                (arith, search-note_executed call s no_search, ap (λ u. u.total_search_calls) t))
        ]);
      }
  enact-IsEarned call v s e h = record { opened = h.opened; evidence = h.evidence }

  -- If a search had run only after a failed tactic attempt, and the pending attempt was open, as at
  -- the start of a run, then so it is after any round of calls, also one that raises: no search
  -- tool ever runs before some attempt failed by its diagnostics or was given up.
  pub execute_function_calls-IsEarned :
      (calls : List (FunctionCall J)) (s : State W J)
      → IsEarned s
      → IsEarned (round_state (execute_function_calls ctx n calls s))
  unfolding guard_call
  execute_function_calls-IsEarned =
      round_keeps ctx n IsEarned (λ call s. enact-IsEarned call (verdict ctx n call s) s refl)
