-- ===== src/Prover/Guard/Verdicts.antt =====
-- What it means for the guard to let a call run.
use lean_econ_api.Prelude.{ℕ, ◌<◌, true, false, ◌≡◌, arith, ◌==◌}
use lean_econ_api.Prover.Tracker
use lean_econ_api.Prover.Tracker.{
  AgenticToolTracker, is_search_tool, apply_tactic, lean_diagnostic_messages, one_of,
}
use lean_econ_api.Prover.Trace.{has_failed_tactic_attempt}
use lean_econ_api.Prover.Guard.{Context, State, FunctionCall, run, verdict, signature_of}

-- The conditions under which a tool runs.
pub record MayRun {W J : Type 0} (ctx : Context W J) (call : FunctionCall J) (s : State W J)
    : Type 0 where
  pub budget_left : s.tracker.total_tool_calls < s.tracker.max_total_tool_calls
  pub registered : ctx.is_registered call.name ≡ true
  pub no_loop :
      call.name == apply_tactic ≡ false
      → s.tracker.consecutive_read_only_calls < s.tracker.max_consecutive_read_only_calls
  pub checked :
      call.name == apply_tactic ≡ true → s.tracker.consecutive_apply_without_diagnostics < 5
  pub proven : is_search_tool call.name ≡ true → has_failed_tactic_attempt s.log ≡ true
  pub search_left :
      is_search_tool call.name ≡ true
      → s.tracker.total_search_calls < s.tracker.max_search_tool_calls
  pub fresh :
      Tracker.is_duplicate_read_only_call s.tracker call.name (signature_of ctx 0 call) ≡ false

module _ {W J : Type 0} (ctx : Context W J) (n : ℕ) (call : FunctionCall J) where
  pub run-MayRun : (s : State W J) → verdict ctx n call s ≡ run → MayRun ctx call s
  unfolding verdict signature_of Tracker.has_exhausted_total_budget
      Tracker.has_exhausted_search_budget Tracker.has_read_only_loop Tracker.should_block_apply
  run-MayRun s h = record {
    budget_left = ground arith;
    registered = ground arith;
    no_loop = ground arith;
    checked = ground arith;
    proven = ground arith;
    search_left = ground arith;
    fresh = ground arith;
  }
