-- ===== src/Prover/Guard/Bounds.antt =====
-- The budgets of a run: what the counters of the tracker never pass, and when the guard stops.
use lean_econ_api.Prelude.{
  ℕ, ◌+◌, ◌≤◌, ◌<◌, String, true, false, ◌≡◌, refl, arith, ◌==◌, eq_iff, Bool-cases, inl, inr, ap,
  ◌∙◌, ◌≢◌, sym, Option, none, some,
}
use mathlib.Core.Path.{subst}
use lean_econ_api.Prover.Tracker
use lean_econ_api.Prover.Tracker.{
  AgenticToolTracker, is_search_tool, apply_tactic, lean_diagnostic_messages, note_budget_stop,
  note_blocked_tool, note_circuit_breaker, note_diagnostic_check, note_apply_tactic_executed,
  note_read_only_tool, new_tracker,
}
use lean_econ_api.Prover.Trace.{Diagnostics}
use lean_econ_api.Prover.Guard.{
  Context, State, FunctionCall, FunctionResult, Verdict, passed, run, exhausted, looping, verdict,
  note_executed, after_tool, note_applied, note_payload, conclude, refuse, enact, Executed,
  pass_state, FunctionResult,
}
use lean_econ_api.Prover.Guard.Verdicts.{MayRun, run-MayRun}

pub record IsBounded (t : AgenticToolTracker) : Type 0 where
  pub total : t.total_tool_calls ≤ t.max_total_tool_calls
  pub search : t.total_search_calls ≤ t.max_search_tool_calls
  pub read_only : t.consecutive_read_only_calls ≤ t.max_consecutive_read_only_calls
  pub unchecked_writes : t.consecutive_apply_without_diagnostics ≤ 5
  pub counted :
      t.total_apply_calls + t.total_diagnostic_calls + t.total_search_calls + t.blocked_tool_calls
      ≤ t.total_tool_calls
  pub hits :
      t.search_budget_hits + t.duplicate_read_only_hits + t.circuit_breaker_hits
      ≤ t.blocked_tool_calls

-- Two trackers with the same limits.
pub record SameLimits (t u : AgenticToolTracker) : Type 0 where
  pub total : u.max_total_tool_calls ≡ t.max_total_tool_calls
  pub search : u.max_search_tool_calls ≡ t.max_search_tool_calls
  pub read_only : u.max_consecutive_read_only_calls ≡ t.max_consecutive_read_only_calls

diagnostic_no_apply :
    (name : String) → name == lean_diagnostic_messages ≡ true → name == apply_tactic ≡ false
diagnostic_no_apply name h = rw ((eq_iff name lean_diagnostic_messages).0 h)

module _ {W J : Type 0} (ctx : Context W J) (n : ℕ) (call : FunctionCall J) where
  tracker-note_applied :
      (t : Option String) (s : State W J) → (note_applied ctx n t s).tracker ≡ s.tracker
  unfolding note_applied
  tracker-note_applied none s = refl
  tracker-note_applied (some t) s = refl

  tracker-after_tool :
      (done : Executed W) (s : State W J) → (after_tool ctx n done s).tracker ≡ s.tracker
  unfolding after_tool
  tracker-after_tool done s = tracker-note_applied done.applied (record s { world = done.world })

  tracker-note_payload :
      (d : Option Diagnostics) (s : State W J) → (note_payload ctx n d s).tracker ≡ s.tracker
  unfolding note_payload
  tracker-note_payload none s = refl
  tracker-note_payload (some d) s = refl

  pub tracker-conclude :
      (done : Executed W) (s : State W J)
      → (pass_state (conclude ctx n call done s)).tracker ≡ note_executed ctx n call s.tracker
  unfolding conclude
  tracker-conclude done s =
      ap (note_executed ctx n call)
        (tracker-note_payload _ (after_tool ctx n done s) ∙ tracker-after_tool done s)

  note_executed-IsBounded :
      (s : State W J)
      → MayRun ctx call s
      → IsBounded s.tracker
      → IsBounded (note_executed ctx n call s.tracker)
  unfolding note_executed note_diagnostic_check note_apply_tactic_executed note_read_only_tool
  note_executed-IsBounded s m b = elim (Bool-cases (call.name == lean_diagnostic_messages)) [
    | inl diagnostic ↦ rw diagnostic (ground (arith, diagnostic_no_apply call.name diagnostic))
    | inr other ↦ rw other (ground arith)
  ]

  budget_left :
      (s : State W J)
      → verdict ctx n call s ≢ exhausted
      → s.tracker.total_tool_calls < s.tracker.max_total_tool_calls
  unfolding verdict Tracker.has_exhausted_total_budget
  budget_left s h = ground arith

  pub enact-IsBounded :
      (v : Verdict) (s : State W J)
      → verdict ctx n call s ≡ v
      → IsBounded s.tracker
      → IsBounded (pass_state (enact ctx n v call s)).tracker
  unfolding enact refuse note_budget_stop note_blocked_tool note_circuit_breaker
  enact-IsBounded run s e b =
      subst IsBounded (sym (tracker-conclude (ctx.execute s.world call) s))
        (note_executed-IsBounded s (run-MayRun ctx n call s e) b)
  enact-IsBounded exhausted s e b = ground arith
  enact-IsBounded looping s e b = ground arith
  enact-IsBounded v s e b = ground (arith, budget_left s (λ x. cc))

  SameLimits-note_executed : (t : AgenticToolTracker) → SameLimits t (note_executed ctx n call t)
  unfolding note_executed note_diagnostic_check note_apply_tactic_executed note_read_only_tool
  SameLimits-note_executed t = ground arith

  pub SameLimits-enact :
      (v : Verdict) (s : State W J)
      → SameLimits s.tracker (pass_state (enact ctx n v call s)).tracker
  unfolding enact refuse note_budget_stop note_blocked_tool note_circuit_breaker
  SameLimits-enact run s =
      subst (SameLimits s.tracker) (sym (tracker-conclude (ctx.execute s.world call) s))
        (SameLimits-note_executed s.tracker)
  SameLimits-enact v s = record { total = refl; search = refl; read_only = refl }

  total-note_executed :
      (t : AgenticToolTracker)
      → (note_executed ctx n call t).total_tool_calls ≡ t.total_tool_calls + 1
  unfolding note_executed note_diagnostic_check note_apply_tactic_executed note_read_only_tool
  total-note_executed t = ground arith

  pub total-enact :
      (v : Verdict) (s s' : State W J) (r : FunctionResult)
      → enact ctx n v call s ≡ passed r s'
      → s'.tracker.total_tool_calls ≡ s.tracker.total_tool_calls + 1
  unfolding enact refuse note_budget_stop note_blocked_tool note_circuit_breaker
  total-enact run s s' r e =
      ap (λ p. (pass_state p).tracker.total_tool_calls) (sym e)
      ∙ ap (λ t. t.total_tool_calls) (tracker-conclude (ctx.execute s.world call) s)
      ∙ total-note_executed s.tracker
  total-enact v s s' r e = ground arith
