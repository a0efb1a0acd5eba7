-- ===== src/Prover/Trace.antt =====
-- `TraceRecorder`, the log of tactic attempts, and the texts that go into both.
use Prim.Native.String.{◌++◌ as ◌<>◌}
use lean_econ_api.Prelude.{
  ℕ, zero, suc, ◌+◌, String, Bool, true, false, Option, none, some, List, [], ◌∷◌, ◌++◌, leb,
  length, if◌then◌else◌, not, ◌||◌,
}
use lean_econ_api.Text.{strip, len, take, is_empty}
use lean_econ_api.Text.Lines.{splitlines, join}
use lean_econ_api.Prover.Tracker.{Arguments, Json, normalize_tool_arguments}

-- `_truncate_text`, of `str(value)`
unfoldable pub truncate_text : String → ℕ → String
truncate_text value limit =
    let text = strip value in if leb (len text) limit then text else take limit text <> "..."

-- The lines that are not blank, stripped.
unfoldable pub strip_lines : List String → List String
strip_lines [] = []
strip_lines (line ∷ lines) =
    let rest = strip_lines lines in if is_empty (strip line) then rest else strip line ∷ rest

-- `_preview_tactic`
unfoldable pub preview_tactic : String → ℕ → String
unfolding strip_lines
preview_tactic tactic limit =
    let collapsed = join " " (strip_lines (splitlines tactic)) in
    if is_empty collapsed
    then "<empty tactic>"
    else if leb (len collapsed) limit
    then collapsed
    else take limit collapsed <> "..."

-- `resolution` of an attempt
pub data Resolution : Type 0 where
  pending_diagnostics superseded_before_diagnostics diagnostics_clean diagnostics_error : Resolution
  unresolved_when_run_ended : Resolution

-- An entry of the tactic log.
pub record Attempt : Type 0 where
  pub attempt_index : ℕ
  pub tactic : String
  pub tactic_preview : String
  pub triggering_errors : List String
  pub triggering_warnings : List String
  pub post_diagnostic_errors : Option (List String)
  pub post_diagnostic_warnings : Option (List String)
  pub successful : Option Bool
  pub resolution : Resolution

pub record Diagnostics : Type 0 where
  pub errors : List String
  pub warnings : List String

pub data Status : Type 0 where
  status_ok status_error status_unavailable status_blocked : Status

pub data Kind : Type 0 where
  local mcp : Kind

-- An entry of the trace.
pub data Entry (J : Type 0) : Type 0 where
  message_output : ℕ → ℕ → String → Entry J
  tool_call :
      ℕ
      → ℕ
      → String
      → String
      → Kind
      → Arguments J
      → String
      → Status
      → Bool
      → Option Diagnostics
      → Entry J

pub record TraceRecorder (J : Type 0) : Type 0 where
  pub entries : List (Entry J)
  pub sequence_id : ℕ
  pub latest_kernel_errors : List String
  pub latest_kernel_warnings : List String
  pub pending_tactic_log_index : Option ℕ

abbrev pub new_recorder : {J : Type 0} → TraceRecorder J
new_recorder = record {
  entries = [];
  sequence_id = 0;
  latest_kernel_errors = [];
  latest_kernel_warnings = [];
  pending_tactic_log_index = none;
}

-- A write to the entry of the log with an index.
unfoldable pub modify_at {ℓ} : {A : Type ℓ} → (A → A) → ℕ → List A → List A
modify_at f i [] = []
modify_at f zero (x ∷ xs) = f x ∷ xs
modify_at f (suc i) (x ∷ xs) = x ∷ modify_at f i xs

-- A pending attempt that is given up, with the reason.
unfoldable pub give_up : Resolution → Attempt → Attempt
give_up why attempt = elim attempt.successful [
  | none ↦ record attempt { successful = some false; resolution = why }
  | some _ ↦ attempt
]

unfoldable pub close_pending : Resolution → Option ℕ → List Attempt → List Attempt
unfolding give_up
close_pending why none log = log
close_pending why (some i) log = modify_at (give_up why) i log

abbrev no_errors : List String → Bool
no_errors [] = true
no_errors (e ∷ es) = false

unfoldable pub settle : Diagnostics → Attempt → Attempt
settle d attempt = record attempt {
  post_diagnostic_errors = some d.errors;
  post_diagnostic_warnings = some d.warnings;
  successful = some (no_errors d.errors);
  resolution = if no_errors d.errors then diagnostics_clean else diagnostics_error;
}

unfoldable pub settle_pending : Diagnostics → Option ℕ → List Attempt → List Attempt
unfolding settle
settle_pending d none log = log
settle_pending d (some i) log = modify_at (settle d) i log

module _ {J : Type 0} where
  unfoldable pub append_message_output : ℕ → String → TraceRecorder J → TraceRecorder J
  append_message_output request_index content r =
      let text = truncate_text content 1000 in
      if is_empty text then r else record r {
        entries = r.entries ++ message_output (r.sequence_id + 1) request_index text ∷ [];
        sequence_id = r.sequence_id + 1;
      }

  unfoldable pub append_tool_call :
      Json J
      → ℕ
      → String
      → String
      → Kind
      → Arguments J
      → String
      → Status
      → Bool
      → Option Diagnostics
      → TraceRecorder J
      → TraceRecorder J
  append_tool_call json request_index id name kind arguments result_text status blocked payload r =
      record r {
        entries =
            r.entries
            ++ tool_call (r.sequence_id + 1) request_index id name kind
                (normalize_tool_arguments json arguments) (truncate_text result_text 1500) status
                blocked payload
              ∷ [];
        sequence_id = r.sequence_id + 1;
      }

  unfoldable pub new_attempt : List Attempt → String → TraceRecorder J → Attempt
  new_attempt log tactic r = record {
    attempt_index = length log + 1;
    tactic = tactic;
    tactic_preview = preview_tactic tactic 120;
    triggering_errors = r.latest_kernel_errors;
    triggering_warnings = r.latest_kernel_warnings;
    post_diagnostic_errors = none;
    post_diagnostic_warnings = none;
    successful = none;
    resolution = pending_diagnostics;
  }

  unfoldable pub note_tactic_attempt :
      String → TraceRecorder J × List Attempt → TraceRecorder J × List Attempt
  unfolding close_pending new_attempt
  note_tactic_attempt tactic (r, log) =
      let closed = close_pending superseded_before_diagnostics r.pending_tactic_log_index log in
      (
        record r { pending_tactic_log_index = some (length closed) },
        closed ++ new_attempt closed tactic r ∷ [],
      )

  unfoldable pub resolve_from_diagnostics :
      Diagnostics → TraceRecorder J × List Attempt → TraceRecorder J × List Attempt
  unfolding settle_pending
  resolve_from_diagnostics d (r, log) = (
    record r {
      latest_kernel_errors = d.errors;
      latest_kernel_warnings = d.warnings;
      pending_tactic_log_index = none;
    },
    settle_pending d r.pending_tactic_log_index log,
  )

  unfoldable pub finalize_pending_attempt :
      TraceRecorder J × List Attempt → TraceRecorder J × List Attempt
  unfolding close_pending
  finalize_pending_attempt (r, log) = (
    record r { pending_tactic_log_index = none },
    close_pending unresolved_when_run_ended r.pending_tactic_log_index log,
  )

-- `_has_failed_tactic_attempt`
abbrev failed : Attempt → Bool
failed attempt = elim attempt.successful [ none ↦ false | some b ↦ not b ]

unfoldable pub has_failed_tactic_attempt : List Attempt → Bool
has_failed_tactic_attempt [] = false
has_failed_tactic_attempt (attempt ∷ log) = failed attempt || has_failed_tactic_attempt log
