-- ===== src/Prover/Tracker.antt =====
-- `AgenticToolTracker`, the tool names and the signatures of read-only calls.
use lean_econ_api.Prelude.{
  ℕ, ◌+◌, ◌*◌, ◌/◌, max, String, Bool, false, Option, none, some, List, [], ◌∷◌, ◌&&◌, ◌||◌, leb,
  ◌==◌, if◌then◌else◌,
}

-- Default limits.
abbrev pub max_consecutive_apply_without_diagnostics : ℕ
max_consecutive_apply_without_diagnostics = 5

abbrev pub default_max_total_tool_calls : ℕ
default_max_total_tool_calls = 36

abbrev pub default_max_search_tool_calls : ℕ
default_max_search_tool_calls = 4

abbrev pub default_max_consecutive_read_only_calls : ℕ
default_max_consecutive_read_only_calls = 6

unfoldable pub one_of : List String → String → Bool
one_of [] s = false
one_of (t ∷ ts) s = t == s || one_of ts s

-- `AGENTIC_SEARCH_TOOLS`
abbrev pub agentic_search_tools : List String
agentic_search_tools =
    "lean_multi_attempt" ∷ "lean_code_actions" ∷ "lean_state_search" ∷ "lean_hammer_premise"
    ∷ "lean_local_search" ∷ "lean_loogle" ∷ []

unfoldable pub is_search_tool : String → Bool
unfolding one_of
is_search_tool name = one_of agentic_search_tools name

abbrev pub apply_tactic : String
apply_tactic = "apply_tactic"

abbrev pub lean_diagnostic_messages : String
lean_diagnostic_messages = "lean_diagnostic_messages"

-- The arguments of a call: a dict or a list, a text, or anything else by its `str`.
pub data Arguments (J : Type 0) : Type 0 where
  structured : J → Arguments J
  text : String → Arguments J
  other : String → Arguments J

-- `json.loads` of a text, where it gives a dict or a list, and `json.dumps`.
pub record Json (J : Type 0) : Type 0 where
  pub loads : String → Option J
  pub dumps : J → String

unfoldable pub normalize_tool_arguments : {J : Type 0} → Json J → Arguments J → Arguments J
normalize_tool_arguments json (structured j) = structured j
normalize_tool_arguments json (text s) = elim (json.loads s) [
  | none ↦ text s
  | some j ↦ structured j
]
normalize_tool_arguments json (other s) = text s

abbrev render_arguments : {J : Type 0} → Json J → Arguments J → String
render_arguments json (structured j) = json.dumps j
render_arguments json (text s) = s
render_arguments json (other s) = s

unfoldable pub tool_signature : {J : Type 0} → Json J → String → Arguments J → String × String
unfolding normalize_tool_arguments
tool_signature json tool_name arguments =
    (tool_name, render_arguments json (normalize_tool_arguments json arguments))

pub record AgenticToolTracker : Type 0 where
  pub max_total_tool_calls : ℕ
  pub max_search_tool_calls : ℕ
  pub max_consecutive_read_only_calls : ℕ
  pub consecutive_apply_without_diagnostics : ℕ
  pub consecutive_read_only_calls : ℕ
  pub total_tool_calls : ℕ
  pub total_apply_calls : ℕ
  pub total_diagnostic_calls : ℕ
  pub total_search_calls : ℕ
  pub circuit_breaker_hits : ℕ
  pub blocked_tool_calls : ℕ
  pub search_budget_hits : ℕ
  pub duplicate_read_only_hits : ℕ
  pub tool_budget_stop_hits : ℕ
  pub last_read_only_signature : Option (String × String)

-- A tracker with the limits of a run and every counter at 0.
abbrev pub new_tracker : ℕ → ℕ → ℕ → AgenticToolTracker
new_tracker total search read_only = record {
  max_total_tool_calls = total;
  max_search_tool_calls = search;
  max_consecutive_read_only_calls = read_only;
  consecutive_apply_without_diagnostics = 0;
  consecutive_read_only_calls = 0;
  total_tool_calls = 0;
  total_apply_calls = 0;
  total_diagnostic_calls = 0;
  total_search_calls = 0;
  circuit_breaker_hits = 0;
  blocked_tool_calls = 0;
  search_budget_hits = 0;
  duplicate_read_only_hits = 0;
  tool_budget_stop_hits = 0;
  last_read_only_signature = none;
}

module _ (t : AgenticToolTracker) where
  unfoldable pub should_block_apply : Bool
  should_block_apply =
      leb max_consecutive_apply_without_diagnostics t.consecutive_apply_without_diagnostics

  unfoldable pub note_apply_tactic_executed : AgenticToolTracker
  note_apply_tactic_executed = record t {
    total_tool_calls = t.total_tool_calls + 1;
    total_apply_calls = t.total_apply_calls + 1;
    consecutive_apply_without_diagnostics = t.consecutive_apply_without_diagnostics + 1;
    consecutive_read_only_calls = 0;
    last_read_only_signature = none;
  }

  -- Both take the signature of the call.
  unfoldable pub note_diagnostic_check : String × String → AgenticToolTracker
  note_diagnostic_check signature = record t {
    total_tool_calls = t.total_tool_calls + 1;
    total_diagnostic_calls = t.total_diagnostic_calls + 1;
    consecutive_apply_without_diagnostics = 0;
    consecutive_read_only_calls = t.consecutive_read_only_calls + 1;
    last_read_only_signature = some signature;
  }

  unfoldable pub note_read_only_tool : String → String × String → AgenticToolTracker
  note_read_only_tool tool_name signature = record t {
    total_tool_calls = t.total_tool_calls + 1;
    consecutive_read_only_calls = t.consecutive_read_only_calls + 1;
    total_search_calls =
        if is_search_tool tool_name then t.total_search_calls + 1 else t.total_search_calls;
    last_read_only_signature = some signature;
  }

  unfoldable pub note_blocked_tool : Bool → Bool → AgenticToolTracker
  note_blocked_tool search_budget duplicate_read_only = record t {
    total_tool_calls = t.total_tool_calls + 1;
    blocked_tool_calls = t.blocked_tool_calls + 1;
    search_budget_hits = if search_budget then t.search_budget_hits + 1 else t.search_budget_hits;
    duplicate_read_only_hits =
        if duplicate_read_only then t.duplicate_read_only_hits + 1 else t.duplicate_read_only_hits;
  }

  unfoldable pub note_circuit_breaker : AgenticToolTracker
  note_circuit_breaker = record t { circuit_breaker_hits = t.circuit_breaker_hits + 1 }

  unfoldable pub has_exhausted_total_budget : Bool
  has_exhausted_total_budget = leb t.max_total_tool_calls t.total_tool_calls

  unfoldable pub has_exhausted_search_budget : Bool
  has_exhausted_search_budget = leb t.max_search_tool_calls t.total_search_calls

  unfoldable pub has_read_only_loop : Bool
  has_read_only_loop = leb t.max_consecutive_read_only_calls t.consecutive_read_only_calls

  unfoldable pub is_duplicate_read_only_call : String → String × String → Bool
  is_duplicate_read_only_call tool_name (name, rendered) =
      if tool_name == apply_tactic then false else elim t.last_read_only_signature [
        | none ↦ false
        | some (last_name, last_rendered) ↦ last_name == name && last_rendered == rendered
      ]

  unfoldable pub note_budget_stop : AgenticToolTracker
  note_budget_stop = record t { tool_budget_stop_hits = t.tool_budget_stop_hits + 1 }

-- `_budget_limits`
unfoldable pub budget_limits : ℕ → ℕ × ℕ × ℕ
budget_limits max_steps =
    let safe_steps = max 1 max_steps in
    (
      max default_max_total_tool_calls (safe_steps * 3),
      max default_max_search_tool_calls (safe_steps / 3),
      max default_max_consecutive_read_only_calls (safe_steps / 2),
    )
