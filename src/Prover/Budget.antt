-- ===== src/Prover/Budget.antt =====
-- src/agentic_prover.py: the budget of one verify request, from its preset and its overrides.
-- `int`, `float`, `str.lower`, `repr` and `sorted` are parameters, floats a type of their own.
pub mod Overrides
pub mod Resolution
pub mod Limits
use Prim.Native.String.{◌++◌ as ◌<>◌}
use lean_econ_api.Prelude.{
  ℕ, zero, suc, ◌-◌, String, Bool, Option, none, some, List, [], ◌∷◌, ◌==◌, ◌||◌, if◌then◌else◌,
}
use lean_econ_api.Text.{strip, is_empty}
use lean_econ_api.Text.Lines.{join}
use lean_econ_api.Dict
use lean_econ_api.Dict.{Dict}
use lean_econ_api.Prover.Tracker.{AgenticToolTracker, budget_limits}

abbrev pub reasoning_preset_normal : String
reasoning_preset_normal = "normal"

abbrev pub reasoning_preset_medium : String
reasoning_preset_medium = "medium"

abbrev pub reasoning_preset_high : String
reasoning_preset_high = "high"

-- A Python `int`: `minus n` stands for `-(n + 1)`.
pub data PyInt : Type 0 where
  plus minus : ℕ → PyInt

-- What `int(v)` or `float(v)` does: a number, a `TypeError` or `ValueError`, or another exception.
pub data Reading (A : Type 0) : Type 0 where
  read : A → Reading A
  refused : Reading A
  raises : String → Reading A

-- The end of the resolution: a result, a `ValueError`, or another exception.
pub data Resolved (A : Type 0) : Type 0 where
  resolved : A → Resolved A
  value_error : String → Resolved A
  other_error : String → Resolved A

infixl 1 ◌>>=◌
abbrev pub ◌>>=◌ : {A B : Type 0} → Resolved A → (A → Resolved B) → Resolved B
resolved a >>= f = f a
value_error m >>= f = value_error m
other_error m >>= f = other_error m

-- What stands outside, for overrides that are `V` and floats that are `F`.
pub record Python (V F : Type 0) : Type 0 where
  pub int_of : V → Reading PyInt
  pub float_of : V → Reading F
  pub is_le_zero : F → Bool
  pub float_of_whole : ℕ → F
  pub lower : String → String
  pub repr : String → String
  pub sorted : List String → List String

-- A number in `overrides_applied`.
pub data Number (F : Type 0) : Type 0 where
  whole : ℕ → Number F
  real : F → Number F

-- `ProverBudgetConfig`
pub record ProverBudgetConfig (F : Type 0) : Type 0 where
  pub reasoning_preset : String
  pub max_steps : ℕ
  pub per_request_timeout_ms : ℕ
  pub wall_clock_timeout_seconds : F
  pub append_round_cap : ℕ
  pub max_total_tool_calls : ℕ
  pub max_search_tool_calls : ℕ
  pub max_consecutive_read_only_calls : ℕ
  pub overrides_applied : Dict (Number F)

-- a value of `REASONING_PRESET_BASE_CONFIGS`
pub record BaseConfig : Type 0 where
  pub max_steps : ℕ
  pub per_request_timeout_ms : ℕ
  pub wall_clock_timeout_seconds : ℕ
  pub append_round_cap : ℕ

abbrev pub base_config_normal : BaseConfig
base_config_normal = record {
  max_steps = 10;
  per_request_timeout_ms = 90000;
  wall_clock_timeout_seconds = 120;
  append_round_cap = 16;
}

abbrev pub base_config_medium : BaseConfig
base_config_medium = record {
  max_steps = 12;
  per_request_timeout_ms = 120000;
  wall_clock_timeout_seconds = 180;
  append_round_cap = 24;
}

abbrev pub base_config_high : BaseConfig
base_config_high = record {
  max_steps = 18;
  per_request_timeout_ms = 120000;
  wall_clock_timeout_seconds = 300;
  append_round_cap = 40;
}

-- `REASONING_PRESET_BASE_CONFIGS.get(preset)`
unfoldable pub base_config : String → Option BaseConfig
base_config preset =
    if preset == reasoning_preset_normal
    then some base_config_normal
    else if preset == reasoning_preset_medium
    then some base_config_medium
    else if preset == reasoning_preset_high
    then some base_config_high
    else none

-- `key in SUPPORTED_BUDGET_OVERRIDE_FIELDS`
unfoldable pub is_supported : String → Bool
is_supported key =
    key == "max_steps"
    || key == "per_request_timeout_ms"
    || key == "wall_clock_timeout_seconds"
    || key == "append_round_cap"
    || key == "max_total_tool_calls"
    || key == "max_search_tool_calls"
    || key == "max_consecutive_read_only_calls"

-- the keys of the overrides that are not supported
unfoldable pub unknown_names : {V : Type 0} → Dict V → List String
unfolding is_supported
unknown_names [] = []
unknown_names ((key, v) ∷ overrides) =
    let rest = unknown_names overrides in if is_supported key then rest else key ∷ rest

-- `(reasoning_preset or DEFAULT_REASONING_PRESET)`
unfoldable pub or_default : Option String → String
unfolding is_empty
or_default none = reasoning_preset_medium
or_default (some preset) = if is_empty preset then reasoning_preset_medium else preset

module _ {V F : Type 0} (py : Python V F) where
  open py use {int_of, float_of, is_le_zero, float_of_whole, lower, repr, sorted}

  -- `_coerce_positive_int`
  unfoldable pub coerce_positive_int : V → String → Resolved ℕ
  coerce_positive_int value field_name = elim (int_of value) [
    | refused ↦ value_error ("`" <> field_name <> "` must be an integer.")
    | raises message ↦ other_error message
    | read (minus n) ↦ value_error ("`" <> field_name <> "` must be greater than zero.")
    | read (plus zero) ↦ value_error ("`" <> field_name <> "` must be greater than zero.")
    | read (plus (suc n)) ↦ resolved (suc n)
  ]

  -- `_coerce_positive_float`
  unfoldable pub coerce_positive_float : V → String → Resolved F
  coerce_positive_float value field_name = elim (float_of value) [
    | refused ↦ value_error ("`" <> field_name <> "` must be a number.")
    | raises message ↦ other_error message
    | read x ↦
        if is_le_zero x
        then value_error ("`" <> field_name <> "` must be greater than zero.")
        else resolved x
  ]

  -- `if name in overrides: …`, for one number and the overrides applied so far
  unfoldable pub override_int :
      Dict V → String → ℕ → Dict (Number F) → Resolved (ℕ × Dict (Number F))
  unfolding coerce_positive_int Dict.get Dict.put
  override_int overrides name base applied = elim (Dict.get name overrides) [
    | none ↦ resolved (base, applied)
    | some value ↦
        coerce_positive_int value name >>= (λ n. resolved (n, Dict.put name (whole n) applied))
  ]

  unfoldable pub override_float :
      Dict V → String → F → Dict (Number F) → Resolved (F × Dict (Number F))
  unfolding coerce_positive_float Dict.get Dict.put
  override_float overrides name base applied = elim (Dict.get name overrides) [
    | none ↦ resolved (base, applied)
    | some value ↦
        coerce_positive_float value name >>= (λ x. resolved (x, Dict.put name (real x) applied))
  ]

  -- The seven overrides in turn, and the tool budgets that `max_steps` gives.
  unfoldable pub apply_overrides : String → BaseConfig → Dict V → Resolved (ProverBudgetConfig F)
  unfolding override_int override_float
  apply_overrides preset base overrides =
      override_int overrides "max_steps" base.max_steps [] >>= (λ (steps, a).
        override_int overrides "per_request_timeout_ms" base.per_request_timeout_ms a
        >>= (λ (per_request, b).
            override_float overrides "wall_clock_timeout_seconds"
              (float_of_whole base.wall_clock_timeout_seconds) b
            >>= (λ (wall_clock, c).
                override_int overrides "append_round_cap" base.append_round_cap c >>= (λ (cap, d).
                  let (total, search, read_only) = budget_limits steps in
                  override_int overrides "max_total_tool_calls" total d >>= (λ (total', e).
                    override_int overrides "max_search_tool_calls" search e >>= (λ (search', f).
                      override_int overrides "max_consecutive_read_only_calls" read_only f
                      >>= (λ (read_only', g). resolved (record {
                        reasoning_preset = preset;
                        max_steps = steps;
                        per_request_timeout_ms = per_request;
                        wall_clock_timeout_seconds = wall_clock;
                        append_round_cap = cap;
                        max_total_tool_calls = total';
                        max_search_tool_calls = search';
                        max_consecutive_read_only_calls = read_only';
                        overrides_applied = g;
                      }))))))))

  -- `resolve_budget_config`
  unfoldable pub resolve_budget_config : Option String → Dict V → Resolved (ProverBudgetConfig F)
  unfolding apply_overrides unknown_names base_config or_default strip
  resolve_budget_config reasoning_preset budget_overrides =
      let preset = lower (strip (or_default reasoning_preset)) in
      elim (base_config preset) [
        | none ↦ value_error (
            "Unsupported reasoning_preset "
            <> repr preset
            <> ". Expected one of: normal, medium, high")
        | some base ↦ elim (unknown_names budget_overrides) [
          | name ∷ names ↦
              value_error
                ("Unsupported budget_overrides field(s): " <> join ", " (sorted (name ∷ names)))
          | [] ↦ apply_overrides preset base budget_overrides
        ]
      ]

-- `_budget_summary`, over the same numbers
pub record BudgetSummary (F : Type 0) : Type 0 where
  pub config : ProverBudgetConfig F
  pub api_round_trips_used : ℕ
  pub append_rounds_used : ℕ
  pub tool_calls_used : Option ℕ
  pub search_tool_calls_used : Option ℕ
  pub blocked_tool_calls : Option ℕ
  pub stop_reason : Option String
  pub timeout_scope : Option String

unfoldable pub budget_summary :
    {F : Type 0}
    → ProverBudgetConfig F
    → ℕ
    → Option AgenticToolTracker
    → Option String
    → Option String
    → BudgetSummary F
budget_summary config steps_used tool_tracker stop_reason timeout_scope = record {
  config = config;
  api_round_trips_used = steps_used;
  append_rounds_used = steps_used - 1;
  tool_calls_used = elim tool_tracker [ none ↦ none | some t ↦ some t.total_tool_calls ];
  search_tool_calls_used = elim tool_tracker [ none ↦ none | some t ↦ some t.total_search_calls ];
  blocked_tool_calls = elim tool_tracker [ none ↦ none | some t ↦ some t.blocked_tool_calls ];
  stop_reason = stop_reason;
  timeout_scope = timeout_scope;
}
