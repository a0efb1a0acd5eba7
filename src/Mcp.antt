-- ===== src/Mcp.antt =====
-- src/mcp_runtime.py: the cooldown of the formalizer's MCP helpers, for each capability. Readings of
-- the monotonic clock are arguments, in ticks, and so is the cooldown; the text of the seconds that
-- remain is a parameter. The proofs are in the module below.
pub mod Cooling
use Prim.Native.String.{◌++◌ as ◌<>◌}
use lean_econ_api.Prelude.{
  ℕ, ◌+◌, ◌-◌, String, Bool, true, false, Option, none, some, List, [], ◌∷◌, ltb, ◌==◌,
  if◌then◌else◌,
}
use lean_econ_api.Text.{is_empty}

-- `FORMALIZATION_MCP_CAPABILITIES`
pub data Capability : Type 0 where
  validation retrieval : Capability

-- `_normalize_formalization_mcp_capability`; `none` is the `ValueError` of another name.
unfoldable pub normalize_formalization_mcp_capability : String → Option Capability
normalize_formalization_mcp_capability capability =
    if capability == "validation"
    then some validation
    else if capability == "retrieval"
    then some retrieval
    else none

abbrev pub capability_name : Capability → String
capability_name validation = "validation"
capability_name retrieval = "retrieval"

abbrev pub is_same : Capability → Capability → Bool
is_same validation validation = true
is_same retrieval retrieval = true
is_same validation retrieval = false
is_same retrieval validation = false

-- `_FORMALIZATION_MCP_DISABLED_UNTIL` and `_FORMALIZATION_MCP_LAST_FAILURE`
pub record McpStatus : Type 0 where
  pub disabled_until : Capability → ℕ
  pub last_failure : Capability → Option String

abbrev pub new_status : McpStatus
new_status = record { disabled_until = λ c. 0; last_failure = λ c. none }

-- an assignment to one capability
unfoldable pub assign : Capability → ℕ → Option String → McpStatus → McpStatus
assign c until failure s = record {
  disabled_until = λ d. if is_same d c then until else s.disabled_until d;
  last_failure = λ d. if is_same d c then failure else s.last_failure d;
}

-- `reset_formalization_mcp_status`
unfoldable pub reset_formalization_mcp_status : Option Capability → McpStatus → McpStatus
unfolding assign
reset_formalization_mcp_status (some c) s = assign c 0 none s
reset_formalization_mcp_status none s = assign retrieval 0 none (assign validation 0 none s)

-- `mark_formalization_mcp_success`
unfoldable pub mark_formalization_mcp_success : Capability → McpStatus → McpStatus
unfolding reset_formalization_mcp_status
mark_formalization_mcp_success c s = reset_formalization_mcp_status (some c) s

module _ (cooldown_seconds : ℕ) where
  -- `mark_formalization_mcp_failure`, at the time `now`
  unfoldable pub mark_formalization_mcp_failure : String → Capability → ℕ → McpStatus → McpStatus
  unfolding assign
  mark_formalization_mcp_failure reason c now s = assign c (now + cooldown_seconds) (some reason) s

-- the reason of the last failure, or a default
abbrev pub reason_or : Option String → String
reason_or none = "recent MCP failure"
reason_or (some reason) = if is_empty reason then "recent MCP failure" else reason

-- `formalization_mcp_available`, at the time `now`
unfoldable pub formalization_mcp_available :
    (ℕ → String) → Capability → ℕ → McpStatus → Bool × Option String
unfolding is_empty
formalization_mcp_available seconds c now s =
    if ltb now (s.disabled_until c)
    then (
      false,
      some (
          "formalization "
          <> capability_name c
          <> " MCP temporarily disabled after recent failure: "
          <> reason_or (s.last_failure c)
          <> " (retry in ~"
          <> seconds (s.disabled_until c - now)
          <> "s)"),
    )
    else (true, none)
