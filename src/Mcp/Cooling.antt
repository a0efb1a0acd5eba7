-- ===== src/Mcp/Cooling.antt =====
-- The cooldown against the history of what was marked.
use lean_econ_api.Prelude.{
  ℕ, ◌+◌, String, Bool, false, Option, none, some, List, [], ◌∷◌, ◌≡◌, refl, arith, not, ltb,
  if◌then◌else◌, is_some, Bool-cases, inl, inr, ◌∙◌,
}
use lean_econ_api.Mcp.{
  Capability, validation, retrieval, is_same, McpStatus, new_status, assign,
  reset_formalization_mcp_status, mark_formalization_mcp_success, mark_formalization_mcp_failure,
  formalization_mcp_available,
}

-- A call that changes the status.
pub data Mark : Type 0 where
  failure : String → Capability → ℕ → Mark
  success : Capability → Mark
  reset : Option Capability → Mark

module _ (cooldown : ℕ) where
  unfoldable pub mark : Mark → McpStatus → McpStatus
  unfolding mark_formalization_mcp_failure mark_formalization_mcp_success
      reset_formalization_mcp_status
  mark (failure reason c now) s = mark_formalization_mcp_failure cooldown reason c now s
  mark (success c) s = mark_formalization_mcp_success c s
  mark (reset c) s = reset_formalization_mcp_status c s

  -- The status after the marks, the latest of them first.
  unfoldable pub status_after : List Mark → McpStatus
  unfolding mark
  status_after [] = new_status
  status_after (m ∷ ms) = mark m (status_after ms)

  -- What the marks say by themselves: the latest one that is about the capability was a failure, and
  -- the cooldown since then is not over.
  unfoldable pub is_cooling : Capability → ℕ → List Mark → Bool
  is_cooling c now [] = false
  is_cooling c now (failure reason d t ∷ ms) =
      let before = is_cooling c now ms in if is_same c d then ltb now (t + cooldown) else before
  is_cooling c now (success d ∷ ms) =
      let before = is_cooling c now ms in if is_same c d then false else before
  is_cooling c now (reset (some d) ∷ ms) =
      let before = is_cooling c now ms in if is_same c d then false else before
  is_cooling c now (reset none ∷ ms) = false

  cooling-status :
      (c : Capability) (now : ℕ) (ms : List Mark)
      → ltb now ((status_after ms).disabled_until c) ≡ is_cooling c now ms
  unfolding is_cooling status_after assign
  cooling-status c now [] = ground arith
  cooling-status c now (failure reason d t ∷ ms) = ground (arith, cooling-status c now ms)
  cooling-status c now (success d ∷ ms) = ground (arith, cooling-status c now ms)
  cooling-status c now (reset (some d) ∷ ms) = ground (arith, cooling-status c now ms)
  cooling-status validation now (reset none ∷ ms) = ground arith
  cooling-status retrieval now (reset none ∷ ms) = ground arith

  -- After any calls that mark failures and successes or reset the status, a capability is available
  -- unless the latest call about it marked a failure less than a cooldown ago, and it gives a reason
  -- exactly where it is not. Calls about the other capability do not count.
  pub available-eq-not-is_cooling :
      (seconds : ℕ → String) (c : Capability) (now : ℕ) (ms : List Mark)
      → ((formalization_mcp_available seconds c now (status_after ms)).0
          ≡ not (is_cooling c now ms))
        × (is_some (formalization_mcp_available seconds c now (status_after ms)).1
            ≡ is_cooling c now ms)
  unfolding formalization_mcp_available
  available-eq-not-is_cooling seconds c now ms = elim (Bool-cases (is_cooling c now ms)) [
    | inl cooling ↦
        let e = cooling-status c now ms ∙ cooling in
        (
          rw (formalization_mcp_available, e, cooling) refl,
          rw (formalization_mcp_available, e, cooling) refl,
        )
    | inr over ↦
        let e = cooling-status c now ms ∙ over in
        (
          rw (formalization_mcp_available, e, over) refl,
          rw (formalization_mcp_available, e, over) refl,
        )
  ]
