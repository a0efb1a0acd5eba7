-- ===== src/Prover/Budget/Limits.antt =====
-- Resolved budgets are positive, and overrides are applied or refused.
use lean_econ_api.Dict.{Dict}
