-- ===== src/Prover/Errors.antt =====
-- src/agentic_prover.py: the errors of a run. An integer `status_code`, the regular expression of a
-- status and `str.lower` are parameters of what reads an exception.
use lean_econ_api.Prelude.{
  ℕ, String, Bool, false, Option, none, some, List, [], ◌∷◌, ◌||◌, ◌&&◌, eqb,
}
use lean_econ_api.Text.{has_text}

-- An exception: what the code reads of it, and the exceptions of a group.
mutual
  pub data Exc : Type 0 where
    exc : Bool → Option ℕ → String → Excs → Exc

  pub data Excs : Type 0 where
    no_exc : Excs
    more_exc : Exc → Excs → Excs

-- `isinstance(exc, asyncio.TimeoutError)`, an integer `status_code`, and `str(exc)`
abbrev pub is_timeout : Exc → Bool
is_timeout (exc timeout status text group) = timeout

abbrev pub status_attribute : Exc → Option ℕ
status_attribute (exc timeout status text group) = status

abbrev pub text_of_exc : Exc → String
text_of_exc (exc timeout status text group) = text

-- `RETRYABLE_STATUS_CODES`
abbrev pub is_retryable_status : ℕ → Bool
is_retryable_status code = eqb code 429 || eqb code 503

-- `BACKOFF_DELAYS_SECONDS`
abbrev pub backoff_delays_seconds : List ℕ
backoff_delays_seconds = 2 ∷ 4 ∷ 8 ∷ 16 ∷ []

module _ (status_in_text : String → Option ℕ) where
  -- `_status_code_from_exception`
  unfoldable pub status_code_from_exception : Exc → Option ℕ
  status_code_from_exception e = elim (status_attribute e) [
    | some status ↦ some status
    | none ↦ status_in_text (text_of_exc e)
  ]

  -- `_is_retryable_run_error`
  unfoldable pub is_retryable_run_error : Exc → Bool
  unfolding status_code_from_exception
  is_retryable_run_error e = elim (status_code_from_exception e) [
    | none ↦ false
    | some status ↦ is_retryable_status status
  ]

-- `_is_code_3001_error`
unfoldable pub is_code_3001_error : Exc → Bool
unfolding has_text
is_code_3001_error e =
    has_text "code\":3001" (text_of_exc e)
    || has_text "Either inputs or tool_confirmations must be provided." (text_of_exc e)

-- `_is_cancel_scope_error`, with a group that is searched all the way down
unfoldable mutual
  unfolding has_text

  pub is_cancel_scope_error : (String → String) → Exc → Bool
  is_cancel_scope_error lower (exc timeout status text group) =
      (has_text "cancel scope" (lower text) && has_text "different task" (lower text))
      || any_cancel_scope_error lower group

  pub any_cancel_scope_error : (String → String) → Excs → Bool
  any_cancel_scope_error lower no_exc = false
  any_cancel_scope_error lower (more_exc e es) =
      is_cancel_scope_error lower e || any_cancel_scope_error lower es
