-- ===== src/Tests/Outcome.antt =====
-- The error code of a formalization that timed out.
use lean_econ_api.Prelude.{String, false, some, none, refl, [], ◌∷◌, ◌≡◌, ◌↔◌}
use lean_econ_api.Json.{Value, flag, text, Object, get_or, truthy, null}
use lean_econ_api.Outcome.{formalization_timeout, failure_parts, formalize_error_code}
use lean_econ_api.Outcome.Timeout.{MentionsTimeout, formalize_error_code-timeout}

abbrev str : Value → String
str (text s) = s
str v = ""

abbrev lower : String → String
lower s = s

abbrev timed_out : Object
timed_out = ("success", flag false) ∷ ("diagnosis", text "a timeout of Lean") ∷ []

formalize_error_code-timeout_example :
    (formalize_error_code str lower timed_out ≡ some formalization_timeout) ↔ (
      (truthy (get_or null "success" timed_out) ≡ false)
      × MentionsTimeout str lower (failure_parts str lower timed_out))
formalize_error_code-timeout_example = formalize_error_code-timeout str lower timed_out

-- Errors that are null cannot be gone through.
no_code_test : formalize_error_code str lower (("errors", null) ∷ []) ≡ none
unfolding formalize_error_code
no_code_test = refl
