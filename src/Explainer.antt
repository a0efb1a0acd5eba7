-- ===== src/Explainer.antt =====
-- src/explainer.py: `_infer_outcome_label` and `explain_result`. The prompt, the call of the model
-- under its timeout, the summary of its provider calls and `str.lower` are parameters; `on_log` gets
-- the messages without their data. The proofs are in the module below.
pub mod Fallback
use lean_econ_api.Prelude.{
  String, Bool, true, false, Option, none, some, List, [], ◌∷◌, ◌==◌, if◌then◌else◌, Step, raised,
  returned, ◌⊎◌, inl, inr, ◌++◌,
}
use lean_econ_api.Text.{has_text, is_empty}
use lean_econ_api.Json.{Value, null, flag, text, Object, truthy, get_or}

-- `FALLBACK_EXPLANATIONS.get(outcome_label, …)`: an unknown label has the text of "verification_failed".
unfoldable pub fallback_explanation : String → String
fallback_explanation label =
    if label == "classification_rejected"
    then "**Claim not supported.** This claim requires mathematical definitions that are not currently available in LeanEcon's verification scope. Try rephrasing as a direct algebraic identity, or paste a Lean 4 theorem directly."
    else if label == "verified"
    then "**Verified.** Lean 4's type checker has confirmed that the proof is logically valid from axioms. This is a machine-checked proof — not an LLM's opinion, but a formal guarantee.\n\nThe explanation service is temporarily unavailable. Review the Lean proof in the Proof tab for details."
    else if label == "proving_failed"
    then "**Proof not found.** The theorem statement compiled successfully in Lean 4, meaning it is a well-formed mathematical claim. However, the automated prover could not find a proof within the allotted attempts.\n\nThis does not mean the claim is false — it means the prover needs a different approach. You can try again (proof generation is stochastic) or edit the theorem statement."
    else if label == "formalization_failed"
    then "**Could not formalize.** The system could not translate your claim into a valid Lean 4 theorem. This usually means the claim requires mathematical definitions that aren't available in Lean's math library (Mathlib), or the claim is too ambiguous to formalize automatically.\n\nTry rephrasing the claim more precisely, or paste a Lean 4 theorem directly if you have one."
    else "**Verification rejected.** A proof was generated but Lean's type checker rejected it. This is a prover error — the proof attempt had a logical flaw. The claim itself may still be true.\n\nThe prover generates proofs stochastically. Try running again for a different proof attempt."

abbrev pub is_false : Value → Bool
is_false (flag false) = true
is_false v = false

module _ (lower : String → String) where
  -- the label of a formalization that failed for a reason; `none` is the `AttributeError` of a
  -- reason that is no text
  unfoldable pub label_of_reason : Value → Option String
  unfolding has_text is_empty truthy
  label_of_reason (text reason) =
      if has_text "definition" (lower reason)
      then some "classification_rejected"
      else some "formalization_failed"
  label_of_reason reason = if truthy reason then none else some "formalization_failed"

  -- `_infer_outcome_label`
  unfoldable pub infer_outcome_label : Object → Option String
  unfolding label_of_reason truthy get_or
  infer_outcome_label result =
      if truthy (get_or null "formalization_failed" result)
      then label_of_reason (get_or (text "") "failure_reason" result)
      else if truthy (get_or null "success" result)
      then some "verified"
      else if is_false (get_or null "proof_generated" result)
      then some "proving_failed"
      else some "verification_failed"

-- A log entry of the explainer, and what `explain_result` returns.
pub record ExplainLog : Type 0 where
  pub message : String
  pub status : String

pub record Explanation : Type 0 where
  pub explanation : String
  pub generated : Bool
  pub provider_telemetry : Value
  pub logged : List ExplainLog

-- What the explanation uses: the prompt of a claim, a theorem, a result and a label, or none where
-- its construction raises; the model, of a prompt; and the telemetry of the calls made.
pub record Model (W : Type 0) : Type 0 where
  pub lower : String → String
  pub build_user_prompt : String → String → Object → String → Option String
  pub call_with_timeout : String → W → Step W String
  pub summarize_calls : W → Value

module _ {W : Type 0} (model : Model W) where
  open model use {lower, build_user_prompt, call_with_timeout, summarize_calls}

  -- the `except` block
  unfoldable pub fall_back : String → List ExplainLog → W → Explanation × W
  unfolding fallback_explanation
  fall_back label logged w = (
    record {
      explanation = fallback_explanation label;
      generated = false;
      provider_telemetry = summarize_calls w;
      logged =
          logged
          ++ (record { message = "Explanation unavailable — using fallback"; status = "error" }
              ∷ []);
    },
    w,
  )

  abbrev pub calling : ExplainLog
  calling = record { message = "Calling the model to generate explanation..."; status = "running" }

  -- the result of an answer
  abbrev pub from_model : String → W → Explanation × W
  from_model answer w = (
    record {
      explanation = answer;
      generated = true;
      provider_telemetry = summarize_calls w;
      logged = calling ∷ record { message = "Explanation generated"; status = "done" } ∷ [];
    },
    w,
  )

  -- what becomes of the model's answer
  unfoldable pub use_answer : String → Step W String → Explanation × W
  unfolding fall_back is_empty
  use_answer label (raised message w) = fall_back label (calling ∷ []) w
  use_answer label (returned answer w) =
      if is_empty answer then fall_back label (calling ∷ []) w else from_model answer w

  -- `explain_result`
  unfoldable pub explain_result : String → String → Object → W → Explanation × W
  unfolding infer_outcome_label use_answer fall_back
  explain_result original_claim theorem_code result w = elim (infer_outcome_label lower result) [
    | none ↦ fall_back "verification_failed" [] w
    | some label ↦ elim (build_user_prompt original_claim theorem_code result label) [
      | none ↦ fall_back label [] w
      | some prompt ↦ use_answer label (call_with_timeout prompt w)
    ]
  ]
