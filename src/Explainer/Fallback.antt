-- ===== src/Explainer/Fallback.antt =====
-- What an explanation is: the model's, or a fallback.
use lean_econ_api.Prelude.{
  String, Bool, true, false, Option, none, some, List, [], ◌∷◌, ◌≡◌, refl, if◌then◌else◌, Step,
  raised, returned, ◌==◌, ap, sym,
}
use lean_econ_api.Text.{is_empty}
use lean_econ_api.Json.{Object}
use lean_econ_api.Explainer.{
  Model, Explanation, ExplainLog, fallback_explanation, infer_outcome_label, fall_back, calling,
  from_model, use_answer, explain_result,
}

if-not-empty :
    (b : Bool) (s t : String)
    → is_empty s ≡ false
    → is_empty t ≡ false
    → is_empty (if b then s else t) ≡ false
if-not-empty true s t h k = h
if-not-empty false s t h k = k

fallback-not-empty : (label : String) → is_empty (fallback_explanation label) ≡ false
unfolding fallback_explanation is_empty
fallback-not-empty label = if-not-empty (label == "classification_rejected") _ _ refl (
    if-not-empty (label == "verified") _ _ refl (
      if-not-empty (label == "proving_failed") _ _ refl
        (if-not-empty (label == "formalization_failed") _ _ refl refl)))

-- The label of an outcome, where it has one.
abbrev pub label_or_default : Option String → String
label_or_default none = "verification_failed"
label_or_default (some label) = label

module _ {W : Type 0} (model : Model W) (claim code : String) (result : Object) (w : W) where
  -- The explanation, and the world after it.
  pub record IsExplained (x : Explanation × W) : Type 0 where
    pub not_empty : is_empty x.0.explanation ≡ false
    pub by_model :
        x.0.generated ≡ true
        → (label : String) × (prompt : String) × (infer_outcome_label model.lower result
            ≡ some label)
          × (model.build_user_prompt claim code result label ≡ some prompt)
          × (model.call_with_timeout prompt w ≡ returned x.0.explanation x.1)
    pub answered :
        (label prompt answer : String) (v : W)
        → infer_outcome_label model.lower result ≡ some label
        → model.build_user_prompt claim code result label ≡ some prompt
        → model.call_with_timeout prompt w ≡ returned answer v
        → is_empty answer ≡ false
        → (x.0.generated ≡ true) × (x.0.explanation ≡ answer) × (x.1 ≡ v)
    pub by_fallback :
        x.0.generated ≡ false
        → x.0.explanation
          ≡ fallback_explanation (label_or_default (infer_outcome_label model.lower result))
    pub telemetry : x.0.provider_telemetry ≡ model.summarize_calls x.1

  -- The model has not answered with a text.
  abbrev NoAnswer : Type 0
  NoAnswer =
      (label prompt answer : String) (v : W)
      → infer_outcome_label model.lower result ≡ some label
      → model.build_user_prompt claim code result label ≡ some prompt
      → model.call_with_timeout prompt w ≡ returned answer v
      → is_empty answer ≡ true

  fall_back-IsExplained :
      (label : String) (logged : List ExplainLog) (v : W)
      → label_or_default (infer_outcome_label model.lower result) ≡ label
      → NoAnswer
      → IsExplained (fall_back model label logged v)
  unfolding fall_back
  fall_back-IsExplained label logged v l no_answer = record {
    not_empty = fallback-not-empty label;
    by_model = λ h. cc;
    answered = λ label' prompt answer u e p c h. cc (no_answer label' prompt answer u e p c, h);
    by_fallback = λ h. ap fallback_explanation (sym l);
    telemetry = refl;
  }

  use_answer-IsExplained :
      (label prompt : String) (x : Step W String)
      → infer_outcome_label model.lower result ≡ some label
      → model.build_user_prompt claim code result label ≡ some prompt
      → model.call_with_timeout prompt w ≡ x
      → IsExplained (use_answer model label x)
  unfolding use_answer
  use_answer-IsExplained label prompt (raised m v) l p c =
      fall_back-IsExplained label (calling model ∷ []) v (rw l refl)
        (λ label' prompt' answer u e q d. cc)
  use_answer-IsExplained label prompt (returned answer v) l p c = go (is_empty answer) refl
    where
      go :
          (b : Bool)
          → is_empty answer ≡ b
          → IsExplained (
              if b then fall_back model label (calling model ∷ []) v else from_model model answer v)
      go true e =
          fall_back-IsExplained label (calling model ∷ []) v (rw l refl)
            (λ label' prompt' answer' u f q d. cc)
      go false e = record {
        not_empty = e;
        by_model = λ h. (label, prompt, l, p, c);
        answered = λ label' prompt' answer' u f q d h. (refl, cc, cc);
        by_fallback = λ h. cc;
        telemetry = refl;
      }

  -- An explanation is never refused and never empty. It is generated, and the answer of the model,
  -- exactly where the result has a label, there is a prompt, and the model answers it with a text
  -- that is not empty. Otherwise it is the fallback text of the label, or of "verification_failed"
  -- where the result has none. It comes with the telemetry of the calls made.
  pub explain_result-IsExplained : IsExplained (explain_result model claim code result w)
  unfolding explain_result
  explain_result-IsExplained = labelled (infer_outcome_label model.lower result) refl
    where
      prompted :
          (label : String) (x : Option String)
          → infer_outcome_label model.lower result ≡ some label
          → model.build_user_prompt claim code result label ≡ x
          → IsExplained (elim x [
            | none ↦ fall_back model label [] w
            | some prompt ↦ use_answer model label (model.call_with_timeout prompt w)
          ])
      prompted label none l p =
          fall_back-IsExplained label [] w (rw l refl) (λ label' prompt answer u e q d. cc)
      prompted label (some prompt) l p =
          use_answer-IsExplained label prompt (model.call_with_timeout prompt w) l p refl

      labelled :
          (x : Option String)
          → infer_outcome_label model.lower result ≡ x
          → IsExplained (elim x [
            | none ↦ fall_back model "verification_failed" [] w
            | some label ↦ elim (model.build_user_prompt claim code result label) [
              | none ↦ fall_back model label [] w
              | some prompt ↦ use_answer model label (model.call_with_timeout prompt w)
            ]
          ])
      labelled none l =
          fall_back-IsExplained "verification_failed" [] w (rw l refl)
            (λ label' prompt answer u e q d. cc)
      labelled (some label) l =
          prompted label (model.build_user_prompt claim code result label) l refl
