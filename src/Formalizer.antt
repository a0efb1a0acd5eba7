-- ===== src/Formalizer.antt =====
-- src/formalizer.py: the loop of `formalize` over model calls, validations and repairs, and the diagnosis
-- of a failure. The model, `sorry_validate`, the preparation of a candidate, the deterministic repairs
-- and the prompts are parameters, as are `json.loads` and the error of a client that cannot be had.
-- The context and the cache around the loop are in Formalizer/Cached; the log lines are left out. The
-- proofs are in the modules below.
pub mod Buckets
pub mod Validations
pub mod Attempts
pub mod Limits
pub mod Checking
pub mod Cached
pub mod Imports
use Prim.Native.String.{◌++◌ as ◌<>◌}
use lean_econ_api.Prelude.{
  Step, raised, returned, ℕ, zero, suc, ◌+◌, String, Bool, true, false, Option, none, some, List,
  [], ◌∷◌, ◌++◌, ◌&&◌, ◌||◌, ◌==◌, ltb, eqb, if◌then◌else◌,
}
use lean_econ_api.Dict.{Dict}
use lean_econ_api.Text.{take}
use lean_econ_api.Text.Lines.{join}
use lean_econ_api.Json.{Value, null, flag, text, Object, get_or, truthy}
use lean_econ_api.Diagnostics.Payloads.{extract_json_object}
use lean_econ_api.Formalizer.Buckets.{
  detect_formalization_failed, classify_repair_bucket, normalized_validation_fallback_reason,
}

abbrev pub max_formalization_model_calls : ℕ
max_formalization_model_calls = 2

abbrev pub max_formalization_validations : ℕ
max_formalization_validations = 3

-- What `sorry_validate` returns.
pub record Validation : Type 0 where
  pub valid : Bool
  pub errors : List String
  pub method : String
  pub fallback_reason : Option String

-- What `_diagnose_formalization_failure` returns.
pub record Diagnosis : Type 0 where
  pub diagnosis : Value
  pub suggested_fix : Value
  pub fixable : Value

-- What a call of the model is for: an attempt, or the diagnosis of a failure.
pub data Purpose : Type 0 where
  formalizing : ℕ → Purpose
  diagnosing : Purpose

-- The stages around the loop, for one claim and its context; `prepare` gives the code, the
-- structural repairs and the acceptance errors, `repair` the code and the repairs.
pub record Stages (W : Type 0) : Type 0 where
  pub claim_text : String
  pub system_prompt : String
  pub repair_prompt : String → String
  pub diagnose_prompt : String
  pub client_error : W → Option String
  pub call_model : List (String × String) → Purpose → W → Step W String
  pub strip_fences : String → String
  pub prepare : String → String × List String × List String
  pub sorry_validate : String → W → Step W Validation
  pub repair : String → List String → String × List String
  pub loads : String → Option Value
  pub lower : String → String

-- The local variables of `formalize`.
pub record Work (W : Type 0) : Type 0 where
  pub world : W
  pub lean_code : String
  pub last_errors : List String
  pub validation_methods : List String
  pub validation_fallback_reasons : List String
  pub repair_buckets : List String
  pub deterministic_repairs_applied : List String
  pub model_calls : ℕ
  pub validation_calls : ℕ

-- The fields of the result that the loop gives; the telemetry is read off the work.
pub record FormalizeResult : Type 0 where
  pub success : Bool
  pub theorem_code : String
  pub attempts : ℕ
  pub errors : List String
  pub formalization_failed : Bool
  pub failure_reason : Option String
  pub diagnosis : Diagnosis

-- The end of an attempt: the loop goes on, `formalize` returns, or an exception.
pub data Pass (W : Type 0) : Type 0 where
  continued : Work W → Pass W
  done : FormalizeResult → Work W → Pass W
  failed : String → Work W → Pass W

abbrev pub no_diagnosis : Diagnosis
no_diagnosis = record { diagnosis = null; suggested_fix = null; fixable = null }

-- `errors[:n]`
unfoldable pub first_errors : ℕ → List String → List String
first_errors zero errors = []
first_errors (suc n) [] = []
first_errors (suc n) (e ∷ es) = e ∷ first_errors n es

-- `repair in repairs`
unfoldable pub has_repair : String → List String → Bool
has_repair r [] = false
has_repair r (q ∷ qs) = q == r || has_repair r qs

-- `[repair for repair in repairs if repair not in applied]`
unfoldable pub new_repairs : List String → List String → List String
unfolding has_repair
new_repairs applied [] = []
new_repairs applied (r ∷ rs) =
    let rest = new_repairs applied rs in if has_repair r applied then rest else r ∷ rest

-- `applied.extend(repair for repair in repairs if repair not in applied)`, which sees its own
-- additions
unfoldable pub extend_new : List String → List String → List String
unfolding has_repair
extend_new applied [] = applied
extend_new applied (r ∷ rs) =
    extend_new (if has_repair r applied then applied else applied ++ (r ∷ [])) rs

-- `values[-1] == value`
unfoldable pub is_last : String → List String → Bool
is_last r [] = false
is_last r (q ∷ []) = q == r
is_last r (q ∷ p ∷ qs) = is_last r (p ∷ qs)

-- the fallback reason of a validation, unless it repeats the last one
unfoldable pub note_reason : Option String → List String → List String
unfolding is_last
note_reason none reasons = reasons
note_reason (some reason) reasons =
    if is_last reason reasons then reasons else reasons ++ (reason ∷ [])

module _ {W : Type 0} (stages : Stages W) where
  open stages use {
    claim_text, system_prompt, repair_prompt, call_model, strip_fences, prepare, sorry_validate,
    repair, lower, diagnose_prompt, client_error, loads,
  }

  -- the messages of an attempt, and the repair bucket that it notes
  unfoldable pub request : ℕ → Work W → List (String × String) × Work W
  unfolding classify_repair_bucket join
  request attempt w =
      let bucket = classify_repair_bucket lower w.last_errors in
      if eqb attempt 1 then (("system", system_prompt) ∷ ("user", claim_text) ∷ [], w) else (
        ("system", repair_prompt bucket)
            ∷ (
              "user",
              "Original claim:\n"
                  <> claim_text
                  <> "\n\nFailed Lean 4 file:\n"
                  <> w.lean_code
                  <> "\n\nErrors:\n"
                  <> join "\n" w.last_errors,
            )
            ∷ [],
        record w { repair_buckets = w.repair_buckets ++ (bucket ∷ []) },
      )

  -- `_record_validation`, of the code of the work
  unfoldable pub note_validation : Step W Validation → Work W → Step (Work W) Validation
  unfolding note_reason normalized_validation_fallback_reason
  note_validation (raised message t) w = raised message (record w { world = t })
  note_validation (returned v t) w = returned v (record w {
    world = t;
    validation_methods = w.validation_methods ++ (v.method ∷ []);
    validation_fallback_reasons =
        note_reason (normalized_validation_fallback_reason lower v.fallback_reason)
          w.validation_fallback_reasons;
  })

  unfoldable pub record_validation : Work W → Step (Work W) Validation
  unfolding note_validation
  record_validation w =
      note_validation (sorry_validate w.lean_code w.world)
        (record w { validation_calls = w.validation_calls + 1 })

  -- the result of a validation that passed
  unfoldable pub succeeded : ℕ → Work W → Pass W
  succeeded attempt w =
      done
        (record {
          success = true;
          theorem_code = w.lean_code;
          attempts = attempt;
          errors = [];
          formalization_failed = false;
          failure_reason = none;
          diagnosis = no_diagnosis;
        })
        w

  -- the repairs that an attempt may make after a failed validation
  unfoldable pub repairs_of : ℕ → Work W → String × List String
  repairs_of attempt w =
      if eqb attempt 1 && ltb w.validation_calls max_formalization_validations
      then repair w.lean_code w.last_errors
      else (w.lean_code, [])

  -- the validation of the repaired code
  unfoldable pub revalidate : ℕ → Work W → Pass W
  unfolding record_validation succeeded
  revalidate attempt w = elim (record_validation w) [
    | raised message w' ↦ failed message w'
    | returned v w' ↦
        if v.valid then succeeded attempt w' else continued (record w' { last_errors = v.errors })
  ]

  -- the deterministic repairs
  unfoldable pub try_repairs : ℕ → Work W → Pass W
  unfolding repairs_of revalidate extend_new
  try_repairs attempt w =
      let (code, repairs) = repairs_of attempt w in
      elim repairs [
        | [] ↦ continued w
        | r ∷ rs ↦
            if ltb w.validation_calls max_formalization_validations
            then revalidate attempt (record w {
              lean_code = code;
              deterministic_repairs_applied = extend_new w.deterministic_repairs_applied (r ∷ rs);
            })
            else continued w
      ]

  -- the validation of a candidate
  unfoldable pub validate : ℕ → Work W → Pass W
  unfolding record_validation succeeded try_repairs
  validate attempt w = elim (record_validation w) [
    | raised message w' ↦ failed message w'
    | returned v w' ↦
        if v.valid
        then succeeded attempt w'
        else try_repairs attempt (record w' { last_errors = v.errors })
  ]

  -- a candidate, cleaned up, accepted or rejected
  unfoldable pub consider : ℕ → String → Work W → Pass W
  unfolding validate new_repairs
  consider attempt raw w =
      let (code, structural, acceptance) = prepare raw in
      let w' : Work W = record w {
        lean_code = code;
        deterministic_repairs_applied =
            w.deterministic_repairs_applied
            ++ new_repairs w.deterministic_repairs_applied structural;
      } in
      elim acceptance [
        | [] ↦ validate attempt w'
        | e ∷ es ↦ continued (record w' { last_errors = e ∷ es })
      ]

  -- the answer of the model
  unfoldable pub answered : ℕ → String → Work W → Pass W
  unfolding detect_formalization_failed consider
  answered attempt raw w = elim (detect_formalization_failed w.lean_code) [
    | none ↦ consider attempt raw w
    | some reason ↦
        done
          (record {
            success = false;
            theorem_code = w.lean_code;
            attempts = attempt;
            errors = [];
            formalization_failed = true;
            failure_reason = reason;
            diagnosis = no_diagnosis;
          })
          w
  ]

  -- one pass of the loop
  unfoldable pub run_attempt : ℕ → Work W → Pass W
  unfolding request answered
  run_attempt attempt w =
      let (messages, w1) = request attempt w in
      let w2 : Work W = record w1 { model_calls = w1.model_calls + 1 } in
      elim (call_model messages (formalizing attempt) w2.world) [
        | raised message t ↦ failed message (record w2 { world = t })
        | returned raw t ↦
            answered attempt raw (record w2 { world = t; lean_code = strip_fences raw })
      ]

  -- the loop over the attempts
  unfoldable pub run_attempts : List ℕ → Work W → Pass W
  unfolding run_attempt
  run_attempts [] w = continued w
  run_attempts (n ∷ ns) w = elim (run_attempt n w) [
    | continued w' ↦ run_attempts ns w'
    | done r w' ↦ done r w'
    | failed message w' ↦ failed message w'
  ]

  abbrev pub fresh_work : W → Work W
  fresh_work world = record {
    world = world;
    lean_code = "";
    last_errors = [];
    validation_methods = [];
    validation_fallback_reasons = [];
    repair_buckets = [];
    deterministic_repairs_applied = [];
    model_calls = 0;
    validation_calls = 0;
  }

  -- the messages of `_diagnose_formalization_failure`
  unfoldable pub diagnosis_messages : String → List String → List (String × String)
  unfolding take first_errors join
  diagnosis_messages lean_code errors =
      ("system", diagnose_prompt)
      ∷ (
        "user",
        "Original claim:\n"
            <> claim_text
            <> "\n\nLast Lean 4 code:\n"
            <> take 2000 lean_code
            <> "\n\nErrors:\n"
            <> join "\n" (first_errors 5 errors),
      )
      ∷ []

  -- the guidance in the answer of the diagnoser, and the one of an exception
  abbrev diagnosis_error : String → Diagnosis
  diagnosis_error message = record {
    diagnosis = text ("Formalization failed. Diagnosis error: " <> message);
    suggested_fix = null;
    fixable = flag false;
  }

  unfoldable pub read_diagnosis : Option Object → Diagnosis
  unfolding get_or truthy
  read_diagnosis none = diagnosis_error "diagnoser did not return a JSON object"
  read_diagnosis (some result) = record {
    diagnosis = get_or (text "Analysis unavailable.") "diagnosis" result;
    suggested_fix = get_or null "suggested_fix" result;
    fixable = flag (truthy (get_or (flag false) "fixable" result));
  }

  -- what becomes of the call of the diagnoser
  unfoldable pub diagnosed : Step W String → Diagnosis × W
  unfolding read_diagnosis extract_json_object
  diagnosed (raised message t) = (diagnosis_error message, t)
  diagnosed (returned raw t) = (read_diagnosis (extract_json_object loads raw), t)

  -- `_diagnose_formalization_failure`, with the handler around it
  unfoldable pub diagnose : String → List String → W → Diagnosis × W
  unfolding diagnosis_messages diagnosed
  diagnose lean_code errors w = elim (client_error w) [
    | some message ↦ (no_diagnosis, w)
    | none ↦ diagnosed (call_model (diagnosis_messages lean_code errors) diagnosing w)
  ]

  -- the end of `formalize` once the attempts are used up
  unfoldable pub exhausted : Work W → Pass W
  unfolding diagnose
  exhausted w =
      let (diagnosis, t) = diagnose w.lean_code w.last_errors w.world in
      done
        (record {
          success = false;
          theorem_code = w.lean_code;
          attempts = w.model_calls;
          errors = w.last_errors;
          formalization_failed = false;
          failure_reason = none;
          diagnosis = diagnosis;
        })
        (record w { world = t })

  -- `formalize`, from the first model call to its result
  unfoldable pub formalize_fresh : W → Pass W
  unfolding run_attempts exhausted
  formalize_fresh world = elim (run_attempts (1 ∷ 2 ∷ []) (fresh_work world)) [
    | continued w ↦ exhausted w
    | done r w ↦ done r w
    | failed message w ↦ failed message w
  ]
