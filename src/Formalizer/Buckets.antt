-- ===== src/Formalizer/Buckets.antt =====
-- src/formalizer.py: what the formalizer reads from a model's answer and from Lean's errors.
-- `str.lower` is a parameter.
use lean_econ_api.Prelude.{ℕ, zero, suc, String, Option, none, some, List, [], ◌∷◌, if◌then◌else◌}
use lean_econ_api.Text.{has_any, strip, is_empty, has_text, starts_with, len}
use lean_econ_api.Text.Lines.{splitlines, join}

-- `s[n:]`, and `s.removeprefix(p)`
unfoldable pub drop : ℕ → String → String
drop zero s = s
drop (suc n) String.[] = String.[]
drop (suc n) (String.◌∷◌ c s) = drop n s

unfoldable pub removeprefix : String → String → String
unfolding starts_with drop len
removeprefix p s = if starts_with p s then drop (len p) s else s

-- `lines[:n]`
unfoldable pub first_lines : ℕ → List String → List String
first_lines zero lines = []
first_lines (suc n) [] = []
first_lines (suc n) (line ∷ lines) = line ∷ first_lines n lines

-- the first line of a reason
unfoldable pub find_reason : List String → Option String
unfolding strip starts_with removeprefix
find_reason [] = none
find_reason (line ∷ lines) =
    let rest = find_reason lines in
    if starts_with "-- Reason:" (strip line)
    then some (strip (removeprefix "-- Reason:" (strip line)))
    else rest

-- the marker in the lines, and the reason below it
unfoldable pub find_marker : List String → Option (Option String)
unfolding has_text find_reason
find_marker [] = none
find_marker (line ∷ lines) =
    let rest = find_marker lines in
    if has_text "-- FORMALIZATION_FAILED" line then some (find_reason lines) else rest

-- `_detect_formalization_failed`: `none` stands for `(False, None)`.
unfoldable pub detect_formalization_failed : String → Option (Option String)
unfolding splitlines first_lines find_marker
detect_formalization_failed lean_code = find_marker (first_lines 5 (splitlines lean_code))

-- The repair buckets.
abbrev pub repair_bucket_unknown_import_module : String
repair_bucket_unknown_import_module = "unknown_import_module"

abbrev pub repair_bucket_unknown_identifier : String
repair_bucket_unknown_identifier = "unknown_identifier"

abbrev pub repair_bucket_typeclass_instance : String
repair_bucket_typeclass_instance = "typeclass_instance"

abbrev pub repair_bucket_syntax_notation : String
repair_bucket_syntax_notation = "syntax_notation"

abbrev pub repair_bucket_semantic_mismatch : String
repair_bucket_semantic_mismatch = "semantic_mismatch"

-- `classify_repair_bucket`
unfoldable pub classify_repair_bucket : (String → String) → List String → String
unfolding has_any join
classify_repair_bucket lower errors =
    let combined = lower (join " " errors) in
    if has_any
      ("unknown module prefix" ∷ "unknown package" ∷ "unknown import" ∷ "did not find imported file"
        ∷ [])
      combined
    then repair_bucket_unknown_import_module
    else if has_any
        ("unknown identifier" ∷ "unknown constant" ∷ "unknown namespace" ∷ "invalid field notation"
          ∷ [])
        combined
    then repair_bucket_unknown_identifier
    else if has_any
        ("failed to synthesize" ∷ "typeclass" ∷ "instance problem" ∷ "has no instance" ∷ [])
        combined
    then repair_bucket_typeclass_instance
    else if has_any
        ("unexpected token" ∷ "invalid syntax" ∷ "parser error" ∷ "expected command"
          ∷ "expected term" ∷ [])
        combined
    then repair_bucket_syntax_notation
    else repair_bucket_semantic_mismatch

-- `_normalized_validation_fallback_reason`
unfoldable pub normalized_validation_fallback_reason :
    (String → String) → Option String → Option String
unfolding is_empty has_text
normalized_validation_fallback_reason lower none = none
normalized_validation_fallback_reason lower (some reason) =
    let lowered = lower reason in
    if is_empty reason
    then none
    else if has_text "no valid lean project path found" lowered
    then some "lean_run_code_unavailable:no_project_path"
    else if has_text "temporarily disabled after recent failure" lowered
    then some "lean_run_code_unavailable:cooldown"
    else if has_text "timed out" lowered
    then some "lean_run_code_unavailable:timeout"
    else if has_text "mcp error" lowered
    then some "lean_run_code_unavailable:mcp_error"
    else some "lean_run_code_unavailable"
