-- ===== src/Formalizer/Imports.antt =====
-- src/formalizer.py: the imports of a candidate: `_is_comment_line`, `_has_misplaced_import`,
-- `_inject_preamble_imports` and `_normalize_imports`, on the lines of the file. The proofs are in the
-- module below.
pub mod Normalized
use Prim.Native.String.{◌++◌ as ◌<>◌}
use lean_econ_api.Prelude.{
  String, Bool, true, false, List, [], ◌∷◌, ◌++◌, ◌&&◌, ◌||◌, not, ◌==◌, if◌then◌else◌,
}
use lean_econ_api.Text.{strip, rstrip, is_empty, starts_with}
use lean_econ_api.Text.Lines.{splitlines, join}

-- `s.startswith((…))`
unfoldable pub starts_with_any : List String → String → Bool
unfolding starts_with
starts_with_any [] s = false
starts_with_any (p ∷ ps) s = starts_with p s || starts_with_any ps s

-- `_is_comment_line`
unfoldable pub is_comment_line : String → Bool
unfolding strip is_empty starts_with_any
is_comment_line line =
    let stripped = strip line in
    is_empty stripped || starts_with_any ("--" ∷ "/-" ∷ "-/" ∷ []) stripped

-- `stripped.startswith("import ")`
unfoldable pub is_import : String → Bool
unfolding strip starts_with
is_import line = starts_with "import " (strip line)

-- `line in lines`
unfoldable pub has_line : String → List String → Bool
has_line x [] = false
has_line x (line ∷ lines) = line == x || has_line x lines

-- `LEAN_COMMAND_PREFIXES`
abbrev pub lean_command_prefixes : List String
lean_command_prefixes =
    "import " ∷ "open " ∷ "theorem " ∷ "lemma " ∷ "example " ∷ "def " ∷ "noncomputable "
    ∷ "namespace " ∷ "section " ∷ "variable " ∷ "/-" ∷ "--" ∷ "#" ∷ []

-- the tests of a line that make it code, once it is no import
unfoldable pub begins_code : String → Bool
unfolding strip starts_with starts_with_any
begins_code line =
    starts_with "open " (strip line) || starts_with_any lean_command_prefixes (strip line)

-- the loop of `_has_misplaced_import`, with `saw_non_import_code`
unfoldable pub misplaced_import : Bool → List String → Bool
unfolding is_comment_line is_import begins_code
misplaced_import saw [] = false
misplaced_import saw (line ∷ lines) =
    let same = misplaced_import saw lines in
    let after_code = misplaced_import true lines in
    if is_comment_line line
    then same
    else if is_import line
    then (if saw then true else same)
    else if begins_code line
    then after_code
    else same

-- `_has_misplaced_import`
unfoldable pub has_misplaced_import : String → Bool
unfolding misplaced_import splitlines
has_misplaced_import lean_code = misplaced_import false (splitlines lean_code)

-- the imports that `_normalize_imports` keeps
unfoldable pub is_kept_import : String → Bool
unfolding starts_with
is_kept_import stripped =
    stripped == "import Mathlib"
    || starts_with "import Mathlib." stripped
    || starts_with "import LeanEcon." stripped
    || starts_with "import Std" stripped

-- `kept_imports`
unfoldable pub kept_imports : List String → List String
unfolding is_import is_kept_import strip
kept_imports [] = []
kept_imports (line ∷ lines) =
    let rest = kept_imports lines in
    if is_import line && is_kept_import (strip line) then strip line ∷ rest else rest

-- `normalized`: the lines that are no imports
unfoldable pub other_lines : List String → List String
unfolding is_import
other_lines [] = []
other_lines (line ∷ lines) =
    let rest = other_lines lines in if is_import line then rest else line ∷ rest

-- `kept_imports` with `import Mathlib`
unfoldable pub with_mathlib : List String → List String
unfolding has_line
with_mathlib imports =
    if has_line "import Mathlib" imports then imports else "import Mathlib" ∷ imports

-- `dict.fromkeys`: the first of each, where those in `seen` came before
unfoldable pub without_repeats : List String → List String → List String
unfolding has_line
without_repeats seen [] = []
without_repeats seen (line ∷ lines) =
    let rest = without_repeats (line ∷ seen) lines in
    let same = without_repeats seen lines in if has_line line seen then same else line ∷ rest

-- `rebuilt`. Where there is no import, `normalized` has all the lines.
unfoldable pub rebuilt_lines : List String → List String
unfolding kept_imports with_mathlib without_repeats other_lines
rebuilt_lines lines =
    without_repeats [] (with_mathlib (kept_imports lines)) ++ ("" ∷ other_lines lines)

-- `_normalize_imports`
unfoldable pub normalize_imports : String → String
unfolding rebuilt_lines splitlines join rstrip
normalize_imports lean_code = rstrip (join "\n" (rebuilt_lines (splitlines lean_code))) <> "\n"

-- `new_imports`
unfoldable pub new_imports : List String → List String → List String
unfolding has_line
new_imports existing [] = []
new_imports existing (line ∷ lines) =
    let rest = new_imports existing lines in if has_line line existing then rest else line ∷ rest

-- the stripped import lines
unfoldable pub existing_imports : List String → List String
unfolding is_import strip
existing_imports [] = []
existing_imports (line ∷ lines) =
    let rest = existing_imports lines in if is_import line then strip line ∷ rest else rest

-- the lines with the new imports behind the first block of imports
unfoldable pub insert_imports : List String → List String → List String
unfolding is_import is_empty strip
insert_imports new [] = new
insert_imports new (line ∷ lines) =
    let rest = insert_imports new lines in
    if is_import line
    then line ∷ rest
    else if is_empty (strip line)
    then new ++ (line ∷ lines)
    else new ++ ("" ∷ line ∷ lines)

-- `_inject_preamble_imports`
unfoldable pub inject_preamble_imports : List String → String → String
unfolding new_imports existing_imports insert_imports splitlines join rstrip
inject_preamble_imports import_lines lean_code =
    let lines = splitlines lean_code in
    elim (new_imports (existing_imports lines) import_lines) [
      | [] ↦ lean_code
      | line ∷ more ↦ rstrip (join "\n" (insert_imports (line ∷ more) lines)) <> "\n"
    ]
