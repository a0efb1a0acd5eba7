-- ===== src/Formalizer/Imports/Normalized.antt =====
-- What the normalized imports of a file are.
use lean_econ_api.Prelude.{
  ◌≤◌, String, Bool, true, false, List, [], ◌∷◌, ◌++◌, ◌≡◌, refl, arith, not, ◌&&◌, ◌||◌, ◌==◌,
  eq_iff, ℕ, suc, if◌then◌else◌, All, Bool-cases, inl, inr, ap, ◌∙◌,
}
use mathlib.Core.Path.{subst}
use lean_econ_api.Text.{strip, is_empty, starts_with}
use lean_econ_api.Text.Laws.{strip-strip}
use lean_econ_api.Formalizer.Imports.{
  is_comment_line, is_import, has_line, misplaced_import, is_kept_import, kept_imports, other_lines,
  with_mathlib, without_repeats, rebuilt_lines, existing_imports,
}

-- A line that is an import which is kept, without spaces around it.
pub record IsKeptImport (line : String) : Type 0 where
  pub import_line : is_import line ≡ true
  pub allowed : is_kept_import line ≡ true

All-kept_imports : (lines : List String) → All IsKeptImport (kept_imports lines)
unfolding kept_imports is_import
All-kept_imports [] = tt
All-kept_imports (line ∷ lines) =
    elim (Bool-cases (is_import line && is_kept_import (strip line))) [
      | inl e ↦ rw e (
        record {
          import_line = ap (starts_with "import ") (strip-strip line) ∙ ground (arith, e);
          allowed = ground (arith, e);
        },
        All-kept_imports lines,
      )
      | inr e ↦ rw e (All-kept_imports lines)
    ]

All-with_mathlib :
    (imports : List String) → All IsKeptImport imports → All IsKeptImport (with_mathlib imports)
unfolding with_mathlib is_import is_kept_import strip starts_with
All-with_mathlib imports h = elim (Bool-cases (has_line "import Mathlib" imports)) [
  | inl e ↦ rw e h
  | inr e ↦ rw e (record { import_line = refl; allowed = refl }, h)
]

has_line-with_mathlib :
    (imports : List String) → has_line "import Mathlib" (with_mathlib imports) ≡ true
unfolding with_mathlib has_line
has_line-with_mathlib imports = ground arith

All-without_repeats :
    (P : String → Type 0) (seen lines : List String)
    → All P lines
    → All P (without_repeats seen lines)
unfolding without_repeats
All-without_repeats P seen [] h = tt
All-without_repeats P seen (line ∷ lines) h = elim (Bool-cases (has_line line seen)) [
  | inl e ↦ rw e (All-without_repeats P seen lines h.1)
  | inr e ↦ rw e (h.0, All-without_repeats P (line ∷ seen) lines h.1)
]

has_line-without_repeats :
    (x : String) (seen lines : List String)
    → has_line x (without_repeats seen lines) ≡ (has_line x lines && not (has_line x seen))
unfolding without_repeats has_line
has_line-without_repeats x seen [] = refl
has_line-without_repeats x seen (line ∷ lines) = elim (Bool-cases (has_line line seen)) [
  | inl e ↦ elim (Bool-cases (line == x)) [
    | inl same ↦
        let f : has_line x seen ≡ true =
          subst (λ y. has_line y seen ≡ true) ((eq_iff line x).0 same) e in
        ground (arith, e, same, f, has_line-without_repeats x seen lines)
    | inr apart ↦ ground (arith, e, apart, has_line-without_repeats x seen lines)
  ]
  | inr e ↦ elim (Bool-cases (line == x)) [
    | inl same ↦
        let f : has_line x seen ≡ false =
          subst (λ y. has_line y seen ≡ false) ((eq_iff line x).0 same) e in
        ground (arith, e, same, f)
    | inr apart ↦ ground (arith, e, apart, has_line-without_repeats x (line ∷ seen) lines)
  ]
]

has_line-append :
    (x : String) (ls ms : List String) → has_line x (ls ++ ms) ≡ (has_line x ls || has_line x ms)
unfolding has_line
has_line-append x [] ms = refl
has_line-append x (l ∷ ls) ms = ground (arith, has_line-append x ls ms)

misplaced-other_lines :
    (saw : Bool) (lines : List String) → misplaced_import saw (other_lines lines) ≡ false
unfolding misplaced_import other_lines
misplaced-other_lines saw [] = refl
misplaced-other_lines saw (line ∷ lines) =
    ground (arith, misplaced-other_lines saw lines, misplaced-other_lines true lines)

misplaced-imports :
    (ls ms : List String)
    → All IsKeptImport ls
    → misplaced_import false (ls ++ ms) ≡ misplaced_import false ms
unfolding misplaced_import
misplaced-imports [] ms h = refl
misplaced-imports (l ∷ ls) ms h = ground (arith, h.0.import_line, misplaced-imports ls ms h.1)

other_lines-imports :
    (ls ms : List String) → All IsKeptImport ls → other_lines (ls ++ ms) ≡ other_lines ms
unfolding other_lines
other_lines-imports [] ms h = refl
other_lines-imports (l ∷ ls) ms h = rw (h.0.import_line) (other_lines-imports ls ms h.1)

other_lines-other_lines :
    (lines : List String) → other_lines (other_lines lines) ≡ other_lines lines
unfolding other_lines
other_lines-other_lines [] = refl
other_lines-other_lines (line ∷ lines) = elim (Bool-cases (is_import line)) [
  | inl e ↦ rw e (other_lines-other_lines lines)
  | inr e ↦ rw (e, other_lines, e) (ap (line ∷◌) (other_lines-other_lines lines))
]

misplaced-empty : (lines : List String) → misplaced_import false ("" ∷ other_lines lines) ≡ false
unfolding misplaced_import is_comment_line strip is_empty
misplaced-empty lines = misplaced-other_lines false lines

has_line-kept_imports :
    (x : String) (lines : List String)
    → has_line x (kept_imports lines) ≡ (is_kept_import x && has_line x (existing_imports lines))
unfolding kept_imports existing_imports has_line
has_line-kept_imports x [] = ground arith
has_line-kept_imports x (line ∷ lines) = elim (Bool-cases (strip line == x)) [
  | inl same ↦
      let k : is_kept_import (strip line) ≡ is_kept_import x =
        ap is_kept_import ((eq_iff (strip line) x).0 same) in
      ground (arith, same, k, has_line-kept_imports x lines)
  | inr apart ↦ ground (arith, apart, has_line-kept_imports x lines)
]

has_line-imports :
    (x : String) (lines : List String)
    → has_line x (without_repeats [] (with_mathlib (kept_imports lines)))
      ≡ ("import Mathlib" == x || (is_kept_import x && has_line x (existing_imports lines)))
unfolding with_mathlib has_line
has_line-imports x lines = ground (
  arith,
  has_line-without_repeats x [] (with_mathlib (kept_imports lines)),
  has_line-kept_imports x lines,
  has_line-kept_imports "import Mathlib" lines,
  eq_iff "import Mathlib" x,
)

-- `lines.count(x)`
abbrev occurrences : String → List String → ℕ
occurrences x [] = 0
occurrences x (line ∷ lines) = if line == x then suc (occurrences x lines) else occurrences x lines

occurrences-without_repeats :
    (x : String) (seen lines : List String)
    → occurrences x (without_repeats seen lines)
      ≡ (if has_line x lines && not (has_line x seen) then 1 else 0)
unfolding without_repeats has_line
occurrences-without_repeats x seen [] = refl
occurrences-without_repeats x seen (line ∷ lines) = elim (Bool-cases (has_line line seen)) [
  | inl e ↦ elim (Bool-cases (line == x)) [
    | inl same ↦
        let f : has_line x seen ≡ true =
          subst (λ y. has_line y seen ≡ true) ((eq_iff line x).0 same) e in
        ground (arith, e, same, f, occurrences-without_repeats x seen lines)
    | inr apart ↦ ground (arith, e, apart, occurrences-without_repeats x seen lines)
  ]
  | inr e ↦ elim (Bool-cases (line == x)) [
    | inl same ↦
        let f : has_line x seen ≡ false =
          subst (λ y. has_line y seen ≡ false) ((eq_iff line x).0 same) e in
        ground (arith, e, same, f, occurrences-without_repeats x (line ∷ seen) lines)
    | inr apart ↦ ground (arith, e, apart, occurrences-without_repeats x (line ∷ seen) lines)
  ]
]

occurrences-imports-le :
    (x : String) (lines : List String) → occurrences x (without_repeats [] lines) ≤ 1
occurrences-imports-le x lines = ground (arith, occurrences-without_repeats x [] lines)

-- What the rebuilt lines of a file are.
pub record IsNormalized (lines rebuilt : List String) : Type 0 where
  pub placed : misplaced_import false rebuilt ≡ false
  pub mathlib : has_line "import Mathlib" rebuilt ≡ true
  pub imports : List String
  pub shape : rebuilt ≡ imports ++ ("" ∷ other_lines lines)
  pub allowed : All IsKeptImport imports
  pub kept :
      (x : String)
      → has_line x imports
        ≡ ("import Mathlib" == x || (is_kept_import x && has_line x (existing_imports lines)))
  pub once : (x : String) → occurrences x imports ≤ 1
  pub rest : other_lines rebuilt ≡ "" ∷ other_lines lines

-- The lines that `_normalize_imports` joins: first imports alone, each of them once, which are
-- `import Mathlib` and the imports of the file of Mathlib, LeanEcon or Std; all of these are kept
-- and no others are there. Then comes an empty line, then the lines of the file that are no imports,
-- in order. No import in them is misplaced.
pub rebuilt_lines-IsNormalized : (lines : List String) → IsNormalized lines (rebuilt_lines lines)
unfolding rebuilt_lines
rebuilt_lines-IsNormalized lines =
    let imports = without_repeats [] (with_mathlib (kept_imports lines)) in
    let allowed : All IsKeptImport imports =
      All-without_repeats IsKeptImport [] (with_mathlib (kept_imports lines))
        (All-with_mathlib (kept_imports lines) (All-kept_imports lines)) in
    record {
      placed = misplaced-imports imports ("" ∷ other_lines lines) allowed ∙ misplaced-empty lines;
      mathlib = ground (
        arith,
        has_line-append "import Mathlib" imports ("" ∷ other_lines lines),
        has_line-without_repeats "import Mathlib" [] (with_mathlib (kept_imports lines)),
        has_line-with_mathlib (kept_imports lines),
      );
      imports = imports;
      shape = refl;
      allowed = allowed;
      kept = λ x. has_line-imports x lines;
      once = λ x. occurrences-imports-le x (with_mathlib (kept_imports lines));
      rest =
          other_lines-imports imports ("" ∷ other_lines lines) allowed
          ∙ ap ("" ∷◌) (other_lines-other_lines lines);
    }
