-- ===== src/ProofFile.antt =====
-- src/proof_file_controller.py: the controller of one working Lean file with an editable tactic
-- region. The searches of `re`, `textwrap.dedent` and the errors of a write are parameters. The
-- proofs are in the modules below.
pub mod Settled
pub mod Restore
use Prim.Native.String.{◌++◌ as ◌<>◌}
use lean_econ_api.Prelude.{
  ℕ, ◌+◌, String, Option, none, some, List, [], ◌∷◌, ◌++◌, ◌==◌, if◌then◌else◌, Step, raised,
  returned,
}
use lean_econ_api.Text.{strip, rstrip, is_empty, starts_with, has_text}
use lean_econ_api.Text.Lines.{splitlines, join}

abbrev pub default_header : String
default_header = "import Mathlib\nopen Real\n\n"

abbrev pub tactic_region_begin : String
tactic_region_begin = "-- LEANECON_AGENTIC_TACTICS_BEGIN"

abbrev pub tactic_region_end : String
tactic_region_end = "-- LEANECON_AGENTIC_TACTICS_END"

-- `ProofCheckpoint`
pub record ProofCheckpoint : Type 0 where
  pub label : String
  pub tactic_block : String
  pub lean_code : String

-- `ProofFileController`, with the text of its working file, if that exists
pub record ProofFileController : Type 0 where
  pub working_file : Option String
  pub theorem_with_sorry : String
  pub prefix : String
  pub suffix : String
  pub indent : String
  pub current_tactic_block : String
  pub current_lean_code : String
  pub checkpoints : List ProofCheckpoint

-- `__init__`; the file may exist already.
abbrev pub new_controller : Option String → ProofFileController
new_controller working_file = record {
  working_file = working_file;
  theorem_with_sorry = "";
  prefix = "";
  suffix = "";
  indent = "  ";
  current_tactic_block = "sorry";
  current_lean_code = "";
  checkpoints = [];
}

-- A match of `_SORRY_LINE_RE`: the text before it, its group 1, and the text after it.
pub record SorryLine : Type 0 where
  pub before : String
  pub group : String
  pub after : String

pub record Library : Type 0 where
  pub search_sorry_line : String → Option SorryLine
  pub split_inline_sorry : String → String
  pub search_theorem_name : String → Option String
  pub dedent : String → String
  pub write_error : String → Option String

-- a line of `_indent_block`
unfoldable pub indent_line : String → String → String
unfolding strip is_empty
indent_line indent line = if is_empty (strip line) then line else indent <> line

unfoldable pub indent_lines : String → List String → List String
unfolding indent_line
indent_lines indent [] = []
indent_lines indent (line ∷ lines) = indent_line indent line ∷ indent_lines indent lines

-- `_indent_block`
unfoldable pub indent_block : String → String → String
unfolding indent_lines splitlines join
indent_block indent block = join "\n" (indent_lines indent (splitlines block))

-- `_render_current_code`, of a prefix, an indent, a block and a suffix
unfoldable pub render : String → String → String → String → String
unfolding indent_block join
render prefix indent block suffix =
    prefix
    <> join "\n" (
        (indent <> tactic_region_begin)
        ∷ indent_block indent block
        ∷ (indent <> tactic_region_end)
        ∷ [])
    <> suffix

abbrev pub render_current_code : ProofFileController → String
render_current_code c = render c.prefix c.indent c.current_tactic_block c.suffix

-- `_require_initialized`, before the rest of a method
unfoldable pub require_initialized :
    {A : Type 0}
    → (ProofFileController → Step ProofFileController A)
    → ProofFileController
    → Step ProofFileController A
unfolding is_empty
require_initialized method c =
    if is_empty c.current_lean_code
    then raised "ProofFileController is not initialized yet" c
    else method c

-- the first line with the needle, counted from `index`
unfoldable pub find_line : String → ℕ → List String → Option ℕ
unfolding has_text
find_line needle index [] = none
find_line needle index (line ∷ lines) =
    let rest = find_line needle (index + 1) lines in
    if has_text needle line then some index else rest

-- `_line_number_containing`
unfoldable pub line_number_containing : String → ProofFileController → Step ProofFileController ℕ
unfolding find_line splitlines
line_number_containing needle c = elim (find_line needle 1 (splitlines c.current_lean_code)) [
  | none ↦ raised "Could not find line" c
  | some index ↦ returned index c
]

-- the property `goal_query_line`
unfoldable pub goal_query_line : ProofFileController → Step ProofFileController ℕ
unfolding require_initialized line_number_containing
goal_query_line = require_initialized (line_number_containing ":= by")

-- the property `tactic_region_start_line`
unfoldable pub tactic_region_start_line : ProofFileController → Step ProofFileController ℕ
unfolding require_initialized line_number_containing
tactic_region_start_line = require_initialized (λ c.
    elim (line_number_containing tactic_region_begin c) [
      | raised message d ↦ raised message d
      | returned n d ↦ returned (n + 1) d
    ])

abbrev pub checkpoint_of : String → ProofFileController → ProofCheckpoint
checkpoint_of label c = record {
  label = label;
  tactic_block = c.current_tactic_block;
  lean_code = c.current_lean_code;
}

-- a controller with one more checkpoint, of its current state
abbrev pub with_checkpoint : String → ProofFileController → ProofFileController
with_checkpoint label c = record c { checkpoints = c.checkpoints ++ (checkpoint_of label c ∷ []) }

-- `save_checkpoint`
unfoldable pub save_checkpoint :
    String → ProofFileController → Step ProofFileController ProofCheckpoint
unfolding require_initialized
save_checkpoint label =
    require_initialized (λ c. returned (checkpoint_of label c) (with_checkpoint label c))

-- `if checkpoint_label: self.save_checkpoint(checkpoint_label)`, and the code
unfoldable pub save_if_labelled :
    Option String → ProofFileController → Step ProofFileController String
unfolding save_checkpoint is_empty
save_if_labelled none c = returned c.current_lean_code c
save_if_labelled (some label) c =
    if is_empty label then returned c.current_lean_code c else elim (save_checkpoint label c) [
      | raised message d ↦ raised message d
      | returned checkpoint d ↦ returned d.current_lean_code d
    ]

-- `self._checkpoints[-1]`
unfoldable pub last_checkpoint : List ProofCheckpoint → Option ProofCheckpoint
last_checkpoint [] = none
last_checkpoint (p ∷ []) = some p
last_checkpoint (p ∷ q ∷ ps) = last_checkpoint (q ∷ ps)

-- `cleanup`
abbrev pub cleanup : ProofFileController → ProofFileController
cleanup c = record c { working_file = none }

module _ (lib : Library) where
  open lib use {search_sorry_line, split_inline_sorry, search_theorem_name, dedent, write_error}

  -- the property `theorem_name`
  unfoldable pub theorem_name : ProofFileController → Step ProofFileController (Option String)
  unfolding require_initialized
  theorem_name = require_initialized (λ c. returned (search_theorem_name c.current_lean_code) c)

  -- `_normalize_theorem_input`
  unfoldable pub normalize_theorem_input : String → String
  unfolding strip rstrip starts_with
  normalize_theorem_input theorem_with_sorry =
      let code = strip theorem_with_sorry in
      let headed = if starts_with "import" code then code else default_header <> code in
      rstrip (split_inline_sorry headed) <> "\n"

  -- `_normalize_tactic_block`; `none` is the `ValueError` of an empty block.
  unfoldable pub normalize_tactic_block : String → Option String
  unfolding strip is_empty
  normalize_tactic_block tactic_block =
      let cleaned = strip (dedent tactic_block) in if is_empty cleaned then none else some cleaned

  -- `_write_current_code`, before the rest of a method. A write that fails leaves the file as it was:
  -- what is left of a file that was truncated is not modelled.
  unfoldable pub write_current_code :
      {A : Type 0}
      → (ProofFileController → Step ProofFileController A)
      → ProofFileController
      → Step ProofFileController A
  write_current_code method c = elim (write_error c.current_lean_code) [
    | some message ↦ raised message c
    | none ↦ method (record c { working_file = some c.current_lean_code })
  ]

  -- the checkpoint that `initialize` begins with, and the code
  unfoldable pub save_first : String → ProofFileController → Step ProofFileController String
  unfolding save_checkpoint
  save_first checkpoint_label c =
      elim (save_checkpoint checkpoint_label (record c { checkpoints = [] })) [
        | raised message d ↦ raised message d
        | returned checkpoint d ↦ returned d.current_lean_code d
      ]

  -- `initialize`
  unfoldable pub initialize :
      String → String → ProofFileController → Step ProofFileController String
  unfolding normalize_theorem_input write_current_code save_first is_empty
  initialize theorem_with_sorry checkpoint_label c =
      let normalized = normalize_theorem_input theorem_with_sorry in
      elim (search_sorry_line normalized) [
        | none ↦ raised "theorem_with_sorry must contain a standalone `sorry` line" c
        | some m ↦
            let indent = if is_empty m.group then "  " else m.group in
            write_current_code (save_first checkpoint_label) (record c {
              theorem_with_sorry = normalized;
              prefix = m.before;
              suffix = m.after;
              indent = indent;
              current_tactic_block = "sorry";
              current_lean_code = render m.before indent "sorry" m.after;
            })
      ]

  -- `replace_tactic_block`, once the controller is initialized
  unfoldable pub replace_block :
      String → Option String → ProofFileController → Step ProofFileController String
  unfolding normalize_tactic_block write_current_code save_if_labelled
  replace_block tactic_block checkpoint_label c = elim (normalize_tactic_block tactic_block) [
    | none ↦ raised "Tactic block cannot be empty" c
    | some block ↦ write_current_code (save_if_labelled checkpoint_label) (record c {
      current_tactic_block = block;
      current_lean_code = render c.prefix c.indent block c.suffix;
    })
  ]

  -- `replace_tactic_block`
  unfoldable pub replace_tactic_block :
      String → Option String → ProofFileController → Step ProofFileController String
  unfolding require_initialized replace_block
  replace_tactic_block tactic_block checkpoint_label =
      require_initialized (replace_block tactic_block checkpoint_label)

  -- the block that `append_tactic_block` puts in
  unfoldable pub combined_block : String → String → String
  unfolding strip rstrip
  combined_block current fragment =
      if strip current == "sorry" then fragment else rstrip current <> "\n" <> fragment

  -- `append_tactic_block`
  unfoldable pub append_tactic_block :
      String → Option String → ProofFileController → Step ProofFileController String
  unfolding require_initialized normalize_tactic_block combined_block replace_tactic_block
  append_tactic_block tactic_fragment checkpoint_label = require_initialized (λ c.
      elim (normalize_tactic_block tactic_fragment) [
        | none ↦ raised "Tactic block cannot be empty" c
        | some fragment ↦
            replace_tactic_block (combined_block c.current_tactic_block fragment) checkpoint_label c
      ])

  -- `restore_last_good_checkpoint`
  unfoldable pub restore_last_good_checkpoint :
      ProofFileController → Step ProofFileController String
  unfolding require_initialized last_checkpoint write_current_code
  restore_last_good_checkpoint = require_initialized (λ c. elim (last_checkpoint c.checkpoints) [
    | none ↦ raised "No checkpoints are available to restore" c
    | some checkpoint ↦
        write_current_code (λ d. returned d.current_lean_code d)
          (record c {
            current_tactic_block = checkpoint.tactic_block;
            current_lean_code = checkpoint.lean_code;
          })
  ])

-- The calls that change a controller once it is initialized.
pub data Call : Type 0 where
  replace append : String → Option String → Call
  restore : Call

unfoldable pub run_call : Library → Call → ProofFileController → Step ProofFileController String
unfolding replace_tactic_block append_tactic_block restore_last_good_checkpoint
run_call lib (replace block label) = replace_tactic_block lib block label
run_call lib (append fragment label) = append_tactic_block lib fragment label
run_call lib restore = restore_last_good_checkpoint lib
