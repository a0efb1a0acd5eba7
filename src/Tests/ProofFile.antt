-- ===== src/Tests/ProofFile.antt =====
-- A controller of a small theorem, with a plain search for its `sorry` line.
use lean_econ_api.Prelude.{false, none, some, [], ◌∷◌, ◌≡◌, refl, returned}
use lean_econ_api.Text.{is_empty}
use lean_econ_api.ProofFile.{
  Library, ProofFileController, new_controller, initialize, run_call, append, checkpoint_of,
  with_checkpoint, restore_last_good_checkpoint, render,
}
use lean_econ_api.ProofFile.Settled.{IsSettled, Settles, run_call-Settles, initialize-Settles}
use lean_econ_api.ProofFile.Restore.{put_block, add_fragment, after_edits, restore-after_edits}

abbrev lib : Library
lib = record {
  search_sorry_line =
      λ s. some (record { before = "theorem t := by\n"; group = "  "; after = "\n" });
  split_inline_sorry = λ s. s;
  search_theorem_name = λ s. some "t";
  dedent = λ s. s;
  write_error = λ s. none;
}

abbrev saved : ProofFileController
saved = record {
  working_file = some (render "theorem t := by\n" "  " "simp" "\n");
  theorem_with_sorry = "theorem t := by\n  sorry\n";
  prefix = "theorem t := by\n";
  suffix = "\n";
  indent = "  ";
  current_tactic_block = "simp";
  current_lean_code = render "theorem t := by\n" "  " "simp" "\n";
  checkpoints =
      record {
        label = "initial";
        tactic_block = "simp";
        lean_code = render "theorem t := by\n" "  " "simp" "\n";
      }
      ∷ [];
}

saved-IsSettled : IsSettled saved
unfolding lean_econ_api.ProofFile.last_checkpoint
saved-IsSettled = record { code = refl; file = refl; rendered = (refl, tt); saved = refl }

rendered :
    render "theorem t := by\n" "  " "simp\nring" "\n"
    ≡ "theorem t := by\n  -- LEANECON_AGENTIC_TACTICS_BEGIN\n  simp\n  ring\n  -- LEANECON_AGENTIC_TACTICS_END\n"
unfolding render
rendered = refl

run_call-Settles_example : Settles lib saved (run_call lib (append "ring" (some "next")) saved)
run_call-Settles_example = run_call-Settles lib (append "ring" (some "next")) saved saved-IsSettled

initialize-Settles_example :
    Settles lib
      (new_controller none)
      (initialize lib "theorem t := by sorry" "initial" (new_controller none))
initialize-Settles_example =
    initialize-Settles lib "theorem t := by sorry" "initial" (new_controller none)

saved_code : is_empty saved.current_lean_code ≡ false
unfolding render is_empty
saved_code = refl

restore-after_edits_example :
    (d : ProofFileController) × (restore_last_good_checkpoint lib
        (after_edits lib (put_block "ring" ∷ add_fragment "" ∷ []) (with_checkpoint "now" saved))
      ≡ returned saved.current_lean_code d)
    × (d.working_file ≡ some saved.current_lean_code)
    × (d.current_lean_code ≡ saved.current_lean_code)
    × (d.current_tactic_block ≡ saved.current_tactic_block)
restore-after_edits_example =
    restore-after_edits lib "now" (put_block "ring" ∷ add_fragment "" ∷ []) saved saved_code refl
