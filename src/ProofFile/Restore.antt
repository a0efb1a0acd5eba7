-- ===== src/ProofFile/Restore.antt =====
-- A restore after edits that were not saved.
use lean_econ_api.Prelude.{
  String, false, Option, none, some, List, [], ◌∷◌, ◌≡◌, refl, raised, returned, step_state,
}
use lean_econ_api.Text.{is_empty}
use lean_econ_api.ProofFile.{
  ProofCheckpoint, ProofFileController, Library, render, require_initialized, with_checkpoint,
  checkpoint_of, save_if_labelled, last_checkpoint, normalize_tactic_block, write_current_code,
  replace_block, replace_tactic_block, combined_block, append_tactic_block, Call, replace, append,
  restore_last_good_checkpoint, run_call,
}
use lean_econ_api.ProofFile.Settled.{is_empty-render, last-snoc}

-- An edit without a checkpoint.
pub data Edit : Type 0 where
  put_block add_fragment : String → Edit

abbrev pub call_of : Edit → Call
call_of (put_block block) = replace block none
call_of (add_fragment fragment) = append fragment none

-- The controller after edits, of which some may raise.
unfoldable pub after_edits : Library → List Edit → ProofFileController → ProofFileController
after_edits lib [] c = c
after_edits lib (e ∷ es) c = after_edits lib es (step_state (run_call lib (call_of e) c))

-- `p` is what a restore brings back.
record IsRestorable (p : ProofCheckpoint) (c : ProofFileController) : Type 0 where
  last : last_checkpoint c.checkpoints ≡ some p
  initialized : is_empty c.current_lean_code ≡ false

module _ (lib : Library) (p : ProofCheckpoint) where
  replace_block-IsRestorable :
      (block : String) (c : ProofFileController)
      → IsRestorable p c
      → IsRestorable p (step_state (replace_block lib block none c))
  unfolding replace_block write_current_code save_if_labelled
  replace_block-IsRestorable block c h = go (normalize_tactic_block lib block)
    where
      written :
          (d : ProofFileController)
          → IsRestorable p d
          → (x : Option String)
          → IsRestorable p (
              step_state (elim x [
                | some message ↦ raised message d
                | none ↦
                    returned d.current_lean_code
                      (record d { working_file = some d.current_lean_code })
              ]))
      written d k none = record { last = k.last; initialized = k.initialized }
      written d k (some m) = k

      go :
          (x : Option String)
          → IsRestorable p (
              step_state (elim x [
                | none ↦ raised "Tactic block cannot be empty" c
                | some block ↦ write_current_code lib (save_if_labelled none) (record c {
                  current_tactic_block = block;
                  current_lean_code = render c.prefix c.indent block c.suffix;
                })
              ]))
      go none = h
      go (some b) =
          let code = render c.prefix c.indent b c.suffix in
          written (record c { current_tactic_block = b; current_lean_code = code })
            (record { last = h.last; initialized = is_empty-render c.prefix c.indent b c.suffix })
            (lib.write_error code)

  replace_tactic_block-IsRestorable :
      (block : String) (c : ProofFileController)
      → IsRestorable p c
      → IsRestorable p (step_state (replace_tactic_block lib block none c))
  unfolding replace_tactic_block require_initialized
  replace_tactic_block-IsRestorable block c h =
      rw h.initialized (replace_block-IsRestorable block c h)

  edit-IsRestorable :
      (e : Edit) (c : ProofFileController)
      → IsRestorable p c
      → IsRestorable p (step_state (run_call lib (call_of e) c))
  unfolding run_call append_tactic_block require_initialized
  edit-IsRestorable (put_block block) c h = replace_tactic_block-IsRestorable block c h
  edit-IsRestorable (add_fragment fragment) c h =
      rw h.initialized (go (normalize_tactic_block lib fragment))
    where
      go :
          (x : Option String)
          → IsRestorable p (
              step_state (elim x [
                | none ↦ raised "Tactic block cannot be empty" c
                | some f ↦
                    replace_tactic_block lib (combined_block lib c.current_tactic_block f) none c
              ]))
      go none = h
      go (some f) =
          replace_tactic_block-IsRestorable (combined_block lib c.current_tactic_block f) c h

  after_edits-IsRestorable :
      (es : List Edit) (c : ProofFileController)
      → IsRestorable p c
      → IsRestorable p (after_edits lib es c)
  unfolding after_edits
  after_edits-IsRestorable [] c h = h
  after_edits-IsRestorable (e ∷ es) c h =
      after_edits-IsRestorable es (step_state (run_call lib (call_of e) c))
        (edit-IsRestorable e c h)

  restore-IsRestorable :
      (c : ProofFileController)
      → IsRestorable p c
      → lib.write_error p.lean_code ≡ none
      → (d : ProofFileController) × (restore_last_good_checkpoint lib c ≡ returned p.lean_code d)
        × (d.working_file ≡ some p.lean_code)
        × (d.current_lean_code ≡ p.lean_code)
        × (d.current_tactic_block ≡ p.tactic_block)
  unfolding restore_last_good_checkpoint require_initialized write_current_code
  restore-IsRestorable c h writes = (
    record c {
      current_tactic_block = p.tactic_block;
      current_lean_code = p.lean_code;
      working_file = some p.lean_code;
    },
    rw (h.initialized, h.last, write_current_code, writes) refl,
    refl,
    refl,
    refl,
  )

-- After a checkpoint and any edits that save none, of which some may raise, also by a write that
-- failed half way, a restore whose own write succeeds brings back the code and the block of the
-- checkpoint, and the working file has that code.
pub restore-after_edits :
    (lib : Library) (label : String) (es : List Edit) (c : ProofFileController)
    → is_empty c.current_lean_code ≡ false
    → lib.write_error c.current_lean_code ≡ none
    → (d : ProofFileController) × (restore_last_good_checkpoint lib
          (after_edits lib es (with_checkpoint label c))
        ≡ returned c.current_lean_code d)
      × (d.working_file ≡ some c.current_lean_code)
      × (d.current_lean_code ≡ c.current_lean_code)
      × (d.current_tactic_block ≡ c.current_tactic_block)
restore-after_edits lib label es c initialized writes =
    let p = checkpoint_of label c in
    let start : IsRestorable p (with_checkpoint label c) = record {
      last = last-snoc c.checkpoints p;
      initialized = initialized;
    } in
    restore-IsRestorable lib p (after_edits lib es (with_checkpoint label c))
      (after_edits-IsRestorable lib p es (with_checkpoint label c) start) writes
