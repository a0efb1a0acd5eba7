-- ===== src/ProofFile/Settled.antt =====
-- The code, the working file and the checkpoints after each method.
use Prim.Native.String.{◌++◌ as ◌<>◌}
use lean_econ_api.Prelude.{
  String, true, false, Option, none, some, List, [], ◌∷◌, ◌++◌, ◌≡◌, refl, ◌⊎◌, inl, inr, arith,
  if◌then◌else◌, Step, raised, returned, All, All-append, is_some, Bool-cases, ap, ◌∙◌,
}
use mathlib.Core.Path.{subst}
use lean_econ_api.Text.{is_empty}
use lean_econ_api.Text.Laws.{is_empty-append}
use lean_econ_api.Text.Lines.{join}
use lean_econ_api.ProofFile.{
  replace, append, restore, ProofCheckpoint, ProofFileController, Library, render,
  render_current_code, require_initialized, save_checkpoint, save_if_labelled, last_checkpoint,
  normalize_tactic_block, write_current_code, initialize, replace_block, replace_tactic_block,
  combined_block, append_tactic_block, restore_last_good_checkpoint, tactic_region_begin,
  indent_block, with_checkpoint, checkpoint_of, SorryLine, normalize_theorem_input, run_call,
  save_first, Call,
}

-- A checkpoint whose code is its block, rendered.
abbrev pub IsRendered : ProofFileController → ProofCheckpoint → Type 0
IsRendered c p = p.lean_code ≡ render c.prefix c.indent p.tactic_block c.suffix

-- The working file has the current code, which is the current block, rendered; so it is at each
-- checkpoint, and there is one.
pub record IsSettled (c : ProofFileController) : Type 0 where
  pub code : c.current_lean_code ≡ render_current_code c
  pub file : c.working_file ≡ some c.current_lean_code
  pub rendered : All (IsRendered c) c.checkpoints
  pub saved : is_some (last_checkpoint c.checkpoints) ≡ true

pub is_empty-render :
    (prefix indent block suffix : String) → is_empty (render prefix indent block suffix) ≡ false
unfolding render join is_empty
is_empty-render prefix indent block suffix =
    let region = (indent <> tactic_region_begin) <> "\n" <> indent_block indent block in
    grind (arith, is_empty-append)

pub last-snoc :
    (ps : List ProofCheckpoint) (p : ProofCheckpoint) → last_checkpoint (ps ++ (p ∷ [])) ≡ some p
unfolding last_checkpoint
last-snoc [] p = refl
last-snoc (q ∷ []) p = refl
last-snoc (q ∷ r ∷ ps) p = last-snoc (r ∷ ps) p

-- The end of a method: it raises and leaves all as it was, or only the write failed; or it returns
-- the current code of a settled controller.
abbrev pub Settles : Library → ProofFileController → Step ProofFileController String → Type 0
Settles lib c (raised m d) = (d ≡ c) ⊎ (lib.write_error d.current_lean_code ≡ some m)
Settles lib c (returned code d) = IsSettled d × (code ≡ d.current_lean_code)

-- what a controller of a rendered block and of no empty code does
is_initialized :
    (c : ProofFileController)
    → c.current_lean_code ≡ render_current_code c
    → is_empty c.current_lean_code ≡ false
is_initialized c h =
    ap is_empty h ∙ is_empty-render c.prefix c.indent c.current_tactic_block c.suffix

require-settled :
    {A : Type 0} (c : ProofFileController)
    (method : ProofFileController → Step ProofFileController A)
    → c.current_lean_code ≡ render_current_code c
    → require_initialized method c ≡ method c
unfolding require_initialized
require-settled c method h = simp (is_initialized c h)

-- A written controller whose checkpoints are rendered is settled once it has a checkpoint.
IsSettled-with_checkpoint :
    (label : String) (c : ProofFileController)
    → c.current_lean_code ≡ render_current_code c
    → c.working_file ≡ some c.current_lean_code
    → All (IsRendered c) c.checkpoints
    → IsSettled (with_checkpoint label c)
IsSettled-with_checkpoint label c code file rendered = record {
  code = code;
  file = file;
  rendered =
      All-append (IsRendered c) c.checkpoints (checkpoint_of label c ∷ []) rendered (code, tt);
  saved = ap is_some (last-snoc c.checkpoints (checkpoint_of label c));
}

save_checkpoint-settled :
    (label : String) (c : ProofFileController)
    → c.current_lean_code ≡ render_current_code c
    → save_checkpoint label c ≡ returned (checkpoint_of label c) (with_checkpoint label c)
unfolding save_checkpoint require_initialized
save_checkpoint-settled label c h = simp (is_initialized c h)

module _ (lib : Library) where
  save_if_labelled-Settles :
      (label : Option String) (b c : ProofFileController)
      → IsSettled c
      → Settles lib b (save_if_labelled label c)
  unfolding save_if_labelled
  save_if_labelled-Settles none b c h = (h, refl)
  save_if_labelled-Settles (some label) b c h = elim (Bool-cases (is_empty label)) [
    | inl e ↦ rw e (h, refl)
    | inr e ↦
        rw (e, save_checkpoint-settled label c h.code)
          (IsSettled-with_checkpoint label c h.code h.file h.rendered, refl)
  ]

  -- the write before the rest of a method
  write_current_code-Settles :
      (b c : ProofFileController) (method : ProofFileController → Step ProofFileController String)
      → Settles lib b (method (record c { working_file = some c.current_lean_code }))
      → Settles lib b (write_current_code lib method c)
  unfolding write_current_code
  write_current_code-Settles b c method h = go (lib.write_error c.current_lean_code) refl
    where
      go :
          (x : Option String)
          → lib.write_error c.current_lean_code ≡ x
          → Settles lib b (elim x [
            | some message ↦ raised message c
            | none ↦ method (record c { working_file = some c.current_lean_code })
          ])
      go none e = h
      go (some m) e = inr e

  replace_block-Settles :
      (block : String) (label : Option String) (c : ProofFileController)
      → IsSettled c
      → Settles lib c (replace_block lib block label c)
  unfolding replace_block
  replace_block-Settles block label c h = go (normalize_tactic_block lib block)
    where
      go :
          (x : Option String)
          → Settles lib c (elim x [
            | none ↦ raised "Tactic block cannot be empty" c
            | some block ↦ write_current_code lib (save_if_labelled label) (record c {
              current_tactic_block = block;
              current_lean_code = render c.prefix c.indent block c.suffix;
            })
          ])
      go none = inl refl
      go (some b) =
          let code = render c.prefix c.indent b c.suffix in
          let d : ProofFileController = record c {
            current_tactic_block = b;
            current_lean_code = code;
          } in
          let e : ProofFileController = record d { working_file = some code } in
          let settled : IsSettled e = record {
            code = refl;
            file = refl;
            rendered = h.rendered;
            saved = h.saved;
          } in
          write_current_code-Settles c d (save_if_labelled label)
            (save_if_labelled-Settles label c e settled)

  pub replace_tactic_block-Settles :
      (block : String) (label : Option String) (c : ProofFileController)
      → IsSettled c
      → Settles lib c (replace_tactic_block lib block label c)
  unfolding replace_tactic_block
  replace_tactic_block-Settles block label c h =
      rw (require-settled c (replace_block lib block label) h.code)
        (replace_block-Settles block label c h)

  pub append_tactic_block-Settles :
      (fragment : String) (label : Option String) (c : ProofFileController)
      → IsSettled c
      → Settles lib c (append_tactic_block lib fragment label c)
  unfolding append_tactic_block require_initialized
  append_tactic_block-Settles fragment label c h =
      rw (is_initialized c h.code) (go (normalize_tactic_block lib fragment))
    where
      go :
          (x : Option String)
          → Settles lib c (elim x [
            | none ↦ raised "Tactic block cannot be empty" c
            | some f ↦
                replace_tactic_block lib (combined_block lib c.current_tactic_block f) label c
          ])
      go none = inl refl
      go (some f) =
          replace_tactic_block-Settles (combined_block lib c.current_tactic_block f) label c h

  All-last :
      (P : ProofCheckpoint → Type 0) (ps : List ProofCheckpoint) (p : ProofCheckpoint)
      → All P ps
      → last_checkpoint ps ≡ some p
      → P p
  unfolding last_checkpoint
  All-last P [] p h e = cc
  All-last P (q ∷ []) p h e = let same : q ≡ p = cc in subst P same h.0
  All-last P (q ∷ r ∷ ps) p h e = All-last P (r ∷ ps) p h.1 e

  pub restore_last_good_checkpoint-Settles :
      (c : ProofFileController) → IsSettled c → Settles lib c (restore_last_good_checkpoint lib c)
  unfolding restore_last_good_checkpoint require_initialized
  restore_last_good_checkpoint-Settles c h =
      rw (is_initialized c h.code) (go (last_checkpoint c.checkpoints) refl)
    where
      go :
          (x : Option ProofCheckpoint)
          → last_checkpoint c.checkpoints ≡ x
          → Settles lib c (elim x [
            | none ↦ raised "No checkpoints are available to restore" c
            | some p ↦
                write_current_code lib
                  (λ d. returned d.current_lean_code d)
                  (record c {
                    current_tactic_block = p.tactic_block;
                    current_lean_code = p.lean_code;
                  })
          ])
      go none e = inl refl
      go (some p) e =
          let d : ProofFileController = record c {
            current_tactic_block = p.tactic_block;
            current_lean_code = p.lean_code;
          } in
          let settled : IsSettled (record d { working_file = some p.lean_code }) = record {
            code = All-last (IsRendered c) c.checkpoints p h.rendered e;
            file = refl;
            rendered = h.rendered;
            saved = h.saved;
          } in
          write_current_code-Settles c d (λ d. returned d.current_lean_code d) (settled, refl)

  -- Each call on a settled controller that returns leaves it settled and returns its code: the
  -- working file has the code that is the tactic block, rendered, and so has each checkpoint. Each
  -- call that raises has changed nothing, except where the write of the new code failed.
  pub run_call-Settles :
      (call : Call) (c : ProofFileController) → IsSettled c → Settles lib c (run_call lib call c)
  unfolding run_call
  run_call-Settles (replace block label) c h = replace_tactic_block-Settles block label c h
  run_call-Settles (append fragment label) c h = append_tactic_block-Settles fragment label c h
  run_call-Settles restore c h = restore_last_good_checkpoint-Settles c h

  save_first-Settles :
      (label : String) (b c : ProofFileController)
      → c.current_lean_code ≡ render_current_code c
      → c.working_file ≡ some c.current_lean_code
      → Settles lib b (save_first lib label c)
  unfolding save_first
  save_first-Settles label b c code file =
      let d : ProofFileController = record c { checkpoints = [] } in
      rw (Settles, save_first, save_checkpoint-settled label d code)
        (IsSettled-with_checkpoint label d code file tt, refl)

  -- `initialize` that returns gives a settled controller; one that raises has changed nothing,
  -- except where the write failed.
  pub initialize-Settles :
      (theorem label : String) (c : ProofFileController)
      → Settles lib c (initialize lib theorem label c)
  unfolding initialize
  initialize-Settles theorem label c =
      go (lib.search_sorry_line (normalize_theorem_input lib theorem))
    where
      go :
          (x : Option SorryLine)
          → Settles lib c (elim x [
            | none ↦ raised "theorem_with_sorry must contain a standalone `sorry` line" c
            | some m ↦
                let indent = if is_empty m.group then "  " else m.group in
                write_current_code lib (save_first lib label) (record c {
                  theorem_with_sorry = normalize_theorem_input lib theorem;
                  prefix = m.before;
                  suffix = m.after;
                  indent = indent;
                  current_tactic_block = "sorry";
                  current_lean_code = render m.before indent "sorry" m.after;
                })
          ])
      go none = inl refl
      go (some m) =
          let indent = if is_empty m.group then "  " else m.group in
          let code = render m.before indent "sorry" m.after in
          let d : ProofFileController = record c {
            theorem_with_sorry = normalize_theorem_input lib theorem;
            prefix = m.before;
            suffix = m.after;
            indent = indent;
            current_tactic_block = "sorry";
            current_lean_code = code;
          } in
          let e : ProofFileController = record d { working_file = some code } in
          write_current_code-Settles c d (save_first lib label)
            (save_first-Settles label c e refl refl)
