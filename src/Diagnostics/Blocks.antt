-- ===== src/Diagnostics/Blocks.antt =====
-- How the lines of the compiler's output fall into messages.
use lean_econ_api.Prelude.{
  ℕ, zero, suc, ◌+◌, ◌≤◌, String, Bool, true, false, Option, none, some, List, [], ◌∷◌, ◌≡◌, refl,
  if◌then◌else◌, arith, length, ap, map, length-append, ◌∙◌, ◌++◌,
}
use lean_econ_api.Text.{strip}
use lean_econ_api.Text.Lines.{splitlines}
use lean_econ_api.Diagnostics.{
  ends_message, continuation, rendered_message, message_of, parse_lines, parse_message,
  parse_plain_lean_diagnostics,
}

-- The text of a message: lines that end no message, and as many of them as there are up to `n`.
pub data IsText : ℕ → List String → List String → Type 0 where
  text_full : (lines : List String) → IsText zero [] lines
  text_end : (n : ℕ) → IsText n [] []
  text_ended :
      (n : ℕ) (line : String) (lines : List String)
      → ends_message line ≡ true
      → IsText n [] (line ∷ lines)
  text_more :
      (n : ℕ) (line : String) (taken rest : List String)
      → ends_message line ≡ false
      → IsText n taken rest
      → IsText (suc n) (line ∷ taken) rest

-- The lines of a text as `continuation` finds them.
record Split (n : ℕ) (lines : List String) (found : List String × List String) : Type 0 where
  taken : List String
  whole : lines ≡ taken ++ found.1
  stripped : found.0 ≡ map strip taken
  is_text : IsText n taken found.1

continuation-Split : (n : ℕ) (lines : List String) → Split n lines (continuation n lines)
unfolding continuation
continuation-Split zero lines = record {
  taken = [];
  whole = refl;
  stripped = refl;
  is_text = text_full lines;
}
continuation-Split (suc n) [] = record {
  taken = [];
  whole = refl;
  stripped = refl;
  is_text = text_end (suc n);
}
continuation-Split (suc n) (line ∷ lines) = go (continuation-Split n lines) (ends_message line) refl
  where
    go :
        Split n lines (continuation n lines)
        → (b : Bool) → ends_message line ≡ b
        → Split (suc n) (line ∷ lines) (
            if b
            then ([], line ∷ lines)
            else (strip line ∷ (continuation n lines).0, (continuation n lines).1))
    go h true e = record {
      taken = [];
      whole = refl;
      stripped = refl;
      is_text = text_ended (suc n) line lines e;
    }
    go h false e = record {
      taken = line ∷ h.taken;
      whole = ap (λ ls. line ∷ ls) h.whole;
      stripped = ap (λ ls. strip line ∷ ls) h.stripped;
      is_text = text_more n line h.taken (continuation n lines).1 e h.is_text;
    }

length-rest :
    (n m : ℕ) (lines : List String) (found : List String × List String)
    → Split n lines found
    → length lines ≤ m
    → length found.1 ≤ m
length-rest n m lines found h le =
    let sum : length lines ≡ length h.taken + length found.1 =
      ap length h.whole ∙ length-append h.taken found.1 in
    omega (arith, sum, le)

module _ (match_location : String → Option (String × String)) (level : String) where
  -- The lines of an output, and its messages: each line begins a message, belongs to the text of the
  -- last message, or is passed over.
  pub data Parsed : List String → List String → Type 0 where
    no_line : Parsed [] []
    other_line :
        (line : String) (lines results : List String)
        → message_of match_location level line ≡ none
        → Parsed lines results
        → Parsed (line ∷ lines) results
    message :
        (line location msg : String) (taken rest results : List String)
        → message_of match_location level line ≡ some (location, msg)
        → IsText 3 taken rest
        → Parsed rest results
        → Parsed (line ∷ taken ++ rest) (rendered_message location msg (map strip taken) ∷ results)

  message-Parsed :
      (line location msg : String) (lines : List String) (found : List String × List String)
      (results : List String)
      → message_of match_location level line ≡ some (location, msg)
      → Split 3 lines found
      → Parsed found.1 results
      → Parsed (line ∷ lines) (rendered_message location msg found.0 ∷ results)
  message-Parsed line location msg lines found results e h p =
      rw (h.whole, h.stripped) (message line location msg h.taken found.1 results e h.is_text p)

  parse_lines-Parsed :
      (n : ℕ) (lines : List String)
      → length lines ≤ n
      → Parsed lines (parse_lines match_location n level lines)
  unfolding parse_lines parse_message
  parse_lines-Parsed zero [] le = no_line
  parse_lines-Parsed zero (line ∷ lines) le = absurd (omega (arith, le))
  parse_lines-Parsed (suc n) [] le = no_line
  parse_lines-Parsed (suc n) (line ∷ lines) le =
      go (λ ls l. parse_lines-Parsed n ls l) (message_of match_location level line) refl
    where
      go :
          ((ls : List String) → length ls ≤ n → Parsed ls (parse_lines match_location n level ls))
          → (x : Option (String × String)) → message_of match_location level line ≡ x
          → Parsed
              (line ∷ lines)
              (parse_message match_location (parse_lines match_location n level) x lines)
      go later none e =
          other_line line lines (parse_lines match_location n level lines) e
            (later lines (omega (arith, le)))
      go later (some (location, msg)) e =
          let found = continuation 3 lines in
          let h = continuation-Split 3 lines in
          message-Parsed line location msg lines found (parse_lines match_location n level found.1)
            e h (later found.1 (length-rest 3 n lines found h (omega (arith, le))))

  -- The messages of an output are those of its lines: the parser goes through all of them, each line
  -- begins a message of the level, or is one of the at most three lines of text behind it, or is
  -- passed over; a text breaks off only at a line that ends a message, at the end of the output, or
  -- after three lines.
  pub parse_plain_lean_diagnostics-Parsed :
      (text : String)
      → Parsed (splitlines text) (parse_plain_lean_diagnostics match_location text level)
  unfolding parse_plain_lean_diagnostics
  parse_plain_lean_diagnostics-Parsed text =
      let lines = splitlines text in parse_lines-Parsed (length lines) lines (omega arith)
