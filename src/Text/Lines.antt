-- ===== src/Text/Lines.antt =====
-- `str.splitlines` and `str.join`.
use Prim.Native.Char.{code}
use Prim.Native.String.{◌++◌}
use lean_econ_api.Prelude.{
  refl, ◌≡◌, ℕ, String, Bool, false, List, [], ◌∷◌, ◌&&◌, ◌||◌, leb, eqb, if◌then◌else◌, ◌≡◌,
}
use lean_econ_api.Text.{is_empty}

-- The characters that end a line.
unfoldable pub is_line_break : ℕ → Bool
is_line_break c =
    (leb 10 c && leb c 13) || (leb 28 c && leb c 30) || eqb c 133 || eqb c 8232 || eqb c 8233

abbrev starts_with_newline : String → Bool
starts_with_newline String.[] = false
starts_with_newline (String.◌∷◌ c s) = eqb (code c) 10

-- The first line, and those behind its end; a carriage return before a newline ends no line of its
-- own.
unfoldable pub break_lines : String → String × List String
unfolding is_line_break
break_lines String.[] = (String.[], [])
break_lines (String.◌∷◌ c s) =
    let (line, lines) = break_lines s in
    if is_line_break (code c)
    then if eqb (code c) 13 && starts_with_newline s
      then (line, lines)
      else (String.[], line ∷ lines)
    else (String.◌∷◌ c line, lines)

-- What stands behind the last line end is a line unless it is empty.
abbrev drop_empty_last : String → List String → List String
drop_empty_last line [] = if is_empty line then [] else line ∷ []
drop_empty_last line (next ∷ lines) = line ∷ drop_empty_last next lines

unfoldable pub splitlines : String → List String
unfolding break_lines is_empty
splitlines s = let (line, lines) = break_lines s in drop_empty_last line lines

-- `sep.join(parts)`
unfoldable pub join : String → List String → String
join sep [] = String.[]
join sep (part ∷ []) = part
join sep (part ∷ next ∷ parts) = part ++ sep ++ join sep (next ∷ parts)

splitlines_example : splitlines "a\r\nb\n\nc\n" ≡ "a" ∷ "b" ∷ "" ∷ "c" ∷ []
unfolding splitlines
splitlines_example = refl
