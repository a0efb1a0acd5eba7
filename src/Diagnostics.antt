-- ===== src/Diagnostics.antt =====
-- src/lean_diagnostics.py: `parse_plain_lean_diagnostics`, which reads the output of the Lean compiler,
-- and the texts that JSON stands in. The regular expression of a location behind a level is a
-- parameter, as is `json.loads`.
pub mod Blocks
pub mod Payloads
pub mod Structured
use Prim.Native.String.{◌++◌}
use lean_econ_api.Prelude.{
  ℕ, zero, suc, ◌+◌, ◌-◌, String, Bool, true, false, Option, none, some, List, [], ◌∷◌, ◌||◌,
  if◌then◌else◌, map, length,
}
use lean_econ_api.Text.{len, is_empty, take, strip, starts_with, has_text}
use lean_econ_api.Text.Lines.{splitlines, join}

-- `s[n:]`
unfoldable pub drop : ℕ → String → String
drop zero s = s
drop (suc n) String.[] = String.[]
drop (suc n) (String.◌∷◌ c s) = drop n s

-- `s.split(sep, 1)`, when `sep` is in `s`: what stands before its first place, and behind it.
unfoldable pub split_once : String → String → String × String
unfolding starts_with len drop
split_once sep String.[] = (String.[], String.[])
split_once sep (String.◌∷◌ c s) =
    let (before, behind) = split_once sep s in
    if starts_with sep (String.◌∷◌ c s)
    then (String.[], drop (len sep) (String.◌∷◌ c s))
    else (String.◌∷◌ c before, behind)

-- Where a line ends the text of the message above it.
unfoldable pub ends_message : String → Bool
unfolding is_empty strip has_text starts_with
ends_message candidate =
    is_empty (strip candidate)
    || (has_text ": error:" candidate || has_text ": warning:" candidate)
    || (starts_with "error: " candidate || starts_with "warning: " candidate)

-- `continuation`: at most so many lines, and the lines behind them.
unfoldable pub continuation : ℕ → List String → List String × List String
unfolding ends_message strip
continuation zero lines = ([], lines)
continuation (suc n) [] = ([], [])
continuation (suc n) (candidate ∷ lines) =
    let (taken, rest) = continuation n lines in
    if ends_message candidate then ([], candidate ∷ lines) else (strip candidate ∷ taken, rest)

-- `rendered`
unfoldable pub located : String → String → String
unfolding is_empty
located location msg = if is_empty location then msg else location ++ ": " ++ msg

unfoldable pub rendered_message : String → String → List String → String
unfolding located join
rendered_message location msg [] = located location msg
rendered_message location msg (line ∷ lines) =
    located location msg ++ "\n" ++ join "\n" (line ∷ lines)

-- The two groups of `(.*\.lean:\d+:\d+):(.*)`, where it matches.
module _ (match_location : String → Option (String × String)) where
  unfoldable pub located_message : Option (String × String) → Option (String × String)
  unfolding strip
  located_message none = none
  located_message (some (location, msg)) = some (strip location, strip msg)

  -- `location` and `msg` of a line, where it begins a message of the level.
  unfoldable pub message_of : String → String → Option (String × String)
  unfolding strip has_text starts_with split_once drop len located_message
  message_of level line =
      let sep = ": " ++ level ++ ":" in
      let (location, msg) = split_once sep line in
      if has_text sep line
      then some (strip location, strip msg)
      else if starts_with (level ++ ": ") line
      then located_message (match_location (drop (len level + 2) line))
      else none

  -- The loop: `index` and `results` are the lines left and the results to come.
  unfoldable pub parse_message :
      (List String → List String) → Option (String × String) → List String → List String
  unfolding continuation rendered_message
  parse_message parse none lines = parse lines
  parse_message parse (some (location, msg)) lines =
      let (taken, rest) = continuation 3 lines in rendered_message location msg taken ∷ parse rest

  unfoldable pub parse_lines : ℕ → String → List String → List String
  unfolding message_of parse_message
  parse_lines zero level lines = []
  parse_lines (suc n) level [] = []
  parse_lines (suc n) level (line ∷ lines) =
      parse_message (parse_lines n level) (message_of level line) lines

  unfoldable pub parse_plain_lean_diagnostics : String → String → List String
  unfolding parse_lines splitlines
  parse_plain_lean_diagnostics text level =
      let lines = splitlines text in parse_lines (length lines) level lines
