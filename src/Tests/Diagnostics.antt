-- ===== src/Tests/Diagnostics.antt =====
-- The parsers of diagnostics at concrete inputs.
use lean_econ_api.Prelude.{String, Option, none, some, [], ◌∷◌, ◌≡◌, refl, if◌then◌else◌, ◌==◌}
use lean_econ_api.Json.{Value, text, number, items, item, no_item, object, member, no_member}
use lean_econ_api.Text.Lines.{splitlines}
use lean_econ_api.Diagnostics.{parse_plain_lean_diagnostics}
use lean_econ_api.Diagnostics.Blocks.{Parsed, parse_plain_lean_diagnostics-Parsed}
use lean_econ_api.Diagnostics.Payloads.{
  strip_markdown_fences, extract_json_object, extract_json_payload,
}

abbrev no_location : String → Option (String × String)
no_location s = none

abbrev output : String
output = "info\nP.lean:1:2: error: bad\n  detail\n\nP.lean:3:0: warning: odd"

parse_plain_lean_diagnostics-Parsed_example :
    Parsed no_location "error"
      ("info" ∷ "P.lean:1:2: error: bad" ∷ "  detail" ∷ "" ∷ "P.lean:3:0: warning: odd" ∷ [])
      ("P.lean:1:2: bad\ndetail" ∷ [])
unfolding splitlines parse_plain_lean_diagnostics
parse_plain_lean_diagnostics-Parsed_example =
    parse_plain_lean_diagnostics-Parsed no_location "error" output

-- a `json.loads` that knows one text
abbrev loads : String → Option Value
loads s = if s == "{1}" then some (object (member "n" (number 1) no_member)) else none

fences_test : strip_markdown_fences "```json\n{1}\n```" ≡ "{1}"
unfolding strip_markdown_fences
fences_test = refl

braces_test : extract_json_object loads "The answer: {1}." ≡ some (("n", number 1) ∷ [])
unfolding extract_json_object
braces_test = refl

payload_test :
    extract_json_payload loads
      (items (item (object (member "text" (text "```\n{1}\n```") no_member)) no_item))
    ≡ some (("n", number 1) ∷ [])
unfolding extract_json_payload lean_econ_api.Dict.get
payload_test = refl
