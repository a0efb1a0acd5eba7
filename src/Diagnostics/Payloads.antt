-- ===== src/Diagnostics/Payloads.antt =====
-- src/lean_diagnostics.py: the JSON in a text of a model or of a tool, and the diagnostics in it.
-- `json.loads` is a parameter, none where it raises a `JSONDecodeError`, and so is `str`.
use lean_econ_api.Prelude.{
  ℕ, suc, ◌+◌, ◌-◌, String, Bool, Option, none, some, ◌||◌, if◌then◌else◌, leb, ◌==◌,
}
use lean_econ_api.Text.{len, take, strip, starts_with, has_text}
use lean_econ_api.Json.{Value, text, items, object, Items, no_item, item, Object, entries}
use lean_econ_api.Dict
use lean_econ_api.Diagnostics.{drop, split_once}

infixl 5 ◌>>=◌
-- What is none answers with none.
abbrev ◌>>=◌ {ℓ κ} : {A : Type ℓ} {B : Type κ} → Option A → (A → Option B) → Option B
none >>= f = none
some a >>= f = f a

-- `s.endswith(p)`
unfoldable ends_with : String → String → Bool
ends_with p String.[] = p == String.[]
ends_with p (String.◌∷◌ c s) = (p == String.◌∷◌ c s) || ends_with p s

-- `s.find(p)` and `s.rfind(p)`, none for -1
unfoldable find : String → String → Option ℕ
unfolding starts_with
find p String.[] = none
find p (String.◌∷◌ c s) =
    let later = find p s in
    if starts_with p (String.◌∷◌ c s)
    then some 0
    else elim later [ none ↦ none | some n ↦ some (suc n) ]

unfoldable rfind : String → String → Option ℕ
unfolding starts_with
rfind p String.[] = none
rfind p (String.◌∷◌ c s) =
    let here = if starts_with p (String.◌∷◌ c s) then some 0 else none in
    elim (rfind p s) [ none ↦ here | some n ↦ some (suc n) ]

unfoldable without_opening_fence : String → String
unfolding starts_with has_text split_once
without_opening_fence stripped =
    if starts_with "```" stripped
    then if has_text "\n" stripped then (split_once "\n" stripped).1 else stripped
    else stripped

unfoldable without_closing_fence : String → String
unfolding ends_with take len
without_closing_fence stripped =
    if ends_with "```" stripped then take (len stripped - 3) stripped else stripped

unfoldable pub strip_markdown_fences : String → String
unfolding strip without_opening_fence without_closing_fence
strip_markdown_fences s = strip (without_closing_fence (without_opening_fence (strip s)))

-- `payload if isinstance(payload, dict) else None`
unfoldable pub dict_or_none : Value → Option Object
unfolding entries
dict_or_none (object m) = some (entries m)
dict_or_none v = none

-- `stripped[start : end + 1]`, from the first opening brace to the last closing one
unfoldable in_braces : String → Option String
unfolding find rfind take drop
in_braces stripped = do
  start ← find "{" stripped
  end ← rfind "}" stripped
  if leb end start then none else some (take (end + 1 - start) (drop start stripped))

module _ (loads : String → Option Value) where
  unfoldable pub extract_json_object : String → Option Object
  unfolding strip_markdown_fences in_braces dict_or_none
  extract_json_object s =
      let stripped = strip_markdown_fences s in
      elim (loads stripped) [
        | some payload ↦ dict_or_none payload
        | none ↦ do braces ← in_braces stripped; payload ← loads braces; dict_or_none payload
      ]

  -- The JSON in the text of the first element of a list.
  unfoldable first_text : Items → Option Object
  unfolding dict_or_none extract_json_object
  first_text no_item = none
  first_text (item first rest) = do
    fields ← dict_or_none first
    value ← Dict.get "text" fields
    elim value [ text s ↦ extract_json_object s | other ↦ none ]

  -- A payload that is a dictionary or a list, as it is or as a text decodes to it.
  unfoldable structured_payload : Value → Option Object
  unfolding entries first_text
  structured_payload (object m) = some (entries m)
  structured_payload (items vs) = first_text vs
  structured_payload v = none

  unfoldable pub extract_json_payload : Value → Option Object
  unfolding strip_markdown_fences extract_json_object structured_payload
  extract_json_payload (text s) =
      let stripped = strip_markdown_fences s in
      elim (loads stripped) [
        | none ↦ extract_json_object stripped
        | some decoded ↦ structured_payload decoded
      ]
  extract_json_payload payload = structured_payload payload
