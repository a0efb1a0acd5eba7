-- ===== src/Outcome.antt =====
-- src/error_codes.py and src/outcome_codes.py: the error code of a result. `str` and `str.lower` are
-- parameters.
pub mod Timeout
use lean_econ_api.Prelude.{
  String, Bool, true, false, Option, none, some, List, [], ◌∷◌, ◌||◌, ◌&&◌, not, if◌then◌else◌, map,
}
use lean_econ_api.Text.{has_any, is_empty, has_text}
use lean_econ_api.Text.Lines.{join}
use lean_econ_api.Json.{
  Value, flag, text, items, Items, no_item, item, Members, no_member, member, object, Object,
  of_items, truthy, or_else, get_or, null,
}

-- `LeanEconErrorCode`
pub data LeanEconErrorCode : Type 0 where
  classification_rejected classification_failed : LeanEconErrorCode
  formalization_failed formalization_timeout formalization_unformalizable : LeanEconErrorCode
  proof_not_found proof_timeout : LeanEconErrorCode
  verification_rejected verification_sorry : LeanEconErrorCode
  internal_error invalid_input no_error : LeanEconErrorCode

-- `for item in value`: the items of a list, the keys of a dictionary or the characters of a text; none
-- is the `TypeError` of another value
unfoldable pub item_list : Items → List Value
item_list no_item = []
item_list (item v vs) = v ∷ item_list vs

unfoldable pub key_list : Members → List Value
key_list no_member = []
key_list (member k v m) = text k ∷ key_list m

unfoldable pub characters : String → List Value
characters String.[] = []
characters (String.◌∷◌ c s) = text (String.◌∷◌ c String.[]) ∷ characters s

unfoldable pub items_of : Value → Option (List Value)
unfolding item_list key_list characters
items_of (items vs) = some (item_list vs)
items_of (object m) = some (key_list m)
items_of (text s) = some (characters s)
items_of v = none

-- `part for part in parts if part`
unfoldable pub non_empty : List String → List String
unfolding is_empty
non_empty [] = []
non_empty (part ∷ parts) = let rest = non_empty parts in if is_empty part then rest else part ∷ rest

-- `any(p in part for part in parts)`
unfoldable pub any_has : String → List String → Bool
unfolding has_text
any_has p [] = false
any_has p (part ∷ parts) = has_text p part || any_has p parts

-- `value is False`
abbrev pub is_false : Value → Bool
is_false (flag b) = not b
is_false v = false

module _ (str : Value → String) (lower : String → String) where
  -- `str(result.get(key) or "")`
  unfoldable pub text_of : String → Object → String
  unfolding or_else get_or
  text_of key result = str (or_else (get_or null key result) (text ""))

  -- the failure reason, the diagnosis and the errors, in lower case
  unfoldable pub failure_parts : Object → Option (List String)
  unfolding items_of text_of join
  failure_parts result = elim (items_of (get_or (of_items []) "errors" result)) [
    | none ↦ none
    | some errors ↦ some (
        lower (text_of "failure_reason" result)
        ∷ lower (text_of "diagnosis" result)
        ∷ lower (join " " (map str errors))
        ∷ [])
  ]

  -- the codes after the test for a timeout
  unfoldable pub failure_code : Object → LeanEconErrorCode
  unfolding has_any text_of truthy
  failure_code result =
      let reason = lower (text_of "failure_reason" result) in
      if truthy (get_or null "formalization_failed" result)
      then if has_any ("unformalizable" ∷ "not supported" ∷ "requires" ∷ "definition" ∷ []) reason
        then formalization_unformalizable
        else formalization_failed
      else formalization_failed

  -- `formalize_error_code`; none is the `TypeError` of errors that cannot be gone through
  unfoldable pub formalize_error_code : Object → Option LeanEconErrorCode
  unfolding failure_parts failure_code non_empty join has_text truthy
  formalize_error_code result =
      if truthy (get_or null "success" result) then some no_error else elim (failure_parts result) [
        | none ↦ none
        | some parts ↦
            if has_text "timeout" (join " " (non_empty parts))
            then some formalization_timeout
            else some (failure_code result)
      ]

  -- `verify_error_code`
  unfoldable pub verify_error_code : Object → LeanEconErrorCode
  unfolding text_of has_text is_empty truthy
  verify_error_code result =
      let lean_code = text_of "lean_code" result in
      if truthy (get_or null "success" result)
      then no_error
      else if has_text "timeout" (text_of "stop_reason" result)
      then proof_timeout
      else if not (is_empty lean_code) && has_text "sorry" lean_code
      then verification_sorry
      else if is_false (get_or null "proof_generated" result)
      then proof_not_found
      else verification_rejected
