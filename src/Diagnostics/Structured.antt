-- ===== src/Diagnostics/Structured.antt =====
-- `normalize_structured_diagnostics` of src/lean_diagnostics.py. `str` is a parameter.
use Prim.Native.String.{◌++◌}
use lean_econ_api.Prelude.{
  String, Bool, false, Option, none, some, List, [], ◌∷◌, if◌then◌else◌, ◌==◌, map,
}
use lean_econ_api.Text.{is_empty, strip}
use lean_econ_api.Json.{
  Value, null, flag, text, items, Items, no_item, item, Object, of_object, of_items, truthy, get_or,
}
use lean_econ_api.Dict
use lean_econ_api.Diagnostics.Payloads.{dict_or_none}

-- `errors`, `warnings` and `normalized_items`
pub record Normalized : Type 0 where
  pub errors : List String
  pub warnings : List String
  pub normalized_items : List Value

abbrev object_or : Object → Option Value → Object
object_or payload none = payload
object_or payload (some v) = elim (dict_or_none v) [ none ↦ payload | some root ↦ root ]

unfoldable root_of : Option String → Object → Object
unfolding is_empty Dict.get
root_of none payload = payload
root_of (some result_key) payload =
    if is_empty result_key then payload else object_or payload (Dict.get result_key payload)

unfoldable items_in : Object → Items
unfolding get_or of_items
items_in root = elim (get_or (of_items []) "items" root) [ items vs ↦ vs | other ↦ no_item ]

unfoldable pub has_severity : String → Object → Bool
unfolding get_or
has_severity level fields = elim (get_or null "severity" fields) [
  | text s ↦ s == level
  | other ↦ false
]

-- The elements that are dictionaries.
unfoldable pub dicts : Items → List Object
unfolding dict_or_none
dicts no_item = []
dicts (item v vs) =
    let rest = dicts vs in elim (dict_or_none v) [ none ↦ rest | some fields ↦ fields ∷ rest ]

module _ (str : Value → String) where
  unfoldable message_in : Object → String
  unfolding strip get_or
  message_in fields = strip (str (get_or (text "") "message" fields))

  -- `prefix + message`
  unfoldable pub prefixed : Object → String
  unfolding message_in truthy get_or
  prefixed fields =
      let line = get_or null "line" fields in
      (if truthy line then "line " ++ str line ++ ": " else "") ++ message_in fields

  unfoldable pub normalized_item : Object → Value
  unfolding of_object message_in get_or
  normalized_item fields = of_object (
      ("severity", get_or null "severity" fields)
      ∷ ("message", text (message_in fields))
      ∷ ("line", get_or null "line" fields)
      ∷ ("column", get_or null "column" fields)
      ∷ [])

  -- One pass of the loop over a dictionary, before the rest of the list.
  unfoldable note_item : Object → Normalized → Normalized
  unfolding prefixed normalized_item has_severity
  note_item fields rest = record {
    errors = if has_severity "error" fields then prefixed fields ∷ rest.errors else rest.errors;
    warnings =
        if has_severity "error" fields
        then rest.warnings
        else if has_severity "warning" fields
        then prefixed fields ∷ rest.warnings
        else rest.warnings;
    normalized_items = normalized_item fields ∷ rest.normalized_items;
  }

  unfoldable pub normalize_items : Items → Normalized
  unfolding dict_or_none note_item
  normalize_items no_item = record { errors = []; warnings = []; normalized_items = [] }
  normalize_items (item v vs) =
      let rest = normalize_items vs in
      elim (dict_or_none v) [ none ↦ rest | some fields ↦ note_item fields rest ]

  unfoldable pub normalize_structured_diagnostics : Option String → Object → Object
  unfolding root_of items_in normalize_items truthy get_or of_items
  normalize_structured_diagnostics result_key payload =
      let root = root_of result_key payload in
      let found = normalize_items (items_in root) in
      ("success", flag (truthy (get_or (flag false) "success" root)))
      ∷ ("errors", of_items (map text found.errors))
      ∷ ("warnings", of_items (map text found.warnings))
      ∷ ("items", of_items found.normalized_items)
      ∷ []
