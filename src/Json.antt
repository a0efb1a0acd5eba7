-- ===== src/Json.antt =====
-- JSON values and objects: the dictionaries that the parts of the program hand to one another.
-- A number stands for an `int`, and for a `float` in units of its own.
pub mod Laws
use lean_econ_api.Prelude.{
  ℕ, zero, suc, String, Bool, true, false, Option, none, some, List, [], ◌∷◌, not, if◌then◌else◌,
}
use lean_econ_api.Text.{is_empty}
use lean_econ_api.Dict
use lean_econ_api.Dict.{Dict}

mutual
  pub data Value : Type 0 where
    null : Value
    flag : Bool → Value
    number : ℕ → Value
    text : String → Value
    items : Items → Value
    object : Members → Value

  pub data Items : Type 0 where
    no_item : Items
    item : Value → Items → Items

  pub data Members : Type 0 where
    no_member : Members
    member : String → Value → Members → Members

abbrev pub Object : Type 0
Object = Dict Value

-- A dictionary as a value, and back.
unfoldable pub members : Object → Members
members [] = no_member
members ((k, v) ∷ d) = member k v (members d)

unfoldable pub entries : Members → Object
entries no_member = []
entries (member k v m) = (k, v) ∷ entries m

unfoldable pub of_object : Object → Value
unfolding members
of_object d = object (members d)

unfoldable pub of_items : List Value → Value
of_items vs = items (go vs)
  where
    go : List Value → Items
    go [] = no_item
    go (v ∷ vs) = item v (go vs)

-- `bool(v)`
unfoldable pub truthy : Value → Bool
unfolding is_empty
truthy null = false
truthy (flag b) = b
truthy (number zero) = false
truthy (number (suc n)) = true
truthy (text s) = not (is_empty s)
truthy (items no_item) = false
truthy (items (item v vs)) = true
truthy (object no_member) = false
truthy (object (member k v m)) = true

-- `a or b`
unfoldable pub or_else : Value → Value → Value
unfolding truthy
or_else a b = if truthy a then a else b

-- `d.get(k, default)`; `d.get(k)` is the default `null`.
unfoldable pub get_or : Value → String → Object → Value
unfolding Dict.get
get_or default k d = elim (Dict.get k d) [ none ↦ default | some v ↦ v ]

-- `d.setdefault(k, v)`
unfoldable pub set_default : String → Value → Object → Object
unfolding Dict.contains Dict.put
set_default k v d = if Dict.contains k d then d else Dict.put k v d

-- `dict(v)`; `none` stands for the `TypeError` or `ValueError` of a value that is no dictionary.
unfoldable pub as_object : Value → Option Object
unfolding entries
as_object (object m) = some (entries m)
as_object (items no_item) = some []
as_object (text s) = if is_empty s then some [] else none
as_object v = none
