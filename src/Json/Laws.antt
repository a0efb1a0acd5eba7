-- ===== src/Json/Laws.antt =====
-- What can be read from an object after a write, and objects as values.
use lean_econ_api.Prelude.{String, some, [], ◌∷◌, ◌≡◌, refl, ◌==◌, if◌then◌else◌, arith, ap, eq_iff}
use lean_econ_api.Dict
use lean_econ_api.Dict.Laws.{get-put, contains-eq-is_some}
use lean_econ_api.Json.{Value, Object, get_or, set_default, members, entries, of_object, as_object}

pub get_or-put :
    (w : Value) (k j : String) (v : Value) (d : Object)
    → get_or w j (Dict.put k v d) ≡ (if k == j then v else get_or w j d)
unfolding get_or
get_or-put w k j v d = ground (arith, get-put k j v d)

pub get_or-set_default :
    (w : Value) (k j : String) (v : Value) (d : Object)
    → get_or w j (set_default k v d) ≡ (if k == j then get_or v j d else get_or w j d)
unfolding get_or set_default
get_or-set_default w k j v d =
    ground (arith, get-put k j v d, contains-eq-is_some k d, contains-eq-is_some j d, eq_iff k j)

entries-members : (d : Object) → entries (members d) ≡ d
unfolding entries members
entries-members [] = refl
entries-members ((k, v) ∷ d) = ap ((k, v) ∷◌) (entries-members d)

pub as_object-of_object : (d : Object) → as_object (of_object d) ≡ some d
unfolding as_object of_object
as_object-of_object d = ap some (entries-members d)

pub ruleset json_laws = (get_or-put, get_or-set_default, as_object-of_object)
