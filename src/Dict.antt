-- ===== src/Dict.antt =====
-- Python's `dict` with text keys: the entries in insertion order. An assignment to a key that is
-- present keeps its place, a new key goes to the end.
pub mod Laws
use lean_econ_api.Prelude.{
  String, Bool, true, false, Option, none, some, List, [], ◌∷◌, ◌||◌, ◌≡◌, ◌==◌, if◌then◌else◌,
}

abbrev pub Dict {ℓ} : Type ℓ → Type ℓ
Dict V = List (String × V)

module _ {ℓ} {V : Type ℓ} where
  -- `d.get(k)`
  unfoldable pub get : String → Dict V → Option V
  get k [] = none
  get k ((j, v) ∷ d) = if j == k then some v else get k d

  -- `k in d`
  unfoldable pub contains : String → Dict V → Bool
  contains k [] = false
  contains k ((j, v) ∷ d) = j == k || contains k d

  -- `d[k] = v`
  unfoldable pub put : String → V → Dict V → Dict V
  put k v [] = (k, v) ∷ []
  put k v ((j, w) ∷ d) = if j == k then (j, v) ∷ d else (j, w) ∷ put k v d

  -- `d.pop(k, None)`, and `del d[k]` where `k in d`
  unfoldable pub remove : String → Dict V → Dict V
  remove k [] = []
  remove k ((j, v) ∷ d) = let rest = remove k d in if j == k then rest else (j, v) ∷ rest

  -- no key twice, as in every `dict`
  abbrev pub Distinct : Dict V → Type 0
  Distinct [] = Unit
  Distinct ((k, v) ∷ d) = (contains k d ≡ false) × Distinct d
