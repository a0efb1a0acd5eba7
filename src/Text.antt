-- ===== src/Text.antt =====
-- The methods of Python's `str` that the program uses, on native texts, by code points.
pub mod Laws
pub mod Lines
pub mod Search
use Prim.Native.Nat.{pred}
use Prim.Native.Char.{Char, code}
use Prim.Native.String.{◌++◌, ◌∷◌}
use lean_econ_api.Prelude.{
  ℕ, zero, suc, String, Bool, true, false, ◌&&◌, ◌||◌, not, ltb, leb, eqb, if◌then◌else◌, List, [],
  ◌∷◌,
}

-- `str.isspace` of one character
unfoldable pub is_space : ℕ → Bool
is_space c =
    (leb 9 c && leb c 13)
    || (leb 28 c && leb c 32)
    || eqb c 133
    || eqb c 160
    || eqb c 5760
    || (leb 8192 c && leb c 8202)
    || eqb c 8232
    || eqb c 8233
    || eqb c 8239
    || eqb c 8287
    || eqb c 12288

-- `len(s)`
unfoldable pub len : String → ℕ
len String.[] = 0
len (String.◌∷◌ c s) = suc (len s)

unfoldable pub is_empty : String → Bool
is_empty String.[] = true
is_empty (String.◌∷◌ c s) = false

-- `s.lstrip()` and `s.rstrip()`
unfoldable pub lstrip : String → String
unfolding is_space
lstrip String.[] = String.[]
lstrip (String.◌∷◌ c s) = if is_space (code c) then lstrip s else String.◌∷◌ c s

unfoldable pub rstrip : String → String
unfolding is_space is_empty
rstrip String.[] = String.[]
rstrip (String.◌∷◌ c s) =
    let rest = rstrip s in
    if is_empty rest && is_space (code c) then String.[] else String.◌∷◌ c rest

unfoldable pub strip : String → String
unfolding lstrip rstrip
strip s = rstrip (lstrip s)

-- `s[:n]`
unfoldable pub take : ℕ → String → String
take zero s = String.[]
take (suc n) String.[] = String.[]
take (suc n) (String.◌∷◌ c s) = String.◌∷◌ c (take n s)

-- `s.startswith(p)`
unfoldable pub starts_with : String → String → Bool
starts_with String.[] s = true
starts_with (String.◌∷◌ c p) String.[] = false
starts_with (String.◌∷◌ c p) (String.◌∷◌ d s) = eqb (code c) (code d) && starts_with p s

-- `p in s`
unfoldable pub has_text : String → String → Bool
unfolding starts_with
has_text p String.[] = starts_with p String.[]
has_text p (String.◌∷◌ c s) = starts_with p (String.◌∷◌ c s) || has_text p s

-- `any(token in text for token in tokens)`
unfoldable pub has_any : List String → String → Bool
unfolding has_text
has_any [] s = false
has_any (token ∷ tokens) s = has_text token s || has_any tokens s
