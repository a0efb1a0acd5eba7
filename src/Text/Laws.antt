-- ===== src/Text/Laws.antt =====
-- Laws of the text methods.
use Prim.Native.Char.{Char, code}
use Prim.Native.String.{◌++◌}
use lean_econ_api.Prelude.{
  ℕ, zero, suc, ◌≤◌, String, Bool, true, false, ◌≡◌, arith, not, ◌&&◌, refl, Bool-cases, inl, inr,
  ap, ◌∙◌,
}
use text.Mathlib.TextLemmas.{cons-append, nil-append}
use lean_econ_api.Text.{is_space, len, is_empty, lstrip, rstrip, strip, take}

is_empty-rstrip :
    (c : Char) (s : String) → is_space (code c) ≡ false → is_empty (rstrip (String.◌∷◌ c s)) ≡ false
unfolding rstrip
is_empty-rstrip c s h = ground arith

-- The text begins with a character that is no space.
unfoldable pub is_visible : String → Bool
unfolding is_space
is_visible String.[] = false
is_visible (String.◌∷◌ c s) = not (is_space (code c))

pub is_visible-append : (s t : String) → is_visible s ≡ true → is_visible (s ++ t) ≡ true
unfolding is_visible
is_visible-append String.[] t h = cc
is_visible-append (String.◌∷◌ c s) t h = rw cons-append h

pub not-is_empty-strip : (s : String) → is_visible s ≡ true → is_empty (strip s) ≡ false
unfolding strip is_visible
not-is_empty-strip String.[] h = cc
not-is_empty-strip (String.◌∷◌ c s) h =
    let e : is_space (code c) ≡ false = ground arith in rw (e, lstrip) (is_empty-rstrip c s e)

pub len-take-le : (n : ℕ) (s : String) → len (take n s) ≤ n
unfolding len take
len-take-le zero s = omega arith
len-take-le (suc n) String.[] = omega arith
len-take-le (suc n) (String.◌∷◌ c s) = omega (arith, len-take-le n s)

pub is_empty-append : (s t : String) → is_empty (s ++ t) ≡ (is_empty s && is_empty t)
unfolding is_empty
is_empty-append String.[] t = rw nil-append refl
is_empty-append (String.◌∷◌ c s) t = rw cons-append refl

rstrip-rstrip : (s : String) → rstrip (rstrip s) ≡ rstrip s
unfolding rstrip
rstrip-rstrip String.[] = refl
rstrip-rstrip (String.◌∷◌ c s) = elim (Bool-cases (is_empty (rstrip s) && is_space (code c))) [
  | inl e ↦ rw e refl
  | inr e ↦ rw (e, rstrip, rstrip-rstrip s, e) refl
]

rstrip-cons :
    (c : Char) (s : String)
    → is_space (code c) ≡ false
    → rstrip (String.◌∷◌ c s) ≡ String.◌∷◌ c (rstrip s)
unfolding rstrip
rstrip-cons c s h = elim (Bool-cases (is_empty (rstrip s))) [
  | inl e ↦ rw (e, h) refl
  | inr e ↦ rw e refl
]

lstrip-cons :
    (c : Char) (s : String) → is_space (code c) ≡ false → lstrip (String.◌∷◌ c s) ≡ String.◌∷◌ c s
unfolding lstrip
lstrip-cons c s h = rw h refl

lstrip-strip : (s : String) → lstrip (strip s) ≡ strip s
unfolding strip lstrip rstrip
lstrip-strip String.[] = refl
lstrip-strip (String.◌∷◌ c s) = elim (Bool-cases (is_space (code c))) [
  | inl e ↦ rw e (lstrip-strip s)
  | inr e ↦ rw (strip, lstrip-cons c s e, rstrip-cons c s e) (lstrip-cons c (rstrip s) e)
]

pub strip-strip : (s : String) → strip (strip s) ≡ strip s
unfolding strip
strip-strip s = ap rstrip (lstrip-strip s) ∙ rstrip-rstrip (lstrip s)
