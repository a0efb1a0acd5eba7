-- ===== src/Text/Search.antt =====
-- A search in texts that are joined by a space.
use Prim.Native.Char.{code}
use Prim.Native.String.{◌++◌}
use lean_econ_api.Prelude.{String, Bool, true, false, ◌≡◌, refl, ◌||◌, ◌&&◌, not, eqb, arith, ap}
use text.Mathlib.TextLemmas.{cons-append, nil-append}
use lean_econ_api.Text.{len, starts_with, has_text, is_empty}

-- no character of the text is a space
unfoldable pub has_no_space : String → Bool
has_no_space String.[] = true
has_no_space (String.◌∷◌ c s) = not (eqb (code c) 32) && has_no_space s

-- the text begins with a space
unfoldable begins_with_space : String → Bool
begins_with_space String.[] = false
begins_with_space (String.◌∷◌ c s) = eqb (code c) 32

begins_with_space-append :
    (s t : String) → begins_with_space s ≡ true → begins_with_space (s ++ t) ≡ true
unfolding begins_with_space
begins_with_space-append String.[] t h = cc
begins_with_space-append (String.◌∷◌ c s) t h = rw cons-append h

starts_with-space :
    (p s u : String)
    → has_no_space p ≡ true
    → begins_with_space u ≡ true
    → starts_with p (s ++ u) ≡ starts_with p s
unfolding starts_with has_no_space begins_with_space
starts_with-space String.[] s u h b = refl
starts_with-space (String.◌∷◌ c p) String.[] String.[] h b = cc
starts_with-space (String.◌∷◌ c p) String.[] (String.◌∷◌ d u) h b = rw nil-append (ground arith)
starts_with-space (String.◌∷◌ c p) (String.◌∷◌ d s) u h b =
    let rest : has_no_space p ≡ true = ground arith in
    rw cons-append (ap (λ x. eqb (code c) (code d) && x) (starts_with-space p s u rest b))

has_text-one_space :
    (p u t : String)
    → has_no_space p ≡ true
    → is_empty p ≡ false
    → begins_with_space u ≡ true
    → len u ≡ 1
    → has_text p (u ++ t) ≡ has_text p t
unfolding has_text is_empty begins_with_space has_no_space len starts_with
has_text-one_space String.[] u t h e b l = cc
has_text-one_space (String.◌∷◌ c p) String.[] t h e b l = cc
has_text-one_space (String.◌∷◌ c p) (String.◌∷◌ d String.[]) t h e b l =
    rw (cons-append, nil-append) (ground arith)
has_text-one_space (String.◌∷◌ c p) (String.◌∷◌ d (String.◌∷◌ f u)) t h e b l =
    absurd (omega (arith, l))

-- A text without spaces is found in two texts around a space if and only if it is found in one.
pub has_text-space :
    (p s t : String)
    → has_no_space p ≡ true
    → is_empty p ≡ false
    → has_text p (s ++ " " ++ t) ≡ (has_text p s || has_text p t)
unfolding has_text is_empty has_no_space begins_with_space len
has_text-space String.[] s t h e = cc
has_text-space (String.◌∷◌ c p) String.[] t h e =
    rw nil-append (has_text-one_space (String.◌∷◌ c p) " " t h e refl refl)
has_text-space (String.◌∷◌ c p) (String.◌∷◌ d s) t h e =
    let rest = has_text-space (String.◌∷◌ c p) s t h e in
    let rest_p : has_no_space p ≡ true = unfold has_no_space in ground arith in
    let start = starts_with-space p s (" " ++ t) rest_p (begins_with_space-append " " t refl) in
    rw cons-append (ground (arith, rest, start))
