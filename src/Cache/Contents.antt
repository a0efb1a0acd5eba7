-- ===== src/Cache/Contents.antt =====
-- What holds of every result in a cache.
use lean_econ_api.Prelude.{
  String, none, some, [], ◌∷◌, ◌≡◌, refl, true, inl, inr, Option, Bool-cases, ◌==◌, arith,
}
use mathlib.Core.Path.{subst}
use lean_econ_api.Dict
use lean_econ_api.Dict.{Dict}
use lean_econ_api.Cache.{Policy, Entry, drop_oldest, make_room, new_entry, get, put}

abbrev pub Holds : {R : Type 0} → (R → Type 0) → Option R → Type 0
Holds P none = Unit
Holds P (some r) = P r

module _ {I R : Type 0} where
  abbrev pub AllResults : (R → Type 0) → Dict (Entry I R) → Type 0
  AllResults P [] = Unit
  AllResults P ((k, e) ∷ c) = Holds P e.result × AllResults P c

module _ {I R : Type 0} (P : R → Type 0) where
  AllResults-remove :
      (k : String) (c : Dict (Entry I R)) → AllResults P c → AllResults P (Dict.remove k c)
  unfolding Dict.remove
  AllResults-remove k [] h = tt
  AllResults-remove k ((j, e) ∷ c) h = elim (Bool-cases (j == k)) [
    | inl x ↦ rw x (AllResults-remove k c h.1)
    | inr x ↦ rw x (h.0, AllResults-remove k c h.1)
  ]

  AllResults-put :
      (k : String) (e : Entry I R) (c : Dict (Entry I R))
      → Holds P e.result
      → AllResults P c
      → AllResults P (Dict.put k e c)
  unfolding Dict.put
  AllResults-put k e [] p h = (p, tt)
  AllResults-put k e ((j, d) ∷ c) p h = elim (Bool-cases (j == k)) [
    | inl x ↦ rw x (p, h.1)
    | inr x ↦ rw x (h.0, AllResults-put k e c p h.1)
  ]

  AllResults-drop_oldest : (c : Dict (Entry I R)) → AllResults P c → AllResults P (drop_oldest c)
  unfolding drop_oldest
  AllResults-drop_oldest [] h = tt
  AllResults-drop_oldest ((k, e) ∷ c) h = AllResults-remove k ((k, e) ∷ c) h

  AllResults-make_room :
      (k : String) (c : Dict (Entry I R)) → AllResults P c → AllResults P (make_room k c)
  unfolding make_room
  AllResults-make_room k c h = ground (arith, AllResults-remove k c h, AllResults-drop_oldest c h)

  Holds-get :
      (k : String) (c : Dict (Entry I R)) (e : Entry I R)
      → AllResults P c
      → Dict.get k c ≡ some e
      → Holds P e.result
  unfolding Dict.get
  Holds-get k [] e h x = cc
  Holds-get k ((j, d) ∷ c) e h x = elim (Bool-cases (j == k)) [
    | inl y ↦ let same : d ≡ e = cc in subst (λ z. Holds P z.result) same h.0
    | inr y ↦ Holds-get k c e h.1 cc
  ]

  module _ (policy : Policy I R) where
    -- `put` keeps a property of all results that it accepts.
    pub AllResults-put_result :
        (i : I) (r : R) (c : Dict (Entry I R))
        → (policy.should_cache r ≡ true → P r)
        → AllResults P c
        → AllResults P (put policy i r c)
    unfolding put
    AllResults-put_result i r c p h = elim (Bool-cases (policy.should_cache r)) [
      | inl x ↦ rw x (
          AllResults-put (policy.make_key i) (new_entry i r) (make_room (policy.make_key i) c) (p x)
            (AllResults-make_room (policy.make_key i) c h))
      | inr x ↦ rw x h
    ]

    -- What holds of all results holds of the one that `get` returns.
    pub get-AllResults :
        (i : I) (r : R) (c : Dict (Entry I R)) → AllResults P c → get policy i c ≡ some r → P r
    unfolding get
    get-AllResults i r c h x =
        go (Dict.get (policy.make_key i) c) (Holds-get (policy.make_key i) c) x
      where
        go :
            (o : Option (Entry I R))
            → ((e : Entry I R) → AllResults P c → o ≡ some e → Holds P e.result)
            → (elim o [ none ↦ none | some entry ↦ entry.result ]) ≡ some r
            → P r
        go none g y = cc
        go (some e) g y = subst (Holds P) y (g e h refl)
