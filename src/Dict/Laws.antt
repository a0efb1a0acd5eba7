-- ===== src/Dict/Laws.antt =====
-- Laws of the dictionary operations.
use lean_econ_api.Prelude.{
  ◌+◌, ◌≤◌, String, true, false, none, some, [], ◌∷◌, ◌++◌, ◌≡◌, refl, arith, ◌==◌, eq_iff, length,
  if◌then◌else◌, is_some, ◌||◌, Bool-cases, inl, inr, eq_refl,
}
use lean_econ_api.Dict.{Dict, get, contains, put, remove, Distinct}

module _ {ℓ} {V : Type ℓ} where
  pub get-put :
      (k j : String) (v : V) (d : Dict V) → get j (put k v d) ≡ (if k == j then some v else get j d)
  unfolding get put
  get-put k j v [] = refl
  get-put k j v ((i, w) ∷ d) = ground (arith, eq_iff k j, eq_iff i k, eq_iff i j, get-put k j v d)

  pub get-remove :
      (k j : String) (d : Dict V) → get j (remove k d) ≡ (if k == j then none else get j d)
  unfolding get remove
  get-remove k j [] = ground arith
  get-remove k j ((i, w) ∷ d) = ground (arith, eq_iff k j, eq_iff i k, eq_iff i j, get-remove k j d)

  pub get-append :
      (k : String) (d e : Dict V) → get k (d ++ e) ≡ (if contains k d then get k d else get k e)
  unfolding get contains
  get-append k [] e = refl
  get-append k ((j, v) ∷ d) e = ground (arith, get-append k d e)

  pub contains-append :
      (k : String) (d e : Dict V) → contains k (d ++ e) ≡ contains k d || contains k e
  unfolding contains
  contains-append k [] e = refl
  contains-append k ((j, v) ∷ d) e = ground (arith, contains-append k d e)

  pub contains-eq-is_some : (k : String) (d : Dict V) → contains k d ≡ is_some (get k d)
  unfolding contains get
  contains-eq-is_some k [] = refl
  contains-eq-is_some k ((j, v) ∷ d) = ground (arith, contains-eq-is_some k d)

  pub contains-remove :
      (k j : String) (d : Dict V)
      → contains j (remove k d) ≡ (if k == j then false else contains j d)
  unfolding contains remove
  contains-remove k j [] = ground arith
  contains-remove k j ((i, w) ∷ d) =
      ground (arith, eq_iff k j, eq_iff i k, eq_iff i j, contains-remove k j d)

  pub remove_absent : (k : String) (d : Dict V) → contains k d ≡ false → remove k d ≡ d
  unfolding contains remove
  remove_absent k [] h = refl
  remove_absent k ((j, v) ∷ d) h = ground (arith, remove_absent k d)

  pub remove_head :
      (k : String) (v : V) (d : Dict V) → contains k d ≡ false → remove k ((k, v) ∷ d) ≡ d
  unfolding remove
  remove_head k v d h = ground (arith, remove_absent k d, eq_refl k)

  pub remove-append : (k : String) (d e : Dict V) → remove k (d ++ e) ≡ remove k d ++ remove k e
  unfolding remove
  remove-append k [] e = refl
  remove-append k ((j, v) ∷ d) e = ground (arith, remove-append k d e)

  pub length-remove-le : (k : String) (d : Dict V) → length (remove k d) ≤ length d
  unfolding remove
  length-remove-le k [] = omega arith
  length-remove-le k ((j, v) ∷ d) = ground (arith, length-remove-le k d)

  -- deleting a key that is there shortens the dictionary
  pub length-remove-lt :
      (k : String) (d : Dict V) → contains k d ≡ true → length (remove k d) + 1 ≤ length d
  unfolding remove contains
  length-remove-lt k [] h = ground arith
  length-remove-lt k ((j, v) ∷ d) h = ground (arith, length-remove-lt k d, length-remove-le k d)

  pub length-remove :
      (k : String) (d : Dict V)
      → Distinct d
      → contains k d ≡ true
      → length (remove k d) + 1 ≡ length d
  unfolding remove contains
  length-remove k [] u h = ground arith
  length-remove k ((j, v) ∷ d) u h =
      ground (arith, length-remove k d u.1, remove_absent k d, eq_iff j k)

  pub Distinct-remove : (k : String) (d : Dict V) → Distinct d → Distinct (remove k d)
  unfolding remove
  Distinct-remove k [] u = tt
  Distinct-remove k ((j, v) ∷ d) u = elim (Bool-cases (j == k)) [
    | inl same ↦ rw same (Distinct-remove k d u.1)
    | inr other ↦ rw other (ground (arith, contains-remove k j d), Distinct-remove k d u.1)
  ]

  pub Distinct-snoc :
      (k : String) (v : V) (d : Dict V)
      → Distinct d
      → contains k d ≡ false
      → Distinct (d ++ (k, v) ∷ [])
  unfolding contains
  Distinct-snoc k v [] u h = (refl, tt)
  Distinct-snoc k v ((j, w) ∷ d) u h = (
    ground (arith, contains-append j d ((k, v) ∷ []), eq_iff j k, eq_iff k j),
    Distinct-snoc k v d u.1 (ground arith),
  )

  pub Distinct-suffix : (d e : Dict V) → Distinct (d ++ e) → Distinct e
  Distinct-suffix [] e u = u
  Distinct-suffix ((k, v) ∷ d) e u = Distinct-suffix d e u.1

  -- a key of the later part is no key of the earlier part
  pub Distinct-disjoint :
      (k : String) (d e : Dict V) → Distinct (d ++ e) → contains k e ≡ true → contains k d ≡ false
  unfolding contains
  Distinct-disjoint k [] e u h = refl
  Distinct-disjoint k ((j, v) ∷ d) e u h =
      ground (arith, Distinct-disjoint k d e u.1 h, contains-append j d e, eq_iff j k)

  pub length-put-le : (k : String) (v : V) (d : Dict V) → length (put k v d) ≤ length d + 1
  unfolding put
  length-put-le k v [] = omega arith
  length-put-le k v ((j, w) ∷ d) = ground (arith, length-put-le k v d)

  pub put_absent :
      (k : String) (v : V) (d : Dict V) → contains k d ≡ false → put k v d ≡ d ++ (k, v) ∷ []
  unfolding put contains
  put_absent k v [] h = refl
  put_absent k v ((j, w) ∷ d) h = ground (arith, put_absent k v d)

  pub contains-put :
      (k j : String) (v : V) (d : Dict V) → contains j (put k v d) ≡ k == j || contains j d
  unfolding contains put
  contains-put k j v [] = refl
  contains-put k j v ((i, w) ∷ d) =
      ground (arith, eq_iff k j, eq_iff i k, eq_iff i j, contains-put k j v d)

  pub Distinct-put : (k : String) (v : V) (d : Dict V) → Distinct d → Distinct (put k v d)
  unfolding put contains
  Distinct-put k v [] u = (refl, tt)
  Distinct-put k v ((j, w) ∷ d) u = elim (Bool-cases (j == k)) [
    | inl same ↦ rw same u
    | inr other ↦
        rw other
          (ground (arith, contains-put k j v d, eq_iff j k, eq_iff k j), Distinct-put k v d u.1)
  ]

pub ruleset dict_laws = (get-put, get-remove, contains-put, contains-remove)
