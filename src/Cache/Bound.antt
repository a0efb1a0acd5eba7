-- ===== src/Cache/Bound.antt =====
-- The size of a cache and the uniqueness of its keys.
use lean_econ_api.Prelude.{◌+◌, ◌≤◌, String, [], ◌∷◌, arith, length, max, eq_refl, ◌⊎◌}
use lean_econ_api.Dict
use lean_econ_api.Dict.{Dict, Distinct}
use lean_econ_api.Dict.Laws.{length-remove-lt, Distinct-remove, Distinct-put, length-put-le}
use lean_econ_api.Cache.{Policy, Entry, max_cache_size, drop_oldest, make_room, put, new_entry}

module _ {I R : Type 0} where
  length-drop_oldest : (c : Dict (Entry I R)) → 1 ≤ length c → length (drop_oldest c) + 1 ≤ length c
  unfolding drop_oldest Dict.contains
  length-drop_oldest [] h = h
  length-drop_oldest ((k, e) ∷ c) h = length-remove-lt k ((k, e) ∷ c) (ground (arith, eq_refl k))

  length-make_room :
      (k : String) (c : Dict (Entry I R))
      → (length (make_room k c) + 1 ≤ max_cache_size) ⊎ (length (make_room k c) + 1 ≤ length c)
  unfolding make_room
  length-make_room k c = ground (arith, length-remove-lt k c, length-drop_oldest c)

  Distinct-make_room : (k : String) (c : Dict (Entry I R)) → Distinct c → Distinct (make_room k c)
  unfolding make_room drop_oldest Dict.contains
  Distinct-make_room k [] u = tt
  Distinct-make_room k ((j, e) ∷ c) u =
      ground (arith, Distinct-remove k ((j, e) ∷ c) u, Distinct-remove j ((j, e) ∷ c) u)

  -- A cache never grows past its limit: after `put` it holds at most 500 entries, or, where an
  -- oversized file was loaded, no more than before.
  pub put_bound :
      (policy : Policy I R) (i : I) (r : R) (c : Dict (Entry I R))
      → length (put policy i r c) ≤ max max_cache_size (length c)
  unfolding put
  put_bound policy i r c =
      let k = policy.make_key i in
      ground (arith, length-make_room k c, length-put-le k (new_entry i r) (make_room k c))

  -- No key stands twice.
  pub put-Distinct :
      (policy : Policy I R) (i : I) (r : R) (c : Dict (Entry I R))
      → Distinct c
      → Distinct (put policy i r c)
  unfolding put
  put-Distinct policy i r c u =
      let k = policy.make_key i in
      ground (
        arith,
        Distinct-make_room k c u,
        Distinct-put k (new_entry i r) (make_room k c) (Distinct-make_room k c u),
      )
