-- ===== src/Cache/Reads.antt =====
-- What can be read from a cache after a write.
use lean_econ_api.Prelude.{
  String, Option, none, some, [], ◌∷◌, ◌≡◌, ◌≢◌, arith, length, if◌then◌else◌, leb, eq_iff, eq_refl,
}
use lean_econ_api.Dict
use lean_econ_api.Dict.{Dict, Distinct}
use lean_econ_api.Dict.Laws.{get-put, get-remove}
use lean_econ_api.Cache.{Policy, Entry, new_entry, max_cache_size, drop_oldest, make_room, get, put}

module _ {I R : Type 0} where
  -- the key that `put` throws out, if any
  unfoldable pub victim : String → Dict (Entry I R) → Option String
  victim k [] = none
  victim k ((j, e) ∷ c) =
      if Dict.contains k ((j, e) ∷ c)
      then none
      else if leb max_cache_size (length ((j, e) ∷ c))
      then some j
      else none

module _ {I R : Type 0} (policy : Policy I R) where
  -- A result that the policy accepts is what `get` returns right after `put`; after a result that
  -- it rejects `get` returns what it returned before.
  pub get-put_self :
      (i : I) (r : R) (c : Dict (Entry I R))
      → get policy i (put policy i r c) ≡ (if policy.should_cache r then some r else get policy i c)
  unfolding get put
  get-put_self i r c =
      let k = policy.make_key i in
      ground (arith, get-put k k (new_entry i r) (make_room k c), eq_refl k)

  -- `put` changes what `get` returns for no other key, except the key that it throws out.
  get-put_ne :
      (i i' : I) (r : R) (c : Dict (Entry I R))
      → policy.make_key i ≢ policy.make_key i'
      → victim (policy.make_key i) c ≢ some (policy.make_key i')
      → get policy i' (put policy i r c) ≡ get policy i' c
  unfolding get put victim make_room drop_oldest Dict.get Dict.contains
  get-put_ne i i' r [] ne kept =
      let k = policy.make_key i in
      let j = policy.make_key i' in
      ground (arith, get-put k j (new_entry i r) (make_room k []), eq_iff k j)
  get-put_ne i i' r ((q, e) ∷ c) ne kept =
      let k = policy.make_key i in
      let j = policy.make_key i' in
      let d = (q, e) ∷ c in
      ground (
        arith,
        get-put k j (new_entry i r) (make_room k d),
        eq_iff k j,
        eq_iff q j,
        get-remove k j d,
        get-remove q j d,
      )
