-- ===== src/Cache/Window.antt =====
-- Which entries a cache holds: a window over everything that was ever stored.
use lean_econ_api.Prelude.{
  ◌≤◌, ◌+◌, String, true, false, List, [], ◌∷◌, ◌++◌, ◌≡◌, refl, arith, length, Bool-cases, inl,
  inr, ◌⊎◌, ap, ◌∙◌, if◌then◌else◌, leb, eq_refl, length-append,
}
use mathlib.Core.List.{append_assoc}
use lean_econ_api.Dict
use lean_econ_api.Dict.{Dict, Distinct}
use lean_econ_api.Dict.Laws.{
  remove_head, remove-append, remove_absent, put_absent, length-remove, Distinct-remove,
  Distinct-snoc, contains-remove, Distinct-disjoint, Distinct-suffix,
}
use lean_econ_api.Cache.{
  Entry, max_cache_size, make_room, drop_oldest, Policy, leb, List, put, clear, new_entry,
}

-- A write by a client.
pub data Write (I R : Type 0) : Type 0 where
  store : I → R → Write I R
  wipe : Write I R

module _ {I R : Type 0} where
  -- `old` is what was thrown out of the history `h`, and `c` is what the cache still holds:
  -- nothing was thrown out before the cache was full, and never more than needed.
  pub record Window (c h : Dict (Entry I R)) : Type 0 where
    pub old : Dict (Entry I R)
    pub splits : h ≡ old ++ c
    pub bounded : length c ≤ max_cache_size
    pub full : (old ≡ []) ⊎ (length c ≡ max_cache_size)
    pub distinct : Distinct h

  -- The history moves the key of a stored entry to its end.
  unfoldable pub touch : String → Entry I R → Dict (Entry I R) → Dict (Entry I R)
  touch k e h = Dict.remove k h ++ (k, e) ∷ []

  Distinct-touch :
      (k : String) (e : Entry I R) (h : Dict (Entry I R)) → Distinct h → Distinct (touch k e h)
  unfolding touch
  Distinct-touch k e h u =
      Distinct-snoc k e (Dict.remove k h) (Distinct-remove k h u)
        (ground (arith, contains-remove k k h, eq_refl k))

  -- the key is in the cache: it moves to the end, and nothing is thrown out
  hit :
      (k : String) (e : Entry I R) (c h : Dict (Entry I R))
      → Dict.contains k c ≡ true
      → Window c h
      → Window (Dict.put k e (make_room k c)) (touch k e h)
  unfolding make_room touch
  hit k e c h present w =
      let u : Distinct (w.old ++ c) = rw (← w.splits) w.distinct in
      let gone = remove_absent k w.old (Distinct-disjoint k w.old c u present) in
      let placed =
        put_absent k e (Dict.remove k c) (ground (arith, contains-remove k k c, eq_refl k)) in
      let shorter = length-remove k c (Distinct-suffix w.old c u) present in
      let n = length-append (Dict.remove k c) ((k, e) ∷ []) in
      rw (present, placed)
        (record {
          old = w.old;
          splits =
              rw (w.splits, remove-append, gone)
                (append_assoc w.old (Dict.remove k c) ((k, e) ∷ []));
          bounded = omega (arith, w.bounded, shorter, n);
          full = ground (arith, w.full, shorter, n);
          distinct = Distinct-touch k e h w.distinct;
        })

  -- a new key while there is room: nothing was ever thrown out
  fits :
      (k : String) (e : Entry I R) (c h : Dict (Entry I R))
      → Dict.contains k c ≡ false
      → length c + 1 ≤ max_cache_size
      → Window c h
      → Window (Dict.put k e (make_room k c)) (touch k e h)
  unfolding make_room touch
  fits k e c h new room w =
      let none_out : w.old ≡ [] = ground (arith, w.full) in
      let whole : h ≡ c = w.splits ∙ ap (λ o. o ++ c) none_out in
      let roomy : leb max_cache_size (length c) ≡ false = ground arith in
      rw (new, roomy, put_absent k e c new)
        (record {
          old = [];
          splits = rw (whole, remove_absent k c new);
          bounded = omega (arith, length-append c ((k, e) ∷ []));
          full = inl refl;
          distinct = Distinct-touch k e h w.distinct;
        })

  -- a new key while the cache is full: the oldest entry joins those thrown out
  evicts :
      (k : String) (e : Entry I R) (j : String) (f : Entry I R) (c h : Dict (Entry I R))
      → Dict.contains k ((j, f) ∷ c) ≡ false
      → max_cache_size ≤ length ((j, f) ∷ c)
      → Window ((j, f) ∷ c) h
      → Window (Dict.put k e (make_room k ((j, f) ∷ c))) (touch k e h)
  unfolding make_room touch drop_oldest Dict.contains
  evicts k e j f c h new over w =
      let u : Distinct (w.old ++ (j, f) ∷ c) = rw (← w.splits) w.distinct in
      let v = Distinct-suffix w.old ((j, f) ∷ c) u in
      let new_tail : Dict.contains k c ≡ false = ground arith in
      let dropped : Dict.remove j ((j, f) ∷ c) ≡ c = remove_head j f c v.0 in
      let n = length-append c ((k, e) ∷ []) in
      let full : leb max_cache_size (length ((j, f) ∷ c)) ≡ true = ground arith in
      rw (new, full, dropped, put_absent k e c new_tail)
        (record {
          old = Dict.remove k w.old ++ (j, f) ∷ [];
          splits =
              rw (w.splits, remove-append, remove_absent k ((j, f) ∷ c) new) (simp (append_assoc));
          bounded = omega (arith, w.bounded, n);
          full = inr (omega (arith, w.bounded, n));
          distinct = Distinct-touch k e h w.distinct;
        })

  absent :
      (k : String) (e : Entry I R) (c h : Dict (Entry I R))
      → Dict.contains k c ≡ false
      → Window c h
      → Window (Dict.put k e (make_room k c)) (touch k e h)
  absent k e [] h new w = fits k e [] h new (omega arith) w
  absent k e ((j, f) ∷ c) h new w = elim (Bool-cases (leb max_cache_size (length ((j, f) ∷ c)))) [
    | inl full ↦ evicts k e j f c h new (ground arith) w
    | inr roomy ↦ fits k e ((j, f) ∷ c) h new (ground arith) w
  ]

  pub Window-empty : Window [] []
  Window-empty = record {
    old = [];
    splits = refl;
    bounded = omega arith;
    full = inl refl;
    distinct = tt;
  }

module _ {I R : Type 0} (policy : Policy I R) where
  open policy use {make_key, should_cache}

  unfoldable pub run : List (Write I R) → Dict (Entry I R) → Dict (Entry I R)
  run [] c = c
  run (store i r ∷ writes) c = run writes (put policy i r c)
  run (wipe ∷ writes) c = run writes (clear c)

  -- An unbounded cache: every accepted result, the key that was stored last at the end.
  unfoldable pub history : List (Write I R) → Dict (Entry I R) → Dict (Entry I R)
  history [] h = h
  history (store i r ∷ writes) h =
      history writes (if should_cache r then touch (make_key i) (new_entry i r) h else h)
  history (wipe ∷ writes) h = history writes []

  put-Window :
      (i : I) (r : R) (c h : Dict (Entry I R))
      → Window c h
      → Window
          (put policy i r c)
          (if should_cache r then touch (make_key i) (new_entry i r) h else h)
  unfolding put
  put-Window i r c h w = elim (Bool-cases (should_cache r)) [
    | inr rejected ↦ rw rejected w
    | inl accepted ↦ rw accepted (elim (Bool-cases (Dict.contains (make_key i) c)) [
      | inl present ↦ hit (make_key i) (new_entry i r) c h present w
      | inr new ↦ absent (make_key i) (new_entry i r) c h new w
    ])
  ]

  -- After any writes the cache holds the 500 keys stored last, or all if there are fewer, in the
  -- order of their last store.
  pub run-Window :
      (writes : List (Write I R)) (c h : Dict (Entry I R))
      → Window c h
      → Window (run writes c) (history writes h)
  unfolding run history
  run-Window [] c h w = w
  run-Window (store i r ∷ writes) c h w = run-Window writes _ _ (put-Window i r c h w)
  run-Window (wipe ∷ writes) c h w = run-Window writes [] [] Window-empty
