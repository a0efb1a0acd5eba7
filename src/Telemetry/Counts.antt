-- ===== src/Telemetry/Counts.antt =====
-- The counts of a summary over two lists of calls, one behind the other.
use lean_econ_api.Prelude.{
  ℕ, ◌+◌, ◌≤◌, String, Bool, true, false, Option, none, some, List, [], ◌∷◌, ◌++◌, ◌≡◌, refl, arith,
  not, max, length, All, eq_iff, ◌==◌, if◌then◌else◌, Bool-cases, inl, inr, ap,
}
use lean_econ_api.Text.{is_empty}
use mathlib.Core.Path.{subst}
use lean_econ_api.Dict
use lean_econ_api.Dict.{Dict}
use lean_econ_api.Dict.Laws.{get-put}
use lean_econ_api.Telemetry.{ProviderCall, keep, count_up, count_keys, retry_total, retry_max}

module _ {A : Type 0} (test : A → Bool) where
  pub keep-append : (xs ys : List A) → keep test (xs ++ ys) ≡ keep test xs ++ keep test ys
  unfolding keep
  keep-append [] ys = refl
  keep-append (x ∷ xs) ys = elim (Bool-cases (test x)) [
    | inl e ↦ rw e (ap (x ∷◌) (keep-append xs ys))
    | inr e ↦ rw e (keep-append xs ys)
  ]

  pub length-keep-le : (xs : List A) → length (keep test xs) ≤ length xs
  unfolding keep
  length-keep-le [] = omega arith
  length-keep-le (x ∷ xs) = ground (arith, length-keep-le xs)

  -- Each value has the test or its negation.
  pub length-keep-not :
      (xs : List A) → length (keep (λ x. not (test x)) xs) + length (keep test xs) ≡ length xs
  unfolding keep
  length-keep-not [] = refl
  length-keep-not (x ∷ xs) = ground (arith, length-keep-not xs)

  -- As many as all are all.
  pub All-keep : (xs : List A) → length (keep test xs) ≡ length xs → All (λ x. test x ≡ true) xs
  unfolding keep
  All-keep [] h = tt
  All-keep (x ∷ xs) h = elim (Bool-cases (test x)) [
    | inl e ↦ (e, All-keep xs (ground (arith, e, h)))
    | inr e ↦ absurd (ground (arith, e, h, length-keep-le xs))
  ]

  pub keep-All : (xs : List A) → All (λ x. test x ≡ true) xs → keep test xs ≡ xs
  unfolding keep
  keep-All [] h = refl
  keep-All (x ∷ xs) h = rw (h.0, keep-All xs h.1) refl

-- what a counter has counted of a key
abbrev pub counted : String → Dict ℕ → ℕ
counted k d = elim (Dict.get k d) [ none ↦ 0 | some n ↦ n ]

counted-put :
    (j k : String) (n : ℕ) (d : Dict ℕ)
    → counted k (Dict.put j n d) ≡ (if j == k then n else counted k d)
counted-put j k n d = elim (Bool-cases (j == k)) [
  | inl h ↦ rw (counted, get-put j k n d, h) refl
  | inr h ↦ rw (counted, get-put j k n d, h) refl
]

counted-count_up :
    (j k : String) (d : Dict ℕ) → counted k (count_up j d) ≡ counted k d + (if j == k then 1 else 0)
unfolding count_up
counted-count_up j k d = go (Dict.get j d) refl
  where
    same : (x : Option ℕ) → Dict.get j d ≡ x → j == k ≡ true → Dict.get k d ≡ x
    same x e h = subst (λ i. Dict.get i d ≡ x) ((eq_iff j k).0 h) e

    go :
        (x : Option ℕ)
        → Dict.get j d ≡ x
        → counted k (elim x [ none ↦ Dict.put j 1 d | some n ↦ Dict.put j (n + 1) d ])
          ≡ counted k d + (if j == k then 1 else 0)
    go none e = elim (Bool-cases (j == k)) [
      | inl h ↦ ground (arith, counted-put j k 1 d, same none e h, h)
      | inr h ↦ ground (arith, counted-put j k 1 d, h)
    ]
    go (some n) e = elim (Bool-cases (j == k)) [
      | inl h ↦ ground (arith, counted-put j k (n + 1) d, same (some n) e h, h)
      | inr h ↦ ground (arith, counted-put j k (n + 1) d, h)
    ]

-- the calls with a key
abbrev pub has_key : String → Option String → Bool
has_key k none = false
has_key k (some j) = j == k

module _ {F : Type 0} where
  pub retry_total-append :
      (xs ys : List (ProviderCall F)) → retry_total (xs ++ ys) ≡ retry_total xs + retry_total ys
  unfolding retry_total
  retry_total-append [] ys = omega arith
  retry_total-append (x ∷ xs) ys = omega (arith, retry_total-append xs ys)

  pub retry_max-append :
      (xs ys : List (ProviderCall F)) → retry_max (xs ++ ys) ≡ max (retry_max xs) (retry_max ys)
  unfolding retry_max
  retry_max-append [] ys = omega arith
  retry_max-append (x ∷ xs) ys = omega (arith, retry_max-append xs ys)

  pub retry_max-le : (xs : List (ProviderCall F)) → retry_max xs ≤ retry_total xs
  unfolding retry_max retry_total
  retry_max-le [] = omega arith
  retry_max-le (x ∷ xs) = ground (arith, retry_max-le xs)

  module _ (key : ProviderCall F → Option String) where
    pub counted-count_keys :
        (k : String) (cs : List (ProviderCall F)) (d : Dict ℕ)
        → is_empty k ≡ false
        → counted k (count_keys key cs d) ≡ counted k d + length (keep (λ c. has_key k (key c)) cs)
    unfolding count_keys keep
    counted-count_keys k [] d h = omega arith
    counted-count_keys k (c ∷ cs) d h = go (key c) refl (counted-count_keys k cs)
      where
        differs : (j : String) → is_empty j ≡ true → j == k ≡ false
        differs j blank = elim (Bool-cases (j == k)) [
          | inl same ↦ absurd (
              let p : is_empty k ≡ true =
                subst (λ i. is_empty i ≡ true) ((eq_iff j k).0 same) blank in
              cc)
          | inr apart ↦ apart
        ]

        go :
            (x : Option String)
            → key c ≡ x
            → ((e : Dict ℕ)
                → is_empty k ≡ false
                → counted k (count_keys key cs e)
                  ≡ counted k e + length (keep (λ c. has_key k (key c)) cs))
            → counted k (elim x [
              | none ↦ count_keys key cs d
              | some j ↦ count_keys key cs (if is_empty j then d else count_up j d)
            ])
              ≡ counted k d + length (keep (λ c. has_key k (key c)) (c ∷ cs))
        go none e rest = rw e (rest d h)
        go (some j) e rest = elim (Bool-cases (is_empty j)) [
          | inl blank ↦ rw (blank, e) (ground (arith, rest d h, differs j blank))
          | inr named ↦
              rw (named, e) (ground (arith, rest (count_up j d) h, counted-count_up j k d))
        ]
