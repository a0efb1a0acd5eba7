-- ===== src/Prover/Budget/Overrides.antt =====
-- What one override leaves: the positive number that it reads as, and itself among the applied ones.
use lean_econ_api.Prelude.{
  ◌≢◌, ◌⊎◌, ◌==◌, ℕ, zero, suc, ◌≤◌, String, true, false, none, some, ◌∷◌, ◌≡◌, refl, arith,
  if◌then◌else◌, Option, eq_iff, inl, inr, Bool-cases, is_some,
}
use lean_econ_api.Dict
use lean_econ_api.Dict.{Dict}
use lean_econ_api.Dict.Laws.{get-put, contains-eq-is_some}
use lean_econ_api.Prover.Budget.{
  Python, PyInt, plus, minus, Reading, read, refused, raises, Resolved, resolved, value_error,
  other_error, ◌>>=◌, Number, whole, real, coerce_positive_int, coerce_positive_float, override_int,
  override_float, ◌<>◌,
}

-- What holds of a result, if there is one, and else of the refusal.
abbrev pub Holds : {A : Type 0} → Type 0 → (A → Type 0) → Resolved A → Type 0
Holds E P (resolved a) = P a
Holds E P (value_error m) = E
Holds E P (other_error m) = E

pub Holds-bind :
    {A B : Type 0} (E : Type 0) (P : A → Type 0) (Q : B → Type 0) (x : Resolved A)
    (f : A → Resolved B)
    → Holds E P x
    → ((a : A) → P a → Holds E Q (f a))
    → Holds E Q (x >>= f)
Holds-bind E P Q (resolved a) f h g = g a h
Holds-bind E P Q (value_error m) f h g = h
Holds-bind E P Q (other_error m) f h g = h

module _ {V F : Type 0} (py : Python V F) where
  -- A limit is what its override reads as, or its base where there is no override.
  abbrev pub ChosenInt : Option V → ℕ → ℕ → Type 0
  ChosenInt none base n = n ≡ base
  ChosenInt (some v) base n = py.int_of v ≡ read (plus n)

  abbrev pub ChosenFloat : Option V → F → F → Type 0
  ChosenFloat none base x = x ≡ base
  ChosenFloat (some v) base x = py.float_of v ≡ read x

  -- The overrides applied so far are those fields that were given, with their values.
  unfoldable pub Applied : Dict V → Dict (Number F) → Dict (Number F) → Type 0
  Applied o fields a =
      (k : String) → Dict.get k a ≡ (if Dict.contains k o then Dict.get k fields else none)

  -- A value that reads as no whole number from one up, or as no number but zero or less.
  abbrev IsNoInt : V → Type 0
  IsNoInt v = (n : ℕ) → py.int_of v ≢ read (plus (suc n))

  abbrev IsNoFloat : V → Type 0
  IsNoFloat v = (x : F) → py.float_of v ≡ read x → py.is_le_zero x ≡ true

  -- Some override does not read as a limit.
  abbrev pub IsRefused : Dict V → Type 0
  IsRefused o =
      ((name : String) × (v : V) × ((name == "wall_clock_timeout_seconds") ≡ false)
        × (Dict.get name o ≡ some v)
        × IsNoInt v)
      ⊎ ((v : V) × (Dict.get "wall_clock_timeout_seconds" o ≡ some v) × IsNoFloat v)

  coerce_positive_int-reads :
      (E : Type 0) (v : V) (name : String)
      → (IsNoInt v → E)
      → Holds E (λ n. (1 ≤ n) × (py.int_of v ≡ read (plus n))) (coerce_positive_int py v name)
  unfolding coerce_positive_int
  coerce_positive_int-reads E v name refuse = go (py.int_of v) refl
    where
      go :
          (x : Reading PyInt)
          → py.int_of v ≡ x
          → Holds E
              (λ n. (1 ≤ n) × (py.int_of v ≡ read (plus n)))
              (elim x [
                | refused ↦ value_error ("`" <> name <> "` must be an integer.")
                | raises message ↦ other_error message
                | read (minus n) ↦ value_error ("`" <> name <> "` must be greater than zero.")
                | read (plus zero) ↦ value_error ("`" <> name <> "` must be greater than zero.")
                | read (plus (suc n)) ↦ resolved (suc n)
              ])
      go refused e = refuse (λ n h. cc (e, h))
      go (raises m) e = refuse (λ n h. cc (e, h))
      go (read (minus k)) e = refuse (λ n h. cc (e, h))
      go (read (plus zero)) e = refuse (λ n h. cc (e, h))
      go (read (plus (suc n))) e = (omega arith, e)

  coerce_positive_float-reads :
      (E : Type 0) (v : V) (name : String)
      → (IsNoFloat v → E)
      → Holds E
          (λ x. (py.is_le_zero x ≡ false) × (py.float_of v ≡ read x))
          (coerce_positive_float py v name)
  unfolding coerce_positive_float
  coerce_positive_float-reads E v name refuse = go (py.float_of v) refl
    where
      go :
          (r : Reading F)
          → py.float_of v ≡ r
          → Holds E
              (λ x. (py.is_le_zero x ≡ false) × (py.float_of v ≡ read x))
              (elim r [
                | refused ↦ value_error ("`" <> name <> "` must be a number.")
                | raises message ↦ other_error message
                | read x ↦
                    if py.is_le_zero x
                    then value_error ("`" <> name <> "` must be greater than zero.")
                    else resolved x
              ])
      go refused e = refuse (λ y h. cc (e, h))
      go (raises m) e = refuse (λ y h. cc (e, h))
      go (read x) e = elim (Bool-cases (py.is_le_zero x)) [
        | inl z ↦ rw z (refuse (λ y h. cc (e, h, z)))
        | inr z ↦ rw z (z, e)
      ]

  module _ (o : Dict V) (name : String) (fields a : Dict (Number F)) where
    Applied-put :
        (n : Number F)
        → Dict.contains name o ≡ true
        → Applied o fields a
        → Applied o ((name, n) ∷ fields) (Dict.put name n a)
    unfolding Applied Dict.get
    Applied-put n present h k = ground (arith, present, h k, get-put name k n a, eq_iff name k)

    Applied-keep :
        (n : Number F)
        → Dict.contains name o ≡ false
        → Applied o fields a
        → Applied o ((name, n) ∷ fields) a
    unfolding Applied Dict.get
    Applied-keep n absent h k = ground (arith, absent, h k, eq_iff name k)

    pub override_int-Applied :
        (E : Type 0) (base : ℕ)
        → ((v : V) → Dict.get name o ≡ some v → IsNoInt v → E)
        → 1 ≤ base
        → Applied o fields a
        → Holds E
            (λ (n, b).
              (1 ≤ n) × ChosenInt (Dict.get name o) base n × Applied o ((name, whole n) ∷ fields) b)
            (override_int py o name base a)
    unfolding override_int
    override_int-Applied E base refuse pos h =
        go (Dict.get name o) (contains-eq-is_some name o) refl
      where
        go :
            (x : Option V)
            → Dict.contains name o ≡ is_some x
            → Dict.get name o ≡ x
            → Holds E
                (λ (n, b). (1 ≤ n) × ChosenInt x base n × Applied o ((name, whole n) ∷ fields) b)
                (elim x [
                  | none ↦ resolved (base, a)
                  | some value ↦
                      coerce_positive_int py value name
                      >>= (λ n. resolved (n, Dict.put name (whole n) a))
                ])
        go none e g = (pos, refl, Applied-keep (whole base) e h)
        go (some v) e g =
            Holds-bind E (λ n. (1 ≤ n) × (py.int_of v ≡ read (plus n)))
              (λ (n, b).
                (1 ≤ n) × ChosenInt (some v) base n × Applied o ((name, whole n) ∷ fields) b)
              (coerce_positive_int py v name) (λ n. resolved (n, Dict.put name (whole n) a))
              (coerce_positive_int-reads E v name (refuse v g))
              (λ n l. (l.0, l.1, Applied-put (whole n) e h))

    pub override_float-Applied :
        (E : Type 0) (base : F)
        → ((v : V) → Dict.get name o ≡ some v → IsNoFloat v → E)
        → py.is_le_zero base ≡ false
        → Applied o fields a
        → Holds E
            (λ (x, b).
              (py.is_le_zero x ≡ false)
              × ChosenFloat (Dict.get name o) base x
              × Applied o ((name, real x) ∷ fields) b)
            (override_float py o name base a)
    unfolding override_float
    override_float-Applied E base refuse pos h =
        go (Dict.get name o) (contains-eq-is_some name o) refl
      where
        go :
            (y : Option V)
            → Dict.contains name o ≡ is_some y
            → Dict.get name o ≡ y
            → Holds E
                (λ (x, b).
                  (py.is_le_zero x ≡ false)
                  × ChosenFloat y base x
                  × Applied o ((name, real x) ∷ fields) b)
                (elim y [
                  | none ↦ resolved (base, a)
                  | some value ↦
                      coerce_positive_float py value name
                      >>= (λ n. resolved (n, Dict.put name (real n) a))
                ])
        go none e g = (pos, refl, Applied-keep (real base) e h)
        go (some v) e g =
            Holds-bind E (λ x. (py.is_le_zero x ≡ false) × (py.float_of v ≡ read x))
              (λ (x, b).
                (py.is_le_zero x ≡ false)
                × ChosenFloat (some v) base x
                × Applied o ((name, real x) ∷ fields) b)
              (coerce_positive_float py v name) (λ n. resolved (n, Dict.put name (real n) a))
              (coerce_positive_float-reads E v name (refuse v g))
              (λ n l. (l.0, l.1, Applied-put (real n) e h))
