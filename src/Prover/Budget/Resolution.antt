-- ===== src/Prover/Budget/Resolution.antt =====
-- What a resolved budget is, and each step of its chain of overrides.
use lean_econ_api.Prelude.{
  ◌⊎◌, ℕ, ◌≤◌, String, Bool, true, false, none, some, List, [], ◌∷◌, ◌≡◌, refl, arith, ◌==◌, ◌&&◌,
  if◌then◌else◌, eq_iff, inl, inr, Bool-cases,
}
use mathlib.Core.Path.{subst, ◌∙◌}
use lean_econ_api.Dict
use lean_econ_api.Dict.{Dict}
use lean_econ_api.Dict.Laws.{contains-eq-is_some}
use lean_econ_api.Prover.Tracker.{budget_limits}
use lean_econ_api.Prover.Budget.{
  Python, Resolved, ◌>>=◌, Number, whole, real, ProverBudgetConfig, BaseConfig, base_config,
  is_supported, unknown_names, override_int, override_float,
}
use lean_econ_api.Prover.Budget.Overrides.{
  Holds, Holds-bind, Applied, override_int-Applied, override_float-Applied, ChosenInt, ChosenFloat,
  IsRefused,
}

module _ {V F : Type 0} (py : Python V F) where
  -- Every limit is at least one, and the wall clock has a limit that does not test as zero or less.
  pub record IsPositive (c : ProverBudgetConfig F) : Type 0 where
    pub max_steps : 1 ≤ c.max_steps
    pub per_request_timeout_ms : 1 ≤ c.per_request_timeout_ms
    pub wall_clock : py.is_le_zero c.wall_clock_timeout_seconds ≡ false
    pub append_round_cap : 1 ≤ c.append_round_cap
    pub total : 1 ≤ c.max_total_tool_calls
    pub search : 1 ≤ c.max_search_tool_calls
    pub read_only : 1 ≤ c.max_consecutive_read_only_calls

  unknown_names-cons :
      (b : Bool) (j : String) (names : List String)
      → (if b then names else j ∷ names) ≡ []
      → (b ≡ true) × (names ≡ [])
  unknown_names-cons true j names e = (refl, e)
  unknown_names-cons false j names e = cc

  unknown_names-none :
      (o : Dict V) (k : String)
      → unknown_names o ≡ []
      → Dict.contains k o ≡ (is_supported k && Dict.contains k o)
  unfolding unknown_names Dict.contains
  unknown_names-none [] k e = ground arith
  unknown_names-none ((j, v) ∷ o) k e =
      let (x, rest) = unknown_names-cons (is_supported j) j (unknown_names o) e in
      elim (Bool-cases (j == k)) [
        | inl y ↦
            let z : is_supported k ≡ true =
              subst (λ i. is_supported i ≡ true) ((eq_iff j k).0 y) x in
            rw (y, z) refl
        | inr y ↦ rw y (unknown_names-none o k rest)
      ]

  -- the sizes of a preset
  pub record IsPositiveBase (b : BaseConfig) : Type 0 where
    pub max_steps : 1 ≤ b.max_steps
    pub per_request_timeout_ms : 1 ≤ b.per_request_timeout_ms
    pub wall_clock : 1 ≤ b.wall_clock_timeout_seconds
    pub append_round_cap : 1 ≤ b.append_round_cap

  pub base_config-IsPositiveBase :
      (preset : String) (b : BaseConfig) → base_config preset ≡ some b → IsPositiveBase b
  unfolding base_config
  base_config-IsPositiveBase preset b e = ground arith

  pub budget_limits-pos :
      (n : ℕ) → (1 ≤ (budget_limits n).0) × (1 ≤ (budget_limits n).1) × (1 ≤ (budget_limits n).2)
  unfolding budget_limits
  budget_limits-pos n = omega arith

  -- the limits of a budget, by the names of their overrides
  abbrev limit_fields : ProverBudgetConfig F → Dict (Number F)
  limit_fields c =
      ("max_consecutive_read_only_calls", whole c.max_consecutive_read_only_calls)
      ∷ ("max_search_tool_calls", whole c.max_search_tool_calls)
      ∷ ("max_total_tool_calls", whole c.max_total_tool_calls)
      ∷ ("append_round_cap", whole c.append_round_cap)
      ∷ ("wall_clock_timeout_seconds", real c.wall_clock_timeout_seconds)
      ∷ ("per_request_timeout_ms", whole c.per_request_timeout_ms)
      ∷ ("max_steps", whole c.max_steps)
      ∷ []

  -- Each limit is what its override reads as, or has its default: the size of the preset, or the
  -- tool budget that `max_steps` gives.
  pub record IsChosen (b : BaseConfig) (o : Dict V) (c : ProverBudgetConfig F) : Type 0 where
    pub max_steps : ChosenInt py (Dict.get "max_steps" o) b.max_steps c.max_steps
    pub per_request_timeout_ms :
        ChosenInt py
          (Dict.get "per_request_timeout_ms" o)
          b.per_request_timeout_ms
          c.per_request_timeout_ms
    pub wall_clock :
        ChosenFloat py
          (Dict.get "wall_clock_timeout_seconds" o)
          (py.float_of_whole b.wall_clock_timeout_seconds)
          c.wall_clock_timeout_seconds
    pub append_round_cap :
        ChosenInt py (Dict.get "append_round_cap" o) b.append_round_cap c.append_round_cap
    pub total :
        ChosenInt py
          (Dict.get "max_total_tool_calls" o)
          (budget_limits c.max_steps).0
          c.max_total_tool_calls
    pub search :
        ChosenInt py
          (Dict.get "max_search_tool_calls" o)
          (budget_limits c.max_steps).1
          c.max_search_tool_calls
    pub read_only :
        ChosenInt py
          (Dict.get "max_consecutive_read_only_calls" o)
          (budget_limits c.max_steps).2
          c.max_consecutive_read_only_calls

  -- What a resolved budget of a preset is: positive, with each limit from its override or the preset,
  -- and with a record of exactly the given overrides and the limits they gave.
  pub record IsResolved (preset : String) (o : Dict V) (c : ProverBudgetConfig F) : Type 0 where
    pub name : c.reasoning_preset ≡ preset
    pub base : BaseConfig
    pub of_preset : base_config preset ≡ some base
    pub positive : IsPositive c
    pub chosen : IsChosen base o c
    pub applied : (k : String) → Dict.contains k c.overrides_applied ≡ Dict.contains k o
    pub values :
        (k : String)
        → Dict.contains k o ≡ true
        → Dict.get k c.overrides_applied ≡ Dict.get k (limit_fields c)

  module _ (o : Dict V) (name : String) (fields a : Dict (Number F)) where
    -- One override of a whole number in the chain, and what follows.
    pub then_int :
        {B : Type 0} (E : Type 0) (Q : B → Type 0) (base : ℕ) (f : ℕ × Dict (Number F) → Resolved B)
        → (IsRefused py o → E)
        → (name == "wall_clock_timeout_seconds") ≡ false
        → 1 ≤ base
        → Applied py o fields a
        → ((n : ℕ) (b : Dict (Number F))
            → 1 ≤ n
            → ChosenInt py (Dict.get name o) base n
            → Applied py o ((name, whole n) ∷ fields) b
            → Holds E Q (f (n, b)))
        → Holds E Q (override_int py o name base a >>= f)
    then_int E Q base f refuse other pos h next =
        Holds-bind E
          (λ (n, b).
            (1 ≤ n)
            × ChosenInt py (Dict.get name o) base n
            × Applied py o ((name, whole n) ∷ fields) b)
          Q (override_int py o name base a) f
          (override_int-Applied py o name fields a E base
            (λ v g u. refuse (inl (name, v, other, g, u))) pos h)
          (λ r g. next r.0 r.1 g.0 g.1 g.2)

  module _ (o : Dict V) (fields a : Dict (Number F)) where
    pub then_float :
        {B : Type 0} (E : Type 0) (Q : B → Type 0) (base : F) (f : F × Dict (Number F) → Resolved B)
        → (IsRefused py o → E)
        → py.is_le_zero base ≡ false
        → Applied py o fields a
        → ((x : F) (b : Dict (Number F))
            → py.is_le_zero x ≡ false
            → ChosenFloat py (Dict.get "wall_clock_timeout_seconds" o) base x
            → Applied py o (("wall_clock_timeout_seconds", real x) ∷ fields) b
            → Holds E Q (f (x, b)))
        → Holds E Q (override_float py o "wall_clock_timeout_seconds" base a >>= f)
    then_float E Q base f refuse pos h next =
        Holds-bind E
          (λ (x, b).
            (py.is_le_zero x ≡ false)
            × ChosenFloat py (Dict.get "wall_clock_timeout_seconds" o) base x
            × Applied py o (("wall_clock_timeout_seconds", real x) ∷ fields) b)
          Q (override_float py o "wall_clock_timeout_seconds" base a) f
          (override_float-Applied py o "wall_clock_timeout_seconds" fields a E base
            (λ v g u. refuse (inr (v, g, u))) pos h)
          (λ r g. next r.0 r.1 g.0 g.1 g.2)

  -- Why no budget is resolved: the preset is unknown, a field is not supported, or some override does
  -- not read as a limit.
  abbrev pub IsUnresolved : String → Dict V → Type 0
  IsUnresolved preset o =
      (base_config preset ≡ none)
      ⊎ ((key : String) × (Dict.contains key o ≡ true) × (is_supported key ≡ false))
      ⊎ IsRefused py o

  head_eq : (j n : String) (js ns : List String) → j ∷ js ≡ n ∷ ns → j ≡ n
  head_eq j n js ns e = cc e

  pub unknown_names-head :
      (o : Dict V) (n : String) (ns : List String)
      → unknown_names o ≡ n ∷ ns
      → (Dict.contains n o ≡ true) × (is_supported n ≡ false)
  unfolding unknown_names Dict.contains
  unknown_names-head [] n ns e = cc
  unknown_names-head ((j, v) ∷ o) n ns e = elim (Bool-cases (is_supported j)) [
    | inl x ↦
        let later = unknown_names-head o n ns (ground (arith, e, x)) in
        (ground (arith, later.0), later.1)
    | inr x ↦
        let same : j ≡ n = head_eq j n (unknown_names o) ns (ground (arith, e, x)) in
        (ground (arith, (eq_iff j n).1 same), subst (λ i. is_supported i ≡ false) same x)
  ]

  eq_comm : (a b : String) → (a == b) ≡ (b == a)
  eq_comm a b = ground (arith, eq_iff a b, eq_iff b a)

  pub Applied-none : (o : Dict V) → Applied py o [] []
  unfolding Applied Dict.get
  Applied-none o k = ground arith

  contains-limit_fields :
      (c : ProverBudgetConfig F) (k : String) → Dict.contains k (limit_fields c) ≡ is_supported k
  unfolding is_supported Dict.contains
  contains-limit_fields c k = ground (
    arith,
    eq_comm "max_steps" k,
    eq_comm "per_request_timeout_ms" k,
    eq_comm "wall_clock_timeout_seconds" k,
    eq_comm "append_round_cap" k,
    eq_comm "max_total_tool_calls" k,
    eq_comm "max_search_tool_calls" k,
    eq_comm "max_consecutive_read_only_calls" k,
  )

  pub contains-overrides_applied :
      (o : Dict V) (c : ProverBudgetConfig F) (k : String)
      → unknown_names o ≡ []
      → Applied py o (limit_fields c) c.overrides_applied
      → Dict.contains k c.overrides_applied ≡ Dict.contains k o
  unfolding Applied
  contains-overrides_applied o c k known h = ground (
    arith,
    h k,
    contains-eq-is_some k c.overrides_applied,
    contains-eq-is_some k (limit_fields c),
    contains-limit_fields c k,
    unknown_names-none o k known,
  )

  pub get-overrides_applied :
      (o : Dict V) (c : ProverBudgetConfig F) (k : String)
      → Applied py o (limit_fields c) c.overrides_applied
      → Dict.contains k o ≡ true
      → Dict.get k c.overrides_applied ≡ Dict.get k (limit_fields c)
  unfolding Applied
  get-overrides_applied o c k h e = h k ∙ rw e refl
