-- ===== src/Tests/Budget.antt =====
-- A budget with one override, where floats are natural numbers.
use lean_econ_api.Prelude.{ℕ, [], ◌∷◌, eqb}
use lean_econ_api.Dict.{Dict}
use lean_econ_api.Prover.Budget.{Python, plus, read}

abbrev python : Python ℕ ℕ
python = record {
  int_of = λ n. read (plus n);
  float_of = λ n. read n;
  is_le_zero = λ n. eqb n 0;
  float_of_whole = λ n. n;
  lower = λ s. s;
  repr = λ s. s;
  sorted = λ names. names;
}

abbrev overrides : Dict ℕ
overrides = ("max_steps", 30) ∷ []
