-- ===== src/Prelude/Steps.antt =====
-- Effects: what a call over a state does that may raise. The state comes back after a raise too.
use Prim.Native.String.{String}
use mathlib.Core.Path.{◌≡◌, refl}
use mathlib.Core.Logic.{◌⊎◌, inl, inr}

pub data Step {ℓ} (S : Type 0) (A : Type ℓ) : Type ℓ where
  raised : String → S → Step S A
  returned : A → S → Step S A

abbrev pub step_state {ℓ} : {S : Type 0} {A : Type ℓ} → Step S A → S
step_state (raised message s) = s
step_state (returned a s) = s

pub Step-cases {ℓ} :
    {S : Type 0} {A : Type ℓ} (x : Step S A)
    → ((m : String) × (s : S) × (x ≡ raised m s)) ⊎ ((a : A) × (s : S) × (x ≡ returned a s))
Step-cases (raised m s) = inl (m, s, refl)
Step-cases (returned a s) = inr (a, s, refl)
