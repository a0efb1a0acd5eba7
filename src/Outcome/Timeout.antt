-- ===== src/Outcome/Timeout.antt =====
-- Which results are timeouts, and which are no errors.
use lean_econ_api.Prelude.{
  ◌≢◌, String, Bool, true, false, Option, none, some, List, Bool-cases, inl, inr, [], ◌∷◌, ◌≡◌,
  refl, ◌||◌, if◌then◌else◌, arith, ◌↔◌, ap, ◌∙◌,
}
use lean_econ_api.Text.{is_empty, has_text, starts_with}
use lean_econ_api.Text.Lines.{join}
use lean_econ_api.Text.Search.{has_no_space, has_text-space}
use lean_econ_api.Json.{Value, Object, get_or, truthy, null}
use lean_econ_api.Outcome.{
  LeanEconErrorCode, no_error, formalization_timeout, failure_parts, failure_code,
  formalize_error_code, verify_error_code, non_empty, any_has,
}

module _ (p : String) (plain : has_no_space p ≡ true) (some_text : is_empty p ≡ false) where
  has_text-nothing : (q : String) → is_empty q ≡ false → has_text q String.[] ≡ false
  unfolding has_text is_empty starts_with
  has_text-nothing String.[] e = cc
  has_text-nothing (String.◌∷◌ c q) e = refl

  has_text-join : (parts : List String) → has_text p (join " " parts) ≡ any_has p parts
  unfolding join any_has
  has_text-join [] = has_text-nothing p some_text
  has_text-join (a ∷ []) = ground arith
  has_text-join (a ∷ b ∷ parts) =
      has_text-space p a (join " " (b ∷ parts)) plain some_text
      ∙ ap (λ x. has_text p a || x) (has_text-join (b ∷ parts))

  any_has-non_empty : (parts : List String) → any_has p (non_empty parts) ≡ any_has p parts
  unfolding any_has non_empty
  any_has-non_empty [] = refl
  any_has-non_empty (String.[] ∷ parts) =
      rw (has_text-nothing p some_text) (any_has-non_empty parts)
  any_has-non_empty (String.◌∷◌ c a ∷ parts) =
      ap (λ x. has_text p (String.◌∷◌ c a) || x) (any_has-non_empty parts)

module _ (str : Value → String) (lower : String → String) where
  failure_code-ne : (r : Object) → failure_code str lower r ≢ formalization_timeout
  unfolding failure_code
  failure_code-ne r e = ground arith

  branch :
      (b : Bool) (k : LeanEconErrorCode)
      → k ≢ formalization_timeout
      → ((if b then some formalization_timeout else some k) ≡ some formalization_timeout)
        ↔ (b ≡ true)
  branch true k ne = ((λ _. refl), (λ _. refl))
  branch false k ne = ((λ e. absurd (ne (cc e))), (λ h. cc h))

  -- Some part of the failure mentions a timeout.
  abbrev pub MentionsTimeout : Option (List String) → Type 0
  MentionsTimeout failure =
      (parts : List String) × (failure ≡ some parts) × (any_has "timeout" parts ≡ true)

  -- The code of a formalization is the one for a timeout if and only if it is no success and its
  -- reason, its diagnosis or its errors mention one: the text that they are joined to has
  -- no mention across two of them. It is never the code where the errors cannot be gone through.
  pub formalize_error_code-timeout :
      (r : Object)
      → (formalize_error_code str lower r ≡ some formalization_timeout)
        ↔ ((truthy (get_or null "success" r) ≡ false) × MentionsTimeout (failure_parts str lower r))
  unfolding formalize_error_code
  formalize_error_code-timeout r = elim (Bool-cases (truthy (get_or null "success" r))) [
    | inl e ↦ rw e ((λ h. cc h), (λ h. cc h.0))
    | inr e ↦ rw e (go (failure_parts str lower r))
  ]
    where
      joined :
          (parts : List String)
          → has_text "timeout" (join " " (non_empty parts)) ≡ any_has "timeout" parts
      joined parts =
          has_text-join "timeout" (unfold has_no_space in refl) (unfold is_empty in refl)
            (non_empty parts)
          ∙ any_has-non_empty "timeout" (unfold has_no_space in refl) (unfold is_empty in refl)
              parts

      go :
          (x : Option (List String))
          → let code : Option LeanEconErrorCode = elim x [
            | none ↦ none
            | some parts ↦
                if has_text "timeout" (join " " (non_empty parts))
                then some formalization_timeout
                else some (failure_code str lower r)
          ] in
            (code ≡ some formalization_timeout) ↔ ((false ≡ false) × MentionsTimeout x)
      go none = ((λ h. cc h), (λ (_, (parts, e, _)). cc e))
      go (some parts) = rw (joined parts) (
          let b = branch (any_has "timeout" parts) (failure_code str lower r) (failure_code-ne r) in
          ((λ h. (refl, (parts, refl, b.0 h))), (λ (_, (others, e, h)). b.1 (cc (e, h)))))

  -- Both classifications say that there is no error of the successes, and of them only.
  error_codes-none :
      (r : Object)
      → ((formalize_error_code str lower r ≡ some no_error)
          ↔ (truthy (get_or null "success" r) ≡ true))
        × ((verify_error_code str lower r ≡ no_error) ↔ (truthy (get_or null "success" r) ≡ true))
  unfolding formalize_error_code failure_code verify_error_code
  error_codes-none r = ground arith
