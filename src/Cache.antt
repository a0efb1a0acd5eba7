-- ===== src/Cache.antt =====
-- src/result_cache.py: the JSON-backed caches of verified results and of formalizations. The
-- proofs are in the modules below.
pub mod Bound
pub mod Reads
pub mod Window
pub mod Restart
pub mod Contents
use lean_econ_api.Prelude.{
  ℕ, String, Bool, Option, none, some, List, [], ◌∷◌, ◌++◌, ◌||◌, leb, length, if◌then◌else◌,
}
use lean_econ_api.Dict
use lean_econ_api.Dict.{Dict}

-- `MAX_CACHE_SIZE`
abbrev pub max_cache_size : ℕ
max_cache_size = 500

-- The two methods that a subclass of `_JsonBackedCache` gives.
pub record Policy (I R : Type 0) : Type 0 where
  pub make_key : I → String
  pub should_cache : R → Bool

-- `{"cache_input": …, "result": …}`; an entry that was read from disk may lack its result.
pub record Entry (I R : Type 0) : Type 0 where
  pub cache_input : I
  pub result : Option R

-- What the code reads of a result: the truth values of `result.get("success")` and of
-- `result.get("formalization_failed")`.
pub record Flags (R : Type 0) : Type 0 where
  pub success : R → Bool
  pub formalization_failed : R → Bool

-- `ResultCache`, over `hashlib.sha256(…).hexdigest()[:16]` and `str.strip`
abbrev pub result_policy :
    {R : Type 0} → (String → String) → (String → String) → Flags R → Policy String R
result_policy digest strip flags = record {
  make_key = λ claim_text. digest (strip claim_text);
  should_cache = λ result. flags.success result;
}

-- `_structured_key`, over `json.dumps` with sorted keys and the same digest
abbrev pub structured_key : {J : Type 0} → (String → String) → (J → String) → J → String
structured_key digest dumps payload = digest (dumps payload)

-- `FormalizationCache`
abbrev pub formalization_policy :
    {J R : Type 0} → (String → String) → (J → String) → Flags R → Policy J R
formalization_policy digest dumps flags = record {
  make_key = structured_key digest dumps;
  should_cache = λ result. flags.success result || flags.formalization_failed result;
}

module _ {I R : Type 0} where
  -- `del self._cache[next(iter(self._cache))]`
  unfoldable pub drop_oldest : Dict (Entry I R) → Dict (Entry I R)
  drop_oldest [] = []
  drop_oldest ((k, e) ∷ rest) = Dict.remove k ((k, e) ∷ rest)

  -- The two branches of `put` that free a place for `key`.
  unfoldable pub make_room : String → Dict (Entry I R) → Dict (Entry I R)
  unfolding drop_oldest
  make_room key cache =
      if Dict.contains key cache
      then Dict.remove key cache
      else if leb max_cache_size (length cache)
      then drop_oldest cache
      else cache

  -- the dictionary that `put` stores
  abbrev pub new_entry : I → R → Entry I R
  new_entry cache_input result = record { cache_input = cache_input; result = some result }

  module _ (policy : Policy I R) where
    open policy use {make_key, should_cache}

    -- `get`
    unfoldable pub get : I → Dict (Entry I R) → Option R
    get cache_input cache = elim (Dict.get (make_key cache_input) cache) [
      | none ↦ none
      | some entry ↦ entry.result
    ]

    -- `put`; the new key goes to the end of the dictionary.
    unfoldable pub put : I → R → Dict (Entry I R) → Dict (Entry I R)
    put cache_input result cache =
        let key = make_key cache_input in
        if should_cache result
        then Dict.put key (new_entry cache_input result) (make_room key cache)
        else cache

  -- `clear`
  abbrev pub clear : Dict (Entry I R) → Dict (Entry I R)
  clear cache = []
