-- ===== src/Cache/Restart.antt =====
-- The JSON file behind a cache: `_load` and `_save`, and what a restart brings back. JSON and the
-- file system are parameters.
use lean_econ_api.Prelude.{
  Option, none, some, List, [], ◌∷◌, ◌≡◌, refl, arith, if◌then◌else◌, Bool-cases, inl, inr, ◌∙◌,
}
use lean_econ_api.Dict.{Dict}
use lean_econ_api.Cache.{Policy, Entry, put, clear}
use lean_econ_api.Cache.Window.{Write, store, wipe, run}

-- What `json.load` makes of the contents of a file.
pub data Decoded (I R : Type 0) : Type 0 where
  a_dict : Dict (Entry I R) → Decoded I R
  not_a_dict : Decoded I R
  unreadable : Decoded I R

-- How a write of the file ends; `T` has the contents of a file. After an `OSError` the file may hold anything.
pub data Saved (T : Type 0) : Type 0 where
  written : Saved T
  os_error : Option T → Saved T

pub record Backed (T I R : Type 0) : Type 0 where
  pub cache : Dict (Entry I R)
  pub file : Option T

module _ {T I R : Type 0} (decode : T → Decoded I R) (dump : Dict (Entry I R) → T) where
  -- `_load`; `none` is a file that is not there.
  unfoldable pub load : Option T → Dict (Entry I R)
  load none = []
  load (some text) = elim (decode text) [
    | a_dict entries ↦ entries
    | not_a_dict ↦ []
    | unreadable ↦ []
  ]

  -- `__init__`
  unfoldable pub init : Option T → Backed T I R
  unfolding load
  init file = record { cache = load file; file = file }

  -- `_save`
  unfoldable pub save : Saved T → Backed T I R → Backed T I R
  save written s = record s { file = some (dump s.cache) }
  save (os_error left) s = record s { file = left }

  module _ (policy : Policy I R) where
    -- `put` and `clear` with their `_save`
    unfoldable pub put_saved : I → R → Saved T → Backed T I R → Backed T I R
    unfolding save
    put_saved i r outcome s =
        if policy.should_cache r
        then save outcome (record s { cache = put policy i r s.cache })
        else s

    unfoldable pub clear_saved : Saved T → Backed T I R → Backed T I R
    unfolding save
    clear_saved outcome s = save outcome (record s { cache = clear s.cache })

    -- A run in which every write of the file succeeds.
    pub run_saved : List (Write I R) → Backed T I R → Backed T I R
    run_saved [] s = s
    run_saved (store i r ∷ writes) s = run_saved writes (put_saved i r written s)
    run_saved (wipe ∷ writes) s = run_saved writes (clear_saved written s)

    put_saved-cache :
        (i : I) (r : R) (o : Saved T) (s : Backed T I R)
        → (put_saved i r o s).cache ≡ put policy i r s.cache
    unfolding put_saved put
    put_saved-cache i r written s = ground arith
    put_saved-cache i r (os_error x) s = ground arith

    module _ (decode-dump : (d : Dict (Entry I R)) → decode (dump d) ≡ a_dict d) where
      IsSynced : Backed T I R → Type 0
      IsSynced s = load s.file ≡ s.cache

      save-IsSynced : (s : Backed T I R) → IsSynced (save written s)
      unfolding save load IsSynced
      save-IsSynced s = rw decode-dump

      put_saved-IsSynced :
          (i : I) (r : R) (s : Backed T I R) → IsSynced s → IsSynced (put_saved i r written s)
      unfolding put_saved
      put_saved-IsSynced i r s h = elim (Bool-cases (policy.should_cache r)) [
        | inl accepted ↦ rw accepted (save-IsSynced (record s { cache = put policy i r s.cache }))
        | inr rejected ↦ rw rejected h
      ]

      run_saved-IsSynced :
          (writes : List (Write I R)) (s : Backed T I R)
          → IsSynced s
          → IsSynced (run_saved writes s)
      unfolding run_saved clear_saved
      run_saved-IsSynced [] s h = h
      run_saved-IsSynced (store i r ∷ writes) s h =
          run_saved-IsSynced writes (put_saved i r written s) (put_saved-IsSynced i r s h)
      run_saved-IsSynced (wipe ∷ writes) s h =
          run_saved-IsSynced writes (clear_saved written s)
            (save-IsSynced (record s { cache = [] }))

      cache-run_saved :
          (writes : List (Write I R)) (s : Backed T I R)
          → (run_saved writes s).cache ≡ run policy writes s.cache
      unfolding run_saved run clear_saved save
      cache-run_saved [] s = refl
      cache-run_saved (store i r ∷ writes) s =
          rw (cache-run_saved writes (put_saved i r written s), put_saved-cache i r written s)
      cache-run_saved (wipe ∷ writes) s = cache-run_saved writes (clear_saved written s)

      -- Start from any file, absent or unreadable too, and write while every save succeeds: a
      -- restart from the file then has the very entries, in the same order, that the writes leave
      -- in memory.
      pub init-run_saved :
          (file : Option T) (writes : List (Write I R))
          → (init (run_saved writes (init file)).file).cache ≡ run policy writes (load file)
      unfolding init IsSynced
      init-run_saved file writes =
          run_saved-IsSynced writes (init file) refl ∙ cache-run_saved writes (init file)
