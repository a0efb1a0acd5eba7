-- ===== src/Tests/Cache.antt =====
-- A result cache at concrete claims, with a plain digest.
use lean_econ_api.Prelude.{String, Bool, true, false, some, [], ◌∷◌, ◌≡◌, refl, ◌≤◌, max, length}
use lean_econ_api.Text.{strip}
use lean_econ_api.Dict.{Dict, Distinct}
use lean_econ_api.Cache.{
  Policy, Entry, Flags, result_policy, formalization_policy, new_entry, get, put, max_cache_size,
}
use lean_econ_api.Cache.Bound.{put_bound}
use lean_econ_api.Cache.Window.{store, wipe, Window, Window-empty, run, history, run-Window}
use lean_econ_api.Cache.Restart.{Decoded, a_dict, init, run_saved, load, init-run_saved}

-- A result that only says whether it succeeded.
abbrev bool_flags : Flags Bool
bool_flags = record { success = λ b. b; formalization_failed = λ b. false }

abbrev policy : Policy String Bool
policy = result_policy (λ s. s) strip bool_flags

abbrev one : Dict (Entry String Bool)
one = ("a", new_entry "a" true) ∷ []

two_writes :
    run policy (store " a" true ∷ store "b" true ∷ store "a " true ∷ store "c" false ∷ []) []
    ≡ ("b", new_entry "b" true) ∷ ("a", new_entry "a " true) ∷ []
unfolding run put strip lean_econ_api.Dict.put lean_econ_api.Cache.make_room
    lean_econ_api.Dict.contains lean_econ_api.Dict.remove
two_writes = refl

put_bound_example : length (put policy "b" true one) ≤ max max_cache_size (length one)
put_bound_example = put_bound policy "b" true one

run-Window_example :
    Window
      (run policy (store "a" true ∷ wipe ∷ store "b" true ∷ []) [])
      (history policy (store "a" true ∷ wipe ∷ store "b" true ∷ []) [])
run-Window_example =
    run-Window policy (store "a" true ∷ wipe ∷ store "b" true ∷ []) [] [] Window-empty

-- A file whose contents are the entries themselves.
decoded : Dict (Entry String Bool) → Decoded String Bool
decoded entries = a_dict entries

init-run_saved_example :
    (init decoded
      (λ d. d)
      (run_saved decoded
        (λ d. d)
        policy
        (store "b" true ∷ [])
        (init decoded (λ d. d) (some one))).file).cache
    ≡ run policy (store "b" true ∷ []) (load decoded (λ d. d) (some one))
unfolding decoded
init-run_saved_example =
    init-run_saved decoded (λ d. d) policy (λ d. refl) (some one) (store "b" true ∷ [])
