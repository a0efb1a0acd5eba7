-- ===== src/Tests/Jobs.antt =====
-- A job store at concrete calls.
use lean_econ_api.Prelude.{ℕ, none, [], ◌∷◌, ◌≡◌}
use lean_econ_api.Dict
use lean_econ_api.Jobs.{
  Job, JobStore, running, completed, failed, Event, progress, init, create, update_status,
  subscribe, unsubscribe, complete, publish, get, subscribers_of, cleanup_expired, has, new_job,
}
use lean_econ_api.Jobs.Lifecycle.{
  Reach, here, next, create_step, start_step, subscribe_step, publish_step, complete_step, IsValid,
  Reach-IsValid,
}
use lean_econ_api.Jobs.Queues.{AreWired, Reach-AreWired, unsubscribe-subscribe}
use lean_econ_api.Jobs.Delivery.{contents-publish}
use lean_econ_api.Jobs.Expiry.{unexpired, get-unexpired}

abbrev created : JobStore ℕ
created = create "a" none 5 6 (init 3600)

abbrev watched : JobStore ℕ
watched = (subscribe "a" (update_status "a" running 7 created)).1

reached : Reach (init 3600) watched
reached = next (next (next here (create_step "a" none 5 6)) (start_step "a" 7)) (subscribe_step "a")

Reach-IsValid_example : IsValid (complete "a" 1 8 9 watched)
Reach-IsValid_example = Reach-IsValid 3600 (next reached (complete_step "a" 1 8 9))

Reach-AreWired_example : AreWired (publish "a" (progress "parse" "" "done") watched)
Reach-AreWired_example =
    Reach-AreWired 3600 (next reached (publish_step "a" (progress "parse" "" "done")))

unsubscribe-subscribe_example :
    subscribers_of "a" (unsubscribe "a" (subscribe "a" watched).0 (subscribe "a" watched).1)
    ≡ subscribers_of "a" watched
unsubscribe-subscribe_example = unsubscribe-subscribe "a" "a" watched (Reach-AreWired 3600 reached)

contents-publish_example :
    (publish "a" (progress "parse" "" "done") watched).contents 0 ≡ progress "parse" "" "done" ∷ []
unfolding subscribe has Dict.get update_status create init Dict.put lean_econ_api.Jobs.modify
contents-publish_example =
    contents-publish "a" (progress "parse" "" "done") watched 0
      ((Reach-AreWired 3600 reached).once "a")

get-unexpired_example : (get "a" 3606 created).0 ≡ none
unfolding create init unexpired Dict.get Dict.put lean_econ_api.Jobs.is_expired
get-unexpired_example =
    get-unexpired "a" 3606 created
      (Reach-IsValid 3600 (next here (create_step "a" none 5 6))).distinct
