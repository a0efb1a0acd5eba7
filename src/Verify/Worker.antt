-- ===== src/Verify/Worker.antt =====
-- A verify job among the other clients of the store: how its job ends.
use lean_econ_api.Prelude.{
  ℕ, String, Bool, true, false, Option, none, some, List, [], ◌∷◌, ◌++◌, ◌≡◌, ◌⊎◌, inl, inr, refl,
  arith, map, ◌==◌, eq_refl, if◌then◌else◌, Bool-cases, Option-cases, Step, raised, returned, ap,
  ◌∙◌,
}
use mathlib.Core.Path.{subst}
use lean_econ_api.Dict
use lean_econ_api.Dict.{Dict}
use lean_econ_api.Dict.Laws.{get-put}
use lean_econ_api.Json.{Value, Object, of_object}
use lean_econ_api.Jobs
use lean_econ_api.Jobs.{
  Job, JobStore, JobStatus, completed, failed, modify, create, new_job, subscribe, unsubscribe,
  publish, update_status, record_progress, complete, fail, complete_job, fail_job, finish_job,
  cleanup_expired, drop_jobs, expired_ids, subscribers_of, keep_subscribers,
}
use lean_econ_api.Jobs.Expiry.{mem, get-drop_jobs}
use lean_econ_api.Explainer.{explain_result, Explanation}
use lean_econ_api.Pipeline.{State, run_pipeline}
use lean_econ_api.Verify.{
  StoreCall, start_running, note_progress, send, complete_with, fail_with, perform, on_logs,
  LogEntry, explained, after_pipeline, Runner, VerifyTask, explain_entry, run_verify_job,
  pipeline_request, response_data, with_explanation,
}

-- One call by another client than the job `j`: a stream, a poll, a new job with an id of its own,
-- and the calls of other jobs.
pub data OtherStep (j : String) (s : JobStore Value) : JobStore Value → Type 0 where
  subscribe_step : (k : String) → OtherStep j s (subscribe k s).1
  unsubscribe_step : (k : String) (q : ℕ) → OtherStep j s (unsubscribe k q s)
  get_step : (k : String) (now : ℕ) → OtherStep j s (Jobs.get k now s).1
  create_step :
      (k : String) (r : Option Value) (now t : ℕ)
      → k == j ≡ false
      → OtherStep j s (create k r now t s)
  call_step :
      (k : String) (c : StoreCall) (t u : ℕ) → k == j ≡ false → OtherStep j s (perform k c t u s)

-- The calls of the job `j`, in order, at any times, with any calls of others before, between and
-- behind them.
pub data Worked (j : String) : List StoreCall → JobStore Value → JobStore Value → Type 0 where
  over : {s : JobStore Value} → Worked j [] s s
  acts :
      {c : StoreCall} {cs : List StoreCall} {s v : JobStore Value} (t u : ℕ)
      → Worked j cs (perform j c t u s) v
      → Worked j (c ∷ cs) s v
  waits :
      {cs : List StoreCall} {s t v : JobStore Value}
      → OtherStep j s t
      → Worked j cs t v
      → Worked j cs s v

-- A job that ended by the call `c`: with its response, or with its error.
abbrev pub EndedBy : StoreCall → Job Value → Type 0
EndedBy (complete_with response) job =
    (job.status ≡ completed) × (job.result ≡ some (of_object response))
EndedBy (fail_with error) job = (job.status ≡ failed) × (job.error ≡ some error)
EndedBy c job = ⊥

-- The job `j` has ended by the call `c`, or it has expired and is gone.
pub data IsOver (j : String) (c : StoreCall) (s : JobStore Value) : Type 0 where
  gone : Dict.get j s.jobs ≡ none → IsOver j c s
  kept : {job : Job Value} → Dict.get j s.jobs ≡ some job → EndedBy c job → IsOver j c s

get-modify :
    (j k : String) (f : Job Value → Job Value) (s : JobStore Value)
    → k == j ≡ false
    → Dict.get j (modify k f s).jobs ≡ Dict.get j s.jobs
unfolding modify
get-modify j k f s apart = elim (Option-cases (Dict.get k s.jobs)) [
  | inl absent ↦ rw (absent, modify) refl
  | inr (job, found) ↦ rw (found, modify) (ground (arith, get-put k j (f job) s.jobs, apart))
]

get-perform :
    (j k : String) (c : StoreCall) (t u : ℕ) (s : JobStore Value)
    → k == j ≡ false
    → Dict.get j (perform k c t u s).jobs ≡ Dict.get j s.jobs
unfolding perform update_status record_progress publish complete fail
get-perform j k start_running t u s apart = get-modify j k _ s apart
get-perform j k (note_progress stage status ms) t u s apart = get-modify j k _ s apart
get-perform j k (send e) t u s apart = refl
get-perform j k (complete_with r) t u s apart = get-modify j k _ s apart
get-perform j k (fail_with m) t u s apart = get-modify j k _ s apart

get-unsubscribe :
    (j k : String) (q : ℕ) (s : JobStore Value)
    → Dict.get j (unsubscribe k q s).jobs ≡ Dict.get j s.jobs
unfolding unsubscribe
get-unsubscribe j k q s = ground arith

-- Another client leaves the job as it is, or finds it expired.
OtherStep-get :
    (j : String) {s t : JobStore Value}
    → OtherStep j s t
    → (Dict.get j t.jobs ≡ Dict.get j s.jobs) ⊎ (Dict.get j t.jobs ≡ none)
OtherStep-get j {s} (subscribe_step k) = inl (unfold subscribe in refl)
OtherStep-get j {s} (unsubscribe_step k q) = inl (get-unsubscribe j k q s)
OtherStep-get j {s} (get_step k now) =
    unfold Jobs.get in
    unfold cleanup_expired in
    elim (Bool-cases (mem j (expired_ids s.ttl now s.jobs))) [
      | inl dropped ↦
          inr (ground (arith, get-drop_jobs j (expired_ids s.ttl now s.jobs) s, dropped))
      | inr stays ↦ inl (ground (arith, get-drop_jobs j (expired_ids s.ttl now s.jobs) s, stays))
    ]
OtherStep-get j {s} (create_step k r now t apart) =
    inl (unfold create in ground (arith, get-put k j (new_job r now t) s.jobs, apart))
OtherStep-get j {s} (call_step k c t u apart) = inl (get-perform j k c t u s apart)

OtherStep-IsOver :
    (j : String) (c : StoreCall) {s t : JobStore Value}
    → OtherStep j s t
    → IsOver j c s
    → IsOver j c t
OtherStep-IsOver j c st (gone e) = elim (OtherStep-get j st) [
  | inl same ↦ gone (same ∙ e)
  | inr dropped ↦ gone dropped
]
OtherStep-IsOver j c st (kept e h) = elim (OtherStep-get j st) [
  | inl same ↦ kept (same ∙ e) h
  | inr dropped ↦ gone dropped
]

Worked-IsOver :
    (j : String) (c : StoreCall) {s t : JobStore Value}
    → Worked j [] s t
    → IsOver j c s
    → IsOver j c t
Worked-IsOver j c over h = h
Worked-IsOver j c (waits st w) h = Worked-IsOver j c w (OtherStep-IsOver j c st h)

-- The last of the calls, which closes the job.
abbrev pub is_closing : StoreCall → Bool
is_closing (complete_with r) = true
is_closing (fail_with m) = true
is_closing c = false

abbrev pub last_call : StoreCall → List StoreCall → StoreCall
last_call c [] = c
last_call c (d ∷ cs) = last_call d cs

close-IsOver :
    (j : String) (f : Job Value → Job Value) (c : StoreCall) (s : JobStore Value)
    → ((job : Job Value) → EndedBy c (f job))
    → IsOver j c (modify j f s)
unfolding modify
close-IsOver j f c s ends = elim (Option-cases (Dict.get j s.jobs)) [
  | inl absent ↦ rw (absent, modify) (gone absent)
  | inr (job, found) ↦
      rw (found, modify) (kept (get-put j j (f job) s.jobs ∙ rw (eq_refl j) refl) (ends job))
]

same-IsOver :
    (j : String) (c : StoreCall) (s t : JobStore Value)
    → t.jobs ≡ s.jobs
    → IsOver j c s
    → IsOver j c t
same-IsOver j c s t e (gone h) = gone (ap (Dict.get j) e ∙ h)
same-IsOver j c s t e (kept h k) = kept (ap (Dict.get j) e ∙ h) k

perform-IsOver :
    (j : String) (c : StoreCall) (t u : ℕ) (s : JobStore Value)
    → is_closing c ≡ true
    → IsOver j c (perform j c t u s)
unfolding perform complete fail publish complete_job fail_job finish_job
perform-IsOver j (complete_with r) t u s h =
    same-IsOver j (complete_with r) _ _ refl
      (close-IsOver j (complete_job (of_object r) t u) (complete_with r) s (λ job. (refl, refl)))
perform-IsOver j (fail_with m) t u s h =
    same-IsOver j (fail_with m) _ _ refl
      (close-IsOver j (fail_job m t u) (fail_with m) s (λ job. (refl, refl)))
perform-IsOver j start_running t u s h = cc
perform-IsOver j (note_progress a b c) t u s h = cc
perform-IsOver j (send e) t u s h = cc

Worked-ends :
    (j : String) (c : StoreCall) (cs : List StoreCall) {s t : JobStore Value}
    → Worked j (c ∷ cs) s t
    → is_closing (last_call c cs) ≡ true
    → IsOver j (last_call c cs) t
Worked-ends j c [] {s} (acts a b w) h = Worked-IsOver j c w (perform-IsOver j c a b s h)
Worked-ends j c (d ∷ cs) (acts a b w) h = Worked-ends j d cs w h
Worked-ends j c cs (waits st w) h = Worked-ends j c cs w h

last_call-append :
    (b : StoreCall) (cs ds : List StoreCall)
    → last_call b (cs ++ ds) ≡ last_call (last_call b cs) ds
last_call-append b [] ds = refl
last_call-append b (c ∷ cs) ds = last_call-append c cs ds

module _ {W : Type 0} (runner : Runner W) (task : VerifyTask) where
  -- The call that the end of the pipeline asks for.
  abbrev pub ending : Step (State W) Object → StoreCall
  ending (raised message s) = fail_with message
  ending (returned result s) = complete_with (
      if task.explain
      then with_explanation runner
          (explain_result runner.model task.theorem_code task.theorem_code result s.world).0
          (response_data runner result)
      else response_data runner result)

  last-after_pipeline :
      (b : StoreCall) (es : List LogEntry) (result : Object) (s : State W)
      → last_call b (on_logs es ++ after_pipeline runner task result s.world)
        ≡ ending (returned result s)
  unfolding after_pipeline explained
  last-after_pipeline b es result s = go task.explain
    where
      e : Explanation
      e = (explain_result runner.model task.theorem_code task.theorem_code result s.world).0

      go :
          (x : Bool)
          → last_call b (
              on_logs es
              ++ (if x
                  then explained runner e result
                  else complete_with (response_data runner result) ∷ []))
            ≡ complete_with (
                if x
                then with_explanation runner e (response_data runner result)
                else response_data runner result)
      go true =
          last_call-append b (on_logs es) (explained runner e result)
          ∙ last_call-append _ (on_logs (map explain_entry e.logged)) _
      go false = last_call-append b (on_logs es) _

  last-run_verify_job :
      (x : Step (State W) Object) (s : State W)
      → last_call start_running (elim x [
        | raised message s' ↦ on_logs (runner.entries s s') ++ (fail_with message ∷ [])
        | returned result s' ↦
            on_logs (runner.entries s s') ++ after_pipeline runner task result s'.world
      ])
        ≡ ending x
  last-run_verify_job (raised m s') s =
      last_call-append start_running (on_logs (runner.entries s s')) _
  last-run_verify_job (returned r s') s =
      last-after_pipeline start_running (runner.entries s s') r s'

  ending-closes : (x : Step (State W) Object) → is_closing (ending x) ≡ true
  ending-closes (raised m s) = refl
  ending-closes (returned r s) = refl

  -- Whatever other clients call before, between and behind the calls of a verify job, when the job
  -- has made its calls its entry in the store has ended, unless it has expired and is gone: where the
  -- pipeline returned, it is completed with the response to its result, and where it raised, failed
  -- with the message.
  pub run_verify_job-IsOver :
      (s : State W) {t u : JobStore Value}
      → Worked task.job_id (run_verify_job runner task s) t u
      → IsOver task.job_id (ending (run_pipeline runner.stages (pipeline_request runner task) s)) u
  unfolding run_verify_job
  run_verify_job-IsOver s {t} {u} w =
      let x = run_pipeline runner.stages (pipeline_request runner task) s in
      let last = last-run_verify_job x s in
      subst (λ c. IsOver task.job_id c u) last
        (Worked-ends task.job_id start_running _ w (ap is_closing last ∙ ending-closes x))
