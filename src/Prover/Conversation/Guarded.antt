-- ===== src/Prover/Conversation/Guarded.antt =====
-- The conversation with `_install_guarded_execute_function_calls` done: its world is the state of
-- the guard, and the guard runs the function calls.
use lean_econ_api.Prelude.{ℕ, ◌+◌, List, map, Step, raised, returned, step_state, Option}
use lean_econ_api.Prover.Guard.{
  Context, FunctionCall, FunctionResult, State, Round, round_state, execute_function_calls,
}
use lean_econ_api.Prover.Guard.Bounds.{IsBounded}
use lean_econ_api.Prover.Guard.Budget.{execute_function_calls-IsBounded}
use lean_econ_api.Prover.Guard.Evidence.{IsEarned, execute_function_calls-IsEarned}
use lean_econ_api.Prover.Conversation.{Sdk, Reply, answer, error, Talk, run_conversation}
use lean_econ_api.Prover.Conversation.Kept.{AtEnd, reply_world, run_conversation-keeps}

-- The SDK acts on the world of the guard, and on nothing else of its state.
abbrev pub in_guard : {R W J : Type 0} → State W J → Reply R W → Reply R (State W J)
in_guard s (answer r w) = answer r (record s { world = w })
in_guard s (error e w) = error e (record s { world = w })

abbrev pub round_step :
    {E W J : Type 0} → (FunctionResult → E) → Round W J → Step (State W J) (List E)
round_step entry (Round.stopped message s) = raised message s
round_step entry (Round.finished rs s) = returned (map entry rs) s

-- The SDK with its function calls replaced by the guard. `entry` makes an input entry of a result;
-- the guard numbers a request by `run_ctx.request_count + 1`.
unfoldable pub install :
    {E W J : Type 0}
    → Context W J
    → (FunctionResult → E)
    → Sdk (FunctionCall J) E W
    → Sdk (FunctionCall J) E (State W J)
install ctx entry sdk = record {
  status_in_text = sdk.status_in_text;
  sleep = λ d s. record s { world = sdk.sleep d s.world };
  start = λ es s. in_guard s (sdk.start es s.world);
  append = λ id es s. in_guard s (sdk.append id es s.world);
  get_function_calls = sdk.get_function_calls;
  execute_function_calls =
      λ k calls s. round_step entry (execute_function_calls ctx (k + 1) calls s);
}

-- What the budgets and the search precondition promise of a state.
pub record IsGuarded {W J : Type 0} (s : State W J) : Type 0 where
  pub bounded : IsBounded s.tracker
  pub earned : IsEarned s

elsewhere-IsGuarded :
    {W J : Type 0} (s : State W J) (w : W) → IsGuarded s → IsGuarded (record s { world = w })
elsewhere-IsGuarded s w h = record {
  bounded = h.bounded;
  earned = record { opened = h.earned.opened; evidence = h.earned.evidence };
}

in_guard-IsGuarded :
    {R W J : Type 0} (s : State W J) (x : Reply R W)
    → IsGuarded s
    → IsGuarded (reply_world (in_guard s x))
in_guard-IsGuarded s (answer r w) h = elsewhere-IsGuarded s w h
in_guard-IsGuarded s (error e w) h = elsewhere-IsGuarded s w h

round_step-IsGuarded :
    {E W J : Type 0} (entry : FunctionResult → E) (x : Round W J)
    → IsGuarded (round_state x)
    → IsGuarded (step_state (round_step entry x))
round_step-IsGuarded entry (Round.stopped m s) h = h
round_step-IsGuarded entry (Round.finished rs s) h = h

-- Over a whole conversation with the guard installed, from a state in which no counter of the tool
-- tracker is over its limit and a search had run only after a failed tactic attempt, both are so at
-- every end of the loop, whatever the model asks for, the provider answers or a tool raises.
pub run_conversation-IsGuarded :
    {E W J : Type 0} (ctx : Context W J) (entry : FunctionResult → E)
    (sdk : Sdk (FunctionCall J) E W) (cap : Option ℕ) (fuel : ℕ) (t : Talk E (State W J))
    → IsGuarded t.net.world
    → AtEnd IsGuarded (run_conversation (install ctx entry sdk) cap fuel t)
unfolding install
run_conversation-IsGuarded ctx entry sdk cap fuel t h =
    run_conversation-keeps (install ctx entry sdk) cap IsGuarded
      (λ d s k. elsewhere-IsGuarded s (sdk.sleep d s.world) k)
      (λ es s k. in_guard-IsGuarded s (sdk.start es s.world) k)
      (λ id es s k. in_guard-IsGuarded s (sdk.append id es s.world) k)
      (λ n calls s k.
        round_step-IsGuarded entry (execute_function_calls ctx (n + 1) calls s) (record {
          bounded = execute_function_calls-IsBounded ctx (n + 1) calls s k.bounded;
          earned = execute_function_calls-IsEarned ctx (n + 1) calls s k.earned;
        }))
      fuel t h
