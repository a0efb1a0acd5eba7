-- ===== src/Prover/Conversation/Rounds.antt =====
-- The loop of the conversation ends, within the cap on append rounds.
use lean_econ_api.Prelude.{
  ℕ, zero, suc, ◌+◌, ◌-◌, ◌≤◌, ◌<◌, String, Bool, true, false, Option, none, some, List, [], ◌∷◌,
  ◌≡◌, refl, arith, leb, is_some, if◌then◌else◌, Step, raised, returned,
}
use lean_econ_api.Prover.Conversation.{
  Sdk, Response, Requested, responded, gave_up, append_round_limit_exceeded, Talk, Pass, next,
  finished, stopped, out_of_fuel, send_start, send_append, is_capped, use_results, run_tools,
  after_response, run_round, run_conversation,
}

module _ {C E W : Type 0} (sdk : Sdk C E W) (cap : ℕ) where
  -- The append rounds are within the cap; each request is an append, or the one that started.
  pub record IsWithin (t : Talk E W) : Type 0 where
    pub append_rounds : t.append_rounds ≤ cap
    pub request_count :
        t.request_count ≤ t.append_rounds + (if is_some t.conversation_id then 1 else 0)

  -- the passes that may follow
  budget : Talk E W → ℕ
  budget t = cap - t.append_rounds + (if is_some t.conversation_id then 0 else 1)

  -- A pass keeps within the cap, and one that goes on uses up budget.
  IsRound : ℕ → Pass E W → Type 0
  IsRound b (next t) = IsWithin t × (budget t < b)
  IsRound b (finished t) = IsWithin t
  IsRound b (stopped f t) = IsWithin t
  IsRound b out_of_fuel = ⊥

  run_tools-IsRound :
      (calls : List C) (t : Talk E W) (b : ℕ)
      → IsWithin t
      → budget t < b
      → IsRound b (run_tools sdk (some cap) calls t)
  unfolding run_tools use_results IsRound budget
  run_tools-IsRound [] t b h l = h
  run_tools-IsRound (c ∷ calls) t b h l =
      go (sdk.execute_function_calls t.request_count (c ∷ calls) t.net.world)
    where
      go : (x : Step W (List E)) → IsRound b (use_results sdk (some cap) x t)
      go (raised m w) = record { append_rounds = h.append_rounds; request_count = h.request_count }
      go (returned [] w) = record {
        append_rounds = h.append_rounds;
        request_count = h.request_count;
      }
      go (returned (r ∷ rs) w) =
          (record { append_rounds = h.append_rounds; request_count = h.request_count }, l)

  run_round-IsRound : (t : Talk E W) → IsWithin t → IsRound (budget t) (run_round sdk (some cap) t)
  unfolding run_round is_capped after_response budget IsRound
  run_round-IsRound t h = go t.conversation_id refl
    where
      first :
          (x : Requested (Response E) W)
          → t.conversation_id ≡ none
          → IsRound (budget t) (elim x [
            | gave_up f n ↦ stopped f (record t { net = n })
            | responded r n ↦
                after_response sdk
                  (some cap)
                  r
                  (record t { net = n; conversation_id = some r.conversation_id })
          ])
      first (gave_up f n) e = record {
        append_rounds = h.append_rounds;
        request_count = h.request_count;
      }
      first (responded r n) e =
          run_tools-IsRound (sdk.get_function_calls r.outputs) _ _
            (record {
              append_rounds = h.append_rounds;
              request_count = ground (arith, e, h.request_count);
            })
            (ground (arith, e))

      later :
          (id : String) (x : Requested (Response E) W)
          → t.conversation_id ≡ some id
          → leb cap t.append_rounds ≡ false
          → IsRound (budget t) (elim x [
            | gave_up f n ↦ stopped f (record t { net = n })
            | responded r n ↦
                after_response sdk
                  (some cap)
                  r
                  (record t { net = n; append_rounds = t.append_rounds + 1 })
          ])
      later id (gave_up f n) e l = record {
        append_rounds = h.append_rounds;
        request_count = h.request_count;
      }
      later id (responded r n) e l =
          run_tools-IsRound (sdk.get_function_calls r.outputs) _ _
            (record {
              append_rounds = ground (arith, l);
              request_count = ground (arith, e, h.request_count);
            })
            (ground (arith, l, e))

      capped :
          (id : String) (b : Bool)
          → t.conversation_id ≡ some id
          → leb cap t.append_rounds ≡ b
          → IsRound (budget t) (elim b [
            | true ↦ stopped (append_round_limit_exceeded t.append_rounds) t
            | false ↦ elim (send_append sdk (some cap) id t) [
              | gave_up f n ↦ stopped f (record t { net = n })
              | responded r n ↦
                  after_response sdk
                    (some cap)
                    r
                    (record t { net = n; append_rounds = t.append_rounds + 1 })
            ]
          ])
      capped id true e l = h
      capped id false e l = later id (send_append sdk (some cap) id t) e l

      go :
          (x : Option String)
          → t.conversation_id ≡ x
          → IsRound (budget t) (elim x [
            | none ↦ elim (send_start sdk (some cap) t) [
              | gave_up f n ↦ stopped f (record t { net = n })
              | responded r n ↦
                  after_response sdk
                    (some cap)
                    r
                    (record t { net = n; conversation_id = some r.conversation_id })
            ]
            | some id ↦ elim (is_capped sdk (some cap) t.append_rounds) [
              | true ↦ stopped (append_round_limit_exceeded t.append_rounds) t
              | false ↦ elim (send_append sdk (some cap) id t) [
                | gave_up f n ↦ stopped f (record t { net = n })
                | responded r n ↦
                    after_response sdk
                      (some cap)
                      r
                      (record t { net = n; append_rounds = t.append_rounds + 1 })
              ]
            ]
          ])
      go none e = first (send_start sdk (some cap) t) e
      go (some id) e = capped id (leb cap t.append_rounds) e refl

  -- What the loop ends in.
  abbrev pub IsOver : Pass E W → Type 0
  IsOver (next t) = ⊥
  IsOver (finished t) = IsWithin t
  IsOver (stopped f t) = IsWithin t
  IsOver out_of_fuel = ⊥

  run_conversation-IsOver :
      (fuel : ℕ) (t : Talk E W)
      → IsWithin t
      → budget t < fuel
      → IsOver (run_conversation sdk (some cap) fuel t)
  unfolding run_conversation IsRound
  run_conversation-IsOver zero t h l = absurd (omega (arith, l))
  run_conversation-IsOver (suc fuel) t h l =
      go (run_round sdk (some cap) t) (run_round-IsRound t h) (run_conversation-IsOver fuel)
    where
      go :
          (x : Pass E W)
          → IsRound (budget t) x
          → ((u : Talk E W)
              → IsWithin u
              → budget u < fuel
              → IsOver (run_conversation sdk (some cap) fuel u))
          → IsOver (elim x [
            | next t' ↦ run_conversation sdk (some cap) fuel t'
            | finished t' ↦ finished t'
            | stopped f t' ↦ stopped f t'
            | out_of_fuel ↦ out_of_fuel
          ])
      go (next u) k rest = rest u k.0 (omega (arith, k.1, l))
      go (finished u) k rest = k
      go (stopped f u) k rest = k
      go out_of_fuel k rest = k

  -- With a cap on append rounds the conversation ends, whatever the model asks for: from a talk
  -- that has not begun, `cap + 2` passes are enough. It makes at most `cap` appends and one more
  -- request than that.
  pub run_conversation-ends :
      (t : Talk E W)
      → t.conversation_id ≡ none
      → t.append_rounds ≡ 0
      → t.request_count ≡ 0
      → IsOver (run_conversation sdk (some cap) (cap + 2) t)
  unfolding budget
  run_conversation-ends t e a r =
      run_conversation-IsOver (cap + 2) t
        (record { append_rounds = omega (arith, a); request_count = ground (arith, e, r, a) })
        (ground (arith, e, a))
