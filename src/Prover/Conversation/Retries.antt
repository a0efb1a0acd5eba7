-- ===== src/Prover/Conversation/Retries.antt =====
-- What a request with backoff does: retries that waited, and one last attempt.
use lean_econ_api.Prelude.{
  ℕ, ◌+◌, String, Bool, true, false, List, [], ◌∷◌, ◌++◌, ◌≡◌, refl, ◌⊎◌, inl, inr, arith, length,
  ◌||◌, not, ap,
}
use lean_econ_api.Prover.Conversation.{
  Reply, answer, error, Net, Requested, responded, give_up_on, record_response, try_request,
  request_with_backoff,
}
use lean_econ_api.Prover.Errors.{Exc, is_timeout, backoff_delays_seconds}

module _ {R W : Type 0} (retryable : Exc → Bool) (sleep : ℕ → W → W) (endpoint : String)
    (request : W → Reply R W) where
  -- From `w` the request failed once for each of the delays, each time with an exception that is no
  -- timeout and is retryable, and each time the wait followed; then the world was `w'`.
  pub data Retried : List ℕ → W → W → Type 0 where
    at_once : {w : W} → Retried [] w w
    waited :
        {w w' w'' : W} {delay : ℕ} {delays : List ℕ} {e : Exc}
        → request w ≡ error e w'
        → is_timeout e ≡ false
        → retryable e ≡ true
        → Retried delays (sleep delay w') w''
        → Retried (delay ∷ delays) w w''

  -- The last attempt: an answer, or an exception that is not retried.
  abbrev pub IsLast : List ℕ → ℕ → Net R W → W → Requested R W → Type 0
  IsLast left count n w x =
      ((r : R) × (w' : W) × (request w ≡ answer r w')
        × (x ≡ responded r (record_response endpoint count r (record n { world = w' }))))
      ⊎ ((e : Exc) × (w' : W) × (request w ≡ error e w')
          × (((is_timeout e || not (retryable e)) ≡ true) ⊎ (left ≡ []))
          × (x ≡ give_up_on endpoint count e (record n { world = w' })))

  -- What a run over the delays `all` is, that counts its retries from `count`.
  pub record IsBackoff (all : List ℕ) (count : ℕ) (n : Net R W) (x : Requested R W) : Type 0 where
    pub used : List ℕ
    pub left : List ℕ
    pub in_order : all ≡ used ++ left
    pub before_last : W
    pub retried : Retried used n.world before_last
    pub retries : ℕ
    pub counted : retries ≡ count + length used
    pub last : IsLast left retries n before_last x

  -- an attempt that is the last
  at_once-IsBackoff :
      (all : List ℕ) (count : ℕ) (n : Net R W) (x : Requested R W)
      → IsLast all count n n.world x
      → IsBackoff all count n x
  at_once-IsBackoff all count n x h = record {
    used = [];
    left = all;
    in_order = refl;
    before_last = n.world;
    retried = at_once;
    retries = count;
    counted = omega arith;
    last = h;
  }

  -- an attempt that is retried
  waited-IsBackoff :
      (delay : ℕ) (delays : List ℕ) (count : ℕ) (n : Net R W) (e : Exc) (w : W) (x : Requested R W)
      → request n.world ≡ error e w
      → (is_timeout e || not (retryable e)) ≡ false
      → IsBackoff delays (count + 1) (record n { world = sleep delay w }) x
      → IsBackoff (delay ∷ delays) count n x
  waited-IsBackoff delay delays count n e w x h retry later = record {
    used = delay ∷ later.used;
    left = later.left;
    in_order = ap (delay ∷◌) later.in_order;
    before_last = later.before_last;
    retried = waited h (ground arith) (ground arith) later.retried;
    retries = later.retries;
    counted = omega (arith, later.counted);
    last = later.last;
  }

  try_request-IsBackoff :
      (all : List ℕ) (count : ℕ) (n : Net R W)
      → IsBackoff all count n (try_request retryable sleep endpoint request all count n)
  unfolding try_request
  try_request-IsBackoff [] count n = at_once-IsBackoff [] count n _ (go (request n.world) refl)
    where
      go :
          (x : Reply R W)
          → request n.world ≡ x
          → IsLast [] count n n.world (elim x [
            | answer r w ↦ responded r (record_response endpoint count r (record n { world = w }))
            | error e w ↦ give_up_on endpoint count e (record n { world = w })
          ])
      go (answer r w) h = inl (r, w, h, refl)
      go (error e w) h = inr (e, w, h, inr refl, refl)
  try_request-IsBackoff (delay ∷ delays) count n =
      go (request n.world) refl (try_request-IsBackoff delays (count + 1))
    where
      split :
          (e : Exc) (w : W) (b : Bool)
          (later : (m : Net R W)
            → IsBackoff delays
                (count + 1)
                m
                (try_request retryable sleep endpoint request delays (count + 1) m))
          → request n.world ≡ error e w
          → (is_timeout e || not (retryable e)) ≡ b
          → IsBackoff (delay ∷ delays) count n (elim b [
            | true ↦ give_up_on endpoint count e (record n { world = w })
            | false ↦
                try_request retryable sleep endpoint request delays
                  (count + 1)
                  (record n { world = sleep delay w })
          ])
      split e w true later h s =
          at_once-IsBackoff (delay ∷ delays) count n
            (give_up_on endpoint count e (record n { world = w })) (inr (e, w, h, inl s, refl))
      split e w false later h s =
          let m : Net R W = record n { world = sleep delay w } in
          waited-IsBackoff delay delays count n e w
            (try_request retryable sleep endpoint request delays (count + 1) m) h s (later m)

      go :
          (x : Reply R W)
          → request n.world ≡ x
          → ((m : Net R W)
              → IsBackoff delays
                  (count + 1)
                  m
                  (try_request retryable sleep endpoint request delays (count + 1) m))
          → IsBackoff (delay ∷ delays) count n (elim x [
            | answer r w ↦ responded r (record_response endpoint count r (record n { world = w }))
            | error e w ↦ elim (is_timeout e || not (retryable e)) [
              | true ↦ give_up_on endpoint count e (record n { world = w })
              | false ↦
                  try_request retryable sleep endpoint request delays
                    (count + 1)
                    (record n { world = sleep delay w })
            ]
          ])
      go (answer r w) h later =
          at_once-IsBackoff (delay ∷ delays) count n
            (responded r (record_response endpoint count r (record n { world = w })))
            (inl (r, w, h, refl))
      go (error e w) h later = split e w (is_timeout e || not (retryable e)) later h refl

  -- A request waits out the first few of the delays 2, 4, 8 and 16, once for each exception that is
  -- retryable and no timeout, and ends by one last attempt: by its answer, or by its exception,
  -- which is a timeout, is not retryable, or came when all four delays were used. It leaves one
  -- record of telemetry, with the number of retries.
  pub request_with_backoff-IsBackoff :
      (n : Net R W)
      → IsBackoff backoff_delays_seconds 0 n
          (request_with_backoff retryable sleep endpoint request n)
  unfolding request_with_backoff
  request_with_backoff-IsBackoff n = try_request-IsBackoff backoff_delays_seconds 0 n
