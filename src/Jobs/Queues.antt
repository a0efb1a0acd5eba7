-- ===== src/Jobs/Queues.antt =====
-- The subscriber queues of every reachable store, and the round trip of a subscription.
use lean_econ_api.Prelude.{
  ◌∙◌, ℕ, suc, ◌≤◌, ◌<◌, String, Bool, true, false, List, [], ◌∷◌, ◌++◌, ◌≡◌, refl, arith, ◌==◌,
  eqb, eq_iff, eq_refl, if◌then◌else◌, length, length-append, ◌||◌, Bool-cases, Option-cases, inl,
  inr, All, All-append, sym, ap,
}
use mathlib.Core.Path.{subst}
use lean_econ_api.Dict
use lean_econ_api.Dict.Laws.{get-put, get-remove}
use lean_econ_api.Jobs.{
  Job, JobStore, Event, queue_size, update, has, remove_first, offer, offer_all, subscribers_of,
  subscribe, unsubscribe, publish, create, modify, update_status, record_progress, complete, fail,
  get, cleanup_expired, drop_jobs, init, expired_ids, keep_subscribers,
}
use lean_econ_api.Jobs.Delivery.{Once}
use lean_econ_api.Jobs.Lifecycle.{
  Step, create_step, start_step, progress_step, subscribe_step, unsubscribe_step, publish_step,
  complete_step, fail_step, get_step, Reach, here, next,
}

pub record AreWired {Py : Type 0} (s : JobStore Py) : Type 0 where
  pub once : (j : String) → Once (subscribers_of j s)
  pub known : (j : String) → All (λ q. q < s.next_queue) (subscribers_of j s)
  pub bounded : (q : ℕ) → length (s.contents q) ≤ queue_size

has-fresh : (n : ℕ) (qs : List ℕ) → All (λ q. q < n) qs → has n qs ≡ false
unfolding has
has-fresh n [] h = refl
has-fresh n (q ∷ qs) h = ground (arith, has-fresh n qs h.1)

has-append : (n : ℕ) (ps qs : List ℕ) → has n (ps ++ qs) ≡ has n ps || has n qs
unfolding has
has-append n [] qs = refl
has-append n (p ∷ ps) qs = ground (arith, has-append n ps qs)

Once-snoc : (n : ℕ) (qs : List ℕ) → All (λ q. q < n) qs → Once qs → Once (qs ++ n ∷ [])
unfolding has
Once-snoc n [] h u = (refl, tt)
Once-snoc n (q ∷ qs) h u = (ground (arith, has-append q qs (n ∷ [])), Once-snoc n qs h.1 u.1)

All-weaken : (m n : ℕ) (qs : List ℕ) → m ≤ n → All (λ q. q < m) qs → All (λ q. q < n) qs
All-weaken m n [] le h = tt
All-weaken m n (q ∷ qs) le h = (omega arith, All-weaken m n qs le h.1)

has-remove_first : (n q : ℕ) (qs : List ℕ) → has n qs ≡ false → has n (remove_first q qs) ≡ false
unfolding has remove_first
has-remove_first n q [] h = refl
has-remove_first n q (p ∷ ps) h = ground (arith, has-remove_first n q ps)

Once-remove_first : (q : ℕ) (qs : List ℕ) → Once qs → Once (remove_first q qs)
unfolding remove_first has
Once-remove_first q [] u = tt
Once-remove_first q (p ∷ ps) u = elim (Bool-cases (eqb p q)) [
  | inl same ↦ rw same u.1
  | inr other ↦ rw other (has-remove_first p q ps u.0, Once-remove_first q ps u.1)
]

All-remove_first :
    (n q : ℕ) (qs : List ℕ) → All (λ p. p < n) qs → All (λ p. p < n) (remove_first q qs)
unfolding remove_first
All-remove_first n q [] h = tt
All-remove_first n q (p ∷ ps) h = elim (Bool-cases (eqb p q)) [
  | inl same ↦ rw same h.1
  | inr other ↦ rw other (h.0, All-remove_first n q ps h.1)
]

has_self : (n : ℕ) → has n (n ∷ []) ≡ true
unfolding has
has_self n = ground arith

remove_first-snoc : (q : ℕ) (qs : List ℕ) → has q qs ≡ false → remove_first q (qs ++ q ∷ []) ≡ qs
unfolding remove_first has
remove_first-snoc q [] h = ground arith
remove_first-snoc q (p ∷ ps) h = ground (arith, remove_first-snoc q ps)

length-offer_all-le :
    (e : Event) (qs : List ℕ) (c : ℕ → List Event) (q : ℕ)
    → ((p : ℕ) → length (c p) ≤ queue_size)
    → length (offer_all e qs c q) ≤ queue_size
unfolding offer_all
length-offer_all-le e [] c q h = h q
length-offer_all-le e (p ∷ ps) c q h =
    length-offer_all-le e ps (offer e p c) q
      (λ r. unfold offer in ground (arith, h r, h p, length-append (c p) (e ∷ [])))

if_either : {A : Type 0} (P : A → Type 0) (b : Bool) {x y : A} → P x → P y → P (if b then x else y)
if_either P true p q = p
if_either P false p q = q

module _ {Py : Type 0} where
  subscribers-put :
      (k j : String) (qs : List ℕ) (s : JobStore Py)
      → subscribers_of j (record s { subscribers = Dict.put k qs s.subscribers })
        ≡ (if k == j then qs else subscribers_of j s)
  subscribers-put k j qs s = ground (arith, get-put k j qs s.subscribers)

  subscribers-remove :
      (k j : String) (s : JobStore Py)
      → subscribers_of j (record s { subscribers = Dict.remove k s.subscribers })
        ≡ (if k == j then [] else subscribers_of j s)
  subscribers-remove k j s = ground (arith, get-remove k j s.subscribers)

  put-AreWired :
      (k : String) (qs : List ℕ) (s : JobStore Py)
      → Once qs
      → All (λ q. q < s.next_queue) qs
      → AreWired s
      → AreWired (record s { subscribers = Dict.put k qs s.subscribers })
  put-AreWired k qs s u h w = record {
    once = λ j. subst Once (sym (subscribers-put k j qs s)) (if_either Once (k == j) u (w.once j));
    known = λ j.
        subst (All (λ q. q < s.next_queue)) (sym (subscribers-put k j qs s))
          (if_either (All (λ q. q < s.next_queue)) (k == j) h (w.known j));
    bounded = w.bounded;
  }

  remove-AreWired :
      (k : String) (s : JobStore Py)
      → AreWired s
      → AreWired (record s { subscribers = Dict.remove k s.subscribers })
  remove-AreWired k s w = record {
    once = λ j. subst Once (sym (subscribers-remove k j s)) (if_either Once (k == j) tt (w.once j));
    known = λ j.
        subst (All (λ q. q < s.next_queue)) (sym (subscribers-remove k j s))
          (if_either (All (λ q. q < s.next_queue)) (k == j) tt (w.known j));
    bounded = w.bounded;
  }

  modify-AreWired :
      (j : String) (f : Job Py → Job Py) (s : JobStore Py) → AreWired s → AreWired (modify j f s)
  unfolding modify
  modify-AreWired j f s w = elim (Option-cases (Dict.get j s.jobs)) [
    | inl absent ↦ rw (absent, modify) w
    | inr (job, found) ↦
        rw (found, modify) (record { once = w.once; known = w.known; bounded = w.bounded })
  ]

  publish-AreWired :
      (j : String) (e : Event) (s : JobStore Py) → AreWired s → AreWired (publish j e s)
  unfolding publish
  publish-AreWired j e s w = record {
    once = w.once;
    known = w.known;
    bounded = λ q. length-offer_all-le e (subscribers_of j s) s.contents q w.bounded;
  }

  subscribe-AreWired : (j : String) (s : JobStore Py) → AreWired s → AreWired (subscribe j s).1
  unfolding subscribe
  subscribe-AreWired j s w =
      let n = s.next_queue in
      let qs = subscribers_of j s in
      put-AreWired j (qs ++ n ∷ [])
        (record s { contents = update s.contents n []; next_queue = suc n })
        (Once-snoc n qs (w.known j) (w.once j))
        (All-append (λ q. q < suc n) qs (n ∷ []) (All-weaken n (suc n) qs (omega arith) (w.known j))
          (omega arith, tt))
        (record {
          once = w.once;
          known = λ k. All-weaken n (suc n) (subscribers_of k s) (omega arith) (w.known k);
          bounded = λ q. ground (arith, w.bounded q);
        })

  kept-AreWired :
      (j : String) (qs : List ℕ) (s : JobStore Py)
      → Once qs
      → All (λ q. q < s.next_queue) qs
      → AreWired s
      → AreWired (keep_subscribers j qs s)
  kept-AreWired j [] s u h w = remove-AreWired j s w
  kept-AreWired j (q ∷ qs) s u h w = put-AreWired j (q ∷ qs) s u h w

  unsubscribe-AreWired :
      (j : String) (q : ℕ) (s : JobStore Py) → AreWired s → AreWired (unsubscribe j q s)
  unfolding unsubscribe
  unsubscribe-AreWired j q s w = go (subscribers_of j s) (w.once j) (w.known j)
    where
      go :
          (qs : List ℕ)
          → Once qs
          → All (λ p. p < s.next_queue) qs
          → AreWired (elim qs [
            | [] ↦ s
            | p ∷ ps ↦
                keep_subscribers j (if has q (p ∷ ps) then remove_first q (p ∷ ps) else p ∷ ps) s
          ])
      go [] u h = w
      go (p ∷ ps) u h = elim (Bool-cases (has q (p ∷ ps))) [
        | inl there ↦ rw there (
            kept-AreWired j (remove_first q (p ∷ ps)) s (Once-remove_first q (p ∷ ps) u)
              (All-remove_first s.next_queue q (p ∷ ps) h) w)
        | inr absent ↦ rw absent (kept-AreWired j (p ∷ ps) s u h w)
      ]

  drop_jobs-AreWired : (ks : List String) (s : JobStore Py) → AreWired s → AreWired (drop_jobs ks s)
  unfolding drop_jobs
  drop_jobs-AreWired [] s w = w
  drop_jobs-AreWired (k ∷ ks) s w =
      let v = remove-AreWired k s w in
      drop_jobs-AreWired ks _ (record { once = v.once; known = v.known; bounded = v.bounded })

  Step-AreWired : {s t : JobStore Py} → Step s t → AreWired s → AreWired t
  unfolding create update_status record_progress complete fail get cleanup_expired
  Step-AreWired (create_step j q now t) w = record {
    once = w.once;
    known = w.known;
    bounded = w.bounded;
  }
  Step-AreWired (start_step j t) w = modify-AreWired _ _ _ w
  Step-AreWired (progress_step j stage status ms t) w = modify-AreWired _ _ _ w
  Step-AreWired {s} (subscribe_step j) w = subscribe-AreWired j s w
  Step-AreWired {s} (unsubscribe_step j q) w = unsubscribe-AreWired j q s w
  Step-AreWired {s} (publish_step j e) w = publish-AreWired j e s w
  Step-AreWired (complete_step j r t u) w = publish-AreWired _ _ _ (modify-AreWired _ _ _ w)
  Step-AreWired (fail_step j e t u) w = publish-AreWired _ _ _ (modify-AreWired _ _ _ w)
  Step-AreWired {s} (get_step j now) w = drop_jobs-AreWired (expired_ids s.ttl now s.jobs) s w

  -- In every store that clients can reach, no queue is subscribed twice to a job, every subscriber
  -- is a queue that was handed out, and no queue holds more than 100 events.
  pub Reach-AreWired : (ttl : ℕ) {s : JobStore Py} → Reach (init ttl) s → AreWired s
  unfolding init Dict.get
  Reach-AreWired ttl here = record { once = λ j. tt; known = λ j. tt; bounded = λ q. omega arith }
  Reach-AreWired ttl (next r st) = Step-AreWired st (Reach-AreWired ttl r)

  subscribers-keep :
      (j k : String) (qs : List ℕ) (s : JobStore Py)
      → subscribers_of k (keep_subscribers j qs s) ≡ (if j == k then qs else subscribers_of k s)
  subscribers-keep j k [] s = subscribers-remove j k s
  subscribers-keep j k (q ∷ qs) s = subscribers-put j k (q ∷ qs) s

  unsubscribe-keep :
      (j : String) (q : ℕ) (s : JobStore Py)
      → has q (subscribers_of j s) ≡ true
      → unsubscribe j q s ≡ keep_subscribers j (remove_first q (subscribers_of j s)) s
  unfolding unsubscribe has
  unsubscribe-keep j q s h = go (subscribers_of j s) h
    where
      go :
          (qs : List ℕ)
          → has q qs ≡ true
          → (elim qs [
            | [] ↦ s
            | p ∷ ps ↦
                keep_subscribers j (if has q (p ∷ ps) then remove_first q (p ∷ ps) else p ∷ ps) s
          ])
            ≡ keep_subscribers j (remove_first q qs) s
      go [] e = cc
      go (p ∷ ps) e = ground arith

  subscribers-subscribe :
      (j k : String) (s : JobStore Py)
      → subscribers_of k (subscribe j s).1
        ≡ (if j == k then subscribers_of j s ++ s.next_queue ∷ [] else subscribers_of k s)
  unfolding subscribe
  subscribers-subscribe j k s =
      ground (arith, get-put j k (subscribers_of j s ++ s.next_queue ∷ []) s.subscribers)

  -- A client that subscribes and then disconnects leaves each job's subscribers as they were.
  pub unsubscribe-subscribe :
      (j k : String) (s : JobStore Py)
      → AreWired s
      → subscribers_of k (unsubscribe j (subscribe j s).0 (subscribe j s).1) ≡ subscribers_of k s
  unfolding subscribe
  unsubscribe-subscribe j k s w =
      let n = s.next_queue in
      let qs = subscribers_of j s in
      let t = (subscribe j s).1 in
      let fresh = has-fresh n qs (w.known j) in
      let joined : subscribers_of j t ≡ qs ++ n ∷ [] =
        rw (subscribers-subscribe j j s) (rw eq_refl) in
      let there : has n (subscribers_of j t) ≡ true =
        rw joined (ground (arith, has-append n qs (n ∷ []), has_self n)) in
      let back : remove_first n (subscribers_of j t) ≡ qs =
        rw joined (remove_first-snoc n qs fresh) in
      ap (subscribers_of k) (unsubscribe-keep j n t there)
      ∙ subscribers-keep j k (remove_first n (subscribers_of j t)) t
      ∙ ground (arith, back, subscribers-subscribe j k s, eq_iff j k)
