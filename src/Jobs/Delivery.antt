-- ===== src/Jobs/Delivery.antt =====
-- Subscriber queues: who is sent an event, and how much a queue can hold.
use lean_econ_api.Prelude.{
  ℕ, String, false, List, [], ◌∷◌, ◌++◌, ◌≡◌, refl, arith, if◌then◌else◌, ltb, length,
}
use lean_econ_api.Jobs.{JobStore, Event, queue_size, has, offer, offer_all, subscribers_of, publish}

-- no queue twice
abbrev pub Once : List ℕ → Type 0
Once [] = Unit
Once (q ∷ qs) = (has q qs ≡ false) × Once qs

-- A queue after an event was offered to it once.
abbrev pub offered : Event → List Event → List Event
offered event held = if ltb (length held) queue_size then held ++ event ∷ [] else held

contents-offer_all :
    (event : Event) (qs : List ℕ) (contents : ℕ → List Event) (q : ℕ)
    → Once qs
    → offer_all event qs contents q ≡ (if has q qs then offered event (contents q) else contents q)
unfolding offer_all offer has
contents-offer_all event [] contents q u = refl
contents-offer_all event (p ∷ qs) contents q u =
    ground (arith, contents-offer_all event qs (offer event p contents) q u.1)

module _ {Py : Type 0} where
  -- `publish` appends the event, once, to the queue of each subscriber of the job that has room,
  -- and changes no other queue.
  pub contents-publish :
      (job_id : String) (event : Event) (s : JobStore Py) (q : ℕ)
      → Once (subscribers_of job_id s)
      → (publish job_id event s).contents q
        ≡ (if has q (subscribers_of job_id s) then offered event (s.contents q) else s.contents q)
  unfolding publish
  contents-publish job_id event s q u =
      contents-offer_all event (subscribers_of job_id s) s.contents q u
