-- ===== src/EventQueue/Runs.antt =====
-- The queue over any sequence of its methods.
use mathlib.Core.Option
use thorium_frugal.Base.{
  ℕ, zero, suc, ◌-◌, ◌≤◌, ◌<◌, ◌≡◌, refl, ◌∙◌, Bool, true, false, List, [], ◌∷◌, ◌++◌, Option, some,
  arith, Bytes, length, All, All-append, drop,
}
use thorium_frugal.EventQueue.{
  BoundedEventQueue, new_queue, count_drop, enqueue, enqueue_content_with_policy, dequeue, clear,
}
use thorium_frugal.EventQueue.Overflow.{IsBounded, enqueued, enqueue_lem, enqueued-IsBounded}

pub data Call : Type 0 where
  enqueues : Bytes → Call
  enqueues_content : Bytes → Bool → Call
  dequeues clears : Call

-- The queue after a call; its result is left aside.
unfoldable pub after_call : BoundedEventQueue → Call → Option BoundedEventQueue
after_call q (enqueues payload) = enqueue q payload
after_call q (enqueues_content payload is_connected) =
    Option.map (λ (r : Bool × BoundedEventQueue). r.1)
      (enqueue_content_with_policy q payload is_connected)
after_call q dequeues = some (dequeue q).1
after_call q clears = some (clear q)

unfoldable pub after_calls : BoundedEventQueue → List Call → Option BoundedEventQueue
after_calls q [] = some q
after_calls q (c ∷ cs) = Option.bind (after_call q c) (λ r. after_calls r cs)

abbrev queue_of : ℕ → ℕ → List Bytes → BoundedEventQueue
queue_of c n ps = record { max_capacity = c; queue = ps; dropped_count = n }

module _ (P : Bytes → Type 0) where
  -- What a call may bring into the queue satisfies `P`: content only while connected.
  abbrev pub Brings : Call → Type 0
  Brings (enqueues payload) = P payload
  Brings (enqueues_content payload true) = P payload
  Brings (enqueues_content payload false) = Unit
  Brings dequeues = Unit
  Brings clears = Unit

  All-drop : (n : ℕ) (ps : List Bytes) → All P ps → All P (drop n ps)
  All-drop zero ps h = h
  All-drop (suc n) [] h = tt
  All-drop (suc n) (p ∷ ps) h = All-drop n ps h.1

  -- The invariant: within the capacity, and every event satisfies `P`.
  abbrev Holds : BoundedEventQueue → Type 0
  Holds q = IsBounded q × All P q.queue

  enqueued-Holds :
      (q : BoundedEventQueue) (payload : Bytes) → Holds q → P payload → Holds (enqueued q payload)
  enqueued-Holds q payload (b, all) p = (
    enqueued-IsBounded q payload b,
    All-drop (length (q.queue ++ payload ∷ []) - q.max_capacity) (q.queue ++ payload ∷ [])
        (All-append P q.queue (payload ∷ []) all (p, tt)),
  )

  dequeue-Holds :
      (c n : ℕ) (ps : List Bytes)
      → Holds (queue_of c n ps)
      → (r : BoundedEventQueue) × (some (dequeue (queue_of c n ps)).1 ≡ some r)
        × Holds r
        × (r.max_capacity ≡ c)
  unfolding dequeue
  dequeue-Holds c n [] h = (_, refl, h, refl)
  dequeue-Holds c n (p ∷ ps) ((pos, le), all) = (_, refl, ((pos, omega arith), all.1), refl)

  after_call-Holds :
      (q : BoundedEventQueue) (c : Call)
      → Holds q
      → Brings c
      → (r : BoundedEventQueue) × (after_call q c ≡ some r)
        × Holds r
        × (r.max_capacity ≡ q.max_capacity)
  unfolding after_call enqueue_content_with_policy dequeue clear count_drop
  after_call-Holds q (enqueues payload) h b =
      (enqueued q payload, enqueue_lem q payload h.0, enqueued-Holds q payload h b, refl)
  after_call-Holds q (enqueues_content payload true) h b =
      (enqueued q payload, rw (enqueue_lem q payload h.0), enqueued-Holds q payload h b, refl)
  after_call-Holds q (enqueues_content payload false) h b = (count_drop q, refl, h, refl)
  after_call-Holds q dequeues h b = dequeue-Holds q.max_capacity q.dropped_count q.queue h
  after_call-Holds q clears h b = (clear q, refl, ((h.0.0, omega (arith, h.0.0)), tt), refl)

  after_calls-Holds :
      (q : BoundedEventQueue) (cs : List Call)
      → Holds q
      → All Brings cs
      → (r : BoundedEventQueue) × (after_calls q cs ≡ some r)
        × Holds r
        × (r.max_capacity ≡ q.max_capacity)
  unfolding after_calls Option.bind
  after_calls-Holds q [] h b = (q, refl, h, refl)
  after_calls-Holds q (c ∷ cs) h (b, bs) =
      let (r, e, hr, m) = after_call-Holds q c h b in
      let (s, f, hs, n) = after_calls-Holds r cs hr bs in (s, rw e f, hs, n ∙ m)

  -- Any sequence of calls on a new queue with a capacity that is not 0 is defined, and leaves at most
  -- as many events as the capacity. An event that is in the queue then came by `Enqueue`, or as content
  -- while connected: what holds of these holds of it. Content offered while disconnected is not there.
  pub after_calls-bounded :
      (capacity : ℕ) (calls : List Call)
      → 0 < capacity
      → All Brings calls
      → (q : BoundedEventQueue) × (after_calls (new_queue capacity) calls ≡ some q)
        × (length q.queue ≤ capacity)
        × All P q.queue
  after_calls-bounded capacity calls pos h =
      let (q, e, (b, all), m) =
        after_calls-Holds (new_queue capacity) calls (unfold new_queue in ((pos, omega arith), tt))
          h in
      let m' : q.max_capacity ≡ capacity = m ∙ unfold new_queue in refl in
      (q, e, omega (arith, b.1, m'), all)
