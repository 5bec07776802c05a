-- ===== src/EventQueue/Overflow.antt =====
-- A full queue drops its oldest event.
use mathlib.Core.Option
use thorium_frugal.Base.{
  ℕ, zero, suc, ◌+◌, ◌-◌, ◌%◌, ◌^◌, ◌≤◌, ◌<◌, ◌≡◌, refl, ap, ◌∙◌, sym, inl, inr, false, List, [],
  ◌∷◌, ◌++◌, Option, some, arith, Bytes, if◌then◌else◌, leb, length, drop, Bool-cases, append_assoc,
  append-nil, length-append, drop_add, length-drop,
}
use thorium_frugal.EventQueue.{
  BoundedEventQueue, new_queue, count_drop, pop_front, push_back, enqueue,
}

-- A queue that holds room for an event, and no more than its capacity.
abbrev pub IsBounded : BoundedEventQueue → Type 0
IsBounded q = (0 < q.max_capacity) × (length q.queue ≤ q.max_capacity)

-- The newest of the events and one more, up to the capacity.
abbrev pub keep_last : ℕ → List Bytes → List Bytes
keep_last capacity ps = drop (length ps - capacity) ps

-- The queue after an event: the newest up to the capacity are kept, and what is lost is counted.
abbrev pub enqueued : BoundedEventQueue → Bytes → BoundedEventQueue
enqueued q payload = record {
  max_capacity = q.max_capacity;
  queue = keep_last q.max_capacity (q.queue ++ payload ∷ []);
  dropped_count =
      if leb q.max_capacity (length q.queue)
      then (q.dropped_count + 1) % 2 ^ 64
      else q.dropped_count;
}

enqueue_cases :
    (c n : ℕ) (ps : List Bytes) (payload : Bytes)
    → 0 < c
    → length ps ≤ c
    → enqueue (record { max_capacity = c; queue = ps; dropped_count = n }) payload
      ≡ some (enqueued (record { max_capacity = c; queue = ps; dropped_count = n }) payload)
unfolding enqueue pop_front push_back count_drop
enqueue_cases c n [] payload pos le =
    let e : leb c 0 ≡ false = ground arith in let z : 1 - c ≡ 0 = omega arith in rw (enqueue, e, z)
enqueue_cases c n (p ∷ ps) payload pos le = elim (Bool-cases (leb c (suc (length ps)))) [
  | inl e ↦
      let z : suc (length (ps ++ payload ∷ [])) - c ≡ 1 =
        ground (arith, length-append ps (payload ∷ [])) in
      rw (enqueue, e, z)
  | inr e ↦
      let z : suc (length (ps ++ payload ∷ [])) - c ≡ 0 =
        ground (arith, length-append ps (payload ∷ [])) in
      rw (enqueue, e, z)
]

-- An event on a queue within its capacity, which is not 0: nothing is undefined, the newest events up to
-- the capacity are kept in their order, and the count of lost events goes up by one where one is.
pub enqueue_lem :
    (q : BoundedEventQueue) (payload : Bytes)
    → IsBounded q
    → enqueue q payload ≡ some (enqueued q payload)
enqueue_lem q payload (pos, le) =
    enqueue_cases q.max_capacity q.dropped_count q.queue payload pos le

pub length-keep_last : (c : ℕ) (ps : List Bytes) → length (keep_last c ps) ≤ c
length-keep_last c ps = omega (arith, length-drop (length ps - c) ps)

pub enqueued-IsBounded :
    (q : BoundedEventQueue) (payload : Bytes) → IsBounded q → IsBounded (enqueued q payload)
enqueued-IsBounded q payload (pos, le) =
    (pos, length-keep_last q.max_capacity (q.queue ++ payload ∷ []))

-- What waits and what was lost add up.
pub enqueued-count :
    (q : BoundedEventQueue) (payload : Bytes)
    → IsBounded q
    → q.dropped_count + 1 < 2 ^ 64
    → length (enqueued q payload).queue + (enqueued q payload).dropped_count
      ≡ suc (length q.queue + q.dropped_count)
enqueued-count q payload (pos, le) h =
    let l =
      length-drop (length (q.queue ++ payload ∷ []) - q.max_capacity) (q.queue ++ payload ∷ []) in
    ground (arith, l, length-append q.queue (payload ∷ []))

drop-append-le : (n : ℕ) (xs ys : List Bytes) → n ≤ length xs → drop n (xs ++ ys) ≡ drop n xs ++ ys
drop-append-le zero xs ys h = refl
drop-append-le (suc n) [] ys h = absurd (omega arith)
drop-append-le (suc n) (x ∷ xs) ys h = drop-append-le n xs ys (omega arith)

-- Keeping the last ones and then one more is keeping the last ones of all.
keep_last-snoc :
    (c : ℕ) (ps : List Bytes) (p : Bytes)
    → 0 < c
    → keep_last c (keep_last c ps ++ p ∷ []) ≡ keep_last c (ps ++ p ∷ [])
keep_last-snoc c ps p pos =
    let d = length ps - c in
    let j = length (keep_last c ps ++ p ∷ []) - c in
    let total : d + j ≡ length (ps ++ p ∷ []) - c = omega (
      arith,
      length-append (keep_last c ps) (p ∷ []),
      length-append ps (p ∷ []),
      length-drop d ps,
    ) in
    ap (drop j) (sym (drop-append-le d ps (p ∷ []) (omega arith)))
    ∙ sym (drop_add d j (ps ++ p ∷ []))
    ∙ ap (λ (n : ℕ). drop n (ps ++ p ∷ [])) total

-- All events of a list, one after the other.
unfoldable pub enqueue_all : BoundedEventQueue → List Bytes → Option BoundedEventQueue
enqueue_all q [] = some q
enqueue_all q (p ∷ ps) = Option.bind (enqueue q p) (λ r. enqueue_all r ps)

-- The queue that has seen these events.
abbrev pub seen : ℕ → List Bytes → BoundedEventQueue
seen c ps = record {
  max_capacity = c;
  queue = keep_last c ps;
  dropped_count = (length ps - c) % 2 ^ 64;
}

pub enqueue-seen :
    (c : ℕ) (ps : List Bytes) (p : Bytes)
    → 0 < c
    → enqueue (seen c ps) p ≡ some (seen c (ps ++ p ∷ []))
enqueue-seen c ps p pos =
    enqueue_lem (seen c ps) p (pos, length-keep_last c ps)
    ∙ ap
        (λ (v : List Bytes × ℕ).
          some (record { max_capacity = c; queue = v.0; dropped_count = v.1 }))
        (pair (keep_last-snoc c ps p pos) count)
  where
    pair : {A B : Type 0} {x y : A} {u v : B} → x ≡ y → u ≡ v → ◌≡◌ {A = A × B} (x, u) (y, v)
    pair e f = rw (e, f)

    count :
        (if leb c (length (keep_last c ps))
          then ((length ps - c) % 2 ^ 64 + 1) % 2 ^ 64
          else (length ps - c) % 2 ^ 64)
        ≡ (length (ps ++ p ∷ []) - c) % 2 ^ 64
    count = ground (arith, length-drop (length ps - c) ps, length-append ps (p ∷ []))

enqueue_all-seen :
    (c : ℕ) (old ps : List Bytes) → 0 < c → enqueue_all (seen c old) ps ≡ some (seen c (old ++ ps))
unfolding enqueue_all Option.bind
enqueue_all-seen c old [] pos = ap (λ (v : List Bytes). some (seen c v)) (sym (append-nil old))
enqueue_all-seen c old (p ∷ ps) pos =
    ap (λ (r : Option BoundedEventQueue). Option.bind r (λ q. enqueue_all q ps))
      (enqueue-seen c old p pos)
    ∙ enqueue_all-seen c (old ++ p ∷ []) ps pos
    ∙ ap (λ (v : List Bytes). some (seen c v)) (append_assoc old (p ∷ []) ps)

pub new_queue-seen : (c : ℕ) → new_queue c ≡ seen c []
unfolding new_queue
new_queue-seen c = let z : 0 - c ≡ 0 = omega arith in rw z

-- A new queue with a capacity that is not 0 keeps the newest events of any list, up to its capacity, in
-- their order, and counts the others as lost, modulo `2 ^ 64`.
pub enqueue_all-newest :
    (c : ℕ) (ps : List Bytes)
    → 0 < c
    → enqueue_all (new_queue c) ps
      ≡ some (record {
        max_capacity = c;
        queue = keep_last c ps;
        dropped_count = (length ps - c) % 2 ^ 64;
      })
enqueue_all-newest c ps pos = rw (new_queue-seen c) (enqueue_all-seen c [] ps pos)
