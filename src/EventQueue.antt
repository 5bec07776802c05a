-- ===== src/EventQueue.antt =====
-- cognitia_adapter/transport/bounded_event_queue.cc. The lock guards each method whole, so the methods
-- are the steps. `none` is the undefined behaviour of `pop_front` on an empty deque.
pub mod Overflow
pub mod Runs
use mathlib.Core.Option
use thorium_frugal.Base.{
  ℕ, ◌+◌, ◌%◌, ◌^◌, Bool, true, false, List, [], ◌∷◌, ◌++◌, Option, none, some, Bytes,
  if◌then◌else◌, leb, length,
}
use thorium_frugal.Text.{is_empty}

pub record BoundedEventQueue : Type 0 where
  pub max_capacity : ℕ
  pub queue : List Bytes
  pub dropped_count : ℕ

unfoldable pub new_queue : ℕ → BoundedEventQueue
new_queue max_capacity = record { max_capacity = max_capacity; queue = []; dropped_count = 0 }

-- `dropped_count_++` on a `size_t` of 64 bits.
unfoldable pub count_drop : BoundedEventQueue → BoundedEventQueue
count_drop q = record q { dropped_count = (q.dropped_count + 1) % 2 ^ 64 }

unfoldable pub pop_front : BoundedEventQueue → Option BoundedEventQueue
pop_front q = elim q.queue [ [] ↦ none | p ∷ ps ↦ some (record q { queue = ps }) ]

unfoldable pub push_back : Bytes → BoundedEventQueue → BoundedEventQueue
push_back payload q = record q { queue = q.queue ++ payload ∷ [] }

unfoldable pub enqueue : BoundedEventQueue → Bytes → Option BoundedEventQueue
enqueue q payload =
    let popped = pop_front q in
    if leb q.max_capacity (length q.queue)
    then Option.map (λ r. push_back payload (count_drop r)) popped
    else some (push_back payload q)

-- The Boolean is what the method returns.
unfoldable pub enqueue_content_with_policy :
    BoundedEventQueue → Bytes → Bool → Option (Bool × BoundedEventQueue)
enqueue_content_with_policy q payload is_connected =
    if is_connected
    then Option.map (λ r. (true, r)) (enqueue q payload)
    else some (false, count_drop q)

unfoldable pub dequeue : BoundedEventQueue → Option Bytes × BoundedEventQueue
dequeue q = elim q.queue [ [] ↦ (none, q) | p ∷ ps ↦ (some p, record q { queue = ps }) ]

unfoldable pub size : BoundedEventQueue → ℕ
size q = length q.queue

unfoldable pub is_empty_queue : BoundedEventQueue → Bool
is_empty_queue q = is_empty q.queue

unfoldable pub clear : BoundedEventQueue → BoundedEventQueue
clear q = record q { queue = [] }
