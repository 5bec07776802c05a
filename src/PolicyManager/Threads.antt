-- ===== src/PolicyManager/Threads.antt =====
-- `GenerateEventId` and `DispatchEvent` on several threads, by their atomic parts: the `fetch_add`, the
-- copy of the listeners under the mutex, and each call of a listener. An event is known by its number.
-- A thread here is one call of the manager; a listener that calls the manager again is another one.
pub mod Numbers
pub mod Whole
use thorium_frugal.Base.{
  ℕ, zero, suc, ◌+◌, ◌%◌, ◌^◌, ◌≡◌, ◌==◌, List, [], ◌∷◌, ◌++◌, Option, none, some, if◌then◌else◌,
}

-- Where a thread stands: outside, with a number, or calling listeners, of which some are left.
pub data Phase : Type 0 where
  idle : Phase
  numbered : ℕ → Phase
  calling : ℕ → List (Option ℕ) → Phase

-- The deliveries are pairs of a listener and the number of an event, oldest first.
pub record Threads : Type 0 where
  pub event_counter : ℕ
  pub listeners : List (Option ℕ)
  pub delivered : List (ℕ × ℕ)
  pub phase : ℕ → Phase

abbrev pub new_threads : Threads
new_threads = record { event_counter = 1; listeners = []; delivered = []; phase = λ i. idle }

unfoldable pub moved : (ℕ → Phase) → ℕ → Phase → ℕ → Phase
moved phase i p j = if i == j then p else phase j

unfoldable pub fetch_add : Threads → ℕ → Threads
fetch_add s i = record s {
  event_counter = (s.event_counter + 1) % 2 ^ 64;
  phase = moved s.phase i (numbered s.event_counter);
}

unfoldable pub copy_listeners : Threads → ℕ → ℕ → Threads
copy_listeners s i n = record s { phase = moved s.phase i (calling n s.listeners) }

-- The body of the loop: a null listener is passed over.
unfoldable pub call_listener : Threads → ℕ → ℕ → Option ℕ → List (Option ℕ) → Threads
call_listener s i n none rest = record s { phase = moved s.phase i (calling n rest) }
call_listener s i n (some l) rest = record s {
  delivered = s.delivered ++ (l, n) ∷ [];
  phase = moved s.phase i (calling n rest);
}

unfoldable pub leave : Threads → ℕ → Threads
leave s i = record s { phase = moved s.phase i idle }

pub data Step : Threads → Threads → Type 0 where
  takes : (s : Threads) (i : ℕ) → s.phase i ≡ idle → Step s (fetch_add s i)
  copies : (s : Threads) (i n : ℕ) → s.phase i ≡ numbered n → Step s (copy_listeners s i n)
  calls :
      (s : Threads) (i n : ℕ) (l : Option ℕ) (rest : List (Option ℕ))
      → s.phase i ≡ calling n (l ∷ rest)
      → Step s (call_listener s i n l rest)
  leaves : (s : Threads) (i n : ℕ) → s.phase i ≡ calling n [] → Step s (leave s i)
  adds : (s : Threads) (l : Option ℕ) → Step s (record s { listeners = s.listeners ++ l ∷ [] })
  clears : (s : Threads) → Step s (record s { listeners = [] })

-- The states that can be reached, by the number of steps.
pub data Reach : ℕ → Threads → Type 0 where
  start : Reach zero new_threads
  later : (k : ℕ) (s t : Threads) → Reach k s → Step s t → Reach (suc k) t
