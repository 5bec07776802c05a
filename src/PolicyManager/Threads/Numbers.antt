-- ===== src/PolicyManager/Threads/Numbers.antt =====
-- No two events have the same number, however the threads interleave.
use thorium_frugal.Base.{
  ℕ, ◌+◌, ◌%◌, ◌^◌, ◌≤◌, ◌<◌, ◌≡◌, ◌≢◌, ◌⊎◌, ◌↔◌, refl, ap, ◌∙◌, sym, inl, inr, ◌==◌, List, [], ◌∷◌,
  Option, none, some, arith, Bytes, All, All-append, Bool-cases,
}
use thorium_frugal.Text.Decimal.{pad_zeros-injective}
use thorium_frugal.PolicyManager.{event_id_of}
use thorium_frugal.PolicyManager.Steps.{append_cancel}
use thorium_frugal.PolicyManager.Threads.{
  Phase, idle, numbered, calling, Threads, moved, fetch_add, copy_listeners, call_listener, leave,
  Step, takes, copies, calls, leaves, adds, clears, Reach, start, later,
}

-- The number that a thread holds.
abbrev pub number_of : Phase → Option ℕ
number_of idle = none
number_of (numbered n) = some n
number_of (calling n rest) = some n

-- All numbers held or delivered are below the counter, and no number is held twice.
pub record IsNumbered (s : Threads) : Type 0 where
  pub held_below : (i n : ℕ) → number_of (s.phase i) ≡ some n → n < s.event_counter
  pub held_once :
      (i j n : ℕ) → number_of (s.phase i) ≡ some n → number_of (s.phase j) ≡ some n → i ≡ j
  pub delivered_below : All (λ (d : ℕ × ℕ). d.1 < s.event_counter) s.delivered

-- A move that keeps the number of the thread keeps all numbers.
moved-number :
    (phase : ℕ → Phase) (i : ℕ) (p : Phase) (j : ℕ)
    → number_of p ≡ number_of (phase i)
    → number_of (moved phase i p j) ≡ number_of (phase j)
unfolding moved
moved-number phase i p j h = elim (Bool-cases (i == j)) [
  | inl e ↦ let k : i ≡ j = ground arith in rw (e, h) (ap (λ (x : ℕ). number_of (phase x)) k)
  | inr e ↦ rw e refl
]

keeps :
    (s t : Threads)
    → ((j : ℕ) → number_of (t.phase j) ≡ number_of (s.phase j))
    → t.event_counter ≡ s.event_counter
    → All (λ (d : ℕ × ℕ). d.1 < t.event_counter) t.delivered
    → IsNumbered s
    → IsNumbered t
keeps s t same c below h = record {
  held_below = λ i n e. rw c (h.held_below i n (sym (same i) ∙ e));
  held_once = λ i j n e f. h.held_once i j n (sym (same i) ∙ e) (sym (same j) ∙ f);
  delivered_below = below;
}

below_again :
    (c c' : ℕ) (ds : List (ℕ × ℕ))
    → c ≤ c'
    → All (λ (d : ℕ × ℕ). d.1 < c) ds
    → All (λ (d : ℕ × ℕ). d.1 < c') ds
below_again c c' [] h all = tt
below_again c c' (d ∷ ds) h (lt, all) = (omega arith, below_again c c' ds h all)

-- After a move a thread holds what it held, or it is the one that moved, and holds the new number.
moved_cases :
    (phase : ℕ → Phase) (i : ℕ) (p : Phase) (j n : ℕ)
    → number_of (moved phase i p j) ≡ some n
    → ((i ≡ j) × (number_of p ≡ some n)) ⊎ (number_of (phase j) ≡ some n)
unfolding moved
moved_cases phase i p j n = elim (Bool-cases (i == j)) [
  | inl e ↦ rw e (λ h. inl (ground arith, h))
  | inr e ↦ rw e (λ h. inr h)
]

fetch_add-IsNumbered :
    (s : Threads) (i : ℕ) → s.event_counter + 1 < 2 ^ 64 → IsNumbered s → IsNumbered (fetch_add s i)
unfolding fetch_add
fetch_add-IsNumbered s i small h =
    let split = moved_cases s.phase i (numbered s.event_counter) in
    record {
      held_below = λ j n e. elim (split j n e) [
        | inl (_, new) ↦ let eq : s.event_counter ≡ n = cc in omega arith
        | inr old ↦ let lt = h.held_below j n old in omega arith
      ];
      held_once = λ j k n e f. elim (split j n e) [
        | inl (p, new) ↦ elim (split k n f) [
          | inl (q, _) ↦ sym p ∙ q
          | inr old ↦
              let lt = h.held_below k n old in
              let eq : s.event_counter ≡ n = cc in absurd (omega arith)
        ]
        | inr old ↦ elim (split k n f) [
          | inl (q, new) ↦
              let lt = h.held_below j n old in
              let eq : s.event_counter ≡ n = cc in absurd (omega arith)
          | inr old' ↦ h.held_once j k n old old'
        ]
      ];
      delivered_below =
          below_again s.event_counter ((s.event_counter + 1) % 2 ^ 64) s.delivered (omega arith)
            h.delivered_below;
    }

leave-IsNumbered : (s : Threads) (i : ℕ) → IsNumbered s → IsNumbered (leave s i)
unfolding leave
leave-IsNumbered s i h =
    let split : (j n : ℕ)
        → number_of (moved s.phase i idle j) ≡ some n
        → number_of (s.phase j) ≡ some n =
      λ j n e. elim (moved_cases s.phase i idle j n e) [
        | inl (_, none_held) ↦ absurd (cc)
        | inr old ↦ old
      ] in
    record {
      held_below = λ j n e. h.held_below j n (split j n e);
      held_once = λ j k n e f. h.held_once j k n (split j n e) (split k n f);
      delivered_below = h.delivered_below;
    }

call_listener-IsNumbered :
    (s : Threads) (i n : ℕ) (l : Option ℕ) (rest : List (Option ℕ))
    → number_of (s.phase i) ≡ some n
    → IsNumbered s
    → IsNumbered (call_listener s i n l rest)
unfolding call_listener
call_listener-IsNumbered s i n none rest e h =
    keeps s _ (λ j. moved-number s.phase i (calling n rest) j (sym e)) refl h.delivered_below h
call_listener-IsNumbered s i n (some l) rest e h =
    keeps s _ (λ j. moved-number s.phase i (calling n rest) j (sym e)) refl
      (All-append _ s.delivered ((l, n) ∷ []) h.delivered_below (h.held_below i n e, tt)) h

Step-IsNumbered :
    (s t : Threads) → Step s t → s.event_counter + 1 < 2 ^ 64 → IsNumbered s → IsNumbered t
unfolding copy_listeners
Step-IsNumbered _ _ (takes s i _) small h = fetch_add-IsNumbered s i small h
Step-IsNumbered _ _ (copies s i n e) small h =
    keeps s _ (λ j. moved-number s.phase i (calling n s.listeners) j (ap number_of (sym e))) refl
      h.delivered_below h
Step-IsNumbered _ _ (calls s i n l rest e) small h =
    call_listener-IsNumbered s i n l rest (ap number_of e) h
Step-IsNumbered _ _ (leaves s i n _) small h = leave-IsNumbered s i h
Step-IsNumbered _ _ (adds s l) small h = keeps s _ (λ j. refl) refl h.delivered_below h
Step-IsNumbered _ _ (clears s) small h = keeps s _ (λ j. refl) refl h.delivered_below h

Step-counter :
    (s t : Threads)
    → Step s t
    → s.event_counter + 1 < 2 ^ 64
    → t.event_counter ≤ s.event_counter + 1
unfolding fetch_add copy_listeners call_listener leave
Step-counter _ _ (takes s i _) small = omega arith
Step-counter _ _ (copies s i n e) small = omega arith
Step-counter _ _ (calls s i n none rest e) small = omega arith
Step-counter _ _ (calls s i n (some l) rest e) small = omega arith
Step-counter _ _ (leaves s i n _) small = omega arith
Step-counter _ _ (adds s l) small = omega arith
Step-counter _ _ (clears s) small = omega arith

Reach-IsNumbered :
    (k : ℕ) (s : Threads) → Reach k s → k + 2 < 2 ^ 64 → (s.event_counter ≤ k + 1) × IsNumbered s
Reach-IsNumbered _ _ start small = (
  omega arith,
  record { held_below = λ i n e. cc; held_once = λ i j n e f. cc; delivered_below = tt },
)
Reach-IsNumbered _ _ (later k s t r step) small =
    let (le, h) = Reach-IsNumbered k s r (omega arith) in
    (omega (arith, Step-counter s t step (omega arith)), Step-IsNumbered s t step (omega arith) h)

id_injective : (prefix : Bytes) (m n : ℕ) → event_id_of prefix m ≡ event_id_of prefix n → m ≡ n
id_injective prefix m n e = pad_zeros-injective 6 m n (append_cancel prefix _ _ e)

fresh_ids :
    (prefix : Bytes) (c : ℕ) (ds : List (ℕ × ℕ))
    → All (λ (d : ℕ × ℕ). d.1 < c) ds
    → All (λ (d : ℕ × ℕ). event_id_of prefix d.1 ≢ event_id_of prefix c) ds
fresh_ids prefix c [] all = tt
fresh_ids prefix c (d ∷ ds) (lt, all) =
    (λ e. let same = id_injective prefix d.1 c e in absurd (omega arith), fresh_ids prefix c ds all)

-- However the threads interleave in fewer than `2 ^ 64 - 2` steps, and for two threads that hold
-- numbers: the next identifier differs from those of all deliveries made so far and from that of the
-- first thread, and the two threads hold the same identifier exactly when they are the same thread.
pub thread_ids_distinct :
    (prefix : Bytes) (k : ℕ) (s : Threads) (i j m n : ℕ)
    → Reach k s
    → k + 2 < 2 ^ 64
    → number_of (s.phase i) ≡ some m
    → number_of (s.phase j) ≡ some n
    → All (λ d. event_id_of prefix d.1 ≢ event_id_of prefix s.event_counter) s.delivered
      × (event_id_of prefix m ≢ event_id_of prefix s.event_counter)
      × ((event_id_of prefix m ≡ event_id_of prefix n) ↔ (i ≡ j))
thread_ids_distinct prefix k s i j m n r small hi hj =
    let h = (Reach-IsNumbered k s r small).1 in
    (
      fresh_ids prefix s.event_counter s.delivered h.delivered_below,
      λ e.
          let same = id_injective prefix m s.event_counter e in
          let lt = h.held_below i m hi in absurd (omega arith),
      (
        λ e. h.held_once i j m hi (hj ∙ ap some (sym (id_injective prefix m n e))),
        λ e.
            let held : some m ≡ some n = sym hi ∙ ap (λ (x : ℕ). number_of (s.phase x)) e ∙ hj in
            ap (event_id_of prefix) (cc),
      ),
    )
