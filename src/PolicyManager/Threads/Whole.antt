-- ===== src/PolicyManager/Threads/Whole.antt =====
-- A thread that is not interrupted does what `raise` of the manager does in one step.
use thorium_frugal.Base.{
  ℕ, ◌+◌, ◌%◌, ◌^◌, All, ◌≡◌, ◌==◌, refl, ap, ◌∙◌, sym, inl, inr, arith, List, [], ◌∷◌, ◌++◌,
  Option, none, some, Bytes, map, append-nil, append_assoc, Bool-cases,
}
use thorium_frugal.Events.{PrivacyEvent, Delivery, callable, dispatch_event_lem}
use thorium_frugal.PolicyManager.{PrivacyPolicyManager, event_id_of, generate_event_id, raise}
use thorium_frugal.PolicyManager.Reports.{raise-delivered}
use thorium_frugal.PolicyManager.Threads.{
  Phase, idle, numbered, calling, Threads, moved, fetch_add, copy_listeners, call_listener, leave,
  Step, takes, copies, calls, leaves,
}

-- Several steps, one after the other.
pub data Steps : Threads → Threads → Type 0 where
  done : (s : Threads) → Steps s s
  more : (s t u : Threads) → Step s t → Steps t u → Steps s u

moved_self : (phase : ℕ → Phase) (i : ℕ) (p : Phase) → moved phase i p i ≡ p
unfolding moved
moved_self phase i p = elim (Bool-cases (i == i)) [
  | inl e ↦ rw e refl
  | inr e ↦ absurd (ground arith)
]

-- The loop over the copy of the listeners, up to the return.
calls_all :
    (ls : List (Option ℕ)) (s : Threads) (i n : ℕ)
    → s.phase i ≡ calling n ls
    → (t : Threads) × Steps s t
      × (t.phase i ≡ idle)
      × (t.event_counter ≡ s.event_counter)
      × (t.listeners ≡ s.listeners)
      × (t.delivered ≡ s.delivered ++ map (λ l. (l, n)) (callable ls))
unfolding leave call_listener
calls_all [] s i n e = (
  leave s i,
  more s _ _ (leaves s i n e) (done _),
  moved_self s.phase i idle,
  refl,
  refl,
  sym (append-nil s.delivered),
)
calls_all (none ∷ ls) s i n e =
    let (t, steps, p, c, l, d) =
      calls_all ls (call_listener s i n none ls) i n (moved_self s.phase i (calling n ls)) in
    (t, more s _ t (calls s i n none ls e) steps, p, c, l, d)
calls_all (some x ∷ ls) s i n e =
    let (t, steps, p, c, l, d) =
      calls_all ls (call_listener s i n (some x) ls) i n (moved_self s.phase i (calling n ls)) in
    (
      t,
      more s _ t (calls s i n (some x) ls e) steps,
      p,
      c,
      l,
      d ∙ append_assoc s.delivered ((x, n) ∷ []) _,
    )

-- Who was told of which identifier, by the threads and by the manager.
abbrev pub told_by_number : Bytes → List (ℕ × ℕ) → List (ℕ × Bytes)
told_by_number prefix [] = []
told_by_number prefix ((l, n) ∷ ds) = (l, event_id_of prefix n) ∷ told_by_number prefix ds

abbrev pub told : List Delivery → List (ℕ × Bytes)
told [] = []
told ((l, event) ∷ ds) = (l, event.event_id) ∷ told ds

-- The threads stand for the manager, where an event is known by its identifier.
pub record IsStateOf (s : Threads) (m : PrivacyPolicyManager) : Type 0 where
  pub same_counter : s.event_counter ≡ m.event_counter
  pub same_listeners : s.listeners ≡ m.event_dispatcher.listeners
  pub same_deliveries :
      told_by_number m.process_prefix s.delivered ≡ told m.event_dispatcher.delivered

told_by_number-append :
    (prefix : Bytes) (n : ℕ) (ls : List ℕ) (ds : List (ℕ × ℕ))
    → told_by_number prefix (ds ++ map (λ l. (l, n)) ls)
      ≡ told_by_number prefix ds ++ map (λ l. (l, event_id_of prefix n)) ls
told_by_number-append prefix n [] [] = refl
told_by_number-append prefix n (l ∷ ls) [] =
    ap (λ ds. (l, event_id_of prefix n) ∷ ds) (told_by_number-append prefix n ls [])
told_by_number-append prefix n ls ((l, k) ∷ ds) =
    ap (λ ds. (l, event_id_of prefix k) ∷ ds) (told_by_number-append prefix n ls ds)

told-append :
    (event : PrivacyEvent) (ls : List ℕ) (ds : List Delivery)
    → told (ds ++ map (λ l. (l, event)) ls) ≡ told ds ++ map (λ l. (l, event.event_id)) ls
told-append event [] [] = refl
told-append event (l ∷ ls) [] = ap (λ ds. (l, event.event_id) ∷ ds) (told-append event ls [])
told-append event ls ((l, e) ∷ ds) = ap (λ ds. (l, e.event_id) ∷ ds) (told-append event ls ds)

-- A generator of events puts the identifier that it is given into the event.
abbrev pub IsMarked : (Bytes → PrivacyEvent) → Type 0
IsMarked event = (id : Bytes) → (event id).event_id ≡ id

raise-IsStateOf :
    (event : Bytes → PrivacyEvent) (m : PrivacyPolicyManager) (s t : Threads)
    → IsMarked event
    → IsStateOf s m
    → t.event_counter ≡ (s.event_counter + 1) % 2 ^ 64
    → t.listeners ≡ s.listeners
    → t.delivered ≡ s.delivered ++ map (λ l. (l, s.event_counter)) (callable s.listeners)
    → IsStateOf t (raise m event)
unfolding raise generate_event_id
raise-IsStateOf event m s t marked h c l d =
    let id = event_id_of m.process_prefix m.event_counter in
    record {
      same_counter = c ∙ ap (λ x. (x + 1) % 2 ^ 64) h.same_counter;
      same_listeners =
          l ∙ h.same_listeners ∙ sym (dispatch_event_lem m.event_dispatcher (event id)).1;
      same_deliveries =
          rw
            (
              d,
              raise-delivered m event,
              told_by_number-append m.process_prefix s.event_counter (callable s.listeners)
                  s.delivered,
              told-append (event id) (callable m.event_dispatcher.listeners)
                  m.event_dispatcher.delivered,
              marked id,
              h.same_deliveries,
              h.same_counter,
              h.same_listeners,
            )
            refl;
    }

-- The events of a thread, reported one after the other.
abbrev pub raise_all : PrivacyPolicyManager → List (Bytes → PrivacyEvent) → PrivacyPolicyManager
raise_all m [] = m
raise_all m (event ∷ events) = raise_all (raise m event) events

raise-Steps :
    (event : Bytes → PrivacyEvent) (m : PrivacyPolicyManager) (s : Threads) (i : ℕ)
    → IsMarked event
    → s.phase i ≡ idle
    → IsStateOf s m
    → (t : Threads) × Steps s t × (t.phase i ≡ idle) × IsStateOf t (raise m event)
unfolding fetch_add copy_listeners
raise-Steps event m s i marked e h =
    let n = s.event_counter in
    let s1 = fetch_add s i in
    let s2 = copy_listeners s1 i n in
    let (t, steps, p, c, l, d) =
      calls_all s.listeners s2 i n (moved_self s1.phase i (calling n s.listeners)) in
    (
      t,
      more s s1 t (takes s i e)
          (more s1 s2 t (copies s1 i n (moved_self s.phase i (numbered n))) steps),
      p,
      raise-IsStateOf event m s t marked h c l d,
    )

join : (s t u : Threads) → Steps s t → Steps t u → Steps s u
join _ t u (done _) next = next
join _ t u (more s r _ step steps) next = more s r u step (join r t u steps next)

-- The whole methods are one way in which threads interleave: where a thread is outside of a call and the
-- state is that of a manager, the thread can take steps that lead to the state of the manager after it
-- has reported any events one after the other by `GenerateEventId` and `DispatchEvent`, with the same
-- counter, listeners and deliveries, provided that each event carries the identifier drawn for it.
pub raise_all-Steps :
    (events : List (Bytes → PrivacyEvent)) (m : PrivacyPolicyManager) (s : Threads) (i : ℕ)
    → All IsMarked events
    → s.phase i ≡ idle
    → IsStateOf s m
    → (t : Threads) × Steps s t × (t.phase i ≡ idle) × IsStateOf t (raise_all m events)
raise_all-Steps [] m s i all e h = (s, done s, e, h)
raise_all-Steps (event ∷ events) m s i (marked, all) e h =
    let (t, steps, p, g) = raise-Steps event m s i marked e h in
    let (u, steps', q, k) = raise_all-Steps events (raise m event) t i all p g in
    (u, join s t u steps steps', q, k)
