-- ===== src/PolicyManager/EventIds.antt =====
-- The identifiers of events over a run of the manager.
use thorium_frugal.Base.{
  ℕ, ◌+◌, ◌^◌, ◌≤◌, ◌<◌, ◌≡◌, ◌≢◌, ◌∙◌, sym, subst, inl, inr, List, [], ◌∷◌, map, arith, Bytes, All,
  All-append,
}
use thorium_frugal.Text.Decimal.{pad_zeros-injective}
use thorium_frugal.Events.{PrivacyEvent, Delivery}
use thorium_frugal.PolicyManager.{PrivacyPolicyManager, event_id_of, new_manager, generate_event_id}
use thorium_frugal.PolicyManager.Steps.{Run, start, later, Step-Moves, append_cancel}

-- A delivered event has a number below the counter.
abbrev Numbered : Bytes → ℕ → Delivery → Type 0
Numbered prefix counter d = (k : ℕ) × (k < counter) × (d.1.event_id ≡ event_id_of prefix k)

abbrev IsNumbered : PrivacyPolicyManager → Type 0
IsNumbered m = All (Numbered m.process_prefix m.event_counter) m.event_dispatcher.delivered

widened :
    (prefix : Bytes) (c c' : ℕ) (ds : List Delivery)
    → c ≤ c'
    → All (Numbered prefix c) ds
    → All (Numbered prefix c') ds
widened prefix c c' [] h all = tt
widened prefix c c' (d ∷ ds) h ((k, lt, e), all) =
    ((k, omega arith, e), widened prefix c c' ds h all)

renumbered :
    (m m' : PrivacyPolicyManager)
    → m'.process_prefix ≡ m.process_prefix
    → m.event_counter ≤ m'.event_counter
    → m'.event_dispatcher.delivered ≡ m.event_dispatcher.delivered
    → IsNumbered m
    → IsNumbered m'
renumbered m m' p c d all =
    subst (λ (q : Bytes). All (Numbered q m'.event_counter) m'.event_dispatcher.delivered) (sym p)
      (subst (All (Numbered m.process_prefix m'.event_counter)) (sym d) (
        widened m.process_prefix m.event_counter m'.event_counter m.event_dispatcher.delivered c
          all))

fresh_deliveries :
    (prefix : Bytes) (c k : ℕ) (event : PrivacyEvent)
    → event.event_id ≡ event_id_of prefix k
    → k < c
    → (ls : List ℕ) → All (Numbered prefix c) (map (λ l. (l, event)) ls)
fresh_deliveries prefix c k event e h [] = tt
fresh_deliveries prefix c k event e h (l ∷ ls) =
    ((k, h, e), fresh_deliveries prefix c k event e h ls)

apart :
    (prefix : Bytes) (c : ℕ) (ds : List Delivery)
    → All (Numbered prefix c) ds
    → All (λ (d : Delivery). d.1.event_id ≢ event_id_of prefix c) ds
apart prefix c [] all = tt
apart prefix c (d ∷ ds) ((k, lt, e), all) = (
  λ same.
      let eq = pad_zeros-injective 6 k c (append_cancel prefix _ _ (sym e ∙ same)) in
      absurd (omega arith),
  apart prefix c ds all,
)

run-IsNumbered :
    (hex : Bytes) (n : ℕ) (m : PrivacyPolicyManager)
    → Run hex n m
    → n + 2 < 2 ^ 64
    → (m.event_counter ≤ n + 1) × IsNumbered m
unfolding new_manager
run-IsNumbered hex _ _ start h = (omega arith, tt)
run-IsNumbered hex _ _ (later n m m' r s) h =
    let (le, all) = run-IsNumbered hex n m r (omega arith) in
    let (p, moves) = Step-Moves m m' s in
    elim moves [
      | inl (c, d) ↦ (omega arith, renumbered m m' p (omega arith) d all)
      | inr (c, (ls, event, id, d)) ↦
          let next : m'.event_counter ≡ m.event_counter + 1 = omega arith in
          let old =
            widened m.process_prefix m.event_counter m'.event_counter m.event_dispatcher.delivered
              (omega arith) all in
          let new =
            fresh_deliveries m.process_prefix m'.event_counter m.event_counter event id
              (omega arith) ls in
          (
            omega arith,
            subst (λ (q : Bytes). All (Numbered q m'.event_counter) m'.event_dispatcher.delivered)
                (sym p)
                (subst (All (Numbered m.process_prefix m'.event_counter)) (sym d)
                  (All-append _ m.event_dispatcher.delivered _ old new)),
          )
    ]

-- In a run of fewer than `2 ^ 64 - 2` steps no identifier is used twice: the next one differs from
-- that of every event delivered so far.
pub event_ids_fresh :
    (random_hex : Bytes) (n : ℕ) (m : PrivacyPolicyManager)
    → Run random_hex n m
    → n + 2 < 2 ^ 64
    → All (λ (d : Delivery). d.1.event_id ≢ (generate_event_id m).0) m.event_dispatcher.delivered
unfolding generate_event_id
event_ids_fresh hex n m r h =
    apart m.process_prefix m.event_counter m.event_dispatcher.delivered
      (run-IsNumbered hex n m r h).1
