-- ===== src/RuleParser/Mask.antt =====
-- `ParseResourceTypeMask` and `MatchesResourceType` agree on which types an option list names.
use Prim.Native.Nat.{bit_or, max}
use thorium_frugal.Base.{
  ℕ, ◌^◌, ◌≡◌, ◌≢◌, ◌↔◌, refl, ap, ◌∙◌, sym, inl, inr, ◌⊎◌, Bool, true, false, not, ◌||◌, List, [],
  ◌∷◌, none, some, arith, Bytes, ◌==◌, ltb, if◌then◌else◌, any, Bool-cases, Option-cases, ==_iff,
}
use thorium_frugal.Base.Bits.{
  bit, bit-zero, bit-le-one, bit-bit_or, bit-pow_self, bit-pow_ne, bit_and-pow-eq-zero,
}
use thorium_frugal.Text.{to_lower}
use thorium_frugal.Text.Pieces.{split}
use thorium_frugal.Types.{ResourceType, main_frame, sub_frame, script, resource_index}
use thorium_frugal.RuleParser.{
  option_type, trim, add_option, add_options, match_all, parse_resource_type_mask,
  matches_resource_type,
}

-- The option names this type; it names some type.
abbrev option_names : ResourceType → Bytes → Bool
option_names t opt = elim (option_type (to_lower (trim opt))) [
  | none ↦ false
  | some u ↦ resource_index u == resource_index t
]

abbrev names_any : Bytes → Bool
names_any opt = elim (option_type (to_lower (trim opt))) [ none ↦ false | some u ↦ true ]

abbrev to_bit : Bool → ℕ
to_bit b = if b then 1 else 0

bit-add_option :
    (t : ResourceType) (m : ℕ) (opt : Bytes)
    → bit (add_option m opt) (resource_index t)
      ≡ max (bit m (resource_index t)) (to_bit (option_names t opt))
unfolding add_option
bit-add_option t m opt = elim (Option-cases (option_type (to_lower (trim opt)))) [
  | inl e ↦ rw (e, add_option, option_names) (omega arith)
  | inr (u, e) ↦
      rw (e, add_option, option_names)
        (bit-bit_or m (2 ^ resource_index u) (resource_index t)
          ∙ ap (max (bit m (resource_index t))) (one u))
]
  where
    one :
        (u : ResourceType)
        → bit (2 ^ resource_index u) (resource_index t)
          ≡ to_bit (resource_index u == resource_index t)
    one u = elim (Bool-cases (resource_index u == resource_index t)) [
      | inl e ↦ rw (e, (==_iff _ _).0 e) (bit-pow_self (resource_index t))
      | inr e ↦ rw e (bit-pow_ne _ _ (λ h. grind arith))
    ]

bit-add_options :
    (t : ResourceType) (m : ℕ) (opts : List Bytes)
    → bit (add_options m opts) (resource_index t)
      ≡ max (bit m (resource_index t)) (to_bit (any (option_names t) opts))
unfolding add_options any
bit-add_options t m [] = omega arith
bit-add_options t m (opt ∷ opts) =
    bit-add_options t (add_option m opt) opts
    ∙ rw (bit-add_option t m opt) (elim (Bool-cases (option_names t opt)) [
      | inl e ↦ rw e (elim (Bool-cases (any (option_names t) opts)) [
        | inl f ↦ rw f (omega (arith, bit-le-one m (resource_index t)))
        | inr f ↦ rw f (omega arith)
      ])
      | inr e ↦ rw e (ap (λ (x : ℕ). max x (to_bit (any (option_names t) opts))) (omega arith))
    ])

bit_or-pow-ne-zero : (m j : ℕ) → bit_or m (2 ^ j) ≢ 0
bit_or-pow-ne-zero m j e =
    omega (arith, bit-bit_or m (2 ^ j) j, bit-pow_self j, ap (λ (x : ℕ). bit x j) e, bit-zero j)

add_option_cases :
    (m : ℕ) (opt : Bytes)
    → ((names_any opt ≡ false) × (add_option m opt ≡ m))
      ⊎ ((names_any opt ≡ true) × (add_option m opt ≢ 0))
unfolding add_option
add_option_cases m opt = elim (Option-cases (option_type (to_lower (trim opt)))) [
  | inl n ↦ inl (rw (n, names_any), rw (n, add_option))
  | inr (u, n) ↦
      inr (rw (n, names_any), rw (n, add_option) (bit_or-pow-ne-zero m (resource_index u)))
]

add_options_nonzero : (opts : List Bytes) (m : ℕ) → m ≢ 0 → add_options m opts ≢ 0
unfolding add_options
add_options_nonzero [] m h = h
add_options_nonzero (opt ∷ opts) m h = elim (add_option_cases m opt) [
  | inl (_, e) ↦ add_options_nonzero opts (add_option m opt) (λ z. h (sym e ∙ z))
  | inr (_, e) ↦ add_options_nonzero opts (add_option m opt) e
]

-- The mask stays 0 exactly when no option names a type.
add_options_zero : (opts : List Bytes) → (add_options 0 opts == 0) ≡ not (any names_any opts)
unfolding add_options any
add_options_zero [] = refl
add_options_zero (opt ∷ opts) = elim (add_option_cases 0 opt) [
  | inl (n, e) ↦ rw (n, e) (add_options_zero opts)
  | inr (n, e) ↦ rw n (grind (arith, add_options_nonzero opts (add_option 0 opt) e))
]

matches-bit :
    (t : ResourceType) (m : ℕ) → matches_resource_type t m ≡ not (bit m (resource_index t) == 0)
unfolding matches_resource_type
matches-bit t m =
    let small : ltb (resource_index t) 32 ≡ true = index_small t in
    rw small (ap not (same (bit_and-pow-eq-zero m (resource_index t))))
  where
    index_small : (t : ResourceType) → ltb (resource_index t) 32 ≡ true
    index_small main_frame = unfold resource_index in refl
    index_small sub_frame = unfold resource_index in refl
    index_small script = unfold resource_index in refl
    index_small _ = unfold resource_index in refl

    same : {a b : ℕ} → (a ≡ 0) ↔ (b ≡ 0) → (a == 0) ≡ (b == 0)
    same h = ground arith

pub matches_all : (t : ResourceType) → matches_resource_type t match_all ≡ true
unfolding matches_resource_type resource_index
matches_all main_frame = refl
matches_all _ = refl

-- A type passes the mask of an option list exactly when some option names it, or when no option
-- names any type.
matches-parse_mask :
    (t : ResourceType) (options : Bytes)
    → matches_resource_type t (parse_resource_type_mask options)
      ≡ (any (option_names t) (split options b',') || not (any names_any (split options b',')))
unfolding parse_resource_type_mask
matches-parse_mask t options = elim (Bool-cases (any names_any (split options b','))) [
  | inr unnamed ↦
      rw (add_options_zero (split options b','), unnamed, matches_all t)
        (or_true (any (option_names t) (split options b',')))
  | inl named ↦
      rw
        (
          add_options_zero (split options b','),
          named,
          matches-bit,
          bit-add_options t 0 (split options b','),
          bit-zero,
        )
        (of_bit (any (option_names t) (split options b',')))
]
  where
    or_true : (b : Bool) → true ≡ (b || true)
    or_true b = ground arith

    of_bit : (b : Bool) → not (max 0 (to_bit b) == 0) ≡ (b || false)
    of_bit b = ground arith
