-- ===== src/Text/Pieces.antt =====
-- The helper `Split` of the anonymous namespaces, and the loops over `std::getline`: the fields
-- between delimiters.
use thorium_frugal.Base.{
  ◌≢◌, ℕ, zero, suc, ◌+◌, ◌-◌, ◌<◌, ◌≡◌, refl, ap, ◌∙◌, sym, inl, inr, Bool, List, [], ◌∷◌, ◌++◌,
  none, some, arith, Bytes, codes, ◌==◌, if◌then◌else◌, Bool-cases, Option-cases, length, drop,
  drop_add, length-drop, append_assoc,
}
use thorium_frugal.Text.{join, find_if, find, substr, push}
use thorium_frugal.Text.Find.{before, after, Free, find_if-none, find_if-some}

is_sep : ℕ → ℕ → Bool
is_sep d = λ b. b == d

-- `Split`: the loop `while (end != npos)`, on fuel.
split_loop : ℕ → Bytes → ℕ → ℕ → List Bytes → List Bytes
split_loop zero s d start tokens = tokens
split_loop (suc fuel) s d start tokens = elim (find s d start) [
  | none ↦ tokens ++ drop start s ∷ []
  | some end ↦ split_loop fuel s d (end + 1) (tokens ++ substr s start (end - start) ∷ [])
]

unfoldable pub split : Bytes → ℕ → List Bytes
unfolding split_loop
split s d = split_loop (length s + 1) s d 0 []

-- The fields of a text, by recursion on its bytes.
unfoldable pub fields : ℕ → Bytes → List Bytes
unfolding push
fields d [] = [] ∷ []
fields d (c ∷ s) = let rest = fields d s in if c == d then [] ∷ rest else push c rest

module _ (d : ℕ) where
  fields_whole : (s : Bytes) → Free (λ b. b == d) s → fields d s ≡ s ∷ []
  unfolding fields
  fields_whole [] h = refl
  fields_whole (c ∷ s) (hc, h) = rw (hc, fields_whole s h)

  pub fields_cut :
      (s : Bytes) (c : ℕ) (r : Bytes)
      → after (λ b. b == d) s ≡ c ∷ r
      → fields d s ≡ before (λ b. b == d) s ∷ fields d r
  unfolding fields before after
  fields_cut [] c r h = cc
  fields_cut (b ∷ s) c r h = elim (Bool-cases (b == d)) [
    | inl e ↦ rw e (let k : s ≡ r = ground arith in rw k)
    | inr e ↦ let k : after (λ x. x == d) s ≡ c ∷ r = ground arith in rw (e, fields_cut s c r k)
  ]

  split_loop-fields :
      (fuel : ℕ) (s : Bytes) (start : ℕ) (tokens : List Bytes)
      → length (drop start s) < fuel
      → split_loop fuel s d start tokens ≡ tokens ++ fields d (drop start s)
  unfolding split_loop find
  split_loop-fields zero s start tokens h = absurd (omega arith)
  split_loop-fields (suc fuel) s start tokens h =
      elim (Option-cases (find_if (λ b. b == d) (drop start s))) [
        | inl n ↦ rw (n, split_loop) (rw (fields_whole (drop start s) (find_if-none _ _ n).2))
        | inr (i, n) ↦
            let (t, u, l, (c, r, a, p)) = find_if-some _ (drop start s) n in
            let k : start + i - start ≡ i = omega arith in
            let w : drop (start + i + 1) s ≡ r =
              drop_add (start + i) 1 s ∙ ap (drop 1) (drop_add start i s ∙ u ∙ a) in
            let small : length (drop (start + i + 1) s) < fuel = omega (
              arith,
              length-drop (start + i + 1) s,
              length-drop start s,
              ap length (sym u ∙ u),
              ap length (u ∙ a),
              length-drop i (drop start s),
            ) in
            rw (n, split_loop)
              (split_loop-fields fuel s (start + i + 1) _ small
                ∙ rw (w, k, t, fields_cut (drop start s) c r a) (append_assoc tokens _ _))
      ]

-- The loop of `Split` ends within its fuel, and returns the fields.
pub split-fields : (s : Bytes) (d : ℕ) → split s d ≡ fields d s
unfolding split
split-fields s d = split_loop-fields d (length s + 1) s 0 [] (omega arith)

split_runs : split (codes "a..b") b'.' ≡ codes "a" ∷ [] ∷ codes "b" ∷ []
unfolding split find find_if
split_runs = refl

fields-ne-nil : (d : ℕ) (s : Bytes) → fields d s ≢ []
unfolding fields
fields-ne-nil d [] = λ h. cc
fields-ne-nil d (c ∷ s) = ground arith

join-push :
    (sep : Bytes) (c : ℕ) (ps : List Bytes) → ps ≢ [] → join sep (push c ps) ≡ c ∷ join sep ps
unfolding join push
join-push sep c [] h = absurd (h refl)
join-push sep c (p ∷ []) h = refl
join-push sep c (p ∷ q ∷ ps) h = refl

join_nil_cons : (d : ℕ) (ps : List Bytes) → ps ≢ [] → join (d ∷ []) ([] ∷ ps) ≡ d ∷ join (d ∷ []) ps
unfolding join
join_nil_cons d [] h = absurd (h refl)
join_nil_cons d (p ∷ ps) h = refl

-- Joining the fields gives the text back.
pub join-fields : (d : ℕ) (s : Bytes) → join (d ∷ []) (fields d s) ≡ s
unfolding fields
join-fields d [] = unfold join in refl
join-fields d (c ∷ s) = elim (Bool-cases (c == d)) [
  | inl e ↦ rw e (
      join_nil_cons d (fields d s) (fields-ne-nil d s)
      ∙ rw (join-fields d s) (ap (λ (x : ℕ). x ∷ s) (ground arith)))
  | inr e ↦
      rw e (join-push (d ∷ []) c (fields d s) (fields-ne-nil d s) ∙ ap (◌∷◌ c) (join-fields d s))
]
