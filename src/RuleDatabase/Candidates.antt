-- ===== src/RuleDatabase/Candidates.antt =====
-- `GenerateCandidateDomains` lists the host and each domain above it.
use thorium_frugal.Base.{
  ℕ, zero, suc, ◌+◌, ◌<◌, ◌≡◌, refl, ap, ◌∙◌, inl, inr, Bool, true, false, List, [], ◌∷◌, ◌++◌,
  arith, Bytes, ◌==◌, ltb, if◌then◌else◌, Bool-cases, Option-cases, length, drop, drop_add,
  length-drop, append_assoc, append-nil,
}
use thorium_frugal.Text.{to_lower, find, find_if, is_empty}
use thorium_frugal.Text.Find.{Free, after, find_if-none, find_if-some}
use thorium_frugal.Classifier.{normalize_host}
use thorium_frugal.RuleDatabase.{candidates_loop, generate_candidate_domains}

-- What stands behind each dot, where that is not empty.
unfoldable pub parents : Bytes → List Bytes
parents [] = []
parents (c ∷ s) =
    let above = parents s in if c == b'.' then (if is_empty s then [] else s ∷ above) else above

is_dot : ℕ → Bool
is_dot c = c == b'.'

parents-Free : (s : Bytes) → Free (λ c. c == b'.') s → parents s ≡ []
unfolding parents
parents-Free [] h = refl
parents-Free (c ∷ s) (e, h) = rw e (parents-Free s h)

parents-after :
    (s r : Bytes)
    → after (λ c. c == b'.') s ≡ b'.' ∷ r
    → parents s ≡ (if is_empty r then [] else r ∷ parents r)
unfolding parents after
parents-after [] r h = cc
parents-after (c ∷ s) r h = elim (Bool-cases (c == b'.')) [
  | inl e ↦ let k : s ≡ r = ground arith in rw (e, k)
  | inr e ↦ rw e (parents-after s r (ground arith))
]

is_empty-length : (s : Bytes) → is_empty s ≡ (length s == 0)
unfolding is_empty
is_empty-length [] = refl
is_empty-length (c ∷ s) = ground arith

loop_lem :
    (fuel : ℕ) (host : Bytes) (pos : ℕ) (acc : List Bytes)
    → length (drop pos host) < fuel
    → candidates_loop fuel host (find host b'.' pos) acc ≡ acc ++ parents (drop pos host)
unfolding candidates_loop find
loop_lem zero host pos acc h = absurd (omega arith)
loop_lem (suc fuel) host pos acc h =
    elim (Option-cases (find_if (λ c. c == b'.') (drop pos host))) [
      | inl n ↦ rw (n, parents-Free (drop pos host) (find_if-none _ _ n).2, append-nil)
      | inr (i, n) ↦
          let (t, u, l, (c, r, a, p)) = find_if-some _ (drop pos host) n in
          let w : drop (pos + i + 1) host ≡ r =
            drop_add (pos + i) 1 host ∙ ap (drop 1) (drop_add pos i host ∙ u ∙ a) in
          let size : length r + 1 + i ≡ length (drop pos host) =
            omega (arith, length-drop i (drop pos host), ap length (u ∙ a)) in
          let spec : parents (drop pos host) ≡ (if is_empty r then [] else r ∷ parents r) =
            parents-after (drop pos host) r (a ∙ ap (λ (x : ℕ). x ∷ r) (ground arith)) in
          elim (Bool-cases (is_empty r)) [
            | inl e ↦
                let stop : ltb (pos + i + 1) (length host) ≡ false =
                  grind (arith, is_empty-length r, length-drop pos host) in
                rw (n, candidates_loop) (rw (stop, spec, e, append-nil))
            | inr e ↦
                let go : ltb (pos + i + 1) (length host) ≡ true =
                  grind (arith, is_empty-length r, length-drop pos host) in
                let some_parent : is_empty (drop (pos + i + 1) host) ≡ false = ap is_empty w ∙ e in
                let rest =
                  loop_lem fuel host (pos + i + 1) (acc ++ drop (pos + i + 1) host ∷ [])
                    (rw w (omega arith)) in
                rw (n, candidates_loop)
                  (rw (go, spec, e, some_parent)
                    (rest ∙ rw w (append_assoc acc (r ∷ []) (parents r))))
          ]
    ]

-- The candidates of a host are the host in lower case without a last dot, and then what stands behind
-- each of its dots, down to the last label alone (`com` of `ads.example.com`). The loop ends within
-- its fuel.
pub generate_candidate_domains_lem :
    (host : Bytes)
    → generate_candidate_domains host ≡ (
        if is_empty (to_lower host)
        then []
        else normalize_host host ∷ parents (normalize_host host))
unfolding generate_candidate_domains
generate_candidate_domains_lem host = rw (
    loop_lem (length (normalize_host host) + 1) (normalize_host host) 0 (normalize_host host ∷ [])
      (omega arith))
