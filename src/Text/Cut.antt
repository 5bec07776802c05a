-- ===== src/Text/Cut.antt =====
-- The two ways in which the sources cut a URL: from a position up to the next delimiter, and into
-- the part before `?`, the query and the fragment.
use mathlib.Core.Option
use thorium_frugal.Base.{
  ℕ, suc, ◌+◌, ◌-◌, ◌≡◌, ap, ◌∙◌, sym, inl, inr, Bool, [], ◌∷◌, Option, none, some, arith, Bytes,
  ◌==◌, Option-cases, length, drop, drop_add, length-drop, take_all,
}
use thorium_frugal.Text.{find_if, find, substr}
use thorium_frugal.Text.Find.{before, after, find_if-none, find_if-some}

-- `end = find…(…, start); if (end == npos) end = length; substr(start, end - start)`.
pub substr_to :
    (p : ℕ → Bool) (s : Bytes) (start : ℕ)
    → substr s start
        (Option.get_or (Option.map (λ i. start + i) (find_if p (drop start s))) (length s) - start)
      ≡ before p (drop start s)
substr_to p s start = elim (Option-cases (find_if p (drop start s))) [
  | inl n ↦ rw n (
      take_all (drop start s) (length s - start) (omega (arith, length-drop start s))
      ∙ sym (find_if-none p (drop start s) n).0)
  | inr (i, n) ↦
      let e : start + i - start ≡ i = omega arith in rw (n, e) (find_if-some p (drop start s) n).0
]

-- The query: what stands behind the `?` at `q`, up to the `#` if there is one.
unfoldable pub query_part : Bytes → ℕ → Option ℕ → Bytes
query_part s q none = drop (q + 1) s
query_part s q (some h) = substr s (q + 1) (h - (q + 1))

-- The fragment, with its `#`.
unfoldable pub fragment_part : Bytes → Option ℕ → Bytes
fragment_part s none = []
fragment_part s (some h) = drop h s

abbrev pub is_byte : ℕ → ℕ → Bool
is_byte c = λ b. b == c

module _ (s t : Bytes) (q : ℕ) (e : drop q s ≡ b'?' ∷ t) where
  tail_drop : drop (q + 1) s ≡ t
  tail_drop = drop_add q 1 s ∙ ap (drop 1) e

  hash_at : find s b'#' q ≡ Option.map (λ i. q + i) (Option.map suc (find_if (is_byte b'#') t))
  unfolding find find_if
  hash_at = rw e

  pub query_part_lem : query_part s q (find s b'#' q) ≡ before (is_byte b'#') t
  unfolding query_part
  query_part_lem = elim (Option-cases (find_if (is_byte b'#') t)) [
    | inl n ↦ rw (hash_at, n) (tail_drop ∙ sym (find_if-none _ t n).0)
    | inr (i, n) ↦
        let k : q + suc i - (q + 1) ≡ i = omega arith in
        rw (hash_at, n) (rw (k, tail_drop) (find_if-some _ t n).0)
  ]

  pub fragment_part_lem : fragment_part s (find s b'#' q) ≡ after (is_byte b'#') t
  unfolding fragment_part
  fragment_part_lem = elim (Option-cases (find_if (is_byte b'#') t)) [
    | inl n ↦ rw (hash_at, n) (sym (find_if-none _ t n).1)
    | inr (i, n) ↦
        rw (hash_at, n) (drop_add q (suc i) s ∙ ap (drop (suc i)) e ∙ (find_if-some _ t n).1)
  ]
