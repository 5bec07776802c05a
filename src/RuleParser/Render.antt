-- ===== src/RuleParser/Render.antt =====
-- The text of a rule in filter-list syntax, and what the steps of the parser make of it.
use thorium_frugal.Base.{
  ℕ, ◌+◌, ◌-◌, ◌≡◌, refl, inl, inr, ◌⊎◌, Bool, true, false, [], ◌∷◌, ◌++◌, none, some, arith, Bytes,
  codes, ◌==◌, if◌then◌else◌, All-append, length, length-append, take_all, append-nil, take-append,
  drop-append, str_eq, any,
}
use thorium_frugal.Text.{to_lower, tolower, find, find_if, find_last_if, is_empty}
use thorium_frugal.Text.Find.{Free, find_if_at, find_if_whole}
use thorium_frugal.Text.Pieces.{split}
use thorium_frugal.Text.Ends.{
  ends_with_byte-append, pop_back-append, find_last_if_end, starts_with-append,
}
use thorium_frugal.RuleParser.{
  ParsedRule, trim, is_text_byte, set_options, finish_rule, set_pattern, strip_anchors, match_all,
  option_type, parse_resource_type_mask,
}

-- `||domain/path^`.
unfoldable pub stem : Bytes → Bytes → Bytes
stem domain path = codes "||" ++ ((domain ++ path) ++ codes "^")

-- The text of a rule: `@@` for an allow rule, the pattern, and the party option.
unfoldable pub render : Bool → Bytes → Bytes → Bool → Bytes
unfolding stem
render allowed domain path third =
    (if allowed then codes "@@" else [])
    ++ (stem domain path ++ (if third then codes "$third-party" else []))

pub trim_id :
    (c d : ℕ) (m : Bytes)
    → is_text_byte c ≡ true
    → is_text_byte d ≡ true
    → trim ((c ∷ m) ++ d ∷ []) ≡ (c ∷ m) ++ d ∷ []
unfolding trim
trim_id c d m hc hd =
    let first : find_if is_text_byte ((c ∷ m) ++ d ∷ []) ≡ some 0 = unfold find_if in rw hc in
    let last = find_last_if_end is_text_byte (c ∷ m) d hd in
    rw (first, last, trim)
      (take_all ((c ∷ m) ++ d ∷ []) (length (c ∷ m) - 0 + 1)
        (omega (arith, length-append (c ∷ m) (d ∷ []))))

pub strip-stem : (domain path : Bytes) → strip_anchors (stem domain path) ≡ domain ++ path
unfolding strip_anchors stem
strip-stem domain path =
    rw
      (
        starts_with-append (codes "||") ((domain ++ path) ++ codes "^"),
        ends_with_byte-append (domain ++ path) b'^' b'^',
      )
      (pop_back-append (domain ++ path) b'^')

module _ (prefix domain path : Bytes) (r : ParsedRule) (named : is_empty domain ≡ false)
    (low : to_lower domain ≡ domain) (no_slash : Free (λ b. b == b'/') domain) where
  abbrev pub finished : ParsedRule
  finished = record r {
    domain_pattern = domain;
    path_pattern = path;
    is_valid = true;
    rule_id = prefix ++ domain;
  }

  pub finish_lem : finish_rule prefix domain path r ≡ finished
  unfolding finish_rule
  finish_lem = rw named

  pub set_pattern_lem :
      (path ≡ []) ⊎ ((rest : Bytes) × (path ≡ b'/' ∷ rest))
      → set_pattern prefix (domain ++ path) r ≡ finished
  unfolding set_pattern find
  set_pattern_lem (inl e) =
      let n : find_if (λ b. b == b'/') (domain ++ path) ≡ none =
        rw (e, append-nil) (find_if_whole _ domain no_slash) in
      rw (n, set_pattern) (rw (e, append-nil, low) (rw e at finish_lem))
  set_pattern_lem (inr (rest, e)) =
      let n : find_if (λ b. b == b'/') (domain ++ path) ≡ some (length domain) =
        rw e (find_if_at _ domain b'/' rest no_slash refl) in
      let z : 0 + length domain ≡ length domain = omega arith in
      rw (n, set_pattern, z, take-append domain path, drop-append domain path, low) finish_lem

-- The option list that `render` writes.
pub third_options :
    (r : ParsedRule)
    → set_options (codes "third-party") r ≡ record r {
      require_third_party = true;
      require_first_party = false;
      resource_type_mask = match_all;
    }
unfolding set_options is_empty split find find_if to_lower tolower trim is_text_byte find_last_if
    str_eq any parse_resource_type_mask option_type
third_options r = refl

pub no_options : (r : ParsedRule) → set_options [] r ≡ r
unfolding set_options is_empty
no_options r = refl

pub stem-Free :
    (domain path : Bytes)
    → Free (λ b. b == b'$') domain
    → Free (λ b. b == b'$') path
    → Free (λ b. b == b'$') (stem domain path)
unfolding stem
stem-Free domain path hd hp = (
  refl,
  (refl, All-append _ (domain ++ path) (codes "^") (All-append _ domain path hd hp) (refl, tt)),
)
