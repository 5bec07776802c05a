-- ===== src/RuleParser/RoundTrip.antt =====
-- A rule written in filter-list syntax is read back.
use thorium_frugal.Base.{
  ℕ, ◌+◌, ◌≤◌, ◌≡◌, refl, ap, ◌∙◌, sym, ◌⊎◌, Bool, true, false, [], ◌∷◌, ◌++◌, none, some, arith,
  Bytes, codes, ◌==◌, if◌then◌else◌, drop, length, append_assoc, append-nil, take-append,
  drop-append, drop_add,
}
use thorium_frugal.Text.{to_lower, find, find_if, is_empty, starts_with, begins_with_byte}
use thorium_frugal.Text.Find.{Free, find_if_at, find_if_whole}
use thorium_frugal.RuleParser.{
  ParsedRule, initial_rule, trim, is_text_byte, parse_pattern, is_skipped, parse_line, block, allow,
  match_all,
}
use thorium_frugal.RuleParser.Render.{
  stem, render, trim_id, strip-stem, third_options, no_options, stem-Free, set_pattern_lem,
}

-- The rule that a rendered pattern stands for.
parsed : Bytes → Bytes → Bytes → Bool → ParsedRule → ParsedRule
parsed prefix domain path third r = record r {
  domain_pattern = domain;
  path_pattern = path;
  is_valid = true;
  rule_id = prefix ++ domain;
  require_third_party = third;
  require_first_party = false;
  resource_type_mask = match_all;
}

pattern_lem :
    (prefix domain path : Bytes) (third : Bool) (r : ParsedRule)
    → (r.require_third_party ≡ false)
      × (r.require_first_party ≡ false)
      × (r.resource_type_mask ≡ match_all)
    → is_empty domain ≡ false
    → to_lower domain ≡ domain
    → Free (λ b. b == b'/') domain
    → Free (λ b. b == b'$') domain
    → (path ≡ []) ⊎ ((rest : Bytes) × (path ≡ b'/' ∷ rest))
    → Free (λ b. b == b'$') path
    → parse_pattern prefix (stem domain path ++ (if third then codes "$third-party" else [])) r
      ≡ parsed prefix domain path third r
unfolding parse_pattern parsed find
pattern_lem prefix domain path true r h named low slash hd p hp =
    let text = stem domain path ++ codes "$third-party" in
    let n : find_if (λ b. b == b'$') text ≡ some (length (stem domain path)) =
      find_if_at _ (stem domain path) b'$' (codes "third-party") (stem-Free domain path hd hp)
        refl in
    let z : 0 + length (stem domain path) ≡ length (stem domain path) = omega arith in
    let o : drop (length (stem domain path) + 1) text ≡ codes "third-party" =
      drop_add (length (stem domain path)) 1 text
      ∙ ap (drop 1) (drop-append (stem domain path) (codes "$third-party")) in
    rw
      (
        n,
        parse_pattern,
        z,
        take-append (stem domain path) (codes "$third-party"),
        o,
        strip-stem domain path,
        third_options r,
      )
      (set_pattern_lem prefix domain path _ named low slash p)
pattern_lem prefix domain path false r (a, b, c) named low slash hd p hp =
    let n : find_if (λ b. b == b'$') (stem domain path ++ []) ≡ none =
      rw append-nil (find_if_whole _ (stem domain path) (stem-Free domain path hd hp)) in
    rw (n, parse_pattern, append-nil, strip-stem domain path, no_options r)
      (set_pattern_lem prefix domain path r named low slash p ∙ ground arith)

trim_as :
    (c d : ℕ) (m s : Bytes)
    → s ≡ (c ∷ m) ++ d ∷ []
    → is_text_byte c ≡ true
    → is_text_byte d ≡ true
    → trim s ≡ s
trim_as c d m s e hc hd = rw e (trim_id c d m hc hd)

trim-render :
    (allowed : Bool) (domain path : Bytes) (third : Bool)
    → trim (render allowed domain path third) ≡ render allowed domain path third
unfolding render stem is_text_byte
trim-render true domain path true =
    let x = (domain ++ path) ++ codes "^" in
    trim_as b'@' b'y' (codes "@||" ++ (x ++ codes "$third-part")) _
      (ap (λ (u : Bytes). codes "@@||" ++ u)
        (sym (append_assoc x (codes "$third-part") (codes "y"))))
      refl refl
trim-render true domain path false =
    trim_as b'@' b'^' (codes "@||" ++ (domain ++ path)) _
      (ap (λ (u : Bytes). codes "@@||" ++ u) (append-nil ((domain ++ path) ++ codes "^"))) refl refl
trim-render false domain path true =
    let x = (domain ++ path) ++ codes "^" in
    trim_as b'|' b'y' (codes "|" ++ (x ++ codes "$third-part")) _
      (ap (λ (u : Bytes). codes "||" ++ u) (sym (append_assoc x (codes "$third-part") (codes "y"))))
      refl refl
trim-render false domain path false =
    trim_as b'|' b'^' (codes "|" ++ (domain ++ path)) _
      (ap (λ (u : Bytes). codes "||" ++ u) (append-nil ((domain ++ path) ++ codes "^"))) refl refl

not-skipped :
    (allowed : Bool) (domain path : Bytes) (third : Bool)
    → length (render allowed domain path third) ≤ 1024
    → is_skipped (render allowed domain path third) ≡ false
unfolding is_skipped render stem is_empty begins_with_byte
not-skipped true domain path third h = ground arith
not-skipped false domain path third h = ground arith

-- A block or allow rule for a domain in lower case, with or without a path and the option
-- `$third-party`, that fits in 1024 bytes is read back with exactly these parts from its text.
pub parse_line-render :
    (prefix : Bytes) (allowed : Bool) (domain path : Bytes) (third : Bool)
    → is_empty domain ≡ false
    → to_lower domain ≡ domain
    → Free (λ b. b == b'/') domain
    → Free (λ b. b == b'$') domain
    → (path ≡ []) ⊎ ((rest : Bytes) × (path ≡ b'/' ∷ rest))
    → Free (λ b. b == b'$') path
    → length (render allowed domain path third) ≤ 1024
    → parse_line (render allowed domain path third) prefix ≡ record {
      rule_id = prefix ++ domain;
      rule_type = if allowed then allow else block;
      domain_pattern = domain;
      path_pattern = path;
      match_subdomains = true;
      require_third_party = third;
      require_first_party = false;
      resource_type_mask = match_all;
      original_rule_text = render allowed domain path third;
      is_valid = true;
    }
unfolding parse_line
parse_line-render prefix true domain path third named low slash hd p hp fits =
    let a : starts_with (render true domain path third) (codes "@@") ≡ true =
      unfold render starts_with in refl in
    let d : drop 2 (render true domain path third)
        ≡ stem domain path ++ (if third then codes "$third-party" else []) =
      unfold render in refl in
    rw (trim-render true domain path third, not-skipped true domain path third fits, a, d)
      (pattern_lem prefix domain path third _ (refl, refl, refl) named low slash hd p hp
        ∙ unfold parsed in refl)
parse_line-render prefix false domain path third named low slash hd p hp fits =
    let a : starts_with (render false domain path third) (codes "@@") ≡ false =
      unfold render stem starts_with in refl in
    let d : render false domain path third
        ≡ stem domain path ++ (if third then codes "$third-party" else []) =
      unfold render in refl in
    rw (trim-render false domain path third, not-skipped false domain path third fits, a)
      (ap (λ (u : Bytes). parse_pattern prefix u (initial_rule (render false domain path third))) d
        ∙ pattern_lem prefix domain path third _ (refl, refl, refl) named low slash hd p hp
        ∙ unfold parsed in refl)
