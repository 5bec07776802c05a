-- ===== src/RuleDatabase/Capacity.antt =====
-- What the operations do to the list of accepted rules: `AddRule`, `LoadFromText`, `Clear`.
use thorium_frugal.Base.{
  ℕ, ◌+◌, ◌≤◌, ◌≡◌, refl, ap, ◌∙◌, sym, inl, inr, Bool, true, false, not, ◌&&◌, List, [], ◌∷◌, ◌++◌,
  arith, Bytes, ltb, leb, if◌then◌else◌, Bool-cases, select, if_true, if_false, subst, length,
  length-append, append_assoc, append-nil, All,
}
use thorium_frugal.RuleParser.{ParsedRule, parse_text}
use thorium_frugal.RuleParser.Wellformed.{IsLoadable, parse_text-IsLoadable}
use thorium_frugal.RuleDatabase.{
  RuleDatabase, empty_database, max_rules, store_rule, add_rule, load_rules, load_from_text, clear,
  bucket,
}
use thorium_frugal.RuleDatabase.Index.{Represents, domain_key, store_rule-Represents}

-- A rule is accepted if it is valid and there is room.
abbrev pub accepts : List ParsedRule → ParsedRule → Bool
accepts rules r = r.is_valid && ltb (length rules) max_rules

abbrev pub accept : List ParsedRule → ParsedRule → List ParsedRule
accept rules r = if accepts rules r then rules ++ r ∷ [] else rules

abbrev pub accept_all : List ParsedRule → List ParsedRule → List ParsedRule
accept_all rules [] = rules
accept_all rules (r ∷ rs) = accept_all (accept rules r) rs

-- The new database has no rules, and `Clear` leaves one with none.
pub clear-Represents : (db : RuleDatabase) → Represents empty_database [] × Represents (clear db) []
unfolding clear empty_database bucket select
clear-Represents db = (
  record {
    allow_index = λ k. refl;
    block_index = λ k. refl;
    allow_generic = refl;
    block_generic = refl;
    counted = refl;
    bounded = omega arith;
  },
  record {
    allow_index = λ k. refl;
    block_index = λ k. refl;
    allow_generic = refl;
    block_generic = refl;
    counted = refl;
    bounded = omega arith;
  },
)

-- The state and the result after a rule is refused, and after it is stored.
abbrev stored : RuleDatabase → ParsedRule → RuleDatabase
stored db r =
    let s = store_rule r.rule_type db (domain_key r) r in
    record s { total_rules = s.total_rules + 1 }

add_invalid :
    (db : RuleDatabase) (r : ParsedRule) → r.is_valid ≡ false → add_rule db r ≡ (db, false)
unfolding add_rule
add_invalid db r h = if_true (not r.is_valid) _ _ (ap not h)

add_full :
    (db : RuleDatabase) (r : ParsedRule)
    → r.is_valid ≡ true
    → leb max_rules db.total_rules ≡ true
    → add_rule db r ≡ (db, false)
unfolding add_rule
add_full db r h full =
    if_false (not r.is_valid) _ _ (ap not h) ∙ if_true (leb max_rules db.total_rules) _ _ full

add_stored :
    (db : RuleDatabase) (r : ParsedRule)
    → r.is_valid ≡ true
    → leb max_rules db.total_rules ≡ false
    → add_rule db r ≡ (stored db r, true)
unfolding add_rule store_rule
add_stored db r h room =
    if_false (not r.is_valid) _ _ (ap not h) ∙ if_false (leb max_rules db.total_rules) _ _ room

-- What `add_rule-Represents` states, of a state and a result.
abbrev Refines : List ParsedRule → ParsedRule → RuleDatabase × Bool → Type 0
Refines rules r p = Represents p.0 (accept rules r) × (p.1 ≡ accepts rules r)

refused :
    (db : RuleDatabase) (rules : List ParsedRule) (r : ParsedRule)
    → Represents db rules
    → accepts rules r ≡ false
    → Refines rules r (db, false)
refused db rules r v h =
    (subst (Represents db) (sym (if_false (accepts rules r) (rules ++ r ∷ []) rules h)) v, sym h)

-- `AddRule` refines a list of accepted rules that the database represents: a valid rule is put at
-- the end while there are fewer than 50000, any other is refused and changes nothing; the result
-- says which.
pub add_rule-Represents :
    (db : RuleDatabase) (rules : List ParsedRule) (r : ParsedRule)
    → Represents db rules
    → Represents (add_rule db r).0 (accept rules r) × ((add_rule db r).1 ≡ accepts rules r)
add_rule-Represents db rules r v = elim (Bool-cases r.is_valid) [
  | inr invalid ↦
      subst (Refines rules r) (sym (add_invalid db r invalid)) (refused db rules r v (ground arith))
  | inl valid ↦ elim (Bool-cases (leb max_rules db.total_rules)) [
    | inl full ↦
        subst (Refines rules r) (sym (add_full db r valid full))
          (refused db rules r v (grind (arith, v.counted)))
    | inr room ↦
        let e : accepts rules r ≡ true = grind (arith, v.counted) in
        let put = store_rule-Represents db rules r v (grind (arith, v.counted)) r.rule_type refl in
        subst (Refines rules r) (sym (add_stored db r valid room)) (
          subst (Represents (stored db r))
              (sym (if_true (accepts rules r) (rules ++ r ∷ []) rules e)) put,
          sym e,
        )
  ]
]

count_step :
    (b b' : Bool)
    → b' ≡ b
    → (rules : List ParsedRule) (r : ParsedRule) (x y n : ℕ)
    → x + length (if b then rules ++ r ∷ [] else rules) ≡ (if b' then n + 1 else n) + y
    → x + length rules ≡ n + y
count_step true true e rules r x y n h = omega (arith, length-append rules (r ∷ []))
count_step false false e rules r x y n h = h
count_step true false e rules r x y n h = cc
count_step false true e rules r x y n h = cc

load_rules-Represents :
    (rs : List ParsedRule) (db : RuleDatabase) (rules : List ParsedRule) (n : ℕ)
    → Represents db rules
    → Represents (load_rules rs db n).0 (accept_all rules rs)
      × ((load_rules rs db n).1 + length rules ≡ n + length (accept_all rules rs))
unfolding load_rules
load_rules-Represents [] db rules n v = (v, refl)
load_rules-Represents (r ∷ rs) db rules n v =
    let (v', said) = add_rule-Represents db rules r v in
    let (w, counted) =
      load_rules-Represents rs (add_rule db r).0 (accept rules r)
        (if (add_rule db r).1 then n + 1 else n) v' in
    (w, count_step (accepts rules r) (add_rule db r).1 said rules r _ _ _ counted)

-- `LoadFromText` accepts the rules of the text in turn, and returns how many it has accepted.
pub load_from_text-Represents :
    (db : RuleDatabase) (rules : List ParsedRule) (text : Bytes)
    → Represents db rules
    → Represents (load_from_text db text).0 (accept_all rules (parse_text text))
      × ((load_from_text db text).1 + length rules ≡ length (accept_all rules (parse_text text)))
unfolding load_from_text
load_from_text-Represents db rules text v =
    let (w, n) = load_rules-Represents (parse_text text) db rules 0 v in (w, omega (arith, n))

accept_all_fit :
    (rs rules : List ParsedRule)
    → All IsLoadable rs
    → length rules + length rs ≤ max_rules
    → accept_all rules rs ≡ rules ++ rs
accept_all_fit [] rules h fits = sym (append-nil rules)
accept_all_fit (r ∷ rs) rules ((valid, _), h) fits =
    let e : accepts rules r ≡ true = grind arith in
    ap (λ (l : List ParsedRule). accept_all l rs)
      (if_true (accepts rules r) (rules ++ r ∷ []) rules e)
    ∙ accept_all_fit rs (rules ++ r ∷ []) h (omega (arith, length-append rules (r ∷ [])))
    ∙ append_assoc rules (r ∷ []) rs

-- A database that represents a list of rules represents that list and all rules of a text behind
-- it once the text is loaded, and their number is returned, while they all fit in it.
pub load_from_text_all :
    (db : RuleDatabase) (rules : List ParsedRule) (text : Bytes)
    → Represents db rules
    → length rules + length (parse_text text) ≤ max_rules
    → Represents (load_from_text db text).0 (rules ++ parse_text text)
      × ((load_from_text db text).1 ≡ length (parse_text text))
load_from_text_all db rules text v fits =
    let e = accept_all_fit (parse_text text) rules (parse_text-IsLoadable text) fits in
    let (w, n) = load_from_text-Represents db rules text v in
    (
      subst (Represents (load_from_text db text).0) e w,
      omega (arith, n, ap length e, length-append rules (parse_text text)),
    )
