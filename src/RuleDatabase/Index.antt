-- ===== src/RuleDatabase/Index.antt =====
-- The database as an index of a plain list: the rules that it has accepted, in order.
use thorium_frugal.Base.{
  ◌+◌, ◌≤◌, ◌<◌, ◌≡◌, refl, ap, ◌∙◌, sym, inl, inr, Bool, true, false, not, ◌&&◌, List, [], ◌∷◌,
  ◌++◌, arith, Bytes, if◌then◌else◌, Bool-cases, str_eq, str_eq_iff, select, select-append, length,
  length-append, append-nil,
}
use thorium_frugal.Text.{to_lower, is_empty}
use thorium_frugal.RuleParser.{ParsedRule, RuleType, block, allow}
use thorium_frugal.RuleDatabase.{Buckets, bucket, push_rule, RuleDatabase, max_rules, store_rule}

abbrev pub same_kind : RuleType → RuleType → Bool
same_kind allow allow = true
same_kind block block = true
same_kind _ _ = false

abbrev pub domain_key : ParsedRule → Bytes
domain_key r = to_lower r.domain_pattern

-- The rule belongs to the bucket of this key; it belongs to the rules with no domain.
unfoldable pub in_bucket : RuleType → Bytes → ParsedRule → Bool
in_bucket kind key r =
    same_kind r.rule_type kind && (not (is_empty key) && str_eq (domain_key r) key)

unfoldable pub in_generic : RuleType → ParsedRule → Bool
in_generic kind r = same_kind r.rule_type kind && is_empty (domain_key r)

-- The index holds exactly these rules, each in its place and in their order.
pub record Represents (db : RuleDatabase) (rules : List ParsedRule) : Type 0 where
  pub allow_index :
      (key : Bytes) → bucket key db.allow_rules_by_domain ≡ select (in_bucket allow key) rules
  pub block_index :
      (key : Bytes) → bucket key db.block_rules_by_domain ≡ select (in_bucket block key) rules
  pub allow_generic : db.generic_allow_rules ≡ select (in_generic allow) rules
  pub block_generic : db.generic_block_rules ≡ select (in_generic block) rules
  pub counted : db.total_rules ≡ length rules
  pub bounded : length rules ≤ max_rules

bucket-push_rule :
    (key k : Bytes) (r : ParsedRule) (m : Buckets)
    → bucket k (push_rule key r m) ≡ bucket k m ++ (if str_eq key k then r ∷ [] else [])
unfolding bucket push_rule
bucket-push_rule key k r [] = ground arith
bucket-push_rule key k r ((j, rs) ∷ m) = ground (
  arith,
  str_eq_iff key k,
  str_eq_iff j k,
  str_eq_iff j key,
  bucket-push_rule key k r m,
  append-nil rs,
  append-nil (bucket k m),
)

select_snoc :
    (p : ParsedRule → Bool) (rules : List ParsedRule) (r : ParsedRule)
    → select p (rules ++ r ∷ []) ≡ select p rules ++ (if p r then r ∷ [] else [])
select_snoc p rules r = select-append p rules (r ∷ []) ∙ unfold select in refl

select_skip :
    (p : ParsedRule → Bool) (rules : List ParsedRule) (r : ParsedRule)
    → p r ≡ false
    → select p rules ≡ select p (rules ++ r ∷ [])
select_skip p rules r h = sym (select_snoc p rules r ∙ rw h (append-nil (select p rules)))

select_take :
    (p : ParsedRule → Bool) (rules : List ParsedRule) (r : ParsedRule)
    → p r ≡ true
    → select p rules ++ r ∷ [] ≡ select p (rules ++ r ∷ [])
select_take p rules r h = sym (select_snoc p rules r ∙ rw h)

-- An empty key and a key that equals it are empty.
empty_key :
    (key k : Bytes) → is_empty key ≡ false → (not (is_empty k) && str_eq key k) ≡ str_eq key k
empty_key key k h = elim (Bool-cases (str_eq key k)) [
  | inl e ↦ rw e (rw (← (str_eq_iff key k).0 e, h))
  | inr e ↦ rw e (ground arith)
]

push_index :
    (kind : RuleType) (r : ParsedRule) (rules : List ParsedRule) (m : Buckets) (k : Bytes)
    → same_kind r.rule_type kind ≡ true
    → is_empty (domain_key r) ≡ false
    → bucket k m ≡ select (in_bucket kind k) rules
    → bucket k (push_rule (domain_key r) r m) ≡ select (in_bucket kind k) (rules ++ r ∷ [])
push_index kind r rules m k same full h =
    bucket-push_rule (domain_key r) k r m
    ∙ rw h (
        ap (λ (b : Bool). select (in_bucket kind k) rules ++ (if b then r ∷ [] else [])) (sym test))
    ∙ sym (select_snoc (in_bucket kind k) rules r)
  where
    test : in_bucket kind k r ≡ str_eq (domain_key r) k
    test = unfold in_bucket in rw same (empty_key (domain_key r) k full)

empty_key_ne : (key k : Bytes) → is_empty key ≡ true → (not (is_empty k) && str_eq key k) ≡ false
unfolding is_empty str_eq
empty_key_ne [] [] h = refl
empty_key_ne [] (c ∷ k) h = refl
empty_key_ne (c ∷ key) k h = cc

-- A rule of the other kind, or of the other form, is in no bucket and in no list.
module _ (kind : RuleType) (r : ParsedRule) where
  bucket_other : (k : Bytes) → same_kind r.rule_type kind ≡ false → in_bucket kind k r ≡ false
  unfolding in_bucket
  bucket_other k h = rw h

  generic_other : same_kind r.rule_type kind ≡ false → in_generic kind r ≡ false
  unfolding in_generic
  generic_other h = rw h

  bucket_no_key : (k : Bytes) → is_empty (domain_key r) ≡ true → in_bucket kind k r ≡ false
  unfolding in_bucket
  bucket_no_key k h = rw (empty_key_ne (domain_key r) k h) (ground arith)

  generic_key : is_empty (domain_key r) ≡ false → in_generic kind r ≡ false
  unfolding in_generic
  generic_key h = rw h (ground arith)

  generic_take :
      same_kind r.rule_type kind ≡ true → is_empty (domain_key r) ≡ true → in_generic kind r ≡ true
  unfolding in_generic
  generic_take h e = rw (h, e)

-- A stored rule goes to its place; the other index and the other list stay as they are.
module _ (db : RuleDatabase) (rules : List ParsedRule) (r : ParsedRule) (v : Represents db rules)
    (room : length rules < max_rules) where
  store_allow :
      r.rule_type ≡ allow
      → Represents
          (record (store_rule allow db (domain_key r) r) {
            total_rules = (store_rule allow db (domain_key r) r).total_rules + 1;
          })
          (rules ++ r ∷ [])
  unfolding store_rule
  store_allow e = elim (Bool-cases (is_empty (domain_key r))) [
    | inl none ↦ rw none (record {
      allow_index = λ k. v.allow_index k ∙ select_skip _ rules r (bucket_no_key allow r k none);
      block_index = λ k. v.block_index k ∙ select_skip _ rules r (bucket_other block r k (rw e));
      allow_generic =
          ap (λ (l : List ParsedRule). l ++ r ∷ []) v.allow_generic
          ∙ select_take _ rules r (generic_take allow r (rw e) none);
      block_generic = v.block_generic ∙ select_skip _ rules r (generic_other block r (rw e));
      counted = omega (arith, v.counted, length-append rules (r ∷ []));
      bounded = omega (arith, length-append rules (r ∷ []));
    })
    | inr full ↦ rw full (record {
      allow_index =
          λ k. push_index allow r rules db.allow_rules_by_domain k (rw e) full (v.allow_index k);
      block_index = λ k. v.block_index k ∙ select_skip _ rules r (bucket_other block r k (rw e));
      allow_generic = v.allow_generic ∙ select_skip _ rules r (generic_key allow r full);
      block_generic = v.block_generic ∙ select_skip _ rules r (generic_other block r (rw e));
      counted = omega (arith, v.counted, length-append rules (r ∷ []));
      bounded = omega (arith, length-append rules (r ∷ []));
    })
  ]

  store_block :
      r.rule_type ≡ block
      → Represents
          (record (store_rule block db (domain_key r) r) {
            total_rules = (store_rule block db (domain_key r) r).total_rules + 1;
          })
          (rules ++ r ∷ [])
  unfolding store_rule
  store_block e = elim (Bool-cases (is_empty (domain_key r))) [
    | inl none ↦ rw none (record {
      allow_index = λ k. v.allow_index k ∙ select_skip _ rules r (bucket_other allow r k (rw e));
      block_index = λ k. v.block_index k ∙ select_skip _ rules r (bucket_no_key block r k none);
      allow_generic = v.allow_generic ∙ select_skip _ rules r (generic_other allow r (rw e));
      block_generic =
          ap (λ (l : List ParsedRule). l ++ r ∷ []) v.block_generic
          ∙ select_take _ rules r (generic_take block r (rw e) none);
      counted = omega (arith, v.counted, length-append rules (r ∷ []));
      bounded = omega (arith, length-append rules (r ∷ []));
    })
    | inr full ↦ rw full (record {
      allow_index = λ k. v.allow_index k ∙ select_skip _ rules r (bucket_other allow r k (rw e));
      block_index =
          λ k. push_index block r rules db.block_rules_by_domain k (rw e) full (v.block_index k);
      allow_generic = v.allow_generic ∙ select_skip _ rules r (generic_other allow r (rw e));
      block_generic = v.block_generic ∙ select_skip _ rules r (generic_key block r full);
      counted = omega (arith, v.counted, length-append rules (r ∷ []));
      bounded = omega (arith, length-append rules (r ∷ []));
    })
  ]

  pub store_rule-Represents :
      (kind : RuleType)
      → r.rule_type ≡ kind
      → Represents
          (record (store_rule kind db (domain_key r) r) {
            total_rules = (store_rule kind db (domain_key r) r).total_rules + 1;
          })
          (rules ++ r ∷ [])
  store_rule-Represents allow e = store_allow e
  store_rule-Represents block e = store_block e
