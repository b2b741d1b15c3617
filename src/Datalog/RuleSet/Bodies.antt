-- ===== src/Datalog/RuleSet/Bodies.antt =====
-- The rules of each table of `RuleSet` of ruleset.py.
use congress.Prelude.{
  ◌≡◌, inl, inr, Text, Text-discrete, Bool, true, false, not, ite, Option, some, List, [], ◌∷◌,
  arith, get_or, Bool-cases, Option-cases,
}
use congress.Sets.{member, insert, discard, member-insert, member-discard}
use congress.Dict.Base.{get, put, remove, get-put, get-remove}
use congress.Datalog.FactSet.{is_nil}
use congress.Datalog.RuleSet.{RuleSet, add_plain_rule, discard_plain_rule, has_rule}

module _ {A R : Type 0} (dec : Discrete A) (dec_rule : Discrete R)
    (has_body head_negated : R → Bool) (head_names : R → List A) where
  abbrev pub rules_at : RuleSet A R → Text → List R
  rules_at s key = get_or (get Text-discrete s.rules key) []

  abbrev pub rule_in : Text → R → RuleSet A R → Bool
  rule_in = has_rule dec dec_rule has_body head_negated head_names

  has_rule-rules_at :
      (key : Text) (r : R) (s : RuleSet A R) → rule_in key r s ≡ member dec_rule r (rules_at s key)
  unfolding has_rule member
  has_rule-rules_at key r s = elim (Option-cases (get Text-discrete s.rules key)) [
    | inl e ↦ ground arith
    | inr (rs, e) ↦ ground arith
  ]

  abbrev pub adds : R → Text → RuleSet A R → RuleSet A R × Option Bool
  adds r key s = add_plain_rule dec dec_rule has_body head_negated head_names key r s

  abbrev pub discards : R → Text → RuleSet A R → RuleSet A R × Option Bool
  discards r key s = discard_plain_rule dec dec_rule has_body head_negated head_names key r s

  put_rules :
      (key : Text) (rs : List R) (s : RuleSet A R) (k : Text)
      → rules_at (record s { rules = put Text-discrete s.rules key rs }) k
        ≡ ite (Text-discrete key k) rs (rules_at s k)
  put_rules key rs s k = ground (arith, get-put Text-discrete s.rules key k rs)

  remove_rules :
      (key : Text) (s : RuleSet A R) (k : Text)
      → rules_at (record s { rules = remove Text-discrete s.rules key }) k
        ≡ ite (Text-discrete key k) [] (rules_at s k)
  remove_rules key s k = ground (arith, get-remove Text-discrete s.rules key k)

  rules_at-adds :
      (key : Text) (r : R) (s : RuleSet A R) (k : Text)
      → rules_at (adds r key s).0 k
        ≡ ite (Text-discrete key k) (insert dec_rule r (rules_at s key)) (rules_at s k)
  unfolding add_plain_rule insert member
  rules_at-adds key r s k = elim (Option-cases (get Text-discrete s.rules key)) [
    | inl e ↦ ground (arith, put_rules key (r ∷ []) s k)
    | inr (rs, e) ↦ ground (arith, put_rules key (insert dec_rule r rs) s k)
  ]

  rules_at-discards :
      (key : Text) (r : R) (s : RuleSet A R) (k : Text)
      → rules_at (discards r key s).0 k
        ≡ ite (Text-discrete key k) (discard dec_rule r (rules_at s key)) (rules_at s k)
  unfolding discard_plain_rule discard
  rules_at-discards key r s k = elim (Option-cases (get Text-discrete s.rules key)) [
    | inl e ↦ ground arith
    | inr (rs, e) ↦ elim (Bool-cases (is_nil (discard dec_rule r rs))) [
      | inl p ↦ ground (arith, remove_rules key s k)
      | inr p ↦ ground (arith, put_rules key (discard dec_rule r rs) s k)
    ]
  ]

  pub add_plain_rule-has_rule :
      (key : Text) (r : R) (s : RuleSet A R)
      → ((adds r key s).1 ≡ some (not (rule_in key r s)))
        × ((k : Text) (q : R)
            → rule_in k q (adds r key s).0
              ≡ ite (Text-discrete key k) (ite (dec_rule r q) true (rule_in k q s)) (rule_in k q s))
  unfolding add_plain_rule member
  add_plain_rule-has_rule key r s = (
    elim (Option-cases (get Text-discrete s.rules key)) [
      | inl e ↦ ground (arith, has_rule-rules_at key r s)
      | inr (rs, e) ↦ ground (arith, has_rule-rules_at key r s)
    ],
    λ k q. ground (
      arith,
      has_rule-rules_at k q (adds r key s).0,
      has_rule-rules_at k q s,
      rules_at-adds key r s k,
      member-insert dec_rule r q (rules_at s key),
    ),
  )

  pub discard_plain_rule-has_rule :
      (key : Text) (r : R) (s : RuleSet A R)
      → ((discards r key s).1 ≡ some (rule_in key r s))
        × ((k : Text) (q : R)
            → rule_in k q (discards r key s).0
              ≡ ite
                  (Text-discrete key k)
                  (ite (dec_rule r q) false (rule_in k q s))
                  (rule_in k q s))
  unfolding discard_plain_rule member
  discard_plain_rule-has_rule key r s = (
    elim (Option-cases (get Text-discrete s.rules key)) [
      | inl e ↦ ground (arith, has_rule-rules_at key r s)
      | inr (rs, e) ↦ ground (arith, has_rule-rules_at key r s)
    ],
    λ k q. ground (
      arith,
      has_rule-rules_at k q (discards r key s).0,
      has_rule-rules_at k q s,
      rules_at-discards key r s k,
      member-discard dec_rule r q (rules_at s key),
    ),
  )
