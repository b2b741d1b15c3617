-- ===== src/Datalog/RuleSet/Entries.antt =====
-- What the entries of a rule set are for `add_rule`, `discard_rule` and `contains` of ruleset.py:
-- facts by their values or rules with a body.
use congress.Prelude.{
  ◌≡◌, refl, sym, ap, subst, ◌∙◌, inl, inr, Text, Text-discrete, List-discrete, Bool, true, false,
  not, ◌&&◌, ◌||◌, ite, Option, none, some, List, arith, get_or, Option-cases, if◌then◌else◌,
}
use congress.Sets.{member}
use congress.Dict.Base.{Dict, get}
use congress.Datalog.FactSet.{FactSet, remove_fact}
use congress.Datalog.FactSet.Index.{Fits}
use congress.Datalog.FactSet.Changes.{IsValid}
use congress.Datalog.RuleSet.{
  RuleSet, no_facts, Entry, fact, literal, rule, add_fact, add_plain_rule, add_rule, discard_fact,
  discard_plain_rule, discard_rule, has_fact, has_rule, contains,
}
use congress.Datalog.RuleSet.Contents.{
  removal, discard_fact-absent, discard_fact-present, facts_at, IsRuleSet, fact_in,
  add_fact-has_fact, discard_fact-has_fact,
}
use congress.Datalog.RuleSet.Bodies.{
  rule_in, adds, discards, add_plain_rule-has_rule, discard_plain_rule-has_rule,
}

pub data Slot (A R : Type 0) : Type 0 where
  among_facts : List A → Slot A R
  among_rules : R → Slot A R

module _ {A R : Type 0} (dec : Discrete A) (dec_rule : Discrete R)
    (has_body head_negated : R → Bool) (head_names : R → List A) where
  abbrev pub slot : Entry A R → Slot A R
  slot (fact f) = among_facts f
  slot (literal f) = among_facts f
  slot (rule r) = if has_body r then among_rules r else among_facts (head_names r)

  abbrev pub same : Slot A R → Slot A R → Bool
  same (among_facts f) (among_facts g) = ite (List-discrete dec f g) true false
  same (among_facts f) (among_rules q) = false
  same (among_rules r) (among_facts g) = false
  same (among_rules r) (among_rules q) = ite (dec_rule r q) true false

  abbrev pub is_literal : Entry A R → Bool
  is_literal (fact f) = false
  is_literal (literal f) = true
  is_literal (rule r) = false

  abbrev pub is_negated_fact : Entry A R → Bool
  is_negated_fact (fact f) = false
  is_negated_fact (literal f) = false
  is_negated_fact (rule r) = not (has_body r) && head_negated r

  abbrev pub SlotFits : Slot A R → Text → RuleSet A R → Type 0
  SlotFits (among_facts f) key s =
      Fits dec f (facts_at dec dec_rule has_body head_negated head_names s key).indicies
  SlotFits (among_rules r) key s = Unit

  abbrev facts_in : Text → List A → RuleSet A R → Bool
  facts_in = fact_in dec dec_rule has_body head_negated head_names

  abbrev rules_in : Text → R → RuleSet A R → Bool
  rules_in = rule_in dec dec_rule has_body head_negated head_names

  abbrev pub in_slot : Text → Slot A R → RuleSet A R → Bool
  in_slot k (among_facts f) s = facts_in k f s
  in_slot k (among_rules r) s = rules_in k r s

  abbrev pub put_slot : Text → Slot A R → RuleSet A R → RuleSet A R × Option Bool
  put_slot k (among_facts f) s = add_fact dec dec_rule has_body head_negated head_names k f s
  put_slot k (among_rules r) s = add_plain_rule dec dec_rule has_body head_negated head_names k r s

  abbrev pub take_slot : Text → Slot A R → RuleSet A R → RuleSet A R × Option Bool
  take_slot k (among_facts f) s = discard_fact dec dec_rule has_body head_negated head_names k f s
  take_slot k (among_rules r) s =
      discard_plain_rule dec dec_rule has_body head_negated head_names k r s

  pub contains-slot :
      (k : Text) (e : Entry A R) (s : RuleSet A R)
      → contains dec dec_rule has_body head_negated head_names k e s ≡ in_slot k (slot e) s
  unfolding contains
  contains-slot k (fact f) s = refl
  contains-slot k (literal f) s = refl
  contains-slot k (rule r) s = ground arith

  pub add_rule-slot :
      (k : Text) (e : Entry A R) (s : RuleSet A R)
      → is_literal e ≡ false
      → is_negated_fact e ≡ false
      → add_rule dec dec_rule has_body head_negated head_names k e s ≡ put_slot k (slot e) s
  unfolding add_rule
  add_rule-slot k (fact f) s h p = refl
  add_rule-slot k (literal f) s h p = ground arith
  add_rule-slot k (rule r) s h p = ground (arith, p)

  pub discard_rule-slot :
      (k : Text) (e : Entry A R) (s : RuleSet A R)
      → is_literal e ≡ false
      → discard_rule dec dec_rule has_body head_negated head_names k e s ≡ take_slot k (slot e) s
  unfolding discard_rule
  discard_rule-slot k (fact f) s h = refl
  discard_rule-slot k (literal f) s h = ground arith
  discard_rule-slot k (rule r) s h = ground arith

  adds-facts :
      (key : Text) (r : R) (s : RuleSet A R)
      → (adds dec dec_rule has_body head_negated head_names r key s).0.facts ≡ s.facts
  unfolding add_plain_rule
  adds-facts key r s = elim (Option-cases (get Text-discrete s.rules key)) [
    | inl e ↦ ground (arith, e)
    | inr (rs, e) ↦ ground (arith, e)
  ]

  discards-facts :
      (key : Text) (r : R) (s : RuleSet A R)
      → (discards dec dec_rule has_body head_negated head_names r key s).0.facts ≡ s.facts
  unfolding discard_plain_rule
  discards-facts key r s = ground arith

  removal-rules :
      (key : Text) (s : RuleSet A R) (out : FactSet A × Option Bool)
      → (removal dec dec_rule has_body head_negated head_names key s out).0.rules ≡ s.rules
  removal-rules key s (facts, none) = refl
  removal-rules key s (facts, some c) = ground arith

  discard_fact-rules :
      (key : Text) (f : List A) (s : RuleSet A R)
      → (discard_fact dec dec_rule has_body head_negated head_names key f s).0.rules ≡ s.rules
  discard_fact-rules key f s = elim (Option-cases (get Text-discrete s.facts key)) [
    | inl e ↦
        ap (λ (out : RuleSet A R × Option Bool). out.0.rules)
          (discard_fact-absent dec dec_rule has_body head_negated head_names key f s e)
    | inr (facts, e) ↦
        ap (λ (out : RuleSet A R × Option Bool). out.0.rules)
          (discard_fact-present dec dec_rule has_body head_negated head_names key f s facts e)
        ∙ removal-rules key s (remove_fact dec f facts)
  ]

  add_fact-rules :
      (key : Text) (f : List A) (s : RuleSet A R)
      → (add_fact dec dec_rule has_body head_negated head_names key f s).0.rules ≡ s.rules
  unfolding add_fact
  add_fact-rules key f s = refl

  facts_in-same :
      (k : Text) (g : List A) (s t : RuleSet A R)
      → t.facts ≡ s.facts
      → facts_in k g t ≡ facts_in k g s
  unfolding has_fact
  facts_in-same k g s t e =
      ap
        (λ fs. elim (get Text-discrete fs k) [
          | none ↦ false
          | some facts ↦ member (List-discrete dec) g facts.facts
        ])
        e

  rules_in-same :
      (k : Text) (q : R) (s t : RuleSet A R) → t.rules ≡ s.rules → rules_in k q t ≡ rules_in k q s
  unfolding has_rule
  rules_in-same k q s t e =
      ap (λ fs. elim (get Text-discrete fs k) [ none ↦ false | some rs ↦ member dec_rule q rs ]) e

  abbrev Valid : RuleSet A R → Type 0
  Valid = IsRuleSet dec dec_rule has_body head_negated head_names

  -- The rules do not matter for the indices.
  Valid-same : (s t : RuleSet A R) → t.facts ≡ s.facts → Valid s → Valid t
  Valid-same s t e h k =
      subst (λ (fs : Dict Text (FactSet A)). IsValid dec (get_or (get Text-discrete fs k) no_facts))
        (sym e) (h k)

  pub put_slot-in_slot :
      (key : Text) (a : Slot A R) (s : RuleSet A R)
      → Valid s
      → SlotFits a key s
      → ((put_slot key a s).1 ≡ some (not (in_slot key a s)))
        × ((k : Text) (b : Slot A R)
            → in_slot k b (put_slot key a s).0
              ≡ ite (Text-discrete key k) (same a b || in_slot k b s) (in_slot k b s))
        × Valid (put_slot key a s).0
  put_slot-in_slot key (among_facts f) s h fits =
      let (answer, contents, valid') =
        add_fact-has_fact dec dec_rule has_body head_negated head_names key f s h fits in
      (
        answer,
        λ k. elim [
          | among_facts g ↦ ground (arith, contents k g)
          | among_rules q ↦ ground (
            arith,
            rules_in-same k q s (put_slot key (among_facts f) s).0 (add_fact-rules key f s),
          )
        ],
        valid',
      )
  put_slot-in_slot key (among_rules r) s h fits =
      let (answer, contents) =
        add_plain_rule-has_rule dec dec_rule has_body head_negated head_names key r s in
      (
        answer,
        λ k. elim [
          | among_facts g ↦
              ground
                (arith, facts_in-same k g s (put_slot key (among_rules r) s).0 (adds-facts key r s))
          | among_rules q ↦ ground (arith, contents k q)
        ],
        Valid-same s (put_slot key (among_rules r) s).0 (adds-facts key r s) h,
      )

  pub take_slot-in_slot :
      (key : Text) (a : Slot A R) (s : RuleSet A R)
      → Valid s
      → ((take_slot key a s).1 ≡ some (in_slot key a s))
        × ((k : Text) (b : Slot A R)
            → in_slot k b (take_slot key a s).0
              ≡ ite (Text-discrete key k) (not (same a b) && in_slot k b s) (in_slot k b s))
        × Valid (take_slot key a s).0
  take_slot-in_slot key (among_facts f) s h =
      let (answer, contents, valid') =
        discard_fact-has_fact dec dec_rule has_body head_negated head_names key f s h in
      (
        answer,
        λ k. elim [
          | among_facts g ↦ ground (arith, contents k g)
          | among_rules q ↦ ground (
            arith,
            rules_in-same k q s (take_slot key (among_facts f) s).0 (discard_fact-rules key f s),
          )
        ],
        valid',
      )
  take_slot-in_slot key (among_rules r) s h =
      let (answer, contents) =
        discard_plain_rule-has_rule dec dec_rule has_body head_negated head_names key r s in
      (
        answer,
        λ k. elim [
          | among_facts g ↦ ground (
            arith,
            facts_in-same k g s (take_slot key (among_rules r) s).0 (discards-facts key r s),
          )
          | among_rules q ↦ ground (arith, contents k q)
        ],
        Valid-same s (take_slot key (among_rules r) s).0 (discards-facts key r s) h,
      )
