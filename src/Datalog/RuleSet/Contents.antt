-- ===== src/Datalog/RuleSet/Contents.antt =====
-- The facts of each table of `RuleSet` of ruleset.py.
use congress.Prelude.{
  ◌≡◌, refl, sym, ap, subst, inl, inr, Text, Text-discrete, List-discrete, Bool, true, false, not,
  ite, Option, none, some, List, [], ◌∷◌, arith, get_or, Bool-cases, Option-cases,
}
use congress.Sets.{member}
use congress.Dict.Base.{get, put, remove, get-put, get-remove}
use congress.Datalog.FactSet
use congress.Datalog.FactSet.{FactSet, remove_fact, is_nil}
use congress.Datalog.FactSet.Index.{in_facts, Fits}
use congress.Datalog.FactSet.Changes.{IsValid, add-IsValid, remove_fact-IsValid}
use congress.Datalog.RuleSet.{RuleSet, no_facts, add_fact, after_removal, discard_fact, has_fact}

module _ {A R : Type 0} (dec : Discrete A) (dec_rule : Discrete R)
    (has_body head_negated : R → Bool) (head_names : R → List A) where
  abbrev pub facts_at : RuleSet A R → Text → FactSet A
  facts_at s key = get_or (get Text-discrete s.facts key) no_facts

  -- every index of every table is exact
  abbrev pub IsRuleSet : RuleSet A R → Type 0
  IsRuleSet s = (key : Text) → IsValid dec (facts_at s key)

  abbrev pub fact_in : Text → List A → RuleSet A R → Bool
  fact_in = has_fact dec dec_rule has_body head_negated head_names

  has_fact-facts_at :
      (key : Text) (f : List A) (s : RuleSet A R)
      → fact_in key f s ≡ in_facts dec f (facts_at s key).facts
  unfolding has_fact member
  has_fact-facts_at key f s = elim (Option-cases (get Text-discrete s.facts key)) [
    | inl e ↦ ground arith
    | inr (facts, e) ↦ ground arith
  ]

  -- One table is given a new set of facts.
  put_facts :
      (key : Text) (facts : FactSet A) (s : RuleSet A R) (k : Text)
      → facts_at (record s { facts = put Text-discrete s.facts key facts }) k
        ≡ ite (Text-discrete key k) facts (facts_at s k)
  put_facts key facts s k = ground (arith, get-put Text-discrete s.facts key k facts)

  -- The sets of the other tables stay, and with them whether their indices are exact.
  pub put_facts-IsRuleSet :
      (key : Text) (facts : FactSet A) (s : RuleSet A R)
      → IsRuleSet s
      → IsValid dec facts
      → IsRuleSet (record s { facts = put Text-discrete s.facts key facts })
  put_facts-IsRuleSet key facts s h valid k = elim (Text-discrete key k) [
    | yes same ↦
        subst (IsValid dec)
          (let w : facts ≡ facts_at (record s { facts = put Text-discrete s.facts key facts }) k =
              ground (arith, put_facts key facts s k) in
            w)
          valid
    | no other ↦
        subst (IsValid dec)
          (let w : facts_at s k
                ≡ facts_at (record s { facts = put Text-discrete s.facts key facts }) k =
              ground (arith, put_facts key facts s k) in
            w)
          (h k)
  ]

  remove_facts :
      (key : Text) (s : RuleSet A R) (k : Text)
      → facts_at (record s { facts = remove Text-discrete s.facts key }) k
        ≡ ite (Text-discrete key k) no_facts (facts_at s k)
  remove_facts key s k = ground (arith, get-remove Text-discrete s.facts key k)

  remove_facts-IsRuleSet :
      (key : Text) (s : RuleSet A R)
      → IsRuleSet s
      → IsRuleSet (record s { facts = remove Text-discrete s.facts key })
  remove_facts-IsRuleSet key s h k = elim (Text-discrete key k) [
    | yes same ↦
        subst (IsValid dec)
          (let w : no_facts ≡ facts_at (record s { facts = remove Text-discrete s.facts key }) k =
              ground (arith, remove_facts key s k) in
            w)
          tt
    | no other ↦
        subst (IsValid dec)
          (let w : facts_at s k
                ≡ facts_at (record s { facts = remove Text-discrete s.facts key }) k =
              ground (arith, remove_facts key s k) in
            w)
          (h k)
  ]

  pub add_fact-has_fact :
      (key : Text) (f : List A) (s : RuleSet A R)
      → IsRuleSet s
      → Fits dec f (facts_at s key).indicies
      → ((add_fact dec dec_rule has_body head_negated head_names key f s).1
          ≡ some (not (fact_in key f s)))
        × ((k : Text) (g : List A)
            → fact_in k g (add_fact dec dec_rule has_body head_negated head_names key f s).0
              ≡ ite
                  (Text-discrete key k)
                  (ite (List-discrete dec f g) true (fact_in k g s))
                  (fact_in k g s))
        × IsRuleSet (add_fact dec dec_rule has_body head_negated head_names key f s).0
  unfolding add_fact
  add_fact-has_fact key f s h fits =
      let (answer, contents, valid) = add-IsValid dec f (facts_at s key) (h key) fits in
      (
        ground (arith, answer, has_fact-facts_at key f s),
        λ k g. ground (
          arith,
          has_fact-facts_at k g (record s {
            facts = put Text-discrete s.facts key (FactSet.add dec f (facts_at s key)).0;
          }),
          has_fact-facts_at k g s,
          put_facts key (FactSet.add dec f (facts_at s key)).0 s k,
          contents g,
        ),
        put_facts-IsRuleSet key (FactSet.add dec f (facts_at s key)).0 s h valid,
      )

  abbrev pub removal : Text → RuleSet A R → FactSet A × Option Bool → RuleSet A R × Option Bool
  removal = after_removal dec dec_rule has_body head_negated head_names

  in_facts-nil :
      (g : List A) (facts : List (List A)) → is_nil facts ≡ true → in_facts dec g facts ≡ false
  unfolding member
  in_facts-nil g [] p = refl
  in_facts-nil g (x ∷ xs) p = ground arith

  -- A table without facts has the empty set.
  facts_at-removal :
      (key : Text) (s : RuleSet A R) (facts : FactSet A) (b : Bool) (k : Text) (g : List A)
      → in_facts dec g (facts_at (removal key s (facts, some b)).0 k).facts
        ≡ in_facts dec g (ite (Text-discrete key k) facts (facts_at s k)).facts
  unfolding member
  facts_at-removal key s facts b k g = elim (Bool-cases (is_nil facts.facts)) [
    | inl p ↦ ground (arith, remove_facts key s k, in_facts-nil g facts.facts p)
    | inr p ↦ ground (arith, put_facts key facts s k)
  ]

  removal-IsRuleSet :
      (key : Text) (s : RuleSet A R) (facts : FactSet A) (b : Bool)
      → IsRuleSet s
      → IsValid dec facts
      → IsRuleSet (removal key s (facts, some b)).0
  removal-IsRuleSet key s facts b h valid = elim (Bool-cases (is_nil facts.facts)) [
    | inl p ↦
        subst IsRuleSet
          (let w : record s { facts = remove Text-discrete s.facts key }
                ≡ (removal key s (facts, some b)).0 =
              ground (arith, p) in
            w)
          (remove_facts-IsRuleSet key s h)
    | inr p ↦
        subst IsRuleSet
          (let w : record s { facts = put Text-discrete s.facts key facts }
                ≡ (removal key s (facts, some b)).0 =
              ground (arith, p) in
            w)
          (put_facts-IsRuleSet key facts s h valid)
  ]

  -- the result of `discard_fact` where its set has the facts `facts`
  abbrev pub Discarded : Text → List A → RuleSet A R → RuleSet A R × Option Bool → Type 0
  Discarded key f s out =
      (out.1 ≡ some (fact_in key f s))
      × ((k : Text) (g : List A)
          → fact_in k g out.0
            ≡ ite (Text-discrete key k) (ite (List-discrete dec f g) false (fact_in k g s))
                (fact_in k g s))
      × IsRuleSet out.0

  removal-Discarded :
      (key : Text) (f : List A) (s : RuleSet A R) (facts : FactSet A)
      → IsRuleSet s
      → facts_at s key ≡ facts
      → Discarded key f s (removal key s (remove_fact dec f facts))
  removal-Discarded key f s facts h e =
      let (answer, contents, valid) =
        remove_fact-IsValid dec f facts (subst (IsValid dec) e (h key)) in
      subst (Discarded key f s)
        (ap (λ r. removal key s ((remove_fact dec f facts).0, r)) (sym answer))
        (
          ground (arith, has_fact-facts_at key f s),
          λ k g. ground (
            arith,
            has_fact-facts_at k g
                (removal key s ((remove_fact dec f facts).0, some (in_facts dec f facts.facts))).0,
            has_fact-facts_at k g s,
            facts_at-removal key s (remove_fact dec f facts).0 (in_facts dec f facts.facts) k g,
            contents g,
          ),
          removal-IsRuleSet key s (remove_fact dec f facts).0 (in_facts dec f facts.facts) h valid,
        )

  abbrev deletes : Text → List A → RuleSet A R → RuleSet A R × Option Bool
  deletes key f s = discard_fact dec dec_rule has_body head_negated head_names key f s

  pub discard_fact-absent :
      (key : Text) (f : List A) (s : RuleSet A R)
      → get Text-discrete s.facts key ≡ none
      → deletes key f s ≡ (s, some false)
  unfolding discard_fact
  discard_fact-absent key f s e = ground (arith, e)

  pub discard_fact-present :
      (key : Text) (f : List A) (s : RuleSet A R) (facts : FactSet A)
      → get Text-discrete s.facts key ≡ some facts
      → deletes key f s ≡ removal key s (remove_fact dec f facts)
  unfolding discard_fact
  discard_fact-present key f s facts e = ground (arith, e)

  absent-Discarded :
      (key : Text) (f : List A) (s : RuleSet A R)
      → IsRuleSet s
      → get Text-discrete s.facts key ≡ none
      → Discarded key f s (s, some false)
  unfolding member
  absent-Discarded key f s h e =
      (ground (arith, has_fact-facts_at key f s), λ k g. ground (arith, has_fact-facts_at k g s), h)

  pub discard_fact-has_fact :
      (key : Text) (f : List A) (s : RuleSet A R)
      → IsRuleSet s
      → Discarded key f s (deletes key f s)
  discard_fact-has_fact key f s h = elim (Option-cases (get Text-discrete s.facts key)) [
    | inl e ↦
        subst (Discarded key f s) (sym (discard_fact-absent key f s e))
          (absent-Discarded key f s h e)
    | inr (facts, e) ↦
        subst (Discarded key f s) (sym (discard_fact-present key f s facts e))
          (removal-Discarded key f s facts h (ground (arith, e)))
  ]
