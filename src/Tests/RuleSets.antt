-- ===== src/Tests/RuleSets.antt =====
-- The rule sets of congress/datalog/ruleset.py at concrete inputs. A rule is the list of its head's
-- values and of its body's.
use congress.Prelude.{
  ℕ, ℕ_discrete, Text, Text-discrete, List-discrete, ◌≡◌, refl, Bool, true, false, not, ◌&&◌, ◌||◌,
  ite, some, List, [], ◌∷◌, codes,
}
use congress.Sets.{member}
use congress.Dict.Base.{put, get}
use congress.Datalog.FactSet.{FactSet, compute_key, is_nil, add}
use congress.Datalog.FactSet.Create.{IsIndexed-nil}
use congress.Datalog.RuleSet.{RuleSet, Entry, fact, rule, add_rule, discard_rule, contains}
use congress.Datalog.RuleSet.Contents.{IsRuleSet, put_facts-IsRuleSet}
use congress.Datalog.RuleSet.Changes.{add_rule-contains, discard_rule-contains, alike}

abbrev Clause : Type 0
Clause = List (List ℕ)

abbrev clause_dec : Discrete Clause
clause_dec = List-discrete (List-discrete ℕ_discrete)

abbrev body_of : Clause → Bool
body_of [] = false
body_of (h ∷ b) = not (is_nil b)

abbrev no_negation : Clause → Bool
no_negation c = false

abbrev head_of : Clause → List ℕ
head_of [] = []
head_of (h ∷ b) = h

abbrev p : Text
p = codes "p"

abbrev no_rules : RuleSet ℕ Clause
no_rules = record { rules = []; facts = [] }

-- an index on the first column of p
abbrev indexed : FactSet ℕ
indexed = record { facts = []; indicies = (0 ∷ [], []) ∷ [] }

no_rules-IsRuleSet : IsRuleSet ℕ_discrete clause_dec body_of no_negation head_of no_rules
unfolding get
no_rules-IsRuleSet k = tt

abbrev start : RuleSet ℕ Clause
start = record no_rules { facts = put Text-discrete [] p indexed }

start-IsRuleSet : IsRuleSet ℕ_discrete clause_dec body_of no_negation head_of start
start-IsRuleSet =
    put_facts-IsRuleSet ℕ_discrete clause_dec body_of no_negation head_of p indexed no_rules
      no_rules-IsRuleSet (IsIndexed-nil ℕ_discrete (0 ∷ []), tt)

-- p(1, 2) as a rule without a body
abbrev p12 : Entry ℕ Clause
p12 = rule ((1 ∷ 2 ∷ []) ∷ [])

add_rule-contains_example :
    ((add_rule ℕ_discrete clause_dec body_of no_negation head_of p p12 start).1
      ≡ some (not (contains ℕ_discrete clause_dec body_of no_negation head_of p p12 start)))
    × ((k : Text) (e' : Entry ℕ Clause)
        → contains ℕ_discrete clause_dec body_of no_negation head_of k e'
            (add_rule ℕ_discrete clause_dec body_of no_negation head_of p p12 start).0
          ≡ ite
              (Text-discrete p k)
              (alike ℕ_discrete clause_dec body_of no_negation head_of p12 e'
                || contains ℕ_discrete clause_dec body_of no_negation head_of k e' start)
              (contains ℕ_discrete clause_dec body_of no_negation head_of k e' start))
    × IsRuleSet ℕ_discrete clause_dec body_of no_negation head_of
        (add_rule ℕ_discrete clause_dec body_of no_negation head_of p p12 start).0
unfolding get put Text-discrete compute_key
add_rule-contains_example =
    add_rule-contains ℕ_discrete clause_dec body_of no_negation head_of p p12 start refl refl
      start-IsRuleSet (refl, tt)

abbrev added : RuleSet ℕ Clause
added = (add_rule ℕ_discrete clause_dec body_of no_negation head_of p p12 start).0

added-IsRuleSet : IsRuleSet ℕ_discrete clause_dec body_of no_negation head_of added
unfolding get put compute_key Text-discrete
added-IsRuleSet =
    (add_rule-contains ℕ_discrete clause_dec body_of no_negation head_of p p12 start refl refl
      start-IsRuleSet (refl, tt)).2

-- p(1, 2) is answered True once, and is a fact
added_once :
    ((add_rule ℕ_discrete clause_dec body_of no_negation head_of p p12 start).1 ≡ some true)
    × ((add_rule ℕ_discrete clause_dec body_of no_negation head_of p p12 added).1 ≡ some false)
    × (contains ℕ_discrete clause_dec body_of no_negation head_of p (fact (1 ∷ 2 ∷ [])) added
        ≡ true)
unfolding add_rule add member get put Text-discrete compute_key contains
added_once = (refl, refl, refl)

discard_rule-contains_example :
    ((discard_rule ℕ_discrete clause_dec body_of no_negation head_of p p12 added).1
      ≡ some (contains ℕ_discrete clause_dec body_of no_negation head_of p p12 added))
    × ((k : Text) (e' : Entry ℕ Clause)
        → contains ℕ_discrete clause_dec body_of no_negation head_of k e'
            (discard_rule ℕ_discrete clause_dec body_of no_negation head_of p p12 added).0
          ≡ ite
              (Text-discrete p k)
              (not (alike ℕ_discrete clause_dec body_of no_negation head_of p12 e')
                && contains ℕ_discrete clause_dec body_of no_negation head_of k e' added)
              (contains ℕ_discrete clause_dec body_of no_negation head_of k e' added))
    × IsRuleSet ℕ_discrete clause_dec body_of no_negation head_of
        (discard_rule ℕ_discrete clause_dec body_of no_negation head_of p p12 added).0
discard_rule-contains_example =
    discard_rule-contains ℕ_discrete clause_dec body_of no_negation head_of p p12 added refl
      added-IsRuleSet

-- A bodyless rule with a negated head is put among the rules, and looked for among the facts.
negated_fact_lost :
    ((add_rule ℕ_discrete clause_dec body_of (λ c. true) head_of p p12 no_rules).1 ≡ some true)
    × (contains ℕ_discrete clause_dec body_of
          (λ c. true)
          head_of
          p
          p12
          (add_rule ℕ_discrete clause_dec body_of (λ c. true) head_of p p12 no_rules).0
        ≡ false)
unfolding add_rule get contains
negated_fact_lost = (refl, refl)
