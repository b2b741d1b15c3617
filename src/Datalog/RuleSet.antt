-- ===== src/Datalog/RuleSet.antt =====
-- congress/datalog/ruleset.py: `RuleSet`, the facts and the rules of each table. A rule is a value
-- of any type `R` whose equality is that of the code, which does not look at the order of heads
-- and bodies; `has_body`, `head_negated` and `head_names` are what is read of it. A fact is the list
-- of its values. Where a method raises, the state that it leaves comes beside the missing result.
pub mod Bodies
pub mod Changes
pub mod Contents
pub mod Entries
use congress.Prelude.{
  ℕ, ◌+◌, Text, Text-discrete, List-discrete, Bool, true, false, not, ◌&&◌, ◌||◌, Option, none,
  some, List, [], ◌∷◌, ◌++◌, map, get_or, if◌then◌else◌,
}
use congress.Sets.{member, insert, discard}
use congress.Dict.Base.{Dict, get, put, remove, has, keys}
use congress.Datalog.FactSet
use congress.Datalog.FactSet.{FactSet, Columns, has_index, create_index, find, remove_fact, is_nil}

pub record RuleSet (A R : Type 0) : Type 0 where
  pub rules : Dict Text (List R)
  pub facts : Dict Text (FactSet A)

-- what `add_rule`, `discard_rule` and `contains` take; `literal` is by its argument names
pub data Entry (A R : Type 0) : Type 0 where
  fact : List A → Entry A R
  literal : List A → Entry A R
  rule : R → Entry A R

-- a literal to match: its arguments, without a value where they are variables
pub record Pattern (A : Type 0) : Type 0 where
  pub negated : Bool
  pub arguments : List (Option A)

abbrev pub no_facts : {A : Type 0} → FactSet A
no_facts = record { facts = []; indicies = [] }

-- `(i, arg.name)` of the arguments that are no variables, from number `i` on
unfoldable pub partial_fact : {A : Type 0} → ℕ → List (Option A) → List (ℕ × A)
partial_fact i [] = []
partial_fact i (none ∷ as') = partial_fact (i + 1) as'
partial_fact i (some a ∷ as') = (i, a) ∷ partial_fact (i + 1) as'

module _ {A R : Type 0} (dec : Discrete A) (dec_rule : Discrete R)
    (has_body head_negated : R → Bool) (head_names : R → List A) where
  unfoldable pub add_fact : Text → List A → RuleSet A R → RuleSet A R × Option Bool
  add_fact key f s =
      let (facts, result) = FactSet.add dec f (get_or (get Text-discrete s.facts key) no_facts) in
      (record s { facts = put Text-discrete s.facts key facts }, result)

  unfoldable pub add_plain_rule : Text → R → RuleSet A R → RuleSet A R × Option Bool
  add_plain_rule key r s = elim (get Text-discrete s.rules key) [
    | none ↦ (record s { rules = put Text-discrete s.rules key (r ∷ []) }, some true)
    | some rs ↦ (
      record s { rules = put Text-discrete s.rules key (insert dec_rule r rs) },
      some (not (member dec_rule r rs)),
    )
  ]

  -- a literal is neither a Fact nor a Rule: an AttributeError
  unfoldable pub add_rule : Text → Entry A R → RuleSet A R → RuleSet A R × Option Bool
  unfolding add_fact add_plain_rule
  add_rule key (fact f) s = add_fact key f s
  add_rule key (literal f) s = (s, none)
  add_rule key (rule r) s =
      if not (has_body r) && not (head_negated r)
      then add_fact key (head_names r) s
      else add_plain_rule key r s

  -- the result of removing a fact from the set of its table
  abbrev pub after_removal :
      Text → RuleSet A R → FactSet A × Option Bool → RuleSet A R × Option Bool
  after_removal key s (facts, none) =
      (record s { facts = put Text-discrete s.facts key facts }, none)
  after_removal key s (facts, some changed) = (
    (if is_nil facts.facts
        then record s { facts = remove Text-discrete s.facts key }
        else record s { facts = put Text-discrete s.facts key facts }),
    some changed,
  )

  unfoldable pub discard_fact : Text → List A → RuleSet A R → RuleSet A R × Option Bool
  discard_fact key f s = elim (get Text-discrete s.facts key) [
    | none ↦ (s, some false)
    | some facts ↦ after_removal key s (remove_fact dec f facts)
  ]

  unfoldable pub discard_plain_rule : Text → R → RuleSet A R → RuleSet A R × Option Bool
  discard_plain_rule key r s = elim (get Text-discrete s.rules key) [
    | none ↦ (s, some false)
    | some rs ↦ (
      (if is_nil (discard dec_rule r rs)
          then record s { rules = remove Text-discrete s.rules key }
          else record s { rules = put Text-discrete s.rules key (discard dec_rule r rs) }),
      some (member dec_rule r rs),
    )
  ]

  unfoldable pub discard_rule : Text → Entry A R → RuleSet A R → RuleSet A R × Option Bool
  unfolding discard_fact discard_plain_rule
  discard_rule key (fact f) s = discard_fact key f s
  discard_rule key (literal f) s = (s, none)
  discard_rule key (rule r) s =
      if not (has_body r) then discard_fact key (head_names r) s else discard_plain_rule key r s

  unfoldable pub has_fact : Text → List A → RuleSet A R → Bool
  has_fact key f s = elim (get Text-discrete s.facts key) [
    | none ↦ false
    | some facts ↦ member (List-discrete dec) f facts.facts
  ]

  unfoldable pub has_rule : Text → R → RuleSet A R → Bool
  has_rule key r s = elim (get Text-discrete s.rules key) [
    | none ↦ false
    | some rs ↦ member dec_rule r rs
  ]

  unfoldable pub contains : Text → Entry A R → RuleSet A R → Bool
  unfolding has_fact has_rule
  contains key (fact f) s = has_fact key f s
  contains key (literal f) s = has_fact key f s
  contains key (rule r) s =
      if not (has_body r) then has_fact key (head_names r) s else has_rule key r s

  unfoldable pub table_keys : RuleSet A R → List Text
  table_keys s = keys s.facts ++ keys s.rules

  unfoldable pub has_key : Text → RuleSet A R → Bool
  has_key key s = has Text-discrete s.facts key || has Text-discrete s.rules key

  -- the facts that match, by an index that is made if it is missing; `none` is an exception
  unfoldable pub find_facts : List (Option A) → FactSet A → FactSet A × Option (List (List A))
  unfolding partial_fact
  find_facts arguments facts =
      let partial = partial_fact 0 arguments in
      let bound_arguments : Columns = map (λ (e : ℕ × A). e.0) partial in
      let made : FactSet A × Option (Unit {0}) =
        if not (is_nil bound_arguments) && not (has_index bound_arguments facts)
        then create_index dec bound_arguments facts
        else (facts, some tt) in
      elim made.1 [
        | none ↦ (made.0, none)
        | some _ ↦ elim (find dec partial made.0) [
          | none ↦ (made.0, none)
          | some found ↦ (made.0, some found.0)
        ]
      ]

  -- the facts, which the code turns into rules without a body, and the rules
  unfoldable pub get_rules :
      Text → Option (Pattern A) → RuleSet A R → RuleSet A R × Option (List (List A) × List R)
  unfolding find_facts
  get_rules key match_literal s =
      let rules = get_or (get Text-discrete s.rules key) [] in
      let all : RuleSet A R × Option (List (List A) × List R) =
        (s, some ((get_or (get Text-discrete s.facts key) no_facts).facts, rules)) in
      elim match_literal [
        | none ↦ all
        | some l ↦ if l.negated then all else elim (get Text-discrete s.facts key) [
          | none ↦ all
          | some facts ↦
              let found = find_facts l.arguments facts in
              (
                record s { facts = put Text-discrete s.facts key found.0 },
                elim found.1 [ none ↦ none | some fs ↦ some (fs, rules) ],
              )
        ]
      ]

  unfoldable pub clear : RuleSet A R → RuleSet A R
  clear s = record { rules = []; facts = [] }

  unfoldable pub clear_table : Text → RuleSet A R → RuleSet A R
  clear_table table s = record {
    rules = put Text-discrete s.rules table [];
    facts = put Text-discrete s.facts table no_facts;
  }
