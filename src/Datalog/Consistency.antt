-- ===== src/Datalog/Consistency.antt =====
-- congress/datalog/compile.py: which theory a literal belongs to, and whether it fits the theory's
-- schema. Of a theory, this code reads the name, the kind and the schema.
use congress.Prelude.{
  ◌==◌, Text, Text-discrete, not, ◌&&◌, Option, none, some, List, [], ◌∷◌, ◌++◌, length,
  if◌then◌else◌,
}
use congress.Dict.Base.{Dict, get, has}
use congress.Datalog.Schema.{Schema, arity}
use congress.Datalog.Tablename.{or_default}
use congress.Datalog.Formula.{Literal, Rule, heads}

pub record Theory : Type 0 where
  pub name : Text
  pub kind : Text
  pub schema : Option Schema

abbrev pub Theories : Type 0
Theories = Dict Text Theory

-- the exceptions that the checks of a formula collect
pub data SyntaxError (V : Type 0) : Type 0 where
  fact_not_ground : Literal V → SyntaxError V
  builtin_name : Literal V → SyntaxError V
  fact_with_theory : Literal V → SyntaxError V
  unsafe_head_variable : Text → SyntaxError V
  modal_not_permitted : Literal V → SyntaxError V
  several_heads_with_modal : SyntaxError V
  modal_in_body : Literal V → SyntaxError V
  head_with_theory : Literal V → SyntaxError V
  unsafe_body : SyntaxError V
  unknown_table : Literal V → SyntaxError V
  wrong_width : Literal V → SyntaxError V

module _ {V : Type 0} where
  unfoldable pub literal_theory : Literal V → Option Theories → Option Text → Option Theory
  literal_theory l none default_theory = none
  literal_theory l (some theories) default_theory =
      elim (or_default l.table.service default_theory) [
        | none ↦ none
        | some active_theory ↦ get Text-discrete theories active_theory
      ]

  unfoldable pub literal_schema : Literal V → Option Theories → Option Text → Option Schema
  unfolding literal_theory
  literal_schema l theories default_theory = elim (literal_theory l theories default_theory) [
    | none ↦ none
    | some theory ↦ theory.schema
  ]

  -- against a schema that is known
  unfoldable pub literal_fits : Literal V → Schema → List (SyntaxError V)
  unfolding arity
  literal_fits l schema =
      if schema.complete && not (has Text-discrete schema.tables l.table.table)
      then unknown_table l ∷ []
      else elim (arity schema l.table.table) [
        | none ↦ []
        | some n ↦ if length l.arguments == n then [] else wrong_width l ∷ []
      ]

  unfoldable pub literal_schema_consistency :
      Literal V → Option Theories → Option Text → List (SyntaxError V)
  unfolding literal_fits
  literal_schema_consistency l none theory = []
  literal_schema_consistency l (some theories) theory = elim l.named_arguments [
    | a ∷ as' ↦ []
    | [] ↦ elim (or_default l.table.service theory) [
      | none ↦ []
      | some active_theory ↦ elim (get Text-discrete theories active_theory) [
        | none ↦ []
        | some found ↦ elim found.schema [ none ↦ [] | some schema ↦ literal_fits l schema ]
      ]
    ]
  ]

  -- the errors of some literals
  unfoldable pub all_consistency :
      List (Literal V) → Option Theories → Option Text → List (SyntaxError V)
  unfolding literal_schema_consistency
  all_consistency [] theories theory = []
  all_consistency (l ∷ ls) theories theory =
      literal_schema_consistency l theories theory ++ all_consistency ls theories theory

  -- `check_schema_consistency` of a rule; of a literal it is `literal_schema_consistency`
  unfoldable pub check_schema_consistency :
      Rule V → Option Theories → Option Text → List (SyntaxError V)
  unfolding all_consistency
  check_schema_consistency r theories theory =
      all_consistency (heads r) theories theory ++ all_consistency r.body theories theory

  unfoldable pub rule_schema_consistency :
      Rule V → Option Theories → Option Text → List (SyntaxError V)
  unfolding all_consistency
  rule_schema_consistency r theories theory = all_consistency r.body theories theory
