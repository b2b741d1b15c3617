-- ===== src/Datalog/Formula.antt =====
-- congress/datalog/compile.py: terms, literals and rules. A constant holds a value of any type `V`
-- (a text or a number), with the type that it was read as. What a formula carries besides, such
-- as its location, identifier and comment, plays no part in these operations and is left out.
use congress.Prelude.{
  Text, Text-discrete, Bool, true, false, not, ◌&&◌, Option, List, [], ◌∷◌, map, get_or,
  if◌then◌else◌,
}
use congress.Sets.{insert, union}
use congress.Dict.Base.{Dict, get}
use congress.Datalog.Schema.{ColumnRef}
use congress.Datalog.Tablename
use congress.Datalog.Tablename.{Tablename}

pub data ConstantType : Type 0 where
  string float integer : ConstantType

pub data Term (V : Type 0) : Type 0 where
  variable : Text → Term V
  constant : V → ConstantType → Term V

pub record Literal (V : Type 0) : Type 0 where
  pub table : Tablename
  pub arguments : List (Term V)
  pub negated : Bool
  pub named_arguments : Dict ColumnRef (Term V)

-- `head` is the first of `heads`
pub record Rule (V : Type 0) : Type 0 where
  pub head : Literal V
  pub more_heads : List (Literal V)
  pub body : List (Literal V)

module _ {V : Type 0} where
  unfoldable pub heads : Rule V → List (Literal V)
  heads r = r.head ∷ r.more_heads

  unfoldable pub is_variable : Term V → Bool
  is_variable (variable x) = true
  is_variable (constant v k) = false

  unfoldable pub variables_in : List (Term V) → List Text
  variables_in [] = []
  variables_in (variable x ∷ ts) = let rest = variables_in ts in insert Text-discrete x rest
  variables_in (constant v k ∷ ts) = variables_in ts

  -- `variable_names`; `variables` is the same set, of variables in place of their names
  unfoldable pub variable_names : Literal V → List Text
  unfolding variables_in
  variable_names l = variables_in l.arguments

  unfoldable pub no_variables : List (Term V) → Bool
  no_variables [] = true
  no_variables (t ∷ ts) = not (is_variable t) && no_variables ts

  unfoldable pub is_ground : Literal V → Bool
  unfolding no_variables
  is_ground l = no_variables l.arguments

  unfoldable pub is_atom : Literal V → Bool
  is_atom l = not l.negated

  unfoldable pub complement : Literal V → Literal V
  complement l = record l { negated = not l.negated }

  unfoldable pub make_positive : Literal V → Literal V
  make_positive l = if l.negated then record l { negated = false } else l

  -- `_modify_table`
  unfoldable pub modify_table : (Tablename → Tablename × Bool) → Literal V → Literal V
  modify_table func l =
      let (newtable, is_different) = func l.table in
      if is_different then record l { table = newtable } else l

  unfoldable pub invert_update : Literal V → Literal V
  invert_update = modify_table Tablename.invert_update

  unfoldable pub drop_update : Literal V → Literal V
  drop_update = modify_table Tablename.drop_update

  unfoldable pub make_update : Bool → Literal V → Literal V
  make_update is_insert = modify_table (Tablename.make_update is_insert)

  unfoldable pub is_update : Literal V → Bool
  is_update l = Tablename.is_update l.table

  unfoldable pub tablename : Option Text → Literal V → Text
  tablename default_service l = Tablename.name default_service l.table

  unfoldable pub theory_name : Literal V → Option Text
  theory_name l = l.table.service

  unfoldable pub drop_theory : Literal V → Literal V
  drop_theory l = record l { table = Tablename.drop_service l.table }

  -- the variables of some literals
  unfoldable pub names_of_all : List (Literal V) → List Text
  names_of_all [] = []
  names_of_all (l ∷ ls) = union Text-discrete (names_of_all ls) (variable_names l)

  unfoldable pub rule_variable_names : Rule V → List Text
  rule_variable_names r = union Text-discrete (names_of_all (heads r)) (names_of_all r.body)

  unfoldable pub on_heads : (Literal V → Literal V) → Rule V → Rule V
  on_heads f r = record r { head = f r.head; more_heads = map f r.more_heads }

  unfoldable pub rule_invert_update : Rule V → Rule V
  rule_invert_update = on_heads invert_update

  unfoldable pub rule_drop_update : Rule V → Rule V
  rule_drop_update = on_heads drop_update

  unfoldable pub rule_make_update : Bool → Rule V → Rule V
  rule_make_update is_insert = on_heads (make_update is_insert)

  unfoldable pub rule_is_update : Rule V → Bool
  rule_is_update r = is_update r.head

  unfoldable pub rule_drop_theory : Rule V → Rule V
  rule_drop_theory = on_heads drop_theory

module _ {V : Type 0} (dec : Discrete (Term V)) where
  -- `plug` of a dict of terms
  unfoldable pub plug_terms : Dict (Term V) (Term V) → List (Term V) → List (Term V)
  plug_terms binding = map (λ arg. get_or (get dec binding arg) arg)

  unfoldable pub plug : Dict (Term V) (Term V) → Literal V → Literal V
  plug binding l = record l { arguments = plug_terms binding l.arguments }

  unfoldable pub rule_plug : Dict (Term V) (Term V) → Rule V → Rule V
  rule_plug binding r = record {
    head = plug binding r.head;
    more_heads = map (plug binding) r.more_heads;
    body = map (plug binding) r.body;
  }
