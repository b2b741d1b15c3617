-- ===== src/Tests/References.antt =====
-- Column references of congress/datalog/compile.py at concrete inputs.
use congress.Dict.Base.{put, get}
use congress.Prelude.{
  ℕ, Text, ◌≡◌, refl, inl, inr, ◌++◌, arith, decimal, false, Option, none, some, List, [], ◌∷◌,
  codes, Text-discrete,
}
use congress.Datalog.Tablename.{text_eq, or_default}
use congress.Datalog.Schema.{
  Schema, ColumnRef, by_name, by_position, names, descriptions, arity, column_names, columns,
  index_of, column_number,
}
use congress.Datalog.Formula.{Term, variable, constant, integer, Literal}
use congress.Datalog.Consistency.{Theory, Theories, literal_theory}
use congress.Datalog.References.{
  returns, raises, unhashable, eliminate_column_references_and_pad_positional, ColumnRef-discrete,
}
use congress.Datalog.References.Fresh.{IsUnused}
use congress.Datalog.References.Columns.{
  IsPositional, eliminate_column_references_and_pad_positional-IsPositional,
}

abbrev servers : Text
servers = codes "servers"

abbrev nova : Text
nova = codes "nova"

abbrev by_names : Schema
by_names = record {
  tables = (servers, names (codes "id" ∷ codes "name" ∷ codes "status" ∷ [])) ∷ [];
  count = none;
  complete = false;
}

abbrev by_descriptions : Schema
by_descriptions = record {
  tables = (servers, descriptions (record { column = codes "id"; desc = [] } ∷ [])) ∷ [];
  count = none;
  complete = false;
}

abbrev theory : Schema → Theory
theory s = record { name = nova; kind = codes "datasource"; schema = some s }

abbrev theories : Schema → Option Theories
theories s = some ((nova, theory s) ∷ [])

abbrev prefix : Text
prefix = codes "x"

abbrev literal : List (Term ℕ) → List (ColumnRef × Term ℕ) → Literal ℕ
literal arguments named = record {
  table = record { service = some nova; table = servers; modal = none };
  arguments = arguments;
  negated = false;
  named_arguments = named;
}

-- nova:servers(a, status=7)
abbrev referring : Literal ℕ
referring =
    literal (variable (codes "a") ∷ []) ((by_name (codes "status"), constant 7 integer) ∷ [])

-- nova:servers(a, x1, 7)
abbrev positioned : Literal ℕ
positioned = literal (variable (codes "a") ∷ variable (codes "x1") ∷ constant 7 integer ∷ []) []

positioned_run :
    eliminate_column_references_and_pad_positional prefix referring (theories by_names) none
    ≡ returns positioned
unfolding eliminate_column_references_and_pad_positional literal_theory or_default get Text-discrete
    text_eq column_number columns index_of column_names ColumnRef-discrete arity put decimal
positioned_run = refl

-- A number that refers to a column of a data source raises a TypeError.
number_run :
    eliminate_column_references_and_pad_positional prefix
      (literal [] ((by_position 0, constant 7 integer) ∷ []))
      (theories by_descriptions)
      none
    ≡ raises unhashable
unfolding eliminate_column_references_and_pad_positional literal_theory or_default get Text-discrete
    text_eq
number_run = refl

found_theory : literal_theory referring (theories by_names) none ≡ some (theory by_names)
unfolding literal_theory or_default get Text-discrete
found_theory = refl

width : arity by_names servers ≡ some 3
unfolding arity get Text-discrete
width = refl

variable-a : (x : Text) → Path (Term ℕ) (variable x) (variable (codes "a")) → x ≡ codes "a"
variable-a x h = cc

other_constant : (x : Text) → Path (Term ℕ) (variable x) (constant 7 integer) → ⊥
other_constant x h = cc

prefix-IsUnused : IsUnused prefix referring
prefix-IsUnused = record {
  by_place = λ y. elim [ inl h ↦ (let e = variable-a (prefix ++ y) h in ground arith) | inr h ↦ h ];
  by_reference = λ y. elim [ inl h ↦ other_constant (prefix ++ y) h | inr h ↦ h ];
}

eliminate_column_references_and_pad_positional-IsPositional_example :
    IsPositional prefix by_names referring positioned 3
eliminate_column_references_and_pad_positional-IsPositional_example =
    eliminate_column_references_and_pad_positional-IsPositional prefix referring positioned
      (theories by_names) none (theory by_names) by_names 3 positioned_run found_theory refl width
      prefix-IsUnused
