-- ===== src/Datalog/References.antt =====
-- congress/datalog/compile.py: `Literal.eliminate_column_references_and_pad_positional`, which turns
-- arguments that are given by a column's name or number into positional ones. `prefix` is that of the
-- names of the variables that it makes.
pub mod Positions
pub mod Padding
pub mod Columns
pub mod Fresh
use congress.Prelude.{
  ℕ, zero, suc, ◌+◌, ◌-◌, ltb, leb, ℕ_discrete, Text, Text-discrete, Bool, true, false, not, Option,
  none, some, List, [], ◌∷◌, ◌++◌, length, get_elem?, get_or, is_some, codes, decimal,
  if◌then◌else◌,
}
use congress.Dict.Base.{Dict, get, put, has}
use congress.Sets.{member}
use congress.Datalog.Tablename.{text_eq}
use congress.Datalog.Schema.{
  Schema, ColumnRef, by_name, by_position, TableColumns, names, descriptions, Description, columns,
  arity, column_number,
}
use congress.Datalog.Formula.{Term, variable, Literal}
use congress.Datalog.Consistency.{Theory, Theories, literal_theory}

-- what `column_name` returns for a number: an entry of the table's columns, which may be a dict
pub data ColumnEntry : Type 0 where
  plain : Text → ColumnEntry
  described : Description → ColumnEntry

-- `self.map[tablename][column]`
unfoldable pub entry_at : TableColumns → ℕ → Option ColumnEntry
entry_at (names ns) i = elim (get_elem? ns i) [ none ↦ none | some n ↦ some (plain n) ]
entry_at (descriptions ds) i = elim (get_elem? ds i) [ none ↦ none | some d ↦ some (described d) ]

unfoldable pub column_name : Schema → Text → ColumnRef → Option ColumnEntry
unfolding entry_at
column_name s t ref = elim (get Text-discrete s.tables t) [
  | none ↦ none
  | some c ↦ elim ref [
    | by_name x ↦ if member Text-discrete x (get_or (columns s t) []) then some (plain x) else none
    | by_position i ↦ entry_at c i
  ]
]

pub data ColumnError : Type 0 where
  no_such_column : Text → ColumnError
  too_large : ℕ → ColumnError
  provided_by_position : ColumnRef → ColumnError
  referenced_otherwise : ColumnRef → ColumnError
  referenced_twice : ColumnRef → ColumnError

-- the exceptions: IncompleteSchemaException for what is unknown, TypeError for a dict as a key
pub data ReferenceFault : Type 0 where
  schema_unknown table_unknown not_datasource unhashable : ReferenceFault
  conflicts : List ColumnError → ReferenceFault

pub data Outcome (A : Type 0) : Type 0 where
  returns : A → Outcome A
  raises : ReferenceFault → Outcome A

-- `"%s%s" % (prefix, i)`
abbrev pub fresh_name : Text → ℕ → Text
fresh_name prefix i = prefix ++ decimal i

-- the local variables of the loop
pub record Resolution (V : Type 0) : Type 0 where
  pub errors : List ColumnError
  pub term_index : Dict ℕ (Term V)

-- `if test: errors.append(error)`
abbrev pub error_if : Bool → ColumnError → List ColumnError
error_if true e = e ∷ []
error_if false e = []

unfoldable pub ColumnRef-discrete : Discrete ColumnRef
unfolding Text-discrete
ColumnRef-discrete = hlevel (ℕ_discrete)

module _ {V : Type 0} where
  -- `name in self.named_arguments`; `none` is a TypeError
  unfoldable pub name_in : Option ColumnEntry → Dict ColumnRef (Term V) → Option Bool
  name_in none named = some false
  name_in (some (plain x)) named = some (has ColumnRef-discrete named (by_name x))
  name_in (some (described d)) named = none

  -- the name of column `index` is a reference
  unfoldable pub note_name : Literal V → Text → ℕ → Term V → Resolution V → Resolution V
  note_name l col index arg s = record {
    errors =
        s.errors
        ++ (error_if (ltb index (length l.arguments)) (provided_by_position (by_name col))
            ++ (error_if (has ColumnRef-discrete l.named_arguments (by_position index))
                  (referenced_otherwise (by_name col))
                ++ error_if (has ℕ_discrete s.term_index index) (referenced_twice (by_name col))));
    term_index = put ℕ_discrete s.term_index index arg;
  }

  -- the loop's body for the name of a column
  unfoldable pub resolve_name : Schema → Literal V → Text → Term V → Resolution V → Resolution V
  unfolding note_name
  resolve_name schema l col arg s = elim (column_number schema l.table.table (by_name col)) [
    | none ↦ record s { errors = s.errors ++ no_such_column col ∷ [] }
    | some index ↦ note_name l col index arg s
  ]

  -- the number of a column is a reference; `named` is whether its name is one, too
  unfoldable pub note_position : Literal V → ℕ → ℕ → Bool → Term V → Resolution V → Resolution V
  note_position l width col named arg s = record {
    errors =
        s.errors
        ++ (error_if (leb width col) (too_large col)
            ++ (error_if (ltb col (length l.arguments)) (provided_by_position (by_position col))
                ++ (error_if named (referenced_otherwise (by_position col))
                    ++ error_if (has ℕ_discrete s.term_index col)
                        (referenced_twice (by_position col)))));
    term_index = put ℕ_discrete s.term_index col arg;
  }

  -- the loop's body for the number of a column
  unfoldable pub resolve_position :
      Schema → Literal V → ℕ → Term V → Resolution V → Option (Resolution V)
  unfolding note_position name_in column_name
  resolve_position schema l col arg s =
      elim (name_in (column_name schema l.table.table (by_position col)) l.named_arguments) [
        | none ↦ none
        | some named ↦
            some (note_position l (get_or (arity schema l.table.table) 0) col named arg s)
      ]

  unfoldable pub resolve_all :
      Schema → Literal V → Dict ColumnRef (Term V) → Resolution V → Option (Resolution V)
  unfolding resolve_name resolve_position
  resolve_all schema l [] s = some s
  resolve_all schema l ((by_name col, arg) ∷ named) s =
      resolve_all schema l named (resolve_name schema l col arg s)
  resolve_all schema l ((by_position col, arg) ∷ named) s =
      elim (resolve_position schema l col arg s) [
        | none ↦ none
        | some s' ↦ resolve_all schema l named s'
      ]

  module _ (prefix : Text) where
    -- the terms for the columns from `i` on
    unfoldable pub pad : Dict ℕ (Term V) → ℕ → ℕ → List (Term V)
    pad term_index i zero = []
    pad term_index i (suc n) =
        get_or (get ℕ_discrete term_index i) (variable (fresh_name prefix i))
        ∷ pad term_index (i + 1) n

    abbrev pub positional : Schema → Literal V → Dict ℕ (Term V) → Literal V
    positional schema l term_index = record l {
      arguments =
          l.arguments
          ++ pad term_index (length l.arguments)
              (get_or (arity schema l.table.table) 0 - length l.arguments);
      named_arguments = [];
    }

    -- a literal without column references
    unfoldable pub pad_positional : Literal V → Option Theories → Option Text → Literal V
    unfolding pad
    pad_positional l theories default_theory = elim (literal_theory l theories default_theory) [
      | none ↦ l
      | some theory ↦ elim theory.schema [
        | none ↦ l
        | some schema ↦
            if has Text-discrete schema.tables l.table.table then positional schema l [] else l
      ]
    ]

    -- a literal with column references
    unfoldable pub eliminate_references :
        Literal V → Option Theories → Option Text → Outcome (Literal V)
    unfolding resolve_all pad
    eliminate_references l theories default_theory =
        elim (literal_theory l theories default_theory) [
          | none ↦ raises schema_unknown
          | some theory ↦ elim theory.schema [
            | none ↦ raises schema_unknown
            | some schema ↦
                if not (text_eq theory.kind (codes "datasource"))
                then raises not_datasource
                else if not (has Text-discrete schema.tables l.table.table)
                then raises table_unknown
                else elim (resolve_all schema l l.named_arguments
                    (record { errors = []; term_index = [] })) [
                      | none ↦ raises unhashable
                      | some s ↦ elim s.errors [
                        | [] ↦ returns (positional schema l s.term_index)
                        | e ∷ es ↦ raises (conflicts s.errors)
                      ]
                    ]
          ]
        ]

    unfoldable pub eliminate_column_references_and_pad_positional :
        Literal V → Option Theories → Option Text → Outcome (Literal V)
    unfolding eliminate_references pad_positional
    eliminate_column_references_and_pad_positional l theories default_theory =
        elim l.named_arguments [
          | [] ↦ returns (pad_positional l theories default_theory)
          | a ∷ named ↦ eliminate_references l theories default_theory
        ]
