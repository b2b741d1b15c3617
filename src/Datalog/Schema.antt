-- ===== src/Datalog/Schema.antt =====
-- congress/datalog/compile.py: `Schema`, the columns of each table, and how often each table is
-- used. `col` stands for the column names "Col0", "Col1", … that a new table gets. An item is what
-- `update` reads of a fact or a literal.
pub mod Insertions
pub mod Reverts
pub mod Positions
use congress.Prelude.{
  ℕ, zero, suc, ◌+◌, ◌-◌, ltb, Text, Text-discrete, Bool, true, false, Option, none, some, List, [],
  ◌∷◌, map, length, ite, is_some, if◌then◌else◌,
}
use congress.Dict.Base.{Dict, get, put, remove, has}

-- the dict of a column of a data source's table, as far as it is read here
pub record Description : Type 0 where
  pub column : Text
  pub desc : Text

-- the columns of a table, given by names or by descriptions
pub data TableColumns : Type 0 where
  names : List Text → TableColumns
  descriptions : List Description → TableColumns

pub record Schema : Type 0 where
  pub tables : Dict Text TableColumns
  pub count : Option (Dict Text ℕ)
  pub complete : Bool

pub record Item : Type 0 where
  pub table : Text
  pub width : ℕ
  pub service : Option Text

-- `(tablename, columns, inserted, theory)`
pub record Change : Type 0 where
  pub table : Text
  pub columns : Option TableColumns
  pub inserted : Bool
  pub service : Option Text

abbrev pub change_of : Item → Bool → Option TableColumns → Change
change_of item inserted c = record {
  table = item.table;
  columns = c;
  inserted = inserted;
  service = item.service;
}

-- `_col`
unfoldable pub column_names : TableColumns → List Text
column_names (names ns) = ns
column_names (descriptions ds) = map (λ (d : Description). d.column) ds

abbrev pub width_of : TableColumns → ℕ
width_of (names ns) = length ns
width_of (descriptions ds) = length ds

unfoldable pub columns : Schema → Text → Option (List Text)
columns s t = elim (get Text-discrete s.tables t) [ none ↦ none | some c ↦ some (column_names c) ]

unfoldable pub arity : Schema → Text → Option ℕ
arity s t = elim (get Text-discrete s.tables t) [ none ↦ none | some c ↦ some (width_of c) ]

-- `[f(i) for i in range(0, n)]`, from `i` on
unfoldable pub range_map : (ℕ → Text) → ℕ → ℕ → List Text
range_map col i zero = []
range_map col i (suc n) = col i ∷ range_map col (i + 1) n

module _ (col : ℕ → Text) where
  -- the insertion into a schema that counts
  unfoldable pub update_insert : Item → Dict Text ℕ → Schema → Option (Schema × Option Change)
  update_insert item counts s =
      let new = names (range_map col 0 item.width) in
      if has Text-discrete s.tables item.table
      then elim (get Text-discrete counts item.table) [
        | none ↦ none
        | some n ↦ some (
          record s { count = some (put Text-discrete counts item.table (n + 1)) },
          some (change_of item true none),
        )
      ]
      else some (
        record s {
          tables = put Text-discrete s.tables item.table new;
          count = some (put Text-discrete counts item.table 1);
        },
        some (change_of item true (some new)),
      )

  -- the deletion; a table that is absent is only logged
  unfoldable pub update_delete : Item → Dict Text ℕ → Schema → Option (Schema × Option Change)
  update_delete item counts s = elim (get Text-discrete s.tables item.table) [
    | none ↦ some (s, none)
    | some c ↦ elim (get Text-discrete counts item.table) [
      | none ↦ none
      | some n ↦
          if ltb 1 n
          then some (
            record s { count = some (put Text-discrete counts item.table (n - 1)) },
            some (change_of item false none),
          )
          else some (
            record s {
              tables = remove Text-discrete s.tables item.table;
              count = some (remove Text-discrete counts item.table);
            },
            some (change_of item false (some c)),
          )
    ]
  ]

  -- `update`; `none` is a KeyError
  unfoldable pub update : Item → Bool → Schema → Option (Schema × Option Change)
  unfolding update_insert update_delete
  update item is_insert s = elim s.count [
    | none ↦ some (s, none)
    | some counts ↦ if is_insert then update_insert item counts s else update_delete item counts s
  ]

-- undoing an insertion; `none` is a KeyError
unfoldable pub revert_insert : Change → Dict Text ℕ → Schema → Option Schema
revert_insert change counts s = elim (get Text-discrete counts change.table) [
  | none ↦ none
  | some n ↦
      if ltb 1 n
      then some (record s { count = some (put Text-discrete counts change.table (n - 1)) })
      else if has Text-discrete s.tables change.table
      then some (record s {
        tables = remove Text-discrete s.tables change.table;
        count = some (remove Text-discrete counts change.table);
      })
      else none
]

-- undoing a deletion; `none` is an AssertionError
unfoldable pub revert_delete : Change → Dict Text ℕ → Schema → Option Schema
revert_delete change counts s = elim (get Text-discrete counts change.table) [
  | some n ↦ some (record s { count = some (put Text-discrete counts change.table (n + 1)) })
  | none ↦ elim change.columns [
    | none ↦ none
    | some c ↦ some (record s {
      tables = put Text-discrete s.tables change.table c;
      count = some (put Text-discrete counts change.table 1);
    })
  ]
]

-- `revert`; a change of a schema that does not count is a TypeError
unfoldable pub revert : Option Change → Schema → Option Schema
unfolding revert_insert revert_delete
revert none s = some s
revert (some change) s = elim s.count [
  | none ↦ none
  | some counts ↦
      if change.inserted then revert_insert change counts s else revert_delete change counts s
]

-- a column, by its name or its position; negative positions are left out
pub data ColumnRef : Type 0 where
  by_name : Text → ColumnRef
  by_position : ℕ → ColumnRef

-- `l.index(x)`; `none` is a ValueError
unfoldable pub index_of : Text → List Text → Option ℕ
index_of x [] = none
index_of x (y ∷ ys) =
    let rest = index_of x ys in
    ite (Text-discrete y x) (some 0) (elim rest [ none ↦ none | some i ↦ some (i + 1) ])

unfoldable pub column_number : Schema → Text → ColumnRef → Option ℕ
column_number s t ref = elim (columns s t) [
  | none ↦ none
  | some cs ↦ elim ref [
    | by_position n ↦ if ltb (length cs) n then none else some n
    | by_name x ↦ index_of x cs
  ]
]
