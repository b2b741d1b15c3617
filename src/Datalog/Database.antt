-- ===== src/Datalog/Database.antt =====
-- congress/datalog/database.py: `Database`, the theory that holds facts with the proofs that explain
-- them. `V` are the values in a tuple. The name of an argument is a constant's value or a variable's
-- name, which `text_value` makes a value; `type_of` is the type that a value has as a constant.
pub mod Tuples
pub mod Modify
pub mod Update
pub mod Difference
use congress.Prelude.{
  ℕ, Text, Text-discrete, Bool, true, false, not, ◌&&◌, ite, Option, none, some, List, [], ◌∷◌,
  ◌++◌, map, length, get_or, is_some, if◌then◌else◌,
}
use congress.Sets.{member, minus, union, subset}
use congress.Dict.Base.{Dict, get, put, has}
use congress.Datalog.Tablename.{create_from_tablename}
use congress.Datalog.Formula.{ConstantType, Term, variable, constant, Literal, is_atom, is_ground}
use congress.Datalog.Builtins.{Registry}
use congress.Datalog.Consistency.{Theories, SyntaxError}
use congress.Datalog.Safety.{fact_errors}

-- a binding and a rule; two proofs are the same if both are
pub record Proof (B R : Type 0) : Type 0 where
  pub binding : B
  pub rule : R

-- `DBTuple`, with the contents of its ProofCollection
pub record DbTuple (V P : Type 0) : Type 0 where
  pub tuple : List V
  pub proofs : List P

pub record Event (V P : Type 0) : Type 0 where
  pub formula : Literal V
  pub proofs : List P
  pub is_insert : Bool

-- the attribute `data`
abbrev pub Database : Type 0 → Type 0 → Type 0
Database V P = Dict Text (List (DbTuple V P))

pub data UpdateError (V : Type 0) : Type 0 where
  non_atomic : Literal V → UpdateError V
  fact_error : SyntaxError V → UpdateError V

abbrev pub is_nil {ℓ} : {A : Type ℓ} → List A → Bool
is_nil [] = true
is_nil (x ∷ xs) = false

module _ {V P : Type 0} (dec : Discrete (List V)) (dec_proof : Discrete P) where
  -- the loop of `is_noop`: a tuple is there with all these proofs
  unfoldable pub covers : List V → List P → List (DbTuple V P) → Bool
  covers raw_tuple proofs [] = false
  covers raw_tuple proofs (t ∷ ts) =
      let rest = covers raw_tuple proofs ts in
      ite (dec t.tuple raw_tuple) (if subset dec_proof proofs t.proofs then true else rest) rest

  -- `any(dbtuple.tuple == raw_tuple for dbtuple in event_data)`
  unfoldable pub has_tuple : List V → List (DbTuple V P) → Bool
  has_tuple raw_tuple [] = false
  has_tuple raw_tuple (t ∷ ts) = ite (dec t.tuple raw_tuple) true (has_tuple raw_tuple ts)

  -- the proofs of the first such tuple
  unfoldable pub proofs_in : List V → List (DbTuple V P) → Option (List P)
  proofs_in raw_tuple [] = none
  proofs_in raw_tuple (t ∷ ts) =
      ite (dec t.tuple raw_tuple) (some t.proofs) (proofs_in raw_tuple ts)

  -- `insert_actual`, on the tuples of a table
  unfoldable pub insert_tuple : List V → List P → List (DbTuple V P) → List (DbTuple V P)
  insert_tuple x ps [] = record { tuple = x; proofs = ps } ∷ []
  insert_tuple x ps (t ∷ ts) =
      let rest = insert_tuple x ps ts in
      ite (dec t.tuple x) (record t { proofs = union dec_proof t.proofs ps } ∷ ts) (t ∷ rest)

  -- `delete_actual`, on the tuples of a table
  unfoldable pub delete_tuple : List V → List P → List (DbTuple V P) → List (DbTuple V P)
  delete_tuple x ps [] = []
  delete_tuple x ps (t ∷ ts) =
      let rest = delete_tuple x ps ts in
      let remaining = minus dec_proof t.proofs ps in
      ite (dec t.tuple x) (if is_nil remaining then ts else record t { proofs = remaining } ∷ ts)
        (t ∷ rest)

  unfoldable pub insert_actual : Text → List V → List P → Database V P → Database V P
  unfolding insert_tuple
  insert_actual table x ps data' = elim (get Text-discrete data' table) [
    | none ↦ put Text-discrete data' table (record { tuple = x; proofs = ps } ∷ [])
    | some ts ↦ put Text-discrete data' table (insert_tuple x ps ts)
  ]

  unfoldable pub delete_actual : Text → List V → List P → Database V P → Database V P
  unfolding delete_tuple
  delete_actual table x ps data' = elim (get Text-discrete data' table) [
    | none ↦ data'
    | some ts ↦ put Text-discrete data' table (delete_tuple x ps ts)
  ]

  -- the tuples that the other table has not
  unfoldable pub not_in :
      Text → List (DbTuple V P) → Option (List (DbTuple V P)) → List (Text × List V)
  unfolding has_tuple
  not_in table [] other = []
  not_in table (t ∷ ts) other =
      let rest = not_in table ts other in
      if has_tuple t.tuple (get_or other []) then rest else (table, t.tuple) ∷ rest

  -- `__sub__`
  unfoldable pub sub : Database V P → Database V P → List (Text × List V)
  unfolding not_in
  sub [] other = []
  sub ((table, ts) ∷ data') other =
      not_in table ts (get Text-discrete other table) ++ sub data' other

  unfoldable pub get_arity_self : Text → Database V P → Option ℕ
  get_arity_self table data' = elim (get Text-discrete data' table) [
    | none ↦ none
    | some ts ↦ elim ts [ [] ↦ none | t ∷ rest ↦ some (length t.tuple) ]
  ]

  module _ (text_value : Text → V) where
    unfoldable pub name_of : Term V → V
    name_of (variable x) = text_value x
    name_of (constant v k) = v

    unfoldable pub argument_names : Literal V → List V
    unfolding name_of
    argument_names l = map name_of l.arguments

    unfoldable pub is_noop : Event V P → Database V P → Bool
    unfolding covers argument_names
    is_noop event data' =
        let noop = event.is_insert in
        elim (get Text-discrete data' event.formula.table.table) [
          | none ↦ not noop
          | some event_data ↦
              if covers (argument_names event.formula) event.proofs event_data
              then noop
              else not noop
        ]

    unfoldable pub contains : Literal V → Database V P → Bool
    unfolding has_tuple argument_names
    contains formula data' =
        if is_atom formula
        then elim (get Text-discrete data' formula.table.table) [
          | none ↦ false
          | some event_data ↦ has_tuple (argument_names formula) event_data
        ]
        else false

    -- `none` if there is no such tuple
    unfoldable pub explain : Literal V → Database V P → Option (List P)
    unfolding proofs_in argument_names is_ground
    explain atom data' = elim (get Text-discrete data' atom.table.table) [
      | none ↦ some []
      | some ts ↦ if is_ground atom then proofs_in (argument_names atom) ts else some []
    ]

    -- the database and the changes; `none` is an AssertionError
    unfoldable pub modify : Event V P → Database V P → Option (Database V P × List (Event V P))
    unfolding is_noop insert_actual delete_actual argument_names
    modify event data' =
        let atom = event.formula in
        if is_atom atom
        then if is_noop event data'
          then some (data', [])
          else if event.is_insert
          then some
              (insert_actual atom.table.table (argument_names atom) event.proofs data', event ∷ [])
          else some
              (delete_actual atom.table.table (argument_names atom) event.proofs data', event ∷ [])
        else none

    unfoldable pub update :
        List (Event V P) → Database V P → Option (Database V P × List (Event V P))
    unfolding modify
    update [] data' = some (data', [])
    update (event ∷ events) data' = elim (modify event data') [
      | none ↦ none
      | some after ↦ elim (update events after.0) [
        | none ↦ none
        | some result ↦ some (result.0, after.1 ++ result.1)
      ]
    ]

  module _ (type_of : V → ConstantType) where
    -- `Literal.create_from_table_tuple`
    unfoldable pub create_from_table_tuple : Text → List V → Literal V
    create_from_table_tuple table x = record {
      table = create_from_tablename table none true;
      arguments = map (λ v. constant v (type_of v)) x;
      negated = false;
      named_arguments = [];
    }

    unfoldable pub content_of : Text → List (DbTuple V P) → List (Literal V)
    unfolding create_from_table_tuple
    content_of table [] = []
    content_of table (t ∷ ts) = create_from_table_tuple table t.tuple ∷ content_of table ts

    -- `content` of some tables; without an argument it is that of all keys
    unfoldable pub content : List Text → Database V P → List (Literal V)
    unfolding content_of
    content [] data' = []
    content (table ∷ tablenames) data' =
        content_of table (get_or (get Text-discrete data' table) []) ++ content tablenames data'

module _ {V P : Type 0} (dec : Discrete (List V)) (dec_proof : Discrete P) (text_value : Text → V)
    (type_of : V → ConstantType) where
  -- the inner loop of `add_db`
  unfoldable pub add_tuples : Text → List (DbTuple V P) → Database V P → Option (Database V P)
  unfolding modify create_from_table_tuple
  add_tuples table [] result = some result
  add_tuples table (t ∷ ts) result =
      let event : Event V P = record {
        formula = create_from_table_tuple dec dec_proof type_of table t.tuple;
        proofs = t.proofs;
        is_insert = true;
      } in
      elim (modify dec dec_proof text_value event result) [
        | none ↦ none
        | some after ↦ add_tuples table ts after.0
      ]

  unfoldable pub add_db : Database V P → Database V P → Option (Database V P)
  unfolding add_tuples
  add_db [] result = some result
  add_db ((table, ts) ∷ data') result = elim (add_tuples table ts result) [
    | none ↦ none
    | some result' ↦ add_db data' result'
  ]

  -- `__or__`
  unfoldable pub or_database : Database V P → Database V P → Option (Database V P)
  unfolding add_db
  or_database self other = elim (add_db self []) [ none ↦ none | some result ↦ add_db other result ]

-- `update_would_cause_errors`
module _ {V P F : Type 0} (dec_literal : Discrete (Literal V)) (registry : Registry F) where
  unfoldable pub update_would_cause_errors :
      List (Event V P) → Option Theories → Option Text → List (UpdateError V)
  unfolding fact_errors
  update_would_cause_errors [] theories theory = []
  update_would_cause_errors (event ∷ events) theories theory =
      let rest = update_would_cause_errors events theories theory in
      elim (fact_errors dec_literal registry event.formula theories theory) [
        | none ↦ non_atomic event.formula ∷ rest
        | some errors ↦ map fact_error errors ++ rest
      ]
