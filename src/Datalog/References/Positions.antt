-- ===== src/Datalog/References/Positions.antt =====
-- Where the arguments of a literal stand after `eliminate_column_references_and_pad_positional` of
-- compile.py.
use congress.Prelude.{
  ℕ, ◌≤◌, ◌<◌, ◌≡◌, refl, inl, inr, ltb, leb, ℕ_discrete, Text, Text-discrete, Bool, true, false,
  some, List, [], ◌∷◌, map, length, arith, Option-cases,
}
use congress.Dict.Base.{Dict, get, put, has, get-put}
use congress.Datalog.Schema.{
  Schema, ColumnRef, by_name, by_position, TableColumns, names, descriptions, Description,
  column_names, width_of, columns, arity, index_of, column_number,
}
use congress.Datalog.Formula.{Term, Literal}
use congress.Datalog.Safety.Checks.{append_nil_iff}
use congress.Datalog.References.{
  ColumnRef-discrete, ColumnError, Resolution, error_if, note_name, note_position,
  provided_by_position, referenced_otherwise, too_large,
}

length-map {ℓ} : {A B : Type ℓ} (f : A → B) (xs : List A) → length (map f xs) ≡ length xs
length-map f [] = refl
length-map f (x ∷ xs) = omega (arith, length-map f xs)

column_names-width : (c : TableColumns) → length (column_names c) ≡ width_of c
unfolding column_names
column_names-width (names ns) = refl
column_names-width (descriptions ds) = length-map (λ (d : Description). d.column) ds

index_of-length : (x : Text) (cs : List Text) (i : ℕ) → index_of x cs ≡ some i → i < length cs
unfolding index_of
index_of-length x [] i h = absurd (cc)
index_of-length x (y ∷ cs) i h = elim (Option-cases (index_of x cs)) [
  | inl e ↦ ground arith
  | inr (k, e) ↦ ground (arith, index_of-length x cs k e)
]

-- a column's name has a number below the width
column_number-name :
    (s : Schema) (t x : Text) (i n : ℕ)
    → column_number s t (by_name x) ≡ some i
    → arity s t ≡ some n
    → i < n
unfolding column_number columns arity
column_number-name s t x i n h a = elim (Option-cases (get Text-discrete s.tables t)) [
  | inl e ↦ absurd (ground arith)
  | inr (c, e) ↦ ground (arith, column_names-width c, index_of-length x (column_names c) i)
]

-- a number below the width is that of a column
column_number-position :
    (s : Schema) (t : Text) (i n : ℕ)
    → arity s t ≡ some n
    → i < n
    → column_number s t (by_position i) ≡ some i
unfolding column_number columns arity
column_number-position s t i n a lt = elim (Option-cases (get Text-discrete s.tables t)) [
  | inl e ↦ absurd (ground arith)
  | inr (c, e) ↦ ground (arith, column_names-width c)
]

error_if-nil : (b : Bool) (e : ColumnError) → error_if b e ≡ [] → b ≡ false
error_if-nil true e h = absurd (cc)
error_if-nil false e h = refl

module _ {V : Type 0} (schema : Schema) (l : Literal V) (n : ℕ)
    (width : arity schema l.table.table ≡ some n) where
  -- an argument for a column behind the positional ones
  pub record IsPlaced (term_index : Dict ℕ (Term V)) (ref : ColumnRef) (t : Term V) : Type 0 where
    pub column : ℕ
    pub number : column_number schema l.table.table ref ≡ some column
    pub behind : length l.arguments ≤ column
    pub below : column < n
    pub at : get ℕ_discrete term_index column ≡ some t

  -- no term is lost
  abbrev pub Extends : Resolution V → Resolution V → Type 0
  Extends s s' =
      (s.errors ≡ [])
      × ((k : ℕ) (t : Term V)
          → get ℕ_discrete s.term_index k ≡ some t
          → get ℕ_discrete s'.term_index k ≡ some t)

  -- a new column gets its term
  put-IsPlaced :
      (d : Dict ℕ (Term V)) (ref : ColumnRef) (i : ℕ) (arg : Term V)
      → column_number schema l.table.table ref ≡ some i
      → ltb i (length l.arguments) ≡ false
      → has ℕ_discrete d i ≡ false
      → i < n
      → ((k : ℕ) (t : Term V)
          → get ℕ_discrete d k ≡ some t
          → get ℕ_discrete (put ℕ_discrete d i arg) k ≡ some t)
        × IsPlaced (put ℕ_discrete d i arg) ref arg
  put-IsPlaced d ref i arg e behind absent below = (
    λ k t h. ground (arith, get-put ℕ_discrete d i k arg),
    record {
      column = i;
      number = e;
      behind = ground arith;
      below = below;
      at = ground (arith, get-put ℕ_discrete d i i arg);
    },
  )

  pub note_name-IsPlaced :
      (col : Text) (i : ℕ) (arg : Term V) (s : Resolution V)
      → column_number schema l.table.table (by_name col) ≡ some i
      → (note_name l col i arg s).errors ≡ []
      → Extends s (note_name l col i arg s)
        × IsPlaced (note_name l col i arg s).term_index (by_name col) arg
  unfolding note_name
  note_name-IsPlaced col i arg s e h =
      let (none_before, h1) = (append_nil_iff s.errors _).0 h in
      let (behind, h2) =
        (append_nil_iff (error_if (ltb i (length l.arguments)) (provided_by_position (by_name col)))
            _).0
          h1 in
      let (other, once) =
        (append_nil_iff
            (error_if (has ColumnRef-discrete l.named_arguments (by_position i))
              (referenced_otherwise (by_name col)))
            _).0
          h2 in
      let (kept, placed) =
        put-IsPlaced s.term_index (by_name col) i arg e (error_if-nil _ _ behind)
          (error_if-nil _ _ once) (column_number-name schema l.table.table col i n e width) in
      ((none_before, kept), placed)

  pub note_position-IsPlaced :
      (col : ℕ) (named : Bool) (arg : Term V) (s : Resolution V)
      → (note_position l n col named arg s).errors ≡ []
      → Extends s (note_position l n col named arg s)
        × IsPlaced (note_position l n col named arg s).term_index (by_position col) arg
  unfolding note_position
  note_position-IsPlaced col named arg s h =
      let (none_before, h0) = (append_nil_iff s.errors _).0 h in
      let (small, h1) = (append_nil_iff (error_if (leb n col) (too_large col)) _).0 h0 in
      let (behind, h2) =
        (append_nil_iff
            (error_if (ltb col (length l.arguments)) (provided_by_position (by_position col))) _).0
          h1 in
      let (other, once) =
        (append_nil_iff (error_if named (referenced_otherwise (by_position col))) _).0 h2 in
      let below : col < n = let f = error_if-nil _ _ small in ground arith in
      let (kept, placed) =
        put-IsPlaced s.term_index (by_position col) col arg
          (column_number-position schema l.table.table col n width below) (error_if-nil _ _ behind)
          (error_if-nil _ _ once) below in
      ((none_before, kept), placed)
