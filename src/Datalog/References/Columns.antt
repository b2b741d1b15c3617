-- ===== src/Datalog/References/Columns.antt =====
-- All arguments of a literal, by position or by reference, stand at their columns after
-- `eliminate_column_references_and_pad_positional` of compile.py.
use congress.Prelude.{
  ℕ, ◌≤◌, ◌<◌, ◌≡◌, ◌⊎◌, max, refl, sym, ap, subst, ◌∙◌, inl, inr, ℕ_discrete, Text, Text-discrete,
  true, Option, some, [], ◌∷◌, ◌++◌, length, arith, get_elem?, get_or, All, Option-cases,
}
use congress.Dict.Base.{Dict, get, put, has, get-put, get-nil}
use congress.Datalog.Schema.{Schema, ColumnRef, by_name, by_position, arity, column_number}
use congress.Datalog.Formula.{Term, variable, Literal}
use congress.Datalog.Consistency.{Theory, Theories, literal_theory}
use congress.Datalog.Safety.Checks.{append_nil_iff}
use congress.Datalog.References.{
  no_such_column, Resolution, name_in, column_name, note_name, resolve_name, note_position,
  resolve_position, resolve_all, fresh_name, positional, pad_positional, eliminate_references,
  returns, eliminate_column_references_and_pad_positional,
}
use congress.Datalog.References.Positions.{
  IsPlaced, Extends, note_name-IsPlaced, note_position-IsPlaced,
}
use congress.Datalog.References.Fresh.{Referred, IsUnused, once}
use congress.Datalog.References.Padding.{positional-arguments}

module _ {V : Type 0} (schema : Schema) (l : Literal V) (n : ℕ)
    (width : arity schema l.table.table ≡ some n) where
  IsPlaced-kept :
      (d d' : Dict ℕ (Term V)) (ref : ColumnRef) (t : Term V)
      → ((k : ℕ) (u : Term V) → get ℕ_discrete d k ≡ some u → get ℕ_discrete d' k ≡ some u)
      → IsPlaced schema l n width d ref t
      → IsPlaced schema l n width d' ref t
  IsPlaced-kept d d' ref t keep h = record {
    column = h.column;
    number = h.number;
    behind = h.behind;
    below = h.below;
    at = keep h.column t h.at;
  }

  Extends-trans :
      (s s1 s2 : Resolution V)
      → Extends schema l n width s s1
      → Extends schema l n width s1 s2
      → Extends schema l n width s s2
  Extends-trans s s1 s2 (e, k) (e', k') = (e, λ i t h. k' i t (k i t h))

  next-IsPlaced :
      (s s1 s2 : Resolution V) (ref : ColumnRef) (arg : Term V) (named : Dict ColumnRef (Term V))
      → Extends schema l n width s s1 × IsPlaced schema l n width s1.term_index ref arg
      → Extends schema l n width s1 s2
        × All (λ a. IsPlaced schema l n width s2.term_index a.0 a.1) named
      → Extends schema l n width s s2
        × All (λ a. IsPlaced schema l n width s2.term_index a.0 a.1) ((ref, arg) ∷ named)
  next-IsPlaced s s1 s2 ref arg named (ext, placed) (ext', rest) = (
    Extends-trans s s1 s2 ext ext',
    (IsPlaced-kept s1.term_index s2.term_index ref arg ext'.1 placed, rest),
  )

  resolve_all-IsPlaced :
      (named : Dict ColumnRef (Term V)) (s s' : Resolution V)
      → resolve_all schema l named s ≡ some s'
      → s'.errors ≡ []
      → Extends schema l n width s s'
        × All (λ a. IsPlaced schema l n width s'.term_index a.0 a.1) named
  unfolding resolve_all resolve_name resolve_position
  resolve_all-IsPlaced [] s s' h none_left =
      let same : s ≡ s' = cc in
      subst (λ (q : Resolution V). Extends schema l n width s q × Unit) same
        ((ap (λ (q : Resolution V). q.errors) same ∙ none_left, λ k t g. g), tt)
  resolve_all-IsPlaced ((by_name col, arg) ∷ named) s s' h none_left =
      elim (Option-cases (column_number schema l.table.table (by_name col))) [
        | inl e ↦
            let ((none_before, keep), rest) =
              resolve_all-IsPlaced named (record s { errors = s.errors ++ no_such_column col ∷ [] })
                s' (ground arith) none_left in
            absurd (let both = append_nil_iff s.errors (no_such_column col ∷ []) in ground arith)
        | inr (i, e) ↦
            let rest =
              resolve_all-IsPlaced named (note_name l col i arg s) s' (ground arith) none_left in
            next-IsPlaced s (note_name l col i arg s) s' (by_name col) arg named
              (note_name-IsPlaced schema l n width col i arg s e rest.0.0) rest
      ]
  resolve_all-IsPlaced ((by_position col, arg) ∷ named) s s' h none_left =
      elim (Option-cases
        (name_in (column_name schema l.table.table (by_position col)) l.named_arguments)) [
          | inl e ↦ absurd (ground arith)
          | inr (b, e) ↦
              let rest =
                resolve_all-IsPlaced named (note_position l n col b arg s) s' (ground arith)
                  none_left in
              next-IsPlaced s (note_position l n col b arg s) s' (by_position col) arg named
                (note_position-IsPlaced schema l n width col b arg s rest.0.0) rest
        ]

  -- every term comes from a reference
  resolve_all-source :
      (named : Dict ColumnRef (Term V)) (s s' : Resolution V) (k : ℕ) (t : Term V)
      → resolve_all schema l named s ≡ some s'
      → get ℕ_discrete s'.term_index k ≡ some t
      → (get ℕ_discrete s.term_index k ≡ some t) ⊎ Referred schema l named k t
  unfolding resolve_all resolve_name resolve_position note_name note_position
  resolve_all-source [] s s' k t h g =
      let same : s ≡ s' = cc in
      inl (subst (λ (q : Resolution V). get ℕ_discrete q.term_index k ≡ some t) (sym same) g)
  resolve_all-source ((by_name col, arg) ∷ named) s s' k t h g =
      elim (Option-cases (column_number schema l.table.table (by_name col))) [
        | inl e ↦
            elim (resolve_all-source named
              (record s { errors = s.errors ++ no_such_column col ∷ [] }) s' k t (ground arith) g) [
                | inl old ↦ inl old
                | inr at ↦ inr (inr at)
              ]
        | inr (i, e) ↦
            from_put i e
              (resolve_all-source named (note_name l col i arg s) s' k t (ground arith) g)
      ]
    where
      from_put :
          (i : ℕ)
          → column_number schema l.table.table (by_name col) ≡ some i
          → (get ℕ_discrete (put ℕ_discrete s.term_index i arg) k ≡ some t)
            ⊎ Referred schema l named k t
          → (get ℕ_discrete s.term_index k ≡ some t)
            ⊎ Referred schema l ((by_name col, arg) ∷ named) k t
      from_put i e (inr at) = inr (inr at)
      from_put i e (inl at) = elim (ℕ_discrete i k) [
        | yes q ↦ inr (inl (ground arith, ground (arith, get-put ℕ_discrete s.term_index i k arg)))
        | no q ↦ inl (ground (arith, get-put ℕ_discrete s.term_index i k arg))
      ]
  resolve_all-source ((by_position col, arg) ∷ named) s s' k t h g =
      elim (Option-cases
        (name_in (column_name schema l.table.table (by_position col)) l.named_arguments)) [
          | inl e ↦ absurd (ground arith)
          | inr (b, e) ↦ from_put (
              resolve_all-source named
                (note_position l (get_or (arity schema l.table.table) 0) col b arg s) s' k t
                (ground arith) g)
        ]
    where
      from_put :
          (get ℕ_discrete (put ℕ_discrete s.term_index col arg) k ≡ some t)
            ⊎ Referred schema l named k t
          → (get ℕ_discrete s.term_index k ≡ some t)
            ⊎ Referred schema l ((by_position col, arg) ∷ named) k t
      from_put (inr at) = inr (inr at)
      from_put (inl at) = elim (ℕ_discrete col k) [
        | yes q ↦ inr (inl (q, ground (arith, get-put ℕ_discrete s.term_index col k arg)))
        | no q ↦ inl (ground (arith, get-put ℕ_discrete s.term_index col k arg))
      ]

arity-has :
    (s : Schema) (t : Text) (n : ℕ) → arity s t ≡ some n → has Text-discrete s.tables t ≡ true
unfolding arity
arity-has s t n a = ground arith

module _ {V : Type 0} (prefix : Text) where
  -- an argument that was given by a reference, in the literal without references
  pub record IsColumn (schema : Schema) (l new : Literal V) (n : ℕ) (ref : ColumnRef) (t : Term V)
      : Type 0 where
    pub column : ℕ
    pub number : column_number schema l.table.table ref ≡ some column
    pub behind : length l.arguments ≤ column
    pub below : column < n
    pub at : get_elem? new.arguments column ≡ some t

  -- a literal whose arguments fill the columns of its table
  pub record IsPositional (schema : Schema) (l new : Literal V) (n : ℕ) : Type 0 where
    pub no_references : new.named_arguments ≡ []
    pub filled : length new.arguments ≡ max (length l.arguments) n
    pub kept :
        (i : ℕ) (t : Term V) → get_elem? l.arguments i ≡ some t → get_elem? new.arguments i ≡ some t
    pub named : All (λ a. IsColumn schema l new n a.0 a.1) l.named_arguments
    pub padded :
        (i : ℕ)
        → length l.arguments ≤ i
        → i < n
        → (get_elem? new.arguments i ≡ some (variable (fresh_name prefix i)))
          ⊎ ((t : Term V) × (get_elem? new.arguments i ≡ some t)
              × Referred schema l l.named_arguments i t)
    -- the variable that is made for a column stands nowhere else
    pub fresh :
        (i j : ℕ) → get_elem? new.arguments j ≡ some (variable (fresh_name prefix i)) → j ≡ i

  columns_of :
      (schema : Schema) (l : Literal V) (n : ℕ) (width : arity schema l.table.table ≡ some n)
      (d : Dict ℕ (Term V)) (named : Dict ColumnRef (Term V))
      → All (λ a. IsPlaced schema l n width d a.0 a.1) named
      → All (λ a. IsColumn schema l (positional prefix schema l d) n a.0 a.1) named
  columns_of schema l n width d [] all = tt
  columns_of schema l n width d ((ref, t) ∷ named) (p, all) = (
    record {
      column = p.column;
      number = p.number;
      behind = p.behind;
      below = p.below;
      at =
          (positional-arguments prefix schema l n d width).2 p.column p.behind p.below
          ∙ ap (λ (o : Option (Term V)). some (get_or o (variable (fresh_name prefix p.column))))
              p.at;
    },
    columns_of schema l n width d named all,
  )

  positional-IsPositional :
      (schema : Schema) (l : Literal V) (n : ℕ) (width : arity schema l.table.table ≡ some n)
      (d : Dict ℕ (Term V))
      → All (λ a. IsPlaced schema l n width d a.0 a.1) l.named_arguments
      → ((k : ℕ) (t : Term V)
          → get ℕ_discrete d k ≡ some t
          → Referred schema l l.named_arguments k t)
      → IsUnused prefix l
      → IsPositional schema l (positional prefix schema l d) n
  positional-IsPositional schema l n width d placed source unused =
      let (total, kept, padding) = positional-arguments prefix schema l n d width in
      let padded : (i : ℕ)
          → length l.arguments ≤ i
          → i < n
          → (get_elem? (positional prefix schema l d).arguments i
              ≡ some (variable (fresh_name prefix i)))
            ⊎ ((t : Term V) × (get_elem? (positional prefix schema l d).arguments i ≡ some t)
                × Referred schema l l.named_arguments i t) =
        λ i behind below. elim (Option-cases (get ℕ_discrete d i)) [
          | inl e ↦ inl (
              padding i behind below
              ∙ ap (λ (o : Option (Term V)). some (get_or o (variable (fresh_name prefix i)))) e)
          | inr (t, e) ↦ inr (
            t,
            padding i behind below
                ∙ ap (λ (o : Option (Term V)). some (get_or o (variable (fresh_name prefix i)))) e,
            source i t e,
          )
        ] in
      record {
        no_references = refl;
        filled = total;
        kept = kept;
        named = columns_of schema l n width d l.named_arguments placed;
        padded = padded;
        fresh =
            once prefix schema l (positional prefix schema l d).arguments n total kept padded
              unused;
      }

  -- Where the schema of a literal's table is known and no variable of the literal starts with the
  -- prefix: what it returns has no references and as many arguments as the table has columns, or as
  -- the literal had, if these are more. The positional arguments keep their places. Each argument
  -- that was given by a reference stands at that column's number, where no positional argument was.
  -- Each other column has the variable of the prefix and its number, and such a variable stands
  -- there only.
  pub eliminate_column_references_and_pad_positional-IsPositional :
      (l new : Literal V) (theories : Option Theories) (default_theory : Option Text)
      (theory : Theory) (schema : Schema) (n : ℕ)
      → eliminate_column_references_and_pad_positional prefix l theories default_theory
        ≡ returns new
      → literal_theory l theories default_theory ≡ some theory
      → theory.schema ≡ some schema
      → arity schema l.table.table ≡ some n
      → IsUnused prefix l
      → IsPositional schema l new n
  unfolding eliminate_column_references_and_pad_positional eliminate_references pad_positional
  eliminate_column_references_and_pad_positional-IsPositional l new theories default_theory theory
        schema n h e f width unused =
      elim (named_cases l.named_arguments) [
        | inl g ↦
            let there = arity-has schema l.table.table n width in
            let same : positional prefix schema l [] ≡ new = ground arith in
            subst (λ (q : Literal V). IsPositional schema l q n) same
              (positional-IsPositional schema l n width []
                (subst (All (λ a. IsPlaced schema l n width [] a.0 a.1)) (sym g) tt)
                (λ k t m. absurd (ground (arith, get-nil {V = Term V} ℕ_discrete k))) unused)
        | inr (a, named, g) ↦
            elim (Option-cases
              (resolve_all schema l l.named_arguments (record { errors = []; term_index = [] }))) [
                | inl r ↦ absurd (ground arith)
                | inr (s, r) ↦
                    let none_left : s.errors ≡ [] = ground arith in
                    let same : positional prefix schema l s.term_index ≡ new = ground arith in
                    subst (λ (q : Literal V). IsPositional schema l q n) same
                      (positional-IsPositional schema l n width s.term_index
                        (resolve_all-IsPlaced schema l n width l.named_arguments _ s r none_left).1
                        (λ k t m.
                          elim (resolve_all-source schema l n width l.named_arguments _ s k t r m) [
                            | inl old ↦ absurd (ground (arith, get-nil {V = Term V} ℕ_discrete k))
                            | inr at ↦ at
                          ])
                        unused)
              ]
      ]
    where
      named_cases :
          (d : Dict ColumnRef (Term V))
          → (d ≡ [])
            ⊎ ((a : ColumnRef × Term V) × (named : Dict ColumnRef (Term V)) × (d ≡ a ∷ named))
      named_cases [] = inl refl
      named_cases (a ∷ named) = inr (a, named, refl)
