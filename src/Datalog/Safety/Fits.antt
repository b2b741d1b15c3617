-- ===== src/Datalog/Safety/Fits.antt =====
-- What `check_schema_consistency` of compile.py asks of the literals of a rule.
use congress.Prelude.{
  ℕ, ◌≡◌, ◌⊎◌, refl, sym, ◌∙◌, inl, inr, Text, Text-discrete, true, Option, none, some, List, [],
  ◌∷◌, length, arith, All, ◌↔◌, Option-cases,
}
use congress.Dict.Base.{Dict, has}
use congress.Datalog.Schema.{Schema, ColumnRef, arity}
use congress.Datalog.Tablename.{or_default}
use congress.Datalog.Formula.{Term, Literal}
use congress.Datalog.Safety.Checks.{append_nil_iff}
use congress.Datalog.Consistency.{
  Theory, Theories, literal_theory, literal_fits, literal_schema_consistency, all_consistency,
}

List-cases : {A : Type 0} (xs : List A) → (xs ≡ []) ⊎ ((a : A) × (as' : List A) × (xs ≡ a ∷ as'))
List-cases [] = inl refl
List-cases (a ∷ as') = inr (a, as', refl)

module _ {V : Type 0} where
  -- What a schema asks of a literal: that its table is there, if the schema is complete, and that it
  -- has an argument for each column.
  pub record FitsSchema (l : Literal V) (schema : Schema) : Type 0 where
    pub present : schema.complete ≡ true → has Text-discrete schema.tables l.table.table ≡ true
    pub filled : (n : ℕ) → arity schema l.table.table ≡ some n → length l.arguments ≡ n

  literal_fits_iff :
      (l : Literal V) (schema : Schema) → (literal_fits l schema ≡ []) ↔ FitsSchema l schema
  unfolding literal_fits
  literal_fits_iff l schema = (
    λ h. record { present = λ c. ground arith; filled = λ n e. ground (arith, e) },
    λ f.
        let a = f.present in
        elim (Option-cases (arity schema l.table.table)) [
          | inl e ↦ ground (arith, e)
          | inr (n, e) ↦ let b = f.filled n e in ground (arith, e)
        ],
  )

  -- Without column references and with the schema of its theory known, a literal fits it.
  abbrev pub Fits : Literal V → Option Theories → Option Text → Type 0
  Fits l theories theory =
      (found : Theory) (schema : Schema)
      → l.named_arguments ≡ []
      → literal_theory l theories theory ≡ some found
      → found.schema ≡ some schema
      → FitsSchema l schema

  consistency-known :
      (l : Literal V) (theories : Option Theories) (theory : Option Text) (found : Theory)
      (schema : Schema)
      → l.named_arguments ≡ []
      → literal_theory l theories theory ≡ some found
      → found.schema ≡ some schema
      → literal_schema_consistency l theories theory ≡ literal_fits l schema
  unfolding literal_schema_consistency literal_theory
  consistency-known l none theory found schema a b c = absurd (cc)
  consistency-known l (some theories) theory found schema a b c = ground (arith, a, b, c)

  consistency-references :
      (l : Literal V) (theories : Option Theories) (theory : Option Text) (a : ColumnRef × Term V)
      (named : Dict ColumnRef (Term V))
      → l.named_arguments ≡ a ∷ named
      → literal_schema_consistency l theories theory ≡ []
  unfolding literal_schema_consistency
  consistency-references l none theory a named e = refl
  consistency-references l (some theories) theory a named e = ground (arith, e)

  consistency-no_theory :
      (l : Literal V) (theories : Option Theories) (theory : Option Text)
      → literal_theory l theories theory ≡ none
      → literal_schema_consistency l theories theory ≡ []
  unfolding literal_schema_consistency literal_theory
  consistency-no_theory l none theory e = refl
  consistency-no_theory l (some theories) theory e = elim (List-cases l.named_arguments) [
    | inl n ↦ elim (Option-cases (or_default l.table.service theory)) [
      | inl d ↦ ground (arith, n, d)
      | inr (x, d) ↦ ground (arith, n, d, e)
    ]
    | inr (a, named, n) ↦ ground (arith, n)
  ]

  consistency-no_schema :
      (l : Literal V) (theories : Option Theories) (theory : Option Text) (found : Theory)
      → literal_theory l theories theory ≡ some found
      → found.schema ≡ none
      → literal_schema_consistency l theories theory ≡ []
  unfolding literal_schema_consistency literal_theory
  consistency-no_schema l none theory found b c = refl
  consistency-no_schema l (some theories) theory found b c = elim (List-cases l.named_arguments) [
    | inl n ↦ elim (Option-cases (or_default l.table.service theory)) [
      | inl d ↦ ground (arith, n, d)
      | inr (x, d) ↦ ground (arith, n, d, b, c)
    ]
    | inr (a, named, n) ↦ ground (arith, n)
  ]

  consistency_iff :
      (l : Literal V) (theories : Option Theories) (theory : Option Text)
      → (literal_schema_consistency l theories theory ≡ []) ↔ Fits l theories theory
  consistency_iff l theories theory = (
    λ h found schema a b c.
        (literal_fits_iff l schema).0
          (sym (consistency-known l theories theory found schema a b c) ∙ h),
    λ fits. elim (List-cases l.named_arguments) [
      | inr (a, named, e) ↦ consistency-references l theories theory a named e
      | inl none_named ↦ elim (Option-cases (literal_theory l theories theory)) [
        | inl e ↦ consistency-no_theory l theories theory e
        | inr (found, e) ↦ elim (Option-cases found.schema) [
          | inl f ↦ consistency-no_schema l theories theory found e f
          | inr (schema, f) ↦
              consistency-known l theories theory found schema none_named e f
              ∙ (literal_fits_iff l schema).1 (fits found schema none_named e f)
        ]
      ]
    ],
  )

  pub all_consistency-Fits :
      (ls : List (Literal V)) (theories : Option Theories) (theory : Option Text)
      → (all_consistency ls theories theory ≡ []) ↔ All (λ l. Fits l theories theory) ls
  unfolding all_consistency
  all_consistency-Fits [] theories theory = (λ h. tt, λ a. refl)
  all_consistency-Fits (l ∷ ls) theories theory =
      let (s1, f1) = consistency_iff l theories theory in
      let (s2, f2) = all_consistency-Fits ls theories theory in
      let (s3, f3) =
        append_nil_iff (literal_schema_consistency l theories theory)
          (all_consistency ls theories theory) in
      (λ h. let (x, y) = s3 h in (s1 x, s2 y), λ a. f3 (f1 a.0, f2 a.1))
