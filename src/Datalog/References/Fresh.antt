-- ===== src/Datalog/References/Fresh.antt =====
-- The variables that `eliminate_column_references_and_pad_positional` of compile.py makes.
use congress.Prelude.{
  ℕ, zero, suc, ◌≤◌, ◌<◌, ◌≡◌, ◌⊎◌, max, sym, subst, ◌∙◌, inl, inr, Text, Option, none, some, List,
  [], ◌∷◌, ◌++◌, map, length, arith, get_elem?, Has, Option-cases, decimal, decimal-injective,
}
use congress.Dict.Base.{Dict}
use congress.Datalog.Schema.{Schema, ColumnRef, by_name, by_position, column_number}
use congress.Datalog.Formula.{Term, variable, Literal}
use congress.Datalog.References.{fresh_name}

get_elem?-Has : {A : Type 0} (xs : List A) (i : ℕ) (a : A) → get_elem? xs i ≡ some a → Has a xs
get_elem?-Has [] i a h = absurd (cc)
get_elem?-Has (x ∷ xs) zero a h = inl (cc)
get_elem?-Has (x ∷ xs) (suc i) a h = inr (get_elem?-Has xs i a h)

get_elem?-absent : {A : Type 0} (xs : List A) (i : ℕ) → get_elem? xs i ≡ none → length xs ≤ i
get_elem?-absent [] i h = omega arith
get_elem?-absent (x ∷ xs) zero h = absurd (cc)
get_elem?-absent (x ∷ xs) (suc i) h = omega (arith, get_elem?-absent xs i h)

get_elem?-length :
    {A : Type 0} (xs : List A) (i : ℕ) (a : A) → get_elem? xs i ≡ some a → i < length xs
get_elem?-length [] i a h = absurd (cc)
get_elem?-length (x ∷ xs) zero a h = omega arith
get_elem?-length (x ∷ xs) (suc i) a h = omega (arith, get_elem?-length xs i a h)

append-cancel : (p a b : Text) → p ++ a ≡ p ++ b → a ≡ b
append-cancel [] a b h = h
append-cancel (c ∷ p) a b h = append-cancel p a b (cc)

fresh_name-injective : (prefix : Text) (i j : ℕ) → fresh_name prefix i ≡ fresh_name prefix j → i ≡ j
fresh_name-injective prefix i j h =
    decimal-injective i j (append-cancel prefix (decimal i) (decimal j) h)

module _ {V : Type 0} where
  -- one of the references is to column `k`, and gives it `t`
  abbrev pub Referred : Schema → Literal V → Dict ColumnRef (Term V) → ℕ → Term V → Type 0
  Referred schema l [] k t = ⊥
  Referred schema l ((by_name x, u) ∷ named) k t =
      ((column_number schema l.table.table (by_name x) ≡ some k) × (u ≡ t))
      ⊎ Referred schema l named k t
  Referred schema l ((by_position c, u) ∷ named) k t =
      ((c ≡ k) × (u ≡ t)) ⊎ Referred schema l named k t

  Referred-Has :
      (schema : Schema) (l : Literal V) (named : Dict ColumnRef (Term V)) (k : ℕ) (t : Term V)
      → Referred schema l named k t
      → Has t (map (λ a. a.1) named)
  Referred-Has schema l [] k t h = h
  Referred-Has schema l ((by_name x, u) ∷ named) k t (inl h) = inl (sym h.1)
  Referred-Has schema l ((by_name x, u) ∷ named) k t (inr h) =
      inr (Referred-Has schema l named k t h)
  Referred-Has schema l ((by_position c, u) ∷ named) k t (inl h) = inl (sym h.1)
  Referred-Has schema l ((by_position c, u) ∷ named) k t (inr h) =
      inr (Referred-Has schema l named k t h)

  -- no variable of the literal starts with the prefix
  pub record IsUnused (prefix : Text) (l : Literal V) : Type 0 where
    pub by_place : (y : Text) → ¬ Has (variable (prefix ++ y)) l.arguments
    pub by_reference :
        (y : Text) → ¬ Has (variable (prefix ++ y)) (map (λ a. a.1) l.named_arguments)

  variable-injective :
      (x y : Text) → Path (Option (Term V)) (some (variable x)) (some (variable y)) → x ≡ y
  variable-injective x y h = cc

  pub once :
      (prefix : Text) (schema : Schema) (l : Literal V) (new : List (Term V)) (n : ℕ)
      → length new ≡ max (length l.arguments) n
      → ((i : ℕ) (t : Term V) → get_elem? l.arguments i ≡ some t → get_elem? new i ≡ some t)
      → ((i : ℕ)
          → length l.arguments ≤ i
          → i < n
          → (get_elem? new i ≡ some (variable (fresh_name prefix i)))
            ⊎ ((t : Term V) × (get_elem? new i ≡ some t) × Referred schema l l.named_arguments i t))
      → IsUnused prefix l
      → (i j : ℕ) → get_elem? new j ≡ some (variable (fresh_name prefix i))
      → j ≡ i
  once prefix schema l new n total kept padded unused i j h =
      elim (Option-cases (get_elem? l.arguments j)) [
        | inr (t, e) ↦
            let same : some t ≡ some (variable (fresh_name prefix i)) = sym (kept j t e) ∙ h in
            absurd (
              unused.by_place (decimal i)
                (get_elem?-Has l.arguments j (variable (fresh_name prefix i)) (e ∙ same)))
        | inl e ↦
            elim (padded j (get_elem?-absent l.arguments j e) (
              omega (arith, total, get_elem?-absent l.arguments j e, get_elem?-length new j _ h))) [
                | inl own ↦
                    fresh_name-injective prefix j i
                      (variable-injective (fresh_name prefix j) (fresh_name prefix i) (sym own ∙ h))
                | inr (t, at, from) ↦
                    let same : variable (fresh_name prefix i) ≡ t = cc in
                    absurd (
                      unused.by_reference (decimal i) (
                        subst (λ (x : Term V). Has x (map (λ a. a.1) l.named_arguments)) (sym same)
                          (Referred-Has schema l l.named_arguments j t from)))
              ]
      ]
