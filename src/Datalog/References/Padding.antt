-- ===== src/Datalog/References/Padding.antt =====
-- The arguments that `eliminate_column_references_and_pad_positional` of compile.py adds.
use congress.Prelude.{
  ℕ, zero, suc, ◌+◌, ◌-◌, ◌≤◌, ◌<◌, ◌≡◌, max, refl, ap, ◌∙◌, ℕ_discrete, Text, some, List, [], ◌∷◌,
  ◌++◌, length, length-append, arith, get_elem?, get_or,
}
use congress.Dict.Base.{Dict, get}
use congress.Datalog.Schema.{Schema, arity}
use congress.Datalog.Formula.{Term, variable, Literal}
use congress.Datalog.References.{fresh_name, pad, positional}

module _ {V : Type 0} (prefix : Text) where
  length-pad : (d : Dict ℕ (Term V)) (i n : ℕ) → length (pad prefix d i n) ≡ n
  unfolding pad
  length-pad d i zero = refl
  length-pad d i (suc n) = omega (arith, length-pad d (i + 1) n)

  -- the term of a column that is not positional
  abbrev pub term_at : Dict ℕ (Term V) → ℕ → Term V
  term_at d j = get_or (get ℕ_discrete d j) (variable (fresh_name prefix j))

  get_elem?-pad :
      (d : Dict ℕ (Term V)) (i n k j : ℕ)
      → k < n
      → j ≡ i + k
      → get_elem? (pad prefix d i n) k ≡ some (term_at d j)
  unfolding pad
  get_elem?-pad d i zero k j lt e = absurd (omega (arith, lt))
  get_elem?-pad d i (suc n) zero j lt e =
      let same : i ≡ j = omega (arith, e) in ap (λ (m : ℕ). some (term_at d m)) same
  get_elem?-pad d i (suc n) (suc k) j lt e =
      get_elem?-pad d (i + 1) n k j (omega (arith, lt)) (omega (arith, e))

get_elem?-append_left :
    {A : Type 0} (xs ys : List A) (i : ℕ) (a : A)
    → get_elem? xs i ≡ some a
    → get_elem? (xs ++ ys) i ≡ some a
get_elem?-append_left [] ys i a h = absurd (cc)
get_elem?-append_left (x ∷ xs) ys zero a h = h
get_elem?-append_left (x ∷ xs) ys (suc i) a h = get_elem?-append_left xs ys i a h

get_elem?-append_right :
    {A : Type 0} (xs ys : List A) (i j : ℕ)
    → j ≡ length xs + i
    → get_elem? (xs ++ ys) j ≡ get_elem? ys i
get_elem?-append_right [] ys i j e = ap (get_elem? ys) (let same : j ≡ i = omega (arith, e) in same)
get_elem?-append_right (x ∷ xs) ys i zero e = absurd (omega (arith, e))
get_elem?-append_right (x ∷ xs) ys i (suc j) e = get_elem?-append_right xs ys i j (omega (arith, e))

module _ {V : Type 0} (prefix : Text) where
  -- the arguments of a literal that is padded to the width of its table
  pub positional-arguments :
      (schema : Schema) (l : Literal V) (n : ℕ) (d : Dict ℕ (Term V))
      → arity schema l.table.table ≡ some n
      → (length (positional prefix schema l d).arguments ≡ max (length l.arguments) n)
        × ((i : ℕ) (t : Term V)
            → get_elem? l.arguments i ≡ some t
            → get_elem? (positional prefix schema l d).arguments i ≡ some t)
        × ((i : ℕ)
            → length l.arguments ≤ i
            → i < n
            → get_elem? (positional prefix schema l d).arguments i ≡ some (term_at prefix d i))
  positional-arguments schema l n d width =
      let padding =
        pad prefix d (length l.arguments)
          (get_or (arity schema l.table.table) 0 - length l.arguments) in
      let total : get_or (arity schema l.table.table) 0 ≡ n = ground arith in
      (
        ground (
          arith,
          length-append l.arguments padding,
          length-pad prefix d (length l.arguments)
              (get_or (arity schema l.table.table) 0 - length l.arguments),
        ),
        λ i t h. get_elem?-append_left l.arguments padding i t h,
        λ i behind below.
            get_elem?-append_right l.arguments padding (i - length l.arguments) i
              (omega (arith, behind))
            ∙ get_elem?-pad prefix d (length l.arguments)
                (get_or (arity schema l.table.table) 0 - length l.arguments)
                (i - length l.arguments) i (omega (arith, behind, below, total))
                (omega (arith, behind)),
      )
