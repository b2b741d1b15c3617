-- ===== src/Datalog/Schema/Positions.antt =====
-- `column_number` of `Schema` of compile.py.
use congress.Prelude.{
  ℕ, zero, suc, ◌≤◌, ◌<◌, ◌≡◌, ◌≢◌, ◌↔◌, ap, Text, Text-discrete, none, some, List, [], ◌∷◌, length,
  arith, Option-cases, inl, inr, get_elem?,
}
use congress.Datalog.Schema.{Schema, by_name, by_position, index_of, columns, column_number}

index_of_found :
    (x : Text) (cs : List Text) (i : ℕ)
    → index_of x cs ≡ some i
    → (get_elem? cs i ≡ some x) × ((j : ℕ) → j < i → get_elem? cs j ≢ some x)
unfolding index_of
index_of_found x [] i h = absurd (cc)
index_of_found x (y ∷ cs) i h = elim (Text-discrete y x) [
  | yes p ↦ let z : 0 ≡ i = ground arith in rw (← z) (ap some p, λ j lt. absurd (omega (arith, lt)))
  | no p ↦ elim (Option-cases (index_of x cs)) [
    | inl e ↦ absurd (ground arith)
    | inr (k, e) ↦
        let (at, first) = index_of_found x cs k e in
        let z : suc k ≡ i = ground arith in rw (← z) (at, earlier k first p)
  ]
]
  where
    earlier :
        (k : ℕ)
        → ((j : ℕ) → j < k → get_elem? cs j ≢ some x)
        → y ≢ x
        → (j : ℕ) → j < suc k
        → get_elem? (y ∷ cs) j ≢ some x
    earlier k first p zero lt e = p (ground arith)
    earlier k first p (suc j) lt e = first j (omega (arith, lt)) e

index_of_absent :
    (x : Text) (cs : List Text) (j : ℕ) → index_of x cs ≡ none → get_elem? cs j ≢ some x
unfolding index_of
index_of_absent x [] j h e = absurd (cc)
index_of_absent x (y ∷ cs) zero h e = ground arith
index_of_absent x (y ∷ cs) (suc j) h e = index_of_absent x cs j (ground arith) e

-- For a table with known columns: a name's number is the position of the first column of that name,
-- and None just where no column has the name. A number is returned as it is where it is at most the
-- number of columns: so also the one position past the last column.
pub column_number_first :
    (s : Schema) (t : Text) (cs : List Text)
    → columns s t ≡ some cs
    → ((x : Text) (i : ℕ)
        → column_number s t (by_name x) ≡ some i
        → (get_elem? cs i ≡ some x) × ((j : ℕ) → j < i → get_elem? cs j ≢ some x))
      × ((x : Text) (j : ℕ) → column_number s t (by_name x) ≡ none → get_elem? cs j ≢ some x)
      × ((n k : ℕ) → (column_number s t (by_position n) ≡ some k) ↔ ((k ≡ n) × (n ≤ length cs)))
unfolding column_number
column_number_first s t cs h = (
  λ x i e. index_of_found x cs i (rw (h, column_number) at e),
  λ x j e. index_of_absent x cs j (rw (h, column_number) at e),
  λ n k. ground arith,
)
