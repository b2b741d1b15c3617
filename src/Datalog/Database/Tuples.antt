-- ===== src/Datalog/Database/Tuples.antt =====
-- The tuples of one table of `Database` of database.py.
use congress.Prelude.{
  ◌≡◌, refl, Bool, true, false, ite, Option, none, some, List, [], ◌∷◌, arith, is_some,
  if◌then◌else◌,
}
use congress.Sets.{minus, union, subset, insert}
use congress.Datalog.Database.{
  DbTuple, is_nil, covers, has_tuple, proofs_in, insert_tuple, delete_tuple,
}

module _ {V P : Type 0} (dec : Discrete (List V)) (dec_proof : Discrete P) where
  -- no tuple stands twice
  abbrev pub NoTwice : List (DbTuple V P) → Type 0
  NoTwice [] = Unit
  NoTwice (t ∷ ts) = (proofs_in dec dec_proof t.tuple ts ≡ none) × NoTwice ts

  -- what an insertion makes of a tuple's proofs
  abbrev pub with_proofs : List P → Option (List P) → Option (List P)
  with_proofs ps none = some ps
  with_proofs ps (some old) = some (union dec_proof old ps)

  -- what a deletion makes of a tuple's proofs: none left means that the tuple goes
  abbrev pub without_proofs : List P → Option (List P) → Option (List P)
  without_proofs ps none = none
  without_proofs ps (some old) =
      let remaining = minus dec_proof old ps in if is_nil remaining then none else some remaining

  -- whether the tuple is there with all these proofs
  abbrev pub covered : List P → Option (List P) → Bool
  covered ps none = false
  covered ps (some old) = subset dec_proof ps old

  pub proofs_in-insert_tuple :
      (x y : List V) (ps : List P) (ts : List (DbTuple V P))
      → proofs_in dec dec_proof y (insert_tuple dec dec_proof x ps ts)
        ≡ ite
            (dec x y)
            (with_proofs ps (proofs_in dec dec_proof x ts))
            (proofs_in dec dec_proof y ts)
  unfolding proofs_in insert_tuple
  proofs_in-insert_tuple x y ps [] = ground arith
  proofs_in-insert_tuple x y ps (t ∷ ts) = ground (arith, proofs_in-insert_tuple x y ps ts)

  pub proofs_in-delete_tuple :
      (x y : List V) (ps : List P) (ts : List (DbTuple V P))
      → NoTwice ts
      → proofs_in dec dec_proof y (delete_tuple dec dec_proof x ps ts)
        ≡ ite
            (dec x y)
            (without_proofs ps (proofs_in dec dec_proof x ts))
            (proofs_in dec dec_proof y ts)
  unfolding proofs_in delete_tuple
  proofs_in-delete_tuple x y ps [] h = ground arith
  proofs_in-delete_tuple x y ps (t ∷ ts) h = ground (arith, proofs_in-delete_tuple x y ps ts h.1)

  pub insert_tuple-NoTwice :
      (x : List V) (ps : List P) (ts : List (DbTuple V P))
      → NoTwice ts
      → NoTwice (insert_tuple dec dec_proof x ps ts)
  unfolding proofs_in insert_tuple
  insert_tuple-NoTwice x ps [] h = ground arith
  insert_tuple-NoTwice x ps (t ∷ ts) h =
      ground (arith, insert_tuple-NoTwice x ps ts h.1, proofs_in-insert_tuple x t.tuple ps ts)

  pub delete_tuple-NoTwice :
      (x : List V) (ps : List P) (ts : List (DbTuple V P))
      → NoTwice ts
      → NoTwice (delete_tuple dec dec_proof x ps ts)
  unfolding proofs_in delete_tuple
  delete_tuple-NoTwice x ps [] h = ground arith
  delete_tuple-NoTwice x ps (t ∷ ts) h =
      ground (arith, delete_tuple-NoTwice x ps ts h.1, proofs_in-delete_tuple x t.tuple ps ts h.1)

  pub covers-proofs_in :
      (x : List V) (ps : List P) (ts : List (DbTuple V P))
      → NoTwice ts
      → covers dec dec_proof x ps ts ≡ covered ps (proofs_in dec dec_proof x ts)
  unfolding covers proofs_in
  covers-proofs_in x ps [] h = refl
  covers-proofs_in x ps (t ∷ ts) h = ground (arith, covers-proofs_in x ps ts h.1)

  pub has_tuple-proofs_in :
      (x : List V) (ts : List (DbTuple V P))
      → has_tuple dec dec_proof x ts ≡ is_some (proofs_in dec dec_proof x ts)
  unfolding has_tuple proofs_in
  has_tuple-proofs_in x [] = refl
  has_tuple-proofs_in x (t ∷ ts) = ground (arith, has_tuple-proofs_in x ts)

  -- nothing is added that is there
  pub union-subset : (xs ys : List P) → subset dec_proof ys xs ≡ true → union dec_proof xs ys ≡ xs
  unfolding union subset insert
  union-subset xs [] h = refl
  union-subset xs (y ∷ ys) h = ground (arith, union-subset xs ys)
