-- ===== src/Datalog/FactSet.antt =====
-- congress/datalog/factset.py: a set of facts with indices. A fact is the list of its values, of
-- any type with an equality; the facts stand in the order of the `OrderedSet`. An index is a
-- dict from keys to sets of facts. Where a method raises, the state that it leaves comes beside
-- the missing result; an index is updated where the loop over `_indicies` stands at its entry.

pub mod Index
pub mod Changes
pub mod Create
pub mod Find
use congress.Prelude.{
  ℕ, zero, suc, ◌≤◌, ite, Bool, true, false, ◌&&◌, Option, none, some, List, [], ◌∷◌, ◌++◌, map,
  length, get_elem?, List-discrete, if◌then◌else◌, ℕ_discrete, leb, get_or,
}
use congress.Sets.{member, insert, discard}
use congress.Dict.Base.{Dict, get, put, remove, has, keys}

abbrev pub Columns : Type 0
Columns = List ℕ

abbrev pub columns_dec : Discrete Columns
columns_dec = List-discrete ℕ_discrete

abbrev pub Fact : Type 0 → Type 0
Fact A = List A

abbrev pub Index : Type 0 → Type 0
Index A = Dict (List A) (List (Fact A))

pub record FactSet (A : Type 0) : Type 0 where
  pub facts : List (Fact A)
  pub indicies : Dict Columns (Index A)

-- `sorted(columns) == list(columns)`
unfoldable pub is_sorted : Columns → Bool
is_sorted [] = true
is_sorted (c ∷ []) = true
is_sorted (c ∷ d ∷ cs) = leb c d && is_sorted (d ∷ cs)

abbrev pub is_nil {ℓ} : {B : Type ℓ} → List B → Bool
is_nil [] = true
is_nil (x ∷ xs) = false

module _ {A : Type 0} where
  -- `_compute_key`; `none` is an IndexError
  unfoldable pub compute_key : Columns → Fact A → Option (List A)
  compute_key [] fact = some []
  compute_key (i ∷ columns) fact = elim (get_elem? fact i) [
    | none ↦ none
    | some v ↦ elim (compute_key columns fact) [ none ↦ none | some k ↦ some (v ∷ k) ]
  ]

  unfoldable pub has_index : Columns → FactSet A → Bool
  has_index columns s = has columns_dec s.indicies columns

module _ {A : Type 0} (dec : Discrete A) where
  -- the bucket of a key, empty where there is none
  unfoldable pub bucket : Index A → List A → List (Fact A)
  bucket index k = get_or (get (List-discrete dec) index k) []

  -- `_add_fact_to_index` once the key is computed
  unfoldable pub index_add : Index A → List A → Fact A → Index A
  index_add index k fact =
      put (List-discrete dec) index k (insert (List-discrete dec) fact (bucket index k))

  -- `_remove_fact_from_index` once the key is computed; `none` is a KeyError
  unfoldable pub index_remove : Index A → List A → Fact A → Option (Index A)
  index_remove index k fact =
      let rest = discard (List-discrete dec) fact (bucket index k) in
      if member (List-discrete dec) fact (bucket index k)
      then some (
          if is_nil rest
          then remove (List-discrete dec) index k
          else put (List-discrete dec) index k rest)
      else none

  -- the loop of `add` over the indices, up to the first exception
  unfoldable pub add_to_indices : Fact A → Dict Columns (Index A) → Dict Columns (Index A) × Bool
  add_to_indices fact [] = ([], true)
  add_to_indices fact ((columns, index) ∷ d) =
      let (d', done) = add_to_indices fact d in
      elim (compute_key columns fact) [
        | none ↦ ((columns, index) ∷ d, false)
        | some k ↦ ((columns, index_add index k fact) ∷ d', done)
      ]

  unfoldable pub remove_from_index : Columns → Fact A → Index A → Option (Index A)
  remove_from_index columns fact index = elim (compute_key columns fact) [
    | none ↦ none
    | some k ↦ index_remove index k fact
  ]

  unfoldable pub remove_from_indices :
      Fact A → Dict Columns (Index A) → Dict Columns (Index A) × Bool
  remove_from_indices fact [] = ([], true)
  remove_from_indices fact ((columns, index) ∷ d) =
      let (d', done) = remove_from_indices fact d in
      elim (remove_from_index columns fact index) [
        | none ↦ ((columns, index) ∷ d, false)
        | some index' ↦ ((columns, index') ∷ d', done)
      ]

  -- the result of `add`; an exception takes the fact back out
  abbrev pub after_add :
      Fact A → List (Fact A) → Dict Columns (Index A) × Bool → FactSet A × Option Bool
  after_add fact facts (d, true) = (record { facts = facts; indicies = d }, some true)
  after_add fact facts (d, false) =
      (record { facts = discard (List-discrete dec) fact facts; indicies = d }, none)

  unfoldable pub add : Fact A → FactSet A → FactSet A × Option Bool
  unfolding add_to_indices
  add fact s =
      if member (List-discrete dec) fact s.facts
      then (s, some false)
      else after_add fact (s.facts ++ fact ∷ []) (add_to_indices fact s.indicies)

  -- the result of `remove`; an exception puts the fact back, at the end
  abbrev pub after_remove :
      Fact A → List (Fact A) → Dict Columns (Index A) × Bool → FactSet A × Option Bool
  after_remove fact facts (d, true) = (record { facts = facts; indicies = d }, some true)
  after_remove fact facts (d, false) = (record { facts = facts ++ fact ∷ []; indicies = d }, none)

  unfoldable pub remove_fact : Fact A → FactSet A → FactSet A × Option Bool
  unfolding remove_from_indices
  remove_fact fact s =
      if member (List-discrete dec) fact s.facts
      then after_remove fact (discard (List-discrete dec) fact s.facts)
          (remove_from_indices fact s.indicies)
      else (s, some false)

  -- `_add_fact_to_index`, which makes the index if it is missing, before it computes the key
  unfoldable pub add_fact_to_index : Fact A → Columns → FactSet A → FactSet A × Option (Unit {0})
  add_fact_to_index fact columns s =
      let index = get_or (get columns_dec s.indicies columns) [] in
      elim (compute_key columns fact) [
        | none ↦ (record s { indicies = put columns_dec s.indicies columns index }, none)
        | some k ↦ (
          record s { indicies = put columns_dec s.indicies columns (index_add index k fact) },
          some tt,
        )
      ]

  -- the loop of `create_index` over the facts
  unfoldable pub index_facts : List (Fact A) → Columns → FactSet A → FactSet A × Option (Unit {0})
  index_facts [] columns s = (s, some tt)
  index_facts (f ∷ fs) columns s =
      let (s', r) = add_fact_to_index f columns s in
      let rest = index_facts fs columns s' in elim r [ none ↦ (s', none) | some _ ↦ rest ]

  -- `none` is an AssertionError or an IndexError
  unfoldable pub create_index : Columns → FactSet A → FactSet A × Option (Unit {0})
  create_index columns s =
      if is_sorted columns
      then if is_nil columns
        then (s, none)
        else if has_index columns s
        then (s, some tt)
        else index_facts s.facts columns s
      else (s, none)

  unfoldable pub remove_index : Columns → FactSet A → FactSet A × Option (Unit {0})
  remove_index columns s =
      if is_sorted columns
      then (record s { indicies = remove columns_dec s.indicies columns }, some tt)
      else (s, none)

  -- whether a fact has the values of the partial fact; `none` is an IndexError
  unfoldable pub matches : List (ℕ × A) → Fact A → Option Bool
  matches [] f = some true
  matches ((i, v) ∷ partial) f = elim (get_elem? f i) [
    | none ↦ none
    | some x ↦ ite (dec x v) (matches partial f) (some false)
  ]

  unfoldable pub scan : List (ℕ × A) → List (Fact A) → Option (List (Fact A))
  scan partial [] = some []
  scan partial (f ∷ fs) =
      let rest = scan partial fs in
      elim (matches partial f) [
        | none ↦ none
        | some b ↦ elim rest [ none ↦ none | some found ↦ some (if b then f ∷ found else found) ]
      ]

  -- `find`: the matching facts, and the number of iterations that it reports
  unfoldable pub find : List (ℕ × A) → FactSet A → Option (List (Fact A) × ℕ)
  find partial s =
      let columns = map (λ (e : ℕ × A). e.0) partial in
      let k = map (λ (e : ℕ × A). e.1) partial in
      elim (get columns_dec s.indicies columns) [
        | some index ↦ some (bucket index k, 1)
        | none ↦ elim (scan partial s.facts) [
          | none ↦ none
          | some found ↦ some (found, length s.facts)
        ]
      ]
