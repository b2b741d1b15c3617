-- ===== src/Datalog/ModalIndex.antt =====
-- congress/datalog/analysis.py: `ModalIndex`, the tables of each modal with reference counts. A
-- count is what the code calls `self.index[modal][tablename]`.
pub mod Counts
pub mod Merge
pub mod Subtract
use congress.Prelude.{
  ℕ, ℤ, pos, negsuc, difference, magnitude, ◌+◌, ◌-◌, Text, Text-discrete, Bool, true, false,
  Option, none, some, List, [], ◌∷◌, ◌++◌, get_or, if◌then◌else◌, is_some, ◌==◌,
}
use congress.Dict.Base.{Dict, get, put, remove, keys}
use congress.Dict.Nested.{get2, put2, remove2}

-- {modal -> {tablename -> count}}
abbrev pub ModalIndex : Type 0
ModalIndex = Dict Text (Dict Text ℕ)

abbrev pub dec : Discrete Text
dec = Text-discrete

unfoldable pub add : ModalIndex → Text → Text → ModalIndex
add index modal table =
    put2 dec dec index modal table (get_or (get2 dec dec index modal table) 0 + 1)

abbrev is_nil {ℓ} : {B : Type ℓ} → List B → Bool
is_nil [] = true
is_nil (x ∷ xs) = false

-- {modal -> {tablename -> count}} while counts are subtracted, which may go below 0
abbrev pub SignedIndex : Type 0
SignedIndex = Dict Text (Dict Text ℤ)

-- `count <= 0`
abbrev pub spent : ℕ → Bool
spent n = n == 0

abbrev pub spent_signed : ℤ → Bool
spent_signed (pos n) = n == 0
spent_signed (negsuc n) = true

-- `if not len(self.index[modal]): del self.index[modal]`
unfoldable pub drop_empty : {C : Type 0} → Dict Text (Dict Text C) → Text → Dict Text (Dict Text C)
drop_empty index modal =
    if is_nil (get_or (get dec index modal) []) then remove dec index modal else index

-- `_clean_up` of an entry that is there; `is_spent` is the test of its count
unfoldable pub clean_up :
    {C : Type 0} → (C → Bool) → Dict Text (Dict Text C) → Text → Text → Dict Text (Dict Text C)
unfolding drop_empty
clean_up is_spent index modal table =
    drop_empty
      (if elim (get2 dec dec index modal table) [ none ↦ false | some n ↦ is_spent n ]
        then remove2 dec dec index modal table
        else index)
      modal

-- `none` is a KeyError
unfoldable pub remove_one : ModalIndex → Text → Text → Option ModalIndex
remove_one index modal table = elim (get2 dec dec index modal table) [
  | none ↦ none
  | some n ↦ some (clean_up spent (put2 dec dec index modal table (n - 1)) modal table)
]

unfoldable pub modals : ModalIndex → List Text
modals index = keys index

unfoldable pub tables : ModalIndex → Text → List Text
tables index modal = elim (get dec index modal) [ none ↦ [] | some d ↦ keys d ]

-- The loops of `__isub__`: the counts of one modal, and of all. A modal or a table that the other
-- index has not is passed over.
unfoldable pub subtract_tables : Dict Text ℕ → Dict Text ℕ → Dict Text ℤ
subtract_tables [] other = []
subtract_tables ((t, n) ∷ d) other =
    (t, elim (get dec other t) [ none ↦ pos n | some k ↦ difference n k ]) ∷ subtract_tables d other

unfoldable pub subtract : ModalIndex → ModalIndex → SignedIndex
unfolding subtract_tables
subtract [] other = []
subtract ((m, d) ∷ index) other =
    (m, subtract_tables d (get_or (get dec other m) [])) ∷ subtract index other

-- the entries that both have, in the order of the loops: `changes`
unfoldable pub changed_tables : Text → Dict Text ℕ → Dict Text ℕ → List (Text × Text)
changed_tables m [] other = []
changed_tables m ((t, n) ∷ d) other =
    let rest = changed_tables m d other in if is_some (get dec other t) then (m, t) ∷ rest else rest

unfoldable pub changes : ModalIndex → ModalIndex → List (Text × Text)
unfolding changed_tables
changes [] other = []
changes ((m, d) ∷ index) other =
    changed_tables m d (get_or (get dec other m) []) ++ changes index other

unfoldable pub clean_up_all : List (Text × Text) → SignedIndex → SignedIndex
clean_up_all [] index = index
clean_up_all ((m, t) ∷ cs) index = clean_up_all cs (clean_up spent_signed index m t)

-- the index as `__isub__` leaves it
unfoldable pub left_over : ModalIndex → ModalIndex → SignedIndex
left_over index other = clean_up_all (changes index other) (subtract index other)

-- The counts as natural numbers. A count below 0 would be read as its magnitude.
unfoldable pub magnitudes : Dict Text ℤ → Dict Text ℕ
magnitudes [] = []
magnitudes ((t, z) ∷ d) = (t, magnitude z) ∷ magnitudes d

unfoldable pub read_counts : SignedIndex → ModalIndex
unfolding magnitudes
read_counts [] = []
read_counts ((m, d) ∷ index) = (m, magnitudes d) ∷ read_counts index

unfoldable pub isub : ModalIndex → ModalIndex → ModalIndex
unfolding left_over read_counts
isub index other = read_counts (left_over index other)

-- The loops of `__iadd__`. A modal that is new takes the other's dict of tables.
unfoldable pub add_tables : Text → Dict Text ℕ → ModalIndex → ModalIndex
add_tables m [] index = index
add_tables m ((t, n) ∷ d) index =
    add_tables m d (put2 dec dec index m t (get_or (get2 dec dec index m t) 0 + n))

unfoldable pub iadd : ModalIndex → ModalIndex → ModalIndex
iadd index [] = index
iadd index ((m, d) ∷ other) =
    iadd (elim (get dec index m) [ none ↦ put dec index m d | some _ ↦ add_tables m d index ]) other
