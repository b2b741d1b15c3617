-- ===== src/Datalog/ModalIndex/Subtract.antt =====
-- The reference counts of analysis.py under `-=` of two indices.
use congress.Prelude.{
  ℕ, ℤ, pos, difference, magnitude, ◌-◌, ◌≡◌, refl, ite, Text, Bool, true, false, ◌&&◌, ◌||◌,
  Option, none, some, is_some, List, [], ◌∷◌, ◌++◌, get_or, arith, Option-cases, inl, inr,
  if◌then◌else◌, ltb,
}
use congress.Dict.Base.{Dict, get, get-nil}
use congress.Dict.Nested.{get2}
use congress.Datalog.ModalIndex.{
  ModalIndex, SignedIndex, dec, spent_signed, clean_up, subtract_tables, subtract, changed_tables,
  changes, clean_up_all, left_over, magnitudes, read_counts, isub,
}
use congress.Datalog.ModalIndex.Counts.{count, get2-clean_up}

-- whether an entry stands among some
abbrev listed : List (Text × Text) → Text → Text → Bool
listed [] p u = false
listed ((m, t) ∷ cs) p u = ite (dec m p) (ite (dec t u) true (listed cs p u)) (listed cs p u)

-- a count that is above 0
abbrev unspent : Option ℤ → Option ℤ
unspent none = none
unspent (some z) = if spent_signed z then none else some z

unspent-cases : (o : Option ℤ) → unspent (unspent o) ≡ unspent o
unspent-cases none = refl
unspent-cases (some z) = ground arith

get2-clean_up-at :
    (index : SignedIndex) (m t p u : Text)
    → get2 dec dec (clean_up spent_signed index m t) p u
      ≡ ite
          (dec m p)
          (ite (dec t u) (unspent (get2 dec dec index p u)) (get2 dec dec index p u))
          (get2 dec dec index p u)
get2-clean_up-at index m t p u = elim (dec m p) [
  | no n ↦ ground (arith, get2-clean_up spent_signed index m t p u)
  | yes a ↦ elim (dec t u) [
    | no n ↦ ground (arith, get2-clean_up spent_signed index m t p u)
    | yes b ↦ elim (Option-cases (get2 dec dec index m t)) [
      | inl e ↦ ground (arith, get2-clean_up spent_signed index m t p u)
      | inr (z, e) ↦ ground (arith, get2-clean_up spent_signed index m t p u)
    ]
  ]
]

-- After the loop of `_clean_up`, the entries that were changed are those above 0.
get2-clean_up_all :
    (cs : List (Text × Text)) (index : SignedIndex) (p u : Text)
    → get2 dec dec (clean_up_all cs index) p u
      ≡ (if listed cs p u then unspent (get2 dec dec index p u) else get2 dec dec index p u)
unfolding clean_up_all
get2-clean_up_all [] index p u = refl
get2-clean_up_all ((m, t) ∷ cs) index p u = ground (
  arith,
  get2-clean_up_all cs (clean_up spent_signed index m t) p u,
  get2-clean_up-at index m t p u,
  unspent-cases (get2 dec dec index p u),
)

listed-append :
    (cs ds : List (Text × Text)) (p u : Text)
    → listed (cs ++ ds) p u ≡ (listed cs p u || listed ds p u)
listed-append [] ds p u = refl
listed-append ((m, t) ∷ cs) ds p u = ground (arith, listed-append cs ds p u)

listed-changed_tables :
    (m : Text) (d other : Dict Text ℕ) (p u : Text)
    → listed (changed_tables m d other) p u
      ≡ (ite (dec m p) (is_some (get dec d u)) false && is_some (get dec other u))
unfolding changed_tables get
listed-changed_tables m [] other p u = ground arith
listed-changed_tables m ((t, n) ∷ d) other p u = ground (arith, listed-changed_tables m d other p u)

-- what is changed stands in the other index
listed-other :
    (index other : ModalIndex) (p u : Text)
    → listed (changes index other) p u ≡ true
    → is_some (get2 dec dec other p u) ≡ true
unfolding changes get2
listed-other [] other p u h = absurd (cc)
listed-other ((m, d) ∷ index) other p u h = ground (
  arith,
  listed-other index other p u,
  listed-append (changed_tables m d (get_or (get dec other m) [])) (changes index other) p u,
  listed-changed_tables m d (get_or (get dec other m) []) p u,
  get-nil {V = ℕ} dec u,
)

-- what stands in both is changed
both-listed :
    (index other : ModalIndex) (p u : Text)
    → is_some (get2 dec dec index p u) ≡ true
    → is_some (get2 dec dec other p u) ≡ true
    → listed (changes index other) p u ≡ true
unfolding changes get2 get
both-listed [] other p u h k = absurd (cc)
both-listed ((m, d) ∷ index) other p u h k = ground (
  arith,
  both-listed index other p u,
  listed-append (changed_tables m d (get_or (get dec other m) [])) (changes index other) p u,
  listed-changed_tables m d (get_or (get dec other m) []) p u,
)

get-subtract_tables :
    (d other : Dict Text ℕ) (u : Text)
    → get dec (subtract_tables d other) u ≡ elim (get dec d u) [
      | none ↦ none
      | some n ↦ some (elim (get dec other u) [ none ↦ pos n | some k ↦ difference n k ])
    ]
unfolding subtract_tables get
get-subtract_tables [] other u = refl
get-subtract_tables ((t, n) ∷ d) other u = ground (arith, get-subtract_tables d other u)

get-subtract :
    (index other : ModalIndex) (p : Text)
    → get dec (subtract index other) p ≡ elim (get dec index p) [
      | none ↦ none
      | some d ↦ some (subtract_tables d (get_or (get dec other p) []))
    ]
unfolding subtract get
get-subtract [] other p = refl
get-subtract ((m, d) ∷ index) other p = ground (arith, get-subtract index other p)

get2-subtract :
    (index other : ModalIndex) (p u : Text)
    → get2 dec dec (subtract index other) p u ≡ elim (get2 dec dec index p u) [
      | none ↦ none
      | some n ↦ some (elim (get2 dec dec other p u) [ none ↦ pos n | some k ↦ difference n k ])
    ]
unfolding get2
get2-subtract index other p u = elim (Option-cases (get dec index p)) [
  | inl e ↦ ground (arith, get-subtract index other p)
  | inr (d, e) ↦ elim (Option-cases (get dec other p)) [
    | inl f ↦
        ground
          (arith, get-subtract index other p, get-subtract_tables d [] u, get-nil {V = ℕ} dec u)
    | inr (o, f) ↦ ground (arith, get-subtract index other p, get-subtract_tables d o u)
  ]
]

get-magnitudes :
    (d : Dict Text ℤ) (u : Text)
    → get dec (magnitudes d) u ≡ elim (get dec d u) [ none ↦ none | some z ↦ some (magnitude z) ]
unfolding magnitudes get
get-magnitudes [] u = refl
get-magnitudes ((t, z) ∷ d) u = ground (arith, get-magnitudes d u)

get-read_counts :
    (index : SignedIndex) (p : Text)
    → get dec (read_counts index) p
      ≡ elim (get dec index p) [ none ↦ none | some d ↦ some (magnitudes d) ]
unfolding read_counts get
get-read_counts [] p = refl
get-read_counts ((m, d) ∷ index) p = ground (arith, get-read_counts index p)

get2-read_counts :
    (index : SignedIndex) (p u : Text)
    → get2 dec dec (read_counts index) p u
      ≡ elim (get2 dec dec index p u) [ none ↦ none | some z ↦ some (magnitude z) ]
unfolding get2
get2-read_counts index p u = elim (Option-cases (get dec index p)) [
  | inl e ↦ ground (arith, get-read_counts index p)
  | inr (d, e) ↦ ground (arith, get-read_counts index p, get-magnitudes d u)
]

-- the entry of a table of a modal after `-=`
abbrev pub subtracted : Option ℕ → Option ℕ → Option ℤ
subtracted none k = none
subtracted (some n) none = some (pos n)
subtracted (some n) (some k) = if ltb k n then some (pos (n - k)) else none

get2-left_over :
    (index other : ModalIndex) (p u : Text)
    → get2 dec dec (left_over index other) p u
      ≡ subtracted (get2 dec dec index p u) (get2 dec dec other p u)
unfolding left_over
get2-left_over index other p u =
    let cleaned = get2-clean_up_all (changes index other) (subtract index other) p u in
    let old = get2-subtract index other p u in
    elim (Option-cases (get2 dec dec index p u)) [
      | inl e ↦ ground (arith, cleaned, old)
      | inr (n, e) ↦ elim (Option-cases (get2 dec dec other p u)) [
        | inl f ↦ ground (arith, cleaned, old, listed-other index other p u)
        | inr (k, f) ↦ ground (arith, cleaned, old, both-listed index other p u)
      ]
    ]

-- After `a -= b`, each entry that both had and whose count was the greater in `a` has the
-- difference of the counts, an entry that only `a` had has its count, and no other entry is left.
-- So each count is that of `a` less that of `b`, and 0 at least.
pub count-isub :
    (index other : ModalIndex) (p u : Text)
    → (get2 dec dec (left_over index other) p u
        ≡ subtracted (get2 dec dec index p u) (get2 dec dec other p u))
      × (count (isub index other) p u ≡ count index p u - count other p u)
unfolding isub count
count-isub index other p u =
    let left = get2-left_over index other p u in
    (
      left,
      elim (Option-cases (get2 dec dec index p u)) [
        | inl e ↦ ground (arith, left, get2-read_counts (left_over index other) p u)
        | inr (n, e) ↦ elim (Option-cases (get2 dec dec other p u)) [
          | inl f ↦ ground (arith, left, get2-read_counts (left_over index other) p u)
          | inr (k, f) ↦ ground (arith, left, get2-read_counts (left_over index other) p u)
        ]
      ],
    )
