-- ===== src/Datalog/ModalIndex/Merge.antt =====
-- The reference counts of analysis.py under `+=` of two indices.
use congress.Prelude.{
  ℕ, ◌+◌, ◌≡◌, ite, Text, none, some, [], ◌∷◌, get_or, arith, Option-cases, inl, inr,
}
use congress.Dict.Base.{Dict, get, put, get-put, Distinct}
use congress.Dict.Nested.{get2, put2, get2-put2}
use congress.Datalog.ModalIndex.{ModalIndex, dec, add_tables, iadd}
use congress.Datalog.ModalIndex.Counts.{count}

count-add_tables :
    (m : Text) (d : Dict Text ℕ) (index : ModalIndex) (p u : Text)
    → Distinct dec d
    → count (add_tables m d index) p u
      ≡ ite (dec m p) (count index p u + get_or (get dec d u) 0) (count index p u)
unfolding add_tables count get
count-add_tables m [] index p u h = ground arith
count-add_tables m ((t, n) ∷ d) index p u h = ground (
  arith,
  count-add_tables m d (put2 dec dec index m t (get_or (get2 dec dec index m t) 0 + n)) p u h.1,
  get2-put2 dec dec index m t p u (get_or (get2 dec dec index m t) 0 + n),
)

-- every dict of tables has distinct keys
abbrev pub AllDistinct : ModalIndex → Type 0
AllDistinct [] = Unit
AllDistinct ((m, d) ∷ index) = Distinct dec d × AllDistinct index

iadd_one : ModalIndex → Text → Dict Text ℕ → ModalIndex
iadd_one index m d = elim (get dec index m) [
  | none ↦ put dec index m d
  | some _ ↦ add_tables m d index
]

count-iadd_one :
    (index : ModalIndex) (m : Text) (d : Dict Text ℕ) (p u : Text)
    → Distinct dec d
    → count (iadd_one index m d) p u
      ≡ ite (dec m p) (count index p u + get_or (get dec d u) 0) (count index p u)
unfolding iadd_one
count-iadd_one index m d p u h = elim (Option-cases (get dec index m)) [
  | inl e ↦ rw (e, iadd_one) (unfold count get2 in ground (arith, get-put dec index m p d))
  | inr (x, e) ↦ rw (e, iadd_one) (count-add_tables m d index p u h)
]

count-cons :
    (m : Text) (d : Dict Text ℕ) (other : ModalIndex) (p u : Text)
    → get dec other m ≡ none
    → count ((m, d) ∷ other) p u
      ≡ ite (dec m p) (get_or (get dec d u) 0 + count other p u) (count other p u)
unfolding count get2 get
count-cons m d other p u h = ground arith

-- `a += b` adds the other's counts, where the other is a dict of dicts: no key stands twice.
pub count-iadd :
    (other index : ModalIndex) (p u : Text)
    → Distinct dec other
    → AllDistinct other
    → count (iadd index other) p u ≡ count index p u + count other p u
unfolding iadd iadd_one
count-iadd [] index p u h k = unfold count get2 get in omega arith
count-iadd ((m, d) ∷ other) index p u h k = ground (
  arith,
  count-iadd other (iadd_one index m d) p u h.1 k.1,
  count-iadd_one index m d p u k.0,
  count-cons m d other p u h.0,
)
