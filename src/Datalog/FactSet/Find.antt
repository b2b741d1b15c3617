-- ===== src/Datalog/FactSet/Find.antt =====
-- `find` of factset.py gives the same answer through an index and by iterating over all facts.
use congress.Prelude.{
  ℕ, ◌≡◌, ◌↔◌, refl, subst, Bool, true, false, some, List, [], ◌∷◌, map, arith, Bool-cases,
  Option-cases, inl, inr, if◌then◌else◌, is_some, get_elem?, length, if_neg,
}
use congress.Sets.{member}
use congress.Dict.Base.{Dict, get}
use congress.Datalog.FactSet.{
  Columns, columns_dec, Fact, FactSet, Index, compute_key, bucket, matches, scan, find, has_index,
}
use congress.Datalog.FactSet.Index.{in_facts, has_key, IsIndexed, AllIndexed}
use congress.Datalog.FactSet.Changes.{IsValid}

module _ {A : Type 0} where
  -- the fact has the values of the partial fact at its columns
  abbrev pub Agrees : List (ℕ × A) → Fact A → Type 0
  Agrees [] f = Unit
  Agrees ((i, v) ∷ partial) f = (get_elem? f i ≡ some v) × Agrees partial f

  abbrev pub columns_of : List (ℕ × A) → Columns
  columns_of = map (λ e. e.0)

  abbrev pub values_of : List (ℕ × A) → List A
  values_of = map (λ e. e.1)

module _ {A : Type 0} (dec : Discrete A) where
  key-Agrees :
      (partial : List (ℕ × A)) (f : Fact A)
      → (compute_key (columns_of partial) f ≡ some (values_of partial)) ↔ Agrees partial f
  unfolding compute_key
  key-Agrees [] f = (λ _. tt, λ _. refl)
  key-Agrees ((i, v) ∷ partial) f = ground (arith, key-Agrees partial f)

  has_key-Agrees :
      (partial : List (ℕ × A)) (f : Fact A)
      → (has_key dec (columns_of partial) (values_of partial) f ≡ true) ↔ Agrees partial f
  has_key-Agrees partial f = ground (arith, key-Agrees partial f)

  matches-Agrees :
      (partial : List (ℕ × A)) (f : Fact A)
      → is_some (compute_key (columns_of partial) f) ≡ true
      → (b : Bool) × (matches dec partial f ≡ some b) × ((b ≡ true) ↔ Agrees partial f)
  unfolding compute_key matches
  matches-Agrees [] f h = (true, refl, (λ _. tt, λ _. refl))
  matches-Agrees ((i, v) ∷ partial) f h = elim (Option-cases (get_elem? f i)) [
    | inl e ↦ absurd (ground arith)
    | inr (x, e) ↦
        let (b, m, iff) = matches-Agrees partial f (ground arith) in
        elim (dec x v) [
          | yes p ↦ (b, ground arith, ground arith)
          | no p ↦ (false, ground arith, ground arith)
        ]
  ]

  scan-Agrees :
      (partial : List (ℕ × A)) (fs : List (Fact A))
      → ((f : Fact A)
          → in_facts dec f fs ≡ true
          → is_some (compute_key (columns_of partial) f) ≡ true)
      → (found : List (Fact A)) × (scan dec partial fs ≡ some found)
        × ((f : Fact A)
            → (in_facts dec f found ≡ true) ↔ ((in_facts dec f fs ≡ true) × Agrees partial f))
  unfolding scan member
  scan-Agrees partial [] h = ([], refl, λ f. ground arith)
  scan-Agrees partial (g ∷ fs) h =
      let (found, e, iff) = scan-Agrees partial fs (λ f m. h f (ground arith)) in
      let (b, m, agrees) = matches-Agrees partial g (h g (ground arith)) in
      elim (Bool-cases b) [
        | inl t ↦ (g ∷ found, ground arith, λ f. ground (arith, iff f))
        | inr t ↦ (found, ground arith, λ f. ground (arith, iff f))
      ]

  -- the index of columns that the dict has
  IsIndexed-get :
      (facts : List (Fact A)) (d : Dict Columns (Index A)) (columns : Columns) (index : Index A)
      → AllIndexed dec facts d
      → get columns_dec d columns ≡ some index
      → IsIndexed dec facts columns index
  unfolding get
  IsIndexed-get facts [] columns index h e = absurd (cc)
  IsIndexed-get facts ((c, x) ∷ d) columns index h e = elim (columns_dec c columns) [
    | yes p ↦
        let same : x ≡ index = ground arith in
        subst (λ (b : Columns). IsIndexed dec facts b index) p
          (subst (IsIndexed dec facts c) same h.0)
    | no p ↦ IsIndexed-get facts d columns index h.1 (rw (if_neg _ p) at e)
  ]

  -- On a set whose indices are exact and whose facts have the columns of the partial fact, `find`
  -- raises nothing and returns exactly the facts of the set that have its values, whether it takes
  -- them from an index or iterates. It reports one iteration where the index is there, and
  -- otherwise as many as there are facts.
  pub find-Agrees :
      (partial : List (ℕ × A)) (s : FactSet A)
      → IsValid dec s
      → ((f : Fact A)
          → in_facts dec f s.facts ≡ true
          → is_some (compute_key (columns_of partial) f) ≡ true)
      → (found : List (Fact A)) × (n : ℕ) × (find dec partial s ≡ some (found, n))
        × ((f : Fact A)
            → (in_facts dec f found ≡ true) ↔ ((in_facts dec f s.facts ≡ true) × Agrees partial f))
        × (n ≡ (if has_index (columns_of partial) s then 1 else length s.facts))
  unfolding find has_index
  find-Agrees partial s h wide =
      elim (Option-cases (get columns_dec s.indicies (columns_of partial))) [
        | inl e ↦
            let (found, p, iff) = scan-Agrees partial s.facts wide in
            (found, length s.facts, ground arith, iff, ground arith)
        | inr (index, e) ↦ (
          bucket dec index (values_of partial),
          1,
          ground arith,
          λ f. ground (
            arith,
            (IsIndexed-get s.facts s.indicies (columns_of partial) index h e).exact
                (values_of partial) f,
            has_key-Agrees partial f,
          ),
          ground arith,
        )
      ]
