-- ===== src/Datalog/FactSet/Create.antt =====
-- `create_index` of factset.py makes an exact index, if there is a fact to put into it.
use mathlib.Core.List.{append-nil, append_assoc}
use congress.Prelude.{
  ◌≡◌, ◌≢◌, refl, ◌∙◌, sym, ap, subst, true, false, not, ◌||◌, Option, none, some, List, [], ◌∷◌,
  ◌++◌, List-discrete, arith, Option-cases, inl, inr, is_some, get_or, if_pos, if_neg,
}
use congress.Sets.{member}
use congress.Dict.Base.{Dict, get, put, get-put, put-put}
use congress.Datalog.FactSet.{
  Columns, columns_dec, Fact, FactSet, Index, is_nil, is_sorted, compute_key, bucket, index_add,
  has_index, add_fact_to_index, index_facts, create_index,
}
use congress.Datalog.FactSet.Index.{in_facts, IsIndexed, AllIndexed, index_add-IsIndexed}
use congress.Datalog.FactSet.Changes.{IsValid}

module _ {A : Type 0} (dec : Discrete A) (columns : Columns) where
  abbrev Keyed : List (Fact A) → Type 0
  Keyed [] = Unit
  Keyed (f ∷ fs) = (is_some (compute_key columns f) ≡ true) × Keyed fs

  index_all : List (Fact A) → Index A → Index A
  index_all [] index = index
  index_all (f ∷ fs) index =
      index_all fs (index_add dec index (get_or (compute_key columns f) []) f)

  key_of :
      (f : Fact A)
      → is_some (compute_key columns f) ≡ true
      → compute_key columns f ≡ some (get_or (compute_key columns f) [])
  key_of f h = ground arith

  index_all-IsIndexed :
      (fs before : List (Fact A)) (index : Index A)
      → Keyed fs
      → IsIndexed dec before columns index
      → IsIndexed dec (before ++ fs) columns (index_all fs index)
  unfolding index_all
  index_all-IsIndexed [] before index k h = rw (append-nil before) h
  index_all-IsIndexed (f ∷ fs) before index k h =
      subst (λ l. IsIndexed dec l columns (index_all (f ∷ fs) index))
        (append_assoc before (f ∷ []) fs)
        (index_all-IsIndexed fs (before ++ f ∷ []) _ k.1
          (index_add-IsIndexed dec before columns index f _ (key_of f k.0) h))

  pub IsIndexed-nil : IsIndexed dec [] columns []
  IsIndexed-nil = record {
    keyed = λ f m. unfold member in ground arith;
    exact = λ k f. unfold bucket get member in refl;
    occupied = λ k. unfold get in ground arith;
  }

  add_fact-put :
      (f : Fact A) (s : FactSet A)
      → is_some (compute_key columns f) ≡ true
      → add_fact_to_index dec f columns s ≡ (
        record s {
          indicies = put columns_dec s.indicies columns (
              index_add dec
                (get_or (get columns_dec s.indicies columns) [])
                (get_or (compute_key columns f) [])
                f);
        },
        some tt,
      )
  unfolding add_fact_to_index
  add_fact-put f s h = ground arith

  index_facts-cons :
      (f : Fact A) (fs : List (Fact A)) (s s' : FactSet A)
      → add_fact_to_index dec f columns s ≡ (s', some tt)
      → index_facts dec (f ∷ fs) columns s ≡ index_facts dec fs columns s'
  unfolding index_facts
  index_facts-cons f fs s s' e = ground arith

  index_facts-put :
      (fs : List (Fact A)) (s : FactSet A) (index : Index A)
      → Keyed fs
      → index_facts dec fs columns
          (record s { indicies = put columns_dec s.indicies columns index })
        ≡ (record s { indicies = put columns_dec s.indicies columns (index_all fs index) }, some tt)
  unfolding index_facts index_all
  index_facts-put [] s index k = refl
  index_facts-put (f ∷ fs) s index k =
      let s' : FactSet A = record s { indicies = put columns_dec s.indicies columns index } in
      let next = index_add dec index (get_or (compute_key columns f) []) f in
      let same : add_fact_to_index dec f columns s'
          ≡ (record s { indicies = put columns_dec s.indicies columns next }, some tt) =
        add_fact-put f s' k.0
        ∙ ground (
          arith,
          get-put columns_dec s.indicies columns columns index,
          put-put columns_dec s.indicies columns index next,
        ) in
      index_facts-cons f fs s' _ same ∙ index_facts-put fs s next k.1

  -- from the first fact on, the index is there
  index_facts-first :
      (f : Fact A) (fs : List (Fact A)) (s : FactSet A)
      → Keyed (f ∷ fs)
      → index_facts dec (f ∷ fs) columns s ≡ (
        record s {
          indicies =
              put columns_dec s.indicies columns
                (index_all (f ∷ fs) (get_or (get columns_dec s.indicies columns) []));
        },
        some tt,
      )
  unfolding index_facts index_all
  index_facts-first f fs s k =
      index_facts-cons f fs s _ (add_fact-put f s k.0) ∙ index_facts-put fs s _ k.1

  AllIndexed-put :
      (facts : List (Fact A)) (d : Dict Columns (Index A)) (index : Index A)
      → AllIndexed dec facts d
      → IsIndexed dec facts columns index
      → AllIndexed dec facts (put columns_dec d columns index)
  unfolding put
  AllIndexed-put facts [] index h i = (i, tt)
  AllIndexed-put facts ((c, x) ∷ d) index h i = elim (columns_dec c columns) [
    | yes e ↦ rw (if_pos _ e) (subst (λ (b : Columns). IsIndexed dec facts b index) (sym e) i, h.1)
    | no e ↦ rw (if_neg _ e) (h.0, AllIndexed-put facts d index h.1 i)
  ]

  Keyed-Has :
      (fs : List (Fact A))
      → ((f : Fact A) → in_facts dec f fs ≡ true → is_some (compute_key columns f) ≡ true)
      → Keyed fs
  unfolding member
  Keyed-Has [] h = tt
  Keyed-Has (f ∷ fs) h = (
    h f (if_pos (List-discrete dec f f) refl true (in_facts dec f fs)),
    Keyed-Has fs (λ g m. h g (ground arith)),
  )

  abbrev created : List (Fact A) → Dict Columns (Index A) → Dict Columns (Index A)
  created [] d = d
  created (f ∷ fs) d = put columns_dec d columns (index_all (f ∷ fs) [])

  index_facts-created :
      (fs : List (Fact A)) (s : FactSet A)
      → Keyed fs
      → get columns_dec s.indicies columns ≡ none
      → index_facts dec fs columns s ≡ (record s { indicies = created fs s.indicies }, some tt)
  unfolding index_facts
  index_facts-created [] s k e = refl
  index_facts-created (f ∷ fs) s k e =
      index_facts-first f fs s k
      ∙ ap
          (λ (o : Option (Index A)). (
            record s {
              indicies = put columns_dec s.indicies columns (index_all (f ∷ fs) (get_or o []));
            },
            some tt,
          ))
          e

  created-AllIndexed :
      (fs : List (Fact A)) (d : Dict Columns (Index A))
      → Keyed fs
      → AllIndexed dec fs d
      → AllIndexed dec fs (created fs d)
  created-AllIndexed [] d k h = h
  created-AllIndexed (f ∷ fs) d k h =
      AllIndexed-put (f ∷ fs) d _ h (index_all-IsIndexed (f ∷ fs) [] [] k IsIndexed-nil)

  get-created_ne :
      (fs : List (Fact A)) (d : Dict Columns (Index A)) (c : Columns)
      → c ≢ columns
      → get columns_dec (created fs d) c ≡ get columns_dec d c
  get-created_ne [] d c ne = refl
  get-created_ne (f ∷ fs) d c ne =
      ground (arith, get-put columns_dec d columns c (index_all (f ∷ fs) []))

  has-created :
      (fs : List (Fact A)) (d : Dict Columns (Index A))
      → get columns_dec d columns ≡ none
      → is_some (get columns_dec (created fs d) columns) ≡ not (is_nil fs)
  has-created [] d e = ap is_some e
  has-created (f ∷ fs) d e =
      ground (arith, get-put columns_dec d columns columns (index_all (f ∷ fs) []))

  -- Let the columns be sorted and not empty, and let every fact have them. Then `create_index`
  -- raises nothing, leaves the facts, keeps every index exact, and leaves all other indices. The
  -- index is there afterwards exactly where it was there before or the set holds a fact.
  pub create_index-IsValid :
      (s : FactSet A)
      → IsValid dec s
      → is_sorted columns ≡ true
      → is_nil columns ≡ false
      → ((f : Fact A) → in_facts dec f s.facts ≡ true → is_some (compute_key columns f) ≡ true)
      → ((create_index dec columns s).1 ≡ some tt)
        × ((create_index dec columns s).0.facts ≡ s.facts)
        × IsValid dec (create_index dec columns s).0
        × ((c : Columns)
            → c ≢ columns
            → get columns_dec (create_index dec columns s).0.indicies c
              ≡ get columns_dec s.indicies c)
        × (has_index columns (create_index dec columns s).0
            ≡ (has_index columns s || not (is_nil s.facts)))
  unfolding create_index has_index
  create_index-IsValid s h sorted cols wide =
      elim (Option-cases (get columns_dec s.indicies columns)) [
        | inr (index, e) ↦ simp (sorted, cols, e) (refl, refl, h, λ c ne. refl, refl)
        | inl e ↦
            let k = Keyed-Has s.facts wide in
            simp (sorted, cols, e, index_facts-created s.facts s k e)
              (
                refl,
                refl,
                created-AllIndexed s.facts s.indicies k h,
                get-created_ne s.facts s.indicies,
                has-created s.facts s.indicies e,
              )
      ]
