-- ===== src/Datalog/FactSet/Index.antt =====
-- The indices of factset.py hold, under each key, exactly the facts with that key.
use congress.Prelude.{
  ◌≡◌, ◌≢◌, refl, ◌∙◌, ite, Bool, true, false, ◌&&◌, none, some, List, [], ◌∷◌, ◌++◌, List-discrete,
  arith, is_some, get_or, Option-cases, inl, inr, if◌then◌else◌,
}
use congress.Sets.{member, insert, discard, member-append, member-insert, member-discard}
use congress.Dict.Base.{Dict, get, put, remove, get-put, get-remove}
use congress.Datalog.FactSet.{
  Columns, Fact, Index, is_nil, compute_key, bucket, index_add, index_remove, add_to_indices,
  remove_from_index, remove_from_indices,
}

module _ {A : Type 0} (dec : Discrete A) where
  -- the fact has this key
  abbrev pub has_key : Columns → List A → Fact A → Bool
  has_key columns k f = elim (compute_key columns f) [
    | none ↦ false
    | some j ↦ ite (List-discrete dec j k) true false
  ]

  abbrev pub in_facts : Fact A → List (Fact A) → Bool
  in_facts = member (List-discrete dec)

  pub record IsIndexed (facts : List (Fact A)) (columns : Columns) (index : Index A) : Type 0 where
    -- every fact is wide enough
    pub keyed : (f : Fact A) → in_facts f facts ≡ true → is_some (compute_key columns f) ≡ true
    pub exact :
        (k : List A) (f : Fact A)
        → in_facts f (bucket dec index k) ≡ (in_facts f facts && has_key columns k f)
    pub occupied : (k : List A) → get (List-discrete dec) index k ≢ some []

  insert-ne-nil : (f : Fact A) (b : List (Fact A)) → insert (List-discrete dec) f b ≢ []
  unfolding insert member
  insert-ne-nil f [] = ground arith
  insert-ne-nil f (x ∷ b) = ground arith

  not_nil : (b : List (Fact A)) → is_nil b ≡ false → b ≢ []
  not_nil [] h = cc
  not_nil (x ∷ b) h = cc

  member_nil : (b : List (Fact A)) (g : Fact A) → is_nil b ≡ true → in_facts g b ≡ false
  unfolding member
  member_nil [] g h = refl
  member_nil (x ∷ b) g h = cc

  pub index_add-IsIndexed :
      (facts : List (Fact A)) (columns : Columns) (index : Index A) (f : Fact A) (k : List A)
      → compute_key columns f ≡ some k
      → IsIndexed facts columns index
      → IsIndexed (facts ++ f ∷ []) columns (index_add dec index k f)
  unfolding index_add bucket
  index_add-IsIndexed facts columns index f k e h = record {
    keyed =
        λ g m. ground (arith, member-append (List-discrete dec) g facts (f ∷ []), h.keyed g, one g);
    exact = λ j g. ground (
      arith,
      get-put (List-discrete dec) index k j
          (insert (List-discrete dec) f (get_or (get (List-discrete dec) index k) [])),
      member-insert (List-discrete dec) f g (get_or (get (List-discrete dec) index k) []),
      member-append (List-discrete dec) g facts (f ∷ []),
      h.exact k g,
      h.exact j g,
      one g,
    );
    occupied = λ j. ground (
      arith,
      get-put (List-discrete dec) index k j
          (insert (List-discrete dec) f (get_or (get (List-discrete dec) index k) [])),
      insert-ne-nil f (get_or (get (List-discrete dec) index k) []),
      h.occupied j,
    );
  }
    where
      one : (g : Fact A) → in_facts g (f ∷ []) ≡ ite (List-discrete dec f g) true false
      one g = unfold member in refl

  index_remove-IsIndexed :
      (facts : List (Fact A)) (columns : Columns) (index : Index A) (f : Fact A) (k : List A)
      → in_facts f facts ≡ true
      → compute_key columns f ≡ some k
      → IsIndexed facts columns index
      → (index' : Index A) × (index_remove dec index k f ≡ some index')
        × IsIndexed (discard (List-discrete dec) f facts) columns index'
  unfolding index_remove
  index_remove-IsIndexed facts columns index f k m e h = (
    after,
    ground (arith, h.exact k f),
    record {
      keyed = λ g w. ground (arith, member-discard (List-discrete dec) f g facts, h.keyed g);
      exact = λ j g.
          member_after j g
          ∙ ground (
            arith,
            member-discard (List-discrete dec) f g (bucket dec index k),
            member-discard (List-discrete dec) f g facts,
            h.exact k g,
            h.exact j g,
          );
      occupied = λ j. ground (
        arith,
        get-put (List-discrete dec) index k j rest,
        get-remove (List-discrete dec) index k j,
        not_nil rest,
        h.occupied j,
      );
    },
  )
    where
      rest : List (Fact A)
      rest = discard (List-discrete dec) f (bucket dec index k)

      after : Index A
      after =
          if is_nil rest
          then remove (List-discrete dec) index k
          else put (List-discrete dec) index k rest

      member_after :
          (j : List A) (g : Fact A)
          → in_facts g (bucket dec after j)
            ≡ ite (List-discrete dec k j) (in_facts g rest) (in_facts g (bucket dec index j))
      member_after j g =
          unfold bucket in
          ground (
            arith,
            get-put (List-discrete dec) index k j rest,
            get-remove (List-discrete dec) index k j,
            member_nil rest g,
            member_nil [] g,
          )

  remove_from_index-IsIndexed :
      (facts : List (Fact A)) (columns : Columns) (index : Index A) (f : Fact A)
      → in_facts f facts ≡ true
      → IsIndexed facts columns index
      → (index' : Index A) × (remove_from_index dec columns f index ≡ some index')
        × IsIndexed (discard (List-discrete dec) f facts) columns index'
  unfolding remove_from_index
  remove_from_index-IsIndexed facts columns index f m h =
      elim (Option-cases (compute_key columns f)) [
        | inl e ↦ absurd (ground (arith, h.keyed f))
        | inr (k, e) ↦
            rw (e, remove_from_index) (index_remove-IsIndexed facts columns index f k m e h)
      ]

  abbrev pub AllIndexed : List (Fact A) → Dict Columns (Index A) → Type 0
  AllIndexed facts [] = Unit
  AllIndexed facts ((columns, index) ∷ d) = IsIndexed facts columns index × AllIndexed facts d

  -- the fact has all the columns of the indices
  abbrev pub Fits : Fact A → Dict Columns (Index A) → Type 0
  Fits f [] = Unit
  Fits f ((columns, index) ∷ d) = (is_some (compute_key columns f) ≡ true) × Fits f d

  pub add_to_indices-AllIndexed :
      (facts : List (Fact A)) (d : Dict Columns (Index A)) (f : Fact A)
      → Fits f d
      → AllIndexed facts d
      → (d' : Dict Columns (Index A)) × (add_to_indices dec f d ≡ (d', true))
        × AllIndexed (facts ++ f ∷ []) d'
  unfolding add_to_indices
  add_to_indices-AllIndexed facts [] f fits h = ([], refl, tt)
  add_to_indices-AllIndexed facts ((columns, index) ∷ d) f fits h =
      let (d', e, h') = add_to_indices-AllIndexed facts d f fits.1 h.1 in
      elim (Option-cases (compute_key columns f)) [
        | inl p ↦ absurd (ground arith)
        | inr (k, p) ↦ (
          (columns, index_add dec index k f) ∷ d',
          ground arith,
          (index_add-IsIndexed facts columns index f k p h.0, h'),
        )
      ]

  pub remove_from_indices-AllIndexed :
      (facts : List (Fact A)) (d : Dict Columns (Index A)) (f : Fact A)
      → in_facts f facts ≡ true
      → AllIndexed facts d
      → (d' : Dict Columns (Index A)) × (remove_from_indices dec f d ≡ (d', true))
        × AllIndexed (discard (List-discrete dec) f facts) d'
  unfolding remove_from_indices
  remove_from_indices-AllIndexed facts [] f m h = ([], refl, tt)
  remove_from_indices-AllIndexed facts ((columns, index) ∷ d) f m h =
      let (d', e, h') = remove_from_indices-AllIndexed facts d f m h.1 in
      let (index', p, q) = remove_from_index-IsIndexed facts columns index f m h.0 in
      ((columns, index') ∷ d', ground arith, (q, h'))
