-- ===== src/Datalog/FactSet/Changes.antt =====
-- `add` and `remove` of factset.py change the set by one fact and keep every index exact.
use congress.Prelude.{
  ◌≡◌, refl, ite, true, false, not, some, [], ◌∷◌, List-discrete, arith, Bool-cases, inl, inr,
}
use congress.Sets.{member, member-append, member-discard}
use congress.Datalog.FactSet.{Fact, FactSet, add, remove_fact}
use congress.Datalog.FactSet.Index.{
  in_facts, AllIndexed, Fits, add_to_indices-AllIndexed, remove_from_indices-AllIndexed,
}

module _ {A : Type 0} (dec : Discrete A) where
  -- Every index of the set is exact.
  abbrev pub IsValid : FactSet A → Type 0
  IsValid s = AllIndexed dec s.facts s.indicies

  -- On a set whose indices are exact, adding a fact that has all their columns raises nothing. It
  -- answers True just where the fact was absent, puts that fact and no other into the set, and
  -- keeps the indices exact.
  pub add-IsValid :
      (f : Fact A) (s : FactSet A)
      → IsValid s
      → Fits dec f s.indicies
      → ((add dec f s).1 ≡ some (not (in_facts dec f s.facts)))
        × ((g : Fact A)
            → in_facts dec g (add dec f s).0.facts
              ≡ ite (List-discrete dec f g) true (in_facts dec g s.facts))
        × IsValid (add dec f s).0
  unfolding add
  add-IsValid f s h fits = elim (Bool-cases (in_facts dec f s.facts)) [
    | inl e ↦ simp (e, add) (refl, λ g. ground arith, h)
    | inr e ↦
        let (d', p, h') = add_to_indices-AllIndexed dec s.facts s.indicies f fits h in
        simp (e, add)
          (simp p (
            refl,
            λ g. ground (arith, member-append (List-discrete dec) g s.facts (f ∷ []), one g),
            h',
          ))
  ]
    where
      one : (g : Fact A) → in_facts dec g (f ∷ []) ≡ ite (List-discrete dec f g) true false
      one g = unfold member in refl

  -- On a set whose indices are exact, removing a fact raises nothing. It answers True just where
  -- the fact was present, takes that fact and no other out of the set, and keeps the indices exact.
  pub remove_fact-IsValid :
      (f : Fact A) (s : FactSet A)
      → IsValid s
      → ((remove_fact dec f s).1 ≡ some (in_facts dec f s.facts))
        × ((g : Fact A)
            → in_facts dec g (remove_fact dec f s).0.facts
              ≡ ite (List-discrete dec f g) false (in_facts dec g s.facts))
        × IsValid (remove_fact dec f s).0
  unfolding remove_fact
  remove_fact-IsValid f s h = elim (Bool-cases (in_facts dec f s.facts)) [
    | inl e ↦
        let (d', p, h') = remove_from_indices-AllIndexed dec s.facts s.indicies f e h in
        simp (e, remove_fact)
          (simp p (refl, λ g. member-discard (List-discrete dec) f g s.facts, h'))
    | inr e ↦ simp (e, remove_fact) (refl, λ g. ground arith, h)
  ]
