-- ===== src/Datalog/Builtins/Maps.antt =====
-- Operations of the registry of builtins of builtin.py on maps and on whole categories.
use congress.Prelude.{
  ◌+◌, ◌≡◌, ◌≢◌, ◌⊎◌, refl, sym, ap, subst, ◌∙◌, inl, inr, Text, Text-discrete, some, List, [], ◌∷◌,
  ◌++◌, arith, get_or, Has, Has-append_left, Has-append_right, Has-append_cases,
}
use congress.Dict.Base.{get, put, get-put}
use congress.Datalog.Builtins.{BuiltinPred, Registry, sync_add, append_pred, insert_category}
use congress.Datalog.Builtins.Registered.{IsRegistry, preds_in, put_same, put_other}

module _ {F : Type 0} where
  -- a new category, or one that is emptied
  pub insert_category-IsRegistry :
      (c : Text) (r : Registry F)
      → IsRegistry r
      → ((n : Text) (p : BuiltinPred F) → get Text-discrete r.preddict n ≢ some (p, c))
      → IsRegistry (insert_category c r)
  unfolding insert_category
  insert_category-IsRegistry c r h free = record {
    entries = λ n p d e. elim (Text-discrete c d) [
      | yes same_c ↦ absurd (free n p (e ∙ ap (λ (t : Text). some (p, t)) (sym same_c)))
      | no other ↦
          let (name, at) = h.entries n p d e in
          (name, subst (Has p) (sym (put_other r.categorydict c d [] other)) at)
    ];
    fresh = λ d p m. h.fresh d p (before d p m);
    same = λ d p q m k. h.same d p q (before d p m) (before d q k);
  }
    where
      before :
          (d : Text) (p : BuiltinPred F)
          → Has p (get_or (get Text-discrete (put Text-discrete r.categorydict c []) d) [])
          → Has p (preds_in r d)
      before d p m = elim (Text-discrete c d) [
        | yes same_c ↦ absurd (subst (Has p) (put_same r.categorydict c d [] same_c) m)
        | no other ↦ subst (Has p) (put_other r.categorydict c d [] other) m
      ]

  -- an object is made
  pub made-IsRegistry :
      (r : Registry F) → IsRegistry r → IsRegistry (record r { created = r.created + 1 })
  made-IsRegistry r h = record {
    entries = h.entries;
    fresh = λ c p m. omega (arith, h.fresh c p m);
    same = h.same;
  }

  -- a new object is registered
  pub added-IsRegistry :
      (key : Text) (p : BuiltinPred F) (r : Registry F)
      → IsRegistry r
      → p.ident ≡ r.created
      → IsRegistry (sync_add p key (append_pred key p (record r { created = r.created + 1 })))
  unfolding sync_add
  added-IsRegistry key p r h new = record {
    entries = λ n q c e. elim (Text-discrete p.predname n) [
      | yes name ↦
          let same_entry : (p, key) ≡ (q, c) =
            ground (arith, get-put Text-discrete r.preddict p.predname n (p, key)) in
          subst
            (λ (b : BuiltinPred F × Text).
              (b.0.predname ≡ n)
              × Has b.0 (
                  get_or
                    (get Text-discrete
                      (put Text-discrete r.categorydict key (preds_in r key ++ p ∷ [])) b.1)
                    []))
            same_entry
            (
              name,
              subst (Has p) (sym (put_same r.categorydict key key (preds_in r key ++ p ∷ []) refl))
                  (Has-append_right p (preds_in r key) (p ∷ []) (inl refl)),
            )
      | no differs ↦
          let (name, at) =
            h.entries n q c
              (ground (arith, get-put Text-discrete r.preddict p.predname n (p, key))) in
          (name, after q c at)
    ];
    fresh = λ c q m. elim (before q c m) [
      | inl e ↦ omega (arith, ap (λ (b : BuiltinPred F). b.ident) e, new)
      | inr at ↦ omega (arith, h.fresh c q at)
    ];
    same = λ c q q' m m' i. elim (before q c m) [
      | inl e ↦ elim (before q' c m') [
        | inl e' ↦ e ∙ sym e'
        | inr at ↦
            absurd (omega (arith, h.fresh c q' at, ap (λ (b : BuiltinPred F). b.ident) e, new, i))
      ]
      | inr at ↦ elim (before q' c m') [
        | inl e' ↦
            absurd (omega (arith, h.fresh c q at, ap (λ (b : BuiltinPred F). b.ident) e', new, i))
        | inr at' ↦ h.same c q q' at at' i
      ]
    ];
  }
    where
      grown : List (BuiltinPred F)
      grown = preds_in r key ++ p ∷ []

      after :
          (q : BuiltinPred F) (c : Text)
          → Has q (preds_in r c)
          → Has q (get_or (get Text-discrete (put Text-discrete r.categorydict key grown) c) [])
      after q c m = elim (Text-discrete key c) [
        | yes same_c ↦ subst (Has q) (sym (put_same r.categorydict key c grown same_c)) (
            Has-append_left q (preds_in r key) (p ∷ [])
              (subst (λ (t : Text). Has q (preds_in r t)) (sym same_c) m))
        | no other ↦ subst (Has q) (sym (put_other r.categorydict key c grown other)) m
      ]

      before :
          (q : BuiltinPred F) (c : Text)
          → Has q (get_or (get Text-discrete (put Text-discrete r.categorydict key grown) c) [])
          → (q ≡ p) ⊎ Has q (preds_in r c)
      before q c m = elim (Text-discrete key c) [
        | yes same_c ↦
            elim (Has-append_cases q (preds_in r key) (p ∷ [])
              (subst (Has q) (put_same r.categorydict key c grown same_c) m)) [
                | inl at ↦ inr (subst (λ (t : Text). Has q (preds_in r t)) same_c at)
                | inr one ↦ elim one [ inl e ↦ inl e | inr none_left ↦ absurd none_left ]
              ]
        | no other ↦ inr (subst (Has q) (put_other r.categorydict key c grown other) m)
      ]
