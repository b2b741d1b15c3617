-- ===== src/Datalog/Builtins/Categories.antt =====
-- Deleting and emptying a category of the registry of builtins of builtin.py.
use congress.Prelude.{
  ◌≡◌, ◌≢◌, refl, sym, ap, subst, ◌∙◌, inl, inr, Text, Text-discrete, some, List, [], ◌∷◌, arith,
  get_or, Has, Option-cases,
}
use congress.Dict.Base.{Dict, get, remove, get-put, get-remove}
use congress.Datalog.Builtins.{
  BuiltinPred, Registry, sync_del, insert_category, sync_del_all, delete_category,
  delete_all_in_category,
}
use congress.Datalog.Builtins.Registered.{IsRegistry, preds_in, sync_del-IsRegistry}
use congress.Datalog.Builtins.Maps.{insert_category-IsRegistry}

module _ {F : Type 0} where
  -- only what the categories hold matters, not which are empty
  pub same_preds-IsRegistry :
      (r : Registry F) (cd : Dict Text (List (BuiltinPred F)))
      → IsRegistry r
      → ((c : Text) → get_or (get Text-discrete cd c) [] ≡ preds_in r c)
      → IsRegistry (record r { categorydict = cd })
  same_preds-IsRegistry r cd h e = record {
    entries = λ n p c f. let (name, at) = h.entries n p c f in (name, subst (Has p) (sym (e c)) at);
    fresh = λ c p m. h.fresh c p (subst (Has p) (e c) m);
    same = λ c p q m m' i. h.same c p q (subst (Has p) (e c) m) (subst (Has q) (e c) m') i;
  }

  sync_del_all-kept :
      (ps : List (BuiltinPred F)) (r : Registry F)
      → IsRegistry r
      → IsRegistry (sync_del_all ps r)
        × ((sync_del_all ps r).categorydict ≡ r.categorydict)
        × ((n : Text) (e : BuiltinPred F × Text)
            → get Text-discrete (sync_del_all ps r).preddict n ≡ some e
            → (get Text-discrete r.preddict n ≡ some e)
              × ((q : BuiltinPred F) → Has q ps → q.predname ≢ n))
  unfolding sync_del_all
  sync_del_all-kept [] r h = (h, refl, λ n e f. (f, λ q m. absurd m))
  sync_del_all-kept (p ∷ ps) r h =
      let (held, cats, entry) =
        sync_del_all-kept ps (sync_del p.predname r) (sync_del-IsRegistry p.predname r h) in
      (held, unfold sync_del in cats, λ n e f. apart n e (entry n e f))
    where
      apart :
          (n : Text) (e : BuiltinPred F × Text)
          → (get Text-discrete (sync_del p.predname r).preddict n ≡ some e)
            × ((q : BuiltinPred F) → Has q ps → q.predname ≢ n)
          → (get Text-discrete r.preddict n ≡ some e)
            × ((q : BuiltinPred F) → Has q (p ∷ ps) → q.predname ≢ n)
      apart n e (g, others) =
          let gone : get Text-discrete (remove Text-discrete r.preddict p.predname) n ≡ some e =
            unfold sync_del in g in
          (
            ground (arith, get-remove Text-discrete r.preddict p.predname n),
            λ q m name. elim m [
              | inl same_p ↦
                  let same_name : p.predname ≡ n =
                    ap (λ (b : BuiltinPred F). b.predname) (sym same_p) ∙ name in
                  absurd (ground (arith, get-remove Text-discrete r.preddict p.predname n))
              | inr at ↦ others q at name
            ],
          )

  -- a category whose predicates are no longer registered can be emptied
  emptied-IsRegistry :
      (c : Text) (preds : List (BuiltinPred F)) (r : Registry F)
      → IsRegistry r
      → get Text-discrete r.categorydict c ≡ some preds
      → IsRegistry (insert_category c (sync_del_all preds r))
  emptied-IsRegistry c preds r h e =
      let (held, cats, entry) = sync_del_all-kept preds r h in
      insert_category-IsRegistry c (sync_del_all preds r) held (λ n p f.
        let (old, others) = entry n (p, c) f in
        let (name, at) = h.entries n p c old in
        others p (subst (Has p) (let w : preds_in r c ≡ preds = ground arith in w) at) name)

  pub delete_category-IsRegistry :
      (c : Text) (r : Registry F) → IsRegistry r → IsRegistry (delete_category c r)
  unfolding delete_category insert_category
  delete_category-IsRegistry c r h = elim (Option-cases (get Text-discrete r.categorydict c)) [
    | inl e ↦ subst IsRegistry (let w : r ≡ delete_category c r = ground arith in w) h
    | inr (preds, e) ↦
        let r' = sync_del_all preds r in
        let cd = remove Text-discrete r'.categorydict c in
        subst IsRegistry
          (let w : record r' { categorydict = cd } ≡ delete_category c r = ground arith in w)
          (same_preds-IsRegistry (insert_category c r') cd (emptied-IsRegistry c preds r h e)
            (removed c r'))
  ]
    where
      removed :
          (c : Text) (r' : Registry F) (d : Text)
          → get_or (get Text-discrete (remove Text-discrete r'.categorydict c) d) []
            ≡ preds_in (insert_category c r') d
      removed c r' d =
          unfold insert_category in
          ground (
            arith,
            get-remove Text-discrete r'.categorydict c d,
            get-put Text-discrete r'.categorydict c d [],
          )

  pub delete_all_in_category-IsRegistry :
      (c : Text) (r : Registry F) → IsRegistry r → IsRegistry (delete_all_in_category c r)
  unfolding delete_all_in_category
  delete_all_in_category-IsRegistry c r h =
      elim (Option-cases (get Text-discrete r.categorydict c)) [
        | inl e ↦ subst IsRegistry (let w : r ≡ delete_all_in_category c r = ground arith in w) h
        | inr (preds, e) ↦
            subst IsRegistry
              (let w : insert_category c (sync_del_all preds r) ≡ delete_all_in_category c r =
                  unfold insert_category in ground arith in
                w)
              (emptied-IsRegistry c preds r h e)
      ]
