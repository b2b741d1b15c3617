-- ===== src/Datalog/Builtins/Registered.antt =====
-- What the registry of builtins of builtin.py keeps: each registered predicate is in its category.
use congress.Prelude.{
  ℕ, zero, suc, ◌+◌, ◌<◌, ◌≡◌, ◌≢◌, ◌⊎◌, refl, sym, ap, subst, ◌∙◌, inl, inr, Text, Text-discrete,
  true, ◌&&◌, ◌==◌, some, List, [], ◌∷◌, arith, is_some, get_or, get_elem?, Has, Bool-cases,
  Option-cases,
}
use congress.Dict.Base.{Dict, get, put, get-put, get-remove}
use congress.Datalog.Tablename.{text_eq}
use congress.Datalog.Builtins.{BuiltinPred, Registry, sync_del, remove_pred, delete_from}

module _ {F : Type 0} where
  abbrev pub preds_in : Registry F → Text → List (BuiltinPred F)
  preds_in r c = get_or (get Text-discrete r.categorydict c) []

  -- Each registered predicate has its key as its name and is in its category, and the objects of a
  -- category are told apart by their identity.
  pub record IsRegistry (r : Registry F) : Type 0 where
    pub entries :
        (n : Text) (p : BuiltinPred F) (c : Text)
        → get Text-discrete r.preddict n ≡ some (p, c)
        → (p.predname ≡ n) × Has p (preds_in r c)
    pub fresh : (c : Text) (p : BuiltinPred F) → Has p (preds_in r c) → p.ident < r.created
    pub same :
        (c : Text) (p q : BuiltinPred F)
        → Has p (preds_in r c)
        → Has q (preds_in r c)
        → p.ident ≡ q.ident
        → p ≡ q

  remove_pred-kept :
      (p x : BuiltinPred F) (ps left : List (BuiltinPred F))
      → remove_pred p ps ≡ some left
      → Has x ps
      → (x.ident ≡ p.ident) ⊎ Has x left
  unfolding remove_pred
  remove_pred-kept p x [] left h m = absurd m
  remove_pred-kept p x (q ∷ ps) left h m = elim (Option-cases (remove_pred p ps)) [
    | inl e ↦ ground arith
    | inr (rest, e) ↦ ground (arith, remove_pred-kept p x ps rest e)
  ]

  remove_pred-Has :
      (p x : BuiltinPred F) (ps left : List (BuiltinPred F))
      → remove_pred p ps ≡ some left
      → Has x left
      → Has x ps
  unfolding remove_pred
  remove_pred-Has p x [] left h m = absurd (cc)
  remove_pred-Has p x (q ∷ ps) left h m = elim (Option-cases (remove_pred p ps)) [
    | inl e ↦ elim (Bool-cases (q.ident == p.ident)) [
      | inl t ↦
          let from : Has x ps = subst (Has x) (sym (let w : ps ≡ left = ground arith in w)) m in
          ground arith
      | inr t ↦ absurd (ground arith)
    ]
    | inr (rest, e) ↦ elim (Bool-cases (q.ident == p.ident)) [
      | inl t ↦
          let from : Has x ps = subst (Has x) (sym (let w : ps ≡ left = ground arith in w)) m in
          ground arith
      | inr t ↦
          let from : Has x (q ∷ rest) =
            subst (Has x) (sym (let w : q ∷ rest ≡ left = ground arith in w)) m in
          ground (arith, remove_pred-Has p x ps rest e)
    ]
  ]

  remove_pred-found :
      (p : BuiltinPred F) (ps : List (BuiltinPred F)) → Has p ps → is_some (remove_pred p ps) ≡ true
  unfolding remove_pred
  remove_pred-found p [] h = absurd h
  remove_pred-found p (q ∷ ps) h = ground (arith, remove_pred-found p ps)

  pub sync_del-IsRegistry : (n : Text) (r : Registry F) → IsRegistry r → IsRegistry (sync_del n r)
  unfolding sync_del
  sync_del-IsRegistry n r h = record {
    entries = λ j p c e. h.entries j p c (ground (arith, get-remove Text-discrete r.preddict n j));
    fresh = h.fresh;
    same = h.same;
  }

  pub put_same :
      (cd : Dict Text (List (BuiltinPred F))) (c d : Text) (ps : List (BuiltinPred F))
      → c ≡ d
      → get_or (get Text-discrete (put Text-discrete cd c ps) d) [] ≡ ps
  put_same cd c d ps e = ground (arith, get-put Text-discrete cd c d ps)

  pub put_other :
      (cd : Dict Text (List (BuiltinPred F))) (c d : Text) (ps : List (BuiltinPred F))
      → c ≢ d
      → get_or (get Text-discrete (put Text-discrete cd c ps) d) []
        ≡ get_or (get Text-discrete cd d) []
  put_other cd c d ps n = ground (arith, get-put Text-discrete cd c d ps)

  -- a category without one of its predicates, whose name is no longer registered
  dropped-IsRegistry :
      (c : Text) (p : BuiltinPred F) (left : List (BuiltinPred F)) (r : Registry F)
      → IsRegistry r
      → Has p (preds_in r c)
      → remove_pred p (preds_in r c) ≡ some left
      → IsRegistry (
          sync_del p.predname (record r { categorydict = put Text-discrete r.categorydict c left }))
  unfolding sync_del
  dropped-IsRegistry c p left r h at e = record {
    entries = λ n q d f.
        let (name, in_old) =
          h.entries n q d (ground (arith, get-remove Text-discrete r.preddict p.predname n)) in
        (
          name,
          after n q d name in_old
              (ground (arith, get-remove Text-discrete r.preddict p.predname n)),
        );
    fresh = λ d q m. h.fresh d q (before d q m);
    same = λ d q q' m m' i. h.same d q q' (before d q m) (before d q' m') i;
  }
    where
      before :
          (d : Text) (q : BuiltinPred F)
          → Has q (get_or (get Text-discrete (put Text-discrete r.categorydict c left) d) [])
          → Has q (preds_in r d)
      before d q m = elim (Text-discrete c d) [
        | yes same_c ↦
            let in_left = subst (Has q) (put_same r.categorydict c d left same_c) m in
            subst (λ (t : Text). Has q (preds_in r t)) same_c
              (remove_pred-Has p q (preds_in r c) left e in_left)
        | no other ↦ subst (Has q) (put_other r.categorydict c d left other) m
      ]

      after :
          (n : Text) (q : BuiltinPred F) (d : Text)
          → q.predname ≡ n
          → Has q (preds_in r d)
          → p.predname ≢ n
          → Has q (get_or (get Text-discrete (put Text-discrete r.categorydict c left) d) [])
      after n q d name m differs = elim (Text-discrete c d) [
        | yes same_c ↦
            let in_c = subst (λ (t : Text). Has q (preds_in r t)) (sym same_c) m in
            subst (Has q) (sym (put_same r.categorydict c d left same_c))
              (elim (remove_pred-kept p q (preds_in r c) left e in_c) [
                | inl i ↦ absurd (
                    differs (
                      ap (λ (b : BuiltinPred F). b.predname) (sym (h.same c q p in_c at i)) ∙ name))
                | inr there ↦ there
              ])
        | no other ↦ subst (Has q) (sym (put_other r.categorydict c d left other)) m
      ]

  get_elem?-Has :
      (ps : List (BuiltinPred F)) (i : ℕ) (p : BuiltinPred F) → get_elem? ps i ≡ some p → Has p ps
  get_elem?-Has [] i p h = absurd (cc)
  get_elem?-Has (q ∷ ps) zero p h = ground arith
  get_elem?-Has (q ∷ ps) (suc i) p h = ground (arith, get_elem?-Has ps i p h)

  pub delete_from-IsRegistry :
      (rounds i : ℕ) (c name : Text) (inputs : ℕ) (r : Registry F)
      → IsRegistry r
      → (r' : Registry F) × (delete_from rounds i c name inputs r ≡ some r') × IsRegistry r'
  unfolding delete_from
  delete_from-IsRegistry zero i c name inputs r h = (r, refl, h)
  delete_from-IsRegistry (suc rounds) i c name inputs r h =
      elim (Option-cases (get_elem? (preds_in r c) i)) [
        | inl e ↦ (r, ground arith, h)
        | inr (p, e) ↦ elim (Bool-cases (p.num_inputs == inputs && text_eq p.predname name)) [
          | inr f ↦
              let (r', got, held) = delete_from-IsRegistry rounds (i + 1) c name inputs r h in
              (r', ground arith, held)
          | inl f ↦ elim (Option-cases (remove_pred p (preds_in r c))) [
            | inl g ↦ absurd (
                let found =
                  remove_pred-found p (preds_in r c) (get_elem?-Has (preds_in r c) i p e) in
                ground arith)
            | inr (left, g) ↦
                let name_eq : p.predname ≡ name = unfold text_eq in ground arith in
                let at = get_elem?-Has (preds_in r c) i p e in
                let (r', got, held) = delete_from-IsRegistry rounds (i + 1) c name inputs _ (
                  subst
                    (λ (t : Text). IsRegistry (
                      sync_del t
                        (record r { categorydict = put Text-discrete r.categorydict c left })))
                    name_eq (dropped-IsRegistry c p left r h at g)) in
                (r', ground arith, held)
          ]
        ]
      ]
