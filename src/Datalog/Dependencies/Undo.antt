-- ===== src/Datalog/Dependencies/Undo.antt =====
-- `undo_changes` of `RuleDependencyGraph` of compile.py undoes insertions.
use congress.Prelude.{
  ◌≡◌, sym, ap, subst, inl, inr, Text, Text-discrete, Bool, true, Option, some, List, [], ◌∷◌, ◌++◌,
  All, arith, Option-cases,
}
use congress.Datalog.Graph.{EdgeData}
use congress.Datalog.BagGraph.{Edge}
use congress.Datalog.BagGraph.Counts.{IsBag}
use congress.Datalog.ModalIndex.Counts.{count}
use congress.Datalog.Formula.{Literal}
use congress.Datalog.Dependencies.{
  FormulaEvent, RuleDependencyGraph, GraphChange, formula_nodes_edges, event_changes, apply_event,
  formula_update, undo_changes,
}
use congress.Datalog.Dependencies.Counting.{nodes_of, edges_of, undo_changes-Undone}
use congress.Datalog.Dependencies.Modals.{formula_nodes_edges-IsIndex}
use congress.Datalog.Dependencies.Growth.{Grown, apply_event-Grown, Grown-append}

module _ (dec_data : Discrete (EdgeData Text Bool)) (dec_edge : Discrete (Edge Text Bool)) where
  nothing-Grown :
      (g : RuleDependencyGraph)
      → IsBag Text-discrete dec_data dec_edge g.bag
      → Grown dec_data dec_edge [] g g
  nothing-Grown g h = record {
    bag = h;
    nodes = λ x. omega arith;
    edges = λ e. omega arith;
    modals = λ m t. omega arith;
    all = tt;
  }

  module _ {V : Type 0} (include_atoms : Bool)
      (select_head select_body : Option (Literal V → Bool)) where
    abbrev updated :
        List (FormulaEvent V)
        → RuleDependencyGraph
        → Option (RuleDependencyGraph × List GraphChange)
    updated = formula_update dec_data dec_edge include_atoms select_head select_body

    formula_update-Grown :
        (events : List (FormulaEvent V)) (g : RuleDependencyGraph)
        (r : RuleDependencyGraph × List GraphChange)
        → IsBag Text-discrete dec_data dec_edge g.bag
        → All (λ (e : FormulaEvent V). e.is_insert ≡ true) events
        → updated events g ≡ some r
        → Grown dec_data dec_edge r.1 g r.0
    unfolding formula_update
    formula_update-Grown [] g r h all e =
        subst (λ (q : RuleDependencyGraph × List GraphChange). Grown dec_data dec_edge q.1 g q.0)
          (let w : (g, []) ≡ r = cc in w) (nothing-Grown g h)
    formula_update-Grown (event ∷ events) g r h (i, all) e =
        elim (Option-cases (
          formula_nodes_edges dec_edge g.head_to_body event.formula event.target include_atoms
            select_head select_body)) [
              | inl f ↦ absurd (ground arith)
              | inr (s, f) ↦
                  let index =
                    formula_nodes_edges-IsIndex dec_edge g.head_to_body event.formula event.target
                      include_atoms select_head select_body s f in
                  let (g1, a, grown) = apply_event-Grown dec_data dec_edge s g h index in
                  let applied : apply_event dec_data dec_edge event.is_insert s g ≡ some g1 =
                    subst (λ (b : Bool). apply_event dec_data dec_edge b s g ≡ some g1) (sym i) a in
                  elim (Option-cases (updated events g1)) [
                    | inl k ↦ absurd (ground arith)
                    | inr (rest, k) ↦
                        let later = formula_update-Grown events g1 rest grown.bag all k in
                        let changes : event_changes dec_data dec_edge event.is_insert s
                            ≡ event_changes dec_data dec_edge true s =
                          ap (λ (b : Bool). event_changes dec_data dec_edge b s) i in
                        subst
                          (λ (q : RuleDependencyGraph × List GraphChange).
                            Grown dec_data dec_edge q.1 g q.0)
                          (let w : (rest.0, event_changes dec_data dec_edge true s ++ rest.1) ≡ r =
                              ground arith in
                            w)
                          (Grown-append dec_data dec_edge (event_changes dec_data dec_edge true s)
                            rest.1 g g1 rest.0 grown later)
                  ]
            ]

    -- Let no count of the graph be 0, its nodes be those with a count, and every edge have one. After
    -- some formulas are inserted, undoing the changes that were returned raises nothing, and each
    -- node, each edge and each table of a modal counts what it did before.
    pub formula_update-undo_changes :
        (events : List (FormulaEvent V)) (g g' : RuleDependencyGraph) (changes : List GraphChange)
        → IsBag Text-discrete dec_data dec_edge g.bag
        → All (λ (e : FormulaEvent V). e.is_insert ≡ true) events
        → formula_update dec_data dec_edge include_atoms select_head select_body events g
          ≡ some (g', changes)
        → (back : RuleDependencyGraph) × (undo_changes dec_data dec_edge changes g' ≡ some back)
          × IsBag Text-discrete dec_data dec_edge back.bag
          × ((x : Text) → nodes_of dec_data dec_edge back x ≡ nodes_of dec_data dec_edge g x)
          × ((e : Edge Text Bool)
              → edges_of dec_data dec_edge back e ≡ edges_of dec_data dec_edge g e)
          × ((m t : Text) → count back.modal_index m t ≡ count g.modal_index m t)
    formula_update-undo_changes events g g' changes h all e =
        let up = formula_update-Grown events g (g', changes) h all e in
        let (back, f, down) =
          undo_changes-Undone dec_data dec_edge changes g' up.bag up.all
            (λ x. omega (arith, up.edges x)) in
        (
          back,
          f,
          down.bag,
          λ x. omega (arith, up.nodes x, down.nodes x),
          λ x. omega (arith, up.edges x, down.edges x),
          λ m t. omega (arith, up.modals m t, down.modals m t),
        )
