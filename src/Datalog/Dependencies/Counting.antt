-- ===== src/Datalog/Dependencies/Counting.antt =====
-- How `undo_changes` of `RuleDependencyGraph` of compile.py counts.
use congress.Prelude.{
  ℕ, ◌+◌, ◌-◌, ◌≤◌, ◌≡◌, refl, ap, Text, Text-discrete, Bool, true, false, ite, Option, some, List,
  [], ◌∷◌, All, arith, get_or,
}
use congress.Dict.Base.{Dict, get}
use congress.Datalog.Graph.{EdgeData}
use congress.Datalog.BagGraph.{Edge, node_count, edge_count, edge_in}
use congress.Datalog.BagGraph.Counts.{IsBag, delete_node-IsBag}
use congress.Datalog.BagGraph.Deletions.{delete_edge-IsBag}
use congress.Datalog.ModalIndex.{isub}
use congress.Datalog.ModalIndex.Counts.{count}
use congress.Datalog.ModalIndex.Subtract.{count-isub}
use congress.Datalog.Dependencies.{
  RuleDependencyGraph, GraphChange, node_change, edge_change, modal_change, undo_change,
  undo_changes,
}

module _ (dec_data : Discrete (EdgeData Text Bool)) (dec_edge : Discrete (Edge Text Bool)) where
  -- the insertions among some changes that count a node, an edge and a modal's table
  abbrev pub nodes_in : Text → List GraphChange → ℕ
  nodes_in x [] = 0
  nodes_in x (node_change n is_insert ∷ cs) = ite (Text-discrete n x) 1 0 + nodes_in x cs
  nodes_in x (edge_change v w label is_insert ∷ cs) =
      ite (Text-discrete v x) 1 0 + (ite (Text-discrete w x) 1 0 + nodes_in x cs)
  nodes_in x (modal_change modals is_insert ∷ cs) = nodes_in x cs

  abbrev pub edges_in : Edge Text Bool → List GraphChange → ℕ
  edges_in e [] = 0
  edges_in e (node_change n is_insert ∷ cs) = edges_in e cs
  edges_in e (edge_change v w label is_insert ∷ cs) =
      ite (dec_edge (v, w, label) e) 1 0 + edges_in e cs
  edges_in e (modal_change modals is_insert ∷ cs) = edges_in e cs

  abbrev pub modals_in : Text → Text → List GraphChange → ℕ
  modals_in m t [] = 0
  modals_in m t (node_change n is_insert ∷ cs) = modals_in m t cs
  modals_in m t (edge_change v w label is_insert ∷ cs) = modals_in m t cs
  modals_in m t (modal_change modals is_insert ∷ cs) = count modals m t + modals_in m t cs

  abbrev pub inserted : GraphChange → Bool
  inserted (node_change n is_insert) = is_insert
  inserted (edge_change v w label is_insert) = is_insert
  inserted (modal_change modals is_insert) = is_insert

  abbrev pub nodes_of : RuleDependencyGraph → Text → ℕ
  nodes_of g x = node_count Text-discrete dec_data dec_edge x g.bag

  abbrev pub edges_of : RuleDependencyGraph → Edge Text Bool → ℕ
  edges_of g (v, w, label) = edge_count Text-discrete dec_data dec_edge v w label g.bag

  -- a graph with less counted than another
  pub record Undone (cs : List GraphChange) (g g' : RuleDependencyGraph) : Type 0 where
    pub bag : IsBag Text-discrete dec_data dec_edge g'.bag
    pub nodes : (x : Text) → nodes_of g' x ≡ nodes_of g x - nodes_in x cs
    pub edges : (e : Edge Text Bool) → edges_of g' e ≡ edges_of g e - edges_in e cs
    pub modals :
        (m t : Text) → count g'.modal_index m t ≡ count g.modal_index m t - modals_in m t cs

  nodes_in-cons :
      (x : Text) (c : GraphChange) (cs : List GraphChange)
      → nodes_in x (c ∷ cs) ≡ nodes_in x (c ∷ []) + nodes_in x cs
  nodes_in-cons x (node_change n i) cs = omega arith
  nodes_in-cons x (edge_change v w label i) cs = omega arith
  nodes_in-cons x (modal_change modals i) cs = omega arith

  edges_in-cons :
      (e : Edge Text Bool) (c : GraphChange) (cs : List GraphChange)
      → edges_in e (c ∷ cs) ≡ edges_in e (c ∷ []) + edges_in e cs
  edges_in-cons e (node_change n i) cs = omega arith
  edges_in-cons e (edge_change v w label i) cs = omega arith
  edges_in-cons e (modal_change modals i) cs = omega arith

  modals_in-cons :
      (m t : Text) (c : GraphChange) (cs : List GraphChange)
      → modals_in m t (c ∷ cs) ≡ modals_in m t (c ∷ []) + modals_in m t cs
  modals_in-cons m t (node_change n i) cs = omega arith
  modals_in-cons m t (edge_change v w label i) cs = omega arith
  modals_in-cons m t (modal_change modals i) cs = omega arith

  edge_there :
      (v w : Text) (label : Option Bool) (g : RuleDependencyGraph)
      → edges_in (v, w, label) (edge_change v w label true ∷ []) ≤ edges_of g (v, w, label)
      → edge_in Text-discrete dec_data dec_edge v w label g.bag ≡ true
  unfolding edge_in edge_count
  edge_there v w label g le = ground arith

  undo_change-Undone :
      (c : GraphChange) (g : RuleDependencyGraph)
      → IsBag Text-discrete dec_data dec_edge g.bag
      → inserted c ≡ true
      → ((e : Edge Text Bool) → edges_in e (c ∷ []) ≤ edges_of g e)
      → (g' : RuleDependencyGraph) × (undo_change dec_data dec_edge c g ≡ some g')
        × Undone (c ∷ []) g g'
  unfolding undo_change
  undo_change-Undone (node_change n false) g h i le = absurd (cc)
  undo_change-Undone (edge_change v w label false) g h i le = absurd (cc)
  undo_change-Undone (modal_change modals false) g h i le = absurd (cc)
  undo_change-Undone (modal_change modals true) g h i le = (
    record g { modal_index = isub g.modal_index modals },
    refl,
    record {
      bag = h;
      nodes = λ x. omega arith;
      edges = λ e. omega arith;
      modals = λ m t. omega (arith, (count-isub g.modal_index modals m t).1);
    },
  )
  undo_change-Undone (node_change n true) g h i le =
      let (b, e, d) = delete_node-IsBag Text-discrete dec_data dec_edge n g.bag h in
      (
        record g { bag = b },
        ground arith,
        record {
          bag = d.bag;
          nodes = λ x. omega (arith, d.counts x);
          edges = λ x.
              unfold edge_count in
              omega (
                arith,
                ap (λ (r : Dict (Edge Text Bool) ℕ). get_or (get dec_edge r (x.0, x.1, x.2)) 0)
                    d.kept,
              );
          modals = λ m t. omega arith;
        },
      )
  undo_change-Undone (edge_change v w label true) g h i le =
      let (b, e, held, nodes, edges, stays) =
        delete_edge-IsBag Text-discrete dec_data dec_edge v w label g.bag h in
      let there = edge_there v w label g (le (v, w, label)) in
      (
        record g { bag = b },
        ground arith,
        record {
          bag = held;
          nodes = λ x. ground (arith, nodes x, there);
          edges = λ x. omega (arith, edges x.0 x.1 x.2);
          modals = λ m t. omega arith;
        },
      )

  pub undo_changes-Undone :
      (cs : List GraphChange) (g : RuleDependencyGraph)
      → IsBag Text-discrete dec_data dec_edge g.bag
      → All (λ c. inserted c ≡ true) cs
      → ((e : Edge Text Bool) → edges_in e cs ≤ edges_of g e)
      → (g' : RuleDependencyGraph) × (undo_changes dec_data dec_edge cs g ≡ some g')
        × Undone cs g g'
  unfolding undo_changes
  undo_changes-Undone [] g h all le = (
    g,
    refl,
    record {
      bag = h;
      nodes = λ x. omega arith;
      edges = λ e. omega arith;
      modals = λ m t. omega arith;
    },
  )
  undo_changes-Undone (c ∷ cs) g h (i, all) le =
      let (g1, e, u) =
        undo_change-Undone c g h i (λ x. omega (arith, le x, edges_in-cons x c cs)) in
      let (g2, f, v) =
        undo_changes-Undone cs g1 u.bag all
          (λ x. omega (arith, le x, u.edges x, edges_in-cons x c cs)) in
      (
        g2,
        ground arith,
        record {
          bag = v.bag;
          nodes = λ x. omega (arith, u.nodes x, v.nodes x, nodes_in-cons x c cs);
          edges = λ x. omega (arith, u.edges x, v.edges x, edges_in-cons x c cs);
          modals = λ m t. omega (arith, u.modals m t, v.modals m t, modals_in-cons m t c cs);
        },
      )
