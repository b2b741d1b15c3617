-- ===== src/Datalog/Dependencies/Growth.antt =====
-- How an insertion into `RuleDependencyGraph` of compile.py counts.
use congress.Prelude.{
  ℕ, ◌+◌, ◌≡◌, refl, ◌∙◌, Text, Text-discrete, Bool, true, some, List, [], ◌∷◌, ◌++◌, All,
  All-append, arith,
}
use congress.Datalog.Graph.{EdgeData}
use congress.Datalog.BagGraph
use congress.Datalog.BagGraph.{BagGraph, Edge, node_count, edge_count}
use congress.Datalog.BagGraph.Counts.{IsBag, add_node-IsBag}
use congress.Datalog.BagGraph.Edges.{add_edge-IsBag}
use congress.Datalog.ModalIndex.{iadd}
use congress.Datalog.ModalIndex.Counts.{count}
use congress.Datalog.ModalIndex.Merge.{count-iadd}
use congress.Datalog.Dependencies.{
  RuleDependencyGraph, NodesEdges, GraphChange, node_change, edge_change, modal_change,
  insert_nodes, insert_edges, node_changes, edge_changes, event_changes, apply_event,
}
use congress.Datalog.Dependencies.Counting.{
  nodes_in, edges_in, modals_in, inserted, nodes_of, edges_of,
}
use congress.Datalog.Dependencies.Modals.{IsIndex}

module _ (dec_data : Discrete (EdgeData Text Bool)) (dec_edge : Discrete (Edge Text Bool)) where
  abbrev pub bag_nodes : BagGraph Text Bool → Text → ℕ
  bag_nodes b x = node_count Text-discrete dec_data dec_edge x b

  abbrev pub bag_edges : BagGraph Text Bool → Edge Text Bool → ℕ
  bag_edges b e = edge_count Text-discrete dec_data dec_edge e.0 e.1 e.2 b

  insert_nodes-IsBag :
      (ns : List Text) (b : BagGraph Text Bool)
      → IsBag Text-discrete dec_data dec_edge b
      → IsBag Text-discrete dec_data dec_edge (insert_nodes dec_data dec_edge ns b)
        × ((x : Text)
            → bag_nodes (insert_nodes dec_data dec_edge ns b) x
              ≡ bag_nodes b x
                + nodes_in dec_data dec_edge x (node_changes dec_data dec_edge true ns))
        × ((e : Edge Text Bool) → bag_edges (insert_nodes dec_data dec_edge ns b) e ≡ bag_edges b e)
  unfolding insert_nodes
  insert_nodes-IsBag [] b h = (h, λ x. omega arith, λ e. refl)
  insert_nodes-IsBag (n ∷ ns) b h =
      let (h1, c1) = add_node-IsBag Text-discrete dec_data dec_edge n b h in
      let (h2, c2, e2) = insert_nodes-IsBag ns _ h1 in
      (h2, λ x. omega (arith, c1 x, c2 x), λ e. e2 e ∙ unfold edge_count BagGraph.add_node in refl)

  insert_edges-IsBag :
      (es : List (Edge Text Bool)) (b : BagGraph Text Bool)
      → IsBag Text-discrete dec_data dec_edge b
      → IsBag Text-discrete dec_data dec_edge (insert_edges dec_data dec_edge es b)
        × ((x : Text)
            → bag_nodes (insert_edges dec_data dec_edge es b) x
              ≡ bag_nodes b x
                + nodes_in dec_data dec_edge x (edge_changes dec_data dec_edge true es))
        × ((e : Edge Text Bool)
            → bag_edges (insert_edges dec_data dec_edge es b) e
              ≡ bag_edges b e
                + edges_in dec_data dec_edge e (edge_changes dec_data dec_edge true es))
  unfolding insert_edges
  insert_edges-IsBag [] b h = (h, λ x. omega arith, λ e. omega arith)
  insert_edges-IsBag ((v, w, label) ∷ es) b h =
      let (h1, c1, e1, i1) = add_edge-IsBag Text-discrete dec_data dec_edge v w label b h in
      let (h2, c2, e2) = insert_edges-IsBag es _ h1 in
      (h2, λ x. omega (arith, c1 x, c2 x), λ e. omega (arith, e1 e.0 e.1 e.2, e2 e))

  pub nodes_in-append :
      (x : Text) (cs ds : List GraphChange)
      → nodes_in dec_data dec_edge x (cs ++ ds)
        ≡ nodes_in dec_data dec_edge x cs + nodes_in dec_data dec_edge x ds
  nodes_in-append x [] ds = omega arith
  nodes_in-append x (node_change n i ∷ cs) ds = omega (arith, nodes_in-append x cs ds)
  nodes_in-append x (edge_change v w label i ∷ cs) ds = omega (arith, nodes_in-append x cs ds)
  nodes_in-append x (modal_change modals i ∷ cs) ds = omega (arith, nodes_in-append x cs ds)

  pub edges_in-append :
      (e : Edge Text Bool) (cs ds : List GraphChange)
      → edges_in dec_data dec_edge e (cs ++ ds)
        ≡ edges_in dec_data dec_edge e cs + edges_in dec_data dec_edge e ds
  edges_in-append e [] ds = omega arith
  edges_in-append e (node_change n i ∷ cs) ds = omega (arith, edges_in-append e cs ds)
  edges_in-append e (edge_change v w label i ∷ cs) ds = omega (arith, edges_in-append e cs ds)
  edges_in-append e (modal_change modals i ∷ cs) ds = omega (arith, edges_in-append e cs ds)

  pub modals_in-append :
      (m t : Text) (cs ds : List GraphChange)
      → modals_in dec_data dec_edge m t (cs ++ ds)
        ≡ modals_in dec_data dec_edge m t cs + modals_in dec_data dec_edge m t ds
  modals_in-append m t [] ds = omega arith
  modals_in-append m t (node_change n i ∷ cs) ds = omega (arith, modals_in-append m t cs ds)
  modals_in-append m t (edge_change v w label i ∷ cs) ds = omega (arith, modals_in-append m t cs ds)
  modals_in-append m t (modal_change modals i ∷ cs) ds = omega (arith, modals_in-append m t cs ds)

  node_changes-none :
      (ns : List Text)
      → ((e : Edge Text Bool)
          → edges_in dec_data dec_edge e (node_changes dec_data dec_edge true ns) ≡ 0)
        × ((m t : Text)
            → modals_in dec_data dec_edge m t (node_changes dec_data dec_edge true ns) ≡ 0)
        × All (λ c. inserted dec_data dec_edge c ≡ true) (node_changes dec_data dec_edge true ns)
  node_changes-none [] = (λ e. refl, λ m t. refl, tt)
  node_changes-none (n ∷ ns) = let (e, m, a) = node_changes-none ns in (e, m, (refl, a))

  edge_changes-none :
      (es : List (Edge Text Bool))
      → ((m t : Text)
          → modals_in dec_data dec_edge m t (edge_changes dec_data dec_edge true es) ≡ 0)
        × All (λ c. inserted dec_data dec_edge c ≡ true) (edge_changes dec_data dec_edge true es)
  edge_changes-none [] = (λ m t. refl, tt)
  edge_changes-none ((v, w, label) ∷ es) = let (m, a) = edge_changes-none es in (m, (refl, a))

  -- a graph with more counted than another
  pub record Grown (cs : List GraphChange) (g g' : RuleDependencyGraph) : Type 0 where
    pub bag : IsBag Text-discrete dec_data dec_edge g'.bag
    pub nodes :
        (x : Text)
        → nodes_of dec_data dec_edge g' x
          ≡ nodes_of dec_data dec_edge g x + nodes_in dec_data dec_edge x cs
    pub edges :
        (e : Edge Text Bool)
        → edges_of dec_data dec_edge g' e
          ≡ edges_of dec_data dec_edge g e + edges_in dec_data dec_edge e cs
    pub modals :
        (m t : Text)
        → count g'.modal_index m t ≡ count g.modal_index m t + modals_in dec_data dec_edge m t cs
    pub all : All (λ c. inserted dec_data dec_edge c ≡ true) cs

  pub apply_event-Grown :
      (s : NodesEdges) (g : RuleDependencyGraph)
      → IsBag Text-discrete dec_data dec_edge g.bag
      → IsIndex s.modals
      → (g' : RuleDependencyGraph) × (apply_event dec_data dec_edge true s g ≡ some g')
        × Grown (event_changes dec_data dec_edge true s) g g'
  unfolding apply_event
  apply_event-Grown s g h index =
      let (h1, n1, e1) = insert_nodes-IsBag s.nodes g.bag h in
      let (h2, n2, e2) = insert_edges-IsBag s.edges _ h1 in
      let ns = node_changes dec_data dec_edge true s.nodes in
      let es = edge_changes dec_data dec_edge true s.edges in
      let (no_edges, no_modals, all_nodes) = node_changes-none s.nodes in
      let (no_modals', all_edges) = edge_changes-none s.edges in
      let last : List GraphChange = modal_change s.modals true ∷ [] in
      (
        record g {
          bag =
              insert_edges dec_data dec_edge s.edges (insert_nodes dec_data dec_edge s.nodes g.bag);
          modal_index = iadd g.modal_index s.modals;
        },
        refl,
        record {
          bag = h2;
          nodes = λ x.
              omega
                (arith, n1 x, n2 x, nodes_in-append x ns (es ++ last), nodes_in-append x es last);
          edges = λ e. omega (
            arith,
            e1 e,
            e2 e,
            no_edges e,
            edges_in-append e ns (es ++ last),
            edges_in-append e es last,
          );
          modals = λ m t. omega (
            arith,
            count-iadd s.modals g.modal_index m t index.0 index.1,
            no_modals m t,
            no_modals' m t,
            modals_in-append m t ns (es ++ last),
            modals_in-append m t es last,
          );
          all = All-append _ ns (es ++ last) all_nodes (All-append _ es last all_edges (refl, tt));
        },
      )

  pub Grown-append :
      (cs ds : List GraphChange) (g g1 g2 : RuleDependencyGraph)
      → Grown cs g g1
      → Grown ds g1 g2
      → Grown (cs ++ ds) g g2
  Grown-append cs ds g g1 g2 u v = record {
    bag = v.bag;
    nodes = λ x. omega (arith, u.nodes x, v.nodes x, nodes_in-append x cs ds);
    edges = λ e. omega (arith, u.edges e, v.edges e, edges_in-append e cs ds);
    modals = λ m t. omega (arith, u.modals m t, v.modals m t, modals_in-append m t cs ds);
    all = All-append _ cs ds u.all v.all;
  }
