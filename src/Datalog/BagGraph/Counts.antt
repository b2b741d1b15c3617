-- ===== src/Datalog/BagGraph/Counts.antt =====
-- The counts of `BagGraph` of utility.py are those of a bag of nodes and a bag of edges.
use congress.Prelude.{
  ◌+◌, ◌-◌, ◌≡◌, ◌≢◌, ◌∙◌, refl, sym, ite, true, false, not, ◌&&◌, ◌||◌, ◌==◌, Option, some, [],
  ◌∷◌, get_or, is_some, arith, Option-cases, Bool-cases, inl, inr,
}
use congress.Sets.{member, discard, member-append, member-discard}
use congress.Dict.Base.{get, put, remove, get-put, get-remove}
use congress.Datalog.Graph
use congress.Datalog.Graph.{Graph, EdgeData}
use congress.Datalog.BagGraph.{BagGraph, Edge, add_node, delete_node, node_in, node_count}

module _ {N L : Type 0} (dec : Discrete N) (dec_data : Discrete (EdgeData N L))
    (dec_edge : Discrete (Edge N L)) where
  -- No count is 0, the nodes are those that have a count, and every edge of the graph has one.
  pub record IsBag (g : BagGraph N L) : Type 0 where
    pub nodes : (v : N) → member dec v g.graph.nodes ≡ is_some (get dec g.node_refcounts v)
    pub counted : (v : N) → get dec g.node_refcounts v ≢ some 0
    pub edges_counted : (e : Edge N L) → get dec_edge g.edge_refcounts e ≢ some 0
    pub edges :
        (v w : N) (label : Option L)
        → Graph.edge_in dec dec_data v w label g.graph ≡ true
        → is_some (get dec_edge g.edge_refcounts (v, w, label)) ≡ true

  member-add_node :
      (g : Graph N L) (v x : N)
      → member dec x (Graph.add_node dec dec_data v g).0.nodes
        ≡ ite (dec v x) true (member dec x g.nodes)
  unfolding Graph.add_node member
  member-add_node g v x = ground (arith, member-append dec x g.nodes (v ∷ []))

  edges-add_node : (g : Graph N L) (v : N) → (Graph.add_node dec dec_data v g).0.edges ≡ g.edges
  unfolding Graph.add_node
  edges-add_node g v = ground arith

  pub edge_in-add_node :
      (g : Graph N L) (v x w : N) (label : Option L)
      → Graph.edge_in dec dec_data x w label (Graph.add_node dec dec_data v g).0
        ≡ Graph.edge_in dec dec_data x w label g
  unfolding Graph.edge_in
  edge_in-add_node g v x w label = ground (arith, edges-add_node g v)

  pub add_node-IsBag :
      (v : N) (g : BagGraph N L)
      → IsBag g
      → IsBag (add_node dec dec_data dec_edge v g)
        × ((x : N)
            → node_count dec dec_data dec_edge x (add_node dec dec_data dec_edge v g)
              ≡ node_count dec dec_data dec_edge x g + ite (dec v x) 1 0)
  unfolding add_node node_count
  add_node-IsBag v g h =
      let new =
        λ (x : N). get-put dec g.node_refcounts v x (get_or (get dec g.node_refcounts v) 0 + 1) in
      (
        record {
          nodes = λ x. ground (arith, member-add_node g.graph v x, h.nodes x, new x);
          counted = λ x. ground (arith, h.counted x, new x);
          edges_counted = h.edges_counted;
          edges = λ x w label e. h.edges x w label (sym (edge_in-add_node g.graph v x w label) ∙ e);
        },
        λ x. ground (arith, new x),
      )

  edge_in-delete_node :
      (g h : Graph N L) (v x w : N) (label : Option L)
      → Graph.delete_node dec dec_data v g ≡ some h
      → Graph.edge_in dec dec_data x w label h ≡ true
      → Graph.edge_in dec dec_data x w label g ≡ true
  unfolding Graph.edge_in Graph.delete_node
  edge_in-delete_node g h v x w label e i = elim (Bool-cases (member dec v g.nodes)) [
    | inl m ↦
        let same : record { nodes = discard dec v g.nodes; edges = remove dec g.edges v } ≡ h =
          ground arith in
        ground (arith, get-remove dec g.edges v x)
    | inr m ↦ ground arith
  ]

  delete_node-present :
      (g : Graph N L) (v : N)
      → member dec v g.nodes ≡ true
      → Graph.delete_node dec dec_data v g
        ≡ some (record { nodes = discard dec v g.nodes; edges = remove dec g.edges v })
  unfolding Graph.delete_node
  delete_node-present g v m = ground arith

  edge_in-deleted :
      (g : Graph N L) (v x w : N) (label : Option L)
      → Graph.edge_in dec dec_data x w label
          (record { nodes = discard dec v g.nodes; edges = remove dec g.edges v })
        ≡ ite (dec v x) false (Graph.edge_in dec dec_data x w label g)
  unfolding Graph.edge_in
  edge_in-deleted g v x w label = ground (arith, get-remove dec g.edges v x)

  -- what deleting a node does
  pub record Deleted (v : N) (g g' : BagGraph N L) : Type 0 where
    pub bag : IsBag g'
    pub kept : g'.edge_refcounts ≡ g.edge_refcounts
    pub counts :
        (x : N)
        → node_count dec dec_data dec_edge x g'
          ≡ node_count dec dec_data dec_edge x g - ite (dec v x) 1 0
    pub fewer :
        (x : N)
        → node_in dec dec_data dec_edge x g' ≡ true
        → node_in dec dec_data dec_edge x g ≡ true
    -- the edges of a node go with its last count
    pub left :
        (x w : N) (label : Option L)
        → Graph.edge_in dec dec_data x w label g'.graph ≡ (
            Graph.edge_in dec dec_data x w label g.graph
            && (node_in dec dec_data dec_edge x g' || not (node_in dec dec_data dec_edge x g)))

  pub delete_node-IsBag :
      (v : N) (g : BagGraph N L)
      → IsBag g
      → (g' : BagGraph N L) × (delete_node dec dec_data dec_edge v g ≡ some g') × Deleted v g g'
  unfolding delete_node node_count node_in
  delete_node-IsBag v g h = elim (Option-cases (get dec g.node_refcounts v)) [
    | inl e ↦ (
      g,
      ground arith,
      record {
        bag = h;
        kept = refl;
        counts = λ x. ground arith;
        fewer = λ x i. i;
        left = λ x w label. ground arith;
      },
    )
    | inr (n, e) ↦ elim (Bool-cases (n - 1 == 0)) [
      | inl z ↦ (
        record g {
          graph = record {
            nodes = discard dec v g.graph.nodes;
            edges = remove dec g.graph.edges v;
          };
          node_refcounts = remove dec g.node_refcounts v;
        },
        simp (e, z, delete_node, delete_node-present g.graph v (ground (arith, h.nodes v))) refl,
        record {
          bag = record {
            nodes = λ x. ground (
              arith,
              member-discard dec v x g.graph.nodes,
              get-remove dec g.node_refcounts v x,
              h.nodes x,
            );
            counted = λ x. ground (arith, get-remove dec g.node_refcounts v x, h.counted x);
            edges_counted = h.edges_counted;
            edges = λ x w label i. h.edges x w label (
                edge_in-delete_node g.graph _ v x w label
                  (delete_node-present g.graph v (ground (arith, h.nodes v))) i);
          };
          kept = refl;
          counts = λ x. ground (arith, get-remove dec g.node_refcounts v x, h.counted v);
          fewer = λ x i. ground (arith, get-remove dec g.node_refcounts v x);
          left = λ x w label.
              ground
                (arith, edge_in-deleted g.graph v x w label, get-remove dec g.node_refcounts v x);
        },
      )
      | inr z ↦ (
        record g { node_refcounts = put dec g.node_refcounts v (n - 1) },
        simp (e, z, delete_node) refl,
        record {
          bag = record {
            nodes = λ x. ground (arith, get-put dec g.node_refcounts v x (n - 1), h.nodes x);
            counted = λ x. ground (arith, get-put dec g.node_refcounts v x (n - 1), h.counted x);
            edges_counted = h.edges_counted;
            edges = h.edges;
          };
          kept = refl;
          counts = λ x. ground (arith, get-put dec g.node_refcounts v x (n - 1));
          fewer = λ x i. ground (arith, get-put dec g.node_refcounts v x (n - 1));
          left = λ x w label. ground (arith, get-put dec g.node_refcounts v x (n - 1));
        },
      )
    ]
  ]
