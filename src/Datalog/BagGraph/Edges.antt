-- ===== src/Datalog/BagGraph/Edges.antt =====
-- Adding edges to `BagGraph` of utility.py.
use congress.Prelude.{
  ◌+◌, ◌≡◌, ◌≢◌, ◌∙◌, ap, ite, true, Option, [], get_or, arith, Option-cases, inl, inr,
}
use congress.Sets.{member, insert, member-insert}
use congress.Dict.Base.{get, get-put}
use congress.Datalog.Graph
use congress.Datalog.Graph.{Graph, EdgeData}
use congress.Datalog.BagGraph.{BagGraph, Edge, add_node, put_edge, add_edge, node_count, edge_count}
use congress.Datalog.BagGraph.Counts.{IsBag, edge_in-add_node, add_node-IsBag}

module _ {N L : Type 0} where
  abbrev pub edge : N → N → Option L → Edge N L
  edge v w label = (v, w, label)

  abbrev pub target : N → Option L → EdgeData N L
  target w label = (w, label)

module _ {N L : Type 0} (dec : Discrete N) (dec_data : Discrete (EdgeData N L))
    (dec_edge : Discrete (Edge N L)) where
  pub same_edge :
      (v w a b : N) (label l : Option L)
      → v ≡ a
      → target w label ≡ target b l
      → edge v w label ≡ edge a b l
  same_edge v w a b label l p q = cc

  edges-put_edge :
      (v w a b : N) (label l : Option L) (g : BagGraph N L)
      → edge v w label ≢ edge a b l
      → Graph.edge_in dec dec_data a b l (put_edge dec dec_data dec_edge v w label g).graph ≡ true
      → Graph.edge_in dec dec_data a b l g.graph ≡ true
  unfolding Graph.edge_in put_edge member
  edges-put_edge v w a b label l g ne h = elim (dec v a) [
    | yes p ↦ elim (dec_data (w, label) (b, l)) [
      | yes q ↦ absurd (ne (same_edge v w a b label l p q))
      | no q ↦ elim (Option-cases (get dec g.graph.edges v)) [
        | inl e ↦ ground (
          arith,
          get-put dec g.graph.edges v a
              (insert dec_data (w, label) (get_or (get dec g.graph.edges v) [])),
          member-insert dec_data (w, label) (b, l) [],
        )
        | inr (es, e) ↦ ground (
          arith,
          get-put dec g.graph.edges v a
              (insert dec_data (w, label) (get_or (get dec g.graph.edges v) [])),
          member-insert dec_data (w, label) (b, l) es,
        )
      ]
    ]
    | no p ↦ ground (
      arith,
      get-put dec g.graph.edges v a
          (insert dec_data (w, label) (get_or (get dec g.graph.edges v) [])),
    )
  ]

  -- the edge is there, and the others as before
  edge_in-put_edge :
      (v w a b : N) (label l : Option L) (g : BagGraph N L)
      → Graph.edge_in dec dec_data a b l (put_edge dec dec_data dec_edge v w label g).graph
        ≡ ite (dec_edge (v, w, label) (a, b, l)) true (Graph.edge_in dec dec_data a b l g.graph)
  unfolding Graph.edge_in put_edge member
  edge_in-put_edge v w a b label l g =
      let stored =
        get-put dec g.graph.edges v a
          (insert dec_data (w, label) (get_or (get dec g.graph.edges v) [])) in
      elim (dec_edge (v, w, label) (a, b, l)) [
        | yes p ↦
            let at : v ≡ a = ap (λ (x : Edge N L). x.0) p in
            let to : target w label ≡ target b l = ap (λ (x : Edge N L). target x.1 x.2) p in
            ground (
              arith,
              stored,
              member-insert dec_data (w, label) (b, l) (get_or (get dec g.graph.edges v) []),
            )
        | no n ↦ elim (dec v a) [
          | no p ↦ ground (arith, stored)
          | yes p ↦ elim (dec_data (w, label) (b, l)) [
            | yes q ↦ absurd (n (same_edge v w a b label l p q))
            | no q ↦ elim (Option-cases (get dec g.graph.edges v)) [
              | inl e ↦ ground (arith, stored, member-insert dec_data (w, label) (b, l) [])
              | inr (es, e) ↦ ground (arith, stored, member-insert dec_data (w, label) (b, l) es)
            ]
          ]
        ]
      ]

  put_edge-IsBag :
      (v w : N) (label : Option L) (g : BagGraph N L)
      → IsBag dec dec_data dec_edge g
      → IsBag dec dec_data dec_edge (put_edge dec dec_data dec_edge v w label g)
  put_edge-IsBag v w label g h = record {
    nodes = λ x. unfold put_edge in h.nodes x;
    counted = λ x. unfold put_edge in h.counted x;
    edges_counted = λ e.
        unfold put_edge in
        ground (
          arith,
          get-put dec_edge g.edge_refcounts (v, w, label) e
              (get_or (get dec_edge g.edge_refcounts (v, w, label)) 0 + 1),
          h.edges_counted e,
        );
    edges = λ a b l i. elim (dec_edge (v, w, label) (a, b, l)) [
      | yes p ↦
          unfold put_edge in
          ground (
            arith,
            get-put dec_edge g.edge_refcounts (v, w, label) (a, b, l)
                (get_or (get dec_edge g.edge_refcounts (v, w, label)) 0 + 1),
          )
      | no p ↦
          let old = h.edges a b l (edges-put_edge v w a b label l g p i) in
          unfold put_edge in
          ground (
            arith,
            get-put dec_edge g.edge_refcounts (v, w, label) (a, b, l)
                (get_or (get dec_edge g.edge_refcounts (v, w, label)) 0 + 1),
          )
    ];
  }

  -- Let no count be 0, the nodes be those with a count, and every edge of the graph have one.
  -- Adding an edge counts one more for it and for each of its ends, for a loop two for the node,
  -- leaves every other count, and keeps this so. The graph has the edge afterwards, and its other
  -- edges are those that it had.
  pub add_edge-IsBag :
      (v w : N) (label : Option L) (g : BagGraph N L)
      → IsBag dec dec_data dec_edge g
      → IsBag dec dec_data dec_edge (add_edge dec dec_data dec_edge v w label g)
        × ((x : N)
            → node_count dec dec_data dec_edge x (add_edge dec dec_data dec_edge v w label g)
              ≡ node_count dec dec_data dec_edge x g + ite (dec v x) 1 0 + ite (dec w x) 1 0)
        × ((a b : N) (l : Option L)
            → edge_count dec dec_data dec_edge a b l (add_edge dec dec_data dec_edge v w label g)
              ≡ edge_count dec dec_data dec_edge a b l g
                + ite (dec_edge (v, w, label) (a, b, l)) 1 0)
        × ((a b : N) (l : Option L)
            → Graph.edge_in dec dec_data a b l (add_edge dec dec_data dec_edge v w label g).graph
              ≡ ite
                  (dec_edge (v, w, label) (a, b, l))
                  true
                  (Graph.edge_in dec dec_data a b l g.graph))
  unfolding add_edge node_count edge_count
  add_edge-IsBag v w label g h =
      let (h1, c1) = add_node-IsBag dec dec_data dec_edge v g h in
      let (h2, c2) =
        add_node-IsBag dec dec_data dec_edge w (add_node dec dec_data dec_edge v g) h1 in
      (
        put_edge-IsBag v w label _ h2,
        λ x. unfold put_edge in c2 x ∙ ap (λ n. n + ite (dec w x) 1 0) (c1 x),
        λ a b l.
            unfold put_edge add_node in
            ground (
              arith,
              get-put dec_edge g.edge_refcounts (v, w, label) (a, b, l)
                  (get_or (get dec_edge g.edge_refcounts (v, w, label)) 0 + 1),
            ),
        λ a b l.
            edge_in-put_edge v w a b label l
              (add_node dec dec_data dec_edge w (add_node dec dec_data dec_edge v g))
            ∙ ap (ite (dec_edge (v, w, label) (a, b, l)) true) (
                unfold add_node in
                edge_in-add_node dec dec_data dec_edge (Graph.add_node dec dec_data v g.graph).0 w a
                  b l
                ∙ edge_in-add_node dec dec_data dec_edge g.graph v a b l),
      )
