-- ===== src/Datalog/BagGraph/Deletions.antt =====
-- Deleting edges of `BagGraph` of utility.py.
use congress.Prelude.{
  ◌-◌, ◌≡◌, ◌≢◌, ◌∙◌, refl, ap, Bool, ite, true, false, not, ◌&&◌, ◌||◌, ◌==◌, Option, some, get_or,
  if◌then◌else◌, arith, Option-cases, Bool-cases, inl, inr,
}
use congress.Sets.{discard, member-discard}
use congress.Dict.Base.{get, get-put, get-remove}
use congress.Datalog.Graph
use congress.Datalog.Graph.{Graph, EdgeData}
use congress.Datalog.BagGraph.{
  BagGraph, Edge, drop_edge, delete_edge, edge_in, node_in, node_count, edge_count,
}
use congress.Datalog.BagGraph.Counts.{IsBag, delete_node-IsBag}
use congress.Datalog.BagGraph.Edges.{edge, target, same_edge}

module _ {N L : Type 0} (dec : Discrete N) (dec_data : Discrete (EdgeData N L))
    (dec_edge : Discrete (Edge N L)) where
  edge_in-delete_edge :
      (v w a b : N) (label l : Option L) (g : Graph N L)
      → Graph.edge_in dec dec_data a b l (Graph.delete_edge dec dec_data v w label g) ≡ true
      → (Graph.edge_in dec dec_data a b l g ≡ true) × (edge v w label ≢ edge a b l)
  unfolding Graph.edge_in Graph.delete_edge
  edge_in-delete_edge v w a b label l g i = elim (Option-cases (get dec g.edges v)) [
    | inl e ↦
        (ground arith, λ same. let p : v ≡ a = ap (λ (x : Edge N L). x.0) same in ground arith)
    | inr (es, e) ↦ (
      ground (
        arith,
        get-put dec g.edges v a (discard dec_data (w, label) es),
        member-discard dec_data (w, label) (b, l) es,
      ),
      λ same.
          let p : v ≡ a = ap (λ (x : Edge N L). x.0) same in
          let q : target w label ≡ target b l = ap (λ (x : Edge N L). target x.1 x.2) same in
          ground (
            arith,
            get-put dec g.edges v a (discard dec_data (w, label) es),
            member-discard dec_data (w, label) (b, l) es,
          ),
    )
  ]

  drop_edge-IsBag :
      (v w : N) (label : Option L) (g : BagGraph N L)
      → IsBag dec dec_data dec_edge g
      → IsBag dec dec_data dec_edge (drop_edge dec dec_data dec_edge v w label g)
        × ((x : N)
            → node_count dec dec_data dec_edge x (drop_edge dec dec_data dec_edge v w label g)
              ≡ node_count dec dec_data dec_edge x g)
        × ((a b : N) (l : Option L)
            → edge_count dec dec_data dec_edge a b l (drop_edge dec dec_data dec_edge v w label g)
              ≡ edge_count dec dec_data dec_edge a b l g
                - ite (dec_edge (v, w, label) (a, b, l)) 1 0)
  unfolding drop_edge node_count edge_count
  drop_edge-IsBag v w label g h =
      elim (Bool-cases (get_or (get dec_edge g.edge_refcounts (v, w, label)) 0 - 1 == 0)) [
        | inl z ↦
            simp (z, drop_edge)
              (
                record {
                  nodes = λ x. unfold Graph.delete_edge in ground (arith, h.nodes x);
                  counted = h.counted;
                  edges_counted = λ e. ground (
                    arith,
                    get-remove dec_edge g.edge_refcounts (v, w, label) e,
                    h.edges_counted e,
                  );
                  edges = λ a b l i.
                      let (old, ne) = edge_in-delete_edge v w a b label l g.graph i in
                      let k = h.edges a b l old in
                      ground (arith, get-remove dec_edge g.edge_refcounts (v, w, label) (a, b, l));
                },
                λ x. refl,
                λ a b l.
                    ground (arith, get-remove dec_edge g.edge_refcounts (v, w, label) (a, b, l)),
              )
        | inr z ↦
            simp (z, drop_edge)
              (
                record {
                  nodes = h.nodes;
                  counted = h.counted;
                  edges_counted = λ e. ground (
                    arith,
                    get-put dec_edge g.edge_refcounts (v, w, label) e
                        (get_or (get dec_edge g.edge_refcounts (v, w, label)) 0 - 1),
                    h.edges_counted e,
                  );
                  edges = λ a b l i.
                      let k = h.edges a b l i in
                      ground (
                        arith,
                        get-put dec_edge g.edge_refcounts (v, w, label) (a, b, l)
                            (get_or (get dec_edge g.edge_refcounts (v, w, label)) 0 - 1),
                      );
                },
                λ x. refl,
                λ a b l. ground (
                  arith,
                  get-put dec_edge g.edge_refcounts (v, w, label) (a, b, l)
                      (get_or (get dec_edge g.edge_refcounts (v, w, label)) 0 - 1),
                ),
              )
      ]

  edge_in-deleted :
      (v w a b : N) (label l : Option L) (g : Graph N L)
      → Graph.edge_in dec dec_data a b l (Graph.delete_edge dec dec_data v w label g)
        ≡ ite (dec_edge (v, w, label) (a, b, l)) false (Graph.edge_in dec dec_data a b l g)
  unfolding Graph.edge_in Graph.delete_edge
  edge_in-deleted v w a b label l g = elim (dec_edge (v, w, label) (a, b, l)) [
    | yes p ↦
        let gone = edge_in-delete_edge v w a b label l g in
        elim (Bool-cases
          (Graph.edge_in dec dec_data a b l (Graph.delete_edge dec dec_data v w label g))) [
            | inl i ↦ absurd ((gone i).1 p)
            | inr i ↦ ground (arith, i)
          ]
    | no n ↦ elim (Option-cases (get dec g.edges v)) [
      | inl e ↦ ground (arith, e)
      | inr (es, e) ↦
          let stored = get-put dec g.edges v a (discard dec_data (w, label) es) in
          elim (dec v a) [
            | no p ↦ ground (arith, stored)
            | yes p ↦ elim (dec_data (w, label) (b, l)) [
              | yes q ↦ absurd (n (same_edge dec dec_data dec_edge v w a b label l p q))
              | no q ↦ ground (arith, stored, member-discard dec_data (w, label) (b, l) es)
            ]
          ]
    ]
  ]

  -- An edge stays in the graph if its count stays.
  edge_in-drop_edge :
      (v w a b : N) (label l : Option L) (g : BagGraph N L)
      → IsBag dec dec_data dec_edge g
      → Graph.edge_in dec dec_data a b l (drop_edge dec dec_data dec_edge v w label g).graph ≡ (
          Graph.edge_in dec dec_data a b l g.graph
          && edge_in dec dec_data dec_edge a b l (drop_edge dec dec_data dec_edge v w label g))
  unfolding edge_in drop_edge
  edge_in-drop_edge v w a b label l g h =
      let i = h.edges a b l in
      let n = h.edges_counted (v, w, label) in
      elim (Bool-cases (get_or (get dec_edge g.edge_refcounts (v, w, label)) 0 - 1 == 0)) [
        | inl z ↦ ground (
          arith,
          edge_in-deleted v w a b label l g.graph,
          get-remove dec_edge g.edge_refcounts (v, w, label) (a, b, l),
        )
        | inr z ↦ ground (
          arith,
          get-put dec_edge g.edge_refcounts (v, w, label) (a, b, l)
              (get_or (get dec_edge g.edge_refcounts (v, w, label)) 0 - 1),
        )
      ]

  node_in-drop_edge :
      (v w a : N) (label : Option L) (g : BagGraph N L)
      → node_in dec dec_data dec_edge a (drop_edge dec dec_data dec_edge v w label g)
        ≡ node_in dec dec_data dec_edge a g
  unfolding node_in drop_edge
  node_in-drop_edge v w a label g = ground arith

  -- What stays after the node of each end and the edge are deleted: `i` says whether there is the
  -- edge, `n` whether there is its node, and `c` whether it has a count.
  present :
      (i0 i1 i2 i3 n0 n1 n2 n3 c : Bool)
      → i1 ≡ (i0 && (n1 || not n0))
      → i2 ≡ (i1 && (n2 || not n1))
      → i3 ≡ (i2 && c)
      → n3 ≡ n2
      → (n1 ≡ true → n0 ≡ true)
      → (n2 ≡ true → n1 ≡ true)
      → i3 ≡ (i0 && (c && (n3 || not n0)))
  present i0 i1 i2 i3 n0 n1 n2 n3 c e f g h k m = ground arith

  -- Let no count be 0, the nodes be those with a count, and every edge of the graph have one.
  -- Deleting an edge raises nothing and keeps this so. If the edge has a count, it counts one less
  -- for the edge and one less for each of its ends, for a loop two less for the node, though no
  -- node below 0; otherwise it changes no count. It leaves every other count. The graph has
  -- afterwards those of its edges that still have a count and whose source is not a node that was
  -- deleted with its last count.
  pub delete_edge-IsBag :
      (v w : N) (label : Option L) (g : BagGraph N L)
      → IsBag dec dec_data dec_edge g
      → (g' : BagGraph N L) × (delete_edge dec dec_data dec_edge v w label g ≡ some g')
        × IsBag dec dec_data dec_edge g'
        × ((x : N)
            → node_count dec dec_data dec_edge x g' ≡ (
                if edge_in dec dec_data dec_edge v w label g
                then node_count dec dec_data dec_edge x g - ite (dec v x) 1 0 - ite (dec w x) 1 0
                else node_count dec dec_data dec_edge x g))
        × ((a b : N) (l : Option L)
            → edge_count dec dec_data dec_edge a b l g'
              ≡ edge_count dec dec_data dec_edge a b l g
                - ite (dec_edge (v, w, label) (a, b, l)) 1 0)
        × ((a b : N) (l : Option L)
            → Graph.edge_in dec dec_data a b l g'.graph ≡ (
                Graph.edge_in dec dec_data a b l g.graph
                && (edge_in dec dec_data dec_edge a b l g'
                    && (node_in dec dec_data dec_edge a g'
                        || not (node_in dec dec_data dec_edge a g)))))
  unfolding delete_edge edge_in
  delete_edge-IsBag v w label g h =
      elim (Option-cases (get dec_edge g.edge_refcounts (v, w, label))) [
        | inl e ↦ (
          g,
          simp (e, delete_edge) refl,
          h,
          λ x. simp e refl,
          λ a b l. unfold edge_count in ground arith,
          λ a b l. let i = h.edges a b l in ground arith,
        )
        | inr (n, e) ↦
            let (g1, e1, d1) = delete_node-IsBag dec dec_data dec_edge v g h in
            let (g2, e2, d2) = delete_node-IsBag dec dec_data dec_edge w g1 d1.bag in
            let (bag, nodes, edges) = drop_edge-IsBag v w label g2 d2.bag in
            let kept : g2.edge_refcounts ≡ g.edge_refcounts = d2.kept ∙ d1.kept in
            (
              drop_edge dec dec_data dec_edge v w label g2,
              simp (e, delete_edge, e1, e2) refl,
              bag,
              λ x. nodes x ∙ simp e (d2.counts x ∙ ap (λ n. n - ite (dec w x) 1 0) (d1.counts x)),
              λ a b l. edges a b l ∙ unfold edge_count in rw kept refl,
              λ a b l.
                  present (Graph.edge_in dec dec_data a b l g.graph) _ _ _ _ _ _ _ _ (d1.left a b l)
                    (d2.left a b l) (edge_in-drop_edge v w a b label l g2 d2.bag)
                    (node_in-drop_edge v w a label g2) (d1.fewer a) (d2.fewer a),
            )
      ]
