-- ===== src/Datalog/Graph/Inversion.antt =====
-- congress/datalog/utility.py: `roots` and `_inverted_edge_graph` of `Graph`.
use congress.Prelude.{
  ◌≡◌, refl, ite, Bool, true, false, ◌||◌, inl, inr, none, some, List, [], ◌∷◌, get_or, arith,
  Option-cases, if◌then◌else◌,
}
use congress.Sets.{member, insert, discard, member-insert, member-discard}
use congress.Dict.Base.{Dict, get, put, get-put}
use congress.Datalog.Graph.{EdgeData, Graph}

module _ {N L : Type 0} (dec : Discrete N) (dec_edge : Discrete (EdgeData N L)) where
  -- the inner loop of `roots`
  unfoldable pub drop_targets : List (EdgeData N L) → List N → List N
  drop_targets [] vs = vs
  drop_targets ((w, label) ∷ es) vs = drop_targets es (discard dec w vs)

  unfoldable pub drop_all_targets : Dict N (List (EdgeData N L)) → List N → List N
  drop_all_targets [] vs = vs
  drop_all_targets ((v, es) ∷ edges) vs = drop_all_targets edges (drop_targets es vs)

  unfoldable pub roots : Graph N L → List N
  roots g = drop_all_targets g.edges g.nodes

  -- `newGraph.edges[edge.node].add(edge_data(source_node))`
  unfoldable pub add_inverted : N → N → Dict N (List (EdgeData N L)) → Dict N (List (EdgeData N L))
  add_inverted source w d = put dec d w (insert dec_edge (source, none) (get_or (get dec d w) []))

  unfoldable pub invert_edges :
      N → List (EdgeData N L) → Dict N (List (EdgeData N L)) → Dict N (List (EdgeData N L))
  invert_edges source [] d = d
  invert_edges source ((w, label) ∷ es) d = invert_edges source es (add_inverted source w d)

  unfoldable pub invert_all :
      Dict N (List (EdgeData N L)) → Dict N (List (EdgeData N L)) → Dict N (List (EdgeData N L))
  invert_all [] d = d
  invert_all ((v, es) ∷ edges) d = invert_all edges (invert_edges v es d)

  unfoldable pub inverted_edge_graph : Graph N L → Graph N L
  inverted_edge_graph g = record { nodes = g.nodes; edges = invert_all g.edges [] }

  -- an edge with any label leads to the node
  abbrev pub leads_in : N → List (EdgeData N L) → Bool
  leads_in w [] = false
  leads_in w ((x, label) ∷ es) = ite (dec x w) true (leads_in w es)

  abbrev pub leads_to : N → Dict N (List (EdgeData N L)) → Bool
  leads_to w [] = false
  leads_to w ((v, es) ∷ edges) = leads_in w es || leads_to w edges

  member-drop_targets :
      (es : List (EdgeData N L)) (vs : List N) (v : N)
      → member dec v (drop_targets es vs) ≡ (if leads_in v es then false else member dec v vs)
  unfolding drop_targets
  member-drop_targets [] vs v = refl
  member-drop_targets ((w, label) ∷ es) vs v =
      ground (arith, member-drop_targets es (discard dec w vs) v, member-discard dec w v vs)

  pub member-drop_all_targets :
      (edges : Dict N (List (EdgeData N L))) (vs : List N) (v : N)
      → member dec v (drop_all_targets edges vs)
        ≡ (if leads_to v edges then false else member dec v vs)
  unfolding drop_all_targets
  member-drop_all_targets [] vs v = refl
  member-drop_all_targets ((x, es) ∷ edges) vs v =
      ground
        (arith, member-drop_all_targets edges (drop_targets es vs) v, member-drop_targets es vs v)

  -- an edge of the dict of edges
  abbrev pub edge_of : Dict N (List (EdgeData N L)) → N → EdgeData N L → Bool
  edge_of d v e = elim (get dec d v) [ none ↦ false | some es ↦ member dec_edge e es ]

  edge_of-add_inverted :
      (source w x : N) (e : EdgeData N L) (d : Dict N (List (EdgeData N L)))
      → edge_of (add_inverted source w d) x e
        ≡ (edge_of d x e || ite (dec w x) (ite (dec_edge (source, none) e) true false) false)
  unfolding add_inverted
  edge_of-add_inverted source w x e d = elim (Option-cases (get dec d w)) [
    | inl p ↦
        unfold member in
        ground (
          arith,
          get-put dec d w x (insert dec_edge (source, none) []),
          member-insert dec_edge (source, none) e [],
        )
    | inr (es, p) ↦ ground (
      arith,
      get-put dec d w x (insert dec_edge (source, none) es),
      member-insert dec_edge (source, none) e es,
    )
  ]

  pub edge_of-invert_edges :
      (source x : N) (e : EdgeData N L) (es : List (EdgeData N L))
      (d : Dict N (List (EdgeData N L)))
      → edge_of (invert_edges source es d) x e ≡ (
          edge_of d x e
          || (if leads_in x es then ite (dec_edge (source, none) e) true false else false))
  unfolding invert_edges
  edge_of-invert_edges source x e [] d = ground arith
  edge_of-invert_edges source x e ((w, label) ∷ es) d = ground (
    arith,
    edge_of-invert_edges source x e es (add_inverted source w d),
    edge_of-add_inverted source w x e d,
  )
