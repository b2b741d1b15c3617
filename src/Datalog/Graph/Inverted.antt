-- ===== src/Datalog/Graph/Inverted.antt =====
-- The edges of `_inverted_edge_graph` of utility.py are those of the graph, turned round.
use congress.Prelude.{
  ◌≡◌, ◌↔◌, refl, ap, ◌∙◌, ite, Bool, true, false, ◌||◌, ◌&&◌, inl, inr, Option, none, some, List,
  [], ◌∷◌, arith, Option-cases, if_pos, if_neg,
}
use congress.Dict.Base.{Dict, get, Distinct}
use congress.Datalog.Graph.{EdgeData, Graph, edge_in}
use congress.Datalog.Graph.Inversion.{
  invert_all, invert_edges, inverted_edge_graph, leads_in, edge_of, edge_of-invert_edges,
}
use congress.Datalog.Graph.Roots.{target, leads_in_iff}

abbrev is_none : {A : Type 0} → Option A → Bool
is_none none = true
is_none (some a) = false

module _ {N L : Type 0} (dec : Discrete N) (dec_edge : Discrete (EdgeData N L)) where
  same_source :
      (u v : N) (l : Option L)
      → ite (dec_edge (u, none) (v, l)) true false ≡ (ite (dec u v) true false && is_none l)
  same_source u v (some l) = elim (dec_edge (u, none) (v, some l)) [
    | yes p ↦ absurd (cc)
    | no p ↦ ground arith
  ]
  same_source u v none = elim (dec u v) [
    | yes p ↦
        if_pos (dec_edge (u, none) (v, none)) (ap (λ y. target y none) p) true false ∙ ground arith
    | no p ↦
        if_neg (dec_edge (u, none) (v, none)) (λ q. p (ap (λ (e : EdgeData N L). e.0) q)) true false
        ∙ ground arith
  ]

  -- some edge leads from `v` to `x`
  leads : N → N → Dict N (List (EdgeData N L)) → Bool
  leads v x edges = elim (get dec edges v) [ none ↦ false | some es ↦ leads_in dec dec_edge x es ]

  edge_of-invert_all :
      (edges d : Dict N (List (EdgeData N L))) (x v : N) (l : Option L)
      → Distinct dec edges
      → edge_of dec dec_edge (invert_all dec dec_edge edges d) x (v, l)
        ≡ (edge_of dec dec_edge d x (v, l) || (leads v x edges && is_none l))
  unfolding invert_all leads get
  edge_of-invert_all [] d x v l h = ground arith
  edge_of-invert_all ((u, es) ∷ edges) d x v l h =
      edge_of-invert_all edges (invert_edges dec dec_edge u es d) x v l h.1 ∙ elim (dec u v) [
        | yes p ↦
            let fresh = h.0 in
            ground (arith, edge_of-invert_edges dec dec_edge u x (v, l) es d, same_source u v l)
        | no p ↦
            ground (arith, edge_of-invert_edges dec dec_edge u x (v, l) es d, same_source u v l)
      ]

  edge_of-inverted :
      (g : Graph N L) (x v : N) (l : Option L)
      → Distinct dec g.edges
      → edge_in dec dec_edge x v l (inverted_edge_graph dec dec_edge g)
        ≡ (leads v x g.edges && is_none l)
  unfolding edge_in inverted_edge_graph
  edge_of-inverted g x v l d = edge_of-invert_all g.edges [] x v l d ∙ unfold get in refl

  leads_iff :
      (v x : N) (g : Graph N L)
      → (leads v x g.edges ≡ true)
        ↔ ((label : Option L) × (edge_in dec dec_edge v x label g ≡ true))
  unfolding leads edge_in
  leads_iff v x g = elim (Option-cases (get dec g.edges v)) [
    | inl e ↦ (λ h. absurd (ground arith), λ (l, h). absurd (ground arith))
    | inr (es, e) ↦ (
      λ h. let (l, m) = (leads_in_iff dec dec_edge x es).0 (ground arith) in (l, ground arith),
      λ (l, h). let m = (leads_in_iff dec dec_edge x es).1 (l, ground arith) in ground arith,
    )
  ]

  -- In the inverted graph, of a graph whose dict of edges has no key twice, an edge leads from `x`
  -- to `v` just where an edge with any label leads from `v` to `x` in the graph, and no edge has a
  -- label.
  pub edge_in-inverted :
      (g : Graph N L) (x v : N) (l : Option L)
      → Distinct dec g.edges
      → (edge_in dec dec_edge x v l (inverted_edge_graph dec dec_edge g) ≡ true)
        ↔ (((label : Option L) × (edge_in dec dec_edge v x label g ≡ true)) × (l ≡ none))
  edge_in-inverted g x v none d = (
    λ h. ((leads_iff v x g).0 (ground (arith, edge_of-inverted g x v none d)), refl),
    λ (e, _). let l = (leads_iff v x g).1 e in ground (arith, edge_of-inverted g x v none d),
  )
  edge_in-inverted g x v (some k) d =
      (λ h. absurd (ground (arith, edge_of-inverted g x v (some k) d)), λ (e, f). absurd (cc))
