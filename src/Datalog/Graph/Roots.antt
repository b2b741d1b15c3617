-- ===== src/Datalog/Graph/Roots.antt =====
-- What `roots` and `_inverted_edge_graph` of utility.py find, in terms of the edges of the graph.
use congress.Prelude.{
  ◌≡◌, ◌↔◌, ap, ite, Bool, true, false, inl, inr, Option, List, [], ◌∷◌, arith, Bool-cases, if_pos,
}
use congress.Sets.{member}
use congress.Dict.Base.{Dict, get, Distinct}
use congress.Datalog.Graph.{EdgeData, Graph, edge_in}
use congress.Datalog.Graph.Inversion.{roots, leads_in, leads_to, member-drop_all_targets, edge_of}

module _ {N L : Type 0} where
  abbrev pub target : N → Option L → EdgeData N L
  target w label = (w, label)

module _ {N L : Type 0} (dec : Discrete N) (dec_edge : Discrete (EdgeData N L)) where
  pub leads_in_iff :
      (w : N) (es : List (EdgeData N L))
      → (leads_in dec dec_edge w es ≡ true)
        ↔ ((label : Option L) × (member dec_edge (w, label) es ≡ true))
  unfolding member
  leads_in_iff w [] = (λ h. absurd (cc), λ h. h.1)
  leads_in_iff w ((x, l) ∷ es) = elim (dec x w) [
    | yes p ↦ (
      λ h. (l, if_pos (dec_edge (x, l) (w, l)) (ap (λ y. target y l) p) true _),
      λ h. ground arith,
    )
    | no p ↦ (
      λ h. let (k, m) = (leads_in_iff w es).0 (ground arith) in (k, unless (x, l) (w, k) true m),
      λ (k, m). elim (dec_edge (x, l) (w, k)) [
        | yes q ↦ absurd (p (ap (λ (e : EdgeData N L). e.0) q))
        | no q ↦ let rest = (leads_in_iff w es).1 (k, ground arith) in ground arith
      ],
    )
  ]
    where
      unless : (a b : EdgeData N L) (x : Bool) {y : Bool} → y ≡ x → ite (dec_edge a b) x y ≡ x
      unless a b x h = ground arith

  leads_to_edge :
      (w : N) (edges : Dict N (List (EdgeData N L)))
      → Distinct dec edges
      → leads_to dec dec_edge w edges ≡ true
      → (v : N) × (label : Option L) × (edge_of dec dec_edge edges v (w, label) ≡ true)
  unfolding get
  leads_to_edge w [] d h = absurd (cc)
  leads_to_edge w ((x, es) ∷ edges) d h = elim (Bool-cases (leads_in dec dec_edge w es)) [
    | inl b ↦ let (label, m) = (leads_in_iff w es).0 b in (x, label, ground arith)
    | inr b ↦
        let (v, label, m) = leads_to_edge w edges d.1 (ground arith) in
        (
          v,
          label,
          elim (dec x v) [ yes p ↦ let fresh = d.0 in absurd (ground arith) | no p ↦ ground arith ],
        )
  ]

  edge_leads_to :
      (w v : N) (label : Option L) (edges : Dict N (List (EdgeData N L)))
      → edge_of dec dec_edge edges v (w, label) ≡ true
      → leads_to dec dec_edge w edges ≡ true
  unfolding get
  edge_leads_to w v label [] h = absurd (cc)
  edge_leads_to w v label ((x, es) ∷ edges) h = elim (dec x v) [
    | yes p ↦ let l = (leads_in_iff w es).1 (label, ground arith) in ground arith
    | no p ↦ let l = edge_leads_to w v label edges (ground arith) in ground arith
  ]

  -- The roots of a graph, whose dict of edges has no key twice, are exactly the nodes to which no
  -- edge leads.
  pub member-roots :
      (g : Graph N L) (w : N)
      → Distinct dec g.edges
      → (member dec w (roots dec dec_edge g) ≡ true) ↔ (
          (member dec w g.nodes ≡ true)
          × ((v : N) (label : Option L) → edge_in dec dec_edge v w label g ≡ false))
  unfolding roots edge_in
  member-roots g w d = elim (Bool-cases (leads_to dec dec_edge w g.edges)) [
    | inl b ↦
        let (v, label, m) = leads_to_edge w g.edges d b in
        (
          λ h. absurd (ground (arith, member-drop_all_targets dec dec_edge g.edges g.nodes w)),
          λ (n, none_in). let no = none_in v label in absurd (ground arith),
        )
    | inr b ↦ (
      λ h. (
        ground (arith, member-drop_all_targets dec dec_edge g.edges g.nodes w),
        λ v label. ground (arith, edge_leads_to w v label g.edges),
      ),
      λ (n, none_in). ground (arith, member-drop_all_targets dec dec_edge g.edges g.nodes w),
    )
  ]
