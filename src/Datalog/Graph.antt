-- ===== src/Datalog/Graph.antt =====
-- congress/datalog/utility.py: `Graph` and its `stratification`. Nodes and labels are of any type
-- with an equality; the label None is an absent option. `nodes` is the dict's keys; the data that
-- a depth-first search keeps at a node is left out.
pub mod Inversion
pub mod Roots
pub mod Inverted
pub mod Rounds
pub mod Loop
pub mod Stratify
use congress.Prelude.{
  ℕ, zero, suc, ◌+◌, ◌*◌, Bool, true, false, ◌&&◌, ◌||◌, not, Option, none, some, List, [], ◌∷◌,
  ◌++◌, length, max, ltb, ◌==◌, get_or, if◌then◌else◌,
}
use congress.Sets.{member, insert, discard}
use congress.Dict.Base.{Dict, get, put, remove, has, keys}

-- `edge_data`: the target of an edge and its label
abbrev pub EdgeData : Type 0 → Type 0 → Type 0
EdgeData N L = N × Option L

pub record Graph (N L : Type 0) : Type 0 where
  pub nodes : List N
  pub edges : Dict N (List (EdgeData N L))

module _ {N L : Type 0} (dec : Discrete N) (dec_edge : Discrete (EdgeData N L)) where
  unfoldable pub add_node : N → Graph N L → Graph N L × Bool
  add_node v g =
      if member dec v g.nodes then (g, false) else (record g { nodes = g.nodes ++ v ∷ [] }, true)

  -- `del self.nodes[val]; del self.edges[val]`; an absent key ends it before the edges are deleted,
  -- and then the node must have no edges: `none` is the AssertionError
  unfoldable pub delete_node : N → Graph N L → Option (Graph N L)
  delete_node v g =
      if member dec v g.nodes
      then some (record { nodes = discard dec v g.nodes; edges = remove dec g.edges v })
      else if has dec g.edges v
      then none
      else some g

  unfoldable pub add_edge : N → N → Option L → Graph N L → Graph N L
  unfolding add_node
  add_edge v w label g =
      let g' = (add_node w (add_node v g).0).0 in
      record g' {
        edges = put dec g'.edges v (insert dec_edge (w, label) (get_or (get dec g'.edges v) []));
      }

  -- the KeyError of an absent node or edge is caught
  unfoldable pub delete_edge : N → N → Option L → Graph N L → Graph N L
  delete_edge v w label g = elim (get dec g.edges v) [
    | none ↦ g
    | some es ↦ record g { edges = put dec g.edges v (discard dec_edge (w, label) es) }
  ]

  unfoldable pub node_in : N → Graph N L → Bool
  node_in v g = member dec v g.nodes

  unfoldable pub edge_in : N → N → Option L → Graph N L → Bool
  edge_in v w label g = elim (get dec g.edges v) [
    | none ↦ false
    | some es ↦ member dec_edge (w, label) es
  ]

-- The state of the loops of `stratification`: the strata and whether there was a change, or that a
-- stratum passed the number of nodes (None is returned), or a KeyError.
pub data Round (N : Type 0) : Type 0 where
  running : Dict N ℕ → Bool → Round N
  too_high : Round N
  key_error : Round N

pub data Outcome (N : Type 0) : Type 0 where
  stratified : Dict N ℕ → Outcome N
  unstratifiable : Outcome N
  failed : Outcome N
  out_of_fuel : Outcome N

-- `for node in self.nodes: stratum[node] = 1`
unfoldable pub initial {ℓ} : {N : Type ℓ} → List N → List (N × ℕ)
initial [] = []
initial (v ∷ vs) = (v, 1) ∷ initial vs

-- the stratum that an edge asks for, from the stratum of its target
unfoldable pub demand {ℓ} : {L : Type ℓ} → (Option L → Bool) → Option L → ℕ → ℕ
demand labels label x = if labels label then 1 + x else x

module _ {N L : Type 0} (dec : Discrete N) (labels : Option L → Bool) where
  -- one edge of the loop
  unfoldable pub raise_edge : N → EdgeData N L → Dict N ℕ → Round N
  unfolding demand
  raise_edge v (w, label) stratum = elim (get dec stratum v) [
    | none ↦ key_error
    | some old ↦ elim (get dec stratum w) [
      | none ↦ key_error
      | some x ↦
          let new = max old (demand labels label x) in
          running (put dec stratum v new) (not (old == new))
    ]
  ]

  -- the loop over `self.edges[node]`
  unfoldable pub raise_edges : ℕ → N → List (EdgeData N L) → Dict N ℕ → Bool → Round N
  unfolding raise_edge
  raise_edges size v [] stratum changes = running stratum changes
  raise_edges size v (e ∷ es) stratum changes = elim (raise_edge v e stratum) [
    | running stratum' changed ↦
        let rest = raise_edges size v es stratum' (changes || changed) in
        if ltb size (get_or (get dec stratum' v) 0) then too_high else rest
    | too_high ↦ too_high
    | key_error ↦ key_error
  ]

  -- the loop over `self.edges`
  unfoldable pub raise_all : ℕ → Dict N (List (EdgeData N L)) → Dict N ℕ → Bool → Round N
  unfolding raise_edges
  raise_all size [] stratum changes = running stratum changes
  raise_all size ((v, es) ∷ edges) stratum changes = elim (raise_edges size v es stratum changes) [
    | running stratum' changes' ↦ raise_all size edges stratum' changes'
    | too_high ↦ too_high
    | key_error ↦ key_error
  ]

  -- `while changes`
  unfoldable pub stratify : ℕ → Graph N L → Dict N ℕ → Outcome N
  unfolding raise_all
  stratify zero g stratum = out_of_fuel
  stratify (suc fuel) g stratum = elim (raise_all (length g.nodes) g.edges stratum false) [
    | running stratum' changes ↦
        let rest = stratify fuel g stratum' in if changes then rest else stratified stratum'
    | too_high ↦ unstratifiable
    | key_error ↦ failed
  ]

  -- each round but the last raises some stratum, and none passes the number of nodes
  unfoldable pub stratification : Graph N L → Outcome N
  unfolding stratify
  stratification g = stratify (suc (length g.nodes * length g.nodes)) g (initial g.nodes)
