-- ===== src/Datalog/BagGraph.antt =====
-- congress/datalog/utility.py: `BagGraph`, a `Graph` that counts how often each node and each edge
-- was inserted. The methods of `Graph` that it calls call its own `add_node`.
pub mod Counts
pub mod Edges
pub mod Deletions
use congress.Prelude.{
  ℕ, ◌+◌, ◌-◌, ◌==◌, Bool, [], Option, none, some, get_or, is_some, if◌then◌else◌,
}
use congress.Sets.{insert}
use congress.Dict.Base.{Dict, get, put, remove, has}
use congress.Datalog.Graph
use congress.Datalog.Graph.{Graph, EdgeData}

-- `(val1, val2, label)`
abbrev pub Edge : Type 0 → Type 0 → Type 0
Edge N L = N × N × Option L

pub record BagGraph (N L : Type 0) : Type 0 where
  pub graph : Graph N L
  pub node_refcounts : Dict N ℕ
  pub edge_refcounts : Dict (Edge N L) ℕ

-- `if key in counts: counts[key] += 1 else: counts[key] = 1`
abbrev pub count_up : {K : Type 0} → Discrete K → Dict K ℕ → K → Dict K ℕ
count_up dec counts k = put dec counts k (get_or (get dec counts k) 0 + 1)

module _ {N L : Type 0} (dec : Discrete N) (dec_data : Discrete (EdgeData N L))
    (dec_edge : Discrete (Edge N L)) where
  unfoldable pub add_node : N → BagGraph N L → BagGraph N L
  add_node v g = record g {
    graph = (Graph.add_node dec dec_data v g.graph).0;
    node_refcounts = count_up dec g.node_refcounts v;
  }

  -- a count that is there is at least 1; `none` is an AssertionError
  unfoldable pub delete_node : N → BagGraph N L → Option (BagGraph N L)
  delete_node v g = elim (get dec g.node_refcounts v) [
    | none ↦ some g
    | some n ↦
        if n - 1 == 0
        then elim (Graph.delete_node dec dec_data v g.graph) [
          | none ↦ none
          | some h ↦ some (record g { graph = h; node_refcounts = remove dec g.node_refcounts v })
        ]
        else some (record g { node_refcounts = put dec g.node_refcounts v (n - 1) })
  ]

  -- the edge, between nodes that are there, and its count
  unfoldable pub put_edge : N → N → Option L → BagGraph N L → BagGraph N L
  put_edge v w label g = record g {
    graph = record (g.graph) {
      edges =
          put dec g.graph.edges v
            (insert dec_data (w, label) (get_or (get dec g.graph.edges v) []));
    };
    edge_refcounts = count_up dec_edge g.edge_refcounts (v, w, label);
  }

  -- `Graph.add_edge` with this class's `add_node`
  unfoldable pub add_edge : N → N → Option L → BagGraph N L → BagGraph N L
  add_edge v w label g = put_edge v w label (add_node w (add_node v g))

  -- the count of an edge that is there goes down, and at 0 the edge goes
  unfoldable pub drop_edge : N → N → Option L → BagGraph N L → BagGraph N L
  drop_edge v w label g =
      let n : ℕ = get_or (get dec_edge g.edge_refcounts (v, w, label)) 0 - 1 in
      if n == 0
      then record g {
        graph = Graph.delete_edge dec dec_data v w label g.graph;
        edge_refcounts = remove dec_edge g.edge_refcounts (v, w, label);
      }
      else record g { edge_refcounts = put dec_edge g.edge_refcounts (v, w, label) n }

  unfoldable pub delete_edge : N → N → Option L → BagGraph N L → Option (BagGraph N L)
  delete_edge v w label g =
      if has dec_edge g.edge_refcounts (v, w, label)
      then elim (delete_node v g) [
        | none ↦ none
        | some g' ↦ elim (delete_node w g') [
          | none ↦ none
          | some g'' ↦ some (drop_edge v w label g'')
        ]
      ]
      else some g

  unfoldable pub node_in : N → BagGraph N L → Bool
  node_in v g = has dec g.node_refcounts v

  unfoldable pub edge_in : N → N → Option L → BagGraph N L → Bool
  edge_in v w label g = has dec_edge g.edge_refcounts (v, w, label)

  unfoldable pub node_count : N → BagGraph N L → ℕ
  node_count v g = get_or (get dec g.node_refcounts v) 0

  unfoldable pub edge_count : N → N → Option L → BagGraph N L → ℕ
  edge_count v w label g = get_or (get dec_edge g.edge_refcounts (v, w, label)) 0
