-- ===== src/Tests/Bags.antt =====
-- `BagGraph` of congress/datalog/utility.py at concrete inputs.
use congress.Prelude.{
  ℕ, ◌+◌, ◌-◌, ◌≡◌, refl, ap, ite, String, String-discrete, true, not, ◌&&◌, ◌||◌, Option, none,
  some, [], arith, if◌then◌else◌,
}
use congress.Sets.{member}
use congress.Dict.Base.{get}
use congress.Datalog.Graph
use congress.Datalog.Graph.{EdgeData}
use congress.Datalog.BagGraph.{
  BagGraph, Edge, add_edge, delete_edge, edge_in, node_in, node_count, edge_count,
}
use congress.Datalog.BagGraph.Counts.{IsBag}
use congress.Datalog.BagGraph.Edges.{add_edge-IsBag}
use congress.Tests.Graphs.{data_dec}
use congress.Datalog.BagGraph.Deletions.{delete_edge-IsBag}

abbrev target : String → Option ℕ → EdgeData String ℕ
target w label = (w, label)

edge_dec : Discrete (Edge String ℕ)
edge_dec (v, w, label) (a, b, l) = elim (String-discrete v a) [
  | no n ↦ no (λ e. n (ap (λ (x : Edge String ℕ). x.0) e))
  | yes p ↦ elim (data_dec (target w label) (target b l)) [
    | no n ↦ no (λ e. n (ap (λ (x : Edge String ℕ). target x.1 x.2) e))
    | yes q ↦ yes (cc)
  ]
]

abbrev no_rules : BagGraph String ℕ
no_rules = record {
  graph = record { nodes = []; edges = [] };
  node_refcounts = [];
  edge_refcounts = [];
}

no_rules-IsBag : IsBag String-discrete data_dec edge_dec no_rules
no_rules-IsBag = record {
  nodes = λ v. unfold member get in refl;
  counted = λ v. unfold get in ground arith;
  edges_counted = λ e. unfold get in ground arith;
  edges = λ v w label. unfold Graph.edge_in get in ground arith;
}

-- p depends on q, and on itself
abbrev once : BagGraph String ℕ
once = add_edge String-discrete data_dec edge_dec "p" "q" none no_rules

abbrev twice : BagGraph String ℕ
twice = add_edge String-discrete data_dec edge_dec "p" "p" none once

add_edge-IsBag_example :
    IsBag String-discrete data_dec edge_dec once
    × ((x : String)
        → node_count String-discrete data_dec edge_dec x once
          ≡ node_count String-discrete data_dec edge_dec x no_rules
            + ite (String-discrete "p" x) 1 0
            + ite (String-discrete "q" x) 1 0)
    × ((a b : String) (l : Option ℕ)
        → edge_count String-discrete data_dec edge_dec a b l once
          ≡ edge_count String-discrete data_dec edge_dec a b l no_rules
            + ite (edge_dec ("p", "q", none) (a, b, l)) 1 0)
    × ((a b : String) (l : Option ℕ)
        → Graph.edge_in String-discrete data_dec a b l once.graph
          ≡ ite
              (edge_dec ("p", "q", none) (a, b, l))
              true
              (Graph.edge_in String-discrete data_dec a b l no_rules.graph))
add_edge-IsBag_example =
    add_edge-IsBag String-discrete data_dec edge_dec "p" "q" none no_rules no_rules-IsBag

once-IsBag : IsBag String-discrete data_dec edge_dec once
once-IsBag =
    (add_edge-IsBag String-discrete data_dec edge_dec "p" "q" none no_rules no_rules-IsBag).0

twice-IsBag : IsBag String-discrete data_dec edge_dec twice
twice-IsBag = (add_edge-IsBag String-discrete data_dec edge_dec "p" "p" none once once-IsBag).0

delete_edge-IsBag_example :
    (g : BagGraph String ℕ) × (delete_edge String-discrete data_dec edge_dec "p" "p" none twice
      ≡ some g)
    × IsBag String-discrete data_dec edge_dec g
    × ((x : String)
        → node_count String-discrete data_dec edge_dec x g ≡ (
            if edge_in String-discrete data_dec edge_dec "p" "p" none twice
            then node_count String-discrete data_dec edge_dec x twice
              - ite (String-discrete "p" x) 1 0
              - ite (String-discrete "p" x) 1 0
            else node_count String-discrete data_dec edge_dec x twice))
    × ((a b : String) (l : Option ℕ)
        → edge_count String-discrete data_dec edge_dec a b l g
          ≡ edge_count String-discrete data_dec edge_dec a b l twice
            - ite (edge_dec ("p", "p", none) (a, b, l)) 1 0)
    × ((a b : String) (l : Option ℕ)
        → Graph.edge_in String-discrete data_dec a b l g.graph ≡ (
            Graph.edge_in String-discrete data_dec a b l twice.graph
            && (edge_in String-discrete data_dec edge_dec a b l g
                && (node_in String-discrete data_dec edge_dec a g
                    || not (node_in String-discrete data_dec edge_dec a twice)))))
delete_edge-IsBag_example =
    delete_edge-IsBag String-discrete data_dec edge_dec "p" "p" none twice twice-IsBag
