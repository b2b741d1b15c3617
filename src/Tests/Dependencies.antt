-- ===== src/Tests/Dependencies.antt =====
-- `RuleDependencyGraph` of congress/datalog/compile.py at concrete inputs.
use congress.Prelude.{
  ℕ, ℕ_discrete, Text, Text-discrete, ◌≡◌, refl, Bool, true, false, Option, none, some, List, [],
  ◌∷◌, codes, arith,
}
use congress.Sets.{member}
use congress.Dict.Base.{get, remove, put}
use congress.Datalog.Graph
use congress.Datalog.Graph.{EdgeData}
use congress.Datalog.BagGraph.{Edge, delete_node, add_node, node_count}
use congress.Datalog.BagGraph.Counts.{IsBag}
use congress.Datalog.ModalIndex.Counts.{count}
use congress.Datalog.Tablename.{global_tablename, join}
use congress.Datalog.Formula.{Literal, Rule, is_atom}
use congress.Datalog.Dependencies.{
  Formula, literal, rule, FormulaEvent, RuleDependencyGraph, GraphChange, formula_nodes_edges,
  formula_update, undo_changes,
}
use congress.Datalog.Dependencies.Counting.{nodes_of, edges_of}
use congress.Datalog.Dependencies.Undo.{formula_update-undo_changes}

data_dec : Discrete (EdgeData Text Bool)
unfolding Text-discrete
data_dec = hlevel (ℕ_discrete)

edge_dec : Discrete (Edge Text Bool)
unfolding Text-discrete
edge_dec = hlevel (ℕ_discrete)

abbrev nothing : RuleDependencyGraph
nothing = record {
  bag = record {
    graph = record { nodes = []; edges = [] };
    node_refcounts = [];
    edge_refcounts = [];
  };
  modal_index = [];
  head_to_body = true;
}

nothing-IsBag : IsBag Text-discrete data_dec edge_dec nothing.bag
nothing-IsBag = record {
  nodes = λ v. unfold member get in refl;
  counted = λ v. unfold get in ground arith;
  edges_counted = λ e. unfold get in ground arith;
  edges = λ v w label. unfold Graph.edge_in get in ground arith;
}

abbrev atom : Option Text → Text → Bool → Literal ℕ
atom modal t negated = record {
  table = record { service = none; table = t; modal = modal };
  arguments = [];
  negated = negated;
  named_arguments = [];
}

-- execute[p] :- q, not r
abbrev action : Rule ℕ
action = record {
  head = atom (some (codes "execute")) (codes "p") false;
  more_heads = [];
  body = atom none (codes "q") false ∷ atom none (codes "r") true ∷ [];
}

abbrev event : Bool → Formula ℕ → FormulaEvent ℕ
event is_insert f = record { formula = f; target = none; is_insert = is_insert }

-- the formulas that are inserted
abbrev inserts : List (FormulaEvent ℕ)
inserts = event true (rule action) ∷ event true (literal (atom none (codes "q") false)) ∷ []

abbrev run :
    List (FormulaEvent ℕ) → RuleDependencyGraph → Option (RuleDependencyGraph × List GraphChange)
run = formula_update data_dec edge_dec true none none

-- A rule without a body has no table.
no_table :
    formula_nodes_edges edge_dec true
      (rule (record { head = atom none (codes "p") false; more_heads = []; body = [] }))
      none
      true
      none
      none
    ≡ none
unfolding formula_nodes_edges is_atom
no_table = refl

-- the graph and the changes after the insertions
abbrev grown : RuleDependencyGraph × List GraphChange
grown = elim (run inserts nothing) [ none ↦ (nothing, []) | some r ↦ r ]

grown_run : run inserts nothing ≡ some (grown.0, grown.1)
unfolding formula_update is_atom
grown_run = refl

-- Changes are undone from the first to the last: a node that was inserted and deleted comes back.
abbrev back_and_forth : List (FormulaEvent ℕ)
back_and_forth =
    event true (literal (atom none (codes "q") false))
    ∷ event false (literal (atom none (codes "q") false))
    ∷ []

abbrev undone : Option ℕ
undone = elim (run back_and_forth nothing) [
  | none ↦ none
  | some r ↦ elim (undo_changes data_dec edge_dec r.1 r.0) [
    | none ↦ none
    | some g ↦ some (nodes_of data_dec edge_dec g (codes "q"))
  ]
]

undone_once : undone ≡ some 1
unfolding formula_update undo_changes is_atom delete_node get add_node put Text-discrete
    global_tablename join Graph.delete_node member Graph.add_node remove node_count
undone_once = refl

formula_update-undo_changes_example :
    (back : RuleDependencyGraph) × (undo_changes data_dec edge_dec grown.1 grown.0 ≡ some back)
    × IsBag Text-discrete data_dec edge_dec back.bag
    × ((x : Text) → nodes_of data_dec edge_dec back x ≡ nodes_of data_dec edge_dec nothing x)
    × ((e : Edge Text Bool)
        → edges_of data_dec edge_dec back e ≡ edges_of data_dec edge_dec nothing e)
    × ((m t : Text) → count back.modal_index m t ≡ count nothing.modal_index m t)
formula_update-undo_changes_example =
    formula_update-undo_changes data_dec edge_dec true none none inserts nothing grown.0 grown.1
      nothing-IsBag (refl, (refl, tt)) grown_run
