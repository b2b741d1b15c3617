-- ===== src/Datalog/Dependencies.antt =====
-- congress/datalog/compile.py: `RuleDependencyGraph`, the graph of the tables that rules make depend
-- on each other, with the tables of each modal. `dec_data` and `dec_edge` decide equality of edges.
-- In the code, a modal that is new to `modal_index` shares its dict with the change that brought it;
-- here the change keeps the counts that it had.
pub mod Counting
pub mod Modals
pub mod Growth
pub mod Undo
use congress.Prelude.{
  ℕ, zero, suc, Text, Text-discrete, Bool, true, false, not, ◌&&◌, Option, none, some, List, [],
  ◌∷◌, ◌++◌, get_or, if◌then◌else◌,
}
use congress.Sets.{insert}
use congress.Datalog.Graph.{EdgeData}
use congress.Datalog.BagGraph
use congress.Datalog.BagGraph.{BagGraph, Edge}
use congress.Datalog.ModalIndex
use congress.Datalog.ModalIndex.{ModalIndex, isub, iadd}
use congress.Datalog.Tablename.{global_tablename}
use congress.Datalog.Formula.{Literal, Rule, heads, is_atom, tablename}
use congress.Datalog.Safety.{has_text}

pub data Formula (V : Type 0) : Type 0 where
  literal : Literal V → Formula V
  rule : Rule V → Formula V

-- `target` is the theory
pub record FormulaEvent (V : Type 0) : Type 0 where
  pub formula : Formula V
  pub target : Option Text
  pub is_insert : Bool

pub record RuleDependencyGraph : Type 0 where
  pub bag : BagGraph Text Bool
  pub modal_index : ModalIndex
  pub head_to_body : Bool

-- the results of `formula_nodes_edges`, and its local variables
pub record NodesEdges : Type 0 where
  pub nodes : List Text
  pub edges : List (Edge Text Bool)
  pub modals : ModalIndex

pub data GraphChange : Type 0 where
  node_change : Text → Bool → GraphChange
  edge_change : Text → Text → Option Bool → Bool → GraphChange
  modal_change : ModalIndex → Bool → GraphChange

-- `if modal: modals.add(modal, table)`
abbrev pub note_modal : Option Text → Text → ModalIndex → ModalIndex
note_modal none table modals = modals
note_modal (some modal) table modals =
    if has_text (some modal) then ModalIndex.add modals modal table else modals

module _ {V : Type 0} where
  -- a rule with one head, which is an atom, and no body
  unfoldable pub is_atom_rule : Rule V → Bool
  is_atom_rule r = elim r.body [
    | l ∷ ls ↦ false
    | [] ↦ elim r.more_heads [ l ∷ ls ↦ false | [] ↦ is_atom r.head ]
  ]

  -- `select is not None and not select(literal)`
  abbrev pub skipped : Option (Literal V → Bool) → Literal V → Bool
  skipped none l = false
  skipped (some select) l = not (select l)

module _ {V : Type 0} (dec_edge : Discrete (Edge Text Bool)) where
  -- the loop over the body
  unfoldable pub body_edges :
      Bool
      → Option Text
      → Option (Literal V → Bool)
      → Text
      → List (Literal V)
      → NodesEdges
      → NodesEdges
  unfolding tablename
  body_edges head_to_body theory select_body head_table [] s = s
  body_edges head_to_body theory select_body head_table (l ∷ ls) s =
      let lit_table = tablename theory l in
      let edge : Edge Text Bool =
        if head_to_body
        then (head_table, lit_table, some l.negated)
        else (lit_table, head_table, some l.negated) in
      body_edges head_to_body theory select_body head_table ls (
        if skipped select_body l then s else record s {
          nodes = insert Text-discrete lit_table s.nodes;
          edges = insert dec_edge edge s.edges;
        })

  -- the loop over the heads
  unfoldable pub head_edges :
      Bool
      → Option Text
      → Option (Literal V → Bool)
      → Option (Literal V → Bool)
      → List (Literal V)
      → List (Literal V)
      → NodesEdges
      → NodesEdges
  unfolding body_edges
  head_edges head_to_body theory select_head select_body body [] s = s
  head_edges head_to_body theory select_head select_body body (h ∷ hs) s =
      let head_table = global_tablename theory h.table in
      let noted : NodesEdges = record s {
        modals = note_modal h.table.modal head_table s.modals;
        nodes = insert Text-discrete head_table s.nodes;
      } in
      head_edges head_to_body theory select_head select_body body hs (
        if skipped select_head h
        then s
        else body_edges head_to_body theory select_body head_table body noted)

  -- `none` is an AttributeError: a rule has no table, and a negated literal no heads
  unfoldable pub formula_nodes_edges :
      Bool
      → Formula V
      → Option Text
      → Bool
      → Option (Literal V → Bool)
      → Option (Literal V → Bool)
      → Option NodesEdges
  unfolding head_edges is_atom_rule
  formula_nodes_edges head_to_body (literal l) theory include_atoms select_head select_body =
      let table = global_tablename theory l.table in
      if is_atom l
      then (if include_atoms
          then some (record {
            nodes = table ∷ [];
            edges = [];
            modals = note_modal l.table.modal table [];
          })
          else some (record { nodes = []; edges = []; modals = [] }))
      else none
  formula_nodes_edges head_to_body (rule r) theory include_atoms select_head select_body =
      let nothing : NodesEdges = record { nodes = []; edges = []; modals = [] } in
      if is_atom_rule r
      then (if include_atoms then none else some nothing)
      else some (head_edges head_to_body theory select_head select_body r.body (heads r) nothing)

module _ (dec_data : Discrete (EdgeData Text Bool)) (dec_edge : Discrete (Edge Text Bool)) where
  -- the loops of an insertion
  unfoldable pub insert_nodes : List Text → BagGraph Text Bool → BagGraph Text Bool
  insert_nodes [] b = b
  insert_nodes (n ∷ ns) b = insert_nodes ns (BagGraph.add_node Text-discrete dec_data dec_edge n b)

  unfoldable pub insert_edges : List (Edge Text Bool) → BagGraph Text Bool → BagGraph Text Bool
  insert_edges [] b = b
  insert_edges ((v, w, label) ∷ es) b =
      insert_edges es (BagGraph.add_edge Text-discrete dec_data dec_edge v w label b)

  -- the loops of a deletion; `none` is an AssertionError
  unfoldable pub delete_nodes : List Text → BagGraph Text Bool → Option (BagGraph Text Bool)
  delete_nodes [] b = some b
  delete_nodes (n ∷ ns) b = elim (BagGraph.delete_node Text-discrete dec_data dec_edge n b) [
    | none ↦ none
    | some b' ↦ delete_nodes ns b'
  ]

  unfoldable pub delete_edges :
      List (Edge Text Bool) → BagGraph Text Bool → Option (BagGraph Text Bool)
  delete_edges [] b = some b
  delete_edges ((v, w, label) ∷ es) b =
      elim (BagGraph.delete_edge Text-discrete dec_data dec_edge v w label b) [
        | none ↦ none
        | some b' ↦ delete_edges es b'
      ]

  abbrev pub node_changes : Bool → List Text → List GraphChange
  node_changes is_insert [] = []
  node_changes is_insert (n ∷ ns) = node_change n is_insert ∷ node_changes is_insert ns

  abbrev pub edge_changes : Bool → List (Edge Text Bool) → List GraphChange
  edge_changes is_insert [] = []
  edge_changes is_insert ((v, w, label) ∷ es) =
      edge_change v w label is_insert ∷ edge_changes is_insert es

  -- `changes` of one event
  abbrev pub event_changes : Bool → NodesEdges → List GraphChange
  event_changes is_insert s =
      node_changes is_insert s.nodes
      ++ (edge_changes is_insert s.edges ++ modal_change s.modals is_insert ∷ [])

  -- the graph after one event
  unfoldable pub apply_event : Bool → NodesEdges → RuleDependencyGraph → Option RuleDependencyGraph
  unfolding insert_nodes insert_edges delete_nodes delete_edges isub iadd
  apply_event true s g = some (record g {
    bag = insert_edges s.edges (insert_nodes s.nodes g.bag);
    modal_index = iadd g.modal_index s.modals;
  })
  apply_event false s g = elim (delete_nodes s.nodes g.bag) [
    | none ↦ none
    | some b ↦ elim (delete_edges s.edges b) [
      | none ↦ none
      | some b' ↦ some (record g { bag = b'; modal_index = isub g.modal_index s.modals })
    ]
  ]

  unfoldable pub formula_update :
      {V : Type 0}
      → Bool
      → Option (Literal V → Bool)
      → Option (Literal V → Bool)
      → List (FormulaEvent V)
      → RuleDependencyGraph
      → Option (RuleDependencyGraph × List GraphChange)
  unfolding formula_nodes_edges apply_event
  formula_update include_atoms select_head select_body [] g = some (g, [])
  formula_update include_atoms select_head select_body (event ∷ events) g =
      elim (formula_nodes_edges dec_edge g.head_to_body event.formula event.target include_atoms
        select_head select_body) [
          | none ↦ none
          | some s ↦ elim (apply_event event.is_insert s g) [
            | none ↦ none
            | some g' ↦ elim (formula_update include_atoms select_head select_body events g') [
              | none ↦ none
              | some rest ↦ some (rest.0, event_changes event.is_insert s ++ rest.1)
            ]
          ]
        ]

  unfoldable pub undo_change : GraphChange → RuleDependencyGraph → Option RuleDependencyGraph
  unfolding isub iadd
  undo_change (node_change n true) g =
      elim (BagGraph.delete_node Text-discrete dec_data dec_edge n g.bag) [
        | none ↦ none
        | some b ↦ some (record g { bag = b })
      ]
  undo_change (node_change n false) g =
      some (record g { bag = BagGraph.add_node Text-discrete dec_data dec_edge n g.bag })
  undo_change (edge_change v w label true) g =
      elim (BagGraph.delete_edge Text-discrete dec_data dec_edge v w label g.bag) [
        | none ↦ none
        | some b ↦ some (record g { bag = b })
      ]
  undo_change (edge_change v w label false) g =
      some (record g { bag = BagGraph.add_edge Text-discrete dec_data dec_edge v w label g.bag })
  undo_change (modal_change modals true) g =
      some (record g { modal_index = isub g.modal_index modals })
  undo_change (modal_change modals false) g =
      some (record g { modal_index = iadd g.modal_index modals })

  unfoldable pub undo_changes : List GraphChange → RuleDependencyGraph → Option RuleDependencyGraph
  unfolding undo_change
  undo_changes [] g = some g
  undo_changes (change ∷ changes) g = elim (undo_change change g) [
    | none ↦ none
    | some g' ↦ undo_changes changes g'
  ]
