-- ===== src/Tests/Graphs.antt =====
-- `roots` and the inverted graph of congress/datalog/utility.py at concrete inputs.
use mathlib.Core.HLevel.{×_discrete}
use congress.Prelude.{
  ◌≡◌, ◌↔◌, refl, ap, String, String-discrete, ℕ, ℕ_discrete, true, false, Option, none, some, [],
  ◌∷◌,
}
use congress.Sets.{member}
use congress.Dict.Base.{get, Distinct}
use congress.Datalog.Graph.{EdgeData, Graph, edge_in}
use congress.Datalog.Graph.Inversion.{roots, inverted_edge_graph}
use congress.Datalog.Graph.Roots.{member-roots}
use congress.Datalog.Graph.Inverted.{edge_in-inverted}

label_dec : Discrete (Option ℕ)
label_dec none none = yes refl
label_dec none (some y) = no (λ e. cc)
label_dec (some x) none = no (λ e. cc)
label_dec (some x) (some y) = elim (ℕ_discrete x y) [
  | yes p ↦ yes (ap some p)
  | no p ↦ no (λ e. p (cc))
]

pub data_dec : Discrete (EdgeData String ℕ)
data_dec = ×_discrete String-discrete label_dec

-- p leads to q and r, q to r
abbrev dependencies : Graph String ℕ
dependencies = record {
  nodes = "p" ∷ "q" ∷ "r" ∷ [];
  edges = ("p", ("q", none) ∷ ("r", some 1) ∷ []) ∷ ("q", ("r", none) ∷ []) ∷ [];
}

edges_Distinct : Distinct String-discrete dependencies.edges
unfolding get String-discrete
edges_Distinct = (refl, (refl, tt))

member-roots_example :
    (member String-discrete "p" (roots String-discrete data_dec dependencies) ≡ true) ↔ (
      (member String-discrete "p" dependencies.nodes ≡ true)
      × ((v : String) (label : Option ℕ)
          → edge_in String-discrete data_dec v "p" label dependencies ≡ false))
member-roots_example = member-roots String-discrete data_dec dependencies "p" edges_Distinct

edge_in-inverted_example :
    (edge_in String-discrete data_dec "r" "p" none
        (inverted_edge_graph String-discrete data_dec dependencies)
      ≡ true)
    ↔ (((label : Option ℕ) × (edge_in String-discrete data_dec "p" "r" label dependencies ≡ true))
        × (◌≡◌ {A = Option ℕ} none none))
edge_in-inverted_example =
    edge_in-inverted String-discrete data_dec dependencies "r" "p" none edges_Distinct
