-- ===== src/Datalog/Graph/Stratify.antt =====
-- `stratification` of utility.py ends, and finds the least stratification or there is none.
use congress.Prelude.{
  ℕ, suc, ◌*◌, ◌≤◌, ◌<◌, ◌≡◌, refl, sym, ◌⊎◌, inl, inr, Bool, true, Option, none, some, List, [],
  ◌∷◌, length, is_some, arith, Has, All, ◌↔◌, Bool-cases,
}
use congress.Dict.Base.{Dict, get}
use congress.Datalog.Graph.{
  EdgeData, demand, Graph, Outcome, stratified, unstratifiable, failed, out_of_fuel, initial,
  stratification,
}
use congress.Datalog.Graph.Rounds.{Full, Met, MetAll, Closed}
use congress.Datalog.Graph.Loop.{stratum, Result, stratify-Result}

module _ {N : Type 0} (dec : Discrete N) where
  initial_cases :
      (vs : List N) (v : N)
      → Has v vs × (get dec (initial vs) v ≡ some 1)
        ⊎ (¬ Has v vs) × (get dec (initial vs) v ≡ none)
  unfolding initial get
  initial_cases [] v = inr (λ m. m, refl)
  initial_cases (x ∷ vs) v = elim (dec x v) [
    | yes p ↦ inl (inl (sym p), ground arith)
    | no p ↦ elim (initial_cases vs v) [
      | inl (m, e) ↦ inl (inr m, ground arith)
      | inr (m, e) ↦ inr (λ h. elim h [ inl q ↦ p (sym q) | inr q ↦ m q ], ground arith)
    ]
  ]

  Has-pos : (vs : List N) (v : N) → Has v vs → 1 ≤ length vs
  Has-pos [] v m = absurd m
  Has-pos (x ∷ vs) v m = omega arith

module _ {N L : Type 0} (dec : Discrete N) (labels : Option L → Bool) (g : Graph N L) where
  -- the source is as high as the target, and higher where the label changes the stratum
  abbrev pub Respects : (N → ℕ) → N → EdgeData N L → Type 0
  Respects t v e = (t e.0 ≤ t v) × (labels e.1 ≡ true → t e.0 < t v)

  abbrev pub RespectsAll : (N → ℕ) → Dict N (List (EdgeData N L)) → Type 0
  RespectsAll t [] = Unit
  RespectsAll t ((v, es) ∷ edges) = All (Respects t v) es × RespectsAll t edges

  Respects-iff :
      (t : N → ℕ) (v : N) (e : EdgeData N L) → Respects t v e ↔ Met dec labels g.nodes t v e
  unfolding demand
  Respects-iff t v (w, label) = elim (Bool-cases (labels label)) [
    | inl b ↦ ground arith
    | inr b ↦ ground arith
  ]

  All-iff :
      (P Q : EdgeData N L → Type 0) (es : List (EdgeData N L))
      → ((e : EdgeData N L) → P e → Q e)
      → All P es
      → All Q es
  All-iff P Q [] h k = tt
  All-iff P Q (e ∷ es) h k = (h e k.0, All-iff P Q es h k.1)

  MetAll-of :
      (t : N → ℕ) (edges : Dict N (List (EdgeData N L)))
      → RespectsAll t edges
      → MetAll dec labels g.nodes t edges
  MetAll-of t [] h = tt
  MetAll-of t ((v, es) ∷ edges) h =
      (All-iff _ _ es (λ e. (Respects-iff t v e).0) h.0, MetAll-of t edges h.1)

  RespectsAll-of :
      (t : N → ℕ) (edges : Dict N (List (EdgeData N L)))
      → MetAll dec labels g.nodes t edges
      → RespectsAll t edges
  RespectsAll-of t [] h = tt
  RespectsAll-of t ((v, es) ∷ edges) h =
      (All-iff _ _ es (λ e. (Respects-iff t v e).1) h.0, RespectsAll-of t edges h.1)

  -- An assignment of strata to the nodes: each at least 1, and every edge is respected.
  pub record IsStratification (t : N → ℕ) : Type 0 where
    pub positive : (v : N) → Has v g.nodes → 1 ≤ t v
    pub met : RespectsAll t g.edges

  -- what the result of `stratification` means
  abbrev pub Means : Outcome N → Type 0
  Means (stratified s) =
      ((v : N) → Has v g.nodes → is_some (get dec s v) ≡ true)
      × IsStratification (stratum dec labels g s)
      × ((v : N) → stratum dec labels g s v ≤ length g.nodes)
      × ((t : N → ℕ)
          → IsStratification t
          → (v : N) → Has v g.nodes
          → stratum dec labels g s v ≤ t v)
  Means unstratifiable =
      (t : N → ℕ) → IsStratification t → (v : N) × Has v g.nodes × (length g.nodes < t v)
  Means failed = ⊥
  Means out_of_fuel = ⊥

  above_initial :
      (t : N → ℕ) → IsStratification t → (v : N) → stratum dec labels g (initial g.nodes) v ≤ t v
  above_initial t h v = elim (initial_cases dec g.nodes v) [
    | inl (m, e) ↦ let p = h.positive v m in ground arith
    | inr (m, e) ↦ ground arith
  ]

  one_initial : (v : N) → Has v g.nodes → stratum dec labels g (initial g.nodes) v ≡ 1
  one_initial v m = elim (initial_cases dec g.nodes v) [
    | inl (_, e) ↦ ground arith
    | inr (n, e) ↦ absurd (n m)
  ]

  initial-Full : Full dec labels g.nodes (initial g.nodes)
  initial-Full v m = elim (initial_cases dec g.nodes v) [
    | inl (_, e) ↦ ground arith
    | inr (n, e) ↦ absurd (n m)
  ]

  initial-le : (v : N) → stratum dec labels g (initial g.nodes) v ≤ length g.nodes
  initial-le v = elim (initial_cases dec g.nodes v) [
    | inl (m, e) ↦ let p = Has-pos dec g.nodes v m in ground arith
    | inr (m, e) ↦ ground arith
  ]

  Means-Result : (r : Outcome N) → Result dec labels g (initial g.nodes) r → Means r
  Means-Result (stratified s) h = (
    h.0,
    record {
      positive = λ v m. omega (arith, one_initial v m, h.1 v);
      met = RespectsAll-of (stratum dec labels g s) g.edges h.2;
    },
    h.4,
    λ t p v m. h.3 t (MetAll-of t g.edges p.met) (above_initial t p) v,
  )
  Means-Result unstratifiable h = λ t p. h t (MetAll-of t g.edges p.met) (above_initial t p)
  Means-Result failed h = h
  Means-Result out_of_fuel h = h

  -- On a graph whose edges lead from nodes to nodes `stratification` ends without a KeyError.
  -- Where it returns strata, every node has one, of at least 1 and at most the number of nodes,
  -- the source of every edge is as high as its target, and higher where the label is one that
  -- changes the stratum, and no other such assignment puts any node lower. Where it returns
  -- None, every such assignment puts some node above the number of nodes.
  pub stratification-Means : Closed dec labels g.nodes g.edges → Means (stratification dec labels g)
  unfolding stratification
  stratification-Means closed = Means-Result _ (
      stratify-Result dec labels g (suc (length g.nodes * length g.nodes)) (initial g.nodes)
        initial-Full closed initial-le (omega arith))
