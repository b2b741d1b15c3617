-- ===== src/Datalog/Graph/Rounds.antt =====
-- One round of `stratification` of utility.py: strata only rise, never above what a valid
-- stratification gives, and a round without a change leaves every demand met.
use congress.Prelude.{
  ℕ, ◌≤◌, ◌<◌, ◌≡◌, refl, ◌∙◌, sym, subst, fun_ext, ◌⊎◌, inl, inr, Bool, true, false, ◌||◌, not,
  Option, List, [], ◌∷◌, max, ltb, ◌==◌, get_or, is_some, arith, Has, All, Bool-cases, Option-cases,
}
use congress.Dict.Base.{Dict, get, put, get-put}
use congress.Datalog.Graph.{
  EdgeData, Round, running, too_high, key_error, demand, raise_edge, raise_edges, raise_all,
}

demand_mono :
    {L : Type 0} (labels : Option L → Bool) (label : Option L) (x y : ℕ)
    → x ≤ y
    → demand labels label x ≤ demand labels label y
unfolding demand
demand_mono labels label x y h = ground arith

module _ {N L : Type 0} (dec : Discrete N) (labels : Option L → Bool) (nodes : List N) where
  abbrev pub value : Dict N ℕ → N → ℕ
  value s v = get_or (get dec s v) 0

  -- every node has a stratum
  abbrev pub Full : Dict N ℕ → Type 0
  Full s = (v : N) → Has v nodes → is_some (get dec s v) ≡ true

  -- the edge's demand is met by the strata `t`
  abbrev pub Met : (N → ℕ) → N → EdgeData N L → Type 0
  Met t v e = demand labels e.1 (t e.0) ≤ t v

  abbrev pub MetAll : (N → ℕ) → Dict N (List (EdgeData N L)) → Type 0
  MetAll t [] = Unit
  MetAll t ((v, es) ∷ edges) = All (Met t v) es × MetAll t edges

  -- every edge leads from a node to a node
  abbrev pub Targets : List (EdgeData N L) → Type 0
  Targets = All (λ e. Has e.0 nodes)

  abbrev pub Closed : Dict N (List (EdgeData N L)) → Type 0
  Closed [] = Unit
  Closed ((v, es) ∷ edges) = Has v nodes × Targets es × Closed edges

  -- What some steps of the round do that did not stop; `P` says that strata meet the demands of
  -- the edges that the steps went through.
  pub record Progress (size : ℕ) (P : (N → ℕ) → Type 0) (s s' : Dict N ℕ) (c c' : Bool)
      : Type 0 where
    pub full : Full s'
    pub rises : (v : N) → value s v ≤ value s' v
    pub kept : c ≡ true → c' ≡ true
    pub quiet : c' ≡ false → (value s' ≡ value s) × P (value s)
    pub grows : c' ≡ true → (c ≡ true) ⊎ ((v : N) × Has v nodes × (value s v < value s' v))
    pub below : (t : N → ℕ) → P t → ((v : N) → value s v ≤ t v) → (v : N) → value s' v ≤ t v
    pub capped : ((v : N) → value s v ≤ size) → (v : N) → value s' v ≤ size

  -- `P` and strata from `s` on force some node above the number of nodes.
  abbrev pub TooHigh : ℕ → ((N → ℕ) → Type 0) → Dict N ℕ → Type 0
  TooHigh size P s =
      (t : N → ℕ) → P t → ((v : N) → value s v ≤ t v) → (v : N) × Has v nodes × (size < t v)

  abbrev pub Good : ℕ → ((N → ℕ) → Type 0) → Dict N ℕ → Bool → Round N → Type 0
  Good size P s c (running s' c') = Progress size P s s' c c'
  Good size P s c too_high = TooHigh size P s
  Good size P s c key_error = ⊥

  module _ (size : ℕ) where
    Progress-refl : (s : Dict N ℕ) (c : Bool) → Full s → Progress size (λ t. Unit) s s c c
    Progress-refl s c h = record {
      full = h;
      rises = λ v. omega arith;
      kept = λ e. e;
      quiet = λ e. (refl, tt);
      grows = inl;
      below = λ t p b. b;
      capped = λ b. b;
    }

    Good-then :
        (P Q : (N → ℕ) → Type 0) (s s₁ : Dict N ℕ) (c c₁ : Bool) (r : Round N)
        → Progress size P s s₁ c c₁
        → Good size Q s₁ c₁ r
        → Good size (λ t. P t × Q t) s c r
    Good-then P Q s s₁ c c₁ too_high h k = λ t p b. k t p.1 (h.below t p.0 b)
    Good-then P Q s s₁ c c₁ key_error h k = k
    Good-then P Q s s₁ c c₁ (running s₂ c₂) h k = record {
      full = k.full;
      rises = λ v. omega (arith, h.rises v, k.rises v);
      kept = λ e. k.kept (h.kept e);
      quiet = λ e.
          let (same, q) = k.quiet e in
          let (same₁, p) = h.quiet (first e) in (same ∙ same₁, (p, subst Q same₁ q));
      grows = λ e. elim (k.grows e) [
        | inl e₁ ↦ elim (h.grows e₁) [
          | inl e₀ ↦ inl e₀
          | inr (v, m, lt) ↦ inr (v, m, omega (arith, k.rises v))
        ]
        | inr (v, m, lt) ↦ inr (v, m, omega (arith, h.rises v))
      ];
      below = λ t p b. k.below t p.1 (h.below t p.0 b);
      capped = λ b. k.capped (h.capped b);
    }
      where
        first : c₂ ≡ false → c₁ ≡ false
        first e = elim (Bool-cases c₁) [ inl f ↦ absurd (cc (k.kept f)) | inr f ↦ f ]

    -- the step without the test of the stratum
    record Raised (v : N) (e : EdgeData N L) (s s' : Dict N ℕ) (ch : Bool) : Type 0 where
      full : Full s'
      at_node : value s' v ≡ max (value s v) (demand labels e.1 (value s e.0))
      others : (x : N) → (x ≡ v) ⊎ (value s' x ≡ value s x)
      changed : ch ≡ not (value s v == value s' v)

    raise_edge-Raised :
        (v w : N) (label : Option L) (s : Dict N ℕ)
        → Full s
        → Has v nodes
        → Has w nodes
        → (s' : Dict N ℕ) × (ch : Bool) × (raise_edge dec labels v (w, label) s ≡ running s' ch)
          × Raised v (w, label) s s' ch
    unfolding raise_edge
    raise_edge-Raised v w label s h hv hw = elim (Option-cases (get dec s v)) [
      | inl e ↦ absurd (cc (h v hv))
      | inr (old, e) ↦ elim (Option-cases (get dec s w)) [
        | inl f ↦ absurd (cc (h w hw))
        | inr (x, f) ↦
            let new = max old (demand labels label x) in
            (
              put dec s v new,
              not (old == new),
              ground arith,
              record {
                full = λ y m. ground (arith, get-put dec s v y new, h y m);
                at_node = ground (arith, get-put dec s v v new);
                others = λ y. elim (dec v y) [
                  | yes p ↦ inl (sym p)
                  | no p ↦ inr (ground (arith, get-put dec s v y new))
                ];
                changed = ground (arith, get-put dec s v v new);
              },
            )
      ]
    ]

    module _ (v w : N) (label : Option L) (s s' : Dict N ℕ) (ch : Bool)
        (r : Raised v (w, label) s s' ch) where
      rises_at : (x : N) → value s x ≤ value s' x
      rises_at x = elim (r.others x) [
        | inl e ↦ rw e (omega (arith, r.at_node))
        | inr e ↦ omega arith
      ]

      quiet_at : ch ≡ false → (value s' ≡ value s) × (demand labels label (value s w) ≤ value s v)
      quiet_at e =
          let same : value s' v ≡ value s v = ground (arith, r.changed) in
          (
            fun_ext (λ x. elim (r.others x) [ inl p ↦ rw p same | inr p ↦ p ]),
            omega (arith, r.at_node),
          )

      grows_at : ch ≡ true → value s v < value s' v
      grows_at e = ground (arith, r.changed, r.at_node)

      below_at :
          (t : N → ℕ)
          → demand labels label (t w) ≤ t v
          → ((x : N) → value s x ≤ t x)
          → (x : N) → value s' x ≤ t x
      below_at t met b x = elim (r.others x) [
        | inl e ↦
            rw e (omega (arith, r.at_node, b v, demand_mono labels label (value s w) (t w) (b w)))
        | inr e ↦ omega (arith, b x)
      ]

      Progress-step :
          (c : Bool)
          → Has v nodes
          → value s' v ≤ size
          → Progress size (λ t. Met t v (w, label)) s s' c (c || ch)
      Progress-step c hv small = record {
        full = r.full;
        rises = rises_at;
        kept = λ e. ground arith;
        quiet = λ e. quiet_at (ground arith);
        grows = λ e. elim (Bool-cases c) [
          | inl p ↦ inl p
          | inr p ↦ inr (v, hv, grows_at (ground arith))
        ];
        below = below_at;
        capped = λ b x. elim (r.others x) [ inl e ↦ rw e small | inr e ↦ omega (arith, b x) ];
      }

    Good-elim :
        (P Q : (N → ℕ) → Type 0) (s : Dict N ℕ) (c : Bool) (r : Round N)
        (k : Dict N ℕ → Bool → Round N)
        → Good size P s c r
        → ((s' : Dict N ℕ) (c' : Bool) → Full s' → Good size Q s' c' (k s' c'))
        → Good size
            (λ t. P t × Q t)
            s
            c
            (elim r [ running s' c' ↦ k s' c' | too_high ↦ too_high | key_error ↦ key_error ])
    Good-elim P Q s c too_high k h f = λ t p b. h t p.0 b
    Good-elim P Q s c key_error k h f = h
    Good-elim P Q s c (running s' c') k h f = Good-then P Q s s' c c' _ h (f s' c' h.full)

    raise_edges-Good :
        (v : N) (es : List (EdgeData N L)) (s : Dict N ℕ) (c : Bool)
        → Full s
        → Has v nodes
        → Targets es
        → Good size (λ t. All (Met t v) es) s c (raise_edges dec labels size v es s c)
    unfolding raise_edges
    raise_edges-Good v [] s c h hv hes = Progress-refl s c h
    raise_edges-Good v ((w, label) ∷ es) s c h hv hes =
        let (s', ch, e, r) = raise_edge-Raised v w label s h hv hes.0 in
        simp (e, raise_edges)
          (elim (Bool-cases (ltb size (value s' v))) [
            | inl high ↦
                simp high (λ t p b.
                  let low = below_at v w label s s' ch r t p.0 b v in (v, hv, ground arith))
            | inr low ↦ simp low (
                Good-then (λ t. Met t v (w, label)) (λ t. All (Met t v) es) s s' c (c || ch) _
                  (Progress-step v w label s s' ch r c hv (ground arith))
                  (raise_edges-Good v es s' (c || ch) r.full hv hes.1))
          ])

    pub raise_all-Good :
        (edges : Dict N (List (EdgeData N L))) (s : Dict N ℕ) (c : Bool)
        → Full s
        → Closed edges
        → Good size (λ t. MetAll t edges) s c (raise_all dec labels size edges s c)
    unfolding raise_all
    raise_all-Good [] s c h k = Progress-refl s c h
    raise_all-Good ((v, es) ∷ edges) s c h k =
        Good-elim (λ t. All (Met t v) es) (λ t. MetAll t edges) s c
          (raise_edges dec labels size v es s c) (raise_all dec labels size edges)
          (raise_edges-Good v es s c h k.0 k.1) (λ s' c' f. raise_all-Good edges s' c' f k.2)
