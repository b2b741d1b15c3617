-- ===== src/Datalog/Graph/Loop.antt =====
-- The loop of `stratification` of utility.py ends; it raises strata as far as the edges force it.
use congress.Prelude.{
  ℕ, zero, suc, ◌+◌, ◌*◌, ◌≤◌, ◌<◌, refl, sym, subst, inl, inr, Bool, true, false, Option, List, [],
  ◌∷◌, length, get_or, if◌then◌else◌, arith, Has,
}
use congress.Dict.Base.{Dict, get}
use congress.Datalog.Graph.{
  Graph, Round, running, too_high, key_error, raise_all, Outcome, stratified, unstratifiable,
  failed, out_of_fuel, stratify,
}
use congress.Datalog.Graph.Rounds.{Full, MetAll, Closed, Progress, TooHigh, Good, raise_all-Good}

module _ {N : Type 0} where
  pub total : (N → ℕ) → List N → ℕ
  total f [] = 0
  total f (v ∷ vs) = f v + total f vs

  total_mono : (f g : N → ℕ) (vs : List N) → ((v : N) → f v ≤ g v) → total f vs ≤ total g vs
  unfolding total
  total_mono f g [] h = omega arith
  total_mono f g (v ∷ vs) h = omega (arith, h v, total_mono f g vs h)

  total_lt :
      (f g : N → ℕ) (vs : List N) (v : N)
      → ((x : N) → f x ≤ g x)
      → Has v vs
      → f v < g v
      → total f vs < total g vs
  unfolding total
  total_lt f g [] v h m lt = absurd m
  total_lt f g (x ∷ vs) v h (inl e) lt =
      omega (arith, subst (λ y. f y < g y) e lt, total_mono f g vs h)
  total_lt f g (x ∷ vs) v h (inr m) lt = omega (arith, h x, total_lt f g vs v h m lt)

  total-le : (f : N → ℕ) (n : ℕ) (vs : List N) → ((v : N) → f v ≤ n) → total f vs ≤ length vs * n
  unfolding total
  total-le f n [] h = omega arith
  total-le f n (v ∷ vs) h = grind (arith, h v, total-le f n vs h)

module _ {N L : Type 0} (dec : Discrete N) (labels : Option L → Bool) (g : Graph N L) where
  abbrev pub stratum : Dict N ℕ → N → ℕ
  stratum s v = get_or (get dec s v) 0

  -- what a run of the loop from the strata `s` gives
  abbrev pub Result : Dict N ℕ → Outcome N → Type 0
  Result s (stratified s') =
      Full dec labels g.nodes s'
      × ((v : N) → stratum s v ≤ stratum s' v)
      × MetAll dec labels g.nodes (stratum s') g.edges
      × ((t : N → ℕ)
          → MetAll dec labels g.nodes t g.edges
          → ((v : N) → stratum s v ≤ t v)
          → (v : N) → stratum s' v ≤ t v)
      × ((v : N) → stratum s' v ≤ length g.nodes)
  Result s unstratifiable =
      TooHigh dec labels g.nodes (length g.nodes) (λ t. MetAll dec labels g.nodes t g.edges) s
  Result s failed = ⊥
  Result s out_of_fuel = ⊥

  Result-after :
      (s s' : Dict N ℕ) (c : Bool) (r : Outcome N)
      → Progress dec labels g.nodes
          (length g.nodes)
          (λ t. MetAll dec labels g.nodes t g.edges)
          s
          s'
          false
          c
      → Result s' r
      → Result s r
  Result-after s s' c (stratified s'') h k =
      (k.0, λ v. omega (arith, h.rises v, k.1 v), k.2, λ t p b. k.3 t p (h.below t p b), k.4)
  Result-after s s' c unstratifiable h k = λ t p b. k t p (h.below t p b)
  Result-after s s' c failed h k = k
  Result-after s s' c out_of_fuel h k = k

  pub stratify-Result :
      (fuel : ℕ) (s : Dict N ℕ)
      → Full dec labels g.nodes s
      → Closed dec labels g.nodes g.edges
      → ((v : N) → stratum s v ≤ length g.nodes)
      → length g.nodes * length g.nodes < fuel + total (stratum s) g.nodes
      → Result s (stratify dec labels fuel g s)
  unfolding stratify
  stratify-Result zero s full closed top fit =
      absurd (omega (arith, total-le (stratum s) (length g.nodes) g.nodes top))
  stratify-Result (suc fuel) s full closed top fit =
      round (raise_all dec labels (length g.nodes) g.edges s false)
        (raise_all-Good dec labels g.nodes (length g.nodes) g.edges s false full closed)
        (λ s' h gr.
          stratify-Result fuel s' h.full closed (h.capped top) (more s s' fuel fit h.rises gr))
    where
      more :
          (s s' : Dict N ℕ) (fuel : ℕ)
          → length g.nodes * length g.nodes < suc fuel + total (stratum s) g.nodes
          → ((v : N) → stratum s v ≤ stratum s' v)
          → (v : N) × Has v g.nodes × (stratum s v < stratum s' v)
          → length g.nodes * length g.nodes < fuel + total (stratum s') g.nodes
      more s s' fuel fit up (v, m, lt) =
          omega (arith, total_lt (stratum s) (stratum s') g.nodes v up m lt)

      round :
          (r : Round N)
          → Good dec labels g.nodes
              (length g.nodes)
              (λ t. MetAll dec labels g.nodes t g.edges)
              s
              false
              r
          → ((s' : Dict N ℕ)
              → Progress dec labels g.nodes
                  (length g.nodes)
                  (λ t. MetAll dec labels g.nodes t g.edges)
                  s
                  s'
                  false
                  true
              → (v : N) × Has v g.nodes × (stratum s v < stratum s' v)
              → Result s' (stratify dec labels fuel g s'))
          → Result s (elim r [
            | running s' c ↦ if c then stratify dec labels fuel g s' else stratified s'
            | too_high ↦ unstratifiable
            | key_error ↦ failed
          ])
      round too_high h again = h
      round key_error h again = h
      round (running s' true) h again = elim (h.grows refl) [
        | inl e ↦ absurd (cc)
        | inr w ↦ Result-after s s' true (stratify dec labels fuel g s') h (again s' h w)
      ]
      round (running s' false) h again =
          let (same, met) = h.quiet refl in
          (
            h.full,
            h.rises,
            subst (λ f. MetAll dec labels g.nodes f g.edges) (sym same) met,
            h.below,
            h.capped top,
          )
