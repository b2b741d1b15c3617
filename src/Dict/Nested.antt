-- ===== src/Dict/Nested.antt =====
-- Python's dict of dicts, such as `self.msg_queues[publisher][table]`.
use congress.Prelude.{◌≡◌, ite, Option, none, some, [], arith, get_or, Option-cases, inl, inr}
use congress.Dict.Base.{Dict, get, put, remove, get-nil, get-put, get-remove}

module _ {ℓ} {K L V : Type ℓ} (dec : Discrete K) (dec' : Discrete L) where
  -- d[p][t] where both are there
  unfoldable pub get2 : Dict K (Dict L V) → K → L → Option V
  get2 d p t = elim (get dec d p) [ none ↦ none | some e ↦ get dec' e t ]

  -- if p not in d: d[p] = {}
  -- d[p][t] = v
  unfoldable pub put2 : Dict K (Dict L V) → K → L → V → Dict K (Dict L V)
  put2 d p t v = put dec d p (put dec' (get_or (get dec d p) []) t v)

  -- if p in d and t in d[p]: del d[p][t]
  unfoldable pub remove2 : Dict K (Dict L V) → K → L → Dict K (Dict L V)
  remove2 d p t = elim (get dec d p) [ none ↦ d | some e ↦ put dec d p (remove dec' e t) ]

  pub get2-put2 :
      (d : Dict K (Dict L V)) (p : K) (t : L) (q : K) (u : L) (v : V)
      → get2 (put2 d p t v) q u ≡ ite (dec p q) (ite (dec' t u) (some v) (get2 d q u)) (get2 d q u)
  unfolding get2 put2
  get2-put2 d p t q u v = ground (
    arith,
    get-put dec d p q (put dec' (get_or (get dec d p) []) t v),
    get-put dec' (get_or (get dec d p) []) t u v,
    get-nil {V = V} dec' u,
  )

  pub get2-remove2 :
      (d : Dict K (Dict L V)) (p : K) (t : L) (q : K) (u : L)
      → get2 (remove2 d p t) q u ≡ ite (dec p q) (ite (dec' t u) none (get2 d q u)) (get2 d q u)
  unfolding get2 remove2
  get2-remove2 d p t q u = elim (Option-cases (get dec d p)) [
    | inl e ↦ ground arith
    | inr (x, e) ↦
        rw (e, remove2) (ground (arith, get-put dec d p q (remove dec' x t), get-remove dec' x t u))
  ]
