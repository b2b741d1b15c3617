-- ===== src/Datalog/Reorder/Correct.antt =====
-- `reorder_for_safety` of compile.py finds a safe order if there is one, and keeps a safe one.
use congress.Prelude.{
  ◌≡◌, ◌≢◌, refl, sym, ap, subst, ◌∙◌, inl, inr, Text, Text-discrete, true, false, Option, none,
  some, List, [], ◌∷◌, ◌++◌, length, arith, get_or, Bool-cases, Option-cases, if_pos,
}
use mathlib.Core.List.{append-nil, append_assoc}
use congress.Sets.{
  member, minus, subset, subset_iff, union, count, count-append, member-count, member-append,
  member-minus, member-union,
}
use congress.Dict.Base.{get-put}
use congress.Datalog.Reorder.{
  Reordering, is_empty, make_safe, is_ready, release, make_safe_plus, postpone, place, place_all,
  reorder,
}
use congress.Datalog.Reorder.State.{Within, needs, bound, IsSafe, Within-ready}
use congress.Datalog.Reorder.Steps.{Settled, make_safe_plus-Settled}

is_empty-eq {ℓ} : {A : Type ℓ} (xs : List A) → is_empty xs ≡ true → xs ≡ []
is_empty-eq [] h = refl
is_empty-eq (x ∷ xs) h = cc

minus-Within : (xs ys : List Text) → is_empty (minus Text-discrete xs ys) ≡ true → Within xs ys
minus-Within xs ys h x m =
    let none_left : member Text-discrete x (minus Text-discrete xs ys) ≡ false =
      rw (is_empty-eq _ h) (unfold member in refl) in
    ground (arith, member-minus Text-discrete x xs ys)

minus-not_subset :
    (xs ys : List Text)
    → is_empty (minus Text-discrete xs ys) ≡ false
    → subset Text-discrete (minus Text-discrete xs ys) ys ≡ false
minus-not_subset xs ys h = elim (Bool-cases (subset Text-discrete (minus Text-discrete xs ys) ys)) [
  | inl e ↦ absurd (outside (minus Text-discrete xs ys) h refl e)
  | inr e ↦ e
]
  where
    outside :
        (zs : List Text)
        → is_empty zs ≡ false
        → zs ≡ minus Text-discrete xs ys
        → subset Text-discrete (minus Text-discrete xs ys) ys ≡ true
        → ⊥
    outside [] n same e = cc
    outside (z ∷ zs) n same e =
        let there : member Text-discrete z (minus Text-discrete xs ys) ≡ true =
          rw (← same)
            (unfold member in if_pos (Text-discrete z z) refl true (member Text-discrete z zs)) in
        let held = (subset_iff Text-discrete (minus Text-discrete xs ys) ys).0 e z there in
        absurd (ground (arith, member-minus Text-discrete z xs ys))

Within-minus : (xs ys : List Text) → Within xs ys → is_empty (minus Text-discrete xs ys) ≡ true
Within-minus xs ys w = elim (Bool-cases (is_empty (minus Text-discrete xs ys))) [
  | inl e ↦ e
  | inr e ↦
      let all =
        (subset_iff Text-discrete (minus Text-discrete xs ys) ys).1
          (λ x m. w x (ground (arith, member-minus Text-discrete x xs ys))) in
      let some_out = minus-not_subset xs ys e in absurd (cc)
]

module _ {L : Type 0} (dec : Discrete L) (names : L → List Text)
    (target : L → Option (List Text)) where
  postpone-Settled :
      (seen : List L) (l : L) (s : Reordering L) (vs : List Text)
      → Settled dec names target seen s
      → target l ≡ some vs
      → is_empty (minus Text-discrete vs s.safe_vars) ≡ false
      → Settled dec names target
          (seen ++ l ∷ [])
          (postpone dec names l (minus Text-discrete vs s.safe_vars) s)
  unfolding postpone
  postpone-Settled seen l s vs (h, k) e b = (
    record {
      kept = λ x.
          unfold count in
          ground (
            arith,
            h.kept x,
            count-append dec x seen (l ∷ []),
            count-append dec x s.unsafe_literals (l ∷ []),
          );
      safe = h.safe;
      bound_vars = h.bound_vars;
      entries = λ x m. elim (dec l x) [
        | yes p ↦ record {
          vars = minus Text-discrete vs s.safe_vars;
          entry =
              ground
                (arith, get-put dec s.unsafe_variables l x (minus Text-discrete vs s.safe_vars));
          part = λ y n.
              let t : target x ≡ some vs = ap target (sym p) ∙ e in
              ground (arith, member-minus Text-discrete y vs s.safe_vars);
          cover = λ y n.
              let t : target x ≡ some vs = ap target (sym p) ∙ e in
              ground (arith, member-minus Text-discrete y vs s.safe_vars);
        }
        | no p ↦
            let old =
              h.entries x
                (ground (arith, member-append dec x s.unsafe_literals (l ∷ []), one x l p)) in
            record {
              vars = old.vars;
              entry = ground (
                arith,
                get-put dec s.unsafe_variables l x (minus Text-discrete vs s.safe_vars),
                old.entry,
              );
              part = old.part;
              cover = old.cover;
            }
      ];
    },
    λ x m. elim (dec l x) [
      | yes p ↦
          unfold is_ready in
          ground (
            arith,
            get-put dec s.unsafe_variables l x (minus Text-discrete vs s.safe_vars),
            minus-not_subset vs s.safe_vars b,
          )
      | no p ↦
          let old =
            k x (ground (arith, member-append dec x s.unsafe_literals (l ∷ []), one x l p)) in
          unfold is_ready in
          ground (arith, get-put dec s.unsafe_variables l x (minus Text-discrete vs s.safe_vars))
    ],
  )
    where
      one : (x l : L) → l ≢ x → member dec x (l ∷ []) ≡ false
      one x l p = unfold member in ground arith

  place-Settled :
      (seen : List L) (l : L) (s : Reordering L)
      → Settled dec names target seen s
      → Settled dec names target (seen ++ l ∷ []) (place dec names target l s)
  unfolding place
  place-Settled seen l s (h, k) = elim (Option-cases (target l)) [
    | inl e ↦
        simp (e, place)
          (make_safe_plus-Settled dec names target seen l s h (λ x m. needs_nothing l x e m))
    | inr (vs, e) ↦ elim (Bool-cases (is_empty (minus Text-discrete vs s.safe_vars))) [
      | inl b ↦
          simp (e, b, place)
            (make_safe_plus-Settled dec names target seen l s h (λ x m.
              minus-Within vs s.safe_vars b x
                (subst (λ o. member Text-discrete x (get_or o []) ≡ true) e m)))
      | inr b ↦ simp (e, b, place) (postpone-Settled seen l s vs (h, k) e b)
    ]
  ]
    where
      needs_nothing :
          (l : L) (x : Text)
          → target l ≡ none
          → member Text-discrete x (needs dec names target l) ≡ true
          → member Text-discrete x s.safe_vars ≡ true
      needs_nothing l x e m = unfold member in ground arith

  place_all-Settled :
      (seen ls : List L) (s : Reordering L)
      → Settled dec names target seen s
      → Settled dec names target (seen ++ ls) (place_all dec names target ls s)
  unfolding place_all
  place_all-Settled seen [] s h = rw (append-nil seen) h
  place_all-Settled seen (l ∷ ls) s h =
      subst (λ b. Settled dec names target b (place_all dec names target (l ∷ ls) s))
        (append_assoc seen (l ∷ []) ls)
        (place_all-Settled (seen ++ l ∷ []) ls (place dec names target l s)
          (place-Settled seen l s h))

  names-bound :
      (b : List Text) (ls : List L) (x : Text)
      → member Text-discrete x b ≡ true
      → member Text-discrete x (bound dec names target b ls) ≡ true
  names-bound b [] x m = m
  names-bound b (l ∷ ls) x m =
      names-bound (union Text-discrete b (names l)) ls x
        (ground (arith, member-union Text-discrete x b (names l)))

  member-bound :
      (b : List Text) (ls : List L) (l : L)
      → member dec l ls ≡ true
      → Within (names l) (bound dec names target b ls)
  unfolding member
  member-bound b [] l m x n = absurd (cc)
  member-bound b (y ∷ ls) l m x n = elim (dec y l) [
    | yes p ↦
        let at : member Text-discrete x (names y) ≡ true = rw p n in
        names-bound (union Text-discrete b (names y)) ls x
          (ground (arith, member-union Text-discrete x b (names y)))
    | no p ↦ member-bound (union Text-discrete b (names y)) ls l (ground arith) x n
  ]

  -- nothing of a safe order is still unsafe
  none_unsafe :
      (body : List L) (s : Reordering L)
      → Settled dec names target body s
      → (b : List Text) (ls : List L) → Within b s.safe_vars
      → ((l : L) → member dec l ls ≡ true → member dec l body ≡ true)
      → IsSafe dec names target b ls
      → (l : L) → member dec l ls ≡ true
      → member dec l s.unsafe_literals ≡ false
  unfolding member
  none_unsafe body s (h, k) b [] w all safe l m = absurd (cc)
  none_unsafe body s (h, k) b (y ∷ ls) w all safe l m = elim (dec y l) [
    | yes p ↦ rw p at first
    | no p ↦
        none_unsafe body s (h, k) (union Text-discrete b (names y)) ls
          (λ x n. ground (arith, member-union Text-discrete x b (names y), w x, named x)) rest
          safe.1 l (ground arith)
  ]
    where
      here : member dec y (y ∷ ls) ≡ true
      here = if_pos (dec y y) refl true (member dec y ls)

      first : member dec y s.unsafe_literals ≡ false
      first = elim (Bool-cases (member dec y s.unsafe_literals)) [
        | inl u ↦
            let ready =
              Within-ready dec names target s y (h.entries y u) (λ x n. w x (safe.0 x n)) in
            let waits = k y u in absurd (cc)
        | inr u ↦ u
      ]

      placed : member dec y s.new_body ≡ true
      placed =
          let seen = all y here in
          ground (
            arith,
            h.kept y,
            member-count dec y body,
            member-count dec y s.new_body,
            member-count dec y s.unsafe_literals,
            first,
          )

      named :
          (x : Text)
          → member Text-discrete x (names y) ≡ true
          → member Text-discrete x s.safe_vars ≡ true
      named x n = rw (h.bound_vars) (member-bound [] s.new_body y placed x n)

      rest : (x : L) → member dec x ls ≡ true → member dec x body ≡ true
      rest x n = all x (ground arith)

  start : Reordering L
  start = record { safe_vars = []; unsafe_literals = []; unsafe_variables = []; new_body = [] }

  start-Settled : Settled dec names target [] start
  unfolding start
  start-Settled = (
    record {
      kept = λ l. unfold count in refl;
      safe = tt;
      bound_vars = refl;
      entries = λ l m. absurd (ground (arith, nothing l));
    },
    λ l m. absurd (ground (arith, nothing l)),
  )
    where
      nothing : (l : L) → member dec l [] ≡ false
      nothing l = unfold member in refl

  final : List L → Reordering L
  final body = place_all dec names target body start

  final-Settled : (body : List L) → Settled dec names target body (final body)
  unfolding final
  final-Settled body = place_all-Settled [] body start start-Settled

  make_safe_plus-kept :
      (l : L) (s : Reordering L)
      → s.unsafe_literals ≡ []
      → make_safe_plus dec names l s ≡ make_safe dec names l s
  unfolding make_safe_plus make_safe release
  make_safe_plus-kept l s e =
      ap (λ (q : List L). release dec names (length q) (make_safe dec names l s)) e

  place-kept :
      (l : L) (s : Reordering L)
      → s.unsafe_literals ≡ []
      → Within (needs dec names target l) s.safe_vars
      → place dec names target l s ≡ make_safe dec names l s
  unfolding place
  place-kept l s e w = elim (Option-cases (target l)) [
    | inl t ↦ simp (t, place) (make_safe_plus-kept l s e)
    | inr (vs, t) ↦
        let empty =
          Within-minus vs s.safe_vars
            (λ x m. w x (subst (λ o. member Text-discrete x (get_or o []) ≡ true) (sym t) m)) in
        simp (t, empty, place) (make_safe_plus-kept l s e)
  ]

  place_all-kept :
      (ls : List L) (s : Reordering L)
      → s.unsafe_literals ≡ []
      → IsSafe dec names target s.safe_vars ls
      → ((place_all dec names target ls s).unsafe_literals ≡ [])
        × ((place_all dec names target ls s).new_body ≡ s.new_body ++ ls)
  unfolding place_all
  place_all-kept [] s e h = (e, sym (append-nil s.new_body))
  place_all-kept (l ∷ ls) s e h =
      subst
        (λ (r : Reordering L).
          ((place_all dec names target ls r).unsafe_literals ≡ [])
          × ((place_all dec names target ls r).new_body ≡ s.new_body ++ l ∷ ls))
        (sym (place-kept l s e h.0))
        (let (u, n) =
            place_all-kept ls (make_safe dec names l s) (unfold make_safe in e)
              (unfold make_safe in h.1) in
          (u, n ∙ unfold make_safe in append_assoc s.new_body (l ∷ []) ls))

  -- If `reorder_for_safety` returns, the new body has the literals of the old one, each as often, in
  -- an order in which all that a literal needs is bound by the literals before it. If it raises an
  -- exception, no order of these literals is safe in this sense. A body that is in a safe order is
  -- returned unchanged.
  pub reorder-IsSafe :
      (body : List L)
      → ((new : List L)
          → reorder dec names target body ≡ some new
          → ((l : L) → count dec l new ≡ count dec l body) × IsSafe dec names target [] new)
        × (reorder dec names target body ≡ none
            → (other : List L) → ((l : L) → count dec l other ≡ count dec l body)
            → ¬ IsSafe dec names target [] other)
        × (IsSafe dec names target [] body → reorder dec names target body ≡ some body)
  unfolding reorder final start
  reorder-IsSafe body = elim (Bool-cases (is_empty (final body).unsafe_literals)) [
    | inl e ↦
        simp (e, reorder)
          (found e, λ h. absurd (cc), λ safe. ap some (place_all-kept body start refl safe).1)
    | inr e ↦
        simp (e, reorder)
          (λ new h. absurd (cc), λ h. missing e, λ safe. absurd (contradiction e safe))
  ]
    where
      nothing_counts : (l : L) (ls : List L) → ls ≡ [] → count dec l ls ≡ 0
      nothing_counts l ls e = rw e (unfold count in refl)

      nothing : (x : Text) → ¬ member Text-discrete x [] ≡ true
      nothing x n = unfold member in cc

      first_of : (ls : List L) → is_empty ls ≡ false → (l : L) × (member dec l ls ≡ true)
      first_of [] n = absurd (cc)
      first_of (l ∷ ls) n = (l, unfold member in if_pos (dec l l) refl true (member dec l ls))

      found :
          is_empty (final body).unsafe_literals ≡ true
          → (new : List L) → some (final body).new_body ≡ some new
          → ((l : L) → count dec l new ≡ count dec l body) × IsSafe dec names target [] new
      found e new h =
          let settled = (final-Settled body).0 in
          let same : (final body).new_body ≡ new = cc in
          subst
            (λ (q : List L).
              ((l : L) → count dec l q ≡ count dec l body) × IsSafe dec names target [] q)
            same
            (
              λ l. ground (
                arith,
                settled.kept l,
                nothing_counts l (final body).unsafe_literals (is_empty-eq _ e),
              ),
              settled.safe,
            )

      missing :
          is_empty (final body).unsafe_literals ≡ false
          → (other : List L) → ((l : L) → count dec l other ≡ count dec l body)
          → ¬ IsSafe dec names target [] other
      missing e other same safe =
          let (l, m) = first_of (final body).unsafe_literals e in
          let in_body : member dec l body ≡ true = ground (
            arith,
            (final-Settled body).0.kept l,
            member-count dec l body,
            member-count dec l (final body).unsafe_literals,
          ) in
          let in_other : member dec l other ≡ true =
            ground (arith, same l, member-count dec l body, member-count dec l other) in
          let placed =
            none_unsafe body (final body) (final-Settled body) [] other
              (λ x n. absurd (nothing x n))
              (λ x n. ground (arith, same x, member-count dec x body, member-count dec x other))
              safe l in_other in
          absurd (cc)

      contradiction :
          is_empty (final body).unsafe_literals ≡ false → ¬ IsSafe dec names target [] body
      contradiction e safe = missing e body (λ l. refl) safe
