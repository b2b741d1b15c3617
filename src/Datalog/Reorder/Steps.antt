-- ===== src/Datalog/Reorder/Steps.antt =====
-- The steps of `reorder_for_safety` of compile.py: what becomes safe is released at once.
use congress.Prelude.{
  ℕ, zero, suc, ◌+◌, ◌≤◌, ◌≡◌, refl, inl, inr, Text, true, false, ite, Option, none, some, List, [],
  ◌∷◌, ◌++◌, length, arith, Bool-cases, Option-cases,
}
use congress.Sets.{
  member, count, remove_first, count-append, count-remove_first, member-count, length-remove_first,
}
use congress.Dict.Base.{Dict}
use congress.Datalog.Reorder.{Reordering, make_safe, is_ready, first_ready, release, make_safe_plus}
use congress.Datalog.Reorder.State.{
  Within, needs, IsReordering, IsSettled, ready-Within, make_safe-IsReordering,
}

module _ {L : Type 0} (dec : Discrete L) (names : L → List Text) where
  first_ready-some :
      (d : Dict L (List Text)) (safe : List Text) (ls : List L) (l : L)
      → first_ready dec names d safe ls ≡ some l
      → (member dec l ls ≡ true) × (is_ready dec names d safe l ≡ true)
  unfolding first_ready member
  first_ready-some d safe [] l h = absurd (cc)
  first_ready-some d safe (x ∷ ls) l h = elim (Bool-cases (is_ready dec names d safe x)) [
    | inl e ↦ let same : x ≡ l = ground arith in ground arith
    | inr e ↦ let (m, r) = first_ready-some d safe ls l (ground arith) in ground arith
  ]

  first_ready-none :
      (d : Dict L (List Text)) (safe : List Text) (ls : List L) (l : L)
      → first_ready dec names d safe ls ≡ none
      → member dec l ls ≡ true
      → is_ready dec names d safe l ≡ false
  unfolding first_ready member
  first_ready-none d safe [] l h m = absurd (cc)
  first_ready-none d safe (x ∷ ls) l h m = ground (arith, first_ready-none d safe ls l)

  module _ (target : L → Option (List Text)) where
    -- the state without the literal that becomes safe
    taken-IsReordering :
        (seen : List L) (s : Reordering L) (l : L)
        → IsReordering dec names target seen s
        → member dec l s.unsafe_literals ≡ true
        → IsReordering dec names target
            (remove_first dec l seen)
            (record s { unsafe_literals = remove_first dec l s.unsafe_literals })
    taken-IsReordering seen s l h m = record {
      kept = λ x. ground (
        arith,
        h.kept x,
        h.kept l,
        count-remove_first dec l x s.unsafe_literals,
        count-remove_first dec l x seen,
        member-count dec l s.unsafe_literals,
        member-count dec l seen,
      );
      safe = h.safe;
      bound_vars = h.bound_vars;
      entries = λ x n.
          let there : member dec x s.unsafe_literals ≡ true = ground (
            arith,
            count-remove_first dec l x s.unsafe_literals,
            member-count dec x s.unsafe_literals,
            member-count dec x (remove_first dec l s.unsafe_literals),
          ) in
          let e = h.entries x there in
          record { vars = e.vars; entry = e.entry; part = e.part; cover = e.cover };
    }

    seen-remove_first :
        (seen : List L) (s : Reordering L) (l x : L)
        → IsReordering dec names target seen s
        → member dec l s.unsafe_literals ≡ true
        → count dec x seen ≡ count dec x (remove_first dec l seen) + ite (dec l x) 1 0
    seen-remove_first seen s l x h m = ground (
      arith,
      h.kept l,
      count-remove_first dec l x seen,
      member-count dec l s.unsafe_literals,
      member-count dec l seen,
    )

    abbrev pub Settled : List L → Reordering L → Type 0
    Settled seen s = IsReordering dec names target seen s × IsSettled dec names target s

    nothing_unsafe : (ls : List L) (l : L) → length ls ≤ 0 → member dec l ls ≡ false
    unfolding member
    nothing_unsafe [] l h = refl
    nothing_unsafe (x ∷ ls) l h = absurd (omega arith)

    release-Settled :
        (n : ℕ) (seen : List L) (s : Reordering L)
        → IsReordering dec names target seen s
        → length s.unsafe_literals ≤ n
        → Settled seen (release dec names n s)
    unfolding release
    release-Settled zero seen s h le =
        (h, λ l m. let none_left = nothing_unsafe s.unsafe_literals l le in cc)
    release-Settled (suc n) seen s h le =
        elim (Option-cases
          (first_ready dec names s.unsafe_variables s.safe_vars s.unsafe_literals)) [
            | inl e ↦
                simp (e, release)
                  (
                    h,
                    λ l m. first_ready-none s.unsafe_variables s.safe_vars s.unsafe_literals l e m,
                  )
            | inr (l, e) ↦
                let (m, ready) =
                  first_ready-some s.unsafe_variables s.safe_vars s.unsafe_literals l e in
                simp (e, release)
                  (release-Settled n seen _
                    (make_safe-IsReordering dec names target (remove_first dec l seen) seen l _
                      (taken-IsReordering seen s l h m) (λ x. seen-remove_first seen s l x h m)
                      (ready-Within dec names target s l (h.entries l m) ready))
                    (unfold make_safe in
                      omega (arith, length-remove_first dec l s.unsafe_literals m)))
          ]

    pub make_safe_plus-Settled :
        (seen : List L) (l : L) (s : Reordering L)
        → IsReordering dec names target seen s
        → Within (needs dec names target l) s.safe_vars
        → Settled (seen ++ l ∷ []) (make_safe_plus dec names l s)
    unfolding make_safe_plus
    make_safe_plus-Settled seen l s h w =
        release-Settled _ (seen ++ l ∷ []) (make_safe dec names l s)
          (make_safe-IsReordering dec names target seen (seen ++ l ∷ []) l s h
            (λ x. unfold count in ground (arith, count-append dec x seen (l ∷ []))) w)
          (omega arith)
