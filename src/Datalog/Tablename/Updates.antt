-- ===== src/Datalog/Tablename/Updates.antt =====
-- The signs `+` and `-` at the end of a table name mark an update: compile.py, `Tablename`.
use congress.Prelude.{
  Text, ℕ, ◌==◌, ◌≡◌, refl, ap, subst, ◌∙◌, Bool, true, false, not, [], ◌∷◌, ◌++◌, if◌then◌else◌,
  arith, Bool-cases, inl, inr,
}
use congress.Datalog.Tablename.{
  Tablename, plus_sign, minus_sign, ends_with, drop_last, invert_update, drop_update, make_update,
  is_update,
}

ends_with-snoc : (c x : ℕ) (s : Text) → ends_with c (s ++ x ∷ []) ≡ (x == c)
unfolding ends_with
ends_with-snoc c x [] = refl
ends_with-snoc c x (y ∷ []) = refl
ends_with-snoc c x (y ∷ z ∷ s) = ends_with-snoc c x (z ∷ s)

drop_last-snoc : (x : ℕ) (s : Text) → drop_last (s ++ x ∷ []) ≡ s
unfolding drop_last
drop_last-snoc x [] = refl
drop_last-snoc x (y ∷ []) = refl
drop_last-snoc x (y ∷ z ∷ s) = ap (λ r. y ∷ r) (drop_last-snoc x (z ∷ s))

snoc-drop_last : (c : ℕ) (s : Text) → ends_with c s ≡ true → drop_last s ++ c ∷ [] ≡ s
unfolding ends_with drop_last
snoc-drop_last c [] h = absurd (cc)
snoc-drop_last c (x ∷ []) h = ground arith
snoc-drop_last c (x ∷ y ∷ s) h = ap (λ r. x ∷ r) (snoc-drop_last c (y ∷ s) h)

made : (b : Bool) (t : Tablename) → Tablename
made b t = record t { table = t.table ++ (if b then plus_sign else minus_sign) ∷ [] }

remade :
    (b : Bool) (t : Tablename)
    → ends_with (if b then plus_sign else minus_sign) t.table ≡ true
    → made b (record t { table = drop_last t.table }) ≡ t
unfolding made
remade b t h =
    ap (λ (s : Text). record t { table = s })
      (snoc-drop_last (if b then plus_sign else minus_sign) t.table h)

sign_of :
    (t : Tablename)
    → is_update t ≡ true
    → (b : Bool) × (ends_with (if b then plus_sign else minus_sign) t.table ≡ true)
unfolding is_update
sign_of t h = elim (Bool-cases (ends_with plus_sign t.table)) [
  | inl p ↦ (true, p)
  | inr p ↦ (false, ground arith)
]

drop_update-is_update :
    (t : Tablename)
    → is_update t ≡ true
    → drop_update t ≡ (record t { table = drop_last t.table }, true)
unfolding is_update drop_update
drop_update-is_update t h = rw h refl

invert_made : (b : Bool) (t : Tablename) → invert_update (made b t) ≡ (made (not b) t, true)
unfolding made invert_update
invert_made true t =
    ground (arith, ends_with-snoc plus_sign plus_sign t.table, drop_last-snoc plus_sign t.table)
invert_made false t = ground (
  arith,
  ends_with-snoc plus_sign minus_sign t.table,
  ends_with-snoc minus_sign minus_sign t.table,
  drop_last-snoc minus_sign t.table,
)

made-is_update : (b : Bool) (t : Tablename) → is_update (made b t) ≡ true
unfolding made is_update
made-is_update true t = ground (arith, ends_with-snoc plus_sign plus_sign t.table)
made-is_update false t = ground (arith, ends_with-snoc minus_sign minus_sign t.table)

drop_made : (b : Bool) (t : Tablename) → drop_update (made b t) ≡ (t, true)
drop_made b t =
    drop_update-is_update (made b t) (made-is_update b t)
    ∙ unfold made in ap (λ (s : Text). (record t { table = s }, true)) (drop_last-snoc _ t.table)

not-not : (b : Bool) → not (not b) ≡ b
not-not true = refl
not-not false = refl

invert_twice : (t : Tablename) → (invert_update (invert_update t).0).0 ≡ t
invert_twice t = elim (Bool-cases (is_update t)) [
  | inl u ↦
      let (b, e) = sign_of t u in
      let s = record t { table = drop_last t.table } in
      let same : made b s ≡ t = remade b t e in
      subst (λ (x : Tablename). (invert_update (invert_update x).0).0 ≡ x) same
        (rw (invert_made b s) (rw (invert_made (not b) s) (ap (λ c. made c s) (not-not b))))
  | inr u ↦
      let still : invert_update t ≡ (t, false) = unfold invert_update is_update in ground arith in
      rw (still, still) refl
]

-- An update made of a name is an update; dropping the sign gives the name back, and inverting it
-- gives the other update of the name. Every update is made of the name that dropping its sign
-- gives, and inverting a name twice gives it back, update or not.
pub make_update_laws :
    (is_insert : Bool) (t : Tablename)
    → (is_update (make_update is_insert t).0 ≡ true)
      × (drop_update (make_update is_insert t).0 ≡ (t, true))
      × (invert_update (make_update is_insert t).0 ≡ make_update (not is_insert) t)
      × (is_update t ≡ true → (b : Bool) × ((make_update b (drop_update t).0).0 ≡ t))
      × ((invert_update (invert_update t).0).0 ≡ t)
unfolding make_update made
make_update_laws is_insert t = (
  made-is_update is_insert t,
  drop_made is_insert t,
  invert_made is_insert t,
  λ u.
      let (b, e) = sign_of t u in
      (b, ap (λ (r : Tablename × Bool). made b r.0) (drop_update-is_update t u) ∙ remade b t e),
  invert_twice t,
)
