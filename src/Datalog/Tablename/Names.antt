-- ===== src/Datalog/Tablename/Names.antt =====
-- Full names of `Tablename` of compile.py: splitting and joining, and names that are the same.
use congress.Prelude.{
  Text, ℕ, ◌==◌, ◌≡◌, ◌≢◌, refl, ap, sym, ◌∙◌, true, none, some, List, [], ◌∷◌, ◌++◌, arith,
  Bool-cases, inl, inr, All,
}
use congress.Datalog.Tablename.{
  colon, Tablename, split, join, service_and_table, parse_service_table, build_service_table,
  create_from_tablename, add_piece, global_tablename,
}

split-cons : (s : Text) → (p : Text) × (ps : List Text) × (split s ≡ p ∷ ps)
unfolding split
split-cons [] = ([], [], refl)
split-cons (c ∷ s) =
    let (p, ps, e) = split-cons s in
    elim (Bool-cases (c == colon)) [
      | inl b ↦ ([], p ∷ ps, rw (b, e) refl)
      | inr b ↦ (c ∷ p, ps, rw (b, e) refl)
    ]

join-nil : (p : Text) (ps : List Text) → join ([] ∷ p ∷ ps) ≡ colon ∷ join (p ∷ ps)
unfolding join
join-nil p ps = refl

join-grow : (c : ℕ) (p : Text) (ps : List Text) → join ((c ∷ p) ∷ ps) ≡ c ∷ join (p ∷ ps)
unfolding join
join-grow c p [] = refl
join-grow c p (q ∷ ps) = refl

join-split : (s : Text) → join (split s) ≡ s
unfolding split
join-split [] = unfold join in refl
join-split (c ∷ s) =
    let (p, ps, e) = split-cons s in
    elim (Bool-cases (c == colon)) [
      | inl b ↦ ground (arith, join-split s, join-nil p ps)
      | inr b ↦ ground (arith, join-split s, join-grow c p ps)
    ]

join-service_and_table :
    (p : Text) (ps : List Text)
    → join (add_piece (service_and_table (p ∷ ps)).0 ((service_and_table (p ∷ ps)).1 ∷ []))
      ≡ join (p ∷ ps)
unfolding join
join-service_and_table p [] = refl
join-service_and_table p (q ∷ ps) = refl

split-free : (s t : Text) → All (λ c. c ≢ colon) s → split (s ++ colon ∷ t) ≡ s ∷ split t
unfolding split
split-free [] t h = refl
split-free (c ∷ s) t h = ground (arith, split-free s t h.1)

-- Taking a full table name apart and putting the pieces together again gives the name; and a
-- service without a colon and any table come back from the text that is built of them.
pub parse_service_table_roundtrip :
    (s service table : Text)
    → All (λ c. c ≢ colon) service
    → (global_tablename none (create_from_tablename s none true) ≡ s)
      × (parse_service_table (build_service_table service table) ≡ (some service, table))
unfolding parse_service_table global_tablename create_from_tablename build_service_table
parse_service_table_roundtrip s service table h =
    let (p, ps, e) = split-cons s in
    let (q, qs, f) = split-cons table in
    (
      rw e (join-service_and_table p ps) ∙ ap join (sym e) ∙ join-split s,
      rw (split-free service table h, f)
          (ap (λ (t : Text). (some service, t)) (ap join (sym f) ∙ join-split table)),
    )
