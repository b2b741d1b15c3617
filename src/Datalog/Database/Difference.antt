-- ===== src/Datalog/Database/Difference.antt =====
-- The difference of two databases of database.py.
use congress.Prelude.{
  ◌≡◌, ◌↔◌, refl, inl, inr, Text, Text-discrete, Bool, true, false, Option, List, [], ◌∷◌, arith,
  get_or, Has, Has-append_left, Has-append_right, Has-append_cases,
}
use congress.Dict.Base.{get, Distinct}
use congress.Datalog.Database.{Database, DbTuple, has_tuple, not_in, sub}

module _ {V P : Type 0} (dec : Discrete (List V)) (dec_proof : Discrete P) where
  -- the fact is in the database
  abbrev pub holds : Database V P → Text → List V → Bool
  holds data' table x = has_tuple dec dec_proof x (get_or (get Text-discrete data' table) [])

  not_in_iff :
      (table t : Text) (x : List V) (ts : List (DbTuple V P)) (other : Option (List (DbTuple V P)))
      → Has (t, x) (not_in dec dec_proof table ts other) ↔ (
          (t ≡ table)
          × (has_tuple dec dec_proof x ts ≡ true)
          × (has_tuple dec dec_proof x (get_or other []) ≡ false))
  unfolding not_in has_tuple
  not_in_iff table t x [] other = ground arith
  not_in_iff table t x (d ∷ ts) other = ground (arith, not_in_iff table t x ts other)

  -- `self - other` lists exactly the facts that are in the one database and not in the other.
  pub sub_iff :
      (self other : Database V P) (t : Text) (x : List V)
      → Distinct Text-discrete self
      → Has (t, x) (sub dec dec_proof self other)
        ↔ ((holds self t x ≡ true) × (holds other t x ≡ false))
  unfolding sub get
  sub_iff [] other t x h = unfold has_tuple in ground arith
  sub_iff ((table, ts) ∷ data') other t x h =
      let here = not_in_iff table t x ts (get Text-discrete other table) in
      let rest = sub_iff data' other t x h.1 in
      (
        λ m.
            elim (Has-append_cases (t, x)
              (not_in dec dec_proof table ts (get Text-discrete other table))
              (sub dec dec_proof data' other) m) [
                | inl at ↦ ground (arith, here)
                | inr at ↦ ground (arith, rest, nothing)
              ],
        λ m. elim (Text-discrete table t) [
          | yes p ↦
              Has-append_left (t, x) (not_in dec dec_proof table ts (get Text-discrete other table))
                (sub dec dec_proof data' other) (ground (arith, here))
          | no n ↦
              Has-append_right (t, x)
                (not_in dec dec_proof table ts (get Text-discrete other table))
                (sub dec dec_proof data' other) (ground (arith, rest))
        ],
      )
    where
      nothing : has_tuple dec dec_proof x [] ≡ false
      nothing = unfold has_tuple in refl
