-- ===== src/Datalog/Database/Update.antt =====
-- `Database` of database.py implements a map from facts to their proofs, event by event.
use congress.Prelude.{
  ◌≡◌, refl, ap, fun_ext, ◌∙◌, inl, inr, Text, true, Option, some, List, [], ◌∷◌, ◌++◌, All, arith,
  Bool-cases,
}
use congress.Datalog.Formula.{is_atom}
use congress.Datalog.Database.{
  Database, Event, is_noop, insert_actual, delete_actual, modify, update,
}
use congress.Datalog.Database.Modify.{
  proofs_of, IsDatabase, after_event, reported, Modified, names_of, ignored-Modified,
  inserted-Modified, deleted-Modified,
}

-- the proofs of each fact that is there
abbrev pub Facts : Type 0 → Type 0 → Type 0
Facts V P = Text → List V → Option (List P)

module _ {V P : Type 0} (dec : Discrete (List V)) (dec_proof : Discrete P)
    (text_value : Text → V) where
  -- What the facts are after some events, and which events are changes.
  abbrev pub run : List (Event V P) → Facts V P → Facts V P × List (Event V P)
  run [] facts = (facts, [])
  run (event ∷ events) facts =
      let rest =
        run events
          (λ table x. after_event dec dec_proof text_value event table x (facts table x)) in
      (
        rest.0,
        reported dec dec_proof text_value event
              (facts event.formula.table.table (names_of dec dec_proof text_value event))
            ++ rest.1,
      )

  modify-Modified :
      (event : Event V P) (data' : Database V P)
      → IsDatabase dec dec_proof text_value data'
      → is_atom event.formula ≡ true
      → (after : Database V P) × (changes : List (Event V P)) × (modify dec dec_proof text_value
            event data'
          ≡ some (after, changes))
        × Modified dec dec_proof text_value event data' after changes
  unfolding modify
  modify-Modified event data' h atom =
      elim (Bool-cases (is_noop dec dec_proof text_value event data')) [
        | inl e ↦
            (data', [], ground arith, ignored-Modified dec dec_proof text_value event data' h e)
        | inr e ↦ elim (Bool-cases event.is_insert) [
          | inl i ↦ (
            insert_actual dec dec_proof event.formula.table.table
                (names_of dec dec_proof text_value event) event.proofs data',
            event ∷ [],
            ground arith,
            inserted-Modified dec dec_proof text_value event data' h e i,
          )
          | inr i ↦ (
            delete_actual dec dec_proof event.formula.table.table
                (names_of dec dec_proof text_value event) event.proofs data',
            event ∷ [],
            ground arith,
            deleted-Modified dec dec_proof text_value event data' h e i,
          )
        ]
      ]

  -- Applying events on atoms to a database without repeated tuples raises nothing, leaves no
  -- repeated tuples, and does to the proofs of each fact what the events say: an insertion adds
  -- proofs, a deletion whose proofs are all there takes them off, and the fact goes with its last
  -- proof. The changes that are returned are the insertions of a proof that was not there and the
  -- deletions whose proofs were all there.
  pub update-run :
      (events : List (Event V P)) (data' : Database V P)
      → IsDatabase dec dec_proof text_value data'
      → All (λ (e : Event V P). is_atom e.formula ≡ true) events
      → (after : Database V P) × (changes : List (Event V P)) × (update dec dec_proof text_value
            events data'
          ≡ some (after, changes))
        × IsDatabase dec dec_proof text_value after
        × ((proofs_of dec dec_proof text_value after, changes)
            ≡ run events (proofs_of dec dec_proof text_value data'))
  unfolding update
  update-run [] data' h all = (data', [], refl, h, refl)
  update-run (event ∷ events) data' h (atom, all) =
      let (one, here, e, m) = modify-Modified event data' h atom in
      let (after, changes, f, held, same) = update-run events one m.database all in
      let facts : Facts V P = proofs_of dec dec_proof text_value data' in
      let next : Facts V P =
        λ table x. after_event dec dec_proof text_value event table x (facts table x) in
      let stepped : proofs_of dec dec_proof text_value one ≡ next =
        fun_ext (λ table. fun_ext (λ x. m.proofs table x)) in
      let total : (proofs_of dec dec_proof text_value after, changes) ≡ run events next =
        same ∙ ap (run events) stepped in
      (
        after,
        here ++ changes,
        ground arith,
        held,
        ap (λ (r : Facts V P × List (Event V P)). (r.0, here ++ r.1)) total
            ∙ ap (λ (c : List (Event V P)). ((run events next).0, c ++ (run events next).1))
                m.changes_are,
      )
