-- ===== src/Datalog/Database/Modify.antt =====
-- `Database` of database.py as a map from facts to their proofs, under insertions and deletions.
use congress.Prelude.{
  ◌≡◌, sym, subst, ◌∙◌, inl, inr, Text, Text-discrete, true, false, not, ite, Option, none, some,
  List, [], ◌∷◌, arith, get_or, Option-cases, if◌then◌else◌,
}
use congress.Dict.Base.{get, get-put}
use congress.Datalog.Database.{
  Database, DbTuple, Event, proofs_in, insert_tuple, delete_tuple, insert_actual, delete_actual,
  argument_names, is_noop,
}
use congress.Datalog.Database.Tuples.{
  NoTwice, with_proofs, without_proofs, covered, proofs_in-insert_tuple, proofs_in-delete_tuple,
  insert_tuple-NoTwice, delete_tuple-NoTwice, covers-proofs_in, union-subset,
}

module _ {V P : Type 0} (dec : Discrete (List V)) (dec_proof : Discrete P)
    (text_value : Text → V) where
  abbrev pub tuples_of : Database V P → Text → List (DbTuple V P)
  tuples_of data' table = get_or (get Text-discrete data' table) []

  -- the proofs of a fact that is there
  abbrev pub proofs_of : Database V P → Text → List V → Option (List P)
  proofs_of data' table x = proofs_in dec dec_proof x (tuples_of data' table)

  -- no table has a tuple twice
  abbrev pub IsDatabase : Database V P → Type 0
  IsDatabase data' = (table : Text) → NoTwice dec dec_proof (tuples_of data' table)

  -- what an event makes of the proofs of its fact
  abbrev pub changed_proofs : Event V P → Option (List P) → Option (List P)
  changed_proofs event old =
      if event.is_insert
      then with_proofs dec dec_proof event.proofs old
      else if covered dec dec_proof event.proofs old
      then without_proofs dec dec_proof event.proofs old
      else old

  -- what an event makes of the proofs of any fact
  abbrev pub after_event : Event V P → Text → List V → Option (List P) → Option (List P)
  after_event event table x old =
      ite (Text-discrete event.formula.table.table table)
        (ite (dec (argument_names dec dec_proof text_value event.formula) x)
          (changed_proofs event old) old)
        old

  -- An insertion is a change unless the fact is there with all these proofs, a deletion if it is.
  abbrev pub reported : Event V P → Option (List P) → List (Event V P)
  reported event old =
      if event.is_insert
      then (if covered dec dec_proof event.proofs old then [] else event ∷ [])
      else if covered dec dec_proof event.proofs old
      then event ∷ []
      else []

  tuples_of-insert_actual :
      (table : Text) (x : List V) (ps : List P) (data' : Database V P) (t : Text)
      → tuples_of (insert_actual dec dec_proof table x ps data') t
        ≡ ite
            (Text-discrete table t)
            (insert_tuple dec dec_proof x ps (tuples_of data' table))
            (tuples_of data' t)
  unfolding insert_actual insert_tuple
  tuples_of-insert_actual table x ps data' t = elim (Option-cases (get Text-discrete data' table)) [
    | inl e ↦
        ground (arith, get-put Text-discrete data' table t (record { tuple = x; proofs = ps } ∷ []))
    | inr (ts, e) ↦
        ground (arith, get-put Text-discrete data' table t (insert_tuple dec dec_proof x ps ts))
  ]

  tuples_of-delete_actual :
      (table : Text) (x : List V) (ps : List P) (data' : Database V P) (t : Text)
      → tuples_of (delete_actual dec dec_proof table x ps data') t
        ≡ ite
            (Text-discrete table t)
            (delete_tuple dec dec_proof x ps (tuples_of data' table))
            (tuples_of data' t)
  unfolding delete_actual delete_tuple
  tuples_of-delete_actual table x ps data' t = elim (Option-cases (get Text-discrete data' table)) [
    | inl e ↦ ground arith
    | inr (ts, e) ↦
        ground (arith, get-put Text-discrete data' table t (delete_tuple dec dec_proof x ps ts))
  ]

  is_noop-covered :
      (event : Event V P) (data' : Database V P)
      → IsDatabase data'
      → is_noop dec dec_proof text_value event data' ≡ (
          let there = covered dec dec_proof event.proofs (
            proofs_of data' event.formula.table.table
              (argument_names dec dec_proof text_value event.formula)) in
          if there then event.is_insert else not event.is_insert)
  unfolding is_noop proofs_in
  is_noop-covered event data' h =
      elim (Option-cases (get Text-discrete data' event.formula.table.table)) [
        | inl e ↦ ground arith
        | inr (ts, e) ↦
            let names = argument_names dec dec_proof text_value event.formula in
            let same : tuples_of data' event.formula.table.table ≡ ts = ground arith in
            let one =
              covers-proofs_in dec dec_proof names event.proofs ts
                (subst (NoTwice dec dec_proof) same (h event.formula.table.table)) in
            ground (arith, one)
      ]

  inserted-IsDatabase :
      (table : Text) (x : List V) (ps : List P) (data' : Database V P)
      → IsDatabase data'
      → IsDatabase (insert_actual dec dec_proof table x ps data')
  inserted-IsDatabase table x ps data' h t = elim (Text-discrete table t) [
    | yes p ↦
        subst (NoTwice dec dec_proof)
          (sym (
            let w : tuples_of (insert_actual dec dec_proof table x ps data') t
                ≡ insert_tuple dec dec_proof x ps (tuples_of data' table) =
              ground (arith, tuples_of-insert_actual table x ps data' t) in
            w))
          (insert_tuple-NoTwice dec dec_proof x ps (tuples_of data' table) (h table))
    | no n ↦
        subst (NoTwice dec dec_proof)
          (sym (
            let w : tuples_of (insert_actual dec dec_proof table x ps data') t ≡ tuples_of data' t =
              ground (arith, tuples_of-insert_actual table x ps data' t) in
            w))
          (h t)
  ]

  deleted-IsDatabase :
      (table : Text) (x : List V) (ps : List P) (data' : Database V P)
      → IsDatabase data'
      → IsDatabase (delete_actual dec dec_proof table x ps data')
  deleted-IsDatabase table x ps data' h t = elim (Text-discrete table t) [
    | yes p ↦
        subst (NoTwice dec dec_proof)
          (sym (
            let w : tuples_of (delete_actual dec dec_proof table x ps data') t
                ≡ delete_tuple dec dec_proof x ps (tuples_of data' table) =
              ground (arith, tuples_of-delete_actual table x ps data' t) in
            w))
          (delete_tuple-NoTwice dec dec_proof x ps (tuples_of data' table) (h table))
    | no n ↦
        subst (NoTwice dec dec_proof)
          (sym (
            let w : tuples_of (delete_actual dec dec_proof table x ps data') t ≡ tuples_of data' t =
              ground (arith, tuples_of-delete_actual table x ps data' t) in
            w))
          (h t)
  ]

  -- what is left to say of a modified database
  pub record Modified (event : Event V P) (data' after : Database V P) (changes : List (Event V P))
      : Type 0 where
    pub database : IsDatabase after
    pub proofs :
        (table : Text) (x : List V)
        → proofs_of after table x ≡ after_event event table x (proofs_of data' table x)
    pub changes_are :
        changes
        ≡ reported event (
            proofs_of data' event.formula.table.table
              (argument_names dec dec_proof text_value event.formula))

  abbrev pub names_of : Event V P → List V
  names_of event = argument_names dec dec_proof text_value event.formula

  abbrev pub found : Event V P → Database V P → Option (List P)
  found event data' = proofs_of data' event.formula.table.table (names_of event)

  -- an event that changes nothing
  changed_proofs-noop :
      (event : Event V P) (old : Option (List P))
      → (if covered dec dec_proof event.proofs old then event.is_insert else not event.is_insert)
        ≡ true
      → changed_proofs event old ≡ old
  changed_proofs-noop event none h = ground arith
  changed_proofs-noop event (some ps) h = ground (arith, union-subset dec dec_proof ps event.proofs)

  pub ignored-Modified :
      (event : Event V P) (data' : Database V P)
      → IsDatabase data'
      → is_noop dec dec_proof text_value event data' ≡ true
      → Modified event data' data' []
  ignored-Modified event data' h e =
      let same : (if covered dec dec_proof event.proofs (found event data')
            then event.is_insert
            else not event.is_insert)
          ≡ true =
        sym (is_noop-covered event data' h) ∙ e in
      record {
        database = h;
        proofs = λ table x. ground (arith, changed_proofs-noop event (found event data') same);
        changes_are = ground arith;
      }

  pub inserted-Modified :
      (event : Event V P) (data' : Database V P)
      → IsDatabase data'
      → is_noop dec dec_proof text_value event data' ≡ false
      → event.is_insert ≡ true
      → Modified event data'
          (insert_actual dec dec_proof event.formula.table.table
            (names_of event)
            event.proofs
            data')
          (event ∷ [])
  inserted-Modified event data' h e i = record {
    database = inserted-IsDatabase event.formula.table.table (names_of event) event.proofs data' h;
    proofs = λ table x. ground (
      arith,
      tuples_of-insert_actual event.formula.table.table (names_of event) event.proofs data' table,
      proofs_in-insert_tuple dec dec_proof (names_of event) x event.proofs
          (tuples_of data' event.formula.table.table),
    );
    changes_are = ground (arith, is_noop-covered event data' h);
  }

  pub deleted-Modified :
      (event : Event V P) (data' : Database V P)
      → IsDatabase data'
      → is_noop dec dec_proof text_value event data' ≡ false
      → event.is_insert ≡ false
      → Modified event data'
          (delete_actual dec dec_proof event.formula.table.table
            (names_of event)
            event.proofs
            data')
          (event ∷ [])
  deleted-Modified event data' h e i = record {
    database = deleted-IsDatabase event.formula.table.table (names_of event) event.proofs data' h;
    proofs = λ table x. ground (
      arith,
      is_noop-covered event data' h,
      tuples_of-delete_actual event.formula.table.table (names_of event) event.proofs data' table,
      proofs_in-delete_tuple dec dec_proof (names_of event) x event.proofs
          (tuples_of data' event.formula.table.table) (h event.formula.table.table),
    );
    changes_are = ground (arith, is_noop-covered event data' h);
  }
