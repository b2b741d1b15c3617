-- ===== src/Tests/Database.antt =====
-- `Database` of congress/datalog/database.py at concrete inputs.
use congress.Sets.{member, union, minus, insert, subset}
use congress.Prelude.{
  ℕ, ℕ_discrete, List-discrete, Text, Text-discrete, ◌≡◌, refl, Bool, true, false, none, some, List,
  [], ◌∷◌, codes, Has, ◌↔◌,
}
use congress.Dict.Base.{Distinct, get, put}
use congress.Datalog.Formula.{constant, integer, Literal, is_atom}
use congress.Datalog.Database.{Database, Event, sub, update}
use congress.Datalog.Database.Difference.{holds, sub_iff}
use congress.Datalog.Database.Modify.{IsDatabase, proofs_of}
use congress.Datalog.Database.Update.{run, update-run}

-- a proof is a number
dec : Discrete (List ℕ)
unfolding List-discrete ℕ_discrete
dec = List-discrete ℕ_discrete

abbrev text_value : Text → ℕ
text_value t = 0

abbrev fact : ℕ → Literal ℕ
fact n = record {
  table = record { service = none; table = codes "p"; modal = none };
  arguments = constant n integer ∷ [];
  negated = false;
  named_arguments = [];
}

abbrev event : Bool → ℕ → List ℕ → Event ℕ ℕ
event is_insert n ps = record { formula = fact n; proofs = ps; is_insert = is_insert }

-- p(1) with the proofs 5 and 6, of which 5 is taken off; p(2), which goes again
abbrev events : List (Event ℕ ℕ)
events =
    event true 1 (5 ∷ [])
    ∷ event true 1 (6 ∷ [])
    ∷ event true 2 (7 ∷ [])
    ∷ event false 1 (5 ∷ [])
    ∷ event false 2 (7 ∷ [])
    ∷ event true 1 (6 ∷ [])
    ∷ []

updated :
    update dec ℕ_discrete text_value events []
    ≡ some (
      (codes "p", record { tuple = 1 ∷ []; proofs = 6 ∷ [] } ∷ []) ∷ [],
      event true 1 (5 ∷ [])
          ∷ event true 1 (6 ∷ [])
          ∷ event true 2 (7 ∷ [])
          ∷ event false 1 (5 ∷ [])
          ∷ event false 2 (7 ∷ [])
          ∷ [],
    )
unfolding update dec is_atom get put Text-discrete subset member union insert minus
updated = refl

-- A deletion without proofs is reported as a change, but leaves a fact that has proofs.
kept_fact :
    update dec ℕ_discrete text_value (event true 1 (5 ∷ []) ∷ event false 1 [] ∷ []) []
    ≡ some (
      (codes "p", record { tuple = 1 ∷ []; proofs = 5 ∷ [] } ∷ []) ∷ [],
      event true 1 (5 ∷ []) ∷ event false 1 [] ∷ [],
    )
unfolding update dec is_atom get put Text-discrete subset minus member
kept_fact = refl

empty-IsDatabase : IsDatabase dec ℕ_discrete text_value []
unfolding get
empty-IsDatabase table = tt

update-run_example :
    (after : Database ℕ ℕ) × (changes : List (Event ℕ ℕ)) × (update dec ℕ_discrete text_value events
        []
      ≡ some (after, changes))
    × IsDatabase dec ℕ_discrete text_value after
    × ((proofs_of dec ℕ_discrete text_value after, changes)
        ≡ run dec ℕ_discrete text_value events (proofs_of dec ℕ_discrete text_value []))
unfolding is_atom
update-run_example =
    update-run dec ℕ_discrete text_value events [] empty-IsDatabase
      (refl, (refl, (refl, (refl, (refl, (refl, tt))))))

abbrev old_data : Database ℕ ℕ
old_data =
    (
      codes "p",
      record { tuple = 1 ∷ []; proofs = [] } ∷ record { tuple = 2 ∷ []; proofs = [] } ∷ [],
    )
    ∷ []

abbrev new_data : Database ℕ ℕ
new_data = (codes "p", record { tuple = 1 ∷ []; proofs = 5 ∷ [] } ∷ []) ∷ []

old_data-Distinct : Distinct Text-discrete old_data
unfolding get
old_data-Distinct = (refl, tt)

sub_iff_example : Has (codes "p", 2 ∷ []) (sub dec ℕ_discrete old_data new_data) ↔ (
    (holds dec ℕ_discrete old_data (codes "p") (2 ∷ []) ≡ true)
    × (holds dec ℕ_discrete new_data (codes "p") (2 ∷ []) ≡ false))
sub_iff_example = sub_iff dec ℕ_discrete old_data new_data (codes "p") (2 ∷ []) old_data-Distinct
