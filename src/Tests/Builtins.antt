-- ===== src/Tests/Builtins.antt =====
-- The registry of builtins of congress/datalog/builtin.py at concrete inputs.
use congress.Datalog.Tablename.{text_eq}
use congress.Prelude.{ℕ, Text, Text-discrete, ◌≡◌, refl, none, List, [], ◌∷◌, codes}
use congress.Dict.Base.{Dict, get, put, remove}
use congress.Datalog.Builtins.{BuiltinPred, PredTriple, Registry, delete_map}

abbrev math : Text
math = codes "math"

abbrev empty : Registry ℕ
empty = record { categorydict = []; preddict = []; created = 0 }

abbrev plus : Dict Text (List (PredTriple ℕ))
plus = (math, record { func = codes "plus(x,y,z)"; inputs = 2; run = 5 } ∷ []) ∷ []

abbrev plus_pred : BuiltinPred ℕ
plus_pred = record {
  ident = 0;
  predname = codes "plus";
  predargs = codes "x" ∷ codes "y" ∷ codes "z" ∷ [];
  num_inputs = 2;
  code = 5;
}

abbrev with_plus : Registry ℕ
with_plus = record {
  categorydict = (math, plus_pred ∷ []) ∷ [];
  preddict = (codes "plus", (plus_pred, math)) ∷ [];
  created = 1;
}

-- The category has no predicate left, so that a second triple is looked up in a missing category.
deleted_twice :
    delete_map
      ((
        math,
        record { func = codes "plus(x,y,z)"; inputs = 2; run = 5 }
            ∷ record { func = codes "minus(x,y,z)"; inputs = 2; run = 6 }
            ∷ [],
      )
        ∷ [])
      with_plus
    ≡ none
unfolding delete_map get Text-discrete text_eq put remove
deleted_twice = refl
