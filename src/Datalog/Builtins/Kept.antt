-- ===== src/Datalog/Builtins/Kept.antt =====
-- Every operation on the registry of builtins of builtin.py keeps it in order.
use congress.Prelude.{Text, Text-discrete, List, [], ◌∷◌}
use congress.Dict.Base.{Dict, remove}
use congress.Datalog.Builtins.{BuiltinPred, Registry}

module _ {F : Type 0} where
  abbrev without : Text → List (BuiltinPred F) → Registry F → Registry F
  without key [] r = record r { categorydict = remove Text-discrete r.categorydict key }
  without key (p ∷ ps) r = r
