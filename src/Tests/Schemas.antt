-- ===== src/Tests/Schemas.antt =====
-- `Schema` of congress/datalog/compile.py at concrete inputs.
use congress.Prelude.{
  codes, ℕ, ◌≡◌, ◌≢◌, ◌↔◌, ◌≤◌, ◌<◌, refl, Text, Text-discrete, true, false, none, some, [], ◌∷◌,
  length, get_elem?, arith,
}
use congress.Dict.Base.{get}
use congress.Datalog.Schema.{
  Schema, Item, names, columns, column_names, by_name, by_position, column_number, update,
}
use congress.Datalog.Schema.Insertions.{IsCounted, Undone}
use congress.Datalog.Schema.Reverts.{update-Undone}
use congress.Datalog.Schema.Positions.{column_number_first}

abbrev servers : Schema
servers = record {
  tables = ((codes "servers"), names ((codes "id") ∷ (codes "name") ∷ [])) ∷ [];
  count = some (((codes "servers"), 1) ∷ []);
  complete = false;
}

servers-IsCounted : IsCounted servers
servers-IsCounted = record {
  counts = ((codes "servers"), 1) ∷ [];
  held = refl;
  known = λ t. unfold get in ground arith;
  positive = λ t. unfold get in ground arith;
}

abbrev flavors : Item
flavors = record { table = (codes "flavors"); width = 3; service = some (codes "nova") }

-- any names will do for new columns
abbrev col : ℕ → Text
col i = (codes "Col")

update-Undone_example : Undone servers servers-IsCounted.counts (update col flavors true servers)
update-Undone_example = update-Undone col flavors true servers servers-IsCounted

known_columns : columns servers (codes "servers") ≡ some ((codes "id") ∷ (codes "name") ∷ [])
unfolding columns column_names get Text-discrete
known_columns = refl

column_number_first_example :
    ((x : Text) (i : ℕ)
      → column_number servers (codes "servers") (by_name x) ≡ some i
      → (get_elem? ((codes "id") ∷ (codes "name") ∷ []) i ≡ some x)
        × ((j : ℕ) → j < i → get_elem? ((codes "id") ∷ (codes "name") ∷ []) j ≢ some x))
    × ((x : Text) (j : ℕ)
        → column_number servers (codes "servers") (by_name x) ≡ none
        → get_elem? ((codes "id") ∷ (codes "name") ∷ []) j ≢ some x)
    × ((n k : ℕ)
        → (column_number servers (codes "servers") (by_position n) ≡ some k)
          ↔ ((k ≡ n) × (n ≤ length {A = Text} ((codes "id") ∷ (codes "name") ∷ []))))
column_number_first_example =
    column_number_first servers (codes "servers") ((codes "id") ∷ (codes "name") ∷ []) known_columns
