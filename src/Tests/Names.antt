-- ===== src/Tests/Names.antt =====
-- `Tablename` of congress/datalog/compile.py at concrete inputs.
use congress.Prelude.{Text, ◌≡◌, ◌≢◌, refl, Bool, true, not, none, some, [], ◌∷◌, All, arith}
use congress.Datalog.Tablename.{
  colon, Tablename, split, join, parse_service_table, build_service_table, create_from_tablename,
  global_tablename, is_update, make_update, drop_update, invert_update,
}
use congress.Datalog.Tablename.Names.{parse_service_table_roundtrip}
use congress.Datalog.Tablename.Updates.{make_update_laws}

-- the characters n, o, v, a
abbrev nova : Text
nova = 110 ∷ 111 ∷ 118 ∷ 97 ∷ []

-- the table a:b, and the name nova:a:b
abbrev table : Text
table = 97 ∷ colon ∷ 98 ∷ []

abbrev full : Text
full = 110 ∷ 111 ∷ 118 ∷ 97 ∷ colon ∷ table

no_colon : All (λ c. c ≢ colon) nova
no_colon = (omega arith, (omega arith, (omega arith, (omega arith, tt))))

parse_service_table_roundtrip_example :
    (global_tablename none (create_from_tablename full none true) ≡ full)
    × (parse_service_table (build_service_table nova table) ≡ (some nova, table))
parse_service_table_roundtrip_example = parse_service_table_roundtrip full nova table no_colon

parsed : parse_service_table full ≡ (some nova, table)
unfolding parse_service_table split join
parsed = refl

abbrev qualified : Tablename
qualified = record { service = some nova; table = table; modal = none }

abbrev unqualified : Tablename
unqualified = record { service = none; table = table; modal = none }

make_update_laws_example :
    (is_update (make_update true qualified).0 ≡ true)
    × (drop_update (make_update true qualified).0 ≡ (qualified, true))
    × (invert_update (make_update true qualified).0 ≡ make_update (not true) qualified)
    × (is_update qualified ≡ true
        → (b : Bool) × ((make_update b (drop_update qualified).0).0 ≡ qualified))
    × ((invert_update (invert_update qualified).0).0 ≡ qualified)
make_update_laws_example = make_update_laws true qualified
