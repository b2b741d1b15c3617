-- ===== src/Datalog/Tablename.antt =====
-- congress/datalog/compile.py: `Tablename`, a table's name with the service and the modal that
-- qualify it. A text is the list of its characters' codes. The setters change no other object,
-- since every copy is a new value.
pub mod Names
pub mod Updates
use congress.Prelude.{
  Text, Text-discrete, ℕ, ◌==◌, ◌&&◌, ◌||◌, Bool, true, false, Option, none, some, List, [], ◌∷◌,
  ◌++◌, ite, if◌then◌else◌, ℕ_discrete, List-discrete,
}

abbrev pub colon : ℕ
colon = 58

abbrev pub plus_sign : ℕ
plus_sign = 43

abbrev pub minus_sign : ℕ
minus_sign = 45

pub record Tablename : Type 0 where
  pub service : Option Text
  pub table : Text
  pub modal : Option Text

unfoldable pub text_eq : Text → Text → Bool
text_eq s t = ite (Text-discrete s t) true false

unfoldable pub opt_eq : Option Text → Option Text → Bool
opt_eq none none = true
opt_eq none (some t) = false
opt_eq (some s) none = false
opt_eq (some s) (some t) = text_eq s t

-- the first piece of `s.split(':')` takes one more character
abbrev pub grow : ℕ → List Text → List Text
grow c [] = (c ∷ []) ∷ []
grow c (p ∷ ps) = (c ∷ p) ∷ ps

-- `s.split(':')`
unfoldable pub split : Text → List Text
split [] = [] ∷ []
split (c ∷ s) = let rest = split s in if c == colon then [] ∷ rest else grow c rest

-- `':'.join(pieces)`
unfoldable pub join : List Text → Text
join [] = []
join (p ∷ []) = p
join (p ∷ q ∷ ps) = p ++ colon ∷ join (q ∷ ps)

abbrev pub service_and_table : List Text → Option Text × Text
service_and_table [] = (none, [])
service_and_table (p ∷ []) = (none, p)
service_and_table (p ∷ q ∷ ps) = (some p, join (q ∷ ps))

unfoldable pub parse_service_table : Text → Option Text × Text
parse_service_table tablename = service_and_table (split tablename)

unfoldable pub build_service_table : Text → Text → Text
build_service_table service table = service ++ colon ∷ table

unfoldable pub create_from_tablename : Text → Option Text → Bool → Tablename
create_from_tablename tablename (some service) use_modules = record {
  service = some service;
  table = tablename;
  modal = none;
}
create_from_tablename tablename none false = record {
  service = none;
  table = tablename;
  modal = none;
}
create_from_tablename tablename none true =
    let (service, table) = parse_service_table tablename in
    record { service = service; table = table; modal = none }

abbrev pub add_piece : Option Text → List Text → List Text
add_piece none ps = ps
add_piece (some p) ps = p ∷ ps

unfoldable pub global_tablename : Option Text → Tablename → Text
global_tablename prefix t = join (add_piece prefix (add_piece t.service (t.table ∷ [])))

unfoldable pub matches : Option Text → Text → Option Text → Tablename → Bool
matches service table modal t =
    let (self_service, self_table) = parse_service_table t.table in
    (opt_eq service t.service && (text_eq table t.table && opt_eq modal t.modal))
    || (opt_eq service self_service && (text_eq table self_table && opt_eq modal t.modal))

-- `service or default_service`: an empty text counts as missing
unfoldable pub or_default : Option Text → Option Text → Option Text
or_default none d = d
or_default (some []) d = d
or_default (some (c ∷ s)) d = some (c ∷ s)

unfoldable pub same : Tablename → Option Text → Tablename → Bool
same other default_service t =
    text_eq t.table other.table
    && (opt_eq t.modal other.modal
        && opt_eq (or_default t.service default_service) (or_default other.service default_service))

unfoldable pub name : Option Text → Tablename → Text
name default_service t = elim (or_default t.service default_service) [
  | none ↦ t.table
  | some service ↦ service ++ colon ∷ t.table
]

-- `s.endswith(c)` for one character
unfoldable pub ends_with : ℕ → Text → Bool
ends_with c [] = false
ends_with c (x ∷ []) = x == c
ends_with c (x ∷ y ∷ s) = ends_with c (y ∷ s)

-- `s[:-1]`
unfoldable pub drop_last : Text → Text
drop_last [] = []
drop_last (x ∷ []) = []
drop_last (x ∷ y ∷ s) = x ∷ drop_last (y ∷ s)

-- the result is whether there was a change
unfoldable pub invert_update : Tablename → Tablename × Bool
invert_update t =
    if ends_with plus_sign t.table
    then (record t { table = drop_last t.table ++ minus_sign ∷ [] }, true)
    else if ends_with minus_sign t.table
    then (record t { table = drop_last t.table ++ plus_sign ∷ [] }, true)
    else (t, false)

unfoldable pub drop_update : Tablename → Tablename × Bool
drop_update t =
    if ends_with plus_sign t.table || ends_with minus_sign t.table
    then (record t { table = drop_last t.table }, true)
    else (t, false)

unfoldable pub make_update : Bool → Tablename → Tablename × Bool
make_update is_insert t =
    (record t { table = t.table ++ (if is_insert then plus_sign else minus_sign) ∷ [] }, true)

unfoldable pub is_update : Tablename → Bool
is_update t = ends_with plus_sign t.table || ends_with minus_sign t.table

unfoldable pub drop_service : Tablename → Tablename
drop_service t = record t { service = none }
