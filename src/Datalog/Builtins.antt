-- ===== src/Datalog/Builtins.antt =====
-- congress/datalog/builtin.py: `CongressBuiltinCategoryMap`, the registry of builtins. A predicate's
-- `code` is a value of any type `F`, which the registry only stores. `remove` of a list compares the
-- predicate objects by identity: `ident` is the object's identity, and `created` how many objects
-- the registry has made. The start map, which is data, is added to an empty registry by `add_map`.
pub mod Registered
pub mod Maps
pub mod Categories
pub mod Kept
use congress.Prelude.{
  ℕ, zero, suc, ◌+◌, ◌==◌, Text, Text-discrete, Bool, true, false, ◌&&◌, ◌||◌, Option, none, some,
  List, [], ◌∷◌, ◌++◌, length, get_or, get_elem?, ◌>>=◌, if◌then◌else◌, codes,
}
use congress.Dict.Base.{Dict, get, put, remove, has}
use congress.Datalog.Tablename.{Tablename, text_eq, opt_eq}

pub record BuiltinPred (F : Type 0) : Type 0 where
  pub ident : ℕ
  pub predname : Text
  pub predargs : List Text
  pub num_inputs : ℕ
  pub code : F

-- the dict of an entry of a map: `func` is such as "plus(x,y,z)"
pub record PredTriple (F : Type 0) : Type 0 where
  pub func : Text
  pub inputs : ℕ
  pub run : F

pub record Registry (F : Type 0) : Type 0 where
  pub categorydict : Dict Text (List (BuiltinPred F))
  pub preddict : Dict Text (BuiltinPred F × Text)
  pub created : ℕ

-- the text "builtin"
abbrev pub builtin_namespace : Text
builtin_namespace = codes "builtin"

abbrev pub open_paren : ℕ
open_paren = 40

abbrev pub close_paren : ℕ
close_paren = 41

abbrev pub comma : ℕ
comma = 44

-- the first piece of `s.split(sep)` takes one more character
abbrev pub extend : ℕ → List Text → List Text
extend c [] = (c ∷ []) ∷ []
extend c (p ∷ ps) = (c ∷ p) ∷ ps

-- `s.split(sep)` for one character
unfoldable pub split_on : ℕ → Text → List Text
split_on sep [] = [] ∷ []
split_on sep (c ∷ s) = let rest = split_on sep s in if c == sep then [] ∷ rest else extend c rest

-- `s.split(sep)[n]`; `none` is an IndexError
unfoldable pub piece : ℕ → ℕ → Text → Option Text
unfolding split_on
piece sep n s = get_elem? (split_on sep s) n

module _ {F : Type 0} where
  -- `none` is an IndexError
  unfoldable pub dict_predtriple_to_pred : ℕ → PredTriple F → Option (BuiltinPred F)
  unfolding piece split_on
  dict_predtriple_to_pred fresh t = do
    nfunc_pred ← piece open_paren 0 t.func
    behind ← piece open_paren 1 t.func
    arguments ← piece close_paren 0 behind
    some (record {
      ident = fresh;
      predname = nfunc_pred;
      predargs = split_on comma arguments;
      num_inputs = t.inputs;
      code = t.run;
    })

  -- `sync_with_predlist` with 'add' and with 'del'
  unfoldable pub sync_add : BuiltinPred F → Text → Registry F → Registry F
  sync_add pred category r = record r {
    preddict = put Text-discrete r.preddict pred.predname (pred, category);
  }

  unfoldable pub sync_del : Text → Registry F → Registry F
  sync_del predname r = record r { preddict = remove Text-discrete r.preddict predname }

  -- `l.remove(pred)`; `none` is a ValueError
  unfoldable pub remove_pred : BuiltinPred F → List (BuiltinPred F) → Option (List (BuiltinPred F))
  remove_pred pred [] = none
  remove_pred pred (p ∷ ps) =
      let rest = remove_pred pred ps in
      if p.ident == pred.ident then some ps else elim rest [ none ↦ none | some qs ↦ some (p ∷ qs) ]

  unfoldable pub builtin_is_registered : BuiltinPred F → Registry F → Bool
  builtin_is_registered pred r = elim (get Text-discrete r.preddict pred.predname) [
    | none ↦ false
    | some found ↦ found.0.num_inputs == pred.num_inputs
  ]

  abbrev pub append_pred : Text → BuiltinPred F → Registry F → Registry F
  append_pred key pred r = record r {
    categorydict =
        put Text-discrete r.categorydict key
          (get_or (get Text-discrete r.categorydict key) [] ++ pred ∷ []);
  }

  -- the loop of `add_map` over the triples of a category; `none` is an IndexError
  unfoldable pub add_triples : Text → List (PredTriple F) → Registry F → Option (Registry F)
  unfolding dict_predtriple_to_pred sync_add builtin_is_registered
  add_triples key [] r = some r
  add_triples key (t ∷ ts) r = elim (dict_predtriple_to_pred r.created t) [
    | none ↦ none
    | some pred ↦
        let r' = record r { created = r.created + 1 } in
        add_triples key ts (
          if builtin_is_registered pred r' then r' else sync_add pred key (append_pred key pred r'))
  ]

  unfoldable pub insert_category : Text → Registry F → Registry F
  insert_category category r = record r {
    categorydict = put Text-discrete r.categorydict category [];
  }

  unfoldable pub exists_category : Text → Registry F → Bool
  exists_category category r = has Text-discrete r.categorydict category

  unfoldable pub add_map : Dict Text (List (PredTriple F)) → Registry F → Option (Registry F)
  unfolding add_triples insert_category exists_category
  add_map [] r = some r
  add_map ((key, value) ∷ newmap) r = do
    r' ← add_triples key value (if exists_category key r then r else insert_category key r)
    add_map newmap r'

  -- The loop of `delete_builtin`, from position `i` on: `remove` shifts what follows, so that the
  -- predicate behind a removed one is not visited. Each round goes to the next position, so as
  -- many rounds as there are predicates do.
  unfoldable pub delete_from : ℕ → ℕ → Text → Text → ℕ → Registry F → Option (Registry F)
  unfolding remove_pred sync_del
  delete_from zero i category name inputs r = some r
  delete_from (suc rounds) i category name inputs r =
      let preds = get_or (get Text-discrete r.categorydict category) [] in
      elim (get_elem? preds i) [
        | none ↦ some r
        | some pred ↦ elim (pred.num_inputs == inputs && text_eq pred.predname name) [
          | false ↦ delete_from rounds (i + 1) category name inputs r
          | true ↦ elim (remove_pred pred preds) [
            | none ↦ none
            | some left ↦ delete_from rounds (i + 1) category name inputs (
                sync_del name
                  (record r { categorydict = put Text-discrete r.categorydict category left }))
          ]
        ]
      ]

  unfoldable pub delete_builtin : Text → Text → ℕ → Registry F → Option (Registry F)
  unfolding delete_from insert_category exists_category
  delete_builtin category name inputs r =
      let r' = if exists_category category r then r else insert_category category r in
      delete_from (length (get_or (get Text-discrete r'.categorydict category) [])) 0 category name
        inputs r'

  -- the inner loop of `delete_map` and the test behind it; `none` is a KeyError
  unfoldable pub delete_triples : Text → List (PredTriple F) → Registry F → Option (Registry F)
  unfolding dict_predtriple_to_pred delete_from
  delete_triples key [] r = some r
  delete_triples key (t ∷ ts) r = do
    pred ← dict_predtriple_to_pred r.created t
    preds ← get Text-discrete r.categorydict key
    r' ←
        delete_from (length preds) 0 key pred.predname pred.num_inputs
          (record r { created = r.created + 1 })
    left ← get Text-discrete r'.categorydict key
    delete_triples key ts (elim left [
      | [] ↦ record r' { categorydict = remove Text-discrete r'.categorydict key }
      | p ∷ ps ↦ r'
    ])

  unfoldable pub delete_map : Dict Text (List (PredTriple F)) → Registry F → Option (Registry F)
  unfolding delete_triples
  delete_map [] r = some r
  delete_map ((key, value) ∷ newmap) r = do r' ← delete_triples key value r; delete_map newmap r'

  unfoldable pub get_category_name : Text → ℕ → Registry F → Option Text
  get_category_name predname predinputs r = elim (get Text-discrete r.preddict predname) [
    | none ↦ none
    | some found ↦ if found.0.num_inputs == predinputs then some found.1 else none
  ]

  unfoldable pub sync_del_all : List (BuiltinPred F) → Registry F → Registry F
  unfolding sync_del
  sync_del_all [] r = r
  sync_del_all (p ∷ ps) r = sync_del_all ps (sync_del p.predname r)

  unfoldable pub delete_category : Text → Registry F → Registry F
  unfolding sync_del_all
  delete_category category r = elim (get Text-discrete r.categorydict category) [
    | none ↦ r
    | some preds ↦
        let r' = sync_del_all preds r in
        record r' { categorydict = remove Text-discrete r'.categorydict category }
  ]

  unfoldable pub insert_to_category : Text → BuiltinPred F → Registry F → Registry F
  unfolding sync_add
  insert_to_category category pred r = elim (get Text-discrete r.categorydict category) [
    | none ↦ r
    | some preds ↦
        sync_add pred category (record r {
          categorydict = put Text-discrete r.categorydict category (preds ++ pred ∷ []);
        })
  ]

  -- `none` is a ValueError
  unfoldable pub delete_from_category : Text → BuiltinPred F → Registry F → Option (Registry F)
  unfolding remove_pred sync_del
  delete_from_category category pred r = elim (get Text-discrete r.categorydict category) [
    | none ↦ some r
    | some preds ↦ elim (remove_pred pred preds) [
      | none ↦ none
      | some left ↦ some (
          sync_del pred.predname
            (record r { categorydict = put Text-discrete r.categorydict category left }))
    ]
  ]

  unfoldable pub delete_all_in_category : Text → Registry F → Registry F
  unfolding sync_del_all
  delete_all_in_category category r = elim (get Text-discrete r.categorydict category) [
    | none ↦ r
    | some preds ↦
        let r' = sync_del_all preds r in
        record r' { categorydict = put Text-discrete r'.categorydict category [] }
  ]

  -- an arity of 0 counts as none given
  unfoldable pub is_builtin : Tablename → Option ℕ → Registry F → Bool
  is_builtin t arity r =
      if (opt_eq t.service (some builtin_namespace) && has Text-discrete r.preddict t.table)
        || has Text-discrete r.preddict t.table
      then elim arity [
        | none ↦ true
        | some n ↦ n == 0 || elim (get Text-discrete r.preddict t.table) [
          | none ↦ false
          | some found ↦ length found.0.predargs == n
        ]
      ]
      else false

  unfoldable pub builtin : Text → Registry F → Option (BuiltinPred F)
  builtin t r = elim (get Text-discrete r.preddict t) [ none ↦ none | some found ↦ some found.0 ]
