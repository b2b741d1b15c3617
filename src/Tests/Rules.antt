-- ===== src/Tests/Rules.antt =====
-- The checks and the reordering of rules of congress/datalog/compile.py at concrete inputs.
use congress.Dict.Base.{put, get}
use congress.Prelude.{
  ℕ, ℕ_discrete, Text, Text-discrete, ◌≡◌, refl, Bool, true, false, none, some, List, [], ◌∷◌,
  codes,
}
use congress.Sets.{member, union, minus, insert, count, remove_first, subset}
use congress.Datalog.Tablename.{Tablename, opt_eq}
use congress.Datalog.Builtins.{Registry, BuiltinPred, builtin, is_builtin}
use congress.Datalog.Formula.{Term, variable, Literal, Rule, variable_names, is_atom}
use congress.Datalog.Reorder.State.{IsSafe}
use congress.Datalog.Reorder.{reorder, is_ready}
use congress.Datalog.Reorder.Correct.{reorder-IsSafe}
use congress.Datalog.Safety.{target_vars, rule_errors}

Literal-discrete : Discrete (Literal ℕ)
unfolding ℕ_discrete
Literal-discrete = hlevel (ℕ_discrete)

abbrev table : Text → Tablename
table t = record { service = none; table = t; modal = none }

abbrev literal : Bool → Text → List (Term ℕ) → Literal ℕ
literal negated t ts = record {
  table = table t;
  arguments = ts;
  negated = negated;
  named_arguments = [];
}

abbrev x : Term ℕ
x = variable (codes "x")

abbrev y : Term ℕ
y = variable (codes "y")

-- lt(x, y), a builtin of two inputs
abbrev lt_pred : BuiltinPred ℕ
lt_pred = record {
  ident = 0;
  predname = codes "lt";
  predargs = codes "x" ∷ codes "y" ∷ [];
  num_inputs = 2;
  code = 0;
}

abbrev registry : Registry ℕ
registry = record {
  categorydict = (codes "comparison", lt_pred ∷ []) ∷ [];
  preddict = (codes "lt", (lt_pred, codes "comparison")) ∷ [];
  created = 1;
}

abbrev lt_xy : Literal ℕ
lt_xy = literal false (codes "lt") (x ∷ y ∷ [])

abbrev not_r : Literal ℕ
not_r = literal true (codes "r") (y ∷ [])

abbrev q_x : Literal ℕ
q_x = literal false (codes "q") (x ∷ [])

abbrev s_y : Literal ℕ
s_y = literal false (codes "s") (y ∷ [])

-- p(x) :- lt(x, y), not r(y), q(x), s(y)
abbrev unordered : List (Literal ℕ)
unordered = lt_xy ∷ not_r ∷ q_x ∷ s_y ∷ []

abbrev ordered : List (Literal ℕ)
ordered = q_x ∷ s_y ∷ lt_xy ∷ not_r ∷ []

abbrev rule : List (Literal ℕ) → Rule ℕ
rule body = record { head = literal false (codes "p") (x ∷ []); more_heads = []; body = body }

moved : reorder Literal-discrete variable_names (target_vars registry) unordered ≡ some ordered
unfolding reorder target_vars Literal-discrete is_builtin opt_eq get Text-discrete minus insert
    member builtin is_ready put subset union remove_first
moved = refl

unbound : reorder Literal-discrete variable_names (target_vars registry) (not_r ∷ q_x ∷ []) ≡ none
unfolding reorder target_vars Literal-discrete is_builtin opt_eq get Text-discrete minus insert
    member is_ready put subset union
unbound = refl

accepted : rule_errors Literal-discrete registry (rule unordered) none none ≡ ([], rule ordered)
unfolding rule_errors Literal-discrete minus union insert member Text-discrete reorder is_builtin
    opt_eq get builtin is_ready put subset remove_first is_atom
accepted = refl

reorder-IsSafe_example :
    ((new : List (Literal ℕ))
      → reorder Literal-discrete variable_names (target_vars registry) unordered ≡ some new
      → ((l : Literal ℕ) → count Literal-discrete l new ≡ count Literal-discrete l unordered)
        × IsSafe Literal-discrete variable_names (target_vars registry) [] new)
    × (reorder Literal-discrete variable_names (target_vars registry) unordered ≡ none
        → (other : List (Literal ℕ))
        → ((l : Literal ℕ) → count Literal-discrete l other ≡ count Literal-discrete l unordered)
        → ¬ IsSafe Literal-discrete variable_names (target_vars registry) [] other)
    × (IsSafe Literal-discrete variable_names (target_vars registry) [] unordered
        → reorder Literal-discrete variable_names (target_vars registry) unordered ≡ some unordered)
reorder-IsSafe_example =
    reorder-IsSafe Literal-discrete variable_names (target_vars registry) unordered
