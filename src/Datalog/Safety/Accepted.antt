-- ===== src/Datalog/Safety/Accepted.antt =====
-- The rules that `rule_errors` of compile.py accepts.
use congress.Prelude.{◌≡◌, ◌⊎◌, Text, true, false, Option, none, some, List, [], ◌∷◌, ◌++◌, All}
use congress.Datalog.Safety.Fits.{Fits}
use congress.Datalog.Builtins.{Registry}
use congress.Datalog.Formula.{Literal, Rule, heads, variable_names, names_of_all}
use congress.Datalog.Safety.Checks.{is_permitted}
use congress.Datalog.Reorder.State.{Within, IsSafe}
use congress.Datalog.Consistency.{Theories, SyntaxError, unsafe_body, check_schema_consistency}
use congress.Datalog.Safety.{
  is_rule, has_text, is_builtin_literal, target_vars, keywords_safety, rule_modal_safety,
  rule_head_has_no_theory,
}

module _ {V F : Type 0} (dec : Discrete (Literal V)) (registry : Registry F) where
  -- A rule in whose body all that a literal needs is bound before it, if its heads are positive, whose heads have no variable
  -- of their own, and that keeps the restrictions on theories, modals, builtins and schemas.
  pub record IsAccepted (theories : Option Theories) (theory : Option Text) (r : Rule V)
      : Type 0 where
    pub safe : is_rule r ≡ true → IsSafe dec variable_names (target_vars registry) [] r.body
    pub range : Within (names_of_all (heads r)) (names_of_all r.body)
    pub heads_fit : All (λ l. Fits l theories theory) (heads r)
    pub body_fits : All (λ l. Fits l theories theory) r.body
    pub own_heads : All (λ l. l.table.modal ≡ none → l.table.service ≡ none) (heads r)
    pub modals : All (λ l. is_permitted l.table.modal ≡ true) (heads r)
    pub one_head : (r.more_heads ≡ []) ⊎ All (λ l. l.table.modal ≡ none) (heads r)
    pub plain_body : All (λ l. has_text l.table.modal ≡ false) r.body
    pub no_builtin : is_builtin_literal registry false r.head ≡ false

  abbrev rest_errors : Rule V → Option Theories → Option Text → List (SyntaxError V)
  rest_errors r theories theory =
      check_schema_consistency r theories theory
      ++ (rule_head_has_no_theory none r
          ++ (rule_modal_safety r ++ keywords_safety registry r.head))

  -- what `rule_body_safety` makes of the result of the reordering
  abbrev safety_of : Rule V → Option (List (Literal V)) → List (SyntaxError V) × Rule V
  safety_of r result =
      let reordered : Option (Rule V) = elim result [
        | none ↦ none
        | some body ↦ some (record r { body = body })
      ] in
      elim reordered [ none ↦ (unsafe_body ∷ [], r) | some r' ↦ ([], r') ]
