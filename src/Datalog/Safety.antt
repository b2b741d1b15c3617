-- ===== src/Datalog/Safety.antt =====
-- congress/datalog/compile.py: the checks that a fact or a rule must pass before it enters a theory.
-- An assertion on the kind of formula is part of a function's type, except that of `fact_errors`.
pub mod Checks
pub mod Fits
pub mod Accepted
use congress.Prelude.{
  ℕ, ◌+◌, leb, ltb, Text, Text-discrete, Bool, true, false, not, ◌&&◌, ◌||◌, Option, none, some,
  List, [], ◌∷◌, ◌++◌, map, length, take, is_some, codes, if◌then◌else◌,
}
use congress.Sets.{minus}
use congress.Datalog.Tablename.{text_eq}
use congress.Datalog.Builtins.{Registry, is_builtin, builtin}
use congress.Datalog.Formula.{
  Literal, Rule, heads, variables_in, variable_names, is_ground, names_of_all, is_atom,
}
use congress.Datalog.Reorder.{reorder}
use congress.Datalog.Consistency.{
  Theories, SyntaxError, fact_not_ground, builtin_name, fact_with_theory, unsafe_head_variable,
  modal_not_permitted, several_heads_with_modal, modal_in_body, head_with_theory, unsafe_body,
  literal_schema_consistency, check_schema_consistency,
}

-- `s.lower()`, as far as it matters to the comparison with a text of ASCII letters
abbrev pub lower : Text → Text
lower = map (λ c. if leb 65 c && ltb c 91 then c + 32 else c)

abbrev pub permitted_modals : List Text
permitted_modals = codes "execute" ∷ []

-- `s in l`
unfoldable pub one_of : Text → List Text → Bool
one_of s [] = false
one_of s (t ∷ ts) = text_eq s t || one_of s ts

-- a modal that is None or empty
abbrev pub has_text : Option Text → Bool
has_text none = false
has_text (some []) = false
has_text (some (c ∷ s)) = true

module _ {V F : Type 0} (registry : Registry F) where
  -- `Literal.is_builtin`
  unfoldable pub is_builtin_literal : Bool → Literal V → Bool
  is_builtin_literal check_arguments l =
      is_builtin l.table (if check_arguments then some (length l.arguments) else none) registry

  -- `built.num_inputs`, of a literal that is a builtin
  unfoldable pub num_inputs_of : Literal V → ℕ
  num_inputs_of l = elim (builtin l.table.table registry) [
    | none ↦ 0
    | some built ↦ built.num_inputs
  ]

  unfoldable pub target_vars : Literal V → Option (List Text)
  unfolding is_builtin_literal num_inputs_of variable_names
  target_vars l =
      if l.negated
      then some (variable_names l)
      else if is_builtin_literal true l
      then some (variables_in (take (num_inputs_of l) l.arguments))
      else none

  unfoldable pub keywords_safety : Literal V → List (SyntaxError V)
  unfolding is_builtin_literal
  keywords_safety l = if is_builtin_literal false l then builtin_name l ∷ [] else []

module _ {V : Type 0} where
  abbrev all_atoms : List (Literal V) → Bool
  all_atoms [] = true
  all_atoms (l ∷ ls) = is_atom l && all_atoms ls

  -- `is_rule` of a Rule, whose body is of literals
  abbrev pub is_rule : Rule V → Bool
  is_rule r = all_atoms (heads r)

  unfoldable pub fact_has_no_theory : Literal V → List (SyntaxError V)
  fact_has_no_theory l = if is_some l.table.service then fact_with_theory l ∷ [] else []

  unfoldable pub rule_head_safety : Rule V → List (SyntaxError V)
  unfolding names_of_all heads
  rule_head_safety r =
      map unsafe_head_variable (minus Text-discrete (names_of_all (heads r)) (names_of_all r.body))

  -- the loop over the heads
  unfoldable pub head_modals : List (Literal V) → List (SyntaxError V)
  unfolding one_of
  head_modals [] = []
  head_modals (l ∷ ls) =
      let rest = head_modals ls in
      elim l.table.modal [
        | none ↦ rest
        | some modal ↦
            if one_of (lower modal) permitted_modals then rest else modal_not_permitted l ∷ rest
      ]

  -- `modal_in_head`
  unfoldable pub modal_in_head : List (Literal V) → Bool
  modal_in_head [] = false
  modal_in_head (l ∷ ls) = is_some l.table.modal || modal_in_head ls

  unfoldable pub body_modals : List (Literal V) → List (SyntaxError V)
  body_modals [] = []
  body_modals (l ∷ ls) =
      let rest = body_modals ls in if has_text l.table.modal then modal_in_body l ∷ rest else rest

  unfoldable pub rule_modal_safety : Rule V → List (SyntaxError V)
  unfolding head_modals modal_in_head body_modals heads
  rule_modal_safety r =
      head_modals (heads r)
      ++ ((if modal_in_head (heads r) && ltb 1 (length (heads r))
            then several_heads_with_modal ∷ []
            else [])
          ++ body_modals r.body)

  -- the loop over the heads
  unfoldable pub heads_have_no_theory :
      Option (Literal V → Bool) → List (Literal V) → List (SyntaxError V)
  heads_have_no_theory permit_head [] = []
  heads_have_no_theory permit_head (l ∷ ls) =
      let rest = heads_have_no_theory permit_head ls in
      let permitted : Bool = elim permit_head [ none ↦ false | some permit ↦ permit l ] in
      if is_some l.table.service && (not (is_some l.table.modal) && not permitted)
      then head_with_theory l ∷ rest
      else rest

  unfoldable pub rule_head_has_no_theory : Option (Literal V → Bool) → Rule V → List (SyntaxError V)
  unfolding heads_have_no_theory heads
  rule_head_has_no_theory permit_head r = heads_have_no_theory permit_head (heads r)

module _ {V F : Type 0} (dec : Discrete (Literal V)) (registry : Registry F) where
  -- a rule that is to be put in order
  unfoldable pub reorder_rule : Rule V → Option (Rule V)
  unfolding target_vars variable_names
  reorder_rule r = elim (reorder dec variable_names (target_vars registry) r.body) [
    | none ↦ none
    | some new_body ↦ some (record r { body = new_body })
  ]

  -- `none` is a PolicyException
  unfoldable pub reorder_for_safety : Rule V → Option (Rule V)
  unfolding reorder_rule
  reorder_for_safety r = if is_rule r then reorder_rule r else some r

  -- the errors, and the rule, whose body is put in order on the way
  unfoldable pub rule_body_safety : Rule V → List (SyntaxError V) × Rule V
  unfolding reorder_for_safety
  rule_body_safety r = elim (reorder_for_safety r) [
    | none ↦ (unsafe_body ∷ [], r)
    | some r' ↦ ([], r')
  ]

  unfoldable pub rule_errors :
      Rule V → Option Theories → Option Text → List (SyntaxError V) × Rule V
  unfolding rule_head_safety rule_body_safety check_schema_consistency rule_head_has_no_theory
      rule_modal_safety keywords_safety
  rule_errors r theories theory =
      let (body_errors, r') = rule_body_safety r in
      (
        rule_head_safety r
            ++ (body_errors
                ++ (check_schema_consistency r' theories theory
                    ++ (rule_head_has_no_theory none r'
                        ++ (rule_modal_safety r' ++ keywords_safety registry r'.head)))),
        r',
      )

  -- `none` is an AssertionError
  unfoldable pub fact_errors :
      Literal V → Option Theories → Option Text → Option (List (SyntaxError V))
  unfolding is_ground literal_schema_consistency fact_has_no_theory keywords_safety
  fact_errors l theories theory =
      if is_atom l
      then some (
          (if is_ground l then [] else fact_not_ground l ∷ [])
          ++ (literal_schema_consistency l theories theory
              ++ (fact_has_no_theory l ++ keywords_safety registry l)))
      else none
