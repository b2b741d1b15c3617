-- ===== src/Datalog/Safety/Checks.antt =====
-- When each of the checks of a rule in compile.py finds no error.
use congress.Prelude.{
  ◌≡◌, refl, ap, inl, inr, Text, Text-discrete, Bool, true, false, Option, none, some, List, [],
  ◌∷◌, ◌++◌, map, arith, All, ◌↔◌, Bool-cases,
}
use congress.Sets.{member, minus, count, member-count, member-minus, member-union}
use congress.Datalog.Formula.{Literal, Rule, heads, variable_names, names_of_all}
use congress.Datalog.Reorder.State.{Within}
use congress.Datalog.Consistency.{
  Theories, unsafe_head_variable, literal_schema_consistency, all_consistency,
}
use congress.Datalog.Safety.{
  lower, permitted_modals, one_of, has_text, rule_head_safety, head_modals, modal_in_head,
  body_modals, heads_have_no_theory,
}

-- no modal, or a permitted one
abbrev pub is_permitted : Option Text → Bool
is_permitted none = true
is_permitted (some m) = one_of (lower m) permitted_modals

pub append_nil_iff {ℓ} : {A : Type ℓ} (xs ys : List A) → (xs ++ ys ≡ []) ↔ ((xs ≡ []) × (ys ≡ []))
append_nil_iff [] ys = ground arith
append_nil_iff (x ∷ xs) ys = ground arith

pub map-nil_iff {ℓ} : {A B : Type ℓ} (f : A → B) (xs : List A) → map f xs ≡ [] → xs ≡ []
map-nil_iff f [] h = refl
map-nil_iff f (x ∷ xs) h = absurd (cc)

module _ {V : Type 0} (dec : Discrete (Literal V)) where
  names_of_all-literal :
      (x : Text) (ls : List (Literal V))
      → member Text-discrete x (names_of_all ls) ≡ true
      → (l : Literal V) × (member dec l ls ≡ true)
        × (member Text-discrete x (variable_names l) ≡ true)
  unfolding names_of_all member
  names_of_all-literal x [] m = absurd (cc)
  names_of_all-literal x (l ∷ ls) m =
      elim (Bool-cases (member Text-discrete x (variable_names l))) [
        | inl e ↦ (l, ground arith, e)
        | inr e ↦
            let (y, n, v) =
              names_of_all-literal x ls (
                ground
                  (arith, member-union Text-discrete x (names_of_all ls) (variable_names l))) in
            (y, ground arith, v)
      ]

  literal-names_of_all :
      (x : Text) (l : Literal V) (ls : List (Literal V))
      → member dec l ls ≡ true
      → member Text-discrete x (variable_names l) ≡ true
      → member Text-discrete x (names_of_all ls) ≡ true
  unfolding names_of_all member
  literal-names_of_all x l [] m v = absurd (cc)
  literal-names_of_all x l (y ∷ ls) m v = elim (dec y l) [
    | yes p ↦
        let here : member Text-discrete x (variable_names y) ≡ true = rw p v in
        ground (arith, member-union Text-discrete x (names_of_all ls) (variable_names y))
    | no p ↦
        let there = literal-names_of_all x l ls (ground arith) v in
        ground (arith, member-union Text-discrete x (names_of_all ls) (variable_names y))
  ]

  -- the variables of a body do not depend on its order
  pub names_of_all-count :
      (old new : List (Literal V))
      → ((l : Literal V) → count dec l new ≡ count dec l old)
      → Within (names_of_all old) (names_of_all new)
  names_of_all-count old new same x m =
      let (l, n, v) = names_of_all-literal x old m in
      literal-names_of_all x l new
        (ground (arith, same l, member-count dec l old, member-count dec l new)) v

module _ {V : Type 0} where
  pub rule_head_safety_iff :
      (r : Rule V)
      → (rule_head_safety r ≡ []) ↔ Within (names_of_all (heads r)) (names_of_all r.body)
  unfolding rule_head_safety member
  rule_head_safety_iff r = (sound, full)
    where
      sound : rule_head_safety r ≡ [] → Within (names_of_all (heads r)) (names_of_all r.body)
      sound h x m =
          let nothing : member Text-discrete x
                (minus Text-discrete (names_of_all (heads r)) (names_of_all r.body))
              ≡ false =
            rw (map-nil_iff unsafe_head_variable _ h) (unfold member in refl) in
          ground
            (arith, member-minus Text-discrete x (names_of_all (heads r)) (names_of_all r.body))

      empty : (xs : List Text) → ((x : Text) → member Text-discrete x xs ≡ false) → xs ≡ []
      empty [] n = refl
      empty (x ∷ xs) n = absurd (ground (arith, n x))

      full : Within (names_of_all (heads r)) (names_of_all r.body) → rule_head_safety r ≡ []
      full w = ap (map unsafe_head_variable) (
          empty (minus Text-discrete (names_of_all (heads r)) (names_of_all r.body)) (λ x. ground (
            arith,
            w x,
            member-minus Text-discrete x (names_of_all (heads r)) (names_of_all r.body),
          )))

  pub head_modals_iff :
      (ls : List (Literal V))
      → (head_modals ls ≡ []) ↔ All (λ l. is_permitted l.table.modal ≡ true) ls
  unfolding head_modals
  head_modals_iff [] = (λ h. tt, λ a. refl)
  head_modals_iff (l ∷ ls) = ground (arith, head_modals_iff ls)

  pub modal_in_head_iff :
      (ls : List (Literal V)) → (modal_in_head ls ≡ false) ↔ All (λ l. l.table.modal ≡ none) ls
  unfolding modal_in_head
  modal_in_head_iff [] = (λ h. tt, λ a. refl)
  modal_in_head_iff (l ∷ ls) = ground (arith, modal_in_head_iff ls)

  pub body_modals_iff :
      (ls : List (Literal V)) → (body_modals ls ≡ []) ↔ All (λ l. has_text l.table.modal ≡ false) ls
  unfolding body_modals
  body_modals_iff [] = (λ h. tt, λ a. refl)
  body_modals_iff (l ∷ ls) = ground (arith, body_modals_iff ls)

  pub heads_have_no_theory_iff :
      (ls : List (Literal V))
      → (heads_have_no_theory none ls ≡ [])
        ↔ All (λ l. l.table.modal ≡ none → l.table.service ≡ none) ls
  unfolding heads_have_no_theory
  heads_have_no_theory_iff [] = (λ h. tt, λ a. refl)
  heads_have_no_theory_iff (l ∷ ls) = ground (arith, heads_have_no_theory_iff ls)

  pub all_consistency_iff :
      (ls : List (Literal V)) (theories : Option Theories) (theory : Option Text)
      → (all_consistency ls theories theory ≡ [])
        ↔ All (λ l. literal_schema_consistency l theories theory ≡ []) ls
  unfolding all_consistency
  all_consistency_iff [] theories theory = (λ h. tt, λ a. refl)
  all_consistency_iff (l ∷ ls) theories theory = ground (
    arith,
    all_consistency_iff ls theories theory,
    append_nil_iff (literal_schema_consistency l theories theory)
        (all_consistency ls theories theory),
  )
