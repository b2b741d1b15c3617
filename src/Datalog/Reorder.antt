-- ===== src/Datalog/Reorder.antt =====
-- congress/datalog/compile.py: `reorder_for_safety`, on the body of a rule. `names` are the
-- variables of a literal, `target` those that must be bound before it: none for a positive literal
-- that is no builtin.
pub mod State
pub mod Steps
pub mod Correct
use congress.Prelude.{
  ℕ, zero, suc, Text, Text-discrete, Bool, true, false, ◌&&◌, Option, none, some, List, [], ◌∷◌,
  ◌++◌, length, if◌then◌else◌,
}
use congress.Sets.{minus, union, subset, remove_first}
use congress.Dict.Base.{Dict, get, put}

-- the local variables of the function
pub record Reordering (L : Type 0) : Type 0 where
  pub safe_vars : List Text
  pub unsafe_literals : List L
  pub unsafe_variables : Dict L (List Text)
  pub new_body : List L

abbrev pub is_empty {ℓ} : {A : Type ℓ} → List A → Bool
is_empty [] = true
is_empty (x ∷ xs) = false

module _ {L : Type 0} (dec : Discrete L) (names : L → List Text) where
  unfoldable pub make_safe : L → Reordering L → Reordering L
  make_safe lit s = record s {
    safe_vars = union Text-discrete s.safe_vars (names lit);
    new_body = s.new_body ++ lit ∷ [];
  }

  -- `unsafe_variables[unsafe_lit] <= safe_vars`; an unsafe literal always has an entry
  unfoldable pub is_ready : Dict L (List Text) → List Text → L → Bool
  is_ready unsafe_variables safe_vars lit = elim (get dec unsafe_variables lit) [
    | none ↦ false
    | some vs ↦ subset Text-discrete vs safe_vars
  ]

  -- the first unsafe literal that has become safe
  unfoldable pub first_ready : Dict L (List Text) → List Text → List L → Option L
  first_ready unsafe_variables safe_vars [] = none
  first_ready unsafe_variables safe_vars (l ∷ ls) =
      let rest = first_ready unsafe_variables safe_vars ls in
      if is_ready unsafe_variables safe_vars l then some l else rest

  -- `while found_safe`: each round takes a literal off, so as many rounds as there are do
  unfoldable pub release : ℕ → Reordering L → Reordering L
  unfolding first_ready make_safe
  release zero s = s
  release (suc n) s = elim (first_ready s.unsafe_variables s.safe_vars s.unsafe_literals) [
    | none ↦ s
    | some l ↦
        release n
          (make_safe l (record s { unsafe_literals = remove_first dec l s.unsafe_literals }))
  ]

  unfoldable pub make_safe_plus : L → Reordering L → Reordering L
  unfolding release make_safe
  make_safe_plus lit s = let s' = make_safe lit s in release (length s'.unsafe_literals) s'

  unfoldable pub postpone : L → List Text → Reordering L → Reordering L
  postpone lit vars s = record s {
    unsafe_literals = s.unsafe_literals ++ lit ∷ [];
    unsafe_variables = put dec s.unsafe_variables lit vars;
  }

  module _ (target : L → Option (List Text)) where
    -- the loop's body, for one literal
    unfoldable pub place : L → Reordering L → Reordering L
    unfolding make_safe_plus postpone
    place lit s = elim (target lit) [
      | none ↦ make_safe_plus lit s
      | some target_vars ↦
          let new_unsafe_vars = minus Text-discrete target_vars s.safe_vars in
          if is_empty new_unsafe_vars then make_safe_plus lit s else postpone lit new_unsafe_vars s
    ]

    unfoldable pub place_all : List L → Reordering L → Reordering L
    unfolding place
    place_all [] s = s
    place_all (l ∷ ls) s = place_all ls (place l s)

    -- the new body; `none` is a PolicyException
    unfoldable pub reorder : List L → Option (List L)
    unfolding place_all
    reorder body =
        let s =
          place_all body (record {
            safe_vars = [];
            unsafe_literals = [];
            unsafe_variables = [];
            new_body = [];
          }) in
        if is_empty s.unsafe_literals then some s.new_body else none
