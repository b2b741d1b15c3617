-- ===== src/Prelude/Elements.antt =====
-- Indexing a list by a native number, and equality of lists as a decision.
use Prim.Native.Nat.{ℕ, zero, suc}
use mathlib.Core.Path.{◌≡◌, refl, ap₂}
use mathlib.Core.Logic.{◌≢◌}
use mathlib.Core.Option.{Option, none, some}
use mathlib.Core.List.{List, [], ◌∷◌}

module _ {ℓ} {A : Type ℓ} where
  abbrev pub get_elem? : List A → ℕ → Option A
  get_elem? [] i = none
  get_elem? (x ∷ xs) zero = some x
  get_elem? (x ∷ xs) (suc i) = get_elem? xs i

  nil-ne-cons : (x : A) (xs : List A) → [] ≢ x ∷ xs
  nil-ne-cons x xs e = cc

  cons-ne-nil : (x : A) (xs : List A) → x ∷ xs ≢ []
  cons-ne-nil x xs e = cc

  head_eq : (x y : A) (xs ys : List A) → x ∷ xs ≡ y ∷ ys → x ≡ y
  head_eq x y xs ys e = cc

  tail_eq : (x y : A) (xs ys : List A) → x ∷ xs ≡ y ∷ ys → xs ≡ ys
  tail_eq x y xs ys e = cc

  unfoldable pub List-discrete : Discrete A → Discrete (List A)
  unfolding nil-ne-cons cons-ne-nil head_eq tail_eq
  List-discrete dec [] [] = yes refl
  List-discrete dec [] (y ∷ ys) = no (nil-ne-cons y ys)
  List-discrete dec (x ∷ xs) [] = no (cons-ne-nil x xs)
  List-discrete dec (x ∷ xs) (y ∷ ys) =
      let rest = List-discrete dec xs ys in
      elim (dec x y) [
        | yes p ↦ elim rest [ yes q ↦ yes (ap₂ ◌∷◌ p q) | no q ↦ no (λ e. q (tail_eq x y xs ys e)) ]
        | no p ↦ no (λ e. p (head_eq x y xs ys e))
      ]
