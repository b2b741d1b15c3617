-- ===== src/Sets.antt =====
-- Python's `set` as a list read through a membership test: the program never depends on the order
-- in which a set of its own is iterated, nor do the theorems.
use congress.Prelude.{
  ℕ, suc, ◌+◌, ◌<◌, ◌≡◌, ◌↔◌, refl, ite, Bool, true, false, not, ◌&&◌, ◌||◌, List, [], ◌∷◌, ◌++◌,
  length, arith, if◌then◌else◌,
}

module _ {A : Type 0} (dec : Discrete A) where
  -- a in s
  unfoldable pub member : A → List A → Bool
  member a [] = false
  member a (x ∷ xs) = ite (dec x a) true (member a xs)

  -- s - t
  unfoldable pub minus : List A → List A → List A
  minus [] ys = []
  minus (x ∷ xs) ys = let rest = minus xs ys in if member x ys then rest else x ∷ rest

  -- s.add(a)
  unfoldable pub insert : A → List A → List A
  insert a xs = if member a xs then xs else xs ++ a ∷ []

  -- s.discard(a), s.remove(a)
  unfoldable pub discard : A → List A → List A
  discard a [] = []
  discard a (x ∷ xs) = let rest = discard a xs in ite (dec x a) rest (x ∷ rest)

  pub member-append : (a : A) (xs ys : List A) → member a (xs ++ ys) ≡ (member a xs || member a ys)
  unfolding member
  member-append a [] ys = refl
  member-append a (x ∷ xs) ys = ground (arith, member-append a xs ys)

  pub member-minus :
      (a : A) (xs ys : List A) → member a (minus xs ys) ≡ (member a xs && not (member a ys))
  unfolding member minus
  member-minus a [] ys = refl
  member-minus a (x ∷ xs) ys = ground (arith, member-minus a xs ys)

  pub member-insert :
      (a b : A) (xs : List A) → member b (insert a xs) ≡ ite (dec a b) true (member b xs)
  unfolding member insert
  member-insert a b xs = ground (arith, member-append b xs (a ∷ []))

  pub member-discard :
      (a b : A) (xs : List A) → member b (discard a xs) ≡ ite (dec a b) false (member b xs)
  unfolding member discard
  member-discard a b [] = ground arith
  member-discard a b (x ∷ xs) = ground (arith, member-discard a b xs)

  -- s | t
  unfoldable pub union : List A → List A → List A
  union xs [] = xs
  union xs (y ∷ ys) = union (insert y xs) ys

  -- s <= t
  unfoldable pub subset : List A → List A → Bool
  subset [] ys = true
  subset (x ∷ xs) ys = member x ys && subset xs ys

  -- how often an element stands in a list
  unfoldable pub count : A → List A → ℕ
  count a [] = 0
  count a (x ∷ xs) = ite (dec x a) 1 0 + count a xs

  -- l.remove(a), for an element that is there: its first place
  unfoldable pub remove_first : A → List A → List A
  remove_first a [] = []
  remove_first a (x ∷ xs) = let rest = remove_first a xs in ite (dec x a) xs (x ∷ rest)

  pub member-union :
      (a : A) (xs ys : List A) → member a (union xs ys) ≡ (member a xs || member a ys)
  unfolding member union
  member-union a xs [] = ground arith
  member-union a xs (y ∷ ys) = ground (arith, member-union a (insert y xs) ys, member-insert y a xs)

  pub subset_iff :
      (xs ys : List A) → (subset xs ys ≡ true) ↔ ((a : A) → member a xs ≡ true → member a ys ≡ true)
  unfolding member subset
  subset_iff xs ys = (sound xs, full xs)
    where
      sound :
          (xs : List A) → subset xs ys ≡ true → (a : A) → member a xs ≡ true → member a ys ≡ true
      sound [] h a m = cc
      sound (x ∷ xs) h a m = ground (arith, sound xs, sound xs (ground arith) a)

      full :
          (xs : List A) → ((a : A) → member a xs ≡ true → member a ys ≡ true) → subset xs ys ≡ true
      full [] h = refl
      full (x ∷ xs) h = ground (arith, h x, full xs (λ a m. h a (ground arith)))

  pub count-append : (a : A) (xs ys : List A) → count a (xs ++ ys) ≡ count a xs + count a ys
  unfolding count
  count-append a [] ys = omega arith
  count-append a (x ∷ xs) ys = omega (arith, count-append a xs ys)

  pub count-remove_first :
      (a b : A) (xs : List A)
      → member a xs ≡ true
      → count b (remove_first a xs) + ite (dec a b) 1 0 ≡ count b xs
  unfolding count member remove_first
  count-remove_first a b [] m = cc
  count-remove_first a b (x ∷ xs) m = ground (arith, count-remove_first a b xs)

  pub member-count : (a : A) (xs : List A) → (member a xs ≡ true) ↔ (0 < count a xs)
  unfolding count member
  member-count a [] = ground arith
  member-count a (x ∷ xs) = ground (arith, member-count a xs)

  pub length-remove_first :
      (a : A) (xs : List A) → member a xs ≡ true → suc (length (remove_first a xs)) ≡ length xs
  unfolding member remove_first
  length-remove_first a [] m = cc
  length-remove_first a (x ∷ xs) m = ground (arith, length-remove_first a xs)
