-- ===== src/Datalog/ModalIndex/Counts.antt =====
-- The reference counts of analysis.py under each operation of `ModalIndex`.
use congress.Prelude.{
  ℕ, ◌+◌, ◌-◌, ◌≡◌, ◌≢◌, ◌↔◌, ◌∙◌, ite, Text, Bool, false, none, some, [], ◌∷◌, get_or,
  if◌then◌else◌, arith, Option-cases, inl, inr,
}
use congress.Dict.Base.{Dict, get, put, remove, get-put, get-remove}
use congress.Dict.Nested.{get2, put2, remove2, get2-put2, get2-remove2}
use congress.Datalog.ModalIndex.{ModalIndex, dec, add, spent, drop_empty, clean_up, remove_one}

unfoldable pub count : ModalIndex → Text → Text → ℕ
count index m t = get_or (get2 dec dec index m t) 0

-- No count is 0, and no modal is left without tables.
pub record IsClean (index : ModalIndex) : Type 0 where
  pub counted : (m t : Text) → get2 dec dec index m t ≢ some 0
  pub occupied : (m : Text) → get dec index m ≢ some []

module _ {C : Type 0} where
  get2-drop_empty :
      (index : Dict Text (Dict Text C)) (m p t : Text)
      → get2 dec dec (drop_empty index m) p t ≡ get2 dec dec index p t
  unfolding drop_empty get2
  get2-drop_empty index m p t = elim (Option-cases (get dec index m)) [
    | inl e ↦ ground (arith, get-remove dec index m p)
    | inr ([], e) ↦ unfold get in ground (arith, get-remove dec index m p)
    | inr (x ∷ d, e) ↦ ground arith
  ]

  get-drop_empty :
      (index : Dict Text (Dict Text C)) (m p : Text)
      → ((q : Text) → q ≢ m → get dec index q ≢ some [])
      → get dec (drop_empty index m) p ≢ some []
  unfolding drop_empty
  get-drop_empty index m p h = elim (Option-cases (get dec index m)) [
    | inl e ↦ ground (arith, get-remove dec index m p, h p)
    | inr ([], e) ↦ ground (arith, get-remove dec index m p, h p)
    | inr (x ∷ d, e) ↦ ground (arith, h p)
  ]

  pub get2-clean_up :
      (is_spent : C → Bool) (index : Dict Text (Dict Text C)) (m t p u : Text)
      → get2 dec dec (clean_up is_spent index m t) p u ≡ (
          if elim (get2 dec dec index m t) [ none ↦ false | some n ↦ is_spent n ]
          then ite (dec m p) (ite (dec t u) none (get2 dec dec index p u)) (get2 dec dec index p u)
          else get2 dec dec index p u)
  unfolding clean_up
  get2-clean_up is_spent index m t p u =
      get2-drop_empty
        (if elim (get2 dec dec index m t) [ none ↦ false | some n ↦ is_spent n ]
          then remove2 dec dec index m t
          else index)
        m p u
      ∙ ground (arith, get2-remove2 dec dec index m t p u)

-- a modal that `put2` or `remove2` does not name keeps its tables
get-put2_ne :
    (index : ModalIndex) (m t : Text) (n : ℕ) (q : Text)
    → q ≢ m
    → get dec (put2 dec dec index m t n) q ≡ get dec index q
unfolding put2
get-put2_ne index m t n q h =
    ground (arith, get-put dec index m q (put dec (get_or (get dec index m) []) t n))

get-remove2_ne :
    (index : ModalIndex) (m t q : Text)
    → q ≢ m
    → get dec (remove2 dec dec index m t) q ≡ get dec index q
unfolding remove2
get-remove2_ne index m t q h = elim (Option-cases (get dec index m)) [
  | inl e ↦ ground arith
  | inr (d, e) ↦ ground (arith, get-put dec index m q (remove dec d t))
]

-- only the entry that is cleaned up may hold 0, only its modal may be empty
clean_up-IsClean :
    (index : ModalIndex) (m t : Text)
    → ((p u : Text) → get2 dec dec index p u ≡ some 0 → (p ≡ m) × (u ≡ t))
    → ((q : Text) → q ≢ m → get dec index q ≢ some [])
    → IsClean (clean_up spent index m t)
clean_up-IsClean index m t zeros full = record {
  counted = λ p u. ground (arith, get2-clean_up spent index m t p u, zeros p u);
  occupied = λ q.
      unfold clean_up in
      get-drop_empty
        (if elim (get2 dec dec index m t) [ none ↦ false | some n ↦ spent n ]
          then remove2 dec dec index m t
          else index)
        m q (λ r ne. ground (arith, get-remove2_ne index m t r ne, full r));
}

count-add :
    (index : ModalIndex) (m t p u : Text)
    → count (add index m t) p u
      ≡ ite (dec m p) (ite (dec t u) (count index p u + 1) (count index p u)) (count index p u)
unfolding count add
count-add index m t p u =
    ground (arith, get2-put2 dec dec index m t p u (get_or (get2 dec dec index m t) 0 + 1))

put-ne-nil : {K V : Type 0} (d : Discrete K) (x : Dict K V) (k : K) (v : V) → put d x k v ≢ []
unfolding put
put-ne-nil d [] k v = ground arith
put-ne-nil d ((j, w) ∷ x) k v = ground arith

-- `add` counts one more for its entry and leaves every other count; after it no count is 0 and no
-- modal is without tables, if so before.
pub add-IsClean :
    (index : ModalIndex) (m t : Text)
    → IsClean index
    → IsClean (add index m t)
      × ((p u : Text)
          → count (add index m t) p u
            ≡ ite
                (dec m p)
                (ite (dec t u) (count index p u + 1) (count index p u))
                (count index p u))
add-IsClean index m t h = (
  record {
    counted = λ p u.
        unfold add in
        ground (
          arith,
          get2-put2 dec dec index m t p u (get_or (get2 dec dec index m t) 0 + 1),
          h.counted p u,
        );
    occupied = λ q.
        unfold add put2 in
        ground (
          arith,
          get-put dec index m q
              (put dec (get_or (get dec index m) []) t (get_or (get2 dec dec index m t) 0 + 1)),
          put-ne-nil dec (get_or (get dec index m) []) t (get_or (get2 dec dec index m t) 0 + 1),
          h.occupied q,
        );
  },
  count-add index m t,
)

-- On an index without zero counts and without modals that have no table, `remove` raises a KeyError
-- exactly where the count is 0. Otherwise it counts one less for its entry and leaves every other
-- count, and again no count is 0 and no modal is without tables.
pub remove_one-IsClean :
    (index : ModalIndex) (m t : Text)
    → IsClean index
    → ((remove_one index m t ≡ none) ↔ (count index m t ≡ 0))
      × ((after : ModalIndex)
          → remove_one index m t ≡ some after
          → IsClean after
            × ((p u : Text)
                → count after p u
                  ≡ ite
                      (dec m p)
                      (ite (dec t u) (count index p u - 1) (count index p u))
                      (count index p u)))
unfolding remove_one count
remove_one-IsClean index m t h = elim (Option-cases (get2 dec dec index m t)) [
  | inl e ↦ (ground arith, λ after f. absurd (ground arith))
  | inr (n, e) ↦ (
    ground (arith, h.counted m t),
    λ after f.
        let same : clean_up spent (put2 dec dec index m t (n - 1)) m t ≡ after = ground arith in
        rw (← same) (
          clean_up-IsClean (put2 dec dec index m t (n - 1)) m t
              (λ p u. ground (arith, get2-put2 dec dec index m t p u (n - 1), h.counted p u))
              (λ q ne. ground (arith, get-put2_ne index m t (n - 1) q ne, h.occupied q)),
          λ p u. ground (
            arith,
            get2-clean_up spent (put2 dec dec index m t (n - 1)) m t p u,
            get2-put2 dec dec index m t p u (n - 1),
            get2-put2 dec dec index m t m t (n - 1),
          ),
        ),
  )
]
