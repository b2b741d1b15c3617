-- ===== src/Dse/Channel/Waiting.antt =====
-- The queue of a channel: its order, and the messages that a channel knows of.
use Prim.Native.Nat.{Ordering}
use congress.Prelude.{
  ℕ, ◌+◌, ◌<◌, ◌≤◌, ◌≡◌, ◌⊎◌, inl, inr, true, false, Option, none, some, List, [], ◌∷◌, All, arith,
  Bool-cases,
}
use congress.Dse.Receiver.{Message, put_nowait, before}
use congress.Dse.Channel.{Channel}
use congress.Dse.Channel.Order.{queued}

module _ {D : Type 0} where
  abbrev pub Sorted : List (Message D) → Type 0
  Sorted [] = Unit
  Sorted (m ∷ q) = All (λ x. m.seqnum ≤ x.seqnum) q × Sorted q

  abbrev pub IsPositive : Message D → Type 0
  IsPositive m = 0 < m.seqnum

  -- a message with this number is in the list
  abbrev pub Holds : ℕ → List (Message D) → Type 0
  Holds k [] = ⊥
  Holds k (x ∷ q) = (k ≡ x.seqnum) ⊎ Holds k q

  -- processed, or waiting in the queue
  abbrev pub KnownAt : ℕ → Option ℕ → List (Message D) → Type 0
  KnownAt k none q = Holds k q
  KnownAt k (some n) q = (k ≤ n) ⊎ Holds k q

  -- what waits is at least two ahead
  abbrev pub GapAt : Option ℕ → List (Message D) → Type 0
  GapAt none q = Unit
  GapAt (some n) q = All (λ x. n + 1 < x.seqnum) q

  pub record IsSettled (c : Channel D) : Type 0 where
    pub sorted : Sorted (queued c)
    pub positive : All IsPositive (queued c)
    pub gap : GapAt c.last (queued c)

  pub record Progress (c c' : Channel D) : Type 0 where
    pub settled : IsSettled c'
    pub known : (k : ℕ) → KnownAt k c.last (queued c) → KnownAt k c'.last (queued c')

  pub All-le :
      (q : List (Message D)) (a b : ℕ)
      → a ≤ b
      → All (λ x. b ≤ x.seqnum) q
      → All (λ x. a ≤ x.seqnum) q
  All-le [] a b h k = tt
  All-le (x ∷ q) a b h k = (omega arith, All-le q a b h k.1)

  module _ (data_compare : D → D → Ordering) where
    pub before-le : (a b : Message D) → before data_compare a b ≡ true → a.seqnum ≤ b.seqnum
    unfolding before
    before-le a b h = ground arith

    not-before-le : (a b : Message D) → before data_compare a b ≡ false → b.seqnum ≤ a.seqnum
    unfolding before
    not-before-le a b h = ground arith

    pub All-put_nowait_seqnum :
        (q : List (Message D)) (m : Message D) (n : ℕ)
        → All (λ x. n ≤ x.seqnum) q
        → n ≤ m.seqnum
        → All (λ x. n ≤ x.seqnum) (put_nowait data_compare q m)
    unfolding put_nowait
    All-put_nowait_seqnum [] m n h p = (p, tt)
    All-put_nowait_seqnum (x ∷ q) m n h p = elim (Bool-cases (before data_compare m x)) [
      | inl e ↦ rw e (p, h)
      | inr e ↦ rw e (h.0, All-put_nowait_seqnum q m n h.1 p)
    ]

    pub put_nowait-Sorted :
        (q : List (Message D)) (m : Message D) → Sorted q → Sorted (put_nowait data_compare q m)
    unfolding put_nowait
    put_nowait-Sorted [] m h = (tt, tt)
    put_nowait-Sorted (x ∷ q) m h = elim (Bool-cases (before data_compare m x)) [
      | inl e ↦ rw e ((before-le m x e, All-le q m.seqnum x.seqnum (before-le m x e) h.0), h)
      | inr e ↦
          rw e (
            All-put_nowait_seqnum q m x.seqnum h.0 (not-before-le m x e),
            put_nowait-Sorted q m h.1,
          )
    ]

    pub Holds-put_nowait :
        (q : List (Message D)) (m : Message D) (k : ℕ)
        → (k ≡ m.seqnum) ⊎ Holds k q
        → Holds k (put_nowait data_compare q m)
    unfolding put_nowait
    Holds-put_nowait [] m k h = h
    Holds-put_nowait (x ∷ q) m k h = elim (Bool-cases (before data_compare m x)) [
      | inl e ↦ rw e h
      | inr e ↦ rw e (elim h [
        | inl new ↦ inr (Holds-put_nowait q m k (inl new))
        | inr (inl here) ↦ inl here
        | inr (inr later) ↦ inr (Holds-put_nowait q m k (inr later))
      ])
    ]
