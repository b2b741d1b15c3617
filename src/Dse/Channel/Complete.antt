-- ===== src/Dse/Channel/Complete.antt =====
-- Once the messages up to a number have all arrived, in whatever order and however often, a
-- channel has processed up to that number.
use Prim.Native.Nat.{Ordering}
use congress.Prelude.{
  ℕ, zero, suc, ◌+◌, ◌<◌, ◌≤◌, ◌≡◌, refl, ap, ◌⊎◌, inl, inr, Bool, true, false, Option, none, some,
  List, [], ◌∷◌, length, All, arith, leb, ◌==◌, if◌then◌else◌, Option-cases, sym, subst,
}
use congress.Dse.Receiver.{Message, put_nowait, head_time}
use congress.Dse.Channel.{Channel, accept, step_queue, hold, on_message, receive}
use congress.Dse.Channel.Order.{items, queued}
use congress.Dse.Channel.Waiting.{
  Sorted, IsPositive, KnownAt, GapAt, Progress, All-le, All-put_nowait_seqnum, put_nowait-Sorted,
  Holds-put_nowait,
}

module _ {D : Type 0} where
  -- how a call may meet a channel: in its queue all is two ahead, or all is at least the message
  pub record Ready (m : Message D) (c : Channel D) : Type 0 where
    pub sorted : Sorted (queued c)
    pub positive : All IsPositive (queued c)
    pub counted : IsPositive m
    pub ahead : GapAt c.last (queued c) ⊎ All (λ x. m.seqnum ≤ x.seqnum) (queued c)

  abbrev Moves : Channel D → Option (Channel D) → Type 0
  Moves c none = ⊥
  Moves c (some c') = Progress c c'

  abbrev pub Settles : Message D → Channel D → Option (Channel D) → Type 0
  Settles m c none = ⊥
  Settles m c (some c') = Progress c c' × KnownAt m.seqnum c'.last (queued c')

  GapAt-nil : (l : Option ℕ) (q : List (Message D)) → q ≡ [] → GapAt l q
  GapAt-nil none q e = tt
  GapAt-nil (some n) [] e = tt
  GapAt-nil (some n) (x ∷ q) e = absurd (cc)

  KnownAt-cons :
      (k : ℕ) (l : Option ℕ) (m : Message D) (q : List (Message D))
      → KnownAt k l (m ∷ q)
      → (k ≡ m.seqnum) ⊎ KnownAt k l q
  KnownAt-cons k none m q h = h
  KnownAt-cons k (some n) m q (inl h) = inr (inl h)
  KnownAt-cons k (some n) m q (inr (inl e)) = inl e
  KnownAt-cons k (some n) m q (inr (inr h)) = inr (inr h)

  -- an empty queue is settled as it is
  Progress-empty : (c : Channel D) → queued c ≡ [] → Progress c c
  Progress-empty c e = record {
    settled = record {
      sorted = subst Sorted (sym e) tt;
      positive = subst (All IsPositive) (sym e) tt;
      gap = GapAt-nil c.last (queued c) e;
    };
    known = λ k h. h;
  }

  -- the head was popped, and the rest has progressed
  Moves-popped :
      (c : Channel D) (m : Message D) (q : List (Message D)) (r : Option (Channel D))
      → c.queue ≡ some (m ∷ q)
      → Settles m (record c { queue = some q; oldest = some (head_time q) }) r
      → Moves c r
  Moves-popped c m q none e h = h
  Moves-popped c m q (some c') e h = record {
    settled = h.0.settled;
    known = λ k w. elim (KnownAt-cons k c.last m q (subst (λ o. KnownAt k c.last (items o)) e w)) [
      | inl here ↦ subst (λ (j : ℕ). KnownAt j c'.last (queued c')) (sym here) h.1
      | inr later ↦ h.0.known k later
    ];
  }

  Moves-step_queue :
      (n : ℕ) (again : Message D → Channel D → Option (Channel D))
      → ((m : Message D) (c : Channel D)
          → length (queued c) < n
          → Ready m c
          → Settles m c (again m c))
      → (c : Channel D) → length (queued c) < suc n
      → Sorted (queued c)
      → All IsPositive (queued c)
      → Moves c (step_queue again c)
  unfolding step_queue
  Moves-step_queue n again keep c short s p = elim (Option-cases c.queue) [
    | inl e ↦ simp (e, step_queue) (Progress-empty c (ap items e))
    | inr ([], e) ↦ simp (e, step_queue) (Progress-empty c (ap items e))
    | inr (m ∷ q, e) ↦
        let s' = subst (λ o. Sorted (items o)) e s in
        let p' = subst (λ o. All IsPositive (items o)) e p in
        simp (e, step_queue)
          (Moves-popped c m q _ e (
            keep m _ (omega (arith, ap (λ o. length (items o)) e))
              (record { sorted = s'.1; positive = p'.1; counted = p'.0; ahead = inr s'.0 })))
  ]

  -- accepting the message keeps what is known, if the last number does not fall
  Settles-accept :
      (m : Message D) (c : Channel D) (r : Option (Channel D))
      → ((n : ℕ) → c.last ≡ some n → n ≤ m.seqnum)
      → Moves (accept m c) r
      → Settles m c r
  unfolding accept
  Settles-accept m c none grows h = h
  Settles-accept m c (some c') grows h = (
    record {
      settled = h.settled;
      known = λ k w. h.known k (elim (Option-cases c.last) [
        | inl e ↦ inr (subst (λ l. KnownAt k l (queued c)) e w)
        | inr (n, e) ↦ elim (subst (λ l. KnownAt k l (queued c)) e w) [
          | inl le ↦ inl (omega (arith, grows n e))
          | inr waits ↦ inr waits
        ]
      ]);
    },
    h.known m.seqnum (inl (omega arith)),
  )

  module _ (data_compare : D → D → Ordering) where
    -- the facts about a message that is held for later
    Settles-hold_at :
        (m : Message D) (c : Channel D) (q : List (Message D)) (o : Option (Option ℕ))
        → Sorted q
        → All IsPositive q
        → GapAt c.last q
        → ((k : ℕ) → (k ≡ m.seqnum) ⊎ KnownAt k c.last (queued c) → KnownAt k c.last q)
        → Settles m c (some (record c { queue = some q; oldest = o }))
    Settles-hold_at m c q o s p g w = (
      record { settled = record { sorted = s; positive = p; gap = g }; known = λ k h. w k (inr h) },
      w m.seqnum (inl refl),
    )

    GapAt-put_nowait :
        (l : Option ℕ) (q : List (Message D)) (m : Message D)
        → GapAt l q
        → ((n : ℕ) → l ≡ some n → n + 1 < m.seqnum)
        → GapAt l (put_nowait data_compare q m)
    GapAt-put_nowait none q m g h = tt
    GapAt-put_nowait (some n) q m g h =
        All-put_nowait_seqnum data_compare q m (suc (n + 1)) g (h n refl)

    KnownAt-put_nowait :
        (l : Option ℕ) (q : List (Message D)) (m : Message D) (k : ℕ)
        → (k ≡ m.seqnum) ⊎ KnownAt k l q
        → KnownAt k l (put_nowait data_compare q m)
    KnownAt-put_nowait none q m k h = Holds-put_nowait data_compare q m k h
    KnownAt-put_nowait (some n) q m k (inl e) = inr (Holds-put_nowait data_compare q m k (inl e))
    KnownAt-put_nowait (some n) q m k (inr (inl le)) = inl le
    KnownAt-put_nowait (some n) q m k (inr (inr h)) =
        inr (Holds-put_nowait data_compare q m k (inr h))

    Settles-hold :
        (m : Message D) (c : Channel D)
        → Sorted (queued c)
        → All IsPositive (queued c)
        → IsPositive m
        → GapAt c.last (queued c)
        → ((n : ℕ) → c.last ≡ some n → n + 1 < m.seqnum)
        → Settles m c (some (hold data_compare m c))
    unfolding hold put_nowait
    Settles-hold m c s p pm g far = elim (Option-cases c.queue) [
      | inl e ↦
          simp (e, hold)
            (Settles-hold_at m c (m ∷ []) (some (some m.receipt_time)) (tt, tt) (pm, tt)
              (GapAt-put_nowait c.last [] m (GapAt-nil c.last [] refl) far)
              (λ k w.
                KnownAt-put_nowait c.last [] m k
                  (subst (λ o. (k ≡ m.seqnum) ⊎ KnownAt k c.last (items o)) e w)))
      | inr (q, e) ↦
          simp (e, hold)
            (Settles-hold_at m c (put_nowait data_compare q m) c.oldest
              (put_nowait-Sorted data_compare q m (subst (λ o. Sorted (items o)) e s))
              (All-put_nowait_seqnum data_compare q m 1 (subst (λ o. All IsPositive (items o)) e p)
                pm)
              (GapAt-put_nowait c.last q m (subst (λ o. GapAt c.last (items o)) e g) far)
              (λ k w.
                KnownAt-put_nowait c.last q m k
                  (subst (λ o. (k ≡ m.seqnum) ⊎ KnownAt k c.last (items o)) e w)))
    ]

    Settles-if :
        (b : Bool) (m : Message D) (c : Channel D) (x y : Option (Channel D))
        → (b ≡ true → Settles m c x)
        → (b ≡ false → Settles m c y)
        → Settles m c (if b then x else y)
    Settles-if true m c x y h k = h refl
    Settles-if false m c x y h k = k refl

    -- a message that is old news
    Settles-old :
        (m : Message D) (c : Channel D) (r : Option (Channel D))
        → KnownAt m.seqnum c.last (queued c)
        → Moves c r
        → Settles m c r
    Settles-old m c none w h = h
    Settles-old m c (some c') w h = (h, h.known m.seqnum w)

    -- what is at least the message is two ahead, if the message is
    gap_ahead :
        (n k : ℕ) (q : List (Message D))
        → n + 1 < k
        → GapAt (some n) q ⊎ All (λ x. k ≤ x.seqnum) q
        → GapAt (some n) q
    gap_ahead n k q h (inl g) = g
    gap_ahead n k q h (inr a) = All-le q (suc (n + 1)) k h a

    Settles-on_message :
        (n : ℕ) (again : Message D → Channel D → Option (Channel D))
        → ((m : Message D) (c : Channel D)
            → length (queued c) < n
            → Ready m c
            → Settles m c (again m c))
        → (m : Message D) (c : Channel D) → length (queued c) < suc n
        → Ready m c
        → Settles m c (on_message data_compare again m c)
    unfolding on_message
    Settles-on_message n again keep m c short h = elim (Option-cases c.last) [
      | inl e ↦
          simp (e, on_message)
            (Settles-if m.is_snapshot m c _ _ (λ _. accepts (λ n f. cc))
              (λ _. held (subst (λ l. GapAt l (queued c)) (sym e) tt) (λ n f. cc)))
      | inr (last, e) ↦
          simp (e, on_message)
            (Settles-if (m.seqnum == 0) m c _ _ (λ z. absurd (zero_contra z))
              (λ _.
                Settles-if (leb m.seqnum last) m c _ _
                  (λ old.
                    Settles-old m c _
                      (subst (λ l. KnownAt m.seqnum l (queued c)) (sym e) (inl (ground arith)))
                      (Moves-step_queue n again keep c short h.sorted h.positive))
                  (λ new.
                    Settles-if (m.seqnum == last + 1) m c _ _
                      (λ next. accepts (λ j f. ground arith))
                      (λ far.
                        held
                          (subst (λ l. GapAt l (queued c)) (sym e)
                            (gap_ahead last m.seqnum (queued c) (ground arith) (
                              subst
                                (λ l.
                                  GapAt l (queued c) ⊎ All (λ x. m.seqnum ≤ x.seqnum) (queued c))
                                e h.ahead)))
                          (λ j f. ground arith)))))
    ]
      where
        zero_contra : (m.seqnum == 0) ≡ true → ⊥
        zero_contra z = let k = h.counted in ground arith

        accepts :
            ((j : ℕ) → c.last ≡ some j → j ≤ m.seqnum) → Settles m c (step_queue again (accept m c))
        accepts grows =
            Settles-accept m c _ grows (
              unfold accept in Moves-step_queue n again keep (accept m c) short h.sorted h.positive)

        held :
            GapAt c.last (queued c)
            → ((j : ℕ) → c.last ≡ some j → j + 1 < m.seqnum)
            → Settles m c (some (hold data_compare m c))
        held gap far = Settles-hold m c h.sorted h.positive h.counted gap far

    pub Settles-receive :
        (fuel : ℕ) (m : Message D) (c : Channel D)
        → length (queued c) < fuel
        → Ready m c
        → Settles m c (receive data_compare fuel m c)
    unfolding receive
    Settles-receive zero m c short h = absurd (omega arith)
    Settles-receive (suc fuel) m c short h =
        Settles-on_message fuel (receive data_compare fuel) (Settles-receive fuel) m c short h
