-- ===== src/Dse/Arrival.antt =====
-- A stretch of messages of data_service.py that arrives in any order is handed on in sequence.
use Prim.Native.Nat.{Ordering}
use mathlib.Core.List.{append-nil, append_assoc, map-append}
use congress.Prelude.{
  ℕ, suc, ◌+◌, ◌<◌, ◌≤◌, String, ◌≡◌, refl, ◌∙◌, sym, ap, subst, ◌⊎◌, inl, inr, Option, none, some,
  List, [], ◌∷◌, ◌++◌, map, length, All, All-append, Has, arith, dec_le,
}
use congress.Dse.Receiver.{Message, Service, seqnum_of, receive_loop}
use congress.Dse.Channel.{Channel}
use congress.Dse.Channel.Order.{items, Follows, Returns, Returns-receive}
use congress.Dse.Channel.Waiting.{Sorted, IsPositive, Holds, KnownAt, GapAt, IsSettled}
use congress.Dse.Channel.Complete.{Settles, Settles-receive}
use congress.Dse.Refinement.{delivered, contents, Related, receive_loop-Related}
use congress.Dse.Delivery.{waiting, channel_of, Refines-channel_of, Handled-of}

module _ {D : Type 0} (data_compare : D → D → Ordering) (p t : String) where
  -- `receive_data_sequenced` with fuel for all that waits
  unfoldable pub receive_message : Message D → Service D → Option (Service D)
  receive_message m s = receive_loop data_compare (suc (length (waiting s p t))) p t m s

  unfoldable pub receive_all : List (Message D) → Service D → Option (Service D)
  receive_all [] s = some s
  receive_all (m ∷ ms) s = elim (receive_message m s) [ none ↦ none | some s' ↦ receive_all ms s' ]

  -- A number `n` was processed last, and all that waits is at least two ahead, in order.
  pub record IsCurrent (n : ℕ) (s : Service D) : Type 0 where
    pub last : seqnum_of s p t ≡ some n
    pub sorted : Sorted (waiting s p t)
    pub positive : All IsPositive (waiting s p t)
    pub gap : All (λ x. n + 1 < x.seqnum) (waiting s p t)

  -- the numbers n + 1, n + 2, … up to the second
  abbrev pub Consecutive : ℕ → List (Message D) → ℕ → Type 0
  Consecutive n [] r = n ≡ r
  Consecutive n (m ∷ ms) r = (m.seqnum ≡ n + 1) × Consecutive m.seqnum ms r

  Follows-Consecutive :
      (n : ℕ) (ms : List (Message D)) (l : Option ℕ)
      → All IsPositive ms
      → Follows (some n) ms l
      → (r : ℕ) × (l ≡ some r) × Consecutive n ms r
  Follows-Consecutive n [] l h f = (n, sym f, refl)
  Follows-Consecutive n (m ∷ ms) l h f =
      let (r, e, c) = Follows-Consecutive m.seqnum ms l h.1 f.1 in
      (r, e, (elim f.0 [ inl z ↦ absurd (omega (arith, h.0)) | inr s ↦ s ], c))

  Consecutive-append :
      (n k r : ℕ) (xs ys : List (Message D))
      → Consecutive n xs k
      → Consecutive k ys r
      → Consecutive n (xs ++ ys) r
  Consecutive-append n k r [] ys h g = subst (λ (j : ℕ). Consecutive j ys r) (sym h) g
  Consecutive-append n k r (x ∷ xs) ys h g = (h.0, Consecutive-append x.seqnum k r xs ys h.1 g)

  Consecutive-le : (n r : ℕ) (xs : List (Message D)) → Consecutive n xs r → n ≤ r
  Consecutive-le n r [] h = omega arith
  Consecutive-le n r (x ∷ xs) h = omega (arith, Consecutive-le x.seqnum r xs h.1)

  All-pair :
      (P Q : Message D → Type 0) (xs : List (Message D))
      → All P xs
      → All Q xs
      → All (λ x. P x × Q x) xs
  All-pair P Q [] h k = tt
  All-pair P Q (x ∷ xs) h k = ((h.0, k.0), All-pair P Q xs h.1 k.1)

  All-halves :
      (P Q : Message D → Type 0) (xs : List (Message D))
      → All (λ x. P x × Q x) xs
      → All P xs × All Q xs
  All-halves P Q [] h = (tt, tt)
  All-halves P Q (x ∷ xs) h = let (a, b) = All-halves P Q xs h.1 in ((h.0.0, a), (h.0.1, b))

  All-here :
      (Q : Message D → Type 0) (xs : List (Message D))
      → ((x : Message D) → Has x xs → Q x)
      → All Q xs
  All-here Q [] h = tt
  All-here Q (x ∷ xs) h = (h x (inl refl), All-here Q xs (λ y m. h y (inr m)))

  -- What some calls did: `new` are the messages that were handed on. They and those that wait are
  -- messages of which `Q` holds.
  pub record Advanced (Q : Message D → Type 0) (n : ℕ) (s s' : Service D) : Type 0 where
    pub to : ℕ
    pub current : IsCurrent to s'
    pub new : List (Message D)
    pub seen : delivered p t s'.received ≡ delivered p t s.received ++ map contents new
    pub from : All Q new
    pub held : All Q (waiting s' p t)
    pub steps : Consecutive n new to
    pub known : (k : ℕ) → (k ≤ n) ⊎ Holds k (waiting s p t) → (k ≤ to) ⊎ Holds k (waiting s' p t)

  IsSettled-of : (n : ℕ) (s : Service D) → IsCurrent n s → IsSettled (channel_of s p t)
  IsSettled-of n s h = record {
    sorted = h.sorted;
    positive = h.positive;
    gap = subst (λ l. GapAt l (waiting s p t)) (sym h.last) h.gap;
  }

  one_message :
      (Q : Message D → Type 0) (n : ℕ) (m : Message D) (s : Service D) (x : Option (Service D))
      (y : Option (Channel D))
      → IsCurrent n s
      → Related p t data_compare x y
      → Returns (λ z. IsPositive z × Q z) (channel_of s p t) y
      → Settles m (channel_of s p t) y
      → (s' : Service D) × (a : Advanced Q n s s') × (x ≡ some s')
        × ((m.seqnum ≤ a.to) ⊎ Holds m.seqnum (waiting s' p t))
  one_message Q n m s none none cur r e w = absurd e
  one_message Q n m s none (some c) cur r e w = absurd r
  one_message Q n m s (some x) none cur r e w = absurd r
  one_message Q n m s (some x) (some c) cur r e w =
      let h = Handled-of p t (λ z. IsPositive z × Q z) s x c r e in
      let f = subst (λ l. Follows l h.new (seqnum_of x p t)) cur.last h.follows in
      let (positive, from) = All-halves IsPositive Q h.new h.processed in
      let (waits, held) = All-halves IsPositive Q (waiting x p t) h.kept in
      let (to, last, steps) = Follows-Consecutive n h.new (seqnum_of x p t) positive f in
      let at_last : c.last ≡ some to = sym r.last ∙ last in
      let move = λ (k : ℕ) (v : KnownAt k c.last (items c.queue)).
        subst (λ o. (k ≤ to) ⊎ Holds k (items o)) (sym r.queue)
          (subst (λ l. KnownAt k l (items c.queue)) at_last v) in
      (
        x,
        record {
          to = to;
          current = record {
            last = last;
            sorted = subst (λ o. Sorted (items o)) (sym r.queue) w.0.settled.sorted;
            positive = waits;
            gap =
                subst (λ o. GapAt (some to) (items o)) (sym r.queue)
                  (subst (λ l. GapAt l (items c.queue)) at_last w.0.settled.gap);
          };
          new = h.new;
          seen = h.seen;
          from = from;
          held = held;
          steps = steps;
          known = λ k v.
              move k (w.0.known k (subst (λ l. KnownAt k l (waiting s p t)) (sym cur.last) v));
        },
        refl,
        move m.seqnum w.1,
      )

  receive_message-Advanced :
      (Q : Message D → Type 0) (n : ℕ) (m : Message D) (s : Service D)
      → IsCurrent n s
      → IsPositive m
      → Q m
      → All Q (waiting s p t)
      → (s' : Service D) × (a : Advanced Q n s s') × (receive_message m s ≡ some s')
        × ((m.seqnum ≤ a.to) ⊎ Holds m.seqnum (waiting s' p t))
  unfolding receive_message
  receive_message-Advanced Q n m s cur pos q held =
      one_message Q n m s _ _ cur
        (receive_loop-Related p t data_compare (suc (length (waiting s p t))) m s (channel_of s p t)
          (Refines-channel_of s p t))
        (Returns-receive (λ z. IsPositive z × Q z) data_compare (suc (length (waiting s p t))) m
          (channel_of s p t) (omega arith) (pos, q)
          (All-pair IsPositive Q (waiting s p t) cur.positive held))
        (Settles-receive data_compare (suc (length (waiting s p t))) m (channel_of s p t)
          (omega arith)
          (record {
            sorted = cur.sorted;
            positive = cur.positive;
            counted = pos;
            ahead = inl (IsSettled-of n s cur).gap;
          }))

  Advanced-trans :
      (Q : Message D → Type 0) (n : ℕ) (s s' s'' : Service D) (a : Advanced Q n s s')
      → Advanced Q a.to s' s''
      → Advanced Q n s s''
  Advanced-trans Q n s s' s'' a b = record {
    to = b.to;
    current = b.current;
    new = a.new ++ b.new;
    seen =
        b.seen
        ∙ ap (λ l. l ++ map contents b.new) a.seen
        ∙ append_assoc (delivered p t s.received) (map contents a.new) (map contents b.new)
        ∙ ap (λ l. delivered p t s.received ++ l) (sym (map-append contents a.new b.new));
    from = All-append Q a.new b.new a.from b.from;
    held = b.held;
    steps = Consecutive-append n a.to b.to a.new b.new a.steps b.steps;
    known = λ k h. b.known k (a.known k h);
  }

  receive_all-Advanced :
      (Q : Message D → Type 0) (ms : List (Message D)) (n : ℕ) (s : Service D)
      → IsCurrent n s
      → All IsPositive ms
      → All Q ms
      → All Q (waiting s p t)
      → (s' : Service D) × (a : Advanced Q n s s') × (receive_all ms s ≡ some s')
        × ((k : ℕ) → Holds k ms → (k ≤ a.to) ⊎ Holds k (waiting s' p t))
  unfolding receive_all Advanced-trans
  receive_all-Advanced Q [] n s cur h came held = (
    s,
    record {
      to = n;
      current = cur;
      new = [];
      seen = sym (append-nil _);
      from = tt;
      held = held;
      steps = refl;
      known = λ k v. v;
    },
    refl,
    λ k v. absurd v,
  )
  receive_all-Advanced Q (m ∷ ms) n s cur h came held =
      let (s', a, e, w) = receive_message-Advanced Q n m s cur h.0 came.0 held in
      let (s'', b, f, v) = receive_all-Advanced Q ms a.to s' a.current h.1 came.1 a.held in
      (
        s'',
        Advanced-trans Q n s s' s'' a b,
        rw (e, receive_all) f,
        λ k x. elim x [
          | inl here ↦
              b.known k (subst (λ (j : ℕ). (j ≤ a.to) ⊎ Holds j (waiting s' p t)) (sym here) w)
          | inr later ↦ v k later
        ],
      )

  not-Holds : (k : ℕ) (q : List (Message D)) → All (λ x. k < x.seqnum) q → ¬ Holds k q
  not-Holds k (x ∷ q) h (inl e) = omega arith
  not-Holds k (x ∷ q) h (inr w) = not-Holds k q h.1 w
  not-Holds k [] h w = w

  -- the messages that arrived, and those that waited
  abbrev pub Came : List (Message D) → Service D → Message D → Type 0
  Came ms s x = Has x ms ⊎ Has x (waiting s p t)

  -- Let the channel be at number `n`, all that waits being numbered above n + 1 and in order, and
  -- let messages numbered above 0 arrive, in any order and with repetitions, among them all of
  -- n + 1, …, n + j. Then every call returns, the channel is afterwards at a number of at least
  -- n + j, and it has handed on exactly the data, and whether it is a snapshot, of messages `new`
  -- numbered n + 1, n + 2, … up to that number, in this order, each once. Each of `new`, and each
  -- message that waits afterwards, is one that arrived or one that waited.
  pub receive_all_complete :
      (ms : List (Message D)) (n j : ℕ) (s : Service D)
      → IsCurrent n s
      → All IsPositive ms
      → ((k : ℕ) → n < k → k ≤ n + j → Holds k ms)
      → (s' : Service D) × (a : Advanced (Came ms s) n s s') × (receive_all ms s ≡ some s')
        × (n + j ≤ a.to)
  receive_all_complete ms n j s cur pos all =
      let (s', a, e, w) =
        receive_all-Advanced (Came ms s) ms n s cur pos (All-here (Came ms s) ms (λ x h. inl h))
          (All-here (Came ms s) (waiting s p t) (λ x h. inr h)) in
      (s', a, e, reaches s' a w)
    where
      reaches :
          (s' : Service D) (a : Advanced (Came ms s) n s s')
          → ((k : ℕ) → Holds k ms → (k ≤ a.to) ⊎ Holds k (waiting s' p t))
          → n + j ≤ a.to
      reaches s' a w = elim (dec_le (n + j) a.to) [
        | yes h ↦ h
        | no h ↦
            let le = Consecutive-le n a.to a.new a.steps in
            absurd (elim (w (a.to + 1) (all (a.to + 1) (omega arith) (omega arith))) [
              | inl x ↦ omega arith
              | inr x ↦ not-Holds (a.to + 1) (waiting s' p t) a.current.gap x
            ])
      ]
