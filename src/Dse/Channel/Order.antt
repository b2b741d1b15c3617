-- ===== src/Dse/Channel/Order.antt =====
-- In what order a channel processes its messages, and that it always returns.
use Prim.Native.Nat.{Ordering}
use mathlib.Core.List.{append-nil, append_assoc}
use congress.Prelude.{
  ℕ, zero, suc, ◌+◌, ◌<◌, ◌≡◌, refl, ◌∙◌, ap, ◌⊎◌, inl, inr, Bool, true, false, Option, none, some,
  List, [], ◌∷◌, ◌++◌, length, All, arith, leb, ◌==◌, if◌then◌else◌, Bool-cases, Option-cases, sym,
  subst,
}
use congress.Dse.Receiver.{Message, put_nowait, before}
use congress.Dse.Channel.{Channel, accept, restart, step_queue, hold, on_message, receive}

module _ {D : Type 0} where
  -- the queued messages; no queue holds none
  abbrev pub items : Option (List (Message D)) → List (Message D)
  items none = []
  items (some q) = q

  abbrev pub queued : Channel D → List (Message D)
  queued c = items c.queue

  -- Processing the messages takes the last sequence number from the first to the second: the
  -- first is a snapshot, and each next is the successor, or 0.
  abbrev pub Follows : Option ℕ → List (Message D) → Option ℕ → Type 0
  Follows l [] r = l ≡ r
  Follows none (m ∷ ms) r = (m.is_snapshot ≡ true) × Follows (some m.seqnum) ms r
  Follows (some l) (m ∷ ms) r = ((m.seqnum ≡ 0) ⊎ (m.seqnum ≡ l + 1)) × Follows (some m.seqnum) ms r

  -- what one call does to the log
  pub record Extends (P : Message D → Type 0) (c c' : Channel D) : Type 0 where
    pub new : List (Message D)
    pub log : c'.log ≡ c.log ++ new
    pub follows : Follows c.last new c'.last
    pub processed : All P new
    pub kept : All P (queued c')

  module _ (P : Message D → Type 0) where
    abbrev pub Returns : Channel D → Option (Channel D) → Type 0
    Returns c none = ⊥
    Returns c (some c') = Extends P c c'

    Extends-refl : (c : Channel D) → All P (queued c) → Extends P c c
    Extends-refl c h = record {
      new = [];
      log = sym (append-nil c.log);
      follows = refl;
      processed = tt;
      kept = h;
    }

    -- the queue may change before the call
    Returns-queue :
        (c c₀ : Channel D) (r : Option (Channel D))
        → c₀.log ≡ c.log
        → c₀.last ≡ c.last
        → Returns c₀ r
        → Returns c r
    Returns-queue c c₀ none e f h = h
    Returns-queue c c₀ (some c') e f h = record {
      new = h.new;
      log = h.log ∙ ap (λ l. l ++ h.new) e;
      follows = subst (λ (l : Option ℕ). Follows l h.new c'.last) f h.follows;
      processed = h.processed;
      kept = h.kept;
    }

    Returns-accept :
        (m : Message D) (c : Channel D) (r : Option (Channel D))
        → P m
        → ((ms : List (Message D)) (l : Option ℕ)
            → Follows (some m.seqnum) ms l
            → Follows c.last (m ∷ ms) l)
        → Returns (accept m c) r
        → Returns c r
    unfolding accept
    Returns-accept m c none p f h = h
    Returns-accept m c (some c') p f h = record {
      new = m ∷ h.new;
      log = h.log ∙ append_assoc c.log (m ∷ []) h.new;
      follows = f h.new c'.last h.follows;
      processed = (p, h.processed);
      kept = h.kept;
    }

    Returns-if :
        (b : Bool) (c : Channel D) (x y : Option (Channel D))
        → (b ≡ true → Returns c x)
        → (b ≡ false → Returns c y)
        → Returns c (if b then x else y)
    Returns-if true c x y h k = h refl
    Returns-if false c x y h k = k refl

    Returns-step_queue :
        (n : ℕ) (again : Message D → Channel D → Option (Channel D))
        → ((m : Message D) (c : Channel D)
            → length (queued c) < n
            → P m
            → All P (queued c)
            → Returns c (again m c))
        → (c : Channel D) → length (queued c) < suc n
        → All P (queued c)
        → Returns c (step_queue again c)
    unfolding step_queue
    Returns-step_queue n again keep c short h = elim (Option-cases c.queue) [
      | inl e ↦ simp (e, step_queue) (Extends-refl c h)
      | inr ([], e) ↦ simp (e, step_queue) (Extends-refl c h)
      | inr (m ∷ q, e) ↦
          let held = subst (λ o. All P (items o)) e h in
          simp (e, step_queue)
            (Returns-queue c _ _ refl refl
              (keep m _ (omega (arith, ap (λ o. length (items o)) e)) held.0 held.1))
    ]

    module _ (data_compare : D → D → Ordering) where
      All-put_nowait :
          (q : List (Message D)) (m : Message D)
          → All P q
          → P m
          → All P (put_nowait data_compare q m)
      unfolding put_nowait
      All-put_nowait [] m h p = (p, tt)
      All-put_nowait (x ∷ q) m h p = elim (Bool-cases (before data_compare m x)) [
        | inl e ↦ rw e (p, h)
        | inr e ↦ rw e (h.0, All-put_nowait q m h.1 p)
      ]

      Extends-hold :
          (m : Message D) (c : Channel D)
          → P m
          → All P (queued c)
          → Extends P c (hold data_compare m c)
      unfolding hold
      Extends-hold m c p h = elim (Option-cases c.queue) [
        | inl e ↦
            simp (e, hold)
              (record {
                new = [];
                log = sym (append-nil c.log);
                follows = refl;
                processed = tt;
                kept = (p, tt);
              })
        | inr (q, e) ↦
            let held = subst (λ o. All P (items o)) e h in
            simp (e, hold)
              (record {
                new = [];
                log = sym (append-nil c.log);
                follows = refl;
                processed = tt;
                kept = All-put_nowait q m held p;
              })
      ]

      Returns-on_message :
          (n : ℕ) (again : Message D → Channel D → Option (Channel D))
          → ((m : Message D) (c : Channel D)
              → length (queued c) < n
              → P m
              → All P (queued c)
              → Returns c (again m c))
          → (m : Message D) (c : Channel D) → length (queued c) < suc n
          → P m
          → All P (queued c)
          → Returns c (on_message data_compare again m c)
      unfolding on_message
      Returns-on_message n again keep m c short p h = elim (Option-cases c.last) [
        | inl e ↦
            simp (e, on_message)
              (Returns-if m.is_snapshot c _ _ (λ snap. accepts (λ ms l f. rw e (snap, f)))
                (λ _. Extends-hold m c p h))
        | inr (last, e) ↦
            simp (e, on_message)
              (Returns-if (m.seqnum == 0) c _ _ (λ z. restarts last e (ground arith))
                (λ _.
                  Returns-if (leb m.seqnum last) c _ _
                    (λ _. Returns-step_queue n again keep c short h)
                    (λ _.
                      Returns-if (m.seqnum == last + 1) c _ _
                        (λ next. accepts (λ ms l f. rw e (inr (ground arith), f)))
                        (λ _. Extends-hold m c p h))))
      ]
        where
          accepts :
              ((ms : List (Message D)) (l : Option ℕ)
                → Follows (some m.seqnum) ms l
                → Follows c.last (m ∷ ms) l)
              → Returns c (step_queue again (accept m c))
          accepts f =
              Returns-accept m c _ p f
                (unfold accept in Returns-step_queue n again keep (accept m c) short h)

          restarts : (last : ℕ) → c.last ≡ some last → m.seqnum ≡ 0 → Extends P c (restart m c)
          restarts last e z =
              unfold restart in
              record {
                new = m ∷ [];
                log = refl;
                follows = rw e (inl z, refl);
                processed = (p, tt);
                kept = tt;
              }

      pub Returns-receive :
          (fuel : ℕ) (m : Message D) (c : Channel D)
          → length (queued c) < fuel
          → P m
          → All P (queued c)
          → Returns c (receive data_compare fuel m c)
      unfolding receive
      Returns-receive zero m c short p h = absurd (omega arith)
      Returns-receive (suc fuel) m c short p h =
          Returns-on_message fuel (receive data_compare fuel) (Returns-receive fuel) m c short p h
