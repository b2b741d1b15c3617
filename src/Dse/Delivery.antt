-- ===== src/Dse/Delivery.antt =====
-- What `receive_data_sequenced` of data_service.py promises of one publisher and table: it
-- returns, and it hands on the data of what has arrived, in sequence.
use Prim.Native.Nat.{Ordering}
use mathlib.Core.List.{map-append}
use congress.Prelude.{
  ℕ, ◌<◌, String, ◌≡◌, refl, ◌∙◌, sym, ap, subst, ◌⊎◌, inl, inr, Bool, Option, none, some, List, [],
  ◌∷◌, ◌++◌, map, length, All, Has,
}
use congress.Dse.Receiver.{Message, Service, queue_of, oldest_of, seqnum_of, receive_loop}
use congress.Dse.Channel.{Channel}
use congress.Dse.Channel.Order.{items, Follows, Extends, Returns, Returns-receive}
use congress.Dse.Refinement.{delivered, contents, Refines, Related, receive_loop-Related}

module _ {D : Type 0} where
  -- the messages that wait for this publisher and table
  abbrev pub waiting : Service D → String → String → List (Message D)
  waiting s p t = items (queue_of s p t)

  pub ghost : D × Bool → Message D
  ghost e = record { seqnum = 0; is_snapshot = e.1; payload = e.0; receipt_time = 0 }

  map-ghost : (l : List (D × Bool)) → l ≡ map contents (map ghost l)
  unfolding ghost
  map-ghost [] = refl
  map-ghost (e ∷ l) = ap (◌∷◌ e) (map-ghost l)

  abbrev pub channel_of : Service D → String → String → Channel D
  channel_of s p t = record {
    queue = queue_of s p t;
    oldest = oldest_of s p t;
    last = seqnum_of s p t;
    log = map ghost (delivered p t s.received);
  }

  pub Refines-channel_of : (s : Service D) (p t : String) → Refines p t s (channel_of s p t)
  Refines-channel_of s p t = record {
    queue = refl;
    oldest = refl;
    last = refl;
    log = map-ghost (delivered p t s.received);
  }

  All-Has :
      (P : Message D → Type 0) (q : List (Message D)) → ((x : Message D) → Has x q → P x) → All P q
  All-Has P [] h = tt
  All-Has P (x ∷ q) h = (h x (inl refl), All-Has P q (λ y m. h y (inr m)))

  -- What a call for `p` and `t` did: `new` are the messages that were processed.
  pub record Handled (p t : String) (P : Message D → Type 0) (s s' : Service D) : Type 0 where
    pub new : List (Message D)
    pub seen : delivered p t s'.received ≡ delivered p t s.received ++ map contents new
    pub follows : Follows (seqnum_of s p t) new (seqnum_of s' p t)
    pub processed : All P new
    pub kept : All P (waiting s' p t)

  module _ (p t : String) where
    pub Handled-of :
        (P : Message D → Type 0) (s s' : Service D) (c' : Channel D)
        → Refines p t s' c'
        → Extends P (channel_of s p t) c'
        → Handled p t P s s'
    Handled-of P s s' c' r h = record {
      new = h.new;
      seen =
          r.log
          ∙ ap (map contents) h.log
          ∙ map-append contents (map ghost (delivered p t s.received)) h.new
          ∙ ap (λ l. l ++ map contents h.new) (sym (map-ghost (delivered p t s.received)));
      follows = subst (Follows (seqnum_of s p t) h.new) (sym r.last) h.follows;
      processed = h.processed;
      kept = subst (λ o. All P (items o)) (sym r.queue) h.kept;
    }

    module _ (data_compare : D → D → Ordering) where
      Handled-cases :
          (P : Message D → Type 0) (s : Service D) (x : Option (Service D)) (y : Option (Channel D))
          → Related p t data_compare x y
          → Returns P (channel_of s p t) y
          → (s' : Service D) × (x ≡ some s') × Handled p t P s s'
      Handled-cases P s none none r h = absurd h
      Handled-cases P s none (some c) r h = absurd r
      Handled-cases P s (some x) none r h = absurd r
      Handled-cases P s (some x) (some c) r h = (x, refl, Handled-of P s x c r h)

      -- With more fuel than messages wait, `receive_data_sequenced` returns. What it hands on is,
      -- in order, the data of some messages of which each is the one that arrived or one that
      -- waited; their numbers lead from the last sequence number before to that after the call
      -- without a gap: the first is a snapshot where there was none, and each next is the
      -- successor, or 0. What waits afterwards is of the same messages.
      pub receive_loop-Handled :
          (fuel : ℕ) (m : Message D) (s : Service D)
          → length (waiting s p t) < fuel
          → (s' : Service D) × (receive_loop data_compare fuel p t m s ≡ some s')
            × Handled p t (λ x. (x ≡ m) ⊎ Has x (waiting s p t)) s s'
      receive_loop-Handled fuel m s short =
          Handled-cases P s _ _
            (receive_loop-Related p t data_compare fuel m s (channel_of s p t)
              (Refines-channel_of s p t))
            (Returns-receive P data_compare fuel m (channel_of s p t) short (inl refl)
              (All-Has P (waiting s p t) (λ x h. inr h)))
        where
          P : Message D → Type 0
          P x = (x ≡ m) ⊎ Has x (waiting s p t)
