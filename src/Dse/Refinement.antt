-- ===== src/Dse/Refinement.antt =====
-- `receive_data_sequenced` of data_service.py implements the machine of `Channel` for its
-- publisher and table, and leaves every other channel alone.
use Prim.Native.Nat.{Ordering}
use congress.Prelude.{
  ℕ, zero, suc, String, String-discrete, ◌≡◌, refl, ◌∙◌, ite, Bool, Option, none, some, List, [],
  ◌∷◌, ◌++◌, map, arith, true, false, leb, ◌==◌, ◌+◌, if◌then◌else◌, inl, inr, Option-cases,
}
use congress.Dict.Nested.{get2-put2, get2-remove2}
use congress.Dse.Receiver.{
  Message, Receipt, Service, queue_of, oldest_of, seqnum_of, clear_msg_queue, set_seqnum,
  receive_data, add_to_msg_queue, head_time, after_get, process_queued_msg, dispatch, receive_loop,
  put_nowait,
}
use congress.Dse.Channel.{Channel, accept, restart, step_queue, hold, on_message, receive}

module _ {D : Type 0} where
  -- what the channel's subclass saw: the payloads for this publisher and table, in order
  unfoldable pub delivered : String → String → List (Receipt D) → List (D × Bool)
  delivered p t [] = []
  delivered p t (r ∷ rs) =
      let rest = delivered p t rs in
      ite (String-discrete r.publisher p)
        (ite (String-discrete r.table t) ((r.payload, r.is_snapshot) ∷ rest) rest) rest

  abbrev pub contents : Message D → D × Bool
  contents m = (m.payload, m.is_snapshot)

  pub record Refines (p t : String) (s : Service D) (c : Channel D) : Type 0 where
    pub queue : queue_of s p t ≡ c.queue
    pub oldest : oldest_of s p t ≡ c.oldest
    pub last : seqnum_of s p t ≡ c.last
    pub log : delivered p t s.received ≡ map contents c.log

  pub delivered-append :
      (p t : String) (rs : List (Receipt D)) (r : Receipt D)
      → delivered p t (rs ++ r ∷ [])
        ≡ delivered p t rs
          ++ ite
              (String-discrete r.publisher p)
              (ite (String-discrete r.table t) ((r.payload, r.is_snapshot) ∷ []) [])
              []
  unfolding delivered
  delivered-append p t [] r = refl
  delivered-append p t (x ∷ rs) r = ground (arith, delivered-append p t rs r)

  map-snoc :
      (m : Message D) (l : List (Message D))
      → map contents (l ++ m ∷ []) ≡ map contents l ++ contents m ∷ []
  map-snoc m [] = refl
  map-snoc m (x ∷ l) = rw (map-snoc m l)

  module _ (p t : String) where
    Refines-accept :
        (m : Message D) (s : Service D) (c : Channel D)
        → Refines p t s c
        → Refines p t
            (receive_data p t m.payload m.is_snapshot (set_seqnum p t m.seqnum s))
            (accept m c)
    unfolding receive_data set_seqnum accept queue_of oldest_of seqnum_of
    Refines-accept m s c h = record {
      queue = h.queue;
      oldest = h.oldest;
      last =
          ground
            (arith, get2-put2 String-discrete String-discrete s.receiver_seqnums p t p t m.seqnum);
      log = ground (
        arith,
        delivered-append p t s.received
            (record { publisher = p; table = t; payload = m.payload; is_snapshot = m.is_snapshot }),
        map-snoc m c.log,
        h.log,
      );
    }

    Refines-restart :
        (m : Message D) (s : Service D) (c : Channel D)
        → Refines p t s c
        → Refines p t
            (receive_data p t m.payload m.is_snapshot
              (clear_msg_queue p t (set_seqnum p t m.seqnum s)))
            (restart m c)
    unfolding receive_data clear_msg_queue set_seqnum restart queue_of oldest_of seqnum_of
    Refines-restart m s c h =
        let h' = Refines-accept m s c h in
        record {
          queue = ground (arith, get2-remove2 String-discrete String-discrete s.msg_queues p t p t);
          oldest =
              ground
                (arith, get2-remove2 String-discrete String-discrete s.oldest_queue_times p t p t);
          last = ground (
            arith,
            get2-put2 String-discrete String-discrete s.receiver_seqnums p t p t m.seqnum,
          );
          log = unfold accept in h'.log;
        }

    Refines-after_get :
        (q : List (Message D)) (s : Service D) (c : Channel D)
        → Refines p t s c
        → Refines p t (after_get p t q s) (record c { queue = some q; oldest = some (head_time q) })
    unfolding after_get queue_of oldest_of seqnum_of
    Refines-after_get q s c h = record {
      queue = ground (arith, get2-put2 String-discrete String-discrete s.msg_queues p t p t q);
      oldest = ground (
        arith,
        get2-put2 String-discrete String-discrete s.oldest_queue_times p t p t (head_time q),
      );
      last = h.last;
      log = h.log;
    }

    module _ (data_compare : D → D → Ordering) where
      Refines-hold :
          (m : Message D) (s : Service D) (c : Channel D)
          → Refines p t s c
          → Refines p t (add_to_msg_queue data_compare p t m s) (hold data_compare m c)
      unfolding add_to_msg_queue hold
      Refines-hold m s c h = elim (Option-cases c.queue) [
        | inl e ↦
            rw (h.queue ∙ e, e, add_to_msg_queue, hold)
              (unfold queue_of oldest_of seqnum_of in
                record {
                  queue = ground (
                    arith,
                    get2-put2 String-discrete String-discrete s.msg_queues p t p t (m ∷ []),
                  );
                  oldest = ground (
                    arith,
                    get2-put2 String-discrete String-discrete s.oldest_queue_times p t p t
                        (some m.receipt_time),
                  );
                  last = h.last;
                  log = h.log;
                })
        | inr (q, e) ↦
            rw (h.queue ∙ e, e, add_to_msg_queue, hold)
              (unfold queue_of oldest_of seqnum_of in
                record {
                  queue = ground (
                    arith,
                    get2-put2 String-discrete String-discrete s.msg_queues p t p t
                        (put_nowait data_compare q m),
                  );
                  oldest = h.oldest;
                  last = h.last;
                  log = h.log;
                })
      ]

      -- both run out of fuel, or both return, in corresponding states
      abbrev pub Related : Option (Service D) → Option (Channel D) → Type 0
      Related none none = Unit
      Related (some s) (some c) = Refines p t s c
      Related _ _ = ⊥

      Related-if :
          (b : Bool) (x y : Option (Service D)) (x' y' : Option (Channel D))
          → Related x x'
          → Related y y'
          → Related (if b then x else y) (if b then x' else y')
      Related-if true _ _ _ _ h k = h
      Related-if false _ _ _ _ h k = k

      Related-process_queued_msg :
          (again : Message D → Service D → Option (Service D))
          (again' : Message D → Channel D → Option (Channel D))
          → ((m : Message D) (s : Service D) (c : Channel D)
              → Refines p t s c
              → Related (again m s) (again' m c))
          → (s : Service D) (c : Channel D) → Refines p t s c
          → Related (process_queued_msg again p t s) (step_queue again' c)
      unfolding process_queued_msg step_queue
      Related-process_queued_msg again again' keep s c h = elim (Option-cases c.queue) [
        | inl e ↦ rw (h.queue ∙ e, e, process_queued_msg, step_queue) h
        | inr ([], e) ↦ rw (h.queue ∙ e, e, process_queued_msg, step_queue) h
        | inr (m ∷ q, e) ↦
            rw (h.queue ∙ e, e, process_queued_msg, step_queue)
              (keep m _ _ (Refines-after_get q s c h))
      ]

      Related-dispatch :
          (again : Message D → Service D → Option (Service D))
          (again' : Message D → Channel D → Option (Channel D))
          → ((m : Message D) (s : Service D) (c : Channel D)
              → Refines p t s c
              → Related (again m s) (again' m c))
          → (m : Message D) (s : Service D) (c : Channel D) → Refines p t s c
          → Related (dispatch data_compare again p t m s) (on_message data_compare again' m c)
      unfolding dispatch on_message
      Related-dispatch again again' keep m s c h = elim (Option-cases c.last) [
        | inl e ↦
            rw (h.last ∙ e, e, dispatch, on_message)
              (Related-if m.is_snapshot _ _ _ _ (process _ _ (Refines-accept m s c h))
                (Refines-hold m s c h))
        | inr (last, e) ↦
            rw (h.last ∙ e, e, dispatch, on_message)
              (Related-if (m.seqnum == 0) _ _ _ _ (Refines-restart m s c h) (
                Related-if (leb m.seqnum last) _ _ _ _ (process s c h) (
                  Related-if (m.seqnum == last + 1) _ _ _ _ (process _ _ (Refines-accept m s c h))
                    (Refines-hold m s c h))))
      ]
        where
          process :
              (s : Service D) (c : Channel D)
              → Refines p t s c
              → Related (process_queued_msg again p t s) (step_queue again' c)
          process = Related-process_queued_msg again again' keep

      -- Let the service and the channel's machine correspond in queue, oldest queued time, last
      -- sequence number and the data handed on for this publisher and table. Run with the same
      -- fuel on the same message, `receive_data_sequenced` and the machine both run out of fuel,
      -- or both return, and then they correspond again.
      pub receive_loop-Related :
          (fuel : ℕ) (m : Message D) (s : Service D) (c : Channel D)
          → Refines p t s c
          → Related (receive_loop data_compare fuel p t m s) (receive data_compare fuel m c)
      unfolding receive_loop receive
      receive_loop-Related zero m s c h = tt
      receive_loop-Related (suc fuel) m s c h =
          Related-dispatch (receive_loop data_compare fuel p t) (receive data_compare fuel)
            (receive_loop-Related fuel) m s c h
