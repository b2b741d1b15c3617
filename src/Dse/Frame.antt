-- ===== src/Dse/Frame.antt =====
-- `receive_data_sequenced` of data_service.py on one publisher and table leaves every other alone.
use Prim.Native.Nat.{Ordering}
use mathlib.Core.List.{append-nil}
use congress.Prelude.{
  ℕ, zero, suc, String, String-discrete, ◌≡◌, refl, ◌≢◌, ◌⊎◌, ◌∙◌, Bool, Option, none, some, List,
  [], ◌∷◌, arith, true, false, leb, ◌==◌, ◌+◌, if◌then◌else◌, inl, inr, Option-cases,
}
use congress.Dict.Nested.{get2-put2, get2-remove2}
use congress.Dse.Receiver.{
  Message, Service, queue_of, oldest_of, seqnum_of, clear_msg_queue, set_seqnum, receive_data,
  add_to_msg_queue, head_time, after_get, process_queued_msg, dispatch, receive_loop, put_nowait,
}
use congress.Dse.Refinement.{delivered, delivered-append}

module _ {D : Type 0} (q u : String) where
  -- the two services agree on the channel of `q` and `u`
  pub record Agree (s s' : Service D) : Type 0 where
    pub queue : queue_of s' q u ≡ queue_of s q u
    pub oldest : oldest_of s' q u ≡ oldest_of s q u
    pub last : seqnum_of s' q u ≡ seqnum_of s q u
    pub seen : delivered q u s'.received ≡ delivered q u s.received

  Agree-refl : (s : Service D) → Agree s s
  Agree-refl s = record { queue = refl; oldest = refl; last = refl; seen = refl }

  Agree-trans : {a b c : Service D} → Agree a b → Agree b c → Agree a c
  Agree-trans h k = record {
    queue = k.queue ∙ h.queue;
    oldest = k.oldest ∙ h.oldest;
    last = k.last ∙ h.last;
    seen = k.seen ∙ h.seen;
  }

  module _ (p t : String) (other : (p ≢ q) ⊎ (t ≢ u)) where
    Agree-receive_data : (d : D) (b : Bool) (s : Service D) → Agree s (receive_data p t d b s)
    unfolding receive_data queue_of oldest_of seqnum_of
    Agree-receive_data d b s = record {
      queue = refl;
      oldest = refl;
      last = refl;
      seen = ground (
        arith,
        delivered-append q u s.received
            (record { publisher = p; table = t; payload = d; is_snapshot = b }),
        append-nil (delivered q u s.received),
      );
    }

    Agree-set_seqnum : (n : ℕ) (s : Service D) → Agree s (set_seqnum p t n s)
    unfolding set_seqnum queue_of oldest_of seqnum_of
    Agree-set_seqnum n s = record {
      queue = refl;
      oldest = refl;
      last = ground (arith, get2-put2 String-discrete String-discrete s.receiver_seqnums p t q u n);
      seen = refl;
    }

    Agree-clear_msg_queue : (s : Service D) → Agree s (clear_msg_queue p t s)
    unfolding clear_msg_queue queue_of oldest_of seqnum_of
    Agree-clear_msg_queue s = record {
      queue = ground (arith, get2-remove2 String-discrete String-discrete s.msg_queues p t q u);
      oldest =
          ground (arith, get2-remove2 String-discrete String-discrete s.oldest_queue_times p t q u);
      last = refl;
      seen = refl;
    }

    Agree-after_get : (r : List (Message D)) (s : Service D) → Agree s (after_get p t r s)
    unfolding after_get queue_of oldest_of seqnum_of
    Agree-after_get r s = record {
      queue = ground (arith, get2-put2 String-discrete String-discrete s.msg_queues p t q u r);
      oldest = ground (
        arith,
        get2-put2 String-discrete String-discrete s.oldest_queue_times p t q u (head_time r),
      );
      last = refl;
      seen = refl;
    }

    module _ (data_compare : D → D → Ordering) where
      Agree-add_to_msg_queue :
          (m : Message D) (s : Service D) → Agree s (add_to_msg_queue data_compare p t m s)
      unfolding add_to_msg_queue
      Agree-add_to_msg_queue m s = elim (Option-cases (queue_of s p t)) [
        | inl e ↦
            rw (e, add_to_msg_queue)
              (unfold queue_of oldest_of seqnum_of in
                record {
                  queue = ground (
                    arith,
                    get2-put2 String-discrete String-discrete s.msg_queues p t q u (m ∷ []),
                  );
                  oldest = ground (
                    arith,
                    get2-put2 String-discrete String-discrete s.oldest_queue_times p t q u
                        (some m.receipt_time),
                  );
                  last = refl;
                  seen = refl;
                })
        | inr (r, e) ↦
            rw (e, add_to_msg_queue)
              (unfold queue_of oldest_of seqnum_of in
                record {
                  queue = ground (
                    arith,
                    get2-put2 String-discrete String-discrete s.msg_queues p t q u
                        (put_nowait data_compare r m),
                  );
                  oldest = refl;
                  last = refl;
                  seen = refl;
                })
      ]

      -- a result, if there is one, agrees with the state before
      abbrev pub Leaves : Service D → Option (Service D) → Type 0
      Leaves s none = Unit
      Leaves s (some s') = Agree s s'

      Leaves-after :
          (s s' : Service D) (r : Option (Service D)) → Agree s s' → Leaves s' r → Leaves s r
      Leaves-after s s' none h k = tt
      Leaves-after s s' (some x) h k = Agree-trans h k

      Leaves-if :
          (b : Bool) (s : Service D) (x y : Option (Service D))
          → Leaves s x
          → Leaves s y
          → Leaves s (if b then x else y)
      Leaves-if true s x y h k = h
      Leaves-if false s x y h k = k

      Leaves-process_queued_msg :
          (again : Message D → Service D → Option (Service D))
          → ((m : Message D) (s : Service D) → Leaves s (again m s))
          → (s : Service D) → Leaves s (process_queued_msg again p t s)
      unfolding process_queued_msg
      Leaves-process_queued_msg again keep s = elim (Option-cases (queue_of s p t)) [
        | inl e ↦ rw (e, process_queued_msg) (Agree-refl s)
        | inr ([], e) ↦ rw (e, process_queued_msg) (Agree-refl s)
        | inr (m ∷ r, e) ↦
            rw (e, process_queued_msg)
              (Leaves-after s _ _ (Agree-after_get r s) (keep m (after_get p t r s)))
      ]

      Leaves-dispatch :
          (again : Message D → Service D → Option (Service D))
          → ((m : Message D) (s : Service D) → Leaves s (again m s))
          → (m : Message D) (s : Service D) → Leaves s (dispatch data_compare again p t m s)
      unfolding dispatch
      Leaves-dispatch again keep m s = elim (Option-cases (seqnum_of s p t)) [
        | inl e ↦ rw (e, dispatch) (Leaves-if m.is_snapshot s _ _ accepts held)
        | inr (last, e) ↦
            rw (e, dispatch)
              (Leaves-if (m.seqnum == 0) s _ _ restarts (
                Leaves-if (leb m.seqnum last) s _ _ (Leaves-process_queued_msg again keep s)
                  (Leaves-if (m.seqnum == last + 1) s _ _ accepts held)))
      ]
        where
          held : Agree s (add_to_msg_queue data_compare p t m s)
          held = Agree-add_to_msg_queue m s

          numbered : Agree s (set_seqnum p t m.seqnum s)
          numbered = Agree-set_seqnum m.seqnum s

          accepted : Agree s (receive_data p t m.payload m.is_snapshot (set_seqnum p t m.seqnum s))
          accepted = Agree-trans numbered (Agree-receive_data m.payload m.is_snapshot _)

          accepts : Leaves s (
              process_queued_msg again p t
                (receive_data p t m.payload m.is_snapshot (set_seqnum p t m.seqnum s)))
          accepts = Leaves-after s _ _ accepted (Leaves-process_queued_msg again keep _)

          restarts : Agree s (
              receive_data p t m.payload m.is_snapshot
                (clear_msg_queue p t (set_seqnum p t m.seqnum s)))
          restarts =
              Agree-trans numbered (
                Agree-trans (Agree-clear_msg_queue _)
                  (Agree-receive_data m.payload m.is_snapshot _))

      -- Processing a message of one publisher and table, and whatever its queue releases, leaves
      -- the queue, the oldest queued time, the last sequence number and the data handed on of
      -- every other publisher or table as they were.
      pub receive_loop-Leaves :
          (fuel : ℕ) (m : Message D) (s : Service D)
          → Leaves s (receive_loop data_compare fuel p t m s)
      unfolding receive_loop
      receive_loop-Leaves zero m s = tt
      receive_loop-Leaves (suc fuel) m s =
          Leaves-dispatch (receive_loop data_compare fuel p t) (receive_loop-Leaves fuel) m s
