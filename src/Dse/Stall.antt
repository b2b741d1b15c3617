-- ===== src/Dse/Stall.antt =====
-- `check_resub` of data_service.py and the message that `process_queued_msg` puts back.
use Prim.Native.Nat.{Ordering}
use congress.Prelude.{
  ℕ, ◌+◌, ◌<◌, String, ◌≡◌, refl, ◌∙◌, false, Option, none, some, [], ◌∷◌, ◌++◌, arith, subst,
}
use congress.Dse.Receiver.{
  Message, Service, queue_of, seqnum_of, receive_loop, put_nowait, should_resub,
}
use congress.Dse.Channel.{Channel, accept, step_queue, hold, on_message, receive}
use congress.Dse.Refinement.{Related, receive_loop-Related}
use congress.Dse.Delivery.{channel_of, Refines-channel_of, waiting}
use congress.Dse.Arrival.{receive_message}

module _ {D : Type 0} (data_compare : D → D → Ordering) where
  put_back :
      (m : Message D) (c : Channel D) (n : ℕ)
      → n + 1 < m.seqnum
      → c.last ≡ some n
      → c.queue ≡ some []
      → receive data_compare 1 m c ≡ some (record c { queue = some (m ∷ []) })
  unfolding receive on_message hold put_nowait
  put_back m c n far l q = ground arith

  next_arrives :
      (m x : Message D) (c : Channel D) (n : ℕ)
      → n + 2 < m.seqnum
      → x.seqnum ≡ n + 1
      → c.last ≡ some n
      → c.queue ≡ some (m ∷ [])
      → receive data_compare 2 x c
        ≡ some (record {
          queue = some (m ∷ []);
          oldest = some none;
          last = some x.seqnum;
          log = c.log ++ x ∷ [];
        })
  unfolding receive on_message accept step_queue
  next_arrives m x c n far e l q = ground (
    arith,
    put_back m
        (record {
          queue = some [];
          oldest = some none;
          last = some x.seqnum;
          log = c.log ++ x ∷ [];
        })
        (n + 1),
  )

  stalls :
      (p t : String) (m : Message D) (r : Option (Service D)) (c : Channel D)
      → Related p t data_compare r (some c)
      → c.queue ≡ some (m ∷ [])
      → c.oldest ≡ some none
      → (s' : Service D) × (r ≡ some s')
        × (queue_of s' p t ≡ some (m ∷ []))
        × ((limit now : ℕ) → should_resub limit now p t s' ≡ false)
  unfolding should_resub
  stalls p t m none c h q o = absurd h
  stalls p t m (some s') c h q o =
      (s', refl, h.queue ∙ q, λ limit now. rw (h.oldest ∙ o, should_resub))

  -- Let the channel be at number n, with one message waiting that is numbered n + 3 or more. When
  -- message n + 1 arrives, the waiting message stays in the queue, but its receipt time is lost:
  -- whatever the time limit and the clock, `check_resub` does not ask for a new subscription.
  pub receive_message_stalls :
      (p t : String) (m x : Message D) (n : ℕ) (s : Service D)
      → seqnum_of s p t ≡ some n
      → queue_of s p t ≡ some (m ∷ [])
      → n + 2 < m.seqnum
      → x.seqnum ≡ n + 1
      → (s' : Service D) × (receive_message data_compare p t x s ≡ some s')
        × (queue_of s' p t ≡ some (m ∷ []))
        × ((limit now : ℕ) → should_resub limit now p t s' ≡ false)
  unfolding receive_message
  receive_message_stalls p t m x n s l q far e =
      let c = channel_of s p t in
      rw (q, waiting)
        (stalls p t m _ _
          (subst (Related p t data_compare (receive_loop data_compare 2 p t x s))
            (next_arrives m x c n far e l q)
            (receive_loop-Related p t data_compare 2 x s c (Refines-channel_of s p t)))
          refl refl)
