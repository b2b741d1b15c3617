-- ===== src/Dse/Channel.antt =====
-- The receiver of one publisher and table, as a machine of its own: what data_service.py promises
-- of one sequenced channel, with a log of the messages that were processed.
pub mod Order
pub mod Waiting
pub mod Complete
use Prim.Native.Nat.{Ordering}
use congress.Prelude.{
  ℕ, zero, suc, ◌+◌, Bool, Option, none, some, List, [], ◌∷◌, ◌++◌, leb, ◌==◌, if◌then◌else◌,
}
use congress.Dse.Receiver.{Message, put_nowait, head_time}

pub record Channel (D : Type 0) : Type 0 where
  pub queue : Option (List (Message D))
  pub oldest : Option (Option ℕ)
  pub last : Option ℕ
  pub log : List (Message D)

module _ {D : Type 0} where
  -- process a message: set the sequence number and hand the data on
  unfoldable pub accept : Message D → Channel D → Channel D
  accept m c = record c { last = some m.seqnum; log = c.log ++ m ∷ [] }

  -- a message 0 starts the channel anew
  unfoldable pub restart : Message D → Channel D → Channel D
  unfolding accept
  restart m c = record c {
    queue = none;
    oldest = none;
    last = some m.seqnum;
    log = c.log ++ m ∷ [];
  }

  unfoldable pub step_queue :
      (Message D → Channel D → Option (Channel D)) → Channel D → Option (Channel D)
  step_queue again c = elim c.queue [
    | none ↦ some c
    | some [] ↦ some c
    | some (m ∷ q) ↦ again m (record c { queue = some q; oldest = some (head_time q) })
  ]

module _ {D : Type 0} (data_compare : D → D → Ordering) where
  -- keep a message for later; only the first message of a queue sets the oldest time
  unfoldable pub hold : Message D → Channel D → Channel D
  hold m c = elim c.queue [
    | none ↦ record c { queue = some (m ∷ []); oldest = some (some m.receipt_time) }
    | some q ↦ record c { queue = some (put_nowait data_compare q m) }
  ]

  unfoldable pub on_message :
      (Message D → Channel D → Option (Channel D)) → Message D → Channel D → Option (Channel D)
  on_message again m c = elim c.last [
    | none ↦ if m.is_snapshot then step_queue again (accept m c) else some (hold m c)
    | some last ↦
        if m.seqnum == 0
        then some (restart m c)
        else if leb m.seqnum last
        then step_queue again c
        else if m.seqnum == last + 1
        then step_queue again (accept m c)
        else some (hold m c)
  ]

  unfoldable pub receive : ℕ → Message D → Channel D → Option (Channel D)
  receive zero m c = none
  receive (suc fuel) m c = on_message (receive fuel) m c
