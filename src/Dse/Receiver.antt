-- ===== src/Dse/Receiver.antt =====
-- congress/dse2/data_service.py: the receiver of sequenced table updates in `DataService`.
-- A message is what `receive_data_sequenced` is called with, for one publisher and one table.
-- The calls of `receive_data`, which subclasses override, are recorded in `received`, in order.
-- The order on payloads by which `PriorityQueue` breaks ties is a parameter, `data_compare`.
use Prim.Native.Nat.{compare, Ordering}
use congress.Prelude.{
  ℕ, zero, suc, ◌+◌, String, String-discrete, Bool, true, false, Option, none, some, List, [], ◌∷◌,
  ◌++◌, ltb, leb, ◌==◌, if◌then◌else◌, ◌-◌,
}
use congress.Dict.Base.{Dict}
use congress.Dict.Nested.{get2, put2, remove2}

pub record Message (D : Type 0) : Type 0 where
  pub seqnum : ℕ
  pub is_snapshot : Bool
  pub payload : D
  pub receipt_time : ℕ

-- One call of `receive_data(publisher, table, data, is_snapshot)`.
pub record Receipt (D : Type 0) : Type 0 where
  pub publisher : String
  pub table : String
  pub payload : D
  pub is_snapshot : Bool

pub record Service (D : Type 0) : Type 0 where
  pub msg_queues : Dict String (Dict String (List (Message D)))
  pub oldest_queue_times : Dict String (Dict String (Option ℕ))
  pub receiver_seqnums : Dict String (Dict String ℕ)
  pub received : List (Receipt D)

abbrev dec : Discrete String
dec = String-discrete

module _ {D : Type 0} where
  unfoldable pub queue_of : Service D → String → String → Option (List (Message D))
  queue_of s p t = get2 dec dec s.msg_queues p t

  unfoldable pub oldest_of : Service D → String → String → Option (Option ℕ)
  oldest_of s p t = get2 dec dec s.oldest_queue_times p t

  unfoldable pub seqnum_of : Service D → String → String → Option ℕ
  seqnum_of s p t = get2 dec dec s.receiver_seqnums p t

  unfoldable pub clear_msg_queue : String → String → Service D → Service D
  clear_msg_queue p t s = record s {
    msg_queues = remove2 dec dec s.msg_queues p t;
    oldest_queue_times = remove2 dec dec s.oldest_queue_times p t;
  }

  unfoldable pub clear_receiver_seqnum : String → String → Service D → Service D
  clear_receiver_seqnum p t s = record s {
    receiver_seqnums = remove2 dec dec s.receiver_seqnums p t;
  }

  unfoldable pub set_seqnum : String → String → ℕ → Service D → Service D
  set_seqnum p t n s = record s { receiver_seqnums = put2 dec dec s.receiver_seqnums p t n }

  unfoldable pub receive_data : String → String → D → Bool → Service D → Service D
  receive_data p t d b s = record s {
    received =
        s.received ++ (record { publisher = p; table = t; payload = d; is_snapshot = b }) ∷ [];
  }

module _ {D : Type 0} (data_compare : D → D → Ordering) where
  -- `a < b` on the flags, False before True
  abbrev compare_flag : Bool → Bool → Ordering
  compare_flag true true = Ordering.eq
  compare_flag true false = Ordering.gt
  compare_flag false true = Ordering.lt
  compare_flag false false = Ordering.eq

  abbrev then_by : Ordering → Ordering → Ordering
  then_by Ordering.eq o = o
  then_by Ordering.lt o = Ordering.lt
  then_by Ordering.gt o = Ordering.gt

  -- `(s, i, d, t) < (s', i', d', t')`, the comparison of tuples in the priority queue
  unfoldable pub before : Message D → Message D → Bool
  before a b =
      elim (then_by (compare a.seqnum b.seqnum) (
        then_by (compare_flag a.is_snapshot b.is_snapshot)
          (then_by (data_compare a.payload b.payload) (compare a.receipt_time b.receipt_time)))) [
            | Ordering.lt ↦ true
            | _ ↦ false
          ]

  unfoldable pub put_nowait : List (Message D) → Message D → List (Message D)
  put_nowait [] m = m ∷ []
  put_nowait (x ∷ q) m = if before m x then m ∷ x ∷ q else x ∷ put_nowait q m

  unfoldable pub add_to_msg_queue : String → String → Message D → Service D → Service D
  add_to_msg_queue p t m s = elim (queue_of s p t) [
    | none ↦ record s {
      msg_queues = put2 dec dec s.msg_queues p t (m ∷ []);
      oldest_queue_times = put2 dec dec s.oldest_queue_times p t (some m.receipt_time);
    }
    | some q ↦ record s { msg_queues = put2 dec dec s.msg_queues p t (put_nowait q m) }
  ]

module _ {D : Type 0} where
  -- the time of the oldest message that is left, or None
  abbrev pub head_time : List (Message D) → Option ℕ
  head_time [] = none
  head_time (m ∷ q) = some m.receipt_time

  -- `get_nowait` took the head of the queue, `q` is left: `update_oldest_time`
  unfoldable pub after_get : String → String → List (Message D) → Service D → Service D
  after_get p t q s = record s {
    msg_queues = put2 dec dec s.msg_queues p t q;
    oldest_queue_times = put2 dec dec s.oldest_queue_times p t (head_time q);
  }

  -- `process_queued_msg`; `again` is the recursive call of `receive_data_sequenced`. No queue
  -- (KeyError) and an empty queue (Empty) are passed over.
  unfoldable pub process_queued_msg :
      (Message D → Service D → Option (Service D))
      → String
      → String
      → Service D
      → Option (Service D)
  process_queued_msg again p t s = elim (queue_of s p t) [
    | none ↦ some s
    | some [] ↦ some s
    | some (m ∷ q) ↦ again m (after_get p t q s)
  ]

module _ {D : Type 0} (data_compare : D → D → Ordering) where
  -- the body of `receive_data_sequenced` for a message with a sequence number
  unfoldable pub dispatch :
      (Message D → Service D → Option (Service D))
      → String
      → String
      → Message D
      → Service D
      → Option (Service D)
  dispatch again p t m s = elim (seqnum_of s p t) [
    | none ↦
        if m.is_snapshot
        then process_queued_msg again p t
            (receive_data p t m.payload m.is_snapshot (set_seqnum p t m.seqnum s))
        else some (add_to_msg_queue data_compare p t m s)
    | some last ↦
        if m.seqnum == 0
        then some (
            receive_data p t m.payload m.is_snapshot
              (clear_msg_queue p t (set_seqnum p t m.seqnum s)))
        else if leb m.seqnum last
        then process_queued_msg again p t s
        else if m.seqnum == last + 1
        then process_queued_msg again p t
            (receive_data p t m.payload m.is_snapshot (set_seqnum p t m.seqnum s))
        else some (add_to_msg_queue data_compare p t m s)
  ]

  -- Each recursive call takes a message off the queue; `none` means that the fuel ran out.
  unfoldable pub receive_loop : ℕ → String → String → Message D → Service D → Option (Service D)
  receive_loop zero p t m s = none
  receive_loop (suc fuel) p t m s = dispatch (receive_loop fuel p t) p t m s

  -- `receive_data_sequenced`: a missing receipt time is read off the clock, a message without a
  -- sequence number is handed on at once.
  unfoldable pub receive_data_sequenced :
      ℕ → ℕ → String → String → D → Option ℕ → Bool → Option ℕ → Service D → Option (Service D)
  receive_data_sequenced fuel now p t d none b time s = some (receive_data p t d b s)
  receive_data_sequenced fuel now p t d (some n) b time s =
      let at : ℕ = elim time [ none ↦ now | some x ↦ x ] in
      receive_loop fuel p t (record { seqnum = n; is_snapshot = b; payload = d; receipt_time = at })
        s

module _ {D : Type 0} where
  -- The test of `check_resub`: whether the oldest queued message has waited too long.
  unfoldable pub should_resub : ℕ → ℕ → String → String → Service D → Bool
  should_resub time_to_resub now p t s = elim (oldest_of s p t) [
    | none ↦ false
    | some none ↦ false
    | some (some oldest) ↦ ltb time_to_resub (now - oldest)
  ]
