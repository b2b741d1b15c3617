-- ===== src/Tests/Dse.antt =====
-- The publish and subscribe of congress/dse2/data_service.py at concrete inputs.
use Prim.Native.Nat.{compare}
use mathlib.Core.Bool.{false≢true}
use text.Mathlib.TextEquality.{eq_iff}
use congress.Prelude.{
  ℕ, ◌+◌, ◌*◌, ◌≤◌, ◌<◌, String, ◌≡◌, ◌≢◌, refl, ◌⊎◌, inr, true, false, some, List, [], ◌∷◌, ◌++◌,
  length, Has, arith, ℕ_discrete, String-discrete,
}
use congress.Sets.{member}
use congress.Dict.Base.{get}
use congress.Dict.Nested.{get2}
use congress.Dse.Receiver.{
  Message, Service, queue_of, oldest_of, seqnum_of, receive_loop, should_resub,
}
use congress.Dse.Channel.{Channel, receive}
use congress.Dse.Channel.Waiting.{Holds}
use congress.Dse.Refinement.{delivered, Refines, Related, receive_loop-Related}
use congress.Dse.Frame.{Leaves, receive_loop-Leaves}
use congress.Dse.Delivery.{waiting, Handled, receive_loop-Handled}
use congress.Dse.Arrival.{
  receive_all, receive_message, IsCurrent, Advanced, Came, receive_all_complete,
}
use congress.Dse.Stall.{receive_message_stalls}
use congress.Dse.Publisher.{Payload, Publisher}
use congress.Dse.Publisher.Replay.{
  apply_all, sent_for, last_rows, publish_all, newest, publish_all_replay,
}

views : Unit {0}
unfolding queue_of seqnum_of oldest_of delivered get2 get String-discrete
views = tt

abbrev message : ℕ → Message ℕ
message n = record { seqnum = n; is_snapshot = false; payload = n * 10; receipt_time = 100 + n }

-- nova's servers are at number 5, and message 8 waits
abbrev service : Service ℕ
service = record {
  msg_queues = ("nova", ("servers", message 8 ∷ []) ∷ []) ∷ [];
  oldest_queue_times = ("nova", ("servers", some 108) ∷ []) ∷ [];
  receiver_seqnums = ("nova", ("servers", 5) ∷ []) ∷ [];
  received = [];
}

abbrev channel : Channel ℕ
channel = record {
  queue = some (message 8 ∷ []);
  oldest = some (some 108);
  last = some 5;
  log = [];
}

abbrev arrivals : List (Message ℕ)
arrivals = message 7 ∷ message 6 ∷ message 7 ∷ []

service-IsCurrent : IsCurrent compare "nova" "servers" 5 service
unfolding views
service-IsCurrent = record {
  last = refl;
  sorted = (tt, tt);
  positive = (omega arith, tt);
  gap = (omega arith, tt);
}

stretch : (k : ℕ) → 5 < k → k ≤ 5 + 2 → Holds k arrivals
stretch k l h = grind arith

receive_all_complete_example :
    (s' : Service ℕ) × (a : Advanced compare "nova" "servers"
      (Came compare "nova" "servers" arrivals service)
      5
      service
      s')
    × (receive_all compare "nova" "servers" arrivals service ≡ some s')
    × (5 + 2 ≤ a.to)
receive_all_complete_example =
    receive_all_complete compare "nova" "servers" arrivals 5 2 service service-IsCurrent
      (omega arith) stretch

short : length (waiting service "nova" "servers") < 3
unfolding views
short = omega arith

receive_loop-Handled_example :
    (s' : Service ℕ) × (receive_loop compare 3 "nova" "servers" (message 6) service ≡ some s')
    × Handled "nova" "servers"
        (λ x. (x ≡ message 6) ⊎ Has x (waiting service "nova" "servers"))
        service
        s'
receive_loop-Handled_example =
    receive_loop-Handled "nova" "servers" compare 3 (message 6) service short

service-Refines : Refines "nova" "servers" service channel
unfolding views
service-Refines = record { queue = refl; oldest = refl; last = refl; log = refl }

receive_loop-Related_example :
    Related "nova" "servers" compare
      (receive_loop compare 3 "nova" "servers" (message 6) service)
      (receive compare 3 (message 6) channel)
receive_loop-Related_example =
    receive_loop-Related "nova" "servers" compare 3 (message 6) service channel service-Refines

other_table : (◌≢◌ {A = String} "nova" "nova") ⊎ (◌≢◌ {A = String} "servers" "flavors")
other_table = inr (λ e. false≢true ((eq_iff "servers" "flavors").1 e))

receive_loop-Leaves_example :
    Leaves "nova" "flavors" "nova" "servers" other_table compare service
      (receive_loop compare 3 "nova" "servers" (message 6) service)
receive_loop-Leaves_example =
    receive_loop-Leaves "nova" "flavors" "nova" "servers" other_table compare 3 (message 6) service

five : seqnum_of service "nova" "servers" ≡ some 5
unfolding views
five = refl

eight : queue_of service "nova" "servers" ≡ some (message 8 ∷ [])
unfolding views
eight = refl

receive_message_stalls_example :
    (s' : Service ℕ) × (receive_message compare "nova" "servers" (message 6) service ≡ some s')
    × (queue_of s' "nova" "servers" ≡ some (message 8 ∷ []))
    × ((limit now : ℕ) → should_resub limit now "nova" "servers" s' ≡ false)
receive_message_stalls_example =
    receive_message_stalls compare "nova" "servers" (message 8) (message 6) 5 service five eight
      (omega arith) refl

-- before message 6 the waiting message 8 is noticed once it is too old
resub_before : should_resub 60 200 "nova" "servers" service ≡ true
unfolding views should_resub
resub_before = refl

abbrev fresh : Publisher ℕ
fresh = record { sender_seqnums = []; last_published_data = []; sent = [] }

abbrev published : List (List ℕ)
published = (1 ∷ 2 ∷ []) ∷ (2 ∷ 3 ∷ []) ∷ (2 ∷ 3 ∷ []) ∷ []

publish_all_replay_example :
    (new : List (Payload ℕ)) × (sent_for "servers"
        (publish_all ℕ_discrete "servers" published fresh).sent
      ≡ sent_for "servers" fresh.sent ++ new)
    × ((rows : List ℕ)
        → ((r : ℕ)
            → member ℕ_discrete r rows ≡ member ℕ_discrete r (last_rows ℕ_discrete "servers" fresh))
        → (r : ℕ)
        → member ℕ_discrete r (apply_all ℕ_discrete rows new)
          ≡ member ℕ_discrete r
              (newest ℕ_discrete (last_rows ℕ_discrete "servers" fresh) published))
publish_all_replay_example = publish_all_replay ℕ_discrete "servers" published fresh
