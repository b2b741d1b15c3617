-- ===== src/Dse/Publisher.antt =====
-- congress/dse2/data_service.py: the publishing side of `DataService`. The calls of the node's
-- `publish_table_sequenced` are recorded in `sent`; rows are of any type with an equality.
pub mod Replay
use congress.Prelude.{
  ℕ, zero, suc, ◌+◌, String, String-discrete, ◌≡◌, refl, ite, Bool, true, false, not, ◌&&◌, ◌||◌,
  Option, none, some, List, [], ◌∷◌, ◌++◌, arith, get_or, Option-cases, inl, inr, ap, ◌∙◌, sym,
}
use congress.Sets.{member, minus, member-append, member-minus}
use congress.Dict.Base.{Dict, get, put, get-put}

pub data Payload (R : Type 0) : Type 0 where
  snapshot : List R → Payload R
  differential : List R → List R → Payload R

-- One call of `publish_table_sequenced(service_id, table, data, use_snapshot, seqnum)`.
pub record Sent (R : Type 0) : Type 0 where
  pub table : String
  pub payload : Payload R
  pub seqnum : ℕ

pub record Publisher (R : Type 0) : Type 0 where
  pub sender_seqnums : Dict String ℕ
  pub last_published_data : Dict String (List R)
  pub sent : List (Sent R)

module _ {R : Type 0} where
  -- `increment_get_seqnum` and the call of the node
  unfoldable pub send : String → Payload R → Publisher R → Publisher R
  send table d s =
      let n : ℕ = elim (get String-discrete s.sender_seqnums table) [ none ↦ 0 | some k ↦ k + 1 ] in
      record s {
        sender_seqnums = put String-discrete s.sender_seqnums table n;
        sent = s.sent ++ (record { table = table; payload = d; seqnum = n }) ∷ [];
      }

  abbrev is_empty : List R → Bool
  is_empty [] = true
  is_empty (x ∷ xs) = false

  -- a differential without rows is not sent
  unfoldable pub send_differential : String → List R → List R → Publisher R → Publisher R
  unfolding send
  send_differential table [] [] s = s
  send_differential table to_add to_del s = send table (differential to_add to_del) s

module _ {R : Type 0} (dec : Discrete R) where
  -- `get_differential_and_set_last_published_data`, its two results
  unfoldable pub to_add : String → List R → Publisher R → List R
  to_add table d s = elim (get String-discrete s.last_published_data table) [
    | none ↦ d
    | some old ↦ minus dec d old
  ]

  unfoldable pub to_del : String → List R → Publisher R → List R
  to_del table d s = elim (get String-discrete s.last_published_data table) [
    | none ↦ []
    | some old ↦ minus dec old d
  ]

  unfoldable pub publish : String → List R → Bool → Publisher R → Publisher R
  publish table d true s = send table (snapshot d) s
  publish table d false s =
      send_differential table (to_add table d s) (to_del table d s)
        (record s { last_published_data = put String-discrete s.last_published_data table d })

  -- `get_last_published_data_with_seqnum`; `now` is what `get_snapshot(table)` returns. The first
  -- request sets the number to 0 and publishes nothing.
  unfoldable pub get_last_published_data_with_seqnum :
      String → List R → Publisher R → Option ((ℕ × List R) × Publisher R)
  get_last_published_data_with_seqnum table now s =
      elim (get String-discrete s.sender_seqnums table) [
        | none ↦ some (
          (0, now),
          record s {
            sender_seqnums = put String-discrete s.sender_seqnums table 0;
            last_published_data = put String-discrete s.last_published_data table now;
          },
        )
        | some n ↦ elim (get String-discrete s.last_published_data table) [
          | none ↦ none
          | some d ↦ some ((n, d), s)
        ]
      ]
