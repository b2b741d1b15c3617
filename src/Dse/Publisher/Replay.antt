-- ===== src/Dse/Publisher/Replay.antt =====
-- A subscriber that applies what `publish` of data_service.py sends holds what was published.
use mathlib.Core.List.{append-nil, append_assoc}
use congress.Prelude.{
  String, String-discrete, ◌≡◌, refl, ite, false, not, ◌&&◌, ◌||◌, List, [], ◌∷◌, ◌++◌, arith,
  get_or, Option-cases, inl, inr, ap, ◌∙◌, sym,
}
use congress.Sets.{member, minus, member-append, member-minus}
use congress.Dict.Base.{get, put, get-put}
use congress.Dse.Publisher.{
  Payload, snapshot, differential, Sent, Publisher, send, send_differential, to_add, to_del,
  publish,
}

module _ {R : Type 0} where
  -- the rows that a subscriber holds after a message
  unfoldable pub apply : Discrete R → List R → Payload R → List R
  apply dec old (snapshot d) = d
  apply dec old (differential add del) = minus dec old del ++ add

  -- the payloads sent for a table, in order
  unfoldable pub sent_for : String → List (Sent R) → List (Payload R)
  sent_for table [] = []
  sent_for table (m ∷ ms) =
      let rest = sent_for table ms in ite (String-discrete m.table table) (m.payload ∷ rest) rest

  pub apply_all : Discrete R → List R → List (Payload R) → List R
  apply_all dec old [] = old
  apply_all dec old (m ∷ ms) = apply_all dec (apply dec old m) ms

  sent_for-append :
      (table : String) (ms ns : List (Sent R))
      → sent_for table (ms ++ ns) ≡ sent_for table ms ++ sent_for table ns
  unfolding sent_for
  sent_for-append table [] ns = refl
  sent_for-append table (m ∷ ms) ns = ground (arith, sent_for-append table ms ns)

  -- the differential that is sent, if it has rows
  abbrev payloads : List R → List R → List (Payload R)
  payloads [] [] = []
  payloads add del = differential add del ∷ []

  sent_for-send_differential :
      (table : String) (add del : List R) (s : Publisher R)
      → sent_for table (send_differential table add del s).sent
        ≡ sent_for table s.sent ++ payloads add del
  unfolding send_differential send
  sent_for-send_differential table [] [] s = sym (append-nil _)
  sent_for-send_differential table [] (x ∷ del) s =
      sent_for-append table s.sent _ ∙ unfold sent_for in ground arith
  sent_for-send_differential table (x ∷ add) del s =
      sent_for-append table s.sent _ ∙ unfold sent_for in ground arith

module _ {R : Type 0} (dec : Discrete R) where
  -- the rows last published, none for a table that never was
  pub last_rows : String → Publisher R → List R
  last_rows table s = get_or (get String-discrete s.last_published_data table) []

  member-apply :
      (r : R) (old add del : List R)
      → member dec r (apply dec old (differential add del))
        ≡ ((member dec r old && not (member dec r del)) || member dec r add)
  unfolding apply
  member-apply r old add del =
      ground (arith, member-append dec r (minus dec old del) add, member-minus dec r old del)

  member-payloads :
      (r : R) (old add del : List R)
      → member dec r (apply_all dec old (payloads add del))
        ≡ ((member dec r old && not (member dec r del)) || member dec r add)
  unfolding apply_all
  member-payloads r old [] [] = unfold member in ground arith
  member-payloads r old [] (x ∷ del) = member-apply r old [] (x ∷ del)
  member-payloads r old (x ∷ add) del = member-apply r old (x ∷ add) del

  member-differential :
      (r : R) (table : String) (d : List R) (s : Publisher R)
      → ((member dec r (last_rows table s) && not (member dec r (to_del dec table d s)))
          || member dec r (to_add dec table d s))
        ≡ member dec r d
  unfolding last_rows to_add to_del
  member-differential r table d s =
      elim (Option-cases (get String-discrete s.last_published_data table)) [
        | inl e ↦ unfold member in ground arith
        | inr (old, e) ↦ ground (arith, member-minus dec r d old, member-minus dec r old d)
      ]

  payloads_sent : String → List R → Publisher R → List (Payload R)
  payloads_sent table d s = payloads (to_add dec table d s) (to_del dec table d s)

  sent-publish :
      (table : String) (d : List R) (s : Publisher R)
      → sent_for table (publish dec table d false s).sent
        ≡ sent_for table s.sent ++ payloads_sent table d s
  unfolding publish payloads_sent
  sent-publish table d s =
      sent_for-send_differential table (to_add dec table d s) (to_del dec table d s)
        (record s { last_published_data = put String-discrete s.last_published_data table d })

  last_rows-publish :
      (table : String) (d : List R) (s : Publisher R)
      → last_rows table (publish dec table d false s) ≡ d
  unfolding publish last_rows
  last_rows-publish table d s = kept (to_add dec table d s) (to_del dec table d s)
    where
      s' : Publisher R
      s' = record s { last_published_data = put String-discrete s.last_published_data table d }

      kept : (add del : List R) → last_rows table (send_differential table add del s') ≡ d
      kept [] [] =
          unfold send_differential in
          ground (arith, get-put String-discrete s.last_published_data table table d)
      kept [] (x ∷ del) =
          unfold send_differential send in
          ground (arith, get-put String-discrete s.last_published_data table table d)
      kept (x ∷ add) del =
          unfold send_differential send in
          ground (arith, get-put String-discrete s.last_published_data table table d)

  -- `publish(table, data)` for each data of the list
  pub publish_all : String → List (List R) → Publisher R → Publisher R
  publish_all table [] s = s
  publish_all table (d ∷ ds) s = publish_all table ds (publish dec table d false s)

  apply_all-append :
      (old : List R) (ms ns : List (Payload R))
      → apply_all dec old (ms ++ ns) ≡ apply_all dec (apply_all dec old ms) ns
  unfolding apply_all
  apply_all-append old [] ns = refl
  apply_all-append old (m ∷ ms) ns = apply_all-append (apply dec old m) ms ns

  -- the same rows before give the same rows after
  member-apply_all :
      (ms : List (Payload R)) (old old' : List R)
      → ((r : R) → member dec r old ≡ member dec r old')
      → (r : R) → member dec r (apply_all dec old ms) ≡ member dec r (apply_all dec old' ms)
  unfolding apply_all apply
  member-apply_all [] old old' h r = h r
  member-apply_all (snapshot d ∷ ms) old old' h r = refl
  member-apply_all (differential add del ∷ ms) old old' h r =
      member-apply_all ms (apply dec old (differential add del))
        (apply dec old' (differential add del))
        (λ x. ground (arith, member-apply x old add del, member-apply x old' add del, h x)) r

  -- the last data of the list, or what was there before
  abbrev pub newest : List R → List (List R) → List R
  newest old [] = old
  newest old (d ∷ ds) = newest d ds

  -- Publish any sequence of data for a table by differentials. The messages sent for the table
  -- are those sent before and then new ones; a subscriber that held the rows last published, as a
  -- set, and applies the new messages in order holds exactly the rows of the last data of the
  -- sequence, or what it held if the sequence is empty.
  pub publish_all_replay :
      (table : String) (ds : List (List R)) (s : Publisher R)
      → (new : List (Payload R)) × (sent_for table (publish_all table ds s).sent
          ≡ sent_for table s.sent ++ new)
        × ((rows : List R)
            → ((r : R) → member dec r rows ≡ member dec r (last_rows table s))
            → (r : R)
            → member dec r (apply_all dec rows new) ≡ member dec r (newest (last_rows table s) ds))
  unfolding publish_all payloads_sent
  publish_all_replay table [] s = ([], sym (append-nil _), λ rows h r. unfold apply_all in h r)
  publish_all_replay table (d ∷ ds) s =
      let s' = publish dec table d false s in
      let (new, sent, holds) = publish_all_replay table ds s' in
      (
        payloads_sent table d s ++ new,
        sent
            ∙ ap (λ l. l ++ new) (sent-publish table d s)
            ∙ append_assoc _ (payloads_sent table d s) new,
        λ rows h r.
            ap (member dec r) (apply_all-append rows (payloads_sent table d s) new)
            ∙ holds (apply_all dec rows (payloads_sent table d s)) (λ x. first rows h x) r
            ∙ ap (λ (l : List R). member dec r (newest l ds)) (last_rows-publish table d s),
      )
    where
      first :
          (rows : List R)
          → ((r : R) → member dec r rows ≡ member dec r (last_rows table s))
          → (r : R)
          → member dec r (apply_all dec rows (payloads_sent table d s))
            ≡ member dec r (last_rows table (publish dec table d false s))
      first rows h r =
          member-payloads r rows (to_add dec table d s) (to_del dec table d s)
          ∙ ground (arith, h r, member-differential r table d s)
          ∙ ap (member dec r) (sym (last_rows-publish table d s))
