-- ===== src/Datalog/Schema/Insertions.antt =====
-- Insertions into `Schema` of compile.py and what `revert` makes of them.
use congress.Prelude.{
  ℕ, ◌+◌, ◌≡◌, ◌≢◌, refl, sym, subst, Text, Text-discrete, true, Option, none, some, is_some, arith,
}
use congress.Dict.Base.{Dict, get, put, remove, get-put, get-remove}
use congress.Datalog.Schema.{TableColumns, Schema, Item, Change, change_of, revert, revert_insert}

abbrev pub dec : Discrete Text
dec = Text-discrete

-- The tables are those that have a count, and no count is 0.
pub record IsCounted (s : Schema) : Type 0 where
  pub counts : Dict Text ℕ
  pub held : s.count ≡ some counts
  pub known : (t : Text) → is_some (get dec s.tables t) ≡ is_some (get dec counts t)
  pub positive : (t : Text) → get dec counts t ≢ some 0

-- the same columns and counts, table by table
pub record SameSchema (s s' : Schema) (counts : Dict Text ℕ) : Type 0 where
  pub counts' : Dict Text ℕ
  pub held : s'.count ≡ some counts'
  pub columns : (t : Text) → get dec s'.tables t ≡ get dec s.tables t
  pub counted : (t : Text) → get dec counts' t ≡ get dec counts t
  pub complete : s'.complete ≡ s.complete

abbrev pub Restores : Schema → Dict Text ℕ → Option Schema → Type 0
Restores s counts none = ⊥
Restores s counts (some s') = SameSchema s s' counts

-- an update succeeds, keeps the counts right, and can be undone
abbrev pub Undone : Schema → Dict Text ℕ → Option (Schema × Option Change) → Type 0
Undone s counts none = ⊥
Undone s counts (some (s', change)) = IsCounted s' × Restores s counts (revert change s')

module _ (item : Item) (s : Schema) (h : IsCounted s) where
  pub insert_known :
      (n : ℕ)
      → get dec h.counts item.table ≡ some n
      → Undone s h.counts (
          some (
            record s { count = some (put dec h.counts item.table (n + 1)) },
            some (change_of item true none),
          ))
  unfolding revert revert_insert
  insert_known n e = (
    record {
      counts = put dec h.counts item.table (n + 1);
      held = refl;
      known = λ t. ground (arith, get-put dec h.counts item.table t (n + 1), h.known t);
      positive = λ t. ground (arith, get-put dec h.counts item.table t (n + 1), h.positive t);
    },
    subst (Restores s h.counts) (sym back) (record {
      counts' = put dec (put dec h.counts item.table (n + 1)) item.table n;
      held = refl;
      columns = λ t. refl;
      counted = λ t. ground (
        arith,
        get-put dec (put dec h.counts item.table (n + 1)) item.table t n,
        get-put dec h.counts item.table t (n + 1),
      );
      complete = refl;
    }),
  )
    where
      back :
          revert
            (some (change_of item true none))
            (record s { count = some (put dec h.counts item.table (n + 1)) })
          ≡ some (record s {
            count = some (put dec (put dec h.counts item.table (n + 1)) item.table n);
          })
      back =
          ground (arith, get-put dec h.counts item.table item.table (n + 1), h.positive item.table)

  pub insert_new :
      (c : TableColumns)
      → get dec h.counts item.table ≡ none
      → Undone s h.counts (
          some (
            record s {
              tables = put dec s.tables item.table c;
              count = some (put dec h.counts item.table 1);
            },
            some (change_of item true (some c)),
          ))
  unfolding revert revert_insert
  insert_new c e = (
    record {
      counts = put dec h.counts item.table 1;
      held = refl;
      known = λ t. ground (
        arith,
        get-put dec h.counts item.table t 1,
        get-put dec s.tables item.table t c,
        h.known t,
      );
      positive = λ t. ground (arith, get-put dec h.counts item.table t 1, h.positive t);
    },
    subst (Restores s h.counts) (sym back) (record {
      counts' = remove dec (put dec h.counts item.table 1) item.table;
      held = refl;
      columns = λ t. ground (
        arith,
        get-remove dec (put dec s.tables item.table c) item.table t,
        get-put dec s.tables item.table t c,
        h.known t,
      );
      counted = λ t. ground (
        arith,
        get-remove dec (put dec h.counts item.table 1) item.table t,
        get-put dec h.counts item.table t 1,
      );
      complete = refl;
    }),
  )
    where
      back :
          revert (some (change_of item true (some c))) (record s {
            tables = put dec s.tables item.table c;
            count = some (put dec h.counts item.table 1);
          })
          ≡ some (record s {
            tables = remove dec (put dec s.tables item.table c) item.table;
            count = some (remove dec (put dec h.counts item.table 1) item.table);
          })
      back = ground (
        arith,
        get-put dec h.counts item.table item.table 1,
        get-put dec s.tables item.table item.table c,
      )
