-- ===== src/Datalog/Schema/Reverts.antt =====
-- `revert` of `Schema` of compile.py undoes `update`.
use congress.Prelude.{
  ℕ, ◌+◌, ◌-◌, ◌≤◌, ◌<◌, ◌≡◌, refl, sym, subst, ltb, Text, Bool, true, false, none, some, is_some,
  arith, Option-cases, Bool-cases, inl, inr,
}
use congress.Dict.Base.{get, put, remove, get-put, get-remove}
use congress.Datalog.Schema.{
  TableColumns, names, range_map, Schema, Item, change_of, update, update_insert, update_delete,
  revert, revert_delete,
}
use congress.Datalog.Schema.Insertions.{dec, IsCounted, Restores, Undone, insert_known, insert_new}

module _ (item : Item) (s : Schema) (h : IsCounted s) where
  delete_absent : Undone s h.counts (some (s, none))
  unfolding revert
  delete_absent = (
    h,
    record {
      counts' = h.counts;
      held = h.held;
      columns = λ t. refl;
      counted = λ t. refl;
      complete = refl;
    },
  )

  delete_used :
      (n : ℕ)
      → get dec h.counts item.table ≡ some n
      → 1 < n
      → Undone s h.counts (
          some (
            record s { count = some (put dec h.counts item.table (n - 1)) },
            some (change_of item false none),
          ))
  unfolding revert revert_delete
  delete_used n e lt = (
    record {
      counts = put dec h.counts item.table (n - 1);
      held = refl;
      known = λ t. ground (arith, get-put dec h.counts item.table t (n - 1), h.known t);
      positive = λ t. ground (arith, get-put dec h.counts item.table t (n - 1), h.positive t);
    },
    subst (Restores s h.counts) (sym back) (record {
      counts' = put dec (put dec h.counts item.table (n - 1)) item.table (n - 1 + 1);
      held = refl;
      columns = λ t. refl;
      counted = λ t. ground (
        arith,
        get-put dec (put dec h.counts item.table (n - 1)) item.table t (n - 1 + 1),
        get-put dec h.counts item.table t (n - 1),
      );
      complete = refl;
    }),
  )
    where
      back :
          revert
            (some (change_of item false none))
            (record s { count = some (put dec h.counts item.table (n - 1)) })
          ≡ some (record s {
            count = some (put dec (put dec h.counts item.table (n - 1)) item.table (n - 1 + 1));
          })
      back = ground (arith, get-put dec h.counts item.table item.table (n - 1))

  delete_last :
      (n : ℕ) (c : TableColumns)
      → get dec h.counts item.table ≡ some n
      → n ≤ 1
      → get dec s.tables item.table ≡ some c
      → Undone s h.counts (
          some (
            record s {
              tables = remove dec s.tables item.table;
              count = some (remove dec h.counts item.table);
            },
            some (change_of item false (some c)),
          ))
  unfolding revert revert_delete
  delete_last n c e le f = (
    record {
      counts = remove dec h.counts item.table;
      held = refl;
      known = λ t. ground (
        arith,
        get-remove dec h.counts item.table t,
        get-remove dec s.tables item.table t,
        h.known t,
      );
      positive = λ t. ground (arith, get-remove dec h.counts item.table t, h.positive t);
    },
    subst (Restores s h.counts) (sym back) (record {
      counts' = put dec (remove dec h.counts item.table) item.table 1;
      held = refl;
      columns = λ t. ground (
        arith,
        get-put dec (remove dec s.tables item.table) item.table t c,
        get-remove dec s.tables item.table t,
      );
      counted = λ t. ground (
        arith,
        get-put dec (remove dec h.counts item.table) item.table t 1,
        get-remove dec h.counts item.table t,
        h.positive item.table,
      );
      complete = refl;
    }),
  )
    where
      back :
          revert (some (change_of item false (some c))) (record s {
            tables = remove dec s.tables item.table;
            count = some (remove dec h.counts item.table);
          })
          ≡ some (record s {
            tables = put dec (remove dec s.tables item.table) item.table c;
            count = some (put dec (remove dec h.counts item.table) item.table 1);
          })
      back = ground (arith, get-remove dec h.counts item.table item.table)

  module _ (col : ℕ → Text) where
    update_insert-Undone : Undone s h.counts (update_insert col item h.counts s)
    unfolding update_insert
    update_insert-Undone = elim (Option-cases (get dec h.counts item.table)) [
      | inl e ↦
          let new = names (range_map col 0 item.width) in
          let absent : is_some (get dec s.tables item.table) ≡ false =
            ground (arith, h.known item.table) in
          rw (absent, update_insert) (insert_new item s h new e)
      | inr (n, e) ↦
          let there : is_some (get dec s.tables item.table) ≡ true =
            ground (arith, h.known item.table) in
          rw (there, e, update_insert) (insert_known item s h n e)
    ]

    update_delete-Undone : Undone s h.counts (update_delete col item h.counts s)
    unfolding update_delete
    update_delete-Undone = elim (Option-cases (get dec s.tables item.table)) [
      | inl e ↦ rw (e, update_delete) delete_absent
      | inr (c, f) ↦ elim (Option-cases (get dec h.counts item.table)) [
        | inl e ↦ absurd (ground (arith, h.known item.table))
        | inr (n, e) ↦ elim (Bool-cases (ltb 1 n)) [
          | inl b ↦ rw (f, e, b, update_delete) (delete_used n e (ground arith))
          | inr b ↦ rw (f, e, b, update_delete) (delete_last n c e (ground arith) f)
        ]
      ]
    ]

-- Let the tables be those with a count, and no count 0. Then an update, be it an insertion or a
-- deletion, raises nothing and keeps this so; and reverting the change that it returns raises
-- nothing and restores the columns and the count of every table.
pub update-Undone :
    (col : ℕ → Text) (item : Item) (is_insert : Bool) (s : Schema) (h : IsCounted s)
    → Undone s h.counts (update col item is_insert s)
unfolding update
update-Undone col item true s h = simp (h.held, update) (update_insert-Undone item s h col)
update-Undone col item false s h = simp (h.held, update) (update_delete-Undone item s h col)
