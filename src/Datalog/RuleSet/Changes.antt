-- ===== src/Datalog/RuleSet/Changes.antt =====
-- `add_rule` and `discard_rule` against `contains` in ruleset.py.
use congress.Prelude.{
  ◌≡◌, sym, subst, Text, Text-discrete, Bool, false, not, ◌&&◌, ◌||◌, ite, Option, some, List,
  arith,
}
use congress.Datalog.RuleSet.{RuleSet, Entry, add_rule, discard_rule, contains}
use congress.Datalog.RuleSet.Contents.{IsRuleSet}
use congress.Datalog.RuleSet.Entries.{
  slot, same, is_literal, is_negated_fact, SlotFits, contains-slot, add_rule-slot,
  discard_rule-slot, put_slot-in_slot, take_slot-in_slot,
}

module _ {A R : Type 0} (dec : Discrete A) (dec_rule : Discrete R)
    (has_body head_negated : R → Bool) (head_names : R → List A) where
  abbrev contained : Text → Entry A R → RuleSet A R → Bool
  contained = contains dec dec_rule has_body head_negated head_names

  -- what the entry is for the set: the fact with its values, or the rule
  abbrev pub alike : Entry A R → Entry A R → Bool
  alike e e' =
      same dec dec_rule has_body head_negated head_names
        (slot dec dec_rule has_body head_negated head_names e)
        (slot dec dec_rule has_body head_negated head_names e')

  -- Adding a fact or a rule, in a rule set whose indices are exact and where a fact has all the
  -- columns of the indices of its table, answers True exactly if `contains` is False for it. Then
  -- `contains` is True for it, in this table, and for the entries that stand for the same fact or
  -- rule, and all else is as before; the indices stay exact. Excepted is a rule without a body
  -- whose head is negated.
  pub add_rule-contains :
      (key : Text) (e : Entry A R) (s : RuleSet A R)
      → is_literal dec dec_rule has_body head_negated head_names e ≡ false
      → is_negated_fact dec dec_rule has_body head_negated head_names e ≡ false
      → IsRuleSet dec dec_rule has_body head_negated head_names s
      → SlotFits dec dec_rule has_body head_negated head_names
          (slot dec dec_rule has_body head_negated head_names e)
          key
          s
      → ((add_rule dec dec_rule has_body head_negated head_names key e s).1
          ≡ some (not (contained key e s)))
        × ((k : Text) (e' : Entry A R)
            → contained k e' (add_rule dec dec_rule has_body head_negated head_names key e s).0
              ≡ ite (Text-discrete key k) (alike e e' || contained k e' s) (contained k e' s))
        × IsRuleSet dec dec_rule has_body head_negated head_names
            (add_rule dec dec_rule has_body head_negated head_names key e s).0
  add_rule-contains key e s l n h fits =
      let to_slot = slot dec dec_rule has_body head_negated head_names in
      let in_it = contains-slot dec dec_rule has_body head_negated head_names in
      let (answer, contents, valid) =
        put_slot-in_slot dec dec_rule has_body head_negated head_names key (to_slot e) s h fits in
      let step = add_rule-slot dec dec_rule has_body head_negated head_names key e s l n in
      (
        ground (arith, step, answer, in_it key e s),
        λ k e'. ground (
          arith,
          step,
          contents k (to_slot e'),
          in_it k e' s,
          in_it k e' (add_rule dec dec_rule has_body head_negated head_names key e s).0,
        ),
        subst
            (λ (out : RuleSet A R × Option Bool).
              IsRuleSet dec dec_rule has_body head_negated head_names out.0)
            (sym step) valid,
      )

  -- Discarding a fact or a rule, in a rule set whose indices are exact, answers what `contains`
  -- said of it. Then `contains` is False for it, in this table, and for the entries that stand for
  -- the same fact or rule, and all else is as before; the indices stay exact.
  pub discard_rule-contains :
      (key : Text) (e : Entry A R) (s : RuleSet A R)
      → is_literal dec dec_rule has_body head_negated head_names e ≡ false
      → IsRuleSet dec dec_rule has_body head_negated head_names s
      → ((discard_rule dec dec_rule has_body head_negated head_names key e s).1
          ≡ some (contained key e s))
        × ((k : Text) (e' : Entry A R)
            → contained k e' (discard_rule dec dec_rule has_body head_negated head_names key e s).0
              ≡ ite (Text-discrete key k) (not (alike e e') && contained k e' s) (contained k e' s))
        × IsRuleSet dec dec_rule has_body head_negated head_names
            (discard_rule dec dec_rule has_body head_negated head_names key e s).0
  discard_rule-contains key e s l h =
      let to_slot = slot dec dec_rule has_body head_negated head_names in
      let in_it = contains-slot dec dec_rule has_body head_negated head_names in
      let (answer, contents, valid) =
        take_slot-in_slot dec dec_rule has_body head_negated head_names key (to_slot e) s h in
      let step = discard_rule-slot dec dec_rule has_body head_negated head_names key e s l in
      (
        ground (arith, step, answer, in_it key e s),
        λ k e'. ground (
          arith,
          step,
          contents k (to_slot e'),
          in_it k e' s,
          in_it k e' (discard_rule dec dec_rule has_body head_negated head_names key e s).0,
        ),
        subst
            (λ (out : RuleSet A R × Option Bool).
              IsRuleSet dec dec_rule has_body head_negated head_names out.0)
            (sym step) valid,
      )
