-- ===== src/Datalog/Reorder/State.antt =====
-- What holds of the local variables of `reorder_for_safety` of compile.py.
use congress.Prelude.{
  ◌+◌, ◌≡◌, refl, sym, ap, subst, ◌∙◌, Text, Text-discrete, true, false, ◌||◌, ite, Option, some,
  List, [], ◌∷◌, ◌++◌, arith, get_or,
}
use congress.Sets.{member, union, count, member-union, subset_iff, count-append}
use congress.Dict.Base.{get}
use congress.Datalog.Reorder.{Reordering, make_safe, is_ready}

abbrev pub Within : List Text → List Text → Type 0
Within xs ys = (x : Text) → member Text-discrete x xs ≡ true → member Text-discrete x ys ≡ true

module _ {L : Type 0} (dec : Discrete L) (names : L → List Text)
    (target : L → Option (List Text)) where
  -- what must be bound before the literal
  abbrev pub needs : L → List Text
  needs l = get_or (target l) []

  -- what is bound after some literals
  abbrev pub bound : List Text → List L → List Text
  bound b [] = b
  bound b (l ∷ ls) = bound (union Text-discrete b (names l)) ls

  -- Read from left to right, all that a literal needs is bound by the literals before it.
  abbrev pub IsSafe : List Text → List L → Type 0
  IsSafe b [] = Unit
  IsSafe b (l ∷ ls) = Within (needs l) b × IsSafe (union Text-discrete b (names l)) ls

  bound-append :
      (b : List Text) (ls : List L) (l : L)
      → bound b (ls ++ l ∷ []) ≡ union Text-discrete (bound b ls) (names l)
  bound-append b [] l = refl
  bound-append b (x ∷ ls) l = bound-append (union Text-discrete b (names x)) ls l

  IsSafe-append :
      (b : List Text) (ls : List L) (l : L)
      → IsSafe b ls
      → Within (needs l) (bound b ls)
      → IsSafe b (ls ++ l ∷ [])
  IsSafe-append b [] l h k = (k, tt)
  IsSafe-append b (x ∷ ls) l h k = (h.0, IsSafe-append (union Text-discrete b (names x)) ls l h.1 k)

  -- the entry of an unsafe literal: what it needs, less what was safe at some time
  pub record HasEntry (s : Reordering L) (l : L) : Type 0 where
    pub vars : List Text
    pub entry : get dec s.unsafe_variables l ≡ some vars
    pub part : Within vars (needs l)
    pub cover :
        (x : Text)
        → member Text-discrete x (needs l) ≡ true
        → (member Text-discrete x vars || member Text-discrete x s.safe_vars) ≡ true

  pub record IsReordering (seen : List L) (s : Reordering L) : Type 0 where
    pub kept : (l : L) → count dec l s.new_body + count dec l s.unsafe_literals ≡ count dec l seen
    pub safe : IsSafe [] s.new_body
    pub bound_vars : s.safe_vars ≡ bound [] s.new_body
    pub entries : (l : L) → member dec l s.unsafe_literals ≡ true → HasEntry s l

  -- no unsafe literal has become safe
  abbrev pub IsSettled : Reordering L → Type 0
  IsSettled s =
      (l : L)
      → member dec l s.unsafe_literals ≡ true
      → is_ready dec names s.unsafe_variables s.safe_vars l ≡ false

  pub ready-Within :
      (s : Reordering L) (l : L)
      → HasEntry s l
      → is_ready dec names s.unsafe_variables s.safe_vars l ≡ true
      → Within (needs l) s.safe_vars
  unfolding is_ready
  ready-Within s l e r x m =
      ground (arith, e.cover x m, (subset_iff Text-discrete e.vars s.safe_vars).0 (ground arith) x)

  pub Within-ready :
      (s : Reordering L) (l : L)
      → HasEntry s l
      → Within (needs l) s.safe_vars
      → is_ready dec names s.unsafe_variables s.safe_vars l ≡ true
  unfolding is_ready
  Within-ready s l e h =
      let all = (subset_iff Text-discrete e.vars s.safe_vars).1 (λ x m. h x (e.part x m)) in
      ground arith

  pub make_safe-IsReordering :
      (seen seen' : List L) (l : L) (s : Reordering L)
      → IsReordering seen s
      → ((x : L) → count dec x seen' ≡ count dec x seen + ite (dec l x) 1 0)
      → Within (needs l) s.safe_vars
      → IsReordering seen' (make_safe dec names l s)
  unfolding make_safe
  make_safe-IsReordering seen seen' l s h more w = record {
    kept = λ x.
        unfold count in ground (arith, h.kept x, more x, count-append dec x s.new_body (l ∷ []));
    safe = IsSafe-append [] s.new_body l h.safe (subst (Within (needs l)) h.bound_vars w);
    bound_vars =
        ap (λ b. union Text-discrete b (names l)) h.bound_vars ∙ sym (bound-append [] s.new_body l);
    entries = λ x m.
        let e = h.entries x m in
        record {
          vars = e.vars;
          entry = e.entry;
          part = e.part;
          cover = λ y n.
              ground (arith, e.cover y n, member-union Text-discrete y s.safe_vars (names l));
        };
  }
