-- ===== src/Datalog/Dependencies/Modals.antt =====
-- The modals that `formula_nodes_edges` of compile.py finds: no key stands twice.
use congress.Prelude.{
  ℕ, ◌≡◌, refl, sym, subst, inl, inr, Text, Text-discrete, Bool, ite, Option, none, some, List, [],
  ◌∷◌, arith, get_or, Bool-cases,
}
use congress.Dict.Base.{Dict, get, put, Distinct, put-Distinct}
use congress.Dict.Nested.{put2}
use congress.Datalog.BagGraph.{Edge}
use congress.Datalog.ModalIndex
use congress.Datalog.ModalIndex.{ModalIndex}
use congress.Datalog.ModalIndex.Merge.{AllDistinct}
use congress.Datalog.Tablename.{global_tablename}
use congress.Datalog.Formula.{Literal, heads, is_atom}
use congress.Datalog.Safety.{has_text}
use congress.Datalog.Dependencies.{
  Formula, literal, rule, NodesEdges, note_modal, is_atom_rule, skipped, body_edges, head_edges,
  formula_nodes_edges,
}

abbrev pub IsIndex : ModalIndex → Type 0
IsIndex modals = Distinct Text-discrete modals × AllDistinct modals

-- what holds either way
either : {Q B : Type 0} (P : B → Type 0) (d : Dec Q) (x y : B) → P x → P y → P (ite d x y)
either P (yes q) x y a b = a
either P (no q) x y a b = b

get-AllDistinct :
    (index : ModalIndex) (m : Text)
    → AllDistinct index
    → Distinct Text-discrete (get_or (get Text-discrete index m) [])
unfolding get
get-AllDistinct [] m h = tt
get-AllDistinct ((p, d) ∷ index) m h =
    either (λ (o : Option (Dict Text ℕ)). Distinct Text-discrete (get_or o [])) (Text-discrete p m)
      (some d) (get Text-discrete index m) h.0 (get-AllDistinct index m h.1)

put-AllDistinct :
    (index : ModalIndex) (m : Text) (d : Dict Text ℕ)
    → AllDistinct index
    → Distinct Text-discrete d
    → AllDistinct (put Text-discrete index m d)
unfolding put
put-AllDistinct [] m d h k = (k, tt)
put-AllDistinct ((p, e) ∷ index) m d h k =
    either AllDistinct (Text-discrete p m) ((p, d) ∷ index) ((p, e) ∷ put Text-discrete index m d)
      (k, h.1) (h.0, put-AllDistinct index m d h.1 k)

add-IsIndex : (index : ModalIndex) (m t : Text) → IsIndex index → IsIndex (ModalIndex.add index m t)
unfolding ModalIndex.add put2
add-IsIndex index m t (h, k) = (
  put-Distinct Text-discrete index m _ h,
  put-AllDistinct index m _ k (put-Distinct Text-discrete _ t _ (get-AllDistinct index m k)),
)

note_modal-IsIndex :
    (m : Option Text) (t : Text) (index : ModalIndex)
    → IsIndex index
    → IsIndex (note_modal m t index)
note_modal-IsIndex none t index h = h
note_modal-IsIndex (some m) t index h = elim (Bool-cases (has_text (some m))) [
  | inl e ↦
      subst IsIndex
        (let w : ModalIndex.add index m t ≡ note_modal (some m) t index = ground arith in w)
        (add-IsIndex index m t h)
  | inr e ↦ subst IsIndex (let w : index ≡ note_modal (some m) t index = ground arith in w) h
]

module _ {V : Type 0} (dec_edge : Discrete (Edge Text Bool)) where
  body_edges-modals :
      (head_to_body : Bool) (theory : Option Text) (select : Option (Literal V → Bool))
      (head_table : Text) (body : List (Literal V)) (s : NodesEdges)
      → (body_edges dec_edge head_to_body theory select head_table body s).modals ≡ s.modals
  unfolding body_edges
  body_edges-modals head_to_body theory select head_table [] s = refl
  body_edges-modals head_to_body theory select head_table (l ∷ ls) s =
      elim (Bool-cases (skipped select l)) [
        | inl e ↦ simp (e) (body_edges-modals head_to_body theory select head_table ls s)
        | inr e ↦ simp (e) (body_edges-modals head_to_body theory select head_table ls _)
      ]

  head_edges-IsIndex :
      (head_to_body : Bool) (theory : Option Text)
      (select_head select_body : Option (Literal V → Bool)) (body hs : List (Literal V))
      (s : NodesEdges)
      → IsIndex s.modals
      → IsIndex (head_edges dec_edge head_to_body theory select_head select_body body hs s).modals
  unfolding head_edges
  head_edges-IsIndex head_to_body theory select_head select_body body [] s h = h
  head_edges-IsIndex head_to_body theory select_head select_body body (l ∷ ls) s h =
      elim (Bool-cases (skipped select_head l)) [
        | inl e ↦
            simp (e) (head_edges-IsIndex head_to_body theory select_head select_body body ls s h)
        | inr e ↦ simp (e) (
            head_edges-IsIndex head_to_body theory select_head select_body body ls _ (
              subst IsIndex
                (sym (
                  body_edges-modals head_to_body theory select_body
                    (global_tablename theory l.table) body _))
                (note_modal-IsIndex l.table.modal (global_tablename theory l.table) s.modals h)))
      ]

  pub formula_nodes_edges-IsIndex :
      (head_to_body : Bool) (formula : Formula V) (theory : Option Text) (include_atoms : Bool)
      (select_head select_body : Option (Literal V → Bool)) (s : NodesEdges)
      → formula_nodes_edges dec_edge head_to_body formula theory include_atoms select_head
          select_body
        ≡ some s
      → IsIndex s.modals
  unfolding formula_nodes_edges
  formula_nodes_edges-IsIndex head_to_body (literal l) theory include_atoms select_head select_body
        s h =
      elim (Bool-cases (is_atom l)) [
        | inr e ↦ absurd (ground arith)
        | inl e ↦ elim (Bool-cases include_atoms) [
          | inl i ↦
              subst IsIndex
                (let w : note_modal l.table.modal (global_tablename theory l.table) [] ≡ s.modals =
                    ground arith in
                  w)
                (note_modal-IsIndex l.table.modal (global_tablename theory l.table) [] (tt, tt))
          | inr i ↦ subst IsIndex (let w : [] ≡ s.modals = ground arith in w) (tt, tt)
        ]
      ]
  formula_nodes_edges-IsIndex head_to_body (rule r) theory include_atoms select_head select_body s
        h =
      let nothing : NodesEdges = record { nodes = []; edges = []; modals = [] } in
      let found =
        head_edges dec_edge head_to_body theory select_head select_body r.body (heads r) nothing in
      elim (Bool-cases (is_atom_rule r)) [
        | inl e ↦ subst IsIndex (let w : [] ≡ s.modals = ground arith in w) (tt, tt)
        | inr e ↦ subst IsIndex (let w : found.modals ≡ s.modals = ground arith in w) (
            head_edges-IsIndex head_to_body theory select_head select_body r.body (heads r) nothing
              (tt, tt))
      ]
