-- ===== src/Tests/Datalog.antt =====
-- The data structures of congress/datalog at concrete inputs.
use congress.Prelude.{
  ℕ, ◌+◌, ◌-◌, ◌<◌, String, ◌≡◌, ◌≢◌, ◌↔◌, refl, inl, inr, ite, Bool, true, false, not, ◌||◌,
  Option, none, some, List, [], ◌∷◌, length, arith, ℕ_discrete, String-discrete, codes, Text,
  Text-discrete, List-discrete, is_some, if◌then◌else◌, subst,
}
use congress.Sets.{member, insert}
use congress.Dict.Base.{get, put, Distinct}
use congress.Dict.Nested.{get2}
use congress.Datalog.FactSet.{
  Columns, columns_dec, Fact, FactSet, is_nil, is_sorted, compute_key, bucket, index_add, add,
  remove_fact, find, has_index, create_index, add_fact_to_index, index_facts,
}
use congress.Datalog.FactSet.Index.{in_facts, Fits}
use congress.Datalog.FactSet.Changes.{IsValid, add-IsValid, remove_fact-IsValid}
use congress.Datalog.FactSet.Create.{create_index-IsValid}
use congress.Datalog.FactSet.Find.{Agrees, columns_of, find-Agrees}
use congress.Datalog.ModalIndex
use congress.Datalog.ModalIndex.{ModalIndex, remove_one, left_over, isub, iadd, dec}
use congress.Datalog.ModalIndex.Counts.{count, IsClean, add-IsClean, remove_one-IsClean}
use congress.Datalog.ModalIndex.Merge.{AllDistinct, count-iadd}
use congress.Datalog.ModalIndex.Subtract.{subtracted, count-isub}
use congress.Datalog.Graph.{Graph, stratification}
use congress.Datalog.Graph.Rounds.{Closed}
use congress.Datalog.Graph.Stratify.{Means, stratification-Means}
use congress.Datalog.Networks.{IpNetwork, networks_overlap, Common, networks_overlap_iff}

abbrev no_facts : FactSet ℕ
no_facts = record { facts = []; indicies = [] }

abbrev pairs : FactSet ℕ
pairs = record { facts = (1 ∷ 10 ∷ []) ∷ (2 ∷ 10 ∷ []) ∷ []; indicies = [] }

by_second : Columns
by_second = 1 ∷ []

wide :
    (f : Fact ℕ)
    → in_facts ℕ_discrete f pairs.facts ≡ true
    → is_some (compute_key (1 ∷ []) f) ≡ true
unfolding member compute_key
wide f h = ground arith

create_index-IsValid_example :
    ((create_index ℕ_discrete (1 ∷ []) pairs).1 ≡ some tt)
    × ((create_index ℕ_discrete (1 ∷ []) pairs).0.facts ≡ pairs.facts)
    × IsValid ℕ_discrete (create_index ℕ_discrete (1 ∷ []) pairs).0
    × ((c : Columns)
        → c ≢ 1 ∷ []
        → get columns_dec (create_index ℕ_discrete (1 ∷ []) pairs).0.indicies c
          ≡ get columns_dec pairs.indicies c)
    × (has_index (1 ∷ []) (create_index ℕ_discrete (1 ∷ []) pairs).0
        ≡ (has_index (1 ∷ []) pairs || not (is_nil pairs.facts)))
unfolding is_sorted
create_index-IsValid_example = create_index-IsValid ℕ_discrete (1 ∷ []) pairs tt refl refl wide

-- the facts indexed by their second column
abbrev indexed : FactSet ℕ
indexed = (create_index ℕ_discrete (1 ∷ []) pairs).0

indexed-IsValid : IsValid ℕ_discrete indexed
unfolding is_sorted
indexed-IsValid = (create_index-IsValid ℕ_discrete (1 ∷ []) pairs tt refl refl wide).2

indexed-facts : indexed.facts ≡ pairs.facts
unfolding is_sorted
indexed-facts = (create_index-IsValid ℕ_discrete (1 ∷ []) pairs tt refl refl wide).1

fits : Fits ℕ_discrete (3 ∷ 10 ∷ []) indexed.indicies
unfolding create_index index_facts add_fact_to_index is_sorted has_index compute_key get put
    index_add insert bucket member List-discrete ℕ_discrete
fits = (refl, tt)

add-IsValid_example :
    ((add ℕ_discrete (3 ∷ 10 ∷ []) indexed).1
      ≡ some (not (in_facts ℕ_discrete (3 ∷ 10 ∷ []) indexed.facts)))
    × ((g : Fact ℕ)
        → in_facts ℕ_discrete g (add ℕ_discrete (3 ∷ 10 ∷ []) indexed).0.facts
          ≡ ite
              (List-discrete ℕ_discrete (3 ∷ 10 ∷ []) g)
              true
              (in_facts ℕ_discrete g indexed.facts))
    × IsValid ℕ_discrete (add ℕ_discrete (3 ∷ 10 ∷ []) indexed).0
add-IsValid_example = add-IsValid ℕ_discrete (3 ∷ 10 ∷ []) indexed indexed-IsValid fits

remove_fact-IsValid_example :
    ((remove_fact ℕ_discrete (2 ∷ 10 ∷ []) indexed).1
      ≡ some (in_facts ℕ_discrete (2 ∷ 10 ∷ []) indexed.facts))
    × ((g : Fact ℕ)
        → in_facts ℕ_discrete g (remove_fact ℕ_discrete (2 ∷ 10 ∷ []) indexed).0.facts
          ≡ ite
              (List-discrete ℕ_discrete (2 ∷ 10 ∷ []) g)
              false
              (in_facts ℕ_discrete g indexed.facts))
    × IsValid ℕ_discrete (remove_fact ℕ_discrete (2 ∷ 10 ∷ []) indexed).0
remove_fact-IsValid_example = remove_fact-IsValid ℕ_discrete (2 ∷ 10 ∷ []) indexed indexed-IsValid

wide_indexed :
    (f : Fact ℕ)
    → in_facts ℕ_discrete f indexed.facts ≡ true
    → is_some (compute_key (columns_of {A = ℕ} ((1, 10) ∷ [])) f) ≡ true
wide_indexed f h =
    wide f (subst (λ (l : List (Fact ℕ)). in_facts ℕ_discrete f l ≡ true) indexed-facts h)

find-Agrees_example :
    (found : List (Fact ℕ)) × (n : ℕ) × (find ℕ_discrete ((1, 10) ∷ []) indexed ≡ some (found, n))
    × ((f : Fact ℕ)
        → (in_facts ℕ_discrete f found ≡ true)
          ↔ ((in_facts ℕ_discrete f indexed.facts ≡ true) × Agrees ((1, 10) ∷ []) f))
    × (n ≡ (
        if has_index (columns_of {A = ℕ} ((1, 10) ∷ [])) indexed then 1 else length indexed.facts))
find-Agrees_example = find-Agrees ℕ_discrete ((1, 10) ∷ []) indexed indexed-IsValid wide_indexed

-- p depends on q, q on the negation of r
abbrev rules : Graph String Bool
rules = record {
  nodes = "p" ∷ "q" ∷ "r" ∷ [];
  edges = ("p", ("q", none) ∷ []) ∷ ("q", ("r", some true) ∷ []) ∷ [];
}

abbrev negated : Option Bool → Bool
negated none = false
negated (some b) = b

rules-Closed : Closed String-discrete negated rules.nodes rules.edges
rules-Closed = (inl refl, (inr (inl refl), tt), (inr (inl refl), (inr (inr (inl refl)), tt), tt))

stratification-Means_example :
    Means String-discrete negated rules (stratification String-discrete negated rules)
stratification-Means_example = stratification-Means String-discrete negated rules rules-Closed

abbrev usage : ModalIndex
usage = ((codes "execute"), ((codes "p"), 2) ∷ ((codes "q"), 1) ∷ []) ∷ []

usage-IsClean : IsClean usage
unfolding get2 get
usage-IsClean = record { counted = λ m t. ground arith; occupied = λ m. ground arith }

remove_one-IsClean_example :
    ((remove_one usage (codes "execute") (codes "q") ≡ none)
      ↔ (count usage (codes "execute") (codes "q") ≡ 0))
    × ((after : ModalIndex)
        → remove_one usage (codes "execute") (codes "q") ≡ some after
        → IsClean after
          × ((p u : Text)
              → count after p u
                ≡ ite
                    (dec (codes "execute") p)
                    (ite (dec (codes "q") u) (count usage p u - 1) (count usage p u))
                    (count usage p u)))
remove_one-IsClean_example = remove_one-IsClean usage (codes "execute") (codes "q") usage-IsClean

add-IsClean_example :
    IsClean (ModalIndex.add usage (codes "insert") (codes "p"))
    × ((p u : Text)
        → count (ModalIndex.add usage (codes "insert") (codes "p")) p u
          ≡ ite
              (dec (codes "insert") p)
              (ite (dec (codes "p") u) (count usage p u + 1) (count usage p u))
              (count usage p u))
add-IsClean_example = add-IsClean usage (codes "insert") (codes "p") usage-IsClean

abbrev more_usage : ModalIndex
more_usage =
    ((codes "execute"), ((codes "q"), 1) ∷ ((codes "r"), 1) ∷ [])
    ∷ ((codes "insert"), ((codes "p"), 1) ∷ [])
    ∷ []

count-isub_example :
    (get2 dec dec (left_over usage more_usage) (codes "execute") (codes "q")
      ≡ subtracted
          (get2 dec dec usage (codes "execute") (codes "q"))
          (get2 dec dec more_usage (codes "execute") (codes "q")))
    × (count (isub usage more_usage) (codes "execute") (codes "q")
        ≡ count usage (codes "execute") (codes "q")
          - count more_usage (codes "execute") (codes "q"))
count-isub_example = count-isub usage more_usage (codes "execute") (codes "q")

distinct : Distinct dec more_usage
unfolding get Text-discrete
distinct = (refl, (refl, tt))

tables_distinct : AllDistinct more_usage
unfolding get Text-discrete
tables_distinct = ((refl, (refl, tt)), ((refl, tt), tt))

count-iadd_example :
    count (iadd usage more_usage) (codes "execute") (codes "q")
    ≡ count usage (codes "execute") (codes "q") + count more_usage (codes "execute") (codes "q")
count-iadd_example =
    count-iadd more_usage usage (codes "execute") (codes "q") distinct tables_distinct

abbrev subnet : IpNetwork
subnet = record { first = 16; last = 31 }

abbrev network : IpNetwork
network = record { first = 0; last = 255 }

networks_overlap_iff_example :
    (networks_overlap subnet network ≡ true)
    ↔ (Common subnet network × (¬ ((network.first < subnet.first) × (subnet.last < network.last))))
networks_overlap_iff_example = networks_overlap_iff subnet network (omega arith) (omega arith)
