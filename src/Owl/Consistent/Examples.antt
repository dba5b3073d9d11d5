-- ===== src/Owl/Consistent/Examples.antt =====
-- The loop of src/functions/rdf_owl_rl_consistent.rs over a table of two rules.
use sqlite_sparql.Prelude.{◌≤◌, List, [], ◌∷◌, ◌≡◌, refl, arith, some, ok, err, length, sort}
use sqlite_sparql.Rdf.{default_graph}
use sqlite_sparql.Owl.Inconsistency.{ViolationRecord, record_of}
use sqlite_sparql.Owl.Consistent.{InconsistencyRule, run_rules, cap_exceeded}
use sqlite_sparql.Owl.Consistent.Capped.{
  Reports, run_rules_complete, run_rules-returns, run_rules-at_cap,
}

abbrev clash : ViolationRecord
clash = record_of "cax-dw" "<felix>" "<type>" "<cat>"

abbrev finds_one : InconsistencyRule
finds_one = record { iri = "cax-dw"; detect = λ a i. some (ok (clash ∷ [])) }

abbrev finds_none : InconsistencyRule
finds_none = record { iri = "eq-diff1"; detect = λ a i. some (ok []) }

abbrev table : List InconsistencyRule
table = finds_one ∷ finds_none ∷ []

one_reported : Reports default_graph default_graph (finds_one ∷ []) (clash ∷ [])
unfolding sort
one_reported = (clash ∷ [], [], refl, refl, refl)

reported : Reports default_graph default_graph table (clash ∷ [])
unfolding sort
reported = (clash ∷ [], [], refl, ([], [], refl, refl, refl), refl)

returned : run_rules 2 default_graph default_graph table [] ≡ some (ok (clash ∷ []))
unfolding run_rules
returned = refl

run_rules_complete_example :
    Reports default_graph default_graph table (clash ∷ []) × (length (clash ∷ []) ≤ 2)
run_rules_complete_example =
    run_rules_complete default_graph default_graph 2 table (clash ∷ []) returned

run_rules-returns_example :
    run_rules 2 default_graph default_graph table [] ≡ some (ok (clash ∷ []))
run_rules-returns_example =
    run_rules-returns default_graph default_graph 2 table (clash ∷ []) reported (omega arith)

run_rules-at_cap_example :
    run_rules 1 default_graph default_graph table [] ≡ some (err cap_exceeded)
run_rules-at_cap_example =
    run_rules-at_cap default_graph default_graph 1 (finds_one ∷ []) finds_none [] (clash ∷ [])
      one_reported refl
