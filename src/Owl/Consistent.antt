-- ===== src/Owl/Consistent.antt =====
-- src/functions/rdf_owl_rl_consistent.rs: the function that runs every inconsistency rule and reports
-- the violations, within a cap.
pub mod Capped
mod Examples
use sqlite_sparql.Prelude.{
  ℕ, ◌-◌, String, List, [], ◌∷◌, ◌++◌, Bool, Option, none, some, Result, SparqlError, ok, err,
  eval_error, invalid_argument, ok_or, or_default, length, ltb, leb, if◌then◌else◌, sort, is_blank,
}
use sqlite_sparql.Prelude.Fuel
use sqlite_sparql.Prelude.Fuel.{Fueled}
use sqlite_sparql.Rdf.{GraphName}
use sqlite_sparql.Oxigraph.{QuadStore, TermParsers}
use sqlite_sparql.Terms.{parse_graph_name}
use sqlite_sparql.Owl.Inconsistency.{ViolationRecord, Display, compare_violations}
use sqlite_sparql.Owl.Inconsistency.Properties.{
  detect_prp_irp, detect_prp_asyp, detect_prp_pdw, detect_prp_adp, detect_prp_npa1, detect_prp_npa2,
}
use sqlite_sparql.Owl.Inconsistency.Classes.{
  detect_cls_nothing2, detect_cls_com, detect_cls_maxc1, detect_cls_maxqc1, detect_cls_maxqc2,
  detect_cax_dw, detect_cax_adc,
}
use sqlite_sparql.Owl.Inconsistency.Individuals.{detect_eq_diff1, detect_eq_diff2, detect_eq_diff3}
use sqlite_sparql.Owl.Inconsistency.Datatypes.{detect_dt_not_type}

pub record InconsistencyRule : Type 0 where
  pub iri : String
  pub detect : GraphName → GraphName → Fueled (List ViolationRecord)

abbrev rule : String → (GraphName → GraphName → Fueled (List ViolationRecord)) → InconsistencyRule
rule iri detect = record { iri = iri; detect = detect }

-- The table of the source over one store, with the fuel of the walks along lists.
unfoldable pub inconsistency_rules :
    (db : QuadStore) → db.Store → Display → ℕ → List InconsistencyRule
inconsistency_rules db store text fuel =
    rule "prp-irp" (λ a i. some (detect_prp_irp db store text a i))
    ∷ rule "prp-asyp" (λ a i. some (detect_prp_asyp db store text a i))
    ∷ rule "prp-pdw" (λ a i. some (detect_prp_pdw db store text a i))
    ∷ rule "prp-adp" (detect_prp_adp db store text fuel)
    ∷ rule "prp-npa1" (λ a i. some (detect_prp_npa1 db store text a i))
    ∷ rule "prp-npa2" (λ a i. some (detect_prp_npa2 db store text a i))
    ∷ rule "cls-nothing2" (λ a i. some (detect_cls_nothing2 db store text a i))
    ∷ rule "cls-com" (λ a i. some (detect_cls_com db store text a i))
    ∷ rule "cls-maxc1" (λ a i. some (detect_cls_maxc1 db store text a i))
    ∷ rule "cls-maxqc1" (λ a i. some (detect_cls_maxqc1 db store text a i))
    ∷ rule "cls-maxqc2" (λ a i. some (detect_cls_maxqc2 db store text a i))
    ∷ rule "cax-dw" (λ a i. some (detect_cax_dw db store text a i))
    ∷ rule "cax-adc" (detect_cax_adc db store text fuel)
    ∷ rule "eq-diff1" (λ a i. some (detect_eq_diff1 db store text a i))
    ∷ rule "eq-diff2" (detect_eq_diff2 db store text fuel)
    ∷ rule "eq-diff3" (detect_eq_diff3 db store text fuel)
    ∷ rule "dt-not-type" (λ a i. some (detect_dt_not_type db store text a i))
    ∷ []

abbrev pub cap_exceeded : SparqlError
cap_exceeded = eval_error "rdf_owl_rl_consistent: violation count exceeded max_violations ({})"

-- `map_err` around a detector
abbrev pub map_err : Fueled (List ViolationRecord) → Fueled (List ViolationRecord)
map_err none = none
map_err (some (ok found)) = some (ok found)
map_err (some (err e)) = some (err (eval_error "rdf_owl_rl_consistent: rule {} error: {e}"))

abbrev pub default_max_violations : ℕ
default_max_violations = 10000

-- The loop over the table.
unfoldable pub run_rules :
    ℕ
    → GraphName
    → GraphName
    → List InconsistencyRule
    → List ViolationRecord
    → Fueled (List ViolationRecord)
unfolding sort compare_violations
run_rules max_violations a i [] all = some (ok all)
run_rules max_violations a i (r ∷ rules) all =
    if leb max_violations (length all)
    then some (err cap_exceeded)
    else (Fuel.◌>>=◌ (map_err (r.detect a i)) (λ found.
        if ltb (max_violations - length all) (length found)
        then some (err cap_exceeded)
        else run_rules max_violations a i rules (all ++ sort compare_violations found)))

module _ (db : QuadStore) (store : db.Store) (parsers : TermParsers) (text : Display)
    (to_json : List ViolationRecord → String) (fuel : ℕ) where
  unfoldable pub execute_consistent : Option String → String → ℕ → Fueled String
  unfolding run_rules inconsistency_rules
  execute_consistent asserted inferred max_violations =
      Fuel.◌>>=◌ (some (parse_graph_name parsers asserted)) (λ asserted_g.
        Fuel.◌>>=◌ (some (parse_graph_name parsers (some inferred))) (λ inferred_g.
          Fuel.◌>>=◌
            (run_rules max_violations asserted_g inferred_g (inconsistency_rules db store text fuel)
              [])
            (λ all. some (ok (to_json (sort compare_violations all))))))

  -- The handler. `read_options` is serde's reading of the options, of which `{}` gives the default.
  unfoldable pub rdf_owl_rl_consistent :
      (String → Option ℕ) → Option String → Option String → Option String → Fueled String
  unfolding execute_consistent is_blank
  rdf_owl_rl_consistent read_options asserted none options_json = some (
      err (
        invalid_argument
          "rdf_owl_rl_consistent: inferred_iri must be a named graph (NULL is not allowed for the inferred slot)"))
  rdf_owl_rl_consistent read_options asserted (some inferred) options_json =
      let options = or_default options_json "{}" in
      Fuel.◌>>=◌
        (some (
          if is_blank options
          then ok default_max_violations
          else ok_or (read_options options)
              (invalid_argument "rdf_owl_rl_consistent: options_json: {e}")))
        (λ max_violations. execute_consistent asserted inferred max_violations)
