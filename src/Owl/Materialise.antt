-- ===== src/Owl/Materialise.antt =====
-- The fixpoint loop of src/functions/rdf_owl_rl.rs, over the table of rules, which it treats alike.
-- The store and the dependency index are the two values that the process shares.
mod Examples
pub mod Closed
pub mod Frame
pub mod Converges
use sqlite_sparql.Prelude.{
  ℕ, ℤ, ◌⊖◌, zero, suc, String, joined_text, is_blank, List, [], ◌∷◌, ◌++◌, any, Bool, true, false,
  not, ◌&&◌, ◌||◌, Option, none, some, map, Result, SparqlError, ok, err, eval_error, store_error,
  invalid_argument, ◌>>=◌, ok_or, to_set, ◌==◌, string_eq, if◌then◌else◌,
}
use sqlite_sparql.Rdf.{
  NamedNode, Subject, triple, Term, named_node_term, literal, Triple, mk_triple, GraphName, Quad,
}
use sqlite_sparql.Rdf.Equality.{quad_eq}
use sqlite_sparql.Oxigraph.{QuadStore, TermParsers}
use sqlite_sparql.DependencyIndex.{DependencyIndex, record_derivation}
use sqlite_sparql.Dred.{World}
use sqlite_sparql.Terms.{parse_graph_name}

pub record MaterialiseOptions : Type 0 where
  pub max_iterations : ℕ
  pub provenance : Bool
  pub derived_by_iri : String
  pub derived_at_iri : String
  pub rule_iri_prefix : String
  pub equality_saturation : Bool
  pub eq_reflexive : Bool
  pub track_dependencies : Bool

-- what serde fills in for the fields of `{}`
abbrev pub default_options : MaterialiseOptions
default_options = record {
  max_iterations = 50;
  provenance = false;
  derived_by_iri = "http://www.w3.org/ns/prov#wasDerivedFrom";
  derived_at_iri = "http://www.w3.org/ns/prov#generatedAtTime";
  rule_iri_prefix = "urn:semantica:rule:";
  equality_saturation = true;
  eq_reflexive = false;
  track_dependencies = false;
}

pub record DerivedTriple : Type 0 where
  pub triple_of : Triple
  pub premises : List Quad

pub record Rule (db : QuadStore) : Type 0 where
  pub iri : String
  pub apply : db.Store → GraphName → GraphName → Result (List Triple)
  pub apply_tracked : Option (db.Store → GraphName → GraphName → Result (List DerivedTriple))

abbrev pub eq_rep_rule_iris : List String
eq_rep_rule_iris = "eq-rep-s" ∷ "eq-rep-p" ∷ "eq-rep-o" ∷ []

-- the two `continue`s at the head of the loop over the rules
unfoldable pub skipped : MaterialiseOptions → String → Bool
skipped opts iri =
    (not opts.equality_saturation && any (λ r. r == iri) eq_rep_rule_iris)
    || (not opts.eq_reflexive && iri == "eq-ref")

-- the values that are fixed before the loop starts
pub record Job : Type 0 where
  pub opts : MaterialiseOptions
  pub asserted_g : GraphName
  pub inferred_g : GraphName
  pub derived_by_node : NamedNode
  pub derived_at_node : NamedNode

-- the two vectors that an iteration fills
pub record Round : Type 0 where
  pub new_quads : List Quad
  pub to_record : List (Quad × List Quad)

-- how an iteration ends: with an error, at the fixpoint, or with quads inserted
pub data Iteration (db : QuadStore) : Type 0 where
  failed : World db → SparqlError → Iteration db
  reached : World db → Iteration db
  continues : World db → Iteration db

abbrev pub quad_in : GraphName → Triple → Quad
quad_in g (mk_triple s p o) = record { subject = s; predicate = p; object = o; graph_name = g }

abbrev pub xsd_datetime : NamedNode
xsd_datetime = "http://www.w3.org/2001/XMLSchema#dateTime"

module _ (api : TermParsers) where
  open api use {new_named_node, new_typed_literal}

  unfoldable pub provenance_annotations : Triple → String → Job → String → List Quad
  provenance_annotations derived rule_short_iri job now =
      elim (new_named_node (joined_text job.opts.rule_iri_prefix rule_short_iri)) [
        | none ↦ []
        | some rule_node ↦
            record {
              subject = triple derived;
              predicate = job.derived_by_node;
              object = named_node_term rule_node;
              graph_name = job.inferred_g;
            }
            ∷ record {
              subject = triple derived;
              predicate = job.derived_at_node;
              object = literal (new_typed_literal now xsd_datetime);
              graph_name = job.inferred_g;
            }
            ∷ []
      ]

  -- a quad that is new, with its annotations
  unfoldable pub new_quads_for : Triple → String → Job → String → List Quad
  unfolding provenance_annotations
  new_quads_for t rule_iri job now =
      quad_in job.inferred_g t
      ∷ (if job.opts.provenance then provenance_annotations t rule_iri job now else [])

  module _ (db : QuadStore) where
    open db use {Store, contains_quad, insert_quad, len}

    -- `store.contains(&q).unwrap_or(false)`
    unfoldable pub present : Store → Quad → Bool
    present store q = elim (contains_quad store q) [ none ↦ false | some b ↦ b ]

    -- the body of the loop over what a rule derived
    unfoldable pub take_derived : Store → Job → String → String → Round → Triple → Round
    unfolding present new_quads_for
    take_derived store job rule_iri now out t =
        if present store (quad_in job.inferred_g t) then out else record {
          new_quads = out.new_quads ++ new_quads_for t rule_iri job now;
          to_record = out.to_record;
        }

    unfoldable pub add_derived : Store → Job → String → String → Round → List Triple → Round
    unfolding take_derived
    add_derived store job rule_iri now out [] = out
    add_derived store job rule_iri now out (t ∷ ts) =
        add_derived store job rule_iri now (take_derived store job rule_iri now out t) ts

    -- the body of the loop over what a tracked rule derived
    unfoldable pub take_tracked : Store → Job → String → String → Round → DerivedTriple → Round
    unfolding present new_quads_for
    take_tracked store job rule_iri now out dt =
        let q = quad_in job.inferred_g dt.triple_of in
        record {
          new_quads =
              if present store q
              then out.new_quads
              else out.new_quads ++ new_quads_for dt.triple_of rule_iri job now;
          to_record = out.to_record ++ (q, dt.premises) ∷ [];
        }

    unfoldable pub add_tracked : Store → Job → String → String → Round → List DerivedTriple → Round
    unfolding take_tracked
    add_tracked store job rule_iri now out [] = out
    add_tracked store job rule_iri now out (dt ∷ dts) =
        add_tracked store job rule_iri now (take_tracked store job rule_iri now out dt) dts

    abbrev pub rule_error : {A : Type 0} → Result A → Result A
    rule_error (ok a) = ok a
    rule_error (err e) =
        err (eval_error "rdf_owl_rl_materialise: rule {} error at iteration {iteration}: {e}")

    -- the tracked variant, where there is one to use, and otherwise the plain rule
    unfoldable pub run_rule :
        Store
        → Job
        → String
        → Rule db
        → Option (Store → GraphName → GraphName → Result (List DerivedTriple))
        → Round
        → Result Round
    unfolding add_derived add_tracked
    run_rule store job now rule (some tracked) out =
        rule_error (tracked store job.asserted_g job.inferred_g) >>= λ derived.
        ok (add_tracked store job rule.iri now out derived)
    run_rule store job now rule none out =
        rule_error (rule.apply store job.asserted_g job.inferred_g) >>= λ derived.
        ok (add_derived store job rule.iri now out derived)

    -- the body of the loop over the rules
    unfoldable pub apply_rule : Store → Job → String → Rule db → Round → Result Round
    unfolding skipped run_rule
    apply_rule store job now rule out =
        if skipped job.opts rule.iri
        then ok out
        else run_rule store job now rule
            (if job.opts.track_dependencies then rule.apply_tracked else none) out

    unfoldable pub apply_rules : Store → Job → String → List (Rule db) → Round → Result Round
    unfolding apply_rule
    apply_rules store job now [] out = ok out
    apply_rules store job now (rule ∷ rules) out =
        apply_rule store job now rule out >>= λ out'. apply_rules store job now rules out'

    -- `for (q, premises) in to_record.drain(..)`
    unfoldable pub record_all : DependencyIndex → List (Quad × List Quad) → DependencyIndex
    record_all idx [] = idx
    record_all idx ((q, premises) ∷ rest) =
        record_all (record_derivation idx q (to_set premises)) rest

    -- `for q in &new_quads`
    unfoldable pub insert_all : Store → List Quad → Store × Result (Unit {0})
    insert_all store [] = (store, ok tt)
    insert_all store (q ∷ qs) =
        let (store', inserted) = insert_quad store q in
        elim inserted [ none ↦ (store', err (store_error "{e}")) | some _ ↦ insert_all store' qs ]

    -- the index after an iteration that found what to record
    unfoldable pub flush : Job → DependencyIndex → Round → DependencyIndex
    unfolding record_all
    flush job index out =
        if job.opts.track_dependencies then record_all index out.to_record else index

    -- `if new_quads.is_empty() { break; }` and the loop that inserts
    unfoldable pub after_insert : DependencyIndex → Store × Result (Unit {0}) → Iteration db
    after_insert index (store, ok _) = continues (record { store = store; index = index })
    after_insert index (store, err e) = failed (record { store = store; index = index }) e

    unfoldable pub insert_new : Store → DependencyIndex → List Quad → Iteration db
    unfolding insert_all after_insert
    insert_new store index [] = reached (record { store = store; index = index })
    insert_new store index (q ∷ qs) = after_insert index (insert_all store (q ∷ qs))

    module _ (rules : List (Rule db)) (now : ℕ → String) where
      -- what an iteration does once its number is known to be allowed
      unfoldable pub iterate : Job → ℕ → World db → Iteration db
      unfolding apply_rules insert_new flush
      iterate job left w =
          elim (apply_rules w.store job (now left) rules
            (record { new_quads = []; to_record = [] })) [
              | err e ↦ failed w e
              | ok out ↦ insert_new w.store (flush job w.index out) out.new_quads
            ]

      -- The loop, on the number of iterations that are left. The clock is read once in each.
      unfoldable pub fixpoint : Job → ℕ → World db → World db × Result (Unit {0})
      unfolding iterate
      fixpoint job zero w =
          (w, err (eval_error "rdf_owl_rl_materialise: fixpoint not reached after {} iterations"))
      fixpoint job (suc left) w = elim (iterate job left w) [
        | failed w' e ↦ (w', err e)
        | reached w' ↦ (w', ok tt)
        | continues w' ↦ fixpoint job left w'
      ]

      module _ (from_str : String → Option MaterialiseOptions) where
        -- what precedes `with_store`
        unfoldable pub prepare : Option String → String → String → Result Job
        unfolding parse_graph_name
        prepare asserted inferred options_json = do
          opts ←
              if is_blank options_json
              then ok default_options
              else ok_or (from_str options_json)
                  (invalid_argument "rdf_owl_rl_materialise: options_json: {e}")
          asserted_g ← parse_graph_name api asserted
          inferred_g ← parse_graph_name api (some inferred)
          derived_by_node ←
              ok_or (new_named_node opts.derived_by_iri)
                (invalid_argument "rdf_owl_rl_materialise: derived_by_iri: {e}")
          derived_at_node ←
              ok_or (new_named_node opts.derived_at_iri)
                (invalid_argument "rdf_owl_rl_materialise: derived_at_iri: {e}")
          ok (record {
            opts = opts;
            asserted_g = asserted_g;
            inferred_g = inferred_g;
            derived_by_node = derived_by_node;
            derived_at_node = derived_at_node;
          })

        -- `store.len().unwrap_or(0)`
        unfoldable pub count : Store → ℕ
        count store = elim (len store) [ none ↦ 0 | some n ↦ n ]

        unfoldable pub execute_materialise :
            World db → Option String → String → String → World db × Result ℤ
        unfolding prepare fixpoint count
        execute_materialise w asserted inferred options_json =
            elim (prepare asserted inferred options_json) [
              | err e ↦ (w, err e)
              | ok job ↦
                  let (w', done) = fixpoint job job.opts.max_iterations w in
                  (w', done >>= λ _. ok (count w'.store ⊖ count w.store))
            ]

        -- the arguments, of which the second has to be a text
        unfoldable pub rdf_owl_rl_materialise :
            World db → Option String → Option String → Option String → World db × Result ℤ
        unfolding execute_materialise
        rdf_owl_rl_materialise w asserted none options_json = (
          w,
          err (
              invalid_argument
                "rdf_owl_rl_materialise: inferred_iri must be a named graph (NULL is not allowed for the inferred slot)"),
        )
        rdf_owl_rl_materialise w asserted (some inferred) options_json =
            execute_materialise w asserted inferred (elim options_json [ none ↦ "{}" | some t ↦ t ])
