-- ===== src/Owl/Materialise/Closed.antt =====
-- What the fixpoint loop of src/functions/rdf_owl_rl.rs returns when it stops: a store that is
-- closed under the rules that it was told to apply.
use sqlite_sparql.Prelude.{
  SparqlError, ◌⊎◌, ℕ, zero, suc, String, List, [], ◌∷◌, ◌++◌, ◌≡◌, refl, subst, inl, inr, arith,
  true, false, Bool-cases, ◌==◌, Option, none, some, map, Result, Result-cases, >>=-eq-ok,
  ok-injective, ap, ◌∙◌, ok, err, ◌>>=◌, contains, if◌then◌else◌,
}
use sqlite_sparql.Rdf.{GraphName, Triple, Quad}
use sqlite_sparql.Rdf.Equality.{quad_eq, triple_eq}
use sqlite_sparql.Oxigraph.{QuadStore, TermParsers}
use sqlite_sparql.DependencyIndex.{DependencyIndex}
use sqlite_sparql.Dred.{World}
use sqlite_sparql.Owl.Materialise.{
  Job, Rule, DerivedTriple, Round, quad_in, skipped, present, add_derived, add_tracked, apply_rule,
  run_rule, take_derived, take_tracked, apply_rules, fixpoint, rule_error, new_quads_for,
  insert_all, flush, Iteration, failed, reached, continues, iterate, insert_new, after_insert,
}

-- a vector that something was pushed to is not empty
grown : {A : Type 0} {P : Type 0} (xs : List A) (y : A) (ys : List A) → (xs ++ y ∷ ys) ≡ [] → P
grown [] y ys h = cc
grown (x ∷ xs) y ys h = cc

pub Iteration-cases :
    {db : QuadStore} (it : Iteration db)
    → ((w : World db) × (e : SparqlError) × (it ≡ failed w e))
      ⊎ ((w : World db) × (it ≡ reached w))
      ⊎ ((w : World db) × (it ≡ continues w))
Iteration-cases (failed w e) = inl (w, e, refl)
Iteration-cases (reached w) = inr (inl (w, refl))
Iteration-cases (continues w) = inr (inr (w, refl))

module _ (api : TermParsers) (db : QuadStore) where
  abbrev pub fires_as :
      db.Store
      → Job
      → Rule db
      → Option (db.Store → GraphName → GraphName → Result (List DerivedTriple))
      → Result (List Triple)
  fires_as s job rule (some tracked) =
      tracked s job.asserted_g job.inferred_g >>= λ dts. ok (map (λ dt. dt.triple_of) dts)
  fires_as s job rule none = rule.apply s job.asserted_g job.inferred_g

  -- the triples that the loop takes from a rule
  abbrev pub fires : db.Store → Job → Rule db → Result (List Triple)
  fires s job rule =
      fires_as s job rule (if job.opts.track_dependencies then rule.apply_tracked else none)

  -- every triple stands in the inferred graph
  abbrev pub AllPresent : db.Store → Job → List Triple → Type 0
  AllPresent s job ts =
      (t : Triple) → contains ts t ≡ true → present api db s (quad_in job.inferred_g t) ≡ true

  -- Every rule that is not skipped returns, without an error, triples that the inferred graph has.
  abbrev pub IsClosed : db.Store → Job → List (Rule db) → Type 0
  IsClosed s job [] = Unit
  IsClosed s job (rule ∷ rules) =
      (skipped job.opts rule.iri ≡ false
        → (ts : List Triple) × (fires s job rule ≡ ok ts) × AllPresent s job ts)
      × IsClosed s job rules

  AllPresent-cons :
      (s : db.Store) (job : Job) (t : Triple) (ts : List Triple)
      → present api db s (quad_in job.inferred_g t) ≡ true
      → AllPresent s job ts
      → AllPresent s job (t ∷ ts)
  AllPresent-cons s job t ts there all u m = elim (Bool-cases (t == u)) [
    | inl same ↦
        subst (λ v. present api db s (quad_in job.inferred_g v) ≡ true)
          ((triple_eq.beq_iff t u).0 same) there
    | inr other ↦ all u (ground arith)
  ]

  add_derived-nil :
      (s : db.Store) (job : Job) (iri now : String) (ts : List Triple) (out : Round)
      → (add_derived api db s job iri now out ts).new_quads ≡ []
      → (out.new_quads ≡ []) × AllPresent s job ts
  unfolding add_derived take_derived new_quads_for
  add_derived-nil s job iri now [] out h = (h, λ t m. cc)
  add_derived-nil s job iri now (t ∷ ts) out h =
      let (e, all) = add_derived-nil s job iri now ts (take_derived api db s job iri now out t) h in
      elim (Bool-cases (present api db s (quad_in job.inferred_g t))) [
        | inl there ↦ (rw there at e, AllPresent-cons s job t ts there all)
        | inr fresh ↦ grown out.new_quads _ _ (rw fresh at e)
      ]

  add_tracked-nil :
      (s : db.Store) (job : Job) (iri now : String) (dts : List DerivedTriple) (out : Round)
      → (add_tracked api db s job iri now out dts).new_quads ≡ []
      → (out.new_quads ≡ []) × AllPresent s job (map (λ dt. dt.triple_of) dts)
  unfolding add_tracked take_tracked new_quads_for
  add_tracked-nil s job iri now [] out h = (h, λ t m. cc)
  add_tracked-nil s job iri now (dt ∷ dts) out h =
      let (e, all) =
        add_tracked-nil s job iri now dts (take_tracked api db s job iri now out dt) h in
      elim (Bool-cases (present api db s (quad_in job.inferred_g dt.triple_of))) [
        | inl there ↦ (rw there at e, AllPresent-cons s job dt.triple_of _ there all)
        | inr fresh ↦ grown out.new_quads _ _ (rw fresh at e)
      ]

  rule_error-ok : {A : Type 0} (r : Result A) {a : A} → rule_error api db r ≡ ok a → r ≡ ok a
  rule_error-ok (ok a) h = h
  rule_error-ok (err e) h = cc

  run_rule-nil :
      (s : db.Store) (job : Job) (now : String) (rule : Rule db)
      (o : Option (db.Store → GraphName → GraphName → Result (List DerivedTriple)))
      (out out' : Round)
      → run_rule api db s job now rule o out ≡ ok out'
      → out'.new_quads ≡ []
      → (out.new_quads ≡ [])
        × ((ts : List Triple) × (fires_as s job rule o ≡ ok ts) × AllPresent s job ts)
  unfolding run_rule
  run_rule-nil s job now rule none out out' h nil =
      let (ts, e, e') =
        >>=-eq-ok (rule_error api db (rule.apply s job.asserted_g job.inferred_g)) _ h in
      let (start, all) =
        add_derived-nil s job rule.iri now ts out (ap (λ r. r.new_quads) (ok-injective e') ∙ nil) in
      (start, (ts, rule_error-ok _ e, all))
  run_rule-nil s job now rule (some tracked) out out' h nil =
      let (dts, e, e') =
        >>=-eq-ok (rule_error api db (tracked s job.asserted_g job.inferred_g)) _ h in
      let (start, all) =
        add_tracked-nil s job rule.iri now dts out
          (ap (λ r. r.new_quads) (ok-injective e') ∙ nil) in
      (start, (map (λ dt. dt.triple_of) dts, rw (rule_error-ok _ e) refl, all))

  insert_new-reached :
      (s : db.Store) (index : DependencyIndex) (qs : List Quad) (w : World db)
      → insert_new api db s index qs ≡ reached w
      → (qs ≡ []) × (s ≡ w.store)
  unfolding insert_new after_insert
  insert_new-reached s index [] w h = (refl, cc)
  insert_new-reached s index (q ∷ qs) w h = elim (Result-cases (insert_all api db s (q ∷ qs)).1) [
    | inl (u, e) ↦ cc (rw (e, after_insert) at h)
    | inr (u, e) ↦ cc (rw (e, after_insert) at h)
  ]

  apply_rule-nil :
      (s : db.Store) (job : Job) (now : String) (rule : Rule db) (out out' : Round)
      → apply_rule api db s job now rule out ≡ ok out'
      → out'.new_quads ≡ []
      → (out.new_quads ≡ [])
        × (skipped job.opts rule.iri ≡ false
            → (ts : List Triple) × (fires s job rule ≡ ok ts) × AllPresent s job ts)
  unfolding apply_rule
  apply_rule-nil s job now rule out out' h nil = elim (Bool-cases (skipped job.opts rule.iri)) [
    | inl skip ↦ (ap (λ r. r.new_quads) (ok-injective (rw skip at h)) ∙ nil, λ run. cc)
    | inr run ↦
        let (start, fired) =
          run_rule-nil s job now rule
            (if job.opts.track_dependencies then rule.apply_tracked else none) out out'
            (rw run at h) nil in
        (start, λ _. fired)
  ]

  -- an iteration that finds nothing new
  apply_rules-nil :
      (s : db.Store) (job : Job) (now : String) (rules : List (Rule db)) (out out' : Round)
      → apply_rules api db s job now rules out ≡ ok out'
      → out'.new_quads ≡ []
      → (out.new_quads ≡ []) × IsClosed s job rules
  unfolding apply_rules
  apply_rules-nil s job now [] out out' h nil = (ap (λ r. r.new_quads) (ok-injective h) ∙ nil, tt)
  apply_rules-nil s job now (rule ∷ rules) out out' h nil =
      let (mid, e, e') = >>=-eq-ok (apply_rule api db s job now rule out) _ h in
      let (mid-nil, closed) = apply_rules-nil s job now rules mid out' e' nil in
      let (start, fired) = apply_rule-nil s job now rule out mid e mid-nil in
      (start, (fired, closed))

  iterate-IsClosed :
      (rules : List (Rule db)) (now : ℕ → String) (job : Job) (left : ℕ) (w w' : World db)
      → iterate api db rules now job left w ≡ reached w'
      → IsClosed w'.store job rules
  unfolding iterate
  iterate-IsClosed rules now job left w w' h =
      elim (Result-cases (
        apply_rules api db w.store job (now left) rules
          (record { new_quads = []; to_record = [] }))) [
            | inr (e, bad) ↦ cc (rw (bad, iterate) at h)
            | inl (out, good) ↦
                let (nil, same) =
                  insert_new-reached w.store (flush api db job w.index out) out.new_quads w'
                    (rw (good, iterate) at h) in
                subst (λ s. IsClosed s job rules) same
                  (apply_rules-nil w.store job (now left) rules _ out good nil).1
          ]

  -- When the loop returns, and not with an error, every rule that is not skipped derives from the
  -- store that it leaves, again without an error, only triples that stand in the inferred graph.
  pub fixpoint-IsClosed :
      (rules : List (Rule db)) (now : ℕ → String) (job : Job) (left : ℕ) (w : World db)
      → (fixpoint api db rules now job left w).1 ≡ ok tt
      → IsClosed (fixpoint api db rules now job left w).0.store job rules
  unfolding fixpoint
  fixpoint-IsClosed rules now job zero w h = cc
  fixpoint-IsClosed rules now job (suc left) w h =
      elim (Iteration-cases (iterate api db rules now job left w)) [
        | inl (w', e, eq) ↦ cc (rw (eq, fixpoint) at h)
        | inr (inl (w', eq)) ↦ rw (eq, fixpoint) (iterate-IsClosed rules now job left w w' eq)
        | inr (inr (w', eq)) ↦
            rw (eq, fixpoint) (fixpoint-IsClosed rules now job left w' (rw (eq, fixpoint) at h))
      ]
