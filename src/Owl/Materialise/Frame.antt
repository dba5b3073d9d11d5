-- ===== src/Owl/Materialise/Frame.antt =====
-- What the fixpoint loop of src/functions/rdf_owl_rl.rs leaves alone: it removes nothing, and what it
-- adds stands in the inferred graph. This holds also where it ends with an error.
use sqlite_sparql.Prelude.{
  joined_text, ◌||◌, ◌⊎◌, ℕ, zero, suc, String, List, [], ◌∷◌, ◌++◌, ◌≡◌, refl, subst, inl, inr,
  arith, Bool, true, false, Bool-cases, ◌==◌, Option, Option-cases, none, some, Result,
  Result-cases, >>=-eq-ok, ok-injective, ok, contains, if◌then◌else◌,
}
use sqlite_sparql.Rdf.{mk_triple, GraphName, Triple, Quad}
use sqlite_sparql.Rdf.Equality.{quad_eq, triple_eq}
use sqlite_sparql.Oxigraph.{QuadStore, IsQuadSet, TermParsers}
use sqlite_sparql.DependencyIndex.{DependencyIndex}
use sqlite_sparql.Dred.{World}
use sqlite_sparql.Owl.Materialise.{
  Job, Rule, DerivedTriple, Round, quad_in, skipped, present, add_derived, add_tracked, apply_rule,
  run_rule, take_derived, take_tracked, apply_rules, fixpoint, rule_error, new_quads_for,
  insert_all, provenance_annotations, Iteration, failed, reached, continues, iterate, insert_new,
  after_insert,
}
use sqlite_sparql.Owl.Materialise.Closed.{Iteration-cases}

-- every quad of the list has this graph name
abbrev pub AllIn : GraphName → List Quad → Type 0
AllIn g [] = Unit
AllIn g (q ∷ qs) = (q.graph_name ≡ g) × AllIn g qs

AllIn-append : (g : GraphName) (qs rs : List Quad) → AllIn g qs → AllIn g rs → AllIn g (qs ++ rs)
AllIn-append g [] rs h k = k
AllIn-append g (q ∷ qs) rs h k = (h.0, AllIn-append g qs rs h.1 k)

AllIn-member :
    (g : GraphName) (qs : List Quad) (r : Quad)
    → AllIn g qs
    → contains qs r ≡ true
    → r.graph_name ≡ g
AllIn-member g [] r h m = cc
AllIn-member g (q ∷ qs) r h m = elim (Bool-cases (q == r)) [
  | inl same ↦ subst (λ x. x.graph_name ≡ g) ((quad_eq.beq_iff q r).0 same) h.0
  | inr other ↦ AllIn-member g qs r h.1 (ground arith)
]

AllIn-if :
    (g : GraphName) (b : Bool) (qs rs : List Quad)
    → AllIn g qs
    → AllIn g rs
    → AllIn g (if b then qs else rs)
AllIn-if g true qs rs h k = h
AllIn-if g false qs rs h k = k

module _ (api : TermParsers) where
  annotations-AllIn :
      (t : Triple) (iri : String) (job : Job) (now : String)
      → AllIn job.inferred_g (provenance_annotations api t iri job now)
  unfolding provenance_annotations
  annotations-AllIn t iri job now =
      elim (Option-cases (api.new_named_node (joined_text job.opts.rule_iri_prefix iri))) [
        | inl e ↦ rw (e, provenance_annotations) tt
        | inr (n, e) ↦ rw (e, provenance_annotations) (refl, (refl, tt))
      ]

  new_quads-AllIn :
      (t : Triple) (iri : String) (job : Job) (now : String)
      → AllIn job.inferred_g (new_quads_for api t iri job now)
  unfolding new_quads_for
  new_quads-AllIn (mk_triple s p o) iri job now = (
    refl,
    AllIn-if job.inferred_g job.opts.provenance
        (provenance_annotations api (mk_triple s p o) iri job now) []
        (annotations-AllIn (mk_triple s p o) iri job now) tt,
  )

  module _ (db : QuadStore) where
    add_derived-AllIn :
        (s : db.Store) (job : Job) (iri now : String) (ts : List Triple) (out : Round)
        → AllIn job.inferred_g out.new_quads
        → AllIn job.inferred_g (add_derived api db s job iri now out ts).new_quads
    unfolding add_derived take_derived
    add_derived-AllIn s job iri now [] out h = h
    add_derived-AllIn s job iri now (t ∷ ts) out h =
        add_derived-AllIn s job iri now ts (take_derived api db s job iri now out t)
          (elim (Bool-cases (present api db s (quad_in job.inferred_g t))) [
            | inl there ↦ rw there h
            | inr fresh ↦ rw fresh (
                AllIn-append job.inferred_g out.new_quads (new_quads_for api t iri job now) h
                  (new_quads-AllIn t iri job now))
          ])

    add_tracked-AllIn :
        (s : db.Store) (job : Job) (iri now : String) (dts : List DerivedTriple) (out : Round)
        → AllIn job.inferred_g out.new_quads
        → AllIn job.inferred_g (add_tracked api db s job iri now out dts).new_quads
    unfolding add_tracked take_tracked
    add_tracked-AllIn s job iri now [] out h = h
    add_tracked-AllIn s job iri now (dt ∷ dts) out h =
        add_tracked-AllIn s job iri now dts (take_tracked api db s job iri now out dt) (
          AllIn-if job.inferred_g (present api db s (quad_in job.inferred_g dt.triple_of))
            out.new_quads (out.new_quads ++ new_quads_for api dt.triple_of iri job now) h
            (AllIn-append job.inferred_g out.new_quads (new_quads_for api dt.triple_of iri job now)
              h (new_quads-AllIn dt.triple_of iri job now)))

    run_rule-AllIn :
        (s : db.Store) (job : Job) (now : String) (rule : Rule db)
        (o : Option (db.Store → GraphName → GraphName → Result (List DerivedTriple)))
        (out out' : Round)
        → run_rule api db s job now rule o out ≡ ok out'
        → AllIn job.inferred_g out.new_quads
        → AllIn job.inferred_g out'.new_quads
    unfolding run_rule
    run_rule-AllIn s job now rule none out out' h all =
        let (ts, e, e') =
          >>=-eq-ok (rule_error api db (rule.apply s job.asserted_g job.inferred_g)) _ h in
        subst (λ r. AllIn job.inferred_g r.new_quads) (ok-injective e')
          (add_derived-AllIn s job rule.iri now ts out all)
    run_rule-AllIn s job now rule (some tracked) out out' h all =
        let (dts, e, e') =
          >>=-eq-ok (rule_error api db (tracked s job.asserted_g job.inferred_g)) _ h in
        subst (λ r. AllIn job.inferred_g r.new_quads) (ok-injective e')
          (add_tracked-AllIn s job rule.iri now dts out all)

    apply_rule-AllIn :
        (s : db.Store) (job : Job) (now : String) (rule : Rule db) (out out' : Round)
        → apply_rule api db s job now rule out ≡ ok out'
        → AllIn job.inferred_g out.new_quads
        → AllIn job.inferred_g out'.new_quads
    unfolding apply_rule
    apply_rule-AllIn s job now rule out out' h all = elim (Bool-cases (skipped job.opts rule.iri)) [
      | inl skip ↦ subst (λ r. AllIn job.inferred_g r.new_quads) (ok-injective (rw skip at h)) all
      | inr run ↦
          run_rule-AllIn s job now rule
            (if job.opts.track_dependencies then rule.apply_tracked else none) out out'
            (rw run at h) all
    ]

    pub apply_rules-AllIn :
        (s : db.Store) (job : Job) (now : String) (rules : List (Rule db)) (out out' : Round)
        → apply_rules api db s job now rules out ≡ ok out'
        → AllIn job.inferred_g out.new_quads
        → AllIn job.inferred_g out'.new_quads
    unfolding apply_rules
    apply_rules-AllIn s job now [] out out' h all =
        subst (λ r. AllIn job.inferred_g r.new_quads) (ok-injective h) all
    apply_rules-AllIn s job now (rule ∷ rules) out out' h all =
        let (mid, e, e') = >>=-eq-ok (apply_rule api db s job now rule out) _ h in
        apply_rules-AllIn s job now rules mid out' e'
          (apply_rule-AllIn s job now rule out mid e all)

    module _ (law : IsQuadSet db) where
      open law use {contents}

      -- nothing is removed, and what is added has the graph name
      abbrev pub Grows : GraphName → db.Store → db.Store → Type 0
      Grows g s s' =
          (q : Quad)
          → (contains (contents s) q ≡ true → contains (contents s') q ≡ true)
            × (contains (contents s') q ≡ true
                → (contains (contents s) q ≡ true) ⊎ (q.graph_name ≡ g))

      pub insert_all_lem :
          (qs : List Quad) (s : db.Store)
          → (s' : db.Store) × (insert_all api db s qs ≡ (s', ok tt))
            × ((r : Quad) → contains (contents s') r ≡ (contains qs r || contains (contents s) r))
      unfolding insert_all
      insert_all_lem [] s = (s, refl, λ r. refl)
      insert_all_lem (q ∷ qs) s =
          let (s', e, h) = insert_all_lem qs (db.insert_quad s q).0 in
          (
            s',
            rw (law.insert_result s q, insert_all) e,
            λ r. ground (arith, h r, law.insert_law s q r),
          )

      abbrev pub world_of : Iteration db → World db
      world_of (failed w e) = w
      world_of (reached w) = w
      world_of (continues w) = w

      insert_new-Grows :
          (g : GraphName) (s : db.Store) (index : DependencyIndex) (qs : List Quad)
          → AllIn g qs
          → Grows g s (world_of (insert_new api db s index qs)).store
      unfolding insert_new after_insert
      insert_new-Grows g s index [] all = λ q. (λ h. h, λ h. inl h)
      insert_new-Grows g s index (q ∷ qs) all =
          let (s', e, h) = insert_all_lem (q ∷ qs) s in
          rw (e, after_insert)
            (λ r. (
              λ m. ground (arith, h r),
              λ m. elim (Bool-cases (contains (q ∷ qs) r)) [
                | inl new ↦ inr (AllIn-member g (q ∷ qs) r all new)
                | inr old ↦ inl (ground (arith, h r))
              ],
            ))

      iterate-Grows :
          (rules : List (Rule db)) (now : ℕ → String) (job : Job) (left : ℕ) (w : World db)
          → Grows job.inferred_g w.store (world_of (iterate api db rules now job left w)).store
      unfolding iterate
      iterate-Grows rules now job left w =
          elim (Result-cases (
            apply_rules api db w.store job (now left) rules
              (record { new_quads = []; to_record = [] }))) [
                | inr (e, bad) ↦ rw (bad, iterate) (λ q. (λ h. h, λ h. inl h))
                | inl (out, good) ↦
                    rw (good, iterate)
                      (insert_new-Grows job.inferred_g w.store _ out.new_quads
                        (apply_rules-AllIn w.store job (now left) rules _ out good tt))
              ]

      -- However the loop ends, the store that it leaves has every quad that it had before, and every
      -- quad that it has in addition stands in the inferred graph.
      pub fixpoint-Grows :
          (rules : List (Rule db)) (now : ℕ → String) (job : Job) (left : ℕ) (w : World db)
          → Grows job.inferred_g w.store (fixpoint api db rules now job left w).0.store
      unfolding fixpoint
      fixpoint-Grows rules now job zero w = λ q. (λ h. h, λ h. inl h)
      fixpoint-Grows rules now job (suc left) w =
          let step = iterate-Grows rules now job left w in
          elim (Iteration-cases (iterate api db rules now job left w)) [
            | inl (w', e, eq) ↦ rw (eq, fixpoint) (rw (eq) at step)
            | inr (inl (w', eq)) ↦ rw (eq, fixpoint) (rw (eq) at step)
            | inr (inr (w', eq)) ↦
                rw (eq, fixpoint)
                  (λ q.
                    let (keep, from) = (rw (eq) at step) q in
                    let (keep', from') = fixpoint-Grows rules now job left w' q in
                    (λ h. keep' (keep h), λ h. elim (from' h) [ inl m ↦ from m | inr m ↦ inr m ]))
          ]
