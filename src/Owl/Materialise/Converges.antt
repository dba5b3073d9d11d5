-- ===== src/Owl/Materialise/Converges.antt =====
-- The fixpoint loop of src/functions/rdf_owl_rl.rs returns when its rules stay within finitely many
-- quads: how many iterations are then enough.
use sqlite_sparql.Prelude.{
  length-le_of_Within, Within, length, ◌<◌, ◌+◌, arith, ◌⊎◌, ℕ, zero, suc, String, List, [], ◌∷◌,
  ◌++◌, ◌≡◌, refl, sym, subst, inl, inr, true, false, Bool-cases, ◌==◌, Option, none, some, map,
  Result, >>=-eq-ok, ok-injective, ap, ok, contains, if◌then◌else◌,
}
use sqlite_sparql.Rdf.{GraphName, Triple, Quad}
use sqlite_sparql.Rdf.Equality.{quad_eq, triple_eq}
use sqlite_sparql.Oxigraph.{QuadStore, IsQuadSet, TermParsers}
use sqlite_sparql.DependencyIndex.{DependencyIndex}
use sqlite_sparql.Dred.{World}
use sqlite_sparql.Owl.Materialise.{
  Job, Rule, DerivedTriple, Round, quad_in, skipped, present, add_derived, add_tracked, apply_rule,
  run_rule, take_derived, take_tracked, apply_rules, fixpoint, new_quads_for, flush,
  provenance_annotations, reached, continues, iterate, insert_new, after_insert,
}
use sqlite_sparql.Owl.Materialise.Closed.{fires, fires_as}
use sqlite_sparql.Owl.Materialise.Frame.{insert_all_lem}
use sqlite_sparql.Oxigraph.Sizes.{size}

module _ (api : TermParsers) (db : QuadStore) (law : IsQuadSet db) where
  open law use {contents, distinct}

  -- quads of the universe that the store does not hold
  abbrev Fresh : List Quad → db.Store → List Quad → Type 0
  Fresh universe s [] = Unit
  Fresh universe s (q ∷ qs) =
      ((contains (contents s) q ≡ false) × (contains universe q ≡ true)) × Fresh universe s qs

  -- every triple of the list stays in the universe
  abbrev pub Stays : List Quad → Job → List Triple → Type 0
  Stays universe job ts =
      (t : Triple) → contains ts t ≡ true → contains universe (quad_in job.inferred_g t) ≡ true

  -- Every rule that is not skipped returns, without an error, triples that stay in the universe.
  abbrev pub StaysAt : List Quad → Job → db.Store → List (Rule db) → Type 0
  StaysAt universe job s [] = Unit
  StaysAt universe job s (rule ∷ rules) =
      (skipped job.opts rule.iri ≡ false
        → (ts : List Triple) × (fires api db s job rule ≡ ok ts) × Stays universe job ts)
      × StaysAt universe job s rules

  -- the same on every store that stays in the universe
  abbrev pub IsBounded : List Quad → Job → List (Rule db) → Type 0
  IsBounded universe job rules =
      (s : db.Store) → Within (contents s) universe → StaysAt universe job s rules

  Fresh-append :
      (u : List Quad) (s : db.Store) (qs rs : List Quad)
      → Fresh u s qs
      → Fresh u s rs
      → Fresh u s (qs ++ rs)
  Fresh-append u s [] rs h k = k
  Fresh-append u s (q ∷ qs) rs h k = (h.0, Fresh-append u s qs rs h.1 k)

  Fresh-member :
      (u : List Quad) (s : db.Store) (qs : List Quad) (r : Quad)
      → Fresh u s qs
      → contains qs r ≡ true
      → contains u r ≡ true
  Fresh-member u s [] r h m = cc
  Fresh-member u s (q ∷ qs) r h m = elim (Bool-cases (q == r)) [
    | inl same ↦ subst (λ x. contains u x ≡ true) ((quad_eq.beq_iff q r).0 same) h.0.1
    | inr other ↦ Fresh-member u s qs r h.1 (ground arith)
  ]

  present-law : (s : db.Store) (q : Quad) → present api db s q ≡ contains (contents s) q
  unfolding present
  present-law s q = rw (law.contains_law s q, present) refl

  module _ (universe : List Quad) (job : Job) (plain : job.opts.provenance ≡ false) where
    take-Fresh :
        (s : db.Store) (iri now : String) (t : Triple) (qs : List Quad)
        → Fresh universe s qs
        → contains universe (quad_in job.inferred_g t) ≡ true
        → Fresh universe s (
            if present api db s (quad_in job.inferred_g t)
            then qs
            else qs ++ new_quads_for api t iri job now)
    unfolding new_quads_for
    take-Fresh s iri now t qs fresh m =
        let there = present-law s (quad_in job.inferred_g t) in
        let nothing : (if job.opts.provenance then provenance_annotations api t iri job now else [])
            ≡ [] =
          ground arith in
        elim (Bool-cases (present api db s (quad_in job.inferred_g t))) [
          | inl old ↦ rw old fresh
          | inr new ↦ rw new (
              Fresh-append universe s qs (new_quads_for api t iri job now) fresh
                ((ground arith, m), subst (Fresh universe s) (sym nothing) tt))
        ]

    add_derived-Fresh :
        (s : db.Store) (iri now : String) (ts : List Triple) (out : Round)
        → Fresh universe s out.new_quads
        → Stays universe job ts
        → Fresh universe s (add_derived api db s job iri now out ts).new_quads
    unfolding add_derived take_derived
    add_derived-Fresh s iri now [] out fresh h = fresh
    add_derived-Fresh s iri now (t ∷ ts) out fresh h =
        let here =
          take-Fresh s iri now t out.new_quads fresh
            (h t (ground (arith, triple_eq.beq_iff t t))) in
        add_derived-Fresh s iri now ts (take_derived api db s job iri now out t)
          (elim (Bool-cases (present api db s (quad_in job.inferred_g t))) [
            | inl old ↦ rw old (rw old at here)
            | inr new ↦ rw new (rw new at here)
          ])
          (λ u m. h u (ground arith))

    add_tracked-Fresh :
        (s : db.Store) (iri now : String) (dts : List DerivedTriple) (out : Round)
        → Fresh universe s out.new_quads
        → Stays universe job (map (λ dt. dt.triple_of) dts)
        → Fresh universe s (add_tracked api db s job iri now out dts).new_quads
    unfolding add_tracked take_tracked
    add_tracked-Fresh s iri now [] out fresh h = fresh
    add_tracked-Fresh s iri now (dt ∷ dts) out fresh h =
        add_tracked-Fresh s iri now dts (take_tracked api db s job iri now out dt)
          (take-Fresh s iri now dt.triple_of out.new_quads fresh
            (h dt.triple_of (ground (arith, triple_eq.beq_iff dt.triple_of dt.triple_of))))
          (λ u m. h u (ground arith))

    run_rule-Fresh :
        (s : db.Store) (now : String) (rule : Rule db)
        (o : Option (db.Store → GraphName → GraphName → Result (List DerivedTriple)))
        (ts : List Triple) (out : Round)
        → fires_as api db s job rule o ≡ ok ts
        → Stays universe job ts
        → Fresh universe s out.new_quads
        → (out' : Round) × (run_rule api db s job now rule o out ≡ ok out')
          × Fresh universe s out'.new_quads
    unfolding run_rule
    run_rule-Fresh s now rule none ts out e h fresh = (
      add_derived api db s job rule.iri now out ts,
      rw e refl,
      add_derived-Fresh s rule.iri now ts out fresh h,
    )
    run_rule-Fresh s now rule (some tracked) ts out e h fresh =
        let (dts, e1, e2) = >>=-eq-ok (tracked s job.asserted_g job.inferred_g) _ e in
        (
          add_tracked api db s job rule.iri now out dts,
          rw e1 refl,
          add_tracked-Fresh s rule.iri now dts out fresh
              (subst (Stays universe job) (sym (ok-injective e2)) h),
        )

    apply_rules-Fresh :
        (s : db.Store) (now : String) (rules : List (Rule db)) (out : Round)
        → StaysAt universe job s rules
        → Fresh universe s out.new_quads
        → (out' : Round) × (apply_rules api db s job now rules out ≡ ok out')
          × Fresh universe s out'.new_quads
    unfolding apply_rules apply_rule
    apply_rules-Fresh s now [] out stays fresh = (out, refl, fresh)
    apply_rules-Fresh s now (rule ∷ rules) out stays fresh =
        elim (Bool-cases (skipped job.opts rule.iri)) [
          | inl skip ↦ rw skip (apply_rules-Fresh s now rules out stays.1 fresh)
          | inr run ↦
              let (ts, e, h) = stays.0 run in
              let (mid, e', fresh') =
                run_rule-Fresh s now rule
                  (if job.opts.track_dependencies then rule.apply_tracked else none) ts out e h
                  fresh in
              rw run (rw e' (apply_rules-Fresh s now rules mid stays.1 fresh'))
        ]

    -- what inserting one quad that is new, and others, does to the size
    grows_by_one :
        (s s' : db.Store) (q : Quad)
        → contains (contents s) q ≡ false
        → contains (contents s') q ≡ true
        → Within (contents s) (contents s')
        → size db law s < size db law s'
    grows_by_one s s' q absent new within =
        length-le_of_Within (q ∷ contents s) (contents s') (absent, distinct s)
          (λ r m. elim (Bool-cases (q == r)) [
            | inl same ↦
                subst (λ x. contains (contents s') x ≡ true) ((quad_eq.beq_iff q r).0 same) new
            | inr other ↦ within r (ground arith)
          ])

    -- an iteration that got so far is at the fixpoint, or the store grows
    insert_new-next :
        (s : db.Store) (index : DependencyIndex) (qs : List Quad)
        → Fresh universe s qs
        → Within (contents s) universe
        → (insert_new api db s index qs ≡ reached (record { store = s; index = index }))
          ⊎ ((s' : db.Store) × (insert_new api db s index qs
                ≡ continues (record { store = s'; index = index }))
              × Within (contents s') universe
              × (size db law s < size db law s'))
    unfolding insert_new after_insert
    insert_new-next s index [] fresh within = inl refl
    insert_new-next s index (q ∷ qs) fresh within =
        let (s', e, h) = insert_all_lem api db law (q ∷ qs) s in
        inr (
          s',
          ap (after_insert api db index) e,
          λ r m. elim (Bool-cases (contains (q ∷ qs) r)) [
            | inl new ↦ Fresh-member universe s (q ∷ qs) r fresh new
            | inr old ↦ within r (ground (arith, h r))
          ],
          grows_by_one s s' q fresh.0.0 (ground (arith, h q, quad_eq.beq_iff q q))
              (λ r m. ground (arith, h r)),
        )

    -- Without annotations, and with rules that stay within a list of quads and do not fail on
    -- stores within it, the loop returns without an error as soon as it is allowed more iterations
    -- than the list has quads beyond those that the store starts with.
    pub fixpoint-converges :
        (rules : List (Rule db)) (now : ℕ → String)
        → IsBounded universe job rules
        → (left : ℕ) (w : World db) → Within (contents w.store) universe
        → length universe < left + size db law w.store
        → (fixpoint api db rules now job left w).1 ≡ ok tt
    unfolding fixpoint iterate insert_new
    fixpoint-converges rules now bounded zero w within enough =
        ground (arith, length-le_of_Within (contents w.store) universe (distinct w.store) within)
    fixpoint-converges rules now bounded (suc left) w within enough =
        let (out, good, fresh) =
          apply_rules-Fresh w.store (now left) rules (record { new_quads = []; to_record = [] })
            (bounded w.store within) tt in
        let index = flush api db job w.index out in
        elim (insert_new-next w.store index out.new_quads fresh within) [
          | inl done ↦ rw (good, iterate, done, fixpoint) refl
          | inr (s', more, within', bigger) ↦
              rw (good, iterate, more, fixpoint)
                (fixpoint-converges rules now bounded left (record { store = s'; index = index })
                  within' (omega arith))
        ]
