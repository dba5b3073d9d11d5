-- ===== src/Shacl/Path/Steps.antt =====
-- The single steps of the evaluator of src/functions/rdf_shacl_core/path.rs, and evaluation from several
-- nodes.
use sqlite_sparql.Prelude.{
  contains-append, List, [], ◌∷◌, ◌++◌, ◌≡◌, ◌↔◌, ◌∙◌, refl, sym, ap, subst, inl, inr, arith, true,
  Bool-cases, Option, none, some, map, contains, ◌==◌, string_eq, contains-map_elim,
  contains-map_intro,
}
use sqlite_sparql.Rdf.{NamedNode, Subject, Term, GraphName, Quad}
use sqlite_sparql.Rdf.Equality.{quad_eq, subject_eq, term_eq, graph_name_eq}
use sqlite_sparql.Rdf.Coercions.{subj_to_term}
use sqlite_sparql.Oxigraph.{QuadStore, IsQuadSet}
use sqlite_sparql.Graphs.Holds.{quad, contains-objects, contains-subjects}
use sqlite_sparql.Shacl.Path.{
  PropertyPath, each_some, collect_ok, predicate_step, inverse_predicate_step,
}
use sqlite_sparql.Shacl.Path.Found.{Found}

-- The call returns, and the members of its result are those with the property.
abbrev pub Yields : Option (List Term) → (Term → Type 0) → Type 0
Yields r P = (vs : List Term) × (r ≡ some vs) × ((t : Term) → (contains vs t ≡ true) ↔ P t)

-- the same of nodes
abbrev pub Reaches : Option (List Subject) → Type 0
Reaches r = (fs : List Subject) × (r ≡ some fs)

collect_ok_lem : (pick : Quad → Term) (qs : List Quad) → collect_ok pick (map some qs) ≡ map pick qs
unfolding collect_ok
collect_ok_lem pick [] = refl
collect_ok_lem pick (q ∷ qs) = ap (λ l. pick q ∷ l) (collect_ok_lem pick qs)

-- reading the values of one step at each of some nodes
pub each_some_lem :
    (step : Subject → Option (List Term)) (Leads : Subject → Term → Type 0)
    → ((x : Subject) → Yields (step x) (Leads x))
    → (fs : List Subject)
    → Yields (each_some fs step) (λ t. (f : Subject) × (contains fs f ≡ true) × Leads f t)
unfolding each_some
each_some_lem step Leads total [] = ([], refl, λ t. (λ h. cc, λ w. cc (w.1)))
each_some_lem step Leads total (f ∷ fs) =
    let (us, eu, hu) = total f in
    let (vs, ev, hv) = each_some_lem step Leads total fs in
    (
      us ++ vs,
      rw eu (rw ev refl),
      λ t. (
        λ m. elim (Bool-cases (contains us t)) [
          | inl now ↦ (f, ground (arith, subject_eq.beq_iff f f), (hu t).0 now)
          | inr later ↦
              let (g, mg, lg) = (hv t).0 (ground (arith, contains-append us vs t)) in
              (g, ground arith, lg)
        ],
        λ w. elim (Bool-cases (f == w.0)) [
          | inl same ↦
              let now =
                (hu t).1 (subst (λ x. Leads x t) (sym ((subject_eq.beq_iff f w.0).0 same)) w.2) in
              ground (arith, contains-append us vs t, now)
          | inr other ↦
              let later = (hv t).1 (w.0, ground (arith, w.1), w.2) in
              ground (arith, contains-append us vs t, later)
        ],
      ),
    )

module _ (db : QuadStore) (law : IsQuadSet db) (s : db.Store) (graph : GraphName) where
  open law use {contents, matching, pattern_law}

  abbrev pub Leads : PropertyPath → Subject → Term → Type 0
  Leads p = Found (contents s) graph p

  pub predicate_step_lem :
      (p : NamedNode) (x : Subject) (t : Term)
      → contains (predicate_step db s graph x p) t ≡ contains (contents s) (quad x p t graph)
  unfolding predicate_step
  predicate_step_lem p x t =
      ap (λ l. contains l t)
        (ap (collect_ok (λ q. q.object)) (pattern_law s (some x) (some p) none (some graph))
          ∙ collect_ok_lem (λ q. q.object) (matching s (some x) (some p) none (some graph)))
      ∙ contains-objects db law s x p graph t

  pub inverse_predicate_step_lem :
      (p : NamedNode) (x : Subject) (t : Term)
      → (contains (inverse_predicate_step db s graph x p) t ≡ true) ↔ (
          (y : Subject) × (t ≡ subj_to_term y)
          × (contains (contents s) (quad y p (subj_to_term x) graph) ≡ true))
  unfolding inverse_predicate_step
  inverse_predicate_step_lem p x t =
      let found = matching s none (some p) (some (subj_to_term x)) (some graph) in
      let e =
        ap (collect_ok (λ q. subj_to_term q.subject))
          (pattern_law s none (some p) (some (subj_to_term x)) (some graph))
        ∙ collect_ok_lem (λ q. subj_to_term q.subject) found in
      rw (← sym e) (
        λ m.
            let (q, mq, eq) = contains-map_elim (λ q. subj_to_term q.subject) found t m in
            (
              q.subject,
              sym eq,
              sym (contains-subjects db law s p (subj_to_term x) graph q.subject)
                  ∙ contains-map_intro (λ q. q.subject) found q mq,
            ),
        λ (y, et, m).
            let (q, mq, eq) =
              contains-map_elim (λ q. q.subject) found y
                (contains-subjects db law s p (subj_to_term x) graph y ∙ m) in
            subst (λ w. contains (map (λ q. subj_to_term q.subject) found) w ≡ true)
              (ap subj_to_term eq ∙ sym et)
              (contains-map_intro (λ q. subj_to_term q.subject) found q mq),
      )
