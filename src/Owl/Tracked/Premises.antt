-- ===== src/Owl/Tracked/Premises.antt =====
-- What the tracked variants return: the triples of the plain rules, each with premises that the
-- store holds in the premise graphs.
use sqlite_sparql.Prelude.{
  List, [], ◌∷◌, ◌++◌, ◌≡◌, ◌∙◌, ◌↔◌, refl, sym, ap, subst, arith, Bool, true, false, ◌&&◌, ◌||◌,
  Option, none, some, map, ok, Eq, ◌==◌, string_eq, HashMap, get, get-put, put, or_default, any,
  any_elim, any_intro, contains, contains-append, contains-map_elim, contains-map_intro, each,
  Derives, Derives-bind, Derives-each, Derives_iff, pair_eq,
}
use sqlite_sparql.Rdf.{NamedNode, Term, mk_triple, GraphName, Quad}
use sqlite_sparql.Rdf.Equality.{subject_eq, term_eq, triple_eq, quad_eq, graph_name_eq}
use sqlite_sparql.Rdf.Coercions.{subj_to_term, term_to_subj, term_to_subj_iff}
use sqlite_sparql.Oxigraph.{QuadStore, IsQuadSet, matches}
use sqlite_sparql.Graphs.{rdf_type, for_quads, for_graphs, graphs_to_query}
use sqlite_sparql.Owl.Vocabulary.{rdfs_sub_class_of}
use sqlite_sparql.Owl.Materialise.{DerivedTriple}
use sqlite_sparql.Owl.Tracked.{
  push_new, buckets, bucket, by_subject, quads_for_predicate, transitive_closure_tracked,
  apply_cax_sco_tracked,
}

abbrev pub quads_beq : List Quad → List Quad → Bool
quads_beq [] [] = true
quads_beq (q ∷ qs) (r ∷ rs) = q == r && quads_beq qs rs
quads_beq _ _ = false

quads_beq_iff : (qs rs : List Quad) → (quads_beq qs rs ≡ true) ↔ (qs ≡ rs)
quads_beq_iff [] [] = (λ h. refl, λ h. refl)
quads_beq_iff [] (r ∷ rs) = (λ h. cc, λ h. cc)
quads_beq_iff (q ∷ qs) [] = (λ h. cc, λ h. cc)
quads_beq_iff (q ∷ qs) (r ∷ rs) = (
  λ h. ground (arith, quad_eq.beq_iff q r, quads_beq_iff qs rs),
  λ h. ground (arith, quad_eq.beq_iff q r, quads_beq_iff qs rs),
)

abbrev pub derived_beq : DerivedTriple → DerivedTriple → Bool
derived_beq d e = d.triple_of == e.triple_of && quads_beq d.premises e.premises

pub derived_beq_iff : (d e : DerivedTriple) → (derived_beq d e ≡ true) ↔ (d ≡ e)
derived_beq_iff d e = (
  λ h.
      ground
        (arith, triple_eq.beq_iff d.triple_of e.triple_of, quads_beq_iff d.premises e.premises),
  λ h.
      ground
        (arith, triple_eq.beq_iff d.triple_of e.triple_of, quads_beq_iff d.premises e.premises),
)

instance abbrev pub derived_eq : Eq DerivedTriple
derived_eq = record { beq = derived_beq; beq_iff = derived_beq_iff }

module _ {K V : Type 0} ⦃e : Eq K⦄ ⦃d : Eq V⦄ where
  contains-buckets :
      (kvs : List (K × V)) (m : HashMap K (List V)) (k : K) (v : V)
      → contains (or_default (get (buckets m kvs) k) []) v
        ≡ (contains (or_default (get m k) []) v || contains kvs (k, v))
  unfolding buckets
  contains-buckets [] m k v = ground arith
  contains-buckets ((j, w) ∷ kvs) m k v =
      let old = or_default (get m j) [] in
      ground (
        arith,
        contains-buckets kvs (put m j (old ++ w ∷ [])) k v,
        get-put m j k (old ++ w ∷ []),
        contains-append old (w ∷ []) v,
        e.beq_iff j k,
      )

  bucket_iff :
      (kvs : List (K × V)) (o : Option K) (v : V)
      → (contains (bucket kvs o) v ≡ true) ↔ ((k : K) × (o ≡ some k) × (contains kvs (k, v) ≡ true))
  unfolding get
  bucket_iff kvs none v = (λ h. cc, λ h. cc (h.1))
  bucket_iff kvs (some k) v = (
    λ h. (k, refl, ground (arith, contains-buckets kvs [] k v)),
    λ h. ground (arith, contains-buckets kvs [] k v, h.1, h.2),
  )

pushed_new :
    (qs out : List Quad)
    → (all : List Quad) × (for_quads push_new out (map some qs) ≡ ok all)
      × ((q : Quad) → contains all q ≡ (contains out q || contains qs q))
unfolding for_quads push_new
pushed_new [] out = (out, refl, λ q. ground arith)
pushed_new (r ∷ qs) out =
    let (all, e, h) = pushed_new qs (push_new out r) in
    (all, e, λ q. ground (arith, h q, contains-append out (r ∷ []) q, quad_eq.beq_iff r q))

-- the quads that follow a quad: their subject is its object
following :
    (rs : List Quad) (o : Term) (r : Quad)
    → (contains (bucket (map by_subject rs) (term_to_subj o)) r ≡ true)
      ↔ ((contains rs r ≡ true) × (o ≡ subj_to_term r.subject))
following rs o r = (
  λ h.
      let (k, ek, mk) = (bucket_iff (map by_subject rs) (term_to_subj o) r).0 h in
      let (q, mq, e) = contains-map_elim by_subject rs (k, r) mk in
      let same : q ≡ r = ap (λ x. x.1) e in
      let key : q.subject ≡ k = ap (λ x. x.0) e in
      (
        subst (λ x. contains rs x ≡ true) same mq,
        (term_to_subj_iff o k).0 ek ∙ ap subj_to_term (sym key ∙ ap (λ (x : Quad). x.subject) same),
      ),
  λ (m, e).
      (bucket_iff (map by_subject rs) (term_to_subj o) r).1
        (r.subject, (term_to_subj_iff o r.subject).1 e, contains-map_intro by_subject rs r m),
)

-- a pair of quads that follow one another, for each of which a triple is derived
chained :
    (qs rs : List Quad) (f : Quad → Quad → DerivedTriple)
    → Derives
        (ok (each qs (λ q. map (f q) (bucket (map by_subject rs) (term_to_subj q.object)))))
        (λ d.
          (q r : Quad) × (contains qs q ≡ true)
          × (contains rs r ≡ true)
          × (q.object ≡ subj_to_term r.subject)
          × (d ≡ f q r))
chained qs rs f =
    Derives_iff _
      (λ d. (
        λ (q, mq, (r, (mr, e), ed)). (q, r, mq, mr, e, ed),
        λ (q, r, mq, mr, e, ed). (q, mq, (r, (mr, e), ed)),
      ))
      (Derives-each (λ q. map (f q) (bucket (map by_subject rs) (term_to_subj q.object)))
        (λ q d.
          (r : Quad) × ((contains rs r ≡ true) × (q.object ≡ subj_to_term r.subject)) × (d ≡ f q r))
        qs
        (λ q d. (
          λ h.
              let (r, mr, e) =
                contains-map_elim (f q) (bucket (map by_subject rs) (term_to_subj q.object)) d h in
              (r, (following rs q.object r).0 mr, sym e),
          λ (r, w, e).
              subst
                (λ x.
                  contains (map (f q) (bucket (map by_subject rs) (term_to_subj q.object))) x
                  ≡ true)
                (sym e)
                (contains-map_intro (f q) (bucket (map by_subject rs) (term_to_subj q.object)) r
                  ((following rs q.object r).1 w)),
        )))

module _ (db : QuadStore) (law : IsQuadSet db) (s : db.Store) where
  open law use {contents, matching, pattern_law, matching_law}

  pushed_graphs :
      (p : NamedNode) (graphs : List GraphName) (out : List Quad)
      → (all : List Quad) × (for_graphs db s push_new none (some p) none out graphs ≡ ok all)
        × ((q : Quad)
            → contains all q ≡ (
                contains out q
                || any (λ g. contains (matching s none (some p) none (some g)) q) graphs))
  unfolding for_graphs
  pushed_graphs p [] out = (out, refl, λ q. ground arith)
  pushed_graphs p (g ∷ graphs) out =
      let (mid, e, h) = pushed_new (matching s none (some p) none (some g)) out in
      let (all, e', h') = pushed_graphs p graphs mid in
      (
        all,
        rw (pattern_law s none (some p) none (some g)) (rw e e'),
        λ q. ground (arith, h q, h' q),
      )

  -- the quad has the predicate, and stands in the store in one of the premise graphs
  abbrev pub IsPremise : GraphName → GraphName → NamedNode → Quad → Type 0
  IsPremise a i p q =
      (contains (contents s) q ≡ true)
      × (q.predicate ≡ p)
      × (contains (graphs_to_query a i) q.graph_name ≡ true)

  quads_for_predicate_lem :
      (a i : GraphName) (p : NamedNode)
      → (quads : List Quad) × (quads_for_predicate db s p a i ≡ ok quads)
        × ((q : Quad) → (contains quads q ≡ true) ↔ IsPremise a i p q)
  unfolding quads_for_predicate matches
  quads_for_predicate_lem a i p =
      let (all, e, h) = pushed_graphs p (graphs_to_query a i) [] in
      (
        all,
        e,
        λ q. (
          λ m.
              let (g, mg, mq) =
                any_elim (λ g. contains (matching s none (some p) none (some g)) q)
                  (graphs_to_query a i) (ground (arith, h q)) in
              let fit = matching_law s none (some p) none (some g) q in
              let same : g ≡ q.graph_name = ground (arith, graph_name_eq.beq_iff g q.graph_name) in
              (
                ground arith,
                ground (arith, string_eq.beq_iff p q.predicate),
                subst (λ n. contains (graphs_to_query a i) n ≡ true) same mg,
              ),
          λ (mem, pr, mg).
              let found =
                any_intro (λ g. contains (matching s none (some p) none (some g)) q)
                  (graphs_to_query a i) q.graph_name mg
                  (ground (
                    arith,
                    matching_law s none (some p) none (some q.graph_name) q,
                    string_eq.beq_iff p q.predicate,
                    graph_name_eq.beq_iff q.graph_name q.graph_name,
                  )) in
              ground (arith, h q, found),
        ),
      )

  -- `transitive_closure_tracked` returns, without an error, exactly the entries of two quads of the
  -- premise graphs that have the predicate and follow one another: the triple from the subject of
  -- the first to the object of the second, with the two quads as its premises.
  pub transitive_closure_tracked_lem :
      (a i : GraphName) (p : NamedNode)
      → Derives (transitive_closure_tracked db s p a i) (λ d.
        (q r : Quad) × IsPremise a i p q
        × IsPremise a i p r
        × (q.object ≡ subj_to_term r.subject)
        × (d ≡ record { triple_of = mk_triple q.subject p r.object; premises = q ∷ r ∷ [] }))
  unfolding transitive_closure_tracked
  transitive_closure_tracked_lem a i p =
      let (quads, e, h) = quads_for_predicate_lem a i p in
      Derives-bind _ _ _ quads e (
        Derives_iff _
          (λ d. (
            λ (q, r, mq, mr, eo, ed). (q, r, (h q).0 mq, (h r).0 mr, eo, ed),
            λ (q, r, mq, mr, eo, ed). (q, r, (h q).1 mq, (h r).1 mr, eo, ed),
          ))
          (chained quads quads
            (λ q r. record { triple_of = mk_triple q.subject p r.object; premises = q ∷ r ∷ [] })))

  -- `apply_cax_sco_tracked` returns, without an error, exactly the entries of a type quad and a
  -- subclass quad of its class in the premise graphs: the triple that gives the instance the type of
  -- the superclass, with the two quads as its premises.
  pub apply_cax_sco_tracked_lem :
      (a i : GraphName)
      → Derives (apply_cax_sco_tracked db s a i) (λ d.
        (q r : Quad) × IsPremise a i rdf_type q
        × IsPremise a i rdfs_sub_class_of r
        × (q.object ≡ subj_to_term r.subject)
        × (d ≡ record { triple_of = mk_triple q.subject rdf_type r.object; premises = q ∷ r ∷ [] }))
  unfolding apply_cax_sco_tracked
  apply_cax_sco_tracked_lem a i =
      let (subs, e, h) = quads_for_predicate_lem a i rdfs_sub_class_of in
      let (types, e', h') = quads_for_predicate_lem a i rdf_type in
      Derives-bind _ _ _ subs e (
        Derives-bind _ _ _ types e' (
          Derives_iff _
            (λ d. (
              λ (q, r, mq, mr, eo, ed). (q, r, (h' q).0 mq, (h r).0 mr, eo, ed),
              λ (q, r, mq, mr, eo, ed). (q, r, (h' q).1 mq, (h r).1 mr, eo, ed),
            ))
            (chained types subs (λ q r. record {
              triple_of = mk_triple q.subject rdf_type r.object;
              premises = q ∷ r ∷ [];
            }))))
