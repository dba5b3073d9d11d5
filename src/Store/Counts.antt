-- ===== src/Store/Counts.antt =====
-- What the operations of src/store.rs on single triples do to its counts.
use sqlite_sparql.Prelude.{
  suc, String, List, [], ◌∷◌, ◌≡◌, refl, ap, inl, inr, arith, true, false, not, ◌&&◌, ◌||◌,
  Bool-cases, Option, none, some, map, ok, ◌==◌, string_eq, contains, length, length-eq_of_same,
  if◌then◌else◌,
}
use sqlite_sparql.Rdf.{GraphName, Quad}
use sqlite_sparql.Rdf.Equality.{quad_eq, subject_eq, term_eq, graph_name_eq}
use sqlite_sparql.Oxigraph.{QuadStore, IsQuadSet, TermParsers, matches}
use sqlite_sparql.Terms.{build_quad}
use sqlite_sparql.Store.{
  count_ok, count_graph, insert_triple_in_graph, delete_triple_in_graph, reported,
}

count_ok-some : (qs : List Quad) → count_ok (map some qs) ≡ length qs
unfolding count_ok
count_ok-some [] = refl
count_ok-some (q ∷ qs) = ap suc (count_ok-some qs)

reported_ok : {S A : Type 0} (x : S × Option A) (a : A) → x.1 ≡ some a → reported x ≡ (x.0, ok tt)
unfolding reported
reported_ok (s, some b) a h = refl
reported_ok (s, none) a h = cc

module _ (db : QuadStore) (api : TermParsers) (law : IsQuadSet db) where
  open law use {contents, matching, matching_distinct, matching_law, pattern_law}

  abbrev in_graph : db.Store → GraphName → List Quad
  in_graph s g = matching s none none none (some g)

  count_graph_lem : (s : db.Store) (g : GraphName) → count_graph db api s g ≡ length (in_graph s g)
  unfolding count_graph
  count_graph_lem s g = rw (pattern_law s none none none (some g)) (count_ok-some (in_graph s g))

  in_graph_lem :
      (s : db.Store) (g : GraphName) (r : Quad)
      → contains (in_graph s g) r ≡ (contains (contents s) r && g == r.graph_name)
  unfolding matches
  in_graph_lem s g r = matching_law s none none none (some g) r

  -- one quad more in a graph
  one_more :
      (s s' : db.Store) (q : Quad)
      → contains (contents s) q ≡ false
      → ((r : Quad) → contains (contents s') r ≡ (if q == r then true else contains (contents s) r))
      → (g : GraphName)
      → length (in_graph s' g)
        ≡ (if q.graph_name == g then suc (length (in_graph s g)) else length (in_graph s g))
  one_more s s' q absent h g = elim (Bool-cases (q.graph_name == g)) [
    | inl same ↦ rw same (
        length-eq_of_same (in_graph s' g) (q ∷ in_graph s g)
          (matching_distinct s' none none none (some g))
          (ground (arith, in_graph_lem s g q), matching_distinct s none none none (some g))
          (λ r. ground (
            arith,
            h r,
            in_graph_lem s g r,
            in_graph_lem s' g r,
            quad_eq.beq_iff q r,
            graph_name_eq.beq_iff q.graph_name g,
            graph_name_eq.beq_iff g r.graph_name,
          )))
    | inr other ↦ rw other (
        length-eq_of_same (in_graph s' g) (in_graph s g)
          (matching_distinct s' none none none (some g))
          (matching_distinct s none none none (some g))
          (λ r. ground (
            arith,
            h r,
            in_graph_lem s g r,
            in_graph_lem s' g r,
            quad_eq.beq_iff q r,
            graph_name_eq.beq_iff q.graph_name g,
            graph_name_eq.beq_iff g r.graph_name,
          )))
  ]

  same_count :
      (s s' : db.Store)
      → ((r : Quad) → contains (contents s') r ≡ contains (contents s) r)
      → (g : GraphName) → length (in_graph s' g) ≡ length (in_graph s g)
  same_count s s' h g =
      length-eq_of_same (in_graph s' g) (in_graph s g)
        (matching_distinct s' none none none (some g)) (matching_distinct s none none none (some g))
        (λ r. ground (arith, h r, in_graph_lem s g r, in_graph_lem s' g r))

  inserted :
      (store : db.Store) (q : Quad) (g : GraphName)
      → count_graph db api (db.insert_quad store q).0 g ≡ (
          if q.graph_name == g && not (contains (contents store) q)
          then suc (count_graph db api store g)
          else count_graph db api store g)
  inserted store q g =
      let s' = (db.insert_quad store q).0 in
      let now = count_graph_lem s' g in
      let before = count_graph_lem store g in
      elim (Bool-cases (contains (contents store) q)) [
        | inl old ↦ ground (
          arith,
          now,
          before,
          same_count store s' (λ r. ground (arith, law.insert_law store q r, quad_eq.beq_iff q r))
              g,
        )
        | inr new ↦ ground (
          arith,
          now,
          before,
          one_more store s' q new (λ r. ground (arith, law.insert_law store q r)) g,
        )
      ]

  removed :
      (store : db.Store) (q : Quad) (g : GraphName)
      → count_graph db api store g ≡ (
          if q.graph_name == g && contains (contents store) q
          then suc (count_graph db api (db.remove_quad store q).0 g)
          else count_graph db api (db.remove_quad store q).0 g)
  removed store q g =
      let s' = (db.remove_quad store q).0 in
      let now = count_graph_lem s' g in
      let before = count_graph_lem store g in
      elim (Bool-cases (contains (contents store) q)) [
        | inl old ↦ ground (
          arith,
          now,
          before,
          one_more s' store q (ground (arith, law.remove_law store q q, quad_eq.beq_iff q q))
              (λ r. ground (arith, law.remove_law store q r, quad_eq.beq_iff q r)) g,
        )
        | inr new ↦ ground (
          arith,
          now,
          before,
          same_count store s' (λ r. ground (arith, law.remove_law store q r, quad_eq.beq_iff q r))
              g,
        )
      ]

  insert_accepted :
      (store : db.Store) (s p o : String) (graph : Option String) (q : Quad)
      → build_quad api s p o graph ≡ ok q
      → insert_triple_in_graph db api store s p o graph ≡ ((db.insert_quad store q).0, ok tt)
  unfolding insert_triple_in_graph
  insert_accepted store s p o graph q h =
      rw (h, insert_triple_in_graph)
        (reported_ok (db.insert_quad store q) _ (law.insert_result store q))

  -- Inserting a triple whose texts are accepted succeeds. Afterwards the store has that quad and the
  -- ones it had; the count of the quad's graph is one more if the quad was new, and every other
  -- count is as before.
  pub insert_counted :
      (store : db.Store) (s p o : String) (graph : Option String) (q : Quad)
      → build_quad api s p o graph ≡ ok q
      → let out = insert_triple_in_graph db api store s p o graph in
        (out.1 ≡ ok tt)
        × ((r : Quad) → contains (contents out.0) r ≡ (q == r || contains (contents store) r))
        × ((g : GraphName)
            → count_graph db api out.0 g ≡ (
                if q.graph_name == g && not (contains (contents store) q)
                then suc (count_graph db api store g)
                else count_graph db api store g))
  insert_counted store s p o graph q h =
      rw (insert_accepted store s p o graph q h) ((refl, law.insert_law store q, inserted store q))

  delete_accepted :
      (store : db.Store) (s p o : String) (graph : Option String) (q : Quad)
      → build_quad api s p o graph ≡ ok q
      → delete_triple_in_graph db api store s p o graph ≡ ((db.remove_quad store q).0, ok tt)
  unfolding delete_triple_in_graph
  delete_accepted store s p o graph q h =
      rw (h, delete_triple_in_graph)
        (reported_ok (db.remove_quad store q) _ (law.remove_result store q))

  -- Deleting a triple whose texts are accepted succeeds, also where the store does not have it.
  -- Afterwards the store has the quads that it had but that one; the count of its graph was one more
  -- if the quad was there, and every other count is as before.
  pub delete_counted :
      (store : db.Store) (s p o : String) (graph : Option String) (q : Quad)
      → build_quad api s p o graph ≡ ok q
      → let out = delete_triple_in_graph db api store s p o graph in
        (out.1 ≡ ok tt)
        × ((r : Quad)
            → contains (contents out.0) r ≡ (if q == r then false else contains (contents store) r))
        × ((g : GraphName)
            → count_graph db api store g ≡ (
                if q.graph_name == g && contains (contents store) q
                then suc (count_graph db api out.0 g)
                else count_graph db api out.0 g))
  delete_counted store s p o graph q h =
      rw (delete_accepted store s p o graph q h) ((refl, law.remove_law store q, removed store q))
