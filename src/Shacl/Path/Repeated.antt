-- ===== src/Shacl/Path/Repeated.antt =====
-- The closures p* and p+ of the evaluator of src/functions/rdf_shacl_core/path.rs, over an inner path whose
-- values are exactly the ones that it leads to.
use sqlite_sparql.Prelude.{
  ℕ, ◌+◌, ◌<◌, contains-append, IsDistinct, Within, List, [], ◌∷◌, ◌≡◌, ◌⊎◌, ◌↔◌, ◌∙◌, ◌||◌, refl,
  sym, ap, subst, inl, inr, arith, true, false, Bool-cases, Option, some, map, contains, ◌==◌,
  string_eq, contains-map_elim, contains-map_intro,
}
use sqlite_sparql.Rdf.{Subject, Term, GraphName}
use sqlite_sparql.Rdf.Equality.{quad_eq, subject_eq, term_eq, graph_name_eq}
use sqlite_sparql.Rdf.Coercions.{subj_to_term}
use sqlite_sparql.Oxigraph.{QuadStore, IsQuadSet}
use sqlite_sparql.Oxigraph.Sizes.{size}
use sqlite_sparql.Shacl.Path.{
  PropertyPath, zero_or_more, one_or_more, Rounds, closure, first_hop, eval_impl,
}
use sqlite_sparql.Shacl.Path.Closure.{closure-Ends, Ends}
use sqlite_sparql.Shacl.Path.FirstHop.{IsHop, first_hop-IsHop}
use sqlite_sparql.Shacl.Path.Found.{
  Star, here, next, Star-closed, Found, Found-stays, nodes, nodes-Spans, length-nodes,
}
use sqlite_sparql.Shacl.Path.Steps.{Yields, Leads}

module _ (db : QuadStore) (law : IsQuadSet db) (s : db.Store) (graph : GraphName) where
  open law use {contents, matching, pattern_law}

  module _ (rounds : ℕ) (enough : size db law s + size db law s + 1 < rounds) where
    module _ (inner : PropertyPath)
        (total : (x : Subject)
          → Yields (eval_impl db s graph rounds inner x) (Leads db law s graph inner x)) where
      abbrev step : Subject → Option (List Term)
      step = eval_impl db s graph rounds inner

      abbrev HopsTo : Subject → Subject → Type 0
      HopsTo a b = Leads db law s graph inner a (subj_to_term b)

      -- the loop from variables whose visited nodes are all of them on the frontier
      closure_lem :
          (x : Subject) (fs : List Subject) (st : Rounds)
          → IsDistinct st.visited
          → Within st.visited (x ∷ nodes (contents s))
          → ((y : Subject) → contains fs y ≡ contains st.visited y)
          → (out : List Term) × (closure step rounds fs st ≡ some out)
            × Ends step (Leads db law s graph inner) total st out
      closure_lem x fs st distinct within same =
          closure-Ends step (Leads db law s graph inner) total (x ∷ nodes (contents s))
            (λ y z my hop.
              Found-stays (contents s) graph (x ∷ nodes (contents s))
                (nodes-Spans (contents s) graph x) inner y z my hop)
            rounds fs st distinct within (λ y m. ground (arith, same y))
            (λ y z m n hop. ground (arith, same y)) (omega (arith, length-nodes (contents s)))

      -- what the loop returns: the results that it starts with, and the nodes that it adds
      Ends-out :
          (st : Rounds) (out : List Term)
          (ends : Ends step (Leads db law s graph inner) total st out) (t : Term)
          → (contains out t ≡ true) ↔ (
              (contains st.out t ≡ true)
              ⊎ ((y : Subject) × (t ≡ subj_to_term y) × (contains ends.added y ≡ true)))
      Ends-out st out ends t =
          let split =
            ap (λ l. contains l t) ends.out_law
            ∙ contains-append st.out (map subj_to_term ends.added) t in
          (
            λ m. elim (Bool-cases (contains st.out t)) [
              | inl old ↦ inl old
              | inr new ↦
                  let (y, my, ey) =
                    contains-map_elim subj_to_term ends.added t (ground (arith, split)) in
                  inr (y, sym ey, my)
            ],
            λ h. elim h [
              | inl old ↦ ground (arith, split)
              | inr (y, et, my) ↦
                  let new : contains (map subj_to_term ends.added) t ≡ true =
                    subst (λ w. contains (map subj_to_term ends.added) w ≡ true) (sym et)
                      (contains-map_intro subj_to_term ends.added y my) in
                  ground (arith, split)
            ],
          )

      abbrev from_focus : Subject → Rounds
      from_focus x = record { visited = x ∷ []; next = []; out = subj_to_term x ∷ [] }

      Star-iff :
          (x : Subject) (out : List Term)
          → Ends step (Leads db law s graph inner) total (from_focus x) out
          → (t : Term)
          → (contains out t ≡ true) ↔ ((y : Subject) × (t ≡ subj_to_term y) × Star HopsTo x y)
      Star-iff x out ends t = (
        λ m. elim ((Ends-out (from_focus x) out ends t).0 m) [
          | inl old ↦ (x, ground (arith, term_eq.beq_iff (subj_to_term x) t), here)
          | inr (y, et, my) ↦ (
            y,
            et,
            ends.led_to (Star HopsTo x)
                (λ z mz. subst (Star HopsTo x) ((subject_eq.beq_iff x z).0 (ground arith)) here)
                (λ a b star hop. next star hop) y my,
          )
        ],
        λ (y, et, star).
            let reached =
              Star-closed (λ z. ((x == z || false) || contains ends.added z) ≡ true) ends.closed
                (ground (arith, subject_eq.beq_iff x x)) star in
            (Ends-out (from_focus x) out ends t).1 (elim (Bool-cases (x == y)) [
              | inl same ↦ inl (
                  ground (
                    arith,
                    term_eq.beq_iff (subj_to_term x) t,
                    et ∙ ap subj_to_term (sym ((subject_eq.beq_iff x y).0 same)),
                  ))
              | inr other ↦ inr (y, et, ground arith)
            ]),
      )

      pub zero_or_more_lem :
          (x : Subject)
          → Yields
              (eval_impl db s graph rounds (zero_or_more inner) x)
              (Leads db law s graph (zero_or_more inner) x)
      unfolding eval_impl Found
      zero_or_more_lem x =
          let (out, e, ends) =
            closure_lem x (x ∷ []) (from_focus x) (refl, tt) (λ y m. ground arith) (λ y. refl) in
          (out, e, Star-iff x out ends)

      plus_iff :
          (x : Subject) (vs : List Term)
          → ((t : Term) → (contains vs t ≡ true) ↔ Leads db law s graph inner x t)
          → (st : Rounds) → IsHop st (contains vs)
          → (out : List Term) → Ends step (Leads db law s graph inner) total st out
          → (t : Term)
          → (contains out t ≡ true) ↔ (
              Leads db law s graph inner x t
              ⊎ ((y z : Subject) × (t ≡ subj_to_term z) × HopsTo x y × Star HopsTo y z))
      plus_iff x vs hv st hop out ends t = (
        λ m. elim ((Ends-out st out ends t).0 m) [
          | inl old ↦ inl ((hv t).0 (sym (hop.out_law t) ∙ old))
          | inr (z, et, mz) ↦
              let (y, hy, star) =
                ends.led_to (λ z. (y : Subject) × HopsTo x y × Star HopsTo y z)
                  (λ y my. (y, (hv (subj_to_term y)).0 (sym (hop.visited_law y) ∙ my), here))
                  (λ a b (y, hy, star) h. (y, hy, next star h)) z mz in
              inr (y, z, et, hy, star)
        ],
        λ h. (Ends-out st out ends t).1 (elim h [
          | inl first ↦ inl (hop.out_law t ∙ (hv t).1 first)
          | inr (y, z, et, hy, star) ↦
              let start = hop.visited_law y ∙ (hv (subj_to_term y)).1 hy in
              let reached =
                Star-closed (λ w. (contains st.visited w || contains ends.added w) ≡ true)
                  ends.closed (ground arith) star in
              elim (Bool-cases (contains st.visited z)) [
                | inl old ↦
                    inl (hop.out_law t ∙ ap (contains vs) et ∙ sym (hop.visited_law z) ∙ old)
                | inr new ↦ inr (z, et, ground arith)
              ]
        ]),
      )

      pub one_or_more_lem :
          (x : Subject)
          → Yields
              (eval_impl db s graph rounds (one_or_more inner) x)
              (Leads db law s graph (one_or_more inner) x)
      unfolding eval_impl Found
      one_or_more_lem x =
          let (vs, ev, hv) = total x in
          let start : Rounds = record { visited = []; next = []; out = [] } in
          let hop =
            first_hop-IsHop start (λ t. false) vs
              (record {
                visited_law = λ y. refl;
                next_law = λ y. refl;
                out_law = λ t. refl;
                distinct_law = tt;
              }) in
          let st = first_hop start vs in
          let (out, e, ends) =
            closure_lem x st.next st hop.distinct_law
              (λ y my.
                Found-stays (contents s) graph (x ∷ nodes (contents s))
                  (nodes-Spans (contents s) graph x) inner x y
                  (ground (arith, subject_eq.beq_iff x x))
                  ((hv (subj_to_term y)).0 (sym (hop.visited_law y) ∙ my)))
              hop.next_law in
          (out, rw ev e, plus_iff x vs hv st hop out ends)
