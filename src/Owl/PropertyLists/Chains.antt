-- ===== src/Owl/PropertyLists/Chains.antt =====
-- Property chains: what prp-spo2 of src/functions/rdf_owl_rl/rules.rs derives for a chain that has been
-- read.
use sqlite_sparql.Prelude.{
  List, [], ◌∷◌, ◌≡◌, ◌↔◌, ◌∙◌, refl, sym, ap, subst, inl, inr, true, some, map, ok, HashSet, get,
  insert, contains, contains-insert, contains-map_elim, contains-single, contains-map_intro,
  Derives, string_eq, pair_eq, or_default, arith, ◌||◌,
}
use sqlite_sparql.Rdf.{NamedNode, Subject, Term, Triple, mk_triple, GraphName}
use sqlite_sparql.Rdf.Equality.{subject_eq, term_eq, triple_eq, quad_eq, graph_name_eq}
use sqlite_sparql.Rdf.Coercions.{subj_to_term}
use sqlite_sparql.Oxigraph.{QuadStore, IsQuadSet}
use sqlite_sparql.Graphs.Holds.{holds}
use sqlite_sparql.Graphs.Scanned.{for_graphs-emits}
use sqlite_sparql.Owl.Restrictions.{push_values}
use sqlite_sparql.Owl.PropertyLists.{insert_starts, by_end, join_chain, chain_triples}
use sqlite_sparql.Owl.PropertyLists.Pushed.{contains-push_values}

contains-insert_starts :
    (next : HashSet (Subject × Term)) (starts : List Subject) (o : Term) (b : Subject × Term)
    → contains (insert_starts next starts o) b
      ≡ (contains next b || contains (map (λ s. (s, o)) starts) b)
unfolding insert_starts
contains-insert_starts next [] o b = ground arith
contains-insert_starts next (s ∷ starts) o b =
    ground
      (arith, contains-insert_starts (insert next (s, o)) starts o b, contains-insert next (s, o) b)

contains-by_end :
    (current : List (Subject × Term)) (x : Subject) (t : Term)
    → contains (by_end current) (t, x) ≡ contains current (x, t)
contains-by_end [] x t = refl
contains-by_end ((y, u) ∷ current) x t = ground (arith, contains-by_end current x t)

-- the start nodes of the pairs that end at a node, and the object of a triple from there
abbrev starts_at : List (Subject × Term) → Subject × Term → List (Subject × Term)
starts_at current uy =
    map (λ s. (s, uy.1)) (or_default (get (push_values [] (by_end current)) (subj_to_term uy.0)) [])

starts_at_lem :
    (current : List (Subject × Term)) (u x : Subject) (y w : Term)
    → (contains (starts_at current (u, y)) (x, w) ≡ true)
      ↔ ((contains current (x, subj_to_term u) ≡ true) × (y ≡ w))
unfolding get
starts_at_lem current u x y w =
    let at_end : List Subject =
      or_default (get (push_values [] (by_end current)) (subj_to_term u)) [] in
    let start : Subject → Subject × Term = λ v. (v, y) in
    let found : contains at_end x ≡ contains current (x, subj_to_term u) =
      contains-push_values (by_end current) [] (subj_to_term u) x
      ∙ contains-by_end current x (subj_to_term u) in
    (
      λ h.
          let (v, m, e) = contains-map_elim start at_end (x, w) h in
          (
            sym found
                ∙ subst (λ (z : Subject). contains at_end z ≡ true)
                    (ap (λ (z : Subject × Term). z.0) e) m,
            ap (λ (z : Subject × Term). z.1) e,
          ),
      λ (m, e).
          subst (λ (z : Term). contains (map start at_end) (x, z) ≡ true) e
            (contains-map_intro start at_end x (found ∙ m)),
    )

module _ (db : QuadStore) (law : IsQuadSet db) (s : db.Store) (graphs : List GraphName) where
  open law use {contents}

  -- from the one node a triple of each property in turn leads to the other
  abbrev pub Chained : Term → List NamedNode → Term → Type 0
  Chained y [] z = y ≡ z
  Chained y (p ∷ props) z =
      (u : Subject) × (w : Term) × (y ≡ subj_to_term u)
      × (holds (contents s) graphs u p w ≡ true)
      × Chained w props z

  -- The joins of a chain return, without an error, the pairs that the chain leads on from.
  pub join_chain_lem :
      (props : List NamedNode) (current : HashSet (Subject × Term))
      → (found : HashSet (Subject × Term)) × (join_chain db s graphs current props ≡ ok found)
        × ((x : Subject) (z : Term)
            → (contains found (x, z) ≡ true)
              ↔ ((y : Term) × (contains current (x, y) ≡ true) × Chained y props z))
  unfolding join_chain
  join_chain_lem [] current = (
    current,
    refl,
    λ x z. (λ m. (z, m, refl), λ (y, m, e). subst (λ t. contains current (x, t) ≡ true) e m),
  )
  join_chain_lem (p ∷ props) [] = ([], refl, λ x z. (λ m. cc, λ w. cc (w.1)))
  join_chain_lem (p ∷ props) (st ∷ sts) =
      let current = st ∷ sts in
      let (next, e, kept, h) =
        for_graphs-emits contains (λ out. Unit)
          (λ next q.
            insert_starts next
              (or_default (get (push_values [] (by_end current)) (subj_to_term q.subject)) [])
              q.object)
          (starts_at current) (λ out q good. tt)
          (λ out q b.
            contains-insert_starts out
              (or_default (get (push_values [] (by_end current)) (subj_to_term q.subject)) [])
              q.object b)
          db law s p graphs [] tt in
      let (found, ef, hf) = join_chain_lem props next in
      (
        found,
        rw e ef,
        λ x z. (
          λ m.
              let (w, mw, chain) = (hf x z).0 m in
              elim ((h (x, w)).0 mw) [
                | inl never ↦ cc
                | inr (u, y, hu, emitted) ↦
                    let (mx, same) = (starts_at_lem current u x y w).0 emitted in
                    (
                      subj_to_term u,
                      mx,
                      (
                        u,
                        w,
                        refl,
                        subst (λ t. holds (contents s) graphs u p t ≡ true) same hu,
                        chain,
                      ),
                    )
              ],
          λ (y, m, (u, w, ey, hu, chain)). (hf x z).1 (
            w,
            (h (x, w)).1 (
                inr (
                  u,
                  w,
                  hu,
                  (starts_at_lem current u x w w).1
                      (subst (λ t. contains current (x, t) ≡ true) ey m, refl),
                )),
            chain,
          ),
        ),
      )

  -- For a chain of at least one property, chain_triples returns, without an error, exactly the triples
  -- `x p z` that the chain leads to.
  pub chain_triples_lem :
      (p first : NamedNode) (props : List NamedNode)
      → Derives (chain_triples db s graphs p (some (first ∷ props))) (λ t.
        (x : Subject) × (y z : Term) × (holds (contents s) graphs x first y ≡ true)
        × Chained y props z
        × (t ≡ mk_triple x p z))
  unfolding chain_triples
  chain_triples_lem p first props =
      let (current, e, kept, h) =
        for_graphs-emits contains (λ out. Unit) (λ out q. insert out (q.subject, q.object))
          (λ xy. xy ∷ []) (λ out q good. tt)
          (λ out q b. ground (arith, contains-insert out (q.subject, q.object) b)) db law s first
          graphs [] tt in
      let (found, ef, hf) = join_chain_lem props current in
      let make : Subject × Term → Triple = λ st. mk_triple st.0 p st.1 in
      (
        map make found,
        rw e (rw ef refl),
        λ t. (
          λ m.
              let ((x, z), mf, et) = contains-map_elim make found t m in
              let (y, my, chain) = (hf x z).0 mf in
              elim ((h (x, y)).0 my) [
                | inl never ↦ cc
                | inr (x', y', hx, same) ↦ (
                  x,
                  y,
                  z,
                  subst (λ (w : Subject × Term). holds (contents s) graphs w.0 first w.1 ≡ true)
                      ((contains-single {A = Subject × Term} (x', y') (x, y)).0 same) hx,
                  chain,
                  sym et,
                )
              ],
          λ (x, y, z, hx, chain, et).
              subst (λ (r : Triple). contains (map make found) r ≡ true) (sym et)
                (contains-map_intro make found (x, z)
                  ((hf x z).1 (
                    y,
                    (h (x, y)).1 (
                        inr
                          (x, y, hx, (contains-single {A = Subject × Term} (x, y) (x, y)).1 refl)),
                    chain,
                  ))),
        ),
      )
