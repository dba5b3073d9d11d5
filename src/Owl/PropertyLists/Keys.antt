-- ===== src/Owl/PropertyLists/Keys.antt =====
-- Keys: what prp-key of src/functions/rdf_owl_rl/rules.rs derives for a key that has been read.
use sqlite_sparql.Prelude.{
  List, [], ◌∷◌, ◌≡◌, ◌≢◌, ◌↔◌, refl, subst, inl, inr, true, Option-cases, some, ok, HashMap,
  HashSet, get, get-put, or_default, insert, contains, contains-insert, contains-single, each,
  Derives, list_eq, pair_eq, string_eq, arith,
}
use sqlite_sparql.Rdf.{NamedNode, Subject, Term, mk_triple, GraphName}
use sqlite_sparql.Rdf.Equality.{subject_eq, term_eq, triple_eq, quad_eq, graph_name_eq}
use sqlite_sparql.Rdf.Coercions.{subj_to_term}
use sqlite_sparql.Oxigraph.{QuadStore, IsQuadSet}
use sqlite_sparql.Graphs.Holds.{holds}
use sqlite_sparql.Graphs.Scanned.{for_graphs-emits}
use sqlite_sparql.Owl.Vocabulary.{owl_same_as}
use sqlite_sparql.Owl.Merging.{add_object, objects_by_subject}
use sqlite_sparql.Owl.PropertyLists.{by_tuple, merge_bucket, value_indexes, key_triples}
use sqlite_sparql.Owl.PropertyLists.Tuples.{Carries, merged_tuples_lem}

module _ (db : QuadStore) (law : IsQuadSet db) (s : db.Store) (graphs : List GraphName) where
  open law use {contents}

  -- the node has each value of the tuple under the key property beside it
  abbrev pub HasKey : List NamedNode → Subject → List Term → Type 0
  HasKey [] x [] = Unit
  HasKey [] x (v ∷ vs) = ⊥
  HasKey (kp ∷ kps) x [] = ⊥
  HasKey (kp ∷ kps) x (v ∷ vs) = (holds (contents s) graphs x kp v ≡ true) × HasKey kps x vs

  objects_by_subject_lem :
      (p : NamedNode)
      → (m : HashMap Subject (HashSet Term)) × (objects_by_subject db s p graphs ≡ ok m)
        × ((x : Subject) (v : Term)
            → (contains (or_default (get m x) []) v ≡ true)
              ↔ (holds (contents s) graphs x p v ≡ true))
  unfolding objects_by_subject add_object get
  objects_by_subject_lem p =
      let (m, e, kept, h) =
        for_graphs-emits
          (λ (m : HashMap Subject (HashSet Term)) (xv : Subject × Term).
            contains (or_default (get m xv.0) []) xv.1)
          (λ m. Unit) (λ m q. add_object m q.subject q.object) (λ xv. xv ∷ []) (λ m q good. tt)
          (λ m q (x, v). ground (
            arith,
            get-put m q.subject x (insert (or_default (get m q.subject) []) q.object),
            contains-insert (or_default (get m q.subject) []) q.object v,
            subject_eq.beq_iff q.subject x,
          ))
          db law s p graphs [] tt in
      (
        m,
        e,
        λ x v. (
          λ found. elim ((h (x, v)).0 found) [
            | inl never ↦ cc
            | inr (y, w, hy, same) ↦
                subst (λ (z : Subject × Term). holds (contents s) graphs z.0 p z.1 ≡ true)
                  ((contains-single {A = Subject × Term} (y, w) (x, v)).0 same) hy
          ],
          λ hx.
              (h (x, v)).1
                (inr (x, v, hx, (contains-single {A = Subject × Term} (x, v) (x, v)).1 refl)),
        ),
      )

  value_indexes_lem :
      (kps : List NamedNode)
      → (vps : List (HashMap Subject (HashSet Term))) × (value_indexes db s graphs kps ≡ ok vps)
        × ((x : Subject) (tup : List Term) → Carries vps x tup ↔ HasKey kps x tup)
  unfolding value_indexes
  value_indexes_lem [] = ([], refl, λ x tup. nothing x tup)
    where
      nothing : (x : Subject) (tup : List Term) → Carries [] x tup ↔ HasKey [] x tup
      nothing x [] = (λ c. c, λ k. k)
      nothing x (v ∷ vs) = (λ c. c, λ k. k)
  value_indexes_lem (kp ∷ kps) =
      let (m, e, h) = objects_by_subject_lem kp in
      let (vps, es, hs) = value_indexes_lem kps in
      (m ∷ vps, rw e (rw es refl), λ x tup. step m vps h hs x tup)
    where
      step :
          (m : HashMap Subject (HashSet Term)) (vps : List (HashMap Subject (HashSet Term)))
          → ((x : Subject) (v : Term)
              → (contains (or_default (get m x) []) v ≡ true)
                ↔ (holds (contents s) graphs x kp v ≡ true))
          → ((x : Subject) (tup : List Term) → Carries vps x tup ↔ HasKey kps x tup)
          → (x : Subject) (tup : List Term) → Carries (m ∷ vps) x tup ↔ HasKey (kp ∷ kps) x tup
      step m vps h hs x [] = (λ c. c, λ k. k)
      step m vps h hs x (v ∷ vs) =
          (λ (c, cs). ((h x v).0 c, (hs x vs).0 cs), λ (k, ks). ((h x v).1 k, (hs x vs).1 ks))

  -- For a key of at least one property and an index of the instances of each class, key_triples returns,
  -- without an error, exactly the triples `x owl:sameAs y` for two different instances of the class
  -- that have a value in common under each property of the key.
  pub key_triples_lem :
      (index : HashMap Term (HashSet Subject)) (c : Subject) (kp : NamedNode) (kps : List NamedNode)
      → Derives (key_triples db s graphs index c (some (kp ∷ kps))) (λ t.
        (x y : Subject) × (tup : List Term) × (contains
            (or_default (get index (subj_to_term c)) [])
            x
          ≡ true)
        × (contains (or_default (get index (subj_to_term c)) []) y ≡ true)
        × HasKey (kp ∷ kps) x tup
        × HasKey (kp ∷ kps) y tup
        × (x ≢ y)
        × (t ≡ mk_triple x owl_same_as (subj_to_term y)))
  unfolding key_triples
  key_triples_lem index c kp kps =
      let (vps, ev, hv) = value_indexes_lem (kp ∷ kps) in
      elim (Option-cases (get index (subj_to_term c))) [
        | inl nothing ↦
            rw (nothing, key_triples)
              ([], refl, λ t. (λ m. cc, λ (x, y, tup, mx, my, kx, ky, ne, et). cc mx))
        | inr (insts, found) ↦
            rw (found, key_triples)
              (rw ev (
                each (by_tuple vps insts) (λ (ts : List Term × List Subject). merge_bucket ts.1),
                refl,
                λ t. (
                  λ m.
                      let (x, y, tup, mx, my, cx, cy, ne, et) =
                        (merged_tuples_lem vps insts t).0 m in
                      (x, y, tup, mx, my, (hv x tup).0 cx, (hv y tup).0 cy, ne, et),
                  λ (x, y, tup, mx, my, kx, ky, ne, et).
                      (merged_tuples_lem vps insts t).1
                        (x, y, tup, mx, my, (hv x tup).1 kx, (hv y tup).1 ky, ne, et),
                ),
              ))
      ]
