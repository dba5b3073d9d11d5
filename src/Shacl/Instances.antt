-- ===== src/Shacl/Instances.antt =====
-- The instance check of sh:class (src/functions/rdf_shacl_core/constraints.rs): its search ends and finds
-- exactly the superclasses.
use sqlite_sparql.Prelude.{
  ℕ, zero, suc, ◌+◌, ◌≤◌, ◌<◌, List, [], ◌∷◌, ◌≡◌, ◌≢◌, ◌↔◌, ◌∙◌, ◌||◌, ◌==◌, refl, sym, subst, inl,
  inr, true, false, Bool, Bool-cases, none, some, ok, length, select, contains, contains-select,
  insert, length-le_of_Within, string_eq, arith,
}
use sqlite_sparql.Rdf.{NamedNode, Subject, named_node, named_node_term, GraphName}
use sqlite_sparql.Rdf.Equality.{subject_eq, term_eq, quad_eq, graph_name_eq}
use sqlite_sparql.Oxigraph.{QuadStore, IsQuadSet, matches}
use sqlite_sparql.Oxigraph.Sizes.{size}
use sqlite_sparql.Graphs.{rdf_type}
use sqlite_sparql.Graphs.Holds.{quad, contains-objects}
use sqlite_sparql.Owl.Vocabulary.{rdfs_sub_class_of}
use sqlite_sparql.Shacl.Evaluators.{push_parents, search, instance_of}
use sqlite_sparql.Shacl.Queued.{unseen, about, length-select, length-unseen, push_named_lem}

module _ (db : QuadStore) (law : IsQuadSet db) (s : db.Store) (g : GraphName) where
  open law use {contents, matching, matching_law, matching_distinct, pattern_law}

  -- the class is a subclass of the other, through any number of direct subclasses in the graph
  pub data Reaches : NamedNode → NamedNode → Type 0 where
    here : {c : NamedNode} → Reaches c c
    up :
        {c d e : NamedNode}
        → contains (contents s) (quad (named_node c) rdfs_sub_class_of (named_node_term d) g) ≡ true
        → Reaches d e
        → Reaches c e

  push_parents_lem :
      (cls : NamedNode) (queue seen : List NamedNode)
      → contains seen cls ≡ false
      → (queue' : List NamedNode) × (push_parents db s g cls queue ≡ ok queue')
        × (length queue' + length (select (unseen (cls ∷ seen)) (contents s))
            ≤ length queue + length (select (unseen seen) (contents s)))
        × ((n : NamedNode)
            → contains queue' n ≡ (
                contains queue n
                || contains
                    (contents s)
                    (quad (named_node cls) rdfs_sub_class_of (named_node_term n) g)))
  unfolding push_parents matches
  push_parents_lem cls queue seen new =
      let found = matching s (some (named_node cls)) (some rdfs_sub_class_of) none (some g) in
      let (queue', e, le, h) = push_named_lem found queue in
      let few : length found ≤ length (select (about cls) (contents s)) =
        length-le_of_Within found (select (about cls) (contents s)) (matching_distinct s _ _ _ _)
          (λ q m. ground (
            arith,
            contains-select (about cls) (contents s) q,
            matching_law s (some (named_node cls)) (some rdfs_sub_class_of) none (some g) q,
          )) in
      (
        queue',
        rw (pattern_law s (some (named_node cls)) (some rdfs_sub_class_of) none (some g)) e,
        omega (arith, length-unseen seen cls new (contents s)),
        λ n. ground (
          arith,
          h n,
          contains-objects db law s (named_node cls) rdfs_sub_class_of g (named_node_term n),
        ),
      )

  -- The visited classes are not the one that is searched for, and their parents are visited or queued.
  abbrev Explored : NamedNode → List NamedNode → List NamedNode → Type 0
  Explored class seen queue =
      (c : NamedNode)
      → contains seen c ≡ true
      → (c ≢ class)
        × ((d : NamedNode)
            → contains (contents s) (quad (named_node c) rdfs_sub_class_of (named_node_term d) g)
              ≡ true
            → (contains seen d || contains queue d) ≡ true)

  -- once the queue is empty, no visited class reaches it
  Reaches-Explored :
      (class : NamedNode) (seen : List NamedNode) (c e : NamedNode)
      → Explored class seen []
      → contains seen c ≡ true
      → Reaches c e
      → e ≢ class
  Reaches-Explored class seen c _ explored m here = (explored c m).0
  Reaches-Explored class seen c e explored m (up {d = d} parent r) =
      Reaches-Explored class seen d e explored (ground (arith, (explored c m).1 d parent)) r

  -- the classes to search from
  abbrev Open : List NamedNode → List NamedNode → NamedNode → Type 0
  Open seen queue c = (contains seen c || contains queue c) ≡ true

  insert_new :
      (seen : List NamedNode) (cls : NamedNode)
      → contains seen cls ≡ false
      → insert seen cls ≡ cls ∷ seen
  unfolding insert
  insert_new seen cls new = rw new refl

  -- A class that is visited already adds nothing to the queue.
  Open-visited :
      (seen queue : List NamedNode) (cls d : NamedNode)
      → contains seen cls ≡ true
      → Open seen (cls ∷ queue) d
      → Open seen queue d
  Open-visited seen queue cls d again m = elim (Bool-cases (cls == d)) [
    | inl same ↦
        let hit : contains seen d ≡ true =
          subst (λ z. contains seen z ≡ true) ((string_eq.beq_iff cls d).0 same) again in
        ground (arith, hit)
    | inr other ↦ ground (arith, m, other)
  ]

  -- A class is visited, and its parents are queued.
  Explored-visited :
      (class cls : NamedNode) (seen queue queue' : List NamedNode)
      → (cls == class) ≡ false
      → ((n : NamedNode)
          → contains queue' n ≡ (
              contains queue n
              || contains
                  (contents s)
                  (quad (named_node cls) rdfs_sub_class_of (named_node_term n) g)))
      → Explored class seen (cls ∷ queue)
      → Explored class (cls ∷ seen) queue'
  Explored-visited class cls seen queue queue' other hq explored c m =
      elim (Bool-cases (cls == c)) [
        | inl same ↦
            let ec : cls ≡ c = (string_eq.beq_iff cls c).0 same in
            (
              λ eq. cc ((string_eq.beq_iff cls class).1 (ec ∙ eq), other),
              λ d parent.
                  let own =
                    subst
                      (λ z.
                        contains (contents s)
                          (quad (named_node z) rdfs_sub_class_of (named_node_term d) g)
                        ≡ true)
                      (sym ec) parent in
                  ground (arith, hq d, own),
            )
        | inr differs ↦
            let (ne, parents) = explored c (ground (arith, m, differs)) in
            (ne, λ d parent. ground (arith, hq d, parents d parent))
      ]

  search_lem :
      (class : NamedNode) (fuel : ℕ) (seen queue : List NamedNode)
      → Explored class seen queue
      → length queue + length (select (unseen seen) (contents s)) < fuel
      → (b : Bool) × (search db s g class fuel seen queue ≡ some (ok b))
        × (b ≡ true → (c : NamedNode) × (contains queue c ≡ true) × Reaches c class)
        × (b ≡ false → (c : NamedNode) → Open seen queue c → Reaches c class → ⊥)
  unfolding search
  search_lem class zero seen queue explored enough = let never : ⊥ = omega arith in elim never [ ]
  search_lem class (suc fuel) seen [] explored enough = (
    false,
    refl,
    λ h. cc,
    λ h c m r. Reaches-Explored class seen c class explored (ground (arith, m)) r refl,
  )
  search_lem class (suc fuel) seen (cls ∷ queue) explored enough =
      elim (Bool-cases (contains seen cls)) [
        | inl again ↦
            let (b, e, sound, complete) =
              search_lem class fuel seen queue
                (λ c m. (
                  (explored c m).0,
                  λ d parent. Open-visited seen queue cls d again ((explored c m).1 d parent),
                ))
                (omega arith) in
            (
              b,
              rw (again, search) e,
              λ h. let (c, m, r) = sound h in (c, ground (arith, m), r),
              λ h c m r. complete h c (Open-visited seen queue cls c again m) r,
            )
        | inr new ↦ elim (Bool-cases (cls == class)) [
          | inl same ↦ (
            true,
            rw (new, search) (rw same refl),
            λ h. (
              cls,
              ground (arith, string_eq.beq_iff cls cls),
              subst (Reaches cls) ((string_eq.beq_iff cls class).0 same) here,
            ),
            λ h. cc,
          )
          | inr other ↦
              let (queue', eq, le, hq) = push_parents_lem cls queue seen new in
              let grown = insert_new seen cls new in
              let (b, e, sound, complete) =
                search_lem class fuel (cls ∷ seen) queue'
                  (Explored-visited class cls seen queue queue' other hq explored) (omega arith) in
              (
                b,
                rw (new, search) (rw (other, eq, grown) e),
                λ h.
                    let (c, m, r) = sound h in
                    elim (Bool-cases (contains queue c)) [
                      | inl queued ↦ (c, ground (arith, queued), r)
                      | inr fresh ↦ (
                        cls,
                        ground (arith, string_eq.beq_iff cls cls),
                        up (ground (arith, hq c)) r,
                      )
                    ],
                λ h c m r. complete h c (ground (arith, m, hq c)) r,
              )
        ]
      ]

  -- With fuel for one more than twice the quads of the store, instance_of returns, without an error, true
  -- if some type of the value in the graph is the class or a subclass of it there, through any number
  -- of direct subclasses, and false otherwise.
  pub instance_of_lem :
      (fuel : ℕ) (value : Subject) (class : NamedNode)
      → size db law s + size db law s < fuel
      → (b : Bool) × (instance_of db s g fuel value class ≡ some (ok b))
        × ((b ≡ true) ↔ (
            (c : NamedNode) × (contains (contents s) (quad value rdf_type (named_node_term c) g)
              ≡ true)
            × Reaches c class))
  unfolding instance_of matches
  instance_of_lem fuel value class enough =
      let found = matching s (some value) (some rdf_type) none (some g) in
      let (types, e, le, h) = push_named_lem found [] in
      let few : length found ≤ size db law s =
        length-le_of_Within found (contents s) (matching_distinct s _ _ _ _)
          (λ q m. ground (arith, matching_law s (some value) (some rdf_type) none (some g) q)) in
      let all : length (select (unseen []) (contents s)) ≤ size db law s =
        length-select (unseen []) (contents s) in
      let typed : (c : NamedNode)
          → contains types c ≡ contains (contents s) (quad value rdf_type (named_node_term c) g) =
        λ c. h c ∙ contains-objects db law s value rdf_type g (named_node_term c) in
      let (b, es, sound, complete) = search_lem class fuel [] types (λ c m. cc) (omega arith) in
      (
        b,
        rw (pattern_law s (some value) (some rdf_type) none (some g)) (rw e es),
        (
          λ found_one. let (c, m, r) = sound found_one in (c, sym (typed c) ∙ m, r),
          λ (c, m, r). elim (Bool-cases b) [
            | inl found_one ↦ found_one
            | inr no_match ↦
                let in_types : contains types c ≡ true = typed c ∙ m in
                elim (complete no_match c (ground (arith, in_types)) r) [ ]
          ],
        ),
      )
