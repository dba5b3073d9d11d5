-- ===== src/Owl/ClassLists/Members.antt =====
-- What the rules of src/functions/rdf_owl_rl/rules.rs derive from the members of a class's list.
use sqlite_sparql.Prelude.{
  ℕ, ◌<◌, List, [], ◌∷◌, ◌≡◌, ◌≢◌, ◌↔◌, ◌∙◌, ◌&&◌, refl, sym, ap, subst, true, none, some, ok,
  HashMap, HashSet, get, contains, contains-select, contains-map_elim, contains-map_intro,
  contains-group, group, map, all, Bool, select, all_elim, all_intro, string_eq, pair_eq, list_eq,
  arith, or_default,
}
use sqlite_sparql.Rdf.{Subject, Term, Triple, mk_triple, GraphName}
use sqlite_sparql.Rdf.Equality.{subject_eq, term_eq, triple_eq, quad_eq, graph_name_eq}
use sqlite_sparql.Rdf.Coercions.{subj_to_term}
use sqlite_sparql.Oxigraph.{QuadStore, IsQuadSet}
use sqlite_sparql.Oxigraph.Sizes.{size}
use sqlite_sparql.Graphs.{rdf_type, graphs_to_query}
use sqlite_sparql.Graphs.Holds.{In, holds}
use sqlite_sparql.Graphs.Collected.{pairs_for_predicate_lem}
use sqlite_sparql.Owl.Vocabulary.{owl_intersection_of}
use sqlite_sparql.Owl.Rules.{if_some}
use sqlite_sparql.Owl.Inconsistency.{type_pairs_index_by_class}
use sqlite_sparql.Owl.ClassLists.{intersect_all, apply_cls_int1}
use sqlite_sparql.Owl.ClassLists.Collected.{
  Yields, Yields_iff, Yields-bind, Yields-each, Listed, collect_class_lists_lem,
}

-- the classes of the index that have the node among their instances, all of them
abbrev typed_by : HashMap Term (HashSet Subject) → Subject → Term → Bool
typed_by index x m = contains (or_default (get index m) []) x

intersect_all-some :
    (index : HashMap Term (HashSet Subject)) (members : List Term) (prev : HashSet Subject)
    → (set : HashSet Subject) × (intersect_all index (some prev) members ≡ some set)
      × ((x : Subject) → contains set x ≡ (contains prev x && all (typed_by index x) members))
unfolding intersect_all
intersect_all-some index [] prev = (prev, refl, λ x. ground arith)
intersect_all-some index (m ∷ members) prev =
    let inst = or_default (get index m) [] in
    let (set, e, h) = intersect_all-some index members (select (contains inst) prev) in
    (set, e, λ x. ground (arith, h x, contains-select (contains inst) prev x))

-- what cls-int1 emits for one class
abbrev intersected : HashMap Term (HashSet Subject) → Subject → List Term → List Triple
intersected index c members =
    if_some (intersect_all index none members)
      (λ set. map (λ x. mk_triple x rdf_type (subj_to_term c)) set)

intersected_lem :
    (index : HashMap Term (HashSet Subject)) (c : Subject) (members : List Term) (t : Triple)
    → (contains (intersected index c members) t ≡ true) ↔ (
        (x : Subject) × (members ≢ [])
        × ((m : Term) → contains members m ≡ true → typed_by index x m ≡ true)
        × (t ≡ mk_triple x rdf_type (subj_to_term c)))
unfolding intersect_all
intersected_lem index c [] t = (λ m. cc, λ (x, ne, rest, et). elim (ne refl) [ ])
intersected_lem index c (m ∷ members) t =
    let make : Subject → Triple = λ x. mk_triple x rdf_type (subj_to_term c) in
    let (set, e, h) = intersect_all-some index members (or_default (get index m) []) in
    let same = ap (λ o. contains (if_some o (λ set. map make set)) t) e in
    (
      λ found.
          let (x, mx, et) = contains-map_elim make set t (sym same ∙ found) in
          (
            x,
            λ nil. cc nil,
            λ k mk. all_elim (typed_by index x) (m ∷ members) k (sym (h x) ∙ mx) mk,
            sym et,
          ),
      λ (x, ne, every, et).
          same
          ∙ subst (λ (r : Triple). contains (map make set) r ≡ true) (sym et)
              (contains-map_intro make set x
                (h x ∙ all_intro (typed_by index x) (m ∷ members) every)),
    )

contains-swapped :
    (pairs : List (Subject × Term)) (x : Subject) (c : Term)
    → contains {A = Term × Subject} (map (λ (xc : Subject × Term). (xc.1, xc.0)) pairs) (c, x)
      ≡ contains {A = Subject × Term} pairs (x, c)
contains-swapped [] x c = refl
contains-swapped ((y, d) ∷ pairs) x c = ground (arith, contains-swapped pairs x c)

module _ (db : QuadStore) (law : IsQuadSet db) (s : db.Store) (fuel : ℕ) (a i : GraphName) where
  open law use {contents}

  -- the index by class returns, without an error, the instances of each class
  pub type_pairs_index_by_class_lem :
      (index : HashMap Term (HashSet Subject)) × (type_pairs_index_by_class db s a i ≡ ok index)
      × ((c : Term) (x : Subject)
          → typed_by index x c ≡ holds (contents s) (graphs_to_query a i) x rdf_type c)
  unfolding type_pairs_index_by_class
  type_pairs_index_by_class_lem =
      let (pairs, e, h) = pairs_for_predicate_lem db law s a i rdf_type in
      let swapped = map (λ (xc : Subject × Term). (xc.1, xc.0)) pairs in
      (
        group swapped,
        rw e refl,
        λ c x. contains-group swapped c x ∙ contains-swapped pairs x c ∙ h x c,
      )

  -- With fuel for one more than the quads of the store, apply_cls_int1 returns, without an error,
  -- exactly the triples that give a node the type of a class whose intersection is a list of at least
  -- one class, when the node has every class of that list as a type in the premise graphs.
  pub apply_cls_int1_lem :
      size db law s < fuel
      → Yields (apply_cls_int1 db s fuel a i) (λ t.
        (c h : Subject) × (members : List Term) × (x : Subject) × In db law s a i c
          owl_intersection_of
          (subj_to_term h)
        × Listed db law s fuel a i h members
        × (members ≢ [])
        × ((m : Term) → contains members m ≡ true → In db law s a i x rdf_type m)
        × (t ≡ mk_triple x rdf_type (subj_to_term c)))
  unfolding apply_cls_int1
  apply_cls_int1_lem enough =
      let (lists, el, hl) = collect_class_lists_lem db law s fuel a i owl_intersection_of enough in
      let (index, ei, hi) = type_pairs_index_by_class_lem in
      Yields-bind _ _ _ lists el (
        Yields-bind _ _ _ index (ap some ei) (
          Yields_iff _
            (λ t. (
              λ ((c, ms), m, (x, ne, every, et)).
                  let (h, hin, l) = (hl (c, ms)).0 m in
                  (c, h, ms, x, hin, l, ne, λ k mk. sym (hi k x) ∙ every k mk, et),
              λ (c, h, ms, x, hin, l, ne, every, et).
                  ((c, ms), (hl (c, ms)).1 (h, hin, l), (x, ne, λ k mk. hi k x ∙ every k mk, et)),
            ))
            (Yields-each _ _ lists (λ cm t. intersected_lem index cm.0 cm.1 t))))
