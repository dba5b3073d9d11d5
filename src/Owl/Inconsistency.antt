-- ===== src/Owl/Inconsistency.antt =====
-- The inconsistency rules of src/functions/rdf_owl_rl/inconsistency.rs: their records, and the helpers
-- that the detectors share.
pub mod Properties
pub mod Classes
pub mod Individuals
pub mod Datatypes
pub mod Reported
pub mod Found
pub mod Pairs
pub mod Different
pub mod Integers
mod Examples
use Prim.Native.String.{compare as compare_text}
use Prim.Native.Nat.{Ordering}
use sqlite_sparql.Prelude.{
  String, joined_text, ℕ, List, [], ◌∷◌, ◌++◌, Bool, insert, pair_eq, true, false, Option, none,
  some, ◌≡◌, ◌↔◌, ◌&&◌, ap, map, Eq, ◌==◌, string_eq, Result, ok, ◌>>=◌, HashMap, HashSet, get, put,
  or_default, group, and_iff, text_lt, sort, dedup, if◌then◌else◌, contains,
}
use sqlite_sparql.Rdf.{NamedNode, Subject, Term, GraphName}
use sqlite_sparql.Rdf.Equality.{subject_eq, term_eq}
use sqlite_sparql.Oxigraph.{QuadStore}
use sqlite_sparql.Rdf.Coercions.{term_to_subj}
use sqlite_sparql.Graphs.{rdf_type, pairs_for_predicate, for_graphs, graphs_to_query}
use sqlite_sparql.Prelude.Fuel
use sqlite_sparql.Prelude.Fuel.{Fueled}
use sqlite_sparql.Lists.{walk_list}

pub record ViolationRecord : Type 0 where
  pub rule : String
  pub s : String
  pub p : String
  pub o : String

abbrev pub record_of : String → String → String → String → ViolationRecord
record_of rule s p o = record { rule = rule; s = s; p = p; o = o }

abbrev pub violation_beq : ViolationRecord → ViolationRecord → Bool
violation_beq v w = v.rule == w.rule && v.s == w.s && v.p == w.p && v.o == w.o

pub violation_beq_iff : (v w : ViolationRecord) → (violation_beq v w ≡ true) ↔ (v ≡ w)
violation_beq_iff v w =
    let parts =
      and_iff (v.rule == w.rule && v.s == w.s && v.p == w.p) (v.o == w.o)
        (and_iff (v.rule == w.rule && v.s == w.s) (v.p == w.p)
          (and_iff (v.rule == w.rule) (v.s == w.s) (string_eq.beq_iff v.rule w.rule)
            (string_eq.beq_iff v.s w.s))
          (string_eq.beq_iff v.p w.p))
        (string_eq.beq_iff v.o w.o) in
    (
      λ h. let e = parts.0 h in cc (e.0.0.0, e.0.0.1, e.0.1, e.1),
      λ e. parts.1 (
        (
          (ap (λ (x : ViolationRecord). x.rule) e, ap (λ (x : ViolationRecord). x.s) e),
          ap (λ (x : ViolationRecord). x.p) e,
        ),
        ap (λ (x : ViolationRecord). x.o) e,
      ),
    )

instance abbrev pub violation_eq : Eq ViolationRecord
violation_eq = record { beq = violation_beq; beq_iff = violation_beq_iff }

-- `Ord`, derived: field by field
unfoldable pub compare_violations : ViolationRecord → ViolationRecord → Ordering
compare_violations v w = elim (compare_text v.rule w.rule) [
  | Ordering.lt ↦ Ordering.lt
  | Ordering.gt ↦ Ordering.gt
  | Ordering.eq ↦ elim (compare_text v.s w.s) [
    | Ordering.lt ↦ Ordering.lt
    | Ordering.gt ↦ Ordering.gt
    | Ordering.eq ↦ elim (compare_text v.p w.p) [
      | Ordering.lt ↦ Ordering.lt
      | Ordering.gt ↦ Ordering.gt
      | Ordering.eq ↦ compare_text v.o w.o
    ]
  ]
]

unfoldable pub sort_and_return : List ViolationRecord → List ViolationRecord
unfolding sort dedup compare_violations
sort_and_return v = dedup (sort compare_violations v)

-- `Display` of oxigraph's terms, which `nt_subject` and `nt_term` call
pub record Display : Type 0 where
  pub nt_subject : Subject → String
  pub nt_term : Term → String

unfoldable pub nt_named : NamedNode → String
nt_named p = joined_text "<" (joined_text p ">")

-- The smaller of two texts first; nothing if they are equal (`continue`).
unfoldable pub in_order {ℓ} : {A : Type ℓ} → (A → String) → A → A → Option (A × A)
unfolding text_lt
in_order text a b =
    if text_lt (text a) (text b)
    then some (a, b)
    else if text_lt (text b) (text a)
    then some (b, a)
    else none

module _ (db : QuadStore) (store : db.Store) where
  unfoldable pub type_pairs_index_by_class :
      GraphName → GraphName → Result (HashMap Term (HashSet Subject))
  type_pairs_index_by_class a i = do
    pairs ← pairs_for_predicate db store rdf_type a i
    ok (group (map (λ xc. (xc.1, xc.0)) pairs))

  unfoldable pub type_pairs_index_by_subject :
      GraphName → GraphName → Result (HashMap Subject (HashSet Term))
  type_pairs_index_by_subject a i = do
    pairs ← pairs_for_predicate db store rdf_type a i
    ok (group pairs)

  unfoldable pub collect_pairs :
      NamedNode → GraphName → GraphName → Result (HashSet (Subject × Term))
  unfolding for_graphs graphs_to_query
  collect_pairs p a i =
      for_graphs db store (λ out q. insert out (q.subject, q.object)) none (some p) none []
        (graphs_to_query a i)

-- `out.entry(s).or_default().push(t)` for each pair
unfoldable pub push_terms :
    HashMap Subject (List Term) → List (Subject × Term) → HashMap Subject (List Term)
push_terms m [] = m
push_terms m ((s, t) ∷ pairs) = push_terms (put m s (or_default (get m s) [] ++ t ∷ [])) pairs

unfoldable pub group_by_subject : List (Subject × Term) → HashMap Subject (List Term)
unfolding push_terms
group_by_subject pairs = push_terms [] pairs

-- `into_iter().collect()` into a map: of several values of a key, the last stays
unfoldable pub to_map : {V : Type 0} → HashMap Subject V → List (Subject × V) → HashMap Subject V
to_map m [] = m
to_map m ((s, v) ∷ pairs) = to_map (put m s v) pairs

-- `for (idx, x) in xs.iter().enumerate() { for y in xs.iter().skip(idx + 1) { … } }`
abbrev pub pairwise {ℓ} : {A : Type ℓ} → List A → List (A × A)
pairwise [] = []
pairwise (x ∷ xs) = map (λ y. (x, y)) xs ++ pairwise xs

-- a loop that extends a vector, with a body on fuel
unfoldable pub each_fueled : {A B : Type 0} → List A → (A → Fueled (List B)) → Fueled (List B)
each_fueled [] body = some (ok [])
each_fueled (x ∷ xs) body =
    Fuel.◌>>=◌ (body x) (λ out. Fuel.◌>>=◌ (each_fueled xs body) (λ rest. some (ok (out ++ rest))))

-- The three loops over the containers of a set, over the lists that head their members, and over what
-- a list yields. A list that is not well formed is skipped.
unfoldable pub in_lists :
    (db : QuadStore)
    → db.Store
    → ℕ
    → List GraphName
    → List Subject
    → HashMap Subject (List Term)
    → (List Term → Result (List ViolationRecord))
    → Fueled (List ViolationRecord)
unfolding each_fueled
in_lists db store fuel graphs containers heads_of body = each_fueled containers (λ z.
    each_fueled (or_default (get heads_of z) []) (λ head_term. elim (term_to_subj head_term) [
      | none ↦ some (ok [])
      | some head_subj ↦
          Fuel.◌>>=◌ (walk_list db store fuel head_subj graphs)
            (λ found. elim found [ none ↦ some (ok []) | some list ↦ some (body list) ])
    ]))
