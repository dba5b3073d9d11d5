-- ===== src/Owl/PropertyLists/Tuples.antt =====
-- The tuples of key values in prp-key of src/functions/rdf_owl_rl/rules.rs, and the nodes that share one.
use sqlite_sparql.Prelude.{
  suc, ltb, length, List, [], ◌∷◌, ◌++◌, ◌≡◌, ◌≢◌, ◌↔◌, ◌∙◌, refl, sym, ap, subst, inl, inr, true,
  false, Option-cases, List-cases, none, some, map, HashMap, HashSet, get, put, or_default,
  contains, contains-map_elim, contains-map_intro, each, each_elim, each_intro, each_entries_elim,
  each_entries_intro, HasDistinctKeys, put-HasDistinctKeys, Eq, list_eq, pair_eq, string_eq, arith,
}
use sqlite_sparql.Rdf.{Subject, Term, Triple, mk_triple}
use sqlite_sparql.Rdf.Equality.{subject_eq, term_eq, triple_eq, quad_eq, graph_name_eq}
use sqlite_sparql.Rdf.Coercions.{subj_to_term}
use sqlite_sparql.Owl.Vocabulary.{owl_same_as}
use sqlite_sparql.Owl.Rules.{if_some}
use sqlite_sparql.Owl.Restrictions.{push_values}
use sqlite_sparql.Owl.Inconsistency.{pairwise}
use sqlite_sparql.Owl.Merging.{same_subjects}
use sqlite_sparql.Owl.Merging.Merged.{merged_lem}
use sqlite_sparql.Owl.PropertyLists.{cartesian_product, value_sets, by_tuple, merge_bucket}
use sqlite_sparql.Owl.PropertyLists.Pushed.{contains-push_values}
use sqlite_sparql.Owl.PropertyLists.Products.{Picks, cartesian_product_lem}

-- the node has each value of the tuple in the map beside it
abbrev pub Carries : List (HashMap Subject (HashSet Term)) → Subject → List Term → Type 0
Carries [] x [] = Unit
Carries [] x (v ∷ vs) = ⊥
Carries (vp ∷ vps) x [] = ⊥
Carries (vp ∷ vps) x (v ∷ vs) = (contains (or_default (get vp x) []) v ≡ true) × Carries vps x vs

Carries-none :
    (vps : List (HashMap Subject (HashSet Term))) (x : Subject) (tup : List Term)
    → value_sets vps x ≡ none
    → Carries vps x tup
    → ⊥
unfolding value_sets
Carries-none [] x tup h c = cc
Carries-none (vp ∷ vps) x [] h c = c
Carries-none (vp ∷ vps) x (v ∷ vs) h (m, more) = elim (List-cases (or_default (get vp x) [])) [
  | inl nil ↦ cc (subst (λ l. contains l v ≡ true) nil m)
  | inr (t, ts, es) ↦ elim (Option-cases (value_sets vps x)) [
    | inl nothing ↦ Carries-none vps x vs nothing more
    | inr (sets, found) ↦ cc (rw (es, value_sets, found) at h)
  ]
]

Picks-Carries :
    (vps : List (HashMap Subject (HashSet Term))) (x : Subject) (tup : List Term)
    (sets : List (List Term))
    → value_sets vps x ≡ some sets
    → Picks sets tup ↔ Carries vps x tup
unfolding value_sets
Picks-Carries [] x tup sets h =
    let e : [] ≡ sets = cc h in subst (λ l. Picks l tup ↔ Carries [] x tup) e (nothing tup)
  where
    nothing : (tup : List Term) → Picks [] tup ↔ Carries [] x tup
    nothing [] = (λ p. tt, λ c. tt)
    nothing (v ∷ vs) = (λ p. p, λ c. c)
Picks-Carries (vp ∷ vps) x tup sets h = elim (List-cases (or_default (get vp x) [])) [
  | inl nil ↦ cc (rw (nil, value_sets) at h)
  | inr (t, ts, es) ↦ elim (Option-cases (value_sets vps x)) [
    | inl nothing ↦ cc (rw (es, value_sets, nothing) at h)
    | inr (more, found) ↦
        let whole : ((t ∷ ts) ∷ more) ≡ sets = cc (rw (es, value_sets, found) at h) in
        subst (λ l. Picks l tup ↔ Carries (vp ∷ vps) x tup) whole
          (subst (λ l. Picks (l ∷ more) tup ↔ Carries (vp ∷ vps) x tup) es
            (step tup more (λ vs. Picks-Carries vps x vs more found)))
  ]
]
  where
    step :
        (tup : List Term) (more : List (List Term))
        → ((vs : List Term) → Picks more vs ↔ Carries vps x vs)
        → Picks (or_default (get vp x) [] ∷ more) tup ↔ Carries (vp ∷ vps) x tup
    step [] more rest = (λ p. p, λ c. c)
    step (v ∷ vs) more rest = (λ (m, p). (m, (rest vs).0 p), λ (m, c). (m, (rest vs).1 c))

-- what an instance puts into the buckets
abbrev tuples_of : List (HashMap Subject (HashSet Term)) → Subject → List (List Term × Subject)
tuples_of vps inst =
    if_some (value_sets vps inst) (λ sets. map (λ tup. (tup, inst)) (cartesian_product sets))

tuples_of_lem :
    (vps : List (HashMap Subject (HashSet Term))) (inst x : Subject) (tup : List Term)
    → (contains (tuples_of vps inst) (tup, x) ≡ true) ↔ ((inst ≡ x) × Carries vps x tup)
tuples_of_lem vps inst x tup =
    let start : List Term → List Term × Subject = λ l. (l, inst) in
    elim (Option-cases (value_sets vps inst)) [
      | inl nothing ↦ rw nothing (
        λ m. cc,
        λ (e, c).
            elim (Carries-none vps inst tup nothing (subst (λ y. Carries vps y tup) (sym e) c)) [ ],
      )
      | inr (sets, found) ↦ rw found (
        λ m.
            let (l, ml, el) = contains-map_elim start (cartesian_product sets) (tup, x) m in
            let e : inst ≡ x = ap (λ (p : List Term × Subject). p.1) el in
            let picks = (cartesian_product_lem sets tup).0 (
              subst (λ k. contains (cartesian_product sets) k ≡ true)
                (ap (λ (p : List Term × Subject). p.0) el) ml) in
            (e, subst (λ y. Carries vps y tup) e ((Picks-Carries vps inst tup sets found).0 picks)),
        λ (e, c).
            subst (λ y. contains (map start (cartesian_product sets)) (tup, y) ≡ true) e
              (contains-map_intro start (cartesian_product sets) tup (
                (cartesian_product_lem sets tup).1 (
                  (Picks-Carries vps inst tup sets found).1
                    (subst (λ y. Carries vps y tup) (sym e) c)))),
      )
    ]

merge_bucket_lem :
    (bucket : List Subject) → merge_bucket bucket ≡ each (pairwise bucket) same_subjects
merge_bucket_lem [] = refl
merge_bucket_lem (x ∷ []) = refl
merge_bucket_lem (x ∷ y ∷ more) =
    let two : ltb (suc (suc (length more))) 2 ≡ false = ground arith in rw two refl

push_values-HasDistinctKeys :
    {K V : Type 0} ⦃e : Eq K⦄ (pairs : List (K × V)) (m : HashMap K (List V))
    → HasDistinctKeys m
    → HasDistinctKeys (push_values m pairs)
unfolding push_values
push_values-HasDistinctKeys [] m d = d
push_values-HasDistinctKeys ((k, v) ∷ pairs) m d =
    push_values-HasDistinctKeys pairs (put m k (or_default (get m k) [] ++ v ∷ []))
      (put-HasDistinctKeys m k (or_default (get m k) [] ++ v ∷ []) d)

-- Over the buckets of the key tuples, every two different instances that carry one tuple are merged.
pub merged_tuples_lem :
    (vps : List (HashMap Subject (HashSet Term))) (insts : HashSet Subject) (t : Triple)
    → (contains (each (by_tuple vps insts) (λ (ts : List Term × List Subject). merge_bucket ts.1)) t
        ≡ true)
      ↔ ((x y : Subject) × (tup : List Term) × (contains insts x ≡ true)
          × (contains insts y ≡ true)
          × Carries vps x tup
          × Carries vps y tup
          × (x ≢ y)
          × (t ≡ mk_triple x owl_same_as (subj_to_term y)))
unfolding get
merged_tuples_lem vps insts t =
    let pairs = each insts (tuples_of vps) in
    let body : List Term × List Subject → List Triple = λ ts. merge_bucket ts.1 in
    let in_bucket : (tup : List Term) (x : Subject)
        → contains (or_default (get (by_tuple vps insts) tup) []) x ≡ contains pairs (tup, x) =
      λ tup x. contains-push_values pairs [] tup x in
    let member : (tup : List Term) (x : Subject)
        → (contains pairs (tup, x) ≡ true) ↔ ((contains insts x ≡ true) × Carries vps x tup) =
      λ tup x. (
        λ m.
            let (inst, mi, mt) = each_elim (tuples_of vps) insts (tup, x) m in
            let (e, c) = (tuples_of_lem vps inst x tup).0 mt in
            (subst (λ y. contains insts y ≡ true) e mi, c),
        λ (mi, c).
            each_intro (tuples_of vps) insts x (tup, x) mi
              ((tuples_of_lem vps x x tup).1 (refl, c)),
      ) in
    (
      λ m.
          let (tup, bucket, g, mb) =
            each_entries_elim body (by_tuple vps insts) t (push_values-HasDistinctKeys pairs [] tt)
              m in
          let (x, y, mx, my, ne, et) =
            (merged_lem bucket t).0
              (subst (λ l. contains l t ≡ true) (merge_bucket_lem bucket) mb) in
          let here : (z : Subject)
              → contains bucket z ≡ true
              → (contains insts z ≡ true) × Carries vps z tup =
            λ z mz. (member tup z).0 (
              sym (in_bucket tup z)
              ∙ subst (λ o. contains (or_default o []) z ≡ true) (sym g) mz) in
          (x, y, tup, (here x mx).0, (here y my).0, (here x mx).1, (here y my).1, ne, et),
      λ (x, y, tup, mx, my, cx, cy, ne, et). elim (Option-cases (get (by_tuple vps insts) tup)) [
        | inl nothing ↦ cc (
            subst (λ o. contains (or_default o []) x ≡ true) nothing
              (in_bucket tup x ∙ (member tup x).1 (mx, cx)))
        | inr (bucket, g) ↦
            let here : (z : Subject)
                → contains insts z ≡ true
                → Carries vps z tup
                → contains bucket z ≡ true =
              λ z mz cz.
                subst (λ o. contains (or_default o []) z ≡ true) g
                  (in_bucket tup z ∙ (member tup z).1 (mz, cz)) in
            each_entries_intro body (by_tuple vps insts) t tup bucket g (
              subst (λ l. contains l t ≡ true) (sym (merge_bucket_lem bucket))
                ((merged_lem bucket t).1 (x, y, here x mx cx, here y my cy, ne, et)))
      ],
    )
