-- ===== src/Owl/PropertyLists/Products.antt =====
-- The key tuples of prp-key in src/functions/rdf_owl_rl/rules.rs: cartesian_product gives exactly the
-- tuples that take one value from each set.
use sqlite_sparql.Prelude.{
  List, [], ◌∷◌, ◌++◌, ◌≡◌, ◌↔◌, ◌∙◌, refl, sym, ap, subst, inl, inr, true, false, List-cases, map,
  contains, contains-map_elim, contains-map_intro, contains-single, each, each_elim, each_intro,
  list_eq,
}
use sqlite_sparql.Rdf.{Term}
use sqlite_sparql.Rdf.Equality.{subject_eq, term_eq}
use sqlite_sparql.Owl.PropertyLists.{extend_all, cartesian_product}

-- one value from each of the sets
abbrev pub Picks : List (List Term) → List Term → Type 0
Picks [] [] = Unit
Picks [] (v ∷ vs) = ⊥
Picks (set ∷ sets) [] = ⊥
Picks (set ∷ sets) (v ∷ vs) = (contains set v ≡ true) × Picks sets vs

append_assoc :
    (xs : List Term) (v : Term) (vs : List Term) → ((xs ++ v ∷ []) ++ vs) ≡ (xs ++ v ∷ vs)
append_assoc [] v vs = refl
append_assoc (x ∷ xs) v vs = ap (λ l. x ∷ l) (append_assoc xs v vs)

append_nil : (xs : List Term) → (xs ++ []) ≡ xs
append_nil [] = refl
append_nil (x ∷ xs) = ap (λ l. x ∷ l) (append_nil xs)

-- the tuples of one round: each partial tuple with each value of the set at its end
abbrev extended : List (List Term) → List Term → List (List Term)
extended result set = each result (λ partial. map (λ t. partial ++ t ∷ []) set)

extended_elim :
    (result : List (List Term)) (set : List Term) (tup : List Term)
    → contains (extended result set) tup ≡ true
    → (partial : List Term) × (v : Term) × (contains result partial ≡ true)
      × (contains set v ≡ true)
      × (tup ≡ partial ++ v ∷ [])
extended_elim result set tup m =
    let (partial, mp, me) = each_elim (λ partial. map (λ t. partial ++ t ∷ []) set) result tup m in
    let (v, mv, ev) = contains-map_elim (λ t. partial ++ t ∷ []) set tup me in
    (partial, v, mp, mv, sym ev)

extended_intro :
    (result : List (List Term)) (set partial : List Term) (v : Term)
    → contains result partial ≡ true
    → contains set v ≡ true
    → contains (extended result set) (partial ++ v ∷ []) ≡ true
extended_intro result set partial v mp mv =
    each_intro (λ partial. map (λ t. partial ++ t ∷ []) set) result partial (partial ++ v ∷ []) mp
      (contains-map_intro (λ t. partial ++ t ∷ []) set v mv)

-- from no tuple, or with no value, there is none
extend_all_nil :
    (sets : List (List Term)) (tup : List Term) → contains (extend_all [] sets) tup ≡ false
unfolding extend_all
extend_all_nil [] tup = refl
extend_all_nil ([] ∷ sets) tup = refl
extend_all_nil ((v ∷ vs) ∷ sets) tup = extend_all_nil sets tup

extended_nil : (result : List (List Term)) → extended result [] ≡ []
extended_nil [] = refl
extended_nil (partial ∷ result) = extended_nil result

extend_all-cons :
    (result : List (List Term)) (set : List Term) (sets : List (List Term)) (tup : List Term)
    → (contains (extend_all result (set ∷ sets)) tup ≡ true)
      ↔ (contains (extend_all (extended result set) sets) tup ≡ true)
unfolding extend_all
extend_all-cons result (item ∷ items) sets tup = (λ m. m, λ m. m)
extend_all-cons result [] sets tup =
    (λ m. cc, λ m. cc (extend_all_nil sets tup, rw (extended_nil result) at m))

extend_all_lem :
    (sets : List (List Term)) (result : List (List Term)) (tup : List Term)
    → (contains (extend_all result sets) tup ≡ true) ↔ (
        (partial vs : List Term) × (contains result partial ≡ true)
        × (tup ≡ partial ++ vs)
        × Picks sets vs)
unfolding extend_all
extend_all_lem [] result tup = (
  λ m. (tup, [], m, sym (append_nil tup), tt),
  λ (partial, vs, m, et, picks). elim (List-cases vs) [
    | inl nil ↦
        subst (λ l. contains result l ≡ true)
          (sym (et ∙ ap (λ l. partial ++ l) nil ∙ append_nil partial)) m
    | inr (v, rest, ev) ↦ elim (subst (Picks []) ev picks) [ ]
  ],
)
extend_all_lem (set ∷ sets) result tup = (
  λ m.
      let (longer, vs, ml, et, picks) =
        (extend_all_lem sets (extended result set) tup).0
          ((extend_all-cons result set sets tup).0 m) in
      let (partial, v, mp, mv, el) = extended_elim result set longer ml in
      (partial, v ∷ vs, mp, et ∙ ap (λ l. l ++ vs) el ∙ append_assoc partial v vs, (mv, picks)),
  λ (partial, vs, m, et, picks). elim (List-cases vs) [
    | inl nil ↦ elim (subst (Picks (set ∷ sets)) nil picks) [ ]
    | inr (v, rest, ev) ↦
        let (mv, more) = subst (Picks (set ∷ sets)) ev picks in
        (extend_all-cons result set sets tup).1 (
          (extend_all_lem sets (extended result set) tup).1 (
            partial ++ v ∷ [],
            rest,
            extended_intro result set partial v m mv,
            et ∙ ap (λ l. partial ++ l) ev ∙ sym (append_assoc partial v rest),
            more,
          ))
  ],
)

-- The product has exactly the tuples that take one value from each set.
pub cartesian_product_lem :
    (sets : List (List Term)) (tup : List Term)
    → (contains (cartesian_product sets) tup ≡ true) ↔ Picks sets tup
unfolding cartesian_product
cartesian_product_lem sets tup = (
  λ m.
      let (partial, vs, mp, et, picks) = (extend_all_lem sets ([] ∷ []) tup).0 m in
      let nil = (contains-single [] partial).0 mp in
      subst (Picks sets) (sym (et ∙ ap (λ l. l ++ vs) (sym nil))) picks,
  λ picks.
      (extend_all_lem sets ([] ∷ []) tup).1
        ([], tup, (contains-single {A = List Term} [] []).1 refl, refl, picks),
)
