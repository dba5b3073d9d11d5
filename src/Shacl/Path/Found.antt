-- ===== src/Shacl/Path/Found.antt =====
-- What the evaluator of src/functions/rdf_shacl_core/path.rs walks along, as a relation between a
-- focus node and a value.
use sqlite_sparql.Prelude.{
  ◌+◌, ◌≤◌, length, contains-append, List, [], ◌∷◌, ◌++◌, ◌≡◌, ◌⊎◌, ◌∙◌, refl, sym, ap, subst, inl,
  inr, arith, true, Bool-cases, Option-cases, map, contains, ◌==◌, contains-map_intro,
}
use sqlite_sparql.Rdf.{Subject, Term, GraphName, Quad}
use sqlite_sparql.Rdf.Equality.{quad_eq, subject_eq, term_eq}
use sqlite_sparql.Rdf.Coercions.{
  subj_to_term, term_to_subj, term_to_subj_iff, subj_to_term-injective,
}
use sqlite_sparql.Graphs.Holds.{quad}
use sqlite_sparql.Shacl.Path.{
  PropertyPath, predicate, inverse, sequence, alternative, zero_or_more, one_or_more, zero_or_one,
  Paths, no_more, part, nodes_among,
}

-- the reflexive and transitive closure
pub data Star {A : Type 0} (R : A → A → Type 0) (x : A) : A → Type 0 where
  here : Star R x x
  next : {y z : A} → Star R x y → R y z → Star R x z

pub Star-closed :
    {A : Type 0} {R : A → A → Type 0} (P : A → Type 0) {x y : A}
    → ((a b : A) → P a → R a b → P b)
    → P x
    → Star R x y
    → P y
Star-closed P more px here = px
Star-closed P more px (next {y} {z} s r) = more y z (Star-closed P more px s) r

module _ (contents : List Quad) (graph : GraphName) where
  unfoldable mutual
    pub Found : PropertyPath → Subject → Term → Type 0
    Found (predicate p) x t = contains contents (quad x p t graph) ≡ true
    Found (inverse (predicate p)) x t =
        (y : Subject) × (t ≡ subj_to_term y)
        × (contains contents (quad y p (subj_to_term x) graph) ≡ true)
    Found (inverse (inverse inner)) x t = Found inner x t
    Found (inverse other) x t = ⊥
    Found (sequence parts) x t = FoundAlong parts x t
    Found (alternative parts) x t = FoundIn parts x t
    Found (zero_or_more inner) x t =
        (y : Subject) × (t ≡ subj_to_term y) × Star (λ a b. Found inner a (subj_to_term b)) x y
    Found (one_or_more inner) x t =
        Found inner x t
        ⊎ ((y z : Subject) × (t ≡ subj_to_term z)
            × Found inner x (subj_to_term y)
            × Star (λ a b. Found inner a (subj_to_term b)) y z)
    Found (zero_or_one inner) x t = (t ≡ subj_to_term x) ⊎ Found inner x t

    pub FoundAlong : Paths → Subject → Term → Type 0
    FoundAlong no_more x t = t ≡ subj_to_term x
    FoundAlong (part p no_more) x t = Found p x t
    FoundAlong (part p (part q parts)) x t =
        (y : Subject) × Found p x (subj_to_term y) × FoundAlong (part q parts) y t

    pub FoundIn : Paths → Subject → Term → Type 0
    FoundIn no_more x t = ⊥
    FoundIn (part p parts) x t = Found p x t ⊎ FoundIn parts x t

  -- the list has the node at both ends of every quad of the graph
  pub record Spans (bound : List Subject) : Type 0 where
    pub subjects : (q : Quad) → contains contents q ≡ true → contains bound q.subject ≡ true
    pub objects :
        (q : Quad) (y : Subject)
        → contains contents q ≡ true
        → q.object ≡ subj_to_term y
        → contains bound y ≡ true

  module _ (bound : List Subject) (spans : Spans bound) where
    open spans use {subjects, objects}

    -- A path that starts in the list stays in it.
    mutual
      unfolding Found

      pub Found-stays :
          (p : PropertyPath) (x y : Subject)
          → contains bound x ≡ true
          → Found p x (subj_to_term y)
          → contains bound y ≡ true
      Found-stays (predicate p) x y mx h = objects _ y h refl
      Found-stays (inverse (predicate p)) x y mx (z, e, h) =
          subst (λ w. contains bound w ≡ true) (sym (subj_to_term-injective y z e)) (subjects _ h)
      Found-stays (inverse (inverse inner)) x y mx h = Found-stays inner x y mx h
      Found-stays (inverse other) x y mx h = absurd h
      Found-stays (sequence parts) x y mx h = FoundAlong-stays parts x y mx h
      Found-stays (alternative parts) x y mx h = FoundIn-stays parts x y mx h
      Found-stays (zero_or_more inner) x y mx (z, e, s) =
          subst (λ w. contains bound w ≡ true) (sym (subj_to_term-injective y z e))
            (Star-closed (λ a. contains bound a ≡ true) (λ a b ma r. Found-stays inner a b ma r) mx
              s)
      Found-stays (one_or_more inner) x y mx (inl h) = Found-stays inner x y mx h
      Found-stays (one_or_more inner) x y mx (inr (u, z, e, h, s)) =
          subst (λ w. contains bound w ≡ true) (sym (subj_to_term-injective y z e))
            (Star-closed (λ a. contains bound a ≡ true) (λ a b ma r. Found-stays inner a b ma r)
              (Found-stays inner x u mx h) s)
      Found-stays (zero_or_one inner) x y mx (inl e) =
          subst (λ w. contains bound w ≡ true) (sym (subj_to_term-injective y x e)) mx
      Found-stays (zero_or_one inner) x y mx (inr h) = Found-stays inner x y mx h

      FoundAlong-stays :
          (parts : Paths) (x y : Subject)
          → contains bound x ≡ true
          → FoundAlong parts x (subj_to_term y)
          → contains bound y ≡ true
      FoundAlong-stays no_more x y mx e =
          subst (λ w. contains bound w ≡ true) (sym (subj_to_term-injective y x e)) mx
      FoundAlong-stays (part p no_more) x y mx h = Found-stays p x y mx h
      FoundAlong-stays (part p (part q parts)) x y mx (z, h, k) =
          FoundAlong-stays (part q parts) z y (Found-stays p x z mx h) k

      FoundIn-stays :
          (parts : Paths) (x y : Subject)
          → contains bound x ≡ true
          → FoundIn parts x (subj_to_term y)
          → contains bound y ≡ true
      FoundIn-stays no_more x y mx h = absurd h
      FoundIn-stays (part p parts) x y mx (inl h) = Found-stays p x y mx h
      FoundIn-stays (part p parts) x y mx (inr h) = FoundIn-stays parts x y mx h

pub contains-nodes_among :
    (vs : List Term) (y : Subject) → contains (nodes_among vs) y ≡ contains vs (subj_to_term y)
unfolding nodes_among
contains-nodes_among [] y = refl
contains-nodes_among (v ∷ vs) y = elim (Option-cases (term_to_subj v)) [
  | inl literal ↦ elim (Bool-cases (v == subj_to_term y)) [
    | inl same ↦
        cc ((term_to_subj_iff v y).1 ((term_eq.beq_iff v (subj_to_term y)).0 same), literal)
    | inr other ↦ ground (arith, literal, other, contains-nodes_among vs y)
  ]
  | inr (s, e) ↦
      let ev = (term_to_subj_iff v s).0 e in
      elim (Bool-cases (s == y)) [
        | inl same ↦
            let h : v ≡ subj_to_term y = ev ∙ ap subj_to_term ((subject_eq.beq_iff s y).0 same) in
            ground (arith, e, same, (term_eq.beq_iff v (subj_to_term y)).1 h)
        | inr other ↦ elim (Bool-cases (v == subj_to_term y)) [
          | inl bad ↦
              let h =
                subj_to_term-injective s y (sym ev ∙ (term_eq.beq_iff v (subj_to_term y)).0 bad) in
              cc ((subject_eq.beq_iff s y).1 h, other)
          | inr differs ↦ ground (arith, e, other, differs, contains-nodes_among vs y)
        ]
      ]
]

-- the nodes of a list of quads
abbrev pub nodes : List Quad → List Subject
nodes qs = map (λ q. q.subject) qs ++ nodes_among (map (λ q. q.object) qs)

length-append {ℓ} : {A : Type ℓ} (xs ys : List A) → length (xs ++ ys) ≡ length xs + length ys
length-append [] ys = omega arith
length-append (x ∷ xs) ys = omega (arith, length-append xs ys)

length-map {ℓ κ} :
    {A : Type ℓ} {B : Type κ} (f : A → B) (xs : List A) → length (map f xs) ≡ length xs
length-map f [] = refl
length-map f (x ∷ xs) = omega (arith, length-map f xs)

length-nodes_among : (vs : List Term) → length (nodes_among vs) ≤ length vs
unfolding nodes_among
length-nodes_among [] = omega arith
length-nodes_among (v ∷ vs) = ground (arith, length-nodes_among vs)

pub length-nodes : (qs : List Quad) → length (nodes qs) ≤ length qs + length qs
length-nodes qs = omega (
  arith,
  length-append (map (λ (q : Quad). q.subject) qs) (nodes_among (map (λ (q : Quad). q.object) qs)),
  length-map (λ (q : Quad). q.subject) qs,
  length-map (λ (q : Quad). q.object) qs,
  length-nodes_among (map (λ (q : Quad). q.object) qs),
)

pub nodes-Spans : (qs : List Quad) (graph : GraphName) (x : Subject) → Spans qs graph (x ∷ nodes qs)
nodes-Spans qs graph x = record {
  subjects = λ q m. ground (
    arith,
    contains-append (map (λ q. q.subject) qs) (nodes_among (map (λ q. q.object) qs)) q.subject,
    contains-map_intro (λ (q : Quad). q.subject) qs q m,
  );
  objects = λ q y m e. ground (
    arith,
    contains-append (map (λ q. q.subject) qs) (nodes_among (map (λ q. q.object) qs)) y,
    contains-nodes_among (map (λ q. q.object) qs) y,
    subst (λ w. contains (map (λ q. q.object) qs) w ≡ true) e
        (contains-map_intro (λ (q : Quad). q.object) qs q m),
  );
}
