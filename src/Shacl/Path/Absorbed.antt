-- ===== src/Shacl/Path/Absorbed.antt =====
-- What a round of a closure in src/functions/rdf_shacl_core/path.rs adds to its variables.
use sqlite_sparql.Prelude.{
  ◌+◌, length, IsDistinct, insert, List, [], ◌∷◌, ◌++◌, ◌≡◌, ◌⊎◌, ◌∙◌, ◌||◌, ◌&&◌, not, refl, sym,
  ap, subst, inl, inr, arith, true, false, Bool-cases, Option-cases, map, contains, ◌==◌,
}
use sqlite_sparql.Rdf.{Subject, Term}
use sqlite_sparql.Rdf.Equality.{subject_eq, term_eq}
use sqlite_sparql.Rdf.Coercions.{
  subj_to_term, term_to_subj, term_to_subj_iff, subj_to_term-injective,
}
use sqlite_sparql.Shacl.Path.{Rounds, absorb, absorb_all}

pub append_assoc {ℓ} : {A : Type ℓ} (xs ys zs : List A) → ((xs ++ ys) ++ zs) ≡ (xs ++ (ys ++ zs))
append_assoc [] ys zs = refl
append_assoc (x ∷ xs) ys zs = ap (λ l. x ∷ l) (append_assoc xs ys zs)

append-nil {ℓ} : {A : Type ℓ} (xs : List A) → (xs ++ []) ≡ xs
append-nil [] = refl
append-nil (x ∷ xs) = ap (λ l. x ∷ l) (append-nil xs)

pub map-append {ℓ κ} :
    {A : Type ℓ} {B : Type κ} (f : A → B) (xs ys : List A) → map f (xs ++ ys) ≡ map f xs ++ map f ys
map-append f [] ys = refl
map-append f (x ∷ xs) ys = ap (λ l. f x ∷ l) (map-append f xs ys)

-- what reading values adds to the variables of the loop: the nodes among them that are new
pub record Absorbs (st : Rounds) (vs : List Term) (st' : Rounds) : Type 0 where
  pub pushed : List Subject
  pub next_law : st'.next ≡ st.next ++ pushed
  pub out_law : st'.out ≡ st.out ++ map subj_to_term pushed
  pub visited_law :
      (y : Subject) → contains st'.visited y ≡ (contains st.visited y || contains pushed y)
  pub pushed_law :
      (y : Subject)
      → contains pushed y ≡ (contains vs (subj_to_term y) && not (contains st.visited y))
  pub distinct_law : IsDistinct st.visited → IsDistinct st'.visited
  pub length_law : length st'.visited ≡ length st.visited + length pushed

abbrev pub pushed_onto : Rounds → Subject → Term → Rounds
pushed_onto st s v = record {
  visited = s ∷ st.visited;
  next = st.next ++ s ∷ [];
  out = st.out ++ v ∷ [];
}

-- one value: a literal or a node that is visited already changes nothing
pub absorb_lem :
    (st : Rounds) (v : Term)
    → ((absorb st v ≡ st) × ((y : Subject) → subj_to_term y ≡ v → contains st.visited y ≡ true))
      ⊎ ((s : Subject) × (v ≡ subj_to_term s)
          × (contains st.visited s ≡ false)
          × (absorb st v ≡ pushed_onto st s v))
unfolding absorb insert
absorb_lem st v = elim (Option-cases (term_to_subj v)) [
  | inl literal ↦
      inl (rw (literal, absorb) refl, λ y e. cc ((term_to_subj_iff v y).1 (sym e), literal))
  | inr (s, e) ↦ elim (Bool-cases (contains st.visited s)) [
    | inl old ↦ inl (
      rw (e, absorb) (rw old refl),
      λ y ey.
          let same : y ≡ s = cc ((term_to_subj_iff v y).1 (sym ey), e) in
          subst (λ z. contains st.visited z ≡ true) (sym same) old,
    )
    | inr new ↦ inr (s, (term_to_subj_iff v s).0 e, new, rw (e, absorb) (rw new refl))
  ]
]

skip-Absorbs :
    (st : Rounds) (v : Term) (vs : List Term) (st' : Rounds)
    → ((y : Subject) → subj_to_term y ≡ v → contains st.visited y ≡ true)
    → Absorbs st vs st'
    → Absorbs st (v ∷ vs) st'
skip-Absorbs st v vs st' old b = record {
  pushed = b.pushed;
  next_law = b.next_law;
  out_law = b.out_law;
  visited_law = b.visited_law;
  pushed_law = λ y. elim (Bool-cases (v == subj_to_term y)) [
    | inl same ↦
        ground
          (arith, b.pushed_law y, old y (sym ((term_eq.beq_iff v (subj_to_term y)).0 same)), same)
    | inr other ↦ ground (arith, b.pushed_law y)
  ];
  distinct_law = b.distinct_law;
  length_law = b.length_law;
}

push-Absorbs :
    (st : Rounds) (s : Subject) (vs : List Term) (st' : Rounds)
    → contains st.visited s ≡ false
    → Absorbs (pushed_onto st s (subj_to_term s)) vs st'
    → Absorbs st (subj_to_term s ∷ vs) st'
push-Absorbs st s vs st' new b = record {
  pushed = s ∷ b.pushed;
  next_law = b.next_law ∙ append_assoc st.next (s ∷ []) b.pushed;
  out_law = b.out_law ∙ append_assoc st.out (subj_to_term s ∷ []) (map subj_to_term b.pushed);
  visited_law = λ y. ground (arith, b.visited_law y);
  pushed_law = λ y. elim (Bool-cases (s == y)) [
    | inl same ↦
        let e = (subject_eq.beq_iff s y).0 same in
        ground (
          arith,
          b.pushed_law y,
          subst (λ z. contains st.visited z ≡ false) e new,
          (term_eq.beq_iff (subj_to_term s) (subj_to_term y)).1 (ap subj_to_term e),
          same,
        )
    | inr other ↦ elim (Bool-cases (subj_to_term s == subj_to_term y)) [
      | inl bad ↦
          let e = subj_to_term-injective s y ((term_eq.beq_iff _ _).0 bad) in
          cc ((subject_eq.beq_iff s y).1 e, other)
      | inr differs ↦ ground (arith, b.pushed_law y, differs, other)
    ]
  ];
  distinct_law = λ d. b.distinct_law (new, d);
  length_law = omega (arith, b.length_law);
}

absorb-Absorbs :
    (st : Rounds) (v : Term) (vs : List Term) (st' : Rounds)
    → Absorbs (absorb st v) vs st'
    → Absorbs st (v ∷ vs) st'
absorb-Absorbs st v vs st' a = elim (absorb_lem st v) [
  | inl (e, old) ↦ skip-Absorbs st v vs st' old (subst (λ r. Absorbs r vs st') e a)
  | inr (s, ev, new, e) ↦
      subst (λ w. Absorbs st (w ∷ vs) st') (sym ev)
        (push-Absorbs st s vs st' new
          (subst (λ w. Absorbs (pushed_onto st s w) vs st') ev (subst (λ r. Absorbs r vs st') e a)))
]

pub absorb_all-Absorbs : (st : Rounds) (vs : List Term) → Absorbs st vs (absorb_all st vs)
unfolding absorb_all
absorb_all-Absorbs st [] = record {
  pushed = [];
  next_law = sym (append-nil st.next);
  out_law = sym (append-nil st.out);
  visited_law = λ y. ground arith;
  pushed_law = λ y. refl;
  distinct_law = λ d. d;
  length_law = omega arith;
}
absorb_all-Absorbs st (v ∷ vs) = absorb-Absorbs st v vs _ (absorb_all-Absorbs (absorb st v) vs)

pub absorb_all-append :
    (st : Rounds) (us vs : List Term) → absorb_all st (us ++ vs) ≡ absorb_all (absorb_all st us) vs
unfolding absorb_all
absorb_all-append st [] vs = refl
absorb_all-append st (u ∷ us) vs = absorb_all-append (absorb st u) us vs
