-- ===== src/Shacl/Path/FirstHop.antt =====
-- The first hop of `one_or_more` in src/functions/rdf_shacl_core/path.rs: what it visits and returns.
use sqlite_sparql.Prelude.{
  Bool_ext, contains-append, IsDistinct, List, [], ◌∷◌, ◌++◌, ◌≡◌, ◌∙◌, ◌||◌, refl, sym, ap, subst,
  inl, inr, arith, Bool, true, Bool-cases, Option-cases, none, contains, ◌==◌,
}
use sqlite_sparql.Rdf.{Subject, Term}
use sqlite_sparql.Rdf.Equality.{subject_eq, term_eq}
use sqlite_sparql.Rdf.Coercions.{
  subj_to_term, term_to_subj, term_to_subj_iff, subj_to_term-injective,
}
use sqlite_sparql.Shacl.Path.{Rounds, first_hop, absorb}
use sqlite_sparql.Shacl.Path.Absorbed.{absorb_lem}

-- the variables after the values that `seen` accepts
pub record IsHop (st : Rounds) (seen : Term → Bool) : Type 0 where
  pub visited_law : (y : Subject) → contains st.visited y ≡ seen (subj_to_term y)
  pub next_law : (y : Subject) → contains st.next y ≡ contains st.visited y
  pub out_law : (t : Term) → contains st.out t ≡ seen t
  pub distinct_law : IsDistinct st.visited

abbrev also : (Term → Bool) → Term → Term → Bool
also seen v t = seen t || v == t

IsHop-ext : (st : Rounds) (p q : Term → Bool) → ((t : Term) → p t ≡ q t) → IsHop st p → IsHop st q
IsHop-ext st p q e h = record {
  visited_law = λ y. h.visited_law y ∙ e (subj_to_term y);
  next_law = h.next_law;
  out_law = λ t. h.out_law t ∙ e t;
  distinct_law = h.distinct_law;
}

same_node :
    (s s' y : Subject)
    → subj_to_term s ≡ subj_to_term s'
    → (s == y) ≡ (subj_to_term s' == subj_to_term y)
same_node s s' y e =
    Bool_ext _ _
      (λ h. (term_eq.beq_iff _ _).1 (sym e ∙ ap subj_to_term ((subject_eq.beq_iff s y).0 h)))
      (λ h.
        (subject_eq.beq_iff s y).1 (
          subj_to_term-injective s y
            (e ∙ (term_eq.beq_iff (subj_to_term s') (subj_to_term y)).0 h)))

absorb-IsHop :
    (st : Rounds) (seen : Term → Bool) (s : Subject)
    → IsHop st seen
    → IsHop (absorb st (subj_to_term s)) (also seen (subj_to_term s))
absorb-IsHop st seen s h = elim (absorb_lem st (subj_to_term s)) [
  | inl (e, old) ↦
      subst (λ r. IsHop r (also seen (subj_to_term s))) (sym e)
        (IsHop-ext st seen _
          (λ t. elim (Bool-cases (subj_to_term s == t)) [
            | inl same ↦ ground (
              arith,
              subst (λ w. seen w ≡ true) ((term_eq.beq_iff (subj_to_term s) t).0 same)
                  (sym (h.visited_law s) ∙ old s refl),
              same,
            )
            | inr other ↦ ground (arith, other)
          ])
          h)
  | inr (s', ev, new, e) ↦
      let es : s ≡ s' = subj_to_term-injective s s' ev in
      subst (λ r. IsHop r (also seen (subj_to_term s))) (sym e)
        (record {
          visited_law = λ y. ground (arith, h.visited_law y, same_node s' s y (sym ev));
          next_law = λ y. ground (arith, h.next_law y, contains-append st.next (s' ∷ []) y);
          out_law =
              λ t. ground (arith, h.out_law t, contains-append st.out (subj_to_term s ∷ []) t);
          distinct_law = (new, h.distinct_law);
        })
]

literal-IsHop :
    (st : Rounds) (seen : Term → Bool) (v : Term)
    → term_to_subj v ≡ none
    → IsHop st seen
    → IsHop (record st { out = st.out ++ v ∷ [] }) (also seen v)
literal-IsHop st seen v l h = record {
  visited_law = λ y. elim (Bool-cases (v == subj_to_term y)) [
    | inl bad ↦ cc ((term_to_subj_iff v y).1 ((term_eq.beq_iff v (subj_to_term y)).0 bad), l)
    | inr other ↦ ground (arith, other, h.visited_law y)
  ];
  next_law = h.next_law;
  out_law = λ t. ground (arith, h.out_law t, contains-append st.out (v ∷ []) t);
  distinct_law = h.distinct_law;
}

pub first_hop-IsHop :
    (st : Rounds) (seen : Term → Bool) (vs : List Term)
    → IsHop st seen
    → IsHop (first_hop st vs) (λ t. seen t || contains vs t)
unfolding first_hop
first_hop-IsHop st seen [] h = IsHop-ext st seen _ (λ t. ground arith) h
first_hop-IsHop st seen (v ∷ vs) h = elim (Option-cases (term_to_subj v)) [
  | inl l ↦
      rw (l, first_hop)
        (IsHop-ext _ _ _ (λ t. ground arith)
          (first_hop-IsHop (record st { out = st.out ++ v ∷ [] }) (also seen v) vs
            (literal-IsHop st seen v l h)))
  | inr (s, e) ↦
      let ev = (term_to_subj_iff v s).0 e in
      rw (e, first_hop)
        (IsHop-ext _ _ _ (λ t. ground arith)
          (first_hop-IsHop (absorb st v) (also seen v) vs
            (subst (λ w. IsHop (absorb st w) (also seen w)) (sym ev) (absorb-IsHop st seen s h))))
]
