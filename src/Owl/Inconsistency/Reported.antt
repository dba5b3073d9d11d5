-- ===== src/Owl/Inconsistency/Reported.antt =====
-- Lemmas on the loops that the detectors of src/functions/rdf_owl_rl/inconsistency.rs share.
use sqlite_sparql.Prelude.{
  List, [], ◌∷◌, ◌≡◌, ◌↔◌, ◌⊎◌, ◌∙◌, ◌&&◌, refl, sym, subst, inl, inr, arith, String, Bool, true,
  false, Bool-cases, none, some, Result, ok, ◌>>=◌, string_eq, pair_eq, contains, Derives, sort,
  contains-sort, contains-dedup, text_lt_irrefl, ◌≢◌, text_lt, text_eq_of_not_lt, if◌then◌else◌,
  each_entries_elim, each_entries_intro, group, group-HasDistinctKeys, group-entry, group-has_entry,
  HashSet,
}
use sqlite_sparql.Rdf.{Subject, Term}
use sqlite_sparql.Rdf.Equality.{subject_eq, term_eq, quad_eq, graph_name_eq}
use sqlite_sparql.Oxigraph.{QuadStore}
use sqlite_sparql.Graphs.{rdf_type}
use sqlite_sparql.Owl.Inconsistency.{
  ViolationRecord, record_of, violation_eq, compare_violations, sort_and_return, Display, nt_named,
  in_order,
}
use sqlite_sparql.Owl.Inconsistency.Classes.{typed_as_both}

pub Derives-sorted {ℓ} :
    (r : Result (List ViolationRecord)) (P : ViolationRecord → Type ℓ)
    → Derives r P
    → Derives (r >>= λ out. ok (sort_and_return out)) P
unfolding sort_and_return
Derives-sorted r P (out, e, h) =
    let same = λ (v : ViolationRecord).
      contains-dedup (sort compare_violations out) v ∙ contains-sort compare_violations out v in
    (
      sort_and_return out,
      rw e refl,
      λ v. (λ m. (h v).0 (sym (same v) ∙ m), λ p. same v ∙ (h v).1 p),
    )

-- one record under a test
pub if_record :
    (c : Bool) (v w : ViolationRecord)
    → (contains (if c then v ∷ [] else []) w ≡ true) ↔ ((c ≡ true) × (w ≡ v))
if_record true v w = (
  λ h. (refl, sym ((violation_eq.beq_iff v w).0 (ground arith))),
  λ (t, e). ground (arith, (violation_eq.beq_iff v w).1 (sym e)),
)
if_record false v w = (λ h. cc, λ (t, e). cc)

-- the smaller of two texts
pub smaller : String → String → String
smaller a b = if text_lt a b then a else b

-- the other one
pub larger : String → String → String
larger a b = if text_lt a b then b else a

-- Two things are put in order exactly if their texts differ, and the first has the smaller text.
pub in_order_lem :
    {A : Type 0} (text : A → String) (a b : A)
    → ((in_order text a b ≡ none) × (text a ≡ text b))
      ⊎ ((lo hi : A) × (in_order text a b ≡ some (lo, hi))
          × (text a ≢ text b)
          × (text lo ≡ smaller (text a) (text b))
          × (text hi ≡ larger (text a) (text b))
          × (((lo ≡ a) × (hi ≡ b)) ⊎ ((lo ≡ b) × (hi ≡ a))))
unfolding in_order smaller larger
in_order_lem text a b = elim (Bool-cases (text_lt (text a) (text b))) [
  | inl lt ↦ inr (
    a,
    b,
    rw (lt, in_order) refl,
    λ e. cc (subst (λ z. text_lt (text a) z ≡ true) (sym e) lt, text_lt_irrefl (text a)),
    rw lt refl,
    rw lt refl,
    inl (refl, refl),
  )
  | inr ge ↦ elim (Bool-cases (text_lt (text b) (text a))) [
    | inl gt ↦ inr (
      b,
      a,
      rw (ge, in_order) (rw gt refl),
      λ e. cc (subst (λ z. text_lt (text b) z ≡ true) e gt, text_lt_irrefl (text b)),
      rw ge refl,
      rw ge refl,
      inr (refl, refl),
    )
    | inr le ↦ inl (rw (ge, in_order) (rw le refl), text_eq_of_not_lt (text a) (text b) ge le)
  ]
]

module _ (db : QuadStore) (store : db.Store) (text : Display) where
  open text use {nt_subject, nt_term}

  -- the nodes that have two types, from the index of the types by their subject
  pub typed_as_both_lem :
      (rule : String) (pairs : List (Subject × Term)) (lo hi : Term) (w : ViolationRecord)
      → (contains (typed_as_both db store text rule (group pairs) (some (lo, hi))) w ≡ true) ↔ (
          (x : Subject) × (contains pairs (x, lo) ≡ true)
          × (contains pairs (x, hi) ≡ true)
          × (w ≡ record_of rule (nt_subject x) (nt_named rdf_type) (nt_term lo)))
  unfolding typed_as_both
  typed_as_both_lem rule pairs lo hi w =
      let body = λ (st : Subject × HashSet Term).
        if contains st.1 lo && contains st.1 hi
        then record_of rule (nt_subject st.0) (nt_named rdf_type) (nt_term lo) ∷ []
        else [] in
      (
        λ m.
            let (x, types, g, mx) =
              each_entries_elim body (group pairs) w (group-HasDistinctKeys pairs) m in
            let (both, ew) = (if_record (contains types lo && contains types hi) _ w).0 mx in
            (
              x,
              ground (arith, both, group-entry pairs x types g lo),
              ground (arith, both, group-entry pairs x types g hi),
              ew,
            ),
        λ (x, mlo, mhi, ew).
            let (types, g) = group-has_entry pairs x lo mlo in
            each_entries_intro body (group pairs) w x types g (
              (if_record (contains types lo && contains types hi) _ w).1 (
                ground (arith, group-entry pairs x types g lo, group-entry pairs x types g hi),
                ew,
              )),
      )
