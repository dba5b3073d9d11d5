-- ===== src/Shacl/Path/Exact.antt =====
-- The evaluator of src/functions/rdf_shacl_core/path.rs returns, and its values are exactly those that
-- the path leads to.
use sqlite_sparql.Prelude.{
  ℕ, ◌+◌, ◌<◌, contains-append, IsDistinct, insert, contains-insert, List, [], ◌∷◌, ◌++◌, ◌≡◌, ◌↔◌,
  ◌∙◌, ◌&&◌, not, refl, sym, ap, subst, inl, inr, arith, true, Bool-cases, some, contains, ◌==◌,
  string_eq, HashSet,
}
use sqlite_sparql.Rdf.{Subject, Term, GraphName}
use sqlite_sparql.Rdf.Equality.{quad_eq, subject_eq, term_eq, graph_name_eq}
use sqlite_sparql.Rdf.Coercions.{subj_to_term}
use sqlite_sparql.Oxigraph.{QuadStore, IsQuadSet}
use sqlite_sparql.Oxigraph.Sizes.{size}
use sqlite_sparql.Shacl.Path.{
  PropertyPath, predicate, inverse, sequence, alternative, zero_or_more, one_or_more, zero_or_one,
  Paths, no_more, part, nodes_among, predicate_step, inverse_predicate_step, eval_impl, frontier,
  last_values, branches, without_repeats, evaluate,
}
use sqlite_sparql.Shacl.Path.Found.{Found, FoundAlong, FoundIn, contains-nodes_among}
use sqlite_sparql.Shacl.Path.Steps.{
  Yields, Reaches, Leads, each_some_lem, predicate_step_lem, inverse_predicate_step_lem,
}
use sqlite_sparql.Shacl.Path.Repeated.{zero_or_more_lem, one_or_more_lem}

module _ (db : QuadStore) (law : IsQuadSet db) (s : db.Store) (graph : GraphName) where
  open law use {contents, matching, pattern_law}

  -- the values of a sequence from some nodes; an empty one has the focus as its value
  Along : Paths → Subject → List Subject → Term → Type 0
  Along no_more x fs t = t ≡ subj_to_term x
  Along (part p parts) x fs t =
      (f : Subject) × (contains fs f ≡ true) × FoundAlong (contents s) graph (part p parts) f t

  Along-focus :
      (parts : Paths) (x : Subject) (t : Term)
      → Along parts x (x ∷ []) t ↔ FoundAlong (contents s) graph parts x t
  unfolding Along Found
  Along-focus no_more x t = (λ h. h, λ h. h)
  Along-focus (part p parts) x t = (
    λ (f, mf, h).
        subst (λ y. FoundAlong (contents s) graph (part p parts) y t)
          (sym ((subject_eq.beq_iff x f).0 (ground arith))) h,
    λ h. (x, ground (arith, subject_eq.beq_iff x x), h),
  )

  module _ (rounds : ℕ) (enough : size db law s + size db law s + 1 < rounds) where
    -- Every call returns, and its values are those that the path leads to.
    mutual
      unfolding eval_impl Found Along

      pub eval_impl_lem :
          (p : PropertyPath) (x : Subject)
          → Yields (eval_impl db s graph rounds p x) (Leads db law s graph p x)
      eval_impl_lem (predicate p) x = (
        predicate_step db s graph x p,
        refl,
        λ t. (
          λ m. sym (predicate_step_lem db law s graph p x t) ∙ m,
          λ m. predicate_step_lem db law s graph p x t ∙ m,
        ),
      )
      eval_impl_lem (inverse (predicate p)) x = (
        inverse_predicate_step db s graph x p,
        refl,
        inverse_predicate_step_lem db law s graph p x,
      )
      eval_impl_lem (inverse (inverse inner)) x = eval_impl_lem inner x
      eval_impl_lem (inverse other) x = ([], refl, λ t. (λ m. cc, λ h. absurd h))
      eval_impl_lem (sequence parts) x =
          let (fs, ef) = frontier_lem parts (x ∷ []) in
          let (vs, ev, hv) = last_values_lem parts x (x ∷ []) in
          (
            vs,
            rw ef ev,
            λ t. (
              λ m. (Along-focus parts x t).0 ((hv t).0 m),
              λ h. (hv t).1 ((Along-focus parts x t).1 h),
            ),
          )
      eval_impl_lem (alternative parts) x = branches_lem parts x
      eval_impl_lem (zero_or_more inner) x =
          zero_or_more_lem db law s graph rounds enough inner (λ y. eval_impl_lem inner y) x
      eval_impl_lem (one_or_more inner) x =
          one_or_more_lem db law s graph rounds enough inner (λ y. eval_impl_lem inner y) x
      eval_impl_lem (zero_or_one inner) x =
          let (vs, ev, hv) = eval_impl_lem inner x in
          (
            subj_to_term x ∷ vs,
            rw ev refl,
            λ t. (
              λ m. elim (Bool-cases (subj_to_term x == t)) [
                | inl same ↦ inl (sym ((term_eq.beq_iff (subj_to_term x) t).0 same))
                | inr other ↦ inr ((hv t).0 (ground arith))
              ],
              λ h. elim h [
                | inl e ↦ ground (arith, (term_eq.beq_iff (subj_to_term x) t).1 (sym e))
                | inr found ↦ ground (arith, (hv t).1 found)
              ],
            ),
          )

      frontier_lem :
          (parts : Paths) (fs : List Subject) → Reaches (frontier db s graph rounds parts fs)
      frontier_lem no_more fs = (fs, refl)
      frontier_lem (part p parts) fs =
          let (vs, ev, hv) =
            each_some_lem (eval_impl db s graph rounds p) (Leads db law s graph p)
              (λ y. eval_impl_lem p y) fs in
          let (gs, eg) = frontier_lem parts (nodes_among vs) in (gs, rw ev eg)

      last_values_lem :
          (parts : Paths) (x : Subject) (fs : List Subject)
          → Yields (last_values db s graph rounds parts x fs) (λ t. Along parts x fs t)
      last_values_lem no_more x fs = (
        subj_to_term x ∷ [],
        refl,
        λ t. (
          λ m. sym ((term_eq.beq_iff (subj_to_term x) t).0 (ground arith)),
          λ e. ground (arith, (term_eq.beq_iff (subj_to_term x) t).1 (sym e)),
        ),
      )
      last_values_lem (part p no_more) x fs =
          each_some_lem (eval_impl db s graph rounds p) (Leads db law s graph p)
            (λ y. eval_impl_lem p y) fs
      last_values_lem (part p (part q parts)) x fs =
          let (vs, ev, hv) =
            each_some_lem (eval_impl db s graph rounds p) (Leads db law s graph p)
              (λ y. eval_impl_lem p y) fs in
          let (us, eu, hu) = last_values_lem (part q parts) x (nodes_among vs) in
          (
            us,
            rw ev eu,
            λ t. (
              λ m.
                  let (g, mg, h) = (hu t).0 m in
                  let (f, mf, lf) =
                    (hv (subj_to_term g)).0 (sym (contains-nodes_among vs g) ∙ mg) in
                  (f, mf, (g, lf, h)),
              λ (f, mf, (g, lf, h)).
                  (hu t).1 (g, contains-nodes_among vs g ∙ (hv (subj_to_term g)).1 (f, mf, lf), h),
            ),
          )

      branches_lem :
          (parts : Paths) (x : Subject)
          → Yields (branches db s graph rounds parts x) (FoundIn (contents s) graph parts x)
      branches_lem no_more x = ([], refl, λ t. (λ m. cc, λ h. absurd h))
      branches_lem (part p parts) x =
          let (us, eu, hu) = eval_impl_lem p x in
          let (vs, ev, hv) = branches_lem parts x in
          (
            us ++ vs,
            rw eu (rw ev refl),
            λ t. (
              λ m. elim (Bool-cases (contains us t)) [
                | inl now ↦ inl ((hu t).0 now)
                | inr later ↦ inr ((hv t).0 (ground (arith, contains-append us vs t)))
              ],
              λ h. elim h [
                | inl now ↦ ground (arith, contains-append us vs t, (hu t).1 now)
                | inr later ↦ ground (arith, contains-append us vs t, (hv t).1 later)
              ],
            ),
          )

contains-without_repeats :
    (seen : HashSet Term) (ts : List Term) (t : Term)
    → contains (without_repeats seen ts) t ≡ (contains ts t && not (contains seen t))
unfolding without_repeats
contains-without_repeats seen [] t = refl
contains-without_repeats seen (u ∷ ts) t =
    let rest = contains-without_repeats (insert seen u) ts t in
    let grown = contains-insert seen u t in
    elim (Bool-cases (u == t)) [
      | inl same ↦
          let e = ap (contains seen) ((term_eq.beq_iff u t).0 same) in
          ground (arith, rest, grown, e)
      | inr other ↦ ground (arith, rest, grown)
    ]

IsDistinct-without_repeats :
    (seen : HashSet Term) (ts : List Term) → IsDistinct (without_repeats seen ts)
unfolding without_repeats
IsDistinct-without_repeats seen [] = tt
IsDistinct-without_repeats seen (u ∷ ts) = elim (Bool-cases (contains seen u)) [
  | inl old ↦ rw old (IsDistinct-without_repeats (insert seen u) ts)
  | inr new ↦ rw new (
    ground (
      arith,
      contains-without_repeats (insert seen u) ts u,
      contains-insert seen u u,
      term_eq.beq_iff u u,
    ),
    IsDistinct-without_repeats (insert seen u) ts,
  )
]

module _ (db : QuadStore) (law : IsQuadSet db) (s : db.Store) where
  open law use {contents}

  -- `evaluate` returns as soon as its closures may run twice more than the store has ends of quads,
  -- and what it returns has no value twice and exactly the values that the path leads to.
  pub evaluate-Found :
      (graph : GraphName) (rounds : ℕ) (p : PropertyPath) (x : Subject)
      → size db law s + size db law s + 1 < rounds
      → (out : List Term) × (evaluate db s rounds p x graph ≡ some out)
        × IsDistinct out
        × ((t : Term) → (contains out t ≡ true) ↔ Found (contents s) graph p x t)
  unfolding evaluate
  evaluate-Found graph rounds p x enough =
      let (vs, ev, hv) = eval_impl_lem db law s graph rounds enough p x in
      (
        without_repeats [] vs,
        rw ev refl,
        IsDistinct-without_repeats [] vs,
        λ t. (
          λ m. (hv t).0 (ground (arith, contains-without_repeats [] vs t)),
          λ h. ground (arith, contains-without_repeats [] vs t, (hv t).1 h),
        ),
      )
