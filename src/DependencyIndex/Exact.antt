-- ===== src/DependencyIndex/Exact.antt =====
-- On a well-formed index `cascade` of src/dependency_index.rs returns all the quads that fall, in
-- whatever order it meets them.
use mathlib.Core.List.{Memᴰ}
use sqlite_sparql.Prelude.{
  ℕ, zero, suc, List, [], ◌∷◌, ◌≡◌, refl, ap, sym, subst, ◌⊎◌, inl, inr, true, false, not, some,
  HashSet, ◌==◌, any, contains, insert, get, or_default, contains-insert, any-mem, all_elim,
  Bool-cases, Option-cases, List-cases, arith, ◌↔◌,
}
use sqlite_sparql.Rdf.{Quad}
use sqlite_sparql.Rdf.Equality.{quad_eq}
use sqlite_sparql.DependencyIndex.{
  Derivation, DependencyIndex, Cascade, survives, delete, visit, visit_all, pop_round, drain, start,
  enough, cascade,
}
use sqlite_sparql.DependencyIndex.Invariant.{supports, Cites, IsWellFormed}
use sqlite_sparql.DependencyIndex.Drain.{cascade-ends}
use sqlite_sparql.DependencyIndex.Sound.{
  Falls, base, unsupported, IsSound, broken_at, none_survives, drain-IsSound, start-IsSound,
  cascade-Falls,
}

module _ (idx : DependencyIndex) (w : IsWellFormed idx) where
  -- `c` will be visited: it is among the candidates left, or a premise of it is to be popped
  abbrev Waiting : Cascade → List Quad → Quad → Type 0
  Waiting st cs c =
      (contains cs c ≡ true)
      ⊎ ((p : Quad) × (contains st.worklist p ≡ true) × (supports idx.reverse p c ≡ true))

  -- every quad that is still there without a surviving derivation will be visited
  record IsClosed (st : Cascade) (cs : List Quad) : Type 0 where
    waits :
        (c : Quad) (ds : List Derivation)
        → get idx.derivations c ≡ some ds
        → contains st.removed c ≡ false
        → any (survives st.removed) ds ≡ false
        → Waiting st cs c

  not_head :
      (c x : Quad) (cs : List Quad)
      → contains (x ∷ cs) c ≡ true
      → (x ≡ c → ⊥)
      → contains cs c ≡ true
  not_head c x cs h ne = ground (arith, quad_eq.beq_iff x c)

  skip-IsClosed :
      (st : Cascade) (x : Quad) (cs : List Quad)
      → IsClosed st (x ∷ cs)
      → ((ds : List Derivation)
          → get idx.derivations x ≡ some ds
          → contains st.removed x ≡ false
          → any (survives st.removed) ds ≡ false
          → ⊥)
      → IsClosed st cs
  skip-IsClosed st x cs k done = record {
    waits = λ c ds e f h. elim (k.waits c ds e f h) [
      | inl here ↦ inl (not_head c x cs here (λ same. done ds (rw same e) (rw same f) h))
      | inr later ↦ inr later
    ];
  }

  -- a derivation that falls by the removal of `x` alone cites `x`
  cites_new :
      (removed : HashSet Quad) (x c : Quad) (ds : List Derivation)
      → get idx.derivations c ≡ some ds
      → any (survives removed) ds ≡ true
      → any (survives (insert removed x)) ds ≡ false
      → Cites idx c x
  cites_new removed x c ds e before after =
      let (d, m, lives) = any-mem (survives removed) ds before in
      let (q, mq, gone) =
        broken_at (insert removed x) d (none_survives (insert removed x) ds d after m) in
      let kept = all_elim (λ r. not (contains removed r)) d q lives mq in
      let same : x ≡ q =
        ground (arith, kept, gone, contains-insert removed x q, quad_eq.beq_iff x q) in
      record { ds = ds; d = d; recorded = e; one_of = m; premise = rw same mq }

  delete-IsClosed :
      (st : Cascade) (x : Quad) (cs : List Quad) → IsClosed st (x ∷ cs) → IsClosed (delete st x) cs
  delete-IsClosed st x cs k = record {
    waits = λ c ds e f h.
        let f' : contains st.removed c ≡ false = ground (arith, contains-insert st.removed x c) in
        let ne : x ≡ c → ⊥ =
          λ same. ground (arith, contains-insert st.removed x c, quad_eq.beq_iff x c) in
        elim (Bool-cases (any (survives st.removed) ds)) [
          | inl before ↦ inr (
            x,
            ground (arith, quad_eq.beq_iff x x),
            w.covers c x (cites_new st.removed x c ds e before h),
          )
          | inr before ↦ elim (k.waits c ds e f' before) [
            | inl here ↦ inl (not_head c x cs here ne)
            | inr (p, m, s) ↦ inr (p, ground arith, s)
          ]
        ];
  }

  visit-IsClosed :
      (st : Cascade) (x : Quad) (cs : List Quad)
      → IsClosed st (x ∷ cs)
      → IsClosed (visit idx st x) cs
  unfolding visit
  visit-IsClosed st x cs k = elim (Bool-cases (contains st.removed x)) [
    | inl old ↦ rw (old, visit) (skip-IsClosed st x cs k (λ ds e f h. cc))
    | inr new ↦ elim (Option-cases (get idx.derivations x)) [
      | inl absent ↦ rw (new, absent, visit) (skip-IsClosed st x cs k (λ ds e f h. cc))
      | inr (ds, e) ↦ elim (Bool-cases (any (survives st.removed) ds)) [
        | inl lives ↦
            rw (new, e, visit) (rw lives (skip-IsClosed st x cs k (λ ds' e' f h. ground arith)))
        | inr dies ↦ rw (new, e, visit) (rw dies (delete-IsClosed st x cs k))
      ]
    ]
  ]

  visit_all-IsClosed :
      (cs : List Quad) (st : Cascade) → IsClosed st cs → IsClosed (visit_all idx st cs) []
  unfolding visit_all
  visit_all-IsClosed [] st k = k
  visit_all-IsClosed (c ∷ cs) st k =
      visit_all-IsClosed cs (visit idx st c) (visit-IsClosed st c cs k)

  -- popping `p` turns what waits for `p` into candidates
  pop-IsClosed :
      (st : Cascade) (p : Quad) (rest : List Quad)
      → st.worklist ≡ p ∷ rest
      → IsClosed st []
      → IsClosed (record st { worklist = rest }) (or_default (get idx.reverse p) [])
  pop-IsClosed st p rest e k = record {
    waits = λ c ds g f h. elim (k.waits c ds g f h) [
      | inl here ↦ cc
      | inr (q, m, s) ↦ elim (Bool-cases (p == q)) [
        | inl same ↦
            inl
              (subst (λ r. supports idx.reverse r c ≡ true) (sym ((quad_eq.beq_iff p q).0 same)) s)
        | inr other ↦ let m' : contains (p ∷ rest) q ≡ true = rw e at m in inr (q, ground arith, s)
      ]
    ];
  }

  drain-IsClosed : (fuel : ℕ) (st : Cascade) → IsClosed st [] → IsClosed (drain idx fuel st) []
  unfolding drain pop_round
  drain-IsClosed zero st k = k
  drain-IsClosed (suc fuel) st k = elim (List-cases st.worklist) [
    | inl empty ↦ rw (empty, drain) k
    | inr (p, rest, e) ↦
        rw (e, drain)
          (drain-IsClosed fuel (pop_round idx st p rest) (
            visit_all-IsClosed (or_default (get idx.reverse p) []) (record st { worklist = rest })
              (pop-IsClosed st p rest e k)))
  ]

  start-IsClosed : (retracted : HashSet Quad) → IsClosed (start retracted) []
  start-IsClosed retracted = record {
    waits = λ c ds e f h. elim (List-cases ds) [
      | inl empty ↦ absurd (w.inhabited c (rw empty at e))
      | inr (d, ds', s) ↦
          let m : Memᴰ d ds = rw s (Memᴰ.head refl) in
          let (q, mq, gone) = broken_at retracted d (none_survives retracted ds d h m) in
          inr (
            q,
            gone,
            w.covers c q (record { ds = ds; d = d; recorded = e; one_of = m; premise = mq }),
          )
    ];
  }

  module _ (retracted : HashSet Quad) where
    abbrev final : Cascade
    final = drain idx (enough idx retracted) (start retracted)

    final-IsClosed : IsClosed final []
    final-IsClosed =
        drain-IsClosed (enough idx retracted) (start retracted) (start-IsClosed retracted)

    final-IsSound : IsSound idx retracted final
    final-IsSound =
        drain-IsSound idx retracted (enough idx retracted) (start retracted)
          (start-IsSound idx retracted)

    -- at the end nothing waits, so what still stands has a derivation that survives
    stands :
        (c : Quad) (ds : List Derivation)
        → get idx.derivations c ≡ some ds
        → contains final.removed c ≡ false
        → any (survives final.removed) ds ≡ false
        → ⊥
    stands c ds e f h = elim (final-IsClosed.waits c ds e f h) [
      | inl here ↦ cc
      | inr (p, m, s) ↦ cc (ap (λ l. contains l p) (cascade-ends idx retracted), m)
    ]

    removed-Falls : (q : Quad) → Falls idx retracted q → contains final.removed q ≡ true
    removed-Falls q (base h) = ground (arith, final-IsSound.parts q)
    removed-Falls q (unsupported ds e pick picked falls) =
        elim (Bool-cases (contains final.removed q)) [
          | inl gone ↦ gone
          | inr f ↦ elim (Bool-cases (any (survives final.removed) ds)) [
            | inr dies ↦ absurd (stands q ds e f dies)
            | inl lives ↦
                let (d, m, l) = any-mem (survives final.removed) ds lives in
                let kept =
                  all_elim (λ r. not (contains final.removed r)) d (pick d m) l (picked d m) in
                ground (arith, kept, removed-Falls (pick d m) (falls d m))
          ]
        ]

    -- On a well-formed index the cascade returns exactly the quads that were not retracted and
    -- fall with the retracted ones.
    pub cascade_exact :
        (q : Quad)
        → (contains (cascade idx retracted) q ≡ true)
          ↔ ((contains retracted q ≡ false) × Falls idx retracted q)
    unfolding cascade
    cascade_exact q = (
      cascade-Falls idx retracted q,
      λ h. ground (arith, removed-Falls q h.1, final-IsSound.parts q),
    )
