-- ===== src/DependencyIndex/Forgetting.antt =====
-- What `forget` of src/dependency_index.rs leaves in the two maps of the index, and when they still
-- agree.
use mathlib.Core.List.Memᴰ
use sqlite_sparql.Prelude.{
  List, [], ◌∷◌, ◌≡◌, ◌≢◌, inl, inr, refl, sym, subst, false, not, any-of_mem, Bool-cases, ◌&&◌,
  none, HashSet, HashMap, ◌==◌, any, contains, remove, get, remove_key, or_default, ◌∙◌, get-put,
  get-remove_key, contains-remove, Option-cases, arith, if◌then◌else◌,
}
use sqlite_sparql.Rdf.{Quad}
use sqlite_sparql.Rdf.Equality.{quad_eq}
use sqlite_sparql.DependencyIndex.{
  Derivation, DependencyIndex, put_or_drop, forget_premise, forget_derivation, forget_derivations,
  forget,
}
use sqlite_sparql.DependencyIndex.Invariant.{supports, Cites, IsWellFormed}
use sqlite_sparql.DependencyIndex.Agreement.{derivations_of, HasNoEmpty, Agrees, Cites-mem}

supports-put_or_drop :
    (rev : HashMap Quad (HashSet Quad)) (p : Quad) (s : HashSet Quad) (q c : Quad)
    → supports (put_or_drop rev p s) q c ≡ (if p == q then contains s c else supports rev q c)
unfolding put_or_drop
supports-put_or_drop rev p [] q c = ground (arith, get-remove_key rev p q)
supports-put_or_drop rev p (x ∷ xs) q c = ground (arith, get-put rev p q (x ∷ xs))

supports-forget_premise :
    (rev : HashMap Quad (HashSet Quad)) (x p q c : Quad)
    → supports (forget_premise rev x p) q c ≡ (if p == q && x == c then false else supports rev q c)
unfolding forget_premise
supports-forget_premise rev x p q c = elim (Option-cases (get rev p)) [
  | inl absent ↦ rw (absent, forget_premise) (ground (arith, absent, quad_eq.beq_iff p q))
  | inr (set, e) ↦
      rw (e, forget_premise)
        (ground (
          arith,
          e,
          supports-put_or_drop rev p (remove set x) q c,
          contains-remove set x c,
          quad_eq.beq_iff p q,
        ))
]

supports-forget_derivation :
    (rev : HashMap Quad (HashSet Quad)) (x : Quad) (d : List Quad) (q c : Quad)
    → supports (forget_derivation rev x d) q c
      ≡ (if contains d q && x == c then false else supports rev q c)
unfolding forget_derivation
supports-forget_derivation rev x [] q c = refl
supports-forget_derivation rev x (p ∷ ps) q c = ground (
  arith,
  supports-forget_derivation (forget_premise rev x p) x ps q c,
  supports-forget_premise rev x p q c,
)

pub supports-forget_derivations :
    (rev : HashMap Quad (HashSet Quad)) (x : Quad) (ds : List Derivation) (q c : Quad)
    → supports (forget_derivations rev x ds) q c
      ≡ (if any (λ d. contains d q) ds && x == c then false else supports rev q c)
unfolding forget_derivations
supports-forget_derivations rev x [] q c = refl
supports-forget_derivations rev x (d ∷ ds) q c = ground (
  arith,
  supports-forget_derivations (forget_derivation rev x d) x ds q c,
  supports-forget_derivation rev x d q c,
)

-- What `forget x` leaves in `reverse`.
pub supports-forget :
    (idx : DependencyIndex) (x q c : Quad)
    → supports (forget idx x).reverse q c ≡ (
        if any (λ d. contains d q) (or_default (get idx.derivations x) []) && x == c
        then false
        else if x == q
        then false
        else supports idx.reverse q c)
unfolding forget
supports-forget idx x q c = ground (
  arith,
  supports-forget_derivations (remove_key idx.reverse x) x (or_default (get idx.derivations x) []) q
      c,
  get-remove_key idx.reverse x q,
)

pub get-forget :
    (idx : DependencyIndex) (x c : Quad)
    → get (forget idx x).derivations c ≡ (if x == c then none else get idx.derivations c)
unfolding forget
get-forget idx x c = get-remove_key idx.derivations x c

Cites-forget :
    (idx : DependencyIndex) (x c q : Quad) → Cites (forget idx x) c q → Cites idx c q × (x ≢ c)
Cites-forget idx x c q h = (
  record {
    ds = h.ds;
    d = h.d;
    recorded = ground (arith, get-forget idx x c, h.recorded);
    one_of = h.one_of;
    premise = h.premise;
  },
  λ e. ground (arith, get-forget idx x c, h.recorded, quad_eq.beq_iff x c),
)

put_or_drop-HasNoEmpty :
    (rev : HashMap Quad (HashSet Quad)) (p : Quad) (s : HashSet Quad)
    → HasNoEmpty rev
    → HasNoEmpty (put_or_drop rev p s)
unfolding put_or_drop
put_or_drop-HasNoEmpty rev p [] full q h = ground (arith, get-remove_key rev p q, full q, h)
put_or_drop-HasNoEmpty rev p (x ∷ xs) full q h = ground (arith, get-put rev p q (x ∷ xs), full q, h)

forget_premise-HasNoEmpty :
    (rev : HashMap Quad (HashSet Quad)) (x p : Quad)
    → HasNoEmpty rev
    → HasNoEmpty (forget_premise rev x p)
unfolding forget_premise
forget_premise-HasNoEmpty rev x p full = elim (Option-cases (get rev p)) [
  | inl absent ↦ rw (absent, forget_premise) full
  | inr (set, e) ↦ rw (e, forget_premise) (put_or_drop-HasNoEmpty rev p (remove set x) full)
]

forget_derivation-HasNoEmpty :
    (rev : HashMap Quad (HashSet Quad)) (x : Quad) (d : List Quad)
    → HasNoEmpty rev
    → HasNoEmpty (forget_derivation rev x d)
unfolding forget_derivation
forget_derivation-HasNoEmpty rev x [] full = full
forget_derivation-HasNoEmpty rev x (p ∷ ps) full =
    forget_derivation-HasNoEmpty (forget_premise rev x p) x ps
      (forget_premise-HasNoEmpty rev x p full)

forget_derivations-HasNoEmpty :
    (rev : HashMap Quad (HashSet Quad)) (x : Quad) (ds : List Derivation)
    → HasNoEmpty rev
    → HasNoEmpty (forget_derivations rev x ds)
unfolding forget_derivations
forget_derivations-HasNoEmpty rev x [] full = full
forget_derivations-HasNoEmpty rev x (d ∷ ds) full =
    forget_derivations-HasNoEmpty (forget_derivation rev x d) x ds
      (forget_derivation-HasNoEmpty rev x d full)

forget-HasNoEmpty :
    (idx : DependencyIndex) (x : Quad) → HasNoEmpty idx.reverse → HasNoEmpty (forget idx x).reverse
unfolding forget
forget-HasNoEmpty idx x full =
    forget_derivations-HasNoEmpty (remove_key idx.reverse x) x (derivations_of idx x)
      (λ q h. ground (arith, get-remove_key idx.reverse x q, full q, h))

module _ (idx : DependencyIndex) (x : Quad) (a : Agrees idx)
    (alone : (c : Quad) → Cites idx c x → c ≡ x) where
  -- where the links stand that `forget` has to remove
  linked-forget :
      (q c : Quad)
      → supports (forget idx x).reverse q c ≡ (supports idx.reverse q c && not (x == c))
  linked-forget q c = elim (Bool-cases (supports idx.reverse q c)) [
    | inr unlinked ↦ ground (arith, supports-forget idx x q c, unlinked)
    | inl link ↦
        let cites = (a.linked c q).1 link in
        elim (Bool-cases (x == c)) [
          | inl same ↦
              let e = sym ((quad_eq.beq_iff x c).0 same) in
              let (d, m, there) = Cites-mem idx x q (subst (λ b. Cites idx b q) e cites) in
              let found = any-of_mem (λ d. contains d q) d m there in
              ground (arith, supports-forget idx x q c, found, same)
          | inr other ↦
              let uncited : (x == q) ≡ false = elim (Bool-cases (x == q)) [
                | inr apart ↦ apart
                | inl same ↦
                    let e = sym ((quad_eq.beq_iff x q).0 same) in
                    let back = alone c (subst (Cites idx c) e cites) in
                    absurd (ground (arith, quad_eq.beq_iff x c, sym back))
              ] in
              ground (arith, supports-forget idx x q c, other, uncited, link)
        ]
  ]

  Cites-kept : (c q : Quad) → Cites idx c q → (x == c) ≡ false → Cites (forget idx x) c q
  Cites-kept c q h other = record {
    ds = h.ds;
    d = h.d;
    recorded = ground (arith, get-forget idx x c, h.recorded);
    one_of = h.one_of;
    premise = h.premise;
  }

  -- On an index whose two maps agree, forgetting a quad that no other quad cites leaves two maps that
  -- agree: its derivations are dropped and no others, and it is dropped as a dependent of every quad
  -- while all other links stay.
  pub forget-Agrees :
      Agrees (forget idx x)
      × ((c : Quad)
          → get (forget idx x).derivations c ≡ (if x == c then none else get idx.derivations c))
      × ((q c : Quad)
          → supports (forget idx x).reverse q c ≡ (supports idx.reverse q c && not (x == c)))
  forget-Agrees = (
    record {
      linked = λ c q. (
        λ h.
            let (old, other) = Cites-forget idx x c q h in
            ground (arith, linked-forget q c, (a.linked c q).0 old, other, quad_eq.beq_iff x c),
        λ h.
            Cites-kept c q ((a.linked c q).1 (ground (arith, linked-forget q c)))
              (ground (arith, linked-forget q c)),
      );
      inhabited = λ c h. ground (arith, get-forget idx x c, a.inhabited c, h);
      occupied = forget-HasNoEmpty idx x a.occupied;
      distinct = λ c d m. elim (Bool-cases (x == c)) [
        | inl same ↦ absurd (Memᴰ.not-nil (rw (get-forget idx x c, same) at m))
        | inr other ↦ a.distinct c d (rw (get-forget idx x c, other) at m)
      ];
    },
    get-forget idx x,
    linked-forget,
  )

-- Forgetting a quad that another quad still cites breaks the agreement: the citing quad keeps its
-- derivation, and nothing in `reverse` leads to it any more.
pub forget-breaks :
    (idx : DependencyIndex) (x c : Quad)
    → Cites idx c x
    → c ≢ x
    → (get (forget idx x).derivations c ≡ get idx.derivations c)
      × (supports (forget idx x).reverse x c ≡ false)
      × ¬ IsWellFormed (forget idx x)
forget-breaks idx x c h ne =
    let kept : get (forget idx x).derivations c ≡ get idx.derivations c =
      ground (arith, get-forget idx x c, quad_eq.beq_iff x c) in
    let lost : supports (forget idx x).reverse x c ≡ false =
      ground (arith, supports-forget idx x x c, quad_eq.beq_iff x x) in
    (
      kept,
      lost,
      λ w.
          let cites : Cites (forget idx x) c x = record {
            ds = h.ds;
            d = h.d;
            recorded = kept ∙ h.recorded;
            one_of = h.one_of;
            premise = h.premise;
          } in
          cc (w.covers c x cites, lost),
    )
