-- ===== src/Owl/ClassLists/Collected.antt =====
-- The loops on fuel of the rules that read lists: with enough fuel they return, and what.
use sqlite_sparql.Prelude.{
  ℕ, ◌<◌, List, [], ◌∷◌, ◌++◌, ◌≡◌, ◌↔◌, ◌∙◌, refl, sym, ap, subst, inl, inr, true, Bool-cases,
  Option-cases, none, some, ok, contains, contains-append, contains-single, each, Result, Derives,
  Derives-each, Eq, ◌==◌, string_eq, pair_eq, list_eq, arith,
}
use sqlite_sparql.Prelude.Fuel.{Fueled, ◌>>=◌}
use sqlite_sparql.Rdf.{NamedNode, Subject, Term, GraphName}
use sqlite_sparql.Rdf.Equality.{subject_eq, term_eq, quad_eq, graph_name_eq}
use sqlite_sparql.Rdf.Coercions.{subj_to_term, term_to_subj, term_to_subj_iff}
use sqlite_sparql.Oxigraph.{QuadStore, IsQuadSet}
use sqlite_sparql.Oxigraph.Sizes.{size}
use sqlite_sparql.Graphs.{graphs_to_query}
use sqlite_sparql.Graphs.Holds.{In}
use sqlite_sparql.Graphs.Collected.{pairs_for_predicate_lem}
use sqlite_sparql.Lists.{walk_list}
use sqlite_sparql.Lists.Walk.{walk_list-ends}
use sqlite_sparql.Owl.Inconsistency.{each_fueled}
use sqlite_sparql.Owl.ClassLists.{collect_class_lists}

-- The result is a list, and its members are exactly those with the property.
abbrev pub Yields {ℓ} : {B : Type 0} ⦃d : Eq B⦄ → Fueled (List B) → (B → Type ℓ) → Type ℓ
Yields {B = B} r P =
    (out : List B) × (r ≡ some (ok out)) × ((b : B) → (contains out b ≡ true) ↔ P b)

module _ {B : Type 0} ⦃d : Eq B⦄ where
  pub Yields_iff {ℓ κ} :
      (r : Fueled (List B)) {P : B → Type ℓ} {Q : B → Type κ}
      → ((b : B) → P b ↔ Q b)
      → Yields r P
      → Yields r Q
  Yields_iff r h w = (w.0, w.1, λ b. (λ m. (h b).0 ((w.2 b).0 m), λ q. (w.2 b).1 ((h b).1 q)))

module _ {A B : Type 0} ⦃d : Eq B⦄ where
  -- the rest of a chain after a call that is known to succeed
  pub Yields-bind {ℓ} :
      (r : Fueled A) (f : A → Fueled (List B)) (P : B → Type ℓ) (a : A)
      → r ≡ some (ok a)
      → Yields (f a) P
      → Yields (r >>= f) P
  Yields-bind r f P a e h = rw e h

module _ {A B : Type 0} ⦃e : Eq A⦄ ⦃d : Eq B⦄ where
  pub Yields-each {ℓ} :
      (body : A → List B) (P : A → B → Type ℓ) (xs : List A)
      → ((a : A) (b : B) → (contains (body a) b ≡ true) ↔ P a b)
      → Yields (some (ok (each xs body))) (λ b. (a : A) × (contains xs a ≡ true) × P a b)
  Yields-each body P xs h = let (out, eq, iff) = Derives-each body P xs h in (out, ap some eq, iff)

  pub Yields-each_fueled {ℓ} :
      (body : A → Fueled (List B)) (P : A → B → Type ℓ) (xs : List A)
      → ((a : A) → Yields (body a) (P a))
      → Yields (each_fueled xs body) (λ b. (a : A) × (contains xs a ≡ true) × P a b)
  unfolding each_fueled
  Yields-each_fueled body P [] h = ([], refl, λ b. (λ m. cc, λ w. cc (w.1)))
  Yields-each_fueled body P (x ∷ xs) h =
      let (out, eq, iff) = h x in
      let (rest, eqs, iffs) = Yields-each_fueled body P xs h in
      (
        out ++ rest,
        rw eq (rw eqs refl),
        λ b. (
          λ m. elim (Bool-cases (contains out b)) [
            | inl now ↦ (x, ground (arith, e.beq_iff x x), (iff b).0 now)
            | inr later ↦
                let (a, ma, pa) = (iffs b).0 (ground (arith, contains-append out rest b)) in
                (a, ground arith, pa)
          ],
          λ w. elim (Bool-cases (x == w.0)) [
            | inl same ↦
                let now = (iff b).1 (subst (λ c. P c b) (sym ((e.beq_iff x w.0).0 same)) w.2) in
                ground (arith, contains-append out rest b, now)
            | inr other ↦
                let later = (iffs b).1 (w.0, ground (arith, w.1), w.2) in
                ground (arith, contains-append out rest b, later)
          ],
        ),
      )

module _ (db : QuadStore) (law : IsQuadSet db) (s : db.Store) (fuel : ℕ) (a i : GraphName) where
  -- the members of the list that `walk_list` returns at a node
  abbrev pub Listed : Subject → List Term → Type 0
  Listed head members = walk_list db s fuel head (graphs_to_query a i) ≡ some (ok (some members))

  -- a body that reads the list at a term, and skips a term that heads none
  pub Reads-at :
      {B : Type 0} ⦃d : Eq B⦄ (body : List Term → Result (List B)) (P : List Term → B → Type 0)
      (head : Term)
      → size db law s < fuel
      → ((members : List Term) → Derives (body members) (P members))
      → Yields
          (elim (term_to_subj head) [
            | none ↦ some (ok [])
            | some head_subj ↦ walk_list db s fuel head_subj (graphs_to_query a i) >>= λ found.
                elim found [ none ↦ some (ok []) | some members ↦ some (body members) ]
          ])
          (λ b.
            (h : Subject) × (members : List Term) × (head ≡ subj_to_term h)
            × Listed h members
            × P members b)
  Reads-at body P head enough derives = elim (Option-cases (term_to_subj head)) [
    | inl literal ↦ (
      [],
      rw literal refl,
      λ b. (λ m. cc, λ (h, ms, eh, l, p). cc (literal, (term_to_subj_iff head h).1 eh)),
    )
    | inr (h, eh) ↦
        let (o, eo) = walk_list-ends db law s (graphs_to_query a i) h fuel enough in
        let at_h : (h' : Subject) (ts : List Term)
            → head ≡ subj_to_term h'
            → Listed h' ts
            → Listed h ts =
          λ h' ts eh' l. subst (λ x. Listed x ts) (cc (eh, (term_to_subj_iff head h').1 eh')) l in
        elim (Option-cases o) [
          | inl nothing ↦ (
            [],
            rw eh (rw eo (rw nothing refl)),
            λ b. (λ m. cc, λ (h', ms, eh', l, p). cc (eo, nothing, at_h h' ms eh' l)),
          )
          | inr (ms, em) ↦
              let (out, e, iff) = derives ms in
              (
                out,
                rw eh (rw eo (rw em (ap some e))),
                λ b. (
                  λ m. (
                    h,
                    ms,
                    (term_to_subj_iff head h).0 eh,
                    eo ∙ ap (λ z. some (ok z)) em,
                    (iff b).0 m,
                  ),
                  λ (h', ts, eh', l, p).
                      (iff b).1 (subst (λ us. P us b) (cc (eo, em, at_h h' ts eh' l)) p),
                ),
              )
        ]
  ]

  -- With fuel for one more than the quads of the store, collect_class_lists returns, without an error,
  -- exactly the classes of the predicate with the members of each well-formed list.
  pub collect_class_lists_lem :
      (p : NamedNode)
      → size db law s < fuel
      → Yields ⦃d = pair_eq⦄ (collect_class_lists db s fuel p a i) (λ (b : Subject × List Term).
        (h : Subject) × In db law s a i b.0 p (subj_to_term h) × Listed h b.1)
  unfolding collect_class_lists
  collect_class_lists_lem p enough =
      let (pairs, e, hp) = pairs_for_predicate_lem db law s a i p in
      Yields-bind _ _ _ pairs (ap some e) (
        Yields_iff _
          (λ (c, ts). (
            λ ((c', t), m, (h, us, et, l, same)).
                let ec : c' ≡ c = ap (λ (z : Subject × List Term). z.0) same in
                (
                  h,
                  sym (hp c (subj_to_term h))
                      ∙ subst (λ (z : Subject × Term). contains pairs z ≡ true) (cc (et, ec)) m,
                  subst (Listed h) (ap (λ (z : Subject × List Term). z.1) same) l,
                ),
            λ (h, hin, l).
                ((c, subj_to_term h), hp c (subj_to_term h) ∙ hin, (h, ts, refl, l, refl)),
          ))
          (Yields-each_fueled _ _ pairs (λ ch.
            Reads-at (λ members. ok ((ch.0, members) ∷ []))
              (λ members b. ◌≡◌ {A = Subject × List Term} (ch.0, members) b) ch.1 enough
              (λ members. (
                (ch.0, members) ∷ [],
                refl,
                λ b. contains-single {A = Subject × List Term} (ch.0, members) b,
              )))))
