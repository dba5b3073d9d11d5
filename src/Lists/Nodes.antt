-- ===== src/Lists/Nodes.antt =====
-- What reading one node of an RDF list finds, on a store that is a set of quads.
use sqlite_sparql.Prelude.{
  List, [], ◌∷◌, ◌≡◌, ◌⊎◌, ◌∙◌, refl, sym, inl, inr, arith, Bool, true, Bool-cases, Option,
  Option-cases, none, some, map, ok, contains, ◌==◌, string_eq,
}
use sqlite_sparql.Rdf.{NamedNode, Subject, Term, GraphName, Quad}
use sqlite_sparql.Rdf.Equality.{quad_eq, subject_eq, term_eq, graph_name_eq}
use sqlite_sparql.Oxigraph.{QuadStore, IsQuadSet}
use sqlite_sparql.Graphs.Holds.{quad, holds, contains-objects}
use sqlite_sparql.Lists.{take_objects, objects_in, only_object, list_node, rdf_first, rdf_rest}

-- what a loop that starts with `found` and ends with `r` has met: the objects that `met` accepts
abbrev pub Collects : Option Term → Option Term → (Term → Bool) → Type 0
Collects found r met =
    ((y : Term) → met y ≡ true → r ≡ some y)
    × ((y : Term) → found ≡ some y → r ≡ some y)
    × ((y : Term) → r ≡ some y → (found ≡ some y) ⊎ (met y ≡ true))

take_objects_lem :
    (qs : List Quad) (found : Option Term)
    → (res : Option (Option Term)) × (take_objects found (map some qs) ≡ ok res)
      × ((r : Option Term) → res ≡ some r → Collects found r (contains (map (λ q. q.object) qs)))
unfolding take_objects
take_objects_lem [] found = (some found, refl, λ r e. (λ y m. cc, λ y h. cc, λ y h. inl cc))
take_objects_lem (q ∷ qs) none =
    let (res, e, h) = take_objects_lem qs (some q.object) in
    (
      res,
      e,
      λ r eq.
          let (every, start, from) = h r eq in
          (
            λ y m. elim (Bool-cases (q.object == y)) [
              | inl same ↦ start y (ground (arith, term_eq.beq_iff q.object y))
              | inr other ↦ every y (ground arith)
            ],
            λ y n. cc,
            λ y ry. inr (ground (arith, from y ry, term_eq.beq_iff q.object y)),
          ),
    )
take_objects_lem (q ∷ qs) (some prev) =
    let (res, e, h) = take_objects_lem qs (some prev) in
    elim (Bool-cases (prev == q.object)) [
      | inr other ↦ (none, rw other refl, λ r eq. cc)
      | inl same ↦
          let e' : prev ≡ q.object = (term_eq.beq_iff prev q.object).0 same in
          (
            res,
            rw same e,
            λ r eq.
                let (every, start, from) = h r eq in
                (
                  λ y m. elim (Bool-cases (q.object == y)) [
                    | inl also ↦ start y (cc (e', (term_eq.beq_iff q.object y).0 also))
                    | inr other ↦ every y (ground arith)
                  ],
                  start,
                  λ y ry. ground (arith, from y ry),
                ),
          )
    ]

module _ (db : QuadStore) (law : IsQuadSet db) (s : db.Store) where
  open law use {contents, matching, pattern_law}

  -- the triple is the only one of the graphs with this subject and this predicate
  abbrev pub Only : List GraphName → Subject → NamedNode → Term → Type 0
  Only graphs x p t =
      (holds (contents s) graphs x p t ≡ true)
      × ((y : Term) → holds (contents s) graphs x p y ≡ true → y ≡ t)

  objects_in_lem :
      (x : Subject) (p : NamedNode) (graphs : List GraphName) (found : Option Term)
      → (res : Option (Option Term)) × (objects_in db s x p found graphs ≡ ok res)
        × ((r : Option Term) → res ≡ some r → Collects found r (holds (contents s) graphs x p))
  unfolding objects_in
  objects_in_lem x p [] found = (some found, refl, λ r e. (λ y m. cc, λ y h. cc, λ y h. inl cc))
  objects_in_lem x p (g ∷ graphs) found =
      let (res, e, h) = take_objects_lem (matching s (some x) (some p) none (some g)) found in
      elim (Option-cases res) [
        | inl nothing ↦ (
          none,
          rw (pattern_law s (some x) (some p) none (some g)) (rw e (rw nothing refl)),
          λ r eq. cc,
        )
        | inr (mid, some_mid) ↦
            let (res', e', h') = objects_in_lem x p graphs mid in
            let (every, start, from) = h mid some_mid in
            (
              res',
              rw (pattern_law s (some x) (some p) none (some g)) (rw e (rw some_mid e')),
              λ r eq.
                  let (every', start', from') = h' r eq in
                  (
                    λ y m. elim (Bool-cases (contains (contents s) (quad x p y g))) [
                      | inl now ↦ start' y (every y (contains-objects db law s x p g y ∙ now))
                      | inr later ↦ every' y (ground arith)
                    ],
                    λ y f. start' y (start y f),
                    λ y ry. elim (from' y ry) [
                      | inr later ↦ inr (ground arith)
                      | inl now ↦ elim (from y now) [
                        | inl f ↦ inl f
                        | inr m ↦ inr (ground (arith, sym (contains-objects db law s x p g y) ∙ m))
                      ]
                    ],
                  ),
            )
      ]

  -- The look-up returns without an error, and an object that it returns is the only one.
  pub only_object_lem :
      (x : Subject) (p : NamedNode) (graphs : List GraphName)
      → (o : Option Term) × (only_object db s x p graphs ≡ ok o)
        × ((t : Term) → o ≡ some t → Only graphs x p t)
  unfolding only_object
  only_object_lem x p graphs =
      let (res, e, h) = objects_in_lem x p graphs none in
      elim (Option-cases res) [
        | inl nothing ↦ (none, rw e (rw nothing refl), λ t eq. cc)
        | inr (r, eq) ↦
            let (every, start, from) = h r eq in
            (
              r,
              rw e (rw eq refl),
              λ t rt. (elim (from t rt) [ inl bad ↦ cc | inr m ↦ m ], λ y m. cc (every y m, rt)),
            )
      ]

  pub list_node_lem :
      (x : Subject) (graphs : List GraphName)
      → (o : Option (Term × Term)) × (list_node db s x graphs ≡ ok o)
        × ((f r : Term) → o ≡ some (f, r) → Only graphs x rdf_first f × Only graphs x rdf_rest r)
  unfolding list_node
  list_node_lem x graphs =
      let (fo, fe, fh) = only_object_lem x rdf_first graphs in
      let (ro, re, rh) = only_object_lem x rdf_rest graphs in
      elim (Option-cases fo) [
        | inl nothing ↦ (none, rw fe (rw nothing refl), λ f r eq. cc)
        | inr (f, ef) ↦ elim (Option-cases ro) [
          | inl nothing ↦ (none, rw fe (rw ef (rw re (rw nothing refl))), λ f r eq. cc)
          | inr (r, er) ↦ (
            some (f, r),
            rw fe (rw ef (rw re (rw er refl))),
            λ f' r' eq. (fh f' (cc (ef, eq)), rh r' (cc (er, eq))),
          )
        ]
      ]
