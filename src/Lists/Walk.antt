-- ===== src/Lists/Walk.antt =====
-- The walk along an RDF list: it ends, and what it returns is the list that the store encodes.
use sqlite_sparql.Prelude.{
  ℕ, zero, suc, ◌+◌, ◌<◌, length, length-le_of_Within, contains-insert, IsDistinct,
  IsDistinct-insert, insert, Within, List, [], ◌∷◌, ◌++◌, ◌≡◌, ◌≢◌, ◌⊎◌, refl, ap, subst, inl, inr,
  arith, true, false, Bool-cases, Option, Option-cases, none, some, map, Result, ok, contains, ◌==◌,
  string_eq, contains-map_intro, any_elim,
}
use sqlite_sparql.Rdf.{Subject, Term, named_node_term, GraphName, Quad}
use sqlite_sparql.Rdf.Equality.{quad_eq, subject_eq, term_eq, graph_name_eq}
use sqlite_sparql.Oxigraph.{QuadStore, IsQuadSet}
use sqlite_sparql.Oxigraph.Sizes.{size}
use sqlite_sparql.Graphs.Holds.{quad, holds}
use sqlite_sparql.Lists.{
  Step, stop, go, next_cursor, list_step, after_node, walk, walk_list, subject_is_nil, rdf_first,
  rdf_rest, rdf_nil,
}
use sqlite_sparql.Lists.Nodes.{Only, list_node_lem}

Step-cases :
    (st : Step)
    → ((r : Result (Option (List Term))) × (st ≡ stop r))
      ⊎ ((c : Subject) × (out : List Term) × (st ≡ go c out))
Step-cases (stop r) = inl (r, refl)
Step-cases (go c out) = inr (c, out, refl)

length-subjects : (qs : List Quad) → length (map (λ q. q.subject) qs) ≡ length qs
length-subjects [] = refl
length-subjects (q ∷ qs) = ap suc (length-subjects qs)

module _ (db : QuadStore) (law : IsQuadSet db) (s : db.Store) (graphs : List GraphName) where
  open law use {contents, distinct}

  -- the node heads a list of these values: at every node of it there is one value and one rest
  pub data Chain : Subject → List Term → Type 0 where
    last :
        {x : Subject} {f : Term}
        → Only db law s graphs x rdf_first f
        → Only db law s graphs x rdf_rest (named_node_term rdf_nil)
        → Chain x (f ∷ [])
    link :
        {x c : Subject} {f r : Term} {ts : List Term}
        → Only db law s graphs x rdf_first f
        → Only db law s graphs x rdf_rest r
        → r ≢ named_node_term rdf_nil
        → next_cursor r ≡ some c
        → Chain c ts
        → Chain x (f ∷ ts)

  -- one iteration: it stops with a list of one more value, or goes on from the rest
  list_step_lem :
      (seen : List Subject) (x : Subject) (out : List Term)
      → ((o : Option (List Term)) × (list_step db s graphs seen x out ≡ stop (ok o))
          × ((ts : List Term)
              → o ≡ some ts
              → (f : Term) × (ts ≡ out ++ f ∷ [])
                × Only db law s graphs x rdf_first f
                × Only db law s graphs x rdf_rest (named_node_term rdf_nil)))
        ⊎ ((c : Subject) × (f r : Term) × (list_step db s graphs seen x out ≡ go c (out ++ f ∷ []))
            × (contains seen x ≡ false)
            × Only db law s graphs x rdf_first f
            × Only db law s graphs x rdf_rest r
            × (r ≢ named_node_term rdf_nil)
            × (next_cursor r ≡ some c))
  unfolding list_step after_node
  list_step_lem seen x out =
      let (o, e, h) = list_node_lem db law s x graphs in
      elim (Bool-cases (contains seen x)) [
        | inl again ↦ inl (none, rw again refl, λ ts eq. cc)
        | inr new ↦ elim (Option-cases o) [
          | inl nothing ↦ inl (none, rw new (rw e (rw nothing refl)), λ ts eq. cc)
          | inr ((f, r), eq) ↦
              let (of, or) = h f r eq in
              elim (Bool-cases (r == named_node_term rdf_nil)) [
                | inl nil ↦ inl (
                  some (out ++ f ∷ []),
                  rw new (rw e (rw eq (rw nil refl))),
                  λ ts et. (
                    f,
                    cc et,
                    of,
                    subst (Only db law s graphs x rdf_rest) ((term_eq.beq_iff r _).0 nil) or,
                  ),
                )
                | inr more ↦ elim (Option-cases (next_cursor r)) [
                  | inl literal ↦
                      inl (none, rw new (rw e (rw eq (rw more (rw literal refl)))), λ ts et. cc)
                  | inr (c, ec) ↦ inr (
                    c,
                    f,
                    r,
                    rw new (rw e (rw eq (rw more (rw ec refl)))),
                    new,
                    of,
                    or,
                    λ same. cc ((term_eq.beq_iff r (named_node_term rdf_nil)).1 same, more),
                    ec,
                  )
                ]
              ]
        ]
      ]

  -- a node with a value is the subject of a quad of the store
  subject_of :
      (x : Subject) (f : Term)
      → holds (contents s) graphs x rdf_first f ≡ true
      → contains (map (λ q. q.subject) (contents s)) x ≡ true
  subject_of x f h =
      let (g, mg, m) = any_elim (λ g. contains (contents s) (quad x rdf_first f g)) graphs h in
      contains-map_intro (λ q. q.subject) (contents s) (quad x rdf_first f g) m

  -- Fuel for as many nodes as the store has quads, less those seen, is enough.
  walk-ends :
      (fuel : ℕ) (seen : List Subject) (x : Subject) (out : List Term)
      → IsDistinct seen
      → Within seen (map (λ q. q.subject) (contents s))
      → size db law s < fuel + length seen
      → (o : Option (List Term)) × (walk db s graphs fuel seen x out ≡ some (ok o))
  unfolding walk insert
  walk-ends zero seen x out distinct within enough = ground (
    arith,
    length-le_of_Within seen (map (λ q. q.subject) (contents s)) distinct within,
    length-subjects (contents s),
  )
  walk-ends (suc fuel) seen x out distinct within enough = elim (list_step_lem seen x out) [
    | inl (r, e, found) ↦ (r, rw (e, walk) refl)
    | inr (c, f, r, e, new, of, or, more, ec) ↦
        let head = subject_of x f of.0 in
        let more_seen : insert seen x ≡ x ∷ seen = rw new refl in
        rw (e, walk)
          (walk-ends fuel (insert seen x) c (out ++ f ∷ []) (IsDistinct-insert seen x distinct)
            (λ y m. elim (Bool-cases (x == y)) [
              | inl same ↦
                  subst (λ z. contains (map (λ q. q.subject) (contents s)) z ≡ true)
                    ((subject_eq.beq_iff x y).0 same) head
              | inr other ↦ within y (ground (arith, contains-insert seen x y))
            ])
            (rw more_seen (omega arith)))
  ]

  -- `walk_list` returns a list or nothing, without an error, as soon as its loop may run once more than
  -- the store has quads: the walk ends, on every store and every node.
  pub walk_list-ends :
      (head : Subject) (fuel : ℕ)
      → size db law s < fuel
      → (o : Option (List Term)) × (walk_list db s fuel head graphs ≡ some (ok o))
  unfolding walk_list
  walk_list-ends head fuel enough = elim (Bool-cases (subject_is_nil head)) [
    | inl nil ↦ (some [], rw nil refl)
    | inr node ↦
        let (r, e) = walk-ends fuel [] head [] tt (λ a m. cc) (omega arith) in (r, rw node e)
  ]
