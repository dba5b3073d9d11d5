-- ===== src/Shacl/Path/Parse/Walk.antt =====
-- The look-ups and the walk along a list of src/functions/rdf_shacl_core/path.rs: what they find, and
-- that the walk ends.
use sqlite_sparql.Prelude.{
  ℕ, zero, suc, ◌+◌, ◌<◌, length, length-le_of_Within, contains-insert, IsDistinct,
  IsDistinct-insert, insert, Within, List, [], ◌∷◌, ◌++◌, ◌≡◌, ◌⊎◌, ◌∙◌, refl, sym, ap, subst, inl,
  inr, arith, true, false, Bool-cases, Option, Option-cases, none, some, map, Result, ok, err,
  contains, ◌==◌, string_eq, contains-map_intro,
}
use sqlite_sparql.Rdf.{NamedNode, Subject, Term, GraphName, Quad}
use sqlite_sparql.Rdf.Equality.{quad_eq, subject_eq, term_eq, graph_name_eq}
use sqlite_sparql.Oxigraph.{QuadStore, IsQuadSet}
use sqlite_sparql.Oxigraph.Sizes.{size}
use sqlite_sparql.Graphs.Holds.{quad, contains-objects}
use sqlite_sparql.Lists.{rdf_first, rdf_rest}
use sqlite_sparql.Shacl.Path.Parse.{
  lookup_object, first_object, walk, walk_list, Cursor, finished, at, no_node, cursor_of,
  literal_node, list_cycle, missing_first, missing_rest,
}

Cursor-cases : (c : Cursor) → (c ≡ finished) ⊎ (c ≡ no_node) ⊎ ((x : Subject) × (c ≡ at x))
Cursor-cases finished = inl refl
Cursor-cases no_node = inr (inl refl)
Cursor-cases (at x) = inr (inr (x, refl))

length-subjects : (qs : List Quad) → length (map (λ q. q.subject) qs) ≡ length qs
length-subjects [] = refl
length-subjects (q ∷ qs) = ap suc (length-subjects qs)

first_object_lem :
    (qs : List Quad)
    → (o : Option Term) × (first_object (map some qs) ≡ ok o)
      × ((t : Term) → o ≡ some t → contains (map (λ q. q.object) qs) t ≡ true)
      × ((t : Term) → o ≡ none → contains (map (λ q. q.object) qs) t ≡ false)
unfolding first_object
first_object_lem [] = (none, refl, λ t e. cc, λ t e. refl)
first_object_lem (q ∷ qs) =
    (some q.object, refl, λ t e. ground (arith, term_eq.beq_iff q.object t), λ t e. cc)

module _ (db : QuadStore) (law : IsQuadSet db) (s : db.Store) (graph : GraphName) where
  open law use {contents, distinct, matching, pattern_law}

  -- The look-up returns, without an error, an object if there is one.
  pub lookup_object_lem :
      (x : Subject) (p : NamedNode)
      → (o : Option Term) × (lookup_object db s graph x p ≡ ok o)
        × ((t : Term) → o ≡ some t → contains (contents s) (quad x p t graph) ≡ true)
        × ((t : Term) → o ≡ none → contains (contents s) (quad x p t graph) ≡ false)
  unfolding lookup_object
  lookup_object_lem x p =
      let (o, e, there, absent) =
        first_object_lem (matching s (some x) (some p) none (some graph)) in
      (
        o,
        ap first_object (pattern_law s (some x) (some p) none (some graph)) ∙ e,
        λ t h. sym (contains-objects db law s x p graph t) ∙ there t h,
        λ t h. sym (contains-objects db law s x p graph t) ∙ absent t h,
      )

  -- one iteration: the walk stops, or reads a value of a node that it has not seen
  walk_step_lem :
      (fuel : ℕ) (seen : List Subject) (t : Term) (out : List Term)
      → ((r : Result (List Term)) × (walk db s graph (suc fuel) seen t out ≡ some r))
        ⊎ ((x : Subject) × (f u : Term) × (walk db s graph (suc fuel) seen t out
              ≡ walk db s graph fuel (insert seen x) u (out ++ f ∷ []))
            × (contains seen x ≡ false)
            × (contains (contents s) (quad x rdf_first f graph) ≡ true))
  unfolding walk
  walk_step_lem fuel seen t out = elim (Cursor-cases (cursor_of t)) [
    | inl e ↦ inl (ok out, rw (e, walk) refl)
    | inr (inl e) ↦ inl (err literal_node, rw (e, walk) refl)
    | inr (inr (x, e)) ↦
        let (fo, ef, there, fa) = lookup_object_lem x rdf_first in
        let (ro, er, rt, ra) = lookup_object_lem x rdf_rest in
        elim (Bool-cases (contains seen x)) [
          | inl again ↦ inl (err list_cycle, rw (e, walk) (rw again refl))
          | inr new ↦ elim (Option-cases fo) [
            | inl nothing ↦
                inl (err missing_first, rw (e, walk) (rw new (rw (ef ∙ ap ok nothing) refl)))
            | inr (f, sf) ↦ elim (Option-cases ro) [
              | inl nothing ↦ inl (
                err missing_rest,
                rw (e, walk) (rw new (rw (ef ∙ ap ok sf) (rw (er ∙ ap ok nothing) refl))),
              )
              | inr (u, su) ↦ inr (
                x,
                f,
                u,
                rw (e, walk) (rw new (rw (ef ∙ ap ok sf) (rw (er ∙ ap ok su) refl))),
                new,
                there f sf,
              )
            ]
          ]
        ]
  ]

  walk-ends :
      (fuel : ℕ) (seen : List Subject) (t : Term) (out : List Term)
      → IsDistinct seen
      → Within seen (map (λ q. q.subject) (contents s))
      → size db law s < fuel + length seen
      → (r : Result (List Term)) × (walk db s graph fuel seen t out ≡ some r)
  unfolding insert
  walk-ends zero seen t out d within enough = ground (
    arith,
    length-le_of_Within seen (map (λ q. q.subject) (contents s)) d within,
    length-subjects (contents s),
  )
  walk-ends (suc fuel) seen t out d within enough = elim (walk_step_lem fuel seen t out) [
    | inl stopped ↦ stopped
    | inr (x, f, u, e, new, m) ↦
        let grown : insert seen x ≡ x ∷ seen = rw new refl in
        let head =
          contains-map_intro (λ (q : Quad). q.subject) (contents s) (quad x rdf_first f graph) m in
        let (r, er) =
          walk-ends fuel (insert seen x) u (out ++ f ∷ []) (IsDistinct-insert seen x d)
            (λ y my. elim (Bool-cases (x == y)) [
              | inl same ↦
                  subst (λ z. contains (map (λ q. q.subject) (contents s)) z ≡ true)
                    ((subject_eq.beq_iff x y).0 same) head
              | inr other ↦ within y (ground (arith, contains-insert seen x y))
            ])
            (rw grown (omega arith)) in
        (r, e ∙ er)
  ]

  -- The walk along a list of paths returns a list or an error on every store and from every term, as
  -- soon as its loop may run once more than the store has quads.
  pub walk_list-returns :
      (fuel : ℕ) (head : Term)
      → size db law s < fuel
      → (r : Result (List Term)) × (walk_list db s graph fuel head ≡ some r)
  unfolding walk_list
  walk_list-returns fuel head enough =
      let (r, e) = walk-ends fuel [] head [] tt (λ a m. cc) (omega arith) in
      elim (Cursor-cases (cursor_of head)) [
        | inl nil ↦ (ok [], rw (nil, walk_list) refl)
        | inr (inl bad) ↦ (r, rw (bad, walk_list) e)
        | inr (inr (x, node)) ↦ (r, rw (node, walk_list) e)
      ]
