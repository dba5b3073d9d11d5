-- ===== src/Lists.antt =====
-- src/functions/rdf_owl_rl/rdf_lists.rs: the walk along an RDF list.
mod Examples
pub mod Nodes
pub mod Walk
use sqlite_sparql.Prelude.{
  ℕ, zero, suc, List, [], ◌∷◌, ◌++◌, Bool, true, false, Option, none, some, Result, SparqlError, ok,
  err, store_error, ◌>>=◌, HashSet, contains, insert, ◌==◌, string_eq, if◌then◌else◌,
}
use sqlite_sparql.Rdf.{
  NamedNode, Subject, named_node, blank_node, triple, Term, named_node_term, blank_node_term,
  GraphName, Quad,
}
use sqlite_sparql.Rdf.Equality.{subject_eq, term_eq}
use sqlite_sparql.Oxigraph.{QuadStore}

abbrev pub rdf_first : NamedNode
rdf_first = "http://www.w3.org/1999/02/22-rdf-syntax-ns#first"

abbrev pub rdf_rest : NamedNode
rdf_rest = "http://www.w3.org/1999/02/22-rdf-syntax-ns#rest"

abbrev pub rdf_nil : NamedNode
rdf_nil = "http://www.w3.org/1999/02/22-rdf-syntax-ns#nil"

unfoldable pub subject_is_nil : Subject → Bool
subject_is_nil (named_node n) = n == rdf_nil
subject_is_nil _ = false

-- the term as the next node of a list
unfoldable pub next_cursor : Term → Option Subject
next_cursor (named_node_term n) = some (named_node n)
next_cursor (blank_node_term b) = some (blank_node b)
next_cursor _ = none

-- The loop over the quads of one pattern. The inner option is the variable `first_value`; a result
-- without it is the `return` on an ambiguous node.
unfoldable pub take_objects : Option Term → List (Option Quad) → Result (Option (Option Term))
take_objects found [] = ok (some found)
take_objects found (none ∷ quads) = err (store_error "{e}")
take_objects none (some q ∷ quads) = take_objects (some q.object) quads
take_objects (some prev) (some q ∷ quads) =
    let rest = take_objects (some prev) quads in if prev == q.object then rest else ok none

-- what a step of the walk comes to: the walk's result, or the next node
pub data Step : Type 0 where
  stop : Result (Option (List Term)) → Step
  go : Subject → List Term → Step

module _ (db : QuadStore) (store : db.Store) where
  -- the loop over the graphs around it
  unfoldable pub objects_in :
      Subject → NamedNode → Option Term → List GraphName → Result (Option (Option Term))
  unfolding take_objects
  objects_in x p found [] = ok (some found)
  objects_in x p found (g ∷ graphs) =
      take_objects found (db.quads_for_pattern store (some x) (some p) none (some g)) >>= λ r.
      elim r [ none ↦ ok none | some found' ↦ objects_in x p found' graphs ]

  -- the one object; `none` if it is missing or ambiguous, after either of which the walk returns
  unfoldable pub only_object : Subject → NamedNode → List GraphName → Result (Option Term)
  unfolding objects_in
  only_object x p graphs =
      objects_in x p none graphs >>= λ r. elim r [ none ↦ ok none | some found ↦ ok found ]

  unfoldable pub list_node : Subject → List GraphName → Result (Option (Term × Term))
  unfolding only_object
  list_node x graphs = only_object x rdf_first graphs >>= λ f. elim f [
    | none ↦ ok none
    | some first ↦ only_object x rdf_rest graphs >>= λ r. elim r [
      | none ↦ ok none
      | some rest ↦ ok (some (first, rest))
    ]
  ]

  -- what follows once both values of a node are read
  unfoldable pub after_node : List Term → Result (Option (Term × Term)) → Step
  unfolding next_cursor
  after_node out (err e) = stop (err e)
  after_node out (ok none) = stop (ok none)
  after_node out (ok (some (first, rest))) =
      if rest == named_node_term rdf_nil
      then stop (ok (some (out ++ first ∷ [])))
      else elim (next_cursor rest) [ none ↦ stop (ok none) | some c ↦ go c (out ++ first ∷ []) ]

  -- the body of the loop
  unfoldable pub list_step : List GraphName → HashSet Subject → Subject → List Term → Step
  unfolding list_node after_node
  list_step graphs seen cursor out =
      if contains seen cursor then stop (ok none) else after_node out (list_node cursor graphs)

  -- The loop, on fuel; without fuel it has no result.
  unfoldable pub walk :
      List GraphName
      → ℕ
      → HashSet Subject
      → Subject
      → List Term
      → Option (Result (Option (List Term)))
  unfolding list_step
  walk graphs zero seen cursor out = none
  walk graphs (suc fuel) seen cursor out = elim (list_step graphs seen cursor out) [
    | stop r ↦ some r
    | go c out' ↦ walk graphs fuel (insert seen cursor) c out'
  ]

  unfoldable pub walk_list : ℕ → Subject → List GraphName → Option (Result (Option (List Term)))
  unfolding walk subject_is_nil
  walk_list fuel head graphs =
      if subject_is_nil head then some (ok (some [])) else walk graphs fuel [] head []
