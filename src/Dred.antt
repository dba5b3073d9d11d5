-- ===== src/Dred.antt =====
-- src/functions/rdf_dred.rs: the over-delete phase. The store and the index are the two values that
-- the process shares. An `Error::new_message` of the SQLite binding is carried as an
-- `invalid_argument`, since of either only the text reaches SQL.
mod Examples
pub mod Correct
use sqlite_sparql.Prelude.{
  ℕ, String, List, [], ◌∷◌, Bool, true, false, Option, none, some, Result, SparqlError, ok, err,
  invalid_argument, ◌>>=◌, ok_or, HashSet, length, ◌==◌, string_eq, if◌then◌else◌,
}
use sqlite_sparql.Rdf.{Quad}
use sqlite_sparql.Oxigraph.{QuadStore, TermParsers, Json}
use sqlite_sparql.Rows.{parse_retracted_json}
use sqlite_sparql.DependencyIndex.{DependencyIndex, cascade, forget, is_empty}

-- `arg_text_required`: NULL is an error
unfoldable pub arg_text_required : Option String → Result String
arg_text_required v =
    ok_or v (invalid_argument "rdf_dred_overdelete: {name} is required (NULL not allowed)")

abbrev pub no_index : SparqlError
no_index =
    invalid_argument
      "rdf_dred_overdelete: no dependency index — re-run `rdf_owl_rl_materialise` with `track_dependencies: true`"

pub record World (db : QuadStore) : Type 0 where
  pub store : db.Store
  pub index : DependencyIndex

module _ (db : QuadStore) (api : TermParsers) (json : Json) where
  open db use {Store, remove_quad}

  -- `let _ = store.remove(q)` for each quad: an error is ignored
  unfoldable pub remove_all : Store → List Quad → Store
  remove_all store [] = store
  remove_all store (q ∷ qs) = remove_all (remove_quad store q).0 qs

  unfoldable pub forget_all : DependencyIndex → List Quad → DependencyIndex
  forget_all index [] = index
  forget_all index (q ∷ qs) = forget_all (forget index q) qs

  -- what follows the guards
  unfoldable pub overdelete : World db → HashSet Quad → World db × Result ℕ
  unfolding remove_all forget_all
  overdelete w retracted =
      let fallen = cascade w.index retracted in
      (
        record { store = remove_all w.store fallen; index = forget_all w.index fallen },
        ok (length fallen),
      )

  -- the guards, in their order
  unfoldable pub checked_premises : Option String → Option String → Result (HashSet Quad)
  unfolding arg_text_required
  checked_premises inferred retracted_json = do
    inferred_iri ← arg_text_required inferred
    text ← arg_text_required retracted_json
    if inferred_iri == ""
        then err (
            invalid_argument
              "rdf_dred_overdelete: inferred_iri must be a named graph (empty string not allowed)")
        else parse_retracted_json api json text

  -- `rdf_dred_overdelete_fn`
  unfoldable pub rdf_dred_overdelete :
      World db → Option String → Option String → World db × Result ℕ
  unfolding overdelete checked_premises
  rdf_dred_overdelete w inferred retracted_json = elim (checked_premises inferred retracted_json) [
    | err e ↦ (w, err e)
    | ok [] ↦ (w, ok 0)
    | ok (q ∷ qs) ↦ if is_empty w.index then (w, err no_index) else overdelete w (q ∷ qs)
  ]
