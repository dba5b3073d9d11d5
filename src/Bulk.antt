-- ===== src/Bulk.antt =====
-- src/functions/rdf_bulk.rs: batched insertion and deletion. A function returns the store as it
-- leaves it, also beside an error.
mod Examples
pub mod Counts
use sqlite_sparql.Prelude.{
  ℕ, ◌+◌, ◌-◌, String, List, [], ◌∷◌, Bool, true, false, Option, none, some, Result, ok, err,
  store_error, or_default,
}
use sqlite_sparql.Rdf.{Quad}
use sqlite_sparql.Oxigraph.{QuadStore, TermParsers, Json}
use sqlite_sparql.Rows.{parse_rows}

module _ (db : QuadStore) (api : TermParsers) (json : Json) where
  open db use {Store, load_quads, remove_quad, len}

  -- the closure of `insert_many`
  unfoldable pub load_counted : Store → List Quad → Store × Result ℕ
  load_counted store quads =
      let before = or_default (len store) 0 in
      let (store', loaded) = load_quads store quads in
      elim loaded [
        | none ↦ (store', err (store_error "{e}"))
        | some _ ↦ (store', ok (or_default (len store') 0 - before))
      ]

  unfoldable pub insert_many : Store → String → Store × Result ℕ
  unfolding load_counted
  insert_many store text = elim (parse_rows api json text) [
    | err e ↦ (store, err e)
    | ok [] ↦ (store, ok 0)
    | ok (q ∷ qs) ↦ load_counted store (q ∷ qs)
  ]

  -- the loop of `delete_many`
  unfoldable pub remove_counted : Store → ℕ → List Quad → Store × Result ℕ
  remove_counted store removed [] = (store, ok removed)
  remove_counted store removed (quad ∷ quads) =
      let (store', result) = remove_quad store quad in
      let next = remove_counted store' (removed + 1) quads in
      let same = remove_counted store' removed quads in
      elim result [
        | some true ↦ next
        | some false ↦ same
        | none ↦ (store', err (store_error "{e}"))
      ]

  unfoldable pub delete_many : Store → String → Store × Result ℕ
  unfolding remove_counted
  delete_many store text = elim (parse_rows api json text) [
    | err e ↦ (store, err e)
    | ok [] ↦ (store, ok 0)
    | ok (q ∷ qs) ↦ remove_counted store 0 (q ∷ qs)
  ]
