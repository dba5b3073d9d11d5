-- ===== src/Shacl/Path/Parse/Diverges.antt =====
-- The recursion of `Path::parse` in src/functions/rdf_shacl_core/path.rs follows the shapes graph, and
-- nothing stops it on a circle.
use sqlite_sparql.Prelude.{
  List, ℕ, zero, suc, ◌≡◌, ◌∙◌, refl, ap, true, inl, inr, Option-cases, none, some, ok, contains,
  string_eq,
}
use sqlite_sparql.Rdf.{BlankNode, blank_node, Term, blank_node_term, GraphName}
use sqlite_sparql.Rdf.Equality.{quad_eq, subject_eq, term_eq, graph_name_eq}
use sqlite_sparql.Oxigraph.{QuadStore, IsQuadSet}
use sqlite_sparql.Graphs.Holds.{quad}
use sqlite_sparql.Shacl.Path.Parse.{parse, parse_blank, sh_inverse_path}
use sqlite_sparql.Shacl.Path.Parse.Walk.{lookup_object_lem}

module _ (db : QuadStore) (law : IsQuadSet db) (s : db.Store) (graph : GraphName) where
  open law use {contents}

  -- When each blank node of a ring has one value of `sh:inversePath`, a blank node of the ring, no
  -- amount of fuel gives parse a result at any of them: the recursion does not end.
  pub parse_diverges :
      (ring : List BlankNode) (succ : BlankNode → BlankNode)
      → ((c : BlankNode)
          → contains ring c ≡ true
          → (contains ring (succ c) ≡ true)
            × (contains
                  (contents s)
                  (quad (blank_node c) sh_inverse_path (blank_node_term (succ c)) graph)
                ≡ true)
            × ((t : Term)
                → contains (contents s) (quad (blank_node c) sh_inverse_path t graph) ≡ true
                → t ≡ blank_node_term (succ c)))
      → (b : BlankNode) → contains ring b ≡ true
      → (fuel : ℕ) → parse db s graph fuel (blank_node_term b) ≡ none
  unfolding parse parse_blank
  parse_diverges ring succ closed b m zero = refl
  parse_diverges ring succ closed b m (suc fuel) =
      let (m', there, only) = closed b m in
      let (o, e, found, absent) = lookup_object_lem db law s graph (blank_node b) sh_inverse_path in
      elim (Option-cases o) [
        | inl nothing ↦ cc (absent (blank_node_term (succ b)) nothing, there)
        | inr (t, et) ↦
            let inner = e ∙ ap ok (et ∙ ap some (only t (found t et))) in
            rw inner (rw (parse_diverges ring succ closed (succ b) m' fuel) refl)
      ]
