-- ===== src/Oxigraph/ListStore.antt =====
-- A store that keeps its quads in a list: an instance of the interface, which the examples use.
use sqlite_sparql.Prelude.{
  List, [], ◌++◌, ◌∷◌, refl, not, some, contains, map, length, to_set, select, contains-select,
  contains-to_set, IsDistinct-select, IsDistinct-to_set, contains-remove, contains-append, remove,
  arith,
}
use sqlite_sparql.Rdf.{Quad}
use sqlite_sparql.Rdf.Equality.{quad_eq, subject_eq, term_eq, graph_name_eq}
use sqlite_sparql.Oxigraph.{QuadStore, IsQuadSet, matches}

abbrev pub list_store : QuadStore
list_store = record {
  Store = List Quad;
  quads_for_pattern = λ s su p o g. map some (select (matches su p o g) (to_set s));
  contains_quad = λ s q. some (contains (to_set s) q);
  insert_quad = λ s q. (q ∷ s, some (not (contains (to_set s) q)));
  remove_quad = λ s q. (remove s q, some (contains (to_set s) q));
  load_quads = λ s qs. (qs ++ s, some tt);
  clear_quads = λ s. ([], some tt);
  len = λ s. some (length (to_set s));
}

abbrev pub list_store-IsQuadSet : IsQuadSet list_store
list_store-IsQuadSet = record {
  contents = λ s. to_set s;
  distinct = λ s. IsDistinct-to_set s;
  matching = λ s su p o g. select (matches su p o g) (to_set s);
  pattern_law = λ s su p o g. refl;
  matching_law = λ s su p o g q. contains-select (matches su p o g) (to_set s) q;
  matching_distinct =
      λ s su p o g. IsDistinct-select (matches su p o g) (to_set s) (IsDistinct-to_set s);
  contains_law = λ s q. refl;
  insert_result = λ s q. refl;
  insert_law = λ s q r. ground (arith, contains-to_set (q ∷ s) r, contains-to_set s r);
  remove_result = λ s q. refl;
  remove_law = λ s q r.
      ground (arith, contains-to_set (remove s q) r, contains-to_set s r, contains-remove s q r);
  load_result = λ s qs. refl;
  load_law = λ s qs r.
      ground (arith, contains-to_set (qs ++ s) r, contains-to_set s r, contains-append qs s r);
  clear_result = λ s. refl;
  clear_law = λ s r. ground (arith, contains-to_set {A = Quad} [] r);
  len_law = λ s. refl;
}
