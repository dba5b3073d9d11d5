-- ===== src/Oxigraph/Sizes.antt =====
-- How many quads a store holds after a call, from the laws of the store alone.
use sqlite_sparql.Prelude.{
  ℕ, ◌+◌, ◌≤◌, List, ◌≡◌, true, false, contains, remove, length, length-remove, IsDistinct-remove,
  contains-remove, length-le_of_Within, length-eq_of_same, arith,
}
use sqlite_sparql.Rdf.{Quad}
use sqlite_sparql.Rdf.Equality.{quad_eq}
use sqlite_sparql.Oxigraph.{QuadStore, IsQuadSet}

module _ (db : QuadStore) (law : IsQuadSet db) where
  open law use {contents, distinct}

  -- the number of quads
  abbrev pub size : db.Store → ℕ
  size s = length (contents s)

  pub size-remove :
      (s : db.Store) (q : Quad)
      → contains (contents s) q ≡ true
      → size (db.remove_quad s q).0 + 1 ≡ size s
  size-remove s q h = omega (
    arith,
    length-remove (contents s) q (distinct s) h,
    length-eq_of_same (contents (db.remove_quad s q).0) (remove (contents s) q) (distinct _)
        (IsDistinct-remove (contents s) q (distinct s))
        (λ r. ground (arith, law.remove_law s q r, contains-remove (contents s) q r)),
  )

  pub size-remove_absent :
      (s : db.Store) (q : Quad)
      → contains (contents s) q ≡ false
      → size (db.remove_quad s q).0 ≡ size s
  size-remove_absent s q h =
      length-eq_of_same (contents (db.remove_quad s q).0) (contents s) (distinct _) (distinct s)
        (λ r. ground (arith, law.remove_law s q r, quad_eq.beq_iff q r))

  pub size-load : (s : db.Store) (qs : List Quad) → size s ≤ size (db.load_quads s qs).0
  size-load s qs =
      length-le_of_Within (contents s) (contents (db.load_quads s qs).0) (distinct s)
        (λ r m. ground (arith, law.load_law s qs r))
