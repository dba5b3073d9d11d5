-- ===== src/Bulk/Counts.antt =====
-- What the batches of src/functions/rdf_bulk.rs do to the store, and the counts that they return.
use sqlite_sparql.Prelude.{
  ℕ, ◌+◌, ◌-◌, String, List, [], ◌∷◌, ◌≡◌, ◌∙◌, sym, ap, ◌⊎◌, ok-injective, length-eq_of_same, refl,
  inl, inr, true, false, not, ◌&&◌, ◌||◌, Result, Result-cases, SparqlError, ok, err, contains,
  arith, Bool-cases,
}
use sqlite_sparql.Rdf.{Quad}
use sqlite_sparql.Rdf.Equality.{quad_eq}
use sqlite_sparql.Oxigraph.{QuadStore, IsQuadSet, TermParsers, Json}
use sqlite_sparql.Oxigraph.Sizes.{size, size-remove, size-remove_absent, size-load}
use sqlite_sparql.Rows.{parse_rows}
use sqlite_sparql.Bulk.{load_counted, insert_many, remove_counted, delete_many}

module _ (db : QuadStore) (law : IsQuadSet db) (api : TermParsers) (json : Json) where
  open law use {contents}

  -- `out` is the store without `quads`, and `n` more than `base` were there
  pub record Removed (s : db.Store) (base : ℕ) (quads : List Quad) (out : db.Store × Result ℕ)
      : Type 0 where
    pub count : ℕ
    pub result : out.1 ≡ ok (base + count)
    pub sizes : size db law out.0 + count ≡ size db law s
    pub members :
        (r : Quad)
        → contains (contents out.0) r ≡ (contains (contents s) r && not (contains quads r))

  remove_counted-hit :
      (q : Quad) (qs : List Quad) (s : db.Store) (base : ℕ)
      → contains (contents s) q ≡ true
      → remove_counted db api json s base (q ∷ qs)
        ≡ remove_counted db api json (db.remove_quad s q).0 (base + 1) qs
  unfolding remove_counted
  remove_counted-hit q qs s base h =
      rw (law.remove_result s q, remove_counted) (rw (h, remove_counted) refl)

  remove_counted-miss :
      (q : Quad) (qs : List Quad) (s : db.Store) (base : ℕ)
      → contains (contents s) q ≡ false
      → remove_counted db api json s base (q ∷ qs)
        ≡ remove_counted db api json (db.remove_quad s q).0 base qs
  unfolding remove_counted
  remove_counted-miss q qs s base h =
      rw (law.remove_result s q, remove_counted) (rw (h, remove_counted) refl)

  remove_counted-Removed :
      (quads : List Quad) (s : db.Store) (base : ℕ)
      → Removed s base quads (remove_counted db api json s base quads)
  remove_counted-Removed [] s base =
      unfold remove_counted in
      record { count = 0; result = ground arith; sizes = omega arith; members = λ r. ground arith }
  remove_counted-Removed (q ∷ qs) s base = elim (Bool-cases (contains (contents s) q)) [
    | inl there ↦
        let h = remove_counted-Removed qs (db.remove_quad s q).0 (base + 1) in
        rw (remove_counted-hit q qs s base there) (record {
          count = h.count + 1;
          result = rw h.result (ground arith);
          sizes = omega (arith, h.sizes, size-remove db law s q there);
          members = λ r. ground (arith, h.members r, law.remove_law s q r, quad_eq.beq_iff q r);
        })
    | inr absent ↦
        let h = remove_counted-Removed qs (db.remove_quad s q).0 base in
        rw (remove_counted-miss q qs s base absent) (record {
          count = h.count;
          result = h.result;
          sizes = omega (arith, h.sizes, size-remove_absent db law s q absent);
          members = λ r. ground (arith, h.members r, law.remove_law s q r, quad_eq.beq_iff q r);
        })
  ]

  -- `out` is the store with `quads`, and `count` of them were not there
  pub record Inserted (s : db.Store) (quads : List Quad) (out : db.Store × Result ℕ) : Type 0 where
    pub count : ℕ
    pub result : out.1 ≡ ok count
    pub sizes : size db law out.0 ≡ size db law s + count
    pub members :
        (r : Quad) → contains (contents out.0) r ≡ (contains quads r || contains (contents s) r)

  load_counted-eq :
      (s : db.Store) (quads : List Quad)
      → load_counted db api json s quads
        ≡ ((db.load_quads s quads).0, ok (size db law (db.load_quads s quads).0 - size db law s))
  unfolding load_counted
  load_counted-eq s quads =
      rw
        (
          law.load_result s quads,
          law.len_law s,
          law.len_law (db.load_quads s quads).0,
          load_counted,
        )
        refl

  load_counted-Inserted :
      (s : db.Store) (quads : List Quad) → Inserted s quads (load_counted db api json s quads)
  load_counted-Inserted s quads = rw (load_counted-eq s quads) (record {
    count = size db law (db.load_quads s quads).0 - size db law s;
    result = refl;
    sizes = omega (arith, size-load db law s quads);
    members = law.load_law s quads;
  })

  insert_many-Inserted :
      (s : db.Store) (text : String) (quads : List Quad)
      → parse_rows api json text ≡ ok quads
      → Inserted s quads (insert_many db api json s text)
  unfolding insert_many
  insert_many-Inserted s text [] h =
      rw (h, insert_many)
        (record { count = 0; result = refl; sizes = omega arith; members = λ r. refl })
  insert_many-Inserted s text (q ∷ qs) h = rw (h, insert_many) (load_counted-Inserted s (q ∷ qs))

  delete_many-Removed :
      (s : db.Store) (text : String) (quads : List Quad)
      → parse_rows api json text ≡ ok quads
      → Removed s 0 quads (delete_many db api json s text)
  unfolding delete_many
  delete_many-Removed s text [] h =
      rw (h, delete_many)
        (record {
          count = 0;
          result = ground arith;
          sizes = omega arith;
          members = λ r. ground arith;
        })
  delete_many-Removed s text (q ∷ qs) h = rw (h, delete_many) (remove_counted-Removed (q ∷ qs) s 0)

  -- A batch is all or nothing. Either the rows are refused, parse_rows returning an error, and then
  -- both functions return that error and leave the store as it was; or all rows are read, and then `insert_many` adds exactly
  -- their quads and `delete_many` removes exactly them, each returning how many quads that changed.
  pub batch_atomic :
      (s : db.Store) (text : String)
      → ((e : SparqlError) × (parse_rows api json text ≡ err e)
          × (insert_many db api json s text ≡ (s, err e))
          × (delete_many db api json s text ≡ (s, err e)))
        ⊎ ((quads : List Quad) × (parse_rows api json text ≡ ok quads)
            × Inserted s quads (insert_many db api json s text)
            × Removed s 0 quads (delete_many db api json s text))
  unfolding insert_many delete_many
  batch_atomic s text = elim (Result-cases (parse_rows api json text)) [
    | inl (quads, h) ↦
        inr (quads, h, insert_many-Inserted s text quads h, delete_many-Removed s text quads h)
    | inr (e, h) ↦ inl (e, h, rw (h, insert_many) refl, rw (h, delete_many) refl)
  ]

  -- Inserting a batch of which nothing was there, and then deleting it, leaves the quads of the
  -- store as they were, and both calls return the same count.
  pub delete_many-insert_many :
      (s : db.Store) (text : String) (quads : List Quad) (n : ℕ)
      → parse_rows api json text ≡ ok quads
      → ((r : Quad) → contains quads r ≡ true → contains (contents s) r ≡ false)
      → (insert_many db api json s text).1 ≡ ok n
      → let s' = (insert_many db api json s text).0 in
        ((delete_many db api json s' text).1 ≡ ok n)
        × ((r : Quad)
            → contains (contents (delete_many db api json s' text).0) r ≡ contains (contents s) r)
  delete_many-insert_many s text quads n parsed fresh h =
      let ins = insert_many-Inserted s text quads parsed in
      let s' = (insert_many db api json s text).0 in
      let del = delete_many-Removed s' text quads parsed in
      let back : (r : Quad)
          → contains (contents (delete_many db api json s' text).0) r ≡ contains (contents s) r =
        λ r. ground (arith, ins.members r, del.members r, fresh r) in
      let sizes =
        length-eq_of_same (contents (delete_many db api json s' text).0) (contents s)
          (law.distinct _) (law.distinct s) back in
      let counted : ins.count ≡ n = ok-injective (sym ins.result ∙ h) in
      (del.result ∙ ap ok (omega (arith, sizes, ins.sizes, del.sizes, counted)), back)
