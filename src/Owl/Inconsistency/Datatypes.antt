-- ===== src/Owl/Inconsistency/Datatypes.antt =====
-- The detector dt-not-type of src/functions/rdf_owl_rl/inconsistency.rs.
use sqlite_sparql.Prelude.{
  List, [], ◌∷◌, Bool, true, false, not, ◌||◌, Option, none, some, Result, ok, ◌>>=◌, each,
  contains, ◌==◌, string_eq, if◌then◌else◌, parse_i64, parse_u64, ℤ, pos, negsuc, ◌is◌,
}
use sqlite_sparql.Rdf.{NamedNode, Subject, Term, Literal, literal, GraphName}
use sqlite_sparql.Rdf.Equality.{subject_eq, term_eq}
use sqlite_sparql.Oxigraph.{QuadStore}
use sqlite_sparql.Graphs.{all_quads}
use sqlite_sparql.Owl.Inconsistency.{ViolationRecord, record_of, sort_and_return, Display, nt_named}

-- the datatypes that the source lists for `i64`, and for `u64`
abbrev pub signed_types : List NamedNode
signed_types =
    "http://www.w3.org/2001/XMLSchema#integer" ∷ "http://www.w3.org/2001/XMLSchema#long"
    ∷ "http://www.w3.org/2001/XMLSchema#int" ∷ "http://www.w3.org/2001/XMLSchema#short"
    ∷ "http://www.w3.org/2001/XMLSchema#byte" ∷ []

abbrev pub unsigned_types : List NamedNode
unsigned_types =
    "http://www.w3.org/2001/XMLSchema#nonNegativeInteger"
    ∷ "http://www.w3.org/2001/XMLSchema#unsignedLong"
    ∷ "http://www.w3.org/2001/XMLSchema#unsignedInt"
    ∷ "http://www.w3.org/2001/XMLSchema#unsignedShort"
    ∷ "http://www.w3.org/2001/XMLSchema#unsignedByte" ∷ []

-- `r.is_err()`
abbrev pub is_none {ℓ} : {A : Type ℓ} → Option A → Bool
is_none none = true
is_none (some a) = false

-- `r.map(p).unwrap_or(true)`
abbrev pub fails_or {ℓ} : {A : Type ℓ} → (A → Bool) → Option A → Bool
fails_or p none = true
fails_or p (some a) = p a

abbrev pub is_positive : ℤ → Bool
is_positive (pos n) = not (n is 0)
is_positive (negsuc n) = false

abbrev pub is_nonnegative : ℤ → Bool
is_nonnegative (pos n) = true
is_nonnegative (negsuc n) = false

unfoldable pub literal_violates_datatype : Literal → Bool
unfolding parse_i64 parse_u64
literal_violates_datatype lit =
    let dt = lit.datatype in
    let v = lit.value in
    if contains signed_types dt
    then is_none (parse_i64 v)
    else if contains unsigned_types dt
    then is_none (parse_u64 v)
    else if dt == "http://www.w3.org/2001/XMLSchema#positiveInteger"
    then fails_or (λ n. n is 0) (parse_u64 v)
    else if dt == "http://www.w3.org/2001/XMLSchema#nonPositiveInteger"
    then fails_or is_positive (parse_i64 v)
    else if dt == "http://www.w3.org/2001/XMLSchema#negativeInteger"
    then fails_or is_nonnegative (parse_i64 v)
    else if dt == "http://www.w3.org/2001/XMLSchema#boolean"
    then not (v == "true" || v == "false" || v == "0" || v == "1")
    else false

module _ (db : QuadStore) (store : db.Store) (text : Display) where
  open text use {nt_subject, nt_term}

  -- the body for one triple: `let Term::Literal(lit) = &o else { continue }`
  unfoldable pub datatype_violation : Subject × (NamedNode × Term) → List ViolationRecord
  unfolding literal_violates_datatype
  datatype_violation (s, (p, literal lit)) =
      if literal_violates_datatype lit
      then record_of "dt-not-type" (nt_subject s) (nt_named p) (nt_term (literal lit)) ∷ []
      else []
  datatype_violation _ = []

  unfoldable pub detect_dt_not_type : GraphName → GraphName → Result (List ViolationRecord)
  unfolding datatype_violation
  detect_dt_not_type a i = do
    quads ← all_quads db store a i
    ok (sort_and_return (each quads datatype_violation))
