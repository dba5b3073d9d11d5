-- ===== src/Shacl/Path/Standard.antt =====
-- Property paths as the SHACL recommendation defines them, which src/functions/rdf_shacl_core/path.rs
-- cites: each path is a relation between any two terms, and the inverse of a path is the inverse
-- relation.
use sqlite_sparql.Prelude.{List, ◌≡◌, ◌⊎◌, true, contains}
use sqlite_sparql.Rdf.{Subject, Term, GraphName, Quad}
use sqlite_sparql.Rdf.Equality.{quad_eq}
use sqlite_sparql.Rdf.Coercions.{subj_to_term}
use sqlite_sparql.Graphs.Holds.{quad}
use sqlite_sparql.Shacl.Path.{
  PropertyPath, predicate, inverse, sequence, alternative, zero_or_more, one_or_more, zero_or_one,
  Paths, no_more, part,
}
use sqlite_sparql.Shacl.Path.Found.{Star}

module _ (contents : List Quad) (graph : GraphName) where
  unfoldable mutual
    pub Connects : PropertyPath → Term → Term → Type 0
    Connects (predicate p) x t =
        (a : Subject) × (x ≡ subj_to_term a) × (contains contents (quad a p t graph) ≡ true)
    Connects (inverse inner) x t = Connects inner t x
    Connects (sequence parts) x t = ConnectsAlong parts x t
    Connects (alternative parts) x t = ConnectsIn parts x t
    Connects (zero_or_more inner) x t = Star (Connects inner) x t
    Connects (one_or_more inner) x t = (y : Term) × Connects inner x y × Star (Connects inner) y t
    Connects (zero_or_one inner) x t = (t ≡ x) ⊎ Connects inner x t

    pub ConnectsAlong : Paths → Term → Term → Type 0
    ConnectsAlong no_more x t = t ≡ x
    ConnectsAlong (part p parts) x t = (y : Term) × Connects p x y × ConnectsAlong parts y t

    pub ConnectsIn : Paths → Term → Term → Type 0
    ConnectsIn no_more x t = ⊥
    ConnectsIn (part p parts) x t = Connects p x t ⊎ ConnectsIn parts x t
