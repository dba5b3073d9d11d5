-- ===== src/Rdf/Coercions.antt =====
-- The coercions between subjects and terms of src/functions/rdf_owl_rl/rules.rs, which
-- src/functions/rdf_shacl_core/path.rs and validator.rs repeat.
use sqlite_sparql.Prelude.{◌≡◌, refl, ◌↔◌, Option, none, some}
use sqlite_sparql.Rdf.{
  NamedNode, Subject, named_node, blank_node, triple, Term, named_node_term, blank_node_term,
  literal, triple_term,
}

unfoldable pub subj_to_term : Subject → Term
subj_to_term (named_node n) = named_node_term n
subj_to_term (blank_node b) = blank_node_term b
subj_to_term (triple t) = triple_term t

unfoldable pub term_to_subj : Term → Option Subject
term_to_subj (named_node_term n) = some (named_node n)
term_to_subj (blank_node_term b) = some (blank_node b)
term_to_subj (triple_term t) = some (triple t)
term_to_subj (literal l) = none

unfoldable pub term_to_named : Term → Option NamedNode
term_to_named (named_node_term n) = some n
term_to_named _ = none

-- The two coercions are inverse to one another: a term is the image of a subject exactly when it
-- is read back as that subject.
pub term_to_subj_iff : (t : Term) (s : Subject) → (term_to_subj t ≡ some s) ↔ (t ≡ subj_to_term s)
unfolding term_to_subj subj_to_term
term_to_subj_iff (named_node_term n) (named_node m) = (λ h. cc, λ h. cc)
term_to_subj_iff (blank_node_term n) (blank_node m) = (λ h. cc, λ h. cc)
term_to_subj_iff (triple_term n) (triple m) = (λ h. cc, λ h. cc)
term_to_subj_iff (literal l) (named_node m) = (λ h. cc, λ h. cc)
term_to_subj_iff _ _ = (λ h. cc, λ h. cc)

pub subj_to_term-injective : (x y : Subject) → subj_to_term x ≡ subj_to_term y → x ≡ y
subj_to_term-injective x y h =
    let px = (term_to_subj_iff (subj_to_term x) x).1 refl in
    let py = (term_to_subj_iff (subj_to_term x) y).1 h in cc (px, py)
