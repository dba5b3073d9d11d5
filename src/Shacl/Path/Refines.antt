-- ===== src/Shacl/Path/Refines.antt =====
-- The evaluator of src/functions/rdf_shacl_core/path.rs against the standard's property paths.
use sqlite_sparql.Prelude.{
  ℕ, ◌+◌, ◌<◌, IsDistinct, List, ◌≡◌, ◌↔◌, refl, sym, subst, Bool-cases, false, inl, inr, true,
  some, contains,
}
use sqlite_sparql.Rdf.{
  NamedNode, Subject, named_node, blank_node, triple, Term, named_node_term, blank_node_term,
  triple_term, literal, Literal, GraphName, Quad,
}
use sqlite_sparql.Rdf.Equality.{quad_eq, term_eq}
use sqlite_sparql.Rdf.Coercions.{subj_to_term, subj_to_term-injective}
use sqlite_sparql.Oxigraph.{QuadStore, IsQuadSet}
use sqlite_sparql.Oxigraph.Sizes.{size}
use sqlite_sparql.Graphs.Holds.{quad}
use sqlite_sparql.Shacl.Path.{
  PropertyPath, predicate, inverse, sequence, alternative, zero_or_more, one_or_more, zero_or_one,
  Paths, no_more, part, evaluate,
}
use sqlite_sparql.Shacl.Path.Found.{Star, here, next, Found, FoundAlong, FoundIn}
use sqlite_sparql.Shacl.Path.Standard.{Connects, ConnectsAlong, ConnectsIn}
use sqlite_sparql.Shacl.Path.Exact.{evaluate-Found}

Star-map :
    {A B : Type 0} {R : A → A → Type 0} {S : B → B → Type 0} (f : A → B)
    → ((a b : A) → R a b → S (f a) (f b))
    → {x y : A} → Star R x y
    → Star S (f x) (f y)
Star-map f h here = here
Star-map f h (next s r) = next (Star-map f h s) (h _ _ r)

module _ (contents : List Quad) (graph : GraphName) where
  mutual
    unfolding Found Connects

    Found-Connects :
        (p : PropertyPath) (x : Subject) (t : Term)
        → Found contents graph p x t
        → Connects contents graph p (subj_to_term x) t
    Found-Connects (predicate p) x t h = (x, refl, h)
    Found-Connects (inverse (predicate p)) x t (y, e, h) = (y, e, h)
    Found-Connects (inverse (inverse inner)) x t h = Found-Connects inner x t h
    Found-Connects (inverse other) x t h = absurd h
    Found-Connects (sequence parts) x t h = FoundAlong-Connects parts x t h
    Found-Connects (alternative parts) x t h = FoundIn-Connects parts x t h
    Found-Connects (zero_or_more inner) x t (y, e, s) =
        subst (Star (Connects contents graph inner) (subj_to_term x)) (sym e)
          (Star-map subj_to_term (λ a b r. Found-Connects inner a (subj_to_term b) r) s)
    Found-Connects (one_or_more inner) x t (inl h) = (t, Found-Connects inner x t h, here)
    Found-Connects (one_or_more inner) x t (inr (y, z, e, h, s)) = (
      subj_to_term y,
      Found-Connects inner x (subj_to_term y) h,
      subst (Star (Connects contents graph inner) (subj_to_term y)) (sym e)
          (Star-map subj_to_term (λ a b r. Found-Connects inner a (subj_to_term b) r) s),
    )
    Found-Connects (zero_or_one inner) x t (inl e) = inl e
    Found-Connects (zero_or_one inner) x t (inr h) = inr (Found-Connects inner x t h)

    FoundAlong-Connects :
        (parts : Paths) (x : Subject) (t : Term)
        → FoundAlong contents graph parts x t
        → ConnectsAlong contents graph parts (subj_to_term x) t
    FoundAlong-Connects no_more x t e = e
    FoundAlong-Connects (part p no_more) x t h = (t, Found-Connects p x t h, refl)
    FoundAlong-Connects (part p (part q parts)) x t (y, h, k) = (
      subj_to_term y,
      Found-Connects p x (subj_to_term y) h,
      FoundAlong-Connects (part q parts) y t k,
    )

    FoundIn-Connects :
        (parts : Paths) (x : Subject) (t : Term)
        → FoundIn contents graph parts x t
        → ConnectsIn contents graph parts (subj_to_term x) t
    FoundIn-Connects no_more x t h = absurd h
    FoundIn-Connects (part p parts) x t (inl h) = inl (Found-Connects p x t h)
    FoundIn-Connects (part p parts) x t (inr h) = inr (FoundIn-Connects parts x t h)

-- Every inverse in the path is of a predicate, or of an inverse.
abbrev mutual
  pub IsInvertible : PropertyPath → Type 0
  IsInvertible (predicate p) = Unit
  IsInvertible (inverse (predicate p)) = Unit
  IsInvertible (inverse (inverse inner)) = IsInvertible inner
  IsInvertible (inverse other) = ⊥
  IsInvertible (sequence parts) = AllInvertible parts
  IsInvertible (alternative parts) = AllInvertible parts
  IsInvertible (zero_or_more inner) = IsInvertible inner
  IsInvertible (one_or_more inner) = IsInvertible inner
  IsInvertible (zero_or_one inner) = IsInvertible inner

  pub AllInvertible : Paths → Type 0
  AllInvertible no_more = Unit
  AllInvertible (part p parts) = IsInvertible p × AllInvertible parts

-- the term is no literal
abbrev pub IsNode : Term → Type 0
IsNode t = (y : Subject) × (t ≡ subj_to_term y)

-- No quad of the graph has a literal as its object.
abbrev pub IsLiteralFree : List Quad → GraphName → Type 0
IsLiteralFree contents graph =
    (x y : Subject) (p : NamedNode) (l : Literal)
    → contains contents (quad x p (literal l) graph) ≡ false

literal_no_node : (l : Literal) (y : Subject) → literal l ≡ subj_to_term y → ⊥
unfolding subj_to_term
literal_no_node l (named_node n) h = cc
literal_no_node l (blank_node n) h = cc
literal_no_node l (triple n) h = cc

module _ (contents : List Quad) (graph : GraphName) (free : IsLiteralFree contents graph) where
  object-IsNode :
      (x : Subject) (p : NamedNode) (t : Term)
      → contains contents (quad x p t graph) ≡ true
      → IsNode t
  unfolding subj_to_term
  object-IsNode x p (named_node_term n) h = (named_node n, refl)
  object-IsNode x p (blank_node_term b) h = (blank_node b, refl)
  object-IsNode x p (triple_term u) h = (triple u, refl)
  object-IsNode x p (literal l) h = cc (h, free x x p l)

  -- Without literals in the graph, a path that starts at a node leads to nodes.
  mutual
    unfolding Found

    Found-IsNode :
        (p : PropertyPath) (x : Subject) (t : Term) → Found contents graph p x t → IsNode t
    Found-IsNode (predicate p) x t h = object-IsNode x p t h
    Found-IsNode (inverse (predicate p)) x t (y, e, h) = (y, e)
    Found-IsNode (inverse (inverse inner)) x t h = Found-IsNode inner x t h
    Found-IsNode (inverse other) x t h = absurd h
    Found-IsNode (sequence parts) x t h = FoundAlong-IsNode parts x t h
    Found-IsNode (alternative parts) x t h = FoundIn-IsNode parts x t h
    Found-IsNode (zero_or_more inner) x t (y, e, s) = (y, e)
    Found-IsNode (one_or_more inner) x t (inl h) = Found-IsNode inner x t h
    Found-IsNode (one_or_more inner) x t (inr (y, z, e, h, s)) = (z, e)
    Found-IsNode (zero_or_one inner) x t (inl e) = (x, e)
    Found-IsNode (zero_or_one inner) x t (inr h) = Found-IsNode inner x t h

    FoundAlong-IsNode :
        (parts : Paths) (x : Subject) (t : Term) → FoundAlong contents graph parts x t → IsNode t
    FoundAlong-IsNode no_more x t e = (x, e)
    FoundAlong-IsNode (part p no_more) x t h = Found-IsNode p x t h
    FoundAlong-IsNode (part p (part q parts)) x t (y, h, k) = FoundAlong-IsNode (part q parts) y t k

    FoundIn-IsNode :
        (parts : Paths) (x : Subject) (t : Term) → FoundIn contents graph parts x t → IsNode t
    FoundIn-IsNode no_more x t h = absurd h
    FoundIn-IsNode (part p parts) x t (inl h) = Found-IsNode p x t h
    FoundIn-IsNode (part p parts) x t (inr h) = FoundIn-IsNode parts x t h

  Star-nodes :
      (inner : PropertyPath)
      → ((x : Subject) (t : Term)
          → Connects contents graph inner (subj_to_term x) t
          → Found contents graph inner x t)
      → (x : Subject) {u t : Term} → u ≡ subj_to_term x
      → Star (Connects contents graph inner) u t
      → (y : Subject) × (t ≡ subj_to_term y)
        × Star (λ a b. Found contents graph inner a (subj_to_term b)) x y
  Star-nodes inner complete x e here = (x, e, here)
  Star-nodes inner complete x e (next {y = u} {z = t} s r) =
      let (y, ey, star) = Star-nodes inner complete x e s in
      let h = complete y t (subst (λ w. Connects contents graph inner w t) ey r) in
      let (z, ez) = Found-IsNode inner y t h in
      (z, ez, next star (subst (Found contents graph inner y) ez h))

  mutual
    unfolding Found Connects

    Connects-Found :
        (p : PropertyPath) (x : Subject) (t : Term)
        → IsInvertible p
        → Connects contents graph p (subj_to_term x) t
        → Found contents graph p x t
    Connects-Found (predicate p) x t v (a, e, h) =
        subst (λ y. contains contents (quad y p t graph) ≡ true)
          (sym (subj_to_term-injective x a e)) h
    Connects-Found (inverse (predicate p)) x t v (a, e, h) = (a, e, h)
    Connects-Found (inverse (inverse inner)) x t v h = Connects-Found inner x t v h
    Connects-Found (inverse other) x t v h = absurd v
    Connects-Found (sequence parts) x t v h = ConnectsAlong-Found parts x t v h
    Connects-Found (alternative parts) x t v h = ConnectsIn-Found parts x t v h
    Connects-Found (zero_or_more inner) x t v h =
        Star-nodes inner (λ y u k. Connects-Found inner y u v k) x refl h
    Connects-Found (one_or_more inner) x t v (u, h, s) =
        let first = Connects-Found inner x u v h in
        let (y, ey) = Found-IsNode inner x u first in
        let (z, ez, star) = Star-nodes inner (λ y u k. Connects-Found inner y u v k) y ey s in
        inr (y, z, ez, subst (Found contents graph inner x) ey first, star)
    Connects-Found (zero_or_one inner) x t v (inl e) = inl e
    Connects-Found (zero_or_one inner) x t v (inr h) = inr (Connects-Found inner x t v h)

    ConnectsAlong-Found :
        (parts : Paths) (x : Subject) (t : Term)
        → AllInvertible parts
        → ConnectsAlong contents graph parts (subj_to_term x) t
        → FoundAlong contents graph parts x t
    ConnectsAlong-Found no_more x t v e = e
    ConnectsAlong-Found (part p no_more) x t v (y, h, e) =
        subst (Found contents graph p x) (sym e) (Connects-Found p x y v.0 h)
    ConnectsAlong-Found (part p (part q parts)) x t v (u, h, k) =
        let first = Connects-Found p x u v.0 h in
        let (y, ey) = Found-IsNode p x u first in
        (
          y,
          subst (Found contents graph p x) ey first,
          ConnectsAlong-Found (part q parts) y t v.1
              (subst (λ w. ConnectsAlong contents graph (part q parts) w t) ey k),
        )

    ConnectsIn-Found :
        (parts : Paths) (x : Subject) (t : Term)
        → AllInvertible parts
        → ConnectsIn contents graph parts (subj_to_term x) t
        → FoundIn contents graph parts x t
    ConnectsIn-Found no_more x t v h = absurd h
    ConnectsIn-Found (part p parts) x t v (inl h) = inl (Connects-Found p x t v.0 h)
    ConnectsIn-Found (part p parts) x t v (inr h) = inr (ConnectsIn-Found parts x t v.1 h)

module _ (db : QuadStore) (law : IsQuadSet db) (s : db.Store) (graph : GraphName) where
  open law use {contents}

  -- With rounds for two more than twice the quads of the store, evaluate returns, and every value that
  -- it returns is one that the standard gives to the path, and returned once.
  pub evaluate_sound :
      (rounds : ℕ) (p : PropertyPath) (x : Subject)
      → size db law s + size db law s + 1 < rounds
      → (out : List Term) × (evaluate db s rounds p x graph ≡ some out)
        × IsDistinct out
        × ((t : Term) → contains out t ≡ true → Connects (contents s) graph p (subj_to_term x) t)
  evaluate_sound rounds p x enough =
      let (out, e, d, iff) = evaluate-Found db law s graph rounds p x enough in
      (out, e, d, λ t m. Found-Connects (contents s) graph p x t ((iff t).0 m))

  -- In a graph without literals, and for a path whose inverses are of predicates or of inverses,
  -- evaluate returns, with rounds for two more than twice the quads of the store, exactly the values
  -- that the standard gives to the path, each once.
  pub evaluate-Connects :
      (rounds : ℕ) (p : PropertyPath) (x : Subject)
      → size db law s + size db law s + 1 < rounds
      → IsLiteralFree (contents s) graph
      → IsInvertible p
      → (out : List Term) × (evaluate db s rounds p x graph ≡ some out)
        × IsDistinct out
        × ((t : Term) → (contains out t ≡ true) ↔ Connects (contents s) graph p (subj_to_term x) t)
  evaluate-Connects rounds p x enough free inv =
      let (out, e, d, iff) = evaluate-Found db law s graph rounds p x enough in
      (
        out,
        e,
        d,
        λ t. (
          λ m. Found-Connects (contents s) graph p x t ((iff t).0 m),
          λ h. (iff t).1 (Connects-Found (contents s) graph free p x t inv h),
        ),
      )

  -- With rounds for two more than twice the quads of the store, evaluate returns for zero_or_more of a
  -- predicate and none of the values is a literal object of that predicate at the focus, although the
  -- standard gives the path that value.
  pub zero_or_more-misses :
      (rounds : ℕ) (p : NamedNode) (x : Subject) (l : Literal)
      → size db law s + size db law s + 1 < rounds
      → contains (contents s) (quad x p (literal l) graph) ≡ true
      → (out : List Term) × (evaluate db s rounds (zero_or_more (predicate p)) x graph ≡ some out)
        × (contains out (literal l) ≡ false)
        × Connects (contents s) graph (zero_or_more (predicate p)) (subj_to_term x) (literal l)
  unfolding Connects Found
  zero_or_more-misses rounds p x l enough m =
      let (out, e, d, iff) =
        evaluate-Found db law s graph rounds (zero_or_more (predicate p)) x enough in
      (
        out,
        e,
        elim (Bool-cases (contains out (literal l))) [
          | inr absent ↦ absent
          | inl there ↦
              let (y, ey, star) = (iff (literal l)).0 there in absurd (literal_no_node l y ey)
        ],
        next here (x, refl, m),
      )
