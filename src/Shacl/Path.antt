-- ===== src/Shacl/Path.antt =====
-- The property paths of src/functions/rdf_shacl_core/path.rs: their values in the data graph.
pub mod Closure
pub mod Absorbed
pub mod Found
pub mod FirstHop
pub mod Exact
pub mod Steps
pub mod Repeated
pub mod Standard
pub mod Refines
pub mod Parse
use sqlite_sparql.Prelude.{
  ℕ, zero, suc, List, [], ◌∷◌, ◌++◌, Option, none, some, HashSet, contains, insert, ◌==◌, string_eq,
  if◌then◌else◌,
}
use sqlite_sparql.Rdf.{NamedNode, Subject, Term, GraphName, Quad}
use sqlite_sparql.Rdf.Equality.{subject_eq, term_eq}
use sqlite_sparql.Rdf.Coercions.{subj_to_term, term_to_subj}
use sqlite_sparql.Oxigraph.{QuadStore}

mutual
  pub data PropertyPath : Type 0 where
    predicate : NamedNode → PropertyPath
    inverse : PropertyPath → PropertyPath
    sequence : Paths → PropertyPath
    alternative : Paths → PropertyPath
    zero_or_more : PropertyPath → PropertyPath
    one_or_more : PropertyPath → PropertyPath
    zero_or_one : PropertyPath → PropertyPath

  -- `Vec<Path>`
  pub data Paths : Type 0 where
    no_more : Paths
    part : PropertyPath → Paths → Paths

-- `none` is a loop that has used up its rounds.
infixl 5 ◌>>=◌
abbrev pub ◌>>=◌ {ℓ κ} : {A : Type ℓ} {B : Type κ} → Option A → (A → Option B) → Option B
none >>= f = none
some a >>= f = f a

-- `for x in xs { out.extend(body(x)) }`, where the body may use up its rounds
unfoldable pub each_some {ℓ κ} :
    {A : Type ℓ} {B : Type κ} → List A → (A → Option (List B)) → Option (List B)
each_some [] body = some []
each_some (x ∷ xs) body = body x >>= λ out. each_some xs body >>= λ rest. some (out ++ rest)

-- `if let Ok(q) = q { out.push(pick(q)) }`, over the quads of a pattern
unfoldable pub collect_ok : (Quad → Term) → List (Option Quad) → List Term
collect_ok pick [] = []
collect_ok pick (none ∷ quads) = collect_ok pick quads
collect_ok pick (some q ∷ quads) = pick q ∷ collect_ok pick quads

-- the values that are nodes: `if let Some(s) = term_to_subject(&v) { next.push(s) }`
unfoldable pub nodes_among : List Term → List Subject
nodes_among [] = []
nodes_among (v ∷ vs) =
    let rest = nodes_among vs in elim (term_to_subj v) [ none ↦ rest | some s ↦ s ∷ rest ]

-- the variables of the loop of a closure
pub record Rounds : Type 0 where
  pub visited : HashSet Subject
  pub next : List Subject
  pub out : List Term

-- one value of a round: a node that is new is visited next, and is a result
unfoldable pub absorb : Rounds → Term → Rounds
absorb st v = elim (term_to_subj v) [
  | none ↦ st
  | some s ↦ if contains st.visited s then st else record {
    visited = insert st.visited s;
    next = st.next ++ s ∷ [];
    out = st.out ++ v ∷ [];
  }
]

unfoldable pub absorb_all : Rounds → List Term → Rounds
unfolding absorb
absorb_all st [] = st
absorb_all st (v ∷ vs) = absorb_all (absorb st v) vs

-- the loop over the frontier
unfoldable pub round : (Subject → Option (List Term)) → List Subject → Rounds → Option Rounds
unfolding absorb_all
round step [] st = some st
round step (f ∷ frontier) st = step f >>= λ vs. round step frontier (absorb_all st vs)

-- The loop of a closure, on as many rounds as it is given.
unfoldable pub closure :
    (Subject → Option (List Term)) → ℕ → List Subject → Rounds → Option (List Term)
unfolding round
closure step zero frontier st = none
closure step (suc rounds) frontier st = round step frontier (record st { next = [] }) >>= λ st'.
    elim st'.next [ [] ↦ some st'.out | f ∷ fs ↦ closure step rounds (f ∷ fs) st' ]

-- the first hop of `one_or_more`, whose results may be literals
unfoldable pub first_hop : Rounds → List Term → Rounds
unfolding absorb
first_hop st [] = st
first_hop st (v ∷ vs) = elim (term_to_subj v) [
  | none ↦ first_hop (record st { out = st.out ++ v ∷ [] }) vs
  | some s ↦ first_hop (absorb st v) vs
]

module _ (db : QuadStore) (store : db.Store) (graph : GraphName) where
  unfoldable pub predicate_step : Subject → NamedNode → List Term
  unfolding collect_ok
  predicate_step focus p =
      collect_ok (λ q. q.object)
        (db.quads_for_pattern store (some focus) (some p) none (some graph))

  unfoldable pub inverse_predicate_step : Subject → NamedNode → List Term
  unfolding collect_ok
  inverse_predicate_step focus p =
      collect_ok (λ q. subj_to_term q.subject)
        (db.quads_for_pattern store none (some p) (some (subj_to_term focus)) (some graph))

  module _ (rounds : ℕ) where
    unfoldable mutual
      unfolding predicate_step inverse_predicate_step closure each_some nodes_among first_hop

      pub eval_impl : PropertyPath → Subject → Option (List Term)
      eval_impl (predicate p) focus = some (predicate_step focus p)
      eval_impl (inverse (predicate p)) focus = some (inverse_predicate_step focus p)
      eval_impl (inverse (inverse inner2)) focus = eval_impl inner2 focus
      eval_impl (inverse other) focus = some []
      eval_impl (sequence parts) focus =
          frontier parts (focus ∷ []) >>= λ discarded. last_values parts focus (focus ∷ [])
      eval_impl (alternative parts) focus = branches parts focus
      eval_impl (zero_or_more inner) focus =
          closure (eval_impl inner) rounds (focus ∷ [])
            (record { visited = focus ∷ []; next = []; out = subj_to_term focus ∷ [] })
      eval_impl (one_or_more inner) focus = eval_impl inner focus >>= λ initial.
          let st = first_hop (record { visited = []; next = []; out = [] }) initial in
          closure (eval_impl inner) rounds st.next st
      eval_impl (zero_or_one inner) focus =
          eval_impl inner focus >>= λ out. some (subj_to_term focus ∷ out)

      -- The first loop of a sequence. Its result is never read.
      pub frontier : Paths → List Subject → Option (List Subject)
      frontier no_more fs = some fs
      frontier (part p parts) fs =
          each_some fs (eval_impl p) >>= λ vs. frontier parts (nodes_among vs)

      -- The second loop of a sequence, and its last hop.
      pub last_values : Paths → Subject → List Subject → Option (List Term)
      last_values no_more focus fs = some (subj_to_term focus ∷ [])
      last_values (part p no_more) focus fs = each_some fs (eval_impl p)
      last_values (part p (part q parts)) focus fs =
          each_some fs (eval_impl p) >>= λ vs. last_values (part q parts) focus (nodes_among vs)

      pub branches : Paths → Subject → Option (List Term)
      branches no_more focus = some []
      branches (part p parts) focus =
          eval_impl p focus >>= λ out. branches parts focus >>= λ rest. some (out ++ rest)

-- `if seen.insert(t.clone()) { out.push(t) }`, over the values
unfoldable pub without_repeats : HashSet Term → List Term → List Term
without_repeats seen [] = []
without_repeats seen (t ∷ ts) =
    let rest = without_repeats (insert seen t) ts in if contains seen t then rest else t ∷ rest

unfoldable pub evaluate :
    (db : QuadStore) → db.Store → ℕ → PropertyPath → Subject → GraphName → Option (List Term)
unfolding eval_impl without_repeats
evaluate db store rounds path focus graph =
    eval_impl db store graph rounds path focus >>= λ values. some (without_repeats [] values)
