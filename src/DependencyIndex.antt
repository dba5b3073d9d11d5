-- ===== src/DependencyIndex.antt =====
-- src/dependency_index.rs: the derivations that support each inferred quad, and the cascade that
-- finds the quads which lose all of theirs. The proofs are in the modules below.
pub mod Invariant
pub mod Agreement
pub mod Forgetting
pub mod Drain
pub mod Sound
pub mod Exact
pub mod Supported
pub mod Stale
mod Examples
use sqlite_sparql.Prelude.{
  ℕ, zero, suc, ◌+◌, List, [], ◌∷◌, ◌++◌, Bool, true, false, not, ◌&&◌, Option, none, some, HashSet,
  HashMap, any, all, contains, insert, remove, get, put, remove_key, or_default, length, leb,
  if◌then◌else◌,
}
use sqlite_sparql.Rdf.{Quad}
use sqlite_sparql.Rdf.Equality.{quad_eq}

abbrev pub Derivation : Type 0
Derivation = HashSet Quad

pub record DependencyIndex : Type 0 where
  pub derivations : HashMap Quad (List Derivation)
  pub reverse : HashMap Quad (HashSet Quad)

-- `DependencyIndex::default()`
abbrev pub empty_index : DependencyIndex
empty_index = record { derivations = []; reverse = [] }

-- `==` of two sets: equal sizes, and every member of the first is in the second
unfoldable pub same_set : HashSet Quad → HashSet Quad → Bool
same_set d e = leb (length d) (length e) && leb (length e) (length d) && all (contains e) d

-- the loop `for p in &premises` of `record`
unfoldable pub add_reverse :
    HashMap Quad (HashSet Quad) → Quad → List Quad → HashMap Quad (HashSet Quad)
add_reverse rev inferred [] = rev
add_reverse rev inferred (p ∷ ps) =
    add_reverse (put rev p (insert (or_default (get rev p) []) inferred)) inferred ps

-- `record`
unfoldable pub record_derivation : DependencyIndex → Quad → Derivation → DependencyIndex
unfolding same_set add_reverse
record_derivation idx inferred premises =
    let entries = or_default (get idx.derivations inferred) [] in
    if any (λ d. same_set d premises) entries then idx else record {
      derivations = put idx.derivations inferred (entries ++ premises ∷ []);
      reverse = add_reverse idx.reverse inferred premises;
    }

-- The variables of `cascade`. The head of `worklist` is the end of the vector, where `pop` and
-- `push` work.
pub record Cascade : Type 0 where
  pub removed : HashSet Quad
  pub worklist : List Quad
  pub over_deleted : HashSet Quad

-- one derivation still stands: none of its premises is removed
abbrev pub survives : HashSet Quad → Derivation → Bool
survives removed d = all (λ q. not (contains removed q)) d

-- `removed.insert(c); over_deleted.insert(c); worklist.push(c)`
abbrev pub delete : Cascade → Quad → Cascade
delete st c = record {
  removed = insert st.removed c;
  worklist = c ∷ st.worklist;
  over_deleted = insert st.over_deleted c;
}

-- the body of the loop over the candidates
unfoldable pub visit : DependencyIndex → Cascade → Quad → Cascade
visit idx st c = if contains st.removed c then st else (elim (get idx.derivations c) [
  | none ↦ st
  | some ds ↦ if any (survives st.removed) ds then st else delete st c
])

unfoldable pub visit_all : DependencyIndex → Cascade → List Quad → Cascade
unfolding visit
visit_all idx st [] = st
visit_all idx st (c ∷ cs) = visit_all idx (visit idx st c) cs

-- one round of `while let Some(p) = worklist.pop()`
unfoldable pub pop_round : DependencyIndex → Cascade → Quad → List Quad → Cascade
unfolding visit_all
pop_round idx st p rest =
    visit_all idx (record st { worklist = rest }) (or_default (get idx.reverse p) [])

unfoldable pub drain : DependencyIndex → ℕ → Cascade → Cascade
unfolding pop_round
drain idx zero st = st
drain idx (suc fuel) st = elim st.worklist [
  | [] ↦ st
  | p ∷ rest ↦ drain idx fuel (pop_round idx st p rest)
]

abbrev pub start : HashSet Quad → Cascade
start retracted = record { removed = retracted; worklist = retracted; over_deleted = [] }

-- Each round pops one quad, and pushes only keys of `derivations`, each at most once.
abbrev pub enough : DependencyIndex → HashSet Quad → ℕ
enough idx retracted = length retracted + length idx.derivations

unfoldable pub cascade : DependencyIndex → HashSet Quad → HashSet Quad
unfolding drain
cascade idx retracted = (drain idx (enough idx retracted) (start retracted)).over_deleted

-- what is left of an entry of `reverse`: an empty set is dropped
unfoldable pub put_or_drop :
    HashMap Quad (HashSet Quad) → Quad → HashSet Quad → HashMap Quad (HashSet Quad)
put_or_drop rev p [] = remove_key rev p
put_or_drop rev p (x ∷ xs) = put rev p (x ∷ xs)

-- the body of the inner loop of `forget`
unfoldable pub forget_premise :
    HashMap Quad (HashSet Quad) → Quad → Quad → HashMap Quad (HashSet Quad)
unfolding put_or_drop
forget_premise rev inferred p = elim (get rev p) [
  | none ↦ rev
  | some set ↦ put_or_drop rev p (remove set inferred)
]

unfoldable pub forget_derivation :
    HashMap Quad (HashSet Quad) → Quad → List Quad → HashMap Quad (HashSet Quad)
unfolding forget_premise
forget_derivation rev inferred [] = rev
forget_derivation rev inferred (p ∷ ps) =
    forget_derivation (forget_premise rev inferred p) inferred ps

unfoldable pub forget_derivations :
    HashMap Quad (HashSet Quad) → Quad → List Derivation → HashMap Quad (HashSet Quad)
unfolding forget_derivation
forget_derivations rev inferred [] = rev
forget_derivations rev inferred (d ∷ ds) =
    forget_derivations (forget_derivation rev inferred d) inferred ds

unfoldable pub forget : DependencyIndex → Quad → DependencyIndex
unfolding forget_derivations
forget idx inferred = record {
  derivations = remove_key idx.derivations inferred;
  reverse =
      forget_derivations (remove_key idx.reverse inferred) inferred
        (or_default (get idx.derivations inferred) []);
}

unfoldable pub clear : DependencyIndex → DependencyIndex
clear idx = record { derivations = []; reverse = [] }

unfoldable pub is_empty : DependencyIndex → Bool
is_empty idx = elim idx.derivations [ [] ↦ true | _ ∷ _ ↦ false ]
