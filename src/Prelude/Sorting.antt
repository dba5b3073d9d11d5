-- ===== src/Prelude/Sorting.antt =====
-- The order of Rust's `str`, which is that of the code points, and `sort` followed by `dedup`.
use Prim.Native.Char.{code}
use Prim.Native.String.compare as compare_laws
use Prim.Native.String.{String, compare as compare_text}
use Prim.Native.Nat.{ℕ, compare, Ordering}
use text.Mathlib.TextEquality.{path_by_compare}
use text.Mathlib.TextPositions.{compare_refl}
use mathlib.Core.Path.{◌≡◌, refl}
use mathlib.Core.Bool.{Bool, true, false, ◌||◌}
use mathlib.Core.List.{List, [], ◌∷◌}
use native.Mathlib.Omega.{arith}
use sqlite_sparql.Prelude.Tests.{Eq, ◌==◌, if◌then◌else◌}
use sqlite_sparql.Prelude.Sets.{contains}

-- `a < b`
unfoldable pub text_lt : String → String → Bool
text_lt a b = elim (compare_text a b) [ Ordering.lt ↦ true | _ ↦ false ]

reversed : Ordering → Ordering
reversed Ordering.lt = Ordering.gt
reversed Ordering.eq = Ordering.eq
reversed Ordering.gt = Ordering.lt

compare-reversed : (m n : ℕ) → compare m n ≡ reversed (compare n m)
unfolding reversed
compare-reversed m n = ground arith

compare_text-reversed : (s t : String) → compare_text s t ≡ reversed (compare_text t s)
unfolding reversed
compare_text-reversed String.[] String.[] = refl
compare_text-reversed String.[] (String.◌∷◌ d t) =
    rw (compare_laws.nil-cons d t) (rw (compare_laws.cons-nil d t) refl)
compare_text-reversed (String.◌∷◌ c s) String.[] =
    rw (compare_laws.cons-nil c s) (rw (compare_laws.nil-cons c s) refl)
compare_text-reversed (String.◌∷◌ c s) (String.◌∷◌ d t) = rw (compare_laws.cons-cons c d s t) (
    rw (compare_laws.cons-cons d c t s)
      (ground (arith, compare-reversed (code c) (code d), compare_text-reversed s t)))

-- Two texts of which neither is the smaller are equal.
pub text_eq_of_not_lt : (a b : String) → text_lt a b ≡ false → text_lt b a ≡ false → a ≡ b
unfolding text_lt reversed
text_eq_of_not_lt a b h k = path_by_compare a b (ground (arith, compare_text-reversed a b))

pub text_lt_irrefl : (a : String) → text_lt a a ≡ false
unfolding text_lt
text_lt_irrefl a = rw (compare_refl a, text_lt) refl

module _ {A : Type 0} (cmp : A → A → Ordering) where
  unfoldable pub insert_sorted : A → List A → List A
  insert_sorted a [] = a ∷ []
  insert_sorted a (b ∷ bs) = elim (cmp a b) [
    | Ordering.gt ↦ b ∷ insert_sorted a bs
    | _ ↦ a ∷ b ∷ bs
  ]

  -- `v.sort()`
  unfoldable pub sort : List A → List A
  unfolding insert_sorted
  sort [] = []
  sort (a ∷ as_) = insert_sorted a (sort as_)

module _ {A : Type 0} ⦃e : Eq A⦄ where
  -- `v.dedup()`: of equal neighbours the first is kept
  unfoldable pub dedup : List A → List A
  dedup [] = []
  dedup (a ∷ []) = a ∷ []
  dedup (a ∷ b ∷ bs) = let rest = dedup (b ∷ bs) in if a == b then rest else a ∷ rest

  contains-insert_sorted :
      (cmp : A → A → Ordering) (a : A) (bs : List A) (x : A)
      → contains (insert_sorted cmp a bs) x ≡ (a == x || contains bs x)
  unfolding insert_sorted
  contains-insert_sorted cmp a [] x = refl
  contains-insert_sorted cmp a (b ∷ bs) x = ground (arith, contains-insert_sorted cmp a bs x)

  pub contains-sort :
      (cmp : A → A → Ordering) (xs : List A) (x : A) → contains (sort cmp xs) x ≡ contains xs x
  unfolding sort
  contains-sort cmp [] x = refl
  contains-sort cmp (a ∷ xs) x =
      ground (arith, contains-sort cmp xs x, contains-insert_sorted cmp a (sort cmp xs) x)

  pub contains-dedup : (xs : List A) (x : A) → contains (dedup xs) x ≡ contains xs x
  unfolding dedup
  contains-dedup [] x = refl
  contains-dedup (a ∷ []) x = refl
  contains-dedup (a ∷ b ∷ bs) x =
      ground (arith, contains-dedup (b ∷ bs) x, e.beq_iff a b, e.beq_iff b x, e.beq_iff a x)
