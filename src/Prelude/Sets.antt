-- ===== src/Prelude/Sets.antt =====
-- `HashSet` as a list. Its order stands for the unspecified order of iteration.
use mathlib.Core.Path.{◌≡◌, refl, sym, ap, subst}
use mathlib.Core.Logic.{◌↔◌, inl, inr}
use mathlib.Core.Bool.{Bool, true, false, ◌&&◌, ◌||◌}
use mathlib.Core.List.{List, map, [], ◌∷◌, ◌++◌}
use Prim.Native.Nat.{suc, ◌≤◌}
use native.Mathlib.Omega.{arith}
use mathlib.Core.List.{Memᴰ}
use sqlite_sparql.Prelude.Tests.{Eq, ◌==◌, Bool-cases, length, if◌then◌else◌}

abbrev pub HashSet {ℓ} : Type ℓ → Type ℓ
HashSet A = List A

module _ {ℓ} {A : Type ℓ} where
  -- `iter().any(p)`, `iter().all(p)`
  abbrev pub any : (A → Bool) → List A → Bool
  any p [] = false
  any p (x ∷ xs) = p x || any p xs

  abbrev pub all : (A → Bool) → List A → Bool
  all p [] = true
  all p (x ∷ xs) = p x && all p xs

  pub any-mem : (p : A → Bool) (xs : List A) → any p xs ≡ true → (a : A) × Memᴰ a xs × (p a ≡ true)
  any-mem p [] h = cc
  any-mem p (x ∷ xs) h = elim (Bool-cases (p x)) [
    | inl now ↦ (x, Memᴰ.head refl, now)
    | inr later ↦ let (a, m, pa) = any-mem p xs (ground arith) in (a, Memᴰ.tail m, pa)
  ]

  pub any-of_mem : (p : A → Bool) (a : A) {xs : List A} → Memᴰ a xs → p a ≡ true → any p xs ≡ true
  any-of_mem p a (Memᴰ.head {xs = xs} e) h = rw (← e, h)
  any-of_mem p a (Memᴰ.tail {x = x} m) h = ground (arith, any-of_mem p a m h)

  pub all-mem : (p : A → Bool) (a : A) {xs : List A} → all p xs ≡ true → Memᴰ a xs → p a ≡ true
  all-mem p a h (Memᴰ.head {x = x} {xs = xs} e) = rw e (ground arith)
  all-mem p a h (Memᴰ.tail m) = all-mem p a (ground arith) m

module _ {ℓ} {A : Type ℓ} ⦃e : Eq A⦄ where
  abbrev pub contains : List A → A → Bool
  contains [] a = false
  contains (x ∷ xs) a = x == a || contains xs a

  unfoldable pub insert : HashSet A → A → HashSet A
  insert s a = if contains s a then s else a ∷ s

  unfoldable pub remove : HashSet A → A → HashSet A
  remove [] a = []
  remove (x ∷ xs) a = let rest = remove xs a in if x == a then rest else x ∷ rest

  -- `collect()` into a set
  unfoldable pub to_set : List A → HashSet A
  unfolding insert
  to_set [] = []
  to_set (x ∷ xs) = insert (to_set xs) x

  -- Every member of the first list is a member of the second.
  abbrev pub Within : List A → List A → Type ℓ
  Within xs ys = (a : A) → contains xs a ≡ true → contains ys a ≡ true

  pub contains-insert :
      (s : HashSet A) (a b : A) → contains (insert s a) b ≡ (a == b || contains s b)
  unfolding insert
  contains-insert s a b = ground (arith, e.beq_iff a b)

  pub contains-remove :
      (s : HashSet A) (a b : A) → contains (remove s a) b ≡ (if a == b then false else contains s b)
  unfolding remove
  contains-remove [] a b = ground arith
  contains-remove (x ∷ xs) a b =
      ground (arith, contains-remove xs a b, e.beq_iff a b, e.beq_iff x b, e.beq_iff x a)

  pub contains-to_set : (xs : List A) (b : A) → contains (to_set xs) b ≡ contains xs b
  unfolding to_set
  contains-to_set [] b = refl
  contains-to_set (x ∷ xs) b = ground (arith, contains-to_set xs b, contains-insert (to_set xs) x b)

  pub contains-append :
      (xs ys : List A) (b : A) → contains (xs ++ ys) b ≡ (contains xs b || contains ys b)
  contains-append [] ys b = refl
  contains-append (x ∷ xs) ys b = ground (arith, contains-append xs ys b)

  -- `iter().any(p)` finds a member.
  pub any_elim :
      (p : A → Bool) (xs : List A)
      → any p xs ≡ true
      → (a : A) × (contains xs a ≡ true) × (p a ≡ true)
  any_elim p [] h = cc
  any_elim p (x ∷ xs) h = elim (Bool-cases (p x)) [
    | inl now ↦ (x, ground (arith, e.beq_iff x x), now)
    | inr later ↦ let (a, m, pa) = any_elim p xs (ground arith) in (a, ground arith, pa)
  ]

  pub any_intro :
      (p : A → Bool) (xs : List A) (a : A) → contains xs a ≡ true → p a ≡ true → any p xs ≡ true
  any_intro p [] a m h = cc
  any_intro p (x ∷ xs) a m h = elim (Bool-cases (x == a)) [
    | inl same ↦ rw ((e.beq_iff x a).0 same, h)
    | inr other ↦ ground (arith, any_intro p xs a (ground arith) h)
  ]

  pub all_elim :
      (p : A → Bool) (xs : List A) (a : A) → all p xs ≡ true → contains xs a ≡ true → p a ≡ true
  all_elim p [] a h m = cc
  all_elim p (x ∷ xs) a h m = elim (Bool-cases (x == a)) [
    | inl same ↦ rw (← (e.beq_iff x a).0 same) (ground arith)
    | inr other ↦ all_elim p xs a (ground arith) (ground arith)
  ]

  -- `iter().all(p)` fails at a member.
  pub all_counter :
      (p : A → Bool) (xs : List A)
      → all p xs ≡ false
      → (a : A) × (contains xs a ≡ true) × (p a ≡ false)
  all_counter p [] h = cc
  all_counter p (x ∷ xs) h = elim (Bool-cases (p x)) [
    | inr now ↦ (x, ground (arith, e.beq_iff x x), now)
    | inl later ↦ let (a, m, pa) = all_counter p xs (ground arith) in (a, ground arith, pa)
  ]

  pub all_intro :
      (p : A → Bool) (xs : List A) → ((a : A) → contains xs a ≡ true → p a ≡ true) → all p xs ≡ true
  all_intro p [] h = refl
  all_intro p (x ∷ xs) h =
      let rest = all_intro p xs (λ a m. h a (ground arith)) in
      rw (h x (ground (arith, e.beq_iff x x))) rest

  -- no member twice
  abbrev pub IsDistinct : List A → Type 0
  IsDistinct [] = Unit
  IsDistinct (x ∷ xs) = (contains xs x ≡ false) × IsDistinct xs

  remove_absent : (xs : List A) (a : A) → contains xs a ≡ false → remove xs a ≡ xs
  unfolding remove
  remove_absent [] a h = refl
  remove_absent (x ∷ xs) a h = ground (arith, remove_absent xs a)

  pub length-remove :
      (xs : List A) (a : A)
      → IsDistinct xs
      → contains xs a ≡ true
      → suc (length (remove xs a)) ≡ length xs
  unfolding remove
  length-remove [] a d h = cc
  length-remove (x ∷ xs) a d h = elim (Bool-cases (x == a)) [
    | inl same ↦ rw same (
        ap (λ l. suc (length l))
          (remove_absent xs a (subst (λ y. contains xs y ≡ false) ((e.beq_iff x a).0 same) d.0)))
    | inr other ↦ rw other (ap suc (length-remove xs a d.1 (ground arith)))
  ]

  pub IsDistinct-remove : (xs : List A) (a : A) → IsDistinct xs → IsDistinct (remove xs a)
  unfolding remove
  IsDistinct-remove [] a d = tt
  IsDistinct-remove (x ∷ xs) a d = elim (Bool-cases (x == a)) [
    | inl same ↦ rw same (IsDistinct-remove xs a d.1)
    | inr other ↦ rw other (ground (arith, contains-remove xs a x, d.0), IsDistinct-remove xs a d.1)
  ]

  remove-le : (xs : List A) (a : A) → length (remove xs a) ≤ length xs
  unfolding remove
  remove-le [] a = omega arith
  remove-le (x ∷ xs) a = ground (arith, remove-le xs a)

  remove-lt : (xs : List A) (a : A) → contains xs a ≡ true → suc (length (remove xs a)) ≤ length xs
  unfolding remove
  remove-lt [] a h = cc
  remove-lt (x ∷ xs) a h = ground (arith, remove-lt xs a, remove-le xs a)

  -- A list without repetitions is no longer than one that has all its members.
  pub length-le_of_Within : (xs ys : List A) → IsDistinct xs → Within xs ys → length xs ≤ length ys
  length-le_of_Within [] ys d h = omega arith
  length-le_of_Within (x ∷ xs) ys d h =
      let here : contains ys x ≡ true = h x (ground (arith, e.beq_iff x x)) in
      let rest = length-le_of_Within xs (remove ys x) d.1 (λ a m.
        ground (arith, contains-remove ys x a, h a (ground arith), d.0, m, e.beq_iff x a)) in
      omega (arith, rest, remove-lt ys x here)

  pub IsDistinct-insert : (s : HashSet A) (a : A) → IsDistinct s → IsDistinct (insert s a)
  unfolding insert
  IsDistinct-insert s a d = elim (Bool-cases (contains s a)) [
    | inl old ↦ rw old d
    | inr new ↦ rw new (new, d)
  ]

  pub IsDistinct-to_set : (xs : List A) → IsDistinct (to_set xs)
  unfolding to_set
  IsDistinct-to_set [] = tt
  IsDistinct-to_set (x ∷ xs) = IsDistinct-insert (to_set xs) x (IsDistinct-to_set xs)

  -- `filter(p)`
  abbrev pub select : (A → Bool) → List A → List A
  select p [] = []
  select p (x ∷ xs) = if p x then x ∷ select p xs else select p xs

  pub contains-select :
      (p : A → Bool) (xs : List A) (a : A) → contains (select p xs) a ≡ (contains xs a && p a)
  contains-select p [] a = refl
  contains-select p (x ∷ xs) a = elim (Bool-cases (x == a)) [
    | inl same ↦
        subst (λ b. contains (select p (x ∷ xs)) b ≡ (contains (x ∷ xs) b && p b))
          ((e.beq_iff x a).0 same) (ground (arith, contains-select p xs x, e.beq_iff x x))
    | inr other ↦ ground (arith, contains-select p xs a)
  ]

  pub IsDistinct-select : (p : A → Bool) (xs : List A) → IsDistinct xs → IsDistinct (select p xs)
  IsDistinct-select p [] d = tt
  IsDistinct-select p (x ∷ xs) d = elim (Bool-cases (p x)) [
    | inl chosen ↦
        rw chosen (ground (arith, contains-select p xs x, d.0), IsDistinct-select p xs d.1)
    | inr left ↦ rw left (IsDistinct-select p xs d.1)
  ]

  pub length-eq_of_same :
      (xs ys : List A)
      → IsDistinct xs
      → IsDistinct ys
      → ((a : A) → contains xs a ≡ contains ys a)
      → length xs ≡ length ys
  length-eq_of_same xs ys d c h = omega (
    arith,
    length-le_of_Within xs ys d (λ a m. ground (arith, h a)),
    length-le_of_Within ys xs c (λ a m. ground (arith, h a)),
  )

-- the one member of a singleton
pub contains-single : {A : Type 0} ⦃e : Eq A⦄ (a b : A) → (contains (a ∷ []) b ≡ true) ↔ (a ≡ b)
contains-single ⦃e⦄ a b =
    (λ h. (e.beq_iff a b).0 (ground arith), λ eq. let same = (e.beq_iff a b).1 eq in ground arith)

pub Bool_ext : (b c : Bool) → (b ≡ true → c ≡ true) → (c ≡ true → b ≡ true) → b ≡ c
Bool_ext true c f g = sym (f refl)
Bool_ext false true f g = g refl
Bool_ext false false f g = refl

module _ {ℓ} {A B : Type ℓ} ⦃e : Eq A⦄ ⦃d : Eq B⦄ (f : A → B) where
  pub contains-map_elim :
      (xs : List A) (b : B)
      → contains (map f xs) b ≡ true
      → (a : A) × (contains xs a ≡ true) × (f a ≡ b)
  contains-map_elim [] b h = cc
  contains-map_elim (x ∷ xs) b h = elim (Bool-cases (f x == b)) [
    | inl same ↦ (x, ground (arith, e.beq_iff x x), (d.beq_iff (f x) b).0 same)
    | inr other ↦ let (a, m, p) = contains-map_elim xs b (ground arith) in (a, ground arith, p)
  ]

  pub contains-map_intro :
      (xs : List A) (a : A) → contains xs a ≡ true → contains (map f xs) (f a) ≡ true
  contains-map_intro [] a h = cc
  contains-map_intro (x ∷ xs) a h = elim (Bool-cases (x == a)) [
    | inl same ↦ ground (arith, d.beq_iff (f x) (f a), ap f ((e.beq_iff x a).0 same))
    | inr other ↦ ground (arith, contains-map_intro xs a (ground arith))
  ]
