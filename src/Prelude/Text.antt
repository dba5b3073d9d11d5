-- ===== src/Prelude/Text.antt =====
-- The methods of Rust's `str` that src/store.rs calls, over the code points of a text.
use Prim.Native.Char.{Char, code}
use Prim.Native.String.{String, [], ◌∷◌, ◌++◌}
use Prim.Native.Nat.{ℕ, ◌+◌, compare, Ordering}
use mathlib.Core.Path.{◌≡◌, refl, ap}
use mathlib.Core.Bool.{Bool, true, false, ◌||◌, ◌&&◌}
use mathlib.Core.Option.{Option, none, some}
use native.Mathlib.Omega.{arith}
use text.Mathlib.TextLemmas.{nil-append, cons-append}
use sqlite_sparql.Prelude.Tests.{leb, if◌then◌else◌, string_eq, ◌==◌}

infix 50 ◌is◌
abbrev pub ◌is◌ : ℕ → ℕ → Bool
a is b = elim (compare a b) [ Ordering.eq ↦ true | _ ↦ false ]

-- `format!("{}{}", s, t)`
abbrev pub joined_text : String → String → String
joined_text s t = s ++ t

-- `s.trim().is_empty()`: every character has Unicode's property White_Space
unfoldable pub is_blank : String → Bool
is_blank [] = true
is_blank (d ∷ s) =
    let c = code d in
    let rest = is_blank s in
    ((leb 9 c && leb c 13)
      || c is 32
      || c is 133
      || c is 160
      || c is 5760
      || (leb 8192 c && leb c 8202)
      || c is 8232
      || c is 8233
      || c is 8239
      || c is 8287
      || c is 12288)
    && rest

-- `s.strip_prefix(pre)`
unfoldable pub strip_prefix : String → String → Option String
strip_prefix s [] = some s
strip_prefix [] (c ∷ pre) = none
strip_prefix (d ∷ s) (c ∷ pre) = if code d is code c then strip_prefix s pre else none

-- `s.starts_with(pre)`
unfoldable pub starts_with : String → String → Bool
unfolding strip_prefix
starts_with s pre = elim (strip_prefix s pre) [ none ↦ false | some _ ↦ true ]

-- `s.rfind(c)` with the text before and after the place that it finds
unfoldable pub split_last : ℕ → String → Option (String × String)
split_last c [] = none
split_last c (d ∷ s) = elim (split_last c s) [
  | some (a, b) ↦ some (d ∷ a, b)
  | none ↦ if code d is c then some ([], s) else none
]

-- `s.trim_start_matches(c)`
unfoldable pub trim_start_matches : ℕ → String → String
trim_start_matches c [] = []
trim_start_matches c (d ∷ s) =
    let rest = trim_start_matches c s in if code d is c then rest else d ∷ s

-- `s.trim_end_matches(c)`
unfoldable pub trim_end_matches : ℕ → String → String
trim_end_matches c [] = []
trim_end_matches c (d ∷ s) =
    let rest = trim_end_matches c s in if code d is c && rest == [] then [] else d ∷ rest

unfoldable pub has_char : ℕ → String → Bool
has_char c [] = false
has_char c (d ∷ s) = code d is c || has_char c s

split_last-absent : (c : ℕ) (s : String) → has_char c s ≡ false → split_last c s ≡ none
unfolding split_last has_char
split_last-absent c [] h = refl
split_last-absent c (d ∷ s) h = ground (arith, split_last-absent c s)

-- The last place is found, also where `c` occurs before it.
pub split_last-append :
    (c : ℕ) (s : String) (d : Char) (t : String)
    → code d is c ≡ true
    → has_char c t ≡ false
    → split_last c (s ++ (d ∷ t)) ≡ some (s, t)
unfolding split_last
split_last-append c [] d t e h = rw nil-append (ground (arith, split_last-absent c t))
split_last-append c (x ∷ s) d t e h =
    rw (cons-append x s (d ∷ t)) (ground (arith, split_last-append c s d t))

pub strip_prefix-append : (pre s : String) → strip_prefix (pre ++ s) pre ≡ some s
unfolding strip_prefix
strip_prefix-append [] s = ap some (nil-append s)
strip_prefix-append (c ∷ pre) s =
    rw (cons-append c pre s) (ground (arith, strip_prefix-append pre s))

pub has_char-append : (c : ℕ) (s t : String) → has_char c (s ++ t) ≡ (has_char c s || has_char c t)
unfolding has_char
has_char-append c [] t = ap (has_char c) (nil-append t)
has_char-append c (d ∷ s) t = rw (cons-append d s t) (ground (arith, has_char-append c s t))

pub trim_start_absent : (c : ℕ) (s : String) → has_char c s ≡ false → trim_start_matches c s ≡ s
unfolding trim_start_matches has_char
trim_start_absent c [] h = refl
trim_start_absent c (d ∷ s) h = ground arith

trim_end_absent : (c : ℕ) (s : String) → has_char c s ≡ false → trim_end_matches c s ≡ s
unfolding trim_end_matches has_char
trim_end_absent c [] h = refl
trim_end_absent c (d ∷ s) h = ground (arith, trim_end_absent c s)

pub trim_end-append :
    (c : ℕ) (s : String) (d : Char)
    → code d is c ≡ true
    → has_char c s ≡ false
    → trim_end_matches c (s ++ (d ∷ [])) ≡ s
unfolding trim_end_matches has_char
trim_end-append c [] d e h = rw (nil-append (d ∷ [])) (ground (arith, string_eq.beq_iff [] []))
trim_end-append c (x ∷ s) d e h =
    rw (cons-append x s (d ∷ [])) (ground (arith, trim_end-append c s d))

-- `s.chars().count()`
unfoldable pub char_count : String → ℕ
char_count [] = 0
char_count (c ∷ s) = let rest = char_count s in rest + 1

-- `for c in s.chars() { … }`, over the code points
unfoldable pub each_char {ℓ} : {A : Type ℓ} → (A → ℕ → A) → A → String → A
each_char step a [] = a
each_char step a (c ∷ s) = each_char step (step a (code c)) s
