-- ===== src/Prelude/Numbers.antt =====
-- `str::parse` of Rust at its integer types: an optional sign, then digits, within the range.
use Prim.Native.Char.{code}
use Prim.Native.String.{String, [], ◌∷◌}
use Prim.Native.Nat.{ℕ, ◌+◌, ◌-◌, ◌*◌, ◌^◌}
use mathlib.Core.Bool.{◌&&◌}
use mathlib.Core.Option.{Option, none, some}
use sqlite_sparql.Prelude.Tests.{ltb, leb, if◌then◌else◌, string_eq}
use sqlite_sparql.Prelude.Text.{◌is◌}
use sqlite_sparql.Prelude.Integers.{ℤ, pos, negsuc}

-- the value of a text of digits, after those that `n` has read
unfoldable pub digits_value : ℕ → String → Option ℕ
digits_value n [] = some n
digits_value n (c ∷ s) =
    let rest = digits_value (n * 10 + (code c - b'0')) s in
    if leb b'0' (code c) && leb (code c) b'9' then rest else none

-- a text of at least one digit
unfoldable pub digits : String → Option ℕ
unfolding digits_value
digits [] = none
digits (c ∷ s) = digits_value 0 (c ∷ s)

abbrev pub within : ℕ → Option ℕ → Option ℕ
within limit none = none
within limit (some n) = if ltb n limit then some n else none

-- the digits after an optional `+`
unfoldable pub unsigned_digits : String → Option ℕ
unfolding digits
unsigned_digits [] = none
unsigned_digits (c ∷ s) = if code c is b'+' then digits s else digits (c ∷ s)

-- `s.parse::<u32>()`
unfoldable pub parse_u32 : String → Option ℕ
unfolding unsigned_digits
parse_u32 s = within (2 ^ 32) (unsigned_digits s)

-- `s.parse::<u64>()`
unfoldable pub parse_u64 : String → Option ℕ
unfolding unsigned_digits
parse_u64 s = within (2 ^ 64) (unsigned_digits s)

-- the negative number of a magnitude
abbrev pub negated : Option ℕ → Option ℤ
negated none = none
negated (some n) =
    if n is 0 then some (pos 0) else if leb n (2 ^ 63) then some (negsuc (n - 1)) else none

abbrev pub positive : Option ℕ → Option ℤ
positive none = none
positive (some n) = if ltb n (2 ^ 63) then some (pos n) else none

-- `s.parse::<i64>()`
unfoldable pub parse_i64 : String → Option ℤ
unfolding digits
parse_i64 [] = none
parse_i64 (c ∷ s) =
    if code c is b'-'
    then negated (digits s)
    else if code c is b'+'
    then positive (digits s)
    else positive (digits (c ∷ s))
