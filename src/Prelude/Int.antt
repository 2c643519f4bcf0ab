-- ===== src/Prelude/Int.antt =====
-- Signed integers over the native numbers, and the machine integers `i32` and `i64` in them.
-- Sums and orders go through the two parts of an integer, which are numbers that `omega` reads.
use Prim.Native.Nat.{ℕ, suc, ◌+◌, ◌-◌, ◌*◌, ◌%◌, ◌≤◌, ◌<◌}
use mathlib.Core.Path.{◌≡◌}
use mathlib.Core.Bool.{Bool}
use native.Mathlib.Omega.{arith}
use jeeves_core.Prelude.Tests.{ltb, leb, if◌then◌else◌}

-- `negsuc n` is -(n + 1).
pub data ℤ : Type 0 where
  pos : ℕ → ℤ
  negsuc : ℕ → ℤ

abbrev pub pos_part : ℤ → ℕ
pos_part (pos n) = n
pos_part (negsuc n) = 0

abbrev pub neg_part : ℤ → ℕ
neg_part (pos n) = 0
neg_part (negsuc n) = suc n

-- a - b, as an integer.
abbrev pub sub_ℕ : ℕ → ℕ → ℤ
sub_ℕ a b = if leb b a then pos (a - b) else negsuc (b - a - 1)

infixl 65 ◌+ℤ◌ ◌-ℤ◌
infixl 70 ◌*ℤ◌
infix 50 ◌≤ℤ◌ ◌<ℤ◌
unfoldable pub ◌+ℤ◌ : ℤ → ℤ → ℤ
a +ℤ b = sub_ℕ (pos_part a + pos_part b) (neg_part a + neg_part b)

unfoldable pub ◌-ℤ◌ : ℤ → ℤ → ℤ
a -ℤ b = sub_ℕ (pos_part a + neg_part b) (neg_part a + pos_part b)

unfoldable pub ◌*ℤ◌ : ℤ → ℤ → ℤ
a *ℤ b =
    sub_ℕ (pos_part a * pos_part b + neg_part a * neg_part b)
      (pos_part a * neg_part b + neg_part a * pos_part b)

abbrev pub ◌≤ℤ◌ : ℤ → ℤ → Type 0
a ≤ℤ b = pos_part a + neg_part b ≤ pos_part b + neg_part a

abbrev pub ◌<ℤ◌ : ℤ → ℤ → Type 0
a <ℤ b = pos_part a + neg_part b < pos_part b + neg_part a

-- `a < b` and `a <= b` of the source.
abbrev pub ltb_ℤ : ℤ → ℤ → Bool
ltb_ℤ a b = ltb (pos_part a + neg_part b) (pos_part b + neg_part a)

abbrev pub leb_ℤ : ℤ → ℤ → Bool
leb_ℤ a b = leb (pos_part a + neg_part b) (pos_part b + neg_part a)

pub +ℤ_parts :
    (a b : ℤ)
    → pos_part (a +ℤ b) + neg_part a + neg_part b ≡ neg_part (a +ℤ b) + pos_part a + pos_part b
unfolding ◌+ℤ◌
+ℤ_parts a b = ground arith

pub -ℤ_parts :
    (a b : ℤ)
    → pos_part (a -ℤ b) + neg_part a + pos_part b ≡ neg_part (a -ℤ b) + pos_part a + neg_part b
unfolding ◌-ℤ◌
-ℤ_parts a b = ground arith

pub eq_of_parts : (a b : ℤ) → pos_part a + neg_part b ≡ pos_part b + neg_part a → a ≡ b
eq_of_parts a b h = ground arith

pub ruleset int_laws = (arith, +ℤ_parts, -ℤ_parts, eq_of_parts)

-- The two's complement reading of a sum of two integers of the width: one turn is enough.
-- `half` is 2^31 or 2^63.
wrap : ℕ → ℤ → ℤ
wrap half z =
    if leb_ℤ (pos half) z
    then z -ℤ pos (half + half)
    else if ltb_ℤ (z +ℤ pos half) (pos 0)
    then z +ℤ pos (half + half)
    else z

abbrev pub half_i32 : ℕ
half_i32 = 2147483648

abbrev pub half_i64 : ℕ
half_i64 = 9223372036854775808

-- `a + b` on `i32` and on `i64` in a release build.
unfoldable pub add_i32 : ℤ → ℤ → ℤ
unfolding wrap
add_i32 a b = wrap half_i32 (a +ℤ b)

unfoldable pub add_i64 : ℤ → ℤ → ℤ
unfolding wrap
add_i64 a b = wrap half_i64 (a +ℤ b)

-- The values of the type.
abbrev pub IsI32 : ℤ → Type 0
IsI32 a = (pos_part a < half_i32) × (neg_part a ≤ half_i32)

abbrev pub IsI64 : ℤ → Type 0
IsI64 a = (pos_part a < half_i64) × (neg_part a ≤ half_i64)

wrap-IsI32 : (a b : ℤ) → IsI32 a → IsI32 b → IsI32 (wrap half_i32 (a +ℤ b))
unfolding wrap
wrap-IsI32 a b ha hb = ground (
  arith,
  +ℤ_parts a b,
  +ℤ_parts (a +ℤ b) (pos half_i32),
  +ℤ_parts (a +ℤ b) (pos (half_i32 + half_i32)),
  -ℤ_parts (a +ℤ b) (pos (half_i32 + half_i32)),
)

-- A sum of two `i32` is an `i32`.
pub add_i32-IsI32 : (a b : ℤ) → IsI32 a → IsI32 b → IsI32 (add_i32 a b)
unfolding add_i32
add_i32-IsI32 a b ha hb = wrap-IsI32 a b ha hb

-- Where the sum is in range, the machine addition is the integer addition.
pub add_i32-eq_add : (a b : ℤ) → IsI32 (a +ℤ b) → add_i32 a b ≡ a +ℤ b
unfolding add_i32
add_i32-eq_add a b h = ground (arith, +ℤ_parts (a +ℤ b) (pos half_i32))

pub add_i64-eq_add : (a b : ℤ) → IsI64 (a +ℤ b) → add_i64 a b ≡ a +ℤ b
unfolding add_i64
add_i64-eq_add a b h = ground (arith, +ℤ_parts (a +ℤ b) (pos half_i64))

-- `as i32`: the lower 32 bits, read in two's complement.
unfoldable pub to_i32 : ℤ → ℤ
to_i32 (pos n) =
    let low = n % (half_i32 + half_i32) in
    if ltb low half_i32 then pos low else negsuc (half_i32 + half_i32 - low - 1)
to_i32 (negsuc n) =
    let low = n % (half_i32 + half_i32) in
    if ltb low half_i32 then negsuc low else pos (half_i32 + half_i32 - low - 1)

-- `a - b` on `i32` and on `i64`, wrapped round.
unfoldable pub sub_i32 : ℤ → ℤ → ℤ
unfolding wrap ◌-ℤ◌
sub_i32 a b = wrap half_i32 (a -ℤ b)

unfoldable pub sub_i64 : ℤ → ℤ → ℤ
unfolding wrap ◌-ℤ◌
sub_i64 a b = wrap half_i64 (a -ℤ b)
