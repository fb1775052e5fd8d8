-- ===== src/Prelude/Int.antt =====
-- Signed integers over the native numbers, and Go's fixed-width arithmetic on them.
use Prim.Native.Nat.{ℕ, zero, suc, ◌+◌, ◌-◌, ◌*◌, ◌/◌, ◌%◌, ◌≤◌, ◌<◌}
use mathlib.Core.Path.{◌≡◌}
use mathlib.Core.Bool.{Bool, true, false}
use native.Mathlib.Omega.{arith}
use go_judgy.Prelude.Tests.{ltb, leb, ◌==◌, if◌then◌else◌}

-- `negsuc n` is -(n + 1).
pub data ℤ : Type 0 where
  pos : ℕ → ℤ
  negsuc : ℕ → ℤ

abbrev pub pos_part : ℤ → ℕ
pos_part (pos n) = n
pos_part (negsuc n) = 0

abbrev pub neg_part : ℤ → ℕ
neg_part (pos n) = 0
neg_part (negsuc n) = suc n

abbrev pub sub_ℕ : ℕ → ℕ → ℤ
sub_ℕ a b = if leb b a then pos (a - b) else negsuc (b - a - 1)

infixl 65 ◌+ℤ◌ ◌-ℤ◌
infixl 70 ◌*ℤ◌
infix 50 ◌≤ℤ◌ ◌<ℤ◌
unfoldable pub ◌+ℤ◌ : ℤ → ℤ → ℤ
a +ℤ b = sub_ℕ (pos_part a + pos_part b) (neg_part a + neg_part b)

unfoldable pub ◌-ℤ◌ : ℤ → ℤ → ℤ
a -ℤ b = sub_ℕ (pos_part a + neg_part b) (neg_part a + pos_part b)

unfoldable pub ◌*ℤ◌ : ℤ → ℤ → ℤ
a *ℤ b =
    sub_ℕ (pos_part a * pos_part b + neg_part a * neg_part b)
      (pos_part a * neg_part b + neg_part a * pos_part b)

abbrev pub ◌≤ℤ◌ : ℤ → ℤ → Type 0
a ≤ℤ b = pos_part a + neg_part b ≤ pos_part b + neg_part a

abbrev pub ◌<ℤ◌ : ℤ → ℤ → Type 0
a <ℤ b = pos_part a + neg_part b < pos_part b + neg_part a

abbrev pub leb_ℤ : ℤ → ℤ → Bool
leb_ℤ a b = leb (pos_part a + neg_part b) (pos_part b + neg_part a)

abbrev pub ltb_ℤ : ℤ → ℤ → Bool
ltb_ℤ a b = ltb (pos_part a + neg_part b) (pos_part b + neg_part a)

pub +ℤ_parts :
    (a b : ℤ)
    → pos_part (a +ℤ b) + neg_part a + neg_part b ≡ neg_part (a +ℤ b) + pos_part a + pos_part b
unfolding ◌+ℤ◌
+ℤ_parts a b = ground arith

pub -ℤ_parts :
    (a b : ℤ)
    → pos_part (a -ℤ b) + neg_part a + pos_part b ≡ neg_part (a -ℤ b) + pos_part a + neg_part b
unfolding ◌-ℤ◌
-ℤ_parts a b = ground arith

pub eq_of_parts : (a b : ℤ) → pos_part a + neg_part b ≡ pos_part b + neg_part a → a ≡ b
eq_of_parts a b h = ground arith

pub ruleset int_laws = (arith, +ℤ_parts, -ℤ_parts, eq_of_parts)

abbrev pub max_int32 : ℕ
max_int32 = 2147483647

abbrev pub max_int64 : ℕ
max_int64 = 9223372036854775807

-- Two's complement at a width with largest value `top`: the integer congruent to `a` modulo
-- 2 (top + 1) in [-(top + 1), top].
abbrev pub wrap : ℕ → ℤ → ℤ
wrap top (pos n) =
    let r = n % (2 * (top + 1)) in if leb r top then pos r else negsuc (2 * (top + 1) - 1 - r)
wrap top (negsuc n) =
    let r = n % (2 * (top + 1)) in if leb r top then negsuc r else pos (2 * (top + 1) - 1 - r)

unfoldable pub int32 : ℤ → ℤ
int32 a = wrap max_int32 a

unfoldable pub int64 : ℤ → ℤ
int64 a = wrap max_int64 a

abbrev pub is_zero_ℤ : ℤ → Bool
is_zero_ℤ (pos zero) = true
is_zero_ℤ _ = false

-- `x.Add(1)` on an `atomic.Int32`.
unfoldable pub inc32 : ℤ → ℤ
inc32 (pos n) = if n == max_int32 then negsuc max_int32 else pos (n + 1)
inc32 (negsuc zero) = pos 0
inc32 (negsuc (suc n)) = negsuc n

-- `x.Add(1)` on an `atomic.Int64`.
unfoldable pub inc64 : ℤ → ℤ
inc64 (pos n) = if n == max_int64 then negsuc max_int64 else pos (n + 1)
inc64 (negsuc zero) = pos 0
inc64 (negsuc (suc n)) = negsuc n

-- `x.Add(-1)` on an `atomic.Int32`.
unfoldable pub dec32 : ℤ → ℤ
dec32 (pos zero) = negsuc 0
dec32 (pos (suc n)) = pos n
dec32 (negsuc n) = if n == max_int32 then pos max_int32 else negsuc (n + 1)

-- Multiplication by a natural number.
unfoldable pub scale : ℕ → ℤ → ℤ
scale k (pos n) = pos (k * n)
scale k (negsuc n) = sub_ℕ 0 (k * suc n)

-- Go's `/` by a positive divisor truncates toward zero.
unfoldable pub div_trunc : ℤ → ℕ → ℤ
div_trunc (pos n) d = pos (n / d)
div_trunc (negsuc n) d = sub_ℕ 0 (suc n / d)

-- `time.Time.Sub` saturates where int64 arithmetic would wrap.
unfoldable pub saturate64 : ℤ → ℤ
saturate64 (pos n) = if leb n max_int64 then pos n else pos max_int64
saturate64 (negsuc n) = if leb n max_int64 then negsuc n else negsuc max_int64

pub inc32-pos : (n : ℕ) → n < max_int32 → inc32 (pos n) ≡ pos (n + 1)
unfolding inc32
inc32-pos n h = ground arith

pub inc64-pos : (n : ℕ) → n < max_int64 → inc64 (pos n) ≡ pos (n + 1)
unfolding inc64
inc64-pos n h = ground arith

pub pos_of_nonneg : (a : ℤ) → pos 0 ≤ℤ a → a ≡ pos (pos_part a)
pos_of_nonneg a h = ground arith

pub pos-+ℤ : (a b : ℕ) → pos a +ℤ pos b ≡ pos (a + b)
unfolding ◌+ℤ◌
pos-+ℤ a b = ground arith

pub pos--ℤ : (a b : ℕ) → b ≤ a → pos a -ℤ pos b ≡ pos (a - b)
unfolding ◌-ℤ◌
pos--ℤ a b h = ground arith

pub int64-pos : (n : ℕ) → n ≤ max_int64 → int64 (pos n) ≡ pos n
unfolding int64
int64-pos n h = ground arith

pub saturate64-pos : (n : ℕ) → n ≤ max_int64 → saturate64 (pos n) ≡ pos n
unfolding saturate64
saturate64-pos n h = ground arith

pub pos_part-lt : (a : ℤ) (n : ℕ) → pos 0 ≤ℤ a → a <ℤ pos n → pos_part a < n
pos_part-lt a n h k = ground arith

-- `x.Add(-1)` on an `atomic.Int64`.
unfoldable pub dec64 : ℤ → ℤ
dec64 (pos zero) = negsuc 0
dec64 (pos (suc n)) = pos n
dec64 (negsuc n) = if n == max_int64 then pos max_int64 else negsuc (n + 1)
