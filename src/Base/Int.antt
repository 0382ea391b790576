-- ===== src/Base/Int.antt =====
-- `i64` amounts as integers over the native numbers, with the saturating and the wrapping
-- arithmetic that the code uses.
use Prim.Native.Nat.{ℕ, suc, compare, Ordering, ◌+◌, ◌-◌, ◌*◌, ◌%◌, ◌^◌, ◌≤◌, ◌<◌}
use mathlib.Core.Path.{◌≡◌}
use mathlib.Core.Logic.{◌↔◌}
use mathlib.Core.Bool.{Bool, true, false}
use mathlib.Core.Option.{Option, none, some}
use native.Mathlib.Omega.{arith}
use twitch_miner_rust.Base.Tests.{ltb, leb, ◌==◌, if◌then◌else◌}

-- `negsuc n` is -(n + 1).
pub data ℤ : Type 0 where
  pos : ℕ → ℤ
  negsuc : ℕ → ℤ

abbrev pub pos_part : ℤ → ℕ
pos_part (pos n) = n
pos_part (negsuc n) = 0

abbrev pub neg_part : ℤ → ℕ
neg_part (pos n) = 0
neg_part (negsuc n) = suc n

-- a - b, as an integer.
abbrev pub sub_ℕ : ℕ → ℕ → ℤ
sub_ℕ a b = if leb b a then pos (a - b) else negsuc (b - a - 1)

infixl 65 ◌+ℤ◌ ◌-ℤ◌
infixl 70 ◌*ℤ◌
infix 50 ◌≤ℤ◌ ◌<ℤ◌
unfoldable pub ◌+ℤ◌ : ℤ → ℤ → ℤ
a +ℤ b = sub_ℕ (pos_part a + pos_part b) (neg_part a + neg_part b)

unfoldable pub ◌-ℤ◌ : ℤ → ℤ → ℤ
a -ℤ b = sub_ℕ (pos_part a + neg_part b) (neg_part a + pos_part b)

unfoldable pub ◌*ℤ◌ : ℤ → ℤ → ℤ
a *ℤ b =
    sub_ℕ (pos_part a * pos_part b + neg_part a * neg_part b)
      (pos_part a * neg_part b + neg_part a * pos_part b)

abbrev pub ◌≤ℤ◌ : ℤ → ℤ → Type 0
a ≤ℤ b = pos_part a + neg_part b ≤ pos_part b + neg_part a

abbrev pub ◌<ℤ◌ : ℤ → ℤ → Type 0
a <ℤ b = pos_part a + neg_part b < pos_part b + neg_part a

abbrev pub ltb_ℤ : ℤ → ℤ → Bool
ltb_ℤ a b = ltb (pos_part a + neg_part b) (pos_part b + neg_part a)

abbrev pub leb_ℤ : ℤ → ℤ → Bool
leb_ℤ a b = leb (pos_part a + neg_part b) (pos_part b + neg_part a)

-- `i64::cmp`.
abbrev pub compare_ℤ : ℤ → ℤ → Ordering
compare_ℤ a b = compare (pos_part a + neg_part b) (pos_part b + neg_part a)

abbrev pub eqb_ℤ : ℤ → ℤ → Bool
eqb_ℤ (pos a) (pos b) = a == b
eqb_ℤ (negsuc a) (negsuc b) = a == b
eqb_ℤ (pos a) (negsuc b) = false
eqb_ℤ (negsuc a) (pos b) = false

pub eqb_ℤ_iff : (a b : ℤ) → (eqb_ℤ a b ≡ true) ↔ (a ≡ b)
eqb_ℤ_iff (pos a) (pos b) = ground arith
eqb_ℤ_iff (negsuc a) (negsuc b) = ground arith
eqb_ℤ_iff (pos a) (negsuc b) = ground arith
eqb_ℤ_iff (negsuc a) (pos b) = ground arith

-- `max` and `min`.
abbrev pub max_ℤ : ℤ → ℤ → ℤ
max_ℤ a b = if leb_ℤ a b then b else a

abbrev pub min_ℤ : ℤ → ℤ → ℤ
min_ℤ a b = if leb_ℤ a b then a else b

-- `i64::MAX`, and the size of `i64::MIN`.
abbrev pub i64_max : ℕ
i64_max = 9223372036854775807

abbrev pub i64_min_size : ℕ
i64_min_size = 9223372036854775808

-- The bounds of an `i64`.
abbrev pub IsI64 : ℤ → Type 0
IsI64 a = (pos_part a ≤ i64_max) × (neg_part a ≤ i64_min_size)

-- What a saturating operation makes of the exact result.
unfoldable pub saturate_i64 : ℤ → ℤ
saturate_i64 (pos n) = if leb n i64_max then pos n else pos i64_max
saturate_i64 (negsuc n) = if leb n i64_max then negsuc n else negsuc i64_max

-- `i64::saturating_add` and `i64::saturating_sub`.
unfoldable pub saturating_add : ℤ → ℤ → ℤ
saturating_add a b = saturate_i64 (a +ℤ b)

unfoldable pub saturating_sub : ℤ → ℤ → ℤ
saturating_sub a b = saturate_i64 (a -ℤ b)

-- What a plain operation of a release build makes of the exact result: two's complement.
unfoldable pub wrap_i64 : ℤ → ℤ
wrap_i64 (pos n) = let m = n % 2 ^ 64 in if leb m i64_max then pos m else negsuc (2 ^ 64 - 1 - m)
wrap_i64 (negsuc n) = let m = n % 2 ^ 64 in if leb m i64_max then negsuc m else pos (2 ^ 64 - 1 - m)

-- `-a`, wrapping at `i64::MIN`.
unfoldable pub neg_i64 : ℤ → ℤ
neg_i64 a = wrap_i64 (pos 0 -ℤ a)

-- `i64::checked_abs`: none at `i64::MIN`.
unfoldable pub checked_abs : ℤ → Option ℤ
checked_abs (pos n) = some (pos n)
checked_abs (negsuc n) = if n == i64_max then none else some (pos (suc n))

-- `u64::saturating_add(1)`, `u32::saturating_add(1)`.
unfoldable pub saturating_suc_u64 : ℕ → ℕ
saturating_suc_u64 n = if ltb n (2 ^ 64 - 1) then n + 1 else 2 ^ 64 - 1

unfoldable pub saturating_suc_u32 : ℕ → ℕ
saturating_suc_u32 n = if ltb n (2 ^ 32 - 1) then n + 1 else 2 ^ 32 - 1

pub +ℤ_parts :
    (a b : ℤ)
    → pos_part (a +ℤ b) + neg_part a + neg_part b ≡ neg_part (a +ℤ b) + pos_part a + pos_part b
unfolding ◌+ℤ◌
+ℤ_parts a b = ground arith

pub -ℤ_parts :
    (a b : ℤ)
    → pos_part (a -ℤ b) + neg_part a + pos_part b ≡ neg_part (a -ℤ b) + pos_part a + neg_part b
unfolding ◌-ℤ◌
-ℤ_parts a b = ground arith

pub eq_of_parts : (a b : ℤ) → pos_part a + neg_part b ≡ pos_part b + neg_part a → a ≡ b
eq_of_parts a b h = ground arith

pub ruleset int_laws = (arith, +ℤ_parts, -ℤ_parts, eq_of_parts)

pub saturate_i64_bounds : (a : ℤ) → IsI64 (saturate_i64 a)
unfolding saturate_i64
saturate_i64_bounds (pos n) = ground arith
saturate_i64_bounds (negsuc n) = ground arith

-- In range the saturating and the wrapping operations are exact.
pub saturate_i64_exact : (a : ℤ) → IsI64 a → saturate_i64 a ≡ a
unfolding saturate_i64
saturate_i64_exact (pos n) h = ground arith
saturate_i64_exact (negsuc n) h = ground arith

pub wrap_i64_exact : (a : ℤ) → IsI64 a → wrap_i64 a ≡ a
unfolding wrap_i64
wrap_i64_exact (pos n) h = ground arith
wrap_i64_exact (negsuc n) h = ground arith

pub saturating_suc_u64_lt : (n : ℕ) → n < 2 ^ 64 - 1 → n < saturating_suc_u64 n
unfolding saturating_suc_u64
saturating_suc_u64_lt n h = ground arith
