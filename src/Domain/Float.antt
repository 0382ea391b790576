-- ===== src/Domain/Float.antt =====
-- `f64` values as their 64-bit patterns, with the order of IEEE 754. The arithmetic that rounds is
-- in `Platform`.
use Prim.Native.Nat.{ℕ, ◌-◌, ◌%◌, ◌+◌, ◌^◌, compare, Ordering}
use twitch_miner_rust.Base.{Bool, true, false, Option, none, some, ltb, if◌then◌else◌}

abbrev pub F64 : Type 0
F64 = ℕ

-- The exponent is all ones and the fraction is not zero.
unfoldable pub f64_is_nan : F64 → Bool
f64_is_nan a = ltb 0x7ff0000000000000 (a % 2 ^ 63)

-- Patterns that are no NaN stand in the order of these ranks; both zeros have one rank.
unfoldable pub f64_rank : F64 → ℕ
f64_rank a = if ltb a (2 ^ 63) then 2 ^ 63 + a else 2 ^ 64 - a

unfoldable pub f64_partial_cmp : F64 → F64 → Option Ordering
unfolding f64_is_nan f64_rank
f64_partial_cmp a b =
    if f64_is_nan a
    then none
    else if f64_is_nan b
    then none
    else some (compare (f64_rank a) (f64_rank b))

unfoldable pub f64_lt : F64 → F64 → Bool
unfolding f64_partial_cmp
f64_lt a b = elim (f64_partial_cmp a b) [ some Ordering.lt ↦ true | _ ↦ false ]

unfoldable pub f64_le : F64 → F64 → Bool
unfolding f64_partial_cmp
f64_le a b = elim (f64_partial_cmp a b) [
  | some Ordering.lt ↦ true
  | some Ordering.eq ↦ true
  | _ ↦ false
]

-- `==`: false at a NaN.
unfoldable pub f64_eq : F64 → F64 → Bool
unfolding f64_partial_cmp
f64_eq a b = elim (f64_partial_cmp a b) [ some Ordering.eq ↦ true | _ ↦ false ]

-- `f64::abs` clears the sign.
unfoldable pub f64_abs : F64 → F64
f64_abs a = a % 2 ^ 63

abbrev pub f64_zero : F64
f64_zero = 0

abbrev pub f64_six : F64
f64_six = 0x4018000000000000

abbrev pub f64_ten : F64
f64_ten = 0x4024000000000000

abbrev pub f64_sixty : F64
f64_sixty = 0x404e000000000000

abbrev pub f64_hundred : F64
f64_hundred = 0x4059000000000000

abbrev pub f64_thousand : F64
f64_thousand = 0x408f400000000000

abbrev pub f64_million : F64
f64_million = 0x412e848000000000
