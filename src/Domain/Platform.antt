-- ===== src/Domain/Platform.antt =====
-- What the code takes from its platform and this development does not define: the rounding
-- arithmetic of `f64`, the format `{:.2}` and the Unicode case mappings.
use twitch_miner_rust.Base.{ℕ, List, Bool, true, ◌≡◌, [], ◌∷◌, map, ◌&&◌, ltb}
use twitch_miner_rust.Base.Int.{ℤ}
use twitch_miner_rust.Base.Text.{Text, ascii_lower, ascii_upper}
use twitch_miner_rust.Domain.Float.{F64}

unfoldable pub is_ascii : Text → Bool
is_ascii [] = true
is_ascii (c ∷ s) = ltb c 128 && is_ascii s

pub record Platform : Type 0 where
  pub f64_add : F64 → F64 → F64
  pub f64_sub : F64 → F64 → F64
  pub f64_mul : F64 → F64 → F64
  pub f64_div : F64 → F64 → F64
  pub f64_min : F64 → F64 → F64
  pub f64_max : F64 → F64 → F64
  -- `Iterator::sum` over `f64`.
  pub f64_sum : List F64 → F64
  -- `round`, clamped to a `u32`.
  pub round_u32 : F64 → ℕ
  -- `Duration::from_secs_f64`, in nanoseconds.
  pub from_secs_f64 : F64 → ℕ
  -- `i64 as f64` and `u64 as f64`.
  pub f64_of_int : ℤ → F64
  -- `Duration::as_seconds_f64`, of nanoseconds.
  pub as_seconds_f64 : ℕ → F64
  -- `format!("{:.2}", value)`.
  pub fixed_two : F64 → Text
  -- `str::to_uppercase` and `str::to_lowercase`, which are known on ASCII texts.
  pub to_uppercase : Text → Text
  pub to_lowercase : Text → Text
  pub to_uppercase_ascii : (s : Text) → is_ascii s ≡ true → to_uppercase s ≡ map ascii_upper s
  pub to_lowercase_ascii : (s : Text) → is_ascii s ≡ true → to_lowercase s ≡ map ascii_lower s
