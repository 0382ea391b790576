-- ===== src/Domain/Formatting.antt =====
-- crates/tm-domain/src/formatting.rs: points and durations as texts.
use twitch_miner_rust.Base.{
  ℕ, suc, ◌-◌, ◌*◌, ◌/◌, ◌||◌, not, List, [], ◌∷◌, ◌++◌, ltb, leb, ◌==◌, if◌then◌else◌, is_empty,
}
use twitch_miner_rust.Base.Int.{ℤ, pos, negsuc, pos_part, ltb_ℤ, leb_ℤ, saturate_i64}
use twitch_miner_rust.Base.Text.{Text, str, show_nat, show_int}
use twitch_miner_rust.Domain.Float.{F64, f64_thousand, f64_million}
use twitch_miner_rust.Domain.Platform.{Platform}
use mathlib.Core.List.{reverse}

-- `str::trim_end_matches`, of one code point: on the reversed text.
drop_leading : ℕ → Text → Text
drop_leading c [] = []
drop_leading c (d ∷ s) = let rest = drop_leading c s in if d == c then rest else d ∷ s

unfoldable pub trim_trailing_zeros : Text → Text
unfolding drop_leading
trim_trailing_zeros value = reverse (drop_leading b'.' (drop_leading b'0' (reverse value)))

unfoldable pub format_points_with_suffix : Platform → F64 → F64 → Text → Text
unfolding trim_trailing_zeros
format_points_with_suffix p points divisor suffix =
    trim_trailing_zeros (p.fixed_two (p.f64_div points divisor)) ++ suffix

-- `i64::unsigned_abs`.
abbrev pub unsigned_abs : ℤ → ℕ
unsigned_abs (pos n) = n
unsigned_abs (negsuc n) = suc n

unfoldable pub format_channel_points : Platform → ℤ → Text
unfolding format_points_with_suffix
format_channel_points p points =
    let value = unsigned_abs points in
    if leb 1000000 value
    then format_points_with_suffix p (p.f64_of_int (pos value)) f64_million (str "M")
    else if leb 1000 value
    then format_points_with_suffix p (p.f64_of_int (pos value)) f64_thousand (str "k")
    else show_nat value

unfoldable pub format_drop_progress : ℤ → ℤ → Text
format_drop_progress current required =
    if ltb_ℤ (pos 0) required
    then show_int current ++ str "/" ++ show_int required
    else show_int current

-- The quotient is truncated, and so negative only for a negative `current`: there it is 0.
unfoldable pub progress_percent : ℤ → ℤ → ℤ
progress_percent current required =
    if leb_ℤ required (pos 0)
    then (if ltb_ℤ (pos 0) current then pos 100 else pos 0)
    else saturate_i64 (pos (pos_part current * 100 / pos_part required))

-- `{:02}`.
pad_two : ℕ → Text
pad_two n = if ltb n 10 then b'0' ∷ show_nat n else show_nat n

join_parts : List Text → Text
join_parts [] = []
join_parts (s ∷ []) = s
join_parts (s ∷ t ∷ ss) = s ++ str " " ++ join_parts (t ∷ ss)

-- Of the whole seconds of the duration.
unfoldable pub format_duration : ℕ → Text
unfolding pad_two join_parts
format_duration seconds =
    let days = seconds / 86400 in
    let seconds₁ = seconds - days * 86400 in
    let hours = seconds₁ / 3600 in
    let seconds₂ = seconds₁ - hours * 3600 in
    let minutes = seconds₂ / 60 in
    let seconds₃ = seconds₂ - minutes * 60 in
    let parts₁ : List Text = if ltb 0 days then (show_nat days ++ str "d") ∷ [] else [] in
    let parts₂ =
      if ltb 0 hours || not (is_empty parts₁)
      then parts₁ ++ (pad_two hours ++ str "h") ∷ []
      else parts₁ in
    let parts₃ =
      if ltb 0 minutes || not (is_empty parts₂)
      then parts₂ ++ (pad_two minutes ++ str "m") ∷ []
      else parts₂ in
    join_parts (parts₃ ++ (pad_two seconds₃ ++ str "s") ∷ [])
