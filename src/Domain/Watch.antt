-- ===== src/Domain/Watch.antt =====
-- crates/tm-domain/src/watch.rs: what makes a channel worth a watch slot.
pub mod Candidates
pub mod Ranking
pub mod Pick
pub mod Count
pub mod Admitted
pub mod Selection
pub mod Eligible
use Prim.Native.Nat.{Ordering, compare, max, min}
use twitch_miner_rust.Base.{
  ℕ, ◌-◌, ◌*◌, Bool, true, false, not, ◌&&◌, ◌||◌, Option, none, some, map, if◌then◌else◌,
  is_none_or, is_some_and, filter_option, leb, ltb, ◌==◌,
}
use twitch_miner_rust.Base.Int.{pos}
use twitch_miner_rust.Domain.Float.{F64, f64_lt, f64_ten, f64_zero, f64_thousand}
use twitch_miner_rust.Domain.Platform.{Platform}
use twitch_miner_rust.Domain.Settings.{DelayMode, from_start, from_end, percentage}
use twitch_miner_rust.Domain.Stream.{Time, Stream, seconds}
use twitch_miner_rust.Domain.Streamer.{Streamer, can_watch_drop_campaign}

abbrev streak_restart_cooldown_minutes : ℕ
streak_restart_cooldown_minutes = 30

-- `streak_priority_limit`, in minutes.
abbrev streak_priority_limit : F64
streak_priority_limit = f64_ten

-- `should_prioritize_streak`. A stream that ends in the future is not 30 minutes old.
unfoldable pub should_prioritize_streak : Streamer → Time → Bool
should_prioritize_streak s now = elim s.stream [
  | none ↦ false
  | some stream ↦
      s.settings.watch_streak
      && stream.watch_streak_missing
      && is_none_or s.last_stream_ended_at
          (λ ended_at. leb (seconds (streak_restart_cooldown_minutes * 60)) (now - ended_at))
      && f64_lt stream.minute_watched streak_priority_limit
]

-- `Streamer::total_multiplier`.
unfoldable pub total_multiplier : Platform → Streamer → F64
total_multiplier p s = p.f64_sum (map (λ item. item.factor) s.active_multipliers)

-- `multiplier_millis`.
unfoldable pub multiplier_millis : Platform → F64 → ℕ
multiplier_millis p total = p.round_u32 (p.f64_mul total f64_thousand)

pub record ChannelScore : Type 0 where
  pub uncollected_streak : Bool
  pub drops : Bool
  pub multiplier_millis : ℕ  -- u32
  pub yield_tier : ℕ  -- u8

-- `ChannelScore::of`.
unfoldable pub channel_score : Platform → Streamer → ℕ → Time → ChannelScore
unfolding should_prioritize_streak total_multiplier
channel_score p s yield_tier now =
    if s.discovered
    then record { uncollected_streak = false; drops = false; multiplier_millis = 0; yield_tier = 0 }
    else record {
      uncollected_streak = should_prioritize_streak s now;
      drops = can_watch_drop_campaign s;
      multiplier_millis = multiplier_millis p (total_multiplier p s);
      yield_tier = yield_tier;
    }

-- `watch_interval`, in nanoseconds.
unfoldable pub watch_interval : Platform → ℕ → ℕ
watch_interval p count =
    if count == 0
    then seconds 20
    else max
        (p.from_secs_f64
          (p.f64_div (p.f64_of_int (pos 20)) (p.f64_of_int (pos (min count 0xffffffff)))))
        (seconds 5)

-- `Streamer::prediction_window_seconds`.
unfoldable pub prediction_window_seconds : Platform → Streamer → F64 → F64
prediction_window_seconds p s prediction_window =
    let delay = elim s.settings.bet.delay as (λ _. F64) [ none ↦ f64_zero | some d ↦ d ] in
    elim s.settings.bet.delay_mode [
      | from_start ↦ p.f64_min delay prediction_window
      | from_end ↦ p.f64_max (p.f64_sub prediction_window delay) f64_zero
      | percentage ↦ p.f64_mul prediction_window delay
    ]

unfoldable pub compare_optional_deadlines : Option Time → Option Time → Ordering
compare_optional_deadlines (some left) (some right) = compare left right
compare_optional_deadlines (some left) none = Ordering.lt
compare_optional_deadlines none (some right) = Ordering.gt
compare_optional_deadlines none none = Ordering.eq

unfoldable pub active_streak_deadline : Stream → Time → Option Time
active_streak_deadline stream now =
    filter_option (λ deadline. ltb now deadline) stream.watch_streak_expires_at

unfoldable pub active_streak_count : Stream → Time → Option ℕ
active_streak_count stream now =
    if is_none_or stream.watch_streak_expires_at (λ deadline. ltb now deadline)
    then stream.watch_streak_count
    else none
