-- ===== src/Domain/Stream.antt =====
-- crates/tm-domain/src/types.rs: one stream of a channel. A time is an `OffsetDateTime` counted in
-- nanoseconds from the first one that can be represented; every difference that the code takes is
-- compared with a duration that is not negative, so the truncated `-` gives the same test.
use twitch_miner_rust.Base.{
  ℕ, ◌-◌, ◌*◌, ◌/◌, Bool, true, false, not, ◌&&◌, ◌||◌, Option, none, some, List, [], any, ltb, leb,
  if◌then◌else◌, is_some, or_option, is_some_and, is_none_or, filter_option,
}
use twitch_miner_rust.Base.Int.{ℤ, pos, ltb_ℤ, leb_ℤ, ◌*ℤ◌, saturate_i64}
use twitch_miner_rust.Base.Text.{Text, text_eq, trim, is_blank}
use twitch_miner_rust.Domain.Float.{F64, f64_zero, f64_sixty}
use twitch_miner_rust.Domain.Platform.{Platform}
use twitch_miner_rust.Domain.Json.{Value}

abbrev pub Time : Type 0
Time = ℕ

abbrev pub seconds : ℕ → ℕ
seconds n = n * 1000000000

pub record DropWatchTarget : Type 0 where
  pub ends_at : Time
  pub remaining_minutes : ℤ
  pub observed_at : Time

-- `DropWatchTarget::feasible_at`. The remaining minutes are positive where they are multiplied.
unfoldable pub feasible_at : DropWatchTarget → Time → Bool
feasible_at target now =
    ltb_ℤ (pos 0) target.remaining_minutes
    && leb target.observed_at now
    && leb (now - target.observed_at) (seconds 600)
    && leb_ℤ (saturate_i64 (target.remaining_minutes *ℤ pos 60))
        (pos ((target.ends_at - now) / 1000000000))

pub record Game : Type 0 where
  pub display_name : Option Text
  pub name : Option Text

pub record Stream : Type 0 where
  pub broadcast_id : Text
  pub title : Text
  pub game : Option Game
  pub game_id : Option Text
  pub drops_tags : Bool
  pub drop_campaign_eligible : Option Bool
  pub drop_watch_target : Option DropWatchTarget
  pub viewers_count : ℕ  -- u32
  pub payload : List Value
  pub watch_streak_missing : Bool
  pub watch_streak_count : Option ℕ  -- u32
  pub watch_streak_resolved_at : Option Time
  pub watch_streak_expires_at : Option Time
  pub streak_carryover_until : Option Time
  pub minute_watched : F64
  pub stream_up_at : Option Time
  pub last_update : Option Time
  pub last_minute_update : Option Time

-- `Stream::default`.
abbrev pub default_stream : Stream
default_stream = record {
  broadcast_id = [];
  title = [];
  game = none;
  game_id = none;
  drops_tags = false;
  drop_campaign_eligible = none;
  drop_watch_target = none;
  viewers_count = 0;
  payload = [];
  watch_streak_missing = true;
  watch_streak_count = none;
  watch_streak_resolved_at = none;
  watch_streak_expires_at = none;
  streak_carryover_until = none;
  minute_watched = f64_zero;
  stream_up_at = none;
  last_update = none;
  last_minute_update = none;
}

-- `Stream::update`.
unfoldable pub update :
    Text → Text → Game → Option Text → List Text → ℕ → Text → Time → Stream → Stream
update broadcast_id title game game_id tag_ids viewers drop_id now s = record s {
  broadcast_id = broadcast_id;
  title = trim title;
  game_id = filter_option (λ value. not (is_blank value)) game_id;
  drops_tags =
      any (λ tag. text_eq tag drop_id) tag_ids && (is_some game.display_name || is_some game.name);
  game = some game;
  viewers_count = viewers;
  last_update = some now;
}

-- `Stream::update_required_at`.
unfoldable pub update_required_at : Stream → Time → Bool
update_required_at s now =
    is_none_or s.last_update (λ last_update. leb (seconds 120) (now - last_update))

-- `Stream::update_minute_watched`.
unfoldable pub update_minute_watched : Platform → Time → ℕ → Stream → Stream
update_minute_watched p now maximum_continuous_seconds s = record s {
  minute_watched = elim s.last_minute_update [
    | none ↦ s.minute_watched
    | some last_minute_update ↦
        let elapsed = now - last_minute_update in
        if ltb 0 elapsed && leb elapsed (seconds maximum_continuous_seconds)
        then p.f64_add s.minute_watched (p.f64_div (p.as_seconds_f64 elapsed) f64_sixty)
        else s.minute_watched
  ];
  last_minute_update = some now;
}

-- `Stream::apply_watch_streak_milestone`.
unfoldable pub apply_watch_streak_milestone : Option ℕ → Time → Option Time → Stream → Stream
apply_watch_streak_milestone value resolved_at expires_at s = record s {
  watch_streak_missing = false;
  watch_streak_count = value;
  watch_streak_resolved_at = some resolved_at;
  watch_streak_expires_at = expires_at;
}

-- `Stream::mark_watch_streak_resolved`.
unfoldable pub mark_watch_streak_resolved : Time → Stream → Stream
mark_watch_streak_resolved resolved_at s = record s {
  watch_streak_missing = false;
  watch_streak_resolved_at = some resolved_at;
}

-- `Stream::reset_watch_progress`.
unfoldable pub reset_watch_progress : Stream → Stream
reset_watch_progress s = record s { minute_watched = f64_zero; last_minute_update = none }

-- `Stream::has_active_drop_campaign`.
unfoldable pub has_active_drop_campaign : Stream → Bool
has_active_drop_campaign s = is_some_and s.drop_campaign_eligible (λ eligible. eligible)

-- `Stream::game_name`.
unfoldable pub game_name : Stream → Text
game_name s = elim s.game [
  | none ↦ []
  | some game ↦ elim (or_option game.display_name game.name) [ none ↦ [] | some value ↦ trim value ]
]
