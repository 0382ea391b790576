-- ===== src/Domain/Settings.antt =====
-- crates/tm-domain/src/types.rs: the settings of a streamer and of its bets.
use twitch_miner_rust.Base.{ℕ, Bool, true, false, Option, none, some}
use twitch_miner_rust.Base.Int.{ℤ}
use twitch_miner_rust.Domain.Float.{F64, f64_six}

pub data Strategy : Type 0 where
  most_voted high_odds percentage smart_money smart : Strategy
  number1 number2 number3 number4 number5 number6 number7 number8 : Strategy

pub data DelayMode : Type 0 where
  from_start from_end percentage : DelayMode

pub data IrcMode : Type 0 where
  always never online offline : IrcMode

pub data Condition : Type 0 where
  gt lt gte lte : Condition

pub data OutcomeKey : Type 0 where
  percentage_users odds odds_percentage top_points : OutcomeKey
  total_users total_points decision_users decision_points : OutcomeKey

pub record FilterCondition : Type 0 where
  pub by : OutcomeKey
  pub condition : Condition
  pub value : Option F64

pub record BetSettings : Type 0 where
  pub strategy : Strategy
  pub percentage : Option ℕ  -- u32
  pub percentage_gap : Option ℕ  -- u32
  pub max_points : Option ℕ  -- u32
  pub minimum_points : Option ℕ  -- u32
  pub stealth_mode : Option Bool
  pub deduct_stake_on_place : Option Bool
  pub filter_condition : Option FilterCondition
  pub delay : Option F64
  pub delay_mode : DelayMode

-- `BetSettings::default`.
abbrev pub default_bet_settings : BetSettings
default_bet_settings = record {
  strategy = smart;
  percentage = some 5;
  percentage_gap = some 20;
  max_points = some 50000;
  minimum_points = some 0;
  stealth_mode = some false;
  deduct_stake_on_place = some true;
  filter_condition = none;
  delay = some f64_six;
  delay_mode = from_end;
}

pub record StreamerSettings : Type 0 where
  pub make_predictions : Bool
  pub follow_raid : Bool
  pub farm_drops : Bool
  pub claim_drops : Bool
  pub single_watcher_during_drops : Bool
  pub claim_moments : Bool
  pub watch_streak : Bool
  pub watch_streak_vod_recovery : Bool
  pub community_goals : Bool
  pub points_limit : Option ℤ
  pub bet : BetSettings
  pub irc_mode : IrcMode

-- `StreamerSettings::default`, derived.
abbrev pub default_streamer_settings : StreamerSettings
default_streamer_settings = record {
  make_predictions = false;
  follow_raid = false;
  farm_drops = false;
  claim_drops = false;
  single_watcher_during_drops = false;
  claim_moments = false;
  watch_streak = false;
  watch_streak_vod_recovery = false;
  community_goals = false;
  points_limit = none;
  bet = default_bet_settings;
  irc_mode = online;
}

-- `StreamerSettings::for_discovered`.
unfoldable pub for_discovered : StreamerSettings → StreamerSettings
for_discovered s = record s {
  make_predictions = false;
  follow_raid = false;
  farm_drops = false;
  claim_drops = false;
  single_watcher_during_drops = false;
  claim_moments = false;
  watch_streak = true;
  watch_streak_vod_recovery = false;
  community_goals = false;
  points_limit = none;
  irc_mode = never;
}
