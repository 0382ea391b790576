-- ===== src/Witnesses.antt =====
-- Concrete runs: the data they start from, and the theorems of the library applied to it.
use twitch_miner_rust.Base.{true, false, some, [], ◌∷◌, refl, map}
use twitch_miner_rust.Base.Int.{pos}
use twitch_miner_rust.Base.Text.{Text, str, ascii_upper, ascii_lower}
use twitch_miner_rust.Domain.Float.{f64_zero}
use twitch_miner_rust.Domain.Platform.{Platform}
use twitch_miner_rust.Domain.Settings.{default_streamer_settings, StreamerSettings}
use twitch_miner_rust.Domain.Streamer.{Streamer, default_streamer}
use twitch_miner_rust.Domain.PredictionEvent.{
  PredictionEvent, PredictionDecision, PredictionOutcome, default_decision,
}
use twitch_miner_rust.Runtime.State.{RuntimeState}
pub mod Domain
pub mod Presence
pub mod Points
pub mod Predictions
pub mod Repeats
pub mod Selection
pub mod Messages
pub mod Journal

-- A platform with case mappings of ASCII letters and no rounding arithmetic to speak of.
abbrev pub ascii_platform : Platform
ascii_platform = record {
  f64_add = λ a b. a;
  f64_sub = λ a b. a;
  f64_mul = λ a b. a;
  f64_div = λ a b. a;
  f64_min = λ a b. a;
  f64_max = λ a b. a;
  f64_sum = λ values. f64_zero;
  round_u32 = λ a. 0;
  from_secs_f64 = λ a. 0;
  f64_of_int = λ n. f64_zero;
  as_seconds_f64 = λ n. f64_zero;
  fixed_two = λ a. str "0.00";
  to_uppercase = map ascii_upper;
  to_lowercase = map ascii_lower;
  to_uppercase_ascii = λ s h. refl;
  to_lowercase_ascii = λ s h. refl;
}

abbrev pub channel : Text
channel = str "c1"

abbrev pub betting_settings : StreamerSettings
betting_settings = record default_streamer_settings { make_predictions = true }

-- A channel with 1,000 points.
abbrev pub rich_streamer : Streamer
rich_streamer = record default_streamer {
  username = str "alice";
  channel_id = channel;
  channel_points = pos 1000;
  settings = betting_settings;
  channel_points_enabled = some true;
}

abbrev pub blue_outcome : PredictionOutcome
blue_outcome = record {
  id = str "blue";
  title = str "yes";
  color = str "BLUE";
  total_users = pos 3;
  total_points = pos 100;
  top_points = pos 50;
  percentage_users = f64_zero;
  odds = f64_zero;
  odds_percentage = f64_zero;
}

abbrev pub pink_outcome : PredictionOutcome
pink_outcome = record blue_outcome {
  id = str "pink";
  color = str "PINK";
  total_users = pos 4;
  total_points = pos 300;
}

abbrev pub blue_decision : PredictionDecision
blue_decision = record { choice = some 0; outcome_id = str "blue"; amount = pos 50 }

abbrev pub event : Text
event = str "e1"

-- A new prediction of the channel.
abbrev pub open_prediction : PredictionEvent
open_prediction = record {
  streamer = rich_streamer;
  event_id = event;
  title = str "win?";
  status = str "ACTIVE";
  created_at = 0;
  window_seconds = f64_zero;
  outcomes = blue_outcome ∷ pink_outcome ∷ [];
  decision = default_decision;
  bet_placed = false;
  bet_confirmed = false;
  result_type = [];
  result_string = [];
}

-- The same with a bet on it.
abbrev pub placed_prediction : PredictionEvent
placed_prediction = record open_prediction { decision = blue_decision; bet_placed = true }

abbrev pub empty_state : RuntimeState
empty_state = record {
  started_at = 0;
  follower_mode = false;
  watch_priorities = [];
  game_priority = [];
  game_exclusions = [];
  streamers = rich_streamer ∷ [];
  initial_points = [];
  predictions = [];
  pending_prediction_winners = [];
  retired_streamers = [];
  processed_prediction_ids = [];
  completed_predictions = [];
}

abbrev pub open_state : RuntimeState
open_state = record empty_state {
  predictions = (event, open_prediction) ∷ [];
  processed_prediction_ids = event ∷ [];
}

abbrev pub placed_state : RuntimeState
placed_state = record open_state { predictions = (event, placed_prediction) ∷ [] }
