-- ===== src/Witnesses/Domain.antt =====
-- Concrete runs of the decisions on predictions.
use twitch_miner_rust.Base.{not, false, ◌&&◌, is_empty, map, true, ◌≡◌, refl, ◌⊎◌, some, ◌∷◌, []}
use twitch_miner_rust.Base.Int.{pos, ◌≤ℤ◌}
use twitch_miner_rust.Base.Result.{ok}
use twitch_miner_rust.Domain.Float.{f64_zero, f64_ten, f64_is_nan}
use twitch_miner_rust.Domain.Prediction.Filter.{
  compared_value, by_choice, of_outcome, should_skip_by_filter,
}
use twitch_miner_rust.Domain.Prediction.Filter.Meets.{Meets, should_skip_by_filter-Meets}
use twitch_miner_rust.Domain.Settings.{default_bet_settings, FilterCondition, odds, gte}
use twitch_miner_rust.Domain.PredictionEvent.{PredictionDecision, default_decision, PredictionEvent}
use twitch_miner_rust.Domain.Prediction.Stake.{
  stake_amount, max_prediction_points, decide_with_stealth_offset,
}
use twitch_miner_rust.Domain.Prediction.Stake.Bounds.{
  IsWithin, Decides, stake_amount_bounds, decide_with_stealth_offset_total,
}
use twitch_miner_rust.Domain.Prediction.Choice.{max_index_by_key, scan_max}
use twitch_miner_rust.Domain.Prediction.Choice.Maximum.{IsFirstMax, max_index_by_key_first}
use twitch_miner_rust.Base.Text.{str, contains}
use twitch_miner_rust.Domain.Priority.{normalize_list}
use twitch_miner_rust.Domain.Priority.Normal.{normal_form, is_distinct, normalize_list_lem}
use twitch_miner_rust.Witnesses.{
  ascii_platform, open_prediction, blue_outcome, pink_outcome, blue_decision,
}

stake_amount_bounds_example :
    let amount = stake_amount default_bet_settings (pos 1000) (pos 50) 3 in
    (pos 0 ≤ℤ amount)
    × (amount ≤ℤ pos 1000)
    × IsWithin (some 50000) amount
    × (amount ≤ℤ pos max_prediction_points)
stake_amount_bounds_example = stake_amount_bounds default_bet_settings (pos 1000) (pos 50) 3

decide_with_stealth_offset_total_example :
    (decision : PredictionDecision) × (decide_with_stealth_offset ascii_platform open_prediction
        (pos 1000)
        3
      ≡ some (record open_prediction { decision = decision }, decision))
    × ((decision ≡ default_decision) ⊎ Decides open_prediction (pos 1000) decision)
decide_with_stealth_offset_total_example =
    decide_with_stealth_offset_total ascii_platform open_prediction (pos 1000) 3

chosen_pink : max_index_by_key (blue_outcome ∷ pink_outcome ∷ []) (λ o. o.total_users) ≡ some 1
unfolding max_index_by_key scan_max
chosen_pink = refl

max_index_by_key_first_example :
    IsFirstMax (λ o. o.total_users) (blue_outcome ∷ pink_outcome ∷ []) 1
max_index_by_key_first_example =
    max_index_by_key_first (blue_outcome ∷ pink_outcome ∷ []) (λ o. o.total_users) 1 chosen_pink

abbrev odds_filter : FilterCondition
odds_filter = record { by = odds; condition = gte; value = some f64_ten }

-- A decided bet on blue, under the filter on the odds.
abbrev decided_prediction : PredictionEvent
decided_prediction = record open_prediction {
  decision = blue_decision;
  streamer = record open_prediction.streamer {
    settings = record open_prediction.streamer.settings {
      bet = record open_prediction.streamer.settings.bet { filter_condition = some odds_filter };
    };
  };
}

blue_odds : compared_value ascii_platform decided_prediction odds ≡ ok f64_zero
unfolding compared_value by_choice of_outcome
blue_odds = refl

is_nan_zero : f64_is_nan f64_zero ≡ false
unfolding f64_is_nan
is_nan_zero = refl

is_nan_ten : f64_is_nan f64_ten ≡ false
unfolding f64_is_nan
is_nan_ten = refl

should_skip_by_filter-Meets_example :
    let result = should_skip_by_filter ascii_platform decided_prediction in
    (result.1 ≡ f64_zero)
    × ((result.0 ≡ false) × Meets gte f64_zero f64_ten
        ⊎ (result.0 ≡ true) × ¬ Meets gte f64_zero f64_ten)
should_skip_by_filter-Meets_example =
    should_skip_by_filter-Meets ascii_platform decided_prediction odds_filter f64_ten f64_zero refl
      refl blue_odds is_nan_zero is_nan_ten

normalize_list_lem_example :
    let values = str " Chess" ∷ str "chess " ∷ str "" ∷ [] in
    (contains (normalize_list ascii_platform values) (str "chess") ≡ (
      not (is_empty (str "chess"))
      && contains (map (normal_form ascii_platform) values) (str "chess")))
    × (is_distinct (normalize_list ascii_platform values) ≡ true)
normalize_list_lem_example =
    normalize_list_lem ascii_platform (str " Chess" ∷ str "chess " ∷ str "" ∷ []) (str "chess")
