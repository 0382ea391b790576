-- ===== src/Domain/Prediction/Filter.antt =====
-- crates/tm-domain/src/prediction.rs: `should_skip_by_filter`.
pub mod Meets
use twitch_miner_rust.Base.{
  ℕ, Bool, true, false, Option, none, some, [], ◌++◌, map, get_elem?, if◌then◌else◌,
}
use twitch_miner_rust.Base.Result.{Result, ok, err}
use twitch_miner_rust.Base.Text.{Text, str}
use twitch_miner_rust.Domain.Float.{F64, f64_lt, f64_le, f64_zero}
use twitch_miner_rust.Domain.Formatting.{trim_trailing_zeros}
use twitch_miner_rust.Domain.Platform.{Platform}
use twitch_miner_rust.Domain.PredictionEvent.{PredictionEvent, PredictionOutcome}
use twitch_miner_rust.Domain.Settings.{
  FilterCondition, Condition, gt, lt, gte, lte, OutcomeKey, percentage_users, odds, odds_percentage,
  top_points, total_users, total_points, decision_users, decision_points,
}

unfoldable pub format_float : Platform → F64 → Text
format_float p value = trim_trailing_zeros (p.fixed_two value)

-- The derived `Debug` of the keys and the conditions.
unfoldable pub key_name : OutcomeKey → Text
key_name percentage_users = str "PercentageUsers"
key_name odds = str "Odds"
key_name odds_percentage = str "OddsPercentage"
key_name top_points = str "TopPoints"
key_name total_users = str "TotalUsers"
key_name total_points = str "TotalPoints"
key_name decision_users = str "DecisionUsers"
key_name decision_points = str "DecisionPoints"

unfoldable pub condition_name : Condition → Text
condition_name gt = str "Gt"
condition_name lt = str "Lt"
condition_name gte = str "Gte"
condition_name lte = str "Lte"

unfoldable pub of_outcome : (PredictionOutcome → F64) → Option PredictionOutcome → Result Text F64
of_outcome selector none = err (str "filter_condition requires a decision outcome")
of_outcome selector (some outcome) = ok (selector outcome)

-- The closure `by_choice`.
unfoldable pub by_choice : PredictionEvent → Option ℕ → (PredictionOutcome → F64) → Result Text F64
unfolding of_outcome
by_choice event none selector = err (str "filter_condition requires a decision outcome")
by_choice event (some choice) selector = of_outcome selector (get_elem? event.outcomes choice)

-- The value that the filter compares, or the reason why there is none.
unfoldable pub compared_value : Platform → PredictionEvent → OutcomeKey → Result Text F64
unfolding by_choice
compared_value p event total_users =
    ok (p.f64_sum (map (λ o. p.f64_of_int o.total_users) event.outcomes))
compared_value p event total_points =
    ok (p.f64_sum (map (λ o. p.f64_of_int o.total_points) event.outcomes))
compared_value p event decision_users =
    by_choice event event.decision.choice (λ o. p.f64_of_int o.total_users)
compared_value p event decision_points =
    by_choice event event.decision.choice (λ o. p.f64_of_int o.total_points)
compared_value p event percentage_users =
    by_choice event event.decision.choice (λ o. o.percentage_users)
compared_value p event odds = by_choice event event.decision.choice (λ o. o.odds)
compared_value p event odds_percentage =
    by_choice event event.decision.choice (λ o. o.odds_percentage)
compared_value p event top_points =
    by_choice event event.decision.choice (λ o. p.f64_of_int o.top_points)

unfoldable pub passes : Condition → F64 → F64 → Bool
passes gt compared expected = f64_lt expected compared
passes lt compared expected = f64_lt compared expected
passes gte compared expected = f64_le expected compared
passes lte compared expected = f64_le compared expected

unfoldable pub filter_result :
    Platform → FilterCondition → F64 → Result Text F64 → Bool × F64 × Text
unfolding passes key_name condition_name format_float
filter_result p filter expected (err reason) = (true, f64_zero, reason)
filter_result p filter expected (ok compared) =
    if passes filter.condition compared expected then (false, compared, []) else (
      true,
      compared,
      str "filter_condition "
          ++ key_name filter.by
          ++ str " "
          ++ condition_name filter.condition
          ++ str " "
          ++ format_float p expected
          ++ str " not met (current "
          ++ format_float p compared
          ++ str ")",
    )

unfoldable pub filter_with :
    Platform → PredictionEvent → FilterCondition → Option F64 → Bool × F64 × Text
unfolding filter_result compared_value
filter_with p event filter none = (false, f64_zero, [])
filter_with p event filter (some expected) =
    filter_result p filter expected (compared_value p event filter.by)

unfoldable pub filter_by : Platform → PredictionEvent → Option FilterCondition → Bool × F64 × Text
unfolding filter_with
filter_by p event none = (false, f64_zero, [])
filter_by p event (some filter) = filter_with p event filter filter.value

-- Whether to skip, the compared value and the reason.
unfoldable pub should_skip_by_filter : Platform → PredictionEvent → Bool × F64 × Text
unfolding filter_by
should_skip_by_filter p event = filter_by p event event.streamer.settings.bet.filter_condition
