-- ===== src/Domain/Prediction/Display.antt =====
-- crates/tm-domain/src/prediction.rs: the Display of an outcome.
use twitch_miner_rust.Base.{◌++◌}
use twitch_miner_rust.Base.Text.{Text, str, trim}
use twitch_miner_rust.Domain.Formatting.{format_channel_points}
use twitch_miner_rust.Domain.Platform.{Platform}
use twitch_miner_rust.Domain.Prediction.Filter.{format_float}
use twitch_miner_rust.Domain.PredictionEvent.{PredictionOutcome}

unfoldable show_outcome : Platform → PredictionOutcome → Text
unfolding trim format_channel_points format_float
show_outcome p outcome =
    trim outcome.title
    ++ str " ("
    ++ p.to_uppercase outcome.color
    ++ str "), Points: "
    ++ format_channel_points p outcome.total_points
    ++ str ", Users: "
    ++ format_channel_points p outcome.total_users
    ++ str " ("
    ++ p.fixed_two outcome.percentage_users
    ++ str "%), Odds: "
    ++ format_float p outcome.odds
    ++ str " ("
    ++ format_float p outcome.odds_percentage
    ++ str "%)"
