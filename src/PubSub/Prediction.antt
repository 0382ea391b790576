-- ===== src/PubSub/Prediction.antt =====
-- crates/tm-pubsub/src/prediction.rs: the prediction of a message. The errors are texts.
use twitch_miner_rust.Base.{
  Bool, true, false, not, ◌&&◌, ◌||◌, Option, none, some, List, [], ◌∷◌, length, if◌then◌else◌, ltb,
  filter_option, map_option, or_option, unwrap_or,
}
use twitch_miner_rust.Base.Int.{ℤ, pos}
use twitch_miner_rust.Base.Text.{Text, str, text_eq, trim}
use twitch_miner_rust.Domain.Float.{F64, f64_abs, f64_le, f64_zero}
use twitch_miner_rust.Domain.Json.{Value, Values, nil, cons, get_key, as_str}
use twitch_miner_rust.Domain.Platform.{Platform}
use twitch_miner_rust.Domain.Prediction.Stake.{update_outcomes}
use twitch_miner_rust.Domain.PredictionEvent.{PredictionEvent, PredictionOutcome, default_decision}
use twitch_miner_rust.Domain.Stream.{Time}
use twitch_miner_rust.Domain.Streamer.{Streamer}
use twitch_miner_rust.PubSub.Payload.{
  and_then, as_array, as_bool, as_f64, nonnegative, trimmed_text,
}
use twitch_miner_rust.PubSub.Protocol.{
  Formats, Result, ok, err, ◌>>=◌, ◌>>◌, ok_or, to_option, refuse_if,
}

unfoldable pub required_text : Value → Text → Text → Result Text Text
required_text value name error = ok_or (trimmed_text (get_key name value)) error

unfoldable pub nonnegative_alias : Value → Text → Text → Option ℤ
nonnegative_alias value primary alternate =
    nonnegative (or_option (get_key primary value) (get_key alternate value))

unfoldable pub optional_timestamp : Formats → Value → Text → Result Text (Option Time)
optional_timestamp f value name = elim (get_key name value) as (λ _. Result Text (Option Time)) [
  | none ↦ ok none
  | some raw ↦
      ok_or (map_option (λ time. some time) (and_then (as_str raw) f.parse_rfc3339))
        (str "prediction event has invalid created_at")
]

unfoldable pub f64_is_finite : F64 → Bool
f64_is_finite a = ltb (f64_abs a) 0x7ff0000000000000

unfoldable pub optional_nonnegative_float : Platform → Value → Text → Result Text (Option F64)
unfolding f64_is_finite
optional_nonnegative_float p value name =
    elim (get_key name value) as (λ _. Result Text (Option F64)) [
      | none ↦ ok none
      | some raw ↦
          ok_or
            (map_option (λ window. some window)
              (filter_option (λ window. f64_is_finite window && f64_le f64_zero window)
                (as_f64 p raw)))
            (str "prediction event has invalid window")
    ]

-- `as_array().and_then(|values| values.first())`.
first_of : Values → Option Value
first_of nil = none
first_of (cons v vs) = some v

unfoldable pub top_points_of : Value → ℤ
unfolding first_of nonnegative_alias
top_points_of raw =
    unwrap_or
      (and_then (and_then (and_then (get_key (str "top_predictors") raw) as_array) first_of)
        (λ predictor. nonnegative_alias predictor (str "points") (str "channel_points_used")))
      (pos 0)

unfoldable pub parse_prediction_outcome : Value → Result Text PredictionOutcome
unfolding required_text nonnegative_alias top_points_of
parse_prediction_outcome raw = do
  total_users ←
      ok_or (nonnegative_alias raw (str "total_users") (str "users"))
        (str "prediction outcome users are missing or invalid")
  total_points ←
      ok_or (nonnegative_alias raw (str "total_points") (str "channel_points"))
        (str "prediction outcome points are missing or invalid")
  id ← required_text raw (str "id") (str "prediction outcome id is missing")
  title ← required_text raw (str "title") (str "prediction outcome title is missing")
  color ← required_text raw (str "color") (str "prediction outcome color is missing")
  ok (record {
    id = id;
    title = title;
    color = color;
    total_users = total_users;
    total_points = total_points;
    top_points = top_points_of raw;
    percentage_users = f64_zero;
    odds = f64_zero;
    odds_percentage = f64_zero;
  })

-- `map(parse_prediction_outcome).collect()`: the first error.
unfoldable pub collect_outcomes : Values → Result Text (List PredictionOutcome)
unfolding parse_prediction_outcome
collect_outcomes nil = ok []
collect_outcomes (cons raw raws) =
    let rest = collect_outcomes raws in
    parse_prediction_outcome raw >>= λ outcome. rest >>= λ outcomes. ok (outcome ∷ outcomes)

-- The outcomes as an array. An update whose outcomes are incomplete has none.
unfoldable pub outcomes_in : Option Values → Bool → Result Text (List PredictionOutcome)
unfolding collect_outcomes
outcomes_in none true = err (str "prediction event outcomes are invalid")
outcomes_in none false = ok []
outcomes_in (some raw_outcomes) true = collect_outcomes raw_outcomes
outcomes_in (some raw_outcomes) false =
    ok (unwrap_or (to_option (collect_outcomes raw_outcomes)) [])

unfoldable pub outcomes_of : Option Value → Bool → Result Text (List PredictionOutcome)
unfolding outcomes_in
outcomes_of none is_created = ok []
outcomes_of (some raw_outcomes) is_created = outcomes_in (as_array raw_outcomes) is_created

unfoldable pub parse_prediction_outcomes : Value → Bool → Result Text (List PredictionOutcome)
unfolding outcomes_of
parse_prediction_outcomes raw_event is_created =
    outcomes_of (get_key (str "outcomes") raw_event) is_created

unfoldable pub created_at_of : Formats → Value → Bool → Result Text Time
unfolding optional_timestamp
created_at_of f raw_event true = optional_timestamp f raw_event (str "created_at") >>= λ found.
    ok_or found (str "prediction event created_at is missing")
created_at_of f raw_event false = ok (
    unwrap_or
      (and_then (to_option (optional_timestamp f raw_event (str "created_at"))) (λ found. found))
      f.unix_epoch)

unfoldable pub window_of : Platform → Value → Bool → Result Text F64
unfolding optional_nonnegative_float
window_of p raw_event true =
    optional_nonnegative_float p raw_event (str "prediction_window_seconds") >>= λ found.
    ok_or found (str "prediction event window is missing")
window_of p raw_event false = ok (
    unwrap_or
      (and_then
        (to_option (optional_nonnegative_float p raw_event (str "prediction_window_seconds")))
        (λ found. found))
      f64_zero)

unfoldable pub title_of : Value → Bool → Result Text Text
unfolding required_text
title_of raw_event true =
    required_text raw_event (str "title") (str "prediction event title is missing")
title_of raw_event false =
    ok (unwrap_or (map_option trim (and_then (get_key (str "title") raw_event) as_str)) [])

unfoldable pub is_created_status : Text → Bool
is_created_status status =
    text_eq status (str "ACTIVE")
    || text_eq status (str "LOCKED")
    || text_eq status (str "RESOLVED")
    || text_eq status (str "CANCELED")
    || text_eq status (str "CANCELLED")

unfoldable pub parse_prediction_event :
    Platform → Formats → Streamer → Value → Bool → Result Text PredictionEvent
unfolding created_at_of window_of parse_prediction_outcomes required_text title_of is_created_status
parse_prediction_event p f streamer raw_event is_created = do
  created_at ← created_at_of f raw_event is_created
  raw_window ← window_of p raw_event is_created
  outcomes ← parse_prediction_outcomes raw_event is_created
  refuse_if (is_created && ltb (length outcomes) 2)
      (str "prediction event has fewer than two outcomes")
  event_id ← required_text raw_event (str "id") (str "prediction event id is missing")
  title ← title_of raw_event is_created
  raw_status ← required_text raw_event (str "status") (str "prediction event status is missing")
  let status = p.to_uppercase raw_status
  refuse_if (is_created && not (is_created_status status))
      (str "prediction event status is unsupported")
  ok (
      update_outcomes p (record {
        streamer = streamer;
        event_id = event_id;
        title = title;
        status = status;
        created_at = created_at;
        window_seconds = raw_window;
        outcomes = outcomes;
        decision = default_decision;
        bet_placed = false;
        bet_confirmed = false;
        result_type = [];
        result_string = [];
      }))

-- The identifier of an outcome that is marked as the winner.
unfoldable pub winning_id_of : Platform → Value → Option Text
winning_id_of p outcome =
    let state = p.to_uppercase (unwrap_or (and_then (get_key (str "state") outcome) as_str) []) in
    if unwrap_or (and_then (get_key (str "is_winning_outcome") outcome) as_bool) false
    then trimmed_text (get_key (str "id") outcome)
    else if text_eq state (str "RESOLVED")
        || text_eq state (str "WINNER")
        || text_eq state (str "WIN")
    then trimmed_text (get_key (str "id") outcome)
    else none

unfoldable pub first_winning_id : Platform → Values → Option Text
unfolding winning_id_of
first_winning_id p nil = none
first_winning_id p (cons outcome outcomes) =
    or_option (winning_id_of p outcome) (first_winning_id p outcomes)

unfoldable pub winning_outcome_id : Platform → Value → Option Text
unfolding first_winning_id
winning_outcome_id p raw_event =
    or_option (trimmed_text (get_key (str "winning_outcome_id") raw_event))
      (and_then (and_then (get_key (str "outcomes") raw_event) as_array) (first_winning_id p))
