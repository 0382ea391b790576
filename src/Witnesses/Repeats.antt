-- ===== src/Witnesses/Repeats.antt =====
-- Concrete runs of events that are delivered twice.
use twitch_miner_rust.Base.{none, arith, ◌≡◌, refl, true, false, some, [], ◌∷◌, if◌then◌else◌}
use twitch_miner_rust.Base.Int.{pos}
use twitch_miner_rust.Base.Text.{
  Text, str, text_eq, contains, is_blank, trim, trim_start, is_whitespace,
}
use twitch_miner_rust.Domain.Streamer.{Streamer, can_earn_channel_points}
use twitch_miner_rust.Domain.Stream.{Time}
use twitch_miner_rust.Runtime.Points.{watch_reason}
use twitch_miner_rust.Runtime.State.{find_streamer, unchanged, changed, claim_bonus}
use twitch_miner_rust.Runtime.Events.{
  on_claim_available, on_points_earned, account_points, matched_prediction_id, point_event_key,
}
use twitch_miner_rust.Runtime.Events.Repeats.{on_claim_available_once, on_points_earned_once}
use twitch_miner_rust.Base.Map
use twitch_miner_rust.Domain.PredictionEvent.{PredictionEvent}
use twitch_miner_rust.Runtime.State.{RuntimeState, RuntimeEffect, prediction_settled}
use twitch_miner_rust.Runtime.PredictionEvents.{on_event_updated}
use twitch_miner_rust.Runtime.PredictionEvents.Updates.{on_event_updated_once}
use twitch_miner_rust.Base.Text.{ascii_upper, show_nat}
use twitch_miner_rust.Base.Int.{wrap_i64, ◌-ℤ◌}
use twitch_miner_rust.Domain.Formatting.{format_channel_points}
use twitch_miner_rust.Domain.Prediction.Settlement.{parse_result, decision_label, choice_label}
use twitch_miner_rust.Runtime.Settlement.{
  prediction_status_is_resolved, build_prediction_settlement_effect,
}
use twitch_miner_rust.Witnesses.{
  ascii_platform, event, open_prediction, placed_prediction, placed_state, channel, rich_streamer,
  empty_state,
}

rich_found : find_streamer channel empty_state.streamers ≡ some rich_streamer
unfolding find_streamer text_eq
rich_found = refl

rich_earns : can_earn_channel_points rich_streamer ≡ true
unfolding can_earn_channel_points
rich_earns = refl

claim_named : is_blank (str "claim") ≡ false
unfolding is_blank trim trim_start is_whitespace
claim_named = refl

on_claim_available_once_example :
    let (after, outcome) = on_claim_available channel (str "claim") empty_state in
    (outcome ≡ (
      if contains [] (str "claim")
      then unchanged
      else changed (claim_bonus channel (str "claim") ∷ [])))
    × (on_claim_available channel (str "claim") after ≡ (after, unchanged))
on_claim_available_once_example =
    on_claim_available_once channel (str "claim") empty_state rich_streamer rich_found rich_earns
      claim_named

-- The state after a gain of 10 points under an identifier.
abbrev gain : Text → Time → RuntimeState → RuntimeState
gain source now state =
    (on_points_earned channel (pos 10) watch_reason (pos 1010) (some source) now state).0

-- The channel after that.
abbrev gaining : Text → Time → Streamer → Streamer
gaining source now s =
    (account_points none (pos 10) watch_reason (pos 1010) now
      (point_event_key (pos 10) watch_reason (pos 1010) (some source)) s).0

gain_counts :
    (on_points_earned channel
      (pos 10)
      watch_reason
      (pos 1010)
      (some (str "m1"))
      5
      empty_state).1.changed
    ≡ true
unfolding on_points_earned find_streamer text_eq can_earn_channel_points account_points
    matched_prediction_id contains
gain_counts = refl

gain_left :
    find_streamer channel (gain (str "m1") 5 empty_state).streamers
    ≡ some (gaining (str "m1") 5 rich_streamer)
unfolding find_streamer on_points_earned text_eq can_earn_channel_points
    twitch_miner_rust.Runtime.State.replace_streamer contains
    twitch_miner_rust.Runtime.Points.apply_pubsub_gain
gain_left = refl

two_gains_left :
    find_streamer channel (gain (str "m2") 7 (gain (str "m1") 5 empty_state)).streamers
    ≡ some (gaining (str "m2") 7 (gaining (str "m1") 5 rich_streamer))
unfolding find_streamer on_points_earned text_eq can_earn_channel_points
    twitch_miner_rust.Runtime.State.replace_streamer contains
    twitch_miner_rust.Runtime.Points.apply_pubsub_gain
    twitch_miner_rust.Runtime.Dedupe.remember_mutation_id is_blank
two_gains_left = refl

gaining_earns :
    can_earn_channel_points (gaining (str "m2") 7 (gaining (str "m1") 5 rich_streamer)) ≡ true
unfolding can_earn_channel_points account_points contains
    twitch_miner_rust.Runtime.Dedupe.remember_mutation_id is_blank point_event_key text_eq
    twitch_miner_rust.Runtime.Points.apply_pubsub_gain
gaining_earns = refl

abbrev key_of : Text → Text
key_of source = point_event_key (pos 10) watch_reason (pos 1010) (some source)

one_key : (gaining (str "m1") 5 rich_streamer).processed_point_event_keys ≡ key_of (str "m1") ∷ []
unfolding account_points contains twitch_miner_rust.Runtime.Dedupe.remember_mutation_id is_blank
    point_event_key text_eq twitch_miner_rust.Runtime.Points.apply_pubsub_gain
    twitch_miner_rust.Runtime.Dedupe.is_protected twitch_miner_rust.Base.Text.starts_with
one_key = refl

two_keys :
    (gaining (str "m2") 7 (gaining (str "m1") 5 rich_streamer)).processed_point_event_keys
    ≡ key_of (str "m1") ∷ key_of (str "m2") ∷ []
unfolding account_points contains twitch_miner_rust.Runtime.Dedupe.remember_mutation_id is_blank
    point_event_key text_eq twitch_miner_rust.Runtime.Points.apply_pubsub_gain
    twitch_miner_rust.Runtime.Dedupe.is_protected twitch_miner_rust.Base.Text.starts_with
two_keys = refl

contains_longer : (a b key : Text) → contains (a ∷ []) key ≡ true → contains (a ∷ b ∷ []) key ≡ true
unfolding contains
contains_longer a b key h = ground (arith, h)

gaining_keeps :
    (key : Text)
    → contains (gaining (str "m1") 5 rich_streamer).processed_point_event_keys key ≡ true
    → contains
        (gaining (str "m2") 7 (gaining (str "m1") 5 rich_streamer)).processed_point_event_keys
        key
      ≡ true
gaining_keeps key h =
    rw two_keys (contains_longer (key_of (str "m1")) (key_of (str "m2")) key (rw one_key at h))

on_points_earned_once_example :
    let between = gain (str "m2") 7 (gain (str "m1") 5 empty_state) in
    on_points_earned channel (pos 10) watch_reason (pos 1010) (some (str "m1")) 9 between
    ≡ (between, unchanged)
on_points_earned_once_example =
    on_points_earned_once channel (pos 10) watch_reason (pos 1010) (some (str "m1")) 5 9 empty_state
      (gain (str "m2") 7 (gain (str "m1") 5 empty_state)) rich_streamer
      (gaining (str "m1") 5 rich_streamer)
      (gaining (str "m2") 7 (gaining (str "m1") 5 rich_streamer)) rich_found rich_earns gain_counts
      gain_left two_gains_left gaining_earns gaining_keeps

-- A confirmed bet on blue, whose prediction is canceled.
abbrev confirmed_state : RuntimeState
confirmed_state = record placed_state {
  predictions = (event, record placed_prediction { bet_confirmed = true }) ∷ [];
}

abbrev canceled_event : PredictionEvent
canceled_event = record open_prediction { status = str "CANCELED" }

abbrev refund_effect : RuntimeEffect
refund_effect =
    prediction_settled event (str "alice") (str "win?") (str "A: yes (BLUE)") (str "REFUND")
      (str "REFUND, Refunded: +0")

cancel_refunds :
    (on_event_updated ascii_platform canceled_event none confirmed_state).1.effects
    ≡ refund_effect ∷ []
unfolding on_event_updated Map.get text_eq prediction_status_is_resolved
    build_prediction_settlement_effect parse_result decision_label trim choice_label ascii_upper
    wrap_i64 ◌-ℤ◌ format_channel_points show_nat
cancel_refunds = refl

on_event_updated_once_example :
    let after = (on_event_updated ascii_platform canceled_event none confirmed_state).0 in
    (Map.get event after.predictions ≡ none)
    × (on_event_updated ascii_platform canceled_event none after ≡ (after, unchanged))
on_event_updated_once_example =
    on_event_updated_once ascii_platform canceled_event canceled_event none none confirmed_state
      refund_effect refl (omega arith) cancel_refunds
