-- ===== src/Runtime/Settlement.antt =====
-- crates/tm-runtime/src/prediction.rs: the settlement of a prediction that was resolved.
pub mod Payout
pub mod Share
use twitch_miner_rust.Base.{
  ℕ, ◌*◌, ◌/◌, Bool, not, ◌||◌, Option, none, some, List, [], ◌∷◌, find, any, leb, if◌then◌else◌,
}
use twitch_miner_rust.Base.Int.{ℤ, pos, negsuc, pos_part, leb_ℤ, max_ℤ, saturate_i64, ◌+ℤ◌}
use twitch_miner_rust.Base.Text.{Text, text_eq, str}
use twitch_miner_rust.Domain.Platform.{Platform}
use twitch_miner_rust.Domain.PredictionEvent.{
  PredictionOutcome, PredictionDecision, PredictionSettlement, PredictionEvent,
}
use twitch_miner_rust.Domain.Prediction.Settlement.{parse_result, refund_type, lose_type, win_type}
use twitch_miner_rust.Runtime.State.{RuntimeEffect, prediction_settled}

abbrev pub resolved_status : Text
resolved_status = str "RESOLVED"

abbrev pub is_canceled : Text → Bool
is_canceled status = text_eq status (str "CANCELED") || text_eq status (str "CANCELLED")

-- `prediction_status_is_resolved`.
unfoldable pub prediction_status_is_resolved : Text → Bool
prediction_status_is_resolved status = text_eq status resolved_status || is_canceled status

-- `i128::MAX`.
abbrev pub i128_max : ℕ
i128_max = 170141183460469231731687303715884105727

-- A saturating operation of `i128`.
unfoldable pub saturate_i128 : ℤ → ℤ
saturate_i128 (pos n) = if leb n i128_max then pos n else pos i128_max
saturate_i128 (negsuc n) = if leb n i128_max then negsuc n else negsuc i128_max

-- The points of all outcomes, added to those so far.
unfoldable pub pool_from : ℤ → List PredictionOutcome → ℤ
unfolding saturate_i128
pool_from total [] = total
pool_from total (o ∷ os) = pool_from (saturate_i128 (total +ℤ o.total_points)) os

unfoldable pub pool : List PredictionOutcome → ℤ
unfolding pool_from
pool outcomes = pool_from (pos 0) outcomes

unfoldable pub winning_pool : Text → List PredictionOutcome → ℤ
winning_pool winning_outcome_id outcomes =
    elim (find (λ o. text_eq o.id winning_outcome_id) outcomes) [
      | none ↦ pos 0
      | some o ↦ o.total_points
    ]

-- The share of a stake in the pool, rounded to the nearest point; the pools are positive.
unfoldable pub rounded_share : ℕ → ℕ → ℕ → ℤ
unfolding saturate_i128
rounded_share amount total winning = saturate_i64 (
    pos (
      pos_part (saturate_i128 (saturate_i128 (pos (amount * total)) +ℤ pos (winning / 2)))
      / winning))

-- `payout_for_outcome`.
unfoldable pub payout_for_outcome : PredictionDecision → List PredictionOutcome → Text → ℤ
unfolding pool winning_pool rounded_share
payout_for_outcome decision outcomes winning_outcome_id =
    if leb_ℤ decision.amount (pos 0) || not (text_eq decision.outcome_id winning_outcome_id)
    then pos 0
    else let total = pool outcomes in
      let winning = winning_pool winning_outcome_id outcomes in
      if leb_ℤ total (pos 0) || leb_ℤ winning (pos 0)
      then decision.amount
      else max_ℤ (rounded_share (pos_part decision.amount) (pos_part total) (pos_part winning))
          decision.amount

-- The result type and the points won that the status and the winner stand for.
unfoldable pub settlement_of : PredictionEvent → Option Text → Option (Text × ℤ)
unfolding payout_for_outcome
settlement_of event winning_outcome_id =
    if is_canceled event.status
    then some (refund_type, pos 0)
    else if text_eq event.status resolved_status
    then elim winning_outcome_id as (λ _. Option (Text × ℤ)) [
      | none ↦ none
      | some winner ↦
          if not (any (λ o. text_eq o.id winner) event.outcomes)
          then none
          else if text_eq event.decision.outcome_id winner
          then some (win_type, payout_for_outcome event.decision event.outcomes winner)
          else some (lose_type, pos 0)
    ]
    else none

-- The effect of a settlement.
abbrev pub settled_effect : PredictionEvent → PredictionSettlement → RuntimeEffect
settled_effect event settlement =
    prediction_settled event.event_id event.streamer.username event.title settlement.decision_label
      settlement.result_type settlement.result_string

-- `build_prediction_settlement_effect`: the event with its result, and the effect. Where there is no
-- effect the event is left as it was.
unfoldable pub build_prediction_settlement_effect :
    Platform → PredictionEvent → Option Text → Option (PredictionEvent × RuntimeEffect)
unfolding settlement_of
build_prediction_settlement_effect p event winning_outcome_id =
    elim (settlement_of event winning_outcome_id) [
      | none ↦ none
      | some (result_type, points_won) ↦
          let (settled, settlement) = parse_result p result_type points_won event in
          some (settled, settled_effect settled settlement)
    ]
