-- ===== src/Domain/Prediction/Stake.antt =====
-- `decide_with_stealth_offset`: the outcome and the amount of a bet; and `update_outcomes`.
pub mod Bounds
use twitch_miner_rust.Base.{
  ℕ, ◌*◌, ◌/◌, false, ◌&&◌, Option, none, some, List, [], ◌∷◌, map, if◌then◌else◌, get_elem?,
  unwrap_or, leb,
}
use twitch_miner_rust.Base.Int.{
  ℤ, pos, pos_part, ltb_ℤ, leb_ℤ, max_ℤ, min_ℤ, saturate_i64, saturating_add, saturating_sub,
}
use twitch_miner_rust.Domain.Float.{f64_zero, f64_hundred, f64_lt}
use twitch_miner_rust.Domain.Platform.{Platform}
use twitch_miner_rust.Domain.Settings.{BetSettings}
use twitch_miner_rust.Domain.PredictionEvent.{
  PredictionOutcome, PredictionDecision, PredictionEvent, default_decision,
}
use twitch_miner_rust.Domain.Prediction.Choice.{select_outcome}

-- `MAX_PREDICTION_POINTS`.
abbrev pub max_prediction_points : ℕ
max_prediction_points = 250000

-- `percentage_of_balance`: computed exactly, and cut to the greatest `i64`.
unfoldable pub percentage_of_balance : ℤ → ℕ → ℤ
percentage_of_balance balance percentage = saturate_i64 (pos (pos_part balance * percentage / 100))

-- The amount before the stealth adjustment, of a balance that is not negative.
unfoldable pub plain_amount : BetSettings → ℤ → ℤ
unfolding percentage_of_balance
plain_amount settings balance =
    let share = percentage_of_balance balance (unwrap_or settings.percentage 5) in
    let capped = elim settings.max_points as (λ _. ℤ) [
      | none ↦ share
      | some max_points ↦ min_ℤ share (pos max_points)
    ] in
    let affordable = min_ℤ (min_ℤ capped balance) (pos max_prediction_points) in
    let minimum = elim settings.max_points as (λ _. ℤ) [
      | none ↦ pos 10
      | some max_points ↦ min_ℤ (pos max_points) (pos 10)
    ] in
    max_ℤ affordable (min_ℤ minimum balance)

-- `u8::clamp` between the least and the greatest offset.
pub clamp_offset : ℕ → ℕ
clamp_offset offset = if leb offset 1 then 1 else if leb 5 offset then 5 else offset

-- In stealth mode an amount that reaches the top stake goes below it.
unfoldable pub stealth_amount : BetSettings → ℤ → ℕ → ℤ → ℤ
unfolding clamp_offset
stealth_amount settings top_points stealth_offset amount =
    if unwrap_or settings.stealth_mode false
      && (ltb_ℤ (pos 1) top_points && leb_ℤ top_points amount)
    then max_ℤ (saturating_sub top_points (pos (clamp_offset stealth_offset)))
        (min_ℤ amount (pos 10))
    else amount

unfoldable pub stake_amount : BetSettings → ℤ → ℤ → ℕ → ℤ
unfolding plain_amount stealth_amount
stake_amount settings balance top_points stealth_offset =
    min_ℤ
      (stealth_amount settings top_points stealth_offset
        (plain_amount settings (max_ℤ balance (pos 0))))
      (pos max_prediction_points)

-- The new event and its decision; none is the panic of an index out of range.
unfoldable pub decide_with_stealth_offset :
    Platform → PredictionEvent → ℤ → ℕ → Option (PredictionEvent × PredictionDecision)
unfolding stake_amount
decide_with_stealth_offset p event balance stealth_offset =
    elim (select_outcome p event.outcomes event.streamer.settings.bet) [
      | none ↦ some (record event { decision = default_decision }, default_decision)
      | some choice ↦ elim (get_elem? event.outcomes choice) [
        | none ↦ none
        | some outcome ↦
            let decision : PredictionDecision = record {
              choice = some choice;
              outcome_id = outcome.id;
              amount =
                  stake_amount event.streamer.settings.bet balance outcome.top_points
                    stealth_offset;
            } in
            some (record event { decision = decision }, decision)
      ]
    ]

-- `decide`, with the least offset.
unfoldable pub decide :
    Platform → PredictionEvent → ℤ → Option (PredictionEvent × PredictionDecision)
unfolding decide_with_stealth_offset
decide p event balance = decide_with_stealth_offset p event balance 1

saturating_sum : (PredictionOutcome → ℤ) → ℤ → List PredictionOutcome → ℤ
saturating_sum key acc [] = acc
saturating_sum key acc (o ∷ os) = saturating_sum key (saturating_add acc (key o)) os

unfoldable pub update_outcome : Platform → ℤ → ℤ → PredictionOutcome → PredictionOutcome
update_outcome p total_users total_points o =
    let odds =
      if ltb_ℤ (pos 0) o.total_points
      then p.f64_div (p.f64_of_int total_points) (p.f64_of_int o.total_points)
      else f64_zero in
    record o {
      percentage_users =
          if ltb_ℤ (pos 0) total_users
          then p.f64_div (p.f64_mul (p.f64_of_int o.total_users) f64_hundred)
              (p.f64_of_int total_users)
          else f64_zero;
      odds = odds;
      odds_percentage = if f64_lt f64_zero odds then p.f64_div f64_hundred odds else f64_zero;
    }

unfoldable pub update_outcomes : Platform → PredictionEvent → PredictionEvent
unfolding saturating_sum update_outcome
update_outcomes p event =
    let total_users = saturating_sum (λ o. o.total_users) (pos 0) event.outcomes in
    let total_points = saturating_sum (λ o. o.total_points) (pos 0) event.outcomes in
    record event { outcomes = map (update_outcome p total_users total_points) event.outcomes }
