-- ===== src/Domain/Prediction/Stake/Bounds.antt =====
-- The amount of a bet stays within the balance, the setting and the limit of the platform; and a
-- decision never indexes out of range.
use twitch_miner_rust.Base.{
  ℕ, ◌<◌, ◌≡◌, refl, ◌⊎◌, inl, inr, Option, none, some, List, [], ◌∷◌, zero, suc, arith, get_elem?,
  length, unwrap_or, Option-cases,
}
use twitch_miner_rust.Base.Int.{
  ℤ, pos, negsuc, ◌≤ℤ◌, ◌<ℤ◌, max_ℤ, min_ℤ, ◌-ℤ◌, saturate_i64, saturating_sub,
}
use twitch_miner_rust.Domain.Platform.{Platform}
use twitch_miner_rust.Domain.Settings.{BetSettings}
use twitch_miner_rust.Domain.PredictionEvent.{
  PredictionOutcome, PredictionDecision, PredictionEvent, default_decision,
}
use twitch_miner_rust.Domain.Prediction.Choice.{select_outcome}
use twitch_miner_rust.Domain.Prediction.Choice.Maximum.{select_outcome-IsInRange}
use twitch_miner_rust.Domain.Prediction.Stake.{
  max_prediction_points, percentage_of_balance, plain_amount, stealth_amount, stake_amount,
  clamp_offset, decide_with_stealth_offset,
}

-- A limit that is set bounds the amount.
abbrev pub IsWithin : Option ℕ → ℤ → Type 0
IsWithin none amount = Unit {0}
IsWithin (some limit) amount = amount ≤ℤ pos limit

percentage_of_balance_nonneg :
    (balance : ℤ) (percentage : ℕ) → pos 0 ≤ℤ percentage_of_balance balance percentage
unfolding percentage_of_balance saturate_i64
percentage_of_balance_nonneg balance percentage = ground arith

abbrev IsStake : BetSettings → ℤ → ℤ → Type 0
IsStake settings balance amount =
    (pos 0 ≤ℤ amount) × (amount ≤ℤ balance) × IsWithin settings.max_points amount

plain_amount-IsStake :
    (settings : BetSettings) (balance : ℤ)
    → pos 0 ≤ℤ balance
    → IsStake settings balance (plain_amount settings balance)
unfolding plain_amount
plain_amount-IsStake settings balance h =
    ground (arith, percentage_of_balance_nonneg balance (unwrap_or settings.percentage 5))

saturating_sub-le : (a : ℤ) (k : ℕ) → pos 1 <ℤ a → saturating_sub a (pos k) ≤ℤ a
unfolding saturating_sub saturate_i64 ◌-ℤ◌
saturating_sub-le (pos n) k h = ground arith
saturating_sub-le (negsuc n) k h = absurd (omega arith)

stealth_amount-IsStake :
    (settings : BetSettings) (balance top_points amount : ℤ) (offset : ℕ)
    → IsStake settings balance amount
    → IsStake settings balance (stealth_amount settings top_points offset amount)
unfolding stealth_amount
stealth_amount-IsStake settings balance top_points amount offset h =
    ground (arith, saturating_sub-le top_points (clamp_offset offset))

cap-IsStake :
    (settings : BetSettings) (balance amount : ℤ)
    → IsStake settings balance amount
    → let capped = min_ℤ amount (pos max_prediction_points) in
      (pos 0 ≤ℤ capped)
      × (capped ≤ℤ balance)
      × IsWithin settings.max_points capped
      × (capped ≤ℤ pos max_prediction_points)
cap-IsStake settings balance amount h = ground arith

max_ℤ-nonneg : (a : ℤ) → pos 0 ≤ℤ max_ℤ a (pos 0)
max_ℤ-nonneg a = ground arith

-- A stake is never negative, never above the balance (0 if that is negative), never above a set
-- `max_points` and never above the 250,000 points of the platform.
pub stake_amount_bounds :
    (settings : BetSettings) (balance top_points : ℤ) (offset : ℕ)
    → let amount = stake_amount settings balance top_points offset in
      (pos 0 ≤ℤ amount)
      × (amount ≤ℤ max_ℤ balance (pos 0))
      × IsWithin settings.max_points amount
      × (amount ≤ℤ pos max_prediction_points)
unfolding stake_amount
stake_amount_bounds settings balance top_points offset =
    let funds = max_ℤ balance (pos 0) in
    cap-IsStake settings funds _ (
      stealth_amount-IsStake settings funds top_points _ offset
        (plain_amount-IsStake settings funds (max_ℤ-nonneg balance)))

get_elem?_of_range {ℓ} :
    {A : Type ℓ} (xs : List A) (i : ℕ) → i < length xs → (x : A) × (get_elem? xs i ≡ some x)
get_elem?_of_range [] i h = absurd (omega arith)
get_elem?_of_range (x ∷ xs) zero h = (x, refl)
get_elem?_of_range (x ∷ xs) (suc i) h = get_elem?_of_range xs i (omega arith)

-- What a decision says of the event that it is made for.
abbrev pub Decides : PredictionEvent → ℤ → PredictionDecision → Type 0
Decides event balance decision =
    (i : ℕ) × (outcome : PredictionOutcome) × (decision.choice ≡ some i)
    × (get_elem? event.outcomes i ≡ some outcome)
    × (decision.outcome_id ≡ outcome.id)
    × (pos 0 ≤ℤ decision.amount)
    × (decision.amount ≤ℤ max_ℤ balance (pos 0))
    × IsWithin event.streamer.settings.bet.max_points decision.amount
    × (decision.amount ≤ℤ pos max_prediction_points)

-- A decision never panics: it returns the event with the decision stored, and the decision is the
-- default one, or names an outcome of the event, with the identity of that outcome and an amount
-- between 0 and the balance, a set `max_points` and 250,000.
pub decide_with_stealth_offset_total :
    (p : Platform) (event : PredictionEvent) (balance : ℤ) (offset : ℕ)
    → (decision : PredictionDecision) × (decide_with_stealth_offset p event balance offset
        ≡ some (record event { decision = decision }, decision))
      × ((decision ≡ default_decision) ⊎ Decides event balance decision)
unfolding decide_with_stealth_offset
decide_with_stealth_offset_total p event balance offset =
    elim (Option-cases (select_outcome p event.outcomes event.streamer.settings.bet)) [
      | inl e ↦ (default_decision, rw (e, decide_with_stealth_offset) refl, inl refl)
      | inr (i, e) ↦
          let found =
            get_elem?_of_range event.outcomes i
              (select_outcome-IsInRange p event.outcomes event.streamer.settings.bet i e) in
          let bounds =
            stake_amount_bounds event.streamer.settings.bet balance found.0.top_points offset in
          (
            record {
              choice = some i;
              outcome_id = found.0.id;
              amount = stake_amount event.streamer.settings.bet balance found.0.top_points offset;
            },
            rw (e, decide_with_stealth_offset, found.1) refl,
            inr (i, found.0, refl, found.1, refl, bounds.0, bounds.1, bounds.2, bounds.3),
          )
    ]
