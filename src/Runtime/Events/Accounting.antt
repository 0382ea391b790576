-- ===== src/Runtime/Events/Accounting.antt =====
-- crates/tm-runtime/src/state.rs: the points of an event, against the stakes that placements deduct.
use twitch_miner_rust.Base.{◌≡◌, ◌∙◌, inl, inr, Bool, true, false, some, arith, Bool-cases, ltb}
use twitch_miner_rust.Base.Int.{ℤ, pos, neg_i64}
use twitch_miner_rust.Base.Text.{Text, contains}
use twitch_miner_rust.Domain.Stream.{Time}
use twitch_miner_rust.Domain.Streamer.{Streamer}
use twitch_miner_rust.Domain.PredictionEvent.{PredictionDecision}
use twitch_miner_rust.Runtime.Dedupe.{
  protected_count, max_protected_prediction_markers, prediction_deduction_marker_exists,
}
use twitch_miner_rust.Runtime.Dedupe.Markers.{
  remember_prediction_deduction_fresh, remember_prediction_deduction_cases,
  marker-remember_mutation_id,
}
use twitch_miner_rust.Runtime.Points.{gained, apply_pubsub_gain, prediction_reason}
use twitch_miner_rust.Runtime.Points.Balance.{marker-gained}
use twitch_miner_rust.Runtime.Predictions.{deduct_once}
use twitch_miner_rust.Runtime.Predictions.Recording.{is_due, deduct_once_known}
use twitch_miner_rust.Runtime.Events.{account_points, points_counted}

-- A stake that is deducted leaves its marker.
marker-deduct_once :
    (event_id : Text) (decision : PredictionDecision) (deduct : Bool) (s : Streamer)
    → is_due event_id decision deduct s ≡ true
    → prediction_deduction_marker_exists
        (deduct_once event_id decision deduct s).processed_point_event_keys
        event_id
      ≡ true
unfolding deduct_once apply_pubsub_gain
marker-deduct_once event_id decision deduct s due =
    elim (remember_prediction_deduction_cases s.processed_point_event_keys event_id) [
      | inl e ↦ absurd (
          ground
            (arith, e, remember_prediction_deduction_fresh s.processed_point_event_keys event_id))
      | inr (keys, e, marked) ↦
          rw (e, deduct_once)
            (ground (
              arith,
              marker-gained (neg_i64 decision.amount) (pos 0) prediction_reason event_id
                  (record s { processed_point_event_keys = keys }),
            ))
    ]

account_points_marked :
    (event_id reason key : Text) (earned balance : ℤ) (now : Time) (s : Streamer)
    → prediction_deduction_marker_exists s.processed_point_event_keys event_id ≡ true
    → let (after, counted) = account_points (some event_id) earned reason balance now key s in
      (counted ≡ false) × (after.channel_points ≡ s.channel_points) × (after.history ≡ s.history)
unfolding account_points
account_points_marked event_id reason key earned balance now s h =
    rw (h, account_points) (ground arith)

-- A stake that the placement of a bet deducts is not taken again by the point event that reports the
-- spend: after a deduction that was due, the event of that prediction leaves the balance and the history
-- as they are and counts for nothing, whatever it reports and under whatever key.
pub account_points-deduct_once :
    (event_id reason key : Text) (earned balance : ℤ) (now : Time) (decision : PredictionDecision)
    (deduct : Bool) (s : Streamer)
    → is_due event_id decision deduct s ≡ true
    → let s' = deduct_once event_id decision deduct s in
      let (after, counted) = account_points (some event_id) earned reason balance now key s' in
      (counted ≡ false) × (after.channel_points ≡ s'.channel_points) × (after.history ≡ s'.history)
account_points-deduct_once event_id reason key earned balance now decision deduct s due =
    account_points_marked event_id reason key earned balance now
      (deduct_once event_id decision deduct s) (marker-deduct_once event_id decision deduct s due)

marker-points_counted :
    (event_id reason key : Text) (earned balance : ℤ) (now : Time) (s : Streamer)
    → prediction_deduction_marker_exists s.processed_point_event_keys event_id ≡ true
    → prediction_deduction_marker_exists
        (points_counted earned reason balance now key s).processed_point_event_keys
        event_id
      ≡ true
unfolding points_counted apply_pubsub_gain
marker-points_counted event_id reason key earned balance now s h =
    let kept = marker-gained earned balance reason event_id s ∙ h in
    let room =
      marker-remember_mutation_id (gained earned reason balance s).processed_point_event_keys key
        event_id kept in
    ground (arith, kept, room)

marker-account_points :
    (event_id reason key : Text) (earned balance : ℤ) (now : Time) (s : Streamer)
    → contains s.processed_point_event_keys key ≡ false
    → ltb (protected_count s.processed_point_event_keys) max_protected_prediction_markers ≡ true
    → prediction_deduction_marker_exists
        (account_points
          (some event_id)
          earned
          reason
          balance
          now
          key
          s).0.processed_point_event_keys
        event_id
      ≡ true
unfolding account_points
marker-account_points event_id reason key earned balance now s fresh room =
    elim (Bool-cases (prediction_deduction_marker_exists s.processed_point_event_keys event_id)) [
      | inl e ↦
          rw (fresh, account_points, e)
            (marker-remember_mutation_id s.processed_point_event_keys key event_id e)
      | inr e ↦ elim (remember_prediction_deduction_cases s.processed_point_event_keys event_id) [
        | inl r ↦ absurd (
            ground (
              arith,
              r,
              e,
              remember_prediction_deduction_fresh s.processed_point_event_keys event_id,
            ))
        | inr (keys, r, marked) ↦
            rw (fresh, account_points, e, r)
              (marker-points_counted event_id reason key earned balance now
                (record s { processed_point_event_keys = keys }) marked)
      ]
    ]

-- Where the point event comes before the placement: once a new event of the prediction is accounted, with room for
-- a marker, the placement that is recorded later deducts nothing.
pub deduct_once-account_points :
    (event_id reason key : Text) (earned balance : ℤ) (now : Time) (decision : PredictionDecision)
    (deduct : Bool) (s : Streamer)
    → contains s.processed_point_event_keys key ≡ false
    → ltb (protected_count s.processed_point_event_keys) max_protected_prediction_markers ≡ true
    → let (after, counted) = account_points (some event_id) earned reason balance now key s in
      deduct_once event_id decision deduct after ≡ after
deduct_once-account_points event_id reason key earned balance now decision deduct s fresh room =
    deduct_once_known event_id decision deduct
      (account_points (some event_id) earned reason balance now key s).0
      (marker-account_points event_id reason key earned balance now s fresh room)
