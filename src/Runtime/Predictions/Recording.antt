-- ===== src/Runtime/Predictions/Recording.antt =====
-- crates/tm-runtime/src/state.rs: the placement of a bet is recorded and its stake deducted once.
use twitch_miner_rust.Base.{
  ◌≡◌, refl, sym, ap, ◌∙◌, ◌⊎◌, inl, inr, Bool, true, false, not, ◌&&◌, some, List, arith,
  if◌then◌else◌, Bool-cases, ltb,
}
use mathlib.Core.Path.{subst}
use twitch_miner_rust.Base.Int.{pos, ltb_ℤ, neg_i64}
use twitch_miner_rust.Base.Map.{Map}
use twitch_miner_rust.Base.Map
use twitch_miner_rust.Base.Text.{Text}
use twitch_miner_rust.Domain.Streamer.{Streamer}
use twitch_miner_rust.Domain.PredictionEvent.{PredictionDecision, PredictionEvent}
use twitch_miner_rust.Runtime.Dedupe.{
  protected_count, max_protected_prediction_markers, prediction_deduction_marker_exists,
  remember_prediction_deduction,
}
use twitch_miner_rust.Runtime.Dedupe.Markers.{
  remember_prediction_deduction_known, remember_prediction_deduction_fresh,
  remember_prediction_deduction_cases,
}
use twitch_miner_rust.Runtime.Points.Balance.{marker-gained, channel_points-gained}
use twitch_miner_rust.Runtime.Points.{
  new_balance, gained, update_history, apply_pubsub_gain, prediction_reason,
}
use twitch_miner_rust.Runtime.State.{
  RuntimeState, find_streamer, find_streamer-replace_streamer, find_streamer-channel_id,
}
use twitch_miner_rust.Runtime.Predictions.{deduct_once, record_prediction_placed}
use twitch_miner_rust.Runtime.Predictions.Placement.{get-insert_self}

either_same {ℓ} : {A : Type ℓ} (b : Bool) (a : A) → (if b then a else a) ≡ a
either_same true a = refl
either_same false a = refl

-- Where the marker of the event is there, nothing is deducted.
pub deduct_once_known :
    (event_id : Text) (decision : PredictionDecision) (deduct : Bool) (s : Streamer)
    → prediction_deduction_marker_exists s.processed_point_event_keys event_id ≡ true
    → deduct_once event_id decision deduct s ≡ s
unfolding deduct_once
deduct_once_known event_id decision deduct s h =
    rw (remember_prediction_deduction_known s.processed_point_event_keys event_id h, deduct_once)
      (either_same (not (deduct && ltb_ℤ (pos 0) decision.amount)) s)

-- The streamer with a stake deducted, under the keys that hold the marker.
abbrev deducted : PredictionDecision → List Text → Streamer → Streamer
deducted decision keys s =
    gained (neg_i64 decision.amount) prediction_reason (pos 0)
      (record s { processed_point_event_keys = keys })

-- A deduction is skipped, or it leaves the marker.
deduct_once_cases :
    (event_id : Text) (decision : PredictionDecision) (deduct : Bool) (s : Streamer)
    → (deduct_once event_id decision deduct s ≡ s)
      ⊎ ((keys : List Text) × (prediction_deduction_marker_exists keys event_id ≡ true)
          × (deduct_once event_id decision deduct s ≡ deducted decision keys s))
unfolding deduct_once apply_pubsub_gain
deduct_once_cases event_id decision deduct s =
    elim (remember_prediction_deduction_cases s.processed_point_event_keys event_id) [
      | inl e ↦
          inl (rw (e, deduct_once) (either_same (not (deduct && ltb_ℤ (pos 0) decision.amount)) s))
      | inr (keys, e, marked) ↦ elim (Bool-cases (deduct && ltb_ℤ (pos 0) decision.amount)) [
        | inl due ↦ inr (keys, marked, rw (e, deduct_once, due) refl)
        | inr idle ↦ inl (rw (e, deduct_once, idle) refl)
      ]
    ]

-- A placement that is recorded twice deducts its stake once.
deduct_once-deduct_once :
    (event_id : Text) (decision : PredictionDecision) (deduct : Bool) (s : Streamer)
    → deduct_once event_id decision deduct (deduct_once event_id decision deduct s)
      ≡ deduct_once event_id decision deduct s
deduct_once-deduct_once event_id decision deduct s =
    elim (deduct_once_cases event_id decision deduct s) [
      | inl e ↦ ap (deduct_once event_id decision deduct) e
      | inr (keys, marked, e) ↦ deduct_once_known event_id decision deduct _ (
          rw e (
            marker-gained (neg_i64 decision.amount) (pos 0) prediction_reason event_id
              (record s { processed_point_event_keys = keys })
            ∙ marked))
    ]

deduct_once-channel_id :
    (event_id : Text) (decision : PredictionDecision) (deduct : Bool) (s : Streamer)
    → (deduct_once event_id decision deduct s).channel_id ≡ s.channel_id
unfolding deduct_once apply_pubsub_gain gained update_history
deduct_once-channel_id event_id decision deduct s = ground arith

module _ (event_id : Text) (decision : PredictionDecision) (deduct : Bool) where
  abbrev pub recorded_with : Streamer → PredictionEvent → PredictionEvent
  recorded_with s event = record event {
    streamer = s;
    decision = decision;
    bet_placed = true;
    bet_confirmed = true;
  }

  record_placed_found :
      (state : RuntimeState) (event : PredictionEvent) (s : Streamer)
      → Map.get event_id state.predictions ≡ some event
      → event.event_id ≡ event_id
      → find_streamer event.streamer.channel_id state.streamers ≡ some s
      → let s' = deduct_once event_id decision deduct s in
        (find_streamer event.streamer.channel_id
            (record_prediction_placed event_id decision deduct state).streamers
          ≡ some s')
        × (Map.get event_id (record_prediction_placed event_id decision deduct state).predictions
            ≡ some (recorded_with s' event))
  unfolding record_prediction_placed
  record_placed_found state event s h same tracked =
      rw (h, record_prediction_placed, tracked)
        (
          find_streamer-replace_streamer event.streamer.channel_id s _ state.streamers tracked (
              deduct_once-channel_id event_id decision deduct s
              ∙ find_streamer-channel_id event.streamer.channel_id state.streamers s tracked),
          rw same (get-insert_self event_id _ (Map.remove event_id state.predictions)),
        )

  -- The same, with the channel of the prediction given by an equation.
  record_placed_on :
      (channel_id : Text) (state : RuntimeState) (event : PredictionEvent) (s : Streamer)
      → event.streamer.channel_id ≡ channel_id
      → Map.get event_id state.predictions ≡ some event
      → event.event_id ≡ event_id
      → find_streamer channel_id state.streamers ≡ some s
      → find_streamer channel_id (record_prediction_placed event_id decision deduct state).streamers
        ≡ some (deduct_once event_id decision deduct s)
  record_placed_on channel_id state event s channel h same tracked =
      subst
        (λ c.
          find_streamer c (record_prediction_placed event_id decision deduct state).streamers
          ≡ some (deduct_once event_id decision deduct s))
        channel
        (record_placed_found state event s h same
          (subst (λ c. find_streamer c state.streamers ≡ some s) (sym channel) tracked)).0

-- Whether a stake is to be deducted: it was asked for, there is a stake, and the event has no marker
-- yet while there is room for one.
abbrev pub is_due : Text → PredictionDecision → Bool → Streamer → Bool
is_due event_id decision deduct s =
    deduct
    && ltb_ℤ (pos 0) decision.amount
    && not (prediction_deduction_marker_exists s.processed_point_event_keys event_id)
    && ltb (protected_count s.processed_point_event_keys) max_protected_prediction_markers

deduct_once-points :
    (event_id : Text) (decision : PredictionDecision) (deduct : Bool) (s : Streamer)
    → (deduct_once event_id decision deduct s).channel_points ≡ (
        if is_due event_id decision deduct s
        then new_balance s.channel_points (neg_i64 decision.amount) (pos 0)
        else s.channel_points)
unfolding deduct_once apply_pubsub_gain
deduct_once-points event_id decision deduct s =
    let keys = (remember_prediction_deduction s.processed_point_event_keys event_id).0 in
    ground (
      arith,
      remember_prediction_deduction_fresh s.processed_point_event_keys event_id,
      channel_points-gained (neg_i64 decision.amount) (pos 0) prediction_reason
          (record s { processed_point_event_keys = keys }),
    )

-- For a prediction that is tracked under its own id, on a tracked channel, recording the placement
-- of a bet stores the decision, placed and confirmed. Where the stake is due it is taken from the
-- balance of the channel, and otherwise the balance stays. Recording the placement again, as after
-- a replayed response, leaves the streamer of the channel as it is.
pub record_prediction_placed_once :
    (event_id : Text) (decision : PredictionDecision) (deduct : Bool) (state : RuntimeState)
    (event : PredictionEvent) (s : Streamer)
    → Map.get event_id state.predictions ≡ some event
    → event.event_id ≡ event_id
    → find_streamer event.streamer.channel_id state.streamers ≡ some s
    → let recorded = record_prediction_placed event_id decision deduct state in
      let again = record_prediction_placed event_id decision deduct recorded in
      (s' : Streamer) × (Map.get event_id recorded.predictions
        ≡ some (recorded_with event_id decision deduct s' event))
      × (find_streamer event.streamer.channel_id recorded.streamers ≡ some s')
      × (find_streamer event.streamer.channel_id again.streamers ≡ some s')
      × (s'.channel_points ≡ (
          if is_due event_id decision deduct s
          then new_balance s.channel_points (neg_i64 decision.amount) (pos 0)
          else s.channel_points))
record_prediction_placed_once event_id decision deduct state event s h same tracked =
    let s' = deduct_once event_id decision deduct s in
    let first = record_placed_found event_id decision deduct state event s h same tracked in
    let channel : s'.channel_id ≡ event.streamer.channel_id =
      deduct_once-channel_id event_id decision deduct s
      ∙ find_streamer-channel_id event.streamer.channel_id state.streamers s tracked in
    let second =
      record_placed_on event_id decision deduct event.streamer.channel_id
        (record_prediction_placed event_id decision deduct state)
        (recorded_with event_id decision deduct s' event) s' channel first.1 same first.0 in
    (
      s',
      first.1,
      first.0,
      second ∙ ap some (deduct_once-deduct_once event_id decision deduct s),
      deduct_once-points event_id decision deduct s,
    )
