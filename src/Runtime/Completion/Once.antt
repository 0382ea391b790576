-- ===== src/Runtime/Completion/Once.antt =====
-- crates/tm-runtime/src/state.rs: a prediction that ends leaves the active ones and is settled once.
use twitch_miner_rust.Base.{
  suc, ◌≤◌, ◌≡◌, refl, inl, inr, List, [], ◌∷◌, ◌++◌, arith, Bool-cases, length, length-snoc, ◌==◌,
}
use twitch_miner_rust.Domain.PredictionEvent.{PredictionEvent}
use twitch_miner_rust.Runtime.Dedupe.{max_completed_predictions}
use twitch_miner_rust.Runtime.State.{RuntimeState}
use twitch_miner_rust.Runtime.Completion.{
  evict_completed, refresh_streamer, forget_prediction_deduction_marker,
  remember_completed_prediction,
}

evict_completed_room :
    (state : RuntimeState)
    → length state.completed_predictions ≡ max_completed_predictions
    → suc (length (evict_completed state).completed_predictions) ≡ max_completed_predictions
unfolding evict_completed forget_prediction_deduction_marker
evict_completed_room state h = ground arith

evict_completed_rest :
    (state : RuntimeState)
    → ((evict_completed state).predictions ≡ state.predictions)
      × ((evict_completed state).pending_prediction_winners ≡ state.pending_prediction_winners)
      × ((evict_completed state).processed_prediction_ids ≡ state.processed_prediction_ids)
unfolding evict_completed forget_prediction_deduction_marker
evict_completed_rest state = ground arith

-- The queue of the completed predictions stays within its limit and ends with the new one; the active
-- ones, the noted winners and the processed ids are left alone.
pub remember_completed_prediction_lem :
    (event : PredictionEvent) (state : RuntimeState)
    → length state.completed_predictions ≤ max_completed_predictions
    → let after = remember_completed_prediction event state in
      (after.predictions ≡ state.predictions)
      × (after.pending_prediction_winners ≡ state.pending_prediction_winners)
      × (after.processed_prediction_ids ≡ state.processed_prediction_ids)
      × (length after.completed_predictions ≤ max_completed_predictions)
      × ((front : List PredictionEvent) × (after.completed_predictions
            ≡ front ++ refresh_streamer state.streamers event ∷ []))
unfolding remember_completed_prediction
remember_completed_prediction_lem event state bound =
    elim (Bool-cases (length state.completed_predictions == max_completed_predictions)) [
      | inl full ↦
          let room = evict_completed_room state (ground (arith, full)) in
          let (same, winners, ids) = evict_completed_rest state in
          let front = (evict_completed state).completed_predictions in
          rw (full, remember_completed_prediction)
            (
              same,
              winners,
              ids,
              omega (arith, room, length-snoc front (refresh_streamer state.streamers event)),
              (front, refl),
            )
      | inr room ↦
          let front = state.completed_predictions in
          let fits : suc (length front) ≤ max_completed_predictions = ground (arith, room) in
          rw (room, remember_completed_prediction)
            (
              refl,
              refl,
              refl,
              omega (arith, fits, length-snoc front (refresh_streamer state.streamers event)),
              (front, refl),
            )
    ]
