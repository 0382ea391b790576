-- ===== src/Runtime/PredictionEvents/Updates.antt =====
-- crates/tm-runtime/src/state.rs: an update that settles a prediction ends it, once.
use twitch_miner_rust.Base.{
  ◌≤◌, ◌≡◌, refl, sym, ◌∙◌, inl, inr, ◌⊎◌, not, ◌||◌, Option, none, [], ◌∷◌, arith, Bool-cases,
  Option-cases, is_empty, length,
}
use twitch_miner_rust.Base.Int.{pos, leb_ℤ}
use twitch_miner_rust.Base.Map
use twitch_miner_rust.Base.Text.{Text, text_eq_refl}
use twitch_miner_rust.Domain.Platform.{Platform}
use twitch_miner_rust.Domain.PredictionEvent.{PredictionEvent}
use twitch_miner_rust.Runtime.Dedupe.{max_completed_predictions}
use twitch_miner_rust.Runtime.State.{RuntimeState, RuntimeEffect, unchanged}
use twitch_miner_rust.Runtime.Settlement.{
  prediction_status_is_resolved, build_prediction_settlement_effect,
}
use twitch_miner_rust.Runtime.Completion.Once.{remember_completed_prediction_lem}
use twitch_miner_rust.Runtime.PredictionEvents.{merge_update, note_winner, on_event_updated}

-- An update reports nothing, or the prediction is gone.
on_event_updated_cases :
    (p : Platform) (event : PredictionEvent) (winner : Option Text) (state : RuntimeState)
    → length state.completed_predictions ≤ max_completed_predictions
    → let (after, outcome) = on_event_updated p event winner state in
      (outcome.effects ≡ []) ⊎ (Map.get event.event_id after.predictions ≡ none)
unfolding on_event_updated
on_event_updated_cases p event winner state bound =
    elim (Option-cases (Map.get event.event_id state.predictions)) [
      | inl e ↦ inl (rw (e, on_event_updated) refl)
      | inr (found, e) ↦
          let existing = (merge_update event found).0 in
          let pending =
            (note_winner event.event_id existing winner state.pending_prediction_winners).0 in
          let stored = Map.insert event.event_id existing state.predictions in
          elim (Bool-cases (
            not existing.bet_placed
            || not existing.bet_confirmed
            || leb_ℤ existing.decision.amount (pos 0)
            || not (is_empty existing.result_type)
            || not (prediction_status_is_resolved existing.status))) [
              | inl idle ↦ inl (rw (e, on_event_updated, idle) refl)
              | inr due ↦
                  elim (Option-cases (build_prediction_settlement_effect p existing winner)) [
                    | inl f ↦ inl (rw (e, on_event_updated, due, f) refl)
                    | inr ((settled, effect), f) ↦
                        let removed = record state {
                          predictions = Map.remove event.event_id stored;
                          pending_prediction_winners = pending;
                        } in
                        let (same, _, _, _, _) =
                          remember_completed_prediction_lem settled removed bound in
                        inr (
                          rw (e, on_event_updated, due, f)
                            (rw
                              (
                                same,
                                Map.get-remove event.event_id event.event_id stored,
                                text_eq_refl event.event_id,
                              )
                              refl))
                  ]
            ]
    ]

update_of_inactive :
    (p : Platform) (event : PredictionEvent) (winner : Option Text) (state : RuntimeState)
    → Map.get event.event_id state.predictions ≡ none
    → on_event_updated p event winner state ≡ (state, unchanged)
unfolding on_event_updated
update_of_inactive p event winner state h = rw (h, on_event_updated) refl

-- An update that reports a settlement, while at most 256 completed predictions are remembered, takes the
-- prediction from the active ones, and any later update of the same prediction changes nothing and
-- reports nothing.
pub on_event_updated_once :
    (p : Platform) (event later : PredictionEvent) (winner other : Option Text)
    (state : RuntimeState) (effect : RuntimeEffect)
    → later.event_id ≡ event.event_id
    → length state.completed_predictions ≤ max_completed_predictions
    → (on_event_updated p event winner state).1.effects ≡ effect ∷ []
    → let after = (on_event_updated p event winner state).0 in
      (Map.get event.event_id after.predictions ≡ none)
      × (on_event_updated p later other after ≡ (after, unchanged))
on_event_updated_once p event later winner other state effect same bound settled =
    elim (on_event_updated_cases p event winner state bound) [
      | inl quiet ↦ ground (arith, sym settled ∙ quiet)
      | inr gone ↦ (gone, update_of_inactive p later other _ (rw same gone))
    ]
