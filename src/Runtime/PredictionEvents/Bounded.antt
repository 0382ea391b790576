-- ===== src/Runtime/PredictionEvents/Bounded.antt =====
-- crates/tm-runtime/src/state.rs: the limits on the predictions that are remembered, under the events
-- of predictions.
use twitch_miner_rust.Base.{
  ◌≤◌, ◌≡◌, refl, inl, inr, true, not, ◌||◌, Option, none, some, List, [], ◌∷◌, arith,
  if◌then◌else◌, Bool-cases, Option-cases, is_empty, length,
}
use twitch_miner_rust.Base.Int.{ℤ, pos, leb_ℤ}
use twitch_miner_rust.Base.Map.{Map}
use twitch_miner_rust.Base.Map
use twitch_miner_rust.Base.Text.{Text, text_eq}
use twitch_miner_rust.Domain.Platform.{Platform}
use twitch_miner_rust.Domain.Json.{Value}
use twitch_miner_rust.Domain.PredictionEvent.{PredictionEvent}
use twitch_miner_rust.Domain.Prediction.Settlement.{parse_result, win_type, lose_type, refund_type}
use twitch_miner_rust.Runtime.Dedupe.{max_completed_predictions, max_active_predictions}
use twitch_miner_rust.Runtime.State.{RuntimeState}
use twitch_miner_rust.Runtime.Settlement.{
  resolved_status, build_prediction_settlement_effect, prediction_status_is_resolved,
}
use twitch_miner_rust.Runtime.Completion.{
  remember_completed_prediction, settle_confirmed_prediction, refine_completed_prediction,
  update_last, find_last,
}
use twitch_miner_rust.Runtime.Completion.Once.{remember_completed_prediction_lem}
use twitch_miner_rust.Runtime.PredictionEvents.{
  result_type_of, points_won_of, note_winner, merge_update, on_event_created, on_event_updated,
  on_prediction_made, on_prediction_result,
}
use twitch_miner_rust.Runtime.PredictionEvents.Lifecycle.{
  on_event_created_bounds, completed-on_event_created,
}

-- The limits on the predictions that a state holds.
pub record IsBounded (state : RuntimeState) : Type 0 where
  pub active : length state.predictions ≤ max_active_predictions
  pub keyed : Map.is_keyed state.predictions ≡ true
  pub completed : length state.completed_predictions ≤ max_completed_predictions

-- A completed prediction is remembered within the limits.
remember_completed-IsBounded :
    (event : PredictionEvent) (state : RuntimeState)
    → IsBounded state
    → IsBounded (remember_completed_prediction event state)
remember_completed-IsBounded event state b =
    let (same, _, _, bound, _) = remember_completed_prediction_lem event state b.completed in
    record { active = rw same b.active; keyed = rw same b.keyed; completed = bound }

-- An active prediction is written.
written-IsBounded :
    (id : Text) (event found : PredictionEvent) (pending : Map Text) (state : RuntimeState)
    → Map.get id state.predictions ≡ some found
    → IsBounded state
    → IsBounded (record state {
      predictions = Map.insert id event state.predictions;
      pending_prediction_winners = pending;
    })
written-IsBounded id event found pending state h b = record {
  active = omega (arith, b.active, Map.length-insert_of_get id event found state.predictions h);
  keyed = Map.is_keyed-insert id event state.predictions b.keyed;
  completed = b.completed;
}

-- An active prediction is removed.
removed-IsBounded :
    (id : Text) (pending : Map Text) (state : RuntimeState)
    → IsBounded state
    → IsBounded (record state {
      predictions = Map.remove id state.predictions;
      pending_prediction_winners = pending;
    })
removed-IsBounded id pending state b = record {
  active = omega (arith, b.active, Map.length-remove id state.predictions);
  keyed = Map.is_keyed-remove id state.predictions b.keyed;
  completed = b.completed;
}

length-update_last :
    (id : Text) (f : PredictionEvent → PredictionEvent) (events : List PredictionEvent)
    → length (update_last id f events) ≡ length events
unfolding update_last
length-update_last id f [] = refl
length-update_last id f (e ∷ events) = ground (arith, length-update_last id f events)

refine-IsBounded :
    (p : Platform) (id result_type : Text) (points_won : ℤ) (state : RuntimeState)
    → IsBounded state
    → IsBounded (refine_completed_prediction p id result_type points_won state).0
unfolding refine_completed_prediction
refine-IsBounded p id result_type points_won state b =
    elim (Option-cases (find_last (λ e. text_eq e.event_id id) state.completed_predictions)) [
      | inl e ↦ rw (e, refine_completed_prediction) b
      | inr (event, e) ↦
          rw (e, refine_completed_prediction)
            (record {
              active = b.active;
              keyed = b.keyed;
              completed =
                  omega (arith, b.completed, length-update_last id _ state.completed_predictions);
            })
    ]

-- What is settled on a confirmation: the prediction is put back, or completed.
put_back-IsBounded :
    (id : Text) (event : PredictionEvent) (state : RuntimeState)
    → Map.get id state.predictions ≡ some event
    → IsBounded state
    → IsBounded (record state {
      predictions = Map.insert event.event_id event (Map.remove id state.predictions);
    })
put_back-IsBounded id event state h b =
    let others = Map.remove id state.predictions in
    record {
      active = omega (
        arith,
        b.active,
        Map.length-insert event.event_id event others,
        Map.length-remove_of_get id state.predictions event h,
      );
      keyed =
          Map.is_keyed-insert event.event_id event others
            (Map.is_keyed-remove id state.predictions b.keyed);
      completed = b.completed;
    }

settle_confirmed-IsBounded :
    (p : Platform) (id : Text) (state : RuntimeState)
    → IsBounded state
    → IsBounded (settle_confirmed_prediction p id state).0
unfolding settle_confirmed_prediction
settle_confirmed-IsBounded p id state b = elim (Option-cases (Map.get id state.predictions)) [
  | inl e ↦ rw (e, settle_confirmed_prediction) b
  | inr (event, e) ↦
      let kept = put_back-IsBounded id event state e b in
      elim (Bool-cases (
        not event.bet_placed
        || leb_ℤ event.decision.amount (pos 0)
        || not (is_empty event.result_type))) [
          | inl idle ↦ rw (e, settle_confirmed_prediction, idle) kept
          | inr due ↦
              let winner =
                if text_eq event.status resolved_status
                then Map.get id state.pending_prediction_winners
                else none in
              elim (Option-cases (build_prediction_settlement_effect p event winner)) [
                | inl f ↦ rw (e, settle_confirmed_prediction, due, f) kept
                | inr ((settled, effect), f) ↦
                    rw (e, settle_confirmed_prediction, due, f)
                      (remember_completed-IsBounded settled
                        (record state {
                          predictions = Map.remove id state.predictions;
                          pending_prediction_winners =
                              Map.remove id state.pending_prediction_winners;
                        })
                        (removed-IsBounded id (Map.remove id state.pending_prediction_winners) state
                          b))
              ]
        ]
]

pub on_event_created-IsBounded :
    (event : PredictionEvent) (state : RuntimeState)
    → IsBounded state
    → IsBounded (on_event_created event state).0
on_event_created-IsBounded event state b =
    let (active, keyed) = on_event_created_bounds event state b.keyed b.active in
    record {
      active = active;
      keyed = keyed;
      completed = rw (completed-on_event_created event state) b.completed;
    }

pub on_prediction_made-IsBounded :
    (p : Platform) (id : Text) (state : RuntimeState)
    → IsBounded state
    → IsBounded (on_prediction_made p id state).0
unfolding on_prediction_made
on_prediction_made-IsBounded p id state b = elim (Option-cases (Map.get id state.predictions)) [
  | inl e ↦ rw (e, on_prediction_made) b
  | inr (event, e) ↦
      let confirmed = record event { bet_confirmed = true } in
      let b' = written-IsBounded id confirmed event state.pending_prediction_winners state e b in
      elim (Bool-cases event.bet_confirmed) [
        | inl c ↦ rw (e, on_prediction_made, c) b
        | inr c ↦ elim (Bool-cases (prediction_status_is_resolved event.status)) [
          | inl r ↦ rw (e, on_prediction_made, c, r) (settle_confirmed-IsBounded p id _ b')
          | inr r ↦ rw (e, on_prediction_made, c, r) b'
        ]
      ]
]

pub on_prediction_result-IsBounded :
    (p : Platform) (id : Text) (result : Option Value) (state : RuntimeState)
    → IsBounded state
    → IsBounded (on_prediction_result p id result state).0
unfolding on_prediction_result
on_prediction_result-IsBounded p id result state b =
    let result_type = result_type_of result in
    elim (Bool-cases (
      not (
        text_eq result_type win_type
        || text_eq result_type lose_type
        || text_eq result_type refund_type))) [
          | inl other ↦ rw (other, on_prediction_result) b
          | inr ends ↦ elim (Option-cases (Map.get id state.predictions)) [
            | inl e ↦
                rw (ends, on_prediction_result, e)
                  (refine-IsBounded p id result_type (points_won_of result) state b)
            | inr (event, e) ↦
                rw (ends, on_prediction_result, e)
                  (remember_completed-IsBounded
                    (parse_result p result_type (points_won_of result)
                      (record event { bet_confirmed = true })).0
                    _
                    (removed-IsBounded id (Map.remove id state.pending_prediction_winners) state b))
          ]
        ]

pub on_event_updated-IsBounded :
    (p : Platform) (event : PredictionEvent) (winner : Option Text) (state : RuntimeState)
    → IsBounded state
    → IsBounded (on_event_updated p event winner state).0
unfolding on_event_updated
on_event_updated-IsBounded p event winner state b =
    elim (Option-cases (Map.get event.event_id state.predictions)) [
      | inl e ↦ rw (e, on_event_updated) b
      | inr (found, e) ↦
          let existing = (merge_update event found).0 in
          let pending =
            (note_winner event.event_id existing winner state.pending_prediction_winners).0 in
          let b' = written-IsBounded event.event_id existing found pending state e b in
          elim (Bool-cases (
            not existing.bet_placed
            || not existing.bet_confirmed
            || leb_ℤ existing.decision.amount (pos 0)
            || not (is_empty existing.result_type)
            || not (prediction_status_is_resolved existing.status))) [
              | inl idle ↦ rw (e, on_event_updated, idle) b'
              | inr due ↦
                  elim (Option-cases (build_prediction_settlement_effect p existing winner)) [
                    | inl f ↦ rw (e, on_event_updated, due, f) b'
                    | inr ((settled, effect), f) ↦
                        rw (e, on_event_updated, due, f)
                          (remember_completed-IsBounded settled _
                            (removed-IsBounded event.event_id pending _ b'))
                  ]
            ]
    ]
