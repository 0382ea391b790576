-- ===== src/Runtime/PredictionEvents/Results.antt =====
-- crates/tm-runtime/src/state.rs: the result of a prediction ends it, once.
use twitch_miner_rust.Base.{
  ◌≤◌, ◌≡◌, refl, inl, inr, Bool, true, not, ◌||◌, Option, none, some, List, [], ◌∷◌, ◌++◌, arith,
  Bool-cases, length,
}
use twitch_miner_rust.Base.Map
use twitch_miner_rust.Base.Text.{Text, text_eq, text_eq_refl, text_eq_iff, trim}
use twitch_miner_rust.Domain.Platform.{Platform}
use twitch_miner_rust.Domain.Json.{Value}
use twitch_miner_rust.Domain.PredictionEvent.{PredictionEvent, PredictionSettlement}
use twitch_miner_rust.Domain.Prediction.Settlement.{parse_result, win_type, lose_type, refund_type}
use twitch_miner_rust.Runtime.Dedupe.{max_completed_predictions}
use twitch_miner_rust.Runtime.State.{RuntimeState, changed}
use twitch_miner_rust.Runtime.Settlement.{settled_effect}
use twitch_miner_rust.Runtime.Settlement.Payout.{to_uppercase-end}
use twitch_miner_rust.Runtime.Completion.{remember_completed_prediction, refresh_streamer}
use twitch_miner_rust.Runtime.Completion.Once.{remember_completed_prediction_lem}
use twitch_miner_rust.Runtime.PredictionEvents.{result_type_of, points_won_of, on_prediction_result}

-- Whether a type of result ends a prediction.
abbrev pub is_ending : Text → Bool
is_ending result_type =
    text_eq result_type win_type || text_eq result_type lose_type || text_eq result_type refund_type

-- A prediction that the result confirms, as it is remembered, and what is reported of it.
abbrev pub ended :
    Platform → Option Value → PredictionEvent → PredictionEvent × PredictionSettlement
ended p result event =
    parse_result p (result_type_of result) (points_won_of result)
      (record event { bet_confirmed = true })

-- A result of a prediction that is not active reports no settlement.
result_of_inactive :
    (p : Platform) (id : Text) (result : Option Value) (state : RuntimeState)
    → Map.get id state.predictions ≡ none
    → (on_prediction_result p id result state).1.effects ≡ []
unfolding on_prediction_result
result_of_inactive p id result state h =
    elim (Bool-cases (not (is_ending (result_type_of result)))) [
      | inl e ↦ rw (e, on_prediction_result) refl
      | inr e ↦ rw (e, on_prediction_result, h) refl
    ]

-- An ending type is its own normal form.
ending_type : (p : Platform) (t : Text) → is_ending t ≡ true → p.to_uppercase (trim t) ≡ t
ending_type p t h =
    to_uppercase-end p t (
      ground (arith, h, text_eq_iff t win_type, text_eq_iff t lose_type, text_eq_iff t refund_type))

abbrev released : Text → RuntimeState → RuntimeState
released id state = record state {
  predictions = Map.remove id state.predictions;
  pending_prediction_winners = Map.remove id state.pending_prediction_winners;
}

result_of_active :
    (p : Platform) (id : Text) (result : Option Value) (state : RuntimeState)
    (event : PredictionEvent)
    → Map.get id state.predictions ≡ some event
    → is_ending (result_type_of result) ≡ true
    → on_prediction_result p id result state ≡ (
      remember_completed_prediction (ended p result event).0 (released id state),
      changed (
          settled_effect
            (record (ended p result event).0 { event_id = id })
            (ended p result event).1
          ∷ []),
    )
unfolding on_prediction_result
result_of_active p id result state event h ends = rw (ends, on_prediction_result, h) refl

-- A result of type WIN, LOSE or REFUND for an active prediction, while at most 256 completed ones
-- are remembered, reports its settlement, takes it from the active ones with the winner noted for
-- it, and remembers it last of the completed ones under the type of the result. Any later result
-- of the same prediction reports no settlement.
pub on_prediction_result_once :
    (p : Platform) (id : Text) (result again : Option Value) (state : RuntimeState)
    (event : PredictionEvent)
    → Map.get id state.predictions ≡ some event
    → length state.completed_predictions ≤ max_completed_predictions
    → is_ending (result_type_of result) ≡ true
    → let (after, outcome) = on_prediction_result p id result state in
      let (settled, settlement) = ended p result event in
      (outcome.effects ≡ settled_effect (record settled { event_id = id }) settlement ∷ [])
      × (Map.get id after.predictions ≡ none)
      × (Map.get id after.pending_prediction_winners ≡ none)
      × ((front : List PredictionEvent) × (after.completed_predictions
            ≡ front ++ refresh_streamer state.streamers settled ∷ []))
      × (settled.result_type ≡ result_type_of result)
      × ((on_prediction_result p id again after).1.effects ≡ [])
unfolding parse_result
on_prediction_result_once p id result again state event h bound ends =
    let (settled, settlement) = ended p result event in
    let removed = released id state in
    let (same, winners, _, _, last) = remember_completed_prediction_lem settled removed bound in
    let gone : Map.get id (remember_completed_prediction settled removed).predictions ≡ none =
      rw (same, Map.get-remove id id state.predictions, text_eq_refl id) refl in
    let unnoted : Map.get id
          (remember_completed_prediction settled removed).pending_prediction_winners
        ≡ none =
      rw (winners, Map.get-remove id id state.pending_prediction_winners, text_eq_refl id) refl in
    rw (result_of_active p id result state event h ends) (
      refl,
      gone,
      unnoted,
      last,
      ending_type p (result_type_of result) ends,
      result_of_inactive p id again (remember_completed_prediction settled removed) gone,
    )
