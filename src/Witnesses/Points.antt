-- ===== src/Witnesses/Points.antt =====
-- Concrete runs of the queues of identities, of the balance and of the payout.
use twitch_miner_rust.Base.{
  ℕ, ◌≡◌, ◌≢◌, refl, ◌⊎◌, inl, ◌≤◌, ◌+◌, ◌*◌, ◌/◌, not, ◌||◌, true, false, some, none, [], ◌∷◌, leb,
  find, arith,
}
use twitch_miner_rust.Base.Int.{pos, ◌≤ℤ◌, ◌<ℤ◌, max_ℤ, ◌-ℤ◌, IsI64, wrap_i64}
use twitch_miner_rust.Base.Text.{str, is_blank, contains, text_eq}
use twitch_miner_rust.Domain.PredictionEvent.{PredictionEvent}
use twitch_miner_rust.Domain.Prediction.Settlement.{parse_result, win_type, refund_type}
use twitch_miner_rust.Runtime.Dedupe.{
  remember_mutation_id, remember_prediction_deduction, prediction_deduction_marker,
  prediction_deduction_marker_exists, max_protected_prediction_markers, protected_count,
}
use twitch_miner_rust.Runtime.Dedupe.Bounds.{
  Remembers, remember_mutation_id-Remembers, remember_prediction_deduction-Remembers,
}
use twitch_miner_rust.Runtime.Dedupe.Markers.{remember_all, marker-remember_all}
use twitch_miner_rust.Runtime.Points.{new_balance}
use twitch_miner_rust.Runtime.Points.Balance.{new_balance_bounds}
use twitch_miner_rust.Runtime.State.{RuntimeEffect}
use twitch_miner_rust.Runtime.Settlement.{payout_for_outcome, build_prediction_settlement_effect}
use twitch_miner_rust.Runtime.Settlement.Payout.{
  IsEndOf, is_decided, payout_bounds, parse_result_end, build_prediction_settlement_effect_lem,
}
use twitch_miner_rust.Runtime.Settlement.Share.{sum_points, are_counts, payout_for_outcome_nearest}
use Prim.Native.Nat.{max}
use twitch_miner_rust.Witnesses.{
  ascii_platform, blue_decision, blue_outcome, pink_outcome, placed_prediction,
}

remember_mutation_id-Remembers_example :
    Remembers
      (not (is_blank (str "b") || contains (str "a" ∷ []) (str "b")))
      (str "a" ∷ [])
      (str "b")
      (remember_mutation_id (str "a" ∷ []) (str "b"))
remember_mutation_id-Remembers_example = remember_mutation_id-Remembers (str "a" ∷ []) (str "b")

remember_prediction_deduction-Remembers_example :
    Remembers
      (not (
        prediction_deduction_marker_exists (str "a" ∷ []) (str "e1")
        || leb max_protected_prediction_markers (protected_count (str "a" ∷ []))))
      (str "a" ∷ [])
      (prediction_deduction_marker (str "e1"))
      (remember_prediction_deduction (str "a" ∷ []) (str "e1"))
remember_prediction_deduction-Remembers_example =
    remember_prediction_deduction-Remembers (str "a" ∷ []) (str "e1")

marked :
    prediction_deduction_marker_exists (prediction_deduction_marker (str "e1") ∷ []) (str "e1")
    ≡ true
unfolding prediction_deduction_marker_exists prediction_deduction_marker contains text_eq
marked = refl

marker-remember_all_example :
    prediction_deduction_marker_exists
      (remember_all (prediction_deduction_marker (str "e1") ∷ []) (str "a" ∷ str "b" ∷ []))
      (str "e1")
    ≡ true
marker-remember_all_example =
    marker-remember_all (str "a" ∷ str "b" ∷ []) (prediction_deduction_marker (str "e1") ∷ [])
      (str "e1") marked

new_balance_bounds_example :
    let after = new_balance (pos 100) (pos 10) (pos 110) in
    IsI64 after
    × (pos 0 ≤ℤ after)
    × ((pos 10 <ℤ pos 0) × (after ≤ℤ pos 100) ⊎ (pos 0 ≤ℤ pos 10) × (pos 100 ≤ℤ after))
new_balance_bounds_example =
    new_balance_bounds (pos 100) (pos 10) (pos 110) (ground arith) (ground arith) (ground arith)
      (omega arith)

payout_bounds_example :
    let payout = payout_for_outcome blue_decision (blue_outcome ∷ pink_outcome ∷ []) (str "blue") in
    IsI64 payout
    × ((str "blue" ≡ str "blue") × (pos 50 ≤ℤ payout)
        ⊎ (payout ≡ pos 0) × ((str "blue" ≢ str "blue") ⊎ (pos 50 ≤ℤ pos 0)))
payout_bounds_example =
    payout_bounds blue_decision (blue_outcome ∷ pink_outcome ∷ []) (str "blue") (ground arith)

blue_found :
    find (λ o. text_eq o.id (str "blue")) (pink_outcome ∷ blue_outcome ∷ []) ≡ some blue_outcome
unfolding text_eq
blue_found = refl

both_count : are_counts (pink_outcome ∷ blue_outcome ∷ []) ≡ true
unfolding are_counts
both_count = refl

payout_for_outcome_nearest_example :
    (share : ℕ) × (payout_for_outcome blue_decision (pink_outcome ∷ blue_outcome ∷ []) (str "blue")
      ≡ pos (max share 50))
    × (share * 100 ≤ 50 * sum_points (pink_outcome ∷ blue_outcome ∷ []) + 100 / 2)
    × (50 * sum_points (pink_outcome ∷ blue_outcome ∷ []) ≤ share * 100 + 100 / 2)
unfolding sum_points
payout_for_outcome_nearest_example =
    payout_for_outcome_nearest blue_decision (pink_outcome ∷ blue_outcome ∷ []) blue_outcome 50 100
      refl blue_found refl both_count (omega arith) (omega arith) (omega arith) (omega arith)
      (omega arith)

parse_result_end_example :
    let (settled, settlement) = parse_result ascii_platform win_type (pos 200) placed_prediction in
    (settled.result_type ≡ win_type)
    × (settlement.result_type ≡ win_type)
    × (settled.decision ≡ placed_prediction.decision)
    × (settled.event_id ≡ placed_prediction.event_id)
    × ((win_type ≡ refund_type) × (settlement.gained ≡ pos 0)
        ⊎ (win_type ≢ refund_type)
          × (settlement.gained
              ≡ wrap_i64 (max_ℤ (pos 200) (pos 0) -ℤ placed_prediction.decision.amount)))
parse_result_end_example =
    parse_result_end ascii_platform win_type (pos 200) placed_prediction (inl refl)

abbrev resolved_prediction : PredictionEvent
resolved_prediction = record placed_prediction { status = str "RESOLVED" }

build_prediction_settlement_effect_lem_example :
    let winner = some (str "pink") in
    ((is_decided resolved_prediction winner ≡ false)
      × (build_prediction_settlement_effect ascii_platform resolved_prediction winner ≡ none))
    ⊎ ((settled : PredictionEvent) × (effect : RuntimeEffect) × (is_decided resolved_prediction
            winner
          ≡ true)
        × (build_prediction_settlement_effect ascii_platform resolved_prediction winner
            ≡ some (settled, effect))
        × IsEndOf resolved_prediction winner settled.result_type
        × (settled.decision ≡ resolved_prediction.decision)
        × (settled.event_id ≡ resolved_prediction.event_id))
build_prediction_settlement_effect_lem_example =
    build_prediction_settlement_effect_lem ascii_platform resolved_prediction (some (str "pink"))
