-- ===== src/Runtime/Settlement/Payout.antt =====
-- What a settlement pays and what it records.
use twitch_miner_rust.Base.{
  ℕ, ◌≡◌, ◌≢◌, refl, sym, ap, ◌∙◌, ◌⊎◌, inl, inr, Bool, true, false, ◌&&◌, ◌||◌, Option, none, some,
  List, arith, any, Option-cases, is_some, is_some_and,
}
use twitch_miner_rust.Base.Int.{
  ℤ, pos, pos_part, ◌≤ℤ◌, IsI64, saturate_i64_bounds, max_ℤ, ◌-ℤ◌, wrap_i64,
}
use twitch_miner_rust.Base.Text.{Text, text_eq, text_eq_iff, trim, ascii_upper}
use twitch_miner_rust.Domain.Platform.{Platform, is_ascii}
use twitch_miner_rust.Domain.PredictionEvent.{
  PredictionOutcome, PredictionDecision, PredictionEvent,
}
use twitch_miner_rust.Domain.Prediction.Settlement.{parse_result, win_type, lose_type, refund_type}
use twitch_miner_rust.Runtime.State.{RuntimeEffect}
use twitch_miner_rust.Runtime.Settlement.{
  pool, winning_pool, rounded_share, payout_for_outcome, settlement_of, is_canceled,
  resolved_status, settled_effect, build_prediction_settlement_effect,
}

rounded_share-IsI64 : (amount total winning : ℕ) → IsI64 (rounded_share amount total winning)
unfolding rounded_share
rounded_share-IsI64 amount total winning = saturate_i64_bounds _

-- For a stake that is an `i64` the payout is an `i64`. Either the bet is on the winner and is paid
-- at least its stake, or it is paid nothing, and then it is on another outcome or has no stake.
pub payout_bounds :
    (decision : PredictionDecision) (outcomes : List PredictionOutcome) (winner : Text)
    → IsI64 decision.amount
    → let payout = payout_for_outcome decision outcomes winner in
      IsI64 payout
      × ((decision.outcome_id ≡ winner) × (decision.amount ≤ℤ payout)
          ⊎ (payout ≡ pos 0) × ((decision.outcome_id ≢ winner) ⊎ (decision.amount ≤ℤ pos 0)))
unfolding payout_for_outcome
payout_bounds decision outcomes winner h = ground (
  arith,
  rounded_share-IsI64 (pos_part decision.amount) (pos_part (pool outcomes))
      (pos_part (winning_pool winner outcomes)),
  text_eq_iff decision.outcome_id winner,
)

zero_gain : wrap_i64 (pos 0 -ℤ pos 0) ≡ pos 0
unfolding wrap_i64 ◌-ℤ◌
zero_gain = refl

-- The three ends of a prediction.
abbrev pub IsEnd : Text → Type 0
IsEnd result_type =
    (result_type ≡ win_type) ⊎ (result_type ≡ lose_type) ⊎ (result_type ≡ refund_type)

module _ (p : Platform) where
  pub to_uppercase-end : (t : Text) → IsEnd t → p.to_uppercase (trim t) ≡ t
  unfolding is_ascii trim ascii_upper
  to_uppercase-end t (inl e) = rw e (p.to_uppercase_ascii win_type refl)
  to_uppercase-end t (inr (inl e)) = rw e (p.to_uppercase_ascii lose_type refl)
  to_uppercase-end t (inr (inr e)) = rw e (p.to_uppercase_ascii refund_type refl)

  -- For a type that ends a prediction, the event and the settlement record that type, the decision
  -- and the id stay, and the gain is 0 for a refund and otherwise the points won, if positive,
  -- less the stake, wrapped to an `i64`.
  pub parse_result_end :
      (result_type : Text) (points_won : ℤ) (event : PredictionEvent)
      → IsEnd result_type
      → let (settled, settlement) = parse_result p result_type points_won event in
        (settled.result_type ≡ result_type)
        × (settlement.result_type ≡ result_type)
        × (settled.decision ≡ event.decision)
        × (settled.event_id ≡ event.event_id)
        × ((result_type ≡ refund_type) × (settlement.gained ≡ pos 0)
            ⊎ (result_type ≢ refund_type)
              × (settlement.gained ≡ wrap_i64 (max_ℤ points_won (pos 0) -ℤ event.decision.amount)))
  unfolding parse_result
  parse_result_end result_type points_won event h =
      ground (arith, zero_gain, to_uppercase-end result_type h, text_eq_iff result_type refund_type)

-- The end that the status and the winner stand for: a refund of a canceled prediction, and otherwise
-- a win exactly where the bet is on the winner.
abbrev pub IsEndOf : PredictionEvent → Option Text → Text → Type 0
IsEndOf event winner t =
    (is_canceled event.status ≡ true) × (t ≡ refund_type)
    ⊎ (is_canceled event.status ≡ false)
      × ((winner ≡ some event.decision.outcome_id) × (t ≡ win_type)
          ⊎ (winner ≢ some event.decision.outcome_id) × (t ≡ lose_type))

IsEnd-of :
    (event : PredictionEvent) (winner : Option Text) (t : Text) → IsEndOf event winner t → IsEnd t
IsEnd-of event winner t h = ground (arith, h)

settlement_of-IsEndOf :
    (event : PredictionEvent) (winner : Option Text) (t : Text) (won : ℤ)
    → settlement_of event winner ≡ some (t, won)
    → IsEndOf event winner t
unfolding settlement_of
settlement_of-IsEndOf event none t won h = ground arith
settlement_of-IsEndOf event (some w) t won h =
    ground (arith, text_eq_iff event.decision.outcome_id w)

-- Whether a prediction is settled: its status is final and, unless it was canceled, the winner is
-- known and is one of the outcomes.
abbrev pub is_decided : PredictionEvent → Option Text → Bool
is_decided event winner =
    is_canceled event.status
    || (text_eq event.status resolved_status
        && is_some_and winner (λ w. any (λ o. text_eq o.id w) event.outcomes))

settlement_of-is_decided :
    (event : PredictionEvent) (winner : Option Text)
    → is_some (settlement_of event winner) ≡ is_decided event winner
unfolding settlement_of
settlement_of-is_decided event none = ground arith
settlement_of-is_decided event (some w) = ground arith

-- A settlement is built exactly for a decided prediction. It keeps the decision and the id, and its
-- result type is a refund where the prediction was canceled, a win where it was not and the bet is
-- on the winner, and otherwise a loss.
pub build_prediction_settlement_effect_lem :
    (p : Platform) (event : PredictionEvent) (winner : Option Text)
    → ((is_decided event winner ≡ false)
        × (build_prediction_settlement_effect p event winner ≡ none))
      ⊎ ((settled : PredictionEvent) × (effect : RuntimeEffect) × (is_decided event winner ≡ true)
          × (build_prediction_settlement_effect p event winner ≡ some (settled, effect))
          × IsEndOf event winner settled.result_type
          × (settled.decision ≡ event.decision)
          × (settled.event_id ≡ event.event_id))
unfolding build_prediction_settlement_effect
build_prediction_settlement_effect_lem p event winner =
    elim (Option-cases (settlement_of event winner)) [
      | inl e ↦ inl (
        sym (settlement_of-is_decided event winner) ∙ ap is_some e,
        rw (e, build_prediction_settlement_effect) refl,
      )
      | inr ((t, won), e) ↦
          let end = settlement_of-IsEndOf event winner t won e in
          let (kept, _, decision, id, _) =
            parse_result_end p t won event (IsEnd-of event winner t end) in
          inr (
            (parse_result p t won event).0,
            settled_effect (parse_result p t won event).0 (parse_result p t won event).1,
            sym (settlement_of-is_decided event winner) ∙ ap is_some e,
            rw (e, build_prediction_settlement_effect) refl,
            rw kept end,
            decision,
            id,
          )
    ]
