-- ===== src/Domain/Prediction/Settlement.antt =====
-- `parse_result`: what a settled prediction gained, and its texts.
use twitch_miner_rust.Base.{
  ℕ, ◌+◌, Option, none, some, [], ◌∷◌, ◌++◌, if◌then◌else◌, ltb, get_elem?, find, position,
  is_empty, or_option,
}
use twitch_miner_rust.Base.Int.{ℤ, pos, leb_ℤ, max_ℤ, ◌-ℤ◌, wrap_i64}
use twitch_miner_rust.Base.Text.{Text, text_eq, str, trim, show_nat}
use twitch_miner_rust.Domain.Platform.{Platform}
use twitch_miner_rust.Domain.Formatting.{format_channel_points}
use twitch_miner_rust.Domain.PredictionEvent.{
  PredictionOutcome, PredictionDecision, PredictionSettlement, PredictionEvent,
}

-- `choice_label`: a letter, or a number beyond the letters.
unfoldable pub choice_label : ℕ → Text
choice_label choice = if ltb choice 26 then (b'A' + choice) ∷ [] else b'#' ∷ show_nat (choice + 1)

-- `decision_outcome`: by the choice, or by the identity of the outcome.
unfoldable pub decision_outcome : PredictionEvent → Option PredictionOutcome
decision_outcome event =
    let by_choice = elim event.decision.choice as (λ _. Option PredictionOutcome) [
      | none ↦ none
      | some choice ↦ get_elem? event.outcomes choice
    ] in
    or_option by_choice (find (λ o. text_eq o.id event.decision.outcome_id) event.outcomes)

outcome_label : Platform → Option ℕ → PredictionOutcome → Text
outcome_label p none o = o.title ++ str " (" ++ p.to_uppercase o.color ++ str ")"
outcome_label p (some choice) o =
    choice_label choice ++ str ": " ++ o.title ++ str " (" ++ p.to_uppercase o.color ++ str ")"

missing_label : PredictionDecision → Text
missing_label decision =
    if is_empty decision.outcome_id then [] else elim decision.choice as (λ _. Text) [
      | none ↦ decision.outcome_id
      | some choice ↦ choice_label choice ++ str ": " ++ decision.outcome_id
    ]

unfoldable pub decision_label : Platform → PredictionEvent → Text
unfolding decision_outcome outcome_label missing_label
decision_label p event = elim (decision_outcome event) [
  | none ↦ missing_label event.decision
  | some o ↦
      outcome_label p
        (or_option event.decision.choice
          (position (λ candidate. text_eq candidate.id o.id) event.outcomes))
        o
]

abbrev pub refund_type : Text
refund_type = str "REFUND"

abbrev pub lose_type : Text
lose_type = str "LOSE"

abbrev pub win_type : Text
win_type = str "WIN"

result_action : Text → Text
result_action result_type =
    if text_eq result_type lose_type
    then str "Lost"
    else if text_eq result_type refund_type
    then str "Refunded"
    else str "Gained"

result_text : Platform → Text → ℤ → Text
unfolding result_action
result_text p result_type gained =
    result_type
    ++ str ", "
    ++ result_action result_type
    ++ str ": "
    ++ (if leb_ℤ (pos 0) gained then str "+" else [])
    ++ format_channel_points p gained

-- The new event and the settlement.
unfoldable pub parse_result :
    Platform → Text → ℤ → PredictionEvent → PredictionEvent × PredictionSettlement
unfolding result_text
parse_result p raw_type points_won event =
    let result_type = p.to_uppercase (trim raw_type) in
    let refunded = text_eq result_type refund_type in
    let placed = if refunded then pos 0 else event.decision.amount in
    let won = if refunded then pos 0 else max_ℤ points_won (pos 0) in
    let gained = wrap_i64 (won -ℤ placed) in
    let result_string = result_text p result_type gained in
    let settled = record event { result_type = result_type; result_string = result_string } in
    (
      settled,
      record {
        gained = gained;
        placed = placed;
        won = won;
        result_type = result_type;
        result_string = result_string;
        decision_label = decision_label p settled;
      },
    )
