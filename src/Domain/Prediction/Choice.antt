-- ===== src/Domain/Prediction/Choice.antt =====
-- `select_outcome` and the scans that it makes.
pub mod Maximum
use Prim.Native.Nat.{Ordering}
use twitch_miner_rust.Base.{
  ℕ, ◌+◌, Bool, false, Option, none, some, List, [], ◌∷◌, if◌then◌else◌, get_elem?, is_some,
  unwrap_or,
}
use twitch_miner_rust.Base.Int.{ℤ, pos, ltb_ℤ}
use twitch_miner_rust.Base.Sort.{sort_by}
use twitch_miner_rust.Domain.Float.{F64, f64_partial_cmp, f64_lt, f64_abs}
use twitch_miner_rust.Domain.Platform.{Platform}
use twitch_miner_rust.Domain.Settings.{
  Strategy, most_voted, high_odds, smart_money, smart, number1, number2, number3, number4, number5,
  number6, number7, number8, BetSettings,
}
use twitch_miner_rust.Domain.PredictionEvent.{PredictionOutcome}

-- The scan of `max_index` and of `max_index_by_key`: a later element replaces the best one if it
-- is greater.
unfoldable pub scan_max {ℓ} :
    {A : Type ℓ} → (A → A → Bool) → (PredictionOutcome → A) → List PredictionOutcome → ℕ → ℕ → A → ℕ
scan_max greater score [] index best_index best = best_index
scan_max greater score (o ∷ os) index best_index best =
    let candidate = score o in
    let found = greater candidate best in
    scan_max greater score os (index + 1) (if found then index else best_index)
      (if found then candidate else best)

-- `max_index`, where NaN compares with nothing.
unfoldable pub max_index : List PredictionOutcome → (PredictionOutcome → F64) → Option ℕ
unfolding scan_max
max_index [] scorer = none
max_index (o ∷ os) scorer =
    some (scan_max (λ candidate best. f64_lt best candidate) scorer os 1 0 (scorer o))

unfoldable pub max_index_by_key : List PredictionOutcome → (PredictionOutcome → ℤ) → Option ℕ
unfolding scan_max
max_index_by_key [] key = none
max_index_by_key (o ∷ os) key =
    some (scan_max (λ candidate best. ltb_ℤ best candidate) key os 1 0 (key o))

unfoldable pub number_choice : List PredictionOutcome → ℕ → Option ℕ
unfolding max_index
number_choice outcomes index =
    if is_some (get_elem? outcomes index) then some index else max_index outcomes (λ o. o.odds)

-- Most users first; values that do not compare count as equal.
by_users_descending : PredictionOutcome → PredictionOutcome → Ordering
by_users_descending left right =
    unwrap_or (f64_partial_cmp right.percentage_users left.percentage_users) Ordering.eq

-- Whether the two most popular outcomes lie closer together than the gap.
closer_than : Platform → F64 → List PredictionOutcome → Bool
closer_than p gap (first ∷ second ∷ rest) =
    f64_lt (f64_abs (p.f64_sub first.percentage_users second.percentage_users)) gap
closer_than p gap _ = false

-- A percentage that is a NaN is not modelled: there the comparison of `sort_by` is no order, so that
-- the sort may panic or leave any order.
smart_choice : Platform → List PredictionOutcome → BetSettings → Option ℕ
unfolding closer_than by_users_descending max_index max_index_by_key
smart_choice p outcomes settings =
    let gap = p.f64_of_int (pos (unwrap_or settings.percentage_gap 20)) in
    if closer_than p gap (sort_by by_users_descending outcomes)
    then max_index outcomes (λ o. o.odds)
    else max_index_by_key outcomes (λ o. o.total_users)

unfoldable pub choose : Platform → Strategy → List PredictionOutcome → BetSettings → Option ℕ
unfolding max_index max_index_by_key number_choice smart_choice
choose p most_voted outcomes settings = max_index_by_key outcomes (λ o. o.total_users)
choose p high_odds outcomes settings = max_index outcomes (λ o. o.odds)
choose p Strategy.percentage outcomes settings = max_index outcomes (λ o. o.odds_percentage)
choose p smart_money outcomes settings = max_index_by_key outcomes (λ o. o.top_points)
choose p number1 outcomes settings = some 0
choose p number2 outcomes settings = number_choice outcomes 1
choose p number3 outcomes settings = number_choice outcomes 2
choose p number4 outcomes settings = number_choice outcomes 3
choose p number5 outcomes settings = number_choice outcomes 4
choose p number6 outcomes settings = number_choice outcomes 5
choose p number7 outcomes settings = number_choice outcomes 6
choose p number8 outcomes settings = number_choice outcomes 7
choose p smart outcomes settings = smart_choice p outcomes settings

unfoldable pub select_outcome : Platform → List PredictionOutcome → BetSettings → Option ℕ
unfolding choose
select_outcome p [] settings = none
select_outcome p (o ∷ os) settings = choose p settings.strategy (o ∷ os) settings
