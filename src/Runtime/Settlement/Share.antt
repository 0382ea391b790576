-- ===== src/Runtime/Settlement/Share.antt =====
-- The share of a stake in the pool, and what the code pays for it.
use twitch_miner_rust.Base.{
  ℕ, ◌+◌, ◌*◌, ◌/◌, ◌≤◌, ◌<◌, ◌≡◌, refl, ap, ◌∙◌, Bool, true, ◌&&◌, zero, suc, ◌∷◌, [], find,
  &&-eq-true_iff, some, List, arith,
}
use twitch_miner_rust.Base.Int.{ℤ, pos, negsuc, pos_part, leb_ℤ, i64_max, saturate_i64_exact, ◌+ℤ◌}
use Prim.Native.Nat.{max}
use native.Mathlib.Nat.{div-add-mod, mod-lt, suc-mul}
use twitch_miner_rust.Base.Text.{Text, text_eq, text_eq_refl}
use twitch_miner_rust.Domain.PredictionEvent.{PredictionOutcome, PredictionDecision}
use twitch_miner_rust.Runtime.Settlement.{
  pool_from, pool, winning_pool, saturate_i128, i128_max, rounded_share, payout_for_outcome,
}

-- Division rounds to the nearest where half the divisor was added.
nearest : (n d : ℕ) → 0 < d → ((n + d / 2) / d * d ≤ n + d / 2) × (n ≤ (n + d / 2) / d * d + d / 2)
nearest n d h = omega (arith, div-add-mod (n + d / 2) d, mod-lt (n + d / 2) h)

saturate_i128_exact : (n : ℕ) → n ≤ i128_max → saturate_i128 (pos n) ≡ pos n
unfolding saturate_i128
saturate_i128_exact n h = ground arith

add_pos : (a b : ℕ) → pos a +ℤ pos b ≡ pos (a + b)
unfolding ◌+ℤ◌
add_pos a b = ground arith

rounded_share_exact :
    (amount total winning : ℕ)
    → amount * total + winning / 2 ≤ i128_max
    → (amount * total + winning / 2) / winning ≤ i64_max
    → rounded_share amount total winning ≡ pos ((amount * total + winning / 2) / winning)
unfolding rounded_share
rounded_share_exact amount total winning fits result =
    let product = saturate_i128_exact (amount * total) (omega arith) in
    rw
      (
        rounded_share,
        product,
        add_pos (amount * total) (winning / 2),
        saturate_i128_exact (amount * total + winning / 2) fits,
      )
      (saturate_i64_exact (pos ((amount * total + winning / 2) / winning)) (omega arith))

share_nearest :
    (amount total winning : ℕ)
    → 0 < winning
    → amount * total + winning / 2 ≤ i128_max
    → (amount * total + winning / 2) / winning ≤ i64_max
    → (share : ℕ) × (rounded_share amount total winning ≡ pos share)
      × (share * winning ≤ amount * total + winning / 2)
      × (amount * total ≤ share * winning + winning / 2)
share_nearest amount total winning positive fits result =
    let (below, above) = nearest (amount * total) winning positive in
    (_, rounded_share_exact amount total winning fits result, below, above)

-- The points on all outcomes, where none has a negative number of them.
unfoldable pub sum_points : List PredictionOutcome → ℕ
sum_points [] = 0
sum_points (o ∷ os) = pos_part o.total_points + sum_points os

unfoldable pub are_counts : List PredictionOutcome → Bool
are_counts [] = true
are_counts (o ∷ os) = leb_ℤ (pos 0) o.total_points && are_counts os

nonneg-pos : (z : ℤ) → leb_ℤ (pos 0) z ≡ true → z ≡ pos (pos_part z)
nonneg-pos (pos n) h = refl
nonneg-pos (negsuc n) h = ground (arith, h)

pool_from-sum_points :
    (a : ℕ) (os : List PredictionOutcome)
    → are_counts os ≡ true
    → a + sum_points os ≤ i128_max
    → pool_from (pos a) os ≡ pos (a + sum_points os)
unfolding pool_from sum_points are_counts
pool_from-sum_points a [] h fits = ap pos (omega arith)
pool_from-sum_points a (o ∷ os) h fits =
    let (count, counts) = (&&-eq-true_iff (leb_ℤ (pos 0) o.total_points) (are_counts os)).0 h in
    let n = pos_part o.total_points in
    rw
      (
        nonneg-pos o.total_points count,
        add_pos a n,
        saturate_i128_exact (a + n) (omega (arith, fits)),
      )
      (pool_from-sum_points (a + n) os counts (omega (arith, fits)) ∙ ap pos (omega arith))

pool-sum_points :
    (os : List PredictionOutcome)
    → are_counts os ≡ true
    → sum_points os ≤ i128_max
    → pool os ≡ pos (sum_points os)
unfolding pool
pool-sum_points os h fits = pool_from-sum_points 0 os h (omega (arith, fits)) ∙ ap pos (omega arith)

le_mul : (a n : ℕ) → 0 < a → n ≤ a * n
le_mul zero n h = omega (arith, h)
le_mul (suc a) n h = omega (arith, suc-mul a n)

winning_pool-found :
    (winner : Text) (outcomes : List PredictionOutcome) (won : PredictionOutcome)
    → find (λ o. text_eq o.id winner) outcomes ≡ some won
    → winning_pool winner outcomes ≡ won.total_points
unfolding winning_pool
winning_pool-found winner outcomes won h = rw (h, winning_pool) refl

-- What a winning bet is paid, by its stake, the pool, the points on the winner and the share.
payout_of_share :
    (decision : PredictionDecision) (outcomes : List PredictionOutcome)
    (stake total winning share : ℕ)
    → decision.amount ≡ pos stake
    → pool outcomes ≡ pos total
    → winning_pool decision.outcome_id outcomes ≡ pos winning
    → rounded_share stake total winning ≡ pos share
    → 0 < stake
    → 0 < total
    → 0 < winning
    → payout_for_outcome decision outcomes decision.outcome_id ≡ pos (max share stake)
unfolding payout_for_outcome
payout_of_share decision outcomes stake total winning share a b c d e f g =
    rw (payout_for_outcome, a, text_eq_refl decision.outcome_id, b, c, d) (ground arith)

-- The payout of a bet that was won. The outcomes have no negative number of points, and the bet is
-- on the first outcome with the id of the winner; the stake, the sum of the points on all outcomes
-- and the points on the winner are positive. Where the rounded share stays within an `i128` and an
-- `i64`, the payout is the greater of the stake and the share of the stake in the sum, to the
-- nearest point: the share times the points on the winner differs from the stake times the sum by
-- at most half the points on the winner.
pub payout_for_outcome_nearest :
    (decision : PredictionDecision) (outcomes : List PredictionOutcome) (won : PredictionOutcome)
    (stake winning : ℕ)
    → decision.amount ≡ pos stake
    → find (λ o. text_eq o.id decision.outcome_id) outcomes ≡ some won
    → won.total_points ≡ pos winning
    → are_counts outcomes ≡ true
    → 0 < stake
    → 0 < winning
    → 0 < sum_points outcomes
    → stake * sum_points outcomes + winning / 2 ≤ i128_max
    → (stake * sum_points outcomes + winning / 2) / winning ≤ i64_max
    → (share : ℕ) × (payout_for_outcome decision outcomes decision.outcome_id
        ≡ pos (max share stake))
      × (share * winning ≤ stake * sum_points outcomes + winning / 2)
      × (stake * sum_points outcomes ≤ share * winning + winning / 2)
payout_for_outcome_nearest decision outcomes won stake winning amount found points counts staked
      positive some_points fits result =
    let total = sum_points outcomes in
    let (share, exact, below, above) = share_nearest stake total winning positive fits result in
    let all = pool-sum_points outcomes counts (omega (arith, le_mul stake total staked, fits)) in
    let points_won = winning_pool-found decision.outcome_id outcomes won found ∙ points in
    (
      share,
      payout_of_share decision outcomes stake total winning share amount all points_won exact staked
          some_points positive,
      below,
      above,
    )
