-- ===== src/Domain/Prediction/Filter/Meets.antt =====
-- When the filter of crates/tm-domain/src/prediction.rs skips a prediction.
use native.Mathlib.Omega.{compare-lt, compare-eq, compare-gt}
use Prim.Native.Nat.{Ordering, compare}
use twitch_miner_rust.Base.{ℕ, ◌≡◌, refl, ◌⊎◌, ◌<◌, ◌≤◌, inl, inr, arith, Bool, true, false, some}
use twitch_miner_rust.Base.Result.{ok}
use twitch_miner_rust.Domain.Float.{F64, f64_is_nan, f64_rank, f64_partial_cmp, f64_lt, f64_le}
use twitch_miner_rust.Domain.Platform.{Platform}
use twitch_miner_rust.Domain.PredictionEvent.{PredictionEvent}
use twitch_miner_rust.Domain.Prediction.Filter.{
  compared_value, passes, filter_result, filter_with, filter_by, should_skip_by_filter,
}
use twitch_miner_rust.Domain.Settings.{FilterCondition, Condition, gt, lt, gte, lte}

-- A condition on two numbers, as an order of their ranks.
abbrev pub Meets : Condition → F64 → F64 → Type 0
Meets gt compared expected = f64_rank expected < f64_rank compared
Meets lt compared expected = f64_rank compared < f64_rank expected
Meets gte compared expected = f64_rank expected ≤ f64_rank compared
Meets lte compared expected = f64_rank compared ≤ f64_rank expected

-- A test decides a statement.
abbrev pub Decides : Bool → Type 0 → Type 0
Decides b A = (b ≡ true) × A ⊎ (b ≡ false) × ¬ A

partial_cmp_ranks :
    (a b : F64)
    → f64_is_nan a ≡ false
    → f64_is_nan b ≡ false
    → f64_partial_cmp a b ≡ some (compare (f64_rank a) (f64_rank b))
unfolding f64_partial_cmp
partial_cmp_ranks a b h g = rw (h, g) refl

unfoldable is_lt : Ordering → Bool
is_lt Ordering.lt = true
is_lt _ = false

unfoldable is_le : Ordering → Bool
is_le Ordering.gt = false
is_le _ = true

is_lt-Decides : (m n : ℕ) (x : Ordering) → compare m n ≡ x → Decides (is_lt x) (m < n)
unfolding is_lt
is_lt-Decides m n Ordering.lt e = inl (refl, compare-lt m n e)
is_lt-Decides m n Ordering.eq e = inr (refl, omega (arith, compare-eq m n e))
is_lt-Decides m n Ordering.gt e = inr (refl, omega (arith, compare-gt m n e))

is_le-Decides : (m n : ℕ) (x : Ordering) → compare m n ≡ x → Decides (is_le x) (m ≤ n)
unfolding is_le
is_le-Decides m n Ordering.lt e = inl (refl, omega (arith, compare-lt m n e))
is_le-Decides m n Ordering.eq e = inl (refl, omega (arith, compare-eq m n e))
is_le-Decides m n Ordering.gt e = inr (refl, omega (arith, compare-gt m n e))

module _ (a b : F64) (h : f64_is_nan a ≡ false) (g : f64_is_nan b ≡ false) where
  f64_lt-Decides : Decides (f64_lt a b) (f64_rank a < f64_rank b)
  unfolding f64_lt is_lt
  f64_lt-Decides =
      rw (partial_cmp_ranks a b h g, f64_lt)
        (is_lt-Decides (f64_rank a) (f64_rank b) (compare (f64_rank a) (f64_rank b)) refl)

  f64_le-Decides : Decides (f64_le a b) (f64_rank a ≤ f64_rank b)
  unfolding f64_le is_le
  f64_le-Decides =
      rw (partial_cmp_ranks a b h g, f64_le)
        (is_le-Decides (f64_rank a) (f64_rank b) (compare (f64_rank a) (f64_rank b)) refl)

passes-Decides :
    (c : Condition) (compared expected : F64)
    → f64_is_nan compared ≡ false
    → f64_is_nan expected ≡ false
    → Decides (passes c compared expected) (Meets c compared expected)
unfolding passes
passes-Decides gt compared expected h g = f64_lt-Decides expected compared g h
passes-Decides lt compared expected h g = f64_lt-Decides compared expected h g
passes-Decides gte compared expected h g = f64_le-Decides expected compared g h
passes-Decides lte compared expected h g = f64_le-Decides compared expected h g

-- Where the filter has a value to compare with, the event has the value that is compared, and both
-- are no NaN, the filter reports the compared value and lets the prediction pass exactly when the
-- two numbers meet its condition.
pub should_skip_by_filter-Meets :
    (p : Platform) (event : PredictionEvent) (filter : FilterCondition) (expected compared : F64)
    → event.streamer.settings.bet.filter_condition ≡ some filter
    → filter.value ≡ some expected
    → compared_value p event filter.by ≡ ok compared
    → f64_is_nan compared ≡ false
    → f64_is_nan expected ≡ false
    → let result = should_skip_by_filter p event in
      (result.1 ≡ compared)
      × ((result.0 ≡ false) × Meets filter.condition compared expected
          ⊎ (result.0 ≡ true) × ¬ Meets filter.condition compared expected)
unfolding should_skip_by_filter filter_by filter_with filter_result
should_skip_by_filter-Meets p event filter expected compared set h g n m =
    elim (passes-Decides filter.condition compared expected n m) [
      | inl (e, meets) ↦ rw (set, h, g, e, filter_with, filter_result) (refl, inl (refl, meets))
      | inr (e, fails) ↦ rw (set, h, g, e, filter_with, filter_result) (refl, inr (refl, fails))
    ]
