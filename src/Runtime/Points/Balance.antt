-- ===== src/Runtime/Points/Balance.antt =====
-- The balance under a gain.
use twitch_miner_rust.Base.{
  ℕ, zero, suc, ◌≤◌, ◌<◌, ◌≡◌, refl, ◌⊎◌, inl, inr, true, false, arith, if◌then◌else◌, retain,
  is_empty, unwrap_or, some,
}
use twitch_miner_rust.Base.Int.{
  ℤ, pos, negsuc, ◌≤ℤ◌, ◌<ℤ◌, IsI64, saturating_add, saturate_i64, ◌+ℤ◌, ◌-ℤ◌, max_ℤ, neg_i64,
  wrap_i64, i64_max,
}
use twitch_miner_rust.Base.Map
use twitch_miner_rust.Base.Text.{Text, text_eq, str, starts_with-append}
use twitch_miner_rust.Domain.Streamer.{Streamer, is_durable_key}
use twitch_miner_rust.Runtime.Dedupe.{
  prediction_deduction_marker, prediction_deduction_marker_exists,
}
use twitch_miner_rust.Runtime.Dedupe.Markers.{contains-retain}
use twitch_miner_rust.Runtime.Points.{
  new_balance, gained, update_history, count_reward, default_entry,
}

saturating_add_cases :
    (a b : ℤ)
    → IsI64 a
    → IsI64 b
    → IsI64 (saturating_add a b)
      × (pos 0 ≤ℤ b → a ≤ℤ saturating_add a b)
      × (b ≤ℤ pos 0 → saturating_add a b ≤ℤ a)
unfolding saturating_add saturate_i64 ◌+ℤ◌
saturating_add_cases (pos a) (pos b) h k = ground arith
saturating_add_cases (pos a) (negsuc b) h k = ground arith
saturating_add_cases (negsuc a) (pos b) h k = ground arith
saturating_add_cases (negsuc a) (negsuc b) h k = ground arith

-- From a balance that is not negative, where it, the change and the reported balance are `i64`,
-- the new balance is not negative and is an `i64`; a change that is not negative does not lower
-- it, and a negative one does not raise it.
pub new_balance_bounds :
    (previous earned balance : ℤ)
    → IsI64 previous
    → IsI64 earned
    → IsI64 balance
    → pos 0 ≤ℤ previous
    → let after = new_balance previous earned balance in
      IsI64 after
      × (pos 0 ≤ℤ after)
      × ((earned <ℤ pos 0) × (after ≤ℤ previous) ⊎ (pos 0 ≤ℤ earned) × (previous ≤ℤ after))
unfolding new_balance
new_balance_bounds previous earned balance p e b nonneg =
    ground (arith, saturating_add_cases previous earned p e)

-- A gain or a spend with a reason counts once in the history under that reason, and what stands
-- under other reasons is left alone.
pub get-history-gained :
    (earned balance : ℤ) (reason other : Text) (s : Streamer)
    → is_empty reason ≡ false
    → Map.get other (gained earned reason balance s).history ≡ (
        if text_eq reason other
        then some (count_reward earned (unwrap_or (Map.get reason s.history) default_entry))
        else Map.get other s.history)
unfolding gained
get-history-gained earned balance reason other s h =
    rw (h, gained, update_history) (Map.get-insert reason other _ s.history)

-- The keys that outlive a gain: all of them, but for a spend on a prediction, after which only those
-- of a source and of a prediction are left.
pub gained_keys :
    (earned balance : ℤ) (reason : Text) (s : Streamer)
    → ((gained earned reason balance s).processed_point_event_keys ≡ s.processed_point_event_keys)
      ⊎ ((gained earned reason balance s).processed_point_event_keys
          ≡ retain is_durable_key s.processed_point_event_keys)
unfolding gained update_history
gained_keys earned balance reason s = ground arith

pub prediction_deduction_marker-is_durable :
    (event_id : Text) → is_durable_key (prediction_deduction_marker event_id) ≡ true
unfolding is_durable_key prediction_deduction_marker
prediction_deduction_marker-is_durable event_id =
    ground (arith, starts_with-append (str "prediction:") event_id)

-- A gain and a spend leave the markers of the stakes.
pub marker-gained :
    (earned balance : ℤ) (reason event_id : Text) (s : Streamer)
    → prediction_deduction_marker_exists
        (gained earned reason balance s).processed_point_event_keys
        event_id
      ≡ prediction_deduction_marker_exists s.processed_point_event_keys event_id
unfolding prediction_deduction_marker_exists
marker-gained earned balance reason event_id s = elim (gained_keys earned balance reason s) [
  | inl e ↦ rw e refl
  | inr e ↦ rw e (
      contains-retain is_durable_key s.processed_point_event_keys
        (prediction_deduction_marker event_id) (prediction_deduction_marker-is_durable event_id))
]

neg_i64-suc : (k : ℕ) → suc k ≤ i64_max → neg_i64 (pos (suc k)) ≡ negsuc k
unfolding neg_i64 wrap_i64 ◌-ℤ◌
neg_i64-suc k h = ground arith

spend_suc :
    (n k : ℕ)
    → n ≤ i64_max
    → suc k ≤ i64_max
    → new_balance (pos n) (negsuc k) (pos 0) ≡ max_ℤ (pos n -ℤ pos (suc k)) (pos 0)
unfolding new_balance saturating_add saturate_i64 ◌+ℤ◌ ◌-ℤ◌
spend_suc n k h fits = ground arith

-- A positive stake that is an `i64` is taken from a balance that is not negative, down to 0.
pub new_balance_spend :
    (previous : ℤ) (amount : ℕ)
    → IsI64 previous
    → pos 0 ≤ℤ previous
    → 0 < amount
    → amount ≤ i64_max
    → new_balance previous (neg_i64 (pos amount)) (pos 0) ≡ max_ℤ (previous -ℤ pos amount) (pos 0)
new_balance_spend (pos n) (suc k) p nonneg positive fits =
    rw (neg_i64-suc k fits) (spend_suc n k (omega arith) fits)
new_balance_spend (pos n) zero p nonneg positive fits = absurd (omega arith)
new_balance_spend (negsuc n) amount p nonneg positive fits = absurd (omega arith)

pub channel_points-gained :
    (earned balance : ℤ) (reason : Text) (s : Streamer)
    → (gained earned reason balance s).channel_points ≡ new_balance s.channel_points earned balance
unfolding gained update_history
channel_points-gained earned balance reason s = ground arith
