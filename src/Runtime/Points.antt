-- ===== src/Runtime/Points.antt =====
-- crates/tm-runtime/src/summary.rs: the balance and the history of a streamer under a point event.
pub mod Balance
use twitch_miner_rust.Base.{
  true, false, not, ◌&&◌, Option, none, some, retain, if◌then◌else◌, unwrap_or, is_empty,
}
use twitch_miner_rust.Base.Int.{
  ℤ, pos, ltb_ℤ, leb_ℤ, eqb_ℤ, saturating_add, wrap_i64, ◌-ℤ◌, saturating_suc_u32,
  saturating_suc_u64,
}
use twitch_miner_rust.Base.Map.{Map}
use twitch_miner_rust.Base.Map
use twitch_miner_rust.Base.Text.{Text, text_eq, str}
use twitch_miner_rust.Domain.Stream.{Stream}
use twitch_miner_rust.Domain.Streamer.{Streamer, HistoryEntry, is_durable_key}

abbrev pub prediction_reason : Text
prediction_reason = str "PREDICTION"

abbrev pub watch_reason : Text
watch_reason = str "WATCH"

abbrev pub watch_streak_reason : Text
watch_streak_reason = str "WATCH_STREAK"

abbrev pub default_entry : HistoryEntry
default_entry = record { count = 0; amount = pos 0 }

pub count_reward : ℤ → HistoryEntry → HistoryEntry
count_reward amount entry = record {
  count = saturating_suc_u32 entry.count;
  amount = saturating_add entry.amount amount;
}

close_streak : Option Stream → Option Stream
close_streak none = none
close_streak (some stream) = some (record stream { watch_streak_missing = false })

-- `update_history`.
unfoldable pub update_history : Text → ℤ → Streamer → Streamer
unfolding count_reward close_streak
update_history reason amount s = if is_empty reason then s else record s {
  history =
      Map.insert reason (count_reward amount (unwrap_or (Map.get reason s.history) default_entry))
        s.history;
  stream = if text_eq reason watch_streak_reason then close_streak s.stream else s.stream;
}

-- The balance after a gain, which is reported with the new balance.
unfoldable pub new_balance : ℤ → ℤ → ℤ → ℤ
new_balance previous earned balance =
    let expected = saturating_add previous earned in
    let reported =
      if eqb_ℤ earned (pos 0) && not (eqb_ℤ balance (pos 0)) then balance else expected in
    let floored = if ltb_ℤ reported (pos 0) then pos 0 else reported in
    if leb_ℤ (pos 0) earned && ltb_ℤ floored previous then previous else floored

-- The streamer under a gain.
unfoldable pub gained : ℤ → Text → ℤ → Streamer → Streamer
unfolding update_history new_balance
gained earned reason balance s =
    let recorded = update_history reason earned (record s {
      processed_point_event_keys =
          if ltb_ℤ earned (pos 0) && text_eq reason prediction_reason
          then retain is_durable_key s.processed_point_event_keys
          else s.processed_point_event_keys;
      channel_points = new_balance s.channel_points earned balance;
      points_init = true;
    }) in
    record recorded {
      context_balance_revision = saturating_suc_u64 recorded.context_balance_revision;
    }

-- `apply_pubsub_gain`: the streamer and the change that is reported.
unfoldable pub apply_pubsub_gain : ℤ → Text → ℤ → Streamer → Streamer × ℤ
unfolding gained
apply_pubsub_gain earned reason balance s =
    let s' = gained earned reason balance s in
    (s', if eqb_ℤ earned (pos 0) then wrap_i64 (s'.channel_points -ℤ s.channel_points) else earned)
