-- ===== src/Witnesses/Presence.antt =====
-- Concrete runs of the presence of a channel and of its requests.
use twitch_miner_rust.Base.{◌≡◌, refl, ◌⊎◌, true, false, some, none, [], arith}
use twitch_miner_rust.Base.Int.{pos, saturating_suc_u64}
use twitch_miner_rust.Base.Text.{str, text_eq}
use twitch_miner_rust.Domain.Streamer.{Streamer}
use twitch_miner_rust.Runtime.State.{
  RuntimeState, StreamUpdate, ContextUpdate, find_streamer, replace_streamer,
}
use twitch_miner_rust.Runtime.Presence.{present, apply_presence}
use twitch_miner_rust.Runtime.Presence.Transitions.{
  IsNews, IsTransition, apply_presence-IsTransition,
}
use twitch_miner_rust.Runtime.Requests.{
  begin_stream_update, begin_context_update, apply_stream_update, apply_context_update,
}
use twitch_miner_rust.Runtime.Requests.Stale.{
  stream_update_void_after_transition, context_update_void_after_request,
}
use twitch_miner_rust.Runtime.Requests.Balance.{context_update_keeps_gain}
use twitch_miner_rust.Runtime.Points.{apply_pubsub_gain, watch_reason}
use twitch_miner_rust.Witnesses.{channel, rich_streamer, empty_state}

rich_tracked : find_streamer channel empty_state.streamers ≡ some rich_streamer
unfolding find_streamer text_eq
rich_tracked = refl

apply_presence-IsTransition_example :
    let reported = apply_presence channel true 10 empty_state in
    (s' : Streamer) × (find_streamer channel reported.0.streamers ≡ some s')
    × ((reported.1 ≡ true) × IsNews true rich_streamer × IsTransition true 10 rich_streamer s'
        ⊎ (reported.1 ≡ false)
          × (s' ≡ rich_streamer)
          × (rich_streamer.presence_known ≡ true)
          × (rich_streamer.is_online ≡ true))
    × ((apply_presence channel true 20 reported.0).1 ≡ false)
apply_presence-IsTransition_example =
    apply_presence-IsTransition channel true 10 20 empty_state rich_streamer rich_tracked

abbrev late_stream : StreamUpdate
late_stream = record {
  channel_id = channel;
  id = str "b1";
  title = str "live";
  game_name = [];
  game_id = none;
  viewers_count = 7;
  tags = [];
  expected_generation = 1;
}

abbrev requested_state : RuntimeState
requested_state = (begin_stream_update channel empty_state).0

abbrev moved_state : RuntimeState
moved_state = (apply_presence channel true 10 requested_state).0

stream_asked : begin_stream_update channel empty_state ≡ (requested_state, some 1)
unfolding begin_stream_update find_streamer text_eq replace_streamer saturating_suc_u64
stream_asked = refl

went_online_now : apply_presence channel true 10 requested_state ≡ (moved_state, true)
unfolding apply_presence present begin_stream_update find_streamer text_eq replace_streamer
    saturating_suc_u64
went_online_now = refl

stream_update_void_after_transition_example :
    apply_stream_update late_stream 20 moved_state ≡ (moved_state, none)
stream_update_void_after_transition_example =
    stream_update_void_after_transition late_stream true 10 20 empty_state requested_state
      moved_state rich_streamer rich_tracked (omega arith) stream_asked went_online_now

abbrev late_context : ContextUpdate
late_context = record {
  channel_id = channel;
  channel_points_enabled = some true;
  balance = pos 500;
  expected_request_generation = 1;
  expected_balance_revision = 0;
  observed_at = 5;
  active_multipliers = [];
  community_goals = [];
}

abbrev first_state : RuntimeState
first_state = (begin_context_update channel empty_state).0

abbrev second_state : RuntimeState
second_state = (begin_context_update channel first_state).0

context_asked :
    begin_context_update channel empty_state
    ≡ (first_state, some (record { request_generation = 1; balance_revision = 0 }))
unfolding begin_context_update find_streamer text_eq replace_streamer saturating_suc_u64
context_asked = refl

context_asked_again :
    begin_context_update channel first_state
    ≡ (second_state, some (record { request_generation = 2; balance_revision = 0 }))
unfolding begin_context_update find_streamer text_eq replace_streamer saturating_suc_u64
context_asked_again = refl

context_update_void_after_request_example :
    apply_context_update late_context second_state ≡ (second_state, [], pos 0)
context_update_void_after_request_example =
    context_update_void_after_request late_context empty_state first_state second_state
      (record { request_generation = 1; balance_revision = 0 })
      (record { request_generation = 2; balance_revision = 0 }) rich_streamer rich_tracked
      (omega arith) context_asked context_asked_again refl

context_update_keeps_gain_example :
    let moved = (apply_pubsub_gain (pos 10) watch_reason (pos 1010) rich_streamer).0 in
    let (after, effects, delta) =
      apply_context_update late_context
        (record empty_state { streamers = replace_streamer channel moved empty_state.streamers }) in
    (s' : Streamer) × (find_streamer channel after.streamers ≡ some s')
    × (s'.channel_points ≡ moved.channel_points)
    × (delta ≡ pos 0)
context_update_keeps_gain_example =
    context_update_keeps_gain late_context (pos 10) (pos 1010) watch_reason empty_state
      rich_streamer rich_tracked (omega arith) refl
