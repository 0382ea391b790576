-- ===== src/Runtime/Presence.antt =====
-- crates/tm-runtime/src/state.rs: the presence of a streamer, its suspension and its login.
pub mod Transitions
use twitch_miner_rust.Base.{
  map_option, ℕ, ◌+◌, ◌-◌, ◌/◌, Bool, true, false, not, ◌||◌, Option, none, some, map, leb,
  if◌then◌else◌, is_some, is_some_and, unwrap_or, is_empty,
}
use twitch_miner_rust.Base.Int.{ℤ, saturating_suc_u64}
use twitch_miner_rust.Base.Map.{Map}
use twitch_miner_rust.Base.Map
use twitch_miner_rust.Base.Text.{Text, text_eq, trim, ascii_lower}
use twitch_miner_rust.Domain.Stream.{Time, seconds, Stream, default_stream, reset_watch_progress}
use twitch_miner_rust.Domain.Streamer.{Streamer}
use twitch_miner_rust.Runtime.State.{RuntimeState, find_streamer, replace_streamer}

abbrev pub streak_restart_carryover_seconds : ℕ
streak_restart_carryover_seconds = 1800

-- `(now - offline_at).whole_seconds() <= STREAK_RESTART_CARRYOVER_SECONDS`; whole seconds are
-- truncated, and a negative difference passes too.
unfoldable pub is_short_restart : Option Time → Time → Bool
is_short_restart offline_at now =
    is_some_and offline_at
      (λ offline. leb ((now - offline) / 1000000000) streak_restart_carryover_seconds)

-- What follows unless the restart was short: the streak is open again.
unfoldable pub reopen_streak : Bool → Stream → Stream
reopen_streak short_restart stream =
    if short_restart
    then stream
    else record stream { watch_streak_missing = true; streak_carryover_until = none }

-- `get_or_insert_with(Stream::default)`.
abbrev pub stream_or_default : Streamer → Stream
stream_or_default s = unwrap_or s.stream default_stream

went_online : Time → Streamer → Streamer
unfolding is_short_restart reopen_streak
went_online now s =
    let reopened = reopen_streak (is_short_restart s.offline_at now) (stream_or_default s) in
    record s {
      last_stream_ended_at = s.offline_at;
      online_at = some now;
      offline_at = none;
      stream = some (record reopened { stream_up_at = some (unwrap_or reopened.stream_up_at now) });
    }

went_offline : Time → Streamer → Streamer
unfolding reset_watch_progress
went_offline now s = record s {
  offline_at = some now;
  last_stream_ended_at = some now;
  stream =
      map_option
        (λ stream. reset_watch_progress (record stream {
          stream_up_at = none;
          streak_carryover_until = some (now + seconds streak_restart_carryover_seconds);
        }))
        s.stream;
}

-- The transition of one streamer, and whether there was one.
unfoldable pub present : Bool → Time → Streamer → Streamer × Bool
unfolding went_online went_offline
present online now s =
    let known = record s {
      presence_known = true;
      is_online = online;
      stream_update_generation = saturating_suc_u64 s.stream_update_generation;
    } in
    let was_other = elim online as (λ _. Bool) [ true ↦ not s.is_online | false ↦ s.is_online ] in
    if not s.presence_known || was_other
    then (if online then went_online now known else went_offline now known, true)
    else (s, false)

-- `apply_presence`.
unfoldable pub apply_presence : Text → Bool → Time → RuntimeState → RuntimeState × Bool
unfolding present
apply_presence channel_id online now state = elim (find_streamer channel_id state.streamers) [
  | none ↦ (state, false)
  | some s ↦
      let (s', changed) = present online now s in
      (record state { streamers = replace_streamer channel_id s' state.streamers }, changed)
]

-- `suspend_watching`.
unfoldable pub suspend_watching : Text → Time → RuntimeState → RuntimeState × Bool
suspend_watching channel_id until state = elim (find_streamer channel_id state.streamers) [
  | none ↦ (state, false)
  | some s ↦
      if is_some_and s.watch_suspended_until (λ current. leb until current)
      then (state, false)
      else (
        record state {
          streamers =
              replace_streamer channel_id (record s { watch_suspended_until = some until })
                state.streamers;
        },
        true,
      )
]

rename_points : Text → Text → Map ℤ → Map ℤ
rename_points old_login login points = elim (Map.get old_login points) [
  | none ↦ points
  | some initial ↦ Map.insert login initial (Map.remove old_login points)
]

-- `update_streamer_login`.
unfoldable pub update_streamer_login : Text → Text → RuntimeState → RuntimeState × Bool
unfolding rename_points
update_streamer_login channel_id raw_login state =
    let login = map ascii_lower (trim raw_login) in
    if is_empty login then (state, false) else elim (find_streamer channel_id state.streamers) [
      | none ↦ (state, false)
      | some s ↦
          if text_eq s.username login
          then (
            record state {
              streamers =
                  replace_streamer channel_id (record s { watch_suspended_until = none })
                    state.streamers;
            },
            is_some s.watch_suspended_until,
          )
          else (
            record state {
              streamers =
                  replace_streamer channel_id
                    (record s {
                      username = login;
                      watch_suspended_until = none;
                      context_request_generation = saturating_suc_u64 s.context_request_generation;
                      stream_update_generation = saturating_suc_u64 s.stream_update_generation;
                    })
                    state.streamers;
              initial_points = rename_points s.username login state.initial_points;
            },
            true,
          )
    ]
