-- ===== src/Runtime/Requests.antt =====
-- crates/tm-runtime/src/state.rs: context and stream requests, and the generations that make a late
-- response void.
pub mod Stale
pub mod Balance
use twitch_miner_rust.Base.{
  map_option, ℕ, Bool, true, not, ◌&&◌, ◌||◌, Option, none, some, List, [], ◌∷◌, ltb, ◌==◌,
  if◌then◌else◌, is_none_or, unwrap_or, any, is_empty,
}
use twitch_miner_rust.Base.Int.{ℤ, pos, saturating_sub, saturating_suc_u64}
use twitch_miner_rust.Base.Map
use twitch_miner_rust.Base.Text.{Text, text_eq, str, trim, is_blank}
use twitch_miner_rust.Domain.Stream.{Time, Game, Stream, update, reset_watch_progress, game_name}
use twitch_miner_rust.Domain.Streamer.{
  Streamer, is_active, can_earn_channel_points, apply_context_if_allowed,
}
use twitch_miner_rust.Runtime.State.{
  RuntimeState, ContextUpdate, ContextRequestToken, StreamUpdate, RuntimeEffect,
  contribute_community_goals, find_streamer, replace_streamer,
}
use twitch_miner_rust.Runtime.Presence.{is_short_restart, reopen_streak, stream_or_default}

-- `begin_context_update`.
unfoldable pub begin_context_update :
    Text → RuntimeState → RuntimeState × Option ContextRequestToken
begin_context_update channel_id state = elim (find_streamer channel_id state.streamers) [
  | none ↦ (state, none)
  | some s ↦
      let generation = saturating_suc_u64 s.context_request_generation in
      (
        record state {
          streamers =
              replace_streamer channel_id (record s { context_request_generation = generation })
                state.streamers;
        },
        some (record {
          request_generation = generation;
          balance_revision = s.context_balance_revision;
        }),
      )
]

-- `begin_stream_update`.
unfoldable pub begin_stream_update : Text → RuntimeState → RuntimeState × Option ℕ
begin_stream_update channel_id state = elim (find_streamer channel_id state.streamers) [
  | none ↦ (state, none)
  | some s ↦
      let generation = saturating_suc_u64 s.stream_update_generation in
      (
        record state {
          streamers =
              replace_streamer channel_id (record s { stream_update_generation = generation })
                state.streamers;
        },
        some generation,
      )
]

-- The accepted part of `apply_context_update`: the streamer, and whether the balance was taken.
unfoldable pub context_applied : ContextUpdate → Streamer → Streamer × Bool
context_applied update s =
    let (s', applied) =
      apply_context_if_allowed (s.context_balance_revision == update.expected_balance_revision)
        update.channel_points_enabled update.balance update.active_multipliers
        update.community_goals (record s { last_context_observed_at = some update.observed_at }) in
    (
      if applied
          then record s' {
            context_balance_revision = saturating_suc_u64 s'.context_balance_revision;
          }
          else s',
      applied,
    )

-- `apply_context_update`: the state, the effects and the change of the balance.
unfoldable pub apply_context_update :
    ContextUpdate → RuntimeState → RuntimeState × List RuntimeEffect × ℤ
unfolding context_applied
apply_context_update update state = elim (find_streamer update.channel_id state.streamers) [
  | none ↦ (state, [], pos 0)
  | some s ↦
      if not (s.context_request_generation == update.expected_request_generation)
      then (state, [], pos 0)
      else let (s', applied) = context_applied update s in
        (
          record state { streamers = replace_streamer update.channel_id s' state.streamers },
          if can_earn_channel_points s'
                && (s'.settings.community_goals && any (λ e. is_active e.1) s'.community_goals)
              then contribute_community_goals update.channel_id ∷ []
              else [],
          if applied then saturating_sub s'.channel_points s.channel_points else pos 0,
        )
]

abbrev pub tm_twitch_drop_id : Text
tm_twitch_drop_id = str "c2542d6d-cd10-4532-919b-3d19f30a768b"

abbrev named_game : Text → Game
named_game name =
    let value : Option Text = if is_blank name then none else some name in
    record { display_name = value; name = value }

-- The stream under an accepted update, before its metadata are replaced.
stream_prepared : Bool → Bool → Time → Stream → Stream
stream_prepared broadcast_changed game_changed now stream =
    let started = record stream {
      stream_up_at =
          if broadcast_changed then some now else some (unwrap_or stream.stream_up_at now);
    } in
    let moved =
      if broadcast_changed
      then reopen_streak
          (not (
            is_none_or started.streak_carryover_until (λ carryover_until. ltb carryover_until now)))
          (reset_watch_progress started)
      else started in
    if broadcast_changed || game_changed
    then record moved { drop_campaign_eligible = none; drop_watch_target = none }
    else moved

-- The online transition that a stream update brings with it.
stream_online : Time → Streamer → Streamer
stream_online now s =
    if not s.is_online || not s.presence_known
    then record s {
      presence_known = true;
      is_online = true;
      online_at = some now;
      offline_at = none;
      stream = map_option (reopen_streak (is_short_restart s.offline_at now)) s.stream;
    }
    else s

-- The accepted part of `apply_stream_update`.
stream_updated : StreamUpdate → Time → Streamer → Streamer
unfolding stream_prepared stream_online
stream_updated u now s =
    let stream = stream_or_default s in
    let broadcast_changed =
      not (is_empty stream.broadcast_id) && not (text_eq stream.broadcast_id u.id) in
    let game_changed = not (text_eq (game_name stream) (trim u.game_name)) in
    stream_online now (record s {
      last_server_confirmed_points_at =
          if broadcast_changed then none else s.last_server_confirmed_points_at;
      stream = some (
          update u.id u.title (named_game u.game_name) u.game_id u.tags u.viewers_count
            tm_twitch_drop_id now (stream_prepared broadcast_changed game_changed now stream));
      stream_update_generation = saturating_suc_u64 s.stream_update_generation;
    })

-- `apply_stream_update`: none for a channel that is gone and for a stale generation.
unfoldable pub apply_stream_update :
    StreamUpdate → Time → RuntimeState → RuntimeState × Option Streamer
unfolding stream_updated
apply_stream_update u now state = elim (find_streamer u.channel_id state.streamers) [
  | none ↦ (state, none)
  | some s ↦
      if not (s.stream_update_generation == u.expected_generation)
      then (state, none)
      else let s' = stream_updated u now s in
        (record state { streamers = replace_streamer u.channel_id s' state.streamers }, some s')
]
