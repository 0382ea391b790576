-- ===== src/Runtime/Watching.antt =====
-- crates/tm-runtime/src/state.rs: the Drop eligibility, the watch time and the streak of a channel.
use twitch_miner_rust.Base.{ℕ, Bool, true, false, not, ◌&&◌, Option, none, some, if◌then◌else◌}
use twitch_miner_rust.Base.Text.{Text, text_eq}
use twitch_miner_rust.Domain.Platform.{Platform}
use twitch_miner_rust.Domain.Stream.{
  Time, Stream, update_minute_watched, apply_watch_streak_milestone, reset_watch_progress,
}
use twitch_miner_rust.Domain.Streamer.{can_earn_channel_points}
use twitch_miner_rust.Runtime.State.{RuntimeState, find_streamer, replace_streamer}
use twitch_miner_rust.Runtime.Presence.{stream_or_default}

abbrev pub max_confirmed_watch_interval_seconds : ℕ
max_confirmed_watch_interval_seconds = 400

abbrev with_eligibility : Bool → Stream → Stream
with_eligibility eligible stream = record stream {
  drop_campaign_eligible = some eligible;
  drop_watch_target = none;
}

-- `set_drop_campaign_eligibility`.
unfoldable pub set_drop_campaign_eligibility : Text → Bool → RuntimeState → RuntimeState
set_drop_campaign_eligibility channel_id eligible state =
    elim (find_streamer channel_id state.streamers) [
      | none ↦ state
      | some s ↦ record state {
        streamers =
            replace_streamer channel_id
              (record s { stream = some (with_eligibility eligible (stream_or_default s)) })
              state.streamers;
      }
    ]

abbrev game_id_eq : Option Text → Option Text → Bool
game_id_eq none none = true
game_id_eq none (some b) = false
game_id_eq (some a) none = false
game_id_eq (some a) (some b) = text_eq a b

-- `set_drop_campaign_eligibility_if_current`.
unfoldable pub set_drop_campaign_eligibility_if_current :
    Text → Text → Option Text → Bool → RuntimeState → RuntimeState × Bool
set_drop_campaign_eligibility_if_current channel_id expected_broadcast_id expected_game_id eligible
      state =
    elim (find_streamer channel_id state.streamers) [
      | none ↦ (state, false)
      | some s ↦ elim s.stream [
        | none ↦ (state, false)
        | some stream ↦
            if text_eq stream.broadcast_id expected_broadcast_id
              && game_id_eq stream.game_id expected_game_id
            then (
              record state {
                streamers =
                    replace_streamer channel_id
                      (record s { stream = some (with_eligibility eligible stream) })
                      state.streamers;
              },
              true,
            )
            else (state, false)
      ]
    ]

-- `mark_minute_watched`.
unfoldable pub mark_minute_watched : Platform → Text → Text → Time → RuntimeState → RuntimeState
mark_minute_watched p channel_id expected_broadcast_id now state =
    elim (find_streamer channel_id state.streamers) [
      | none ↦ state
      | some s ↦ if not (can_earn_channel_points s) then state else elim s.stream [
        | none ↦ state
        | some stream ↦
            if not (text_eq stream.broadcast_id expected_broadcast_id)
            then state
            else record state {
              streamers =
                  replace_streamer channel_id
                    (record s {
                      stream =
                          some (
                            update_minute_watched p now max_confirmed_watch_interval_seconds
                              stream);
                    })
                    state.streamers;
            }
      ]
    ]

-- `reset_watch_progress`, of a channel.
unfoldable pub reset_channel_watch_progress : Text → RuntimeState → RuntimeState × Bool
reset_channel_watch_progress channel_id state = elim (find_streamer channel_id state.streamers) [
  | none ↦ (state, false)
  | some s ↦ elim s.stream [
    | none ↦ (state, false)
    | some stream ↦ (
      record state {
        streamers =
            replace_streamer channel_id (record s { stream = some (reset_watch_progress stream) })
              state.streamers;
      },
      true,
    )
  ]
]

-- `mark_watch_streak_recovered`.
unfoldable pub mark_watch_streak_recovered :
    Text → Option ℕ → Time → Option Time → RuntimeState → RuntimeState × Bool
mark_watch_streak_recovered channel_id streak_count resolved_at expires_at state =
    elim (find_streamer channel_id state.streamers) [
      | none ↦ (state, false)
      | some s ↦ (
        record state {
          streamers =
              replace_streamer channel_id
                (record s {
                  stream = some (
                      apply_watch_streak_milestone streak_count resolved_at expires_at
                        (stream_or_default s));
                })
                state.streamers;
        },
        true,
      )
    ]
