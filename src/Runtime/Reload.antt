-- ===== src/Runtime/Reload.antt =====
-- crates/tm-runtime/src/state.rs: `apply_config_reload` and the channels that it retires.
pub mod Unsettled
pub mod Stakes
pub mod Retired
use twitch_miner_rust.Base.{
  ℕ, Bool, false, not, ◌&&◌, none, some, List, [], ◌∷◌, ◌++◌, map, length, any, position, remove_at,
  get_elem?, retain, if◌then◌else◌, is_empty, is_some, is_some_and, unwrap_or, leb,
}
use twitch_miner_rust.Base.Int.{ℤ, eqb_ℤ}
use twitch_miner_rust.Base.Map.{Map}
use twitch_miner_rust.Base.Map
use twitch_miner_rust.Base.Text.{Text, text_eq}
use twitch_miner_rust.Domain.Settings.{StreamerSettings}
use twitch_miner_rust.Domain.Streamer.{Streamer}
use twitch_miner_rust.Domain.PredictionEvent.{PredictionEvent}
use twitch_miner_rust.Runtime.Dedupe.{max_retired_streamers}
use twitch_miner_rust.Runtime.Completion.{release_prediction}
use twitch_miner_rust.Runtime.State.{
  RuntimeState, ConfigReload, ConfigReloadOutcome, find_streamer, replace_streamer,
}

-- `retire_streamer`: past the limit one channel leaves, the oldest that earned nothing or else the
-- oldest.
unfoldable pub earned_nothing : Map ℤ → Streamer → Bool
earned_nothing initial_points s =
    is_empty s.history
    && is_some_and (Map.get s.username initial_points) (λ points. eqb_ℤ points s.channel_points)

unfoldable pub evict_retired : RuntimeState → RuntimeState
unfolding earned_nothing
evict_retired state =
    let index =
      unwrap_or (position (earned_nothing state.initial_points) state.retired_streamers) 0 in
    elim (get_elem? state.retired_streamers index) [
      | none ↦ state
      | some evicted ↦ record state {
        retired_streamers = remove_at index state.retired_streamers;
        initial_points = Map.remove evicted.username state.initial_points;
      }
    ]

unfoldable pub retire_streamer : Streamer → RuntimeState → RuntimeState
unfolding evict_retired
retire_streamer retired state =
    let kept = record state { retired_streamers = state.retired_streamers ++ retired ∷ [] } in
    if leb (length kept.retired_streamers) max_retired_streamers then kept else evict_retired kept

-- The new settings of the tracked channels.
unfoldable pub reload_settings : Map StreamerSettings → Streamer → Streamer
reload_settings settings s = elim (Map.get s.channel_id settings) [
  | none ↦ s
  | some new ↦ record s { settings = new }
]

-- A configured channel takes over a discovered one in place.
unfoldable pub take_over : Streamer → Streamer → Streamer
take_over streamer tracked =
    if tracked.discovered && not streamer.discovered
    then record tracked { discovered = false; settings = streamer.settings }
    else tracked

-- `entry(username).or_insert(points)`.
unfoldable pub insert_new : Text → ℤ → Map ℤ → Map ℤ
insert_new username points initial =
    if is_some (Map.get username initial) then initial else Map.insert username points initial

-- One round of the loop over the channels to add.
unfoldable pub add_channel :
    Streamer → RuntimeState × ConfigReloadOutcome → RuntimeState × ConfigReloadOutcome
unfolding take_over insert_new
add_channel streamer (state, outcome) =
    if is_empty streamer.channel_id
    then (state, outcome)
    else elim (find_streamer streamer.channel_id state.streamers) [
      | some tracked ↦ (
        record state {
          streamers =
              replace_streamer streamer.channel_id (take_over streamer tracked) state.streamers;
        },
        outcome,
      )
      | none ↦ (
        record state {
          retired_streamers =
              retain (λ retired. not (text_eq retired.channel_id streamer.channel_id))
                state.retired_streamers;
          initial_points =
              insert_new streamer.username streamer.channel_points state.initial_points;
          streamers = state.streamers ++ streamer ∷ [];
        },
        record outcome { added = outcome.added ++ streamer.channel_id ∷ [] },
      )
    ]

-- Whether the channel has a stake that is not settled.
unfoldable pub has_unsettled : Text → Map PredictionEvent → Bool
has_unsettled channel_id predictions =
    any
      (λ e.
        text_eq e.1.streamer.channel_id channel_id && e.1.bet_placed && is_empty e.1.result_type)
      predictions

unfoldable pub release_all : List Text → RuntimeState → RuntimeState
release_all [] state = state
release_all (event_id ∷ ids) state = release_all ids (release_prediction event_id state)

-- The ids of the predictions of a channel.
unfoldable pub prediction_ids : Text → Map PredictionEvent → List Text
prediction_ids channel_id predictions =
    map (λ e. e.0) (retain (λ e. text_eq e.1.streamer.channel_id channel_id) predictions)

-- The removal of the channel at an index, its predictions released first.
unfoldable pub drop_channel : ℕ → Text → RuntimeState → RuntimeState
unfolding release_all prediction_ids retire_streamer
drop_channel index channel_id state =
    let released = release_all (prediction_ids channel_id state.predictions) state in
    elim (get_elem? released.streamers index) [
      | none ↦ released
      | some retired ↦ retire_streamer retired (record released {
        streamers = remove_at index released.streamers;
        retired_streamers =
            retain (λ existing. not (text_eq existing.channel_id retired.channel_id))
              released.retired_streamers;
      })
    ]

-- One round of the loop over the channels to remove.
unfoldable pub remove_channel :
    Text → RuntimeState × ConfigReloadOutcome → RuntimeState × ConfigReloadOutcome
unfolding has_unsettled drop_channel
remove_channel channel_id (state, outcome) =
    elim (position (λ s. text_eq s.channel_id channel_id) state.streamers) [
      | none ↦ (state, outcome)
      | some index ↦
          if has_unsettled channel_id state.predictions
          then (state, record outcome { deferred = outcome.deferred ++ channel_id ∷ [] })
          else (
            drop_channel index channel_id state,
            record outcome { removed = outcome.removed ++ channel_id ∷ [] },
          )
    ]

unfoldable pub add_channels :
    List Streamer → RuntimeState × ConfigReloadOutcome → RuntimeState × ConfigReloadOutcome
unfolding add_channel
add_channels [] r = r
add_channels (s ∷ ss) r = add_channels ss (add_channel s r)

unfoldable pub remove_channels :
    List Text → RuntimeState × ConfigReloadOutcome → RuntimeState × ConfigReloadOutcome
unfolding remove_channel
remove_channels [] r = r
remove_channels (id ∷ ids) r = remove_channels ids (remove_channel id r)

-- `apply_config_reload`.
unfoldable pub apply_config_reload :
    ConfigReload → RuntimeState → RuntimeState × ConfigReloadOutcome
unfolding reload_settings add_channels remove_channels
apply_config_reload reload state =
    let configured = record state {
      watch_priorities = reload.watch_priorities;
      game_priority = reload.game_priority;
      game_exclusions = reload.game_exclusions;
      follower_mode = reload.follower_mode;
      streamers = map (reload_settings reload.settings) state.streamers;
    } in
    let outcome : ConfigReloadOutcome = record { added = []; removed = []; deferred = [] } in
    remove_channels reload.remove (add_channels reload.add (configured, outcome))
