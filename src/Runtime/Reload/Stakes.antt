-- ===== src/Runtime/Reload/Stakes.antt =====
-- crates/tm-runtime/src/state.rs: `apply_config_reload` keeps the stakes that are not settled.
use twitch_miner_rust.Base.{
  ℕ, ◌≡◌, refl, ◌∙◌, inl, inr, true, false, not, ◌&&◌, some, List, [], ◌∷◌, arith, Bool-cases,
  Option-cases, is_empty, position, remove_at, retain, get_elem?,
}
use twitch_miner_rust.Base.Map.{Map}
use twitch_miner_rust.Base.Map
use twitch_miner_rust.Base.Text.{Text, text_eq, text_eq_iff, contains}
use twitch_miner_rust.Domain.Settings.{StreamerSettings}
use twitch_miner_rust.Domain.Streamer.{Streamer}
use twitch_miner_rust.Domain.PredictionEvent.{PredictionEvent}
use twitch_miner_rust.Runtime.Dedupe.{prediction_deduction_marker}
use twitch_miner_rust.Runtime.State.{
  RuntimeState, ConfigReload, ConfigReloadOutcome, find_streamer, find_streamer-channel_id,
}
use twitch_miner_rust.Runtime.Completion.{
  forget_marker, forget_prediction_deduction_marker, release_prediction,
}
use twitch_miner_rust.Runtime.Reload.{
  evict_retired, retire_streamer, reload_settings, take_over, add_channel, has_unsettled,
  release_all, prediction_ids, drop_channel, remove_channel, add_channels, remove_channels,
  apply_config_reload,
}
use twitch_miner_rust.Runtime.Reload.Unsettled.{
  tracks, tracks-map, position-map, tracks-replace_streamer, tracks-append, tracks-remove_at,
  ids_of_other, has_unsettled_of_get,
}

-- A prediction is tracked, and its channel too.
pub record Holds (id : Text) (event : PredictionEvent) (state : RuntimeState) : Type 0 where
  pub keyed : Map.is_keyed state.predictions ≡ true
  pub active : Map.get id state.predictions ≡ some event
  pub channel : tracks event.streamer.channel_id state.streamers ≡ true

forget_marker-channel_id :
    (marker : Text) (s : Streamer) → (forget_marker marker s).channel_id ≡ s.channel_id
unfolding forget_marker
forget_marker-channel_id marker s = refl

module _ (id : Text) (event : PredictionEvent) where
  release_prediction-Holds :
      (other : Text) (state : RuntimeState)
      → text_eq other id ≡ false
      → Holds id event state
      → Holds id event (release_prediction other state)
  unfolding release_prediction forget_prediction_deduction_marker
  release_prediction-Holds other state ne h = record {
    keyed = Map.is_keyed-remove other state.predictions h.keyed;
    active = rw (Map.get-remove other id state.predictions, ne) h.active;
    channel =
        tracks-map (forget_marker (prediction_deduction_marker other))
          (forget_marker-channel_id (prediction_deduction_marker other)) event.streamer.channel_id
          state.streamers
        ∙ h.channel;
  }

  release_all-Holds :
      (ids : List Text) (state : RuntimeState)
      → contains ids id ≡ false
      → Holds id event state
      → Holds id event (release_all ids state)
  unfolding release_all contains
  release_all-Holds [] state out h = h
  release_all-Holds (other ∷ ids) state out h =
      release_all-Holds ids (release_prediction other state) (ground arith)
        (release_prediction-Holds other state (ground arith) h)

-- The places of the channels outlast a release.
position-release_all :
    (j : Text) (ids : List Text) (state : RuntimeState)
    → position (λ s. text_eq s.channel_id j) (release_all ids state).streamers
      ≡ position (λ s. text_eq s.channel_id j) state.streamers
unfolding release_all release_prediction forget_prediction_deduction_marker
position-release_all j [] state = refl
position-release_all j (other ∷ ids) state =
    position-release_all j ids (release_prediction other state)
    ∙ position-map (forget_marker (prediction_deduction_marker other))
        (forget_marker-channel_id (prediction_deduction_marker other)) j state.streamers

retire_streamer_keeps :
    (retired : Streamer) (state : RuntimeState)
    → ((retire_streamer retired state).predictions ≡ state.predictions)
      × ((retire_streamer retired state).streamers ≡ state.streamers)
unfolding retire_streamer evict_retired
retire_streamer_keeps retired state = ground arith

drop_channel-Holds :
    (index : ℕ) (j id : Text) (event : PredictionEvent) (state : RuntimeState)
    → position (λ s. text_eq s.channel_id j) state.streamers ≡ some index
    → text_eq event.streamer.channel_id j ≡ false
    → Holds id event state
    → Holds id event (drop_channel index j state)
unfolding drop_channel
drop_channel-Holds index j id event state at other h =
    let ids = prediction_ids j state.predictions in
    let released = release_all ids state in
    let h' : Holds id event released =
      release_all-Holds id event ids state
        (ids_of_other j id state.predictions event h.keyed h.active other) h in
    elim (Option-cases (get_elem? released.streamers index)) [
      | inl e ↦ rw (e, drop_channel) h'
      | inr (retired, e) ↦
          let removed = record released {
            streamers = remove_at index released.streamers;
            retired_streamers =
                retain (λ existing. not (text_eq existing.channel_id retired.channel_id))
                  released.retired_streamers;
          } in
          let (same, tracked) = retire_streamer_keeps retired removed in
          let left =
            tracks-remove_at event.streamer.channel_id j released.streamers index
              (position-release_all j ids state ∙ at) other in
          rw (e, drop_channel)
            (record {
              keyed = rw same h'.keyed;
              active = rw same h'.active;
              channel = rw tracked (left ∙ h'.channel);
            })
    ]

module _ (id : Text) (event : PredictionEvent) where
  remove_channel-Holds :
      (j : Text) (state : RuntimeState) (outcome : ConfigReloadOutcome)
      → (event.bet_placed && is_empty event.result_type) ≡ true
      → Holds id event state
      → Holds id event (remove_channel j (state, outcome)).0
  unfolding remove_channel
  remove_channel-Holds j state outcome unsettled h =
      elim (Option-cases (position (λ s. text_eq s.channel_id j) state.streamers)) [
        | inl e ↦ rw (e, remove_channel) h
        | inr (index, e) ↦ elim (Bool-cases (has_unsettled j state.predictions)) [
          | inl f ↦ rw (e, remove_channel, f) h
          | inr f ↦
              rw (e, remove_channel, f)
                (drop_channel-Holds index j id event state e
                  (ground (
                    arith,
                    f,
                    text_eq_iff event.streamer.channel_id j,
                    has_unsettled_of_get id state.predictions event h.active unsettled,
                  ))
                  h)
        ]
      ]

  remove_channels-Holds :
      (ids : List Text) (r : RuntimeState × ConfigReloadOutcome)
      → (event.bet_placed && is_empty event.result_type) ≡ true
      → Holds id event r.0
      → Holds id event (remove_channels ids r).0
  unfolding remove_channels
  remove_channels-Holds [] r unsettled h = h
  remove_channels-Holds (j ∷ ids) r unsettled h =
      remove_channels-Holds ids (remove_channel j r) unsettled
        (remove_channel-Holds j r.0 r.1 unsettled h)

  add_channel-Holds :
      (s : Streamer) (state : RuntimeState) (outcome : ConfigReloadOutcome)
      → Holds id event state
      → Holds id event (add_channel s (state, outcome)).0
  unfolding add_channel take_over
  add_channel-Holds s state outcome h = elim (Bool-cases (is_empty s.channel_id)) [
    | inl e ↦ rw (e, add_channel) h
    | inr e ↦ elim (Option-cases (find_streamer s.channel_id state.streamers)) [
      | inl f ↦
          rw (e, add_channel, f)
            (record {
              keyed = h.keyed;
              active = h.active;
              channel = tracks-append event.streamer.channel_id state.streamers (s ∷ []) h.channel;
            })
      | inr (tracked, f) ↦
          rw (e, add_channel, f)
            (record {
              keyed = h.keyed;
              active = h.active;
              channel =
                  tracks-replace_streamer event.streamer.channel_id s.channel_id
                    (take_over s tracked) state.streamers
                    (ground
                      (arith, find_streamer-channel_id s.channel_id state.streamers tracked f))
                  ∙ h.channel;
            })
    ]
  ]

  add_channels-Holds :
      (ss : List Streamer) (r : RuntimeState × ConfigReloadOutcome)
      → Holds id event r.0
      → Holds id event (add_channels ss r).0
  unfolding add_channels
  add_channels-Holds [] r h = h
  add_channels-Holds (s ∷ ss) r h =
      add_channels-Holds ss (add_channel s r) (add_channel-Holds s r.0 r.1 h)

reload_settings-channel_id :
    (settings : Map StreamerSettings) (s : Streamer)
    → (reload_settings settings s).channel_id ≡ s.channel_id
unfolding reload_settings
reload_settings-channel_id settings s = ground arith

-- A reload of the configuration, whatever channels it adds and asks to remove, keeps every placed
-- prediction with no result as it is, and its channel tracked, where no id stands twice among the
-- predictions and the channel was tracked before.
pub apply_config_reload-Holds :
    (reload : ConfigReload) (id : Text) (event : PredictionEvent) (state : RuntimeState)
    → event.bet_placed ≡ true
    → is_empty event.result_type ≡ true
    → Holds id event state
    → Holds id event (apply_config_reload reload state).0
unfolding apply_config_reload
apply_config_reload-Holds reload id event state placed waiting h =
    remove_channels-Holds id event reload.remove _ (ground (arith, placed, waiting)) (
      add_channels-Holds id event reload.add _ (record {
        keyed = h.keyed;
        active = h.active;
        channel =
            tracks-map (reload_settings reload.settings)
              (reload_settings-channel_id reload.settings) event.streamer.channel_id state.streamers
            ∙ h.channel;
      }))
