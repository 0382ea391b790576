-- ===== src/Runtime/Presence/Transitions.antt =====
-- What a change of presence does to the streamer, and that nothing else is a change.
use twitch_miner_rust.Base.{
  ◌+◌, ◌≡◌, ◌≢◌, refl, ◌∙◌, ap, ◌⊎◌, inl, inr, Bool, true, false, Option, none, some, arith,
  is_some,
}
use twitch_miner_rust.Base.Int.{saturating_suc_u64}
use twitch_miner_rust.Base.Text.{Text}
use twitch_miner_rust.Domain.Float.{f64_zero}
use twitch_miner_rust.Domain.Stream.{Time, Stream, seconds}
use twitch_miner_rust.Domain.Streamer.{Streamer}
use twitch_miner_rust.Runtime.State.{
  RuntimeState, find_streamer, replace_streamer, find_streamer-replace_streamer,
  find_streamer-channel_id,
}
use twitch_miner_rust.Runtime.Presence.{present, apply_presence, is_short_restart}

-- A second report of the same presence changes nothing.
present-present :
    (online : Bool) (now later : Time) (s : Streamer)
    → present online later (present online now s).0 ≡ ((present online now s).0, false)
unfolding present
present-present true now later s = ground arith
present-present false now later s = ground arith

-- The stream of a channel that came online: the streak is open again unless the restart was short.
abbrev pub IsReopened : Option Time → Time → Option Stream → Type 0
IsReopened offline_at now none = ⊥
IsReopened offline_at now (some stream) =
    ((is_short_restart offline_at now ≡ true) ⊎ (stream.watch_streak_missing ≡ true))
    × (is_some stream.stream_up_at ≡ true)

-- The stream of a channel that went offline: its watch time is gone, and its streak is carried over
-- for half an hour.
abbrev pub IsClosed : Time → Option Stream → Type 0
IsClosed now none = Unit {0}
IsClosed now (some stream) =
    (stream.minute_watched ≡ f64_zero)
    × (stream.last_minute_update ≡ none)
    × (stream.stream_up_at ≡ none)
    × (stream.streak_carryover_until ≡ some (now + seconds 1800))

-- What a transition leaves, by its direction.
abbrev pub AfterTransition : Bool → Time → Streamer → Streamer → Type 0
AfterTransition true now s s' =
    (s'.online_at ≡ some now)
    × (s'.offline_at ≡ none)
    × (s'.last_stream_ended_at ≡ s.offline_at)
    × IsReopened s.offline_at now s'.stream
AfterTransition false now s s' =
    (s'.online_at ≡ s.online_at)
    × (s'.offline_at ≡ some now)
    × (s'.last_stream_ended_at ≡ some now)
    × IsClosed now s'.stream

-- A transition of one streamer.
pub record IsTransition (online : Bool) (now : Time) (s s' : Streamer) : Type 0 where
  pub same_channel : s'.channel_id ≡ s.channel_id
  pub known : s'.presence_known ≡ true
  pub online_now : s'.is_online ≡ online
  pub void_responses : s'.stream_update_generation ≡ saturating_suc_u64 s.stream_update_generation
  pub kept_points : s'.channel_points ≡ s.channel_points
  pub after : AfterTransition online now s s'

pub present-IsTransition :
    (online : Bool) (now : Time) (s : Streamer)
    → (present online now s).1 ≡ true
    → IsTransition online now s (present online now s).0
unfolding present
present-IsTransition true now s h = ground arith
present-IsTransition false now s h = ground arith

pub present-channel_id :
    (online : Bool) (now : Time) (s : Streamer) → (present online now s).0.channel_id ≡ s.channel_id
unfolding present
present-channel_id true now s = ground arith
present-channel_id false now s = ground arith

-- A report that tells something: the presence was not known, or was the other one.
abbrev pub IsNews : Bool → Streamer → Type 0
IsNews online s = (s.presence_known ≡ false) ⊎ (s.is_online ≢ online)

present_changed :
    (online : Bool) (now : Time) (s : Streamer)
    → ((present online now s).1 ≡ true) × IsNews online s
      ⊎ ((present online now s).1 ≡ false)
        × ((present online now s).0 ≡ s)
        × (s.presence_known ≡ true)
        × (s.is_online ≡ online)
unfolding present
present_changed true now s = ground arith
present_changed false now s = ground arith

-- The state with one streamer written.
abbrev pub with_streamer : Text → Streamer → RuntimeState → RuntimeState
with_streamer channel_id s' state = record state {
  streamers = replace_streamer channel_id s' state.streamers;
}

pub apply_presence_found :
    (channel_id : Text) (online : Bool) (now : Time) (state : RuntimeState) (s : Streamer)
    → find_streamer channel_id state.streamers ≡ some s
    → apply_presence channel_id online now state
      ≡ (with_streamer channel_id (present online now s).0 state, (present online now s).1)
unfolding apply_presence
apply_presence_found channel_id online now state s h = rw (h, apply_presence) refl

pub find_streamer-apply_presence :
    (channel_id : Text) (online : Bool) (now : Time) (state : RuntimeState) (s : Streamer)
    → find_streamer channel_id state.streamers ≡ some s
    → find_streamer channel_id (apply_presence channel_id online now state).0.streamers
      ≡ some (present online now s).0
find_streamer-apply_presence channel_id online now state s h =
    rw (apply_presence_found channel_id online now state s h) (
      find_streamer-replace_streamer channel_id s _ state.streamers h
        (present-channel_id online now s ∙ find_streamer-channel_id channel_id state.streamers s h))

-- A report on a tracked channel whose presence was not known or was the other one stores a
-- transition of its streamer, which makes the presence known, voids the stream responses under way
-- and keeps the points. A report of the presence that is known changes nothing. Repeating the
-- report then reports no change.
pub apply_presence-IsTransition :
    (channel_id : Text) (online : Bool) (now later : Time) (state : RuntimeState) (s : Streamer)
    → find_streamer channel_id state.streamers ≡ some s
    → let reported = apply_presence channel_id online now state in
      (s' : Streamer) × (find_streamer channel_id reported.0.streamers ≡ some s')
      × ((reported.1 ≡ true) × IsNews online s × IsTransition online now s s'
          ⊎ (reported.1 ≡ false) × (s' ≡ s) × (s.presence_known ≡ true) × (s.is_online ≡ online))
      × ((apply_presence channel_id online later reported.0).1 ≡ false)
apply_presence-IsTransition channel_id online now later state s h =
    let s' = (present online now s).0 in
    let stored = find_streamer-apply_presence channel_id online now state s h in
    (
      s',
      stored,
      rw (apply_presence_found channel_id online now state s h)
          (elim (present_changed online now s) [
            | inl (e, news) ↦ inl (e, news, present-IsTransition online now s e)
            | inr e ↦ inr e
          ]),
      rw
          (apply_presence_found channel_id online later
            (apply_presence channel_id online now state).0 s' stored)
          (ap (λ r. r.1) (present-present online now later s)),
    )
