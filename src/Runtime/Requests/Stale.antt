-- ===== src/Runtime/Requests/Stale.antt =====
-- A response to a request that was issued before the channel changed has no effect.
use twitch_miner_rust.Base.{
  ℕ, ◌+◌, ◌-◌, ◌^◌, ◌<◌, ◌≡◌, refl, sym, ◌∙◌, ap, Bool, true, false, none, some, [], arith, ◌==◌,
  some_eq, some_eq,
}
use twitch_miner_rust.Base.Int.{pos, saturating_suc_u64}
use twitch_miner_rust.Base.Text.{Text}
use twitch_miner_rust.Domain.Stream.{Time}
use twitch_miner_rust.Domain.Streamer.{Streamer}
use twitch_miner_rust.Runtime.State.{
  RuntimeState, StreamUpdate, ContextUpdate, ContextRequestToken, find_streamer,
  find_streamer-replace_streamer, find_streamer-channel_id,
}
use twitch_miner_rust.Runtime.Presence.{present, apply_presence}
use twitch_miner_rust.Runtime.Presence.Transitions.{
  IsTransition, find_streamer-apply_presence, apply_presence_found, present-IsTransition,
}
use twitch_miner_rust.Runtime.Requests.{
  begin_stream_update, begin_context_update, apply_stream_update, apply_context_update,
}

lt_ne : (a b : ℕ) → b < a → (a == b) ≡ false
lt_ne a b h = ground arith

-- A stream update with an older generation is refused.
apply_stream_update_stale :
    (u : StreamUpdate) (now : Time) (state : RuntimeState) (s : Streamer)
    → find_streamer u.channel_id state.streamers ≡ some s
    → u.expected_generation < s.stream_update_generation
    → apply_stream_update u now state ≡ (state, none)
unfolding apply_stream_update
apply_stream_update_stale u now state s h lt =
    rw (h, apply_stream_update, lt_ne s.stream_update_generation u.expected_generation lt) refl

-- A context update with an older generation is refused.
apply_context_update_stale :
    (u : ContextUpdate) (state : RuntimeState) (s : Streamer)
    → find_streamer u.channel_id state.streamers ≡ some s
    → u.expected_request_generation < s.context_request_generation
    → apply_context_update u state ≡ (state, [], pos 0)
unfolding apply_context_update
apply_context_update_stale u state s h lt =
    rw
      (h, apply_context_update, lt_ne s.context_request_generation u.expected_request_generation lt)
      refl

begin_stream_update_found :
    (channel_id : Text) (state : RuntimeState) (s : Streamer)
    → find_streamer channel_id state.streamers ≡ some s
    → let generation = saturating_suc_u64 s.stream_update_generation in
      ((begin_stream_update channel_id state).1 ≡ some generation)
      × (find_streamer channel_id (begin_stream_update channel_id state).0.streamers
          ≡ some (record s { stream_update_generation = generation }))
unfolding begin_stream_update
begin_stream_update_found channel_id state s h =
    rw (h, begin_stream_update)
      (
        refl,
        find_streamer-replace_streamer channel_id s _ state.streamers h
            (find_streamer-channel_id channel_id state.streamers s h),
      )

suc_u64_exact : (n : ℕ) → n < 2 ^ 64 - 1 → saturating_suc_u64 n ≡ n + 1
unfolding saturating_suc_u64
suc_u64_exact n h = ground arith

-- A stream update that was requested before the channel went online or offline changes nothing when
-- it arrives after. The 64-bit generation is assumed to be at least two below its greatest value.
pub stream_update_void_after_transition :
    (u : StreamUpdate) (online : Bool) (now later : Time) (state requested moved : RuntimeState)
    (s : Streamer)
    → find_streamer u.channel_id state.streamers ≡ some s
    → s.stream_update_generation < 2 ^ 64 - 2
    → begin_stream_update u.channel_id state ≡ (requested, some u.expected_generation)
    → apply_presence u.channel_id online now requested ≡ (moved, true)
    → apply_stream_update u later moved ≡ (moved, none)
stream_update_void_after_transition u online now later state requested moved s h room asked
      changed =
    apply_stream_update_stale u later moved (present online now begun).0 tracked_after newer
  where
    begun : Streamer
    begun = record s { stream_update_generation = saturating_suc_u64 s.stream_update_generation }

    found :
        ((begin_stream_update u.channel_id state).1 ≡ some begun.stream_update_generation)
        × (find_streamer u.channel_id (begin_stream_update u.channel_id state).0.streamers
            ≡ some begun)
    found = begin_stream_update_found u.channel_id state s h

    tracked : find_streamer u.channel_id requested.streamers ≡ some begun
    tracked = rw asked at found.1

    tracked_after : find_streamer u.channel_id moved.streamers ≡ some (present online now begun).0
    tracked_after =
        rw changed at (find_streamer-apply_presence u.channel_id online now requested begun tracked)

    transition : IsTransition online now begun (present online now begun).0
    transition = present-IsTransition online now begun (
        sym (ap (λ r. r.1) (apply_presence_found u.channel_id online now requested begun tracked))
        ∙ ap (λ r. r.1) changed)

    expected : u.expected_generation ≡ begun.stream_update_generation
    expected = some_eq _ _ (ap (λ r. r.1) (sym asked) ∙ found.0)

    newer : u.expected_generation < (present online now begun).0.stream_update_generation
    newer = omega (
      arith,
      expected,
      transition.void_responses,
      suc_u64_exact s.stream_update_generation,
      suc_u64_exact begun.stream_update_generation,
    )

begin_context_update_found :
    (channel_id : Text) (state : RuntimeState) (s : Streamer)
    → find_streamer channel_id state.streamers ≡ some s
    → let generation = saturating_suc_u64 s.context_request_generation in
      ((begin_context_update channel_id state).1
        ≡ some (record {
          request_generation = generation;
          balance_revision = s.context_balance_revision;
        }))
      × (find_streamer channel_id (begin_context_update channel_id state).0.streamers
          ≡ some (record s { context_request_generation = generation }))
unfolding begin_context_update
begin_context_update_found channel_id state s h =
    rw (h, begin_context_update)
      (
        refl,
        find_streamer-replace_streamer channel_id s _ state.streamers h
            (find_streamer-channel_id channel_id state.streamers s h),
      )

-- A context update that was requested before another request for the same channel changes nothing when
-- it arrives after it. The 64-bit generation is assumed to be at least two below its greatest value.
pub context_update_void_after_request :
    (u : ContextUpdate) (state first second : RuntimeState) (token later : ContextRequestToken)
    (s : Streamer)
    → find_streamer u.channel_id state.streamers ≡ some s
    → s.context_request_generation < 2 ^ 64 - 2
    → begin_context_update u.channel_id state ≡ (first, some token)
    → begin_context_update u.channel_id first ≡ (second, some later)
    → u.expected_request_generation ≡ token.request_generation
    → apply_context_update u second ≡ (second, [], pos 0)
context_update_void_after_request u state first second token later s h room asked again same =
    apply_context_update_stale u second
      (record begun {
        context_request_generation = saturating_suc_u64 begun.context_request_generation;
      })
      tracked_after
      (omega (
        arith,
        same,
        expected,
        suc_u64_exact s.context_request_generation,
        suc_u64_exact begun.context_request_generation,
      ))
  where
    begun : Streamer
    begun = record s {
      context_request_generation = saturating_suc_u64 s.context_request_generation;
    }

    found :
        ((begin_context_update u.channel_id state).1
          ≡ some (record {
            request_generation = begun.context_request_generation;
            balance_revision = s.context_balance_revision;
          }))
        × (find_streamer u.channel_id (begin_context_update u.channel_id state).0.streamers
            ≡ some begun)
    found = begin_context_update_found u.channel_id state s h

    tracked : find_streamer u.channel_id first.streamers ≡ some begun
    tracked = rw asked at found.1

    tracked_after :
        find_streamer u.channel_id second.streamers
        ≡ some (record begun {
          context_request_generation = saturating_suc_u64 begun.context_request_generation;
        })
    tracked_after = rw again at (begin_context_update_found u.channel_id first begun tracked).1

    expected : token.request_generation ≡ begun.context_request_generation
    expected = ap (λ t. t.request_generation) (some_eq _ _ (ap (λ r. r.1) (sym asked) ∙ found.0))
