-- ===== src/Runtime/Requests/Balance.antt =====
-- A context response does not overwrite a balance that moved after its request.
use twitch_miner_rust.Base.{
  ◌-◌, ◌^◌, ◌<◌, ◌≡◌, refl, ◌∙◌, inl, inr, false, not, some, arith, ◌==◌, Bool-cases,
}
use twitch_miner_rust.Base.Int.{ℤ, pos, saturating_suc_u64, saturating_suc_u64_lt}
use twitch_miner_rust.Base.Text.{Text}
use twitch_miner_rust.Domain.Streamer.{Streamer, apply_context_if_allowed}
use twitch_miner_rust.Runtime.Points.{apply_pubsub_gain, gained, update_history}
use twitch_miner_rust.Runtime.State.{
  RuntimeState, ContextUpdate, find_streamer, replace_streamer, find_streamer-replace_streamer,
  find_streamer-channel_id,
}
use twitch_miner_rust.Runtime.Requests.{context_applied, apply_context_update}

gained_facts :
    (earned balance : ℤ) (reason : Text) (s : Streamer)
    → ((gained earned reason balance s).channel_id ≡ s.channel_id)
      × ((gained earned reason balance s).context_balance_revision
          ≡ saturating_suc_u64 s.context_balance_revision)
unfolding gained update_history
gained_facts earned balance reason s = ground arith

-- An update of an older revision leaves the balance.
context_applied_stale :
    (u : ContextUpdate) (s : Streamer)
    → (s.context_balance_revision == u.expected_balance_revision) ≡ false
    → let (s', applied) = context_applied u s in
      (applied ≡ false) × (s'.channel_points ≡ s.channel_points) × (s'.channel_id ≡ s.channel_id)
unfolding context_applied apply_context_if_allowed
context_applied_stale u s h = ground (arith, h)

apply_context_update_stale_balance :
    (u : ContextUpdate) (state : RuntimeState) (s : Streamer)
    → find_streamer u.channel_id state.streamers ≡ some s
    → (s.context_balance_revision == u.expected_balance_revision) ≡ false
    → let (after, effects, delta) = apply_context_update u state in
      (s' : Streamer) × (find_streamer u.channel_id after.streamers ≡ some s')
      × (s'.channel_points ≡ s.channel_points)
      × (delta ≡ pos 0)
unfolding apply_context_update
apply_context_update_stale_balance u state s h stale =
    let (refused, points, same) = context_applied_stale u s stale in
    elim (Bool-cases (not (s.context_request_generation == u.expected_request_generation))) [
      | inl e ↦ rw (h, apply_context_update, e) (s, h, refl, refl)
      | inr e ↦
          rw (h, apply_context_update, e)
            (
              (context_applied u s).0,
              find_streamer-replace_streamer u.channel_id s (context_applied u s).0 state.streamers
                  h (same ∙ find_streamer-channel_id u.channel_id state.streamers s h),
              points,
              ground (arith, refused),
            )
    ]

-- A context that was requested before points moved never overwrites the balance: after any gain or
-- spend of the channel, an update that expects the revision of before leaves the balance as the gain
-- left it and reports no change of it. The 64-bit revision is assumed to be below its greatest value.
pub context_update_keeps_gain :
    (u : ContextUpdate) (earned balance : ℤ) (reason : Text) (state : RuntimeState) (s : Streamer)
    → find_streamer u.channel_id state.streamers ≡ some s
    → s.context_balance_revision < 2 ^ 64 - 1
    → u.expected_balance_revision ≡ s.context_balance_revision
    → let moved = (apply_pubsub_gain earned reason balance s).0 in
      let (after, effects, delta) =
        apply_context_update u
          (record state { streamers = replace_streamer u.channel_id moved state.streamers }) in
      (s' : Streamer) × (find_streamer u.channel_id after.streamers ≡ some s')
      × (s'.channel_points ≡ moved.channel_points)
      × (delta ≡ pos 0)
unfolding apply_pubsub_gain
context_update_keeps_gain u earned balance reason state s h room same =
    let moved = gained earned reason balance s in
    let (channel, revision) = gained_facts earned balance reason s in
    apply_context_update_stale_balance u
      (record state { streamers = replace_streamer u.channel_id moved state.streamers }) moved
      (find_streamer-replace_streamer u.channel_id s moved state.streamers h
        (channel ∙ find_streamer-channel_id u.channel_id state.streamers s h))
      (ground (arith, same, revision, saturating_suc_u64_lt s.context_balance_revision room))
