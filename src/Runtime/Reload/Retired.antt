-- ===== src/Runtime/Reload/Retired.antt =====
-- crates/tm-runtime/src/state.rs: `apply_config_reload` keeps a bounded number of removed channels.
use twitch_miner_rust.Base.{
  ℕ, suc, ◌≤◌, ◌≡◌, refl, inl, inr, Bool, true, false, not, some, List, [], ◌∷◌, ◌++◌, arith,
  Bool-cases, Option-cases, length, is_empty, is_some, unwrap_or, leb, leb→le, position, remove_at,
  retain, get_elem?, length-snoc, length-retain,
}
use twitch_miner_rust.Base.Text.{Text, text_eq}
use twitch_miner_rust.Domain.Streamer.{Streamer}
use twitch_miner_rust.Runtime.Dedupe.{max_retired_streamers}
use twitch_miner_rust.Runtime.State.{RuntimeState, ConfigReload, ConfigReloadOutcome, find_streamer}
use twitch_miner_rust.Runtime.Completion.{release_prediction, forget_prediction_deduction_marker}
use twitch_miner_rust.Runtime.Reload.{
  earned_nothing, evict_retired, retire_streamer, add_channel, has_unsettled, release_all,
  prediction_ids, drop_channel, remove_channel, add_channels, remove_channels, apply_config_reload,
}

position_range {ℓ} :
    {A : Type ℓ} (p : A → Bool) (x : A) (xs : List A)
    → is_some (get_elem? (x ∷ xs) (unwrap_or (position p (x ∷ xs)) 0)) ≡ true
position_range p x [] = ground arith
position_range p x (y ∷ xs) = ground (arith, position_range p y xs)

length-remove_at {ℓ} :
    {A : Type ℓ} (xs : List A) (i : ℕ) (x : A)
    → get_elem? xs i ≡ some x
    → suc (length (remove_at i xs)) ≡ length xs
length-remove_at [] i x h = ground arith
length-remove_at (y ∷ xs) Prim.Native.Nat.zero x h = refl
length-remove_at (y ∷ xs) (suc i) x h = ground (arith, length-remove_at xs i x)

position_nonempty {ℓ} :
    {A : Type ℓ} (p : A → Bool) (xs : List A)
    → is_empty xs ≡ false
    → is_some (get_elem? xs (unwrap_or (position p xs) 0)) ≡ true
position_nonempty p [] h = ground arith
position_nonempty p (x ∷ xs) h = position_range p x xs

-- One channel leaves.
length-evict_retired :
    (state : RuntimeState)
    → is_empty state.retired_streamers ≡ false
    → suc (length (evict_retired state).retired_streamers) ≡ length state.retired_streamers
unfolding evict_retired
length-evict_retired state h =
    let index =
      unwrap_or (position (earned_nothing state.initial_points) state.retired_streamers) 0 in
    let found = position_nonempty (earned_nothing state.initial_points) state.retired_streamers h in
    elim (Option-cases (get_elem? state.retired_streamers index)) [
      | inl e ↦ ground (arith, found, e)
      | inr (evicted, e) ↦
          rw (e, evict_retired) (length-remove_at state.retired_streamers index evicted e)
    ]

is_empty-snoc {ℓ} : {A : Type ℓ} (xs : List A) (x : A) → is_empty (xs ++ x ∷ []) ≡ false
is_empty-snoc [] x = refl
is_empty-snoc (y ∷ xs) x = refl

length-retire_streamer :
    (retired : Streamer) (state : RuntimeState)
    → length state.retired_streamers ≤ max_retired_streamers
    → length (retire_streamer retired state).retired_streamers ≤ max_retired_streamers
unfolding retire_streamer
length-retire_streamer retired state bound =
    let kept = record state { retired_streamers = state.retired_streamers ++ retired ∷ [] } in
    elim (Bool-cases (leb (length kept.retired_streamers) max_retired_streamers)) [
      | inl e ↦ rw (e, retire_streamer) (leb→le _ _ e)
      | inr e ↦
          rw (e, retire_streamer)
            (omega (
              arith,
              bound,
              length-snoc state.retired_streamers retired,
              length-evict_retired kept (is_empty-snoc state.retired_streamers retired),
            ))
    ]

retired-release_all :
    (ids : List Text) (state : RuntimeState)
    → (release_all ids state).retired_streamers ≡ state.retired_streamers
unfolding release_all release_prediction forget_prediction_deduction_marker
retired-release_all [] state = refl
retired-release_all (id ∷ ids) state = retired-release_all ids (release_prediction id state)

length-drop_channel :
    (index : ℕ) (j : Text) (state : RuntimeState)
    → length state.retired_streamers ≤ max_retired_streamers
    → length (drop_channel index j state).retired_streamers ≤ max_retired_streamers
unfolding drop_channel
length-drop_channel index j state bound =
    let released = release_all (prediction_ids j state.predictions) state in
    let same = retired-release_all (prediction_ids j state.predictions) state in
    elim (Option-cases (get_elem? released.streamers index)) [
      | inl e ↦ rw (e, drop_channel, same) bound
      | inr (retired, e) ↦
          let others =
            λ (existing : Streamer). not (text_eq existing.channel_id retired.channel_id) in
          rw (e, drop_channel)
            (length-retire_streamer retired
              (record released {
                streamers = remove_at index released.streamers;
                retired_streamers = retain others released.retired_streamers;
              })
              (rw same (omega (arith, bound, length-retain others state.retired_streamers))))
    ]

length-remove_channel :
    (j : Text) (state : RuntimeState) (outcome : ConfigReloadOutcome)
    → length state.retired_streamers ≤ max_retired_streamers
    → length (remove_channel j (state, outcome)).0.retired_streamers ≤ max_retired_streamers
unfolding remove_channel
length-remove_channel j state outcome bound =
    elim (Option-cases (position (λ s. text_eq s.channel_id j) state.streamers)) [
      | inl e ↦ rw (e, remove_channel) bound
      | inr (index, e) ↦ elim (Bool-cases (has_unsettled j state.predictions)) [
        | inl f ↦ rw (e, remove_channel, f) bound
        | inr f ↦ rw (e, remove_channel, f) (length-drop_channel index j state bound)
      ]
    ]

length-remove_channels :
    (ids : List Text) (r : RuntimeState × ConfigReloadOutcome)
    → length r.0.retired_streamers ≤ max_retired_streamers
    → length (remove_channels ids r).0.retired_streamers ≤ max_retired_streamers
unfolding remove_channels
length-remove_channels [] r bound = bound
length-remove_channels (j ∷ ids) r bound =
    length-remove_channels ids (remove_channel j r) (length-remove_channel j r.0 r.1 bound)

length-add_channel :
    (s : Streamer) (state : RuntimeState) (outcome : ConfigReloadOutcome)
    → length state.retired_streamers ≤ max_retired_streamers
    → length (add_channel s (state, outcome)).0.retired_streamers ≤ max_retired_streamers
unfolding add_channel
length-add_channel s state outcome bound = elim (Bool-cases (is_empty s.channel_id)) [
  | inl e ↦ rw (e, add_channel) bound
  | inr e ↦ elim (Option-cases (find_streamer s.channel_id state.streamers)) [
    | inl f ↦
        rw (e, add_channel, f)
          (omega (
            arith,
            bound,
            length-retain (λ retired. not (text_eq retired.channel_id s.channel_id))
                state.retired_streamers,
          ))
    | inr (tracked, f) ↦ rw (e, add_channel, f) bound
  ]
]

length-add_channels :
    (ss : List Streamer) (r : RuntimeState × ConfigReloadOutcome)
    → length r.0.retired_streamers ≤ max_retired_streamers
    → length (add_channels ss r).0.retired_streamers ≤ max_retired_streamers
unfolding add_channels
length-add_channels [] r bound = bound
length-add_channels (s ∷ ss) r bound =
    length-add_channels ss (add_channel s r) (length-add_channel s r.0 r.1 bound)

-- A reload keeps at most 256 removed channels for the summary, from any state with at most that many,
-- however many channels it adds and removes.
pub apply_config_reload_retired :
    (reload : ConfigReload) (state : RuntimeState)
    → length state.retired_streamers ≤ max_retired_streamers
    → length (apply_config_reload reload state).0.retired_streamers ≤ max_retired_streamers
unfolding apply_config_reload
apply_config_reload_retired reload state bound =
    length-remove_channels reload.remove _ (length-add_channels reload.add _ bound)
