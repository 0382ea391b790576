-- ===== src/Runtime/Events/Repeats.antt =====
-- crates/tm-runtime/src/state.rs: an event that is delivered again changes nothing.
use twitch_miner_rust.Base.{
  ◌≡◌, refl, sym, ◌∙◌, ap, inl, inr, Bool, true, false, not, Option, none, some, List, [], ◌∷◌,
  arith, Option-cases, some_eq, if◌then◌else◌, filter_option,
}
use twitch_miner_rust.Base.Int.{ℤ}
use twitch_miner_rust.Base.Text.{Text, is_blank, is_blank-cons, contains, is_whitespace}
use twitch_miner_rust.Domain.Stream.{Time}
use twitch_miner_rust.Domain.Streamer.{Streamer, can_earn_channel_points}
use twitch_miner_rust.Runtime.Dedupe.{remember_mutation_id, remember_prediction_deduction}
use twitch_miner_rust.Runtime.Dedupe.Repeats.{
  contains-remember_mutation_id, remember_mutation_id_known, remember_mutation_id_fresh,
}
use twitch_miner_rust.Runtime.Points.{gained, apply_pubsub_gain, update_history}
use twitch_miner_rust.Runtime.State.{
  RuntimeState, claim_bonus, unchanged, changed, changed_if, find_streamer, replace_streamer,
  find_streamer-replace_streamer, find_streamer-channel_id,
}
use twitch_miner_rust.Runtime.Events.{
  store, points_counted, account_points, point_event_key, matched_prediction_id, on_points_earned,
  on_claim_available,
}

-- Writing a channel as it is.
replace_streamer_same :
    (id : Text) (s : Streamer) (ss : List Streamer)
    → find_streamer id ss ≡ some s
    → replace_streamer id s ss ≡ ss
unfolding find_streamer replace_streamer
replace_streamer_same id s [] h = refl
replace_streamer_same id s (t ∷ ss) h = ground (arith, replace_streamer_same id s ss)

abbrev with_claims : List Text → Streamer → Streamer
with_claims ids s = record s { processed_claim_ids = ids }

on_claim_available_found :
    (channel_id claim_id : Text) (state : RuntimeState) (s : Streamer)
    → find_streamer channel_id state.streamers ≡ some s
    → can_earn_channel_points s ≡ true
    → on_claim_available channel_id claim_id state ≡ (
      store channel_id
          (with_claims (remember_mutation_id s.processed_claim_ids claim_id).0 s)
          state,
      if (remember_mutation_id s.processed_claim_ids claim_id).1
          then changed (claim_bonus channel_id claim_id ∷ [])
          else unchanged,
    )
unfolding on_claim_available
on_claim_available_found channel_id claim_id state s h earns =
    rw (h, on_claim_available, earns) refl

-- On a tracked channel that earns points, the bonus of a claim, whose id is not blank, is asked
-- for exactly when the id is new to the channel, and the event delivered again leaves the state as
-- it is and asks for nothing.
pub on_claim_available_once :
    (channel_id claim_id : Text) (state : RuntimeState) (s : Streamer)
    → find_streamer channel_id state.streamers ≡ some s
    → can_earn_channel_points s ≡ true
    → is_blank claim_id ≡ false
    → let (after, outcome) = on_claim_available channel_id claim_id state in
      (outcome ≡ (
        if contains s.processed_claim_ids claim_id
        then unchanged
        else changed (claim_bonus channel_id claim_id ∷ [])))
      × (on_claim_available channel_id claim_id after ≡ (after, unchanged))
unfolding can_earn_channel_points
on_claim_available_once channel_id claim_id state s h earns named =
    let ids = (remember_mutation_id s.processed_claim_ids claim_id).0 in
    let s' = with_claims ids s in
    let after = store channel_id s' state in
    let tracked =
      find_streamer-replace_streamer channel_id s s' state.streamers h
        (find_streamer-channel_id channel_id state.streamers s h) in
    let known =
      remember_mutation_id_known ids claim_id
        (contains-remember_mutation_id s.processed_claim_ids claim_id named) in
    rw (on_claim_available_found channel_id claim_id state s h earns) (
      rw (remember_mutation_id_fresh s.processed_claim_ids claim_id named) (ground arith),
      on_claim_available_found channel_id claim_id after s' tracked earns
          ∙ rw known (
              ap (λ ss. (record after { streamers = ss }, unchanged))
                (replace_streamer_same channel_id s' after.streamers tracked)),
    )

contains-points_counted :
    (earned : ℤ) (reason : Text) (balance : ℤ) (now : Time) (key : Text) (s : Streamer)
    → is_blank key ≡ false
    → contains (points_counted earned reason balance now key s).processed_point_event_keys key
      ≡ true
unfolding points_counted apply_pubsub_gain
contains-points_counted earned reason balance now key s named =
    let kept =
      contains-remember_mutation_id (gained earned reason balance s).processed_point_event_keys key
        named in
    ground (arith, kept)

-- A point event that counts leaves its key.
contains-account_points :
    (matched : Option Text) (earned : ℤ) (reason : Text) (balance : ℤ) (now : Time) (key : Text)
    (s : Streamer)
    → is_blank key ≡ false
    → (account_points matched earned reason balance now key s).1 ≡ true
    → contains
        (account_points matched earned reason balance now key s).0.processed_point_event_keys
        key
      ≡ true
unfolding account_points
contains-account_points none earned reason balance now key s named counted =
    ground (arith, contains-points_counted earned reason balance now key s named)
contains-account_points (some id) earned reason balance now key s named counted =
    let keys = (remember_prediction_deduction s.processed_point_event_keys id).0 in
    ground (
      arith,
      contains-points_counted earned reason balance now key
          (record s { processed_point_event_keys = keys }) named,
    )

point_event_key-is_blank :
    (earned : ℤ) (reason : Text) (balance : ℤ) (source_id : Option Text)
    → is_blank (point_event_key earned reason balance source_id) ≡ false
unfolding point_event_key is_whitespace
point_event_key-is_blank earned reason balance source_id =
    elim (Option-cases (filter_option (λ source. not (is_blank source)) source_id)) [
      | inl e ↦ rw (e, point_event_key) (is_blank-cons 102 _ refl)
      | inr (source, e) ↦ rw (e, point_event_key) (is_blank-cons 115 _ refl)
    ]

account_points_known :
    (matched : Option Text) (earned : ℤ) (reason : Text) (balance : ℤ) (now : Time) (key : Text)
    (s : Streamer)
    → contains s.processed_point_event_keys key ≡ true
    → account_points matched earned reason balance now key s ≡ (s, false)
unfolding account_points
account_points_known matched earned reason balance now key s h = rw (h, account_points) refl

-- The channel of a point event, where it is tracked and earns points.
module _ (channel_id : Text) (earned : ℤ) (reason : Text) (balance : ℤ)
    (source_id : Option Text) where
  abbrev accounted : Time → RuntimeState → Streamer → Streamer × Bool
  accounted now state s =
      account_points (matched_prediction_id channel_id earned reason state) earned reason balance
        now (point_event_key earned reason balance source_id) s

  on_points_earned_found :
      (now : Time) (state : RuntimeState) (s : Streamer)
      → find_streamer channel_id state.streamers ≡ some s
      → can_earn_channel_points s ≡ true
      → on_points_earned channel_id earned reason balance source_id now state
        ≡ (store channel_id (accounted now state s).0 state, changed_if (accounted now state s).1)
  unfolding on_points_earned
  on_points_earned_found now state s h earns = rw (h, on_points_earned, earns) refl

  accounted_keeps :
      (now : Time) (state : RuntimeState) (s : Streamer)
      → ((accounted now state s).0.channel_id ≡ s.channel_id)
        × (can_earn_channel_points (accounted now state s).0 ≡ can_earn_channel_points s)
  unfolding account_points points_counted apply_pubsub_gain gained update_history
      can_earn_channel_points
  accounted_keeps now state s = ground arith

  -- A point event that counts stands under its key in the channel that it leaves.
  counted-contains :
      (now : Time) (state : RuntimeState) (s s' : Streamer)
      → find_streamer channel_id state.streamers ≡ some s
      → can_earn_channel_points s ≡ true
      → (on_points_earned channel_id earned reason balance source_id now state).1.changed ≡ true
      → find_streamer channel_id
          (on_points_earned channel_id earned reason balance source_id now state).0.streamers
        ≡ some s'
      → contains s'.processed_point_event_keys (point_event_key earned reason balance source_id)
        ≡ true
  counted-contains now state s s' h earns counted left =
      let (t, fresh) = accounted now state s in
      let first = on_points_earned_found now state s h earns in
      let tracked = find_streamer-replace_streamer channel_id s t state.streamers h (
        (accounted_keeps now state s).0
        ∙ find_streamer-channel_id channel_id state.streamers s h) in
      let same = some_eq t s' (sym tracked ∙ (rw first at left)) in
      rw (← same) (
        contains-account_points (matched_prediction_id channel_id earned reason state) earned reason
          balance now (point_event_key earned reason balance source_id) s
          (point_event_key-is_blank earned reason balance source_id)
          (ap (λ r. r.1.changed) (sym first) ∙ counted))

  -- A point event that counts on a tracked channel that earns points changes nothing when it is
  -- delivered again, at any time and in any state in which the channel is tracked, earns points and
  -- has forgotten none of the keys that it had after the event.
  pub on_points_earned_once :
      (now later : Time) (state later_state : RuntimeState) (s s' t : Streamer)
      → find_streamer channel_id state.streamers ≡ some s
      → can_earn_channel_points s ≡ true
      → (on_points_earned channel_id earned reason balance source_id now state).1.changed ≡ true
      → find_streamer channel_id
          (on_points_earned channel_id earned reason balance source_id now state).0.streamers
        ≡ some s'
      → find_streamer channel_id later_state.streamers ≡ some t
      → can_earn_channel_points t ≡ true
      → ((key : Text)
          → contains s'.processed_point_event_keys key ≡ true
          → contains t.processed_point_event_keys key ≡ true)
      → on_points_earned channel_id earned reason balance source_id later later_state
        ≡ (later_state, unchanged)
  on_points_earned_once now later state later_state s s' t h earns counted left tracked still
        keeps =
      let key = point_event_key earned reason balance source_id in
      let known = keeps key (counted-contains now state s s' h earns counted left) in
      on_points_earned_found later later_state t tracked still
      ∙ rw
          (account_points_known (matched_prediction_id channel_id earned reason later_state) earned
            reason balance later key t known)
          (ap (λ ss. (record later_state { streamers = ss }, unchanged))
            (replace_streamer_same channel_id t later_state.streamers tracked))
