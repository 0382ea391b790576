-- ===== src/Domain/Watch/Eligible.antt =====
-- What is true of every channel that `pick_streamers_to_watch` picks.
use twitch_miner_rust.Base.{
  ℕ, ◌≡◌, ◌≤◌, ◌<◌, ◌⊎◌, refl, arith, Bool, true, false, not, ◌&&◌, ◌||◌, Option, none, some, List,
  map, get_elem?, ltb, is_some_and, inl, inr,
}
use twitch_miner_rust.Base.Text.{Text, contains}
use twitch_miner_rust.Domain.Platform.{Platform}
use twitch_miner_rust.Domain.Priority.{WatchPriority}
use twitch_miner_rust.Domain.Stream.{Time}
use twitch_miner_rust.Domain.Streamer.{
  Streamer, can_earn_channel_points, points_limit_reached, can_watch_drop_campaign,
}
use twitch_miner_rust.Domain.Watch.{should_prioritize_streak}
use twitch_miner_rust.Domain.Watch.Admitted.{is_admitted}
use twitch_miner_rust.Domain.Watch.Candidates.{game_lists, game_of, earns_points, is_watchable}
use twitch_miner_rust.Domain.Watch.Count.{count}
use twitch_miner_rust.Domain.Watch.Pick.{pick_streamers_to_watch}
use twitch_miner_rust.Domain.Watch.Selection.{pick_streamers_to_watch-admitted}

-- A channel that may have a watch slot now.
pub record IsEligible (p : Platform) (game_exclusions : List Text) (now : Time) (s : Streamer)
    : Type 0 where
  pub on_air : s.is_online ≡ true
  pub worth :
      (can_earn_channel_points s ≡ true) × (points_limit_reached s ≡ false)
      ⊎ (can_watch_drop_campaign s ≡ true)
  pub configured_or_streak : (s.discovered ≡ false) ⊎ (should_prioritize_streak s now ≡ true)
  pub not_suspended :
      (s.watch_suspended_until ≡ none)
      ⊎ ((until : Time) × (s.watch_suspended_until ≡ some until) × (until ≤ now))
  pub game_allowed :
      is_some_and (game_of p s) (λ game. contains (map p.to_lowercase game_exclusions) game) ≡ false

module _ (p : Platform) (game_priority game_exclusions : List Text) (now : Time) where
  not_suspended_of :
      (o : Option Time)
      → is_some_and o (λ until. ltb now until) ≡ false
      → (o ≡ none) ⊎ ((until : Time) × (o ≡ some until) × (until ≤ now))
  not_suspended_of none h = inl refl
  not_suspended_of (some until) h = inr (until, refl, ground (arith, h))

  guards_of :
      (online earns drops found streak suspended excluded : Bool)
      → (online && (earns || drops) && not (found && not streak) && not suspended && not excluded)
        ≡ true
      → (online ≡ true)
        × ((earns ≡ true) ⊎ (drops ≡ true))
        × ((found ≡ false) ⊎ (streak ≡ true))
        × (suspended ≡ false)
        × (excluded ≡ false)
  guards_of online earns drops found streak suspended excluded h = ground (arith, h)

  earns_of :
      (s : Streamer)
      → earns_points s ≡ true
      → (can_earn_channel_points s ≡ true) × (points_limit_reached s ≡ false)
  unfolding earns_points
  earns_of s h = both (can_earn_channel_points s) (points_limit_reached s) h
    where
      both : (a b : Bool) → (a && not b) ≡ true → (a ≡ true) × (b ≡ false)
      both a b e = ground (arith, e)

  is_admitted-IsEligible :
      (s : Streamer)
      → is_admitted p (game_lists p game_priority game_exclusions) now s ≡ true
      → IsEligible p game_exclusions now s
  unfolding is_admitted is_watchable game_lists
  is_admitted-IsEligible s h =
      let (online, earning, listed, awake, allowed) =
        guards_of s.is_online (earns_points s) (can_watch_drop_campaign s) s.discovered
          (should_prioritize_streak s now)
          (is_some_and s.watch_suspended_until (λ until. ltb now until))
          (is_some_and (game_of p s) (λ game. contains (map p.to_lowercase game_exclusions) game))
          h in
      record {
        on_air = online;
        worth = elim earning [ inl e ↦ inl (earns_of s e) | inr d ↦ inr d ];
        configured_or_streak = listed;
        not_suspended = not_suspended_of s.watch_suspended_until awake;
        game_allowed = allowed;
      }

  -- Every picked index is that of a channel of the list which is online, can earn points below its
  -- limit or progress a Drop campaign, is configured or has a streak to collect, is not suspended
  -- beyond now, and is not in an excluded game.
  pub pick_streamers_to_watch-IsEligible :
      (streamers : List Streamer) (priorities : List WatchPriority) (i : ℕ)
      → 0
        < count i (pick_streamers_to_watch p streamers priorities game_priority game_exclusions now)
      → (s : Streamer) × (get_elem? streamers i ≡ some s) × IsEligible p game_exclusions now s
  pick_streamers_to_watch-IsEligible streamers priorities i h =
      let (s, found, admitted) =
        pick_streamers_to_watch-admitted p streamers priorities game_priority game_exclusions now i
          h in
      (s, found, is_admitted-IsEligible s admitted)
