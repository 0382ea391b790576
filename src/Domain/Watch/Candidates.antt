-- ===== src/Domain/Watch/Candidates.antt =====
-- crates/tm-domain/src/watch.rs: `pick_streamers_to_watch`, the channels that may have a slot.
use twitch_miner_rust.Base.{
  ℕ, ◌+◌, Bool, not, ◌&&◌, ◌||◌, Option, none, some, List, [], ◌∷◌, ◌++◌, map, length,
  if◌then◌else◌, is_some, is_some_and, is_empty, filter_option, map_option, unwrap_or, ltb,
}
use twitch_miner_rust.Base.Map.{Map}
use twitch_miner_rust.Base.Map
use twitch_miner_rust.Base.Text.{Text, contains}
use twitch_miner_rust.Domain.Platform.{Platform}
use twitch_miner_rust.Domain.Stream.{Time, game_name}
use twitch_miner_rust.Domain.Streamer.{
  Streamer, can_earn_channel_points, points_limit_reached, can_watch_drop_campaign,
}
use twitch_miner_rust.Domain.Watch.{should_prioritize_streak}

pub record Candidate : Type 0 where
  pub idx : ℕ
  pub rank : ℕ
  pub position : ℕ
  pub priority_game : Bool
  pub streak_ready : Bool
  pub campaign_only : Bool

-- A channel at its points limit is treated like one with points disabled.
unfoldable pub earns_points : Streamer → Bool
earns_points s = can_earn_channel_points s && not (points_limit_reached s)

-- The guards of the loop, but for the excluded games.
unfoldable pub is_watchable : Streamer → Time → Bool
unfolding earns_points
is_watchable s now =
    s.is_online
    && (earns_points s || can_watch_drop_campaign s)
    && not (s.discovered && not (should_prioritize_streak s now))
    && not (is_some_and s.watch_suspended_until (λ until. ltb now until))

-- The game of the stream, in lower case.
unfoldable pub game_of : Platform → Streamer → Option Text
game_of p s =
    filter_option (λ game. not (is_empty game))
      (map_option (λ stream. p.to_lowercase (game_name stream)) s.stream)

-- `game_priority_index`: of a game that stands twice the later place counts.
unfoldable pub game_index : Platform → ℕ → List Text → Map ℕ → Map ℕ
game_index p idx [] index = index
game_index p idx (item ∷ items) index =
    game_index p (idx + 1) items (Map.insert (p.to_lowercase item) idx index)

-- The lists of games that a selection goes by.
pub record GameLists : Type 0 where
  pub priority_index : Map ℕ
  pub priority_length : ℕ
  pub exclusions : List Text

unfoldable pub game_lists : Platform → List Text → List Text → GameLists
unfolding game_index
game_lists p game_priority game_exclusions = record {
  priority_index = game_index p 0 game_priority [];
  priority_length = length game_priority;
  exclusions = map p.to_lowercase game_exclusions;
}

-- The candidate that a channel makes.
unfoldable pub made_candidate : Platform → GameLists → Time → ℕ → ℕ → Streamer → Candidate
unfolding game_of
made_candidate p games now idx position s =
    let place = elim (game_of p s) as (λ _. Option ℕ) [
      | none ↦ none
      | some game ↦ Map.get game games.priority_index
    ] in
    record {
      idx = idx;
      rank = unwrap_or place (games.priority_length + 1);
      position = position;
      priority_game = is_some place;
      streak_ready = earns_points s && should_prioritize_streak s now;
      campaign_only = not (earns_points s);
    }

-- One round of the loop, for the channel at an index, after some candidates.
unfoldable pub candidate_of : Platform → GameLists → Time → ℕ → ℕ → Streamer → Option Candidate
unfolding is_watchable made_candidate
candidate_of p games now idx position s =
    if not (is_watchable s now)
    then none
    else if is_some_and (game_of p s) (λ game. contains games.exclusions game)
    then none
    else some (made_candidate p games now idx position s)

unfoldable pub add_some : List Candidate → Option Candidate → List Candidate
add_some candidates none = candidates
add_some candidates (some candidate) = candidates ++ candidate ∷ []

unfoldable pub collect_candidates :
    Platform → GameLists → Time → ℕ → List Streamer → List Candidate → List Candidate
unfolding candidate_of add_some
collect_candidates p games now idx [] candidates = candidates
collect_candidates p games now idx (s ∷ ss) candidates =
    collect_candidates p games now (idx + 1) ss
      (add_some candidates (candidate_of p games now idx (length candidates) s))
