-- ===== src/Domain/Watch/Ranking.antt =====
-- crates/tm-domain/src/watch.rs: `pick_streamers_to_watch`, the order of the candidates under a priority.
use Prim.Native.Nat.{Ordering, compare}
use twitch_miner_rust.Base.{
  ℕ, Bool, true, false, not, ◌&&◌, Option, none, some, List, [], if◌then◌else◌, is_none,
  filter_option, get_elem?, retain, unwrap_or,
}
use twitch_miner_rust.Base.Int.{compare_ℤ}
use twitch_miner_rust.Base.Sort.{then_with, sort_by}
use twitch_miner_rust.Domain.Float.{f64_partial_cmp}
use twitch_miner_rust.Domain.Platform.{Platform}
use twitch_miner_rust.Domain.Priority.{
  WatchPriority, order, streak, drops, subscribed, points_ascending, points_descending,
  longest_streak, expiring_streak,
}
use twitch_miner_rust.Domain.Stream.{Time, Stream, DropWatchTarget, feasible_at}
use twitch_miner_rust.Domain.Streamer.{
  Streamer, default_streamer, can_watch_drop_campaign, has_active_multipliers,
}
use twitch_miner_rust.Domain.Watch.{
  total_multiplier, compare_optional_deadlines, active_streak_deadline, active_streak_count,
}
use twitch_miner_rust.Domain.Watch.Candidates.{Candidate}

-- `streamers[candidate.idx]`; a candidate's index is in range.
unfoldable pub streamer_at : List Streamer → ℕ → Streamer
streamer_at streamers idx = unwrap_or (get_elem? streamers idx) default_streamer

-- The order of `Option`, of `bool`.
unfoldable pub compare_option : Option ℕ → Option ℕ → Ordering
compare_option none none = Ordering.eq
compare_option none (some b) = Ordering.lt
compare_option (some a) none = Ordering.gt
compare_option (some a) (some b) = compare a b

unfoldable pub compare_bool : Bool → Bool → Ordering
compare_bool false true = Ordering.lt
compare_bool true false = Ordering.gt
compare_bool _ _ = Ordering.eq

bind_stream {ℓ} : {A : Type ℓ} → Option Stream → (Stream → Option A) → Option A
bind_stream none f = none
bind_stream (some stream) f = f stream

-- The target of a Drop that can still be earned.
unfoldable pub feasible_target : List Streamer → Time → Candidate → Option DropWatchTarget
unfolding bind_stream
feasible_target streamers now c =
    filter_option (λ target. feasible_at target now)
      (bind_stream (streamer_at streamers c.idx).stream (λ stream. stream.drop_watch_target))

ends_of : Option DropWatchTarget → Option Time
ends_of none = none
ends_of (some target) = some target.ends_at

-- The key of the Drop candidates: rank, whether there is no target, its deadline, position.
unfoldable pub compare_drops : List Streamer → Time → Candidate → Candidate → Ordering
unfolding feasible_target ends_of
compare_drops streamers now left right =
    let l = feasible_target streamers now left in
    let r = feasible_target streamers now right in
    then_with (compare left.rank right.rank) (
      then_with (compare_bool (is_none l) (is_none r))
        (then_with (compare_option (ends_of l) (ends_of r)) (compare left.position right.position)))

unfoldable pub drop_candidates : List Streamer → Time → List Candidate → List Candidate
unfolding compare_drops
drop_candidates streamers now candidates =
    sort_by (compare_drops streamers now)
      (retain (λ c. can_watch_drop_campaign (streamer_at streamers c.idx)) candidates)

unfoldable pub by_rank : Candidate → Candidate → Ordering
by_rank left right = then_with (compare left.rank right.rank) (compare left.position right.position)

partial_or_eq : Option Ordering → Ordering
partial_or_eq none = Ordering.eq
partial_or_eq (some o) = o

unfoldable pub streak_candidates : List Candidate → List Candidate
streak_candidates candidates = retain (λ c. c.streak_ready) candidates

-- The candidates under a priority, before they are sorted.
unfoldable pub considered :
    List Streamer → Time → Bool → List Candidate → WatchPriority → List Candidate
unfolding streak_candidates
considered streamers now skip_early_streak candidates streak =
    if skip_early_streak then [] else streak_candidates candidates
considered streamers now skip_early_streak candidates drops =
    drop_candidates streamers now candidates
considered streamers now skip_early_streak candidates subscribed =
    retain (λ c. not c.campaign_only && has_active_multipliers (streamer_at streamers c.idx))
      candidates
considered streamers now skip_early_streak candidates longest_streak = streak_candidates candidates
considered streamers now skip_early_streak candidates expiring_streak = streak_candidates candidates
considered streamers now skip_early_streak candidates order =
    retain (λ c. not c.campaign_only) candidates
considered streamers now skip_early_streak candidates points_ascending =
    retain (λ c. not c.campaign_only) candidates
considered streamers now skip_early_streak candidates points_descending =
    retain (λ c. not c.campaign_only) candidates

unfoldable pub compare_under :
    Platform → List Streamer → Time → WatchPriority → Candidate → Candidate → Ordering
unfolding by_rank partial_or_eq bind_stream
compare_under p streamers now drops left right = Ordering.eq
compare_under p streamers now order left right = compare left.position right.position
compare_under p streamers now subscribed left right =
    then_with
      (partial_or_eq (
        f64_partial_cmp (total_multiplier p (streamer_at streamers right.idx))
          (total_multiplier p (streamer_at streamers left.idx))))
      (by_rank left right)
compare_under p streamers now points_ascending left right =
    then_with
      (compare_ℤ (streamer_at streamers left.idx).channel_points
        (streamer_at streamers right.idx).channel_points)
      (by_rank left right)
compare_under p streamers now points_descending left right =
    then_with
      (compare_ℤ (streamer_at streamers right.idx).channel_points
        (streamer_at streamers left.idx).channel_points)
      (by_rank left right)
compare_under p streamers now longest_streak left right =
    let count = λ (c : Candidate).
      bind_stream (streamer_at streamers c.idx).stream (λ stream. active_streak_count stream now) in
    then_with (compare_option (count right) (count left)) (by_rank left right)
compare_under p streamers now expiring_streak left right =
    let deadline = λ (c : Candidate).
      bind_stream (streamer_at streamers c.idx).stream
        (λ stream. active_streak_deadline stream now) in
    then_with (compare_optional_deadlines (deadline left) (deadline right)) (by_rank left right)
compare_under p streamers now streak left right = by_rank left right

-- The candidates under a priority, in its order.
unfoldable pub ordered :
    Platform → List Streamer → Time → Bool → List Candidate → WatchPriority → List Candidate
unfolding considered compare_under
ordered p streamers now skip_early_streak candidates priority =
    sort_by (compare_under p streamers now priority)
      (considered streamers now skip_early_streak candidates priority)
