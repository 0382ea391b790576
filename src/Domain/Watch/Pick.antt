-- ===== src/Domain/Watch/Pick.antt =====
-- crates/tm-domain/src/watch.rs: `pick_streamers_to_watch`, the choice itself.
use twitch_miner_rust.Base.{
  ℕ, Bool, not, ◌&&◌, ◌||◌, Option, none, some, List, [], ◌∷◌, ◌++◌, if◌then◌else◌, is_some_and,
  is_empty, any, find, retain, ◌==◌,
}
use twitch_miner_rust.Base.Sort.{sort_by}
use twitch_miner_rust.Base.Text.{Text}
use twitch_miner_rust.Domain.Platform.{Platform}
use twitch_miner_rust.Domain.Priority.{WatchPriority, drops, priority_eq, default_watch_priorities}
use twitch_miner_rust.Domain.Stream.{Time}
use twitch_miner_rust.Domain.Streamer.{Streamer}
use twitch_miner_rust.Domain.Watch.Candidates.{Candidate, game_lists, collect_candidates}
use twitch_miner_rust.Domain.Watch.Ranking.{
  streamer_at, compare_bool, drop_candidates, by_rank, streak_candidates, ordered,
}

-- `seen` holds what `selected` holds.
unfoldable pub add_candidate : List ℕ → Candidate → List ℕ
add_candidate selected c =
    if any (λ idx. idx == c.idx) selected then selected else selected ++ c.idx ∷ []

unfoldable pub add_candidates : List ℕ → List Candidate → List ℕ
unfolding add_candidate
add_candidates selected [] = selected
add_candidates selected (c ∷ cs) = add_candidates (add_candidate selected c) cs

-- The loop over the priorities.
unfoldable pub select_by :
    Platform → List Streamer → Time → Bool → List Candidate → List ℕ → List WatchPriority → List ℕ
unfolding add_candidates ordered
select_by p streamers now skip_early_streak candidates selected [] = selected
select_by p streamers now skip_early_streak candidates selected (priority ∷ priorities) =
    select_by p streamers now skip_early_streak candidates
      (add_candidates selected (ordered p streamers now skip_early_streak candidates priority))
      priorities

-- `candidate_by_idx`.
unfoldable pub candidate_by_idx : List Candidate → ℕ → Option Candidate
candidate_by_idx candidates idx = find (λ c. c.idx == idx) candidates

unfoldable pub is_streak_ready : List Candidate → ℕ → Bool
unfolding candidate_by_idx
is_streak_ready candidates idx = is_some_and (candidate_by_idx candidates idx) (λ c. c.streak_ready)

unfoldable pub is_priority_game : List Candidate → ℕ → Bool
unfolding candidate_by_idx
is_priority_game candidates idx =
    is_some_and (candidate_by_idx candidates idx) (λ c. c.priority_game)

-- The pick of a streak when no selected channel has one.
unfoldable pub add_streak_pick : List Candidate → List ℕ → List ℕ
unfolding is_streak_ready add_candidate by_rank streak_candidates
add_streak_pick candidates selected =
    if not (any (is_streak_ready candidates) selected)
      && not (is_empty (streak_candidates candidates))
      && not (is_empty selected)
    then elim (find (λ c. not (any (λ idx. idx == c.idx) selected))
          (sort_by by_rank (streak_candidates candidates)))
        as (λ _. List ℕ) [ none ↦ selected | some streak_pick ↦ add_candidate selected streak_pick ]
    else selected

-- The swap of the first two: a streak outside the listed games does not come first.
unfoldable pub swap_early_streak : Bool → List Candidate → List ℕ → List ℕ
unfolding is_streak_ready is_priority_game
swap_early_streak skip_early_streak candidates [] = []
swap_early_streak skip_early_streak candidates (first ∷ []) = first ∷ []
swap_early_streak skip_early_streak candidates (first ∷ second ∷ rest) =
    if skip_early_streak
      && is_streak_ready candidates first
      && not (is_priority_game candidates first)
      && (not (is_streak_ready candidates second) || is_priority_game candidates second)
    then second ∷ first ∷ rest
    else first ∷ second ∷ rest

unfoldable pub skips_early_streak : List Text → List Candidate → Bool
unfolding streak_candidates
skips_early_streak game_priority candidates =
    not (is_empty game_priority) && not (any (λ c. c.priority_game) (streak_candidates candidates))

unfoldable pub chosen_priorities : List WatchPriority → List WatchPriority
chosen_priorities priorities = if is_empty priorities then default_watch_priorities else priorities

-- The one channel to watch when the first Drop candidate asks for it.
unfoldable pub single_watcher :
    List Streamer → Time → List Candidate → List WatchPriority → Option ℕ
unfolding chosen_priorities drop_candidates
single_watcher streamers now candidates priorities =
    elim (drop_candidates streamers now candidates) [
      | [] ↦ none
      | c ∷ _ ↦
          if any (priority_eq drops) (chosen_priorities priorities)
            && (streamer_at streamers c.idx).settings.single_watcher_during_drops
          then some c.idx
          else none
    ]

-- Everything but the single watcher, before the last sort.
unfoldable pub select_all :
    Platform → List Streamer → List WatchPriority → List Text → List Candidate → Time → List ℕ
unfolding select_by add_streak_pick swap_early_streak skips_early_streak chosen_priorities
    add_candidates by_rank
select_all p streamers priorities game_priority candidates now =
    let skip = skips_early_streak game_priority candidates in
    let selected = select_by p streamers now skip candidates [] (chosen_priorities priorities) in
    let with_streak = add_streak_pick candidates selected in
    add_candidates (swap_early_streak skip candidates with_streak)
      (sort_by by_rank (retain (λ c. not c.campaign_only) candidates))

-- The stable sort that puts the configured channels first.
unfoldable pub discovered_last : List Streamer → List ℕ → List ℕ
discovered_last streamers selected =
    sort_by
      (λ left right.
        compare_bool (streamer_at streamers left).discovered
          (streamer_at streamers right).discovered)
      selected

unfoldable pub all_candidates :
    Platform → List Streamer → List Text → List Text → Time → List Candidate
unfolding game_lists collect_candidates
all_candidates p streamers game_priority game_exclusions now =
    collect_candidates p (game_lists p game_priority game_exclusions) now 0 streamers []

-- The early return of the single watcher.
unfoldable pub single_or : Option ℕ → List ℕ → List ℕ
single_or none selected = selected
single_or (some idx) selected = idx ∷ []

unfoldable pub pick_streamers_to_watch :
    Platform → List Streamer → List WatchPriority → List Text → List Text → Time → List ℕ
unfolding all_candidates single_watcher single_or select_all discovered_last
pick_streamers_to_watch p streamers watch_priorities game_priority game_exclusions now =
    let candidates = all_candidates p streamers game_priority game_exclusions now in
    single_or (single_watcher streamers now candidates watch_priorities) (
      discovered_last streamers
        (select_all p streamers watch_priorities game_priority candidates now))
