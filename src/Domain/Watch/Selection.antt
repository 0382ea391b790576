-- ===== src/Domain/Watch/Selection.antt =====
-- What `pick_streamers_to_watch` selects.
pub mod Steps
pub mod Partition
use twitch_miner_rust.Base.{
  ℕ, zero, suc, ◌+◌, ◌≤◌, ◌<◌, ◌≡◌, refl, ap, ◌⊎◌, inl, inr, arith, Bool, true, false, not, Option,
  none, some, List, [], ◌∷◌, ◌++◌, get_elem?, retain, ◌==◌, Bool-cases, Option-cases,
}
use twitch_miner_rust.Base.Text.{Text}
use twitch_miner_rust.Domain.Platform.{Platform}
use twitch_miner_rust.Domain.Priority.{WatchPriority}
use twitch_miner_rust.Domain.Stream.{Time}
use twitch_miner_rust.Domain.Streamer.{Streamer}
use twitch_miner_rust.Domain.Watch.Admitted.{
  is_admitted, count_earning, collect_candidates-admitted, collect_candidates-earns,
}
use twitch_miner_rust.Domain.Watch.Candidates.{Candidate, game_lists, earns_points}
use twitch_miner_rust.Domain.Watch.Count.{count, count_candidates, at_most_one, eqb→eq}
use twitch_miner_rust.Domain.Watch.Pick.{
  single_or, single_watcher, select_all, discovered_last, all_candidates, pick_streamers_to_watch,
}
use twitch_miner_rust.Domain.Watch.Ranking.{streamer_at}
use twitch_miner_rust.Domain.Watch.Selection.Partition.{is_discovered, discovered_last-partition}
use twitch_miner_rust.Domain.Watch.Selection.Steps.{
  single_watcher-candidate, select_all-fits, select_all-earning, count-discovered_last,
}

count-single :
    (i k : ℕ) (cs : List Candidate)
    → 0 < count_candidates k cs
    → count i (k ∷ []) ≤ at_most_one (count_candidates i cs)
count-single i k cs h = elim (Bool-cases (k == i)) [
  | inl e ↦ let same = eqb→eq k i e in rw (← same) (ground (arith, h))
  | inr e ↦ rw e (ground arith)
]

plus_zero_left : (i : ℕ) → i ≡ 0 + i
plus_zero_left i = omega arith

zero_plus : (i k : ℕ) → i ≡ 0 + k → i ≡ k
zero_plus i k h = omega (arith, h)

module _ (p : Platform) (streamers : List Streamer) (priorities : List WatchPriority)
    (game_priority game_exclusions : List Text) (now : Time) where
  pick-single :
      (i : ℕ)
      → single_watcher streamers now
          (all_candidates p streamers game_priority game_exclusions now)
          priorities
        ≡ some i
      → pick_streamers_to_watch p streamers priorities game_priority game_exclusions now ≡ i ∷ []
  unfolding pick_streamers_to_watch
  pick-single i h =
      ap
        (λ o. single_or o (
          discovered_last streamers (
            select_all p streamers priorities game_priority
              (all_candidates p streamers game_priority game_exclusions now) now)))
        h

  pick-all :
      single_watcher streamers now
          (all_candidates p streamers game_priority game_exclusions now)
          priorities
        ≡ none
      → pick_streamers_to_watch p streamers priorities game_priority game_exclusions now
        ≡ discovered_last streamers (
            select_all p streamers priorities game_priority
              (all_candidates p streamers game_priority game_exclusions now)
              now)
  unfolding pick_streamers_to_watch
  pick-all h =
      ap
        (λ o. single_or o (
          discovered_last streamers (
            select_all p streamers priorities game_priority
              (all_candidates p streamers game_priority game_exclusions now) now)))
        h

  pick-fits :
      (i : ℕ)
      → count i (pick_streamers_to_watch p streamers priorities game_priority game_exclusions now)
        ≤ at_most_one
            (count_candidates i (all_candidates p streamers game_priority game_exclusions now))
  pick-fits i =
      let cs = all_candidates p streamers game_priority game_exclusions now in
      let all = select_all p streamers priorities game_priority cs now in
      elim (Option-cases (single_watcher streamers now cs priorities)) [
        | inl e ↦
            rw (pick-all e, count-discovered_last i streamers all)
              (select_all-fits p streamers priorities game_priority cs now i)
        | inr (k, e) ↦
            rw (pick-single k e)
              (count-single i k cs (single_watcher-candidate streamers now cs priorities k e))
      ]

  all_candidates-earns :
      (i : ℕ) (s : Streamer)
      → get_elem? streamers i ≡ some s
      → is_admitted p (game_lists p game_priority game_exclusions) now s ≡ true
      → earns_points s ≡ true
      → 0 < count_earning i (all_candidates p streamers game_priority game_exclusions now)
  unfolding all_candidates
  all_candidates-earns i s found admitted earns = rw (plus_zero_left i) (
      collect_candidates-earns p (game_lists p game_priority game_exclusions) now i 0 streamers [] s
        found admitted earns)

  -- No channel is picked twice, whatever the channels, priorities and game lists.
  pub pick_streamers_to_watch-once :
      (i : ℕ)
      → count i (pick_streamers_to_watch p streamers priorities game_priority game_exclusions now)
        ≤ 1
  pick_streamers_to_watch-once i = ground (arith, pick-fits i)

  -- Every picked index is that of a channel of the list which may be watched: it is online, can
  -- still earn points or progress a Drop campaign, is not suspended, if discovered has an open
  -- streak, and does not play an excluded game.
  pub pick_streamers_to_watch-admitted :
      (i : ℕ)
      → 0
        < count i (pick_streamers_to_watch p streamers priorities game_priority game_exclusions now)
      → (s : Streamer) × (get_elem? streamers i ≡ some s)
        × (is_admitted p (game_lists p game_priority game_exclusions) now s ≡ true)
  unfolding all_candidates
  pick_streamers_to_watch-admitted i h =
      let games = game_lists p game_priority game_exclusions in
      elim (collect_candidates-admitted p games now i 0 streamers []
        (ground (arith, h, pick-fits i))) [
          | inl none_yet ↦ ground (arith, none_yet)
          | inr (k, s, place, found, admitted) ↦ (s, rw (zero_plus i k place) found, admitted)
        ]

  -- Unless the first Drop channel claims the only slot, every channel of the list that may be
  -- watched and earns points is picked.
  pub pick_streamers_to_watch_complete :
      (i : ℕ) (s : Streamer)
      → single_watcher streamers now
          (all_candidates p streamers game_priority game_exclusions now)
          priorities
        ≡ none
      → get_elem? streamers i ≡ some s
      → is_admitted p (game_lists p game_priority game_exclusions) now s ≡ true
      → earns_points s ≡ true
      → 0
        < count i (pick_streamers_to_watch p streamers priorities game_priority game_exclusions now)
  pick_streamers_to_watch_complete i s single found admitted earns =
      let cs = all_candidates p streamers game_priority game_exclusions now in
      rw
        (
          pick-all single,
          count-discovered_last i streamers
              (select_all p streamers priorities game_priority cs now),
        )
        (select_all-earning p streamers priorities game_priority cs now i
          (all_candidates-earns i s found admitted earns))

  -- Unless the first Drop channel claims the only slot, the last sort equals a partition: the
  -- picked channels are the configured ones of the selection and then the discovered ones, each
  -- part in the order of the selection.
  pub pick_streamers_to_watch-partition :
      single_watcher streamers now
          (all_candidates p streamers game_priority game_exclusions now)
          priorities
        ≡ none
      → pick_streamers_to_watch p streamers priorities game_priority game_exclusions now
        ≡ retain
            (λ i. not (is_discovered streamers i))
            (select_all p streamers priorities game_priority
              (all_candidates p streamers game_priority game_exclusions now)
              now)
          ++ retain (is_discovered streamers) (
              select_all p streamers priorities game_priority
                (all_candidates p streamers game_priority game_exclusions now)
                now)
  pick_streamers_to_watch-partition single =
      let cs = all_candidates p streamers game_priority game_exclusions now in
      rw (pick-all single) (
        discovered_last-partition streamers
          (select_all p streamers priorities game_priority cs now))
