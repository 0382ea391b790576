-- ===== src/Domain/Watch/Selection/Steps.antt =====
-- The steps of `pick_streamers_to_watch` select candidates, each once.
use twitch_miner_rust.Base.{
  ℕ, ◌≤◌, ◌<◌, ◌≡◌, refl, inl, inr, arith, Bool, true, false, not, ◌&&◌, Option, none, some, List,
  [], ◌∷◌, any, find, is_empty, retain, if◌then◌else◌, ◌==◌, Bool-cases, Option-cases,
}
use twitch_miner_rust.Base.Text.{Text}
use twitch_miner_rust.Base.Sort.{sort_by}
use twitch_miner_rust.Domain.Platform.{Platform}
use twitch_miner_rust.Domain.Priority.{
  WatchPriority, order, streak, drops, priority_eq, subscribed, points_ascending, points_descending,
  longest_streak, expiring_streak,
}
use twitch_miner_rust.Domain.Stream.{Time}
use twitch_miner_rust.Domain.Streamer.{Streamer, can_watch_drop_campaign, has_active_multipliers}
use twitch_miner_rust.Domain.Watch.Admitted.{count_earning}
use twitch_miner_rust.Domain.Watch.Candidates.{Candidate}
use twitch_miner_rust.Domain.Watch.Count.{
  count, count_candidates, at_most_one, length-retain-sort_by, length-retain-retain,
  length-retain-find, count-add_candidate, count-add_candidates,
}
use twitch_miner_rust.Domain.Watch.Pick.{
  add_candidates, select_by, add_streak_pick, is_streak_ready, swap_early_streak,
  skips_early_streak, chosen_priorities, single_watcher, select_all, discovered_last,
}
use twitch_miner_rust.Domain.Watch.Ranking.{
  streamer_at, compare_drops, by_rank, drop_candidates, streak_candidates, considered,
  compare_under, ordered,
}

pub count-discovered_last :
    (i : ℕ) (streamers : List Streamer) (selected : List ℕ)
    → count i (discovered_last streamers selected) ≡ count i selected
unfolding discovered_last
count-discovered_last i streamers selected = length-retain-sort_by _ (λ j. j == i) selected

pub count_candidates-drop_candidates :
    (i : ℕ) (streamers : List Streamer) (now : Time) (cs : List Candidate)
    → count_candidates i (drop_candidates streamers now cs) ≤ count_candidates i cs
unfolding drop_candidates
count_candidates-drop_candidates i streamers now cs =
    rw
      (length-retain-sort_by (compare_drops streamers now) (λ (c : Candidate). c.idx == i)
        (retain (λ c. can_watch_drop_campaign (streamer_at streamers c.idx)) cs))
      (length-retain-retain (λ c. c.idx == i)
        (λ c. can_watch_drop_campaign (streamer_at streamers c.idx)) cs)

count_candidates-streak_candidates :
    (i : ℕ) (cs : List Candidate)
    → count_candidates i (streak_candidates cs) ≤ count_candidates i cs
unfolding streak_candidates
count_candidates-streak_candidates i cs =
    length-retain-retain (λ c. c.idx == i) (λ c. c.streak_ready) cs

module _ (p : Platform) (streamers : List Streamer) (now : Time) where
  count_candidates-considered :
      (skip : Bool) (i : ℕ) (cs : List Candidate) (w : WatchPriority)
      → count_candidates i (considered streamers now skip cs w) ≤ count_candidates i cs
  unfolding considered
  count_candidates-considered true i cs streak = omega arith
  count_candidates-considered false i cs streak = count_candidates-streak_candidates i cs
  count_candidates-considered skip i cs drops = count_candidates-drop_candidates i streamers now cs
  count_candidates-considered skip i cs subscribed =
      length-retain-retain (λ c. c.idx == i)
        (λ c. not c.campaign_only && has_active_multipliers (streamer_at streamers c.idx)) cs
  count_candidates-considered skip i cs longest_streak = count_candidates-streak_candidates i cs
  count_candidates-considered skip i cs expiring_streak = count_candidates-streak_candidates i cs
  count_candidates-considered skip i cs order =
      length-retain-retain (λ c. c.idx == i) (λ c. not c.campaign_only) cs
  count_candidates-considered skip i cs points_ascending =
      length-retain-retain (λ c. c.idx == i) (λ c. not c.campaign_only) cs
  count_candidates-considered skip i cs points_descending =
      length-retain-retain (λ c. c.idx == i) (λ c. not c.campaign_only) cs

  count_candidates-ordered :
      (skip : Bool) (i : ℕ) (cs : List Candidate) (w : WatchPriority)
      → count_candidates i (ordered p streamers now skip cs w) ≤ count_candidates i cs
  unfolding ordered
  count_candidates-ordered skip i cs w =
      rw
        (length-retain-sort_by (compare_under p streamers now w) (λ (c : Candidate). c.idx == i)
          (considered streamers now skip cs w))
        (count_candidates-considered skip i cs w)

  count-select_by :
      (skip : Bool) (i : ℕ) (cs : List Candidate) (selected : List ℕ) (ws : List WatchPriority)
      → count i selected ≤ at_most_one (count_candidates i cs)
      → count i (select_by p streamers now skip cs selected ws)
        ≤ at_most_one (count_candidates i cs)
  unfolding select_by
  count-select_by skip i cs selected [] h = h
  count-select_by skip i cs selected (w ∷ ws) h =
      count-select_by skip i cs (add_candidates selected (ordered p streamers now skip cs w)) ws (
        ground (
          arith,
          h,
          count_candidates-ordered skip i cs w,
          count-add_candidates i selected (ordered p streamers now skip cs w),
        ))

count_candidates-head : (c : Candidate) (cs : List Candidate) → 0 < count_candidates c.idx (c ∷ cs)
count_candidates-head c cs = ground arith

count-add_streak_pick :
    (i : ℕ) (cs : List Candidate) (selected : List ℕ)
    → count i selected ≤ at_most_one (count_candidates i cs)
    → count i (add_streak_pick cs selected) ≤ at_most_one (count_candidates i cs)
unfolding add_streak_pick
count-add_streak_pick i cs selected h =
    let fresh = λ (c : Candidate). not (any (λ idx. idx == c.idx) selected) in
    let streaks = sort_by by_rank (streak_candidates cs) in
    elim (Bool-cases (
      not (any (is_streak_ready cs) selected)
      && not (is_empty (streak_candidates cs))
      && not (is_empty selected))) [
        | inr e ↦ rw e h
        | inl e ↦ elim (Option-cases (find fresh streaks)) [
          | inl f ↦ rw (e, f) h
          | inr (c, f) ↦
              rw (e, f)
                (ground (
                  arith,
                  h,
                  count-add_candidate i selected c,
                  length-retain-find (λ d. d.idx == i) fresh streaks c f,
                  length-retain-sort_by by_rank (λ (d : Candidate). d.idx == i)
                      (streak_candidates cs),
                  count_candidates-streak_candidates i cs,
                ))
        ]
      ]

count-swap_early_streak :
    (i : ℕ) (skip : Bool) (cs : List Candidate) (selected : List ℕ)
    → count i (swap_early_streak skip cs selected) ≡ count i selected
unfolding swap_early_streak
count-swap_early_streak i skip cs [] = refl
count-swap_early_streak i skip cs (a ∷ []) = refl
count-swap_early_streak i skip cs (a ∷ b ∷ rest) = ground arith

pub select_all-fits :
    (p : Platform) (streamers : List Streamer) (ws : List WatchPriority) (games : List Text)
    (cs : List Candidate) (now : Time) (i : ℕ)
    → count i (select_all p streamers ws games cs now) ≤ at_most_one (count_candidates i cs)
unfolding select_all
select_all-fits p streamers ws games cs now i =
    let skip = skips_early_streak games cs in
    let selected = select_by p streamers now skip cs [] (chosen_priorities ws) in
    let streaked = add_streak_pick cs selected in
    let earning = retain (λ (c : Candidate). not c.campaign_only) cs in
    let few : count i [] ≤ at_most_one (count_candidates i cs) = ground arith in
    ground (
      arith,
      count-add_streak_pick i cs selected
          (count-select_by p streamers now skip i cs [] (chosen_priorities ws) few),
      count-swap_early_streak i skip cs streaked,
      count-add_candidates i (swap_early_streak skip cs streaked) (sort_by by_rank earning),
      length-retain-sort_by by_rank (λ (c : Candidate). c.idx == i) earning,
      length-retain-retain (λ c. c.idx == i) (λ c. not c.campaign_only) cs,
    )

pub select_all-earning :
    (p : Platform) (streamers : List Streamer) (ws : List WatchPriority) (games : List Text)
    (cs : List Candidate) (now : Time) (i : ℕ)
    → 0 < count_earning i cs
    → 0 < count i (select_all p streamers ws games cs now)
unfolding select_all count_earning
select_all-earning p streamers ws games cs now i h =
    let skip = skips_early_streak games cs in
    let selected = select_by p streamers now skip cs [] (chosen_priorities ws) in
    let swapped = swap_early_streak skip cs (add_streak_pick cs selected) in
    let earning = retain (λ (c : Candidate). not c.campaign_only) cs in
    ground (
      arith,
      h,
      count-add_candidates i swapped (sort_by by_rank earning),
      length-retain-sort_by by_rank (λ (c : Candidate). c.idx == i) earning,
    )

-- `single_watcher`, on the sorted Drop candidates.
first_single : List Streamer → List WatchPriority → List Candidate → Option ℕ
first_single streamers ws [] = none
first_single streamers ws (c ∷ cs) =
    if any (priority_eq drops) (chosen_priorities ws)
      && (streamer_at streamers c.idx).settings.single_watcher_during_drops
    then some c.idx
    else none

first_single-counts :
    (streamers : List Streamer) (ws : List WatchPriority) (cs : List Candidate) (i : ℕ)
    → first_single streamers ws cs ≡ some i
    → 0 < count_candidates i cs
unfolding first_single
first_single-counts streamers ws [] i h = ground arith
first_single-counts streamers ws (c ∷ cs) i h = ground (arith, h, count_candidates-head c cs)

pub single_watcher-candidate :
    (streamers : List Streamer) (now : Time) (cs : List Candidate) (ws : List WatchPriority) (i : ℕ)
    → single_watcher streamers now cs ws ≡ some i
    → 0 < count_candidates i cs
unfolding single_watcher first_single
single_watcher-candidate streamers now cs ws i h = ground (
  arith,
  first_single-counts streamers ws (drop_candidates streamers now cs) i h,
  count_candidates-drop_candidates i streamers now cs,
)
