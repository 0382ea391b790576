-- ===== src/Witnesses/Selection.antt =====
-- Concrete selections of the channels to watch.
use twitch_miner_rust.Base.{
  ℕ, ◌<◌, ◌≤◌, ◌≡◌, refl, arith, true, false, not, ◌||◌, some, none, List, [], ◌∷◌, ◌++◌, get_elem?,
  retain, is_empty, any,
}
use twitch_miner_rust.Base.Text.{Text, str, contains}
use twitch_miner_rust.Domain.Priority.{drops, order, priority_eq}
use twitch_miner_rust.Domain.Stream.{default_stream}
use twitch_miner_rust.Domain.Streamer.{Streamer, can_watch_drop_campaign}
use twitch_miner_rust.Domain.Watch.Admitted.{is_admitted}
use twitch_miner_rust.Domain.Watch.Candidates.{game_lists, earns_points}
use twitch_miner_rust.Domain.Watch.Count.{count}
use twitch_miner_rust.Domain.Watch.Pick.{
  pick_streamers_to_watch, single_watcher, select_all, all_candidates,
}
use twitch_miner_rust.Domain.Watch.Eligible.{IsEligible, pick_streamers_to_watch-IsEligible}
use twitch_miner_rust.Domain.Watch.Selection.{
  pick_streamers_to_watch-once, pick_streamers_to_watch_complete, pick_streamers_to_watch-partition,
}
use twitch_miner_rust.Domain.Watch.Selection.Partition.{is_discovered}
use twitch_miner_rust.Runtime.Selections.{campaign_watch_logins, campaign_watch_logins-admitted}
use twitch_miner_rust.Runtime.State.{RuntimeState}
use twitch_miner_rust.Witnesses.{ascii_platform, rich_streamer, empty_state, betting_settings}

-- A channel on air with a Drop campaign, one off air and one without a campaign.
abbrev drop_streamer : Streamer
drop_streamer = record rich_streamer {
  is_online = true;
  settings = record betting_settings { farm_drops = true };
  stream = some (record default_stream { drop_campaign_eligible = some true });
}

abbrev plain_streamer : Streamer
plain_streamer = record rich_streamer {
  username = str "carol";
  channel_id = str "c3";
  is_online = true;
}

abbrev channels : List Streamer
channels = rich_streamer ∷ drop_streamer ∷ plain_streamer ∷ []

picked_channels :
    pick_streamers_to_watch ascii_platform channels (order ∷ drops ∷ []) [] [] 5 ≡ 1 ∷ 2 ∷ []
unfolding pick_streamers_to_watch twitch_miner_rust.Base.Sort.sort_by
    twitch_miner_rust.Domain.Streamer.can_earn_channel_points
    twitch_miner_rust.Domain.Streamer.points_limit_reached twitch_miner_rust.Domain.Stream.game_name
    can_watch_drop_campaign twitch_miner_rust.Domain.Watch.Ranking.streamer_at
    twitch_miner_rust.Domain.Stream.has_active_drop_campaign priority_eq
    twitch_miner_rust.Base.Sort.then_with twitch_miner_rust.Domain.Watch.should_prioritize_streak
    twitch_miner_rust.Domain.Watch.Ranking.compare_bool
picked_channels = refl

picked_but_chess :
    pick_streamers_to_watch ascii_platform channels (order ∷ drops ∷ []) [] (str "chess" ∷ []) 5
    ≡ 1 ∷ 2 ∷ []
unfolding pick_streamers_to_watch twitch_miner_rust.Base.Sort.sort_by
    twitch_miner_rust.Domain.Streamer.can_earn_channel_points
    twitch_miner_rust.Domain.Streamer.points_limit_reached twitch_miner_rust.Domain.Stream.game_name
    can_watch_drop_campaign twitch_miner_rust.Domain.Watch.Ranking.streamer_at
    twitch_miner_rust.Domain.Stream.has_active_drop_campaign priority_eq
    twitch_miner_rust.Base.Sort.then_with twitch_miner_rust.Domain.Watch.should_prioritize_streak
    twitch_miner_rust.Domain.Watch.Ranking.compare_bool
picked_but_chess = refl

no_single :
    single_watcher channels 5 (all_candidates ascii_platform channels [] [] 5) (order ∷ drops ∷ [])
    ≡ none
unfolding single_watcher all_candidates twitch_miner_rust.Base.Sort.sort_by
    twitch_miner_rust.Domain.Streamer.can_earn_channel_points
    twitch_miner_rust.Domain.Streamer.points_limit_reached twitch_miner_rust.Domain.Stream.game_name
    can_watch_drop_campaign twitch_miner_rust.Domain.Watch.Ranking.streamer_at
    twitch_miner_rust.Domain.Stream.has_active_drop_campaign priority_eq
no_single = refl

first_picked_but_chess :
    0
    < count 1 (
        pick_streamers_to_watch ascii_platform channels
          (order ∷ drops ∷ [])
          []
          (str "chess" ∷ [])
          5)
first_picked_but_chess = rw picked_but_chess (omega arith)

admitted_plain :
    is_admitted ascii_platform (game_lists ascii_platform [] []) 5 plain_streamer ≡ true
unfolding is_admitted game_lists twitch_miner_rust.Domain.Streamer.can_earn_channel_points
    twitch_miner_rust.Domain.Streamer.points_limit_reached
admitted_plain = refl

earning_plain : earns_points plain_streamer ≡ true
unfolding earns_points twitch_miner_rust.Domain.Streamer.can_earn_channel_points
    twitch_miner_rust.Domain.Streamer.points_limit_reached
earning_plain = refl

pick_streamers_to_watch-once_example :
    count 1 (pick_streamers_to_watch ascii_platform channels (order ∷ drops ∷ []) [] [] 5) ≤ 1
pick_streamers_to_watch-once_example =
    pick_streamers_to_watch-once ascii_platform channels (order ∷ drops ∷ []) [] [] 5 1

pick_streamers_to_watch-IsEligible_example :
    (s : Streamer) × (get_elem? channels 1 ≡ some s)
    × IsEligible ascii_platform (str "chess" ∷ []) 5 s
pick_streamers_to_watch-IsEligible_example =
    pick_streamers_to_watch-IsEligible ascii_platform [] (str "chess" ∷ []) 5 channels
      (order ∷ drops ∷ []) 1 first_picked_but_chess

pick_streamers_to_watch_complete_example :
    0 < count 2 (pick_streamers_to_watch ascii_platform channels (order ∷ drops ∷ []) [] [] 5)
pick_streamers_to_watch_complete_example =
    pick_streamers_to_watch_complete ascii_platform channels (order ∷ drops ∷ []) [] [] 5 2
      plain_streamer no_single refl admitted_plain earning_plain

pick_streamers_to_watch-partition_example :
    let selected =
      select_all ascii_platform channels
        (order ∷ drops ∷ [])
        []
        (all_candidates ascii_platform channels [] [] 5)
        5 in
    pick_streamers_to_watch ascii_platform channels (order ∷ drops ∷ []) [] [] 5
    ≡ retain (λ i. not (is_discovered channels i)) selected
      ++ retain (is_discovered channels) selected
pick_streamers_to_watch-partition_example =
    pick_streamers_to_watch-partition ascii_platform channels (order ∷ drops ∷ []) [] [] 5 no_single

abbrev campaign_state : RuntimeState
campaign_state = record empty_state { streamers = channels }

asked_alice : contains (campaign_watch_logins ascii_platform campaign_state 5) (str "alice") ≡ true
unfolding campaign_watch_logins contains pick_streamers_to_watch twitch_miner_rust.Base.Sort.sort_by
    twitch_miner_rust.Domain.Streamer.can_earn_channel_points
    twitch_miner_rust.Domain.Streamer.points_limit_reached twitch_miner_rust.Domain.Stream.game_name
    can_watch_drop_campaign twitch_miner_rust.Domain.Watch.Ranking.streamer_at
    twitch_miner_rust.Domain.Stream.has_active_drop_campaign priority_eq
    twitch_miner_rust.Base.Sort.then_with twitch_miner_rust.Domain.Watch.should_prioritize_streak
    twitch_miner_rust.Domain.Watch.Ranking.compare_bool twitch_miner_rust.Base.Text.text_eq
asked_alice = refl

campaign_watch_logins-admitted_example :
    ((is_empty campaign_state.watch_priorities
        || any (priority_eq drops) campaign_state.watch_priorities)
      ≡ true)
    × ((i : ℕ) × (s : Streamer) × (get_elem? channels i ≡ some s)
        × (s.username ≡ str "alice")
        × (can_watch_drop_campaign s ≡ true)
        × (is_admitted ascii_platform (game_lists ascii_platform [] []) 5 s ≡ true))
campaign_watch_logins-admitted_example =
    campaign_watch_logins-admitted ascii_platform campaign_state 5 (str "alice") asked_alice
