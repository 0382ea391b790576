-- ===== src/Runtime/Selections.antt =====
-- crates/tm-runtime/src/state.rs: the channels that the state selects to watch and to chat in.
use mathlib.Core.Path.{subst}
use twitch_miner_rust.Base.{
  ℕ, ◌<◌, ◌≡◌, refl, ap, inl, inr, arith, Bool, true, not, ◌&&◌, ◌||◌, Option, none, some, List, [],
  ◌∷◌, map, if◌then◌else◌, is_empty, any, get_elem?, retain, Bool-cases,
}
use twitch_miner_rust.Base.Text.{Text, text_eq, text_eq_iff, contains}
use twitch_miner_rust.Base.Map.{Map}
use twitch_miner_rust.Base.Map
use twitch_miner_rust.Base.Int.{ℤ}
use twitch_miner_rust.Domain.Platform.{Platform}
use twitch_miner_rust.Domain.Priority.{drops, priority_eq, should_join_chat}
use twitch_miner_rust.Domain.Stream.{Time}
use twitch_miner_rust.Domain.Streamer.{Streamer, can_watch_drop_campaign}
use twitch_miner_rust.Domain.Watch.Admitted.{is_admitted}
use twitch_miner_rust.Domain.Watch.Candidates.{game_lists}
use twitch_miner_rust.Domain.Watch.Count.{count}
use twitch_miner_rust.Domain.Watch.Pick.{pick_streamers_to_watch}
use twitch_miner_rust.Domain.Watch.Selection.{pick_streamers_to_watch-admitted}
use twitch_miner_rust.Runtime.State.{RuntimeState}

-- Of channels with one login the last one's points are captured.
unfoldable pub capture_points : List Streamer → Map ℤ → Map ℤ
capture_points [] points = points
capture_points (s ∷ ss) points = capture_points ss (Map.insert s.username s.channel_points points)

unfoldable pub capture_initial_points : RuntimeState → RuntimeState
unfolding capture_points
capture_initial_points st = record st { initial_points = capture_points st.streamers [] }

unfoldable pub watch_target_indices : Platform → RuntimeState → Time → List ℕ
watch_target_indices p st now =
    pick_streamers_to_watch p st.streamers st.watch_priorities st.game_priority st.game_exclusions
      now

cons_some : Option Streamer → List Streamer → List Streamer
cons_some none rest = rest
cons_some (some s) rest = s ∷ rest

-- `filter_map(|idx| self.streamers.get(idx))`.
unfoldable pub streamers_at : List Streamer → List ℕ → List Streamer
unfolding cons_some
streamers_at streamers [] = []
streamers_at streamers (i ∷ is) = cons_some (get_elem? streamers i) (streamers_at streamers is)

unfoldable pub logins : List Streamer → List Text
logins streamers = map (λ s. s.username) streamers

unfoldable pub watch_target_logins : Platform → RuntimeState → Time → List Text
unfolding watch_target_indices streamers_at logins
watch_target_logins p st now = logins (streamers_at st.streamers (watch_target_indices p st now))

unfoldable pub campaign_watch_logins : Platform → RuntimeState → Time → List Text
unfolding streamers_at logins
campaign_watch_logins p st now =
    if not (is_empty st.watch_priorities) && not (any (priority_eq drops) st.watch_priorities)
    then []
    else logins (
        retain can_watch_drop_campaign (
          streamers_at st.streamers (
            pick_streamers_to_watch p st.streamers (drops ∷ []) st.game_priority st.game_exclusions
              now)))

unfoldable pub desired_chat_logins : RuntimeState → List Text
unfolding logins
desired_chat_logins st =
    logins (retain (λ s. should_join_chat s.settings.irc_mode s.is_online) st.streamers)

retain_all : (ss : List Streamer) → retain (λ _. true) ss ≡ ss
retain_all [] = refl
retain_all (s ∷ ss) = ap (λ rest. s ∷ rest) (retain_all ss)

-- A login of the channels at some indices, all admitted by a test, is that of an admitted channel.
logins_of :
    (test : Streamer → Bool) (kept : Streamer → Bool) (streamers : List Streamer) (is : List ℕ)
    (login : Text)
    → ((i : ℕ)
        → 0 < count i is
        → (s : Streamer) × (get_elem? streamers i ≡ some s) × (test s ≡ true))
    → contains (logins (retain kept (streamers_at streamers is))) login ≡ true
    → (i : ℕ) × (s : Streamer) × (get_elem? streamers i ≡ some s)
      × (s.username ≡ login)
      × (kept s ≡ true)
      × (test s ≡ true)
unfolding logins streamers_at cons_some contains
logins_of test kept streamers [] login sound h = ground (arith, h)
logins_of test kept streamers (i ∷ is) login sound h =
    let later : (j : ℕ)
        → 0 < count j is
        → (s : Streamer) × (get_elem? streamers j ≡ some s) × (test s ≡ true) =
      λ j more. sound j (ground (arith, more)) in
    let (s, found, ok) = sound i (ground arith) in
    let h1 =
      subst
        (λ o.
          contains (logins (retain kept (cons_some o (streamers_at streamers is)))) login ≡ true)
        found h in
    elim (Bool-cases (kept s)) [
      | inr e ↦ logins_of test kept streamers is login later (rw e at h1)
      | inl e ↦ elim (Bool-cases (text_eq s.username login)) [
        | inl f ↦ (i, s, found, (text_eq_iff s.username login).0 f, e, ok)
        | inr f ↦ logins_of test kept streamers is login later (rw (e, f) at h1)
      ]
    ]

-- A channel that the campaigns ask to watch is one of the tracked channels, can progress a Drop
-- campaign and may be watched now, and the configured priorities are empty or contain Drops.
pub campaign_watch_logins-admitted :
    (p : Platform) (st : RuntimeState) (now : Time) (login : Text)
    → contains (campaign_watch_logins p st now) login ≡ true
    → ((is_empty st.watch_priorities || any (priority_eq drops) st.watch_priorities) ≡ true)
      × ((i : ℕ) × (s : Streamer) × (get_elem? st.streamers i ≡ some s)
          × (s.username ≡ login)
          × (can_watch_drop_campaign s ≡ true)
          × (is_admitted p (game_lists p st.game_priority st.game_exclusions) now s ≡ true))
unfolding campaign_watch_logins contains
campaign_watch_logins-admitted p st now login h =
    elim (Bool-cases
      (not (is_empty st.watch_priorities) && not (any (priority_eq drops) st.watch_priorities))) [
        | inl e ↦ let h1 = rw e at h in ground (arith, h1)
        | inr e ↦ (
          ground (arith, e),
          logins_of _ can_watch_drop_campaign st.streamers _ login
              (pick_streamers_to_watch-admitted p st.streamers (drops ∷ []) st.game_priority
                st.game_exclusions now)
              (rw e at h),
        )
      ]

-- Every login to watch is that of a tracked channel that may be watched now.
pub watch_target_logins-admitted :
    (p : Platform) (st : RuntimeState) (now : Time) (login : Text)
    → contains (watch_target_logins p st now) login ≡ true
    → (i : ℕ) × (s : Streamer) × (get_elem? st.streamers i ≡ some s)
      × (s.username ≡ login)
      × (is_admitted p (game_lists p st.game_priority st.game_exclusions) now s ≡ true)
unfolding watch_target_logins watch_target_indices
watch_target_logins-admitted p st now login h =
    let all = streamers_at st.streamers (watch_target_indices p st now) in
    let (i, s, found, named, _, admitted) =
      logins_of _ (λ _. true) st.streamers (watch_target_indices p st now) login
        (pick_streamers_to_watch-admitted p st.streamers st.watch_priorities st.game_priority
          st.game_exclusions now)
        (rw (retain_all all) h) in
    (i, s, found, named, admitted)
