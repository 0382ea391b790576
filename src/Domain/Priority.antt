-- ===== src/Domain/Priority.antt =====
-- crates/tm-domain/src/watch.rs: the watch priorities and the names that a configuration gives them.
pub mod Normal
use twitch_miner_rust.Base.{
  Bool, true, false, not, ◌&&◌, ◌||◌, Option, none, some, List, [], ◌∷◌, ◌++◌, if◌then◌else◌, any,
  is_empty,
}
use twitch_miner_rust.Base.Text.{Text, text_eq, str, trim, contains}
use twitch_miner_rust.Domain.Platform.{Platform}
use twitch_miner_rust.Domain.Settings.{IrcMode}

pub data WatchPriority : Type 0 where
  order streak drops subscribed points_ascending points_descending : WatchPriority
  longest_streak expiring_streak : WatchPriority

-- The derived `==`.
unfoldable pub priority_eq : WatchPriority → WatchPriority → Bool
priority_eq order order = true
priority_eq streak streak = true
priority_eq drops drops = true
priority_eq subscribed subscribed = true
priority_eq points_ascending points_ascending = true
priority_eq points_descending points_descending = true
priority_eq longest_streak longest_streak = true
priority_eq expiring_streak expiring_streak = true
priority_eq _ _ = false

unfoldable pub default_watch_priorities : List WatchPriority
default_watch_priorities = streak ∷ drops ∷ order ∷ []

unfoldable pub parse_watch_priority : Platform → Text → Option WatchPriority
parse_watch_priority p raw_name =
    let name = p.to_uppercase (trim raw_name) in
    if text_eq name (str "ORDER")
    then some order
    else if text_eq name (str "STREAK")
    then some streak
    else if text_eq name (str "DROPS")
    then some drops
    else if text_eq name (str "SUBSCRIBED")
        || text_eq name (str "SUBS")
        || text_eq name (str "MULTIPLIER")
    then some subscribed
    else if text_eq name (str "POINTS_ASC") || text_eq name (str "POINTS_ASCENDING")
    then some points_ascending
    else if text_eq name (str "POINTS_DESC") || text_eq name (str "POINTS_DESCENDING")
    then some points_descending
    else if text_eq name (str "LONGEST_STREAK") || text_eq name (str "STREAK_LONGEST")
    then some longest_streak
    else if text_eq name (str "EXPIRING_STREAK") || text_eq name (str "STREAK_EXPIRING")
    then some expiring_streak
    else none

unfoldable pub add_priority : List WatchPriority → Option WatchPriority → List WatchPriority
add_priority parsed none = parsed
add_priority parsed (some priority) =
    if any (λ seen. priority_eq seen priority) parsed then parsed else parsed ++ priority ∷ []

-- The loop of `parse_watch_priorities`: what is parsed is also what was seen.
unfoldable pub collect_priorities : Platform → List WatchPriority → List Text → List WatchPriority
unfolding parse_watch_priority add_priority
collect_priorities p parsed [] = parsed
collect_priorities p parsed (raw_name ∷ names) =
    collect_priorities p (add_priority parsed (parse_watch_priority p raw_name)) names

unfoldable pub parse_watch_priorities : Platform → List Text → List WatchPriority
unfolding collect_priorities
parse_watch_priorities p names =
    let parsed = collect_priorities p [] names in
    if is_empty names
    then default_watch_priorities
    else if is_empty parsed
    then default_watch_priorities
    else parsed

-- The loop of `normalize_list`: what is normalized is also what was seen.
unfoldable pub collect_normalized : Platform → List Text → List Text → List Text
collect_normalized p normalized [] = normalized
collect_normalized p normalized (raw_value ∷ values) =
    let value = p.to_lowercase (trim raw_value) in
    collect_normalized p
      (if not (is_empty value) && not (contains normalized value)
        then normalized ++ value ∷ []
        else normalized)
      values

-- `normalize_game_list` and `normalize_streamer_list`.
unfoldable pub normalize_list : Platform → List Text → List Text
unfolding collect_normalized
normalize_list p values = collect_normalized p [] values

unfoldable pub should_join_chat : IrcMode → Bool → Bool
should_join_chat IrcMode.always online = true
should_join_chat IrcMode.never online = false
should_join_chat IrcMode.offline online = not online
should_join_chat IrcMode.online online = online
