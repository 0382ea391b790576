-- ===== src/Domain/Streamer.antt =====
-- crates/tm-domain/src/types.rs: a streamer with its balance, its dedupe keys and its generations.
use twitch_miner_rust.Base.{
  ℕ, Bool, true, false, not, ◌&&◌, ◌||◌, Option, none, List, [], ◌∷◌, if◌then◌else◌, is_none_or,
  is_some_and, is_empty, retain,
}
use twitch_miner_rust.Base.Int.{ℤ, pos, eqb_ℤ, leb_ℤ, max_ℤ, ◌-ℤ◌, wrap_i64}
use twitch_miner_rust.Base.Map.{Map}
use twitch_miner_rust.Base.Map
use twitch_miner_rust.Base.Text.{Text, text_eq, str, trim, is_blank, ascii_upper, starts_with}
use twitch_miner_rust.Domain.Float.{F64}
use twitch_miner_rust.Domain.Settings.{StreamerSettings, default_streamer_settings}
use twitch_miner_rust.Domain.Stream.{Time, Stream, has_active_drop_campaign}
use mathlib.Core.List.{map}

pub record ActiveMultiplier : Type 0 where
  pub factor : F64

pub record HistoryEntry : Type 0 where
  pub count : ℕ  -- u32
  pub amount : ℤ

pub record CommunityGoal : Type 0 where
  pub id : Text
  pub title : Text
  pub is_in_stock : Bool
  pub points_contributed : ℤ
  pub amount_needed : ℤ
  pub per_stream_user_maximum_contribution : ℤ
  pub status : Text

-- `CommunityGoal::amount_left`.
unfoldable pub amount_left : CommunityGoal → ℤ
amount_left g = wrap_i64 (g.amount_needed -ℤ g.points_contributed)

-- `CommunityGoal::is_active`.
unfoldable pub is_active : CommunityGoal → Bool
is_active g =
    let status = map ascii_upper (trim g.status) in
    not (is_blank g.id)
    && g.is_in_stock
    && (text_eq status (str "ACTIVE") || text_eq status (str "STARTED"))

abbrev bool_eq : Bool → Bool → Bool
bool_eq true b = b
bool_eq false b = not b

-- The derived `==` of goals.
unfoldable pub goal_eq : CommunityGoal → CommunityGoal → Bool
goal_eq a b =
    text_eq a.id b.id
    && text_eq a.title b.title
    && bool_eq a.is_in_stock b.is_in_stock
    && eqb_ℤ a.points_contributed b.points_contributed
    && eqb_ℤ a.amount_needed b.amount_needed
    && eqb_ℤ a.per_stream_user_maximum_contribution b.per_stream_user_maximum_contribution
    && text_eq a.status b.status

pub record Streamer : Type 0 where
  pub username : Text
  pub channel_id : Text
  pub channel_points : ℤ
  pub settings : StreamerSettings
  pub is_online : Bool
  pub presence_known : Bool
  pub online_at : Option Time
  pub offline_at : Option Time
  pub last_stream_ended_at : Option Time
  pub watch_suspended_until : Option Time
  pub discovered : Bool
  pub stream : Option Stream
  pub points_init : Bool
  pub channel_points_enabled : Option Bool
  pub active_multipliers : List ActiveMultiplier
  pub last_raid_id : Text
  pub processed_claim_ids : List Text
  pub processed_moment_ids : List Text
  pub processed_point_event_keys : List Text
  pub stream_update_generation : ℕ  -- u64
  pub context_request_generation : ℕ  -- u64
  pub context_balance_revision : ℕ  -- u64
  pub last_server_confirmed_points_at : Option Time
  pub last_context_observed_at : Option Time
  pub history : Map HistoryEntry
  pub community_goals : Map CommunityGoal

-- `Streamer::default`, derived.
abbrev pub default_streamer : Streamer
default_streamer = record {
  username = [];
  channel_id = [];
  channel_points = pos 0;
  settings = default_streamer_settings;
  is_online = false;
  presence_known = false;
  online_at = none;
  offline_at = none;
  last_stream_ended_at = none;
  watch_suspended_until = none;
  discovered = false;
  stream = none;
  points_init = false;
  channel_points_enabled = none;
  active_multipliers = [];
  last_raid_id = [];
  processed_claim_ids = [];
  processed_moment_ids = [];
  processed_point_event_keys = [];
  stream_update_generation = 0;
  context_request_generation = 0;
  context_balance_revision = 0;
  last_server_confirmed_points_at = none;
  last_context_observed_at = none;
  history = [];
  community_goals = [];
}

-- `Streamer::has_active_multipliers`.
unfoldable pub has_active_multipliers : Streamer → Bool
has_active_multipliers s = not (is_empty s.active_multipliers)

-- `Streamer::can_earn_channel_points`: only an explicit `Some(false)` disables point work.
unfoldable pub can_earn_channel_points : Streamer → Bool
can_earn_channel_points s = is_none_or s.channel_points_enabled (λ enabled. enabled)

-- `Streamer::points_limit_reached`.
unfoldable pub points_limit_reached : Streamer → Bool
points_limit_reached s =
    s.points_init && is_some_and s.settings.points_limit (λ limit. leb_ℤ limit s.channel_points)

-- `Streamer::can_watch_drop_campaign`.
unfoldable pub can_watch_drop_campaign : Streamer → Bool
can_watch_drop_campaign s = s.settings.farm_drops && is_some_and s.stream has_active_drop_campaign

-- The keys that a change of the balance leaves: those of a source and of a prediction.
unfoldable pub is_durable_key : Text → Bool
is_durable_key key = starts_with key (str "source:") || starts_with key (str "prediction:")

-- The goals of a context by their ids; of two with one id the later stays.
collect_goals : List CommunityGoal → Map CommunityGoal → Map CommunityGoal
collect_goals [] goals = goals
collect_goals (g ∷ gs) goals = collect_goals gs (Map.insert g.id g goals)

-- `Streamer::apply_channel_points_context_with_status_if_allowed`: the new streamer, and whether
-- the balance was taken.
unfoldable pub apply_context_if_allowed :
    Bool → Option Bool → ℤ → List ActiveMultiplier → List CommunityGoal → Streamer → Streamer × Bool
unfolding collect_goals
apply_context_if_allowed balance_is_current channel_points_enabled balance active_multipliers
      community_goals s =
    let balance' = max_ℤ balance (pos 0) in
    (
      record s {
        processed_point_event_keys =
            if balance_is_current && not (eqb_ℤ s.channel_points balance')
            then retain is_durable_key s.processed_point_event_keys
            else s.processed_point_event_keys;
        channel_points = if balance_is_current then balance' else s.channel_points;
        active_multipliers = active_multipliers;
        community_goals = collect_goals community_goals [];
        channel_points_enabled = channel_points_enabled;
        points_init = true;
      },
      balance_is_current,
    )

-- `Streamer::apply_channel_points_context_with_status_if_balance`.
unfoldable pub apply_context_if_balance :
    Option ℤ
    → Option Bool
    → ℤ
    → List ActiveMultiplier
    → List CommunityGoal
    → Streamer
    → Streamer × Bool
unfolding apply_context_if_allowed
apply_context_if_balance expected_balance channel_points_enabled balance active_multipliers
      community_goals s =
    apply_context_if_allowed
      (is_none_or expected_balance (λ expected. eqb_ℤ s.channel_points expected))
      channel_points_enabled balance active_multipliers community_goals s
