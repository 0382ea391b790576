-- ===== src/Runtime/State.antt =====
-- crates/tm-runtime/src/types.rs and effect.rs: the state of the miner, what the reducer is asked to
-- apply and what it asks of the application.
use twitch_miner_rust.Base.{
  ℕ, Bool, true, false, Option, some, List, [], ◌∷◌, ◌≡◌, refl, arith, if◌then◌else◌, find,
}
use twitch_miner_rust.Base.Int.{ℤ}
use twitch_miner_rust.Base.Map.{Map}
use twitch_miner_rust.Base.Text.{Text, text_eq, text_eq_iff}
use twitch_miner_rust.Domain.Settings.{StreamerSettings}
use twitch_miner_rust.Domain.Stream.{Time}
use twitch_miner_rust.Domain.Streamer.{Streamer, ActiveMultiplier, CommunityGoal}
use twitch_miner_rust.Domain.PredictionEvent.{PredictionEvent}
use twitch_miner_rust.Domain.Priority.{WatchPriority}

pub record RuntimeState : Type 0 where
  pub started_at : Time
  pub follower_mode : Bool
  pub watch_priorities : List WatchPriority
  pub game_priority : List Text
  pub game_exclusions : List Text
  pub streamers : List Streamer
  pub initial_points : Map ℤ
  pub predictions : Map PredictionEvent
  pub pending_prediction_winners : Map Text
  pub retired_streamers : List Streamer
  pub processed_prediction_ids : List Text
  pub completed_predictions : List PredictionEvent

pub record ContextUpdate : Type 0 where
  pub channel_id : Text
  pub channel_points_enabled : Option Bool
  pub balance : ℤ
  pub expected_request_generation : ℕ  -- u64
  pub expected_balance_revision : ℕ  -- u64
  pub observed_at : Time
  pub active_multipliers : List ActiveMultiplier
  pub community_goals : List CommunityGoal

pub record ContextRequestToken : Type 0 where
  pub request_generation : ℕ
  pub balance_revision : ℕ

pub record StreamUpdate : Type 0 where
  pub channel_id : Text
  pub id : Text
  pub title : Text
  pub game_name : Text
  pub game_id : Option Text
  pub viewers_count : ℕ  -- u32
  pub tags : List Text
  pub expected_generation : ℕ  -- u64

pub data RuntimeEffect : Type 0 where
  claim_bonus : (channel_id claim_id : Text) → RuntimeEffect
  claim_moment : (channel_id moment_id : Text) → RuntimeEffect
  join_raid : (channel_id raid_id target_login : Text) → RuntimeEffect
  contribute_community_goals : (channel_id : Text) → RuntimeEffect
  evaluate_prediction : (event_id : Text) → RuntimeEffect
  prediction_settled :
      (event_id streamer_username title decision_label result_type result_string : Text)
      → RuntimeEffect

pub record EventApplication : Type 0 where
  pub effects : List RuntimeEffect
  pub changed : Bool

-- `EventApplication::unchanged` and `EventApplication::changed`.
abbrev pub unchanged : EventApplication
unchanged = record { effects = []; changed = false }

abbrev pub changed : List RuntimeEffect → EventApplication
changed effects = record { effects = effects; changed = true }

abbrev pub changed_if : Bool → EventApplication
changed_if b = record { effects = []; changed = b }

pub record ConfigReload : Type 0 where
  pub watch_priorities : List WatchPriority
  pub game_priority : List Text
  pub game_exclusions : List Text
  pub follower_mode : Bool
  pub settings : Map StreamerSettings
  pub add : List Streamer
  pub remove : List Text

pub record ConfigReloadOutcome : Type 0 where
  pub added : List Text
  pub removed : List Text
  pub deferred : List Text

-- `streamer_mut_by_channel_id`: the first streamer of the channel, read.
unfoldable pub find_streamer : Text → List Streamer → Option Streamer
find_streamer id streamers = find (λ s. text_eq s.channel_id id) streamers

-- And written.
unfoldable pub replace_streamer : Text → Streamer → List Streamer → List Streamer
replace_streamer id s' [] = []
replace_streamer id s' (s ∷ ss) =
    let rest = replace_streamer id s' ss in if text_eq s.channel_id id then s' ∷ ss else s ∷ rest

pub find_streamer-channel_id :
    (id : Text) (ss : List Streamer) (s : Streamer)
    → find_streamer id ss ≡ some s
    → s.channel_id ≡ id
unfolding find_streamer
find_streamer-channel_id id [] s h = ground arith
find_streamer-channel_id id (t ∷ ss) s h =
    ground (arith, text_eq_iff t.channel_id id, find_streamer-channel_id id ss s)

-- What is written is read back, and other channels are left alone.
pub find_streamer-replace_streamer :
    (id : Text) (s s' : Streamer) (ss : List Streamer)
    → find_streamer id ss ≡ some s
    → s'.channel_id ≡ id
    → find_streamer id (replace_streamer id s' ss) ≡ some s'
unfolding find_streamer replace_streamer
find_streamer-replace_streamer id s s' [] h e = ground arith
find_streamer-replace_streamer id s s' (t ∷ ss) h e =
    ground (arith, text_eq_iff s'.channel_id id, find_streamer-replace_streamer id s s' ss)

pub find_streamer-replace_streamer_ne :
    (id j : Text) (s' : Streamer) (ss : List Streamer)
    → s'.channel_id ≡ id
    → text_eq id j ≡ false
    → find_streamer j (replace_streamer id s' ss) ≡ find_streamer j ss
unfolding find_streamer replace_streamer
find_streamer-replace_streamer_ne id j s' [] e n = refl
find_streamer-replace_streamer_ne id j s' (t ∷ ss) e n = ground (
  arith,
  text_eq_iff t.channel_id id,
  text_eq_iff t.channel_id j,
  text_eq_iff s'.channel_id j,
  text_eq_iff id j,
  find_streamer-replace_streamer_ne id j s' ss,
)
