-- ===== src/Domain/PredictionEvent.antt =====
-- crates/tm-domain/src/prediction.rs: the records of a prediction.
use twitch_miner_rust.Base.{ℕ, Bool, ◌&&◌, true, false, Option, none, List, [], ◌∷◌}
use twitch_miner_rust.Base.Int.{ℤ, pos, eqb_ℤ}
use twitch_miner_rust.Base.Text.{Text, text_eq}
use twitch_miner_rust.Domain.Float.{F64, f64_eq}
use twitch_miner_rust.Domain.Stream.{Time}
use twitch_miner_rust.Domain.Streamer.{Streamer}

pub record PredictionOutcome : Type 0 where
  pub id : Text
  pub title : Text
  pub color : Text
  pub total_users : ℤ
  pub total_points : ℤ
  pub top_points : ℤ
  pub percentage_users : F64
  pub odds : F64
  pub odds_percentage : F64

pub record PredictionDecision : Type 0 where
  pub choice : Option ℕ
  pub outcome_id : Text
  pub amount : ℤ

-- `PredictionDecision::default`, derived.
abbrev pub default_decision : PredictionDecision
default_decision = record { choice = none; outcome_id = []; amount = pos 0 }

pub record PredictionSettlement : Type 0 where
  pub gained : ℤ
  pub placed : ℤ
  pub won : ℤ
  pub result_type : Text
  pub result_string : Text
  pub decision_label : Text

pub record PredictionEvent : Type 0 where
  pub streamer : Streamer
  pub event_id : Text
  pub title : Text
  pub status : Text
  pub created_at : Time
  pub window_seconds : F64
  pub outcomes : List PredictionOutcome
  pub decision : PredictionDecision
  pub bet_placed : Bool
  pub bet_confirmed : Bool
  pub result_type : Text
  pub result_string : Text

-- The derived `==` of outcomes, and of vectors of them: false where a NaN stands.
outcome_eq : PredictionOutcome → PredictionOutcome → Bool
outcome_eq a b =
    text_eq a.id b.id
    && text_eq a.title b.title
    && text_eq a.color b.color
    && eqb_ℤ a.total_users b.total_users
    && eqb_ℤ a.total_points b.total_points
    && eqb_ℤ a.top_points b.top_points
    && f64_eq a.percentage_users b.percentage_users
    && f64_eq a.odds b.odds
    && f64_eq a.odds_percentage b.odds_percentage

unfoldable pub outcomes_eq : List PredictionOutcome → List PredictionOutcome → Bool
unfolding outcome_eq
outcomes_eq [] [] = true
outcomes_eq [] (b ∷ bs) = false
outcomes_eq (a ∷ as') [] = false
outcomes_eq (a ∷ as') (b ∷ bs) = outcome_eq a b && outcomes_eq as' bs
