-- ===== src/Runtime/Reload/Unsettled.antt =====
-- crates/tm-runtime/src/state.rs: a reload of the configuration against the stakes that are not settled.
use twitch_miner_rust.Base.{
  ℕ, zero, suc, ◌≡◌, refl, Bool, true, false, ◌&&◌, none, some, List, [], ◌∷◌, ◌++◌, map, arith,
  is_empty, is_some, find, position, remove_at,
}
use twitch_miner_rust.Base.Map.{Map}
use twitch_miner_rust.Base.Map
use twitch_miner_rust.Base.Text.{Text, text_eq, text_eq_iff, text_eq_refl, contains}
use twitch_miner_rust.Domain.Streamer.{Streamer}
use twitch_miner_rust.Domain.PredictionEvent.{PredictionEvent}
use twitch_miner_rust.Runtime.State.{replace_streamer}
use twitch_miner_rust.Runtime.Reload.{has_unsettled, prediction_ids}

-- Whether a channel is tracked.
abbrev pub tracks : Text → List Streamer → Bool
tracks id streamers = is_some (find (λ s. text_eq s.channel_id id) streamers)

pub tracks-map :
    (f : Streamer → Streamer) (same : (s : Streamer) → (f s).channel_id ≡ s.channel_id) (id : Text)
    (ss : List Streamer)
    → tracks id (map f ss) ≡ tracks id ss
tracks-map f same id [] = refl
tracks-map f same id (s ∷ ss) = ground (arith, same s, tracks-map f same id ss)

pub position-map :
    (f : Streamer → Streamer) (same : (s : Streamer) → (f s).channel_id ≡ s.channel_id) (id : Text)
    (ss : List Streamer)
    → position (λ s. text_eq s.channel_id id) (map f ss)
      ≡ position (λ s. text_eq s.channel_id id) ss
position-map f same id [] = refl
position-map f same id (s ∷ ss) = ground (arith, same s, position-map f same id ss)

pub tracks-replace_streamer :
    (id j : Text) (s' : Streamer) (ss : List Streamer)
    → s'.channel_id ≡ j
    → tracks id (replace_streamer j s' ss) ≡ tracks id ss
unfolding replace_streamer
tracks-replace_streamer id j s' [] e = refl
tracks-replace_streamer id j s' (t ∷ ss) e =
    ground (arith, text_eq_iff t.channel_id j, tracks-replace_streamer id j s' ss e)

pub tracks-append :
    (id : Text) (ss rest : List Streamer) → tracks id ss ≡ true → tracks id (ss ++ rest) ≡ true
tracks-append id [] rest h = ground arith
tracks-append id (s ∷ ss) rest h = ground (arith, tracks-append id ss rest)

-- The removal of one channel leaves the others.
pub tracks-remove_at :
    (id j : Text) (ss : List Streamer) (i : ℕ)
    → position (λ s. text_eq s.channel_id j) ss ≡ some i
    → text_eq id j ≡ false
    → tracks id (remove_at i ss) ≡ tracks id ss
tracks-remove_at id j [] i h other = refl
tracks-remove_at id j (s ∷ ss) zero h other =
    ground (arith, text_eq_iff s.channel_id j, text_eq_iff s.channel_id id, text_eq_iff id j)
tracks-remove_at id j (s ∷ ss) (suc i) h other = ground (arith, tracks-remove_at id j ss i)

-- The predictions of another channel are not among those that a removal releases.
ids_of_untracked :
    (j id : Text) (m : Map PredictionEvent)
    → Map.get id m ≡ none
    → contains (prediction_ids j m) id ≡ false
unfolding prediction_ids contains Map.get
ids_of_untracked j id [] h = refl
ids_of_untracked j id ((k, v) ∷ m) h = ground (arith, ids_of_untracked j id m)

pub ids_of_other :
    (j id : Text) (m : Map PredictionEvent) (event : PredictionEvent)
    → Map.is_keyed m ≡ true
    → Map.get id m ≡ some event
    → text_eq event.streamer.channel_id j ≡ false
    → contains (prediction_ids j m) id ≡ false
unfolding prediction_ids contains Map.get Map.is_keyed
ids_of_other j id [] event keyed h other = refl
ids_of_other j id ((k, v) ∷ m) event keyed h other =
    ground (arith, text_eq_iff k id, ids_of_untracked j id m, ids_of_other j id m event)

pub has_unsettled_of_get :
    (id : Text) (m : Map PredictionEvent) (event : PredictionEvent)
    → Map.get id m ≡ some event
    → (event.bet_placed && is_empty event.result_type) ≡ true
    → has_unsettled event.streamer.channel_id m ≡ true
unfolding has_unsettled Map.get
has_unsettled_of_get id [] event h unsettled = ground arith
has_unsettled_of_get id ((k, v) ∷ m) event h unsettled =
    ground (arith, text_eq_refl event.streamer.channel_id, has_unsettled_of_get id m event)
