-- ===== src/Runtime/Dedupe.antt =====
-- crates/tm-runtime/src/state.rs: the bounded queues of identities that were seen before. A queue
-- of point-event keys also holds the markers of prediction stakes, which no ordinary key pushes out.
pub mod Bounds
pub mod Markers
pub mod Repeats
use twitch_miner_rust.Base.{
  ℕ, zero, suc, Bool, true, false, not, ◌||◌, none, some, List, [], ◌∷◌, ◌++◌, length, position,
  remove_at, retain, pop_front, leb, ◌==◌, if◌then◌else◌,
}
use twitch_miner_rust.Base.Text.{Text, text_eq, str, starts_with, contains, is_blank}

abbrev pub max_active_predictions_per_channel : ℕ
max_active_predictions_per_channel = 8

abbrev pub max_active_predictions : ℕ
max_active_predictions = 256

abbrev pub max_completed_predictions : ℕ
max_completed_predictions = 256

abbrev pub max_retired_streamers : ℕ
max_retired_streamers = 256

abbrev pub max_processed_mutation_ids : ℕ
max_processed_mutation_ids = 128

-- `MAX_ACTIVE_PREDICTIONS + MAX_COMPLETED_PREDICTIONS`.
abbrev pub max_protected_prediction_markers : ℕ
max_protected_prediction_markers = 512

-- `key.starts_with("prediction:")`.
unfoldable pub is_protected : Text → Bool
is_protected key = starts_with key (str "prediction:")

abbrev pub is_ordinary : Text → Bool
is_ordinary key = not (is_protected key)

-- `prediction_deduction_marker`.
unfoldable pub prediction_deduction_marker : Text → Text
prediction_deduction_marker event_id = str "prediction:" ++ event_id

unfoldable pub ordinary_count : List Text → ℕ
ordinary_count values = length (retain is_ordinary values)

unfoldable pub protected_count : List Text → ℕ
protected_count values = length (retain is_protected values)

-- The loop that makes room for one more ordinary key, on fuel: the queue that it leaves, and
-- false where it returns early, with no ordinary key to remove, or runs out of fuel.
unfoldable pub make_room : ℕ → List Text → List Text × Bool
unfolding ordinary_count
make_room zero values = (values, false)
make_room (suc fuel) values = elim (leb max_processed_mutation_ids (ordinary_count values)) [
  | false ↦ (values, true)
  | true ↦ elim (position is_ordinary values) [
    | none ↦ (values, false)
    | some index ↦ make_room fuel (remove_at index values)
  ]
]

-- Each round removes one key, so the fuel is never used up.
unfoldable pub push_with_room : List Text → Text → List Text × Bool
unfolding make_room
push_with_room values value =
    let (kept, room) = make_room (suc (length values)) values in
    if room then (kept ++ value ∷ [], true) else (kept, false)

-- `remember_mutation_id`: the queue, and whether the identity is new.
unfoldable pub remember_mutation_id : List Text → Text → List Text × Bool
unfolding push_with_room
remember_mutation_id values value =
    if is_blank value || contains values value then (values, false) else push_with_room values value

-- `prediction_deduction_marker_exists`, of the keys of a streamer.
unfoldable pub prediction_deduction_marker_exists : List Text → Text → Bool
prediction_deduction_marker_exists values event_id =
    contains values (prediction_deduction_marker event_id)

-- `remember_prediction_deduction`.
unfoldable pub remember_prediction_deduction : List Text → Text → List Text × Bool
unfolding push_with_room protected_count
remember_prediction_deduction values event_id =
    if contains values (prediction_deduction_marker event_id)
    then (values, false)
    else if leb max_protected_prediction_markers (protected_count values)
    then (values, false)
    else push_with_room values (prediction_deduction_marker event_id)

-- `remember_prediction_id`.
unfoldable pub remember_prediction_id : List Text → Text → List Text × Bool
remember_prediction_id values value =
    if is_blank value || contains values value then (values, false) else (
      (if length values == max_active_predictions then pop_front values else values) ++ value ∷ [],
      true,
    )

-- `retain(|id| id != forgotten)`.
unfoldable pub forget : Text → List Text → List Text
forget forgotten = retain (λ key. not (text_eq key forgotten))
