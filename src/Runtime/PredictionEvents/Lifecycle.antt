-- ===== src/Runtime/PredictionEvents/Lifecycle.antt =====
-- crates/tm-runtime/src/state.rs: a new prediction against the ones that are tracked.
use twitch_miner_rust.Base.{
  ◌||◌, not, is_empty, suc, ◌≤◌, ◌<◌, ◌≡◌, refl, ◌⊎◌, inl, inr, true, false, Option, none, some, [],
  ◌∷◌, arith, Bool-cases, Option-cases, length, leb,
}
use mathlib.Core.Path.{subst}
use twitch_miner_rust.Base.Map.{Map}
use twitch_miner_rust.Base.Map
use twitch_miner_rust.Base.Text.{Text, text_eq, text_eq_iff}
use twitch_miner_rust.Domain.PredictionEvent.{PredictionEvent}
use twitch_miner_rust.Runtime.Dedupe.{max_active_predictions, remember_prediction_id}
use twitch_miner_rust.Runtime.State.{RuntimeState}
use twitch_miner_rust.Runtime.PredictionEvents.{
  is_evictable, pick_older, oldest_evictable, oldest_evictable_prediction_id, track,
  on_event_created, admits, max_active_prediction_count,
}

pick_older_cases :
    (entry : Text × PredictionEvent) (rest : Option (Text × PredictionEvent))
    → (pick_older entry rest ≡ some entry) ⊎ (pick_older entry rest ≡ rest)
unfolding pick_older
pick_older_cases entry none = inl refl
pick_older_cases entry (some best) = ground arith

-- What is chosen for eviction is an entry of the map with no bet and no result.
oldest_evictable_found :
    (m : Map PredictionEvent) (entry : Text × PredictionEvent)
    → Map.is_keyed m ≡ true
    → oldest_evictable m ≡ some entry
    → (is_evictable entry.1 ≡ true) × (Map.get entry.0 m ≡ some entry.1)
unfolding oldest_evictable Map.is_keyed Map.get
oldest_evictable_found [] entry h e = ground arith
oldest_evictable_found (first ∷ m) entry h e = ground (
  arith,
  pick_older_cases first (oldest_evictable m),
  oldest_evictable_found m entry,
  text_eq_iff first.0 entry.0,
)

-- The entry that is removed for another one.
evicted_found :
    (state : RuntimeState) (evict_id : Text)
    → Map.is_keyed state.predictions ≡ true
    → oldest_evictable_prediction_id state ≡ some evict_id
    → (e : PredictionEvent) × (is_evictable e ≡ true)
      × (Map.get evict_id state.predictions ≡ some e)
unfolding oldest_evictable_prediction_id
evicted_found state evict_id keyed h = elim (Option-cases (oldest_evictable state.predictions)) [
  | inl e ↦ ground (arith, e)
  | inr (entry, e) ↦
      let found = oldest_evictable_found state.predictions entry keyed e in
      let same : entry.0 ≡ evict_id = ground (arith, e) in
      (entry.1, found.0, subst (λ k. Map.get k state.predictions ≡ some entry.1) same found.1)
]

track_keeps :
    (event : PredictionEvent) (state : RuntimeState) (id : Text)
    → text_eq event.event_id id ≡ false
    → Map.get id (track event state).0.predictions ≡ Map.get id state.predictions
unfolding track
track_keeps event state id other =
    elim (Bool-cases (remember_prediction_id state.processed_prediction_ids event.event_id).1) [
      | inl e ↦ rw (e, track, Map.get-insert event.event_id id, other) refl
      | inr e ↦ rw (e, track) refl
    ]

track_bounds :
    (event : PredictionEvent) (state : RuntimeState)
    → Map.is_keyed state.predictions ≡ true
    → (length (track event state).0.predictions ≤ suc (length state.predictions))
      × (Map.is_keyed (track event state).0.predictions ≡ true)
unfolding track
track_bounds event state keyed =
    elim (Bool-cases (remember_prediction_id state.processed_prediction_ids event.event_id).1) [
      | inl e ↦
          rw (e, track)
            (
              Map.length-insert event.event_id _ state.predictions,
              Map.is_keyed-insert event.event_id _ state.predictions keyed,
            )
      | inr e ↦ rw (e, track) (omega arith, keyed)
    ]

abbrev without : Text → RuntimeState → RuntimeState
without id state = record state { predictions = Map.remove id state.predictions }

-- What a new prediction does to the map: nothing, or it is tracked, after an eviction where the map is
-- full.
on_event_created_cases :
    (event : PredictionEvent) (state : RuntimeState)
    → let after = (on_event_created event state).0 in
      (after.predictions ≡ state.predictions)
      ⊎ ((length state.predictions < max_active_predictions) × (after ≡ (track event state).0))
      ⊎ ((evict_id : Text) × (oldest_evictable_prediction_id state ≡ some evict_id)
          × (after ≡ (track event (without evict_id state)).0))
unfolding on_event_created max_active_prediction_count
on_event_created_cases event state = elim (Bool-cases (admits event state)) [
  | inr e ↦ inl (rw (e, on_event_created) refl)
  | inl e ↦ elim (Bool-cases (leb (max_active_prediction_count state) (length state.predictions))) [
    | inr f ↦ inr (inl (ground (arith, f), rw (e, on_event_created, f) refl))
    | inl f ↦ elim (Option-cases (oldest_evictable_prediction_id state)) [
      | inl g ↦ inl (rw (e, on_event_created, f, g) refl)
      | inr (evict_id, g) ↦ inr (inr (evict_id, g, rw (e, on_event_created, f, g) refl))
    ]
  ]
]

-- A created event, also one that evicts a prediction from a full map, leaves every prediction of
-- another id as it is that has a bet, a confirmation or a result, where no id stands twice in the
-- map.
pub on_event_created_keeps :
    (event : PredictionEvent) (state : RuntimeState) (id : Text) (tracked : PredictionEvent)
    → Map.is_keyed state.predictions ≡ true
    → text_eq event.event_id id ≡ false
    → Map.get id state.predictions ≡ some tracked
    → (tracked.bet_placed || tracked.bet_confirmed || not (is_empty tracked.result_type)) ≡ true
    → Map.get id (on_event_created event state).0.predictions ≡ some tracked
unfolding is_evictable
on_event_created_keeps event state id tracked keyed other h kept =
    elim (on_event_created_cases event state) [
      | inl e ↦ rw e h
      | inr (inl (_, e)) ↦ rw (e, track_keeps event state id other) h
      | inr (inr (evict_id, g, e)) ↦
          let (evicted, may, found) = evicted_found state evict_id keyed g in
          let distinct : text_eq evict_id id ≡ false =
            ground (arith, text_eq_iff evict_id id, h, found, may, kept) in
          rw
            (
              e,
              track_keeps event (without evict_id state) id other,
              Map.get-remove evict_id id state.predictions,
              distinct,
            )
            h
    ]

-- A new prediction keeps the map of the active ones within 256 entries, no key standing twice.
pub on_event_created_bounds :
    (event : PredictionEvent) (state : RuntimeState)
    → Map.is_keyed state.predictions ≡ true
    → length state.predictions ≤ max_active_predictions
    → let after = (on_event_created event state).0 in
      (length after.predictions ≤ max_active_predictions) × (Map.is_keyed after.predictions ≡ true)
on_event_created_bounds event state keyed bound = elim (on_event_created_cases event state) [
  | inl e ↦ rw e (bound, keyed)
  | inr (inl (room, e)) ↦
      let (count, unique) = track_bounds event state keyed in rw e (omega (arith, count), unique)
  | inr (inr (evict_id, g, e)) ↦
      let (evicted, may, found) = evicted_found state evict_id keyed g in
      let (count, unique) =
        track_bounds event (without evict_id state)
          (Map.is_keyed-remove evict_id state.predictions keyed) in
      rw e (
        omega (arith, count, Map.length-remove_of_get evict_id state.predictions evicted found),
        unique,
      )
]

pub completed-on_event_created :
    (event : PredictionEvent) (state : RuntimeState)
    → (on_event_created event state).0.completed_predictions ≡ state.completed_predictions
unfolding on_event_created track
completed-on_event_created event state = ground arith
