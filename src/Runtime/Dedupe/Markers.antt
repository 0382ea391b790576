-- ===== src/Runtime/Dedupe/Markers.antt =====
-- crates/tm-runtime/src/state.rs: the markers of stakes stay in the queue of identities.
use twitch_miner_rust.Base.{
  ◌≡◌, refl, ap, sym, ◌∙◌, ◌⊎◌, inl, inr, Bool, true, false, not, ◌||◌, List, [], ◌∷◌, ◌++◌, arith,
  retain, leb,
}
use twitch_miner_rust.Base.Text.{
  contains-append, Text, text_eq_iff, text_eq_refl, starts_with-append, contains, str,
}
use twitch_miner_rust.Runtime.Dedupe.{
  max_protected_prediction_markers, is_protected, prediction_deduction_marker, protected_count,
  remember_mutation_id, prediction_deduction_marker_exists, remember_prediction_deduction,
}
use twitch_miner_rust.Runtime.Dedupe.Bounds.{
  IsPushed, Remembers, remember_mutation_id-Remembers, remember_prediction_deduction-Remembers,
}

pub contains-retain :
    (p : Text → Bool) (values : List Text) (value : Text)
    → p value ≡ true
    → contains (retain p values) value ≡ contains values value
unfolding contains
contains-retain p [] value h = refl
contains-retain p (v ∷ values) value h =
    ground (arith, text_eq_iff v value, contains-retain p values value)

contains-last : (values : List Text) (value : Text) → contains (values ++ value ∷ []) value ≡ true
unfolding contains
contains-last [] value = rw text_eq_refl
contains-last (v ∷ values) value = ground (arith, contains-last values value)

pub contains-IsPushed :
    (values pushed : List Text) (value : Text)
    → IsPushed values pushed value
    → contains pushed value ≡ true
contains-IsPushed values pushed value s = rw s.last.1 (contains-last s.last.0 value)

pub prediction_deduction_marker-is_protected :
    (event_id : Text) → is_protected (prediction_deduction_marker event_id) ≡ true
unfolding is_protected prediction_deduction_marker
prediction_deduction_marker-is_protected event_id = starts_with-append (str "prediction:") event_id

-- A protected key of the queue is still there once another key is pushed.
protected_survives :
    (values pushed : List Text) (value marker : Text)
    → IsPushed values pushed value
    → is_protected marker ≡ true
    → contains values marker ≡ true
    → contains pushed marker ≡ true
protected_survives values pushed value marker s p h =
    sym (contains-retain is_protected pushed marker p)
    ∙ ap (λ l. contains l marker) s.protected
    ∙ contains-retain is_protected (values ++ value ∷ []) marker p
    ∙ contains-append values (value ∷ []) marker
    ∙ rw h refl

Remembers-keeps :
    (fresh : Bool) (values : List Text) (value marker : Text) (after : List Text) (added : Bool)
    → Remembers fresh values value (after, added)
    → is_protected marker ≡ true
    → contains values marker ≡ true
    → contains after marker ≡ true
Remembers-keeps fresh values value marker after added (inl (_, _, e)) p h = rw e h
Remembers-keeps fresh values value marker after added (inr (_, _, s)) p h =
    protected_survives values after value marker s p h

-- The queue after a run of identities.
pub remember_all : List Text → List Text → List Text
remember_all values [] = values
remember_all values (id ∷ ids) = remember_all (remember_mutation_id values id).0 ids

pub marker-remember_mutation_id :
    (values : List Text) (value event_id : Text)
    → prediction_deduction_marker_exists values event_id ≡ true
    → prediction_deduction_marker_exists (remember_mutation_id values value).0 event_id ≡ true
unfolding prediction_deduction_marker_exists
marker-remember_mutation_id values value event_id h =
    Remembers-keeps _ values value (prediction_deduction_marker event_id) _ _
      (remember_mutation_id-Remembers values value)
      (prediction_deduction_marker-is_protected event_id) h

-- The marker of a stake that is in the queue stays there, however many identities are remembered
-- after it.
pub marker-remember_all :
    (ids values : List Text) (event_id : Text)
    → prediction_deduction_marker_exists values event_id ≡ true
    → prediction_deduction_marker_exists (remember_all values ids) event_id ≡ true
unfolding remember_all
marker-remember_all [] values event_id h = h
marker-remember_all (id ∷ ids) values event_id h =
    marker-remember_all ids _ event_id (marker-remember_mutation_id values id event_id h)

-- An event whose marker is there is refused, and one that is accepted has its marker there after.
pub remember_prediction_deduction_known :
    (values : List Text) (event_id : Text)
    → prediction_deduction_marker_exists values event_id ≡ true
    → remember_prediction_deduction values event_id ≡ (values, false)
unfolding remember_prediction_deduction prediction_deduction_marker_exists
remember_prediction_deduction_known values event_id h = rw (h, remember_prediction_deduction) refl

pub remember_prediction_deduction_cases :
    (values : List Text) (event_id : Text)
    → (remember_prediction_deduction values event_id ≡ (values, false))
      ⊎ ((keys : List Text) × (remember_prediction_deduction values event_id ≡ (keys, true))
          × (prediction_deduction_marker_exists keys event_id ≡ true))
unfolding prediction_deduction_marker_exists
remember_prediction_deduction_cases values event_id =
    elim (remember_prediction_deduction-Remembers values event_id) [
      | inl (_, added, same) ↦ inl (λ i. (same i, added i))
      | inr (_, added, pushed) ↦
          let keys = (remember_prediction_deduction values event_id).0 in
          inr (
            keys,
            λ i. (keys, added i),
            contains-IsPushed values keys (prediction_deduction_marker event_id) pushed,
          )
    ]

pub remember_prediction_deduction_fresh :
    (values : List Text) (event_id : Text)
    → (remember_prediction_deduction values event_id).1
      ≡ not (
          prediction_deduction_marker_exists values event_id
          || leb max_protected_prediction_markers (protected_count values))
remember_prediction_deduction_fresh values event_id =
    elim (remember_prediction_deduction-Remembers values event_id) [
      | inl (e, added, _) ↦ added ∙ sym e
      | inr (e, added, _) ↦ added ∙ sym e
    ]
