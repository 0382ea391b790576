-- ===== src/Runtime/Dedupe/Bounds.antt =====
-- The queues stay bounded, keep every protected marker, and answer true exactly for what is new.
use twitch_miner_rust.Base.{
  ℕ, zero, suc, ◌≤◌, ◌<◌, ◌≡◌, refl, ap, sym, ◌∙◌, ◌⊎◌, inl, inr, Bool, true, false, not, ◌||◌,
  some, List, [], ◌∷◌, ◌++◌, arith, length, position, remove_at, retain, any, leb, leb→le,
  leb-false, Bool-cases, retain-append, length-append, length-retain, position_of_any,
  length-retain-remove_at, retain-not-remove_at, any_of_retain,
}
use twitch_miner_rust.Base.Text.{Text, contains, is_blank}
use twitch_miner_rust.Runtime.Dedupe.{
  max_processed_mutation_ids, max_protected_prediction_markers, is_protected, is_ordinary,
  prediction_deduction_marker, ordinary_count, protected_count, make_room, push_with_room,
  remember_mutation_id, prediction_deduction_marker_exists, remember_prediction_deduction,
}

retain-not-not {ℓ} :
    {A : Type ℓ} (p : A → Bool) (xs : List A) → retain (λ x. not (not (p x))) xs ≡ retain p xs
retain-not-not p [] = refl
retain-not-not p (x ∷ xs) = ground (arith, retain-not-not p xs)

-- One round: there is an ordinary key to remove, and the protected ones stay.
protected-remove_at :
    (values : List Text) (i : ℕ)
    → position is_ordinary values ≡ some i
    → retain is_protected (remove_at i values) ≡ retain is_protected values
protected-remove_at values i h =
    sym (retain-not-not is_protected (remove_at i values))
    ∙ retain-not-remove_at is_ordinary values i h
    ∙ retain-not-not is_protected values

-- What the loop leaves.
record HasRoom (values kept : List Text) : Type 0 where
  room : ordinary_count kept < max_processed_mutation_ids
  same_protected : retain is_protected kept ≡ retain is_protected values

ordinary_of_full :
    (values : List Text)
    → leb max_processed_mutation_ids (ordinary_count values) ≡ true
    → any is_ordinary values ≡ true
unfolding ordinary_count
ordinary_of_full values e = any_of_retain is_ordinary values (omega (arith, leb→le _ _ e))

ordinary_count-remove_at :
    (values : List Text) (i : ℕ)
    → position is_ordinary values ≡ some i
    → ordinary_count values ≡ suc (ordinary_count (remove_at i values))
unfolding ordinary_count
ordinary_count-remove_at values i h = length-retain-remove_at is_ordinary values i h

ordinary_count-snoc :
    (values : List Text) (value : Text)
    → ordinary_count (values ++ value ∷ []) ≤ suc (ordinary_count values)
unfolding ordinary_count
ordinary_count-snoc values value = ground (
  arith,
  retain-append is_ordinary values (value ∷ []),
  length-append (retain is_ordinary values) (retain is_ordinary (value ∷ [])),
)

make_room-HasRoom :
    (fuel : ℕ) (values : List Text)
    → ordinary_count values < fuel
    → ((make_room fuel values).1 ≡ true) × HasRoom values (make_room fuel values).0
unfolding make_room
make_room-HasRoom zero values h = absurd (omega arith)
make_room-HasRoom (suc fuel) values h =
    elim (Bool-cases (leb max_processed_mutation_ids (ordinary_count values))) [
      | inl e ↦
          let found = position_of_any is_ordinary values (ordinary_of_full values e) in
          let (more, rest) =
            make_room-HasRoom fuel (remove_at found.0 values)
              (ground (arith, ordinary_count-remove_at values found.0 found.1)) in
          rw (e, make_room, found.1)
            (
              more,
              record {
                room = rest.room;
                same_protected = rest.same_protected ∙ protected-remove_at values found.0 found.1;
              },
            )
      | inr e ↦ rw (e, make_room) (refl, record { room = leb-false _ _ e; same_protected = refl })
    ]

-- With room made, the new key stands last.
pub record IsPushed (values pushed : List Text) (value : Text) : Type 0 where
  pub bounded : ordinary_count pushed ≤ max_processed_mutation_ids
  pub last : (kept : List Text) × (pushed ≡ kept ++ value ∷ [])
  pub protected : retain is_protected pushed ≡ retain is_protected (values ++ value ∷ [])

push_with_room-IsPushed :
    (values : List Text) (value : Text)
    → ((push_with_room values value).1 ≡ true)
      × IsPushed values (push_with_room values value).0 value
unfolding push_with_room
push_with_room-IsPushed values value =
    let (more, rest) =
      make_room-HasRoom (suc (length values)) values
        (unfold ordinary_count in omega (arith, length-retain is_ordinary values)) in
    let kept = (make_room (suc (length values)) values).0 in
    rw (more, push_with_room)
      (
        refl,
        record {
          bounded = omega (arith, rest.room, ordinary_count-snoc kept value);
          last = (kept, refl);
          protected =
              retain-append is_protected kept (value ∷ [])
              ∙ ap (λ l. l ++ retain is_protected (value ∷ [])) rest.same_protected
              ∙ sym (retain-append is_protected values (value ∷ []));
        },
      )

-- A refused identity leaves the queue alone; an accepted one is pushed.
abbrev pub Remembers : Bool → List Text → Text → List Text × Bool → Type 0
Remembers fresh values value (after, added) =
    ((fresh ≡ false) × (added ≡ false) × (after ≡ values))
    ⊎ ((fresh ≡ true) × (added ≡ true) × IsPushed values after value)

-- `remember_mutation_id` accepts exactly what is not blank and not in the queue. Then the identity
-- stands last, at most 128 ordinary keys are left, and the protected markers stand as before, with
-- the identity behind them if it is protected. Otherwise nothing changes.
pub remember_mutation_id-Remembers :
    (values : List Text) (value : Text)
    → Remembers
        (not (is_blank value || contains values value))
        values
        value
        (remember_mutation_id values value)
unfolding remember_mutation_id
remember_mutation_id-Remembers values value =
    elim (Bool-cases (is_blank value || contains values value)) [
      | inl e ↦ rw (e, remember_mutation_id) (inl (refl, refl, refl))
      | inr e ↦
          let (more, pushed) = push_with_room-IsPushed values value in
          rw (e, remember_mutation_id) (inr (refl, more, pushed))
    ]

-- `remember_prediction_deduction` accepts exactly an event without a marker, while there are fewer
-- than 512 protected markers. Then its marker stands last, at most 128 ordinary keys are left, and
-- the protected markers are those of before and the new one. Otherwise nothing changes.
pub remember_prediction_deduction-Remembers :
    (values : List Text) (event_id : Text)
    → Remembers
        (not (
          prediction_deduction_marker_exists values event_id
          || leb max_protected_prediction_markers (protected_count values)))
        values
        (prediction_deduction_marker event_id)
        (remember_prediction_deduction values event_id)
unfolding remember_prediction_deduction prediction_deduction_marker_exists
remember_prediction_deduction-Remembers values event_id =
    let marker = prediction_deduction_marker event_id in
    elim (Bool-cases (contains values marker)) [
      | inl e ↦ rw (e, remember_prediction_deduction) (inl (refl, refl, refl))
      | inr e ↦ elim (Bool-cases (leb max_protected_prediction_markers (protected_count values))) [
        | inl f ↦ rw (e, f, remember_prediction_deduction) (inl (refl, refl, refl))
        | inr f ↦
            let (more, pushed) = push_with_room-IsPushed values marker in
            rw (e, f, remember_prediction_deduction) (inr (refl, more, pushed))
      ]
    ]
