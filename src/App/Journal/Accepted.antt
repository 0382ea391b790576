-- ===== src/App/Journal/Accepted.antt =====
-- The placements that `validate_pending` accepts, kept by pruning and by an insertion.
use twitch_miner_rust.Base.{
  ℕ, suc, ◌≤◌, ◌≡◌, refl, inl, inr, arith, Bool, true, false, ◌&&◌, none, some, [], ◌∷◌,
  if◌then◌else◌, is_empty, leb, ltb, Bool-cases,
}
use twitch_miner_rust.Base.Int.{ℤ}
use twitch_miner_rust.Base.Map.{Map}
use twitch_miner_rust.Base.Map
use twitch_miner_rust.Base.Text.{Text, text_eq}
use twitch_miner_rust.App.Journal.{
  max_pending_placements, PendingPlacement, unresolved_overflow, invalid_entry, keeps,
  unresolved_count, is_valid_entry, are_valid_entries, validate_pending, retained,
}

pub and_left : (a b : Bool) → (a && b) ≡ true → a ≡ true
and_left a b h = ground (arith, h)

pub and_right : (a b : Bool) → (a && b) ≡ true → b ≡ true
and_right a b h = ground (arith, h)

-- What `validate_pending` accepts.
unfoldable pub is_accepted : Map PendingPlacement → Bool
is_accepted m = leb (unresolved_count m) max_pending_placements && are_valid_entries m

pub validate-accepted :
    (m : Map PendingPlacement) → is_accepted m ≡ true → validate_pending m ≡ none
unfolding is_accepted validate_pending
validate-accepted m h =
    rw
      (
        not_over (unresolved_count m) (are_valid_entries m) h,
        valid_part (unresolved_count m) (are_valid_entries m) h,
      )
      refl
  where
    not_over : (n : ℕ) (b : Bool) → (leb n 128 && b) ≡ true → ltb 128 n ≡ false
    not_over n b h = ground (arith, h)

    valid_part : (n : ℕ) (b : Bool) → (leb n 128 && b) ≡ true → b ≡ true
    valid_part n b h = ground (arith, h)

pub accepted-validate :
    (m : Map PendingPlacement) → validate_pending m ≡ none → is_accepted m ≡ true
unfolding is_accepted validate_pending
accepted-validate m h = accepted_parts (unresolved_count m) (are_valid_entries m) h
  where
    accepted_parts :
        (n : ℕ) (b : Bool)
        → (if ltb 128 n then some unresolved_overflow else if b then none else some invalid_entry)
          ≡ none
        → (leb n 128 && b) ≡ true
    accepted_parts n b h = ground (arith, h)

pub unresolved_count-insert :
    (k : Text) (entry : PendingPlacement) (m : Map PendingPlacement)
    → unresolved_count (Map.insert k entry m) ≤ suc (unresolved_count m)
unfolding unresolved_count Map.insert
unresolved_count-insert k entry [] = ground arith
unresolved_count-insert k entry ((j, e) ∷ m) = ground (arith, unresolved_count-insert k entry m)

pub are_valid_entries-insert :
    (k : Text) (entry : PendingPlacement) (m : Map PendingPlacement)
    → is_valid_entry k entry ≡ true
    → are_valid_entries m ≡ true
    → are_valid_entries (Map.insert k entry m) ≡ true
unfolding are_valid_entries Map.insert
are_valid_entries-insert k entry [] h g = rw h refl
are_valid_entries-insert k entry ((j, e) ∷ m) h g = elim (Bool-cases (text_eq j k)) [
  | inl f ↦ rw (f, h, and_right (is_valid_entry j e) (are_valid_entries m) g) refl
  | inr f ↦
      rw
        (
          f,
          and_left (is_valid_entry j e) (are_valid_entries m) g,
          are_valid_entries-insert k entry m h
              (and_right (is_valid_entry j e) (are_valid_entries m) g),
        )
        refl
]

pub unresolved_count-retained :
    (cutoff : ℤ) (m : Map PendingPlacement)
    → unresolved_count (retained cutoff m) ≤ unresolved_count m
unfolding unresolved_count retained
unresolved_count-retained cutoff [] = omega arith
unresolved_count-retained cutoff ((j, e) ∷ m) = ground (arith, unresolved_count-retained cutoff m)

pub are_valid_entries-retained :
    (cutoff : ℤ) (m : Map PendingPlacement)
    → are_valid_entries m ≡ true
    → are_valid_entries (retained cutoff m) ≡ true
unfolding are_valid_entries retained
are_valid_entries-retained cutoff [] g = refl
are_valid_entries-retained cutoff ((j, e) ∷ m) g = elim (Bool-cases (keeps cutoff e)) [
  | inl f ↦
      rw
        (
          f,
          and_left (is_valid_entry j e) (are_valid_entries m) g,
          are_valid_entries-retained cutoff m
              (and_right (is_valid_entry j e) (are_valid_entries m) g),
        )
        refl
  | inr f ↦
      rw f (
        are_valid_entries-retained cutoff m
          (and_right (is_valid_entry j e) (are_valid_entries m) g))
]

pub accepted-retained :
    (cutoff : ℤ) (m : Map PendingPlacement)
    → is_accepted m ≡ true
    → is_accepted (retained cutoff m) ≡ true
unfolding is_accepted
accepted-retained cutoff m h =
    rw
      (are_valid_entries-retained cutoff m
        (and_right (leb (unresolved_count m) 128) (are_valid_entries m) h))
      (fewer (unresolved_count (retained cutoff m)) (unresolved_count m)
        (unresolved_count-retained cutoff m)
        (and_left (leb (unresolved_count m) 128) (are_valid_entries m) h))
  where
    fewer : (a b : ℕ) → a ≤ b → leb b 128 ≡ true → (leb a 128 && true) ≡ true
    fewer a b less h = ground (arith, less, h)

pub accepted-insert :
    (k : Text) (entry : PendingPlacement) (m : Map PendingPlacement)
    → is_valid_entry k entry ≡ true
    → leb max_pending_placements (unresolved_count m) ≡ false
    → is_accepted m ≡ true
    → is_accepted (Map.insert k entry m) ≡ true
unfolding is_accepted
accepted-insert k entry m valid room h =
    rw
      (are_valid_entries-insert k entry m valid
        (and_right (leb (unresolved_count m) 128) (are_valid_entries m) h))
      (one_more (unresolved_count (Map.insert k entry m)) (unresolved_count m)
        (unresolved_count-insert k entry m) room)
  where
    one_more : (a b : ℕ) → a ≤ suc b → leb 128 b ≡ false → (leb a 128 && true) ≡ true
    one_more a b less h = ground (arith, less, h)

pub is_empty-insert :
    (k : Text) (entry : PendingPlacement) (m : Map PendingPlacement)
    → is_empty (Map.insert k entry m) ≡ false
unfolding Map.insert
is_empty-insert k entry [] = refl
is_empty-insert k entry ((j, e) ∷ m) = elim (Bool-cases (text_eq j k)) [
  | inl f ↦ rw f refl
  | inr f ↦ rw f refl
]
