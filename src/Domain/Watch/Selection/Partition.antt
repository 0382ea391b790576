-- ===== src/Domain/Watch/Selection/Partition.antt =====
-- The last sort of `pick_streamers_to_watch` as a partition.
use Prim.Native.Nat.{Ordering}
use twitch_miner_rust.Base.{
  ℕ, ◌≡◌, refl, ap, inl, inr, Bool, true, false, not, List, [], ◌∷◌, ◌++◌, retain, Bool-cases,
}
use twitch_miner_rust.Base.Sort.{insert_by, sort_by}
use twitch_miner_rust.Domain.Streamer.{Streamer}
use twitch_miner_rust.Domain.Watch.Pick.{discovered_last}
use twitch_miner_rust.Domain.Watch.Ranking.{streamer_at, compare_bool}

-- Whether the channel at an index is a discovered one.
unfoldable pub is_discovered : List Streamer → ℕ → Bool
is_discovered streamers idx = (streamer_at streamers idx).discovered

module _ {ℓ} {A : Type ℓ} (f : A → Bool) where
  abbrev pub by_flag : A → A → Ordering
  by_flag left right = compare_bool (f left) (f right)

  insert_by-unflagged : (x : A) (ys : List A) → f x ≡ false → insert_by by_flag x ys ≡ x ∷ ys
  unfolding insert_by compare_bool
  insert_by-unflagged x [] h = refl
  insert_by-unflagged x (y ∷ ys) h = elim (Bool-cases (f y)) [
    | inl e ↦ rw (e, h) refl
    | inr e ↦ rw (e, h) refl
  ]

  insert_by-flagged :
      (x : A) (xs : List A) → f x ≡ true → insert_by by_flag x (retain f xs) ≡ x ∷ retain f xs
  unfolding insert_by compare_bool
  insert_by-flagged x [] h = refl
  insert_by-flagged x (y ∷ ys) h = elim (Bool-cases (f y)) [
    | inl e ↦ rw (e, e, h) refl
    | inr e ↦ rw e (insert_by-flagged x ys h)
  ]

  insert_by-past :
      (x : A) (xs zs : List A)
      → f x ≡ true
      → insert_by by_flag x (retain (λ y. not (f y)) xs ++ zs)
        ≡ retain (λ y. not (f y)) xs ++ insert_by by_flag x zs
  unfolding insert_by compare_bool
  insert_by-past x [] zs h = refl
  insert_by-past x (y ∷ ys) zs h = elim (Bool-cases (f y)) [
    | inl e ↦ rw e (insert_by-past x ys zs h)
    | inr e ↦ rw (e, e, h) (ap (λ rest. y ∷ rest) (insert_by-past x ys zs h))
  ]

  -- Sorting by a flag moves the flagged elements behind the others and keeps both in their order.
  pub sort_by-partition :
      (xs : List A) → sort_by by_flag xs ≡ retain (λ y. not (f y)) xs ++ retain f xs
  unfolding sort_by
  sort_by-partition [] = refl
  sort_by-partition (x ∷ xs) = elim (Bool-cases (f x)) [
    | inl e ↦
        rw (e, sort_by-partition xs, insert_by-past x xs (retain f xs) e, insert_by-flagged x xs e)
          refl
    | inr e ↦
        rw
          (
            e,
            sort_by-partition xs,
            insert_by-unflagged x (retain (λ y. not (f y)) xs ++ retain f xs) e,
          )
          refl
  ]

pub discovered_last-partition :
    (streamers : List Streamer) (selected : List ℕ)
    → discovered_last streamers selected
      ≡ retain (λ i. not (is_discovered streamers i)) selected
        ++ retain (is_discovered streamers) selected
unfolding discovered_last is_discovered
discovered_last-partition streamers selected = sort_by-partition (is_discovered streamers) selected
