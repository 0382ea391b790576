-- ===== src/Base/Lists.antt =====
-- Vectors and deques as lists: measured by native numbers, searched by a Boolean test.
use Prim.Native.Nat.{ℕ, zero, suc, ◌+◌, ◌≤◌, ◌<◌}
use mathlib.Core.Path.{◌≡◌, refl, ap}
use mathlib.Core.Bool.{Bool, true, false, not, ◌||◌}
use mathlib.Core.Logic.{inl, inr}
use mathlib.Core.List.{List, [], ◌∷◌, ◌++◌}
use mathlib.Core.Option.{Option, none, some}
use native.Mathlib.Omega.{arith}
use twitch_miner_rust.Base.Tests.{if◌then◌else◌, Bool-cases}

abbrev pub shift : Option ℕ → Option ℕ
shift none = none
shift (some i) = some (suc i)

module _ {ℓ} {A : Type ℓ} where
  abbrev pub length : List A → ℕ
  length [] = 0
  length (x ∷ xs) = suc (length xs)

  abbrev pub is_empty : List A → Bool
  is_empty [] = true
  is_empty (x ∷ xs) = false

  abbrev pub get_elem? : List A → ℕ → Option A
  get_elem? [] i = none
  get_elem? (x ∷ xs) zero = some x
  get_elem? (x ∷ xs) (suc i) = get_elem? xs i

  -- `Iterator::any`.
  abbrev pub any : (A → Bool) → List A → Bool
  any p [] = false
  any p (x ∷ xs) = p x || any p xs

  -- `Iterator::find`.
  abbrev pub find : (A → Bool) → List A → Option A
  find p [] = none
  find p (x ∷ xs) = let rest = find p xs in if p x then some x else rest

  -- `Iterator::position`.
  abbrev pub position : (A → Bool) → List A → Option ℕ
  position p [] = none
  position p (x ∷ xs) = let rest = shift (position p xs) in if p x then some 0 else rest

  -- `VecDeque::remove` and `Vec::remove`, at an index in range.
  abbrev pub remove_at : ℕ → List A → List A
  remove_at i [] = []
  remove_at zero (x ∷ xs) = xs
  remove_at (suc i) (x ∷ xs) = x ∷ remove_at i xs

  -- `retain`, and `Iterator::filter`.
  abbrev pub retain : (A → Bool) → List A → List A
  retain p [] = []
  retain p (x ∷ xs) = let rest = retain p xs in if p x then x ∷ rest else rest

  -- `pop_front`, its element dropped.
  abbrev pub pop_front : List A → List A
  pop_front [] = []
  pop_front (x ∷ xs) = xs

  pub length-append : (xs ys : List A) → length (xs ++ ys) ≡ length xs + length ys
  length-append [] ys = omega arith
  length-append (x ∷ xs) ys = omega (arith, length-append xs ys)

  pub length-snoc : (xs : List A) (x : A) → length (xs ++ x ∷ []) ≡ suc (length xs)
  length-snoc [] x = refl
  length-snoc (y ∷ xs) x = ap suc (length-snoc xs x)

  pub length-retain : (p : A → Bool) (xs : List A) → length (retain p xs) ≤ length xs
  length-retain p [] = omega arith
  length-retain p (x ∷ xs) = ground (arith, length-retain p xs)

  pub retain-append :
      (p : A → Bool) (xs ys : List A) → retain p (xs ++ ys) ≡ retain p xs ++ retain p ys
  retain-append p [] ys = refl
  retain-append p (x ∷ xs) ys = ground (arith, retain-append p xs ys)

  pub any-append : (p : A → Bool) (xs ys : List A) → any p (xs ++ ys) ≡ (any p xs || any p ys)
  any-append p [] ys = refl
  any-append p (x ∷ xs) ys = ground (arith, any-append p xs ys)

  -- What is found passes the test.
  pub find_passes : (p : A → Bool) (xs : List A) (x : A) → find p xs ≡ some x → p x ≡ true
  find_passes p [] x h = ground arith
  find_passes p (y ∷ xs) x h = ground (arith, find_passes p xs x)

  -- A test that some element passes has a first position.
  pub position_of_any :
      (p : A → Bool) (xs : List A) → any p xs ≡ true → (i : ℕ) × (position p xs ≡ some i)
  position_of_any p [] h = ground arith
  position_of_any p (x ∷ xs) h = elim (Bool-cases (p x)) [
    | inl e ↦ (0, rw e refl)
    | inr e ↦ let found = position_of_any p xs (ground arith) in (suc found.0, rw (e, found.1) refl)
  ]

  -- Removing at that position drops one element that passes, and none of the others.
  pub length-retain-remove_at :
      (p : A → Bool) (xs : List A) (i : ℕ)
      → position p xs ≡ some i
      → length (retain p xs) ≡ suc (length (retain p (remove_at i xs)))
  length-retain-remove_at p [] i h = ground arith
  length-retain-remove_at p (x ∷ xs) zero h = ground arith
  length-retain-remove_at p (x ∷ xs) (suc i) h = ground (arith, length-retain-remove_at p xs i)

  pub retain-not-remove_at :
      (p : A → Bool) (xs : List A) (i : ℕ)
      → position p xs ≡ some i
      → retain (λ x. not (p x)) (remove_at i xs) ≡ retain (λ x. not (p x)) xs
  retain-not-remove_at p [] i h = ground arith
  retain-not-remove_at p (x ∷ xs) zero h = ground arith
  retain-not-remove_at p (x ∷ xs) (suc i) h = ground (arith, retain-not-remove_at p xs i)

  pub any_of_retain : (p : A → Bool) (xs : List A) → 0 < length (retain p xs) → any p xs ≡ true
  any_of_retain p [] h = ground arith
  any_of_retain p (x ∷ xs) h = ground (arith, any_of_retain p xs)
