-- ===== src/Domain/Prediction/Choice/Maximum.antt =====
-- What the scans choose: an index in range, and of the integer keys the first greatest.
use twitch_miner_rust.Base.{
  ℕ, zero, suc, ◌+◌, ◌≤◌, ◌<◌, ◌≡◌, refl, Bool, true, false, Option, none, some, List, [], ◌∷◌,
  arith, get_elem?, length, is_some, ltb→lt, Bool-cases, if◌then◌else◌, ◌⊎◌, inl, inr,
}
use twitch_miner_rust.Base.Int.{ℤ, ltb_ℤ, ◌≤ℤ◌, ◌<ℤ◌}
use twitch_miner_rust.Domain.Float.{F64, f64_lt}
use twitch_miner_rust.Domain.Platform.{Platform}
use twitch_miner_rust.Domain.Settings.{Strategy, number1, most_voted, BetSettings}
use twitch_miner_rust.Domain.PredictionEvent.{PredictionOutcome}
use twitch_miner_rust.Domain.Prediction.Choice.{
  scan_max, max_index, max_index_by_key, number_choice, smart_choice, choose, select_outcome,
}

-- The scan ends at the best index that it starts from, or at one of the elements left.
scan_max_range {ℓ} :
    {A : Type ℓ} (greater : A → A → Bool) (score : PredictionOutcome → A)
    (os : List PredictionOutcome) (index best_index : ℕ) (best : A) (n : ℕ)
    → best_index < n
    → index + length os ≤ n
    → scan_max greater score os index best_index best < n
unfolding scan_max
scan_max_range greater score [] index best_index best n h k = h
scan_max_range greater score (o ∷ os) index best_index best n h k =
    elim (Bool-cases (greater (score o) best)) [
      | inl e ↦ rw e (
          scan_max_range greater score os (index + 1) index (score o) n (omega arith) (omega arith))
      | inr e ↦ rw e (scan_max_range greater score os (index + 1) best_index best n h (omega arith))
    ]

-- A choice names an outcome.
abbrev IsInRange : List PredictionOutcome → Option ℕ → Type 0
IsInRange outcomes none = Unit {0}
IsInRange outcomes (some i) = i < length outcomes

max_index-IsInRange :
    (outcomes : List PredictionOutcome) (scorer : PredictionOutcome → F64)
    → IsInRange outcomes (max_index outcomes scorer)
unfolding max_index
max_index-IsInRange [] scorer = tt
max_index-IsInRange (o ∷ os) scorer =
    scan_max_range (λ candidate best. f64_lt best candidate) scorer os 1 0 (scorer o) _
      (omega arith) (omega arith)

max_index_by_key-IsInRange :
    (outcomes : List PredictionOutcome) (key : PredictionOutcome → ℤ)
    → IsInRange outcomes (max_index_by_key outcomes key)
unfolding max_index_by_key
max_index_by_key-IsInRange [] key = tt
max_index_by_key-IsInRange (o ∷ os) key =
    scan_max_range (λ candidate best. ltb_ℤ best candidate) key os 1 0 (key o) _ (omega arith)
      (omega arith)

get_elem?_range {ℓ} :
    {A : Type ℓ} (xs : List A) (i : ℕ) → is_some (get_elem? xs i) ≡ true → i < length xs
get_elem?_range [] i h = ground arith
get_elem?_range (x ∷ xs) zero h = omega arith
get_elem?_range (x ∷ xs) (suc i) h = omega (arith, get_elem?_range xs i h)

number_choice-IsInRange :
    (outcomes : List PredictionOutcome) (index : ℕ)
    → IsInRange outcomes (number_choice outcomes index)
unfolding number_choice
number_choice-IsInRange outcomes index = elim (Bool-cases (is_some (get_elem? outcomes index))) [
  | inl e ↦ rw e (get_elem?_range outcomes index e)
  | inr e ↦ rw e (max_index-IsInRange outcomes (λ o. o.odds))
]

either-IsInRange :
    (outcomes : List PredictionOutcome) (test : Bool) (a b : Option ℕ)
    → IsInRange outcomes a
    → IsInRange outcomes b
    → IsInRange outcomes (if test then a else b)
either-IsInRange outcomes true a b h k = h
either-IsInRange outcomes false a b h k = k

smart_choice-IsInRange :
    (p : Platform) (outcomes : List PredictionOutcome) (settings : BetSettings)
    → IsInRange outcomes (smart_choice p outcomes settings)
unfolding smart_choice
smart_choice-IsInRange p outcomes settings =
    either-IsInRange outcomes _ _ _ (max_index-IsInRange outcomes (λ o. o.odds))
      (max_index_by_key-IsInRange outcomes (λ o. o.total_users))

choose-IsInRange :
    (p : Platform) (strategy : Strategy) (o : PredictionOutcome) (os : List PredictionOutcome)
    (settings : BetSettings)
    → IsInRange (o ∷ os) (choose p strategy (o ∷ os) settings)
unfolding choose
choose-IsInRange p number1 o os settings = omega arith
choose-IsInRange p most_voted o os settings =
    max_index_by_key-IsInRange (o ∷ os) (λ o. o.total_users)
choose-IsInRange p Strategy.high_odds o os settings = max_index-IsInRange (o ∷ os) (λ o. o.odds)
choose-IsInRange p Strategy.percentage o os settings =
    max_index-IsInRange (o ∷ os) (λ o. o.odds_percentage)
choose-IsInRange p Strategy.smart_money o os settings =
    max_index_by_key-IsInRange (o ∷ os) (λ o. o.top_points)
choose-IsInRange p Strategy.smart o os settings = smart_choice-IsInRange p (o ∷ os) settings
choose-IsInRange p Strategy.number2 o os settings = number_choice-IsInRange (o ∷ os) 1
choose-IsInRange p Strategy.number3 o os settings = number_choice-IsInRange (o ∷ os) 2
choose-IsInRange p Strategy.number4 o os settings = number_choice-IsInRange (o ∷ os) 3
choose-IsInRange p Strategy.number5 o os settings = number_choice-IsInRange (o ∷ os) 4
choose-IsInRange p Strategy.number6 o os settings = number_choice-IsInRange (o ∷ os) 5
choose-IsInRange p Strategy.number7 o os settings = number_choice-IsInRange (o ∷ os) 6
choose-IsInRange p Strategy.number8 o os settings = number_choice-IsInRange (o ∷ os) 7

-- Where a strategy chooses an outcome, it chooses an index in range.
pub select_outcome-IsInRange :
    (p : Platform) (outcomes : List PredictionOutcome) (settings : BetSettings) (i : ℕ)
    → select_outcome p outcomes settings ≡ some i
    → i < length outcomes
unfolding select_outcome
select_outcome-IsInRange p [] settings i h = ground arith
select_outcome-IsInRange p (o ∷ os) settings i h =
    rw h at (choose-IsInRange p settings.strategy o os settings)

-- The scan over the elements left keeps the best index, or moves to the first greatest of them.
abbrev Scanned : (PredictionOutcome → ℤ) → List PredictionOutcome → ℕ → ℕ → ℤ → ℕ → Type 0
Scanned key os index best_index best r =
    ((r ≡ best_index) × ((j : ℕ) (b : PredictionOutcome) → get_elem? os j ≡ some b → key b ≤ℤ best))
    ⊎ ((k : ℕ) × (a : PredictionOutcome) × (r ≡ index + k)
        × (get_elem? os k ≡ some a)
        × (best <ℤ key a)
        × ((j : ℕ) (b : PredictionOutcome)
            → get_elem? os j ≡ some b
            → (key b ≤ℤ key a) × (j < k → key b <ℤ key a)))

module _ (key : PredictionOutcome → ℤ) (o : PredictionOutcome) (os : List PredictionOutcome) where
  below_head :
      (limit : ℤ)
      → key o ≤ℤ limit
      → ((j : ℕ) (b : PredictionOutcome) → get_elem? os j ≡ some b → key b ≤ℤ limit)
      → (j : ℕ) (b : PredictionOutcome) → get_elem? (o ∷ os) j ≡ some b
      → key b ≤ℤ limit
  below_head limit h all zero b e = ground arith
  below_head limit h all (suc j) b e = all j b e

  below_tail :
      (k : ℕ) (limit : ℤ)
      → key o <ℤ limit
      → ((j : ℕ) (b : PredictionOutcome)
          → get_elem? os j ≡ some b
          → (key b ≤ℤ limit) × (j < k → key b <ℤ limit))
      → (j : ℕ) (b : PredictionOutcome) → get_elem? (o ∷ os) j ≡ some b
      → (key b ≤ℤ limit) × (j < suc k → key b <ℤ limit)
  below_tail k limit h all zero b e = ground arith
  below_tail k limit h all (suc j) b e = ((all j b e).0, λ lt. (all j b e).1 (omega arith))

  -- The head is greater than the best element so far.
  Scanned-moved :
      (index best_index : ℕ) (best : ℤ) (r : ℕ)
      → best <ℤ key o
      → Scanned key os (index + 1) index (key o) r
      → Scanned key (o ∷ os) index best_index best r
  Scanned-moved index best_index best r less (inl (e, all)) = inr (
    0,
    o,
    omega arith,
    refl,
    less,
    λ j b h. (below_head (key o) (omega arith) all j b h, λ lt. absurd (omega arith)),
  )
  Scanned-moved index best_index best r less (inr (k, a, e, found, more, all)) =
      inr (suc k, a, omega arith, found, omega arith, below_tail k (key a) more all)

  -- The head is not.
  Scanned-kept :
      (index best_index : ℕ) (best : ℤ) (r : ℕ)
      → key o ≤ℤ best
      → Scanned key os (index + 1) best_index best r
      → Scanned key (o ∷ os) index best_index best r
  Scanned-kept index best_index best r less (inl (e, all)) = inl (e, below_head best less all)
  Scanned-kept index best_index best r less (inr (k, a, e, found, more, all)) =
      inr (suc k, a, omega arith, found, more, below_tail k (key a) (omega arith) all)

abbrev greater_key : ℤ → ℤ → Bool
greater_key candidate best = ltb_ℤ best candidate

scan_max-Scanned :
    (key : PredictionOutcome → ℤ) (os : List PredictionOutcome) (index best_index : ℕ) (best : ℤ)
    → Scanned key os index best_index best (scan_max greater_key key os index best_index best)
unfolding scan_max
scan_max-Scanned key [] index best_index best = inl (refl, λ j b h. ground arith)
scan_max-Scanned key (o ∷ os) index best_index best = elim (Bool-cases (ltb_ℤ best (key o))) [
  | inl e ↦ rw e (
      Scanned-moved key o os index best_index best _ (ltb→lt _ _ e)
        (scan_max-Scanned key os (index + 1) index (key o)))
  | inr e ↦ rw e (
      Scanned-kept key o os index best_index best _ (ground arith)
        (scan_max-Scanned key os (index + 1) best_index best))
]

-- The first of the outcomes with the greatest key.
abbrev pub IsFirstMax : (PredictionOutcome → ℤ) → List PredictionOutcome → ℕ → Type 0
IsFirstMax key outcomes i =
    (a : PredictionOutcome) × (get_elem? outcomes i ≡ some a)
    × ((j : ℕ) (b : PredictionOutcome)
        → get_elem? outcomes j ≡ some b
        → (key b ≤ℤ key a) × (j < i → key b <ℤ key a))

IsFirstMax-of_Scanned :
    (key : PredictionOutcome → ℤ) (o : PredictionOutcome) (os : List PredictionOutcome) (r : ℕ)
    → Scanned key os 1 0 (key o) r
    → IsFirstMax key (o ∷ os) r
IsFirstMax-of_Scanned key o os r (inl (z, all)) = rw z (
  o,
  refl,
  λ j b h. (below_head key o os (key o) (omega arith) all j b h, λ lt. absurd (omega arith)),
)
IsFirstMax-of_Scanned key o os r (inr (k, a, z, found, more, all)) =
    let e : r ≡ suc k = omega arith in rw e (a, found, below_tail key o os k (key a) more all)

-- Of integer keys the scan finds the first greatest: no key is greater than that of the chosen
-- outcome, and every earlier one is smaller.
pub max_index_by_key_first :
    (outcomes : List PredictionOutcome) (key : PredictionOutcome → ℤ) (i : ℕ)
    → max_index_by_key outcomes key ≡ some i
    → IsFirstMax key outcomes i
unfolding max_index_by_key
max_index_by_key_first [] key i h = ground arith
max_index_by_key_first (o ∷ os) key i h =
    let e : scan_max greater_key key os 1 0 (key o) ≡ i = ground arith in
    rw e at (IsFirstMax-of_Scanned key o os _ (scan_max-Scanned key os 1 0 (key o)))
