-- ===== src/Domain/Watch/Count.antt =====
-- How often an index stands in a list of indices and in a list of candidates.
use Prim.Native.Nat.{Ordering}
use twitch_miner_rust.Base.{
  ℕ, ◌+◌, ◌≤◌, ◌<◌, ◌≡◌, refl, inl, inr, arith, Bool, true, false, some, List, [], ◌∷◌, ◌++◌,
  length, if◌then◌else◌, any, find, retain, ◌==◌, Bool-cases, retain-append, length-append,
}
use twitch_miner_rust.Base.Sort.{insert_by, sort_by, is_lt}
use twitch_miner_rust.Domain.Watch.Candidates.{Candidate}
use twitch_miner_rust.Domain.Watch.Pick.{add_candidate, add_candidates}

-- How often an index stands in a list.
abbrev pub count : ℕ → List ℕ → ℕ
count i xs = length (retain (λ j. j == i) xs)

-- How many candidates have an index.
abbrev pub count_candidates : ℕ → List Candidate → ℕ
count_candidates i cs = length (retain (λ c. c.idx == i) cs)

-- One, unless there is none.
abbrev pub at_most_one : ℕ → ℕ
at_most_one n = if n == 0 then 0 else 1

-- How often a value stands in a list after it is added a number of times, unless it is there.
abbrev pub joined : ℕ → ℕ → ℕ
joined a b = if a == 0 then at_most_one b else a

module _ {ℓ} {A : Type ℓ} where
  length-retain-insert_by :
      (cmp : A → A → Ordering) (p : A → Bool) (x : A) (xs : List A)
      → length (retain p (insert_by cmp x xs)) ≡ length (retain p (x ∷ xs))
  unfolding insert_by
  length-retain-insert_by cmp p x [] = refl
  length-retain-insert_by cmp p x (y ∷ ys) = elim (Bool-cases (is_lt (cmp y x))) [
    | inl e ↦ rw e (ground (arith, length-retain-insert_by cmp p x ys))
    | inr e ↦ rw e refl
  ]

  -- Sorting keeps how many elements pass a test.
  pub length-retain-sort_by :
      (cmp : A → A → Ordering) (p : A → Bool) (xs : List A)
      → length (retain p (sort_by cmp xs)) ≡ length (retain p xs)
  unfolding sort_by
  length-retain-sort_by cmp p [] = refl
  length-retain-sort_by cmp p (x ∷ xs) =
      ground
        (arith, length-retain-insert_by cmp p x (sort_by cmp xs), length-retain-sort_by cmp p xs)

  -- A list that another test has thinned passes no more.
  pub length-retain-retain :
      (p q : A → Bool) (xs : List A) → length (retain p (retain q xs)) ≤ length (retain p xs)
  length-retain-retain p q [] = omega arith
  length-retain-retain p q (x ∷ xs) = ground (arith, length-retain-retain p q xs)

  -- What is found counts.
  pub length-retain-find :
      (p q : A → Bool) (xs : List A) (x : A)
      → find q xs ≡ some x
      → p x ≡ true
      → 0 < length (retain p xs)
  length-retain-find p q [] x h g = ground arith
  length-retain-find p q (y ∷ ys) x h g = ground (arith, length-retain-find p q ys x)

  pub length-retain-any : (p : A → Bool) (xs : List A) → any p xs ≡ true → 0 < length (retain p xs)
  length-retain-any p [] h = ground arith
  length-retain-any p (x ∷ xs) h = ground (arith, length-retain-any p xs)

  pub length-retain-any-false :
      (p : A → Bool) (xs : List A) → any p xs ≡ false → length (retain p xs) ≡ 0
  length-retain-any-false p [] h = ground arith
  length-retain-any-false p (x ∷ xs) h = ground (arith, length-retain-any-false p xs)

pub count-snoc : (i n : ℕ) (xs : List ℕ) → count i (xs ++ n ∷ []) ≡ count i xs + count i (n ∷ [])
count-snoc i n xs = ground (
  arith,
  retain-append (λ j. j == i) xs (n ∷ []),
  length-append (retain (λ j. j == i) xs) (retain (λ j. j == i) (n ∷ [])),
)

pub eqb→eq : (a b : ℕ) → a == b ≡ true → a ≡ b
eqb→eq a b h = ground arith

-- `add_candidate`, on the index alone.
add_index : List ℕ → ℕ → List ℕ
add_index selected n = if any (λ idx. idx == n) selected then selected else selected ++ n ∷ []

count-add_index-same :
    (n : ℕ) (selected : List ℕ) → count n (add_index selected n) ≡ joined (count n selected) 1
unfolding add_index
count-add_index-same n selected = elim (Bool-cases (any (λ idx. idx == n) selected)) [
  | inl e ↦ rw e (ground (arith, length-retain-any (λ idx. idx == n) selected e))
  | inr e ↦ rw e (
      ground (arith, length-retain-any-false (λ idx. idx == n) selected e, count-snoc n n selected))
]

count-add_index-other :
    (i n : ℕ) (selected : List ℕ)
    → n == i ≡ false
    → count i (add_index selected n) ≡ count i selected
unfolding add_index
count-add_index-other i n selected h = elim (Bool-cases (any (λ idx. idx == n) selected)) [
  | inl e ↦ rw e refl
  | inr e ↦ rw e (ground (arith, count-snoc i n selected))
]

count-add_index :
    (i n : ℕ) (selected : List ℕ)
    → count i (add_index selected n) ≡ joined (count i selected) (count i (n ∷ []))
count-add_index i n selected = elim (Bool-cases (n == i)) [
  | inl e ↦ let same = eqb→eq n i e in rw same (ground (arith, count-add_index-same i selected))
  | inr e ↦ rw e (ground (arith, count-add_index-other i n selected e))
]

count_candidates-one : (i : ℕ) (c : Candidate) → count i (c.idx ∷ []) ≡ count_candidates i (c ∷ [])
count_candidates-one i c = ground arith

pub count-add_candidate :
    (i : ℕ) (selected : List ℕ) (c : Candidate)
    → count i (add_candidate selected c) ≡ joined (count i selected) (count_candidates i (c ∷ []))
unfolding add_candidate add_index
count-add_candidate i selected c =
    rw (← count_candidates-one i c) (count-add_index i c.idx selected)

pub count-add_candidates :
    (i : ℕ) (selected : List ℕ) (cs : List Candidate)
    → count i (add_candidates selected cs) ≡ joined (count i selected) (count_candidates i cs)
unfolding add_candidates
count-add_candidates i selected [] = ground arith
count-add_candidates i selected (c ∷ cs) =
    ground (
      arith,
      count-add_candidates i (add_candidate selected c) cs,
      count-add_candidate i selected c,
    )
