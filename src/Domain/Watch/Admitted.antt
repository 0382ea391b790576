-- ===== src/Domain/Watch/Admitted.antt =====
-- Which channels become candidates.
use twitch_miner_rust.Base.{
  ℕ, zero, suc, ◌+◌, ◌≤◌, ◌<◌, ◌≡◌, refl, ◌⊎◌, inl, inr, arith, Bool, true, false, not, ◌&&◌,
  Option, none, some, List, [], ◌∷◌, ◌++◌, length, if◌then◌else◌, is_some_and, get_elem?, retain,
  ◌==◌, Bool-cases, &&-eq-true_iff, some_eq, retain-append, length-append,
}
use twitch_miner_rust.Base.Text.{contains}
use twitch_miner_rust.Domain.Platform.{Platform}
use twitch_miner_rust.Domain.Stream.{Time}
use twitch_miner_rust.Domain.Streamer.{Streamer}
use twitch_miner_rust.Domain.Watch.Candidates.{
  Candidate, GameLists, earns_points, is_watchable, game_of, made_candidate, candidate_of, add_some,
  collect_candidates,
}
use twitch_miner_rust.Domain.Watch.Count.{count_candidates}

-- Whether a channel may be watched, its game included.
unfoldable pub is_admitted : Platform → GameLists → Time → Streamer → Bool
unfolding is_watchable game_of
is_admitted p games now s =
    is_watchable s now && not (is_some_and (game_of p s) (λ game. contains games.exclusions game))

-- The candidates that earn points, with an index.
unfoldable pub count_earning : ℕ → List Candidate → ℕ
count_earning i cs = count_candidates i (retain (λ c. not c.campaign_only) cs)

not-true : (b : Bool) → not b ≡ true → b ≡ false
not-true b h = ground arith

absurd_bool {ℓ} : {A : Type ℓ} → true ≡ false → A
absurd_bool h = ground arith

plus_zero : (a : ℕ) → a + 0 ≡ a
plus_zero a = omega arith

shift_suc : (a b : ℕ) → a + 1 + b ≡ a + suc b
shift_suc a b = omega arith

count_candidates-snoc :
    (i : ℕ) (cs : List Candidate) (c : Candidate)
    → count_candidates i (cs ++ c ∷ []) ≡ count_candidates i cs + (if c.idx == i then 1 else 0)
count_candidates-snoc i cs c = ground (
  arith,
  retain-append (λ d. d.idx == i) cs (c ∷ []),
  length-append (retain (λ d. d.idx == i) cs) (retain (λ d. d.idx == i) (c ∷ [])),
)

count_earning-snoc :
    (i : ℕ) (cs : List Candidate) (c : Candidate)
    → count_earning i (cs ++ c ∷ []) ≡ count_earning i cs + count_earning i (c ∷ [])
unfolding count_earning
count_earning-snoc i cs c =
    let earning = retain (λ (d : Candidate). not d.campaign_only) in
    rw
      (
        retain-append (λ (d : Candidate). not d.campaign_only) cs (c ∷ []),
        retain-append (λ (d : Candidate). d.idx == i) (earning cs) (earning (c ∷ [])),
      )
      (length-append (retain (λ d. d.idx == i) (earning cs))
        (retain (λ d. d.idx == i) (earning (c ∷ []))))

module _ (p : Platform) (games : GameLists) (now : Time) where
  candidate_of-admitted :
      (idx position : ℕ) (s : Streamer)
      → is_admitted p games now s ≡ true
      → candidate_of p games now idx position s ≡ some (made_candidate p games now idx position s)
  unfolding candidate_of is_admitted
  candidate_of-admitted idx position s h =
      let w = is_watchable s now in
      let x = is_some_and (game_of p s) (λ game. contains games.exclusions game) in
      let split = (&&-eq-true_iff w (not x)).0 h in rw (split.0, not-true x split.1) refl

  candidate_of-refused :
      (idx position : ℕ) (s : Streamer)
      → is_admitted p games now s ≡ false
      → candidate_of p games now idx position s ≡ none
  unfolding candidate_of is_admitted
  candidate_of-refused idx position s h = elim (Bool-cases (is_watchable s now)) [
    | inr e ↦ rw e refl
    | inl e ↦
        elim (Bool-cases (is_some_and (game_of p s) (λ game. contains games.exclusions game))) [
          | inl f ↦ rw (e, f) refl
          | inr f ↦ absurd_bool (rw (e, f) at h)
        ]
  ]

  count_candidates-add_some :
      (i idx position : ℕ) (s : Streamer) (cs : List Candidate)
      → 0 < count_candidates i (add_some cs (candidate_of p games now idx position s))
      → (0 < count_candidates i cs) ⊎ ((idx ≡ i) × (is_admitted p games now s ≡ true))
  unfolding add_some made_candidate
  count_candidates-add_some i idx position s cs h = elim (Bool-cases (is_admitted p games now s)) [
    | inr e ↦ inl (rw (candidate_of-refused idx position s e) at h)
    | inl e ↦
        let c = made_candidate p games now idx position s in
        let larger : 0 < count_candidates i (cs ++ c ∷ []) =
          rw (candidate_of-admitted idx position s e) at h in
        ground (arith, e, larger, count_candidates-snoc i cs c)
  ]

  -- A collected index is that of an admitted channel.
  pub collect_candidates-admitted :
      (i idx : ℕ) (ss : List Streamer) (cs : List Candidate)
      → 0 < count_candidates i (collect_candidates p games now idx ss cs)
      → (0 < count_candidates i cs)
        ⊎ ((k : ℕ) × (s : Streamer) × (i ≡ idx + k)
            × (get_elem? ss k ≡ some s)
            × (is_admitted p games now s ≡ true))
  unfolding collect_candidates
  collect_candidates-admitted i idx [] cs h = inl h
  collect_candidates-admitted i idx (s ∷ ss) cs h =
      elim (collect_candidates-admitted i (idx + 1) ss
        (add_some cs (candidate_of p games now idx (length cs) s)) h) [
          | inr (k, t, place, found, admitted) ↦
              inr (suc k, t, omega (arith, place), found, admitted)
          | inl more ↦ elim (count_candidates-add_some i idx (length cs) s cs more) [
            | inl before ↦ inl before
            | inr (here, admitted) ↦ inr (0, s, omega (arith, here), refl, admitted)
          ]
        ]

  count_earning-add_some :
      (i : ℕ) (cs : List Candidate) (o : Option Candidate)
      → count_earning i cs ≤ count_earning i (add_some cs o)
  unfolding add_some
  count_earning-add_some i cs none = omega arith
  count_earning-add_some i cs (some c) = omega (arith, count_earning-snoc i cs c)

  count_earning-collect_candidates :
      (i idx : ℕ) (ss : List Streamer) (cs : List Candidate)
      → count_earning i cs ≤ count_earning i (collect_candidates p games now idx ss cs)
  unfolding collect_candidates
  count_earning-collect_candidates i idx [] cs = omega arith
  count_earning-collect_candidates i idx (s ∷ ss) cs = omega (
    arith,
    count_earning-add_some i cs (candidate_of p games now idx (length cs) s),
    count_earning-collect_candidates i (idx + 1) ss
        (add_some cs (candidate_of p games now idx (length cs) s)),
  )

  count_earning-made :
      (idx position : ℕ) (s : Streamer) (cs : List Candidate)
      → earns_points s ≡ true
      → 0 < count_earning idx (cs ++ made_candidate p games now idx position s ∷ [])
  unfolding count_earning made_candidate
  count_earning-made idx position s cs e =
      let c = made_candidate p games now idx position s in
      let one : count_earning idx (c ∷ []) ≡ 1 = rw e (ground arith) in
      omega (arith, count_earning-snoc idx cs c, one)

  -- An admitted channel that earns points is collected as one that does.
  pub collect_candidates-earns :
      (k idx : ℕ) (ss : List Streamer) (cs : List Candidate) (s : Streamer)
      → get_elem? ss k ≡ some s
      → is_admitted p games now s ≡ true
      → earns_points s ≡ true
      → 0 < count_earning (idx + k) (collect_candidates p games now idx ss cs)
  unfolding collect_candidates add_some
  collect_candidates-earns k idx [] cs s found admitted earns = ground arith
  collect_candidates-earns zero idx (t ∷ ss) cs s found admitted earns =
      let same = some_eq t s found in
      rw (plus_zero idx, same, candidate_of-admitted idx (length cs) s admitted)
        (omega (
          arith,
          count_earning-made idx (length cs) s cs earns,
          count_earning-collect_candidates idx (idx + 1) ss
              (cs ++ made_candidate p games now idx (length cs) s ∷ []),
        ))
  collect_candidates-earns (suc k) idx (t ∷ ss) cs s found admitted earns = rw (← shift_suc idx k) (
      collect_candidates-earns k (idx + 1) ss
        (add_some cs (candidate_of p games now idx (length cs) t)) s found admitted earns)
