-- ===== src/App/Journal/Steps/Kept.antt =====
-- A guarded entry is kept by reservations, by restarts and by whole runs.
use mathlib.Core.Path.{subst}
use twitch_miner_rust.Base.{
  ℕ, ◌≡◌, refl, inl, inr, arith, Bool, true, false, Option, none, some, List, [], ◌∷◌, is_some, leb,
  ltb, ◌==◌, Bool-cases, Option-cases, some_eq,
}
use twitch_miner_rust.Base.Int.{ℤ, leb_ℤ}
use twitch_miner_rust.Base.Map.{Map}
use twitch_miner_rust.Base.Map
use twitch_miner_rust.Base.Text.{Text, text_eq}
use twitch_miner_rust.App.Journal.{
  max_pending_placements, max_journal_bytes, journal_schema_version, PendingPlacement,
  PredictionPlacementRequest, JournalCodec, JournalError, JournalState, JournalSnapshot, Write,
  cutoff_of, unresolved_count, is_valid_input, validate_pending, journal_key,
}
use twitch_miner_rust.App.Journal.Guarded.{
  holds, holds-insert, holds-remove, holds-other, file_holds, read_holds, file_holds-persist,
  guards,
}
use twitch_miner_rust.App.Journal.Operations.{
  lookup, found_in, key_of, entry_of, admission_bytes, reserved, admit, reserve_pruned, reserve,
}
use twitch_miner_rust.App.Journal.Files.{
  persist, prune_terminal, open_journal, read_file, load_snapshot, open_read, opened,
}
use twitch_miner_rust.App.Journal.Steps.{
  guards-intro, guards-holds, guards-file, guards-with, guards-prune_terminal, guards-mark_unknown,
  guards-resolve,
}
use twitch_miner_rust.App.Journal.Steps.Run.{
  Operation, reserving, marking, resolving, looking_up, restarting, is_timely, are_timely, to_state,
  perform, run,
}

absurd_bool {ℓ} : {A : Type ℓ} (k key : Text) → text_eq k key ≡ true → text_eq k key ≡ false → A
absurd_bool k key a b = ground (arith, a, b)

run-none : (c : JournalCodec) (ops : List Operation) → run c ops none ≡ none
unfolding run
run-none c [] = refl
run-none c (op ∷ ops) = refl

module _ (c : JournalCodec) (horizon : ℤ) (key : Text) where
  kept-reserved :
      (k : Text) (j : JournalState c.Bytes) (m : Map PendingPlacement)
      (done : Bool × Option c.Bytes)
      → guards c horizon key j ≡ true
      → text_eq k key ≡ false
      → holds horizon key m ≡ true
      → file_holds c horizon key done.1 ≡ true
      → guards c horizon key (reserved c k j m done).1 ≡ true
  unfolding reserved
  kept-reserved k j m (true, file) g other h f = guards-with c horizon key j m file false g h f
  kept-reserved k j m (false, file) g other h f =
      guards-with c horizon key j (Map.remove k m) file j.capacity_blocked g
        (holds-remove horizon key k m other h) f

  kept-admit :
      (w : Write) (k : Text) (j : JournalState c.Bytes) (m : Map PendingPlacement) (o : Option ℕ)
      → guards c horizon key j ≡ true
      → text_eq k key ≡ false
      → holds horizon key m ≡ true
      → guards c horizon key (admit c w k j m o).1 ≡ true
  unfolding admit
  kept-admit w k j m none g other h =
      guards-with c horizon key j (Map.remove k m) j.file j.capacity_blocked g
        (holds-remove horizon key k m other h) (guards-file c horizon key j g)
  kept-admit w k j m (some n) g other h = elim (Bool-cases (ltb max_journal_bytes n)) [
    | inl e ↦ rw e (
        guards-with c horizon key j (Map.remove k m) j.file true g
          (holds-remove horizon key k m other h) (guards-file c horizon key j g))
    | inr e ↦ rw e (
        kept-reserved k j m (persist c w j m) g other h
          (file_holds-persist c horizon key w j m h (guards-file c horizon key j g)))
  ]

  no_entry : (o : Option PendingPlacement) → is_some o ≡ false → o ≡ none
  no_entry none h = refl
  no_entry (some e) h = ground (arith, h)

  kept-reserve_pruned :
      (w : Write) (request : PredictionPlacementRequest) (p : Bool × JournalState c.Bytes)
      → guards c horizon key p.1 ≡ true
      → guards c horizon key (reserve_pruned c w request p).1 ≡ true
  unfolding reserve_pruned
  kept-reserve_pruned w request (false, j) g = g
  kept-reserve_pruned w request (true, j) g =
      let k = key_of c request in
      let m = Map.insert k (entry_of c request) j.placements in
      let h = guards-holds c horizon key j g in
      elim (Bool-cases (is_some (Map.get k j.placements))) [
        | inl e ↦ rw e g
        | inr e ↦ elim (Bool-cases (leb max_pending_placements (unresolved_count j.placements))) [
          | inl f ↦
              rw (e, f)
                (guards-with c horizon key j j.placements j.file true g h
                  (guards-file c horizon key j g))
          | inr f ↦
              let other =
                holds-other horizon key k j.placements h (no_entry (Map.get k j.placements) e) in
              rw (e, f)
                (kept-admit w k j m (admission_bytes c m) g other (
                  holds-insert horizon key k (entry_of c request) j.placements
                    (λ same. absurd_bool k key same other) h))
        ]
      ]

  kept-reserve :
      (w₁ w₂ : Write) (request : PredictionPlacementRequest) (j : JournalState c.Bytes)
      → leb_ℤ (cutoff_of request.reserved_at_unix_seconds) horizon ≡ true
      → guards c horizon key j ≡ true
      → guards c horizon key (reserve c w₁ w₂ request j).1 ≡ true
  unfolding reserve
  kept-reserve w₁ w₂ request j early g =
      let now = request.reserved_at_unix_seconds in
      elim (Bool-cases (
        is_valid_input request.account_id request.channel_id request.event_id request.outcome_id
          request.amount)) [
            | inr e ↦ rw e g
            | inl e ↦ rw e (
                kept-reserve_pruned w₂ request (prune_terminal c w₁ now j)
                  (guards-prune_terminal c horizon key w₁ now j early g))
          ]

  -- A restart that succeeds reads the guarded entry back.
  kept-opened :
      (file : Option c.Bytes) (m : Map PendingPlacement) (o : Option JournalError)
      (j : JournalState c.Bytes)
      → holds horizon key m ≡ true
      → file_holds c horizon key file ≡ true
      → to_state (opened c file m o) ≡ some j
      → guards c horizon key j ≡ true
  unfolding opened to_state
  kept-opened file m (some e) j h f r = ground (arith, r)
  kept-opened file m none j h f r =
      subst (λ j'. guards c horizon key j' ≡ true) (some_eq _ j r)
        (guards-intro c horizon key _ refl h f)

  kept-loaded :
      (file : Option c.Bytes) (s : Option JournalSnapshot) (j : JournalState c.Bytes)
      → read_holds c horizon key s ≡ true
      → file_holds c horizon key file ≡ true
      → to_state (open_read c file (load_snapshot c s)) ≡ some j
      → guards c horizon key j ≡ true
  unfolding read_holds load_snapshot open_read to_state
  kept-loaded file none j h f r = ground (arith, h)
  kept-loaded file (some s) j h f r =
      elim (Bool-cases (s.schema_version == journal_schema_version)) [
        | inl e ↦ kept-opened file s.placements (validate_pending s.placements) j h f (rw e at r)
        | inr e ↦ let refused = rw e at r in ground (arith, refused)
      ]

  kept-open_journal :
      (file : Option c.Bytes) (j : JournalState c.Bytes)
      → file_holds c horizon key file ≡ true
      → to_state (open_journal c file) ≡ some j
      → guards c horizon key j ≡ true
  unfolding open_journal read_file open_read to_state file_holds
  kept-open_journal none j f r = ground (arith, f)
  kept-open_journal (some bytes) j f r = elim (Bool-cases (ltb max_journal_bytes (c.size bytes))) [
    | inl e ↦ let refused = rw e at r in ground (arith, refused)
    | inr e ↦ kept-loaded (some bytes) (c.decode bytes) j f f (rw e at r)
  ]

  kept-found_in :
      (k : Text) (p : Bool × JournalState c.Bytes)
      → guards c horizon key p.1 ≡ true
      → guards c horizon key (found_in c k p).1 ≡ true
  unfolding found_in
  kept-found_in k (false, j) g = g
  kept-found_in k (true, j) g = g

  kept-perform :
      (op : Operation) (j j' : JournalState c.Bytes)
      → is_timely horizon op ≡ true
      → guards c horizon key j ≡ true
      → perform c op j ≡ some j'
      → guards c horizon key j' ≡ true
  unfolding perform is_timely lookup
  kept-perform (reserving w₁ w₂ request) j j' t g r =
      subst (λ s. guards c horizon key s ≡ true) (some_eq _ j' r) (kept-reserve w₁ w₂ request j t g)
  kept-perform (marking w account_id channel_id event_id) j j' t g r =
      subst (λ s. guards c horizon key s ≡ true) (some_eq _ j' r)
        (guards-mark_unknown c horizon key w account_id channel_id event_id j g)
  kept-perform (resolving w now account_id channel_id event_id status) j j' t g r =
      subst (λ s. guards c horizon key s ≡ true) (some_eq _ j' r)
        (guards-resolve c horizon key w now account_id channel_id event_id status j t g)
  kept-perform (looking_up w now account_id channel_id event_id) j j' t g r =
      subst (λ s. guards c horizon key s ≡ true) (some_eq _ j' r)
        (kept-found_in (journal_key account_id channel_id event_id) (prune_terminal c w now j)
          (guards-prune_terminal c horizon key w now j t g))
  kept-perform restarting j j' t g r = kept-open_journal j.file j' (guards-file c horizon key j g) r

  -- A run whose clocks agree with a horizon keeps a guarded entry.
  pub kept-run :
      (ops : List Operation) (j j' : JournalState c.Bytes)
      → are_timely horizon ops ≡ true
      → guards c horizon key j ≡ true
      → run c ops (some j) ≡ some j'
      → guards c horizon key j' ≡ true
  unfolding run are_timely
  kept-run [] j j' t g r = subst (λ s. guards c horizon key s ≡ true) (some_eq j j' r) g
  kept-run (op ∷ ops) j j' t g r = elim (Option-cases (perform c op j)) [
    | inl e ↦ let stopped = rw e at r in ground (arith, stopped, run-none c ops)
    | inr (k, e) ↦
        kept-run ops k j' (ground (arith, t)) (kept-perform op j k (ground (arith, t)) g e)
          (rw e at r)
  ]
