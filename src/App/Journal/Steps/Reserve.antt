-- ===== src/App/Journal/Steps/Reserve.antt =====
-- A reservation that is made is guarded, keeps the guarded ones, and is made once.
use twitch_miner_rust.Base.{
  ℕ, ◌≡◌, refl, inl, inr, arith, Bool, true, false, Option, none, some, is_some, leb, ltb, length,
  ◌==◌, Bool-cases,
}
use twitch_miner_rust.Base.Int.{ℤ}
use twitch_miner_rust.Base.Map.{Map, get-insert}
use twitch_miner_rust.Base.Map
use twitch_miner_rust.Base.Text.{Text, text_eq_refl}
use twitch_miner_rust.App.Journal.{
  max_pending_placements, max_journal_bytes, PendingPlacement, PredictionPlacementRequest,
  JournalCodec, JournalState, Write, written, failed, unsynced, keeps, cutoff_of, unresolved_count,
  is_valid_input, retained, snapshot,
}
use twitch_miner_rust.App.Journal.Guarded.{
  holds, holds-is_empty, file_holds, file_holds-encode, guards,
}
use twitch_miner_rust.App.Journal.Operations.{
  key_of, entry_of, admission_bytes, reserved, admit, reserve_pruned, reserve,
}
use twitch_miner_rust.App.Journal.Files.{persist, end_write, write_file, pruned, prune_terminal}
use twitch_miner_rust.App.Journal.Steps.{guards-intro}
use twitch_miner_rust.App.Journal.Steps.Run.{is_reserved}

module _ (c : JournalCodec) (horizon : ℤ) where
  holds-new :
      (request : PredictionPlacementRequest) (m : Map PendingPlacement)
      → holds horizon (key_of c request) (Map.insert (key_of c request) (entry_of c request) m)
        ≡ true
  unfolding holds entry_of keeps
  holds-new request m =
      rw
        (
          get-insert (key_of c request) (key_of c request) (entry_of c request) m,
          text_eq_refl (key_of c request),
        )
        refl

  holds-end_write :
      (key : Text) (w : Write) (file : Option c.Bytes) (bytes : c.Bytes)
      → file_holds c horizon key (some bytes) ≡ true
      → (end_write c w file bytes).0 ≡ true
      → file_holds c horizon key (end_write c w file bytes).1 ≡ true
  unfolding end_write
  holds-end_write key written file bytes h done = h
  holds-end_write key failed file bytes h done = ground (arith, done)
  holds-end_write key unsynced file bytes h done = ground (arith, done)

  holds-write_file :
      (key : Text) (w : Write) (file : Option c.Bytes) (m : Map PendingPlacement)
      (o : Option c.Bytes)
      → c.encode (snapshot m) ≡ o
      → holds horizon key m ≡ true
      → (write_file c w file o).0 ≡ true
      → file_holds c horizon key (write_file c w file o).1 ≡ true
  unfolding write_file
  holds-write_file key w file m none e h done = ground (arith, done)
  holds-write_file key w file m (some bytes) e h done =
      elim (Bool-cases (ltb max_journal_bytes (c.size bytes))) [
        | inl f ↦ let refused = rw f at done in ground (arith, refused)
        | inr f ↦ rw f (
            holds-end_write key w file bytes (file_holds-encode c horizon key m bytes e h)
              (rw f at done))
      ]

  -- A write that succeeds leaves the placements in the file.
  holds-persist :
      (key : Text) (w : Write) (j : JournalState c.Bytes) (m : Map PendingPlacement)
      → j.path ≡ true
      → holds horizon key m ≡ true
      → (persist c w j m).0 ≡ true
      → file_holds c horizon key (persist c w j m).1 ≡ true
  unfolding persist
  holds-persist key w j m p h done =
      let full = holds-is_empty horizon key m h in
      rw (p, full)
        (holds-write_file key w j.file m (c.encode (snapshot m)) refl h (rw (p, full) at done))

  guards-reserved :
      (key : Text) (j : JournalState c.Bytes) (m : Map PendingPlacement)
      (done : Bool × Option c.Bytes)
      → j.path ≡ true
      → holds horizon key m ≡ true
      → (done.0 ≡ true → file_holds c horizon key done.1 ≡ true)
      → is_reserved (reserved c key j m done).0 ≡ true
      → guards c horizon key (reserved c key j m done).1 ≡ true
  unfolding reserved is_reserved
  guards-reserved key j m (true, file) p h f r = guards-intro c horizon key _ p h (f refl)
  guards-reserved key j m (false, file) p h f r = ground (arith, r)

  guards-admit :
      (w : Write) (key : Text) (j : JournalState c.Bytes) (m : Map PendingPlacement) (o : Option ℕ)
      → j.path ≡ true
      → holds horizon key m ≡ true
      → is_reserved (admit c w key j m o).0 ≡ true
      → guards c horizon key (admit c w key j m o).1 ≡ true
  unfolding admit is_reserved
  guards-admit w key j m none p h r = ground (arith, r)
  guards-admit w key j m (some n) p h r = elim (Bool-cases (ltb max_journal_bytes n)) [
    | inl e ↦ let refused = rw e at r in ground (arith, refused)
    | inr e ↦
        rw e
          (guards-reserved key j m (persist c w j m) p h (holds-persist key w j m p h) (rw e at r))
  ]

  guards-reserve_pruned :
      (w : Write) (request : PredictionPlacementRequest)
      (pruned_state : Bool × JournalState c.Bytes)
      → pruned_state.1.path ≡ true
      → is_reserved (reserve_pruned c w request pruned_state).0 ≡ true
      → guards c horizon (key_of c request) (reserve_pruned c w request pruned_state).1 ≡ true
  unfolding reserve_pruned is_reserved
  guards-reserve_pruned w request (false, j) p r = ground (arith, r)
  guards-reserve_pruned w request (true, j) p r =
      let key = key_of c request in
      let m = Map.insert key (entry_of c request) j.placements in
      elim (Bool-cases (is_some (Map.get key j.placements))) [
        | inl e ↦ let refused = rw e at r in ground (arith, refused)
        | inr e ↦ elim (Bool-cases (leb max_pending_placements (unresolved_count j.placements))) [
          | inl f ↦ let refused = rw (e, f) at r in ground (arith, refused)
          | inr f ↦
              rw (e, f)
                (guards-admit w key j m (admission_bytes c m) p (holds-new request j.placements)
                  (rw (e, f) at r))
        ]
      ]

  pruned-path :
      (j : JournalState c.Bytes) (kept : Map PendingPlacement) (done : Bool × Option c.Bytes)
      → (pruned c j kept done).1.path ≡ j.path
  unfolding pruned
  pruned-path j kept (true, file) = refl
  pruned-path j kept (false, file) = refl

  prune_terminal-path :
      (w : Write) (now : ℤ) (j : JournalState c.Bytes) → (prune_terminal c w now j).1.path ≡ j.path
  unfolding prune_terminal
  prune_terminal-path w now j =
      let kept = retained (cutoff_of now) j.placements in
      elim (Bool-cases (length kept == length j.placements)) [
        | inl e ↦ rw e refl
        | inr e ↦ rw e (pruned-path j kept (persist c w j kept))
      ]

  -- A reservation that is made stands in the journal and in its file.
  pub guards-reserve :
      (w₁ w₂ : Write) (request : PredictionPlacementRequest) (j : JournalState c.Bytes)
      → j.path ≡ true
      → is_reserved (reserve c w₁ w₂ request j).0 ≡ true
      → guards c horizon (key_of c request) (reserve c w₁ w₂ request j).1 ≡ true
  unfolding reserve is_reserved
  guards-reserve w₁ w₂ request j p r =
      let now = request.reserved_at_unix_seconds in
      elim (Bool-cases (
        is_valid_input request.account_id request.channel_id request.event_id request.outcome_id
          request.amount)) [
            | inr e ↦ let refused = rw e at r in ground (arith, refused)
            | inl e ↦ rw e (
                guards-reserve_pruned w₂ request (prune_terminal c w₁ now j)
                  (rw (prune_terminal-path w₁ now j) p) (rw e at r))
          ]
