-- ===== src/App/Journal/Restart.antt =====
-- A restart after a reservation finds the placements of the journal again.
use twitch_miner_rust.Base.{
  ℕ, ◌≡◌, refl, inl, inr, arith, Bool, true, false, Option, none, some, is_some, is_empty, leb, ltb,
  length, ◌==◌, Bool-cases,
}
use twitch_miner_rust.Base.Int.{ℤ}
use twitch_miner_rust.Base.Map.{Map}
use twitch_miner_rust.Base.Map
use twitch_miner_rust.Base.Result.{ok}
use twitch_miner_rust.Base.Text.{Text, text_eq_refl}
use twitch_miner_rust.App.Journal.{
  max_pending_placements, max_journal_bytes, PendingPlacement, PredictionPlacementRequest,
  JournalCodec, JournalState, Write, written, failed, unsynced, cutoff_of, unresolved_count,
  is_valid_input, is_valid_entry, validate_pending, retained, snapshot, journal_key,
}
use twitch_miner_rust.App.Journal.Operations.{
  key_of, entry_of, admission_bytes, reserved, admit, reserve_pruned, reserve,
}
use twitch_miner_rust.App.Journal.Files.{
  persist, end_write, write_file, pruned, prune_terminal, open_journal, read_file, load_snapshot,
  open_read, opened,
}
use twitch_miner_rust.App.Journal.Steps.Run.{is_reserved}
use twitch_miner_rust.App.Journal.Accepted.{
  accepted-insert, accepted-retained, accepted-validate, is_accepted, is_empty-insert,
  validate-accepted,
}
use twitch_miner_rust.App.Journal.Placed.{new_entry, placed-reserve_pruned}

module _ (c : JournalCodec) where
  entry_of-valid :
      (r : PredictionPlacementRequest)
      → is_valid_input r.account_id r.channel_id r.event_id r.outcome_id r.amount ≡ true
      → is_valid_entry (key_of c r) (entry_of c r) ≡ true
  unfolding is_valid_entry entry_of key_of
  entry_of-valid r h = rw (h, text_eq_refl (journal_key r.account_id r.channel_id r.event_id)) refl

  -- What a restart makes of a journal whose placements stand in its file.
  unfoldable pub restarted : JournalState c.Bytes → JournalState c.Bytes
  restarted j = record {
    path = true;
    placements = j.placements;
    capacity_blocked = leb max_pending_placements (unresolved_count j.placements);
    file = j.file;
  }

  -- A file that was written is read back.
  open_written :
      (bytes : c.Bytes) (m : Map PendingPlacement)
      → c.encode (snapshot m) ≡ some bytes
      → ltb max_journal_bytes (c.size bytes) ≡ false
      → is_accepted m ≡ true
      → open_journal c (some bytes)
        ≡ ok (record {
          path = true;
          placements = m;
          capacity_blocked = leb max_pending_placements (unresolved_count m);
          file = some bytes;
        })
  unfolding open_journal read_file load_snapshot open_read opened
  open_written bytes m e small h =
      rw (small, c.decode_encode (snapshot m) bytes e, validate-accepted m h) refl

  restarts-end_write :
      (w : Write) (key : Text) (j : JournalState c.Bytes) (m : Map PendingPlacement)
      (bytes : c.Bytes)
      → c.encode (snapshot m) ≡ some bytes
      → ltb max_journal_bytes (c.size bytes) ≡ false
      → is_accepted m ≡ true
      → is_reserved (reserved c key j m (end_write c w j.file bytes)).0 ≡ true
      → open_journal c (reserved c key j m (end_write c w j.file bytes)).1.file
        ≡ ok (restarted (reserved c key j m (end_write c w j.file bytes)).1)
  unfolding end_write reserved is_reserved restarted
  restarts-end_write written key j m bytes e small h r = open_written bytes m e small h
  restarts-end_write failed key j m bytes e small h r = ground (arith, r)
  restarts-end_write unsynced key j m bytes e small h r = ground (arith, r)

  restarts-write_file :
      (w : Write) (key : Text) (j : JournalState c.Bytes) (m : Map PendingPlacement)
      (o : Option c.Bytes)
      → c.encode (snapshot m) ≡ o
      → is_accepted m ≡ true
      → is_reserved (reserved c key j m (write_file c w j.file o)).0 ≡ true
      → open_journal c (reserved c key j m (write_file c w j.file o)).1.file
        ≡ ok (restarted (reserved c key j m (write_file c w j.file o)).1)
  unfolding write_file reserved is_reserved
  restarts-write_file w key j m none e h r = ground (arith, r)
  restarts-write_file w key j m (some bytes) e h r =
      elim (Bool-cases (ltb max_journal_bytes (c.size bytes))) [
        | inl f ↦ let refused = rw f at r in ground (arith, refused)
        | inr f ↦ rw f (restarts-end_write w key j m bytes e f h (rw f at r))
      ]

  persist-file :
      (w : Write) (j : JournalState c.Bytes) (m : Map PendingPlacement)
      → j.path ≡ true
      → is_empty m ≡ false
      → persist c w j m ≡ write_file c w j.file (c.encode (snapshot m))
  unfolding persist
  persist-file w j m p full = rw (p, full) refl

  restarts-admit :
      (w : Write) (key : Text) (j : JournalState c.Bytes) (m : Map PendingPlacement) (o : Option ℕ)
      → j.path ≡ true
      → is_empty m ≡ false
      → is_accepted m ≡ true
      → is_reserved (admit c w key j m o).0 ≡ true
      → open_journal c (admit c w key j m o).1.file ≡ ok (restarted (admit c w key j m o).1)
  unfolding admit is_reserved
  restarts-admit w key j m none p full h r = ground (arith, r)
  restarts-admit w key j m (some n) p full h r = elim (Bool-cases (ltb max_journal_bytes n)) [
    | inl e ↦ let refused = rw e at r in ground (arith, refused)
    | inr e ↦
        let wrote = persist-file w j m p full in
        rw (e, wrote)
          (restarts-write_file w key j m (c.encode (snapshot m)) refl h (rw (e, wrote) at r))
  ]

  restarts-reserve_pruned :
      (w : Write) (request : PredictionPlacementRequest) (done : Bool × JournalState c.Bytes)
      → is_valid_input request.account_id request.channel_id request.event_id request.outcome_id
          request.amount
        ≡ true
      → done.1.path ≡ true
      → is_accepted done.1.placements ≡ true
      → is_reserved (reserve_pruned c w request done).0 ≡ true
      → open_journal c (reserve_pruned c w request done).1.file
        ≡ ok (restarted (reserve_pruned c w request done).1)
  unfolding reserve_pruned is_reserved
  restarts-reserve_pruned w request (false, j) v p h r = ground (arith, r)
  restarts-reserve_pruned w request (true, j) v p h r =
      let key = key_of c request in
      let m = Map.insert key (entry_of c request) j.placements in
      elim (Bool-cases (is_some (Map.get key j.placements))) [
        | inl e ↦ let refused = rw e at r in ground (arith, refused)
        | inr e ↦ elim (Bool-cases (leb max_pending_placements (unresolved_count j.placements))) [
          | inl f ↦ let refused = rw (e, f) at r in ground (arith, refused)
          | inr f ↦
              rw (e, f)
                (restarts-admit w key j m (admission_bytes c m) p
                  (is_empty-insert key (entry_of c request) j.placements)
                  (accepted-insert key (entry_of c request) j.placements (entry_of-valid request v)
                    f h)
                  (rw (e, f) at r))
        ]
      ]

  accepted-pruned :
      (j : JournalState c.Bytes) (kept : Map PendingPlacement) (done : Bool × Option c.Bytes)
      → j.path ≡ true
      → is_accepted j.placements ≡ true
      → is_accepted kept ≡ true
      → ((pruned c j kept done).1.path ≡ true)
        × (is_accepted (pruned c j kept done).1.placements ≡ true)
  unfolding pruned
  accepted-pruned j kept (true, file) p h k = (p, k)
  accepted-pruned j kept (false, file) p h k = (p, h)

  accepted-prune_terminal :
      (w : Write) (now : ℤ) (j : JournalState c.Bytes)
      → j.path ≡ true
      → is_accepted j.placements ≡ true
      → ((prune_terminal c w now j).1.path ≡ true)
        × (is_accepted (prune_terminal c w now j).1.placements ≡ true)
  unfolding prune_terminal
  accepted-prune_terminal w now j p h =
      let kept = retained (cutoff_of now) j.placements in
      elim (Bool-cases (length kept == length j.placements)) [
        | inl e ↦ rw e (p, h)
        | inr e ↦ rw e (
            accepted-pruned j kept (persist c w j kept) p h
              (accepted-retained (cutoff_of now) j.placements h))
      ]

  -- When a reservation is made in a journal with a file and valid placements, whatever the writes,
  -- opening the file gives the placements of the journal and refuses none. Under the key of the
  -- request they have its entry: the account, channel, event, choice, outcome, amount and time of
  -- the request, in flight and not resolved.
  pub open_journal-reserve :
      (w₁ w₂ : Write) (request : PredictionPlacementRequest) (j : JournalState c.Bytes)
      → j.path ≡ true
      → validate_pending j.placements ≡ none
      → is_reserved (reserve c w₁ w₂ request j).0 ≡ true
      → (open_journal c (reserve c w₁ w₂ request j).1.file
          ≡ ok (restarted (reserve c w₁ w₂ request j).1))
        × (Map.get
              (journal_key request.account_id request.channel_id request.event_id)
              (reserve c w₁ w₂ request j).1.placements
            ≡ some (new_entry request))
  unfolding reserve is_reserved key_of
  open_journal-reserve w₁ w₂ request j p valid r =
      let now = request.reserved_at_unix_seconds in
      let ready = accepted-prune_terminal w₁ now j p (accepted-validate j.placements valid) in
      elim (Bool-cases (
        is_valid_input request.account_id request.channel_id request.event_id request.outcome_id
          request.amount)) [
            | inr e ↦ let refused = rw e at r in ground (arith, refused)
            | inl e ↦ rw e (
              restarts-reserve_pruned w₂ request (prune_terminal c w₁ now j) e ready.0 ready.1
                  (rw e at r),
              placed-reserve_pruned c w₂ request (prune_terminal c w₁ now j) (rw e at r),
            )
          ]
