-- ===== src/App/Journal/Files.antt =====
-- crates/tm-app/src/prediction_journal.rs: the file of the journal, pruning and opening.
use twitch_miner_rust.Base.{
  ◌==◌, Bool, true, false, not, Option, none, some, [], length, if◌then◌else◌, is_empty, leb, ltb,
}
use twitch_miner_rust.Base.Int.{ℤ}
use twitch_miner_rust.Base.Map.{Map}
use twitch_miner_rust.Base.Result.{Result, ok, err}
use twitch_miner_rust.App.Journal.{
  journal_schema_version, max_pending_placements, max_journal_bytes, PendingPlacement, JournalCodec,
  JournalSnapshot, JournalError, file_too_large, file_malformed, schema_unsupported, JournalState,
  Write, written, failed, unsynced, unresolved_count, validate_pending, snapshot, retained,
  cutoff_of,
}

unfoldable pub memory : (B : Type 0) → JournalState B
memory B = record { path = false; placements = []; capacity_blocked = false; file = none }

module _ (c : JournalCodec) where
  -- How a write of some bytes ends.
  unfoldable pub end_write : Write → Option c.Bytes → c.Bytes → Bool × Option c.Bytes
  end_write written file bytes = (true, some bytes)
  end_write failed file bytes = (false, file)
  end_write unsynced file bytes = (false, some bytes)

  -- `atomic_json_write`: whether it succeeds, and what the file is then.
  unfoldable pub write_file : Write → Option c.Bytes → Option c.Bytes → Bool × Option c.Bytes
  unfolding end_write
  write_file w file none = (false, file)
  write_file w file (some bytes) =
      if ltb max_journal_bytes (c.size bytes) then (false, file) else end_write w file bytes

  -- The file of an empty journal is removed.
  unfoldable pub remove_file : Write → Option c.Bytes → Bool × Option c.Bytes
  remove_file failed file = (false, file)
  remove_file _ file = (true, none)

  -- `persist_locked`, of some placements.
  unfoldable pub persist :
      Write → JournalState c.Bytes → Map PendingPlacement → Bool × Option c.Bytes
  unfolding write_file remove_file
  persist w j m =
      if not j.path
      then (true, j.file)
      else if is_empty m
      then remove_file w j.file
      else write_file w j.file (c.encode (snapshot m))

  -- After pruning: none where nothing was removed.
  unfoldable pub pruned :
      JournalState c.Bytes
      → Map PendingPlacement
      → (Bool × Option c.Bytes)
      → Bool × JournalState c.Bytes
  pruned j kept (true, file) =
      (true, record j { placements = kept; file = file; capacity_blocked = false })
  pruned j kept (false, file) = (false, record j { file = file })

  unfoldable pub prune_terminal : Write → ℤ → JournalState c.Bytes → Bool × JournalState c.Bytes
  unfolding persist pruned
  prune_terminal w now_unix_seconds j =
      let kept = retained (cutoff_of now_unix_seconds) j.placements in
      if length kept == length j.placements then (true, j) else pruned j kept (persist w j kept)

  -- `load_snapshot`.
  unfoldable pub load_snapshot : Option JournalSnapshot → Result JournalError (Map PendingPlacement)
  load_snapshot none = err file_malformed
  load_snapshot (some s) =
      if s.schema_version == journal_schema_version then ok s.placements else err schema_unsupported

  -- `read_bounded`, and the parse of what it reads.
  unfoldable pub read_file : Option c.Bytes → Result JournalError (Map PendingPlacement)
  unfolding load_snapshot
  read_file none = ok []
  read_file (some bytes) =
      if ltb max_journal_bytes (c.size bytes)
      then err file_too_large
      else load_snapshot (c.decode bytes)

  unfoldable pub opened :
      Option c.Bytes
      → Map PendingPlacement
      → Option JournalError
      → Result JournalError (JournalState c.Bytes)
  opened file m (some e) = err e
  opened file m none = ok (record {
    path = true;
    placements = m;
    capacity_blocked = leb max_pending_placements (unresolved_count m);
    file = file;
  })

  unfoldable pub open_read :
      Option c.Bytes
      → Result JournalError (Map PendingPlacement)
      → Result JournalError (JournalState c.Bytes)
  unfolding opened
  open_read file (err e) = err e
  open_read file (ok m) = opened file m (validate_pending m)

  -- `open`, of the journal's file.
  unfoldable pub open_journal : Option c.Bytes → Result JournalError (JournalState c.Bytes)
  unfolding read_file open_read
  open_journal file = open_read file (read_file file)
