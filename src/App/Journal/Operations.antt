-- ===== src/App/Journal/Operations.antt =====
-- crates/tm-app/src/prediction_journal.rs: the operations of the journal.
use twitch_miner_rust.Base.{
  ℕ, Bool, true, false, Option, none, some, if◌then◌else◌, is_some, map_option, leb, ltb,
}
use twitch_miner_rust.Base.Int.{ℤ}
use twitch_miner_rust.Base.Map.{Map}
use twitch_miner_rust.Base.Map
use twitch_miner_rust.Base.Result.{Result, ok, err}
use twitch_miner_rust.Base.Text.{Text}
use twitch_miner_rust.App.Journal.Files.{persist, prune_terminal}
use twitch_miner_rust.App.Journal.{
  max_pending_placements, max_journal_bytes, PlacementStatus, in_flight, unknown, confirmed,
  rejected, PendingPlacement, PredictionPlacementRequest, PredictionPlacementReservation,
  JournalCodec, JournalError, invalid_reservation, unresolved_limit, byte_capacity, not_serialized,
  not_persisted, JournalState, Write, journal_key, unresolved_count, is_valid_input, snapshot,
  largest_entries,
}

-- A result, and the state after it.
abbrev pub Done : Type 0 → Type 0 → Type 0
Done B A = Result JournalError A × JournalState B

module _ (c : JournalCodec) where
  unfoldable pub reservation_of : PendingPlacement → PredictionPlacementReservation
  reservation_of entry = record {
    choice = entry.choice;
    outcome_id = entry.outcome_id;
    amount = entry.amount;
    status = entry.status;
  }

  unfoldable pub found_in :
      Text → (Bool × JournalState c.Bytes) → Done c.Bytes (Option PredictionPlacementReservation)
  unfolding reservation_of
  found_in key (false, j) = (err not_persisted, j)
  found_in key (true, j) = (ok (map_option reservation_of (Map.get key j.placements)), j)

  unfoldable pub lookup :
      Write
      → ℤ
      → Text
      → Text
      → Text
      → JournalState c.Bytes
      → Done c.Bytes (Option PredictionPlacementReservation)
  unfolding prune_terminal found_in
  lookup w now_unix_seconds account_id channel_id event_id j =
      found_in (journal_key account_id channel_id event_id) (prune_terminal c w now_unix_seconds j)

  unfoldable pub key_of : PredictionPlacementRequest → Text
  key_of request = journal_key request.account_id request.channel_id request.event_id

  unfoldable pub entry_of : PredictionPlacementRequest → PendingPlacement
  entry_of request = record {
    account_id = request.account_id;
    channel_id = request.channel_id;
    event_id = request.event_id;
    choice = request.choice;
    outcome_id = request.outcome_id;
    amount = request.amount;
    reserved_at_unix_seconds = request.reserved_at_unix_seconds;
    resolved_at_unix_seconds = none;
    status = in_flight;
  }

  -- `admission_bytes`.
  unfoldable pub admission_bytes : Map PendingPlacement → Option ℕ
  admission_bytes m = map_option c.size (c.encode (snapshot (largest_entries m)))

  unfoldable pub reserved :
      Text
      → JournalState c.Bytes
      → Map PendingPlacement
      → (Bool × Option c.Bytes)
      → Done c.Bytes Bool
  reserved key j m (true, file) =
      (ok true, record j { placements = m; file = file; capacity_blocked = false })
  reserved key j m (false, file) =
      (err not_persisted, record j { placements = Map.remove key m; file = file })

  -- The last part of `reserve`, with the new entry inserted.
  unfoldable pub admit :
      Write → Text → JournalState c.Bytes → Map PendingPlacement → Option ℕ → Done c.Bytes Bool
  unfolding persist reserved
  admit w key j m none = (err not_serialized, record j { placements = Map.remove key m })
  admit w key j m (some bytes) =
      if ltb max_journal_bytes bytes
      then (err byte_capacity, record j { placements = Map.remove key m; capacity_blocked = true })
      else reserved key j m (persist c w j m)

  unfoldable pub reserve_pruned :
      Write → PredictionPlacementRequest → (Bool × JournalState c.Bytes) → Done c.Bytes Bool
  unfolding key_of entry_of admission_bytes admit
  reserve_pruned w request (false, j) = (err not_persisted, j)
  reserve_pruned w request (true, j) =
      let key = key_of request in
      let m = Map.insert key (entry_of request) j.placements in
      if is_some (Map.get key j.placements)
      then (ok false, j)
      else if leb max_pending_placements (unresolved_count j.placements)
      then (err unresolved_limit, record j { capacity_blocked = true })
      else admit w key j m (admission_bytes m)

  -- `reserve`: its first write prunes, its second one records the request.
  unfoldable pub reserve :
      Write → Write → PredictionPlacementRequest → JournalState c.Bytes → Done c.Bytes Bool
  unfolding prune_terminal reserve_pruned
  reserve w₁ w₂ request j =
      if is_valid_input request.account_id request.channel_id request.event_id request.outcome_id
        request.amount
      then reserve_pruned w₂ request (prune_terminal c w₁ request.reserved_at_unix_seconds j)
      else (err invalid_reservation, j)

  -- A changed entry is written, or taken back.
  unfoldable pub after_write :
      Bool
      → JournalState c.Bytes
      → Map PendingPlacement
      → Map PendingPlacement
      → (Bool × Option c.Bytes)
      → Done c.Bytes Bool
  after_write blocked j m back (true, file) =
      (ok true, record j { placements = m; file = file; capacity_blocked = blocked })
  after_write blocked j m back (false, file) =
      (err not_persisted, record j { placements = back; file = file })

  -- `ok false` stands for an `Ok(())` that changed nothing.
  unfoldable pub mark_entry :
      Write → Text → JournalState c.Bytes → PendingPlacement → PlacementStatus → Done c.Bytes Bool
  unfolding persist after_write
  mark_entry w key j entry confirmed = (ok false, j)
  mark_entry w key j entry rejected = (ok false, j)
  mark_entry w key j entry _ =
      let m = Map.insert key (record entry { status = unknown }) j.placements in
      after_write j.capacity_blocked j m (Map.insert key entry m) (persist c w j m)

  unfoldable pub mark_found :
      Write → Text → JournalState c.Bytes → Option PendingPlacement → Done c.Bytes Bool
  unfolding mark_entry
  mark_found w key j none = (ok false, j)
  mark_found w key j (some entry) = mark_entry w key j entry entry.status

  unfoldable pub mark_unknown :
      Write → Text → Text → Text → JournalState c.Bytes → Done c.Bytes Bool
  unfolding mark_found
  mark_unknown w account_id channel_id event_id j =
      let key = journal_key account_id channel_id event_id in
      mark_found w key j (Map.get key j.placements)

  -- Whether a status gives way to another one.
  unfoldable pub gives_way : PlacementStatus → PlacementStatus → Bool
  gives_way confirmed status = false
  gives_way rejected rejected = false
  gives_way _ status = true

  unfoldable pub resolve_found :
      Write
      → ℤ
      → Text
      → PlacementStatus
      → JournalState c.Bytes
      → Option PendingPlacement
      → Done c.Bytes Bool
  unfolding gives_way persist after_write
  resolve_found w now_unix_seconds key status j none = (ok false, j)
  resolve_found w now_unix_seconds key status j (some entry) =
      let m =
        Map.insert key
          (record entry { status = status; resolved_at_unix_seconds = some now_unix_seconds })
          j.placements in
      if gives_way entry.status status
      then after_write false j m (Map.insert key entry m) (persist c w j m)
      else (ok false, j)

  unfoldable pub resolve :
      Write → ℤ → Text → Text → Text → PlacementStatus → JournalState c.Bytes → Done c.Bytes Bool
  unfolding resolve_found
  resolve w now_unix_seconds account_id channel_id event_id status j =
      let key = journal_key account_id channel_id event_id in
      resolve_found w now_unix_seconds key status j (Map.get key j.placements)

  unfoldable pub confirm : Write → ℤ → Text → Text → Text → JournalState c.Bytes → Done c.Bytes Bool
  unfolding resolve
  confirm w now_unix_seconds account_id channel_id event_id j =
      resolve w now_unix_seconds account_id channel_id event_id confirmed j

  unfoldable pub reject : Write → ℤ → Text → Text → Text → JournalState c.Bytes → Done c.Bytes Bool
  unfolding resolve
  reject w now_unix_seconds account_id channel_id event_id j =
      resolve w now_unix_seconds account_id channel_id event_id rejected j
