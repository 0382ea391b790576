-- ===== src/App/Journal/Steps.antt =====
-- Every operation of the journal, and every restart, keeps a guarded reservation.
pub mod Run
pub mod Reserve
pub mod Kept
pub mod Once
use twitch_miner_rust.Base.{
  ℕ, ◌≡◌, refl, inl, inr, arith, Bool, true, false, not, ◌&&◌, ◌||◌, Option, none, some, List, [],
  ◌∷◌, if◌then◌else◌, is_empty, is_some, unwrap_or, leb, ltb, length, ◌==◌, Bool-cases,
  Option-cases,
}
use twitch_miner_rust.Base.Int.{ℤ, leb_ℤ}
use twitch_miner_rust.Base.Map.{Map}
use twitch_miner_rust.Base.Map
use twitch_miner_rust.Base.Result.{Result, ok, err}
use twitch_miner_rust.Base.Text.{Text, text_eq, text_eq_iff}
use twitch_miner_rust.App.Journal.{
  max_pending_placements, max_journal_bytes, PlacementStatus, in_flight, unknown, confirmed,
  rejected, PendingPlacement, PredictionPlacementRequest, JournalCodec, JournalState, Write,
  journal_key, is_unresolved, keeps, retained, cutoff_of, unresolved_count, is_valid_input,
}
use twitch_miner_rust.App.Journal.Guarded.{
  holds, holds-retained, holds-insert, holds-remove, holds-other, file_holds, file_holds-persist,
  guards,
}
use twitch_miner_rust.App.Journal.Operations.{
  Done, lookup, found_in, key_of, entry_of, admission_bytes, reserved, admit, reserve_pruned,
  reserve, after_write, mark_entry, mark_found, mark_unknown, gives_way, resolve_found, resolve,
}
use twitch_miner_rust.App.Journal.Files.{persist, pruned, prune_terminal}

module _ (c : JournalCodec) (horizon : ℤ) (key : Text) where
  pub guards-intro :
      (j : JournalState c.Bytes)
      → j.path ≡ true
      → holds horizon key j.placements ≡ true
      → file_holds c horizon key j.file ≡ true
      → guards c horizon key j ≡ true
  unfolding guards
  guards-intro j p h f = ground (arith, p, h, f)

  pub guards-path : (j : JournalState c.Bytes) → guards c horizon key j ≡ true → j.path ≡ true
  unfolding guards
  guards-path j g = ground (arith, g)

  pub guards-holds :
      (j : JournalState c.Bytes)
      → guards c horizon key j ≡ true
      → holds horizon key j.placements ≡ true
  unfolding guards
  guards-holds j g = ground (arith, g)

  pub guards-file :
      (j : JournalState c.Bytes)
      → guards c horizon key j ≡ true
      → file_holds c horizon key j.file ≡ true
  unfolding guards
  guards-file j g = ground (arith, g)

  -- A state with other placements, a file and a block.
  pub guards-with :
      (j : JournalState c.Bytes) (m : Map PendingPlacement) (file : Option c.Bytes) (blocked : Bool)
      → guards c horizon key j ≡ true
      → holds horizon key m ≡ true
      → file_holds c horizon key file ≡ true
      → guards c horizon key (record j { placements = m; file = file; capacity_blocked = blocked })
        ≡ true
  guards-with j m file blocked g h f = guards-intro _ (guards-path j g) h f

  guards-pruned :
      (j : JournalState c.Bytes) (kept : Map PendingPlacement) (done : Bool × Option c.Bytes)
      → guards c horizon key j ≡ true
      → holds horizon key kept ≡ true
      → file_holds c horizon key done.1 ≡ true
      → guards c horizon key (pruned c j kept done).1 ≡ true
  unfolding pruned
  guards-pruned j kept (true, file) g h f = guards-with j kept file false g h f
  guards-pruned j kept (false, file) g h f =
      guards-with j j.placements file j.capacity_blocked g (guards-holds j g) f

  pub guards-prune_terminal :
      (w : Write) (now : ℤ) (j : JournalState c.Bytes)
      → leb_ℤ (cutoff_of now) horizon ≡ true
      → guards c horizon key j ≡ true
      → guards c horizon key (prune_terminal c w now j).1 ≡ true
  unfolding prune_terminal
  guards-prune_terminal w now j early g =
      let kept = retained (cutoff_of now) j.placements in
      let still =
        holds-retained horizon (cutoff_of now) key j.placements early (guards-holds j g) in
      elim (Bool-cases (length kept == length j.placements)) [
        | inl e ↦ rw e g
        | inr e ↦ rw e (
            guards-pruned j kept (persist c w j kept) g still
              (file_holds-persist c horizon key w j kept still (guards-file j g)))
      ]

  guards-after_write :
      (blocked : Bool) (j : JournalState c.Bytes) (m back : Map PendingPlacement)
      (done : Bool × Option c.Bytes)
      → guards c horizon key j ≡ true
      → holds horizon key m ≡ true
      → holds horizon key back ≡ true
      → file_holds c horizon key done.1 ≡ true
      → guards c horizon key (after_write c blocked j m back done).1 ≡ true
  unfolding after_write
  guards-after_write blocked j m back (true, file) g h b f = guards-with j m file blocked g h f
  guards-after_write blocked j m back (false, file) g h b f =
      guards-with j back file j.capacity_blocked g b f

  held_entry :
      (k : Text) (entry : PendingPlacement) (m : Map PendingPlacement)
      → Map.get k m ≡ some entry
      → holds horizon key m ≡ true
      → text_eq k key ≡ true
      → keeps horizon entry ≡ true
  unfolding holds
  held_entry k entry m found h e =
      let same = (text_eq_iff k key).0 e in let found_here = rw same at found in rw found_here at h

  -- A changed entry, written or taken back.
  guards-change :
      (blocked : Bool) (w : Write) (k : Text) (j : JournalState c.Bytes)
      (entry changed : PendingPlacement)
      → guards c horizon key j ≡ true
      → Map.get k j.placements ≡ some entry
      → keeps horizon changed ≡ true
      → guards c horizon key
          (after_write c blocked j
            (Map.insert k changed j.placements)
            (Map.insert k entry (Map.insert k changed j.placements))
            (persist c w j (Map.insert k changed j.placements))).1
        ≡ true
  guards-change blocked w k j entry changed g found kept =
      let m = Map.insert k changed j.placements in
      let h = guards-holds j g in
      let with_change = holds-insert horizon key k changed j.placements (λ _. kept) h in
      guards-after_write blocked j m (Map.insert k entry m) (persist c w j m) g with_change
        (holds-insert horizon key k entry m (held_entry k entry j.placements found h) with_change)
        (file_holds-persist c horizon key w j m with_change (guards-file j g))

  unknown-keeps :
      (entry : PendingPlacement) → keeps horizon (record entry { status = unknown }) ≡ true
  unfolding keeps
  unknown-keeps entry = refl

  guards-mark_entry :
      (w : Write) (k : Text) (j : JournalState c.Bytes) (entry : PendingPlacement)
      (status : PlacementStatus)
      → guards c horizon key j ≡ true
      → Map.get k j.placements ≡ some entry
      → guards c horizon key (mark_entry c w k j entry status).1 ≡ true
  unfolding mark_entry
  guards-mark_entry w k j entry confirmed g found = g
  guards-mark_entry w k j entry rejected g found = g
  guards-mark_entry w k j entry in_flight g found =
      guards-change j.capacity_blocked w k j entry _ g found (unknown-keeps entry)
  guards-mark_entry w k j entry unknown g found =
      guards-change j.capacity_blocked w k j entry _ g found (unknown-keeps entry)

  pub guards-mark_unknown :
      (w : Write) (account_id channel_id event_id : Text) (j : JournalState c.Bytes)
      → guards c horizon key j ≡ true
      → guards c horizon key (mark_unknown c w account_id channel_id event_id j).1 ≡ true
  unfolding mark_unknown mark_found
  guards-mark_unknown w account_id channel_id event_id j g =
      let k = journal_key account_id channel_id event_id in
      elim (Option-cases (Map.get k j.placements)) [
        | inl e ↦ rw e g
        | inr (entry, e) ↦ rw e (guards-mark_entry w k j entry entry.status g e)
      ]

  resolved-keeps :
      (entry : PendingPlacement) (status : PlacementStatus) (now : ℤ)
      → leb_ℤ horizon now ≡ true
      → keeps horizon (record entry { status = status; resolved_at_unix_seconds = some now }) ≡ true
  unfolding keeps
  resolved-keeps entry in_flight now h = refl
  resolved-keeps entry unknown now h = refl
  resolved-keeps entry confirmed now h = h
  resolved-keeps entry rejected now h = h

  pub guards-resolve :
      (w : Write) (now : ℤ) (account_id channel_id event_id : Text) (status : PlacementStatus)
      (j : JournalState c.Bytes)
      → leb_ℤ horizon now ≡ true
      → guards c horizon key j ≡ true
      → guards c horizon key (resolve c w now account_id channel_id event_id status j).1 ≡ true
  unfolding resolve resolve_found
  guards-resolve w now account_id channel_id event_id status j late g =
      let k = journal_key account_id channel_id event_id in
      elim (Option-cases (Map.get k j.placements)) [
        | inl e ↦ rw e g
        | inr (entry, e) ↦ elim (Bool-cases (gives_way c entry.status status)) [
          | inl f ↦
              rw (e, f)
                (guards-change false w k j entry _ g e (resolved-keeps entry status now late))
          | inr f ↦ rw (e, f) g
        ]
      ]
