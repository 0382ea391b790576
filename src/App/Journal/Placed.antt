-- ===== src/App/Journal/Placed.antt =====
-- The entry that a reservation leaves in the journal.
use twitch_miner_rust.Base.{
  ℕ, ◌≡◌, refl, ap, ◌∙◌, inl, inr, arith, Bool, true, false, Option, none, some, is_some, leb, ltb,
  Bool-cases,
}
use twitch_miner_rust.Base.Map.{Map}
use twitch_miner_rust.Base.Map
use twitch_miner_rust.Base.Text.{Text, text_eq_refl}
use twitch_miner_rust.App.Journal.{
  max_pending_placements, max_journal_bytes, in_flight, PendingPlacement,
  PredictionPlacementRequest, JournalCodec, JournalState, Write, unresolved_count,
}
use twitch_miner_rust.App.Journal.Operations.{
  key_of, entry_of, admission_bytes, reserved, admit, reserve_pruned,
}
use twitch_miner_rust.App.Journal.Files.{persist}
use twitch_miner_rust.App.Journal.Steps.Run.{is_reserved}

-- The entry of a request that was just reserved.
abbrev pub new_entry : PredictionPlacementRequest → PendingPlacement
new_entry request = record {
  account_id = request.account_id;
  channel_id = request.channel_id;
  event_id = request.event_id;
  choice = request.choice;
  outcome_id = request.outcome_id;
  amount = request.amount;
  reserved_at_unix_seconds = request.reserved_at_unix_seconds;
  resolved_at_unix_seconds = none;
  status = in_flight;
}

module _ (c : JournalCodec) where
  get_inserted :
      (request : PredictionPlacementRequest) (m : Map PendingPlacement)
      → Map.get (key_of c request) (Map.insert (key_of c request) (entry_of c request) m)
        ≡ some (new_entry request)
  unfolding entry_of
  get_inserted request m =
      Map.get-insert (key_of c request) (key_of c request) (entry_of c request) m
      ∙ rw (text_eq_refl (key_of c request)) refl

  placed-reserved :
      (key : Text) (j : JournalState c.Bytes) (m : Map PendingPlacement)
      (done : Bool × Option c.Bytes)
      → is_reserved (reserved c key j m done).0 ≡ true
      → (reserved c key j m done).1.placements ≡ m
  unfolding reserved is_reserved
  placed-reserved key j m (true, file) r = refl
  placed-reserved key j m (false, file) r = ground (arith, r)

  placed-admit :
      (w : Write) (key : Text) (j : JournalState c.Bytes) (m : Map PendingPlacement) (o : Option ℕ)
      → is_reserved (admit c w key j m o).0 ≡ true
      → (admit c w key j m o).1.placements ≡ m
  unfolding admit is_reserved
  placed-admit w key j m none r = ground (arith, r)
  placed-admit w key j m (some n) r = elim (Bool-cases (ltb max_journal_bytes n)) [
    | inl e ↦ let refused = rw e at r in ground (arith, refused)
    | inr e ↦ rw e (placed-reserved key j m (persist c w j m) (rw e at r))
  ]

  pub placed-reserve_pruned :
      (w : Write) (request : PredictionPlacementRequest) (done : Bool × JournalState c.Bytes)
      → is_reserved (reserve_pruned c w request done).0 ≡ true
      → Map.get (key_of c request) (reserve_pruned c w request done).1.placements
        ≡ some (new_entry request)
  unfolding reserve_pruned is_reserved
  placed-reserve_pruned w request (false, j) r = ground (arith, r)
  placed-reserve_pruned w request (true, j) r =
      let key = key_of c request in
      let m = Map.insert key (entry_of c request) j.placements in
      elim (Bool-cases (is_some (Map.get key j.placements))) [
        | inl e ↦ let refused = rw e at r in ground (arith, refused)
        | inr e ↦ elim (Bool-cases (leb max_pending_placements (unresolved_count j.placements))) [
          | inl f ↦ let refused = rw (e, f) at r in ground (arith, refused)
          | inr f ↦
              rw (e, f)
                (ap (Map.get key) (placed-admit w key j m (admission_bytes c m) (rw (e, f) at r))
                  ∙ get_inserted request j.placements)
        ]
      ]
