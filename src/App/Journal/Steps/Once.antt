-- ===== src/App/Journal/Steps/Once.antt =====
-- No stake is reserved twice, over any run of operations, failing writes and restarts.
use twitch_miner_rust.Base.{
  ◌≡◌, refl, inl, inr, arith, Bool, true, false, Option, none, some, List, is_some, is_some_and,
  Bool-cases,
}
use twitch_miner_rust.Base.Int.{ℤ, leb_ℤ}
use twitch_miner_rust.Base.Map.{Map}
use twitch_miner_rust.Base.Map
use twitch_miner_rust.Base.Text.{Text}
use twitch_miner_rust.App.Journal.{
  PendingPlacement, PredictionPlacementRequest, JournalCodec, JournalState, Write, keeps, cutoff_of,
  is_valid_input,
}
use twitch_miner_rust.App.Journal.Guarded.{holds, guards}
use twitch_miner_rust.App.Journal.Operations.{key_of, reserve_pruned, reserve}
use twitch_miner_rust.App.Journal.Files.{prune_terminal}
use twitch_miner_rust.App.Journal.Steps.{guards-holds, guards-prune_terminal}
use twitch_miner_rust.App.Journal.Steps.Reserve.{guards-reserve}
use twitch_miner_rust.App.Journal.Steps.Run.{Operation, are_timely, is_reserved, run}
use twitch_miner_rust.App.Journal.Steps.Kept.{kept-run}

module _ (c : JournalCodec) (horizon : ℤ) where
  refused-pruned :
      (w : Write) (request : PredictionPlacementRequest) (p : Bool × JournalState c.Bytes)
      → guards c horizon (key_of c request) p.1 ≡ true
      → is_reserved (reserve_pruned c w request p).0 ≡ false
  unfolding reserve_pruned is_reserved holds
  refused-pruned w request (false, j) g = refl
  refused-pruned w request (true, j) g =
      let there =
        held_is_some (key_of c request) j.placements
          (guards-holds c horizon (key_of c request) j g) in
      rw there refl
    where
      held_is_some :
          (key : Text) (m : Map PendingPlacement)
          → holds horizon key m ≡ true
          → is_some (Map.get key m) ≡ true
      held_is_some key m h = is_some_of (Map.get key m) h
        where
          is_some_of :
              (o : Option PendingPlacement)
              → is_some_and o (keeps horizon) ≡ true
              → is_some o ≡ true
          is_some_of none h = ground (arith, h)
          is_some_of (some e) h = refl

  -- A guarded request is refused.
  pub refused-reserve :
      (w₁ w₂ : Write) (request : PredictionPlacementRequest) (j : JournalState c.Bytes)
      → leb_ℤ (cutoff_of request.reserved_at_unix_seconds) horizon ≡ true
      → guards c horizon (key_of c request) j ≡ true
      → is_reserved (reserve c w₁ w₂ request j).0 ≡ false
  unfolding reserve is_reserved
  refused-reserve w₁ w₂ request j early g =
      let now = request.reserved_at_unix_seconds in
      elim (Bool-cases (
        is_valid_input request.account_id request.channel_id request.event_id request.outcome_id
          request.amount)) [
            | inr e ↦ rw e refl
            | inl e ↦ rw e (
                refused-pruned w₂ request (prune_terminal c w₁ now j)
                  (guards-prune_terminal c horizon (key_of c request) w₁ now j early g))
          ]

-- Once a journal with a file has made a reservation, no later request with the same key of account,
-- channel and event is granted one, after any run of reservations, marks, confirmations, rejections,
-- lookups and restarts that leaves the application running, whichever of their writes fail, as long
-- as their clocks agree with one horizon: every pruning, that of the later request too, has its
-- cutoff of seven days at or before it, and every resolution is at or after it.
pub reserve-once :
    (c : JournalCodec) (horizon : ℤ) (w₁ w₂ w₃ w₄ : Write)
    (request again : PredictionPlacementRequest) (j j' : JournalState c.Bytes)
    (ops : List Operation)
    → j.path ≡ true
    → is_reserved (reserve c w₁ w₂ request j).0 ≡ true
    → are_timely horizon ops ≡ true
    → run c ops (some (reserve c w₁ w₂ request j).1) ≡ some j'
    → key_of c again ≡ key_of c request
    → leb_ℤ (cutoff_of again.reserved_at_unix_seconds) horizon ≡ true
    → is_reserved (reserve c w₃ w₄ again j').0 ≡ false
reserve-once c horizon w₁ w₂ w₃ w₄ request again j j' ops p made timely ran same early =
    refused-reserve c horizon w₃ w₄ again j' early (
      rw same (
        kept-run c horizon (key_of c request) ops _ j' timely
          (guards-reserve c horizon w₁ w₂ request j p made) ran))
