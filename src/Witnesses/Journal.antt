-- ===== src/Witnesses/Journal.antt =====
-- A concrete run of the journal of placements.
use twitch_miner_rust.Base.{ℕ, ◌≡◌, refl, sym, true, false, some, none, List, [], ◌∷◌}
use twitch_miner_rust.Base.Int.{pos}
use twitch_miner_rust.Base.Map
use twitch_miner_rust.Base.Result.{ok}
use twitch_miner_rust.Base.Text.{str}
use twitch_miner_rust.App.Journal.{
  JournalCodec, JournalSnapshot, JournalState, PredictionPlacementRequest, PendingPlacement,
  written, failed, unsynced, rejected, snapshot, journal_key,
}
use twitch_miner_rust.App.Journal.Operations.{reserve, key_of}
use twitch_miner_rust.App.Journal.Files.{open_journal}
use twitch_miner_rust.App.Journal.Placed.{new_entry}
use twitch_miner_rust.App.Journal.Restart.{restarted, open_journal-reserve}
use twitch_miner_rust.App.Journal.Steps.Once.{reserve-once}
use twitch_miner_rust.App.Journal.Steps.Run.{
  Operation, marking, resolving, restarting, is_reserved, are_timely, run,
}

-- A codec that stores the snapshot itself and counts 100 bytes to it.
abbrev plain_codec : JournalCodec
plain_codec = record {
  Bytes = JournalSnapshot;
  encode = λ s. some s;
  decode = λ b. some b;
  size = λ b. 100;
  decode_encode = λ s b h. sym h;
}

abbrev first_request : PredictionPlacementRequest
first_request = record {
  account_id = str "u1";
  channel_id = str "c1";
  event_id = str "e1";
  choice = some 0;
  outcome_id = str "blue";
  amount = pos 50;
  reserved_at_unix_seconds = pos 100;
}

abbrev later_request : PredictionPlacementRequest
later_request = record first_request { amount = pos 70; reserved_at_unix_seconds = pos 300 }

abbrev empty_journal : JournalState JournalSnapshot
empty_journal = record { path = true; placements = []; capacity_blocked = false; file = none }

-- The answer is lost, the application starts anew, a rejection is written but not confirmed, and the
-- application starts once more.
abbrev lost_answer : List Operation
lost_answer =
    marking written (str "u1") (str "c1") (str "e1")
    ∷ restarting
    ∷ resolving unsynced (pos 200) (str "u1") (str "c1") (str "e1") rejected
    ∷ restarting
    ∷ []

abbrev rejected_entry : PendingPlacement
rejected_entry = record {
  account_id = str "u1";
  channel_id = str "c1";
  event_id = str "e1";
  choice = some 0;
  outcome_id = str "blue";
  amount = pos 50;
  reserved_at_unix_seconds = pos 100;
  resolved_at_unix_seconds = some (pos 200);
  status = rejected;
}

abbrev rejected_journal : JournalState JournalSnapshot
rejected_journal = record {
  path = true;
  placements = (key_of plain_codec first_request, rejected_entry) ∷ [];
  capacity_blocked = false;
  file = some (snapshot ((key_of plain_codec first_request, rejected_entry) ∷ []));
}

made : is_reserved (reserve plain_codec written written first_request empty_journal).0 ≡ true
unfolding is_reserved reserve twitch_miner_rust.App.Journal.is_valid_input
    twitch_miner_rust.Base.Text.is_blank twitch_miner_rust.App.Journal.retained
    twitch_miner_rust.Base.Map.get twitch_miner_rust.App.Journal.unresolved_count
    twitch_miner_rust.Base.Map.insert
made = refl

timely : are_timely (pos 0) lost_answer ≡ true
unfolding are_timely
timely = refl

ran :
    run plain_codec lost_answer
      (some (reserve plain_codec written written first_request empty_journal).1)
    ≡ some rejected_journal
unfolding run reserve twitch_miner_rust.Base.Map.get twitch_miner_rust.App.Journal.is_valid_input
    twitch_miner_rust.Base.Text.is_blank twitch_miner_rust.App.Journal.retained
    twitch_miner_rust.App.Journal.unresolved_count twitch_miner_rust.Base.Map.insert
    twitch_miner_rust.Base.Text.text_eq twitch_miner_rust.App.Journal.journal_key
    twitch_miner_rust.App.Journal.validate_pending
ran = refl

same_key : key_of plain_codec later_request ≡ key_of plain_codec first_request
unfolding key_of
same_key = refl

reserve-once_example :
    is_reserved (reserve plain_codec written written later_request rejected_journal).0 ≡ false
unfolding twitch_miner_rust.App.Journal.cutoff_of twitch_miner_rust.Base.Int.saturating_sub
    twitch_miner_rust.Base.Int.saturate_i64 twitch_miner_rust.Base.Int.◌-ℤ◌
reserve-once_example =
    reserve-once plain_codec (pos 0) written written written written first_request later_request
      empty_journal rejected_journal lost_answer refl made timely ran same_key refl

open_journal-reserve_example :
    (open_journal plain_codec
        (reserve plain_codec written written first_request empty_journal).1.file
      ≡ ok (
          restarted plain_codec
            (reserve plain_codec written written first_request empty_journal).1))
    × (Map.get
          (journal_key (str "u1") (str "c1") (str "e1"))
          (reserve plain_codec written written first_request empty_journal).1.placements
        ≡ some (new_entry first_request))
unfolding twitch_miner_rust.App.Journal.validate_pending
open_journal-reserve_example =
    open_journal-reserve plain_codec written written first_request empty_journal refl refl made
