-- ===== src/App/Journal.antt =====
-- crates/tm-app/src/prediction_journal.rs: the journal of the placements. The clock, the outcome of
-- every write and the bytes that serde_json makes are parameters; the lock is held by each operation.
pub mod Files
pub mod Operations
pub mod Guarded
pub mod Steps
pub mod Accepted
pub mod Placed
pub mod Restart
use twitch_miner_rust.Base.{
  ℕ, suc, ◌+◌, ◌*◌, ◌≡◌, Bool, true, false, not, ◌&&◌, ◌||◌, Option, none, some, List, [], ◌∷◌,
  ◌++◌, length, if◌then◌else◌, is_empty, is_some, unwrap_or, leb, ltb, ◌==◌,
}
use twitch_miner_rust.Base.Int.{ℤ, pos, negsuc, leb_ℤ, ltb_ℤ, saturating_sub}
use twitch_miner_rust.Base.Map.{Map}
use twitch_miner_rust.Base.Map
use twitch_miner_rust.Base.Result.{Result, ok, err}
use twitch_miner_rust.Base.Text.{Text, text_eq, is_blank}

abbrev pub journal_schema_version : ℕ
journal_schema_version = 1

abbrev pub max_pending_placements : ℕ
max_pending_placements = 128

abbrev pub max_journal_bytes : ℕ
max_journal_bytes = 256 * 1024

abbrev pub terminal_tombstone_ttl_seconds : ℕ
terminal_tombstone_ttl_seconds = 7 * 24 * 60 * 60

pub data PlacementStatus : Type 0 where
  in_flight unknown confirmed rejected : PlacementStatus  -- in_flight is `Pending`

pub record PendingPlacement : Type 0 where
  pub account_id : Text
  pub channel_id : Text
  pub event_id : Text
  pub choice : Option ℕ
  pub outcome_id : Text
  pub amount : ℤ
  pub reserved_at_unix_seconds : ℤ
  pub resolved_at_unix_seconds : Option ℤ
  pub status : PlacementStatus

pub record PredictionPlacementRequest : Type 0 where
  pub account_id : Text
  pub channel_id : Text
  pub event_id : Text
  pub choice : Option ℕ
  pub outcome_id : Text
  pub amount : ℤ
  pub reserved_at_unix_seconds : ℤ

pub record PredictionPlacementReservation : Type 0 where
  pub choice : Option ℕ
  pub outcome_id : Text
  pub amount : ℤ
  pub status : PlacementStatus

pub record JournalSnapshot : Type 0 where
  pub schema_version : ℕ
  pub placements : Map PendingPlacement

-- What serde_json makes of a snapshot, with the newline that ends the file.
pub record JournalCodec : Type 1 where
  pub Bytes : Type 0
  pub encode : JournalSnapshot → Option Bytes
  pub decode : Bytes → Option JournalSnapshot
  pub size : Bytes → ℕ
  -- A snapshot that was serialized is read back.
  pub decode_encode : (s : JournalSnapshot) (b : Bytes) → encode s ≡ some b → decode b ≡ some s

-- The errors of the journal, without their texts.
pub data JournalError : Type 0 where
  invalid_reservation unresolved_limit byte_capacity not_serialized not_persisted : JournalError
  file_too_large file_malformed schema_unsupported unresolved_overflow invalid_entry : JournalError

-- `path` is whether there is one; `file` is what stands there.
pub record JournalState (B : Type 0) : Type 0 where
  pub path : Bool
  pub placements : Map PendingPlacement
  pub capacity_blocked : Bool
  pub file : Option B

-- How a write ends: done, failed before the file was replaced, or failed after it.
pub data Write : Type 0 where
  written failed unsynced : Write

abbrev pub is_written : Write → Bool
is_written written = true
is_written _ = false

unfoldable pub journal_key : Text → Text → Text → Text
journal_key account_id channel_id event_id = account_id ++ 0 ∷ channel_id ++ 0 ∷ event_id

unfoldable pub is_unresolved : PendingPlacement → Bool
is_unresolved entry = elim entry.status [
  | in_flight ↦ true
  | unknown ↦ true
  | confirmed ↦ false
  | rejected ↦ false
]

unfoldable pub unresolved_count : Map PendingPlacement → ℕ
unfolding is_unresolved
unresolved_count [] = 0
unresolved_count ((k, entry) ∷ m) =
    let rest = unresolved_count m in if is_unresolved entry then suc rest else rest

-- `validate_reservation_input`.
unfoldable pub is_valid_input : Text → Text → Text → Text → ℤ → Bool
is_valid_input account_id channel_id event_id outcome_id amount =
    not (is_blank account_id)
    && not (is_blank channel_id)
    && not (is_blank event_id)
    && not (is_blank outcome_id)
    && ltb_ℤ (pos 0) amount

-- The test of `validate_pending` on one entry.
unfoldable pub is_valid_entry : Text → PendingPlacement → Bool
unfolding is_valid_input journal_key
is_valid_entry key entry =
    is_valid_input entry.account_id entry.channel_id entry.event_id entry.outcome_id entry.amount
    && text_eq key (journal_key entry.account_id entry.channel_id entry.event_id)

unfoldable pub are_valid_entries : Map PendingPlacement → Bool
unfolding is_valid_entry
are_valid_entries [] = true
are_valid_entries ((key, entry) ∷ m) = is_valid_entry key entry && are_valid_entries m

unfoldable pub validate_pending : Map PendingPlacement → Option JournalError
unfolding unresolved_count are_valid_entries
validate_pending m =
    if ltb max_pending_placements (unresolved_count m)
    then some unresolved_overflow
    else if are_valid_entries m
    then none
    else some invalid_entry

abbrev pub snapshot : Map PendingPlacement → JournalSnapshot
snapshot m = record { schema_version = journal_schema_version; placements = m }

-- The largest form that an entry can take on.
unfoldable pub largest_entry : PendingPlacement → PendingPlacement
largest_entry entry = elim entry.status as (λ _. PendingPlacement) [
  | confirmed ↦ entry
  | _ ↦ record entry {
    status = confirmed;
    resolved_at_unix_seconds = some (negsuc 9223372036854775807);
  }
]

unfoldable pub largest_entries : Map PendingPlacement → Map PendingPlacement
unfolding largest_entry
largest_entries [] = []
largest_entries ((key, entry) ∷ m) = (key, largest_entry entry) ∷ largest_entries m

-- Whether `prune_terminal` keeps an entry.
unfoldable pub keeps : ℤ → PendingPlacement → Bool
unfolding is_unresolved
keeps cutoff entry =
    is_unresolved entry
    || leb_ℤ cutoff (unwrap_or entry.resolved_at_unix_seconds entry.reserved_at_unix_seconds)

unfoldable pub retained : ℤ → Map PendingPlacement → Map PendingPlacement
unfolding keeps
retained cutoff [] = []
retained cutoff ((key, entry) ∷ m) =
    let rest = retained cutoff m in if keeps cutoff entry then (key, entry) ∷ rest else rest

unfoldable pub cutoff_of : ℤ → ℤ
cutoff_of now_unix_seconds = saturating_sub now_unix_seconds (pos terminal_tombstone_ttl_seconds)
