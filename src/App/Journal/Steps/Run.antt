-- ===== src/App/Journal/Steps/Run.antt =====
-- The journal over a run of operations and restarts.
use twitch_miner_rust.Base.{Bool, true, false, ◌&&◌, Option, none, some, List, [], ◌∷◌}
use twitch_miner_rust.Base.Int.{ℤ, leb_ℤ}
use twitch_miner_rust.Base.Result.{Result, ok, err}
use twitch_miner_rust.Base.Text.{Text}
use twitch_miner_rust.App.Journal.{
  PlacementStatus, PredictionPlacementRequest, JournalCodec, JournalState, JournalError, Write,
  cutoff_of,
}
use twitch_miner_rust.App.Journal.Operations.{lookup, reserve, mark_unknown, resolve}
use twitch_miner_rust.App.Journal.Files.{open_journal}

-- What happens to a journal: its operations, with the outcomes of their writes, and a restart of the
-- application, which opens the file.
pub data Operation : Type 0 where
  reserving : (w₁ w₂ : Write) (request : PredictionPlacementRequest) → Operation
  marking : (w : Write) (account_id channel_id event_id : Text) → Operation
  resolving :
      (w : Write) (now : ℤ) (account_id channel_id event_id : Text) (status : PlacementStatus)
      → Operation
  looking_up : (w : Write) (now : ℤ) (account_id channel_id event_id : Text) → Operation
  restarting : Operation

-- The clocks of an operation agree with a horizon: what it prunes is older, what it resolves is not.
unfoldable pub is_timely : ℤ → Operation → Bool
is_timely horizon (reserving w₁ w₂ request) =
    leb_ℤ (cutoff_of request.reserved_at_unix_seconds) horizon
is_timely horizon (marking w account_id channel_id event_id) = true
is_timely horizon (resolving w now account_id channel_id event_id status) = leb_ℤ horizon now
is_timely horizon (looking_up w now account_id channel_id event_id) = leb_ℤ (cutoff_of now) horizon
is_timely horizon restarting = true

unfoldable pub are_timely : ℤ → List Operation → Bool
unfolding is_timely
are_timely horizon [] = true
are_timely horizon (o ∷ os) = is_timely horizon o && are_timely horizon os

unfoldable pub to_state :
    {B : Type 0} → Result JournalError (JournalState B) → Option (JournalState B)
to_state (ok j) = some j
to_state (err e) = none

-- Whether a reservation was made.
unfoldable pub is_reserved : Result JournalError Bool → Bool
is_reserved (ok b) = b
is_reserved (err e) = false

module _ (c : JournalCodec) where
  -- The state after an operation; none where the application does not start.
  unfoldable pub perform : Operation → JournalState c.Bytes → Option (JournalState c.Bytes)
  unfolding reserve mark_unknown resolve lookup open_journal to_state
  perform (reserving w₁ w₂ request) j = some (reserve c w₁ w₂ request j).1
  perform (marking w account_id channel_id event_id) j =
      some (mark_unknown c w account_id channel_id event_id j).1
  perform (resolving w now account_id channel_id event_id status) j =
      some (resolve c w now account_id channel_id event_id status j).1
  perform (looking_up w now account_id channel_id event_id) j =
      some (lookup c w now account_id channel_id event_id j).1
  perform restarting j = to_state (open_journal c j.file)

  unfoldable pub run :
      List Operation → Option (JournalState c.Bytes) → Option (JournalState c.Bytes)
  unfolding perform
  run [] o = o
  run (op ∷ ops) none = none
  run (op ∷ ops) (some j) = run ops (perform op j)
