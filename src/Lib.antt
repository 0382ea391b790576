-- ===== src/Lib.antt =====
-- A model of the Twitch channel-points miner: the decisions on predictions and the state of the
-- runtime, with the theorems that make them correct.
--
-- The program. Transports (crates/tm-pubsub, crates/tm-twitch) turn messages of the platform into
-- events and responses, and refuse what is malformed. The runtime (crates/tm-runtime) holds one
-- state; it applies each event and each response under a lock and returns effects, such as a bonus
-- to claim or a prediction to evaluate. The application (crates/tm-app) carries them out and
-- reports back: a bet is reserved, then placed, refused or left unknown. Before the request its
-- journal writes the reservation to a file, so that a stake whose answer is lost is not spent again
-- after a restart. The decisions and the data of a channel are in crates/tm-domain. The state is
-- bounded everywhere, since the program runs for months, and most of its guards are against
-- messages that come late, twice or in another order.
--
-- The files.
--   Base          what the code takes from Rust: Boolean tests, vectors, maps, texts, `i64` and `u64`
--                 with their saturating and wrapping operations, sorting.
--   Domain/Float, Domain/Platform  an `f64` is its bit pattern, whose comparisons are defined; the
--                 rounding arithmetic of `f64`, the format `{:.2}` and the Unicode case mappings are
--                 fields of a record Platform, an argument of what uses them. Of these only the case
--                 mappings of ASCII texts are assumed.
--   Domain/Settings, Stream, Streamer  crates/tm-domain/src/types.rs: settings, `Stream` and its
--                 clock, `Streamer`, its context, `CommunityGoal`.
--   Domain/Json   the values of serde_json that the runtime reads.
--   Domain/PredictionEvent, Prediction/Choice, Stake, Settlement  crates/tm-domain/src/prediction.rs:
--                 `select_outcome`, `decide_with_stealth_offset`, `parse_result`, `decision_label`;
--                 Prediction/Filter has `should_skip_by_filter`, Prediction/Display the
--                 text of an outcome.
--   Domain/Formatting, Events  crates/tm-domain/src/formatting.rs, events.rs.
--   Domain/Priority, Watch  crates/tm-domain/src/watch.rs: the priorities; `ChannelScore`; and
--                 `pick_streamers_to_watch`, its candidates in Watch/Candidates, their orders in
--                 Watch/Ranking and the choice in Watch/Pick. Admitted, Selection and
--                 Eligible hold the proofs.
--   Runtime/State  crates/tm-runtime/src/types.rs and effect.rs: `RuntimeState`, the updates, the
--                 effects, and the lookup of a channel.
--   Runtime/Dedupe  the queues of identities at the end of crates/tm-runtime/src/state.rs.
--   Runtime/Presence, Requests, Watching  the methods of `RuntimeState` on presence, on the requests
--                 for context and stream data with their generations, and on watch progress.
--   Runtime/Points  crates/tm-runtime/src/summary.rs: `apply_pubsub_gain`, `update_history`.
--   Runtime/Settlement  crates/tm-runtime/src/prediction.rs.
--   Runtime/Predictions, Completion  the placement of a bet and the end of a prediction.
--   Runtime/Events, PredictionEvents, Reducer  `apply_event_with_outcome`, one function to each arm.
--   Runtime/Reload  `apply_config_reload` and `retire_streamer`.
--   Runtime/Selections  the channels that the state selects to watch and to chat in.
--   PubSub/Topics, Report  crates/tm-pubsub/src/topics.rs: topics, batches, payloads, setup report.
--   PubSub/Protocol  errors.rs and types.rs of that crate. What its parsers take from serde_json and
--                 from the crate time is the record Formats, of which nothing is assumed.
--   PubSub/Payload, Notices, Message, Transport  parse.rs of that crate, one function to each parser.
--   PubSub/Prediction  prediction.rs of that crate. PubSub/Good has the steps of the proofs.
--   App/Journal   crates/tm-app/src/prediction_journal.rs: the records and the tests on entries.
--                 Files has the file and its loading, Operations the methods, Steps/Run the runs
--                 with restarts. A write is done, fails before the file is replaced, or after it.
--                 The bytes of serde_json are the record JournalCodec: what was serialized is
--                 assumed to be read back.
--   Witnesses     the theorems applied to concrete data.
-- A child module named for what it proves (Bounds, Once, Stale, ...) holds the proofs of its parent.
--
-- How code becomes definitions. A method on `&mut self` is a function from the state to the new state
-- and the result. A write through a borrowed channel is `replace_streamer`, which writes the first
-- channel of that id, as `find` does. A `HashMap` is an association list in iteration order, a
-- `VecDeque` a list, a text the list of its code points, a time its nanoseconds. Where the source
-- moves an entry out of a map and puts it back, the model removes and inserts it. Integers keep their
-- width: a saturating operation saturates, and a subtraction without a check wraps, as in the release
-- build.
--
-- Fuel. The loop that makes room in a queue of identities runs on the length of the queue and one: a
-- round removes an element, so the queue has room before the fuel runs out. The digits of a number
-- are printed on a fuel of the number itself.
--
-- Not modelled: the tokio lock of crates/tm-runtime/src/handle.rs and the mutex of the journal, the
-- text of the session summary, the construction of the state from the configuration, the web sockets
-- of crates/tm-pubsub with the Hermes and EventSub protocols, the system calls of the journal, and
-- the crates that talk to the network, to files and to the terminal. The sort of the strategy Smart is
-- modelled where no percentage is a NaN.
pub mod Base
pub mod Domain
pub mod Runtime
pub mod PubSub
pub mod App
mod Witnesses
