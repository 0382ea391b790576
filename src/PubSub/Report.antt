-- ===== src/PubSub/Report.antt =====
-- crates/tm-pubsub/src/topics.rs: the report on the topics that are set up.
use Prim.Native.Nat.{Ordering}
use twitch_miner_rust.Base.{ℕ, suc, ◌+◌, ◌≡◌, refl, arith, Option, none, List, [], ◌∷◌, map, length}
use twitch_miner_rust.Base.Text.{Text, text_cmp}
use twitch_miner_rust.PubSub.Topics.{pubsub_topic_class}

pub record PubSubCapabilityStatus : Type 0 where
  pub topic_class : Text
  pub configured_topics : ℕ
  pub acknowledged_topics : ℕ
  pub last_message_unix : Option ℕ
  pub reconnects : ℕ  -- u64
  pub failure_class : Option Text

pub record PubSubSetupReport : Type 0 where
  pub connection_count : ℕ
  pub total_topics : ℕ
  pub capabilities : List PubSubCapabilityStatus

-- `*counts.entry(class).or_default() += 1`, in a `BTreeMap`.
unfoldable pub count_class : Text → List (Text × ℕ) → List (Text × ℕ)
count_class class [] = (class, 1) ∷ []
count_class class ((k, n) ∷ counts) =
    let rest = count_class class counts in
    elim (text_cmp class k) as (λ _. List (Text × ℕ)) [
      | Ordering.lt ↦ (class, 1) ∷ (k, n) ∷ counts
      | Ordering.eq ↦ (k, n + 1) ∷ counts
      | Ordering.gt ↦ (k, n) ∷ rest
    ]

unfoldable pub count_topics : List (Text × ℕ) → List Text → List (Text × ℕ)
unfolding count_class
count_topics counts [] = counts
count_topics counts (topic ∷ topics) =
    count_topics (count_class (pubsub_topic_class topic) counts) topics

unfoldable pub count_batches : List (Text × ℕ) → List (List Text) → List (Text × ℕ)
unfolding count_topics
count_batches counts [] = counts
count_batches counts (batch ∷ batches) = count_batches (count_topics counts batch) batches

unfoldable pub sum_lengths : List (List Text) → ℕ
sum_lengths [] = 0
sum_lengths (batch ∷ batches) = length batch + sum_lengths batches

unfoldable pub capability : (Text × ℕ) → PubSubCapabilityStatus
capability (topic_class, configured_topics) = record {
  topic_class = topic_class;
  configured_topics = configured_topics;
  acknowledged_topics = 0;
  last_message_unix = none;
  reconnects = 0;
  failure_class = none;
}

unfoldable pub pubsub_setup_report : List (List Text) → PubSubSetupReport
unfolding count_batches sum_lengths capability
pubsub_setup_report topic_batches = record {
  connection_count = length topic_batches;
  total_topics = sum_lengths topic_batches;
  capabilities = map capability (count_batches [] topic_batches);
}

-- The topics that the capabilities of a report count.
unfoldable pub configured : List PubSubCapabilityStatus → ℕ
configured [] = 0
configured (c ∷ cs) = c.configured_topics + configured cs

total : List (Text × ℕ) → ℕ
total [] = 0
total ((k, n) ∷ counts) = n + total counts

total-count_class :
    (class : Text) (counts : List (Text × ℕ))
    → total (count_class class counts) ≡ suc (total counts)
unfolding total count_class
total-count_class class [] = omega arith
total-count_class class ((k, n) ∷ counts) = ground (arith, total-count_class class counts)

total-count_topics :
    (counts : List (Text × ℕ)) (topics : List Text)
    → total (count_topics counts topics) ≡ total counts + length topics
unfolding count_topics
total-count_topics counts [] = omega arith
total-count_topics counts (t ∷ topics) = omega (
  arith,
  total-count_class (pubsub_topic_class t) counts,
  total-count_topics (count_class (pubsub_topic_class t) counts) topics,
)

total-count_batches :
    (counts : List (Text × ℕ)) (batches : List (List Text))
    → total (count_batches counts batches) ≡ total counts + sum_lengths batches
unfolding count_batches sum_lengths
total-count_batches counts [] = omega arith
total-count_batches counts (b ∷ batches) =
    omega (arith, total-count_topics counts b, total-count_batches (count_topics counts b) batches)

configured-map : (counts : List (Text × ℕ)) → configured (map capability counts) ≡ total counts
unfolding configured total capability
configured-map [] = refl
configured-map ((k, n) ∷ counts) = omega (arith, configured-map counts)

-- The capabilities of a report count every topic of the batches once.
pub pubsub_setup_report-configured :
    (batches : List (List Text))
    → configured (pubsub_setup_report batches).capabilities
      ≡ (pubsub_setup_report batches).total_topics
unfolding pubsub_setup_report total
pubsub_setup_report-configured batches =
    omega (arith, configured-map (count_batches [] batches), total-count_batches [] batches)
