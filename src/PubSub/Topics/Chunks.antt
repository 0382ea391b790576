-- ===== src/PubSub/Topics/Chunks.antt =====
-- The batches of topics: none lost, none too large, not too many.
use twitch_miner_rust.Base.{
  ℕ, ◌+◌, ◌*◌, ◌≤◌, ◌≡◌, refl, sym, ap, inl, inr, arith, Bool, true, false, Option, none, some,
  List, [], ◌∷◌, ◌++◌, length, ◌==◌, Bool-cases, length-snoc, leb, ◌&&◌, not, is_empty, map_option,
  some_eq,
}
use twitch_miner_rust.Base.Text.{Text}
use twitch_miner_rust.Domain.Streamer.{Streamer}
use twitch_miner_rust.PubSub.Topics.Distinct.{build_topics-led}
use twitch_miner_rust.PubSub.Topics.{
  pubsub_max_topics_per_connection, pubsub_max_connections, chunks_from, chunk_topics, build_topics,
  build_topic_batches,
}

-- The topics of some batches, one batch after the other.
unfoldable pub flatten : List (List Text) → List Text
flatten [] = []
flatten (b ∷ bs) = b ++ flatten bs

-- Every batch has a topic, and no more topics than a connection takes.
unfoldable pub are_batches : List (List Text) → Bool
are_batches [] = true
are_batches (b ∷ bs) =
    not (is_empty b) && leb (length b) pubsub_max_topics_per_connection && are_batches bs

append_nil : (xs : List Text) → xs ++ [] ≡ xs
append_nil [] = refl
append_nil (x ∷ xs) = ap (λ ys. x ∷ ys) (append_nil xs)

append_snoc : (xs : List Text) (t : Text) (ys : List Text) → (xs ++ t ∷ []) ++ ys ≡ xs ++ t ∷ ys
append_snoc [] t ys = refl
append_snoc (x ∷ xs) t ys = ap (λ zs. x ∷ zs) (append_snoc xs t ys)

flatten-chunks_from :
    (n : ℕ) (current topics : List Text)
    → flatten (chunks_from n current topics) ≡ current ++ topics
unfolding flatten chunks_from
flatten-chunks_from n current [] = refl
flatten-chunks_from n current (t ∷ topics) = elim (Bool-cases (length current == n)) [
  | inl e ↦ rw (e, flatten-chunks_from n (t ∷ []) topics) refl
  | inr e ↦ rw (e, flatten-chunks_from n (current ++ t ∷ []) topics) (append_snoc current t topics)
]

is_empty-snoc : (xs : List Text) (x : Text) → is_empty (xs ++ x ∷ []) ≡ false
is_empty-snoc [] x = refl
is_empty-snoc (y ∷ xs) x = refl

are_batches-chunks_from :
    (current topics : List Text)
    → is_empty current ≡ false
    → length current ≤ 50
    → are_batches (chunks_from 50 current topics) ≡ true
unfolding are_batches chunks_from
are_batches-chunks_from current [] h b = ground (arith, h, b)
are_batches-chunks_from current (t ∷ topics) h b = elim (Bool-cases (length current == 50)) [
  | inl e ↦ rw e (ground (arith, h, b, are_batches-chunks_from (t ∷ []) topics refl (omega arith)))
  | inr e ↦ rw e (
      are_batches-chunks_from (current ++ t ∷ []) topics (is_empty-snoc current t)
        (ground (arith, length-snoc current t, b, e)))
]

length-chunks_from :
    (current topics : List Text)
    → 1 ≤ length current
    → length (chunks_from 50 current topics) * 50 ≤ length current + length topics + 49
unfolding chunks_from
length-chunks_from current [] h = ground (arith, h)
length-chunks_from current (t ∷ topics) h = elim (Bool-cases (length current == 50)) [
  | inl e ↦ rw e (ground (arith, h, e, length-chunks_from (t ∷ []) topics (omega arith)))
  | inr e ↦ rw e (
      ground (
        arith,
        length-snoc current t,
        length-chunks_from (current ++ t ∷ []) topics (ground (arith, length-snoc current t)),
      ))
]

pub flatten-chunk_topics : (topics : List Text) → flatten (chunk_topics topics) ≡ topics
unfolding flatten chunk_topics
flatten-chunk_topics [] = refl
flatten-chunk_topics (t ∷ topics) = flatten-chunks_from 50 (t ∷ []) topics

pub are_batches-chunk_topics : (topics : List Text) → are_batches (chunk_topics topics) ≡ true
unfolding are_batches chunk_topics
are_batches-chunk_topics [] = refl
are_batches-chunk_topics (t ∷ topics) = are_batches-chunks_from (t ∷ []) topics refl (omega arith)

pub length-chunk_topics :
    (topics : List Text) → length (chunk_topics topics) * 50 ≤ length topics + 49
unfolding chunk_topics
length-chunk_topics [] = omega arith
length-chunk_topics (t ∷ topics) = omega (arith, length-chunks_from (t ∷ []) topics (omega arith))

map_option-some :
    (o : Option (List Text)) (batches : List (List Text))
    → map_option chunk_topics o ≡ some batches
    → (topics : List Text) × (o ≡ some topics) × (batches ≡ chunk_topics topics)
map_option-some none batches h = ground (arith, h)
map_option-some (some topics) batches h =
    (topics, refl, sym (some_eq (chunk_topics topics) batches h))

-- The batches hold, one after the other, exactly the topics of the user, in their order; they are
-- at most ten, and none is empty or larger than a connection allows.
pub build_topic_batches_lem :
    (user_id : Text) (streamers : List Streamer) (batches : List (List Text))
    → build_topic_batches user_id streamers ≡ some batches
    → (build_topics user_id streamers ≡ some (flatten batches))
      × (are_batches batches ≡ true)
      × (length batches ≤ pubsub_max_connections)
unfolding build_topic_batches
build_topic_batches_lem user_id streamers batches h =
    let (topics, built, chunked) = map_option-some (build_topics user_id streamers) batches h in
    let few = (build_topics-led user_id streamers topics built).1 in
    rw (chunked, flatten-chunk_topics topics)
      (built, are_batches-chunk_topics topics, omega (arith, few, length-chunk_topics topics))
