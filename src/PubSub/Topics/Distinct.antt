-- ===== src/PubSub/Topics/Distinct.antt =====
-- The topics: bounded in number, none twice, the user's first.
use twitch_miner_rust.Base.{
  ℕ, zero, suc, ◌≤◌, ◌≡◌, refl, inl, inr, arith, Bool, true, false, not, ◌&&◌, ◌||◌, some, List, [],
  ◌∷◌, ◌++◌, length, Bool-cases, is_empty, any, ltb, some_eq,
}
use twitch_miner_rust.Base.Text.{Text, text_eq, text_eq_refl, contains, str, trim, is_blank}
use twitch_miner_rust.Domain.Streamer.{Streamer}
use twitch_miner_rust.Domain.Priority.Normal.{is_distinct, is_distinct-snoc}
use twitch_miner_rust.PubSub.Topics.{
  take, pubsub_max_topics, push_unique, push_if, push_all, push_channel, push_channels,
  presence_topics, user_topics, all_topics, build_topics,
}

-- Distinct texts, the first of which is a given one.
unfoldable pub is_led_by : Text → List Text → Bool
is_led_by first [] = false
is_led_by first (t ∷ ts) = text_eq t first && is_distinct (t ∷ ts)

module _ (first : Text) where
  led-push_unique :
      (ts : List Text) (t : Text)
      → is_led_by first ts ≡ true
      → is_led_by first (push_unique ts t) ≡ true
  unfolding is_led_by push_unique
  led-push_unique [] t h = ground (arith, h)
  led-push_unique (s ∷ ts) t h = elim (Bool-cases (not (is_empty t) && not (contains (s ∷ ts) t))) [
    | inr e ↦ rw e h
    | inl e ↦ rw e (ground (arith, h, e, is_distinct-snoc (s ∷ ts) t))
  ]

  led-push_if :
      (b : Bool) (ts : List Text) (t : Text)
      → is_led_by first ts ≡ true
      → is_led_by first (push_if b ts t) ≡ true
  unfolding push_if
  led-push_if true ts t h = led-push_unique ts t h
  led-push_if false ts t h = h

  led-push_all :
      (ts us : List Text) → is_led_by first ts ≡ true → is_led_by first (push_all ts us) ≡ true
  unfolding push_all
  led-push_all ts [] h = h
  led-push_all ts (u ∷ us) h = led-push_all (push_unique ts u) us (led-push_unique ts u h)

  led-push_channel :
      (ts : List Text) (s : Streamer)
      → is_led_by first ts ≡ true
      → is_led_by first (push_channel ts s) ≡ true
  unfolding push_channel
  led-push_channel ts s h =
      let id = trim s.channel_id in
      led-push_if s.settings.community_goals _ (str "community-points-channel-v1." ++ id) (
        led-push_if s.settings.claim_moments _ (str "community-moments-channel-v1." ++ id) (
          led-push_if s.settings.make_predictions _ (str "predictions-channel-v1." ++ id)
            (led-push_if s.settings.follow_raid ts (str "raid." ++ id) h)))

  led-push_channels :
      (ts : List Text) (ss : List Streamer)
      → is_led_by first ts ≡ true
      → is_led_by first (push_channels ts ss) ≡ true
  unfolding push_channels
  led-push_channels ts [] h = h
  led-push_channels ts (s ∷ ss) h = elim (Bool-cases (is_blank s.channel_id)) [
    | inl e ↦ rw e (led-push_channels ts ss h)
    | inr e ↦ rw e (led-push_channels (push_channel ts s) ss (led-push_channel ts s h))
  ]

contains-take :
    (n : ℕ) (ts : List Text) (t : Text) → contains ts t ≡ false → contains (take n ts) t ≡ false
unfolding contains take
contains-take zero ts t h = refl
contains-take (suc n) [] t h = refl
contains-take (suc n) (s ∷ ts) t h = ground (arith, h, contains-take n ts t)

is_distinct-take : (n : ℕ) (ts : List Text) → is_distinct ts ≡ true → is_distinct (take n ts) ≡ true
unfolding is_distinct take
is_distinct-take zero ts h = refl
is_distinct-take (suc n) [] h = refl
is_distinct-take (suc n) (s ∷ ts) h = ground (arith, h, is_distinct-take n ts, contains-take n ts s)

led-take :
    (first : Text) (n : ℕ) (ts : List Text)
    → is_led_by first ts ≡ true
    → is_led_by first (take (suc n) ts) ≡ true
unfolding is_led_by take
led-take first n [] h = h
led-take first n (t ∷ ts) h = ground (arith, h, is_distinct-take (suc n) (t ∷ ts))

length-take : (n : ℕ) (ts : List Text) → length (take n ts) ≤ n
unfolding take
length-take zero ts = omega arith
length-take (suc n) [] = omega arith
length-take (suc n) (t ∷ ts) = omega (arith, length-take n ts)

not_ltb : (a b : ℕ) → ltb a b ≡ false → b ≤ a
not_ltb a b h = ground arith

led-first :
    (user_id : Text)
    → is_led_by
        (str "community-points-user-v1." ++ trim user_id)
        (push_unique [] (str "community-points-user-v1." ++ trim user_id))
      ≡ true
unfolding is_led_by push_unique is_distinct contains
led-first user_id = ground (arith, text_eq_refl (str "community-points-user-v1." ++ trim user_id))

led-all_topics :
    (user_id : Text) (streamers : List Streamer)
    → is_led_by (str "community-points-user-v1." ++ trim user_id) (all_topics user_id streamers)
      ≡ true
unfolding all_topics user_topics
led-all_topics user_id streamers =
    let first = str "community-points-user-v1." ++ trim user_id in
    led-push_all first _ (presence_topics streamers) (
      led-push_channels first _ streamers (
        led-push_if first (any (λ s. s.settings.farm_drops || s.settings.claim_drops) streamers) _
          (str "user-drop-events." ++ trim user_id)
          (led-push_if first (any (λ s. s.settings.make_predictions) streamers) _
            (str "predictions-user-v1." ++ trim user_id) (led-first user_id))))

-- The topics of a user are at most 500 distinct ones, whatever the streamers, and the first is the
-- one on the points of the user, its identifier trimmed.
pub build_topics-led :
    (user_id : Text) (streamers : List Streamer) (topics : List Text)
    → build_topics user_id streamers ≡ some topics
    → (is_led_by (str "community-points-user-v1." ++ trim user_id) topics ≡ true)
      × (length topics ≤ pubsub_max_topics)
unfolding build_topics
build_topics-led user_id streamers topics h =
    let all = all_topics user_id streamers in
    elim (Bool-cases (is_blank user_id)) [
      | inl e ↦ let h1 = rw e at h in ground (arith, h1)
      | inr e ↦ elim (Bool-cases (ltb pubsub_max_topics (length all))) [
        | inl f ↦
            let same = some_eq (take 500 all) topics (rw (e, f) at h) in
            rw (← same) (led-take _ 499 all (led-all_topics user_id streamers), length-take 500 all)
        | inr f ↦
            let same = some_eq all topics (rw (e, f) at h) in
            rw (← same) (led-all_topics user_id streamers, not_ltb pubsub_max_topics (length all) f)
      ]
    ]
