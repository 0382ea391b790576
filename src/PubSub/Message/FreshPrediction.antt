-- ===== src/PubSub/Message/FreshPrediction.antt =====
-- `parse_prediction_event` yields a fresh prediction of the streamer.
use twitch_miner_rust.Base.{
  ℕ, suc, ◌≡◌, refl, ap, arith, Bool, true, false, not, ◌&&◌, ◌||◌, Option, none, some, List, [],
  ◌∷◌, map, length, is_empty, unwrap_or, leb, ltb,
}
use twitch_miner_rust.Base.Int.{ℤ, pos, leb_ℤ}
use twitch_miner_rust.Base.Text.{Text, str}
use twitch_miner_rust.Domain.Json.{Value, Values, nil, cons, get_key}
use twitch_miner_rust.Domain.Platform.{Platform}
use twitch_miner_rust.Domain.Prediction.Stake.{update_outcomes, update_outcome}
use twitch_miner_rust.Domain.PredictionEvent.{PredictionEvent, PredictionOutcome}
use twitch_miner_rust.Domain.Streamer.{Streamer}
use twitch_miner_rust.PubSub.Good.{
  is_good, good-ok, good-bind, good-ok_or, good-refuse_if, nonnegative-some,
}
use twitch_miner_rust.PubSub.Message.Parsed.{and-intro, is_full}
use twitch_miner_rust.PubSub.Message.Wellformed.{are_counted, is_tracked, is_fresh_prediction}
use twitch_miner_rust.PubSub.Payload.{as_array}
use twitch_miner_rust.PubSub.Prediction.{
  required_text, nonnegative_alias, parse_prediction_outcome, collect_outcomes, outcomes_in,
  outcomes_of, parse_prediction_outcomes, parse_prediction_event, title_of,
}
use twitch_miner_rust.PubSub.Protocol.{Formats, Result, ok, err, ok_or, to_option}

abbrev any_error : Text → Bool
any_error e = true

abbrev anything {ℓ} : {A : Type ℓ} → A → Bool
anything a = true

good-anything {ℓ} : {A : Type ℓ} (m : Result Text A) → is_good any_error anything m ≡ true
unfolding is_good
good-anything (ok a) = refl
good-anything (err e) = refl

is_counted : PredictionOutcome → Bool
is_counted o = leb_ℤ (pos 0) o.total_users && leb_ℤ (pos 0) o.total_points

good-parse_prediction_outcome :
    (raw : Value) → is_good any_error is_counted (parse_prediction_outcome raw) ≡ true
unfolding parse_prediction_outcome is_counted nonnegative_alias
good-parse_prediction_outcome raw = good-ok_or _ _ _ _ _ refl (λ users users_found.
    good-ok_or _ _ _ _ _ refl (λ points points_found.
      good-bind _ _ anything _ _ (good-anything _) (λ id _.
        good-bind _ _ anything _ _ (good-anything _) (λ title _.
          good-bind _ _ anything _ _ (good-anything _) (λ color _. good-ok _ _ _ (
            and-intro _ _ (nonnegative-some _ users users_found)
              (nonnegative-some _ points points_found)))))))

good-collect_outcomes :
    (raws : Values) → is_good any_error are_counted (collect_outcomes raws) ≡ true
unfolding collect_outcomes are_counted is_counted
good-collect_outcomes nil = good-ok _ _ [] refl
good-collect_outcomes (cons raw raws) =
    good-bind _ _ is_counted (parse_prediction_outcome raw) _ (good-parse_prediction_outcome raw)
      (λ o counted.
        good-bind _ _ are_counted (collect_outcomes raws) _ (good-collect_outcomes raws)
          (λ os all. good-ok _ _ (o ∷ os) (and-intro _ _ counted all)))

counted_or_none :
    (m : Result Text (List PredictionOutcome))
    → is_good any_error are_counted m ≡ true
    → are_counted (unwrap_or (to_option m) []) ≡ true
unfolding is_good are_counted
counted_or_none (ok os) h = h
counted_or_none (err e) h = refl

good-outcomes_in :
    (o : Option Values) (is_created : Bool)
    → is_good any_error are_counted (outcomes_in o is_created) ≡ true
unfolding outcomes_in are_counted is_good
good-outcomes_in none true = refl
good-outcomes_in none false = refl
good-outcomes_in (some raws) true = good-collect_outcomes raws
good-outcomes_in (some raws) false =
    counted_or_none (collect_outcomes raws) (good-collect_outcomes raws)

good-outcomes_of :
    (o : Option Value) (is_created : Bool)
    → is_good any_error are_counted (outcomes_of o is_created) ≡ true
unfolding outcomes_of are_counted is_good
good-outcomes_of none is_created = refl
good-outcomes_of (some raw) is_created = good-outcomes_in (as_array raw) is_created

good-parse_prediction_outcomes :
    (raw : Value) (is_created : Bool)
    → is_good any_error are_counted (parse_prediction_outcomes raw is_created) ≡ true
unfolding parse_prediction_outcomes
good-parse_prediction_outcomes raw is_created =
    good-outcomes_of (get_key (str "outcomes") raw) is_created

full_of :
    (o : Option Text) (e : Text)
    → ((t : Text) → o ≡ some t → not (is_empty t) ≡ true)
    → is_good any_error (λ title. not (is_empty title)) (ok_or o e) ≡ true
unfolding is_good ok_or
full_of none e g = refl
full_of (some t) e g = g t refl

good-required_text :
    (raw : Value) (name e : Text)
    → is_good any_error (λ t. not (is_empty t)) (required_text raw name e) ≡ true
unfolding required_text
good-required_text raw name e = full_of _ e (λ t. is_full (get_key name raw) t)

-- What `update_outcomes` makes of counted outcomes is counted.
are_counted-map :
    (p : Platform) (users points : ℤ) (os : List PredictionOutcome)
    → are_counted (map (update_outcome p users points) os) ≡ are_counted os
unfolding are_counted update_outcome
are_counted-map p users points [] = refl
are_counted-map p users points (o ∷ os) =
    ap (λ rest. leb_ℤ (pos 0) o.total_users && leb_ℤ (pos 0) o.total_points && rest)
      (are_counted-map p users points os)

length-map {ℓ κ} :
    {A : Type ℓ} {B : Type κ} (f : A → B) (xs : List A) → length (map f xs) ≡ length xs
length-map f [] = refl
length-map f (x ∷ xs) = ap suc (length-map f xs)

-- A prediction with its outcomes updated is as fresh as it was.
fresh-update_outcomes :
    (p : Platform) (is_created : Bool) (event : PredictionEvent)
    → is_fresh_prediction is_created (update_outcomes p event)
      ≡ is_fresh_prediction is_created event
unfolding is_fresh_prediction update_outcomes
fresh-update_outcomes p is_created event =
    rw (are_counted-map p _ _ event.outcomes, length-map (update_outcome p _ _) event.outcomes) refl

good-title_of :
    (raw : Value) (is_created : Bool)
    → is_good any_error (λ title. not is_created || not (is_empty title)) (title_of raw is_created)
      ≡ true
unfolding title_of
good-title_of raw true = good-required_text raw _ _
good-title_of raw false = good-ok _ _ _ refl

choice_flags :
    (b : Bool) (n : ℕ) (t : Bool)
    → (b && ltb n 2) ≡ false
    → (not b || t) ≡ true
    → (not b || (leb 2 n && t)) ≡ true
choice_flags b n t g h = ground (arith, g, h)

good_event :
    (p : Platform) (tracked : List Streamer) (is_created : Bool) (event : PredictionEvent)
    → is_tracked tracked event.streamer.channel_id ≡ true
    → is_fresh_prediction is_created event ≡ true
    → (is_tracked tracked (update_outcomes p event).streamer.channel_id
        && is_fresh_prediction is_created (update_outcomes p event))
      ≡ true
unfolding update_outcomes
good_event p tracked is_created event known fresh =
    and-intro _ _ known (rw (fresh-update_outcomes p is_created event) fresh)

-- A parsed prediction is fresh and that of the streamer.
pub good-parse_prediction_event :
    (p : Platform) (f : Formats) (tracked : List Streamer) (streamer : Streamer) (raw : Value)
    (is_created : Bool)
    → is_tracked tracked streamer.channel_id ≡ true
    → is_good any_error
        (λ event.
          is_tracked tracked event.streamer.channel_id && is_fresh_prediction is_created event)
        (parse_prediction_event p f streamer raw is_created)
      ≡ true
unfolding parse_prediction_event is_fresh_prediction
good-parse_prediction_event p f tracked streamer raw is_created known =
    good-bind _ _ anything _ _ (good-anything _) (λ created_at _.
      good-bind _ _ anything _ _ (good-anything _) (λ window _.
        good-bind _ _ are_counted _ _ (good-parse_prediction_outcomes raw is_created)
          (λ outcomes counted. good-refuse_if _ _ _ _ _ refl (λ enough.
            good-bind _ _ (λ t. not (is_empty t)) _ _ (good-required_text raw _ _)
              (λ event_id full.
                good-bind _ _ (λ t. not is_created || not (is_empty t)) _ _
                  (good-title_of raw is_created)
                  (λ title titled. good-bind _ _ anything _ _ (good-anything _) (λ status _.
                    good-refuse_if _ _ _ _ _ refl (λ _. good-ok _ _ _ (
                      good_event p tracked is_created _ known (
                        and-intro _ _
                          (and-intro _ _ (and-intro _ _ (and-intro _ _ full refl) refl) counted)
                          (choice_flags is_created _ _ enough titled)))))))))))
