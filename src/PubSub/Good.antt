-- ===== src/PubSub/Good.antt =====
-- What a chain of fallible steps gives, step by step: a value that passes a test, or an error that
-- passes another.
use twitch_miner_rust.Base.{
  ◌≡◌, refl, arith, Bool, true, false, Option, none, some, if◌then◌else◌, filter_option, is_empty,
  not,
}
use twitch_miner_rust.Base.Int.{ℤ, pos, leb_ℤ}
use twitch_miner_rust.Base.Text.{Text}
use twitch_miner_rust.Domain.Json.{Value, as_i64}
use twitch_miner_rust.PubSub.Payload.{trimmed_text, nonempty, nonnegative, and_then}
use twitch_miner_rust.PubSub.Protocol.{Result, ok, err, ◌>>=◌, ◌>>◌, refuse_if, ok_or, map_err}

module _ {ℓ} {E : Type 0} {A : Type ℓ} where
  unfoldable pub is_good : (E → Bool) → (A → Bool) → Result E A → Bool
  is_good q p (ok a) = p a
  is_good q p (err e) = q e

module _ {ℓ κ} {E : Type 0} {A : Type ℓ} {B : Type κ} (q : E → Bool) (p : B → Bool) where
  pub good-bind :
      (t : A → Bool) (m : Result E A) (f : A → Result E B)
      → is_good q t m ≡ true
      → ((a : A) → t a ≡ true → is_good q p (f a) ≡ true)
      → is_good q p (m >>= f) ≡ true
  unfolding is_good ◌>>=◌
  good-bind t (ok a) f h g = g a h
  good-bind t (err e) f h g = h

  pub good-ok_or :
      (o : Option A) (e : E) (f : A → Result E B)
      → q e ≡ true
      → ((a : A) → o ≡ some a → is_good q p (f a) ≡ true)
      → is_good q p (ok_or o e >>= f) ≡ true
  unfolding is_good ◌>>=◌ ok_or
  good-ok_or none e f h g = h
  good-ok_or (some a) e f h g = g a refl

module _ {ℓ} {E : Type 0} {A : Type ℓ} (q : E → Bool) (p : A → Bool) where
  pub good-refuse_if :
      (b : Bool) (e : E) (k : Result E A)
      → q e ≡ true
      → (b ≡ false → is_good q p k ≡ true)
      → is_good q p (refuse_if b e >> k) ≡ true
  unfolding is_good ◌>>◌ refuse_if
  good-refuse_if true e k h g = h
  good-refuse_if false e k h g = g refl

  -- A weaker test on errors.
  pub good_weaken :
      (r : E → Bool) (m : Result E A)
      → ((e : E) → r e ≡ true → q e ≡ true)
      → is_good r p m ≡ true
      → is_good q p m ≡ true
  unfolding is_good
  good_weaken r (ok a) g h = h
  good_weaken r (err e) g h = g e h

  pub good-ok : (a : A) → p a ≡ true → is_good q p (ok a) ≡ true
  unfolding is_good
  good-ok a h = h

  pub good-if :
      (b : Bool) (k l : Result E A)
      → (b ≡ true → is_good q p k ≡ true)
      → (b ≡ false → is_good q p l ≡ true)
      → is_good q p (if b then k else l) ≡ true
  good-if true k l g h = g refl
  good-if false k l g h = h refl

module _ {ℓ} {E F : Type 0} {A : Type ℓ} (q : F → Bool) (p : A → Bool) where
  pub good-map_err :
      (g : E → F) (m : Result E A)
      → ((e : E) → q (g e) ≡ true)
      → is_good (λ _. true) p m ≡ true
      → is_good q p (map_err g m) ≡ true
  unfolding is_good map_err
  good-map_err g (ok a) h k = k
  good-map_err g (err e) h k = h e

module _ {ℓ} {A : Type ℓ} where
  -- What a filter lets pass has passed its test.
  pub filter_option-some :
      (p : A → Bool) (o : Option A) (a : A) → filter_option p o ≡ some a → p a ≡ true
  filter_option-some p none a h = ground (arith, h)
  filter_option-some p (some b) a h = filtered (p b) refl h
    where
      filtered : (c : Bool) → p b ≡ c → (if c then some b else none) ≡ some a → p a ≡ true
      filtered true e h1 = ground (arith, e, h1)
      filtered false e h1 = ground (arith, h1)

pub filter_option-same {ℓ} :
    {A : Type ℓ} (p : A → Bool) (o : Option A) (a : A) → filter_option p o ≡ some a → o ≡ some a
filter_option-same p none a h = h
filter_option-same p (some b) a h = filtered (p b) h
  where
    filtered : (c : Bool) → (if c then some b else none) ≡ some a → some b ≡ some a
    filtered true e = e
    filtered false e = ground (arith, e)

pub nonempty-some : (o : Option Text) (t : Text) → nonempty o ≡ some t → is_empty t ≡ false
unfolding nonempty
nonempty-some o t h = ground (arith, filter_option-some (λ value. not (is_empty value)) o t h)

pub trimmed_text-some : (o : Option Value) (t : Text) → trimmed_text o ≡ some t → is_empty t ≡ false
unfolding trimmed_text
trimmed_text-some o t h = nonempty-some _ t h

pub nonnegative-some : (o : Option Value) (n : ℤ) → nonnegative o ≡ some n → leb_ℤ (pos 0) n ≡ true
unfolding nonnegative
nonnegative-some o n h = filter_option-some (λ value. leb_ℤ (pos 0) value) (and_then o as_i64) n h
