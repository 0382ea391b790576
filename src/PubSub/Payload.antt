-- ===== src/PubSub/Payload.antt =====
-- crates/tm-pubsub/src/parse.rs: reading the JSON of a message.
use twitch_miner_rust.Base.{
  ℕ, Bool, not, ◌&&◌, ◌||◌, Option, none, some, List, [], ◌∷◌, ◌++◌, length, if◌then◌else◌,
  is_empty, any, leb, ◌==◌, map_option, filter_option, or_option,
}
use twitch_miner_rust.Base.Int.{ℤ, pos, negsuc, leb_ℤ}
use twitch_miner_rust.Base.Text.{Text, str, trim}
use twitch_miner_rust.Domain.Float.{F64}
use twitch_miner_rust.Domain.Json.{
  Value, Values, null, bool, number, array, object, pos_int, neg_int, float, field, end, get_key,
  as_str, as_i64,
}
use twitch_miner_rust.Domain.Platform.{Platform}

-- `Option::and_then`.
abbrev pub and_then {ℓ κ} : {A : Type ℓ} {B : Type κ} → Option A → (A → Option B) → Option B
and_then none f = none
and_then (some a) f = f a

-- `Value::pointer`, of keys; no key here is the index of an array.
unfoldable pub pointer : List Text → Value → Option Value
pointer [] value = some value
pointer (key ∷ keys) value = and_then (get_key key value) (pointer keys)

unfoldable pub as_bool : Value → Option Bool
as_bool (bool b) = some b
as_bool _ = none

unfoldable pub as_array : Value → Option Values
as_array (array vs) = some vs
as_array _ = none

unfoldable pub as_f64 : Platform → Value → Option F64
as_f64 p (number (pos_int n)) = some (p.f64_of_int (pos n))
as_f64 p (number (neg_int n)) = some (p.f64_of_int (negsuc n))
as_f64 p (number (float f)) = some f
as_f64 p _ = none

-- `json!` of an `i64`.
unfoldable pub number_of : ℤ → Value
number_of (pos n) = number (pos_int n)
number_of (negsuc n) = number (neg_int n)

-- `filter(|value| !value.is_empty())`.
unfoldable pub nonempty : Option Text → Option Text
nonempty o = filter_option (λ value. not (is_empty value)) o

-- `and_then(Value::as_str).map(str::trim).filter(|value| !value.is_empty())`.
unfoldable pub trimmed_text : Option Value → Option Text
unfolding nonempty
trimmed_text o = nonempty (map_option trim (and_then o as_str))

-- `and_then(Value::as_i64).filter(|value| *value >= 0)`.
unfoldable pub nonnegative : Option Value → Option ℤ
nonnegative o = filter_option (λ value. leb_ℤ (pos 0) value) (and_then o as_i64)

unfoldable pub channel_id_from_payload_only : Value → Option Text
unfolding pointer nonempty
channel_id_from_payload_only payload =
    let text_at = λ (keys : List Text). and_then (pointer keys payload) as_str in
    nonempty (
      map_option trim (
        or_option (text_at (str "data" ∷ str "prediction" ∷ str "channel_id" ∷ [])) (
          or_option (text_at (str "data" ∷ str "claim" ∷ str "channel_id" ∷ [])) (
            or_option (text_at (str "data" ∷ str "channel_id" ∷ []))
              (text_at (str "data" ∷ str "balance" ∷ str "channel_id" ∷ []))))))

-- `split_once('.')`, the part after the dot.
unfoldable pub after_dot : Text → Option Text
after_dot [] = none
after_dot (c ∷ s) = let rest = after_dot s in if c == b'.' then some s else rest

unfoldable pub topic_channel_id : Text → Option Text
unfolding after_dot nonempty
topic_channel_id topic = nonempty (map_option trim (after_dot topic))

unfoldable pub channel_id_from_payload : Value → Text → Text
unfolding channel_id_from_payload_only topic_channel_id
channel_id_from_payload payload topic =
    elim (or_option (channel_id_from_payload_only payload) (topic_channel_id topic))
      as (λ _. Text) [ none ↦ [] | some id ↦ id ]

-- A byte of a reason code.
unfoldable pub is_reason_byte : ℕ → Bool
is_reason_byte c =
    (leb b'0' c && leb c b'9')
    || (leb b'A' c && leb c b'Z')
    || (leb b'a' c && leb c b'z')
    || c == b'_'

-- A text of such bytes has as many code points as bytes.
unfoldable pub valid_reason_code : Text → Bool
unfolding is_reason_byte
valid_reason_code value =
    not (is_empty value) && leb (length value) 64 && not (any (λ c. not (is_reason_byte c)) value)

-- `cloned().unwrap_or(Value::Null)`.
unfoldable pub or_null : Option Value → Value
or_null none = null
or_null (some value) = value

-- The keys of the object stand in their order.
unfoldable pub normalize_goal_value : Value → Value
unfolding or_null
normalize_goal_value value = object (
    field (str "amount_needed") (or_null (get_key (str "goal_amount") value)) (
      field (str "id") (or_null (get_key (str "id") value)) (
        field (str "is_in_stock") (or_null (get_key (str "is_in_stock") value)) (
          field (str "per_stream_user_maximum_contribution")
            (or_null (get_key (str "per_stream_maximum_user_contribution") value))
            (field (str "points_contributed") (or_null (get_key (str "points_contributed") value)) (
              field (str "status") (or_null (get_key (str "status") value))
                (field (str "title") (or_null (get_key (str "title") value)) end)))))))

unfoldable pub bad_auth_cookie_file : Option Text → Text
unfolding nonempty
bad_auth_cookie_file username = elim (nonempty (map_option trim username)) as (λ _. Text) [
  | none ↦ str "cookies/<username>.json"
  | some name ↦ str "cookies/" ++ name ++ str ".json"
]
