-- ===== src/Domain/Json.antt =====
-- The values of serde_json, as far as the runtime reads them.
use twitch_miner_rust.Base.{ℕ, Bool, Option, none, some, leb, if◌then◌else◌}
use twitch_miner_rust.Base.Int.{ℤ, pos, negsuc, i64_max}
use twitch_miner_rust.Base.Text.{Text, text_eq}
use twitch_miner_rust.Domain.Float.{F64}

mutual
  pub data Value : Type 0 where
    null : Value
    bool : Bool → Value
    number : Number → Value
    string : Text → Value
    array : Values → Value
    object : Fields → Value

  pub data Number : Type 0 where
    pos_int : ℕ → Number
    neg_int : ℕ → Number  -- -(n + 1)
    float : F64 → Number

  pub data Values : Type 0 where
    nil : Values
    cons : Value → Values → Values

  pub data Fields : Type 0 where
    end : Fields
    field : Text → Value → Fields → Fields

unfoldable pub get_field : Text → Fields → Option Value
get_field k end = none
get_field k (field j v fs) = let rest = get_field k fs in if text_eq j k then some v else rest

-- `Value::get` with a key: none on anything but an object.
unfoldable pub get_key : Text → Value → Option Value
unfolding get_field
get_key k (object fs) = get_field k fs
get_key k _ = none

unfoldable pub as_str : Value → Option Text
as_str (string s) = some s
as_str _ = none

number_as_i64 : Number → Option ℤ
number_as_i64 (pos_int n) = if leb n i64_max then some (pos n) else none
number_as_i64 (neg_int n) = some (negsuc n)
number_as_i64 (float f) = none

unfoldable pub as_i64 : Value → Option ℤ
unfolding number_as_i64
as_i64 (number n) = number_as_i64 n
as_i64 _ = none
