-- ===== src/Base/Result.antt =====
-- `Result`: fallible steps as values, and the operators that chain them.
use mathlib.Core.Bool.{Bool, true, false}
use mathlib.Core.Option.{Option, none, some}

pub data Result {ℓ} (E : Type 0) (A : Type ℓ) : Type ℓ where
  ok : A → Result E A
  err : E → Result E A

infixl 5 ◌>>=◌ ◌>>◌
unfoldable pub ◌>>=◌ {ℓ κ} :
    {E : Type 0} {A : Type ℓ} {B : Type κ} → Result E A → (A → Result E B) → Result E B
ok a >>= f = f a
err e >>= f = err e

pub data Checked : Type 0 where
  checked : Checked

unfoldable pub ◌>>◌ {ℓ} : {E : Type 0} {B : Type ℓ} → Result E Checked → Result E B → Result E B
unfolding ◌>>=◌
m >> k = m >>= λ _. k

-- An early return of an error.
unfoldable pub refuse_if : {E : Type 0} → Bool → E → Result E Checked
refuse_if true e = err e
refuse_if false e = ok checked

-- `Option::ok_or`.
unfoldable pub ok_or {ℓ} : {E : Type 0} {A : Type ℓ} → Option A → E → Result E A
ok_or none e = err e
ok_or (some a) e = ok a

-- `Result::map_err`.
unfoldable pub map_err {ℓ} : {E F : Type 0} {A : Type ℓ} → (E → F) → Result E A → Result F A
map_err f (ok a) = ok a
map_err f (err e) = err (f e)

-- `Result::ok`.
abbrev pub to_option {ℓ} : {E : Type 0} {A : Type ℓ} → Result E A → Option A
to_option (ok a) = some a
to_option (err e) = none
