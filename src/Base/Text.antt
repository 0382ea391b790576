-- ===== src/Base/Text.antt =====
-- Texts as lists of code points: equality, prefixes, trimming and decimal numbers, as the
-- standard library of the code gives them.
use Prim.Native.Nat.{Ordering, compare, ℕ, zero, suc, ◌+◌, ◌-◌, ◌/◌, ◌%◌}
use Prim.Native.Char.{code}
use Prim.Native.String.{String}
use mathlib.Core.Path.{◌≡◌, refl}
use mathlib.Core.Logic.{◌↔◌}
use mathlib.Core.Bool.{Bool, true, false, not, ◌&&◌, ◌||◌}
use mathlib.Core.List.{List, [], ◌∷◌, ◌++◌, reverse, reverse_aux}
use native.Mathlib.Omega.{arith}
use twitch_miner_rust.Base.Tests.{ltb, leb, ◌==◌, if◌then◌else◌}
use twitch_miner_rust.Base.Lists.{is_empty, any}
use twitch_miner_rust.Base.Int.{ℤ, pos, negsuc}

abbrev pub Text : Type 0
Text = List ℕ

-- A literal.
abbrev pub str : String → Text
str String.[] = []
str (String.◌∷◌ c s) = code c ∷ str s

unfoldable pub text_eq : Text → Text → Bool
text_eq [] [] = true
text_eq [] (d ∷ t) = false
text_eq (c ∷ s) [] = false
text_eq (c ∷ s) (d ∷ t) = c == d && text_eq s t

pub text_eq_iff : (s t : Text) → (text_eq s t ≡ true) ↔ (s ≡ t)
unfolding text_eq
text_eq_iff [] [] = ground arith
text_eq_iff [] (d ∷ t) = ground arith
text_eq_iff (c ∷ s) [] = ground arith
text_eq_iff (c ∷ s) (d ∷ t) = ground (arith, text_eq_iff s t)

pub text_eq_refl : (s : Text) → text_eq s s ≡ true
text_eq_refl s = (text_eq_iff s s).1 refl

pub text_eq_symm : (s t : Text) → text_eq s t ≡ text_eq t s
text_eq_symm s t = ground (arith, text_eq_iff s t, text_eq_iff t s)

-- `key.starts_with(prefix)`.
unfoldable pub starts_with : Text → Text → Bool
starts_with key [] = true
starts_with [] (c ∷ s) = false
starts_with (d ∷ key) (c ∷ s) = d == c && starts_with key s

pub starts_with-append : (s t : Text) → starts_with (s ++ t) s ≡ true
unfolding starts_with
starts_with-append [] t = refl
starts_with-append (c ∷ s) t = ground (arith, starts_with-append s t)

pub append_cancel : (p s t : Text) → p ++ s ≡ p ++ t → s ≡ t
append_cancel [] s t h = h
append_cancel (c ∷ p) s t h = append_cancel p s t (cc)

-- `values.contains(value)`, and `iter().any(|existing| existing == value)`.
unfoldable pub contains : List Text → Text → Bool
contains [] t = false
contains (s ∷ ss) t = text_eq s t || contains ss t

pub contains-append :
    (values rest : List Text) (value : Text)
    → contains (values ++ rest) value ≡ (contains values value || contains rest value)
unfolding contains
contains-append [] rest value = refl
contains-append (v ∷ values) rest value = ground (arith, contains-append values rest value)

-- The code points with the Unicode property White_Space.
unfoldable pub is_whitespace : ℕ → Bool
is_whitespace c =
    (leb 9 c && leb c 13)
    || c == 32
    || c == 133
    || c == 160
    || c == 5760
    || (leb 8192 c && leb c 8202)
    || c == 8232
    || c == 8233
    || c == 8239
    || c == 8287
    || c == 12288

unfoldable pub trim_start : Text → Text
trim_start [] = []
trim_start (c ∷ s) = let rest = trim_start s in if is_whitespace c then rest else c ∷ s

unfoldable pub trim : Text → Text
unfolding trim_start is_whitespace
trim s = reverse (trim_start (reverse (trim_start s)))

-- `value.trim().is_empty()`.
unfoldable pub is_blank : Text → Bool
unfolding trim
is_blank s = is_empty (trim s)

any-reverse_aux : (p : ℕ → Bool) (s t : Text) → any p t ≡ true → any p (reverse_aux s t) ≡ true
any-reverse_aux p [] t h = h
any-reverse_aux p (c ∷ s) t h = any-reverse_aux p s (c ∷ t) (ground (arith, h))

is_empty-reverse_aux : (s t : Text) → is_empty t ≡ false → is_empty (reverse_aux s t) ≡ false
is_empty-reverse_aux [] t h = h
is_empty-reverse_aux (c ∷ s) t h = is_empty-reverse_aux s (c ∷ t) refl

trim_start_nonempty :
    (s : Text) → any (λ c. not (is_whitespace c)) s ≡ true → is_empty (trim_start s) ≡ false
unfolding trim_start
trim_start_nonempty [] h = ground arith
trim_start_nonempty (c ∷ s) h = ground (arith, trim_start_nonempty s)

is_empty-reverse : (s : Text) → is_empty s ≡ false → is_empty (reverse s) ≡ false
is_empty-reverse [] h = ground arith
is_empty-reverse (c ∷ s) h = is_empty-reverse_aux s (c ∷ []) refl

-- A text that starts with a visible character is not blank.
pub is_blank-cons : (c : ℕ) (s : Text) → is_whitespace c ≡ false → is_blank (c ∷ s) ≡ false
unfolding is_blank trim trim_start
is_blank-cons c s h = rw h (
    is_empty-reverse (trim_start (reverse (c ∷ s))) (
      trim_start_nonempty (reverse (c ∷ s))
        (any-reverse_aux (λ d. not (is_whitespace d)) s (c ∷ []) (ground (arith, h)))))

-- `to_ascii_lowercase` and `to_ascii_uppercase` of one code point.
unfoldable pub ascii_lower : ℕ → ℕ
ascii_lower c = if leb b'A' c && leb c b'Z' then c + 32 else c

unfoldable pub ascii_upper : ℕ → ℕ
ascii_upper c = if leb b'a' c && leb c b'z' then c - 32 else c

-- The decimal digits of a number, on fuel above it.
show_digits : ℕ → ℕ → Text → Text
show_digits zero n acc = acc
show_digits (suc fuel) n acc =
    let digit = 48 + n % 10 in
    let rest = show_digits fuel (n / 10) (digit ∷ acc) in if ltb n 10 then digit ∷ acc else rest

unfoldable pub show_nat : ℕ → Text
unfolding show_digits
show_nat n = show_digits (suc n) n []

unfoldable pub show_int : ℤ → Text
unfolding show_nat
show_int (pos n) = show_nat n
show_int (negsuc n) = b'-' ∷ show_nat (suc n)

-- The order of `str`: by code points, which is the order of their UTF-8 bytes.
unfoldable pub text_cmp : Text → Text → Ordering
text_cmp [] [] = Ordering.eq
text_cmp [] (d ∷ t) = Ordering.lt
text_cmp (c ∷ s) [] = Ordering.gt
text_cmp (c ∷ s) (d ∷ t) =
    let rest = text_cmp s t in elim (compare c d) [ Ordering.eq ↦ rest | other ↦ other ]
