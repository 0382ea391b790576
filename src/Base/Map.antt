-- ===== src/Base/Map.antt =====
-- A `HashMap<String, V>` as an association list with its entries in iteration order.
use mathlib.Core.Path.{◌≡◌, refl}
use mathlib.Core.List.{List, [], ◌∷◌}
use mathlib.Core.Option.{Option, none, some}
use mathlib.Core.Bool.{Bool, true, not, ◌&&◌}
use native.Mathlib.Omega.{arith}
use Prim.Native.Nat.{suc, ◌≤◌}
use twitch_miner_rust.Base.Tests.{if◌then◌else◌, is_some}
use twitch_miner_rust.Base.Lists.{length}
use twitch_miner_rust.Base.Text.{Text, text_eq, text_eq_iff}

abbrev pub Map {ℓ} : Type ℓ → Type ℓ
Map V = List (Text × V)

module _ {ℓ} {V : Type ℓ} where
  unfoldable pub get : Text → Map V → Option V
  get k [] = none
  get k ((j, v) ∷ m) = let rest = get k m in if text_eq j k then some v else rest

  -- A new key stands last; the value of a present one is replaced where it stands.
  unfoldable pub insert : Text → V → Map V → Map V
  insert k v [] = (k, v) ∷ []
  insert k v ((j, w) ∷ m) =
      let rest = insert k v m in if text_eq j k then (k, v) ∷ m else (j, w) ∷ rest

  unfoldable pub remove : Text → Map V → Map V
  remove k [] = []
  remove k ((j, v) ∷ m) = let rest = remove k m in if text_eq j k then rest else (j, v) ∷ rest

  pub get-insert :
      (k j : Text) (v : V) (m : Map V)
      → get j (insert k v m) ≡ (if text_eq k j then some v else get j m)
  unfolding get insert
  get-insert k j v [] = refl
  get-insert k j v ((i, w) ∷ m) =
      ground (arith, text_eq_iff k j, text_eq_iff i k, text_eq_iff i j, get-insert k j v m)

  pub get-remove :
      (k j : Text) (m : Map V) → get j (remove k m) ≡ (if text_eq k j then none else get j m)
  unfolding get remove
  get-remove k j [] = ground arith
  get-remove k j ((i, w) ∷ m) =
      ground (arith, text_eq_iff k j, text_eq_iff i k, text_eq_iff i j, get-remove k j m)

  pub length-remove : (k : Text) (m : Map V) → length (remove k m) ≤ length m
  unfolding remove
  length-remove k [] = omega arith
  length-remove k ((i, w) ∷ m) = ground (arith, length-remove k m)

  -- Removing a present key makes room for one entry.
  pub length-remove_of_get :
      (k : Text) (m : Map V) (v : V) → get k m ≡ some v → suc (length (remove k m)) ≤ length m
  unfolding get remove
  length-remove_of_get k [] v h = ground arith
  length-remove_of_get k ((i, w) ∷ m) v h =
      ground (arith, length-remove k m, length-remove_of_get k m v)

  pub length-insert : (k : Text) (v : V) (m : Map V) → length (insert k v m) ≤ suc (length m)
  unfolding insert
  length-insert k v [] = omega arith
  length-insert k v ((i, w) ∷ m) = ground (arith, length-insert k v m)

  -- A present key is replaced, so the number of entries stays.
  pub length-insert_of_get :
      (k : Text) (v w : V) (m : Map V) → get k m ≡ some w → length (insert k v m) ≡ length m
  unfolding get insert
  length-insert_of_get k v w [] h = ground arith
  length-insert_of_get k v w ((i, u) ∷ m) h = ground (arith, length-insert_of_get k v w m)

  -- No key stands twice, as in the source's map.
  unfoldable pub is_keyed : Map V → Bool
  is_keyed [] = true
  is_keyed ((k, v) ∷ m) = not (is_some (get k m)) && is_keyed m

  pub is_keyed-insert :
      (k : Text) (v : V) (m : Map V) → is_keyed m ≡ true → is_keyed (insert k v m) ≡ true
  unfolding is_keyed insert get
  is_keyed-insert k v [] h = refl
  is_keyed-insert k v ((j, w) ∷ m) h =
      ground (arith, text_eq_iff j k, text_eq_iff k j, is_keyed-insert k v m, get-insert k j v m)

  pub is_keyed-remove : (k : Text) (m : Map V) → is_keyed m ≡ true → is_keyed (remove k m) ≡ true
  unfolding is_keyed remove get
  is_keyed-remove k [] h = refl
  is_keyed-remove k ((j, w) ∷ m) h =
      ground (arith, text_eq_iff k j, is_keyed-remove k m, get-remove k j m)
