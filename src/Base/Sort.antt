-- ===== src/Base/Sort.antt =====
-- `slice::sort_by`: the stable sort, by insertion.
use Prim.Native.Nat.{Ordering}
use mathlib.Core.Bool.{Bool, true, false}
use mathlib.Core.List.{List, [], ◌∷◌, Perm}
use mathlib.Core.List.Perm
use twitch_miner_rust.Base.Tests.{if◌then◌else◌, Bool-cases}
use mathlib.Core.Logic.{inl, inr}

pub is_lt : Ordering → Bool
is_lt Ordering.lt = true
is_lt _ = false

-- `Ordering::then_with`.
unfoldable pub then_with : Ordering → Ordering → Ordering
then_with Ordering.eq o = o
then_with o _ = o

-- `Ordering::reverse`.
unfoldable pub reverse_order : Ordering → Ordering
reverse_order Ordering.lt = Ordering.gt
reverse_order Ordering.eq = Ordering.eq
reverse_order Ordering.gt = Ordering.lt

module _ {ℓ} {A : Type ℓ} where
  -- Before the first element that is not smaller.
  unfoldable pub insert_by : (A → A → Ordering) → A → List A → List A
  unfolding is_lt
  insert_by cmp x [] = x ∷ []
  insert_by cmp x (y ∷ ys) =
      let rest = insert_by cmp x ys in if is_lt (cmp y x) then y ∷ rest else x ∷ y ∷ ys

  unfoldable pub sort_by : (A → A → Ordering) → List A → List A
  unfolding insert_by
  sort_by cmp [] = []
  sort_by cmp (x ∷ xs) = insert_by cmp x (sort_by cmp xs)

  insert_by-perm :
      (cmp : A → A → Ordering) (x : A) (xs : List A) → Perm (insert_by cmp x xs) (x ∷ xs)
  unfolding insert_by
  insert_by-perm cmp x [] = Perm.refl _
  insert_by-perm cmp x (y ∷ ys) = elim (Bool-cases (is_lt (cmp y x))) [
    | inl e ↦ rw e (Perm.trans (Perm.cons y (insert_by-perm cmp x ys)) (Perm.swap x y ys))
    | inr e ↦ rw e (Perm.refl _)
  ]

  pub sort_by-perm : (cmp : A → A → Ordering) (xs : List A) → Perm (sort_by cmp xs) xs
  unfolding sort_by
  sort_by-perm cmp [] = Perm.refl _
  sort_by-perm cmp (x ∷ xs) =
      Perm.trans (insert_by-perm cmp x (sort_by cmp xs)) (Perm.cons x (sort_by-perm cmp xs))
