-- ===== src/Common/Sorting.antt =====
-- `sort.Slice(xs, less)` as a stable insertion sort (what Go runs on up to twelve entries; where no
-- two entries are equivalent under `less`, every sort returns the same list).
use Prim.Native.Nat.{ℕ, suc, ◌+◌}
use mathlib.Core.Path.{◌≡◌, refl}
use mathlib.Core.Bool.{Bool, true, false}
use mathlib.Core.List.{List, [], ◌∷◌}
use native.Mathlib.Omega.{arith}
use poker_arena.Common.Tests.{if◌then◌else◌}
use poker_arena.Common.Lists.{length, sum_by, All}

module _ {ℓ} {A : Type ℓ} (less : A → A → Bool) where
  unfoldable pub insert_by : A → List A → List A
  insert_by x [] = x ∷ []
  insert_by x (y ∷ ys) = if less y x then y ∷ insert_by x ys else x ∷ y ∷ ys

  unfoldable pub sort_by : List A → List A
  unfolding insert_by
  sort_by [] = []
  sort_by (x ∷ xs) = insert_by x (sort_by xs)

  insert_by-All {κ} :
      (P : A → Type κ) (x : A) (xs : List A) → P x → All P xs → All P (insert_by x xs)
  unfolding insert_by
  insert_by-All P x [] p h = (p, h)
  insert_by-All P x (y ∷ ys) p h =
      elim (less y x) as (λ b. All P (if b then y ∷ insert_by x ys else x ∷ y ∷ ys)) [
        | true ↦ (h.0, insert_by-All P x ys p h.1)
        | false ↦ (p, h)
      ]

  pub sort_by-All {κ} : (P : A → Type κ) (xs : List A) → All P xs → All P (sort_by xs)
  unfolding sort_by
  sort_by-All P [] h = h
  sort_by-All P (x ∷ xs) h = insert_by-All P x (sort_by xs) h.0 (sort_by-All P xs h.1)

  sum_by-insert_by :
      (w : A → ℕ) (x : A) (xs : List A) → sum_by w (insert_by x xs) ≡ w x + sum_by w xs
  unfolding insert_by
  sum_by-insert_by w x [] = refl
  sum_by-insert_by w x (y ∷ ys) = ground (arith, sum_by-insert_by w x ys)

  pub sum_by-sort_by : (w : A → ℕ) (xs : List A) → sum_by w (sort_by xs) ≡ sum_by w xs
  unfolding sort_by
  sum_by-sort_by w [] = refl
  sum_by-sort_by w (x ∷ xs) = omega (arith, sum_by-insert_by w x (sort_by xs), sum_by-sort_by w xs)

  length-insert_by : (x : A) (xs : List A) → length (insert_by x xs) ≡ suc (length xs)
  unfolding insert_by
  length-insert_by x [] = refl
  length-insert_by x (y ∷ ys) = ground (arith, length-insert_by x ys)

  pub length-sort_by : (xs : List A) → length (sort_by xs) ≡ length xs
  unfolding sort_by
  length-sort_by [] = refl
  length-sort_by (x ∷ xs) = omega (arith, length-insert_by x (sort_by xs), length-sort_by xs)
