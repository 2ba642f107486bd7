-- ===== src/Common/Cyclic.antt =====
-- Searching a list, and walking round it: `xs[(start + i) % len(xs)]` for `i = 0, 1, …`.
use Prim.Native.Nat.{ℕ, zero, suc, ◌%◌, ◌≤◌}
use mathlib.Core.Path.{◌≡◌, refl, subst}
use mathlib.Core.Logic.{inl, inr}
use mathlib.Core.Bool.{Bool, true}
use mathlib.Core.Option
use mathlib.Core.Option.{Option, none, some}
use mathlib.Core.List.{List, [], ◌∷◌}
use native.Mathlib.Omega.{arith}
use poker_arena.Common.Tests.{if◌then◌else◌, Bool-cases}
use poker_arena.Common.Lists.{length, get_elem?, All, All_get}

module _ {ℓ} {A : Type ℓ} where
  -- `for i, x := range xs { if p(x) { return i } }`
  abbrev pub first_index : (A → Bool) → List A → Option ℕ
  first_index p [] = none
  first_index p (x ∷ xs) =
      let rest = first_index p xs in if p x then some 0 else Option.map suc rest

  abbrev pub first_where : (A → Bool) → List A → Option A
  first_where p [] = none
  first_where p (x ∷ xs) = let rest = first_where p xs in if p x then some x else rest

  abbrev pub push_entry : Option A → List A → List A
  push_entry none rest = []
  push_entry (some a) rest = a ∷ rest

  -- The entries at `pos % len, (pos + 1) % len, …`, as many as the last argument says.
  unfoldable pub rotated : List A → ℕ → ℕ → List A
  rotated xs pos zero = []
  rotated xs pos (suc k) = push_entry (get_elem? xs (pos % length xs)) (rotated xs (suc pos) k)

  length-push_entry : (o : Option A) (xs : List A) → length (push_entry o xs) ≤ suc (length xs)
  length-push_entry none xs = omega arith
  length-push_entry (some a) xs = omega arith

  -- At most as many entries as were asked for.
  pub length-rotated : (xs : List A) (pos k : ℕ) → length (rotated xs pos k) ≤ k
  unfolding rotated
  length-rotated xs pos zero = omega arith
  length-rotated xs pos (suc k) = omega (
    arith,
    length-push_entry (get_elem? xs (pos % length xs)) (rotated xs (suc pos) k),
    length-rotated xs (suc pos) k,
  )

module _ {ℓ κ} {A : Type ℓ} (P : A → Type κ) where
  push_entry-All :
      (o : Option A) (xs : List A)
      → ((a : A) → o ≡ some a → P a)
      → All P xs
      → All P (push_entry o xs)
  push_entry-All none xs k h = tt
  push_entry-All (some a) xs k h = (k a refl, h)

  pub rotated-All : (xs : List A) (pos k : ℕ) → All P xs → All P (rotated xs pos k)
  unfolding rotated
  rotated-All xs pos zero h = tt
  rotated-All xs pos (suc k) h =
      push_entry-All (get_elem? xs (pos % length xs)) (rotated xs (suc pos) k)
        (λ a e. All_get P xs (pos % length xs) h e) (rotated-All xs (suc pos) k h)

  -- What `first_where` finds has the property of all entries, and passes the test.
  pub first_where-All :
      (p : A → Bool) (xs : List A) {a : A}
      → All P xs
      → first_where p xs ≡ some a
      → P a × (p a ≡ true)
  first_where-All p [] h e = absurd (cc e)
  first_where-All p (x ∷ xs) {a} h e = elim (Bool-cases (p x)) [
    | inl hit ↦
        let e' = rw hit at e in let f : x ≡ a = cc in (subst P f h.0, subst (λ z. p z ≡ true) f hit)
    | inr miss ↦ first_where-All p xs h.1 (rw miss at e)
  ]

pub map-eq_some {ℓ κ} :
    {A : Type ℓ} {B : Type κ} (f : A → B) (o : Option A) {b : B}
    → Option.map f o ≡ some b
    → (a : A) × (o ≡ some a) × (f a ≡ b)
map-eq_some f none e = absurd (cc e)
map-eq_some f (some a) e = (a, refl, cc)

pub first_index-get {ℓ} :
    {A : Type ℓ} (p : A → Bool) (xs : List A) {i : ℕ}
    → first_index p xs ≡ some i
    → (x : A) × (get_elem? xs i ≡ some x) × (p x ≡ true)
first_index-get p [] e = absurd (cc e)
first_index-get p (x ∷ xs) {i} e = elim (Bool-cases (p x)) [
  | inl hit ↦ let e' = rw hit at e in let f : 0 ≡ i = cc in (x, rw (← f), hit)
  | inr miss ↦
      let (j, found, f) = map-eq_some suc (first_index p xs) (rw miss at e) in
      let (y, here, pass) = first_index-get p xs found in (y, rw (← f) here, pass)
]
