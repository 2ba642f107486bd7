-- ===== src/Common/Lists.antt =====
-- Lists measured and indexed by native numbers, under the library's names, with sums and predicates.
use Prim.Native.Nat.{ℕ, zero, suc, ◌+◌, ◌≤◌, ◌<◌}
use mathlib.Core.Path.{◌≡◌, refl, ap, subst}
use mathlib.Core.Bool.{Bool}
use mathlib.Core.List.{List, [], ◌∷◌, ◌++◌, map}
use mathlib.Core.Option.{Option, none, some}
use native.Mathlib.Omega.{arith}
use poker_arena.Common.Tests.{if◌then◌else◌}

module _ {ℓ} {A : Type ℓ} where
  abbrev pub length : List A → ℕ
  length [] = 0
  length (x ∷ xs) = suc (length xs)

  abbrev pub get_elem? : List A → ℕ → Option A
  get_elem? [] i = none
  get_elem? (x ∷ xs) zero = some x
  get_elem? (x ∷ xs) (suc i) = get_elem? xs i

  abbrev pub get_or : List A → ℕ → A → A
  get_or [] i d = d
  get_or (x ∷ xs) zero d = x
  get_or (x ∷ xs) (suc i) d = get_or xs i d

  -- `xs[i] = f(xs[i])`; out of range nothing changes.
  abbrev pub modify : List A → ℕ → (A → A) → List A
  modify [] i f = []
  modify (x ∷ xs) zero f = f x ∷ xs
  modify (x ∷ xs) (suc i) f = x ∷ modify xs i f

  pub length-append : (xs ys : List A) → length (xs ++ ys) ≡ length xs + length ys
  length-append [] ys = omega arith
  length-append (x ∷ xs) ys = omega (arith, length-append xs ys)

  -- `for _, x := range xs { if p(x) { out = append(out, x) } }`
  abbrev pub select : (A → Bool) → List A → List A
  select p [] = []
  select p (x ∷ xs) = let rest = select p xs in if p x then x ∷ rest else rest

  abbrev pub count_if : (A → Bool) → List A → ℕ
  count_if p [] = 0
  count_if p (x ∷ xs) = let rest = count_if p xs in if p x then suc rest else rest

  abbrev pub sum_by : (A → ℕ) → List A → ℕ
  sum_by f [] = 0
  sum_by f (x ∷ xs) = f x + sum_by f xs

  abbrev pub All {κ} : (A → Type κ) → List A → Type κ
  All P [] = Unit
  All P (x ∷ xs) = P x × All P xs

  pub All-mono {κ μ} :
      (P : A → Type κ) (Q : A → Type μ) (f : (a : A) → P a → Q a) (xs : List A)
      → All P xs
      → All Q xs
  All-mono P Q f [] h = tt
  All-mono P Q f (x ∷ xs) h = (f x h.0, All-mono P Q f xs h.1)

  pub All_get {κ} :
      (P : A → Type κ) (xs : List A) (i : ℕ) {a : A} → All P xs → get_elem? xs i ≡ some a → P a
  All_get P [] i h e = absurd (cc e)
  All_get P (x ∷ xs) zero {a} h e = let q : x ≡ a = cc in subst P q h.0
  All_get P (x ∷ xs) (suc i) h e = All_get P xs i h.1 e

  pub get_elem?_lt : (xs : List A) (i : ℕ) → i < length xs → (a : A) × (get_elem? xs i ≡ some a)
  get_elem?_lt [] i h = absurd (omega arith)
  get_elem?_lt (x ∷ xs) zero h = (x, refl)
  get_elem?_lt (x ∷ xs) (suc i) h = get_elem?_lt xs i (omega arith)

module _ {ℓ} {A : Type ℓ} where
  pub length-modify : (xs : List A) (i : ℕ) (f : A → A) → length (modify xs i f) ≡ length xs
  length-modify [] i f = refl
  length-modify (x ∷ xs) zero f = refl
  length-modify (x ∷ xs) (suc i) f = ap suc (length-modify xs i f)

  -- A sum after a write: the old term goes, the new one comes.
  pub sum_by-modify :
      (w : A → ℕ) (xs : List A) (i : ℕ) (f : A → A) {a : A}
      → get_elem? xs i ≡ some a
      → sum_by w (modify xs i f) + w a ≡ sum_by w xs + w (f a)
  sum_by-modify w [] i f e = absurd (ground arith)
  sum_by-modify w (x ∷ xs) zero f {a} e = ground arith
  sum_by-modify w (x ∷ xs) (suc i) f e = omega (arith, sum_by-modify w xs i f e)

  pub sum_by-get_le :
      (w : A → ℕ) (xs : List A) (i : ℕ) {a : A} → get_elem? xs i ≡ some a → w a ≤ sum_by w xs
  sum_by-get_le w [] i e = absurd (ground arith)
  sum_by-get_le w (x ∷ xs) zero e = ground arith
  sum_by-get_le w (x ∷ xs) (suc i) e = omega (arith, sum_by-get_le w xs i e)

  pub sum_by-map {κ} :
      {B : Type κ} (w : B → ℕ) (f : A → B) (xs : List A)
      → sum_by w (map f xs) ≡ sum_by (λ a. w (f a)) xs
  sum_by-map w f [] = refl
  sum_by-map w f (x ∷ xs) = ap (◌+◌ (w (f x))) (sum_by-map w f xs)

  pub All-modify {κ} :
      (P : A → Type κ) (xs : List A) (i : ℕ) (f : A → A)
      → ((a : A) → P a → P (f a))
      → All P xs
      → All P (modify xs i f)
  All-modify P [] i f k h = tt
  All-modify P (x ∷ xs) zero f k h = (k x h.0, h.1)
  All-modify P (x ∷ xs) (suc i) f k h = (h.0, All-modify P xs i f k h.1)

  pub All-map {κ} :
      (P : A → Type κ) (f : A → A) (xs : List A)
      → ((a : A) → P a → P (f a))
      → All P xs
      → All P (map f xs)
  All-map P f [] k h = tt
  All-map P f (x ∷ xs) k h = (k x h.0, All-map P f xs k h.1)

  -- A write that keeps the weight keeps the sum.
  pub sum_by-modify_keep :
      (w : A → ℕ) (xs : List A) (i : ℕ) (f : A → A)
      → ((a : A) → w (f a) ≡ w a)
      → sum_by w (modify xs i f) ≡ sum_by w xs
  sum_by-modify_keep w [] i f h = refl
  sum_by-modify_keep w (x ∷ xs) zero f h = ap (λ n. n + sum_by w xs) (h x)
  sum_by-modify_keep w (x ∷ xs) (suc i) f h = ap (◌+◌ (w x)) (sum_by-modify_keep w xs i f h)

pub All-zip {ℓ κ μ} :
    {A : Type ℓ} (P : A → Type κ) (Q : A → Type μ) (xs : List A)
    → All P xs
    → All Q xs
    → All (λ a. P a × Q a) xs
All-zip P Q [] h k = tt
All-zip P Q (x ∷ xs) h k = ((h.0, k.0), All-zip P Q xs h.1 k.1)
