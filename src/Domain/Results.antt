-- ===== src/Domain/Results.antt =====
-- Taking apart results that are `ok`.
use poker_arena.Common.{◌≡◌, refl, Bool, true, false, inl, inr, ◌⊎◌}
use poker_arena.Domain.{Error, Result, ok, err, fail_if, ◌>>=◌, ◌>>◌}

module _ {ℓ} {A : Type ℓ} where
  or_self : A → Result A → A
  or_self a (ok b) = b
  or_self a (err e) = a

  pub ok-injective : {a b : A} → ok a ≡ ok b → a ≡ b
  unfolding or_self
  ok-injective {a} p = λ i. or_self a (p i)

  -- Past a guard that did not fail.
  pub fail_if-eq_ok :
      (b : Bool) (e : Error) (k : Result A) {t : A}
      → (fail_if b e >> k) ≡ ok t
      → (b ≡ false) × (k ≡ ok t)
  fail_if-eq_ok true e k h = absurd (cc h)
  fail_if-eq_ok false e k h = (refl, h)

  pub Result-cases :
      (r : Result A) → ((value : A) × (r ≡ ok value)) ⊎ ((problem : Error) × (r ≡ err problem))
  Result-cases (err problem) = inr (problem, refl)
  Result-cases (ok value) = inl (value, refl)

-- The value that a successful chain passed on.
pub bind-eq_ok {ℓ κ} :
    {S : Type ℓ} {T : Type κ} (r : Result S) (next : S → Result T) {t : T}
    → (r >>= next) ≡ ok t
    → (value : S) × (r ≡ ok value) × (next value ≡ ok t)
bind-eq_ok (err problem) next h = absurd (cc h)
bind-eq_ok (ok value) next h = (value, refl, h)

pub check-eq_ok {ℓ} :
    {T : Type ℓ} (check : Result (Unit {0})) (next : Result T) {t : T}
    → (check >> next) ≡ ok t
    → (check ≡ ok tt) × (next ≡ ok t)
check-eq_ok (err problem) next h = absurd (cc h)
check-eq_ok (ok done) next h = (refl, h)
