-- ===== src/Common/Permutations.antt =====
-- Sorting forgets the order in which the entries came, where the sort's order tells them apart.
use mathlib.Core.Path.{◌≡◌, ◌∙◌, refl, sym, ap, subst}
use mathlib.Core.Logic.{inl, inr}
use mathlib.Core.Bool.{Bool, true, false}
use mathlib.Core.List.{List, [], ◌∷◌, Permᴰ, map}
use poker_arena.Common.Tests.{Bool-cases}
use poker_arena.Common.Lists.{All, select}
use poker_arena.Common.Sorting.{insert_by, sort_by, sort_by-All}

-- The order is a strict one that tells apart any two entries with the property.
pub record Separates {ℓ κ} {A : Type ℓ} (less : A → A → Bool) (P : A → Type κ) : Type (ℓ ⊔ κ) where
  pub asym : (a b : A) → less a b ≡ true → less b a ≡ false
  pub connected : (a b : A) → P a → P b → less a b ≡ false → less b a ≡ false → a ≡ b
  pub transitive : (a b c : A) → less a b ≡ true → less b c ≡ true → less a c ≡ true

module _ {ℓ κ} {A : Type ℓ} (less : A → A → Bool) (P : A → Type κ) (o : Separates less P) where
  insert_swap_below :
      (x y : A) (zs : List A)
      → P x
      → P y
      → All P zs
      → less x y ≡ true
      → insert_by less x (insert_by less y zs) ≡ insert_by less y (insert_by less x zs)
  unfolding insert_by
  insert_swap_below x y [] p q h l = rw (l, o.asym x y l) refl
  insert_swap_below x y (z ∷ zs) p q h l = elim (Bool-cases (less z y)) [
    | inl z_below_y ↦ elim (Bool-cases (less z x)) [
      | inl z_below_x ↦
          rw (z_below_y, z_below_x, z_below_y)
            (ap (λ l. z ∷ l) (insert_swap_below x y zs p q h.1 l))
      | inr z_above_x ↦ rw (z_below_y, z_above_x, l, z_below_y) refl
    ]
    | inr z_above_y ↦
        let z_above_x : less z x ≡ false = elim (Bool-cases (less z x)) [
          | inl below ↦ absurd (cc (o.transitive z x y below l, z_above_y))
          | inr above ↦ above
        ] in
        rw (z_above_y, z_above_x, o.asym x y l, l) (rw z_above_y refl)
  ]

  insert_swap :
      (x y : A) (zs : List A)
      → P x
      → P y
      → All P zs
      → insert_by less x (insert_by less y zs) ≡ insert_by less y (insert_by less x zs)
  insert_swap x y zs p q h = elim (Bool-cases (less x y)) [
    | inl below ↦ insert_swap_below x y zs p q h below
    | inr not_below ↦ elim (Bool-cases (less y x)) [
      | inl above ↦ sym (insert_swap_below y x zs q p h above)
      | inr level ↦
          let e = o.connected x y p q not_below level in
          subst
            (λ z. insert_by less x (insert_by less z zs) ≡ insert_by less z (insert_by less x zs)) e
            refl
    ]
  ]

  All-Perm : {xs ys : List A} → Permᴰ xs ys → All P xs → All P ys
  All-Perm Permᴰ.nil h = tt
  All-Perm (Permᴰ.cons e p) h = (subst P e h.0, All-Perm p h.1)
  All-Perm (Permᴰ.swap e f) h = (subst P f h.1.0, (subst P e h.0, h.1.1))
  All-Perm (Permᴰ.trans p q) h = All-Perm q (All-Perm p h)

  -- However the entries are permuted, sorting them gives one list.
  pub sort_by-Perm : {xs ys : List A} → Permᴰ xs ys → All P xs → sort_by less xs ≡ sort_by less ys
  unfolding sort_by
  sort_by-Perm Permᴰ.nil h = refl
  sort_by-Perm (Permᴰ.cons e p) h = cc (e, sort_by-Perm p h.1)
  sort_by-Perm (Permᴰ.swap {a} {b} {a'} {b'} {l} e f) h =
      insert_swap a b (sort_by less l) h.0 h.1.0 (sort_by-All less P l h.1.1) ∙ cc (e, f)
  sort_by-Perm (Permᴰ.trans p q) h = sort_by-Perm p h ∙ sort_by-Perm q (All-Perm p h)

pub map-Perm {ℓ κ} :
    {A : Type ℓ} {B : Type κ} (f : A → B) {xs ys : List A}
    → Permᴰ xs ys
    → Permᴰ (map f xs) (map f ys)
map-Perm f Permᴰ.nil = Permᴰ.nil
map-Perm f (Permᴰ.cons e p) = Permᴰ.cons (ap f e) (map-Perm f p)
map-Perm f (Permᴰ.swap e g) = Permᴰ.swap (ap f e) (ap f g)
map-Perm f (Permᴰ.trans p q) = Permᴰ.trans (map-Perm f p) (map-Perm f q)

unpermuted {ℓ} : {A : Type ℓ} (xs : List A) → Permᴰ xs xs
unpermuted [] = Permᴰ.nil
unpermuted (x ∷ xs) = Permᴰ.cons refl (unpermuted xs)

select_swap {ℓ} :
    {A : Type ℓ} (p : A → Bool) (a b : A) (l : List A)
    → Permᴰ (select p (a ∷ b ∷ l)) (select p (b ∷ a ∷ l))
select_swap p a b l = elim (Bool-cases (p a)) [
  | inl one ↦ elim (Bool-cases (p b)) [
    | inl two ↦ rw (one, two) (Permᴰ.swap refl refl)
    | inr no_two ↦ rw (one, no_two) (unpermuted (a ∷ select p l))
  ]
  | inr no_one ↦ elim (Bool-cases (p b)) [
    | inl two ↦ rw (no_one, two) (unpermuted (b ∷ select p l))
    | inr no_two ↦ rw (no_one, no_two) (unpermuted (select p l))
  ]
]

pub select-Perm {ℓ} :
    {A : Type ℓ} (p : A → Bool) {xs ys : List A} → Permᴰ xs ys → Permᴰ (select p xs) (select p ys)
select-Perm p Permᴰ.nil = Permᴰ.nil
select-Perm p (Permᴰ.cons {a} {b} e q) = elim (Bool-cases (p a)) [
  | inl hit ↦
      let hit' = subst (λ z. p z ≡ true) e hit in rw (hit, hit') (Permᴰ.cons e (select-Perm p q))
  | inr miss ↦ let miss' = subst (λ z. p z ≡ false) e miss in rw (miss, miss') (select-Perm p q)
]
select-Perm p (Permᴰ.swap {a} {b} {a'} {b'} {l} e f) =
    subst (λ z. Permᴰ (select p (a ∷ b ∷ l)) (select p (z ∷ b' ∷ l))) f
      (subst (λ z. Permᴰ (select p (a ∷ b ∷ l)) (select p (b ∷ z ∷ l))) e (select_swap p a b l))
select-Perm p (Permᴰ.trans q r) = Permᴰ.trans (select-Perm p q) (select-Perm p r)

pub All-map_of {ℓ κ μ} :
    {A : Type ℓ} {B : Type κ} (P : B → Type μ) (f : A → B) (xs : List A)
    → All (λ a. P (f a)) xs
    → All P (map f xs)
All-map_of P f [] h = tt
All-map_of P f (x ∷ xs) h = (h.0, All-map_of P f xs h.1)

pub All-select {ℓ κ} :
    {A : Type ℓ} (P : A → Type κ) (p : A → Bool) (xs : List A) → All P xs → All P (select p xs)
All-select P p [] h = tt
All-select P p (x ∷ xs) h = elim (Bool-cases (p x)) [
  | inl hit ↦ rw hit (h.0, All-select P p xs h.1)
  | inr miss ↦ rw miss (All-select P p xs h.1)
]
