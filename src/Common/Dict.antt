-- ===== src/Common/Dict.antt =====
-- A map of Go as an association list: one entry for each key, in the order of insertion. The keys
-- are of a type with a Boolean equality, here the numbers and the strings.
use Prim.Native.String.{String}
use text.Mathlib.Text.{◌==◌ as str_eq}
use text.Mathlib.TextEquality.{eq_iff}
use Prim.Native.Nat.{ℕ}
use mathlib.Core.Path.{◌≡◌, ◌∙◌, refl, sym, ap, subst}
use mathlib.Core.Logic.{◌↔◌, ◌≢◌, ◌⊎◌, inl, inr}
use mathlib.Core.Bool.{Bool, true, false}
use mathlib.Core.Option.{Option, none, some, some-injective}
use mathlib.Core.List.{List, [], ◌∷◌}
use poker_arena.Common.Tests.{◌==◌, ==_iff, if◌then◌else◌, Bool-cases}
use poker_arena.Common.Lists.{All, All-mono, All-zip}

-- Keys that can be compared.
pub record Key {ℓ} (K : Type ℓ) : Type ℓ where
  pub same : K → K → Bool
  pub same_iff : (a b : K) → (same a b ≡ true) ↔ (a ≡ b)

instance abbrev pub number_key : Key ℕ
number_key = record { same = ◌==◌; same_iff = ==_iff }

instance abbrev pub string_key : Key String
string_key = record { same = str_eq; same_iff = eq_iff }

pub same-eq_false {ℓ} : {K : Type ℓ} ⦃key : Key K⦄ (a b : K) → a ≢ b → key.same a b ≡ false
same-eq_false ⦃key⦄ a b ne = elim (Bool-cases (key.same a b)) [
  | inl e ↦ absurd (ne ((key.same_iff a b).0 e))
  | inr e ↦ e
]

module _ {ℓ κ} {K : Type ℓ} {V : Type κ} ⦃key : Key K⦄ where
  -- `v, ok := m[k]`
  unfoldable pub find : K → List (K × V) → Option V
  find k [] = none
  find k ((j, v) ∷ m) = if key.same j k then some v else find k m

  -- `m[k] = v`
  unfoldable pub put : K → V → List (K × V) → List (K × V)
  put k v [] = (k, v) ∷ []
  put k v ((j, w) ∷ m) = if key.same j k then (k, v) ∷ m else (j, w) ∷ put k v m

  -- `delete(m, k)`
  unfoldable pub remove : K → List (K × V) → List (K × V)
  remove k [] = []
  remove k ((j, v) ∷ m) = let rest = remove k m in if key.same j k then rest else (j, v) ∷ rest

  pub find-remove : (k : K) (m : List (K × V)) → find k (remove k m) ≡ none
  unfolding find remove
  find-remove k [] = refl
  find-remove k ((j, v) ∷ m) = elim (Bool-cases (key.same j k)) [
    | inl here ↦ rw (here, remove) (find-remove k m)
    | inr later ↦ rw (later, remove) (rw later (find-remove k m))
  ]

  pub find-put_self : (k : K) (v : V) (m : List (K × V)) → find k (put k v m) ≡ some v
  unfolding find put
  find-put_self k v [] = rw ((key.same_iff k k).1 refl) refl
  find-put_self k v ((j, w) ∷ m) = elim (Bool-cases (key.same j k)) [
    | inl here ↦ rw (here, put) (rw ((key.same_iff k k).1 refl) refl)
    | inr later ↦ rw (later, put) (rw later (find-put_self k v m))
  ]

  pub find-put_other : (k j : K) (v : V) (m : List (K × V)) → k ≢ j → find j (put k v m) ≡ find j m
  unfolding find put
  find-put_other k j v [] ne = rw (same-eq_false k j ne) refl
  find-put_other k j v ((i, w) ∷ m) ne = elim (Bool-cases (key.same i k)) [
    | inl here ↦
        let e = (key.same_iff i k).0 here in
        rw (here, put) (rw (same-eq_false k j ne, same-eq_false i j (λ f. ne (sym e ∙ f))) refl)
    | inr later ↦
        rw (later, put)
          (elim (Bool-cases (key.same i j)) [
            | inl hit ↦ rw hit refl
            | inr miss ↦ rw miss (find-put_other k j v m ne)
          ])
  ]

  -- To delete a key that has just been added leaves the map as it was.
  pub remove-put : (k : K) (v : V) (m : List (K × V)) → find k m ≡ none → remove k (put k v m) ≡ m
  unfolding find put remove
  remove-put k v [] absent = rw ((key.same_iff k k).1 refl) refl
  remove-put k v ((j, w) ∷ m) absent = elim (Bool-cases (key.same j k)) [
    | inl here ↦ absurd (cc (rw here at absent))
    | inr later ↦
        rw (later, put)
          (rw (later, remove) (ap (λ r. (j, w) ∷ r) (remove-put k v m (rw later at absent))))
  ]

  -- Of two writes under one key the second counts.
  pub put-put : (k : K) (v w : V) (m : List (K × V)) → put k w (put k v m) ≡ put k w m
  unfolding put
  put-put k v w [] = rw ((key.same_iff k k).1 refl) refl
  put-put k v w ((j, u) ∷ m) = elim (Bool-cases (key.same j k)) [
    | inl here ↦ rw (here, put) (rw ((key.same_iff k k).1 refl) refl)
    | inr later ↦ rw (later, put) (rw (later, put) (ap (λ r. (j, u) ∷ r) (put-put k v w m)))
  ]

  -- A map after a write, as a function of the key.
  pub find-put :
      (k j : K) (v : V) (m : List (K × V))
      → find j (put k v m) ≡ (if key.same k j then some v else find j m)
  find-put k j v m = elim (Bool-cases (key.same k j)) [
    | inl e ↦ let f = (key.same_iff k j).0 e in rw e (rw (← f) (find-put_self k v m))
    | inr e ↦ rw e (find-put_other k j v m (λ f. absurd (cc (e, (key.same_iff k j).1 f))))
  ]

  -- No two entries have one key.
  abbrev pub Keyed : List (K × V) → Type ℓ
  Keyed [] = Unit {ℓ}
  Keyed ((k, v) ∷ m) = All (λ e. k ≢ e.0) m × Keyed m

  -- What is found after a write is what was written, or was there before.
  pub find-put_cases :
      (k j : K) (v : V) (m : List (K × V)) {w : V}
      → find j (put k v m) ≡ some w
      → ((k ≡ j) × (v ≡ w)) ⊎ (find j m ≡ some w)
  find-put_cases k j v m {w} e = elim (Bool-cases (key.same k j)) [
    | inl hit ↦
        let e' = rw (find-put k j v m) at e in
        inl ((key.same_iff k j).0 hit, some-injective _ _ (rw hit at e'))
    | inr miss ↦ let e' = rw (find-put k j v m) at e in inr (rw miss at e')
  ]

  put-All {μ} :
      (P : K × V → Type μ) (k : K) (v : V) (m : List (K × V))
      → P (k, v)
      → All P m
      → All P (put k v m)
  unfolding put
  put-All P k v [] h t = (h, tt)
  put-All P k v ((j, w) ∷ m) h t = elim (Bool-cases (key.same j k)) [
    | inl here ↦ rw (here, put) (h, t.1)
    | inr later ↦ rw (later, put) (t.0, put-All P k v m h t.1)
  ]

  -- A write keeps one entry for each key.
  pub put-Keyed : (k : K) (v : V) (m : List (K × V)) → Keyed m → Keyed (put k v m)
  unfolding put
  put-Keyed k v [] h = (tt, tt)
  put-Keyed k v ((j, w) ∷ m) h = elim (Bool-cases (key.same j k)) [
    | inl here ↦
        let e = (key.same_iff j k).0 here in
        rw (here, put) (subst (λ i. All (λ e. i ≢ e.0) m) e h.0, h.1)
    | inr later ↦
        rw (later, put)
          (
            put-All (λ e. j ≢ e.0) k v m (λ e. cc (later, (key.same_iff j k).1 e)) h.0,
            put-Keyed k v m h.1,
          )
  ]

  -- Where no two entries have one key, every entry is found under its key.
  pub Keyed-find : (m : List (K × V)) → Keyed m → All (λ e. find e.0 m ≡ some e.1) m
  unfolding find
  Keyed-find [] h = tt
  Keyed-find ((k, v) ∷ m) h = (
    rw ((key.same_iff k k).1 refl) refl,
    All-mono {A = K × V} (λ e. (k ≢ e.0) × (find e.0 m ≡ some e.1))
        (λ e. find e.0 ((k, v) ∷ m) ≡ some e.1) (λ e g. rw (same-eq_false k e.0 g.0) (g.1)) m
        (All-zip {A = K × V} (λ e. k ≢ e.0) (λ e. find e.0 m ≡ some e.1) m h.0 (Keyed-find m h.1)),
  )
