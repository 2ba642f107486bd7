-- ===== src/Api/Analytics.antt =====
-- The `replayAnalytics` of a hand: how many of its actions fell on each street and each seat.
use text.Mathlib.Text.{◌==◌ as same_text}
use text.Mathlib.TextEquality.{eq_iff}
use poker_arena.Common.{
  ℕ, suc, ◌+◌, ◌≡◌, ◌↔◌, refl, ap, inl, inr, count_if, Bool, true, false, none, some, Bool-cases,
  List, [], ◌∷◌, length, find, put, find-put, Key, number_key, if◌then◌else◌, arith, ◌==◌,
}
use poker_arena.Domain.{Street, preflop, flop, turn, river}
use poker_arena.Persistence.Records.{ActionRecord}

abbrev pub same_street : Street → Street → Bool
same_street preflop preflop = true
same_street flop flop = true
same_street turn turn = true
same_street river river = true
same_street (Street.other a) (Street.other b) = same_text a b
same_street _ _ = false

pub same_street_iff : (a b : Street) → (same_street a b ≡ true) ↔ (a ≡ b)
same_street_iff preflop preflop = ((λ e. refl), (λ e. refl))
same_street_iff flop flop = ((λ e. refl), (λ e. refl))
same_street_iff turn turn = ((λ e. refl), (λ e. refl))
same_street_iff river river = ((λ e. refl), (λ e. refl))
same_street_iff (Street.other a) (Street.other b) =
    ((λ e. ap (λ t. Street.other t) ((eq_iff a b).0 e)), (λ e. (eq_iff a b).1 (cc e)))
same_street_iff preflop flop = ground arith
same_street_iff preflop turn = ground arith
same_street_iff preflop river = ground arith
same_street_iff preflop (Street.other b) = ground arith
same_street_iff flop preflop = ground arith
same_street_iff flop turn = ground arith
same_street_iff flop river = ground arith
same_street_iff flop (Street.other b) = ground arith
same_street_iff turn preflop = ground arith
same_street_iff turn flop = ground arith
same_street_iff turn river = ground arith
same_street_iff turn (Street.other b) = ground arith
same_street_iff river preflop = ground arith
same_street_iff river flop = ground arith
same_street_iff river turn = ground arith
same_street_iff river (Street.other b) = ground arith
same_street_iff (Street.other a) preflop = ground arith
same_street_iff (Street.other a) flop = ground arith
same_street_iff (Street.other a) turn = ground arith
same_street_iff (Street.other a) river = ground arith

instance abbrev pub street_key : Key Street
street_key = record { same = same_street; same_iff = same_street_iff }

pub record ReplayAnalytics : Type 0 where
  pub total_actions : ℕ
  pub fallback_actions : ℕ
  pub actions_by_street : List (Street × ℕ)
  pub actions_by_seat : List (ℕ × ℕ)

-- `m[k]` in a map of numbers, 0 for a missing key.
abbrev pub count_at {ℓ} : {K : Type ℓ} ⦃key : Key K⦄ → K → List (K × ℕ) → ℕ
count_at k m = elim (find k m) [ none ↦ 0 | some n ↦ n ]

-- `m[k]++`
abbrev pub add_one {ℓ} : {K : Type ℓ} ⦃key : Key K⦄ → K → List (K × ℕ) → List (K × ℕ)
add_one k m = put k (suc (count_at k m)) m

abbrev pub counted : ActionRecord → ReplayAnalytics → ReplayAnalytics
counted x a = record a {
  fallback_actions = if x.is_fallback then suc a.fallback_actions else a.fallback_actions;
  actions_by_street = add_one x.street a.actions_by_street;
  actions_by_seat = add_one x.acting_seat a.actions_by_seat;
}

-- The loop over the actions.
unfoldable pub count_actions : List ActionRecord → ReplayAnalytics → ReplayAnalytics
count_actions [] a = a
count_actions (x ∷ xs) a = count_actions xs (counted x a)

unfoldable pub replay_analytics : List ActionRecord → ReplayAnalytics
unfolding count_actions
replay_analytics actions = count_actions actions (record {
  total_actions = length actions;
  fallback_actions = 0;
  actions_by_street = [];
  actions_by_seat = [];
})

count_at-add_one {ℓ} :
    {K : Type ℓ} ⦃key : Key K⦄ (k j : K) (m : List (K × ℕ))
    → count_at j (add_one k m) ≡ (if key.same k j then suc (count_at j m) else count_at j m)
count_at-add_one ⦃key⦄ k j m = elim (Bool-cases (key.same k j)) [
  | inl e ↦
      let f = (key.same_iff k j).0 e in
      rw (find-put k j (suc (count_at k m)) m, count_at) (rw e (rw f refl))
  | inr e ↦ rw (find-put k j (suc (count_at k m)) m, count_at) (rw e refl)
]

module _ (k : Street) where
  by_street-count_actions :
      (xs : List ActionRecord) (a : ReplayAnalytics)
      → count_at k (count_actions xs a).actions_by_street
        ≡ count_at k a.actions_by_street + count_if (λ x. same_street x.street k) xs
  unfolding count_actions
  by_street-count_actions [] a = omega arith
  by_street-count_actions (x ∷ xs) a =
      let rest = by_street-count_actions xs (counted x a) in
      let one = count_at-add_one x.street k a.actions_by_street in ground (arith, rest, one)

module _ (n : ℕ) where
  by_seat-count_actions :
      (xs : List ActionRecord) (a : ReplayAnalytics)
      → count_at n (count_actions xs a).actions_by_seat
        ≡ count_at n a.actions_by_seat + count_if (λ x. x.acting_seat == n) xs
  unfolding count_actions
  by_seat-count_actions [] a = omega arith
  by_seat-count_actions (x ∷ xs) a =
      let rest = by_seat-count_actions xs (counted x a) in
      let one = count_at-add_one x.acting_seat n a.actions_by_seat in ground (arith, rest, one)

fallbacks-count_actions :
    (xs : List ActionRecord) (a : ReplayAnalytics)
    → (count_actions xs a).fallback_actions ≡ a.fallback_actions + count_if (λ x. x.is_fallback) xs
unfolding count_actions
fallbacks-count_actions [] a = omega arith
fallbacks-count_actions (x ∷ xs) a =
    let rest = fallbacks-count_actions xs (counted x a) in ground (arith, rest)

total-count_actions :
    (xs : List ActionRecord) (a : ReplayAnalytics)
    → (count_actions xs a).total_actions ≡ a.total_actions
unfolding count_actions
total-count_actions [] a = refl
total-count_actions (x ∷ xs) a = total-count_actions xs (counted x a)

-- The analytics of a replay count: all the actions, those that are fallbacks, those on each street
-- and those of each seat.
pub replay_analytics-counts :
    (actions : List ActionRecord) (k : Street) (n : ℕ)
    → let a = replay_analytics actions in
      (a.total_actions ≡ length actions)
      × (a.fallback_actions ≡ count_if (λ x. x.is_fallback) actions)
      × (count_at k a.actions_by_street ≡ count_if (λ x. same_street x.street k) actions)
      × (count_at n a.actions_by_seat ≡ count_if (λ x. x.acting_seat == n) actions)
unfolding replay_analytics find
replay_analytics-counts actions k n =
    let a : ReplayAnalytics = record {
      total_actions = length actions;
      fallback_actions = 0;
      actions_by_street = [];
      actions_by_seat = [];
    } in
    (
      total-count_actions actions a,
      omega (arith, fallbacks-count_actions actions a),
      omega (arith, by_street-count_actions k actions a),
      omega (arith, by_seat-count_actions n actions a),
    )
