-- ===== src/Common/Texts.antt =====
-- The order of Go's strings, `s < t`: a strict total order.
use Prim.Native.Nat.{ℕ, Ordering, compare as compare_ℕ}
use Prim.Native.Char.{code}
use Prim.Native.String.{String, compare, then}
use Prim.Native.String.compare
use text.Mathlib.Text.{is_lt}
use text.Mathlib.TextEquality.{path_by_compare}
use mathlib.Core.Path.{◌≡◌, refl}
use mathlib.Core.Bool.{Bool, true, false}
use native.Mathlib.Omega.{arith}

abbrev pub text_before : String → String → Bool
text_before s t = is_lt (compare s t)

abbrev opposite : Ordering → Ordering
opposite Ordering.lt = Ordering.gt
opposite Ordering.eq = Ordering.eq
opposite Ordering.gt = Ordering.lt

then-opposite :
    (m n : ℕ) (o p : Ordering)
    → p ≡ opposite o
    → then (compare_ℕ n m) p ≡ opposite (then (compare_ℕ m n) o)
then-opposite m n o p h = ground (arith, h)

compare-opposite : (s t : String) → compare t s ≡ opposite (compare s t)
compare-opposite String.[] String.[] = rw compare.nil-nil refl
compare-opposite String.[] (String.◌∷◌ d t) = rw (compare.cons-nil d t, compare.nil-cons d t) refl
compare-opposite (String.◌∷◌ c s) String.[] = rw (compare.nil-cons c s, compare.cons-nil c s) refl
compare-opposite (String.◌∷◌ c s) (String.◌∷◌ d t) =
    rw (compare.cons-cons d c t s, compare.cons-cons c d s t)
      (then-opposite (code c) (code d) (compare s t) (compare t s) (compare-opposite s t))

then_trans :
    (l m n : ℕ) (o p q : Ordering)
    → (is_lt o ≡ true → is_lt p ≡ true → is_lt q ≡ true)
    → is_lt (then (compare_ℕ l m) o) ≡ true
    → is_lt (then (compare_ℕ m n) p) ≡ true
    → is_lt (then (compare_ℕ l n) q) ≡ true
then_trans l m n o p q h a b = ground (arith, h)

pub text_before_trans :
    (s t u : String) → text_before s t ≡ true → text_before t u ≡ true → text_before s u ≡ true
text_before_trans String.[] String.[] u a b = b
text_before_trans (String.◌∷◌ c s) String.[] u a b = absurd (cc (rw (compare.cons-nil c s) at a))
text_before_trans s (String.◌∷◌ d t) String.[] a b = absurd (cc (rw (compare.cons-nil d t) at b))
text_before_trans String.[] (String.◌∷◌ d t) (String.◌∷◌ e u) a b = rw (compare.nil-cons e u) refl
text_before_trans (String.◌∷◌ c s) (String.◌∷◌ d t) (String.◌∷◌ e u) a b =
    let a' = rw (compare.cons-cons c d s t) at a in
    let b' = rw (compare.cons-cons d e t u) at b in
    rw (compare.cons-cons c e s u) (
      then_trans (code c) (code d) (code e) (compare s t) (compare t u) (compare s u)
        (text_before_trans s t u) a' b')

pub text_before_asym : (s t : String) → text_before s t ≡ true → text_before t s ≡ false
text_before_asym s t h = ground (arith, compare-opposite s t)

pub text_before_connected :
    (s t : String) → text_before s t ≡ false → text_before t s ≡ false → s ≡ t
text_before_connected s t h k = path_by_compare s t (ground (arith, compare-opposite s t))
