-- ===== src/Prelude/TextOrder.antt =====
-- The order of texts is a strict total order.
use Prim.Native.Nat.{Ordering}
use Prim.Native.String.{String, [], ◌∷◌, compare}
use Prim.Native.String.compare
use mathlib.Core.Path.{◌≡◌}
use mathlib.Core.Bool.{true, false}
use native.Mathlib.Omega.{arith}
use text.Mathlib.TextEquality.{eq_iff}
use text.Mathlib.Text.{◌==◌ as str_eq}
use riscdom.Prelude.Maps.{str_lt}

compare_trans :
    (a b c : String)
    → compare a b ≡ Ordering.lt
    → compare b c ≡ Ordering.lt
    → compare a c ≡ Ordering.lt
compare_trans [] [] c h k = absurd (ground (arith, compare.nil-nil))
compare_trans [] (y ∷ b) [] h k = absurd (ground (arith, compare.cons-nil y b))
compare_trans [] (y ∷ b) (z ∷ c) h k = compare.nil-cons z c
compare_trans (x ∷ a) [] c h k = absurd (ground (arith, compare.cons-nil x a))
compare_trans (x ∷ a) (y ∷ b) [] h k = absurd (ground (arith, compare.cons-nil y b))
compare_trans (x ∷ a) (y ∷ b) (z ∷ c) h k = ground (
  arith,
  compare.cons-cons x y a b,
  compare.cons-cons y z b c,
  compare.cons-cons x z a c,
  compare_trans a b c,
)

compare_swap : (a b : String) → compare a b ≡ Ordering.gt → compare b a ≡ Ordering.lt
compare_swap [] [] h = absurd (ground (arith, compare.nil-nil))
compare_swap [] (y ∷ b) h = absurd (ground (arith, compare.nil-cons y b))
compare_swap (x ∷ a) [] h = compare.nil-cons x a
compare_swap (x ∷ a) (y ∷ b) h =
    ground (arith, compare.cons-cons x y a b, compare.cons-cons y x b a, compare_swap a b)

pub str_lt_trans : (a b c : String) → str_lt a b ≡ true → str_lt b c ≡ true → str_lt a c ≡ true
str_lt_trans a b c h k = ground (arith, compare_trans a b c)

pub str_lt_irrefl : (a : String) → str_lt a a ≡ false
str_lt_irrefl a = ground (arith, eq_iff a a)

-- Of two texts, neither less than the other, both are equal.
pub str_lt_total : (a b : String) → str_lt a b ≡ false → str_lt b a ≡ false → str_eq a b ≡ true
str_lt_total a b h k = ground (arith, compare_swap a b)

pub str_lt_asymm : (a b : String) → str_lt a b ≡ true → str_lt b a ≡ false
str_lt_asymm a b h = ground (arith, compare_trans a b a, str_lt_irrefl a)
