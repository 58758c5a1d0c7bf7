-- ===== src/Prelude/Int.antt =====
-- Signed integers over the native numbers, and `i64` arithmetic that wraps at 2^63.
use riscdom.Prelude.Tests.{ltb, leb, ◌==◌, if◌then◌else◌}
use Prim.Native.Nat.{ℕ, suc, ◌+◌, ◌-◌, ◌/◌, ◌^◌, ◌%◌, ◌≤◌, ◌<◌}
use mathlib.Core.List.{List, [], ◌∷◌}
use mathlib.Core.Path.{◌≡◌}
use mathlib.Core.Logic.{◌↔◌}
use mathlib.Core.Bool.{Bool, true}
use native.Mathlib.Omega.{arith}

-- `negsuc n` is -(n + 1).
pub data ℤ : Type 0 where
  pos : ℕ → ℤ
  negsuc : ℕ → ℤ

abbrev pub pos_part : ℤ → ℕ
pos_part (pos n) = n
pos_part (negsuc n) = 0

abbrev pub neg_part : ℤ → ℕ
neg_part (pos n) = 0
neg_part (negsuc n) = suc n

abbrev pub sub_ℕ : ℕ → ℕ → ℤ
sub_ℕ a b = if leb b a then pos (a - b) else negsuc (b - a - 1)

infixl 65 ◌+ℤ◌ ◌-ℤ◌
infix 50 ◌≤ℤ◌ ◌<ℤ◌
unfoldable pub ◌+ℤ◌ : ℤ → ℤ → ℤ
a +ℤ b = sub_ℕ (pos_part a + pos_part b) (neg_part a + neg_part b)

unfoldable pub ◌-ℤ◌ : ℤ → ℤ → ℤ
a -ℤ b = sub_ℕ (pos_part a + neg_part b) (neg_part a + pos_part b)

abbrev pub ◌≤ℤ◌ : ℤ → ℤ → Type 0
a ≤ℤ b = pos_part a + neg_part b ≤ pos_part b + neg_part a

abbrev pub ◌<ℤ◌ : ℤ → ℤ → Type 0
a <ℤ b = pos_part a + neg_part b < pos_part b + neg_part a

abbrev pub ltb_ℤ : ℤ → ℤ → Bool
ltb_ℤ a b = ltb (pos_part a + neg_part b) (pos_part b + neg_part a)

abbrev pub leb_ℤ : ℤ → ℤ → Bool
leb_ℤ a b = leb (pos_part a + neg_part b) (pos_part b + neg_part a)

abbrev pub eqb_ℤ : ℤ → ℤ → Bool
eqb_ℤ a b = pos_part a + neg_part b == pos_part b + neg_part a

pub eqb_ℤ_iff : (a b : ℤ) → (eqb_ℤ a b ≡ true) ↔ (a ≡ b)
eqb_ℤ_iff a b = ground arith

-- The residue modulo 2^64, and the `i64` that has those bits.
abbrev pub residue_64 : ℤ → ℕ
residue_64 (pos n) = n % 2 ^ 64
residue_64 (negsuc n) = 2 ^ 64 - 1 - n % 2 ^ 64

unfoldable pub wrap_i64 : ℤ → ℤ
wrap_i64 a = let r = residue_64 a in if ltb r (2 ^ 63) then pos r else negsuc (2 ^ 64 - 1 - r)

-- What an `i64` can hold.
abbrev pub InI64 : ℤ → Type 0
InI64 a = (pos_part a < 2 ^ 63) × (neg_part a ≤ 2 ^ 63)

pub wrap_i64-eq : (a : ℤ) → InI64 a → wrap_i64 a ≡ a
unfolding wrap_i64
wrap_i64-eq (pos n) h = ground arith
wrap_i64-eq (negsuc n) h = ground arith

pub wrap_i64-InI64 : (a : ℤ) → InI64 (wrap_i64 a)
unfolding wrap_i64
wrap_i64-InI64 (pos n) = ground arith
wrap_i64-InI64 (negsuc n) = ground arith

-- `a + b` and `a - b` of two `i64`s, in a build without overflow checks.
unfoldable pub add_i64 : ℤ → ℤ → ℤ
add_i64 a b = wrap_i64 (a +ℤ b)

unfoldable pub sub_i64 : ℤ → ℤ → ℤ
sub_i64 a b = wrap_i64 (a -ℤ b)

pub add_i64-eq : (a b : ℤ) → InI64 (a +ℤ b) → add_i64 a b ≡ a +ℤ b
unfolding add_i64
add_i64-eq a b h = wrap_i64-eq (a +ℤ b) h

pub sub_i64-eq : (a b : ℤ) → InI64 (a -ℤ b) → sub_i64 a b ≡ a -ℤ b
unfolding sub_i64
sub_i64-eq a b h = wrap_i64-eq (a -ℤ b) h

-- One lemma for each operation lets `omega` work with the operations shut.
pub +ℤ_parts :
    (a b : ℤ)
    → pos_part (a +ℤ b) + neg_part a + neg_part b ≡ neg_part (a +ℤ b) + pos_part a + pos_part b
unfolding ◌+ℤ◌
+ℤ_parts a b = ground arith

pub -ℤ_parts :
    (a b : ℤ)
    → pos_part (a -ℤ b) + neg_part a + pos_part b ≡ neg_part (a -ℤ b) + pos_part a + neg_part b
unfolding ◌-ℤ◌
-ℤ_parts a b = ground arith

pub eq_of_parts : (a b : ℤ) → pos_part a + neg_part b ≡ pos_part b + neg_part a → a ≡ b
eq_of_parts a b h = ground arith

pub ruleset int_laws = (arith, +ℤ_parts, -ℤ_parts, eq_of_parts)

-- `saturating_add` and `saturating_sub` of two `i64`s.
unfoldable pub clamp_i64 : ℤ → ℤ
clamp_i64 a =
    if ltb (pos_part a) (2 ^ 63)
    then if leb (neg_part a) (2 ^ 63) then a else negsuc (2 ^ 63 - 1)
    else pos (2 ^ 63 - 1)

unfoldable pub saturating_add_i64 : ℤ → ℤ → ℤ
unfolding clamp_i64 ◌+ℤ◌
saturating_add_i64 a b = clamp_i64 (a +ℤ b)

unfoldable pub saturating_sub_i64 : ℤ → ℤ → ℤ
unfolding clamp_i64 ◌-ℤ◌
saturating_sub_i64 a b = clamp_i64 (a -ℤ b)

-- `i64::to_le_bytes`.
unfoldable pub le_bytes_i64 : ℤ → List ℕ
le_bytes_i64 a =
    let r = residue_64 a in
    r % 2 ^ 8
    ∷ r / 2 ^ 8 % 2 ^ 8
    ∷ r / 2 ^ 16 % 2 ^ 8
    ∷ r / 2 ^ 24 % 2 ^ 8
    ∷ r / 2 ^ 32 % 2 ^ 8
    ∷ r / 2 ^ 40 % 2 ^ 8
    ∷ r / 2 ^ 48 % 2 ^ 8
    ∷ r / 2 ^ 56 % 2 ^ 8
    ∷ []

-- The clamp keeps the order.
clamp_i64-mono : (a b : ℤ) → a ≤ℤ b → clamp_i64 a ≤ℤ clamp_i64 b
unfolding clamp_i64
clamp_i64-mono a b h = ground arith

+ℤ-mono : (t a b : ℤ) → a ≤ℤ b → t +ℤ a ≤ℤ t +ℤ b
+ℤ-mono t a b h = omega int_laws

pub saturating_add_i64-mono :
    (t a b : ℤ) → a ≤ℤ b → saturating_add_i64 t a ≤ℤ saturating_add_i64 t b
unfolding saturating_add_i64
saturating_add_i64-mono t a b h = clamp_i64-mono (t +ℤ a) (t +ℤ b) (+ℤ-mono t a b h)
