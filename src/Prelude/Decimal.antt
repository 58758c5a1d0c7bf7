-- ===== src/Prelude/Decimal.antt =====
-- What the decimal of a number reads back as.
use Prim.Native.String.{◌++◌ as append}
use native.Mathlib.Nat.{pow-suc}
use mathlib.Core.Path.{subst, ap₂}
use riscdom.Prelude.{
  All, Bool-cases, List, String, [], ap, arith, inl, inr, refl, suc, sym, zero, ℕ, ◌%◌, ◌*◌, ◌++◌,
  ◌+◌, ◌-◌, ◌/◌, ◌<◌, ◌==◌, ◌^◌, ◌∙◌, ◌∷◌, ◌≡◌, ◌≢◌, ◌≤◌,
}
use riscdom.Prelude.Int.{InI64, negsuc, pos, ℤ}
use riscdom.Prelude.Text.{codes, codes-append, codes-injective, digit, digits, show_i64, show_nat}

abbrev IsDigit : ℕ → Type 0
IsDigit c = (48 ≤ c) × (c ≤ 57)

-- Reading digits from the left, after those that give `acc`.
read : ℕ → List ℕ → ℕ
read acc [] = acc
read acc (c ∷ cs) = read (acc * 10 + (c - 48)) cs

codes-digit : (d : ℕ) → d < 10 → codes (digit d) ≡ (48 + d) ∷ []
codes-digit zero h = refl
codes-digit (suc zero) h = refl
codes-digit (suc (suc zero)) h = refl
codes-digit (suc (suc (suc zero))) h = refl
codes-digit (suc (suc (suc (suc zero)))) h = refl
codes-digit (suc (suc (suc (suc (suc zero))))) h = refl
codes-digit (suc (suc (suc (suc (suc (suc zero)))))) h = refl
codes-digit (suc (suc (suc (suc (suc (suc (suc zero))))))) h = refl
codes-digit (suc (suc (suc (suc (suc (suc (suc (suc zero)))))))) h = refl
codes-digit (suc (suc (suc (suc (suc (suc (suc (suc (suc zero))))))))) h = refl
codes-digit (suc (suc (suc (suc (suc (suc (suc (suc (suc (suc n)))))))))) h = absurd (omega arith)

codes-digit-append :
    (d : ℕ) (rest : String) → d < 10 → codes (append (digit d) rest) ≡ (48 + d) ∷ codes rest
codes-digit-append d rest h = codes-append (digit d) rest ∙ rw (codes-digit d h)

-- Digits written in front of a text read back as the number, and then the text.
read-digits :
    (fuel n : ℕ) (rest : String)
    → n < 10 ^ fuel
    → read 0 (codes (digits fuel n rest)) ≡ read n (codes rest)
unfolding digits read
read-digits zero n rest h = let e : n ≡ 0 = omega arith in rw e
read-digits (suc fuel) n rest h = elim (Bool-cases (n / 10 == 0)) [
  | inl last ↦
      rw (last, codes-digit-append (n % 10) rest (omega arith))
        (ap (λ k. read k (codes rest)) (ground arith))
  | inr more ↦ rw more (
      read-digits fuel (n / 10) (append (digit (n % 10)) rest) (below (pow-suc 10 fuel))
      ∙ rw (codes-digit-append (n % 10) rest (omega arith))
          (ap (λ k. read k (codes rest)) (omega arith)))
]
  where
    below : 10 ^ suc fuel ≡ 10 ^ fuel * 10 → n / 10 < 10 ^ fuel
    below e = omega arith

All-digits :
    (fuel n : ℕ) (rest : String)
    → All IsDigit (codes rest)
    → All IsDigit (codes (digits fuel n rest))
unfolding digits
All-digits zero n rest h = h
All-digits (suc fuel) n rest h =
    let one : All IsDigit (codes (append (digit (n % 10)) rest)) =
      rw (codes-digit-append (n % 10) rest (omega arith)) ((omega arith, omega arith), h) in
    elim (Bool-cases (n / 10 == 0)) [
      | inl last ↦ rw last one
      | inr more ↦ rw more (All-digits fuel (n / 10) (append (digit (n % 10)) rest) one)
    ]

-- A number of at most twenty digits is told by its decimal.
pub show_nat-injective : (m n : ℕ) → m < 10 ^ 20 → n < 10 ^ 20 → show_nat m ≡ show_nat n → m ≡ n
unfolding show_nat read
show_nat-injective m n hm hn e =
    sym (read-digits 20 m "" hm) ∙ ap (λ s. read 0 (codes s)) e ∙ read-digits 20 n "" hn

All-show_nat : (n : ℕ) → All IsDigit (codes (show_nat n))
unfolding show_nat
All-show_nat n = All-digits 20 n "" tt

-- A minus sign is no digit.
minus-ne-show_nat : (m n : ℕ) → append "-" (show_nat m) ≢ show_nat n
minus-ne-show_nat m n e =
    let starts : All IsDigit (45 ∷ codes (show_nat m)) =
      subst (All IsDigit) (sym (ap codes e) ∙ codes-append "-" (show_nat m)) (All-show_nat n) in
    absurd (omega (arith, starts.0))

minus-injective : (s t : String) → append "-" s ≡ append "-" t → s ≡ t
minus-injective s t e =
    let q : 45 ∷ codes s ≡ 45 ∷ codes t =
      sym (codes-append "-" s) ∙ ap codes e ∙ codes-append "-" t in
    codes-injective s t (cc q)

-- An `i64` is told by its decimal.
pub show_i64-injective : (a b : ℤ) → InI64 a → InI64 b → show_i64 a ≡ show_i64 b → a ≡ b
unfolding show_i64
show_i64-injective (pos m) (pos n) ha hb e =
    ap pos (show_nat-injective m n (omega arith) (omega arith) e)
show_i64-injective (pos m) (negsuc n) ha hb e = absurd (minus-ne-show_nat (suc n) m (sym e))
show_i64-injective (negsuc m) (pos n) ha hb e = absurd (minus-ne-show_nat (suc m) n e)
show_i64-injective (negsuc m) (negsuc n) ha hb e =
    let q : suc m ≡ suc n =
      show_nat-injective (suc m) (suc n) (omega arith) (omega arith)
        (minus-injective (show_nat (suc m)) (show_nat (suc n)) e) in
    ap negsuc (omega arith)

-- The vertical bar is in no decimal.
abbrev pub NoBar : String → Type 0
NoBar s = All (λ c. c ≢ 124) (codes s)

All-NoBar : (cs : List ℕ) → All IsDigit cs → All (λ c. c ≢ 124) cs
All-NoBar [] h = tt
All-NoBar (c ∷ cs) h = (omega arith, All-NoBar cs h.1)

pub NoBar-show_i64 : (a : ℤ) → NoBar (show_i64 a)
unfolding show_i64
NoBar-show_i64 (pos n) = All-NoBar _ (All-show_nat n)
NoBar-show_i64 (negsuc n) =
    subst (All (λ c. c ≢ 124)) (sym (codes-append "-" (show_nat (suc n))))
      (omega arith, All-NoBar _ (All-show_nat (suc n)))

-- Where two texts with no bar are each followed by a bar, what stands before and after it is told.
split_bar_codes :
    (a b x y : List ℕ)
    → All (λ c. c ≢ 124) a
    → All (λ c. c ≢ 124) b
    → a ++ 124 ∷ x ≡ b ++ 124 ∷ y
    → (a ≡ b) × (x ≡ y)
split_bar_codes [] [] x y ha hb e = (refl, cc)
split_bar_codes [] (d ∷ b) x y ha hb e = absurd (hb.0 (cc))
split_bar_codes (c ∷ a) [] x y ha hb e = absurd (ha.0 (cc))
split_bar_codes (c ∷ a) (d ∷ b) x y ha hb e =
    let c_is_d : c ≡ d = cc in
    let rest : a ++ 124 ∷ x ≡ b ++ 124 ∷ y = cc in
    let (a_is_b, x_is_y) = split_bar_codes a b x y ha.1 hb.1 rest in (ap₂ ◌∷◌ c_is_d a_is_b, x_is_y)

codes-bar : (a x : String) → codes (append a (append "|" x)) ≡ codes a ++ 124 ∷ codes x
codes-bar a x = codes-append a (append "|" x) ∙ ap (λ l. codes a ++ l) (codes-append "|" x)

pub split_bar :
    (a b x y : String)
    → NoBar a
    → NoBar b
    → append a (append "|" x) ≡ append b (append "|" y)
    → (a ≡ b) × (x ≡ y)
split_bar a b x y ha hb e =
    let (p, q) =
      split_bar_codes (codes a) (codes b) (codes x) (codes y) ha hb
        (sym (codes-bar a x) ∙ ap codes e ∙ codes-bar b y) in
    (codes-injective a b p, codes-injective x y q)
