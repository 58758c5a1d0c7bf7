-- ===== src/Prelude/Lists.antt =====
-- Lists measured by native numbers, under the library's names, and membership tests for texts.
use Prim.Native.Nat.{ℕ, suc, ◌+◌}
use Prim.Native.String.{String}
use mathlib.Core.Path.{◌≡◌, refl}
use mathlib.Core.Logic.{◌⊎◌, ◌↔◌, inl, inr}
use mathlib.Core.Option.{some}
use riscdom.Prelude.Tests.{Bool-cases, if◌then◌else◌}
use riscdom.Prelude.Maps.{Map, lookup, str_lt}
use text.Mathlib.TextEquality.{eq_iff}
use mathlib.Core.Bool.{Bool, true, false, ◌||◌}
use mathlib.Core.List.{List, [], ◌∷◌, ◌++◌}
use native.Mathlib.Omega.{arith}
use text.Mathlib.Text.{◌==◌ as str_eq}

module _ {ℓ} {A : Type ℓ} where
  abbrev pub length : List A → ℕ
  length [] = 0
  length (x ∷ xs) = suc (length xs)

  pub length-append : (xs ys : List A) → length (xs ++ ys) ≡ length xs + length ys
  length-append [] ys = omega arith
  length-append (x ∷ xs) ys = omega (arith, length-append xs ys)

abbrev pub All {ℓ κ} : {A : Type ℓ} → (A → Type κ) → List A → Type κ
All P [] = Unit
All P (x ∷ xs) = P x × All P xs

-- `HashSet::contains`, `Vec::contains`.
abbrev pub contains : List String → String → Bool
contains [] a = false
contains (x ∷ xs) a = str_eq x a || contains xs a

-- `BTreeSet::insert`.
unfoldable pub set_insert : String → List String → List String
set_insert a [] = a ∷ []
set_insert a (x ∷ xs) =
    if str_eq x a then x ∷ xs else if str_lt a x then a ∷ x ∷ xs else x ∷ set_insert a xs

abbrev pub Any : {A : Type 0} → (A → Type 0) → List A → Type 0
Any P [] = ⊥
Any P (x ∷ xs) = P x ⊎ Any P xs

-- `Iterator::any`.
unfoldable pub any {ℓ} : {A : Type ℓ} → (A → Bool) → List A → Bool
any f [] = false
any f (x ∷ xs) = f x || any f xs

pub any_iff :
    {A : Type 0} (f : A → Bool) (P : A → Type 0)
    → ((a : A) → (f a ≡ true) ↔ P a)
    → (xs : List A) → (any f xs ≡ true) ↔ Any P xs
unfolding any
any_iff f P e [] = (λ h. cc, λ h. elim h [ ])
any_iff f P e (x ∷ xs) = (
  λ h. elim (Bool-cases (f x)) [
    | inl t ↦ inl ((e x).0 t)
    | inr n ↦ inr ((any_iff f P e xs).0 (rw n at h))
  ],
  λ h. elim h [ inl p ↦ rw ((e x).1 p) | inr q ↦ ground (arith, (any_iff f P e xs).1 q) ],
)

-- An entry that a map holds is one of its entries.
pub All-lookup :
    {V : Type 0} (P : String × V → Type 0) (k : String) (v : V) (m : Map V)
    → All P m
    → lookup k m ≡ some v
    → P (k, v)
unfolding lookup
All-lookup P k v [] h e = absurd (ground arith)
All-lookup P k v ((j, w) ∷ m) h e = elim (Bool-cases (str_eq j k)) [
  | inl t ↦ let p : j ≡ k = (eq_iff j k).0 t in let q : w ≡ v = ground arith in rw (← p, ← q) h.0
  | inr n ↦ All-lookup P k v m h.1 (ground arith)
]

pub contains-set_insert :
    (a w : String) (xs : List String) → contains (set_insert a xs) w ≡ (str_eq a w || contains xs w)
unfolding set_insert
contains-set_insert a w [] = refl
contains-set_insert a w (x ∷ xs) =
    ground (arith, contains-set_insert a w xs, eq_iff x a, eq_iff a w, eq_iff x w)

module _ {A : Type 0} (f : A → Bool) (Q : A → Type 0) where
  pub All-any-false : ((a : A) → f a ≡ false → Q a) → (xs : List A) → any f xs ≡ false → All Q xs
  unfolding any
  All-any-false k [] h = tt
  All-any-false k (x ∷ xs) h = (k x (ground arith), All-any-false k xs (ground arith))

  pub any-false-All : ((a : A) → Q a → f a ≡ false) → (xs : List A) → All Q xs → any f xs ≡ false
  unfolding any
  any-false-All k [] h = refl
  any-false-All k (x ∷ xs) h = ground (arith, k x h.0, any-false-All k xs h.1)

pub Any-map :
    {A : Type 0} (P Q : A → Type 0) → ((a : A) → P a → Q a) → (xs : List A) → Any P xs → Any Q xs
Any-map P Q k [] h = h
Any-map P Q k (x ∷ xs) (inl p) = inl (k x p)
Any-map P Q k (x ∷ xs) (inr p) = inr (Any-map P Q k xs p)
