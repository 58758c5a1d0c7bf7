-- ===== src/Suppression/Line.antt =====
-- Who is first in line (net/src/suppression.rs).
use mathlib.Core.Path.{subst}
use riscdom.Prelude.{
  Bool, Bool-cases, List, String, [], any, ap, arith, contains, eq_iff, false, if◌then◌else◌, inl,
  inr, refl, some, str_eq, str_lt, true, ◌↔◌, ◌∷◌, ◌≡◌, ◌≢◌,
}
use riscdom.Prelude.TextOrder.{str_lt_irrefl, str_lt_total, str_lt_trans}
use riscdom.Suppression.{first_in_line, is_first_in_line, min_from}

-- Nothing before the least so far, or among the rest, sorts before what `min` answers.
min_from-least :
    (a x : String) (nodes : List String) → str_lt x a ≡ false → str_lt x (min_from a nodes) ≡ false
unfolding min_from
min_from-least a x [] h = h
min_from-least a x (y ∷ nodes) h =
    min_from-least (if str_lt y a then y else a) x nodes (ground (arith, str_lt_trans x y a))

min_from-le :
    (a : String) (nodes : List String) → any (λ x. str_lt x (min_from a nodes)) nodes ≡ false
unfolding min_from any
min_from-le a [] = refl
min_from-le a (y ∷ nodes) =
    let rest = min_from-le (if str_lt y a then y else a) nodes in
    let first =
      min_from-least (if str_lt y a then y else a) y nodes (ground (arith, str_lt_irrefl y)) in
    ground (arith, rest, first)

min_from-first :
    (a : String) (nodes : List String) → any (λ x. str_lt x a) nodes ≡ false → min_from a nodes ≡ a
unfolding min_from any
min_from-first a [] h = refl
min_from-first a (y ∷ nodes) h = ground (arith, min_from-first a nodes)

-- A node is first in the line that it knows exactly when it is the one that comes first of itself
-- and the others.
pub is_first_in_line_iff :
    (node : String) (others : List String)
    → (is_first_in_line node others ≡ true) ↔ (first_in_line (node ∷ others) ≡ some node)
unfolding is_first_in_line first_in_line
is_first_in_line_iff node others = (
  λ h. ap some (min_from-first node others (ground arith)),
  λ h.
      let least : min_from node others ≡ node = cc in
      let none_less : any (λ x. str_lt x node) others ≡ false =
        subst (λ k. any (λ x. str_lt x k) others ≡ false) least (min_from-le node others) in
      rw none_less,
)

any-contains :
    (f : String → Bool) (b : String) (xs : List String)
    → contains xs b ≡ true
    → f b ≡ true
    → any f xs ≡ true
unfolding any
any-contains f b [] k h = absurd (ground arith)
any-contains f b (x ∷ xs) k h = elim (Bool-cases (str_eq x b)) [
  | inl e ↦ rw ((eq_iff x b).0 e, h)
  | inr n ↦ ground (arith, any-contains f b xs)
]

-- Of two nodes with different names, each of which knows the other, at most one finds itself first
-- in line, whoever else they know.
pub first_of_two :
    (a b : String) (known_to_a known_to_b : List String)
    → a ≢ b
    → contains known_to_a b ≡ true
    → contains known_to_b a ≡ true
    → is_first_in_line a known_to_a ≡ true
    → is_first_in_line b known_to_b ≡ false
unfolding is_first_in_line
first_of_two a b known_to_a known_to_b ne ka kb first = ground (
  arith,
  any-contains (λ x. str_lt x a) b known_to_a ka,
  any-contains (λ x. str_lt x b) a known_to_b kb,
  str_lt_total a b,
  eq_iff a b,
)
