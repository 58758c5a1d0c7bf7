-- ===== src/Delivery/Sort.antt =====
-- Sorted positions (net/src/suppression.rs).
use riscdom.Prelude.{
  All, Bool-cases, List, [], arith, if◌then◌else◌, inl, inr, leb, ltb, refl, suc, true, zero, ℕ,
  ◌&&◌, ◌+◌, ◌==◌, ◌↔◌, ◌∷◌, ◌≡◌, ◌≤◌,
}
use riscdom.Delivery.{insert_sorted, range, same_numbers, sort}

-- How often a number stands in a list.
abbrev pub times : ℕ → List ℕ → ℕ
times p [] = 0
times p (n ∷ ns) = (if n == p then 1 else 0) + times p ns

times-insert_sorted :
    (p n : ℕ) (ns : List ℕ) → times p (insert_sorted n ns) ≡ (if n == p then 1 else 0) + times p ns
unfolding insert_sorted
times-insert_sorted p n [] = refl
times-insert_sorted p n (m ∷ ms) = ground (arith, times-insert_sorted p n ms)

times-sort : (p : ℕ) (ns : List ℕ) → times p (sort ns) ≡ times p ns
unfolding sort
times-sort p [] = refl
times-sort p (n ∷ ns) = omega (arith, times-insert_sorted p n (sort ns), times-sort p ns)

pub times-range :
    (p from n : ℕ) → times p (range from n) ≡ (if leb from p && ltb p (from + n) then 1 else 0)
unfolding range
times-range p from zero = ground arith
times-range p from (suc n) = ground (arith, times-range p (suc from) n)

abbrev IsSorted : List ℕ → Type 0
IsSorted [] = Unit
IsSorted (n ∷ ns) = All (λ m. n ≤ m) ns × IsSorted ns

All-insert_sorted :
    (k n : ℕ) (ns : List ℕ) → k ≤ n → All (λ m. k ≤ m) ns → All (λ m. k ≤ m) (insert_sorted n ns)
unfolding insert_sorted
All-insert_sorted k n [] h a = (h, tt)
All-insert_sorted k n (m ∷ ms) h a = elim (Bool-cases (leb n m)) [
  | inl t ↦ rw t (h, a)
  | inr f ↦ rw f (a.0, All-insert_sorted k n ms h a.1)
]

All-weaken : (k n : ℕ) (ns : List ℕ) → k ≤ n → All (λ m. n ≤ m) ns → All (λ m. k ≤ m) ns
All-weaken k n [] h a = tt
All-weaken k n (m ∷ ms) h a = (omega (arith, h, a.0), All-weaken k n ms h a.1)

insert_sorted-IsSorted : (n : ℕ) (ns : List ℕ) → IsSorted ns → IsSorted (insert_sorted n ns)
unfolding insert_sorted
insert_sorted-IsSorted n [] h = (tt, tt)
insert_sorted-IsSorted n (m ∷ ms) h = elim (Bool-cases (leb n m)) [
  | inl t ↦ let le : n ≤ m = ground (arith, t) in rw t ((le, All-weaken n m ms le h.0), h)
  | inr f ↦
      let ge : m ≤ n = ground (arith, f) in
      rw f (All-insert_sorted m n ms ge h.0, insert_sorted-IsSorted n ms h.1)
]

sort-IsSorted : (ns : List ℕ) → IsSorted (sort ns)
unfolding sort
sort-IsSorted [] = tt
sort-IsSorted (n ∷ ns) = insert_sorted-IsSorted n (sort ns) (sort-IsSorted ns)

All-range : (k from n : ℕ) → k ≤ from → All (λ m. k ≤ m) (range from n)
unfolding range
All-range k from zero h = tt
All-range k from (suc n) h = (h, All-range k (suc from) n (omega (arith, h)))

range-IsSorted : (from n : ℕ) → IsSorted (range from n)
unfolding range
range-IsSorted from zero = tt
range-IsSorted from (suc n) =
    (All-range from (suc from) n (omega arith), range-IsSorted (suc from) n)

-- What stands in a list is at least its lower bound.
times-All : (k p : ℕ) (ns : List ℕ) → All (λ m. k ≤ m) ns → 1 ≤ times p ns → k ≤ p
times-All k p [] a h = absurd (omega (arith, h))
times-All k p (n ∷ ns) a h = elim (Bool-cases (n == p)) [
  | inl t ↦ let e : n ≡ p = ground (arith, t) in omega (arith, e, a.0)
  | inr f ↦ times-All k p ns a.1 (ground (arith, f, h))
]

heads_agree : (n m : ℕ) (ns ms : List ℕ) → All (λ k. m ≤ k) ms → 1 ≤ times n (m ∷ ms) → m ≤ n
heads_agree n m ns ms a h = times-All m n (m ∷ ms) (omega arith, a) h

times_self : (n : ℕ) (ns : List ℕ) → 1 ≤ times n (n ∷ ns)
times_self n ns = ground arith

-- Two sorted lists that hold every number equally often are the same.
sorted_unique :
    (ns ms : List ℕ)
    → IsSorted ns
    → IsSorted ms
    → ((p : ℕ) → times p ns ≡ times p ms)
    → same_numbers ns ms ≡ true
sorted_unique [] [] s t e = refl
sorted_unique [] (m ∷ ms) s t e = absurd (omega (arith, times_self m ms, e m))
sorted_unique (n ∷ ns) [] s t e = absurd (omega (arith, times_self n ns, e n))
sorted_unique (n ∷ ns) (m ∷ ms) s t e =
    let a : m ≤ n = heads_agree n m ns ms t.0 (omega (arith, times_self n ns, e n)) in
    let b : n ≤ m = heads_agree m n ms ns s.0 (omega (arith, times_self m ms, e m)) in
    let same : n ≡ m = omega (arith, a, b) in
    ground (arith, same, sorted_unique ns ms s.1 t.1 λ p. ground (arith, same, e p))

same_numbers-times :
    (ns ms : List ℕ) → same_numbers ns ms ≡ true → (p : ℕ) → times p ns ≡ times p ms
same_numbers-times [] [] h p = refl
same_numbers-times [] (m ∷ ms) h p = cc
same_numbers-times (n ∷ ns) [] h p = cc
same_numbers-times (n ∷ ns) (m ∷ ms) h p =
    ground (arith, h, same_numbers-times ns ms (ground (arith, h)) p)

-- The sorted list is `0..n` exactly when every number below `n` stands in the list once, and no
-- other does.
pub same_numbers_iff :
    (ns : List ℕ) (n : ℕ)
    → (same_numbers (sort ns) (range 0 n) ≡ true)
      ↔ ((p : ℕ) → times p ns ≡ (if ltb p n then 1 else 0))
same_numbers_iff ns n = (
  λ h p.
      ground
        (arith, same_numbers-times (sort ns) (range 0 n) h p, times-sort p ns, times-range p 0 n),
  λ e.
      sorted_unique (sort ns) (range 0 n) (sort-IsSorted ns) (range-IsSorted 0 n)
        λ p. ground (arith, e p, times-sort p ns, times-range p 0 n),
)
