-- ===== src/Segment/Owner.antt =====
-- The part of a segment id that names its owner (audit/src/segment.rs).
use Prim.Native.Char.{Char, code}
use riscdom.Prelude.{
  All, Bool-cases, List, [], ap, arith, if◌then◌else◌, inl, inr, length, refl, suc, true, zero, ℕ,
  ◌==◌, ◌↔◌, ◌∙◌, ◌∷◌, ◌≡◌, ◌≢◌, ◌≤◌,
}
use riscdom.Segment.{before, is_safe, or_node, owner_max_chars, pop_dots, safe_chars, safe_owner}

-- No trailing dot.
abbrev NoDotAtEnd : List Char → Type 0
NoDotAtEnd [] = Unit
NoDotAtEnd (c ∷ []) = code c ≢ 46
NoDotAtEnd (c ∷ d ∷ ds) = NoDotAtEnd (d ∷ ds)

abbrev AreSafe : List Char → Type 0
AreSafe = All λ c. is_safe (code c) ≡ true

underscore : is_safe 95 ≡ true
unfolding is_safe
underscore = refl

replaced : (c : Char) → is_safe (code (if is_safe (code c) then c else "_")) ≡ true
replaced c = elim (Bool-cases (is_safe (code c))) [ inl t ↦ rw (t, t) | inr n ↦ rw (n, underscore) ]

safe_chars-AreSafe : (n : ℕ) (cs : List Char) → AreSafe (safe_chars n cs)
unfolding safe_chars
safe_chars-AreSafe zero cs = tt
safe_chars-AreSafe (suc n) [] = tt
safe_chars-AreSafe (suc n) (c ∷ cs) = (replaced c, safe_chars-AreSafe n cs)

length-safe_chars : (n : ℕ) (cs : List Char) → length (safe_chars n cs) ≤ n
unfolding safe_chars
length-safe_chars zero cs = omega arith
length-safe_chars (suc n) [] = omega arith
length-safe_chars (suc n) (c ∷ cs) = omega (arith, length-safe_chars n cs)

-- What popping the dots leaves is no longer, ends in no dot, and holds no other character.
abbrev Popped : List Char → List Char → Type 0
Popped cs ds = (length ds ≤ length cs) × NoDotAtEnd ds × (AreSafe cs → AreSafe ds)

before-Popped : (c : Char) (cs ds : List Char) → Popped cs ds → Popped (c ∷ cs) (before c ds)
before-Popped c cs [] h = elim (Bool-cases (code c == 46)) [
  | inl t ↦ rw t (omega arith, tt, λ s. tt)
  | inr f ↦ rw f (omega arith, ground arith, λ s. (s.0, tt))
]
before-Popped c cs (d ∷ ds) h = (omega arith, h.1, λ s. (s.0, h.2 s.1))

pop_dots-Popped : (cs : List Char) → Popped cs (pop_dots cs)
unfolding pop_dots
pop_dots-Popped [] = (omega arith, tt, λ h. tt)
pop_dots-Popped (c ∷ cs) = before-Popped c cs (pop_dots cs) (pop_dots-Popped cs)

abbrev pub IsUsable : List Char → Type 0
IsUsable cs = (1 ≤ length cs) × (length cs ≤ owner_max_chars) × AreSafe cs × NoDotAtEnd cs

or_node-IsUsable :
    (cs : List Char)
    → length cs ≤ owner_max_chars
    → AreSafe cs
    → NoDotAtEnd cs
    → IsUsable (or_node cs)
unfolding is_safe
or_node-IsUsable [] n s d =
    (omega arith, omega arith, (refl, (refl, (refl, (refl, tt)))), omega arith)
or_node-IsUsable (c ∷ cs) n s d = (omega arith, n, s, d)

-- A name that is usable as it is passes through.
safe_chars-kept : (n : ℕ) (cs : List Char) → length cs ≤ n → AreSafe cs → safe_chars n cs ≡ cs
unfolding safe_chars
safe_chars-kept zero [] n s = refl
safe_chars-kept zero (c ∷ cs) n s = absurd (omega arith)
safe_chars-kept (suc k) [] n s = refl
safe_chars-kept (suc k) (c ∷ cs) n s = ground (arith, safe_chars-kept k cs (omega arith) s.1, s.0)

pop_dots-kept : (cs : List Char) → NoDotAtEnd cs → pop_dots cs ≡ cs
unfolding pop_dots
pop_dots-kept [] h = refl
pop_dots-kept (c ∷ []) h = ground arith
pop_dots-kept (c ∷ d ∷ ds) h = rw (pop_dots-kept (d ∷ ds) h)

-- A name that is usable as it is passes through.
safe_owner-IsUsable_id : (owner : List Char) → IsUsable owner → safe_owner owner ≡ owner
unfolding safe_owner
safe_owner-IsUsable_id [] h = absurd (omega (arith, h.0))
safe_owner-IsUsable_id (c ∷ cs) h =
    ap (λ l. or_node (pop_dots l)) (safe_chars-kept owner_max_chars (c ∷ cs) h.1 h.2)
    ∙ ap or_node (pop_dots-kept (c ∷ cs) h.3)

safe_owner-IsUsable : (owner : List Char) → IsUsable (safe_owner owner)
unfolding safe_owner
safe_owner-IsUsable owner =
    or_node-IsUsable (pop_dots (safe_chars owner_max_chars owner))
      (omega (arith, popped.0, length-safe_chars owner_max_chars owner))
      (popped.2 (safe_chars-AreSafe owner_max_chars owner)) popped.1
  where
    popped : Popped (safe_chars owner_max_chars owner) (pop_dots (safe_chars owner_max_chars owner))
    popped = pop_dots-Popped (safe_chars owner_max_chars owner)

-- Whatever the owner is called, the name made of it has between 1 and 48 characters, each an ASCII
-- letter, a digit, `-`, `_` or `.`, and does not end in a dot; the names that are so are exactly the
-- ones that are left as they are; and making a name safe twice is making it safe once.
pub safe_owner_lem :
    (owner : List Char)
    → IsUsable (safe_owner owner)
      × (IsUsable owner ↔ (safe_owner owner ≡ owner))
      × (safe_owner (safe_owner owner) ≡ safe_owner owner)
safe_owner_lem owner = (
  safe_owner-IsUsable owner,
  (safe_owner-IsUsable_id owner, λ e. let u = safe_owner-IsUsable owner in rw e at u),
  safe_owner-IsUsable_id (safe_owner owner) (safe_owner-IsUsable owner),
)
