-- ===== src/Agent/Policy/Extension.antt =====
-- Which files the policy takes for sources (agent/src/policy.rs).
use Prim.Native.Char.{Char, code}
use riscdom.Prelude.{
  All, Any, Bool, Bool-cases, List, Option, String, [], any_iff, ap, arith, false, if◌then◌else◌,
  inl, inr, leb, none, refl, some, true, ℕ, ◌&&◌, ◌++◌, ◌+◌, ◌==◌, ◌↔◌, ◌∙◌, ◌∷◌, ◌≡◌, ◌≢◌, ◌≤◌,
  ◌⊎◌,
}
use riscdom.Prelude.Text.{chars, concat, of_chars}
use riscdom.Agent.Config.{rsplit_once}
use riscdom.Agent.Policy.{
  Component, cur_dir, eq_ignore_ascii_case, extension, extension_after, is_allowed, lower, new,
  normal, parent_dir, root_dir,
}

-- The same letter but for its case, or the same character.
abbrev SameLetter : Char → Char → Type 0
SameLetter c d =
    (code c ≡ code d)
    ⊎ (((65 ≤ code c) × (code c ≤ 90) × (code d ≡ code c + 32))
        ⊎ ((65 ≤ code d) × (code d ≤ 90) × (code c ≡ code d + 32)))

-- The same text but for the case of its letters.
abbrev pub SameLetters : List Char → List Char → Type 0
SameLetters [] [] = Unit
SameLetters [] (d ∷ ds) = ⊥
SameLetters (c ∷ cs) [] = ⊥
SameLetters (c ∷ cs) (d ∷ ds) = SameLetter c d × SameLetters cs ds

-- The last component is a name with a last dot, something before that, and after it an extension of
-- these up to the case of its letters.
abbrev pub IsSource : List Component → Type 0
IsSource abs =
    (front : List Component) × (name : String) × (before : List Char) × (dot : Char) × (after : List
      Char)
    × (abs ≡ front ++ normal name ∷ [])
    × (chars name ≡ before ++ dot ∷ after)
    × (before ≢ [])
    × (code dot ≡ 46)
    × All (λ c. code c ≢ 46) after
    × Any (λ ext. SameLetters (chars ext) (chars (concat ("." ∷ of_chars after ∷ []))))
        (".c" ∷ ".h" ∷ ".S" ∷ ".s" ∷ ".zig" ∷ ".rs" ∷ [])

lower_iff : (c d : Char) → (lower (code c) == lower (code d) ≡ true) ↔ SameLetter c d
lower_iff c d = (there (code c) (code d), back (code c) (code d))
  where
    capital : ℕ → Bool
    capital n = leb 65 n && leb n 90

    there :
        (n m : ℕ)
        → (lower n == lower m) ≡ true
        → (n ≡ m) ⊎ (((65 ≤ n) × (n ≤ 90) × (m ≡ n + 32)) ⊎ ((65 ≤ m) × (m ≤ 90) × (n ≡ m + 32)))
    there n m h = elim (Bool-cases (capital n)) [
      | inl is_n ↦ elim (Bool-cases (capital m)) [
        | inl is_m ↦ inl (ground (arith, h, is_n, is_m))
        | inr not_m ↦
            inr (inl (ground (arith, is_n), ground (arith, is_n), ground (arith, h, is_n, not_m)))
      ]
      | inr not_n ↦ elim (Bool-cases (capital m)) [
        | inl is_m ↦
            inr (inr (ground (arith, is_m), ground (arith, is_m), ground (arith, h, not_n, is_m)))
        | inr not_m ↦ inl (ground (arith, h, not_n, not_m))
      ]
    ]

    back :
        (n m : ℕ)
        → (n ≡ m) ⊎ (((65 ≤ n) × (n ≤ 90) × (m ≡ n + 32)) ⊎ ((65 ≤ m) × (m ≤ 90) × (n ≡ m + 32)))
        → (lower n == lower m) ≡ true
    back n m (inl e) = ground (arith, e)
    back n m (inr (inl (low, high, e))) = ground (arith, low, high, e)
    back n m (inr (inr (low, high, e))) = ground (arith, low, high, e)

eq_ignore_ascii_case_iff :
    (cs ds : List Char) → (eq_ignore_ascii_case cs ds ≡ true) ↔ SameLetters cs ds
unfolding eq_ignore_ascii_case
eq_ignore_ascii_case_iff [] [] = (λ h. tt, λ h. refl)
eq_ignore_ascii_case_iff [] (d ∷ ds) = (λ h. cc, λ h. absurd h)
eq_ignore_ascii_case_iff (c ∷ cs) [] = (λ h. cc, λ h. absurd h)
eq_ignore_ascii_case_iff (c ∷ cs) (d ∷ ds) = (
  λ h. (
    (lower_iff c d).0 (ground (arith, h)),
    (eq_ignore_ascii_case_iff cs ds).0 (ground (arith, h)),
  ),
  λ (letter, letters). rw ((lower_iff c d).1 letter) ((eq_ignore_ascii_case_iff cs ds).1 letters),
)

rsplit_once-none : (at : ℕ) (cs : List Char) → All (λ c. code c ≢ at) cs → rsplit_once at cs ≡ none
unfolding rsplit_once
rsplit_once-none at [] h = refl
rsplit_once-none at (c ∷ cs) (other, h) =
    rw (rsplit_once-none at cs h) (elim (Bool-cases (code c == at)) [
      | inl same ↦ absurd (other (ground (arith, same)))
      | inr differs ↦ rw differs refl
    ])

rsplit_once-some :
    (at : ℕ) (before : List Char) (dot : Char) (after : List Char)
    → code dot ≡ at
    → All (λ c. code c ≢ at) after
    → rsplit_once at (before ++ dot ∷ after) ≡ some (before, after)
unfolding rsplit_once
rsplit_once-some at [] dot after e h =
    let same : (code dot == at) ≡ true = ground (arith, e) in
    rw (rsplit_once-none at after h) (rw same refl)
rsplit_once-some at (c ∷ before) dot after e h = rw (rsplit_once-some at before dot after e h) refl

-- What a split at the last of a character is.
abbrev SplitEnds : ℕ → List Char → Option (List Char × List Char) → Type 0
SplitEnds at cs none = All (λ c. code c ≢ at) cs
SplitEnds at cs (some (before, after)) =
    (dot : Char) × (cs ≡ before ++ dot ∷ after) × (code dot ≡ at) × All (λ c. code c ≢ at) after

rsplit_once-SplitEnds : (at : ℕ) (cs : List Char) → SplitEnds at cs (rsplit_once at cs)
unfolding rsplit_once
rsplit_once-SplitEnds at [] = tt
rsplit_once-SplitEnds at (c ∷ cs) = go (rsplit_once at cs) (rsplit_once-SplitEnds at cs)
  where
    tested :
        (b : Bool)
        → (code c == at) ≡ b
        → All (λ c. code c ≢ at) cs
        → SplitEnds at (c ∷ cs) (if b then some ([], cs) else none)
    tested true e h = (c, refl, ground (arith, e), h)
    tested false e h = ((λ q. ground (arith, e, q)), h)

    go :
        (r : Option (List Char × List Char))
        → SplitEnds at cs r
        → SplitEnds at (c ∷ cs) (elim r [
          | some (before, after) ↦ some (c ∷ before, after)
          | none ↦ if code c == at then some ([], cs) else none
        ])
    go none h = tested (code c == at) refl h
    go (some (before, after)) (dot, e, is_at, h) = (dot, ap (λ l. c ∷ l) e, is_at, h)

-- Only a name at the end has an extension.
extension-split :
    (cs : List Component)
    → (extension cs ≡ "")
      ⊎ ((front : List Component) × (name : String) × (cs ≡ front ++ normal name ∷ [])
          × (extension cs ≡ extension_after name (rsplit_once 46 (chars name))))
unfolding extension
extension-split [] = inl refl
extension-split (normal name ∷ []) = inr ([], name, refl, refl)
extension-split (root_dir ∷ []) = inl refl
extension-split (cur_dir ∷ []) = inl refl
extension-split (parent_dir ∷ []) = inl refl
extension-split (c ∷ d ∷ cs) = elim (extension-split (d ∷ cs)) [
  | inl e ↦ inl e
  | inr (front, name, split, e) ↦ inr (c ∷ front, name, ap (λ l. c ∷ l) split, e)
]

extension-name :
    (front : List Component) (name : String)
    → extension (front ++ normal name ∷ []) ≡ extension_after name (rsplit_once 46 (chars name))
unfolding extension
extension-name [] name = refl
extension-name (c ∷ []) name = refl
extension-name (c ∷ d ∷ front) name = extension-name (d ∷ front) name

abbrev six : List String
six = ".c" ∷ ".h" ∷ ".S" ∷ ".s" ∷ ".zig" ∷ ".rs" ∷ []

is_allowed_iff :
    (root : List Component) (ext : String)
    → (is_allowed (new root).allowed_extensions ext ≡ true)
      ↔ Any (λ a. SameLetters (chars a) (chars ext)) six
unfolding is_allowed new
is_allowed_iff root ext =
    any_iff _ (λ a. SameLetters (chars a) (chars ext))
      (λ a. eq_ignore_ascii_case_iff (chars a) (chars ext)) six

not_empty : ¬ Any (λ a. SameLetters (chars a) (chars "")) six
not_empty (inl h) = h
not_empty (inr (inl h)) = h
not_empty (inr (inr (inl h))) = h
not_empty (inr (inr (inr (inl h)))) = h
not_empty (inr (inr (inr (inr (inl h))))) = h
not_empty (inr (inr (inr (inr (inr (inl h)))))) = h
not_empty (inr (inr (inr (inr (inr (inr h)))))) = absurd h

-- The file is one of the kinds that may be written exactly when it is a source.
pub extension-IsSource :
    (root : List Component) (abs : List Component)
    → (is_allowed (new root).allowed_extensions (extension abs) ≡ true) ↔ IsSource abs
extension-IsSource root abs = (
  λ h. elim (extension-split abs) [
    | inl e ↦ absurd (not_empty ((is_allowed_iff root "").0 (rw e at h)))
    | inr (front, name, split, e) ↦
        named front name split (rsplit_once 46 (chars name)) (rsplit_once-SplitEnds 46 (chars name))
          ((is_allowed_iff root _).0 (rw e at h))
  ],
  λ (front, name, before, dot, after, split, text, some_before, is_dot, no_dot, kind).
      let e =
        ap extension split
        ∙ extension-name front name
        ∙ ap (extension_after name)
            (ap (rsplit_once 46) text ∙ rsplit_once-some 46 before dot after is_dot no_dot)
        ∙ dotted name before after some_before in
      (is_allowed_iff root (extension abs)).1 (rw e kind),
)
  where
    dotted :
        (name : String) (before after : List Char)
        → before ≢ []
        → extension_after name (some (before, after)) ≡ concat ("." ∷ of_chars after ∷ [])
    dotted name [] after h = absurd (h refl)
    dotted name (c ∷ before) after h = refl

    named :
        (front : List Component) (name : String)
        → abs ≡ front ++ normal name ∷ []
        → (r : Option (List Char × List Char)) → SplitEnds 46 (chars name) r
        → Any (λ a. SameLetters (chars a) (chars (extension_after name r))) six
        → IsSource abs
    named front name split none ends kind = absurd (not_empty kind)
    named front name split (some ([], after)) ends kind = absurd (not_empty kind)
    named front name split (some (c ∷ before, after)) (dot, e, is_dot, no_dot) kind =
        (front, name, c ∷ before, dot, after, split, e, (λ q. cc), is_dot, no_dot, kind)
