-- ===== src/Prelude/Text.antt =====
-- Texts: joining them, and the decimal that `to_string` writes.
use Prim.Native.Nat.{ℕ, zero, suc, ◌/◌, ◌%◌}
use Prim.Native.Char.{Char, code}
use Prim.Native.String.{String, ◌++◌}
use Prim.Native.String.append
use mathlib.Core.Path.{◌≡◌, refl, sym, ap, ap₂, ◌∙◌}
use text.Mathlib.TextEquality.{Char-path}
use text.Mathlib.TextLemmas.{append-nil, nil-append, append_assoc}
use mathlib.Core.List
use mathlib.Core.Option.{Option, none, some}
use mathlib.Core.List.{List, [], ◌∷◌}
use riscdom.Prelude.Tests.{◌==◌, leb, if◌then◌else◌}
use mathlib.Core.Bool.{Bool, ◌||◌, ◌&&◌}
use riscdom.Prelude.Int.{ℤ, pos, negsuc}

-- The pieces of a `format!`, joined.
abbrev pub concat : List String → String
concat [] = ""
concat (s ∷ ss) = s ++ concat ss

pub concat-nil : (s : String) → concat (s ∷ "" ∷ []) ≡ s
concat-nil s = append-nil s

pub concat-empty : (s : String) → concat ("" ∷ s ∷ []) ≡ s
concat-empty s = nil-append (s ++ "") ∙ append-nil s

pub concat-concat :
    (s t u : String) → concat (concat (s ∷ t ∷ []) ∷ u ∷ []) ≡ concat (s ∷ concat (t ∷ u ∷ []) ∷ [])
concat-concat s t u =
    ap (λ v. v ++ (u ++ "")) (ap (λ v. s ++ v) (append-nil t))
    ∙ append_assoc s t (u ++ "")
    ∙ ap (λ v. s ++ v) (sym (append-nil (t ++ (u ++ ""))))

abbrev pub digit : ℕ → String
digit d =
    if d == 0
    then "0"
    else if d == 1
    then "1"
    else if d == 2
    then "2"
    else if d == 3
    then "3"
    else if d == 4
    then "4"
    else if d == 5
    then "5"
    else if d == 6
    then "6"
    else if d == 7
    then "7"
    else if d == 8
    then "8"
    else "9"

-- The digits of `n` in front of `rest`; a number below 10^fuel needs no more fuel.
unfoldable pub digits : ℕ → ℕ → String → String
digits zero n rest = rest
digits (suc fuel) n rest =
    let more = digits fuel (n / 10) (digit (n % 10) ++ rest) in
    if n / 10 == 0 then digit (n % 10) ++ rest else more

-- Twenty digits hold every `i64` and every `u64`.
unfoldable pub show_nat : ℕ → String
unfolding digits
show_nat n = digits 20 n ""

unfoldable pub show_i64 : ℤ → String
unfolding show_nat
show_i64 (pos n) = show_nat n
show_i64 (negsuc n) = "-" ++ show_nat (suc n)

-- The code points of a text.
abbrev pub codes : String → List ℕ
codes String.[] = []
codes (String.◌∷◌ c s) = code c ∷ codes s

pub codes-append : (s t : String) → codes (s ++ t) ≡ List.◌++◌ (codes s) (codes t)
codes-append String.[] t = ap codes (append.nil t)
codes-append (String.◌∷◌ c s) t =
    ap codes (append.cons c s t) ∙ ap (λ (l : List ℕ). code c ∷ l) (codes-append s t)

pub codes-injective : (s t : String) → codes s ≡ codes t → s ≡ t
codes-injective String.[] String.[] h = refl
codes-injective String.[] (String.◌∷◌ d t) h = cc
codes-injective (String.◌∷◌ c s) String.[] h = cc
codes-injective (String.◌∷◌ c s) (String.◌∷◌ d t) h =
    let c_is_d : code c ≡ code d = cc in
    let s_is_t : codes s ≡ codes t = cc in
    ap₂ String.◌∷◌ (Char-path c d c_is_d) (codes-injective s t s_is_t)

abbrev pub chars : String → List Char
chars String.[] = []
chars (String.◌∷◌ c s) = c ∷ chars s

-- `String::push` in order.
abbrev pub of_chars : List Char → String
of_chars [] = ""
of_chars (c ∷ cs) = String.◌∷◌ c (of_chars cs)

-- `char::is_whitespace`.
unfoldable pub is_whitespace : ℕ → Bool
is_whitespace c =
    leb 9 c && leb c 13
    || c == 32
    || c == 133
    || c == 160
    || c == 5760
    || leb 8192 c && leb c 8202
    || c == 8232
    || c == 8233
    || c == 8239
    || c == 8287
    || c == 12288

-- `trim_start` and `trim_end` over the characters, for a test of a character.
module _ (drops : Char → Bool) where
  unfoldable pub drop_start : List Char → List Char
  drop_start [] = []
  drop_start (c ∷ cs) = if drops c then drop_start cs else c ∷ cs

  abbrev pub end_onto : Char → List Char → List Char
  end_onto c [] = if drops c then [] else c ∷ []
  end_onto c (d ∷ ds) = c ∷ d ∷ ds

  unfoldable pub drop_end : List Char → List Char
  drop_end [] = []
  drop_end (c ∷ cs) = end_onto c (drop_end cs)

abbrev pub is_space : Char → Bool
is_space c = is_whitespace (code c)

-- `str::trim`.
unfoldable pub trim : String → String
unfolding drop_start drop_end is_whitespace
trim s = of_chars (drop_end is_space (drop_start is_space (chars s)))

-- `str::strip_prefix` over the characters.
unfoldable pub strip_prefix : List Char → List Char → Option (List Char)
strip_prefix [] cs = some cs
strip_prefix (p ∷ ps) [] = none
strip_prefix (p ∷ ps) (c ∷ cs) = if code p == code c then strip_prefix ps cs else none

-- `[String]::join`.
abbrev pub join : String → List String → String
join sep [] = ""
join sep (s ∷ []) = s
join sep (s ∷ t ∷ ts) = concat (s ∷ sep ∷ join sep (t ∷ ts) ∷ [])
