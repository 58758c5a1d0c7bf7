-- ===== src/Agent/Text.antt =====
-- `truncate` of agent/src/agent.rs: a text is cut before its first character that does not end within
-- so many bytes, with a note of the bytes that it had.
use Prim.Native.Char.{Char, code}
use riscdom.Prelude.{List, String, [], if◌then◌else◌, leb, length, ℕ, ◌-◌, ◌∷◌}
use riscdom.Prelude.Text.{chars, concat, of_chars, show_nat}
use riscdom.Prelude.Utf8.{as_bytes, encode_utf8}

unfoldable pub byte_length : String → ℕ
byte_length s = length (as_bytes s)

-- `&s[..end]` for the greatest `end` up to `max` that is a boundary of a character.
unfoldable pub cut : ℕ → List Char → List Char
cut max [] = []
cut max (c ∷ cs) =
    let width = length (encode_utf8 (code c)) in
    if leb width max then c ∷ cut (max - width) cs else []

unfoldable pub truncate : String → ℕ → String
unfolding byte_length cut
truncate s max =
    if leb (byte_length s) max
    then s
    else concat
        (of_chars (cut max (chars s)) ∷ "…[truncated " ∷ show_nat (byte_length s) ∷ " bytes]" ∷ [])
