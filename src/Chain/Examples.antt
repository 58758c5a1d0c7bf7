-- ===== src/Chain/Examples.antt =====
-- Small chains, with an escaping of the bar in place of the digest (audit/src/hash.rs).
use Prim.Native.Char.{Char, code}
use Prim.Native.String.{◌∷◌ as cons, ◌++◌ as append}
use riscdom.Prelude.{
  Bool-cases, List, String, [], ap, arith, if◌then◌else◌, inl, inr, none, refl, ℕ, ◌==◌, ◌↔◌, ◌∷◌,
  ◌≡◌, ◌≢◌,
}
use riscdom.Prelude.Int.{negsuc, pos}
use riscdom.Prelude.Text.{codes, codes-append, codes-injective, concat, show_i64}
use riscdom.Prelude.Decimal.{NoBar}
use riscdom.Event.{RawRow}
use riscdom.Chain.{broken, compute_hash, genesis_prev_hash, intact, verify_chain}
use riscdom.Chain.Verify.{IsChain, verify_chain_iff}
use riscdom.Chain.Framing.{compute_hash_ambiguous, preimage-injective}
use riscdom.Chain.Tamper.{Agree, head_tells_rows}

-- A collision-free text function with no bar in its results.
escape : String → String
escape String.[] = ""
escape (String.◌∷◌ c s) =
    if code c == 124 then append "0" (escape s) else append "1" (cons c (escape s))

codes-escape :
    (c : Char) (s : String)
    → codes (escape (cons c s))
      ≡ (if code c == 124 then 48 ∷ codes (escape s) else 49 ∷ code c ∷ codes (escape s))
unfolding escape
codes-escape c s = elim (Bool-cases (code c == 124)) [
  | inl t ↦ rw t (codes-append "0" (escape s))
  | inr f ↦ rw f (codes-append "1" (cons c (escape s)))
]

escape_hex : (s : String) → NoBar (escape s)
unfolding escape
escape_hex String.[] = tt
escape_hex (String.◌∷◌ c s) = elim (Bool-cases (code c == 124)) [
  | inl t ↦ rw (t, codes-append "0" (escape s)) (omega arith, escape_hex s)
  | inr f ↦ rw (f, codes-append "1" (cons c (escape s))) (omega arith, (ground arith, escape_hex s))
]

codes-escape' : (s t : String) → codes (escape s) ≡ codes (escape t) → codes s ≡ codes t
codes-escape' String.[] String.[] e = refl
codes-escape' String.[] (String.◌∷◌ d t) e =
    absurd (unfold escape in ground (arith, codes-escape d t))
codes-escape' (String.◌∷◌ c s) String.[] e =
    absurd (unfold escape in ground (arith, codes-escape c s))
codes-escape' (String.◌∷◌ c s) (String.◌∷◌ d t) e =
    ground (arith, codes-escape c s, codes-escape d t, codes-escape' s t)

escape_free : (s t : String) → escape s ≡ escape t → s ≡ t
escape_free s t e = codes-injective s t (codes-escape' s t (ap codes e))

abbrev first : RawRow
first = record {
  id = pos 1;
  timestamp_ms = pos 1000;
  actor = "host";
  action = "run.start";
  detail_json = "{}";
  prev_hash = genesis_prev_hash;
  hash = compute_hash escape genesis_prev_hash (pos 1000) "host" "run.start" "{}";
  agent_id = none;
}

abbrev second : RawRow
second = record {
  id = pos 2;
  timestamp_ms = pos 1001;
  actor = "host";
  action = "run.end";
  detail_json = "{}";
  prev_hash = first.hash;
  hash = compute_hash escape first.hash (pos 1001) "host" "run.end" "{}";
  agent_id = none;
}

abbrev rows : List RawRow
rows = first ∷ second ∷ []

rows_intact : verify_chain escape rows ≡ intact 2
rows_intact = (verify_chain_iff escape rows 2).1 (((refl, refl), ((refl, refl), tt)), refl)

tampered : verify_chain escape (first ∷ record second { detail_json = "[]" } ∷ []) ≢ intact 2
unfolding verify_chain compute_hash escape show_i64
tampered e = absurd (ground arith)

decimal_sample : show_i64 (negsuc 9_223_372_036_854_775_807) ≡ "-9223372036854775808"
unfolding show_i64
decimal_sample = refl

verify_chain_iff_example :
    (verify_chain escape rows ≡ intact 2)
    ↔ (IsChain escape genesis_prev_hash rows × (◌≡◌ {A = ℕ} 2 2))
verify_chain_iff_example = verify_chain_iff escape rows 2

abbrev cut_off : List RawRow
cut_off = second ∷ []

cut_off_broken :
    verify_chain escape cut_off
    ≡ broken (pos 2) (
        concat ("prev_hash mismatch: expected " ∷ genesis_prev_hash ∷ ", found " ∷ first.hash ∷ []))
unfolding verify_chain compute_hash escape show_i64
cut_off_broken = refl

preimage-injective_example :
    (◌≡◌ {A = String} "00" "00")
    × (pos 5 ≡ pos 5)
    × (◌≡◌ {A = String} "host" "host")
    × (◌≡◌ {A = String} "run.end" "run.end")
    × (◌≡◌ {A = String} "{}" "{}")
preimage-injective_example =
    preimage-injective "00" "00" (pos 5) (pos 5) "host" "host" "run.end" "run.end" "{}" "{}"
      (omega arith) (omega arith) (omega arith) (omega arith) (omega arith) (omega arith)
      (omega arith) (omega arith) refl

compute_hash_ambiguous_example :
    compute_hash escape "00" (pos 5) "a|b" "c" "{}"
    ≡ compute_hash escape "00" (pos 5) "a" "b|c" "{}"
compute_hash_ambiguous_example = compute_hash_ambiguous escape "00" (pos 5) "a" "b" "c" "{}"

head_tells_rows_example : Agree rows rows
head_tells_rows_example =
    head_tells_rows escape escape_free escape_hex rows rows (omega arith) (omega arith) rows_intact
      rows_intact refl refl
