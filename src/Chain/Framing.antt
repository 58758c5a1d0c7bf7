-- ===== src/Chain/Framing.antt =====
-- What the hashed text tells of an event (audit/src/hash.rs).
use Prim.Native.String.{◌++◌ as append}
use text.Mathlib.TextLemmas.{append-nil, append_assoc}
use riscdom.Prelude.{String, ap, sym, ◌∙◌, ◌≡◌}
use riscdom.Prelude.Int.{InI64, ℤ}
use riscdom.Prelude.Text.{show_i64}
use riscdom.Prelude.Decimal.{NoBar, NoBar-show_i64, show_i64-injective, split_bar}
use riscdom.Chain.{compute_hash, preimage}

-- Two events whose previous hash, actor and action hold no vertical bar, and whose times fit an
-- `i64`, are hashed from one text only if they agree in all five: previous hash, time, actor,
-- action and detail.
pub preimage-injective :
    (p q : String) (s t : ℤ) (actor actor' action action' detail detail' : String)
    → NoBar p
    → NoBar q
    → InI64 s
    → InI64 t
    → NoBar actor
    → NoBar actor'
    → NoBar action
    → NoBar action'
    → preimage p s actor action detail ≡ preimage q t actor' action' detail'
    → (p ≡ q) × (s ≡ t) × (actor ≡ actor') × (action ≡ action') × (detail ≡ detail')
unfolding preimage
preimage-injective p q s t actor actor' action action' detail detail' hp hq hs ht ha ha' hc hc' e =
    let (e₀, r₀) = split_bar p q _ _ hp hq e in
    let (e₁, r₁) =
      split_bar (show_i64 s) (show_i64 t) _ _ (NoBar-show_i64 s) (NoBar-show_i64 t) r₀ in
    let (e₂, r₂) = split_bar actor actor' _ _ ha ha' r₁ in
    let (e₃, r₃) = split_bar action action' _ _ hc hc' r₂ in
    let same_detail : detail ≡ detail' = sym (append-nil detail) ∙ r₃ ∙ append-nil detail' in
    (e₀, show_i64-injective s t hs ht e₁, e₂, e₃, same_detail)

-- The bars frame the text only where the actor has none: with a bar in it, what stands behind the
-- bar can as well be the beginning of the action, and the two events have one hash.
pub compute_hash_ambiguous :
    (sha256_hex : String → String) (prev : String) (ts : ℤ) (a b c detail : String)
    → compute_hash sha256_hex prev ts (append a (append "|" b)) c detail
      ≡ compute_hash sha256_hex prev ts a (append b (append "|" c)) detail
unfolding compute_hash
compute_hash_ambiguous sha256_hex prev ts a b c detail =
    ap (λ t. sha256_hex (append prev (append "|" (append (show_i64 ts) (append "|" t)))))
      (simp append_assoc)
