-- ===== src/Discovery/Keys.antt =====
-- Which entries have a key that can be used (net/src/peers.rs, net/src/discovery.rs).
use riscdom.Prelude.{
  List, Option, Option-cases, Result-cases, String, ap, arith, eq_iff, false, inl, inr, length,
  none, ok, refl, some, str_eq, sym, true, unwrap_or, ℕ, ◌==◌, ◌↔◌, ◌∙◌, ◌≡◌,
}
use riscdom.Json.{Json, JsonLists, get_str}
use riscdom.Peers.{KeyLibrary, PeerEntry, key_of_text, public_key_from_jwk, verifying_key}
use riscdom.Discovery.{Codec, announced_entry}

-- What is read of a key's text, and when.
key_of_text_iff :
    {Key : Type 0} (lib : KeyLibrary Key) (x : String) (key : Key)
    → (key_of_text lib x ≡ ok key) ↔ (
        (bytes : List ℕ) × (lib.decode x ≡ ok bytes)
        × (length bytes ≡ 32)
        × (lib.key_of_bytes bytes ≡ ok key))
unfolding key_of_text
key_of_text_iff lib x key = (
  λ h. elim (Result-cases (lib.decode x)) [
    | inl (bytes, d) ↦ elim (Result-cases (lib.key_of_bytes bytes)) [
      | inl (k, e) ↦
          let same : k ≡ key = ground (arith, h, d, e) in
          (bytes, d, ground (arith, h, d), e ∙ ap ok same)
      | inr (why, e) ↦ absurd (ground (arith, h, d, e))
    ]
    | inr (why, d) ↦ absurd (ground (arith, h, d))
  ],
  λ (bytes, d, long, e).
      let tested : (length bytes == 32) ≡ true = ground (arith, long) in
      rw (d, key_of_text) (rw tested (rw e refl)),
)

named_text :
    (o : Option String) (s : String)
    → str_eq (unwrap_or o "") s ≡ true
    → str_eq "" s ≡ false
    → o ≡ some s
named_text none s h n = cc
named_text (some t) s h n = ap some ((eq_iff t s).0 h)

module _ {V : Type 0} {Key : Type 0} ⦃json : Json V⦄ ⦃lists : JsonLists V⦄
    (lib : KeyLibrary Key) where
  -- The JWK is an object, of the type and the curve of an Ed25519 key, without a private half, and
  -- its `x` decodes to 32 bytes that are a key.
  abbrev pub IsUsable : V → Type 0
  IsUsable jwk =
      (lists.is_object jwk ≡ true)
      × (get_str jwk "kty" ≡ some "OKP")
      × (get_str jwk "crv" ≡ some "Ed25519")
      × (json.get jwk "d" ≡ none)
      × ((x : String) × (bytes : List ℕ) × (key : Key) × (get_str jwk "x" ≡ some x)
          × (lib.decode x ≡ ok bytes)
          × (length bytes ≡ 32)
          × (lib.key_of_bytes bytes ≡ ok key))

  verifying_key-IsUsable :
      (e : PeerEntry V) (key : Key) → verifying_key lib e ≡ ok key → IsUsable e.public_key
  unfolding verifying_key public_key_from_jwk
  verifying_key-IsUsable e key h = elim (Option-cases (get_str e.public_key "x")) [
    | inl no_text ↦ absurd (ground (arith, h, no_text))
    | inr (x, text) ↦
        let (bytes, decoded, long, made) =
          (key_of_text_iff lib x key).0 (ground (arith, h, text)) in
        (
          ground (arith, h),
          named_text (get_str e.public_key "kty") "OKP" (ground (arith, h)) refl,
          named_text (get_str e.public_key "crv") "Ed25519" (ground (arith, h)) refl,
          elim (Option-cases (json.get e.public_key "d")) [
            | inl none_there ↦ none_there
            | inr (d, private) ↦ absurd (ground (arith, h, private))
          ],
          (x, bytes, key, text, decoded, long, made),
        )
  ]

  IsUsable-verifying_key :
      (e : PeerEntry V) → IsUsable e.public_key → (key : Key) × (verifying_key lib e ≡ ok key)
  unfolding verifying_key public_key_from_jwk
  IsUsable-verifying_key e (object, kty, crv, no_d, (x, bytes, key, text, decoded, long, made)) = (
    key,
    rw object (
        rw kty (
          rw crv (rw no_d (rw text ((key_of_text_iff lib x key).1 (bytes, decoded, long, made)))))),
  )

  module _ (codec : Codec V) (body : V) where
    -- The announcement carries this entry, and its key can be used.
    abbrev pub Carries : PeerEntry V → Type 0
    Carries e =
        ((value : V) × (json.get body "entry" ≡ some value) × (codec.entry_of value ≡ ok e))
        × IsUsable e.public_key

    pub announced_entry_iff :
        (e : PeerEntry V) → (announced_entry codec lib body ≡ ok e) ↔ Carries e
    unfolding announced_entry
    announced_entry_iff e = (
      λ h. elim (Option-cases (json.get body "entry")) [
        | inl missing ↦ absurd (ground (arith, h, missing))
        | inr (value, found) ↦ elim (Result-cases (codec.entry_of value)) [
          | inl (d, read) ↦ elim (Result-cases (verifying_key lib d)) [
            | inl (key, usable) ↦
                let same : d ≡ e = ground (arith, h, found, read, usable) in
                (
                  (value, found, read ∙ ap ok same),
                  verifying_key-IsUsable e key (ap (verifying_key lib) (sym same) ∙ usable),
                )
            | inr (problem, bad) ↦ absurd (ground (arith, h, found, read, bad))
          ]
          | inr (why, unread) ↦ absurd (ground (arith, h, found, unread))
        ]
      ],
      λ ((value, found, read), good).
          let (key, usable) = IsUsable-verifying_key e good in
          rw (found, announced_entry) (rw read (rw usable refl)),
    )
