-- ===== src/Json.antt =====
-- What the crates use of `serde_json::Value`, which they take from a library: a parameter of every
-- definition that reads or builds one.
use riscdom.Prelude.{
  Bool, Bool-cases, List, Option, Option-cases, String, [], arith, eq_iff, inl, inr, is_some,
  lookup, none, not, some, str_eq, true, ℕ, ◌&&◌, ◌<◌, ◌^◌, ◌∙◌, ◌∷◌, ◌≡◌, ◌≢◌,
}
use riscdom.Prelude.Int.{InI64, ℤ}

pub record Json (V : Type 0) : Type 0 where
  pub get : V → String → Option V
  pub as_str : V → Option String
  pub as_u64 : V → Option ℕ
  pub as_i64 : V → Option ℤ
  pub as_bool : V → Option Bool
  pub is_null : V → Bool
  -- `Value::Object` of these members, and the same with a member taken away.
  pub object : List (String × V) → V
  pub remove : String → V → V
  pub null : V
  pub str : String → V
  pub num : ℕ → V
  pub int : ℤ → V
  -- `==`, `serde_json::to_string` and `serde_json::from_str`.
  pub beq : V → V → Bool
  pub to_string : V → Option String
  pub from_str : String → Option V

module _ {V : Type 0} ⦃json : Json V⦄ where
  -- `value.get(key).and_then(Value::as_str)`.
  abbrev pub get_str : V → String → Option String
  get_str value key = elim (json.get value key) [ none ↦ none | some v ↦ json.as_str v ]

  -- What `json!` makes of an optional text or number.
  abbrev pub opt_str : Option String → V
  opt_str none = json.null
  opt_str (some s) = json.str s

  abbrev pub opt_int : Option ℤ → V
  opt_int none = json.null
  opt_int (some n) = json.int n

-- What the net layer uses beside that: `Value::as_object`, and lists of texts, which `json!` writes
-- and `serde_json::from_value` reads.
pub record JsonLists (V : Type 0) : Type 0 where
  pub is_object : V → Bool
  pub texts : List String → V
  pub as_texts : V → Option (List String)

-- No two members have one name.
abbrev pub distinct {ℓ} : {V : Type ℓ} → List (String × V) → Bool
distinct [] = true
distinct ((k, v) ∷ fs) = not (is_some (lookup k fs)) && distinct fs

-- What the code relies on of objects: a member is found under its name, and the others do not hide it;
-- and what is written of a value is read back as it.
pub record ObjectLaws {V : Type 0} (json : Json V) (lists : JsonLists V) : Type 0 where
  pub get_none : (k : String) → json.get (json.object []) k ≡ none
  pub get_here :
      (k : String) (v : V) (fs : List (String × V))
      → lookup k fs ≡ none
      → json.get (json.object ((k, v) ∷ fs)) k ≡ some v
  pub get_there :
      (j k : String) (v : V) (fs : List (String × V))
      → j ≢ k
      → json.get (json.object ((j, v) ∷ fs)) k ≡ json.get (json.object fs) k
  pub as_str-str : (s : String) → json.as_str (json.str s) ≡ some s
  pub as_str-null : json.as_str json.null ≡ none
  pub is_null-null : json.is_null json.null ≡ true
  pub as_u64-num : (n : ℕ) → n < 2 ^ 64 → json.as_u64 (json.num n) ≡ some n
  pub as_i64-int : (n : ℤ) → InI64 n → json.as_i64 (json.int n) ≡ some n
  pub as_texts-texts : (ss : List String) → lists.as_texts (lists.texts ss) ≡ some ss

module _ {V : Type 0} (json : Json V) (lists : JsonLists V) (laws : ObjectLaws json lists) where
  -- In an object whose members have different names, each is found under its name.
  pub get-object :
      (k : String) (fs : List (String × V))
      → distinct fs ≡ true
      → json.get (json.object fs) k ≡ lookup k fs
  unfolding lookup
  get-object k [] h = laws.get_none k
  get-object k ((j, v) ∷ fs) h = elim (Bool-cases (str_eq j k)) [
    | inl same ↦
        let e : j ≡ k = (eq_iff j k).0 same in
        rw same (rw e (laws.get_here k v fs (rw (← e) (absent j fs v h))))
    | inr other ↦
        rw other (
          laws.get_there j k v fs (λ e. ground (arith, eq_iff j k))
          ∙ get-object k fs (ground arith))
  ]
    where
      absent :
          (k : String) (fs : List (String × V)) (v : V)
          → distinct ((k, v) ∷ fs) ≡ true
          → lookup k fs ≡ none
      absent k fs v h = elim (Option-cases (lookup k fs)) [
        | inl e ↦ e
        | inr (w, e) ↦ absurd (ground arith)
      ]
