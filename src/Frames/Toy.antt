-- ===== src/Frames/Toy.antt =====
-- A small `serde_json::Value` of its own, for the tests, and the laws that it meets.
use riscdom.Prelude.{
  Bool, List, Option, String, [], arith, eq_iff, eq_refl, false, if◌then◌else◌, none, refl, some,
  str_eq, true, ℕ, ◌∷◌,
}
use riscdom.Prelude.Int.{ℤ}
use riscdom.Json.{Json, JsonLists, ObjectLaws}

mutual
  pub data Value : Type 0 where
    null : Value
    bit : Bool → Value
    num : ℕ → Value
    int : ℤ → Value
    str : String → Value
    texts : List String → Value
    obj : Fields → Value

  pub data Fields : Type 0 where
    end : Fields
    field : String → Value → Fields → Fields

unfoldable pub fields_of : List (String × Value) → Fields
fields_of [] = end
fields_of ((k, v) ∷ fs) = field k v (fields_of fs)

unfoldable pub field_get : Fields → String → Option Value
field_get end k = none
field_get (field j v fs) k = if str_eq j k then some v else field_get fs k

unfoldable pub field_remove : String → Fields → Fields
field_remove k end = end
field_remove k (field j v fs) = if str_eq j k then fs else field j v (field_remove k fs)

abbrev pub get : Value → String → Option Value
get (obj fs) k = field_get fs k
get v k = none

abbrev pub as_str : Value → Option String
as_str (str s) = some s
as_str v = none

abbrev pub as_u64 : Value → Option ℕ
as_u64 (num n) = some n
as_u64 v = none

abbrev pub as_i64 : Value → Option ℤ
as_i64 (int n) = some n
as_i64 v = none

abbrev pub as_bool : Value → Option Bool
as_bool (bit b) = some b
as_bool v = none

abbrev pub is_null : Value → Bool
is_null null = true
is_null v = false

abbrev pub is_object : Value → Bool
is_object (obj fs) = true
is_object v = false

abbrev pub as_texts : Value → Option (List String)
as_texts (texts ss) = some ss
as_texts v = none

abbrev pub remove : String → Value → Value
remove k (obj fs) = obj (field_remove k fs)
remove k v = v

-- Texts are compared, and nothing else is in what the tests use.
abbrev pub beq : Value → Value → Bool
beq (str s) (str t) = str_eq s t
beq (str s) v = false
beq v w = true

instance abbrev pub values : Json Value
values = record {
  get = get;
  as_str = as_str;
  as_u64 = as_u64;
  as_i64 = as_i64;
  as_bool = as_bool;
  is_null = is_null;
  object = λ fs. obj (fields_of fs);
  remove = remove;
  null = null;
  str = str;
  num = num;
  int = int;
  beq = beq;
  to_string = as_str;
  from_str = λ s. some (str s);
}

instance abbrev pub value_lists : JsonLists Value
value_lists = record { is_object = is_object; texts = texts; as_texts = as_texts }

pub value_laws : ObjectLaws values value_lists
unfolding fields_of field_get
value_laws = record {
  get_none = λ k. refl;
  get_here = λ k v fs e. rw eq_refl;
  get_there = λ j k v fs ne. ground (arith, eq_iff j k);
  as_str-str = λ s. refl;
  as_str-null = refl;
  is_null-null = refl;
  as_u64-num = λ n h. refl;
  as_i64-int = λ n h. refl;
  as_texts-texts = λ ss. refl;
}
