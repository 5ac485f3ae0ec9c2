-- ===== src/Engine/JsonNumber.antt =====
-- crates/service-engine/src/json_number.rs: the equality of JSON values and their rewriting, as a
-- build of serde_json without `arbitrary_precision` decides them.
pub mod Rewritten
pub mod Printed
use Prim.Native.Nat.{suc}
use Prim.Native.String
use service_sdk.Base.{
  ℕ, String, Bool, true, false, Option, none, some, ◌&&◌, ◌==◌, eqb, is_some, bind_option,
  if◌then◌else◌,
}
use service_sdk.Base.Decimal.{decimal}

pub data ℤ : Type 0 where
  pos negsuc : ℕ → ℤ

-- `serde_json::Number` and `f64`: what the code uses of them.
pub record Numbers (N F : Type 0) : Type 0 where
  pub as_i64 : N → Option ℤ
  pub as_u64 : N → Option ℕ
  pub as_f64 : N → Option F
  pub from_i64 : ℤ → N
  pub from_u64 : ℕ → N
  pub from_f64 : F → Option N
  pub to_string : N → String
  pub is_finite : F → Bool
  pub f64_eq : F → F → Bool

-- `serde_json::Value`, an object as the list of its members.
mutual
  pub data Value (N : Type 0) : Type 0 where
    null : Value N
    boolean : Bool → Value N
    number : N → Value N
    text : String → Value N
    array : Items N → Value N
    object : Members N → Value N

  pub data Items (N : Type 0) : Type 0 where
    nil : Items N
    cons : Value N → Items N → Items N

  pub data Members (N : Type 0) : Type 0 where
    end : Members N
    member : String → Value N → Members N → Members N

pub data FeatureIndependent (F : Type 0) : Type 0 where
  integer : ℤ → FeatureIndependent F
  binary : F → FeatureIndependent F
  unrepresentable : String → FeatureIndependent F

abbrev pub int_eq : ℤ → ℤ → Bool
int_eq (pos m) (pos n) = eqb m n
int_eq (negsuc m) (negsuc n) = eqb m n
int_eq _ _ = false

abbrev pub bool_eq : Bool → Bool → Bool
bool_eq true b = b
bool_eq false true = false
bool_eq false false = true

abbrev pub or_number : {N : Type 0} → N → Option N → N
or_number n none = n
or_number n (some m) = m

abbrev pub int_text : ℤ → String
int_text (pos n) = decimal n
int_text (negsuc n) = String.◌∷◌ "-" (decimal (suc n))

unfoldable pub count_items : {N : Type 0} → Items N → ℕ
count_items nil = 0
count_items (cons x xs) = suc (count_items xs)

unfoldable pub count_members : {N : Type 0} → Members N → ℕ
count_members end = 0
count_members (member k v ms) = suc (count_members ms)

-- `right.get(key)`
unfoldable pub get_member : {N : Type 0} → String → Members N → Option (Value N)
get_member k end = none
get_member k (member j v ms) = if j == k then some v else get_member k ms

-- `is_some_and`
abbrev pub is_some_and : {A : Type 0} → (A → Bool) → Option A → Bool
is_some_and f none = false
is_some_and f (some a) = f a

module _ {N F : Type 0} (ops : Numbers N F) where
  abbrev pub of_f64 : N → Option F → FeatureIndependent F
  of_f64 value none = unrepresentable (ops.to_string value)
  of_f64 value (some b) =
      if ops.is_finite b then binary b else unrepresentable (ops.to_string value)

  abbrev pub of_u64 : N → Option ℕ → FeatureIndependent F
  of_u64 value (some n) = integer (pos n)
  of_u64 value none = of_f64 value (ops.as_f64 value)

  abbrev pub of_i64 : N → Option ℤ → FeatureIndependent F
  of_i64 value (some i) = integer i
  of_i64 value none = of_u64 value (ops.as_u64 value)

  -- `FeatureIndependent::of`
  unfoldable pub of : N → FeatureIndependent F
  of value = of_i64 value (ops.as_i64 value)

  abbrev pub feature_eq : FeatureIndependent F → FeatureIndependent F → Bool
  feature_eq (integer i) (integer j) = int_eq i j
  feature_eq (binary b) (binary c) = ops.f64_eq b c
  feature_eq (unrepresentable s) (unrepresentable t) = s == t
  feature_eq _ _ = false

  unfoldable mutual
    unfolding of count_items count_members get_member

    pub json_equal : Value N → Value N → Bool
    json_equal (number m) (number n) = feature_eq (of m) (of n)
    json_equal (array xs) (array ys) = eqb (count_items xs) (count_items ys) && equal_items xs ys
    json_equal (object ms) (object ns) =
        eqb (count_members ms) (count_members ns) && equal_members ms ns
    json_equal null null = true
    json_equal (boolean a) (boolean b) = bool_eq a b
    json_equal (text s) (text t) = s == t
    json_equal _ _ = false

    -- `left.iter().zip(right).all(...)`
    pub equal_items : Items N → Items N → Bool
    equal_items (cons x xs) (cons y ys) = json_equal x y && equal_items xs ys
    equal_items _ _ = true

    -- `left.iter().all(...)` over the members
    pub equal_members : Members N → Members N → Bool
    equal_members end ns = true
    equal_members (member k v ms) ns =
        is_some_and (json_equal v) (get_member k ns) && equal_members ms ns

  abbrev pub unsigned : Option ℕ → Option N
  unsigned none = none
  unsigned (some n) = some (ops.from_u64 n)

  abbrev pub integral : N → Option ℤ → Option N
  integral value (some i) = some (ops.from_i64 i)
  integral value none = unsigned (ops.as_u64 value)

  abbrev pub rewritten : N → FeatureIndependent F → N
  rewritten value (integer i) = or_number value (integral value (ops.as_i64 value))
  rewritten value (binary b) = or_number value (ops.from_f64 b)
  rewritten value (unrepresentable s) = value

  unfoldable mutual
    unfolding of

    pub feature_independent_value : Value N → Value N
    feature_independent_value null = null
    feature_independent_value (boolean b) = boolean b
    feature_independent_value (number n) = number (rewritten n (of n))
    feature_independent_value (text s) = text s
    feature_independent_value (array xs) = array (rewrite_items xs)
    feature_independent_value (object ms) = object (rewrite_members ms)

    pub rewrite_items : Items N → Items N
    rewrite_items nil = nil
    rewrite_items (cons x xs) = cons (feature_independent_value x) (rewrite_items xs)

    pub rewrite_members : Members N → Members N
    rewrite_members end = end
    rewrite_members (member k v ms) = member k (feature_independent_value v) (rewrite_members ms)

  abbrev pub float_text : N → Option N → String
  float_text value none = ops.to_string value
  float_text value (some n) = ops.to_string n

  abbrev pub unsigned_text : N → Option ℕ → String
  unsigned_text value (some n) = decimal n
  unsigned_text value none = float_text value (bind_option (ops.as_f64 value) ops.from_f64)

  abbrev pub integral_text : N → Option ℤ → String
  integral_text value (some i) = int_text i
  integral_text value none = unsigned_text value (ops.as_u64 value)

  unfoldable pub feature_independent_number : N → String
  feature_independent_number value = integral_text value (ops.as_i64 value)
