-- ===== src/Tests/JsonNumber.antt =====
-- The equality of JSON numbers on values: crates/service-engine/src/json_number.rs.
use Prim.Native.Nat.{ℕ}
use Prim.Native.String.{◌++◌}
use service_sdk.Base.Decimal.{decimal}
use service_sdk.Base.{true, false, ◌≡◌, refl, none, some, eqb}
use service_sdk.Engine.JsonNumber.{
  ℤ, pos, negsuc, Numbers, Value, number, array, object, nil, cons, end, member, json_equal,
  feature_independent_value, feature_independent_number, int_text,
}
use service_sdk.Engine.JsonNumber.Printed.{IsPrinted, print, print-feature_independent_value}

-- Authored tokens: whole numbers, and decimals with their digits behind the last that counts.
data Token : Type 0 where
  whole : ℤ → Token
  decimal_token : ℕ → ℕ → Token

abbrev tokens : Numbers Token ℕ
tokens = record {
  as_i64 = λ t. elim t [ whole i ↦ some i | decimal_token b z ↦ none ];
  as_u64 = λ t. elim t [
    | whole i ↦ elim i [ pos n ↦ some n | negsuc n ↦ none ]
    | decimal_token b z ↦ none
  ];
  as_f64 = λ t. elim t [ whole i ↦ none | decimal_token b z ↦ some b ];
  from_i64 = whole;
  from_u64 = λ n. whole (pos n);
  from_f64 = λ b. some (decimal_token b 0);
  to_string = λ t. elim t [ whole i ↦ int_text i | decimal_token b z ↦ decimal b ++ " tenths" ];
  is_finite = λ b. true;
  f64_eq = eqb;
}

tokens-IsPrinted : IsPrinted tokens
tokens-IsPrinted = record {
  text-from_i64 = λ v i h. refl;
  text-from_u64 = λ v n h. refl;
  from_f64-finite = λ b h. cc;
}

-- `{"amount": 12.50, "parts": [7]}` and `{"parts": [7], "amount": 12.5}`
abbrev authored : Value Token
authored = object (
    member "amount" (number (decimal_token 125 1))
      (member "parts" (array (cons (number (whole (pos 7))) nil)) end))

abbrev turned : Value Token
turned = object (
    member "parts" (array (cons (number (whole (pos 7))) nil))
      (member "amount" (number (decimal_token 125 0)) end))

equal : json_equal tokens authored turned ≡ true
unfolding json_equal
equal = refl

-- `7` and `7.0` differ.
kinds_differ : json_equal tokens (number (whole (pos 7))) (number (decimal_token 70 0)) ≡ false
unfolding json_equal
kinds_differ = refl

print-feature_independent_value_example :
    print tokens.to_string (feature_independent_value tokens authored)
    ≡ print (feature_independent_number tokens) authored
print-feature_independent_value_example =
    print-feature_independent_value tokens tokens-IsPrinted authored
