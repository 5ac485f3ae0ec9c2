-- ===== src/Engine/JsonNumber/Printed.antt =====
-- The digits that rewriting leaves: crates/service-engine/src/json_number.rs,
-- `feature_independent_value` and `feature_independent_number`.
use service_sdk.Base.{
  ℕ, String, false, ◌≡◌, refl, ap, ◌∙◌, Option, none, some, Bool-cases, Option-cases, bind_option,
  inl, inr,
}
use service_sdk.Base.Decimal.{decimal}
use service_sdk.Engine.JsonNumber.{
  ℤ, Numbers, Value, Items, Members, null, boolean, number, text, array, object, nil, cons, end,
  member, of, of_f64, int_text, float_text, rewritten, feature_independent_value, rewrite_items,
  rewrite_members, feature_independent_number,
}

-- What serde_json documents of the text of a number: one made from an integer prints its digits,
-- and an `f64` that is not finite makes no number.
pub record IsPrinted {N F : Type 0} (ops : Numbers N F) : Type 0 where
  pub text-from_i64 :
      (v : N) (i : ℤ) → ops.as_i64 v ≡ some i → ops.to_string (ops.from_i64 i) ≡ int_text i
  pub text-from_u64 :
      (v : N) (n : ℕ) → ops.as_u64 v ≡ some n → ops.to_string (ops.from_u64 n) ≡ decimal n
  pub from_f64-finite : (b : F) → ops.is_finite b ≡ false → ops.from_f64 b ≡ none

-- A JSON value with each of its numbers printed.
unfoldable mutual
  pub print : {N : Type 0} → (N → String) → Value N → Value String
  print f null = null
  print f (boolean b) = boolean b
  print f (number n) = number (f n)
  print f (text s) = text s
  print f (array xs) = array (print_items f xs)
  print f (object ms) = object (print_members f ms)

  pub print_items : {N : Type 0} → (N → String) → Items N → Items String
  print_items f nil = nil
  print_items f (cons x xs) = cons (print f x) (print_items f xs)

  pub print_members : {N : Type 0} → (N → String) → Members N → Members String
  print_members f end = end
  print_members f (member k v ms) = member k (print f v) (print_members f ms)

module _ {N F : Type 0} (ops : Numbers N F) (laws : IsPrinted ops) where
  -- The rewritten number has the digits that are independent of the features.
  abbrev Same : N → Type 0
  Same n = ops.to_string (rewritten ops n (of ops n)) ≡ feature_independent_number ops n

  float-Same :
      (n : N) (o : Option F)
      → ops.to_string (rewritten ops n (of_f64 ops n o))
        ≡ float_text ops n (bind_option o ops.from_f64)
  float-Same n none = refl
  float-Same n (some b) = elim (Bool-cases (ops.is_finite b)) [
    | inr infinite ↦
        ap (λ c. ops.to_string (rewritten ops n (of_f64 ops n (some b)))) infinite
        ∙ rw (infinite, laws.from_f64-finite b infinite) refl
    | inl finite ↦ elim (Option-cases (ops.from_f64 b)) [
      | inl e ↦ rw (finite, e) refl
      | inr (m, e) ↦ rw (finite, e) refl
    ]
  ]

  number-Same : (n : N) → Same n
  unfolding of feature_independent_number
  number-Same n = elim (Option-cases (ops.as_i64 n)) [
    | inr (i, e) ↦ rw (e, e) (laws.text-from_i64 n i e)
    | inl no_i64 ↦ elim (Option-cases (ops.as_u64 n)) [
      | inr (m, e) ↦ rw (no_i64, e, no_i64, e) (laws.text-from_u64 n m e)
      | inl no_u64 ↦ rw (no_i64, no_u64) (float-Same n (ops.as_f64 n))
    ]
  ]

  mutual
    unfolding print feature_independent_value

    print-value :
        (v : Value N)
        → print ops.to_string (feature_independent_value ops v)
          ≡ print (feature_independent_number ops) v
    print-value null = refl
    print-value (boolean b) = refl
    print-value (number n) = ap number (number-Same n)
    print-value (text s) = refl
    print-value (array xs) = ap array (print-items xs)
    print-value (object ms) = ap object (print-members ms)

    print-items :
        (xs : Items N)
        → print_items ops.to_string (rewrite_items ops xs)
          ≡ print_items (feature_independent_number ops) xs
    print-items nil = refl
    print-items (cons x xs) = rw (print-value x, print-items xs) refl

    print-members :
        (ms : Members N)
        → print_members ops.to_string (rewrite_members ops ms)
          ≡ print_members (feature_independent_number ops) ms
    print-members end = refl
    print-members (member k v ms) = rw (print-value v, print-members ms) refl

  -- Over numbers that print as serde_json documents, rewriting a JSON value changes nothing but
  -- its numbers, and each of these, at any depth, then prints the digits that
  -- `feature_independent_number` gives for the authored one.
  pub print-feature_independent_value :
      (v : Value N)
      → print ops.to_string (feature_independent_value ops v)
        ≡ print (feature_independent_number ops) v
  print-feature_independent_value v = print-value v
