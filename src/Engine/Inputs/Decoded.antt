-- ===== src/Engine/Inputs/Decoded.antt =====
-- Which bodies an operation accepts: crates/service-engine/src/lib.rs, `decode_inputs` and
-- `content_payload`.
use service_sdk.Base.{
  String, true, ◌≡◌, ◌↔◌, refl, subst, Option, some, List, [], ◌∷◌, not, ◌||◌, find?, All, arith,
  Bool-cases, inl, inr,
}
use service_sdk.Base.Bytes.{Bytes}
use service_sdk.Base.Maps.{Map, keys, contains, contains_key}
use service_sdk.Base.Result.{ok, ok_or, >>=-eq-ok, ok_or-eq-ok}
use service_sdk.Engine.{Json, decode, expected_object}
use service_sdk.Engine.Plans.{InputPlan}
use service_sdk.Engine.Inputs.{names, refuse_unknown, require_inputs, decode_inputs}

module _ {V : Type 0} (json : Json V) (from_slice : Bytes → Option V) where
  known :
      (allowed : List String) (ks : List String)
      → (refuse_unknown (find? (λ name. not (contains name allowed)) ks) ≡ ok tt)
        ↔ All (λ name. contains name allowed ≡ true) ks
  known allowed [] = (λ h. tt, λ h. refl)
  known allowed (k ∷ ks) = elim (Bool-cases (contains k allowed)) [
    | inl p ↦ (
      λ h. (p, (known allowed ks).0 (ground arith)),
      λ h. (let rest = (known allowed ks).1 h.1 in ground arith),
    )
    | inr p ↦ (λ h. absurd (ground arith), λ h. absurd (ground arith))
  ]

  present :
      (plan : List InputPlan) (object : Map V)
      → (require_inputs plan object ≡ ok tt)
        ↔ All (λ input. (input.is_optional || contains_key input.name object) ≡ true) plan
  unfolding require_inputs
  present [] object = (λ h. tt, λ h. refl)
  present (input ∷ plan) object =
      elim (Bool-cases (input.is_optional || contains_key input.name object)) [
        | inl p ↦ rw p (λ h. (refl, (present plan object).0 h), λ h. (present plan object).1 h.1)
        | inr p ↦ rw p (λ h. absurd (ground arith), λ h. absurd (ground arith))
      ]

  -- A body is decoded exactly when it is the JSON text of an object, each name in the object is
  -- that of a declared input, and each input that is not optional is in the object; the result is
  -- the object.
  pub decode_inputs_iff :
      (plan : List InputPlan) (body : Bytes) (object : Map V)
      → (decode_inputs json from_slice plan body ≡ ok object) ↔ (
          (value : V) × (from_slice body ≡ some value)
          × (json.as_object value ≡ some object)
          × All (λ name. contains name (names plan) ≡ true) (keys object)
          × All (λ input. (input.is_optional || contains_key input.name object) ≡ true) plan)
  unfolding decode_inputs
  decode_inputs_iff plan body object = (forth, back)
    where
      forth :
          decode_inputs json from_slice plan body ≡ ok object
          → (value : V) × (from_slice body ≡ some value)
            × (json.as_object value ≡ some object)
            × All (λ name. contains name (names plan) ≡ true) (keys object)
            × All (λ input. (input.is_optional || contains_key input.name object) ≡ true) plan
      forth h =
          let (value, h1, k1) = >>=-eq-ok (ok_or (from_slice body) decode) _ h in
          let (found, h2, k2) = >>=-eq-ok (ok_or (json.as_object value) expected_object) _ k1 in
          let (_, h3, k3) =
            >>=-eq-ok
              (refuse_unknown (find? (λ name. not (contains name (names plan))) (keys found))) _
              k2 in
          let (_, h4, k4) = >>=-eq-ok (require_inputs plan found) _ k3 in
          let same : found ≡ object = ground arith in
          (
            value,
            ok_or-eq-ok (from_slice body) decode h1,
            rw (ok_or-eq-ok (json.as_object value) expected_object h2, same) refl,
            subst (λ o. All (λ name. contains name (names plan) ≡ true) (keys o)) same
                ((known (names plan) (keys found)).0 h3),
            subst (λ o. All (λ input. (input.is_optional || contains_key input.name o) ≡ true) plan)
                same ((present plan found).0 h4),
          )

      back :
          (value : V) × (from_slice body ≡ some value)
            × (json.as_object value ≡ some object)
            × All (λ name. contains name (names plan) ≡ true) (keys object)
            × All (λ input. (input.is_optional || contains_key input.name object) ≡ true) plan
          → decode_inputs json from_slice plan body ≡ ok object
      back (value, h1, h2, h3, h4) =
          rw (h1, h2, (known (names plan) (keys object)).1 h3, (present plan object).1 h4) refl
