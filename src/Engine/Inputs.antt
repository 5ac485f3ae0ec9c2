-- ===== src/Engine/Inputs.antt =====
-- crates/service-engine/src/lib.rs: the inputs of an operation.
pub mod Decoded
use Prim.Native.String.{◌++◌}
use service_sdk.Base.{
  ℕ, String, Bool, true, false, Option, none, some, List, [], ◌∷◌, not, ◌||◌, eqb, ltb, length, map,
  bind_option, find?, if◌then◌else◌,
}
use service_sdk.Base.Text.{is_blank}
use service_sdk.Base.Bytes.{Bytes, as_bytes}
use service_sdk.Base.Maps.{Map, get, insert, keys, contains, contains_key}
use service_sdk.Base.Result.{Result, ok, err, ok_or, ◌>>=◌, ◌>>◌}
use service_sdk.Engine.{
  Json, ExecutionError, decode, expected_object, unknown_input, missing_input, invalid_input,
  invalid_plan,
}
use service_sdk.Engine.Ports.{AppendExpectation, no_stream, exact, RequestMetadata, ContentPayload}
use service_sdk.Engine.Plans.{
  ContentPolicyPlan, InputSource, command_input, InputPlan, ExpectedVersionPlan, new_stream_only,
  version_field, IdempotencyPlan, key_field, request_id_key,
}

abbrev pub names : List InputPlan → List String
names plan = map (λ input. input.name) plan

-- `object.keys().find(|name| !allowed.contains(name))`, and the error for it.
abbrev pub refuse_unknown : Option String → Result ExecutionError (Unit {0})
refuse_unknown none = ok tt
refuse_unknown (some name) = err (unknown_input name)

abbrev pub is_command : InputSource → Bool
is_command command_input = true
is_command _ = false

module _ {V : Type 0} where
  -- The loop that looks for the required inputs.
  unfoldable pub require_inputs : List InputPlan → Map V → Result ExecutionError (Unit {0})
  require_inputs [] object = ok tt
  require_inputs (input ∷ plan) object =
      let rest = require_inputs plan object in
      if input.is_optional || contains_key input.name object
      then rest
      else err (missing_input input.name)

  -- The inputs of the command; the collected map keeps the last value of a name.
  unfoldable pub command_inputs_into : List InputPlan → Map V → Map V → Map V
  command_inputs_into [] decoded out = out
  command_inputs_into (input ∷ plan) decoded out =
      let rest = command_inputs_into plan decoded in
      if is_command input.source
      then elim (get input.name decoded) [
        | none ↦ rest out
        | some value ↦ rest (insert input.name value out)
      ]
      else rest out

  abbrev pub command_inputs : List InputPlan → Map V → Map V
  command_inputs plan decoded = command_inputs_into plan decoded []

-- `from_slice` stands for `serde_json::from_slice`, third-party code.
module _ {V : Type 0} (json : Json V) (from_slice : Bytes → Option V) where
  unfoldable pub decode_inputs : List InputPlan → Bytes → Result ExecutionError (Map V)
  decode_inputs plan body = do
    value ← ok_or (from_slice body) decode
    object ← ok_or (json.as_object value) expected_object
    refuse_unknown (find? (λ name. not (contains name (names plan))) (keys object))
    require_inputs plan object
    ok object

module _ {V : Type 0} (json : Json V) where
  unfoldable pub expected_version :
      ExpectedVersionPlan → Map V → Result ExecutionError AppendExpectation
  expected_version new_stream_only decoded = ok no_stream
  expected_version (version_field field) decoded = do
    version ← ok_or (bind_option (get field decoded) (λ v. json.as_u64 v)) (invalid_input field)
    ok (exact version)

  unfoldable pub idempotency_value :
      IdempotencyPlan → Map V → RequestMetadata → Result ExecutionError String
  idempotency_value (key_field field) decoded metadata =
      ok_or (bind_option (get field decoded) (λ v. json.as_str v)) (invalid_input field)
  idempotency_value request_id_key decoded metadata =
      ok_or metadata.request_id (invalid_input "request_id")

  unfoldable pub idempotency :
      IdempotencyPlan → Map V → RequestMetadata → Result ExecutionError String
  idempotency plan decoded metadata = do
    value ← idempotency_value plan decoded metadata
    if is_blank value then err (invalid_input "idempotency_key") else ok value

  unfoldable pub content_payload :
      Map ContentPolicyPlan → String → String → V → Result ExecutionError ContentPayload
  content_payload content name input value = do
    policy ← ok_or (get name content) (invalid_plan ("content." ++ name))
    object ← ok_or (json.as_object value) (invalid_input input)
    if not (eqb (length object) 2)
          || not (contains_key "media_type" object)
          || not (contains_key "text" object)
        then err (invalid_input input)
        else ok tt
    media_type ←
        ok_or (bind_option (get "media_type" object) (λ v. json.as_str v)) (invalid_input input)
    text ← ok_or (bind_option (get "text" object) (λ v. json.as_str v)) (invalid_input input)
    if not (contains media_type policy.media_types) || ltb policy.max_bytes (length (as_bytes text))
        then err (invalid_input input)
        else ok (record { media_type = media_type; bytes = as_bytes text })
