-- ===== src/Adapter/Content.antt =====
-- crates/service-eventlog/src/lib.rs: `EventlogContent`, the content port of the engine.
use Prim.Native.String.{◌++◌}
use service_sdk.Base.{String, Option, none, some, List, [], ◌∷◌}
use service_sdk.Base.Bytes.{Bytes, as_bytes}
use service_sdk.Base.Bytes.Digest.{digest}
use service_sdk.Base.Result.{map_err}
use service_sdk.Base.Action.{Action, pure, lift, ◌>>=◌}
use service_sdk.Runtime.Auth.{VerifiedAuthContext}
use service_sdk.Engine.Ports.{ResourceError, refused, StagedContent, ContentPayload}
use service_sdk.Adapter.Store.{DurableEventStore, resource}

-- `realm().map_or(&[][..], |realm| realm.as_str().as_bytes())`
abbrev pub realm_bytes : Option String → Bytes
realm_bytes none = []
realm_bytes (some realm) = as_bytes realm

abbrev pub content_parts : VerifiedAuthContext → String → String → ContentPayload → List Bytes
content_parts context policy key payload =
    as_bytes "service-content/1"
    ∷ as_bytes context.tenant
    ∷ realm_bytes context.realm
    ∷ as_bytes policy
    ∷ as_bytes key
    ∷ as_bytes payload.media_type
    ∷ payload.bytes
    ∷ []

unfoldable pub content_digest :
    (Bytes → Bytes) → VerifiedAuthContext → String → String → ContentPayload → String
content_digest sha256 context policy key payload =
    "sha256:" ++ digest sha256 (content_parts context policy key payload)

-- `accept` and `abandon`: the digest is the same for a retry, so that no blob is taken back.
unfoldable pub settle_content :
    {W : Type 0} → VerifiedAuthContext → String → Action W ResourceError (Unit {0})
settle_content context token = pure tt

module _ {W V : Type 0} (sha256 : Bytes → Bytes) (store : DurableEventStore W V) where
  unfoldable pub stage :
      VerifiedAuthContext → String → String → ContentPayload → Action W ResourceError StagedContent
  stage context policy key payload = do
    tenant ← lift (map_err (λ e. refused) (store.new_tenant context.tenant))
    let name = content_digest sha256 context policy key payload
    stored ← resource (store.put_blob tenant name payload.bytes)
    pure (record { reference = "content:" ++ name; token = name })
