-- ===== src/Runtime/Content.antt =====
-- crates/service-runtime/src/content.rs: validated content metadata and the requests of the content
-- lifecycle.
pub mod Metadata
use Prim.Native.String
use Prim.Native.String.{len}
use service_sdk.Base.{
  ℕ, String, Bool, true, false, Option, none, some, not, ◌&&◌, ◌||◌, eqb, if◌then◌else◌,
}
use service_sdk.Base.Bytes.{Bytes}
use service_sdk.Base.Text.{is_blank, is_white, split_once, strip_prefix}
use service_sdk.Base.Result.{Result, ok, err, ok_or, ◌>>=◌}
use service_sdk.Base.Action.{Action}
use service_sdk.Runtime.Auth.{VerifiedAuthContext}
use service_sdk.Effect.Plan.{all_hex}

pub data ContentMetadataError : Type 0 where
  empty_content_id : ContentMetadataError
  invalid_media_type invalid_sha256_digest : String → ContentMetadataError

-- `ContentId::new`
unfoldable pub content_id : String → Result ContentMetadataError String
content_id value = if is_blank value then err empty_content_id else ok value

-- `s.chars().any(char::is_whitespace)`
unfoldable pub has_white : String → Bool
unfolding is_white
has_white String.[] = false
has_white (String.◌∷◌ c s) = is_white c || has_white s

-- `split_once('/').unwrap_or_default()`
abbrev pub or_empty_parts : Option (String × String) → String × String
or_empty_parts none = ("", "")
or_empty_parts (some parts) = parts

-- `subtype.contains('/')`
abbrev pub has_slash : Option (String × String) → Bool
has_slash none = false
has_slash (some parts) = true

-- `MediaType::new`
unfoldable pub media_type : String → Result ContentMetadataError String
media_type value =
    let (top_level, subtype) = or_empty_parts (split_once b'/' value) in
    if is_blank top_level
      || is_blank subtype
      || has_white top_level
      || has_white subtype
      || has_slash (split_once b'/' subtype)
    then err (invalid_media_type value)
    else ok value

-- `ContentDigest::sha256`
unfoldable pub content_sha256 : String → Result ContentMetadataError String
content_sha256 value = ok_or (strip_prefix "sha256:" value) (invalid_sha256_digest value) >>= λ hex.
    if not (eqb (len hex) 64) || not (all_hex hex)
    then err (invalid_sha256_digest value)
    else ok value

-- `StagedContent`
pub record StagedObject : Type 0 where
  pub reference : String
  pub media_type : String
  pub digest : String
  pub size_bytes : ℕ

-- `StagedContent::after_staging`
unfoldable pub after_staging : String → String → String → ℕ → StagedObject
after_staging id media_type digest size_bytes = record {
  reference = id;
  media_type = media_type;
  digest = digest;
  size_bytes = size_bytes;
}

pub record ContentPayload : Type 0 where
  pub media_type : String
  pub bytes : Bytes

pub record ContentStageRequest : Type 0 where
  pub service : String
  pub context : VerifiedAuthContext
  pub idempotency_key : String
  pub payload : ContentPayload

pub record ContentAcceptRequest : Type 0 where
  pub service : String
  pub context : VerifiedAuthContext
  pub idempotency_key : String
  pub staged : StagedObject

pub data ContentAbandonReason : Type 0 where
  intent_refused append_failed : ContentAbandonReason

pub record ContentAbandonRequest : Type 0 where
  pub service : String
  pub context : VerifiedAuthContext
  pub idempotency_key : String
  pub staged : StagedObject
  pub reason : ContentAbandonReason

-- `ContentLifecycle`: code of an adapter.
pub record ContentLifecycle (W E : Type 0) : Type 0 where
  pub stage : ContentStageRequest → Action W E StagedObject
  pub accept : ContentAcceptRequest → Action W E (Unit {0})
  pub abandon : ContentAbandonRequest → Action W E (Unit {0})
