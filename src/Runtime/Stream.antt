-- ===== src/Runtime/Stream.antt =====
-- crates/service-runtime/src/eventlog.rs: stream identities, versions and guards.
pub mod PartitionKey
use Prim.Native.String.{len, ◌∷◌, ◌++◌}
use service_sdk.Base.{
  ℕ, ◌+◌, String, Bool, true, Option, none, some, ltb, eqb, ◌==◌, ◌&&◌, option_eq, if◌then◌else◌,
}
use service_sdk.Base.Decimal.{decimal, u64_limit}
use service_sdk.Base.Text.{is_blank}
use service_sdk.Base.Result.{Result, ok, err}

pub data InvalidStreamId : Type 0 where
  empty_category empty_key : InvalidStreamId

-- `None` and `Some("default")` are different realms.
pub record StreamId : Type 0 where
  pub service : String
  pub tenant : String
  pub realm : Option String
  pub category : String
  pub key : String

unfoldable pub new_stream :
    String → String → Option String → String → String → Result InvalidStreamId StreamId
new_stream service tenant realm category key =
    if is_blank category
    then err empty_category
    else if is_blank key
    then err empty_key
    else ok (record {
      service = service;
      tenant = tenant;
      realm = realm;
      category = category;
      key = key;
    })

-- Derived equality.
unfoldable pub stream_eq : StreamId → StreamId → Bool
stream_eq a b =
    a.service == b.service
    && (a.tenant == b.tenant
        && (option_eq a.realm b.realm && (a.category == b.category && a.key == b.key)))

-- `write!(output, "|{}:{value}", value.len())`
push_part : String → String → String
push_part output value = output ++ ("|" ∷ decimal (len value) ++ (":" ∷ value))

push_realm : String → Option String → String
unfolding push_part
push_realm output none = output ++ "|0"
push_realm output (some realm) = push_part (output ++ "|1") realm

unfoldable pub partition_key : StreamId → String
unfolding push_part push_realm
partition_key s =
    let output = push_part (push_part "service-stream/1" s.service) s.tenant in
    push_part (push_part (push_realm output s.realm) s.category) s.key

-- A `u64`; `0` means that the stream has no events.
abbrev pub StreamVersion : Type 0
StreamVersion = ℕ

unfoldable pub checked_next : StreamVersion → Option StreamVersion
checked_next v = if ltb (v + 1) u64_limit then some (v + 1) else none

pub data ExpectedVersion : Type 0 where
  no_stream : ExpectedVersion
  exact : StreamVersion → ExpectedVersion

unfoldable pub matches : ExpectedVersion → StreamVersion → Bool
matches no_stream actual = eqb actual 0
matches (exact expected) actual = eqb expected actual

unfoldable pub stream_version : ExpectedVersion → StreamVersion
stream_version no_stream = 0
stream_version (exact version) = version

-- `IdempotencyKey::new`, `EventId::new`, `ServiceId::new`: any text that is not blank
unfoldable pub non_blank : String → Option String
non_blank value = if is_blank value then none else some value
