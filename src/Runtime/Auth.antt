-- ===== src/Runtime/Auth.antt =====
-- crates/service-runtime/src/auth.rs: the verified context and the realm policy.
use service_sdk.Base.{ℕ, String, Option, none, some, if◌then◌else◌}
use service_sdk.Base.Text.{is_blank}
use service_sdk.Base.Result.{Result, ok, err}

pub record InvalidIdentity : Type 0 where
  pub kind : String

-- `new` of the identifier types of the macro `identity_type!`; `kind` is the macro's label.
pub identity : String → String → Result InvalidIdentity String
identity kind value = if is_blank value then err (record { kind = kind }) else ok value

pub record VerifiedExecution : Type 0 where
  pub agent : String
  pub attempt : String
  pub delegation : String
  pub grant : String
  pub grant_revision : ℕ

pub record VerifiedIdentity : Type 0 where
  pub tenant : String
  pub authority : String
  pub user : String
  pub executor : Option String
  pub realm : Option String
  pub execution : Option VerifiedExecution

pub after_verification : String → String → String → Option String → Option String → VerifiedIdentity
after_verification tenant authority user executor realm = record {
  tenant = tenant;
  authority = authority;
  user = user;
  executor = executor;
  realm = realm;
  execution = none;
}

-- A delegated call always names its executor.
pub after_verification_with_execution :
    String → String → String → String → Option String → VerifiedExecution → VerifiedIdentity
after_verification_with_execution tenant authority user executor realm execution = record {
  tenant = tenant;
  authority = authority;
  user = user;
  executor = some executor;
  realm = realm;
  execution = some execution;
}

-- `VerifiedAuthContext` wraps the identity, and its accessors are the fields.
abbrev pub VerifiedAuthContext : Type 0
VerifiedAuthContext = VerifiedIdentity

pub data RealmPolicy : Type 0 where
  required optional forbidden : RealmPolicy

pub data ContextPolicyViolation : Type 0 where
  realm_required : ContextPolicyViolation
  realm_forbidden : String → ContextPolicyViolation
  service_mismatch : String → String → ContextPolicyViolation
  tenant_mismatch : String → String → ContextPolicyViolation
  realm_mismatch : Option String → Option String → ContextPolicyViolation

admit_realm : RealmPolicy → Option String → Result ContextPolicyViolation (Unit {0})
admit_realm required none = err realm_required
admit_realm forbidden (some realm) = err (realm_forbidden realm)
admit_realm _ _ = ok tt

unfoldable pub enforce :
    RealmPolicy → VerifiedAuthContext → Result ContextPolicyViolation (Unit {0})
unfolding admit_realm
enforce policy context = admit_realm policy context.realm
