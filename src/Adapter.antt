-- ===== src/Adapter.antt =====
-- crates/service-eventlog/src/lib.rs: how the ports of the plan engine stand on the event log
-- (`recorded_intent`, `VerifiedAuthority`).
pub mod Recorded
pub mod Authority
pub mod Store
pub mod Reads
pub mod Events
pub mod Layout
pub mod Projector
pub mod Pages
pub mod Projections
pub mod Content
pub mod Service
use Prim.Native.String.{◌++◌}
use service_sdk.Base.{
  ℕ, suc, ◌+◌, ◌-◌, ◌^◌, String, Bool, true, false, Option, none, some, List, [], ◌∷◌, not, ◌&&◌,
  ◌||◌, ◌==◌, eqb, ltb, length, all, head?, is_empty, option_eq, bind_option, if◌then◌else◌,
}
use service_sdk.Base.Maps.{Map, get, contains}
use service_sdk.Base.Result.{Result, ok, err, ok_or, map_err, ◌>>=◌, ◌>>◌}
use service_sdk.Runtime.Auth.{VerifiedAuthContext}
use service_sdk.Codec.{decode_stream_id}
use service_sdk.Engine.{DomainEvent, Json}
use service_sdk.Engine.Ports.{
  ResourceError, refused, ServiceStream, IntentClaimRequest, RecordedIntent, AuthorityCheck,
  owner_and_scopes, requested_scopes, owner_transfer, capability,
}

-- `eventlog_core::RecordedEvent`: what the adapter reads of it. `occurred_at` is a place on the time
-- line.
pub record RecordedEvent (V : Type 0) : Type 0 where
  pub tenant : String
  pub stream_type : String
  pub stream_id : String
  pub version : ℕ
  pub schema_version : ℕ
  pub is_redacted : Bool
  pub name : String
  pub body : V
  pub event_id : String
  pub occurred_at : ℕ
  pub subject : String
  pub actor : String

unfoldable pub stream_type_of : String → String
stream_type_of service = "generated-service:" ++ service

-- `last.checked_sub(first).and_then(|distance| distance.checked_add(1))`
unfoldable pub counted : ℕ → ℕ → Option ℕ
counted first last =
    if ltb last first
    then none
    else if eqb (last - first) (2 ^ 64 - 1)
    then none
    else some (last - first + 1)

-- `claim.stream_key.as_ref().is_some_and(|expected| expected != &key)`
abbrev pub other_key : Option String → String → Bool
other_key none key = false
other_key (some expected) key = not (expected == key)

-- `max_events` stands for `eventlog_core::MAX_EVENTS_PER_APPEND`.
module _ {V : Type 0} (json : Json V) (max_events : ℕ) where
  unfoldable pub misplaced :
      IntentClaimRequest
      → List (RecordedEvent V)
      → ℕ
      → ℕ
      → RecordedEvent V
      → Option String
      → String
      → String
      → Bool
  misplaced claim events first count first_event realm category key =
      eqb first 0
      || ltb max_events (length events)
      || not (eqb count (length events))
      || not (first_event.tenant == claim.tenant)
      || not (first_event.stream_type == stream_type_of claim.service)
      || not (option_eq realm claim.realm)
      || not (category == claim.category)
      || other_key claim.stream_key key

  unfoldable pub foreign : RecordedEvent V → ℕ → RecordedEvent V → Bool
  foreign first_event version event =
      event.is_redacted
      || not (eqb event.schema_version 1)
      || not (eqb event.version version)
      || not (event.tenant == first_event.tenant)
      || not (event.stream_type == first_event.stream_type)
      || not (event.stream_id == first_event.stream_id)

  -- The loop over the recorded events, from the version of the next one.
  unfoldable pub domain_events :
      RecordedEvent V → ℕ → List (RecordedEvent V) → Result ResourceError (List (DomainEvent V))
  domain_events first_event version [] = ok []
  domain_events first_event version (event ∷ events) = do
    if foreign first_event version event then err refused else ok tt
    fields ← ok_or (json.as_object event.body) refused
    rest ← domain_events first_event (version + 1) events
    ok (record { name = event.name; fields = fields } ∷ rest)

  unfoldable pub recorded_intent :
      IntentClaimRequest → List (RecordedEvent V) → ℕ → ℕ → Result ResourceError (RecordedIntent V)
  recorded_intent claim events first last = do
    first_event ← ok_or (head? events) refused
    identity ← map_err (λ _. refused) (decode_stream_id first_event.stream_id)
    count ← ok_or (counted first last) refused
    if misplaced claim events first count first_event identity.0 identity.1 identity.2
        then err refused
        else ok tt
    decided ← domain_events first_event first events
    ok (record {
      stream = record {
        service = claim.service;
        tenant = claim.tenant;
        realm = identity.0;
        category = identity.1;
        key = identity.2;
      };
      events = decided;
      through_version = last;
    })

pub record AuthorityFacts : Type 0 where
  pub principals : List String
  pub teams : List String
  pub projects : List String
  pub extensions : List String
  pub capabilities : List String

-- `is_some_and(|value| facts.contains(value))`
abbrev pub known : List String → Option String → Bool
known facts none = false
known facts (some value) = contains value facts

-- `kind.zip(value).is_some_and(|(kind, value)| ..)`
abbrev pub known_extension : List String → Option String → Option String → Bool
known_extension facts (some kind) (some value) = contains (kind ++ (":" ++ value)) facts
known_extension facts _ _ = false

module _ {V : Type 0} (json : Json V) (facts : AuthorityFacts) where
  abbrev pub extension_allowed : Option (Map V) → Bool
  extension_allowed none = false
  extension_allowed (some extension) =
      known_extension facts.extensions (bind_option (get "kind" extension) (λ v. json.as_str v))
        (bind_option (get "value" extension) (λ v. json.as_str v))

  -- The arms of the match on an axis.
  unfoldable pub axis_allowed : String × V → Bool
  axis_allowed (axis, value) =
      if contains axis ("principal" ∷ "team" ∷ "project" ∷ "extension" ∷ []) && json.is_null value
      then true
      else if axis == "principal"
      then known facts.principals (json.as_str value)
      else if axis == "team"
      then known facts.teams (json.as_str value)
      else if axis == "project"
      then known facts.projects (json.as_str value)
      else if axis == "extension"
      then extension_allowed (json.as_object value)
      else false

  abbrev pub all_axes : Option (Map V) → Bool
  all_axes none = false
  all_axes (some scopes) = all axis_allowed scopes

  unfoldable pub scopes_allowed : V → Bool
  scopes_allowed scopes = all_axes (json.as_object scopes)

  unfoldable pub verified_allows : VerifiedAuthContext → AuthorityCheck V → Bool
  verified_allows context (owner_and_scopes owner scopes) =
      option_eq (json.as_str owner) (some context.authority) && scopes_allowed scopes
  verified_allows context (requested_scopes scopes) = scopes_allowed scopes
  verified_allows context (owner_transfer new_owner) =
      known facts.principals (json.as_str new_owner)
  verified_allows context (capability name) = contains name facts.capabilities
