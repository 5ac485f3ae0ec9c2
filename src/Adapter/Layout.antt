-- ===== src/Adapter/Layout.antt =====
-- crates/service-eventlog/src/lib.rs: the names of a service's projections (`ProjectionLayout`) and
-- the keys of its rows.
use Prim.Native.String.{◌++◌, len, slice}
use text.Mathlib.TextPositions.{len-append}
use service_sdk.Base.{◌≡◌, ◌≢◌, ap, refl, String, Option, none, some, arith}
use service_sdk.Base.Bytes.{Bytes, as_bytes}
use service_sdk.Base.Bytes.Hex.{hex}

pub record ProjectionLayout : Type 0 where
  pub projector_name : String
  pub state : String
  pub rows : String

-- `realm.unwrap_or("")`
abbrev pub realm_text : Option String → String
realm_text none = ""
realm_text (some realm) = realm

-- SHA-256 is a parameter.
module _ (sha256 : Bytes → Bytes) where
  unfoldable pub hex_digest : String → String
  hex_digest value = hex (sha256 (as_bytes value))

  -- `&hex_digest(service.as_bytes())[..24]`
  abbrev pub short_digest : String → String
  short_digest service = slice (hex_digest service) 0 24

  unfoldable pub for_service : String → ProjectionLayout
  for_service service = record {
    projector_name = "sdk_" ++ short_digest service;
    state = "sdk_" ++ (short_digest service ++ "_state");
    rows = "sdk_" ++ (short_digest service ++ "_rows");
  }

  unfoldable pub row_prefix : String → Option String → String → String
  row_prefix service realm view =
      hex_digest service
      ++ ("/" ++ (hex_digest (realm_text realm) ++ ("/" ++ (hex_digest view ++ "/"))))

  unfoldable pub row_key : String → Option String → String → String → String → String
  row_key service realm view stream entity =
      row_prefix service realm view ++ (hex_digest stream ++ ("-" ++ hex_digest entity))

  -- The two projections of a service are different ones.
  pub for_service-apart :
      (service : String) → (for_service service).state ≢ (for_service service).rows
  unfolding for_service
  for_service-apart service same =
      let id = short_digest service in
      omega (
        arith,
        ap len same,
        len-append "sdk_" (id ++ "_state"),
        len-append id "_state",
        len-append "sdk_" (id ++ "_rows"),
        len-append id "_rows",
        six,
        five,
      )
    where
      six : len "_state" ≡ 6
      six = refl

      five : len "_rows" ≡ 5
      five = refl
