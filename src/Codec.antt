-- ===== src/Codec.antt =====
-- crates/service-eventlog/src/lib.rs: the identities under which streams and cursors are stored.
pub mod StreamId
pub mod Cursor
use Prim.Native.String.{len, ◌++◌, ◌∷◌}
use mathlib.Core.List.{List, [], ◌∷◌}
use service_sdk.Base.{
  ℕ, String, Bool, true, false, Option, none, some, ◌≡◌, refl, not, ◌||◌, ◌==◌, eqb, if◌then◌else◌,
}
use service_sdk.Base.Decimal.{decimal, parse_u64}
use service_sdk.Base.Bytes.{Bytes, as_bytes}
use service_sdk.Base.Bytes.Digest.{digest}
use service_sdk.Base.Text.{split_once, strip_prefix}
use service_sdk.Base.Result.{Result, ok, err, ok_or, ◌>>=◌}

-- The `EventLogError::Invalid` messages of the decoder.
pub data DecodeError : Type 0 where
  invalid_identity invalid_realm : DecodeError

unfoldable pub encode_realm : Option String → String
encode_realm none = "0:"
encode_realm (some realm) = "1:" ++ (decimal (len realm) ++ (":" ∷ realm))

abbrev pub framed : String → String
framed value = decimal (len value) ++ (":" ∷ value)

-- `{realm}|{}:{category}|{}:{key}`
unfoldable pub encode_stream_id : Option String → String → String → String
unfolding encode_realm
encode_stream_id realm category key =
    encode_realm realm ++ ("|" ∷ (framed category ++ ("|" ∷ framed key)))

-- The part behind a length, if the length is right and the part is not empty.
checked : DecodeError → String × String → Result DecodeError String
checked e (length, value) = do
  count ← ok_or (parse_u64 length) e
  if not (eqb (len value) count) || value == "" then err e else ok value

unfoldable pub decode_framed : String → Result DecodeError String
unfolding checked
decode_framed value = do
  parts ← ok_or (split_once b':' value) invalid_identity
  checked invalid_identity parts

decode_realm : String → Result DecodeError (Option String)
decode_realm realm = if realm == "0:" then ok none else do
  encoded ← ok_or (strip_prefix "1:" realm) invalid_realm
  parts ← ok_or (split_once b':' encoded) invalid_realm
  name ← checked invalid_realm parts
  ok (some name)

unfoldable pub decode_stream_id : String → Result DecodeError (Option String × String × String)
unfolding decode_realm checked
decode_stream_id value = do
  parts ← ok_or (split_once b'|' value) invalid_identity
  realm ← decode_realm parts.0
  pair ← ok_or (split_once b'|' parts.1) invalid_identity
  category ← decode_framed pair.0
  key ← decode_framed pair.1
  ok (realm, category, key)

-- `EventPageError::Cursor`
pub data CursorError : Type 0 where
  stale_cursor : CursorError

unfoldable pub encode_event_cursor : String → ℕ → String
encode_event_cursor identity position =
    "service-event-cursor/1:" ++ (identity ++ (":" ∷ decimal position))

unfoldable pub decode_event_cursor : String → String → Result CursorError ℕ
decode_event_cursor cursor expected_identity = do
  encoded ← ok_or (strip_prefix "service-event-cursor/1:" cursor) stale_cursor
  parts ← ok_or (split_once b':' encoded) stale_cursor
  if not (parts.0 == expected_identity)
      then err stale_cursor
      else ok_or (parse_u64 parts.1) stale_cursor

stream_id_tests :
    (encode_stream_id none "task" "a|b" ≡ "0:|4:task|3:a|b")
    × (decode_stream_id "0:|4:task|3:a|b" ≡ ok (none, "task", "a|b"))
    × (decode_stream_id "1:3:a|b|4:task|1:k" ≡ err invalid_realm)
unfolding encode_stream_id decode_stream_id decode_framed decimal parse_u64 split_once
stream_id_tests = (refl, refl, refl)

-- The identity of a stream in the event log.
pub record DurableStream : Type 0 where
  pub tenant : String
  pub stream_type : String
  pub stream_id : String

abbrev pub feed_parts : String → DurableStream → List Bytes
feed_parts store_identity stream =
    as_bytes "service-event-feed/1"
    ∷ as_bytes store_identity
    ∷ as_bytes stream.tenant
    ∷ as_bytes stream.stream_type
    ∷ as_bytes stream.stream_id
    ∷ []

-- SHA-256 is a parameter.
unfoldable pub feed_identity : (Bytes → Bytes) → String → DurableStream → String
feed_identity sha256 store_identity stream = digest sha256 (feed_parts store_identity stream)
