-- ===== src/Codec/Cursor.antt =====
-- Event cursors are bound to the log's incarnation and to one stream.
use Prim.Native.String.{◌++◌, ◌∷◌}
use service_sdk.Base.{
  ℕ, ◌<◌, String, ◌≡◌, refl, sym, ◌∙◌, ◌==◌, arith, eq_iff, inl, inr, ◌⊎◌, if◌then◌else◌,
}
use service_sdk.Base.Bytes.{Bytes, as_bytes}
use service_sdk.Base.Bytes.Framing.{Fits}
use service_sdk.Base.Bytes.Utf8.{as_bytes_inj}
use service_sdk.Base.Bytes.Hex.{IsBytes, hex-Free}
use service_sdk.Base.Bytes.Digest.{digest, digest_inj, Collision}
use service_sdk.Base.Decimal.{decimal, u64_limit}
use service_sdk.Base.Decimal.RoundTrip.{parse_u64-decimal}
use service_sdk.Base.Text.Split.{Free, split_once-append, strip_prefix-append}
use service_sdk.Base.Result.{ok, err}
use service_sdk.Codec.{
  stale_cursor, encode_event_cursor, decode_event_cursor, DurableStream, feed_parts, feed_identity,
}

-- A cursor of a u64 position and an identity without a colon reads back under its own identity, and
-- is refused under any other.
pub decode-encode_event_cursor :
    (identity expected : String) (position : ℕ)
    → Free b':' identity
    → position < u64_limit
    → decode_event_cursor (encode_event_cursor identity position) expected
      ≡ (if identity == expected then ok position else err stale_cursor)
unfolding decode_event_cursor encode_event_cursor
decode-encode_event_cursor identity expected position f h =
    rw
      (
        strip_prefix-append "service-event-cursor/1:" (identity ++ (":" ∷ decimal position)),
        split_once-append b':' ":" identity (decimal position) refl f,
      )
      (ground (arith, parse_u64-decimal position h))

accepted_test :
    (identity expected : String) (position found : ℕ)
    → (if identity == expected then ok position else err stale_cursor) ≡ ok found
    → (identity ≡ expected) × (position ≡ found)
accepted_test identity expected position found h = ground (arith, eq_iff identity expected)

module _ (sha256 : Bytes → Bytes) (octets : (b : Bytes) → IsBytes (sha256 b)) where
  pub feed_identity-Free :
      (store : String) (s : DurableStream) → Free b':' (feed_identity sha256 store s)
  unfolding feed_identity digest
  feed_identity-Free store s = hex-Free b':' _ (omega arith) (omega arith) (octets _)

  -- If SHA-256 returns bytes, every hashed part is shorter than 2^64 and the position is a u64: a
  -- cursor of one stream of one log is accepted for a stream of a log only if the log and the
  -- stream (its tenant, type and identity) are the same, or else the two framed identities are
  -- different and have one SHA-256.
  pub cursor-bound :
      (store store' : String) (s s' : DurableStream) (position found : ℕ)
      → Fits (feed_parts store s)
      → Fits (feed_parts store' s')
      → position < u64_limit
      → decode_event_cursor
          (encode_event_cursor (feed_identity sha256 store s) position)
          (feed_identity sha256 store' s')
        ≡ ok found
      → ((store ≡ store') × (s ≡ s') × (position ≡ found))
        ⊎ Collision sha256 (feed_parts store s) (feed_parts store' s')
  unfolding feed_identity
  cursor-bound store store' s s' position found f f' h accepted =
      let read =
        sym (
          decode-encode_event_cursor (feed_identity sha256 store s) (feed_identity sha256 store' s')
            position (feed_identity-Free store s) h)
        ∙ accepted in
      let (same, there) =
        accepted_test (feed_identity sha256 store s) (feed_identity sha256 store' s') position found
          read in
      elim (digest_inj sha256 octets _ _ f f' same) [
        | inr collision ↦ inr collision
        | inl parts ↦
            let stores : as_bytes store ≡ as_bytes store' = cc in
            let tenants : as_bytes s.tenant ≡ as_bytes s'.tenant = cc in
            let types : as_bytes s.stream_type ≡ as_bytes s'.stream_type = cc in
            let ids : as_bytes s.stream_id ≡ as_bytes s'.stream_id = cc in
            inl (
              as_bytes_inj _ _ stores,
              ground
                  (arith, as_bytes_inj _ _ tenants, as_bytes_inj _ _ types, as_bytes_inj _ _ ids),
              there,
            )
      ]
