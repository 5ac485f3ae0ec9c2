-- ===== src/Tests/Streams.antt =====
-- Stream identities, histories and cursors of crates/service-runtime/src/eventlog.rs and
-- crates/service-eventlog/src/lib.rs at concrete values.
use text.Mathlib.TextLemmas.{cons≢nil}
use service_sdk.Base.Text.Split.{Free}
use service_sdk.Base.{
  subst, ◌≢◌, ℕ, ◌+◌, ◌%◌, ◌<◌, String, ◌≡◌, refl, ◌↔◌, ◌⊎◌, some, [], ◌∷◌, All, map, arith,
}
use service_sdk.Base.Decimal.{u64_limit, decimal, parse_u64}
use service_sdk.Base.Bytes.{Bytes, as_bytes, frame, to_be_bytes}
use service_sdk.Base.Bytes.Framing.{Fits}
use service_sdk.Base.Text.{split_once}
use service_sdk.Base.Bytes.Hex.{IsBytes, hex}
use service_sdk.Base.Bytes.Digest.{Collision, digest}
use service_sdk.Base.Result.{ok, err}
use service_sdk.Runtime.Stream.{StreamId, stream_eq, checked_next}
use service_sdk.Runtime.Stream.PartitionKey.{partition_key_inj}
use service_sdk.Runtime.History.{EventEnvelope, EventHistory, validate}
use service_sdk.Runtime.History.Gapless.{CountsFrom, validate_iff}
use service_sdk.Codec.{
  DurableStream, encode_stream_id, decode_stream_id, invalid_realm, encode_event_cursor,
  decode_event_cursor, feed_identity, feed_parts,
}
use service_sdk.Codec.StreamId.{IsSized, decode-encode_stream_id, decode-encode_realm_bar}
use service_sdk.Codec.Cursor.{cursor-bound}

abbrev pub task : StreamId
task = record {
  service = "tasks";
  tenant = "acme";
  realm = some "emea";
  category = "task";
  key = "t|1";
}

partition_key_inj_example : task ≡ task
partition_key_inj_example = partition_key_inj task task refl

abbrev pub envelope : ℕ → ℕ → EventEnvelope ℕ
envelope version event = record {
  event_id = "e";
  stream = task;
  version = version;
  idempotency_key = "k";
  event = event;
}

abbrev history : EventHistory ℕ
history = record { stream = task; events = envelope 1 10 ∷ envelope 2 20 ∷ [] }

validate_iff_example : (validate history ≡ ok tt) ↔ (
    All (λ e. e.stream ≡ task) history.events × CountsFrom 1 history.events × (1 + 2 < u64_limit))
validate_iff_example = validate_iff history

same_realm : {a b : String} → some a ≡ some b → a ≡ b
same_realm h = ground arith

history_admitted : validate history ≡ ok tt
unfolding validate stream_eq checked_next
history_admitted = refl

decode-encode_stream_id_example :
    decode_stream_id (encode_stream_id (some "emea") "task" "t|1") ≡ ok (some "emea", "task", "t|1")
decode-encode_stream_id_example = decode-encode_stream_id (some "emea") "task" "t|1" (record {
  realm_sized = λ r e. subst (λ x. IsSized x × (x ≢ "")) (same_realm e) (omega arith, cons≢nil);
  realm_bars = λ r e.
      subst (Free b'|') (same_realm e)
        (omega arith, (omega arith, (omega arith, (omega arith, tt))));
  category_sized = omega arith;
  category_filled = cons≢nil;
  category_bars = (omega arith, (omega arith, (omega arith, (omega arith, tt))));
  key_sized = omega arith;
  key_filled = cons≢nil;
})

decode-encode_realm_bar_example :
    decode_stream_id (encode_stream_id (some "a|b") "task" "k") ≡ err invalid_realm
decode-encode_realm_bar_example =
    decode-encode_realm_bar "a" "b" "task" "k" (omega arith, tt) (omega arith)

-- A stand-in for SHA-256 that returns bytes.
abbrev pub low_bytes : Bytes → Bytes
low_bytes = map (λ b. b % 256)

pub low_bytes-IsBytes : (b : Bytes) → IsBytes (low_bytes b)
low_bytes-IsBytes [] = tt
low_bytes-IsBytes (x ∷ b) = (omega arith, low_bytes-IsBytes b)

abbrev stored : DurableStream
stored = record { tenant = "acme"; stream_type = "task"; stream_id = "0:|4:task|1:k" }

stored-Fits : Fits (feed_parts "log" stored)
unfolding as_bytes
stored-Fits = (omega arith, (omega arith, (omega arith, (omega arith, (omega arith, tt)))))

read_back :
    decode_event_cursor
      (encode_event_cursor (feed_identity low_bytes "log" stored) 42)
      (feed_identity low_bytes "log" stored)
    ≡ ok 42
unfolding decode_event_cursor encode_event_cursor feed_identity digest hex frame as_bytes
    to_be_bytes decimal parse_u64 split_once
read_back = refl

cursor-bound_example :
    (◌≡◌ {A = String} "log" "log" × (stored ≡ stored) × (◌≡◌ {A = ℕ} 42 42))
    ⊎ Collision low_bytes (feed_parts "log" stored) (feed_parts "log" stored)
cursor-bound_example =
    cursor-bound low_bytes low_bytes-IsBytes "log" "log" stored stored 42 42 stored-Fits stored-Fits
      (omega arith) read_back
