-- ===== src/Codec/StreamId.antt =====
-- Decoding what was encoded, and where the decoder fails on it.
use Prim.Native.Char.{code}
use Prim.Native.String.{len, ◌++◌, ◌∷◌}
use text.Mathlib.TextLemmas.{append_assoc, nil-append, cons-append, head-eq_of_cons-eq}
use text.Mathlib.TextPositions.{len-append}
use service_sdk.Base.{
  ℕ, ◌<◌, ◌+◌, String, ◌≡◌, ◌≢◌, refl, sym, ap, ◌∙◌, false, Option, none, some, ◌==◌, arith, eq_iff,
  Bool-cases, inl, inr,
}
use service_sdk.Base.Decimal.{decimal, u64_limit}
use service_sdk.Base.Decimal.RoundTrip.{decimal-Free, parse_u64-decimal}
use service_sdk.Base.Text.{split_once}
use service_sdk.Base.Text.Split.{
  Free, Free-append, split_once-append, strip_prefix-append, two_chars,
}
use service_sdk.Base.Result.{ok, err}
use service_sdk.Codec.{
  DecodeError, invalid_identity, invalid_realm, checked, framed, encode_realm, encode_stream_id,
  decode_framed, decode_realm, decode_stream_id,
}

-- A length that a `usize` holds, as the length of every Rust string does.
abbrev pub IsSized : String → Type 0
IsSized s = len s < u64_limit

split_framed : (v : String) → split_once b':' (framed v) ≡ some (decimal (len v), v)
split_framed v =
    split_once-append b':' ":" (decimal (len v)) v refl (decimal-Free b':' (len v) (omega arith))

checked_ok :
    (e : DecodeError) (v : String) → IsSized v → v ≢ "" → checked e (decimal (len v), v) ≡ ok v
unfolding checked
checked_ok e v h n = ground (arith, parse_u64-decimal (len v) h, eq_iff v "")

-- A wrong length is refused.
checked_err :
    (e : DecodeError) (n : ℕ) (v : String)
    → n < u64_limit
    → len v ≢ n
    → checked e (decimal n, v) ≡ err e
unfolding checked
checked_err e n v h ne = ground (arith, parse_u64-decimal n h)

decode_framed-framed : (v : String) → IsSized v → v ≢ "" → decode_framed (framed v) ≡ ok v
unfolding decode_framed
decode_framed-framed v h n = rw (decode_framed, split_framed v) (checked_ok invalid_identity v h n)

not_absent : (t : String) → ("1:" ++ t == "0:") ≡ false
not_absent t = elim (Bool-cases ("1:" ++ t == "0:")) [
  | inr other ↦ other
  | inl same ↦ absurd (
      omega (
        arith,
        ap code (head-eq_of_cons-eq (sym (two_chars "1" ":" t) ∙ (eq_iff ("1:" ++ t) "0:").0 same)),
      ))
]

encode_realm_starts : (r : String) → (encode_realm (some r) == "0:") ≡ false
unfolding encode_realm
encode_realm_starts r = not_absent (framed r)

-- A realm reads back.
decode-encode_realm :
    (realm : Option String)
    → ((r : String) → realm ≡ some r → IsSized r × (r ≢ ""))
    → decode_realm (encode_realm realm) ≡ ok realm
unfolding decode_realm
decode-encode_realm none h = unfold encode_realm in refl
decode-encode_realm (some r) h = rw (encode_realm_starts r) (
    unfold encode_realm in
    rw
      (
        strip_prefix-append "1:" (framed r),
        split_framed r,
        checked_ok invalid_realm r (h r refl).0 (h r refl).1,
      )
      refl)

framed-Free : (v : String) → Free b'|' v → Free b'|' (framed v)
framed-Free v h =
    Free-append b'|' (decimal (len v)) (":" ∷ v) (decimal-Free b'|' (len v) (omega arith))
      (omega arith, h)

-- What the decoder can read back: the realm is not empty and, like the category, holds no bar;
-- category and key are not empty.
pub record IsDecodable (realm : Option String) (category key : String) : Type 0 where
  pub realm_sized : (r : String) → realm ≡ some r → IsSized r × (r ≢ "")
  pub realm_bars : (r : String) → realm ≡ some r → Free b'|' r
  pub category_sized : IsSized category
  pub category_filled : category ≢ ""
  pub category_bars : Free b'|' category
  pub key_sized : IsSized key
  pub key_filled : key ≢ ""

encode_realm-Free :
    (realm : Option String)
    → ((r : String) → realm ≡ some r → Free b'|' r)
    → Free b'|' (encode_realm realm)
unfolding encode_realm
encode_realm-Free none h = (omega arith, (omega arith, tt))
encode_realm-Free (some r) h =
    Free-append b'|' "1:" (framed r) (omega arith, (omega arith, tt)) (framed-Free r (h r refl))

-- A stream identity reads back as it was written, whatever the key holds, as long as realm and
-- category hold no bar and no coordinate is empty or longer than a usize counts.
pub decode-encode_stream_id :
    (realm : Option String) (category key : String)
    → IsDecodable realm category key
    → decode_stream_id (encode_stream_id realm category key) ≡ ok (realm, category, key)
unfolding decode_stream_id encode_stream_id
decode-encode_stream_id realm category key d =
    rw
      (
        split_once-append b'|' "|" (encode_realm realm) (framed category ++ ("|" ∷ framed key)) refl
            (encode_realm-Free realm d.realm_bars),
        decode-encode_realm realm d.realm_sized,
        split_once-append b'|' "|" (framed category) (framed key) refl
            (framed-Free category d.category_bars),
        decode_framed-framed category d.category_sized d.category_filled,
        decode_framed-framed key d.key_sized d.key_filled,
      )
      refl

len-bar : (a b : String) → len (a ++ ("|" ∷ b)) ≡ len a + 1 + len b
len-bar a b =
    let bar : "|" ∷ b ≡ "|" ++ b = sym (cons-append "|" "" b ∙ ap (λ t. "|" ∷ t) (nil-append b)) in
    rw (bar, len-append a ("|" ++ b), len-append "|" b) (omega arith)

cut_realm :
    (a b rest : String)
    → encode_realm (some (a ++ ("|" ∷ b))) ++ rest
      ≡ ("1:" ++ (decimal (len (a ++ ("|" ∷ b))) ++ (":" ∷ a))) ++ ("|" ∷ (b ++ rest))
unfolding encode_realm
cut_realm a b rest = simp (append_assoc, cons-append)

-- A realm with a bar in it and a length of a u64, which the encoder writes and its length prefix accounts for, is
-- refused by the decoder: it splits at the first bar and not by the length.
pub decode-encode_realm_bar :
    (a b category key : String)
    → Free b'|' a
    → IsSized (a ++ ("|" ∷ b))
    → decode_stream_id (encode_stream_id (some (a ++ ("|" ∷ b))) category key) ≡ err invalid_realm
unfolding decode_stream_id encode_stream_id decode_realm
decode-encode_realm_bar a b category key f s =
    let whole = a ++ ("|" ∷ b) in
    let digits = decimal (len whole) in
    let rest = "|" ∷ (framed category ++ ("|" ∷ framed key)) in
    let free : Free b'|' ("1:" ++ (digits ++ (":" ∷ a))) =
      Free-append b'|' "1:" (digits ++ (":" ∷ a)) (omega arith, (omega arith, tt))
        (Free-append b'|' digits (":" ∷ a) (decimal-Free b'|' (len whole) (omega arith))
          (omega arith, f)) in
    rw
      (
        cut_realm a b rest,
        split_once-append b'|' "|" ("1:" ++ (digits ++ (":" ∷ a))) (b ++ rest) refl free,
        not_absent (digits ++ (":" ∷ a)),
        strip_prefix-append "1:" (digits ++ (":" ∷ a)),
        split_once-append b':' ":" digits a refl (decimal-Free b':' (len whole) (omega arith)),
        checked_err invalid_realm (len whole) a s (λ e. absurd (omega (arith, len-bar a b))),
      )
      refl
