-- ===== src/Runtime/Stream/PartitionKey.antt =====
-- The partition key tells all streams apart: a length prefix makes the separators inside a
-- coordinate data, and the tag before the realm tells absence from every spelling.
use Prim.Native.Char.{code}
use Prim.Native.String.{String, ◌∷◌, ◌++◌, len}
use text.Mathlib.TextLemmas.{
  cons-append, append_assoc, append_cancel_left, tail-eq_of_cons-eq, head-eq_of_cons-eq, append-nil,
}
use service_sdk.Base.{◌≡◌, refl, sym, ap, ◌∙◌, Option, none, some, arith, pair_of_some}
use service_sdk.Base.Decimal.{decimal}
use service_sdk.Base.Decimal.RoundTrip.{decimal-Free, decimal_inj}
use service_sdk.Base.Text.{split_once}
use service_sdk.Base.Text.Split.{split_once-append, append_inj_len, two_chars}
use service_sdk.Runtime.Stream.{StreamId, push_part, push_realm, partition_key}

-- What `push_part` appends, before a rest.
framed : String → String → String
framed v rest = "|" ∷ (decimal (len v) ++ (":" ∷ (v ++ rest)))

push_part_lem : (out v rest : String) → push_part out v ++ rest ≡ out ++ framed v rest
unfolding push_part framed
push_part_lem out v rest = simp (append_assoc, cons-append)

framed_inj : (v w r s : String) → framed v r ≡ framed w s → (v ≡ w) × (r ≡ s)
unfolding framed
framed_inj v w r s h =
    let (digits, rest) =
      pair_of_some (sym (cut v r) ∙ ap (split_once b':') (tail-eq_of_cons-eq h) ∙ cut w s) in
    append_inj_len v w r s (decimal_inj _ _ digits) rest
  where
    cut :
        (x y : String)
        → split_once b':' (decimal (len x) ++ (":" ∷ (x ++ y))) ≡ some (decimal (len x), x ++ y)
    cut x y =
        split_once-append b':' ":" (decimal (len x)) (x ++ y) refl
          (decimal-Free b':' (len x) (omega arith))

-- The realm tag and the realm, before a rest.
tagged : Option String → String → String
tagged none rest = "|" ∷ ("0" ∷ rest)
tagged (some r) rest = "|" ∷ ("1" ∷ framed r rest)

push_realm_lem :
    (out : String) (r : Option String) (rest : String)
    → push_realm out r ++ rest ≡ out ++ tagged r rest
unfolding push_realm tagged
push_realm_lem out none rest =
    append_assoc out "|0" rest ∙ ap (λ t. out ++ t) (two_chars "|" "0" rest)
push_realm_lem out (some r) rest =
    push_part_lem (out ++ "|1") r rest
    ∙ append_assoc out "|1" (framed r rest)
    ∙ ap (λ t. out ++ t) (two_chars "|" "1" (framed r rest))

tagged_inj : (a b : Option String) (r s : String) → tagged a r ≡ tagged b s → (a ≡ b) × (r ≡ s)
unfolding tagged
tagged_inj none none r s h = (refl, tail-eq_of_cons-eq (tail-eq_of_cons-eq h))
tagged_inj none (some b) r s h =
    absurd (omega (arith, ap code (head-eq_of_cons-eq (tail-eq_of_cons-eq h))))
tagged_inj (some a) none r s h =
    absurd (omega (arith, ap code (head-eq_of_cons-eq (tail-eq_of_cons-eq h))))
tagged_inj (some a) (some b) r s h =
    let (e, rest) = framed_inj a b r s (tail-eq_of_cons-eq (tail-eq_of_cons-eq h)) in
    (ap some e, rest)

partition_key_lem :
    (s : StreamId)
    → partition_key s
      ≡ "service-stream/1"
        ++ framed s.service (framed s.tenant (tagged s.realm (framed s.category (framed s.key ""))))
unfolding partition_key
partition_key_lem s =
    let first = push_part "service-stream/1" s.service in
    let second = push_part first s.tenant in
    let third = push_realm second s.realm in
    let key = framed s.key "" in
    let category = framed s.category key in
    let realm = tagged s.realm category in
    sym (append-nil (push_part (push_part third s.category) s.key))
    ∙ push_part_lem (push_part third s.category) s.key ""
    ∙ push_part_lem third s.category key
    ∙ push_realm_lem second s.realm category
    ∙ push_part_lem first s.tenant realm
    ∙ push_part_lem "service-stream/1" s.service (framed s.tenant realm)

-- Streams with one partition key are one stream: no service, tenant, realm (absent or of any
-- spelling), category or key can be confused with another, whatever characters they hold.
pub partition_key_inj : (a b : StreamId) → partition_key a ≡ partition_key b → a ≡ b
partition_key_inj a b h =
    let body =
      append_cancel_left "service-stream/1" _ _
        (sym (partition_key_lem a) ∙ h ∙ partition_key_lem b) in
    let (service, h1) = framed_inj _ _ _ _ body in
    let (tenant, h2) = framed_inj _ _ _ _ h1 in
    let (realm, h3) = tagged_inj _ _ _ _ h2 in
    let (category, h4) = framed_inj _ _ _ _ h3 in
    let (key, _) = framed_inj _ _ _ _ h4 in
    λ i. record {
      service = service i;
      tenant = tenant i;
      realm = realm i;
      category = category i;
      key = key i;
    }
