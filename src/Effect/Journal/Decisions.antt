-- ===== src/Effect/Journal/Decisions.antt =====
-- What each operation of the journal writes, and when.
use Prim.Native.String.{◌++◌}
use service_sdk.Base.{
  ℕ, zero, suc, String, ◌≡◌, refl, ap, ◌∙◌, ◌⊎◌, inl, inr, none, some, List, arith, Option-cases,
  Bool-cases, length, ◌<◌, is_empty, eqb, ◌&&◌,
}
use service_sdk.Base.Action.{pure, ◌>>=◌, ◌>>◌}
use service_sdk.Base.Result.{ok, err, Result-cases}
use service_sdk.Runtime.Auth.{VerifiedAuthContext}
use service_sdk.Codec.{DurableStream}
use service_sdk.Effect.Journal.Store.{
  EffectClaim, EffectRecord, ClaimDisposition, acquired, EventLogError, invalid, Expected, exact,
  NewEvent, RecordedEvent, CommandMeta, Durable,
}
use service_sdk.Effect.Journal.Load.{page, Folding, start, fold_events, load_from, load_effect}
use service_sdk.Effect.Journal.Paging.{IsReadable, slice_of, replay, load_effect-replay}
use service_sdk.Effect.Journal.Operations.{
  effect_stream, effect_meta, parse_time, reload, validate_claim, answer_claim, claim_effect,
}
use service_sdk.Effect.Journal.Answers.{
  Free, Valid, Answered, validate_claim-Valid, answer_claim-none, answer_claim-some,
}

module _ {W V : Type 0} (store : Durable W V) (content : W → DurableStream → List (RecordedEvent V))
    (readable : IsReadable store content) where
  load_from-keeps :
      (n : ℕ) (s : DurableStream) (f : Folding) (w : W) → (load_from store n s f w).1 ≡ w
  unfolding load_from
  load_from-keeps zero s f w = refl
  load_from-keeps (suc n) s f w =
      rw (readable.reads w s f.after page)
        (elim (Bool-cases
          (is_empty (slice_of (content w s) f.after page).events && eqb f.after 0)) [
            | inl e ↦ rw e refl
            | inr e ↦
                rw e
                  (elim (Result-cases
                    (fold_events store f (slice_of (content w s) f.after page).events)) [
                      | inr (x, p) ↦ rw p refl
                      | inl (g, p) ↦
                          rw p
                            (elim (Bool-cases (slice_of (content w s) f.after page).end_of_stream) [
                              | inl z ↦ rw z refl
                              | inr z ↦ rw z (load_from-keeps n s _ w)
                            ])
                    ])
          ])

  -- A journal that is loaded is not changed.
  pub load_effect-keeps : (n : ℕ) (s : DurableStream) (w : W) → (load_effect store n s w).1 ≡ w
  unfolding load_effect
  load_effect-keeps n s w = load_from-keeps n s start w

  reload-keeps :
      (n : ℕ) (s : DurableStream) (missing : String) (w : W) → (reload store n s missing w).1 ≡ w
  unfolding reload
  reload-keeps n s missing w = elim (Result-cases (load_effect store n s w).0) [
    | inl (found, e) ↦ rw e (ground (arith, load_effect-keeps n s w))
    | inr (x, e) ↦ rw e (load_effect-keeps n s w)
  ]

  -- The record is read back after the append, and the append alone decides what is stored.
  append-reload :
      {A : Type 0} (f : EffectRecord → A) (n : ℕ) (s : DurableStream) (expected : Expected)
      (event : NewEvent V) (metadata : CommandMeta) (missing : String) (w : W)
      → ((store.append s expected event metadata >> (reload store n s missing >>= λ r. pure (f r)))
          w).1
        ≡ (store.append s expected event metadata w).1
  append-reload f n s expected event metadata missing w =
      elim (Result-cases (store.append s expected event metadata w).0) [
        | inr (x, e) ↦ rw e refl
        | inl (_, e) ↦
            let w' = (store.append s expected event metadata w).1 in
            rw e (elim (Result-cases (reload store n s missing w').0) [
              | inl (r, e') ↦ rw e' (reload-keeps n s missing w')
              | inr (x, e') ↦ rw e' (reload-keeps n s missing w')
            ])
      ]

  module _ (fuel : ℕ) (service : String) (context : VerifiedAuthContext) (w : W) (s : DurableStream)
      (current : EffectRecord) (operation_id : String)
      (own : effect_stream store context service operation_id ≡ ok s)
      (enough : length (content w s) < fuel)
      (found : replay store (content w s) ≡ ok (some current)) where
    -- What the load of the operation's own stream gives.
    loaded : load_effect store fuel s w ≡ (ok (some current), w)
    loaded = load_effect-replay store content readable w s fuel enough ∙ ap (λ r. (r, w)) found

    -- A claim that gets as far as its append: the effect is free to claim, the claim is valid, and
    -- the one event goes behind the revision that was loaded, under the key of the lease.
    pub record Claiming (claim : EffectClaim) (instant : String) : Type 0 where
      pub free : Free store current claim instant
      pub valid : Valid store claim instant
      pub body : V
      pub encoded : store.of_claim claim ≡ some body
      pub event : NewEvent V
      pub made : store.new_event "service_effect_claimed" 1 body ≡ ok event
      pub metadata : CommandMeta
      pub keyed : metadata.idempotency_key ≡ "effect-claim:" ++ claim.lease_id
      pub runs :
          claim_effect store fuel service context operation_id claim instant w
          ≡ (store.append s (exact current.revision) event metadata
                >> (reload store fuel s "claimed effect was not visible" >>= λ r.
                    pure (acquired r)))
              w

    meta-keyed :
        (key : String) (body : V) (at_time : ℕ) (metadata : CommandMeta)
        → effect_meta store context key body operation_id at_time ≡ ok metadata
        → metadata.idempotency_key ≡ key
    unfolding effect_meta
    meta-keyed key body at_time metadata h = ground arith

    -- A claim fails and writes nothing, is answered from the loaded record and writes nothing, or
    -- gets as far as its append.
    pub claim_effect-cases :
        (claim : EffectClaim) (instant : String)
        → ((e : EventLogError) × (claim_effect store fuel service context operation_id claim instant
                w
              ≡ (err e, w)))
          ⊎ ((d : ClaimDisposition) × (claim_effect store fuel service context operation_id claim
                  instant w
                ≡ (ok d, w))
              × Answered store current claim instant d)
          ⊎ Claiming claim instant
    unfolding claim_effect
    claim_effect-cases claim instant =
        elim (Result-cases (answer_claim store fuel service context current claim instant)) [
          | inr (x, e1) ↦ inl (x, rw (own, loaded, e1) refl)
          | inl (some d, e1) ↦ inr (
              inl (
                d,
                rw (own, loaded, e1) refl,
                answer_claim-some store fuel service context current claim instant d e1,
              ))
          | inl (none, e1) ↦ elim (Result-cases (validate_claim store claim instant)) [
            | inr (x, e2) ↦ inl (x, rw (own, loaded, e1, e2) refl)
            | inl (tt, e2) ↦ elim (Option-cases (store.of_claim claim)) [
              | inl e3 ↦ inl (invalid "claim", rw (own, loaded, e1, e2, e3) refl)
              | inr (body, e3) ↦
                  elim (Result-cases (store.new_event "service_effect_claimed" 1 body)) [
                    | inr (x, e4) ↦ inl (x, rw (own, loaded, e1, e2, e3, e4) refl)
                    | inl (event, e4) ↦ elim (Result-cases (parse_time store instant)) [
                      | inr (x, e5) ↦ inl (x, rw (own, loaded, e1, e2, e3, e4, e5) refl)
                      | inl (at_time, e5) ↦
                          elim (Result-cases (
                            effect_meta store context ("effect-claim:" ++ claim.lease_id) body
                              operation_id at_time)) [
                                | inr (x, e6) ↦
                                    inl (x, rw (own, loaded, e1, e2, e3, e4, e5, e6) refl)
                                | inl (metadata, e6) ↦ inr (
                                    inr (record {
                                      free =
                                          answer_claim-none store fuel service context current claim
                                            instant e1;
                                      valid = validate_claim-Valid store claim instant e2;
                                      body = body;
                                      encoded = e3;
                                      event = event;
                                      made = e4;
                                      metadata = metadata;
                                      keyed =
                                          meta-keyed ("effect-claim:" ++ claim.lease_id) body
                                            at_time metadata e6;
                                      runs = rw (own, loaded, e1, e2, e3, e4, e5, e6) refl;
                                    }))
                              ]
                    ]
                  ]
            ]
          ]
        ]

    -- Over a store that reads as documented, with rounds enough for the load of an effect that is
    -- there: a claim writes nothing, or it makes one append, of one claim event behind the revision
    -- that was loaded and under the key of its lease; and this only if the effect is prepared, or
    -- held under another lease that has expired at the instant, and the claim names a lease and a
    -- worker and expires after the instant.
    pub claim_effect-writes :
        (claim : EffectClaim) (instant : String)
        → ((claim_effect store fuel service context operation_id claim instant w).1 ≡ w)
          ⊎ ((c : Claiming claim instant) × ((claim_effect store fuel service context operation_id
                  claim instant w).1
                ≡ (store.append s (exact current.revision) c.event c.metadata w).1))
    claim_effect-writes claim instant = elim (claim_effect-cases claim instant) [
      | inl (x, same) ↦ inl (ap (λ r. r.1) same)
      | inr (inl (d, same, _)) ↦ inl (ap (λ r. r.1) same)
      | inr (inr c) ↦ inr (
        c,
        ap (λ r. r.1) c.runs
            ∙ append-reload acquired fuel s (exact current.revision) c.event c.metadata _ w,
      )
    ]
