-- ===== src/Effect/Journal/Lifecycle.antt =====
-- The lifecycle of an external effect over the durable event log: what the stored record becomes.
use service_sdk.Base.{
  ℕ, ◌+◌, ◌<◌, String, ◌≡◌, refl, sym, ap, subst, ◌∙◌, ◌⊎◌, inl, inr, false, some, List, [], ◌∷◌,
  ◌++◌, length, length-append, arith,
}
use service_sdk.Base.Action.{pure, ◌>>=◌, ◌>>◌, >>=-eq-ok}
use service_sdk.Base.Result.{Result, ok}
use service_sdk.Runtime.Auth.{VerifiedAuthContext}
use service_sdk.Codec.{DurableStream}
use service_sdk.Effect.Journal.Store.{
  EffectClaim, EffectRecord, claimed, ClaimDisposition, acquired, Expected, exact, NewEvent,
  RecordedEvent, CommandMeta, Durable,
}
use service_sdk.Effect.Journal.Load.{finish}
use service_sdk.Effect.Journal.Paging.{IsReadable, replay, load_effect-replay}
use service_sdk.Effect.Journal.Operations.{effect_stream, reload, claim_effect}
use service_sdk.Effect.Journal.Behind.{
  finish-ok, replay-ok, replay-append, fold_event-claimed, start-length,
}
use service_sdk.Effect.Journal.Answers.{Free, Valid, Answered, lease_key}
use service_sdk.Effect.Journal.Decisions.{claim_effect-cases}

-- What the event log documents of a write, and serde of a claim: an append that succeeds puts the
-- event behind the stream's last one, or it repeats a command that the log has done before (`done`)
-- and adds nothing; and a claim is decoded to what was encoded.
pub record IsWritable {W V : Type 0} (store : Durable W V)
    (content : W → DurableStream → List (RecordedEvent V))
    (done : W → DurableStream → CommandMeta → Type 0) : Type 0 where
  pub appends :
      (w w' : W) (s : DurableStream) (expected : Expected) (event : NewEvent V) (m : CommandMeta)
      → store.append s expected event m w ≡ (ok tt, w')
      → (content w' s
          ≡ content w s
            ++ (record {
              version = length (content w s) + 1;
              name = event.name;
              redacted = false;
              body = event.body;
            }
                ∷ []))
        ⊎ (done w s m × (content w' s ≡ content w s))
  pub keeps :
      (name : String) (schema_version : ℕ) (body : V) (event : NewEvent V)
      → store.new_event name schema_version body ≡ ok event
      → (event.name ≡ name) × (event.body ≡ body)
  pub to_of_claim :
      (claim : EffectClaim) (body : V)
      → store.of_claim claim ≡ some body
      → store.to_claim body ≡ some claim

ok_inj : {E A : Type 0} {x y : A} → ◌≡◌ {A = Result E A} (ok x) (ok y) → x ≡ y
ok_inj h = ground arith

module _ {W V : Type 0} (store : Durable W V) where
  module _ (content : W → DurableStream → List (RecordedEvent V))
      (done : W → DurableStream → CommandMeta → Type 0) (readable : IsReadable store content)
      (writable : IsWritable store content done) (fuel : ℕ) (service : String)
      (context : VerifiedAuthContext) (w : W) (s : DurableStream) (current : EffectRecord)
      (operation_id : String) (own : effect_stream store context service operation_id ≡ ok s)
      (enough : length (content w s) + 1 < fuel)
      (found : replay store (content w s) ≡ ok (some current)) where
    -- The record that a claim leaves.
    abbrev pub under : EffectClaim → EffectRecord
    under claim = record current { state = claimed claim; revision = current.revision + 1 }

    -- The loaded events with a claim event behind them.
    abbrev with_claim : NewEvent V → List (RecordedEvent V)
    with_claim event =
        content w s
        ++ (record {
          version = length (content w s) + 1;
          name = event.name;
          redacted = false;
          body = event.body;
        }
            ∷ [])

    claim-replay :
        (claim : EffectClaim) (body : V) (event : NewEvent V)
        → store.of_claim claim ≡ some body
        → store.new_event "service_effect_claimed" 1 body ≡ ok event
        → replay store (with_claim event) ≡ ok (some (under claim))
    unfolding finish
    claim-replay claim body event encoded made =
        let (f, folded, done) = replay-ok store (content w s) current found in
        let (hp, hs, ha) = finish-ok store f current done in
        let (same_name, same_body) = writable.keeps "service_effect_claimed" 1 body event made in
        let len : length (content w s) + 1 ≡ f.after + 1 =
          omega (arith, start-length store (content w s) f folded) in
        let decoded = ap store.to_claim same_body ∙ writable.to_of_claim claim body encoded in
        let step =
          fold_event-claimed store f current.prepared _ claim hp len refl same_name decoded in
        replay-append store (content w s) _ f _ folded step
        ∙ (λ i. ok (some (record current { state = claimed claim; revision = ha i + 1 })))

    claim-reload :
        (r : EffectRecord) (missing : String) (w' : W)
        → length (content w' s) < fuel
        → replay store (content w' s) ≡ ok (some r)
        → reload store fuel s missing w' ≡ (ok r, w')
    unfolding reload
    claim-reload r missing w' lt h =
        rw (load_effect-replay store content readable w' s fuel lt, h) refl

    -- After an append that succeeded, the record that the stored events replay to is returned.
    claim-run :
        (event : NewEvent V) (metadata : CommandMeta) (missing : String) (d : ClaimDisposition)
        (w' : W) (r : EffectRecord)
        → length (content (store.append s (exact current.revision) event metadata w).1 s) < fuel
        → replay store (content (store.append s (exact current.revision) event metadata w).1 s)
          ≡ ok (some r)
        → (store.append s (exact current.revision) event metadata
              >> (reload store fuel s missing >>= λ r. pure (acquired r)))
            w
          ≡ (ok d, w')
        → (d ≡ acquired r)
          × (store.append s (exact current.revision) event metadata w ≡ (ok tt, w'))
    claim-run event metadata missing d w' r lt stored h =
        let w1 = (store.append s (exact current.revision) event metadata w).1 in
        let (_, e1, rest) =
          >>=-eq-ok (store.append s (exact current.revision) event metadata) _ w h in
        let back = claim-reload r missing w1 lt stored in
        let ends : ◌≡◌ {A = Result _ ClaimDisposition × W} (ok (acquired r), w1) (ok d, w') =
          sym (rw back refl) ∙ rest in
        (sym (ok_inj (ap (λ p. p.0) ends)), (λ i. (e1 i, ap (λ p. p.1) ends i)))

    -- What a claim that got as far as its append leaves.
    abbrev pub Claimed : EffectClaim → ClaimDisposition → W → Type 0
    Claimed claim d w' =
        ((d ≡ acquired (under claim)) × (replay store (content w' s) ≡ ok (some (under claim))))
        ⊎ ((metadata : CommandMeta) × (metadata.idempotency_key ≡ lease_key claim)
            × done w s metadata
            × (content w' s ≡ content w s)
            × (d ≡ acquired current))

    claim-Claimed :
        (claim : EffectClaim) (body : V) (event : NewEvent V) (metadata : CommandMeta)
        (missing : String) (d : ClaimDisposition) (w' : W)
        → store.of_claim claim ≡ some body
        → store.new_event "service_effect_claimed" 1 body ≡ ok event
        → metadata.idempotency_key ≡ lease_key claim
        → (store.append s (exact current.revision) event metadata
              >> (reload store fuel s missing >>= λ r. pure (acquired r)))
            w
          ≡ (ok d, w')
        → Claimed claim d w'
    claim-Claimed claim body event metadata missing d w' encoded made keyed h =
        let w1 = (store.append s (exact current.revision) event metadata w).1 in
        let (_, e1, _) = >>=-eq-ok (store.append s (exact current.revision) event metadata) _ w h in
        elim (writable.appends w w1 s (exact current.revision) event metadata (λ i. (e1 i, w1))) [
          | inl added ↦
              let stored = ap (replay store) added ∙ claim-replay claim body event encoded made in
              let one_more : length (content w1 s) ≡ length (content w s) + 1 =
                ap length added ∙ length-append (content w s) _ in
              let (same, ends) =
                claim-run event metadata missing d w' (under claim) (omega (arith, one_more)) stored
                  h in
              inl (same, ap (λ x. replay store (content x s)) (sym (ap (λ p. p.1) ends)) ∙ stored)
          | inr (repeated, unchanged) ↦
              let stored = ap (replay store) unchanged ∙ found in
              let same_length : length (content w1 s) ≡ length (content w s) =
                ap length unchanged in
              let (same, ends) =
                claim-run event metadata missing d w' current (omega (arith, same_length)) stored
                  h in
              inr (
                metadata,
                keyed,
                repeated,
                ap (λ x. content x s) (sym (ap (λ p. p.1) ends)) ∙ unchanged,
                same,
              )
        ]

    -- Over a store that reads and appends as documented, with rounds enough for both loads of an
    -- effect that is there: a claim that succeeds either wrote nothing and is answered from the
    -- loaded record, as terminal when that is completed, as acquired when it is held under the lease
    -- of the claim, as busy when it is held under another lease that lasts at the instant; or the
    -- effect was free and the claim valid, and then it is returned as held under exactly this
    -- claim, one revision later, which is what the stored events replay to, or, when the log had
    -- already done a command under the key of this lease, the events are the same
    -- and the loaded record is returned as acquired.
    pub claim_effect-acquired :
        (claim : EffectClaim) (instant : String) (d : ClaimDisposition) (w' : W)
        → claim_effect store fuel service context operation_id claim instant w ≡ (ok d, w')
        → ((w' ≡ w) × Answered store current claim instant d)
          ⊎ (Free store current claim instant × Valid store claim instant × Claimed claim d w')
    claim_effect-acquired claim instant d w' h =
        elim (claim_effect-cases store content readable fuel service context w s current
          operation_id own (omega arith) found claim instant) [
            | inl (e, failed) ↦ absurd (ground arith)
            | inr (inl (found_d, same, answered)) ↦
                let ends : ◌≡◌ {A = Result _ ClaimDisposition × W} (ok found_d, w) (ok d, w') =
                  sym same ∙ h in
                inl (
                  sym (ap (λ p. p.1) ends),
                  subst (λ x. Answered store current claim instant x) (ok_inj (ap (λ p. p.0) ends))
                      answered,
                )
            | inr (inr c) ↦ inr (
              c.free,
              c.valid,
              claim-Claimed claim c.body c.event c.metadata _ d w' c.encoded c.made c.keyed
                  (sym c.runs ∙ h),
            )
          ]
