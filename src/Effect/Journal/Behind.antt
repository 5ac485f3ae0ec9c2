-- ===== src/Effect/Journal/Behind.antt =====
-- One more event behind a stored effect: the fold of crates/service-eventlog/src/lib.rs,
-- `load_effect`, over an appended event.
use service_sdk.Base.{
  ℕ, ◌+◌, ◌≡◌, refl, ◌∙◌, inl, inr, true, false, some, List, [], ◌∷◌, ◌++◌, length, eqb, arith,
}
use service_sdk.Base.Result
use service_sdk.Base.Result.{Result, ok, err, Result-cases}
use service_sdk.Effect.Plan.{PreparedEffect}
use service_sdk.Effect.Journal.Store.{EffectClaim, EffectRecord, claimed, RecordedEvent, Durable}
use service_sdk.Effect.Journal.Load.{Folding, start, fold_event, fold_events, finish}
use service_sdk.Effect.Journal.Paging.{replay, fold_events-append, after-fold_events}

eqb-same : (n : ℕ) → eqb n n ≡ true
eqb-same n = ground arith

module _ {W V : Type 0} (store : Durable W V) where
  pub finish-ok :
      (f : Folding) (r : EffectRecord)
      → finish store f ≡ ok (some r)
      → (f.prepared ≡ some r.prepared) × (f.state ≡ some r.state) × (f.after ≡ r.revision)
  unfolding finish
  finish-ok f r h = ground arith

  pub replay-ok :
      (es : List (RecordedEvent V)) (r : EffectRecord)
      → replay store es ≡ ok (some r)
      → (f : Folding) × (fold_events store start es ≡ ok f) × (finish store f ≡ ok (some r))
  unfolding replay
  replay-ok [] r h = ground arith
  replay-ok (e ∷ es) r h = elim (Result-cases (fold_events store start (e ∷ es))) [
    | inl (f, p) ↦ (f, p, ground arith)
    | inr (x, p) ↦ ground arith
  ]

  replay-behind :
      (es : List (RecordedEvent V)) (e : RecordedEvent V)
      → replay store (es ++ (e ∷ []))
        ≡ Result.◌>>=◌ (fold_events store start (es ++ (e ∷ []))) (finish store)
  unfolding replay
  replay-behind [] e = refl
  replay-behind (x ∷ es) e = refl

  pub replay-append :
      (es : List (RecordedEvent V)) (e : RecordedEvent V) (f g : Folding)
      → fold_events store start es ≡ ok f
      → fold_event store f e ≡ ok g
      → replay store (es ++ (e ∷ [])) ≡ finish store g
  unfolding fold_events
  replay-append es e f g h k =
      replay-behind es e ∙ rw (fold_events-append store start es (e ∷ []), h, k) refl

  -- A claim event behind a prepared effect.
  pub fold_event-claimed :
      (f : Folding) (p : PreparedEffect) (e : RecordedEvent V) (claim : EffectClaim)
      → f.prepared ≡ some p
      → e.version ≡ f.after + 1
      → e.redacted ≡ false
      → e.name ≡ "service_effect_claimed"
      → store.to_claim e.body ≡ some claim
      → fold_event store f e
        ≡ ok (record { prepared = some p; state = some (claimed claim); after = f.after + 1 })
  unfolding fold_event
  fold_event-claimed f p e claim h1 h2 h3 h4 h5 =
      rw (h2, h3, h4, h1, h5, eqb-same (f.after + 1))
        (λ i. ok (record { prepared = h1 i; state = some (claimed claim); after = h2 i }))

  pub start-length :
      (es : List (RecordedEvent V)) (f : Folding)
      → fold_events store start es ≡ ok f
      → f.after ≡ length es
  start-length es f h = omega (arith, after-fold_events store start f es h)
