-- ===== src/Effect/Journal/Answers.antt =====
-- What a claim finds and needs: crates/service-eventlog/src/lib.rs, `claim`, `lease_expired` and
-- `validate_claim`.
use Prim.Native.String.{◌++◌}
use service_sdk.Base.{
  ℕ, String, ◌≡◌, ◌≢◌, refl, sym, ◌∙◌, ◌⊎◌, inl, inr, Bool, false, none, some, arith, Bool-cases,
  ◌==◌, ◌<◌, ◌≤◌, leb, not, ◌||◌, if◌then◌else◌, eq_iff,
}
use service_sdk.Base.Text.{is_blank}
use service_sdk.Base.Result
use service_sdk.Base.Result.{Result, ok, err, Result-cases, >>=-eq-ok, ok_or-eq-ok}
use service_sdk.Runtime.Auth.{VerifiedAuthContext}
use service_sdk.Effect.Journal.Store.{
  EffectClaim, EffectOutcome, EffectState, prepared, claimed, completed, EffectRecord,
  ClaimDisposition, acquired, busy, terminal, Durable,
}
use service_sdk.Effect.Journal.Operations.{parse_time, lease_expired, validate_claim, answer_claim}

-- The key of the command that a claim appends.
abbrev pub lease_key : EffectClaim → String
lease_key claim = "effect-claim:" ++ claim.lease_id

module _ {W V : Type 0} (store : Durable W V) where
  -- The effect can be claimed at the instant: it is only prepared, or its lease is another one than
  -- that of the claim and has expired by then.
  abbrev pub Free : EffectRecord → EffectClaim → String → Type 0
  Free current claim instant =
      (current.state ≡ prepared)
      ⊎ ((active : EffectClaim) × (current.state ≡ claimed active)
          × (active.lease_id ≢ claim.lease_id)
          × (expiry : ℕ) × (store.parse_instant active.expires_at ≡ some expiry)
          × (now : ℕ) × (store.parse_instant instant ≡ some now)
          × (expiry ≤ now))

  -- The claim names a lease and a worker and expires after the instant.
  pub record Valid (claim : EffectClaim) (instant : String) : Type 0 where
    pub lease : is_blank claim.lease_id ≡ false
    pub worker : is_blank claim.worker ≡ false
    pub expiry : ℕ
    pub expires : store.parse_instant claim.expires_at ≡ some expiry
    pub now : ℕ
    pub asked : store.parse_instant instant ≡ some now
    pub lasts : now < expiry

  -- The answers that need no append: a completed effect is terminal, one that is held under the
  -- lease of the claim is acquired, and one that is held under another lease, which has not expired
  -- at the instant, is busy; each with the record as it is.
  abbrev pub Answered : EffectRecord → EffectClaim → String → ClaimDisposition → Type 0
  Answered current claim instant d =
      ((outcome : EffectOutcome) × (current.state ≡ completed outcome) × (d ≡ terminal current))
      ⊎ ((active : EffectClaim) × (current.state ≡ claimed active)
          × (active.lease_id ≡ claim.lease_id)
          × (d ≡ acquired current))
      ⊎ ((active : EffectClaim) × (current.state ≡ claimed active)
          × (active.lease_id ≢ claim.lease_id)
          × (expiry : ℕ) × (store.parse_instant active.expires_at ≡ some expiry)
          × (now : ℕ) × (store.parse_instant instant ≡ some now)
          × (now < expiry)
          × (d ≡ busy current))

  parse_time-ok : (t : String) (n : ℕ) → parse_time store t ≡ ok n → store.parse_instant t ≡ some n
  unfolding parse_time
  parse_time-ok t n h = ok_or-eq-ok (store.parse_instant t) _ h

  lease_expired-ok :
      (expires_at instant : String) (b : Bool)
      → lease_expired store expires_at instant ≡ ok b
      → (expiry : ℕ) × (store.parse_instant expires_at ≡ some expiry)
        × (now : ℕ) × (store.parse_instant instant ≡ some now)
        × (leb expiry now ≡ b)
  unfolding lease_expired
  lease_expired-ok expires_at instant b h =
      let (expiry, h1, k1) = >>=-eq-ok (parse_time store expires_at) _ h in
      let (now, h2, k2) = >>=-eq-ok (parse_time store instant) _ k1 in
      (expiry, parse_time-ok expires_at expiry h1, now, parse_time-ok instant now h2, ground arith)

  pub validate_claim-Valid :
      (claim : EffectClaim) (instant : String)
      → validate_claim store claim instant ≡ ok tt
      → Valid claim instant
  unfolding validate_claim
  validate_claim-Valid claim instant h =
      elim (Bool-cases (is_blank claim.lease_id || is_blank claim.worker)) [
        | inl blank ↦ absurd (ground arith)
        | inr named ↦ elim (Result-cases (parse_time store claim.expires_at)) [
          | inr (x, failed) ↦ absurd (ground arith)
          | inl (expiry, h1) ↦ elim (Result-cases (parse_time store instant)) [
            | inr (x, failed) ↦ absurd (ground arith)
            | inl (now, h2) ↦ record {
              lease = ground arith;
              worker = ground arith;
              expiry = expiry;
              expires = parse_time-ok claim.expires_at expiry h1;
              now = now;
              asked = parse_time-ok instant now h2;
              lasts = ground arith;
            }
          ]
        ]
      ]

  other : (a b : String) → (a == b) ≡ false → a ≢ b
  other a b h same = ground (arith, eq_iff a b)

  module _ (fuel : ℕ) (service : String) (context : VerifiedAuthContext) where
    pub answer_claim-none :
        (current : EffectRecord) (claim : EffectClaim) (instant : String)
        → answer_claim store fuel service context current claim instant ≡ ok none
        → Free current claim instant
    unfolding answer_claim
    answer_claim-none current claim instant h = go current.state refl
      where
        go : (state : EffectState) → current.state ≡ state → Free current claim instant
        go prepared e = inl e
        go (completed outcome) e = absurd (ground arith)
        go (claimed active) e = elim (Bool-cases (active.lease_id == claim.lease_id)) [
          | inl same ↦ absurd (ground arith)
          | inr differs ↦
              let held : Result.◌>>=◌ (lease_expired store active.expires_at instant)
                    (λ expired. if not expired then ok (some (busy current)) else ok none)
                  ≡ ok none =
                sym (rw (e, differs) refl) ∙ h in
              let (expired, h1, k1) =
                >>=-eq-ok (lease_expired store active.expires_at instant) _ held in
              let (expiry, a, now, b, c) = lease_expired-ok active.expires_at instant expired h1 in
              inr (
                active,
                e,
                other active.lease_id claim.lease_id differs,
                expiry,
                a,
                now,
                b,
                ground arith,
              )
        ]

    pub answer_claim-some :
        (current : EffectRecord) (claim : EffectClaim) (instant : String) (d : ClaimDisposition)
        → answer_claim store fuel service context current claim instant ≡ ok (some d)
        → Answered current claim instant d
    unfolding answer_claim
    answer_claim-some current claim instant d h = go current.state refl
      where
        go : (state : EffectState) → current.state ≡ state → Answered current claim instant d
        go prepared e = absurd (ground arith)
        go (completed outcome) e = inl (outcome, e, ground arith)
        go (claimed active) e = elim (Bool-cases (active.lease_id == claim.lease_id)) [
          | inl same ↦
              inr (inl (active, e, (eq_iff active.lease_id claim.lease_id).0 same, ground arith))
          | inr differs ↦
              let held : Result.◌>>=◌ (lease_expired store active.expires_at instant)
                    (λ expired. if not expired then ok (some (busy current)) else ok none)
                  ≡ ok (some d) =
                sym (rw (e, differs) refl) ∙ h in
              let (expired, h1, k1) =
                >>=-eq-ok (lease_expired store active.expires_at instant) _ held in
              let (expiry, a, now, b, c) = lease_expired-ok active.expires_at instant expired h1 in
              inr (
                inr (
                  active,
                  e,
                  other active.lease_id claim.lease_id differs,
                  expiry,
                  a,
                  now,
                  b,
                  ground arith,
                  ground arith,
                ))
        ]
