-- ===== src/Runtime/History/Gapless.antt =====
-- Which histories `validate` admits.
use service_sdk.Base.{
  ℕ, ◌+◌, ◌<◌, ◌≡◌, refl, ◌↔◌, true, none, some, List, [], ◌∷◌, All, length, arith, eq_iff,
  option_eq_iff,
}
use service_sdk.Base.Decimal.{u64_limit}
use service_sdk.Base.Result.{ok}
use service_sdk.Runtime.Stream.{StreamId, stream_eq, checked_next}
use service_sdk.Runtime.History.{
  EventEnvelope, EventHistory, validate, validate_from, last_version, current_version,
}

pub stream_eq_iff : (a b : StreamId) → (stream_eq a b ≡ true) ↔ (a ≡ b)
unfolding stream_eq
stream_eq_iff a b = ground (
  arith,
  eq_iff a.service b.service,
  eq_iff a.tenant b.tenant,
  option_eq_iff a.realm b.realm,
  eq_iff a.category b.category,
  eq_iff a.key b.key,
)

module _ {E : Type 0} where
  -- The versions count up from `n`.
  abbrev pub CountsFrom : ℕ → List (EventEnvelope E) → Type 0
  CountsFrom n [] = Unit
  CountsFrom n (e ∷ events) = (e.version ≡ n) × CountsFrom (n + 1) events

  validate_from_iff :
      (s : StreamId) (n : ℕ) (events : List (EventEnvelope E))
      → n < u64_limit
      → (validate_from s n events ≡ ok tt)
        ↔ (All (λ e. e.stream ≡ s) events × CountsFrom n events × (n + length events < u64_limit))
  unfolding validate_from checked_next
  validate_from_iff s n [] h = ground arith
  validate_from_iff s n (e ∷ events) h =
      ground (arith, stream_eq_iff e.stream s, validate_from_iff s (n + 1) events)

  -- A history is admitted exactly when every envelope is of the history's stream, the versions
  -- are 1, 2, 3, … without a gap, and the version after the last one is still a `u64`.
  pub validate_iff :
      (h : EventHistory E)
      → (validate h ≡ ok tt) ↔ (
          All (λ e. e.stream ≡ h.stream) h.events
          × CountsFrom 1 h.events
          × (1 + length h.events < u64_limit))
  unfolding validate
  validate_iff h = validate_from_iff h.stream 1 h.events (omega arith)

  last_version-CountsFrom :
      (n : ℕ) (e : EventEnvelope E) (events : List (EventEnvelope E))
      → CountsFrom n (e ∷ events)
      → last_version (e ∷ events) ≡ some (n + length events)
  last_version-CountsFrom n e [] (p, _) = ground arith
  last_version-CountsFrom n e (f ∷ events) (_, h) =
      ground (arith, last_version-CountsFrom (n + 1) f events h)

  -- The current version of an admitted history is the number of its events.
  pub current_version-validate :
      (h : EventHistory E) → validate h ≡ ok tt → current_version h ≡ length h.events
  unfolding current_version
  current_version-validate h v = counted h.events ((validate_iff h).0 v).1
    where
      counted :
          (events : List (EventEnvelope E))
          → CountsFrom 1 events
          → elim (last_version events) [ none ↦ 0 | some v ↦ v ] ≡ length events
      counted [] c = refl
      counted (e ∷ events) c = ground (arith, last_version-CountsFrom 1 e events c)
