-- ===== src/Engine/Replay.antt =====
-- The fold of a whole history: crates/service-engine/src/lib.rs, `fold`, and the events that
-- `apply_projection_event` applies one at a time.
use service_sdk.Base.{
  ℕ, ◌+◌, ◌≡◌, refl, sym, ap, ◌∙◌, inl, inr, true, false, List, [], ◌∷◌, ◌++◌, length, arith, not,
  ◌||◌, eqb,
}
use service_sdk.Base.Maps.{Map}
use service_sdk.Base.Result.{Result, ok, err, Result-cases, ◌>>=◌}
use service_sdk.Engine.{
  StoredEvent, LoadedStream, ReducerPlan, ProjectionState, Json, reduce, reduce_all, fold,
  last_version, misnumbered, ExecutionError,
}

eqb-same : (n : ℕ) → eqb n n ≡ true
eqb-same n = ground arith

module _ {V : Type 0} (json : Json V) (reducers : Map ReducerPlan) where
  abbrev pub empty : ProjectionState V
  empty = record { entities = [] }

  last_version-append :
      (events : List (StoredEvent V)) (stored : StoredEvent V)
      → last_version json (events ++ (stored ∷ [])) ≡ stored.version
  last_version-append [] stored = refl
  last_version-append (e ∷ []) stored = refl
  last_version-append (e ∷ f ∷ events) stored = last_version-append (f ∷ events) stored

  pub last_version-misnumbered :
      (n : ℕ) (e : StoredEvent V) (events : List (StoredEvent V))
      → misnumbered json n (e ∷ events) ≡ false
      → last_version json (e ∷ events) ≡ n + 1 + length events
  unfolding misnumbered
  last_version-misnumbered n e [] h = ground arith
  last_version-misnumbered n e (f ∷ events) h =
      ground (arith, last_version-misnumbered (n + 1) f events)

  misnumbered-append :
      (n : ℕ) (events : List (StoredEvent V)) (stored : StoredEvent V)
      → misnumbered json n events ≡ false
      → stored.version ≡ n + length events + 1
      → misnumbered json n (events ++ (stored ∷ [])) ≡ false
  unfolding misnumbered
  misnumbered-append n [] stored h v = ground arith
  misnumbered-append n (e ∷ events) stored h v =
      ground (arith, misnumbered-append (n + 1) events stored)

  bind_ok : (r : Result ExecutionError (ProjectionState V)) → (r >>= λ s. ok s) ≡ r
  bind_ok (ok s) = refl
  bind_ok (err e) = refl

  pub same_state :
      (s t : ProjectionState V)
      → ◌≡◌ {A = Result ExecutionError (ProjectionState V)} (ok s) (ok t)
      → s ≡ t
  same_state s t h = ground arith

  reduce_all-append :
      (state state' : ProjectionState V) (events : List (StoredEvent V)) (stored : StoredEvent V)
      → reduce_all json reducers state events ≡ ok state'
      → reduce_all json reducers state (events ++ (stored ∷ []))
        ≡ reduce json reducers state' stored.event
  unfolding reduce_all
  reduce_all-append state state' [] stored h =
      bind_ok (reduce json reducers state stored.event)
      ∙ ap (λ s. reduce json reducers s stored.event) (same_state state state' h)
  reduce_all-append state state' (e ∷ events) stored h =
      elim (Result-cases (reduce json reducers state e.event)) [
        | inl (next, p) ↦ rw p (reduce_all-append next state' events stored (rw p at h))
        | inr (x, p) ↦ absurd (ground arith)
      ]

  -- A history that folds has as many events as its version says.
  pub numbered :
      (history : LoadedStream V) (state : ProjectionState V)
      → fold json reducers history ≡ ok state
      → (misnumbered json 0 history.events ≡ false)
        × (history.version ≡ length history.events)
        × (reduce_all json reducers empty history.events ≡ ok state)
  unfolding fold
  numbered history state h =
      let good : (not (eqb (last_version json history.events) history.version)
            || misnumbered json 0 history.events)
          ≡ false =
        ground arith in
      let rest : reduce_all json reducers empty history.events ≡ ok state = ground arith in
      (ground arith, counted history.events (ground arith) (ground arith), rest)
    where
      counted :
          (events : List (StoredEvent V))
          → misnumbered json 0 events ≡ false
          → last_version json events ≡ history.version
          → history.version ≡ length events
      counted [] h v = sym v
      counted (e ∷ events) h v = omega (arith, last_version-misnumbered 0 e events h, v)

  -- To fold a history that folds, with one more event of the next version, is to reduce that event on the fold of the rest: a
  -- projector that reduces each new event keeps the state that a fold of the whole history gives.
  pub fold-append :
      (history : LoadedStream V) (stored : StoredEvent V) (state : ProjectionState V)
      → fold json reducers history ≡ ok state
      → stored.version ≡ history.version + 1
      → fold json reducers
          (record { version = stored.version; events = history.events ++ (stored ∷ []) })
        ≡ reduce json reducers state stored.event
  unfolding fold
  fold-append history stored state h v =
      let (good, count, rest) = numbered history state h in
      rw
        (
          last_version-append history.events stored,
          misnumbered-append 0 history.events stored good (omega (arith, v, count)),
          eqb-same stored.version,
        )
        (reduce_all-append empty state history.events stored rest)
