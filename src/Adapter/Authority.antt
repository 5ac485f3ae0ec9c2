-- ===== src/Adapter/Authority.antt =====
-- The owner obligation under verified facts: crates/service-eventlog/src/lib.rs,
-- `VerifiedAuthority`, with crates/service-engine/src/lib.rs, `run_intent_authorization`.
use service_sdk.Base.{
  true, ◌≡◌, ◌⊎◌, inl, inr, refl, sym, ap, subst, Option, none, some, List, [], ◌∷◌, ◌++◌, All,
  all-All, option_eq, option_eq_iff, arith,
}
use service_sdk.Base.Maps.{Map}
use service_sdk.Base.Result.{Result, ok, >>=-eq-ok}
use service_sdk.Base.Action.{pure-eq-ok}
use service_sdk.Runtime.Auth.{VerifiedAuthContext}
use service_sdk.Engine.{EntityValue, ProjectionState, Json, ExecutionError}
use service_sdk.Engine.Ports.{AuthorityCheck, owner_and_scopes, ServiceResources}
use service_sdk.Engine.Obligations.{ObligationUse, bound_entity, bound_value}
use service_sdk.Engine.Obligations.Authorization.{
  owner_check, authority_check, run_intent_authorization,
}
use service_sdk.Engine.Obligations.Authorization.Allowed.{
  Allowed, unasked, granted, run_intent_authorization-Allowed,
}
use service_sdk.Adapter.{AuthorityFacts, axis_allowed, all_axes, scopes_allowed, verified_allows}

module _ {W V : Type 0} (json : Json V) (base : ServiceResources W V) (facts : AuthorityFacts) where
  -- Resources whose authority is `VerifiedAuthority`.
  abbrev pub verified : ServiceResources W V
  verified = record base {
    allowed = λ context check w. (ok (verified_allows json facts context check), w);
  }

  asked :
      (context : VerifiedAuthContext) (state : ProjectionState V) (command : Map V)
      (before after : List ObligationUse) (obligation : ObligationUse) (w w' : W)
      → Allowed json verified context state command (before ++ (obligation ∷ after)) w w'
      → (authority_check json verified state command obligation ≡ ok none)
        ⊎ ((check : AuthorityCheck V) × (authority_check json verified state command obligation
              ≡ ok (some check))
            × (verified_allows json facts context check ≡ true))
  asked context state command [] after obligation w w' (unasked p rest) = inl p
  asked context state command [] after obligation w w' (granted {w1 = w1} check p said rest) =
      inr (check, p, (pure-eq-ok (verified_allows json facts context check) true w w1 said).0)
  asked context state command (o ∷ before) after obligation w w' (unasked p rest) =
      asked context state command before after obligation w w' rest
  asked context state command (o ∷ before) after obligation w w'
        (granted {w1 = w1} check p said rest) =
      asked context state command before after obligation w1 w' rest

  at_owner :
      (state : ProjectionState V) (command : Map V) (obligation : ObligationUse)
      (r : Result ExecutionError (Option (AuthorityCheck V)))
      → obligation.provider ≡ "sdk.auth.owner-and-conjunctive-scopes/v1"
      → authority_check json verified state command obligation ≡ r
      → owner_check json verified state obligation ≡ r
  unfolding authority_check
  at_owner state command obligation r h k =
      subst (λ o. owner_check json verified state o ≡ r)
        (ap (λ p. record obligation { provider = p }) (sym h)) (rw h at k)

  -- Who may act on an entity that has an owner: the entity's owner is the caller's authority, and
  -- each axis of its scopes is one that the verified facts allow.
  pub record OwnerVerified (context : VerifiedAuthContext) (state : ProjectionState V)
      (obligation : ObligationUse) : Type 0 where
    pub entity : EntityValue V
    pub bound : bound_entity json state obligation "owner" ≡ ok entity
    pub owner : V
    pub own_owner : bound_value json entity obligation "owner" ≡ ok owner
    pub same_authority : json.as_str owner ≡ some context.authority
    pub scopes : V
    pub own_scopes : bound_value json entity obligation "scopes" ≡ ok scopes
    pub axes : Map V
    pub object : json.as_object scopes ≡ some axes
    pub all_allowed : All (λ axis. axis_allowed json facts axis ≡ true) axes

  axes_of :
      (scopes : Option (Map V))
      → all_axes json facts scopes ≡ true
      → (axes : Map V) × (scopes ≡ some axes)
        × All (λ axis. axis_allowed json facts axis ≡ true) axes
  axes_of none h = cc
  axes_of (some axes) h = (axes, refl, all-All (λ axis. axis_allowed json facts axis) axes h)

  owner_lem :
      (context : VerifiedAuthContext) (state : ProjectionState V) (obligation : ObligationUse)
      (check : AuthorityCheck V)
      → owner_check json verified state obligation ≡ ok (some check)
      → verified_allows json facts context check ≡ true
      → OwnerVerified context state obligation
  unfolding owner_check verified_allows scopes_allowed
  owner_lem context state obligation check h k =
      let (entity, h1, k1) = >>=-eq-ok (bound_entity json state obligation "owner") _ h in
      let (owner, h2, k2) = >>=-eq-ok (bound_value json entity obligation "owner") _ k1 in
      let (scopes, h3, k3) = >>=-eq-ok (bound_value json entity obligation "scopes") _ k2 in
      let same : owner_and_scopes owner scopes ≡ check = ground arith in
      let both = subst (λ c. verified_allows json facts context c ≡ true) (sym same) k in
      let owners : option_eq (json.as_str owner) (some context.authority) ≡ true = ground arith in
      let (axes, object, allowed) = axes_of (json.as_object scopes) (ground arith) in
      record {
        entity = entity;
        bound = h1;
        owner = owner;
        own_owner = h2;
        same_authority = (option_eq_iff (json.as_str owner) (some context.authority)).0 owners;
        scopes = scopes;
        own_scopes = h3;
        axes = axes;
        object = object;
        all_allowed = allowed;
      }

  -- Under the verified authority, an intent with the obligation of owner and scopes is authorized
  -- only for a caller whose authority is the owner of the entity that the obligation binds, and
  -- only if the scopes of that entity are an object each axis of which the verified facts allow.
  pub run_intent_authorization-OwnerVerified :
      (context : VerifiedAuthContext) (state : ProjectionState V) (command : Map V)
      (before after : List ObligationUse) (obligation : ObligationUse) (w w' : W)
      → obligation.provider ≡ "sdk.auth.owner-and-conjunctive-scopes/v1"
      → ◌≡◌ {A = Result ExecutionError (Unit {0}) × W}
          (run_intent_authorization json verified context state command
            (before ++ (obligation ∷ after))
            w)
          (ok tt, w')
      → OwnerVerified context state obligation
  unfolding owner_check
  run_intent_authorization-OwnerVerified context state command before after obligation w w' p h =
      elim (asked context state command before after obligation w w' (
        (run_intent_authorization-Allowed json verified context state command
            (before ++ (obligation ∷ after)) w w').0
          h)) [
            | inl none_asked ↦
                absurd (
                  never state obligation (at_owner state command obligation (ok none) p none_asked))
            | inr (check, q, said) ↦
                owner_lem context state obligation check
                  (at_owner state command obligation (ok (some check)) p q) said
          ]
    where
      never :
          (state : ProjectionState V) (obligation : ObligationUse)
          → owner_check json verified state obligation ≡ ok none
          → ⊥
      never state obligation h =
          let (entity, h1, k1) = >>=-eq-ok (bound_entity json state obligation "owner") _ h in
          let (owner, h2, k2) = >>=-eq-ok (bound_value json entity obligation "owner") _ k1 in
          let (scopes, h3, k3) = >>=-eq-ok (bound_value json entity obligation "scopes") _ k2 in
          absurd (ground arith)
