-- ===== src/Adapter/Recorded.antt =====
-- Which stored batches answer a claim: crates/service-eventlog/src/lib.rs, `recorded_intent`.
use service_sdk.Base.{
  ℕ, ◌+◌, ◌≤◌, ◌<◌, String, Bool, true, false, ◌≡◌, ◌⊎◌, inl, inr, refl, sym, ap, ◌∙◌, subst,
  Option, none, some, List, [], ◌∷◌, map, ◌==◌, length, head?, option_eq, option_eq_iff, eq_iff,
  arith, if◌then◌else◌,
}
use service_sdk.Base.Result.{
  Result, ok, err, ok_or, ◌>>◌, map_err, >>=-eq-ok, ok_or-eq-ok, map_err-eq-ok,
}
use service_sdk.Codec.{decode_stream_id}
use service_sdk.Engine.{DomainEvent, Json}
use service_sdk.Engine.Ports.{ResourceError, refused, IntentClaimRequest, RecordedIntent}
use service_sdk.Adapter.{
  RecordedEvent, stream_type_of, counted, other_key, misplaced, foreign, domain_events,
  recorded_intent,
}

-- Events of one stream, none redacted, each one version behind the one before.
pub data Run {V : Type 0} (first_event : RecordedEvent V)
    : ℕ → List (RecordedEvent V) → Type 0 where
  stop : {n : ℕ} → Run first_event n []
  next :
      {n : ℕ} {event : RecordedEvent V} {events : List (RecordedEvent V)}
      → event.version ≡ n
      → event.is_redacted ≡ false
      → event.tenant ≡ first_event.tenant
      → event.stream_type ≡ first_event.stream_type
      → event.stream_id ≡ first_event.stream_id
      → Run first_event (n + 1) events
      → Run first_event n (event ∷ events)

module _ {V : Type 0} (json : Json V) (max_events : ℕ) where
  guarded :
      (b : Bool) {A : Type 0} (k : Result ResourceError A) (a : A)
      → ((if b then err refused else ok tt) >> k) ≡ ok a
      → (b ≡ false) × (k ≡ ok a)
  guarded true k a h = cc
  guarded false k a h = (refl, h)

  domain_events-Run :
      (first_event : RecordedEvent V) (n : ℕ) (events : List (RecordedEvent V))
      (decided : List (DomainEvent V))
      → domain_events json max_events first_event n events ≡ ok decided
      → Run first_event n events × (map (λ e. e.name) decided ≡ map (λ e. e.name) events)
  unfolding domain_events foreign
  domain_events-Run first_event n [] decided h =
      let same : [] ≡ decided = ground arith in (stop, ap (λ es. map (λ e. e.name) es) (sym same))
  domain_events-Run first_event n (event ∷ events) decided h =
      let (own, k) = guarded (foreign json max_events first_event n event) _ decided h in
      let (fields, h1, k1) = >>=-eq-ok (ok_or (json.as_object event.body) refused) _ k in
      let (rest, h2, k2) =
        >>=-eq-ok (domain_events json max_events first_event (n + 1) events) _ k1 in
      let same : (record { name = event.name; fields = fields } ∷ rest) ≡ decided = ground arith in
      let (others, named) = domain_events-Run first_event (n + 1) events rest h2 in
      let types : (event.stream_type == first_event.stream_type) ≡ true = ground arith in
      let tenants : (event.tenant == first_event.tenant) ≡ true = ground arith in
      let ids : (event.stream_id == first_event.stream_id) ≡ true = ground arith in
      (
        next (ground arith) (ground arith) ((eq_iff event.tenant first_event.tenant).0 tenants)
            ((eq_iff event.stream_type first_event.stream_type).0 types)
            ((eq_iff event.stream_id first_event.stream_id).0 ids) others,
        ap (λ es. map (λ e. e.name) es) (sym same) ∙ ap (λ ns. event.name ∷ ns) named,
      )

  -- A batch that answers a claim.
  pub record Answers (claim : IntentClaimRequest) (events : List (RecordedEvent V)) (first last : ℕ)
      (recorded : RecordedIntent V) : Type 0 where
    pub first_event : RecordedEvent V
    pub same_tenant : first_event.tenant ≡ claim.tenant
    pub same_type : first_event.stream_type ≡ stream_type_of claim.service
    pub decoded :
        decode_stream_id first_event.stream_id
        ≡ ok (claim.realm, claim.category, recorded.stream.key)
    pub own_key : (claim.stream_key ≡ none) ⊎ (claim.stream_key ≡ some recorded.stream.key)
    pub run : Run first_event first events
    pub positive : 0 < first
    pub whole : first + length events ≡ last + 1
    pub few : length events ≤ max_events
    pub own_tenant : recorded.stream.tenant ≡ claim.tenant
    pub own_realm : recorded.stream.realm ≡ claim.realm
    pub own_events : map (λ e. e.name) recorded.events ≡ map (λ e. e.name) events
    pub own_fields : domain_events json max_events first_event first events ≡ ok recorded.events
    pub own_version : recorded.through_version ≡ last

  key_of :
      (o : Option String) (key : String) → other_key o key ≡ false → (o ≡ none) ⊎ (o ≡ some key)
  key_of none key h = inl refl
  key_of (some expected) key h =
      let same : (expected == key) ≡ true = ground arith in
      inr (ap (λ k. some k) ((eq_iff expected key).0 same))

  same_recorded :
      (r r' : RecordedIntent V)
      → ◌≡◌ {A = Result ResourceError (RecordedIntent V)} (ok r) (ok r')
      → r ≡ r'
  same_recorded r r' h = ground arith

  counted_lem : (first last count : ℕ) → counted first last ≡ some count → first + count ≡ last + 1
  unfolding counted
  counted_lem first last count h = ground arith

  fitting :
      (claim : IntentClaimRequest) (events : List (RecordedEvent V)) (first count : ℕ)
      (first_event : RecordedEvent V) (realm : Option String) (category key : String)
      → misplaced json max_events claim events first count first_event realm category key ≡ false
      → (0 < first)
        × (length events ≤ max_events)
        × (count ≡ length events)
        × (first_event.tenant ≡ claim.tenant)
        × (first_event.stream_type ≡ stream_type_of claim.service)
        × (realm ≡ claim.realm)
        × (category ≡ claim.category)
        × ((claim.stream_key ≡ none) ⊎ (claim.stream_key ≡ some key))
  unfolding misplaced
  fitting claim events first count first_event realm category key h =
      let tenants : (first_event.tenant == claim.tenant) ≡ true = ground arith in
      let types : (first_event.stream_type == stream_type_of claim.service) ≡ true = ground arith in
      let realms : option_eq realm claim.realm ≡ true = ground arith in
      let categories : (category == claim.category) ≡ true = ground arith in
      (
        ground arith,
        ground arith,
        ground arith,
        (eq_iff first_event.tenant claim.tenant).0 tenants,
        (eq_iff first_event.stream_type (stream_type_of claim.service)).0 types,
        (option_eq_iff realm claim.realm).0 realms,
        (eq_iff category claim.category).0 categories,
        key_of claim.stream_key key (ground arith),
      )

  -- A stored batch answers a claim only if it lies in the tenant, the service, the realm and the
  -- category of the claim, and in its stream if it names one; is unbroken from the first to the last
  -- version, within one stream, without a redaction and not larger than one append; and what is
  -- answered are its events under the version of its last one.
  pub recorded_intent-Answers :
      (claim : IntentClaimRequest) (events : List (RecordedEvent V)) (first last : ℕ)
      (recorded : RecordedIntent V)
      → recorded_intent json max_events claim events first last ≡ ok recorded
      → Answers claim events first last recorded
  unfolding recorded_intent misplaced
  recorded_intent-Answers claim events first last recorded h =
      let (first_event, h1, k1) = >>=-eq-ok (ok_or (head? events) refused) _ h in
      let (identity, h2, k2) =
        >>=-eq-ok (map_err (λ _. refused) (decode_stream_id first_event.stream_id)) _ k1 in
      let (count, h3, k3) = >>=-eq-ok (ok_or (counted first last) refused) _ k2 in
      let (fits, k4) =
        guarded
          (misplaced json max_events claim events first count first_event identity.0 identity.1
            identity.2)
          _ recorded k3 in
      let (decided, h5, k5) =
        >>=-eq-ok (domain_events json max_events first_event first events) _ k4 in
      let (positive, few, size, tenants, types, realms, categories, own_key) =
        fitting claim events first count first_event identity.0 identity.1 identity.2 fits in
      let (run, named) = domain_events-Run first_event first events decided h5 in
      let span = counted_lem first last count (ok_or-eq-ok (counted first last) refused h3) in
      let read = map_err-eq-ok (λ _. refused) (decode_stream_id first_event.stream_id) h2 in
      subst (λ r. Answers claim events first last r) (same_recorded _ recorded k5)
        (record {
          first_event = first_event;
          same_tenant = tenants;
          same_type = types;
          decoded =
              read
              ∙ ap (λ r. ok (r, identity.1, identity.2)) realms
              ∙ ap (λ c. ok (claim.realm, c, identity.2)) categories;
          own_key = own_key;
          run = run;
          positive = positive;
          whole = omega (arith, span, size);
          few = few;
          own_tenant = refl;
          own_realm = realms;
          own_events = named;
          own_fields = h5;
          own_version = refl;
        })

  -- The number of events of a batch that answers.
  pub counted-recorded :
      (claim : IntentClaimRequest) (events : List (RecordedEvent V)) (first last : ℕ)
      (recorded : RecordedIntent V)
      → recorded_intent json max_events claim events first last ≡ ok recorded
      → counted first last ≡ some (length events)
  unfolding recorded_intent
  counted-recorded claim events first last recorded h =
      let (first_event, h1, k1) = >>=-eq-ok (ok_or (head? events) refused) _ h in
      let (identity, h2, k2) =
        >>=-eq-ok (map_err (λ _. refused) (decode_stream_id first_event.stream_id)) _ k1 in
      let (count, h3, k3) = >>=-eq-ok (ok_or (counted first last) refused) _ k2 in
      let (fits, k4) =
        guarded
          (misplaced json max_events claim events first count first_event identity.0 identity.1
            identity.2)
          _ recorded k3 in
      let (positive, few, size, tenants, types, realms, categories, own_key) =
        fitting claim events first count first_event identity.0 identity.1 identity.2 fits in
      ok_or-eq-ok (counted first last) refused h3 ∙ ap (λ n. some n) size
