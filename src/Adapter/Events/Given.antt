-- ===== src/Adapter/Events/Given.antt =====
-- What a load and a committed append of the event log keep: crates/service-eventlog/src/lib.rs,
-- `EventlogEvents::load` and `append`.
use service_sdk.Base.{
  ℕ, zero, suc, ◌+◌, ◌-◌, ◌≤◌, String, Bool, true, false, ◌≡◌, refl, sym, ap, subst, ◌∙◌, Option,
  some, List, [], ◌∷◌, arith, if◌then◌else◌, Bool-cases, inl, inr,
}
use service_sdk.Base.Maps.{Map}
use service_sdk.Base.Result.{
  Result, ok, err, ok_or, map_err, ◌>>◌, >>=-eq-ok, ok_or-eq-ok, map_err-eq-ok,
}
use service_sdk.Base.Action.{lift-eq-ok, step-eq-ok, pure-eq-ok}
use service_sdk.Codec.{DurableStream}
use service_sdk.Effect.Journal.Load.{page}
use service_sdk.Effect.Journal.Store.{Expected, NewEvent}
use service_sdk.Engine.{DomainEvent, LoadedStream, Json}
use service_sdk.Engine.Ports.{ResourceError, refused, ServiceStream}
use service_sdk.Adapter.{RecordedEvent, foreign, domain_events}
use service_sdk.Adapter.Store.{
  DurableEventStore, Serde, CommandMeta, AppendResult, resource, resource-eq-ok, durable_stream,
}
use service_sdk.Adapter.Reads.{IsReadable}
use service_sdk.Adapter.Events.{stored_events, load_pages, load, new_events}

-- The stored events are the given ones.
abbrev pub Given : {V : Type 0} → List (NewEvent V) → List (RecordedEvent V) → Type 0
Given [] [] = Unit
Given (given ∷ gs) (stored ∷ ss) =
    (stored.name ≡ given.name) × (stored.body ≡ given.body) × Given gs ss
Given _ _ = ⊥

-- What the store documents of a batch that is appended and not a repetition, with the JSON objects
-- that are the bodies of its events: they keep what they are made of.
pub record AppendsGiven {W V : Type 0} (json : Json V) (serde : Serde V)
    (store : DurableEventStore W V) : Type 0 where
  pub named :
      (name : String) (version : ℕ) (body : V) (event : NewEvent V)
      → store.new_event name version body ≡ ok event
      → (event.name ≡ name) × (event.body ≡ body)
  pub fields : (m : Map V) → json.as_object (serde.object m) ≡ some m
  pub given :
      (w w' : W) (s : DurableStream) (guard : Expected) (events : List (NewEvent V))
      (meta : CommandMeta) (result : AppendResult V)
      → store.append s guard events meta w ≡ (ok result, w')
      → result.deduplicated ≡ false
      → Given events result.events

module _ {W V : Type 0} (json : Json V) (serde : Serde V) (store : DurableEventStore W V)
    (max_events max_read : ℕ) (content : W → DurableStream → List (RecordedEvent V))
    (readable : IsReadable store max_read content) (large : page ≤ max_read) where
  load_pages-same :
      (fuel : ℕ) (s : DurableStream) (after : ℕ) (w w' : W) (history : LoadedStream V)
      → load_pages json serde store max_events max_read fuel s after w ≡ (ok history, w')
      → w ≡ w'
  unfolding load_pages
  load_pages-same zero s after w w' history h = absurd (ground arith)
  load_pages-same (suc fuel) s after w w' history h =
      let (slice, v, h1, k1) = step-eq-ok (resource (store.read_stream s after page)) _ w h in
      let (events, h2, k2) = lift-eq-ok (stored_events json slice.events) _ v k1 in
      let read = resource-eq-ok (store.read_stream s after page) w v slice h1 in
      let same : w ≡ v = ap (λ p. p.1) (sym (readable.reads w s after page large) ∙ read) in
      same ∙ elim (Bool-cases slice.end_of_stream) [
        | inl ended ↦ (pure-eq-ok _ history v w' (rw ended at k2)).1
        | inr more ↦
            let (rest, u, h3, k3) =
              step-eq-ok
                (load_pages json serde store max_events max_read fuel s (slice.next_version - 1)) _
                v (rw more at k2) in
            load_pages-same fuel s (slice.next_version - 1) v u rest h3
            ∙ (pure-eq-ok _ history u w' k3).1
      ]

  pub load-same :
      (fuel : ℕ) (stream : ServiceStream) (w w' : W) (history : LoadedStream V)
      → load json serde store max_events max_read fuel stream w ≡ (ok history, w')
      → w ≡ w'
  unfolding load
  load-same fuel stream w w' history h =
      let (s, h1, k1) = lift-eq-ok (map_err (λ _. refused) (durable_stream store stream)) _ w h in
      load_pages-same fuel s 0 w w' history k1

list_of_ok :
    {A : Type 0} {xs ys : List A}
    → ◌≡◌ {A = Result ResourceError (List A)} (ok xs) (ok ys)
    → xs ≡ ys
list_of_ok h = cc

some_inj : {A : Type 0} {x y : A} → ◌≡◌ {A = Option A} (some x) (some y) → x ≡ y
some_inj h = cc

refused-ok :
    (b : Bool) {A : Type 0} (k : Result ResourceError A) {a : A}
    → ((if b then err refused else ok tt) >> k) ≡ ok a
    → (b ≡ false) × (k ≡ ok a)
refused-ok true k h = cc
refused-ok false k h = (refl, h)

module _ {W V : Type 0} (json : Json V) (serde : Serde V) (store : DurableEventStore W V)
    (max_events max_read : ℕ) (appends : AppendsGiven json serde store) where
  pub domain_events-Given :
      (first_event : RecordedEvent V) (version : ℕ) (requested : List (DomainEvent V))
      (news : List (NewEvent V)) (stored : List (RecordedEvent V)) (decided : List (DomainEvent V))
      → new_events json serde store max_events max_read requested ≡ ok news
      → Given news stored
      → domain_events json max_events first_event version stored ≡ ok decided
      → decided ≡ requested
  unfolding new_events domain_events
  domain_events-Given first_event version [] news [] decided n g d = ground arith
  domain_events-Given first_event version [] news (e ∷ es) decided n g d =
      absurd (subst (λ ns. Given ns (e ∷ es)) (sym (list_of_ok n)) g)
  domain_events-Given first_event version (event ∷ requested) news stored decided n g d =
      let (new, h1, k1) =
        >>=-eq-ok
          (map_err (λ _. refused) (store.new_event event.name 1 (serde.object event.fields))) _ n in
      let (rest, h2, k2) =
        >>=-eq-ok (new_events json serde store max_events max_read requested) _ k1 in
      let made = appends.named event.name 1 (serde.object event.fields) new (
        map_err-eq-ok (λ _. refused) (store.new_event event.name 1 (serde.object event.fields))
          h1) in
      first new rest made.0 made.1 stored (subst (λ ns. Given ns stored) (sym (list_of_ok k2)) g) d
        (λ es others g' d'.
          domain_events-Given first_event (version + 1) requested rest es others h2 g' d')
    where
      first :
          (new : NewEvent V) (rest : List (NewEvent V))
          → new.name ≡ event.name
          → new.body ≡ serde.object event.fields
          → (stored : List (RecordedEvent V)) → Given (new ∷ rest) stored
          → domain_events json max_events first_event version stored ≡ ok decided
          → ((es : List (RecordedEvent V)) (others : List (DomainEvent V))
              → Given rest es
              → domain_events json max_events first_event (version + 1) es ≡ ok others
              → others ≡ requested)
          → decided ≡ event ∷ requested
      first new rest own_name own_body [] g d later = absurd g
      first new rest own_name own_body (e ∷ es) (name, body, g) d later =
          let (_, k3) = refused-ok (foreign json max_events first_event version e) _ d in
          let (fields, h4, k4) = >>=-eq-ok (ok_or (json.as_object e.body) refused) _ k3 in
          let (others, h5, k5) =
            >>=-eq-ok (domain_events json max_events first_event (version + 1) es) _ k4 in
          let read : json.as_object e.body ≡ some event.fields =
            ap json.as_object (body ∙ own_body) ∙ appends.fields event.fields in
          let same_fields : event.fields ≡ fields =
            some_inj (sym read ∙ ok_or-eq-ok (json.as_object e.body) refused h4) in
          let same_rest = later es others g h5 in
          sym (list_of_ok k5)
          ∙ (λ i. record { name = (name ∙ own_name) i; fields = (sym same_fields) i } ∷ same_rest i)
