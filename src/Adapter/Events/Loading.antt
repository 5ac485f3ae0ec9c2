-- ===== src/Adapter/Events/Loading.antt =====
-- Loading a stream in pages gives its whole history: crates/service-eventlog/src/lib.rs,
-- `EventlogEvents::load`.
use service_sdk.Base.{
  ℕ, zero, suc, ◌+◌, ◌-◌, ◌≤◌, ◌<◌, ◌≡◌, refl, sym, ap, ◌∙◌, Bool, true, false, Option, none, some,
  List, [], ◌∷◌, ◌++◌, leb, length, take, drop, take-all, take-append-drop, length-drop,
  length-take-le, drop-drop, Bool-cases, inl, inr, arith,
}
use service_sdk.Base.Result.{Result, ok, err, ◌>>=◌, ok_or, Result-cases, >>=-eq-ok}
use service_sdk.Base.Action
use service_sdk.Base.Action.{pure, lift}
use service_sdk.Codec.{DurableStream}
use service_sdk.Base.Maps.{Map}
use service_sdk.Engine.{
  StoredEvent, LoadedStream, ReducerPlan, Json, last_version, misnumbered, reduce_all, fold,
}
use service_sdk.Engine.Replay.{last_version-misnumbered}
use service_sdk.Engine.Ports.{ResourceError, refused, ServiceStream}
use service_sdk.Adapter.{RecordedEvent}
use service_sdk.Adapter.Store.{DurableEventStore, Serde, durable_stream}
use service_sdk.Adapter.Reads.{Numbered, IsReadable, Numbered-drop, Numbered-take}
use service_sdk.Effect.Journal.Load.{page}
use service_sdk.Adapter.Events.{last_after, stored_events, load_pages, load}

leb→le : (a b : ℕ) → leb a b ≡ true → a ≤ b
leb→le a b h = ground arith

lt_of_leb : (a b : ℕ) → leb a b ≡ false → b < a
lt_of_leb a b h = ground arith

pub page-pos : 0 < page
unfolding page
page-pos = omega arith

pub last_after-append :
    {V : Type 0} (after : ℕ) (xs ys : List (RecordedEvent V))
    → last_after after (xs ++ ys) ≡ last_after (last_after after xs) ys
last_after-append after [] ys = refl
last_after-append after (x ∷ xs) ys = last_after-append x.version xs ys

pub last_after-Numbered :
    {V : Type 0} (n : ℕ) (es : List (RecordedEvent V))
    → Numbered n es
    → last_after n es ≡ n + length es
last_after-Numbered n [] h = omega arith
last_after-Numbered n (e ∷ es) h =
    ap (λ k. last_after k es) h.0 ∙ last_after-Numbered (n + 1) es h.1 ∙ omega arith

module _ {V : Type 0} (json : Json V) where
  -- The history that recorded events stand for: their bodies' fields, under the version of the
  -- last one.
  abbrev pub history_from : ℕ → List (RecordedEvent V) → Result ResourceError (LoadedStream V)
  history_from after events = stored_events json events >>= λ es.
      ok (record { version = last_after after events; events = es })

  first_of_append :
      {F A : Type 0} (o : Option F) (r s : Result ResourceError (List A)) (make : F → A)
      → (ok_or o refused >>= λ f.
          (r >>= λ es. s >>= λ fs. ok (es ++ fs)) >>= λ rest. ok (make f ∷ rest))
        ≡ ((ok_or o refused >>= λ f. r >>= λ rest. ok (make f ∷ rest)) >>= λ es.
            s >>= λ fs. ok (es ++ fs))
  first_of_append none r s make = refl
  first_of_append (some f) (err e) s make = refl
  first_of_append (some f) (ok es) (err e) make = refl
  first_of_append (some f) (ok es) (ok fs) make = refl

  nil_append : {A : Type 0} (s : Result ResourceError (List A)) → s ≡ (s >>= λ fs. ok ([] ++ fs))
  nil_append (err e) = refl
  nil_append (ok fs) = refl

  pub stored_events-append :
      (xs ys : List (RecordedEvent V))
      → stored_events json (xs ++ ys)
        ≡ (stored_events json xs >>= λ es. stored_events json ys >>= λ fs. ok (es ++ fs))
  unfolding stored_events
  stored_events-append [] ys = nil_append (stored_events json ys)
  stored_events-append (x ∷ xs) ys = rw (stored_events-append xs ys) (
      first_of_append (json.as_object x.body) (stored_events json xs) (stored_events json ys)
        (λ fields. record {
          version = x.version;
          event = record { name = x.name; fields = fields };
        }))

  -- Events in front of the history that is read behind them.
  abbrev behind :
      Result ResourceError (LoadedStream V)
      → List (StoredEvent V)
      → Result ResourceError (LoadedStream V)
  behind r es = r >>= λ rest. ok (record rest { events = es ++ rest.events })

  -- A page and the rest behind it.
  pub history_from-append :
      (after : ℕ) (xs ys : List (RecordedEvent V))
      → history_from after (xs ++ ys)
        ≡ (stored_events json xs >>= behind (history_from (last_after after xs) ys))
  history_from-append after xs ys =
      rw (stored_events-append xs ys, last_after-append after xs ys)
        (go (stored_events json xs) (stored_events json ys) (last_after (last_after after xs) ys))
    where
      go :
          (r s : Result ResourceError (List (StoredEvent V))) (n : ℕ)
          → ◌≡◌ {A = Result ResourceError (LoadedStream V)}
              ((r >>= λ es. s >>= λ fs. ok (es ++ fs)) >>= λ es.
                ok (record { version = n; events = es }))
              (r >>= behind (s >>= λ fs. ok (record { version = n; events = fs })))
      go (err e) s n = refl
      go (ok es) (err e) n = refl
      go (ok es) (ok fs) n = refl

  Numbered-stored :
      (n : ℕ) (es : List (RecordedEvent V)) (fs : List (StoredEvent V))
      → Numbered n es
      → stored_events json es ≡ ok fs
      → (misnumbered json n fs ≡ false) × (length fs ≡ length es)
  unfolding stored_events misnumbered
  Numbered-stored n [] fs h k = let same : [] ≡ fs = ground arith in rw (← same) (refl, refl)
  Numbered-stored n (e ∷ es) fs h k =
      let (fields, k1, r1) = >>=-eq-ok (ok_or (json.as_object e.body) refused) _ k in
      let (rest, k2, r2) = >>=-eq-ok (stored_events json es) _ r1 in
      let same : (record { version = e.version; event = record { name = e.name; fields = fields } }
            ∷ rest)
          ≡ fs =
        ground arith in
      let (clean, size) = Numbered-stored (n + 1) es rest h.1 k2 in
      let own : e.version ≡ n + 1 = h.0 in rw (← same) (ground arith, omega (arith, size))

  last-stored :
      (fs : List (StoredEvent V)) → misnumbered json 0 fs ≡ false → last_version json fs ≡ length fs
  last-stored [] h = refl
  last-stored (f ∷ fs) h = last_version-misnumbered json [] 0 f fs h ∙ omega arith

  -- The engine takes what was loaded from a numbered stream.
  taken :
      (es : List (RecordedEvent V)) (history : LoadedStream V) (reducers : Map ReducerPlan)
      → Numbered 0 es
      → history_from 0 es ≡ ok history
      → (history.version ≡ length es)
        × (length history.events ≡ length es)
        × (fold json reducers history
            ≡ reduce_all json reducers (record { entities = [] }) history.events)
  unfolding fold
  taken es history reducers h k =
      let (fs, k1, r1) = >>=-eq-ok (stored_events json es) _ k in
      let same : record { version = last_after 0 es; events = fs } ≡ history = ground arith in
      let (clean, size) = Numbered-stored 0 es fs h k1 in
      let whole : last_after 0 es ≡ length es = last_after-Numbered 0 es h ∙ omega arith in
      let last = last-stored fs clean in rw (← same) (whole, size, ground arith)

module _ {W V : Type 0} (json : Json V) (serde : Serde V) (store : DurableEventStore W V)
    (max_events max_read : ℕ) (content : W → DurableStream → List (RecordedEvent V))
    (readable : IsReadable store max_read content) (large : page ≤ max_read) (w : W)
    (s : DurableStream) where
  abbrev Loads : ℕ → ℕ → Type 0
  Loads fuel after =
      load_pages json serde store max_events max_read fuel s after w
      ≡ (history_from json after (drop after (content w s)), w)

  -- What a round does with the page that it read.
  abbrev round :
      ℕ → ℕ → List (RecordedEvent V) → Bool → ℕ → Result ResourceError (LoadedStream V) × W
  round fuel after events end_of_stream next =
      Action.◌>>=◌ (lift (stored_events json events))
        (λ es. elim end_of_stream [
          | true ↦ pure (record { version = last_after after events; events = es })
          | false ↦
              Action.◌>>=◌ (load_pages json serde store max_events max_read fuel s (next - 1))
                (λ rest. pure (record rest { events = es ++ rest.events }))
        ])
        w

  step :
      (fuel after : ℕ)
      → load_pages json serde store max_events max_read (suc fuel) s after w
        ≡ round fuel after
            (take page (drop after (content w s)))
            (leb (length (content w s)) (after + page))
            (after + length (take page (drop after (content w s))) + 1)
  unfolding load_pages
  step fuel after = rw (readable.reads w s after page large) refl

  last_round :
      (fuel after next : ℕ) (events : List (RecordedEvent V))
      → round fuel after events true next ≡ (history_from json after events, w)
  last_round fuel after next events = elim (Result-cases (stored_events json events)) [
    | inl (es, e) ↦ rw e refl
    | inr (error, e) ↦ rw e refl
  ]

  later_round :
      (fuel after next : ℕ) (events : List (RecordedEvent V))
      (r : Result ResourceError (LoadedStream V))
      → load_pages json serde store max_events max_read fuel s (next - 1) w ≡ (r, w)
      → round fuel after events false next ≡ (stored_events json events >>= behind json r, w)
  later_round fuel after next events r h = elim (Result-cases (stored_events json events)) [
    | inr (error, e) ↦ rw e refl
    | inl (es, e) ↦ elim (Result-cases r) [
      | inl (rest, k) ↦ rw (e, h, k) refl
      | inr (error, k) ↦ rw (e, h, k) refl
    ]
  ]

  last_page :
      (fuel after : ℕ) → leb (length (content w s)) (after + page) ≡ true → Loads (suc fuel) after
  last_page fuel after ended =
      let rest = drop after (content w s) in
      let all_taken : take page rest ≡ rest =
        take-all page rest (omega (arith, length-drop after (content w s), leb→le _ _ ended)) in
      step fuel after
      ∙ ap (λ b. round fuel after (take page rest) b (after + length (take page rest) + 1)) ended
      ∙ last_round fuel after (after + length (take page rest) + 1) (take page rest)
      ∙ ap (λ es. (history_from json after es, w)) all_taken

  -- A page that is not the last one is full; the loop goes on behind it.
  full_page :
      (fuel after : ℕ)
      → leb (length (content w s)) (after + page) ≡ false
      → Loads fuel (after + page)
      → Loads (suc fuel) after
  full_page fuel after more next =
      let rest = drop after (content w s) in
      let len_rest = length-drop after (content w s) in
      let full : length (take page rest) ≡ page =
        length-take-le page rest (omega (arith, len_rest, lt_of_leb _ _ more)) in
      let there : last_after after (take page rest) ≡ after + page =
        last_after-Numbered after (take page rest) (
          Numbered-take page after rest (
            Numbered-drop after 0 after (content w s) (omega arith)
              (omega (arith, lt_of_leb _ _ more)) (readable.numbered w s)))
        ∙ ap (λ n. after + n) full in
      let back : after + length (take page rest) + 1 - 1 ≡ after + page = omega (arith, full) in
      step fuel after
      ∙ ap (λ b. round fuel after (take page rest) b (after + length (take page rest) + 1)) more
      ∙ later_round fuel after (after + length (take page rest) + 1) (take page rest)
          (history_from json (after + page) (drop (after + page) (content w s))) (rw back next)
      ∙ ap (λ r. (r, w))
          (ap
              (λ n.
                stored_events json (take page rest)
                >>= behind json (history_from json n (drop (after + page) (content w s))))
              (sym there)
            ∙ ap
                (λ es.
                  stored_events json (take page rest)
                  >>= behind json (history_from json (last_after after (take page rest)) es))
                (sym (drop-drop after page (content w s)))
            ∙ sym (history_from-append json after (take page rest) (drop page rest))
            ∙ ap (λ es. history_from json after es) (take-append-drop page rest))

  -- The loop, from any place in the stream.
  load_pages_lem :
      (fuel after : ℕ)
      → after ≤ length (content w s)
      → length (content w s) - after < fuel
      → Loads fuel after
  load_pages_lem zero after le lt = absurd (omega arith)
  load_pages_lem (suc fuel) after le lt =
      elim (Bool-cases (leb (length (content w s)) (after + page))) [
        | inl ended ↦ last_page fuel after ended
        | inr more ↦ full_page fuel after more (
            load_pages_lem fuel (after + page) (omega (arith, lt_of_leb _ _ more))
              (omega (arith, lt_of_leb _ _ more, page-pos)))
      ]

  -- Over a log that reads as documented, with more rounds than the stream has events: loading a
  -- stream ends, changes nothing and gives the whole history of the stream, under its number of
  -- events as the version; and the engine folds what was loaded by reducing every event of it in
  -- order, since no loaded history is refused as misnumbered.
  pub load-fold :
      (fuel : ℕ) (stream : ServiceStream) (reducers : Map ReducerPlan)
      → durable_stream store stream ≡ ok s
      → length (content w s) < fuel
      → (load json serde store max_events max_read fuel stream w
          ≡ (history_from json 0 (content w s), w))
        × ((history : LoadedStream V)
            → history_from json 0 (content w s) ≡ ok history
            → (history.version ≡ length (content w s))
              × (length history.events ≡ length (content w s))
              × (fold json reducers history
                  ≡ reduce_all json reducers (record { entities = [] }) history.events))
  unfolding load
  load-fold fuel stream reducers named enough = (
    rw named (load_pages_lem fuel 0 (omega arith) (omega arith)),
    λ history h. taken json (content w s) history reducers (readable.numbered w s) h,
  )
