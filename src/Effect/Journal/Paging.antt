-- ===== src/Effect/Journal/Paging.antt =====
-- Reading the journal in pages gives the fold of the whole stream.

use service_sdk.Base.{
  String, take-all, is_empty-false, ℕ, zero, suc, ◌+◌, ◌-◌, ◌<◌, ◌≤◌, ◌≡◌, refl, sym, ap, ◌∙◌, true,
  false, ◌&&◌, Option, none, List, [], ◌∷◌, ◌++◌, eqb, leb, is_empty, length, take, drop,
  take-append-drop, length-drop, length-take-le, drop-drop, arith, if◌then◌else◌, Bool-cases, inl,
  inr,
}
use service_sdk.Base.Result.{Result, ok, ◌>>=◌, Result-cases}
use service_sdk.Codec.{DurableStream}
use service_sdk.Effect.Journal.Store.{EffectRecord, EventLogError, RecordedEvent, Slice, Durable}
use service_sdk.Effect.Journal.Load.{
  page, Folding, start, transition, fold_event, fold_events, finish, load_from, load_effect,
}

-- The page of `limit` events behind the first `after`.
abbrev pub slice_of : {V : Type 0} → List (RecordedEvent V) → ℕ → ℕ → Slice V
slice_of events after limit = record {
  events = take limit (drop after events);
  end_of_stream = leb (length events) (after + limit);
  next_version = after + length (take limit (drop after events)) + 1;
}

-- What the event log documents of a read: it changes nothing and returns the events after the
-- given version, at most as many as asked for, with a mark at the end.
pub record IsReadable {W V : Type 0} (store : Durable W V)
    (content : W → DurableStream → List (RecordedEvent V)) : Type 0 where
  pub reads :
      (w : W) (s : DurableStream) (after limit : ℕ)
      → store.read_stream s after limit w ≡ (ok (slice_of (content w s) after limit), w)

leb→le : (a b : ℕ) → leb a b ≡ true → a ≤ b
leb→le a b h = ground arith

lt_of_leb : (a b : ℕ) → leb a b ≡ false → b < a
lt_of_leb a b h = ground arith

page-pos : 0 < page
unfolding page
page-pos = omega arith

module _ {W V : Type 0} (store : Durable W V) where
  -- The record that a journal of these events stands for.
  unfoldable pub replay : List (RecordedEvent V) → Result EventLogError (Option EffectRecord)
  replay [] = ok none
  replay (event ∷ events) = fold_events store start (event ∷ events) >>= finish store

  pub fold_events-append :
      (f : Folding) (xs ys : List (RecordedEvent V))
      → fold_events store f (xs ++ ys) ≡ (fold_events store f xs >>= λ g. fold_events store g ys)
  unfolding fold_events
  fold_events-append f [] ys = refl
  fold_events-append f (x ∷ xs) ys = elim (Result-cases (fold_event store f x)) [
    | inl (g, e) ↦ rw e (fold_events-append g xs ys)
    | inr (error, e) ↦ rw e refl
  ]

  after-transition :
      (f g : Folding) (name : String) (body : V)
      → transition store f name body ≡ ok g
      → g.after ≡ f.after
  after-transition f g name body h = ground arith

  pub after-fold_event :
      (f g : Folding) (e : RecordedEvent V) → fold_event store f e ≡ ok g → g.after ≡ f.after + 1
  unfolding fold_event
  after-fold_event f g e h =
      ground (arith, after-transition (record f { after = e.version }) g e.name e.body)

  pub after-fold_events :
      (f g : Folding) (es : List (RecordedEvent V))
      → fold_events store f es ≡ ok g
      → g.after ≡ f.after + length es
  unfolding fold_events
  after-fold_events f g [] h = ground arith
  after-fold_events f g (e ∷ es) h = elim (Result-cases (fold_event store f e)) [
    | inl (m, p) ↦ omega (arith, after-fold_event f m e p, after-fold_events m g es (rw p at h))
    | inr (error, p) ↦ cc (rw p at h)
  ]

  -- What a load finds from a place in the stream on.
  abbrev from_here : Folding → List (RecordedEvent V) → Result EventLogError (Option EffectRecord)
  from_here f rest =
      if is_empty rest && eqb f.after 0
      then ok none
      else (fold_events store f rest >>= finish store)

  from_here_later :
      (g : Folding) (rest : List (RecordedEvent V))
      → 0 < g.after
      → from_here g rest ≡ (fold_events store g rest >>= finish store)
  from_here_later g rest h = ground arith

  module _ (content : W → DurableStream → List (RecordedEvent V))
      (readable : IsReadable store content) (w : W) (s : DurableStream) where
    last_page :
        (fuel : ℕ) (f : Folding)
        → leb (length (content w s)) (f.after + page) ≡ true
        → load_from store (suc fuel) s f w ≡ (from_here f (drop f.after (content w s)), w)
    unfolding load_from
    last_page fuel f ended =
        let rest = drop f.after (content w s) in
        rw
          (
            readable.reads w s f.after page,
            take-all page rest (omega (arith, length-drop f.after (content w s), leb→le _ _ ended)),
            ended,
          )
          (elim (Result-cases (fold_events store f rest)) [
            | inl (g, e) ↦ ground arith
            | inr (error, e) ↦ ground arith
          ])

    -- A page that is not the last one is full; the loop goes on behind it.
    full_page :
        (fuel : ℕ) (f : Folding)
        → leb (length (content w s)) (f.after + page) ≡ false
        → ((g : Folding)
            → g.after ≡ f.after + page
            → load_from store fuel s g w ≡ (from_here g (drop g.after (content w s)), w))
        → load_from store (suc fuel) s f w ≡ (from_here f (drop f.after (content w s)), w)
    unfolding load_from
    full_page fuel f more next =
        let rest = drop f.after (content w s) in
        let len_rest = length-drop f.after (content w s) in
        let full : length (take page rest) ≡ page =
          length-take-le page rest (omega (arith, len_rest, lt_of_leb _ _ more)) in
        let some_rest : is_empty rest ≡ false =
          is_empty-false rest (omega (arith, len_rest, lt_of_leb _ _ more)) in
        let some_taken : is_empty (take page rest) ≡ false =
          is_empty-false (take page rest) (omega (arith, full, page-pos)) in
        let whole =
          ap (fold_events store f) (sym (take-append-drop page rest))
          ∙ fold_events-append f (take page rest) (drop page rest) in
        rw (readable.reads w s f.after page, some_taken, some_rest, more)
          (elim (Result-cases (fold_events store f (take page rest))) [
            | inr (error, e) ↦ rw (whole, e) refl
            | inl (g, e) ↦
                let there : g.after ≡ f.after + page =
                  after-fold_events f g (take page rest) e ∙ ap (λ n. f.after + n) full in
                let back : f.after + length (take page rest) + 1 - 1 ≡ g.after =
                  omega (arith, there, full) in
                let same : record g { after = f.after + length (take page rest) + 1 - 1 } ≡ g =
                  λ i. record g { after = back i } in
                let rest_after : drop g.after (content w s) ≡ drop page rest =
                  ap (λ n. drop n (content w s)) there
                  ∙ sym (drop-drop f.after page (content w s)) in
                rw (whole, e)
                  (ap (λ h. load_from store fuel s h w) same
                    ∙ next g there
                    ∙ ap (λ r. (from_here g r, w)) rest_after
                    ∙ ap (λ r. (r, w))
                        (from_here_later g (drop page rest) (omega (arith, there, page-pos))))
          ])

    -- The loop, from any place in the stream.
    load_from_lem :
        (fuel : ℕ) (f : Folding)
        → f.after ≤ length (content w s)
        → length (content w s) - f.after < fuel
        → load_from store fuel s f w ≡ (from_here f (drop f.after (content w s)), w)
    load_from_lem zero f le lt = absurd (omega arith)
    load_from_lem (suc fuel) f le lt =
        elim (Bool-cases (leb (length (content w s)) (f.after + page))) [
          | inl ended ↦ last_page fuel f ended
          | inr more ↦ full_page fuel f more (λ g there.
              load_from_lem fuel g (omega (arith, there, lt_of_leb _ _ more))
                (omega (arith, there, lt_of_leb _ _ more, page-pos)))
        ]

    -- Over a store that reads as documented, with more rounds than the stream has events: `load_effect` reads the whole stream in pages,
    -- ends, changes nothing, and returns what the events fold to.
    pub load_effect-replay :
        (fuel : ℕ)
        → length (content w s) < fuel
        → load_effect store fuel s w ≡ (replay (content w s), w)
    unfolding load_effect replay
    load_effect-replay fuel enough =
        load_from_lem fuel start (omega arith) (omega arith)
        ∙ ap (λ r. (r, w)) (whole_stream (content w s))
      where
        whole_stream : (es : List (RecordedEvent V)) → from_here start es ≡ replay es
        whole_stream [] = refl
        whole_stream (e ∷ es) = refl
