-- ===== src/Adapter/Events/Batch.antt =====
-- Reading a recorded batch in pages: crates/service-eventlog/src/lib.rs,
-- `EventlogEvents::recorded_intent`.
use service_sdk.Base.{
  ℕ, zero, suc, ◌+◌, ◌-◌, ◌≤◌, ◌<◌, ◌≡◌, refl, sym, ap, ◌∙◌, true, false, List, [], ◌∷◌, ◌++◌, ltb,
  leb, eqb, length, take, drop, length-drop, length-take-le, drop-drop, take-take-drop, Bool-cases,
  inl, inr, arith,
}
use service_sdk.Base.Result.{ok}
use service_sdk.Codec.{DurableStream}
use service_sdk.Engine.{Json}
use service_sdk.Engine.Ports.{IntentClaimRequest, RecordedIntent}
use service_sdk.Adapter.{RecordedEvent, recorded_intent}
use service_sdk.Adapter.Recorded.{recorded_intent-Answers, counted-recorded}
use service_sdk.Adapter.Store.{DurableEventStore, Serde}
use service_sdk.Adapter.Reads.{Numbered, IsReadable, Numbered-drop, Numbered-take}
use service_sdk.Adapter.Events.{
  last_after, consecutive, checked_page, min, read_batch, recorded_batch,
}
use service_sdk.Adapter.Events.Loading.{last_after-Numbered}

consecutive-Numbered :
    {V : Type 0} (n : ℕ) (es : List (RecordedEvent V)) → Numbered n es → consecutive n es ≡ true
unfolding consecutive
consecutive-Numbered n [] h = refl
consecutive-Numbered n (e ∷ es) h =
    let rest = consecutive-Numbered (n + 1) es h.1 in
    let own : e.version ≡ n + 1 = h.0 in rw own (ground arith)

checked_page_lem :
    {V : Type 0} (count after : ℕ) (events : List (RecordedEvent V))
    → length events ≡ count
    → consecutive after events ≡ true
    → checked_page count after events ≡ ok events
unfolding checked_page
checked_page_lem count after events size follow = ground arith

module _ {W V : Type 0} (json : Json V) (serde : Serde V) (store : DurableEventStore W V)
    (max_events max_read : ℕ) (content : W → DurableStream → List (RecordedEvent V))
    (readable : IsReadable store max_read content) (some_read : 0 < max_read) where
  -- Over a readable log, the loop over a recorded batch reads exactly the events behind `after` up
  -- to `last`.
  pub read_batch-take :
      (fuel : ℕ) (w : W) (s : DurableStream) (last after : ℕ)
      → after ≤ last
      → last ≤ length (content w s)
      → last - after < fuel
      → read_batch json serde store max_events max_read fuel s last after w
        ≡ (ok (take (last - after) (drop after (content w s))), w)
  unfolding read_batch
  read_batch-take zero w s last after le within lt = absurd (omega arith)
  read_batch-take (suc fuel) w s last after le within lt = elim (Bool-cases (ltb after last)) [
    | inr done ↦
        let none_left : last - after ≡ 0 = ground arith in rw (done, none_left, read_batch) refl
    | inl more ↦
        let count = min (last - after) max_read in
        let rest = drop after (content w s) in
        let small : count ≤ max_read = ground arith in
        let full : length (take count rest) ≡ count =
          length-take-le count rest (ground (arith, length-drop after (content w s))) in
        let numbered = Numbered-take count after rest (
          Numbered-drop after 0 after (content w s) (omega arith) (omega arith)
            (readable.numbered w s)) in
        let there : last_after after (take count rest) ≡ after + count =
          last_after-Numbered after (take count rest) numbered ∙ ap (λ n. after + n) full in
        let next =
          read_batch-take fuel w s last (after + count) (ground arith) within (ground arith) in
        let page_ok =
          checked_page_lem count after (take count rest) full
            (consecutive-Numbered after (take count rest) numbered) in
        rw (more, read_batch)
          (rw (readable.reads w s after count small, page_ok, there, next)
            (ap (λ es. (ok es, w))
              (ap (λ es. take count rest ++ take (last - (after + count)) es)
                  (sym (drop-drop after count (content w s)))
                ∙ take-take-drop count (last - (after + count)) (last - after) rest
                    (ground arith))))
  ]

  -- A batch that the claim's decoder accepts is read back whole.
  pub recorded_batch-kept :
      (fuel : ℕ) (w : W) (claim : IntentClaimRequest) (s : DurableStream) (first last : ℕ)
      (events : List (RecordedEvent V)) (recorded : RecordedIntent V)
      → recorded_intent json max_events claim events first last ≡ ok recorded
      → last ≤ length (content w s)
      → take (length events) (drop (first - 1) (content w s)) ≡ events
      → max_events < fuel
      → recorded_batch json serde store max_events max_read fuel claim s first last w
        ≡ (ok recorded, w)
  unfolding recorded_batch
  recorded_batch-kept fuel w claim s first last events recorded h within stands enough =
      let answers = recorded_intent-Answers json max_events claim events first last recorded h in
      let sized = counted-recorded json max_events claim events first last recorded h in
      let positive : eqb first 0 ≡ false = ground (arith, answers.positive) in
      let fits : leb (length events) max_events ≡ true = ground (arith, answers.few) in
      let span : last - (first - 1) ≡ length events =
        omega (arith, answers.positive, answers.whole) in
      let read =
        read_batch-take fuel w s last (first - 1) (omega (arith, answers.positive, answers.whole))
          within (omega (arith, span, answers.few)) in
      rw (sized, fits, positive, read, span, stands, h) refl
