-- ===== src/Adapter/Reads.antt =====
-- What a read of the event log returns (`DurableEventStore::read_stream`, third-party code):
-- crates/service-eventlog/src/lib.rs relies on it.
use service_sdk.Base.{ℕ, ◌+◌, ◌≤◌, ◌≡◌, List, [], ◌∷◌, leb, length, take, drop, arith, zero, suc}
use service_sdk.Base.Result.{ok}
use service_sdk.Codec.{DurableStream}
use service_sdk.Adapter.{RecordedEvent}
use service_sdk.Adapter.Store.{Slice, DurableEventStore}

-- The page of `limit` events behind the first `after`.
abbrev pub slice_of : {V : Type 0} → List (RecordedEvent V) → ℕ → ℕ → Slice V
slice_of events after limit = record {
  events = take limit (drop after events);
  end_of_stream = leb (length events) (after + limit);
  next_version = after + length (take limit (drop after events)) + 1;
}

-- Each event has the version behind that of the one before.
abbrev pub Numbered : {V : Type 0} → ℕ → List (RecordedEvent V) → Type 0
Numbered n [] = Unit
Numbered n (event ∷ events) = (event.version ≡ n + 1) × Numbered (n + 1) events

-- A read of at most `max_read` events changes nothing and returns the events after the given
-- version, as many as there are and were asked for, with a mark at the end. The versions of a
-- stream count from 1.
pub record IsReadable {W V : Type 0} (store : DurableEventStore W V) (max_read : ℕ)
    (content : W → DurableStream → List (RecordedEvent V)) : Type 0 where
  pub reads :
      (w : W) (s : DurableStream) (after limit : ℕ)
      → limit ≤ max_read
      → store.read_stream s after limit w ≡ (ok (slice_of (content w s) after limit), w)
  pub numbered : (w : W) (s : DurableStream) → Numbered 0 (content w s)

module _ {V : Type 0} where
  pub Numbered-drop :
      (k n m : ℕ) (es : List (RecordedEvent V))
      → n + k ≡ m
      → k ≤ length es
      → Numbered n es
      → Numbered m (drop k es)
  Numbered-drop zero n m es e le h = let same : n ≡ m = omega arith in rw (← same) h
  Numbered-drop (suc k) n m [] e le h = tt
  Numbered-drop (suc k) n m (x ∷ es) e le h =
      Numbered-drop k (n + 1) m es (omega arith) (omega arith) h.1

  pub Numbered-take :
      (k n : ℕ) (es : List (RecordedEvent V)) → Numbered n es → Numbered n (take k es)
  Numbered-take zero n es h = tt
  Numbered-take (suc k) n [] h = tt
  Numbered-take (suc k) n (x ∷ es) h = (h.0, Numbered-take k (n + 1) es h.1)
