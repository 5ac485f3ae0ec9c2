-- ===== src/Adapter/Projections/Listing.antt =====
-- An unpaged query reads all rows of its partition: crates/service-eventlog/src/lib.rs,
-- `EventlogProjections::query`.
use mathlib.Core.List.{append_assoc}
use text.Mathlib.Text.{starts_with}
use service_sdk.Base.{
  ℕ, zero, suc, ◌+◌, ◌<◌, ◌≡◌, refl, sym, ap, ◌∙◌, Bool, true, false, List, [], ◌∷◌, ◌++◌, String,
  length, take, drop, take-append-drop, length-append, Bool-cases, inl, inr, arith, if◌then◌else◌,
}
use service_sdk.Base.Bytes.{Bytes}
use service_sdk.Base.Maps.{Map}
use service_sdk.Base.Result.{Result, ok, ok_or, ◌>>=◌, Result-cases, >>=-eq-ok}
use service_sdk.Base.Action
use service_sdk.Base.Action.{pure, lift}
use service_sdk.Engine.Ports.{ResourceError, refused, ProjectionRow}
use service_sdk.Adapter.Store.{DurableEventStore, Serde}
use service_sdk.Effect.Journal.Load.{page}
use service_sdk.Adapter.Events.Loading.{page-pos}
use service_sdk.Adapter.Projections.{
  Scanned, is_selected, selected_rows, counted_row, scan, go_on, scan_page, list_from,
}
use service_sdk.Adapter.Projections.Scan.{
  run_of, limited, scanned, scanned_rows, resume, scan-limited, scan-append,
}

-- What the event log documents of `projection_list`: it changes nothing and returns, in their order,
-- the first entries of the projection behind a key.
pub record IsListed {W V : Type 0} (store : DurableEventStore W V) (rows_name tenant : String)
    (behind : W → String → List (String × V)) : Type 0 where
  pub lists :
      (w : W) (after : String)
      → store.projection_list rows_name tenant after page w ≡ (ok (take page (behind w after)), w)
  pub ordered :
      (w : W) (after key : String) (body : V) (entries later : List (String × V))
      → behind w after ≡ entries ++ ((key, body) ∷ later)
      → behind w key ≡ later

all_taken : {A : Type 0} (n : ℕ) (es : List A) → 0 < n → take n es ≡ [] → drop n es ≡ []
all_taken zero es p h = absurd (omega arith)
all_taken (suc n) [] p h = refl
all_taken (suc n) (e ∷ es) p h = cc

module _ {W V : Type 0} (serde : Serde V) (json_equal : V → V → Bool) (sha256 : Bytes → Bytes)
    (service : String) (rows_name : String) (store : DurableEventStore W V) (prefix : String)
    (selectors : Map V) where
  abbrev scan_of : ℕ → String → List (String × V) → Result ResourceError (Scanned V)
  scan_of = scanned serde json_equal sha256 service rows_name store prefix selectors

  -- Where a scan that goes on stands: at the last key of the page.
  data LastKey (after : String) (r : Scanned V) : List (String × V) → Type 0 where
    nothing : r.after ≡ after → LastKey after r []
    last :
        {entries : List (String × V)} (before : List (String × V)) (key : String) (body : V)
        → entries ≡ before ++ ((key, body) ∷ [])
        → r.after ≡ key
        → LastKey after r entries

  extend :
      (after key : String) (body : V) (r r' : Scanned V) (entries : List (String × V))
      → LastKey key r' entries
      → r.after ≡ r'.after
      → LastKey after r ((key, body) ∷ entries)
  extend after key body r r' [] (nothing p) e = last [] key body refl (e ∙ p)
  extend after key body r r' entries (last before k b p q) e =
      last ((key, body) ∷ before) k b (ap (λ es. (key, body) ∷ es) p) (e ∙ q)

  kept_fields :
      (b : Bool) (row : ProjectionRow V) (r r' : Scanned V)
      → ◌≡◌ {A = Result ResourceError (Scanned V)}
          (ok (if b then record r' { rows = row ∷ r'.rows } else r'))
          (ok r)
      → (r.after ≡ r'.after) × (r.reached_other_prefix ≡ r'.reached_other_prefix)
  kept_fields true row r r' h = ground arith
  kept_fields false row r r' h = ground arith

  scan-LastKey :
      (count : ℕ) (after : String) (entries : List (String × V)) (r : Scanned V)
      → scan_of count after entries ≡ ok r
      → r.reached_other_prefix ≡ false
      → LastKey after r entries
  unfolding scan
  scan-LastKey count after [] r h k = nothing (ground arith)
  scan-LastKey count after ((key, body) ∷ entries) r h k =
      elim (Bool-cases (starts_with key prefix)) [
        | inr other ↦ absurd (ground (arith, k, rw other at h))
        | inl own ↦
            let (row, h1, k1) = >>=-eq-ok (ok_or (serde.to_row body) refused) _ (rw own at h) in
            let b = is_selected serde json_equal sha256 service rows_name store selectors row in
            let (u, h2, k2) =
              >>=-eq-ok (counted_row serde json_equal sha256 service rows_name store count b) _
                k1 in
            let (r', h3, k3) =
              >>=-eq-ok (scan_of (if b then count + 1 else count) key entries) _ k2 in
            let (same_after, same_end) = kept_fields b row r r' k3 in
            extend after key body r r' entries
              (scan-LastKey (if b then count + 1 else count) key entries r' h3 (sym same_end ∙ k))
              same_after
      ]

  module _ (tenant : String) (behind : W → String → List (String × V))
      (listed : IsListed store rows_name tenant behind) (w : W) where
    abbrev listing : ℕ → ℕ → String → Result ResourceError (List (ProjectionRow V)) × W
    listing fuel count after =
        list_from serde json_equal sha256 service rows_name store fuel tenant prefix selectors count
          after w

    abbrev on_from : ℕ → ℕ → Scanned V → Action.Action W ResourceError (List (ProjectionRow V))
    on_from fuel count r =
        list_from serde json_equal sha256 service rows_name store fuel tenant prefix selectors
          (count + length r.rows) r.after

    abbrev rows_in : Scanned V → Result ResourceError (List (ProjectionRow V))
    rows_in = scanned_rows serde json_equal sha256 service rows_name store prefix selectors

    go_on_lem :
        (b : Bool) (fuel count : ℕ) (later : List (String × V)) (r : Scanned V)
        → (b ≡ false
            → on_from fuel count r w
              ≡ (scan_of (count + length r.rows) r.after later >>= rows_in, w))
        → go_on serde json_equal sha256 service rows_name store b r.rows (on_from fuel count r) w
          ≡ (
            resume serde json_equal sha256 service rows_name store prefix selectors b
                  (count + length r.rows)
                  later
                  r
                >>= rows_in,
            w,
          )
    go_on_lem true fuel count later r h = refl
    go_on_lem false fuel count later r h =
        elim (Result-cases (scan_of (count + length r.rows) r.after later)) [
          | inl (t, e) ↦ rw (h refl, e) refl
          | inr (error, e) ↦ rw (h refl, e) refl
        ]

    scan_page-onward :
        (fuel count : ℕ) (after : String) (entry : String × V) (entries later : List (String × V))
        → ((r : Scanned V)
            → scan_of count after (entry ∷ entries) ≡ ok r
            → r.reached_other_prefix ≡ false
            → on_from fuel count r w
              ≡ (scan_of (count + length r.rows) r.after later >>= rows_in, w))
        → scan_page serde json_equal sha256 service rows_name store prefix selectors count after
            (entry ∷ entries)
            (on_from fuel count)
            w
          ≡ (scan_of count after ((entry ∷ entries) ++ later) >>= rows_in, w)
    scan_page-onward fuel count after entry entries later h =
        let whole =
          scan-append serde json_equal sha256 service rows_name store prefix selectors count after
            (entry ∷ entries) later in
        elim (Result-cases (scan_of count after (entry ∷ entries))) [
          | inr (error, e) ↦ rw (whole, e) refl
          | inl (r, e) ↦ rw (whole, e) (go_on_lem r.reached_other_prefix fuel count later r (h r e))
        ]

    behind_page :
        (after : String) (r : Scanned V) (entry : String × V) (entries later : List (String × V))
        → behind w after ≡ (entry ∷ entries) ++ later
        → LastKey after r (entry ∷ entries)
        → behind w r.after ≡ later
    behind_page after r entry entries later h (last before key body e q) =
        ap (λ k. behind w k) q
        ∙ listed.ordered w after key body before later
            (h ∙ ap (λ es. es ++ later) e ∙ append_assoc before ((key, body) ∷ []) later)

    step :
        (fuel count : ℕ) (after : String)
        → listing (suc fuel) count after
          ≡ scan_page serde json_equal sha256 service rows_name store prefix selectors count after
              (take page (behind w after))
              (on_from fuel count)
              w
    unfolding list_from
    step fuel count after = rw (listed.lists w after) refl

    page_of :
        (fuel count : ℕ) (after : String) (entries later : List (String × V))
        → behind w after ≡ entries ++ later
        → (entries ≡ [] → later ≡ [])
        → length (behind w after) < suc fuel
        → ((count' : ℕ) (after' : String)
            → length (behind w after') < fuel
            → listing fuel count' after' ≡ (scan_of count' after' (behind w after') >>= rows_in, w))
        → scan_page serde json_equal sha256 service rows_name store prefix selectors count after
            entries
            (on_from fuel count)
            w
          ≡ (scan_of count after (entries ++ later) >>= rows_in, w)
    unfolding scan
    page_of fuel count after [] later h none_left enough ih = rw (none_left refl) refl
    page_of fuel count after (entry ∷ entries) later h none_left enough ih =
        scan_page-onward fuel count after entry entries later (λ r e open_end.
          let there =
            behind_page after r entry entries later h
              (scan-LastKey count after (entry ∷ entries) r e open_end) in
          let size = ap (λ es. length es) h ∙ length-append (entry ∷ entries) later in
          let same = ap (λ es. length es) there in
          ih (count + length r.rows) r.after (omega (arith, size, same, enough))
          ∙ ap (λ es. (scan_of (count + length r.rows) r.after es >>= rows_in, w)) there)

    -- The loop, from any key on.
    list_from-scan :
        (fuel count : ℕ) (after : String)
        → length (behind w after) < fuel
        → listing fuel count after ≡ (scan_of count after (behind w after) >>= rows_in, w)
    list_from-scan zero count after enough = absurd (omega arith)
    list_from-scan (suc fuel) count after enough =
        step fuel count after
        ∙ page_of fuel count after (take page (behind w after)) (drop page (behind w after))
            (sym (take-append-drop page (behind w after)))
            (all_taken page (behind w after) page-pos) enough
            (λ count' after' less. list_from-scan fuel count' after' less)
        ∙ ap (λ es. (scan_of count after es >>= rows_in, w))
            (take-append-drop page (behind w after))

    -- Over a log that lists as documented, with more rounds than entries behind the prefix: an unpaged
    -- query ends, changes nothing, and answers what the selection of one page over the whole run of
    -- the prefix would select, or the error of it; it is refused if that is more than 10000 rows.
    pub list_from-limited :
        (fuel : ℕ)
        → length (behind w prefix) < fuel
        → list_from serde json_equal sha256 service rows_name store fuel tenant prefix selectors 0
            prefix w
          ≡ (
            limited 0 (
                selected_rows serde json_equal sha256 service rows_name store selectors
                  (run_of prefix (behind w prefix))),
            w,
          )
    list_from-limited fuel enough =
        list_from-scan fuel 0 prefix enough
        ∙ ap (λ r. (r, w))
            (scan-limited serde json_equal sha256 service rows_name store prefix selectors 0 prefix
              (behind w prefix) (omega arith))
