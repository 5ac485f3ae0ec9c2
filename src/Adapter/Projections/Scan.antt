-- ===== src/Adapter/Projections/Scan.antt =====
-- A scan over two pages is one scan, and what it selects: crates/service-eventlog/src/lib.rs,
-- `EventlogProjections::query`.
use text.Mathlib.Text.{starts_with}
use service_sdk.Base.{
  ℕ, ◌+◌, ◌≤◌, ◌≡◌, refl, Bool, true, false, Option, none, some, List, [], ◌∷◌, ◌++◌, String, leb,
  length, Bool-cases, Option-cases, inl, inr, arith, if◌then◌else◌,
}
use service_sdk.Base.Bytes.{Bytes}
use service_sdk.Base.Maps.{Map}
use service_sdk.Base.Result.{Result, ok, err, ok_or, ◌>>=◌, ◌>>◌}
use service_sdk.Engine.Ports.{ResourceError, refused, ProjectionRow}
use service_sdk.Adapter.Store.{DurableEventStore, Serde}
use service_sdk.Adapter.Projections.{
  max_query_rows, Scanned, is_selected, selected_rows, counted_row, scan,
}

-- The entries up to the first one whose key has another prefix.
abbrev pub run_of : {V : Type 0} → String → List (String × V) → List (String × V)
run_of prefix [] = []
run_of prefix (entry ∷ entries) =
    if starts_with entry.0 prefix then entry ∷ run_of prefix entries else []

-- The bound on the rows of one query, behind `count` rows.
abbrev pub limited :
    {V : Type 0}
    → ℕ
    → Result ResourceError (List (ProjectionRow V))
    → Result ResourceError (List (ProjectionRow V))
limited count (ok rows) = if leb (count + length rows) max_query_rows then ok rows else err refused
limited count (err e) = err e

module _ {W V : Type 0} (serde : Serde V) (json_equal : V → V → Bool) (sha256 : Bytes → Bytes)
    (service : String) (rows_name : String) (store : DurableEventStore W V) (prefix : String)
    (selectors : Map V) where
  abbrev pub scanned : ℕ → String → List (String × V) → Result ResourceError (Scanned V)
  scanned count after entries =
      scan serde json_equal sha256 service rows_name store prefix selectors count after entries

  abbrev picks : ProjectionRow V → Bool
  picks row = is_selected serde json_equal sha256 service rows_name store selectors row

  abbrev pub scanned_rows : Scanned V → Result ResourceError (List (ProjectionRow V))
  scanned_rows r = ok r.rows

  -- One step of the scan, on the result of the rest.
  abbrev one_row :
      ℕ
      → Bool
      → ProjectionRow V
      → Result ResourceError (Scanned V)
      → Result ResourceError (Scanned V)
  one_row count b row rest =
      counted_row serde json_equal sha256 service rows_name store count b
      >> (rest >>= λ r. ok (if b then record r { rows = row ∷ r.rows } else r))

  one_row-limited :
      (count : ℕ) (b : Bool) (row : ProjectionRow V) (rest : Result ResourceError (Scanned V))
      (rows : Result ResourceError (List (ProjectionRow V)))
      → count ≤ max_query_rows
      → ((if b then count + 1 else count) ≤ max_query_rows
          → (rest >>= scanned_rows) ≡ limited (if b then count + 1 else count) rows)
      → (one_row count b row rest >>= scanned_rows)
        ≡ limited count (rows >>= λ rs. ok (if b then row ∷ rs else rs))
  one_row-limited count false row (ok r) (ok rs) h k = k h
  one_row-limited count false row (ok r) (err refused) h k = k h
  one_row-limited count false row (err e) (ok rs) h k = k h
  one_row-limited count false row (err e) (err refused) h k = k h
  one_row-limited count true row (ok r) (ok rs) h k = ground arith
  one_row-limited count true row (ok r) (err refused) h k = ground arith
  one_row-limited count true row (err refused) (ok rs) h k = ground arith
  one_row-limited count true row (err refused) (err refused) h k = ground arith

  one_entry-limited :
      (count : ℕ) (row : Option (ProjectionRow V))
      (rest : ProjectionRow V → Result ResourceError (Scanned V))
      (rows : Result ResourceError (List (ProjectionRow V)))
      → count ≤ max_query_rows
      → ((r : ProjectionRow V)
          → (if picks r then count + 1 else count) ≤ max_query_rows
          → (rest r >>= scanned_rows) ≡ limited (if picks r then count + 1 else count) rows)
      → ((ok_or row refused >>= λ r. one_row count (picks r) r (rest r)) >>= scanned_rows)
        ≡ limited count
            (ok_or row refused >>= λ r. rows >>= λ rs. ok (if picks r then r ∷ rs else rs))
  one_entry-limited count none rest rows h k = refl
  one_entry-limited count (some row) rest rows h k =
      one_row-limited count (picks row) row (rest row) rows h (k row)

  -- Without the fields that the loop passes on, a scan selects what a page over the whole run would
  -- select.
  pub scan-limited :
      (count : ℕ) (after : String) (entries : List (String × V))
      → count ≤ max_query_rows
      → (scanned count after entries >>= scanned_rows)
        ≡ limited count (
            selected_rows serde json_equal sha256 service rows_name store selectors
              (run_of prefix entries))
  unfolding scan selected_rows
  scan-limited count after [] h = ground arith
  scan-limited count after ((key, body) ∷ entries) h = elim (Bool-cases (starts_with key prefix)) [
    | inr other ↦ rw other (ground arith)
    | inl own ↦ rw own (
        one_entry-limited count (serde.to_row body)
          (λ row. scanned (if picks row then count + 1 else count) key entries)
          (selected_rows serde json_equal sha256 service rows_name store selectors
            (run_of prefix entries))
          h (λ row small. scan-limited (if picks row then count + 1 else count) key entries small))
  ]

  -- What the loop does with the next page.
  abbrev pub resume : Bool → ℕ → List (String × V) → Scanned V → Result ResourceError (Scanned V)
  resume true count later r = ok r
  resume false count later r =
      scanned count r.after later >>= λ t. ok (record t { rows = r.rows ++ t.rows })

  abbrev pub onward : ℕ → List (String × V) → Scanned V → Result ResourceError (Scanned V)
  onward count later r = resume r.reached_other_prefix (count + length r.rows) later r

  same_result :
      (r : Result ResourceError (Scanned V))
      → r ≡ (r >>= λ t. ok (record t { rows = [] ++ t.rows }))
  same_result (ok t) = refl
  same_result (err e) = refl

  one_row-onward :
      (count : ℕ) (b : Bool) (row : ProjectionRow V) (later : List (String × V))
      (r : Result ResourceError (Scanned V))
      → one_row count b row (r >>= onward (if b then count + 1 else count) later)
        ≡ (one_row count b row r >>= onward count later)
  one_row-onward count false row later (err e) = refl
  one_row-onward count true row later (err e) = ground arith
  one_row-onward count false row later (ok r) = pure_back (onward count later r)
    where
      pure_back : (t : Result ResourceError (Scanned V)) → (t >>= λ x. ok x) ≡ t
      pure_back (ok t) = refl
      pure_back (err e) = refl
  one_row-onward count true row later (ok r) =
      checked (counted_row serde json_equal sha256 service rows_name store count true)
    where
      resumed :
          (reached : Bool) (n m : ℕ)
          → n ≡ m
          → (resume reached n later r >>= λ x. ok (record x { rows = row ∷ x.rows }))
            ≡ resume reached m later (record r { rows = row ∷ r.rows })
      resumed true n m e = refl
      resumed false n m e = rw e (go (scanned m r.after later))
        where
          go :
              (t : Result ResourceError (Scanned V))
              → ((t >>= λ x. ok (record x { rows = r.rows ++ x.rows })) >>= λ x.
                  ok (record x { rows = row ∷ x.rows }))
                ≡ (t >>= λ x. ok (record x { rows = (row ∷ r.rows) ++ x.rows }))
          go (ok t) = refl
          go (err e) = refl

      checked :
          (c : Result ResourceError (Unit {0}))
          → (c >> (onward (count + 1) later r >>= λ x. ok (record x { rows = row ∷ x.rows })))
            ≡ ((c >> ok (record r { rows = row ∷ r.rows })) >>= onward count later)
      checked (err e) = refl
      checked (ok u) =
          resumed r.reached_other_prefix (count + 1 + length r.rows) (count + length (row ∷ r.rows))
            (omega arith)

  pub scan-append :
      (count : ℕ) (after : String) (entries later : List (String × V))
      → scanned count after (entries ++ later)
        ≡ (scanned count after entries >>= onward count later)
  unfolding scan
  scan-append count after [] later =
      let none_yet : count + 0 ≡ count = omega arith in
      rw none_yet (same_result (scanned count after later))
  scan-append count after ((key, body) ∷ entries) later =
      elim (Bool-cases (starts_with key prefix)) [
        | inr other ↦ rw other refl
        | inl own ↦ elim (Option-cases (serde.to_row body)) [
          | inl bad ↦ rw (own, bad) refl
          | inr (row, good) ↦
              rw (own, good, scan-append (if picks row then count + 1 else count) key entries later)
                (one_row-onward count (picks row) row later
                  (scanned (if picks row then count + 1 else count) key entries))
        ]
      ]
