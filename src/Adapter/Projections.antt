-- ===== src/Adapter/Projections.antt =====
-- crates/service-eventlog/src/lib.rs: `EventlogProjections`, the projection port of the engine.
pub mod Scan
pub mod Listing
use text.Mathlib.Text.{starts_with}
use service_sdk.Base.{
  ℕ, zero, suc, ◌+◌, String, Bool, true, false, Option, none, some, List, [], ◌∷◌, ◌++◌, not, ◌&&◌,
  all, ltb, length, if◌then◌else◌,
}
use service_sdk.Base.Bytes.{Bytes}
use service_sdk.Base.Maps.{Map, get}
use service_sdk.Base.Result
use service_sdk.Base.Result.{Result, ok, err, ok_or, map_err}
use service_sdk.Base.Action.{Action, pure, fail, lift, ◌>>=◌, ◌>>◌}
use service_sdk.Engine.Ports.{
  ResourceError, refused, ProjectionRow, ProjectionWrite, ProjectionRead,
}
use service_sdk.Adapter.Store.{DurableEventStore, Serde, resource}
use service_sdk.Adapter.Layout.{row_prefix}
use service_sdk.Effect.Journal.Load.{page}
use service_sdk.Adapter.Pages.{PageRequest}

unfoldable pub max_query_rows : ℕ
max_query_rows = 10_000

-- The log with the field `next_cursor` of the projections.
pub record Session (W : Type 0) : Type 0 where
  pub log : W
  pub next_cursor : Option String

abbrev pub on_store : {W E A : Type 0} → Action W E A → Action (Session W) E A
on_store m session = let (r, log) = m session.log in (r, record session { log = log })

abbrev pub set_cursor : {W E : Type 0} → Option String → Action (Session W) E (Unit {0})
set_cursor cursor session = (ok tt, record session { next_cursor = cursor })

-- `page.cursor().is_some_and(|cursor| !cursor.starts_with(&prefix))`
abbrev pub foreign_cursor : String → Option String → Bool
foreign_cursor prefix none = false
foreign_cursor prefix (some cursor) = not (starts_with cursor prefix)

-- The rows kept so far, the last key that was looked at, and whether it has another prefix.
pub record Scanned (V : Type 0) : Type 0 where
  pub rows : List (ProjectionRow V)
  pub after : String
  pub reached_other_prefix : Bool

-- `json_equal` stands for the equality of JSON values that does not depend on how numbers are
-- written, `rows_name` for the layout's projection of rows.
module _ {W V : Type 0} (serde : Serde V) (json_equal : V → V → Bool) (sha256 : Bytes → Bytes)
    (service : String) (rows_name : String) (store : DurableEventStore W V) where
  -- `row.value.get(name).is_some_and(|value| json_equal(value, expected))`
  abbrev pub equals : V → Option V → Bool
  equals expected none = false
  equals expected (some value) = json_equal value expected

  unfoldable pub is_selected : Map V → ProjectionRow V → Bool
  is_selected selectors row =
      all (λ selector. equals selector.1 (get selector.0 row.value)) selectors

  -- `.filter_map(..).collect()` over the rows of a page.
  unfoldable pub selected_rows :
      Map V → List (String × V) → Result ResourceError (List (ProjectionRow V))
  selected_rows selectors [] = ok []
  selected_rows selectors ((key, body) ∷ entries) =
      Result.◌>>=◌ (ok_or (serde.to_row body) refused) (λ row.
        Result.◌>>=◌ (selected_rows selectors entries)
          (λ rest. ok (if is_selected selectors row then row ∷ rest else rest)))

  unfoldable pub query_paged :
      PageRequest
      → String
      → String
      → Map V
      → Action (Session W) ResourceError (List (ProjectionRow V))
  query_paged request tenant prefix selectors = do
    if foreign_cursor prefix request.cursor then fail refused else pure tt
    result ←
        on_store
          (resource (store.projection_page rows_name tenant prefix request.cursor request.limit))
    set_cursor result.next_cursor
    lift (selected_rows selectors result.rows)

  -- A kept row may be one too many; `count` rows have been kept before it.
  abbrev pub counted_row : ℕ → Bool → Result ResourceError (Unit {0})
  counted_row count false = ok tt
  counted_row count true = if ltb max_query_rows (count + 1) then err refused else ok tt

  -- The loop over the entries of a page.
  unfoldable pub scan :
      String → Map V → ℕ → String → List (String × V) → Result ResourceError (Scanned V)
  scan prefix selectors count after [] =
      ok (record { rows = []; after = after; reached_other_prefix = false })
  scan prefix selectors count after ((key, body) ∷ entries) =
      if not (starts_with key prefix)
      then ok (record { rows = []; after = key; reached_other_prefix = true })
      else Result.◌>>=◌ (ok_or (serde.to_row body) refused) (λ row.
        Result.◌>>◌ (counted_row count (is_selected selectors row)) (
          Result.◌>>=◌
            (scan prefix selectors (if is_selected selectors row then count + 1 else count) key
              entries)
            (λ rest. ok (
              if is_selected selectors row then record rest { rows = row ∷ rest.rows } else rest))))

  -- `if reached_other_prefix { break; }`
  abbrev pub go_on :
      Bool
      → List (ProjectionRow V)
      → Action W ResourceError (List (ProjectionRow V))
      → Action W ResourceError (List (ProjectionRow V))
  go_on true rows rest = pure rows
  go_on false rows rest = rest >>= λ more. pure (rows ++ more)

  -- A page, and what follows it; the loop ends at an empty page.
  abbrev pub scan_page :
      String
      → Map V
      → ℕ
      → String
      → List (String × V)
      → (Scanned V → Action W ResourceError (List (ProjectionRow V)))
      → Action W ResourceError (List (ProjectionRow V))
  scan_page prefix selectors count after [] next = pure []
  scan_page prefix selectors count after (entry ∷ entries) next =
      lift (scan prefix selectors count after (entry ∷ entries)) >>= λ scanned.
      go_on scanned.reached_other_prefix scanned.rows (next scanned)

  -- One round for each page.
  unfoldable pub list_from :
      ℕ → String → String → Map V → ℕ → String → Action W ResourceError (List (ProjectionRow V))
  list_from zero tenant prefix selectors count after = fail refused
  list_from (suc fuel) tenant prefix selectors count after =
      resource (store.projection_list rows_name tenant after page) >>= λ entries.
      scan_page prefix selectors count after entries (λ scanned.
        list_from fuel tenant prefix selectors (count + length scanned.rows) scanned.after)

  abbrev pub query_rows_of :
      ℕ
      → Option PageRequest
      → String
      → String
      → Map V
      → Action (Session W) ResourceError (List (ProjectionRow V))
  query_rows_of fuel (some request) tenant prefix selectors =
      query_paged request tenant prefix selectors
  query_rows_of fuel none tenant prefix selectors =
      on_store (list_from fuel tenant prefix selectors 0 prefix)

  -- `query` of the port, with the page of `EventlogProjections::paged`, or none.
  unfoldable pub query_projection :
      ℕ
      → Option PageRequest
      → ProjectionRead V
      → Action (Session W) ResourceError (List (ProjectionRow V))
  query_projection fuel request read = do
    tenant ← lift (map_err (λ e. refused) (store.new_tenant read.tenant))
    query_rows_of fuel request tenant (row_prefix sha256 service read.realm read.view)
        read.selectors

  -- The projector runs inside the append, so that nothing is left to do.
  unfoldable pub project : ProjectionWrite V → Action (Session W) ResourceError (Unit {0})
  project write = pure tt
