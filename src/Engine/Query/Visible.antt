-- ===== src/Engine/Query/Visible.antt =====
-- The rows that a query answers: crates/service-engine/src/lib.rs, `query_rows`.
use mathlib.Core.List.{Mem, mem-cons_self, mem-cons_of_mem}
use service_sdk.Base.{
  all-All, String, Bool, true, false, ◌≡◌, refl, ap, subst, Option, some, List, [], ◌∷◌, ◌||◌, ◌==◌,
  All, arith, eq_iff, option_eq, option_eq_iff, if◌then◌else◌,
}
use service_sdk.Base.Bytes.{Bytes}
use service_sdk.Base.Maps.{Map, get, keys, contains, contains_key}
use service_sdk.Base.Result.{Result, ok, map_err, map_err-eq-ok}
use service_sdk.Base.Action.{pure, step-eq-ok, lift-eq-ok, lift-ok_or-eq-ok, pure-eq-ok}
use service_sdk.Runtime.Auth.{VerifiedAuthContext, enforce}
use service_sdk.Engine.{Json, ExecutionError, context_violation}
use service_sdk.Engine.Ports.{ResourceError, ProjectionRow, ServiceResources, port, port-eq-ok}
use service_sdk.Engine.Plans.{runtime, QueryPlan, ViewPlan, ServicePlan}
use service_sdk.Engine.Inputs.{decode_inputs}
use service_sdk.Engine.Obligations.{ObligationUse}
use service_sdk.Engine.Query.{
  AuthorizedProjectionRow, selectors_into, exact_partition, exact_shape, exact_selection, selects,
  validate_projection_row, row_visible, query_visible, row_source, visible_rows, query_rows,
}

module _ {W V : Type 0} (json : Json V) (json_equal : V → V → Bool)
    (resources : ServiceResources W V) (context : VerifiedAuthContext) where
  -- The row lies in the caller's partition, has the shape of the view and the selected values.
  pub record Matches (query : QueryPlan) (view : ViewPlan) (selectors : Map V)
      (row : ProjectionRow V) : Type 0 where
    pub same_view : row.view ≡ query.view
    pub same_tenant : row.tenant ≡ context.tenant
    pub same_realm : row.realm ≡ context.realm
    pub declared : All (λ field. contains field view.fields ≡ true) (keys row.value)
    pub complete :
        All
          (λ field. (contains field view.optional_fields || contains_key field row.value) ≡ true)
          view.fields
    pub selected :
        All
          (λ s. selects json json_equal resources context (get s.0 row.value) s.1 ≡ true)
          selectors

  -- An answered row is one of the given stored rows, which matches and which each obligation lets
  -- be seen.
  pub record Shown (stored : List (ProjectionRow V)) (query : QueryPlan) (view : ViewPlan)
      (selectors : Map V) (shown : AuthorizedProjectionRow V) : Type 0 where
    pub row : ProjectionRow V
    pub is_stored : Mem row stored
    pub own_value : shown.value ≡ row.value
    pub fits : Matches query view selectors row
    pub visible :
        All
          (λ obligation.
            (v : W) × ((row_visible json json_equal resources context row.value obligation v).0
              ≡ ok true))
          query.obligations

  validate-Matches :
      (query : QueryPlan) (view : ViewPlan) (selectors : Map V) (row : ProjectionRow V)
      → validate_projection_row json json_equal resources context query view selectors row ≡ ok tt
      → Matches query view selectors row
  unfolding validate_projection_row exact_partition exact_shape exact_selection
  validate-Matches query view selectors row h =
      let views : (row.view == query.view) ≡ true = ground arith in
      let tenants : (row.tenant == context.tenant) ≡ true = ground arith in
      let realms : option_eq row.realm context.realm ≡ true = ground arith in
      record {
        same_view = (eq_iff row.view query.view).0 views;
        same_tenant = (eq_iff row.tenant context.tenant).0 tenants;
        same_realm = (option_eq_iff row.realm context.realm).0 realms;
        declared = all-All (λ field. contains field view.fields) (keys row.value) (ground arith);
        complete =
            all-All (λ field. contains field view.optional_fields || contains_key field row.value)
              view.fields (ground arith);
        selected =
            all-All (λ s. selects json json_equal resources context (get s.0 row.value) s.1)
              selectors (ground arith);
      }

  query_visible-All :
      (obligations : List ObligationUse) (row : Map V) (w w' : W)
      → ◌≡◌ {A = Result ExecutionError Bool × W}
          (query_visible json json_equal resources context obligations row w)
          (ok true, w')
      → All
          (λ obligation.
            (v : W) × ((row_visible json json_equal resources context row obligation v).0
              ≡ ok true))
          obligations
  unfolding query_visible
  query_visible-All [] row w w' h = tt
  query_visible-All (obligation ∷ obligations) row w w' h =
      let (visible, v, h1, k1) =
        step-eq-ok (row_visible json json_equal resources context row obligation) _ w h in
      go visible v (λ k. query_visible-All obligations row v w' k) h1 k1
    where
      go :
          (visible : Bool) (v : W)
          → (◌≡◌ {A = Result ExecutionError Bool × W}
                (query_visible json json_equal resources context obligations row v)
                (ok true, w')
              → All
                  (λ o.
                    (v : W) × ((row_visible json json_equal resources context row o v).0 ≡ ok true))
                  obligations)
          → ◌≡◌ {A = Result ExecutionError Bool × W}
              (row_visible json json_equal resources context row obligation w)
              (ok visible, v)
          → ◌≡◌ {A = Result ExecutionError Bool × W}
              ((if visible
                  then query_visible json json_equal resources context obligations row
                  else pure false)
                v)
              (ok true, w')
          → All
              (λ o. (v : W) × ((row_visible json json_equal resources context row o v).0 ≡ ok true))
              (obligation ∷ obligations)
      go true v next h1 k1 = ((w, ap (λ p. p.0) h1), next k1)
      go false v next h1 k1 = absurd (ground arith)

  module _ (service : ServicePlan) where
    visible_rows-Shown :
        (stored : List (ProjectionRow V)) (query : QueryPlan) (view : ViewPlan) (selectors : Map V)
        (rows : List (ProjectionRow V)) (w w' : W) (answer : List (AuthorizedProjectionRow V))
        → ((row : ProjectionRow V) → Mem row rows → Mem row stored)
        → ◌≡◌ {A = Result ExecutionError (List (AuthorizedProjectionRow V)) × W}
            (visible_rows json json_equal resources context service query view selectors rows w)
            (ok answer, w')
        → All (Shown stored query view selectors) answer
    unfolding visible_rows
    visible_rows-Shown stored query view selectors [] w w' answer inside h =
        subst (λ rs. All (Shown stored query view selectors) rs) (pure-eq-ok [] answer w w' h).0 tt
    visible_rows-Shown stored query view selectors (row ∷ rows) w w' answer inside h =
        let (_, h1, k1) =
          lift-eq-ok
            (validate_projection_row json json_equal resources context query view selectors row) _ w
            h in
        let (visible, v2, h2, k2) =
          step-eq-ok (query_visible json json_equal resources context query.obligations row.value) _
            w k1 in
        let (rest, v3, h3, k3) =
          step-eq-ok
            (visible_rows json json_equal resources context service query view selectors rows) _ v2
            k2 in
        subst (λ rs. All (Shown stored query view selectors) rs) (pure-eq-ok _ answer v3 w' k3).0
          (go visible v2 rest h1 h2 (
            visible_rows-Shown stored query view selectors rows v2 v3 rest
              (λ r m. inside r (mem-cons_of_mem row m)) h3))
      where
        go :
            (visible : Bool) (v : W) (rest : List (AuthorizedProjectionRow V))
            → validate_projection_row json json_equal resources context query view selectors row
              ≡ ok tt
            → ◌≡◌ {A = Result ExecutionError Bool × W}
                (query_visible json json_equal resources context query.obligations row.value w)
                (ok visible, v)
            → All (Shown stored query view selectors) rest
            → All (Shown stored query view selectors) (
                if visible
                then record {
                  value = row.value;
                  source_stream =
                      row_source json json_equal resources context service row.source_stream view
                        row.value;
                }
                  ∷ rest
                else rest)
        go true v rest h1 h2 others = (
          record {
            row = row;
            is_stored = inside row mem-cons_self;
            own_value = refl;
            fits = validate-Matches query view selectors row h1;
            visible = query_visible-All query.obligations row.value w v h2;
          },
          others,
        )
        go false v rest h1 h2 others = others

    -- A query is answered only for a realm that the service admits, an operation of the plan and a
    -- body that its inputs accept; and each answered row is the value of one of the rows that
    -- the store returned for the view, the caller's tenant and realm and the selected values, a row
    -- of that view, in the tenant and the realm of the caller, with the fields that the view
    -- declares and the values that the caller selects, which every obligation of the query lets be
    -- seen.
    pub query_rows-Shown :
        (from_slice : Bytes → Option V) (operation : String) (body : Bytes) (w w' : W)
        (answer : List (AuthorizedProjectionRow V))
        → ◌≡◌ {A = Result ExecutionError (List (AuthorizedProjectionRow V)) × W}
            (query_rows json json_equal resources context service from_slice operation body w)
            (ok answer, w')
        → (enforce (runtime service.realm) context ≡ ok tt)
          × (plan : QueryPlan) × (get operation service.queries ≡ some plan)
          × (view : ViewPlan) × (get plan.view service.views ≡ some view)
          × (decoded : Map V) × (decode_inputs json from_slice plan.inputs body ≡ ok decoded)
          × (rows : List (ProjectionRow V)) × (v : W) × ◌≡◌
              {A = Result ResourceError (List (ProjectionRow V)) × W}
              (resources.query
                (record {
                  view = plan.view;
                  tenant = context.tenant;
                  realm = context.realm;
                  selectors = selectors_into plan.inputs decoded [];
                })
                w)
              (ok rows, v)
          × All (Shown rows plan view (selectors_into plan.inputs decoded [])) answer
    unfolding query_rows
    query_rows-Shown from_slice operation body w w' answer h =
        let (_, h0, k0) =
          lift-eq-ok (map_err context_violation (enforce (runtime service.realm) context)) _ w h in
        let (plan, h1, k1) = lift-ok_or-eq-ok (get operation service.queries) _ _ w k0 in
        let (decoded, h2, k2) =
          lift-eq-ok (decode_inputs json from_slice plan.inputs body) _ w k1 in
        let selectors = selectors_into plan.inputs decoded [] in
        let asked = resources.query (record {
          view = plan.view;
          tenant = context.tenant;
          realm = context.realm;
          selectors = selectors;
        }) in
        let (rows, v, h3, k3) = step-eq-ok (port asked) _ w k2 in
        let (view, h4, k4) = lift-ok_or-eq-ok (get plan.view service.views) _ _ v k3 in
        (
          map_err-eq-ok context_violation (enforce (runtime service.realm) context) h0,
          plan,
          h1,
          view,
          h4,
          decoded,
          h2,
          rows,
          v,
          port-eq-ok asked w v rows h3,
          visible_rows-Shown rows plan view selectors rows v w' answer (λ r m. m) k4,
        )
