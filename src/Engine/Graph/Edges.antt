-- ===== src/Engine/Graph/Edges.antt =====
-- What the adjacency holds once it is built: crates/service-engine/src/lib.rs, `insert_graph_edge`.
use service_sdk.Base.{
  String, ◌≡◌, ◌≢◌, refl, sym, ap, ◌∙◌, ◌⊎◌, inl, inr, Bool, true, false, some, List, [], ◌∷◌, All,
  arith, eq_iff, ◌==◌, ◌&&◌, ◌||◌, if◌then◌else◌, Bool-cases, is_some,
}
use service_sdk.Base.Maps.{get, insert, contains_key, contains, insert_key}
use service_sdk.Base.Maps.Laws.{get-insert, contains-insert_key}
use service_sdk.Base.Result.{Result, ok, >>=-eq-ok}
use service_sdk.Engine.{ExecutionError}
use service_sdk.Engine.Graph.{
  Pairs, pair_eq, contains_pair, insert_pair, Adjacency, targets, set_or_empty, insert_graph_edge,
  insert_graph_edges, isolated,
}

contains-insert_pair :
    (p q : String × String) (pairs : Pairs)
    → contains_pair q (insert_pair p pairs) ≡ (pair_eq p q || contains_pair q pairs)
unfolding contains_pair insert_pair
contains-insert_pair p q [] = refl
contains-insert_pair (a, b) (c, d) ((e, f) ∷ pairs) = ground (
  arith,
  eq_iff a c,
  eq_iff b d,
  eq_iff e a,
  eq_iff f b,
  eq_iff e c,
  eq_iff f d,
  contains-insert_pair (a, b) (c, d) pairs,
)

-- A target is in the adjacency exactly when the pair is in the set.
abbrev Mirrors : Adjacency → Pairs → Type 0
Mirrors adjacency pairs =
    (s t : String) → contains t (targets s adjacency) ≡ contains_pair (s, t) pairs

contains-targets-insert :
    (a b s t : String) (adjacency : Adjacency)
    → contains t (targets s (insert a (insert_key b (targets a adjacency)) adjacency))
      ≡ ((a == s && b == t) || contains t (targets s adjacency))
contains-targets-insert a b s t adjacency =
    ap (λ o. contains t (set_or_empty o))
      (get-insert a s (insert_key b (targets a adjacency)) adjacency)
    ∙ cases (Bool-cases (a == s))
  where
    cases :
        ((a == s) ≡ true) ⊎ ((a == s) ≡ false)
        → contains t (
            set_or_empty
              (if a == s then some (insert_key b (targets a adjacency)) else get s adjacency))
          ≡ ((a == s && b == t) || contains t (targets s adjacency))
    cases (inl same) = ground (
      arith,
      eq_iff a s,
      contains-insert_key b t (targets a adjacency),
      ap (λ x. targets x adjacency) ((eq_iff a s).0 same),
    )
    cases (inr other) = ground arith

-- What an edge must have: two different nodes, both known.
abbrev pub IsProper : Adjacency → String × String → Type 0
IsProper adjacency (s, t) =
    (s ≢ t) × (contains_key s adjacency ≡ true) × (contains_key t adjacency ≡ true)

-- An accepted edge is proper and new; it is added to both structures, and no node is.
insert_graph_edge-ok :
    (adjacency adjacency' : Adjacency) (pairs pairs' : Pairs) (a b : String)
    → insert_graph_edge adjacency pairs a b ≡ ok (adjacency', pairs')
    → IsProper adjacency (a, b)
      × (contains_pair (a, b) pairs ≡ false)
      × (adjacency' ≡ insert a (insert_key b (targets a adjacency)) adjacency)
      × (pairs' ≡ insert_pair (a, b) pairs)
unfolding insert_graph_edge
insert_graph_edge-ok adjacency adjacency' pairs pairs' a b h = ground (arith, eq_iff a b)

contains_key-insert :
    (k j : String) (set : List String) (adjacency : Adjacency)
    → contains_key k adjacency ≡ true
    → contains_key j (insert k set adjacency) ≡ contains_key j adjacency
contains_key-insert k j set adjacency h =
    ap is_some (get-insert k j set adjacency) ∙ cases (Bool-cases (k == j))
  where
    cases :
        ((k == j) ≡ true) ⊎ ((k == j) ≡ false)
        → is_some (if k == j then some set else get j adjacency) ≡ contains_key j adjacency
    cases (inl same) = rw same (sym h ∙ ap (λ x. contains_key x adjacency) ((eq_iff k j).0 same))
    cases (inr other) = rw other refl

Proper-same :
    (a a' : Adjacency) (es : Pairs)
    → ((k : String) → contains_key k a' ≡ contains_key k a)
    → All (IsProper a') es
    → All (IsProper a) es
Proper-same a a' [] same h = tt
Proper-same a a' ((s, t) ∷ es) same ((ne, hs, ht), h) =
    ((ne, sym (same s) ∙ hs, sym (same t) ∙ ht), Proper-same a a' es same h)

-- No edge twice.
abbrev pub Distinct : Pairs → Type 0
Distinct [] = Unit
Distinct (e ∷ es) = (contains_pair e es ≡ false) × Distinct es

pub ok_inj :
    {x y : Adjacency × Pairs}
    → ◌≡◌ {A = Result ExecutionError (Adjacency × Pairs)} (ok x) (ok y)
    → x ≡ y
ok_inj h = ground arith

-- What the edges of a loop that ends well have been, and what they have made of the adjacency.
record Built (adjacency adjacency' : Adjacency) (pairs : Pairs) (edges : Pairs) : Type 0 where
  proper : All (IsProper adjacency) edges
  distinct : Distinct edges
  fresh : (p : String × String) → contains_pair p pairs ≡ true → contains_pair p edges ≡ false
  holds :
      (s t : String)
      → contains t (targets s adjacency')
        ≡ (contains_pair (s, t) edges || contains t (targets s adjacency))
  nodes : (k : String) → contains_key k adjacency' ≡ contains_key k adjacency

same_pair : (s t : String) (p : String × String) → pair_eq (s, t) p ≡ true → (s, t) ≡ p
same_pair s t (c, d) h =
    let first : s ≡ c = ground (arith, eq_iff s c) in
    let second : t ≡ d = ground (arith, eq_iff t d) in λ i. (first i, second i)

clash : {b : Bool} → b ≡ false → b ≡ true → ⊥
clash h k = ground arith

Built-step :
    (a a1 a' : Adjacency) (pairs pairs1 : Pairs) (s t : String) (es : Pairs)
    → IsProper a (s, t)
    → contains_pair (s, t) pairs ≡ false
    → a1 ≡ insert s (insert_key t (targets s a)) a
    → pairs1 ≡ insert_pair (s, t) pairs
    → Built a1 a' pairs1 es
    → Built a a' pairs ((s, t) ∷ es)
unfolding contains_pair
Built-step a a1 a' pairs pairs1 s t es proper new same_a same_p b =
    let keys : (k : String) → contains_key k a1 ≡ contains_key k a = λ k.
      ap (contains_key k) same_a
      ∙ contains_key-insert s k (insert_key t (targets s a)) a proper.1 in
    let grown : (p : String × String)
        → contains_pair p pairs1 ≡ (pair_eq (s, t) p || contains_pair p pairs) =
      λ p. ap (contains_pair p) same_p ∙ contains-insert_pair (s, t) p pairs in
    let self : pair_eq (s, t) (s, t) ≡ true = ground (arith, eq_iff s s, eq_iff t t) in
    record {
      proper = (proper, Proper-same a a1 es keys b.proper);
      distinct = (b.fresh (s, t) (ground (arith, grown (s, t), self)), b.distinct);
      fresh = λ p h. elim (Bool-cases (pair_eq (s, t) p)) [
        | inl e ↦ absurd (clash (sym (ap (λ q. contains_pair q pairs) (same_pair s t p e)) ∙ new) h)
        | inr e ↦ ground (arith, b.fresh p, grown p)
      ];
      holds = λ x y. ground (
        arith,
        b.holds x y,
        ap (λ z. contains y (targets x z)) same_a ∙ contains-targets-insert s t x y a,
      );
      nodes = λ k. b.nodes k ∙ keys k;
    }

insert_graph_edges-Built :
    (a a' : Adjacency) (pairs pairs' : Pairs) (es : Pairs)
    → insert_graph_edges a pairs es ≡ ok (a', pairs')
    → Built a a' pairs es
unfolding insert_graph_edges contains_pair
insert_graph_edges-Built a a' pairs pairs' [] h =
    let same : a ≡ a' = ap (λ r. r.0) (ok_inj h) in
    record {
      proper = tt;
      distinct = tt;
      fresh = λ p k. refl;
      holds = λ s t. ap (λ x. contains t (targets s x)) (sym same);
      nodes = λ k. ap (contains_key k) (sym same);
    }
insert_graph_edges-Built a a' pairs pairs' ((s, t) ∷ es) h =
    let (built, e, rest) = >>=-eq-ok (insert_graph_edge a pairs s t) _ h in
    let (proper, new, grown, inserted) = insert_graph_edge-ok a built.0 pairs built.1 s t e in
    Built-step a built.0 a' pairs built.1 s t es proper new grown inserted
      (insert_graph_edges-Built built.0 a' built.1 pairs' es rest)

targets-isolated :
    (nodes : List String) (s t : String) → contains t (targets s (isolated nodes)) ≡ false
unfolding isolated get contains
targets-isolated [] s t = refl
targets-isolated (n ∷ nodes) s t =
    ap (λ o. contains t (set_or_empty o)) (get-insert n s [] (isolated nodes))
    ∙ cases (Bool-cases (n == s)) (targets-isolated nodes s t)
  where
    cases :
        ((n == s) ≡ true) ⊎ ((n == s) ≡ false)
        → contains t (targets s (isolated nodes)) ≡ false
        → contains t (set_or_empty (if n == s then some [] else get s (isolated nodes))) ≡ false
    cases (inl same) rest = rw same refl
    cases (inr other) rest = rw other rest

-- A graph that is built edge by edge from its nodes has only edges between two different nodes of
-- its own, none of them twice, and its adjacency holds exactly these edges.
pub insert_graph_edges-exact :
    (nodes : List String) (edges pairs : Pairs) (adjacency : Adjacency)
    → insert_graph_edges (isolated nodes) [] edges ≡ ok (adjacency, pairs)
    → All (IsProper (isolated nodes)) edges
      × Distinct edges
      × ((s t : String) → contains t (targets s adjacency) ≡ contains_pair (s, t) edges)
      × ((k : String) → contains_key k adjacency ≡ contains_key k (isolated nodes))
insert_graph_edges-exact nodes edges pairs adjacency h =
    let b = insert_graph_edges-Built (isolated nodes) adjacency [] pairs edges h in
    (b.proper, b.distinct, λ s t. b.holds s t ∙ ground (arith, targets-isolated nodes s t), b.nodes)
