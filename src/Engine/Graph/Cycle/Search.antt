-- ===== src/Engine/Graph/Cycle/Search.antt =====
-- The search finds a cycle exactly if there is one: crates/service-engine/src/lib.rs,
-- `graph_has_cycle`.
use service_sdk.Base.{
  ℕ, zero, suc, ◌+◌, ◌<◌, String, ◌≡◌, ◌↔◌, refl, sym, subst, ◌∙◌, ◌⊎◌, inl, inr, Bool, true, false,
  Option, some, List, [], ◌∷◌, length, arith, eq_iff, ◌==◌, Bool-cases,
}
use service_sdk.Base.Maps.{get, keys, contains, insert_key, remove_key}
use service_sdk.Base.Maps.Laws.{contains-insert_key, contains-remove_key}
use service_sdk.Engine.Graph.{Adjacency, targets, set_or_empty}
use service_sdk.Engine.Graph.Cycle.Outside.{outside, outside-same, outside-lt, outside-le-length}
use service_sdk.Engine.Graph.Cycle.{Sets, visit_any, visit, graph_has_cycle}

module _ (adjacency : Adjacency) where
  abbrev pub Edge : String → String → Type 0
  Edge a b = contains b (targets a adjacency) ≡ true

  -- A path of one edge or more.
  pub data Reach (a : String) : String → Type 0 where
    edge : {b : String} → Edge a b → Reach a b
    onward : {b c : String} → Reach a b → Edge b c → Reach a c

  abbrev pub Cycle : Type 0
  Cycle = (node : String) × Reach node node

  -- Every path from the node ends.
  pub data Ends : String → Type 0 where
    ends : {a : String} → ((b : String) → Edge a b → Ends b) → Ends a

  -- A path with its first edge apart.
  uncons : {a c : String} → Reach a c → (b : String) × Edge a b × ((b ≡ c) ⊎ Reach b c)
  uncons {c = c} (edge e) = (c, e, inl refl)
  uncons {c = c} (onward {b = b} r e) =
      let (m, first, rest) = uncons r in (m, first, inr (join rest e))
    where
      join : {m b : String} → (m ≡ b) ⊎ Reach m b → Edge b c → Reach m c
      join (inl same) e = edge (subst (λ x. Edge x c) (sym same) e)
      join (inr r) e = onward r e

  no_cycle : {a : String} → Ends a → Reach a a → ⊥
  no_cycle {a = a} (ends next) r =
      let (b, first, rest) = uncons r in no_cycle (next b first) (turn rest first)
    where
      turn : {b : String} → (b ≡ a) ⊎ Reach b a → Edge a b → Reach b b
      turn {b = b} (inl same) e = edge (subst (λ x. Edge x b) (sym same) e)
      turn (inr r) e = onward r e

  -- A node with targets is a key.
  source_listed : (a b : String) → Edge a b → contains a (keys adjacency) ≡ true
  unfolding get contains
  source_listed a b e = known adjacency e
    where
      known :
          (m : Adjacency) → contains b (set_or_empty (get a m)) ≡ true → contains a (keys m) ≡ true
      known [] h = cc
      known ((k, set) ∷ m) h = ground (arith, known m)

  -- What the search has when it comes to a node: every node on the path reaches it, and no path
  -- from a visited node goes on for ever.
  record Ready (nodes : List String) (s : Sets) : Type 0 where
    reaches :
        (t : String)
        → contains t nodes ≡ true
        → (v : String) → contains v s.visiting ≡ true
        → Reach v t
    sound : (v : String) → contains v s.visited ≡ true → Ends v

  -- What a search that finds nothing leaves.
  record Kept (nodes : List String) (s s' : Sets) : Type 0 where
    same : (v : String) → contains v s'.visiting ≡ contains v s.visiting
    sound : (v : String) → contains v s'.visited ≡ true → Ends v
    grows : (v : String) → contains v s.visited ≡ true → contains v s'.visited ≡ true
    seen : (t : String) → contains t nodes ≡ true → contains t s'.visited ≡ true

  abbrev Outcome : List String → Sets → Option (Bool × Sets) → Type 0
  Outcome nodes s r =
      ((s' : Sets) × (r ≡ some (true, s')) × Cycle)
      ⊎ ((s' : Sets) × (r ≡ some (false, s')) × Kept nodes s s')

  -- The fuel is enough for a call at each of the nodes.
  abbrev HasFuel : ℕ → List String → Sets → Type 0
  HasFuel fuel nodes s =
      (t : String) → contains t nodes ≡ true → outside s.visiting (keys adjacency) < fuel

  contains-head : (t : String) (ts : List String) → contains t (t ∷ ts) ≡ true
  unfolding contains
  contains-head t ts = ground (arith, eq_iff t t)

  contains-tail :
      (t u : String) (ts : List String) → contains t ts ≡ true → contains t (u ∷ ts) ≡ true
  unfolding contains
  contains-tail t u ts h = ground arith

  contains-single : (t u : String) → contains t (u ∷ []) ≡ true → u ≡ t
  unfolding contains
  contains-single t u h = ground (arith, eq_iff u t)

  visit_any-Outcome :
      (fuel : ℕ) (go : String → Sets → Option (Bool × Sets))
      → ((t : String) (s : Sets)
          → Ready (t ∷ []) s
          → HasFuel fuel (t ∷ []) s
          → Outcome (t ∷ []) s (go t s))
      → (ts : List String) (s : Sets) → Ready ts s
      → HasFuel fuel ts s
      → Outcome ts s (visit_any go ts s)
  unfolding visit_any contains
  visit_any-Outcome fuel go spec [] s ready has = inr (
    s,
    refl,
    record { same = λ v. refl; sound = ready.sound; grows = λ v h. h; seen = λ t h. cc },
  )
  visit_any-Outcome fuel go spec (t ∷ ts) s ready has =
      elim (spec t s
        (record {
          reaches = λ u h v on.
              ready.reaches u
                (subst (λ x. contains x (t ∷ ts) ≡ true) (contains-single u t h)
                  (contains-head t ts))
                v on;
          sound = ready.sound;
        })
        (λ u h. has t (contains-head t ts))) [
          | inl (s', e, cycle) ↦ inl (s', rw e refl, cycle)
          | inr (s', e, k) ↦
              elim (visit_any-Outcome fuel go spec ts s'
                (record {
                  reaches =
                      λ u h v on. ready.reaches u (contains-tail u t ts h) v (sym (k.same v) ∙ on);
                  sound = k.sound;
                })
                (λ u h.
                  subst (λ n. n < fuel)
                    (sym (outside-same s.visiting s'.visiting (keys adjacency) k.same))
                    (has t (contains-head t ts)))) [
                      | inl (s'', e', cycle) ↦ inl (s'', rw (e, e') refl, cycle)
                      | inr (s'', e', k') ↦ inr (
                        s'',
                        rw (e, e') refl,
                        record {
                          same = λ v. k'.same v ∙ k.same v;
                          sound = k'.sound;
                          grows = λ v h. k'.grows v (k.grows v h);
                          seen = λ u h. elim (Bool-cases (t == u)) [
                            | inl e'' ↦ k'.grows u (k.seen u (ground arith))
                            | inr e'' ↦ k'.seen u (ground arith)
                          ];
                        },
                      )
                    ]
        ]

  -- A node that is left: off the path again, and visited.
  left-Kept :
      (node : String) (s s' : Sets)
      → contains node s.visiting ≡ false
      → Kept (targets node adjacency) (record s { visiting = insert_key node s.visiting }) s'
      → Kept
          (node ∷ [])
          s
          (record { visiting = remove_key node s'.visiting; visited = insert_key node s'.visited })
  left-Kept node s s' out k = record {
    same = λ v. ground (
      arith,
      eq_iff node v,
      contains-remove_key node v s'.visiting,
      k.same v,
      contains-insert_key node v s.visiting,
    );
    sound = λ v h. elim (Bool-cases (node == v)) [
      | inl e ↦ subst Ends ((eq_iff node v).0 e) (ends (λ b first. k.sound b (k.seen b first)))
      | inr e ↦ k.sound v (ground (arith, contains-insert_key node v s'.visited))
    ];
    grows = λ v h. ground (arith, k.grows v h, contains-insert_key node v s'.visited);
    seen = λ t h.
        ground
          (arith, contains-single t node h, eq_iff node t, contains-insert_key node t s'.visited);
  }

  -- What holds on the path holds behind the node for its targets.
  enter-Ready :
      (node : String) (s : Sets)
      → Ready (node ∷ []) s
      → Ready (targets node adjacency) (record s { visiting = insert_key node s.visiting })
  enter-Ready node s ready = record {
    reaches = λ t e v on. elim (Bool-cases (node == v)) [
      | inl same ↦ edge (subst (λ x. Edge x t) ((eq_iff node v).0 same) e)
      | inr other ↦
          onward
            (ready.reaches node (contains-head node []) v
              (ground (arith, contains-insert_key node v s.visiting)))
            e
    ];
    sound = ready.sound;
  }

  visit-Outcome :
      (fuel : ℕ) (node : String) (s : Sets)
      → Ready (node ∷ []) s
      → HasFuel fuel (node ∷ []) s
      → Outcome (node ∷ []) s (visit adjacency fuel node s)
  unfolding visit
  visit-Outcome zero node s ready has = absurd (omega (arith, has node (contains-head node [])))
  visit-Outcome (suc fuel) node s ready has = elim (Bool-cases (contains node s.visiting)) [
    | inl on ↦ inl (s, rw on refl, (node, ready.reaches node (contains-head node []) node on))
    | inr off ↦ elim (Bool-cases (contains node s.visited)) [
      | inl old ↦ inr (
        s,
        rw (off, old) refl,
        record {
          same = λ v. refl;
          sound = ready.sound;
          grows = λ v h. h;
          seen = λ t h. subst (λ x. contains x s.visited ≡ true) (contains-single t node h) old;
        },
      )
      | inr new ↦
          elim (visit_any-Outcome fuel (visit adjacency fuel) (visit-Outcome fuel)
            (targets node adjacency) (record s { visiting = insert_key node s.visiting })
            (enter-Ready node s ready)
            (λ t e.
              let below =
                outside-lt node s.visiting (keys adjacency) off (source_listed node t e) in
              omega (arith, below, has node (contains-head node [])))) [
                | inl (s', e, cycle) ↦ inl (s', rw (off, new, e) refl, cycle)
                | inr (s', e, k) ↦ inr (
                  record {
                    visiting = remove_key node s'.visiting;
                    visited = insert_key node s'.visited;
                  },
                  rw (off, new, e) refl,
                  left-Kept node s s' off k,
                )
              ]
    ]
  ]

  abbrev nothing_visited : Sets
  nothing_visited = record { visiting = []; visited = [] }

  start-Ready : Ready (keys adjacency) nothing_visited
  unfolding contains
  start-Ready = record { reaches = λ t h v on. absurd (cc); sound = λ v h. absurd (cc) }

  Reach-key : (a b : String) → Reach a b → contains a (keys adjacency) ≡ true
  Reach-key a b r = let (m, first, rest) = uncons r in source_listed a m first

  -- The search always answers, and it answers yes exactly if some node reaches itself over one
  -- edge or more.
  pub graph_has_cycle-decides :
      (found : Bool) × (graph_has_cycle adjacency ≡ some found) × ((found ≡ true) ↔ Cycle)
  unfolding graph_has_cycle
  graph_has_cycle-decides =
      elim (visit_any-Outcome (length (keys adjacency) + 1)
        (visit adjacency (length (keys adjacency) + 1))
        (visit-Outcome (length (keys adjacency) + 1)) (keys adjacency) nothing_visited start-Ready
        (λ t h. omega (arith, outside-le-length [] (keys adjacency)))) [
          | inl (s, e, cycle) ↦ (true, rw e refl, (λ h. cycle, λ c. refl))
          | inr (s, e, k) ↦ (
            false,
            rw e refl,
            (
              λ h. absurd (cc),
              λ (node, r). absurd (no_cycle (k.sound node (k.seen node (Reach-key node node r))) r),
            ),
          )
        ]
